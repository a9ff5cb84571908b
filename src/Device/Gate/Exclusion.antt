-- ===== src/Device/Gate/Exclusion.antt =====
-- Two calls never hold one lock, and never one discoveryGate.
use fastiron_tofu.Prelude.{
  ℕ, zero, suc, ◌+◌, ◌≤◌, ◌≡◌, refl, ap, Bool, true, false, ◌&&◌, List, [], ◌∷◌, ◌++◌, some,
  get_elem?, set, count, ◌==◌, if◌then◌else◌, arith,
}
use fastiron_tofu.Device.Gate.{
  Phase, waiting, probing, discovering, running, finished, Worker, System, Move, enter, give_up,
  enter_discovery, abandon, go_on, turn_back, leave, start_locked, start_discovery, Reaches, here,
  next, idle,
}

-- The phases of a call that stands between its lock and its deferred release.
abbrev pub is_inside : Phase → Bool
is_inside probing = true
is_inside discovering = true
is_inside running = true
is_inside _ = false

-- The calls that hold lock `g`.
abbrev pub holds : ℕ → Worker → Bool
holds g w = w.lock == g && w.locks && is_inside w.phase

-- The calls that hold the discoveryGate of device `g`.
abbrev pub in_discovery : Phase → Bool
in_discovery discovering = true
in_discovery _ = false

abbrev pub discovers : ℕ → Worker → Bool
discovers g w = w.device == g && in_discovery w.phase

-- A slot is full exactly while one call holds its gate.
abbrev pub IsExclusive : System → Type 0
IsExclusive s =
    (g : ℕ)
    → (count (holds g) s.workers ≡ (if s.full g then 1 else 0))
      × (count (discovers g) s.workers ≡ (if s.discoveries g then 1 else 0))

count-set :
    (p : Worker → Bool) (ws : List Worker) (i : ℕ) (w v : Worker)
    → get_elem? ws i ≡ some w
    → count p (set ws i v) + (if p w then 1 else 0) ≡ count p ws + (if p v then 1 else 0)
count-set p [] i w v h = absurd (ground arith)
count-set p (x ∷ ws) zero w v h = ground arith
count-set p (x ∷ ws) (suc i) w v h = omega (arith, count-set p ws i w v h)

count-append :
    (p : Worker → Bool) (ws : List Worker) (v : Worker)
    → count p (ws ++ v ∷ []) ≡ count p ws + (if p v then 1 else 0)
count-append p [] v = omega arith
count-append p (x ∷ ws) v = omega (arith, count-append p ws v)

Move-IsExclusive : {s t : System} → Move s t → IsExclusive s → IsExclusive t
Move-IsExclusive {s} (enter i w at phase locks empty e) inv g =
    let v : Worker = record w { phase = probing } in
    ground (
      arith,
      (inv g).0,
      (inv g).1,
      count-set (holds g) s.workers i w v at,
      count-set (discovers g) s.workers i w v at,
    )
Move-IsExclusive {s} (give_up i w at phase e) inv g =
    let v : Worker = record w { phase = finished } in
    ground (
      arith,
      (inv g).0,
      (inv g).1,
      count-set (holds g) s.workers i w v at,
      count-set (discovers g) s.workers i w v at,
    )
Move-IsExclusive {s} (enter_discovery i w at phase empty e) inv g =
    let v : Worker = record w { phase = discovering } in
    ground (
      arith,
      (inv g).0,
      (inv g).1,
      count-set (holds g) s.workers i w v at,
      count-set (discovers g) s.workers i w v at,
    )
Move-IsExclusive {s} (abandon i w at phase e) inv g =
    let v : Worker = record w { phase = finished } in
    ground (
      arith,
      (inv g).0,
      (inv g).1,
      count-set (holds g) s.workers i w v at,
      count-set (discovers g) s.workers i w v at,
    )
Move-IsExclusive {s} (go_on i w at phase locks e) inv g =
    let v : Worker = record w { phase = running } in
    ground (
      arith,
      (inv g).0,
      (inv g).1,
      count-set (holds g) s.workers i w v at,
      count-set (discovers g) s.workers i w v at,
    )
Move-IsExclusive {s} (turn_back i w at phase e) inv g =
    let v : Worker = record w { phase = finished } in
    ground (
      arith,
      (inv g).0,
      (inv g).1,
      count-set (holds g) s.workers i w v at,
      count-set (discovers g) s.workers i w v at,
    )
Move-IsExclusive {s} (leave i w at phase e) inv g =
    let v : Worker = record w { phase = finished } in
    ground (
      arith,
      (inv g).0,
      (inv g).1,
      count-set (holds g) s.workers i w v at,
      count-set (discovers g) s.workers i w v at,
    )
Move-IsExclusive {s} (start_locked lock device e) inv g =
    let v : Worker = record { lock = lock; device = device; locks = true; phase = waiting } in
    ground (
      arith,
      (inv g).0,
      (inv g).1,
      count-append (holds g) s.workers v,
      count-append (discovers g) s.workers v,
    )
Move-IsExclusive {s} (start_discovery lock device e) inv g =
    let v : Worker = record { lock = lock; device = device; locks = false; phase = probing } in
    ground (
      arith,
      (inv g).0,
      (inv g).1,
      count-append (holds g) s.workers v,
      count-append (discovers g) s.workers v,
    )

pub Reaches-IsExclusive : {s : System} → Reaches idle s → IsExclusive s
Reaches-IsExclusive here = λ g. (refl, refl)
Reaches-IsExclusive (next r m) = Move-IsExclusive m (Reaches-IsExclusive r)

count-pos :
    (p : Worker → Bool) (ws : List Worker) (i : ℕ) (w : Worker)
    → get_elem? ws i ≡ some w
    → p w ≡ true
    → 1 ≤ count p ws
count-pos p [] i w at h = absurd (ground arith)
count-pos p (x ∷ ws) zero w at h = ground arith
count-pos p (x ∷ ws) (suc i) w at h = omega (arith, count-pos p ws i w at h)

same_of_count :
    (p : Worker → Bool) (ws : List Worker) (i j : ℕ) (v w : Worker)
    → get_elem? ws i ≡ some v
    → get_elem? ws j ≡ some w
    → p v ≡ true
    → p w ≡ true
    → count p ws ≤ 1
    → i ≡ j
same_of_count p [] i j v w f g hv hw one = absurd (ground arith)
same_of_count p (x ∷ ws) zero zero v w f g hv hw one = refl
same_of_count p (x ∷ ws) zero (suc j) v w f g hv hw one =
    absurd (ground (arith, count-pos p ws j w g hw))
same_of_count p (x ∷ ws) (suc i) zero v w f g hv hw one =
    absurd (ground (arith, count-pos p ws i v f hv))
same_of_count p (x ∷ ws) (suc i) (suc j) v w f g hv hw one =
    ap suc (same_of_count p ws i j v w f g hv hw (omega arith))

-- In every state that the calls reach from the start, two calls that have locked the same host and
-- not released it are the same call, and the slot of that lock is full.
pub Reaches-exclusive :
    {s : System} (i j : ℕ) (v w : Worker)
    → Reaches idle s
    → get_elem? s.workers i ≡ some v
    → get_elem? s.workers j ≡ some w
    → holds v.lock v ≡ true
    → holds v.lock w ≡ true
    → (i ≡ j) × (s.full v.lock ≡ true)
Reaches-exclusive {s} i j v w r f g hv hw =
    let inv = (Reaches-IsExclusive r v.lock).0 in
    let one : count (holds v.lock) s.workers ≤ 1 = ground arith in
    (
      same_of_count (holds v.lock) s.workers i j v w f g hv hw one,
      ground (arith, count-pos (holds v.lock) s.workers i v f hv),
    )

-- In every state that the calls reach from the start, two calls that hold the discoveryGate of the
-- same device are the same call, and the slot of that gate is full.
pub Reaches-discovers :
    {s : System} (i j : ℕ) (v w : Worker)
    → Reaches idle s
    → get_elem? s.workers i ≡ some v
    → get_elem? s.workers j ≡ some w
    → discovers v.device v ≡ true
    → discovers v.device w ≡ true
    → (i ≡ j) × (s.discoveries v.device ≡ true)
Reaches-discovers {s} i j v w r f g hv hw =
    let inv = (Reaches-IsExclusive r v.device).1 in
    let one : count (discovers v.device) s.workers ≤ 1 = ground arith in
    (
      same_of_count (discovers v.device) s.workers i j v w f g hv hw one,
      ground (arith, count-pos (discovers v.device) s.workers i v f hv),
    )

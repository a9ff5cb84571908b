-- ===== src/Device/Gate.antt =====
-- internal/fastiron/device.go: the locks of the hosts and the discoveryGates of the devices, and
-- the calls that take them. Each is a channel of one slot, which a send fills and a receive empties.
pub mod Exclusion
use fastiron_tofu.Prelude.{
  ℕ, ◌+◌, ◌≡◌, Bool, true, false, not, ◌&&◌, List, [], ◌∷◌, ◌++◌, map, Option, none, some, Bytes,
  get_elem?, set, leb, ltb, length, ◌==◌, if◌then◌else◌, bytes_eq,
}

-- `strings.ToLower` on ASCII.
pub to_lower : Bytes → Bytes
to_lower = map (λ c. if leb b'A' c && leb c b'Z' then c + 32 else c)

-- `strings.TrimSuffix(host, ".")`
pub trim_dot : Bytes → Bytes
trim_dot [] = []
trim_dot (c ∷ []) = if c == b'.' then [] else c ∷ []
trim_dot (c ∷ d ∷ more) = c ∷ trim_dot (d ∷ more)

-- The key of a host.
unfoldable pub host_key : Bytes → Bytes
unfolding to_lower trim_dot
host_key host = to_lower (trim_dot host)

-- Where a call stands: it waits for the lock of its host, waits for discoveryGate, holds that gate,
-- runs its callback or save, or has returned.
pub data Phase : Type 0 where
  waiting probing discovering running finished : Phase

-- A call on a device: an update or a save, which locks its host, or a bare Discover, which does not.
pub record Worker : Type 0 where
  pub lock : ℕ
  pub device : ℕ
  pub locks : Bool
  pub phase : Phase

-- The slots of the host locks and of the devices' discoveryGates, and the calls.
pub record System : Type 0 where
  pub full : ℕ → Bool
  pub discoveries : ℕ → Bool
  pub workers : List Worker

-- A slot is written.
abbrev pub fill : (ℕ → Bool) → ℕ → Bool → ℕ → Bool
fill full g b h = if h == g then b else full h

-- The host locks behind the return of a call that runs its deferred release, if it took one.
abbrev pub released : Worker → (ℕ → Bool) → ℕ → Bool
released w full = if w.locks then fill full w.lock false else full

-- One move of one call.
pub data Move (s t : System) : Type 0 where
  -- `d.gate <- struct{}{}`
  enter :
      (i : ℕ) (w : Worker)
      → get_elem? s.workers i ≡ some w
      → w.phase ≡ waiting
      → w.locks ≡ true
      → s.full w.lock ≡ false
      → t ≡ record s {
        full = fill s.full w.lock true;
        workers = set s.workers i (record w { phase = probing });
      }
      → Move s t
  -- `<-ctx.Done()` in `lock`
  give_up :
      (i : ℕ) (w : Worker)
      → get_elem? s.workers i ≡ some w
      → w.phase ≡ waiting
      → t ≡ record s { workers = set s.workers i (record w { phase = finished }) }
      → Move s t
  -- `d.discoveryGate <- struct{}{}`
  enter_discovery :
      (i : ℕ) (w : Worker)
      → get_elem? s.workers i ≡ some w
      → w.phase ≡ probing
      → s.discoveries w.device ≡ false
      → t ≡ record s {
        discoveries = fill s.discoveries w.device true;
        workers = set s.workers i (record w { phase = discovering });
      }
      → Move s t
  -- `<-ctx.Done()` in `Discover`
  abandon :
      (i : ℕ) (w : Worker)
      → get_elem? s.workers i ≡ some w
      → w.phase ≡ probing
      → t ≡ record s {
        full = released w s.full;
        workers = set s.workers i (record w { phase = finished });
      }
      → Move s t
  -- `Discover` succeeds, behind the lock.
  go_on :
      (i : ℕ) (w : Worker)
      → get_elem? s.workers i ≡ some w
      → w.phase ≡ discovering
      → w.locks ≡ true
      → t ≡ record s {
        discoveries = fill s.discoveries w.device false;
        workers = set s.workers i (record w { phase = running });
      }
      → Move s t
  -- `Discover` fails, or is all that was asked.
  turn_back :
      (i : ℕ) (w : Worker)
      → get_elem? s.workers i ≡ some w
      → w.phase ≡ discovering
      → t ≡ record s {
        full = released w s.full;
        discoveries = fill s.discoveries w.device false;
        workers = set s.workers i (record w { phase = finished });
      }
      → Move s t
  -- The callback and the save have ended.
  leave :
      (i : ℕ) (w : Worker)
      → get_elem? s.workers i ≡ some w
      → w.phase ≡ running
      → t ≡ record s {
        full = released w s.full;
        workers = set s.workers i (record w { phase = finished });
      }
      → Move s t
  start_locked :
      (lock device : ℕ)
      → t ≡ record s {
        workers =
            s.workers
            ++ record { lock = lock; device = device; locks = true; phase = waiting } ∷ [];
      }
      → Move s t
  start_discovery :
      (lock device : ℕ)
      → t ≡ record s {
        workers =
            s.workers
            ++ record { lock = lock; device = device; locks = false; phase = probing } ∷ [];
      }
      → Move s t

pub data Reaches (s : System) : System → Type 0 where
  here : Reaches s s
  next : {t u : System} → Reaches s t → Move t u → Reaches s u

abbrev pub idle : System
idle = record { full = λ g. false; discoveries = λ g. false; workers = [] }

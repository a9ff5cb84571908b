-- ===== src/Config/Lags.antt =====
-- internal/config/lag.go: `LAGs`, the aggregates with their members.
pub mod Members
mod Tests
use fastiron_tofu.Prelude.{
  ℕ, Bool, true, false, not, ◌&&◌, ◌||◌, List, [], ◌∷◌, ◌++◌, Option, none, some, Bytes, Result, ok,
  err, message, ◌>>=◌, ◌>>◌, reject_if, ◌==◌, ltb, if◌then◌else◌, bytes_eq, has_text, same_place,
  loop,
}
use fastiron_tofu.Config.Command.{Command, Document, lag_ports}
use fastiron_tofu.Config.Select.{for_selected}
use fastiron_tofu.Config.Globals.{is_lag_header}
use fastiron_tofu.Config.Ports.{PortMap, inventory, resolve_ports}

pub record Lag : Type 0 where
  pub id : ℕ
  pub name : Bytes
  pub mode : Bytes
  pub members : List Bytes

-- `seen` and `lag.Members` of one aggregate, and the map `members` of all.
pub record ClaimState : Type 0 where
  pub seen : Bool
  pub resolved : List Bytes
  pub taken : List Bytes

-- The loop over the resolved names.
pub claim_all : List Bytes → List Bytes → Result (List Bytes)
unfolding has_text
claim_all [] taken = ok taken
claim_all (name ∷ more) taken =
    reject_if (has_text name taken) "native LAG member is assigned more than once"
    >> claim_all more (name ∷ taken)

abbrev pub is_member_list : ℕ → Command → Bool
is_member_list i c = same_place c.parent (some i) && c.kind == lag_ports

unfoldable pub member_body : PortMap → Command → ClaimState → Result ClaimState
unfolding claim_all resolve_ports
member_body ports c s = do
  reject_if (s.seen || not c.valid) "native LAG members are malformed or repeated"
  resolved ← resolve_ports c ports
  taken ← claim_all resolved s.taken
  ok (record { seen = true; resolved = resolved; taken = taken })

-- The order of Go strings.
pub text_before : Bytes → Bytes → Bool
text_before [] [] = false
text_before [] (d ∷ ds) = true
text_before (c ∷ cs) [] = false
text_before (c ∷ cs) (d ∷ ds) = ltb c d || c == d && text_before cs ds

pub insert_text : Bytes → List Bytes → List Bytes
unfolding text_before
insert_text x [] = x ∷ []
insert_text x (y ∷ ys) = if text_before y x then y ∷ insert_text x ys else x ∷ y ∷ ys

-- `slices.Sort(lag.Members)`
unfoldable pub sort_texts : List Bytes → List Bytes
unfolding insert_text
sort_texts [] = []
sort_texts (x ∷ xs) = insert_text x (sort_texts xs)

pub insert_lag : Lag → List Lag → List Lag
insert_lag l [] = l ∷ []
insert_lag l (k ∷ ks) = if ltb k.id l.id then k ∷ insert_lag l ks else l ∷ k ∷ ks

-- `slices.SortFunc(lags, …)`
unfoldable pub sort_lags : List Lag → List Lag
unfolding insert_lag
sort_lags [] = []
sort_lags (l ∷ ls) = insert_lag l (sort_lags ls)

-- The keys of `ids` and `labels` are those of the aggregates so far.
abbrev pub is_repeated_lag : Command → List Lag → Bool
is_repeated_lag c [] = false
is_repeated_lag c (l ∷ ls) = (l.id == c.number || bytes_eq l.name c.name) || is_repeated_lag c ls

-- The aggregates so far, and `members`.
pub record LagsState : Type 0 where
  pub lags : List Lag
  pub taken : List Bytes

unfoldable pub lag_block : Document → PortMap → ℕ → Command → LagsState → Result LagsState
unfolding member_body for_selected sort_texts bytes_eq
lag_block d ports i c s = do
  reject_if (not c.valid || ltb c.number 1) "native LAG header is malformed"
  reject_if (is_repeated_lag c s.lags) "native LAG repeats an identity or name"
  m ←
      for_selected (is_member_list i) (member_body ports) d.commands
        (record { seen = false; resolved = []; taken = s.taken })
  ok (record {
    lags =
        s.lags
        ++ record { id = c.number; name = c.name; mode = c.family; members = sort_texts m.resolved }
          ∷ [];
    taken = m.taken;
  })

unfoldable pub lags_step : Document → PortMap → ℕ → Command → LagsState → Result LagsState
unfolding lag_block is_lag_header
lags_step d ports i c s = if is_lag_header c then lag_block d ports i c s else ok s

-- `LAGs`
unfoldable pub lags : Document → List Bytes → Result (List Lag)
unfolding lags_step sort_lags inventory loop
lags d names = do
  ports ←
      inventory "LAG inventory contains an invalid Ethernet identity"
        "LAG inventory repeats an Ethernet identity" names []
  s ← loop (lags_step d ports) 0 d.commands (record { lags = []; taken = [] })
  ok (sort_lags s.lags)

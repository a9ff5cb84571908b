-- ===== src/Config/LagInterface/Settings.antt =====
-- What LAGInterface reads, by the commands below the header.
use fastiron_tofu.Prelude.{
  ℕ, ◌+◌, ◌≤◌, ◌≡◌, refl, sym, ◌∙◌, ap, subst, Bool, true, false, not, List, [], ◌∷◌, Bytes, Option,
  Result, ok, ok-injective, ◌>>=◌, >>=-eq-ok, ◌>>◌, reject_if, reject_if-eq-ok, keep, count,
  if◌then◌else◌, arith, ◌==◌,
}
use fastiron_tofu.Config.Command.{Command, Document, port_name, admin_disable}
use fastiron_tofu.Config.Select.{for_selected, for_selected_lem, body_all}
use fastiron_tofu.Config.Globals.{has_lag}
use fastiron_tofu.Config.Interface.{interface_header, is_child}
use fastiron_tofu.Config.Ve.Rows.{bit}
use fastiron_tofu.Config.LagInterface.{
  LagInterface, LagState, lag_start, lag_name, lag_disable, lag_body, lag_interface,
}

abbrev pub sets_name : Command → Bool
sets_name c = c.kind == port_name

abbrev pub turns_off : Command → Bool
turns_off c = c.kind == admin_disable

-- The name that the last name command sets.
abbrev pub name_in : Bytes → List Command → Bytes
name_in found [] = found
name_in found (c ∷ cs) = name_in (if sets_name c then c.name else found) cs

abbrev Reads : List Command → LagState → LagState → Type 0
Reads cs s t =
    (t.lag.port_name ≡ name_in s.lag.port_name cs)
    × ((bit t.named ≡ bit s.named + count sets_name cs)
        × (bit (not t.lag.enabled) ≡ bit (not s.lag.enabled) + count turns_off cs))

lag_body-Reads : (c : Command) (s t : LagState) → lag_body c s ≡ ok t → Reads (c ∷ []) s t
unfolding lag_body lag_name lag_disable
lag_body-Reads c s t e = ground arith

body_all-Reads : (cs : List Command) (s u : LagState) → body_all lag_body cs s ≡ ok u → Reads cs s u
unfolding body_all
body_all-Reads [] s u e = subst (Reads [] s) (ok-injective e) (refl, (omega arith, omega arith))
body_all-Reads (c ∷ cs) s u e =
    let (t, stepped, later) = >>=-eq-ok (lag_body c s) (λ t. body_all lag_body cs t) e in
    let (name, (named, on)) = lag_body-Reads c s t stepped in
    let (name', (named', on')) = body_all-Reads cs t u later in
    (rw (← name) name', (omega (arith, named, named'), omega (arith, on, on')))

-- The virtual interface of an aggregate, by the commands `cs` below its header.
abbrev pub StatesLag : LagInterface → List Command → Type 0
StatesLag lag cs =
    (lag.port_name ≡ name_in [] cs)
    × ((count sets_name cs ≤ 1) × (bit (not lag.enabled) ≡ count turns_off cs))

abbrev pub HasLagInterface : Document → ℕ → Bytes → LagInterface → Type 0
HasLagInterface d id name lag =
    (has_lag d id ≡ ok true)
    × ((header : Option ℕ) × ((interface_header d name ≡ ok header)
          × StatesLag lag (keep (is_child header) d.commands)))

at_most_named : (b : Bool) (n : ℕ) → bit b ≡ 0 + n → n ≤ 1
at_most_named b n e = ground arith

-- An answer of LAGInterface is one for an aggregate that HasLAG confirms. It holds the name of the
-- port-name command below the header of the interface, empty for none, there is at most one such
-- command, and the interface is off exactly if one disable command stands there, which never has
-- two.
pub lag_interface-HasLagInterface :
    (d : Document) (id : ℕ) (name : Bytes) (lag : LagInterface)
    → lag_interface d id name ≡ ok lag
    → HasLagInterface d id name lag
unfolding lag_interface
lag_interface-HasLagInterface d id name lag e =
    let (exists, answered, chosen) =
      >>=-eq-ok (has_lag d id)
        (λ exists. reject_if (not exists) "native LAG does not exist" >> at_header d name) e in
    let (u, there, found) =
      >>=-eq-ok (reject_if (not exists) "native LAG does not exist") (λ _. at_header d name)
        chosen in
    let (header, at, read) =
      >>=-eq-ok (interface_header d name)
        (λ h. for_selected (is_child h) lag_body d.commands lag_start >>= λ s. ok s.lag) found in
    let (s, looped, result) =
      >>=-eq-ok (for_selected (is_child header) lag_body d.commands lag_start) (λ s. ok s.lag)
        read in
    let (named, (once, on)) =
      body_all-Reads (keep (is_child header) d.commands) lag_start s
        (sym (for_selected_lem (is_child header) lag_body d.commands lag_start) ∙ looped) in
    let holds : exists ≡ true =
      not_false exists (reject_if-eq-ok (not exists) "native LAG does not exist" there) in
    (
      answered ∙ ap ok holds,
      (
        header,
        (
          at,
          subst (λ l. StatesLag l (keep (is_child header) d.commands)) (ok-injective result)
              (named, (at_most_named s.named _ once, omega (arith, on))),
        ),
      ),
    )
  where
    at_header : Document → Bytes → Result LagInterface
    at_header d name = do
      header ← interface_header d name
      s ← for_selected (is_child header) lag_body d.commands lag_start
      ok s.lag

    not_false : (b : Bool) → not b ≡ false → b ≡ true
    not_false b h = ground arith

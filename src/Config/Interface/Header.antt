-- ===== src/Config/Interface/Header.antt =====
-- The interface header that is found is the only one.
use fastiron_tofu.Prelude.{
  ℕ, ◌+◌, ◌≡◌, List, [], ◌∷◌, Bytes, Option, none, some, Result, ok, err, message, loop, places,
  Bool-cases, inl, inr, refl,
}
use fastiron_tofu.Config.Command.{Command, Document}
use fastiron_tofu.Config.Interface.{is_interface, header_step, interface_header}

-- No position, the only one, or an error for more.
abbrev pub at_most_one : List ℕ → Result (Option ℕ)
at_most_one [] = ok none
at_most_one (i ∷ []) = ok (some i)
at_most_one (i ∷ j ∷ more) = err (message "native configuration repeats the requested interface")

header_after :
    (name : Bytes) (i j : ℕ) (cs : List Command)
    → loop (header_step name) i cs (some j) ≡ at_most_one (j ∷ places (is_interface name) i cs)
unfolding loop header_step
header_after name i j [] = refl
header_after name i j (c ∷ cs) = elim (Bool-cases (is_interface name c)) [
  | inl e ↦ rw e
  | inr e ↦ rw e (header_after name (i + 1) j cs)
]

header_before :
    (name : Bytes) (i : ℕ) (cs : List Command)
    → loop (header_step name) i cs none ≡ at_most_one (places (is_interface name) i cs)
unfolding loop header_step
header_before name i [] = refl
header_before name i (c ∷ cs) = elim (Bool-cases (is_interface name c)) [
  | inl e ↦ rw e (header_after name (i + 1) i cs)
  | inr e ↦ rw e (header_before name (i + 1) cs)
]

-- The header of an interface is the position of its only valid top-level stanza, none if it has
-- none, and an error if it has more than one.
pub interface_header-at_most_one :
    (d : Document) (name : Bytes)
    → interface_header d name ≡ at_most_one (places (is_interface name) 0 d.commands)
unfolding interface_header
interface_header-at_most_one d name = header_before name 0 d.commands

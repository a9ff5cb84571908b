-- ===== src/Config/Syntax/Bounds.antt =====
-- The ports of a valid command are positive and fit the machine words that hold them.
use fastiron_tofu.Prelude.{
  ℕ, zero, suc, ◌≤◌, ◌<◌, ◌≡◌, ap, Bool, true, false, ◌&&◌, ◌||◌, List, [], ◌∷◌, ◌++◌, Bytes, slice,
  Option, none, some, ◌==◌, if◌then◌else◌, All-append, arith, All, get_or,
}
use fastiron_tofu.Ragel.Invariant.{run-keeps}
use fastiron_tofu.Config.Command.{
  unknown, inline_power_port, inline_power, static_route, spanning_tree, PortId, PortRange,
  ParsedCommand,
}
use fastiron_tofu.Config.CommandKind.{command_kind}
use fastiron_tofu.Config.Numbers.{parse_below, i64_limit, parse_int64, clamp, decimal_onto}
use fastiron_tofu.Config.PortId.{parse_ethernet_port}
use fastiron_tofu.Config.PortId.Canonical.{InRange, parse_ethernet_port-injective}
use fastiron_tofu.Config.Syntax.{
  start_syntax, command_kind, SyntaxState, syntax_machine, syntax_action, argument_states,
  port_list_states, feature_states, set_last_port, parse_command, initial_parse, start_syntax,
  argument_states, port_list_states, feature_states,
}

-- One branch of a test keeps what both keep.
either {ℓ κ} :
    {S : Type ℓ} (P : S → Type κ) (b : Bool) {x y : S} → P x → P y → P (if b then x else y)
either P true h k = h
either P false h k = k

-- So does a choice by position.
get_or-keeps {ℓ κ} :
    {S : Type ℓ} (P : S → Type κ) (xs : List S) (i : ℕ) (d : S) → All P xs → P d → P (get_or xs i d)
get_or-keeps P [] i d h k = k
get_or-keeps P (x ∷ xs) zero d (hx, h) k = hx
get_or-keeps P (x ∷ xs) (suc i) d (hx, h) k = get_or-keeps P xs i d h k

clamp_below : (limit : ℕ) (n : Option ℕ) → 1 ≤ limit → (clamp limit n).0 < limit
clamp_below limit none pos = pos
clamp_below limit (some n) pos = ground arith

parse_below_bound : (limit : ℕ) (text : Bytes) → 1 ≤ limit → (parse_below limit text).0 < limit
unfolding parse_below
parse_below_bound limit [] pos = pos
parse_below_bound limit (c ∷ cs) pos = clamp_below limit (decimal_onto 0 (c ∷ cs)) pos

parse_int64_bound : (text : Bytes) → (parse_int64 text).0 < i64_limit
unfolding parse_int64
parse_int64_bound [] = omega arith
parse_int64_bound (c ∷ cs) =
    either (λ (r : ℕ × Bool). r.0 < i64_limit) (c == b'+')
      (parse_below_bound i64_limit cs (omega arith))
      (parse_below_bound i64_limit (c ∷ cs) (omega arith))

-- Each number that a command holds is below 2^63.
abbrev IsBounded : ParsedCommand → Type 0
IsBounded c =
    (c.number < i64_limit)
    × ((c.med.vlan < i64_limit)
        × ((c.med.priority < i64_limit)
            × ((c.med.dscp < i64_limit)
                × ((c.poe.priority < i64_limit)
                    × ((c.poe.power_by_class < i64_limit)
                        × (c.poe.power_limit_milliwatts < i64_limit))))))

-- Both ends of each range are ports whose numbers are positive and fit 64 bits.
abbrev pub HasPorts : List PortRange → Type 0
HasPorts spans = All (λ span. InRange span.first × InRange span.last) spans

abbrev Captures : SyntaxState → Type 0
Captures s = IsBounded s.parsed × (s.number_valid ≡ true → HasPorts s.parsed.port_ranges)

both : {x y : Bool} → (x && y) ≡ true → (x ≡ true) × (y ≡ true)
both h = (ground arith, ground arith)

parsed_port-InRange :
    (text : Bytes) → (parse_ethernet_port text).1 ≡ true → InRange (parse_ethernet_port text).0
parsed_port-InRange text ok =
    (parse_ethernet_port-injective text (parse_ethernet_port text).0
      (ap (λ v. ((parse_ethernet_port text).0, v)) ok)).0

HasPorts-first :
    (id : PortId) (spans : List PortRange)
    → InRange id
    → HasPorts spans
    → HasPorts (spans ++ record { first = id; last = id } ∷ [])
HasPorts-first id [] ok h = ((ok, ok), tt)
HasPorts-first id (r ∷ more) ok (hr, h) = (hr, HasPorts-first id more ok h)

set_last_port-HasPorts :
    (id : PortId) (spans : List PortRange)
    → InRange id
    → HasPorts spans
    → HasPorts (set_last_port id spans)
unfolding set_last_port
set_last_port-HasPorts id [] ok h = tt
set_last_port-HasPorts id (r ∷ []) ok (hr, h) = ((hr.0, ok), tt)
set_last_port-HasPorts id (r ∷ q ∷ more) ok (hr, h) =
    (hr, set_last_port-HasPorts id (q ∷ more) ok h)

argument_states-Captures :
    (text : Bytes) (p : ℕ) (s : SyntaxState) → Captures s → All Captures (argument_states text p s)
unfolding argument_states
argument_states-Captures text p s h = (
  h,
  (
    ((parse_int64_bound text, h.0.1), λ v. h.1 (both v).0),
    (h, (h, (h, (h, (h, (h, (h, (h, (h, (h, tt)))))))))),
  ),
)

port_list_states-Captures :
    (text : Bytes) (s : SyntaxState) → Captures s → All Captures (port_list_states text s)
unfolding port_list_states
port_list_states-Captures text s h =
    let (number, (vlan, (priority, (dscp, poe)))) = h.0 in
    (
      (h.0, λ v. HasPorts-first _ _ (parsed_port-InRange text (both v).1) (h.1 (both v).0)),
      (
        (
          h.0,
          λ v. set_last_port-HasPorts _ _ (parsed_port-InRange text (both v).1) (h.1 (both v).0),
        ),
        (
          h,
          (
            h,
            (
              h,
              (
                h,
                (
                  ((number, (number, (priority, (dscp, poe)))), h.1),
                  (
                    ((number, (vlan, (number, (dscp, poe)))), h.1),
                    (((number, (vlan, (priority, (number, poe)))), h.1), (h, (h, tt))),
                  ),
                ),
              ),
            ),
          ),
        ),
      ),
    )

feature_states-Captures :
    (text lag_text : Bytes) (p : ℕ) (s : SyntaxState)
    → Captures s
    → All Captures (feature_states text lag_text p s)
unfolding feature_states
feature_states-Captures text lag_text p s h =
    let (number, (vlan, (priority, (dscp, (first, (class, limit)))))) = h.0 in
    (
      ((number, (vlan, (priority, (dscp, (number, (class, limit)))))), λ v. h.1 (both v).0),
      (
        ((number, (vlan, (priority, (dscp, (first, (number, limit)))))), λ v. h.1 (both v).0),
        (
          ((number, (vlan, (priority, (dscp, (first, (class, number)))))), λ v. h.1 (both v).0),
          (h, (h, (h, (h, (h, (h, (h, (h, tt)))))))),
        ),
      ),
    )

syntax_action-Captures :
    (input : Bytes) (a p : ℕ) (s : SyntaxState) → Captures s → Captures (syntax_action input p a s)
unfolding syntax_action
syntax_action-Captures input a p s h =
    let text = slice input s.start p in
    let first = argument_states text p s in
    let second = port_list_states text s in
    let third = feature_states text (slice input s.lag_start s.start) p s in
    get_or-keeps Captures (first ++ (second ++ third)) a s
      (All-append Captures first (second ++ third) (argument_states-Captures text p s h) (
        All-append Captures second third (port_list_states-Captures text s h)
          (feature_states-Captures text (slice input s.lag_start s.start) p s h)))
      h

set_bounds :
    (n m : ℕ)
    → n < i64_limit
    → m < i64_limit
    → (n < i64_limit)
      × ((0 < i64_limit)
          × ((0 < i64_limit)
              × ((0 < i64_limit) × ((m < i64_limit) × ((0 < i64_limit) × (0 < i64_limit))))))
set_bounds n m of_n of_m =
    (of_n, (omega arith, (omega arith, (omega arith, (of_m, (omega arith, omega arith))))))

initial_parse-IsBounded :
    (input : Bytes) → IsBounded (initial_parse input) × HasPorts (initial_parse input).port_ranges
unfolding initial_parse
initial_parse-IsBounded input =
    let kind = command_kind input in
    let Start : ParsedCommand → Type 0 = λ c. IsBounded c × HasPorts c.port_ranges in
    either Start (kind == spanning_tree) (set_bounds 32768 0 (omega arith) (omega arith), tt)
      (either Start (kind == inline_power || kind == inline_power_port)
        (set_bounds 0 3 (omega arith) (omega arith), tt)
        (set_bounds 0 0 (omega arith) (omega arith), tt))

parse_command-Captures :
    (input : Bytes)
    → IsBounded (parse_command input)
      × ((parse_command input).valid ≡ true → HasPorts (parse_command input).port_ranges)
unfolding parse_command
parse_command-Captures input =
    let Good : ParsedCommand → Type 0 =
      λ c. IsBounded c × (c.valid ≡ true → HasPorts c.port_ranges) in
    let kind = command_kind input in
    let text = input ++ b'\n' ∷ [] in
    let (bounded, ports) = initial_parse-IsBounded input in
    let kept =
      run-keeps syntax_machine (λ a p s. syntax_action text p a s) Captures
        (λ a p s h. syntax_action-Captures text a p s h) text 0 1 (start_syntax input)
        (bounded, λ _. ports) in
    either Good (kind == static_route) (set_bounds 0 0 (omega arith) (omega arith), λ _. tt)
      (either Good (kind == unknown) (set_bounds 0 0 (omega arith) (omega arith), λ _. tt)
        (kept.0, λ v. kept.1 (both v).1))

-- Where parseCommand calls a command valid, all numbers of both ends of each of its port ranges
-- are from 1 and below 2^64.
pub parse_command-HasPorts :
    (input : Bytes)
    → (parse_command input).valid ≡ true
    → HasPorts (parse_command input).port_ranges
parse_command-HasPorts input = (parse_command-Captures input).1

-- ===== src/Config/Document.antt =====
-- internal/config/config.go: `Document.String` and `Document.line`; internal/config/parser.go:
-- `Parse`, the machine `configuration`. The stack has its top at the head. `parse_command` stands
-- for `parseCommand`, which Config/Syntax.antt models.
pub mod Nesting
pub mod Lines
pub mod Shape
use fastiron_tofu.Prelude.{
  ℕ, zero, suc, ◌+◌, ◌-◌, ◌/◌, ◌%◌, Bool, true, false, not, ◌&&◌, ◌||◌, List, [], ◌∷◌, ◌++◌, Option,
  none, some, Bytes, codes, slice, leb, ltb, length, get_elem?, map, ◌==◌, if◌then◌else◌, Result,
  ok, err, message, Error, String, ◌>>=◌, ◌>>◌, reject_if, bytes_eq, has_prefix, trim_left,
  trim_right, trim_prefix, cut_prefix, trim_space, is_blank, is_ascii_space, has_byte, is_none,
}
use fastiron_tofu.Ragel.{Machine, Flow, go, halt, run}
use fastiron_tofu.Config.Command.{Command, Document, ParsedCommand, empty_document}
use fastiron_tofu.Config.Words.{command_fields}

-- `strings.Join(lines, "\n")`
pub join_lines : List Bytes → Bytes
join_lines [] = []
join_lines (l ∷ []) = l
join_lines (l ∷ m ∷ more) = l ++ b'\n' ∷ join_lines (m ∷ more)

-- `String`
unfoldable pub to_string : Document → Bytes
unfolding join_lines
to_string d = join_lines (map (λ c. c.text) d.commands)

-- `strings.TrimSuffix(raw, "\r")`
pub trim_return : Bytes → Bytes
trim_return [] = []
trim_return (c ∷ []) = if c == b'\r' then [] else c ∷ []
trim_return (c ∷ d ∷ more) = c ∷ trim_return (d ∷ more)

has_pair : ℕ → ℕ → Bytes → Bool
has_pair a b [] = false
has_pair a b (c ∷ []) = false
has_pair a b (c ∷ d ∷ more) = c == a && d == b || has_pair a b (d ∷ more)

-- `strings.ContainsRune(s, rune(b))`: the byte, or the two bytes that encode it.
pub contains_rune : Bytes → ℕ → Bool
unfolding has_pair has_byte
contains_rune s b =
    if ltb b 128 then has_byte b s else has_pair (192 + (b - 128) / 64) (128 + (b - 128) % 64) s

-- `d.Commands[len(d.Commands)-1].Text = text(…)`
pub set_last_text : (Bytes → Bytes) → List Command → List Command
set_last_text text [] = []
set_last_text text (c ∷ []) = record c { text = text c.text } ∷ []
set_last_text text (c ∷ d ∷ more) = c ∷ set_last_text text (d ∷ more)

-- A line inside a banner.
pub banner_line : Document → Bytes → Document
unfolding set_last_text contains_rune
banner_line d raw = record d {
  commands = set_last_text (λ t. t ++ b'\n' ∷ raw) d.commands;
  banner = if contains_rune raw d.banner then 0 else d.banner;
}

pub indent_at : List Command → ℕ → ℕ
indent_at cs i = elim (get_elem? cs i) [ none ↦ 0 | some c ↦ c.indent ]

-- The loop that pops the scopes which a command of this indent closes.
pub pop_scopes : List Command → ℕ → List ℕ → List ℕ
unfolding indent_at
pop_scopes cs indent [] = []
pop_scopes cs indent (top ∷ stack) =
    if leb indent (indent_at cs top) then pop_scopes cs indent stack else top ∷ stack

abbrev pub top_of : List ℕ → Option ℕ
top_of [] = none
top_of (top ∷ stack) = some top

abbrev pub first_field : List Bytes → Bytes
first_field [] = []
first_field (f ∷ fs) = f

abbrev is_banner_type : Bytes → Bool
is_banner_type f =
    bytes_eq f (codes "motd") || bytes_eq f (codes "exec") || bytes_eq f (codes "incoming")

abbrev without_type : List Bytes → Bytes → Bytes
without_type (f ∷ g ∷ fs) text =
    if is_banner_type g then trim_left is_blank (trim_prefix g text) else text
without_type _ text = text

-- The text behind `banner` and its type.
pub banner_text : Bytes → List Bytes → Bytes
unfolding trim_left cut_prefix bytes_eq
banner_text raw fields = without_type fields (trim_left is_blank (trim_prefix (codes "banner") raw))

abbrev open_delimiter : Document → Bytes → Bytes → Result Document
open_delimiter d raw [] = err (message "native banner has no valid delimiter")
open_delimiter d raw (b ∷ text) =
    if b == b'"'
    then err (message "native banner has no valid delimiter")
    else ok (record d {
      commands = set_last_text (λ _. raw) d.commands;
      banner = if contains_rune text b then 0 else b;
    })

-- The end of `line`: what a top-level `banner` command opens.
pub open_banner : Document → Bytes → List Bytes → Result Document
unfolding banner_text set_last_text contains_rune
open_banner d raw fields =
    let text = banner_text raw fields in
    if bytes_eq text (codes "require-enter-key") then ok d else open_delimiter d raw text

module _ (parse_command : Bytes → ParsedCommand) where
  unfoldable pub make_command : Bytes → List Bytes → Option ℕ → ℕ → Command
  unfolding trim_left trim_right
  make_command line fields parent indent = record {
    text = line;
    fields = fields;
    parent = parent;
    indent = indent;
    parsed = parse_command (trim_space line);
  }

  pub append_command : Document → Bytes → List Bytes → List ℕ → ℕ → Document
  unfolding make_command
  append_command d line fields stack indent = record d {
    commands = d.commands ++ make_command line fields (top_of stack) indent ∷ [];
    stack = length d.commands ∷ stack;
    complete = d.complete || (indent == 0 && bytes_eq line (codes "end"));
  }

  -- A line of the configuration that is neither blank nor a separator.
  pub command_line : Document → Bytes → Bytes → List Bytes → Result Document
  command_line d raw line fields =
      let indent = length line - length (trim_left is_blank line) in
      let stack = pop_scopes d.commands indent d.stack in
      let added = append_command d line fields stack indent in
      if ltb 0 indent && is_none (top_of stack)
      then err (message "native configuration has an orphaned command")
      else if not (indent == 0) || not (bytes_eq (first_field fields) (codes "banner"))
      then ok added
      else open_banner added raw fields

  abbrev configuration_line : Document → Bytes → Bytes → List Bytes → Result Document
  configuration_line d raw line [] = ok d
  configuration_line d raw line (f ∷ fs) =
      if bytes_eq (trim_space line) (codes "!") then ok d else command_line d raw line (f ∷ fs)

  abbrev started_line : Document → Bytes → Bytes → Result Document
  started_line d raw line =
      if not d.started && not (has_prefix (codes "ver ") line)
      then ok d
      else configuration_line (record d { started = true }) raw line (command_fields line)

  -- `line`
  unfoldable pub read_line : Document → Bytes → Result Document
  read_line d raw =
      if not (d.banner == 0)
      then ok (banner_line d (trim_return raw))
      else started_line d (trim_return raw) (trim_right is_blank (trim_return raw))

abbrev pub configuration_machine : Machine
configuration_machine = record {
  actions = 0 ∷ 1 ∷ 0 ∷ 1 ∷ 1 ∷ 2 ∷ 0 ∷ 1 ∷ [];
  key_offsets = 0 ∷ 1 ∷ [];
  trans_keys = 10 ∷ 10 ∷ [];
  single_lengths = 1 ∷ 1 ∷ [];
  range_lengths = 0 ∷ 0 ∷ [];
  index_offsets = 0 ∷ 2 ∷ [];
  indicies = none;
  trans_targs = 1 ∷ 0 ∷ 1 ∷ 0 ∷ [];
  trans_actions = 3 ∷ 0 ∷ 5 ∷ 1 ∷ [];
  start = 1;
  first_final = 1;
  error = none;
}

pub record ParseState : Type 0 where
  pub start : ℕ
  pub outcome : Result Document

abbrev pub ends_with_newline : Bytes → Bool
ends_with_newline [] = false
ends_with_newline (c ∷ []) = c == b'\n'
ends_with_newline (c ∷ d ∷ more) = ends_with_newline (d ∷ more)

-- The text that the machine reads: a last line without an end gets one.
abbrev pub with_last_newline : Bytes → Bytes
with_last_newline text = if ends_with_newline text then text else text ++ b'\n' ∷ []

abbrev pub require_complete : Document → Result Document
require_complete d =
    if d.complete then ok d else err (message "FastIron configuration output is incomplete")

module _ (parse_command : Bytes → ParsedCommand) where
  abbrev line_ended : ℕ → Result Document → Flow ParseState
  line_ended start (ok d) =
      (if d.complete then halt else go) (record { start = start; outcome = ok d })
  line_ended start (err e) = halt (record { start = start; outcome = err e })

  -- `action start` is 0 and `action line` is 1; an error returns and a complete document breaks.
  pub parse_action : Bytes → ℕ → ℕ → ParseState → Flow ParseState
  parse_action input a p s =
      if a == 0
      then go (record s { start = p })
      else if a == 1
      then line_ended s.start (s.outcome >>= λ d. read_line parse_command d (slice input s.start p))
      else go s

  -- `Parse`
  unfoldable pub parse : Bytes → Result Document
  unfolding parse_action run
  parse input =
      let text = with_last_newline input in
      (run configuration_machine (parse_action text) text 0 1
        (record { start = 0; outcome = ok empty_document })).1.outcome
      >>= require_complete

-- Opens the reader for tests.
unfoldable pub reader : Unit {0}
unfolding parse to_string parse_action read_line command_line banner_line pop_scopes append_command
    open_banner run command_fields trim_return trim_left trim_right cut_prefix bytes_eq has_prefix
    has_byte
reader = tt

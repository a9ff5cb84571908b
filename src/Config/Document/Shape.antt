-- ===== src/Config/Document/Shape.antt =====
-- The scopes of the documents that `line` and `Parse` build.
use fastiron_tofu.Prelude.{
  ℕ, zero, suc, ◌-◌, ◌≡◌, refl, ap, subst, ◌⊎◌, true, List, [], ◌∷◌, ◌++◌, none, Bytes, length,
  if◌then◌else◌, ok, >>=-eq-ok, ok-injective, arith, Bool-cases, inl, inr, is_blank, trim_left,
  trim_right,
}
use fastiron_tofu.Config.Command.{Command, Document, ParsedCommand, empty_document}
use fastiron_tofu.Config.Words.{command_fields}
use fastiron_tofu.Config.Document.{
  read_line, banner_line, command_line, append_command, make_command, open_banner, pop_scopes,
  indent_at, set_last_text, top_of, parse, with_last_newline, trim_return,
}
use fastiron_tofu.Config.Document.Lines.{lines_behind, read_until_complete, parse-eq-ok}
use fastiron_tofu.Config.Document.Nesting.{
  Scope, IsScoped, pop, head_of, scope_indent, append-IsScoped,
}

-- The indents and parents of a document's commands.
abbrev pub shape : List Command → List Scope
shape [] = []
shape (c ∷ cs) = (c.indent, c.parent) ∷ shape cs

shape-append : (cs ds : List Command) → shape (cs ++ ds) ≡ shape cs ++ shape ds
shape-append [] ds = refl
shape-append (c ∷ cs) ds = ap (◌∷◌ (c.indent, c.parent)) (shape-append cs ds)

length-shape : (cs : List Command) → length (shape cs) ≡ length cs
length-shape [] = refl
length-shape (c ∷ cs) = ap suc (length-shape cs)

shape-set_last_text :
    (f : Bytes → Bytes) (cs : List Command) → shape (set_last_text f cs) ≡ shape cs
unfolding set_last_text
shape-set_last_text f [] = refl
shape-set_last_text f (c ∷ []) = refl
shape-set_last_text f (c ∷ d ∷ cs) = ap (◌∷◌ (c.indent, c.parent)) (shape-set_last_text f (d ∷ cs))

indent_at-shape : (cs : List Command) (i : ℕ) → indent_at cs i ≡ scope_indent (shape cs) i
unfolding indent_at
indent_at-shape [] i = refl
indent_at-shape (c ∷ cs) zero = refl
indent_at-shape (c ∷ cs) (suc i) = indent_at-shape cs i

pop_scopes-shape :
    (cs : List Command) (n : ℕ) (stack : List ℕ) → pop_scopes cs n stack ≡ pop (shape cs) n stack
unfolding pop_scopes
pop_scopes-shape cs n [] = refl
pop_scopes-shape cs n (s ∷ stack) = rw (indent_at-shape cs s, pop_scopes-shape cs n stack)

top_of-head_of : (stack : List ℕ) → top_of stack ≡ head_of stack
top_of-head_of [] = refl
top_of-head_of (s ∷ stack) = refl

-- The parents of a document are its scopes, and its stack holds the open ones.
abbrev pub IsWellScoped : Document → Type 0
IsWellScoped d = IsScoped (shape d.commands) d.stack

IsWellScoped-same :
    (d e : Document)
    → shape e.commands ≡ shape d.commands
    → e.stack ≡ d.stack
    → IsWellScoped d
    → IsWellScoped e
IsWellScoped-same d e f g scoped = rw (f, g) scoped

open_banner-shape :
    (d e : Document) (raw : Bytes) (fields : List Bytes)
    → open_banner d raw fields ≡ ok e
    → (shape e.commands ≡ shape d.commands) × (e.stack ≡ d.stack)
unfolding open_banner
open_banner-shape d e raw fields h = ground (arith, shape-set_last_text (λ _. raw) d.commands)

module _ (parse_command : Bytes → ParsedCommand) where
  append_command-IsWellScoped :
      (d : Document) (line : Bytes) (fields : List Bytes) (n : ℕ)
      → IsWellScoped d
      → (top_of (pop_scopes d.commands n d.stack) ≡ none → n ≡ 0)
      → IsWellScoped
          (append_command parse_command d line fields (pop_scopes d.commands n d.stack) n)
  unfolding append_command make_command
  append_command-IsWellScoped d line fields n scoped orphan =
      let stack = pop (shape d.commands) n d.stack in
      rw
        (
          pop_scopes-shape d.commands n d.stack,
          top_of-head_of stack,
          shape-append d.commands _,
          ← length-shape d.commands,
        )
        (append-IsScoped (shape d.commands) d.stack n scoped
          (λ e. orphan (rw (pop_scopes-shape d.commands n d.stack, top_of-head_of stack) e)))

  banner_line-IsWellScoped :
      (d : Document) (raw : Bytes) → IsWellScoped d → IsWellScoped (banner_line d raw)
  unfolding banner_line
  banner_line-IsWellScoped d raw scoped = rw shape-set_last_text scoped

  abbrev line_indent : Bytes → ℕ
  line_indent line = length line - length (trim_left is_blank line)

  abbrev added_by : Document → Bytes → List Bytes → Document
  added_by d line fields =
      append_command parse_command d line fields (pop_scopes d.commands (line_indent line) d.stack)
        (line_indent line)

  -- A command is added to its scope, and may open a banner.
  command_line_cases :
      (d e : Document) (raw line : Bytes) (fields : List Bytes)
      → command_line parse_command d raw line fields ≡ ok e
      → (top_of (pop_scopes d.commands (line_indent line) d.stack) ≡ none → line_indent line ≡ 0)
        × ((added_by d line fields ≡ e) ⊎ (open_banner (added_by d line fields) raw fields ≡ ok e))
  unfolding command_line
  command_line_cases d e raw line fields h = ground arith

  command_line-IsWellScoped :
      (d e : Document) (raw line : Bytes) (fields : List Bytes)
      → IsWellScoped d
      → command_line parse_command d raw line fields ≡ ok e
      → IsWellScoped e
  command_line-IsWellScoped d e raw line fields scoped h =
      let (orphan, result) = command_line_cases d e raw line fields h in
      let added = append_command-IsWellScoped d line fields (line_indent line) scoped orphan in
      elim result [
        | inl same ↦ subst IsWellScoped same added
        | inr opened ↦
            let (shaped, stacked) =
              open_banner-shape (added_by d line fields) e raw fields opened in
            IsWellScoped-same (added_by d line fields) e shaped stacked added
      ]

  -- A line changes no scope, or belongs to a banner, or is a command.
  read_line_cases :
      (d e : Document) (raw : Bytes)
      → read_line parse_command d raw ≡ ok e
      → ((e.commands ≡ d.commands) × (e.stack ≡ d.stack) × (e.complete ≡ d.complete))
        ⊎ ((banner_line d (trim_return raw) ≡ e)
            ⊎ (command_line parse_command
                  (record d { started = true })
                  (trim_return raw)
                  (trim_right is_blank (trim_return raw))
                  (command_fields (trim_right is_blank (trim_return raw)))
                ≡ ok e))
  unfolding read_line
  read_line_cases d e raw h = ground arith

  read_line-IsWellScoped :
      (d e : Document) (raw : Bytes)
      → IsWellScoped d
      → read_line parse_command d raw ≡ ok e
      → IsWellScoped e
  read_line-IsWellScoped d e raw scoped h = elim (read_line_cases d e raw h) [
    | inl (f, g, _) ↦ IsWellScoped-same d e (ap shape f) g scoped
    | inr (inl f) ↦ subst IsWellScoped f (banner_line-IsWellScoped d (trim_return raw) scoped)
    | inr (inr f) ↦ command_line-IsWellScoped (record d { started = true }) e _ _ _ scoped f
  ]

  read_until_complete-IsWellScoped :
      (lines : List Bytes) (d e : Document)
      → IsWellScoped d
      → read_until_complete parse_command lines d ≡ ok e
      → IsWellScoped e
  read_until_complete-IsWellScoped [] d e scoped h = subst IsWellScoped (ok-injective h) scoped
  read_until_complete-IsWellScoped (l ∷ more) d e scoped h =
      let (f, read, later) =
        >>=-eq-ok (read_line parse_command d l)
          (λ f. if f.complete then ok f else read_until_complete parse_command more f) h in
      let next = read_line-IsWellScoped d f l scoped read in
      elim (Bool-cases f.complete) [
        | inl stops ↦ subst IsWellScoped (ok-injective (rw stops at later)) next
        | inr goes ↦ read_until_complete-IsWellScoped more f e next (rw goes at later)
      ]

  -- In every parsed document the parent of a command is the nearest command above it that is
  -- indented less, a command without a parent is not indented, and the stack holds the last
  -- command and its chain of parents.
  pub parse-IsWellScoped :
      (input : Bytes) {d : Document} → parse parse_command input ≡ ok d → IsWellScoped d
  parse-IsWellScoped input {d} h =
      read_until_complete-IsWellScoped (lines_behind [] (with_last_newline input)) empty_document d
        (record { tree = λ k c at. absurd (ground arith); chain = refl })
        (parse-eq-ok parse_command input h).0

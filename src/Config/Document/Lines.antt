-- ===== src/Config/Document/Lines.antt =====
-- `Parse` reads the lines of its input in order, up to a complete document.
use fastiron_tofu.Prelude.{
  ℕ, ◌+◌, ◌≡◌, refl, sym, ◌∙◌, ap, subst, >>=-eq-ok, true, List, [], ◌∷◌, ◌++◌, Bytes, slice,
  slice-append, length, length-append, append_assoc, ◌==◌, if◌then◌else◌, Result, ok, err, ◌>>=◌,
  arith, Bool-cases, inl, inr,
}
use fastiron_tofu.Ragel.{run}
use fastiron_tofu.Config.Command.{Document, ParsedCommand, empty_document}
use fastiron_tofu.Config.Document.{
  read_line, configuration_machine, parse_action, parse, with_last_newline, require_complete,
}

-- The lines of a text, each behind what has been read of it already.
abbrev pub lines_behind : Bytes → Bytes → List Bytes
lines_behind line [] = []
lines_behind line (c ∷ cs) =
    if c == b'\n' then line ∷ lines_behind [] cs else lines_behind (line ++ c ∷ []) cs

module _ (parse_command : Bytes → ParsedCommand) where
  -- Reads lines until a document is complete; an error ends the reading.
  abbrev pub read_until_complete : List Bytes → Document → Result Document
  read_until_complete [] d = ok d
  read_until_complete (l ∷ more) d = read_line parse_command d l >>= λ e.
      let rest = read_until_complete more e in if e.complete then ok e else rest

  module _ (text : Bytes) where
    abbrev outcome_from : ℕ → ℕ → Bytes → ℕ → Document → Result Document
    outcome_from p cs rest start d =
        (run configuration_machine (parse_action parse_command text) rest p cs
          (record { start = start; outcome = ok d })).1.outcome

    abbrev after_line : ℕ → Bytes → ℕ → Result Document → Result Document
    after_line p rest start (err e) = err e
    after_line p rest start (ok d) = if d.complete then ok d else outcome_from p 1 rest start d

    module _ (c : ℕ) (rest : Bytes) (p start : ℕ) (d : Document) where
      at_line_start : outcome_from p 1 (c ∷ rest) start d ≡ (
          if c == b'\n'
          then after_line (p + 1) rest p (read_line parse_command d (slice text p p))
          else outcome_from (p + 1) 0 rest p d)
      unfolding run parse_action
      at_line_start = ground arith

      inside_line : outcome_from p 0 (c ∷ rest) start d ≡ (
          if c == b'\n'
          then after_line (p + 1) rest start (read_line parse_command d (slice text start p))
          else outcome_from (p + 1) 0 rest start d)
      unfolding run parse_action
      inside_line = ground arith

    at_end : (p cs start : ℕ) (d : Document) → outcome_from p cs [] start d ≡ ok d
    unfolding run
    at_end p cs start d = refl

    slice_is :
        (rest done line : Bytes) (p start : ℕ)
        → text ≡ done ++ (line ++ rest)
        → start ≡ length done
        → p ≡ length done + length line
        → slice text start p ≡ line
    slice_is rest done line p start e from at = rw e (slice-append done line rest start p from at)

    after_line-read :
        (p start : ℕ) (rest : Bytes) (r : Result Document)
        → ((e : Document)
            → outcome_from p 1 rest start e ≡ read_until_complete (lines_behind [] rest) e)
        → after_line p rest start r
          ≡ (r >>= λ e. if e.complete then ok e else read_until_complete (lines_behind [] rest) e)
    after_line-read p start rest (ok e) ih = rw (ih e)
    after_line-read p start rest (err x) ih = refl

    mutual
      from_line_start :
          (rest done : Bytes) (p start : ℕ) (d : Document)
          → text ≡ done ++ rest
          → p ≡ length done
          → outcome_from p 1 rest start d ≡ read_until_complete (lines_behind [] rest) d
      from_line_start [] done p start d e at = at_end p 1 start d
      from_line_start (c ∷ rest) done p start d e at =
          at_line_start c rest p start d ∙ elim (Bool-cases (c == b'\n')) [
            | inl ends ↦
                rw (ends, slice_is (c ∷ rest) done [] p p e at (omega (arith, at)))
                  (after_line-read (p + 1) p rest (read_line parse_command d []) (λ f.
                    from_line_start rest (done ++ c ∷ []) (p + 1) p f
                      (e ∙ sym (append_assoc done (c ∷ []) rest))
                      (omega (arith, length-append done (c ∷ [])))))
            | inr goes ↦ rw goes (from_inside rest done c [] (p + 1) p d e at (omega arith))
          ]

      from_inside :
          (rest done : Bytes) (w : ℕ) (line : Bytes) (p start : ℕ) (d : Document)
          → text ≡ done ++ ((w ∷ line) ++ rest)
          → start ≡ length done
          → p ≡ length done + length (w ∷ line)
          → outcome_from p 0 rest start d ≡ read_until_complete (lines_behind (w ∷ line) rest) d
      from_inside [] done w line p start d e from at = at_end p 0 start d
      from_inside (c ∷ rest) done w line p start d e from at =
          inside_line c rest p start d ∙ elim (Bool-cases (c == b'\n')) [
            | inl ends ↦
                rw (ends, slice_is (c ∷ rest) done (w ∷ line) p start e from at)
                  (after_line-read (p + 1) start rest (read_line parse_command d (w ∷ line)) (λ f.
                    from_line_start rest (done ++ ((w ∷ line) ++ c ∷ [])) (p + 1) start f
                      (simp append_assoc e)
                      (omega (
                        arith,
                        length-append done ((w ∷ line) ++ c ∷ []),
                        length-append (w ∷ line) (c ∷ []),
                      ))))
            | inr goes ↦ rw goes (
                from_inside rest done w (line ++ c ∷ []) (p + 1) start d (simp append_assoc e) from
                  (omega (arith, length-append line (c ∷ []))))
          ]

  -- Parse, the table-driven machine with its actions, is the plain reading of the lines of its
  -- input in order: the reading stops at the first error or at the first complete document, and an
  -- incomplete document is an error.
  pub parse-read_until_complete :
      (input : Bytes)
      → parse parse_command input ≡ (
          read_until_complete (lines_behind [] (with_last_newline input)) empty_document
          >>= require_complete)
  unfolding parse
  parse-read_until_complete input =
      ap (λ r. r >>= require_complete)
        (from_line_start (with_last_newline input) (with_last_newline input) [] 0 0 empty_document
          refl refl)

  require_complete-eq-ok :
      (d : Document) {e : Document} → require_complete d ≡ ok e → (d ≡ e) × (d.complete ≡ true)
  require_complete-eq-ok d h = ground arith

  -- What a successful parse has read.
  pub parse-eq-ok :
      (input : Bytes) {d : Document}
      → parse parse_command input ≡ ok d
      → (read_until_complete (lines_behind [] (with_last_newline input)) empty_document ≡ ok d)
        × (d.complete ≡ true)
  parse-eq-ok input {d} h =
      let (e, read, checked) =
        >>=-eq-ok (read_until_complete (lines_behind [] (with_last_newline input)) empty_document)
          require_complete (sym (parse-read_until_complete input) ∙ h) in
      let (same, complete) = require_complete-eq-ok e checked in
      (
        subst
            (λ x.
              read_until_complete (lines_behind [] (with_last_newline input)) empty_document ≡ ok x)
            same read,
        subst (λ x. x.complete ≡ true) same complete,
      )

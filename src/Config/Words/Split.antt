-- ===== src/Config/Words/Split.antt =====
-- The machine cuts a command at its white space.
use fastiron_tofu.Prelude.{
  ℕ, ◌+◌, ◌≡◌, refl, sym, ◌∙◌, ap, Bool, ◌&&◌, ◌||◌, List, [], ◌∷◌, ◌++◌, append_assoc, append-nil,
  Bytes, slice, slice-append, length, length-append, leb, ◌==◌, if◌then◌else◌, arith, Bool-cases,
  inl, inr,
}
use fastiron_tofu.Ragel.{run}
use fastiron_tofu.Config.Words.{command_fields, words_machine, word_action}

-- Ragel's `space`: a blank, or one of \t \n \v \f \r.
abbrev pub is_space : ℕ → Bool
is_space c = c == b' ' || leb b'\t' c && leb c b'\r'

-- The words of a text, where `word` has been read already; empty words are no words.
abbrev pub add_word : Bytes → List Bytes → List Bytes
add_word [] ws = ws
add_word (c ∷ cs) ws = (c ∷ cs) ∷ ws

abbrev pub split_words : Bytes → Bytes → List Bytes
split_words word [] = add_word word []
split_words word (c ∷ cs) =
    if is_space c then add_word word (split_words [] cs) else split_words (word ++ c ∷ []) cs

-- Where the machine stands: what is behind it, and the word that it is in.
module _ (text : Bytes) where
  abbrev fields_from : ℕ → ℕ → Bytes → ℕ → List Bytes → List Bytes
  fields_from p cs rest start fields =
      (run words_machine (word_action text) rest p cs
        (record { start = start; fields = fields })).1.fields

  -- One byte between words, and one inside a word.
  module _ (c : ℕ) (rest : Bytes) (p start : ℕ) (fields : List Bytes) where
    between_words : fields_from p 1 (c ∷ rest) start fields ≡ (
        if is_space c
        then fields_from (p + 1) 1 rest start fields
        else fields_from (p + 1) 0 rest p fields)
    unfolding run word_action
    between_words = ground arith

    inside_word : fields_from p 0 (c ∷ rest) start fields ≡ (
        if is_space c
        then fields_from (p + 1) 1 rest start (fields ++ slice text start p ∷ [])
        else fields_from (p + 1) 0 rest start fields)
    unfolding run word_action
    inside_word = ground arith

  end_of_text : (p cs start : ℕ) (fields : List Bytes) → fields_from p cs [] start fields ≡ fields
  unfolding run
  end_of_text p cs start fields = refl

  mutual
    -- The text ends in a blank, so that the last word is closed.
    run-between :
        (rest done : Bytes) (start : ℕ) (fields : List Bytes) (p : ℕ)
        → text ≡ done ++ (rest ++ b' ' ∷ [])
        → p ≡ length done
        → fields_from p 1 (rest ++ b' ' ∷ []) start fields ≡ fields ++ split_words [] rest
    run-between [] done start fields p e at =
        between_words b' ' [] p start fields
        ∙ end_of_text (p + 1) 1 start fields
        ∙ sym (append-nil fields)
    run-between (c ∷ rest) done start fields p e at =
        between_words c (rest ++ b' ' ∷ []) p start fields ∙ (elim (Bool-cases (is_space c)) [
          | inl space ↦ rw space (
              run-between rest (done ++ c ∷ []) start fields (p + 1)
                (e ∙ sym (append_assoc done (c ∷ []) (rest ++ b' ' ∷ [])))
                (omega (arith, length-append done (c ∷ []))))
          | inr other ↦ rw other (run-inside rest done c [] fields (p + 1) p e at (omega arith))
        ])

    run-inside :
        (rest done : Bytes) (w : ℕ) (word : Bytes) (fields : List Bytes) (p start : ℕ)
        → text ≡ done ++ ((w ∷ word) ++ (rest ++ b' ' ∷ []))
        → start ≡ length done
        → p ≡ length done + length (w ∷ word)
        → fields_from p 0 (rest ++ b' ' ∷ []) start fields ≡ fields ++ split_words (w ∷ word) rest
    run-inside [] done w word fields p start e from at =
        inside_word b' ' [] p start fields
        ∙ end_of_text (p + 1) 1 start _
        ∙ (rw e (
            (ap (λ x. fields ++ x ∷ [])
              (slice-append done (w ∷ word) (b' ' ∷ []) start p from at))))
    run-inside (c ∷ rest) done w word fields p start e from at =
        inside_word c (rest ++ b' ' ∷ []) p start fields ∙ (elim (Bool-cases (is_space c)) [
          | inl space ↦ rw space (
              run-between rest (done ++ ((w ∷ word) ++ c ∷ [])) start
                (fields ++ slice text start p ∷ []) (p + 1) (simp append_assoc e)
                (omega (
                  arith,
                  length-append done ((w ∷ word) ++ c ∷ []),
                  length-append (w ∷ word) (c ∷ []),
                ))
              ∙ append_assoc fields (slice text start p ∷ []) (split_words [] rest)
              ∙ rw e (
                  ap (λ x. fields ++ (x ∷ split_words [] rest))
                    (slice-append done (w ∷ word) (c ∷ (rest ++ b' ' ∷ [])) start p from at)))
          | inr other ↦ rw other (
              run-inside rest done w (word ++ c ∷ []) fields (p + 1) start (simp append_assoc e)
                from (omega (arith, length-append word (c ∷ []))))
        ])

-- The machine that commandFields runs cuts its input into the maximal runs of bytes that are not
-- white space, in order.
pub command_fields-split_words : (input : Bytes) → command_fields input ≡ split_words [] input
unfolding command_fields
command_fields-split_words input = run-between (input ++ b' ' ∷ []) input [] 0 [] 0 refl refl

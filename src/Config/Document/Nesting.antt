-- ===== src/Config/Document/Nesting.antt =====
-- Scopes by indentation: every command's parent is the nearest command above it that is
-- indented less, for any list of indents and parents that the stack discipline builds.
use native.Mathlib.Nat.{le_refl}
use native.Mathlib.Decide.{dec_lt, ℕ_discrete}
use fastiron_tofu.Prelude.{
  ℕ, suc, ◌≤◌, ◌<◌, ◌≡◌, refl, ◌∙◌, ap, subst, List, [], ◌∷◌, ◌++◌, Option, none, some, length,
  length-append, get_elem?, get_elem?-append, get_elem?-append_last, get_elem?-snoc,
  get_elem?-lt_length, leb, if◌then◌else◌, arith, Bool-cases, inl, inr,
}

-- A command's indent and its parent.
abbrev pub Scope : Type 0
Scope = ℕ × Option ℕ

abbrev pub indent_of : Option Scope → ℕ
indent_of none = 0
indent_of (some c) = c.0

abbrev pub scope_indent : List Scope → ℕ → ℕ
scope_indent cs i = indent_of (get_elem? cs i)

-- The first position behind a parent.
abbrev pub behind : Option ℕ → ℕ
behind none = 0
behind (some p) = suc p

-- All commands from `lo` on, below `hi`, are indented by `n` or more.
abbrev pub AtLeast : List Scope → ℕ → ℕ → ℕ → Type 0
AtLeast cs n lo hi = (j : ℕ) → lo ≤ j → j < hi → n ≤ scope_indent cs j

-- The parent is an earlier command that is indented less; a top-level command is not indented.
abbrev pub IsOutside : List Scope → ℕ → ℕ → Option ℕ → Type 0
IsOutside cs k n none = n ≡ 0
IsOutside cs k n (some p) = (p < k) × (scope_indent cs p < n)

pub record IsNested (cs : List Scope) (k : ℕ) (c : Scope) : Type 0 where
  pub outside : IsOutside cs k c.0 c.1
  pub nearest : AtLeast cs c.0 (behind c.1) k

abbrev pub IsTree : List Scope → Type 0
IsTree cs = (k : ℕ) (c : Scope) → get_elem? cs k ≡ some c → IsNested cs k c

-- The stack holds a position, its parent, the parent's parent, and so on to the top level.
abbrev pub IsChain : List Scope → Option ℕ → List ℕ → Type 0
IsChain cs p [] = p ≡ none
IsChain cs p (s ∷ stack) =
    (p ≡ some s) × (c : Scope) × (get_elem? cs s ≡ some c) × IsChain cs c.1 stack

abbrev pub pop : List Scope → ℕ → List ℕ → List ℕ
pop cs n [] = []
pop cs n (s ∷ stack) = if leb n (scope_indent cs s) then pop cs n stack else s ∷ stack

abbrev pub head_of : List ℕ → Option ℕ
head_of [] = none
head_of (s ∷ stack) = some s

-- What popping leaves for a command of indent `n` at the end of the list.
record Popped (cs : List Scope) (n : ℕ) (stack : List ℕ) : Type 0 where
  chain : IsChain cs (head_of stack) stack
  least : AtLeast cs n (behind (head_of stack)) (length cs)
  less : (p : ℕ) → head_of stack ≡ some p → (p < length cs) × (scope_indent cs p < n)

scope_indent-at :
    (cs : List Scope) (s : ℕ) {c : Scope} → get_elem? cs s ≡ some c → scope_indent cs s ≡ c.0
scope_indent-at cs s at = rw at

scope_indent-append :
    (cs xs : List Scope) (j : ℕ) → j < length cs → scope_indent (cs ++ xs) j ≡ scope_indent cs j
scope_indent-append cs xs j lt = rw (get_elem?-append cs xs j lt)

module _ (cs : List Scope) (tree : IsTree cs) (n : ℕ) where
  -- Going over a popped command keeps the bound: what lies inside it is indented no less.
  AtLeast-parent :
      (s : ℕ) (c : Scope)
      → get_elem? cs s ≡ some c
      → n ≤ scope_indent cs s
      → AtLeast cs n (suc s) (length cs)
      → AtLeast cs n (behind c.1) (length cs)
  AtLeast-parent s c at deep above j lo hi = elim (dec_lt j s) [
    | yes before ↦ omega (arith, (tree s c at).nearest j lo before, scope_indent-at cs s at)
    | no other ↦ elim (ℕ_discrete j s) [
      | yes same ↦ rw same deep
      | no differs ↦ above j (omega arith) hi
    ]
  ]

  pop-Popped :
      (p : Option ℕ) (stack : List ℕ)
      → IsChain cs p stack
      → AtLeast cs n (behind p) (length cs)
      → Popped cs n (pop cs n stack)
  pop-Popped p [] chain above = record {
    chain = refl;
    least = rw chain at above;
    less = λ p e. absurd (ground arith);
  }
  pop-Popped p (s ∷ stack) (e, c, at, chain) above = elim (Bool-cases (leb n (scope_indent cs s))) [
    | inl deep ↦
        rw deep (pop-Popped c.1 stack chain (AtLeast-parent s c at (ground arith) (rw e at above)))
    | inr shallow ↦ rw shallow (record {
      chain = (refl, c, at, chain);
      least = rw e at above;
      less = λ q f. let g : s ≡ q = cc in rw (← g) (get_elem?-lt_length cs s at, ground arith);
    })
  ]

IsChain-append :
    (cs xs : List Scope) (p : Option ℕ) (stack : List ℕ)
    → IsChain cs p stack
    → IsChain (cs ++ xs) p stack
IsChain-append cs xs p [] chain = chain
IsChain-append cs xs p (s ∷ stack) (e, c, at, chain) = (
  e,
  c,
  get_elem?-append cs xs s (get_elem?-lt_length cs s at) ∙ at,
  IsChain-append cs xs c.1 stack chain,
)

AtLeast-append :
    (cs xs : List Scope) (n lo hi : ℕ)
    → hi ≤ length cs
    → AtLeast cs n lo hi
    → AtLeast (cs ++ xs) n lo hi
AtLeast-append cs xs n lo hi h above j l r =
    rw (scope_indent-append cs xs j (omega arith)) (above j l r)

IsOutside-append :
    (cs xs : List Scope) (k n : ℕ) (p : Option ℕ)
    → k ≤ length cs
    → IsOutside cs k n p
    → IsOutside (cs ++ xs) k n p
IsOutside-append cs xs k n none h o = o
IsOutside-append cs xs k n (some p) h (lt, less) =
    (lt, rw (scope_indent-append cs xs p (omega arith)) less)

IsNested-append :
    (cs xs : List Scope) (k : ℕ) (c : Scope)
    → k ≤ length cs
    → IsNested cs k c
    → IsNested (cs ++ xs) k c
IsNested-append cs xs k c h nested = record {
  outside = IsOutside-append cs xs k c.0 c.1 h nested.outside;
  nearest = AtLeast-append cs xs c.0 (behind c.1) k h nested.nearest;
}

abbrev pub last_place : List Scope → Option ℕ
last_place [] = none
last_place (c ∷ more) = some (length more)

-- A document's scopes and its stack.
pub record IsScoped (cs : List Scope) (stack : List ℕ) : Type 0 where
  pub tree : IsTree cs
  pub chain : IsChain cs (last_place cs) stack

last_place-append : (cs : List Scope) (c : Scope) → last_place (cs ++ c ∷ []) ≡ some (length cs)
last_place-append [] c = refl
last_place-append (d ∷ cs) c = ap some (omega (arith, length-append cs (c ∷ [])))

behind-last_place : (cs : List Scope) → behind (last_place cs) ≡ length cs
behind-last_place [] = refl
behind-last_place (c ∷ cs) = refl

module _ (cs : List Scope) (n : ℕ) (stack : List ℕ) (tree : IsTree cs) (popped : Popped cs n stack)
    (orphan : head_of stack ≡ none → n ≡ 0) where
  new-IsOutside : (p : Option ℕ) → head_of stack ≡ p → IsOutside (cs ++ (n, p) ∷ []) (length cs) n p
  new-IsOutside none e = orphan e
  new-IsOutside (some p) e =
      let (lt, less) = popped.less p e in (lt, rw (scope_indent-append cs _ p lt) less)

  append-IsTree : IsTree (cs ++ (n, head_of stack) ∷ [])
  append-IsTree k c at = elim (get_elem?-snoc cs (n, head_of stack) k at) [
    | inl (e, f) ↦
        subst (λ x. IsNested (cs ++ (n, head_of stack) ∷ []) k x) f
          (rw e (record {
            outside = new-IsOutside (head_of stack) refl;
            nearest =
                AtLeast-append cs _ n (behind (head_of stack)) (length cs) (le_refl (length cs))
                  popped.least;
          }))
    | inr old ↦
        IsNested-append cs _ k c (omega (arith, get_elem?-lt_length cs k old)) (tree k c old)
  ]

-- A command at the end, below the scopes that its indent leaves open.
pub append-IsScoped :
    (cs : List Scope) (stack : List ℕ) (n : ℕ)
    → IsScoped cs stack
    → ((head_of (pop cs n stack) ≡ none) → n ≡ 0)
    → IsScoped (cs ++ (n, head_of (pop cs n stack)) ∷ []) (length cs ∷ pop cs n stack)
append-IsScoped cs stack n scoped orphan =
    let popped =
      pop-Popped cs scoped.tree n (last_place cs) stack scoped.chain
        (λ j lo hi. absurd (omega (arith, behind-last_place cs))) in
    record {
      tree = append-IsTree cs n (pop cs n stack) scoped.tree popped orphan;
      chain = (
        last_place-append cs _,
        (n, head_of (pop cs n stack)),
        get_elem?-append_last cs _,
        IsChain-append cs _ _ (pop cs n stack) popped.chain,
      );
    }

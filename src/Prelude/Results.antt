-- ===== src/Prelude/Results.antt =====
-- Go's `(value, error)` results: an error is its message, with what `fmt.Errorf` adds to it:
-- a text, a number and an inner error, the numbers of its format, or a text and an inner error.
use Prim.Native.Nat.{ℕ}
use Prim.Native.String.{String}
use mathlib.Core.Path.{◌≡◌, refl}
use mathlib.Core.List.{List, [], ◌∷◌}
use fastiron_tofu.Prelude.Lists.{All}
use mathlib.Core.Logic.{◌⊎◌, inl, inr}
use mathlib.Core.Bool.{Bool, true, false}

pub data Error : Type 0 where
  message : String → Error
  quoted : String → List ℕ → Error
  numbered : String → ℕ → Error → Error
  formatted : String → List ℕ → Error
  named : String → List ℕ → Error → Error

pub data Result {ℓ} (A : Type ℓ) : Type ℓ where
  err : Error → Result A
  ok : A → Result A

infixl 5 ◌>>=◌
abbrev pub ◌>>=◌ {ℓ κ} : {A : Type ℓ} {B : Type κ} → Result A → (A → Result B) → Result B
err failure >>= then_do = err failure
ok value >>= then_do = then_do value

infixl 5 ◌>>◌
abbrev pub ◌>>◌ {ℓ} : {B : Type ℓ} → Result (Unit {0}) → Result B → Result B
check >> other = check >>= λ _. other

-- `if failed { return errors.New(text) }`
abbrev pub reject_if : Bool → String → Result (Unit {0})
reject_if true text = err (message text)
reject_if false text = ok tt

-- What a successful chain says of its two parts.
pub >>=-eq-ok {ℓ κ} :
    {A : Type ℓ} {B : Type κ} (first : Result A) (rest : A → Result B) {out : B}
    → (first >>= rest) ≡ ok out
    → (value : A) × (first ≡ ok value) × (rest value ≡ ok out)
>>=-eq-ok (err failure) rest whole = cc
>>=-eq-ok (ok value) rest whole = (value, refl, whole)

pub reject_if-eq-ok :
    (b : Bool) (text : String) {u : Unit {0}} → reject_if b text ≡ ok u → b ≡ false
reject_if-eq-ok true text h = cc
reject_if-eq-ok false text h = refl

pub ok-injective {ℓ} : {A : Type ℓ} {a b : A} → ok a ≡ ok b → a ≡ b
ok-injective e = cc

pub ok-ne-err {ℓ} : {A : Type ℓ} {a : A} {e : Error} → ¬ (ok a ≡ err e)
ok-ne-err h = cc

pub Result-cases {ℓ} :
    {A : Type ℓ} (r : Result A) → ((a : A) × (r ≡ ok a)) ⊎ ((e : Error) × (r ≡ err e))
Result-cases (ok a) = inl (a, refl)
Result-cases (err e) = inr (e, refl)

pub >>=_assoc {ℓ κ μ} :
    {A : Type ℓ} {B : Type κ} {C : Type μ} (m : Result A) (f : A → Result B) (g : B → Result C)
    → ((m >>= f) >>= g) ≡ (m >>= λ a. f a >>= g)
>>=_assoc (ok a) f g = refl
>>=_assoc (err e) f g = refl

-- `if failed { return … }`, with an error of any shape.
abbrev pub reject : Bool → Error → Result (Unit {0})
reject true e = err e
reject false e = ok tt

-- Several rejections, the first that applies.
abbrev pub reject_any : List (Bool × Error) → Result (Unit {0})
reject_any [] = ok tt
reject_any ((b, e) ∷ more) = reject b e >> reject_any more

-- Behind checks that pass, no reason to reject held.
pub reject_any-eq-ok {ℓ} :
    {A : Type ℓ} (checks : List (Bool × Error)) (rest : Result A) {out : A}
    → (reject_any checks >> rest) ≡ ok out
    → All (λ c. c.0 ≡ false) checks × (rest ≡ ok out)
reject_any-eq-ok [] rest h = (tt, h)
reject_any-eq-ok ((true, e) ∷ more) rest h = cc
reject_any-eq-ok ((false, e) ∷ more) rest h =
    let (clear, rested) = reject_any-eq-ok more rest h in ((refl, clear), rested)

-- ===== src/Prelude/Result.antt =====
-- Code that may raise: a value, or the error with its message.
use Prim.Native.String.{String}
use mathlib.Core.Path.{◌≡◌, refl}
use mathlib.Core.Logic.{◌⊎◌, inl, inr}
use mathlib.Core.Bool.{Bool, true, false}

pub data Result {ℓ} (Value : Type ℓ) : Type ℓ where
  err : String → Result Value
  ok : Value → Result Value

-- `if b: raise e`
abbrev pub raise_if : Bool → String → Result (Unit {0})
raise_if false message = ok tt
raise_if true message = err message

module _ {i j} {X : Type i} {Y : Type j} where
  infixl 5 ◌>>=◌
  abbrev pub ◌>>=◌ : (m : Result X) (next : X → Result Y) → Result Y
  err message >>= next = err message
  ok x >>= next = next x

  -- what a chain of steps that returned went through
  pub >>=-eq-ok :
      (m : Result X) (next : X → Result Y) {y : Y}
      → (m >>= next) ≡ ok y
      → (x : X) × (m ≡ ok x) × (next x ≡ ok y)
  >>=-eq-ok (err message) next h = cc
  >>=-eq-ok (ok x) next h = (x, refl, h)

infixl 5 ◌>>◌
abbrev pub ◌>>◌ {j} : {Y : Type j} (first : Result (Unit {0})) (next : Result Y) → Result Y
first >> next = first >>= λ done. next

pub ok-injective {ℓ} : {A : Type ℓ} {a b : A} → ok a ≡ ok b → a ≡ b
ok-injective h = cc

pub raise_if-eq-ok {ℓ} :
    {B : Type ℓ} (c : Bool) (e : String) (k : Result B) {b : B}
    → (raise_if c e >> k) ≡ ok b
    → (c ≡ false) × (k ≡ ok b)
raise_if-eq-ok true e k h = cc
raise_if-eq-ok false e k h = (refl, h)

pub raise_if-returned : (c : Bool) (e : String) → raise_if c e ≡ ok tt → c ≡ false
raise_if-returned true e h = cc
raise_if-returned false e h = refl

pub Result-cases {ℓ} :
    {A : Type ℓ} (r : Result A) → ((a : A) × (r ≡ ok a)) ⊎ ((e : String) × (r ≡ err e))
Result-cases (ok a) = inl (a, refl)
Result-cases (err e) = inr (e, refl)

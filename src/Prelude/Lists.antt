-- ===== src/Prelude/Lists.antt =====
-- Lists measured by native numbers, tests over lists, and membership as a family that splits.
use Prim.Native.Nat.{ℕ, suc, ◌+◌}
use mathlib.Core.Path.{◌≡◌, refl, ap}
use mathlib.Core.Logic.{◌⊎◌, inl, inr, ◌↔◌, ⊎_elim}
use mathlib.Core.Bool.{Bool, true, false, ◌&&◌, ◌||◌}
use mathlib.Core.List.{List, [], ◌∷◌, ◌++◌, map, Memᴰ}
use mathlib.Core.List.Memᴰ
use mathlib.Core.Option.{Option, none, some}
use native.Mathlib.Omega.{arith}
use network_anomaly_root_cau.Prelude.Tests.{if◌then◌else◌}

module _ {ℓ} {A : Type ℓ} where
  abbrev pub length : List A → ℕ
  length [] = 0
  length (x ∷ xs) = suc (length xs)

  -- `[x for x in xs if p(x)]`
  abbrev pub keep : (A → Bool) → List A → List A
  keep p [] = []
  keep p (x ∷ xs) = let rest = keep p xs in if p x then x ∷ rest else rest

  -- `any(p(x) for x in xs)` and `all(...)`
  abbrev pub any : (A → Bool) → List A → Bool
  any p [] = false
  any p (x ∷ xs) = p x || any p xs

  abbrev pub all : (A → Bool) → List A → Bool
  all p [] = true
  all p (x ∷ xs) = p x && all p xs

  -- `next((x for x in xs if p(x)), None)`
  abbrev pub find : (A → Bool) → List A → Option A
  find p [] = none
  find p (x ∷ xs) = let rest = find p xs in if p x then some x else rest

  -- `not xs`
  abbrev pub is_empty : List A → Bool
  is_empty [] = true
  is_empty (x ∷ xs) = false

  abbrev pub head? : List A → Option A
  head? [] = none
  head? (x ∷ xs) = some x

  abbrev pub get_or_else : Option A → A → A
  get_or_else none a = a
  get_or_else (some b) a = b

  pub length-append : (xs ys : List A) → length (xs ++ ys) ≡ length xs + length ys
  length-append [] ys = omega arith
  length-append (x ∷ xs) ys = omega (arith, length-append xs ys)

  pub Memᴰ-cons : (a x : A) (xs : List A) → Memᴰ a (x ∷ xs) ↔ ((a ≡ x) ⊎ Memᴰ a xs)
  Memᴰ-cons a x xs = (Memᴰ.cases_cons, ⊎_elim Memᴰ.head Memᴰ.tail)

  pub Memᴰ-concat : (a x : A) (xs : List A) → Memᴰ a (xs ++ x ∷ []) ↔ (Memᴰ a xs ⊎ (a ≡ x))
  Memᴰ-concat a x xs = (
    λ m. ⊎_elim inl (λ last. inr (Memᴰ.eq_of_singleton last)) (Memᴰ.append_cases xs m),
    ⊎_elim (Memᴰ.append_left _) (λ e. Memᴰ.append_right xs (Memᴰ.head e)),
  )

  pub Memᴰ-keep :
      (p : A → Bool) (a : A) (xs : List A) → Memᴰ a (keep p xs) → Memᴰ a xs × (p a ≡ true)
  Memᴰ-keep p a [] m = absurd (Memᴰ.not-nil m)
  Memᴰ-keep p a (x ∷ xs) m =
      ground (arith, Memᴰ-keep p a xs, Memᴰ-cons a x (keep p xs), Memᴰ-cons a x xs)

  -- a predicate on every item, by recursion, so that it computes to a tuple
  abbrev pub All {κ} : (A → Type κ) → List A → Type κ
  All P [] = Unit
  All P (x ∷ xs) = P x × All P xs

  pub All-of_Memᴰ {κ} : (P : A → Type κ) (xs : List A) → ((a : A) → Memᴰ a xs → P a) → All P xs
  All-of_Memᴰ P [] h = tt
  All-of_Memᴰ P (x ∷ xs) h = (h x (Memᴰ.head refl), All-of_Memᴰ P xs (λ a m. h a (Memᴰ.tail m)))

  pub Memᴰ_of_All {κ} : (P : A → Type κ) (xs : List A) (a : A) → All P xs → Memᴰ a xs → P a
  Memᴰ_of_All P [] a h m = elim m [ ]
  Memᴰ_of_All P (x ∷ xs) a h (Memᴰ.head e) = rw e h.0
  Memᴰ_of_All P (x ∷ xs) a h (Memᴰ.tail m) = Memᴰ_of_All P xs a h.1 m

  pub All_imp {κ μ} :
      {P : A → Type κ} {Q : A → Type μ}
      → ((a : A) → P a → Q a)
      → (xs : List A) → All P xs
      → All Q xs
  All_imp h [] known = tt
  All_imp h (x ∷ xs) known = (h x known.0, All_imp h xs known.1)

pub length-map {ℓ κ} :
    {A : Type ℓ} {B : Type κ} (f : A → B) (xs : List A) → length (map f xs) ≡ length xs
length-map f [] = refl
length-map f (x ∷ xs) = ap suc (length-map f xs)

pub find-eq-some {ℓ} :
    {A : Type ℓ} (p : A → Bool) (xs : List A) (a : A) → find p xs ≡ some a → p a ≡ true
find-eq-some p [] a h = cc
find-eq-some p (x ∷ xs) a h = ground (arith, find-eq-some p xs a)

pub Memᴰ_of_find {ℓ} :
    {A : Type ℓ} (p : A → Bool) (xs : List A) (a : A) → find p xs ≡ some a → Memᴰ a xs
Memᴰ_of_find p [] a h = cc
Memᴰ_of_find p (x ∷ xs) a h = ground (arith, h, Memᴰ-cons a x xs, Memᴰ_of_find p xs a)

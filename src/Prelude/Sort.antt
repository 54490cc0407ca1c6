-- ===== src/Prelude/Sort.antt =====
-- Python's `sorted` and `min` with a key: a stable insertion sort by a Boolean order.
use Prim.Native.Nat.{suc}
use mathlib.Core.Path.{◌≡◌, refl}
use mathlib.Core.Logic.{◌↔◌, inl, inr}
use mathlib.Core.List.Perm
use mathlib.Core.Bool.{Bool, true, false}
use mathlib.Core.List.{List, [], ◌∷◌, Memᴰ, Perm}
use mathlib.Core.Option.{Option, none, some}
use native.Mathlib.Omega.{arith}
use network_anomaly_root_cau.Prelude.Tests.{if◌then◌else◌, Bool-cases}
use network_anomaly_root_cau.Prelude.Lists.{length, Memᴰ-cons}

module _ {ℓ} {A : Type ℓ} (le : A → A → Bool) where
  unfoldable pub insert_by : A → List A → List A
  insert_by x [] = x ∷ []
  insert_by x (y ∷ ys) = let rest = insert_by x ys in if le x y then x ∷ y ∷ ys else y ∷ rest

  unfoldable pub sort_by : List A → List A
  unfolding insert_by
  sort_by [] = []
  sort_by (x ∷ xs) = insert_by x (sort_by xs)

  -- each item is at most the next one
  abbrev pub IsSortedBy : List A → Type 0
  IsSortedBy [] = Unit
  IsSortedBy (x ∷ []) = Unit
  IsSortedBy (x ∷ y ∷ ys) = (le x y ≡ true) × IsSortedBy (y ∷ ys)

  -- the first of the least items: `min(xs, key=..., default=None)`
  unfoldable pub min_by : List A → Option A
  unfolding sort_by
  min_by xs = elim (sort_by xs) [ [] ↦ none | x ∷ rest ↦ some x ]

  pub length-insert_by : (x : A) (xs : List A) → length (insert_by x xs) ≡ suc (length xs)
  unfolding insert_by
  length-insert_by x [] = refl
  length-insert_by x (y ∷ ys) = ground (arith, length-insert_by x ys)

  pub length-sort_by : (xs : List A) → length (sort_by xs) ≡ length xs
  unfolding sort_by
  length-sort_by [] = refl
  length-sort_by (x ∷ xs) = omega (arith, length-insert_by x (sort_by xs), length-sort_by xs)

  Memᴰ-insert_by : (a x : A) (xs : List A) → Memᴰ a (insert_by x xs) ↔ Memᴰ a (x ∷ xs)
  unfolding insert_by
  Memᴰ-insert_by a x [] = (λ m. m, λ m. m)
  Memᴰ-insert_by a x (y ∷ ys) = ground (
    arith,
    Memᴰ-insert_by a x ys,
    Memᴰ-cons a x (y ∷ ys),
    Memᴰ-cons a y ys,
    Memᴰ-cons a y (insert_by x ys),
    Memᴰ-cons a x ys,
  )

  -- Sorting keeps exactly the items.
  pub Memᴰ-sort_by : (a : A) (xs : List A) → Memᴰ a (sort_by xs) ↔ Memᴰ a xs
  unfolding sort_by
  Memᴰ-sort_by a [] = (λ m. m, λ m. m)
  Memᴰ-sort_by a (x ∷ xs) = ground (
    arith,
    Memᴰ-insert_by a x (sort_by xs),
    Memᴰ-sort_by a xs,
    Memᴰ-cons a x (sort_by xs),
    Memᴰ-cons a x xs,
  )

  insert_by-perm : (x : A) (xs : List A) → Perm (insert_by x xs) (x ∷ xs)
  unfolding insert_by
  insert_by-perm x [] = Perm.refl (x ∷ [])
  insert_by-perm x (y ∷ ys) = elim (Bool-cases (le x y)) [
    | inl low ↦ rw low (Perm.refl (x ∷ y ∷ ys))
    | inr high ↦ rw high (Perm.trans (Perm.cons y (insert_by-perm x ys)) (Perm.swap x y ys))
  ]

  -- Sorting permutes the items.
  pub sort_by-perm : (xs : List A) → Perm (sort_by xs) xs
  unfolding sort_by
  sort_by-perm [] = Perm.refl []
  sort_by-perm (x ∷ xs) = Perm.trans (insert_by-perm x (sort_by xs)) (Perm.cons x (sort_by-perm xs))

  module _ (total : (x y : A) → le x y ≡ false → le y x ≡ true) where
    insert_by-IsSortedBy : (x : A) (xs : List A) → IsSortedBy xs → IsSortedBy (insert_by x xs)
    unfolding insert_by
    insert_by-IsSortedBy x [] h = tt
    insert_by-IsSortedBy x (y ∷ []) h = ground (arith, total x y)
    insert_by-IsSortedBy x (y ∷ z ∷ zs) h =
        ground (arith, total x y, total x z, insert_by-IsSortedBy x (z ∷ zs))

    pub sort_by-IsSortedBy : (xs : List A) → IsSortedBy (sort_by xs)
    unfolding sort_by
    sort_by-IsSortedBy [] = tt
    sort_by-IsSortedBy (x ∷ xs) = insert_by-IsSortedBy x (sort_by xs) (sort_by-IsSortedBy xs)

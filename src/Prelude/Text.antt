-- ===== src/Prelude/Text.antt =====
-- Sets and dictionaries with text keys: `set`, `dict` and `dict.fromkeys` as lists.
use Prim.Native.String.{String}
use text.Mathlib.Text.{◌==◌}
use text.Mathlib.TextEquality.{eq_iff}
use mathlib.Core.Path.{◌≡◌, refl}
use mathlib.Core.Logic.{◌≢◌}
use mathlib.Core.Bool.{Bool, true, false, ◌||◌, not, ◌&&◌}
use mathlib.Core.List.{List, [], ◌∷◌, ◌++◌, map, Memᴰ}
use mathlib.Core.List.Memᴰ
use mathlib.Core.Option.{Option, none, some}
use native.Mathlib.Omega.{arith}
use network_anomaly_root_cau.Prelude.Tests.{if◌then◌else◌}
use network_anomaly_root_cau.Prelude.Lists.{any, Memᴰ-cons}

-- `s in xs`
unfoldable pub contains : List String → String → Bool
contains [] s = false
contains (x ∷ xs) s = x == s || contains xs s

-- `set.add`
unfoldable pub add : List String → String → List String
unfolding contains
add xs s = if contains xs s then xs else s ∷ xs

-- `set(xs).intersection(ys)` as a truth value
unfoldable pub intersects : List String → List String → Bool
unfolding contains
intersects xs ys = any (contains ys) xs

-- `tuple(dict.fromkeys(xs))`: the first occurrence of each item, in order
dedup_from : List String → List String → List String
unfolding contains
dedup_from seen [] = []
dedup_from seen (x ∷ xs) =
    let rest = dedup_from (x ∷ seen) xs in
    let rest' = dedup_from seen xs in if contains seen x then rest' else x ∷ rest

unfoldable pub dedup : List String → List String
unfolding dedup_from
dedup = dedup_from []

-- no two items are equal: `len(set(xs)) == len(xs)`
unfoldable pub is_unique : List String → Bool
unfolding contains
is_unique [] = true
is_unique (x ∷ xs) = not (contains xs x) && is_unique xs

pub contains-append :
    (xs ys : List String) (s : String) → contains (xs ++ ys) s ≡ (contains xs s || contains ys s)
unfolding contains
contains-append [] ys s = refl
contains-append (x ∷ xs) ys s = ground (arith, contains-append xs ys s)

pub contains-add :
    (xs : List String) (x s : String) → contains (add xs x) s ≡ (x == s || contains xs s)
unfolding add
contains-add xs x s = ground (arith, eq_iff x s)

pub contains_of_Memᴰ : (xs : List String) (s : String) → Memᴰ s xs → contains xs s ≡ true
unfolding contains
contains_of_Memᴰ [] s m = absurd (Memᴰ.not-nil m)
contains_of_Memᴰ (x ∷ xs) s m = ground (arith, eq_iff x s, Memᴰ-cons s x xs, contains_of_Memᴰ xs s)

pub Memᴰ_of_contains : (xs : List String) (s : String) → contains xs s ≡ true → Memᴰ s xs
unfolding contains
Memᴰ_of_contains [] s h = absurd (ground arith)
Memᴰ_of_contains (x ∷ xs) s h = ground (arith, eq_iff x s, Memᴰ-cons s x xs, Memᴰ_of_contains xs s)

pub contains-eq-false_of_ne :
    (xs : List String) (s : String) → ((x : String) → Memᴰ x xs → x ≢ s) → contains xs s ≡ false
contains-eq-false_of_ne xs s h = ground (arith, Memᴰ_of_contains xs s, h s)

contains-dedup_from :
    (seen xs : List String) (s : String)
    → (contains seen s || contains (dedup_from seen xs) s) ≡ (contains seen s || contains xs s)
unfolding dedup_from
contains-dedup_from seen [] s = refl
contains-dedup_from seen (x ∷ xs) s =
    ground (arith, eq_iff x s, contains-dedup_from (x ∷ seen) xs s, contains-dedup_from seen xs s)

-- `dict.fromkeys` keeps exactly the items of the list.
pub contains-dedup : (xs : List String) (s : String) → contains (dedup xs) s ≡ contains xs s
unfolding dedup
contains-dedup xs s = ground (arith, contains-dedup_from [] xs s)

dedup_from-fresh :
    (seen xs : List String) (s : String)
    → contains seen s ≡ true
    → contains (dedup_from seen xs) s ≡ false
unfolding dedup_from
dedup_from-fresh seen [] s h = refl
dedup_from-fresh seen (x ∷ xs) s h =
    ground (arith, eq_iff x s, dedup_from-fresh (x ∷ seen) xs s, dedup_from-fresh seen xs s)

dedup_from-is_unique : (seen xs : List String) → is_unique (dedup_from seen xs) ≡ true
unfolding dedup_from is_unique
dedup_from-is_unique seen [] = refl
dedup_from-is_unique seen (x ∷ xs) = ground (
  arith,
  eq_iff x x,
  dedup_from-is_unique (x ∷ seen) xs,
  dedup_from-is_unique seen xs,
  dedup_from-fresh (x ∷ seen) xs x,
)

pub dedup-is_unique : (xs : List String) → is_unique (dedup xs) ≡ true
unfolding dedup
dedup-is_unique xs = dedup_from-is_unique [] xs

module _ {ℓ} {V : Type ℓ} where
  -- `d.get(k)`
  unfoldable pub lookup : String → List (String × V) → Option V
  lookup k [] = none
  lookup k ((j, v) ∷ d) = let rest = lookup k d in if j == k then some v else rest

  -- `d[k] = v`: a known key keeps its place
  unfoldable pub insert : (name : String) (value : V) (d : List (String × V)) → List (String × V)
  insert name value ((other, old) ∷ d) =
      let rest = insert name value d in
      if other == name then (name, value) ∷ d else (other, old) ∷ rest
  insert name value [] = (name, value) ∷ []

  abbrev pub keys : List (String × V) → List String
  keys = map (λ e. e.0)

  pub lookup-insert :
      (k j : String) (v : V) (d : List (String × V))
      → lookup j (insert k v d) ≡ (if k == j then some v else lookup j d)
  unfolding lookup insert
  lookup-insert k j v [] = ground arith
  lookup-insert k j v ((i, w) ∷ d) =
      ground (arith, eq_iff k j, eq_iff i k, eq_iff i j, lookup-insert k j v d)

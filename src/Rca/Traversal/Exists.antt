-- ===== src/Rca/Traversal/Exists.antt =====
-- `_typed_path_exists` of backend/app/rca/candidate_generator.py beside `TopologyIndex.path` of
-- backend/app/rca/ranker.py, which is written separately.
use network_anomaly_root_cau.Prelude.{
  ℕ, zero, suc, ◌+◌, ◌-◌, ◌≤◌, String, ◌==◌, List, [], ◌∷◌, ◌++◌, map, ◌≡◌, refl, ap, ◌∙◌, true,
  false, arith, length, length-append, contains, Bool-cases, inl, inr, All, leb, ◌⊎◌,
}
use network_anomaly_root_cau.Rca.Contracts.{RcaTopologyEdge}
use network_anomaly_root_cau.Rca.Traversal.{
  TraversalPolicy, adjacency, neighbors, PathSearch, ExistsSearch, answer, path_loop, path,
  exists_loop, typed_path_exists,
}
use network_anomaly_root_cau.Rca.Traversal.Routes.{IsShortestRoute, path-IsShortestRoute}
use network_anomaly_root_cau.Rca.Traversal.Walks.{fresh, mark, item, scan_lem, scan_exists_lem}

-- whether a path was found
abbrev pub is_found : PathSearch → ExistsSearch
is_found (PathSearch.found p) = answer true
is_found PathSearch.not_found = answer false
is_found PathSearch.out_of_fuel = ExistsSearch.out_of_fuel

-- the queue of the test: each path counted by its edges
abbrev counted : List (String × List String) → List (String × ℕ)
counted = map (λ i. (i.0, length i.1 - 1))

abbrev NonEmpty : List (String × List String) → Type 0
NonEmpty = All (λ i. 1 ≤ length i.1)

NonEmpty-append :
    (xs ys : List (String × List String)) → NonEmpty xs → NonEmpty ys → NonEmpty (xs ++ ys)
NonEmpty-append [] ys a b = b
NonEmpty-append (x ∷ xs) ys a b = (a.0, NonEmpty-append xs ys a.1 b)

NonEmpty-item : (p ws : List String) → NonEmpty (map (item p) ws)
NonEmpty-item p [] = tt
NonEmpty-item p (w ∷ ws) = (omega (arith, length-append p (w ∷ [])), NonEmpty-item p ws)

counted-item :
    (p ws : List String)
    → 1 ≤ length p
    → counted (map (item p) ws) ≡ map (λ w. (w, length p - 1 + 1)) ws
counted-item p [] h = refl
counted-item p (w ∷ ws) h =
    let size : length (p ++ w ∷ []) - 1 ≡ length p - 1 + 1 =
      omega (arith, length-append p (w ∷ [])) in
    rw (size, counted-item p ws h)

counted-append :
    (xs ys : List (String × List String)) → counted (xs ++ ys) ≡ counted xs ++ counted ys
counted-append [] ys = refl
counted-append (x ∷ xs) ys = ap (◌∷◌ (x.0, length x.1 - 1)) (counted-append xs ys)

module _ (adj : List (String × List String)) (max_hops : ℕ) (t : String) where
  loops_agree :
      (fuel : ℕ) (visited : List String) (queue : List (String × List String))
      → NonEmpty queue
      → exists_loop adj max_hops t fuel visited (counted queue)
        ≡ is_found (path_loop adj max_hops t fuel visited queue)
  unfolding path_loop exists_loop
  loops_agree zero visited [] h = refl
  loops_agree (suc fuel) visited [] h = refl
  loops_agree zero visited (i ∷ queue) h = refl
  loops_agree (suc fuel) visited ((c, p) ∷ queue) h =
      let ws = neighbors adj c in
      let skip = loops_agree fuel visited queue h.1 in
      let go = loops_agree fuel (mark visited ws) (queue ++ map (item p) (fresh visited ws)) (
        NonEmpty-append queue (map (item p) (fresh visited ws)) h.1
          (NonEmpty-item p (fresh visited ws))) in
      let queues =
        counted-append queue (map (item p) (fresh visited ws))
        ∙ ap (λ (l : List (String × ℕ)). counted queue ++ l)
            (counted-item p (fresh visited ws) h.0) in
      elim (Bool-cases (leb max_hops (length p - 1))) [
        | inl far ↦ rw far skip
        | inr close ↦ elim (Bool-cases (contains ws t)) [
          | inl m ↦ rw (
            close,
            scan_lem t p ws visited queue,
            scan_exists_lem t (length p - 1) ws visited (counted queue),
            m,
          )
          | inr miss ↦
              rw
                (
                  close,
                  scan_lem t p ws visited queue,
                  scan_exists_lem t (length p - 1) ws visited (counted queue),
                  miss,
                  ← queues,
                )
                go
        ]
      ]

-- the two searches side by side, fuel included
pub typed_path_exists_agrees :
    (edges : List RcaTopologyEdge) (s t : String) (p : TraversalPolicy)
    → typed_path_exists edges s t p ≡ is_found (path edges s t p)
unfolding typed_path_exists path
typed_path_exists_agrees edges s t p = elim (Bool-cases (s == t)) [
  | inl same ↦ rw same
  | inr apart ↦ rw apart (
      loops_agree (adjacency edges p) p.max_hops t (suc (length edges)) (s ∷ []) ((s, s ∷ []) ∷ [])
        (omega arith, tt))
]

-- how the test and the path search end together
abbrev pub EndTogether : PathSearch → ExistsSearch → Type 0
EndTogether o b =
    ((q : List String) × (o ≡ PathSearch.found q) × (b ≡ answer true))
    ⊎ ((o ≡ PathSearch.not_found) × (b ≡ answer false))

EndTogether-is_found :
    (edges : List RcaTopologyEdge) (s t : String) (p : TraversalPolicy) (o : PathSearch)
    → IsShortestRoute edges p s t o
    → EndTogether o (is_found o)
EndTogether-is_found edges s t p (PathSearch.found q) h = inl (q, refl, refl)
EndTogether-is_found edges s t p PathSearch.not_found h = inr (refl, refl)
EndTogether-is_found edges s t p PathSearch.out_of_fuel h = absurd h

-- Both searches end, neither out of fuel: either `TopologyIndex.path` finds a path and
-- `_typed_path_exists` answers true, or it finds none and the answer is false.
pub typed_path_exists-eq-path :
    (edges : List RcaTopologyEdge) (s t : String) (p : TraversalPolicy)
    → EndTogether (path edges s t p) (typed_path_exists edges s t p)
typed_path_exists-eq-path edges s t p =
    rw (typed_path_exists_agrees edges s t p)
      (EndTogether-is_found edges s t p (path edges s t p) (path-IsShortestRoute edges p s t))

-- ===== src/Rca/Traversal/Routes.antt =====
-- The answer of `TopologyIndex.path` against the routes along the edges of the snapshot, with no
-- adjacency dictionary in between.
use network_anomaly_root_cau.Prelude.{
  ℕ, zero, suc, ◌≤◌, ◌<◌, String, ◌==◌, eq_iff, List, [], ◌∷◌, ◌++◌, map, Memᴰ, ◌≡◌, refl, sym,
  subst, true, false, ◌||◌, arith, length, length-append, length-map, contains, keep, Bool-cases,
  inl, inr, Memᴰ-cons,
}
use mathlib.Core.List.Memᴰ
use network_anomaly_root_cau.Contracts.{is_relation}
use network_anomaly_root_cau.Rca.Contracts.{RcaTopologyEdge}
use network_anomaly_root_cau.Rca.Traversal.{
  TraversalPolicy, start_of, end_of, adjacency, neighbors, PathSearch, found, not_found,
  out_of_fuel, path,
}
use network_anomaly_root_cau.Rca.Traversal.Walks.{
  Walk, here, step, Trail, start, extend, unseen, leaves, neighbors-adjacency,
}
use network_anomaly_root_cau.Rca.Traversal.Path.{Inv, Answer}
use network_anomaly_root_cau.Rca.Traversal.Search.{loop-Ends}

module _ (edges : List RcaTopologyEdge) (p : TraversalPolicy) where
  -- an edge of the snapshot that the policy follows from `u` to `v`
  pub record Linked (u v : String) : Type 0 where
    pub edge : RcaTopologyEdge
    pub listed : Memᴰ edge edges
    pub typed : is_relation edge.relation_type p.relation_type ≡ true
    pub starts : start_of p.direction edge ≡ u
    pub ends : end_of p.direction edge ≡ v

  -- the vertices of a route from `s`, first to last
  pub data Route (s : String) : String → List String → Type 0 where
    origin : Route s s (s ∷ [])
    onward : {u v : String} {q : List String} → Route s u q → Linked u v → Route s v (q ++ v ∷ [])

  -- the contract of the search: a shortest route within the bound, or none is within it
  abbrev pub IsShortestRoute : String → String → PathSearch → Type 0
  IsShortestRoute s t (found q) =
      Route s t q
      × (length q ≤ suc p.max_hops)
      × ((r : List String) → Route s t r → length q ≤ length r)
  IsShortestRoute s t not_found = (r : List String) → Route s t r → suc p.max_hops < length r
  IsShortestRoute s t out_of_fuel = ⊥

  abbrev adj : List (String × List String)
  adj = adjacency edges p

  link_of_mem :
      (es : List RcaTopologyEdge) (u v : String)
      → Memᴰ v (map (end_of p.direction) (keep (leaves p u) es))
      → (e : RcaTopologyEdge) × Memᴰ e es × (leaves p u e ≡ true) × (end_of p.direction e ≡ v)
  link_of_mem [] u v m = absurd (Memᴰ.not-nil m)
  link_of_mem (e ∷ es) u v m = elim (Bool-cases (leaves p u e)) [
    | inr other ↦ let (x, m', l, h) = link_of_mem es u v (rw other at m) in (x, Memᴰ.tail m', l, h)
    | inl leaving ↦
        elim ((Memᴰ-cons v (end_of p.direction e)
            (map (end_of p.direction) (keep (leaves p u) es))).0
          (rw leaving at m)) [
            | inl same ↦ (e, Memᴰ.head refl, leaving, sym same)
            | inr m'' ↦ let (x, m', l, h) = link_of_mem es u v m'' in (x, Memᴰ.tail m', l, h)
          ]
  ]

  mem_of_link :
      (es : List RcaTopologyEdge) (u : String) (e : RcaTopologyEdge)
      → Memᴰ e es
      → leaves p u e ≡ true
      → Memᴰ (end_of p.direction e) (map (end_of p.direction) (keep (leaves p u) es))
  mem_of_link [] u e m l = absurd (Memᴰ.not-nil m)
  mem_of_link (x ∷ es) u e (Memᴰ.head same) l = rw (← same) (rw l (Memᴰ.head refl))
  mem_of_link (x ∷ es) u e (Memᴰ.tail m) l = elim (Bool-cases (leaves p u x)) [
    | inr other ↦ rw other (mem_of_link es u e m l)
    | inl leaving ↦ rw leaving (Memᴰ.tail (mem_of_link es u e m l))
  ]

  Linked-of_neighbor : (u v : String) → Memᴰ v (neighbors adj u) → Linked u v
  Linked-of_neighbor u v m =
      let (e, listed, l, ends) = link_of_mem edges u v (rw (neighbors-adjacency edges p u) at m) in
      record {
        edge = e;
        listed = listed;
        typed = ground arith;
        starts = ground (arith, eq_iff (start_of p.direction e) u);
        ends = ends;
      }

  neighbor_of_Linked : (u v : String) → Linked u v → Memᴰ v (neighbors adj u)
  neighbor_of_Linked u v k =
      rw (neighbors-adjacency edges p u, ← k.ends)
        (mem_of_link edges u k.edge k.listed
          (ground (arith, eq_iff (start_of p.direction k.edge) u, k.typed, k.starts)))

  Route-of_Trail : {s v : String} {q : List String} → Trail adj s v q → Route s v q
  Route-of_Trail start = origin
  Route-of_Trail (extend {u} {v} t m) = onward (Route-of_Trail t) (Linked-of_neighbor u v m)

  -- a route is a walk with one edge fewer than it has vertices
  Walk-of_Route :
      {s v : String} {q : List String} → Route s v q → (n : ℕ) × (length q ≡ suc n) × Walk adj s v n
  Walk-of_Route origin = (0, omega arith, here)
  Walk-of_Route (onward {u} {v} {q} r k) =
      let (n, size, w) = Walk-of_Route r in
      (suc n, omega (arith, length-append q (v ∷ []), size), step w (neighbor_of_Linked u v k))

  to_routes : (s t : String) (o : PathSearch) → Answer adj s t p.max_hops o → IsShortestRoute s t o
  to_routes s t (found q) (trail, bound, least) = (
    Route-of_Trail trail,
    bound,
    λ r route. let (n, size, w) = Walk-of_Route route in omega (arith, least n w),
  )
  to_routes s t not_found far =
      λ r route. let (n, size, w) = Walk-of_Route route in omega (arith, far n w)
  to_routes s t out_of_fuel h = h

  unseen-le : (visited es : List String) → unseen visited es ≤ length es
  unseen-le visited [] = omega arith
  unseen-le visited (e ∷ es) = ground (arith, unseen-le visited es)

  keep_ends :
      (es : List RcaTopologyEdge) (u w : String)
      → contains (map (end_of p.direction) (keep (leaves p u) es)) w ≡ true
      → contains (map (end_of p.direction) es) w ≡ true
  unfolding contains
  keep_ends [] u w h = h
  keep_ends (e ∷ es) u w h = ground (arith, keep_ends es u w)

  start_Inv :
      (s t : String) → (s == t) ≡ false → Inv adj s t p.max_hops 0 (s ∷ []) ((s, s ∷ []) ∷ []) []
  unfolding contains
  start_Inv s t apart = record {
    source = ground (arith, eq_iff s s);
    target = ground (arith, apart);
    at_now = (record { trail = start; size = omega arith; least = λ n w. omega arith }, tt);
    at_next = tt;
    closed = λ u v. inl v;
    near = near_start;
  }
    where
      near_start :
          (n : ℕ) (v : String) → Walk adj s v n → n ≤ 0 → n ≤ p.max_hops → (s == v || false) ≡ true
      near_start zero v here a b = ground (arith, eq_iff s s)
      near_start (suc n) v w a b = absurd (omega arith)

  path-Answer : (s t : String) → Answer adj s t p.max_hops (path edges s t p)
  unfolding path
  path-Answer s t = elim (Bool-cases (s == t)) [
    | inl same ↦ rw same (
      subst (λ x. Trail adj s x (s ∷ [])) ((eq_iff s t).0 same) start,
      omega arith,
      λ n w. omega arith,
    )
    | inr apart ↦ rw apart (
        loop-Ends adj s t p.max_hops (map (end_of p.direction) edges)
          (λ u w h. keep_ends edges u w (rw (neighbors-adjacency edges p u) at h))
          (suc (length edges)) 0 (s ∷ []) ((s, s ∷ []) ∷ []) [] (start_Inv s t apart)
          (omega (
            arith,
            unseen-le (s ∷ []) (map (end_of p.direction) edges),
            length-map (end_of p.direction) edges,
          )))
  ]

-- `TopologyIndex.path` always ends. A path that it returns is a route of edges of the policy's
-- relation and direction from the source to the target, of at most `max_hops` edges, and no route is
-- shorter; when it returns none, every route to the target has more than `max_hops` edges.
pub path-IsShortestRoute :
    (edges : List RcaTopologyEdge) (p : TraversalPolicy) (s t : String)
    → IsShortestRoute edges p s t (path edges s t p)
path-IsShortestRoute edges p s t =
    to_routes edges p s t (path edges s t p) (path-Answer edges p s t)

-- ===== src/Rca/Traversal/Walks.antt =====
-- What the traversals are measured against: walks along the edges that a policy allows, and the
-- inner loops in closed form.
use network_anomaly_root_cau.Prelude.{
  ℕ, zero, suc, ◌+◌, ◌≤◌, String, ◌==◌, eq_iff, List, [], ◌∷◌, ◌++◌, map, Memᴰ, ◌≡◌, refl, Bool,
  true, false, ◌||◌, ◌&&◌, not, arith, length, contains, keep, lookup, lookup-insert, if◌then◌else◌,
  Bool-cases, inl, inr, get_or_else, ◌∙◌,
}
use mathlib.Core.List.{append_assoc, append-nil}
use network_anomaly_root_cau.Contracts.{is_relation}
use network_anomaly_root_cau.Rca.Contracts.{RcaTopologyEdge}
use network_anomaly_root_cau.Rca.Traversal.{
  TraversalPolicy, start_of, end_of, append_to, adjacency_from, adjacency, neighbors, hit, more,
  scan, ExistsScan, scan_exists,
}

module _ (adj : List (String × List String)) (s : String) where
  -- `n` edges lead from `s` to the vertex
  pub data Walk : String → ℕ → Type 0 where
    here : Walk s zero
    step : {u v : String} {n : ℕ} → Walk u n → Memᴰ v (neighbors adj u) → Walk v (suc n)

  -- the vertices of a walk from `s`, first to last
  pub data Trail : String → List String → Type 0 where
    start : Trail s (s ∷ [])
    extend :
        {u v : String} {p : List String}
        → Trail u p
        → Memᴰ v (neighbors adj u)
        → Trail v (p ++ v ∷ [])

-- the edges of the policy that leave a vertex, as the code filters them
abbrev pub leaves : TraversalPolicy → String → RcaTopologyEdge → Bool
leaves p u e = is_relation e.relation_type p.relation_type && start_of p.direction e == u

neighbors-append_to :
    (s t u : String) (d : List (String × List String))
    → neighbors (append_to s t d) u ≡ (if s == u then neighbors d u ++ t ∷ [] else neighbors d u)
unfolding neighbors append_to
neighbors-append_to s t u d =
    ground (arith, eq_iff s u, lookup-insert s u (get_or_else (lookup s d) [] ++ t ∷ []) d)

neighbors-adjacency_from :
    (p : TraversalPolicy) (u : String) (d : List (String × List String)) (es : List RcaTopologyEdge)
    → neighbors (adjacency_from p d es) u
      ≡ neighbors d u ++ map (end_of p.direction) (keep (leaves p u) es)
unfolding adjacency_from
neighbors-adjacency_from p u d [] = rw append-nil
neighbors-adjacency_from p u d (e ∷ es) =
    let d' = append_to (start_of p.direction e) (end_of p.direction e) d in
    let added = neighbors-append_to (start_of p.direction e) (end_of p.direction e) u d in
    let one = neighbors-adjacency_from p u d es in
    let two = neighbors-adjacency_from p u d' es in
    elim (Bool-cases (is_relation e.relation_type p.relation_type)) [
      | inr other ↦ rw other one
      | inl same ↦ rw same (elim (Bool-cases (start_of p.direction e == u)) [
        | inl leaving ↦ rw leaving (
            rw two (
              rw added (
                rw leaving (
                  append_assoc (neighbors d u) (end_of p.direction e ∷ [])
                    (map (end_of p.direction) (keep (leaves p u) es))))))
        | inr apart ↦ rw apart (rw two (rw added (rw apart)))
      ])
    ]

-- The dictionary of lists holds, for each vertex, the ends of its edges in their order.
pub neighbors-adjacency :
    (edges : List RcaTopologyEdge) (p : TraversalPolicy) (u : String)
    → neighbors (adjacency edges p) u ≡ map (end_of p.direction) (keep (leaves p u) edges)
unfolding adjacency neighbors
neighbors-adjacency edges p u = neighbors-adjacency_from p u [] edges

-- the neighbours that the inner loop queues, and the visited set that it leaves
abbrev pub fresh : List String → List String → List String
fresh visited [] = []
fresh visited (w ∷ ws) =
    let old = fresh visited ws in
    let new = fresh (w ∷ visited) ws in if contains visited w then old else w ∷ new

abbrev pub mark : List String → List String → List String
mark visited [] = visited
mark visited (w ∷ ws) = mark (if contains visited w then visited else w ∷ visited) ws

abbrev pub item : List String → String → String × List String
item p w = (w, p ++ w ∷ [])

pub scan_lem :
    (t : String) (p ws visited : List String) (queue : List (String × List String))
    → scan t p ws visited queue ≡ (
        if contains ws t
        then hit (p ++ t ∷ [])
        else more (mark visited ws) (queue ++ map (item p) (fresh visited ws)))
unfolding scan contains
scan_lem t p [] visited queue = rw append-nil
scan_lem t p (w ∷ ws) visited queue = elim (Bool-cases (w == t)) [
  | inl same ↦ rw (same, (eq_iff w t).0 same)
  | inr other ↦ elim (Bool-cases (contains visited w)) [
    | inl old ↦ rw (other, old) (scan_lem t p ws visited queue)
    | inr new ↦
        rw (other, new) (scan_lem t p ws (w ∷ visited) (queue ++ item p w ∷ []) ∙ rw append_assoc)
  ]
]

pub scan_exists_lem :
    (t : String) (d : ℕ) (ws visited : List String) (queue : List (String × ℕ))
    → scan_exists t d ws visited queue ≡ (
        if contains ws t
        then ExistsScan.hit
        else ExistsScan.more (mark visited ws) (queue ++ map (λ w. (w, d + 1)) (fresh visited ws)))
unfolding scan_exists contains
scan_exists_lem t d [] visited queue = rw append-nil
scan_exists_lem t d (w ∷ ws) visited queue = elim (Bool-cases (w == t)) [
  | inl same ↦ rw same
  | inr other ↦ elim (Bool-cases (contains visited w)) [
    | inl old ↦ rw (other, old) (scan_exists_lem t d ws visited queue)
    | inr new ↦
        rw (other, new)
          (scan_exists_lem t d ws (w ∷ visited) (queue ++ (w, d + 1) ∷ []) ∙ rw append_assoc)
  ]
]

pub contains-mark :
    (visited ws : List String) (x : String)
    → contains (mark visited ws) x ≡ (contains ws x || contains visited x)
unfolding contains
contains-mark visited [] x = refl
contains-mark visited (w ∷ ws) x =
    ground (arith, eq_iff w x, contains-mark visited ws x, contains-mark (w ∷ visited) ws x)

pub contains-fresh :
    (visited ws : List String) (x : String)
    → contains (fresh visited ws) x ≡ (contains ws x && not (contains visited x))
unfolding contains
contains-fresh visited [] x = refl
contains-fresh visited (w ∷ ws) x =
    ground (arith, eq_iff w x, contains-fresh visited ws x, contains-fresh (w ∷ visited) ws x)

-- the entries of a list that are not visited yet
abbrev pub unseen : List String → List String → ℕ
unseen visited [] = 0
unseen visited (e ∷ es) =
    let rest = unseen visited es in if contains visited e then rest else suc rest

unseen-cons-le :
    (w : String) (visited es : List String) → unseen (w ∷ visited) es ≤ unseen visited es
unfolding contains
unseen-cons-le w visited [] = omega arith
unseen-cons-le w visited (e ∷ es) = ground (arith, unseen-cons-le w visited es)

unseen-cons-lt :
    (w : String) (visited es : List String)
    → contains visited w ≡ false
    → contains es w ≡ true
    → suc (unseen (w ∷ visited) es) ≤ unseen visited es
unfolding contains
unseen-cons-lt w visited [] new h = cc
unseen-cons-lt w visited (e ∷ es) new h =
    ground (arith, eq_iff e w, eq_iff w e, unseen-cons-lt w visited es, unseen-cons-le w visited es)

-- Each vertex that is queued was counted before.
pub unseen-mark :
    (visited ws es : List String)
    → ((w : String) → contains ws w ≡ true → contains es w ≡ true)
    → unseen (mark visited ws) es + length (fresh visited ws) ≤ unseen visited es
unfolding contains
unseen-mark visited [] es sub = omega arith
unseen-mark visited (w ∷ ws) es sub =
    let sub' = λ (x : String) (h : contains ws x ≡ true). sub x (ground arith) in
    let one = unseen-cons-lt w visited es in
    let old = unseen-mark visited ws es sub' in
    let new = unseen-mark (w ∷ visited) ws es sub' in
    ground (arith, old, new, one, sub w, eq_iff w w)

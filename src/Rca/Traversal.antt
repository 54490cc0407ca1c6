-- ===== src/Rca/Traversal.antt =====
-- The typed breadth-first traversals of the engine: `_typed_path_exists` of
-- backend/app/rca/candidate_generator.py and `TopologyIndex` of backend/app/rca/ranker.py.
-- A loop recurs on fuel, one unit for each vertex that it takes from the queue; it is given one unit
-- more than there are edges.
pub mod Walks
pub mod Path
pub mod Search
pub mod Routes
pub mod Exists
use network_anomaly_root_cau.Prelude.{
  ℕ, zero, suc, ◌+◌, ◌-◌, String, ◌==◌, Bool, true, false, not, Option, none, some, List, [], ◌∷◌,
  ◌++◌, length, lookup, insert, contains, leb, if◌then◌else◌, get_or_else,
}
use network_anomaly_root_cau.Contracts.{TopologyRelation, is_relation}
use network_anomaly_root_cau.Rca.Contracts.{RcaTopologyEdge}

pub data Direction : Type 0 where
  forward reverse : Direction

-- candidate_generator.py
pub record TraversalPolicy : Type 0 where
  pub relation_type : TopologyRelation
  pub direction : Direction
  pub max_hops : ℕ

abbrev pub start_of : Direction → RcaTopologyEdge → String
start_of forward e = e.source
start_of reverse e = e.target

abbrev pub end_of : Direction → RcaTopologyEdge → String
end_of forward e = e.target
end_of reverse e = e.source

-- `mutable.setdefault(source, []).append(target)`
append_to : String → String → List (String × List String) → List (String × List String)
unfolding lookup insert
append_to s t d = insert s (get_or_else (lookup s d) [] ++ t ∷ []) d

adjacency_from :
    TraversalPolicy
    → List (String × List String)
    → List RcaTopologyEdge
    → List (String × List String)
unfolding append_to
adjacency_from p d [] = d
adjacency_from p d (e ∷ es) =
    adjacency_from p
      (if is_relation e.relation_type p.relation_type
        then append_to (start_of p.direction e) (end_of p.direction e) d
        else d)
      es

-- `TopologyIndex._adjacency`
unfoldable pub adjacency : List RcaTopologyEdge → TraversalPolicy → List (String × List String)
unfolding adjacency_from
adjacency edges p = adjacency_from p [] edges

-- `adjacency.get(current, ())`
unfoldable pub neighbors : List (String × List String) → String → List String
unfolding lookup
neighbors adj v = get_or_else (lookup v adj) []

pub data PathSearch : Type 0 where
  found : List String → PathSearch
  not_found out_of_fuel : PathSearch

-- the inner loop: it returns at the target, or goes on with the visited set and the queue
pub data Scan : Type 0 where
  hit : List String → Scan
  more : List String → List (String × List String) → Scan

unfoldable pub scan :
    String → List String → List String → List String → List (String × List String) → Scan
unfolding contains
scan target path [] visited queue = more visited queue
scan target path (w ∷ ws) visited queue =
    let next_path = path ++ w ∷ [] in
    let rest =
      scan target path ws (if contains visited w then visited else w ∷ visited)
        (if contains visited w then queue else queue ++ (w, next_path) ∷ []) in
    if w == target then hit next_path else rest

-- what the outer loop does after the inner one
resume : Scan → (List String → List (String × List String) → PathSearch) → PathSearch
resume (hit p) next = found p
resume (more visited queue) next = next visited queue

module _ (adj : List (String × List String)) (max_hops : ℕ) (target : String) where
  unfoldable pub path_loop : ℕ → List String → List (String × List String) → PathSearch
  unfolding resume
  path_loop fuel visited [] = not_found
  path_loop zero visited (item ∷ queue) = out_of_fuel
  path_loop (suc fuel) visited ((current, path) ∷ queue) =
      let skip = path_loop fuel visited queue in
      let go = resume (scan target path (neighbors adj current) visited queue) (path_loop fuel) in
      if leb max_hops (length path - 1) then skip else go

-- `TopologyIndex.path`
unfoldable pub path : List RcaTopologyEdge → String → String → TraversalPolicy → PathSearch
path edges source target p =
    if source == target
    then found (source ∷ [])
    else path_loop (adjacency edges p) p.max_hops target (suc (length edges)) (source ∷ [])
        ((source, source ∷ []) ∷ [])

pub data ExistsSearch : Type 0 where
  answer : Bool → ExistsSearch
  out_of_fuel : ExistsSearch

pub data ExistsScan : Type 0 where
  hit : ExistsScan
  more : List String → List (String × ℕ) → ExistsScan

unfoldable pub scan_exists : String → ℕ → List String → List String → List (String × ℕ) → ExistsScan
unfolding contains
scan_exists target distance [] visited queue = more visited queue
scan_exists target distance (w ∷ ws) visited queue =
    let rest =
      scan_exists target distance ws (if contains visited w then visited else w ∷ visited)
        (if contains visited w then queue else queue ++ (w, distance + 1) ∷ []) in
    if w == target then hit else rest

resume_exists : ExistsScan → (List String → List (String × ℕ) → ExistsSearch) → ExistsSearch
resume_exists hit next = answer true
resume_exists (more visited queue) next = next visited queue

module _ (adj : List (String × List String)) (max_hops : ℕ) (target : String) where
  unfoldable pub exists_loop : ℕ → List String → List (String × ℕ) → ExistsSearch
  unfolding resume_exists
  exists_loop fuel visited [] = answer false
  exists_loop zero visited (item ∷ queue) = out_of_fuel
  exists_loop (suc fuel) visited ((current, distance) ∷ queue) =
      let skip = exists_loop fuel visited queue in
      let go =
        resume_exists (scan_exists target distance (neighbors adj current) visited queue)
          (exists_loop fuel) in
      if leb max_hops distance then skip else go

-- `_typed_path_exists`
unfoldable pub typed_path_exists :
    List RcaTopologyEdge → String → String → TraversalPolicy → ExistsSearch
typed_path_exists edges source target p =
    if source == target
    then answer true
    else exists_loop (adjacency edges p) p.max_hops target (suc (length edges)) (source ∷ [])
        ((source, 0) ∷ [])

-- the inner loop of `reachable`: the visited set, the result and the queue
record Reached : Type 0 where
  visited : List String
  result : List String
  queue : List (String × ℕ)

scan_reachable : ℕ → List String → Reached → Reached
unfolding contains
scan_reachable distance [] r = r
scan_reachable distance (w ∷ ws) r = scan_reachable distance ws (
    if contains r.visited w then r else record {
      visited = w ∷ r.visited;
      result = r.result ++ w ∷ [];
      queue = r.queue ++ (w, distance + 1) ∷ [];
    })

module _ (adj : List (String × List String)) (max_hops : ℕ) where
  unfoldable pub reachable_loop :
      ℕ → List String → List String → List (String × ℕ) → Option (List String)
  unfolding scan_reachable
  reachable_loop fuel visited result [] = some result
  reachable_loop zero visited result (item ∷ queue) = none
  reachable_loop (suc fuel) visited result ((current, distance) ∷ queue) =
      let skip = reachable_loop fuel visited result queue in
      let go =
        let r =
          scan_reachable distance (neighbors adj current)
            (record { visited = visited; result = result; queue = queue }) in
        reachable_loop fuel r.visited r.result r.queue in
      if leb max_hops distance then skip else go

-- `TopologyIndex.reachable`; `none` would be a loop that is out of fuel
unfoldable pub reachable : List RcaTopologyEdge → String → TraversalPolicy → Option (List String)
reachable edges source p =
    reachable_loop (adjacency edges p) p.max_hops (suc (length edges)) (source ∷ []) (source ∷ [])
      ((source, 0) ∷ [])

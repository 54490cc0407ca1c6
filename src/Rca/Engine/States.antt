-- ===== src/Rca/Engine/States.antt =====
-- The state that the result gives to a node of the topology.
use network_anomaly_root_cau.Prelude.{
  String, ◌==◌, eq_iff, ◌≡◌, refl, Option, none, some, List, [], ◌∷◌, lookup, insert, lookup-insert,
  contains, if◌then◌else◌, is_some, arith, Bool-cases, inl, inr,
}
use network_anomaly_root_cau.Rca.Contracts.{
  NodeState, suspected_root, primary_affected, impact_path, blast_radius,
}
use network_anomaly_root_cau.Rca.Engine.{put_all, set_default_all, node_states}

lookup-put_all :
    (state : NodeState) (es : List String) (d : List (String × NodeState)) (id : String)
    → lookup id (put_all state es d) ≡ (if contains es id then some state else lookup id d)
unfolding put_all contains
lookup-put_all state [] d id = refl
lookup-put_all state (e ∷ es) d id =
    ground (arith, lookup-put_all state es (insert e state d) id, lookup-insert e id state d)

lookup-set_default_all :
    (state : NodeState) (es : List String) (d : List (String × NodeState)) (id : String)
    → lookup id (set_default_all state es d)
      ≡ (if is_some (lookup id d) then lookup id d else if contains es id then some state else none)
unfolding set_default_all contains
lookup-set_default_all state [] d id = ground arith
lookup-set_default_all state (e ∷ es) d id = elim (Bool-cases (is_some (lookup e d))) [
  | inl old ↦ ground (arith, lookup-set_default_all state es d id, eq_iff e id)
  | inr new ↦ ground (
    arith,
    lookup-set_default_all state es (insert e state d) id,
    lookup-insert e id state d,
    eq_iff e id,
  )
]

-- the state of a node, by the first of these that it is: the suspected root, the primary entity,
-- an affected entity, an entity that the root's traffic reaches
abbrev pub state_of : String → List String → String → List String → String → Option NodeState
unfolding contains
state_of root affected primary reached id =
    if root == id
    then some suspected_root
    else if primary == id
    then some primary_affected
    else if contains affected id
    then some impact_path
    else if contains reached id
    then some blast_radius
    else none

-- `node_states`, which writes and overwrites its entries in four loops, gives each entity the state
-- of the highest role that it has, and no state to an entity without a role.
pub lookup-node_states :
    (root : String) (affected : List String) (primary : String) (reached : List String)
    (id : String)
    → lookup id (node_states root affected primary reached)
      ≡ state_of root affected primary reached id
unfolding node_states contains lookup
lookup-node_states root affected primary reached id =
    let roles = put_all NodeState.impact_path affected [] in
    let marked =
      if primary == root then roles else insert primary NodeState.primary_affected roles in
    ground (
      arith,
      eq_iff primary root,
      eq_iff root id,
      eq_iff primary id,
      lookup-insert root id suspected_root (set_default_all NodeState.blast_radius reached marked),
      lookup-set_default_all NodeState.blast_radius reached marked id,
      lookup-insert primary id primary_affected roles,
      lookup-put_all NodeState.impact_path affected [] id,
    )

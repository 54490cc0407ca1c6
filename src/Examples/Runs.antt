-- ===== src/Examples/Runs.antt =====
-- Runs of the definitions on the example, and the results applied to it.
use network_anomaly_root_cau.Prelude.{
  List, true, [], ◌∷◌, ◌≡◌, refl, Memᴰ, length, ◌≤◌, is_unique, Perm, map, insert_by, sort_by,
  min_by, lookup, insert, contains, add, intersects, dedup, arith,
}
use network_anomaly_root_cau.Prelude.Result.{ok}
use network_anomaly_root_cau.Contracts.{sends_traffic_to}
use network_anomaly_root_cau.Rca.Traversal.{
  adjacency, neighbors, scan, scan_exists, reachable_loop, path_loop, exists_loop, TraversalPolicy,
  Direction, path, typed_path_exists, reachable,
}
use network_anomaly_root_cau.Rca.Traversal.Routes.{IsShortestRoute, path-IsShortestRoute}
use network_anomaly_root_cau.Rca.Traversal.Exists.{EndTogether, typed_path_exists-eq-path}
use network_anomaly_root_cau.Rca.Catalogue.{types_of, entry}
use network_anomaly_root_cau.Rca.Events.{payload_get, target_entity, index_events, label}
use network_anomaly_root_cau.Rca.Generator.{
  anomaly_events, generation_events, dependencies, select_entities, node_type, is_eligible, reasons,
  first_candidate, candidate_of, generate_from, generate,
}
use network_anomaly_root_cau.Rca.Generator.Sound.{Justified, generate-Justified}
use network_anomaly_root_cau.Rca.Generator.Numbered.{
  candidate_ids, candidate_types, numbered, generate-numbered,
}
use network_anomaly_root_cau.Rca.Ranker.Score.{
  round_half_up, weighted, score_factors, ratio, apply_conflicts,
}
use network_anomaly_root_cau.Rca.Ranker.Observations.{
  is_observed, pattern_observations, recursive_contains, direct_log_alert_factor,
}
use network_anomaly_root_cau.Rca.Ranker.Factors.{
  topology_origins, topology_factor, stages_in_order, propagation_factor, symptoms_observed,
  symptom_factor, impact_nodes, is_applicable, metric_anomaly_factor,
}
use network_anomaly_root_cau.Rca.Ranker.Timing.{
  symptom_events, first_symptom_event, candidate_signal, temporal_factor, conflict_source,
  matched_conflicts, change_causal_fit, historical_factor,
}
use network_anomaly_root_cau.Rca.Ranker.Coverage.{available_requirement, coverage}
use network_anomaly_root_cau.Rca.Ranker.Candidate.{
  CandidateScore, catalogue_order, order_of, rank_le, base_factors, score_candidate, score_all,
  rank,
}
use network_anomaly_root_cau.Rca.Ranker.Candidate.Bounds.{
  Bounded, Lowered, apply_conflicts-Lowered, score_factors-le,
}
use network_anomaly_root_cau.Rca.Ranker.Candidate.Base.{InRange}
use network_anomaly_root_cau.Rca.Ranker.Candidate.Scored.{IsScored, score_candidate-IsScored}
use network_anomaly_root_cau.Rca.Ranker.Candidate.Order.{Ranked, Scores, rank-Ranked}
use network_anomaly_root_cau.Rca.Engine.{node_states}
use network_anomaly_root_cau.Rca.Engine.States.{state_of, lookup-node_states}
use network_anomaly_root_cau.Examples.{
  py, topology, bundle, catalogue, bad_candidate, overload_candidate, base, lowered, applied, slow,
  slow_conflict, bad_score, overload_score,
}

abbrev callers : TraversalPolicy
callers = record { relation_type = sends_traffic_to; direction = Direction.reverse; max_hops = 2 }

generate_run : generate py.py_str catalogue bundle ≡ bad_candidate ∷ overload_candidate ∷ []
unfolding neighbors adjacency scan_exists exists_loop generate generate_from first_candidate
    candidate_of reasons is_eligible node_type select_entities dependencies generation_events
    anomaly_events label index_events target_entity payload_get typed_path_exists sort_by insert_by
    contains lookup insert intersects dedup add
generate_run = refl

score_run : score_candidate py catalogue bad_candidate bundle ≡ ok bad_score
unfolding adjacency neighbors scan reachable_loop path_loop score_candidate base_factors entry
    apply_conflicts score_factors weighted round_half_up ratio is_observed pattern_observations
    recursive_contains direct_log_alert_factor topology_origins topology_factor stages_in_order
    propagation_factor symptoms_observed symptom_factor impact_nodes is_applicable
    metric_anomaly_factor symptom_events first_symptom_event candidate_signal temporal_factor
    conflict_source matched_conflicts change_causal_fit historical_factor available_requirement
    coverage index_events target_entity payload_get path reachable anomaly_events sort_by insert_by
    min_by contains lookup insert intersects dedup add
score_run = refl

bundle-InRange : InRange bundle
bundle-InRange = record { scores = (omega arith, tt); similarities = (omega arith, tt) }

unique_types : is_unique (types_of catalogue.hypotheses) ≡ true
unfolding is_unique contains
unique_types = refl

base-Bounded : Bounded base
base-Bounded = ground arith

lowered-Bounded : Bounded lowered
lowered-Bounded = ground arith

overload_run : score_candidate py catalogue overload_candidate bundle ≡ ok overload_score
unfolding adjacency neighbors scan reachable_loop path_loop score_candidate base_factors entry
    apply_conflicts score_factors weighted round_half_up ratio is_observed pattern_observations
    recursive_contains direct_log_alert_factor topology_origins topology_factor stages_in_order
    propagation_factor symptoms_observed symptom_factor impact_nodes is_applicable
    metric_anomaly_factor symptom_events first_symptom_event candidate_signal temporal_factor
    conflict_source matched_conflicts change_causal_fit historical_factor available_requirement
    coverage index_events target_entity payload_get path reachable anomaly_events sort_by insert_by
    min_by contains lookup insert intersects dedup add
overload_run = refl

rank_run :
    rank py catalogue (bad_candidate ∷ overload_candidate ∷ []) bundle
    ≡ ok (overload_score ∷ bad_score ∷ [])
unfolding rank score_all rank_le order_of catalogue_order sort_by insert_by
rank_run = rw (score_run, overload_run) refl

lowered_run : apply_conflicts base ((slow_conflict, slow) ∷ []) ≡ ok (lowered, applied)
unfolding apply_conflicts contains lookup insert
lowered_run = refl

total_run : score_factors lowered ≡ ok 641
unfolding score_factors weighted round_half_up contains lookup
total_run = refl

score_candidate-IsScored_example : IsScored py catalogue bad_candidate bundle bad_score
score_candidate-IsScored_example =
    score_candidate-IsScored py catalogue bad_candidate bundle bad_score bundle-InRange score_run

generate-Justified_example : Justified bundle catalogue.hypotheses bad_candidate
generate-Justified_example =
    generate-Justified py.py_str catalogue bundle bad_candidate (rw generate_run (Memᴰ.head refl))

rank-Ranked_example :
    Ranked catalogue (overload_score ∷ bad_score ∷ [])
    × Perm
        (map (λ (s : CandidateScore). s.candidate) (overload_score ∷ bad_score ∷ []))
        (bad_candidate ∷ overload_candidate ∷ [])
    × ((scored : List CandidateScore) × Scores py catalogue bundle
          (bad_candidate ∷ overload_candidate ∷ [])
          scored
        × Perm (overload_score ∷ bad_score ∷ []) scored)
rank-Ranked_example =
    rank-Ranked py catalogue (bad_candidate ∷ overload_candidate ∷ []) bundle
      (overload_score ∷ bad_score ∷ []) rank_run

path-IsShortestRoute_example :
    IsShortestRoute topology.edges callers "orders" "gateway"
      (path topology.edges "orders" "gateway" callers)
path-IsShortestRoute_example = path-IsShortestRoute topology.edges callers "orders" "gateway"

typed_path_exists-eq-path_example :
    EndTogether
      (path topology.edges "orders" "gateway" callers)
      (typed_path_exists topology.edges "orders" "gateway" callers)
typed_path_exists-eq-path_example =
    typed_path_exists-eq-path topology.edges "orders" "gateway" callers

generate-numbered_example :
    (candidate_ids (generate py.py_str catalogue bundle)
      ≡ numbered "candidate_" 1 (length (generate py.py_str catalogue bundle)))
    × (is_unique (candidate_types (generate py.py_str catalogue bundle)) ≡ true)
generate-numbered_example = generate-numbered py.py_str catalogue bundle unique_types

apply_conflicts-Lowered_example : Lowered base lowered
apply_conflicts-Lowered_example =
    apply_conflicts-Lowered base ((slow_conflict, slow) ∷ []) lowered applied base-Bounded
      lowered_run

score_factors-le_example : 641 ≤ 1000
score_factors-le_example = score_factors-le lowered 641 lowered-Bounded total_run

lookup-node_states_example :
    lookup "gateway" (node_states "gateway" ("orders" ∷ []) "orders" ("gateway" ∷ "orders" ∷ []))
    ≡ state_of "gateway" ("orders" ∷ []) "orders" ("gateway" ∷ "orders" ∷ []) "gateway"
lookup-node_states_example =
    lookup-node_states "gateway" ("orders" ∷ []) "orders" ("gateway" ∷ "orders" ∷ []) "gateway"

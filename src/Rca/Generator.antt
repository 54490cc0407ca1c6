-- ===== src/Rca/Generator.antt =====
-- `CandidateGenerator` of backend/app/rca/candidate_generator.py.
-- `py_str` is Python's `str` on a payload value that is no text.
pub mod Sound
pub mod Numbered
use network_anomaly_root_cau.Prelude.{
  ℕ, suc, ◌+◌, String, ◌==◌, Bool, true, false, not, ◌&&◌, ◌||◌, Option, none, some, List, [], ◌∷◌,
  ◌++◌, map, keep, any, is_empty, length, lookup, contains, intersects, dedup, sort_by,
  if◌then◌else◌, is_some,
}
use network_anomaly_root_cau.Contracts.{
  Value, text, CanonicalEvent, AnomalyRecord, is_modality, config_change, log,
}
use network_anomaly_root_cau.Rca.Contracts.{
  IncidentAnalysisBundle, HypothesisCandidate, RcaTopologyNode,
}
use network_anomaly_root_cau.Rca.Catalogue.{
  HypothesisDefinition, HypothesisCatalogue, CandidateSelector, changed_entity, primary_entity,
  referenced_dependency, event_entity, GenerationRule,
}
use network_anomaly_root_cau.Rca.Events.{event_le, payload_get, target_entity, index_events, label}
use network_anomaly_root_cau.Rca.Traversal.{ExistsSearch, answer, out_of_fuel, typed_path_exists}

abbrev pub is_change : CanonicalEvent → Bool
is_change e = is_modality e.modality config_change

-- the events of the anomalies of the given types, of those that are attached
unfoldable pub anomaly_events :
    List String → List (String × CanonicalEvent) → List AnomalyRecord → List CanonicalEvent
unfolding lookup contains
anomaly_events types events [] = []
anomaly_events types events (a ∷ anomalies) =
    let rest = anomaly_events types events anomalies in
    if contains types a.anomaly_type
    then elim (lookup a.event_id events) [ none ↦ rest | some e ↦ e ∷ rest ]
    else rest

abbrev pub values : List (String × CanonicalEvent) → List CanonicalEvent
values = map (λ e. e.1)

-- `_generation_events`; `none` when the rules of the entry do not match
unfoldable pub generation_events :
    HypothesisDefinition → IncidentAnalysisBundle → List String → Option (List CanonicalEvent)
unfolding contains intersects index_events anomaly_events sort_by
generation_events entry bundle anomaly_types =
    let rules = entry.generation in
    let events = bundle.attached_events in
    let anomaly_match = intersects rules.any_anomaly_types anomaly_types in
    let log_matches =
      keep
        (λ (e : CanonicalEvent).
          is_modality e.modality log && contains rules.any_log_event_types e.event_type)
        events in
    let event_matches =
      keep (λ (e : CanonicalEvent). contains rules.any_event_types e.event_type) events in
    let signal_rules_present =
      not (is_empty rules.any_anomaly_types)
      || not (is_empty rules.any_log_event_types)
      || not (is_empty rules.any_event_types) in
    let from_anomalies =
      anomaly_events rules.any_anomaly_types (index_events [] events) bundle.anomalies in
    let combined = index_events [] (from_anomalies ++ (log_matches ++ event_matches)) in
    if rules.requires_recent_change && not (any is_change events)
    then none
    else if signal_rules_present
        && not (anomaly_match || (not (is_empty log_matches) || not (is_empty event_matches)))
    then none
    else some (sort_by event_le (values combined))

-- the dependencies that the payloads name as texts
unfoldable pub dependencies : List CanonicalEvent → List (String × String)
unfolding payload_get
dependencies [] = []
dependencies (e ∷ es) =
    let rest = dependencies es in
    elim (payload_get "dependency_id" e.raw_payload) [
      | some (text d) ↦ (d, "REFERENCED_DEPENDENCY_SELECTED") ∷ rest
      | _ ↦ rest
    ]

-- `_select_entities`: entities with the reason of their selection
unfoldable pub select_entities :
    (Value → String)
    → CandidateSelector
    → IncidentAnalysisBundle
    → List CanonicalEvent
    → List (String × String)
unfolding target_entity sort_by dependencies
select_entities py_str primary_entity bundle matched =
    (bundle.incident.primary_entity_id, "PRIMARY_ENTITY_SELECTED") ∷ []
select_entities py_str changed_entity bundle matched =
    map (λ e. (target_entity py_str e, "CHANGED_ENTITY_SELECTED"))
      (sort_by event_le (keep is_change bundle.attached_events))
select_entities py_str event_entity bundle matched =
    map (λ (e : CanonicalEvent). (e.entity_id, "MATCHING_EVENT_ENTITY_SELECTED")) matched
select_entities py_str referenced_dependency bundle matched = dependencies matched

-- `bundle.incident.affected_entity_ids or (bundle.incident.primary_entity_id,)`
abbrev pub origins : IncidentAnalysisBundle → List String
origins bundle = elim bundle.incident.affected_entity_ids [
  | [] ↦ bundle.incident.primary_entity_id ∷ []
  | x ∷ xs ↦ x ∷ xs
]

-- the search always answers (`Traversal.Routes`), so the last case is never taken
abbrev pub is_yes : ExistsSearch → Bool
is_yes (answer b) = b
is_yes out_of_fuel = false

-- `{node.entity_id: node.entity_type for node in nodes}`, `.get(entity_id)`: the last node wins
unfoldable pub node_type : List RcaTopologyNode → String → Option String
node_type [] id = none
node_type (n ∷ nodes) id =
    let rest = node_type nodes id in
    if is_some rest then rest else if n.entity_id == id then some n.entity_type else none

-- the two guards in the loop over the selected entities
unfoldable pub is_eligible : HypothesisDefinition → IncidentAnalysisBundle → String → Bool
is_eligible entry bundle entity_id =
    elim (node_type bundle.topology.nodes entity_id) [
      | none ↦ false
      | some kind ↦ contains entry.entity_types kind
    ]
    && any
        (λ origin.
          is_yes (typed_path_exists bundle.topology.edges origin entity_id entry.traversal))
        (origins bundle)

abbrev pub reason_if : Bool → String → List String
reason_if true r = r ∷ []
reason_if false r = []

unfoldable pub reasons : GenerationRule → String → List String
unfolding dedup
reasons rules selector_reason = dedup (
    selector_reason
    ∷ "TOPOLOGY_ENTITY_TYPE_MATCH"
    ∷ (reason_if (not (is_empty rules.any_anomaly_types)) "ANOMALY_TYPE_MATCH"
        ++ (reason_if (not (is_empty rules.any_log_event_types)) "LOG_PATTERN_MATCH"
            ++ (reason_if rules.requires_recent_change "RECENT_CHANGE_MATCH"
                ++ "TYPED_TOPOLOGY_LOCATION_MATCH" ∷ []))))

-- the loop over the selected entities, up to its `break`; `n` candidates are generated already
unfoldable pub first_candidate :
    HypothesisDefinition
    → IncidentAnalysisBundle
    → ℕ
    → List (String × String)
    → Option HypothesisCandidate
first_candidate entry bundle n [] = none
first_candidate entry bundle n ((entity_id, selector_reason) ∷ selected) =
    let rest = first_candidate entry bundle n selected in
    if is_eligible entry bundle entity_id
    then some (record {
      candidate_id = label "candidate_" (n + 1);
      hypothesis_type = entry.hypothesis_type;
      candidate_entity_id = entity_id;
      generation_reason_codes = reasons entry.generation selector_reason;
    })
    else rest

-- the candidate of one entry of the catalogue
unfoldable pub candidate_of :
    (Value → String)
    → HypothesisDefinition
    → IncidentAnalysisBundle
    → ℕ
    → Option HypothesisCandidate
candidate_of py_str entry bundle n =
    elim (generation_events entry bundle
      (map (λ (a : AnomalyRecord). a.anomaly_type) bundle.anomalies)) [
        | none ↦ none
        | some matched ↦
            first_candidate entry bundle n
              (select_entities py_str entry.generation.candidate_selector bundle matched)
      ]

-- the loop over the entries; the list holds the candidates so far
unfoldable pub generate_from :
    (Value → String)
    → IncidentAnalysisBundle
    → List HypothesisCandidate
    → List HypothesisDefinition
    → List HypothesisCandidate
generate_from py_str bundle generated [] = generated
generate_from py_str bundle generated (entry ∷ entries) =
    generate_from py_str bundle
      (elim (candidate_of py_str entry bundle (length generated)) [
        | none ↦ generated
        | some c ↦ generated ++ c ∷ []
      ])
      entries

-- `CandidateGenerator.generate`
unfoldable pub generate :
    (Value → String) → HypothesisCatalogue → IncidentAnalysisBundle → List HypothesisCandidate
unfolding generate_from
generate py_str catalogue bundle = generate_from py_str bundle [] catalogue.hypotheses

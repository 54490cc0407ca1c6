-- ===== src/Rca/Ranker/Timing.antt =====
-- The factors of backend/app/rca/ranker.py from the times, the changes and the past, and the events
-- that conflicts rest on.
use network_anomaly_root_cau.Prelude.{
  ℕ, ◌+◌, ◌-◌, String, ◌==◌, Bool, true, false, not, ◌&&◌, Option, none, some, List, [], ◌∷◌, ◌++◌,
  map, keep, is_empty, head?, lookup, contains, intersects, min_by, ltb, leb, if◌then◌else◌,
}
use network_anomaly_root_cau.Contracts.{Value, text, CanonicalEvent, AnomalyRecord, unit}
use network_anomaly_root_cau.Rca.Contracts.{IncidentAnalysisBundle, HistoricalMatch}
use network_anomaly_root_cau.Rca.Catalogue.{Pattern, HypothesisDefinition, ConflictPattern}
use network_anomaly_root_cau.Rca.Events.{event_le, payload_get, target_entity, index_events}
use network_anomaly_root_cau.Rca.Generator.{values, is_change, anomaly_events}
use network_anomaly_root_cau.Rca.Ranker.Observations.{event_map, pattern_observations}
use network_anomaly_root_cau.Rca.Ranker.Factors.{max_of}

-- the events of the anomalies that are no context
unfoldable pub symptom_events :
    List (String × CanonicalEvent) → List AnomalyRecord → List CanonicalEvent
unfolding lookup
symptom_events events [] = []
symptom_events events (a ∷ anomalies) =
    let rest = symptom_events events anomalies in
    if a.context_only
    then rest
    else elim (lookup a.event_id events) [ none ↦ rest | some e ↦ e ∷ rest ]

-- `_first_symptom_event`
unfoldable pub first_symptom_event : IncidentAnalysisBundle → Option CanonicalEvent
unfolding symptom_events index_events min_by
first_symptom_event bundle = min_by event_le (symptom_events (event_map bundle) bundle.anomalies)

-- `_candidate_signal`
unfoldable pub candidate_signal :
    (Value → String)
    → HypothesisDefinition
    → String
    → IncidentAnalysisBundle
    → Option CanonicalEvent
unfolding target_entity min_by index_events anomaly_events contains
candidate_signal py_str entry id bundle =
    let rules = entry.generation in
    let changes =
      keep (λ (e : CanonicalEvent). is_change e && target_entity py_str e == id)
        bundle.attached_events in
    let matching =
      index_events
        (index_events []
          (anomaly_events rules.any_anomaly_types (event_map bundle) bundle.anomalies))
        (keep
          (λ (e : CanonicalEvent).
            contains (rules.any_log_event_types ++ rules.any_event_types) e.event_type)
          bundle.attached_events) in
    if entry.change_based then min_by event_le changes else min_by event_le (values matching)

-- `_temporal_factor`, by the milliseconds from the signal to the first symptom
unfoldable pub temporal_factor : Option CanonicalEvent → Option CanonicalEvent → ℕ
temporal_factor (some signal) (some first) =
    let gap = first.timestamp - signal.timestamp in
    if leb first.timestamp signal.timestamp
    then 0
    else if leb gap 60000
    then unit
    else if leb gap 180000
    then 7000
    else if leb gap 300000
    then 4000
    else 0
temporal_factor _ _ = 0

-- `_conflict_source`
unfoldable pub conflict_source : Pattern → IncidentAnalysisBundle → Option CanonicalEvent
unfolding intersects pattern_observations
conflict_source p bundle =
    if intersects p.absent_anomaly_types
      (map (λ (a : AnomalyRecord). a.anomaly_type) bundle.anomalies)
    then none
    else head? (pattern_observations bundle p)

-- the patterns of the entry that have a source, with it
unfoldable pub matched_conflicts :
    IncidentAnalysisBundle → List ConflictPattern → List (ConflictPattern × CanonicalEvent)
unfolding conflict_source
matched_conflicts bundle [] = []
matched_conflicts bundle (c ∷ patterns) =
    let rest = matched_conflicts bundle patterns in
    elim (conflict_source c.matches bundle) [ none ↦ rest | some e ↦ (c, e) ∷ rest ]

abbrev pub quarter : Bool → ℕ
quarter true = 2500
quarter false = 0

abbrev pub is_text_in : List String → Option Value → Bool
unfolding contains
is_text_in accepted (some (text s)) = contains accepted s
is_text_in accepted _ = false

-- `_change_causal_fit`: a quarter for each check that holds
unfoldable pub change_causal_fit :
    (Value → String)
    → HypothesisDefinition
    → String
    → IncidentAnalysisBundle
    → List String
    → List (ConflictPattern × CanonicalEvent)
    → ℕ
unfolding payload_get
change_causal_fit py_str entry id bundle topology_path conflicts =
    if not entry.change_based then 0 else elim (candidate_signal py_str entry id bundle) [
      | none ↦ 0
      | some change ↦
          quarter (elim (first_symptom_event bundle) [
            | none ↦ false
            | some first ↦ ltb change.timestamp first.timestamp
          ])
          + quarter (
              contains (if is_empty topology_path then id ∷ [] else topology_path)
                (target_entity py_str change))
          + quarter
              (is_text_in entry.plausible_change_keys (payload_get "config_key" change.raw_payload))
          + quarter (is_empty conflicts)
    ]

-- `_historical_factor`
unfoldable pub historical_factor : HypothesisDefinition → IncidentAnalysisBundle → ℕ
historical_factor entry bundle = max_of (
    map (λ (m : HistoricalMatch). m.similarity)
      (keep (λ (m : HistoricalMatch). m.confirmed_cause == entry.hypothesis_type)
        bundle.historical_matches))

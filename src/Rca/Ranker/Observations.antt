-- ===== src/Rca/Ranker/Observations.antt =====
-- The observations of backend/app/rca/ranker.py: patterns on events, and mentions of an entity.
use network_anomaly_root_cau.Prelude.{
  ℕ, String, ◌==◌, Bool, true, false, not, ◌&&◌, ◌||◌, Option, none, some, List, [], keep, any,
  contains, sort_by, if◌then◌else◌,
}
use network_anomaly_root_cau.Prelude.Int.{ℤ, ltb_ℤ}
use network_anomaly_root_cau.Contracts.{
  Value, null, flag, num, text, arr, obj, Items, nil, cons, Fields, end, field, CanonicalEvent,
  is_modality, log, alert, unit,
}
use network_anomaly_root_cau.Rca.Contracts.{IncidentAnalysisBundle}
use network_anomaly_root_cau.Rca.Catalogue.{Pattern}
use network_anomaly_root_cau.Rca.Events.{event_le, payload_get, index_events}
use network_anomaly_root_cau.Rca.Generator.{values, anomaly_events}

-- `_event_map`
abbrev pub event_map : IncidentAnalysisBundle → List (String × CanonicalEvent)
event_map bundle = index_events [] bundle.attached_events

-- `raw_payload.get(key) is True`
abbrev pub is_true : Option Value → Bool
is_true (some (flag b)) = b
is_true _ = false

-- the bounds on the signal value: a missing value passes only where no bound is declared
abbrev pub in_bounds : Pattern → Option ℤ → Bool
in_bounds p value =
    elim p.signal_value_gte [
      | none ↦ true
      | some low ↦ elim value [ none ↦ false | some v ↦ not (ltb_ℤ v low) ]
    ]
    && elim p.signal_value_lte [
      | none ↦ true
      | some high ↦ elim value [ none ↦ false | some v ↦ not (ltb_ℤ high v) ]
    ]

unfoldable pub is_observed : Pattern → CanonicalEvent → Bool
unfolding contains payload_get
is_observed p e =
    (contains p.event_types e.event_type
      || any (λ k. is_true (payload_get k e.raw_payload)) p.raw_payload_true_keys)
    && in_bounds p e.signal_value

-- `_pattern_observations`
unfoldable pub pattern_observations : IncidentAnalysisBundle → Pattern → List CanonicalEvent
unfolding index_events anomaly_events sort_by is_observed
pattern_observations bundle p =
    let observed =
      index_events
        (index_events [] (anomaly_events p.anomaly_types (event_map bundle) bundle.anomalies))
        (keep (is_observed p) bundle.attached_events) in
    sort_by event_le (values observed)

-- `_recursive_contains`
unfoldable mutual
  pub recursive_contains : String → Value → Bool
  recursive_contains expected (text s) = s == expected
  recursive_contains expected (arr xs) = contains_items expected xs
  recursive_contains expected (obj fs) = contains_fields expected fs
  recursive_contains expected null = false
  recursive_contains expected (flag b) = false
  recursive_contains expected (num n) = false

  pub contains_items : String → Items → Bool
  contains_items expected nil = false
  contains_items expected (cons x xs) = recursive_contains expected x || contains_items expected xs

  pub contains_fields : String → Fields → Bool
  contains_fields expected end = false
  contains_fields expected (field k v fs) =
      recursive_contains expected v || contains_fields expected fs

abbrev pub mentions : String → CanonicalEvent → Bool
mentions id e = e.entity_id == id || contains_fields id e.raw_payload

-- `_direct_log_alert_factor`
unfoldable pub direct_log_alert_factor : IncidentAnalysisBundle → String → ℕ
unfolding contains_fields
direct_log_alert_factor bundle id =
    let logs =
      any (λ (e : CanonicalEvent). is_modality e.modality log && mentions id e)
        bundle.attached_events in
    let alerts =
      any (λ (e : CanonicalEvent). is_modality e.modality alert && mentions id e)
        bundle.attached_events in
    if logs && alerts then unit else if logs || alerts then 6000 else 0

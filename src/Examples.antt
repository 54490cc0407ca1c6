-- ===== src/Examples.antt =====
-- An incident of three entities, a catalogue of two hypotheses and a table of reviews, on which the
-- definitions are run.
mod Batches
mod Explanations
mod Incidents
mod Publications
mod Records
mod Runs
mod Submissions
use network_anomaly_root_cau.Prelude.{
  ℕ, String, ◌==◌, Bool, true, false, Option, none, some, List, [], ◌∷◌, ◌≡◌, refl, Memᴰ, length,
  is_unique, is_some, Perm, map, ◌≤◌, arith, keys, lookup,
}
use network_anomaly_root_cau.Prelude.Int.{pos}
use network_anomaly_root_cau.Prelude.Result.{Result, ok, err}
use network_anomaly_root_cau.Contracts.{
  Value, Fields, text, flag, end, field, metric, log, config_change, CanonicalEvent, AnomalyRecord,
  depends_on, sends_traffic_to,
}
use network_anomaly_root_cau.Rca.Contracts.{
  IncidentStatus, IncidentSnapshot, RcaTopologyNode, RcaTopologyEdge, RcaTopologySnapshot,
  HistoricalMatch, IncidentAnalysisBundle, HypothesisCandidate,
}
use network_anomaly_root_cau.Rca.Traversal.{
  TraversalPolicy, Direction, forward, path, typed_path_exists, found,
}
use network_anomaly_root_cau.Rca.Catalogue.{
  changed_entity, primary_entity, GenerationRule, Pattern, capped, ConflictPattern,
  HypothesisDefinition, HypothesisCatalogue, types_of,
}
use network_anomaly_root_cau.Rca.Generator.{generate}
use network_anomaly_root_cau.Rca.Ranker.Score.{AppliedConflict}
use network_anomaly_root_cau.Rca.Ranker.Coverage.{PyText}
use network_anomaly_root_cau.Rca.Ranker.Candidate.{CandidateScore, score_candidate, rank}
use network_anomaly_root_cau.Rca.Engine.{analyse}

abbrev pub py : PyText
py = record { py_str = λ v. ""; lower = λ s. s; dumps = λ v. "" }

abbrev pub topology : RcaTopologySnapshot
topology = record {
  nodes =
      record { entity_id = "gateway"; entity_type = "service" }
      ∷ record { entity_id = "orders"; entity_type = "service" }
      ∷ record { entity_id = "store"; entity_type = "database" }
      ∷ [];
  edges =
      record { source = "gateway"; target = "orders"; relation_type = sends_traffic_to }
      ∷ record { source = "gateway"; target = "orders"; relation_type = depends_on }
      ∷ record { source = "orders"; target = "store"; relation_type = depends_on }
      ∷ [];
}

abbrev pub change : CanonicalEvent
change = record {
  event_id = "e1";
  timestamp = 60000;
  ingested_at = 130000;
  entity_id = "gateway";
  modality = config_change;
  event_type = "config_updated";
  severity = 5000;
  signal_name = none;
  signal_value = none;
  unit = none;
  trace_or_session_id = none;
  source = "prometheus";
  source_record_id = none;
  schema_version = "1.0";
  quality_flags = [];
  raw_payload = field "timeout" (text "1s") end;
}

abbrev pub slow : CanonicalEvent
slow = record {
  event_id = "e2";
  timestamp = 120000;
  ingested_at = 130000;
  entity_id = "orders";
  modality = metric;
  event_type = "latency_sample";
  severity = 5000;
  signal_name = some "latency";
  signal_value = some (pos 9000000);
  unit = none;
  trace_or_session_id = none;
  source = "prometheus";
  source_record_id = none;
  schema_version = "1.0";
  quality_flags = [];
  raw_payload = end;
}

abbrev pub bundle : IncidentAnalysisBundle
bundle = record {
  incident = record {
    incident_id = "i1";
    status = IncidentStatus.opened;
    primary_entity_id = "orders";
    affected_entity_ids = "orders" ∷ [];
  };
  attached_events = change ∷ slow ∷ [];
  anomalies =
      record {
        anomaly_id = "a1";
        event_id = "e2";
        anomaly_type = "latency_spike";
        score = 9000;
        context_only = false;
        can_open_incident = true;
      }
      ∷ [];
  excluded_evaluations = [];
  topology = topology;
  historical_matches =
      record { historical_incident_id = "h1"; confirmed_cause = "bad_config"; similarity = 8000 }
      ∷ [];
}

abbrev pub no_pattern : Pattern
no_pattern = record {
  anomaly_types = [];
  event_types = [];
  raw_payload_true_keys = [];
  signal_value_gte = none;
  signal_value_lte = none;
  absent_anomaly_types = [];
}

abbrev pub slow_pattern : Pattern
slow_pattern = record no_pattern { anomaly_types = "latency_spike" ∷ [] }

abbrev pub slow_conflict : ConflictPattern
slow_conflict = record {
  pattern_id = "slow_already";
  factor = "temporal_proximity";
  operation = capped;
  value = 5000;
  matches = slow_pattern;
  statement = "slow before the change";
}

abbrev pub bad_config : HypothesisDefinition
bad_config = record {
  hypothesis_type = "bad_config";
  entity_types = "service" ∷ [];
  traversal = record {
    relation_type = sends_traffic_to;
    direction = Direction.reverse;
    max_hops = 2;
  };
  generation = record {
    candidate_selector = changed_entity;
    requires_recent_change = true;
    any_anomaly_types = "latency_spike" ∷ [];
    any_log_event_types = [];
    any_event_types = [];
  };
  change_based = true;
  plausible_change_keys = "timeout" ∷ [];
  topology_origin_event_types = "latency_sample" ∷ [];
  metric_anomaly_types = "latency_spike" ∷ [];
  required_symptoms = "slow" ∷ [];
  expected_propagation = "slow" ∷ [];
  expected_evidence = ("change", "a change") ∷ [];
  conflict_patterns = slow_conflict ∷ [];
  summary = "a bad configuration";
}

abbrev pub overload : HypothesisDefinition
overload = record bad_config {
  hypothesis_type = "overload";
  generation = record {
    candidate_selector = primary_entity;
    requires_recent_change = false;
    any_anomaly_types = "latency_spike" ∷ [];
    any_log_event_types = [];
    any_event_types = [];
  };
  change_based = false;
  conflict_patterns = [];
  summary = "too much load";
}

abbrev pub catalogue : HypothesisCatalogue
catalogue = record {
  schema_version = "1.0";
  symptoms = ("slow", slow_pattern) ∷ [];
  propagation = ("slow", slow_pattern) ∷ [];
  hypotheses = bad_config ∷ overload ∷ [];
}

abbrev pub bad_candidate : HypothesisCandidate
bad_candidate = record {
  candidate_id = "candidate_001";
  hypothesis_type = "bad_config";
  candidate_entity_id = "gateway";
  generation_reason_codes =
      "CHANGED_ENTITY_SELECTED" ∷ "TOPOLOGY_ENTITY_TYPE_MATCH" ∷ "ANOMALY_TYPE_MATCH"
      ∷ "RECENT_CHANGE_MATCH" ∷ "TYPED_TOPOLOGY_LOCATION_MATCH" ∷ [];
}

abbrev pub overload_candidate : HypothesisCandidate
overload_candidate = record {
  candidate_id = "candidate_002";
  hypothesis_type = "overload";
  candidate_entity_id = "orders";
  generation_reason_codes =
      "PRIMARY_ENTITY_SELECTED" ∷ "TOPOLOGY_ENTITY_TYPE_MATCH" ∷ "ANOMALY_TYPE_MATCH"
      ∷ "TYPED_TOPOLOGY_LOCATION_MATCH" ∷ [];
}

abbrev pub base : List (String × ℕ)
base =
    ("symptom_compatibility", 10000)
    ∷ ("topology_relevance", 8000)
    ∷ ("direct_logs_alerts", 0)
    ∷ ("propagation_consistency", 10000)
    ∷ ("metric_anomaly", 0)
    ∷ ("change_causal_fit", 5000)
    ∷ ("temporal_proximity", 10000)
    ∷ ("historical_similarity", 8000)
    ∷ []

abbrev pub lowered : List (String × ℕ)
lowered =
    ("symptom_compatibility", 10000)
    ∷ ("topology_relevance", 8000)
    ∷ ("direct_logs_alerts", 0)
    ∷ ("propagation_consistency", 10000)
    ∷ ("metric_anomaly", 0)
    ∷ ("change_causal_fit", 5000)
    ∷ ("temporal_proximity", 5000)
    ∷ ("historical_similarity", 8000)
    ∷ []

abbrev pub applied : List AppliedConflict
applied =
    record {
      pattern_id = "slow_already";
      factor = "temporal_proximity";
      operation = capped;
      value = 5000;
      source_event_id = "e2";
      statement = "slow before the change";
      relevance = 9500;
    }
    ∷ []

abbrev pub bad_score : CandidateScore
bad_score = record {
  candidate = bad_candidate;
  factor_scores = lowered;
  evidence_score = 641;
  evidence_coverage = record { available = 0; expected = 1 };
  conflicts = applied;
  topology_origin = some "orders";
  topology_path = "orders" ∷ "gateway" ∷ [];
}

abbrev pub overload_score : CandidateScore
overload_score = record {
  candidate = overload_candidate;
  factor_scores =
      ("symptom_compatibility", 10000)
      ∷ ("topology_relevance", 10000)
      ∷ ("direct_logs_alerts", 0)
      ∷ ("propagation_consistency", 10000)
      ∷ ("metric_anomaly", 9000)
      ∷ ("change_causal_fit", 0)
      ∷ ("temporal_proximity", 0)
      ∷ ("historical_similarity", 0)
      ∷ [];
  evidence_score = 690;
  evidence_coverage = record { available = 0; expected = 1 };
  conflicts = [];
  topology_origin = some "orders";
  topology_path = "orders" ∷ [];
}

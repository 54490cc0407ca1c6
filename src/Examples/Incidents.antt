-- ===== src/Examples/Incidents.antt =====
-- A run of the incident manager that attaches an event to an open incident, and the results applied
-- to it.
use network_anomaly_root_cau.Prelude.{
  ℕ, String, ◌==◌, true, false, none, some, [], ◌∷◌, ◌≡◌, refl, ap, contains, dedup, sort_by,
  insert_by, if◌then◌else◌,
}
use network_anomaly_root_cau.Prelude.Int.{pos, negsuc, leb_ℤ, ◌+ℤ◌}
use network_anomaly_root_cau.Prelude.Result.{Result, ok, err}
use network_anomaly_root_cau.Contracts.{end}
use network_anomaly_root_cau.Db.Tables.{
  Event, Anomaly, Incident, IncidentEventEvaluation, Store, validate_scope,
}
use network_anomaly_root_cau.Db.Repositories.{append_audit, update_incident}
use network_anomaly_root_cau.Incidents.Symptoms.{SymptomCatalogue}
use network_anomaly_root_cau.Incidents.Scoring.{
  Settings, IncidentAttachmentContext, AttachmentEvaluation, traffic_distance, draft_of, evaluate,
  score_attachment,
}
use network_anomaly_root_cau.Incidents.Scoring.Bounds.{
  IsAttachable, score_attachment-IsAttachable, score_attachment-bounds,
}
use network_anomaly_root_cau.Incidents.Tables.{
  list_open, get_events_by_ids, attach_event, update_started_at_if_earlier, update_last_event_at,
  add_anomaly_count, add_affected_entity, update_severity, round_2,
}
use network_anomaly_root_cau.Incidents.Manager.{
  Manager, evaluation_row, attachment_row, evaluation_entry, update_actionable, update_attached,
  attach, log_evaluation, persist_new, persist_evaluation, context_for_incident,
}
use network_anomaly_root_cau.Incidents.Process.{
  demote, score_open, persist_selected, process_anomalies,
}
use network_anomaly_root_cau.Incidents.Decisions.{Decided, process_anomalies-Decided}

abbrev settings : Settings
settings = record {
  incident_open_threshold = 7500;
  incident_lookback_seconds = 300;
  incident_idle_window_seconds = 300;
  incident_max_topology_hops = 2;
  incident_attachment_threshold = 4000;
}

abbrev hops : String → String → Result ℕ
hops source target = if source == "gateway" then ok 1 else err "NO_PATH"

abbrev catalogue : SymptomCatalogue
catalogue = record {
  families =
      ("latency", record { event_types = "SLOW" ∷ []; incident_title = some "Slow service" }) ∷ [];
  incompatibilities = [];
  attachment_rules = [];
}

abbrev pub manager : Manager
manager = record {
  settings = settings;
  topology_distance = hops;
  catalogue = catalogue;
  affecting = λ name. name;
  pipeline_request = λ id. id;
  incident_id = "inc_2";
}

abbrev pub first : Event
first = record {
  id = "e_1";
  timestamp = 1000000;
  ingested_at = 1000001;
  entity_id = "gateway";
  modality = "metric";
  event_type = "SLOW";
  severity = 9000;
  signal_name = none;
  signal_value = none;
  unit = none;
  trace_or_session_id = some "t_1";
  source = "prometheus";
  source_record_id = none;
  schema_version = "1.0";
  quality_flags = [];
  raw_payload = end;
  status = "accepted";
}

abbrev pub second : Event
second = record first { id = "e_2"; timestamp = 1030000; entity_id = "orders" }

abbrev pub anomaly : Anomaly
anomaly = record {
  id = "a_2";
  event_id = "e_2";
  detector_id = "ewma";
  anomaly_type = "metric";
  score = 9123;
  context_only = false;
  can_open_incident = true;
}

abbrev evaluated : IncidentEventEvaluation
evaluated = record {
  incident_id = "inc_1";
  event_id = "e_1";
  decision = "attached";
  attachment_score = pos 7000;
  attachment_reasons = "SAME_ENTITY" ∷ [];
}

abbrev incident : Incident
incident = record {
  id = "inc_1";
  title = "Slow service";
  status = "open";
  severity = 8000;
  started_at = 1000000;
  last_event_at = 1000000;
  primary_entity_id = "gateway";
  affected_entity_ids = "gateway" ∷ [];
  anomaly_count = 1;
  current_analysis_run_id = none;
  top_hypothesis_id = none;
  confirmed_hypothesis_id = none;
}

abbrev pub store : Store
store = record {
  entities =
      record { id = "gateway"; name = "Gateway" } ∷ record { id = "orders"; name = "Orders" } ∷ [];
  events = second ∷ first ∷ [];
  quarantined_events = [];
  collapsed_event_groups = [];
  anomalies = anomaly ∷ [];
  incident_events = attachment_row evaluated ∷ [];
  evaluations = evaluated ∷ [];
  incidents = incident ∷ [];
  runs = [];
  hypotheses = [];
  evidence = [];
  recommendations = [];
  explanations = [];
  reviews = [];
  audit_logs = [];
}

abbrev evaluation : AttachmentEvaluation
evaluation = record {
  decision = "attached";
  score = pos 10000;
  reasons = "ONE_TRAFFIC_HOP" ∷ "SHARED_SCENARIO_TRACE" ∷ "COMPATIBLE_SYMPTOM" ∷ [];
  has_strong_relationship = true;
  matched_evidence_rule_ids = [];
}

abbrev context : IncidentAttachmentContext
context = record {
  symptom_family = some "latency";
  trace_or_session_id = some "t_1";
  opening_symptom_at = 1000000;
}

abbrev after : Store
after = record store {
  incident_events =
      attachment_row (evaluation_row "inc_1" "e_2" evaluation) ∷ attachment_row evaluated ∷ [];
  evaluations = evaluation_row "inc_1" "e_2" evaluation ∷ evaluated ∷ [];
  incidents =
      record incident {
        severity = 9100;
        last_event_at = 1030000;
        affected_entity_ids = "gateway" ∷ "orders" ∷ [];
        anomaly_count = 2;
      }
      ∷ [];
  audit_logs = evaluation_entry manager "inc_1" second evaluation ∷ [];
}

-- one hop, the same trace, a compatible symptom and 30 seconds
score_run :
    score_attachment settings hops catalogue incident second (anomaly ∷ []) context false
    ≡ evaluation
unfolding score_attachment evaluate draft_of traffic_distance dedup contains ◌+ℤ◌
score_run = refl

process_run : process_anomalies manager (anomaly ∷ []) second store ≡ ok (some "inc_1", after)
unfolding process_anomalies persist_selected demote score_open context_for_incident list_open
    get_events_by_ids persist_evaluation persist_new attach attach_event update_attached
    update_started_at_if_earlier update_last_event_at update_actionable add_anomaly_count
    add_affected_entity update_severity round_2 update_incident log_evaluation append_audit
    validate_scope score_attachment evaluate draft_of traffic_distance dedup contains ◌+ℤ◌ sort_by
    insert_by
process_run = refl

process_anomalies-Decided_example : Decided manager second (some "inc_1") store after
process_anomalies-Decided_example =
    process_anomalies-Decided manager (anomaly ∷ []) second store after (some "inc_1") process_run

score_attachment-IsAttachable_example :
    IsAttachable settings hops incident second catalogue context
      (anomaly ∷ [])
      false
      (score_attachment settings hops catalogue incident second (anomaly ∷ []) context false).score
score_attachment-IsAttachable_example =
    score_attachment-IsAttachable settings hops incident second catalogue context (anomaly ∷ [])
      false (ap (λ (v : AttachmentEvaluation). v.decision) score_run)

score_attachment-bounds_example :
    (leb_ℤ
        (negsuc 9999)
        (score_attachment settings hops catalogue incident second
          (anomaly ∷ [])
          context
          false).score
      ≡ true)
    × (leb_ℤ
          (score_attachment settings hops catalogue incident second
            (anomaly ∷ [])
            context
            false).score
          (pos 10000)
        ≡ true)
score_attachment-bounds_example =
    score_attachment-bounds settings hops incident second catalogue context (anomaly ∷ []) false

-- ===== src/Examples/Publications.antt =====
-- Runs of the orchestrator on one incident, and the results applied to them.
use network_anomaly_root_cau.Prelude.{
  false, true, none, some, [], ◌∷◌, ◌≡◌, refl, contains, is_unique, sort_by, insert_by,
}
use network_anomaly_root_cau.Prelude.Int.{pos}
use network_anomaly_root_cau.Prelude.Result.{ok, err}
use network_anomaly_root_cau.Contracts.{end}
use network_anomaly_root_cau.Rca.Contracts.{suspected_root}
use network_anomaly_root_cau.Db.Tables.{
  Event, Incident, AnalysisRun, Hypothesis, Evidence, Store, validate_scope,
}
use network_anomaly_root_cau.Db.Repositories.{append_audit, update_incident}
use network_anomaly_root_cau.Incidents.Tables.{get_events_by_ids}
use network_anomaly_root_cau.Orchestration.Runs.{
  create_run, update_run, supersede, mark_current, mark_failed, get_current_for_incident,
  fingerprint_exists_as_current, set_current_analysis_run, persist_hypothesis, persist_evidence,
  add_recommendation, add_explanation, as_current, with_current_run,
}
use network_anomaly_root_cau.Orchestration.Fingerprint.{compute_fingerprint, fingerprint_of}
use network_anomaly_root_cau.Orchestration.Validation.{
  ExplanationDraft, AnalysisResult, is_consecutive, check_nodes, check_edges, check_paths,
  check_hypotheses, check_evidence, check_recommendations, check_rows, check_codes,
  validate_analysis_result, check_drafts, validate_explanation_rows,
}
use network_anomaly_root_cau.Orchestration.Publish.{
  Orchestrator, returned, failed, with_runs, with_result, explanation_row, insert_hypotheses,
  insert_evidence, insert_recommendations, insert_explanations, log_fallback, top_hypothesis,
  insert_result, insert_optional, supersede_prior, published_entry, swap, atomic_publish, analysed,
  persist_failed_run, fail, publish_or_fail, start_run, run_rca_and_publish,
}
use network_anomaly_root_cau.Orchestration.Published.{
  IsPublished, building, run_rca_and_publish-IsPublished,
}
use network_anomaly_root_cau.Orchestration.Published.{fingerprint}
use network_anomaly_root_cau.Orchestration.Retry.{run_rca_and_publish-again}
use network_anomaly_root_cau.Orchestration.Revisions.{Ended, run_rca_and_publish-Ended}
use network_anomaly_root_cau.Orchestration.Failure.{
  attempt, with_failure, run_rca_and_publish-failed,
}

abbrev event : Event
event = record {
  id = "e_1";
  timestamp = 1000;
  ingested_at = 1001;
  entity_id = "gateway";
  modality = "metric";
  event_type = "SLOW";
  severity = 9000;
  signal_name = some "latency";
  signal_value = some (pos 5);
  unit = none;
  trace_or_session_id = none;
  source = "prometheus";
  source_record_id = none;
  schema_version = "1.0";
  quality_flags = [];
  raw_payload = end;
  status = "accepted";
}

abbrev incident : Incident
incident = record {
  id = "inc_1";
  title = "Slow service";
  status = "open";
  severity = 9000;
  started_at = 1000;
  last_event_at = 1000;
  primary_entity_id = "gateway";
  affected_entity_ids = "gateway" ∷ [];
  anomaly_count = 1;
  current_analysis_run_id = some "run_0";
  top_hypothesis_id = none;
  confirmed_hypothesis_id = none;
}

abbrev prior : AnalysisRun
prior = record {
  id = "run_0";
  incident_id = "inc_1";
  revision = 1;
  status = "current";
  trigger_event_id = none;
  input_fingerprint = "sha256:0";
  algorithm_version = "rca-rules-1.1";
  created_at = 3;
  completed_at = some 4;
  failure_reason = none;
  topology_states = record { nodes = []; edges = [] };
  typed_paths = [];
  conflict_reason_codes = [];
  evidence_requirements = [];
  topology_snapshot = end;
}

abbrev store : Store
store = record {
  entities = record { id = "gateway"; name = "Gateway" } ∷ [];
  events = event ∷ [];
  quarantined_events = [];
  collapsed_event_groups = [];
  anomalies = [];
  incident_events =
      record {
        incident_id = "inc_1";
        event_id = "e_1";
        attachment_score = pos 7000;
        attachment_reasons = [];
      }
      ∷ [];
  evaluations = [];
  incidents = incident ∷ [];
  runs = prior ∷ [];
  hypotheses = [];
  evidence = [];
  recommendations = [];
  explanations = [];
  reviews = [];
  audit_logs = [];
}

abbrev hypothesis : Hypothesis
hypothesis = record {
  id = "hyp_1";
  analysis_run_id = "run_1";
  incident_id = "inc_1";
  type = "gateway_capacity_saturation";
  candidate_entity_id = "gateway";
  rank = 1;
  evidence_score = 870;
}

abbrev observed : Evidence
observed = record {
  id = "ev_1";
  analysis_run_id = "run_1";
  incident_id = "inc_1";
  hypothesis_id = "hyp_1";
  kind = "observed";
  source_event_id = some "e_1";
  relevance = 9000;
  reason_code = "SLOW";
}

abbrev draft : ExplanationDraft
draft = record {
  output = record {
    analysis_run_id = "run_1";
    incident_id = "inc_1";
    hypothesis_id = "hyp_1";
    generator = "template";
    summary = "The probable root cause is gateway capacity saturation affecting gateway.";
    claims = [];
    diagnostic_step_ids = [];
    remediation_step_ids = [];
  };
  validated = true;
}

abbrev result : AnalysisResult
result = record {
  hypotheses = hypothesis ∷ [];
  evidence_rows = observed ∷ [];
  recommendation_rows = [];
  explanation_rows = draft ∷ [];
  explanation_fallback_reason = none;
  explanation_fallback_attempt_count = 0;
  topology_states = record {
    nodes = record { entity_id = "gateway"; state = suspected_root } ∷ [];
    edges = [];
  };
  typed_paths = ("impact", "gateway" ∷ []) ∷ [];
  conflict_reason_codes = [];
  evidence_requirements = ("hyp_1", "latency" ∷ []) ∷ [];
  topology_snapshot = end;
}

abbrev pub orchestrator : Orchestrator
orchestrator = record {
  analysis_engine = some (λ i s id. ok result);
  known = record { node_ids = "gateway" ∷ []; edges = []; conflict_codes = [] };
  hashing = record {
    sha256 = λ texts. "hash";
    sha256_json = λ input. "sha256:1";
    instant_text = λ t. "t";
    ratio_text = λ x. "x";
    value_text = λ x. "v";
    payload_text = λ x. "p";
    topology_version = "1";
    catalogue_versions = [];
  };
  commit = λ new. none;
  now = 9;
  run_id = "run_1";
  explanation_id = λ n. "exp_1";
  analysis_request = λ id. id;
  failure_reason = λ message. message;
  sanitized_reason = λ message. message;
}

abbrev broken : Orchestrator
broken = record orchestrator { analysis_engine = some (λ i s id. err "boom") }

abbrev run : AnalysisRun
run = building orchestrator store incident (some "e_1")

abbrev after : Store
after = record store {
  incidents = with_current_run "run_1" (some "hyp_1") incident ∷ [];
  runs =
      as_current 9 (with_result orchestrator result run)
      ∷ record prior { status = "superseded" }
      ∷ [];
  hypotheses = hypothesis ∷ [];
  evidence = observed ∷ [];
  explanations = explanation_row orchestrator run 0 draft ∷ [];
  audit_logs = published_entry orchestrator run (some "run_0") ∷ [];
}

-- the second revision is published, and the first superseded
publish_run : run_rca_and_publish orchestrator incident (some "e_1") store ≡ returned "run_1" after
unfolding run_rca_and_publish start_run publish_or_fail analysed atomic_publish insert_optional
    insert_result validate_analysis_result check_rows check_hypotheses check_evidence
    check_recommendations check_codes check_nodes check_edges check_paths is_consecutive
    validate_explanation_rows check_drafts insert_hypotheses persist_hypothesis insert_evidence
    persist_evidence insert_recommendations add_recommendation insert_explanations add_explanation
    log_fallback top_hypothesis swap supersede_prior supersede mark_current update_run
    set_current_analysis_run update_incident append_audit validate_scope create_run
    fingerprint_exists_as_current get_current_for_incident fingerprint_of compute_fingerprint
    get_events_by_ids contains is_unique sort_by insert_by
publish_run = refl

-- an engine that raises leaves a failed run
failed_run :
    run_rca_and_publish broken incident (some "e_1") store
    ≡ failed "boom" (with_failure broken (building broken store incident (some "e_1")) "boom" store)
unfolding run_rca_and_publish start_run publish_or_fail analysed fail persist_failed_run mark_failed
    update_run append_audit validate_scope create_run fingerprint_exists_as_current
    get_current_for_incident fingerprint_of compute_fingerprint get_events_by_ids contains sort_by
    insert_by
failed_run = refl

run_rca_and_publish-IsPublished_example :
    IsPublished orchestrator incident (some "e_1") store after "run_1"
run_rca_and_publish-IsPublished_example =
    run_rca_and_publish-IsPublished orchestrator incident (some "e_1") store after "run_1"
      publish_run

run_rca_and_publish-again_example :
    run_rca_and_publish broken (with_current_run "run_1" (some "hyp_1") incident) none after
    ≡ returned "run_1" after
run_rca_and_publish-again_example =
    run_rca_and_publish-again orchestrator incident (some "e_1") store after "run_1" broken none
      (with_current_run "run_1" (some "hyp_1") incident) refl refl publish_run refl

run_rca_and_publish-failed_example :
    (attempt broken
        (building broken store incident (some "e_1"))
        incident
        (with_runs broken (building broken store incident (some "e_1") ∷ store.runs) store)
      ≡ err "boom")
    × (with_failure broken (building broken store incident (some "e_1")) "boom" store
        ≡ with_failure broken (building broken store incident (some "e_1")) "boom" store)
run_rca_and_publish-failed_example =
    run_rca_and_publish-failed broken incident (some "e_1") store
      (with_failure broken (building broken store incident (some "e_1")) "boom" store) "boom"
      failed_run

-- the current run has another fingerprint
fingerprint_run :
    fingerprint_exists_as_current store.runs "inc_1" (fingerprint broken store incident) ≡ ok false
unfolding fingerprint_exists_as_current get_current_for_incident fingerprint_of compute_fingerprint
    get_events_by_ids contains sort_by insert_by
fingerprint_run = refl

run_rca_and_publish-Ended_example :
    Ended broken
      (building broken store incident (some "e_1"))
      store
      (run_rca_and_publish broken incident (some "e_1") store)
run_rca_and_publish-Ended_example =
    run_rca_and_publish-Ended broken incident (some "e_1") store false refl refl refl refl refl
      fingerprint_run

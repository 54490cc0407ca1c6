-- ===== src/Examples/Submissions.antt =====
-- Runs of the review service on a small store, and the results applied to it.
use network_anomaly_root_cau.Prelude.{
  true, none, some, [], ◌∷◌, ◌≡◌, refl, contains, sort_by, insert_by,
}
use network_anomaly_root_cau.Prelude.Result.{ok}
use network_anomaly_root_cau.Contracts.{end}
use network_anomaly_root_cau.Db.Tables.{
  Incident, AnalysisRun, Hypothesis, Review, ReviewRequest, rejected, Store, validate_scope,
}
use network_anomaly_root_cau.Db.Repositories.{
  incident_by_id, get_by_client_action, get_terminal_for_hypothesis, get_evidence_request_for_item,
  get_missing_by_id_for_run, list_for_run, persist_idempotent, append_audit, update_incident,
  update_status, set_confirmed_hypothesis,
}
use network_anomaly_root_cau.Reviews.Service.{
  Ambient, new_row, review_entry, status_entry, check_evidence, check_terminal, check_decision,
  check_hypothesis, check_run, check_target, checked, all_rejected, close_incident, log_status,
  with_review, after_insert, record_review, conclude, submit,
}
use network_anomaly_root_cau.Reviews.Unique.{is_consistent, submit-is_consistent, submit-submit}
use network_anomaly_root_cau.Reviews.Lifecycle.{submit-closed}
use network_anomaly_root_cau.Reviews.Transition.{Becomes, submit-Becomes}

abbrev ambient : Ambient
ambient = record { review_request_id = λ i a. i; now = 7; review_id = "rev_1" }

abbrev next : Ambient
next = record { review_request_id = λ i a. i; now = 9; review_id = "rev_2" }

abbrev run : AnalysisRun
run = record {
  id = "run_1";
  incident_id = "inc_1";
  revision = 1;
  status = "current";
  trigger_event_id = none;
  input_fingerprint = "sha256:1";
  algorithm_version = "rca-rules-1.1";
  created_at = 3;
  completed_at = some 4;
  failure_reason = none;
  topology_states = record { nodes = []; edges = [] };
  typed_paths = [];
  conflict_reason_codes = [];
  evidence_requirements = [];
  topology_snapshot = end;
}

abbrev guess : Hypothesis
guess = record {
  id = "hyp_1";
  analysis_run_id = "run_1";
  incident_id = "inc_1";
  type = "dns";
  candidate_entity_id = "orders";
  rank = 1;
  evidence_score = 800;
}

abbrev open_incident : Incident
open_incident = record {
  id = "inc_1";
  title = "slow orders";
  status = "investigating";
  severity = 9000;
  started_at = 1000;
  last_event_at = 2000;
  primary_entity_id = "orders";
  affected_entity_ids = "orders" ∷ [];
  anomaly_count = 1;
  current_analysis_run_id = some "run_1";
  top_hypothesis_id = some "hyp_1";
  confirmed_hypothesis_id = none;
}

abbrev closed : Incident
closed = record open_incident { id = "inc_0"; status = "resolved"; current_analysis_run_id = none }

abbrev store : Store
store = record {
  entities = [];
  events = [];
  quarantined_events = [];
  collapsed_event_groups = [];
  anomalies = [];
  incident_events = [];
  evaluations = [];
  incidents = open_incident ∷ closed ∷ [];
  runs = run ∷ [];
  hypotheses = guess ∷ [];
  evidence = [];
  recommendations = [];
  explanations = [];
  reviews = [];
  audit_logs = [];
}

abbrev rejection : ReviewRequest
rejection = record {
  analysis_run_id = "run_1";
  hypothesis_id = "hyp_1";
  decision = rejected;
  client_action_id = "click_1";
  requested_evidence_id = none;
  reviewer = "ann";
  comment = "";
}

abbrev row : Review
row = new_row ambient "inc_1" rejection run guess

abbrev after : Store
after = record store {
  incidents = record open_incident { status = "rejected" } ∷ closed ∷ [];
  reviews = row ∷ [];
  audit_logs =
      status_entry ambient rejection run row "investigating" "rejected"
      ∷ review_entry ambient rejection run row
      ∷ [];
}

-- the last open hypothesis of the run is rejected, and the incident with it
submit_run : submit ambient store "inc_1" rejection ≡ ok (row, after)
unfolding submit conclude record_review after_insert with_review log_status close_incident
    all_rejected checked check_target check_run check_hypothesis check_decision check_terminal
    check_evidence set_confirmed_hypothesis update_status update_incident append_audit
    persist_idempotent list_for_run get_missing_by_id_for_run get_evidence_request_for_item
    get_terminal_for_hypothesis get_by_client_action validate_scope contains sort_by insert_by
submit_run = refl

submit-is_consistent_example : is_consistent after.reviews ≡ true
submit-is_consistent_example =
    submit-is_consistent ambient store "inc_1" rejection row after refl submit_run

submit-submit_example : submit next after "inc_1" rejection ≡ ok (row, after)
submit-submit_example = submit-submit ambient store "inc_1" rejection row after next submit_run

submit-closed_example : incident_by_id after.incidents "inc_0" ≡ some closed
submit-closed_example =
    submit-closed ambient store "inc_1" rejection row after "inc_0" closed refl refl submit_run

submit-Becomes_example :
    Becomes rejection store.hypotheses after.reviews after.incidents "inc_1" open_incident
submit-Becomes_example =
    submit-Becomes ambient store "inc_1" rejection row after open_incident refl submit_run

-- ===== src/Db/Tables.antt =====
-- The rows of backend/app/db/models.py, the request of backend/app/contracts/reviews.py and the audit
-- entry of backend/app/audit/contracts.py. Floats between 0 and 1 are ten-thousandths, and instants
-- milliseconds, as in Contracts.
use network_anomaly_root_cau.Prelude.Int.{ℤ}
use network_anomaly_root_cau.Contracts.{Value, Fields, ExplanationOutput}
use network_anomaly_root_cau.Rca.Contracts.{TopologyStates}
use network_anomaly_root_cau.Prelude.{
  Bool, ℕ, String, ◌==◌, not, ◌&&◌, ◌||◌, Option, none, some, List, [], ◌∷◌, contains, is_some, ltb,
  any,
}
use network_anomaly_root_cau.Prelude.Result.{Result, ok, raise_if, ◌>>◌}

-- the columns of an event
pub record Event : Type 0 where
  pub id : String
  pub timestamp : ℕ
  pub ingested_at : ℕ
  pub entity_id : String
  pub modality : String
  pub event_type : String
  pub severity : ℕ
  pub signal_name : Option String
  pub signal_value : Option ℤ
  pub unit : Option String
  pub trace_or_session_id : Option String
  pub source : String
  pub source_record_id : Option String
  pub schema_version : String
  pub quality_flags : List String
  pub raw_payload : Fields
  pub status : String

pub record QuarantinedEvent : Type 0 where
  pub id : String
  pub received_at : ℕ
  pub raw_payload : Value
  pub validation_errors : List String

pub record CollapsedEventGroup : Type 0 where
  pub id : String
  pub fingerprint : String
  pub first_seen : ℕ
  pub last_seen : ℕ
  pub event_count : ℕ
  pub representative_event_id : String

pub record Anomaly : Type 0 where
  pub id : String
  pub event_id : String
  pub detector_id : String
  pub anomaly_type : String
  pub score : ℕ
  pub context_only : Bool
  pub can_open_incident : Bool

pub record Entity : Type 0 where
  pub id : String
  pub name : String

-- the status is the text of its column
pub record Incident : Type 0 where
  pub id : String
  pub title : String
  pub status : String
  pub severity : ℕ
  pub started_at : ℕ
  pub last_event_at : ℕ
  pub primary_entity_id : String
  pub affected_entity_ids : List String
  pub anomaly_count : ℕ
  pub current_analysis_run_id : Option String
  pub top_hypothesis_id : Option String
  pub confirmed_hypothesis_id : Option String

-- the score of an attachment may be negative
pub record IncidentEvent : Type 0 where
  pub incident_id : String
  pub event_id : String
  pub attachment_score : ℤ
  pub attachment_reasons : List String

pub record IncidentEventEvaluation : Type 0 where
  pub incident_id : String
  pub event_id : String
  pub decision : String
  pub attachment_score : ℤ
  pub attachment_reasons : List String

pub record AnalysisRun : Type 0 where
  pub id : String
  pub incident_id : String
  pub revision : ℕ
  pub status : String
  pub trigger_event_id : Option String
  pub input_fingerprint : String
  pub algorithm_version : String
  pub created_at : ℕ
  pub completed_at : Option ℕ
  pub failure_reason : Option String
  pub topology_states : TopologyStates
  pub typed_paths : List (String × List String)
  pub conflict_reason_codes : List String
  pub evidence_requirements : List (String × List String)
  pub topology_snapshot : Fields

pub record Hypothesis : Type 0 where
  pub id : String
  pub analysis_run_id : String
  pub incident_id : String
  pub type : String
  pub candidate_entity_id : String
  pub rank : ℕ
  pub evidence_score : ℕ

pub record Evidence : Type 0 where
  pub id : String
  pub analysis_run_id : String
  pub incident_id : String
  pub hypothesis_id : String
  pub kind : String
  pub source_event_id : Option String
  pub relevance : ℕ
  pub reason_code : String

pub record PlaybookRecommendation : Type 0 where
  pub id : String
  pub analysis_run_id : String
  pub incident_id : String
  pub hypothesis_id : String
  pub step_id : String

-- the payload is the output that was explained
pub record Explanation : Type 0 where
  pub id : String
  pub analysis_run_id : String
  pub incident_id : String
  pub generator : String
  pub validated : Bool
  pub payload : ExplanationOutput
  pub created_at : ℕ

pub record Review : Type 0 where
  pub id : String
  pub incident_id : String
  pub analysis_run_id : String
  pub hypothesis_id : String
  pub decision : String
  pub client_action_id : String
  pub requested_evidence_id : Option String
  pub reviewer : String
  pub comment : String
  pub created_at : ℕ

pub data ReviewDecision : Type 0 where
  confirmed : ReviewDecision
  rejected : ReviewDecision
  evidence_requested : ReviewDecision

-- `decision.value`
abbrev pub decision_value : ReviewDecision → String
decision_value confirmed = "confirmed"
decision_value rejected = "rejected"
decision_value evidence_requested = "evidence_requested"

pub record ReviewRequest : Type 0 where
  pub analysis_run_id : String
  pub hypothesis_id : String
  pub decision : ReviewDecision
  pub client_action_id : String
  pub requested_evidence_id : Option String
  pub reviewer : String
  pub comment : String

-- an audit entry
pub record AuditWrite : Type 0 where
  pub action : String
  pub actor_type : String
  pub actor_id : Option String
  pub object_type : String
  pub object_id : String
  pub incident_id : Option String
  pub analysis_run_id : Option String
  pub analysis_revision : Option ℕ
  pub request_id : String
  pub reason_codes : List String
  pub previous_state : Option String
  pub new_state : Option String
  pub metadata : Fields
  pub timestamp : ℕ

-- the tables, with the newest row first; a query that orders its rows sorts them
pub record Store : Type 0 where
  pub entities : List Entity
  pub events : List Event
  pub quarantined_events : List QuarantinedEvent
  pub collapsed_event_groups : List CollapsedEventGroup
  pub anomalies : List Anomaly
  pub incident_events : List IncidentEvent
  pub evaluations : List IncidentEventEvaluation
  pub incidents : List Incident
  pub runs : List AnalysisRun
  pub hypotheses : List Hypothesis
  pub evidence : List Evidence
  pub recommendations : List PlaybookRecommendation
  pub explanations : List Explanation
  pub reviews : List Review
  pub audit_logs : List AuditWrite

-- `_RUN_SCOPED` and `_INCIDENT_SCOPED`
abbrev pub run_scoped : List String
run_scoped =
    "ANALYSIS_PUBLISHED" ∷ "EXPLANATION_FALLBACK_USED" ∷ "REVIEW_CONFIRMED" ∷ "REVIEW_REJECTED"
    ∷ "REVIEW_EVIDENCE_REQUESTED" ∷ "INCIDENT_STATUS_CHANGED" ∷ []

abbrev pub incident_scoped : List String
incident_scoped =
    "INCIDENT_OPENED" ∷ "EVENT_ATTACHED" ∷ "EVENT_EXCLUDED" ∷ "PIPELINE_STAGE_FAILED" ∷ run_scoped

-- `AuditWrite.validate_scope_and_safety`, and the bounds on the fields; the test of the metadata's
-- keys is left out, since the metadata of reviews have fixed keys
unfoldable pub validate_scope : AuditWrite → Result AuditWrite
unfolding contains
validate_scope w = do
  raise_if (w.object_type == "" || w.object_id == "" || w.request_id == "") "ValidationError"
  raise_if
      (any (λ (n : ℕ). not (ltb 0 n)) (elim w.analysis_revision [ none ↦ [] | some n ↦ n ∷ [] ]))
      "ValidationError"
  raise_if (contains incident_scoped w.action && not (is_some w.incident_id))
      "incident_id is required"
  raise_if
      (contains run_scoped w.action
        && not (is_some w.analysis_run_id && is_some w.analysis_revision))
      "analysis_run_id and analysis_revision are required"
  raise_if
      (w.action == "INCIDENT_STATUS_CHANGED"
        && not (is_some w.previous_state && is_some w.new_state))
      "status changes require previous_state and new_state"
  ok w

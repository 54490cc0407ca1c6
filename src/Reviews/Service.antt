-- ===== src/Reviews/Service.antt =====
-- `ReviewService.submit` of backend/app/reviews/service.py. The transaction of the caller is the
-- state: an error leaves it to the rollback, so only a returned response carries a new state.
use network_anomaly_root_cau.Prelude.{
  ℕ, String, ◌==◌, Bool, true, false, not, ◌&&◌, ◌||◌, Option, none, some, List, [], ◌∷◌, is_empty,
  get_or_else, if◌then◌else◌,
}
use network_anomaly_root_cau.Prelude.Result.{Result, ok, err, raise_if, ◌>>=◌, ◌>>◌}
use network_anomaly_root_cau.Contracts.{Value, text, null, field, end}
use network_anomaly_root_cau.Db.Tables.{
  Incident, AnalysisRun, Hypothesis, Review, ReviewDecision, confirmed, rejected,
  evidence_requested, decision_value, ReviewRequest, AuditWrite, Store,
}
use network_anomaly_root_cau.Db.Repositories.{
  get_by_client_action, get_terminal_for_hypothesis, get_evidence_request_for_item,
  get_missing_by_id_for_run, incident_by_id, run_by_id, hypothesis_by_id, list_for_run,
  persist_idempotent, append_audit, update_status, set_confirmed_hypothesis,
}

-- `review_request_id`, which hashes its arguments, the clock and the factory of review IDs
pub record Ambient : Type 0 where
  pub review_request_id : String → String → String
  pub now : ℕ
  pub review_id : String

-- what the checks of `submit` come to: an earlier review to answer with, or a review to record
pub data Verdict : Type 0 where
  previous : Review → Verdict
  accepted : Incident → AnalysisRun → Hypothesis → Verdict

-- a result that is an optional row, or the steps for a row that is not there
abbrev pub answer_or : Result (Option Review) → Result Verdict → Result Verdict
answer_or (err e) k = err e
answer_or (ok none) k = k
answer_or (ok (some row)) k = ok (previous row)

abbrev pub required {ℓ} : {A : Type ℓ} → Option A → String → Result A
required none e = err e
required (some a) e = ok a

abbrev pub is_closed : String → Bool
is_closed status = status == "resolved" || status == "rejected"

-- the checks on an evidence request
unfoldable pub check_evidence :
    Store → ReviewRequest → String → Hypothesis → Result Verdict → Result Verdict
unfolding get_missing_by_id_for_run get_evidence_request_for_item
check_evidence st request run_id hypothesis k = do
  found ←
      get_missing_by_id_for_run st.evidence (get_or_else request.requested_evidence_id "") run_id
  evidence ← required found "422 VALIDATION_ERROR"
  raise_if (not (evidence.hypothesis_id == hypothesis.id)) "422 VALIDATION_ERROR"
  answer_or (get_evidence_request_for_item st.reviews run_id evidence.id) k

-- the terminal review of the hypothesis, when there is one, decides the answer
unfoldable pub check_terminal :
    ReviewRequest → Result (Option Review) → Result Verdict → Result Verdict
check_terminal request (err e) k = err e
check_terminal request (ok none) k = k
check_terminal request (ok (some terminal)) k =
    if terminal.decision == decision_value request.decision
    then ok (previous terminal)
    else err "409 REVIEW_CONFLICT"

abbrev pub is_request : ReviewDecision → Bool
is_request confirmed = false
is_request rejected = false
is_request evidence_requested = true

-- the checks after the first, up to the new row, in the order of the code: the decision, the
-- hypothesis, the run, and the incident
unfoldable pub check_decision :
    Store → ReviewRequest → Incident → AnalysisRun → Hypothesis → Result Verdict
unfolding check_evidence check_terminal get_terminal_for_hypothesis
check_decision st request incident run hypothesis =
    let accept = ok (accepted incident run hypothesis) in
    check_terminal request (get_terminal_for_hypothesis st.reviews hypothesis.id run.id) (
      if is_request request.decision
      then check_evidence st request run.id hypothesis accept
      else accept)

unfoldable pub check_hypothesis :
    Store → String → ReviewRequest → Incident → AnalysisRun → Result Verdict
unfolding check_decision
check_hypothesis st incident_id request incident run = do
  hypothesis ← required (hypothesis_by_id st.hypotheses request.hypothesis_id) "409 STALE_ANALYSIS"
  raise_if (not (hypothesis.incident_id == incident_id && hypothesis.analysis_run_id == run.id))
      "409 STALE_ANALYSIS"
  check_decision st request incident run hypothesis

-- the run that the incident points to, which has the ID that it is found by
unfoldable pub check_run : Store → String → ReviewRequest → Incident → String → Result Verdict
unfolding check_hypothesis
check_run st incident_id request incident run_id = do
  raise_if (not (request.analysis_run_id == run_id)) "409 STALE_ANALYSIS"
  run ← required (run_by_id st.runs run_id) "409 STALE_ANALYSIS"
  raise_if (not (run.incident_id == incident_id && run.status == "current")) "409 STALE_ANALYSIS"
  check_hypothesis st incident_id request incident run

unfoldable pub check_target : Store → String → ReviewRequest → Result Verdict
unfolding check_run
check_target st incident_id request = do
  incident ← required (incident_by_id st.incidents incident_id) "404 NOT_FOUND"
  raise_if (is_closed incident.status) "409 INCIDENT_CLOSED"
  run_id ← required incident.current_analysis_run_id "409 ANALYSIS_NOT_AVAILABLE"
  check_run st incident_id request incident run_id

unfoldable pub checked : Store → String → ReviewRequest → Result Verdict
unfolding get_by_client_action check_target
checked st incident_id request =
    answer_or (get_by_client_action st.reviews incident_id request.client_action_id)
      (check_target st incident_id request)

abbrev pub new_row : Ambient → String → ReviewRequest → AnalysisRun → Hypothesis → Review
new_row amb incident_id request run hypothesis = record {
  id = amb.review_id;
  incident_id = incident_id;
  analysis_run_id = run.id;
  hypothesis_id = hypothesis.id;
  decision = decision_value request.decision;
  client_action_id = request.client_action_id;
  requested_evidence_id = request.requested_evidence_id;
  reviewer = request.reviewer;
  comment = request.comment;
  created_at = amb.now;
}

-- `action_by_decision`, and the decision in capitals
abbrev pub action_of : ReviewDecision → String
action_of confirmed = "REVIEW_CONFIRMED"
action_of rejected = "REVIEW_REJECTED"
action_of evidence_requested = "REVIEW_EVIDENCE_REQUESTED"

abbrev pub reason_of : ReviewDecision → String
reason_of confirmed = "CONFIRMED"
reason_of rejected = "REJECTED"
reason_of evidence_requested = "EVIDENCE_REQUESTED"

abbrev pub text_or_null : Option String → Value
text_or_null none = null
text_or_null (some s) = text s

abbrev pub review_entry : Ambient → ReviewRequest → AnalysisRun → Review → AuditWrite
review_entry amb request run row = record {
  action = action_of request.decision;
  actor_type = "user";
  actor_id = some request.reviewer;
  object_type = "incident";
  object_id = row.incident_id;
  incident_id = some row.incident_id;
  analysis_run_id = some run.id;
  analysis_revision = some run.revision;
  request_id = amb.review_request_id row.incident_id request.client_action_id;
  reason_codes = reason_of request.decision ∷ [];
  previous_state = none;
  new_state = none;
  metadata = field "hypothesis_id" (text row.hypothesis_id) (
      field "review_id" (text row.id) (
        field "decision" (text row.decision)
          (field "requested_evidence_id" (text_or_null request.requested_evidence_id) end)));
  timestamp = amb.now;
}

abbrev pub status_entry :
    Ambient → ReviewRequest → AnalysisRun → Review → String → String → AuditWrite
status_entry amb request run row old_status new_status = record {
  action = "INCIDENT_STATUS_CHANGED";
  actor_type = "user";
  actor_id = some request.reviewer;
  object_type = "incident";
  object_id = row.incident_id;
  incident_id = some row.incident_id;
  analysis_run_id = some run.id;
  analysis_revision = some run.revision;
  request_id = amb.review_request_id row.incident_id request.client_action_id;
  reason_codes = "HUMAN_REVIEW_STATUS_TRANSITION" ∷ [];
  previous_state = some old_status;
  new_state = some new_status;
  metadata = field "review_id" (text row.id) end;
  timestamp = amb.now;
}

-- the test of one hypothesis in `all(...)`, which goes on to the rest or stops
abbrev pub and_rejected : Result (Option Review) → Result Bool → Result Bool
and_rejected (err e) rest = err e
and_rejected (ok none) rest = ok false
and_rejected (ok (some terminal)) rest = if terminal.decision == "rejected" then rest else ok false

-- the test that every hypothesis of the run has a rejection as its terminal review
unfoldable pub all_rejected : List Review → String → List Hypothesis → Result Bool
unfolding get_terminal_for_hypothesis
all_rejected reviews run_id [] = ok true
all_rejected reviews run_id (h ∷ hs) =
    and_rejected (get_terminal_for_hypothesis reviews h.id run_id) (all_rejected reviews run_id hs)

-- the incidents after a recorded review
unfoldable pub close_incident :
    Store
    → List Review
    → String
    → ReviewDecision
    → AnalysisRun
    → Hypothesis
    → Result (List Incident)
unfolding all_rejected list_for_run set_confirmed_hypothesis update_status
close_incident st reviews incident_id confirmed run hypothesis =
    set_confirmed_hypothesis incident_id hypothesis.id st.incidents
close_incident st reviews incident_id rejected run hypothesis = do
  let current = list_for_run st.hypotheses run.id
  every ← all_rejected reviews run.id current
  if not (is_empty current) && every
      then update_status incident_id "rejected" st.incidents
      else ok st.incidents
close_incident st reviews incident_id evidence_requested run hypothesis = ok st.incidents

-- the audit entry of a changed status
unfoldable pub log_status :
    Ambient
    → ReviewRequest
    → AnalysisRun
    → Review
    → String
    → String
    → List AuditWrite
    → Result (List AuditWrite)
unfolding append_audit
log_status amb request run row old_status new_status logs =
    if new_status == old_status
    then ok logs
    else append_audit logs (status_entry amb request run row old_status new_status)

unfoldable pub with_review : Store → List Incident → List Review → List AuditWrite → Store
with_review st incidents reviews logs = record st {
  incidents = incidents;
  reviews = reviews;
  audit_logs = logs;
}

-- the steps after the insertion of the row
unfoldable pub after_insert :
    Ambient
    → Store
    → ReviewRequest
    → Incident
    → AnalysisRun
    → Hypothesis
    → Review
    → List Review
    → Result (Review × Store)
unfolding append_audit close_incident log_status with_review
after_insert amb st request incident run hypothesis row reviews = do
  logs ← append_audit st.audit_logs (review_entry amb request run row)
  incidents ← close_incident st reviews row.incident_id request.decision run hypothesis
  after ← required (incident_by_id incidents row.incident_id) "Incident not found"
  all_logs ← log_status amb request run row incident.status after.status logs
  ok (row, with_review st incidents reviews all_logs)

-- the new row, its audit entry and the status of the incident
unfoldable pub record_review :
    Ambient
    → Store
    → String
    → ReviewRequest
    → Incident
    → AnalysisRun
    → Hypothesis
    → Result (Review × Store)
unfolding persist_idempotent after_insert
record_review amb st incident_id request incident run hypothesis = do
  persisted ← persist_idempotent st.reviews (new_row amb incident_id request run hypothesis)
  if persisted.0.1
      then after_insert amb st request incident run hypothesis persisted.0.0 persisted.1
      else ok (persisted.0.0, st)

-- a response with the state that it leaves
abbrev pub respond : Review → Store → Result (Review × Store)
respond row st = ok (row, st)

unfoldable pub conclude :
    Ambient → Store → String → ReviewRequest → Verdict → Result (Review × Store)
unfolding record_review
conclude amb st incident_id request (previous row) = respond row st
conclude amb st incident_id request (accepted incident run hypothesis) =
    record_review amb st incident_id request incident run hypothesis

unfoldable pub submit : Ambient → Store → String → ReviewRequest → Result (Review × Store)
unfolding checked conclude
submit amb st incident_id request = do
  verdict ← checked st incident_id request
  conclude amb st incident_id request verdict

-- ===== src/Orchestration/Pipeline.antt =====
-- `_stage_detect`, `_stage_incident`, `_run_pipeline`, `process_batch` and `recompute` of
-- backend/app/orchestration/orchestrator.py.
use network_anomaly_root_cau.Prelude.{
  lookup, get_or_else, ℕ, ◌+◌, String, ◌==◌, not, ◌||◌, Option, none, some, List, [], ◌∷◌, any,
  sort_by, insert_by, insert,
}
use network_anomaly_root_cau.Prelude.Int.{pos}
use network_anomaly_root_cau.Prelude.Result.{Result, ok, err, raise_if, ◌>>=◌, ◌>>◌}
use network_anomaly_root_cau.Contracts.{text, num, flag, field, end}
use network_anomaly_root_cau.Db.Tables.{Event, Anomaly, AuditWrite, Store}
use network_anomaly_root_cau.Db.Repositories.{append_audit, incident_by_id}
use network_anomaly_root_cau.Incidents.Tables.{is_event, event_first}
use network_anomaly_root_cau.Incidents.Manager.{Manager}
use network_anomaly_root_cau.Incidents.Process.{process_anomalies}
use network_anomaly_root_cau.Orchestration.Publish.{
  Orchestrator, Publication, returned, failed, aborted, run_rca_and_publish,
}

-- the registered parts; the detector reads the tables. A call takes its next incident ID and run ID
-- from the factories, which are given the number of the call
pub record Pipeline : Type 0 where
  pub detector : Option (Event → Store → Result (List Anomaly))
  pub incident_manager : Option (ℕ → Manager)
  pub orchestrator : ℕ → Orchestrator
  pub pipeline_request : String → String
  pub now : ℕ

-- how a call of the pipeline ends: without an analysis, with runs, or with an error
pub data Processed : Type 0 where
  done : Store → Processed
  failed_with : String → Store → Processed
  raised : String → Processed

-- `persist`; the ID is the primary key, and the event a foreign key
unfoldable pub persist_anomaly : List Event → Anomaly → List Anomaly → Result (List Anomaly)
persist_anomaly events row rows = do
  raise_if (any (λ (a : Anomaly). a.id == row.id) rows || not (any (is_event row.event_id) events))
      "IntegrityError"
  ok (row ∷ rows)

abbrev pub of_publication : Publication → Processed
of_publication (returned id st) = done st
of_publication (failed message st) = failed_with message st
of_publication (aborted message) = raised message

module _ (p : Pipeline) where
  abbrev pub detected_entry : Event → Anomaly → AuditWrite
  detected_entry event a = record {
    action = "ANOMALY_DETECTED";
    actor_type = "system";
    actor_id = some "detector";
    object_type = "anomaly";
    object_id = a.id;
    incident_id = none;
    analysis_run_id = none;
    analysis_revision = none;
    request_id = p.pipeline_request event.id;
    reason_codes = a.detector_id ∷ [];
    previous_state = none;
    new_state = none;
    metadata = field "event_id" (text event.id) (
        field "detector_id" (text a.detector_id)
          (field "score" (num (pos a.score)) (field "context_only" (flag a.context_only) end)));
    timestamp = p.now;
  }

  unfoldable pub persist_detected : Event → List Anomaly → Store → Result Store
  unfolding persist_anomaly append_audit
  persist_detected event [] st = ok st
  persist_detected event (a ∷ rest) st = do
    rows ← persist_anomaly st.events a st.anomalies
    logs ← append_audit st.audit_logs (detected_entry event a)
    persist_detected event rest (record st { anomalies = rows; audit_logs = logs })

  -- `_stage_detect`
  unfoldable pub stage_detect : Event → Store → Result (List Anomaly × Store)
  unfolding persist_detected
  stage_detect event st = elim p.detector [
    | none ↦ ok ([], st)
    | some detect ↦ do
      anomalies ← detect event st
      after ← persist_detected event anomalies st
      ok (anomalies, after)
  ]

  -- `_stage_incident`
  unfoldable pub stage_incident : ℕ → List Anomaly → Event → Store → Result (Option String × Store)
  unfolding process_anomalies
  stage_incident n anomalies event st = elim p.incident_manager [
    | none ↦ ok (none, st)
    | some manager ↦ process_anomalies (manager n) anomalies event st
  ]

  -- the first two stages
  unfoldable pub observe : ℕ → Event → Store → Result (Option String × Store)
  unfolding stage_detect stage_incident
  observe n event st = do
    (anomalies, detected) ← stage_detect event st
    stage_incident n anomalies event detected

  -- the third stage, for the row that the second has returned
  unfoldable pub analyse_incident : ℕ → Option String → Option String → Store → Processed
  unfolding run_rca_and_publish
  analyse_incident n none trigger st = done st
  analyse_incident n (some id) trigger st = elim (incident_by_id st.incidents id) [
    | none ↦ raised "Incident not found"
    | some incident ↦ of_publication (run_rca_and_publish (p.orchestrator n) incident trigger st)
  ]

  -- `_run_pipeline`. Its own handler has no run ID when the third stage raises, and does nothing
  unfoldable pub run_pipeline : Event → Store → Processed
  unfolding observe analyse_incident
  run_pipeline event st = elim (observe 0 event st) [
    | err e ↦ raised e
    | ok (answer, after) ↦ analyse_incident 0 answer (some event.id) after
  ]

  -- `recompute`, whose answer is the ID of the run
  unfoldable pub recompute : String → Store → Publication
  unfolding run_rca_and_publish
  recompute incident_id st = elim (incident_by_id st.incidents incident_id) [
    | none ↦ aborted "Incident not found"
    | some incident ↦ run_rca_and_publish (p.orchestrator 0) incident none st
  ]

  -- the first loop of `process_batch`, over the ordered events: the dictionary `anomalies_by_event`
  unfoldable pub detect_all :
      List Event
      → List (String × List Anomaly)
      → Store
      → Result (List (String × List Anomaly) × Store)
  unfolding stage_detect insert
  detect_all [] found st = ok (found, st)
  detect_all (e ∷ es) found st = do
    (anomalies, detected) ← stage_detect e st
    detect_all es (insert e.id anomalies found) detected

  -- the second loop, with the dictionary `affected` from incidents to their last events
  unfoldable pub attach_all :
      ℕ
      → List Event
      → List (String × List Anomaly)
      → List (String × String)
      → Store
      → Result (List (String × String) × Store)
  unfolding stage_incident insert lookup
  attach_all n [] found affected st = ok (affected, st)
  attach_all n (e ∷ rest) found affected st = do
    (answer, after) ← stage_incident n (get_or_else (lookup e.id found) []) e st
    attach_all (n + 1) rest found
        (elim answer [ none ↦ affected | some id ↦ insert id e.id affected ]) after

  -- the third loop, which the first error ends
  unfoldable pub publish_all : ℕ → List (String × String) → Store → Processed
  unfolding analyse_incident
  publish_all n [] st = done st
  publish_all n ((id, trigger) ∷ rest) st = elim (analyse_incident n (some id) (some trigger) st) [
    | done after ↦ publish_all (n + 1) rest after
    | failed_with e after ↦ failed_with e after
    | raised e ↦ raised e
  ]

  -- the first two loops over the ordered events
  unfoldable pub observe_all : List Event → Store → Result (List (String × String) × Store)
  unfolding detect_all attach_all
  observe_all events st = do
    (found, detected) ← detect_all events [] st
    attach_all 0 events found [] detected

  unfoldable pub process_batch : List Event → Store → Processed
  unfolding observe_all publish_all sort_by insert_by
  process_batch events st = elim (observe_all (sort_by event_first events) st) [
    | err e ↦ raised e
    | ok (affected, after) ↦ publish_all 0 affected after
  ]

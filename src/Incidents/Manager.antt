-- ===== src/Incidents/Manager.antt =====
-- `IncidentManager` of backend/app/incidents/manager.py: the context of an incident, the persistence
-- of an evaluation, the opening of an incident and `process_anomalies`. The transaction of the caller
-- is the state, as in Reviews.Service.
use network_anomaly_root_cau.Prelude.{
  ℕ, String, ◌==◌, Bool, not, ◌&&◌, Option, none, some, List, [], ◌∷◌, map, keep, ltb, length,
  is_some, if◌then◌else◌, sort_by, insert_by,
}
use network_anomaly_root_cau.Prelude.Result.{Result, ok, raise_if, ◌>>=◌, ◌>>◌}
use network_anomaly_root_cau.Contracts.{Fields, text, num, field, end}
use network_anomaly_root_cau.Db.Tables.{
  Event, Anomaly, Incident, IncidentEvent, IncidentEventEvaluation, AuditWrite, Store,
}
use network_anomaly_root_cau.Db.Repositories.{append_audit}
use network_anomaly_root_cau.Incidents.Symptoms.{SymptomCatalogue, families_for, filled}
use network_anomaly_root_cau.Incidents.Scoring.{
  Settings, IncidentAttachmentContext, AttachmentEvaluation,
}
use network_anomaly_root_cau.Incidents.Tables.{
  is_known, event_first, get_events_by_ids, get_evaluation, get_attached_events, attach_event,
  update_started_at_if_earlier, update_last_event_at, add_anomaly_count, add_affected_entity,
  update_severity,
}

-- what the manager is built with: the settings, the topology's distance along the traffic, the
-- catalogue, the two texts that it formats, and the factory of incident IDs
pub record Manager : Type 0 where
  pub settings : Settings
  pub topology_distance : String → String → Result ℕ
  pub catalogue : SymptomCatalogue
  pub affecting : String → String
  pub pipeline_request : String → String
  pub incident_id : String

-- `anomaly.can_open_incident and not anomaly.context_only`
abbrev pub is_actionable : Anomaly → Bool
is_actionable a = a.can_open_incident && not a.context_only

abbrev pub max_score : List Anomaly → ℕ
max_score [] = 0
max_score (a ∷ others) = let rest = max_score others in if ltb rest a.score then a.score else rest

-- the updates that depend on the actionable anomalies
unfoldable pub update_actionable :
    String → Event → List Anomaly → List Incident → Result (List Incident)
unfolding add_anomaly_count add_affected_entity update_severity
update_actionable id event [] incidents = ok incidents
update_actionable id event (a ∷ others) incidents = do
  counted ← add_anomaly_count id (length (a ∷ others)) incidents
  affected ← add_affected_entity id event.entity_id counted
  update_severity id (max_score (a ∷ others)) affected

-- what an attachment does to the row of the incident
unfoldable pub update_attached :
    String → Event → List Anomaly → List Incident → Result (List Incident)
unfolding update_started_at_if_earlier update_last_event_at update_actionable
update_attached id event anomalies incidents = do
  started ← update_started_at_if_earlier id event.timestamp incidents
  ended ← update_last_event_at id event.timestamp started
  update_actionable id event (keep is_actionable anomalies) ended

-- the rows of an evaluation
abbrev pub evaluation_row : String → String → AttachmentEvaluation → IncidentEventEvaluation
evaluation_row incident_id event_id v = record {
  incident_id = incident_id;
  event_id = event_id;
  decision = v.decision;
  attachment_score = v.score;
  attachment_reasons = v.reasons;
}

abbrev pub attachment_row : IncidentEventEvaluation → IncidentEvent
attachment_row v = record {
  incident_id = v.incident_id;
  event_id = v.event_id;
  attachment_score = v.attachment_score;
  attachment_reasons = v.attachment_reasons;
}

abbrev pub is_attached : String → Bool
is_attached decision = decision == "attached"

module _ (m : Manager) where
  -- an audit entry of the manager about an incident
  abbrev pub entry_for :
      String → String → String → String → Event → List String → Fields → AuditWrite
  entry_for action object_type object_id incident_id event reasons metadata = record {
    action = action;
    actor_type = "system";
    actor_id = some "incident_manager";
    object_type = object_type;
    object_id = object_id;
    incident_id = some incident_id;
    analysis_run_id = none;
    analysis_revision = none;
    request_id = m.pipeline_request event.id;
    reason_codes = reasons;
    previous_state = none;
    new_state = none;
    metadata = metadata;
    timestamp = event.timestamp;
  }

  abbrev pub evaluation_entry : String → Event → AttachmentEvaluation → AuditWrite
  evaluation_entry incident_id event v =
      entry_for (if is_attached v.decision then "EVENT_ATTACHED" else "EVENT_EXCLUDED") "event"
        event.id incident_id event v.reasons
        (field "event_id" (text event.id)
          (field "decision" (text v.decision) (field "attachment_score" (num v.score) end)))

  -- the branch of an attached event
  unfoldable pub attach :
      String → Event → List Anomaly → AttachmentEvaluation → Store → Result Store
  unfolding attach_event update_attached
  attach incident_id event anomalies v st = do
    rows ←
        attach_event st.incidents st.events (attachment_row (evaluation_row incident_id event.id v))
          st.incident_events
    incidents ← update_attached incident_id event anomalies st.incidents
    ok (record st { incident_events = rows; incidents = incidents })

  unfoldable pub log_evaluation : String → Event → AttachmentEvaluation → Store → Result Store
  unfolding append_audit
  log_evaluation incident_id event v st = do
    logs ← append_audit st.audit_logs (evaluation_entry incident_id event v)
    ok (record st { audit_logs = logs })

  unfoldable pub persist_new :
      String → Event → List Anomaly → AttachmentEvaluation → Store → Result Store
  unfolding attach log_evaluation
  persist_new incident_id event anomalies v st = do
    raise_if (not (is_known st.incidents st.events incident_id event.id)) "IntegrityError"
    let evaluated = record st {
      evaluations = evaluation_row incident_id event.id v ∷ st.evaluations;
    }
    attached ←
        if is_attached v.decision
        then attach incident_id event anomalies v evaluated
        else ok evaluated
    log_evaluation incident_id event v attached

  -- `_persist_evaluation`
  unfoldable pub persist_evaluation :
      String → Event → List Anomaly → AttachmentEvaluation → Store → Result Store
  unfolding persist_new
  persist_evaluation incident_id event anomalies v st =
      if is_some (get_evaluation st.evaluations incident_id event.id)
      then ok st
      else persist_new incident_id event anomalies v st

  -- `next(...)` over the sorted events in `_context_for_incident`
  abbrev pub first_trace : List Event → Option String
  first_trace [] = none
  first_trace (e ∷ es) = elim (filled e.trace_or_session_id) [
    | none ↦ first_trace es
    | some t ↦ some t
  ]

  abbrev pub first_family : List Event → Option (String × ℕ)
  first_family [] = none
  first_family (e ∷ es) = elim (families_for m.catalogue e.event_type) [
    | [] ↦ first_family es
    | f ∷ others ↦ some (f, e.timestamp)
  ]

  unfoldable pub context_for_incident : Store → Incident → IncidentAttachmentContext
  unfolding get_events_by_ids sort_by insert_by
  context_for_incident st incident =
      let ids =
        map (λ (r : IncidentEvent). r.event_id)
          (get_attached_events st.incident_events incident.id) in
      let events = sort_by event_first (get_events_by_ids st.events ids) in
      elim (first_family events) [
        | none ↦ record {
          symptom_family = none;
          trace_or_session_id = first_trace events;
          opening_symptom_at = incident.started_at;
        }
        | some (f, t) ↦ record {
          symptom_family = some f;
          trace_or_session_id = first_trace events;
          opening_symptom_at = t;
        }
      ]

  -- `_opening_anomalies`
  unfoldable pub opening_anomalies : List Anomaly → List Anomaly
  opening_anomalies anomalies =
      keep (λ (a : Anomaly). ltb m.settings.incident_open_threshold a.score && is_actionable a)
        anomalies

-- ===== src/Incidents/Opening.antt =====
-- `_open_incident` of backend/app/incidents/manager.py.
use network_anomaly_root_cau.Prelude.{
  ◌-◌, ◌*◌, String, ◌==◌, Bool, true, false, not, ◌&&◌, ◌||◌, Option, none, some, List, [], ◌∷◌,
  ◌++◌, map, head?, ltb, is_empty, if◌then◌else◌, sort_by, insert_by,
}
use network_anomaly_root_cau.Prelude.Result.{Result, ok, ◌>>=◌}
use network_anomaly_root_cau.Contracts.{Items, text, arr, nil, cons, field, end}
use network_anomaly_root_cau.Db.Tables.{Event, Anomaly, Entity, Incident, AuditWrite, Store}
use network_anomaly_root_cau.Db.Repositories.{append_audit}
use network_anomaly_root_cau.Incidents.Symptoms.{
  EvidenceRuleMatch, families_for, incident_title, evidence_rule_matches,
}
use network_anomaly_root_cau.Incidents.Scoring.{IncidentAttachmentContext, score_attachment}
use network_anomaly_root_cau.Incidents.Tables.{
  event_first, list_accepted_in_window, list_by_event, create_incident,
}
use network_anomaly_root_cau.Incidents.Manager.{Manager, entry_for, persist_evaluation}

-- an entry of `latest_normal_evidence`
pub record Latest : Type 0 where
  pub rule_id : String
  pub event : Event

abbrev pub same_signal : Option String → Option String → Bool
same_signal none none = true
same_signal none (some b) = false
same_signal (some a) none = false
same_signal (some a) (some b) = a == b

-- the keys `(entity_id, signal_name, rule_id)` are equal
abbrev pub same_key : Event → String → Latest → Bool
same_key event rule_id l =
    l.event.entity_id == event.entity_id
    && same_signal l.event.signal_name event.signal_name
    && l.rule_id == rule_id

-- the later of two events with one key stays, in the place of the first
unfoldable pub record_latest : Event → String → List Latest → List Latest
record_latest event rule_id [] = record { rule_id = rule_id; event = event } ∷ []
record_latest event rule_id (l ∷ ls) =
    let rest = record_latest event rule_id ls in
    if same_key event rule_id l
    then (if ltb l.event.timestamp event.timestamp
        then record { rule_id = rule_id; event = event } ∷ ls
        else l ∷ ls)
    else l ∷ rest

unfoldable pub record_matches : Event → List EvidenceRuleMatch → List Latest → List Latest
unfolding record_latest
record_matches event [] latest = latest
record_matches event (r ∷ rs) latest =
    record_matches event rs (record_latest event r.rule_id latest)

abbrev pub Considered : Type 0
Considered = Event × List Anomaly

abbrev pub considered_first : Considered → Considered → Bool
considered_first a b = event_first a.0 b.0

module _ (m : Manager) where
  module _ (anomalies : List Anomaly) (event_id : String)
      (context : IncidentAttachmentContext) where
    -- the loop over the events of the lookback window
    unfoldable pub gather :
        List Event → List Considered → List Latest → List Considered × List Latest
    unfolding record_matches
    gather [] listed latest = (listed, latest)
    gather (e ∷ es) listed latest =
        let found = list_by_event anomalies e.id in
        let skip = e.id == event_id in
        let matches =
          evidence_rule_matches m.catalogue e context.symptom_family context.opening_symptom_at in
        gather es (if skip || is_empty found then listed else listed ++ (e, found) ∷ [])
          (if not skip && is_empty found then record_matches e matches latest else latest)

    unfoldable pub lookback_candidates : List Event → List Considered
    unfolding gather sort_by insert_by
    lookback_candidates events =
        let (listed, latest) = gather events [] [] in
        sort_by considered_first (listed ++ map (λ (l : Latest). (l.event, [])) latest)

  -- the loop that scores the candidates against the new incident; it reads no field of the row that
  -- an attachment updates, so the row as it was created stands for it
  unfoldable pub attach_lookback :
      Incident → IncidentAttachmentContext → List Considered → Store → Result Store
  unfolding score_attachment persist_evaluation
  attach_lookback incident context [] st = ok st
  attach_lookback incident context ((e, anomalies) ∷ rest) st = do
    let v =
        score_attachment m.settings m.topology_distance m.catalogue incident e anomalies context
          true
    next ← persist_evaluation m incident.id e anomalies v st
    attach_lookback incident context rest next

  unfoldable pub new_incident : Event → Entity → Incident
  unfolding incident_title
  new_incident event entity = record {
    id = m.incident_id;
    title =
        incident_title m.affecting m.catalogue (head? (families_for m.catalogue event.event_type))
          entity;
    status = "open";
    severity = 0;
    started_at = event.timestamp;
    last_event_at = event.timestamp;
    primary_entity_id = event.entity_id;
    affected_entity_ids = event.entity_id ∷ [];
    anomaly_count = 0;
    current_analysis_run_id = none;
    top_hypothesis_id = none;
    confirmed_hypothesis_id = none;
  }

  abbrev pub ids_of : List Anomaly → Items
  ids_of [] = nil
  ids_of (a ∷ rest) = cons (text a.id) (ids_of rest)

  abbrev pub opening_entry : Event → List Anomaly → AuditWrite
  opening_entry event opening =
      entry_for m "INCIDENT_OPENED" "incident" m.incident_id m.incident_id event
        ("OPEN_THRESHOLD_EXCEEDED" ∷ [])
        (field "opening_event_id" (text event.id)
          (field "opening_anomaly_ids" (arr (ids_of opening)) end))

  abbrev pub opening_context : Event → IncidentAttachmentContext
  opening_context event = record {
    symptom_family = head? (families_for m.catalogue event.event_type);
    trace_or_session_id = event.trace_or_session_id;
    opening_symptom_at = event.timestamp;
  }

  -- `_open_incident`; no instant is before the lookback of the epoch, where `-` stops at 0
  unfoldable pub open_incident : Event → List Anomaly → Entity → Store → Result Store
  unfolding new_incident create_incident append_audit list_accepted_in_window lookback_candidates
      attach_lookback
  open_incident event opening entity st = do
    let incident = new_incident event entity
    let context = opening_context event
    incidents ← create_incident st.entities incident st.incidents
    logs ← append_audit st.audit_logs (opening_entry event opening)
    let v =
        score_attachment m.settings m.topology_distance m.catalogue incident event opening context
          false
    opened ←
        persist_evaluation m incident.id event opening v
          (record st { incidents = incidents; audit_logs = logs })
    let start = event.timestamp - m.settings.incident_lookback_seconds * 1000
    let window = list_accepted_in_window opened.events start event.timestamp
    attach_lookback incident context (lookback_candidates opened.anomalies event.id context window)
        opened

-- ===== src/Incidents/Process.antt =====
-- `process_anomalies` of backend/app/incidents/manager.py.
use network_anomaly_root_cau.Prelude.{
  String, ◌==◌, Bool, false, not, ◌&&◌, ◌||◌, Option, none, some, List, [], ◌∷◌, ◌++◌, keep, ltb,
  dedup, if◌then◌else◌,
}
use network_anomaly_root_cau.Prelude.Int.{ltb_ℤ}
use network_anomaly_root_cau.Prelude.Result.{Result, ok, ◌>>=◌}
use network_anomaly_root_cau.Db.Tables.{Event, Anomaly, Entity, Incident, Store}
use network_anomaly_root_cau.Incidents.Scoring.{AttachmentEvaluation, score_attachment}
use network_anomaly_root_cau.Incidents.Tables.{list_open, list_by_event, entity_by_id}
use network_anomaly_root_cau.Incidents.Manager.{
  Manager, is_attached, persist_evaluation, context_for_incident, opening_anomalies,
}
use network_anomaly_root_cau.Incidents.Opening.{open_incident}

abbrev pub Candidate : Type 0
Candidate = Incident × AttachmentEvaluation

-- the key `(score, last_event_at)` of `max` is larger
abbrev pub better : Candidate → Candidate → Bool
better a b =
    ltb_ℤ b.1.score a.1.score
    || not (ltb_ℤ a.1.score b.1.score) && ltb b.0.last_event_at a.0.last_event_at

-- `max`, which keeps the first of the largest
abbrev pub best_from : Candidate → List Candidate → Candidate
best_from best [] = best
best_from best (c ∷ cs) = best_from (if better c best then c else best) cs

abbrev pub attachable : List Candidate → List Candidate
attachable candidates = keep (λ (c : Candidate). is_attached c.1.decision) candidates

-- `replace(evaluation, decision="excluded", ...)` for an incident that is not the selected one
unfoldable pub demote : String → Candidate → AttachmentEvaluation
unfolding dedup
demote selected (incident, v) =
    if not (incident.id == selected) && is_attached v.decision
    then record v {
      decision = "excluded";
      reasons = dedup (v.reasons ++ "BETTER_INCIDENT_MATCH" ∷ []);
    }
    else v

module _ (m : Manager) where
  -- the loop over `list_open()` that scores the event
  unfoldable pub score_open : Store → Event → List Anomaly → List Incident → List Candidate
  unfolding score_attachment context_for_incident
  score_open st event anomalies [] = []
  score_open st event anomalies (i ∷ incidents) =
      (
        i,
        score_attachment m.settings m.topology_distance m.catalogue i event anomalies
            (context_for_incident m st i) false,
      )
      ∷ score_open st event anomalies incidents

  -- the loops that persist the evaluations as they are, and with the others demoted
  unfoldable pub persist_all : Event → List Anomaly → List Candidate → Store → Result Store
  unfolding persist_evaluation
  persist_all event anomalies [] st = ok st
  persist_all event anomalies ((i, v) ∷ cs) st = do
    next ← persist_evaluation m i.id event anomalies v st
    persist_all event anomalies cs next

  unfoldable pub persist_selected :
      String → Event → List Anomaly → List Candidate → Store → Result Store
  unfolding persist_evaluation demote
  persist_selected selected event anomalies [] st = ok st
  persist_selected selected event anomalies ((i, v) ∷ cs) st = do
    next ← persist_evaluation m i.id event anomalies (demote selected (i, v)) st
    persist_selected selected event anomalies cs next

  -- a new incident if the entity is known and there is an opening anomaly
  unfoldable pub open_for :
      Event → List Anomaly → Option Entity → Store → Result (Option String × Store)
  open_for event opening none st = ok (none, st)
  open_for event [] (some entity) st = ok (none, st)
  open_for event (a ∷ others) (some entity) st = do
    opened ← open_incident m event (a ∷ others) entity st
    ok (some m.incident_id, opened)

  -- the steps when no active incident takes the event: its exclusions, then perhaps a new incident
  unfoldable pub open_or_exclude :
      Event → List Anomaly → List Candidate → Store → Result (Option String × Store)
  unfolding persist_all opening_anomalies
  open_or_exclude event anomalies candidates st = do
    excluded ← persist_all event anomalies candidates st
    open_for event (opening_anomalies m anomalies) (entity_by_id excluded.entities event.entity_id)
        excluded

  -- `process_anomalies`, which returns the ID of the incident
  unfoldable pub process_anomalies : List Anomaly → Event → Store → Result (Option String × Store)
  unfolding list_open score_open persist_selected open_or_exclude
  process_anomalies anomalies event st =
      let event_anomalies = list_by_event anomalies event.id in
      let candidates = score_open st event event_anomalies (list_open st.incidents) in
      elim (attachable candidates) [
        | [] ↦ open_or_exclude event event_anomalies candidates st
        | c ∷ cs ↦
            persist_selected (best_from c cs).0.id event event_anomalies candidates st >>= λ next.
            ok (some (best_from c cs).0.id, next)
      ]

-- ===== src/Incidents/Log.antt =====
-- The decision log of the incident manager: what one persisted evaluation writes, and what holds of
-- the tables however many are persisted.
use network_anomaly_root_cau.Prelude.{
  String, ◌≡◌, refl, sym, ap, ◌∙◌, Bool, true, not, ◌&&◌, none, List, [], ◌∷◌, map, keep, any,
  is_some, if◌then◌else◌, ◌⊎◌, inl, inr, Bool-cases, Option-cases,
}
use network_anomaly_root_cau.Prelude.Result.{ok, >>=-eq-ok, raise_if-eq-ok, ok-injective}
use network_anomaly_root_cau.Db.Tables.{
  Event, Incident, Anomaly, IncidentEvent, IncidentEventEvaluation, Store,
}
use network_anomaly_root_cau.Db.Repositories.{append_audit}
use network_anomaly_root_cau.Incidents.Scoring.{AttachmentEvaluation}
use network_anomaly_root_cau.Incidents.Tables.{
  is_known, is_evaluation, get_evaluation, attach_event,
}
use network_anomaly_root_cau.Incidents.Manager.{
  Manager, is_attached, evaluation_row, attachment_row, update_attached, evaluation_entry, attach,
  log_evaluation, persist_new, persist_evaluation,
}

-- the attachments that a list of evaluations stands for
abbrev pub attachments_of : List IncidentEventEvaluation → List IncidentEvent
attachments_of vs =
    map attachment_row (keep (λ (v : IncidentEventEvaluation). is_attached v.decision) vs)

abbrev pub is_distinct : List IncidentEventEvaluation → Bool
is_distinct [] = true
is_distinct (v ∷ vs) = not (any (is_evaluation v.incident_id v.event_id) vs) && is_distinct vs

-- what a persisted evaluation writes
pub record Persisted (incident_id : String) (event : Event) (v : AttachmentEvaluation)
    (st new : Store) : Type 0 where
  pub fresh : get_evaluation st.evaluations incident_id event.id ≡ none
  pub evaluations_are : new.evaluations ≡ evaluation_row incident_id event.id v ∷ st.evaluations
  pub attachments_are : new.incident_events ≡ (
      if is_attached v.decision
      then attachment_row (evaluation_row incident_id event.id v) ∷ st.incident_events
      else st.incident_events)
  pub kept :
      (new.events ≡ st.events) × (new.anomalies ≡ st.anomalies) × (new.entities ≡ st.entities)

attach_event-eq-ok :
    (incidents : List Incident) (events : List Event) (row : IncidentEvent)
    (rows new : List IncidentEvent)
    → attach_event incidents events row rows ≡ ok new
    → new ≡ row ∷ rows
unfolding attach_event
attach_event-eq-ok incidents events row rows new e =
    let (free, e1) = raise_if-eq-ok _ _ _ e in sym (ok-injective e1)

module _ (m : Manager) (incident_id : String) (event : Event) (anomalies : List Anomaly)
    (v : AttachmentEvaluation) where
  attach-eq-ok :
      (st new : Store)
      → attach m incident_id event anomalies v st ≡ ok new
      → (new.evaluations ≡ st.evaluations)
        × (new.incident_events
            ≡ attachment_row (evaluation_row incident_id event.id v) ∷ st.incident_events)
        × ((new.events ≡ st.events) × (new.anomalies ≡ st.anomalies) × (new.entities ≡ st.entities))
  unfolding attach
  attach-eq-ok st new e =
      let (rows, h1, e1) =
        >>=-eq-ok
          (attach_event st.incidents st.events
            (attachment_row (evaluation_row incident_id event.id v)) st.incident_events)
          _ e in
      let (incidents, h2, e2) =
        >>=-eq-ok (update_attached incident_id event anomalies st.incidents) _ e1 in
      let same = sym (ok-injective e2) in
      (
        ap (λ s. s.evaluations) same,
        ap (λ s. s.incident_events) same
            ∙ attach_event-eq-ok st.incidents st.events _ st.incident_events rows h1,
        (ap (λ s. s.events) same, ap (λ s. s.anomalies) same, ap (λ s. s.entities) same),
      )

  log_evaluation-eq-ok :
      (st new : Store)
      → log_evaluation m incident_id event v st ≡ ok new
      → (new.evaluations ≡ st.evaluations)
        × (new.incident_events ≡ st.incident_events)
        × ((new.events ≡ st.events) × (new.anomalies ≡ st.anomalies) × (new.entities ≡ st.entities))
  unfolding log_evaluation
  log_evaluation-eq-ok st new e =
      let (logs, h1, e1) =
        >>=-eq-ok (append_audit st.audit_logs (evaluation_entry m incident_id event v)) _ e in
      let same = sym (ok-injective e1) in
      (
        ap (λ s. s.evaluations) same,
        ap (λ s. s.incident_events) same,
        (ap (λ s. s.events) same, ap (λ s. s.anomalies) same, ap (λ s. s.entities) same),
      )

  -- the tables after the optional attachment
  branch-eq-ok :
      (st mid : Store)
      → (if is_attached v.decision then attach m incident_id event anomalies v st else ok st)
        ≡ ok mid
      → (mid.evaluations ≡ st.evaluations)
        × (mid.incident_events ≡ (
            if is_attached v.decision
            then attachment_row (evaluation_row incident_id event.id v) ∷ st.incident_events
            else st.incident_events))
        × ((mid.events ≡ st.events) × (mid.anomalies ≡ st.anomalies) × (mid.entities ≡ st.entities))
  branch-eq-ok st mid e = elim (Bool-cases (is_attached v.decision)) [
    | inl yes_attached ↦ rw yes_attached (attach-eq-ok st mid (rw yes_attached at e))
    | inr excluded ↦
        let same = sym (ok-injective (rw excluded at e)) in
        rw excluded (
          ap (λ (s : Store). s.evaluations) same,
          ap (λ (s : Store). s.incident_events) same,
          (
            ap (λ (s : Store). s.events) same,
            ap (λ (s : Store). s.anomalies) same,
            ap (λ (s : Store). s.entities) same,
          ),
        )
  ]

  persist_new-eq-ok :
      (st new : Store)
      → get_evaluation st.evaluations incident_id event.id ≡ none
      → persist_new m incident_id event anomalies v st ≡ ok new
      → Persisted incident_id event v st new
  unfolding persist_new
  persist_new-eq-ok st new fresh e =
      let (known, e0) =
        raise_if-eq-ok (not (is_known st.incidents st.events incident_id event.id)) _ _ e in
      let row = evaluation_row incident_id event.id v in
      let evaluated : Store = record st { evaluations = row ∷ st.evaluations } in
      let (mid, h1, e1) =
        >>=-eq-ok
          (if is_attached v.decision
            then attach m incident_id event anomalies v evaluated
            else ok evaluated)
          _ e0 in
      let (a, b, c) = branch-eq-ok evaluated mid h1 in
      let (p, q, r) = log_evaluation-eq-ok mid new e1 in
      record {
        fresh = fresh;
        evaluations_are = p ∙ a;
        attachments_are = q ∙ b;
        kept = (r.0 ∙ c.0, r.1 ∙ c.1, r.2 ∙ c.2);
      }

  pub persist_evaluation-eq-ok :
      (st new : Store)
      → persist_evaluation m incident_id event anomalies v st ≡ ok new
      → ((new ≡ st) × (is_some (get_evaluation st.evaluations incident_id event.id) ≡ true))
        ⊎ Persisted incident_id event v st new
  unfolding persist_evaluation
  persist_evaluation-eq-ok st new e =
      elim (Option-cases (get_evaluation st.evaluations incident_id event.id)) [
        | inl fresh ↦ inr (persist_new-eq-ok st new fresh (rw fresh at e))
        | inr (old, known) ↦ inl (sym (ok-injective (rw known at e)), rw known refl)
      ]

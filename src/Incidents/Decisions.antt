-- ===== src/Incidents/Decisions.antt =====
-- What `process_anomalies` of backend/app/incidents/manager.py decides, over all the evaluations that
-- it persists.
use network_anomaly_root_cau.Prelude.{
  String, ◌==◌, eq_iff, ◌≡◌, refl, sym, ap, ◌∙◌, subst, false≢true, true, false, Option, none, some,
  List, [], ◌∷◌, is_some, arith, All, All_imp, inl, inr, Bool-cases, List-cases,
}
use network_anomaly_root_cau.Prelude.Result.{Result, ok, >>=-eq-ok, ok-injective}
use network_anomaly_root_cau.Db.Tables.{Event, Anomaly, Entity, Incident, Store}
use network_anomaly_root_cau.Db.Repositories.{append_audit}
use network_anomaly_root_cau.Incidents.Scoring.{IncidentAttachmentContext, score_attachment}
use network_anomaly_root_cau.Incidents.Tables.{
  get_evaluation, list_open, list_by_event, create_incident,
}
use network_anomaly_root_cau.Incidents.Manager.{Manager, is_attached, persist_evaluation}
use network_anomaly_root_cau.Incidents.Opening.{
  Considered, attach_lookback, new_incident, opening_entry, opening_context, open_incident,
}
use network_anomaly_root_cau.Incidents.Process.{
  Candidate, attachable, best_from, demote, score_open, persist_all, persist_selected, open_for,
  open_or_exclude, process_anomalies,
}
use network_anomaly_root_cau.Incidents.Since.{
  Since, Since-same, Since-trans, persist_evaluation-Since, is_some-get_evaluation-persist,
}

answer-injective :
    {o only : Option String} {st new : Store}
    → ◌≡◌ {A = Result (Option String × Store)} (ok (o, st)) (ok (only, new))
    → (o ≡ only) × (st ≡ new)
answer-injective e = (cc, cc)

unopened :
    (only : Option String) (st new : Store)
    → ◌≡◌ {A = Result (Option String × Store)} (ok (none, st)) (ok (only, new))
    → Since only st new
unopened only st new e =
    let same = sym (answer-injective e).1 in
    Since-same only st new (ap (λ (s : Store). s.evaluations) same)
      (ap (λ (s : Store). s.incident_events) same)

module _ (m : Manager) where
  attach_lookback-Since :
      (incident : Incident) (context : IncidentAttachmentContext) (cs : List Considered)
      (st new : Store)
      → attach_lookback m incident context cs st ≡ ok new
      → Since (some incident.id) st new
  unfolding attach_lookback
  attach_lookback-Since incident context [] st new e =
      let same = sym (ok-injective e) in
      Since-same _ st new (ap (λ (s : Store). s.evaluations) same)
        (ap (λ (s : Store). s.incident_events) same)
  attach_lookback-Since incident context ((ev, anomalies) ∷ rest) st new e =
      let v =
        score_attachment m.settings m.topology_distance m.catalogue incident ev anomalies context
          true in
      let (next, h1, e1) = >>=-eq-ok (persist_evaluation m incident.id ev anomalies v st) _ e in
      Since-trans _ st next new
        (persist_evaluation-Since (some incident.id) incident.id ev v st next m anomalies
          (λ attached. refl) h1)
        (attach_lookback-Since incident context rest next new e1)

  open_incident-Since :
      (event : Event) (opening : List Anomaly) (entity : Entity) (st new : Store)
      → open_incident m event opening entity st ≡ ok new
      → Since (some m.incident_id) st new
  unfolding open_incident new_incident
  open_incident-Since event opening entity st new e =
      let incident = new_incident m event entity in
      let context = opening_context m event in
      let v =
        score_attachment m.settings m.topology_distance m.catalogue incident event opening context
          false in
      let (incidents, h1, e1) = >>=-eq-ok (create_incident st.entities incident st.incidents) _ e in
      let (logs, h2, e2) =
        >>=-eq-ok (append_audit st.audit_logs (opening_entry m event opening)) _ e1 in
      let created : Store = record st { incidents = incidents; audit_logs = logs } in
      let (opened, h3, e3) =
        >>=-eq-ok (persist_evaluation m incident.id event opening v created) _ e2 in
      Since-trans _ st created new (Since-same _ st created refl refl) (
        Since-trans _ created opened new
          (persist_evaluation-Since (some incident.id) incident.id event v created opened m opening
            (λ attached. refl) h3)
          (attach_lookback-Since incident context _ opened new e3))

  open_for-Since :
      (event : Event) (opening : List Anomaly) (entity : Option Entity) (st new : Store)
      (only : Option String)
      → open_for m event opening entity st ≡ ok (only, new)
      → Since only st new
  unfolding open_for
  open_for-Since event opening none st new only e = unopened only st new e
  open_for-Since event [] (some entity) st new only e = unopened only st new e
  open_for-Since event (a ∷ others) (some entity) st new only e =
      let (opened, h, e1) = >>=-eq-ok (open_incident m event (a ∷ others) entity st) _ e in
      let (same, last) = answer-injective e1 in
      subst (λ o. Since o st new) same
        (open_incident-Since event (a ∷ others) entity st new
          (subst (λ s. open_incident m event (a ∷ others) entity st ≡ ok s) last h))

  module _ (event : Event) (anomalies : List Anomaly) where
    -- the log since, and an evaluation for each candidate
    abbrev Covered : Option String → List Candidate → Store → Store → Type 0
    Covered only cs st new =
        Since only st new
        × All (λ (c : Candidate). is_some (get_evaluation new.evaluations c.0.id event.id) ≡ true)
            cs

    persist_all-Covered :
        (only : Option String) (cs : List Candidate) (st new : Store)
        → All (λ (c : Candidate). is_attached c.1.decision ≡ false) cs
        → persist_all m event anomalies cs st ≡ ok new
        → Covered only cs st new
    unfolding persist_all
    persist_all-Covered only [] st new h e =
        let same = sym (ok-injective e) in
        (
          Since-same _ st new (ap (λ (s : Store). s.evaluations) same)
              (ap (λ (s : Store). s.incident_events) same),
          tt,
        )
    persist_all-Covered only ((i, v) ∷ cs) st new h e =
        let (next, h1, e1) = >>=-eq-ok (persist_evaluation m i.id event anomalies v st) _ e in
        let (since, others) = persist_all-Covered only cs next new h.1 e1 in
        (
          Since-trans _ st next new
              (persist_evaluation-Since only i.id event v st next m anomalies
                (λ attached. cc (h.0, attached)) h1)
              since,
          (
            since.complete i.id event.id
                (is_some-get_evaluation-persist only i.id event v st next m anomalies h1),
            others,
          ),
        )

    demote-attached :
        (selected : String) (c : Candidate)
        → is_attached (demote selected c).decision ≡ true
        → c.0.id ≡ selected
    unfolding demote
    demote-attached selected (i, v) h = elim (Bool-cases (i.id == selected)) [
      | inl same ↦ (eq_iff i.id selected).0 same
      | inr other ↦ elim (Bool-cases (is_attached v.decision)) [
        | inl attached ↦ absurd (false≢true (rw (other, attached) at h))
        | inr excluded ↦ absurd (false≢true (sym excluded ∙ rw (other, excluded) at h))
      ]
    ]

    persist_selected-Covered :
        (selected : String) (cs : List Candidate) (st new : Store)
        → persist_selected m selected event anomalies cs st ≡ ok new
        → Covered (some selected) cs st new
    unfolding persist_selected
    persist_selected-Covered selected [] st new e =
        let same = sym (ok-injective e) in
        (
          Since-same _ st new (ap (λ (s : Store). s.evaluations) same)
              (ap (λ (s : Store). s.incident_events) same),
          tt,
        )
    persist_selected-Covered selected ((i, v) ∷ cs) st new e =
        let w = demote selected (i, v) in
        let (next, h1, e1) = >>=-eq-ok (persist_evaluation m i.id event anomalies w st) _ e in
        let (since, others) = persist_selected-Covered selected cs next new e1 in
        (
          Since-trans _ st next new
              (persist_evaluation-Since (some selected) i.id event w st next m anomalies
                (λ attached. ap some (sym (demote-attached selected (i, v) attached))) h1)
              since,
          (
            since.complete i.id event.id (
                is_some-get_evaluation-persist (some selected) i.id event w st next m anomalies h1),
            others,
          ),
        )

    -- without an attachable candidate none is attached
    none_attached :
        (cs : List Candidate)
        → attachable cs ≡ []
        → All (λ (c : Candidate). is_attached c.1.decision ≡ false) cs
    none_attached [] h = tt
    none_attached (c ∷ cs) h = elim (Bool-cases (is_attached c.1.decision)) [
      | inl attached ↦ ground (arith, h, attached)
      | inr excluded ↦ (excluded, none_attached cs (rw excluded at h))
    ]

    open_or_exclude-Covered :
        (cs : List Candidate) (st new : Store) (only : Option String)
        → All (λ (c : Candidate). is_attached c.1.decision ≡ false) cs
        → open_or_exclude m event anomalies cs st ≡ ok (only, new)
        → Covered only cs st new
    unfolding open_or_exclude
    open_or_exclude-Covered cs st new only h e =
        let (excluded, h1, e1) = >>=-eq-ok (persist_all m event anomalies cs st) _ e in
        let (since, covered) = persist_all-Covered only cs st excluded h h1 in
        let opened = open_for-Since event _ _ excluded new only e1 in
        (
          Since-trans only st excluded new since opened,
          All_imp (λ c known. opened.complete c.0.id event.id known) cs covered,
        )

    All-score_open {ℓ} :
        (P : Incident → Type ℓ) (st : Store) (is : List Incident)
        → All (λ (c : Candidate). P c.0) (score_open m st event anomalies is)
        → All P is
    unfolding score_open
    All-score_open P st [] h = tt
    All-score_open P st (i ∷ is) (h, hs) = (h, All-score_open P st is hs)

  -- what one call of `process_anomalies` has done: every open incident has an evaluation of the event
  pub record Decided (event : Event) (answer : Option String) (st new : Store) : Type 0 where
    pub since : Since answer st new
    pub evaluated :
        All
          (λ (i : Incident). is_some (get_evaluation new.evaluations i.id event.id) ≡ true)
          (list_open st.incidents)

  -- If process_anomalies returns, then the attached events are still those of the log's attached
  -- evaluations, with one evaluation at most for an incident and an event, if they were before; no
  -- evaluation is lost; every new attachment is to the incident that is returned, and there is none
  -- if none is returned; and every incident that was open has an evaluation of the event.
  pub process_anomalies-Decided :
      (anomalies : List Anomaly) (event : Event) (st new : Store) (answer : Option String)
      → process_anomalies m anomalies event st ≡ ok (answer, new)
      → Decided event answer st new
  unfolding process_anomalies
  process_anomalies-Decided anomalies event st new answer e =
      let found = list_by_event anomalies event.id in
      let cs = score_open m st event found (list_open st.incidents) in
      elim (List-cases (attachable cs)) [
        | inl none_left ↦
            let (since, covered) =
              open_or_exclude-Covered event found cs st new answer
                (none_attached event found cs none_left) (rw (process_anomalies, none_left) at e) in
            record {
              since = since;
              evaluated = All-score_open event found _ st (list_open st.incidents) covered;
            }
        | inr (c, (others, some_left)) ↦
            let (next, h, e1) =
              >>=-eq-ok (persist_selected m (best_from c others).0.id event found cs st) _
                (rw (process_anomalies, some_left) at e) in
            let (same, last) = answer-injective e1 in
            let (since, covered) =
              persist_selected-Covered event found (best_from c others).0.id cs st next h in
            rw (sym same, sym last)
              (record {
                since = since;
                evaluated = All-score_open event found _ st (list_open st.incidents) covered;
              })
      ]

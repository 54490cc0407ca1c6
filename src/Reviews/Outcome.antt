-- ===== src/Reviews/Outcome.antt =====
-- The two ways in which `submit` returns: with an earlier review, or with a new one.
use network_anomaly_root_cau.Prelude.{
  String, ◌==◌, Bool, true, none, List, ◌∷◌, ◌≡◌, ◌⊎◌, inl, inr, sym, ap, any, arith, if◌then◌else◌,
  Bool-cases, ◌∙◌, subst,
}
use network_anomaly_root_cau.Prelude.Result.{ok, >>=-eq-ok, ok-injective}
use network_anomaly_root_cau.Db.Tables.{
  Incident, AnalysisRun, Hypothesis, Review, ReviewRequest, Store, AuditWrite,
}
use network_anomaly_root_cau.Db.Repositories.{
  get_by_client_action, incident_by_id, persist_idempotent, append_audit,
}
use network_anomaly_root_cau.Reviews.Service.{
  Ambient, Verdict, previous, accepted, checked, new_row, after_insert, close_incident,
  record_review, submit, respond, conclude, with_review, review_entry, log_status,
}
use network_anomaly_root_cau.Reviews.Accepted.{IsTarget, checked-eq-accepted, required-eq-ok}

-- what a call of `submit` that records a review has established and written
pub record IsRecorded (amb : Ambient) (st : Store) (incident_id : String) (request : ReviewRequest)
    (row : Review) (new : Store) : Type 0 where
  pub incident : Incident
  pub run : AnalysisRun
  pub hypothesis : Hypothesis
  pub unknown : get_by_client_action st.reviews incident_id request.client_action_id ≡ ok none
  pub target : IsTarget st incident_id request incident run hypothesis
  pub row_is : row ≡ new_row amb incident_id request run hypothesis
  pub reviews_are : new.reviews ≡ new_row amb incident_id request run hypothesis ∷ st.reviews
  pub incidents_are :
      close_incident st
        (new_row amb incident_id request run hypothesis ∷ st.reviews)
        incident_id
        request.decision
        run
        hypothesis
      ≡ ok new.incidents
  pub kept : (new.runs ≡ st.runs) × (new.hypotheses ≡ st.hypotheses) × (new.evidence ≡ st.evidence)

-- a row with a new client action is inserted, or refused
persist-fresh :
    (reviews : List Review) (row : Review) (p : (Review × Bool) × List Review)
    → get_by_client_action reviews row.incident_id row.client_action_id ≡ ok none
    → persist_idempotent reviews row ≡ ok p
    → p ≡ ((row, true), row ∷ reviews)
unfolding persist_idempotent
persist-fresh reviews row p fresh e =
    elim (Bool-cases (any (λ (x : Review). x.id == row.id) reviews)) [
      | inl taken ↦ absurd (ground (arith, e, fresh, taken))
      | inr free ↦ ok-injective (sym e ∙ ground (arith, fresh, free))
    ]

module _ (amb : Ambient) (st : Store) (incident_id : String) (request : ReviewRequest) where
  stored :
      (made : Review) (incidents : List Incident) (reviews : List Review) (logs : List AuditWrite)
      (row : Review) (new : Store)
      → respond made (with_review st incidents reviews logs) ≡ respond row new
      → (row ≡ made)
        × (new.reviews ≡ reviews)
        × (new.incidents ≡ incidents)
        × ((new.runs ≡ st.runs) × (new.hypotheses ≡ st.hypotheses) × (new.evidence ≡ st.evidence))
  unfolding with_review
  stored made incidents reviews logs row new e =
      let same = sym (ok-injective e) in
      (
        ap (λ p. p.0) same,
        ap (λ p. p.1.reviews) same,
        ap (λ p. p.1.incidents) same,
        (ap (λ p. p.1.runs) same, ap (λ p. p.1.hypotheses) same, ap (λ p. p.1.evidence) same),
      )

  inserted :
      (i : Incident) (r : AnalysisRun) (h : Hypothesis) (row : Review) (new : Store)
      → get_by_client_action st.reviews incident_id request.client_action_id ≡ ok none
      → IsTarget st incident_id request i r h
      → after_insert amb st request i r h
          (new_row amb incident_id request r h)
          (new_row amb incident_id request r h ∷ st.reviews)
        ≡ respond row new
      → IsRecorded amb st incident_id request row new
  unfolding after_insert
  inserted i r h row new fresh target e =
      let made = new_row amb incident_id request r h in
      let (logs, h1, e1) =
        >>=-eq-ok (append_audit st.audit_logs (review_entry amb request r made)) _ e in
      let (incidents, closed, e2) =
        >>=-eq-ok (close_incident st (made ∷ st.reviews) incident_id request.decision r h) _ e1 in
      let (after, h3, e3) = required-eq-ok (incident_by_id incidents incident_id) _ _ e2 in
      let (all_logs, h4, e4) =
        >>=-eq-ok (log_status amb request r made i.status after.status logs) _ e3 in
      let (row_is, reviews_are, incidents_are, kept) =
        stored made incidents (made ∷ st.reviews) all_logs row new e4 in
      record {
        incident = i;
        run = r;
        hypothesis = h;
        unknown = fresh;
        target = target;
        row_is = row_is;
        reviews_are = reviews_are;
        incidents_are = closed ∙ ap ok (sym incidents_are);
        kept = kept;
      }

  recorded :
      (i : Incident) (r : AnalysisRun) (h : Hypothesis) (row : Review) (new : Store)
      → get_by_client_action st.reviews incident_id request.client_action_id ≡ ok none
      → IsTarget st incident_id request i r h
      → record_review amb st incident_id request i r h ≡ respond row new
      → IsRecorded amb st incident_id request row new
  unfolding record_review
  recorded i r h row new fresh target e =
      let made = new_row amb incident_id request r h in
      let (p, h1, e1) = >>=-eq-ok (persist_idempotent st.reviews made) _ e in
      inserted i r h row new fresh target (
        subst
          (λ q.
            (if q.0.1 then after_insert amb st request i r h q.0.0 q.1 else respond q.0.0 st)
            ≡ respond row new)
          (persist-fresh st.reviews made p fresh h1) e1)

  returned :
      (v : Verdict) (row : Review) (new : Store)
      → checked st incident_id request ≡ ok v
      → conclude amb st incident_id request v ≡ respond row new
      → ((checked st incident_id request ≡ ok (previous row)) × (new ≡ st))
        ⊎ IsRecorded amb st incident_id request row new
  unfolding conclude
  returned (previous old) row new c e =
      inl (c ∙ ap (λ p. ok (previous p.0)) (ok-injective e), sym (ap (λ p. p.1) (ok-injective e)))
  returned (accepted i r h) row new c e =
      let (fresh, target) = checked-eq-accepted st incident_id request i r h c in
      inr (recorded i r h row new fresh target e)

  pub submit-eq-ok :
      (row : Review) (new : Store)
      → submit amb st incident_id request ≡ respond row new
      → ((checked st incident_id request ≡ ok (previous row)) × (new ≡ st))
        ⊎ IsRecorded amb st incident_id request row new
  unfolding submit
  submit-eq-ok row new e =
      let (v, c, rest) = >>=-eq-ok (checked st incident_id request) _ e in returned v row new c rest

-- ===== src/Reviews/Lifecycle.antt =====
-- What a review may do to the status of an incident.
use network_anomaly_root_cau.Prelude.{
  String, Bool, true, false, not, ◌&&◌, some, List, [], ◌∷◌, ◌≡◌, ◌≢◌, refl, inl, inr, sym, ap, ◌∙◌,
  arith, eq_iff, if◌then◌else◌, is_empty,
}
use network_anomaly_root_cau.Prelude.Result.{ok, >>=-eq-ok, raise_if-eq-ok, ok-injective}
use network_anomaly_root_cau.Db.Tables.{
  Incident, AnalysisRun, Hypothesis, Review, ReviewRequest, Store, ReviewDecision, confirmed,
  rejected, evidence_requested,
}
use network_anomaly_root_cau.Db.Repositories.{
  incident_by_id, update_row, update_incident, with_status, with_confirmed, update_status,
  set_confirmed_hypothesis, list_for_run,
}
use network_anomaly_root_cau.Reviews.Service.{
  Ambient, is_closed, all_rejected, close_incident, submit,
}
use network_anomaly_root_cau.Reviews.Outcome.{submit-eq-ok}

module _ (id other : String) (f : Incident → Incident)
    (keeps : (i : Incident) → (f i).id ≡ i.id) where
  update_row-other :
      (is : List Incident)
      → id ≢ other
      → incident_by_id (update_row id f is) other ≡ incident_by_id is other
  update_row-other [] ne = refl
  update_row-other (i ∷ is) ne =
      ground (arith, update_row-other is, keeps i, eq_iff i.id id, eq_iff i.id other)

  update_incident-other :
      (is new : List Incident)
      → id ≢ other
      → update_incident id f is ≡ ok new
      → incident_by_id new other ≡ incident_by_id is other
  unfolding update_incident
  update_incident-other is new ne e =
      let (there, e1) = raise_if-eq-ok _ _ _ e in
      ap (λ xs. incident_by_id xs other) (sym (ok-injective e1)) ∙ update_row-other is ne

rejected-other :
    (incidents : List Incident) (id other : String) (every : Bool) (new : List Incident)
    → id ≢ other
    → (if every then update_status id "rejected" incidents else ok incidents) ≡ ok new
    → incident_by_id new other ≡ incident_by_id incidents other
unfolding update_status
rejected-other incidents id other true new ne e =
    update_incident-other id other (with_status "rejected") (λ i. refl) incidents new ne e
rejected-other incidents id other false new ne e =
    ap (λ is. incident_by_id is other) (sym (ok-injective e))

-- closing an incident leaves every other incident as it was
close_incident-other :
    (st : Store) (reviews : List Review) (id other : String) (d : ReviewDecision) (r : AnalysisRun)
    (h : Hypothesis) (new : List Incident)
    → id ≢ other
    → close_incident st reviews id d r h ≡ ok new
    → incident_by_id new other ≡ incident_by_id st.incidents other
unfolding close_incident set_confirmed_hypothesis
close_incident-other st reviews id other confirmed r h new ne e =
    update_incident-other id other (with_confirmed h.id) (λ i. refl) st.incidents new ne e
close_incident-other st reviews id other rejected r h new ne e =
    let current = list_for_run st.hypotheses r.id in
    let (every, h1, e1) = >>=-eq-ok (all_rejected reviews r.id current) _ e in
    rejected-other st.incidents id other (not (is_empty current) && every) new ne e1
close_incident-other st reviews id other evidence_requested r h new ne e =
    ap (λ is. incident_by_id is other) (sym (ok-injective e))

not-closed :
    (is : List Incident) {incident_id : String} {known : Incident} (id : String) (i : Incident)
    → incident_by_id is id ≡ some i
    → is_closed i.status ≡ true
    → incident_by_id is incident_id ≡ some known
    → is_closed known.status ≡ false
    → incident_id ≢ id
not-closed is id i there closed found active same = cc

-- No call of `submit` that returns changes a resolved or rejected incident, whichever incident it is about.
pub submit-closed :
    (amb : Ambient) (st : Store) (incident_id : String) (request : ReviewRequest) (row : Review)
    (new : Store) (id : String) (i : Incident)
    → incident_by_id st.incidents id ≡ some i
    → is_closed i.status ≡ true
    → submit amb st incident_id request ≡ ok (row, new)
    → incident_by_id new.incidents id ≡ some i
submit-closed amb st incident_id request row new id i there closed e =
    elim (submit-eq-ok amb st incident_id request row new e) [
      | inl (h, same) ↦ ap (λ (s : Store). incident_by_id s.incidents id) same ∙ there
      | inr o ↦
          close_incident-other st _ incident_id id request.decision o.run o.hypothesis new.incidents
            (not-closed st.incidents id i there closed o.target.known o.target.active)
            o.incidents_are
          ∙ there
    ]

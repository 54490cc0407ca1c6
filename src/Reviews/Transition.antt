-- ===== src/Reviews/Transition.antt =====
-- How a review changes the incident that it is about.
use network_anomaly_root_cau.Prelude.{
  find-eq-some, String, ◌==◌, Bool, true, false, not, ◌&&◌, Option, none, some, List, [], ◌∷◌, ◌≡◌,
  refl, ◌⊎◌, inl, inr, sym, ap, ◌∙◌, All, Memᴰ, arith, eq_iff, if◌then◌else◌, Bool-cases, is_empty,
}
use network_anomaly_root_cau.Prelude.Result.{
  Result, ok, err, >>=-eq-ok, raise_if-eq-ok, ok-injective,
}
use network_anomaly_root_cau.Db.Tables.{
  Incident, AnalysisRun, Hypothesis, Review, ReviewRequest, Store, ReviewDecision, confirmed,
  rejected, evidence_requested,
}
use network_anomaly_root_cau.Db.Repositories.{
  incident_by_id, update_row, update_incident, with_status, with_confirmed, update_status,
  set_confirmed_hypothesis, list_for_run, get_terminal_for_hypothesis, is_terminal_for,
}
use network_anomaly_root_cau.Reviews.Service.{
  Ambient, is_closed, and_rejected, all_rejected, close_incident, submit,
}
use network_anomaly_root_cau.Reviews.Accepted.{scalar-selected}
use network_anomaly_root_cau.Reviews.Outcome.{submit-eq-ok}

module _ (id : String) (f : Incident → Incident) (keeps : (i : Incident) → (f i).id ≡ i.id) where
  update_row-same :
      (is : List Incident) (i : Incident)
      → incident_by_id is id ≡ some i
      → incident_by_id (update_row id f is) id ≡ some (f i)
  update_row-same [] i e = cc
  update_row-same (x ∷ is) i e = ground (arith, update_row-same is i, keeps x, eq_iff x.id id)

  update_incident-same :
      (is new : List Incident) (i : Incident)
      → incident_by_id is id ≡ some i
      → update_incident id f is ≡ ok new
      → incident_by_id new id ≡ some (f i)
  unfolding update_incident
  update_incident-same is new i known e =
      let (there, e1) = raise_if-eq-ok _ _ _ e in
      ap (λ xs. incident_by_id xs id) (sym (ok-injective e1)) ∙ update_row-same is i known

-- a review of the table rejects the hypothesis in the run
abbrev pub IsRejected : List Review → String → Hypothesis → Type 0
IsRejected reviews run_id h =
    (r : Review) × Memᴰ r reviews
    × (r.hypothesis_id ≡ h.id)
    × (r.analysis_run_id ≡ run_id)
    × (r.decision ≡ "rejected")

and_rejected-eq-true :
    (q : Result (Option Review)) (rest : Result Bool)
    → and_rejected q rest ≡ ok true
    → ((r : Review) × (q ≡ ok (some r)) × (r.decision ≡ "rejected")) × (rest ≡ ok true)
and_rejected-eq-true (err m) rest e = cc
and_rejected-eq-true (ok none) rest e = absurd (ground (arith, e))
and_rejected-eq-true (ok (some r)) rest e = elim (Bool-cases (r.decision == "rejected")) [
  | inl is ↦ ((r, refl, (eq_iff r.decision "rejected").0 is), ground (arith, e, is))
  | inr other ↦ absurd (ground (arith, e, other))
]

all_rejected-IsRejected :
    (reviews : List Review) (run_id : String) (hs : List Hypothesis)
    → all_rejected reviews run_id hs ≡ ok true
    → All (IsRejected reviews run_id) hs
unfolding all_rejected get_terminal_for_hypothesis
all_rejected-IsRejected reviews run_id [] e = tt
all_rejected-IsRejected reviews run_id (h ∷ hs) e =
    let (found, rest) = and_rejected-eq-true _ (all_rejected reviews run_id hs) e in
    let (r, query, is) = found in
    let (there, selected) = scalar-selected (is_terminal_for h.id run_id) reviews r query in
    (
      (
        r,
        there,
        ground (arith, selected, eq_iff r.hypothesis_id h.id),
        ground (arith, selected, eq_iff r.analysis_run_id run_id),
        is,
      ),
      all_rejected-IsRejected reviews run_id hs rest,
    )

-- what may become of the incident
pub data Transition (request : ReviewRequest) (hypotheses : List Hypothesis) (reviews : List Review)
    (i j : Incident) : Type 0 where
  unchanged : j ≡ i → Transition request hypotheses reviews i j
  resolves :
      is_closed i.status ≡ false
      → request.decision ≡ confirmed
      → j ≡ with_confirmed request.hypothesis_id i
      → Transition request hypotheses reviews i j
  rejects :
      (run_id : String)
      → is_closed i.status ≡ false
      → request.decision ≡ rejected
      → i.current_analysis_run_id ≡ some run_id
      → All (IsRejected reviews run_id) (list_for_run hypotheses run_id)
      → j ≡ with_status "rejected" i
      → Transition request hypotheses reviews i j

rejecting :
    (every : Bool) (id : String) (incidents : List Incident) (i : Incident) (new : List Incident)
    → incident_by_id incidents id ≡ some i
    → (if every then update_status id "rejected" incidents else ok incidents) ≡ ok new
    → ((every ≡ true) × (incident_by_id new id ≡ some (with_status "rejected" i)))
      ⊎ (incident_by_id new id ≡ some i)
unfolding update_status
rejecting true id incidents i new known e =
    inl (refl, update_incident-same id (with_status "rejected") (λ x. refl) incidents new i known e)
rejecting false id incidents i new known e =
    inr (ap (λ xs. incident_by_id xs id) (sym (ok-injective e)) ∙ known)

some-same :
    (id : String) (is : List Incident) (x j : Incident)
    → incident_by_id is id ≡ some x
    → incident_by_id is id ≡ some j
    → j ≡ x
some-same id is x j h k = cc

and-parts : (a b : Bool) → (a && b) ≡ true → b ≡ true
and-parts a b h = ground arith

-- the incident after a transition
abbrev pub Becomes :
    ReviewRequest → List Hypothesis → List Review → List Incident → String → Incident → Type 0
Becomes request hypotheses reviews incidents id i =
    (j : Incident) × (incident_by_id incidents id ≡ some j)
    × Transition request hypotheses reviews i j

module _ (st : Store) (reviews : List Review) (id : String) (request : ReviewRequest) (i : Incident)
    (r : AnalysisRun) (h : Hypothesis) (new : List Incident)
    (known : incident_by_id st.incidents id ≡ some i) (active : is_closed i.status ≡ false)
    (latest : i.current_analysis_run_id ≡ some r.id) (asked : h.id ≡ request.hypothesis_id) where
  closing :
      (d : ReviewDecision)
      → request.decision ≡ d
      → close_incident st reviews id d r h ≡ ok new
      → Becomes request st.hypotheses reviews new id i
  unfolding close_incident set_confirmed_hypothesis
  closing confirmed is e =
      let after =
        update_incident-same id (with_confirmed h.id) (λ x. refl) st.incidents new i known e in
      (with_confirmed h.id i, after, resolves active is (ap (λ x. with_confirmed x i) asked))
  closing evidence_requested is e =
      (i, ap (λ xs. incident_by_id xs id) (sym (ok-injective e)) ∙ known, unchanged refl)
  closing rejected is e =
      let current = list_for_run st.hypotheses r.id in
      let (every, h1, e1) = >>=-eq-ok (all_rejected reviews r.id current) _ e in
      elim (rejecting (not (is_empty current) && every) id st.incidents i new known e1) [
        | inl (all_of, after) ↦ (
          with_status "rejected" i,
          after,
          rejects r.id active is latest
              (all_rejected-IsRejected reviews r.id current
                (h1 ∙ ap ok (and-parts (not (is_empty current)) every all_of)))
              refl,
        )
        | inr after ↦ (i, after, unchanged refl)
      ]

-- When `submit` returns, the incident is what it was; or it was open, the request confirms a hypothesis,
-- and it is resolved with that hypothesis; or it was open, the request rejects a hypothesis, every
-- hypothesis of its current run has a rejection in the table, and it is rejected.
pub submit-Becomes :
    (amb : Ambient) (st : Store) (incident_id : String) (request : ReviewRequest) (row : Review)
    (new : Store) (i : Incident)
    → incident_by_id st.incidents incident_id ≡ some i
    → submit amb st incident_id request ≡ ok (row, new)
    → Becomes request st.hypotheses new.reviews new.incidents incident_id i
submit-Becomes amb st incident_id request row new i known e =
    elim (submit-eq-ok amb st incident_id request row new e) [
      | inl (h, same) ↦ (
        i,
        ap (λ (s : Store). incident_by_id s.incidents incident_id) same ∙ known,
        unchanged refl,
      )
      | inr o ↦
          let (same_run, there, of, now, hyp) = o.target.is_run in
          let found =
            find-eq-some (λ (r : AnalysisRun). r.id == o.target.run_id) st.runs o.run there in
          let named =
            find-eq-some (λ (h : Hypothesis). h.id == request.hypothesis_id) st.hypotheses
              o.hypothesis hyp.0 in
          rw (some-same incident_id st.incidents o.incident i o.target.known known) (
            rw o.reviews_are (
              closing st _ incident_id request o.incident o.run o.hypothesis new.incidents
                o.target.known o.target.active
                (o.target.latest ∙ ap some (sym ((eq_iff o.run.id o.target.run_id).0 found)))
                ((eq_iff o.hypothesis.id request.hypothesis_id).0 named) request.decision refl
                o.incidents_are))
    ]

-- ===== src/Reviews/Accepted.antt =====
-- What the checks of `ReviewService.submit` have established when they let a review through.
use network_anomaly_root_cau.Prelude.{
  String, ◌==◌, Bool, true, false, not, ◌&&◌, Option, none, some, List, [], ◌∷◌, ◌≡◌, refl, inl,
  inr, ap, keep, any, arith, Memᴰ, Memᴰ-keep, ◌≢◌, ◌∙◌, eq_iff, get_or_else, Bool-cases,
}
use network_anomaly_root_cau.Prelude.Result.{
  Result, ok, err, raise_if, ◌>>=◌, ◌>>◌, >>=-eq-ok, raise_if-eq-ok,
}
use network_anomaly_root_cau.Db.Tables.{
  Incident, AnalysisRun, Hypothesis, Evidence, Review, ReviewRequest, Store,
}
use network_anomaly_root_cau.Db.Repositories.{
  scalar_one_or_none, is_missing_in, get_by_client_action, get_terminal_for_hypothesis,
  get_evidence_request_for_item, get_missing_by_id_for_run, incident_by_id, run_by_id,
  hypothesis_by_id,
}
use network_anomaly_root_cau.Reviews.Service.{
  Verdict, accepted, answer_or, required, is_closed, is_request, check_evidence, check_terminal,
  check_decision, check_hypothesis, check_run, check_target, checked,
}

pub required-eq-ok {ℓ κ} :
    {A : Type ℓ} {B : Type κ} (o : Option A) (e : String) (k : A → Result B) {b : B}
    → (required o e >>= k) ≡ ok b
    → (a : A) × (o ≡ some a) × (k a ≡ ok b)
required-eq-ok none e k h = cc
required-eq-ok (some a) e k h = (a, refl, h)

-- a query that returns a row selects it, and one that returns nothing selects nothing
is-some-not-none {ℓ} : {A : Type ℓ} (x : A) (xs : List A) → scalar_one_or_none (x ∷ xs) ≢ ok none
is-some-not-none x [] h = cc
is-some-not-none x (y ∷ ys) h = cc

pub any-eq-false_of_none {ℓ} :
    {A : Type ℓ} (p : A → Bool) (xs : List A)
    → scalar_one_or_none (keep p xs) ≡ ok none
    → any p xs ≡ false
any-eq-false_of_none p [] h = refl
any-eq-false_of_none p (x ∷ xs) h =
    ground (arith, any-eq-false_of_none p xs, is-some-not-none x (keep p xs))

scalar-Memᴰ {ℓ} :
    {A : Type ℓ} (xs : List A) (a : A) → scalar_one_or_none xs ≡ ok (some a) → Memᴰ a xs
scalar-Memᴰ [] a h = cc
scalar-Memᴰ (x ∷ []) a h = Memᴰ.head cc
scalar-Memᴰ (x ∷ y ∷ xs) a h = cc

pub scalar-selected {ℓ} :
    {A : Type ℓ} (p : A → Bool) (xs : List A) (a : A)
    → scalar_one_or_none (keep p xs) ≡ ok (some a)
    → Memᴰ a xs × (p a ≡ true)
scalar-selected p xs a h = Memᴰ-keep p a xs (scalar-Memᴰ (keep p xs) a h)

answer_or-eq-accepted :
    (q : Result (Option Review)) (k : Result Verdict) {i : Incident} {r : AnalysisRun}
    {h : Hypothesis}
    → answer_or q k ≡ ok (accepted i r h)
    → (q ≡ ok none) × (k ≡ ok (accepted i r h))
answer_or-eq-accepted (ok none) k e = (refl, e)
answer_or-eq-accepted (ok (some row)) k e = cc
answer_or-eq-accepted (err m) k e = cc

item-eq-accepted :
    (st : Store) (request : ReviewRequest) (run_id : String) (hypothesis : Hypothesis)
    (item : Evidence) (k : Result Verdict) {i : Incident} {r : AnalysisRun} {h : Hypothesis}
    → (raise_if (not (item.hypothesis_id == hypothesis.id)) "422 VALIDATION_ERROR"
        >> answer_or (get_evidence_request_for_item st.reviews run_id item.id) k)
      ≡ ok (accepted i r h)
    → (get_evidence_request_for_item st.reviews run_id item.id ≡ ok none)
      × (k ≡ ok (accepted i r h))
item-eq-accepted st request run_id hypothesis item k e =
    let (mine, e1) = raise_if-eq-ok _ _ _ e in answer_or-eq-accepted _ k e1

check_evidence-eq-accepted :
    (st : Store) (request : ReviewRequest) (run_id : String) (hypothesis : Hypothesis)
    (k : Result Verdict) {i : Incident} {r : AnalysisRun} {h : Hypothesis}
    → check_evidence st request run_id hypothesis k ≡ ok (accepted i r h)
    → (get_evidence_request_for_item st.reviews run_id
          (get_or_else request.requested_evidence_id "")
        ≡ ok none)
      × (k ≡ ok (accepted i r h))
unfolding check_evidence get_missing_by_id_for_run
check_evidence-eq-accepted st request run_id hypothesis k e =
    let wanted = get_or_else request.requested_evidence_id "" in
    let (o, query, e1) = >>=-eq-ok (get_missing_by_id_for_run st.evidence wanted run_id) _ e in
    let (item, is, e2) = required-eq-ok o _ _ e1 in
    let (fresh, rest) = item-eq-accepted st request run_id hypothesis item k e2 in
    let (there, selected) =
      scalar-selected (is_missing_in wanted run_id) st.evidence item (query ∙ ap ok is) in
    (ground (arith, fresh, eq_iff item.id wanted, selected), rest)

check_terminal-eq-accepted :
    (request : ReviewRequest) (q : Result (Option Review)) (k : Result Verdict) {i : Incident}
    {r : AnalysisRun} {h : Hypothesis}
    → check_terminal request q k ≡ ok (accepted i r h)
    → (q ≡ ok none) × (k ≡ ok (accepted i r h))
unfolding check_terminal
check_terminal-eq-accepted request (ok none) k e = (refl, e)
check_terminal-eq-accepted request (ok (some row)) k e = absurd (ground (arith, e))
check_terminal-eq-accepted request (err m) k e = cc

-- the facts that the checks establish of the decision
pub record IsDecidable (st : Store) (request : ReviewRequest) (run : AnalysisRun)
    (hypothesis : Hypothesis) : Type 0 where
  pub undecided : get_terminal_for_hypothesis st.reviews hypothesis.id run.id ≡ ok none
  pub unrequested :
      is_request request.decision ≡ true
      → get_evidence_request_for_item st.reviews run.id
          (get_or_else request.requested_evidence_id "")
        ≡ ok none

-- the facts of the hypothesis, and of the run
abbrev pub IsHypothesis : Store → String → ReviewRequest → AnalysisRun → Hypothesis → Type 0
IsHypothesis st incident_id request run hypothesis =
    (hypothesis_by_id st.hypotheses request.hypothesis_id ≡ some hypothesis)
    × (hypothesis.incident_id ≡ incident_id)
    × (hypothesis.analysis_run_id ≡ run.id)
    × IsDecidable st request run hypothesis

abbrev pub IsRun : Store → String → ReviewRequest → String → AnalysisRun → Hypothesis → Type 0
IsRun st incident_id request run_id run hypothesis =
    (request.analysis_run_id ≡ run_id)
    × (run_by_id st.runs run_id ≡ some run)
    × (run.incident_id ≡ incident_id)
    × (run.status ≡ "current")
    × IsHypothesis st incident_id request run hypothesis

-- the facts of the incident and of the whole target
pub record IsTarget (st : Store) (incident_id : String) (request : ReviewRequest)
    (incident : Incident) (run : AnalysisRun) (hypothesis : Hypothesis) : Type 0 where
  pub known : incident_by_id st.incidents incident_id ≡ some incident
  pub active : is_closed incident.status ≡ false
  pub run_id : String
  pub latest : incident.current_analysis_run_id ≡ some run_id
  pub is_run : IsRun st incident_id request run_id run hypothesis

-- a verdict's parts
abbrev pub Parts :
    Incident → AnalysisRun → Hypothesis → Incident → AnalysisRun → Hypothesis → Type 0
Parts i r h incident run hypothesis = (i ≡ incident) × (r ≡ run) × (h ≡ hypothesis)

accepted-injective :
    {i incident : Incident} {r run : AnalysisRun} {h hypothesis : Hypothesis}
    → ok (accepted i r h) ≡ ok (accepted incident run hypothesis)
    → Parts i r h incident run hypothesis
accepted-injective e = (cc, cc, cc)

module _ (st : Store) (incident_id : String) (request : ReviewRequest) where
  decided :
      (i incident : Incident) (r run : AnalysisRun) (h hypothesis : Hypothesis)
      → check_decision st request i r h ≡ ok (accepted incident run hypothesis)
      → Parts i r h incident run hypothesis × IsDecidable st request r h
  unfolding check_decision
  decided i incident r run h hypothesis e =
      let (undecided, rest) = check_terminal-eq-accepted request _ _ e in
      elim (Bool-cases (is_request request.decision)) [
        | inl asked ↦
            let (fresh, same) =
              check_evidence-eq-accepted st request r.id h (ok (accepted i r h))
                (ground (arith, rest, asked)) in
            (accepted-injective same, record { undecided = undecided; unrequested = λ _. fresh })
        | inr other ↦ (
          accepted-injective (ground (arith, rest, other)),
          record {
            undecided = undecided;
            unrequested = λ asked. absurd (ground (arith, other, asked));
          },
        )
      ]

  at_hypothesis :
      (i incident : Incident) (r run : AnalysisRun) (hypothesis : Hypothesis)
      → check_hypothesis st incident_id request i r ≡ ok (accepted incident run hypothesis)
      → (i ≡ incident) × (r ≡ run) × IsHypothesis st incident_id request r hypothesis
  unfolding check_hypothesis
  at_hypothesis i incident r run hypothesis e =
      let (h, there, e1) = required-eq-ok _ _ _ e in
      let (fits, e2) = raise_if-eq-ok _ _ _ e1 in
      let ((same_i, same_r, same_h), d) = decided i incident r run h hypothesis e2 in
      (
        same_i,
        same_r,
        rw (← same_h) (
          there,
          ground (arith, fits, eq_iff h.incident_id incident_id),
          ground (arith, fits, eq_iff h.analysis_run_id r.id),
          d,
        ),
      )

  at-IsRun :
      (i incident : Incident) (run_id : String) (run : AnalysisRun) (hypothesis : Hypothesis)
      → check_run st incident_id request i run_id ≡ ok (accepted incident run hypothesis)
      → (i ≡ incident) × IsRun st incident_id request run_id run hypothesis
  unfolding check_run
  at-IsRun i incident run_id run hypothesis e =
      let (same, e1) = raise_if-eq-ok (not (request.analysis_run_id == run_id)) _ _ e in
      let (r, there, e2) = required-eq-ok (run_by_id st.runs run_id) _ _ e1 in
      let (fits, e3) =
        raise_if-eq-ok (not (r.incident_id == incident_id && r.status == "current")) _ _ e2 in
      let (same_i, same_r, hyp) = at_hypothesis i incident r run hypothesis e3 in
      (
        same_i,
        rw (← same_r) (
          ground (arith, same, eq_iff request.analysis_run_id run_id),
          there,
          ground (arith, fits, eq_iff r.incident_id incident_id),
          ground (arith, fits, eq_iff r.status "current"),
          hyp,
        ),
      )

  at-IsTarget :
      (incident : Incident) (run : AnalysisRun) (hypothesis : Hypothesis)
      → check_target st incident_id request ≡ ok (accepted incident run hypothesis)
      → IsTarget st incident_id request incident run hypothesis
  unfolding check_target
  at-IsTarget incident run hypothesis e =
      let (i, there, e1) = required-eq-ok _ _ _ e in
      let (active, e2) = raise_if-eq-ok _ _ _ e1 in
      let (run_id, latest, e3) = required-eq-ok _ _ _ e2 in
      let (same_i, is_run) = at-IsRun i incident run_id run hypothesis e3 in
      rw (← same_i) (record {
        known = there;
        active = active;
        run_id = run_id;
        latest = latest;
        is_run = is_run;
      })

  pub checked-eq-accepted :
      (incident : Incident) (run : AnalysisRun) (hypothesis : Hypothesis)
      → checked st incident_id request ≡ ok (accepted incident run hypothesis)
      → (get_by_client_action st.reviews incident_id request.client_action_id ≡ ok none)
        × IsTarget st incident_id request incident run hypothesis
  unfolding checked
  checked-eq-accepted incident run hypothesis e =
      let (fresh, rest) = answer_or-eq-accepted _ _ e in
      (fresh, at-IsTarget incident run hypothesis rest)

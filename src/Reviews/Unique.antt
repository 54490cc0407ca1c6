-- ===== src/Reviews/Unique.antt =====
-- Which reviews a table may hold together, and what a repeated request returns.
use network_anomaly_root_cau.Prelude.{
  String, ◌==◌, Bool, true, false, not, ◌&&◌, ◌||◌, none, some, List, [], ◌∷◌, ◌≡◌, refl, inl, inr,
  ap, keep, any, arith, eq_iff, get_or_else,
}
use network_anomaly_root_cau.Prelude.Result.{ok}
use network_anomaly_root_cau.Db.Tables.{
  Review, ReviewRequest, Store, ReviewDecision, confirmed, rejected, evidence_requested,
  decision_value,
}
use network_anomaly_root_cau.Db.Repositories.{
  is_this, scalar_one_or_none, is_action, is_terminal_for, is_request_for, is_decided,
  get_by_client_action, get_terminal_for_hypothesis, get_evidence_request_for_item,
}
use network_anomaly_root_cau.Reviews.Service.{
  Ambient, previous, is_request, checked, check_target, answer_or, new_row, submit, conclude,
}
use network_anomaly_root_cau.Reviews.Accepted.{any-eq-false_of_none}
use network_anomaly_root_cau.Reviews.Outcome.{IsRecorded, submit-eq-ok}

abbrev pub is_final : String → Bool
is_final decision = decision == "confirmed" || decision == "rejected"

-- two reviews that may not stand in one table: of one client action, both final for one hypothesis
-- and run, or both requests of one item of evidence in a run
abbrev pub excludes : Review → Review → Bool
excludes a b =
    b.incident_id == a.incident_id && b.client_action_id == a.client_action_id
    || is_final a.decision
      && (b.hypothesis_id == a.hypothesis_id
          && b.analysis_run_id == a.analysis_run_id
          && is_final b.decision)
    || a.decision == "evidence_requested"
      && (b.analysis_run_id == a.analysis_run_id
          && b.decision == "evidence_requested"
          && is_this b.requested_evidence_id (get_or_else a.requested_evidence_id ""))

-- no review of the table excludes another
abbrev pub is_consistent : List Review → Bool
is_consistent [] = true
is_consistent (r ∷ rs) = not (any (excludes r) rs) && is_consistent rs

module _ {ℓ} {A : Type ℓ} where
  any-or : (p q : A → Bool) (xs : List A) → any (λ b. p b || q b) xs ≡ (any p xs || any q xs)
  any-or p q [] = refl
  any-or p q (x ∷ xs) = ground (arith, any-or p q xs)

  any-and : (c : Bool) (p : A → Bool) (xs : List A) → any (λ b. c && p b) xs ≡ (c && any p xs)
  any-and c p [] = ground arith
  any-and c p (x ∷ xs) = ground (arith, any-and c p xs)

  any-three :
      (c d : Bool) (p q r : A → Bool) (xs : List A)
      → any p xs ≡ false
      → (c && any q xs) ≡ false
      → (d && any r xs) ≡ false
      → any (λ b. p b || c && q b || d && r b) xs ≡ false
  any-three c d p q r xs h k l = ground (
    arith,
    any-or p (λ b. c && q b || d && r b) xs,
    any-or (λ b. c && q b) (λ b. d && r b) xs,
    any-and c q xs,
    any-and d r xs,
  )

  none-nil : (xs : List A) → scalar_one_or_none xs ≡ ok none → xs ≡ []
  none-nil [] h = refl
  none-nil (x ∷ []) h = cc
  none-nil (x ∷ y ∷ xs) h = cc

  -- the item that a query selects at the head of a table in which it selects nothing else
  scalar-head :
      (p : A → Bool) (x : A) (xs : List A)
      → p x ≡ true
      → scalar_one_or_none (keep p xs) ≡ ok none
      → scalar_one_or_none (keep p (x ∷ xs)) ≡ ok (some x)
  scalar-head p x xs h k = ground (arith, h, none-nil (keep p xs) k)

request-free :
    (d : ReviewDecision) (x : Bool)
    → (is_request d ≡ true → x ≡ false)
    → (decision_value d == "evidence_requested" && x) ≡ false
request-free confirmed x h = refl
request-free rejected x h = refl
request-free evidence_requested x h = h refl

any-excludes :
    (a : Review) (rs : List Review)
    → any (is_action a.incident_id a.client_action_id) rs ≡ false
    → (is_decided a.decision && any (is_terminal_for a.hypothesis_id a.analysis_run_id) rs) ≡ false
    → (a.decision == "evidence_requested"
        && any (is_request_for a.analysis_run_id (get_or_else a.requested_evidence_id "")) rs)
      ≡ false
    → any (excludes a) rs ≡ false
any-excludes a rs h k l =
    any-three (is_decided a.decision) (a.decision == "evidence_requested")
      (is_action a.incident_id a.client_action_id)
      (is_terminal_for a.hypothesis_id a.analysis_run_id)
      (is_request_for a.analysis_run_id (get_or_else a.requested_evidence_id "")) rs h k l

module _ (amb : Ambient) (st : Store) (incident_id : String) (request : ReviewRequest)
    (row : Review) (new : Store) where
  row-excludes :
      (o : IsRecorded amb st incident_id request row new)
      → any (excludes (new_row amb incident_id request o.run o.hypothesis)) st.reviews ≡ false
  unfolding get_by_client_action get_terminal_for_hypothesis get_evidence_request_for_item
  row-excludes o =
      let (same, there, of, now, hyp) = o.target.is_run in
      let (known, owner, its_run, facts) = hyp in
      let made = new_row amb incident_id request o.run o.hypothesis in
      any-excludes made st.reviews
        (any-eq-false_of_none (is_action incident_id request.client_action_id) st.reviews o.unknown)
        (ground (
          arith,
          any-eq-false_of_none (is_terminal_for o.hypothesis.id o.run.id) st.reviews
              facts.undecided,
        ))
        (request-free request.decision _ (λ asked.
          any-eq-false_of_none
            (is_request_for o.run.id (get_or_else request.requested_evidence_id "")) st.reviews
            (facts.unrequested asked)))

  -- If no two reviews of the table exclude each other, that is, share the client action of an incident,
  -- are both terminal for one hypothesis and run, or both request one item of evidence in a run,
  -- then neither do those of the table that `submit` leaves.
  pub submit-is_consistent :
      is_consistent st.reviews ≡ true
      → submit amb st incident_id request ≡ ok (row, new)
      → is_consistent new.reviews ≡ true
  submit-is_consistent c e = elim (submit-eq-ok amb st incident_id request row new e) [
    | inl (h, same) ↦ rw (ap (λ (s : Store). s.reviews) same) c
    | inr o ↦ rw o.reviews_are (ground (arith, c, row-excludes o))
  ]

  checked-recorded :
      (o : IsRecorded amb st incident_id request row new)
      → checked new incident_id request
        ≡ ok (previous (new_row amb incident_id request o.run o.hypothesis))
  unfolding checked get_by_client_action
  checked-recorded o =
      let made = new_row amb incident_id request o.run o.hypothesis in
      let selects = is_action incident_id request.client_action_id in
      let query : scalar_one_or_none (keep selects new.reviews) ≡ ok (some made) =
        rw o.reviews_are (
          scalar-head selects made st.reviews
            (ground (
              arith,
              eq_iff incident_id incident_id,
              eq_iff request.client_action_id request.client_action_id,
            ))
            o.unknown) in
      ap (λ q. answer_or q (check_target new incident_id request)) query

  -- When `submit` has returned a review, the same request returns the same review and changes nothing,
  -- whatever time it is and whatever review ID comes next.
  pub submit-submit :
      (later : Ambient)
      → submit amb st incident_id request ≡ ok (row, new)
      → submit later new incident_id request ≡ ok (row, new)
  unfolding submit conclude
  submit-submit later e = elim (submit-eq-ok amb st incident_id request row new e) [
    | inl (h, same) ↦ rw same (rw h refl)
    | inr o ↦ rw (checked-recorded o) (rw o.row_is refl)
  ]

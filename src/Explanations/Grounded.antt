-- ===== src/Explanations/Grounded.antt =====
-- What an explanation that backend/app/explanation/validator.py accepts satisfies.
use network_anomaly_root_cau.Prelude.{
  String, ◌==◌, eq_iff, ◌≡◌, sym, ap, ◌∙◌, subst, Bool, true, false, not, ◌&&◌, ◌||◌, Option, none,
  some, List, [], ◌∷◌, ltb, is_empty, contains, is_unique, lookup, insert, lookup-insert, arith,
  and-eq-true, eq-true_of_not, Memᴰ, All, Memᴰ_of_All, All_imp, Bool-cases, Option-cases, ◌⊎◌, inl,
  inr,
}
use network_anomaly_root_cau.Prelude.Result.{
  ok, >>=-eq-ok, raise_if-eq-ok, raise_if-returned, ok-injective,
}
use network_anomaly_root_cau.Contracts.{ExplanationClaim, ExplanationOutput}
use network_anomaly_root_cau.Explanations.Playbooks.{
  PlaybookRecommendation, get_step, get_step-Memᴰ, loaded, load_recommendations,
  load_recommendations-approved,
}
use network_anomaly_root_cau.Explanations.Validator.{
  EvidenceItem, PyWords, Request, is_the, is_unexpected, evidence_by_id, is_in_scope, is_active,
  suits, check_identity, check_evidence_ids, check_claims, check_step, check_steps,
  check_classified, validate_explanation,
}

some-eq : {i j : EvidenceItem} → ◌≡◌ {A = Option EvidenceItem} (some i) (some j) → i ≡ j
some-eq e = cc

-- an entry of the dictionary is an item of the list, under its ID
lookup-evidence_by_id :
    (es : List EvidenceItem) (d : List (String × EvidenceItem)) (id : String) (item : EvidenceItem)
    → lookup id (evidence_by_id es d) ≡ some item
    → (Memᴰ item es × (item.evidence_id ≡ id)) ⊎ (lookup id d ≡ some item)
unfolding evidence_by_id
lookup-evidence_by_id [] d id item e = inr e
lookup-evidence_by_id (x ∷ es) d id item e =
    elim (lookup-evidence_by_id es (insert x.evidence_id x d) id item e) [
      | inl (mem, named) ↦ inl (Memᴰ.tail mem, named)
      | inr older ↦
          let h = sym (lookup-insert x.evidence_id id x d) ∙ older in
          elim (Bool-cases (x.evidence_id == id)) [
            | inl hit ↦
                let same = some-eq (rw hit at h) in
                inl (
                  Memᴰ.head (sym same),
                  ap (λ (i : EvidenceItem). i.evidence_id) (sym same)
                      ∙ (eq_iff x.evidence_id id).0 hit,
                )
            | inr miss ↦ inr (rw miss at h)
          ]
    ]

false_of_or : (a b : Bool) → (a || b) ≡ false → a ≡ false
false_of_or a b h = ground (arith, h)

-- an empty dictionary has no entry
unmixed : {A : Type 0} (id : String) {item : EvidenceItem} → A ⊎ (lookup id [] ≡ some item) → A
unfolding lookup
unmixed id (inl a) = a
unmixed id (inr e) = cc

module _ (words : PyWords) (catalogue : List PlaybookRecommendation) (q : Request) where
  -- an item of the evidence, of the run, the incident and the hypothesis
  pub record IsCited (id : String) : Type 0 where
    pub item : EvidenceItem
    pub is_given : Memᴰ item q.evidence
    pub id_is : item.evidence_id ≡ id
    pub run_is : item.analysis_run_id ≡ q.run.analysis_run_id
    pub incident_is : item.incident_id ≡ q.run.incident_id
    pub hypothesis_is : item.hypothesis_id ≡ q.hypothesis.hypothesis_id

  -- a step of the catalogue, of the type, recommended and applicable
  pub record IsAllowed (expected_type id : String) : Type 0 where
    pub step : PlaybookRecommendation
    pub is_listed : Memᴰ step catalogue
    pub id_is : step.step_id ≡ id
    pub type_is : step.step_type ≡ expected_type
    pub is_recommended : contains q.recommended_ids id ≡ true
    pub is_applicable :
        contains step.applicable_hypothesis_types q.hypothesis.hypothesis_type ≡ true
    pub is_suited : suits step q.candidate_entity_type ≡ true

  check_evidence_ids-IsCited :
      (ids : List String) → check_evidence_ids words catalogue q ids ≡ ok tt → All IsCited ids
  unfolding check_evidence_ids
  check_evidence_ids-IsCited [] e = tt
  check_evidence_ids-IsCited (id ∷ ids) e =
      elim (Option-cases (lookup id (evidence_by_id q.evidence []))) [
        | inl absent ↦ cc (rw (check_evidence_ids, absent) at e)
        | inr (item, present) ↦
            let (scoped, e1) =
              raise_if-eq-ok (not (is_in_scope q.run q.hypothesis item)) _ _
                (rw (check_evidence_ids, present) at e) in
            let (both, third) =
              and-eq-true _ _ (eq-true_of_not (is_in_scope q.run q.hypothesis item) scoped) in
            let (first, second) = and-eq-true _ _ both in
            let (given, named) = unmixed id (lookup-evidence_by_id q.evidence [] id item present) in
            (
              record {
                item = item;
                is_given = given;
                id_is = named;
                run_is = (eq_iff _ _).0 first;
                incident_is = (eq_iff _ _).0 second;
                hypothesis_is = (eq_iff _ _).0 third;
              },
              check_evidence_ids-IsCited ids e1,
            )
      ]

  check_claims-IsCited :
      (cs : List ExplanationClaim)
      → check_claims words catalogue q cs ≡ ok tt
      → All
          (λ (c : ExplanationClaim). (is_empty c.evidence_ids ≡ false) × All IsCited c.evidence_ids)
          cs
  unfolding check_claims
  check_claims-IsCited [] e = tt
  check_claims-IsCited (c ∷ cs) e =
      let (filled, e1) = raise_if-eq-ok (is_empty c.evidence_ids) _ _ e in
      let (u, h, e2) = >>=-eq-ok (check_evidence_ids words catalogue q c.evidence_ids) _ e1 in
      ((filled, check_evidence_ids-IsCited c.evidence_ids h), check_claims-IsCited cs e2)

  check_step-IsAllowed :
      (expected_type id : String) (step : PlaybookRecommendation)
      → get_step catalogue id ≡ some step
      → contains q.recommended_ids id ≡ true
      → check_step words catalogue q expected_type step ≡ ok tt
      → IsAllowed expected_type id
  unfolding check_step
  check_step-IsAllowed expected_type id step found recommended e =
      let (typed, e1) = raise_if-eq-ok (not (step.step_type == expected_type)) _ _ e in
      let (applicable, e2) =
        raise_if-eq-ok
          (not (contains step.applicable_hypothesis_types q.hypothesis.hypothesis_type)) _ _ e1 in
      let suited = raise_if-returned (not (suits step q.candidate_entity_type)) _ e2 in
      let (listed, named) = get_step-Memᴰ catalogue id step found in
      record {
        step = step;
        is_listed = listed;
        id_is = named;
        type_is = (eq_iff _ _).0 (eq-true_of_not _ typed);
        is_recommended = recommended;
        is_applicable = eq-true_of_not _ applicable;
        is_suited = eq-true_of_not _ suited;
      }

  check_steps-IsAllowed :
      (expected_type : String) (ids : List String)
      → check_steps words catalogue q expected_type ids ≡ ok tt
      → All (IsAllowed expected_type) ids
  unfolding check_steps
  check_steps-IsAllowed expected_type [] e = tt
  check_steps-IsAllowed expected_type (id ∷ ids) e =
      let (recommended, e1) = raise_if-eq-ok (not (contains q.recommended_ids id)) _ _ e in
      elim (Option-cases (get_step catalogue id)) [
        | inl absent ↦ cc (rw absent at e1)
        | inr (step, present) ↦
            let (u, h, e2) =
              >>=-eq-ok (check_step words catalogue q expected_type step) _ (rw present at e1) in
            (
              check_step-IsAllowed expected_type id step present (eq-true_of_not _ recommended) h,
              check_steps-IsAllowed expected_type ids e2,
            )
      ]

  -- an accepted explanation
  pub record IsGrounded (p : ExplanationOutput) : Type 0 where
    pub run_is : p.analysis_run_id ≡ q.run.analysis_run_id
    pub incident_is : p.incident_id ≡ q.run.incident_id
    pub hypothesis_is : p.hypothesis_id ≡ q.hypothesis.hypothesis_id
    pub is_probable : words.is_in "probable root cause" (words.lower p.summary) ≡ true
    pub is_unconfirmed : words.is_in "confirmed" (words.lower p.summary) ≡ false
    pub claims_are_cited :
        All
          (λ (c : ExplanationClaim). (is_empty c.evidence_ids ≡ false) × All IsCited c.evidence_ids)
          p.claims
    pub diagnostics_are_allowed : All (IsAllowed "diagnostic") p.diagnostic_step_ids
    pub remediations_are_allowed : All (IsAllowed "remediation") p.remediation_step_ids

  check_identity-IsGrounded :
      (p : ExplanationOutput)
      → check_identity words catalogue q p ≡ ok tt
      → All
          (λ (c : ExplanationClaim). (is_empty c.evidence_ids ≡ false) × All IsCited c.evidence_ids)
          p.claims
      → All (IsAllowed "diagnostic") p.diagnostic_step_ids
      → All (IsAllowed "remediation") p.remediation_step_ids
      → IsGrounded p
  unfolding check_identity
  check_identity-IsGrounded p e cited diagnostics remediations =
      let (a, e1) = raise_if-eq-ok (is_unexpected q.expected_generator p.generator) _ _ e in
      let (b, e2) = raise_if-eq-ok (not (p.analysis_run_id == q.run.analysis_run_id)) _ _ e1 in
      let (c, e3) = raise_if-eq-ok (not (p.incident_id == q.run.incident_id)) _ _ e2 in
      let (d, e4) =
        raise_if-eq-ok (not (q.hypothesis.analysis_run_id == q.run.analysis_run_id)) _ _ e3 in
      let (f, e5) = raise_if-eq-ok (not (q.hypothesis.incident_id == q.run.incident_id)) _ _ e4 in
      let (g, e6) = raise_if-eq-ok (not (p.hypothesis_id == q.hypothesis.hypothesis_id)) _ _ e5 in
      let (h, e7) =
        raise_if-eq-ok
          (q.require_current
            && (not (is_active q.run.status)
                || not (is_the q.current_analysis_run_id q.run.analysis_run_id)))
          _ _ e6 in
      let (i, e8) =
        raise_if-eq-ok
          (not (words.is_in "probable root cause" (words.lower p.summary))
            || ltb (words.word_count p.summary) 8)
          _ _ e7 in
      let j = raise_if-returned (words.is_in "confirmed" (words.lower p.summary)) _ e8 in
      record {
        run_is = (eq_iff _ _).0 (eq-true_of_not _ b);
        incident_is = (eq_iff _ _).0 (eq-true_of_not _ c);
        hypothesis_is = (eq_iff _ _).0 (eq-true_of_not _ g);
        is_probable = eq-true_of_not _ (false_of_or _ _ i);
        is_unconfirmed = j;
        claims_are_cited = cited;
        diagnostics_are_allowed = diagnostics;
        remediations_are_allowed = remediations;
      }

  check_classified-IsAllowed :
      (expected_type : String) (ids : List String)
      → check_classified words catalogue q expected_type ids ≡ ok tt
      → All (IsAllowed expected_type) ids
  unfolding check_classified
  check_classified-IsAllowed expected_type ids e =
      let (unique, e1) = raise_if-eq-ok (not (is_unique ids)) _ _ e in
      check_steps-IsAllowed expected_type ids e1

  -- If the validator accepts an explanation, then it is of the run, its incident and the hypothesis;
  -- its summary speaks of a probable root cause and not of a confirmed one; every claim cites evidence,
  -- and all that it cites is given, of that run, incident and hypothesis; and every diagnostic and
  -- remediation step is a recommended step of the catalogue, of that type, applicable to the hypothesis
  -- and to the type of the entity.
  pub validate_explanation-IsGrounded :
      (parsed : Option ExplanationOutput) (p : ExplanationOutput)
      → validate_explanation words catalogue q parsed ≡ ok p
      → IsGrounded p
  unfolding validate_explanation
  validate_explanation-IsGrounded none p e = cc
  validate_explanation-IsGrounded (some given) p e =
      let (u, h1, e1) = >>=-eq-ok (check_identity words catalogue q given) _ e in
      let (v, h2, e2) = >>=-eq-ok (check_claims words catalogue q given.claims) _ e1 in
      let (w, h3, e3) =
        >>=-eq-ok (check_classified words catalogue q "diagnostic" given.diagnostic_step_ids) _
          e2 in
      let (x, h4, e4) =
        >>=-eq-ok (check_classified words catalogue q "remediation" given.remediation_step_ids) _
          e3 in
      subst IsGrounded (ok-injective e4) (
        check_identity-IsGrounded given h1 (check_claims-IsCited given.claims h2)
          (check_classified-IsAllowed "diagnostic" given.diagnostic_step_ids h3)
          (check_classified-IsAllowed "remediation" given.remediation_step_ids h4))

  -- a step of the catalogue that requires approval
  pub record IsApproved (id : String) : Type 0 where
    pub step : PlaybookRecommendation
    pub is_listed : Memᴰ step catalogue
    pub id_is : step.step_id ≡ id
    pub is_gated : step.requires_human_approval ≡ true

  allowed-IsApproved :
      (expected_type : String)
      → All (λ (r : PlaybookRecommendation). r.requires_human_approval ≡ true) catalogue
      → (id : String) → IsAllowed expected_type id
      → IsApproved id
  allowed-IsApproved expected_type approved id a = record {
    step = a.step;
    is_listed = a.is_listed;
    id_is = a.id_is;
    is_gated =
        Memᴰ_of_All (λ (r : PlaybookRecommendation). r.requires_human_approval ≡ true) catalogue
          a.step approved a.is_listed;
  }

  -- If the catalogue has loaded, then every step of an explanation that the validator accepts is a step
  -- of the catalogue that requires the approval of a human.
  pub validate_explanation-IsApproved :
      (rs : List PlaybookRecommendation) (parsed : Option ExplanationOutput) (p : ExplanationOutput)
      → load_recommendations rs ≡ loaded catalogue
      → validate_explanation words catalogue q parsed ≡ ok p
      → All IsApproved p.diagnostic_step_ids × All IsApproved p.remediation_step_ids
  validate_explanation-IsApproved rs parsed p e h =
      let g = validate_explanation-IsGrounded parsed p h in
      let approved = load_recommendations-approved rs catalogue e in
      (
        All_imp (allowed-IsApproved "diagnostic" approved) p.diagnostic_step_ids
            g.diagnostics_are_allowed,
        All_imp (allowed-IsApproved "remediation" approved) p.remediation_step_ids
            g.remediations_are_allowed,
      )

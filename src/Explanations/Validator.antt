-- ===== src/Explanations/Validator.antt =====
-- `validate_explanation_detailed` of backend/app/explanation/validator.py. An invalid explanation is
-- the error with the reason code.
use network_anomaly_root_cau.Prelude.{
  ℕ, String, ◌==◌, Bool, false, not, ◌&&◌, ◌||◌, Option, none, some, List, [], ◌∷◌, ltb, is_empty,
  contains, is_unique, lookup, insert,
}
use network_anomaly_root_cau.Prelude.Result.{Result, ok, err, raise_if, ◌>>◌}
use network_anomaly_root_cau.Contracts.{ExplanationClaim, ExplanationOutput}
use network_anomaly_root_cau.Explanations.Playbooks.{PlaybookRecommendation, get_step}

-- the fields of the contracts that the validator reads
pub record AnalysisRun : Type 0 where
  pub analysis_run_id : String
  pub incident_id : String
  pub status : String

pub record Hypothesis : Type 0 where
  pub hypothesis_id : String
  pub analysis_run_id : String
  pub incident_id : String
  pub hypothesis_type : String

pub record EvidenceItem : Type 0 where
  pub evidence_id : String
  pub analysis_run_id : String
  pub incident_id : String
  pub hypothesis_id : String

-- `str.lower`, `in` on texts and `len(s.split())` of Python
pub record PyWords : Type 0 where
  pub lower : String → String
  pub is_in : String → String → Bool
  pub word_count : String → ℕ

pub record Request : Type 0 where
  pub run : AnalysisRun
  pub hypothesis : Hypothesis
  pub evidence : List EvidenceItem
  pub recommended_ids : List String
  pub candidate_entity_type : Option String
  pub current_analysis_run_id : Option String
  pub require_current : Bool
  pub expected_generator : Option String

abbrev pub is_the : Option String → String → Bool
is_the none s = false
is_the (some a) s = a == s

abbrev pub is_unexpected : Option String → String → Bool
is_unexpected none generator = false
is_unexpected (some expected) generator = not (generator == expected)

-- `evidence_by_id`, where the last item of an ID stays
unfoldable pub evidence_by_id :
    List EvidenceItem → List (String × EvidenceItem) → List (String × EvidenceItem)
unfolding insert
evidence_by_id [] d = d
evidence_by_id (e ∷ es) d = evidence_by_id es (insert e.evidence_id e d)

abbrev pub is_in_scope : AnalysisRun → Hypothesis → EvidenceItem → Bool
is_in_scope run hypothesis item =
    item.analysis_run_id == run.analysis_run_id
    && item.incident_id == run.incident_id
    && item.hypothesis_id == hypothesis.hypothesis_id

abbrev pub is_active : String → Bool
is_active status = status == "building" || status == "current"

abbrev pub suits : PlaybookRecommendation → Option String → Bool
unfolding contains
suits step none = false
suits step (some entity_type) = contains step.applicable_entity_types entity_type

module _ (words : PyWords) (catalogue : List PlaybookRecommendation) (q : Request) where
  -- the checks of the IDs, of the run and of the wording
  unfoldable pub check_identity : ExplanationOutput → Result (Unit {0})
  check_identity p = do
    raise_if (is_unexpected q.expected_generator p.generator) "GENERATOR_MISMATCH"
    raise_if (not (p.analysis_run_id == q.run.analysis_run_id)) "RUN_ID_MISMATCH"
    raise_if (not (p.incident_id == q.run.incident_id)) "INCIDENT_ID_MISMATCH"
    raise_if (not (q.hypothesis.analysis_run_id == q.run.analysis_run_id)) "HYPOTHESIS_RUN_MISMATCH"
    raise_if (not (q.hypothesis.incident_id == q.run.incident_id)) "HYPOTHESIS_INCIDENT_MISMATCH"
    raise_if (not (p.hypothesis_id == q.hypothesis.hypothesis_id)) "HYPOTHESIS_ID_MISMATCH"
    raise_if
        (q.require_current
          && (not (is_active q.run.status)
              || not (is_the q.current_analysis_run_id q.run.analysis_run_id)))
        "STALE_ANALYSIS_RUN"
    raise_if
        (not (words.is_in "probable root cause" (words.lower p.summary))
          || ltb (words.word_count p.summary) 8)
        "CAUSAL_WORDING_INVALID"
    raise_if (words.is_in "confirmed" (words.lower p.summary)) "CAUSAL_WORDING_INVALID"

  -- the inner loop, over the evidence of a claim
  unfoldable pub check_evidence_ids : List String → Result (Unit {0})
  unfolding evidence_by_id lookup
  check_evidence_ids [] = ok tt
  check_evidence_ids (id ∷ ids) = elim (lookup id (evidence_by_id q.evidence [])) [
    | none ↦ err "EVIDENCE_ID_NOT_FOUND"
    | some item ↦
        raise_if (not (is_in_scope q.run q.hypothesis item)) "EVIDENCE_SCOPE_MISMATCH"
        >> check_evidence_ids ids
  ]

  unfoldable pub check_claims : List ExplanationClaim → Result (Unit {0})
  unfolding check_evidence_ids
  check_claims [] = ok tt
  check_claims (c ∷ cs) = do
    raise_if (is_empty c.evidence_ids) "CLAIM_WITHOUT_EVIDENCE"
    check_evidence_ids c.evidence_ids
    check_claims cs

  -- the checks of one step, and the loop over the steps of a type
  unfoldable pub check_step : String → PlaybookRecommendation → Result (Unit {0})
  unfolding contains
  check_step expected_type step = do
    raise_if (not (step.step_type == expected_type)) "PLAYBOOK_STEP_TYPE_MISMATCH"
    raise_if (not (contains step.applicable_hypothesis_types q.hypothesis.hypothesis_type))
        "PLAYBOOK_STEP_NOT_APPLICABLE"
    raise_if (not (suits step q.candidate_entity_type)) "PLAYBOOK_STEP_NOT_APPLICABLE"

  unfoldable pub check_steps : String → List String → Result (Unit {0})
  unfolding check_step contains
  check_steps expected_type [] = ok tt
  check_steps expected_type (id ∷ ids) = do
    raise_if (not (contains q.recommended_ids id)) "PLAYBOOK_STEP_NOT_RECOMMENDED"
    elim (get_step catalogue id) [
      | none ↦ err "PLAYBOOK_STEP_NOT_WHITELISTED"
      | some step ↦ check_step expected_type step
    ]
    check_steps expected_type ids

  unfoldable pub check_classified : String → List String → Result (Unit {0})
  unfolding check_steps is_unique
  check_classified expected_type ids = do
    raise_if (not (is_unique ids)) "DUPLICATE_PLAYBOOK_STEP"
    check_steps expected_type ids

  -- `validate_explanation_detailed` of what pydantic has parsed, or has refused
  unfoldable pub validate_explanation : Option ExplanationOutput → Result ExplanationOutput
  unfolding check_identity check_claims check_classified
  validate_explanation none = err "SCHEMA_INVALID"
  validate_explanation (some p) = do
    check_identity p
    check_claims p.claims
    check_classified "diagnostic" p.diagnostic_step_ids
    check_classified "remediation" p.remediation_step_ids
    ok p

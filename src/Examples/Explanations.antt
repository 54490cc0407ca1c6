-- ===== src/Examples/Explanations.antt =====
-- An explanation that the validator accepts, and the results applied to it.
use network_anomaly_root_cau.Prelude.{
  ◌==◌, true, none, some, [], ◌∷◌, ◌≡◌, refl, contains, is_unique, lookup, insert, All,
}
use network_anomaly_root_cau.Prelude.Result.{ok}
use network_anomaly_root_cau.Contracts.{ExplanationOutput}
use network_anomaly_root_cau.Explanations.Playbooks.{
  PlaybookRecommendation, loaded, load_recommendations, validation_errors,
}
use network_anomaly_root_cau.Explanations.Validator.{
  PyWords, Request, evidence_by_id, check_identity, check_evidence_ids, check_claims, check_step,
  check_steps, check_classified, validate_explanation,
}
use network_anomaly_root_cau.Explanations.Grounded.{
  IsGrounded, IsApproved, validate_explanation-IsGrounded, validate_explanation-IsApproved,
}

-- texts that the example's summary decides
abbrev words : PyWords
words = record {
  lower = λ s. s;
  is_in = λ part s. part == "probable root cause";
  word_count = λ s. 9;
}

abbrev step : PlaybookRecommendation
step = record {
  step_id = "check_gateway";
  title = "Check the gateway";
  step_type = "diagnostic";
  applicable_hypothesis_types = "gateway_capacity_saturation" ∷ [];
  applicable_entity_types = "gateway" ∷ [];
  preconditions = [];
  instructions = "Look at the dashboard" ∷ [];
  risk_level = "low";
  rollback_note = none;
  requires_human_approval = true;
}

abbrev request : Request
request = record {
  run = record { analysis_run_id = "run_1"; incident_id = "inc_1"; status = "current" };
  hypothesis = record {
    hypothesis_id = "hyp_1";
    analysis_run_id = "run_1";
    incident_id = "inc_1";
    hypothesis_type = "gateway_capacity_saturation";
  };
  evidence =
      record {
        evidence_id = "ev_1";
        analysis_run_id = "run_1";
        incident_id = "inc_1";
        hypothesis_id = "hyp_1";
      }
      ∷ [];
  recommended_ids = "check_gateway" ∷ [];
  candidate_entity_type = some "gateway";
  current_analysis_run_id = some "run_1";
  require_current = true;
  expected_generator = some "template";
}

abbrev explanation : ExplanationOutput
explanation = record {
  analysis_run_id = "run_1";
  incident_id = "inc_1";
  hypothesis_id = "hyp_1";
  generator = "template";
  summary = "The probable root cause is gateway capacity saturation affecting gateway.";
  claims = record { claim = "Observed evidence: slow."; evidence_ids = "ev_1" ∷ [] } ∷ [];
  diagnostic_step_ids = "check_gateway" ∷ [];
  remediation_step_ids = [];
}

load_run : load_recommendations (step ∷ []) ≡ loaded (step ∷ [])
unfolding load_recommendations validation_errors is_unique contains
load_run = refl

validate_run : validate_explanation words (step ∷ []) request (some explanation) ≡ ok explanation
unfolding validate_explanation check_identity check_claims check_evidence_ids check_classified
    check_steps check_step evidence_by_id lookup insert is_unique contains
validate_run = refl

validate_explanation-IsGrounded_example : IsGrounded words (step ∷ []) request explanation
validate_explanation-IsGrounded_example =
    validate_explanation-IsGrounded words (step ∷ []) request (some explanation) explanation
      validate_run

validate_explanation-IsApproved_example :
    All (IsApproved words (step ∷ []) request) explanation.diagnostic_step_ids
    × All (IsApproved words (step ∷ []) request) explanation.remediation_step_ids
validate_explanation-IsApproved_example =
    validate_explanation-IsApproved words (step ∷ []) request (step ∷ []) (some explanation)
      explanation load_run validate_run

-- ===== src/Rca/Ranker/Candidate/Steps.antt =====
-- The steps that a returned score went through.
use network_anomaly_root_cau.Prelude.{ℕ, String, ◌≡◌, List, arith, inl, inr}
use network_anomaly_root_cau.Prelude.Result.{ok, Result-cases}
use network_anomaly_root_cau.Rca.Contracts.{IncidentAnalysisBundle, HypothesisCandidate}
use network_anomaly_root_cau.Rca.Catalogue.{HypothesisDefinition, HypothesisCatalogue, entry}
use network_anomaly_root_cau.Rca.Ranker.Score.{AppliedConflict, score_factors, apply_conflicts}
use network_anomaly_root_cau.Rca.Ranker.Timing.{matched_conflicts}
use network_anomaly_root_cau.Rca.Ranker.Factors.{topology_factor}
use network_anomaly_root_cau.Rca.Ranker.Coverage.{PyText, coverage}
use network_anomaly_root_cau.Rca.Ranker.Candidate.{CandidateScore, base_factors, score_candidate}

module _ (py : PyText) (catalogue : HypothesisCatalogue) where
  -- the score as the last step builds it
  abbrev pub built :
      HypothesisCandidate
      → IncidentAnalysisBundle
      → HypothesisDefinition
      → List (String × ℕ)
      → List AppliedConflict
      → ℕ
      → CandidateScore
  built c bundle e final applied score = record {
    candidate = c;
    factor_scores = final;
    evidence_score = score;
    evidence_coverage = coverage py e bundle c.candidate_entity_id;
    conflicts = applied;
    topology_origin = (topology_factor e c.candidate_entity_id bundle).1;
    topology_path = (topology_factor e c.candidate_entity_id bundle).2;
  }

  pub record Steps (c : HypothesisCandidate) (bundle : IncidentAnalysisBundle) (s : CandidateScore)
      : Type 0 where
    pub definition : HypothesisDefinition
    pub known : entry catalogue c.hypothesis_type ≡ ok definition
    pub base : List (String × ℕ)
    pub computed : base_factors py catalogue definition c.candidate_entity_id bundle ≡ ok base
    pub final : List (String × ℕ)
    pub applied : List AppliedConflict
    pub done :
        apply_conflicts base (matched_conflicts bundle definition.conflict_patterns)
        ≡ ok (final, applied)
    pub score : ℕ
    pub scored : score_factors final ≡ ok score
    pub given : built c bundle definition final applied score ≡ s

  pub steps :
      (c : HypothesisCandidate) (bundle : IncidentAnalysisBundle) (s : CandidateScore)
      → score_candidate py catalogue c bundle ≡ ok s
      → Steps c bundle s
  unfolding score_candidate
  steps c bundle s r = elim (Result-cases (entry catalogue c.hypothesis_type)) [
    | inr (m, failed) ↦ absurd (ground arith)
    | inl (e, known) ↦
        elim (Result-cases (base_factors py catalogue e c.candidate_entity_id bundle)) [
          | inr (m, failed) ↦ absurd (ground arith)
          | inl (base, computed) ↦
              elim (Result-cases
                (apply_conflicts base (matched_conflicts bundle e.conflict_patterns))) [
                  | inr (m, failed) ↦ absurd (ground arith)
                  | inl ((final, applied), done) ↦ elim (Result-cases (score_factors final)) [
                    | inr (m, failed) ↦ absurd (ground arith)
                    | inl (score, scored) ↦ record {
                      definition = e;
                      known = known;
                      base = base;
                      computed = computed;
                      final = final;
                      applied = applied;
                      done = done;
                      score = score;
                      scored = scored;
                      given = ground arith;
                    }
                  ]
                ]
        ]
  ]

-- ===== src/Rca/Ranker/Candidate/Scored.antt =====
-- What a score of `score_candidate` in backend/app/rca/ranker.py consists of.
use network_anomaly_root_cau.Prelude.{ℕ, ◌≤◌, String, ◌≡◌, refl, ◌∙◌, List, keys}
use network_anomaly_root_cau.Prelude.Result.{ok}
use network_anomaly_root_cau.Rca.Contracts.{IncidentAnalysisBundle, HypothesisCandidate}
use network_anomaly_root_cau.Rca.Catalogue.{HypothesisDefinition, HypothesisCatalogue, entry}
use network_anomaly_root_cau.Rca.Ranker.Score.{weights, score_factors}
use network_anomaly_root_cau.Rca.Ranker.Timing.{matched_conflicts}
use network_anomaly_root_cau.Rca.Ranker.Coverage.{PyText, coverage-le}
use network_anomaly_root_cau.Rca.Ranker.Candidate.{CandidateScore, base_factors, score_candidate}
use network_anomaly_root_cau.Rca.Ranker.Candidate.Steps.{steps}
use network_anomaly_root_cau.Rca.Ranker.Candidate.Bounds.{
  Lowered, apply_conflicts-Lowered, score_factors-le,
}
use network_anomaly_root_cau.Rca.Ranker.Candidate.Base.{InRange, base_factors-Bounded}

module _ (py : PyText) (catalogue : HypothesisCatalogue) where
  -- the contract of a scored candidate; `base` are its factors before the conflicts
  pub record IsScored (c : HypothesisCandidate) (bundle : IncidentAnalysisBundle)
      (s : CandidateScore) : Type 0 where
    pub same : s.candidate ≡ c
    pub definition : HypothesisDefinition
    pub known : entry catalogue c.hypothesis_type ≡ ok definition
    pub base : List (String × ℕ)
    pub computed : base_factors py catalogue definition c.candidate_entity_id bundle ≡ ok base
    pub lowered : Lowered base s.factor_scores
    pub names : keys s.factor_scores ≡ keys weights
    pub score : score_factors s.factor_scores ≡ ok s.evidence_score
    pub score_bound : s.evidence_score ≤ 1000
    pub coverage_bound : s.evidence_coverage.available ≤ s.evidence_coverage.expected

  -- A score that `score_candidate` returns is of its candidate, by the definition of its type; its
  -- factors are named as the rubric, lie between 0 and 1, and none is above its value before the
  -- conflicts; its score is the rubric's of these factors, and at most 100.0; and the evidence
  -- that is available does not exceed the evidence expected. The scores and similarities of the
  -- bundle are taken to be at most 1.0, as their contracts demand.
  pub score_candidate-IsScored :
      (c : HypothesisCandidate) (bundle : IncidentAnalysisBundle) (s : CandidateScore)
      → InRange bundle
      → score_candidate py catalogue c bundle ≡ ok s
      → IsScored c bundle s
  score_candidate-IsScored c bundle s h r =
      let st = steps py catalogue c bundle s r in
      let bounded =
        base_factors-Bounded py catalogue st.definition c.candidate_entity_id bundle st.base h
          st.computed in
      let low =
        apply_conflicts-Lowered st.base (matched_conflicts bundle st.definition.conflict_patterns)
          st.final st.applied bounded.0 st.done in
      rw (← st.given) (record {
        same = refl;
        definition = st.definition;
        known = st.known;
        base = st.base;
        computed = st.computed;
        lowered = low;
        names = low.same_keys ∙ bounded.1;
        score = st.scored;
        score_bound = score_factors-le st.final st.score low.bounded st.scored;
        coverage_bound = coverage-le py st.definition bundle c.candidate_entity_id;
      })

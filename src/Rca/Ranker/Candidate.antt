-- ===== src/Rca/Ranker/Candidate.antt =====
-- `RootCauseRanker` of backend/app/rca/ranker.py: the score of one candidate, and the ranking.
pub mod Bounds
pub mod Base
pub mod Steps
pub mod Scored
pub mod Order
use network_anomaly_root_cau.Prelude.{
  ℕ, suc, ◌+◌, String, ◌==◌, Bool, true, false, not, ◌&&◌, ◌||◌, Option, none, some, List, [], ◌∷◌,
  map, lookup, insert, sort_by, ltb, eqb, if◌then◌else◌, get_or_else,
}
use network_anomaly_root_cau.Prelude.Result.{Result, ok, err, ◌>>=◌}
use network_anomaly_root_cau.Contracts.{CanonicalEvent, EvidenceCoverage}
use network_anomaly_root_cau.Rca.Contracts.{IncidentAnalysisBundle, HypothesisCandidate}
use network_anomaly_root_cau.Rca.Catalogue.{
  HypothesisDefinition, HypothesisCatalogue, ConflictPattern, entry,
}
use network_anomaly_root_cau.Rca.Events.{text_le}
use network_anomaly_root_cau.Rca.Ranker.Score.{AppliedConflict, score_factors, apply_conflicts}
use network_anomaly_root_cau.Rca.Ranker.Factors.{
  topology_factor, symptom_factor, propagation_factor, metric_anomaly_factor,
}
use network_anomaly_root_cau.Rca.Ranker.Timing.{
  matched_conflicts, candidate_signal, change_causal_fit, temporal_factor, first_symptom_event,
  historical_factor,
}
use network_anomaly_root_cau.Rca.Ranker.Observations.{direct_log_alert_factor}
use network_anomaly_root_cau.Rca.Ranker.Coverage.{PyText, coverage}

pub record CandidateScore : Type 0 where
  pub candidate : HypothesisCandidate
  pub factor_scores : List (String × ℕ)
  pub evidence_score : ℕ
  pub evidence_coverage : EvidenceCoverage
  pub conflicts : List AppliedConflict
  pub topology_origin : Option String
  pub topology_path : List String

-- `{entry.hypothesis_type: index ...}`
unfoldable pub catalogue_order :
    List (String × ℕ) → ℕ → List HypothesisDefinition → List (String × ℕ)
unfolding insert
catalogue_order d i [] = d
catalogue_order d i (e ∷ es) = catalogue_order (insert e.hypothesis_type i d) (i + 1) es

module _ (catalogue : HypothesisCatalogue) where
  -- `catalogue_order[type]`; every scored candidate has an entry, so the default is never read
  unfoldable pub order_of : String → ℕ
  unfolding lookup catalogue_order
  order_of t = get_or_else (lookup t (catalogue_order [] 0 catalogue.hypotheses)) 0

  -- the sort key: the higher score first, then the place in the catalogue, then the entity
  unfoldable pub rank_le : CandidateScore → CandidateScore → Bool
  rank_le a b =
      let i = order_of a.candidate.hypothesis_type in
      let j = order_of b.candidate.hypothesis_type in
      ltb b.evidence_score a.evidence_score
      || eqb a.evidence_score b.evidence_score
        && (ltb i j
            || eqb i j && text_le a.candidate.candidate_entity_id b.candidate.candidate_entity_id)

module _ (py : PyText) (catalogue : HypothesisCatalogue) where
  -- the dictionary `factors` before the conflicts
  unfoldable pub base_factors :
      HypothesisDefinition → String → IncidentAnalysisBundle → Result (List (String × ℕ))
  base_factors e id bundle = do
    let (topology, origin, topology_path) = topology_factor e id bundle
    let matched = matched_conflicts bundle e.conflict_patterns
    let signal = candidate_signal py.py_str e id bundle
    symptoms ← symptom_factor e catalogue bundle
    propagation ← propagation_factor e catalogue bundle
    ok (
        ("symptom_compatibility", symptoms)
        ∷ ("topology_relevance", topology)
        ∷ ("direct_logs_alerts", direct_log_alert_factor bundle id)
        ∷ ("propagation_consistency", propagation)
        ∷ ("metric_anomaly", metric_anomaly_factor e id bundle topology_path)
        ∷ ("change_causal_fit", change_causal_fit py.py_str e id bundle topology_path matched)
        ∷ ("temporal_proximity", temporal_factor signal (first_symptom_event bundle))
        ∷ ("historical_similarity", historical_factor e bundle)
        ∷ [])

  -- `score_candidate`
  unfoldable pub score_candidate :
      HypothesisCandidate → IncidentAnalysisBundle → Result CandidateScore
  score_candidate c bundle = do
    e ← entry catalogue c.hypothesis_type
    factors ← base_factors e c.candidate_entity_id bundle
    (final, applied) ← apply_conflicts factors (matched_conflicts bundle e.conflict_patterns)
    score ← score_factors final
    let (topology, origin, topology_path) = topology_factor e c.candidate_entity_id bundle
    ok (record {
      candidate = c;
      factor_scores = final;
      evidence_score = score;
      evidence_coverage = coverage py e bundle c.candidate_entity_id;
      conflicts = applied;
      topology_origin = origin;
      topology_path = topology_path;
    })

  -- `[self.score_candidate(candidate, bundle) for candidate in candidates]`
  unfoldable pub score_all :
      List HypothesisCandidate → IncidentAnalysisBundle → Result (List CandidateScore)
  score_all [] bundle = ok []
  score_all (c ∷ cs) bundle = do
    s ← score_candidate c bundle
    rest ← score_all cs bundle
    ok (s ∷ rest)

  -- `rank`
  unfoldable pub rank :
      List HypothesisCandidate → IncidentAnalysisBundle → Result (List CandidateScore)
  rank candidates bundle = do
    scored ← score_all candidates bundle
    ok (sort_by (rank_le catalogue) scored)

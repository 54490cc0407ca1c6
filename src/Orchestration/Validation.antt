-- ===== src/Orchestration/Validation.antt =====
-- `_validate_analysis_result`, `_validate_explanation_rows` and the checks of `AnalysisResult` of
-- backend/app/orchestration/orchestrator.py.
use network_anomaly_root_cau.Prelude.{
  ℕ, ◌+◌, String, ◌==◌, Bool, true, false, not, ◌&&◌, ◌||◌, Option, List, [], ◌∷◌, ◌++◌, map, keep,
  any, all, leb, eqb, is_empty, contains, is_unique, sort_by, insert_by,
}
use network_anomaly_root_cau.Prelude.Result.{Result, ok, raise_if, ◌>>◌}
use network_anomaly_root_cau.Contracts.{Fields, ExplanationOutput, TopologyRelation, is_relation}
use network_anomaly_root_cau.Rca.Contracts.{TopologyStates, TopologyNodeState, TopologyEdgeState}
use network_anomaly_root_cau.Db.Tables.{Hypothesis, Evidence, PlaybookRecommendation}

pub record ExplanationDraft : Type 0 where
  pub output : ExplanationOutput
  pub validated : Bool

pub record AnalysisResult : Type 0 where
  pub hypotheses : List Hypothesis
  pub evidence_rows : List Evidence
  pub recommendation_rows : List PlaybookRecommendation
  pub explanation_rows : List ExplanationDraft
  pub explanation_fallback_reason : Option String
  pub explanation_fallback_attempt_count : ℕ
  pub topology_states : TopologyStates
  pub typed_paths : List (String × List String)
  pub conflict_reason_codes : List String
  pub evidence_requirements : List (String × List String)
  pub topology_snapshot : Fields

-- the topology graph and the catalogue's conflict patterns, which are loaded once
pub record Known : Type 0 where
  pub node_ids : List String
  pub edges : List (String × String × TopologyRelation)
  pub conflict_codes : List String

-- `list(range(n, n + len(ranks)))`
abbrev pub counts_from : ℕ → List ℕ → Bool
counts_from n [] = true
counts_from n (r ∷ rs) = eqb r n && counts_from (n + 1) rs

unfoldable pub is_consecutive : List ℕ → Bool
unfolding sort_by insert_by
is_consecutive ranks = counts_from 1 (sort_by leb ranks)

abbrev pub is_subset : List String → List String → Bool
unfolding contains
is_subset xs ys = all (λ x. contains ys x) xs

abbrev pub ids_of : List Hypothesis → List String
ids_of hypotheses = map (λ (h : Hypothesis). h.id) hypotheses

abbrev pub is_in_edges : TopologyEdgeState → List (String × String × TopologyRelation) → Bool
is_in_edges s [] = false
is_in_edges s ((a, b, r) ∷ rest) =
    s.source == a && s.target == b && is_relation s.relation_type r || is_in_edges s rest

abbrev pub is_same_edge : TopologyEdgeState → TopologyEdgeState → Bool
is_same_edge a b =
    a.source == b.source && a.target == b.target && is_relation a.relation_type b.relation_type

-- the loops over the states, with the variables `seen_nodes` and `seen_edges`
unfoldable pub check_nodes : List String → List String → List TopologyNodeState → Result (Unit {0})
unfolding contains
check_nodes node_ids seen [] = ok tt
check_nodes node_ids seen (s ∷ rest) = do
  raise_if (not (contains node_ids s.entity_id)) "topology state references an unknown entity"
  raise_if (contains seen s.entity_id) "topology node state is duplicated"
  check_nodes node_ids (s.entity_id ∷ seen) rest

unfoldable pub check_edges :
    List (String × String × TopologyRelation)
    → List TopologyEdgeState
    → List TopologyEdgeState
    → Result (Unit {0})
check_edges edges seen [] = ok tt
check_edges edges seen (s ∷ rest) = do
  raise_if (not (is_in_edges s edges)) "topology state references an unknown typed edge"
  raise_if (any (is_same_edge s) seen) "topology edge state is duplicated"
  check_edges edges (s ∷ seen) rest

unfoldable pub check_paths : List String → List (String × List String) → Result (Unit {0})
unfolding contains
check_paths node_ids [] = ok tt
check_paths node_ids ((name, path) ∷ rest) = do
  raise_if (name == "") "typed path names must not be empty"
  raise_if (is_empty path || any (λ id. not (contains node_ids id)) path)
      "typed path references an unknown topology entity"
  check_paths node_ids rest

-- `conflicting_codes`
abbrev pub conflicting_codes : List Evidence → List String
conflicting_codes rows =
    map (λ (e : Evidence). e.reason_code) (keep (λ (e : Evidence). e.kind == "conflicting") rows)

-- the loops over the rows of the result
module _ (run_id incident_id : String) where
  unfoldable pub check_hypotheses : List Hypothesis → Result (Unit {0})
  check_hypotheses [] = ok tt
  check_hypotheses (h ∷ rest) = do
    raise_if (not (h.analysis_run_id == run_id))
        "hypothesis analysis_run_id does not match pending run"
    raise_if (not (h.incident_id == incident_id))
        "hypothesis incident_id does not match pending incident"
    check_hypotheses rest

  unfoldable pub check_evidence : List String → List Evidence → Result (Unit {0})
  unfolding contains
  check_evidence ids [] = ok tt
  check_evidence ids (e ∷ rest) = do
    raise_if (not (e.analysis_run_id == run_id))
        "evidence analysis_run_id does not match pending run"
    raise_if (not (e.incident_id == incident_id))
        "evidence incident_id does not match pending incident"
    raise_if (not (contains ids e.hypothesis_id))
        "evidence references an unknown pending hypothesis"
    check_evidence ids rest

  unfoldable pub check_recommendations :
      List String → List PlaybookRecommendation → Result (Unit {0})
  unfolding contains
  check_recommendations ids [] = ok tt
  check_recommendations ids (r ∷ rest) = do
    raise_if (not (r.analysis_run_id == run_id))
        "recommendation analysis_run_id does not match pending run"
    raise_if (not (r.incident_id == incident_id))
        "recommendation incident_id does not match pending incident"
    raise_if (not (contains ids r.hypothesis_id))
        "recommendation references an unknown pending hypothesis"
    check_recommendations ids rest

  unfoldable pub check_rows : AnalysisResult → Result (Unit {0})
  unfolding is_unique is_consecutive check_hypotheses check_evidence check_recommendations
  check_rows r = do
    raise_if (not (is_unique (ids_of r.hypotheses))) "analysis result hypothesis IDs must be unique"
    raise_if (not (is_consecutive (map (λ (h : Hypothesis). h.rank) r.hypotheses)))
        "analysis result ranks must be unique and consecutive"
    check_hypotheses r.hypotheses
    check_evidence (ids_of r.hypotheses) r.evidence_rows
    check_recommendations (ids_of r.hypotheses) r.recommendation_rows

unfoldable pub check_codes : Known → AnalysisResult → Result (Unit {0})
unfolding is_unique contains
check_codes known r = do
  raise_if (not (is_subset r.conflict_reason_codes known.conflict_codes))
      "analysis result contains a non-catalogue conflict code"
  raise_if (not (is_subset r.conflict_reason_codes (conflicting_codes r.evidence_rows)))
      "declared conflict code has no conflicting evidence row"
  raise_if
      (not (
        is_subset (map (λ (e : String × List String). e.0) r.evidence_requirements)
          (ids_of r.hypotheses ++ map (λ (h : Hypothesis). h.type) r.hypotheses)))
      "evidence requirements reference an unknown hypothesis"
  raise_if (not (all (λ (e : String × List String). is_unique e.1) r.evidence_requirements))
      "evidence requirements must be unique per hypothesis"
  ok tt

unfoldable pub validate_analysis_result :
    Known → String → String → AnalysisResult → Result (Unit {0})
unfolding check_rows check_codes check_nodes check_edges check_paths
validate_analysis_result known run_id incident_id r = do
  check_rows run_id incident_id r
  check_codes known r
  check_nodes known.node_ids [] r.topology_states.nodes
  check_edges known.edges [] r.topology_states.edges
  check_paths known.node_ids r.typed_paths

abbrev pub same_identity : ExplanationDraft → ExplanationDraft → Bool
same_identity a b =
    a.output.generator == b.output.generator && a.output.hypothesis_id == b.output.hypothesis_id

-- the loop of `_validate_explanation_rows`
unfoldable pub check_drafts :
    String
    → String
    → List String
    → List ExplanationDraft
    → List ExplanationDraft
    → Result (Unit {0})
unfolding contains
check_drafts run_id incident_id ids seen [] = ok tt
check_drafts run_id incident_id ids seen (d ∷ rest) = do
  raise_if (not d.validated) "unvalidated explanation drafts cannot be published"
  raise_if (not (d.output.analysis_run_id == run_id))
      "explanation analysis_run_id does not match pending run"
  raise_if (not (d.output.incident_id == incident_id))
      "explanation incident_id does not match pending incident"
  raise_if (not (contains ids d.output.hypothesis_id))
      "explanation hypothesis_id is not part of the pending run"
  raise_if (any (same_identity d) seen) "duplicate explanation generator for the same hypothesis"
  check_drafts run_id incident_id ids (d ∷ seen) rest

unfoldable pub validate_explanation_rows : String → String → AnalysisResult → Result (Unit {0})
unfolding check_drafts
validate_explanation_rows run_id incident_id r = do
  raise_if (is_empty r.explanation_rows) "analysis result must include a template explanation"
  check_drafts run_id incident_id (ids_of r.hypotheses) [] r.explanation_rows
  raise_if
      (not (any (λ (d : ExplanationDraft). d.output.generator == "template") r.explanation_rows))
      "analysis result must retain a template explanation"
  ok tt

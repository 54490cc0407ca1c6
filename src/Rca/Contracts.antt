-- ===== src/Rca/Contracts.antt =====
-- backend/app/rca/contracts.py: the immutable values at the boundary of the engine, and the
-- validators that run when one of them is built.
use network_anomaly_root_cau.Prelude.{
  ℕ, String, ◌==◌, not, ◌||◌, List, [], ◌∷◌, map, any, contains, is_unique, intersects, ltb,
}
use network_anomaly_root_cau.Prelude.Result.{Result, ok, raise_if, ◌>>◌}
use network_anomaly_root_cau.Contracts.{
  unit, CanonicalEvent, AnomalyRecord, EvidenceCoverage, TopologyRelation,
}

pub data IncidentStatus : Type 0 where
  opened investigating resolved rejected : IncidentStatus

pub record IncidentSnapshot : Type 0 where
  pub incident_id : String
  pub status : IncidentStatus
  pub primary_entity_id : String
  pub affected_entity_ids : List String

pub record EventEvaluation : Type 0 where
  pub event : CanonicalEvent
  pub attachment_reasons : List String

pub record RcaTopologyNode : Type 0 where
  pub entity_id : String
  pub entity_type : String

pub record RcaTopologyEdge : Type 0 where
  pub source : String
  pub target : String
  pub relation_type : TopologyRelation

pub record RcaTopologySnapshot : Type 0 where
  pub nodes : List RcaTopologyNode
  pub edges : List RcaTopologyEdge

abbrev pub node_ids : RcaTopologySnapshot → List String
node_ids t = map (λ n. n.entity_id) t.nodes

-- the loop over the edges in `RcaTopologySnapshot.validate_edges`
check_edges : List String → List RcaTopologyEdge → Result (Unit {0})
check_edges ids [] = ok tt
check_edges ids (e ∷ es) = do
  raise_if (e.source == e.target) "topology self-edges are not allowed"
  raise_if (not (contains ids e.source) || not (contains ids e.target))
      "topology edge endpoint does not resolve"
  check_edges ids es

unfoldable pub validate_edges : RcaTopologySnapshot → Result RcaTopologySnapshot
unfolding check_edges
validate_edges t = do
  raise_if (not (is_unique (node_ids t))) "topology node IDs must be unique"
  check_edges (node_ids t) t.edges
  ok t

pub record HistoricalMatch : Type 0 where
  pub historical_incident_id : String
  pub confirmed_cause : String
  pub similarity : ℕ

pub record IncidentAnalysisBundle : Type 0 where
  pub incident : IncidentSnapshot
  pub attached_events : List CanonicalEvent
  pub anomalies : List AnomalyRecord
  pub excluded_evaluations : List EventEvaluation
  pub topology : RcaTopologySnapshot
  pub historical_matches : List HistoricalMatch

abbrev pub attached_ids : IncidentAnalysisBundle → List String
attached_ids b = map (λ (e : CanonicalEvent). e.event_id) b.attached_events

unfoldable pub validate_event_partitions : IncidentAnalysisBundle → Result IncidentAnalysisBundle
validate_event_partitions b = do
  let excluded_ids = map (λ (x : EventEvaluation). x.event.event_id) b.excluded_evaluations
  raise_if (not (is_unique (attached_ids b))) "attached event IDs must be unique"
  raise_if (intersects (attached_ids b) excluded_ids) "an excluded event cannot be attached"
  raise_if (any (λ (a : AnomalyRecord). not (contains (attached_ids b) a.event_id)) b.anomalies)
      "incident anomalies must reference attached events"
  ok b

pub record HypothesisCandidate : Type 0 where
  pub candidate_id : String
  pub hypothesis_type : String
  pub candidate_entity_id : String
  pub generation_reason_codes : List String

-- `evidence_score` in tenths: 0 to 1000
pub record RankedHypothesis : Type 0 where
  pub hypothesis_id : String
  pub candidate_id : String
  pub hypothesis_type : String
  pub candidate_entity_id : String
  pub rank : ℕ
  pub evidence_score : ℕ
  pub evidence_coverage : EvidenceCoverage
  pub factor_scores : List (String × ℕ)
  pub summary : String

unfoldable pub validate_factors : RankedHypothesis → Result RankedHypothesis
validate_factors r = do
  raise_if (any (λ f. ltb unit f.1) r.factor_scores) "factor scores must be between 0.0 and 1.0"
  ok r

pub record ConflictEvidenceDraft : Type 0 where
  pub hypothesis_id : String
  pub source_event_id : String
  pub statement : String
  pub relevance : ℕ
  pub reason_code : String

pub data NodeState : Type 0 where
  suspected_root primary_affected impact_path blast_radius : NodeState

pub data EdgeState : Type 0 where
  impact_path blast_radius : EdgeState

pub record TopologyNodeState : Type 0 where
  pub entity_id : String
  pub state : NodeState

pub record TopologyEdgeState : Type 0 where
  pub source : String
  pub target : String
  pub relation_type : TopologyRelation
  pub state : EdgeState

pub record TopologyStates : Type 0 where
  pub nodes : List TopologyNodeState
  pub edges : List TopologyEdgeState

pub record RcaComputationResult : Type 0 where
  pub candidates : List HypothesisCandidate
  pub ranked_hypotheses : List RankedHypothesis
  pub conflict_evidence : List ConflictEvidenceDraft
  pub conflict_reason_codes : List String
  pub topology_states : TopologyStates
  pub typed_paths : List (String × List String)
  pub evidence_requirements : List (String × List String)

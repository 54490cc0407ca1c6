-- ===== src/Rca/Engine.antt =====
-- `AnalysisEngine` of backend/app/rca/analysis_engine.py: generation, ranking, and the result with its
-- evidence, paths and topology states.
pub mod States
use network_anomaly_root_cau.Prelude.{
  ℕ, suc, ◌+◌, String, ◌==◌, Bool, true, false, not, ◌&&◌, ◌||◌, Option, none, some, List, [], ◌∷◌,
  ◌++◌, map, length, any, find, lookup, insert, contains, dedup, keys, ltb, eqb, if◌then◌else◌,
  get_or_else, is_empty, is_some,
}
use network_anomaly_root_cau.Prelude.Result.{Result, ok, err, raise_if, ◌>>=◌, ◌>>◌}
use network_anomaly_root_cau.Contracts.{TopologyRelation, sends_traffic_to, is_relation}
use network_anomaly_root_cau.Rca.Contracts.{
  IncidentAnalysisBundle, HypothesisCandidate, RankedHypothesis, ConflictEvidenceDraft,
  TopologyStates, TopologyNodeState, TopologyEdgeState, NodeState, EdgeState, RcaTopologyNode,
  RcaTopologyEdge, RcaComputationResult, validate_factors,
}
use network_anomaly_root_cau.Rca.Catalogue.{HypothesisDefinition, HypothesisCatalogue, entry}
use network_anomaly_root_cau.Rca.Events.{label, text_le}
use network_anomaly_root_cau.Rca.Traversal.{
  TraversalPolicy, forward, PathSearch, found, path, reachable,
}
use network_anomaly_root_cau.Rca.Generator.{generate}
use network_anomaly_root_cau.Rca.Ranker.Score.{AppliedConflict}
use network_anomaly_root_cau.Rca.Ranker.Coverage.{PyText}
use network_anomaly_root_cau.Rca.Ranker.Candidate.{CandidateScore, rank}
use network_anomaly_root_cau.Rca.ResultGraph.{validate_result_graph}

-- the policy of the configuration's impact path, and that of the topology states
abbrev pub impact_policy : TraversalPolicy
impact_policy = record { relation_type = sends_traffic_to; direction = forward; max_hops = 2 }

abbrev pub traffic_policy : TraversalPolicy
traffic_policy = record { relation_type = sends_traffic_to; direction = forward; max_hops = 3 }

-- the comprehension with `enumerate(scored, start=1)`
unfoldable pub ranked_from :
    HypothesisCatalogue → ℕ → List CandidateScore → Result (List RankedHypothesis)
ranked_from catalogue n [] = ok []
ranked_from catalogue n (s ∷ scored) = do
  e ← entry catalogue s.candidate.hypothesis_type
  r ← validate_factors (record {
    hypothesis_id = label "hyp_" n;
    candidate_id = s.candidate.candidate_id;
    hypothesis_type = s.candidate.hypothesis_type;
    candidate_entity_id = s.candidate.candidate_entity_id;
    rank = n;
    evidence_score = s.evidence_score;
    evidence_coverage = s.evidence_coverage;
    factor_scores = s.factor_scores;
    summary = e.summary;
  })
  rest ← ranked_from catalogue (n + 1) scored
  ok (r ∷ rest)

-- `{item.candidate.candidate_id: ranked.hypothesis_id ...}`: the last item with an ID wins
unfoldable pub hypothesis_of : List CandidateScore → List RankedHypothesis → List (String × String)
unfolding lookup
hypothesis_of [] ranked = []
hypothesis_of (s ∷ scored) [] = []
hypothesis_of (s ∷ scored) (r ∷ ranked) =
    let rest = hypothesis_of scored ranked in
    if is_some (lookup s.candidate.candidate_id rest)
    then rest
    else (s.candidate.candidate_id, r.hypothesis_id) ∷ rest

drafts_of : String → List AppliedConflict → List ConflictEvidenceDraft
drafts_of id [] = []
drafts_of id (c ∷ cs) =
    record {
      hypothesis_id = id;
      source_event_id = c.source_event_id;
      statement = c.statement;
      relevance = c.relevance;
      reason_code = c.pattern_id;
    }
    ∷ drafts_of id cs

-- the conflict evidence, in the order of the ranking
unfoldable pub conflict_evidence :
    List (String × String) → List CandidateScore → Result (List ConflictEvidenceDraft)
unfolding drafts_of lookup
conflict_evidence ids [] = ok []
conflict_evidence ids (s ∷ scored) = do
  rest ← conflict_evidence ids scored
  elim (lookup s.candidate.candidate_id ids) [
    | none ↦ if is_empty s.conflicts then ok rest else err "KeyError"
    | some id ↦ ok (drafts_of id s.conflicts ++ rest)
  ]

-- `len(a), a` compared with `len(b), b`: the key of `max`
abbrev pub texts_le : List String → List String → Bool
texts_le [] ys = true
texts_le (x ∷ xs) [] = false
texts_le (x ∷ xs) (y ∷ ys) = if x == y then texts_le xs ys else text_le x y

-- `max(choices, key=lambda path: (len(path), path))`
longest : List (List String) → Option (List String)
longest [] = none
longest (p ∷ ps) = elim (longest ps) [
  | none ↦ some p
  | some q ↦
      if ltb (length p) (length q) || eqb (length p) (length q) && texts_le p q
      then some q
      else some p
]

-- the paths to the affected entities that exist
impact_choices : List RcaTopologyEdge → TraversalPolicy → String → List String → List (List String)
impact_choices edges policy source [] = []
impact_choices edges policy source (t ∷ targets) =
    let rest = impact_choices edges policy source targets in
    elim (path edges source t policy) [ found q ↦ q ∷ rest | _ ↦ rest ]

abbrev pub of_type : String → CandidateScore → Bool
of_type t s = s.candidate.hypothesis_type == t

configuration_path : IncidentAnalysisBundle → Option CandidateScore → List (String × List String)
unfolding longest impact_choices
configuration_path bundle none = []
configuration_path bundle (some s) =
    elim (longest (
      impact_choices bundle.topology.edges impact_policy s.candidate.candidate_entity_id
        bundle.incident.affected_entity_ids)) [
          | none ↦ []
          | some p ↦ ("configuration_traffic_impact", p) ∷ []
        ]

database_path : Option CandidateScore → List (String × List String)
database_path none = []
database_path (some s) =
    if is_empty s.topology_path then [] else ("database_dependency", s.topology_path) ∷ []

-- `_typed_paths`
unfoldable pub typed_paths :
    List CandidateScore → IncidentAnalysisBundle → List (String × List String)
unfolding configuration_path database_path
typed_paths scored bundle =
    configuration_path bundle (find (of_type "configuration_regression") scored)
    ++ database_path (find (of_type "database_connection_exhaustion") scored)

-- a loop of `node_states[entity_id] = state`, and one of `node_states.setdefault(entity_id, state)`
put_all : NodeState → List String → List (String × NodeState) → List (String × NodeState)
unfolding insert
put_all state [] d = d
put_all state (e ∷ es) d = put_all state es (insert e state d)

set_default_all : NodeState → List String → List (String × NodeState) → List (String × NodeState)
unfolding insert lookup
set_default_all state [] d = d
set_default_all state (e ∷ es) d =
    set_default_all state es (if is_some (lookup e d) then d else insert e state d)

-- the dictionary `node_states`
unfoldable pub node_states : String → List String → String → List String → List (String × NodeState)
unfolding put_all set_default_all
node_states root affected primary reached =
    let impact = put_all NodeState.impact_path affected [] in
    let marked =
      if primary == root then impact else insert primary NodeState.primary_affected impact in
    insert root NodeState.suspected_root (set_default_all NodeState.blast_radius reached marked)

-- the nodes that have a state, in the order of the topology
stated_nodes : List (String × NodeState) → List RcaTopologyNode → List TopologyNodeState
unfolding lookup
stated_nodes d [] = []
stated_nodes d (n ∷ nodes) =
    let rest = stated_nodes d nodes in
    elim (lookup n.entity_id d) [
      | none ↦ rest
      | some s ↦ record { entity_id = n.entity_id; state = s } ∷ rest
    ]

-- `zip(path, path[1:])` holds the pair
abbrev pub has_step : List String → String → String → Bool
has_step [] u v = false
has_step (x ∷ []) u v = false
has_step (x ∷ y ∷ rest) u v = x == u && y == v || has_step (y ∷ rest) u v

-- `identity in impact_edges`
unfoldable pub is_impact_edge : List RcaTopologyEdge → String → List String → RcaTopologyEdge → Bool
unfolding impact_choices
is_impact_edge edges root affected e =
    is_relation e.relation_type sends_traffic_to
    && any (λ p. has_step p e.source e.target) (impact_choices edges traffic_policy root affected)

stated_edges :
    List RcaTopologyEdge
    → String
    → List String
    → List String
    → List RcaTopologyEdge
    → List TopologyEdgeState
unfolding is_impact_edge contains
stated_edges edges root affected reached [] = []
stated_edges edges root affected reached (e ∷ es) =
    let rest = stated_edges edges root affected reached es in
    let stated = λ (s : EdgeState).
      let x : TopologyEdgeState = record {
        source = e.source;
        target = e.target;
        relation_type = e.relation_type;
        state = s;
      } in
      x in
    if is_impact_edge edges root affected e
    then stated EdgeState.impact_path ∷ rest
    else if is_relation e.relation_type sends_traffic_to
        && (contains reached e.source && contains reached e.target)
    then stated EdgeState.blast_radius ∷ rest
    else rest

-- `_topology_states`
unfoldable pub topology_states : String → IncidentAnalysisBundle → TopologyStates
unfolding node_states stated_nodes stated_edges reachable
topology_states root bundle =
    let edges = bundle.topology.edges in
    let affected = bundle.incident.affected_entity_ids in
    let reached = get_or_else (reachable edges root traffic_policy) [] in
    record {
      nodes =
          stated_nodes (node_states root affected bundle.incident.primary_entity_id reached)
            bundle.topology.nodes;
      edges = stated_edges edges root affected reached edges;
    }

-- `{item.hypothesis_type: tuple(entry(item.hypothesis_type).expected_evidence) ...}`
unfoldable pub requirements :
    HypothesisCatalogue → List RankedHypothesis → Result (List (String × List String))
requirements catalogue [] = ok []
requirements catalogue (r ∷ ranked) = do
  e ← entry catalogue r.hypothesis_type
  rest ← requirements catalogue ranked
  ok ((r.hypothesis_type, keys e.expected_evidence) ∷ rest)

-- the result before its validators
unfoldable pub assemble :
    HypothesisCatalogue
    → IncidentAnalysisBundle
    → List HypothesisCandidate
    → List CandidateScore
    → Result RcaComputationResult
assemble catalogue bundle candidates scored = do
  ranked ← ranked_from catalogue 1 scored
  drafts ← conflict_evidence (hypothesis_of scored ranked) scored
  needed ← requirements catalogue ranked
  elim ranked [
    | [] ↦ err "IndexError"
    | top ∷ others ↦ ok (record {
      candidates = candidates;
      ranked_hypotheses = top ∷ others;
      conflict_evidence = drafts;
      conflict_reason_codes = dedup (map (λ (d : ConflictEvidenceDraft). d.reason_code) drafts);
      topology_states = topology_states top.candidate_entity_id bundle;
      typed_paths = typed_paths scored bundle;
      evidence_requirements = needed;
    })
  ]

-- `analyse`; every failure is an `RcaDomainError` with a message
unfoldable pub analyse :
    PyText → HypothesisCatalogue → IncidentAnalysisBundle → Result RcaComputationResult
analyse py catalogue bundle = do
  let candidates = generate py.py_str catalogue bundle
  raise_if (is_empty candidates) "no catalogue-backed candidates matched"
  scored ← rank py catalogue candidates bundle
  result ← assemble catalogue bundle candidates scored
  validate_result_graph result

-- ===== src/Rca/Ranker/Factors.antt =====
-- The factors of backend/app/rca/ranker.py from the topology, the symptoms, the propagation and the
-- metrics.
use network_anomaly_root_cau.Prelude.{
  ℕ, suc, ◌-◌, String, Bool, true, false, ◌&&◌, Option, none, some, List, [], ◌∷◌, map, keep,
  is_empty, head?, length, lookup, contains, dedup, min_by, leb, eqb, if◌then◌else◌, get_or_else,
}
use network_anomaly_root_cau.Prelude.Result.{Result, ok, err, ◌>>=◌}
use network_anomaly_root_cau.Contracts.{
  CanonicalEvent, AnomalyRecord, is_modality, metric, unit, is_relation, sends_traffic_to,
}
use network_anomaly_root_cau.Rca.Contracts.{IncidentAnalysisBundle, RcaTopologyEdge}
use network_anomaly_root_cau.Rca.Catalogue.{Pattern, HypothesisDefinition, HypothesisCatalogue}
use network_anomaly_root_cau.Rca.Events.{index_events}
use network_anomaly_root_cau.Rca.Traversal.{found, path, reachable}
use network_anomaly_root_cau.Rca.Generator.{origins}
use network_anomaly_root_cau.Rca.Ranker.Score.{ratio}
use network_anomaly_root_cau.Rca.Ranker.Observations.{event_map, pattern_observations}

-- `_topology_origins`
unfoldable pub topology_origins : HypothesisDefinition → IncidentAnalysisBundle → List String
unfolding contains dedup
topology_origins entry bundle =
    let declared = dedup (
      map (λ (e : CanonicalEvent). e.entity_id)
        (keep (λ (e : CanonicalEvent). contains entry.topology_origin_event_types e.event_type)
          bundle.attached_events)) in
    if is_empty declared then origins bundle else declared

pub record Choice : Type 0 where
  pub distance : ℕ
  pub origin : String
  pub route : List String

abbrev pub choice_le : Choice → Choice → Bool
choice_le a b = leb a.distance b.distance

-- the origins that reach the candidate, in their order
choices : List RcaTopologyEdge → HypothesisDefinition → String → List String → List Choice
unfolding path
choices edges entry id [] = []
choices edges entry id (o ∷ os) =
    let rest = choices edges entry id os in
    elim (path edges o id entry.traversal) [
      | found q ↦ record { distance = length q - 1; origin = o; route = q } ∷ rest
      | _ ↦ rest
    ]

abbrev pub distance_factor : ℕ → ℕ
distance_factor d = if eqb d 0 then unit else if eqb d 1 then 8000 else if eqb d 2 then 5000 else 0

-- `_topology_factor`: the nearest origin, and of those the first
unfoldable pub topology_factor :
    HypothesisDefinition → String → IncidentAnalysisBundle → ℕ × Option String × List String
unfolding choices min_by topology_origins
topology_factor entry id bundle =
    elim (min_by choice_le
      (choices bundle.topology.edges entry id (topology_origins entry bundle))) [
        | none ↦ (0, none, [])
        | some c ↦ (distance_factor c.distance, some c.origin, c.route)
      ]

-- `definitions[name]`
abbrev pub definition_of : List (String × Pattern) → String → Result Pattern
definition_of d name = elim (lookup name d) [ none ↦ err "KeyError" | some p ↦ ok p ]

-- the first observation of a stage is not before the stage that was counted last
abbrev pub in_order : Option CanonicalEvent → Option ℕ → Bool
in_order none last = false
in_order (some e) none = true
in_order (some e) (some t) = leb t e.timestamp

abbrev pub seen_at : Option CanonicalEvent → Option ℕ
seen_at none = none
seen_at (some e) = some e.timestamp

-- the stages of `_propagation_factor` that are seen in order: `last` is the time of the last one
unfoldable pub stages_in_order :
    IncidentAnalysisBundle → List (String × Pattern) → Option ℕ → List String → Result ℕ
unfolding lookup
stages_in_order bundle d last [] = ok 0
stages_in_order bundle d last (stage ∷ stages) = do
  p ← definition_of d stage
  let first = head? (pattern_observations bundle p)
  let counts = in_order first last
  let last' = if counts then seen_at first else last
  n ← stages_in_order bundle d last' stages
  ok (if counts then suc n else n)

unfoldable pub propagation_factor :
    HypothesisDefinition → HypothesisCatalogue → IncidentAnalysisBundle → Result ℕ
propagation_factor entry catalogue bundle = do
  counted ← stages_in_order bundle catalogue.propagation none entry.expected_propagation
  ok (ratio counted (length entry.expected_propagation))

unfoldable pub symptoms_observed :
    IncidentAnalysisBundle → List (String × Pattern) → List String → Result ℕ
unfolding lookup
symptoms_observed bundle d [] = ok 0
symptoms_observed bundle d (symptom ∷ symptoms) = do
  p ← definition_of d symptom
  n ← symptoms_observed bundle d symptoms
  ok (if is_empty (pattern_observations bundle p) then n else suc n)

unfoldable pub symptom_factor :
    HypothesisDefinition → HypothesisCatalogue → IncidentAnalysisBundle → Result ℕ
symptom_factor entry catalogue bundle = do
  observed ← symptoms_observed bundle catalogue.symptoms entry.required_symptoms
  ok (ratio observed (length entry.required_symptoms))

-- `_impact_nodes`
unfoldable pub impact_nodes :
    HypothesisDefinition → String → IncidentAnalysisBundle → List String → List String
unfolding reachable
impact_nodes entry id bundle topology_path =
    if is_relation entry.traversal.relation_type sends_traffic_to
    then get_or_else (reachable bundle.topology.edges id entry.traversal) []
    else if is_empty topology_path
    then id ∷ []
    else topology_path

abbrev pub max_of : List ℕ → ℕ
max_of [] = 0
max_of (x ∷ xs) = let rest = max_of xs in if leb x rest then rest else x

-- the test of `_metric_anomaly_factor` on one anomaly
unfoldable pub is_applicable :
    HypothesisDefinition → IncidentAnalysisBundle → List String → AnomalyRecord → Bool
unfolding contains lookup index_events
is_applicable entry bundle nodes a =
    contains entry.metric_anomaly_types a.anomaly_type
    && elim (lookup a.event_id (event_map bundle)) [
      | none ↦ false
      | some e ↦ is_modality e.modality metric && contains nodes e.entity_id
    ]

unfoldable pub metric_anomaly_factor :
    HypothesisDefinition → String → IncidentAnalysisBundle → List String → ℕ
metric_anomaly_factor entry id bundle topology_path =
    let nodes = impact_nodes entry id bundle topology_path in
    max_of (
      map (λ (a : AnomalyRecord). a.score)
        (keep (is_applicable entry bundle nodes) bundle.anomalies))

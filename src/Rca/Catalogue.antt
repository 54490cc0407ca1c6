-- ===== src/Rca/Catalogue.antt =====
-- backend/app/rca/candidate_generator.py: the hypothesis catalogue, its validator and its lookup.
use network_anomaly_root_cau.Prelude.{
  ℕ, String, ◌==◌, Bool, not, List, [], ◌∷◌, map, all, Option, contains, is_unique, keys,
  if◌then◌else◌,
}
use network_anomaly_root_cau.Prelude.Int.{ℤ}
use network_anomaly_root_cau.Prelude.Result.{Result, ok, err, raise_if, ◌>>◌}
use network_anomaly_root_cau.Rca.Traversal.{TraversalPolicy}

pub data CandidateSelector : Type 0 where
  changed_entity primary_entity referenced_dependency event_entity : CandidateSelector

pub record GenerationRule : Type 0 where
  pub candidate_selector : CandidateSelector
  pub requires_recent_change : Bool
  pub any_anomaly_types : List String
  pub any_log_event_types : List String
  pub any_event_types : List String

-- the keys of a pattern's dictionary that `_pattern_observations` and `_conflict_source` read
pub record Pattern : Type 0 where
  pub anomaly_types : List String
  pub event_types : List String
  pub raw_payload_true_keys : List String
  pub signal_value_gte : Option ℤ
  pub signal_value_lte : Option ℤ
  pub absent_anomaly_types : List String

pub data Operation : Type 0 where
  subtract capped : Operation

pub record ConflictPattern : Type 0 where
  pub pattern_id : String
  pub factor : String
  pub operation : Operation
  pub value : ℕ
  pub matches : Pattern
  pub statement : String

pub record HypothesisDefinition : Type 0 where
  pub hypothesis_type : String
  pub entity_types : List String
  pub traversal : TraversalPolicy
  pub generation : GenerationRule
  pub change_based : Bool
  pub plausible_change_keys : List String
  pub topology_origin_event_types : List String
  pub metric_anomaly_types : List String
  pub required_symptoms : List String
  pub expected_propagation : List String
  pub expected_evidence : List (String × String)
  pub conflict_patterns : List ConflictPattern
  pub summary : String

pub record HypothesisCatalogue : Type 0 where
  pub schema_version : String
  pub symptoms : List (String × Pattern)
  pub propagation : List (String × Pattern)
  pub hypotheses : List HypothesisDefinition

abbrev pub types_of : List HypothesisDefinition → List String
types_of = map (λ e. e.hypothesis_type)

-- `set(xs).issubset(ys)`
abbrev pub is_subset : List String → List String → Bool
is_subset xs ys = all (contains ys) xs

check_patterns : List String → List String → List HypothesisDefinition → Result (Unit {0})
check_patterns symptoms propagation [] = ok tt
check_patterns symptoms propagation (e ∷ es) = do
  raise_if (not (is_subset e.required_symptoms symptoms))
      "hypothesis references an unknown symptom pattern"
  raise_if (not (is_subset e.expected_propagation propagation))
      "hypothesis references an unknown propagation pattern"
  check_patterns symptoms propagation es

unfoldable pub validate_catalogue_graph : HypothesisCatalogue → Result HypothesisCatalogue
unfolding check_patterns
validate_catalogue_graph c = do
  raise_if (not (c.schema_version == "1.0")) "unsupported hypothesis catalogue schema"
  raise_if (not (is_unique (types_of c.hypotheses))) "hypothesis types must be unique"
  check_patterns (keys c.symptoms) (keys c.propagation) c.hypotheses
  ok c

entry_in : List HypothesisDefinition → String → Result HypothesisDefinition
entry_in [] t = err "candidate type is not present in the catalogue"
entry_in (e ∷ es) t = let rest = entry_in es t in if e.hypothesis_type == t then ok e else rest

-- `HypothesisCatalogue.entry`
unfoldable pub entry : HypothesisCatalogue → String → Result HypothesisDefinition
unfolding entry_in
entry c t = entry_in c.hypotheses t

-- ===== src/Rca/Generator/Sound.antt =====
-- What `CandidateGenerator` of backend/app/rca/candidate_generator.py has found for a candidate: an
-- entry of the catalogue, a node of the topology and a route to it.
use network_anomaly_root_cau.Prelude.{
  ℕ, suc, ◌+◌, ◌≤◌, String, eq_iff, ◌≡◌, refl, Bool, true, some, List, [], ◌∷◌, ◌++◌, map, Memᴰ,
  any, length, contains, arith, Bool-cases, Option-cases, inl, inr, Memᴰ-concat,
}
use mathlib.Core.List.Memᴰ
use network_anomaly_root_cau.Contracts.{Value, AnomalyRecord}
use network_anomaly_root_cau.Rca.Contracts.{
  IncidentAnalysisBundle, HypothesisCandidate, RcaTopologyEdge,
}
use network_anomaly_root_cau.Rca.Catalogue.{HypothesisDefinition, HypothesisCatalogue}
use network_anomaly_root_cau.Rca.Events.{label}
use network_anomaly_root_cau.Rca.Traversal.{
  TraversalPolicy, PathSearch, found, not_found, out_of_fuel, path, typed_path_exists,
}
use network_anomaly_root_cau.Rca.Traversal.Routes.{Route, IsShortestRoute, path-IsShortestRoute}
use network_anomaly_root_cau.Rca.Traversal.Exists.{is_found, typed_path_exists_agrees}
use network_anomaly_root_cau.Rca.Generator.{
  generation_events, select_entities, origins, is_yes, node_type, is_eligible, first_candidate,
  candidate_of, generate_from, generate,
}

-- why a candidate may stand in the result
pub record Justified (bundle : IncidentAnalysisBundle) (entries : List HypothesisDefinition)
    (c : HypothesisCandidate) : Type 0 where
  pub entry : HypothesisDefinition
  pub listed : Memᴰ entry entries
  pub same_type : c.hypothesis_type ≡ entry.hypothesis_type
  pub kind : String
  pub node : node_type bundle.topology.nodes c.candidate_entity_id ≡ some kind
  pub allowed : contains entry.entity_types kind ≡ true
  pub origin : String
  pub affected : contains (origins bundle) origin ≡ true
  pub route : List String
  pub leads : Route bundle.topology.edges entry.traversal origin c.candidate_entity_id route
  pub bound : length route ≤ suc entry.traversal.max_hops

any_witness :
    (f : String → Bool) (xs : List String)
    → any f xs ≡ true
    → (x : String) × (contains xs x ≡ true) × (f x ≡ true)
unfolding contains
any_witness f [] h = absurd (ground arith)
any_witness f (x ∷ xs) h = elim (Bool-cases (f x)) [
  | inl here ↦ (x, ground (arith, eq_iff x x), here)
  | inr other ↦ let (y, m, e) = any_witness f xs (rw other at h) in (y, ground arith, e)
]

module _ (edges : List RcaTopologyEdge) (p : TraversalPolicy) (s t : String) where
  Route-of_search :
      (o : PathSearch)
      → IsShortestRoute edges p s t o
      → is_yes (is_found o) ≡ true
      → (q : List String) × Route edges p s t q × (length q ≤ suc p.max_hops)
  Route-of_search (found q) h y = (q, h.0, h.1)
  Route-of_search not_found h y = absurd (ground arith)
  Route-of_search out_of_fuel h y = absurd h

  Route-of_exists :
      is_yes (typed_path_exists edges s t p) ≡ true
      → (q : List String) × Route edges p s t q × (length q ≤ suc p.max_hops)
  Route-of_exists y =
      Route-of_search (path edges s t p) (path-IsShortestRoute edges p s t)
        (rw (typed_path_exists_agrees edges s t p) at y)

kind_of_eligible :
    (bundle : IncidentAnalysisBundle) (e : HypothesisDefinition) (id : String)
    → is_eligible e bundle id ≡ true
    → (kind : String) × (node_type bundle.topology.nodes id ≡ some kind)
      × (contains e.entity_types kind ≡ true)
unfolding is_eligible
kind_of_eligible bundle e id h = elim (Option-cases (node_type bundle.topology.nodes id)) [
  | inl missing ↦ absurd (ground arith)
  | inr (kind, known) ↦ (kind, known, ground arith)
]

origin_of_eligible :
    (bundle : IncidentAnalysisBundle) (e : HypothesisDefinition) (id : String)
    → is_eligible e bundle id ≡ true
    → (o : String) × (contains (origins bundle) o ≡ true)
      × (is_yes (typed_path_exists bundle.topology.edges o id e.traversal) ≡ true)
unfolding is_eligible
origin_of_eligible bundle e id h =
    any_witness (λ o. is_yes (typed_path_exists bundle.topology.edges o id e.traversal))
      (origins bundle) (ground arith)

justify :
    (bundle : IncidentAnalysisBundle) (es : List HypothesisDefinition) (e : HypothesisDefinition)
    (c : HypothesisCandidate)
    → Memᴰ e es
    → c.hypothesis_type ≡ e.hypothesis_type
    → is_eligible e bundle c.candidate_entity_id ≡ true
    → Justified bundle es c
justify bundle es e c m same h =
    let (kind, known, allowed) = kind_of_eligible bundle e c.candidate_entity_id h in
    let (o, affected, y) = origin_of_eligible bundle e c.candidate_entity_id h in
    let (q, leads, bound) =
      Route-of_exists bundle.topology.edges e.traversal o c.candidate_entity_id y in
    record {
      entry = e;
      listed = m;
      same_type = same;
      kind = kind;
      node = known;
      allowed = allowed;
      origin = o;
      affected = affected;
      route = q;
      leads = leads;
      bound = bound;
    }

first_candidate-eq-some :
    (e : HypothesisDefinition) (bundle : IncidentAnalysisBundle) (n : ℕ)
    (selected : List (String × String)) (c : HypothesisCandidate)
    → first_candidate e bundle n selected ≡ some c
    → (c.hypothesis_type ≡ e.hypothesis_type)
      × (c.candidate_id ≡ label "candidate_" (n + 1))
      × (is_eligible e bundle c.candidate_entity_id ≡ true)
unfolding first_candidate
first_candidate-eq-some e bundle n [] c h = absurd (ground arith)
first_candidate-eq-some e bundle n ((id, r) ∷ selected) c h =
    ground (arith, first_candidate-eq-some e bundle n selected c)

pub candidate_of-eq-some :
    (py_str : Value → String) (e : HypothesisDefinition) (bundle : IncidentAnalysisBundle) (n : ℕ)
    (c : HypothesisCandidate)
    → candidate_of py_str e bundle n ≡ some c
    → (c.hypothesis_type ≡ e.hypothesis_type)
      × (c.candidate_id ≡ label "candidate_" (n + 1))
      × (is_eligible e bundle c.candidate_entity_id ≡ true)
unfolding candidate_of
candidate_of-eq-some py_str e bundle n c h =
    let types = map (λ (a : AnomalyRecord). a.anomaly_type) bundle.anomalies in
    elim (Option-cases (generation_events e bundle types)) [
      | inl off ↦ absurd (ground arith)
      | inr (matched, on) ↦
          first_candidate-eq-some e bundle n
            (select_entities py_str e.generation.candidate_selector bundle matched) c (ground arith)
    ]

module _ (py_str : Value → String) (bundle : IncidentAnalysisBundle)
    (es : List HypothesisDefinition) where
  Justified-from :
      (generated : List HypothesisCandidate) (rest : List HypothesisDefinition)
      → ((e : HypothesisDefinition) → Memᴰ e rest → Memᴰ e es)
      → ((c : HypothesisCandidate) → Memᴰ c generated → Justified bundle es c)
      → (c : HypothesisCandidate) → Memᴰ c (generate_from py_str bundle generated rest)
      → Justified bundle es c
  unfolding generate_from
  Justified-from generated [] sub h c m = h c m
  Justified-from generated (e ∷ rest) sub h c m =
      let sub' = λ (x : HypothesisDefinition) (k : Memᴰ x rest). sub x (Memᴰ.tail k) in
      elim (Option-cases (candidate_of py_str e bundle (length generated))) [
        | inl off ↦ Justified-from generated rest sub' h c (rw (off, generate_from) at m)
        | inr (x, on) ↦
            let (same, _, ok_) = candidate_of-eq-some py_str e bundle (length generated) x on in
            Justified-from (generated ++ x ∷ []) rest sub'
              (λ y k. elim ((Memᴰ-concat y x generated).0 k) [
                | inl old ↦ h y old
                | inr new ↦ rw new (justify bundle es e x (sub e (Memᴰ.head refl)) same ok_)
              ])
              c (rw (on, generate_from) at m)
      ]

-- Every candidate that `generate` returns is of the type of a catalogue entry, stands at a node of
-- the topology whose type the entry allows, and is reached from an affected entity (or from the
-- primary entity, if none is listed) along the entry's relation and direction within its hop limit.
pub generate-Justified :
    (py_str : Value → String) (catalogue : HypothesisCatalogue) (bundle : IncidentAnalysisBundle)
    (c : HypothesisCandidate)
    → Memᴰ c (generate py_str catalogue bundle)
    → Justified bundle catalogue.hypotheses c
unfolding generate
generate-Justified py_str catalogue bundle c m =
    Justified-from py_str bundle catalogue.hypotheses [] catalogue.hypotheses (λ e k. k)
      (λ x k. absurd (Memᴰ.not-nil k)) c m

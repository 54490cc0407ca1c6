-- ===== src/Rca/Ranker/Candidate/Base.antt =====
-- The range of the factors of backend/app/rca/ranker.py before the conflicts, for scores and
-- similarities in their contracts' range.
use network_anomaly_root_cau.Prelude.{
  ℕ, zero, suc, ◌+◌, ◌*◌, ◌/◌, ◌%◌, ◌≤◌, ◌<◌, String, ◌==◌, ◌≡◌, refl, Bool, true, false, Option,
  none, some, List, [], ◌∷◌, map, keep, keys, head?, length, All, arith, if◌then◌else◌, Bool-cases,
  Option-cases, inl, inr,
}
use network_anomaly_root_cau.Prelude.Result.{ok, ok-injective, Result-cases}
use network_anomaly_root_cau.Contracts.{Value, unit, CanonicalEvent, AnomalyRecord}
use network_anomaly_root_cau.Rca.Contracts.{IncidentAnalysisBundle, HistoricalMatch}
use network_anomaly_root_cau.Rca.Catalogue.{
  HypothesisDefinition, HypothesisCatalogue, Pattern, ConflictPattern,
}
use network_anomaly_root_cau.Rca.Ranker.Score.{ratio, weights}
use network_anomaly_root_cau.Rca.Ranker.Factors.{
  topology_factor, symptom_factor, propagation_factor, metric_anomaly_factor, stages_in_order,
  symptoms_observed, definition_of, max_of, is_applicable, in_order, seen_at, impact_nodes,
}
use network_anomaly_root_cau.Rca.Ranker.Timing.{
  quarter, matched_conflicts, candidate_signal, change_causal_fit, temporal_factor,
  first_symptom_event, historical_factor,
}
use network_anomaly_root_cau.Rca.Ranker.Observations.{direct_log_alert_factor, pattern_observations}
use network_anomaly_root_cau.Rca.Ranker.Coverage.{PyText}
use network_anomaly_root_cau.Rca.Ranker.Candidate.{base_factors}
use network_anomaly_root_cau.Rca.Ranker.Candidate.Bounds.{Bounded}

-- the contract of the canonical values: scores and similarities are at most 1.0
pub record InRange (bundle : IncidentAnalysisBundle) : Type 0 where
  pub scores : All (λ (a : AnomalyRecord). a.score ≤ unit) bundle.anomalies
  pub similarities : All (λ (m : HistoricalMatch). m.similarity ≤ unit) bundle.historical_matches

quotient_lt : (n d : ℕ) → 0 < d → n ≤ unit * d → 0 < n % d → n / d < unit
quotient_lt n d pos h r = grind arith

quotient_le : (n d : ℕ) → 0 < d → n ≤ unit * d → n / d ≤ unit
quotient_le n d pos h = grind arith

pub ratio-le-unit : (observed declared : ℕ) → observed ≤ declared → ratio observed declared ≤ unit
unfolding ratio
ratio-le-unit observed zero h = omega arith
ratio-le-unit observed (suc d) h =
    let n = observed * unit in
    let fits : n ≤ unit * suc d = grind arith in
    ground
      (arith, quotient_le n (suc d) (omega arith) fits, quotient_lt n (suc d) (omega arith) fits)

stages-le :
    (bundle : IncidentAnalysisBundle) (d : List (String × Pattern)) (last : Option ℕ)
    (stages : List String) (n : ℕ)
    → stages_in_order bundle d last stages ≡ ok n
    → n ≤ length stages
unfolding stages_in_order
stages-le bundle d last [] n e = omega (arith, ok-injective e)
stages-le bundle d last (s ∷ stages) n e = elim (Result-cases (definition_of d s)) [
  | inr (m, missing) ↦ absurd (ground arith)
  | inl (p, known) ↦
      let first = head? (pattern_observations bundle p) in
      let last' = if in_order first last then seen_at first else last in
      elim (Result-cases (stages_in_order bundle d last' stages)) [
        | inr (m, failed) ↦ absurd (ground arith)
        | inl (k, done) ↦ ground (arith, stages-le bundle d last' stages k done)
      ]
]

symptoms-le :
    (bundle : IncidentAnalysisBundle) (d : List (String × Pattern)) (symptoms : List String) (n : ℕ)
    → symptoms_observed bundle d symptoms ≡ ok n
    → n ≤ length symptoms
unfolding symptoms_observed
symptoms-le bundle d [] n e = omega (arith, ok-injective e)
symptoms-le bundle d (s ∷ symptoms) n e = elim (Result-cases (definition_of d s)) [
  | inr (m, missing) ↦ absurd (ground arith)
  | inl (p, known) ↦ elim (Result-cases (symptoms_observed bundle d symptoms)) [
    | inr (m, failed) ↦ absurd (ground arith)
    | inl (k, done) ↦ ground (arith, symptoms-le bundle d symptoms k done)
  ]
]

propagation-le :
    (e : HypothesisDefinition) (c : HypothesisCatalogue) (bundle : IncidentAnalysisBundle) (n : ℕ)
    → propagation_factor e c bundle ≡ ok n
    → n ≤ unit
unfolding propagation_factor
propagation-le e c bundle n h =
    elim (Result-cases (stages_in_order bundle c.propagation none e.expected_propagation)) [
      | inr (m, failed) ↦ absurd (ground arith)
      | inl (k, done) ↦
          let small =
            ratio-le-unit k (length e.expected_propagation)
              (stages-le bundle c.propagation none e.expected_propagation k done) in
          ground (arith, small)
    ]

symptom-le :
    (e : HypothesisDefinition) (c : HypothesisCatalogue) (bundle : IncidentAnalysisBundle) (n : ℕ)
    → symptom_factor e c bundle ≡ ok n
    → n ≤ unit
unfolding symptom_factor
symptom-le e c bundle n h =
    elim (Result-cases (symptoms_observed bundle c.symptoms e.required_symptoms)) [
      | inr (m, failed) ↦ absurd (ground arith)
      | inl (k, done) ↦
          let small =
            ratio-le-unit k (length e.required_symptoms)
              (symptoms-le bundle c.symptoms e.required_symptoms k done) in
          ground (arith, small)
    ]

max_of-le : (xs : List ℕ) (b : ℕ) → All (λ x. x ≤ b) xs → max_of xs ≤ b
max_of-le [] b h = omega arith
max_of-le (x ∷ xs) b h = ground (arith, max_of-le xs b h.1)

All-map-keep {ℓ} :
    {A : Type ℓ} (f : A → ℕ) (p : A → Bool) (b : ℕ) (xs : List A)
    → All (λ x. f x ≤ b) xs
    → All (λ n. n ≤ b) (map f (keep p xs))
All-map-keep f p b [] h = tt
All-map-keep f p b (x ∷ xs) h = ground (arith, All-map-keep f p b xs h.1)

topology-le :
    (e : HypothesisDefinition) (id : String) (bundle : IncidentAnalysisBundle)
    → (topology_factor e id bundle).0 ≤ unit
unfolding topology_factor
topology-le e id bundle = ground arith

direct-le :
    (bundle : IncidentAnalysisBundle) (id : String) → direct_log_alert_factor bundle id ≤ unit
unfolding direct_log_alert_factor
direct-le bundle id = ground arith

temporal-le : (a b : Option CanonicalEvent) → temporal_factor a b ≤ unit
unfolding temporal_factor
temporal-le none b = omega arith
temporal-le (some x) none = omega arith
temporal-le (some x) (some y) = ground arith

quarter-le : (b : Bool) → quarter b ≤ 2500
quarter-le true = omega arith
quarter-le false = omega arith

four_quarters : (a b c d : Bool) → quarter a + quarter b + quarter c + quarter d ≤ unit
four_quarters a b c d = omega (arith, quarter-le a, quarter-le b, quarter-le c, quarter-le d)

change-le :
    (py_str : Value → String) (e : HypothesisDefinition) (id : String)
    (bundle : IncidentAnalysisBundle) (q : List String)
    (c : List (ConflictPattern × CanonicalEvent))
    → change_causal_fit py_str e id bundle q c ≤ unit
unfolding change_causal_fit
change-le py_str e id bundle q c = elim (Bool-cases e.change_based) [
  | inr off ↦ rw off (omega arith)
  | inl on ↦ elim (Option-cases (candidate_signal py_str e id bundle)) [
    | inl missing ↦ rw (missing, on) (omega arith)
    | inr (x, seen) ↦ rw (seen, on) (four_quarters _ _ _ _)
  ]
]

metric-le :
    (e : HypothesisDefinition) (id : String) (bundle : IncidentAnalysisBundle) (q : List String)
    → InRange bundle
    → metric_anomaly_factor e id bundle q ≤ unit
unfolding metric_anomaly_factor
metric-le e id bundle q h = max_of-le _ unit (
    All-map-keep (λ (a : AnomalyRecord). a.score)
      (is_applicable e bundle (impact_nodes e id bundle q)) unit bundle.anomalies h.scores)

historical-le :
    (e : HypothesisDefinition) (bundle : IncidentAnalysisBundle)
    → InRange bundle
    → historical_factor e bundle ≤ unit
unfolding historical_factor
historical-le e bundle h = max_of-le _ unit (
    All-map-keep (λ (m : HistoricalMatch). m.similarity)
      (λ (m : HistoricalMatch). m.confirmed_cause == e.hypothesis_type) unit
      bundle.historical_matches h.similarities)

module _ (py : PyText) (c : HypothesisCatalogue) where
  pub base_factors-Bounded :
      (e : HypothesisDefinition) (id : String) (bundle : IncidentAnalysisBundle)
      (factors : List (String × ℕ))
      → InRange bundle
      → base_factors py c e id bundle ≡ ok factors
      → Bounded factors × (keys factors ≡ keys weights)
  unfolding base_factors
  base_factors-Bounded e id bundle factors h r = elim (Result-cases (symptom_factor e c bundle)) [
    | inr (m, failed) ↦ absurd (ground arith)
    | inl (s, observed) ↦ elim (Result-cases (propagation_factor e c bundle)) [
      | inr (m, failed) ↦ absurd (ground arith)
      | inl (p, counted) ↦
          let q = (topology_factor e id bundle).2 in
          let matched = matched_conflicts bundle e.conflict_patterns in
          let signal = candidate_signal py.py_str e id bundle in
          let given = ok-injective (rw (observed, counted) at r) in
          rw (← given) (
            (
              symptom-le e c bundle s observed,
              (
                topology-le e id bundle,
                (
                  direct-le bundle id,
                  (
                    propagation-le e c bundle p counted,
                    (
                      metric-le e id bundle q h,
                      (
                        change-le py.py_str e id bundle q matched,
                        (
                          temporal-le signal (first_symptom_event bundle),
                          (historical-le e bundle h, tt),
                        ),
                      ),
                    ),
                  ),
                ),
              ),
            ),
            refl,
          )
    ]
  ]

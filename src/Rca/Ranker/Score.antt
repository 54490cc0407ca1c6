-- ===== src/Rca/Ranker/Score.antt =====
-- The rubric of backend/app/rca/ranker.py: weights, rounding, the weighted score, and what a
-- matched conflict pattern does to a factor.
-- Weights are hundredths, factors ten-thousandths (`unit` is 1.0), scores tenths (1000 is 100.0).
use Prim.Native.Nat.{min}
use network_anomaly_root_cau.Prelude.{
  ℕ, ◌+◌, ◌-◌, ◌*◌, ◌/◌, ◌%◌, String, not, ◌||◌, List, [], ◌∷◌, any, lookup, insert, contains, keys,
  eqb, ltb, if◌then◌else◌, get_or_else, is_some,
}
use network_anomaly_root_cau.Prelude.Result.{Result, ok, raise_if, ◌>>=◌, ◌>>◌}
use network_anomaly_root_cau.Contracts.{unit, CanonicalEvent}
use network_anomaly_root_cau.Rca.Catalogue.{ConflictPattern, Operation, subtract, capped}

abbrev pub weights : List (String × ℕ)
weights =
    ("symptom_compatibility", 25)
    ∷ ("topology_relevance", 20)
    ∷ ("direct_logs_alerts", 15)
    ∷ ("propagation_consistency", 15)
    ∷ ("metric_anomaly", 10)
    ∷ ("change_causal_fit", 10)
    ∷ ("temporal_proximity", 3)
    ∷ ("historical_similarity", 2)
    ∷ []

-- `round_half_up(value)` to one place, of a number of ten-thousandths: the result is in tenths
unfoldable pub round_half_up : ℕ → ℕ
round_half_up n = (n + 500) / 1000

abbrev pub factor : List (String × ℕ) → String → ℕ
factor factors name = get_or_else (lookup name factors) 0

unfoldable pub weighted : List (String × ℕ) → List (String × ℕ) → ℕ
unfolding lookup
weighted factors [] = 0
weighted factors ((name, weight) ∷ rest) = weight * factor factors name + weighted factors rest

unfoldable pub score_factors : List (String × ℕ) → Result ℕ
unfolding contains
score_factors factors = do
  raise_if (any (λ f. not (contains (keys weights) f.0)) factors)
      "factor input contains an unsupported factor"
  ok (round_half_up (weighted factors weights))

-- `round(observed / declared, 4)`, to the even neighbour on a tie
unfoldable pub ratio : ℕ → ℕ → ℕ
ratio observed declared =
    let q = observed * unit / declared in
    let r = 2 * (observed * unit % declared) in
    if eqb declared 0
    then 0
    else if ltb r declared
    then q
    else if ltb declared r
    then q + 1
    else if eqb (q % 2) 0
    then q
    else q + 1

pub record AppliedConflict : Type 0 where
  pub pattern_id : String
  pub factor : String
  pub operation : Operation
  pub value : ℕ
  pub source_event_id : String
  pub statement : String
  pub relevance : ℕ

-- `current - value` or `min(current, value)`; on ℕ the difference stops at 0, as `max(0.0, ...)` does
abbrev pub updated : Operation → ℕ → ℕ → ℕ
updated subtract current value = current - value
updated capped current value = min current value

-- the loop over the matched conflicts: it changes the factors and records what it applied
unfoldable pub apply_conflicts :
    List (String × ℕ)
    → List (ConflictPattern × CanonicalEvent)
    → Result (List (String × ℕ) × List AppliedConflict)
unfolding lookup insert contains
apply_conflicts factors [] = ok (factors, [])
apply_conflicts factors ((pat, source) ∷ matched) = do
  raise_if (not (is_some (lookup pat.factor factors)) || not (contains (keys weights) pat.factor))
      "conflict pattern references an unsupported factor"
  let current = factor factors pat.factor
  let factors' = insert pat.factor (min unit (updated pat.operation current pat.value)) factors
  (final, applied) ← apply_conflicts factors' matched
  ok (
    final,
    record {
      pattern_id = pat.pattern_id;
      factor = pat.factor;
      operation = pat.operation;
      value = pat.value;
      source_event_id = source.event_id;
      statement = pat.statement;
      relevance = 9500;
    }
        ∷ applied,
  )

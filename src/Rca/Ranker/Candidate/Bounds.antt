-- ===== src/Rca/Ranker/Candidate/Bounds.antt =====
-- The range of `score_factors` and of the conflict loop in backend/app/rca/ranker.py.
use Prim.Native.Nat.{min}
use network_anomaly_root_cau.Prelude.{
  ℕ, ◌+◌, ◌*◌, ◌≤◌, String, ◌==◌, eq_iff, ◌≡◌, refl, ap, ◌∙◌, subst, lookup-insert, true, not, List,
  [], ◌∷◌, any, lookup, insert, contains, keys, All, arith, is_some, Bool-cases, inl, inr,
}
use network_anomaly_root_cau.Prelude.Result.{ok, ok-injective, raise_if-eq-ok, Result-cases}
use network_anomaly_root_cau.Contracts.{unit, CanonicalEvent}
use network_anomaly_root_cau.Rca.Catalogue.{ConflictPattern, Operation, subtract, capped}
use network_anomaly_root_cau.Rca.Ranker.Score.{
  weights, weighted, factor, score_factors, round_half_up, apply_conflicts, AppliedConflict,
  updated,
}

abbrev sum_of : List (String × ℕ) → ℕ
sum_of [] = 0
sum_of ((name, w) ∷ rest) = w + sum_of rest

abbrev pub Bounded : List (String × ℕ) → Type 0
Bounded = All (λ f. f.1 ≤ unit)

factor-le-unit :
    (factors : List (String × ℕ)) (name : String) → Bounded factors → factor factors name ≤ unit
unfolding lookup
factor-le-unit [] name h = omega arith
factor-le-unit ((k, v) ∷ factors) name h = ground (arith, factor-le-unit factors name h.1)

weighted-le :
    (factors rubric : List (String × ℕ))
    → Bounded factors
    → weighted factors rubric ≤ unit * sum_of rubric
unfolding weighted
weighted-le factors [] h = omega arith
weighted-le factors ((name, w) ∷ rest) h =
    grind (arith, factor-le-unit factors name h, weighted-le factors rest h)

-- The weights sum to one, so a score of bounded factors is at most 100.0.
pub score_factors-le :
    (factors : List (String × ℕ)) (score : ℕ)
    → Bounded factors
    → score_factors factors ≡ ok score
    → score ≤ 1000
unfolding score_factors
score_factors-le factors score h e =
    let (_, done) =
      raise_if-eq-ok (any (λ f. not (contains (keys weights) f.0)) factors)
        "factor input contains an unsupported factor"
        (ok (round_half_up (weighted factors weights))) e in
    let small : weighted factors weights ≤ 1000000 = weighted-le factors weights h in
    unfold round_half_up in omega (arith, ok-injective done)

insert-Bounded :
    (name : String) (v : ℕ) (factors : List (String × ℕ))
    → v ≤ unit
    → Bounded factors
    → Bounded (insert name v factors)
unfolding insert
insert-Bounded name v [] h b = (h, tt)
insert-Bounded name v ((k, w) ∷ factors) h b = ground (arith, insert-Bounded name v factors h b.1)

-- a known key keeps the keys
keys-insert :
    (name : String) (v : ℕ) (factors : List (String × ℕ))
    → is_some (lookup name factors) ≡ true
    → keys (insert name v factors) ≡ keys factors
unfolding insert lookup
keys-insert name v [] h = cc
keys-insert name v ((k, w) ∷ factors) h = ground (arith, keys-insert name v factors, eq_iff k name)

-- what conflicts may do to the factors
pub record Lowered (before after : List (String × ℕ)) : Type 0 where
  pub bounded : Bounded after
  pub same_keys : keys after ≡ keys before
  pub lower : (name : String) → factor after name ≤ factor before name

updated-le : (p : ConflictPattern) (c : ℕ) → c ≤ unit → min unit (updated p.operation c p.value) ≤ c
updated-le p c h = by_operation p.operation
  where
    by_operation : (o : Operation) → min unit (updated o c p.value) ≤ c
    by_operation subtract = omega arith
    by_operation capped = omega arith

lower_one :
    (p : ConflictPattern) (factors : List (String × ℕ))
    → Bounded factors
    → is_some (lookup p.factor factors) ≡ true
    → Lowered factors
        (insert p.factor (min unit (updated p.operation (factor factors p.factor) p.value)) factors)
lower_one p factors b known = record {
  bounded = insert-Bounded p.factor _ factors (omega arith) b;
  same_keys = keys-insert p.factor _ factors known;
  lower = λ name.
      let c = factor factors p.factor in
      let v = min unit (updated p.operation c p.value) in
      rw (lookup-insert p.factor name v factors) (elim (Bool-cases (p.factor == name)) [
        | inl same ↦ rw same (
            subst (λ x. v ≤ factor factors x) ((eq_iff p.factor name).0 same)
              (updated-le p c (factor-le-unit factors p.factor b)))
        | inr other ↦ rw other (omega arith)
      ]);
}

-- If `apply_conflicts` returns, from factors between 0 and 1, its factors have the same names, lie
-- between 0 and 1, and none is above its value before.
pub apply_conflicts-Lowered :
    (factors : List (String × ℕ)) (matched : List (ConflictPattern × CanonicalEvent))
    (final : List (String × ℕ)) (applied : List AppliedConflict)
    → Bounded factors
    → apply_conflicts factors matched ≡ ok (final, applied)
    → Lowered factors final
unfolding apply_conflicts
apply_conflicts-Lowered factors [] final applied b e =
    let same : factors ≡ final =
      ap (λ (x : List (String × ℕ) × List AppliedConflict). x.0) (ok-injective e) in
    rw (← same) (record { bounded = b; same_keys = refl; lower = λ name. omega arith })
apply_conflicts-Lowered factors ((p, s) ∷ matched) final applied b e =
    let v = min unit (updated p.operation (factor factors p.factor) p.value) in
    let factors' = insert p.factor v factors in
    elim (Bool-cases (is_some (lookup p.factor factors))) [
      | inr unknown ↦ absurd (ground arith)
      | inl known ↦ elim (Result-cases (apply_conflicts factors' matched)) [
        | inr (m, failed) ↦ absurd (ground arith)
        | inl ((f, a), done) ↦
            let one = lower_one p factors b known in
            let rest = apply_conflicts-Lowered factors' matched f a one.bounded done in
            let same : f ≡ final = ground arith in
            rw (← same) (record {
              bounded = rest.bounded;
              same_keys = rest.same_keys ∙ one.same_keys;
              lower = λ name. omega (arith, rest.lower name, one.lower name);
            })
      ]
    ]

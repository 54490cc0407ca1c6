-- ===== src/Rca/Ranker/Candidate/Order.antt =====
-- The order of `RootCauseRanker.rank` in backend/app/rca/ranker.py.
use Prim.Native.Nat.{Ordering, compare as compare_ℕ}
use Prim.Native.Char.{code}
use Prim.Native.String.compare
use Prim.Native.String.{compare, then}
use mathlib.Core.List.Perm
use network_anomaly_root_cau.Prelude.{
  Perm, sort_by-perm, subst, inl, inr, ℕ, ◌≤◌, String, ◌≡◌, refl, sym, ap, ◌∙◌, true, false, List,
  [], ◌∷◌, map, arith, sort_by, IsSortedBy, sort_by-IsSortedBy,
}
use network_anomaly_root_cau.Prelude.Result.{ok, >>=-eq-ok, ok-injective, Result-cases}
use network_anomaly_root_cau.Rca.Contracts.{IncidentAnalysisBundle, HypothesisCandidate}
use network_anomaly_root_cau.Rca.Catalogue.{HypothesisCatalogue}
use network_anomaly_root_cau.Rca.Events.{text_le}
use network_anomaly_root_cau.Rca.Ranker.Coverage.{PyText}
use network_anomaly_root_cau.Rca.Ranker.Candidate.Steps.{steps}
use network_anomaly_root_cau.Rca.Ranker.Candidate.{
  CandidateScore, score_candidate, score_all, rank_le, order_of, rank,
}

abbrev pub flip : Ordering → Ordering
flip Ordering.lt = Ordering.gt
flip Ordering.eq = Ordering.eq
flip Ordering.gt = Ordering.lt

flip-compare_ℕ : (a b : ℕ) → compare_ℕ b a ≡ flip (compare_ℕ a b)
flip-compare_ℕ a b = ground arith

flip-then : (o p : Ordering) → then (flip o) (flip p) ≡ flip (then o p)
flip-then Ordering.lt p = refl
flip-then Ordering.eq p = refl
flip-then Ordering.gt p = refl

pub compare-flip : (s t : String) → compare t s ≡ flip (compare s t)
compare-flip String.[] String.[] = compare.nil-nil ∙ ap flip (sym compare.nil-nil)
compare-flip String.[] (String.◌∷◌ d t) =
    compare.cons-nil d t ∙ ap flip (sym (compare.nil-cons d t))
compare-flip (String.◌∷◌ c s) String.[] =
    compare.nil-cons c s ∙ ap flip (sym (compare.cons-nil c s))
compare-flip (String.◌∷◌ c s) (String.◌∷◌ d t) =
    compare.cons-cons d c t s
    ∙ rw (flip-compare_ℕ (code c) (code d), compare-flip s t)
        (flip-then (compare_ℕ (code c) (code d)) (compare s t))
    ∙ ap flip (sym (compare.cons-cons c d s t))

pub text_le_total : (s t : String) → text_le s t ≡ false → text_le t s ≡ true
text_le_total s t h = ground (arith, compare-flip s t)

module _ (catalogue : HypothesisCatalogue) where
  rank_le_total :
      (a b : CandidateScore) → rank_le catalogue a b ≡ false → rank_le catalogue b a ≡ true
  unfolding rank_le
  rank_le_total a b h =
      ground (arith, text_le_total a.candidate.candidate_entity_id b.candidate.candidate_entity_id)

  -- `a` may stand before `b`: a higher score, or the same score and no later place in the catalogue,
  -- or the same of both and no greater entity
  abbrev pub Before : CandidateScore → CandidateScore → Type 0
  Before a b =
      let i = order_of catalogue a.candidate.hypothesis_type in
      let j = order_of catalogue b.candidate.hypothesis_type in
      (b.evidence_score ≤ a.evidence_score)
      × (a.evidence_score ≡ b.evidence_score → i ≤ j)
      × (a.evidence_score ≡ b.evidence_score
          → i ≡ j
          → text_le a.candidate.candidate_entity_id b.candidate.candidate_entity_id ≡ true)

  abbrev pub Ranked : List CandidateScore → Type 0
  Ranked [] = Unit
  Ranked (a ∷ []) = Unit
  Ranked (a ∷ b ∷ rest) = Before a b × Ranked (b ∷ rest)

  Before-of_rank_le : (a b : CandidateScore) → rank_le catalogue a b ≡ true → Before a b
  unfolding rank_le
  Before-of_rank_le a b h = (ground arith, λ e. ground arith, λ e f. ground arith)

  Ranked-of_IsSortedBy : (l : List CandidateScore) → IsSortedBy (rank_le catalogue) l → Ranked l
  Ranked-of_IsSortedBy [] h = tt
  Ranked-of_IsSortedBy (a ∷ []) h = tt
  Ranked-of_IsSortedBy (a ∷ b ∷ rest) h =
      (Before-of_rank_le a b h.0, Ranked-of_IsSortedBy (b ∷ rest) h.1)

module _ (py : PyText) (catalogue : HypothesisCatalogue) where
  candidate-score_candidate :
      (c : HypothesisCandidate) (bundle : IncidentAnalysisBundle) (s : CandidateScore)
      → score_candidate py catalogue c bundle ≡ ok s
      → s.candidate ≡ c
  candidate-score_candidate c bundle s h =
      sym (ap (λ (x : CandidateScore). x.candidate) (steps py catalogue c bundle s h).given)

  pub candidates-score_all :
      (cs : List HypothesisCandidate) (bundle : IncidentAnalysisBundle)
      (scored : List CandidateScore)
      → score_all py catalogue cs bundle ≡ ok scored
      → map (λ (s : CandidateScore). s.candidate) scored ≡ cs
  unfolding score_all
  candidates-score_all [] bundle scored h = rw (← ok-injective h)
  candidates-score_all (c ∷ cs) bundle scored h =
      elim (Result-cases (score_candidate py catalogue c bundle)) [
        | inr (m, failed) ↦ absurd (ground arith)
        | inl (s, one) ↦ elim (Result-cases (score_all py catalogue cs bundle)) [
          | inr (m, failed) ↦ absurd (ground arith)
          | inl (rest, more) ↦
              let given : s ∷ rest ≡ scored = ground arith in
              rw (
                ← given,
                candidate-score_candidate c bundle s one,
                candidates-score_all cs bundle rest more,
              )
        ]
      ]

  -- each candidate beside what `score_candidate` returns for it
  abbrev pub Scores :
      IncidentAnalysisBundle → List HypothesisCandidate → List CandidateScore → Type 0
  Scores bundle [] [] = Unit
  Scores bundle [] (s ∷ ss) = ⊥
  Scores bundle (c ∷ cs) [] = ⊥
  Scores bundle (c ∷ cs) (s ∷ ss) =
      (score_candidate py catalogue c bundle ≡ ok s) × Scores bundle cs ss

  score_all-Scores :
      (cs : List HypothesisCandidate) (bundle : IncidentAnalysisBundle)
      (scored : List CandidateScore)
      → score_all py catalogue cs bundle ≡ ok scored
      → Scores bundle cs scored
  unfolding score_all
  score_all-Scores [] bundle scored h = rw (← ok-injective h) tt
  score_all-Scores (c ∷ cs) bundle scored h =
      let (s, one, h1) = >>=-eq-ok (score_candidate py catalogue c bundle) _ h in
      let (rest, more, h2) = >>=-eq-ok (score_all py catalogue cs bundle) _ h1 in
      rw (← ok-injective h2) (one, score_all-Scores cs bundle rest more)

  -- When `rank` returns, the returned records are in the order of the sort key: descending score, then
  -- the place of the hypothesis in the catalogue, then the entity; their candidates are the given ones,
  -- each as often as it was given; and they are a permutation of what `score_candidate` returns for the
  -- candidates, one record for each.
  pub rank-Ranked :
      (cs : List HypothesisCandidate) (bundle : IncidentAnalysisBundle)
      (ranked : List CandidateScore)
      → rank py catalogue cs bundle ≡ ok ranked
      → Ranked catalogue ranked
        × Perm (map (λ (s : CandidateScore). s.candidate) ranked) cs
        × ((scored : List CandidateScore) × Scores bundle cs scored × Perm ranked scored)
  unfolding rank
  rank-Ranked cs bundle ranked h = elim (Result-cases (score_all py catalogue cs bundle)) [
    | inr (m, failed) ↦ absurd (ground arith)
    | inl (scored, done) ↦
        let given : sort_by (rank_le catalogue) scored ≡ ranked = ground arith in
        rw (← given) (
          Ranked-of_IsSortedBy catalogue (sort_by (rank_le catalogue) scored)
              (sort_by-IsSortedBy (rank_le catalogue) (rank_le_total catalogue) scored),
          subst
              (λ l.
                Perm
                  (map (λ (s : CandidateScore). s.candidate) (sort_by (rank_le catalogue) scored))
                  l)
              (candidates-score_all cs bundle scored done)
              (Perm.map (λ (s : CandidateScore). s.candidate)
                (sort_by-perm (rank_le catalogue) scored)),
          (scored, score_all-Scores cs bundle scored done, sort_by-perm (rank_le catalogue) scored),
        )
  ]

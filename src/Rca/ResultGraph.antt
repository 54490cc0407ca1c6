-- ===== src/Rca/ResultGraph.antt =====
-- `RcaComputationResult.validate_result_graph` of backend/app/rca/contracts.py.
use network_anomaly_root_cau.Prelude.{
  ℕ, zero, suc, ◌+◌, String, ◌==◌, Bool, true, false, not, ◌&&◌, ◌||◌, Option, none, some, List, [],
  ◌∷◌, ◌++◌, map, any, all, length, contains, is_unique, dedup, keys, sort_by, eqb, leb,
  if◌then◌else◌, is_empty, is_some,
}
use network_anomaly_root_cau.Prelude.Result.{Result, ok, err, raise_if, ◌>>◌}
use network_anomaly_root_cau.Rca.Contracts.{
  HypothesisCandidate, RankedHypothesis, ConflictEvidenceDraft, RcaComputationResult,
}

-- `list(range(start, start + n))`
abbrev pub range : ℕ → ℕ → List ℕ
range start zero = []
range start (suc n) = start ∷ range (start + 1) n

abbrev pub same_numbers : List ℕ → List ℕ → Bool
same_numbers [] [] = true
same_numbers (x ∷ xs) (y ∷ ys) = eqb x y && same_numbers xs ys
same_numbers _ _ = false

abbrev pub same_texts : List String → List String → Bool
same_texts [] [] = true
same_texts (x ∷ xs) (y ∷ ys) = x == y && same_texts xs ys
same_texts _ _ = false

-- `{item.candidate_id: item for item in self.candidates}.get(id)`: the last item wins
unfoldable pub candidate_by_id : String → List HypothesisCandidate → Option HypothesisCandidate
candidate_by_id id [] = none
candidate_by_id id (c ∷ cs) =
    let rest = candidate_by_id id cs in
    if is_some rest then rest else if c.candidate_id == id then some c else none

-- the loop over the ranked hypotheses
unfoldable pub check_ranked : List HypothesisCandidate → List RankedHypothesis → Result (Unit {0})
unfolding candidate_by_id
check_ranked cs [] = ok tt
check_ranked cs (r ∷ rs) = elim (candidate_by_id r.candidate_id cs) [
  | none ↦ err "ranked hypothesis references an unknown candidate"
  | some c ↦
      raise_if
        (not (c.hypothesis_type == r.hypothesis_type)
          || not (c.candidate_entity_id == r.candidate_entity_id))
        "ranked hypothesis does not match its candidate"
      >> check_ranked cs rs
]

abbrev pub hypothesis_ids : List RankedHypothesis → List String
hypothesis_ids = map (λ r. r.hypothesis_id)

abbrev pub hypothesis_types : List RankedHypothesis → List String
hypothesis_types = map (λ r. r.hypothesis_type)

unfoldable pub validate_result_graph : RcaComputationResult → Result RcaComputationResult
unfolding contains
validate_result_graph s = do
  let ids = hypothesis_ids s.ranked_hypotheses
  let ranks = sort_by leb (map (λ (r : RankedHypothesis). r.rank) s.ranked_hypotheses)
  let draft_codes = dedup (map (λ (d : ConflictEvidenceDraft). d.reason_code) s.conflict_evidence)
  raise_if (not (is_unique (map (λ (c : HypothesisCandidate). c.candidate_id) s.candidates)))
      "candidate IDs must be unique"
  raise_if (not (is_unique ids)) "hypothesis IDs must be unique"
  raise_if (not (same_numbers ranks (range 1 (length ranks))))
      "hypothesis ranks must be unique and consecutive"
  check_ranked s.candidates s.ranked_hypotheses
  raise_if
      (any (λ (d : ConflictEvidenceDraft). not (contains ids d.hypothesis_id)) s.conflict_evidence)
      "conflict evidence references an unknown hypothesis"
  raise_if (not (same_texts s.conflict_reason_codes draft_codes))
      "conflict reason codes must match conflict evidence order"
  raise_if
      (not (
        all (contains (ids ++ hypothesis_types s.ranked_hypotheses))
          (keys s.evidence_requirements)))
      "evidence requirements reference an unknown hypothesis"
  raise_if (any (λ (p : String × List String). is_empty p.1) s.typed_paths)
      "typed topology paths cannot be empty"
  ok s

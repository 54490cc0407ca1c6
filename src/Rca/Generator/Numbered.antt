-- ===== src/Rca/Generator/Numbered.antt =====
-- The IDs and types of the candidates of `CandidateGenerator.generate` in
-- backend/app/rca/candidate_generator.py.
use network_anomaly_root_cau.Prelude.{
  ℕ, zero, suc, ◌+◌, String, ◌≡◌, refl, ap, true, List, [], ◌∷◌, ◌++◌, map, length, length-append,
  is_unique, arith, Option-cases, contains-append, inl, inr,
}
use mathlib.Core.List.{append_assoc, map-append, append-nil}
use network_anomaly_root_cau.Contracts.{Value}
use network_anomaly_root_cau.Rca.Contracts.{IncidentAnalysisBundle, HypothesisCandidate}
use network_anomaly_root_cau.Rca.Catalogue.{HypothesisDefinition, HypothesisCatalogue, types_of}
use network_anomaly_root_cau.Rca.Events.{label}
use network_anomaly_root_cau.Rca.Generator.{candidate_of, generate_from, generate}
use network_anomaly_root_cau.Rca.Generator.Sound.{candidate_of-eq-some}

-- the labels `prefix` with `start`, `start + 1`, ...
abbrev pub numbered : String → ℕ → ℕ → List String
numbered prefix start zero = []
numbered prefix start (suc n) = label prefix start ∷ numbered prefix (start + 1) n

abbrev pub candidate_ids : List HypothesisCandidate → List String
candidate_ids = map (λ c. c.candidate_id)

abbrev pub candidate_types : List HypothesisCandidate → List String
candidate_types = map (λ c. c.hypothesis_type)

numbered-append :
    (prefix : String) (start n j : ℕ)
    → start + n ≡ j
    → numbered prefix start n ++ label prefix j ∷ [] ≡ numbered prefix start (suc n)
numbered-append prefix start zero j e = let e' : start ≡ j = omega arith in rw e'
numbered-append prefix start (suc n) j e =
    ap (◌∷◌ (label prefix start)) (numbered-append prefix (start + 1) n j (omega arith))

is_unique-drop :
    (xs : List String) (y : String) (ys : List String)
    → is_unique (xs ++ y ∷ ys) ≡ true
    → is_unique (xs ++ ys) ≡ true
unfolding is_unique
is_unique-drop [] y ys h = ground arith
is_unique-drop (x ∷ xs) y ys h =
    ground (arith, is_unique-drop xs y ys, contains-append xs (y ∷ ys) x, contains-append xs ys x)

module _ (py_str : Value → String) (bundle : IncidentAnalysisBundle) where
  ids_from :
      (generated : List HypothesisCandidate) (rest : List HypothesisDefinition)
      → candidate_ids generated ≡ numbered "candidate_" 1 (length generated)
      → candidate_ids (generate_from py_str bundle generated rest)
        ≡ numbered "candidate_" 1 (length (generate_from py_str bundle generated rest))
  unfolding generate_from
  ids_from generated [] h = h
  ids_from generated (e ∷ rest) h =
      elim (Option-cases (candidate_of py_str e bundle (length generated))) [
        | inl off ↦ rw (off, generate_from) (ids_from generated rest h)
        | inr (x, on) ↦
            let (_, named, _) = candidate_of-eq-some py_str e bundle (length generated) x on in
            let size : length (generated ++ x ∷ []) ≡ suc (length generated) =
              omega (arith, length-append generated (x ∷ [])) in
            let grown : candidate_ids (generated ++ x ∷ [])
                ≡ numbered "candidate_" 1 (length (generated ++ x ∷ [])) =
              rw
                (
                  size,
                  map-append (λ (c : HypothesisCandidate). c.candidate_id) generated (x ∷ []),
                  h,
                  named,
                )
                (numbered-append "candidate_" 1 (length generated) (length generated + 1)
                  (omega arith)) in
            rw (on, generate_from) (ids_from (generated ++ x ∷ []) rest grown)
      ]

  types_from :
      (generated : List HypothesisCandidate) (rest : List HypothesisDefinition)
      → is_unique (candidate_types generated ++ types_of rest) ≡ true
      → is_unique (candidate_types (generate_from py_str bundle generated rest)) ≡ true
  unfolding generate_from
  types_from generated [] h = rw (append-nil (candidate_types generated)) at h
  types_from generated (e ∷ rest) h =
      elim (Option-cases (candidate_of py_str e bundle (length generated))) [
        | inl off ↦
            rw (off, generate_from)
              (types_from generated rest
                (is_unique-drop (candidate_types generated) e.hypothesis_type (types_of rest) h))
        | inr (x, on) ↦
            let (same, _, _) = candidate_of-eq-some py_str e bundle (length generated) x on in
            let grown : is_unique (candidate_types (generated ++ x ∷ []) ++ types_of rest) ≡ true =
              rw
                (
                  map-append (λ (c : HypothesisCandidate). c.hypothesis_type) generated (x ∷ []),
                  append_assoc (candidate_types generated) (x.hypothesis_type ∷ []) (types_of rest),
                  same,
                )
                h in
            rw (on, generate_from) (types_from (generated ++ x ∷ []) rest grown)
      ]

-- If the types of the catalogue are unique, as its validator demands, the candidates are named
-- candidate_001, candidate_002, ... in their order, and no two of them are of one type.
pub generate-numbered :
    (py_str : Value → String) (catalogue : HypothesisCatalogue) (bundle : IncidentAnalysisBundle)
    → is_unique (types_of catalogue.hypotheses) ≡ true
    → (candidate_ids (generate py_str catalogue bundle)
        ≡ numbered "candidate_" 1 (length (generate py_str catalogue bundle)))
      × (is_unique (candidate_types (generate py_str catalogue bundle)) ≡ true)
unfolding generate
generate-numbered py_str catalogue bundle h = (
  ids_from py_str bundle [] catalogue.hypotheses refl,
  types_from py_str bundle [] catalogue.hypotheses h,
)

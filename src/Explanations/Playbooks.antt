-- ===== src/Explanations/Playbooks.antt =====
-- backend/app/playbooks/engine.py: the catalogue of steps, its validation and its lookups. The entries
-- are those of the YAML file, as pydantic has parsed them.
use network_anomaly_root_cau.Prelude.{
  String, ◌==◌, eq_iff, ◌≡◌, refl, subst, false≢true, Bool, true, ◌&&◌, ◌||◌, Option, some, List,
  [], ◌∷◌, ◌++◌, map, keep, find, find-eq-some, Memᴰ_of_find, is_empty, contains, is_unique,
  if◌then◌else◌, Memᴰ, All, Bool-cases, inl, inr,
}

pub record PlaybookRecommendation : Type 0 where
  pub step_id : String
  pub title : String
  pub step_type : String
  pub applicable_hypothesis_types : List String
  pub applicable_entity_types : List String
  pub preconditions : List String
  pub instructions : List String
  pub risk_level : String
  pub rollback_note : Option String
  pub requires_human_approval : Bool

-- the errors that are collected; the code formats them
pub data PlaybookError : Type 0 where
  repeated_step_ids : PlaybookError
  unknown_step_type : String → String → PlaybookError
  approval_missing : String → PlaybookError
  no_steps : PlaybookError

abbrev pub is_step_type : String → Bool
is_step_type t = t == "diagnostic" || t == "remediation"

-- the errors of one entry
abbrev pub entry_errors : PlaybookRecommendation → List PlaybookError
entry_errors r =
    (if is_step_type r.step_type then [] else unknown_step_type r.step_id r.step_type ∷ [])
    ++ (if r.requires_human_approval then [] else approval_missing r.step_id ∷ [])

abbrev pub all_errors : List PlaybookRecommendation → List PlaybookError
all_errors [] = []
all_errors (r ∷ rs) = entry_errors r ++ all_errors rs

abbrev pub step_ids : List PlaybookRecommendation → List String
step_ids rs = map (λ (r : PlaybookRecommendation). r.step_id) rs

-- `_validate_recommendations`: the errors that it raises, if there are any
unfoldable pub validation_errors : List PlaybookRecommendation → List PlaybookError
unfolding is_unique
validation_errors rs =
    (if is_unique (step_ids rs) then [] else repeated_step_ids ∷ []) ++ all_errors rs

pub data Loaded : Type 0 where
  loaded : List PlaybookRecommendation → Loaded
  refused : List PlaybookError → Loaded

-- `load_recommendations`
unfoldable pub load_recommendations : List PlaybookRecommendation → Loaded
unfolding validation_errors
load_recommendations rs =
    if is_empty rs
    then refused (no_steps ∷ [])
    else if is_empty (validation_errors rs)
    then loaded rs
    else refused (validation_errors rs)

abbrev pub applies : String → String → PlaybookRecommendation → Bool
unfolding contains
applies hypothesis_type entity_type r =
    contains r.applicable_hypothesis_types hypothesis_type
    && contains r.applicable_entity_types entity_type

abbrev pub get_recommendations :
    List PlaybookRecommendation → String → String → List PlaybookRecommendation
get_recommendations catalogue hypothesis_type entity_type =
    keep (applies hypothesis_type entity_type) catalogue

abbrev pub get_step : List PlaybookRecommendation → String → Option PlaybookRecommendation
get_step catalogue id = find (λ (r : PlaybookRecommendation). r.step_id == id) catalogue

abbrev pub find_playbook_for_entity :
    List PlaybookRecommendation → String → Option PlaybookRecommendation
unfolding contains
find_playbook_for_entity catalogue entity =
    find (λ (r : PlaybookRecommendation). contains r.applicable_entity_types entity) catalogue

loaded-injective : {xs ys : List PlaybookRecommendation} → loaded xs ≡ loaded ys → xs ≡ ys
loaded-injective e = cc

is_empty-append {ℓ} :
    {A : Type ℓ} (xs ys : List A)
    → is_empty (xs ++ ys) ≡ true
    → (is_empty xs ≡ true) × (is_empty ys ≡ true)
is_empty-append [] ys h = (refl, h)
is_empty-append (x ∷ xs) ys h = absurd (false≢true h)

entry_errors-approved :
    (r : PlaybookRecommendation)
    → is_empty (entry_errors r) ≡ true
    → r.requires_human_approval ≡ true
entry_errors-approved r h =
    let (known, approved) =
      is_empty-append
        (if is_step_type r.step_type then [] else unknown_step_type r.step_id r.step_type ∷ [])
        (if r.requires_human_approval then [] else approval_missing r.step_id ∷ []) h in
    elim (Bool-cases r.requires_human_approval) [
      | inl yes_approved ↦ yes_approved
      | inr missing ↦ absurd (false≢true (rw missing at approved))
    ]

all_errors-approved :
    (rs : List PlaybookRecommendation)
    → is_empty (all_errors rs) ≡ true
    → All (λ (r : PlaybookRecommendation). r.requires_human_approval ≡ true) rs
all_errors-approved [] h = tt
all_errors-approved (r ∷ rs) h =
    let (here, rest) = is_empty-append (entry_errors r) (all_errors rs) h in
    (entry_errors-approved r here, all_errors-approved rs rest)

-- every step of a catalogue that loads requires the approval of a human
pub load_recommendations-approved :
    (rs catalogue : List PlaybookRecommendation)
    → load_recommendations rs ≡ loaded catalogue
    → All (λ (r : PlaybookRecommendation). r.requires_human_approval ≡ true) catalogue
unfolding load_recommendations validation_errors
load_recommendations-approved rs catalogue e = elim (Bool-cases (is_empty rs)) [
  | inl empty ↦ cc (rw (load_recommendations, empty) at e)
  | inr some_left ↦ elim (Bool-cases (is_empty (validation_errors rs))) [
    | inr invalid ↦ cc (rw (load_recommendations, some_left, invalid) at e)
    | inl valid ↦
        let same = loaded-injective (rw (load_recommendations, some_left, valid) at e) in
        let (unique, rest) =
          is_empty-append (if is_unique (step_ids rs) then [] else repeated_step_ids ∷ [])
            (all_errors rs) valid in
        subst (All (λ (r : PlaybookRecommendation). r.requires_human_approval ≡ true)) same
          (all_errors-approved rs rest)
  ]
]

pub get_step-Memᴰ :
    (catalogue : List PlaybookRecommendation) (id : String) (step : PlaybookRecommendation)
    → get_step catalogue id ≡ some step
    → Memᴰ step catalogue × (step.step_id ≡ id)
get_step-Memᴰ catalogue id step e = (
  Memᴰ_of_find (λ (r : PlaybookRecommendation). r.step_id == id) catalogue step e,
  (eq_iff step.step_id id).0
      (find-eq-some (λ (r : PlaybookRecommendation). r.step_id == id) catalogue step e),
)

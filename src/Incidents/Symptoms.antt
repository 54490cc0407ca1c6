-- ===== src/Incidents/Symptoms.antt =====
-- `SymptomCatalogue` of backend/app/incidents/manager.py.
use network_anomaly_root_cau.Prelude.{
  ℕ, String, ◌==◌, Bool, true, false, not, ◌&&◌, ◌||◌, Option, none, some, List, [], ◌∷◌, ltb,
  contains, lookup, if◌then◌else◌,
}
use network_anomaly_root_cau.Prelude.Int.{ℤ, ltb_ℤ}
use network_anomaly_root_cau.Db.Tables.{Event, Entity}

-- an entry of `families`
pub record Family : Type 0 where
  pub event_types : List String
  pub incident_title : Option String

pub record Incompatibility : Type 0 where
  pub left : Option String
  pub right : Option String
  pub reason_code : String

-- an entry of `attachment_evidence_rules` with its conditions
pub record EvidenceRule : Type 0 where
  pub rule_id : String
  pub incident_families : List String
  pub event_types : List String
  pub at_or_after_opening_symptom : Bool
  pub signal_value_lte : Option ℤ
  pub attachment_reason_code : Option String

pub record SymptomCatalogue : Type 0 where
  pub families : List (String × Family)
  pub incompatibilities : List Incompatibility
  pub attachment_rules : List EvidenceRule

pub record EvidenceRuleMatch : Type 0 where
  pub rule_id : String
  pub attachment_reason_code : Option String

-- the loop of `families_for`
abbrev pub families_in : String → List (String × Family) → List String
unfolding contains
families_in event_type [] = []
families_in event_type ((name, f) ∷ rest) =
    let others = families_in event_type rest in
    if contains f.event_types event_type then name ∷ others else others

abbrev pub families_for : SymptomCatalogue → String → List String
families_for c event_type = families_in event_type c.families

-- a text that is not empty
abbrev pub filled : Option String → Option String
filled none = none
filled (some s) = if s == "" then none else some s

abbrev pub title_of : Option Family → Option String
title_of none = none
title_of (some f) = filled f.incident_title

-- `f"Anomaly affecting {name}"` is built by `++` of texts, a parameter as its characters are not read
unfoldable pub incident_title :
    (String → String) → SymptomCatalogue → Option String → Entity → String
unfolding lookup
incident_title affecting c none entity = affecting entity.name
incident_title affecting c (some family) entity = elim (title_of (lookup family c.families)) [
  | none ↦ affecting entity.name
  | some t ↦ t
]

-- `left in event_families` and `right == incident_family`, where either may be missing
abbrev pub is_among : List String → Option String → Bool
unfolding contains
is_among names none = false
is_among names (some s) = contains names s

abbrev pub is_family : Option String → String → Bool
is_family none family = false
is_family (some s) family = s == family

abbrev pub excludes_family : List String → String → Incompatibility → Bool
excludes_family event_families family row =
    is_among event_families row.left && is_family row.right family
    || is_among event_families row.right && is_family row.left family

abbrev pub first_reason : List String → String → List Incompatibility → Option String
first_reason event_families family [] = none
first_reason event_families family (row ∷ rows) =
    let others = first_reason event_families family rows in
    if excludes_family event_families family row then some row.reason_code else others

abbrev pub incompatibility_reason : SymptomCatalogue → Option String → List String → Option String
incompatibility_reason c none event_families = none
incompatibility_reason c (some family) event_families =
    first_reason event_families family c.incompatibilities

-- the bound of a rule on the signal: a missing value does not meet it
abbrev pub within_bound : Option ℤ → Option ℤ → Bool
within_bound none value = true
within_bound (some bound) none = false
within_bound (some bound) (some v) = not (ltb_ℤ bound v)

abbrev pub rule_applies : Event → Option String → ℕ → EvidenceRule → Bool
unfolding contains
rule_applies event family opening_symptom_at rule =
    is_among rule.incident_families family
    && contains rule.event_types event.event_type
    && not (rule.at_or_after_opening_symptom && ltb event.timestamp opening_symptom_at)
    && within_bound rule.signal_value_lte event.signal_value

abbrev pub matches_in : Event → Option String → ℕ → List EvidenceRule → List EvidenceRuleMatch
matches_in event family opening_symptom_at [] = []
matches_in event family opening_symptom_at (rule ∷ rules) =
    let rest = matches_in event family opening_symptom_at rules in
    if rule_applies event family opening_symptom_at rule
    then record { rule_id = rule.rule_id; attachment_reason_code = rule.attachment_reason_code }
      ∷ rest
    else rest

abbrev pub evidence_rule_matches :
    SymptomCatalogue → Event → Option String → ℕ → List EvidenceRuleMatch
evidence_rule_matches c event family opening_symptom_at =
    matches_in event family opening_symptom_at c.attachment_rules

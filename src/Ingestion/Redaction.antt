-- ===== src/Ingestion/Redaction.antt =====
-- backend/app/ingestion/redaction.py and backend/app/ingestion/runtime_label_guard.py. A scalar has no
-- keys, and a key is a text.
use network_anomaly_root_cau.Prelude.{
  String, ◌==◌, ◌≡◌, refl, sym, ap, false≢true, Bool, true, false, ◌&&◌, ◌||◌, List, [], ◌∷◌,
  contains, if◌then◌else◌, arith, Bool-cases, inl, inr,
}
use network_anomaly_root_cau.Contracts.{
  Value, Fields, Items, obj, arr, text, num, flag, null, field, end, cons, nil,
}

abbrev pub redacted : Value
redacted = text "[REDACTED]"

or-eq-false : (a b : Bool) → (a || b) ≡ false → (a ≡ false) × (b ≡ false)
or-eq-false a b h = (ground (arith, h), ground (arith, h))

-- the search of the pattern of sensitive keys is a parameter
module _ (is_sensitive : String → Bool) where
  -- `visit`
  unfoldable mutual
    pub visit : Value → Value
    visit (obj fs) = obj (visit_fields fs)
    visit (arr is) = arr (visit_items is)
    visit (text s) = text s
    visit (num n) = num n
    visit (flag b) = flag b
    visit null = null

    pub visit_fields : Fields → Fields
    visit_fields end = end
    visit_fields (field k v fs) =
        field k (if is_sensitive k then redacted else visit v) (visit_fields fs)

    pub visit_items : Items → Items
    visit_items nil = nil
    visit_items (cons v is) = cons (visit v) (visit_items is)

  -- the variable `changed`: a sensitive key is met
  unfoldable mutual
    pub changes : Value → Bool
    changes (obj fs) = changes_fields fs
    changes (arr is) = changes_items is
    changes (text s) = false
    changes (num n) = false
    changes (flag b) = false
    changes null = false

    pub changes_fields : Fields → Bool
    changes_fields end = false
    changes_fields (field k v fs) =
        (if is_sensitive k then true else changes v) || changes_fields fs

    pub changes_items : Items → Bool
    changes_items nil = false
    changes_items (cons v is) = changes v || changes_items is

  -- `redact_payload`
  unfoldable pub redact_payload : Value → Value × Bool
  unfolding visit changes
  redact_payload v = (visit v, changes v)

  abbrev pub is_marked : Value → Bool
  is_marked (obj fs) = false
  is_marked (arr is) = false
  is_marked (text s) = s == "[REDACTED]"
  is_marked (num n) = false
  is_marked (flag b) = false
  is_marked null = false

  -- under a sensitive key there is nothing but the mark
  unfoldable mutual
    pub is_redacted : Value → Bool
    is_redacted (obj fs) = is_redacted_fields fs
    is_redacted (arr is) = is_redacted_items is
    is_redacted (text s) = true
    is_redacted (num n) = true
    is_redacted (flag b) = true
    is_redacted null = true

    pub is_redacted_fields : Fields → Bool
    is_redacted_fields end = true
    is_redacted_fields (field k v fs) =
        (if is_sensitive k then is_marked v else is_redacted v) && is_redacted_fields fs

    pub is_redacted_items : Items → Bool
    is_redacted_items nil = true
    is_redacted_items (cons v is) = is_redacted v && is_redacted_items is

  mutual
    unfolding visit is_redacted

    visit-is_redacted : (v : Value) → is_redacted (visit v) ≡ true
    visit-is_redacted (obj fs) = visit_fields-is_redacted fs
    visit-is_redacted (arr is) = visit_items-is_redacted is
    visit-is_redacted (text s) = refl
    visit-is_redacted (num n) = refl
    visit-is_redacted (flag b) = refl
    visit-is_redacted null = refl

    pub visit_fields-is_redacted : (fs : Fields) → is_redacted_fields (visit_fields fs) ≡ true
    visit_fields-is_redacted end = refl
    visit_fields-is_redacted (field k v fs) = elim (Bool-cases (is_sensitive k)) [
      | inl secret ↦ rw (secret, visit_fields-is_redacted fs) refl
      | inr plain ↦ rw (plain, visit-is_redacted v, visit_fields-is_redacted fs) refl
    ]

    visit_items-is_redacted : (is : Items) → is_redacted_items (visit_items is) ≡ true
    visit_items-is_redacted nil = refl
    visit_items-is_redacted (cons v is) = rw (visit-is_redacted v, visit_items-is_redacted is) refl

  mutual
    unfolding visit

    visit-again : (v : Value) → visit (visit v) ≡ visit v
    visit-again (obj fs) = ap obj (visit_fields-again fs)
    visit-again (arr is) = ap arr (visit_items-again is)
    visit-again (text s) = refl
    visit-again (num n) = refl
    visit-again (flag b) = refl
    visit-again null = refl

    visit_fields-again : (fs : Fields) → visit_fields (visit_fields fs) ≡ visit_fields fs
    visit_fields-again end = refl
    visit_fields-again (field k v fs) = elim (Bool-cases (is_sensitive k)) [
      | inl secret ↦ rw (secret, visit_fields-again fs) refl
      | inr plain ↦ rw (plain, visit-again v, visit_fields-again fs) refl
    ]

    visit_items-again : (is : Items) → visit_items (visit_items is) ≡ visit_items is
    visit_items-again nil = refl
    visit_items-again (cons v is) = rw (visit-again v, visit_items-again is) refl

  mutual
    unfolding visit changes

    visit-unchanged : (v : Value) → changes v ≡ false → visit v ≡ v
    visit-unchanged (obj fs) h = ap obj (visit_fields-unchanged fs h)
    visit-unchanged (arr is) h = ap arr (visit_items-unchanged is h)
    visit-unchanged (text s) h = refl
    visit-unchanged (num n) h = refl
    visit-unchanged (flag b) h = refl
    visit-unchanged null h = refl

    visit_fields-unchanged : (fs : Fields) → changes_fields fs ≡ false → visit_fields fs ≡ fs
    visit_fields-unchanged end h = refl
    visit_fields-unchanged (field k v fs) h = elim (Bool-cases (is_sensitive k)) [
      | inl secret ↦ absurd (false≢true (sym (rw secret at h)))
      | inr plain ↦
          let (here, rest) = or-eq-false (changes v) (changes_fields fs) (rw plain at h) in
          rw (plain, visit-unchanged v here, visit_fields-unchanged fs rest) refl
    ]

    visit_items-unchanged : (is : Items) → changes_items is ≡ false → visit_items is ≡ is
    visit_items-unchanged nil h = refl
    visit_items-unchanged (cons v is) h =
        let (here, rest) = or-eq-false (changes v) (changes_items is) h in
        rw (visit-unchanged v here, visit_items-unchanged is rest) refl

  -- What redact_payload returns has nothing but the mark under a sensitive key, and redacting it again
  -- leaves it as it is.
  pub redact_payload-is_redacted :
      (v : Value)
      → (is_redacted (redact_payload v).0 ≡ true)
        × ((redact_payload (redact_payload v).0).0 ≡ (redact_payload v).0)
  unfolding redact_payload
  redact_payload-is_redacted v = (visit-is_redacted v, visit-again v)

  -- If redact_payload reports no change, then it returns the payload that it was given.
  pub redact_payload-unchanged :
      (v : Value) → (redact_payload v).1 ≡ false → (redact_payload v).0 ≡ v
  unfolding redact_payload
  redact_payload-unchanged v h = visit-unchanged v h

-- `contains_forbidden_label`
abbrev pub forbidden_runtime_label_keys : List String
forbidden_runtime_label_keys =
    "attack_cat" ∷ "label" ∷ "class" ∷ "difficulty_level" ∷ "nodeLatencyLabel" ∷ "graphLatencyLabel"
    ∷ "graphStructureLabel" ∷ []

unfoldable mutual
  pub contains_forbidden_label : Value → Bool
  contains_forbidden_label (obj fs) = forbidden_in_fields fs
  contains_forbidden_label (arr is) = forbidden_in_items is
  contains_forbidden_label (text s) = false
  contains_forbidden_label (num n) = false
  contains_forbidden_label (flag b) = false
  contains_forbidden_label null = false

  pub forbidden_in_fields : Fields → Bool
  forbidden_in_fields end = false
  forbidden_in_fields (field k v fs) =
      contains forbidden_runtime_label_keys k
      || contains_forbidden_label v
      || forbidden_in_fields fs

  pub forbidden_in_items : Items → Bool
  forbidden_in_items nil = false
  forbidden_in_items (cons v is) = contains_forbidden_label v || forbidden_in_items is

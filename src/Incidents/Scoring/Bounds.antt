-- ===== src/Incidents/Scoring/Bounds.antt =====
-- When `score_attachment` of backend/app/incidents/manager.py attaches, and the range of its score.
use network_anomaly_root_cau.Prelude.{
  and-eq-true, ℕ, ◌+◌, ◌*◌, ◌≤◌, String, ◌==◌, eq_iff, ◌≡◌, ◌≢◌, refl, sym, ap, ◌∙◌, false≢true,
  Bool, true, false, not, ◌&&◌, ◌||◌, Option, none, some, List, [], ltb, is_empty, if◌then◌else◌,
  arith, ◌⊎◌, inl, inr, Bool-cases, Option-cases,
}
use network_anomaly_root_cau.Prelude.Int.{ℤ, pos, negsuc, leb_ℤ, clamp}
use network_anomaly_root_cau.Prelude.Result.{Result, ok, Result-cases}
use network_anomaly_root_cau.Db.Tables.{Event, Anomaly, Incident}
use network_anomaly_root_cau.Incidents.Symptoms.{
  SymptomCatalogue, EvidenceRuleMatch, families_for, is_among, incompatibility_reason,
  evidence_rule_matches,
}
use network_anomaly_root_cau.Incidents.Scoring.{
  Settings, IncidentAttachmentContext, AttachmentEvaluation, Draft, related, traffic_distance,
  by_distance, add_entity, same_trace, different_trace, within_60_seconds, temporal_anchor,
  add_trace, subtract_family, add_symptom, subtract_trace, add_time, no_draft, draft_of,
  is_after_window, evaluate, score_attachment,
}

none≢some : (n : ℕ) → ◌≡◌ {A = Option ℕ} none (some n) → ⊥
none≢some n h = cc

some-eq : (m n : ℕ) → ◌≡◌ {A = Option ℕ} (some m) (some n) → m ≡ n
some-eq m n h = cc

eq-true_of_attached :
    (b : Bool) → ◌≡◌ {A = String} (if b then "attached" else "excluded") "attached" → b ≡ true
eq-true_of_attached true h = refl
eq-true_of_attached false h = absurd (false≢true (ap (λ s. s == "attached") h))

ne-nil_of_not_empty {ℓ} : {A : Type ℓ} (xs : List A) → not (is_empty xs) ≡ true → xs ≢ []
ne-nil_of_not_empty xs h e = false≢true (rw e at h)

nonempty_cases {ℓ κ} :
    {A : Type ℓ} {B : Type κ} (xs : List A) (ys : List B)
    → (not (is_empty xs) || not (is_empty ys)) ≡ true
    → (xs ≢ []) ⊎ (ys ≢ [])
nonempty_cases xs ys h = elim (Bool-cases (is_empty xs)) [
  | inl empty ↦ inr (ne-nil_of_not_empty ys (rw empty at h))
  | inr full ↦ inl (ne-nil_of_not_empty xs (rw full refl))
]

clamp-bounds :
    (x : ℤ)
    → (leb_ℤ (negsuc 9999) (clamp (negsuc 9999) (pos 10000) x) ≡ true)
      × (leb_ℤ (clamp (negsuc 9999) (pos 10000) x) (pos 10000) ≡ true)
clamp-bounds (pos n) = (ground arith, ground arith)
clamp-bounds (negsuc n) = (ground arith, ground arith)

module _ (settings : Settings) (topology_distance : String → String → Result ℕ)
    (incident : Incident) (event : Event) where
  -- the entities are the same, or one or two hops apart and within the limit, or the traces agree
  pub data IsRelated (context : IncidentAttachmentContext) : Type 0 where
    same_entity : event.entity_id ≡ incident.primary_entity_id → IsRelated context
    close :
        (n : ℕ)
        → topology_distance incident.primary_entity_id event.entity_id ≡ ok n
        → 1 ≤ n
        → n ≤ 2
        → n ≤ settings.incident_max_topology_hops
        → IsRelated context
    shared_trace :
        (t : String)
        → context.trace_or_session_id ≡ some t
        → event.trace_or_session_id ≡ some t
        → IsRelated context

  traffic_distance-eq-some :
      (source target : String) (n : ℕ)
      → traffic_distance settings topology_distance source target ≡ some n
      → (topology_distance source target ≡ ok n) × (n ≤ settings.incident_max_topology_hops)
  unfolding traffic_distance
  traffic_distance-eq-some source target n h =
      elim (Result-cases (topology_distance source target)) [
        | inr (e, none_found) ↦ absurd (none≢some n (rw (traffic_distance, none_found) at h))
        | inl (d, found) ↦ elim (Bool-cases (ltb settings.incident_max_topology_hops d)) [
          | inl far ↦ absurd (none≢some n (rw (traffic_distance, found, far) at h))
          | inr near ↦
              let same = some-eq d n (rw (traffic_distance, found, near) at h) in
              (found ∙ ap ok same, ground (arith, near, same))
        ]
      ]

  by_distance-has_relationship :
      (o : Option ℕ)
      → (by_distance settings topology_distance o no_draft).has_relationship ≡ true
      → (n : ℕ) × (o ≡ some n) × (1 ≤ n) × (n ≤ 2)
  by_distance-has_relationship none h = absurd (false≢true h)
  by_distance-has_relationship (some n) h = (n, refl, ground (arith, h), ground (arith, h))

  add_entity-IsRelated :
      (context : IncidentAttachmentContext)
      → (add_entity settings topology_distance incident event no_draft).has_relationship ≡ true
      → IsRelated context
  unfolding add_entity
  add_entity-IsRelated context h =
      elim (Bool-cases (event.entity_id == incident.primary_entity_id)) [
        | inl same ↦ IsRelated.same_entity ((eq_iff _ _).0 same)
        | inr other ↦
            let (n, is_some, low, high) =
              by_distance-has_relationship _ (rw (add_entity, other) at h) in
            let (found, near) = traffic_distance-eq-some _ _ n is_some in
            IsRelated.close n found low high near
      ]

  same_trace-eq-true :
      (a b : Option String) → same_trace a b ≡ true → (t : String) × (a ≡ some t) × (b ≡ some t)
  same_trace-eq-true none b h = absurd (false≢true h)
  same_trace-eq-true (some a) none h = absurd (false≢true h)
  same_trace-eq-true (some a) (some b) h = (a, refl, ap some ((eq_iff b a).0 h))

  module _ (c : SymptomCatalogue) (context : IncidentAttachmentContext) where
    -- the last three steps leave the flag
    add_symptom-has_relationship :
        (d : Draft) → (add_symptom c context event d).has_relationship ≡ d.has_relationship
    unfolding add_symptom subtract_family
    add_symptom-has_relationship d =
        let families = families_for c event.event_type in
        elim (Bool-cases (is_among families context.symptom_family)) [
          | inl among ↦ rw among refl
          | inr other ↦
              elim (Option-cases (incompatibility_reason c context.symptom_family families)) [
                | inl compatible ↦ rw (other, compatible) refl
                | inr (reason, excluded) ↦ rw (other, excluded) refl
              ]
        ]

    subtract_trace-has_relationship :
        (d : Draft) → (subtract_trace context event d).has_relationship ≡ d.has_relationship
    unfolding subtract_trace
    subtract_trace-has_relationship d =
        elim (Bool-cases (different_trace context.trace_or_session_id event.trace_or_session_id)) [
          | inl differs ↦ rw differs refl
          | inr other ↦ rw other refl
        ]

    add_time-has_relationship :
        (lookback : Bool) (d : Draft)
        → (add_time incident event context lookback d).has_relationship ≡ d.has_relationship
    unfolding add_time
    add_time-has_relationship lookback d =
        elim (Bool-cases
          (within_60_seconds event.timestamp (temporal_anchor incident context lookback))) [
            | inl near ↦ rw near refl
            | inr far ↦ rw far refl
          ]

    has_relationship-after :
        (lookback : Bool) (d : Draft)
        → (add_time incident event context lookback
            (subtract_trace context event (add_symptom c context event d))).has_relationship
          ≡ d.has_relationship
    has_relationship-after lookback d =
        add_time-has_relationship lookback _
        ∙ subtract_trace-has_relationship _
        ∙ add_symptom-has_relationship d

    draft_of-IsRelated :
        (lookback : Bool)
        → (draft_of settings topology_distance c incident event context lookback).has_relationship
          ≡ true
        → IsRelated context
    unfolding draft_of
    draft_of-IsRelated lookback h =
        let before = sym (has_relationship-after lookback _) ∙ h in
        elim (Bool-cases (same_trace context.trace_or_session_id event.trace_or_session_id)) [
          | inl same ↦ let (t, a, b) = same_trace-eq-true _ _ same in IsRelated.shared_trace t a b
          | inr other ↦ add_entity-IsRelated context (rw (add_trace, other) at before)
        ]

    -- why an event is attached
    pub record IsAttachable (anomalies : List Anomaly) (lookback : Bool) (score : ℤ) : Type 0 where
      pub is_related : IsRelated context
      pub is_significant :
          (anomalies ≢ [])
          ⊎ (evidence_rule_matches c event context.symptom_family context.opening_symptom_at ≢ [])
      pub is_above : leb_ℤ (pos settings.incident_attachment_threshold) score ≡ true
      pub is_in_window :
          (lookback ≡ true)
          ⊎ (event.timestamp
              ≤ incident.last_event_at + settings.incident_idle_window_seconds * 1000)

    evaluate-attached :
        (anomalies : List Anomaly) (rules : List EvidenceRuleMatch) (d : Draft)
        → (evaluate settings topology_distance c anomalies rules d).decision ≡ "attached"
        → ((anomalies ≢ []) ⊎ (rules ≢ []))
          × (d.has_relationship ≡ true)
          × (leb_ℤ
                (pos settings.incident_attachment_threshold)
                (evaluate settings topology_distance c anomalies rules d).score
              ≡ true)
    unfolding evaluate
    evaluate-attached anomalies rules d h =
        let (both, e) = and-eq-true _ _ (eq-true_of_attached _ h) in
        let (a, b) = and-eq-true _ _ both in (nonempty_cases anomalies rules a, b, e)

    evaluate-bounds :
        (anomalies : List Anomaly) (rules : List EvidenceRuleMatch) (d : Draft)
        → (leb_ℤ (negsuc 9999) (evaluate settings topology_distance c anomalies rules d).score
            ≡ true)
          × (leb_ℤ (evaluate settings topology_distance c anomalies rules d).score (pos 10000)
              ≡ true)
    unfolding evaluate
    evaluate-bounds anomalies rules d = clamp-bounds d.score

    score_attachment-timely :
        (anomalies : List Anomaly) (lookback : Bool)
        → (not lookback && is_after_window settings topology_distance c incident event) ≡ false
        → score_attachment settings topology_distance c incident event anomalies context lookback
          ≡ evaluate settings topology_distance c anomalies
              (evidence_rule_matches c event context.symptom_family context.opening_symptom_at)
              (draft_of settings topology_distance c incident event context lookback)
    unfolding score_attachment
    score_attachment-timely anomalies lookback timely = rw timely refl

    in_window :
        (lookback : Bool)
        → (not lookback && is_after_window settings topology_distance c incident event) ≡ false
        → (lookback ≡ true)
          ⊎ (event.timestamp
              ≤ incident.last_event_at + settings.incident_idle_window_seconds * 1000)
    in_window true timely = inl refl
    in_window false timely = inr (ground (arith, timely))

    -- If score_attachment attaches an event, then the event is related to the incident: it is at the
    -- incident's primary entity, or at one or two hops from it along the traffic and within the
    -- limit, or it has the trace of the incident; it has an anomaly or matches a rule of the
    -- catalogue; its score is at least the threshold; and it is not after the incident's window,
    -- unless it is from the lookback.
    pub score_attachment-IsAttachable :
        (anomalies : List Anomaly) (lookback : Bool)
        → (score_attachment settings topology_distance c incident event anomalies context
            lookback).decision
          ≡ "attached"
        → IsAttachable anomalies lookback
            (score_attachment settings topology_distance c incident event anomalies context
              lookback).score
    unfolding score_attachment
    score_attachment-IsAttachable anomalies lookback h =
        elim (Bool-cases
          (not lookback && is_after_window settings topology_distance c incident event)) [
            | inl late ↦
                absurd (false≢true (ap (λ s. s == "attached") (rw (score_attachment, late) at h)))
            | inr timely ↦
                let drafted =
                  draft_of settings topology_distance c incident event context lookback in
                let same = score_attachment-timely anomalies lookback timely in
                let (significant, related, above) =
                  evaluate-attached anomalies _ drafted
                    (ap (λ (v : AttachmentEvaluation). v.decision) (sym same) ∙ h) in
                record {
                  is_related = draft_of-IsRelated lookback related;
                  is_significant = significant;
                  is_above = rw same above;
                  is_in_window = in_window lookback timely;
                }
          ]

    -- The score that score_attachment returns is at least -1.0 and at most 1.0.
    pub score_attachment-bounds :
        (anomalies : List Anomaly) (lookback : Bool)
        → (leb_ℤ
              (negsuc 9999)
              (score_attachment settings topology_distance c incident event anomalies context
                lookback).score
            ≡ true)
          × (leb_ℤ
                (score_attachment settings topology_distance c incident event anomalies context
                  lookback).score
                (pos 10000)
              ≡ true)
    unfolding score_attachment
    score_attachment-bounds anomalies lookback =
        elim (Bool-cases
          (not lookback && is_after_window settings topology_distance c incident event)) [
            | inl late ↦ rw late (refl, refl)
            | inr timely ↦ rw (score_attachment-timely anomalies lookback timely) (
                evaluate-bounds anomalies
                  (evidence_rule_matches c event context.symptom_family context.opening_symptom_at)
                  (draft_of settings topology_distance c incident event context lookback))
          ]

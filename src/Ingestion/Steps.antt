-- ===== src/Ingestion/Steps.antt =====
-- The steps that `ingest` of backend/app/ingestion/pipeline.py may take on the tables.
use network_anomaly_root_cau.Prelude.{
  ℕ, String, ◌==◌, ◌≡◌, sym, ap, ◌∙◌, subst, true, ◌||◌, Option, none, some, List, [], ◌∷◌, any,
  ltb, is_some, if◌then◌else◌, All, Bool-cases, Option-cases, inl, inr,
}
use network_anomaly_root_cau.Prelude.Result.{
  Result, ok, >>=-eq-ok, raise_if-eq-ok, ok-injective, Result-cases,
}
use network_anomaly_root_cau.Contracts.{Value, CanonicalEvent}
use network_anomaly_root_cau.Db.Tables.{Event, QuarantinedEvent, CollapsedEventGroup, Store}
use network_anomaly_root_cau.Db.Repositories.{append_audit}
use network_anomaly_root_cau.Incidents.Tables.{entity_by_id}
use network_anomaly_root_cau.Ingestion.Redaction.{
  redact_payload, is_redacted, is_redacted_fields, redact_payload-is_redacted,
  visit_fields-is_redacted,
}
use network_anomaly_root_cau.Ingestion.Tables.{
  same_source_record, persist_accepted, persist_quarantined, persist_collapsed_group,
  increment_collapsed_group, get_collapsed_group_by_fingerprint,
}
use network_anomaly_root_cau.Ingestion.Pipeline.{
  Ingestion, IngestionMutationResponse, source_record_id, is_collapsible, duplicate_fingerprint,
  event_row, quarantine_entry, quarantine, cleaned, collapse_entry, collapse, new_group, accept,
  collapse_or_accept, retried, ingest_event, adapted, ingest,
}

answer-eq :
    {a b : IngestionMutationResponse} {x y : Store}
    → ◌≡◌ {A = Result (IngestionMutationResponse × Store)} (ok (a, x)) (ok (b, y))
    → (a ≡ b) × (x ≡ y)
answer-eq e = (cc, cc)

persist_accepted-eq-ok :
    (row : Event) (old new : List Event) → persist_accepted row old ≡ ok new → new ≡ row ∷ old
unfolding persist_accepted
persist_accepted-eq-ok row old new e =
    let (free, e1) =
      raise_if-eq-ok
        (any (λ (x : Event). x.id == row.id || same_source_record x row) old
          || ltb 10000 row.severity)
        _ _ e in
    sym (ok-injective e1)

module _ (c : Ingestion) where
  -- nothing, a quarantined record, a repetition counted in its group, or a new event, perhaps with the
  -- first group of its fingerprint; what is stored is redacted
  pub data IsStep (st new : Store) : Type 0 where
    kept : new ≡ st → IsStep st new
    quarantined :
        (row : QuarantinedEvent)
        → is_redacted c.is_sensitive row.raw_payload ≡ true
        → new.quarantined_events ≡ row ∷ st.quarantined_events
        → new.events ≡ st.events
        → new.collapsed_event_groups ≡ st.collapsed_event_groups
        → IsStep st new
    collapsed :
        (id : String) (t : ℕ)
        → new.collapsed_event_groups ≡ increment_collapsed_group id t st.collapsed_event_groups
        → new.events ≡ st.events
        → new.quarantined_events ≡ st.quarantined_events
        → IsStep st new
    accepted :
        (e : CanonicalEvent)
        → is_redacted_fields c.is_sensitive e.raw_payload ≡ true
        → new.events ≡ event_row c e ∷ st.events
        → new.quarantined_events ≡ st.quarantined_events
        → new.collapsed_event_groups ≡ (
            if is_collapsible c e
            then new_group c e ∷ st.collapsed_event_groups
            else st.collapsed_event_groups)
        → IsStep st new

  quarantine-IsStep :
      (source : String) (raw : Value) (request_id : String) (record_id : Option String)
      (code : String) (st new : Store) (r : IngestionMutationResponse)
      → quarantine c source raw request_id record_id code st ≡ ok (r, new)
      → IsStep st new
  unfolding quarantine persist_quarantined
  quarantine-IsStep source raw request_id record_id code st new r e =
      let row : QuarantinedEvent = record {
        id = c.quarantine_id;
        received_at = c.now;
        raw_payload = (redact_payload c.is_sensitive raw).0;
        validation_errors = code ∷ [];
      } in
      let (rows, h, e1) = >>=-eq-ok (persist_quarantined row st.quarantined_events) _ e in
      let (logs, h1, e2) =
        >>=-eq-ok (append_audit st.audit_logs (quarantine_entry c source request_id record_id code))
          _ e1 in
      let (free, h2) =
        raise_if-eq-ok (any (λ (q : QuarantinedEvent). q.id == row.id) st.quarantined_events) _ _
          h in
      let (answered, same) = answer-eq e2 in
      IsStep.quarantined row (redact_payload-is_redacted c.is_sensitive raw).0
        (ap (λ (s : Store). s.quarantined_events) (sym same) ∙ sym (ok-injective h2))
        (ap (λ (s : Store). s.events) (sym same))
        (ap (λ (s : Store). s.collapsed_event_groups) (sym same))

  collapse-IsStep :
      (source request_id : String) (e : CanonicalEvent) (g : CollapsedEventGroup) (st new : Store)
      (r : IngestionMutationResponse)
      → collapse c source request_id e g st ≡ ok (r, new)
      → IsStep st new
  unfolding collapse
  collapse-IsStep source request_id e g st new r h =
      let (logs, h1, e1) =
        >>=-eq-ok (append_audit st.audit_logs (collapse_entry c source request_id e g)) _ h in
      let (answered, same) = answer-eq e1 in
      IsStep.collapsed g.id e.timestamp (ap (λ (s : Store). s.collapsed_event_groups) (sym same))
        (ap (λ (s : Store). s.events) (sym same))
        (ap (λ (s : Store). s.quarantined_events) (sym same))

  groups-eq-ok :
      (e : CanonicalEvent) (old groups : List CollapsedEventGroup)
      → (if is_collapsible c e then persist_collapsed_group (new_group c e) old else ok old)
        ≡ ok groups
      → groups ≡ (if is_collapsible c e then new_group c e ∷ old else old)
  unfolding persist_collapsed_group
  groups-eq-ok e old groups h = elim (Bool-cases (is_collapsible c e)) [
    | inl yes_collapsible ↦
        let (free, h1) =
          raise_if-eq-ok (any (λ (g : CollapsedEventGroup). g.id == c.group_id) old) _ _
            (rw yes_collapsible at h) in
        rw yes_collapsible (sym (ok-injective h1))
    | inr other ↦ rw other (sym (ok-injective (rw other at h)))
  ]

  accept-IsStep :
      (request_id : String) (e : CanonicalEvent) (st new : Store) (r : IngestionMutationResponse)
      → is_redacted_fields c.is_sensitive e.raw_payload ≡ true
      → accept c request_id e st ≡ ok (r, new)
      → IsStep st new
  unfolding accept persist_accepted
  accept-IsStep request_id e st new r clean h =
      let (events, h1, e1) = >>=-eq-ok (persist_accepted (event_row c e) st.events) _ h in
      let (groups, h2, e2) =
        >>=-eq-ok
          (if is_collapsible c e
            then persist_collapsed_group (new_group c e) st.collapsed_event_groups
            else ok st.collapsed_event_groups)
          _ e1 in
      let (answered, same) = answer-eq e2 in
      IsStep.accepted e clean
        (ap (λ (s : Store). s.events) (sym same)
          ∙ persist_accepted-eq-ok (event_row c e) st.events events h1)
        (ap (λ (s : Store). s.quarantined_events) (sym same))
        (ap (λ (s : Store). s.collapsed_event_groups) (sym same)
          ∙ groups-eq-ok e st.collapsed_event_groups groups h2)

  grouped :
      (source request_id : String) (e : CanonicalEvent) (group : Option CollapsedEventGroup)
      (st new : Store) (r : IngestionMutationResponse)
      → is_redacted_fields c.is_sensitive e.raw_payload ≡ true
      → (elim group [
        | none ↦ accept c request_id e st
        | some g ↦ collapse c source request_id e g st
      ])
        ≡ ok (r, new)
      → IsStep st new
  grouped source request_id e none st new r clean h = accept-IsStep request_id e st new r clean h
  grouped source request_id e (some g) st new r clean h =
      collapse-IsStep source request_id e g st new r h

  collapse_or_accept-IsStep :
      (source request_id : String) (e : CanonicalEvent) (st new : Store)
      (r : IngestionMutationResponse)
      → is_redacted_fields c.is_sensitive e.raw_payload ≡ true
      → collapse_or_accept c source request_id e st ≡ ok (r, new)
      → IsStep st new
  unfolding collapse_or_accept
  collapse_or_accept-IsStep source request_id e st new r clean h =
      let (group, h1, h2) =
        >>=-eq-ok
          (if is_collapsible c e
            then get_collapsed_group_by_fingerprint st.collapsed_event_groups
                (duplicate_fingerprint c e)
            else ok none)
          (λ found. elim found [
            | none ↦ accept c request_id e st
            | some g ↦ collapse c source request_id e g st
          ])
          h in
      grouped source request_id e group st new r clean h2

  ingest_event-IsStep :
      (source request_id : String) (e : CanonicalEvent) (st new : Store)
      (r : IngestionMutationResponse)
      → is_redacted_fields c.is_sensitive e.raw_payload ≡ true
      → ingest_event c source request_id e st ≡ ok (r, new)
      → IsStep st new
  unfolding ingest_event
  ingest_event-IsStep source request_id e st new r clean h =
      let (existing, h1, h2) = >>=-eq-ok (retried c e st) _ h in
      elim (Option-cases existing) [
        | inl absent ↦
            collapse_or_accept-IsStep source request_id e st new r clean (rw absent at h2)
        | inr (row, present) ↦ IsStep.kept (sym (answer-eq (rw present at h2)).1)
      ]

  -- If ingest returns, then it takes one of these steps: it changes nothing; or it adds one quarantined
  -- record, redacted; or it counts a repetition in a group; or it adds one accepted event, redacted,
  -- and for an event that may be collapsed also its group. The other tables of events are as before.
  pub ingest-IsStep :
      (source : String) (raw : Value) (request_id : String) (st new : Store)
      (r : IngestionMutationResponse)
      → ingest c source raw request_id st ≡ ok (r, new)
      → IsStep st new
  unfolding ingest cleaned
  ingest-IsStep source raw request_id st new r h = elim (Result-cases (adapted c source raw)) [
    | inr (code, refused) ↦
        quarantine-IsStep source raw request_id (source_record_id c raw) code st new r
          (rw (ingest, refused) at h)
    | inl (e, known) ↦ elim (Bool-cases (is_some (entity_by_id st.entities e.entity_id))) [
      | inl there ↦
          ingest_event-IsStep source request_id (cleaned c e) st new r
            (visit_fields-is_redacted c.is_sensitive e.raw_payload) (rw (ingest, known, there) at h)
      | inr missing ↦
          quarantine-IsStep source raw request_id e.source_record_id "UNKNOWN_ENTITY" st new r
            (rw (ingest, known, missing) at h)
    ]
  ]

  -- every stored payload is redacted
  pub record IsClean (st : Store) : Type 0 where
    pub events_are :
        All (λ (e : Event). is_redacted_fields c.is_sensitive e.raw_payload ≡ true) st.events
    pub quarantined_are :
        All
          (λ (q : QuarantinedEvent). is_redacted c.is_sensitive q.raw_payload ≡ true)
          st.quarantined_events

  IsStep-IsClean : (st new : Store) → IsStep st new → IsClean st → IsClean new
  IsStep-IsClean st new (IsStep.kept same) h = subst IsClean (sym same) h
  IsStep-IsClean st new (IsStep.quarantined row clean added events groups) h = record {
    events_are = rw events h.events_are;
    quarantined_are = rw added (clean, h.quarantined_are);
  }
  IsStep-IsClean st new (IsStep.collapsed id t groups events records) h = record {
    events_are = rw events h.events_are;
    quarantined_are = rw records h.quarantined_are;
  }
  IsStep-IsClean st new (IsStep.accepted e clean added records groups) h = record {
    events_are = rw added (clean, h.events_are);
    quarantined_are = rw records h.quarantined_are;
  }

  -- If every payload of the tables of accepted and of quarantined events is redacted, then so is every
  -- payload of those that ingest leaves.
  pub ingest-IsClean :
      (source : String) (raw : Value) (request_id : String) (st new : Store)
      (r : IngestionMutationResponse)
      → IsClean st
      → ingest c source raw request_id st ≡ ok (r, new)
      → IsClean new
  ingest-IsClean source raw request_id st new r clean h =
      IsStep-IsClean st new (ingest-IsStep source raw request_id st new r h) clean

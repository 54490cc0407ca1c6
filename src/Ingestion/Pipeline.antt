-- ===== src/Ingestion/Pipeline.antt =====
-- `IngestionPipeline.ingest` of backend/app/ingestion/pipeline.py.
use network_anomaly_root_cau.Prelude.{
  ℕ, ◌/◌, String, ◌==◌, Bool, false, ◌&&◌, ◌||◌, Option, none, some, List, [], ◌∷◌, ◌++◌, ltb,
  is_some, contains, lookup, get_or_else, if◌then◌else◌,
}
use network_anomaly_root_cau.Prelude.Result.{Result, ok, err, raise_if, ◌>>=◌, ◌>>◌}
use network_anomaly_root_cau.Contracts.{
  Value, Fields, obj, text, null, field, end, Modality, metric, log, alert, trace, config_change,
  is_modality, CanonicalEvent,
}
use network_anomaly_root_cau.Db.Tables.{Event, CollapsedEventGroup, AuditWrite, Store}
use network_anomaly_root_cau.Db.Repositories.{append_audit}
use network_anomaly_root_cau.Incidents.Tables.{entity_by_id}
use network_anomaly_root_cau.Ingestion.Tables.{
  get_by_source_record, get_collapsed_group_by_fingerprint, persist_accepted, persist_quarantined,
  persist_collapsed_group, increment_collapsed_group,
}
use network_anomaly_root_cau.Ingestion.Redaction.{
  redact_payload, visit_fields, changes_fields, contains_forbidden_label,
}

-- what the pipeline is built with: the adapters of the sources, whose error is its reason code; the
-- pattern of sensitive keys; the size of a record's JSON; the settings; the codes of repeatable logs;
-- the hash; the texts of values; the clock; and the next IDs
pub record Ingestion : Type 0 where
  pub adapters : List (String × (Value → Result CanonicalEvent))
  pub is_sensitive : String → Bool
  pub encoded_size : Value → ℕ
  pub event_max_payload_bytes : ℕ
  pub duplicate_bucket_seconds : ℕ
  pub repeatable_log_codes : List String
  pub sha256 : List String → String
  pub natural_text : ℕ → String
  pub value_text : Value → String
  pub now : ℕ
  pub quarantine_id : String
  pub group_id : String

pub record IngestionMutationResponse : Type 0 where
  pub status : String
  pub request_id : String
  pub generated_at : ℕ
  pub event_id : Option String
  pub quarantine_id : Option String
  pub collapsed_group_id : Option String
  pub representative_event_id : Option String
  pub source_record_id : Option String
  pub reason_codes : List String

abbrev pub modality_text : Modality → String
modality_text metric = "metric"
modality_text log = "log"
modality_text alert = "alert"
modality_text trace = "trace"
modality_text config_change = "config_change"

-- `get(key)` of a dictionary
abbrev pub value_at : Fields → String → Value
value_at end key = null
value_at (field k v fs) key = let rest = value_at fs key in if k == key then v else rest

module _ (c : Ingestion) where
  -- `_source_record_id`: the first key that has a value
  abbrev pub first_text : Fields → List String → Option String
  first_text payload [] = none
  first_text payload (key ∷ keys) = elim (value_at payload key) [
    | null ↦ first_text payload keys
    | v ↦ some (c.value_text v)
  ]

  abbrev pub has_key : Fields → String → Bool
  has_key end key = false
  has_key (field k v fs) key = k == key || has_key fs key

  abbrev pub identity_keys : List String
  identity_keys = "sample_id" ∷ "record_id" ∷ "fingerprint" ∷ "change_id" ∷ []

  unfoldable pub source_record_id : Value → Option String
  source_record_id (obj raw) =
      if has_key raw "payload"
      then elim (value_at raw "payload") [
        | obj payload ↦ first_text payload identity_keys
        | v ↦ none
      ]
      else first_text raw identity_keys
  source_record_id raw = none

  abbrev pub is_collapsible : CanonicalEvent → Bool
  unfolding contains
  is_collapsible e =
      is_modality e.modality alert
      || is_modality e.modality log && contains c.repeatable_log_codes e.event_type

  -- `_duplicate_fingerprint`, of whole seconds in buckets
  abbrev pub duplicate_fingerprint : CanonicalEvent → String
  duplicate_fingerprint e = c.sha256 (
      e.entity_id
      ∷ modality_text e.modality
      ∷ e.event_type
      ∷ get_or_else e.signal_name ""
      ∷ c.natural_text (e.timestamp / 1000 / c.duplicate_bucket_seconds)
      ∷ [])

  abbrev pub event_row : CanonicalEvent → Event
  event_row e = record {
    id = e.event_id;
    timestamp = e.timestamp;
    ingested_at = e.ingested_at;
    entity_id = e.entity_id;
    modality = modality_text e.modality;
    event_type = e.event_type;
    severity = e.severity;
    signal_name = e.signal_name;
    signal_value = e.signal_value;
    unit = e.unit;
    trace_or_session_id = e.trace_or_session_id;
    source = e.source;
    source_record_id = e.source_record_id;
    schema_version = e.schema_version;
    quality_flags = e.quality_flags;
    raw_payload = e.raw_payload;
    status = "accepted";
  }

  abbrev pub accepted_response :
      String → Option String → Option String → List String → IngestionMutationResponse
  accepted_response request_id event_id record_id reasons = record {
    status = "accepted";
    request_id = request_id;
    generated_at = c.now;
    event_id = event_id;
    quarantine_id = none;
    collapsed_group_id = none;
    representative_event_id = none;
    source_record_id = record_id;
    reason_codes = reasons;
  }

  abbrev pub entry : String → String → String → String → List String → Fields → AuditWrite
  entry action object_type object_id request_id reasons metadata = record {
    action = action;
    actor_type = "system";
    actor_id = some "ingestion_pipeline";
    object_type = object_type;
    object_id = object_id;
    incident_id = none;
    analysis_run_id = none;
    analysis_revision = none;
    request_id = request_id;
    reason_codes = reasons;
    previous_state = none;
    new_state = none;
    metadata = metadata;
    timestamp = c.now;
  }

  abbrev pub optional_text : Option String → Value
  optional_text none = null
  optional_text (some s) = text s

  -- a source-specific record and its request
  abbrev pub quarantine_entry : String → String → Option String → String → AuditWrite
  quarantine_entry source request_id record_id code =
      entry "EVENT_QUARANTINED" "quarantined_event" c.quarantine_id request_id (code ∷ []) (
        field "quarantine_id" (text c.quarantine_id)
          (field "source" (text source) (field "source_record_id" (optional_text record_id) end)))

  -- `_quarantine`, of the redacted record
  unfoldable pub quarantine :
      String
      → Value
      → String
      → Option String
      → String
      → Store
      → Result (IngestionMutationResponse × Store)
  unfolding persist_quarantined redact_payload append_audit
  quarantine source raw request_id record_id code st = do
    rows ←
        persist_quarantined
          (record {
            id = c.quarantine_id;
            received_at = c.now;
            raw_payload = (redact_payload c.is_sensitive raw).0;
            validation_errors = code ∷ [];
          })
          st.quarantined_events
    logs ← append_audit st.audit_logs (quarantine_entry source request_id record_id code)
    ok (
      record {
        status = "quarantined";
        request_id = request_id;
        generated_at = c.now;
        event_id = none;
        quarantine_id = some c.quarantine_id;
        collapsed_group_id = none;
        representative_event_id = none;
        source_record_id = record_id;
        reason_codes = code ∷ [];
      },
      record st { quarantined_events = rows; audit_logs = logs },
    )

  -- the event with its payload redacted
  abbrev pub flagged : List String → List String
  unfolding contains
  flagged flags =
      if contains flags "RAW_PAYLOAD_REDACTED" then flags else flags ++ "RAW_PAYLOAD_REDACTED" ∷ []

  unfoldable pub cleaned : CanonicalEvent → CanonicalEvent
  unfolding visit_fields changes_fields
  cleaned e = record e {
    raw_payload = visit_fields c.is_sensitive e.raw_payload;
    quality_flags =
        if changes_fields c.is_sensitive e.raw_payload
        then flagged e.quality_flags
        else e.quality_flags;
  }

  abbrev pub collapse_entry : String → String → CanonicalEvent → CollapsedEventGroup → AuditWrite
  collapse_entry source request_id e g =
      entry "EVENT_COLLAPSED" "collapsed_event_group" g.id request_id ("DUPLICATE_FINGERPRINT" ∷ [])
        (field "collapsed_group_id" (text g.id) (
          field "representative_event_id" (text g.representative_event_id) (
            field "source" (text source)
              (field "source_record_id" (optional_text e.source_record_id) end))))

  unfoldable pub collapse :
      String
      → String
      → CanonicalEvent
      → CollapsedEventGroup
      → Store
      → Result (IngestionMutationResponse × Store)
  unfolding append_audit
  collapse source request_id e g st = do
    logs ← append_audit st.audit_logs (collapse_entry source request_id e g)
    ok (
      record {
        status = "collapsed";
        request_id = request_id;
        generated_at = c.now;
        event_id = none;
        quarantine_id = none;
        collapsed_group_id = some g.id;
        representative_event_id = some g.representative_event_id;
        source_record_id = e.source_record_id;
        reason_codes = "DUPLICATE_FINGERPRINT" ∷ [];
      },
      record st {
        collapsed_event_groups =
            increment_collapsed_group g.id e.timestamp st.collapsed_event_groups;
        audit_logs = logs;
      },
    )

  abbrev pub new_group : CanonicalEvent → CollapsedEventGroup
  new_group e = record {
    id = c.group_id;
    fingerprint = duplicate_fingerprint e;
    first_seen = e.timestamp;
    last_seen = e.timestamp;
    event_count = 1;
    representative_event_id = e.event_id;
  }

  -- the steps for an event that is not collapsed
  unfoldable pub accept :
      String → CanonicalEvent → Store → Result (IngestionMutationResponse × Store)
  unfolding persist_accepted persist_collapsed_group
  accept request_id e st = do
    events ← persist_accepted (event_row e) st.events
    groups ←
        if is_collapsible e
        then persist_collapsed_group (new_group e) st.collapsed_event_groups
        else ok st.collapsed_event_groups
    ok (
      accepted_response request_id (some e.event_id) e.source_record_id [],
      record st { events = events; collapsed_event_groups = groups },
    )

  -- the test for a group, for an event that may be collapsed
  unfoldable pub collapse_or_accept :
      String → String → CanonicalEvent → Store → Result (IngestionMutationResponse × Store)
  unfolding get_collapsed_group_by_fingerprint collapse accept
  collapse_or_accept source request_id e st =
      (if is_collapsible e
        then get_collapsed_group_by_fingerprint st.collapsed_event_groups (duplicate_fingerprint e)
        else ok none)
      >>= λ group. elim group [
        | none ↦ accept request_id e st
        | some g ↦ collapse source request_id e g st
      ]

  -- an event whose source record is known is a retry
  unfoldable pub retried : CanonicalEvent → Store → Result (Option Event)
  unfolding get_by_source_record
  retried e st = elim e.source_record_id [
    | none ↦ ok none
    | some id ↦ get_by_source_record st.events e.source id
  ]

  unfoldable pub ingest_event :
      String → String → CanonicalEvent → Store → Result (IngestionMutationResponse × Store)
  unfolding retried collapse_or_accept
  ingest_event source request_id e st = do
    existing ← retried e st
    elim existing [
      | some row ↦ ok (
        accepted_response request_id (some row.id) row.source_record_id ("IDEMPOTENT_RETRY" ∷ []),
        st,
      )
      | none ↦ collapse_or_accept source request_id e st
    ]

  -- the tests of the record before its adapter runs, in their order, and the adapter's own
  unfoldable pub adapted : String → Value → Result CanonicalEvent
  unfolding lookup contains_forbidden_label
  adapted source raw = elim (lookup source c.adapters) [
    | none ↦ err "UNKNOWN_SOURCE"
    | some adapt ↦
        raise_if (contains_forbidden_label raw) "DATASET_LABEL_FIELD_FORBIDDEN"
        >> (raise_if (ltb c.event_max_payload_bytes (c.encoded_size raw)) "PAYLOAD_TOO_LARGE"
            >> adapt raw)
  ]

  -- `ingest` without the publication of an accepted event, which is the orchestrator's
  unfoldable pub ingest :
      String → Value → String → Store → Result (IngestionMutationResponse × Store)
  unfolding adapted quarantine source_record_id cleaned ingest_event
  ingest source raw request_id st = elim (adapted source raw) [
    | err code ↦ quarantine source raw request_id (source_record_id raw) code st
    | ok e ↦
        if is_some (entity_by_id st.entities e.entity_id)
        then ingest_event source request_id (cleaned e) st
        else quarantine source raw request_id e.source_record_id "UNKNOWN_ENTITY" st
  ]

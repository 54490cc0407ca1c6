-- ===== src/Examples/Records.antt =====
-- Records that are ingested, and the results applied to them.
use network_anomaly_root_cau.Prelude.{
  ◌==◌, true, false, none, some, [], ◌∷◌, ◌≡◌, refl, contains, lookup,
}
use network_anomaly_root_cau.Prelude.Result.{ok}
use network_anomaly_root_cau.Contracts.{Value, obj, text, field, end, alert, CanonicalEvent}
use network_anomaly_root_cau.Db.Tables.{Store}
use network_anomaly_root_cau.Ingestion.Redaction.{
  visit, changes, redact_payload, is_redacted, redact_payload-is_redacted, redact_payload-unchanged,
  contains_forbidden_label,
}
use network_anomaly_root_cau.Ingestion.Tables.{
  get_by_source_record, get_collapsed_group_by_fingerprint, persist_accepted,
  persist_collapsed_group,
}
use network_anomaly_root_cau.Ingestion.Pipeline.{
  Ingestion, accepted_response, event_row, new_group, cleaned, accept, collapse_or_accept, retried,
  ingest_event, adapted, ingest,
}
use network_anomaly_root_cau.Ingestion.Steps.{IsStep, IsClean, ingest-IsStep, ingest-IsClean}

abbrev raw : Value
raw = obj (field "token" (text "abc") (field "severity" (text "high") end))

abbrev event : CanonicalEvent
event = record {
  event_id = "e_1";
  timestamp = 60000;
  ingested_at = 60001;
  entity_id = "gateway";
  modality = alert;
  event_type = "HIGH_LATENCY";
  severity = 9000;
  signal_name = none;
  signal_value = none;
  unit = none;
  trace_or_session_id = none;
  source = "alertmanager";
  source_record_id = some "a-17";
  schema_version = "1.0";
  quality_flags = [];
  raw_payload = field "token" (text "abc") (field "severity" (text "high") end);
}

abbrev ingestion : Ingestion
ingestion = record {
  adapters = ("alertmanager", λ v. ok event) ∷ [];
  is_sensitive = λ key. key == "token";
  encoded_size = λ v. 40;
  event_max_payload_bytes = 1000;
  duplicate_bucket_seconds = 60;
  repeatable_log_codes = [];
  sha256 = λ texts. "hash";
  natural_text = λ n. "n";
  value_text = λ v. "v";
  now = 60002;
  quarantine_id = "qevt_1";
  group_id = "col_1";
}

abbrev store : Store
store = record {
  entities = record { id = "gateway"; name = "Gateway" } ∷ [];
  events = [];
  quarantined_events = [];
  collapsed_event_groups = [];
  anomalies = [];
  incident_events = [];
  evaluations = [];
  incidents = [];
  runs = [];
  hypotheses = [];
  evidence = [];
  recommendations = [];
  explanations = [];
  reviews = [];
  audit_logs = [];
}

abbrev clean : CanonicalEvent
clean = record event {
  raw_payload = field "token" (text "[REDACTED]") (field "severity" (text "high") end);
  quality_flags = "RAW_PAYLOAD_REDACTED" ∷ [];
}

abbrev after : Store
after = record store {
  events = event_row ingestion clean ∷ [];
  collapsed_event_groups = new_group ingestion clean ∷ [];
}

-- an alert is accepted with its token redacted, and starts a group
ingest_run :
    ingest ingestion "alertmanager" raw "req_1" store
    ≡ ok (accepted_response ingestion "req_1" (some "e_1") (some "a-17") [], after)
unfolding ingest adapted lookup contains_forbidden_label contains ingest_event retried
    get_by_source_record cleaned visit changes collapse_or_accept get_collapsed_group_by_fingerprint
    accept persist_accepted persist_collapsed_group
ingest_run = refl

ingest-IsStep_example : IsStep ingestion store after
ingest-IsStep_example =
    ingest-IsStep ingestion "alertmanager" raw "req_1" store after
      (accepted_response ingestion "req_1" (some "e_1") (some "a-17") []) ingest_run

ingest-IsClean_example : IsClean ingestion after
ingest-IsClean_example =
    ingest-IsClean ingestion "alertmanager" raw "req_1" store after
      (accepted_response ingestion "req_1" (some "e_1") (some "a-17") [])
      (record { events_are = tt; quarantined_are = tt }) ingest_run

redact_payload-is_redacted_example :
    (is_redacted (λ key. key == "token") (redact_payload (λ key. key == "token") raw).0 ≡ true)
    × ((redact_payload (λ key. key == "token") (redact_payload (λ key. key == "token") raw).0).0
        ≡ (redact_payload (λ key. key == "token") raw).0)
redact_payload-is_redacted_example = redact_payload-is_redacted (λ key. key == "token") raw

abbrev plain : Value
plain = obj (field "severity" (text "high") end)

plain_run : (redact_payload (λ key. key == "token") plain).1 ≡ false
unfolding redact_payload changes
plain_run = refl

redact_payload-unchanged_example : (redact_payload (λ key. key == "token") plain).0 ≡ plain
redact_payload-unchanged_example = redact_payload-unchanged (λ key. key == "token") plain plain_run

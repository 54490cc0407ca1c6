-- ===== src/Rca/Ranker/Coverage.antt =====
-- `_available_requirement` and `_coverage` of backend/app/rca/ranker.py.
use network_anomaly_root_cau.Prelude.{
  ◌≤◌, String, ◌==◌, Bool, true, false, not, ◌&&◌, ◌||◌, Option, none, some, List, [], ◌∷◌, keep,
  any, length, lookup, contains, dedup, keys, if◌then◌else◌, get_or_else, is_some, arith,
}
use package.text.Mathlib.Text.{find?}
use Prim.Native.String.{◌++◌ as append}
use network_anomaly_root_cau.Prelude.Int.{pos, leb_ℤ}
use network_anomaly_root_cau.Contracts.{
  Value, text, Fields, CanonicalEvent, is_modality, log, trace, config_change, EvidenceCoverage,
}
use network_anomaly_root_cau.Rca.Contracts.{IncidentAnalysisBundle}
use network_anomaly_root_cau.Rca.Catalogue.{HypothesisDefinition}
use network_anomaly_root_cau.Rca.Events.{payload_get}
use network_anomaly_root_cau.Rca.Ranker.Observations.{is_true}

-- Python's text functions that the code calls: `str` of a payload value that is no text, `lower` of
-- a text, and `json.dumps(..., sort_keys=True)`
pub record PyText : Type 0 where
  pub py_str : Value → String
  pub lower : String → String
  pub dumps : Fields → String

-- `t in s`
abbrev pub is_part : String → String → Bool
is_part t s = is_some (find? s t)

-- `_CANDIDATE_SCOPED_REQUIREMENTS`
abbrev pub candidate_scoped : List String
candidate_scoped =
    "config_diff" ∷ "forwarded_rate" ∷ "stable_raw_ingress" ∷ "raw_ingress" ∷ "source_distribution"
    ∷ "connection_pressure" ∷ "active_connection_pressure" ∷ "db_utilization" ∷ "pool_waits"
    ∷ "path_telemetry" ∷ "upstream_health" ∷ "dns_queries" ∷ "certificate_state" ∷ "resource_usage"
    ∷ "service_latency" ∷ "resource_log" ∷ "scan_pattern" ∷ "scanner_source"
    ∷ "scanner_authorization" ∷ "change_ticket" ∷ "connection_rejections" ∷ "datanode_health"
    ∷ "replication_state" ∷ "trace_critical_path" ∷ "span_errors" ∷ []

abbrev pub is_text : Option Value → Bool
is_text (some (text s)) = true
is_text _ = false

module _ (py : PyText) where
  abbrev pub name_of : CanonicalEvent → String
  name_of e = get_or_else e.signal_name ""

  -- the local function `contains`
  contains_any : List String → CanonicalEvent → Bool
  contains_any parts e =
      any
        (λ v.
          is_part v (py.lower (name_of e))
          || (is_part v (py.lower e.event_type) || is_part v (py.lower (py.dumps e.raw_payload))))
        parts

  -- `str(event.raw_payload.get(key, "")).lower()`
  lower_of : String → CanonicalEvent → String
  unfolding payload_get
  lower_of key e = elim (payload_get key e.raw_payload) [
    | none ↦ py.lower ""
    | some (text s) ↦ py.lower s
    | some v ↦ py.lower (py.py_str v)
  ]

  -- the dictionary `rules`
  rules : List (String × (CanonicalEvent → Bool))
  unfolding contains_any lower_of payload_get
  rules =
      ("config_diff", λ e. is_modality e.modality config_change)
      ∷ ("forwarded_rate", contains_any ("forwarded_request" ∷ []))
      ∷ ("stable_raw_ingress", contains_any ("raw_ingress" ∷ []))
      ∷ ("raw_ingress", contains_any ("raw_ingress" ∷ []))
      ∷ (
        "source_distribution",
        contains_any ("raw_ingress" ∷ "source_distribution" ∷ "source_ip" ∷ "client_ip" ∷ []),
      )
      ∷ ("connection_pressure", contains_any ("connection_utilization" ∷ []))
      ∷ ("active_connection_pressure", contains_any ("active_connections" ∷ []))
      ∷ ("downstream_latency", contains_any ("latency" ∷ []))
      ∷ ("timeout_log", λ e. is_modality e.modality log && contains_any ("timeout" ∷ []) e)
      ∷ ("waf_decision_logs", contains_any ("waf_decision" ∷ []))
      ∷ ("waf_decisions", contains_any ("waf_decision" ∷ []))
      ∷ ("db_utilization", contains_any ("db_connection_utilization" ∷ []))
      ∷ ("pool_waits", contains_any ("pool_wait" ∷ "rejected_lease" ∷ []))
      ∷ (
        "dependency_timeout",
        λ e.
            is_modality e.modality log
            && (contains_any ("timeout" ∷ []) e
                && is_text (payload_get "dependency_id" e.raw_payload)),
      )
      ∷ ("path_telemetry", contains_any ("packet_loss" ∷ "retransmission" ∷ "hop_latency" ∷ []))
      ∷ (
        "upstream_health",
        λ e.
            any (λ v. is_part v (py.lower e.event_type))
              ("health" ∷ "upstream_failure" ∷ "upstream_error" ∷ []),
      )
      ∷ ("dns_queries", contains_any ("dns" ∷ "resolver" ∷ []))
      ∷ ("certificate_state", contains_any ("certificate" ∷ "tls" ∷ []))
      ∷ ("resource_usage", contains_any ("cpu_usage" ∷ "memory_usage" ∷ []))
      ∷ ("service_latency", contains_any ("service_p95_latency" ∷ []))
      ∷ (
        "resource_log",
        λ e. is_modality e.modality log && contains_any ("resource_saturation" ∷ []) e,
      )
      ∷ (
        "scan_pattern",
        contains_any ("unique_destination_ports" ∷ "destination_fanout" ∷ "port_scan" ∷ []),
      )
      ∷ ("scanner_source", contains_any ("source_fingerprint" ∷ []))
      ∷ (
        "scanner_authorization",
        λ e.
            e.event_type == "SCANNER_ALLOWLIST_MATCH"
            && any (λ k. is_true (payload_get k e.raw_payload))
                ("scanner_authorized" ∷ "allowlisted" ∷ []),
      )
      ∷ (
        "change_ticket",
        contains_any ("change_ticket" ∷ "authorization_ticket" ∷ "approved_scan_ticket" ∷ []),
      )
      ∷ ("connection_rejections", contains_any ("rejected_connection_rate" ∷ []))
      ∷ (
        "datanode_health",
        λ e.
            any (λ v. is_part v (py.lower (append (name_of e) (append " " e.event_type))))
              ("datanode_io_error" ∷ "hdfs_datanode_failure" ∷ []),
      )
      ∷ ("replication_state", contains_any ("replica" ∷ "datanode_failure" ∷ []))
      ∷ (
        "trace_critical_path",
        λ e. is_modality e.modality trace && contains_any ("trace_span_duration" ∷ []) e,
      )
      ∷ (
        "span_errors",
        λ e.
            is_modality e.modality trace
            && ((lower_of "status" e == "error" || lower_of "status" e == "failed")
                || is_part "missing" (lower_of "parent_span_id" e)),
      )
      ∷ []

  -- the payload value is the text
  abbrev pub is_the_text : String → Option Value → Bool
  is_the_text s (some (text t)) = t == s
  is_the_text s _ = false

  -- the local function `in_scope`
  in_scope : String → String → CanonicalEvent → Bool
  unfolding contains payload_get
  in_scope key id e =
      if contains candidate_scoped key && not (e.entity_id == id)
      then false
      else if key == "dependency_timeout"
          && (not (e.entity_id == id)
              && not (is_the_text id (payload_get "dependency_id" e.raw_payload)))
      then false
      else if key == "connection_pressure" || key == "active_connection_pressure"
      then elim e.signal_value [ none ↦ false | some v ↦ leb_ℤ (pos 8000) v ]
      else true

  -- `_available_requirement`
  unfoldable pub available_requirement : String → IncidentAnalysisBundle → String → Bool
  unfolding rules in_scope lookup
  available_requirement key bundle id = elim (lookup key rules) [
    | none ↦ false
    | some matcher ↦ any (λ e. matcher e && in_scope key id e) bundle.attached_events
  ]

  -- `_coverage`
  unfoldable pub coverage :
      HypothesisDefinition → IncidentAnalysisBundle → String → EvidenceCoverage
  unfolding dedup
  coverage entry bundle id =
      let expected_keys = dedup (keys entry.expected_evidence) in
      record {
        available = length (keep (λ k. available_requirement k bundle id) expected_keys);
        expected = length expected_keys;
      }

  length-keep-le {ℓ} : {A : Type ℓ} (p : A → Bool) (xs : List A) → length (keep p xs) ≤ length xs
  length-keep-le p [] = omega arith
  length-keep-le p (x ∷ xs) = ground (arith, length-keep-le p xs)

  -- the contract of `EvidenceCoverage`
  pub coverage-le :
      (entry : HypothesisDefinition) (bundle : IncidentAnalysisBundle) (id : String)
      → (coverage entry bundle id).available ≤ (coverage entry bundle id).expected
  unfolding coverage
  coverage-le entry bundle id =
      length-keep-le (λ k. available_requirement k bundle id) (dedup (keys entry.expected_evidence))

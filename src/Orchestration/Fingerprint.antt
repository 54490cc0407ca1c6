-- ===== src/Orchestration/Fingerprint.antt =====
-- `compute_fingerprint` of backend/app/orchestration/orchestrator.py.
use network_anomaly_root_cau.Prelude.{
  ℕ, String, ◌==◌, Option, none, some, List, [], ◌∷◌, ◌++◌, map, find, sort_by, insert_by,
  if◌then◌else◌,
}
use network_anomaly_root_cau.Prelude.Int.{ℤ}
use network_anomaly_root_cau.Contracts.{Fields, end}
use network_anomaly_root_cau.Db.Tables.{Event, IncidentEvent, Store}
use network_anomaly_root_cau.Incidents.Tables.{get_attached_events, get_events_by_ids}
use network_anomaly_root_cau.Rca.Events.{text_le}

-- the dictionary that is hashed; the versions of the topology and of the catalogues are constants of
-- the deployment
pub record FingerprintInput : Type 0 where
  pub event_ids : List String
  pub event_hashes : List (String × String)
  pub topology_version : String
  pub catalogue_versions : List (String × String)
  pub algorithm_version : String

-- SHA-256 of texts one after another and of `json.dumps`, and the texts of Python's values
pub record Hashing : Type 0 where
  pub sha256 : List String → String
  pub sha256_json : FingerprintInput → String
  pub instant_text : ℕ → String
  pub ratio_text : ℕ → String
  pub value_text : ℤ → String
  pub payload_text : Fields → String
  pub topology_version : String
  pub catalogue_versions : List (String × String)

abbrev pub algorithm_version : String
algorithm_version = "rca-rules-1.1"

-- a text that is hashed if it is not empty
abbrev pub text_of : Option String → List String
text_of none = []
text_of (some s) = if s == "" then [] else s ∷ []

module _ (h : Hashing) where
  abbrev pub value_of : Option ℤ → List String
  value_of none = []
  value_of (some x) = h.value_text x ∷ []

  abbrev pub payload_of : Fields → List String
  payload_of end = []
  payload_of payload = h.payload_text payload ∷ []

  -- what of an event is hashed
  abbrev pub content_of : Event → List String
  content_of e =
      (e.id
        ∷ h.instant_text e.timestamp
        ∷ e.entity_id
        ∷ e.modality
        ∷ e.event_type
        ∷ h.ratio_text e.severity
        ∷ [])
      ++ text_of e.signal_name
      ++ value_of e.signal_value
      ++ text_of e.unit
      ++ text_of e.trace_or_session_id
      ++ payload_of e.raw_payload

  abbrev pub event_hash : List Event → String → String × String
  event_hash events id = elim (find (λ (e : Event). e.id == id) events) [
    | none ↦ (id, "missing")
    | some e ↦ (id, h.sha256 (content_of e))
  ]

  unfoldable pub compute_fingerprint : List Event → List String → String
  unfolding sort_by insert_by get_events_by_ids
  compute_fingerprint events incident_event_ids =
      let sorted_ids = sort_by text_le incident_event_ids in
      h.sha256_json (record {
        event_ids = sorted_ids;
        event_hashes = map (event_hash (get_events_by_ids events sorted_ids)) sorted_ids;
        topology_version = h.topology_version;
        catalogue_versions = h.catalogue_versions;
        algorithm_version = algorithm_version;
      })

  -- the fingerprint of an incident's attached events
  unfoldable pub fingerprint_of : Store → String → String
  unfolding compute_fingerprint sort_by insert_by
  fingerprint_of st incident_id =
      let ids =
        map (λ (r : IncidentEvent). r.event_id)
          (get_attached_events st.incident_events incident_id) in
      compute_fingerprint st.events (sort_by text_le ids)

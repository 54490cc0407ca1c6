-- ===== src/Contracts.antt =====
-- backend/app/contracts: the canonical values that the components exchange.
-- Instants are milliseconds since the epoch. A float in [0, 1] is a number of ten-thousandths
-- (`unit` is 1.0), and a measured signal value is an integer number of ten-thousandths.
use network_anomaly_root_cau.Prelude.{List, ℕ, String, Bool, true, false, Option}
use network_anomaly_root_cau.Prelude.Int.{ℤ}

abbrev pub unit : ℕ
unit = 10000

-- `JsonValue`, as the payload of an event holds it
mutual
  pub data Value : Type 0 where
    obj : Fields → Value
    arr : Items → Value
    text : String → Value
    num : ℤ → Value
    flag : Bool → Value
    null : Value

  -- the entries of an object, in the order of the text
  pub data Fields : Type 0 where
    field : String → Value → Fields → Fields
    end : Fields

  -- the items of an array
  pub data Items : Type 0 where
    cons : Value → Items → Items
    nil : Items

pub data Modality : Type 0 where
  metric log alert config_change trace : Modality

-- `event.modality is Modality.X`
abbrev pub is_modality : Modality → Modality → Bool
is_modality metric metric = true
is_modality log log = true
is_modality alert alert = true
is_modality config_change config_change = true
is_modality trace trace = true
is_modality _ _ = false

pub data TopologyRelation : Type 0 where
  depends_on sends_traffic_to : TopologyRelation

abbrev pub is_relation : TopologyRelation → TopologyRelation → Bool
is_relation depends_on depends_on = true
is_relation sends_traffic_to sends_traffic_to = true
is_relation _ _ = false

-- contracts/events.py
pub record CanonicalEvent : Type 0 where
  pub event_id : String
  pub timestamp : ℕ
  pub ingested_at : ℕ
  pub entity_id : String
  pub modality : Modality
  pub event_type : String
  pub severity : ℕ
  pub signal_name : Option String
  pub signal_value : Option ℤ
  pub unit : Option String
  pub trace_or_session_id : Option String
  pub source : String
  pub source_record_id : Option String
  pub schema_version : String
  pub quality_flags : List String
  pub raw_payload : Fields

-- contracts/anomalies.py, the fields that the analysis reads
pub record AnomalyRecord : Type 0 where
  pub anomaly_id : String
  pub event_id : String
  pub anomaly_type : String
  pub score : ℕ
  pub context_only : Bool
  pub can_open_incident : Bool

-- contracts/hypotheses.py
pub record EvidenceCoverage : Type 0 where
  pub available : ℕ
  pub expected : ℕ

pub record ExplanationClaim : Type 0 where
  pub claim : String
  pub evidence_ids : List String

pub record ExplanationOutput : Type 0 where
  pub analysis_run_id : String
  pub incident_id : String
  pub hypothesis_id : String
  pub generator : String
  pub summary : String
  pub claims : List ExplanationClaim
  pub diagnostic_step_ids : List String
  pub remediation_step_ids : List String

-- ===== src/Incidents/Scoring.antt =====
-- `IncidentManager.score_attachment` of backend/app/incidents/manager.py. A score is a number of
-- ten-thousandths; every amount that is added is a whole number of hundredths, so that
-- `round(..., 2)` of the sum is the sum.
pub mod Bounds
use network_anomaly_root_cau.Prelude.{
  ℕ, ◌+◌, ◌-◌, ◌*◌, String, ◌==◌, Bool, true, false, not, ◌&&◌, ◌||◌, Option, none, some, List, [],
  ◌∷◌, ◌++◌, map, keep, ltb, leb, eqb, contains, dedup, is_empty, if◌then◌else◌,
}
use network_anomaly_root_cau.Prelude.Int.{ℤ, pos, negsuc, ◌+ℤ◌, clamp, leb_ℤ}
use network_anomaly_root_cau.Prelude.Result.{Result, ok, err}
use network_anomaly_root_cau.Db.Tables.{Event, Anomaly, Incident}
use network_anomaly_root_cau.Incidents.Symptoms.{
  SymptomCatalogue, EvidenceRuleMatch, families_for, incompatibility_reason, evidence_rule_matches,
  filled, is_among,
}

-- the settings of backend/app/config.py that the manager reads; thresholds in ten-thousandths
pub record Settings : Type 0 where
  pub incident_open_threshold : ℕ
  pub incident_lookback_seconds : ℕ
  pub incident_idle_window_seconds : ℕ
  pub incident_max_topology_hops : ℕ
  pub incident_attachment_threshold : ℕ

pub record IncidentAttachmentContext : Type 0 where
  pub symptom_family : Option String
  pub trace_or_session_id : Option String
  pub opening_symptom_at : ℕ

pub record AttachmentEvaluation : Type 0 where
  pub decision : String
  pub score : ℤ
  pub reasons : List String
  pub has_strong_relationship : Bool
  pub matched_evidence_rule_ids : List String

-- the variables `score`, `reasons` and `has_relationship`
pub record Draft : Type 0 where
  pub score : ℤ
  pub reasons : List String
  pub has_relationship : Bool

-- `score += amount`, `reasons.append(reason)`, and `has_relationship = True`
abbrev pub related : ℕ → String → Draft → Draft
unfolding ◌+ℤ◌
related amount reason d = record {
  score = d.score +ℤ pos amount;
  reasons = d.reasons ++ reason ∷ [];
  has_relationship = true;
}

-- -0.25 and -0.20
abbrev pub minus_2500 : ℤ
minus_2500 = negsuc 2499

abbrev pub minus_2000 : ℤ
minus_2000 = negsuc 1999

module _ (settings : Settings) (topology_distance : String → String → Result ℕ) where
  -- `_traffic_distance`: no path, an unknown entity or a path too long is no distance
  unfoldable pub traffic_distance : String → String → Option ℕ
  traffic_distance source target = elim (topology_distance source target) [
    | err e ↦ none
    | ok d ↦ if ltb settings.incident_max_topology_hops d then none else some d
  ]

  abbrev pub by_distance : Option ℕ → Draft → Draft
  by_distance none d = d
  by_distance (some n) d =
      if eqb n 1
      then related 3000 "ONE_TRAFFIC_HOP" d
      else if eqb n 2
      then related 1500 "TWO_TRAFFIC_HOPS" d
      else d

  abbrev pub add_entity : Incident → Event → Draft → Draft
  unfolding traffic_distance
  add_entity incident event d =
      if event.entity_id == incident.primary_entity_id
      then related 4000 "SAME_ENTITY" d
      else by_distance (traffic_distance incident.primary_entity_id event.entity_id) d

-- `same_trace` and `different_trace`
abbrev pub same_trace : Option String → Option String → Bool
same_trace none event = false
same_trace (some t) none = false
same_trace (some t) (some e) = e == t

abbrev pub different_trace : Option String → Option String → Bool
different_trace none event = false
different_trace (some t) none = false
different_trace (some t) (some e) = not (e == t)

abbrev pub add_trace : IncidentAttachmentContext → Event → Draft → Draft
add_trace context event d =
    if same_trace context.trace_or_session_id event.trace_or_session_id
    then related 4000 "SHARED_SCENARIO_TRACE" d
    else d

abbrev pub is_no_hop : String → Bool
is_no_hop reason = not (reason == "ONE_TRAFFIC_HOP" || reason == "TWO_TRAFFIC_HOPS")

abbrev pub subtract_family : Option String → Draft → Draft
unfolding ◌+ℤ◌
subtract_family none d = d
subtract_family (some reason) d = record d {
  score = d.score +ℤ minus_2500;
  reasons = keep is_no_hop (d.reasons ++ reason ∷ []);
}

abbrev pub add_symptom : SymptomCatalogue → IncidentAttachmentContext → Event → Draft → Draft
unfolding ◌+ℤ◌
add_symptom c context event d =
    let event_families = families_for c event.event_type in
    if is_among event_families context.symptom_family
    then record d { score = d.score +ℤ pos 2000; reasons = d.reasons ++ "COMPATIBLE_SYMPTOM" ∷ [] }
    else subtract_family (incompatibility_reason c context.symptom_family event_families) d

abbrev pub subtract_trace : IncidentAttachmentContext → Event → Draft → Draft
unfolding ◌+ℤ◌
subtract_trace context event d =
    if different_trace context.trace_or_session_id event.trace_or_session_id
    then record d {
      score = d.score +ℤ minus_2000;
      reasons = d.reasons ++ "EXPLICIT_DIFFERENT_TRACE" ∷ [];
    }
    else d

-- `abs(a - b) <= 60` in seconds
abbrev pub within_60_seconds : ℕ → ℕ → Bool
within_60_seconds a b = leb a (b + 60000) && leb b (a + 60000)

abbrev pub temporal_anchor : Incident → IncidentAttachmentContext → Bool → ℕ
temporal_anchor incident context lookback =
    if lookback then context.opening_symptom_at else incident.started_at

abbrev pub add_time : Incident → Event → IncidentAttachmentContext → Bool → Draft → Draft
unfolding ◌+ℤ◌
add_time incident event context lookback d =
    if within_60_seconds event.timestamp (temporal_anchor incident context lookback)
    then record d {
      score = d.score +ℤ pos 1000;
      reasons =
          if lookback && ltb event.timestamp context.opening_symptom_at
          then d.reasons ++ "WITHIN_60_SECONDS" ∷ []
          else d.reasons;
    }
    else d

-- the reason codes of the matched rules that have one
abbrev pub codes_of : List EvidenceRuleMatch → List String
codes_of [] = []
codes_of (m ∷ ms) = elim (filled m.attachment_reason_code) [
  | none ↦ codes_of ms
  | some code ↦ code ∷ codes_of ms
]

abbrev pub no_draft : Draft
no_draft = record { score = pos 0; reasons = []; has_relationship = false }

module _ (settings : Settings) (topology_distance : String → String → Result ℕ)
    (c : SymptomCatalogue) where
  -- the draft after the six steps on the score
  unfoldable pub draft_of : Incident → Event → IncidentAttachmentContext → Bool → Draft
  draft_of incident event context lookback = add_time incident event context lookback (
      subtract_trace context event (
        add_symptom c context event (
          add_trace context event (add_entity settings topology_distance incident event no_draft))))

  abbrev pub is_after_window : Incident → Event → Bool
  is_after_window incident event =
      ltb (incident.last_event_at + settings.incident_idle_window_seconds * 1000) event.timestamp

  unfoldable pub evaluate : List Anomaly → List EvidenceRuleMatch → Draft → AttachmentEvaluation
  unfolding dedup
  evaluate anomalies rules d =
      let score = clamp (negsuc 9999) (pos 10000) d.score in
      let significant = not (is_empty anomalies) || not (is_empty rules) in
      let attach =
        significant
        && d.has_relationship
        && leb_ℤ (pos settings.incident_attachment_threshold) score in
      record {
        decision = if attach then "attached" else "excluded";
        score = score;
        reasons = dedup (d.reasons ++ codes_of rules);
        has_strong_relationship = d.has_relationship;
        matched_evidence_rule_ids = map (λ (m : EvidenceRuleMatch). m.rule_id) rules;
      }

  unfoldable pub score_attachment :
      Incident → Event → List Anomaly → IncidentAttachmentContext → Bool → AttachmentEvaluation
  unfolding draft_of evaluate
  score_attachment incident event anomalies context lookback =
      if not lookback && is_after_window incident event
      then record {
        decision = "excluded";
        score = pos 0;
        reasons = "AFTER_INCIDENT_WINDOW" ∷ [];
        has_strong_relationship = false;
        matched_evidence_rule_ids = [];
      }
      else evaluate anomalies
          (evidence_rule_matches c event context.symptom_family context.opening_symptom_at)
          (draft_of incident event context lookback)

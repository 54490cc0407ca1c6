-- ===== src/Orchestration/Retry.antt =====
-- `_run_rca_and_publish` of backend/app/orchestration/orchestrator.py, called again.
use network_anomaly_root_cau.Prelude.{
  String, ◌==◌, eq_iff, ◌≡◌, refl, sym, ap, ◌∙◌, true, Option, some, List, [], ◌∷◌, find-eq-some,
  Bool-cases, inl, inr, get_or_else,
}
use network_anomaly_root_cau.Prelude.Result.{ok}
use network_anomaly_root_cau.Db.Tables.{Incident, AnalysisRun, Store}
use network_anomaly_root_cau.Db.Repositories.{incident_by_id, update_row}
use network_anomaly_root_cau.Orchestration.Runs.{
  get_current_for_incident, fingerprint_exists_as_current, with_current_run,
}
use network_anomaly_root_cau.Orchestration.Fingerprint.{Hashing, fingerprint_of}
use network_anomaly_root_cau.Orchestration.Publish.{Orchestrator, returned, run_rca_and_publish}
use network_anomaly_root_cau.Orchestration.Swapped.{Current}
use network_anomaly_root_cau.Orchestration.Published.{
  IsPublished, fingerprint, building, run_rca_and_publish-IsPublished,
}

-- the fingerprint is a function of the events and the attachments
fingerprint_of-same :
    (h : Hashing) (a b : Store) (id : String)
    → b.events ≡ a.events
    → b.incident_events ≡ a.incident_events
    → fingerprint_of h b id ≡ fingerprint_of h a id
unfolding fingerprint_of
fingerprint_of-same h a b id e f = rw (e, f) refl

fingerprint_exists-Current :
    (run : AnalysisRun) (runs : List AnalysisRun)
    → Current run runs
    → fingerprint_exists_as_current runs run.incident_id run.input_fingerprint ≡ ok true
unfolding fingerprint_exists_as_current get_current_for_incident
fingerprint_exists-Current run runs c =
    rw c.current_are
      (ap ok ((eq_iff c.row.input_fingerprint run.input_fingerprint).1 c.fingerprint_is))

some-eq : {i j : Incident} → ◌≡◌ {A = Option Incident} (some i) (some j) → i ≡ j
some-eq e = cc

pointer-after :
    (id run_id : String) (top : Option String) (incidents : List Incident) (i : Incident)
    → incident_by_id (update_row id (with_current_run run_id top) incidents) id ≡ some i
    → i.current_analysis_run_id ≡ some run_id
pointer-after id run_id top [] i e = cc
pointer-after id run_id top (j ∷ rest) i e = elim (Bool-cases (j.id == id)) [
  | inl hit ↦ ap (λ (k : Incident). k.current_analysis_run_id) (sym (some-eq (rw (hit, hit) at e)))
  | inr miss ↦ pointer-after id run_id top rest i (rw (miss, miss) at e)
]

id-found :
    (incidents : List Incident) (id : String) (i : Incident)
    → incident_by_id incidents id ≡ some i
    → i.id ≡ id
id-found incidents id i e =
    (eq_iff i.id id).0 (find-eq-some (λ (j : Incident). j.id == id) incidents i e)

returned_of_current :
    (p : Orchestrator) (i : Incident) (trigger : Option String) (st : Store)
    → fingerprint_exists_as_current st.runs i.id (fingerprint p st i) ≡ ok true
    → run_rca_and_publish p i trigger st ≡ returned (get_or_else i.current_analysis_run_id "") st
unfolding run_rca_and_publish
returned_of_current p i trigger st h = rw (run_rca_and_publish, h) refl

module _ (o : Orchestrator) (incident : Incident) (trigger : Option String) (st new : Store)
    (id : String) where
  fingerprint_exists-again :
      (p : Orchestrator) (after : Incident)
      → p.hashing ≡ o.hashing
      → after.id ≡ incident.id
      → new.events ≡ st.events
      → new.incident_events ≡ st.incident_events
      → fingerprint_exists_as_current new.runs incident.id (fingerprint o st incident) ≡ ok true
      → fingerprint_exists_as_current new.runs after.id (fingerprint p new after) ≡ ok true
  fingerprint_exists-again p after same_hashing same_id events attachments h =
      rw
        (same_id, same_hashing, fingerprint_of-same o.hashing st new incident.id events attachments)
        h

  -- If _run_rca_and_publish has returned an ID for an incident of the table, the same call for the
  -- incident as it then stands, with any trigger, clock, engine and new run ID, returns the same ID and
  -- changes nothing.
  pub run_rca_and_publish-again :
      (p : Orchestrator) (again : Option String) (after : Incident)
      → p.hashing ≡ o.hashing
      → incident_by_id st.incidents incident.id ≡ some incident
      → run_rca_and_publish o incident trigger st ≡ returned id new
      → incident_by_id new.incidents incident.id ≡ some after
      → run_rca_and_publish p after again new ≡ returned id new
  run_rca_and_publish-again p again after same_hashing stands e found =
      let after_id = id-found new.incidents incident.id after found in
      elim (run_rca_and_publish-IsPublished o incident trigger st new id e) [
        | IsPublished.unchanged pointer same known ↦
            let after_is = some-eq (
              sym found
              ∙ ap (λ (s : Store). incident_by_id s.incidents incident.id) same
              ∙ stands) in
            returned_of_current p after again new (
              fingerprint_exists-again p after same_hashing after_id
                (ap (λ (s : Store). s.events) same) (ap (λ (s : Store). s.incident_events) same)
                (rw same known))
            ∙ ap (λ x. returned x new)
                (ap (λ (i : Incident). get_or_else i.current_analysis_run_id "") after_is
                  ∙ sym pointer)
        | IsPublished.swapped top same_id s ↦
            let pointer =
              pointer-after incident.id o.run_id top st.incidents after
                (rw s.incidents_are at found) in
            returned_of_current p after again new (
              fingerprint_exists-again p after same_hashing after_id s.events_are s.attachments_are
                (fingerprint_exists-Current (building o st incident trigger) new.runs s.current))
            ∙ ap (λ x. returned x new) (ap (λ q. get_or_else q "") pointer ∙ sym same_id)
      ]

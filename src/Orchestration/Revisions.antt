-- ===== src/Orchestration/Revisions.antt =====
-- The next revision of backend/app/orchestration/orchestrator.py is free, and its failures are recorded.
use network_anomaly_root_cau.Prelude.{
  ℕ, ◌<◌, String, ◌==◌, eq_iff, ◌≡◌, refl, Bool, true, false, Option, List, [], ◌∷◌, any, ltb,
  contains, arith, get_or_else, none, some, Option-cases, ◌⊎◌, inl, inr,
}
use network_anomaly_root_cau.Prelude.Result.{ok, ◌>>=◌, Result-cases}
use network_anomaly_root_cau.Db.Tables.{
  Event, Incident, AnalysisRun, AuditWrite, Store, validate_scope,
}
use network_anomaly_root_cau.Db.Repositories.{append_audit}
use network_anomaly_root_cau.Incidents.Tables.{is_incident}
use network_anomaly_root_cau.Orchestration.Runs.{
  is_run, is_trigger, is_revision, max_revision, get_next_revision, create_run, update_run,
  as_failed, mark_failed, fingerprint_exists_as_current,
}
use network_anomaly_root_cau.Orchestration.Publish.{
  Orchestrator, Publication, returned, failed, aborted, committed, with_runs, failed_entry,
  persist_failed_run, atomic_publish, analysed, fail, publish_or_fail, start_run,
  run_rca_and_publish,
}
use network_anomaly_root_cau.Orchestration.Published.{fingerprint, building}
use network_anomaly_root_cau.Orchestration.Failure.{with_failure}

-- the call has returned, or it has failed and the tables with the failure are committed, or that
-- commit has raised
abbrev pub Ended : Orchestrator → AnalysisRun → Store → Publication → Type 0
Ended o run st p =
    ((id : String) × (new : Store) × (p ≡ returned id new))
    ⊎ ((message : String) × (o.commit (with_failure o run message st) ≡ none)
        × (p ≡ failed message (with_failure o run message st)))
    ⊎ ((message : String) × (error : String) × (o.commit (with_failure o run message st)
          ≡ some error)
        × (p ≡ aborted error))

above_free :
    (id : String) (n : ℕ) (runs : List AnalysisRun)
    → max_revision id runs < n
    → any (is_revision id n) runs ≡ false
above_free id n [] h = refl
above_free id n (r ∷ rs) h = ground (arith, above_free id n rs, h)

create_run-building :
    (incidents : List Incident) (events : List Event) (run : AnalysisRun) (runs : List AnalysisRun)
    → run.revision ≡ get_next_revision runs run.incident_id
    → any (is_run run.id) runs ≡ false
    → any (is_incident run.incident_id) incidents ≡ true
    → is_trigger events run.trigger_event_id ≡ true
    → create_run incidents events run runs ≡ ok (run ∷ runs)
unfolding create_run
create_run-building incidents events run runs h free known triggered =
    rw (free, above_free run.incident_id run.revision runs (ground (arith, h)), known, triggered)
      refl

module _ (o : Orchestrator) (run : AnalysisRun) (named : run.incident_id == "" ≡ false)
    (asked : o.analysis_request run.id == "" ≡ false) (counted : ltb 0 run.revision ≡ true) where
  append_audit-failed :
      (message : String) (logs : List AuditWrite)
      → append_audit logs (failed_entry o run message) ≡ ok (failed_entry o run message ∷ logs)
  unfolding append_audit validate_scope contains
  append_audit-failed message logs = rw (named, asked, counted) refl

  mark_failed-head :
      (reason : String) (runs : List AnalysisRun)
      → mark_failed run.id reason o.now (run ∷ runs) ≡ ok (as_failed o.now reason run ∷ runs)
  unfolding mark_failed update_run
  mark_failed-head reason runs = rw ((eq_iff run.id run.id).1 refl) refl

  persist_failed_run-head :
      (message : String) (st : Store)
      → persist_failed_run o run message (with_runs o (run ∷ st.runs) st)
        ≡ ok (with_failure o run message st)
  unfolding persist_failed_run
  persist_failed_run-head message st =
      rw
        (
          persist_failed_run,
          mark_failed-head (o.failure_reason message) st.runs,
          append_audit-failed message st.audit_logs,
        )
        refl

  fail-Ended :
      (message : String) (st : Store)
      → Ended o run st (fail o run message (with_runs o (run ∷ st.runs) st))
  unfolding fail
  fail-Ended message st =
      rw (fail, persist_failed_run-head message st)
        (elim (Option-cases (o.commit (with_failure o run message st))) [
          | inl h ↦ inr (inl (message, h, rw (committed, h) refl))
          | inr (error, h) ↦ inr (inr (message, error, h, rw (committed, h) refl))
        ])

  -- the ends of a call that keeps what it has read
  publish_or_fail-Ended :
      (incident : Incident) (st : Store)
      → Ended o run st (publish_or_fail o run incident (with_runs o (run ∷ st.runs) st))
  unfolding publish_or_fail
  publish_or_fail-Ended incident st =
      elim (Result-cases (
        analysed o incident run (with_runs o (run ∷ st.runs) st) >>= λ result.
        atomic_publish o run result incident (with_runs o (run ∷ st.runs) st))) [
          | inl (new, h) ↦ inl (run.id, new, rw (publish_or_fail, h) refl)
          | inr (m, h) ↦ rw (publish_or_fail, h) (fail-Ended m st)
        ]

-- If the incident and the request of the run have names, the incident and the trigger, if any, are in
-- their tables, the ID of the new run is free, and the query for the current run of the incident does
-- not raise, then _run_rca_and_publish ends in one of three ways: it returns an ID; or it fails with a
-- message, and the tables with the failed run and its audit entry are committed; or that commit raises,
-- and its error leaves the call. The engine is any function of the incident, the tables and the ID
-- of the run that returns a result or raises, so an engine that writes to the session is not covered.
pub run_rca_and_publish-Ended :
    (o : Orchestrator) (incident : Incident) (trigger : Option String) (st : Store) (same : Bool)
    → incident.id == "" ≡ false
    → o.analysis_request o.run_id == "" ≡ false
    → any (is_incident incident.id) st.incidents ≡ true
    → is_trigger st.events trigger ≡ true
    → any (is_run o.run_id) st.runs ≡ false
    → fingerprint_exists_as_current st.runs incident.id (fingerprint o st incident) ≡ ok same
    → Ended o (building o st incident trigger) st (run_rca_and_publish o incident trigger st)
unfolding run_rca_and_publish start_run
run_rca_and_publish-Ended o incident trigger st true named asked known triggered free e =
    inl (get_or_else incident.current_analysis_run_id "", st, rw (run_rca_and_publish, e) refl)
run_rca_and_publish-Ended o incident trigger st false named asked known triggered free e =
    let run = building o st incident trigger in
    rw
      (
        run_rca_and_publish,
        e,
        start_run,
        create_run-building st.incidents st.events run st.runs refl free known triggered,
      )
      (publish_or_fail-Ended o run named asked (ground arith) incident st)

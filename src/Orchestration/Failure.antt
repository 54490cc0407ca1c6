-- ===== src/Orchestration/Failure.antt =====
-- What `_run_rca_and_publish` of backend/app/orchestration/orchestrator.py leaves when it fails.
use network_anomaly_root_cau.Prelude.{
  ℕ, String, ◌==◌, eq_iff, ◌≡◌, refl, sym, ap, ◌∙◌, not, ◌&&◌, ◌||◌, Option-cases, Option, none,
  some, List, [], ◌∷◌, any, ltb, is_some, contains, Bool-cases, inl, inr,
}
use network_anomaly_root_cau.Prelude.Result.{
  Result, ok, err, ◌>>=◌, >>=-eq-ok, raise_if-eq-ok, ok-injective, Result-cases,
}
use network_anomaly_root_cau.Db.Tables.{
  Event, Incident, AnalysisRun, AuditWrite, Store, incident_scoped, run_scoped, validate_scope,
}
use network_anomaly_root_cau.Db.Repositories.{append_audit}
use network_anomaly_root_cau.Orchestration.Runs.{
  is_refused, create_run, mark_failed, as_failed, fingerprint_exists_as_current,
}
use network_anomaly_root_cau.Orchestration.Publish.{
  Orchestrator, failed, with_runs, committed, failed_entry, persist_failed_run, atomic_publish,
  analysed, fail, publish_or_fail, start_run, run_rca_and_publish,
}
use network_anomaly_root_cau.Orchestration.Swapped.{update_run-eq-ok}
use network_anomaly_root_cau.Orchestration.Published.{fingerprint, building}

validate_scope-eq-ok : (w v : AuditWrite) → validate_scope w ≡ ok v → v ≡ w
unfolding validate_scope
validate_scope-eq-ok w v e =
    let (a, e1) =
      raise_if-eq-ok (w.object_type == "" || w.object_id == "" || w.request_id == "") _ _ e in
    let (b, e2) =
      raise_if-eq-ok
        (any (λ (n : ℕ). not (ltb 0 n)) (elim w.analysis_revision [ none ↦ [] | some n ↦ n ∷ [] ]))
        _ _ e1 in
    let (c, e3) =
      raise_if-eq-ok (contains incident_scoped w.action && not (is_some w.incident_id)) _ _ e2 in
    let (d, e4) =
      raise_if-eq-ok
        (contains run_scoped w.action
          && not (is_some w.analysis_run_id && is_some w.analysis_revision))
        _ _ e3 in
    let (f, e5) =
      raise_if-eq-ok
        (w.action == "INCIDENT_STATUS_CHANGED"
          && not (is_some w.previous_state && is_some w.new_state))
        _ _ e4 in
    sym (ok-injective e5)

append_audit-eq-ok :
    (logs new : List AuditWrite) (w : AuditWrite) → append_audit logs w ≡ ok new → new ≡ w ∷ logs
unfolding append_audit
append_audit-eq-ok logs new w e =
    let (v, h, e1) = >>=-eq-ok (validate_scope w) _ e in
    sym (ok-injective e1) ∙ ap (λ x. x ∷ logs) (validate_scope-eq-ok w v h)

create_run-eq-ok :
    (incidents : List Incident) (events : List Event) (run : AnalysisRun)
    (runs new : List AnalysisRun)
    → create_run incidents events run runs ≡ ok new
    → new ≡ run ∷ runs
unfolding create_run
create_run-eq-ok incidents events run runs new e =
    let (free, e1) = raise_if-eq-ok (is_refused incidents events run runs) _ _ e in
    sym (ok-injective e1)

failed-injective : {a b : String} {x y : Store} → failed a x ≡ failed b y → (a ≡ b) × (x ≡ y)
failed-injective e = (cc, cc)

module _ (o : Orchestrator) where
  -- the tables with one failed run and one audit entry more
  abbrev pub with_failure : AnalysisRun → String → Store → Store
  with_failure run message st = record st {
    runs = as_failed o.now (o.failure_reason message) run ∷ st.runs;
    audit_logs = failed_entry o run message ∷ st.audit_logs;
  }

  persist_failed_run-eq-ok :
      (run : AnalysisRun) (message : String) (st new : Store)
      → persist_failed_run o run message (with_runs o (run ∷ st.runs) st) ≡ ok new
      → new ≡ with_failure run message st
  unfolding persist_failed_run mark_failed
  persist_failed_run-eq-ok run message st new e =
      let (runs, h, e1) =
        >>=-eq-ok (mark_failed run.id (o.failure_reason message) o.now (run ∷ st.runs)) _ e in
      let (logs, h1, e2) =
        >>=-eq-ok (append_audit st.audit_logs (failed_entry o run message)) _ e1 in
      let marked : runs ≡ as_failed o.now (o.failure_reason message) run ∷ st.runs =
        rw ((eq_iff run.id run.id).1 refl) at (
          update_run-eq-ok run.id (as_failed o.now (o.failure_reason message)) (run ∷ st.runs) runs
            h) in
      let logged = append_audit-eq-ok st.audit_logs logs (failed_entry o run message) h1 in
      rw (marked, logged) at (sym (ok-injective e2))

  -- the engine and the publication, inside the savepoint
  abbrev pub attempt : AnalysisRun → Incident → Store → Result Store
  attempt run incident st =
      analysed o incident run st >>= λ result. atomic_publish o run result incident st

  committed-eq-failed :
      (m message : String) (s new : Store)
      → committed o m s ≡ failed message new
      → (m ≡ message) × (s ≡ new)
  committed-eq-failed m message s new e = elim (Option-cases (o.commit s)) [
    | inl h ↦ failed-injective (rw (committed, h) at e)
    | inr (x, h) ↦ cc (rw (committed, h) at e)
  ]

  fail-eq-failed :
      (run : AnalysisRun) (m message : String) (st new : Store)
      → fail o run m (with_runs o (run ∷ st.runs) st) ≡ failed message new
      → (m ≡ message) × (new ≡ with_failure run m st)
  unfolding fail
  fail-eq-failed run m message st new e =
      elim (Result-cases (persist_failed_run o run m (with_runs o (run ∷ st.runs) st))) [
        | inr (x, h) ↦ cc (rw (fail, h) at e)
        | inl (s, h) ↦
            let (same_message, same) = committed-eq-failed m message s new (rw (fail, h) at e) in
            (same_message, sym same ∙ persist_failed_run-eq-ok run m st s h)
      ]

  publish_or_fail-eq-failed :
      (run : AnalysisRun) (incident : Incident) (message : String) (st new : Store)
      → publish_or_fail o run incident (with_runs o (run ∷ st.runs) st) ≡ failed message new
      → (attempt run incident (with_runs o (run ∷ st.runs) st) ≡ err message)
        × (new ≡ with_failure run message st)
  unfolding publish_or_fail
  publish_or_fail-eq-failed run incident message st new e =
      elim (Result-cases (attempt run incident (with_runs o (run ∷ st.runs) st))) [
        | inl (s, h) ↦ cc (rw (publish_or_fail, h) at e)
        | inr (m, h) ↦
            let (same, after) =
              fail-eq-failed run m message st new (rw (publish_or_fail, h) at e) in
            (h ∙ ap err same, after ∙ ap (λ x. with_failure run x st) same)
      ]

  start_run-eq-failed :
      (run : AnalysisRun) (incident : Incident) (message : String) (st new : Store)
      → start_run o incident run st ≡ failed message new
      → (attempt run incident (with_runs o (run ∷ st.runs) st) ≡ err message)
        × (new ≡ with_failure run message st)
  unfolding start_run
  start_run-eq-failed run incident message st new e =
      elim (Result-cases (create_run st.incidents st.events run st.runs)) [
        | inr (m, h) ↦ cc (rw (start_run, h) at e)
        | inl (runs, h) ↦ publish_or_fail-eq-failed run incident message st new (
            rw (create_run-eq-ok st.incidents st.events run st.runs runs h) at
              (rw (start_run, h) at e))
      ]

  -- If _run_rca_and_publish fails with a message, then the engine or the publication of its result
  -- failed with that message, and the tables are as they were but for one more run, which is failed,
  -- with the next revision and the message's reason, and one more audit entry about it.
  pub run_rca_and_publish-failed :
      (incident : Incident) (trigger : Option String) (st new : Store) (message : String)
      → run_rca_and_publish o incident trigger st ≡ failed message new
      → (attempt
            (building o st incident trigger)
            incident
            (with_runs o (building o st incident trigger ∷ st.runs) st)
          ≡ err message)
        × (new ≡ with_failure (building o st incident trigger) message st)
  unfolding run_rca_and_publish
  run_rca_and_publish-failed incident trigger st new message e =
      elim (Result-cases
        (fingerprint_exists_as_current st.runs incident.id (fingerprint o st incident))) [
          | inr (m, h) ↦ cc (rw (run_rca_and_publish, h) at e)
          | inl (known, h) ↦ elim (Bool-cases known) [
            | inl same ↦ cc (rw (run_rca_and_publish, h, same) at e)
            | inr differs ↦
                start_run-eq-failed (building o st incident trigger) incident message st new
                  (rw (run_rca_and_publish, h, differs) at e)
          ]
        ]

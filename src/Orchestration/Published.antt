-- ===== src/Orchestration/Published.antt =====
-- What `_run_rca_and_publish` of backend/app/orchestration/orchestrator.py has done when it ends.
use network_anomaly_root_cau.Prelude.{
  String, ◌≡◌, sym, ap, ◌∙◌, true, Option, Bool-cases, Option-cases, inl, inr, get_or_else,
}
use network_anomaly_root_cau.Prelude.Result.{ok, ◌>>=◌, >>=-eq-ok, Result-cases}
use network_anomaly_root_cau.Db.Tables.{Incident, AnalysisRun, Store}
use network_anomaly_root_cau.Orchestration.Runs.{
  create_run, fingerprint_exists_as_current, get_next_revision,
}
use network_anomaly_root_cau.Orchestration.Fingerprint.{fingerprint_of}
use network_anomaly_root_cau.Orchestration.Validation.{AnalysisResult}
use network_anomaly_root_cau.Orchestration.Publish.{
  Orchestrator, returned, new_run, committed, with_runs, atomic_publish, analysed, fail,
  persist_failed_run, publish_or_fail, start_run, run_rca_and_publish,
}
use network_anomaly_root_cau.Orchestration.Swapped.{
  Swapped, create_run-Leads, atomic_publish-Swapped,
}

returned-injective : {a b : String} {x y : Store} → returned a x ≡ returned b y → (a ≡ b) × (x ≡ y)
returned-injective e = (cc, cc)

module _ (o : Orchestrator) where
  -- the fingerprint of an incident, and the run that an analysis of it builds
  abbrev pub fingerprint : Store → Incident → String
  fingerprint st incident = fingerprint_of o.hashing st incident.id

  abbrev pub building : Store → Incident → Option String → AnalysisRun
  building st incident trigger =
      new_run o incident.id trigger (fingerprint st incident)
        (get_next_revision st.runs incident.id)

  -- either the current run has the fingerprint and nothing happens, or a new run is published
  pub data IsPublished (incident : Incident) (trigger : Option String) (st new : Store)
      (id : String) : Type 0 where
    unchanged :
        id ≡ get_or_else incident.current_analysis_run_id ""
        → new ≡ st
        → fingerprint_exists_as_current st.runs incident.id (fingerprint st incident) ≡ ok true
        → IsPublished incident trigger st new id
    swapped :
        (top : Option String)
        → id ≡ o.run_id
        → Swapped (building st incident trigger) top st new
        → IsPublished incident trigger st new id

  committed-ne-returned :
      (message : String) (s new : Store) (id : String) → committed o message s ≡ returned id new → ⊥
  committed-ne-returned message s new id e = elim (Option-cases (o.commit s)) [
    | inl h ↦ cc (rw (committed, h) at e)
    | inr (m, h) ↦ cc (rw (committed, h) at e)
  ]

  fail-ne-returned :
      (run : AnalysisRun) (message : String) (st new : Store) (id : String)
      → fail o run message st ≡ returned id new
      → ⊥
  unfolding fail
  fail-ne-returned run message st new id e =
      elim (Result-cases (persist_failed_run o run message st)) [
        | inl (s, h) ↦ committed-ne-returned message s new id (rw (fail, h) at e)
        | inr (m, h) ↦ cc (rw (fail, h) at e)
      ]

  publish_or_fail-eq-returned :
      (run : AnalysisRun) (incident : Incident) (st new : Store) (id : String)
      → publish_or_fail o run incident st ≡ returned id new
      → (id ≡ run.id)
        × (result : Option AnalysisResult) × (atomic_publish o run result incident st ≡ ok new)
  unfolding publish_or_fail
  publish_or_fail-eq-returned run incident st new id e =
      elim (Result-cases
        (analysed o incident run st >>= λ result. atomic_publish o run result incident st)) [
          | inr (m, h) ↦ absurd (fail-ne-returned run m st new id (rw (publish_or_fail, h) at e))
          | inl (s, h) ↦
              let (same_id, same) = returned-injective (rw (publish_or_fail, h) at e) in
              let (result, h1, h2) = >>=-eq-ok (analysed o incident run st) _ h in
              (sym same_id, result, h2 ∙ ap ok same)
        ]

  start_run-eq-returned :
      (run : AnalysisRun) (incident : Incident) (st new : Store) (id : String)
      → start_run o incident run st ≡ returned id new
      → (id ≡ run.id) × (top : Option String) × Swapped run top st new
  unfolding start_run
  start_run-eq-returned run incident st new id e =
      elim (Result-cases (create_run st.incidents st.events run st.runs)) [
        | inr (m, h) ↦ cc (rw (start_run, h) at e)
        | inl (runs, h) ↦
            let (same_id, result, published) =
              publish_or_fail-eq-returned run incident (with_runs o runs st) new id
                (rw (start_run, h) at e) in
            let (top, s) =
              atomic_publish-Swapped o run result incident (with_runs o runs st) new
                (create_run-Leads st.incidents st.events run st.runs runs h) published in
            (
              same_id,
              top,
              (record {
                current = s.current;
                incidents_are = s.incidents_are;
                is_known = s.is_known;
                events_are = s.events_are;
                attachments_are = s.attachments_are;
              }),
            )
      ]

  -- If _run_rca_and_publish returns an ID, then either the current run of the incident has the
  -- fingerprint of its attached events, the ID is the incident's pointer and nothing changes; or the ID
  -- is that of the new run, which is the only current run of the incident, with that fingerprint and
  -- the next revision, the incident points to it, and no other incident, event or attachment changes.
  pub run_rca_and_publish-IsPublished :
      (incident : Incident) (trigger : Option String) (st new : Store) (id : String)
      → run_rca_and_publish o incident trigger st ≡ returned id new
      → IsPublished incident trigger st new id
  unfolding run_rca_and_publish
  run_rca_and_publish-IsPublished incident trigger st new id e =
      elim (Result-cases
        (fingerprint_exists_as_current st.runs incident.id (fingerprint st incident))) [
          | inr (m, h) ↦ cc (rw (run_rca_and_publish, h) at e)
          | inl (known, h) ↦ elim (Bool-cases known) [
            | inl same ↦
                let (same_id, same_store) =
                  returned-injective (rw (run_rca_and_publish, h, same) at e) in
                IsPublished.unchanged (sym same_id) (sym same_store) (h ∙ ap ok same)
            | inr differs ↦
                let (same_id, top, s) =
                  start_run-eq-returned (building st incident trigger) incident st new id
                    (rw (run_rca_and_publish, h, differs) at e) in
                IsPublished.swapped top same_id s
          ]
        ]

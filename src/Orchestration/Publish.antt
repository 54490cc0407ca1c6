-- ===== src/Orchestration/Publish.antt =====
-- `_run_rca_and_publish`, `_atomic_publish` and `_persist_failed_run` of
-- backend/app/orchestration/orchestrator.py.
use network_anomaly_root_cau.Prelude.{
  ℕ, ◌+◌, ◌*◌, String, Bool, true, false, Option, none, some, List, [], ◌∷◌, leb, head?,
  get_or_else, sort_by, insert_by,
}
use network_anomaly_root_cau.Prelude.Result.{Result, ok, err, ◌>>=◌, ◌>>◌}
use network_anomaly_root_cau.Contracts.{Value, Fields, null, text, num, field, end}
use network_anomaly_root_cau.Prelude.Int.{pos}
use network_anomaly_root_cau.Db.Tables.{
  Incident, AnalysisRun, Hypothesis, Evidence, PlaybookRecommendation, Explanation, AuditWrite,
  Store,
}
use network_anomaly_root_cau.Db.Repositories.{append_audit}
use network_anomaly_root_cau.Incidents.Symptoms.{filled}
use network_anomaly_root_cau.Orchestration.Runs.{
  update_run_row, create_run, supersede, mark_current, mark_failed, fingerprint_exists_as_current,
  get_next_revision, set_current_analysis_run, persist_hypothesis, persist_evidence,
  add_recommendation, add_explanation,
}
use network_anomaly_root_cau.Orchestration.Fingerprint.{Hashing, algorithm_version, fingerprint_of}
use network_anomaly_root_cau.Orchestration.Validation.{
  ExplanationDraft, AnalysisResult, Known, validate_analysis_result, validate_explanation_rows,
}

-- what an analysis is given: the registered engine, if any, the loaded topology and catalogue, the
-- hashes, the error of `session.commit`, if it raises, the clock, the IDs of the run and of its
-- explanations, and the texts that are formatted. The engine reads the tables and does not write
-- them. One reading of the clock stands for those of a call
pub record Orchestrator : Type 0 where
  pub analysis_engine : Option (Incident → Store → String → Result AnalysisResult)
  pub known : Known
  pub hashing : Hashing
  pub commit : Store → Option String
  pub now : ℕ
  pub run_id : String
  pub explanation_id : ℕ → String
  pub analysis_request : String → String
  pub failure_reason : String → String
  pub sanitized_reason : String → String

-- how a call ends: with a run ID, with an error after a failed run is committed, or with an error
-- that the caller rolls back
pub data Publication : Type 0 where
  returned : String → Store → Publication
  failed : String → Store → Publication
  aborted : String → Publication

module _ (o : Orchestrator) where
  abbrev pub entry : String → String → AnalysisRun → List String → Fields → AuditWrite
  entry action actor run reasons metadata = record {
    action = action;
    actor_type = "system";
    actor_id = some actor;
    object_type = "incident";
    object_id = run.incident_id;
    incident_id = some run.incident_id;
    analysis_run_id = some run.id;
    analysis_revision = some run.revision;
    request_id = o.analysis_request run.id;
    reason_codes = reasons;
    previous_state = none;
    new_state = none;
    metadata = metadata;
    timestamp = o.now;
  }

  abbrev pub new_run : String → Option String → String → ℕ → AnalysisRun
  new_run incident_id trigger fingerprint revision = record {
    id = o.run_id;
    incident_id = incident_id;
    revision = revision;
    status = "building";
    trigger_event_id = trigger;
    input_fingerprint = fingerprint;
    algorithm_version = algorithm_version;
    created_at = o.now;
    completed_at = none;
    failure_reason = none;
    topology_states = record { nodes = []; edges = [] };
    typed_paths = [];
    conflict_reason_codes = [];
    evidence_requirements = [];
    topology_snapshot = end;
  }

  -- the metadata that the run keeps
  abbrev pub with_result : AnalysisResult → AnalysisRun → AnalysisRun
  with_result r run = record run {
    topology_states = r.topology_states;
    typed_paths = r.typed_paths;
    conflict_reason_codes = r.conflict_reason_codes;
    evidence_requirements = r.evidence_requirements;
    topology_snapshot = r.topology_snapshot;
  }

  -- the loops that insert the rows of the result
  unfoldable pub insert_hypotheses : List Hypothesis → Store → Result Store
  unfolding persist_hypothesis
  insert_hypotheses [] st = ok st
  insert_hypotheses (h ∷ rest) st = do
    rows ← persist_hypothesis st.entities h st.hypotheses
    insert_hypotheses rest (record st { hypotheses = rows })

  unfoldable pub insert_evidence : List Evidence → Store → Result Store
  unfolding persist_evidence
  insert_evidence [] st = ok st
  insert_evidence (e ∷ rest) st = do
    rows ← persist_evidence st.events st.hypotheses e st.evidence
    insert_evidence rest (record st { evidence = rows })

  unfoldable pub insert_recommendations : List PlaybookRecommendation → Store → Result Store
  unfolding add_recommendation
  insert_recommendations [] st = ok st
  insert_recommendations (r ∷ rest) st = do
    rows ← add_recommendation st.hypotheses r st.recommendations
    insert_recommendations rest (record st { recommendations = rows })

  abbrev pub explanation_row : AnalysisRun → ℕ → ExplanationDraft → Explanation
  explanation_row run n d = record {
    id = o.explanation_id n;
    analysis_run_id = run.id;
    incident_id = run.incident_id;
    generator = d.output.generator;
    validated = d.validated;
    payload = d.output;
    created_at = o.now;
  }

  unfoldable pub insert_explanations :
      AnalysisRun → ℕ → List ExplanationDraft → Store → Result Store
  unfolding add_explanation
  insert_explanations run n [] st = ok st
  insert_explanations run n (d ∷ rest) st = do
    rows ← add_explanation (explanation_row run n d) st.explanations
    insert_explanations run (n + 1) rest (record st { explanations = rows })

  abbrev pub fallback_entry : AnalysisRun → AnalysisResult → String → AuditWrite
  fallback_entry run r reason =
      entry "EXPLANATION_FALLBACK_USED" "explanation_service" run (reason ∷ []) (
        field "reason_code" (text reason)
          (field "attempt_count" (num (pos (r.explanation_fallback_attempt_count * 10000))) end))

  unfoldable pub log_fallback : AnalysisRun → AnalysisResult → Store → Result Store
  unfolding append_audit
  log_fallback run r st = elim r.explanation_fallback_reason [
    | none ↦ ok st
    | some reason ↦ do
      logs ← append_audit st.audit_logs (fallback_entry run r reason)
      ok (record st { audit_logs = logs })
  ]

  abbrev pub rank_first : Hypothesis → Hypothesis → Bool
  rank_first a b = leb a.rank b.rank

  -- `ranked[0].id`, if there is a hypothesis
  unfoldable pub top_hypothesis : List Hypothesis → Option String
  unfolding sort_by insert_by
  top_hypothesis hypotheses = elim (head? (sort_by rank_first hypotheses)) [
    | none ↦ none
    | some h ↦ some h.id
  ]

  -- a text, or null
  abbrev pub optional_text : Option String → Value
  optional_text none = null
  optional_text (some s) = text s

  abbrev pub with_runs : List AnalysisRun → Store → Store
  with_runs runs st = record st { runs = runs }

  -- the branch of `_atomic_publish` with a result: its checks, its rows, and the top hypothesis
  unfoldable pub insert_result :
      AnalysisRun → AnalysisResult → Store → Result (Option String × Store)
  unfolding validate_analysis_result validate_explanation_rows insert_hypotheses insert_evidence
      insert_recommendations insert_explanations log_fallback top_hypothesis
  insert_result run r st = do
    validate_analysis_result o.known run.id run.incident_id r
    validate_explanation_rows run.id run.incident_id r
    a ←
        insert_hypotheses r.hypotheses
          (with_runs (update_run_row run.id (with_result r) st.runs) st)
    b ← insert_evidence r.evidence_rows a
    c ← insert_recommendations r.recommendation_rows b
    d ← insert_explanations run 0 r.explanation_rows c
    e ← log_fallback run r d
    ok (top_hypothesis r.hypotheses, e)

  unfoldable pub insert_optional :
      AnalysisRun → Option AnalysisResult → Store → Result (Option String × Store)
  insert_optional run none st = ok (none, st)
  insert_optional run (some r) st = insert_result run r st

  -- `if prior_run_id: supersede`
  unfoldable pub supersede_prior : Option String → List AnalysisRun → Result (List AnalysisRun)
  unfolding supersede
  supersede_prior none runs = ok runs
  supersede_prior (some prior) runs = supersede prior runs

  abbrev pub published_entry : AnalysisRun → Option String → AuditWrite
  published_entry run prior = entry "ANALYSIS_PUBLISHED" "orchestrator" run [] (
      field "revision" (num (pos (run.revision * 10000))) (
        field "fingerprint" (text run.input_fingerprint) (
          field "prior_run_id" (optional_text prior)
            (field "algorithm_version" (text algorithm_version) end))))

  -- the steps of `_atomic_publish` after the rows: supersede, mark, point, audit
  unfoldable pub swap : AnalysisRun → Option String → Option String → Store → Result Store
  unfolding supersede_prior mark_current set_current_analysis_run append_audit
  swap run prior top st = do
    superseded ← supersede_prior (filled prior) st.runs
    marked ← mark_current run.id run.incident_id o.now superseded
    incidents ← set_current_analysis_run run.incident_id run.id top st.incidents
    logs ← append_audit st.audit_logs (published_entry run prior)
    ok (record st { runs = marked; incidents = incidents; audit_logs = logs })

  unfoldable pub atomic_publish :
      AnalysisRun → Option AnalysisResult → Incident → Store → Result Store
  unfolding insert_optional swap
  atomic_publish run result incident st = do
    (top, inserted) ← insert_optional run result st
    swap run incident.current_analysis_run_id top inserted

  -- the engine, if one is registered
  unfoldable pub analysed : Incident → AnalysisRun → Store → Result (Option AnalysisResult)
  analysed incident run st = elim o.analysis_engine [
    | none ↦ ok none
    | some engine ↦ engine incident st run.id >>= λ r. ok (some r)
  ]

  abbrev pub failed_entry : AnalysisRun → String → AuditWrite
  failed_entry run message =
      entry "PIPELINE_STAGE_FAILED" "orchestrator" run ("PIPELINE_STAGE_FAILED" ∷ []) (
        field "failed_run_id" (text run.id)
          (field "sanitized_reason" (text (o.sanitized_reason message)) end))

  -- `_persist_failed_run`
  unfoldable pub persist_failed_run : AnalysisRun → String → Store → Result Store
  unfolding mark_failed append_audit
  persist_failed_run run message st = do
    runs ← mark_failed run.id (o.failure_reason message) o.now st.runs
    logs ← append_audit st.audit_logs (failed_entry run message)
    ok (record st { runs = runs; audit_logs = logs })

  -- the commit of a failure: its own error is raised in place of the message, after a rollback
  abbrev pub committed : String → Store → Publication
  committed message new = elim (o.commit new) [ some e ↦ aborted e | none ↦ failed message new ]

  -- the handler of an error of the savepoint
  unfoldable pub fail : AnalysisRun → String → Store → Publication
  unfolding persist_failed_run
  fail run message st = elim (persist_failed_run run message st) [
    | err e ↦ aborted e
    | ok new ↦ committed message new
  ]

  -- the savepoint: its error leaves the tables as they were before it
  unfoldable pub publish_or_fail : AnalysisRun → Incident → Store → Publication
  unfolding analysed atomic_publish fail
  publish_or_fail run incident st =
      elim (analysed incident run st >>= λ result. atomic_publish run result incident st) [
        | ok new ↦ returned run.id new
        | err e ↦ fail run e st
      ]

  unfoldable pub start_run : Incident → AnalysisRun → Store → Publication
  unfolding create_run publish_or_fail
  start_run incident run st = elim (create_run st.incidents st.events run st.runs) [
    | err e ↦ aborted e
    | ok runs ↦ publish_or_fail run incident (with_runs runs st)
  ]

  -- `_run_rca_and_publish`
  unfoldable pub run_rca_and_publish : Incident → Option String → Store → Publication
  unfolding fingerprint_exists_as_current start_run fingerprint_of
  run_rca_and_publish incident trigger st =
      let fingerprint = fingerprint_of o.hashing st incident.id in
      elim (fingerprint_exists_as_current st.runs incident.id fingerprint) [
        | err e ↦ aborted e
        | ok true ↦ returned (get_or_else incident.current_analysis_run_id "") st
        | ok false ↦
            start_run incident
              (new_run incident.id trigger fingerprint (get_next_revision st.runs incident.id)) st
      ]

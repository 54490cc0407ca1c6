-- ===== src/Orchestration/Runs.antt =====
-- The writes and queries that the orchestrator uses: AnalysisRunRepository and
-- set_current_analysis_run of backend/app/db/repositories/incident_repository.py, the inserts of
-- hypothesis_repository.py, and the constraints of backend/app/db/models.py on the rows.
use network_anomaly_root_cau.Prelude.{
  ℕ, ◌+◌, String, ◌==◌, Bool, true, false, not, ◌&&◌, ◌||◌, Option, none, some, List, [], ◌∷◌, keep,
  any, ltb, eqb, if◌then◌else◌,
}
use network_anomaly_root_cau.Prelude.Result.{Result, ok, raise_if, ◌>>=◌, ◌>>◌}
use network_anomaly_root_cau.Db.Tables.{
  Entity, Event, Incident, AnalysisRun, Hypothesis, Evidence, PlaybookRecommendation, Explanation,
}
use network_anomaly_root_cau.Db.Repositories.{scalar_one_or_none, update_incident}
use network_anomaly_root_cau.Incidents.Tables.{is_event, is_incident}

abbrev pub is_run : String → AnalysisRun → Bool
is_run id r = r.id == id

abbrev pub is_current : String → AnalysisRun → Bool
is_current incident_id r = r.incident_id == incident_id && r.status == "current"

abbrev pub is_revision : String → ℕ → AnalysisRun → Bool
is_revision incident_id n r = r.incident_id == incident_id && eqb r.revision n

-- the foreign keys of a run: its incident, and the event that triggered it, if any
abbrev pub is_trigger : List Event → Option String → Bool
is_trigger events none = true
is_trigger events (some id) = any (is_event id) events

-- the ID is the primary key, and incident and revision are unique
abbrev pub is_refused : List Incident → List Event → AnalysisRun → List AnalysisRun → Bool
is_refused incidents events row runs =
    any (is_run row.id) runs
    || any (is_revision row.incident_id row.revision) runs
    || not (any (is_incident row.incident_id) incidents)
    || not (is_trigger events row.trigger_event_id)

-- `create`
unfoldable pub create_run :
    List Incident → List Event → AnalysisRun → List AnalysisRun → Result (List AnalysisRun)
create_run incidents events row runs = do
  raise_if (is_refused incidents events row runs) "IntegrityError"
  ok (row ∷ runs)

abbrev pub update_run_row :
    String → (AnalysisRun → AnalysisRun) → List AnalysisRun → List AnalysisRun
update_run_row id f [] = []
update_run_row id f (r ∷ rs) =
    let rest = update_run_row id f rs in if r.id == id then f r ∷ rs else r ∷ rest

-- a write to the row that `_get_or_raise` finds
unfoldable pub update_run :
    String → (AnalysisRun → AnalysisRun) → List AnalysisRun → Result (List AnalysisRun)
update_run id f runs = do
  raise_if (not (any (is_run id) runs)) "AnalysisRun not found"
  ok (update_run_row id f runs)

abbrev pub as_superseded : AnalysisRun → AnalysisRun
as_superseded r = record r { status = "superseded" }

abbrev pub as_current : ℕ → AnalysisRun → AnalysisRun
as_current now r = record r { status = "current"; completed_at = some now }

abbrev pub as_failed : ℕ → String → AnalysisRun → AnalysisRun
as_failed now reason r = record r {
  status = "failed";
  failure_reason = some reason;
  completed_at = some now;
}

unfoldable pub supersede : String → List AnalysisRun → Result (List AnalysisRun)
unfolding update_run
supersede id runs = update_run id as_superseded runs

-- another current run of the incident breaks the index `uq_analysis_current_per_incident`
abbrev pub is_other_current : String → String → AnalysisRun → Bool
is_other_current id incident_id r = not (r.id == id) && is_current incident_id r

unfoldable pub mark_current : String → String → ℕ → List AnalysisRun → Result (List AnalysisRun)
unfolding update_run
mark_current id incident_id now runs = do
  raise_if (any (is_other_current id incident_id) runs) "IntegrityError"
  update_run id (as_current now) runs

-- the reason is cut to 2000 characters by the caller's text
unfoldable pub mark_failed : String → String → ℕ → List AnalysisRun → Result (List AnalysisRun)
unfolding update_run
mark_failed id reason now runs = update_run id (as_failed now reason) runs

unfoldable pub get_current_for_incident : List AnalysisRun → String → Result (Option AnalysisRun)
get_current_for_incident runs incident_id = scalar_one_or_none (keep (is_current incident_id) runs)

unfoldable pub fingerprint_exists_as_current : List AnalysisRun → String → String → Result Bool
unfolding get_current_for_incident
fingerprint_exists_as_current runs incident_id fingerprint = do
  current ← get_current_for_incident runs incident_id
  elim current [ none ↦ ok false | some r ↦ ok (r.input_fingerprint == fingerprint) ]

-- the largest revision of the incident's runs, or 0
abbrev pub max_revision : String → List AnalysisRun → ℕ
max_revision incident_id [] = 0
max_revision incident_id (r ∷ rs) =
    let rest = max_revision incident_id rs in
    if r.incident_id == incident_id && ltb rest r.revision then r.revision else rest

-- `get_next_revision`; a revision is at least 1
abbrev pub get_next_revision : List AnalysisRun → String → ℕ
get_next_revision runs incident_id = max_revision incident_id runs + 1

abbrev pub with_current_run : String → Option String → Incident → Incident
with_current_run run_id top i = record i {
  current_analysis_run_id = some run_id;
  top_hypothesis_id = top;
  status = "investigating";
}

unfoldable pub set_current_analysis_run :
    String → String → Option String → List Incident → Result (List Incident)
unfolding update_incident
set_current_analysis_run id run_id top incidents =
    update_incident id (with_current_run run_id top) incidents

-- the inserts; `rank` is unique in a run, the score at most 100.0, and the entity is a foreign key
abbrev pub clashes : Hypothesis → Hypothesis → Bool
clashes a b = b.id == a.id || b.analysis_run_id == a.analysis_run_id && eqb b.rank a.rank

unfoldable pub persist_hypothesis :
    List Entity → Hypothesis → List Hypothesis → Result (List Hypothesis)
persist_hypothesis entities row rows = do
  raise_if
      (any (clashes row) rows
        || ltb 1000 row.evidence_score
        || not (any (λ (e : Entity). e.id == row.candidate_entity_id) entities))
      "IntegrityError"
  ok (row ∷ rows)

-- evidence is missing exactly when it has no source event
abbrev pub is_sourced : List Event → Evidence → Bool
is_sourced events row = elim row.source_event_id [
  | none ↦ row.kind == "missing"
  | some id ↦ not (row.kind == "missing") && any (λ (e : Event). e.id == id) events
]

unfoldable pub persist_evidence :
    List Event → List Hypothesis → Evidence → List Evidence → Result (List Evidence)
persist_evidence events hypotheses row rows = do
  raise_if
      (any (λ (e : Evidence). e.id == row.id) rows
        || ltb 10000 row.relevance
        || not (is_sourced events row)
        || not (any (λ (h : Hypothesis). h.id == row.hypothesis_id) hypotheses))
      "IntegrityError"
  ok (row ∷ rows)

unfoldable pub add_recommendation :
    List Hypothesis
    → PlaybookRecommendation
    → List PlaybookRecommendation
    → Result (List PlaybookRecommendation)
add_recommendation hypotheses row rows = do
  raise_if
      (any (λ (r : PlaybookRecommendation). r.id == row.id) rows
        || not (any (λ (h : Hypothesis). h.id == row.hypothesis_id) hypotheses))
      "IntegrityError"
  ok (row ∷ rows)

unfoldable pub add_explanation : Explanation → List Explanation → Result (List Explanation)
add_explanation row rows = do
  raise_if (any (λ (e : Explanation). e.id == row.id) rows) "IntegrityError"
  ok (row ∷ rows)

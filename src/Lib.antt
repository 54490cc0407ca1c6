-- ===== src/Lib.antt =====
-- The Network Anomaly Root Cause Assistant: the analysis of an incident and the human review of its
-- result. Paths are those of the repository.
--
-- The ingestion accepts a record of a source as an event, redacted, counts it as a repetition, or
-- puts it into quarantine. The incident manager scores each accepted event against
-- the open incidents, attaches it to the best one or opens a new incident, and keeps a log of its
-- decisions.
--
-- The orchestrator takes an event through the detector and the incident manager, and publishes a new
-- run of the analysis for the incident that it affects, unless the fingerprint of its events is the
-- same.
--
-- The analysis takes an immutable bundle (backend/app/rca/contracts.py): an incident, its attached
-- events and anomalies, the excluded events, a snapshot of the topology and similar past incidents.
-- The generator proposes candidates from a catalogue of hypotheses, the ranker scores and orders
-- them, and the engine assembles a result that its validators check. A reviewer then confirms or
-- rejects a hypothesis of the published run, or asks for evidence; the review service records that
-- once and closes the incident when it is decided.
--
-- Files and code:
--   Prelude          shared names, lists, texts, dictionaries (association lists in insertion order
--                    with one entry for a key), the stable sort, and results that may be errors
--   Contracts        backend/app/contracts: events, anomalies, coverage
--   Rca.Contracts    backend/app/rca/contracts.py, and Rca.ResultGraph its validate_result_graph
--   Rca.Traversal    TopologyIndex of backend/app/rca/ranker.py (path, reachable, _adjacency) and
--                    _typed_path_exists of backend/app/rca/candidate_generator.py
--   Rca.Catalogue    the catalogue of candidate_generator.py, its validator and entry
--   Rca.Events       the expressions on events that generator and ranker share
--   Rca.Generator    CandidateGenerator: generate, _generation_events, _select_entities
--   Rca.Ranker.Score, Observations, Factors, Timing, Coverage, Candidate
--                    ranker.py: the rubric and the conflicts, the observations of patterns, the eight
--                    factors, the coverage of the expected evidence, score_candidate and rank
--   Rca.Engine       AnalysisEngine of backend/app/rca/analysis_engine.py: analyse, _typed_paths,
--                    _topology_states
--   Db.Tables, Repositories
--                    the rows of backend/app/db/models.py, the validator of
--                    backend/app/audit/contracts.py, and queries and writes of
--                    backend/app/db/repositories
--   Ingestion.Redaction, Tables, Pipeline
--                    backend/app/ingestion/redaction.py and runtime_label_guard.py; ingest of
--                    backend/app/ingestion/pipeline.py, with the writes of event_repository.py
--   Incidents.Symptoms, Scoring, Tables, Manager, Opening, Process
--                    backend/app/incidents/manager.py: SymptomCatalogue; score_attachment; the
--                    queries and writes that it uses; _persist_evaluation, _context_for_incident and
--                    _opening_anomalies; _open_incident; process_anomalies
--   Orchestration.Runs, Fingerprint, Validation, Publish, Pipeline
--                    AnalysisOrchestrator of backend/app/orchestration/orchestrator.py: the writes of
--                    runs and rows; compute_fingerprint; the checks of a result; _run_rca_and_publish,
--                    _atomic_publish and _persist_failed_run; process_event, process_batch, recompute
--   Explanations.Playbooks, Validator
--                    backend/app/playbooks/engine.py and backend/app/explanation/validator.py
--   Reviews.Service  ReviewService.submit of backend/app/reviews/service.py
--   Examples         an incident with its topology and catalogue, and a store for each service, on
--                    which the definitions are run
--
-- Representation. An instant is a number of milliseconds. A float between 0 and 1 is a number of
-- ten-thousandths, so that 10000 is 1.0, a measured value is a signed integer of ten-thousandths, and
-- an evidence score is a number of tenths; quotients are rounded down, and the rounding errors of
-- binary floats are not modelled. The score itself is computed with exact decimals in the code too.
-- A set is a list without repetitions, and a dictionary an association list. An exception is the
-- error of a Result, with its message.
--
-- Fuel. The three searches of Rca.Traversal run on fuel, one unit for each vertex taken from the
-- queue. They are given one unit more than there are edges: a vertex other than the source is queued
-- at most once, and only as the end of an edge.
--
-- Parameters. str, json.dumps and lower of Python are fields of PyText; the hash behind a review's
-- request ID, the clock and the factory of review IDs are fields of Ambient; the settings, the distance
-- in the topology, the texts that the incident manager formats and its next incident ID are fields of
-- Manager; the registered engine, the topology's nodes and edges, the hashes, the error of
-- session.commit, if it raises, the clock and the IDs are fields of Orchestrator, and the registered
-- detector of Pipeline; the adapters, the pattern of sensitive keys, sizes, hashes and IDs are fields
-- of Ingestion, and the operations on texts that the validator of explanations uses are fields of
-- PyWords. No property assumes anything of them, but that a request of the orchestrator has a name and
-- that its new run ID is free.
--
-- State. A transaction, of a review, of the incident manager or of the ingestion, is a function from
-- the store to a response and the new store, or to an error, after which the caller rolls its
-- transaction back; a publication may also end with an error after its failed run is committed, or with
-- the error of that commit, after which its transaction is rolled back. Calls are taken one after
-- another; the race of two transactions on one client action is not modelled.
--
-- Not modelled: the adapters of the sources and the publication that ingest calls; the detectors and
-- their baselines; the topology service; the engines of explanations; the collector of evidence; the
-- adapters of the orchestrator, its lock, and the reset of the demonstration; reports, the API, the
-- simulator and the front end; the loading of catalogues from their files; and the test of forbidden
-- keys in audit metadata, since the entries that are modelled have fixed keys. An engine that writes to
-- the session is not covered: the registered engine reads the tables and returns a result or raises.
--
-- Foreign keys. Those that are checked: the event of an anomaly; the primary entity of an incident; the
-- incident and the event of an evaluation and of an attachment; the incident and the trigger of a run;
-- the entity of a hypothesis; the source event and the hypothesis of evidence; the hypothesis of a
-- recommendation. Ingestion looks up the entity of an event itself. The other foreign keys are not
-- modelled: the run and the incident of the rows of a result are those that its checks compare with
-- the run that is published; a review names rows that its service has looked up; the pointers of an
-- incident are set to rows that the same call has written or looked up; and the rest are the keys of
-- the tables of topology and the event of a collapsed group.
pub mod Contracts
pub mod Db
pub mod Examples
pub mod Explanations
pub mod Incidents
pub mod Ingestion
pub mod Orchestration
pub mod Prelude
pub mod Rca
pub mod Reviews

-- ===== src/Db/Repositories.antt =====
-- The queries and writes of backend/app/db/repositories that a review uses: incident_repository.py,
-- hypothesis_repository.py and review_repository.py.
use network_anomaly_root_cau.Prelude.{
  String, ◌==◌, Bool, true, false, not, ◌&&◌, ◌||◌, Option, none, some, List, [], ◌∷◌, keep, find,
  any, leb, is_some, if◌then◌else◌, sort_by, insert_by,
}
use network_anomaly_root_cau.Prelude.Result.{Result, ok, err, raise_if, ◌>>=◌, ◌>>◌}
use network_anomaly_root_cau.Db.Tables.{
  Incident, AnalysisRun, Hypothesis, Evidence, Review, AuditWrite, validate_scope,
}

-- `scalar_one_or_none` of the rows that a query selects
abbrev pub scalar_one_or_none {ℓ} : {A : Type ℓ} → List A → Result (Option A)
scalar_one_or_none [] = ok none
scalar_one_or_none (a ∷ []) = ok (some a)
scalar_one_or_none (a ∷ b ∷ rest) = err "MultipleResultsFound"

abbrev pub is_this : Option String → String → Bool
is_this none b = false
is_this (some a) b = a == b

-- the conditions of the three queries on reviews
abbrev pub is_action : String → String → Review → Bool
is_action incident_id client_action_id r =
    r.incident_id == incident_id && r.client_action_id == client_action_id

abbrev pub is_decided : String → Bool
is_decided decision = decision == "confirmed" || decision == "rejected"

abbrev pub is_terminal_for : String → String → Review → Bool
is_terminal_for hypothesis_id run_id r =
    r.hypothesis_id == hypothesis_id && r.analysis_run_id == run_id && is_decided r.decision

abbrev pub is_request_for : String → String → Review → Bool
is_request_for run_id evidence_id r =
    r.analysis_run_id == run_id
    && r.decision == "evidence_requested"
    && is_this r.requested_evidence_id evidence_id

unfoldable pub get_by_client_action : List Review → String → String → Result (Option Review)
get_by_client_action reviews incident_id client_action_id =
    scalar_one_or_none (keep (is_action incident_id client_action_id) reviews)

unfoldable pub get_terminal_for_hypothesis : List Review → String → String → Result (Option Review)
get_terminal_for_hypothesis reviews hypothesis_id run_id =
    scalar_one_or_none (keep (is_terminal_for hypothesis_id run_id) reviews)

unfoldable pub get_evidence_request_for_item :
    List Review → String → String → Result (Option Review)
get_evidence_request_for_item reviews run_id evidence_id =
    scalar_one_or_none (keep (is_request_for run_id evidence_id) reviews)

abbrev pub is_missing_in : String → String → Evidence → Bool
is_missing_in evidence_id run_id e =
    e.id == evidence_id && e.analysis_run_id == run_id && e.kind == "missing"

unfoldable pub get_missing_by_id_for_run :
    List Evidence → String → String → Result (Option Evidence)
get_missing_by_id_for_run evidence evidence_id run_id =
    scalar_one_or_none (keep (is_missing_in evidence_id run_id) evidence)

-- `session.get`: the row with a primary key
abbrev pub incident_by_id : List Incident → String → Option Incident
incident_by_id incidents id = find (λ (i : Incident). i.id == id) incidents

abbrev pub run_by_id : List AnalysisRun → String → Option AnalysisRun
run_by_id runs id = find (λ (r : AnalysisRun). r.id == id) runs

abbrev pub hypothesis_by_id : List Hypothesis → String → Option Hypothesis
hypothesis_by_id hypotheses id = find (λ (h : Hypothesis). h.id == id) hypotheses

abbrev pub rank_first : Hypothesis → Hypothesis → Bool
rank_first a b = leb a.rank b.rank

unfoldable pub list_for_run : List Hypothesis → String → List Hypothesis
unfolding sort_by insert_by
list_for_run hypotheses run_id =
    sort_by rank_first (keep (λ (h : Hypothesis). h.analysis_run_id == run_id) hypotheses)

-- `persist_idempotent`, for requests one after another: a row with a known client action is not
-- inserted, and one that breaks the primary key is refused, with the transaction rolled back
unfoldable pub persist_idempotent : List Review → Review → Result ((Review × Bool) × List Review)
unfolding get_by_client_action
persist_idempotent reviews row = do
  existing ← get_by_client_action reviews row.incident_id row.client_action_id
  elim existing [
    | some old ↦ ok ((old, false), reviews)
    | none ↦
        if any (λ (r : Review). r.id == row.id) reviews
        then err "IntegrityError"
        else ok ((row, true), row ∷ reviews)
  ]

-- `AuditService.append`
unfoldable pub append_audit : List AuditWrite → AuditWrite → Result (List AuditWrite)
unfolding validate_scope
append_audit logs w = do valid ← validate_scope w; ok (valid ∷ logs)

-- a write to the row with a primary key; `_get_or_raise`
abbrev pub update_row : String → (Incident → Incident) → List Incident → List Incident
update_row id f [] = []
update_row id f (i ∷ is) =
    let rest = update_row id f is in if i.id == id then f i ∷ is else i ∷ rest

unfoldable pub update_incident :
    String → (Incident → Incident) → List Incident → Result (List Incident)
update_incident id f incidents = do
  raise_if (not (is_some (incident_by_id incidents id))) "Incident not found"
  ok (update_row id f incidents)

abbrev pub with_status : String → Incident → Incident
with_status s i = record i { status = s }

abbrev pub with_confirmed : String → Incident → Incident
with_confirmed h i = record i { status = "resolved"; confirmed_hypothesis_id = some h }

unfoldable pub update_status : String → String → List Incident → Result (List Incident)
unfolding update_incident
update_status id s incidents = update_incident id (with_status s) incidents

unfoldable pub set_confirmed_hypothesis : String → String → List Incident → Result (List Incident)
unfolding update_incident
set_confirmed_hypothesis id h incidents = update_incident id (with_confirmed h) incidents

-- ===== src/Orchestration/Swapped.antt =====
-- The runs through the steps of a publication: the new run stays the only one with its ID, and is
-- the only current one of its incident at the end.
use network_anomaly_root_cau.Prelude.{
  ℕ, String, ◌==◌, eq_iff, ◌≡◌, refl, sym, ap, ◌∙◌, subst, true, false, not, Option, none, some,
  List, [], ◌∷◌, any, keep, is_some, arith, Bool-cases, inl, inr,
}
use network_anomaly_root_cau.Prelude.Result.{ok, >>=-eq-ok, raise_if-eq-ok, ok-injective}
use network_anomaly_root_cau.Db.Tables.{Event, Incident, AnalysisRun, Store}
use network_anomaly_root_cau.Db.Repositories.{
  append_audit, incident_by_id, update_row, update_incident,
}
use network_anomaly_root_cau.Incidents.Symptoms.{filled}
use network_anomaly_root_cau.Orchestration.Runs.{
  is_run, is_refused, is_current, is_other_current, create_run, update_run_row, update_run,
  as_current, as_superseded, supersede, mark_current, with_current_run, set_current_analysis_run,
}
use network_anomaly_root_cau.Orchestration.Validation.{AnalysisResult}
use network_anomaly_root_cau.Orchestration.Publish.{
  Orchestrator, with_result, insert_optional, supersede_prior, published_entry, swap,
  atomic_publish,
}
use network_anomaly_root_cau.Orchestration.Kept.{written, insert_optional-Kept}

-- a run of one ID and one fingerprint comes first, and no other has the ID
pub record Leads (run : AnalysisRun) (runs : List AnalysisRun) : Type 0 where
  pub first : AnalysisRun
  pub others : List AnalysisRun
  pub runs_are : runs ≡ first ∷ others
  pub id_is : first.id ≡ run.id
  pub incident_is : first.incident_id ≡ run.incident_id
  pub fingerprint_is : first.input_fingerprint ≡ run.input_fingerprint
  pub revision_is : first.revision ≡ run.revision
  pub no_other : any (is_run run.id) others ≡ false

-- an update that leaves the columns that identify a run
abbrev pub Identical : (AnalysisRun → AnalysisRun) → Type 0
Identical f =
    (r : AnalysisRun)
    → ((f r).id ≡ r.id)
      × ((f r).incident_id ≡ r.incident_id)
      × ((f r).input_fingerprint ≡ r.input_fingerprint)
      × ((f r).revision ≡ r.revision)

any-update_run_row :
    (f : AnalysisRun → AnalysisRun) (id other : String) (runs : List AnalysisRun)
    → Identical f
    → any (is_run other) (update_run_row id f runs) ≡ any (is_run other) runs
any-update_run_row f id other [] h = refl
any-update_run_row f id other (r ∷ rs) h = elim (Bool-cases (r.id == id)) [
  | inl hit ↦ rw (hit, (h r).0) refl
  | inr miss ↦ rw (miss, any-update_run_row f id other rs h) refl
]

pub Leads-update :
    (run : AnalysisRun) (id : String) (f : AnalysisRun → AnalysisRun) (runs : List AnalysisRun)
    → Identical f
    → Leads run runs
    → Leads run (update_run_row id f runs)
Leads-update run id f runs h l = elim (Bool-cases (l.first.id == id)) [
  | inl hit ↦ record {
    first = f l.first;
    others = l.others;
    runs_are = rw (l.runs_are, hit) refl;
    id_is = (h l.first).0 ∙ l.id_is;
    incident_is = (h l.first).1 ∙ l.incident_is;
    fingerprint_is = (h l.first).2 ∙ l.fingerprint_is;
    revision_is = (h l.first).3 ∙ l.revision_is;
    no_other = l.no_other;
  }
  | inr miss ↦ record {
    first = l.first;
    others = update_run_row id f l.others;
    runs_are = rw (l.runs_are, miss) refl;
    id_is = l.id_is;
    incident_is = l.incident_is;
    fingerprint_is = l.fingerprint_is;
    revision_is = l.revision_is;
    no_other = any-update_run_row f id run.id l.others h ∙ l.no_other;
  }
]

pub create_run-Leads :
    (incidents : List Incident) (events : List Event) (run : AnalysisRun)
    (runs new : List AnalysisRun)
    → create_run incidents events run runs ≡ ok new
    → Leads run new
unfolding create_run
create_run-Leads incidents events run runs new e =
    let (free, e1) = raise_if-eq-ok (is_refused incidents events run runs) _ _ e in
    record {
      first = run;
      others = runs;
      runs_are = sym (ok-injective e1);
      id_is = refl;
      incident_is = refl;
      fingerprint_is = refl;
      revision_is = refl;
      no_other = ground (arith, free);
    }

pub update_run-eq-ok :
    (id : String) (f : AnalysisRun → AnalysisRun) (runs new : List AnalysisRun)
    → update_run id f runs ≡ ok new
    → new ≡ update_run_row id f runs
unfolding update_run
update_run-eq-ok id f runs new e = let (known, e1) = raise_if-eq-ok _ _ _ e in sym (ok-injective e1)

supersede_prior-Leads :
    (o : Orchestrator) (run : AnalysisRun) (prior : Option String) (runs new : List AnalysisRun)
    → Leads run runs
    → supersede_prior o prior runs ≡ ok new
    → Leads run new
unfolding supersede_prior supersede
supersede_prior-Leads o run none runs new l e = subst (Leads run) (ok-injective e) l
supersede_prior-Leads o run (some id) runs new l e =
    rw (update_run-eq-ok id as_superseded runs new e)
      (Leads-update run id as_superseded runs (λ r. (refl, refl, refl, refl)) l)

none_current :
    (id incident_id : String) (rs : List AnalysisRun)
    → any (is_run id) rs ≡ false
    → any (is_other_current id incident_id) rs ≡ false
    → keep (is_current incident_id) rs ≡ []
none_current id incident_id [] h k = refl
none_current id incident_id (r ∷ rs) h k = ground (arith, h, k, none_current id incident_id rs)

-- after `mark_current` the run is the only current one of its incident
pub record Current (run : AnalysisRun) (runs : List AnalysisRun) : Type 0 where
  pub row : AnalysisRun
  pub current_are : keep (is_current run.incident_id) runs ≡ row ∷ []
  pub id_is : row.id ≡ run.id
  pub fingerprint_is : row.input_fingerprint ≡ run.input_fingerprint
  pub revision_is : row.revision ≡ run.revision

mark_current-Current :
    (run : AnalysisRun) (now : ℕ) (runs new : List AnalysisRun)
    → Leads run runs
    → mark_current run.id run.incident_id now runs ≡ ok new
    → Current run new
unfolding mark_current
mark_current-Current run now runs new l e =
    let (alone, e1) = raise_if-eq-ok (any (is_other_current run.id run.incident_id) runs) _ _ e in
    let marked = update_run-eq-ok run.id (as_current now) runs new e1 in
    let hit = (eq_iff l.first.id run.id).1 l.id_is in
    let mine = (eq_iff l.first.incident_id run.incident_id).1 l.incident_is in
    record {
      row = as_current now l.first;
      current_are =
          rw (marked, l.runs_are, hit, mine)
            (ap (λ rs. as_current now l.first ∷ rs)
              (none_current run.id run.incident_id l.others l.no_other
                (ground (arith, rw l.runs_are at alone))));
      id_is = l.id_is;
      fingerprint_is = l.fingerprint_is;
      revision_is = l.revision_is;
    }

-- what the last steps of a publication leave
pub record Swapped (run : AnalysisRun) (top : Option String) (st new : Store) : Type 0 where
  pub current : Current run new.runs
  pub incidents_are :
      new.incidents ≡ update_row run.incident_id (with_current_run run.id top) st.incidents
  pub is_known : is_some (incident_by_id st.incidents run.incident_id) ≡ true
  pub events_are : new.events ≡ st.events
  pub attachments_are : new.incident_events ≡ st.incident_events

module _ (o : Orchestrator) where
  swap-Swapped :
      (run : AnalysisRun) (prior top : Option String) (st new : Store)
      → Leads run st.runs
      → swap o run prior top st ≡ ok new
      → Swapped run top st new
  unfolding swap set_current_analysis_run update_incident
  swap-Swapped run prior top st new l e =
      let (superseded, h1, e1) = >>=-eq-ok (supersede_prior o (filled prior) st.runs) _ e in
      let (marked, h2, e2) =
        >>=-eq-ok (mark_current run.id run.incident_id o.now superseded) _ e1 in
      let (incidents, h3, e3) =
        >>=-eq-ok (set_current_analysis_run run.incident_id run.id top st.incidents) _ e2 in
      let (logs, h4, e4) =
        >>=-eq-ok (append_audit st.audit_logs (published_entry o run prior)) _ e3 in
      let same = sym (ok-injective e4) in
      let (known, h5) =
        raise_if-eq-ok (not (is_some (incident_by_id st.incidents run.incident_id))) _ _ h3 in
      let led = supersede_prior-Leads o run (filled prior) st.runs superseded l h1 in
      record {
        current =
            subst (Current run) (ap (λ (s : Store). s.runs) (sym same))
              (mark_current-Current run o.now superseded marked led h2);
        incidents_are = ap (λ (s : Store). s.incidents) same ∙ sym (ok-injective h5);
        is_known = ground (arith, known);
        events_are = ap (λ (s : Store). s.events) same;
        attachments_are = ap (λ (s : Store). s.incident_events) same;
      }

  written-Leads :
      (run : AnalysisRun) (result : Option AnalysisResult) (runs : List AnalysisRun)
      → Leads run runs
      → Leads run (written o run result runs)
  written-Leads run none runs l = l
  written-Leads run (some r) runs l =
      Leads-update run run.id (with_result o r) runs (λ r'. (refl, refl, refl, refl)) l

  pub atomic_publish-Swapped :
      (run : AnalysisRun) (result : Option AnalysisResult) (incident : Incident) (st new : Store)
      → Leads run st.runs
      → atomic_publish o run result incident st ≡ ok new
      → (top : Option String) × Swapped run top st new
  unfolding atomic_publish
  atomic_publish-Swapped run result incident st new l e =
      let ((top, inserted), h1, e1) = >>=-eq-ok (insert_optional o run result st) _ e in
      let (runs_are, incidents_are, events_are, attachments_are) =
        insert_optional-Kept o run result st inserted top h1 in
      let led = written-Leads run result st.runs l in
      let s =
        swap-Swapped run incident.current_analysis_run_id top inserted new
          (subst (Leads run) (sym runs_are) led) e1 in
      (
        top,
        record {
          current = s.current;
          incidents_are =
              s.incidents_are
              ∙ ap (update_row run.incident_id (with_current_run run.id top)) incidents_are;
          is_known = rw incidents_are at s.is_known;
          events_are = s.events_are ∙ events_are;
          attachments_are = s.attachments_are ∙ attachments_are;
        },
      )

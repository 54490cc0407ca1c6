-- ===== src/Orchestration/Kept.antt =====
-- What the steps of a publication leave as it was.
use network_anomaly_root_cau.Prelude.{
  ℕ, ◌+◌, String, ◌≡◌, sym, ap, ◌∙◌, Option, none, some, List, [], ◌∷◌, Option-cases, inl, inr,
}
use network_anomaly_root_cau.Prelude.Result.{Result, ok, >>=-eq-ok, ok-injective}
use network_anomaly_root_cau.Db.Tables.{
  AnalysisRun, Hypothesis, Evidence, PlaybookRecommendation, Store,
}
use network_anomaly_root_cau.Db.Repositories.{append_audit}
use network_anomaly_root_cau.Orchestration.Runs.{
  update_run_row, persist_hypothesis, persist_evidence, add_recommendation, add_explanation,
}
use network_anomaly_root_cau.Orchestration.Validation.{
  ExplanationDraft, AnalysisResult, validate_analysis_result, validate_explanation_rows,
}
use network_anomaly_root_cau.Orchestration.Publish.{
  Orchestrator, explanation_row, with_result, with_runs, insert_hypotheses, insert_evidence,
  insert_recommendations, insert_explanations, fallback_entry, log_fallback, insert_result,
  insert_optional,
}

-- the runs, the incidents, the events and the attachments are the same
abbrev pub Kept : Store → Store → Type 0
Kept a b =
    (b.runs ≡ a.runs)
    × (b.incidents ≡ a.incidents)
    × (b.events ≡ a.events)
    × (b.incident_events ≡ a.incident_events)

Kept-same : (a b : Store) → a ≡ b → Kept a b
Kept-same a b e = (
  ap (λ (s : Store). s.runs) (sym e),
  ap (λ (s : Store). s.incidents) (sym e),
  ap (λ (s : Store). s.events) (sym e),
  ap (λ (s : Store). s.incident_events) (sym e),
)

Kept-trans : (a b c : Store) → Kept a b → Kept b c → Kept a c
Kept-trans a b c (p, q, r, s) (p1, q1, r1, s1) = (p1 ∙ p, q1 ∙ q, r1 ∙ r, s1 ∙ s)

pair-eq :
    {a b : Option String} {x y : Store}
    → ◌≡◌ {A = Result (Option String × Store)} (ok (a, x)) (ok (b, y))
    → (a ≡ b) × (x ≡ y)
pair-eq e = (cc, cc)

module _ (o : Orchestrator) where
  insert_hypotheses-Kept :
      (rows : List Hypothesis) (st new : Store) → insert_hypotheses o rows st ≡ ok new → Kept st new
  unfolding insert_hypotheses
  insert_hypotheses-Kept [] st new e = Kept-same st new (ok-injective e)
  insert_hypotheses-Kept (h ∷ rest) st new e =
      let (rows, h1, e1) = >>=-eq-ok (persist_hypothesis st.entities h st.hypotheses) _ e in
      let next : Store = record st { hypotheses = rows } in insert_hypotheses-Kept rest next new e1

  insert_evidence-Kept :
      (rows : List Evidence) (st new : Store) → insert_evidence o rows st ≡ ok new → Kept st new
  unfolding insert_evidence
  insert_evidence-Kept [] st new e = Kept-same st new (ok-injective e)
  insert_evidence-Kept (v ∷ rest) st new e =
      let (rows, h1, e1) = >>=-eq-ok (persist_evidence st.events st.hypotheses v st.evidence) _ e in
      let next : Store = record st { evidence = rows } in insert_evidence-Kept rest next new e1

  insert_recommendations-Kept :
      (rows : List PlaybookRecommendation) (st new : Store)
      → insert_recommendations o rows st ≡ ok new
      → Kept st new
  unfolding insert_recommendations
  insert_recommendations-Kept [] st new e = Kept-same st new (ok-injective e)
  insert_recommendations-Kept (r ∷ rest) st new e =
      let (rows, h1, e1) = >>=-eq-ok (add_recommendation st.hypotheses r st.recommendations) _ e in
      let next : Store = record st { recommendations = rows } in
      insert_recommendations-Kept rest next new e1

  insert_explanations-Kept :
      (run : AnalysisRun) (n : ℕ) (rows : List ExplanationDraft) (st new : Store)
      → insert_explanations o run n rows st ≡ ok new
      → Kept st new
  unfolding insert_explanations
  insert_explanations-Kept run n [] st new e = Kept-same st new (ok-injective e)
  insert_explanations-Kept run n (d ∷ rest) st new e =
      let (rows, h1, e1) =
        >>=-eq-ok (add_explanation (explanation_row o run n d) st.explanations) _ e in
      let next : Store = record st { explanations = rows } in
      insert_explanations-Kept run (n + 1) rest next new e1

  log_fallback-Kept :
      (run : AnalysisRun) (r : AnalysisResult) (st new : Store)
      → log_fallback o run r st ≡ ok new
      → Kept st new
  unfolding log_fallback
  log_fallback-Kept run r st new e = elim (Option-cases r.explanation_fallback_reason) [
    | inl absent ↦ Kept-same st new (ok-injective (rw (log_fallback, absent) at e))
    | inr (reason, present) ↦
        let (logs, h1, e1) =
          >>=-eq-ok (append_audit st.audit_logs (fallback_entry o run r reason)) _
            (rw (log_fallback, present) at e) in
        let next : Store = record st { audit_logs = logs } in Kept-same next new (ok-injective e1)
  ]

  -- the runs with the metadata of the result, if there is one
  abbrev pub written : AnalysisRun → Option AnalysisResult → List AnalysisRun → List AnalysisRun
  written run none runs = runs
  written run (some r) runs = update_run_row run.id (with_result o r) runs

  pub insert_optional-Kept :
      (run : AnalysisRun) (result : Option AnalysisResult) (st new : Store) (top : Option String)
      → insert_optional o run result st ≡ ok (top, new)
      → Kept (with_runs o (written run result st.runs) st) new
  unfolding insert_optional insert_result
  insert_optional-Kept run none st new top e = Kept-same st new (pair-eq e).1
  insert_optional-Kept run (some r) st new top e =
      let (u, h1, e1) = >>=-eq-ok (validate_analysis_result o.known run.id run.incident_id r) _ e in
      let (v, h2, e2) = >>=-eq-ok (validate_explanation_rows run.id run.incident_id r) _ e1 in
      let start = with_runs o (update_run_row run.id (with_result o r) st.runs) st in
      let (a, h3, e3) = >>=-eq-ok (insert_hypotheses o r.hypotheses start) _ e2 in
      let (b, h4, e4) = >>=-eq-ok (insert_evidence o r.evidence_rows a) _ e3 in
      let (c, h5, e5) = >>=-eq-ok (insert_recommendations o r.recommendation_rows b) _ e4 in
      let (d, h6, e6) = >>=-eq-ok (insert_explanations o run 0 r.explanation_rows c) _ e5 in
      let (l, h7, e7) = >>=-eq-ok (log_fallback o run r d) _ e6 in
      Kept-trans start a new (insert_hypotheses-Kept r.hypotheses start a h3) (
        Kept-trans a b new (insert_evidence-Kept r.evidence_rows a b h4) (
          Kept-trans b c new (insert_recommendations-Kept r.recommendation_rows b c h5) (
            Kept-trans c d new (insert_explanations-Kept run 0 r.explanation_rows c d h6) (
              Kept-trans d l new (log_fallback-Kept run r d l h7)
                (Kept-same l new (pair-eq e7).1)))))

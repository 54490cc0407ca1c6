-- ===== src/Incidents/Since.antt =====
-- What has become of the decision log between two states of the tables.
use network_anomaly_root_cau.Prelude.{
  String, eq_iff, ◌≡◌, refl, sym, ap, ◌∙◌, subst, Bool, true, false, Option, none, some, List, [],
  ◌∷◌, find, any, is_some, if◌then◌else◌, arith, Memᴰ, Memᴰ-cons, ◌⊎◌, inl, inr, Bool-cases,
}
use network_anomaly_root_cau.Prelude.Result.{ok}
use network_anomaly_root_cau.Db.Tables.{
  Event, Anomaly, IncidentEvent, IncidentEventEvaluation, Store,
}
use network_anomaly_root_cau.Incidents.Scoring.{AttachmentEvaluation}
use network_anomaly_root_cau.Incidents.Tables.{is_evaluation, get_evaluation}
use network_anomaly_root_cau.Incidents.Manager.{
  Manager, is_attached, evaluation_row, attachment_row, persist_evaluation,
}
use network_anomaly_root_cau.Incidents.Log.{
  attachments_of, is_distinct, Persisted, persist_evaluation-eq-ok,
}

-- the attached events are those of the log's attached evaluations, in their order, and no event is
-- evaluated twice for one incident
pub record IsLogged (st : Store) : Type 0 where
  pub attachments_are : st.incident_events ≡ attachments_of st.evaluations
  pub distinct : is_distinct st.evaluations ≡ true

-- from `old` to `new`: the log stays in order, every new attachment is to the one incident, and no
-- evaluation is lost
pub record Since (only : Option String) (old new : Store) : Type 0 where
  pub logged : IsLogged old → IsLogged new
  pub exclusive :
      (r : IncidentEvent)
      → Memᴰ r new.incident_events
      → Memᴰ r old.incident_events ⊎ (only ≡ some r.incident_id)
  pub complete :
      (i e : String)
      → is_some (get_evaluation old.evaluations i e) ≡ true
      → is_some (get_evaluation new.evaluations i e) ≡ true

pub Since-same :
    (only : Option String) (old new : Store)
    → new.evaluations ≡ old.evaluations
    → new.incident_events ≡ old.incident_events
    → Since only old new
Since-same only old new e f = record {
  logged =
      λ h. record { attachments_are = rw (e, f) h.attachments_are; distinct = rw e h.distinct };
  exclusive = λ r k. inl (rw f at k);
  complete = λ i ev k. rw e k;
}

pub Since-trans :
    (only : Option String) (a b c : Store) → Since only a b → Since only b c → Since only a c
Since-trans only a b c h k = record {
  logged = λ l. k.logged (h.logged l);
  exclusive =
      λ r mem. elim (k.exclusive r mem) [ inl before ↦ h.exclusive r before | inr it ↦ inr it ];
  complete = λ i e known. k.complete i e (h.complete i e known);
}

-- a search that finds nothing finds no test that holds
any-eq-false_of_find {ℓ} :
    {A : Type ℓ} (p : A → Bool) (xs : List A) → find p xs ≡ none → any p xs ≡ false
any-eq-false_of_find p [] h = refl
any-eq-false_of_find p (x ∷ xs) h = ground (arith, any-eq-false_of_find p xs)

attachments_of-cons :
    (w : IncidentEventEvaluation) (vs : List IncidentEventEvaluation)
    → attachments_of (w ∷ vs)
      ≡ (if is_attached w.decision then attachment_row w ∷ attachments_of vs else attachments_of vs)
attachments_of-cons w vs = elim (Bool-cases (is_attached w.decision)) [
  | inl attached ↦ rw attached
  | inr excluded ↦ rw excluded
]

-- an item of a list that is extended under a test
Memᴰ-if {ℓ} :
    {A : Type ℓ} (b : Bool) (x r : A) (xs : List A)
    → Memᴰ r (if b then x ∷ xs else xs)
    → Memᴰ r xs ⊎ ((b ≡ true) × (r ≡ x))
Memᴰ-if true x r xs mem = elim ((Memᴰ-cons r x xs).0 mem) [
  | inl same ↦ inr (refl, same)
  | inr old ↦ inl old
]
Memᴰ-if false x r xs mem = inl mem

module _ (only : Option String) (incident_id : String) (event : Event) (v : AttachmentEvaluation)
    (st new : Store) where
  Persisted-Since :
      (is_attached v.decision ≡ true → only ≡ some incident_id)
      → Persisted incident_id event v st new
      → Since only st new
  Persisted-Since permitted p = record {
    logged = λ l. record {
      attachments_are =
          p.attachments_are
          ∙ ap
              (λ rows.
                if is_attached v.decision
                then attachment_row (evaluation_row incident_id event.id v) ∷ rows
                else rows)
              l.attachments_are
          ∙ sym (attachments_of-cons (evaluation_row incident_id event.id v) st.evaluations)
          ∙ ap attachments_of (sym p.evaluations_are);
      distinct = rw p.evaluations_are (
          ground (
            arith,
            l.distinct,
            any-eq-false_of_find (is_evaluation incident_id event.id) st.evaluations p.fresh,
          ));
    };
    exclusive = λ r mem.
        elim (Memᴰ-if (is_attached v.decision)
          (attachment_row (evaluation_row incident_id event.id v)) r st.incident_events
          (subst (Memᴰ r) p.attachments_are mem)) [
            | inl old ↦ inl old
            | inr (attached, same) ↦
                inr (permitted attached ∙ ap (λ (x : IncidentEvent). some x.incident_id) (sym same))
          ];
    complete = λ i e known. rw p.evaluations_are (ground (arith, known));
  }

  pub persist_evaluation-Since :
      (m : Manager) (anomalies : List Anomaly)
      → (is_attached v.decision ≡ true → only ≡ some incident_id)
      → persist_evaluation m incident_id event anomalies v st ≡ ok new
      → Since only st new
  persist_evaluation-Since m anomalies permitted e =
      elim (persist_evaluation-eq-ok m incident_id event anomalies v st new e) [
        | inl (same, known) ↦
            Since-same only st new (ap (λ (s : Store). s.evaluations) same)
              (ap (λ (s : Store). s.incident_events) same)
        | inr p ↦ Persisted-Since permitted p
      ]

  -- afterwards the event has an evaluation for the incident
  pub is_some-get_evaluation-persist :
      (m : Manager) (anomalies : List Anomaly)
      → persist_evaluation m incident_id event anomalies v st ≡ ok new
      → is_some (get_evaluation new.evaluations incident_id event.id) ≡ true
  is_some-get_evaluation-persist m anomalies e =
      elim (persist_evaluation-eq-ok m incident_id event anomalies v st new e) [
        | inl (same, known) ↦ rw same known
        | inr p ↦
            rw p.evaluations_are
              (ground (arith, eq_iff incident_id incident_id, eq_iff event.id event.id))
      ]

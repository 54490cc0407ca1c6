-- ===== src/Ingestion/Tables.antt =====
-- The queries and writes of backend/app/db/repositories/event_repository.py that the ingestion uses.
use network_anomaly_root_cau.Prelude.{
  ℕ, ◌+◌, String, ◌==◌, Bool, false, ◌&&◌, ◌||◌, Option, none, some, List, [], ◌∷◌, keep, any, ltb,
  if◌then◌else◌,
}
use network_anomaly_root_cau.Prelude.Result.{Result, ok, raise_if, ◌>>◌}
use network_anomaly_root_cau.Db.Tables.{Event, QuarantinedEvent, CollapsedEventGroup}
use network_anomaly_root_cau.Db.Repositories.{scalar_one_or_none}

unfoldable pub get_by_source_record : List Event → String → String → Result (Option Event)
get_by_source_record events source id = scalar_one_or_none (
    keep
      (λ (e : Event).
        e.source == source && elim e.source_record_id [ none ↦ false | some s ↦ s == id ])
      events)

unfoldable pub get_collapsed_group_by_fingerprint :
    List CollapsedEventGroup → String → Result (Option CollapsedEventGroup)
get_collapsed_group_by_fingerprint groups fingerprint =
    scalar_one_or_none (keep (λ (g : CollapsedEventGroup). g.fingerprint == fingerprint) groups)

-- the ID is the primary key, the source and its record are unique, and the severity is at most 1.0
abbrev pub same_source_record : Event → Event → Bool
same_source_record a b = elim a.source_record_id [
  | none ↦ false
  | some s ↦ elim b.source_record_id [ none ↦ false | some t ↦ a.source == b.source && s == t ]
]

unfoldable pub persist_accepted : Event → List Event → Result (List Event)
persist_accepted row events = do
  raise_if
      (any (λ (e : Event). e.id == row.id || same_source_record e row) events
        || ltb 10000 row.severity)
      "IntegrityError"
  ok (row ∷ events)

unfoldable pub persist_quarantined :
    QuarantinedEvent → List QuarantinedEvent → Result (List QuarantinedEvent)
persist_quarantined row rows = do
  raise_if (any (λ (e : QuarantinedEvent). e.id == row.id) rows) "IntegrityError"
  ok (row ∷ rows)

unfoldable pub persist_collapsed_group :
    CollapsedEventGroup → List CollapsedEventGroup → Result (List CollapsedEventGroup)
persist_collapsed_group row rows = do
  raise_if (any (λ (g : CollapsedEventGroup). g.id == row.id) rows) "IntegrityError"
  ok (row ∷ rows)

abbrev pub extended : ℕ → CollapsedEventGroup → CollapsedEventGroup
extended t g = record g {
  event_count = g.event_count + 1;
  first_seen = if ltb t g.first_seen then t else g.first_seen;
  last_seen = if ltb g.last_seen t then t else g.last_seen;
}

abbrev pub increment_collapsed_group :
    String → ℕ → List CollapsedEventGroup → List CollapsedEventGroup
increment_collapsed_group id t [] = []
increment_collapsed_group id t (g ∷ gs) =
    let rest = increment_collapsed_group id t gs in
    if g.id == id then extended t g ∷ gs else g ∷ rest

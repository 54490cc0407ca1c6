-- ===== src/Incidents/Tables.antt =====
-- The queries and writes of backend/app/db/repositories that the incident manager uses:
-- incident_repository.py, event_repository.py and anomaly_repository.py.
use network_anomaly_root_cau.Prelude.{
  ℕ, ◌+◌, ◌*◌, ◌/◌, ◌%◌, String, ◌==◌, Bool, not, ◌&&◌, ◌||◌, Option, List, [], ◌∷◌, ◌++◌, keep,
  find, any, ltb, leb, eqb, contains, if◌then◌else◌, sort_by, insert_by,
}
use network_anomaly_root_cau.Prelude.Result.{Result, ok, raise_if, ◌>>◌}
use network_anomaly_root_cau.Db.Tables.{
  Event, Anomaly, Entity, Incident, IncidentEvent, IncidentEventEvaluation,
}
use network_anomaly_root_cau.Db.Repositories.{update_incident}
use network_anomaly_root_cau.Rca.Events.{text_le}

-- `round(x, 2)` of a number of ten-thousandths: to hundredths, and half to the even one
unfoldable pub round_2 : ℕ → ℕ
round_2 x =
    let q = x / 100 in
    let r = x % 100 in if ltb 50 r || eqb r 50 && eqb (q % 2) 1 then (q + 1) * 100 else q * 100

abbrev pub is_open : Incident → Bool
is_open i = i.status == "open" || i.status == "investigating"

abbrev pub started_later : Incident → Incident → Bool
started_later a b = leb b.started_at a.started_at

unfoldable pub list_open : List Incident → List Incident
unfolding sort_by insert_by
list_open incidents = sort_by started_later (keep is_open incidents)

abbrev pub event_first : Event → Event → Bool
event_first a b = ltb a.timestamp b.timestamp || eqb a.timestamp b.timestamp && text_le a.id b.id

abbrev pub is_in_window : ℕ → ℕ → Event → Bool
is_in_window start end_ e = e.status == "accepted" && leb start e.timestamp && leb e.timestamp end_

-- with `end_inclusive=True`
unfoldable pub list_accepted_in_window : List Event → ℕ → ℕ → List Event
unfolding sort_by insert_by
list_accepted_in_window events start end_ =
    sort_by event_first (keep (is_in_window start end_) events)

unfoldable pub get_events_by_ids : List Event → List String → List Event
unfolding contains
get_events_by_ids events ids = keep (λ (e : Event). contains ids e.id) events

abbrev pub list_by_event : List Anomaly → String → List Anomaly
list_by_event anomalies event_id = keep (λ (a : Anomaly). a.event_id == event_id) anomalies

abbrev pub entity_by_id : List Entity → String → Option Entity
entity_by_id entities id = find (λ (e : Entity). e.id == id) entities

abbrev pub is_evaluation : String → String → IncidentEventEvaluation → Bool
is_evaluation incident_id event_id v = v.incident_id == incident_id && v.event_id == event_id

abbrev pub get_evaluation :
    List IncidentEventEvaluation → String → String → Option IncidentEventEvaluation
get_evaluation evaluations incident_id event_id =
    find (is_evaluation incident_id event_id) evaluations

abbrev pub get_attached_events : List IncidentEvent → String → List IncidentEvent
get_attached_events rows incident_id =
    keep (λ (r : IncidentEvent). r.incident_id == incident_id) rows

abbrev pub is_attachment : String → String → IncidentEvent → Bool
is_attachment incident_id event_id r = r.incident_id == incident_id && r.event_id == event_id

abbrev pub is_incident : String → Incident → Bool
is_incident id i = i.id == id

abbrev pub is_event : String → Event → Bool
is_event id e = e.id == id

-- the foreign keys of the rows that name an incident and an event
abbrev pub is_known : List Incident → List Event → String → String → Bool
is_known incidents events incident_id event_id =
    any (is_incident incident_id) incidents && any (is_event event_id) events

-- `attach_event`: the two columns are the primary key, and each is a foreign key
unfoldable pub attach_event :
    List Incident → List Event → IncidentEvent → List IncidentEvent → Result (List IncidentEvent)
attach_event incidents events row rows = do
  raise_if
      (any (is_attachment row.incident_id row.event_id) rows
        || not (is_known incidents events row.incident_id row.event_id))
      "IntegrityError"
  ok (row ∷ rows)

-- the ID is the primary key, and the primary entity a foreign key
unfoldable pub create_incident : List Entity → Incident → List Incident → Result (List Incident)
create_incident entities row rows = do
  raise_if
      (any (is_incident row.id) rows
        || not (any (λ (e : Entity). e.id == row.primary_entity_id) entities))
      "IntegrityError"
  ok (row ∷ rows)

abbrev pub with_started_at : ℕ → Incident → Incident
with_started_at t i = if ltb t i.started_at then record i { started_at = t } else i

abbrev pub with_last_event_at : ℕ → Incident → Incident
with_last_event_at t i = if ltb i.last_event_at t then record i { last_event_at = t } else i

abbrev pub with_anomaly_count : ℕ → Incident → Incident
with_anomaly_count n i = record i { anomaly_count = i.anomaly_count + n }

abbrev pub with_affected_entity : String → Incident → Incident
unfolding contains
with_affected_entity id i =
    if contains i.affected_entity_ids id
    then i
    else record i { affected_entity_ids = i.affected_entity_ids ++ id ∷ [] }

abbrev pub with_severity : ℕ → Incident → Incident
unfolding round_2
with_severity s i = if ltb i.severity (round_2 s) then record i { severity = round_2 s } else i

-- `update_started_at_if_earlier`, `update_last_event_at`, `add_anomaly_count`, `add_affected_entity`
-- and `update_severity`
unfoldable pub update_started_at_if_earlier : String → ℕ → List Incident → Result (List Incident)
unfolding update_incident
update_started_at_if_earlier id t incidents = update_incident id (with_started_at t) incidents

unfoldable pub update_last_event_at : String → ℕ → List Incident → Result (List Incident)
unfolding update_incident
update_last_event_at id t incidents = update_incident id (with_last_event_at t) incidents

unfoldable pub add_anomaly_count : String → ℕ → List Incident → Result (List Incident)
unfolding update_incident
add_anomaly_count id n incidents = update_incident id (with_anomaly_count n) incidents

unfoldable pub add_affected_entity : String → String → List Incident → Result (List Incident)
unfolding update_incident
add_affected_entity id entity incidents = update_incident id (with_affected_entity entity) incidents

unfoldable pub update_severity : String → ℕ → List Incident → Result (List Incident)
unfolding update_incident
update_severity id s incidents = update_incident id (with_severity s) incidents

-- ===== src/Rca/Events.antt =====
-- What the generator and the ranker share: the order of events, payload lookups and number labels.
use Prim.Native.Nat.{Ordering}
use Prim.Native.String.{compare, ◌++◌ as append}
use network_anomaly_root_cau.Prelude.{
  ℕ, zero, suc, ◌/◌, ◌%◌, String, ◌==◌, Bool, true, false, not, ◌&&◌, ◌||◌, Option, none, some,
  List, [], ◌∷◌, eqb, ltb, if◌then◌else◌, insert,
}
use network_anomaly_root_cau.Prelude.Int.{pos}
use network_anomaly_root_cau.Contracts.{
  Value, null, flag, num, text, arr, obj, nil, Fields, end, field, CanonicalEvent,
}

-- `s <= t` on texts, by code points
abbrev pub text_le : String → String → Bool
text_le s t = elim (compare s t) [ Ordering.gt ↦ false | _ ↦ true ]

-- the sort key `(event.timestamp, event.event_id)`
abbrev pub event_le : CanonicalEvent → CanonicalEvent → Bool
event_le a b =
    ltb a.timestamp b.timestamp || eqb a.timestamp b.timestamp && text_le a.event_id b.event_id

-- `raw_payload.get(key)`
unfoldable pub payload_get : String → Fields → Option Value
payload_get k end = none
payload_get k (field j v fs) = let rest = payload_get k fs in if j == k then some v else rest

-- the truth value of a JSON value
abbrev pub truthy : Value → Bool
truthy null = false
truthy (flag b) = b
truthy (num (pos zero)) = false
truthy (num _) = true
truthy (text s) = not (s == "")
truthy (arr nil) = false
truthy (arr _) = true
truthy (obj end) = false
truthy (obj _) = true

-- `py_str` is Python's rendering of a value that is no text
abbrev pub rendered : (Value → String) → Value → String
rendered py_str (text s) = s
rendered py_str v = py_str v

-- `str(event.raw_payload.get("target_entity_id") or event.entity_id)`
unfoldable pub target_entity : (Value → String) → CanonicalEvent → String
unfolding payload_get
target_entity py_str e = elim (payload_get "target_entity_id" e.raw_payload) [
  | none ↦ e.entity_id
  | some v ↦ if truthy v then rendered py_str v else e.entity_id
]

-- `{event.event_id: event for event in events}`, added to a dictionary
unfoldable pub index_events :
    List (String × CanonicalEvent) → List CanonicalEvent → List (String × CanonicalEvent)
unfolding insert
index_events d [] = d
index_events d (e ∷ es) = index_events (insert e.event_id e d) es

digit : ℕ → String
digit zero = "0"
digit (suc zero) = "1"
digit (suc (suc zero)) = "2"
digit (suc (suc (suc zero))) = "3"
digit (suc (suc (suc (suc zero)))) = "4"
digit (suc (suc (suc (suc (suc zero))))) = "5"
digit (suc (suc (suc (suc (suc (suc zero)))))) = "6"
digit (suc (suc (suc (suc (suc (suc (suc zero))))))) = "7"
digit (suc (suc (suc (suc (suc (suc (suc (suc zero)))))))) = "8"
digit _ = "9"

-- the decimal digits of a number, on fuel; the number itself is fuel enough
decimal : ℕ → ℕ → String
unfolding digit
decimal zero n = digit (n % 10)
decimal (suc f) n =
    let more = append (decimal f (n / 10)) (digit (n % 10)) in
    if ltb n 10 then digit (n % 10) else more

-- `f"{prefix}{n:03d}"`
unfoldable pub label : String → ℕ → String
unfolding decimal
label prefix n = append prefix (
    if ltb n 10
    then append "00" (digit n)
    else if ltb n 100
    then append "0" (decimal n n)
    else decimal n n)

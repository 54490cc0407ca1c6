-- ===== src/Orchestration/AnyOrder.antt =====
-- `process_batch` of backend/app/orchestration/orchestrator.py sorts its events by time and ID before
-- it goes through them.
use Prim.Native.String.compare
use text.Mathlib.TextEquality.{path_by_compare}
use mathlib.Core.List.Memᴰ
use mathlib.Core.List.{Permᴰ}
use network_anomaly_root_cau.Prelude.{
  String, eq_iff, ◌≡◌, refl, sym, ap, ◌∙◌, true, false, List, [], ◌∷◌, map, Memᴰ, Memᴰ-cons, arith,
  contains, is_unique, insert_by, sort_by, inl, inr, Bool-cases,
}
use network_anomaly_root_cau.Db.Tables.{Event, Store}
use network_anomaly_root_cau.Rca.Events.{text_le}
use network_anomaly_root_cau.Rca.Ranker.Candidate.Order.{text_le_total, compare-flip}
use network_anomaly_root_cau.Incidents.Tables.{event_first}
use network_anomaly_root_cau.Orchestration.Pipeline.{Pipeline, process_batch}

text_le_trans : (s t u : String) → text_le s t ≡ true → text_le t u ≡ true → text_le s u ≡ true
text_le_trans String.[] t String.[] h k = refl
text_le_trans String.[] t (String.◌∷◌ e u) h k = rw (text_le, compare.nil-cons e u) refl
text_le_trans (String.◌∷◌ c s) String.[] u h k = cc (rw (text_le, compare.cons-nil c s) at h)
text_le_trans (String.◌∷◌ c s) (String.◌∷◌ d t) String.[] h k =
    cc (rw (text_le, compare.cons-nil d t) at k)
text_le_trans (String.◌∷◌ c s) (String.◌∷◌ d t) (String.◌∷◌ e u) h k =
    let h' = rw (text_le, compare.cons-cons c d s t) at h in
    let k' = rw (text_le, compare.cons-cons d e t u) at k in
    rw (text_le, compare.cons-cons c e s u) (ground (arith, h', k', text_le_trans s t u))

text_le_antisym : (s t : String) → text_le s t ≡ true → text_le t s ≡ true → s ≡ t
text_le_antisym s t h k = path_by_compare s t (ground (arith, compare-flip s t))

event_first_total : (a b : Event) → event_first a b ≡ false → event_first b a ≡ true
event_first_total a b h = ground (arith, text_le_total a.id b.id)

event_first_trans :
    (a b c : Event) → event_first a b ≡ true → event_first b c ≡ true → event_first a c ≡ true
event_first_trans a b c h k = ground (arith, text_le_trans a.id b.id c.id)

same_id : (a b : Event) → event_first a b ≡ true → event_first b a ≡ true → a.id ≡ b.id
same_id a b h k = ground (arith, text_le_antisym a.id b.id)

-- two insertions change places where their order is decided
insert_by-insert_by :
    (a b : Event) (l : List Event)
    → event_first a b ≡ true
    → event_first b a ≡ false
    → insert_by event_first a (insert_by event_first b l)
      ≡ insert_by event_first b (insert_by event_first a l)
unfolding insert_by
insert_by-insert_by a b [] h k = rw (h, k) refl
insert_by-insert_by a b (z ∷ zs) h k =
    let more = insert_by-insert_by a b zs h k in
    elim (Bool-cases (event_first b z)) [
      | inl low ↦ rw (low, event_first_trans a b z h low, h, k, low) refl
      | inr high ↦ elim (Bool-cases (event_first a z)) [
        | inl first ↦ rw (high, first, k, high) refl
        | inr last ↦ rw (high, last, high) (ap (◌∷◌ z) more)
      ]
    ]

-- no two of the events share an ID
abbrev Identified : List Event → Type 0
Identified es = (a b : Event) → Memᴰ a es → Memᴰ b es → a.id ≡ b.id → a ≡ b

Memᴰ-Permᴰ : {a : Event} {es fs : List Event} → Permᴰ es fs → Memᴰ a fs → Memᴰ a es
Memᴰ-Permᴰ Permᴰ.nil m = m
Memᴰ-Permᴰ {a} (Permᴰ.cons {b = y} {l₂ = ys} e p) m = elim ((Memᴰ-cons a y ys).0 m) [
  | inl here ↦ Memᴰ.head (here ∙ sym e)
  | inr there ↦ Memᴰ.tail (Memᴰ-Permᴰ p there)
]
Memᴰ-Permᴰ {a} (Permᴰ.swap {a' = x} {b' = y} {l = l} e e') m = elim ((Memᴰ-cons a x (y ∷ l)).0 m) [
  | inl here ↦ Memᴰ.tail (Memᴰ.head (here ∙ sym e'))
  | inr rest ↦ elim ((Memᴰ-cons a y l).0 rest) [
    | inl here ↦ Memᴰ.head (here ∙ sym e)
    | inr there ↦ Memᴰ.tail (Memᴰ.tail there)
  ]
]
Memᴰ-Permᴰ (Permᴰ.trans p q) m = Memᴰ-Permᴰ p (Memᴰ-Permᴰ q m)

insert_by_any_order :
    (a b : Event) (l : List Event)
    → (a.id ≡ b.id → a ≡ b)
    → insert_by event_first a (insert_by event_first b l)
      ≡ insert_by event_first b (insert_by event_first a l)
insert_by_any_order a b l h = elim (Bool-cases (event_first a b)) [
  | inl low ↦ elim (Bool-cases (event_first b a)) [
    | inr high ↦ insert_by-insert_by a b l low high
    | inl both ↦
        ap (λ x. insert_by event_first x (insert_by event_first b l)) (h (same_id a b low both))
        ∙ ap (λ x. insert_by event_first b (insert_by event_first x l))
            (sym (h (same_id a b low both)))
  ]
  | inr high ↦ sym (insert_by-insert_by b a l (event_first_total a b high) high)
]

sort_by_any_order :
    {es fs : List Event}
    → Identified es
    → Permᴰ es fs
    → sort_by event_first es ≡ sort_by event_first fs
unfolding sort_by
sort_by_any_order h Permᴰ.nil = refl
sort_by_any_order h (Permᴰ.cons e p) = λ i.
    insert_by event_first (e i)
      (sort_by_any_order (λ a b m n. h a b (Memᴰ.tail m) (Memᴰ.tail n)) p i)
sort_by_any_order h (Permᴰ.swap {a = a} {b = b} {l = l} e e') =
    insert_by_any_order a b (sort_by event_first l)
      (h a b (Memᴰ.head refl) (Memᴰ.tail (Memᴰ.head refl)))
    ∙ (λ i. insert_by event_first (e' i) (insert_by event_first (e i) (sort_by event_first l)))
sort_by_any_order h (Permᴰ.trans p q) =
    sort_by_any_order h p ∙ sort_by_any_order (λ a b m n. h a b (Memᴰ-Permᴰ p m) (Memᴰ-Permᴰ p n)) q

contains-id :
    (a : Event) (es : List Event) → Memᴰ a es → contains (map (λ (e : Event). e.id) es) a.id ≡ true
unfolding contains
contains-id a [] m = absurd (Memᴰ.not-nil m)
contains-id a (x ∷ es) m = ground (arith, Memᴰ-cons a x es, contains-id a es, eq_iff x.id a.id)

Identified-of_is_unique :
    (es : List Event) → is_unique (map (λ (e : Event). e.id) es) ≡ true → Identified es
unfolding is_unique
Identified-of_is_unique [] h a b m n e = absurd (Memᴰ.not-nil m)
Identified-of_is_unique (x ∷ es) h a b m n e = elim ((Memᴰ-cons a x es).0 m) [
  | inl first ↦ elim ((Memᴰ-cons b x es).0 n) [
    | inl second ↦ first ∙ sym second
    | inr later ↦ absurd (ground (arith, contains-id b es later, ap (λ (e : Event). e.id) first))
  ]
  | inr earlier ↦ elim ((Memᴰ-cons b x es).0 n) [
    | inl second ↦
        absurd (ground (arith, contains-id a es earlier, ap (λ (e : Event). e.id) second))
    | inr later ↦ Identified-of_is_unique es (ground arith) a b earlier later e
  ]
]

-- A batch in which no two events share an ID ends the same, with the same tables or the same error, in
-- whatever order its events are given.
pub process_batch_any_order :
    (p : Pipeline) (es fs : List Event) (st : Store)
    → is_unique (map (λ (e : Event). e.id) es) ≡ true
    → Permᴰ es fs
    → process_batch p es st ≡ process_batch p fs st
unfolding process_batch
process_batch_any_order p es fs st unique moved =
    rw (process_batch, sort_by_any_order (Identified-of_is_unique es unique) moved) refl

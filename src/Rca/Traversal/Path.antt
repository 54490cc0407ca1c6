-- ===== src/Rca/Traversal/Path.antt =====
-- The queue loop of `TopologyIndex.path` in backend/app/rca/ranker.py, measured against walks.
use network_anomaly_root_cau.Prelude.{
  ℕ, zero, suc, ◌≤◌, ◌<◌, String, ◌==◌, eq_iff, List, [], ◌∷◌, ◌++◌, map, Memᴰ, ◌≡◌, refl, sym, ap,
  subst, true, false, ◌||◌, arith, length, length-append, contains, contains_of_Memᴰ,
  Memᴰ_of_contains, Bool-cases, ◌⊎◌, inl, inr, All, leb, leb→le, leb→lt,
}
use network_anomaly_root_cau.Rca.Traversal.{neighbors, PathSearch, found, not_found, out_of_fuel}
use network_anomaly_root_cau.Rca.Traversal.Walks.{
  Walk, here, step, Trail, extend, fresh, mark, item, contains-mark, contains-fresh,
}

module _ (adj : List (String × List String)) (s t : String) (max_hops : ℕ) where
  abbrev pub names : List (String × List String) → List String
  names = map (λ i. i.0)

  -- an entry of the queue at depth `k`: its trail, and that no walk to its vertex is shorter
  pub record Entry (k : ℕ) (i : String × List String) : Type 0 where
    pub trail : Trail adj s i.0 i.1
    pub size : length i.1 ≡ suc k
    pub least : (n : ℕ) → Walk adj s i.0 n → k ≤ n

  -- a vertex that has left the queue
  abbrev pub Done : List String → String → Type 0
  Done visited u =
      ((w : String) → Memᴰ w (neighbors adj u) → contains visited w ≡ true)
      ⊎ ((n : ℕ) → Walk adj s u n → max_hops ≤ n)

  -- the queue is `now ++ next`, its entries at depth `k` and at depth `k + 1`
  pub record Inv (k : ℕ) (visited : List String) (now next : List (String × List String))
      : Type 0 where
    pub source : contains visited s ≡ true
    pub target : contains visited t ≡ false
    pub at_now : All (Entry k) now
    pub at_next : All (Entry (suc k)) next
    pub closed :
        (u : String)
        → contains visited u ≡ true
        → (contains (names now) u ≡ true) ⊎ (contains (names next) u ≡ true) ⊎ Done visited u
    pub near :
        (n : ℕ) (v : String) → Walk adj s v n → n ≤ k → n ≤ max_hops → contains visited v ≡ true

  -- what the answer has to be
  abbrev pub Answer : PathSearch → Type 0
  Answer (found p) =
      Trail adj s t p × (length p ≤ suc max_hops) × ((n : ℕ) → Walk adj s t n → length p ≤ suc n)
  Answer not_found = (n : ℕ) → Walk adj s t n → max_hops < n
  Answer out_of_fuel = ⊥

  pub all_near :
      (k : ℕ) (visited : List String)
      → Inv k visited [] []
      → (n : ℕ) (v : String) → Walk adj s v n
      → n ≤ max_hops
      → contains visited v ≡ true
  unfolding contains
  all_near k visited inv zero v here h = inv.source
  all_near k visited inv (suc n) v (step {u} w m) h =
      elim (inv.closed u (all_near k visited inv n u w (omega arith))) [
        | inl a ↦ absurd (ground arith)
        | inr (inl a) ↦ absurd (ground arith)
        | inr (inr (inl all)) ↦ all v m
        | inr (inr (inr far)) ↦ absurd (omega (arith, far n w))
      ]

  names-item : (p ws : List String) → names (map (item p) ws) ≡ ws
  names-item p [] = refl
  names-item p (w ∷ ws) = ap (◌∷◌ w) (names-item p ws)

  names-append :
      (xs ys : List (String × List String)) (u : String)
      → contains (names (xs ++ ys)) u ≡ (contains (names xs) u || contains (names ys) u)
  unfolding contains
  names-append [] ys u = refl
  names-append (x ∷ xs) ys u = ground (arith, names-append xs ys u)

  All-append :
      (k : ℕ) (xs ys : List (String × List String))
      → All (Entry k) xs
      → All (Entry k) ys
      → All (Entry k) (xs ++ ys)
  All-append k [] ys hx hy = hy
  All-append k (x ∷ xs) ys hx hy = (hx.0, All-append k xs ys hx.1 hy)

  -- a vertex that waits at a level is not nearer than the level
  least_of_names :
      (k : ℕ) (l : List (String × List String)) (u : String) (n : ℕ)
      → All (Entry k) l
      → contains (names l) u ≡ true
      → Walk adj s u n
      → k ≤ n
  unfolding contains
  least_of_names k [] u n h m w = cc
  least_of_names k (i ∷ l) u n h m w = elim (Bool-cases (i.0 == u)) [
    | inl same ↦ h.0.least n (subst (λ x. Walk adj s x n) (sym ((eq_iff i.0 u).0 same)) w)
    | inr other ↦ least_of_names k l u n h.1 (rw other at m) w
  ]

  near_next :
      (k : ℕ) (visited : List String) (next : List (String × List String))
      → Inv k visited [] next
      → (n : ℕ) (v : String) → Walk adj s v n
      → n ≤ suc k
      → n ≤ max_hops
      → contains visited v ≡ true
  unfolding contains
  near_next k visited next inv zero v w a b = inv.near zero v w (omega arith) b
  near_next k visited next inv (suc n) v (step {u} w m) a b =
      elim (inv.closed u (inv.near n u w (omega arith) (omega arith))) [
        | inl x ↦ absurd (ground arith)
        | inr (inl x) ↦ absurd (omega (arith, least_of_names (suc k) next u n inv.at_next x w))
        | inr (inr (inl all)) ↦ all v m
        | inr (inr (inr far)) ↦ absurd (omega (arith, far n w))
      ]

  -- the level below is used up
  pub Inv-level :
      (k : ℕ) (visited : List String) (next : List (String × List String))
      → Inv k visited [] next
      → Inv (suc k) visited next []
  unfolding contains
  Inv-level k visited next inv = record {
    source = inv.source;
    target = inv.target;
    at_now = inv.at_next;
    at_next = tt;
    closed = λ u v. elim (inv.closed u v) [
      | inl a ↦ absurd (ground arith)
      | inr (inl a) ↦ inl a
      | inr (inr d) ↦ inr (inr d)
    ];
    near = near_next k visited next inv;
  }

  module _ (k : ℕ) (visited : List String) (c : String) (p : List String)
      (now next : List (String × List String)) (inv : Inv k visited ((c, p) ∷ now) next) where
    abbrev pub ws : List String
    ws = neighbors adj c

    -- an entry at the bound leaves the queue, and its neighbours are not looked at
    pub Inv-skip : max_hops ≤ k → Inv k visited now next
    unfolding contains
    Inv-skip far = record {
      source = inv.source;
      target = inv.target;
      at_now = inv.at_now.1;
      at_next = inv.at_next;
      closed = λ u v. elim (inv.closed u v) [
        | inl a ↦ elim (Bool-cases (c == u)) [
          | inl same ↦
              inr (
                inr
                  (inr (λ n w. omega (arith, least_of_names k ((c, p) ∷ now) u n inv.at_now a w))))
          | inr other ↦ inl (rw other at a)
        ]
        | inr b ↦ inr b
      ];
      near = inv.near;
    }

    visited-mark : (x : String) → contains visited x ≡ true → contains (mark visited ws) x ≡ true
    visited-mark x h = ground (arith, contains-mark visited ws x)

    fresh_entries :
        k < max_hops
        → (l : List String)
        → ((w : String) → contains l w ≡ true → contains (fresh visited ws) w ≡ true)
        → All (Entry (suc k)) (map (item p) l)
    unfolding contains
    fresh_entries h [] sub = tt
    fresh_entries h (w ∷ l) sub =
        let new : contains (fresh visited ws) w ≡ true = sub w (ground (arith, eq_iff w w)) in
        let fr = contains-fresh visited ws w in
        (
          record {
            trail = extend inv.at_now.0.trail (Memᴰ_of_contains ws w (ground arith));
            size = omega (arith, length-append p (w ∷ []), inv.at_now.0.size);
            least = λ n walk. elim (Bool-cases (leb n k)) [
              | inl low ↦ absurd (ground (arith, inv.near n w walk (leb→le n k low)))
              | inr high ↦ leb→lt n k high
            ];
          },
          fresh_entries h l (λ x m. sub x (ground (arith, m))),
        )

    closed_next :
        (u : String)
        → contains (mark visited ws) u ≡ true
        → (contains (names now) u ≡ true)
          ⊎ (contains (names (next ++ map (item p) (fresh visited ws))) u ≡ true)
          ⊎ Done (mark visited ws) u
    unfolding contains
    closed_next u m =
        let split = names-append next (map (item p) (fresh visited ws)) u in
        let fresh_names =
          ap (λ (l : List String). contains l u) (names-item p (fresh visited ws)) in
        elim (Bool-cases (contains visited u)) [
          | inr new ↦ inr (
              inl (
                ground (
                  arith,
                  split,
                  fresh_names,
                  contains-fresh visited ws u,
                  contains-mark visited ws u,
                )))
          | inl old ↦ elim (inv.closed u old) [
            | inl a ↦ elim (Bool-cases (c == u)) [
              | inl same ↦ inr (
                  inr (
                    inl (λ w e.
                      let e' =
                        subst (λ x. Memᴰ w (neighbors adj x)) (sym ((eq_iff c u).0 same)) e in
                      ground (arith, contains-mark visited ws w, contains_of_Memᴰ ws w e'))))
              | inr other ↦ inl (rw other at a)
            ]
            | inr (inl a) ↦ inr (inl (ground (arith, split)))
            | inr (inr (inl all)) ↦ inr (inr (inl (λ w e. visited-mark w (all w e))))
            | inr (inr (inr far)) ↦ inr (inr (inr far))
          ]
        ]

    -- the neighbours of the entry are queued, none of them the target
    pub Inv-expand :
        k < max_hops
        → contains ws t ≡ false
        → Inv k (mark visited ws) now (next ++ map (item p) (fresh visited ws))
    Inv-expand h miss = record {
      source = visited-mark s inv.source;
      target = ground (arith, contains-mark visited ws t, inv.target);
      at_now = inv.at_now.1;
      at_next =
          All-append (suc k) next (map (item p) (fresh visited ws)) inv.at_next
            (fresh_entries h (fresh visited ws) (λ w m. m));
      closed = closed_next;
      near = λ n v w a b. visited-mark v (inv.near n v w a b);
    }

    -- the target is a neighbour: the path is complete, and no walk is shorter
    pub Answer-hit : k < max_hops → contains ws t ≡ true → Answer (found (p ++ t ∷ []))
    Answer-hit h m = (
      extend inv.at_now.0.trail (Memᴰ_of_contains ws t m),
      omega (arith, length-append p (t ∷ []), inv.at_now.0.size),
      λ n walk. elim (Bool-cases (leb n k)) [
        | inl low ↦ absurd (ground (arith, inv.near n t walk (leb→le n k low), inv.target))
        | inr high ↦ omega (arith, length-append p (t ∷ []), inv.at_now.0.size, leb→lt n k high)
      ],
    )

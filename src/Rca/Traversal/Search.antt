-- ===== src/Rca/Traversal/Search.antt =====
-- The whole search of `TopologyIndex.path` in backend/app/rca/ranker.py, from its first queue.
use network_anomaly_root_cau.Prelude.{
  ℕ, zero, suc, ◌+◌, ◌-◌, ◌≤◌, String, List, [], ◌∷◌, ◌++◌, map, ◌≡◌, true, arith, length,
  length-append, length-map, contains, Bool-cases, inl, inr, leb, leb→le, leb→lt,
}
use mathlib.Core.List.{append_assoc, append-nil}
use network_anomaly_root_cau.Rca.Traversal.{neighbors, path_loop}
use network_anomaly_root_cau.Rca.Traversal.Walks.{fresh, mark, item, scan_lem, unseen, unseen-mark}
use network_anomaly_root_cau.Rca.Traversal.Path.{
  Inv, Answer, Inv-level, Inv-skip, Inv-expand, Answer-hit, all_near,
}

module _ (adj : List (String × List String)) (s t : String) (max_hops : ℕ) (ends : List String)
    (cover : (u w : String) → contains (neighbors adj u) w ≡ true → contains ends w ≡ true) where
  -- enough fuel for the entries that wait and the vertices that can still be queued
  abbrev pub Ends : ℕ → Type 0
  Ends fuel =
      (k : ℕ) (visited : List String) (now next : List (String × List String))
      → Inv adj s t max_hops k visited now next
      → length (now ++ next) + unseen visited ends ≤ fuel
      → Answer adj s t max_hops (path_loop adj max_hops t fuel visited (now ++ next))

  loop_step :
      (fuel : ℕ)
      → Ends fuel
      → (k : ℕ) (visited : List String) (c : String) (p : List String)
        (now next : List (String × List String))
      → Inv adj s t max_hops k visited ((c, p) ∷ now) next
      → length ((c, p) ∷ (now ++ next)) + unseen visited ends ≤ suc fuel
      → Answer adj s t max_hops
          (path_loop adj max_hops t (suc fuel) visited ((c, p) ∷ (now ++ next)))
  unfolding path_loop
  loop_step fuel rec k visited c p now next inv room =
      let size : length p - 1 ≡ k = omega (arith, inv.at_now.0.size) in
      let ws = neighbors adj c in
      let queued = map (item p) (fresh visited ws) in
      elim (Bool-cases (leb max_hops k)) [
        | inl far ↦
            rw (size, far)
              (rec k visited now next
                (Inv-skip adj s t max_hops k visited c p now next inv (leb→le max_hops k far))
                (omega arith))
        | inr close ↦ elim (Bool-cases (contains ws t)) [
          | inl m ↦
              rw (size, close, scan_lem t p ws visited (now ++ next), m)
                (Answer-hit adj s t max_hops k visited c p now next inv (leb→lt max_hops k close) m)
          | inr miss ↦
              rw
                (
                  size,
                  close,
                  scan_lem t p ws visited (now ++ next),
                  miss,
                  append_assoc now next queued,
                )
                (rec k (mark visited ws) now (next ++ queued)
                  (Inv-expand adj s t max_hops k visited c p now next inv (leb→lt max_hops k close)
                    miss)
                  (omega (
                    arith,
                    length-append now next,
                    length-append now (next ++ queued),
                    length-append next queued,
                    length-map (item p) (fresh visited ws),
                    unseen-mark visited ws ends (cover c),
                  )))
        ]
      ]

  pub loop-Ends : (fuel : ℕ) → Ends fuel
  unfolding path_loop
  loop-Ends fuel k visited [] [] inv room = λ n walk. elim (Bool-cases (leb n max_hops)) [
    | inl low ↦ absurd (
        ground (
          arith,
          all_near adj s t max_hops k visited inv n t walk (leb→le n max_hops low),
          inv.target,
        ))
    | inr high ↦ leb→lt n max_hops high
  ]
  loop-Ends zero k visited [] (i ∷ next) inv room = absurd (omega arith)
  loop-Ends zero k visited (i ∷ now) next inv room = absurd (omega arith)
  loop-Ends (suc fuel) k visited [] ((c, p) ∷ next) inv room = rw (← append-nil next) (
      loop_step fuel (loop-Ends fuel) (suc k) visited c p next []
        (Inv-level adj s t max_hops k visited ((c, p) ∷ next) inv)
        (omega (arith, length-append next [])))
  loop-Ends (suc fuel) k visited ((c, p) ∷ now) next inv room =
      loop_step fuel (loop-Ends fuel) k visited c p now next inv room

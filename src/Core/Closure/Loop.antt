-- ===== src/Core/Closure/Loop.antt =====
-- The invariant of the `while` loop of the walk.
use asset_core.Shared.{
  ℕ, zero, suc, ◌+◌, ◌≤◌, ◌≡◌, ◌⊎◌, inl, inr, refl, true, false, Option, none, some, List, [], ◌∷◌,
  arith, In, Bool-cases, List-cases, ap,
}
use asset_core.Core.Closure.{Neighbors, Walk, is_seen, too_deep, expand, round, walk, initial}
use asset_core.Core.Closure.Step.{
  here, Marked, Inv, Grows, AllMarked, expand-step, Queue, Queue-widen,
}

-- `depth` does not exceed `max_depth`
abbrev pub Within : Option ℕ → ℕ → Type 0
Within none depth = Unit
Within (some bound) depth = depth ≤ bound

pub Within-le : (bound : Option ℕ) (d k : ℕ) → d ≤ k → Within bound k → Within bound d
Within-le none d k h w = tt
Within-le (some b) d k h w = omega arith

Within-suc : (bound : Option ℕ) (d : ℕ) → too_deep bound d ≡ false → Within bound (d + 1)
unfolding too_deep
Within-suc none d h = tt
Within-suc (some b) d h = ground arith

Within-zero : (bound : Option ℕ) → Within bound 0
Within-zero none = tt
Within-zero (some b) = omega arith

module _ {L : Type 0} (neighbors : Neighbors L) (bound : Option ℕ) (start : ℕ) where
  -- a node that left the queue was too deep, or has all its neighbours marked
  abbrev Settled : ℕ → ℕ → Walk L → Type 0
  Settled u d w = (too_deep bound d ≡ true) ⊎ AllMarked neighbors start u d (neighbors u) w

  pub record Outer (lo : ℕ) (w : Walk L) : Type 0 where
    pub inv : Inv neighbors start lo w
    pub closed : (u d : ℕ) → Marked neighbors start u d w → In (u, d) w.frontier ⊎ Settled u d w
    pub within : (n d : ℕ) → Marked neighbors start n d w → Within bound d

  pub initial-Outer : Outer 0 (initial start)
  unfolding is_seen
  initial-Outer = record {
    inv = record {
      marked = λ n q. (0, ground arith);
      seen = λ n d m. ground arith;
      sound = λ n d m. elim m [ inl (p, q) ↦ rw (p, q) here | inr a ↦ absurd a ];
      shallow = λ n d m. omega arith;
      queue = omega arith;
      queued = λ n d q. ground arith;
      distinct = tt;
      not_start = λ d a. a;
      labelled = λ n d l i. absurd i;
    };
    closed = λ u d m. ground arith;
    within = λ n d m. elim m [ inl (p, q) ↦ rw q (Within-zero bound) | inr a ↦ absurd a ];
  }

  settle : {w w' : Walk L} → Grows neighbors start w w' → (u d : ℕ) → Settled u d w → Settled u d w'
  settle g u d (inl deep) = inl deep
  settle g u d (inr done) = inr (λ v l i. let (e, m, le) = done v l i in (e, g.keeps v e m, le))

  module _ (u d : ℕ) (rest : List (ℕ × ℕ)) (lo : ℕ) (w : Walk L) where
    abbrev popped : Walk L
    popped = record w { frontier = rest }

    popped-Inv :
        w.frontier ≡ (u, d) ∷ rest → Inv neighbors start lo w → Inv neighbors start d popped
    popped-Inv e h =
        let q : Queue lo (lo + 1) ((u, d) ∷ rest) = rw e at h.queue in
        record {
          marked = h.marked;
          seen = h.seen;
          sound = h.sound;
          shallow = λ n k m. omega (arith, h.shallow n k m);
          queue = Queue-widen d (lo + 1) (d + 1) rest q.2 (omega arith);
          queued = λ n k i. h.queued n k (rw e (inr i));
          distinct = h.distinct;
          not_start = h.not_start;
          labelled = h.labelled;
        }

    -- where a marked node stands once the head is taken off
    still :
        w.frontier ≡ (u, d) ∷ rest
        → Outer lo w
        → (v k : ℕ) → Marked neighbors start v k w
        → In (v, k) rest ⊎ ((v ≡ u) × (k ≡ d)) ⊎ Settled v k w
    still e h v k m = elim (h.closed v k m) [
      | inl i ↦
          let j : In (v, k) ((u, d) ∷ rest) = rw e at i in
          elim j [
            | inl p ↦ inr (inl (ap (λ (t : ℕ × ℕ). t.0) p, ap (λ (t : ℕ × ℕ). t.1) p))
            | inr q ↦ inl q
          ]
      | inr s ↦ inr (inr s)
    ]

    deep-Outer : w.frontier ≡ (u, d) ∷ rest → Outer lo w → too_deep bound d ≡ true → Outer d popped
    deep-Outer e h deep = record {
      inv = popped-Inv e h.inv;
      closed = λ v k m. elim (still e h v k m) [
        | inl q ↦ inl q
        | inr (inl (p, q)) ↦ inr (inl (rw q deep))
        | inr (inr s) ↦ inr s
      ];
      within = h.within;
    }

    expand-Outer :
        w.frontier ≡ (u, d) ∷ rest
        → Outer lo w
        → too_deep bound d ≡ false
        → Outer d (expand d popped (neighbors u))
    expand-Outer e h near =
        let trail = h.inv.sound u d (h.inv.queued u d (rw e (inl refl))) in
        let (inv, grows, all) =
          expand-step neighbors start u d popped (neighbors u) trail (λ v l i. i)
            (popped-Inv e h.inv) in
        record {
          inv = inv;
          closed = λ v k m. elim (grows.adds v k m) [
            | inl old ↦ elim (still e h v k old) [
              | inl q ↦ inl (grows.waits v k q)
              | inr (inl (p, q)) ↦ inr (inr (rw (p, q) all))
              | inr (inr s) ↦ inr (settle grows v k s)
            ]
            | inr q ↦ inl q
          ];
          within = λ v k m. Within-le bound k (d + 1) (inv.shallow v k m) (Within-suc bound d near);
        }

    round-Outer :
        w.frontier ≡ (u, d) ∷ rest → Outer lo w → Outer d (round neighbors bound (u, d) rest w)
    unfolding round
    round-Outer e h = elim (Bool-cases (too_deep bound d)) [
      | inl deep ↦ rw deep (deep-Outer e h deep)
      | inr near ↦ rw near (expand-Outer e h near)
    ]

  -- A walk that ends keeps the invariant and has an empty queue.
  pub walk-Outer :
      (fuel lo : ℕ) (w w' : Walk L)
      → Outer lo w
      → walk neighbors bound fuel w ≡ some w'
      → (lo' : ℕ) × Outer lo' w' × (w'.frontier ≡ [])
  unfolding walk
  walk-Outer zero lo w w' h e = elim (List-cases w.frontier) [
    | inl empty ↦ let same : w' ≡ w = ground arith in rw same (lo, h, empty)
    | inr (x, r, p) ↦ absurd (ground arith)
  ]
  walk-Outer (suc fuel) lo w w' h e = elim (List-cases w.frontier) [
    | inl empty ↦ let same : w' ≡ w = ground arith in rw same (lo, h, empty)
    | inr ((u, d), r, p) ↦
        walk-Outer fuel d (round neighbors bound (u, d) r w) w' (round-Outer u d r lo w p h)
          (rw (p, walk) at e)
  ]

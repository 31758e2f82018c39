-- ===== src/Core/Closure/Exact.antt =====
-- The result of the walk: what is reported, at which depth, and with which label.
use native.Mathlib.Decide.{dec_le}
use mathlib.Core.Option
use asset_core.Shared.{
  ℕ, suc, ◌≤◌, ◌<◌, ◌≡◌, ◌≢◌, inl, inr, refl, true, Option, none, some, List, [], arith, In, length,
}
use asset_core.Core.Closure.{Neighbors, Walk, too_deep, walk, initial, walk_closure}
use asset_core.Core.Closure.Step.{Trail, here, step, At, Distinct, At-unique, LastEdge, Marked}
use asset_core.Core.Closure.Loop.{Within, Within-le, Outer, initial-Outer, walk-Outer}
use asset_core.Core.Closure.Ends.{walk_closure_returns}

module _ {L : Type 0} (neighbors : Neighbors L) (bound : Option ℕ) (start : ℕ) where
  -- What the docstring promises of the result: each node once, without the start, exactly those
  -- that a trail within the depth leads to, each at its least distance.
  pub record IsClosure (reached : List (ℕ × ℕ × L)) : Type 0 where
    pub once : Distinct reached
    pub not_start : (d : ℕ) → ¬ At start d reached
    pub within : (n d : ℕ) → At n d reached → Within bound d
    pub leads : (n d : ℕ) → At n d reached → Trail neighbors start n d
    pub label : (n d : ℕ) (l : L) → In (n, d, l) reached → LastEdge neighbors start n d l
    pub nearest : (n d k : ℕ) → At n d reached → Trail neighbors start n k → d ≤ k
    pub complete :
        (n k : ℕ)
        → n ≢ start
        → Trail neighbors start n k
        → Within bound k
        → (d : ℕ) × At n d reached

  deep_contradiction : (b : Option ℕ) (d k : ℕ) → d ≤ k → Within b (suc k) → too_deep b d ≡ true → ⊥
  unfolding too_deep
  deep_contradiction none d k h w deep = cc
  deep_contradiction (some b) d k h w deep = ground arith

  -- with nothing left in the queue, a trail within the depth leads to a marked node
  Marked-of_Trail :
      {lo : ℕ} (w : Walk L)
      → Outer neighbors bound start lo w
      → w.frontier ≡ []
      → {n k : ℕ} → Trail neighbors start n k
      → Within bound k
      → (d : ℕ) × Marked neighbors start n d w × (d ≤ k)
  Marked-of_Trail w h e here b = (0, inl (refl, refl), omega arith)
  Marked-of_Trail w h e (step {u} {v} {k} l t i) b =
      let (d, m, le) = Marked-of_Trail w h e t (Within-le bound k (suc k) (omega arith) b) in
      elim (h.closed u d m) [
        | inl q ↦ absurd (rw e at q)
        | inr (inl deep) ↦ absurd (deep_contradiction bound d k le b deep)
        | inr (inr done) ↦ let (c, m', le') = done v l i in (c, m', omega arith)
      ]

  Marked-At : (w : Walk L) (n d : ℕ) → n ≢ start → Marked neighbors start n d w → At n d w.reached
  Marked-At w n d ne (inl (p, q)) = absurd (ne p)
  Marked-At w n d ne (inr a) = a

  not_start_of_At :
      {lo : ℕ} (w : Walk L)
      → Outer neighbors bound start lo w
      → (n d : ℕ) → At n d w.reached
      → n ≢ start
  not_start_of_At w h n d a p = h.inv.not_start d (rw p at a)

  marked_nearest :
      {lo : ℕ} (w : Walk L)
      → Outer neighbors bound start lo w
      → w.frontier ≡ []
      → (n d k : ℕ) → At n d w.reached
      → Trail neighbors start n k
      → d ≤ k
  marked_nearest w h e n d k a t = elim (dec_le d k) [
    | yes le ↦ le
    | no gt ↦
        let (c, m, le) =
          Marked-of_Trail w h e t (Within-le bound k d (omega arith) (h.within n d (inr a))) in
        let a' = Marked-At w n c (not_start_of_At w h n d a) m in
        omega (arith, At-unique n d c w.reached h.inv.distinct a a')
  ]

  Outer-IsClosure :
      (lo : ℕ) (w : Walk L)
      → Outer neighbors bound start lo w
      → w.frontier ≡ []
      → IsClosure w.reached
  Outer-IsClosure lo w h e = record {
    once = h.inv.distinct;
    not_start = h.inv.not_start;
    within = λ n d a. h.within n d (inr a);
    leads = λ n d a. h.inv.sound n d (inr a);
    label = h.inv.labelled;
    nearest = λ n d k a t. marked_nearest w h e n d k a t;
    complete =
        λ n k ne t b. let (d, m, le) = Marked-of_Trail w h e t b in (d, Marked-At w n d ne m);
  }

  IsClosure-of_walk :
      (fuel : ℕ) (w : Option (Walk L)) {reached : List (ℕ × ℕ × L)}
      → walk neighbors bound fuel (initial start) ≡ w
      → Option.map (λ v. v.reached) w ≡ some reached
      → IsClosure reached
  IsClosure-of_walk fuel none e r = cc
  IsClosure-of_walk fuel (some w) {reached} e r =
      let (lo, outer, empty) =
        walk-Outer neighbors bound start fuel 0 (initial start) w
          (initial-Outer neighbors bound start) e in
      let same : w.reached ≡ reached = ground arith in rw same at (Outer-IsClosure lo w outer empty)

  -- Where every edge leads to one of some nodes, the walk with more fuel than nodes returns, and its
  -- result is exactly the closure: each node that a trail of at most `max_depth` edges leads to, but
  -- the start, once, at its least distance, with the label of the last edge of such a trail.
  pub walk_closure_exact :
      (nodes : List ℕ) (fuel : ℕ)
      → ((u v : ℕ) (l : L) → In (v, l) (neighbors u) → In v nodes)
      → length nodes < fuel
      → (reached : List (ℕ × ℕ × L)) × (walk_closure fuel start neighbors bound ≡ some reached)
        × IsClosure reached
  walk_closure_exact nodes fuel covers enough =
      let (reached, e) = walk_closure_returns neighbors bound nodes covers fuel start enough in
      (
        reached,
        e,
        IsClosure-of_walk fuel (walk neighbors bound fuel (initial start)) refl
            (unfold walk_closure in e),
      )

-- ===== src/App/Queries/Graph.antt =====
-- `dependents` and `dependencies` of assetcore/app/verbs.py over the in-memory repository, and the
-- edges that are stored there.
use asset_core.Shared.{
  ℕ, suc, ◌<◌, ◌≡◌, ◌≢◌, ◌↔◌, inl, inr, refl, sym, ap, ◌∙◌, Bool, true, false, ◌&&◌, Option, some,
  List, [], ◌∷◌, map, arith, In, length, length-map, select, ◌==◌, ℕ_eq, Bool-cases,
}
use asset_core.Core.Types.{RelType}
use asset_core.Core.Entities.{Uuid, Relationship}
use asset_core.Core.Closure.{Neighbors}
use asset_core.Core.Closure.Step.{Trail, here, step, At}
use asset_core.Core.Closure.Exact.{IsClosure, walk_closure_exact}
use asset_core.Infra.InMemory.{InMemoryRepo, in_memory, edges_from, edges_to}
use asset_core.App.Queries.{wants, up_neighbors, down_neighbors, dependents, dependencies}

-- the wanted edge from `v` to `u` is stored, with this label
pub data Edge (want : Option (List RelType)) (s : InMemoryRepo) (v u : Uuid) (l : RelType)
    : Type 0 where
  stored :
      (e : Relationship)
      → In e s.rels
      → e.from_asset ≡ v
      → e.to_asset ≡ u
      → e.rel_type ≡ l
      → wants want l ≡ true
      → Edge want s v u l

In-select :
    {A : Type 0} (p : A → Bool) (a : A) (xs : List A)
    → In a (select p xs) ↔ (In a xs × (p a ≡ true))
In-select p a [] = (λ i. absurd i, λ i. i.0)
In-select p a (x ∷ xs) = elim (Bool-cases (p x)) [
  | inl hit ↦ rw hit (
    λ i. elim i [
      | inl e ↦ (inl e, rw e hit)
      | inr j ↦ let (k, q) = (In-select p a xs).0 j in (inr k, q)
    ],
    λ i. elim i.0 [ inl e ↦ inl e | inr j ↦ inr ((In-select p a xs).1 (j, i.1)) ],
  )
  | inr miss ↦ rw miss (
    λ i. let (k, q) = (In-select p a xs).0 i in (inr k, q),
    λ i. elim i.0 [
      | inl e ↦ absurd (let c : true ≡ false = sym i.1 ∙ ap p e ∙ miss in cc)
      | inr j ↦ (In-select p a xs).1 (j, i.1)
    ],
  )
]

In-map :
    {A B : Type 0} (f : A → B) (b : B) (xs : List A)
    → In b (map f xs) ↔ ((a : A) × In a xs × (b ≡ f a))
In-map f b [] = (λ i. absurd i, λ i. absurd i.1)
In-map f b (x ∷ xs) = (
  λ i. elim i [
    | inl e ↦ (x, inl refl, e)
    | inr j ↦ let (a, k, q) = (In-map f b xs).0 j in (a, inr k, q)
  ],
  λ (a, i, e). elim i [ inl p ↦ inl (e ∙ ap f p) | inr j ↦ inr ((In-map f b xs).1 (a, j, e)) ],
)

module _ (want : Option (List RelType)) (s : InMemoryRepo) where
  pub Edge_of_up :
      (u v : Uuid) (l : RelType) → In (v, l) (up_neighbors in_memory want s u) → Edge want s v u l
  unfolding up_neighbors edges_to
  Edge_of_up u v l i =
      let (e, j, p) = (In-map (λ e. (e.from_asset, e.rel_type)) (v, l) _).0 i in
      let (k, w) = (In-select (λ e. wants want e.rel_type) e _).0 j in
      let (m, q) = (In-select (λ r. r.to_asset == u && true) e s.rels).0 k in
      let same : l ≡ e.rel_type = ap (λ (t : ℕ × RelType). t.1) p in
      stored e m (sym (ap (λ (t : ℕ × RelType). t.0) p)) (ground arith) (sym same) (rw same w)

  pub up_of_Edge :
      (u v : Uuid) (l : RelType) → Edge want s v u l → In (v, l) (up_neighbors in_memory want s u)
  unfolding up_neighbors edges_to
  up_of_Edge u v l (stored e m p q r w) = (In-map (λ e. (e.from_asset, e.rel_type)) (v, l) _).1 (
    e,
    (In-select (λ e. wants want e.rel_type) e _).1
        ((In-select (λ r. r.to_asset == u && true) e s.rels).1 (m, ground arith), rw r w),
    ground arith,
  )

  pub Edge_of_down :
      (u v : Uuid) (l : RelType) → In (u, l) (down_neighbors in_memory want s v) → Edge want s v u l
  unfolding down_neighbors edges_from
  Edge_of_down u v l i =
      let (e, j, p) = (In-map (λ e. (e.to_asset, e.rel_type)) (u, l) _).0 i in
      let (k, w) = (In-select (λ e. wants want e.rel_type) e _).0 j in
      let (m, q) = (In-select (λ r. r.from_asset == v && true) e s.rels).0 k in
      let same : l ≡ e.rel_type = ap (λ (t : ℕ × RelType). t.1) p in
      stored e m (ground arith) (sym (ap (λ (t : ℕ × RelType). t.0) p)) (sym same) (rw same w)

  pub down_of_Edge :
      (u v : Uuid) (l : RelType) → Edge want s v u l → In (u, l) (down_neighbors in_memory want s v)
  unfolding down_neighbors edges_from
  down_of_Edge u v l (stored e m p q r w) = (In-map (λ e. (e.to_asset, e.rel_type)) (u, l) _).1 (
    e,
    (In-select (λ e. wants want e.rel_type) e _).1
        ((In-select (λ r. r.from_asset == v && true) e s.rels).1 (m, ground arith), rw r w),
    ground arith,
  )

  Edge-from : {v u : Uuid} {l : RelType} → Edge want s v u l → In v (map (λ e. e.from_asset) s.rels)
  Edge-from {v} (stored e m p q r w) = (In-map (λ e. e.from_asset) v s.rels).1 (e, m, sym p)

  Edge-to : {v u : Uuid} {l : RelType} → Edge want s v u l → In u (map (λ e. e.to_asset) s.rels)
  Edge-to {v} {u} (stored e m p q r w) = (In-map (λ e. e.to_asset) u s.rels).1 (e, m, sym q)

  module _ (bound : Option ℕ) (fuel : ℕ) (a : Uuid) (enough : length s.rels < fuel) where
    -- `dependents` returns the closure of its neighbours
    pub dependents-IsClosure :
        (reached : List (Uuid × ℕ × RelType)) × (dependents in_memory fuel a want bound s
          ≡ some reached)
        × IsClosure (up_neighbors in_memory want s) bound a reached
    unfolding dependents
    dependents-IsClosure =
        walk_closure_exact (up_neighbors in_memory want s) bound a (map (λ e. e.from_asset) s.rels)
          fuel (λ u v l i. Edge-from (Edge_of_up u v l i))
          (rw (length-map (λ (e : Relationship). e.from_asset) s.rels) enough)

    -- `dependencies` returns the closure of its neighbours
    pub dependencies-IsClosure :
        (reached : List (Uuid × ℕ × RelType)) × (dependencies in_memory fuel a want bound s
          ≡ some reached)
        × IsClosure (down_neighbors in_memory want s) bound a reached
    unfolding dependencies
    dependencies-IsClosure =
        walk_closure_exact (down_neighbors in_memory want s) bound a (map (λ e. e.to_asset) s.rels)
          fuel (λ u v l i. Edge-to (Edge_of_down v u l i))
          (rw (length-map (λ (e : Relationship). e.to_asset) s.rels) enough)

  Trail-front :
      {nb : Neighbors RelType} {u v x k : ℕ} (l : RelType)
      → In (v, l) (nb u)
      → Trail nb v x k
      → Trail nb u x (suc k)
  Trail-front l i here = step l here i
  Trail-front l i (step m t j) = step m (Trail-front l i t) j

  Trail-down :
      {u v k : ℕ}
      → Trail (up_neighbors in_memory want s) u v k
      → Trail (down_neighbors in_memory want s) v u k
  Trail-down here = here
  Trail-down (step {u = x} {v = y} l t i) =
      Trail-front l (down_of_Edge x y l (Edge_of_up x y l i)) (Trail-down t)

  Trail-up :
      {v u k : ℕ}
      → Trail (down_neighbors in_memory want s) v u k
      → Trail (up_neighbors in_memory want s) u v k
  Trail-up here = here
  Trail-up (step {u = x} {v = y} l t i) =
      Trail-front l (up_of_Edge y x l (Edge_of_down y x l i)) (Trail-up t)

  -- what two exact closures along converse edges say of one pair of assets
  converse :
      (nb nb' : Neighbors RelType) (bound : Option ℕ) (u v : Uuid)
      (up down : List (Uuid × ℕ × RelType))
      → ((k : ℕ) → Trail nb u v k → Trail nb' v u k)
      → ((k : ℕ) → Trail nb' v u k → Trail nb u v k)
      → IsClosure nb bound u up
      → IsClosure nb' bound v down
      → (d : ℕ) → At v d up
      → At u d down
  converse nb nb' bound u v up down f g a b d at_up =
      let ne : u ≢ v = λ e. a.not_start d (rw e at_up) in
      let t = f d (a.leads v d at_up) in
      let (c, at_down) = b.complete u d ne t (a.within v d at_up) in
      let same : d ≡ c =
        omega
          (arith, b.nearest u c d at_down t, a.nearest v d c at_up (g c (b.leads u c at_down))) in
      rw same at_down

  -- With more fuel than stored edges both closures return, and `v` is among the dependents of `u`, at
  -- a distance, exactly if `u` is among the dependencies of `v` at that distance, whatever the edge
  -- filter and the depth bound.
  pub dependents-dependencies :
      (bound : Option ℕ) (fuel : ℕ) (u v : Uuid)
      → length s.rels < fuel
      → (up : List (Uuid × ℕ × RelType)) × (down : List (Uuid × ℕ × RelType)) × (dependents
            in_memory fuel u want bound s
          ≡ some up)
        × (dependencies in_memory fuel v want bound s ≡ some down)
        × ((d : ℕ) → At v d up ↔ At u d down)
  dependents-dependencies bound fuel u v enough =
      let (up, e, a) = dependents-IsClosure bound fuel u enough in
      let (down, e', b) = dependencies-IsClosure bound fuel v enough in
      (
        up,
        down,
        e,
        e',
        λ d. (
          converse _ _ bound u v up down (λ k. Trail-down) (λ k. Trail-up) a b d,
          converse _ _ bound v u down up (λ k. Trail-up) (λ k. Trail-down) b a d,
        ),
      )

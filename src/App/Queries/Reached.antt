-- ===== src/App/Queries/Reached.antt =====
-- `dependents` and `dependencies` of assetcore/app/verbs.py, in terms of the stored edges alone.
use asset_core.Shared.{ℕ, suc, ◌<◌, ◌≤◌, ◌≡◌, ◌≢◌, Option, some, List, In, length}
use asset_core.Core.Types.{RelType}
use asset_core.Core.Entities.{Uuid}
use asset_core.Core.Closure.{Neighbors}
use asset_core.Core.Closure.Step.{Trail, here, step, At, Distinct}
use asset_core.Core.Closure.Loop.{Within}
use asset_core.Core.Closure.Exact.{IsClosure}
use asset_core.Infra.InMemory.{InMemoryRepo, in_memory}
use asset_core.App.Queries.{dependents, dependencies}
use asset_core.App.Queries.Graph.{
  Edge, Edge_of_up, up_of_Edge, Edge_of_down, down_of_Edge, dependents-IsClosure,
  dependencies-IsClosure,
}

-- a chain of links from `a`, and the number of its links
pub data Route (Link : Uuid → Uuid → RelType → Type 0) (a : Uuid) : Uuid → ℕ → Type 0 where
  at_start : Route Link a a 0
  onward : {u v k : ℕ} (l : RelType) → Route Link a u k → Link u v l → Route Link a v (suc k)

-- Each asset that a route within the depth leads to, but for the start: once, at its least distance,
-- and with the label of a last link of a route of that length.
pub record IsReached (Link : Uuid → Uuid → RelType → Type 0) (bound : Option ℕ) (a : Uuid)
    (reached : List (Uuid × ℕ × RelType)) : Type 0 where
  pub once : Distinct reached
  pub not_start : (d : ℕ) → ¬ At a d reached
  pub within : (n d : ℕ) → At n d reached → Within bound d
  pub leads : (n d : ℕ) → At n d reached → Route Link a n d
  pub label :
      (n d : ℕ) (l : RelType)
      → In (n, d, l) reached
      → (u : Uuid) × (k : ℕ) × (d ≡ suc k) × Route Link a u k × Link u n l
  pub nearest : (n d k : ℕ) → At n d reached → Route Link a n k → d ≤ k
  pub complete : (n k : ℕ) → n ≢ a → Route Link a n k → Within bound k → (d : ℕ) × At n d reached

module _ (Link : Uuid → Uuid → RelType → Type 0) (nb : Neighbors RelType) (a : Uuid)
    (sound : (u v : Uuid) (l : RelType) → In (v, l) (nb u) → Link u v l)
    (whole : (u v : Uuid) (l : RelType) → Link u v l → In (v, l) (nb u)) where
  Route-of_Trail : {v k : ℕ} → Trail nb a v k → Route Link a v k
  Route-of_Trail here = at_start
  Route-of_Trail (step {u = x} {v = y} l t i) = onward l (Route-of_Trail t) (sound x y l i)

  Trail-of_Route : {v k : ℕ} → Route Link a v k → Trail nb a v k
  Trail-of_Route at_start = here
  Trail-of_Route (onward {u = x} {v = y} l t i) = step l (Trail-of_Route t) (whole x y l i)

  IsClosure-IsReached :
      (bound : Option ℕ) (reached : List (Uuid × ℕ × RelType))
      → IsClosure nb bound a reached
      → IsReached Link bound a reached
  IsClosure-IsReached bound reached c = record {
    once = c.once;
    not_start = c.not_start;
    within = c.within;
    leads = λ n d i. Route-of_Trail (c.leads n d i);
    label = λ n d l i.
        let (u, k, e, t, j) = c.label n d l i in (u, k, e, Route-of_Trail t, sound u n l j);
    nearest = λ n d k i r. c.nearest n d k i (Trail-of_Route r);
    complete = λ n k ne r w. c.complete n k ne (Trail-of_Route r) w;
  }

module _ (want : Option (List RelType)) (s : InMemoryRepo) (bound : Option ℕ) (fuel : ℕ) (a : Uuid)
    (enough : length s.rels < fuel) where
  -- With more fuel than stored edges, `dependents` returns each asset, but for the start, from which a
  -- chain of wanted stored edges within the depth bound leads to the start: once, at the least length
  -- of such a chain, and with the type of the edge that comes first in a chain of that length.
  pub dependents_exact :
      (reached : List (Uuid × ℕ × RelType)) × (dependents in_memory fuel a want bound s
        ≡ some reached)
      × IsReached (λ u v l. Edge want s v u l) bound a reached
  dependents_exact =
      let (reached, e, c) = dependents-IsClosure want s bound fuel a enough in
      (
        reached,
        e,
        IsClosure-IsReached (λ u v l. Edge want s v u l) _ a (Edge_of_up want s) (up_of_Edge want s)
            bound reached c,
      )

  -- With more fuel than stored edges, `dependencies` returns each asset, but for the start, to which a
  -- chain of wanted stored edges within the depth bound leads from the start: once, at the least length
  -- of such a chain, and with the type of the edge that comes last in a chain of that length.
  pub dependencies_exact :
      (reached : List (Uuid × ℕ × RelType)) × (dependencies in_memory fuel a want bound s
        ≡ some reached)
      × IsReached (λ u v l. Edge want s u v l) bound a reached
  dependencies_exact =
      let (reached, e, c) = dependencies-IsClosure want s bound fuel a enough in
      (
        reached,
        e,
        IsClosure-IsReached (λ u v l. Edge want s u v l) _ a
            (λ u v l i. Edge_of_down want s v u l i) (λ u v l i. down_of_Edge want s v u l i) bound
            reached c,
      )

-- ===== src/Shared/Dict.antt =====
-- Python's `dict`: keys keep the place of their first insertion, as `values()` lists them.
use asset_core.Shared.Tests.{Eq, ◌==◌, if◌then◌else◌}
use mathlib.Core.Path.{◌≡◌, refl}
use mathlib.Core.Logic.{◌≢◌}
use mathlib.Core.Option.{Option, none, some}
use mathlib.Core.List.{List, [], ◌∷◌, ◌++◌, map}
use native.Mathlib.Omega.{arith}
use asset_core.Shared.Lists.{All}

abbrev pub Dict {ℓ} : Type ℓ → Type ℓ → Type ℓ
Dict K V = List (K × V)

module _ {ℓ} {K V : Type ℓ} where
  abbrev pub values : Dict K V → List V
  values d = map (λ e. e.1) d

module _ {ℓ} {K V : Type ℓ} ⦃e : Eq K⦄ where
  -- `d.get(k)`
  unfoldable pub lookup : K → Dict K V → Option V
  lookup k [] = none
  lookup k ((j, v) ∷ d) = if j == k then some v else lookup k d

  -- `d[k] = v`
  unfoldable pub insert : K → V → Dict K V → Dict K V
  insert k v [] = (k, v) ∷ []
  insert k v ((j, w) ∷ d) = if j == k then (j, v) ∷ d else (j, w) ∷ insert k v d

  pub lookup-insert :
      (k j : K) (v : V) (d : Dict K V)
      → lookup j (insert k v d) ≡ (if k == j then some v else lookup j d)
  unfolding lookup insert
  lookup-insert k j v [] = refl
  lookup-insert k j v ((i, w) ∷ d) =
      ground (arith, e.same_iff k j, e.same_iff i k, e.same_iff i j, lookup-insert k j v d)

  pub lookup-insert_self : (k : K) (v : V) (d : Dict K V) → lookup k (insert k v d) ≡ some v
  lookup-insert_self k v d = ground (arith, lookup-insert k k v d, e.same_iff k k)

  pub lookup-insert_ne :
      (k j : K) (v : V) (d : Dict K V) → k ≢ j → lookup j (insert k v d) ≡ lookup j d
  lookup-insert_ne k j v d h = ground (arith, lookup-insert k j v d, e.same_iff k j)

  -- A value that is found satisfies what holds of every entry.
  pub All-lookup {κ} :
      (P : K × V → Type κ) (k : K) (v : V) (d : Dict K V) → All P d → lookup k d ≡ some v → P (k, v)
  unfolding lookup
  All-lookup P k v [] h f = cc
  All-lookup P k v ((j, w) ∷ d) h f = ground (arith, e.same_iff j k, All-lookup P k v d)

  pub All-insert {κ} :
      (P : K × V → Type κ) (k : K) (v : V) (d : Dict K V)
      → All P d
      → P (k, v)
      → All P (insert k v d)
  unfolding insert
  All-insert P k v [] h p = (p, tt)
  All-insert P k v ((j, w) ∷ d) h p = ground (arith, e.same_iff j k, All-insert P k v d)

  -- No key stands twice.
  abbrev pub UniqueKeys : Dict K V → Type ℓ
  UniqueKeys [] = Unit
  UniqueKeys ((j, v) ∷ d) = (lookup j d ≡ none) × UniqueKeys d

  pub UniqueKeys-insert : (k : K) (v : V) (d : Dict K V) → UniqueKeys d → UniqueKeys (insert k v d)
  unfolding insert lookup
  UniqueKeys-insert k v [] h = (refl, tt)
  UniqueKeys-insert k v ((j, w) ∷ d) h =
      ground (arith, e.same_iff j k, lookup-insert k j v d, e.same_iff k j, UniqueKeys-insert k v d)

  -- A new key comes last.
  pub values-insert_new :
      (k : K) (v : V) (d : Dict K V)
      → lookup k d ≡ none
      → values (insert k v d) ≡ values d ++ v ∷ []
  unfolding insert lookup
  values-insert_new k v [] h = refl
  values-insert_new k v ((j, w) ∷ d) h = ground (arith, values-insert_new k v d)

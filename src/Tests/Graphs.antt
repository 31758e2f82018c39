-- ===== src/Tests/Graphs.antt =====
-- The closures around the texture, one edge and then any number of edges away.
use asset_core.Shared.{
  ℕ, zero, suc, inl, inr, ap, In, ◌≡◌, ◌↔◌, refl, none, some, List, [], ◌∷◌, length, arith,
}
use asset_core.Core.Types.{RelType, RelType_beq, BindingMode_beq, RelType_eq}
use asset_core.Core.Entities.{Uuid}
use asset_core.Core.Closure.{Neighbors, walk_closure, walk, round, expand, offer, is_seen, too_deep}
use asset_core.Core.Closure.Step.{At}
use asset_core.Core.Closure.Exact.{IsClosure, walk_closure_exact}
use asset_core.Infra.InMemory.{
  in_memory, get_asset, get_edge, source_versions, create_asset, require_asset, add_source_version,
  add_version, live_versions, owned, is_edge, add_relationship, versions, record_event,
}
use asset_core.App.Queries.{dependents, dependencies}
use asset_core.App.Queries.Graph.{Edge, dependents-dependencies}
use asset_core.App.Queries.Reached.{IsReached, dependents_exact, dependencies_exact}
use asset_core.Shared.Dict.{lookup, insert}
use asset_core.Shared.Sort.{sort, insert_sorted}
use asset_core.Core.Rules.{
  Source_facet, next_version_num, demote_latest, max_version, validate_relationship,
}
use asset_core.App.World.{emit}
use asset_core.App.Verbs.{declare, bind_source, attempt_source, try_source, relate, anchor}
use asset_core.App.Calls.{run, run_all}
use asset_core.Tests.Data.{studio}

-- a cycle of two nodes
abbrev ring : Neighbors ℕ
ring zero = (1, 7) ∷ []
ring (suc _) = (0, 8) ∷ []

ring-covers : (u v l : ℕ) → In (v, l) (ring u) → In v (0 ∷ 1 ∷ [])
ring-covers zero v l (inl e) = inr (inl (ap (λ p. p.0) e))
ring-covers zero v l (inr i) = absurd i
ring-covers (suc u) v l (inl e) = inl (ap (λ p. p.0) e)
ring-covers (suc u) v l (inr i) = absurd i

walk_closure_exact_example :
    (reached : List (ℕ × ℕ × ℕ)) × (walk_closure 3 0 ring none ≡ some reached)
    × IsClosure ring none 0 reached
walk_closure_exact_example = walk_closure_exact ring none 0 (0 ∷ 1 ∷ []) 3 ring-covers (omega arith)

-- on the ring, the start is not reported
walk_ring : walk_closure 3 0 ring none ≡ some ((1, 1, 7) ∷ [])
unfolding walk_closure walk round expand offer is_seen too_deep
walk_ring = refl

four_edges : length studio.repo.rels ≡ 4
unfolding run_all run declare create_asset insert bind_source attempt_source try_source
    add_source_version relate add_relationship emit record_event get_asset lookup require_asset
    anchor get_edge is_edge validate_relationship RelType_beq BindingMode_beq source_versions
    versions live_versions owned sort insert_sorted next_version_num max_version add_version
    demote_latest
four_edges = refl

dependents_exact_example :
    (reached : List (Uuid × ℕ × RelType)) × (dependents in_memory 5 1 none none studio.repo
      ≡ some reached)
    × IsReached (λ u v l. Edge none studio.repo v u l) none 1 reached
dependents_exact_example = dependents_exact none studio.repo none 5 1 (omega (arith, four_edges))

dependencies_exact_example :
    (reached : List (Uuid × ℕ × RelType)) × (dependencies in_memory 5 3 none (some 1) studio.repo
      ≡ some reached)
    × IsReached (λ u v l. Edge none studio.repo u v l) (some 1) 3 reached
dependencies_exact_example =
    dependencies_exact none studio.repo (some 1) 5 3 (omega (arith, four_edges))

dependents-dependencies_example :
    (up : List (Uuid × ℕ × RelType)) × (down : List (Uuid × ℕ × RelType)) × (dependents in_memory 5
        1 none none studio.repo
      ≡ some up)
    × (dependencies in_memory 5 3 none none studio.repo ≡ some down)
    × ((d : ℕ) → At 3 d up ↔ At 1 d down)
dependents-dependencies_example =
    dependents-dependencies none studio.repo none 5 1 3 (omega (arith, four_edges))

-- ===== src/Tests/Versions.antt =====
-- Publishes of the texture, as its readers see them.
use asset_core.Shared.{
  suc, ◌≡◌, refl, true, false, none, some, List, [], ◌∷◌, ◌++◌, map, is_some, length, ℕ_eq,
  String_eq, arith,
}
use asset_core.Shared.Exec.{ok}
use asset_core.Shared.Dict.{lookup, insert}
use asset_core.Shared.Sort.{sort, insert_sorted}
use asset_core.Core.Types.{
  depends_on, derived_from, float, pin, RelType_beq, BindingMode_beq, RelType_eq,
}
use mathlib.Core.Option
use asset_core.Core.Entities.{num, Relationship, SourceVersion}
use asset_core.Core.Rules.{
  Source_facet, demote, latest, next_version_num, demote_latest, max_version, validate_relationship,
}
use asset_core.Infra.InMemory.{
  in_memory, in_memory_sink, InMemoryRepo, get_asset, get_edge, source_versions, create_asset,
  require_asset, add_source_version, add_version, live_versions, owned, is_edge, add_relationship,
  versions, record_event,
}
use asset_core.App.World.{emit}
use asset_core.App.Verbs.{declare, bind_source, attempt_source, try_source, relate, anchor}
use asset_core.App.Calls.{run, run_all}
use asset_core.App.Queries.{resolve, resolve_dependency, is_stale}
use asset_core.App.Queries.Published.{
  left, new, bind_source-publishes, bind_source-others, resolve_dependency_floating,
  resolve_dependency_pinned, is_stale-publish,
}
use asset_core.Tests.Data.{test_host, studio, studio-IsValid}

abbrev mesh_edge : Relationship
mesh_edge = record {
  from_asset = 2;
  to_asset = 1;
  rel_type = depends_on;
  binding_mode = some float;
  pinned_version = none;
  attributes = [];
}

abbrev shot_edge : Relationship
shot_edge = record {
  from_asset = 3;
  to_asset = 1;
  rel_type = depends_on;
  binding_mode = some pin;
  pinned_version = some 1;
  attributes = [];
}

abbrev derivation : Relationship
derivation = record {
  from_asset = 2;
  to_asset = 1;
  rel_type = derived_from;
  binding_mode = none;
  pinned_version = none;
  attributes = ("derived_at_version", num 1) ∷ [];
}

-- what the setup has stored
studio_facts :
    (is_some (get_asset 1 studio.repo) ≡ true)
    × (get_edge 2 1 depends_on studio.repo ≡ some mesh_edge)
    × (get_edge 3 1 depends_on studio.repo ≡ some shot_edge)
    × (length (source_versions 1 studio.repo) ≡ 1)
    × (derivation.attributes ≡ anchor derived_from (latest (source_versions 1 studio.repo)))
unfolding run_all run declare create_asset insert bind_source attempt_source try_source
    add_source_version relate add_relationship emit record_event get_asset lookup require_asset
    anchor get_edge is_edge validate_relationship RelType_beq BindingMode_beq source_versions
    versions live_versions owned sort insert_sorted next_version_num max_version add_version
    demote_latest
studio_facts = (refl, refl, refl, refl, refl)

abbrev old : List SourceVersion
old = source_versions 1 studio.repo

abbrev next : SourceVersion
next =
    new in_memory_sink test_host studio studio-IsValid 1 "//depot/rock2" "painter" "r2" "ana"
      studio_facts.0

abbrev then : InMemoryRepo
then =
    left in_memory_sink test_host studio studio-IsValid 1 "//depot/rock2" "painter" "r2" "ana"
      studio_facts.0

bind_source-publishes_example :
    ((bind_source in_memory in_memory_sink test_host 1 "//depot/rock2" "painter" "r2" "ana"
        studio).0
      ≡ ok (suc (length old)))
    × (source_versions 1 then ≡ map demote old ++ next ∷ [])
    × ((resolve in_memory 1 then).source_version ≡ some next)
bind_source-publishes_example =
    bind_source-publishes in_memory_sink test_host studio studio-IsValid 1 "//depot/rock2" "painter"
      "r2" "ana" studio_facts.0

bind_source-others_example : resolve in_memory 2 then ≡ resolve in_memory 2 studio.repo
bind_source-others_example =
    bind_source-others in_memory_sink test_host studio studio-IsValid 1 "//depot/rock2" "painter"
      "r2" "ana" studio_facts.0 2 (λ e. cc)

resolve_dependency_floating_example : resolve_dependency in_memory 2 1 then ≡ some next
unfolding BindingMode_beq
resolve_dependency_floating_example =
    resolve_dependency_floating in_memory_sink test_host studio studio-IsValid 1 "//depot/rock2"
      "painter" "r2" "ana" studio_facts.0 2 mesh_edge studio_facts.1 refl

resolve_dependency_pinned_example :
    resolve_dependency in_memory 3 1 then
    ≡ Option.map demote (resolve_dependency in_memory 3 1 studio.repo)
unfolding BindingMode_beq
resolve_dependency_pinned_example =
    resolve_dependency_pinned in_memory_sink test_host studio studio-IsValid 1 "//depot/rock2"
      "painter" "r2" "ana" studio_facts.0 3 shot_edge 1 studio_facts.2 refl refl
      (λ e. omega (arith, studio_facts.3))

is_stale-publish_example :
    (is_stale in_memory studio.repo derivation ≡ false)
    × (is_stale in_memory then derivation ≡ is_some (latest old))
is_stale-publish_example =
    is_stale-publish in_memory_sink test_host studio studio-IsValid 1 "//depot/rock2" "painter" "r2"
      "ana" studio_facts.0 derivation refl studio_facts.4

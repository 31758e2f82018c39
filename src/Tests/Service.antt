-- ===== src/Tests/Service.antt =====
-- A declaration that is retried, and the listing page by page.
use asset_core.Shared.{
  ◌≡◌, ◌≢◌, ◌↔◌, ◌⊎◌, refl, true, false, none, some, List, [], length, arith, String_eq, ℕ_eq,
}
use asset_core.Shared.Dict.{lookup, insert}
use asset_core.Shared.Exec.{ok, raised, declare_conflict}
use asset_core.Core.Entities.{Asset, Event}
use asset_core.Infra.InMemory.{
  InMemoryRepo, in_memory, in_memory_sink, get_asset, create_asset, list_assets, identities,
  latest_sources, latest_by_asset, latest_runtimes,
}
use asset_core.App.World.{World, emit}
use asset_core.App.Verbs as Verbs
use asset_core.App.Services as Services
use asset_core.App.Services.{DeclareResult, declare, declare_new, is_collision}
use asset_core.App.Services.Declares.{declare_again, declare_conflict_iff}
use asset_core.Sdk.Listing.{fetch_all}
use asset_core.Sdk.Listing.Whole.{fetch_all-list_assets}
use asset_core.Tests.Data.{test_host, start}

abbrev born : World InMemoryRepo (List Event)
born = (declare in_memory in_memory_sink test_host "mesh" "bob" none (some 7) start).1

born_ok :
    (declare in_memory in_memory_sink test_host "mesh" "bob" none (some 7) start).0
    ≡ ok (record { id = 7; created = true })
unfolding declare declare_new get_asset lookup Verbs.declare create_asset emit
born_ok = refl

declare_again_example :
    declare in_memory in_memory_sink test_host "mesh" "bob" (some []) (some 7) born
    ≡ (ok (record { id = 7; created = false }), born)
declare_again_example =
    declare_again in_memory_sink test_host 7 "mesh" "bob" none (some []) start
      (record { id = 7; created = true }) born_ok

declare_conflict_iff_example :
    ((declare in_memory in_memory_sink test_host "rig" "bob" none (some 7) born).0
      ≡ raised declare_conflict)
    ↔ ((existing : Asset) × (get_asset 7 born.repo ≡ some existing)
        × ((existing.asset_type ≢ "rig") ⊎ (existing.created_by ≢ "bob")))
declare_conflict_iff_example = declare_conflict_iff in_memory_sink test_host 7 "rig" "bob" none born

one_listed : length (Services.list_assets in_memory none none none none 0 born.repo) ≡ 1
unfolding Services.list_assets Services.filtered list_assets Services.in_taxonomy
    Services.is_touched_since declare declare_new get_asset lookup Verbs.declare create_asset emit
    insert identities latest_sources latest_runtimes latest_by_asset
one_listed = refl

fetch_all-list_assets_example :
    fetch_all
      (λ limit offset. Services.list_assets in_memory none none none (some limit) offset born.repo)
      1
    ≡ some (Services.list_assets in_memory none none none none 0 born.repo)
fetch_all-list_assets_example =
    fetch_all-list_assets in_memory none none none born.repo 1 (omega (arith, one_listed))

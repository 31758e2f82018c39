-- ===== src/Infra/InMemory.antt =====
-- assetcore/infra/inmemory_repo.py: the dict-backed repository and the list-backed sink.
-- `source_versions` hands out live references; a reference is the position in the list of all
-- versions, so that a write through one is a write to the store.

pub mod References
pub mod Histories
pub mod Updates
pub mod Valid
pub mod Edges
pub mod Writes
use asset_core.Shared.{
  ℕ, zero, suc, ◌+◌, String, Bool, true, false, ◌&&◌, ◌||◌, not, Option, none, some, List, [], ◌∷◌,
  ◌++◌, map, leb, ◌==◌, if◌then◌else◌, is_none, is_some, find, select, contains, ℕ_eq, String_eq,
  Eq,
}
use asset_core.Shared.Dict.{Dict, lookup, insert, values}
use asset_core.Shared.Sort.{sort, insert_sorted}
use asset_core.Shared.Exec.{
  Exec, Result, ok, raised, return, raise, ◌>>=◌, ◌>>◌, value_error, key_error, unknown_asset,
  edge_exists,
}
use asset_core.Core.Types.{Lifecycle, RelType, Lifecycle_eq, RelType_eq, Lifecycle_beq, RelType_beq}
use asset_core.Core.Entities.{
  Uuid, Asset, IdentityFacet, SourceVersion, RuntimeVersion, Relationship, Event,
}
use asset_core.Core.Rules.{
  Facet, Source_facet, Runtime_facet, modify, demote_latest, latest, demote,
}
use asset_core.Core.Ports.{AssetRepo, EventSink}

pub record InMemoryRepo : Type 0 where
  pub assets : Dict Uuid Asset
  pub known_identities : Dict Uuid IdentityFacet
  pub sources : List SourceVersion
  pub runtimes : List RuntimeVersion
  pub rels : List Relationship

abbrev pub init : InMemoryRepo
init = record { assets = []; known_identities = []; sources = []; runtimes = []; rels = [] }

-- `key=lambda v: v.version_num`
abbrev pub by_number : {V : Type 0} ⦃f : Facet V⦄ → ℕ × V → ℕ × V → Bool
by_number ⦃f⦄ a b = leb (f.version_num a.1) (f.version_num b.1)

module _ {V : Type 0} ⦃f : Facet V⦄ where
  -- the objects of an asset with their places, the first of the list standing at place `i`
  unfoldable pub owned : Uuid → ℕ → List V → List (ℕ × V)
  owned asset_id i [] = []
  owned asset_id i (v ∷ vs) =
      let rest = owned asset_id (suc i) vs in
      if f.asset_id v == asset_id then (i, v) ∷ rest else rest

  -- the live references that `source_versions` and `runtime_versions` return
  unfoldable pub live_versions : Uuid → List V → List (ℕ × V)
  unfolding owned sort insert_sorted
  live_versions asset_id vs = sort by_number (owned asset_id 0 vs)

  unfoldable pub versions : Uuid → List V → List V
  unfolding live_versions
  versions asset_id vs = map (λ r. r.1) (live_versions asset_id vs)

  -- the demotion and the append of `add_source_version` and `add_runtime_version`
  unfoldable pub add_version : V → List V → List V
  unfolding live_versions demote_latest
  add_version v vs = demote_latest (map (λ r. r.0) (live_versions (f.asset_id v) vs)) vs ++ v ∷ []

  -- the assignments to the latest version of an asset, through its reference
  unfoldable pub update_latest : Uuid → (V → V) → List V → Bool × List V
  unfolding live_versions modify
  update_latest asset_id g vs = elim (find (λ r. f.is_latest r.1) (live_versions asset_id vs)) [
    | none ↦ (false, vs)
    | some (i, v) ↦ (true, modify i g vs)
  ]

  -- `{v.asset_id: v for v in vs if v.asset_id in wanted and v.is_latest}`
  unfoldable pub latest_by_asset : List Uuid → List V → Dict Uuid V → Dict Uuid V
  latest_by_asset wanted [] d = d
  latest_by_asset wanted (v ∷ vs) d =
      latest_by_asset wanted vs
        (if contains (f.asset_id v) wanted && f.is_latest v then insert (f.asset_id v) v d else d)

unfoldable pub create_asset : Asset → IdentityFacet → Exec InMemoryRepo (Unit {0})
create_asset asset identity s = (
  ok tt,
  record s {
    assets = insert asset.id asset s.assets;
    known_identities = insert identity.asset_id identity s.known_identities;
  },
)

unfoldable pub get_asset : Uuid → InMemoryRepo → Option Asset
get_asset asset_id s = lookup asset_id s.assets

unfoldable pub get_identity : Uuid → InMemoryRepo → Option IdentityFacet
get_identity asset_id s = lookup asset_id s.known_identities

-- `wanted is None or x == wanted`
abbrev pub matches : {A : Type 0} ⦃e : Eq A⦄ → Option A → A → Bool
matches none x = true
matches (some wanted) x = x == wanted

unfoldable pub list_assets :
    Option String → Option Lifecycle → Option String → InMemoryRepo → List Asset
unfolding Lifecycle_beq
list_assets asset_type lifecycle created_by s =
    select
      (λ a.
        matches asset_type a.asset_type
        && matches lifecycle a.lifecycle
        && matches created_by a.created_by)
      (values s.assets)

unfoldable pub identities : List Uuid → InMemoryRepo → Dict Uuid IdentityFacet
identities asset_ids s = select (λ e. contains e.0 asset_ids) s.known_identities

unfoldable pub latest_sources : List Uuid → InMemoryRepo → Dict Uuid SourceVersion
unfolding latest_by_asset
latest_sources asset_ids s = latest_by_asset asset_ids s.sources []

unfoldable pub latest_runtimes : List Uuid → InMemoryRepo → Dict Uuid RuntimeVersion
unfolding latest_by_asset
latest_runtimes asset_ids s = latest_by_asset asset_ids s.runtimes []

unfoldable pub save_identity : IdentityFacet → Exec InMemoryRepo (Unit {0})
save_identity identity s =
    (ok tt, record s { known_identities = insert identity.asset_id identity s.known_identities })

-- `self.assets[asset_id]` raises KeyError where the key is missing
unfoldable pub set_lifecycle : Uuid → Lifecycle → Exec InMemoryRepo (Unit {0})
set_lifecycle asset_id lifecycle s = elim (lookup asset_id s.assets) [
  | none ↦ (raised key_error, s)
  | some a ↦
      (ok tt, record s { assets = insert asset_id (record a { lifecycle = lifecycle }) s.assets })
]

unfoldable pub require_asset : Uuid → Exec InMemoryRepo (Unit {0})
require_asset asset_id s =
    if is_some (lookup asset_id s.assets)
    then (ok tt, s)
    else (raised (value_error unknown_asset), s)

unfoldable pub add_source_version : SourceVersion → Exec InMemoryRepo (Unit {0})
unfolding require_asset
add_source_version v = do
  require_asset v.asset_id
  λ s. (ok tt, record s { sources = add_version v s.sources })

unfoldable pub source_versions : Uuid → InMemoryRepo → List SourceVersion
source_versions asset_id s = versions asset_id s.sources

-- the assignments of `update_source_location`
abbrev pub move_source : String → Option String → SourceVersion → SourceVersion
move_source new_location_uri none v = record v { location_uri = new_location_uri }
move_source new_location_uri (some r) v = record v { location_uri = new_location_uri; revision = r }

unfoldable pub update_source_location : Uuid → String → Option String → Exec InMemoryRepo Bool
update_source_location asset_id new_location_uri new_revision s =
    let (found, sources') =
      update_latest asset_id (move_source new_location_uri new_revision) s.sources in
    (ok found, record s { sources = sources' })

unfoldable pub add_runtime_version : RuntimeVersion → Exec InMemoryRepo (Unit {0})
unfolding require_asset
add_runtime_version v = do
  require_asset v.asset_id
  λ s. (ok tt, record s { runtimes = add_version v s.runtimes })

unfoldable pub runtime_versions : Uuid → InMemoryRepo → List RuntimeVersion
runtime_versions asset_id s = versions asset_id s.runtimes

abbrev pub move_runtime : String → RuntimeVersion → RuntimeVersion
move_runtime new_location_uri v = record v { location_uri = new_location_uri }

unfoldable pub update_runtime_location : Uuid → String → Exec InMemoryRepo Bool
update_runtime_location asset_id new_location_uri s =
    let (found, runtimes') = update_latest asset_id (move_runtime new_location_uri) s.runtimes in
    (ok found, record s { runtimes = runtimes' })

-- the key of UNIQUE(from, to, rel_type)
unfoldable pub is_edge : Uuid → Uuid → RelType → Relationship → Bool
unfolding RelType_beq
is_edge frm to rel_type r = r.from_asset == frm && r.to_asset == to && r.rel_type == rel_type

unfoldable pub get_edge : Uuid → Uuid → RelType → InMemoryRepo → Option Relationship
get_edge frm to rel_type s = find (is_edge frm to rel_type) s.rels

unfoldable pub add_relationship : Relationship → Exec InMemoryRepo (Unit {0})
unfolding require_asset get_edge
add_relationship r = do
  require_asset r.from_asset
  require_asset r.to_asset
  λ s.
      if is_some (get_edge r.from_asset r.to_asset r.rel_type s)
      then (raised (value_error edge_exists), s)
      else (ok tt, record s { rels = s.rels ++ r ∷ [] })

-- the loop of `upsert_relationship`
unfoldable pub replace_edge : Relationship → List Relationship → List Relationship
replace_edge r [] = r ∷ []
replace_edge r (existing ∷ rels) =
    if is_edge r.from_asset r.to_asset r.rel_type existing
    then r ∷ rels
    else existing ∷ replace_edge r rels

unfoldable pub upsert_relationship : Relationship → Exec InMemoryRepo (Unit {0})
unfolding replace_edge
upsert_relationship r s = (ok tt, record s { rels = replace_edge r s.rels })

unfoldable pub edges_from : Uuid → Option RelType → InMemoryRepo → List Relationship
unfolding RelType_beq
edges_from asset_id rel_type s =
    select (λ r. r.from_asset == asset_id && matches rel_type r.rel_type) s.rels

unfoldable pub edges_to : Uuid → Option RelType → InMemoryRepo → List Relationship
unfolding RelType_beq
edges_to asset_id rel_type s =
    select (λ r. r.to_asset == asset_id && matches rel_type r.rel_type) s.rels

abbrev pub in_memory : AssetRepo InMemoryRepo
in_memory = record {
  create_asset = create_asset;
  get_asset = get_asset;
  list_assets = list_assets;
  get_identity = get_identity;
  save_identity = save_identity;
  set_lifecycle = set_lifecycle;
  identities = identities;
  latest_sources = latest_sources;
  latest_runtimes = latest_runtimes;
  add_source_version = add_source_version;
  source_versions = source_versions;
  update_source_location = update_source_location;
  add_runtime_version = add_runtime_version;
  runtime_versions = runtime_versions;
  update_runtime_location = update_runtime_location;
  add_relationship = add_relationship;
  upsert_relationship = upsert_relationship;
  edges_from = edges_from;
  edges_to = edges_to;
  get_edge = get_edge;
}

-- `InMemorySink` is its list of events.
unfoldable pub record_event : Event → List Event → List Event
record_event event events = events ++ event ∷ []

abbrev pub in_memory_sink : EventSink (List Event)
in_memory_sink = record { emit = record_event }

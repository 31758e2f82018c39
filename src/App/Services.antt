-- ===== src/App/Services.antt =====
-- assetcore/app/services.py: `AssetcoreService`, one repository and one sink behind the verbs. Each
-- method takes them, and the host, as the verbs do. `metrics`, which rounds floats, is left out.
pub mod Declares
pub mod Pages
use asset_core.Shared.{
  ℕ, String, Bool, true, false, ◌&&◌, ◌||◌, not, Option, none, some, List, map, ◌==◌, ℕ_eq,
  String_eq, if◌then◌else◌, select, ltb,
}
use text.Mathlib.Text.{starts_with}
use asset_core.Shared.Dict.{Dict, lookup}
use asset_core.Shared.Sort.{sort, insert_sorted}
use asset_core.Shared.Exec.{Exec, return, raise, ◌>>=◌, declare_conflict}
use asset_core.Core.Types.{RelType, BindingMode}
use asset_core.Core.Entities.{
  Uuid, Time, Attributes, Asset, IdentityFacet, SourceVersion, RuntimeVersion, Relationship,
}
use asset_core.Core.Ports.{AssetRepo, EventSink, Host}
use asset_core.App.World.{World, query}
use asset_core.App.Verbs as Verbs
use asset_core.App.Verbs.{FacetName}
use asset_core.App.Queries as Queries
use asset_core.App.Queries.{Resolved, born_before, page, DeclareSpec, EdgeSpec, MoveSpec}

pub record DeclareResult : Type 0 where
  pub id : Uuid
  pub created : Bool

-- `existing.asset_type != asset_type or existing.created_by != created_by`
unfoldable pub is_collision : Asset → String → String → Bool
is_collision existing asset_type created_by =
    not (existing.asset_type == asset_type) || not (existing.created_by == created_by)

-- one entry of `list_assets`
pub record Listed : Type 0 where
  pub meta : Asset
  pub identity : Option IdentityFacet
  pub source : Option SourceVersion

-- the filter on `taxonomy_prefix`
unfoldable pub in_taxonomy : Option String → Option IdentityFacet → Bool
in_taxonomy none identity = true
in_taxonomy (some p) none = false
in_taxonomy (some p) (some identity) = elim identity.taxonomy [
  | none ↦ false
  | some taxonomy ↦ starts_with taxonomy p
]

-- `max` of the times that there are
abbrev pub later : Time → Time → Time
later a b = if ltb a b then b else a

unfoldable pub latest_touch : Asset → Option SourceVersion → Option RuntimeVersion → Time
latest_touch asset none none = asset.created_at
latest_touch asset (some s) none = later asset.created_at s.published_at
latest_touch asset none (some r) = later asset.created_at r.cooked_at
latest_touch asset (some s) (some r) = later (later asset.created_at s.published_at) r.cooked_at

-- the filter on `updated_since`
unfoldable pub is_touched_since :
    Option Time → Asset → Option SourceVersion → Option RuntimeVersion → Bool
unfolding latest_touch
is_touched_since none asset source runtime = true
is_touched_since (some threshold) asset source runtime =
    not (ltb (latest_touch asset source runtime) threshold)

module _ {S : Type 0} (repo : AssetRepo S) where
  -- the assets that pass the filters, in the order of the listing
  unfoldable pub filtered : Option String → Option String → Option Time → S → List Asset
  unfolding in_taxonomy is_touched_since sort insert_sorted born_before
  filtered created_by taxonomy_prefix updated_since s =
      let assets = repo.list_assets none none created_by s in
      let ids = map (λ a. a.id) assets in
      let identities = repo.identities ids s in
      let sources = repo.latest_sources ids s in
      let runtimes = repo.latest_runtimes ids s in
      sort born_before (
        select
          (λ asset.
            in_taxonomy taxonomy_prefix (lookup asset.id identities)
            && is_touched_since updated_since asset (lookup asset.id sources)
                (lookup asset.id runtimes))
          assets)

  unfoldable pub list_assets :
      Option String → Option String → Option Time → Option ℕ → ℕ → S → List Listed
  unfolding filtered
  list_assets created_by taxonomy_prefix updated_since limit offset s =
      let ids = map (λ a. a.id) (repo.list_assets none none created_by s) in
      let identities = repo.identities ids s in
      let sources = repo.latest_sources ids s in
      map
        (λ asset. record {
          meta = asset;
          identity = lookup asset.id identities;
          source = lookup asset.id sources;
        })
        (page limit offset (filtered created_by taxonomy_prefix updated_since s))

  abbrev pub resolve : Uuid → S → Resolved
  resolve = Queries.resolve repo

  abbrev pub resolve_dependency : Uuid → Uuid → S → Option SourceVersion
  resolve_dependency = Queries.resolve_dependency repo

  abbrev pub source_versions : Uuid → S → List SourceVersion
  source_versions = repo.source_versions

  abbrev pub runtime_versions : Uuid → S → List RuntimeVersion
  runtime_versions = repo.runtime_versions

  abbrev pub used_by : Uuid → S → List Relationship
  used_by = Queries.used_by repo

  abbrev pub lineage : Uuid → S → List Relationship
  lineage = Queries.lineage repo

  abbrev pub backfill_worklist : Option ℕ → ℕ → S → List (Asset × Option IdentityFacet)
  backfill_worklist = Queries.backfill_worklist repo

  abbrev pub floating_dependencies : Uuid → S → List Relationship
  floating_dependencies = Queries.floating_dependencies repo

  abbrev pub dependents :
      ℕ → Uuid → Option (List RelType) → Option ℕ → S → Option (List (Uuid × ℕ × RelType))
  dependents = Queries.dependents repo

  abbrev pub dependencies :
      ℕ → Uuid → Option (List RelType) → Option ℕ → S → Option (List (Uuid × ℕ × RelType))
  dependencies = Queries.dependencies repo

  abbrev pub stale_derivations : Uuid → S → List Relationship
  stale_derivations = Queries.stale_derivations repo

module _ {S E : Type 0} (repo : AssetRepo S) (sink : EventSink E) (host : Host) where
  -- the end of `declare`, for an id that is not taken
  unfoldable pub declare_new :
      String → String → Option Attributes → Option Uuid → Exec (World S E) DeclareResult
  unfolding Verbs.declare
  declare_new asset_type created_by origin asset_id = do
    declared_id ← Verbs.declare repo sink host asset_type created_by origin asset_id
    return (record { id = declared_id; created = true })

  unfoldable pub declare :
      String → String → Option Attributes → Option Uuid → Exec (World S E) DeclareResult
  unfolding is_collision declare_new
  declare asset_type created_by origin none = declare_new asset_type created_by origin none
  declare asset_type created_by origin (some asset_id) = do
    found ← query (repo.get_asset asset_id)
    elim found [
      | none ↦ declare_new asset_type created_by origin (some asset_id)
      | some existing ↦
          if is_collision existing asset_type created_by
          then raise declare_conflict
          else return (record { id = asset_id; created = false })
    ]

  abbrev pub claim :
      Uuid → String → String → String → Bool → Option Attributes → Exec (World S E) (Unit {0})
  claim = Verbs.claim repo sink host

  abbrev pub rename : Uuid → String → String → Option String → Exec (World S E) (Unit {0})
  rename = Verbs.rename repo sink host

  abbrev pub bind_source : Uuid → String → String → String → String → Exec (World S E) ℕ
  bind_source = Verbs.bind_source repo sink host

  abbrev pub bind_runtime : Uuid → String → String → String → Exec (World S E) ℕ
  bind_runtime = Verbs.bind_runtime repo sink host

  abbrev pub relate :
      Uuid → Uuid → RelType → String → Option BindingMode → Option ℕ → Exec (World S E) (Unit {0})
  relate = Verbs.relate repo sink host

  abbrev pub set_binding :
      Uuid → Uuid → BindingMode → Option ℕ → String → Exec (World S E) (Unit {0})
  set_binding = Verbs.set_binding repo sink host

  abbrev pub relocate :
      Uuid → String → String → FacetName → Option String → Exec (World S E) (Unit {0})
  relocate = Verbs.relocate repo sink host

  abbrev pub deprecate : Uuid → String → Exec (World S E) (Unit {0})
  deprecate = Verbs.deprecate repo sink host

  abbrev pub bulk_declare : List DeclareSpec → Exec (World S E) (List Uuid)
  bulk_declare = Queries.bulk_declare repo sink host

  abbrev pub bulk_relate : List EdgeSpec → Exec (World S E) ℕ
  bulk_relate = Queries.bulk_relate repo sink host

  abbrev pub bulk_relocate : List MoveSpec → Exec (World S E) ℕ
  bulk_relocate = Queries.bulk_relocate repo sink host

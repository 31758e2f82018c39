-- ===== src/App/Queries.antt =====
-- assetcore/app/verbs.py: the verbs that only read, the graph closures among them, and the bulk
-- loops over the verbs that write.
pub mod Graph
pub mod Reached
pub mod Edges
pub mod Published
use mathlib.Core.Option
use asset_core.Shared.{
  ℕ, zero, suc, ◌+◌, String, Bool, true, false, ◌&&◌, ◌||◌, not, Option, none, some, List, [], ◌∷◌,
  ◌++◌, map, ◌==◌, ℕ_eq, String_eq, if◌then◌else◌, is_none, is_some, find, select, length, take,
  drop, leb, ltb,
}
use asset_core.Shared.Dict.{Dict, lookup}
use asset_core.Shared.Sort.{sort, insert_sorted}
use asset_core.Shared.Exec.{Exec, Result, ok, raised, return, proceed, ◌>>=◌, ◌>>◌}
use asset_core.Core.Types.{
  Lifecycle, provisional, RelType, instance_of, derived_from, variant_of, composed_of, depends_on,
  BindingMode, RelType_eq, RelType_beq,
}
use asset_core.Core.Entities.{
  Uuid, Attributes, Value, null, flag, num, text, uuid, json, Asset, IdentityFacet, SourceVersion,
  RuntimeVersion, Relationship,
}
use asset_core.Core.Rules.{
  Source_facet, Runtime_facet, latest, resolve_dependency_version, derivation_is_stale,
}
use asset_core.Core.Rules as Rules
use asset_core.Core.Closure.{walk_closure}
use asset_core.Core.Ports.{AssetRepo, EventSink, Host}
use asset_core.App.World.{World}
use asset_core.App.Verbs.{declare, relate, relocate, FacetName, source, or_default}

pub record Resolved : Type 0 where
  pub id : Uuid
  pub meta : Option Asset
  pub identity : Option IdentityFacet
  pub source_version : Option SourceVersion
  pub runtime_version : Option RuntimeVersion

-- `e.rel_type in _USED_BY_TYPES` and `in _LINEAGE_TYPES`
unfoldable pub is_used_by_type : RelType → Bool
is_used_by_type instance_of = true
is_used_by_type composed_of = true
is_used_by_type derived_from = true
is_used_by_type _ = false

unfoldable pub is_lineage_type : RelType → Bool
is_lineage_type instance_of = true
is_lineage_type derived_from = true
is_lineage_type variant_of = true
is_lineage_type _ = false

-- `want is None or e.rel_type in want`
unfoldable pub wants : Option (List RelType) → RelType → Bool
unfolding RelType_beq
wants none t = true
wants (some []) t = false
wants (some (x ∷ xs)) t = x == t || wants (some xs) t

-- `e.attributes.get("derived_at_version")`, which only `relate` writes, as a number
abbrev pub as_number : Option Value → Option ℕ
as_number (some (num n)) = some n
as_number _ = none

-- `key=lambda a: (a.created_at, str(a.id))`
unfoldable pub born_before : Asset → Asset → Bool
born_before a b =
    if a.created_at == b.created_at then leb a.id b.id else ltb a.created_at b.created_at

-- `xs[offset:]` or `xs[offset:offset + limit]`
abbrev pub page : {A : Type 0} → Option ℕ → ℕ → List A → List A
page none offset xs = drop offset xs
page (some limit) offset xs = take limit (drop offset xs)

module _ {S : Type 0} (repo : AssetRepo S) where
  unfoldable pub resolve : Uuid → S → Resolved
  resolve asset_id s = record {
    id = asset_id;
    meta = repo.get_asset asset_id s;
    identity = repo.get_identity asset_id s;
    source_version = latest (repo.source_versions asset_id s);
    runtime_version = latest (repo.runtime_versions asset_id s);
  }

  unfoldable pub resolve_dependency : Uuid → Uuid → S → Option SourceVersion
  unfolding resolve_dependency_version
  resolve_dependency frm to s = elim (repo.get_edge frm to depends_on s) [
    | none ↦ none
    | some edge ↦ resolve_dependency_version edge (repo.source_versions to s)
  ]

  unfoldable pub used_by : Uuid → S → List Relationship
  unfolding is_used_by_type
  used_by asset_id s = select (λ e. is_used_by_type e.rel_type) (repo.edges_to asset_id none s)

  unfoldable pub lineage : Uuid → S → List Relationship
  unfolding is_lineage_type
  lineage asset_id s = select (λ e. is_lineage_type e.rel_type) (repo.edges_from asset_id none s)

  unfoldable pub backfill_worklist : Option ℕ → ℕ → S → List (Asset × Option IdentityFacet)
  unfolding born_before sort insert_sorted
  backfill_worklist limit offset s =
      let provisional_assets = sort born_before (repo.list_assets none (some provisional) none s) in
      let assets = page limit offset provisional_assets in
      let idents = repo.identities (map (λ a. a.id) assets) s in
      map (λ a. (a, lookup a.id idents)) assets

  unfoldable pub floating_dependencies : Uuid → S → List Relationship
  floating_dependencies asset_id s =
      Rules.floating_dependencies (repo.edges_from asset_id (some depends_on) s)

  -- the `neighbors` of `dependents` and of `dependencies`
  unfoldable pub up_neighbors : Option (List RelType) → S → Uuid → List (Uuid × RelType)
  up_neighbors want s node =
      map (λ e. (e.from_asset, e.rel_type))
        (select (λ e. wants want e.rel_type) (repo.edges_to node none s))

  unfoldable pub down_neighbors : Option (List RelType) → S → Uuid → List (Uuid × RelType)
  down_neighbors want s node =
      map (λ e. (e.to_asset, e.rel_type))
        (select (λ e. wants want e.rel_type) (repo.edges_from node none s))

  unfoldable pub dependents :
      ℕ → Uuid → Option (List RelType) → Option ℕ → S → Option (List (Uuid × ℕ × RelType))
  dependents fuel asset_id rel_types max_depth s =
      walk_closure fuel asset_id (up_neighbors rel_types s) max_depth

  unfoldable pub dependencies :
      ℕ → Uuid → Option (List RelType) → Option ℕ → S → Option (List (Uuid × ℕ × RelType))
  dependencies fuel asset_id rel_types max_depth s =
      walk_closure fuel asset_id (down_neighbors rel_types s) max_depth

  -- the loop of `stale_derivations`
  unfoldable pub is_stale : S → Relationship → Bool
  unfolding derivation_is_stale
  is_stale s e =
      derivation_is_stale (as_number (lookup "derived_at_version" e.attributes))
        (Option.map (λ v. v.version_num) (latest (repo.source_versions e.to_asset s)))

  unfoldable pub stale_derivations : Uuid → S → List Relationship
  unfolding is_stale
  stale_derivations asset_id s =
      select (is_stale s) (repo.edges_from asset_id (some derived_from) s)

pub record DeclareSpec : Type 0 where
  pub asset_type : String
  pub created_by : String
  pub origin : Option Attributes

pub record EdgeSpec : Type 0 where
  pub frm : Uuid
  pub to : Uuid
  pub rel_type : RelType
  pub actor : String
  pub binding_mode : Option BindingMode
  pub pinned_version : Option ℕ

pub record MoveSpec : Type 0 where
  pub asset_id : Uuid
  pub new_location_uri : String
  pub actor : String
  pub facet : Option FacetName
  pub new_revision : Option String

module _ {S E : Type 0} (repo : AssetRepo S) (sink : EventSink E) (host : Host) where
  unfoldable pub bulk_declare : List DeclareSpec → Exec (World S E) (List Uuid)
  bulk_declare [] = return []
  bulk_declare (spec ∷ specs) = do
    id ← declare repo sink host spec.asset_type spec.created_by spec.origin none
    ids ← bulk_declare specs
    return (id ∷ ids)

  -- the loops of `bulk_relate` and `bulk_relocate`: an exception leaves the rest undone
  unfoldable pub relate_each : List EdgeSpec → Exec (World S E) (Unit {0})
  relate_each [] = return tt
  relate_each (e ∷ edges) = do
    relate repo sink host e.frm e.to e.rel_type e.actor e.binding_mode e.pinned_version
    relate_each edges

  unfoldable pub bulk_relate : List EdgeSpec → Exec (World S E) ℕ
  unfolding relate_each
  bulk_relate edges = do relate_each edges; return (length edges)

  unfoldable pub relocate_each : List MoveSpec → Exec (World S E) (Unit {0})
  relocate_each [] = return tt
  relocate_each (m ∷ moves) = do
    relocate repo sink host m.asset_id m.new_location_uri m.actor (or_default m.facet source)
        m.new_revision
    relocate_each moves

  unfoldable pub bulk_relocate : List MoveSpec → Exec (World S E) ℕ
  unfolding relocate_each
  bulk_relocate moves = do relocate_each moves; return (length moves)

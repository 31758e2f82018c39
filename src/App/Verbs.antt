-- ===== src/App/Verbs.antt =====
-- assetcore/app/verbs.py: the verbs that change an asset or an edge. Each takes the ports and is a
-- computation on the world. `Queries` has the verbs that only read.
pub mod Valid
pub mod Retries
use asset_core.Shared.{
  ℕ, zero, suc, ◌+◌, String, Bool, true, false, ◌&&◌, ◌||◌, not, Option, none, some, List, [], ◌∷◌,
  ◌++◌, map, ◌==◌, ℕ_eq, String_eq, if◌then◌else◌, is_none, is_some, find, length,
}
use asset_core.Shared.Exec.{
  Exec, Result, ok, raised, Error, value_error, version_conflict, key_error, return, raise, lift,
  proceed, ◌>>=◌, ◌>>◌, unknown_asset, deprecated_asset, duplicate_edge, missing_edge,
  unknown_facet, no_facet,
}
use asset_core.Core.Types.{
  Lifecycle, provisional, active, deprecated, RelType, derived_from, depends_on, BindingMode,
  Lifecycle_eq, Lifecycle_beq, RelType_eq, RelType_beq, instance_of, variant_of, composed_of, float,
  pin,
}
use asset_core.Core.Types.Values.{rel_type_value, binding_mode_value}
use asset_core.Core.Entities.{
  Uuid, Attributes, Value, null, flag, num, text, uuid, Asset, IdentityFacet, SourceVersion,
  RuntimeVersion, Relationship,
}
use asset_core.Core.Rules.{
  Source_facet, Runtime_facet, next_version_num, latest, validate_relationship,
}
use asset_core.Core.Ports.{AssetRepo, EventSink, Host}
use asset_core.App.World.{World, perform, query, settle_conflict, fresh, emit}

-- `_VERSION_WRITE_ATTEMPTS`, less the first attempt
abbrev pub version_write_retries : ℕ
version_write_retries = 4

-- the wire strings of the enums
abbrev pub mode_value : Option BindingMode → Value
mode_value none = null
mode_value (some m) = text (binding_mode_value m)

abbrev pub number_value : Option ℕ → Value
number_value none = null
number_value (some n) = num n

-- `x or {}`
abbrev pub or_empty : Option Attributes → Attributes
or_empty none = []
or_empty (some d) = d

abbrev pub or_default : {A : Type 0} → Option A → A → A
or_default none a = a
or_default (some b) a = b

abbrev pub blank_identity : Uuid → IdentityFacet
blank_identity asset_id = record {
  asset_id = asset_id;
  display_name = none;
  taxonomy = none;
  status = none;
  tags = [];
  attributes = [];
}

-- the attributes of a new edge: the parent's current version, on a derivation
unfoldable pub anchor : RelType → Option SourceVersion → Attributes
unfolding RelType_beq
anchor rel_type parent_latest =
    if rel_type == derived_from
    then (elim parent_latest [
      | none ↦ []
      | some v ↦ ("derived_at_version", num v.version_num) ∷ []
    ])
    else []

pub data FacetName : Type 0 where
  source runtime other : FacetName

-- `asset is not None and asset.lifecycle == Lifecycle.DEPRECATED`
unfoldable pub was_deprecated : Option Asset → Bool
unfolding Lifecycle_beq
was_deprecated none = false
was_deprecated (some a) = a.lifecycle == deprecated

module _ {S E : Type 0} (repo : AssetRepo S) (sink : EventSink E) (host : Host) where
  unfoldable pub declare : String → String → Option Attributes → Option Uuid → Exec (World S E) Uuid
  unfolding emit
  declare asset_type created_by origin asset_id = do
    k ← fresh
    let id = or_default asset_id (host.uuid4 k)
    let asset : Asset = record {
      asset_type = asset_type;
      created_by = created_by;
      id = id;
      lifecycle = provisional;
      origin = or_empty origin;
      created_at = host.now k;
    }
    perform (repo.create_asset asset (blank_identity id))
    emit sink host id "declared" (("asset_type", text asset_type) ∷ []) created_by
    return id

  unfoldable pub claim :
      Uuid → String → String → String → Bool → Option Attributes → Exec (World S E) (Unit {0})
  unfolding emit was_deprecated
  claim asset_id display_name taxonomy actor reactivate attributes = do
    found ← query (repo.get_identity asset_id)
    asset ← query (repo.get_asset asset_id)
    elim found [
      | none ↦ raise (value_error unknown_asset)
      | some identity ↦
          if was_deprecated asset && not reactivate
          then raise (value_error deprecated_asset)
          else do
            perform (
                repo.save_identity (record identity {
                  display_name = some display_name;
                  taxonomy = some taxonomy;
                  attributes = or_empty attributes;
                }))
            perform (repo.set_lifecycle asset_id active)
            emit sink host asset_id "identity.claimed"
                (("name", text display_name) ∷ ("reactivated", flag (was_deprecated asset)) ∷ [])
                actor
    ]

  unfoldable pub rename : Uuid → String → String → Option String → Exec (World S E) (Unit {0})
  unfolding emit
  rename asset_id new_name actor new_taxonomy = do
    found ← query (repo.get_identity asset_id)
    elim found [
      | none ↦ raise (value_error unknown_asset)
      | some identity ↦ do
        perform (
            repo.save_identity (record identity {
              display_name = some new_name;
              taxonomy = elim new_taxonomy [ none ↦ identity.taxonomy | some t ↦ some t ];
            }))
        emit sink host asset_id "identity.renamed" (("name", text new_name) ∷ []) actor
    ]

  -- one round of the loop of `bind_source`: read the number, write, and on a conflict go on
  unfoldable pub try_source :
      Uuid → String → String → String → String → Exec (World S E) ℕ → Exec (World S E) ℕ
  try_source asset_id location_uri tool revision published_by on_conflict = do
    existing ← query (repo.source_versions asset_id)
    k ← fresh
    let v = next_version_num existing
    λ w.
        settle_conflict
          (perform
            (repo.add_source_version (record {
              asset_id = asset_id;
              location_uri = location_uri;
              tool = tool;
              revision = revision;
              version_num = v;
              is_latest = true;
              published_by = some published_by;
              published_at = host.now k;
            }))
            w)
          on_conflict (λ _. return v)

  -- `left` is the number of attempts that are left after this one
  unfoldable pub attempt_source : Uuid → String → String → String → String → ℕ → Exec (World S E) ℕ
  unfolding try_source
  attempt_source asset_id location_uri tool revision published_by zero =
      try_source asset_id location_uri tool revision published_by (raise version_conflict)
  attempt_source asset_id location_uri tool revision published_by (suc left) =
      try_source asset_id location_uri tool revision published_by
        (attempt_source asset_id location_uri tool revision published_by left)

  unfoldable pub bind_source : Uuid → String → String → String → String → Exec (World S E) ℕ
  unfolding attempt_source emit
  bind_source asset_id location_uri tool revision published_by = do
    v ← attempt_source asset_id location_uri tool revision published_by version_write_retries
    emit sink host asset_id "source.published"
        (("location_uri", text location_uri) ∷ ("version", num v) ∷ ("tool", text tool) ∷ [])
        published_by
    return v

  unfoldable pub try_runtime : Uuid → String → String → Exec (World S E) ℕ → Exec (World S E) ℕ
  try_runtime asset_id location_uri build_id on_conflict = do
    existing ← query (repo.runtime_versions asset_id)
    k ← fresh
    let v = next_version_num existing
    λ w.
        settle_conflict
          (perform
            (repo.add_runtime_version (record {
              asset_id = asset_id;
              location_uri = location_uri;
              build_id = build_id;
              version_num = v;
              is_latest = true;
              cooked_at = host.now k;
            }))
            w)
          on_conflict (λ _. return v)

  unfoldable pub attempt_runtime : Uuid → String → String → ℕ → Exec (World S E) ℕ
  unfolding try_runtime
  attempt_runtime asset_id location_uri build_id zero =
      try_runtime asset_id location_uri build_id (raise version_conflict)
  attempt_runtime asset_id location_uri build_id (suc left) =
      try_runtime asset_id location_uri build_id
        (attempt_runtime asset_id location_uri build_id left)

  unfoldable pub bind_runtime : Uuid → String → String → String → Exec (World S E) ℕ
  unfolding attempt_runtime emit
  bind_runtime asset_id location_uri build_id actor = do
    v ← attempt_runtime asset_id location_uri build_id version_write_retries
    emit sink host asset_id "runtime.cooked"
        (("location_uri", text location_uri) ∷ ("version", num v) ∷ []) actor
    return v

  unfoldable pub relate :
      Uuid → Uuid → RelType → String → Option BindingMode → Option ℕ → Exec (World S E) (Unit {0})
  unfolding emit anchor validate_relationship
  relate frm to rel_type actor binding_mode pinned_version = do
    known ← query (repo.get_edge frm to rel_type)
    if is_some known then raise (value_error duplicate_edge) else do
      parents ← query (repo.source_versions to)
      let r : Relationship = record {
        from_asset = frm;
        to_asset = to;
        rel_type = rel_type;
        binding_mode = binding_mode;
        pinned_version = pinned_version;
        attributes = anchor rel_type (latest parents);
      }
      lift (validate_relationship r)
      perform (repo.add_relationship r)
      emit sink host frm "relationship.added"
          (("to", uuid to)
            ∷ ("rel_type", text (rel_type_value rel_type))
            ∷ ("binding_mode", mode_value binding_mode)
            ∷ [])
          actor

  unfoldable pub set_binding :
      Uuid → Uuid → BindingMode → Option ℕ → String → Exec (World S E) (Unit {0})
  unfolding emit validate_relationship
  set_binding frm to binding_mode pinned_version actor = do
    found ← query (repo.get_edge frm to depends_on)
    elim found [
      | none ↦ raise (value_error missing_edge)
      | some edge ↦ do
        let r : Relationship = record {
          from_asset = frm;
          to_asset = to;
          rel_type = depends_on;
          binding_mode = some binding_mode;
          pinned_version = pinned_version;
          attributes = edge.attributes;
        }
        lift (validate_relationship r)
        perform (repo.upsert_relationship r)
        emit sink host frm "binding.changed"
            (("to", uuid to)
              ∷ ("binding_mode", text (binding_mode_value binding_mode))
              ∷ ("pinned_version", number_value pinned_version)
              ∷ [])
            actor
    ]

  -- the end of `relocate`
  abbrev relocated : Bool → Uuid → String → String → String → String → Exec (World S E) (Unit {0})
  relocated ok_flag asset_id event facet_name new_location_uri actor =
      if ok_flag
      then emit sink host asset_id event
          (("location_uri", text new_location_uri) ∷ ("facet", text facet_name) ∷ []) actor
      else raise (value_error no_facet)

  unfoldable pub relocate :
      Uuid → String → String → FacetName → Option String → Exec (World S E) (Unit {0})
  unfolding emit
  relocate asset_id new_location_uri actor source new_revision = do
    ok_flag ← perform (repo.update_source_location asset_id new_location_uri new_revision)
    relocated ok_flag asset_id "source.relocated" "source" new_location_uri actor
  relocate asset_id new_location_uri actor runtime new_revision = do
    ok_flag ← perform (repo.update_runtime_location asset_id new_location_uri)
    relocated ok_flag asset_id "runtime.relocated" "runtime" new_location_uri actor
  relocate asset_id new_location_uri actor other new_revision = raise (value_error unknown_facet)

  unfoldable pub deprecate : Uuid → String → Exec (World S E) (Unit {0})
  unfolding emit
  deprecate asset_id actor = do
    asset ← query (repo.get_asset asset_id)
    if is_none asset then raise (value_error unknown_asset) else do
      perform (repo.set_lifecycle asset_id deprecated)
      emit sink host asset_id "identity.deprecated" [] actor

-- ===== src/Infra/Sqlite/Rows.antt =====
-- assetcore/infra/sqlite_repo.py: the rows of the tables, and the conversions at the boundary. A
-- column of JSON, of a UUID or of a time holds the value that its text stands for; an enum column
-- holds the member's value, and a column for a bool 0 or 1. The serial ids, which the repository
-- never reads, are left out.
use mathlib.Core.Option
use asset_core.Shared.{
  ℕ, String, Bool, true, false, Option, none, some, ◌==◌, ℕ_eq, not, refl, if◌then◌else◌, ◌≡◌,
}
use asset_core.Core.Types.{RelType, BindingMode}
use asset_core.Core.Types.Values.{
  lifecycle_value, lifecycle_of, rel_type_value, rel_type_of, binding_mode_value, binding_mode_of,
  lifecycle_of-lifecycle_value, rel_type_of-rel_type_value, binding_mode_of-binding_mode_value,
}
use asset_core.Core.Entities.{
  Uuid, Time, Attributes, Asset, SourceVersion, RuntimeVersion, Relationship,
}
use asset_core.Core.Rules.{Facet}

-- `Attributes` and the list of tags are the values of JSON texts.
pub record AssetRow : Type 0 where
  pub id : Uuid
  pub lifecycle : String
  pub asset_type : String
  pub created_at : Time
  pub created_by : String
  pub origin : Attributes

pub record SourceRow : Type 0 where
  pub asset_id : Uuid
  pub location_uri : String
  pub tool : String
  pub revision : String
  pub version_num : ℕ
  pub is_latest : ℕ
  pub published_at : Time
  pub published_by : Option String

pub record RuntimeRow : Type 0 where
  pub asset_id : Uuid
  pub location_uri : String
  pub build_id : String
  pub version_num : ℕ
  pub is_latest : ℕ
  pub cooked_at : Time

pub record RelationshipRow : Type 0 where
  pub from_asset : Uuid
  pub to_asset : Uuid
  pub rel_type : String
  pub binding_mode : Option String
  pub pinned_version : Option ℕ
  pub attributes : Attributes

-- `1 if b else 0`, and `bool(n)`
abbrev pub bit : Bool → ℕ
bit b = if b then 1 else 0

abbrev pub truthy : ℕ → Bool
truthy n = not (n == 0)

-- the parameters of the INSERT of `create_asset`
unfoldable pub asset_row : Asset → AssetRow
unfolding lifecycle_value
asset_row a = record {
  id = a.id;
  lifecycle = lifecycle_value a.lifecycle;
  asset_type = a.asset_type;
  created_at = a.created_at;
  created_by = a.created_by;
  origin = a.origin;
}

-- `_row_to_asset`; `none` is the ValueError of an enum
unfoldable pub row_to_asset : AssetRow → Option Asset
unfolding lifecycle_of
row_to_asset r =
    Option.map
      (λ l. record {
        asset_type = r.asset_type;
        created_by = r.created_by;
        id = r.id;
        lifecycle = l;
        origin = r.origin;
        created_at = r.created_at;
      })
      (lifecycle_of r.lifecycle)

-- the parameters of the INSERT of `add_source_version`
unfoldable pub source_row : SourceVersion → SourceRow
source_row v = record {
  asset_id = v.asset_id;
  location_uri = v.location_uri;
  tool = v.tool;
  revision = v.revision;
  version_num = v.version_num;
  is_latest = bit v.is_latest;
  published_at = v.published_at;
  published_by = v.published_by;
}

unfoldable pub row_to_source : SourceRow → SourceVersion
row_to_source r = record {
  asset_id = r.asset_id;
  location_uri = r.location_uri;
  tool = r.tool;
  revision = r.revision;
  version_num = r.version_num;
  is_latest = truthy r.is_latest;
  published_by = r.published_by;
  published_at = r.published_at;
}

unfoldable pub runtime_row : RuntimeVersion → RuntimeRow
runtime_row v = record {
  asset_id = v.asset_id;
  location_uri = v.location_uri;
  build_id = v.build_id;
  version_num = v.version_num;
  is_latest = bit v.is_latest;
  cooked_at = v.cooked_at;
}

unfoldable pub row_to_runtime : RuntimeRow → RuntimeVersion
row_to_runtime r = record {
  asset_id = r.asset_id;
  location_uri = r.location_uri;
  build_id = r.build_id;
  version_num = r.version_num;
  is_latest = truthy r.is_latest;
  cooked_at = r.cooked_at;
}

-- `_rel_params`
unfoldable pub rel_params : Relationship → RelationshipRow
unfolding rel_type_value binding_mode_value
rel_params r = record {
  from_asset = r.from_asset;
  to_asset = r.to_asset;
  rel_type = rel_type_value r.rel_type;
  binding_mode = Option.map binding_mode_value r.binding_mode;
  pinned_version = r.pinned_version;
  attributes = r.attributes;
}

-- `BindingMode(m) if m is not None else None`
unfoldable pub mode_of : Option String → Option (Option BindingMode)
unfolding binding_mode_of
mode_of none = some none
mode_of (some m) = Option.map some (binding_mode_of m)

abbrev with_mode : RelationshipRow → RelType → Option BindingMode → Relationship
with_mode r t m = record {
  from_asset = r.from_asset;
  to_asset = r.to_asset;
  rel_type = t;
  binding_mode = m;
  pinned_version = r.pinned_version;
  attributes = r.attributes;
}

-- `_row_to_rel`
unfoldable pub row_to_rel : RelationshipRow → Option Relationship
unfolding rel_type_of mode_of
row_to_rel r = elim (rel_type_of r.rel_type) [
  | none ↦ none
  | some t ↦ Option.map (with_mode r t) (mode_of r.binding_mode)
]

pub row_to_asset-asset_row : (a : Asset) → row_to_asset (asset_row a) ≡ some a
unfolding row_to_asset asset_row
row_to_asset-asset_row a = rw (lifecycle_of-lifecycle_value a.lifecycle) refl

truthy-bit : (b : Bool) → truthy (bit b) ≡ b
truthy-bit true = refl
truthy-bit false = refl

pub row_to_source-source_row : (v : SourceVersion) → row_to_source (source_row v) ≡ v
unfolding row_to_source source_row
row_to_source-source_row v = rw (truthy-bit v.is_latest) refl

pub row_to_runtime-runtime_row : (v : RuntimeVersion) → row_to_runtime (runtime_row v) ≡ v
unfolding row_to_runtime runtime_row
row_to_runtime-runtime_row v = rw (truthy-bit v.is_latest) refl

mode_of-value : (m : Option BindingMode) → mode_of (Option.map binding_mode_value m) ≡ some m
unfolding mode_of
mode_of-value none = refl
mode_of-value (some m) = rw (binding_mode_of-binding_mode_value m) refl

pub row_to_rel-rel_params : (r : Relationship) → row_to_rel (rel_params r) ≡ some r
unfolding row_to_rel rel_params
row_to_rel-rel_params r =
    rw (rel_type_of-rel_type_value r.rel_type, row_to_rel, mode_of-value r.binding_mode) refl

pub bit-latest : (b : Bool) → (bit b == 1) ≡ b
bit-latest true = refl
bit-latest false = refl

-- `WHERE asset_id=? AND is_latest=1` and `SET is_latest=` of the two version tables
instance abbrev pub SourceRow_facet : Facet SourceRow
SourceRow_facet = record {
  asset_id = λ r. r.asset_id;
  version_num = λ r. r.version_num;
  is_latest = λ r. r.is_latest == 1;
  set_latest = λ b r. record r { is_latest = bit b };
  asset_id-set_latest = λ b r. refl;
  version_num-set_latest = λ b r. refl;
  is_latest-set_latest = λ b r. bit-latest b;
}

instance abbrev pub RuntimeRow_facet : Facet RuntimeRow
RuntimeRow_facet = record {
  asset_id = λ r. r.asset_id;
  version_num = λ r. r.version_num;
  is_latest = λ r. r.is_latest == 1;
  set_latest = λ b r. record r { is_latest = bit b };
  asset_id-set_latest = λ b r. refl;
  version_num-set_latest = λ b r. refl;
  is_latest-set_latest = λ b r. bit-latest b;
}

-- ===== src/Core/Entities.antt =====
-- assetcore/core/entities.py: plain data. A UUID is its 128-bit integer, whose order is that of the
-- UUID's text; a time is a number of microseconds.
use asset_core.Shared.{ℕ, String, Bool, Option, List}
use asset_core.Shared.Dict.{Dict}
use asset_core.Core.Types.{Lifecycle, RelType, BindingMode}

abbrev pub Uuid : Type 0
Uuid = ℕ

abbrev pub Time : Type 0
Time = ℕ

-- A JSON value: those that the package writes itself, `str` of a UUID among them, and any other
-- by its text, `json`.
pub data Value : Type 0 where
  null : Value
  flag : Bool → Value
  num : ℕ → Value
  text : String → Value
  uuid : Uuid → Value
  json : String → Value

abbrev pub Attributes : Type 0
Attributes = Dict String Value

pub record Asset : Type 0 where
  pub asset_type : String
  pub created_by : String
  pub id : Uuid
  pub lifecycle : Lifecycle
  pub origin : Attributes
  pub created_at : Time

pub record IdentityFacet : Type 0 where
  pub asset_id : Uuid
  pub display_name : Option String
  pub taxonomy : Option String
  pub status : Option String
  pub tags : List String
  pub attributes : Attributes

pub record SourceVersion : Type 0 where
  pub asset_id : Uuid
  pub location_uri : String
  pub tool : String
  pub revision : String
  pub version_num : ℕ
  pub is_latest : Bool
  pub published_by : Option String
  pub published_at : Time

pub record RuntimeVersion : Type 0 where
  pub asset_id : Uuid
  pub location_uri : String
  pub build_id : String
  pub version_num : ℕ
  pub is_latest : Bool
  pub cooked_at : Time

pub record Relationship : Type 0 where
  pub from_asset : Uuid
  pub to_asset : Uuid
  pub rel_type : RelType
  pub binding_mode : Option BindingMode
  pub pinned_version : Option ℕ
  pub attributes : Attributes

pub record Event : Type 0 where
  pub asset_id : Option Uuid
  pub event_type : String
  pub payload : Attributes
  pub actor : Option String
  pub occurred_at : Time
  pub id : Uuid

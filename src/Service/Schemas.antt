-- ===== src/Service/Schemas.antt =====
-- assetcore/service/schemas.py: the wire models, and how an entity is projected to one. What pydantic
-- refuses (422) never reaches a handler, so that a request here is a valid one.
use asset_core.Shared.{ℕ, String, Bool, Option, List}
use asset_core.Core.Types.{Lifecycle, RelType, BindingMode}
use asset_core.Core.Entities.{
  Uuid, Time, Attributes, Asset, IdentityFacet, SourceVersion, RuntimeVersion, Relationship,
}
use asset_core.App.Verbs.{FacetName}

pub record DeclareRequest : Type 0 where
  pub id : Option Uuid
  pub asset_type : String
  pub created_by : String
  pub origin : Attributes

pub record ClaimRequest : Type 0 where
  pub display_name : String
  pub taxonomy : String
  pub actor : Option String
  pub attributes : Attributes
  pub reactivate : Bool

pub record RenameRequest : Type 0 where
  pub new_name : String
  pub actor : Option String
  pub new_taxonomy : Option String

pub record BindSourceRequest : Type 0 where
  pub location_uri : String
  pub tool : String
  pub revision : String
  pub published_by : Option String

pub record BindRuntimeRequest : Type 0 where
  pub location_uri : String
  pub build_id : String
  pub actor : Option String

pub record RelateRequest : Type 0 where
  pub from_asset : Uuid
  pub to_asset : Uuid
  pub rel_type : RelType
  pub actor : Option String
  pub binding_mode : Option BindingMode
  pub pinned_version : Option ℕ

pub record SetBindingRequest : Type 0 where
  pub from_asset : Uuid
  pub to_asset : Uuid
  pub binding_mode : BindingMode
  pub pinned_version : Option ℕ
  pub actor : Option String

pub record RelocateRequest : Type 0 where
  pub new_location_uri : String
  pub actor : Option String
  pub facet : FacetName
  pub new_revision : Option String

pub record DeprecateRequest : Type 0 where
  pub actor : Option String

pub record BulkDeclareRequest : Type 0 where
  pub specs : List DeclareRequest

pub record BulkRelateRequest : Type 0 where
  pub edges : List RelateRequest

pub record BulkRelocateItem : Type 0 where
  pub asset_id : Uuid
  pub new_location_uri : String
  pub actor : Option String
  pub facet : FacetName
  pub new_revision : Option String

pub record BulkRelocateRequest : Type 0 where
  pub moves : List BulkRelocateItem

pub record AssetMetaOut : Type 0 where
  pub id : Uuid
  pub asset_type : String
  pub lifecycle : Lifecycle
  pub created_by : String

pub record IdentityOut : Type 0 where
  pub display_name : Option String
  pub taxonomy : Option String
  pub status : Option String
  pub tags : List String
  pub attributes : Attributes

pub record SourceOut : Type 0 where
  pub location_uri : String
  pub tool : String
  pub revision : String
  pub version_num : ℕ
  pub is_latest : Bool

pub record RuntimeOut : Type 0 where
  pub location_uri : String
  pub build_id : String
  pub version_num : ℕ
  pub is_latest : Bool

pub record ResolveResponse : Type 0 where
  pub id : Uuid
  pub meta : Option AssetMetaOut
  pub identity : Option IdentityOut
  pub source : Option SourceOut
  pub runtime : Option RuntimeOut

pub record AssetSummaryOut : Type 0 where
  pub id : Uuid
  pub asset_type : String
  pub created_by : String
  pub created_at : Time
  pub meta : Option AssetMetaOut
  pub identity : Option IdentityOut
  pub source : Option SourceOut

pub record RelationshipOut : Type 0 where
  pub from_asset : Uuid
  pub to_asset : Uuid
  pub rel_type : RelType
  pub binding_mode : Option BindingMode
  pub pinned_version : Option ℕ

pub record WorklistItem : Type 0 where
  pub id : Uuid
  pub asset_type : String
  pub created_by : String
  pub created_at : Time
  pub origin : Attributes
  pub display_name : Option String

pub record GraphNodeOut : Type 0 where
  pub asset_id : Uuid
  pub depth : ℕ
  pub rel_type : RelType

-- `model_validate` with `from_attributes`: the fields that the model has
abbrev pub meta_out : Asset → AssetMetaOut
meta_out a = record {
  id = a.id;
  asset_type = a.asset_type;
  lifecycle = a.lifecycle;
  created_by = a.created_by;
}

abbrev pub identity_out : IdentityFacet → IdentityOut
identity_out i = record {
  display_name = i.display_name;
  taxonomy = i.taxonomy;
  status = i.status;
  tags = i.tags;
  attributes = i.attributes;
}

abbrev pub source_out : SourceVersion → SourceOut
source_out v = record {
  location_uri = v.location_uri;
  tool = v.tool;
  revision = v.revision;
  version_num = v.version_num;
  is_latest = v.is_latest;
}

abbrev pub runtime_out : RuntimeVersion → RuntimeOut
runtime_out v = record {
  location_uri = v.location_uri;
  build_id = v.build_id;
  version_num = v.version_num;
  is_latest = v.is_latest;
}

abbrev pub relationship_out : Relationship → RelationshipOut
relationship_out r = record {
  from_asset = r.from_asset;
  to_asset = r.to_asset;
  rel_type = r.rel_type;
  binding_mode = r.binding_mode;
  pinned_version = r.pinned_version;
}

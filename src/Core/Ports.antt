-- ===== src/Core/Ports.antt =====
-- assetcore/core/ports.py: what the verbs ask of a backend. `S` is the backend's state; a write may
-- raise, and a read answers from the state. `search_candidates` is left out.
use asset_core.Shared.{ℕ, String, Bool, Option, List}
use asset_core.Shared.Exec.{Exec}
use asset_core.Shared.Dict.{Dict}
use asset_core.Core.Types.{Lifecycle, RelType}
use asset_core.Core.Entities.{
  Uuid, Time, Asset, IdentityFacet, SourceVersion, RuntimeVersion, Relationship, Event,
}

pub record AssetRepo (S : Type 0) : Type 0 where
  pub create_asset : Asset → IdentityFacet → Exec S (Unit {0})
  pub get_asset : Uuid → S → Option Asset
  pub list_assets : Option String → Option Lifecycle → Option String → S → List Asset
  pub get_identity : Uuid → S → Option IdentityFacet
  pub save_identity : IdentityFacet → Exec S (Unit {0})
  pub set_lifecycle : Uuid → Lifecycle → Exec S (Unit {0})
  pub identities : List Uuid → S → Dict Uuid IdentityFacet
  pub latest_sources : List Uuid → S → Dict Uuid SourceVersion
  pub latest_runtimes : List Uuid → S → Dict Uuid RuntimeVersion
  pub add_source_version : SourceVersion → Exec S (Unit {0})
  pub source_versions : Uuid → S → List SourceVersion
  pub update_source_location : Uuid → String → Option String → Exec S Bool
  pub add_runtime_version : RuntimeVersion → Exec S (Unit {0})
  pub runtime_versions : Uuid → S → List RuntimeVersion
  pub update_runtime_location : Uuid → String → Exec S Bool
  pub add_relationship : Relationship → Exec S (Unit {0})
  pub upsert_relationship : Relationship → Exec S (Unit {0})
  pub edges_from : Uuid → Option RelType → S → List Relationship
  pub edges_to : Uuid → Option RelType → S → List Relationship
  pub get_edge : Uuid → Uuid → RelType → S → Option Relationship

pub record EventSink (E : Type 0) : Type 0 where
  pub emit : Event → E → E

-- What the package takes from its surroundings: the ids that `uuid4` makes and the readings of the
-- clock, one of each for each object that is created with default values.
pub record Host : Type 0 where
  pub uuid4 : ℕ → Uuid
  pub now : ℕ → Time

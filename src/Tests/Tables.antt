-- ===== src/Tests/Tables.antt =====
-- Writes to the tables of the SQL backend, from the empty database.
use asset_core.Shared.{inl, refl, none, some, List, [], ◌∷◌, true, false}
use asset_core.Shared.Dict.{lookup, insert}
use asset_core.Core.Types.{provisional, depends_on, float}
use asset_core.Core.Entities.{Asset, IdentityFacet, SourceVersion, RuntimeVersion, Relationship}
use asset_core.Infra.InMemory.{init, create_asset}
use asset_core.Infra.Sqlite.{Tables, init_identity_fts}
use asset_core.Infra.Sqlite.Mirrors.{mirror}
use asset_core.Infra.Sqlite.Index.{IsIndexed, init_identity_fts-IsIndexed}
use asset_core.Infra.Sqlite.Calls.{Write, creates, adds_edge, moves_source, adds_source}

abbrev rock : Asset
rock = record {
  asset_type = "mesh";
  created_by = "bob";
  id = 7;
  lifecycle = provisional;
  origin = [];
  created_at = 3;
}

abbrev rock_identity : IdentityFacet
rock_identity = record {
  asset_id = 7;
  display_name = some "Rock";
  taxonomy = none;
  status = none;
  tags = "grey" ∷ [];
  attributes = [];
}

abbrev first_version : SourceVersion
first_version = record {
  asset_id = 7;
  location_uri = "//depot/rock";
  tool = "maya";
  revision = "r1";
  version_num = 1;
  is_latest = true;
  published_by = some "bob";
  published_at = 4;
}

abbrev first_cook : RuntimeVersion
first_cook = record {
  asset_id = 7;
  location_uri = "/Game/rock";
  build_id = "b1";
  version_num = 1;
  is_latest = false;
  cooked_at = 5;
}

abbrev floating : Relationship
floating = record {
  from_asset = 7;
  to_asset = 8;
  rel_type = depends_on;
  binding_mode = some float;
  pinned_version = none;
  attributes = [];
}

-- the second edge has an end that is not known
abbrev history : List Write
history =
    creates rock rock_identity
    ∷ adds_source first_version
    ∷ moves_source 7 "//depot/stone" none
    ∷ adds_edge floating
    ∷ []

-- an identity of before there was an index
abbrev old_tables : Tables
old_tables = mirror (create_asset rock rock_identity init).1 []

init_identity_fts-IsIndexed_example :
    IsIndexed ((7, rock_identity) ∷ []) (init_identity_fts old_tables).identity_fts
unfolding create_asset insert lookup
init_identity_fts-IsIndexed_example =
    init_identity_fts-IsIndexed old_tables ((7, rock_identity) ∷ []) refl (refl, tt) (refl, tt)
      (inl refl)

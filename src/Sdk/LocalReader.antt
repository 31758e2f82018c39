-- ===== src/Sdk/LocalReader.antt =====
-- assetcore/sdk/local_reader.py: the answers of the local reader, as functions of the replica. The
-- bytes order of the texts is that of SQLite's BINARY collation.
pub mod Local
use Prim.Native.String.{compare}
use Prim.Native.Nat.{ℕ, Ordering}
use asset_core.Shared.{
  String, Bool, true, false, ◌&&◌, Option, none, some, List, map, select, ◌==◌, String_eq,
  if◌then◌else◌,
}
use asset_core.Shared.Dict.{lookup, values}
use asset_core.Shared.Sort.{sort}
use asset_core.Sdk.Replica.{
  Replica, RelationRow, ReplicaRow, AssetRecord, Resolved, Identity, FacetRecord, Meta, or_else,
  type_of, creator_of,
}

abbrev pub text_leb : String → String → Bool
text_leb a b = elim (compare a b) [ Ordering.gt ↦ false | _ ↦ true ]

-- `_resolve_shape` with the dependencies
pub record Dependency : Type 0 where
  pub asset_id : String
  pub rel_type : String
  pub binding_mode : String

pub record LocalResolve : Type 0 where
  pub id : String
  pub resolved : Resolved
  pub dependencies : List Dependency

pub record Dependent : Type 0 where
  pub asset_id : String
  pub depth : ℕ
  pub rel_type : String
  pub binding_mode : String

pub record LocalSummary : Type 0 where
  pub id : String
  pub asset_type : Option String
  pub created_by : Option String
  pub created_at : Option String
  pub meta : Option Meta
  pub identity : Option Identity
  pub source : Option FacetRecord

unfoldable pub summary_shape : AssetRecord → LocalSummary
summary_shape r = record {
  id = r.id;
  asset_type = or_else r.asset_type (type_of r.resolved.meta);
  created_by = or_else r.created_by (creator_of r.resolved.meta);
  created_at = r.created_at;
  meta = r.resolved.meta;
  identity = r.resolved.identity;
  source = r.resolved.source;
}

abbrev pub dependency : RelationRow → Dependency
dependency d = record { asset_id = d.to_id; rel_type = d.rel_type; binding_mode = d.binding_mode }

abbrev pub dependent : RelationRow → Dependent
dependent r = record {
  asset_id = r.from_id;
  depth = 1;
  rel_type = r.rel_type;
  binding_mode = r.binding_mode;
}

-- WHERE from_id=? ORDER BY to_id
unfoldable pub rows_from : String → Replica → List RelationRow
unfolding sort
rows_from asset_id conn =
    sort (λ r s. text_leb r.to_id s.to_id) (select (λ r. r.from_id == asset_id) conn.relations)

-- WHERE to_id=? ORDER BY from_id
unfoldable pub rows_to : String → Replica → List RelationRow
unfolding sort
rows_to asset_id conn =
    sort (λ r s. text_leb r.from_id s.from_id) (select (λ r. r.to_id == asset_id) conn.relations)

-- `none` is the 404
unfoldable pub resolve : String → Replica → Option LocalResolve
unfolding lookup rows_from
resolve asset_id conn = elim (lookup asset_id conn.assets) [
  | none ↦ none
  | some row ↦ some (record {
    id = row.payload.id;
    resolved = row.payload.resolved;
    dependencies = map dependency (rows_from asset_id conn);
  })
]

unfoldable pub dependents : String → Replica → List Dependent
unfolding rows_to
dependents asset_id conn = map dependent (rows_to asset_id conn)

-- `x is not None and op(x)` of a WHERE clause, where the parameter is given
abbrev column_test : (String → String → Bool) → Option String → Option String → Bool
column_test op none column = true
column_test op (some given) column =
    if given == "" then true else elim column [ none ↦ false | some x ↦ op given x ]

-- The match of a text with an escaped prefix, `LIKE ? ESCAPE`, is SQLite's.
module _ (like_prefix : String → String → Bool) where
  unfoldable pub assets :
      Option String → Option String → Option String → Replica → List LocalSummary
  unfolding sort summary_shape
  assets created_by taxonomy_prefix updated_since conn =
      map (λ row. summary_shape row.payload)
        (sort (λ r s. text_leb r.payload.id s.payload.id)
          (select
            (λ row.
              column_test (λ given x. x == given) created_by row.created_by
              && column_test like_prefix taxonomy_prefix row.taxonomy
              && column_test text_leb updated_since row.updated_at)
            (values conn.assets)))

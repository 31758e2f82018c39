-- ===== src/Infra/Sqlite.antt =====
-- assetcore/infra/sqlite_repo.py: `SqliteRepo`, its statements as functions of the tables, which
-- list their rows in the order of insertion. A JSON text, a time and an id are the values they stand
-- for. Creating the tables and `search_candidates`, a query of
-- the FTS5 engine, are left out.
pub mod Rows
pub mod Facets
pub mod Mirrors
pub mod Orders
pub mod Identities
pub mod Reads
pub mod Versions
pub mod Writes
pub mod Edges
pub mod Index
pub mod Calls
pub mod Refines
use Prim.Native.String.{◌++◌ as append}
use mathlib.Core.Option
use asset_core.Shared.{
  ℕ, String, Bool, true, false, ◌&&◌, ◌||◌, not, Option, none, some, List, [], ◌∷◌, ◌++◌, map, leb,
  ◌==◌, if◌then◌else◌, is_none, is_some, find, select, contains, ℕ_eq, String_eq, length, ltb,
}
use asset_core.Shared.Dict.{Dict, insert}
use asset_core.Shared.Sort.{sort, insert_sorted}
use asset_core.Core.Types.{Lifecycle, RelType}
use asset_core.Core.Types.Values.{lifecycle_value, rel_type_value}
use asset_core.Core.Entities.{
  Uuid, Asset, IdentityFacet, SourceVersion, RuntimeVersion, Relationship,
}
use asset_core.Core.Rules.{Facet}
use asset_core.Infra.Sqlite.Rows.{
  AssetRow, SourceRow, RuntimeRow, RelationshipRow, asset_row, row_to_asset, source_row,
  row_to_source, runtime_row, row_to_runtime, rel_params, row_to_rel, SourceRow_facet,
  RuntimeRow_facet,
}

-- A row of `facet_identity` has the columns of an `IdentityFacet`, and one of `identity_fts` an id
-- and its text.
pub record Tables : Type 0 where
  pub asset : List AssetRow
  pub facet_identity : List IdentityFacet
  pub facet_source_version : List SourceRow
  pub facet_runtime_version : List RuntimeRow
  pub relationship : List RelationshipRow
  pub identity_fts : List (Uuid × String)

-- which constraint an IntegrityError is about
pub data Violation : Type 0 where
  unique foreign_key : Violation

-- what a method raises: VersionConflict, the ValueError of an edge that exists, an IntegrityError
-- as it is, or the ValueError of an enum
pub data Fault : Type 0 where
  version_conflict edge_exists integrity_error not_a_member : Fault

pub data Outcome (A : Type 0) : Type 0 where
  returns : A → Outcome A
  raises : Fault → Outcome A

pub data Executed (A : Type 0) : Type 0 where
  violates : Violation → Executed A
  executed : A → Tables → Executed A

-- `with self.conn:` commits, or rolls back and raises; `except` maps what is raised.
abbrev pub transaction :
    {A : Type 0} → (Violation → Fault) → (Tables → Executed A) → Tables → Outcome A × Tables
transaction except body t = elim (body t) [
  | violates v ↦ (raises (except v), t)
  | executed a t' ↦ (returns a, t')
]

abbrev pub as_it_is : Violation → Fault
as_it_is v = integrity_error

unfoldable pub as_version_conflict : Violation → Fault
as_version_conflict unique = version_conflict
as_version_conflict foreign_key = integrity_error

-- the handler of `add_relationship`
abbrev pub as_edge_exists : Violation → Fault
as_edge_exists unique = edge_exists
as_edge_exists foreign_key = integrity_error

-- `UPDATE … SET … WHERE …`
abbrev pub update_where : {R : Type 0} → (R → Bool) → (R → R) → List R → List R
update_where p g rows = map (λ r. if p r then g r else r) rows

-- the reference to `asset(id)` is to a row
abbrev pub is_asset : Uuid → Tables → Bool
is_asset a t = is_some (find (λ r. r.id == a) t.asset)

abbrev joined : List String → String
joined [] = ""
joined (s ∷ []) = s
joined (s ∷ r ∷ rest) = append s (append " " (joined (r ∷ rest)))

-- `filter(None, …)` drops None and the empty text
abbrev present : Option String → List String → List String
present none rest = rest
present (some s) rest = if s == "" then rest else s ∷ rest

unfoldable pub identity_text : Option String → Option String → List String → String
identity_text display_name taxonomy tags =
    joined (present display_name (present taxonomy (present (some (joined tags)) [])))

unfoldable pub reindex_identity : IdentityFacet → List (Uuid × String) → List (Uuid × String)
unfolding identity_text
reindex_identity identity fts =
    let others = select (λ e. not (e.0 == identity.asset_id)) fts in
    let words = identity_text identity.display_name identity.taxonomy identity.tags in
    if words == "" then others else others ++ (identity.asset_id, words) ∷ []

-- the backfill of `_init_identity_fts`
unfoldable pub backfill_fts : List IdentityFacet → List (Uuid × String)
unfolding identity_text
backfill_fts [] = []
backfill_fts (i ∷ rows) =
    let rest = backfill_fts rows in
    let words = identity_text i.display_name i.taxonomy i.tags in
    if words == "" then rest else (i.asset_id, words) ∷ rest

unfoldable pub init_identity_fts : Tables → Tables
unfolding backfill_fts
init_identity_fts t = elim t.identity_fts [
  | [] ↦ record t { identity_fts = backfill_fts t.facet_identity }
  | e ∷ fts ↦ t
]

-- the primary keys are unique, and the identity refers to an asset
unfoldable pub create_asset : Asset → IdentityFacet → Tables → Outcome (Unit {0}) × Tables
unfolding asset_row reindex_identity
create_asset asset identity = transaction as_it_is (λ t.
    let inserted = record t { asset = t.asset ++ asset_row asset ∷ [] } in
    if is_asset asset.id t
    then violates unique
    else if is_some (find (λ r. r.asset_id == identity.asset_id) t.facet_identity)
    then violates unique
    else if is_asset identity.asset_id inserted
    then executed tt (record inserted {
      facet_identity = t.facet_identity ++ identity ∷ [];
      identity_fts = reindex_identity identity t.identity_fts;
    })
    else violates foreign_key)

-- a row that is to be read, where there is one
abbrev pub read : {R A : Type 0} → (R → Option A) → Option R → Outcome (Option A)
read convert none = returns none
read convert (some r) = elim (convert r) [ none ↦ raises not_a_member | some a ↦ returns (some a) ]

-- `[convert(r) for r in rows]`
unfoldable pub read_all : {R A : Type 0} → (R → Option A) → List R → Outcome (List A)
read_all convert [] = returns []
read_all convert (r ∷ rows) =
    let rest = read_all convert rows in
    elim (convert r) [
      | none ↦ raises not_a_member
      | some a ↦ elim rest [ raises f ↦ raises f | returns all ↦ returns (a ∷ all) ]
    ]

unfoldable pub get_asset : Uuid → Tables → Outcome (Option Asset)
unfolding row_to_asset
get_asset asset_id t = read row_to_asset (find (λ r. r.id == asset_id) t.asset)

-- a clause, where its parameter is given
abbrev pub column_is : Option String → String → Bool
column_is none s = true
column_is (some wanted) s = s == wanted

unfoldable pub list_assets :
    Option String → Option Lifecycle → Option String → Tables → Outcome (List Asset)
unfolding row_to_asset read_all lifecycle_value
list_assets asset_type lifecycle created_by t = read_all row_to_asset (
    select
      (λ r.
        column_is asset_type r.asset_type
        && column_is (Option.map lifecycle_value lifecycle) r.lifecycle
        && column_is created_by r.created_by)
      t.asset)

unfoldable pub get_identity : Uuid → Tables → Option IdentityFacet
get_identity asset_id t = find (λ r. r.asset_id == asset_id) t.facet_identity

-- `{UUID(r["asset_id"]): … for r in rows}`
unfoldable pub by_asset : List IdentityFacet → Dict Uuid IdentityFacet → Dict Uuid IdentityFacet
by_asset [] d = d
by_asset (r ∷ rows) d = by_asset rows (insert r.asset_id r d)

unfoldable pub identities : List Uuid → Tables → Dict Uuid IdentityFacet
unfolding by_asset
identities [] t = []
identities (a ∷ asset_ids) t =
    by_asset (select (λ r. contains r.asset_id (a ∷ asset_ids)) t.facet_identity) []

unfoldable pub save_identity : IdentityFacet → Tables → Outcome (Unit {0}) × Tables
unfolding reindex_identity
save_identity identity = transaction as_it_is (λ t. executed tt (record t {
  facet_identity =
      update_where (λ r. r.asset_id == identity.asset_id)
        (λ r. record r {
          display_name = identity.display_name;
          taxonomy = identity.taxonomy;
          status = identity.status;
          tags = identity.tags;
          attributes = identity.attributes;
        })
        t.facet_identity;
  identity_fts = reindex_identity identity t.identity_fts;
}))

unfoldable pub set_lifecycle : Uuid → Lifecycle → Tables → Outcome (Unit {0}) × Tables
unfolding lifecycle_value
set_lifecycle asset_id lifecycle = transaction as_it_is (λ t. executed tt (record t {
  asset =
      update_where (λ r. r.id == asset_id) (λ r. record r { lifecycle = lifecycle_value lifecycle })
        t.asset;
}))

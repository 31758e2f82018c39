-- ===== src/Infra/Sqlite/Facets.antt =====
-- assetcore/infra/sqlite_repo.py: the version tables and the table of edges.
use asset_core.Shared.{
  String, Bool, false, ◌&&◌, ◌||◌, Option, none, some, List, [], ◌∷◌, ◌++◌, map, leb, ◌==◌,
  if◌then◌else◌, is_some, find, select, contains, ℕ_eq, String_eq, length, ltb,
}
use asset_core.Shared.Dict.{Dict, insert}
use asset_core.Shared.Sort.{sort, insert_sorted}
use asset_core.Core.Types.{RelType}
use asset_core.Core.Types.Values.{rel_type_value}
use asset_core.Core.Entities.{Uuid, SourceVersion, RuntimeVersion, Relationship}
use asset_core.Core.Rules.{Facet}
use asset_core.Infra.Sqlite.Rows.{
  SourceRow, RelationshipRow, source_row, row_to_source, runtime_row, row_to_runtime, rel_params,
  row_to_rel, SourceRow_facet, RuntimeRow_facet,
}
use asset_core.Infra.Sqlite.{
  Tables, unique, foreign_key, Outcome, violates, executed, transaction, as_it_is,
  as_version_conflict, as_edge_exists, update_where, is_asset, read, read_all,
}

module _ {R : Type 0} ⦃f : Facet R⦄ where
  -- `WHERE asset_id=? AND is_latest=1`
  abbrev pub is_latest_of : Uuid → R → Bool
  is_latest_of a r = f.asset_id r == a && f.is_latest r

  -- UNIQUE (asset_id, version_num) and the index one_latest on asset_id WHERE is_latest
  abbrev pub clashes : R → R → Bool
  clashes v r =
      f.asset_id r == f.asset_id v
      && (f.version_num r == f.version_num v || (f.is_latest r && f.is_latest v))

  -- the UPDATE of `add_source_version` and `add_runtime_version`
  unfoldable pub demote_rows : Uuid → List R → List R
  demote_rows a rows = update_where (is_latest_of a) (f.set_latest false) rows

  -- `ORDER BY version_num`
  abbrev pub by_version : R → R → Bool
  by_version a b = leb (f.version_num a) (f.version_num b)

  unfoldable pub version_rows : Uuid → List R → List R
  unfolding sort insert_sorted
  version_rows a rows = sort by_version (select (λ r. f.asset_id r == a) rows)

  -- `{UUID(r["asset_id"]): … for r in rows}` over `WHERE is_latest=1 AND asset_id IN (…)`
  unfoldable pub latest_rows :
      {V : Type 0} → (R → V) → List Uuid → List R → Dict Uuid V → Dict Uuid V
  latest_rows convert asset_ids [] d = d
  latest_rows convert asset_ids (r ∷ rows) d = latest_rows convert asset_ids rows (
      if f.is_latest r && contains (f.asset_id r) asset_ids
      then insert (f.asset_id r) (convert r) d
      else d)

unfoldable pub add_source_version : SourceVersion → Tables → Outcome (Unit {0}) × Tables
unfolding demote_rows source_row as_version_conflict
add_source_version v = transaction as_version_conflict (λ t.
    let demoted = demote_rows v.asset_id t.facet_source_version in
    if is_some (find (clashes (source_row v)) demoted)
    then violates unique
    else if is_asset v.asset_id t
    then executed tt (record t { facet_source_version = demoted ++ source_row v ∷ [] })
    else violates foreign_key)

abbrev pub set_location : String → Option String → SourceRow → SourceRow
set_location uri none r = record r { location_uri = uri }
set_location uri (some revision) r = record r { location_uri = uri; revision = revision }

-- `cur.rowcount > 0`
abbrev pub any_row : {R : Type 0} → (R → Bool) → List R → Bool
any_row p rows = ltb 0 (length (select p rows))

unfoldable pub update_source_location :
    Uuid → String → Option String → Tables → Outcome Bool × Tables
update_source_location asset_id new_location_uri new_revision = transaction as_it_is (λ t.
    executed (any_row (is_latest_of asset_id) t.facet_source_version) (record t {
      facet_source_version =
          update_where (is_latest_of asset_id) (set_location new_location_uri new_revision)
            t.facet_source_version;
    }))

unfoldable pub source_versions : Uuid → Tables → List SourceVersion
unfolding version_rows row_to_source
source_versions asset_id t = map row_to_source (version_rows asset_id t.facet_source_version)

unfoldable pub latest_sources : List Uuid → Tables → Dict Uuid SourceVersion
unfolding latest_rows row_to_source
latest_sources [] t = []
latest_sources (a ∷ asset_ids) t =
    latest_rows row_to_source (a ∷ asset_ids) t.facet_source_version []

unfoldable pub add_runtime_version : RuntimeVersion → Tables → Outcome (Unit {0}) × Tables
unfolding demote_rows runtime_row as_version_conflict
add_runtime_version v = transaction as_version_conflict (λ t.
    let demoted = demote_rows v.asset_id t.facet_runtime_version in
    if is_some (find (clashes (runtime_row v)) demoted)
    then violates unique
    else if is_asset v.asset_id t
    then executed tt (record t { facet_runtime_version = demoted ++ runtime_row v ∷ [] })
    else violates foreign_key)

unfoldable pub update_runtime_location : Uuid → String → Tables → Outcome Bool × Tables
update_runtime_location asset_id new_location_uri = transaction as_it_is (λ t.
    executed (any_row (is_latest_of asset_id) t.facet_runtime_version) (record t {
      facet_runtime_version =
          update_where (is_latest_of asset_id) (λ r. record r { location_uri = new_location_uri })
            t.facet_runtime_version;
    }))

unfoldable pub runtime_versions : Uuid → Tables → List RuntimeVersion
unfolding version_rows row_to_runtime
runtime_versions asset_id t = map row_to_runtime (version_rows asset_id t.facet_runtime_version)

unfoldable pub latest_runtimes : List Uuid → Tables → Dict Uuid RuntimeVersion
unfolding latest_rows row_to_runtime
latest_runtimes [] t = []
latest_runtimes (a ∷ asset_ids) t =
    latest_rows row_to_runtime (a ∷ asset_ids) t.facet_runtime_version []

-- the key of UNIQUE (from_asset, to_asset, rel_type)
unfoldable pub is_edge_row : Uuid → Uuid → String → RelationshipRow → Bool
is_edge_row frm to rel_type r = r.from_asset == frm && r.to_asset == to && r.rel_type == rel_type

abbrev pub same_edge : RelationshipRow → RelationshipRow → Bool
same_edge r = is_edge_row r.from_asset r.to_asset r.rel_type

-- both references are to rows of `asset`
abbrev pub has_ends : Relationship → Tables → Bool
has_ends r t = is_asset r.from_asset t && is_asset r.to_asset t

unfoldable pub add_relationship : Relationship → Tables → Outcome (Unit {0}) × Tables
unfolding rel_params is_edge_row
add_relationship r = transaction as_edge_exists (λ t.
    if is_some (find (same_edge (rel_params r)) t.relationship)
    then violates unique
    else if has_ends r t
    then executed tt (record t { relationship = t.relationship ++ rel_params r ∷ [] })
    else violates foreign_key)

-- `ON CONFLICT … DO UPDATE SET` on the row with the key
abbrev pub update_edge : RelationshipRow → RelationshipRow → RelationshipRow
update_edge new r = record r {
  binding_mode = new.binding_mode;
  pinned_version = new.pinned_version;
  attributes = new.attributes;
}

unfoldable pub upsert_relationship : Relationship → Tables → Outcome (Unit {0}) × Tables
unfolding rel_params is_edge_row
upsert_relationship r = transaction as_it_is (λ t.
    let new = rel_params r in
    if is_some (find (same_edge new) t.relationship)
    then executed tt
        (record t { relationship = update_where (same_edge new) (update_edge new) t.relationship })
    else if has_ends r t
    then executed tt (record t { relationship = t.relationship ++ new ∷ [] })
    else violates foreign_key)

-- `_edges`, with the column that is asked for. The statement has no ORDER BY: `order` is what SQLite makes
-- of the rows that fit.
unfoldable pub edges :
    (List RelationshipRow → List RelationshipRow)
    → (RelationshipRow → Uuid)
    → Uuid
    → Option RelType
    → Tables
    → Outcome (List Relationship)
unfolding row_to_rel read_all rel_type_value
edges order column asset_id none t =
    read_all row_to_rel (order (select (λ r. column r == asset_id) t.relationship))
edges order column asset_id (some rel_type) t = read_all row_to_rel (
    order
      (select (λ r. column r == asset_id && r.rel_type == rel_type_value rel_type) t.relationship))

module _ (order : List RelationshipRow → List RelationshipRow) where
  abbrev pub edges_from : Uuid → Option RelType → Tables → Outcome (List Relationship)
  edges_from = edges order (λ r. r.from_asset)

  abbrev pub edges_to : Uuid → Option RelType → Tables → Outcome (List Relationship)
  edges_to = edges order (λ r. r.to_asset)

unfoldable pub get_edge : Uuid → Uuid → RelType → Tables → Outcome (Option Relationship)
unfolding row_to_rel is_edge_row rel_type_value
get_edge frm to rel_type t =
    read row_to_rel (find (is_edge_row frm to (rel_type_value rel_type)) t.relationship)

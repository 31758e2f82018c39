-- ===== src/Infra/Sqlite/Reads.antt =====
-- The queries, over tables that hold a state of the in-memory repository.
use mathlib.Core.Option
use asset_core.Shared.{
  subst, ◌≡◌, refl, ap, ◌∙◌, sym, String, Bool, ◌&&◌, Option, none, some, List, [], ◌∷◌, map, ◌==◌,
  if◌then◌else◌, select, contains, ℕ_eq, String_eq, arith,
}
use asset_core.Shared.Dict.{Dict, lookup, insert, values}
use asset_core.Core.Types.{Lifecycle, RelType, Lifecycle_eq, RelType_eq}
use asset_core.Core.Types.Values.{
  lifecycle_value, rel_type_value, lifecycle_value-same, rel_type_value-same,
}
use asset_core.Core.Entities.{Uuid, Asset, SourceVersion, RuntimeVersion, Relationship}
use asset_core.Core.Rules.{Facet, Source_facet, Runtime_facet}
use asset_core.Infra.InMemory.{InMemoryRepo, versions, matches, latest_by_asset}
use asset_core.Infra.InMemory as Memory
use asset_core.Infra.Sqlite as Sqlite
use asset_core.Infra.Sqlite.{Tables, Outcome, returns, raises, read, read_all, column_is, by_asset}
use asset_core.Infra.Sqlite.Facets as Facets
use asset_core.Infra.Sqlite.Facets.{version_rows, latest_rows, is_edge_row}
use asset_core.Infra.Sqlite.Mirrors.{
  mirror, IsKeyed, find-assets, find-identities, read_back, read_all_back, select-rows, find-rows,
  version_rows-rows, map_back,
}
use asset_core.Infra.Sqlite.Rows.{
  RelationshipRow, asset_row, row_to_asset, source_row, row_to_source, runtime_row, row_to_runtime,
  rel_params, row_to_rel, SourceRow_facet, RuntimeRow_facet, row_to_asset-asset_row, bit-latest,
  row_to_source-source_row, row_to_runtime-runtime_row, row_to_rel-rel_params,
}
use asset_core.Infra.Sqlite.Orders.{
  IsOrder, Reordered, Rows, Rows-read_all, Rows-map, Rows-reordered,
}
use asset_core.Infra.Sqlite.Identities.{by_asset-values, no_ids, or_then-none}

-- Every query of one is that of the other; but the edges come in some order, and a dict is compared by
-- its entries. At most one row has each key of a dict, so that the order of the rows is that of its keys.
pub record ReadsAlike (s : InMemoryRepo) (t : Tables) : Type 0 where
  pub get_asset : (a : Uuid) → Sqlite.get_asset a t ≡ returns (Memory.get_asset a s)
  pub list_assets :
      (asset_type : Option String) (lifecycle : Option Lifecycle) (created_by : Option String)
      → Sqlite.list_assets asset_type lifecycle created_by t
        ≡ returns (Memory.list_assets asset_type lifecycle created_by s)
  pub get_identity : (a : Uuid) → Sqlite.get_identity a t ≡ Memory.get_identity a s
  pub identities :
      (ids : List Uuid) (a : Uuid)
      → lookup a (Sqlite.identities ids t) ≡ lookup a (Memory.identities ids s)
  pub source_versions : (a : Uuid) → Facets.source_versions a t ≡ Memory.source_versions a s
  pub runtime_versions : (a : Uuid) → Facets.runtime_versions a t ≡ Memory.runtime_versions a s
  pub latest_sources :
      (ids : List Uuid) (a : Uuid)
      → lookup a (Facets.latest_sources ids t) ≡ lookup a (Memory.latest_sources ids s)
  pub latest_runtimes :
      (ids : List Uuid) (a : Uuid)
      → lookup a (Facets.latest_runtimes ids t) ≡ lookup a (Memory.latest_runtimes ids s)
  pub edges_from :
      (order : List RelationshipRow → List RelationshipRow)
      → IsOrder order
      → (a : Uuid) (l : Option RelType)
      → Reordered (Facets.edges_from order a l t) (Memory.edges_from a l s)
  pub edges_to :
      (order : List RelationshipRow → List RelationshipRow)
      → IsOrder order
      → (a : Uuid) (l : Option RelType)
      → Reordered (Facets.edges_to order a l t) (Memory.edges_to a l s)
  pub get_edge :
      (frm to : Uuid) (l : RelType)
      → Facets.get_edge frm to l t ≡ returns (Memory.get_edge frm to l s)

column_is-lifecycle :
    (wanted : Option Lifecycle) (l : Lifecycle)
    → column_is (Option.map lifecycle_value wanted) (lifecycle_value l) ≡ matches wanted l
column_is-lifecycle none l = refl
column_is-lifecycle (some wanted) l = lifecycle_value-same l wanted

column_is-matches : (wanted : Option String) (s : String) → column_is wanted s ≡ matches wanted s
column_is-matches none s = refl
column_is-matches (some wanted) s = refl

pub is_edge_row-rel_params :
    (frm to : Uuid) (l : RelType) (r : Relationship)
    → is_edge_row frm to (rel_type_value l) (rel_params r) ≡ Memory.is_edge frm to l r
unfolding is_edge_row rel_params Memory.is_edge
is_edge_row-rel_params frm to l r = rw (rel_type_value-same r.rel_type l) refl

columns-asset_row :
    (asset_type : Option String) (lifecycle : Option Lifecycle) (created_by : Option String)
    (a : Asset)
    → (column_is asset_type (asset_row a).asset_type
        && column_is (Option.map lifecycle_value lifecycle) (asset_row a).lifecycle
        && column_is created_by (asset_row a).created_by)
      ≡ (matches asset_type a.asset_type
          && matches lifecycle a.lifecycle
          && matches created_by a.created_by)
unfolding asset_row
columns-asset_row asset_type lifecycle created_by a =
    rw
      (
        column_is-lifecycle lifecycle a.lifecycle,
        column_is-matches asset_type a.asset_type,
        column_is-matches created_by a.created_by,
      )
      refl

from-row : (r : Relationship) → (rel_params r).from_asset ≡ r.from_asset
unfolding rel_params
from-row r = refl

to-row : (r : Relationship) → (rel_params r).to_asset ≡ r.to_asset
unfolding rel_params
to-row r = refl

-- the test on the column of an end, and on the type
with_type_none :
    (column : RelationshipRow → Uuid) (end : Relationship → Uuid)
    → ((r : Relationship) → column (rel_params r) ≡ end r)
    → (a : Uuid) (r : Relationship)
    → (column (rel_params r) == a) ≡ (end r == a && matches none r.rel_type)
with_type_none column end e a r = rw (e r) (ground arith)

with_type :
    (column : RelationshipRow → Uuid) (end : Relationship → Uuid)
    → ((r : Relationship) → column (rel_params r) ≡ end r)
    → (a : Uuid) (t : RelType) (r : Relationship)
    → (column (rel_params r) == a && (rel_params r).rel_type == rel_type_value t)
      ≡ (end r == a && matches (some t) r.rel_type)
unfolding rel_params
with_type column end e a t r = rw (e r, rel_type_value-same r.rel_type t) refl

module _ (v : SourceVersion) where
  source-id : (source_row v).asset_id ≡ v.asset_id
  unfolding source_row
  source-id = refl

  source-number : (source_row v).version_num ≡ v.version_num
  unfolding source_row
  source-number = refl

  source-latest : ((source_row v).is_latest == 1) ≡ v.is_latest
  unfolding source_row
  source-latest = bit-latest v.is_latest

module _ (v : RuntimeVersion) where
  runtime-id : (runtime_row v).asset_id ≡ v.asset_id
  unfolding runtime_row
  runtime-id = refl

  runtime-number : (runtime_row v).version_num ≡ v.version_num
  unfolding runtime_row
  runtime-number = refl

  runtime-latest : ((runtime_row v).is_latest == 1) ≡ v.is_latest
  unfolding runtime_row
  runtime-latest = bit-latest v.is_latest

and_comm : (a b : Bool) → (a && b) ≡ (b && a)
and_comm a b = ground arith

latest_rows-rows :
    {V R : Type 0} ⦃f : Facet V⦄ ⦃g : Facet R⦄ (to_row : V → R) (convert : R → V)
    → ((v : V) → convert (to_row v) ≡ v)
    → ((v : V) → g.asset_id (to_row v) ≡ f.asset_id v)
    → ((v : V) → g.is_latest (to_row v) ≡ f.is_latest v)
    → (ids : List Uuid) (vs : List V) (d : Dict Uuid V)
    → latest_rows convert ids (map to_row vs) d ≡ latest_by_asset ids vs d
unfolding latest_rows latest_by_asset
latest_rows-rows to_row convert back i l ids [] d = refl
latest_rows-rows ⦃f⦄ ⦃g⦄ to_row convert back i l ids (v ∷ vs) d =
    latest_rows-rows to_row convert back i l ids vs _ ∙ ap (latest_by_asset ids vs) step
  where
    step :
        (if g.is_latest (to_row v) && contains (g.asset_id (to_row v)) ids
          then insert (g.asset_id (to_row v)) (convert (to_row v)) d
          else d)
        ≡ (if contains (f.asset_id v) ids && f.is_latest v then insert (f.asset_id v) v d else d)
    step = rw (i v, l v, back v, and_comm (f.is_latest v) (contains (f.asset_id v) ids)) refl

latest_by_asset_nil :
    {V : Type 0} ⦃f : Facet V⦄ (vs : List V) (d : Dict Uuid V) → latest_by_asset [] vs d ≡ d
unfolding latest_by_asset contains
latest_by_asset_nil [] d = refl
latest_by_asset_nil (v ∷ vs) d = latest_by_asset_nil vs d

module _ (s : InMemoryRepo) (fts : List (Uuid × String)) (h : IsKeyed s) where
  abbrev T : Tables
  T = mirror s fts

  get_asset-mirror : (a : Uuid) → Sqlite.get_asset a T ≡ returns (Memory.get_asset a s)
  unfolding Sqlite.get_asset Memory.get_asset
  get_asset-mirror a =
      ap (read row_to_asset) (find-assets a s.assets h.valid.asset_keys)
      ∙ read_back asset_row row_to_asset row_to_asset-asset_row (lookup a s.assets)

  list_assets-mirror :
      (asset_type : Option String) (lifecycle : Option Lifecycle) (created_by : Option String)
      → Sqlite.list_assets asset_type lifecycle created_by T
        ≡ returns (Memory.list_assets asset_type lifecycle created_by s)
  unfolding Sqlite.list_assets Memory.list_assets
  list_assets-mirror asset_type lifecycle created_by =
      ap (read_all row_to_asset) (
        select-rows asset_row _
          (λ a.
            matches asset_type a.asset_type
            && matches lifecycle a.lifecycle
            && matches created_by a.created_by)
          (columns-asset_row asset_type lifecycle created_by) (values s.assets))
      ∙ read_all_back asset_row row_to_asset row_to_asset-asset_row _

  source_versions-mirror : (a : Uuid) → Facets.source_versions a T ≡ Memory.source_versions a s
  unfolding Facets.source_versions Memory.source_versions
  source_versions-mirror a =
      ap (map row_to_source) (version_rows-rows source_row source-id source-number a s.sources)
      ∙ map_back source_row row_to_source row_to_source-source_row _

  runtime_versions-mirror : (a : Uuid) → Facets.runtime_versions a T ≡ Memory.runtime_versions a s
  unfolding Facets.runtime_versions Memory.runtime_versions
  runtime_versions-mirror a =
      ap (map row_to_runtime) (version_rows-rows runtime_row runtime-id runtime-number a s.runtimes)
      ∙ map_back runtime_row row_to_runtime row_to_runtime-runtime_row _

  latest_sources-mirror :
      (ids : List Uuid) → Facets.latest_sources ids T ≡ Memory.latest_sources ids s
  unfolding Facets.latest_sources Memory.latest_sources
  latest_sources-mirror [] = sym (latest_by_asset_nil s.sources [])
  latest_sources-mirror (a ∷ ids) =
      latest_rows-rows source_row row_to_source row_to_source-source_row source-id source-latest
        (a ∷ ids) s.sources []

  latest_runtimes-mirror :
      (ids : List Uuid) → Facets.latest_runtimes ids T ≡ Memory.latest_runtimes ids s
  unfolding Facets.latest_runtimes Memory.latest_runtimes
  latest_runtimes-mirror [] = sym (latest_by_asset_nil s.runtimes [])
  latest_runtimes-mirror (a ∷ ids) =
      latest_rows-rows runtime_row row_to_runtime row_to_runtime-runtime_row runtime-id
        runtime-latest (a ∷ ids) s.runtimes []

  edges_back :
      (order : List RelationshipRow → List RelationshipRow)
      → IsOrder order
      → (q : Relationship → Bool) (p : RelationshipRow → Bool)
      → ((r : Relationship) → p (rel_params r) ≡ q r)
      → Reordered (read_all row_to_rel (order (select p (map rel_params s.rels)))) (select q s.rels)
  edges_back order perm q p same =
      let rows = select p (map rel_params s.rels) in
      let known : Rows rows (select q s.rels) =
        subst (λ l. Rows l (select q s.rels)) (sym (select-rows rel_params p q same s.rels))
          (Rows-map (select q s.rels)) in
      let (es, h, reordered) = Rows-reordered (perm rows) (select q s.rels) known in
      (es, Rows-read_all (order rows) es h, reordered)

  module _ (order : List RelationshipRow → List RelationshipRow) (perm : IsOrder order) where
    edges_from-mirror :
        (a : Uuid) (l : Option RelType)
        → Reordered (Facets.edges_from order a l T) (Memory.edges_from a l s)
    unfolding Facets.edges Memory.edges_from
    edges_from-mirror a none =
        edges_back order perm _ _
          (λ r. with_type_none (λ x. x.from_asset) (λ x. x.from_asset) from-row a r)
    edges_from-mirror a (some t) =
        edges_back order perm _ _
          (λ r. with_type (λ x. x.from_asset) (λ x. x.from_asset) from-row a t r)

    edges_to-mirror :
        (a : Uuid) (l : Option RelType)
        → Reordered (Facets.edges_to order a l T) (Memory.edges_to a l s)
    unfolding Facets.edges Memory.edges_to
    edges_to-mirror a none =
        edges_back order perm _ _
          (λ r. with_type_none (λ x. x.to_asset) (λ x. x.to_asset) to-row a r)
    edges_to-mirror a (some t) =
        edges_back order perm _ _ (λ r. with_type (λ x. x.to_asset) (λ x. x.to_asset) to-row a t r)

  get_edge-mirror :
      (frm to : Uuid) (l : RelType)
      → Facets.get_edge frm to l T ≡ returns (Memory.get_edge frm to l s)
  unfolding Facets.get_edge Memory.get_edge
  get_edge-mirror frm to l =
      ap (read row_to_rel)
        (find-rows rel_params _ (Memory.is_edge frm to l) (is_edge_row-rel_params frm to l) s.rels)
      ∙ read_back rel_params row_to_rel row_to_rel-rel_params _

  get_identity-mirror : (a : Uuid) → Sqlite.get_identity a T ≡ Memory.get_identity a s
  unfolding Sqlite.get_identity Memory.get_identity
  get_identity-mirror a = find-identities a s.known_identities h.valid.identity_keys

  identities-mirror :
      (ids : List Uuid) (a : Uuid)
      → lookup a (Sqlite.identities ids T) ≡ lookup a (Memory.identities ids s)
  unfolding Sqlite.identities Memory.identities lookup
  identities-mirror [] a = ap (lookup a) (sym (no_ids s.known_identities))
  identities-mirror (i ∷ ids) a =
      by_asset-values (i ∷ ids) s.known_identities a [] h.valid.identity_keys h.identities_once
      ∙ or_then-none (lookup a (select (λ x. contains x.0 (i ∷ ids)) s.known_identities))

  pub mirror-ReadsAlike : ReadsAlike s T
  mirror-ReadsAlike = record {
    get_asset = get_asset-mirror;
    list_assets = list_assets-mirror;
    get_identity = get_identity-mirror;
    identities = identities-mirror;
    source_versions = source_versions-mirror;
    runtime_versions = runtime_versions-mirror;
    latest_sources = λ ids a. ap (lookup a) (latest_sources-mirror ids);
    latest_runtimes = λ ids a. ap (lookup a) (latest_runtimes-mirror ids);
    edges_from = edges_from-mirror;
    edges_to = edges_to-mirror;
    get_edge = get_edge-mirror;
  }

-- ===== src/Sdk/Replica.antt =====
-- assetcore/sdk/replica.py: the local replica and its hydration. The client of the central service is
-- a parameter. A record has the keys that the package writes, and a stored one is the value of its
-- JSON text; times are texts. Opening and migrating the file, and its atomic swap, are left out.
pub mod Queue
pub mod Related
pub mod Crawl
pub mod Hydrated
use Prim.Native.String.{compare}
use Prim.Native.Nat.{Ordering}
use asset_core.Shared.{
  ℕ, zero, suc, ◌+◌, String, Bool, true, false, ◌&&◌, not, Option, none, some, List, [], ◌∷◌, ◌++◌,
  map, length, select, ◌==◌, String_eq, if◌then◌else◌, contains_text, is_some,
}
use asset_core.Shared.Dict.{Dict, lookup, insert}
use asset_core.Sdk.Listing.{fetch_pages}

pub record Meta : Type 0 where
  pub asset_type : Option String
  pub lifecycle : Option String
  pub created_by : Option String

pub record Identity : Type 0 where
  pub display_name : Option String
  pub taxonomy : Option String
  pub status : Option String

-- a source or a runtime facet; the time is `published_at` or `cooked_at`
pub record FacetRecord : Type 0 where
  pub location_uri : String
  pub revision : Option String
  pub touched_at : Option String

-- what `resolve` of the client returns
pub record Resolved : Type 0 where
  pub meta : Option Meta
  pub identity : Option Identity
  pub source : Option FacetRecord
  pub runtime : Option FacetRecord

-- an entry of the listing
pub record Summary : Type 0 where
  pub id : String
  pub asset_type : Option String
  pub created_by : Option String
  pub created_at : Option String

pub record AssetRecord : Type 0 where
  pub id : String
  pub asset_type : Option String
  pub created_by : Option String
  pub created_at : Option String
  pub resolved : Resolved

pub record ReplicaRow : Type 0 where
  pub name : String
  pub asset_type : Option String
  pub status : Option String
  pub created_by : Option String
  pub taxonomy : Option String
  pub updated_at : Option String
  pub payload : AssetRecord

pub record RelationRow : Type 0 where
  pub from_id : String
  pub to_id : String
  pub rel_type : String
  pub binding_mode : String

-- `assets` by its primary key
pub record Replica : Type 0 where
  pub assets : Dict String ReplicaRow
  pub relations : List RelationRow
  pub hydrated_at : Option String
  pub project : Option String

abbrev pub empty : Replica
empty = record { assets = []; relations = []; hydrated_at = none; project = none }

-- `x or y`
abbrev pub or_else : Option String → Option String → Option String
or_else none y = y
or_else (some x) y = if x == "" then y else some x

abbrev pub or_id : Option String → String → String
or_id none y = y
or_id (some x) y = if x == "" then y else x

-- `max` of the texts that are there
abbrev later_text : Option String → Option String → Option String
later_text none y = y
later_text (some x) none = some x
later_text (some x) (some y) = elim (compare x y) [ Ordering.lt ↦ some y | _ ↦ some x ]

abbrev truthy_text : Option String → Option String
truthy_text x = or_else x none

abbrev touched : Option FacetRecord → Option String
touched none = none
touched (some f) = f.touched_at

unfoldable pub record_updated_at : AssetRecord → Option String
record_updated_at r = later_text (truthy_text r.created_at) (
    later_text (truthy_text (touched r.resolved.source)) (truthy_text (touched r.resolved.runtime)))

abbrev display_of : Option Identity → Option String
display_of none = none
display_of (some i) = i.display_name

abbrev status_of : Option Identity → Option String
status_of none = none
status_of (some i) = i.status

abbrev taxonomy_of : Option Identity → Option String
taxonomy_of none = none
taxonomy_of (some i) = i.taxonomy

abbrev pub type_of : Option Meta → Option String
type_of none = none
type_of (some m) = m.asset_type

abbrev pub creator_of : Option Meta → Option String
creator_of none = none
creator_of (some m) = m.created_by

-- the columns that are extracted
unfoldable pub replica_row : AssetRecord → ReplicaRow
unfolding record_updated_at
replica_row r = record {
  name = or_id (display_of r.resolved.identity) r.id;
  asset_type = or_else r.asset_type (type_of r.resolved.meta);
  status = status_of r.resolved.identity;
  created_by = or_else r.created_by (creator_of r.resolved.meta);
  taxonomy = taxonomy_of r.resolved.identity;
  updated_at = record_updated_at r;
  payload = r;
}

-- ON CONFLICT(id) DO UPDATE keeps the place of the row
unfoldable pub upsert_asset : AssetRecord → Replica → Replica
unfolding replica_row insert
upsert_asset r conn = record conn { assets = insert r.id (replica_row r) conn.assets }

abbrev pub same_relation : String → String → String → RelationRow → Bool
same_relation from_id to_id rel_type r =
    r.from_id == from_id && r.to_id == to_id && r.rel_type == rel_type

-- INSERT OR REPLACE deletes the row with the key first
unfoldable pub upsert_relation : String → String → String → String → Replica → Replica
upsert_relation from_id to_id rel_type binding_mode conn = record conn {
  relations =
      select (λ r. not (same_relation from_id to_id rel_type r)) conn.relations
      ++ (record {
        from_id = from_id;
        to_id = to_id;
        rel_type = rel_type;
        binding_mode = binding_mode;
      })
        ∷ [];
}

abbrev payload_of : Option ReplicaRow → Option AssetRecord
payload_of none = none
payload_of (some row) = some row.payload

unfoldable pub get_asset : String → Replica → Option AssetRecord
unfolding lookup
get_asset asset_id conn = payload_of (lookup asset_id conn.assets)

-- The client: its listing under the filters of the two seed queries, `resolve`, and `dependencies`
-- by the id and the type.
pub record Central : Type 0 where
  pub authored : ℕ → ℕ → List Summary
  pub recent : ℕ → ℕ → List Summary
  pub resolve : String → Option Resolved
  pub dependencies : String → List (String × String)

-- `_HYDRATE_PAGE`
abbrev pub hydrate_page : ℕ
hydrate_page = 500

unfoldable pub list_all : (ℕ → ℕ → List Summary) → ℕ → Option (List Summary)
unfolding fetch_pages
list_all list_assets fuel = fetch_pages list_assets hydrate_page fuel 0 []

-- `{a["id"]: a for a in authored}`, and `setdefault` for the recent ones
abbrev pub add_all : List Summary → Dict String Summary → Dict String Summary
add_all [] seeds = seeds
add_all (a ∷ rest) seeds = add_all rest (insert a.id a seeds)

abbrev pub set_defaults : List Summary → Dict String Summary → Dict String Summary
set_defaults [] seeds = seeds
set_defaults (a ∷ rest) seeds =
    set_defaults rest (if is_some (lookup a.id seeds) then seeds else insert a.id a seeds)

abbrev summary_field : (Summary → Option String) → Option Summary → Option String
summary_field f none = none
summary_field f (some a) = f a

-- the record of an asset, from its answer and the entry of the listing
unfoldable pub record_of : String → Resolved → Option Summary → AssetRecord
record_of aid resolved summary = record {
  id = aid;
  asset_type = or_else (type_of resolved.meta) (summary_field (λ a. a.asset_type) summary);
  created_by = or_else (creator_of resolved.meta) (summary_field (λ a. a.created_by) summary);
  created_at = summary_field (λ a. a.created_at) summary;
  resolved = resolved;
}

-- the relations of one asset
unfoldable pub relate_all : String → List (String × String) → Replica → Replica
unfolding upsert_relation
relate_all aid [] conn = conn
relate_all aid ((to_id, rel_type) ∷ deps) conn =
    relate_all aid deps (upsert_relation aid to_id rel_type "float" conn)

-- the ends that are not seen are appended to the queue
abbrev pub unseen : List String → List (String × String) → List String
unseen seen deps = select (λ to_id. not (contains_text to_id seen)) (map (λ d. d.0) deps)

module _ (central : Central) (seeds : Dict String Summary) where
  abbrev pub store : String → Resolved → Replica → Replica
  store aid resolved conn =
      relate_all aid (central.dependencies aid)
        (upsert_asset (record_of aid resolved (lookup aid seeds)) conn)

  -- the `while` loop, one unit of fuel for each id that is taken off the queue
  unfoldable pub crawl : ℕ → List String → List String → Replica → Option Replica
  unfolding relate_all upsert_asset record_of contains_text lookup
  crawl zero queue seen conn = none
  crawl (suc fuel) [] seen conn = some conn
  crawl (suc fuel) (aid ∷ queue) seen conn = elim (contains_text aid seen) [
    | true ↦ crawl fuel queue seen conn
    | false ↦ elim (central.resolve aid) [
      | none ↦ crawl fuel queue (aid ∷ seen) conn
      | some resolved ↦
          crawl fuel (queue ++ unseen (aid ∷ seen) (central.dependencies aid)) (aid ∷ seen)
            (store aid resolved conn)
    ]
  ]

-- `hydrate_cache`, for a page fuel and a crawl fuel
unfoldable pub hydrate_cache : Central → String → String → ℕ → ℕ → Option Replica
unfolding list_all crawl insert lookup
hydrate_cache central project now_iso pages fuel = elim (list_all central.authored pages) [
  | none ↦ none
  | some authored ↦ elim (list_all central.recent pages) [
    | none ↦ none
    | some recent ↦
        let seeds = set_defaults recent (add_all authored []) in
        elim (crawl central seeds fuel (map (λ e. e.0) seeds) [] empty) [
          | none ↦ none
          | some conn ↦ some (record conn { hydrated_at = some now_iso; project = some project })
        ]
  ]
]

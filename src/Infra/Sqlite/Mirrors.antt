-- ===== src/Infra/Sqlite/Mirrors.antt =====
-- The tables that hold a state of the in-memory repository, and what is read from them.
use mathlib.Core.Option
use asset_core.Shared.{
  ◌≡◌, refl, ap, ◌∙◌, sym, String, Bool, Option, none, some, List, [], ◌∷◌, map, ◌==◌, is_some,
  find, select, ℕ_eq, String_eq, arith, All,
}
use asset_core.Shared.Dict.{Dict, lookup, values, UniqueKeys}
use asset_core.Shared.Sort.{sort, insert_sorted}
use asset_core.Core.Types.{Lifecycle_eq, RelType_eq}
use asset_core.Core.Entities.{Uuid, Asset, IdentityFacet}
use asset_core.Core.Rules.{Facet, Source_facet, Runtime_facet}
use asset_core.Infra.InMemory.{InMemoryRepo, by_number, owned, live_versions, versions}
use asset_core.Infra.InMemory.Histories.{facet, map-owned}
use asset_core.Infra.InMemory.Valid.{IsValid}
use asset_core.Infra.Sqlite.{Tables, returns, read, read_all, is_asset}
use asset_core.Infra.Sqlite.Facets.{version_rows, by_version}
use asset_core.Infra.Sqlite.Rows.{
  asset_row, source_row, runtime_row, rel_params, SourceRow_facet, RuntimeRow_facet,
}

-- `fts` is the rows of the index, which has no counterpart.
abbrev pub mirror : InMemoryRepo → List (Uuid × String) → Tables
mirror s fts = record {
  asset = map asset_row (values s.assets);
  facet_identity = values s.known_identities;
  facet_source_version = map source_row s.sources;
  facet_runtime_version = map runtime_row s.runtimes;
  relationship = map rel_params s.rels;
  identity_fts = fts;
}

-- a valid state, whose dicts have each key once
pub record IsKeyed (s : InMemoryRepo) : Type 0 where
  pub valid : IsValid s
  pub assets_once : UniqueKeys s.assets
  pub identities_once : UniqueKeys s.known_identities

pub find-assets :
    (a : Uuid) (d : Dict Uuid Asset)
    → All (λ e. e.1.id ≡ e.0) d
    → find (λ r. r.id == a) (map asset_row (values d)) ≡ Option.map asset_row (lookup a d)
unfolding lookup asset_row
find-assets a [] h = refl
find-assets a ((j, v) ∷ d) h = ground (arith, find-assets a d)

pub find-identities :
    (a : Uuid) (d : Dict Uuid IdentityFacet)
    → All (λ e. e.1.asset_id ≡ e.0) d
    → find (λ r. r.asset_id == a) (values d) ≡ lookup a d
unfolding lookup
find-identities a [] h = refl
find-identities a ((j, v) ∷ d) h = ground (arith, find-identities a d)

pub is_some-map : {A B : Type 0} (f : A → B) (o : Option A) → is_some (Option.map f o) ≡ is_some o
is_some-map f none = refl
is_some-map f (some a) = refl

pub is_asset-mirror :
    (a : Uuid) (s : InMemoryRepo) (fts : List (Uuid × String))
    → IsValid s
    → is_asset a (mirror s fts) ≡ is_some (lookup a s.assets)
is_asset-mirror a s fts h =
    ap is_some (find-assets a s.assets h.asset_keys) ∙ is_some-map asset_row (lookup a s.assets)

module _ {R A : Type 0} (to_row : A → R) (convert : R → Option A)
    (back : (a : A) → convert (to_row a) ≡ some a) where
  pub read_back : (o : Option A) → read convert (Option.map to_row o) ≡ returns o
  read_back none = refl
  read_back (some a) = rw (back a) refl

  pub read_all_back : (xs : List A) → read_all convert (map to_row xs) ≡ returns xs
  unfolding read_all
  read_all_back [] = refl
  read_all_back (a ∷ xs) = rw (back a, read_all_back xs) refl

module _ {R A : Type 0} (to_row : A → R) where
  -- a query with the same test on the rows
  pub select-rows :
      (p : R → Bool) (q : A → Bool)
      → ((a : A) → p (to_row a) ≡ q a)
      → (xs : List A) → select p (map to_row xs) ≡ map to_row (select q xs)
  select-rows p q h [] = refl
  select-rows p q h (a ∷ xs) = ground (arith, h a, select-rows p q h xs)

  pub find-rows :
      (p : R → Bool) (q : A → Bool)
      → ((a : A) → p (to_row a) ≡ q a)
      → (xs : List A) → find p (map to_row xs) ≡ Option.map to_row (find q xs)
  find-rows p q h [] = refl
  find-rows p q h (a ∷ xs) = ground (arith, h a, find-rows p q h xs)

  insert_sorted-rows :
      (p : R → R → Bool) (q : A → A → Bool)
      → ((a b : A) → p (to_row a) (to_row b) ≡ q a b)
      → (a : A) (xs : List A)
      → insert_sorted p (to_row a) (map to_row xs) ≡ map to_row (insert_sorted q a xs)
  unfolding insert_sorted
  insert_sorted-rows p q h a [] = refl
  insert_sorted-rows p q h a (b ∷ xs) = ground (arith, h a b, insert_sorted-rows p q h a xs)

  pub sort-rows :
      (p : R → R → Bool) (q : A → A → Bool)
      → ((a b : A) → p (to_row a) (to_row b) ≡ q a b)
      → (xs : List A) → sort p (map to_row xs) ≡ map to_row (sort q xs)
  unfolding sort
  sort-rows p q h [] = refl
  sort-rows p q h (a ∷ xs) = rw (sort-rows p q h xs) (insert_sorted-rows p q h a (sort q xs))

pub map_back :
    {R A : Type 0} (to_row : A → R) (convert : R → A)
    → ((a : A) → convert (to_row a) ≡ a)
    → (xs : List A) → map convert (map to_row xs) ≡ xs
map_back to_row convert back [] = refl
map_back to_row convert back (a ∷ xs) = rw (back a) (ap (◌∷◌ a) (map_back to_row convert back xs))

module _ {V R : Type 0} ⦃f : Facet V⦄ ⦃g : Facet R⦄ (to_row : V → R) where
  -- The versions are sorted by their numbers, as the live references are.
  pub version_rows-rows :
      ((v : V) → g.asset_id (to_row v) ≡ f.asset_id v)
      → ((v : V) → g.version_num (to_row v) ≡ f.version_num v)
      → (a : Uuid) (vs : List V) → version_rows a (map to_row vs) ≡ map to_row (versions a vs)
  unfolding version_rows versions live_versions
  version_rows-rows ids numbers a vs =
      rw
        (select-rows to_row (λ r. g.asset_id r == a) (λ v. f.asset_id v == a) (λ v. rw (ids v) refl)
          vs)
        (sort-rows to_row by_version by_version (λ v w. rw (numbers v, numbers w) refl) (facet a vs)
          ∙ ap (map to_row) (
              ap (sort by_version) (sym (map-owned a 0 vs))
              ∙ sort-rows (λ r. r.1) by_version by_number (λ p q. refl) (owned a 0 vs)))

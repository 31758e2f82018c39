-- ===== src/Infra/Sqlite/Writes.antt =====
-- The statements that write, over tables that hold a state of the in-memory repository.
use asset_core.Shared.{
  ◌≡◌, refl, ap, ◌∙◌, sym, inl, inr, String, Bool, true, false, Option, none, some, List, [], ◌∷◌,
  ◌++◌, map, ◌==◌, if◌then◌else◌, is_some, find, ℕ_eq, arith, All, Bool-cases, Option-cases,
  nat_eq_iff,
}
use asset_core.Shared.Dict.{Dict, lookup, insert, values, All-lookup, UniqueKeys, values-insert_new}
use asset_core.Shared.Exec.{Result, ok, raised, Error, value_error, version_conflict, edge_exists}
use asset_core.Core.Types.{Lifecycle}
use asset_core.Core.Types.Values.{lifecycle_value}
use asset_core.Core.Entities.{Uuid, Asset, IdentityFacet, SourceVersion, RuntimeVersion}
use asset_core.Core.Rules.{Source_facet, Runtime_facet, next_version_num}
use asset_core.Infra.InMemory.{
  InMemoryRepo, add_version, update_latest, move_source, move_runtime, replace_edge,
}
use asset_core.Infra.InMemory as Memory
use asset_core.Infra.InMemory.Histories.{facet, versions_lem, next_version_num-IsHistory}
use asset_core.Infra.InMemory.Valid.{IsKnown}
use asset_core.Infra.Sqlite as Sqlite
use asset_core.Infra.Sqlite.{
  Tables, Violation, unique, foreign_key, transaction, violates, executed, as_it_is,
  as_version_conflict, as_edge_exists, Fault, Outcome, returns, raises, update_where, is_asset,
  reindex_identity,
}
use asset_core.Infra.Sqlite.Facets as Facets
use asset_core.Infra.Sqlite.Facets.{
  is_latest_of, set_location, same_edge, update_edge, is_edge_row, any_row,
}
use asset_core.Infra.Sqlite.Mirrors.{mirror, IsKeyed, find-identities, is_asset-mirror}
use asset_core.Infra.Sqlite.Versions.{
  Encodes, update_latest_rows, update_where-rows, any_row-rows, no_clash-rows, add_version-rows,
}
use asset_core.Infra.Sqlite.Rows.{
  asset_row, source_row, runtime_row, SourceRow_facet, RuntimeRow_facet, bit-latest,
}

-- What the database raises where the dicts raise so: a foreign key that is missing is an
-- IntegrityError, not a ValueError.
abbrev pub fault_of : Error → Fault
fault_of version_conflict = Fault.version_conflict
fault_of (value_error edge_exists) = Fault.edge_exists
fault_of _ = Fault.integrity_error

abbrev pub answer : {A : Type 0} → Result A → Outcome A
answer (ok a) = returns a
answer (raised e) = raises (fault_of e)

module _ {V : Type 0} (key : V → Uuid) (u : V → V) (k : Uuid) where
  abbrev Keyed : Dict Uuid V → Type 0
  Keyed d = All (λ e. key e.1 ≡ e.0) d

  abbrev updated : List V → List V
  updated vs = update_where (λ v. key v == k) u vs

  updated-none : (d : Dict Uuid V) → Keyed d → lookup k d ≡ none → updated (values d) ≡ values d
  unfolding lookup
  updated-none [] h e = refl
  updated-none ((j, v) ∷ d) h e = ground (arith, updated-none d)

  -- The UPDATE of the row with a key is an assignment to the key.
  updated-insert :
      (v : V) (d : Dict Uuid V)
      → Keyed d
      → UniqueKeys d
      → lookup k d ≡ some v
      → updated (values d) ≡ values (insert k (u v) d)
  unfolding lookup insert
  updated-insert v [] h q e = cc
  updated-insert v ((j, w) ∷ d) h q e = elim (Bool-cases (j == k)) [
    | inl same ↦
        let p : j ≡ k = (nat_eq_iff j k).0 same in
        let rest = updated-none d h.1 (rw p at q.0) in ground (arith, h.0)
    | inr other ↦ let rest = updated-insert v d h.1 q.1 (ground arith) in ground (arith, h.0)
  ]

update_where-map :
    {A R : Type 0} (to_row : A → R) (p : R → Bool) (g : R → R) (q : A → Bool) (u : A → A)
    → ((a : A) → p (to_row a) ≡ q a)
    → ((a : A) → g (to_row a) ≡ to_row (u a))
    → (xs : List A) → update_where p g (map to_row xs) ≡ map to_row (update_where q u xs)
update_where-map to_row p g q u h k [] = refl
update_where-map to_row p g q u h k (a ∷ xs) =
    ground (arith, h a, k a, update_where-map to_row p g q u h k xs)

pub map-append :
    {A B : Type 0} (h : A → B) (xs ys : List A) → map h (xs ++ ys) ≡ map h xs ++ map h ys
map-append h [] ys = refl
map-append h (x ∷ xs) ys = ap (◌∷◌ (h x)) (map-append h xs ys)

set_location-source_row :
    (uri : String) (r : Option String) (v : SourceVersion)
    → set_location uri r (source_row v) ≡ source_row (move_source uri r v)
unfolding source_row
set_location-source_row uri none v = refl
set_location-source_row uri (some r) v = refl

location-runtime_row :
    (uri : String) (v : RuntimeVersion)
    → record (runtime_row v) { location_uri = uri } ≡ runtime_row (move_runtime uri v)
unfolding runtime_row
location-runtime_row uri v = refl

source-Encodes : Encodes source_row
unfolding source_row
source-Encodes = record {
  ids = λ v. refl;
  numbers = λ v. refl;
  flags = λ v. bit-latest v.is_latest;
  demoted = λ v. refl;
}

runtime-Encodes : Encodes runtime_row
unfolding runtime_row
runtime-Encodes = record {
  ids = λ v. refl;
  numbers = λ v. refl;
  flags = λ v. bit-latest v.is_latest;
  demoted = λ v. refl;
}

find-last :
    {A : Type 0} (p : A → Bool) (xs : List A) (x : A)
    → p x ≡ true
    → is_some (find p (xs ++ x ∷ [])) ≡ true
find-last p [] x e = rw e refl
find-last p (y ∷ xs) x e = ground (arith, find-last p xs x)

asset_row-id : (asset : Asset) (a : Uuid) → a ≡ asset.id → ((asset_row asset).id == a) ≡ true
unfolding asset_row
asset_row-id asset a e = (nat_eq_iff asset.id a).1 (sym e)

asset_row-key : (a : Uuid) (asset : Asset) → ((asset_row asset).id == a) ≡ (asset.id == a)
unfolding asset_row
asset_row-key a asset = refl

asset_row-lifecycle :
    (l : Lifecycle) (asset : Asset)
    → record (asset_row asset) { lifecycle = lifecycle_value l }
      ≡ asset_row (record asset { lifecycle = l })
unfolding asset_row
asset_row-lifecycle l asset = refl

-- all columns but the key are written
abbrev overwrite : IdentityFacet → IdentityFacet → IdentityFacet
overwrite identity r = record r {
  display_name = identity.display_name;
  taxonomy = identity.taxonomy;
  status = identity.status;
  tags = identity.tags;
  attributes = identity.attributes;
}

overwrite-same :
    (identity r : IdentityFacet) → r.asset_id ≡ identity.asset_id → overwrite identity r ≡ identity
overwrite-same identity r e = rw e refl

-- an INSERT whose constraints hold, the key of a second table and a reference among them
insert_passes :
    (except : Violation → Fault) (a b c : Bool) (t t' : Tables)
    → a ≡ false
    → b ≡ false
    → c ≡ true
    → transaction except
        (λ u.
          if a
          then violates unique
          else if b
          then violates unique
          else if c
          then executed tt t'
          else violates foreign_key)
        t
      ≡ (returns tt, t')
insert_passes except a b c t t' p q r = rw (p, q, r) refl

-- an INSERT with a key and a reference
pub insert_checks :
    (except : Violation → Fault) (clash known : Bool) (t t' : Tables)
    → transaction except
        (λ u.
          if clash then violates unique else if known then executed tt t' else violates foreign_key)
        t
      ≡ (if clash
          then (raises (except unique), t)
          else if known
          then (returns tt, t')
          else (raises (except foreign_key), t))
insert_checks except true known t t' = refl
insert_checks except false true t t' = refl
insert_checks except false false t t' = refl

module _ (s : InMemoryRepo) (fts : List (Uuid × String)) (h : IsKeyed s) where
  abbrev pub T : Tables
  T = mirror s fts

  -- what a write on the tables comes to, next to the write on the dicts
  abbrev pub Alike :
      {A : Type 0} → List (Uuid × String) → Outcome A × Tables → Result A × InMemoryRepo → Type 0
  Alike fts' r m = r ≡ (answer m.0, mirror m.1 fts')

  pub create_asset-Alike :
      (asset : Asset) (identity : IdentityFacet)
      → identity.asset_id ≡ asset.id
      → lookup asset.id s.assets ≡ none
      → Alike
          (reindex_identity identity fts)
          (Sqlite.create_asset asset identity T)
          (Memory.create_asset asset identity s)
  unfolding Sqlite.create_asset Memory.create_asset
  create_asset-Alike asset identity same new =
      let free : is_asset asset.id T ≡ false =
        is_asset-mirror asset.id s fts h.valid ∙ ap is_some new in
      let unpaired : lookup identity.asset_id s.known_identities ≡ none =
        rw same (ground (arith, h.valid.paired asset.id)) in
      let unknown : is_some
            (find (λ r. r.asset_id == identity.asset_id) (values s.known_identities))
          ≡ false =
        ap is_some
          (find-identities identity.asset_id s.known_identities h.valid.identity_keys ∙ unpaired) in
      let refers =
        find-last (λ r. r.id == identity.asset_id) (map asset_row (values s.assets))
          (asset_row asset) (asset_row-id asset identity.asset_id same) in
      insert_passes as_it_is _ _ _ T _ free unknown refers
      ∙ ap (λ t. (returns tt, t))
          (rw
            (
              values-insert_new asset.id asset s.assets new,
              values-insert_new identity.asset_id identity s.known_identities unpaired,
              map-append asset_row (values s.assets) (asset ∷ []),
            )
            refl)

  pub save_identity-Alike :
      (identity : IdentityFacet)
      → is_some (lookup identity.asset_id s.known_identities) ≡ true
      → Alike
          (reindex_identity identity fts)
          (Sqlite.save_identity identity T)
          (Memory.save_identity identity s)
  unfolding Sqlite.save_identity Memory.save_identity
  save_identity-Alike identity known =
      elim (Option-cases (lookup identity.asset_id s.known_identities)) [
        | inl missing ↦ absurd (let x = rw missing at known in cc)
        | inr (old, e) ↦
            let key =
              All-lookup (λ t. t.1.asset_id ≡ t.0) identity.asset_id old s.known_identities
                h.valid.identity_keys e in
            let rows =
              updated-insert (λ i. i.asset_id) (overwrite identity) identity.asset_id old
                s.known_identities h.valid.identity_keys h.identities_once e in
            rw (rows, overwrite-same identity old key) refl
      ]

  pub set_lifecycle-Alike :
      (a : Uuid) (l : Lifecycle)
      → IsKnown s a
      → Alike fts (Sqlite.set_lifecycle a l T) (Memory.set_lifecycle a l s)
  unfolding Sqlite.set_lifecycle Memory.set_lifecycle
  set_lifecycle-Alike a l known = elim (Option-cases (lookup a s.assets)) [
    | inl missing ↦ absurd (let x = rw missing at known in cc)
    | inr (asset, e) ↦
        let rows =
          update_where-map asset_row (λ r. r.id == a)
            (λ r. record r { lifecycle = lifecycle_value l }) (λ x. x.id == a)
            (λ x. record x { lifecycle = l }) (asset_row-key a) (asset_row-lifecycle l)
            (values s.assets)
          ∙ ap (map asset_row) (
              updated-insert (λ x. x.id) (λ x. record x { lifecycle = l }) a asset s.assets
                h.valid.asset_keys h.assets_once e) in
        rw (rows, e, Memory.set_lifecycle) refl
  ]

  pub add_source_version-Alike :
      (v : SourceVersion)
      → v.version_num ≡ next_version_num (Memory.source_versions v.asset_id s)
      → Alike fts (Facets.add_source_version v T) (Memory.add_source_version v s)
  unfolding Facets.add_source_version Memory.add_source_version Memory.source_versions
  add_source_version-Alike v number =
      let history = h.valid.source_histories v.asset_id in
      let next =
        number
        ∙ ap next_version_num (versions_lem v.asset_id s.sources history)
        ∙ next_version_num-IsHistory (facet v.asset_id s.sources) history in
      let none_clashes = no_clash-rows source_row source-Encodes v s.sources history next in
      let known = is_asset-mirror v.asset_id s fts h.valid in
      insert_checks as_version_conflict _ _ T _
      ∙ rw none_clashes (elim (Bool-cases (is_some (lookup v.asset_id s.assets))) [
        | inl here ↦ rw (known, here, add_version-rows source_row source-Encodes v s.sources) refl
        | inr missing ↦ rw (known, missing) refl
      ])

  pub update_source_location-Alike :
      (a : Uuid) (uri : String) (r : Option String)
      → Alike fts
          (Facets.update_source_location a uri r T)
          (Memory.update_source_location a uri r s)
  unfolding Facets.update_source_location Memory.update_source_location
  update_source_location-Alike a uri r =
      rw
        (
          any_row-rows source_row source-Encodes a s.sources,
          update_where-rows source_row source-Encodes a (set_location uri r) (move_source uri r)
              (set_location-source_row uri r) s.sources,
          update_latest_rows a (move_source uri r) s.sources (h.valid.source_histories a),
        )
        refl

  pub add_runtime_version-Alike :
      (v : RuntimeVersion)
      → v.version_num ≡ next_version_num (Memory.runtime_versions v.asset_id s)
      → Alike fts (Facets.add_runtime_version v T) (Memory.add_runtime_version v s)
  unfolding Facets.add_runtime_version Memory.add_runtime_version Memory.runtime_versions
  add_runtime_version-Alike v number =
      let history = h.valid.runtime_histories v.asset_id in
      let next =
        number
        ∙ ap next_version_num (versions_lem v.asset_id s.runtimes history)
        ∙ next_version_num-IsHistory (facet v.asset_id s.runtimes) history in
      let none_clashes = no_clash-rows runtime_row runtime-Encodes v s.runtimes history next in
      let known = is_asset-mirror v.asset_id s fts h.valid in
      insert_checks as_version_conflict _ _ T _
      ∙ rw none_clashes (elim (Bool-cases (is_some (lookup v.asset_id s.assets))) [
        | inl here ↦
            rw (known, here, add_version-rows runtime_row runtime-Encodes v s.runtimes) refl
        | inr missing ↦ rw (known, missing) refl
      ])

  pub update_runtime_location-Alike :
      (a : Uuid) (uri : String)
      → Alike fts (Facets.update_runtime_location a uri T) (Memory.update_runtime_location a uri s)
  unfolding Facets.update_runtime_location Memory.update_runtime_location
  update_runtime_location-Alike a uri =
      rw
        (
          any_row-rows runtime_row runtime-Encodes a s.runtimes,
          update_where-rows runtime_row runtime-Encodes a (λ r. record r { location_uri = uri })
              (move_runtime uri) (location-runtime_row uri) s.runtimes,
          update_latest_rows a (move_runtime uri) s.runtimes (h.valid.runtime_histories a),
        )
        refl

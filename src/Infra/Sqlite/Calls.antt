-- ===== src/Infra/Sqlite/Calls.antt =====
-- The calls of the port's methods that write, on the tables and on the dicts, and what they keep.
use asset_core.Shared.{
  ◌≡◌, refl, String, Bool, true, Option, none, some, List, ℕ_eq, is_some, Option-cases, Bool-cases,
  inl, inr,
}
use asset_core.Shared.Dict.{lookup, insert, UniqueKeys-insert}
use asset_core.Shared.Exec.{Result, ok, raised}
use asset_core.Core.Types.{Lifecycle}
use asset_core.Core.Entities.{
  Uuid, Asset, IdentityFacet, SourceVersion, RuntimeVersion, Relationship,
}
use asset_core.Core.Rules.{Source_facet, Runtime_facet, next_version_num, validate_relationship}
use asset_core.Infra.InMemory.{InMemoryRepo}
use asset_core.Infra.InMemory as Memory
use asset_core.Infra.InMemory.Valid.{
  IsValid, IsKnown, create_asset-IsValid, save_identity-IsValid, set_lifecycle-IsValid,
}
use asset_core.Infra.InMemory.Writes.{
  add_source_version-IsValid, add_runtime_version-IsValid, update_source_location-IsValid,
  update_runtime_location-IsValid,
}
use asset_core.Infra.InMemory.Edges.{add_relationship-IsValid, upsert_relationship-IsValid}
use asset_core.Infra.Sqlite as Sqlite
use asset_core.Infra.Sqlite.{Tables, Outcome, returns, raises, reindex_identity}
use asset_core.Infra.Sqlite.Facets as Facets
use asset_core.Infra.Sqlite.Mirrors.{IsKeyed}
use asset_core.Infra.Sqlite.Index.{IsIndexed, reindex_identity-IsIndexed}

-- a call of a method of the port that writes
pub data Write : Type 0 where
  creates : Asset → IdentityFacet → Write
  saves : IdentityFacet → Write
  sets : Uuid → Lifecycle → Write
  adds_source : SourceVersion → Write
  adds_runtime : RuntimeVersion → Write
  moves_source : Uuid → String → Option String → Write
  moves_runtime : Uuid → String → Write
  adds_edge : Relationship → Write
  upserts_edge : Relationship → Write

-- `true` stands for None, of the methods that return nothing
abbrev pub with_true : {S : Type 0} → Outcome (Unit {0}) × S → Outcome Bool × S
with_true (returns u, s) = (returns true, s)
with_true (raises f, s) = (raises f, s)

abbrev pub with_ok : {S : Type 0} → Result (Unit {0}) × S → Result Bool × S
with_ok (ok u, s) = (ok true, s)
with_ok (raised e, s) = (raised e, s)

unfoldable pub on_tables : Write → Tables → Outcome Bool × Tables
on_tables (creates asset identity) t = with_true (Sqlite.create_asset asset identity t)
on_tables (saves identity) t = with_true (Sqlite.save_identity identity t)
on_tables (sets a l) t = with_true (Sqlite.set_lifecycle a l t)
on_tables (adds_source v) t = with_true (Facets.add_source_version v t)
on_tables (adds_runtime v) t = with_true (Facets.add_runtime_version v t)
on_tables (moves_source a uri r) t = Facets.update_source_location a uri r t
on_tables (moves_runtime a uri) t = Facets.update_runtime_location a uri t
on_tables (adds_edge r) t = with_true (Facets.add_relationship r t)
on_tables (upserts_edge r) t = with_true (Facets.upsert_relationship r t)

unfoldable pub on_dicts : Write → InMemoryRepo → Result Bool × InMemoryRepo
on_dicts (creates asset identity) s = with_ok (Memory.create_asset asset identity s)
on_dicts (saves identity) s = with_ok (Memory.save_identity identity s)
on_dicts (sets a l) s = with_ok (Memory.set_lifecycle a l s)
on_dicts (adds_source v) s = with_ok (Memory.add_source_version v s)
on_dicts (adds_runtime v) s = with_ok (Memory.add_runtime_version v s)
on_dicts (moves_source a uri r) s = Memory.update_source_location a uri r s
on_dicts (moves_runtime a uri) s = Memory.update_runtime_location a uri s
on_dicts (adds_edge r) s = with_ok (Memory.add_relationship r s)
on_dicts (upserts_edge r) s = with_ok (Memory.upsert_relationship r s)

-- What the verbs see to before they write: a new id, an identity or an asset that is there, the next
-- number, an edge that is valid, and one that is there where it is replaced.
abbrev pub Fits : Write → InMemoryRepo → Type 0
Fits (creates asset identity) s = (identity.asset_id ≡ asset.id) × (lookup asset.id s.assets ≡ none)
Fits (saves identity) s = is_some (lookup identity.asset_id s.known_identities) ≡ true
Fits (sets a l) s = IsKnown s a
Fits (adds_source v) s =
    (v.version_num ≡ next_version_num (Memory.source_versions v.asset_id s)) × (v.is_latest ≡ true)
Fits (adds_runtime v) s =
    (v.version_num ≡ next_version_num (Memory.runtime_versions v.asset_id s)) × (v.is_latest ≡ true)
Fits (moves_source a uri r) s = Unit
Fits (moves_runtime a uri) s = Unit
Fits (adds_edge r) s = validate_relationship r ≡ ok tt
Fits (upserts_edge r) s =
    (validate_relationship r ≡ ok tt)
    × (is_some (Memory.get_edge r.from_asset r.to_asset r.rel_type s) ≡ true)

-- the index after a write
abbrev pub fts_after : Write → List (Uuid × String) → List (Uuid × String)
fts_after (creates asset identity) fts = reindex_identity identity fts
fts_after (saves identity) fts = reindex_identity identity fts
fts_after _ fts = fts

pub is_some-some : {A : Type 0} (o : Option A) → is_some o ≡ true → (a : A) × (o ≡ some a)
is_some-some none e = cc
is_some-some (some a) e = (a, refl)

with_ok-kept :
    (P : InMemoryRepo → Type 0) (r : Result (Unit {0}) × InMemoryRepo) → P r.1 → P (with_ok r).1
with_ok-kept P (ok u, s) h = h
with_ok-kept P (raised e, s) h = h

-- the dicts of assets and identities are as they were
abbrev SameDicts : InMemoryRepo → InMemoryRepo → Type 0
SameDicts s s' = (s'.assets ≡ s.assets) × (s'.known_identities ≡ s.known_identities)

add_source_version-SameDicts :
    (v : SourceVersion) (s : InMemoryRepo) → SameDicts s (Memory.add_source_version v s).1
unfolding Memory.add_source_version
add_source_version-SameDicts v s = elim (Bool-cases (is_some (lookup v.asset_id s.assets))) [
  | inl known ↦ rw known (refl, refl)
  | inr missing ↦ rw missing (refl, refl)
]

add_runtime_version-SameDicts :
    (v : RuntimeVersion) (s : InMemoryRepo) → SameDicts s (Memory.add_runtime_version v s).1
unfolding Memory.add_runtime_version
add_runtime_version-SameDicts v s = elim (Bool-cases (is_some (lookup v.asset_id s.assets))) [
  | inl known ↦ rw known (refl, refl)
  | inr missing ↦ rw missing (refl, refl)
]

add_relationship-SameDicts :
    (r : Relationship) (s : InMemoryRepo) → SameDicts s (Memory.add_relationship r s).1
unfolding Memory.add_relationship
add_relationship-SameDicts r s = elim (Bool-cases (is_some (lookup r.from_asset s.assets))) [
  | inr missing ↦ rw missing (refl, refl)
  | inl a ↦ elim (Bool-cases (is_some (lookup r.to_asset s.assets))) [
    | inr missing ↦ rw (a, missing) (refl, refl)
    | inl b ↦ elim (Bool-cases (is_some (Memory.get_edge r.from_asset r.to_asset r.rel_type s))) [
      | inl duplicate ↦ rw (a, b, duplicate) (refl, refl)
      | inr new ↦ rw (a, b, new) (refl, refl)
    ]
  ]
]

SameDicts-IsKeyed : (s s' : InMemoryRepo) → IsKeyed s → SameDicts s s' → IsValid s' → IsKeyed s'
SameDicts-IsKeyed s s' h e v = record {
  valid = v;
  assets_once = rw e.0 h.assets_once;
  identities_once = rw e.1 h.identities_once;
}

set_lifecycle-IsKeyed :
    (a : Uuid) (l : Lifecycle) (s : InMemoryRepo)
    → IsKeyed s
    → IsKeyed (Memory.set_lifecycle a l s).1
unfolding Memory.set_lifecycle
set_lifecycle-IsKeyed a l s h = elim (Option-cases (lookup a s.assets)) [
  | inl unknown ↦ rw (unknown, Memory.set_lifecycle) h
  | inr (asset, e) ↦
      let valid : IsValid
          (record s { assets = insert a (record asset { lifecycle = l }) s.assets }) =
        rw (e, Memory.set_lifecycle) at (set_lifecycle-IsValid a l s h.valid) in
      rw (e, Memory.set_lifecycle)
        (record {
          valid = valid;
          assets_once = UniqueKeys-insert a (record asset { lifecycle = l }) s.assets h.assets_once;
          identities_once = h.identities_once;
        })
]

-- A write keeps the state valid, with each key once.
pub on_dicts-IsKeyed :
    (w : Write) (s : InMemoryRepo) → IsKeyed s → Fits w s → IsKeyed (on_dicts w s).1
unfolding on_dicts Memory.create_asset Memory.save_identity Memory.update_source_location
    Memory.update_runtime_location Memory.upsert_relationship
on_dicts-IsKeyed (creates asset identity) s h f = record {
  valid = create_asset-IsValid asset identity s f.0 h.valid;
  assets_once = UniqueKeys-insert asset.id asset s.assets h.assets_once;
  identities_once =
      UniqueKeys-insert identity.asset_id identity s.known_identities h.identities_once;
}
on_dicts-IsKeyed (saves identity) s h f = record {
  valid = save_identity-IsValid identity s f h.valid;
  assets_once = h.assets_once;
  identities_once =
      UniqueKeys-insert identity.asset_id identity s.known_identities h.identities_once;
}
on_dicts-IsKeyed (sets a l) s h f =
    with_ok-kept IsKeyed (Memory.set_lifecycle a l s) (set_lifecycle-IsKeyed a l s h)
on_dicts-IsKeyed (adds_source v) s h f = with_ok-kept IsKeyed (Memory.add_source_version v s) (
    SameDicts-IsKeyed s _ h (add_source_version-SameDicts v s)
      (add_source_version-IsValid v s f.0 f.1 h.valid))
on_dicts-IsKeyed (adds_runtime v) s h f = with_ok-kept IsKeyed (Memory.add_runtime_version v s) (
    SameDicts-IsKeyed s _ h (add_runtime_version-SameDicts v s)
      (add_runtime_version-IsValid v s f.0 f.1 h.valid))
on_dicts-IsKeyed (moves_source a uri r) s h f =
    SameDicts-IsKeyed s _ h (refl, refl) (update_source_location-IsValid a uri r s h.valid)
on_dicts-IsKeyed (moves_runtime a uri) s h f =
    SameDicts-IsKeyed s _ h (refl, refl) (update_runtime_location-IsValid a uri s h.valid)
on_dicts-IsKeyed (adds_edge r) s h f = with_ok-kept IsKeyed (Memory.add_relationship r s) (
    SameDicts-IsKeyed s _ h (add_relationship-SameDicts r s)
      (add_relationship-IsValid r s f h.valid))
on_dicts-IsKeyed (upserts_edge r) s h f =
    let (old, e) = is_some-some (Memory.get_edge r.from_asset r.to_asset r.rel_type s) f.1 in
    SameDicts-IsKeyed s _ h (refl, refl) (upsert_relationship-IsValid r s f.0 h.valid old e)

set_lifecycle-SameIdentities :
    (a : Uuid) (l : Lifecycle) (s : InMemoryRepo)
    → (Memory.set_lifecycle a l s).1.known_identities ≡ s.known_identities
unfolding Memory.set_lifecycle
set_lifecycle-SameIdentities a l s = elim (Option-cases (lookup a s.assets)) [
  | inl unknown ↦ rw (unknown, Memory.set_lifecycle) refl
  | inr (asset, e) ↦ rw (e, Memory.set_lifecycle) refl
]

-- and the index right
pub fts_after-IsIndexed :
    (w : Write) (s : InMemoryRepo) (fts : List (Uuid × String))
    → IsIndexed s.known_identities fts
    → IsIndexed (on_dicts w s).1.known_identities (fts_after w fts)
unfolding on_dicts Memory.create_asset Memory.save_identity Memory.update_source_location
    Memory.update_runtime_location Memory.upsert_relationship
fts_after-IsIndexed (creates asset identity) s fts i =
    reindex_identity-IsIndexed identity s.known_identities fts i
fts_after-IsIndexed (saves identity) s fts i =
    reindex_identity-IsIndexed identity s.known_identities fts i
fts_after-IsIndexed (sets a l) s fts i =
    with_ok-kept (λ s'. IsIndexed s'.known_identities fts) (Memory.set_lifecycle a l s)
      (rw (set_lifecycle-SameIdentities a l s) i)
fts_after-IsIndexed (adds_source v) s fts i =
    with_ok-kept (λ s'. IsIndexed s'.known_identities fts) (Memory.add_source_version v s)
      (rw (add_source_version-SameDicts v s).1 i)
fts_after-IsIndexed (adds_runtime v) s fts i =
    with_ok-kept (λ s'. IsIndexed s'.known_identities fts) (Memory.add_runtime_version v s)
      (rw (add_runtime_version-SameDicts v s).1 i)
fts_after-IsIndexed (moves_source a uri r) s fts i = i
fts_after-IsIndexed (moves_runtime a uri) s fts i = i
fts_after-IsIndexed (adds_edge r) s fts i =
    with_ok-kept (λ s'. IsIndexed s'.known_identities fts) (Memory.add_relationship r s)
      (rw (add_relationship-SameDicts r s).1 i)
fts_after-IsIndexed (upserts_edge r) s fts i = i

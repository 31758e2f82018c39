-- ===== src/Sdk/LocalReader/Local.antt =====
-- assetcore/sdk/local_reader.py: its answers over a hydrated replica, and its two directions.
use mathlib.Core.Option
use asset_core.Shared.{
  arith, ℕ, ◌+◌, ◌<◌, ◌≡◌, ◌↔◌, refl, sym, ap, ◌∙◌, inl, inr, String, true, Option, none, some,
  List, [], ◌∷◌, map, select, ◌==◌, String_eq, is_some, In, Option-cases, length,
}
use asset_core.Shared.Dict.{lookup}
use asset_core.Shared.Sort.{In-sort}
use asset_core.Sdk.Replica.{
  Central, Summary, Replica, RelationRow, list_all, hydrate_cache, get_asset, record_of,
}
use asset_core.Sdk.Replica.Queue.{In-select, deps, weight}
use asset_core.Sdk.Replica.Crawl.{Reaches, record_at}
use asset_core.Sdk.Replica.Hydrated.{seeds_of, hydrate_cache-Exact}
use asset_core.Sdk.LocalReader.{
  text_leb, LocalResolve, Dependency, dependency, dependent, rows_from, rows_to, resolve,
  dependents,
}

resolve-get_asset :
    (a : String) (db : Replica)
    → Option.map (λ o. o.resolved) (resolve a db) ≡ Option.map (λ r. r.resolved) (get_asset a db)
unfolding resolve get_asset
resolve-get_asset a db = elim (Option-cases (lookup a db.assets)) [
  | inl e ↦ rw (resolve, get_asset, e) refl
  | inr (row, e) ↦ rw (resolve, get_asset, e) refl
]

is_some-resolve : (a : String) (db : Replica) → is_some (resolve a db) ≡ is_some (get_asset a db)
unfolding resolve get_asset
is_some-resolve a db = elim (Option-cases (lookup a db.assets)) [
  | inl e ↦ rw (resolve, get_asset, e) refl
  | inr (row, e) ↦ rw (resolve, get_asset, e) refl
]

resolved_at :
    (central : Central) (seeds : _) (a : String)
    → Option.map (λ r. r.resolved) (record_at central seeds a) ≡ central.resolve a
unfolding record_of
resolved_at central seeds a = elim (Option-cases (central.resolve a)) [
  | inl e ↦ rw e refl
  | inr (r, e) ↦ rw e refl
]

-- Let the listings of the two seed queries end within the page fuel, let every seed be among some ids
-- which hold the dependencies of each of them that resolves, and let the fuel be more than the seeds
-- and the dependencies of these ids together. Then the hydration ends with a replica over which the
-- local reader resolves what can be reached from a seed, through the dependencies of assets that
-- resolve, to the facets that the central service answers, or to a 404 where it answers None, and
-- everything else to a 404.
pub resolve_hydrated :
    (central : Central) (project now_iso : String) (authored recent : List Summary)
    (U : List String)
    → (pages fuel : ℕ) → list_all central.authored pages ≡ some authored
    → list_all central.recent pages ≡ some recent
    → ((a : String) → In a (map (λ e. e.0) (seeds_of authored recent)) → In a U)
    → ((a b : String)
        → In a U
        → is_some (central.resolve a) ≡ true
        → In b (deps central a)
        → In b U)
    → length (seeds_of authored recent) + weight central [] U < fuel
    → (db : Replica) × (hydrate_cache central project now_iso pages fuel ≡ some db)
      × ((a : String)
          → Reaches central (seeds_of authored recent) a
          → Option.map (λ o. o.resolved) (resolve a db) ≡ central.resolve a)
      × ((a : String)
          → is_some (resolve a db) ≡ true
          → Reaches central (seeds_of authored recent) a)
resolve_hydrated central project now_iso authored recent U pages fuel a_pages r_pages started whole
      room =
    let (db, e, t, found, only, edges) =
      hydrate_cache-Exact central project now_iso authored recent U pages fuel a_pages r_pages
        started whole room in
    (
      db,
      e,
      (λ a r.
          resolve-get_asset a db
          ∙ ap (Option.map (λ r. r.resolved)) (found a r)
          ∙ resolved_at central (seeds_of authored recent) a),
      (λ a s. only a (sym (is_some-resolve a db) ∙ s)),
    )

In-map :
    {A B : Type 0} (f : A → B) (y : B) (xs : List A)
    → In y (map f xs) ↔ ((x : A) × In x xs × (y ≡ f x))
In-map f y [] = ((λ m. absurd m), (λ t. absurd t.1))
In-map f y (x ∷ xs) = (
  (λ m. elim m [
    | inl e ↦ (x, inl refl, e)
    | inr t ↦ let (z, i, e) = (In-map f y xs).0 t in (z, inr i, e)
  ]),
  (λ t. elim t.1 [ inl p ↦ inl (t.2 ∙ ap f p) | inr i ↦ inr ((In-map f y xs).1 (t.0, i, t.2)) ]),
)

In-rows_from :
    (a : String) (row : RelationRow) (conn : Replica)
    → In row (rows_from a conn) ↔ (In row conn.relations × ((row.from_id == a) ≡ true))
unfolding rows_from
In-rows_from a row conn =
    let sorted =
      In-sort (λ (r s : RelationRow). text_leb r.to_id s.to_id) row
        (select (λ r. r.from_id == a) conn.relations) in
    let kept = In-select (λ (r : RelationRow). r.from_id == a) row conn.relations in
    ((λ m. kept.0 (sorted.0 m)), (λ m. sorted.1 (kept.1 m)))

In-rows_to :
    (b : String) (row : RelationRow) (conn : Replica)
    → In row (rows_to b conn) ↔ (In row conn.relations × ((row.to_id == b) ≡ true))
unfolding rows_to
In-rows_to b row conn =
    let sorted =
      In-sort (λ (r s : RelationRow). text_leb r.from_id s.from_id) row
        (select (λ r. r.to_id == b) conn.relations) in
    let kept = In-select (λ (r : RelationRow). r.to_id == b) row conn.relations in
    ((λ m. kept.0 (sorted.0 m)), (λ m. sorted.1 (kept.1 m)))

abbrev pub edge : String → String → String → String → RelationRow
edge a b rel_type mode = record { from_id = a; to_id = b; rel_type = rel_type; binding_mode = mode }

module _ (a b rel_type mode : String) (conn : Replica) where
  abbrev this : RelationRow
  this = edge a b rel_type mode

  In-dependencies :
      In (dependency this) (map dependency (rows_from a conn)) ↔ In this conn.relations
  In-dependencies = (
    (λ m.
        let (x, i, e) = (In-map dependency (dependency this) (rows_from a conn)).0 m in
        let (stored, same) = (In-rows_from a x conn).0 i in
        let from : x.from_id ≡ a = (String_eq.same_iff x.from_id a).0 same in
        rw (sym from, ap (λ d. d.asset_id) e, ap (λ d. d.rel_type) e, ap (λ d. d.binding_mode) e)
          stored),
    (λ m.
        (In-map dependency (dependency this) (rows_from a conn)).1
          (this, (In-rows_from a this conn).1 (m, (String_eq.same_iff a a).1 refl), refl)),
  )

  In-dependents : In (dependent this) (dependents b conn) ↔ In this conn.relations
  unfolding dependents
  In-dependents = (
    (λ m.
        let (x, i, e) = (In-map dependent (dependent this) (rows_to b conn)).0 m in
        let (stored, same) = (In-rows_to b x conn).0 i in
        let to : x.to_id ≡ b = (String_eq.same_iff x.to_id b).0 same in
        rw (ap (λ d. d.asset_id) e, sym to, ap (λ d. d.rel_type) e, ap (λ d. d.binding_mode) e)
          stored),
    (λ m.
        (In-map dependent (dependent this) (rows_to b conn)).1
          (this, (In-rows_to b this conn).1 (m, (String_eq.same_iff b b).1 refl), refl)),
  )

abbrev dependencies_of : Option LocalResolve → List Dependency
dependencies_of none = []
dependencies_of (some o) = o.dependencies

resolve-dependencies :
    (a : String) (conn : Replica) (o : LocalResolve)
    → resolve a conn ≡ some o
    → o.dependencies ≡ map dependency (rows_from a conn)
unfolding resolve
resolve-dependencies a conn o e = elim (Option-cases (lookup a conn.assets)) [
  | inl missing ↦
      let gone : resolve a conn ≡ none = rw (resolve, missing) refl in
      absurd (ground (arith, gone, e))
  | inr (row, found) ↦
      let answer : dependencies_of (resolve a conn) ≡ map dependency (rows_from a conn) =
        rw (resolve, found) refl in
      sym (ap dependencies_of e) ∙ answer
]

-- Where the reader resolves an asset, it lists another among its dependencies, with a type and a mode,
-- exactly if the dependents of the other list the asset with these.
pub resolve-dependents :
    (a b rel_type mode : String) (conn : Replica) (o : LocalResolve)
    → resolve a conn ≡ some o
    → In (dependency (edge a b rel_type mode)) o.dependencies
      ↔ In (dependent (edge a b rel_type mode)) (dependents b conn)
resolve-dependents a b rel_type mode conn o e =
    let here = In-dependencies a b rel_type mode conn in
    let there = In-dependents a b rel_type mode conn in
    rw (resolve-dependencies a conn o e) ((λ m. there.1 (here.0 m)), (λ m. here.1 (there.0 m)))

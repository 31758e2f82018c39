-- ===== src/Sdk/Replica/Hydrated.antt =====
-- assetcore/sdk/replica.py: the crawl as a whole, and `hydrate_cache`.
use asset_core.Shared.{
  ◌↔◌, ℕ, zero, suc, ◌+◌, ◌<◌, ◌≡◌, inl, inr, refl, String, true, not, some, List, [], ◌∷◌, ◌++◌,
  map, length, arith, String_eq, contains_text, is_some, Bool-cases, Option-cases, In, In-append,
  length-append, length-map,
}
use asset_core.Shared.Dict.{Dict, lookup}
use asset_core.Sdk.Replica.{
  RelationRow, replica_row, Replica, empty, Central, Summary, unseen, store, crawl, list_all,
  hydrate_cache, set_defaults, add_all, get_asset,
}
use asset_core.Sdk.Replica.Queue.{In-select, deps, weight, weight-seen, weight-drop, length-unseen}
use asset_core.Sdk.Replica.Crawl.{
  Reaches, record_at, row_at, Crawling, drop-Crawling, skip-Crawling, add-Crawling, Crawling-start,
  crawled_rows, crawled_edges, EdgeOf,
}

module _ (central : Central) (seeds : Dict String Summary) where
  -- the queue has room in the fuel, with what is still to come
  crawl_runs :
      (U : List String)
      → ((a b : String)
          → In a U
          → is_some (central.resolve a) ≡ true
          → In b (deps central a)
          → In b U)
      → (fuel : ℕ) (queue seen : List String) (conn : Replica)
      → ((b : String) → In b queue → In b U)
      → length queue + weight central seen U < fuel
      → Crawling central seeds queue seen conn
      → (db : Replica) × (seen' : List String) × (crawl central seeds fuel queue seen conn
          ≡ some db)
        × Crawling central seeds [] seen' db
  unfolding crawl
  crawl_runs U whole zero queue seen conn inside room c = absurd (ground (arith, room))
  crawl_runs U whole (suc fuel) [] seen conn inside room c = (conn, seen, refl, c)
  crawl_runs U whole (suc fuel) (a ∷ queue) seen conn inside room c =
      elim (Bool-cases (contains_text a seen)) [
        | inl old ↦
            rw (crawl, old)
              (crawl_runs U whole fuel queue seen conn (λ b m. inside b (inr m))
                (omega (arith, room)) (drop-Crawling central seeds a queue seen conn old c))
        | inr new ↦ elim (Option-cases (central.resolve a)) [
          | inl missing ↦
              rw (crawl, new, missing)
                (crawl_runs U whole fuel queue (a ∷ seen) conn (λ b m. inside b (inr m))
                  (omega (arith, room, weight-seen central a seen U))
                  (skip-Crawling central seeds a queue seen conn missing new c))
          | inr (r, found) ↦
              rw (crawl, new, found)
                (crawl_runs U whole fuel (queue ++ unseen (a ∷ seen) (central.dependencies a))
                  (a ∷ seen) (store central seeds a r conn)
                  (λ b m.
                    elim ((In-append b queue (unseen (a ∷ seen) (central.dependencies a))).0 m) [
                      | inl q ↦ inside b (inr q)
                      | inr u ↦
                          whole a b (inside a (inl refl)) (rw found refl)
                            ((In-select (λ t. not (contains_text t (a ∷ seen))) b
                                (deps central a)).0
                              u).0
                    ])
                  (omega (
                    arith,
                    room,
                    weight-drop central a seen U (inside a (inl refl)) new,
                    length-append queue (unseen (a ∷ seen) (central.dependencies a)),
                    length-unseen central (a ∷ seen) (central.dependencies a),
                  ))
                  (add-Crawling central seeds a r queue seen conn found c))
        ]
      ]

  crawl-Exact :
      (U : List String)
      → ((a : String) → In a (map (λ e. e.0) seeds) → In a U)
      → ((a b : String)
          → In a U
          → is_some (central.resolve a) ≡ true
          → In b (deps central a)
          → In b U)
      → (fuel : ℕ) → length seeds + weight central [] U < fuel
      → (db : Replica) × (crawl central seeds fuel (map (λ e. e.0) seeds) [] empty ≡ some db)
        × ((a : String) → Reaches central seeds a → lookup a db.assets ≡ row_at central seeds a)
        × ((a : String) → is_some (lookup a db.assets) ≡ true → Reaches central seeds a)
        × ((row : RelationRow)
            → In row db.relations
              ↔ ((a : String) × Reaches central seeds a × EdgeOf central seeds row a))
  crawl-Exact U started whole fuel room =
      let (db, seen, e, c) =
        crawl_runs U whole fuel (map (λ e. e.0) seeds) [] empty started
          (omega (arith, room, length-map (λ (e : String × Summary). e.0) seeds))
          (Crawling-start central seeds) in
      let rows = crawled_rows central seeds seen db c in
      (db, e, rows.0, rows.1, crawled_edges central seeds seen db c)

abbrev pub seeds_of : List Summary → List Summary → Dict String Summary
seeds_of authored recent = set_defaults recent (add_all authored [])

get_asset-row_at :
    (central : Central) (seeds : Dict String Summary) (a : String) (db : Replica)
    → lookup a db.assets ≡ row_at central seeds a
    → get_asset a db ≡ record_at central seeds a
unfolding get_asset replica_row
get_asset-row_at central seeds a db e = elim (Option-cases (central.resolve a)) [
  | inl missing ↦ rw (get_asset, e, missing) refl
  | inr (r, found) ↦ rw (get_asset, e, found) refl
]

get_asset_found :
    (a : String) (db : Replica)
    → is_some (get_asset a db) ≡ true
    → is_some (lookup a db.assets) ≡ true
unfolding get_asset
get_asset_found a db found = elim (Option-cases (lookup a db.assets)) [
  | inl e ↦ absurd (ground (arith, e, found))
  | inr (row, e) ↦ rw e refl
]

hydrate_cache-crawl :
    (central : Central) (project now_iso : String) (authored recent : List Summary) (db : Replica)
    → (pages fuel : ℕ) → list_all central.authored pages ≡ some authored
    → list_all central.recent pages ≡ some recent
    → crawl central
        (seeds_of authored recent)
        fuel
        (map (λ e. e.0) (seeds_of authored recent))
        []
        empty
      ≡ some db
    → hydrate_cache central project now_iso pages fuel
      ≡ some (record db { hydrated_at = some now_iso; project = some project })
unfolding hydrate_cache
hydrate_cache-crawl central project now_iso authored recent db pages fuel a_pages r_pages e =
    rw (hydrate_cache, a_pages, r_pages, e) refl

-- Let the listings of the two seed queries end within the page fuel, let every seed be among some ids
-- which hold the dependencies of each of them that resolves, and let the fuel be more than the seeds
-- and the dependencies of these ids together. Then the hydration ends with a replica that carries
-- the given time. `get_asset` answers there, for what can be reached from a seed through the
-- dependencies of assets that resolve, the record of its resolution, which takes what is missing from
-- its seed entry, and None if it does not resolve. What `get_asset` finds can be so reached. The
-- stored relations are, each with the mode "float", those from an asset that resolves and can be so
-- reached to an id and type that `dependencies` of the client lists for it.
pub hydrate_cache-Exact :
    (central : Central) (project now_iso : String) (authored recent : List Summary)
    (U : List String)
    → (pages fuel : ℕ) → list_all central.authored pages ≡ some authored
    → list_all central.recent pages ≡ some recent
    → ((a : String) → In a (map (λ e. e.0) (seeds_of authored recent)) → In a U)
    → ((a b : String)
        → In a U
        → is_some (central.resolve a) ≡ true
        → In b (deps central a)
        → In b U)
    → length (seeds_of authored recent) + weight central [] U < fuel
    → (db : Replica) × (hydrate_cache central project now_iso pages fuel ≡ some db)
      × (db.hydrated_at ≡ some now_iso)
      × ((a : String)
          → Reaches central (seeds_of authored recent) a
          → get_asset a db ≡ record_at central (seeds_of authored recent) a)
      × ((a : String)
          → is_some (get_asset a db) ≡ true
          → Reaches central (seeds_of authored recent) a)
      × ((row : RelationRow)
          → In row db.relations ↔ (
              (a : String) × Reaches central (seeds_of authored recent) a
              × EdgeOf central (seeds_of authored recent) row a))
hydrate_cache-Exact central project now_iso authored recent U pages fuel a_pages r_pages started
      whole room =
    let (db, e, rows, only, edges) =
      crawl-Exact central (seeds_of authored recent) U started whole fuel room in
    let stored : Replica = record db { hydrated_at = some now_iso; project = some project } in
    (
      stored,
      hydrate_cache-crawl central project now_iso authored recent db pages fuel a_pages r_pages e,
      refl,
      (λ a r. get_asset-row_at central (seeds_of authored recent) a stored (rows a r)),
      (λ a found. only a (get_asset_found a stored found)),
      edges,
    )

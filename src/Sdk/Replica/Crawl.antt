-- ===== src/Sdk/Replica/Crawl.antt =====
-- assetcore/sdk/replica.py: what holds in each round of the crawl of a hydration.
use mathlib.Core.Option
use asset_core.Shared.{
  ap, ◌↔◌, Option, ◌≡◌, ◌⊎◌, inl, inr, refl, sym, String, true, false, not, none, some, List, [],
  ◌∷◌, ◌++◌, map, arith, ◌==◌, String_eq, if◌then◌else◌, contains_text, is_some, Bool-cases, In,
  In-append,
}
use asset_core.Shared.Dict.{Dict, lookup}
use asset_core.Sdk.Replica.{
  RelationRow, upsert_asset, ReplicaRow, AssetRecord, replica_row, record_of, Replica, empty,
  Central, Summary, Resolved, unseen, store,
}
use asset_core.Sdk.Replica.Queue.{
  In-select, contains_text-cons, seen_more, seen_self, deps, store-row,
}
use asset_core.Sdk.Replica.Related.{float_edge, relate_all-rows}

module _ (central : Central) (seeds : Dict String Summary) where
  -- the record of an id that resolves
  abbrev pub record_at : String → Option AssetRecord
  record_at a = Option.map (λ r. record_of a r (lookup a seeds)) (central.resolve a)

  abbrev pub row_at : String → Option ReplicaRow
  row_at a = Option.map (λ r. replica_row (record_of a r (lookup a seeds))) (central.resolve a)

  -- what can be reached from the seeds through the dependencies of assets that resolve
  pub data Reaches : String → Type 0 where
    seed : (a : String) → In a (map (λ e. e.0) seeds) → Reaches a
    step :
        (a b : String)
        → Reaches a
        → is_some (central.resolve a) ≡ true
        → In b (deps central a)
        → Reaches b

  -- an edge from an asset that resolves, to what the client answers
  abbrev pub EdgeOf : RelationRow → String → Type 0
  EdgeOf row a =
      (is_some (central.resolve a) ≡ true)
      × ((d : String × String) × In d (central.dependencies a) × (row ≡ float_edge a d))

  -- what holds before each round, of the queue, the seen set and the replica
  pub record Crawling (queue seen : List String) (conn : Replica) : Type 0 where
    queued : (a : String) → In a queue → Reaches a
    reached : (a : String) → contains_text a seen ≡ true → Reaches a
    rows : (a : String) → lookup a conn.assets ≡ (if contains_text a seen then row_at a else none)
    closed :
        (a b : String)
        → contains_text a seen ≡ true
        → is_some (central.resolve a) ≡ true
        → In b (deps central a)
        → (contains_text b seen ≡ true) ⊎ In b queue
    edges :
        (row : RelationRow)
        → In row conn.relations ↔ ((a : String) × (contains_text a seen ≡ true) × EdgeOf row a)
    started :
        (a : String) → In a (map (λ e. e.0) seeds) → (contains_text a seen ≡ true) ⊎ In a queue

  -- an id that is taken off the queue is seen afterwards
  taken :
      (a b : String) (queue seen seen' : List String)
      → ((c : String) → contains_text c seen ≡ true → contains_text c seen' ≡ true)
      → contains_text a seen' ≡ true
      → (contains_text b seen ≡ true) ⊎ In b (a ∷ queue)
      → (contains_text b seen' ≡ true) ⊎ In b queue
  taken a b queue seen seen' more at (inl s) = inl (more b s)
  taken a b queue seen seen' more at (inr (inl p)) = inl (rw p at)
  taken a b queue seen seen' more at (inr (inr m)) = inr m

  pub drop-Crawling :
      (a : String) (queue seen : List String) (conn : Replica)
      → contains_text a seen ≡ true
      → Crawling (a ∷ queue) seen conn
      → Crawling queue seen conn
  drop-Crawling a queue seen conn at c = record {
    queued = λ b m. c.queued b (inr m);
    reached = c.reached;
    rows = c.rows;
    closed = λ x b s r d. taken a b queue seen seen (λ y t. t) at (c.closed x b s r d);
    edges = c.edges;
    started = λ b m. taken a b queue seen seen (λ y t. t) at (c.started b m);
  }

  -- the seen set with one more
  reached-more :
      (a : String) (queue seen : List String) (conn : Replica)
      → Crawling (a ∷ queue) seen conn
      → (b : String) → contains_text b (a ∷ seen) ≡ true
      → Reaches b
  reached-more a queue seen conn c b e = elim (Bool-cases (a == b)) [
    | inl same ↦
        let p : a ≡ b = (String_eq.same_iff a b).0 same in rw (sym p) (c.queued a (inl refl))
    | inr other ↦ c.reached b (rw (contains_text-cons a b seen, other) at e)
  ]

  -- the same, when the rest of the queue is kept in another
  taken_first :
      (a b : String) (queue queue' seen : List String)
      → ((c : String) → In c queue → In c queue')
      → (contains_text b seen ≡ true) ⊎ In b (a ∷ queue)
      → (contains_text b (a ∷ seen) ≡ true) ⊎ In b queue'
  taken_first a b queue queue' seen kept t =
      elim (taken a b queue seen (a ∷ seen) (λ y t. seen_more a y seen t) (seen_self a seen) t) [
        | inl s ↦ inl s
        | inr m ↦ inr (kept b m)
      ]

  -- an id is seen for the first time
  visit-Crawling :
      (a : String) (queue queue' seen : List String) (conn conn' : Replica)
      → Crawling (a ∷ queue) seen conn
      → ((b : String) → In b queue → In b queue')
      → ((b : String) → In b queue' → Reaches b)
      → ((b : String) → lookup b conn'.assets ≡ (if a == b then row_at b else lookup b conn.assets))
      → ((row : RelationRow) → In row conn'.relations ↔ (In row conn.relations ⊎ EdgeOf row a))
      → (is_some (central.resolve a) ≡ true
          → (b : String) → In b (deps central a)
          → (contains_text b (a ∷ seen) ≡ true) ⊎ In b queue')
      → Crawling queue' (a ∷ seen) conn'
  visit-Crawling a queue queue' seen conn conn' c kept fresh stored linked followed = record {
    queued = fresh;
    reached = reached-more a queue seen conn c;
    rows = λ b.
        rw (stored b, contains_text-cons a b seen)
          (elim (Bool-cases (a == b)) [
            | inl same ↦ rw same refl
            | inr other ↦ rw other (c.rows b)
          ]);
    closed = λ x b s r d. elim (Bool-cases (a == x)) [
      | inl same ↦ let p : a ≡ x = (String_eq.same_iff a x).0 same in followed (rw p r) b (rw p d)
      | inr other ↦
          taken_first a b queue queue' seen kept
            (c.closed x b (rw (contains_text-cons a x seen, other) at s) r d)
    ];
    edges = λ row. (
      (λ m. elim ((linked row).0 m) [
        | inl i ↦ let (b, s, t) = (c.edges row).0 i in (b, seen_more a b seen s, t)
        | inr t ↦ (a, seen_self a seen, t)
      ]),
      (λ t. elim (Bool-cases (a == t.0)) [
        | inl same ↦
            let p : a ≡ t.0 = (String_eq.same_iff a t.0).0 same in (linked row).1 (inr (rw p t.2))
        | inr other ↦
            (linked row).1
              (inl ((c.edges row).1 (t.0, rw (contains_text-cons a t.0 seen, other) at t.1, t.2)))
      ]),
    );
    started = λ b m. taken_first a b queue queue' seen kept (c.started b m);
  }

  pub skip-Crawling :
      (a : String) (queue seen : List String) (conn : Replica)
      → central.resolve a ≡ none
      → contains_text a seen ≡ false
      → Crawling (a ∷ queue) seen conn
      → Crawling queue (a ∷ seen) conn
  skip-Crawling a queue seen conn e fresh c =
      visit-Crawling a queue queue seen conn conn c (λ b m. m) (λ b m. c.queued b (inr m))
        (λ b. elim (Bool-cases (a == b)) [
          | inl same ↦
              let p : a ≡ b = (String_eq.same_iff a b).0 same in
              rw (same, c.rows b, sym p, fresh, e) refl
          | inr other ↦ rw other refl
        ])
        (λ row. (
          (λ m. inl m),
          (λ s. elim s [ inl m ↦ m | inr t ↦ let q = t.0 in absurd (ground (arith, e, q)) ]),
        ))
        (ground (arith, e))

  pub add-Crawling :
      (a : String) (r : Resolved) (queue seen : List String) (conn : Replica)
      → central.resolve a ≡ some r
      → Crawling (a ∷ queue) seen conn
      → Crawling
          (queue ++ unseen (a ∷ seen) (central.dependencies a))
          (a ∷ seen)
          (store central seeds a r conn)
  unfolding upsert_asset
  add-Crawling a r queue seen conn e c =
      visit-Crawling a queue (queue ++ unseen (a ∷ seen) (central.dependencies a)) seen conn
        (store central seeds a r conn) c
        (λ b m. (In-append b queue (unseen (a ∷ seen) (central.dependencies a))).1 (inl m))
        (λ b m. elim ((In-append b queue (unseen (a ∷ seen) (central.dependencies a))).0 m) [
          | inl q ↦ c.queued b (inr q)
          | inr u ↦
              step a b (c.queued a (inl refl)) (rw e refl)
                ((In-select (λ t. not (contains_text t (a ∷ seen))) b (deps central a)).0 u).0
        ])
        (λ b. elim (Bool-cases (a == b)) [
          | inl same ↦
              let p : a ≡ b = (String_eq.same_iff a b).0 same in
              rw (store-row central seeds a b r conn, same, sym p, e) refl
          | inr other ↦ rw (store-row central seeds a b r conn, other) refl
        ])
        (λ row.
          let rows =
            relate_all-rows a (central.dependencies a)
              (upsert_asset (record_of a r (lookup a seeds)) conn) row
              (λ x m. let (b, s, t) = (c.edges x).0 m in ap (λ y. y.binding_mode) t.1.2) in
          (
            (λ m. elim (rows.0 m) [ inl i ↦ inl i | inr t ↦ inr (rw e refl, t) ]),
            (λ m. rows.1 (elim m [ inl i ↦ inl i | inr t ↦ inr t.1 ])),
          ))
        (λ found b d. elim (Bool-cases (contains_text b (a ∷ seen))) [
          | inl s ↦ inl s
          | inr new ↦ inr (
              (In-append b queue (unseen (a ∷ seen) (central.dependencies a))).1 (
                inr (
                  (In-select (λ t. not (contains_text t (a ∷ seen))) b (deps central a)).1
                    (d, rw new refl))))
        ])

  pub Crawling-start : Crawling (map (λ e. e.0) seeds) [] empty
  unfolding contains_text lookup
  Crawling-start = record {
    queued = seed;
    reached = λ a e. ground (arith, e);
    rows = λ a. refl;
    closed = λ a b s r d. ground (arith, s);
    edges = λ row. ((λ m. absurd m), (λ t. let s = t.1 in absurd (ground (arith, s))));
    started = λ a m. inr m;
  }

  reaches_seen :
      (seen : List String) (db : Replica)
      → Crawling [] seen db
      → (a : String) → Reaches a
      → contains_text a seen ≡ true
  reaches_seen seen db c a (seed a' m) = elim (c.started a' m) [ inl s ↦ s | inr q ↦ absurd q ]
  reaches_seen seen db c a (step b a' from r d) =
      elim (c.closed b a' (reaches_seen seen db c b from) r d) [ inl s ↦ s | inr q ↦ absurd q ]

  pub crawled_rows :
      (seen : List String) (db : Replica)
      → Crawling [] seen db
      → ((a : String) → Reaches a → lookup a db.assets ≡ row_at a)
        × ((a : String) → is_some (lookup a db.assets) ≡ true → Reaches a)
  crawled_rows seen db c = (
    (λ a r. rw (c.rows a, reaches_seen seen db c a r) refl),
    (λ a stored. elim (Bool-cases (contains_text a seen)) [
      | inl s ↦ c.reached a s
      | inr new ↦ let h = rw (c.rows a, new) at stored in absurd (ground (arith, h))
    ]),
  )

  pub crawled_edges :
      (seen : List String) (db : Replica)
      → Crawling [] seen db
      → (row : RelationRow) → In row db.relations ↔ ((a : String) × Reaches a × EdgeOf row a)
  crawled_edges seen db c row = (
    (λ m. let (a, s, t) = (c.edges row).0 m in (a, c.reached a s, t)),
    (λ t. (c.edges row).1 (t.0, reaches_seen seen db c t.0 t.1, t.2)),
  )

-- ===== src/Sdk/Outbox/Counts.antt =====
-- The counters: what a replay and a retry report, and how many rows have each status.
use asset_core.Shared.{
  ℕ, suc, ◌+◌, ◌≡◌, ◌⊎◌, refl, sym, ap, ◌∙◌, inl, inr, Bool, none, List, [], ◌∷◌, map, select,
  length, length-map, if◌then◌else◌, arith,
}
use asset_core.Shared.Sort.{sort, insert_sorted}
use asset_core.Sdk.Outbox.{
  OutboxEntry, Outbox, Client, Status, pending, done, failed, Status_beq, Outcome, replayed,
  failed_now, skipped, held, outcomes_of, count, list_status, by_id, retry_failed, replay_outbox,
  replay_trace, Counters, no_counts,
}
use asset_core.Sdk.Outbox.Held.{Results}
use asset_core.Sdk.Outbox.Replay.{bump, tally, replay_outbox_lem}

module _ {A : Type 0} (le : A → A → Bool) where
  length-insert_sorted : (x : A) (ys : List A) → length (insert_sorted le x ys) ≡ suc (length ys)
  unfolding insert_sorted
  length-insert_sorted x [] = refl
  length-insert_sorted x (y ∷ ys) = ground (arith, length-insert_sorted x ys)

  length-sort : (xs : List A) → length (sort le xs) ≡ length xs
  unfolding sort
  length-sort [] = refl
  length-sort (x ∷ xs) = length-insert_sorted x (sort le xs) ∙ ap suc (length-sort xs)

outcomes_total :
    (os : Results)
    → outcomes_of replayed os
        + outcomes_of failed_now os
        + outcomes_of skipped os
        + outcomes_of held os
      ≡ length os
outcomes_total [] = refl
outcomes_total ((e, replayed) ∷ os) = omega (arith, outcomes_total os)
outcomes_total ((e, failed_now) ∷ os) = omega (arith, outcomes_total os)
outcomes_total ((e, skipped) ∷ os) = omega (arith, outcomes_total os)
outcomes_total ((e, held) ∷ os) = omega (arith, outcomes_total os)

-- a tally from some counters
record Tallied (os : Results) (n m : Counters) : Type 0 where
  replays : m.replayed ≡ n.replayed + outcomes_of replayed os
  fails : m.failed ≡ n.failed + outcomes_of failed_now os
  skips : m.skipped ≡ n.skipped + outcomes_of skipped os
  holds : m.held ≡ n.held + outcomes_of held os

tally-Tallied : (os : Results) (n : Counters) → Tallied os n (tally os n)
tally-Tallied [] n = record {
  replays = omega arith;
  fails = omega arith;
  skips = omega arith;
  holds = omega arith;
}
tally-Tallied ((e, o) ∷ os) n = by_outcome o (tally-Tallied os (bump o n))
  where
    by_outcome :
        (o : Outcome)
        → Tallied os (bump o n) (tally os (bump o n))
        → Tallied ((e, o) ∷ os) n (tally os (bump o n))
    by_outcome replayed t = record {
      replays = omega (arith, t.replays);
      fails = t.fails;
      skips = t.skips;
      holds = t.holds;
    }
    by_outcome failed_now t = record {
      replays = t.replays;
      fails = omega (arith, t.fails);
      skips = t.skips;
      holds = t.holds;
    }
    by_outcome skipped t = record {
      replays = t.replays;
      fails = t.fails;
      skips = omega (arith, t.skips);
      holds = t.holds;
    }
    by_outcome held t = record {
      replays = t.replays;
      fails = t.fails;
      skips = t.skips;
      holds = omega (arith, t.holds);
    }

-- The four counters that a replay returns are the numbers of the pending entries that it has replayed,
-- that have failed, that it has skipped and that it has held, and they add up to the number of the
-- pending rows.
pub replay_outbox-counts :
    {C : Type 0} (client : Client C) (conn : Outbox) (c : C)
    → (let n = (replay_outbox client conn c).0 in
        let os = (replay_trace client conn c).0 in
        (n.replayed ≡ outcomes_of replayed os)
        × (n.failed ≡ outcomes_of failed_now os)
        × (n.skipped ≡ outcomes_of skipped os)
        × (n.held ≡ outcomes_of held os)
        × (n.replayed + n.failed + n.skipped + n.held ≡ count pending conn))
unfolding count list_status Status_beq
replay_outbox-counts client conn c =
    let os = (replay_trace client conn c).0 in
    let (entries, held_behind, counted) = replay_outbox_lem client conn c in
    let t = tally-Tallied os no_counts in
    let total =
      outcomes_total os
      ∙ sym (length-map (λ (x : OutboxEntry × Outcome). x.0) os)
      ∙ ap length entries
      ∙ length-sort by_id (select (λ r. Status_beq r.status pending) conn.rows) in
    rw counted (
      omega (arith, t.replays),
      omega (arith, t.fails),
      omega (arith, t.skips),
      omega (arith, t.holds),
      omega (arith, total, t.replays, t.fails, t.skips, t.holds),
    )

with_status : Status → List OutboxEntry → ℕ
with_status status rows = length (select (λ r. Status_beq r.status status) rows)

abbrev retried : OutboxEntry → OutboxEntry
retried r = if Status_beq r.status failed then record r { status = pending; error = none } else r

Status-cases : (s : Status) → (s ≡ pending) ⊎ ((s ≡ done) ⊎ (s ≡ failed))
Status-cases pending = inl refl
Status-cases done = inr (inl refl)
Status-cases failed = inr (inr refl)

counts-retried :
    (rows : List OutboxEntry)
    → (with_status failed (map retried rows) ≡ 0)
      × (with_status pending (map retried rows)
          ≡ with_status pending rows + with_status failed rows)
      × (with_status done (map retried rows) ≡ with_status done rows)
unfolding Status_beq with_status
counts-retried [] = (refl, refl, refl)
counts-retried (r ∷ rows) = elim (Status-cases r.status) [
  | inl e ↦ ground (arith, counts-retried rows)
  | inr (inl e) ↦ ground (arith, counts-retried rows)
  | inr (inr e) ↦ ground (arith, counts-retried rows)
]

-- A retry reports the number of the failed rows, and makes them pending: afterwards no row is failed,
-- the pending rows are the pending and the failed ones of before, and as many rows are done.
pub retry_failed-counts :
    (conn : Outbox)
    → ((retry_failed conn).0 ≡ count failed conn)
      × (count failed (retry_failed conn).1 ≡ 0)
      × (count pending (retry_failed conn).1 ≡ count pending conn + count failed conn)
      × (count done (retry_failed conn).1 ≡ count done conn)
unfolding retry_failed count Status_beq with_status
retry_failed-counts conn = let (f, p, d) = counts-retried conn.rows in (refl, f, p, d)

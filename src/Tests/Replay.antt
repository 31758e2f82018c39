-- ===== src/Tests/Replay.antt =====
-- A replay against a service that refuses a rename of one asset.
use asset_core.Shared.{ℕ, ◌+◌, ◌≡◌, refl, none, some, [], ◌∷◌, map, String_eq, ℕ_eq}
use asset_core.Shared.Sort.{sort, insert_sorted}
use asset_core.Sdk.Outbox.{
  Status_beq, pending, Write, rename, declare, Outbox, empty, enqueue, Client, returned, threw,
  Reply, list_status, replay_outbox, replay_trace, replay_loop, count_loop, no_counts, replayed,
  failed_now, held, attempt, already_applied, dispatch, conclude, is_blocked, block, mark_done,
  mark_failed, mark, is_duplicate_edge_error, skipped, outcomes_of, count, retry_failed, done,
  failed,
}
use asset_core.Sdk.Outbox.Counts.{replay_outbox-counts, retry_failed-counts}
use asset_core.Sdk.Outbox.Held.{IsHeldBehind}
use asset_core.Sdk.Outbox.Replay.{tally, replay_outbox_lem}
use asset_core.Sdk.Outbox.Table.{statuses, settle_all, replay_outbox-statuses}

-- a service that renames nothing
abbrev frozen : Client ℕ
frozen = record {
  resolve = λ a c. (returned none, c);
  get_source = λ a c. (returned none, c);
  send = λ p c. (refuse p, c);
}
  where
    refuse : Write → Reply (Unit {0})
    refuse (rename _ _ _ _) = threw (record { response = none; shown = "no" })
    refuse _ = returned tt

abbrev queued : Outbox
queued =
    (enqueue (rename "a" "one" "bob" none) (some "a")
      (enqueue (declare (some "b") "mesh" "bob" none) (some "b")
        (enqueue (rename "a" "two" "bob" none) (some "a") empty).1).1).1

-- the second rename of the asset waits behind the first
run_frozen : map (λ x. x.1) (replay_trace frozen queued 0).0 ≡ failed_now ∷ replayed ∷ held ∷ []
unfolding replay_trace replay_loop attempt already_applied dispatch conclude is_blocked block
    mark_failed mark_done mark list_status Status_beq sort insert_sorted enqueue
    is_duplicate_edge_error
run_frozen = refl

-- the counters of that replay
count_frozen :
    (replay_outbox frozen queued 0).0 ≡ record { replayed = 1; failed = 1; skipped = 0; held = 1 }
unfolding replay_outbox count_loop already_applied dispatch is_blocked block mark_failed mark_done
    mark list_status Status_beq sort insert_sorted enqueue is_duplicate_edge_error
count_frozen = refl

replay_outbox_lem_example :
    (map (λ x. x.0) (replay_trace frozen queued 0).0 ≡ list_status pending queued)
    × IsHeldBehind [] (replay_trace frozen queued 0).0
    × ((replay_outbox frozen queued 0).0 ≡ tally (replay_trace frozen queued 0).0 no_counts)
replay_outbox_lem_example = replay_outbox_lem frozen queued 0

replay_outbox-statuses_example :
    statuses (replay_outbox frozen queued 0).1.rows
    ≡ settle_all (replay_trace frozen queued 0).0 (statuses queued.rows)
replay_outbox-statuses_example = replay_outbox-statuses frozen queued 0

replay_outbox-counts_example :
    (let n = (replay_outbox frozen queued 0).0 in
      let os = (replay_trace frozen queued 0).0 in
      (n.replayed ≡ outcomes_of replayed os)
      × (n.failed ≡ outcomes_of failed_now os)
      × (n.skipped ≡ outcomes_of skipped os)
      × (n.held ≡ outcomes_of held os)
      × (n.replayed + n.failed + n.skipped + n.held ≡ count pending queued))
replay_outbox-counts_example = replay_outbox-counts frozen queued 0

retry_failed-counts_example :
    (let after = (replay_outbox frozen queued 0).1 in
      ((retry_failed after).0 ≡ count failed after)
      × (count failed (retry_failed after).1 ≡ 0)
      × (count pending (retry_failed after).1 ≡ count pending after + count failed after)
      × (count done (retry_failed after).1 ≡ count done after))
retry_failed-counts_example = retry_failed-counts (replay_outbox frozen queued 0).1

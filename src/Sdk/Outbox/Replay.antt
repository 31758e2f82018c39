-- ===== src/Sdk/Outbox/Replay.antt =====
-- What a replay does to the order of the writes, and what it counts.
use asset_core.Shared.{
  suc, String, ◌≡◌, ◌⊎◌, inl, inr, refl, sym, ap, ◌∙◌, false, List, [], ◌∷◌, map, String_eq, ℕ_eq,
  Bool-cases, if◌then◌else◌,
}
use asset_core.Sdk.Outbox.{
  OutboxEntry, Outbox, Client, Reply, returned, threw, Outcome, replayed, failed_now, skipped, held,
  is_blocked, after_outcome, already_applied, dispatch, conclude, attempt, mark_done, mark_failed,
  replay_loop, replay_trace, replay_outbox, count_loop, Counters, no_counts, Failure, list_status,
  is_duplicate_edge_error, pending,
}
use asset_core.Sdk.Outbox.Held.{
  Results, IsHeldBehind, Agrees, none_blocked, replay_loop-IsHeldBehind, replay_loop-entries,
  replay_loop_blocked, replay_loop_free,
}

-- the counter that an outcome raises
abbrev pub bump : Outcome → Counters → Counters
bump replayed n = record n { replayed = suc n.replayed }
bump failed_now n = record n { failed = suc n.failed }
bump skipped n = record n { skipped = suc n.skipped }
bump held n = record n { held = suc n.held }

abbrev pub tally : Results → Counters → Counters
tally [] n = n
tally ((e, o) ∷ os) n = tally os (bump o n)

Reply-cases :
    {A : Type 0} (r : Reply A) → ((a : A) × (r ≡ returned a)) ⊎ ((x : Failure) × (r ≡ threw x))
Reply-cases (returned a) = inl (a, refl)
Reply-cases (threw x) = inr (x, refl)

module _ {C : Type 0} (client : Client C) where
  conclude-returned :
      (e : OutboxEntry) (p : Reply (Unit {0}) × C) (conn : Outbox) (u : Unit {0})
      → p.0 ≡ returned u
      → conclude client e p conn ≡ (replayed, mark_done e.id conn, p.1)
  unfolding conclude
  conclude-returned e (returned v, c) conn u r = refl
  conclude-returned e (threw x, c) conn u r = cc

  conclude-threw :
      (e : OutboxEntry) (p : Reply (Unit {0}) × C) (conn : Outbox) (x : Failure)
      → p.0 ≡ threw x
      → conclude client e p conn ≡ (
          if is_duplicate_edge_error client x
          then (skipped, mark_done e.id conn, p.1)
          else (failed_now, mark_failed e.id x.shown conn, p.1))
  unfolding conclude
  conclude-threw e (returned v, c) conn x r = cc
  conclude-threw e (threw y, c) conn x r = let same : y ≡ x = cc in rw (sym same) refl

  -- One round of the counting loop, for an entry that is not blocked.
  count_loop-attempt :
      (e : OutboxEntry) (entries : List OutboxEntry) (fs : List String) (n : Counters)
      (conn : Outbox) (c : C)
      → is_blocked e.asset_id fs ≡ false
      → (let (o, conn', c') = attempt client e conn c in
          count_loop client (e ∷ entries) fs n conn c
          ≡ count_loop client entries (after_outcome o e.asset_id fs) (bump o n) conn' c')
  unfolding count_loop attempt conclude
  count_loop-attempt e entries fs n conn c free =
      elim (Bool-cases (already_applied client e.payload c).0) [
        | inl applied ↦ rw (count_loop, free, applied) refl
        | inr missing ↦
            elim (Reply-cases
              (dispatch client e.payload (already_applied client e.payload c).1).0) [
                | inl (u, r) ↦
                    rw (count_loop, free, missing, r)
                      (rw
                        (conclude-returned e
                          (dispatch client e.payload (already_applied client e.payload c).1) conn u
                          r)
                        refl)
                | inr (x, r) ↦ elim (Bool-cases (is_duplicate_edge_error client x)) [
                  | inl duplicate ↦
                      rw (count_loop, free, missing, r, duplicate)
                        (rw
                          (
                            conclude-threw e
                                (dispatch client e.payload (already_applied client e.payload c).1)
                                conn x r,
                            duplicate,
                          )
                          refl)
                  | inr other ↦
                      rw (count_loop, free, missing, r, other)
                        (rw
                          (
                            conclude-threw e
                                (dispatch client e.payload (already_applied client e.payload c).1)
                                conn x r,
                            other,
                          )
                          refl)
                ]
              ]
      ]

  count_loop-replay_loop :
      (entries : List OutboxEntry) (fs : List String) (n : Counters) (conn : Outbox) (c : C)
      → (let r = replay_loop client entries fs conn c in
          count_loop client entries fs n conn c ≡ (tally r.0 n, r.1, r.2))
  unfolding count_loop replay_loop
  count_loop-replay_loop [] fs n conn c = refl
  count_loop-replay_loop (e ∷ entries) fs n conn c = elim (Bool-cases (is_blocked e.asset_id fs)) [
    | inl blocked ↦
        rw (replay_loop_blocked client e entries fs conn c blocked)
          (rw (count_loop, blocked) (count_loop-replay_loop entries fs (bump held n) conn c))
    | inr free ↦
        let (o, conn', c') = attempt client e conn c in
        rw (replay_loop_free client e entries fs conn c free) (
          count_loop-attempt e entries fs n conn c free
          ∙ count_loop-replay_loop entries (after_outcome o e.asset_id fs) (bump o n) conn' c')
  ]

  -- the replay counts what its trace lists, and leaves what the trace leaves
  pub replay_outbox-replay_trace :
      (conn : Outbox) (c : C)
      → (let r = replay_trace client conn c in
          replay_outbox client conn c ≡ (tally r.0 no_counts, r.1, r.2))
  unfolding replay_outbox replay_trace
  replay_outbox-replay_trace conn c =
      count_loop-replay_loop (list_status pending conn) [] no_counts conn c

  -- A replay gives each pending entry one outcome, in the order of the ids, and holds an entry exactly
  -- if an earlier entry of the same, non-empty asset has failed in this replay; it returns the counts
  -- of these outcomes.
  pub replay_outbox_lem :
      (conn : Outbox) (c : C)
      → (map (λ x. x.0) (replay_trace client conn c).0 ≡ list_status pending conn)
        × IsHeldBehind [] (replay_trace client conn c).0
        × ((replay_outbox client conn c).0 ≡ tally (replay_trace client conn c).0 no_counts)
  unfolding replay_trace is_blocked Agrees
  replay_outbox_lem conn c = (
    replay_loop-entries client (list_status pending conn) [] conn c,
    replay_loop-IsHeldBehind client (list_status pending conn) [] [] conn c
        (λ asset. (λ e. absurd (let x = none_blocked asset in cc), λ b. absurd b.1)),
    ap (λ r. r.0) (replay_outbox-replay_trace conn c),
  )

-- ===== src/Sdk/Outbox/Table.antt =====
-- What a replay leaves in the table.
use asset_core.Shared.{
  String, ℕ, ◌≡◌, refl, sym, ap, ◌∙◌, inl, inr, Option, none, some, List, [], ◌∷◌, map, ◌==◌, ℕ_eq,
  if◌then◌else◌, Bool-cases,
}
use asset_core.Sdk.Outbox.{
  OutboxEntry, Outbox, Client, Reply, returned, threw, Status, pending, done, failed, Outcome,
  replayed, failed_now, skipped, held, is_blocked, after_outcome, already_applied, dispatch,
  conclude, attempt, replay_loop, replay_outbox, replay_trace, list_status, is_duplicate_edge_error,
  mark, mark_done, mark_failed, update_row,
}
use asset_core.Sdk.Outbox.Held.{Results, replay_loop_blocked, replay_loop_free}
use asset_core.Sdk.Outbox.Replay.{replay_outbox-replay_trace}

-- the rows, but for the texts of their errors
abbrev pub statuses : List OutboxEntry → List OutboxEntry
statuses [] = []
statuses (r ∷ rows) = record r { error = none } ∷ statuses rows

-- the status that an outcome leaves
abbrev pub settled : Outcome → Status → Status
settled replayed s = done
settled skipped s = done
settled failed_now s = failed
settled held s = s

abbrev pub settle : ℕ → Outcome → List OutboxEntry → List OutboxEntry
settle i o [] = []
settle i o (r ∷ l) =
    record r { status = if r.id == i then settled o r.status else r.status } ∷ settle i o l

abbrev pub settle_all : Results → List OutboxEntry → List OutboxEntry
settle_all [] l = l
settle_all ((e, o) ∷ os) l = settle_all os (settle e.id o l)

settle-held : (i : ℕ) (l : List OutboxEntry) → settle i held l ≡ l
settle-held i [] = refl
settle-held i (r ∷ l) = elim (Bool-cases (r.id == i)) [
  | inl here ↦ rw here (ap (◌∷◌ r) (settle-held i l))
  | inr there ↦ rw there (ap (◌∷◌ r) (settle-held i l))
]

statuses-update_row :
    (i : ℕ) (o : Outcome) (new : Status) (error : Option String) (rows : List OutboxEntry)
    → ((s : Status) → settled o s ≡ new)
    → statuses (map (update_row i new error) rows) ≡ settle i o (statuses rows)
statuses-update_row i o new error [] h = refl
statuses-update_row i o new error (r ∷ rows) h = elim (Bool-cases (r.id == i)) [
  | inl here ↦
      rw (here, h r.status)
        (ap (◌∷◌ (record r { status = new; error = none }))
          (statuses-update_row i o new error rows h))
  | inr there ↦
      rw there (ap (◌∷◌ (record r { error = none })) (statuses-update_row i o new error rows h))
]

module _ {C : Type 0} (client : Client C) where
  conclude-statuses :
      (entry : OutboxEntry) (r : Reply (Unit {0}) × C) (conn : Outbox)
      → statuses (conclude client entry r conn).1.rows
        ≡ settle entry.id (conclude client entry r conn).0 (statuses conn.rows)
  unfolding conclude mark_done mark_failed mark
  conclude-statuses entry (returned u, c) conn =
      statuses-update_row entry.id replayed done none conn.rows (λ s. refl)
  conclude-statuses entry (threw e, c) conn = elim (Bool-cases (is_duplicate_edge_error client e)) [
    | inl duplicate ↦
        rw duplicate (statuses-update_row entry.id skipped done none conn.rows (λ s. refl))
    | inr other ↦
        rw other
          (statuses-update_row entry.id failed_now failed (some e.shown) conn.rows (λ s. refl))
  ]

  attempt-statuses :
      (entry : OutboxEntry) (conn : Outbox) (c : C)
      → statuses (attempt client entry conn c).1.rows
        ≡ settle entry.id (attempt client entry conn c).0 (statuses conn.rows)
  unfolding attempt mark_done mark
  attempt-statuses entry conn c = elim (Bool-cases (already_applied client entry.payload c).0) [
    | inl applied ↦
        rw applied (statuses-update_row entry.id skipped done none conn.rows (λ s. refl))
    | inr missing ↦ rw missing (
        conclude-statuses entry
          (dispatch client entry.payload (already_applied client entry.payload c).1) conn)
  ]

  replay_loop-statuses :
      (entries : List OutboxEntry) (fs : List String) (conn : Outbox) (c : C)
      → statuses (replay_loop client entries fs conn c).1.rows
        ≡ settle_all (replay_loop client entries fs conn c).0 (statuses conn.rows)
  unfolding replay_loop
  replay_loop-statuses [] fs conn c = refl
  replay_loop-statuses (e ∷ entries) fs conn c = elim (Bool-cases (is_blocked e.asset_id fs)) [
    | inl blocked ↦ rw (replay_loop_blocked client e entries fs conn c blocked) (
        replay_loop-statuses entries fs conn c
        ∙ ap (settle_all (replay_loop client entries fs conn c).0)
            (sym (settle-held e.id (statuses conn.rows))))
    | inr free ↦
        let (o, conn', c') = attempt client e conn c in
        rw (replay_loop_free client e entries fs conn c free) (
          replay_loop-statuses entries (after_outcome o e.asset_id fs) conn' c'
          ∙ ap (settle_all (replay_loop client entries (after_outcome o e.asset_id fs) conn' c').0)
              (attempt-statuses e conn c))
  ]

  -- After a replay, the rows are those of before, in their order and with their ids, payloads and
  -- assets, and each has the status that the outcomes of the entries with its id leave, in their order:
  -- done if it was replayed or skipped, failed if it failed, and its own if it was held or not pending.
  -- Nothing is said of the texts of the errors.
  pub replay_outbox-statuses :
      (conn : Outbox) (c : C)
      → statuses (replay_outbox client conn c).1.rows
        ≡ settle_all (replay_trace client conn c).0 (statuses conn.rows)
  unfolding replay_trace
  replay_outbox-statuses conn c =
      ap (λ r. statuses r.1.rows) (replay_outbox-replay_trace client conn c)
      ∙ replay_loop-statuses (list_status pending conn) [] conn c

-- ===== src/Sdk/Outbox.antt =====
-- assetcore/sdk/offline.py: the outbox of writes that were made while the central service was down,
-- and their replay. The table is its list of rows, in the order of insertion; a payload is the
-- write that the client queued, by its verb.
pub mod Held
pub mod Replay
pub mod Table
pub mod Counts
use asset_core.Shared.{
  ℕ, zero, suc, ◌+◌, String, Bool, true, false, ◌&&◌, ◌||◌, not, Option, none, some, List, [], ◌∷◌,
  ◌++◌, map, length, select, leb, ◌==◌, ℕ_eq, String_eq, if◌then◌else◌, is_some,
}
use Prim.Native.String.{◌++◌ as append}
use text.Mathlib.Text.{find?}
use asset_core.Shared.Sort.{sort, insert_sorted}

pub data Status : Type 0 where
  pending done failed : Status

unfoldable pub Status_beq : Status → Status → Bool
Status_beq pending pending = true
Status_beq done done = true
Status_beq failed failed = true
Status_beq _ _ = false

-- The payloads of `HybridClient`, one for each verb; `unknown` is any other verb.
pub data Write : Type 0 where
  declare : Option String → String → String → Option String → Write
  bind_source : String → String → String → String → String → Write
  relate : String → String → String → Option String → Option String → Write
  rename : String → String → String → Option String → Write
  relocate : String → String → String → Option String → Option String → Write
  bulk_relocate : String → Write
  unknown : String → Write

pub record OutboxEntry : Type 0 where
  pub id : ℕ
  pub payload : Write
  pub asset_id : Option String
  pub status : Status
  pub error : Option String

pub record Outbox : Type 0 where
  pub rows : List OutboxEntry
  pub next_id : ℕ

abbrev pub empty : Outbox
empty = record { rows = []; next_id = 1 }

unfoldable pub enqueue : Write → Option String → Outbox → ℕ × Outbox
enqueue payload asset_id conn = (
  conn.next_id,
  record conn {
    rows =
        conn.rows
        ++ (record {
          id = conn.next_id;
          payload = payload;
          asset_id = asset_id;
          status = pending;
          error = none;
        })
          ∷ [];
    next_id = suc conn.next_id;
  },
)

unfoldable pub count : Status → Outbox → ℕ
unfolding Status_beq
count status conn = length (select (λ r. Status_beq r.status status) conn.rows)

abbrev pub by_id : OutboxEntry → OutboxEntry → Bool
by_id a b = leb a.id b.id

-- `SELECT * FROM outbox WHERE status=… ORDER BY id`
unfoldable pub list_status : Status → Outbox → List OutboxEntry
unfolding Status_beq sort insert_sorted
list_status status conn = sort by_id (select (λ r. Status_beq r.status status) conn.rows)

abbrev pub update_row : ℕ → Status → Option String → OutboxEntry → OutboxEntry
update_row entry_id status error r =
    if r.id == entry_id then record r { status = status; error = error } else r

-- `UPDATE outbox SET status=…, error=… WHERE id=…`, of `mark_done` and `mark_failed`
unfoldable pub mark : ℕ → Status → Option String → Outbox → Outbox
mark entry_id status error conn = record conn {
  rows = map (update_row entry_id status error) conn.rows;
}

unfoldable pub mark_done : ℕ → Outbox → Outbox
unfolding mark
mark_done entry_id conn = mark entry_id done none conn

unfoldable pub mark_failed : ℕ → String → Outbox → Outbox
unfolding mark
mark_failed entry_id error conn = mark entry_id failed (some error) conn

unfoldable pub retry_failed : Outbox → ℕ × Outbox
unfolding count Status_beq
retry_failed conn = (
  count failed conn,
  record conn {
    rows =
        map
          (λ r.
            if Status_beq r.status failed then record r { status = pending; error = none } else r)
          conn.rows;
  },
)

-- An exception of a dispatch: the HTTP response that it carries, if any, as the status code and the
-- text in lower case, and the first 2000 characters of its `repr`.
pub record Failure : Type 0 where
  pub response : Option (ℕ × String)
  pub shown : String

-- What the client answers: `meta` of `resolve` as its type and creator, and the source facet.
pub record Meta : Type 0 where
  pub asset_type : Option String
  pub created_by : Option String

pub record SourceFacet : Type 0 where
  pub location_uri : String
  pub revision : String

pub data Reply (A : Type 0) : Type 0 where
  returned : A → Reply A
  threw : Failure → Reply A

-- The client of the central service, whose state is `C`.
pub record Client (C : Type 0) : Type 0 where
  pub resolve : String → C → Reply (Option Meta) × C
  pub get_source : String → C → Reply (Option SourceFacet) × C
  pub send : Write → C → Reply (Unit {0}) × C

-- `x in (None, y)`
abbrev pub absent_or : Option String → String → Bool
absent_or none y = true
absent_or (some x) y = x == y

-- `new_revision is None or revision == new_revision`
abbrev pub unset_or : Option String → String → Bool
unset_or none y = true
unset_or (some x) y = y == x

unfoldable pub meta_matches : String → String → Reply (Option Meta) → Bool
meta_matches asset_type created_by (returned (some m)) =
    absent_or m.asset_type asset_type && absent_or m.created_by created_by
meta_matches asset_type created_by _ = false

unfoldable pub source_matches : String → Option String → Reply (Option SourceFacet) → Bool
source_matches uri revision (returned (some cur)) =
    cur.location_uri == uri && unset_or revision cur.revision
source_matches uri revision _ = false

-- `"duplicate edge" in body or "edge already exists" in body`
unfoldable pub duplicate_text : String → Bool
duplicate_text body =
    is_some (find? body "duplicate edge") || is_some (find? body "edge already exists")

pub data Outcome : Type 0 where
  replayed : Outcome
  failed_now : Outcome
  skipped : Outcome
  held : Outcome

-- the dict that `replay_outbox` returns
pub record Counters : Type 0 where
  pub replayed : ℕ
  pub failed : ℕ
  pub skipped : ℕ
  pub held : ℕ

abbrev pub no_counts : Counters
no_counts = record { replayed = 0; failed = 0; skipped = 0; held = 0 }

-- `aid and aid in failed_assets`
unfoldable pub is_blocked : Option String → List String → Bool
is_blocked none failed_assets = false
is_blocked (some aid) [] = false
is_blocked (some aid) (a ∷ failed_assets) =
    (not (aid == "") && a == aid) || is_blocked (some aid) failed_assets

-- `if aid: failed_assets.add(aid)`
unfoldable pub block : Option String → List String → List String
block none failed_assets = failed_assets
block (some aid) failed_assets = if aid == "" then failed_assets else aid ∷ failed_assets

-- only a failure that was recorded blocks the asset
abbrev pub after_outcome : Outcome → Option String → List String → List String
after_outcome failed_now asset_id failed_assets = block asset_id failed_assets
after_outcome _ asset_id failed_assets = failed_assets

abbrev pub Outcome_beq : Outcome → Outcome → Bool
Outcome_beq replayed replayed = true
Outcome_beq failed_now failed_now = true
Outcome_beq skipped skipped = true
Outcome_beq held held = true
Outcome_beq _ _ = false

-- the exception that `_dispatch` raises for a verb that it does not know
unfoldable pub unknown_verb : String → Failure
unknown_verb verb = record { response = none; shown = append "unknown outbox verb: " verb }

module _ {C : Type 0} (client : Client C) where
  unfoldable pub already_applied : Write → C → Bool × C
  unfolding meta_matches source_matches
  already_applied (declare (some aid) asset_type created_by origin) c =
      let (r, c') = client.resolve aid c in
      if aid == "" then (false, c) else (meta_matches asset_type created_by r, c')
  already_applied (bind_source a uri tool revision by) c =
      let (r, c') = client.get_source a c in (source_matches uri (some revision) r, c')
  already_applied (relocate a uri actor facet revision) c =
      let (r, c') = client.get_source a c in (source_matches uri revision r, c')
  already_applied _ c = (false, c)

  unfoldable pub is_duplicate_edge_error : Failure → Bool
  is_duplicate_edge_error e = elim e.response [
    | none ↦ false
    | some (status, body) ↦ (status == 400 || status == 409) && duplicate_text body
  ]

  unfoldable pub dispatch : Write → C → Reply (Unit {0}) × C
  unfolding unknown_verb
  dispatch (unknown verb) c = (threw (unknown_verb verb), c)
  dispatch payload c = client.send payload c

  -- what the `try` of the loop does with the answer of the central service
  unfoldable pub conclude : OutboxEntry → Reply (Unit {0}) × C → Outbox → Outcome × Outbox × C
  unfolding is_duplicate_edge_error mark_done mark_failed duplicate_text
  conclude entry (returned _, c) conn = (replayed, mark_done entry.id conn, c)
  conclude entry (threw e, c) conn =
      if is_duplicate_edge_error e
      then (skipped, mark_done entry.id conn, c)
      else (failed_now, mark_failed entry.id e.shown conn, c)

  unfoldable pub attempt : OutboxEntry → Outbox → C → Outcome × Outbox × C
  unfolding conclude already_applied dispatch
  attempt entry conn c =
      let (applied, c') = already_applied entry.payload c in
      if applied
      then (skipped, mark_done entry.id conn, c')
      else conclude entry (dispatch entry.payload c') conn

  abbrev pub prepend :
      OutboxEntry
      → Outcome
      → List (OutboxEntry × Outcome) × Outbox × C
      → List (OutboxEntry × Outcome) × Outbox × C
  prepend entry o (os, conn, c) = ((entry, o) ∷ os, conn, c)

  -- What each entry comes to, beside the table and the central service that the loop leaves; the
  -- counters of `replay_outbox` forget the entries.
  unfoldable pub replay_loop :
      List OutboxEntry → List String → Outbox → C → List (OutboxEntry × Outcome) × Outbox × C
  unfolding is_blocked attempt block
  replay_loop [] failed_assets conn c = ([], conn, c)
  replay_loop (entry ∷ entries) failed_assets conn c =
      elim (is_blocked entry.asset_id failed_assets) [
        | true ↦ prepend entry held (replay_loop entries failed_assets conn c)
        | false ↦
            let (o, conn', c') = attempt entry conn c in
            prepend entry o
              (replay_loop entries (after_outcome o entry.asset_id failed_assets) conn' c')
      ]

  unfoldable pub replay_trace : Outbox → C → List (OutboxEntry × Outcome) × Outbox × C
  unfolding replay_loop list_status
  replay_trace conn c = replay_loop (list_status pending conn) [] conn c

  -- the `for` loop of `replay_outbox`, with its counters
  unfoldable pub count_loop :
      List OutboxEntry → List String → Counters → Outbox → C → Counters × Outbox × C
  unfolding is_blocked already_applied dispatch is_duplicate_edge_error mark_done mark_failed block
  count_loop [] failed_assets n conn c = (n, conn, c)
  count_loop (entry ∷ entries) failed_assets n conn c =
      elim (is_blocked entry.asset_id failed_assets) [
        | true ↦ count_loop entries failed_assets (record n { held = suc n.held }) conn c
        | false ↦ elim (already_applied entry.payload c).0 [
          | true ↦
              count_loop entries failed_assets (record n { skipped = suc n.skipped })
                (mark_done entry.id conn) (already_applied entry.payload c).1
          | false ↦
              let (reply, c') = dispatch entry.payload (already_applied entry.payload c).1 in
              elim reply [
                | returned u ↦
                    count_loop entries failed_assets (record n { replayed = suc n.replayed })
                      (mark_done entry.id conn) c'
                | threw e ↦ elim (is_duplicate_edge_error e) [
                  | true ↦
                      count_loop entries failed_assets (record n { skipped = suc n.skipped })
                        (mark_done entry.id conn) c'
                  | false ↦
                      count_loop entries (block entry.asset_id failed_assets)
                        (record n { failed = suc n.failed }) (mark_failed entry.id e.shown conn) c'
                ]
              ]
        ]
      ]

  unfoldable pub replay_outbox : Outbox → C → Counters × Outbox × C
  unfolding count_loop list_status
  replay_outbox conn c = count_loop (list_status pending conn) [] no_counts conn c

abbrev pub outcomes_of : Outcome → List (OutboxEntry × Outcome) → ℕ
outcomes_of o os = length (select (λ x. Outcome_beq x.1 o) os)

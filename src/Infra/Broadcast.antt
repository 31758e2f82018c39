-- ===== src/Infra/Broadcast.antt =====
-- assetcore/infra/broadcast_sink.py: the sink with a bounded, numbered log and live subscribers.
-- A subscriber is an `asyncio.Queue`, here its number and the entries put on it.
pub mod Horizon
pub mod Resume
use asset_core.Shared.{
  ℕ, zero, suc, ◌+◌, Bool, true, false, ◌&&◌, ◌||◌, not, Option, none, some, List, [], ◌∷◌, ◌++◌,
  map, length, select, drop, leb, ltb, ◌==◌, ℕ_eq, if◌then◌else◌,
}
use asset_core.Shared.Exec.{Result, ok, raised, value_error, max_log_too_small}
use asset_core.Core.Entities.{Event}
use asset_core.Core.Ports.{EventSink}

abbrev pub Entry : Type 0
Entry = ℕ × Event

pub record BroadcastSink : Type 0 where
  pub max_log : ℕ
  pub log : List Entry
  pub seq : ℕ
  pub dropped_seq : ℕ
  pub subscribers : List (ℕ × List Entry)
  pub queues_made : ℕ

unfoldable pub init : ℕ → Result BroadcastSink
init max_log =
    if ltb max_log 1
    then raised (value_error max_log_too_small)
    else ok (record {
      max_log = max_log;
      log = [];
      seq = 0;
      dropped_seq = 0;
      subscribers = [];
      queues_made = 0;
    })

-- `append` of a `deque(maxlen=max_log)`, which drops the oldest entry of a full log
unfoldable pub push : ℕ → Entry → List Entry → List Entry
push max_log entry log =
    if length log == max_log then drop 1 log ++ entry ∷ [] else log ++ entry ∷ []

-- `self._log[0][0]`
abbrev pub earliest : List Entry → Option ℕ
earliest [] = none
earliest (e ∷ log) = some e.0

unfoldable pub emit : Event → BroadcastSink → BroadcastSink
unfolding push
emit event b =
    let entry : Entry = (b.seq + 1, event) in
    record b {
      seq = b.seq + 1;
      dropped_seq =
          if length b.log == b.max_log
          then (elim (earliest b.log) [ none ↦ b.dropped_seq | some first ↦ first ])
          else b.dropped_seq;
      log = push b.max_log entry b.log;
      subscribers = map (λ q. (q.0, q.1 ++ entry ∷ [])) b.subscribers;
    }

unfoldable pub events : BroadcastSink → List Event
events b = map (λ e. e.1) b.log

unfoldable pub history : ℕ → BroadcastSink → List Entry
history after_seq b = select (λ e. ltb after_seq e.0) b.log

unfoldable pub has_gap : ℕ → BroadcastSink → Bool
has_gap after_seq b = elim (earliest b.log) [
  | none ↦ false
  | some first ↦ ltb 0 after_seq && ltb (after_seq + 1) first
]

unfoldable pub subscribe : BroadcastSink → ℕ × BroadcastSink
subscribe b = (
  b.queues_made,
  record b {
    subscribers = b.subscribers ++ (b.queues_made, []) ∷ [];
    queues_made = suc b.queues_made;
  },
)

unfoldable pub unsubscribe : ℕ → BroadcastSink → BroadcastSink
unsubscribe q b = record b { subscribers = select (λ s. not (s.0 == q)) b.subscribers }

-- the entries on the queue of a subscriber, oldest first
unfoldable pub queue_of : ℕ → List (ℕ × List Entry) → List Entry
queue_of q [] = []
queue_of q (s ∷ subscribers) = if s.0 == q then s.1 else queue_of q subscribers

unfoldable pub emit_all : List Event → BroadcastSink → BroadcastSink
emit_all [] b = b
emit_all (e ∷ es) b = emit_all es (emit e b)

abbrev pub broadcast : EventSink BroadcastSink
broadcast = record { emit = emit }

-- ===== src/Service/Events.antt =====
-- assetcore/service/events.py: one connection of the event stream over the in-process sink. A frame
-- is its content, before it is formatted; keep-alive frames, which carry nothing, are left out.
pub mod Delivery
use asset_core.Shared.{
  ℕ, Bool, true, false, Option, none, some, List, [], ◌∷◌, ◌++◌, map, select, ltb,
}
use asset_core.Core.Entities.{Event}
use asset_core.Infra.Broadcast.{
  Entry, BroadcastSink, subscribe, has_gap, history, queue_of, unsubscribe,
}

pub data Frame : Type 0 where
  gap : ℕ → ℕ → Frame
  event : ℕ → Event → Frame

-- `replayed[-1][0] if replayed else after_seq`
unfoldable pub last_seq : ℕ → List Entry → ℕ
last_seq after_seq [] = after_seq
last_seq after_seq (e ∷ replayed) = last_seq e.0 replayed

abbrev pub frames : List Entry → List Frame
frames entries = map (λ e. event e.0 e.1) entries

-- what is sent before the live events: the gap frame, and the replay
unfoldable pub catch_up : ℕ → BroadcastSink → List Frame
unfolding has_gap history
catch_up after_seq sink =
    let replayed = frames (history after_seq sink) in
    elim (has_gap after_seq sink) [
      | true ↦ gap after_seq sink.dropped_seq ∷ replayed
      | false ↦ replayed
    ]

-- the `while` loop over the entries that are on the queue: those that the replay has sent are left
-- out
unfoldable pub follow : ℕ → List Entry → List Frame
follow last queue = frames (select (λ e. ltb last e.0) queue)

-- The frames of a connection that reads the log in the state `read`, after it has subscribed, and
-- that is open until the state `now`.
unfoldable pub event_source : ℕ → ℕ → BroadcastSink → BroadcastSink → List Frame
unfolding catch_up follow last_seq history
event_source q after_seq read now =
    catch_up after_seq read
    ++ follow (last_seq after_seq (history after_seq read)) (queue_of q now.subscribers)

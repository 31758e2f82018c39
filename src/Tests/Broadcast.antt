-- ===== src/Tests/Broadcast.antt =====
-- A sink with room for two events that receives three.
use asset_core.Shared.{
  ℕ, ◌-◌, ◌<◌, ◌≡◌, ◌↔◌, refl, true, none, some, List, [], ◌∷◌, ◌++◌, arith, length, drop, ℕ_eq,
}
use asset_core.Core.Entities.{Event}
use asset_core.Infra.Broadcast.{BroadcastSink, subscribe, emit, emit_all, push, has_gap, history}
use asset_core.Infra.Broadcast.Horizon.{Tracks, numbered, emit_all-Tracks}
use asset_core.Service.Events.{event_source, frames}
use asset_core.Service.Events.Delivery.{event_source_once}
use asset_core.Infra.Broadcast.Resume.{has_gap_iff, history_complete}

abbrev event : ℕ → Event
event n = record {
  asset_id = some n;
  event_type = "declared";
  payload = [];
  actor = none;
  occurred_at = n;
  id = n;
}

abbrev small : BroadcastSink
small = record {
  max_log = 2;
  log = [];
  seq = 0;
  dropped_seq = 0;
  subscribers = [];
  queues_made = 0;
}

abbrev three : List Event
three = event 1 ∷ event 2 ∷ event 3 ∷ []

small-Tracks : Tracks [] small
small-Tracks = record { positive = omega arith; counted = refl; dropped = refl; window = refl }

emit_all-Tracks_example : Tracks ([] ++ three) (emit_all three small)
emit_all-Tracks_example = emit_all-Tracks [] three small small-Tracks

has_gap_iff_example :
    (has_gap 1 (emit_all three small) ≡ true) ↔ (1 < length three - (emit_all three small).max_log)
has_gap_iff_example =
    has_gap_iff three (emit_all three small) 1 (emit_all-Tracks [] three small small-Tracks)
      (omega arith)

history_complete_example : history 2 (emit_all three small) ≡ numbered 3 (drop 2 three)
unfolding emit_all emit push has_gap
history_complete_example =
    history_complete three (emit_all three small) 2 (emit_all-Tracks [] three small small-Tracks)
      (omega arith) refl

abbrev two : List Event
two = event 1 ∷ event 2 ∷ []

two-Tracks : Tracks two (emit_all two small)
two-Tracks = emit_all-Tracks [] two small small-Tracks

-- a reader that has seen the first event, and during whose connection two more come
event_source_once_example :
    event_source 0 1
      (emit_all (event 3 ∷ []) (subscribe (emit_all two small)).1)
      (emit_all (event 4 ∷ []) (emit_all (event 3 ∷ []) (subscribe (emit_all two small)).1))
    ≡ frames (numbered 2 (drop 1 ((two ++ event 3 ∷ []) ++ event 4 ∷ [])))
unfolding emit_all emit push has_gap subscribe
event_source_once_example =
    event_source_once two (event 3 ∷ []) (event 4 ∷ []) (emit_all two small) 1 two-Tracks tt
      (omega arith) (omega arith) refl

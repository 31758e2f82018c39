-- ===== src/Service/Events/Delivery.antt =====
-- `event_source` of assetcore/service/events.py against the list of all events that were emitted.
use asset_core.Shared.{
  ℕ, suc, ◌+◌, ◌-◌, ◌≤◌, ◌<◌, ◌≡◌, ◌⊎◌, refl, sym, ap, ◌∙◌, inl, inr, false, List, [], ◌∷◌, ◌++◌,
  map, length, length-append, drop, ◌==◌, ℕ_eq, All, Bool-cases, arith,
}
use mathlib.Core.List.{append-nil, append_assoc}
use asset_core.Core.Entities.{Event}
use asset_core.Infra.Broadcast.{
  Entry, BroadcastSink, subscribe, has_gap, history, queue_of, emit, emit_all,
}
use asset_core.Infra.Broadcast.Horizon.{Tracks, numbered, emit_all-Tracks, length-drop, drop-append}
use asset_core.Infra.Broadcast.Resume.{history_complete, select-numbered, drop-numbered}
use asset_core.Service.Events.{event, last_seq, frames, catch_up, follow, event_source}

numbered-concat :
    (n : ℕ) (es fs : List Event)
    → numbered n (es ++ fs) ≡ numbered n es ++ numbered (n + length es) fs
numbered-concat n [] fs = ap (λ (i : ℕ). numbered i fs) (omega arith)
numbered-concat n (e ∷ es) fs =
    let p : suc n + length es ≡ n + suc (length es) = omega arith in
    ap (◌∷◌ (n, e)) (rw p at (numbered-concat (suc n) es fs))

last_seq-numbered : (c : ℕ) (es : List Event) → last_seq c (numbered (suc c) es) ≡ c + length es
unfolding last_seq
last_seq-numbered c [] = omega arith
last_seq-numbered c (e ∷ es) = last_seq-numbered (suc c) es ∙ omega arith

frames-append : (xs ys : List Entry) → frames (xs ++ ys) ≡ frames xs ++ frames ys
frames-append [] ys = refl
frames-append (x ∷ xs) ys = ap (◌∷◌ (event x.0 x.1)) (frames-append xs ys)

subscribe-Tracks :
    (all : List Event) (b : BroadcastSink) → Tracks all b → Tracks all (subscribe b).1
unfolding subscribe
subscribe-Tracks all b t = record {
  positive = t.positive;
  counted = t.counted;
  dropped = t.dropped;
  window = t.window;
}

-- every subscriber's number is one that was handed out
abbrev pub AreNumbered : BroadcastSink → Type 0
AreNumbered b = All (λ s. s.0 < b.queues_made) b.subscribers

queue_of-fresh :
    (q : ℕ) (subs : List (ℕ × List Entry))
    → All (λ s. s.0 < q) subs
    → queue_of q (subs ++ (q, []) ∷ []) ≡ []
unfolding queue_of
queue_of-fresh q [] h = ground arith
queue_of-fresh q (s ∷ subs) h = ground (arith, queue_of-fresh q subs h.1)

-- a queue that exists receives the entry
abbrev HasQueue : ℕ → List (ℕ × List Entry) → Type 0
HasQueue q [] = ⊥
HasQueue q (s ∷ subs) = (s.0 ≡ q) ⊎ HasQueue q subs

abbrev delivered : Entry → List (ℕ × List Entry) → List (ℕ × List Entry)
delivered entry subs = map (λ s. (s.0, s.1 ++ entry ∷ [])) subs

HasQueue-delivered :
    (q : ℕ) (entry : Entry) (subs : List (ℕ × List Entry))
    → HasQueue q subs
    → HasQueue q (delivered entry subs)
HasQueue-delivered q entry [] h = h
HasQueue-delivered q entry (s ∷ subs) (inl here) = inl here
HasQueue-delivered q entry (s ∷ subs) (inr there) = inr (HasQueue-delivered q entry subs there)

queue_of-delivered :
    (q : ℕ) (entry : Entry) (subs : List (ℕ × List Entry))
    → HasQueue q subs
    → queue_of q (delivered entry subs) ≡ queue_of q subs ++ entry ∷ []
unfolding queue_of
queue_of-delivered q entry [] h = absurd h
queue_of-delivered q entry (s ∷ subs) h = elim (Bool-cases (s.0 == q)) [
  | inl here ↦ rw here refl
  | inr there ↦ rw there (
      queue_of-delivered q entry subs
        (elim h [ inl e ↦ absurd (let x = (ℕ_eq.same_iff s.0 q).1 e in cc) | inr k ↦ k ]))
]

HasQueue-concat :
    (q : ℕ) (x : List Entry) (subs : List (ℕ × List Entry)) → HasQueue q (subs ++ (q, x) ∷ [])
HasQueue-concat q x [] = inl refl
HasQueue-concat q x (s ∷ subs) = inr (HasQueue-concat q x subs)

-- a subscriber's queue holds every event since, under its number
queue_of-emit_all :
    (q : ℕ) (es : List Event) (b : BroadcastSink)
    → HasQueue q b.subscribers
    → queue_of q (emit_all es b).subscribers ≡ queue_of q b.subscribers ++ numbered (suc b.seq) es
unfolding emit_all emit
queue_of-emit_all q [] b h = sym (append-nil _)
queue_of-emit_all q (e ∷ es) b h =
    let p : b.seq + 1 ≡ suc b.seq = omega arith in
    queue_of-emit_all q es (emit e b) (HasQueue-delivered q (b.seq + 1, e) b.subscribers h)
    ∙ rw (queue_of-delivered q (b.seq + 1, e) b.subscribers h, p)
        (append_assoc (queue_of q b.subscribers) ((suc b.seq, e) ∷ [])
          (numbered (suc (suc b.seq)) es))

emit_all-concat :
    (es fs : List Event) (b : BroadcastSink) → emit_all fs (emit_all es b) ≡ emit_all (es ++ fs) b
unfolding emit_all
emit_all-concat [] fs b = refl
emit_all-concat (e ∷ es) fs b = emit_all-concat es fs (emit e b)

drop-length : (es fs : List Event) → drop (length es) (es ++ fs) ≡ fs
drop-length [] fs = refl
drop-length (e ∷ es) fs = drop-length es fs

catch_up_no_gap :
    (c : ℕ) (b : BroadcastSink) → has_gap c b ≡ false → catch_up c b ≡ frames (history c b)
unfolding catch_up
catch_up_no_gap c b e = rw (e, catch_up)

module _ (all before after : List Event) (b : BroadcastSink) (c : ℕ) (t : Tracks all b)
    (fresh : AreNumbered b) (positive : 0 < c) (past : c ≤ length all) where
  -- the number of the new queue, the sink when the log is read, and the sink at the end
  abbrev pub q : ℕ
  q = (subscribe b).0

  abbrev pub read : BroadcastSink
  read = emit_all before (subscribe b).1

  abbrev pub now : BroadcastSink
  now = emit_all after read

  read-Tracks : Tracks (all ++ before) read
  read-Tracks = emit_all-Tracks all before (subscribe b).1 (subscribe-Tracks all b t)

  queue : queue_of q now.subscribers ≡ numbered (suc (length all)) (before ++ after)
  unfolding subscribe
  queue = rw (emit_all-concat before after (subscribe b).1) (
      queue_of-emit_all q (before ++ after) (subscribe b).1
        (HasQueue-concat b.queues_made [] b.subscribers)
      ∙ rw (queue_of-fresh b.queues_made b.subscribers fresh, t.counted) refl)

  length_past : length (all ++ before) ≡ length all + length before
  length_past = length-append all before

  -- the live entries that are not sent already are those after the log was read
  follow-queue :
      follow (length (all ++ before)) (queue_of q now.subscribers)
      ≡ frames (numbered (suc (length (all ++ before))) after)
  unfolding follow
  follow-queue =
      let k : suc (length (all ++ before)) - suc (length all) ≡ length before =
        omega (arith, length_past) in
      let n : suc (length all) + length before ≡ suc (length (all ++ before)) =
        omega (arith, length_past) in
      rw queue (
        ap frames (
          select-numbered (length (all ++ before)) (suc (length all)) (before ++ after)
          ∙ rw k (
              drop-numbered (length before) (suc (length all)) (before ++ after)
              ∙ rw (n, drop-length before after) refl)))

  -- A connection with a positive cursor that the sink has reached, which finds no gap, is sent every
  -- event after the cursor exactly once, in order and under its number: those that were emitted
  -- before it subscribed, between that and the reading of the log, and after it.
  pub event_source_once :
      has_gap c read ≡ false
      → event_source q c read now ≡ frames (numbered (suc c) (drop c ((all ++ before) ++ after)))
  unfolding event_source
  event_source_once no_gap =
      let replay = history_complete (all ++ before) read c read-Tracks positive no_gap in
      let size : c + length (drop c (all ++ before)) ≡ length (all ++ before) =
        omega (arith, length-drop c (all ++ before), length_past) in
      let last = last_seq-numbered c (drop c (all ++ before)) ∙ size in
      let n : suc c + length (drop c (all ++ before)) ≡ suc (length (all ++ before)) =
        omega arith in
      rw
        (
          catch_up_no_gap c read no_gap,
          replay,
          last,
          follow-queue,
          drop-append c (all ++ before) after (omega (arith, length_past)),
          numbered-concat (suc c) (drop c (all ++ before)) after,
          n,
        )
        (sym (
          frames-append (numbered (suc c) (drop c (all ++ before)))
            (numbered (suc (length (all ++ before))) after)))

-- ===== src/Infra/Broadcast/Resume.antt =====
-- What a subscriber that resumes at a cursor reads of the log: `has_gap` and `history`.
use asset_core.Shared.{
  ℕ, zero, suc, ◌+◌, ◌-◌, ◌≤◌, ◌<◌, ◌≡◌, ◌↔◌, refl, ap, sym, ◌∙◌, true, false, ◌&&◌, none, some,
  List, [], ◌∷◌, length, select, drop, ltb, ℕ_eq, arith,
}
use native.Mathlib.Decide.{dec_lt}
use asset_core.Core.Entities.{Event}
use asset_core.Infra.Broadcast.{BroadcastSink, earliest, history, has_gap}
use asset_core.Infra.Broadcast.Horizon.{
  Tracks, numbered, length-drop, drop-nil, drop-all, earliest-numbered,
}

pub select-numbered :
    (a n : ℕ) (es : List Event)
    → select (λ e. ltb a e.0) (numbered n es) ≡ drop (suc a - n) (numbered n es)
select-numbered a n [] = sym (drop-nil (suc a - n))
select-numbered a n (e ∷ es) = elim (dec_lt a n) [
  | yes p ↦
      let test : ltb a n ≡ true = ground arith in
      let z : suc a - n ≡ 0 = omega arith in
      let z' : suc a - suc n ≡ 0 = omega arith in
      rw (test, z) (ap (◌∷◌ (n, e)) (rw z' at (select-numbered a (suc n) es)))
  | no p ↦
      let test : ltb a n ≡ false = ground arith in
      let z : suc a - n ≡ suc (suc a - suc n) = omega arith in
      rw (test, z) (select-numbered a (suc n) es)
]

pub drop-numbered :
    (k n : ℕ) (es : List Event) → drop k (numbered n es) ≡ numbered (n + k) (drop k es)
drop-numbered zero n es = ap (λ (i : ℕ). numbered i es) (omega arith)
drop-numbered (suc k) n [] = refl
drop-numbered (suc k) n (e ∷ es) =
    let p : suc n + k ≡ n + suc k = omega arith in rw p at (drop-numbered k (suc n) es)

drop-drop : {A : Type 0} (j k : ℕ) (xs : List A) → drop j (drop k xs) ≡ drop (k + j) xs
drop-drop j zero xs = ap (λ (i : ℕ). drop i xs) (omega arith)
drop-drop j (suc k) [] = drop-nil j ∙ sym (drop-nil (suc k + j))
drop-drop j (suc k) (x ∷ xs) =
    let p : suc k + j ≡ suc (k + j) = omega arith in rw p (drop-drop j k xs)

-- the history behind a cursor that is not behind the horizon is complete
history-Tracks :
    (all : List Event) (b : BroadcastSink) (after_seq : ℕ)
    → Tracks all b
    → b.dropped_seq ≤ after_seq
    → history after_seq b ≡ numbered (suc after_seq) (drop after_seq all)
unfolding history
history-Tracks all b after_seq t h =
    let k = b.dropped_seq in
    let p : suc k + (suc after_seq - suc k) ≡ suc after_seq = omega arith in
    let q : k + (suc after_seq - suc k) ≡ after_seq = omega arith in
    rw t.window (
      select-numbered after_seq (suc k) (drop k all)
      ∙ drop-numbered (suc after_seq - suc k) (suc k) (drop k all)
      ∙ rw (drop-drop, p, q) refl)

has_gap-some :
    (a first : ℕ) (b : BroadcastSink)
    → earliest b.log ≡ some first
    → has_gap a b ≡ (ltb 0 a && ltb (a + 1) first)
unfolding has_gap
has_gap-some a first b e = rw (e, has_gap)

has_gap-none : (a : ℕ) (b : BroadcastSink) → earliest b.log ≡ none → has_gap a b ≡ false
unfolding has_gap
has_gap-none a b e = rw (e, has_gap)

-- In a sink that has received the events `all`, `has_gap` of a positive cursor holds exactly if
-- the event after the cursor has left the log: if the cursor is less than the number of the
-- events less the size of the log.
pub has_gap_iff :
    (all : List Event) (b : BroadcastSink) (after_seq : ℕ)
    → Tracks all b
    → 0 < after_seq
    → (has_gap after_seq b ≡ true) ↔ (after_seq < length all - b.max_log)
has_gap_iff all b after_seq t h = elim (dec_lt 0 (length all)) [
  | yes p ↦
      let first : earliest b.log ≡ some (suc b.dropped_seq) = rw t.window (
        earliest-numbered (suc b.dropped_seq) (drop b.dropped_seq all)
          (omega (arith, length-drop b.dropped_seq all, t.dropped, t.positive))) in
      rw (has_gap-some after_seq _ b first)
        (λ g. ground (arith, t.dropped), λ l. ground (arith, t.dropped))
  | no p ↦
      let empty : b.log ≡ [] =
        t.window ∙ ap (numbered (suc b.dropped_seq)) (drop-all b.dropped_seq all (omega arith)) in
      rw (has_gap-none after_seq b (ap earliest empty)) (λ g. cc, λ l. absurd (omega arith))
]

-- In a sink that has received the events `all`, where a positive cursor has no gap, the history is
-- every event after the cursor, in order and under its own number.
pub history_complete :
    (all : List Event) (b : BroadcastSink) (after_seq : ℕ)
    → Tracks all b
    → 0 < after_seq
    → has_gap after_seq b ≡ false
    → history after_seq b ≡ numbered (suc after_seq) (drop after_seq all)
history_complete all b after_seq t h g =
    history-Tracks all b after_seq t (elim (dec_lt after_seq (length all - b.max_log)) [
      | yes l ↦ absurd (let c = (has_gap_iff all b after_seq t h).1 l in cc)
      | no l ↦ omega (arith, t.dropped)
    ])

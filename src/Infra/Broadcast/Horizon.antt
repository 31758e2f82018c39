-- ===== src/Infra/Broadcast/Horizon.antt =====
-- The bounded log against the unbounded list of all events that were emitted.
use asset_core.Shared.{
  ℕ, zero, suc, ◌+◌, ◌-◌, ◌≤◌, ◌<◌, ◌≡◌, ◌≢◌, inl, inr, refl, ap, sym, ◌∙◌, true, false, some, List,
  [], ◌∷◌, ◌++◌, length, length-append, drop, ltb, ◌==◌, ℕ_eq, arith, Bool-cases,
}
use native.Mathlib.Decide.{ℕ_discrete}
use mathlib.Core.List.{append-nil, append_assoc}
use asset_core.Shared.Exec.{ok}
use asset_core.Core.Entities.{Event}
use asset_core.Infra.Broadcast.{Entry, BroadcastSink, init, push, earliest, emit, emit_all}

-- events with their sequence numbers
abbrev pub numbered : ℕ → List Event → List Entry
numbered n [] = []
numbered n (e ∷ es) = (n, e) ∷ numbered (suc n) es

pub numbered-append :
    (n k : ℕ) (es : List Event) (e : Event)
    → k ≡ n + length es
    → numbered n (es ++ e ∷ []) ≡ numbered n es ++ (k, e) ∷ []
numbered-append n k [] e p = ap (λ (i : ℕ). (i, e) ∷ []) (omega arith)
numbered-append n k (x ∷ es) e p = ap (◌∷◌ (n, x)) (numbered-append (suc n) k es e (omega arith))

pub length-numbered : (n : ℕ) (es : List Event) → length (numbered n es) ≡ length es
length-numbered n [] = refl
length-numbered n (e ∷ es) = ap suc (length-numbered (suc n) es)

module _ {A : Type 0} where
  pub length-drop : (k : ℕ) (xs : List A) → length (drop k xs) ≡ length xs - k
  length-drop zero xs = omega arith
  length-drop (suc k) [] = omega arith
  length-drop (suc k) (x ∷ xs) = omega (arith, length-drop k xs)

  pub drop-append : (k : ℕ) (xs ys : List A) → k ≤ length xs → drop k (xs ++ ys) ≡ drop k xs ++ ys
  drop-append zero xs ys h = refl
  drop-append (suc k) [] ys h = absurd (omega arith)
  drop-append (suc k) (x ∷ xs) ys h = drop-append k xs ys (omega arith)

  pub drop-suc : (k : ℕ) (xs : List A) → drop 1 (drop k xs) ≡ drop (suc k) xs
  drop-suc zero [] = refl
  drop-suc zero (x ∷ xs) = refl
  drop-suc (suc k) [] = refl
  drop-suc (suc k) (x ∷ xs) = drop-suc k xs

  pub drop-nil : (k : ℕ) → drop {A = A} k [] ≡ []
  drop-nil zero = refl
  drop-nil (suc k) = refl

  pub drop-all : (k : ℕ) (xs : List A) → length xs ≤ k → drop k xs ≡ []
  drop-all zero [] h = refl
  drop-all zero (x ∷ xs) h = absurd (omega arith)
  drop-all (suc k) [] h = refl
  drop-all (suc k) (x ∷ xs) h = drop-all k xs (omega arith)

-- The sink after all these events: it holds the last `max_log` of them, under their numbers.
pub record Tracks (all : List Event) (b : BroadcastSink) : Type 0 where
  pub positive : 1 ≤ b.max_log
  pub counted : b.seq ≡ length all
  pub dropped : b.dropped_seq ≡ length all - b.max_log
  pub window : b.log ≡ numbered (suc b.dropped_seq) (drop b.dropped_seq all)

drop-numbered-1 : (n : ℕ) (es : List Event) → drop 1 (numbered n es) ≡ numbered (suc n) (drop 1 es)
drop-numbered-1 n [] = refl
drop-numbered-1 n (e ∷ es) = refl

pub earliest-numbered :
    (n : ℕ) (es : List Event) → 1 ≤ length es → earliest (numbered n es) ≡ some n
earliest-numbered n [] h = absurd (omega arith)
earliest-numbered n (e ∷ es) h = refl

-- one more event at the end of the window
window-append :
    (k n : ℕ) (all : List Event) (e : Event)
    → k ≤ length all
    → n ≡ length all
    → numbered (suc k) (drop k all) ++ (n + 1, e) ∷ [] ≡ numbered (suc k) (drop k (all ++ e ∷ []))
window-append k n all e h p =
    rw (drop-append k all (e ∷ []) h)
      (sym (numbered-append (suc k) (n + 1) (drop k all) e (omega (arith, length-drop k all))))

emit-full :
    (all : List Event) (e : Event) (b : BroadcastSink)
    → Tracks all b
    → length b.log ≡ b.max_log
    → Tracks (all ++ e ∷ []) (emit e b)
unfolding emit push
emit-full all e b t full =
    let size : length b.log ≡ length all - b.dropped_seq =
      ap length t.window
      ∙ length-numbered (suc b.dropped_seq) (drop b.dropped_seq all)
      ∙ length-drop b.dropped_seq all in
    let many : suc b.dropped_seq ≤ length all = omega (arith, t.dropped, t.positive) in
    let first : earliest b.log ≡ some (suc b.dropped_seq) = rw t.window (
      earliest-numbered (suc b.dropped_seq) (drop b.dropped_seq all)
        (omega (arith, length-drop b.dropped_seq all))) in
    let test : (length b.log == b.max_log) ≡ true = ground arith in
    rw (first, test)
      (record {
        positive = t.positive;
        counted = omega (arith, t.counted, length-append all (e ∷ []));
        dropped = omega (arith, t.dropped, length-append all (e ∷ []));
        window =
            ap (λ l. drop 1 l ++ (b.seq + 1, e) ∷ []) t.window
            ∙ rw (drop-numbered-1, drop-suc)
                (window-append (suc b.dropped_seq) b.seq all e many t.counted);
      })

emit-room :
    (all : List Event) (e : Event) (b : BroadcastSink)
    → Tracks all b
    → length b.log ≢ b.max_log
    → Tracks (all ++ e ∷ []) (emit e b)
unfolding emit push
emit-room all e b t room =
    let size : length b.log ≡ length all - b.dropped_seq =
      ap length t.window
      ∙ length-numbered (suc b.dropped_seq) (drop b.dropped_seq all)
      ∙ length-drop b.dropped_seq all in
    let few : length all < b.max_log = omega (arith, t.dropped, t.positive) in
    let test : (length b.log == b.max_log) ≡ false = ground arith in
    rw test (record {
      positive = t.positive;
      counted = omega (arith, t.counted, length-append all (e ∷ []));
      dropped = omega (arith, t.dropped, length-append all (e ∷ []));
      window =
          ap (λ l. l ++ (b.seq + 1, e) ∷ []) t.window
          ∙ window-append b.dropped_seq b.seq all e (omega (arith, t.dropped)) t.counted;
    })

pub emit-Tracks :
    (all : List Event) (e : Event) (b : BroadcastSink)
    → Tracks all b
    → Tracks (all ++ e ∷ []) (emit e b)
emit-Tracks all e b t = elim (ℕ_discrete (length b.log) b.max_log) [
  | yes full ↦ emit-full all e b t full
  | no room ↦ emit-room all e b t room
]

pub init-Tracks :
    (max_log : ℕ) (b : BroadcastSink) → init max_log ≡ ok b → Tracks [] b × (b.max_log ≡ max_log)
unfolding init
init-Tracks max_log b e = elim (Bool-cases (ltb max_log 1)) [
  | inl small ↦ absurd (ground arith)
  | inr large ↦
      let same : b ≡ (record {
        max_log = max_log;
        log = [];
        seq = 0;
        dropped_seq = 0;
        subscribers = [];
        queues_made = 0;
      }) =
        ground arith in
      rw same (
        record { positive = ground arith; counted = refl; dropped = omega arith; window = refl },
        refl,
      )
]

-- A sink that tracks its past goes on doing so: whatever it receives, its log is the last events, as
-- many as it has room for, under their numbers, and `dropped_seq` counts the rest.
pub emit_all-Tracks :
    (all es : List Event) (b : BroadcastSink) → Tracks all b → Tracks (all ++ es) (emit_all es b)
unfolding emit_all
emit_all-Tracks all [] b t = rw append-nil t
emit_all-Tracks all (e ∷ es) b t =
    rw (append_assoc all (e ∷ []) es) at
      (emit_all-Tracks (all ++ e ∷ []) es (emit e b) (emit-Tracks all e b t))

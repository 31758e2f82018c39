-- ===== src/Core/Closure/Step.antt =====
-- What one neighbour and one round of the walk do to the invariant of the search.
use asset_core.Shared.{
  ℕ, suc, ◌+◌, ◌≤◌, ◌≡◌, ◌↔◌, ◌⊎◌, inl, inr, refl, true, false, List, [], ◌∷◌, ◌++◌, arith, In,
  In-append, Bool-cases, ap,
}
use asset_core.Core.Closure.{Neighbors, Walk, is_seen, offer, expand}

-- The trails from `start`, with their lengths.
pub data Trail {L : Type 0} (neighbors : Neighbors L) (start : ℕ) : ℕ → ℕ → Type 0 where
  here : Trail neighbors start start 0
  step :
      {u v k : ℕ} (l : L)
      → Trail neighbors start u k
      → In (v, l) (neighbors u)
      → Trail neighbors start v (suc k)

module _ {L : Type 0} where
  -- the node is reported at this depth
  abbrev pub At : ℕ → ℕ → List (ℕ × ℕ × L) → Type 0
  At n d [] = ⊥
  At n d ((m, e, l) ∷ r) = ((n ≡ m) × (d ≡ e)) ⊎ At n d r

  pub At-append :
      (n d m e : ℕ) (l : L) (r : List (ℕ × ℕ × L))
      → At n d (r ++ (m, e, l) ∷ []) ↔ (At n d r ⊎ ((n ≡ m) × (d ≡ e)))
  At-append n d m e l [] = ground arith
  At-append n d m e l ((i, j, k) ∷ r) = ground (arith, At-append n d m e l r)

  -- no node is reported twice
  abbrev pub Distinct : List (ℕ × ℕ × L) → Type 0
  Distinct [] = Unit
  Distinct ((m, e, l) ∷ r) = ((d : ℕ) → ¬ At m d r) × Distinct r

  Distinct-append :
      (m e : ℕ) (l : L) (r : List (ℕ × ℕ × L))
      → ((d : ℕ) → ¬ At m d r)
      → Distinct r
      → Distinct (r ++ (m, e, l) ∷ [])
  Distinct-append m e l [] fresh h = (λ d a. a, tt)
  Distinct-append m e l ((i, j, k) ∷ r) fresh h = (
    λ d a. ground (arith, At-append i d m e l r, h.0 d, fresh j),
    Distinct-append m e l r (λ d a. fresh d (inr a)) h.1,
  )

  last_of :
      (n d : ℕ) (k : L) (m e : ℕ) (l : L)
      → In {A = ℕ × ℕ × L} (n, d, k) ((m, e, l) ∷ [])
      → (n ≡ m) × (d ≡ e) × (k ≡ l)
  last_of n d k m e l i = ground arith

  -- in a list with no node twice a node has one depth
  pub At-unique : (n d e : ℕ) (r : List (ℕ × ℕ × L)) → Distinct r → At n d r → At n e r → d ≡ e
  At-unique n d e [] h a b = absurd a
  At-unique n d e ((i, j, k) ∷ r) h a b = ground (arith, h.0 d, h.0 e, At-unique n d e r h.1)

-- depths rise along the queue, from `lo` to at most `hi`
abbrev pub Queue : ℕ → ℕ → List (ℕ × ℕ) → Type 0
Queue lo hi [] = Unit
Queue lo hi ((n, d) ∷ f) = (lo ≤ d) × (d ≤ hi) × Queue d hi f

Queue-append :
    (lo hi top n : ℕ) (f : List (ℕ × ℕ))
    → Queue lo hi f
    → lo ≤ top
    → hi ≤ top
    → Queue lo top (f ++ (n, top) ∷ [])
Queue-append lo hi top n [] q a b = (a, omega arith, tt)
Queue-append lo hi top n ((m, d) ∷ f) q a b =
    (q.0, omega arith, Queue-append d hi top n f q.2 (omega arith) b)

pub Queue-widen : (lo hi top : ℕ) (f : List (ℕ × ℕ)) → Queue lo hi f → hi ≤ top → Queue lo top f
Queue-widen lo hi top [] q b = tt
Queue-widen lo hi top ((m, d) ∷ f) q b = (q.0, omega arith, Queue-widen d hi top f q.2 b)

pub is_seen-cons :
    (n m : ℕ) (seen : List ℕ) → is_seen n (m ∷ seen) ≡ true → (n ≡ m) ⊎ (is_seen n seen ≡ true)
unfolding is_seen
is_seen-cons n m seen h = ground arith

pub is_seen-head :
    (n m : ℕ) (seen : List ℕ) → (n ≡ m) ⊎ (is_seen n seen ≡ true) → is_seen n (m ∷ seen) ≡ true
unfolding is_seen
is_seen-head n m seen h = ground arith

module _ {L : Type 0} (neighbors : Neighbors L) (start : ℕ) where
  -- the start at depth 0, or a reported node at its depth
  abbrev pub Marked : ℕ → ℕ → Walk L → Type 0
  Marked n d w = ((n ≡ start) × (d ≡ 0)) ⊎ At n d w.reached

  -- a trail of length `d` to `n` whose last edge has the label
  abbrev pub LastEdge : ℕ → ℕ → L → Type 0
  LastEdge n d l =
      (u : ℕ) × (k : ℕ) × (d ≡ suc k) × Trail neighbors start u k × In (n, l) (neighbors u)

  -- The part of the invariant that holds inside a round too; `lo` is the depth of the round.
  pub record Inv (lo : ℕ) (w : Walk L) : Type 0 where
    pub marked : (n : ℕ) → is_seen n w.seen ≡ true → (d : ℕ) × Marked n d w
    pub seen : (n d : ℕ) → Marked n d w → is_seen n w.seen ≡ true
    pub sound : (n d : ℕ) → Marked n d w → Trail neighbors start n d
    pub shallow : (n d : ℕ) → Marked n d w → d ≤ lo + 1
    pub queue : Queue lo (lo + 1) w.frontier
    pub queued : (n d : ℕ) → In (n, d) w.frontier → Marked n d w
    pub distinct : Distinct w.reached
    pub not_start : (d : ℕ) → ¬ At start d w.reached
    pub labelled : (n d : ℕ) (l : L) → In (n, d, l) w.reached → LastEdge n d l

  -- from the first state to the second nothing is lost, and what is new waits in the queue
  pub record Grows (w w' : Walk L) : Type 0 where
    pub keeps : (n d : ℕ) → Marked n d w → Marked n d w'
    pub waits : (n d : ℕ) → In (n, d) w.frontier → In (n, d) w'.frontier
    pub adds : (n d : ℕ) → Marked n d w' → Marked n d w ⊎ In (n, d) w'.frontier

  Grows-refl : (w : Walk L) → Grows w w
  Grows-refl w = record { keeps = λ n d m. m; waits = λ n d m. m; adds = λ n d m. inl m }

  Grows-trans : {a b c : Walk L} → Grows a b → Grows b c → Grows a c
  Grows-trans g h = record {
    keeps = λ n d m. h.keeps n d (g.keeps n d m);
    waits = λ n d m. h.waits n d (g.waits n d m);
    adds = λ n d m. elim (h.adds n d m) [
      | inl b ↦ elim (g.adds n d b) [ inl a ↦ inl a | inr q ↦ inr (h.waits n d q) ]
      | inr q ↦ inr q
    ];
  }

  module _ (u lo : ℕ) where
    abbrev visit : Walk L → ℕ → L → Walk L
    visit w v l = record {
      seen = v ∷ w.seen;
      frontier = w.frontier ++ (v, lo + 1) ∷ [];
      reached = w.reached ++ (v, lo + 1, l) ∷ [];
    }

    visit-Grows : (w : Walk L) (v : ℕ) (l : L) → Grows w (visit w v l)
    visit-Grows w v l = record {
      keeps = λ n d m. ground (arith, At-append n d v (lo + 1) l w.reached);
      waits = λ n d m. (In-append (n, d) w.frontier ((v, lo + 1) ∷ [])).1 (inl m);
      adds = λ n d m. ground (
        arith,
        At-append n d v (lo + 1) l w.reached,
        In-append (n, d) w.frontier ((v, lo + 1) ∷ []),
      );
    }

    visit-cases :
        (w : Walk L) (v : ℕ) (l : L) (n d : ℕ)
        → Marked n d (visit w v l)
        → Marked n d w ⊎ ((n ≡ v) × (d ≡ lo + 1))
    visit-cases w v l n d m = ground (arith, At-append n d v (lo + 1) l w.reached)

    visit-Marked :
        (w : Walk L) (v : ℕ) (l : L)
        → Inv lo w
        → (n : ℕ) → is_seen n (v ∷ w.seen) ≡ true
        → (d : ℕ) × Marked n d (visit w v l)
    visit-Marked w v l h n q = elim (is_seen-cons n v w.seen q) [
      | inl e ↦ (lo + 1, inr ((At-append n (lo + 1) v (lo + 1) l w.reached).1 (inr (e, refl))))
      | inr old ↦ let (d, m) = h.marked n old in (d, (visit-Grows w v l).keeps n d m)
    ]

    visit-Inv :
        (w : Walk L) (v : ℕ) (l : L)
        → Trail neighbors start u lo
        → In (v, l) (neighbors u)
        → is_seen v w.seen ≡ false
        → Inv lo w
        → Inv lo (visit w v l)
    visit-Inv w v l trail edge new h = record {
      marked = λ n q. visit-Marked w v l h n q;
      seen = λ n d m.
          ground (arith, At-append n d v (lo + 1) l w.reached, h.seen n d, is_seen-head n v w.seen);
      sound = λ n d m. elim (visit-cases w v l n d m) [
        | inl old ↦ h.sound n d old
        | inr (p, q) ↦ let q' : d ≡ suc lo = omega arith in rw (p, q') (step l trail edge)
      ];
      shallow = λ n d m. elim (visit-cases w v l n d m) [
        | inl old ↦ h.shallow n d old
        | inr (p, q) ↦ omega arith
      ];
      queue = Queue-append lo (lo + 1) (lo + 1) v w.frontier h.queue (omega arith) (omega arith);
      queued = λ n d q. ground (
        arith,
        At-append n d v (lo + 1) l w.reached,
        In-append (n, d) w.frontier ((v, lo + 1) ∷ []),
        h.queued n d,
      );
      distinct =
          Distinct-append v (lo + 1) l w.reached (λ d a. ground (arith, h.seen v d)) h.distinct;
      not_start = λ d a.
          ground (arith, At-append start d v (lo + 1) l w.reached, h.not_start d, h.seen start 0);
      labelled = λ n d k i. elim ((In-append (n, d, k) w.reached ((v, lo + 1, l) ∷ [])).0 i) [
        | inl old ↦ h.labelled n d k old
        | inr new_one ↦
            let (p, q, r) = last_of n d k v (lo + 1) l new_one in
            (u, lo, omega arith, trail, rw (p, r) edge)
      ];
    }

    offer-step :
        (w : Walk L) (v : ℕ) (l : L)
        → Trail neighbors start u lo
        → In (v, l) (neighbors u)
        → Inv lo w
        → Inv lo (offer lo w (v, l))
          × Grows w (offer lo w (v, l))
          × (is_seen v (offer lo w (v, l)).seen ≡ true)
    unfolding offer
    offer-step w v l trail edge h = elim (Bool-cases (is_seen v w.seen)) [
      | inl old ↦ rw old (h, Grows-refl w, old)
      | inr new ↦
          rw new (
            visit-Inv w v l trail edge new h,
            visit-Grows w v l,
            is_seen-head v v w.seen (inl refl),
          )
    ]

    -- every neighbour that was offered is marked at the end
    abbrev pub AllMarked : List (ℕ × L) → Walk L → Type 0
    AllMarked es w = (v : ℕ) (l : L) → In (v, l) es → (e : ℕ) × Marked v e w × (e ≤ lo + 1)

    pub expand-step :
        (w : Walk L) (es : List (ℕ × L))
        → Trail neighbors start u lo
        → ((v : ℕ) (l : L) → In (v, l) es → In (v, l) (neighbors u))
        → Inv lo w
        → Inv lo (expand lo w es) × Grows w (expand lo w es) × AllMarked es (expand lo w es)
    unfolding expand
    expand-step w [] trail edge h = (h, Grows-refl w, λ v l i. absurd i)
    expand-step w ((v, l) ∷ es) trail edge h =
        let (inv, grows, now) = offer-step w v l trail (edge v l (inl refl)) h in
        let (inv', grows', later) =
          expand-step (offer lo w (v, l)) es trail (λ x k i. edge x k (inr i)) inv in
        (
          inv',
          Grows-trans grows grows',
          λ x k i. elim i [
            | inl e ↦
                let (d, m) = inv.marked v now in
                let same : x ≡ v = cc (ap (λ (t : ℕ × L). t.0) e) in
                rw same (d, grows'.keeps v d m, inv.shallow v d m)
            | inr i' ↦ later x k i'
          ],
        )

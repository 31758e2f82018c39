-- ===== src/Core/Closure/Ends.antt =====
-- The fuel of the walk of a graph whose edges lead into a finite list of nodes.
use asset_core.Shared.{
  ℕ, zero, suc, ◌+◌, ◌≤◌, ◌<◌, ◌≡◌, inl, inr, refl, false, Option, some, List, [], ◌∷◌, arith, In,
  length, length-append, Bool-cases, List-cases, ap, if◌then◌else◌,
}
use asset_core.Core.Closure.{
  Neighbors, Walk, is_seen, offer, expand, round, walk, initial, walk_closure,
}

-- the nodes of the list that the walk has not seen
unseen : List ℕ → List ℕ → ℕ
unseen seen [] = 0
unseen seen (n ∷ ns) = if is_seen n seen then unseen seen ns else suc (unseen seen ns)

unseen-le-length : (seen ns : List ℕ) → unseen seen ns ≤ length ns
unfolding unseen
unseen-le-length seen [] = omega arith
unseen-le-length seen (n ∷ ns) = ground (arith, unseen-le-length seen ns)

unseen-cons-le : (v : ℕ) (seen ns : List ℕ) → unseen (v ∷ seen) ns ≤ unseen seen ns
unfolding unseen is_seen
unseen-cons-le v seen [] = omega arith
unseen-cons-le v seen (n ∷ ns) = ground (arith, unseen-cons-le v seen ns)

-- a node of the list that is seen for the first time is one less
unseen-cons :
    (v : ℕ) (seen ns : List ℕ)
    → In v ns
    → is_seen v seen ≡ false
    → suc (unseen (v ∷ seen) ns) ≤ unseen seen ns
unfolding unseen is_seen
unseen-cons v seen [] i new = absurd i
unseen-cons v seen (n ∷ ns) i new = ground (arith, unseen-cons v seen ns, unseen-cons-le v seen ns)

module _ {L : Type 0} (neighbors : Neighbors L) (bound : Option ℕ) (nodes : List ℕ) where
  abbrev work : Walk L → ℕ
  work w = unseen w.seen nodes + length w.frontier

  offer-work : (d v : ℕ) (l : L) (w : Walk L) → In v nodes → work (offer d w (v, l)) ≤ work w
  unfolding offer
  offer-work d v l w i = elim (Bool-cases (is_seen v w.seen)) [
    | inl old ↦ rw old (omega arith)
    | inr new ↦ rw new (
        omega (arith, unseen-cons v w.seen nodes i new, length-append w.frontier ((v, d + 1) ∷ [])))
  ]

  expand-work :
      (d : ℕ) (w : Walk L) (es : List (ℕ × L))
      → ((v : ℕ) (l : L) → In (v, l) es → In v nodes)
      → work (expand d w es) ≤ work w
  unfolding expand
  expand-work d w [] h = omega arith
  expand-work d w ((v, l) ∷ es) h = omega (
    arith,
    offer-work d v l w (h v l (inl refl)),
    expand-work d (offer d w (v, l)) es (λ x k i. h x k (inr i)),
  )

  module _ (covers : (u v : ℕ) (l : L) → In (v, l) (neighbors u) → In v nodes) where
    round-work :
        (u d : ℕ) (rest : List (ℕ × ℕ)) (w : Walk L)
        → work (round neighbors bound (u, d) rest w) ≤ unseen w.seen nodes + length rest
    unfolding round
    round-work u d rest w =
        ground (arith, expand-work d (record w { frontier = rest }) (neighbors u) (covers u))

    walk_ends :
        (fuel : ℕ) (w : Walk L)
        → work w ≤ fuel
        → (w' : Walk L) × (walk neighbors bound fuel w ≡ some w')
    unfolding walk
    walk_ends zero w h = (w, ground arith)
    walk_ends (suc fuel) w h = elim (List-cases w.frontier) [
      | inl empty ↦ (w, simp (empty, walk))
      | inr ((u, d), rest, e) ↦
          let (w', ends) =
            walk_ends fuel (round neighbors bound (u, d) rest w)
              (omega (arith, round-work u d rest w, ap length e)) in
          (w', ground arith)
    ]

    -- One unit of fuel for each node that an edge can lead to, and one for the start, suffice.
    pub walk_closure_returns :
        (fuel start : ℕ)
        → length nodes < fuel
        → (reached : List (ℕ × ℕ × L)) × (walk_closure fuel start neighbors bound ≡ some reached)
    unfolding walk_closure
    walk_closure_returns fuel start h =
        let (w, e) =
          walk_ends fuel (initial start) (omega (arith, unseen-le-length (start ∷ []) nodes)) in
        (w.reached, rw e)

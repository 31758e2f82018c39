-- ===== src/Core/Closure.antt =====
-- `walk_closure` of assetcore/core/rules.py: the breadth-first transitive closure.
-- The `while` loop takes fuel, one unit for each `popleft`; `none` means that it ran out.
pub mod Step
pub mod Loop
pub mod Ends
pub mod Exact
use mathlib.Core.Option
use asset_core.Shared.{
  ℕ, zero, suc, ◌+◌, Bool, true, false, Option, none, some, List, [], ◌∷◌, ◌++◌, leb, ◌==◌, ◌||◌,
  if◌then◌else◌, ℕ_eq,
}

-- A graph of UUIDs: `neighbors(node)` is the list of next nodes with the labels of their edges.
abbrev pub Neighbors : Type 0 → Type 0
Neighbors L = ℕ → List (ℕ × L)

pub record Walk (L : Type 0) : Type 0 where
  pub seen : List ℕ
  pub frontier : List (ℕ × ℕ)
  pub reached : List (ℕ × ℕ × L)

-- `node in seen`
unfoldable pub is_seen : ℕ → List ℕ → Bool
is_seen n [] = false
is_seen n (m ∷ seen) = m == n || is_seen n seen

-- `max_depth is not None and depth >= max_depth`
unfoldable pub too_deep : Option ℕ → ℕ → Bool
too_deep none depth = false
too_deep (some bound) depth = leb bound depth

module _ {L : Type 0} where
  -- the body of the inner loop
  unfoldable pub offer : ℕ → Walk L → ℕ × L → Walk L
  unfolding is_seen
  offer depth w (nxt, label) = if is_seen nxt w.seen then w else record {
    seen = nxt ∷ w.seen;
    frontier = w.frontier ++ (nxt, depth + 1) ∷ [];
    reached = w.reached ++ (nxt, depth + 1, label) ∷ [];
  }

  unfoldable pub expand : ℕ → Walk L → List (ℕ × L) → Walk L
  expand depth w [] = w
  expand depth w (e ∷ es) = expand depth (offer depth w e) es

  -- one round of the `while` loop, with the head of the frontier taken off
  unfoldable pub round : Neighbors L → Option ℕ → ℕ × ℕ → List (ℕ × ℕ) → Walk L → Walk L
  unfolding too_deep
  round neighbors max_depth (node, depth) rest w =
      if too_deep max_depth depth
      then record w { frontier = rest }
      else expand depth (record w { frontier = rest }) (neighbors node)

  unfoldable pub walk : Neighbors L → Option ℕ → ℕ → Walk L → Option (Walk L)
  walk neighbors max_depth zero w = elim w.frontier [ [] ↦ some w | _ ∷ _ ↦ none ]
  walk neighbors max_depth (suc fuel) w = elim w.frontier [
    | [] ↦ some w
    | head ∷ rest ↦ walk neighbors max_depth fuel (round neighbors max_depth head rest w)
  ]

  abbrev pub initial : ℕ → Walk L
  initial start = record { seen = start ∷ []; frontier = (start, 0) ∷ []; reached = [] }

  unfoldable pub walk_closure : ℕ → ℕ → Neighbors L → Option ℕ → Option (List (ℕ × ℕ × L))
  walk_closure fuel start neighbors max_depth =
      Option.map (λ w. w.reached) (walk neighbors max_depth fuel (initial start))

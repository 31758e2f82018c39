-- ===== src/Infra/InMemory/Updates.antt =====
-- `update_latest`: an assignment through the reference to the latest version of an asset.
use mathlib.Core.Option
use asset_core.Shared.{
  sym, ◌∙◌, ℕ, suc, ◌+◌, ◌≡◌, ◌≢◌, inl, inr, refl, ap, Bool, none, some, List, [], ◌∷◌, map, arith,
  ◌==◌, ℕ_eq, if◌then◌else◌, Bool-cases, Option-cases, find, is_some, nat_eq_iff,
}
use asset_core.Core.Rules.{Facet, modify}
use asset_core.Infra.InMemory.{owned, update_latest}
use asset_core.Infra.InMemory.Histories.{
  facet, IsHistory, AllHistories, live_versions_lem, last?, latest-IsHistory, map-owned,
}

module _ {V : Type 0} ⦃f : Facet V⦄ where
  modify_first : (V → Bool) → (V → V) → List V → List V
  modify_first p g [] = []
  modify_first p g (v ∷ vs) = if p v then g v ∷ vs else v ∷ modify_first p g vs

  abbrev pub map_last : (V → V) → List V → List V
  map_last g [] = []
  map_last g (v ∷ []) = g v ∷ []
  map_last g (v ∷ w ∷ vs) = v ∷ map_last g (w ∷ vs)

  modify_first-IsHistory :
      (n : ℕ) (g : V → V) (vs : List V)
      → IsHistory n vs
      → modify_first f.is_latest g vs ≡ map_last g vs
  unfolding modify_first
  modify_first-IsHistory n g [] h = refl
  modify_first-IsHistory n g (v ∷ []) h = rw h.1
  modify_first-IsHistory n g (v ∷ w ∷ vs) h =
      rw h.1 (ap (◌∷◌ v) (modify_first-IsHistory (suc n) g (w ∷ vs) h.2))

  find-map :
      (p : V → Bool) (l : List (ℕ × V))
      → find p (map (λ r. r.1) l) ≡ Option.map (λ r. r.1) (find (λ r. p r.1) l)
  find-map p [] = refl
  find-map p (r ∷ l) = ground (arith, find-map p l)

  module _ (a : ℕ) (g : V → V) (keeps : (v : V) → f.asset_id (g v) ≡ f.asset_id v) where
    -- The reference that a search of the live versions finds is the place to write to.
    find-owned :
        (p : V → Bool) (i k : ℕ) (v : V) (vs : List V)
        → find (λ r. p r.1) (owned a i vs) ≡ some (k, v)
        → (j : ℕ) × (k ≡ i + j)
          × (facet a (modify j g vs) ≡ modify_first p g (facet a vs))
          × ((b : ℕ) → b ≢ a → facet b (modify j g vs) ≡ facet b vs)
    unfolding owned modify modify_first
    find-owned p i k v [] e = cc
    find-owned p i k v (w ∷ vs) e = elim (Bool-cases (f.asset_id w == a)) [
      | inr other ↦
          let (j, q, r, s) = find-owned p (suc i) k v vs (rw other at e) in
          (suc j, omega arith, ground arith, λ b ne. ground (arith, s b))
      | inl own ↦ elim (Bool-cases (p w)) [
        | inl hit ↦ (0, ground arith, ground (arith, keeps w), λ b ne. ground (arith, keeps w))
        | inr miss ↦
            let (j, q, r, s) = find-owned p (suc i) k v vs (ground arith) in
            (suc j, omega arith, ground arith, λ b ne. ground (arith, s b))
      ]
    ]

    pub record Updates (vs : List V) (r : Bool × List V) : Type 0 where
      pub found : r.0 ≡ is_some (last? (facet a vs))
      pub updated : facet a r.1 ≡ map_last g (facet a vs)
      pub others : (b : ℕ) → b ≢ a → facet b r.1 ≡ facet b vs

    last?-none : (vs : List V) → last? vs ≡ none → vs ≡ []
    last?-none [] e = refl
    last?-none (v ∷ []) e = cc
    last?-none (v ∷ w ∷ vs) e = absurd (last?-cons w vs e)
      where
        last?-cons : (w : V) (vs : List V) → last? (w ∷ vs) ≡ none → ⊥
        last?-cons w [] e = cc
        last?-cons w (x ∷ vs) e = last?-cons x vs e

    last?-owned :
        (vs : List V)
        → IsHistory 1 (facet a vs)
        → last? (facet a vs) ≡ Option.map (λ r. r.1) (find (λ r. f.is_latest r.1) (owned a 0 vs))
    last?-owned vs h =
        sym (latest-IsHistory 1 (facet a vs) h)
        ∙ rw map-owned at (find-map f.is_latest (owned a 0 vs))

    pub update_latest_lem :
        (vs : List V) → IsHistory 1 (facet a vs) → Updates vs (update_latest a g vs)
    unfolding update_latest
    update_latest_lem vs h = elim (Option-cases (find (λ r. f.is_latest r.1) (owned a 0 vs))) [
      | inl miss ↦
          let none_left : facet a vs ≡ [] =
            last?-none (facet a vs) (last?-owned vs h ∙ ap (Option.map (λ r. r.1)) miss) in
          rw (update_latest, live_versions_lem a vs h, miss)
            (record {
              found = rw none_left refl;
              updated = rw none_left refl;
              others = λ b ne. refl;
            })
      | inr ((i, v), hit) ↦
          let (j, q, r, s) = find-owned f.is_latest 0 i v vs hit in
          let place : i ≡ j = omega arith in
          rw (update_latest, live_versions_lem a vs h, hit, place)
            (record {
              found = rw (last?-owned vs h, hit) refl;
              updated = r ∙ modify_first-IsHistory 1 g (facet a vs) h;
              others = s;
            })
    ]

  IsHistory-map_last :
      (n : ℕ) (g : V → V) (vs : List V)
      → ((v : V) → f.version_num (g v) ≡ f.version_num v)
      → ((v : V) → f.is_latest (g v) ≡ f.is_latest v)
      → IsHistory n vs
      → IsHistory n (map_last g vs)
  IsHistory-map_last n g [] p q h = tt
  IsHistory-map_last n g (v ∷ []) p q h = (p v ∙ h.0, q v ∙ h.1)
  IsHistory-map_last n g (v ∷ w ∷ []) p q h = (h.0, h.1, (p w ∙ h.2.0, q w ∙ h.2.1))
  IsHistory-map_last n g (v ∷ w ∷ x ∷ vs) p q h =
      (h.0, h.1, IsHistory-map_last (suc n) g (w ∷ x ∷ vs) p q h.2)

  -- An update of the location keeps the histories.
  pub AllHistories-update_latest :
      (a : ℕ) (g : V → V)
      → ((v : V) → f.asset_id (g v) ≡ f.asset_id v)
      → ((v : V) → f.version_num (g v) ≡ f.version_num v)
      → ((v : V) → f.is_latest (g v) ≡ f.is_latest v)
      → (vs : List V) → AllHistories vs
      → AllHistories (update_latest a g vs).1
  AllHistories-update_latest a g k p q vs h b = elim (Bool-cases (b == a)) [
    | inl same ↦
        rw ((nat_eq_iff b a).0 same, (update_latest_lem a g k vs (h a)).updated)
          (IsHistory-map_last 1 g (facet a vs) p q (h a))
    | inr other ↦ rw ((update_latest_lem a g k vs (h a)).others b (λ e. ground arith)) (h b)
  ]

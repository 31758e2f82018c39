-- ===== src/Infra/InMemory/Histories.antt =====
-- The versions of one asset are a history: numbered from 1, the last one and no other the latest.
use mathlib.Core.List.{append-nil}
use asset_core.Shared.{
  nat_eq_iff, ℕ, suc, ◌+◌, ◌≤◌, ◌≡◌, inl, inr, refl, true, false, Option, none, some, List, [], ◌∷◌,
  ◌++◌, map, arith, ◌==◌, ℕ_eq, if◌then◌else◌, length, select, select-append, Bool-cases, All,
}
use asset_core.Shared.Sort.{IsSorted, sort_of_IsSorted}
use asset_core.Core.Rules.{Facet, demote, latest, max_version, next_version_num}
use asset_core.Infra.InMemory.{by_number, owned, live_versions, versions, add_version}
use asset_core.Infra.InMemory.References.{demote_of, add_version_lem}

module _ {V : Type 0} ⦃f : Facet V⦄ where
  -- the versions of an asset, oldest first
  abbrev pub facet : ℕ → List V → List V
  facet a vs = select (λ v. f.asset_id v == a) vs

  -- Numbered from `n`; the last is the latest, and no other is.
  abbrev pub IsHistory : ℕ → List V → Type 0
  IsHistory n [] = Unit
  IsHistory n (v ∷ []) = (f.version_num v ≡ n) × (f.is_latest v ≡ true)
  IsHistory n (v ∷ w ∷ vs) =
      (f.version_num v ≡ n) × (f.is_latest v ≡ false) × IsHistory (suc n) (w ∷ vs)

  pub map-owned : (a i : ℕ) (vs : List V) → map (λ r. r.1) (owned a i vs) ≡ facet a vs
  unfolding owned
  map-owned a i [] = refl
  map-owned a i (v ∷ vs) = ground (arith, map-owned a (suc i) vs)

  history-le :
      (k n : ℕ) (r : ℕ × V) (l : List (ℕ × V))
      → f.version_num r.1 ≤ n
      → IsHistory n (map (λ r. r.1) l)
      → All (λ s. by_number r s ≡ true) l
  history-le k n r [] h i = tt
  history-le k n r (s ∷ []) h i = (ground arith, tt)
  history-le k n r (s ∷ t ∷ l) h i =
      (ground arith, history-le k (suc n) r (t ∷ l) (omega arith) i.2)

  history-IsSorted :
      (n : ℕ) (l : List (ℕ × V)) → IsHistory n (map (λ r. r.1) l) → IsSorted by_number l
  history-IsSorted n [] h = tt
  history-IsSorted n (r ∷ []) h = (tt, tt)
  history-IsSorted n (r ∷ s ∷ l) h =
      (history-le n (suc n) r (s ∷ l) (omega arith) h.2, history-IsSorted (suc n) (s ∷ l) h.2)

  -- Of a history the live references are in the order of the store.
  pub live_versions_lem :
      (a : ℕ) (vs : List V) → IsHistory 1 (facet a vs) → live_versions a vs ≡ owned a 0 vs
  unfolding live_versions
  live_versions_lem a vs h =
      sort_of_IsSorted by_number (owned a 0 vs)
        (history-IsSorted 1 (owned a 0 vs) (rw (map-owned a 0 vs) h))

  pub versions_lem : (a : ℕ) (vs : List V) → IsHistory 1 (facet a vs) → versions a vs ≡ facet a vs
  unfolding versions
  versions_lem a vs h = rw (live_versions_lem a vs h) (map-owned a 0 vs)

  -- the last element
  abbrev pub last? : List V → Option V
  last? [] = none
  last? (v ∷ []) = some v
  last? (v ∷ w ∷ vs) = last? (w ∷ vs)

  pub latest-IsHistory : (n : ℕ) (vs : List V) → IsHistory n vs → latest vs ≡ last? vs
  latest-IsHistory n [] h = refl
  latest-IsHistory n (v ∷ []) h = rw h.1
  latest-IsHistory n (v ∷ w ∷ vs) h = rw h.1 (latest-IsHistory (suc n) (w ∷ vs) h.2)

  pub max_version-IsHistory :
      (n : ℕ) (v : V) (vs : List V)
      → IsHistory (suc n) (v ∷ vs)
      → max_version (v ∷ vs) ≡ n + length (v ∷ vs)
  unfolding max_version
  max_version-IsHistory n v [] h = ground arith
  max_version-IsHistory n v (w ∷ vs) h = ground (arith, max_version-IsHistory (suc n) w vs h.2)

  -- The next number is one more than there are versions.
  pub next_version_num-IsHistory :
      (vs : List V) → IsHistory 1 vs → next_version_num vs ≡ suc (length vs)
  unfolding next_version_num
  next_version_num-IsHistory [] h = omega arith
  next_version_num-IsHistory (v ∷ vs) h = omega (arith, max_version-IsHistory 0 v vs h)

  pub IsHistory-demote-append :
      (n : ℕ) (vs : List V) (v : V)
      → IsHistory n vs
      → f.version_num v ≡ n + length vs
      → f.is_latest v ≡ true
      → IsHistory n (map demote vs ++ v ∷ [])
  IsHistory-demote-append n [] v h e l = (omega arith, l)
  IsHistory-demote-append n (w ∷ []) v h e l = (
    ground (arith, f.version_num-set_latest false w),
    ground (arith, f.is_latest-set_latest false w),
    (omega arith, l),
  )
  IsHistory-demote-append n (w ∷ x ∷ vs) v h e l = (
    ground (arith, f.version_num-set_latest false w),
    ground (arith, f.is_latest-set_latest false w),
    IsHistory-demote-append (suc n) (x ∷ vs) v h.2 (omega arith) l,
  )

  facet-demote_of :
      (a b : ℕ) (vs : List V)
      → facet a (map (demote_of b) vs) ≡ (if a == b then map demote (facet a vs) else facet a vs)
  facet-demote_of a b [] = ground arith
  facet-demote_of a b (v ∷ vs) =
      ground (arith, facet-demote_of a b vs, f.asset_id-set_latest false v)

  -- What `add_version` does to the versions of each asset.
  pub facet-add_version :
      (a : ℕ) (v : V) (vs : List V)
      → facet a (add_version v vs)
        ≡ (if a == f.asset_id v then map demote (facet a vs) ++ v ∷ [] else facet a vs)
  facet-add_version a v vs = rw (add_version_lem v vs) (
      rw (select-append (λ x. f.asset_id x == a) (map (demote_of (f.asset_id v)) vs) (v ∷ []))
        (ground (arith, facet-demote_of a (f.asset_id v) vs, append-nil (facet a vs))))

  -- Every asset's versions are a history.
  abbrev pub AllHistories : List V → Type 0
  AllHistories vs = (a : ℕ) → IsHistory 1 (facet a vs)

  -- The next number keeps the histories.
  pub AllHistories-add_version :
      (v : V) (vs : List V)
      → AllHistories vs
      → f.version_num v ≡ suc (length (facet (f.asset_id v) vs))
      → f.is_latest v ≡ true
      → AllHistories (add_version v vs)
  AllHistories-add_version v vs h e l a = elim (Bool-cases (a == f.asset_id v)) [
    | inl same ↦
        let p : a ≡ f.asset_id v = (nat_eq_iff a (f.asset_id v)).0 same in
        rw (facet-add_version a v vs)
          (rw same (IsHistory-demote-append 1 (facet a vs) v (h a) (rw (e, p) (omega arith)) l))
    | inr other ↦ rw (facet-add_version a v vs) (rw other (h a))
  ]

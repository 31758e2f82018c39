-- ===== src/Infra/Sqlite/Versions.antt =====
-- The writes to a version table that holds histories.
use mathlib.Core.Option
use asset_core.Shared.{
  ◌≡◌, refl, ap, ◌∙◌, sym, inl, inr, ℕ, suc, ◌+◌, ◌<◌, true, false, none, some, List, [], ◌∷◌, ◌++◌,
  map, ◌==◌, if◌then◌else◌, is_some, find, select, ℕ_eq, arith, All, Bool-cases, Option-cases,
  length, length-map,
}
use asset_core.Core.Entities.{Uuid}
use asset_core.Core.Rules.{Facet, modify}
use asset_core.Infra.InMemory.{owned, add_version, update_latest}
use asset_core.Infra.InMemory.References.{demote_of, add_version_lem}
use asset_core.Infra.InMemory.Histories.{facet, IsHistory, live_versions_lem}
use asset_core.Infra.InMemory.Valid.{All-map}
use asset_core.Infra.Sqlite.{update_where}
use asset_core.Infra.Sqlite.Mirrors.{select-rows, find-rows}
use asset_core.Infra.Sqlite.Facets.{clashes, demote_rows, is_latest_of, any_row}

module _ {V : Type 0} ⦃f : Facet V⦄ where
  -- The numbers of a history are below the next.
  history-below :
      (n : ℕ) (vs : List V) → IsHistory n vs → All (λ w. f.version_num w < n + length vs) vs
  history-below n [] h = tt
  history-below n (v ∷ []) h = (omega arith, tt)
  history-below n (v ∷ w ∷ vs) h =
      (omega arith, All-map _ _ (λ x p. omega arith) (w ∷ vs) (history-below (suc n) (w ∷ vs) h.2))

  -- A version with a new number clashes with none that is demoted.
  no_clash :
      (v : V) (vs : List V)
      → All (λ w. f.version_num w < f.version_num v) (facet (f.asset_id v) vs)
      → find (clashes v) (map (demote_of (f.asset_id v)) vs) ≡ none
  no_clash v [] h = refl
  no_clash v (w ∷ vs) h = elim (Bool-cases (f.asset_id w == f.asset_id v)) [
    | inr other ↦ let rest = no_clash v vs (rw other at h) in ground arith
    | inl own ↦
        let (below, others) : (f.version_num w < f.version_num v)
            × All (λ w. f.version_num w < f.version_num v) (facet (f.asset_id v) vs) =
          rw own at h in
        let rest = no_clash v vs others in
        ground (
          arith,
          f.asset_id-set_latest false w,
          f.version_num-set_latest false w,
          f.is_latest-set_latest false w,
        )
  ]

  -- no version of the asset is in the rest of the list
  none_owned :
      (a : Uuid) (g : V → V) (vs : List V)
      → facet a vs ≡ []
      → map (λ v. if is_latest_of a v then g v else v) vs ≡ vs
  none_owned a g [] h = refl
  none_owned a g (v ∷ vs) h = elim (Bool-cases (f.asset_id v == a)) [
    | inl own ↦ absurd (let x = rw own at h in cc)
    | inr other ↦ let rest = none_owned a g vs (rw other at h) in ground arith
  ]

  -- after the latest version of a history there is no other
  latest-last :
      (n : ℕ) (v : V) (vs : List V) → IsHistory n (v ∷ vs) → f.is_latest v ≡ true → vs ≡ []
  latest-last n v [] h l = refl
  latest-last n v (w ∷ vs) h l = absurd cc

  IsHistory-tail : (n : ℕ) (v : V) (vs : List V) → IsHistory n (v ∷ vs) → IsHistory (suc n) vs
  IsHistory-tail n v [] h = tt
  IsHistory-tail n v (w ∷ vs) h = h.2

  -- The UPDATE of the latest version writes to the place that the search finds.
  modify-found :
      (a : Uuid) (g : V → V) (n i k : ℕ) (v : V) (vs : List V)
      → IsHistory n (facet a vs)
      → find (λ r. f.is_latest r.1) (owned a i vs) ≡ some (k, v)
      → (j : ℕ) × (k ≡ i + j) × (map (λ x. if is_latest_of a x then g x else x) vs ≡ modify j g vs)
  unfolding owned modify
  modify-found a g n i k v [] h e = cc
  modify-found a g n i k v (w ∷ vs) h e = elim (Bool-cases (f.asset_id w == a)) [
    | inr other ↦
        let (j, q, r) =
          modify-found a g n (suc i) k v vs (rw other at h) (rw (other, owned) at e) in
        (suc j, omega arith, ground arith)
    | inl own ↦
        let history : IsHistory n (w ∷ facet a vs) = rw own at h in
        elim (Bool-cases (f.is_latest w)) [
          | inl hit ↦
              let rest = none_owned a g vs (latest-last n w (facet a vs) history hit) in
              (0, ground arith, ground arith)
          | inr miss ↦
              let (j, q, r) =
                modify-found a g (suc n) (suc i) k v vs (IsHistory-tail n w (facet a vs) history)
                  (ground arith) in
              (suc j, omega arith, ground arith)
        ]
  ]

  -- Where the search finds none, the UPDATE has nothing to write.
  none-found :
      (a : Uuid) (g : V → V) (i : ℕ) (vs : List V)
      → find (λ r. f.is_latest r.1) (owned a i vs) ≡ none
      → (map (λ x. if is_latest_of a x then g x else x) vs ≡ vs) × (select (is_latest_of a) vs ≡ [])
  unfolding owned
  none-found a g i [] e = (refl, refl)
  none-found a g i (w ∷ vs) e = elim (Bool-cases (f.asset_id w == a)) [
    | inr other ↦
        let (p, q) = none-found a g (suc i) vs (rw (other, owned) at e) in
        (ground arith, ground arith)
    | inl own ↦ elim (Bool-cases (f.is_latest w)) [
      | inl hit ↦ absurd (ground arith)
      | inr miss ↦
          let (p, q) = none-found a g (suc i) vs (ground arith) in (ground arith, ground arith)
    ]
  ]

  some-found :
      (a : Uuid) (i k : ℕ) (v : V) (vs : List V)
      → find (λ r. f.is_latest r.1) (owned a i vs) ≡ some (k, v)
      → any_row (is_latest_of a) vs ≡ true
  unfolding owned
  some-found a i k v [] e = cc
  some-found a i k v (w ∷ vs) e = elim (Bool-cases (f.asset_id w == a)) [
    | inr other ↦ let rest = some-found a (suc i) k v vs (rw (other, owned) at e) in ground arith
    | inl own ↦ elim (Bool-cases (f.is_latest w)) [
      | inl hit ↦ ground arith
      | inr miss ↦ let rest = some-found a (suc i) k v vs (ground arith) in ground arith
    ]
  ]

  -- The UPDATE, with its count of rows, is the assignment to the latest version of a history.
  pub update_latest_rows :
      (a : Uuid) (g : V → V) (vs : List V)
      → IsHistory 1 (facet a vs)
      → update_latest a g vs ≡ (any_row (is_latest_of a) vs, update_where (is_latest_of a) g vs)
  unfolding update_latest
  update_latest_rows a g vs h = elim (Option-cases (find (λ r. f.is_latest r.1) (owned a 0 vs))) [
    | inl miss ↦
        let (p, q) = none-found a g 0 vs miss in
        rw (live_versions_lem a vs h, update_latest, miss, p, q) refl
    | inr ((k, v), hit) ↦
        let (j, place, p) = modify-found a g 1 0 k v vs h hit in
        let same : k ≡ j = omega arith in
        rw (live_versions_lem a vs h, update_latest, hit, same, p, some-found a 0 k v vs hit) refl
  ]

demoted_where :
    {V : Type 0} ⦃f : Facet V⦄ (a : Uuid) (vs : List V)
    → update_where (is_latest_of a) (f.set_latest false) vs ≡ map (demote_of a) vs
demoted_where a [] = refl
demoted_where a (v ∷ vs) = ground (arith, demoted_where a vs)

-- the columns of a row are those of its version
pub record Encodes {V R : Type 0} ⦃f : Facet V⦄ ⦃g : Facet R⦄ (to_row : V → R) : Type 0 where
  pub ids : (v : V) → g.asset_id (to_row v) ≡ f.asset_id v
  pub numbers : (v : V) → g.version_num (to_row v) ≡ f.version_num v
  pub flags : (v : V) → g.is_latest (to_row v) ≡ f.is_latest v
  pub demoted : (v : V) → g.set_latest false (to_row v) ≡ to_row (f.set_latest false v)

map-append : {A B : Type 0} (h : A → B) (xs ys : List A) → map h (xs ++ ys) ≡ map h xs ++ map h ys
map-append h [] ys = refl
map-append h (x ∷ xs) ys = ap (◌∷◌ (h x)) (map-append h xs ys)

module _ {V R : Type 0} ⦃f : Facet V⦄ ⦃g : Facet R⦄ (to_row : V → R) (e : Encodes to_row) where
  is_latest_of-row : (a : Uuid) (v : V) → is_latest_of a (to_row v) ≡ is_latest_of a v
  is_latest_of-row a v = rw (e.ids v, e.flags v) refl

  clashes-row : (v w : V) → clashes (to_row v) (to_row w) ≡ clashes v w
  clashes-row v w = rw (e.ids v, e.ids w, e.numbers v, e.numbers w, e.flags v, e.flags w) refl

  pub update_where-rows :
      (a : Uuid) (change : R → R) (u : V → V)
      → ((v : V) → change (to_row v) ≡ to_row (u v))
      → (vs : List V)
      → update_where (is_latest_of a) change (map to_row vs)
        ≡ map to_row (update_where (is_latest_of a) u vs)
  update_where-rows a change u same [] = refl
  update_where-rows a change u same (v ∷ vs) =
      ground (arith, is_latest_of-row a v, same v, update_where-rows a change u same vs)

  pub any_row-rows :
      (a : Uuid) (vs : List V)
      → any_row (is_latest_of a) (map to_row vs) ≡ any_row (is_latest_of a) vs
  any_row-rows a vs =
      rw
        (
          select-rows to_row (is_latest_of a) (is_latest_of a) (is_latest_of-row a) vs,
          length-map to_row (select (is_latest_of a) vs),
        )
        refl

  demote_rows-rows :
      (a : Uuid) (vs : List V) → demote_rows a (map to_row vs) ≡ map to_row (map (demote_of a) vs)
  unfolding demote_rows
  demote_rows-rows a vs =
      update_where-rows a (g.set_latest false) (f.set_latest false) e.demoted vs
      ∙ ap (map to_row) (demoted_where a vs)

  -- Of an INSERT with the next number no constraint on the versions is violated.
  pub no_clash-rows :
      (v : V) (vs : List V)
      → IsHistory 1 (facet (f.asset_id v) vs)
      → f.version_num v ≡ suc (length (facet (f.asset_id v) vs))
      → is_some (find (clashes (to_row v)) (demote_rows (f.asset_id v) (map to_row vs))) ≡ false
  no_clash-rows v vs h n = ap is_some (
      ap (find (clashes (to_row v))) (demote_rows-rows (f.asset_id v) vs)
      ∙ find-rows to_row (clashes (to_row v)) (clashes v) (clashes-row v) _
      ∙ ap (Option.map to_row) (
          no_clash v vs (
            All-map _ _ (λ w p. omega (arith, n)) (facet (f.asset_id v) vs)
              (history-below 1 (facet (f.asset_id v) vs) h))))

  pub add_version-rows :
      (v : V) (vs : List V)
      → demote_rows (f.asset_id v) (map to_row vs) ++ to_row v ∷ [] ≡ map to_row (add_version v vs)
  add_version-rows v vs =
      rw (demote_rows-rows (f.asset_id v) vs, add_version_lem v vs)
        (sym (map-append to_row (map (demote_of (f.asset_id v)) vs) (v ∷ [])))

-- ===== src/Infra/InMemory/References.antt =====
-- Writes through live references: what `demote_latest` does to the list that holds the objects.
use asset_core.Shared.{
  ℕ, zero, suc, ◌+◌, ◌<◌, ◌≡◌, refl, ap, Bool, false, ◌||◌, Option, none, some, List, [], ◌∷◌, ◌++◌,
  map, arith, ◌==◌, ℕ_eq, if◌then◌else◌, contains, get_elem?, get_elem?_ext,
}
use mathlib.Core.Option
use asset_core.Shared.Sort.{sort, insert_sorted}
use asset_core.Core.Rules.{Facet, modify, demote, demote_latest}
use asset_core.Infra.InMemory.{by_number, owned, live_versions, add_version}

module _ {V : Type 0} ⦃f : Facet V⦄ where
  get_elem?-modify :
      (i j : ℕ) (g : V → V) (vs : List V)
      → get_elem? (modify i g vs) j
        ≡ (if i == j then Option.map g (get_elem? vs j) else get_elem? vs j)
  unfolding modify
  get_elem?-modify i j g [] = ground arith
  get_elem?-modify zero zero g (v ∷ vs) = refl
  get_elem?-modify zero (suc j) g (v ∷ vs) = ground arith
  get_elem?-modify (suc i) zero g (v ∷ vs) = ground arith
  get_elem?-modify (suc i) (suc j) g (v ∷ vs) = ground (arith, get_elem?-modify i j g vs)

  demote_idem : (v : V) → demote (demote v) ≡ demote v
  demote_idem v = ground (arith, f.is_latest-set_latest false v)

  map-demote_idem : (o : Option V) → Option.map demote (Option.map demote o) ≡ Option.map demote o
  map-demote_idem none = refl
  map-demote_idem (some v) = ap some (demote_idem v)

  -- Exactly the referenced objects are demoted.
  get_elem?-demote_latest :
      (refs : List ℕ) (j : ℕ) (vs : List V)
      → get_elem? (demote_latest refs vs) j
        ≡ (if contains j refs then Option.map demote (get_elem? vs j) else get_elem? vs j)
  unfolding demote_latest contains
  get_elem?-demote_latest [] j vs = refl
  get_elem?-demote_latest (r ∷ refs) j vs = ground (
    arith,
    get_elem?-demote_latest refs j (modify r demote vs),
    get_elem?-modify r j demote vs,
    map-demote_idem (get_elem? vs j),
  )

  contains-insert_sorted :
      (j : ℕ) (x : ℕ × V) (l : List (ℕ × V))
      → contains j (map (λ r. r.0) (insert_sorted by_number x l))
        ≡ (x.0 == j || contains j (map (λ r. r.0) l))
  unfolding contains insert_sorted
  contains-insert_sorted j x [] = refl
  contains-insert_sorted j x (y ∷ l) = ground (arith, contains-insert_sorted j x l)

  contains-sort :
      (j : ℕ) (l : List (ℕ × V))
      → contains j (map (λ r. r.0) (sort by_number l)) ≡ contains j (map (λ r. r.0) l)
  unfolding contains sort
  contains-sort j [] = refl
  contains-sort j (x ∷ l) =
      ground (arith, contains-insert_sorted j x (sort by_number l), contains-sort j l)

  -- whether the object at a place belongs to the asset
  abbrev owns : ℕ → Option V → Bool
  owns a none = false
  owns a (some v) = f.asset_id v == a

  contains-owned_below :
      (a i j : ℕ) (vs : List V) → j < i → contains j (map (λ r. r.0) (owned a i vs)) ≡ false
  unfolding contains owned
  contains-owned_below a i j [] h = refl
  contains-owned_below a i j (v ∷ vs) h = ground (arith, contains-owned_below a (suc i) j vs)

  contains-owned :
      (a i j k : ℕ) (vs : List V)
      → k ≡ i + j
      → contains k (map (λ r. r.0) (owned a i vs)) ≡ owns a (get_elem? vs j)
  unfolding contains owned
  contains-owned a i j k [] e = refl
  contains-owned a i zero k (v ∷ vs) e = ground (arith, contains-owned_below a (suc i) k vs)
  contains-owned a i (suc j) k (v ∷ vs) e = ground (arith, contains-owned a (suc i) j k vs)

  abbrev pub demote_of : ℕ → V → V
  demote_of a v = if f.asset_id v == a then demote v else v

  get_elem?-map-demote_of :
      (a j : ℕ) (vs : List V)
      → get_elem? (map (demote_of a) vs) j
        ≡ (if owns a (get_elem? vs j) then Option.map demote (get_elem? vs j) else get_elem? vs j)
  get_elem?-map-demote_of a j [] = refl
  get_elem?-map-demote_of a zero (v ∷ vs) = ground arith
  get_elem?-map-demote_of a (suc j) (v ∷ vs) = get_elem?-map-demote_of a j vs

  -- The write through the references of an asset is a pass over the whole list.
  pub demote_latest-live :
      (a : ℕ) (vs : List V)
      → demote_latest (map (λ r. r.0) (live_versions a vs)) vs ≡ map (demote_of a) vs
  unfolding live_versions
  demote_latest-live a vs = get_elem?_ext _ _ (λ j. ground (
    arith,
    get_elem?-demote_latest (map (λ r. r.0) (sort by_number (owned a 0 vs))) j vs,
    contains-sort j (owned a 0 vs),
    contains-owned a 0 j j vs,
    get_elem?-map-demote_of a j vs,
  ))

  pub add_version_lem :
      (v : V) (vs : List V) → add_version v vs ≡ map (demote_of (f.asset_id v)) vs ++ v ∷ []
  unfolding add_version
  add_version_lem v vs = ap (λ l. l ++ v ∷ []) (demote_latest-live (f.asset_id v) vs)

-- ===== src/Sdk/Replica/Queue.antt =====
-- assetcore/sdk/replica.py: the queue and the seen set of the crawl, and one stored asset.
use asset_core.Shared.{
  some, ℕ, ◌+◌, ◌≤◌, ◌≡◌, ◌↔◌, inl, inr, refl, ap, String, Bool, true, false, not, List, [], ◌∷◌,
  map, length, select, arith, ◌==◌, String_eq, if◌then◌else◌, contains_text, Bool-cases, In,
  length-map,
}
use asset_core.Shared.Dict.{Dict, lookup, lookup-insert}
use asset_core.Sdk.Replica.{
  Replica, Central, Summary, Resolved, replica_row, upsert_asset, upsert_relation, relate_all,
  record_of, unseen, store,
}

length-select : {A : Type 0} (p : A → Bool) (xs : List A) → length (select p xs) ≤ length xs
length-select p [] = omega arith
length-select p (x ∷ xs) = ground (arith, length-select p xs)

pub In-select :
    {A : Type 0} (p : A → Bool) (a : A) (xs : List A)
    → In a (select p xs) ↔ (In a xs × (p a ≡ true))
In-select p a [] = ground arith
In-select p a (x ∷ xs) = elim (Bool-cases (p x)) [
  | inl held ↦ rw held (
    (λ m. elim m [
      | inl e ↦ (inl e, rw e held)
      | inr t ↦ (inr ((In-select p a xs).0 t).0, ((In-select p a xs).0 t).1)
    ]),
    (λ m. elim m.0 [ inl e ↦ inl e | inr t ↦ inr ((In-select p a xs).1 (t, m.1)) ]),
  )
  | inr failed ↦ rw failed (
    (λ m. (inr ((In-select p a xs).0 m).0, ((In-select p a xs).0 m).1)),
    (λ m. elim m.0 [
      | inl e ↦ let q = ap p e in let held = m.1 in absurd (ground arith)
      | inr t ↦ (In-select p a xs).1 (t, m.1)
    ]),
  )
]

pub contains_text-cons :
    (a b : String) (seen : List String)
    → contains_text b (a ∷ seen) ≡ (if a == b then true else contains_text b seen)
unfolding contains_text
contains_text-cons a b seen = ground arith

pub seen_more :
    (a b : String) (seen : List String)
    → contains_text b seen ≡ true
    → contains_text b (a ∷ seen) ≡ true
seen_more a b seen e = rw (contains_text-cons a b seen, e) (ground arith)

pub seen_self : (a : String) (seen : List String) → contains_text a (a ∷ seen) ≡ true
seen_self a seen = rw (contains_text-cons a a seen, (String_eq.same_iff a a).1 refl) refl

relate_all-assets :
    (a : String) (ds : List (String × String)) (conn : Replica)
    → (relate_all a ds conn).assets ≡ conn.assets
unfolding relate_all upsert_relation
relate_all-assets a [] conn = refl
relate_all-assets a ((t, l) ∷ ds) conn = relate_all-assets a ds (upsert_relation a t l "float" conn)

module _ (central : Central) where
  abbrev pub deps : String → List String
  deps a = map (λ d. d.0) (central.dependencies a)

  -- the dependencies of the ids of a list that are not seen
  abbrev pub weight : List String → List String → ℕ
  weight seen [] = 0
  weight seen (u ∷ us) =
      (if contains_text u seen then 0 else length (central.dependencies u)) + weight seen us

  pub weight-seen : (a : String) (seen us : List String) → weight (a ∷ seen) us ≤ weight seen us
  unfolding contains_text
  weight-seen a seen [] = omega arith
  weight-seen a seen (u ∷ us) = ground (arith, weight-seen a seen us)

  pub weight-drop :
      (a : String) (seen us : List String)
      → In a us
      → contains_text a seen ≡ false
      → weight (a ∷ seen) us + length (central.dependencies a) ≤ weight seen us
  unfolding contains_text
  weight-drop a seen [] m e = absurd m
  weight-drop a seen (u ∷ us) (inl p) e =
      let later = weight-seen a seen us in ground (arith, p, String_eq.same_iff a u)
  weight-drop a seen (u ∷ us) (inr m) e =
      let later = weight-drop a seen us m e in ground (arith, String_eq.same_iff a u)

  pub length-unseen :
      (seen : List String) (ds : List (String × String)) → length (unseen seen ds) ≤ length ds
  length-unseen seen ds = omega (
    arith,
    length-select (λ t. not (contains_text t seen)) (map (λ d. d.0) ds),
    length-map (λ (d : String × String). d.0) ds,
  )

module _ (central : Central) (seeds : Dict String Summary) where
  -- a row is stored for the asset, and no other
  pub store-row :
      (a b : String) (r : Resolved) (conn : Replica)
      → lookup b (store central seeds a r conn).assets ≡ (
          if a == b
          then some (replica_row (record_of a r (lookup a seeds)))
          else lookup b conn.assets)
  unfolding upsert_asset record_of
  store-row a b r conn =
      rw
        (
          relate_all-assets a (central.dependencies a)
              (upsert_asset (record_of a r (lookup a seeds)) conn),
          lookup-insert a b (replica_row (record_of a r (lookup a seeds))) conn.assets,
        )
        (elim (Bool-cases (a == b)) [ inl same ↦ rw same refl | inr other ↦ rw other refl ])

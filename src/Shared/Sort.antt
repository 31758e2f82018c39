-- ===== src/Shared/Sort.antt =====
-- Python's `sorted` and `list.sort`, which are stable: equal elements keep their order.
use mathlib.Core.Path.{◌≡◌, refl}
use mathlib.Core.Logic.{◌⊎◌, ◌↔◌, inl, inr}
use mathlib.Core.Bool.{Bool, true, false}
use mathlib.Core.List.{List, [], ◌∷◌}
use mathlib.Core.List.Perm
use mathlib.Core.List.{Perm}
use native.Mathlib.Omega.{arith}
use asset_core.Shared.Tests.{if◌then◌else◌, Bool-cases}
use asset_core.Shared.Lists.{In, All}

module _ {A : Type 0} (le : A → A → Bool) where
  unfoldable pub insert_sorted : A → List A → List A
  insert_sorted x [] = x ∷ []
  insert_sorted x (y ∷ ys) = if le x y then x ∷ y ∷ ys else y ∷ insert_sorted x ys

  unfoldable pub sort : List A → List A
  unfolding insert_sorted
  sort [] = []
  sort (x ∷ xs) = insert_sorted x (sort xs)

  -- Every element is at most each later one.
  abbrev pub IsSorted : List A → Type 0
  IsSorted [] = Unit
  IsSorted (x ∷ xs) = All (λ y. le x y ≡ true) xs × IsSorted xs

  pub In-insert_sorted : (a x : A) (ys : List A) → In a (insert_sorted x ys) ↔ ((a ≡ x) ⊎ In a ys)
  unfolding insert_sorted
  In-insert_sorted a x [] = ground arith
  In-insert_sorted a x (y ∷ ys) = ground (arith, In-insert_sorted a x ys)

  pub In-sort : (a : A) (xs : List A) → In a (sort xs) ↔ In a xs
  unfolding sort
  In-sort a [] = ground arith
  In-sort a (x ∷ xs) = ground (arith, In-insert_sorted a x (sort xs), In-sort a xs)

  pub insert_sorted-perm : (x : A) (ys : List A) → Perm (insert_sorted x ys) (x ∷ ys)
  unfolding insert_sorted
  insert_sorted-perm x [] = Perm.refl (x ∷ [])
  insert_sorted-perm x (y ∷ ys) = elim (Bool-cases (le x y)) [
    | inl h ↦ rw h (Perm.refl (x ∷ y ∷ ys))
    | inr h ↦ rw h (Perm.trans (Perm.cons y (insert_sorted-perm x ys)) (Perm.swap x y ys))
  ]

  pub sort-perm : (xs : List A) → Perm (sort xs) xs
  unfolding sort
  sort-perm [] = Perm.refl []
  sort-perm (x ∷ xs) = Perm.trans (insert_sorted-perm x (sort xs)) (Perm.cons x (sort-perm xs))

  -- A list that is sorted already is returned as it is.
  pub sort_of_IsSorted : (xs : List A) → IsSorted xs → sort xs ≡ xs
  unfolding sort
  sort_of_IsSorted [] h = refl
  sort_of_IsSorted (x ∷ []) h = refl
  sort_of_IsSorted (x ∷ y ∷ xs) h = rw (sort_of_IsSorted (y ∷ xs) h.1, h.0.0)

  module _ (le_total : (a b : A) → le a b ≡ false → le b a ≡ true)
      (le_transitive : (a b c : A) → le a b ≡ true → le b c ≡ true → le a c ≡ true) where
    All-le :
        (a b : A) (xs : List A)
        → le a b ≡ true
        → All (λ y. le b y ≡ true) xs
        → All (λ y. le a y ≡ true) xs
    All-le a b [] h k = tt
    All-le a b (x ∷ xs) h k = (le_transitive a b x h k.0, All-le a b xs h k.1)

    All-insert_sorted :
        (a x : A) (ys : List A)
        → le a x ≡ true
        → All (λ y. le a y ≡ true) ys
        → All (λ y. le a y ≡ true) (insert_sorted x ys)
    unfolding insert_sorted
    All-insert_sorted a x [] h k = (h, tt)
    All-insert_sorted a x (y ∷ ys) h k = elim (Bool-cases (le x y)) [
      | inl p ↦ rw p (h, k)
      | inr p ↦ rw p (k.0, All-insert_sorted a x ys h k.1)
    ]

    pub insert_sorted-IsSorted : (x : A) (ys : List A) → IsSorted ys → IsSorted (insert_sorted x ys)
    unfolding insert_sorted
    insert_sorted-IsSorted x [] h = (tt, tt)
    insert_sorted-IsSorted x (y ∷ ys) h = elim (Bool-cases (le x y)) [
      | inl p ↦ rw p ((p, All-le x y ys p h.0), h)
      | inr p ↦
          rw p (All-insert_sorted y x ys (le_total x y p) h.0, insert_sorted-IsSorted x ys h.1)
    ]

    pub sort-IsSorted : (xs : List A) → IsSorted (sort xs)
    unfolding sort
    sort-IsSorted [] = tt
    sort-IsSorted (x ∷ xs) = insert_sorted-IsSorted x (sort xs) (sort-IsSorted xs)

-- ===== src/Infra/InMemory/Edges.antt =====
-- The edge list: one edge for each UNIQUE(from, to, rel_type), through append and upsert.
use asset_core.Shared.{
  ◌≡◌, inl, inr, refl, ◌∙◌, Bool, true, false, none, some, List, [], ◌∷◌, ◌++◌, arith, ℕ_eq,
  Bool-cases, Option-cases, find, is_some, All, All-append,
}
use asset_core.Shared.Dict.{lookup}
use asset_core.Shared.Exec.{ok}
use asset_core.Core.Types.{RelType_eq, RelType_beq_iff}
use asset_core.Core.Entities.{Relationship}
use asset_core.Core.Rules.{Source_facet, Runtime_facet, validate_relationship}
use asset_core.Infra.InMemory.{
  InMemoryRepo, is_edge, get_edge, add_relationship, replace_edge, upsert_relationship,
}
use asset_core.Infra.InMemory.Valid.{IsValid, Unique, IsKnown}

pub is_edge-same :
    (a b r : Relationship)
    → is_edge a.from_asset a.to_asset a.rel_type b ≡ true
    → is_edge a.from_asset a.to_asset a.rel_type r ≡ is_edge b.from_asset b.to_asset b.rel_type r
unfolding is_edge
is_edge-same a b r e = ground (
  arith,
  RelType_beq_iff b.rel_type a.rel_type,
  RelType_beq_iff r.rel_type a.rel_type,
  RelType_beq_iff r.rel_type b.rel_type,
)

is_edge-sym :
    (a b : Relationship)
    → is_edge a.from_asset a.to_asset a.rel_type b ≡ is_edge b.from_asset b.to_asset b.rel_type a
unfolding is_edge
is_edge-sym a b =
    ground (arith, RelType_beq_iff b.rel_type a.rel_type, RelType_beq_iff a.rel_type b.rel_type)

pub find_ext :
    {A : Type 0} (p q : A → Bool) → ((a : A) → p a ≡ q a) → (xs : List A) → find p xs ≡ find q xs
find_ext p q h [] = refl
find_ext p q h (x ∷ xs) = ground (arith, h x, find_ext p q h xs)

find-concat :
    {A : Type 0} (p : A → Bool) (xs : List A) (a : A)
    → find p xs ≡ none
    → p a ≡ false
    → find p (xs ++ a ∷ []) ≡ none
find-concat p [] a h e = rw e
find-concat p (x ∷ xs) a h e = ground (arith, find-concat p xs a)

Unique-append :
    (rels : List Relationship) (r : Relationship)
    → find (is_edge r.from_asset r.to_asset r.rel_type) rels ≡ none
    → Unique rels
    → Unique (rels ++ r ∷ [])
Unique-append [] r e h = (refl, tt)
Unique-append (x ∷ rels) r e h = (
  find-concat (is_edge x.from_asset x.to_asset x.rel_type) rels r h.0
      (is_edge-sym x r ∙ ground arith),
  Unique-append rels r (ground arith) h.1,
)

find-replace_edge :
    (p : Relationship → Bool) (r : Relationship) (rels : List Relationship)
    → find p rels ≡ none
    → p r ≡ false
    → find p (replace_edge r rels) ≡ none
unfolding replace_edge
find-replace_edge p r [] h e = rw e
find-replace_edge p r (x ∷ rels) h e = ground (arith, find-replace_edge p r rels)

pub Unique-replace_edge :
    (r : Relationship) (rels : List Relationship) → Unique rels → Unique (replace_edge r rels)
unfolding replace_edge
Unique-replace_edge r [] h = (refl, tt)
Unique-replace_edge r (x ∷ rels) h =
    elim (Bool-cases (is_edge r.from_asset r.to_asset r.rel_type x)) [
      | inl same ↦ rw same (find_ext _ _ (λ y. is_edge-same r x y same) rels ∙ h.0, h.1)
      | inr different ↦ rw different (
        find-replace_edge (is_edge x.from_asset x.to_asset x.rel_type) r rels h.0
            (is_edge-sym x r ∙ different),
        Unique-replace_edge r rels h.1,
      )
    ]

All-replace_edge {κ} :
    (P : Relationship → Type κ) (r : Relationship) (rels : List Relationship)
    → P r
    → All P rels
    → All P (replace_edge r rels)
unfolding replace_edge
All-replace_edge P r [] p h = (p, tt)
All-replace_edge P r (x ∷ rels) p h =
    elim (Bool-cases (is_edge r.from_asset r.to_asset r.rel_type x)) [
      | inl same ↦ rw same (p, h.1)
      | inr different ↦ rw different (h.0, All-replace_edge P r rels p h.1)
    ]

-- an edge that is found has the key that was looked for, and what holds of every edge
pub find-All {κ} :
    (P : Relationship → Type κ) (p : Relationship → Bool) (r : Relationship)
    (rels : List Relationship)
    → find p rels ≡ some r
    → All P rels
    → P r × (p r ≡ true)
find-All P p r [] e h = cc
find-All P p r (x ∷ rels) e h = elim (Bool-cases (p x)) [
  | inl hit ↦ let same : r ≡ x = ground arith in rw same (h.0, hit)
  | inr miss ↦ find-All P p r rels (rw miss at e) h.1
]

module _ (r : Relationship) (s : InMemoryRepo) (valid : validate_relationship r ≡ ok tt)
    (h : IsValid s) where
  appended-IsValid :
      IsKnown s r.from_asset
      → IsKnown s r.to_asset
      → find (is_edge r.from_asset r.to_asset r.rel_type) s.rels ≡ none
      → IsValid (record s { rels = s.rels ++ r ∷ [] })
  appended-IsValid a b e = record {
    source_histories = h.source_histories;
    runtime_histories = h.runtime_histories;
    source_owners = h.source_owners;
    runtime_owners = h.runtime_owners;
    asset_keys = h.asset_keys;
    identity_keys = h.identity_keys;
    paired = h.paired;
    edges_valid = All-append _ s.rels (r ∷ []) h.edges_valid (valid, tt);
    edges_known = All-append _ s.rels (r ∷ []) h.edges_known ((a, b), tt);
    edges_unique = Unique-append s.rels r e h.edges_unique;
  }

  pub add_relationship-IsValid : IsValid (add_relationship r s).1
  unfolding add_relationship
  add_relationship-IsValid = elim (Bool-cases (is_some (lookup r.from_asset s.assets))) [
    | inr unknown ↦ rw unknown h
    | inl a ↦ elim (Bool-cases (is_some (lookup r.to_asset s.assets))) [
      | inr unknown ↦ rw (a, unknown) h
      | inl b ↦ elim (Option-cases (find (is_edge r.from_asset r.to_asset r.rel_type) s.rels)) [
        | inl new ↦ rw (a, b, new) (appended-IsValid a b new)
        | inr (old, e) ↦ rw (a, b, e) h
      ]
    ]
  ]

  -- the ends of an edge that is found are known assets
  pub found-IsKnown :
      (old : Relationship)
      → find (is_edge r.from_asset r.to_asset r.rel_type) s.rels ≡ some old
      → IsKnown s r.from_asset × IsKnown s r.to_asset
  unfolding is_edge
  found-IsKnown old e =
      let (known, key) =
        find-All (λ x. IsKnown s x.from_asset × IsKnown s x.to_asset)
          (is_edge r.from_asset r.to_asset r.rel_type) old s.rels e h.edges_known in
      let p : old.from_asset ≡ r.from_asset = ground arith in
      let q : old.to_asset ≡ r.to_asset = ground arith in (rw p at known.0, rw q at known.1)

  pub upsert_relationship-IsValid :
      (old : Relationship)
      → get_edge r.from_asset r.to_asset r.rel_type s ≡ some old
      → IsValid (upsert_relationship r s).1
  unfolding upsert_relationship get_edge
  upsert_relationship-IsValid old e = record {
    source_histories = h.source_histories;
    runtime_histories = h.runtime_histories;
    source_owners = h.source_owners;
    runtime_owners = h.runtime_owners;
    asset_keys = h.asset_keys;
    identity_keys = h.identity_keys;
    paired = h.paired;
    edges_valid = All-replace_edge _ r s.rels valid h.edges_valid;
    edges_known = All-replace_edge _ r s.rels (found-IsKnown old e) h.edges_known;
    edges_unique = Unique-replace_edge r s.rels h.edges_unique;
  }

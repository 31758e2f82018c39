-- ===== src/Infra/Sqlite/Index.antt =====
-- The index of the identities: one row for each identity with a text, and no other.
use mathlib.Core.List.{append-nil}
use asset_core.Shared.{
  ◌≡◌, ◌⊎◌, refl, ap, ◌∙◌, inl, inr, String, not, Option, none, some, List, [], ◌∷◌, ◌==◌,
  if◌then◌else◌, select, select-append, ℕ_eq, String_eq, arith, All, Bool-cases, nat_eq_iff,
}
use asset_core.Shared.Dict.{Dict, lookup, insert, values, lookup-insert, UniqueKeys}
use asset_core.Core.Entities.{Uuid, IdentityFacet}
use asset_core.Infra.Sqlite.{
  Tables, identity_text, reindex_identity, backfill_fts, init_identity_fts,
}

abbrev pub words_of : IdentityFacet → String
words_of i = identity_text i.display_name i.taxonomy i.tags

-- the rows of the index that an asset should have
abbrev pub entries : Option IdentityFacet → List (Uuid × String)
entries none = []
entries (some i) = if words_of i == "" then [] else (i.asset_id, words_of i) ∷ []

abbrev pub rows_of : Uuid → List (Uuid × String) → List (Uuid × String)
rows_of a fts = select (λ e. e.0 == a) fts

abbrev pub IsIndexed : Dict Uuid IdentityFacet → List (Uuid × String) → Type 0
IsIndexed d fts = (a : Uuid) → rows_of a fts ≡ entries (lookup a d)

rows_of-deleted :
    (a b : Uuid) (fts : List (Uuid × String))
    → rows_of a (select (λ e. not (e.0 == b)) fts) ≡ (if b == a then [] else rows_of a fts)
rows_of-deleted a b [] = ground arith
rows_of-deleted a b (e ∷ fts) = ground (arith, rows_of-deleted a b fts)

pub rows_of-reindex_identity :
    (a : Uuid) (i : IdentityFacet) (fts : List (Uuid × String))
    → rows_of a (reindex_identity i fts)
      ≡ (if i.asset_id == a then entries (some i) else rows_of a fts)
unfolding reindex_identity
rows_of-reindex_identity a i fts =
    let deleted = rows_of-deleted a i.asset_id fts in
    elim (Bool-cases (words_of i == "")) [
      | inl wordless ↦ rw (wordless, deleted) refl
      | inr worded ↦
          let appended =
            select-append (λ e. e.0 == a) (select (λ e. not (e.0 == i.asset_id)) fts)
              ((i.asset_id, words_of i) ∷ []) in
          elim (Bool-cases (i.asset_id == a)) [
            | inl same ↦ rw (worded, appended, deleted, same) refl
            | inr other ↦ rw (worded, appended, deleted, other) (append-nil (rows_of a fts))
          ]
    ]

-- Writing an identity and its row keeps the index.
pub reindex_identity-IsIndexed :
    (i : IdentityFacet) (d : Dict Uuid IdentityFacet) (fts : List (Uuid × String))
    → IsIndexed d fts
    → IsIndexed (insert i.asset_id i d) (reindex_identity i fts)
reindex_identity-IsIndexed i d fts h a =
    rows_of-reindex_identity a i fts ∙ elim (Bool-cases (i.asset_id == a)) [
      | inl same ↦ rw (lookup-insert i.asset_id a i d, same) refl
      | inr other ↦ rw (lookup-insert i.asset_id a i d, other) (h a)
    ]

rows_of-backfill_fts :
    (d : Dict Uuid IdentityFacet)
    → All (λ e. e.1.asset_id ≡ e.0) d
    → UniqueKeys d
    → IsIndexed d (backfill_fts (values d))
unfolding backfill_fts lookup
rows_of-backfill_fts [] h u a = refl
rows_of-backfill_fts ((j, i) ∷ d) h u a =
    let rest = rows_of-backfill_fts d h.1 u.1 a in
    elim (Bool-cases (j == a)) [
      | inl same ↦
          let p : j ≡ a = (nat_eq_iff j a).0 same in
          let none_left : lookup a d ≡ none = rw p at u.0 in
          let tail : rows_of a (backfill_fts (values d)) ≡ [] = rest ∙ ap entries none_left in
          elim (Bool-cases (words_of i == "")) [
            | inl wordless ↦ rw (same, wordless) tail
            | inr worded ↦ rw (same, worded, h.0) (rw same (ap (◌∷◌ (j, words_of i)) tail))
          ]
      | inr other ↦ elim (Bool-cases (words_of i == "")) [
        | inl wordless ↦ rw (other, wordless) rest
        | inr worded ↦ rw (other, worded, h.0) (rw other rest)
      ]
    ]

-- Opening a database makes its index right, if it was right or was empty, as in a database that was
-- created before there was one.
pub init_identity_fts-IsIndexed :
    (t : Tables) (d : Dict Uuid IdentityFacet)
    → t.facet_identity ≡ values d
    → All (λ e. e.1.asset_id ≡ e.0) d
    → UniqueKeys d
    → (t.identity_fts ≡ []) ⊎ IsIndexed d t.identity_fts
    → IsIndexed d (init_identity_fts t).identity_fts
unfolding init_identity_fts
init_identity_fts-IsIndexed t d rows h u indexed = go t.identity_fts refl indexed
  where
    go :
        (fts : List (Uuid × String))
        → t.identity_fts ≡ fts
        → (fts ≡ []) ⊎ IsIndexed d fts
        → IsIndexed d (init_identity_fts t).identity_fts
    go [] e was = rw (e, rows) (rows_of-backfill_fts d h u)
    go (x ∷ fts) e (inl empty) = cc
    go (x ∷ fts) e (inr was) = rw e was

-- ===== src/Infra/Sqlite/Identities.antt =====
-- `identities` over the values of a dict.
use asset_core.Shared.{
  All, Bool-cases, inl, inr, nat_eq_iff, ◌≡◌, refl, ap, ◌∙◌, sym, Bool, Option, none, some, List,
  [], ◌∷◌, ◌==◌, if◌then◌else◌, select, contains, ℕ_eq, String_eq, arith,
}
use asset_core.Shared.Dict.{Dict, lookup, insert, values, UniqueKeys, lookup-insert}
use asset_core.Core.Types.{Lifecycle_eq, RelType_eq}
use asset_core.Core.Entities.{Uuid, IdentityFacet}
use asset_core.Core.Rules.{Source_facet, Runtime_facet}
use asset_core.Infra.Sqlite.{by_asset}
use asset_core.Infra.Sqlite.Rows.{SourceRow_facet, RuntimeRow_facet}

-- the first answer, and otherwise the second
abbrev pub or_then : Option IdentityFacet → Option IdentityFacet → Option IdentityFacet
or_then none o = o
or_then (some v) o = some v

pub or_then-none : (o : Option IdentityFacet) → or_then o none ≡ o
or_then-none none = refl
or_then-none (some v) = refl

lookup-select-none :
    (p : Uuid × IdentityFacet → Bool) (j : Uuid) (d : Dict Uuid IdentityFacet)
    → lookup j d ≡ none
    → lookup j (select p d) ≡ none
unfolding lookup
lookup-select-none p j [] e = refl
lookup-select-none p j ((k, v) ∷ d) e = ground (arith, lookup-select-none p j d)

lookup-skip :
    (b j : Uuid) (v : IdentityFacet) (o : Option IdentityFacet) (e : Dict Uuid IdentityFacet)
    → (j ≡ b → o ≡ none)
    → or_then o (lookup b (insert j v e)) ≡ or_then (if j == b then some v else o) (lookup b e)
lookup-skip b j v o e free = elim (Bool-cases (j == b)) [
  | inl same ↦
      let p : j ≡ b = (nat_eq_iff j b).0 same in rw (free p, same, lookup-insert j b v e, same) refl
  | inr other ↦ rw (lookup-insert j b v e, other) refl
]

-- the rows of a query on identities go into a dict as they stand in one
pub by_asset-values :
    (ids : List Uuid) (d : Dict Uuid IdentityFacet) (b : Uuid) (e : Dict Uuid IdentityFacet)
    → All (λ x. x.1.asset_id ≡ x.0) d
    → UniqueKeys d
    → lookup b (by_asset (select (λ r. contains r.asset_id ids) (values d)) e)
      ≡ or_then (lookup b (select (λ x. contains x.0 ids) d)) (lookup b e)
unfolding by_asset lookup
by_asset-values ids [] b e h u = refl
by_asset-values ids ((j, v) ∷ d) b e h u = elim (Bool-cases (contains j ids)) [
  | inr out ↦ rw (out, ap (λ x. contains x ids) h.0 ∙ out) (by_asset-values ids d b e h.1 u.1)
  | inl listed ↦
      rw (listed, ap (λ x. contains x ids) h.0 ∙ listed)
        (by_asset-values ids d b (insert v.asset_id v e) h.1 u.1
          ∙ ap
              (λ x. or_then (lookup b (select (λ y. contains y.0 ids) d)) (lookup b (insert x v e)))
              h.0
          ∙ lookup-skip b j v (lookup b (select (λ x. contains x.0 ids) d)) e
              (λ p. rw (sym p) (lookup-select-none (λ x. contains x.0 ids) j d u.0)))
]

pub no_ids : (d : Dict Uuid IdentityFacet) → select (λ x. contains x.0 []) d ≡ []
unfolding contains
no_ids [] = refl
no_ids (x ∷ d) = no_ids d

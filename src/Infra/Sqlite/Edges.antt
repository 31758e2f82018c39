-- ===== src/Infra/Sqlite/Edges.antt =====
-- The two statements on edges, over tables that hold a state of the in-memory repository.
use asset_core.Shared.{
  ◌≡◌, refl, ap, ◌∙◌, inl, inr, String, Bool, true, ◌&&◌, none, some, List, [], ◌∷◌, map,
  if◌then◌else◌, is_some, find, ℕ_eq, String_eq, arith, Bool-cases, Option-cases,
}
use asset_core.Shared.Dict.{lookup}
use asset_core.Shared.Exec.{ok}
use asset_core.Core.Types.{RelType_beq_iff}
use asset_core.Core.Entities.{Uuid, Relationship}
use asset_core.Core.Rules.{validate_relationship}
use asset_core.Infra.InMemory.{InMemoryRepo, replace_edge, is_edge}
use asset_core.Infra.InMemory as Memory
use asset_core.Infra.InMemory.Edges.{is_edge-same, find_ext, found-IsKnown}
use asset_core.Infra.InMemory.Valid.{Unique}
use asset_core.Infra.Sqlite.{
  Tables, Violation, Fault, transaction, executed, violates, foreign_key, as_edge_exists, as_it_is,
  update_where, returns,
}
use asset_core.Infra.Sqlite.Facets as Facets
use asset_core.Infra.Sqlite.Facets.{same_edge, update_edge, is_edge_row, has_ends}
use asset_core.Infra.Sqlite.Mirrors.{mirror, IsKeyed, is_asset-mirror, is_some-map, find-rows}
use asset_core.Infra.Sqlite.Reads.{is_edge_row-rel_params}
use asset_core.Infra.Sqlite.Writes.{T, Alike, insert_checks, map-append}
use asset_core.Infra.Sqlite.Rows.{rel_params}

abbrev key_of : Relationship → Relationship → Bool
key_of r = is_edge r.from_asset r.to_asset r.rel_type

same_edge-rel_params : (r x : Relationship) → same_edge (rel_params r) (rel_params x) ≡ key_of r x
unfolding rel_params
same_edge-rel_params r x = is_edge_row-rel_params r.from_asset r.to_asset r.rel_type x

find-edge :
    (r : Relationship) (rels : List Relationship)
    → is_some (find (same_edge (rel_params r)) (map rel_params rels))
      ≡ is_some (find (key_of r) rels)
find-edge r rels =
    ap is_some
      (find-rows rel_params (same_edge (rel_params r)) (key_of r) (same_edge-rel_params r) rels)
    ∙ is_some-map rel_params (find (key_of r) rels)

no_edge-update :
    (r : Relationship) (rels : List Relationship)
    → find (key_of r) rels ≡ none
    → update_where (same_edge (rel_params r)) (update_edge (rel_params r)) (map rel_params rels)
      ≡ map rel_params rels
no_edge-update r [] e = refl
no_edge-update r (x ∷ rels) e = ground (arith, same_edge-rel_params r x, no_edge-update r rels)

update_edge-rel_params :
    (r x : Relationship)
    → key_of r x ≡ true
    → update_edge (rel_params r) (rel_params x) ≡ rel_params r
unfolding rel_params is_edge
update_edge-rel_params r x e =
    let p : x.from_asset ≡ r.from_asset = ground arith in
    let q : x.to_asset ≡ r.to_asset = ground arith in
    let l : x.rel_type ≡ r.rel_type = ground (arith, RelType_beq_iff x.rel_type r.rel_type) in
    rw (p, q, l) refl

-- ON CONFLICT writes to the one row with the key, as the loop over the list does.
update-replace_edge :
    (r old : Relationship) (rels : List Relationship)
    → Unique rels
    → find (key_of r) rels ≡ some old
    → update_where (same_edge (rel_params r)) (update_edge (rel_params r)) (map rel_params rels)
      ≡ map rel_params (replace_edge r rels)
unfolding replace_edge
update-replace_edge r old [] u e = cc
update-replace_edge r old (x ∷ rels) u e = elim (Bool-cases (key_of r x)) [
  | inl same ↦
      let rest = no_edge-update r rels (find_ext _ _ (λ y. is_edge-same r x y same) rels ∙ u.0) in
      let row = update_edge-rel_params r x same in ground (arith, same_edge-rel_params r x)
  | inr other ↦
      let rest = update-replace_edge r old rels u.1 (rw other at e) in
      ground (arith, same_edge-rel_params r x)
]

on_conflict :
    (except : Violation → Fault) (clash known : Bool) (t updated inserted : Tables)
    → clash ≡ true
    → transaction except
        (λ u.
          if clash
          then executed tt updated
          else if known
          then executed tt inserted
          else violates foreign_key)
        t
      ≡ (returns tt, updated)
on_conflict except clash known t updated inserted e = rw e refl

module _ (s : InMemoryRepo) (fts : List (Uuid × String)) (h : IsKeyed s) (r : Relationship)
    (valid : validate_relationship r ≡ ok tt) where
  has_ends-mirror :
      has_ends r (mirror s fts)
      ≡ (is_some (lookup r.from_asset s.assets) && is_some (lookup r.to_asset s.assets))
  has_ends-mirror =
      rw (is_asset-mirror r.from_asset s fts h.valid, is_asset-mirror r.to_asset s fts h.valid) refl

  pub add_relationship-Alike :
      Alike s fts h fts (Facets.add_relationship r (T s fts h)) (Memory.add_relationship r s)
  unfolding Facets.add_relationship Memory.add_relationship Memory.get_edge
  add_relationship-Alike =
      insert_checks as_edge_exists _ _ (T s fts h) _
      ∙ rw (find-edge r s.rels, has_ends-mirror)
          (elim (Option-cases (find (key_of r) s.rels)) [
            | inr (old, e) ↦
                let (a, b) = found-IsKnown r s valid h.valid old e in
                rw (a, b, Memory.get_edge, e) refl
            | inl new ↦ elim (Bool-cases (is_some (lookup r.from_asset s.assets))) [
              | inr missing ↦ rw (new, missing) refl
              | inl a ↦ elim (Bool-cases (is_some (lookup r.to_asset s.assets))) [
                | inr missing ↦ rw (new, a, missing) refl
                | inl b ↦
                    rw (a, b, Memory.get_edge, new, map-append rel_params s.rels (r ∷ [])) refl
              ]
            ]
          ])

  pub upsert_relationship-Alike :
      (old : Relationship)
      → Memory.get_edge r.from_asset r.to_asset r.rel_type s ≡ some old
      → Alike s fts h fts
          (Facets.upsert_relationship r (T s fts h))
          (Memory.upsert_relationship r s)
  unfolding Facets.upsert_relationship Memory.upsert_relationship Memory.get_edge
  upsert_relationship-Alike old e =
      on_conflict as_it_is _ _ (T s fts h) _ _ (find-edge r s.rels ∙ ap is_some e)
      ∙ ap (λ rows. (returns tt, record (T s fts h) { relationship = rows }))
          (update-replace_edge r old s.rels h.valid.edges_unique e)

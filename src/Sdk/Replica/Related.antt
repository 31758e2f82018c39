-- ===== src/Sdk/Replica/Related.antt =====
-- assetcore/sdk/replica.py: the relations that the crawl stores for one asset.
use asset_core.Shared.{
  ◌≡◌, ◌↔◌, ◌⊎◌, inl, inr, refl, ap, ◌∙◌, String, true, not, List, [], ◌∷◌, select, arith,
  String_eq, Bool-cases, In, In-append,
}
use asset_core.Sdk.Replica.{RelationRow, Replica, same_relation, upsert_relation, relate_all}
use asset_core.Sdk.Replica.Queue.{In-select}

abbrev pub float_edge : String → String × String → RelationRow
float_edge a d = record { from_id = a; to_id = d.0; rel_type = d.1; binding_mode = "float" }

abbrev pub AllFloat : Replica → Type 0
AllFloat conn = (row : RelationRow) → In row conn.relations → row.binding_mode ≡ "float"

row_path :
    (r s : RelationRow)
    → r.from_id ≡ s.from_id
    → r.to_id ≡ s.to_id
    → r.rel_type ≡ s.rel_type
    → r.binding_mode ≡ s.binding_mode
    → r ≡ s
row_path r s p q l m =
    λ i. record { from_id = p i; to_id = q i; rel_type = l i; binding_mode = m i }

same_relation_row :
    (a t l : String) (row : RelationRow)
    → row.binding_mode ≡ "float"
    → same_relation a t l row ≡ true
    → row ≡ float_edge a (t, l)
same_relation_row a t l row float same =
    row_path row (float_edge a (t, l)) ((String_eq.same_iff row.from_id a).0 (ground (arith, same)))
      ((String_eq.same_iff row.to_id t).0 (ground (arith, same)))
      ((String_eq.same_iff row.rel_type l).0 (ground (arith, same))) float

upsert_relation-rows :
    (a t l : String) (conn : Replica) (row : RelationRow)
    → AllFloat conn
    → In row (upsert_relation a t l "float" conn).relations
      ↔ (In row conn.relations ⊎ (row ≡ float_edge a (t, l)))
unfolding upsert_relation
upsert_relation-rows a t l conn row floats =
    let kept = In-select (λ (r : RelationRow). not (same_relation a t l r)) row conn.relations in
    let both =
      In-append row (select (λ r. not (same_relation a t l r)) conn.relations)
        (float_edge a (t, l) ∷ []) in
    (
      (λ m. elim (both.0 m) [
        | inl i ↦ inl (kept.0 i).0
        | inr (inl e) ↦ inr e
        | inr (inr i) ↦ absurd i
      ]),
      (λ m. elim m [
        | inl i ↦ elim (Bool-cases (same_relation a t l row)) [
          | inl same ↦ both.1 (inr (inl (same_relation_row a t l row (floats row i) same)))
          | inr other ↦ both.1 (inl (kept.1 (i, rw other refl)))
        ]
        | inr e ↦ both.1 (inr (inl e))
      ]),
    )

upsert_relation-AllFloat :
    (a t l : String) (conn : Replica)
    → AllFloat conn
    → AllFloat (upsert_relation a t l "float" conn)
upsert_relation-AllFloat a t l conn floats row m =
    elim ((upsert_relation-rows a t l conn row floats).0 m) [
      | inl i ↦ floats row i
      | inr e ↦ ap (λ r. r.binding_mode) e
    ]

-- the relations of the asset are added, and no other
pub relate_all-rows :
    (a : String) (ds : List (String × String)) (conn : Replica) (row : RelationRow)
    → AllFloat conn
    → In row (relate_all a ds conn).relations
      ↔ (In row conn.relations ⊎ ((d : String × String) × In d ds × (row ≡ float_edge a d)))
unfolding relate_all
relate_all-rows a [] conn row floats =
    ((λ m. inl m), (λ s. elim s [ inl m ↦ m | inr t ↦ absurd t.1 ]))
relate_all-rows a ((t, l) ∷ ds) conn row floats =
    let now = upsert_relation-rows a t l conn row floats in
    let later =
      relate_all-rows a ds (upsert_relation a t l "float" conn) row
        (upsert_relation-AllFloat a t l conn floats) in
    (
      (λ m. elim (later.0 m) [
        | inl i ↦ elim (now.0 i) [ inl j ↦ inl j | inr e ↦ inr ((t, l), inl refl, e) ]
        | inr (d, i, e) ↦ inr (d, inr i, e)
      ]),
      (λ s. elim s [
        | inl j ↦ later.1 (inl (now.1 (inl j)))
        | inr (d, inl p, e) ↦ later.1 (inl (now.1 (inr (e ∙ ap (float_edge a) p))))
        | inr (d, inr i, e) ↦ later.1 (inr (d, i, e))
      ]),
    )

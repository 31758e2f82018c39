-- ===== src/Infra/Sqlite/Orders.antt =====
-- The rows of `_edges` in another order are read as the edges in another order.
use mathlib.Core.List.{Permᴰ}
use asset_core.Shared.{◌≡◌, refl, ap, ◌∙◌, List, [], ◌∷◌, map, ℕ_eq, String_eq}
use asset_core.Core.Types.{Lifecycle_eq, RelType_eq}
use asset_core.Core.Entities.{Relationship}
use asset_core.Core.Rules.{Source_facet, Runtime_facet}
use asset_core.Infra.Sqlite.{Outcome, returns, read_all}
use asset_core.Infra.Sqlite.Rows.{
  RelationshipRow, rel_params, row_to_rel, SourceRow_facet, RuntimeRow_facet, row_to_rel-rel_params,
}

-- some order of the rows
abbrev pub IsOrder : (List RelationshipRow → List RelationshipRow) → Type 0
IsOrder order = (rows : List RelationshipRow) → Permᴰ (order rows) rows

-- some order of what the other returns
abbrev pub Reordered : Outcome (List Relationship) → List Relationship → Type 0
Reordered o all = (es : List Relationship) × (o ≡ returns es) × Permᴰ es all

-- the rows of a list of edges
abbrev pub Rows : List RelationshipRow → List Relationship → Type 0
Rows [] [] = Unit
Rows (r ∷ rows) (e ∷ es) = (r ≡ rel_params e) × Rows rows es
Rows _ _ = ⊥

pub Rows-read_all :
    (rows : List RelationshipRow) (es : List Relationship)
    → Rows rows es
    → read_all row_to_rel rows ≡ returns es
unfolding read_all
Rows-read_all [] [] h = refl
Rows-read_all [] (e ∷ es) h = absurd h
Rows-read_all (r ∷ rows) [] h = absurd h
Rows-read_all (r ∷ rows) (e ∷ es) h =
    rw (read_all, ap row_to_rel h.0 ∙ row_to_rel-rel_params e, Rows-read_all rows es h.1) refl

pub Rows-map : (es : List Relationship) → Rows (map rel_params es) es
Rows-map [] = tt
Rows-map (e ∷ es) = (refl, Rows-map es)

pub Rows-reordered :
    {rows rows' : List RelationshipRow}
    → Permᴰ rows rows'
    → (es : List Relationship) → Rows rows' es
    → (es' : List Relationship) × Rows rows es' × Permᴰ es' es
Rows-reordered Permᴰ.nil [] h = ([], tt, Permᴰ.nil)
Rows-reordered Permᴰ.nil (e ∷ es) h = absurd h
Rows-reordered (Permᴰ.cons q p) [] h = absurd h
Rows-reordered (Permᴰ.cons q p) (e ∷ es) h =
    let (es', rows, p') = Rows-reordered p es h.1 in (e ∷ es', (q ∙ h.0, rows), Permᴰ.cons refl p')
Rows-reordered (Permᴰ.swap q r) [] h = absurd h
Rows-reordered (Permᴰ.swap q r) (d ∷ []) h = absurd h.1
Rows-reordered (Permᴰ.swap q r) (d ∷ e ∷ es) h =
    (e ∷ d ∷ es, (q ∙ h.1.0, (r ∙ h.0, h.1.1)), Permᴰ.swap refl refl)
Rows-reordered (Permᴰ.trans p q) es h =
    let (es', h', p') = Rows-reordered q es h in
    let (es'', h'', q') = Rows-reordered p es' h' in (es'', h'', Permᴰ.trans q' p')

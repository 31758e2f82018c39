-- ===== src/Service/Routes/Reads.antt =====
-- The open endpoints of assetcore/service/routes.py, which only read.
use asset_core.Shared.{
  ℕ, String, not, Option, none, some, List, [], ◌∷◌, map, select, ◌==◌, String_eq, ℕ_eq,
  if◌then◌else◌, is_none,
}
use mathlib.Core.Option
use asset_core.Core.Types.{RelType}
use asset_core.Core.Types.Values.{rel_type_of}
use asset_core.Core.Entities.{Uuid, Time}
use asset_core.Core.Ports.{AssetRepo}
use asset_core.App.Services as Services
use asset_core.App.Services.{Listed}
use asset_core.Service.Schemas.{
  SourceOut, RuntimeOut, ResolveResponse, AssetSummaryOut, RelationshipOut, WorklistItem,
  GraphNodeOut, meta_out, identity_out, source_out, runtime_out, relationship_out,
}
use asset_core.Service.Routes.{Answer, answered, http_error}

-- `_parse_rel_types` of the pieces between the commas; an empty or a missing text is `none`
unfoldable pub parse_rel_types : Option (List String) → Option (List String)
parse_rel_types none = none
parse_rel_types (some pieces) = some (select (λ t. not (t == "")) pieces)

-- `{RelType(rt) for rt in rel_types}`
unfoldable pub rel_types_of : List String → Option (List RelType)
unfolding rel_type_of
rel_types_of [] = some []
rel_types_of (t ∷ ts) =
    let rest = rel_types_of ts in
    elim (rel_type_of t) [ none ↦ none | some r ↦ Option.map (λ rs. r ∷ rs) rest ]

abbrev pub graph_nodes : List (Uuid × ℕ × RelType) → List GraphNodeOut
graph_nodes reached = map (λ n. record { asset_id = n.0; depth = n.1; rel_type = n.2 }) reached

-- the answer of a closure endpoint, where the walk has fuel
abbrev pub graph_answer :
    Option (List String)
    → (Option (List RelType) → Option (List (Uuid × ℕ × RelType)))
    → Answer (Option (List GraphNodeOut))
graph_answer none closure = answered 200 (Option.map graph_nodes (closure none))
graph_answer (some names) closure = elim (rel_types_of names) [
  | none ↦ http_error 400
  | some rel_types ↦ answered 200 (Option.map graph_nodes (closure (some rel_types)))
]

module _ {S : Type 0} (repo : AssetRepo S) where
  -- `limit: int = Query(default=500, ge=1, le=5000)` is given
  unfoldable pub list_assets :
      Option String → Option String → Option Time → ℕ → ℕ → S → Answer (List AssetSummaryOut)
  list_assets created_by taxonomy_prefix updated_since limit offset s = answered 200 (
      map
        (λ a. record {
          id = a.meta.id;
          asset_type = a.meta.asset_type;
          created_by = a.meta.created_by;
          created_at = a.meta.created_at;
          meta = some (meta_out a.meta);
          identity = Option.map identity_out a.identity;
          source = Option.map source_out a.source;
        })
        (Services.list_assets repo created_by taxonomy_prefix updated_since (some limit) offset s))

  unfoldable pub resolve : Uuid → S → Answer ResolveResponse
  resolve asset_id s =
      let r = Services.resolve repo asset_id s in
      if is_none r.meta
      then http_error 404
      else answered 200 (record {
        id = r.id;
        meta = Option.map meta_out r.meta;
        identity = Option.map identity_out r.identity;
        source = Option.map source_out r.source_version;
        runtime = Option.map runtime_out r.runtime_version;
      })

  unfoldable pub source_versions : Uuid → S → Answer (List SourceOut)
  source_versions asset_id s =
      if is_none (repo.get_asset asset_id s)
      then http_error 404
      else answered 200 (map source_out (Services.source_versions repo asset_id s))

  unfoldable pub runtime_versions : Uuid → S → Answer (List RuntimeOut)
  runtime_versions asset_id s =
      if is_none (repo.get_asset asset_id s)
      then http_error 404
      else answered 200 (map runtime_out (Services.runtime_versions repo asset_id s))

  unfoldable pub resolve_dependency : Uuid → Uuid → S → Answer (Option SourceOut)
  resolve_dependency frm to s =
      answered 200 (Option.map source_out (Services.resolve_dependency repo frm to s))

  unfoldable pub used_by : Uuid → S → Answer (List RelationshipOut)
  used_by asset_id s = answered 200 (map relationship_out (Services.used_by repo asset_id s))

  unfoldable pub lineage : Uuid → S → Answer (List RelationshipOut)
  lineage asset_id s = answered 200 (map relationship_out (Services.lineage repo asset_id s))

  unfoldable pub dependents :
      ℕ → Uuid → Option (List String) → Option ℕ → S → Answer (Option (List GraphNodeOut))
  unfolding parse_rel_types rel_types_of
  dependents fuel asset_id rel_types depth s =
      graph_answer (parse_rel_types rel_types)
        (λ want. Services.dependents repo fuel asset_id want depth s)

  unfoldable pub dependencies :
      ℕ → Uuid → Option (List String) → Option ℕ → S → Answer (Option (List GraphNodeOut))
  unfolding parse_rel_types rel_types_of
  dependencies fuel asset_id rel_types depth s =
      graph_answer (parse_rel_types rel_types)
        (λ want. Services.dependencies repo fuel asset_id want depth s)

  unfoldable pub stale_derivations : Uuid → S → Answer (List RelationshipOut)
  stale_derivations asset_id s =
      answered 200 (map relationship_out (Services.stale_derivations repo asset_id s))

  unfoldable pub backfill_worklist : ℕ → ℕ → S → Answer (List WorklistItem)
  backfill_worklist limit offset s = answered 200 (
      map
        (λ w. record {
          id = w.0.id;
          asset_type = w.0.asset_type;
          created_by = w.0.created_by;
          created_at = w.0.created_at;
          origin = w.0.origin;
          display_name = elim w.1 [ none ↦ none | some identity ↦ identity.display_name ];
        })
        (Services.backfill_worklist repo (some limit) offset s))

  unfoldable pub floating_dependencies : Uuid → S → Answer (List RelationshipOut)
  floating_dependencies asset_id s =
      answered 200 (map relationship_out (Services.floating_dependencies repo asset_id s))

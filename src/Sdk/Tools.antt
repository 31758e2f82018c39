-- ===== src/Sdk/Tools.antt =====
-- assetcore/sdk/tools.py: the operations that are made of several calls of the client. What they use of
-- the client is a record of calls, each of which may raise, as `resolve` does of an unknown id.
pub mod Prefix
use Prim.Native.String.{◌++◌ as append, len, slice}
use text.Mathlib.Text.{starts_with}
use asset_core.Shared.{
  ℕ, ◌+◌, ◌-◌, String, Bool, true, false, ◌||◌, Option, none, some, List, [], ◌∷◌, ◌++◌, map,
  length, leb, ◌==◌, ℕ_eq, String_eq, if◌then◌else◌, is_some,
}
use asset_core.Shared.Dict.{Dict, lookup, insert}
use asset_core.Shared.Sort.{sort, insert_sorted}
use asset_core.Shared.Exec.{Exec, return, raise, ◌>>=◌, ◌>>◌, value_error, missing_name, ok}
use asset_core.Core.Entities.{Uuid, SourceVersion, IdentityFacet}
use asset_core.Core.Types.{RelType}
use asset_core.Core.Ports.{AssetRepo, EventSink, Host}
use asset_core.App.World.{World, query}
use asset_core.App.Verbs as Verbs
use asset_core.App.Verbs.{FacetName, source, runtime}
use asset_core.App.Queries as Queries
use asset_core.App.Queries.{MoveSpec}

-- `source` of `resolve` by its location, `identity` by its display name, and the three writes
pub record Client (C : Type 0) : Type 0 where
  pub source_uri : Uuid → Exec C (Option String)
  pub display_name : Uuid → Exec C (Option String)
  pub relocate : Uuid → String → String → FacetName → Option String → Exec C (Unit {0})
  pub rename : Uuid → String → String → Option String → Exec C (Unit {0})
  pub bulk_relocate : List MoveSpec → Exec C ℕ

-- `s.endswith("/")`
abbrev pub ends_with_slash : String → Bool
ends_with_slash s = slice s (len s - 1) (len s) == "/"

-- `p if p.endswith("/") else p + "/"`
unfoldable pub directory : String → String
directory p = if ends_with_slash p then p else append p "/"

-- the new location of a source under a directory
unfoldable pub moved_uri : String → String → String → Option String
moved_uri old_dir new_dir uri =
    if starts_with uri old_dir
    then some (append new_dir (slice uri (len old_dir) (len uri)))
    else none

pub record Move : Type 0 where
  pub asset_id : Uuid
  pub frm : String
  pub to : String

pub record Plan : Type 0 where
  pub moves : List Move
  pub skipped : List Uuid

-- one round of the loop of `plan_prefix_moves`
abbrev pub plan_step : Uuid → Option String → String → String → Plan → Plan
plan_step a none old_dir new_dir rest = record rest { skipped = a ∷ rest.skipped }
plan_step a (some uri) old_dir new_dir rest = elim (moved_uri old_dir new_dir uri) [
  | none ↦ record rest { skipped = a ∷ rest.skipped }
  | some new_uri ↦ record rest {
    moves = (record { asset_id = a; frm = uri; to = new_uri }) ∷ rest.moves;
  }
]

-- the dict that `relocate_prefix` returns
pub record Moved : Type 0 where
  pub moved : ℕ
  pub skipped : ℕ
  pub plan : Plan

module _ {C : Type 0} (client : Client C) where
  unfoldable pub plan_moves : List Uuid → String → String → Exec C Plan
  unfolding moved_uri
  plan_moves [] old_dir new_dir = return (record { moves = []; skipped = [] })
  plan_moves (a ∷ asset_ids) old_dir new_dir = do
    uri ← client.source_uri a
    rest ← plan_moves asset_ids old_dir new_dir
    return (plan_step a uri old_dir new_dir rest)

  unfoldable pub plan_prefix_moves : List Uuid → String → String → Exec C Plan
  unfolding plan_moves directory
  plan_prefix_moves asset_ids old_prefix new_prefix =
      plan_moves asset_ids (directory old_prefix) (directory new_prefix)

  -- the argument of the bulk relocate
  abbrev pub spec_of : String → Move → MoveSpec
  spec_of actor m = record {
    asset_id = m.asset_id;
    new_location_uri = m.to;
    actor = actor;
    facet = none;
    new_revision = none;
  }

  abbrev pub moved_of : Plan → Moved
  moved_of plan = record { moved = length plan.moves; skipped = length plan.skipped; plan = plan }

  -- `if plan["moves"]:`
  abbrev pub apply_plan : String → Plan → List Move → Exec C Moved
  apply_plan actor plan [] = return (moved_of plan)
  apply_plan actor plan (m ∷ moves) = do
    client.bulk_relocate (map (spec_of actor) (m ∷ moves))
    return (moved_of plan)

  unfoldable pub relocate_prefix : List Uuid → String → String → String → Exec C Moved
  unfolding plan_prefix_moves
  relocate_prefix asset_ids old_prefix new_prefix actor = do
    plan ← plan_prefix_moves asset_ids old_prefix new_prefix
    apply_plan actor plan plan.moves

  -- the steps of `rename_relocate`, each with the names of the facets that it changed
  abbrev move_source : Uuid → String → Option String → Option String → Exec C (List String)
  move_source a actor (some uri) rev = do
    client.relocate a uri actor source rev
    return ("source" ∷ [])
  move_source a actor none none = return []
  move_source a actor none (some rev) = do
    cur ← client.source_uri a
    elim cur [
      | none ↦ return []
      | some uri ↦ do client.relocate a uri actor source (some rev); return ("source" ∷ [])
    ]

  abbrev move_runtime : Uuid → String → Option String → Exec C (List String)
  move_runtime a actor none = return []
  move_runtime a actor (some uri) = do
    client.relocate a uri actor runtime none
    return ("runtime" ∷ [])

  abbrev change_identity : Uuid → String → Option String → Option String → Exec C (List String)
  change_identity a actor (some name) taxonomy = do
    client.rename a name actor taxonomy
    return ("identity" ∷ [])
  change_identity a actor none none = return []
  change_identity a actor none (some taxonomy) = do
    name ← client.display_name a
    elim name [
      | none ↦ raise (value_error missing_name)
      | some n ↦ do client.rename a n actor (some taxonomy); return ("identity" ∷ [])
    ]

  unfoldable pub rename_relocate :
      Uuid
      → String
      → Option String
      → Option String
      → Option String
      → Option String
      → Option String
      → Exec C (List String)
  rename_relocate a actor new_name new_taxonomy source_uri source_rev runtime_uri = do
    moved ← move_source a actor source_uri source_rev
    cooked ← move_runtime a actor runtime_uri
    named ← change_identity a actor new_name new_taxonomy
    return (moved ++ (cooked ++ named))

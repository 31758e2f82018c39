-- ===== src/App/Calls.antt =====
-- The writing verbs as calls that a client makes one after the other, each on the world that the
-- last one left, whether that returned or raised.
pub mod Outcomes
pub mod Raises
pub mod Bulk
use asset_core.Shared.{String, ℕ, Bool, Option, none, some, List, [], ◌∷◌, ◌≡◌}
use asset_core.Shared.Exec.{Exec, Result, ok, raised, proceed}
use asset_core.Core.Types.{RelType, BindingMode}
use asset_core.Core.Entities.{Uuid, Attributes, Event}
use asset_core.Core.Ports.{AssetRepo, EventSink, Host}
use asset_core.App.World.{World}
use asset_core.App.Verbs.{
  declare, claim, rename, bind_source, bind_runtime, relate, set_binding, relocate, deprecate,
  FacetName, source, runtime, other, or_default,
}

pub data Call : Type 0 where
  declares : String → String → Option Attributes → Option Uuid → Call
  claims : Uuid → String → String → String → Bool → Option Attributes → Call
  renames : Uuid → String → String → Option String → Call
  binds_source : Uuid → String → String → String → String → Call
  binds_runtime : Uuid → String → String → String → Call
  relates : Uuid → Uuid → RelType → String → Option BindingMode → Option ℕ → Call
  sets_binding : Uuid → Uuid → BindingMode → Option ℕ → String → Call
  relocates : Uuid → String → String → FacetName → Option String → Call
  deprecates : Uuid → String → Call

module _ {S E : Type 0} (repo : AssetRepo S) (sink : EventSink E) (host : Host) where
  abbrev pub discard : {A : Type 0} → Exec (World S E) A → Exec (World S E) (Unit {0})
  discard m w = proceed (m w) (λ _ v. (ok tt, v))

  unfoldable pub run : Call → Exec (World S E) (Unit {0})
  run (declares asset_type created_by origin asset_id) =
      discard (declare repo sink host asset_type created_by origin asset_id)
  run (claims a name taxonomy actor reactivate attributes) =
      claim repo sink host a name taxonomy actor reactivate attributes
  run (renames a new_name actor new_taxonomy) = rename repo sink host a new_name actor new_taxonomy
  run (binds_source a uri tool revision by) =
      discard (bind_source repo sink host a uri tool revision by)
  run (binds_runtime a uri build actor) = discard (bind_runtime repo sink host a uri build actor)
  run (relates frm to rel_type actor mode pinned) =
      relate repo sink host frm to rel_type actor mode pinned
  run (sets_binding frm to mode pinned actor) = set_binding repo sink host frm to mode pinned actor
  run (relocates a uri actor facet revision) = relocate repo sink host a uri actor facet revision
  run (deprecates a actor) = deprecate repo sink host a actor

  unfoldable pub run_all : List Call → World S E → World S E
  run_all [] w = w
  run_all (c ∷ calls) w = run_all calls (run c w).1

-- the asset that a call's event is about
abbrev pub subject : Host → ℕ → Call → Uuid
subject host made (declares _ _ _ asset_id) = or_default asset_id (host.uuid4 made)
subject host made (claims a _ _ _ _ _) = a
subject host made (renames a _ _ _) = a
subject host made (binds_source a _ _ _ _) = a
subject host made (binds_runtime a _ _ _) = a
subject host made (relates frm _ _ _ _ _) = frm
subject host made (sets_binding frm _ _ _ _) = frm
subject host made (relocates a _ _ _ _) = a
subject host made (deprecates a _) = a

-- the event types that verbs.py writes
abbrev pub event_type : Call → String
event_type (declares _ _ _ _) = "declared"
event_type (claims _ _ _ _ _ _) = "identity.claimed"
event_type (renames _ _ _ _) = "identity.renamed"
event_type (binds_source _ _ _ _ _) = "source.published"
event_type (binds_runtime _ _ _ _) = "runtime.cooked"
event_type (relates _ _ _ _ _ _) = "relationship.added"
event_type (sets_binding _ _ _ _ _) = "binding.changed"
event_type (relocates _ _ _ source _) = "source.relocated"
event_type (relocates _ _ _ runtime _) = "runtime.relocated"
event_type (relocates _ _ _ other _) = ""
event_type (deprecates _ _) = "identity.deprecated"

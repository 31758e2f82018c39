-- ===== src/Service/Routes.antt =====
-- assetcore/service/routes.py: the endpoints as handlers on the world. `run` only chooses the thread
-- of a call. `/metrics`, `/similar` and the formatting of a body are left out.
pub mod Reads
pub mod Posts
pub mod Permitted
pub mod Statuses
pub mod Settled
use asset_core.Shared.{
  ℕ, String, Bool, true, false, Option, none, some, List, [], ◌∷◌, map, is_none, if◌then◌else◌,
}
use asset_core.Shared.Exec.{
  Exec, Result, ok, raised, Error, value_error, version_conflict, key_error, declare_conflict,
}
use asset_core.Core.Entities.{Uuid}
use asset_core.Core.Ports.{AssetRepo, EventSink, Host}
use asset_core.App.World.{World}
use asset_core.App.Queries.{DeclareSpec, EdgeSpec, MoveSpec}
use asset_core.App.Services as Services
use asset_core.App.Services.{DeclareResult}
use asset_core.Service.Schemas.{
  DeclareRequest, ClaimRequest, RenameRequest, BindSourceRequest, BindRuntimeRequest, RelateRequest,
  SetBindingRequest, RelocateRequest, DeprecateRequest, BulkDeclareRequest, BulkRelateRequest,
  BulkRelocateItem, BulkRelocateRequest,
}
use asset_core.Service.Auth.{
  AuthContext, Auth, authenticated, refused, type_error, Headers, Provider, get_authority, require,
  resolve_actor, production, artist, engine, build,
}

-- A status code and a body; the status code of an HTTPException; or an exception that no handler
-- catches, of its call or a TypeError of its authentication, which the application answers with 500.
pub data Answer (A : Type 0) : Type 0 where
  answered : ℕ → A → Answer A
  http_error : ℕ → Answer A
  crashed : Error → Answer A
  auth_crashed : Answer A

abbrev pub Handler : Type 0 → Type 0 → Type 0
Handler W A = W → Answer A × W

unfoldable pub status_of : {A : Type 0} → Answer A → ℕ
status_of (answered status body) = status
status_of (http_error status) = status
status_of (crashed e) = 500
status_of auth_crashed = 500

-- `Depends(auth.require(…))` and `Depends(auth.get_authority)`, before the body of a handler
abbrev pub authorized : {W A : Type 0} → Auth → (AuthContext → Handler W A) → Handler W A
authorized (refused status) k w = (http_error status, w)
authorized type_error k w = (auth_crashed, w)
authorized (authenticated ctx) k w = k ctx w

-- `except …: raise HTTPException(…)` around a call, and otherwise the answer
abbrev pub respond :
    {W A B : Type 0} → (Error → Option ℕ) → (A → Answer B) → Result A × W → Answer B × W
respond except answer (ok a, w) = (answer a, w)
respond except answer (raised e, w) = elim (except e) [
  | none ↦ (crashed e, w)
  | some status ↦ (http_error status, w)
]

-- the exceptions that a handler maps
abbrev pub uncaught : Error → Option ℕ
uncaught e = none

abbrev pub value_error_as : ℕ → Error → Option ℕ
value_error_as status (value_error reason) = some status
value_error_as status _ = none

abbrev pub version_conflict_as : ℕ → Error → Option ℕ
version_conflict_as status version_conflict = some status
version_conflict_as status _ = none

abbrev pub declare_conflict_as : ℕ → Error → Option ℕ
declare_conflict_as status declare_conflict = some status
declare_conflict_as status _ = none

abbrev pub no_content : Unit {0} → Answer (Unit {0})
no_content u = answered 204 u

module _ {S E : Type 0} (repo : AssetRepo S) (sink : EventSink E) (host : Host)
    (provider : Provider) (headers : Headers) where
  -- `_require_asset`
  unfoldable pub require_asset : {A : Type 0} → Uuid → Handler (World S E) A → Handler (World S E) A
  require_asset asset_id k w =
      if is_none (repo.get_asset asset_id w.repo) then (http_error 404, w) else k w

  unfoldable pub declare : DeclareRequest → Handler (World S E) Uuid
  declare body = authorized (require (artist ∷ engine ∷ []) provider headers) (λ ctx w.
      respond (declare_conflict_as 409)
        (λ result. answered (if result.created then 201 else 200) result.id)
        (Services.declare repo sink host body.asset_type body.created_by (some body.origin) body.id
          w))

  unfoldable pub claim : Uuid → ClaimRequest → Handler (World S E) (Unit {0})
  unfolding require_asset
  claim asset_id body = authorized (require (production ∷ []) provider headers) (λ ctx.
      require_asset asset_id (λ w. respond (value_error_as 409) no_content (
        Services.claim repo sink host asset_id body.display_name body.taxonomy
          (resolve_actor ctx body.actor) body.reactivate (some body.attributes) w)))

  unfoldable pub rename : Uuid → RenameRequest → Handler (World S E) (Unit {0})
  unfolding require_asset
  rename asset_id body = authorized (require (production ∷ []) provider headers) (λ ctx.
      require_asset asset_id (λ w. respond uncaught no_content (
        Services.rename repo sink host asset_id body.new_name (resolve_actor ctx body.actor)
          body.new_taxonomy w)))

  unfoldable pub relocate : Uuid → RelocateRequest → Handler (World S E) (Unit {0})
  unfolding require_asset
  relocate asset_id body = authorized (get_authority provider headers) (λ ctx.
      require_asset asset_id (λ w. respond (value_error_as 400) no_content (
        Services.relocate repo sink host asset_id body.new_location_uri
          (resolve_actor ctx body.actor) body.facet body.new_revision w)))

  unfoldable pub deprecate : Uuid → DeprecateRequest → Handler (World S E) (Unit {0})
  unfolding require_asset
  deprecate asset_id body = authorized (require (production ∷ []) provider headers) (λ ctx.
      require_asset asset_id (λ w.
        respond uncaught no_content
          (Services.deprecate repo sink host asset_id (resolve_actor ctx body.actor) w)))

  unfoldable pub bind_source : Uuid → BindSourceRequest → Handler (World S E) ℕ
  unfolding require_asset
  bind_source asset_id body = authorized (require (artist ∷ []) provider headers) (λ ctx.
      require_asset asset_id (λ w. respond (version_conflict_as 503) (answered 200) (
        Services.bind_source repo sink host asset_id body.location_uri body.tool body.revision
          (resolve_actor ctx body.published_by) w)))

  unfoldable pub bind_runtime : Uuid → BindRuntimeRequest → Handler (World S E) ℕ
  unfolding require_asset
  bind_runtime asset_id body = authorized (require (engine ∷ build ∷ []) provider headers) (λ ctx.
      require_asset asset_id (λ w. respond (version_conflict_as 503) (answered 200) (
        Services.bind_runtime repo sink host asset_id body.location_uri body.build_id
          (resolve_actor ctx body.actor) w)))

  unfoldable pub relate : RelateRequest → Handler (World S E) (Unit {0})
  relate body = authorized (get_authority provider headers) (λ ctx w.
      respond (value_error_as 400) no_content (
        Services.relate repo sink host body.from_asset body.to_asset body.rel_type
          (resolve_actor ctx body.actor) body.binding_mode body.pinned_version w))

  unfoldable pub set_binding : SetBindingRequest → Handler (World S E) (Unit {0})
  set_binding body = authorized (get_authority provider headers) (λ ctx w.
      respond (value_error_as 400) no_content (
        Services.set_binding repo sink host body.from_asset body.to_asset body.binding_mode
          body.pinned_version (resolve_actor ctx body.actor) w))

  -- `model_dump` of a spec also has its id, which the verb does not read
  unfoldable pub bulk_declare : BulkDeclareRequest → Handler (World S E) (List Uuid)
  bulk_declare body = authorized (require (artist ∷ engine ∷ []) provider headers) (λ ctx w.
      respond uncaught (answered 201) (
        Services.bulk_declare repo sink host
          (map
            (λ s. record {
              asset_type = s.asset_type;
              created_by = s.created_by;
              origin = some s.origin;
            })
            body.specs)
          w))

  unfoldable pub bulk_relate : BulkRelateRequest → Handler (World S E) ℕ
  bulk_relate body = authorized (get_authority provider headers) (λ ctx w.
      respond (value_error_as 400) (answered 200) (
        Services.bulk_relate repo sink host
          (map
            (λ e. record {
              frm = e.from_asset;
              to = e.to_asset;
              rel_type = e.rel_type;
              actor = resolve_actor ctx e.actor;
              binding_mode = e.binding_mode;
              pinned_version = e.pinned_version;
            })
            body.edges)
          w))

  unfoldable pub bulk_relocate : BulkRelocateRequest → Handler (World S E) ℕ
  bulk_relocate body = authorized (get_authority provider headers) (λ ctx w.
      respond (value_error_as 400) (answered 200) (
        Services.bulk_relocate repo sink host
          (map
            (λ m. record {
              asset_id = m.asset_id;
              new_location_uri = m.new_location_uri;
              actor = resolve_actor ctx m.actor;
              facet = some m.facet;
              new_revision = m.new_revision;
            })
            body.moves)
          w))

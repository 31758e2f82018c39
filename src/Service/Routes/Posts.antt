-- ===== src/Service/Routes/Posts.antt =====
-- The requests that write, to one endpoint each of assetcore/service/routes.py.
use asset_core.Shared.{ℕ, String, Option, none, some, List, [], ◌∷◌}
use asset_core.Core.Entities.{Uuid}
use asset_core.Core.Ports.{AssetRepo, EventSink, Host}
use asset_core.App.World.{World}
use asset_core.Service.Schemas.{
  DeclareRequest, ClaimRequest, RenameRequest, BindSourceRequest, BindRuntimeRequest, RelateRequest,
  SetBindingRequest, RelocateRequest, DeprecateRequest, BulkDeclareRequest, BulkRelateRequest,
  BulkRelocateRequest,
}
use asset_core.Service.Auth.{Headers, Provider, production, artist, engine, build}
use asset_core.Service.Routes as Routes
use asset_core.Service.Routes.{Answer, Handler, status_of}

pub data Post : Type 0 where
  declares : DeclareRequest → Post
  claims : Uuid → ClaimRequest → Post
  renames : Uuid → RenameRequest → Post
  relocates : Uuid → RelocateRequest → Post
  deprecates : Uuid → DeprecateRequest → Post
  binds_source : Uuid → BindSourceRequest → Post
  binds_runtime : Uuid → BindRuntimeRequest → Post
  relates : RelateRequest → Post
  sets_binding : SetBindingRequest → Post
  declares_all : BulkDeclareRequest → Post
  relates_all : BulkRelateRequest → Post
  relocates_all : BulkRelocateRequest → Post

-- The authorities that may write what a request writes: production owns the identity, an artist the
-- source and the engine or the build the runtime; `none` is any authority.
abbrev pub permitted : Post → Option (List String)
permitted (declares _) = some (artist ∷ engine ∷ [])
permitted (claims _ _) = some (production ∷ [])
permitted (renames _ _) = some (production ∷ [])
permitted (relocates _ _) = none
permitted (deprecates _ _) = some (production ∷ [])
permitted (binds_source _ _) = some (artist ∷ [])
permitted (binds_runtime _ _) = some (engine ∷ build ∷ [])
permitted (relates _) = none
permitted (sets_binding _) = none
permitted (declares_all _) = some (artist ∷ engine ∷ [])
permitted (relates_all _) = none
permitted (relocates_all _) = none

-- the status code of an answer, and the world that it leaves
abbrev pub reply : {W A : Type 0} → Answer A × W → ℕ × W
reply (a, w) = (status_of a, w)

module _ {S E : Type 0} (repo : AssetRepo S) (sink : EventSink E) (host : Host)
    (provider : Provider) (headers : Headers) where
  unfoldable pub post : Post → World S E → ℕ × World S E
  unfolding status_of
  post (declares body) w = reply (Routes.declare repo sink host provider headers body w)
  post (claims a body) w = reply (Routes.claim repo sink host provider headers a body w)
  post (renames a body) w = reply (Routes.rename repo sink host provider headers a body w)
  post (relocates a body) w = reply (Routes.relocate repo sink host provider headers a body w)
  post (deprecates a body) w = reply (Routes.deprecate repo sink host provider headers a body w)
  post (binds_source a body) w = reply (Routes.bind_source repo sink host provider headers a body w)
  post (binds_runtime a body) w =
      reply (Routes.bind_runtime repo sink host provider headers a body w)
  post (relates body) w = reply (Routes.relate repo sink host provider headers body w)
  post (sets_binding body) w = reply (Routes.set_binding repo sink host provider headers body w)
  post (declares_all body) w = reply (Routes.bulk_declare repo sink host provider headers body w)
  post (relates_all body) w = reply (Routes.bulk_relate repo sink host provider headers body w)
  post (relocates_all body) w = reply (Routes.bulk_relocate repo sink host provider headers body w)

-- ===== src/Service/Routes/Settled.antt =====
-- The status codes of the requests that write, over the in-memory repository.
use asset_core.Shared.{
  ℕ, String, ◌<◌, inl, inr, refl, Option, none, some, List, [], ◌∷◌, arith, Bool-cases,
  Option-cases, if◌then◌else◌,
}
use asset_core.Shared.Exec.{
  Result, Error, value_error, version_conflict, key_error, declare_conflict,
}
use asset_core.Core.Entities.{Uuid, Attributes}
use asset_core.Core.Ports.{EventSink, Host}
use asset_core.Infra.InMemory.{InMemoryRepo, in_memory, get_asset, create_asset}
use asset_core.Infra.InMemory.Valid.{IsValid}
use asset_core.App.World.{World}
use asset_core.App.Verbs as Verbs
use asset_core.App.Verbs.Valid.{
  declare-IsValid, claim-IsValid, rename-IsValid, bind_source-IsValid, bind_runtime-IsValid,
  relate-IsValid, set_binding-IsValid, relocate-IsValid, deprecate-IsValid,
}
use asset_core.App.Calls.Outcomes.{
  claim-Outcome, relate-Outcome, set_binding-Outcome, relocate-Outcome,
}
use asset_core.App.Calls.Raises.{
  RaisesOnly, IsValueError, Never, claim-RaisesOnly, rename-RaisesOnly, deprecate-RaisesOnly,
  bind_source-RaisesOnly, bind_runtime-RaisesOnly, relate-RaisesOnly, set_binding-RaisesOnly,
  relocate-RaisesOnly, bulk_declare-RaisesOnly, bulk_relate-RaisesOnly, bulk_relocate-RaisesOnly,
}
use asset_core.App.Calls.Bulk.{bulk_declare-IsValid, bulk_relate-IsValid, bulk_relocate-IsValid}
use asset_core.App.Services as Services
use asset_core.App.Services.{DeclareResult, declare_new, is_collision}
use asset_core.Service.Auth.{
  Headers, Provider, require, get_authority, resolve_actor, production, artist, engine, build,
}
use asset_core.Service.Auth.Authority.{
  Answers, IsFaulty, not_faulty, get_authority-Answers, require-Answers,
}
use asset_core.Service.Routes as Routes
use asset_core.Service.Routes.{
  Answer, answered, Handler, authorized, status_of, respond, value_error_as, uncaught, no_content,
  version_conflict_as, declare_conflict_as,
}
use asset_core.Service.Routes.Posts.{
  Post, declares, claims, renames, relocates, deprecates, binds_source, binds_runtime, relates,
  sets_binding, declares_all, relates_all, relocates_all, post,
}
use asset_core.Service.Routes.Statuses.{
  Same, Settled, OnRaise, Maps, Outcome-OnRaise, Never-OnRaise, call-Settled, asset_call-Settled,
  no_content-success, answered-success, anything-OnRaise, maps-IsValueError, maps-Never,
}

abbrev pub IsConflict : Error → Type 0
IsConflict declare_conflict = Unit
IsConflict _ = ⊥

module _ {E : Type 0} (sink : EventSink E) (host : Host) where
  abbrev V : Type 0
  V = World InMemoryRepo E

  -- what `declare` of the service leaves, on every branch
  record Declared (w : V) (r : Result DeclareResult × V) : Type 0 where
    valid : IsValid r.1.repo
    raises : RaisesOnly IsConflict r
    same : OnRaise sink host (Same sink host w) r

  declare_new-Declared :
      (t by : String) (o : Option Attributes) (a : Option Uuid) (w : V)
      → IsValid w.repo
      → Declared w (declare_new in_memory sink host t by o a w)
  unfolding declare_new Verbs.declare create_asset
  declare_new-Declared t by o a w v = record {
    valid = declare-IsValid sink host t by o a w v;
    raises = tt;
    same = tt;
  }

  declare-Declared :
      (t by : String) (o : Option Attributes) (a : Option Uuid) (w : V)
      → IsValid w.repo
      → Declared w (Services.declare in_memory sink host t by o a w)
  unfolding Services.declare
  declare-Declared t by o none w v = declare_new-Declared t by o none w v
  declare-Declared t by o (some a) w v = elim (Option-cases (get_asset a w.repo)) [
    | inl free ↦ rw free (declare_new-Declared t by o (some a) w v)
    | inr (existing, taken) ↦ elim (Bool-cases (is_collision existing t by)) [
      | inl collides ↦ rw (taken, collides) (record { valid = v; raises = tt; same = (refl, refl) })
      | inr fits ↦ rw (taken, fits) (record { valid = v; raises = tt; same = tt })
    ]
  ]

  maps-IsConflict : Maps sink host (declare_conflict_as 409) IsConflict
  maps-IsConflict declare_conflict p = (409, refl, omega arith, omega arith)
  maps-IsConflict (value_error r) p = absurd p
  maps-IsConflict version_conflict p = absurd p
  maps-IsConflict key_error p = absurd p

  created-success :
      (result : DeclareResult)
      → status_of (answered (if result.created then 201 else 200) result.id) < 300
  unfolding status_of
  created-success result = ground arith

  abbrev Anything : V → V → Type 0
  Anything w w' = Unit

  -- what a refused request leaves: the single ones change nothing
  abbrev pub Unchanged : Post → V → V → Type 0
  Unchanged (declares _) = Same sink host
  Unchanged (claims _ _) = Same sink host
  Unchanged (renames _ _) = Same sink host
  Unchanged (relocates _ _) = Same sink host
  Unchanged (deprecates _ _) = Same sink host
  Unchanged (binds_source _ _) = Same sink host
  Unchanged (binds_runtime _ _) = Same sink host
  Unchanged (relates _) = Same sink host
  Unchanged (sets_binding _) = Same sink host
  Unchanged (declares_all _) = Anything
  Unchanged (relates_all _) = Anything
  Unchanged (relocates_all _) = Anything

  module _ (provider : Provider) (headers : Headers) (sound : ¬ IsFaulty provider headers) where
    require-Sound :
        (allowed : List String) → Answers ⊥ (λ ctx. Unit) (require allowed provider headers)
    require-Sound allowed =
        not_faulty provider headers _ sound (require-Answers allowed provider headers)

    get_authority-Sound : Answers ⊥ (λ ctx. Unit) (get_authority provider headers)
    get_authority-Sound =
        not_faulty provider headers _ sound (get_authority-Answers provider headers)

    abbrev Settles : (V → V → Type 0) → ℕ × V → V → Type 0
    Settles U r w = Settled sink host U w r

    -- From a valid in-memory repository, where the authentication raises no TypeError, every writing
    -- request leaves a valid repository and answers below 300, or from 400 to 499: no exception is
    -- left for a 500. A single request that is not a success has changed neither the repository nor
    -- the sink.
    pub post-Settled :
        (p : Post) (w : V)
        → IsValid w.repo
        → Settled sink host (Unchanged p) w (post in_memory sink host provider headers p w)
    unfolding post status_of Routes.declare Routes.claim Routes.rename Routes.relocate
        Routes.deprecate Routes.bind_source Routes.bind_runtime Routes.relate Routes.set_binding
        Routes.bulk_declare Routes.bulk_relate Routes.bulk_relocate
    post-Settled (declares body) w v =
        call-Settled sink host (Same sink host) IsConflict (declare_conflict_as 409)
          (λ result. answered (if result.created then 201 else 200) result.id)
          (require (artist ∷ engine ∷ []) provider headers)
          (λ ctx.
            Services.declare in_memory sink host body.asset_type body.created_by (some body.origin)
              body.id)
          w v (refl, refl) (require-Sound (artist ∷ engine ∷ []))
          (λ ctx.
            let d =
              declare-Declared body.asset_type body.created_by (some body.origin) body.id w v in
            (d.valid, d.raises, d.same))
          maps-IsConflict created-success
    post-Settled (claims a body) w v =
        asset_call-Settled sink host IsValueError (value_error_as 409) no_content _ provider headers
          a _ w v (require-Sound (production ∷ []))
          (λ ctx k.
            let by = resolve_actor ctx body.actor in
            (
              claim-IsValid sink host a body.display_name body.taxonomy by body.reactivate
                  (some body.attributes) w v,
              claim-RaisesOnly sink host a body.display_name body.taxonomy by body.reactivate
                  (some body.attributes) w v,
              Outcome-OnRaise sink host w a "identity.claimed" _ (
                  claim-Outcome sink host a body.display_name body.taxonomy by body.reactivate
                    (some body.attributes) w v),
            ))
          (maps-IsValueError sink host 409 (omega arith) (omega arith))
          (no_content-success sink host)
    post-Settled (renames a body) w v =
        asset_call-Settled sink host Never uncaught no_content _ provider headers a _ w v
          (require-Sound (production ∷ []))
          (λ ctx k.
            let by = resolve_actor ctx body.actor in
            let raises = rename-RaisesOnly sink host a body.new_name by body.new_taxonomy w v k in
            (
              rename-IsValid sink host a body.new_name by body.new_taxonomy w v,
              raises,
              Never-OnRaise sink host _ _ raises,
            ))
          (maps-Never sink host uncaught) (no_content-success sink host)
    post-Settled (relocates a body) w v =
        asset_call-Settled sink host IsValueError (value_error_as 400) no_content _ provider headers
          a _ w v get_authority-Sound
          (λ ctx k.
            let by = resolve_actor ctx body.actor in
            (
              relocate-IsValid sink host a body.new_location_uri by body.facet body.new_revision w
                  v,
              relocate-RaisesOnly sink host a body.new_location_uri by body.facet body.new_revision
                  w,
              Outcome-OnRaise sink host w a _ _ (
                  relocate-Outcome sink host a body.new_location_uri by body.facet body.new_revision
                    w),
            ))
          (maps-IsValueError sink host 400 (omega arith) (omega arith))
          (no_content-success sink host)
    post-Settled (deprecates a body) w v =
        asset_call-Settled sink host Never uncaught no_content _ provider headers a _ w v
          (require-Sound (production ∷ []))
          (λ ctx k.
            let by = resolve_actor ctx body.actor in
            let raises = deprecate-RaisesOnly sink host a by w k in
            (deprecate-IsValid sink host a by w v, raises, Never-OnRaise sink host _ _ raises))
          (maps-Never sink host uncaught) (no_content-success sink host)
    post-Settled (binds_source a body) w v =
        asset_call-Settled sink host Never (version_conflict_as 503) (answered 200) _ provider
          headers a _ w v (require-Sound (artist ∷ []))
          (λ ctx k.
            let by = resolve_actor ctx body.published_by in
            let raises =
              bind_source-RaisesOnly sink host a body.location_uri body.tool body.revision by w k in
            (
              bind_source-IsValid sink host a body.location_uri body.tool body.revision by w v,
              raises,
              Never-OnRaise sink host _ _ raises,
            ))
          (maps-Never sink host (version_conflict_as 503))
          (answered-success sink host 200 (omega arith))
    post-Settled (binds_runtime a body) w v =
        asset_call-Settled sink host Never (version_conflict_as 503) (answered 200) _ provider
          headers a _ w v (require-Sound (engine ∷ build ∷ []))
          (λ ctx k.
            let by = resolve_actor ctx body.actor in
            let raises =
              bind_runtime-RaisesOnly sink host a body.location_uri body.build_id by w k in
            (
              bind_runtime-IsValid sink host a body.location_uri body.build_id by w v,
              raises,
              Never-OnRaise sink host _ _ raises,
            ))
          (maps-Never sink host (version_conflict_as 503))
          (answered-success sink host 200 (omega arith))
    post-Settled (relates body) w v =
        call-Settled sink host (Same sink host) IsValueError (value_error_as 400) no_content _ _ w v
          (refl, refl) get_authority-Sound
          (λ ctx.
            let by = resolve_actor ctx body.actor in
            (
              relate-IsValid sink host body.from_asset body.to_asset body.rel_type by
                  body.binding_mode body.pinned_version w v,
              relate-RaisesOnly sink host body.from_asset body.to_asset body.rel_type by
                  body.binding_mode body.pinned_version w,
              Outcome-OnRaise sink host w body.from_asset "relationship.added" _ (
                  relate-Outcome sink host body.from_asset body.to_asset body.rel_type by
                    body.binding_mode body.pinned_version w),
            ))
          (maps-IsValueError sink host 400 (omega arith) (omega arith))
          (no_content-success sink host)
    post-Settled (sets_binding body) w v =
        call-Settled sink host (Same sink host) IsValueError (value_error_as 400) no_content _ _ w v
          (refl, refl) get_authority-Sound
          (λ ctx.
            let by = resolve_actor ctx body.actor in
            (
              set_binding-IsValid sink host body.from_asset body.to_asset body.binding_mode
                  body.pinned_version by w v,
              set_binding-RaisesOnly sink host body.from_asset body.to_asset body.binding_mode
                  body.pinned_version by w,
              Outcome-OnRaise sink host w body.from_asset "binding.changed" _ (
                  set_binding-Outcome sink host body.from_asset body.to_asset body.binding_mode
                    body.pinned_version by w),
            ))
          (maps-IsValueError sink host 400 (omega arith) (omega arith))
          (no_content-success sink host)
    post-Settled (declares_all body) w v =
        call-Settled sink host Anything Never uncaught (answered 201) _ _ w v tt
          (require-Sound (artist ∷ engine ∷ []))
          (λ ctx.
            let raises = bulk_declare-RaisesOnly sink host _ w in
            (bulk_declare-IsValid sink host _ w v, raises, Never-OnRaise sink host _ _ raises))
          (maps-Never sink host uncaught) (answered-success sink host 201 (omega arith))
    post-Settled (relates_all body) w v =
        call-Settled sink host Anything IsValueError (value_error_as 400) (answered 200) _ _ w v tt
          get_authority-Sound
          (λ ctx. (
            bulk_relate-IsValid sink host _ w v,
            bulk_relate-RaisesOnly sink host _ w,
            anything-OnRaise sink host _,
          ))
          (maps-IsValueError sink host 400 (omega arith) (omega arith))
          (answered-success sink host 200 (omega arith))
    post-Settled (relocates_all body) w v =
        call-Settled sink host Anything IsValueError (value_error_as 400) (answered 200) _ _ w v tt
          get_authority-Sound
          (λ ctx. (
            bulk_relocate-IsValid sink host _ w v,
            bulk_relocate-RaisesOnly sink host _ w,
            anything-OnRaise sink host _,
          ))
          (maps-IsValueError sink host 400 (omega arith) (omega arith))
          (answered-success sink host 200 (omega arith))

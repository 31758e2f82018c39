-- ===== src/Service/Routes/Permitted.antt =====
-- Who may write what.
use asset_core.Shared.{
  ℕ, String, ◌≡◌, ◌⊎◌, inl, inr, refl, true, Option, none, some, List, [], ◌∷◌, Bool-cases,
  contains_text,
}
use asset_core.Core.Ports.{AssetRepo, EventSink, Host}
use asset_core.App.World.{World}
use asset_core.Service.Auth.Authority.{IsRefusal, IsFaulty, Answers, get_authority-Answers}
use asset_core.Service.Auth.{
  production, artist, engine, build, AuthContext, Auth, authenticated, refused, type_error, Headers,
  Provider, get_authority, require,
}
use asset_core.Service.Routes as Routes
use asset_core.Service.Routes.{Answer, answered, http_error, Handler, authorized, status_of}
use asset_core.Service.Routes.Posts.{
  Post, declares, claims, renames, relocates, deprecates, binds_source, binds_runtime, relates,
  sets_binding, declares_all, relates_all, relocates_all, permitted, post, reply,
}

-- the caller is authenticated, with an authority among those
abbrev pub MayCall : Provider → Headers → Option (List String) → Type 0
MayCall provider headers none =
    (ctx : AuthContext) × (get_authority provider headers ≡ authenticated ctx)
MayCall provider headers (some allowed) =
    (ctx : AuthContext) × (get_authority provider headers ≡ authenticated ctx)
    × (contains_text ctx.authority allowed ≡ true)

module _ (provider : Provider) (headers : Headers) where
  -- an authentication that refuses, or raises a TypeError
  abbrev Refuses : Auth → Type 0
  Refuses a =
      ((status : ℕ) × IsRefusal status × (a ≡ refused status))
      ⊎ ((a ≡ type_error) × IsFaulty provider headers)

  Answers-cases :
      (a : Auth)
      → Answers (IsFaulty provider headers) (λ ctx. Unit) a
      → Refuses a ⊎ ((ctx : AuthContext) × (a ≡ authenticated ctx))
  Answers-cases (refused status) h = inl (inl (status, h, refl))
  Answers-cases type_error h = inl (inr (refl, h))
  Answers-cases (authenticated ctx) h = inr (ctx, refl)

  get_authority-cases : Refuses (get_authority provider headers) ⊎ MayCall provider headers none
  get_authority-cases =
      Answers-cases (get_authority provider headers) (get_authority-Answers provider headers)

  require-cases :
      (allowed : List String)
      → Refuses (require allowed provider headers) ⊎ MayCall provider headers (some allowed)
  unfolding require
  require-cases allowed = elim get_authority-cases [
    | inl (inl (status, r, e)) ↦ inl (inl (status, r, rw (e, require)))
    | inl (inr (e, f)) ↦ inl (inr (rw (e, require), f))
    | inr (ctx, e) ↦ elim (Bool-cases (contains_text ctx.authority allowed)) [
      | inl allowed_now ↦ inr (ctx, e, allowed_now)
      | inr forbidden ↦ inl (inl (403, inr refl, rw (e, forbidden, require)))
    ]
  ]

  -- the status code of a request that is not carried out
  abbrev pub IsBarred : ℕ → Type 0
  IsBarred status = IsRefusal status ⊎ ((status ≡ 500) × IsFaulty provider headers)

  -- a handler behind an authentication
  guarded :
      {W A M : Type 0} (a : Auth) (k : AuthContext → Handler W A) (w : W)
      → (Refuses a ⊎ M)
      → (((reply (authorized a k w)).1 ≡ w) × IsBarred (reply (authorized a k w)).0) ⊎ M
  unfolding status_of
  guarded a k w (inl (inl (status, r, e))) = inl (rw e (refl, inl r))
  guarded a k w (inl (inr (e, f))) = inl (rw e (refl, inr (refl, f)))
  guarded a k w (inr m) = inr m

  module _ {S E : Type 0} (repo : AssetRepo S) (sink : EventSink E) (host : Host) where
    -- Over any repository and sink, a request that writes is refused with 401 or 403, or meets the
    -- TypeError of its authentication with a 500, and changes nothing; or its caller is authenticated,
    -- and has one of the authorities of `permitted`: production for a claim, a rename or a
    -- deprecation, artist or engine for a declaration, artist for a source, engine or build for a
    -- runtime, and any for a relation, a binding or a relocation.
    pub post-MayCall :
        (p : Post) (w : World S E)
        → (((post repo sink host provider headers p w).1 ≡ w)
            × IsBarred (post repo sink host provider headers p w).0)
          ⊎ MayCall provider headers (permitted p)
    unfolding post Routes.declare Routes.claim Routes.rename Routes.relocate Routes.deprecate
        Routes.bind_source Routes.bind_runtime Routes.relate Routes.set_binding Routes.bulk_declare
        Routes.bulk_relate Routes.bulk_relocate
    post-MayCall (declares body) w = guarded _ _ w (require-cases (artist ∷ engine ∷ []))
    post-MayCall (claims a body) w = guarded _ _ w (require-cases (production ∷ []))
    post-MayCall (renames a body) w = guarded _ _ w (require-cases (production ∷ []))
    post-MayCall (relocates a body) w = guarded _ _ w get_authority-cases
    post-MayCall (deprecates a body) w = guarded _ _ w (require-cases (production ∷ []))
    post-MayCall (binds_source a body) w = guarded _ _ w (require-cases (artist ∷ []))
    post-MayCall (binds_runtime a body) w = guarded _ _ w (require-cases (engine ∷ build ∷ []))
    post-MayCall (relates body) w = guarded _ _ w get_authority-cases
    post-MayCall (sets_binding body) w = guarded _ _ w get_authority-cases
    post-MayCall (declares_all body) w = guarded _ _ w (require-cases (artist ∷ engine ∷ []))
    post-MayCall (relates_all body) w = guarded _ _ w get_authority-cases
    post-MayCall (relocates_all body) w = guarded _ _ w get_authority-cases

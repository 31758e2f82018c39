-- ===== src/Service/Routes/Statuses.antt =====
-- What a handler that maps the exceptions of its call answers, over the in-memory repository.
use asset_core.Shared.{
  ℕ, String, ◌≡◌, ◌≤◌, ◌<◌, ◌⊎◌, inl, inr, refl, false, Option, some, arith, Bool-cases, is_none,
}
use asset_core.Shared.Exec.{
  Result, ok, raised, Error, value_error, version_conflict, key_error, declare_conflict,
}
use asset_core.Core.Entities.{Uuid}
use asset_core.Core.Ports.{EventSink, Host}
use asset_core.Infra.InMemory.{InMemoryRepo, in_memory, get_asset}
use asset_core.Infra.InMemory.Valid.{IsValid}
use asset_core.App.World.{World}
use asset_core.App.Calls.Outcomes.{Outcome}
use asset_core.App.Calls.Raises.{RaisesOnly, IsValueError, Never}
use asset_core.Service.Auth.{
  AuthContext, Auth, authenticated, refused, type_error, Headers, Provider,
}
use asset_core.Service.Auth.Authority.{Answers}
use asset_core.Service.Routes as Routes
use asset_core.Service.Routes.{
  Answer, Handler, authorized, status_of, respond, value_error_as, answered, no_content,
}
use asset_core.Service.Routes.Posts.{reply}

module _ {E : Type 0} (sink : EventSink E) (host : Host) where
  abbrev pub W : Type 0
  W = World InMemoryRepo E

  -- the repository and the sink are as they were
  abbrev pub Same : W → W → Type 0
  Same w w' = (w'.repo ≡ w.repo) × (w'.sink ≡ w.sink)

  -- A success, or an error of the caller that has changed what `U` says.
  abbrev pub Settled : (W → W → Type 0) → W → ℕ × W → Type 0
  Settled U w (status, w') =
      IsValid w'.repo × ((status < 300) ⊎ ((400 ≤ status) × (status < 500) × U w w'))

  abbrev pub OnRaise : {A : Type 0} → (W → Type 0) → Result A × W → Type 0
  OnRaise T (ok a, w') = Unit
  OnRaise T (raised e, w') = T w'

  pub Outcome-OnRaise :
      {A : Type 0} (w : W) (a : Uuid) (t : String) (r : Result A × W)
      → Outcome sink host w a t r
      → OnRaise (Same w) r
  Outcome-OnRaise w a t (ok x, w') h = tt
  Outcome-OnRaise w a t (raised e, w') h = h

  pub Never-OnRaise :
      {A : Type 0} (T : W → Type 0) (r : Result A × W) → RaisesOnly Never r → OnRaise T r
  Never-OnRaise T (ok x, w') h = tt
  Never-OnRaise T (raised e, w') h = absurd h

  -- the status codes that the caught exceptions are mapped to
  abbrev pub Maps : (Error → Option ℕ) → (Error → Type 0) → Type 0
  Maps except P =
      (e : Error) → P e → (status : ℕ) × (except e ≡ some status) × (400 ≤ status) × (status < 500)

  pub respond-Settled :
      {A B : Type 0} (U : W → W → Type 0) (P : Error → Type 0) (except : Error → Option ℕ)
      (answer : A → Answer B) (w : W) (r : Result A × W)
      → IsValid r.1.repo
      → RaisesOnly P r
      → OnRaise (U w) r
      → Maps except P
      → ((a : A) → status_of (answer a) < 300)
      → Settled U w (reply (respond except answer r))
  unfolding status_of
  respond-Settled U P except answer w (ok a, w') v h u m s = (v, inl (s a))
  respond-Settled U P except answer w (raised e, w') v h u m s =
      let (status, maps, low, high) = m e h in rw (maps, respond) (v, inr (low, high, u))

  pub authorized-Settled :
      {A : Type 0} (U : W → W → Type 0) (a : Auth) (k : AuthContext → Handler W A) (w : W)
      → IsValid w.repo
      → U w w
      → Answers ⊥ (λ ctx. Unit) a
      → ((ctx : AuthContext) → Settled U w (reply (k ctx w)))
      → Settled U w (reply (authorized a k w))
  unfolding status_of
  authorized-Settled U (refused status) k w v u (inl e) f = (v, inr (omega arith, omega arith, u))
  authorized-Settled U (refused status) k w v u (inr e) f = (v, inr (omega arith, omega arith, u))
  authorized-Settled U (authenticated ctx) k w v u r f = f ctx
  authorized-Settled U type_error k w v u r f = absurd r

  pub require_asset-Settled :
      {A : Type 0} (provider : Provider) (headers : Headers) (a : Uuid) (k : Handler W A) (w : W)
      → IsValid w.repo
      → (is_none (get_asset a w.repo) ≡ false → Settled Same w (reply (k w)))
      → Settled Same w (reply (Routes.require_asset in_memory sink host provider headers a k w))
  unfolding Routes.require_asset status_of
  require_asset-Settled provider headers a k w v f =
      elim (Bool-cases (is_none (get_asset a w.repo))) [
        | inl missing ↦ rw missing (v, inr (omega arith, omega arith, (refl, refl)))
        | inr known ↦ rw known (f known)
      ]

  pub maps-IsValueError :
      (status : ℕ) → 400 ≤ status → status < 500 → Maps (value_error_as status) IsValueError
  maps-IsValueError status low high (value_error r) p = (status, refl, low, high)
  maps-IsValueError status low high version_conflict p = absurd p
  maps-IsValueError status low high key_error p = absurd p
  maps-IsValueError status low high declare_conflict p = absurd p

  pub maps-Never : (except : Error → Option ℕ) → Maps except Never
  maps-Never except e p = absurd p

  -- what is shown of a call: the repository stays valid, the exceptions are `P`, and where one is
  -- raised `U` holds
  abbrev pub Facts : {A : Type 0} → (Error → Type 0) → (W → W → Type 0) → W → Result A × W → Type 0
  Facts P U w r = IsValid r.1.repo × RaisesOnly P r × OnRaise (U w) r

  -- a handler with an authentication before its call
  pub call-Settled :
      {A B : Type 0} (U : W → W → Type 0) (P : Error → Type 0) (except : Error → Option ℕ)
      (answer : A → Answer B) (auth : Auth) (call : AuthContext → W → Result A × W) (w : W)
      → IsValid w.repo
      → U w w
      → Answers ⊥ (λ ctx. Unit) auth
      → ((ctx : AuthContext) → Facts P U w (call ctx w))
      → Maps except P
      → ((a : A) → status_of (answer a) < 300)
      → Settled U w (reply (authorized auth (λ ctx w. respond except answer (call ctx w)) w))
  call-Settled U P except answer auth call w v u r facts maps success =
      authorized-Settled U auth _ w v u r (λ ctx.
        let (valid, raises, same) = facts ctx in
        respond-Settled U P except answer w _ valid raises same maps success)

  -- and with the asset looked up as well
  pub asset_call-Settled :
      {A B : Type 0} (P : Error → Type 0) (except : Error → Option ℕ) (answer : A → Answer B)
      (auth : Auth) (provider : Provider) (headers : Headers) (a : Uuid)
      (call : AuthContext → W → Result A × W) (w : W)
      → IsValid w.repo
      → Answers ⊥ (λ ctx. Unit) auth
      → ((ctx : AuthContext) → is_none (get_asset a w.repo) ≡ false → Facts P (Same) w (call ctx w))
      → Maps except P
      → ((a : A) → status_of (answer a) < 300)
      → Settled (Same) w (
          reply (
            authorized auth
              (λ ctx.
                Routes.require_asset in_memory sink host provider headers a
                  (λ w. respond except answer (call ctx w)))
              w))
  asset_call-Settled P except answer auth provider headers a call w v r facts maps success =
      authorized-Settled (Same) auth _ w v (refl, refl) r
        (λ ctx.
          require_asset-Settled provider headers a (λ w. respond except answer (call ctx w)) w v
            (λ known.
              let (valid, raises, same) = facts ctx known in
              respond-Settled (Same) P except answer w _ valid raises same maps success))

  pub no_content-success : (u : Unit {0}) → status_of (no_content u) < 300
  unfolding status_of
  no_content-success u = omega arith

  pub answered-success : {A : Type 0} (n : ℕ) → n < 300 → (a : A) → status_of (answered n a) < 300
  unfolding status_of
  answered-success n h a = h

  pub anything-OnRaise : {A : Type 0} (r : Result A × W) → OnRaise (λ x. Unit) r
  anything-OnRaise (ok a, w') = tt
  anything-OnRaise (raised e, w') = tt

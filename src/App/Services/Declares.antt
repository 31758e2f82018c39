-- ===== src/App/Services/Declares.antt =====
-- `AssetcoreService.declare` over the in-memory repository: retries and collisions.
use asset_core.Shared.{
  String, ◌≡◌, ◌≢◌, ◌↔◌, ◌⊎◌, inl, inr, refl, ap, true, false, Option, none, some, ◌==◌, ℕ_eq,
  String_eq, Bool-cases, Option-cases, arith,
}
use asset_core.Shared.Dict.{lookup-insert_self}
use asset_core.Shared.Exec.{ok, raised, declare_conflict}
use asset_core.Core.Entities.{Uuid, Attributes, Asset}
use asset_core.Core.Ports.{EventSink, Host}
use asset_core.Infra.InMemory.{InMemoryRepo, in_memory, get_asset, create_asset}
use asset_core.App.World.{World, emit}
use asset_core.App.Verbs as Verbs
use asset_core.App.Services.{DeclareResult, is_collision, declare_new, declare}

string_refl : (s : String) → (s == s) ≡ true
string_refl s = (String_eq.same_iff s s).1 refl

is_collision_iff :
    (existing : Asset) (t by : String)
    → (is_collision existing t by ≡ true) ↔ ((existing.asset_type ≢ t) ⊎ (existing.created_by ≢ by))
unfolding is_collision
is_collision_iff existing t by =
    ground
      (arith, String_eq.same_iff existing.asset_type t, String_eq.same_iff existing.created_by by)

is_collision_self :
    (existing : Asset) (t by : String)
    → existing.asset_type ≡ t
    → existing.created_by ≡ by
    → is_collision existing t by ≡ false
unfolding is_collision
is_collision_self existing t by p q = rw (p, q, string_refl t, string_refl by) refl

module _ {E : Type 0} (sink : EventSink E) (host : Host) (a : Uuid) (t by : String) where
  abbrev W : Type 0
  W = World InMemoryRepo E

  declare_taken :
      (o : Option Attributes) (w : W) (existing : Asset)
      → get_asset a w.repo ≡ some existing
      → is_collision existing t by ≡ false
      → declare in_memory sink host t by o (some a) w ≡ (ok (record { id = a; created = false }), w)
  unfolding declare
  declare_taken o w existing known fits = rw (known, fits) refl

  declare_refused :
      (o : Option Attributes) (w : W) (existing : Asset)
      → get_asset a w.repo ≡ some existing
      → is_collision existing t by ≡ true
      → declare in_memory sink host t by o (some a) w ≡ (raised declare_conflict, w)
  unfolding declare
  declare_refused o w existing known differs = rw (known, differs) refl

  declare_fresh :
      (o : Option Attributes) (w : W)
      → get_asset a w.repo ≡ none
      → declare in_memory sink host t by o (some a) w
        ≡ declare_new in_memory sink host t by o (some a) w
  unfolding declare
  declare_fresh o w unknown = rw unknown refl

  declare_new-stored :
      (o : Option Attributes) (w : W)
      → (asset : Asset) × (get_asset a (declare_new in_memory sink host t by o (some a) w).1.repo
          ≡ some asset)
        × (asset.asset_type ≡ t)
        × (asset.created_by ≡ by)
  unfolding declare_new Verbs.declare create_asset get_asset emit
  declare_new-stored o w = (_, lookup-insert_self a _ w.repo.assets, refl, refl)

  declare_new-ok :
      (o : Option Attributes) (w : W)
      → (declare_new in_memory sink host t by o (some a) w).0
        ≡ ok (record { id = a; created = true })
  unfolding declare_new Verbs.declare create_asset emit
  declare_new-ok o w = refl

  -- After a declaration with an id that returned, the same declaration, whatever its origin, returns
  -- the id, says that it created nothing, and changes nothing: neither the repository nor the sink.
  pub declare_again :
      (o o' : Option Attributes) (w : W) (r : DeclareResult)
      → (declare in_memory sink host t by o (some a) w).0 ≡ ok r
      → (let w' = (declare in_memory sink host t by o (some a) w).1 in
          declare in_memory sink host t by o' (some a) w'
          ≡ (ok (record { id = a; created = false }), w'))
  declare_again o o' w r returned = elim (Option-cases (get_asset a w.repo)) [
    | inl unknown ↦
        let (asset, stored, p, q) = declare_new-stored o w in
        rw (declare_fresh o w unknown)
          (declare_taken o' _ asset stored (is_collision_self asset t by p q))
    | inr (existing, known) ↦ elim (Bool-cases (is_collision existing t by)) [
      | inl differs ↦
          let e = ap (λ x. x.0) (declare_refused o w existing known differs) in absurd cc
      | inr fits ↦
          rw (declare_taken o w existing known fits) (declare_taken o' w existing known fits)
    ]
  ]

  -- A declaration with an id raises a conflict exactly if the id is that of an asset of another type
  -- or of another creator.
  pub declare_conflict_iff :
      (o : Option Attributes) (w : W)
      → ((declare in_memory sink host t by o (some a) w).0 ≡ raised declare_conflict) ↔ (
          (existing : Asset) × (get_asset a w.repo ≡ some existing)
          × ((existing.asset_type ≢ t) ⊎ (existing.created_by ≢ by)))
  declare_conflict_iff o w = elim (Option-cases (get_asset a w.repo)) [
    | inl unknown ↦
        rw (declare_fresh o w unknown, declare_new-ok o w, unknown)
          (λ e. cc, λ x. let y = x.1 in cc)
    | inr (existing, known) ↦ elim (Bool-cases (is_collision existing t by)) [
      | inl differs ↦
          rw (declare_refused o w existing known differs)
            (λ e. (existing, known, (is_collision_iff existing t by).0 differs), λ x. refl)
      | inr fits ↦ rw (declare_taken o w existing known fits) (
        λ e. cc,
        λ x.
            let (asset, p, q) = x in
            let same : asset ≡ existing = cc in
            let d = (is_collision_iff existing t by).1 (rw same at q) in cc,
      )
    ]
  ]

-- ===== src/App/Verbs/Valid.antt =====
-- The writing verbs of assetcore/app/verbs.py and the invariant of the in-memory repository.
use asset_core.Shared.{
  String, ℕ, zero, suc, ◌≡◌, refl, inl, inr, Bool, true, false, ◌&&◌, not, Option, some, ℕ_eq,
  is_some, Bool-cases, Option-cases,
}
use asset_core.Shared.Dict.{lookup, All-lookup}
use asset_core.Shared.Exec.{
  Exec, Result, ok, raised, value_error, version_conflict, key_error, declare_conflict, proceed,
}
use asset_core.Core.Types.{active, deprecated, RelType, BindingMode, depends_on}
use asset_core.Core.Entities.{Uuid, Attributes, IdentityFacet, Relationship}
use asset_core.Core.Ports.{EventSink, Host}
use asset_core.Core.Rules.{Source_facet, Runtime_facet, latest, validate_relationship}
use asset_core.Infra.InMemory.{
  InMemoryRepo, in_memory, create_asset, get_identity, get_asset, save_identity, source_versions,
  get_edge,
}
use asset_core.Infra.InMemory.Valid.{
  IsValid, create_asset-IsValid, save_identity-IsValid, set_lifecycle-IsValid,
}
use asset_core.Infra.InMemory.Writes.{
  add_source_version-IsValid, add_runtime_version-IsValid, update_source_location-IsValid,
  update_runtime_location-IsValid,
}
use asset_core.Infra.InMemory.Edges.{add_relationship-IsValid, upsert_relationship-IsValid}
use asset_core.App.World.{World, settle_conflict, emit}
use asset_core.App.Verbs.{
  declare, claim, was_deprecated, rename, try_source, attempt_source, bind_source, try_runtime,
  attempt_runtime, bind_runtime, relate, set_binding, relocate, deprecate, FacetName, source,
  runtime, other, relocated, anchor, blank_identity, or_default,
}

abbrev pub edge_of :
    Uuid → Uuid → RelType → Option BindingMode → Option ℕ → Attributes → Relationship
edge_of frm to rel_type mode pinned attributes = record {
  from_asset = frm;
  to_asset = to;
  rel_type = rel_type;
  binding_mode = mode;
  pinned_version = pinned;
  attributes = attributes;
}

module _ {E : Type 0} (sink : EventSink E) (host : Host) where
  abbrev pub M : Type 0 → Type 0
  M A = Exec (World InMemoryRepo E) A

  -- The computation keeps the invariant.
  abbrev pub Keeps : {A : Type 0} → M A → Type 0
  Keeps m = (w : World InMemoryRepo E) → IsValid w.repo → IsValid (m w).1.repo

  pub proceed-IsValid :
      {A B : Type 0} (r : Result A × World InMemoryRepo E) (k : A → M B)
      → IsValid r.1.repo
      → ((a : A) → Keeps (k a))
      → IsValid (proceed r k).1.repo
  proceed-IsValid (ok a, w) k h f = f a w h
  proceed-IsValid (raised e, w) k h f = h

  settle_conflict-IsValid :
      {A B : Type 0} (r : Result A × World InMemoryRepo E) (handler : M B) (k : A → M B)
      → IsValid r.1.repo
      → Keeps handler
      → ((a : A) → Keeps (k a))
      → IsValid (settle_conflict r handler k).1.repo
  settle_conflict-IsValid (ok a, w) handler k h g f = f a w h
  settle_conflict-IsValid (raised version_conflict, w) handler k h g f = g w h
  settle_conflict-IsValid (raised (value_error r), w) handler k h g f = h
  settle_conflict-IsValid (raised key_error, w) handler k h g f = h
  settle_conflict-IsValid (raised declare_conflict, w) handler k h g f = h

  emit-Keeps :
      (a : Uuid) (t : String) (p : Attributes) (actor : String) → Keeps (emit sink host a t p actor)
  unfolding emit
  emit-Keeps a t p actor w h = h

  pub declare-IsValid :
      (asset_type created_by : String) (origin : Option Attributes) (asset_id : Option Uuid)
      → Keeps (declare in_memory sink host asset_type created_by origin asset_id)
  unfolding declare create_asset
  declare-IsValid asset_type created_by origin asset_id w h =
      unfold create_asset in
      create_asset-IsValid _ (blank_identity (or_default asset_id (host.uuid4 w.made))) w.repo refl
        h

  -- an identity that is found carries the id that it was looked for by, and is known
  found_identity :
      (a : Uuid) (identity : IdentityFacet) (s : InMemoryRepo)
      → IsValid s
      → get_identity a s ≡ some identity
      → is_some (lookup identity.asset_id s.known_identities) ≡ true
  unfolding get_identity
  found_identity a identity s h e =
      let p =
        All-lookup (λ t. t.1.asset_id ≡ t.0) a identity s.known_identities h.identity_keys e in
      rw (p, e) refl

  pub claim-IsValid :
      (a : Uuid) (name taxonomy actor : String) (reactivate : Bool) (attributes : Option Attributes)
      → Keeps (claim in_memory sink host a name taxonomy actor reactivate attributes)
  unfolding claim save_identity
  claim-IsValid a name taxonomy actor reactivate attributes w h =
      elim (Option-cases (get_identity a w.repo)) [
        | inl unknown ↦ rw unknown h
        | inr (identity, e) ↦
            elim (Bool-cases (was_deprecated (get_asset a w.repo) && not reactivate)) [
              | inl refused ↦ rw (e, refused) h
              | inr allowed ↦
                  rw (e, allowed)
                    (proceed-IsValid _ _
                      (set_lifecycle-IsValid a active _
                        (save_identity-IsValid _ w.repo (found_identity a identity w.repo h e) h))
                      (λ _ v k. k))
            ]
      ]

  pub rename-IsValid :
      (a : Uuid) (new_name actor : String) (new_taxonomy : Option String)
      → Keeps (rename in_memory sink host a new_name actor new_taxonomy)
  unfolding rename save_identity
  rename-IsValid a new_name actor new_taxonomy w h = elim (Option-cases (get_identity a w.repo)) [
    | inl unknown ↦ rw unknown h
    | inr (identity, e) ↦ rw e (
        unfold save_identity in
        save_identity-IsValid _ w.repo (found_identity a identity w.repo h e) h)
  ]

  try_source-IsValid :
      (a : Uuid) (uri tool revision by : String) (on_conflict : M ℕ)
      → Keeps on_conflict
      → Keeps (try_source in_memory sink host a uri tool revision by on_conflict)
  unfolding try_source
  try_source-IsValid a uri tool revision by on_conflict k w h =
      settle_conflict-IsValid _ on_conflict _ (add_source_version-IsValid _ w.repo refl refl h) k
        (λ _ v q. q)

  attempt_source-IsValid :
      (a : Uuid) (uri tool revision by : String) (left : ℕ)
      → Keeps (attempt_source in_memory sink host a uri tool revision by left)
  unfolding attempt_source
  attempt_source-IsValid a uri tool revision by zero =
      try_source-IsValid a uri tool revision by _ (λ v q. q)
  attempt_source-IsValid a uri tool revision by (suc left) =
      try_source-IsValid a uri tool revision by _
        (attempt_source-IsValid a uri tool revision by left)

  pub bind_source-IsValid :
      (a : Uuid) (uri tool revision by : String)
      → Keeps (bind_source in_memory sink host a uri tool revision by)
  unfolding bind_source
  bind_source-IsValid a uri tool revision by w h =
      proceed-IsValid (attempt_source in_memory sink host a uri tool revision by 4 w) _
        (attempt_source-IsValid a uri tool revision by 4 w h) (λ _ v q. q)

  try_runtime-IsValid :
      (a : Uuid) (uri build : String) (on_conflict : M ℕ)
      → Keeps on_conflict
      → Keeps (try_runtime in_memory sink host a uri build on_conflict)
  unfolding try_runtime
  try_runtime-IsValid a uri build on_conflict k w h =
      settle_conflict-IsValid _ on_conflict _ (add_runtime_version-IsValid _ w.repo refl refl h) k
        (λ _ v q. q)

  attempt_runtime-IsValid :
      (a : Uuid) (uri build : String) (left : ℕ)
      → Keeps (attempt_runtime in_memory sink host a uri build left)
  unfolding attempt_runtime
  attempt_runtime-IsValid a uri build zero = try_runtime-IsValid a uri build _ (λ v q. q)
  attempt_runtime-IsValid a uri build (suc left) =
      try_runtime-IsValid a uri build _ (attempt_runtime-IsValid a uri build left)

  pub bind_runtime-IsValid :
      (a : Uuid) (uri build actor : String)
      → Keeps (bind_runtime in_memory sink host a uri build actor)
  unfolding bind_runtime
  bind_runtime-IsValid a uri build actor w h =
      proceed-IsValid (attempt_runtime in_memory sink host a uri build 4 w) _
        (attempt_runtime-IsValid a uri build 4 w h) (λ _ v q. q)

  lifted-IsValid :
      {A : Type 0} (r : Result (Unit {0})) (w : World InMemoryRepo E) (k : Unit {0} → M A)
      → IsValid w.repo
      → (r ≡ ok tt → IsValid (k tt w).1.repo)
      → IsValid (proceed (r, w) k).1.repo
  lifted-IsValid (ok u) w k h f = f refl
  lifted-IsValid (raised e) w k h f = h

  pub relate-IsValid :
      (frm to : Uuid) (rel_type : RelType) (actor : String) (mode : Option BindingMode)
      (pinned : Option ℕ)
      → Keeps (relate in_memory sink host frm to rel_type actor mode pinned)
  unfolding relate
  relate-IsValid frm to rel_type actor mode pinned w h =
      elim (Bool-cases (is_some (get_edge frm to rel_type w.repo))) [
        | inl duplicate ↦ rw duplicate h
        | inr new ↦ rw new (
            lifted-IsValid
              (validate_relationship (
                edge_of frm to rel_type mode pinned
                  (anchor rel_type (latest (source_versions to w.repo)))))
              w _ h
              (λ valid.
                proceed-IsValid _ _ (add_relationship-IsValid _ w.repo valid h) (λ _ v q. q)))
      ]

  pub set_binding-IsValid :
      (frm to : Uuid) (mode : BindingMode) (pinned : Option ℕ) (actor : String)
      → Keeps (set_binding in_memory sink host frm to mode pinned actor)
  unfolding set_binding
  set_binding-IsValid frm to mode pinned actor w h =
      elim (Option-cases (get_edge frm to depends_on w.repo)) [
        | inl missing ↦ rw missing h
        | inr (edge, e) ↦ rw e (
            lifted-IsValid
              (validate_relationship (edge_of frm to depends_on (some mode) pinned edge.attributes))
              w _ h
              (λ valid.
                proceed-IsValid _ _ (upsert_relationship-IsValid _ w.repo valid h edge e)
                  (λ _ v q. q)))
      ]

  relocated-Keeps :
      (b : Bool) (a : Uuid) (event facet_name uri actor : String)
      → Keeps (relocated in_memory sink host b a event facet_name uri actor)
  unfolding emit
  relocated-Keeps true a event facet_name uri actor w h = h
  relocated-Keeps false a event facet_name uri actor w h = h

  pub relocate-IsValid :
      (a : Uuid) (uri actor : String) (facet_name : FacetName) (revision : Option String)
      → Keeps (relocate in_memory sink host a uri actor facet_name revision)
  unfolding relocate
  relocate-IsValid a uri actor source revision w h =
      proceed-IsValid _
        (λ b. relocated in_memory sink host b a "source.relocated" "source" uri actor)
        (update_source_location-IsValid a uri revision w.repo h)
        (λ b. relocated-Keeps b a "source.relocated" "source" uri actor)
  relocate-IsValid a uri actor runtime revision w h =
      proceed-IsValid _
        (λ b. relocated in_memory sink host b a "runtime.relocated" "runtime" uri actor)
        (update_runtime_location-IsValid a uri w.repo h)
        (λ b. relocated-Keeps b a "runtime.relocated" "runtime" uri actor)
  relocate-IsValid a uri actor other revision w h = h

  pub deprecate-IsValid :
      (a : Uuid) (actor : String) → Keeps (deprecate in_memory sink host a actor)
  unfolding deprecate
  deprecate-IsValid a actor w h = elim (Option-cases (get_asset a w.repo)) [
    | inl unknown ↦ rw unknown h
    | inr (asset, e) ↦
        rw e (proceed-IsValid _ _ (set_lifecycle-IsValid a deprecated w.repo h) (λ _ v q. q))
  ]

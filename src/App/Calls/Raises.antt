-- ===== src/App/Calls/Raises.antt =====
-- Which exceptions a verb raises over the in-memory repository.
use asset_core.Shared.{
  String, ℕ, ◌≡◌, inl, inr, Bool, false, ◌&&◌, not, Option, none, some, List, [], ◌∷◌, ℕ_eq,
  is_some, is_none, arith, Bool-cases, Option-cases,
}
use asset_core.Shared.Dict.{lookup}
use asset_core.Shared.Exec.{Result, ok, raised, Error, value_error, proceed}
use asset_core.Core.Types.{deprecated, RelType, BindingMode, depends_on}
use asset_core.Core.Entities.{Uuid, Attributes, IdentityFacet, Relationship}
use asset_core.Core.Ports.{EventSink, Host}
use asset_core.Core.Rules.{Source_facet, Runtime_facet, latest, validate_relationship}
use asset_core.Infra.InMemory.{
  InMemoryRepo, in_memory, create_asset, get_identity, get_asset, save_identity, set_lifecycle,
  source_versions, get_edge, add_source_version, add_runtime_version, upsert_relationship,
  update_source_location, update_runtime_location, move_source, move_runtime,
}
use asset_core.Infra.InMemory.Valid.{IsValid}
use asset_core.App.World.{World, emit}
use asset_core.App.Verbs.{
  claim, was_deprecated, rename, bind_source, bind_runtime, relate, set_binding, relocate,
  deprecate, FacetName, source, runtime, other, anchor, declare, or_default,
}
use asset_core.App.Verbs.Valid.{edge_of}
use asset_core.App.Calls.Outcomes.{
  paired_asset, set_lifecycle_known, update_latest-cases, add_relationship-cases,
}
use asset_core.App.Queries.{
  bulk_declare, bulk_relate, relate_each, bulk_relocate, relocate_each, DeclareSpec, EdgeSpec,
  MoveSpec,
}

abbrev pub RaisesOnly : {W A : Type 0} → (Error → Type 0) → Result A × W → Type 0
RaisesOnly P (ok a, w) = Unit
RaisesOnly P (raised e, w) = P e

abbrev pub IsValueError : Error → Type 0
IsValueError (value_error reason) = Unit
IsValueError _ = ⊥

abbrev pub Never : Error → Type 0
Never e = ⊥

pub proceed-RaisesOnly :
    {W A B : Type 0} (P : Error → Type 0) (r : Result A × W) (k : A → W → Result B × W)
    → RaisesOnly P r
    → ((a : A) → RaisesOnly P (k a r.1))
    → RaisesOnly P (proceed r k)
proceed-RaisesOnly P (ok a, w) k h f = f a
proceed-RaisesOnly P (raised e, w) k h f = h

validate-RaisesOnly :
    (r : Relationship) {W : Type 0} (w : W) → RaisesOnly IsValueError (validate_relationship r, w)
unfolding validate_relationship
validate-RaisesOnly r w = ground arith

module _ {E : Type 0} (sink : EventSink E) (host : Host) where
  pub claim-RaisesOnly :
      (a : Uuid) (n t by : String) (r : Bool) (x : Option Attributes) (w : World InMemoryRepo E)
      → IsValid w.repo
      → RaisesOnly IsValueError (claim in_memory sink host a n t by r x w)
  unfolding claim save_identity set_lifecycle lookup emit
  claim-RaisesOnly a n t by r x w h = elim (Option-cases (get_identity a w.repo)) [
    | inl unknown ↦ rw unknown tt
    | inr (identity, e) ↦ elim (Bool-cases (was_deprecated (get_asset a w.repo) && not r)) [
      | inl refused ↦ rw (e, refused) tt
      | inr allowed ↦
          let (asset, known) = paired_asset sink host a identity w.repo h e in
          rw (e, allowed, known) tt
    ]
  ]

  -- a known asset has an identity
  paired_identity :
      (a : Uuid) (s : InMemoryRepo)
      → IsValid s
      → is_none (get_asset a s) ≡ false
      → (identity : IdentityFacet) × (get_identity a s ≡ some identity)
  unfolding get_identity get_asset
  paired_identity a s h k = elim (Option-cases (lookup a s.known_identities)) [
    | inl missing ↦ absurd (ground (arith, h.paired a))
    | inr found ↦ found
  ]

  pub rename-RaisesOnly :
      (a : Uuid) (n by : String) (t : Option String) (w : World InMemoryRepo E)
      → IsValid w.repo
      → is_none (get_asset a w.repo) ≡ false
      → RaisesOnly Never (rename in_memory sink host a n by t w)
  unfolding rename save_identity emit
  rename-RaisesOnly a n by t w h k = let (identity, e) = paired_identity a w.repo h k in rw e tt

  pub deprecate-RaisesOnly :
      (a : Uuid) (by : String) (w : World InMemoryRepo E)
      → is_none (get_asset a w.repo) ≡ false
      → RaisesOnly Never (deprecate in_memory sink host a by w)
  unfolding deprecate emit
  deprecate-RaisesOnly a by w k = elim (Option-cases (get_asset a w.repo)) [
    | inl unknown ↦ absurd (let x = rw unknown at k in cc)
    | inr (asset, e) ↦ rw (e, set_lifecycle_known a deprecated asset w.repo e) tt
  ]

  pub bind_source-RaisesOnly :
      (a : Uuid) (u t r by : String) (w : World InMemoryRepo E)
      → is_none (get_asset a w.repo) ≡ false
      → RaisesOnly Never (bind_source in_memory sink host a u t r by w)
  unfolding bind_source add_source_version get_asset emit
  bind_source-RaisesOnly a u t r by w k = elim (Option-cases (lookup a w.repo.assets)) [
    | inl unknown ↦ absurd (let x = rw unknown at k in cc)
    | inr (asset, e) ↦ rw e tt
  ]

  pub bind_runtime-RaisesOnly :
      (a : Uuid) (u b by : String) (w : World InMemoryRepo E)
      → is_none (get_asset a w.repo) ≡ false
      → RaisesOnly Never (bind_runtime in_memory sink host a u b by w)
  unfolding bind_runtime add_runtime_version get_asset emit
  bind_runtime-RaisesOnly a u b by w k = elim (Option-cases (lookup a w.repo.assets)) [
    | inl unknown ↦ absurd (let x = rw unknown at k in cc)
    | inr (asset, e) ↦ rw e tt
  ]

  pub relate-RaisesOnly :
      (frm to : Uuid) (l : RelType) (by : String) (m : Option BindingMode) (p : Option ℕ)
      (w : World InMemoryRepo E)
      → RaisesOnly IsValueError (relate in_memory sink host frm to l by m p w)
  unfolding relate emit
  relate-RaisesOnly frm to l by m p w = elim (Bool-cases (is_some (get_edge frm to l w.repo))) [
    | inl duplicate ↦ rw duplicate tt
    | inr new ↦
        let r = edge_of frm to l m p (anchor l (latest (source_versions to w.repo))) in
        rw new (
          proceed-RaisesOnly IsValueError (validate_relationship r, w) _ (validate-RaisesOnly r w)
            (λ u. elim (add_relationship-cases sink host r w.repo) [
              | inl added ↦ rw added tt
              | inr (e, refused) ↦ rw refused tt
            ]))
  ]

  pub set_binding-RaisesOnly :
      (frm to : Uuid) (m : BindingMode) (p : Option ℕ) (by : String) (w : World InMemoryRepo E)
      → RaisesOnly IsValueError (set_binding in_memory sink host frm to m p by w)
  unfolding set_binding upsert_relationship emit
  set_binding-RaisesOnly frm to m p by w = elim (Option-cases (get_edge frm to depends_on w.repo)) [
    | inl missing ↦ rw missing tt
    | inr (edge, e) ↦
        let r = edge_of frm to depends_on (some m) p edge.attributes in
        rw e (
          proceed-RaisesOnly IsValueError (validate_relationship r, w) _ (validate-RaisesOnly r w)
            (λ u. tt))
  ]

  pub relocate-RaisesOnly :
      (a : Uuid) (u by : String) (f : FacetName) (r : Option String) (w : World InMemoryRepo E)
      → RaisesOnly IsValueError (relocate in_memory sink host a u by f r w)
  unfolding relocate update_source_location update_runtime_location emit
  relocate-RaisesOnly a u by source r w =
      elim (update_latest-cases a (move_source u r) w.repo.sources) [
        | inl missing ↦ rw missing tt
        | inr (vs, e) ↦ rw e tt
      ]
  relocate-RaisesOnly a u by runtime r w =
      elim (update_latest-cases a (move_runtime u) w.repo.runtimes) [
        | inl missing ↦ rw missing tt
        | inr (vs, e) ↦ rw e tt
      ]
  relocate-RaisesOnly a u by other r w = tt

  relate_each-RaisesOnly :
      (edges : List EdgeSpec) (w : World InMemoryRepo E)
      → RaisesOnly IsValueError (relate_each in_memory sink host edges w)
  unfolding relate_each
  relate_each-RaisesOnly [] w = tt
  relate_each-RaisesOnly (e ∷ edges) w =
      proceed-RaisesOnly IsValueError _ _
        (relate-RaisesOnly e.frm e.to e.rel_type e.actor e.binding_mode e.pinned_version w)
        (λ u. relate_each-RaisesOnly edges _)

  pub bulk_relate-RaisesOnly :
      (edges : List EdgeSpec) (w : World InMemoryRepo E)
      → RaisesOnly IsValueError (bulk_relate in_memory sink host edges w)
  unfolding bulk_relate
  bulk_relate-RaisesOnly edges w =
      proceed-RaisesOnly IsValueError _ _ (relate_each-RaisesOnly edges w) (λ u. tt)

  relocate_each-RaisesOnly :
      (moves : List MoveSpec) (w : World InMemoryRepo E)
      → RaisesOnly IsValueError (relocate_each in_memory sink host moves w)
  unfolding relocate_each
  relocate_each-RaisesOnly [] w = tt
  relocate_each-RaisesOnly (m ∷ moves) w =
      proceed-RaisesOnly IsValueError _ _
        (relocate-RaisesOnly m.asset_id m.new_location_uri m.actor (or_default m.facet source)
          m.new_revision w)
        (λ u. relocate_each-RaisesOnly moves _)

  pub bulk_relocate-RaisesOnly :
      (moves : List MoveSpec) (w : World InMemoryRepo E)
      → RaisesOnly IsValueError (bulk_relocate in_memory sink host moves w)
  unfolding bulk_relocate
  bulk_relocate-RaisesOnly moves w =
      proceed-RaisesOnly IsValueError _ _ (relocate_each-RaisesOnly moves w) (λ u. tt)

  declare-RaisesOnly :
      (t by : String) (o : Option Attributes) (a : Option Uuid) (w : World InMemoryRepo E)
      → RaisesOnly Never (declare in_memory sink host t by o a w)
  unfolding declare create_asset emit
  declare-RaisesOnly t by o a w = tt

  pub bulk_declare-RaisesOnly :
      (specs : List DeclareSpec) (w : World InMemoryRepo E)
      → RaisesOnly Never (bulk_declare in_memory sink host specs w)
  unfolding bulk_declare
  bulk_declare-RaisesOnly [] w = tt
  bulk_declare-RaisesOnly (s ∷ specs) w =
      proceed-RaisesOnly Never _ _ (declare-RaisesOnly s.asset_type s.created_by s.origin none w)
        (λ id. proceed-RaisesOnly Never _ _ (bulk_declare-RaisesOnly specs _) (λ ids. tt))

-- ===== src/App/Calls/Outcomes.antt =====
-- What any sequence of calls keeps, and what each call does on its way out.
use asset_core.Shared.{
  String, ℕ, ◌≡◌, refl, ◌⊎◌, inl, inr, Bool, true, false, ◌&&◌, not, Option, some, List, [], ◌∷◌,
  ◌++◌, arith, ℕ_eq, is_some, Bool-cases, Option-cases, find,
}
use asset_core.Shared.Dict.{lookup, insert}
use asset_core.Shared.Exec.{
  Reason, Result, ok, raised, value_error, unknown_asset, edge_exists, proceed,
}
use asset_core.Core.Types.{Lifecycle, deprecated, RelType, BindingMode, depends_on}
use asset_core.Core.Entities.{Uuid, Attributes, Asset, IdentityFacet, Relationship, Event}
use asset_core.Core.Ports.{EventSink, Host}
use asset_core.Core.Rules.{
  Facet, modify, Source_facet, Runtime_facet, latest, validate_relationship,
}
use asset_core.Infra.InMemory.{
  InMemoryRepo, in_memory, create_asset, get_identity, get_asset, save_identity, set_lifecycle,
  add_source_version, source_versions, add_runtime_version, add_relationship, upsert_relationship,
  get_edge, update_source_location, update_runtime_location, is_edge, update_latest, live_versions,
  move_source, move_runtime,
}
use asset_core.Infra.InMemory.Valid.{IsValid}
use asset_core.App.World.{World}
use asset_core.App.Verbs.{
  declare, claim, was_deprecated, rename, bind_source, bind_runtime, relate, set_binding, relocate,
  deprecate, FacetName, source, runtime, other, anchor,
}
use asset_core.App.Verbs.Valid.{
  declare-IsValid, claim-IsValid, rename-IsValid, bind_source-IsValid, bind_runtime-IsValid,
  relate-IsValid, set_binding-IsValid, relocate-IsValid, deprecate-IsValid, proceed-IsValid,
  edge_of,
}
use asset_core.App.Calls.{
  Call, declares, claims, renames, binds_source, binds_runtime, relates, sets_binding, relocates,
  deprecates, run, run_all, subject, event_type,
}

pub update_latest-cases :
    {V : Type 0} ⦃f : Facet V⦄ (a : Uuid) (g : V → V) (vs : List V)
    → (update_latest a g vs ≡ (false, vs)) ⊎ ((vs' : List V) × (update_latest a g vs ≡ (true, vs')))
unfolding update_latest
update_latest-cases ⦃f⦄ a g vs =
    elim (Option-cases (find (λ r. f.is_latest r.1) (live_versions a vs))) [
      | inl missing ↦ inl (rw (missing, update_latest))
      | inr ((i, v), e) ↦ inr (modify i g vs, rw (e, update_latest))
    ]

pub set_lifecycle_known :
    (a : Uuid) (l : Lifecycle) (asset : Asset) (s : InMemoryRepo)
    → get_asset a s ≡ some asset
    → set_lifecycle a l s
      ≡ (ok tt, record s { assets = insert a (record asset { lifecycle = l }) s.assets })
unfolding set_lifecycle get_asset
set_lifecycle_known a l asset s e = rw (e, set_lifecycle)

module _ {E : Type 0} (sink : EventSink E) (host : Host) where
  abbrev W : Type 0
  W = World InMemoryRepo E

  pub run-IsValid :
      (c : Call) (w : W) → IsValid w.repo → IsValid (run in_memory sink host c w).1.repo
  unfolding run
  run-IsValid (declares t by o a) w h =
      proceed-IsValid sink host _ _ (declare-IsValid sink host t by o a w h) (λ _ v q. q)
  run-IsValid (claims a n t by r x) w h = claim-IsValid sink host a n t by r x w h
  run-IsValid (renames a n by t) w h = rename-IsValid sink host a n by t w h
  run-IsValid (binds_source a u t r by) w h =
      proceed-IsValid sink host _ _ (bind_source-IsValid sink host a u t r by w h) (λ _ v q. q)
  run-IsValid (binds_runtime a u b by) w h =
      proceed-IsValid sink host _ _ (bind_runtime-IsValid sink host a u b by w h) (λ _ v q. q)
  run-IsValid (relates f t l by m p) w h = relate-IsValid sink host f t l by m p w h
  run-IsValid (sets_binding f t m p by) w h = set_binding-IsValid sink host f t m p by w h
  run-IsValid (relocates a u by f r) w h = relocate-IsValid sink host a u by f r w h
  run-IsValid (deprecates a by) w h = deprecate-IsValid sink host a by w h

  -- From a valid repository, after any sequence of calls of the writing verbs, whether they return
  -- or raise, the repository is valid.
  pub run_all-IsValid :
      (calls : List Call) (w : W)
      → IsValid w.repo
      → IsValid (run_all in_memory sink host calls w).repo
  unfolding run_all
  run_all-IsValid [] w h = h
  run_all-IsValid (c ∷ calls) w h =
      run_all-IsValid calls (run in_memory sink host c w).1 (run-IsValid c w h)

  -- what a call that returns, and what a call that raises, has done
  abbrev pub Outcome : {A : Type 0} → W → Uuid → String → Result A × W → Type 0
  Outcome w a t (ok _, w') =
      (event : Event) × (w'.sink ≡ sink.emit event w.sink)
      × (event.asset_id ≡ some a)
      × (event.event_type ≡ t)
  Outcome w a t (raised _, w') = (w'.repo ≡ w.repo) × (w'.sink ≡ w.sink)

  declare-Outcome :
      (t by : String) (o : Option Attributes) (a : Option Uuid) (w : W)
      → Outcome w
          (subject host w.made (declares t by o a))
          "declared"
          (run in_memory sink host (declares t by o a) w)
  unfolding run declare create_asset
  declare-Outcome t by o a w = (_, refl, refl, refl)

  -- an asset with an identity is in the table of assets
  pub paired_asset :
      (a : Uuid) (identity : IdentityFacet) (s : InMemoryRepo)
      → IsValid s
      → get_identity a s ≡ some identity
      → (asset : Asset) × (lookup a s.assets ≡ some asset)
  unfolding get_identity
  paired_asset a identity s h e = elim (Option-cases (lookup a s.assets)) [
    | inl missing ↦ absurd (ground (arith, h.paired a))
    | inr found ↦ found
  ]

  pub claim-Outcome :
      (a : Uuid) (n t by : String) (r : Bool) (x : Option Attributes) (w : W)
      → IsValid w.repo
      → Outcome w a "identity.claimed" (claim in_memory sink host a n t by r x w)
  unfolding claim save_identity set_lifecycle lookup
  claim-Outcome a n t by r x w h = elim (Option-cases (get_identity a w.repo)) [
    | inl unknown ↦ rw unknown (refl, refl)
    | inr (identity, e) ↦ elim (Bool-cases (was_deprecated (get_asset a w.repo) && not r)) [
      | inl refused ↦ rw (e, refused) (refl, refl)
      | inr allowed ↦
          let (asset, known) = paired_asset a identity w.repo h e in
          rw (e, allowed, known) (_, refl, refl, refl)
    ]
  ]

  rename-Outcome :
      (a : Uuid) (n by : String) (t : Option String) (w : W)
      → Outcome w a "identity.renamed" (rename in_memory sink host a n by t w)
  unfolding rename save_identity
  rename-Outcome a n by t w = elim (Option-cases (get_identity a w.repo)) [
    | inl unknown ↦ rw unknown (refl, refl)
    | inr (identity, e) ↦ rw e (_, refl, refl, refl)
  ]

  bind_source-Outcome :
      (a : Uuid) (u t r by : String) (w : W)
      → Outcome w a "source.published" (run in_memory sink host (binds_source a u t r by) w)
  unfolding run bind_source add_source_version
  bind_source-Outcome a u t r by w = elim (Bool-cases (is_some (lookup a w.repo.assets))) [
    | inl known ↦ rw known (_, refl, refl, refl)
    | inr unknown ↦ rw unknown (refl, refl)
  ]

  bind_runtime-Outcome :
      (a : Uuid) (u b by : String) (w : W)
      → Outcome w a "runtime.cooked" (run in_memory sink host (binds_runtime a u b by) w)
  unfolding run bind_runtime add_runtime_version
  bind_runtime-Outcome a u b by w = elim (Bool-cases (is_some (lookup a w.repo.assets))) [
    | inl known ↦ rw known (_, refl, refl, refl)
    | inr unknown ↦ rw unknown (refl, refl)
  ]

  -- a check that raises, and otherwise goes on
  lifted-Outcome :
      (r : Result (Unit {0})) (w : W) (a : Uuid) (t : String)
      (k : Unit {0} → W → Result (Unit {0}) × W)
      → Outcome w a t (k tt w)
      → Outcome w a t (proceed (r, w) k)
  lifted-Outcome (ok u) w a t k h = h
  lifted-Outcome (raised e) w a t k h = (refl, refl)

  pub add_relationship-cases :
      (r : Relationship) (s : InMemoryRepo)
      → (add_relationship r s ≡ (ok tt, record s { rels = s.rels ++ r ∷ [] }))
        ⊎ ((e : Reason) × (add_relationship r s ≡ (raised (value_error e), s)))
  unfolding add_relationship
  add_relationship-cases r s = elim (Bool-cases (is_some (lookup r.from_asset s.assets))) [
    | inr unknown ↦ inr (unknown_asset, rw unknown)
    | inl a ↦ elim (Bool-cases (is_some (lookup r.to_asset s.assets))) [
      | inr unknown ↦ inr (unknown_asset, rw (a, unknown))
      | inl b ↦ elim (Option-cases (find (is_edge r.from_asset r.to_asset r.rel_type) s.rels)) [
        | inl new ↦ inl (rw (a, b, new))
        | inr (old, e) ↦ inr (edge_exists, rw (a, b, e))
      ]
    ]
  ]

  pub relate-Outcome :
      (frm to : Uuid) (l : RelType) (by : String) (m : Option BindingMode) (p : Option ℕ) (w : W)
      → Outcome w frm "relationship.added" (relate in_memory sink host frm to l by m p w)
  unfolding relate
  relate-Outcome frm to l by m p w = elim (Bool-cases (is_some (get_edge frm to l w.repo))) [
    | inl duplicate ↦ rw duplicate (refl, refl)
    | inr new ↦
        let r = edge_of frm to l m p (anchor l (latest (source_versions to w.repo))) in
        rw new (
          lifted-Outcome (validate_relationship r) w frm "relationship.added" _
            (elim (add_relationship-cases r w.repo) [
              | inl added ↦ rw added (_, refl, refl, refl)
              | inr (e, refused) ↦ rw refused (refl, refl)
            ]))
  ]

  pub set_binding-Outcome :
      (frm to : Uuid) (m : BindingMode) (p : Option ℕ) (by : String) (w : W)
      → Outcome w frm "binding.changed" (set_binding in_memory sink host frm to m p by w)
  unfolding set_binding upsert_relationship
  set_binding-Outcome frm to m p by w = elim (Option-cases (get_edge frm to depends_on w.repo)) [
    | inl missing ↦ rw missing (refl, refl)
    | inr (edge, e) ↦ rw e (
        lifted-Outcome
          (validate_relationship (edge_of frm to depends_on (some m) p edge.attributes)) w frm
          "binding.changed" _ (_, refl, refl, refl))
  ]

  pub relocate-Outcome :
      (a : Uuid) (u by : String) (f : FacetName) (r : Option String) (w : W)
      → Outcome w a (event_type (relocates a u by f r)) (relocate in_memory sink host a u by f r w)
  unfolding relocate update_source_location update_runtime_location
  relocate-Outcome a u by source r w =
      elim (update_latest-cases a (move_source u r) w.repo.sources) [
        | inl missing ↦ rw missing (refl, refl)
        | inr (vs, e) ↦ rw e (_, refl, refl, refl)
      ]
  relocate-Outcome a u by runtime r w =
      elim (update_latest-cases a (move_runtime u) w.repo.runtimes) [
        | inl missing ↦ rw missing (refl, refl)
        | inr (vs, e) ↦ rw e (_, refl, refl, refl)
      ]
  relocate-Outcome a u by other r w = (refl, refl)

  deprecate-Outcome :
      (a : Uuid) (by : String) (w : W)
      → Outcome w a "identity.deprecated" (deprecate in_memory sink host a by w)
  unfolding deprecate
  deprecate-Outcome a by w = elim (Option-cases (get_asset a w.repo)) [
    | inl unknown ↦ rw unknown (refl, refl)
    | inr (asset, e) ↦ rw (e, set_lifecycle_known a deprecated asset w.repo e) (_, refl, refl, refl)
  ]

  -- From a valid repository, a call of a writing verb that returns has emitted exactly one event, of
  -- the verb's type and about the verb's asset, and one that raises has left the repository and the
  -- sink as they were.
  pub run-Outcome :
      (c : Call) (w : W)
      → IsValid w.repo
      → Outcome w (subject host w.made c) (event_type c) (run in_memory sink host c w)
  unfolding run
  run-Outcome (declares t by o a) w h = unfold run in declare-Outcome t by o a w
  run-Outcome (claims a n t by r x) w h = claim-Outcome a n t by r x w h
  run-Outcome (renames a n by t) w h = rename-Outcome a n by t w
  run-Outcome (binds_source a u t r by) w h = unfold run in bind_source-Outcome a u t r by w
  run-Outcome (binds_runtime a u b by) w h = unfold run in bind_runtime-Outcome a u b by w
  run-Outcome (relates f t l by m p) w h = relate-Outcome f t l by m p w
  run-Outcome (sets_binding f t m p by) w h = set_binding-Outcome f t m p by w
  run-Outcome (relocates a u by f r) w h = relocate-Outcome a u by f r w
  run-Outcome (deprecates a by) w h = deprecate-Outcome a by w

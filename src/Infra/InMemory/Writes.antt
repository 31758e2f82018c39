-- ===== src/Infra/InMemory/Writes.antt =====
-- The writes of versions and the invariant.
use asset_core.Shared.{
  String, ℕ, ◌≡◌, ◌≢◌, inl, inr, refl, ap, ◌∙◌, true, Option, none, some, List, [], arith, ◌==◌,
  ℕ_eq, Bool-cases, is_some, nat_eq_iff,
}
use asset_core.Shared.Dict.{lookup}
use asset_core.Core.Types.{RelType_eq}
use asset_core.Core.Entities.{Uuid, SourceVersion, RuntimeVersion}
use asset_core.Core.Rules.{Facet, Source_facet, Runtime_facet, next_version_num}
use asset_core.Infra.InMemory.{
  InMemoryRepo, add_version, add_source_version, source_versions, update_latest,
  update_source_location, move_source, add_runtime_version, runtime_versions,
  update_runtime_location, move_runtime,
}
use asset_core.Infra.InMemory.Histories.{
  facet, AllHistories, AllHistories-add_version, facet-add_version, versions_lem,
  next_version_num-IsHistory,
}
use asset_core.Infra.InMemory.Updates.{update_latest_lem, AllHistories-update_latest, map_last}
use asset_core.Infra.InMemory.Valid.{IsValid, IsKnown}

module _ {V : Type 0} ⦃f : Facet V⦄ where
  -- an asset with no versions has none after a write to another
  owners-add_version :
      (v : V) (a : ℕ) (vs : List V)
      → a ≢ f.asset_id v
      → facet a vs ≡ []
      → facet a (add_version v vs) ≡ []
  owners-add_version v a vs ne e =
      rw (facet-add_version a v vs) (ground (arith, nat_eq_iff a (f.asset_id v)))

  owners-update_latest :
      (a b : ℕ) (g : V → V)
      → ((v : V) → f.asset_id (g v) ≡ f.asset_id v)
      → (vs : List V) → AllHistories vs
      → facet b vs ≡ []
      → facet b (update_latest a g vs).1 ≡ []
  owners-update_latest a b g k vs h e = elim (Bool-cases (b == a)) [
    | inl same ↦
        let p = (nat_eq_iff b a).0 same in
        let u = update_latest_lem a g k vs (h a) in rw p (u.updated ∙ ap (map_last g) (rw p at e))
    | inr different ↦ (update_latest_lem a g k vs (h a)).others b (λ p. ground arith) ∙ e
  ]

unknown-ne : (s : InMemoryRepo) (a b : ℕ) → lookup a s.assets ≡ none → IsKnown s b → a ≢ b
unknown-ne s a b n k e = ground arith

pub add_source_version-IsValid :
    (v : SourceVersion) (s : InMemoryRepo)
    → v.version_num ≡ next_version_num (source_versions v.asset_id s)
    → v.is_latest ≡ true
    → IsValid s
    → IsValid (add_source_version v s).1
unfolding add_source_version source_versions
add_source_version-IsValid v s e l h = elim (Bool-cases (is_some (lookup v.asset_id s.assets))) [
  | inr unknown ↦ rw unknown h
  | inl known ↦ rw known (record {
    source_histories =
        AllHistories-add_version v s.sources h.source_histories
          (e
            ∙ ap next_version_num
                (versions_lem v.asset_id s.sources (h.source_histories v.asset_id))
            ∙ next_version_num-IsHistory (facet v.asset_id s.sources)
                (h.source_histories v.asset_id))
          l;
    runtime_histories = h.runtime_histories;
    source_owners = λ a n.
        owners-add_version v a s.sources (unknown-ne s a v.asset_id n known) (h.source_owners a n);
    runtime_owners = h.runtime_owners;
    asset_keys = h.asset_keys;
    identity_keys = h.identity_keys;
    paired = h.paired;
    edges_valid = h.edges_valid;
    edges_known = h.edges_known;
    edges_unique = h.edges_unique;
  })
]

pub add_runtime_version-IsValid :
    (v : RuntimeVersion) (s : InMemoryRepo)
    → v.version_num ≡ next_version_num (runtime_versions v.asset_id s)
    → v.is_latest ≡ true
    → IsValid s
    → IsValid (add_runtime_version v s).1
unfolding add_runtime_version runtime_versions
add_runtime_version-IsValid v s e l h = elim (Bool-cases (is_some (lookup v.asset_id s.assets))) [
  | inr unknown ↦ rw unknown h
  | inl known ↦ rw known (record {
    source_histories = h.source_histories;
    runtime_histories =
        AllHistories-add_version v s.runtimes h.runtime_histories
          (e
            ∙ ap next_version_num
                (versions_lem v.asset_id s.runtimes (h.runtime_histories v.asset_id))
            ∙ next_version_num-IsHistory (facet v.asset_id s.runtimes)
                (h.runtime_histories v.asset_id))
          l;
    source_owners = h.source_owners;
    runtime_owners = λ a n.
        owners-add_version v a s.runtimes (unknown-ne s a v.asset_id n known)
          (h.runtime_owners a n);
    asset_keys = h.asset_keys;
    identity_keys = h.identity_keys;
    paired = h.paired;
    edges_valid = h.edges_valid;
    edges_known = h.edges_known;
    edges_unique = h.edges_unique;
  })
]

-- an assignment to the location leaves the owner, the number and the flag
pub move_source-keeps :
    (uri : String) (r : Option String) (v : SourceVersion)
    → ((move_source uri r v).asset_id ≡ v.asset_id)
      × ((move_source uri r v).version_num ≡ v.version_num)
      × ((move_source uri r v).is_latest ≡ v.is_latest)
move_source-keeps uri none v = (refl, refl, refl)
move_source-keeps uri (some r) v = (refl, refl, refl)

pub update_source_location-IsValid :
    (a : Uuid) (uri : String) (r : Option String) (s : InMemoryRepo)
    → IsValid s
    → IsValid (update_source_location a uri r s).1
unfolding update_source_location
update_source_location-IsValid a uri r s h = record {
  source_histories =
      AllHistories-update_latest a (move_source uri r) (λ v. (move_source-keeps uri r v).0)
        (λ v. (move_source-keeps uri r v).1) (λ v. (move_source-keeps uri r v).2) s.sources
        h.source_histories;
  runtime_histories = h.runtime_histories;
  source_owners = λ b n.
      owners-update_latest a b (move_source uri r) (λ v. (move_source-keeps uri r v).0) s.sources
        h.source_histories (h.source_owners b n);
  runtime_owners = h.runtime_owners;
  asset_keys = h.asset_keys;
  identity_keys = h.identity_keys;
  paired = h.paired;
  edges_valid = h.edges_valid;
  edges_known = h.edges_known;
  edges_unique = h.edges_unique;
}

pub update_runtime_location-IsValid :
    (a : Uuid) (uri : String) (s : InMemoryRepo)
    → IsValid s
    → IsValid (update_runtime_location a uri s).1
unfolding update_runtime_location
update_runtime_location-IsValid a uri s h = record {
  source_histories = h.source_histories;
  runtime_histories =
      AllHistories-update_latest a (move_runtime uri) (λ v. refl) (λ v. refl) (λ v. refl) s.runtimes
        h.runtime_histories;
  source_owners = h.source_owners;
  runtime_owners = λ b n.
      owners-update_latest a b (move_runtime uri) (λ v. refl) s.runtimes h.runtime_histories
        (h.runtime_owners b n);
  asset_keys = h.asset_keys;
  identity_keys = h.identity_keys;
  paired = h.paired;
  edges_valid = h.edges_valid;
  edges_known = h.edges_known;
  edges_unique = h.edges_unique;
}

-- ===== src/Infra/InMemory/Valid.antt =====
-- The invariant of the in-memory repository, and the writes of the port.
use asset_core.Shared.{
  ℕ, ◌≡◌, inl, inr, refl, true, none, List, [], ◌∷◌, arith, ℕ_eq, Option-cases, find, is_some,
  nat_eq_iff, All,
}
use asset_core.Shared.Dict.{Dict, lookup, insert, lookup-insert, All-insert, All-lookup}
use asset_core.Shared.Exec.{ok}
use asset_core.Core.Types.{Lifecycle, RelType_eq}
use asset_core.Core.Entities.{Uuid, Asset, IdentityFacet, Relationship}
use asset_core.Core.Rules.{Source_facet, Runtime_facet, validate_relationship}
use asset_core.Infra.InMemory.{
  InMemoryRepo, init, create_asset, save_identity, set_lifecycle, is_edge,
}
use asset_core.Infra.InMemory.Histories.{facet, AllHistories}

abbrev pub Unique : List Relationship → Type 0
Unique [] = Unit
Unique (r ∷ rels) = (find (is_edge r.from_asset r.to_asset r.rel_type) rels ≡ none) × Unique rels

abbrev pub IsKnown : InMemoryRepo → Uuid → Type 0
IsKnown s a = is_some (lookup a s.assets) ≡ true

pub record IsValid (s : InMemoryRepo) : Type 0 where
  pub source_histories : AllHistories s.sources
  pub runtime_histories : AllHistories s.runtimes
  pub source_owners : (a : Uuid) → lookup a s.assets ≡ none → facet a s.sources ≡ []
  pub runtime_owners : (a : Uuid) → lookup a s.assets ≡ none → facet a s.runtimes ≡ []
  pub asset_keys : All (λ e. e.1.id ≡ e.0) s.assets
  pub identity_keys : All (λ e. e.1.asset_id ≡ e.0) s.known_identities
  pub paired : (a : Uuid) → is_some (lookup a s.assets) ≡ is_some (lookup a s.known_identities)
  pub edges_valid : All (λ r. validate_relationship r ≡ ok tt) s.rels
  pub edges_known : All (λ r. IsKnown s r.from_asset × IsKnown s r.to_asset) s.rels
  pub edges_unique : Unique s.rels

pub init-IsValid : IsValid init
unfolding lookup
init-IsValid = record {
  source_histories = λ a. tt;
  runtime_histories = λ a. tt;
  source_owners = λ a e. refl;
  runtime_owners = λ a e. refl;
  asset_keys = tt;
  identity_keys = tt;
  paired = λ a. refl;
  edges_valid = tt;
  edges_known = tt;
  edges_unique = tt;
}

pub All-map {ℓ κ ι} :
    {A : Type ℓ} (P : A → Type κ) (Q : A → Type ι)
    → ((a : A) → P a → Q a)
    → (xs : List A) → All P xs
    → All Q xs
All-map P Q f [] h = tt
All-map P Q f (x ∷ xs) h = (f x h.0, All-map P Q f xs h.1)

lookup-none_of_insert :
    {V : Type 0} (k j : ℕ) (v : V) (d : Dict ℕ V)
    → lookup j (insert k v d) ≡ none
    → lookup j d ≡ none
lookup-none_of_insert k j v d e = ground (arith, lookup-insert k j v d)

is_some-insert :
    {V : Type 0} (k j : ℕ) (v : V) (d : Dict ℕ V)
    → is_some (lookup j d) ≡ true
    → is_some (lookup j (insert k v d)) ≡ true
is_some-insert k j v d e = ground (arith, lookup-insert k j v d)

pub create_asset-IsValid :
    (asset : Asset) (identity : IdentityFacet) (s : InMemoryRepo)
    → identity.asset_id ≡ asset.id
    → IsValid s
    → IsValid (create_asset asset identity s).1
unfolding create_asset
create_asset-IsValid asset identity s e h = record {
  source_histories = h.source_histories;
  runtime_histories = h.runtime_histories;
  source_owners = λ a n. h.source_owners a (lookup-none_of_insert asset.id a asset s.assets n);
  runtime_owners = λ a n. h.runtime_owners a (lookup-none_of_insert asset.id a asset s.assets n);
  asset_keys = All-insert _ asset.id asset s.assets h.asset_keys refl;
  identity_keys = All-insert _ identity.asset_id identity s.known_identities h.identity_keys refl;
  paired = λ a. ground (
    arith,
    lookup-insert asset.id a asset s.assets,
    lookup-insert identity.asset_id a identity s.known_identities,
    h.paired a,
  );
  edges_valid = h.edges_valid;
  edges_known =
      All-map _ _
        (λ r k. (
          is_some-insert asset.id r.from_asset asset s.assets k.0,
          is_some-insert asset.id r.to_asset asset s.assets k.1,
        ))
        s.rels h.edges_known;
  edges_unique = h.edges_unique;
}

pub save_identity-IsValid :
    (identity : IdentityFacet) (s : InMemoryRepo)
    → is_some (lookup identity.asset_id s.known_identities) ≡ true
    → IsValid s
    → IsValid (save_identity identity s).1
unfolding save_identity
save_identity-IsValid identity s e h = record {
  source_histories = h.source_histories;
  runtime_histories = h.runtime_histories;
  source_owners = h.source_owners;
  runtime_owners = h.runtime_owners;
  asset_keys = h.asset_keys;
  identity_keys = All-insert _ identity.asset_id identity s.known_identities h.identity_keys refl;
  paired = λ a. ground (
    arith,
    lookup-insert identity.asset_id a identity s.known_identities,
    h.paired a,
    nat_eq_iff identity.asset_id a,
  );
  edges_valid = h.edges_valid;
  edges_known = h.edges_known;
  edges_unique = h.edges_unique;
}

pub set_lifecycle-IsValid :
    (a : Uuid) (l : Lifecycle) (s : InMemoryRepo) → IsValid s → IsValid (set_lifecycle a l s).1
unfolding set_lifecycle
set_lifecycle-IsValid a l s h = elim (Option-cases (lookup a s.assets)) [
  | inl unknown ↦ rw (unknown, set_lifecycle) h
  | inr (asset, e) ↦
      let asset' : Asset = record asset { lifecycle = l } in
      rw (e, set_lifecycle)
        (record {
          source_histories = h.source_histories;
          runtime_histories = h.runtime_histories;
          source_owners = λ b n. h.source_owners b (lookup-none_of_insert a b asset' s.assets n);
          runtime_owners = λ b n. h.runtime_owners b (lookup-none_of_insert a b asset' s.assets n);
          asset_keys =
              All-insert _ a asset' s.assets h.asset_keys
                (All-lookup (λ t. t.1.id ≡ t.0) a asset s.assets h.asset_keys e);
          identity_keys = h.identity_keys;
          paired =
              λ b. ground (arith, lookup-insert a b asset' s.assets, h.paired b, nat_eq_iff a b);
          edges_valid = h.edges_valid;
          edges_known =
              All-map _ _
                (λ r k. (
                  is_some-insert a r.from_asset asset' s.assets k.0,
                  is_some-insert a r.to_asset asset' s.assets k.1,
                ))
                s.rels h.edges_known;
          edges_unique = h.edges_unique;
        })
]

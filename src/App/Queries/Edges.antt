-- ===== src/App/Queries/Edges.antt =====
-- What the readers compute from one edge and the versions of its target: `resolve_dependency`, and
-- one step of `stale_derivations`.
use mathlib.Core.Option
use asset_core.Shared.{
  ℕ, suc, ◌+◌, ◌<◌, ◌≡◌, refl, Bool, true, false, Option, none, some, List, [], ◌∷◌, ◌++◌, map,
  arith, ◌==◌, ℕ_eq, String_eq, is_some, length, find,
}
use asset_core.Shared.Dict.{lookup}
use asset_core.Core.Types.{depends_on, derived_from}
use asset_core.Core.Entities.{Uuid, SourceVersion, Relationship}
use asset_core.Core.Rules.{
  Source_facet, Runtime_facet, latest, demote, is_pin, resolve_dependency_version,
  derivation_is_stale,
}
use asset_core.Infra.InMemory.{InMemoryRepo, in_memory, get_edge, source_versions}
use asset_core.Infra.InMemory.Histories.{IsHistory, last?}
use asset_core.App.Verbs.{anchor}
use asset_core.App.Queries.{resolve_dependency, is_stale, as_number}

pub resolve_of_edge :
    (frm to : Uuid) (edge : Relationship) (s : InMemoryRepo)
    → get_edge frm to depends_on s ≡ some edge
    → resolve_dependency in_memory frm to s ≡ resolve_dependency_version edge (source_versions to s)
unfolding resolve_dependency
resolve_of_edge frm to edge s e = rw (e, resolve_dependency)

pub get_edge-after :
    (frm to : Uuid) (edge : Relationship) (s : InMemoryRepo) (vs : List SourceVersion)
    → get_edge frm to depends_on s ≡ some edge
    → get_edge frm to depends_on (record s { sources = vs }) ≡ some edge
unfolding get_edge
get_edge-after frm to edge s vs e = e

pub resolve_floating :
    (edge : Relationship) (vs : List SourceVersion)
    → is_pin edge.binding_mode ≡ false
    → resolve_dependency_version edge vs ≡ latest vs
unfolding resolve_dependency_version
resolve_floating edge vs e = rw e

pub resolve_pinned :
    (edge : Relationship) (k : ℕ) (vs : List SourceVersion)
    → is_pin edge.binding_mode ≡ true
    → edge.pinned_version ≡ some k
    → resolve_dependency_version edge vs ≡ find (λ v. v.version_num == k) vs
unfolding resolve_dependency_version
resolve_pinned edge k vs e n = rw (e, n)

pub find-published :
    (p : SourceVersion → Bool) (vs : List SourceVersion) (v : SourceVersion)
    → ((x : SourceVersion) → p (demote x) ≡ p x)
    → p v ≡ false
    → find p (map demote vs ++ v ∷ []) ≡ Option.map demote (find p vs)
find-published p [] v same other = rw other
find-published p (x ∷ vs) v same other = ground (arith, find-published p vs v same, same x)

stale_anchor :
    (o : Option SourceVersion) (c : Option ℕ)
    → derivation_is_stale (as_number (lookup "derived_at_version" (anchor derived_from o))) c
      ≡ derivation_is_stale (Option.map (λ v. v.version_num) o) c
unfolding anchor lookup
stale_anchor none c = refl
stale_anchor (some v) c = refl

pub is_stale_lem :
    (s : InMemoryRepo) (edge : Relationship) (a : Uuid) (o : Option SourceVersion)
    → edge.to_asset ≡ a
    → edge.attributes ≡ anchor derived_from o
    → is_stale in_memory s edge
      ≡ derivation_is_stale
          (Option.map (λ v. v.version_num) o)
          (Option.map (λ v. v.version_num) (latest (source_versions a s)))
unfolding is_stale
is_stale_lem s edge a o to anchored = rw (to, anchored) (stale_anchor o _)

pub stale_now :
    (o : Option SourceVersion)
    → derivation_is_stale (Option.map (λ v. v.version_num) o) (Option.map (λ v. v.version_num) o)
      ≡ false
unfolding derivation_is_stale
stale_now none = refl
stale_now (some v) = ground arith

pub stale_later :
    (o : Option SourceVersion) (n : ℕ)
    → ((v : SourceVersion) → o ≡ some v → v.version_num < n)
    → derivation_is_stale (Option.map (λ v. v.version_num) o) (some n) ≡ is_some o
unfolding derivation_is_stale
stale_later none n h = refl
stale_later (some v) n h = ground (arith, h v refl)

pub last?-number :
    (n : ℕ) (vs : List SourceVersion) (v : SourceVersion)
    → IsHistory (suc n) vs
    → last? vs ≡ some v
    → v.version_num ≡ n + length vs
last?-number n [] v h e = cc
last?-number n (x ∷ []) v h e = ground arith
last?-number n (x ∷ y ∷ vs) v h e = omega (arith, last?-number (suc n) (y ∷ vs) v h.2 e)

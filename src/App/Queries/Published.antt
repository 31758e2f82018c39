-- ===== src/App/Queries/Published.antt =====
-- What readers see after a publish: `resolve`, `resolve_dependency` and `stale_derivations` behind
-- `bind_source`.
use mathlib.Core.Option
use asset_core.Shared.{
  String, ℕ, suc, ◌<◌, ◌≡◌, ◌≢◌, refl, sym, ◌∙◌, true, false, some, List, [], ◌∷◌, ◌++◌, map, arith,
  ◌==◌, ℕ_eq, String_eq, is_some, length,
}
use asset_core.Shared.Dict.{lookup}
use asset_core.Shared.Exec.{ok}
use asset_core.Core.Types.{depends_on, derived_from}
use asset_core.Core.Entities.{Uuid, SourceVersion, Relationship}
use asset_core.Core.Ports.{EventSink, Host}
use asset_core.Core.Rules.{
  Facet, Source_facet, Runtime_facet, latest, demote, next_version_num, is_pin,
}
use asset_core.Infra.InMemory.{
  InMemoryRepo, in_memory, get_asset, get_identity, get_edge, source_versions, runtime_versions,
  add_source_version, add_version,
}
use asset_core.Infra.InMemory.Histories.{
  facet, IsHistory, AllHistories, facet-add_version, versions_lem, next_version_num-IsHistory,
  latest-IsHistory, last?, AllHistories-add_version,
}
use asset_core.Infra.InMemory.Valid.{IsValid}
use asset_core.App.World.{World}
use asset_core.App.Verbs.{bind_source, anchor}
use asset_core.App.Queries.{resolve, resolve_dependency, is_stale}
use asset_core.App.Queries.Edges.{
  resolve_of_edge, get_edge-after, resolve_floating, resolve_pinned, find-published, is_stale_lem,
  stale_now, stale_later, last?-number,
}

last?-concat : {V : Type 0} ⦃f : Facet V⦄ (vs : List V) (v : V) → last? (vs ++ v ∷ []) ≡ some v
last?-concat [] v = refl
last?-concat (x ∷ []) v = refl
last?-concat (x ∷ y ∷ vs) v = last?-concat (y ∷ vs) v

-- the version that a publish writes
abbrev pub published : Uuid → String → String → String → String → ℕ → ℕ → SourceVersion
published a uri tool revision by n at = record {
  asset_id = a;
  location_uri = uri;
  tool = tool;
  revision = revision;
  version_num = n;
  is_latest = true;
  published_by = some by;
  published_at = at;
}

module _ (s : InMemoryRepo) (h : IsValid s) (v : SourceVersion)
    (numbered : v.version_num ≡ suc (length (facet v.asset_id s.sources)))
    (is_new : v.is_latest ≡ true) where
  abbrev after : InMemoryRepo
  after = record s { sources = add_version v s.sources }

  after-histories : AllHistories after.sources
  after-histories = AllHistories-add_version v s.sources h.source_histories numbered is_new

  -- the versions of the asset: the old ones, demoted, and the new one
  source_versions-after :
      source_versions v.asset_id after ≡ map demote (source_versions v.asset_id s) ++ v ∷ []
  unfolding source_versions
  source_versions-after =
      versions_lem v.asset_id after.sources (after-histories v.asset_id)
      ∙ facet-add_version v.asset_id v s.sources
      ∙ rw (versions_lem v.asset_id s.sources (h.source_histories v.asset_id)) (ground arith)

  source_versions-after_other :
      (b : Uuid) → b ≢ v.asset_id → source_versions b after ≡ source_versions b s
  unfolding source_versions
  source_versions-after_other b ne =
      versions_lem b after.sources (after-histories b)
      ∙ facet-add_version b v s.sources
      ∙ rw (versions_lem b s.sources (h.source_histories b)) (ground arith)

  latest-after : latest (source_versions v.asset_id after) ≡ some v
  latest-after =
      let history : IsHistory 1 (source_versions v.asset_id after) =
        unfold source_versions in
        rw (versions_lem v.asset_id after.sources (after-histories v.asset_id))
          (after-histories v.asset_id) in
      latest-IsHistory 1 (source_versions v.asset_id after) history
      ∙ rw source_versions-after (last?-concat (map demote (source_versions v.asset_id s)) v)

module _ {E : Type 0} (sink : EventSink E) (host : Host) (w : World InMemoryRepo E)
    (h : IsValid w.repo) (a : Uuid) (uri tool revision by : String)
    (known : is_some (get_asset a w.repo) ≡ true) where
  -- the version that the call writes, and the repository that it leaves
  abbrev pub new : SourceVersion
  new = published a uri tool revision by (suc (length (source_versions a w.repo))) (host.now w.made)

  abbrev pub left : InMemoryRepo
  left = (bind_source in_memory sink host a uri tool revision by w).1.repo

  next_number :
      next_version_num (source_versions a w.repo) ≡ suc (length (source_versions a w.repo))
  unfolding source_versions
  next_number =
      rw (versions_lem a w.repo.sources (h.source_histories a))
        (next_version_num-IsHistory (facet a w.repo.sources) (h.source_histories a))

  counted : suc (length (source_versions a w.repo)) ≡ suc (length (facet a w.repo.sources))
  unfolding source_versions
  counted = rw (versions_lem a w.repo.sources (h.source_histories a))

  bind_source-result :
      ((bind_source in_memory sink host a uri tool revision by w).0
        ≡ ok (suc (length (source_versions a w.repo))))
      × (left ≡ record w.repo { sources = add_version new w.repo.sources })
  unfolding bind_source add_source_version get_asset lookup
  bind_source-result = rw (known, next_number) (refl, refl)

  -- On a valid repository, a publish for a known asset returns the next number, demotes the old
  -- versions of the asset, and becomes the source version that `resolve` reports of it.
  pub bind_source-publishes :
      ((bind_source in_memory sink host a uri tool revision by w).0
        ≡ ok (suc (length (source_versions a w.repo))))
      × (source_versions a left ≡ map demote (source_versions a w.repo) ++ new ∷ [])
      × ((resolve in_memory a left).source_version ≡ some new)
  unfolding resolve
  bind_source-publishes =
      let (result, stored) = bind_source-result in
      rw stored (
        result,
        source_versions-after w.repo h new counted refl,
        latest-after w.repo h new counted refl,
      )

  -- On a valid repository, a publish for a known asset changes nothing that `resolve` reports of
  -- any other asset.
  pub bind_source-others :
      (b : Uuid) → b ≢ a → resolve in_memory b left ≡ resolve in_memory b w.repo
  unfolding resolve get_asset get_identity runtime_versions
  bind_source-others b ne =
      rw (bind_source-result.1, source_versions-after_other w.repo h new counted refl b ne) refl

  latest-number :
      (v : SourceVersion)
      → latest (source_versions a w.repo) ≡ some v
      → v.version_num < suc (length (source_versions a w.repo))
  unfolding source_versions
  latest-number v e =
      let l = versions_lem a w.repo.sources (h.source_histories a) in
      rw l (
        omega (
          arith,
          last?-number 0 (facet a w.repo.sources) v (h.source_histories a) (
              sym (latest-IsHistory 1 (facet a w.repo.sources) (h.source_histories a)) ∙ rw l at e),
        ))

  -- On a valid repository, after a publish for a known asset, a consumer whose edge to it floats
  -- loads the new version.
  pub resolve_dependency_floating :
      (frm : Uuid) (edge : Relationship)
      → get_edge frm a depends_on w.repo ≡ some edge
      → is_pin edge.binding_mode ≡ false
      → resolve_dependency in_memory frm a left ≡ some new
  resolve_dependency_floating frm edge e floating =
      let s = record w.repo { sources = add_version new w.repo.sources } in
      let e' = get_edge-after frm a edge w.repo s.sources e in
      rw
        (
          bind_source-result.1,
          resolve_of_edge frm a edge s e',
          resolve_floating edge (source_versions a s) floating,
        )
        (latest-after w.repo h new counted refl)

  -- On a valid repository, across a publish for a known asset, a consumer whose edge to it is pinned
  -- to any number but the new one loads what it loaded before, but for the flag `is_latest`.
  pub resolve_dependency_pinned :
      (frm : Uuid) (edge : Relationship) (k : ℕ)
      → get_edge frm a depends_on w.repo ≡ some edge
      → is_pin edge.binding_mode ≡ true
      → edge.pinned_version ≡ some k
      → k ≢ suc (length (source_versions a w.repo))
      → resolve_dependency in_memory frm a left
        ≡ Option.map demote (resolve_dependency in_memory frm a w.repo)
  resolve_dependency_pinned frm edge k e pinned number old =
      let s = record w.repo { sources = add_version new w.repo.sources } in
      let e' = get_edge-after frm a edge w.repo s.sources e in
      rw
        (
          bind_source-result.1,
          resolve_of_edge frm a edge s e',
          resolve_of_edge frm a edge w.repo e,
          resolve_pinned edge k (source_versions a s) pinned number,
          resolve_pinned edge k (source_versions a w.repo) pinned number,
          source_versions-after w.repo h new counted refl,
        )
        (find-published (λ v. v.version_num == k) (source_versions a w.repo) new (λ x. ground arith)
          (ground arith))

  -- On a valid repository, a derivation that is anchored at the latest version of its known parent is
  -- fresh, and after a publish for the parent it is stale exactly if the parent had a version before.
  pub is_stale-publish :
      (edge : Relationship)
      → edge.to_asset ≡ a
      → edge.attributes ≡ anchor derived_from (latest (source_versions a w.repo))
      → (is_stale in_memory w.repo edge ≡ false)
        × (is_stale in_memory left edge ≡ is_some (latest (source_versions a w.repo)))
  is_stale-publish edge to anchored =
      let old = latest (source_versions a w.repo) in
      (
        is_stale_lem w.repo edge a old to anchored ∙ rw (stale_now old) refl,
        rw (bind_source-result.1) (
            is_stale_lem _ edge a old to anchored
            ∙ rw (latest-after w.repo h new counted refl)
                (stale_later old _ (λ v e. latest-number v e))),
      )

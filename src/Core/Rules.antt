-- ===== src/Core/Rules.antt =====
-- assetcore/core/rules.py but for the graph walk: decisions on plain data. A list of versions whose
-- objects the caller goes on sharing is a list of references into the store that holds them.
use asset_core.Shared.{
  ℕ, zero, suc, ◌+◌, String, ◌≡◌, refl, ℕ_eq, String_eq, Bool, true, false, ◌&&◌, not, Option, none,
  some, List, [], ◌∷◌, ltb, ◌==◌, if◌then◌else◌, is_none, is_some, find, select,
}
use asset_core.Shared.Exec.{
  Result, ok, raised, value_error, mode_without_dependency, pin_without_version,
  version_without_pin, self_edge,
}
use asset_core.Core.Types.{
  BindingMode, depends_on, pin, RelType_eq, BindingMode_eq, RelType_beq, BindingMode_beq,
}
use asset_core.Core.Entities.{Relationship, SourceVersion, RuntimeVersion}

-- What the rules read and write of a version, whichever facet it is of.
pub record Facet (V : Type 0) : Type 0 where
  pub asset_id : V → ℕ
  pub version_num : V → ℕ
  pub is_latest : V → Bool
  pub set_latest : Bool → V → V
  pub asset_id-set_latest : (b : Bool) (v : V) → asset_id (set_latest b v) ≡ asset_id v
  pub version_num-set_latest : (b : Bool) (v : V) → version_num (set_latest b v) ≡ version_num v
  pub is_latest-set_latest : (b : Bool) (v : V) → is_latest (set_latest b v) ≡ b

module _ {V : Type 0} ⦃f : Facet V⦄ where
  -- `max((v.version_num for v in existing), default=0)`
  unfoldable pub max_version : List V → ℕ
  max_version [] = 0
  max_version (v ∷ vs) =
      let rest = max_version vs in if ltb rest (f.version_num v) then f.version_num v else rest

  unfoldable pub next_version_num : List V → ℕ
  unfolding max_version
  next_version_num existing = max_version existing + 1

  -- the body of the loop in `demote_latest`, on one object
  abbrev pub demote : V → V
  demote v = if f.is_latest v then f.set_latest false v else v

  -- A write through a reference, the position of the object in the store.
  unfoldable pub modify : ℕ → (V → V) → List V → List V
  modify i g [] = []
  modify zero g (v ∷ vs) = g v ∷ vs
  modify (suc i) g (v ∷ vs) = v ∷ modify i g vs

  unfoldable pub demote_latest : List ℕ → List V → List V
  unfolding modify
  demote_latest [] store = store
  demote_latest (r ∷ existing) store = demote_latest existing (modify r demote store)

  -- `next((v for v in versions if v.is_latest), None)`, which rules.py and verbs.py share
  abbrev pub latest : List V → Option V
  latest vs = find f.is_latest vs

instance abbrev pub Source_facet : Facet SourceVersion
Source_facet = record {
  asset_id = λ v. v.asset_id;
  version_num = λ v. v.version_num;
  is_latest = λ v. v.is_latest;
  set_latest = λ b v. record v { is_latest = b };
  asset_id-set_latest = λ b v. refl;
  version_num-set_latest = λ b v. refl;
  is_latest-set_latest = λ b v. refl;
}

instance abbrev pub Runtime_facet : Facet RuntimeVersion
Runtime_facet = record {
  asset_id = λ v. v.asset_id;
  version_num = λ v. v.version_num;
  is_latest = λ v. v.is_latest;
  set_latest = λ b v. record v { is_latest = b };
  asset_id-set_latest = λ b v. refl;
  version_num-set_latest = λ b v. refl;
  is_latest-set_latest = λ b v. refl;
}

-- `m == BindingMode.PIN`, where None is no member
abbrev pub is_pin : Option BindingMode → Bool
is_pin none = false
is_pin (some m) = m == pin

-- `n == pinned`, where None is no number
abbrev pub equals_number : Option ℕ → ℕ → Bool
equals_number none n = false
equals_number (some k) n = n == k

unfoldable pub resolve_dependency_version : Relationship → List SourceVersion → Option SourceVersion
unfolding BindingMode_beq
resolve_dependency_version edge dep_versions =
    if is_pin edge.binding_mode
    then find (λ v. equals_number edge.pinned_version v.version_num) dep_versions
    else latest dep_versions

unfoldable pub validate_relationship : Relationship → Result (Unit {0})
unfolding BindingMode_beq RelType_beq
validate_relationship r =
    if is_some r.binding_mode && not (r.rel_type == depends_on)
    then raised (value_error mode_without_dependency)
    else if is_pin r.binding_mode && is_none r.pinned_version
    then raised (value_error pin_without_version)
    else if not (is_pin r.binding_mode) && is_some r.pinned_version
    then raised (value_error version_without_pin)
    else if r.from_asset == r.to_asset
    then raised (value_error self_edge)
    else ok tt

unfoldable pub can_overwrite_stamp : Option String → String → Bool
can_overwrite_stamp none incoming = true
can_overwrite_stamp (some existing) incoming = existing == incoming

unfoldable pub floating_dependencies : List Relationship → List Relationship
unfolding BindingMode_beq RelType_beq
floating_dependencies edges =
    select (λ e. e.rel_type == depends_on && not (is_pin e.binding_mode)) edges

unfoldable pub derivation_is_stale : Option ℕ → Option ℕ → Bool
derivation_is_stale (some derived_at) (some current) = ltb derived_at current
derivation_is_stale _ _ = false

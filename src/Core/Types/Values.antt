-- ===== src/Core/Types/Values.antt =====
-- The values of the enums of assetcore/core/types.py, and the members that have them.
use asset_core.Shared.{
  ◌≡◌, refl, String, arith, Option, none, some, ◌==◌, String_eq, if◌then◌else◌, Eq,
}
use asset_core.Core.Types.{
  Lifecycle, provisional, active, deprecated, RelType, instance_of, derived_from, variant_of,
  composed_of, depends_on, BindingMode, float, pin, Lifecycle_eq, RelType_eq,
}

unfoldable pub lifecycle_value : Lifecycle → String
lifecycle_value provisional = "provisional"
lifecycle_value active = "active"
lifecycle_value deprecated = "deprecated"

unfoldable pub rel_type_value : RelType → String
rel_type_value instance_of = "INSTANCE_OF"
rel_type_value derived_from = "DERIVED_FROM"
rel_type_value variant_of = "VARIANT_OF"
rel_type_value composed_of = "COMPOSED_OF"
rel_type_value depends_on = "DEPENDS_ON"

unfoldable pub binding_mode_value : BindingMode → String
binding_mode_value float = "float"
binding_mode_value pin = "pin"

-- `Lifecycle(s)`, `RelType(s)` and `BindingMode(s)`, where `none` is the ValueError
unfoldable pub lifecycle_of : String → Option Lifecycle
lifecycle_of s =
    if s == "provisional"
    then some provisional
    else if s == "active"
    then some active
    else if s == "deprecated"
    then some deprecated
    else none

unfoldable pub rel_type_of : String → Option RelType
rel_type_of s =
    if s == "INSTANCE_OF"
    then some instance_of
    else if s == "DERIVED_FROM"
    then some derived_from
    else if s == "VARIANT_OF"
    then some variant_of
    else if s == "COMPOSED_OF"
    then some composed_of
    else if s == "DEPENDS_ON"
    then some depends_on
    else none

unfoldable pub binding_mode_of : String → Option BindingMode
binding_mode_of s = if s == "float" then some float else if s == "pin" then some pin else none

pub lifecycle_of-lifecycle_value : (l : Lifecycle) → lifecycle_of (lifecycle_value l) ≡ some l
unfolding lifecycle_of lifecycle_value
lifecycle_of-lifecycle_value provisional = refl
lifecycle_of-lifecycle_value active = refl
lifecycle_of-lifecycle_value deprecated = refl

pub rel_type_of-rel_type_value : (t : RelType) → rel_type_of (rel_type_value t) ≡ some t
unfolding rel_type_of rel_type_value
rel_type_of-rel_type_value instance_of = refl
rel_type_of-rel_type_value derived_from = refl
rel_type_of-rel_type_value variant_of = refl
rel_type_of-rel_type_value composed_of = refl
rel_type_of-rel_type_value depends_on = refl

pub binding_mode_of-binding_mode_value :
    (m : BindingMode) → binding_mode_of (binding_mode_value m) ≡ some m
unfolding binding_mode_of binding_mode_value
binding_mode_of-binding_mode_value float = refl
binding_mode_of-binding_mode_value pin = refl

same-of_back :
    {A : Type 0} ⦃e : Eq A⦄ (value : A → String) (member : String → Option A)
    → ((a : A) → member (value a) ≡ some a)
    → (a b : A) → (value a == value b) ≡ (a == b)
same-of_back ⦃e⦄ value member back a b =
    ground (arith, e.same_iff a b, String_eq.same_iff (value a) (value b), back a, back b)

-- Members are told apart by their values.
pub lifecycle_value-same : (a b : Lifecycle) → (lifecycle_value a == lifecycle_value b) ≡ (a == b)
lifecycle_value-same = same-of_back lifecycle_value lifecycle_of lifecycle_of-lifecycle_value

pub rel_type_value-same : (a b : RelType) → (rel_type_value a == rel_type_value b) ≡ (a == b)
rel_type_value-same = same-of_back rel_type_value rel_type_of rel_type_of-rel_type_value

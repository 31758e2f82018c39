-- ===== src/Core/Types.antt =====
-- assetcore/core/types.py: the three enums, and equality of their members.
pub mod Values
use asset_core.Shared.{◌≡◌, ◌↔◌, Bool, true, false, arith, Eq}

pub data Lifecycle : Type 0 where
  provisional active deprecated : Lifecycle

pub data RelType : Type 0 where
  instance_of derived_from variant_of composed_of depends_on : RelType

pub data BindingMode : Type 0 where
  float pin : BindingMode

unfoldable pub Lifecycle_beq : Lifecycle → Lifecycle → Bool
Lifecycle_beq provisional provisional = true
Lifecycle_beq active active = true
Lifecycle_beq deprecated deprecated = true
Lifecycle_beq _ _ = false

pub Lifecycle_beq_iff : (a b : Lifecycle) → (Lifecycle_beq a b ≡ true) ↔ (a ≡ b)
unfolding Lifecycle_beq
Lifecycle_beq_iff a b = ground arith

instance abbrev pub Lifecycle_eq : Eq Lifecycle
Lifecycle_eq = record { same = Lifecycle_beq; same_iff = Lifecycle_beq_iff }

unfoldable pub RelType_beq : RelType → RelType → Bool
RelType_beq instance_of instance_of = true
RelType_beq derived_from derived_from = true
RelType_beq variant_of variant_of = true
RelType_beq composed_of composed_of = true
RelType_beq depends_on depends_on = true
RelType_beq _ _ = false

pub RelType_beq_iff : (a b : RelType) → (RelType_beq a b ≡ true) ↔ (a ≡ b)
unfolding RelType_beq
RelType_beq_iff a b = ground arith

instance abbrev pub RelType_eq : Eq RelType
RelType_eq = record { same = RelType_beq; same_iff = RelType_beq_iff }

unfoldable pub BindingMode_beq : BindingMode → BindingMode → Bool
BindingMode_beq float float = true
BindingMode_beq pin pin = true
BindingMode_beq _ _ = false

pub BindingMode_beq_iff : (a b : BindingMode) → (BindingMode_beq a b ≡ true) ↔ (a ≡ b)
unfolding BindingMode_beq
BindingMode_beq_iff a b = ground arith

instance abbrev pub BindingMode_eq : Eq BindingMode
BindingMode_eq = record { same = BindingMode_beq; same_iff = BindingMode_beq_iff }

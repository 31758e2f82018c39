-- ===== src/Shared/Exec.antt =====
-- Code that mutates its state and may raise. What was written before the raise stays written, so
-- the state comes back beside the exception too.

-- The messages of the `ValueError`s that the package raises.
pub data Reason : Type 0 where
  unknown_asset deprecated_asset duplicate_edge missing_edge edge_exists : Reason
  mode_without_dependency pin_without_version version_without_pin self_edge : Reason
  unknown_facet no_facet max_log_too_small missing_name : Reason

pub data Error : Type 0 where
  value_error : Reason → Error
  version_conflict key_error declare_conflict : Error

pub data Result {ℓ} (A : Type ℓ) : Type ℓ where
  ok : A → Result A
  raised : Error → Result A

abbrev pub Exec {ℓ} : Type ℓ → Type ℓ → Type ℓ
Exec W A = W → Result A × W

module _ {ℓ} {W A : Type ℓ} where
  abbrev pub return : A → Exec W A
  return a w = (ok a, w)

  abbrev pub raise : Error → Exec W A
  raise e w = (raised e, w)

  -- A check that raises or does nothing, before code that goes on.
  abbrev pub lift : Result A → Exec W A
  lift r w = (r, w)

module _ {ℓ} {W A B : Type ℓ} where
  abbrev pub proceed : Result A × W → (A → Exec W B) → Result B × W
  proceed (ok a, w) f = f a w
  proceed (raised e, w) f = (raised e, w)

  infixl 10 ◌>>=◌ ◌>>◌
  abbrev pub ◌>>=◌ : Exec W A → (A → Exec W B) → Exec W B
  ◌>>=◌ m f w = proceed (m w) f

  abbrev pub ◌>>◌ : Exec W A → Exec W B → Exec W B
  m >> n = m >>= λ _. n

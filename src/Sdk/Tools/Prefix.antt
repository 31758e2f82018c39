-- ===== src/Sdk/Tools/Prefix.antt =====
-- The new location of a source: the swap of the directory that it starts with.
use Prim.Native.String.{◌++◌ as append}
use text.Mathlib.Text.{starts_with}
use text.Mathlib.TextEquality.{starts_with_iff}
use text.Mathlib.TextPositions.{starts_with-append, slice-append_right, len-append}
use asset_core.Shared.{◌≡◌, ◌↔◌, sym, ap, ◌∙◌, inl, inr, String, some, Bool-cases}
use asset_core.Sdk.Tools.{moved_uri}

moved_uri-append :
    (old_dir new_dir rest : String)
    → moved_uri old_dir new_dir (append old_dir rest) ≡ some (append new_dir rest)
unfolding moved_uri
moved_uri-append old_dir new_dir rest = rw (starts_with-append old_dir rest) (
    ap (λ r. some (append new_dir r))
      (rw (len-append old_dir rest) (slice-append_right old_dir rest)))

some_inj : {a b : String} → some a ≡ some b → a ≡ b
some_inj e = cc

-- A location moves exactly if it is the directory and a rest, and it goes to the new directory and
-- that rest.
pub moved_uri_iff :
    (old_dir new_dir uri new_uri : String)
    → (moved_uri old_dir new_dir uri ≡ some new_uri)
      ↔ ((rest : String) × (uri ≡ append old_dir rest) × (new_uri ≡ append new_dir rest))
unfolding moved_uri
moved_uri_iff old_dir new_dir uri new_uri = (
  λ e. elim (Bool-cases (starts_with uri old_dir)) [
    | inl under ↦
        let (rest, whole) = (starts_with_iff uri old_dir).0 under in
        let moved = moved_uri-append old_dir new_dir rest in
        let at_rest = rw (sym whole) at e in (rest, sym whole, some_inj (sym at_rest ∙ moved))
    | inr outside ↦ absurd (let x = rw (outside, moved_uri) at e in cc)
  ],
  λ h. let (rest, p, q) = h in rw (p, q) (moved_uri-append old_dir new_dir rest),
)

-- Moving the directory back gives the location of before.
pub moved_uri_back :
    (old_dir new_dir uri new_uri : String)
    → moved_uri old_dir new_dir uri ≡ some new_uri
    → moved_uri new_dir old_dir new_uri ≡ some uri
moved_uri_back old_dir new_dir uri new_uri e =
    let (rest, p, q) = (moved_uri_iff old_dir new_dir uri new_uri).0 e in
    (moved_uri_iff new_dir old_dir new_uri uri).1 (rest, q, p)

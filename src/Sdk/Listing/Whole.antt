-- ===== src/Sdk/Listing/Whole.antt =====
-- The fallback of `HybridClient.list_assets` against the whole listing of the service.
use asset_core.Shared.{
  ℕ, zero, suc, ◌+◌, ◌*◌, ◌<◌, ◌≤◌, ◌≡◌, refl, ap, inl, inr, String, Option, none, some, List, [],
  ◌∷◌, ◌++◌, length, take, drop, ltb, Bool-cases, arith,
}
use native.Mathlib.Nat.{suc-mul}
use asset_core.Core.Entities.{Time}
use asset_core.Core.Ports.{AssetRepo}
use asset_core.App.Services.{list_assets}
use asset_core.App.Services.Pages.{list_assets_page}
use asset_core.Sdk.Listing.{list_page, fetch_pages, fetch_all}

module _ {A : Type 0} where
  take-concat : (o k : ℕ) (xs : List A) → take o xs ++ take k (drop o xs) ≡ take (o + k) xs
  take-concat zero k xs = ap (λ (n : ℕ). take n xs) (omega arith)
  take-concat (suc o) zero [] = let p : suc o + 0 ≡ suc o = omega arith in rw p refl
  take-concat (suc o) (suc k) [] =
      let p : suc o + suc k ≡ suc (o + suc k) = omega arith in rw p refl
  take-concat (suc o) k (x ∷ xs) =
      let p : suc o + k ≡ suc (o + k) = omega arith in rw p (ap (◌∷◌ x) (take-concat o k xs))

  -- a page that is not full is the last
  take_short : (k : ℕ) (xs : List A) → length (take k xs) < k → take k xs ≡ xs
  take_short zero xs h = absurd (omega arith)
  take_short (suc k) [] h = refl
  take_short (suc k) (x ∷ xs) h = ap (◌∷◌ x) (take_short k xs (omega arith))

  take-drop : (o : ℕ) (xs : List A) → take o xs ++ drop o xs ≡ xs
  take-drop zero xs = refl
  take-drop (suc o) [] = refl
  take-drop (suc o) (x ∷ xs) = ap (◌∷◌ x) (take-drop o xs)

  -- a full page lies within the list
  length-take-drop :
      (k o : ℕ) (xs : List A) → 0 < k → k ≤ length (take k (drop o xs)) → o + k ≤ length xs
  length-take-drop k zero xs p h = omega (arith, length-take k xs)
    where
      length-take : (k : ℕ) (xs : List A) → length (take k xs) ≤ length xs
      length-take zero xs = omega arith
      length-take (suc k) [] = omega arith
      length-take (suc k) (x ∷ xs) = omega (arith, length-take k xs)
  length-take-drop zero (suc o) [] p h = absurd (omega arith)
  length-take-drop (suc k) (suc o) [] p h = absurd (omega arith)
  length-take-drop k (suc o) (x ∷ xs) p h = omega (arith, length-take-drop k o xs p h)

  fetch_pages-whole :
      (central : ℕ → ℕ → List A) (xs : List A)
      → ((limit offset : ℕ) → central limit offset ≡ take limit (drop offset xs))
      → (size fuel offset : ℕ) → 0 < size
      → offset ≤ length xs
      → length xs < offset + fuel * size
      → fetch_pages central size fuel offset (take offset xs) ≡ some xs
  unfolding fetch_pages
  fetch_pages-whole central xs pages size zero offset p h enough = absurd (omega arith)
  fetch_pages-whole central xs pages size (suc fuel) offset p h enough =
      rw (pages size offset) (elim (Bool-cases (ltb (length (take size (drop offset xs))) size)) [
        | inl short ↦
            rw (short, take_short size (drop offset xs) (ground arith))
              (ap some (take-drop offset xs))
        | inr full ↦
            let within = length-take-drop size offset xs p (ground arith) in
            rw (full, take-concat offset size xs)
              (fetch_pages-whole central xs pages size fuel (offset + size) p within
                (omega (arith, suc-mul fuel size)))
      ])

-- Over the service, with more fuel than the listing has full pages, the fallback returns, and its
-- answer is the whole listing: no entry is lost, repeated or moved at a page boundary.
pub fetch_all-list_assets :
    {S : Type 0} (repo : AssetRepo S) (c t : Option String) (u : Option Time) (s : S) (fuel : ℕ)
    → length (list_assets repo c t u none 0 s) < fuel * 500
    → fetch_all (λ limit offset. list_assets repo c t u (some limit) offset s) fuel
      ≡ some (list_assets repo c t u none 0 s)
unfolding fetch_all list_page
fetch_all-list_assets repo c t u s fuel enough =
    fetch_pages-whole (λ limit offset. list_assets repo c t u (some limit) offset s)
      (list_assets repo c t u none 0 s) (λ limit offset. list_assets_page repo c t u limit offset s)
      500 fuel 0 (omega arith) (omega arith) (omega arith)

-- ===== src/App/Services/Pages.antt =====
-- The pages of `list_assets`.
use asset_core.Shared.{
  ℕ, zero, suc, ◌≡◌, refl, ap, ◌∙◌, String, Option, none, some, List, [], ◌∷◌, map, take, drop,
}
use asset_core.Core.Entities.{Time}
use asset_core.Core.Ports.{AssetRepo}
use asset_core.App.Services.{list_assets, filtered}

module _ {A B : Type 0} (f : A → B) where
  map-take : (k : ℕ) (xs : List A) → map f (take k xs) ≡ take k (map f xs)
  map-take zero xs = refl
  map-take (suc k) [] = refl
  map-take (suc k) (x ∷ xs) = ap (◌∷◌ (f x)) (map-take k xs)

  map-drop : (k : ℕ) (xs : List A) → map f (drop k xs) ≡ drop k (map f xs)
  map-drop zero xs = refl
  map-drop (suc k) [] = refl
  map-drop (suc k) (x ∷ xs) = map-drop k xs

-- A page of the listing is that part of the whole listing.
pub list_assets_page :
    {S : Type 0} (repo : AssetRepo S) (c t : Option String) (u : Option Time) (limit offset : ℕ)
    (s : S)
    → list_assets repo c t u (some limit) offset s
      ≡ take limit (drop offset (list_assets repo c t u none 0 s))
unfolding list_assets
list_assets_page repo c t u limit offset s =
    map-take _ limit (drop offset (filtered repo c t u s))
    ∙ ap (take limit) (map-drop _ offset (filtered repo c t u s))

-- ===== src/Sdk/Listing.antt =====
-- The fallback of `HybridClient.list_assets` (assetcore/sdk/offline.py): when the local reader is
-- down, the pages of the central listing are fetched until one is not full. The loop takes fuel, one
-- unit for each page.
pub mod Whole
use asset_core.Shared.{
  ℕ, zero, suc, ◌+◌, Option, none, some, List, [], ◌++◌, length, ltb, if◌then◌else◌,
}

-- `_LIST_PAGE`
unfoldable pub list_page : ℕ
list_page = 500

module _ {A : Type 0} (central : ℕ → ℕ → List A) where
  -- the `while` loop, for pages of a given size
  unfoldable pub fetch_pages : ℕ → ℕ → ℕ → List A → Option (List A)
  fetch_pages size zero offset out = none
  fetch_pages size (suc fuel) offset out =
      let page = central size offset in
      let rest = fetch_pages size fuel (offset + size) (out ++ page) in
      if ltb (length page) size then some (out ++ page) else rest

  unfoldable pub fetch_all : ℕ → Option (List A)
  unfolding fetch_pages list_page
  fetch_all fuel = fetch_pages list_page fuel 0 []

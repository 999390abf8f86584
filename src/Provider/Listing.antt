-- ===== src/Provider/Listing.antt =====
-- The list of the providers of one protocol, page by page (model/iprovider/provider.go,
-- FetchProviderList where the filter has a protocol). The page and its size are Go's `int`.
use ai_gateway_api.Prelude.{
  ℕ, suc, zero, ◌+◌, ◌-◌, ◌*◌, ◌%◌, ◌^◌, String, Bool, ◌||◌, Option, none, some, List, [], ◌∷◌,
  ◌==◌, length, take, drop, any, if◌then◌else◌, Int64, add_int64, lt_int64,
}
use mathlib.Core.Option
use ai_gateway_api.Provider.Types.{Provider}
use ai_gateway_api.Provider.Rows.{Providers}
pub mod Pages

unfoldable pub has_protocol : String → Provider → Bool
has_protocol proto p = any (λ mp. mp == proto) p.model_protocols

unfoldable pub matched_providers : String → Providers → Providers
unfolding has_protocol
matched_providers proto [] = []
matched_providers proto (p ∷ ps) =
    let rest = matched_providers proto ps in if has_protocol proto p then p ∷ rest else rest

-- A number that is given and positive, or the default.
unfoldable pub positive_or : Int64 → Option Int64 → Int64
positive_or default none = default
positive_or default (some n) = if lt_int64 0 n then n else default

-- A size that is given and positive is cut to 1000.
unfoldable pub page_size_of : Option Int64 → Int64
unfolding positive_or
page_size_of size = if lt_int64 1000 (positive_or 50 size) then 1000 else positive_or 50 size

-- `if n > len(matched) { n = len(matched) }`.
unfoldable pub clamp : ℕ → Int64 → Int64
clamp len n = if lt_int64 len n then len else n

-- `matched[start:end]`: a bound that is negative or out of order is a panic, here `none`.
unfoldable pub slice {ℓ} : {A : Type ℓ} → Int64 → Int64 → List A → Option (List A)
slice start end xs =
    if lt_int64 start 0 || lt_int64 end start
    then none
    else some (take (end - start) (drop start xs))

-- `(page - 1) * pageSize`, which wraps.
unfoldable pub page_start : Int64 → Int64 → Int64
page_start page size = (page + (2 ^ 64 - 1)) % 2 ^ 64 * size % 2 ^ 64

unfoldable pub page_of {ℓ} : {A : Type ℓ} → Int64 → Int64 → List A → Option (List A)
unfolding slice clamp page_start
page_of page size xs =
    let start = clamp (length xs) (page_start page size) in
    slice start (clamp (length xs) (add_int64 start size)) xs

-- The list and how many match. Without a page and a size, all that match.
unfoldable pub fetch_page : Option Int64 → Option Int64 → Providers → Option (Providers × ℕ)
unfolding page_of positive_or page_size_of
fetch_page none none matched = some (matched, length matched)
fetch_page (some page) size matched =
    Option.map (λ list. (list, length matched))
      (page_of (positive_or 1 (some page)) (page_size_of size) matched)
fetch_page none (some size) matched =
    Option.map (λ list. (list, length matched)) (page_of 1 (page_size_of (some size)) matched)

unfoldable pub fetch_provider_list :
    String → Option Int64 → Option Int64 → Providers → Option (Providers × ℕ)
unfolding fetch_page matched_providers
fetch_provider_list proto page size rows = fetch_page page size (matched_providers proto rows)

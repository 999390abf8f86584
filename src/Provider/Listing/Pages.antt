-- ===== src/Provider/Listing/Pages.antt =====
-- The pages of the list (model/iprovider/provider.go, FetchProviderList).
use ai_gateway_api.Prelude.{
  ℕ, suc, zero, ◌+◌, ◌-◌, ◌*◌, ◌%◌, ◌^◌, ◌<◌, ◌≤◌, ◌≡◌, refl, sym, ap, ◌∙◌, inl, inr, false, ◌||◌,
  Option, none, some, List, [], ◌++◌, arith, length, take, drop, take-all, drop-all, length-drop,
  take-drop, drop-drop, take-nil, String, leb, if◌then◌else◌, Bool-cases, lt_int64, add_int64,
}
use ai_gateway_api.Provider.Listing.{
  positive_or, page_size_of, clamp, slice, page_start, page_of, fetch_page, fetch_provider_list,
  matched_providers,
}
use ai_gateway_api.Provider.Rows.{Providers}

page_start-product :
    (k size : ℕ) → suc k < 2 ^ 64 → k * size < 2 ^ 63 → page_start (suc k) size ≡ k * size
unfolding page_start
page_start-product k size hk h =
    let page : (suc k + (2 ^ 64 - 1)) % 2 ^ 64 ≡ k = omega arith in rw page (omega arith)

clamp-kept : (len n : ℕ) → n ≤ len → len < 2 ^ 63 → clamp len n ≡ n
unfolding clamp
clamp-kept len n h hl = ground arith

clamp-cut : (len n : ℕ) → len ≤ n → n < 2 ^ 63 → clamp len n ≡ len
unfolding clamp
clamp-cut len n h hn = ground arith

module _ {ℓ} {A : Type ℓ} where
  slice-some :
      (start end : ℕ) (xs : List A)
      → start ≤ end
      → end < 2 ^ 63
      → slice start end xs ≡ some (take (end - start) (drop start xs))
  unfolding slice
  slice-some start end xs h he =
      let in_order : (lt_int64 start 0 || lt_int64 end start) ≡ false = ground arith in
      rw in_order refl

  -- Past the end there is nothing.
  stretch-past :
      (n size : ℕ) (xs : List A)
      → length xs ≤ n
      → n + size < 2 ^ 63
      → length xs + size < 2 ^ 63
      → slice (clamp (length xs) n) (clamp (length xs) (add_int64 (clamp (length xs) n) size)) xs
        ≡ some (take size (drop n xs))
  stretch-past n size xs h hn hl =
      let at_end = clamp-cut (length xs) n h (omega arith) in
      let sum : add_int64 (length xs) size ≡ length xs + size = omega arith in
      let end = clamp-cut (length xs) (length xs + size) (omega arith) hl in
      let cut = slice-some (length xs) (length xs) xs (omega arith) (omega arith) in
      simp (at_end, sum, end, cut, drop-all n xs h, drop-all (length xs) xs (omega arith), take-nil)

  stretch-within :
      (n size : ℕ) (xs : List A)
      → n ≤ length xs
      → n + size < 2 ^ 63
      → length xs + size < 2 ^ 63
      → slice (clamp (length xs) n) (clamp (length xs) (add_int64 (clamp (length xs) n) size)) xs
        ≡ some (take size (drop n xs))
  stretch-within n size xs h hn hl =
      let begin = clamp-kept (length xs) n h (omega arith) in
      let sum : add_int64 n size ≡ n + size = omega arith in
      elim (Bool-cases (leb (n + size) (length xs))) [
        | inl fits ↦
            let end = clamp-kept (length xs) (n + size) (ground (arith, fits)) (omega arith) in
            let cut = slice-some n (n + size) xs (omega arith) hn in
            let width : n + size - n ≡ size = omega arith in simp (begin, sum, end, cut, width)
        | inr long ↦
            let end = clamp-cut (length xs) (n + size) (ground (arith, long)) hn in
            let cut = slice-some n (length xs) xs h (omega arith) in
            let all = length-drop n xs in
            let short = take-all (length xs - n) (drop n xs) (omega (arith, all)) in
            let whole = take-all size (drop n xs) (ground (arith, all, long)) in
            simp (begin, sum, end, cut, short, whole)
      ]

  -- A page whose bounds do not wrap is the stretch of the list that it names.
  page_of-stretch :
      (k size : ℕ) (xs : List A)
      → suc k < 2 ^ 64
      → k * size + size < 2 ^ 63
      → length xs + size < 2 ^ 63
      → page_of (suc k) size xs ≡ some (take size (drop (k * size) xs))
  unfolding page_of
  page_of-stretch k size xs hk h hl =
      let begin = page_start-product k size hk (omega arith) in
      elim (Bool-cases (leb (k * size) (length xs))) [
        | inl within ↦ simp (begin, stretch-within (k * size) size xs (ground (arith, within)) h hl)
        | inr past ↦ simp (begin, stretch-past (k * size) size xs (ground (arith, past)) h hl)
      ]

le_times : (k size : ℕ) → 0 < size → k ≤ k * size
le_times k zero h = absurd (omega (arith, h))
le_times k (suc m) h = omega arith

-- A page that is asked for by its number and its size.
fetch_provider_list-page :
    (proto : String) (k size : ℕ) (rows : Providers)
    → 0 < size
    → size ≤ 1000
    → k * size + size < 2 ^ 62
    → length (matched_providers proto rows) < 2 ^ 62
    → fetch_provider_list proto (some (suc k)) (some size) rows
      ≡ some (
        take size (drop (k * size) (matched_providers proto rows)),
        length (matched_providers proto rows),
      )
unfolding fetch_provider_list fetch_page positive_or page_size_of
fetch_provider_list-page proto k size rows positive small h hl =
    let bound : k ≤ k * size = le_times k size positive in
    let page : (if lt_int64 0 (suc k) then suc k else 1) ≡ suc k = ground (arith, bound, h) in
    let given : (if lt_int64 0 size then size else 50) ≡ size = ground (arith, positive, small) in
    let kept : lt_int64 1000 size ≡ false = ground (arith, small) in
    simp (
      page,
      given,
      kept,
      page_of-stretch k size (matched_providers proto rows) (omega (arith, bound)) (omega arith)
          (omega arith),
    )

joined : Option (Providers × ℕ) → Option Providers → Option Providers
joined none rest = none
joined (some page) none = none
joined (some (page, total)) (some rest) = some (page ++ rest)

-- `n` pages, from the page after page `k` on, put together; `none` where one of them is a panic.
unfoldable pub pages : String → ℕ → ℕ → ℕ → Providers → Option Providers
unfolding joined
pages proto zero k size rows = some []
pages proto (suc n) k size rows =
    joined (fetch_provider_list proto (some (suc k)) (some size) rows)
      (pages proto n (suc k) size rows)

joined_pages :
    {found : Option (Providers × ℕ)} {rest : Option Providers} {page later : Providers} {total : ℕ}
    → found ≡ some (page, total)
    → rest ≡ some later
    → joined found rest ≡ some (page ++ later)
unfolding joined
joined_pages h k = rw (h, k) refl

pages-from :
    (proto : String) (n k size : ℕ) (rows : Providers)
    → 0 < size
    → size ≤ 1000
    → (k + n) * size < 2 ^ 62
    → length (matched_providers proto rows) < 2 ^ 62
    → pages proto n k size rows
      ≡ some (take (n * size) (drop (k * size) (matched_providers proto rows)))
unfolding pages
pages-from proto zero k size rows positive small h hl =
    let nothing : 0 * size ≡ 0 = omega arith in rw nothing refl
pages-from proto (suc n) k size rows positive small h hl =
    let matched = matched_providers proto rows in
    let page = fetch_provider_list-page proto k size rows positive small (omega (arith, h)) hl in
    let rest = pages-from proto n (suc k) size rows positive small (omega (arith, h)) hl in
    let next : suc k * size ≡ k * size + size = omega arith in
    let shift : drop (suc k * size) matched ≡ drop size (drop (k * size) matched) =
      ap (λ m. drop m matched) next ∙ sym (drop-drop (k * size) size matched) in
    let width : size + n * size ≡ suc n * size = omega arith in
    let put : take size (drop (k * size) matched) ++ take (n * size) (drop (suc k * size) matched)
        ≡ take (suc n * size) (drop (k * size) matched) =
      ap (λ xs. take size (drop (k * size) matched) ++ take (n * size) xs) shift
      ∙ (take-drop size (n * size) (drop (k * size) matched)
          ∙ ap (λ m. take m (drop (k * size) matched)) width) in
    joined_pages page rest ∙ ap some put

-- The first `n` pages of the list of a protocol, each of a size from 1 to 1000, put together are
-- the first `n * size` providers of the protocol, in order, so that none is skipped and none is
-- shown twice, where neither that product nor the number of the providers reaches 2 ^ 62.
pub pages-take :
    (proto : String) (n size : ℕ) (rows : Providers)
    → 0 < size
    → size ≤ 1000
    → n * size < 2 ^ 62
    → length (matched_providers proto rows) < 2 ^ 62
    → pages proto n 0 size rows ≡ some (take (n * size) (matched_providers proto rows))
pages-take proto n size rows positive small h hl =
    let start : 0 * size ≡ 0 = omega arith in
    pages-from proto n 0 size rows positive small (omega (arith, h)) hl
    ∙ ap (λ k. some (take (n * size) (drop k (matched_providers proto rows)))) start

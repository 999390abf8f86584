-- ===== src/Batch/Reserve.antt =====
-- The release of a batch's reservation (`releaseReserve` in model/ibatch/cancel.go).
pub mod Mirror
use ai_gateway_api.Prelude.{
  ℕ, String, not, ◌&&◌, List, [], ◌∷◌, Option, none, some, if◌then◌else◌, parse_int, lt_int64,
  Int64,
}
use ai_gateway_api.Batch.World.{Error, redis_failed, Manager}
use ai_gateway_api.Batch.Redis.{Fields, Redis, h_get_all, reserve_decr, delete_book}

-- One entry of the book: a text that is no positive number is skipped, and a failing call is
-- only logged.
unfoldable pub release_plan :
    Manager → String → Option Int64 → List (String × ℕ) → List (String × ℕ)
unfolding reserve_decr
release_plan m plan none mirrors = mirrors
release_plan m plan (some units) mirrors =
    if lt_int64 0 units && not (m.decr_fails plan) then reserve_decr plan units mirrors else mirrors

unfoldable pub release_plans : Manager → Fields → List (String × ℕ) → List (String × ℕ)
unfolding release_plan parse_int
release_plans m [] mirrors = mirrors
release_plans m ((plan, units) ∷ book) mirrors =
    release_plans m book (release_plan m plan (parse_int units) mirrors)

close_book : Manager → String → Redis → Redis × Option Error
unfolding delete_book
close_book m batch_id r =
    if m.book_delete_fails batch_id then (r, some redis_failed) else (delete_book batch_id r, none)

release_book : Manager → String → Fields → Redis → Redis × Option Error
unfolding close_book release_plans
release_book m batch_id [] r = (r, none)
release_book m batch_id (entry ∷ book) r =
    close_book m batch_id (record r { mirrors = release_plans m (entry ∷ book) r.mirrors })

-- `releaseReserve`.
unfoldable pub release_reserve : Manager → String → Redis → Redis × Option Error
unfolding release_book h_get_all
release_reserve m batch_id r =
    if m.book_get_fails batch_id
    then (r, some redis_failed)
    else release_book m batch_id (h_get_all batch_id r.books) r

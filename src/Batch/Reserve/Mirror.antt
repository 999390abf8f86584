-- ===== src/Batch/Reserve/Mirror.antt =====
-- What a release of a reservation does to the mirror counts, once and repeated.
use ai_gateway_api.Prelude.{
  ℕ, min, Option-cases, ◌+◌, ◌-◌, ◌≡◌, refl, ap, String, Bool-cases, true, false, List, [], ◌∷◌,
  Option, none, some, ◌==◌, eq_iff, eq_refl, if◌then◌else◌, parse_int, lt_int64, lookup,
  lookup-insert, lookup-remove, remove, arith, inl, inr, Int64,
}
use ai_gateway_api.Batch.World.{Manager}
use ai_gateway_api.Batch.Redis.{Fields, Redis, h_get_all, mirror, reserve_decr, delete_book}
use ai_gateway_api.Batch.Reserve.{
  release_plan, release_plans, release_book, close_book, release_reserve,
}

-- The units of one entry of a book: none where the text is no positive number.
units_of : Option Int64 → ℕ
units_of none = 0
units_of (some units) = if lt_int64 0 units then units else 0

-- All the units that a book holds against a plan, whether or not a call can take them off.
unfoldable pub owed : String → Fields → ℕ
unfolding units_of
owed p [] = 0
owed p ((plan, units) ∷ book) = (if plan == p then units_of (parse_int units) else 0) + owed p book

mirror-reserve_decr :
    (p plan : String) (units : ℕ) (ms : List (String × ℕ))
    → mirror p (reserve_decr plan units ms) ≡ mirror p ms - (if plan == p then units else 0)
unfolding mirror reserve_decr
mirror-reserve_decr p plan units ms = elim (Option-cases (lookup plan ms)) [
  | inl missing ↦ ground (arith, eq_iff plan p, missing)
  | inr (cur, found) ↦
      ground (arith, eq_iff plan p, found, lookup-insert plan p (cur - min cur units) ms)
]

mirror-release_plan :
    (m : Manager) (p plan : String) (units : Option Int64) (ms : List (String × ℕ))
    → mirror p (release_plan m plan units ms)
      ≡ mirror p ms - (if m.decr_fails p then 0 else if plan == p then units_of units else 0)
unfolding release_plan units_of
mirror-release_plan m p plan none ms = ground arith
mirror-release_plan m p plan (some units) ms = elim (Bool-cases (plan == p)) [
  | inl same ↦
      let calls : m.decr_fails plan ≡ m.decr_fails p = ap m.decr_fails ((eq_iff plan p).0 same) in
      ground (arith, mirror-reserve_decr p plan units ms, same, calls)
  | inr other ↦ ground (arith, mirror-reserve_decr p plan units ms, other)
]

mirror-release_plans :
    (m : Manager) (p : String) (book : Fields) (ms : List (String × ℕ))
    → mirror p (release_plans m book ms) ≡ mirror p ms - (if m.decr_fails p then 0 else owed p book)
unfolding release_plans owed
mirror-release_plans m p [] ms = ground arith
mirror-release_plans m p ((plan, units) ∷ book) ms = ground (
  arith,
  mirror-release_plans m p book (release_plan m plan (parse_int units) ms),
  mirror-release_plan m p plan (parse_int units) ms,
)

h_get_all-remove : (b : String) (books : List (String × Fields)) → h_get_all b (remove b books) ≡ []
unfolding h_get_all
h_get_all-remove b books = ground (arith, lookup-remove b b books, eq_refl b)

release_book-mirror :
    (m : Manager) (b p : String) (book : Fields) (r : Redis)
    → m.book_delete_fails b ≡ false
    → h_get_all b r.books ≡ book
    → let (r', failure) = release_book m b book r in
      (mirror p r'.mirrors ≡ mirror p r.mirrors - (if m.decr_fails p then 0 else owed p book))
      × (h_get_all b r'.books ≡ [])
      × (failure ≡ none)
unfolding release_book
release_book-mirror m b p [] r del e = (unfold owed in ground arith, e, refl)
release_book-mirror m b p (entry ∷ book) r del e =
    rw (close_book, del)
      (
        mirror-release_plans m p (entry ∷ book) r.mirrors,
        unfold delete_book in h_get_all-remove b r.books,
        refl,
      )

-- A release that can read and delete the book closes it, and takes what the book holds off the
-- count of every plan whose decrement is answered, down to zero at most. A plan whose decrement
-- fails keeps its whole count, and the book is closed all the same.
pub release_reserve-mirror :
    (m : Manager) (b p : String) (r : Redis)
    → m.book_get_fails b ≡ false
    → m.book_delete_fails b ≡ false
    → let (r', failure) = release_reserve m b r in
      (mirror p r'.mirrors
        ≡ mirror p r.mirrors - (if m.decr_fails p then 0 else owed p (h_get_all b r.books)))
      × (h_get_all b r'.books ≡ [])
      × (failure ≡ none)
unfolding release_reserve
release_reserve-mirror m b p r get del =
    rw get (release_book-mirror m b p (h_get_all b r.books) r del refl)

release_closed :
    (m : Manager) (b : String) (r : Redis)
    → m.book_get_fails b ≡ false
    → h_get_all b r.books ≡ []
    → release_reserve m b r ≡ (r, none)
unfolding release_reserve
release_closed m b r get closed = rw (get, closed)

-- After a release that succeeded, a second one by any manager that can read the book changes
-- nothing in Redis: no plan is credited twice.
pub release_reserve_twice :
    (m again : Manager) (b : String) (r : Redis)
    → m.book_get_fails b ≡ false
    → m.book_delete_fails b ≡ false
    → again.book_get_fails b ≡ false
    → release_reserve again b (release_reserve m b r).0 ≡ ((release_reserve m b r).0, none)
release_reserve_twice m again b r get del get' =
    release_closed again b _ get' (release_reserve-mirror m b "" r get del).1

release_reserve_open :
    (m : Manager) (b p : String) (r : Redis)
    → m.book_get_fails b ≡ false
    → m.book_delete_fails b ≡ true
    → let r' = (release_reserve m b r).0 in
      (mirror p r'.mirrors
        ≡ mirror p r.mirrors - (if m.decr_fails p then 0 else owed p (h_get_all b r.books)))
      × (r'.books ≡ r.books)
unfolding release_reserve
release_reserve_open m b p r get del = rw get (open_book (h_get_all b r.books))
  where
    open_book :
        (book : Fields)
        → let r' = (release_book m b book r).0 in
          (mirror p r'.mirrors ≡ mirror p r.mirrors - (if m.decr_fails p then 0 else owed p book))
          × (r'.books ≡ r.books)
    open_book [] = (unfold owed in ground arith, refl)
    open_book (entry ∷ book) =
        rw (close_book, del) (mirror-release_plans m p (entry ∷ book) r.mirrors, refl)

-- Where the book cannot be deleted, the release has already been made and the book stays: the
-- retry takes the units of a plan whose decrements are answered off a second time.
pub release_reserve_retry :
    (m again : Manager) (b p : String) (r : Redis)
    → m.book_get_fails b ≡ false
    → m.book_delete_fails b ≡ true
    → again.book_get_fails b ≡ false
    → again.book_delete_fails b ≡ false
    → again.decr_fails ≡ m.decr_fails
    → mirror p (release_reserve again b (release_reserve m b r).0).0.mirrors
      ≡ mirror p r.mirrors
        - (if m.decr_fails p
            then 0
            else owed p (h_get_all b r.books) + owed p (h_get_all b r.books))
release_reserve_retry m again b p r get del get' del' same =
    let (first, books) = release_reserve_open m b p r get del in
    let second = (release_reserve-mirror again b p (release_reserve m b r).0 get' del').0 in
    let calls : again.decr_fails p ≡ m.decr_fails p = ap (λ f. f p) same in
    let units : owed p (h_get_all b (release_reserve m b r).0.books)
        ≡ owed p (h_get_all b r.books) =
      rw books refl in
    ground (arith, first, second, calls, units)

-- A release does not touch the claims of settlements.
release_book-settled :
    (m : Manager) (b : String) (book : Fields) (r : Redis)
    → (release_book m b book r).0.settled ≡ r.settled
unfolding release_book close_book delete_book
release_book-settled m b [] r = refl
release_book-settled m b (entry ∷ book) r = ground arith

pub release_reserve-settled :
    (m : Manager) (b : String) (r : Redis) → (release_reserve m b r).0.settled ≡ r.settled
unfolding release_reserve
release_reserve-settled m b r = ground (arith, release_book-settled m b (h_get_all b r.books) r)

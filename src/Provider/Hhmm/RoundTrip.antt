-- ===== src/Provider/Hhmm/RoundTrip.antt =====
-- What parseHHMM reads (model/iprovider/provider.go).
use Prim.Native.String
use ai_gateway_api.Prelude.{
  ℕ, ◌+◌, ◌*◌, ◌/◌, ◌%◌, ◌<◌, suc, zero, ◌^◌, ◌≡◌, refl, String, inl, inr, Option, none, some, List,
  [], ◌∷◌, arith, nat_eq, Bool-cases, Int64, parse_codes, digit, utf8, utf8-append, ◌∙◌, ap,
  parse_codes-bounds, parse_codes-two,
}
use ai_gateway_api.Provider.Hhmm.{minutes, parse_bytes, parse_hhmm}

-- The two digits of a number below 100.
abbrev pub two_digits : ℕ → String → String
two_digits n rest = String.◌++◌ (digit (n / 10)) (String.◌++◌ (digit (n % 10)) rest)

abbrev pub print_hhmm : ℕ → ℕ → String
print_hhmm hour minute = two_digits hour (String.◌++◌ ":" (two_digits minute ""))

minutes-bounds :
    (hour minute : Option Int64) (n : ℕ)
    → ((h : Int64) → hour ≡ some h → h < 2 ^ 64)
    → ((m : Int64) → minute ≡ some m → m < 2 ^ 64)
    → minutes hour minute ≡ inr n
    → n < 1440
unfolding minutes
minutes-bounds none m n ph pm e = cc e
minutes-bounds (some h) none n ph pm e = cc e
minutes-bounds (some h) (some m) n ph pm e = ground (arith, ph h refl, pm m refl, e)

utf8-digit : (n : ℕ) → n < 10 → utf8 (digit n) ≡ (48 + n) ∷ []
unfolding digit
utf8-digit zero h = refl
utf8-digit (suc zero) h = refl
utf8-digit (suc (suc zero)) h = refl
utf8-digit (suc (suc (suc zero))) h = refl
utf8-digit (suc (suc (suc (suc zero)))) h = refl
utf8-digit (suc (suc (suc (suc (suc zero))))) h = refl
utf8-digit (suc (suc (suc (suc (suc (suc zero)))))) h = refl
utf8-digit (suc (suc (suc (suc (suc (suc (suc zero))))))) h = refl
utf8-digit (suc (suc (suc (suc (suc (suc (suc (suc zero)))))))) h = refl
utf8-digit (suc (suc (suc (suc (suc (suc (suc (suc (suc zero))))))))) h = refl
utf8-digit (suc (suc (suc (suc (suc (suc (suc (suc (suc (suc n)))))))))) h =
    absurd (omega (arith, h))

minutes-valid :
    (hour minute : ℕ)
    → hour < 24
    → minute < 60
    → minutes (some hour) (some minute) ≡ inr (hour * 60 + minute)
unfolding minutes
minutes-valid hour minute hh hm = ground arith

parse_bytes-bounds : (cs : List ℕ) (n : ℕ) → parse_bytes cs ≡ inr n → n < 1440
unfolding parse_bytes
parse_bytes-bounds (a ∷ b ∷ c ∷ d ∷ e ∷ []) n eq = elim (Bool-cases (nat_eq c b':')) [
  | inl colon ↦
      minutes-bounds (parse_codes (a ∷ b ∷ [])) (parse_codes (d ∷ e ∷ [])) n
        (parse_codes-bounds (a ∷ b ∷ [])) (parse_codes-bounds (d ∷ e ∷ [])) (rw colon at eq)
  | inr other ↦ cc (rw other at eq)
]
parse_bytes-bounds _ n eq = cc eq

-- A time of day that is read is a minute of the day, so that it is below 1440.
pub parse_hhmm-bounds : (s : String) (n : ℕ) → parse_hhmm s ≡ inr n → n < 1440
unfolding parse_hhmm
parse_hhmm-bounds s n e = parse_bytes-bounds (utf8 s) n e

-- An hour below 24 and a minute below 60, printed with two digits each, are read as the minute
-- of the day that they name.
pub parse_hhmm-print_hhmm :
    (hour minute : ℕ)
    → hour < 24
    → minute < 60
    → parse_hhmm (print_hhmm hour minute) ≡ inr (hour * 60 + minute)
unfolding parse_hhmm parse_bytes
parse_hhmm-print_hhmm hour minute hh hm =
    let printed : utf8 (print_hhmm hour minute)
        ≡ (48 + hour / 10)
          ∷ (48 + hour % 10)
          ∷ b':'
          ∷ (48 + minute / 10)
          ∷ (48 + minute % 10)
          ∷ [] =
      simp (
        utf8-append,
        utf8-digit (hour / 10) (omega arith),
        utf8-digit (hour % 10) (omega arith),
        utf8-digit (minute / 10) (omega arith),
        utf8-digit (minute % 10) (omega arith),
      ) in
    let back : (n : ℕ) → n / 10 * 10 + n % 10 ≡ n = λ n. omega arith in
    ap parse_bytes printed
    ∙ simp (
      parse_codes-two (hour / 10) (hour % 10) (omega arith) (omega arith),
      parse_codes-two (minute / 10) (minute % 10) (omega arith) (omega arith),
      back,
      minutes-valid hour minute hh hm,
    )

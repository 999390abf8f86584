-- ===== src/Prelude/Numbers.antt =====
-- Decimal texts, as strconv reads and writes them (`ParseInt` with base 10 and 64 bits, and
-- `FormatInt`).
use Prim.Native.Char.{code}
use Prim.Native.String
use Prim.Native.Nat.{ℕ, zero, suc, ◌+◌, ◌-◌, ◌*◌, ◌/◌, ◌%◌, ◌^◌, ◌<◌}
use Prim.Native.String.{String}
use mathlib.Core.Path.{◌≡◌}
use mathlib.Core.Logic.{inl, inr}
use native.Mathlib.Omega.{arith}
use mathlib.Core.Bool.{◌&&◌}
use mathlib.Core.Option.{Option, none, some}
use mathlib.Core.List.{List, [], ◌∷◌}
use ai_gateway_api.Prelude.Tests.{ltb, leb, nat_eq, if◌then◌else◌, Bool-cases}
use ai_gateway_api.Prelude.Words.{Int64}

abbrev pub codes : String → List ℕ
codes String.[] = []
codes (String.◌∷◌ c s) = code c ∷ codes s

digits_from : ℕ → List ℕ → Option ℕ
digits_from acc [] = some acc
digits_from acc (c ∷ cs) =
    let rest = digits_from (acc * 10 + (c - b'0')) cs in
    if leb b'0' c && leb c b'9' then rest else none

-- One digit at least.
parse_magnitude : List ℕ → Option ℕ
unfolding digits_from
parse_magnitude [] = none
parse_magnitude (c ∷ cs) = digits_from 0 (c ∷ cs)

within : ℕ → Option ℕ → Option ℕ
within bound none = none
within bound (some n) = if leb n bound then some n else none

negated : Option ℕ → Option Int64
negated none = none
negated (some n) = some ((2 ^ 64 - n) % 2 ^ 64)

-- `strconv.Atoi` on bytes too: an `int` has 64 bits.
unfoldable pub parse_codes : List ℕ → Option Int64
unfolding parse_magnitude within negated
parse_codes [] = none
parse_codes (c ∷ cs) =
    if nat_eq c b'-'
    then negated (within (2 ^ 63) (parse_magnitude cs))
    else if nat_eq c b'+'
    then within (2 ^ 63 - 1) (parse_magnitude cs)
    else within (2 ^ 63 - 1) (parse_magnitude (c ∷ cs))

-- `none` is the error of `ParseInt`: no digit, another character, or a number out of range.
unfoldable pub parse_int : String → Option Int64
unfolding parse_codes
parse_int s = parse_codes (codes s)

within-bounds :
    (bound : ℕ) (o : Option ℕ) (n : Int64) → bound < 2 ^ 64 → within bound o ≡ some n → n < 2 ^ 64
unfolding within
within-bounds bound none n h e = cc e
within-bounds bound (some m) n h e = ground (arith, h, e)

negated-bounds : (o : Option ℕ) (n : Int64) → negated o ≡ some n → n < 2 ^ 64
unfolding negated
negated-bounds none n e = cc e
negated-bounds (some m) n e = ground (arith, e)

-- What is parsed is a pattern of 64 bits.
pub parse_codes-bounds : (cs : List ℕ) (n : Int64) → parse_codes cs ≡ some n → n < 2 ^ 64
unfolding parse_codes
parse_codes-bounds [] n e = cc e
parse_codes-bounds (c ∷ cs) n e = elim (Bool-cases (nat_eq c b'-')) [
  | inl minus ↦ negated-bounds _ n (rw minus at e)
  | inr other ↦ elim (Bool-cases (nat_eq c b'+')) [
    | inl plus ↦
        within-bounds (2 ^ 63 - 1) (parse_magnitude cs) n (omega arith) (rw (other, plus) at e)
    | inr digit_first ↦
        within-bounds (2 ^ 63 - 1) (parse_magnitude (c ∷ cs)) n (omega arith)
          (rw (other, digit_first) at e)
  ]
]

pub parse_codes-two :
    (a b : ℕ) → a < 10 → b < 10 → parse_codes ((48 + a) ∷ (48 + b) ∷ []) ≡ some (a * 10 + b)
unfolding parse_codes digits_from parse_magnitude within
parse_codes-two a b ha hb = ground arith

unfoldable pub digit : ℕ → String
digit n =
    if nat_eq n 0
    then "0"
    else if nat_eq n 1
    then "1"
    else if nat_eq n 2
    then "2"
    else if nat_eq n 3
    then "3"
    else if nat_eq n 4
    then "4"
    else if nat_eq n 5
    then "5"
    else if nat_eq n 6
    then "6"
    else if nat_eq n 7
    then "7"
    else if nat_eq n 8
    then "8"
    else "9"

-- The fuel is the number of digits that there may be: a number below 2 ^ 64 has 20 at most.
format_digits : ℕ → ℕ → String → String
unfolding digit
format_digits zero n acc = acc
format_digits (suc f) n acc =
    let rest = format_digits f (n / 10) (String.◌++◌ (digit (n % 10)) acc) in
    if ltb n 10 then String.◌++◌ (digit n) acc else rest

unfoldable pub format_int : Int64 → String
unfolding format_digits
format_int n =
    if ltb n (2 ^ 63)
    then format_digits 20 n ""
    else String.◌++◌ "-" (format_digits 20 (2 ^ 64 - n) "")

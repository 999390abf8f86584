-- ===== src/Prelude/Words.antt =====
-- Go's `int64` as its bit pattern, a number below 2 ^ 64: addition wraps, and order is signed.
use Prim.Native.Nat.{ℕ, ◌+◌, ◌^◌, ◌%◌, ◌<◌}
use mathlib.Core.Path.{◌≡◌}
use mathlib.Core.Logic.{◌↔◌}
use mathlib.Core.Bool.{Bool, true}
use native.Mathlib.Omega.{arith}
use ai_gateway_api.Prelude.Tests.{ltb}

abbrev pub Int64 : Type 0
Int64 = ℕ

abbrev pub add_int64 : Int64 → Int64 → Int64
add_int64 a b = (a + b) % 2 ^ 64

-- Signed `a < b`: adding 2 ^ 63 turns the signed order into the order of the numbers.
abbrev pub lt_int64 : Int64 → Int64 → Bool
lt_int64 a b = ltb ((a + 2 ^ 63) % 2 ^ 64) ((b + 2 ^ 63) % 2 ^ 64)

-- A pattern is a positive number exactly when it is neither zero nor has its sign bit set.
pub lt_int64-zero : (a : Int64) → a < 2 ^ 64 → (lt_int64 0 a ≡ true) ↔ ((0 < a) × (a < 2 ^ 63))
lt_int64-zero a h = ground arith

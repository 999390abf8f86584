-- ===== src/Prelude/Distinct.antt =====
-- Lists without repetition, and the loops that keep a set of what they have seen.
use Prim.Native.String.{String}
use mathlib.Core.Path.{◌≡◌, refl}
use mathlib.Core.Bool.{false}
use mathlib.Core.List.{List, [], ◌∷◌}
use text.Mathlib.Text.{◌==◌}
use text.Mathlib.TextEquality.{eq_iff}
use native.Mathlib.Omega.{arith}
use ai_gateway_api.Prelude.Tests.{or-false}
use ai_gateway_api.Prelude.Lists.{All, elem}

abbrev pub IsDistinct : List String → Type 0
IsDistinct [] = Unit
IsDistinct (x ∷ xs) = (elem x xs ≡ false) × IsDistinct xs

abbrev pub IsNew : List String → List String → Type 0
IsNew seen = All (λ x. elem x seen ≡ false)

pub eq_sym : (x y : String) → x == y ≡ false → y == x ≡ false
eq_sym x y h = ground (arith, eq_iff x y, eq_iff y x, h)

-- What is new after `x` was seen is new before, and is not `x`.
pub IsNew-seen :
    (x : String) (seen xs : List String) → IsNew (x ∷ seen) xs → (elem x xs ≡ false) × IsNew seen xs
IsNew-seen x seen [] h = (refl, tt)
IsNew-seen x seen (y ∷ ys) (h, hs) =
    let (other, unseen) = or-false (x == y) (elem y seen) h in
    let (rest, news) = IsNew-seen x seen ys hs in (rw (eq_sym x y other, rest) refl, (unseen, news))

-- ===== src/Prelude/Text.antt =====
-- What the program uses of Go's `strings` and `net` packages, over native texts.
use Prim.Native.Char.{code}
use Prim.Native.String
use ai_gateway_api.Prelude.Tests.{leb, nat_eq, if◌then◌else◌}
use Prim.Native.Nat.{ℕ}
use Prim.Native.String.{String}
use mathlib.Core.Bool.{Bool, false, ◌&&◌, ◌||◌}
use mathlib.Core.List.{List, [], ◌∷◌}
use text.Mathlib.Text.{◌==◌}
use ai_gateway_api.Prelude.Numbers.{codes}

-- Unicode's White_Space, as `strings.TrimSpace` takes it.
unfoldable pub is_space : ℕ → Bool
is_space c =
    (leb 9 c && leb c 13)
    || nat_eq c 32
    || nat_eq c 0x85
    || nat_eq c 0xa0
    || nat_eq c 0x1680
    || (leb 0x2000 c && leb c 0x200a)
    || nat_eq c 0x2028
    || nat_eq c 0x2029
    || nat_eq c 0x202f
    || nat_eq c 0x205f
    || nat_eq c 0x3000

trim_left : String → String
trim_left String.[] = ""
trim_left (String.◌∷◌ c s) =
    let rest = trim_left s in if is_space (code c) then rest else String.◌∷◌ c s

trim_right : String → String
trim_right String.[] = ""
trim_right (String.◌∷◌ c s) =
    let rest = trim_right s in if rest == "" && is_space (code c) then "" else String.◌∷◌ c rest

unfoldable pub trim_space : String → String
unfolding trim_left trim_right is_space
trim_space s = trim_left (trim_right s)

-- `strings.TrimRight(s, "/")`.
unfoldable pub trim_right_slash : String → String
trim_right_slash String.[] = ""
trim_right_slash (String.◌∷◌ c s) =
    let rest = trim_right_slash s in
    if rest == "" && nat_eq (code c) b'/' then "" else String.◌∷◌ c rest

has_code : ℕ → List ℕ → Bool
has_code n [] = false
has_code n (c ∷ cs) = nat_eq c n || has_code n cs

-- `net.JoinHostPort`: a host with a colon is put in brackets.
unfoldable pub join_host_port : String → String → String
unfolding has_code
join_host_port host port =
    if has_code b':' (codes host)
    then String.◌++◌ "[" (String.◌++◌ host (String.◌++◌ "]:" port))
    else String.◌++◌ host (String.◌++◌ ":" port)

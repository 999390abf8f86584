-- ===== src/Prelude/Bytes.antt =====
-- The bytes of a text: Go's `len` and `s[i]` count and read the bytes of the UTF-8 form.
use Prim.Native.Char.{code}
use Prim.Native.String
use Prim.Native.Nat.{ℕ, ◌+◌, ◌/◌, ◌%◌}
use Prim.Native.String.{String}
use mathlib.Core.Path.{◌≡◌, ap, sym, ◌∙◌}
use mathlib.Core.Bool.{Bool, true, false, ◌&&◌, ◌||◌}
use mathlib.Core.List.{List, [], ◌∷◌, ◌++◌, append_assoc}
use text.Mathlib.TextLemmas.{nil-append, cons-append}
use ai_gateway_api.Prelude.Tests.{ltb, nat_eq, if◌then◌else◌}

abbrev pub encode : ℕ → List ℕ
encode c =
    if ltb c 0x80
    then c ∷ []
    else if ltb c 0x800
    then (0xc0 + c / 64) ∷ (0x80 + c % 64) ∷ []
    else if ltb c 0x10000
    then (0xe0 + c / 4096) ∷ (0x80 + c / 64 % 64) ∷ (0x80 + c % 64) ∷ []
    else (0xf0 + c / 262144) ∷ (0x80 + c / 4096 % 64) ∷ (0x80 + c / 64 % 64) ∷ (0x80 + c % 64) ∷ []

abbrev pub utf8 : String → List ℕ
utf8 String.[] = []
utf8 (String.◌∷◌ c s) = encode (code c) ++ utf8 s

pub utf8-append : (s t : String) → utf8 (String.◌++◌ s t) ≡ utf8 s ++ utf8 t
utf8-append String.[] t = ap utf8 (nil-append t)
utf8-append (String.◌∷◌ c s) t =
    ap utf8 (cons-append c s t)
    ∙ (ap (encode (code c) ++◌) (utf8-append s t)
        ∙ sym (append_assoc (encode (code c)) (utf8 s) (utf8 t)))

-- `strings.HasPrefix` and `strings.Contains` on bytes.
abbrev pub starts_with : List ℕ → List ℕ → Bool
starts_with [] s = true
starts_with (p ∷ ps) [] = false
starts_with (p ∷ ps) (c ∷ cs) = nat_eq p c && starts_with ps cs

abbrev pub contains : List ℕ → List ℕ → Bool
contains part [] = starts_with part []
contains part (c ∷ cs) = starts_with part (c ∷ cs) || contains part cs

-- ===== src/Prelude/Cut.antt =====
-- `strings.CutPrefix` and `strings.Cut` with a separator of one character.
use Prim.Native.Char.{Char, code}
use Prim.Native.String
use Prim.Native.String.{String}
use mathlib.Core.Path.{◌≡◌, refl, sym, subst, ap, ◌∙◌}
use mathlib.Core.Logic.{inl, inr}
use mathlib.Core.Bool.{true, false}
use mathlib.Core.Option.{Option, none, some}
use text.Mathlib.TextLemmas.{nil-append, cons-append}
use native.Mathlib.Omega.{arith}
use text.Mathlib.TextEquality.{Char-path}
use ai_gateway_api.Prelude.Tests.{nat_eq, nat_eq_iff, if◌then◌else◌, Bool-cases}

unfoldable pub cut_prefix : String → String → Option String
cut_prefix String.[] s = some s
cut_prefix (String.◌∷◌ p ps) String.[] = none
cut_prefix (String.◌∷◌ p ps) (String.◌∷◌ c cs) =
    let rest = cut_prefix ps cs in if nat_eq (code p) (code c) then rest else none

pub cut_prefix-append : (p s : String) → cut_prefix p (String.◌++◌ p s) ≡ some s
unfolding cut_prefix
cut_prefix-append String.[] s = ap some (nil-append s)
cut_prefix-append (String.◌∷◌ p ps) s =
    let same : nat_eq (code p) (code p) ≡ true = ground arith in
    let step : cut_prefix (String.◌∷◌ p ps) (String.◌∷◌ p (String.◌++◌ ps s)) ≡ some s =
      rw same (cut_prefix-append ps s) in
    ap (cut_prefix (String.◌∷◌ p ps)) (cons-append p ps s) ∙ step

pub cut_prefix-some : (p s rest : String) → cut_prefix p s ≡ some rest → s ≡ String.◌++◌ p rest
unfolding cut_prefix
cut_prefix-some String.[] s rest h = let same : s ≡ rest = cc h in same ∙ sym (nil-append rest)
cut_prefix-some (String.◌∷◌ p ps) String.[] rest h = cc h
cut_prefix-some (String.◌∷◌ p ps) (String.◌∷◌ c cs) rest h =
    elim (Bool-cases (nat_eq (code p) (code c))) [
      | inr other ↦ cc (rw other at h)
      | inl same ↦
          let chars : c ≡ p = sym (Char-path p c ((nat_eq_iff (code p) (code c)).0 same)) in
          let tails = cut_prefix-some ps cs rest (rw same at h) in
          ap (λ x. String.◌∷◌ x cs) chars ∙ (ap (String.◌∷◌ p) tails ∙ sym (cons-append p ps rest))
    ]

extended : Char → Option (String × String) → Option (String × String)
extended c none = none
extended c (some (before, after)) = some (String.◌∷◌ c before, after)

-- `strings.Cut`: what stands before the first separator, and after it.
unfoldable pub cut : Char → String → Option (String × String)
unfolding extended
cut sep String.[] = none
cut sep (String.◌∷◌ c s) =
    let rest = cut sep s in if nat_eq (code c) (code sep) then some ("", s) else extended c rest

-- The text has no such character.
abbrev pub Lacks : Char → String → Type 0
Lacks sep String.[] = Unit
Lacks sep (String.◌∷◌ c s) = (nat_eq (code c) (code sep) ≡ false) × Lacks sep s

pub cut-append :
    (sep : Char) (before after : String)
    → Lacks sep before
    → cut sep (String.◌++◌ before (String.◌∷◌ sep after)) ≡ some (before, after)
unfolding cut
cut-append sep String.[] after lacks =
    let same : nat_eq (code sep) (code sep) ≡ true = ground arith in
    let step : cut sep (String.◌∷◌ sep after) ≡ some ("", after) = rw same refl in
    ap (cut sep) (nil-append (String.◌∷◌ sep after)) ∙ step
cut-append sep (String.◌∷◌ c s) after (other, lacks) =
    let step : cut sep (String.◌∷◌ c (String.◌++◌ s (String.◌∷◌ sep after)))
        ≡ some (String.◌∷◌ c s, after) =
      rw other (ap (extended c) (cut-append sep s after lacks)) in
    ap (cut sep) (cons-append c s (String.◌∷◌ sep after)) ∙ step

extended-some :
    (c : Char) (o : Option (String × String)) (before after : String)
    → extended c o ≡ some (before, after)
    → (s : String) × (o ≡ some (s, after)) × (before ≡ String.◌∷◌ c s)
unfolding extended
extended-some c none before after h = cc h
extended-some c (some (s, t)) before after h = (s, cc h, cc h)

pub cut-some :
    (sep : Char) (s before after : String)
    → cut sep s ≡ some (before, after)
    → Lacks sep before × (s ≡ String.◌++◌ before (String.◌∷◌ sep after))
unfolding cut
cut-some sep String.[] before after h = cc h
cut-some sep (String.◌∷◌ c s) before after h = elim (Bool-cases (nat_eq (code c) (code sep))) [
  | inl same ↦
      let cut_here : ◌≡◌ {A = Option (String × String)} (some ("", s)) (some (before, after)) =
        rw same at h in
      let nothing : "" ≡ before = cc cut_here in
      let rest : s ≡ after = cc cut_here in
      let chars : c ≡ sep = Char-path c sep ((nat_eq_iff (code c) (code sep)).0 same) in
      (
        subst (Lacks sep) nothing tt,
        ap (λ x. String.◌∷◌ x s) chars
            ∙ (ap (String.◌∷◌ sep) rest
                ∙ (sym (nil-append (String.◌∷◌ sep after))
                    ∙ ap (λ x. String.◌++◌ x (String.◌∷◌ sep after)) nothing)),
      )
  | inr other ↦
      let (s', found, first) = extended-some c (cut sep s) before after (rw other at h) in
      let (lacks, whole) = cut-some sep s s' after found in
      (
        subst (Lacks sep) (sym first) (other, lacks),
        ap (String.◌∷◌ c) whole
            ∙ (sym (cons-append c s' (String.◌∷◌ sep after))
                ∙ ap (λ x. String.◌++◌ x (String.◌∷◌ sep after)) (sym first)),
      )
]

pub single-append : (c : Char) (s : String) → String.◌++◌ (String.◌∷◌ c "") s ≡ String.◌∷◌ c s
single-append c s = cons-append c "" s ∙ ap (String.◌∷◌ c) (nil-append s)

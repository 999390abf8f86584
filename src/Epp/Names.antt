-- ===== src/Epp/Names.antt =====
-- The order of names, and lists sorted by a name, for `sort.Strings` and `sort.Slice`. Go compares
-- the bytes of UTF-8, which is the order of the code points.
use ai_gateway_api.Prelude.{
  ℕ, ◌≡◌, ◌≢◌, refl, String, Bool, true, false, ◌&&◌, ◌||◌, List, [], ◌∷◌, ltb, nat_eq, arith, All,
  codes, if◌then◌else◌, Bool-cases, inl, inr,
}

unfoldable pub codes_lt : List ℕ → List ℕ → Bool
codes_lt xs [] = false
codes_lt [] (y ∷ ys) = true
codes_lt (x ∷ xs) (y ∷ ys) = ltb x y || (nat_eq x y && codes_lt xs ys)

unfoldable pub name_lt : String → String → Bool
unfolding codes_lt
name_lt a b = codes_lt (codes a) (codes b)

codes_lt_irrefl : (xs : List ℕ) → codes_lt xs xs ≡ false
unfolding codes_lt
codes_lt_irrefl [] = refl
codes_lt_irrefl (x ∷ xs) = ground (arith, codes_lt_irrefl xs)

codes_lt_trans :
    (xs ys zs : List ℕ) → codes_lt xs ys ≡ true → codes_lt ys zs ≡ true → codes_lt xs zs ≡ true
unfolding codes_lt
codes_lt_trans xs [] zs h k = cc h
codes_lt_trans xs (y ∷ ys) [] h k = cc k
codes_lt_trans [] (y ∷ ys) (z ∷ zs) h k = refl
codes_lt_trans (x ∷ xs) (y ∷ ys) (z ∷ zs) h k = ground (arith, codes_lt_trans xs ys zs)

pub name_lt_irrefl : (a : String) → name_lt a a ≡ false
unfolding name_lt
name_lt_irrefl a = codes_lt_irrefl (codes a)

pub name_lt_trans : (a b c : String) → name_lt a b ≡ true → name_lt b c ≡ true → name_lt a c ≡ true
unfolding name_lt
name_lt_trans a b c = codes_lt_trans (codes a) (codes b) (codes c)

module _ {ℓ} {A : Type ℓ} (key : A → String) where
  -- An insertion sort; entries of one name keep their order.
  unfoldable pub insert_by : A → List A → List A
  insert_by a [] = a ∷ []
  insert_by a (b ∷ bs) =
      let rest = insert_by a bs in if name_lt (key b) (key a) then b ∷ rest else a ∷ b ∷ bs

  unfoldable pub sort_by : List A → List A
  unfolding insert_by
  sort_by [] = []
  sort_by (a ∷ items) = insert_by a (sort_by items)

  insert_by-All {κ} :
      (P : A → Type κ) (a : A) (bs : List A) → P a → All P bs → All P (insert_by a bs)
  unfolding insert_by
  insert_by-All P a [] p ps = (p, tt)
  insert_by-All P a (b ∷ bs) p (q, qs) = elim (Bool-cases (name_lt (key b) (key a))) [
    | inl h ↦ rw h (q, insert_by-All P a bs p qs)
    | inr h ↦ rw h (p, (q, qs))
  ]

  All-insert_by {κ} :
      (P : A → Type κ) (a : A) (bs : List A) → All P (insert_by a bs) → P a × All P bs
  unfolding insert_by
  All-insert_by P a [] (p, ps) = (p, tt)
  All-insert_by P a (b ∷ bs) ps = elim (Bool-cases (name_lt (key b) (key a))) [
    | inl h ↦
        let split : P b × All P (insert_by a bs) = rw h at ps in
        let rest = All-insert_by P a bs split.1 in (rest.0, (split.0, rest.1))
    | inr h ↦ rw h at ps
  ]

  -- A sorted list has the entries that the list has.
  pub sort_by-All {κ} : (P : A → Type κ) (items : List A) → All P items → All P (sort_by items)
  unfolding sort_by
  sort_by-All P [] ps = tt
  sort_by-All P (a ∷ items) (p, ps) = insert_by-All P a (sort_by items) p (sort_by-All P items ps)

  pub All-sort_by {κ} : (P : A → Type κ) (items : List A) → All P (sort_by items) → All P items
  unfolding sort_by
  All-sort_by P [] ps = tt
  All-sort_by P (a ∷ items) ps =
      let split = All-insert_by P a (sort_by items) ps in (split.0, All-sort_by P items split.1)

  insert_by-present : (a : A) (bs : List A) → insert_by a bs ≢ []
  unfolding insert_by
  insert_by-present a [] e = cc e
  insert_by-present a (b ∷ bs) e = elim (Bool-cases (name_lt (key b) (key a))) [
    | inl h ↦ cc (rw (insert_by, h) at e)
    | inr h ↦ cc (rw (insert_by, h) at e)
  ]

  pub sort_by-present : (items : List A) → items ≢ [] → sort_by items ≢ []
  unfolding sort_by
  sort_by-present [] present = present
  sort_by-present (a ∷ items) present = insert_by-present a (sort_by items)

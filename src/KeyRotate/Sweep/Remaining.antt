-- ===== src/KeyRotate/Sweep/Remaining.antt =====
-- The rows beyond a cursor (storage/rdb/keyrotate/keyrotate.go, ListRows, RewriteRow).
use ai_gateway_api.Prelude.{
  ℕ, zero, suc, ◌≤◌, ◌<◌, ◌≡◌, refl, sym, subst, String, true, false, Bool-cases, List, [], ◌∷◌,
  Option, none, some, take, length, ◌⊎◌, inl, inr, arith,
}
use ai_gateway_api.KeyRotate.Sweep.{Db, beyond, rows_after, list_rows, rewrite_row, last_pk}

module _ {P : Type 0} where
  abbrev Holds : P → List (P × String) → Type 0
  Holds k [] = ⊥
  Holds k ((pk, value) ∷ rows) = (pk ≡ k) ⊎ Holds k rows

  Holds-last_pk :
      (pk : P) (value : String) (page : List (P × String))
      → (k : P) × ((last_pk (some pk) page ≡ some k) × Holds k ((pk, value) ∷ page))
  Holds-last_pk pk value [] = (pk, (refl, inl refl))
  Holds-last_pk pk value ((next, text) ∷ page) =
      let (k, (at, h)) = Holds-last_pk next text page in (k, (at, inr h))

  Holds-take : (k : P) (n : ℕ) (rows : List (P × String)) → Holds k (take n rows) → Holds k rows
  Holds-take k zero rows h = absurd h
  Holds-take k (suc n) [] h = h
  Holds-take k (suc n) ((pk, value) ∷ rows) (inl e) = inl e
  Holds-take k (suc n) ((pk, value) ∷ rows) (inr h) = inr (Holds-take k n rows h)

module _ {P : Type 0} (db : Db P) where
  unfoldable pub remaining : Option P → List (P × String) → ℕ
  unfolding rows_after
  remaining cursor rows = length (rows_after db cursor rows)

  Holds-rows_after :
      (cursor : Option P) (k : P) (rows : List (P × String))
      → Holds k (rows_after db cursor rows)
      → Holds k rows × (beyond db cursor k ≡ true)
  unfolding rows_after
  Holds-rows_after cursor k [] h = absurd h
  Holds-rows_after cursor k ((pk, value) ∷ rows) h = elim (Bool-cases (beyond db cursor pk)) [
    | inl past ↦
        let same : rows_after db cursor ((pk, value) ∷ rows)
            ≡ (pk, value) ∷ rows_after db cursor rows =
          rw past refl in
        elim (subst (Holds k) same h) [
          | inl e ↦ (inl e, subst (λ x. beyond db cursor x ≡ true) e past)
          | inr later ↦ let (held, over) = Holds-rows_after cursor k rows later in (inr held, over)
        ]
    | inr before ↦
        let same : rows_after db cursor ((pk, value) ∷ rows) ≡ rows_after db cursor rows =
          rw before refl in
        let (held, over) = Holds-rows_after cursor k rows (subst (Holds k) same h) in
        (inr held, over)
  ]

  pub remaining-rewrite_row :
      (cursor : Option P) (key : P) (new : String) (rows : List (P × String))
      → remaining cursor (rewrite_row db key new rows) ≡ remaining cursor rows
  unfolding remaining rows_after rewrite_row
  remaining-rewrite_row cursor key new [] = refl
  remaining-rewrite_row cursor key new ((pk, value) ∷ rows) =
      let rest = remaining-rewrite_row cursor key new rows in ground (arith, rest)

  pub remaining-length : (rows : List (P × String)) → remaining none rows < suc (length rows)
  unfolding remaining rows_after beyond
  remaining-length [] = omega arith
  remaining-length (row ∷ rows) = omega (arith, remaining-length rows)

  module _
      (lt_trans : (a b c : P) → (db.lt a b ≡ true) → (db.lt b c ≡ true) → db.lt a c ≡ true) where
    beyond_trans :
        (cursor : Option P) (k pk : P)
        → (beyond db cursor k ≡ true)
        → (db.lt k pk ≡ true)
        → beyond db cursor pk ≡ true
    unfolding beyond
    beyond_trans none k pk before after = refl
    beyond_trans (some at) k pk before after = lt_trans at k pk before after

    remaining_mono :
        (cursor : Option P) (k : P) (rows : List (P × String))
        → (beyond db cursor k ≡ true)
        → remaining (some k) rows ≤ remaining cursor rows
    unfolding remaining rows_after beyond
    remaining_mono cursor k [] before = omega arith
    remaining_mono cursor k ((pk, value) ∷ rows) before =
        let rest = remaining_mono cursor k rows before in
        elim (Bool-cases (db.lt k pk)) [
          | inl after ↦
              let past = beyond_trans cursor k pk before after in ground (arith, rest, after, past)
          | inr here ↦ ground (arith, rest, here)
        ]

    module _ (lt_irrefl : (a : P) → db.lt a a ≡ false) where
      remaining-decreases :
          (cursor : Option P) (k : P) (rows : List (P × String))
          → (beyond db cursor k ≡ true)
          → Holds k rows
          → remaining (some k) rows < remaining cursor rows
      unfolding remaining rows_after beyond
      remaining-decreases cursor k [] before h = absurd h
      remaining-decreases cursor k ((pk, value) ∷ rows) before (inl e) =
          let rest = remaining_mono cursor k rows before in
          let here : db.lt k pk ≡ false = subst (λ x. db.lt k x ≡ false) (sym e) (lt_irrefl k) in
          let past : beyond db cursor pk ≡ true =
            subst (λ x. beyond db cursor x ≡ true) (sym e) before in
          ground (arith, rest, here, past)
      remaining-decreases cursor k ((pk, value) ∷ rows) before (inr h) =
          let rest = remaining-decreases cursor k rows before h in
          elim (Bool-cases (db.lt k pk)) [
            | inl after ↦
                let past = beyond_trans cursor k pk before after in
                ground (arith, rest, after, past)
            | inr here ↦ ground (arith, rest, here)
          ]

      -- A page that has a row takes the cursor beyond one of the rows.
      pub last_pk-decreases :
          (cursor : Option P) (n : ℕ) (rows : List (P × String)) (row : P × String)
          (rest : List (P × String))
          → list_rows db cursor n rows ≡ row ∷ rest
          → remaining (last_pk cursor (list_rows db cursor n rows)) rows < remaining cursor rows
      unfolding list_rows
      last_pk-decreases cursor n rows (pk, value) rest at =
          let (k, (last, held)) = Holds-last_pk pk value rest in
          let listed = Holds-take k n (rows_after db cursor rows) (subst (Holds k) (sym at) held) in
          let (stored, past) = Holds-rows_after cursor k rows listed in
          let end : last_pk cursor (list_rows db cursor n rows) ≡ some k = rw at last in
          let fewer = remaining-decreases cursor k rows past stored in
          subst (λ x. remaining x rows < remaining cursor rows) (sym end) fewer

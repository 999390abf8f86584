-- ===== src/KeyRotate/Sweep/Ends.antt =====
-- The end of the sweep of a table (model/keyrotate/manager.go, sweepTable).
use ai_gateway_api.Prelude.{
  ℕ, zero, suc, ◌<◌, ◌≡◌, refl, String, Bool, true, false, List, [], ◌∷◌, Option, none, some,
  length, if◌then◌else◌, arith,
}
use ai_gateway_api.KeyRotate.Envelope.{Crypto, Mode}
use ai_gateway_api.KeyRotate.Sweep.{
  SweepError, Db, list_rows, Progress, last_pk, default_batch_size, max_batch_attempts, exec_batch,
  or_next, after_page, sweep_from, sweep_table,
}
use ai_gateway_api.KeyRotate.Sweep.Remaining.{remaining, last_pk-decreases, remaining-length}
use ai_gateway_api.KeyRotate.Sweep.Kept.{Keeps-exec_batch}

module _ {P : Type 0} where
  abbrev Ends : Option (Progress P) → Type 0
  Ends o = (q : Progress P) × (o ≡ some q)

  Ends-if :
      (test : Bool) (p : Progress P) (o : Option (Progress P))
      → Ends o
      → Ends (if test then some p else o)
  Ends-if true p o ends = (p, refl)
  Ends-if false p o ends = ends

  Ends-or_next :
      (e : Option (SweepError P)) (p : Progress P) (o : Option (Progress P))
      → Ends o
      → Ends (or_next e p o)
  unfolding or_next
  Ends-or_next none p o ends = ends
  Ends-or_next (some e) p o ends = (p, refl)

  -- What follows a page is asked for only where the page has a row.
  Ends-after_page :
      (page : List (P × String)) (p done : Progress P) (o : Option (Progress P))
      → ((row : P × String) (rest : List (P × String)) → (page ≡ row ∷ rest) → Ends o)
      → Ends (after_page page p done o)
  unfolding after_page
  Ends-after_page [] p done o ends = (p, refl)
  Ends-after_page (row ∷ page) p done o ends = Ends-or_next done.error done o (ends row page refl)

module _ {P : Type 0} (db : Db P) (c : Crypto) (mode : Mode) (dry_run : Bool)
    (lt_trans : (a b c : P) → (db.lt a b ≡ true) → (db.lt b c ≡ true) → db.lt a c ≡ true)
    (lt_irrefl : (a : P) → db.lt a a ≡ false) where
  sweep_from-Ends :
      (f : ℕ) (cursor : Option P) (p : Progress P)
      → remaining db cursor p.rows < f
      → Ends (sweep_from db c mode dry_run f cursor p)
  unfolding sweep_from
  sweep_from-Ends zero cursor p enough = absurd (omega (arith, enough))
  sweep_from-Ends (suc f) cursor p enough =
      let page = list_rows db cursor default_batch_size p.rows in
      let done = exec_batch db c mode dry_run cursor max_batch_attempts page p in
      let kept =
        Keeps-exec_batch db (last_pk cursor page) c mode dry_run cursor max_batch_attempts page p in
      Ends-if (db.list_fails cursor) _ _ (
        Ends-after_page page p done _ (λ row rest at.
          let fewer = last_pk-decreases db lt_trans lt_irrefl cursor 100 p.rows row rest at in
          sweep_from-Ends f (last_pk cursor page) done (omega (arith, kept, fewer, enough))))

  -- The sweep of a table ends: where the order of the primary keys is transitive and irreflexive,
  -- fuel for one page for each row and for an empty page is enough, whichever calls of the
  -- database fail, whichever values cannot be decrypted and whatever the batches write.
  pub sweep_table-ends :
      (rows : List (P × String)) → (q : Progress P) × (sweep_table db c mode dry_run rows ≡ some q)
  unfolding sweep_table
  sweep_table-ends rows = sweep_from-Ends (suc (length rows)) none _ (remaining-length db rows)

-- ===== src/KeyRotate/Sweep/Kept.antt =====
-- The rows beyond a cursor after a batch (model/keyrotate/manager.go, execBatch).
use ai_gateway_api.Prelude.{
  ℕ, zero, suc, ◌≡◌, refl, ◌∙◌, String, Bool, true, false, List, [], ◌∷◌, Option, none, some,
  if◌then◌else◌,
}
use ai_gateway_api.KeyRotate.Envelope.{Crypto, Mode, Transformed, failed, skip, target, transform}
use ai_gateway_api.KeyRotate.Sweep.{
  SweepError, TableCount, Db, Progress, halted, rolled_back, write_row, exec_row, exec_rows,
  exec_batch_once, or_again, exec_batch,
}
use ai_gateway_api.KeyRotate.Sweep.Remaining.{remaining, remaining-rewrite_row}

module _ {P : Type 0} (db : Db P) (at : Option P) where
  -- A transition from the rows to what it leaves.
  abbrev pub Keeps : List (P × String) → Progress P → Type 0
  Keeps rows p = remaining db at p.rows ≡ remaining db at rows

  Keeps-halted :
      (e : Option (SweepError P)) (p next : Progress P) (rows : List (P × String))
      → Keeps rows p
      → Keeps p.rows next
      → Keeps rows (halted e p next)
  unfolding halted
  Keeps-halted none p next rows first second = second ∙ first
  Keeps-halted (some e) p next rows first second = first

  Keeps-rolled_back :
      (fails : Bool) (rows : List (P × String)) (e : Option (SweepError P)) (p : Progress P)
      → Keeps rows p
      → Keeps rows (rolled_back fails rows e p)
  unfolding rolled_back
  Keeps-rolled_back fails rows (some e) p kept = refl
  Keeps-rolled_back true rows none p kept = refl
  Keeps-rolled_back false rows none p kept = kept

  Keeps-if :
      (rows : List (P × String)) (test : Bool) (p q : Progress P)
      → Keeps rows p
      → Keeps rows q
      → Keeps rows (if test then p else q)
  Keeps-if rows true p q left right = left
  Keeps-if rows false p q left right = right

  Keeps-or_again :
      (e : Option (SweepError P)) (rows : List (P × String)) (done again : Progress P)
      → Keeps rows done
      → Keeps rows again
      → Keeps rows (or_again e done again)
  unfolding or_again
  Keeps-or_again none rows done again left right = left
  Keeps-or_again (some e) rows done again left right = right

  module _ (c : Crypto) (mode : Mode) (dry_run : Bool) where
    Keeps-write_row :
        (cursor : Option P) (n : ℕ) (pk : P) (new : String) (rows : List (P × String))
        (count : TableCount)
        → Keeps rows (write_row db c mode dry_run cursor n pk new rows count)
    unfolding write_row
    Keeps-write_row cursor n pk new rows count = Keeps-if rows dry_run _ _ refl (
        Keeps-if rows (db.write_fails cursor n pk) _ _ refl
          (remaining-rewrite_row db at pk new rows))

    Keeps-exec_row :
        (cursor : Option P) (n : ℕ) (pk : P) (to : Transformed) (rows : List (P × String))
        (count : TableCount)
        → Keeps rows (exec_row db c mode dry_run cursor n pk to rows count)
    unfolding exec_row
    Keeps-exec_row cursor n pk failed rows count = refl
    Keeps-exec_row cursor n pk skip rows count = refl
    Keeps-exec_row cursor n pk (target new) rows count = Keeps-write_row cursor n pk new rows count

    Keeps-exec_rows :
        (cursor : Option P) (n : ℕ) (page rows : List (P × String)) (count : TableCount)
        → Keeps rows (exec_rows db c mode dry_run cursor n page rows count)
    unfolding exec_rows
    Keeps-exec_rows cursor n [] rows count = refl
    Keeps-exec_rows cursor n ((pk, value) ∷ page) rows count =
        let step = exec_row db c mode dry_run cursor n pk (transform c mode value) rows count in
        Keeps-halted step.error step _ rows
          (Keeps-exec_row cursor n pk (transform c mode value) rows count)
          (Keeps-exec_rows cursor n page step.rows step.count)

    Keeps-exec_batch_once :
        (cursor : Option P) (n : ℕ) (page rows : List (P × String)) (count : TableCount)
        → Keeps rows (exec_batch_once db c mode dry_run cursor n page rows count)
    unfolding exec_batch_once
    Keeps-exec_batch_once cursor n page rows count =
        let done = exec_rows db c mode dry_run cursor n page rows count in
        Keeps-if rows (db.begin_fails cursor n) _ _ refl (
          Keeps-rolled_back (db.commit_fails cursor n) rows done.error done
            (Keeps-exec_rows cursor n page rows count))

    pub Keeps-exec_batch :
        (cursor : Option P) (left : ℕ) (page : List (P × String)) (p : Progress P)
        → Keeps p.rows (exec_batch db c mode dry_run cursor left page p)
    unfolding exec_batch
    Keeps-exec_batch cursor zero page p = refl
    Keeps-exec_batch cursor (suc left) page p =
        let done = exec_batch_once db c mode dry_run cursor left page p.rows p.count in
        let once = Keeps-exec_batch_once cursor left page p.rows p.count in
        Keeps-or_again done.error p.rows done _ once (Keeps-exec_batch cursor left page done ∙ once)

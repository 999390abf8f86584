-- ===== src/KeyRotate/Sweep.antt =====
-- A sweep of one table (model/keyrotate/manager.go, sweepTable, execBatch and execBatchOnce;
-- storage/rdb/keyrotate/keyrotate.go, ListRows and RewriteRow). The rows stand in the order of
-- their primary keys. The heartbeat and the progress of the task are left out, and so is the path
-- without transactions, which only tests take.
use ai_gateway_api.Prelude.{
  ℕ, zero, suc, ◌+◌, String, Bool, true, false, List, [], ◌∷◌, Option, none, some, nat_eq, take,
  length, if◌then◌else◌,
}
use ai_gateway_api.KeyRotate.Envelope.{Crypto, Mode, Transformed, failed, skip, target, transform}
pub mod Remaining
pub mod Kept
pub mod Ends
pub mod Atomic

pub data SweepError (P : Type 0) : Type 0 where
  scan_failed : SweepError P
  begin_failed : SweepError P
  decrypt_failed : P → SweepError P
  write_failed : P → SweepError P
  commit_failed : SweepError P

pub record TableCount : Type 0 where
  pub rewritten : ℕ
  pub skipped : ℕ

-- The order of the primary keys, and which calls of the database fail: at a cursor, in an attempt.
pub record Db (P : Type 0) : Type 0 where
  pub lt : P → P → Bool
  pub eq : P → P → Bool
  pub list_fails : Option P → Bool
  pub begin_fails : Option P → ℕ → Bool
  pub write_fails : Option P → ℕ → P → Bool
  pub commit_fails : Option P → ℕ → Bool

module _ {P : Type 0} (db : Db P) where
  unfoldable pub beyond : Option P → P → Bool
  beyond none pk = true
  beyond (some cursor) pk = db.lt cursor pk

  unfoldable pub rows_after : Option P → List (P × String) → List (P × String)
  unfolding beyond
  rows_after cursor [] = []
  rows_after cursor ((pk, value) ∷ rows) =
      let rest = rows_after cursor rows in if beyond cursor pk then (pk, value) ∷ rest else rest

  -- `WHERE pk > ? ORDER BY pk LIMIT ?`.
  unfoldable pub list_rows : Option P → ℕ → List (P × String) → List (P × String)
  unfolding rows_after
  list_rows cursor limit rows = take limit (rows_after cursor rows)

  unfoldable pub rewrite_row : P → String → List (P × String) → List (P × String)
  rewrite_row key new [] = []
  rewrite_row key new ((pk, value) ∷ rows) =
      let rest = rewrite_row key new rows in
      if db.eq pk key then (pk, new) ∷ rest else (pk, value) ∷ rest

-- What a sweep has at hand: the rows, the counts, and the error that stops it.
pub record Progress (P : Type 0) : Type 0 where
  pub rows : List (P × String)
  pub count : TableCount
  pub error : Option (SweepError P)

abbrev pub count_skipped : TableCount → TableCount
count_skipped n = record n { skipped = suc n.skipped }

abbrev pub count_rewritten : TableCount → TableCount
count_rewritten n = record n { rewritten = suc n.rewritten }

module _ {P : Type 0} where
  -- An error ends a loop.
  unfoldable pub halted : Option (SweepError P) → Progress P → Progress P → Progress P
  halted none p next = next
  halted (some e) p next = p

  unfoldable pub rolled_back :
      Bool → List (P × String) → Option (SweepError P) → Progress P → Progress P
  rolled_back commit_fails before (some e) p = record p { rows = before }
  rolled_back commit_fails before none p =
      if commit_fails then record p { rows = before; error = some commit_failed } else p

  -- The cursor after a page.
  abbrev pub last_pk : Option P → List (P × String) → Option P
  last_pk cursor [] = cursor
  last_pk cursor ((pk, value) ∷ page) = last_pk (some pk) page

  unfoldable pub or_again : Option (SweepError P) → Progress P → Progress P → Progress P
  or_again none done again = done
  or_again (some e) done again = again

  unfoldable pub or_next :
      Option (SweepError P) → Progress P → Option (Progress P) → Option (Progress P)
  or_next none p next = next
  or_next (some e) p next = some p

  -- An empty page ends the sweep.
  unfoldable pub after_page :
      List (P × String) → Progress P → Progress P → Option (Progress P) → Option (Progress P)
  unfolding or_next
  after_page [] p done next = some p
  after_page (row ∷ page) p done next = or_next done.error done next

-- The size of a page and the attempts at a batch.
abbrev pub default_batch_size : ℕ
default_batch_size = 100

abbrev pub max_batch_attempts : ℕ
max_batch_attempts = 3

module _ {P : Type 0} (db : Db P) (c : Crypto) (mode : Mode) (dry_run : Bool) where
  unfoldable pub write_row : Option P → ℕ → P → String → List (P × String) → TableCount → Progress P
  unfolding rewrite_row
  write_row cursor attempt pk new rows n =
      if dry_run
      then record { rows = rows; count = count_rewritten n; error = none }
      else if db.write_fails cursor attempt pk
      then record { rows = rows; count = n; error = some (write_failed pk) }
      else record { rows = rewrite_row db pk new rows; count = count_rewritten n; error = none }

  -- One turn of the loop over the page.
  unfoldable pub exec_row :
      Option P → ℕ → P → Transformed → List (P × String) → TableCount → Progress P
  unfolding write_row
  exec_row cursor attempt pk failed rows n = record {
    rows = rows;
    count = n;
    error = some (decrypt_failed pk);
  }
  exec_row cursor attempt pk skip rows n = record {
    rows = rows;
    count = count_skipped n;
    error = none;
  }
  exec_row cursor attempt pk (target new) rows n = write_row cursor attempt pk new rows n

  unfoldable pub exec_rows :
      Option P → ℕ → List (P × String) → List (P × String) → TableCount → Progress P
  unfolding transform exec_row halted
  exec_rows cursor attempt [] rows n = record { rows = rows; count = n; error = none }
  exec_rows cursor attempt ((pk, value) ∷ page) rows n =
      let step = exec_row cursor attempt pk (transform c mode value) rows n in
      halted step.error step (exec_rows cursor attempt page step.rows step.count)

  -- The transaction: an error rolls the rows back, and the counts stay as they are.
  unfoldable pub exec_batch_once :
      Option P → ℕ → List (P × String) → List (P × String) → TableCount → Progress P
  unfolding exec_rows rolled_back
  exec_batch_once cursor attempt page rows n =
      if db.begin_fails cursor attempt
      then record { rows = rows; count = n; error = some begin_failed }
      else let done = exec_rows cursor attempt page rows n in
        rolled_back (db.commit_fails cursor attempt) rows done.error done

  -- The attempts that are left, and what the last one that failed has left.
  unfoldable pub exec_batch : Option P → ℕ → List (P × String) → Progress P → Progress P
  unfolding exec_batch_once or_again
  exec_batch cursor zero page p = p
  exec_batch cursor (suc left) page p =
      let done = exec_batch_once cursor left page p.rows p.count in
      let again = exec_batch cursor left page done in or_again done.error done again

  -- The loop over the pages from a cursor on; `none` where the fuel runs out.
  unfoldable pub sweep_from : ℕ → Option P → Progress P → Option (Progress P)
  unfolding exec_batch after_page list_rows
  sweep_from zero cursor p = none
  sweep_from (suc f) cursor p =
      let page = list_rows db cursor default_batch_size p.rows in
      let done = exec_batch cursor max_batch_attempts page p in
      let next = sweep_from f (last_pk cursor page) done in
      if db.list_fails cursor
      then some (record p { error = some scan_failed })
      else after_page page p done next

  -- The table's sweep, with fuel for one page for each row and for the empty page at the end.
  unfoldable pub sweep_table : List (P × String) → Option (Progress P)
  unfolding sweep_from
  sweep_table rows =
      sweep_from (suc (length rows)) none
        (record { rows = rows; count = record { rewritten = 0; skipped = 0 }; error = none })

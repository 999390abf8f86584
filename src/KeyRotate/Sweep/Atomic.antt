-- ===== src/KeyRotate/Sweep/Atomic.antt =====
-- The rows after the attempts at a batch (model/keyrotate/manager.go, execBatch, execBatchOnce).
use ai_gateway_api.Prelude.{
  ℕ, zero, suc, ◌≡◌, refl, sym, ◌∙◌, String, Bool, true, false, List, Option, none, some,
  if◌then◌else◌, ◌⊎◌, inl, inr,
}
use ai_gateway_api.KeyRotate.Envelope.{Crypto, Mode}
use ai_gateway_api.KeyRotate.Sweep.{
  SweepError, Db, Progress, rolled_back, exec_rows, exec_batch_once, or_again, exec_batch,
}

module _ {P : Type 0} where
  -- The rows of before, where there is an error.
  abbrev pub IsAtomic : List (P × String) → Progress P → Type 0
  IsAtomic rows p = (p.error ≡ none) ⊎ (p.rows ≡ rows)

  IsAtomic-rolled_back :
      (fails : Bool) (rows : List (P × String)) (e : Option (SweepError P)) (p : Progress P)
      → (e ≡ p.error)
      → IsAtomic rows (rolled_back fails rows e p)
  unfolding rolled_back
  IsAtomic-rolled_back fails rows (some e) p at = inr refl
  IsAtomic-rolled_back true rows none p at = inr refl
  IsAtomic-rolled_back false rows none p at = inl (sym at)

  IsAtomic-if :
      (rows : List (P × String)) (test : Bool) (p q : Progress P)
      → IsAtomic rows p
      → IsAtomic rows q
      → IsAtomic rows (if test then p else q)
  IsAtomic-if rows true p q left right = left
  IsAtomic-if rows false p q left right = right

  -- Another attempt starts from the rows of before.
  IsAtomic-or_again :
      (e : Option (SweepError P)) (rows : List (P × String)) (done again : Progress P)
      → (e ≡ done.error)
      → IsAtomic rows done
      → IsAtomic done.rows again
      → IsAtomic rows (or_again e done again)
  unfolding or_again
  IsAtomic-or_again none rows done again at once more = inl (sym at)
  IsAtomic-or_again (some e) rows done again at (inl h) more = cc (at, h)
  IsAtomic-or_again (some e) rows done again at (inr h) (inl fine) = inl fine
  IsAtomic-or_again (some e) rows done again at (inr h) (inr same) = inr (same ∙ h)

module _ {P : Type 0} (db : Db P) (c : Crypto) (mode : Mode) (dry_run : Bool)
    (cursor : Option P) where
  IsAtomic-exec_batch_once :
      (n : ℕ) (page : List (P × String)) (p : Progress P)
      → IsAtomic p.rows (exec_batch_once db c mode dry_run cursor n page p.rows p.count)
  unfolding exec_batch_once
  IsAtomic-exec_batch_once n page p = IsAtomic-if p.rows (db.begin_fails cursor n) _ _ (inr refl) (
      IsAtomic-rolled_back (db.commit_fails cursor n) p.rows _
        (exec_rows db c mode dry_run cursor n page p.rows p.count) refl)

  -- Whatever number of attempts is allowed, a batch either ends without an error or leaves the
  -- table's rows as they were: no failed attempt leaves a part of its page behind.
  pub exec_batch-IsAtomic :
      (left : ℕ) (page : List (P × String)) (p : Progress P)
      → IsAtomic p.rows (exec_batch db c mode dry_run cursor left page p)
  unfolding exec_batch
  exec_batch-IsAtomic zero page p = inr refl
  exec_batch-IsAtomic (suc left) page p =
      let done = exec_batch_once db c mode dry_run cursor left page p.rows p.count in
      IsAtomic-or_again done.error p.rows done _ refl (IsAtomic-exec_batch_once left page p)
        (exec_batch-IsAtomic left page done)

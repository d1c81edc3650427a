-- ===== src/Database/Flush/Walk.antt =====
-- One thread of src/database/mysql.cpp from the lock to the end of its loop, and `doFlushRecords`.
use liquid.Base.{
  ℕ, suc, ◌≡◌, refl, ◌∙◌, Bool, true, false, List, [], ◌∷◌, ◌++◌, none, some, Bytes, arith,
  append_assoc, append-nil, length, length-append,
}
use liquid.Config.{Vars}
use liquid.Database.Flush.{Table, requests_of, records_of, do_flush_records}
use liquid.Database.Flush.Queue.{
  Queue, Event, locked, round, nth, erase_at, until_end, take_lock, go_round, thread_round, step,
  run,
}
use liquid.Database.Flush.Lists.{same_table_refl, records_of-set_lists}

-- Rounds with these answers: whether each query has failed.
abbrev pub rounds_with : List Bool → List Event
rounds_with [] = []
rounds_with (failed ∷ fs) = round failed ∷ rounds_with fs

-- The statements whose queries have failed, and those whose queries have not, in order.
abbrev pub refused : List Bool → List Bytes → List Bytes
refused [] its = its
refused (failed ∷ fs) [] = []
refused (true ∷ fs) (it ∷ its) = it ∷ refused fs its
refused (false ∷ fs) (it ∷ its) = refused fs its

abbrev pub accepted : List Bool → List Bytes → List Bytes
accepted [] its = []
accepted (failed ∷ fs) [] = []
accepted (true ∷ fs) (it ∷ its) = accepted fs its
accepted (false ∷ fs) (it ∷ its) = it ∷ accepted fs its

-- What the server has taken, with more statements of a table after it.
abbrev pub then_taken : Table → List Bytes → List (Table × Bytes) → List (Table × Bytes)
then_taken t [] old = old
then_taken t (it ∷ its) old = then_taken t its ((t, it) ∷ old)

-- A server that gives these answers, and then fails.
abbrev pub replies : List Bool → Bytes → List Bool × Bool
replies [] text = ([], true)
replies (failed ∷ fs) text = (fs, failed)

nth-append :
    (xs : List Bytes) (y : Bytes) (ys : List Bytes) → nth (length xs) (xs ++ y ∷ ys) ≡ some y
nth-append [] y ys = refl
nth-append (x ∷ xs) y ys = nth-append xs y ys

nth-length : (xs : List Bytes) → nth (length xs) xs ≡ none
nth-length [] = refl
nth-length (x ∷ xs) = nth-length xs

erase_at-append :
    (xs : List Bytes) (y : Bytes) (ys : List Bytes) → erase_at (length xs) (xs ++ y ∷ ys) ≡ xs ++ ys
erase_at-append [] y ys = refl
erase_at-append (x ∷ xs) y ys = rw (erase_at-append xs y ys) refl

length-snoc : (xs : List Bytes) (y : Bytes) → suc (length xs) ≡ length (xs ++ y ∷ [])
length-snoc xs y = omega (arith, length-append xs (y ∷ []))

module _ (vars : Vars) (t : Table) where
  -- A thread of the table that stands behind the statements `passed`, before `its`.
  Before : List Bytes → List Bytes → List (Table × Bytes) → Queue → Type 0
  Before passed its taken q =
      (q.holder ≡ until_end t (length passed) (nth (length passed) (passed ++ its)))
      × (records_of t q.db ≡ passed ++ its)
      × (q.taken ≡ taken)

  round-refused :
      (passed its : List Bytes) (it : Bytes) (taken : List (Table × Bytes)) (q : Queue)
      → Before passed (it ∷ its) taken q
      → Before (passed ++ it ∷ []) its taken (step vars (round true) q)
  unfolding Before step thread_round go_round until_end
  round-refused passed its it taken q (h, r, k) =
      let here = nth-append passed it its in
      let at_it : q.holder ≡ some (t, length passed) = rw here at h in
      rw (append_assoc passed (it ∷ []) its, ← length-snoc passed it)
        (rw (at_it, r, here) (rw r refl, r, k))

  round-taken :
      (passed its : List Bytes) (it : Bytes) (taken : List (Table × Bytes)) (q : Queue)
      → Before passed (it ∷ its) taken q
      → Before passed its ((t, it) ∷ taken) (step vars (round false) q)
  unfolding Before step thread_round go_round until_end
  round-taken passed its it taken q (h, r, k) =
      let here = nth-append passed it its in
      let left = erase_at-append passed it its in
      let at_it : q.holder ≡ some (t, length passed) = rw here at h in
      rw (at_it, r, here)
        (
          rw (r, left) refl,
          rw
              (
                records_of-set_lists t t (requests_of t q.db)
                    (erase_at (length passed) (records_of t q.db)) q.db,
                same_table_refl t,
                r,
                left,
              )
              refl,
          rw k refl,
        )

  rounds-Before :
      (fs : List Bool) (its passed : List Bytes) (taken : List (Table × Bytes)) (q : Queue)
      → length fs ≡ length its
      → Before passed its taken q
      → Before
          (passed ++ refused fs its)
          []
          (then_taken t (accepted fs its) taken)
          (run vars (rounds_with fs) q)
  unfolding run
  rounds-Before [] [] passed taken q e b = rw (append-nil passed) b
  rounds-Before [] (it ∷ its) passed taken q e b = absurd (omega arith)
  rounds-Before (f ∷ fs) [] passed taken q e b = absurd (omega arith)
  rounds-Before (true ∷ fs) (it ∷ its) passed taken q e b =
      rw (append_assoc passed (it ∷ []) (refused fs its)) at (
        rounds-Before fs its (passed ++ it ∷ []) taken (step vars (round true) q) (omega arith)
          (round-refused passed its it taken q b))
  rounds-Before (false ∷ fs) (it ∷ its) passed taken q e b =
      rounds-Before fs its passed ((t, it) ∷ taken) (step vars (round false) q) (omega arith)
        (round-taken passed its it taken q b)

do_flush_records-refused :
    (fs : List Bool) (its : List Bytes)
    → length fs ≡ length its
    → (do_flush_records replies fs its).1 ≡ refused fs its
unfolding do_flush_records
do_flush_records-refused [] [] e = refl
do_flush_records-refused [] (it ∷ its) e = absurd (omega arith)
do_flush_records-refused (f ∷ fs) [] e = absurd (omega arith)
do_flush_records-refused (true ∷ fs) (it ∷ its) e =
    rw (do_flush_records-refused fs its (omega arith)) refl
do_flush_records-refused (false ∷ fs) (it ∷ its) e = do_flush_records-refused fs its (omega arith)

-- Nobody holds the lock, and the `n`th thread that waits, one of this table, gets it and goes its
-- rounds, with one answer of the server for each statement that waits, and nothing between them. Then
-- the lock is free again; the statements that were refused are what is left in the table's list, in
-- their order; those that were not have been taken by the server in their order, each once, and
-- nothing else has. `doFlushRecords`, with a server that gives these answers, leaves the same list.
pub thread-refused :
    (vars : Vars) (t : Table) (n : ℕ) (fs : List Bool) (q : Queue)
    → q.holder ≡ none
    → nth n q.waiting ≡ some t
    → length fs ≡ length (records_of t q.db)
    → let its = records_of t q.db in
      let q' = run vars (locked n ∷ rounds_with fs) q in
      (q'.holder ≡ none)
      × (records_of t q'.db ≡ refused fs its)
      × (q'.taken ≡ then_taken t (accepted fs its) q.taken)
      × ((do_flush_records replies fs its).1 ≡ refused fs its)
unfolding run step
thread-refused vars t n fs q h w e =
    let its = records_of t q.db in
    let start : Before vars t [] its q.taken (step vars (locked n) q) =
      unfold step take_lock Before in rw (h, w) (refl, refl, refl) in
    let done = rounds-Before vars t fs its [] q.taken (step vars (locked n) q) e start in
    (
      unfold Before until_end in done.0 ∙ rw (append-nil (refused fs its), nth-length) refl,
      unfold Before in rw (append-nil (refused fs its)) at (done.1),
      unfold Before in done.2,
      do_flush_records-refused fs its e,
    )

-- ===== src/Database/Flush/Conserved.antt =====
-- The rows between `record…` and the server (src/database/mysql.cpp), where no flush comes while a
-- thread holds the lock.
use mathlib.Core.List.Perm
use liquid.Base.{
  ℕ, ◌≡◌, refl, Bool, true, false, List, [], ◌∷◌, ◌++◌, Option, none, some, Bytes, is_nil,
  if◌then◌else◌, append_assoc, append-nil, Bool-cases, inl, inr,
}
use liquid.Config.{Vars}
use liquid.Database.{Database}
use liquid.Database.Flush.{
  Table, requests_of, records_of, set_lists, statement, flush_table, flush_tables, flush,
  all_tables,
}
use liquid.Database.Flush.Queue.{
  Queue, Event, recorded, flushed, locked, round, nth, erase_at, add_row, take_lock, go_round,
  thread_round, step, run,
}
use liquid.Database.Flush.Lists.{
  same_table, same_table-eq, same_table_refl, requests_of-set_lists, records_of-set_lists,
}
use liquid.Database.Flush.Batches.{Kept, Kept-add, Kept-batch, Kept-taken}

-- The rows of a table that the events record, in order.
abbrev pub rows_of : Table → List Event → List Bytes
rows_of t [] = []
rows_of t (recorded u row ∷ es) = if same_table u t then row ∷ rows_of t es else rows_of t es
rows_of t (flushed ∷ es) = rows_of t es
rows_of t (locked n ∷ es) = rows_of t es
rows_of t (round failed ∷ es) = rows_of t es

-- The statements of a table that the server has taken.
abbrev pub sent_of : Table → List (Table × Bytes) → List Bytes
sent_of t [] = []
sent_of t ((u, text) ∷ l) = if same_table u t then text ∷ sent_of t l else sent_of t l

module _ (vars : Vars) (t : Table) where
  -- Both lists of a table written: it is this one, or nothing changes here.
  set_lists-Kept :
      (u : Table) (rows requests records : List Bytes) (db : Database) (sent : List Bytes)
      → (u ≡ t → Kept vars t rows requests records sent)
      → (same_table u t ≡ false → Kept vars t rows (requests_of t db) (records_of t db) sent)
      → Kept vars t rows
          (requests_of t (set_lists u requests records db))
          (records_of t (set_lists u requests records db))
          sent
  set_lists-Kept u rows requests records db sent same other =
      rw
        (
          requests_of-set_lists t u requests records db,
          records_of-set_lists t u requests records db,
        )
        (elim (Bool-cases (same_table u t)) [
          | inl e ↦ rw e (same (same_table-eq u t e))
          | inr e ↦ rw e (other e)
        ])

  flush_table-Kept :
      (u : Table) (rows : List Bytes) (db : Database) (sent : List Bytes)
      → Kept vars t rows (requests_of t db) (records_of t db) sent
      → Kept vars t rows
          (requests_of t (flush_table vars u db))
          (records_of t (flush_table vars u db))
          sent
  unfolding flush_table
  flush_table-Kept u rows db sent k = elim (Bool-cases (is_nil (requests_of u db))) [
    | inl e ↦ rw e k
    | inr e ↦ rw e (
        set_lists-Kept u rows [] (records_of u db ++ statement vars u (requests_of u db) ∷ []) db
          sent
          (λ same.
            rw same
              (Kept-batch vars t rows (requests_of t db) (records_of t db) sent (rw same at e) k))
          (λ other. k))
  ]

  flush_tables-Kept :
      (us : List Table) (rows : List Bytes) (db : Database) (sent : List Bytes)
      → Kept vars t rows (requests_of t db) (records_of t db) sent
      → Kept vars t rows
          (requests_of t (flush_tables vars us db).0)
          (records_of t (flush_tables vars us db).0)
          sent
  unfolding flush_tables
  flush_tables-Kept [] rows db sent k = k
  flush_tables-Kept (u ∷ us) rows db sent k =
      flush_tables-Kept us rows (flush_table vars u db) sent (flush_table-Kept u rows db sent k)

  KeptBy : List Bytes → Queue → Type 0
  KeptBy rows q = Kept vars t rows (requests_of t q.db) (records_of t q.db) (sent_of t q.taken)

  add_row-Kept :
      (u : Table) (row : Bytes) (rows : List Bytes) (db : Database) (sent : List Bytes)
      → Kept vars t rows (requests_of t db) (records_of t db) sent
      → Kept vars t
          (rows ++ rows_of t (recorded u row ∷ []))
          (requests_of t (add_row u row db))
          (records_of t (add_row u row db))
          sent
  unfolding add_row
  add_row-Kept u row rows db sent k =
      set_lists-Kept u (rows ++ rows_of t (recorded u row ∷ [])) (requests_of u db ++ row ∷ [])
        (records_of u db) db sent
        (λ same.
          rw (same, same_table_refl t)
            (Kept-add vars t row rows (requests_of t db) (records_of t db) sent k))
        (λ other. rw (other, append-nil rows) k)

  take_lock-Kept :
      (n : ℕ) (h : Option (Table × ℕ)) (next : Option Table) (rows : List Bytes) (q : Queue)
      → KeptBy rows q
      → KeptBy rows (take_lock n h next q)
  unfolding take_lock KeptBy
  take_lock-Kept n (some h) next rows q k = k
  take_lock-Kept n none none rows q k = k
  take_lock-Kept n none (some u) rows q k = k

  go_round-Kept :
      (failed : Bool) (u : Table) (n : ℕ) (next : Option Bytes) (rows : List Bytes) (q : Queue)
      → nth n (records_of u q.db) ≡ next
      → KeptBy rows q
      → KeptBy rows (go_round failed u n next q)
  unfolding go_round KeptBy
  go_round-Kept failed u n none rows q h k = k
  go_round-Kept true u n (some it) rows q h k = k
  go_round-Kept false u n (some it) rows q h k =
      set_lists-Kept u rows (requests_of u q.db) (erase_at n (records_of u q.db)) q.db
        (sent_of t ((u, it) ∷ q.taken))
        (λ same.
          rw (same, same_table_refl t)
            (Kept-taken vars t n it rows (requests_of t q.db) (records_of t q.db)
              (sent_of t q.taken) (rw same at h) k))
        (λ other. rw other k)

  thread_round-Kept :
      (failed : Bool) (h : Option (Table × ℕ)) (rows : List Bytes) (q : Queue)
      → KeptBy rows q
      → KeptBy rows (thread_round failed h q)
  unfolding thread_round
  thread_round-Kept failed none rows q k = k
  thread_round-Kept failed (some (u, n)) rows q k = go_round-Kept failed u n _ rows q refl k

  step-Kept :
      (e : Event) (rows : List Bytes) (q : Queue)
      → KeptBy rows q
      → KeptBy (rows ++ rows_of t (e ∷ [])) (step vars e q)
  unfolding step KeptBy flush
  step-Kept (recorded u row) rows q k = add_row-Kept u row rows q.db (sent_of t q.taken) k
  step-Kept flushed rows q k =
      rw (append-nil rows) (flush_tables-Kept all_tables rows q.db (sent_of t q.taken) k)
  step-Kept (locked n) rows q k =
      rw (append-nil rows) (take_lock-Kept n q.holder (nth n q.waiting) rows q k)
  step-Kept (round failed) rows q k =
      rw (append-nil rows) (thread_round-Kept failed q.holder rows q k)

  rows_of-cons :
      (e : Event) (es : List Event) → rows_of t (e ∷ []) ++ rows_of t es ≡ rows_of t (e ∷ es)
  rows_of-cons (recorded u row) es = elim (Bool-cases (same_table u t)) [
    | inl h ↦ rw h refl
    | inr h ↦ rw h refl
  ]
  rows_of-cons flushed es = refl
  rows_of-cons (locked n) es = refl
  rows_of-cons (round failed) es = refl

  run-Kept :
      (es : List Event) (rows : List Bytes) (q : Queue)
      → KeptBy rows q
      → KeptBy (rows ++ rows_of t es) (run vars es q)
  unfolding run
  run-Kept [] rows q k = rw (append-nil rows) k
  run-Kept (e ∷ es) rows q k =
      rw (append_assoc rows (rows_of t (e ∷ [])) (rows_of t es), rows_of-cons e es) at
        (run-Kept es (rows ++ rows_of t (e ∷ [])) (step vars e q) (step-Kept e rows q k))

-- Nothing is recorded, and no thread runs.
abbrev pub Empty : Queue → Type 0
Empty q =
    ((t : Table) → requests_of t q.db ≡ [])
    × ((t : Table) → records_of t q.db ≡ [])
    × (q.taken ≡ [])

-- No flush comes while a thread holds the lock.
abbrev pub FlushesApart : Vars → List Event → Queue → Type 0
FlushesApart vars [] q = Unit
FlushesApart vars (flushed ∷ es) q = (q.holder ≡ none) × FlushesApart vars es (step vars flushed q)
FlushesApart vars (recorded u row ∷ es) q = FlushesApart vars es (step vars (recorded u row) q)
FlushesApart vars (locked n ∷ es) q = FlushesApart vars es (step vars (locked n) q)
FlushesApart vars (round failed ∷ es) q = FlushesApart vars es (step vars (round failed) q)

-- From lists that are empty, after any sequence of records, flushes, threads that get the lock and
-- answers of the server in which no flush comes while a thread holds the lock, the rows recorded for
-- a table are, in order, those of some batches, none of them empty, and then the rows not yet
-- flushed; and the statements of these batches are, up to order, those that the server took and
-- those that wait. So no row is lost and none is taken twice.
pub run-conserves :
    (vars : Vars) (t : Table) (es : List Event) (q : Queue)
    → Empty q
    → FlushesApart vars es q
    → Kept vars t
        (rows_of t es)
        (requests_of t (run vars es q).db)
        (records_of t (run vars es q).db)
        (sent_of t (run vars es q).taken)
unfolding Kept
run-conserves vars t es q (h1, h2, h3) apart =
    unfold KeptBy in run-Kept vars t es [] q (rw (h1 t, h2 t, h3) ([], refl, Perm.rfl, tt))

-- ===== src/Database/Flush/Emptied.antt =====
-- What `flush` (src/database/mysql.cpp) makes of the lists of every table, and its threads.
use liquid.Base.{
  ◌≡◌, ◌∙◌, refl, inl, inr, Bool, true, false, not, ◌&&◌, ◌||◌, List, [], ◌∷◌, ◌++◌, Bytes, is_nil,
  if◌then◌else◌, arith, Bool-cases,
}
use liquid.Config.{Vars}
use liquid.Database.{Database}
use liquid.Database.Flush.{
  Table, users, torrents, peers, tokens, snatches, requests_of, records_of, statement, flush_table,
  flush_tables, flush, all_tables, starts_thread,
}
use liquid.Database.Flush.Lists.{
  same_table, same_table-eq, same_table_refl, requests_of-set_lists, records_of-set_lists,
}

-- The statements of a table after its rows have become one.
abbrev pub joined : Vars → Table → List Bytes → List Bytes → List Bytes
joined vars t [] records = records
joined vars t (row ∷ rows) records = records ++ statement vars t (row ∷ rows) ∷ []

abbrev pub any_table : Table → List Table → Bool
any_table t [] = false
any_table t (u ∷ us) = same_table u t || any_table t us

module _ (vars : Vars) where
  -- A table is flushed by its own call, which leaves the others alone.
  flush_table-lists :
      (t u : Table) (rows : List Bytes) (db : Database)
      → requests_of u db ≡ rows
      → (requests_of t (flush_table vars u db) ≡ (if same_table u t then [] else requests_of t db))
        × (records_of t (flush_table vars u db)
            ≡ (if same_table u t then joined vars u rows (records_of u db) else records_of t db))
  unfolding flush_table
  flush_table-lists t u [] db h = elim (Bool-cases (same_table u t)) [
    | inl e ↦ let same = same_table-eq u t e in (rw (e, h) (rw same at h), rw (e, h) (rw same refl))
    | inr e ↦ (rw (e, h) refl, rw (e, h) refl)
  ]
  flush_table-lists t u (row ∷ rows) db h =
      let texts = records_of u db ++ statement vars u (row ∷ rows) ∷ [] in
      (
        rw (h, requests_of-set_lists t u [] texts db) refl,
        rw (h, records_of-set_lists t u [] texts db) refl,
      )

  requests_of-flush_table :
      (t u : Table) (db : Database)
      → requests_of t (flush_table vars u db) ≡ (if same_table u t then [] else requests_of t db)
  requests_of-flush_table t u db = (flush_table-lists t u (requests_of u db) db refl).0

  records_of-flush_table :
      (t u : Table) (db : Database)
      → records_of t (flush_table vars u db) ≡ (
          if same_table u t
          then joined vars u (requests_of u db) (records_of u db)
          else records_of t db)
  records_of-flush_table t u db = (flush_table-lists t u (requests_of u db) db refl).1

  waits : List Bytes → Bool
  waits l = not (is_nil l)

  starts_thread-waits : (t : Table) (db : Database) → starts_thread t db ≡ waits (records_of t db)
  unfolding starts_thread waits
  starts_thread-waits t db = ground arith

  -- What a run of flushes leaves of one table.
  Left : Table → List Table → Database → Database → Type 0
  Left t us db db' =
      (requests_of t db' ≡ (if any_table t us then [] else requests_of t db))
      × (records_of t db' ≡ (
          if any_table t us
          then joined vars t (requests_of t db) (records_of t db)
          else records_of t db))

  own_requests : (t : Table) (db : Database) → requests_of t (flush_table vars t db) ≡ []
  own_requests t db = rw (requests_of-flush_table t t db, same_table_refl t) refl

  own_records :
      (t : Table) (db : Database)
      → records_of t (flush_table vars t db) ≡ joined vars t (requests_of t db) (records_of t db)
  own_records t db = rw (records_of-flush_table t t db, same_table_refl t) refl

  Left-own :
      (t : Table) (us : List Table) (db db' : Database)
      → Left t us (flush_table vars t db) db'
      → Left t (t ∷ us) db db'
  unfolding Left
  Left-own t us db db' (a, b) = rw (same_table_refl t) (elim (Bool-cases (any_table t us)) [
    | inl h ↦ (rw h at a, rw (h, own_requests t db, own_records t db) at b)
    | inr h ↦ (rw (h, own_requests t db) at a, rw (h, own_records t db) at b)
  ])

  Left-other :
      (t u : Table) (us : List Table) (db db' : Database)
      → same_table u t ≡ false
      → Left t us (flush_table vars u db) db'
      → Left t (u ∷ us) db db'
  unfolding Left
  Left-other t u us db db' h (a, b) = rw h (
    rw (requests_of-flush_table t u db, h) at a,
    rw (requests_of-flush_table t u db, records_of-flush_table t u db, h) at b,
  )

  flush_tables-Left :
      (t : Table) (us : List Table) (db : Database) → Left t us db (flush_tables vars us db).0
  unfolding flush_tables
  flush_tables-Left t [] db = unfold Left in (refl, refl)
  flush_tables-Left t (u ∷ us) db =
      let ih = flush_tables-Left t us (flush_table vars u db) in
      elim (Bool-cases (same_table u t)) [
        | inr other ↦ Left-other t u us db _ other ih
        | inl same ↦
            let e = same_table-eq u t same in
            rw e (Left-own t us db (flush_tables vars us (flush_table vars t db)).0 (rw e at ih))
      ]

  -- The list of a table whose own flush is done.
  flushed-records :
      (t : Table) (us : List Table) (db : Database)
      → requests_of t db ≡ []
      → records_of t (flush_tables vars us db).0 ≡ records_of t db
  unfolding Left
  flushed-records t us db h =
      let (a, b) = flush_tables-Left t us db in
      elim (Bool-cases (any_table t us)) [ inl e ↦ rw (e, h) at b | inr e ↦ rw e at b ]

  -- The thread of a table's own call, before those of the calls that follow.
  threads-own :
      (t : Table) (us : List Table) (db : Database)
      → any_table t (flush_tables vars us (flush_table vars t db)).1
        ≡ (any_table t us && waits (records_of t (flush_tables vars us (flush_table vars t db)).0))
      → any_table t (flush_tables vars (t ∷ us) db).1
        ≡ (any_table t (t ∷ us) && waits (records_of t (flush_tables vars (t ∷ us) db).0))
  unfolding flush_tables
  threads-own t us db ih =
      let next = flush_table vars t db in
      let last = flushed-records t us next (own_requests t db) in
      rw (same_table_refl t, starts_thread-waits t next, last)
        (elim (Bool-cases (waits (records_of t next))) [
          | inl h ↦ rw (h, same_table_refl t) refl
          | inr h ↦ rw h (rw (last, h) at ih ∙ ground arith)
        ])

  flush_tables-threads :
      (t : Table) (us : List Table) (db : Database)
      → any_table t (flush_tables vars us db).1
        ≡ (any_table t us && waits (records_of t (flush_tables vars us db).0))
  unfolding flush_tables
  flush_tables-threads t [] db = refl
  flush_tables-threads t (u ∷ us) db =
      let ih = flush_tables-threads t us (flush_table vars u db) in
      elim (Bool-cases (same_table u t)) [
        | inr other ↦ rw other (elim (Bool-cases (starts_thread u (flush_table vars u db))) [
          | inl h ↦ rw (h, other) ih
          | inr h ↦ rw h ih
        ])
        | inl same ↦ let e = same_table-eq u t same in rw e (threads-own t us db (rw e at ih))
      ]

  all_of_them : (t : Table) → any_table t all_tables ≡ true
  all_of_them users = refl
  all_of_them torrents = refl
  all_of_them peers = refl
  all_of_them tokens = refl
  all_of_them snatches = refl

  -- After `flush` no table has rows left: they stand, if there were any, in one more statement at the
  -- end of the table's list, behind those that were refused before; and a thread is started for
  -- the table exactly when its list has a statement.
  pub flush-lists :
      (t : Table) (db : Database)
      → (requests_of t (flush vars db).0 ≡ [])
        × (records_of t (flush vars db).0 ≡ joined vars t (requests_of t db) (records_of t db))
        × (any_table t (flush vars db).1 ≡ not (is_nil (records_of t (flush vars db).0)))
  unfolding flush Left waits
  flush-lists t db =
      let (a, b) = flush_tables-Left t all_tables db in
      (
        rw (all_of_them t) at a,
        rw (all_of_them t) at b,
        rw (all_of_them t) at (flush_tables-threads t all_tables db),
      )

-- ===== src/Database/Flush/Drained.antt =====
-- What the threads of src/database/mysql.cpp do to the statements that wait, with a server that takes
-- everything.
use mathlib.Core.List.{Perm, perm_middle}
use mathlib.Core.List.Perm
use liquid.Base.{
  ℕ, suc, ◌≡◌, ◌<◌, refl, true, false, List, [], ◌∷◌, ◌++◌, Option, none, some, Bytes, arith,
  append-nil, Bool-cases, inl, inr, length, subst,
}
use liquid.Config.{Vars}
use liquid.Database.{Database}
use liquid.Database.Flush.{Table, requests_of, records_of}
use liquid.Database.Flush.Queue.{
  Queue, Event, recorded, flushed, locked, round, nth, erase_at, add_row, take_lock, go_round,
  thread_round, step, run, until_end,
}
use liquid.Database.Flush.Lists.{
  same_table, same_table-eq, same_table_refl, records_of-set_lists, erase_at-perm,
}
use liquid.Database.Flush.Conserved.{sent_of}

-- No flush, and every query succeeds.
abbrev pub Accepting : List Event → Type 0
Accepting [] = Unit
Accepting (flushed ∷ es) = ⊥
Accepting (recorded u row ∷ es) = Accepting es
Accepting (locked n ∷ es) = Accepting es
Accepting (round failed ∷ es) = (failed ≡ false) × Accepting es

abbrev pub rounds : List Event → ℕ
rounds [] = 0
rounds (round failed ∷ es) = suc (rounds es)
rounds (flushed ∷ es) = rounds es
rounds (recorded u row ∷ es) = rounds es
rounds (locked n ∷ es) = rounds es

module _ (t : Table) where
  -- The statements of the table, taken or waiting.
  all_of : Queue → List Bytes
  all_of q = sent_of t q.taken ++ records_of t q.db

  add_row-records_of :
      (u : Table) (row : Bytes) (db : Database) → records_of t (add_row u row db) ≡ records_of t db
  unfolding add_row
  add_row-records_of u row db =
      rw (records_of-set_lists t u (requests_of u db ++ row ∷ []) (records_of u db) db)
        (elim (Bool-cases (same_table u t)) [
          | inl e ↦ rw (e, same_table-eq u t e) refl
          | inr e ↦ rw e refl
        ])

  take_lock-db :
      (n : ℕ) (h : Option (Table × ℕ)) (next : Option Table) (q : Queue)
      → all_of (take_lock n h next q) ≡ all_of q
  unfolding take_lock all_of
  take_lock-db n (some h) next q = refl
  take_lock-db n none none q = refl
  take_lock-db n none (some u) q = refl

  go_round-all_of :
      (u : Table) (n : ℕ) (next : Option Bytes) (q : Queue)
      → nth n (records_of u q.db) ≡ next
      → Perm (all_of q) (all_of (go_round false u n next q))
  unfolding go_round all_of
  go_round-all_of u n none q h = Perm.rfl
  go_round-all_of u n (some it) q h =
      rw (records_of-set_lists t u (requests_of u q.db) (erase_at n (records_of u q.db)) q.db)
        (elim (Bool-cases (same_table u t)) [
          | inl e ↦
              rw (e, same_table-eq u t e)
                (Perm.trans
                  (Perm.append (Perm.refl (sent_of t q.taken))
                    (erase_at-perm n (records_of t q.db) it (rw (same_table-eq u t e) at h)))
                  (perm_middle (sent_of t q.taken) (erase_at n (records_of t q.db))))
          | inr e ↦ rw e Perm.rfl
        ])

  thread_round-all_of :
      (h : Option (Table × ℕ)) (q : Queue) → Perm (all_of q) (all_of (thread_round false h q))
  unfolding thread_round
  thread_round-all_of none q = Perm.rfl
  thread_round-all_of (some (u, n)) q = go_round-all_of u n _ q refl

  run-all_of :
      (vars : Vars) (es : List Event) (q : Queue)
      → Accepting es
      → Perm (all_of q) (all_of (run vars es q))
  unfolding run step all_of
  run-all_of vars [] q a = Perm.rfl
  run-all_of vars (flushed ∷ es) q a = absurd a
  run-all_of vars (recorded u row ∷ es) q a =
      rw (add_row-records_of u row q.db) at (run-all_of vars es (step vars (recorded u row) q) a)
  run-all_of vars (locked n ∷ es) q a =
      subst (λ l. Perm l (all_of (run vars es (step vars (locked n) q))))
        (take_lock-db n q.holder (nth n q.waiting) q)
        (run-all_of vars es (step vars (locked n) q) a)
  run-all_of vars (round true ∷ es) q a = absurd (cc)
  run-all_of vars (round false ∷ es) q (e, a) =
      Perm.trans (thread_round-all_of q.holder q) (run-all_of vars es (step vars (round false) q) a)

  erase_at-nil : (n : ℕ) (l : List Bytes) → l ≡ [] → erase_at n l ≡ []
  erase_at-nil n [] h = refl
  erase_at-nil n (x ∷ l) h = absurd (cc)

  -- An empty list stays empty.
  go_round-empty :
      (u : Table) (n : ℕ) (next : Option Bytes) (q : Queue)
      → records_of t q.db ≡ []
      → records_of t (go_round false u n next q).db ≡ []
  unfolding go_round
  go_round-empty u n none q h = h
  go_round-empty u n (some it) q h =
      rw (records_of-set_lists t u (requests_of u q.db) (erase_at n (records_of u q.db)) q.db)
        (elim (Bool-cases (same_table u t)) [
          | inl e ↦ rw (e, same_table-eq u t e) (erase_at-nil n (records_of t q.db) h)
          | inr e ↦ rw e h
        ])

  thread_round-empty :
      (h : Option (Table × ℕ)) (q : Queue)
      → records_of t q.db ≡ []
      → records_of t (thread_round false h q).db ≡ []
  unfolding thread_round
  thread_round-empty none q e = e
  thread_round-empty (some (u, n)) q e = go_round-empty u n _ q e

  take_lock-records_of :
      (n : ℕ) (h : Option (Table × ℕ)) (next : Option Table) (q : Queue)
      → records_of t (take_lock n h next q).db ≡ records_of t q.db
  unfolding take_lock
  take_lock-records_of n (some h) next q = refl
  take_lock-records_of n none none q = refl
  take_lock-records_of n none (some u) q = refl

  run-empty :
      (vars : Vars) (es : List Event) (q : Queue)
      → Accepting es
      → records_of t q.db ≡ []
      → records_of t (run vars es q).db ≡ []
  unfolding run step
  run-empty vars [] q a h = h
  run-empty vars (flushed ∷ es) q a h = absurd a
  run-empty vars (recorded u row ∷ es) q a h =
      run-empty vars es (step vars (recorded u row) q) a (rw (add_row-records_of u row q.db) h)
  run-empty vars (locked n ∷ es) q a h =
      run-empty vars es (step vars (locked n) q) a
        (rw (take_lock-records_of n q.holder (nth n q.waiting) q) h)
  run-empty vars (round true ∷ es) q (e, a) h = absurd (cc)
  run-empty vars (round false ∷ es) q (e, a) h =
      run-empty vars es (step vars (round false) q) a (thread_round-empty q.holder q h)

  -- The thread of this table goes on at the head of what is left.
  go_round-next :
      (it : Bytes) (its : List Bytes) (q : Queue)
      → records_of t q.db ≡ it ∷ its
      → records_of t (go_round false t 0 (some it) q).db ≡ its
  unfolding go_round
  go_round-next it its q h =
      rw
        (
          records_of-set_lists t t (requests_of t q.db) (erase_at 0 (records_of t q.db)) q.db,
          same_table_refl t,
          h,
        )
        refl

  taken_head :
      (it : Bytes) (its : List Bytes) (q : Queue)
      → q.holder ≡ some (t, 0)
      → records_of t q.db ≡ it ∷ its
      → records_of t (thread_round false q.holder q).db ≡ its
  unfolding thread_round
  taken_head it its q h r = rw (h, r) (go_round-next it its q r)

  kept_head :
      (it i : Bytes) (its : List Bytes) (q : Queue)
      → q.holder ≡ some (t, 0)
      → records_of t q.db ≡ it ∷ i ∷ its
      → (thread_round false q.holder q).holder ≡ some (t, 0)
  unfolding thread_round go_round until_end
  kept_head it i its q h r = rw (h, r) (rw r refl)

  run-drains :
      (vars : Vars) (es : List Event) (l : List Bytes) (q : Queue)
      → Accepting es
      → q.holder ≡ some (t, 0)
      → records_of t q.db ≡ l
      → length l < rounds es
      → records_of t (run vars es q).db ≡ []
  unfolding run step
  run-drains vars es [] q a h r lt = run-empty vars es q a r
  run-drains vars [] (it ∷ its) q a h r lt = absurd (omega arith)
  run-drains vars (flushed ∷ es) (it ∷ its) q a h r lt = absurd a
  run-drains vars (recorded u row ∷ es) (it ∷ its) q a h r lt =
      run-drains vars es (it ∷ its) (step vars (recorded u row) q) a h
        (rw (add_row-records_of u row q.db) r) lt
  run-drains vars (locked n ∷ es) (it ∷ its) q a h r lt =
      run-drains vars es (it ∷ its) (step vars (locked n) q) a (unfold take_lock in rw h refl)
        (rw (take_lock-records_of n q.holder (nth n q.waiting) q) r) lt
  run-drains vars (round true ∷ es) (it ∷ its) q (e, a) h r lt = absurd (cc)
  run-drains vars (round false ∷ es) (it ∷ []) q (e, a) h r lt =
      run-empty vars es (step vars (round false) q) a (taken_head it [] q h r)
  run-drains vars (round false ∷ es) (it ∷ i ∷ its) q (e, a) h r lt =
      run-drains vars es (i ∷ its) (step vars (round false) q) a (kept_head it i its q h r)
        (taken_head it (i ∷ its) q h r) (omega arith)

-- When the server takes every statement and nothing is flushed meanwhile, a thread that starts on a
-- table has emptied its list of statements once the threads have gone more rounds than statements
-- waited, however records and locks come between; and then the statements of the table that the
-- server took are, up to order, those that it had and those that waited.
pub run-delivers :
    (vars : Vars) (t : Table) (es : List Event) (q : Queue)
    → Accepting es
    → q.holder ≡ some (t, 0)
    → length (records_of t q.db) < rounds es
    → (records_of t (run vars es q).db ≡ [])
      × Perm (sent_of t q.taken ++ records_of t q.db) (sent_of t (run vars es q).taken)
run-delivers vars t es q a h lt =
    let e = run-drains t vars es (records_of t q.db) q a h refl lt in
    (
      e,
      unfold all_of in
          rw (e, append-nil (sent_of t (run vars es q).taken)) at (run-all_of t vars es q a),
    )

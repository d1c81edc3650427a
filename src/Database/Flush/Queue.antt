-- ===== src/Database/Flush/Queue.antt =====
-- The lists of src/database/mysql.cpp under all their users: the event loop records rows and
-- flushes, detached threads wait for `sqlLock` and walk one list each (`doFlush…`). A round of a
-- thread is one step, and so is a flush. In the source `flush` takes no lock: where it comes while a
-- thread walks, the two may touch one list at the same time, which is undefined, and which no step
-- shows. The steps are those of the source where no flush comes while a thread holds the lock.
use liquid.Base.{ℕ, zero, suc, Bool, true, false, List, [], ◌∷◌, ◌++◌, Option, none, some, Bytes}
use liquid.Config.{Vars}
use liquid.Database.{Database}
use liquid.Database.Flush.{Table, requests_of, records_of, set_lists, flush}

-- The thread that holds `sqlLock`, with its table and the position of its iterator; the threads
-- that wait for it; and the statements that the server has taken, the newest first.
pub record Queue : Type 0 where
  pub db : Database
  pub holder : Option (Table × ℕ)
  pub waiting : List Table
  pub taken : List (Table × Bytes)

-- What happens: a row is recorded, the timer flushes, a waiting thread gets the lock, and the
-- thread that has it goes round its loop, with the answer of the server to the query.
pub data Event : Type 0 where
  recorded : Table → Bytes → Event
  flushed : Event
  locked : ℕ → Event
  round : Bool → Event

module _ {ℓ} {A : Type ℓ} where
  abbrev pub nth : ℕ → List A → Option A
  nth n [] = none
  nth zero (x ∷ xs) = some x
  nth (suc n) (x ∷ xs) = nth n xs

  -- `erase(it)`
  abbrev pub erase_at : ℕ → List A → List A
  erase_at n [] = []
  erase_at zero (x ∷ xs) = xs
  erase_at (suc n) (x ∷ xs) = x ∷ erase_at n xs

-- `push_back` of a row, as the `record` functions do it.
unfoldable pub add_row : Table → Bytes → Database → Database
unfolding requests_of records_of set_lists
add_row table row db = set_lists table (requests_of table db ++ row ∷ []) (records_of table db) db

-- `it != records.end()`, tested as soon as the iterator has moved: at the end, the loop ends and the
-- lock is released, whatever is pushed behind it later.
unfoldable pub until_end : Table → ℕ → Option Bytes → Option (Table × ℕ)
until_end table n none = none
until_end table n (some it) = some (table, n)

-- `lock_guard`, where nobody holds the lock: one of the threads that wait goes on, at `begin()`.
unfoldable pub take_lock : ℕ → Option (Table × ℕ) → Option Table → Queue → Queue
unfolding until_end records_of
take_lock n (some h) next q = q
take_lock n none none q = q
take_lock n none (some table) q = record q {
  holder = until_end table 0 (nth 0 (records_of table q.db));
  waiting = erase_at n q.waiting;
}

-- One round of the loop of `doFlushRecords` at the text that the iterator shows, and the test at its
-- end. There is no round without a text.
unfoldable pub go_round : Bool → Table → ℕ → Option Bytes → Queue → Queue
unfolding until_end requests_of records_of set_lists
go_round failed table n none q = record q { holder = none }
go_round true table n (some it) q = record q {
  holder = until_end table (suc n) (nth (suc n) (records_of table q.db));
}
go_round false table n (some it) q = record q {
  db = set_lists table (requests_of table q.db) (erase_at n (records_of table q.db)) q.db;
  holder = until_end table n (nth n (erase_at n (records_of table q.db)));
  taken = (table, it) ∷ q.taken;
}

unfoldable pub thread_round : Bool → Option (Table × ℕ) → Queue → Queue
unfolding go_round records_of
thread_round failed none q = q
thread_round failed (some (table, n)) q = go_round failed table n (nth n (records_of table q.db)) q

unfoldable pub step : Vars → Event → Queue → Queue
unfolding add_row take_lock thread_round flush
step vars (recorded table row) q = record q { db = add_row table row q.db }
step vars flushed q =
    let (db, threads) = flush vars q.db in record q { db = db; waiting = q.waiting ++ threads }
step vars (locked n) q = take_lock n q.holder (nth n q.waiting) q
step vars (round failed) q = thread_round failed q.holder q

unfoldable pub run : Vars → List Event → Queue → Queue
unfolding step
run vars [] q = q
run vars (e ∷ es) q = run vars es (step vars e q)

-- ===== src/Tests/Rows.antt =====
-- The theorems on rows and statements at a few rows, flushes, threads and answers.
use mathlib.Core.List.{Perm}
use liquid.Base.{◌≡◌, refl, true, false, List, [], ◌∷◌, ◌++◌, none, some, not, is_nil, arith}
use liquid.Base.Text.{codes}
use liquid.Config.{default_vars}
use liquid.Database.{Database}
use liquid.Database.Flush.{
  users, torrents, peers, tokens, snatches, requests_of, records_of, set_lists, do_flush_records,
  flush, flush_tables, flush_table, statement,
}
use liquid.Database.Flush.Queue.{
  Queue, Event, recorded, flushed, locked, round, run, step, take_lock, thread_round, go_round,
  until_end, add_row,
}
use liquid.Database.Flush.Batches.{Kept}
use liquid.Database.Flush.Conserved.{rows_of, sent_of, Empty, FlushesApart, run-conserves}
use liquid.Database.Flush.Drained.{run-delivers}
use liquid.Database.Flush.Walk.{rounds_with, refused, accepted, then_taken, replies, thread-refused}
use liquid.Database.Flush.Emptied.{joined, any_table, flush-lists}
use liquid.Examples.{no_rows}

abbrev idle : Queue
idle = record { db = no_rows; holder = none; waiting = []; taken = [] }

abbrev events : List Event
events =
    recorded users (codes "(1, 2, 3)")
    ∷ recorded peers (codes "(4)")
    ∷ flushed
    ∷ locked 0
    ∷ round true
    ∷ recorded users (codes "(5, 6, 7)")
    ∷ flushed
    ∷ round false
    ∷ round true
    ∷ []

events-FlushesApart : FlushesApart default_vars events idle
unfolding step flush flush_tables flush_table statement take_lock thread_round go_round until_end
    add_row requests_of records_of set_lists
events-FlushesApart = (refl, (refl, tt))

idle-Empty : Empty idle
unfolding requests_of records_of
idle-Empty = (
  λ t. elim t as (λ t. requests_of t no_rows ≡ []) [
    | users ↦ refl
    | torrents ↦ refl
    | peers ↦ refl
    | tokens ↦ refl
    | snatches ↦ refl
  ],
  λ t. elim t as (λ t. records_of t no_rows ≡ []) [
    | users ↦ refl
    | torrents ↦ refl
    | peers ↦ refl
    | tokens ↦ refl
    | snatches ↦ refl
  ],
  refl,
)

run-conserves_example :
    Kept default_vars users
      (rows_of users events)
      (requests_of users (run default_vars events idle).db)
      (records_of users (run default_vars events idle).db)
      (sent_of users (run default_vars events idle).taken)
run-conserves_example = run-conserves default_vars users events idle idle-Empty events-FlushesApart

-- Two statements wait, and their thread has the lock.
abbrev waiting_rows : Database
waiting_rows = record no_rows {
  user_requests = codes "(8)" ∷ [];
  user_records = codes "a" ∷ codes "b" ∷ [];
}

abbrev busy : Queue
busy = record { db = waiting_rows; holder = some (users, 0); waiting = []; taken = [] }

abbrev accepting : List Event
accepting = round false ∷ recorded users (codes "(9)") ∷ round false ∷ locked 0 ∷ round false ∷ []

run-delivers_example :
    (records_of users (run default_vars accepting busy).db ≡ [])
    × Perm
        (sent_of users busy.taken ++ records_of users busy.db)
        (sent_of users (run default_vars accepting busy).taken)
unfolding records_of
run-delivers_example =
    run-delivers default_vars users accepting busy (refl, (refl, (refl, tt))) refl (omega arith)

-- The thread of the two statements waits for the lock.
abbrev ready : Queue
ready = record { db = waiting_rows; holder = none; waiting = peers ∷ users ∷ []; taken = [] }

abbrev walked : Queue
walked = run default_vars (locked 1 ∷ rounds_with (true ∷ false ∷ [])) ready

thread-refused_example :
    (walked.holder ≡ none)
    × (records_of users walked.db ≡ refused (true ∷ false ∷ []) (records_of users waiting_rows))
    × (walked.taken
        ≡ then_taken users (accepted (true ∷ false ∷ []) (records_of users waiting_rows)) [])
    × ((do_flush_records replies (true ∷ false ∷ []) (records_of users waiting_rows)).1
        ≡ refused (true ∷ false ∷ []) (records_of users waiting_rows))
unfolding records_of
thread-refused_example =
    thread-refused default_vars users 1 (true ∷ false ∷ []) ready refl refl refl

flush-lists_example :
    (requests_of users (flush default_vars waiting_rows).0 ≡ [])
    × (records_of users (flush default_vars waiting_rows).0
        ≡ joined default_vars users
            (requests_of users waiting_rows)
            (records_of users waiting_rows))
    × (any_table users (flush default_vars waiting_rows).1
        ≡ not (is_nil (records_of users (flush default_vars waiting_rows).0)))
flush-lists_example = flush-lists default_vars users waiting_rows

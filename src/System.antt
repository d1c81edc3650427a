-- ===== src/System.antt =====
-- The tracker among its events: requests that connections hand to it, and its timers
-- (src/network/connectionHandler.cpp, src/network/server.cpp). The event loop takes one at a time.
use liquid.Base.{ℕ, ◌≡◌, ◌∙◌, sym, Bool, List, Bytes}
use liquid.Base.Outcome.{ok, ok-injective}
use liquid.Platform.{Platform, Env}
use liquid.Config.{Vars}
use liquid.Stats.{show}
use liquid.Database.Flush.{Table, requests_of, set_lists}
use liquid.Handler.{Tracker, get_user}
use liquid.Handler.Handle.{handle}
use liquid.Handler.Handle.Valid.{handle-IsValid}
use liquid.Handler.Clean.{clear_torrent_peers}
use liquid.Handler.Clean.Valid.{clear_torrent_peers-IsValid}
use liquid.Handler.Lifecycle.{flush_sql_records}
use liquid.Handler.Valid.{IsValid}

-- A request that is answered, the three timers of `Server::init`, and a thread on the list of
-- statements of a table, with whatever it leaves of it.
pub data Step (os : Platform) (vars : Vars) : Tracker → Tracker → Type 0 where
  served :
      (env : Env) (str ip : Bytes) (ipv6 : Bool) {t t' : Tracker} (text : Bytes)
      → handle os env vars str ip ipv6 t ≡ ok (text, t')
      → Step os vars t t'
  cleared : (now : ℕ) {t t' : Tracker} → clear_torrent_peers vars now t ≡ ok t' → Step os vars t t'
  flushed : (t : Tracker) → Step os vars t (record t { db = (flush_sql_records vars t.db).0 })
  shown : (t : Tracker) → Step os vars t (record t { stats = show t.stats })
  sent :
      (t : Tracker) (table : Table) (records : List Bytes)
      → Step os vars t (record t { db = set_lists table (requests_of table t.db) records t.db })

pub data Reach (os : Platform) (vars : Vars) (start : Tracker) : Tracker → Type 0 where
  here : Reach os vars start start
  after : {t t' : Tracker} → Reach os vars start t → Step os vars t t' → Reach os vars start t'

pub Step-IsValid :
    (os : Platform) (vars : Vars) {t t' : Tracker}
    → Step os vars t t'
    → IsValid vars t
    → IsValid vars t'
Step-IsValid os vars (served env str ip ipv6 {t} {t'} text e) v =
    handle-IsValid os env vars str ip ipv6 t text t' v e
Step-IsValid os vars (cleared now {t} {t'} e) v =
    let (u, run, w) = clear_torrent_peers-IsValid vars now t v in
    let same : u ≡ t' = ok-injective (sym run ∙ e) in rw same at w
Step-IsValid os vars (flushed t) v = record {
  torrents_once = v.torrents_once;
  sound = v.sound;
  grounded = unfold get_user in v.grounded;
}
Step-IsValid os vars (shown t) v = record {
  torrents_once = v.torrents_once;
  sound = v.sound;
  grounded = unfold get_user in v.grounded;
}
Step-IsValid os vars (sent t table records) v = record {
  torrents_once = v.torrents_once;
  sound = v.sound;
  grounded = unfold get_user in v.grounded;
}

pub Reach-IsValid :
    (os : Platform) (vars : Vars) {start t : Tracker}
    → IsValid vars start
    → Reach os vars start t
    → IsValid vars t
Reach-IsValid os vars v here = v
Reach-IsValid os vars v (after r s) = Step-IsValid os vars s (Reach-IsValid os vars v r)

-- In every state that a valid tracker reaches by requests that are answered, by the passes that
-- expire peers, by flushes, threads and the timer of the counters, in any order, the next pass ends,
-- whatever the time: it reads no map out of range and follows no null or stale pointer.
pub Reach-clear_torrent_peers :
    (os : Platform) (vars : Vars) (now : ℕ) {start t : Tracker}
    → IsValid vars start
    → Reach os vars start t
    → (t' : Tracker) × (clear_torrent_peers vars now t ≡ ok t') × Reach os vars start t'
Reach-clear_torrent_peers os vars now {start} {t} v r =
    let (t', run, _) = clear_torrent_peers-IsValid vars now t (Reach-IsValid os vars v r) in
    (t', run, after r (cleared now run))

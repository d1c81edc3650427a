-- ===== src/Peers/TimedOut.antt =====
-- `Peers::timedOut`: the peers that have not announced for longer than `timeout` leave the swarm.
pub mod Sound
use liquid.Base.{ℕ, suc, ◌+◌, Bool, true, false, List, [], ◌∷◌, Bytes, if◌then◌else◌}
use liquid.Base.Outcome.{Outcome, ok, ◌>>=◌}
use liquid.Config.{Vars, is_public}
use liquid.Peer.{Peer, timed_out, inactive}
use liquid.Peers.{Peers, PeerMap, remove_key}
use liquid.Database.{Database, Heap, record_peer}

-- A swarm that loses peers, the database, and the count `changed`.
pub record Sweep : Type 0 where
  pub peers : Peers
  pub db : Database
  pub changed : ℕ

-- One element that has timed out: it is written, unless the tracker is public, and erased.
unfoldable pub expire : Vars → Heap → Bytes → Peer → Sweep → Outcome Sweep
expire vars heap key p s = do
  db ←
      (if is_public vars
        then ok s.db
        else (do (_, db) ← record_peer vars heap (inactive p) s.db; ok db))
  ok (record { peers = remove_key key s.peers; db = db; changed = s.changed + 1 })

-- The loop, over the elements that it has not met.
unfoldable pub sweep : Vars → Heap → ℕ → PeerMap → Sweep → Outcome Sweep
unfolding expire
sweep vars heap now [] s = ok s
sweep vars heap now ((key, p) ∷ rest) s = do
  s' ← (if timed_out vars now p then expire vars heap key p s else ok s)
  sweep vars heap now rest s'

unfoldable pub timed_out_peers : Vars → Heap → ℕ → Peers → Database → Outcome Sweep
unfolding sweep
timed_out_peers vars heap now ps db =
    sweep vars heap now ps.p_map (record { peers = ps; db = db; changed = 0 })

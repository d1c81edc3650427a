-- ===== src/Handler/Clean.antt =====
-- `RequestHandler::clearTorrentPeers`, which a timer calls: silent peers leave every swarm, and a
-- public tracker forgets torrents without peers.
pub mod Expiry
pub mod Valid
use liquid.Base.{
  ℕ, ◌+◌, Bool, true, false, not, ◌&&◌, List, [], ◌∷◌, Bytes, ltb, ◌==◌, nat_eq, bytes_eq,
  if◌then◌else◌,
}
use liquid.Base.Dict.{Dict, erase, modify}
use liquid.Base.Outcome.{Outcome, ok, ◌>>=◌}
use liquid.Config.{Vars, is_public}
use liquid.Stats.{Stats, dec_torrents}
use liquid.Peers.{size}
use liquid.Peers.TimedOut.{Sweep, timed_out_peers}
use liquid.Torrent.{Torrent, Swarm, seeding, seeding6, leeching, leeching6, get_swarm, set_swarm}
use liquid.Database.{Database, Heap, record_torrent}
use liquid.Handler.{Tracker}

-- A torrent on its way through the four calls of `timedOut`, and the sum of what they return.
pub record Pass : Type 0 where
  pub torrent : Torrent
  pub db : Database
  pub changed : ℕ

unfoldable pub clear_swarm : Vars → Heap → ℕ → Swarm → Pass → Outcome Pass
clear_swarm vars heap now swarm p = do
  s ← timed_out_peers vars heap now (get_swarm swarm p.torrent) p.db
  ok (record {
    torrent = set_swarm swarm s.peers p.torrent;
    db = s.db;
    changed = p.changed + s.changed;
  })

unfoldable pub clear_swarms : Vars → Heap → ℕ → Torrent → Database → Outcome Pass
unfolding clear_swarm
clear_swarms vars heap now tor db = do
  p ← clear_swarm vars heap now seeding (record { torrent = tor; db = db; changed = 0 })
  p ← clear_swarm vars heap now seeding6 p
  p ← clear_swarm vars heap now leeching p
  clear_swarm vars heap now leeching6 p

abbrev pub is_empty : Torrent → Bool
is_empty tor =
    (size tor.seeders == 0)
    && (size tor.seeders6 == 0)
    && (size tor.leechers == 0)
    && (size tor.leechers6 == 0)

-- What is done with the torrent after the calls.
unfoldable pub finish_torrent : Vars → Bytes → Pass → Tracker → Tracker
finish_torrent vars info_hash p t =
    if is_public vars
    then (if is_empty p.torrent
        then record t {
          tor_map = erase info_hash t.tor_map;
          db = p.db;
          stats = dec_torrents t.stats;
        }
        else record t { tor_map = modify info_hash (λ _. p.torrent) t.tor_map; db = p.db })
    else record t {
      tor_map = modify info_hash (λ _. p.torrent) t.tor_map;
      db = if ltb 0 p.changed then record_torrent p.torrent p.db else p.db;
    }

-- The loop, over the torrents that it has not met.
unfoldable pub clear_each : Vars → ℕ → Dict Bytes Torrent → Tracker → Outcome Tracker
unfolding clear_swarms finish_torrent
clear_each vars now [] t = ok t
clear_each vars now ((info_hash, tor) ∷ rest) t = do
  p ← clear_swarms vars t.heap now tor t.db
  clear_each vars now rest (finish_torrent vars info_hash p t)

unfoldable pub clear_torrent_peers : Vars → ℕ → Tracker → Outcome Tracker
unfolding clear_each
clear_torrent_peers vars now t = clear_each vars now t.tor_map t

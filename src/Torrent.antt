-- ===== src/Torrent.antt =====
-- src/handler/torrent.cpp: a torrent with its four swarms. `balance` is the bit pattern of a long.
use liquid.Base.{ℕ, ◌+◌, ◌%◌}
use liquid.Base.Words.{u32, add64}
use liquid.Peers.{Peers, no_peers}

pub record Torrent : Type 0 where
  pub seeders : Peers
  pub seeders6 : Peers
  pub leechers : Peers
  pub leechers6 : Peers
  pub id : ℕ
  pub free : ℕ
  pub snatches : ℕ
  pub balance : ℕ

-- The constructor.
unfoldable pub new_torrent : ℕ → ℕ → ℕ → ℕ → Torrent
new_torrent id free snatches balance = record {
  seeders = no_peers;
  seeders6 = no_peers;
  leechers = no_peers;
  leechers6 = no_peers;
  id = id % u32;
  free = free;
  snatches = snatches % u32;
  balance = balance;
}

unfoldable pub inc_snatches : Torrent → Torrent
inc_snatches t = record t { snatches = (t.snatches + 1) % u32 }

unfoldable pub set_free : ℕ → Torrent → Torrent
set_free free t = record t { free = free }

-- `setBalance` adds.
unfoldable pub set_balance : ℕ → Torrent → Torrent
set_balance balance t = record t { balance = add64 t.balance balance }

-- The four swarms by name: what `getSeeders` and the like return a pointer to.
pub data Swarm : Type 0 where
  seeding seeding6 leeching leeching6 : Swarm

unfoldable pub get_swarm : Swarm → Torrent → Peers
get_swarm seeding t = t.seeders
get_swarm seeding6 t = t.seeders6
get_swarm leeching t = t.leechers
get_swarm leeching6 t = t.leechers6

-- A write through that pointer.
unfoldable pub set_swarm : Swarm → Peers → Torrent → Torrent
set_swarm seeding ps t = record t { seeders = ps }
set_swarm seeding6 ps t = record t { seeders6 = ps }
set_swarm leeching ps t = record t { leechers = ps }
set_swarm leeching6 ps t = record t { leechers6 = ps }

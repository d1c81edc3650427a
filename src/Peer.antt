-- ===== src/Peer.antt =====
-- src/handler/peer.cpp: a client on a torrent, with what it announced last. The `User*` is the
-- account's address in the heap, `none` for a null pointer.
pub mod Credit
use liquid.Base.{
  ℕ, ◌+◌, ◌-◌, ◌/◌, ◌%◌, Bool, true, false, Option, none, some, Bytes, ltb, ◌==◌, nat_eq,
  if◌then◌else◌,
}
use liquid.Base.Words.{u32, add64, sub64}
use liquid.Base.Text.{codes}
use liquid.Base.Int.{ℤ, pos, sub_ℕ, ltb_ℤ}
use liquid.Base.Outcome.{Outcome, ok, ◌>>=◌}
use liquid.Platform.{Platform, Env}
use liquid.Config.{Vars, get_int}
use liquid.Utility.{ip_port_hex_encode}
use liquid.Stats.{Stats, inc_transferred, inc_speed, dec_speed}

pub record Peer : Type 0 where
  pub user : Option ℕ
  pub downloaded : ℕ
  pub uploaded : ℕ
  pub total_downloaded : ℕ
  pub total_uploaded : ℕ
  pub down_speed : ℕ
  pub up_speed : ℕ
  pub left : ℕ
  pub completed : Bool
  pub active : Bool
  pub ip : Bytes
  pub port : Bytes
  pub hex_ip_port : Bytes
  pub peer_id : Bytes
  pub torrent_id : ℕ
  pub client : Bytes
  pub timespent : ℕ
  pub last_update : ℕ
  pub corrupt : ℕ

-- The constructor; it leaves `corrupt` as it finds it.
unfoldable pub new_peer :
    Platform → Env → Bytes → Bytes → Option ℕ → ℕ → ℕ → ℕ → ℕ → Bytes → Bytes → Bool → Outcome Peer
new_peer os env ip port user left downloaded uploaded torrent_id client peer_id ipv6 = do
  hex_ip_port ← ip_port_hex_encode os ip port ipv6
  ok (record {
    user = user;
    downloaded = 0;
    uploaded = 0;
    total_downloaded = downloaded;
    total_uploaded = uploaded;
    down_speed = 0;
    up_speed = 0;
    left = left;
    completed = left == 0;
    active = true;
    ip = ip;
    port = port;
    hex_ip_port = hex_ip_port;
    peer_id = peer_id;
    torrent_id = torrent_id;
    client = client;
    timespent = 0;
    last_update = env.created;
    corrupt = env.indeterminate % u32;
  })

-- Bytes in a second, cut to an unsigned int; 0 where no time has passed.
abbrev speed : ℕ → ℕ → ℕ → ℕ
speed bytes now last_update = if ltb last_update now then bytes / (now - last_update) % u32 else 0

-- What `updateStats` does to the peer.
unfoldable pub update_stats : ℕ → ℕ → ℕ → ℕ → ℕ → Peer → Peer
update_stats downloaded uploaded left corrupt now p = record p {
  downloaded = sub64 downloaded p.total_downloaded;
  total_downloaded = downloaded;
  uploaded = sub64 uploaded p.total_uploaded;
  total_uploaded = uploaded;
  down_speed = speed (sub64 downloaded p.total_downloaded) now p.last_update;
  up_speed = speed (sub64 uploaded p.total_uploaded) now p.last_update;
  left = left;
  corrupt = corrupt % u32;
  timespent = add64 p.timespent (sub64 now p.last_update);
  last_update = now;
}

-- What it does to the counters: `p` is the peer before, `q` after.
unfoldable pub count_stats : Platform → Peer → Peer → Stats → Stats
count_stats os p q s = inc_speed os ((q.down_speed + q.up_speed) % u32) (
    dec_speed ((p.down_speed + p.up_speed) % u32)
      (inc_transferred os (add64 q.downloaded q.uploaded) s))

unfoldable pub complete : Peer → Peer
complete p = record p { completed = true }

unfoldable pub inactive : Peer → Peer
inactive p = record p { active = false }

-- `(now - lastUpdate) > Config::getInt("timeout")`, in signed numbers.
unfoldable pub timed_out : Vars → ℕ → Peer → Bool
timed_out vars now p = ltb_ℤ (get_int vars (codes "timeout")) (sub_ℕ now p.last_update)

-- `getTimespent` gives the seconds and clears them.
unfoldable pub get_timespent : Peer → ℕ × Peer
get_timespent p = (p.timespent, record p { timespent = 0 })

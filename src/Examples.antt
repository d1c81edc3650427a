-- ===== src/Examples.antt =====
-- A concrete platform, tracker and requests, on which the definitions run.
use liquid.Base.{true, false, [], ◌∷◌, ◌++◌, Bytes, if◌then◌else◌}
use liquid.Base.Text.{codes, to_string}
use liquid.Platform.{Platform, Env}
use liquid.Stats.{Stats}
use liquid.User.{new_user}
use liquid.Torrent.{new_torrent}
use liquid.Database.{Database, normal}
use liquid.Handler.{Tracker}

-- Four bytes between dots.
dotted : Bytes → Bytes
unfolding to_string
dotted [] = []
dotted (b ∷ []) = to_string b
dotted (b ∷ c ∷ bs) = to_string b ++ (codes "." ++ dotted (c ∷ bs))

-- Every address is 10.0.0.1, or its IPv6 form.
abbrev pub os : Platform
os = record {
  inet_pton = λ ipv6 ip.
      if ipv6
      then 32 ∷ 1 ∷ 0 ∷ 0 ∷ 0 ∷ 0 ∷ 0 ∷ 0 ∷ 0 ∷ 0 ∷ 0 ∷ 0 ∷ 10 ∷ 0 ∷ 0 ∷ 1 ∷ []
      else 10 ∷ 0 ∷ 0 ∷ 1 ∷ [];
  inet_ntoa = λ address. address;
  to_double = λ n. n;
}

abbrev pub env : Env
env = record { now = 1000; created = 1000; checked = 1000; indeterminate = 7 }

abbrev pub passkey : Bytes
passkey = codes "0123456789abcdef0123456789abcdef"

abbrev pub info_hash : Bytes
info_hash = codes "aaaaaaaaaaaaaaaaaaaa"

abbrev pub no_stats : Stats
no_stats = record {
  changed = false;
  peers = 0;
  torrents = 1;
  speed = 0;
  speed_show = 0;
  speed_lvl = 0;
  transferred = 0;
  transferred_show = 0;
  transferred_lvl = 0;
}

abbrev pub no_rows : Database
no_rows = record {
  user_requests = [];
  torrent_requests = [];
  peer_requests = [];
  token_requests = [];
  snatch_requests = [];
  user_records = [];
  torrent_records = [];
  peer_records = [];
  token_records = [];
  snatch_records = [];
}

-- A private tracker with one account and one torrent.
unfoldable pub tracker : Tracker
unfolding new_user new_torrent
tracker = record {
  tor_map = (info_hash, new_torrent 5 0 0 0) ∷ [];
  heap = (0, new_user 42 true) ∷ [];
  next_address = 1;
  usr_map = (passkey, 0) ∷ [];
  banned_ips = [];
  client_whitelist = [];
  leech_status = normal;
  db = no_rows;
  stats = no_stats;
}

abbrev pub announce_text : Bytes
announce_text =
    codes "GET /0123456789abcdef0123456789abcdef/announce?info_hash=aaaaaaaaaaaaaaaaaaaa"
    ++ codes "&peer_id=-TR2940-abcdefghijkl&port=51413&uploaded=0&downloaded=10&left=500"
    ++ codes "&event=started HTTP/1.1\r\nUser-Agent: Transmission/2.94\r\n\r\n"

abbrev pub scrape_text : Bytes
scrape_text = codes "GET /scrape?info_hash=aaaaaaaaaaaaaaaaaaaa HTTP/1.1\r\nUser-Agent: x\r\n\r\n"

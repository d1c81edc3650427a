-- ===== src/Tests/Swarms.antt =====
-- The theorems on swarms, torrents and replies at concrete inputs.
use liquid.Base.{
  ℕ, ◌-◌, ◌*◌, ◌≡◌, refl, true, false, List, [], ◌∷◌, ◌++◌, some, Bytes, arith, bytes_eq, nat_eq,
  ◌!=◌, length, take, if◌then◌else◌, bytes_beq, bytes_beq_iff,
}
use liquid.Base.Dict.{find, Distinct}
use mathlib.Core.Bool.{false≢true}
use liquid.Base.Words.{add64, u64}
use liquid.Base.Int.{pos}
use liquid.Base.Outcome.{ok, stop, undefined}
use liquid.Base.Text.{codes, to_string}
use liquid.Config.{default_vars, get}
use liquid.Peer.{Peer, update_stats}
use liquid.Peer.Credit.{
  Report, final, sum_downloaded, sum_uploaded, sum-update_stats, charged-update_stats,
}
use liquid.Peers.{Request, Peers, PeerMap, no_peers, element, get_peer, next_peer, remove_key}
use liquid.Peers.Rotation.{at_parts, next_peer-remove_key}
use liquid.Peers.TimedOut.{Sweep, timed_out_peers}
use liquid.Peers.TimedOut.Sound.{still_there, silent, AllOwned, timed_out_peers_total}
use liquid.Torrent.{Torrent, new_torrent, leeching, leeching6, seeding, seeding6, get_swarm}
use liquid.Handler.{Tracker}
use liquid.Handler.Announce.{Work, begin, charged, depart}
use liquid.Handler.Announce.Depart.{OnlyLeft, depart-stopped, depart-completed}
use liquid.Handler.Announce.Reply.{get_peers, entry_size}
use liquid.Handler.Announce.Reply.Length.{texts, list_key, get_peers_compact}
use liquid.Handler.Clean.{clear_torrent_peers}
use liquid.Handler.Clean.Expiry.{IsSound, Swept, clear_torrent_peers_total}
use liquid.Examples.{os, env, info_hash, tracker, no_rows}

-- Two peers of the account at address 0, of which the second has been silent for long.
abbrev peer_at : Bytes → Bytes → ℕ → Peer
peer_at peer_id hex_ip_port last_update = record {
  user = some 0;
  downloaded = 0;
  uploaded = 0;
  total_downloaded = 100;
  total_uploaded = 0;
  down_speed = 0;
  up_speed = 0;
  left = 500;
  completed = false;
  active = true;
  ip = codes "10.0.0.1";
  port = codes "51413";
  hex_ip_port = hex_ip_port;
  peer_id = peer_id;
  torrent_id = 5;
  client = codes "client";
  timespent = 0;
  last_update = last_update;
  corrupt = 0;
}

abbrev ada : Bytes
ada = codes "ada"

abbrev bob : Bytes
bob = codes "bob"

abbrev ada_peer : Peer
ada_peer = peer_at ada (10 ∷ 0 ∷ 0 ∷ 1 ∷ 200 ∷ 213 ∷ []) 9000

abbrev bob_peer : Peer
bob_peer = peer_at bob (10 ∷ 0 ∷ 0 ∷ 2 ∷ 200 ∷ 213 ∷ []) 1000

abbrev two_peers : PeerMap
two_peers = (ada, ada_peer) ∷ (bob, bob_peer) ∷ []

abbrev swarm : Peers
swarm = record { it = element bob; p_map = two_peers }

two_peers-Distinct : Distinct two_peers
unfolding find bytes_beq
two_peers-Distinct = (refl, (refl, tt))

two_peers-AllOwned : AllOwned default_vars tracker.heap two_peers
unfolding find tracker bytes_beq get default_vars
two_peers-AllOwned = (refl, (refl, tt))

get_peers_compact_example :
    let listing = texts true (take 2 ((bob, bob_peer) ∷ (ada, ada_peer) ∷ [])) in
    (ps : Peers) × (get_peers
        (at_parts ((ada, ada_peer) ∷ []) ((bob, bob_peer) ∷ []))
        (pos 2)
        false
        true
      ≡ ok (list_key false ++ (to_string (length listing) ++ (codes ":" ++ listing)), ps))
    × (length listing ≡ entry_size false * 2)
    × (ps.p_map ≡ two_peers)
get_peers_compact_example =
    get_peers_compact false 2 ((ada, ada_peer) ∷ []) ((bob, bob_peer) ∷ []) two_peers-Distinct
      (refl, (refl, tt)) (omega arith)

timed_out_peers_total_example :
    (s : Sweep) × (timed_out_peers default_vars tracker.heap 9000 swarm no_rows ≡ ok s)
    × ((k : Bytes) → find k s.peers.p_map ≡ still_there default_vars 9000 (find k two_peers))
    × (s.changed ≡ silent default_vars 9000 two_peers)
timed_out_peers_total_example =
    timed_out_peers_total default_vars tracker.heap 9000 swarm no_rows two_peers-Distinct
      two_peers-AllOwned

next_peer-remove_key_example : next_peer (remove_key bob swarm) ≡ stop undefined
unfolding find bytes_beq
next_peer-remove_key_example =
    next_peer-remove_key bob ada ada_peer swarm refl refl
      (λ e. false≢true ((bytes_beq_iff ada bob).1 e))

-- The torrent with the swarm among its leechers of IPv4, and a tracker with it alone.
torrent : Torrent
unfolding new_torrent
torrent = record (new_torrent 5 0 0 0) { leechers = swarm }

torrent-IsSound : IsSound default_vars tracker.heap torrent
unfolding torrent get_swarm new_torrent no_peers
torrent-IsSound seeding = (tt, tt)
torrent-IsSound seeding6 = (tt, tt)
torrent-IsSound leeching = (two_peers-Distinct, two_peers-AllOwned)
torrent-IsSound leeching6 = (tt, tt)

abbrev busy : Tracker
busy = record tracker { tor_map = (info_hash, torrent) ∷ [] }

clear_torrent_peers_total_example :
    (t' : Tracker) × (clear_torrent_peers default_vars 9000 busy ≡ ok t')
    × ((h : Bytes)
        → Swept default_vars 9000 (find h busy.tor_map) (find h busy.tor_map) (find h t'.tor_map))
unfolding find
clear_torrent_peers_total_example =
    clear_torrent_peers_total default_vars 9000 busy (refl, tt) (torrent-IsSound, tt)

abbrev reports : List Report
reports =
    record { downloaded = 150; uploaded = 7; left = 450; corrupt = 0; now = 9100 }
    ∷ record { downloaded = 20; uploaded = 9; left = 430; corrupt = 0; now = 9200 }
    ∷ []

sum-update_stats_example :
    (add64 100 (sum_downloaded reports ada_peer) ≡ (final reports ada_peer).total_downloaded)
    × (add64 0 (sum_uploaded reports ada_peer) ≡ (final reports ada_peer).total_uploaded)
sum-update_stats_example =
    sum-update_stats reports ada_peer (omega arith) (omega arith)
      (omega arith, omega arith, (omega arith, omega arith, tt))

charged-update_stats_example :
    (update_stats (charged 100 150) 0 0 0 9100 ada_peer).downloaded ≡ u64 - 100
charged-update_stats_example =
    charged-update_stats 100 150 0 0 0 9100 ada_peer (omega arith) (omega arith) (omega arith)
      (omega arith)

abbrev leaving : Bytes → Request
leaving event = (codes "event", event) ∷ (codes "left", codes "500") ∷ (codes "peer_id", bob) ∷ []

depart-stopped_example :
    (w' : Work) × (depart os env default_vars
        (leaving (codes "stopped"))
        false
        (begin tracker torrent)
      ≡ ok w')
    × OnlyLeft (if codes "500" != codes "0" then leeching else seeding) bob torrent w'.torrent
unfolding find bytes_beq
depart-stopped_example =
    depart-stopped os env default_vars (leaving (codes "stopped")) false (begin tracker torrent)
      (codes "500") bob refl refl refl

depart-completed_example :
    (w' : Work) × (depart os env default_vars
        (leaving (codes "completed"))
        false
        (begin tracker torrent)
      ≡ ok w')
    × OnlyLeft leeching6 bob torrent w'.torrent
    × (get_peer bob (get_swarm leeching w'.torrent) ≡ get_peer bob (get_swarm leeching torrent))
unfolding find bytes_beq
depart-completed_example =
    depart-completed os env default_vars (leaving (codes "completed")) false (begin tracker torrent)
      (codes "500") bob refl refl refl

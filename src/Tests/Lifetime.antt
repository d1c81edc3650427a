-- ===== src/Tests/Lifetime.antt =====
-- The theorems on the validity of the tracker, at its start and after an announce.
use liquid.Base.{◌≡◌, refl, true, false, [], ◌∷◌, some, Bytes, arith, bytes_beq, bytes_eq, nat_eq}
use liquid.Base.Dict.{find, emplace, modify}
use liquid.Base.Outcome.{Outcome, ok, stop}
use liquid.Base.Text.{codes}
use liquid.Base.Int.{pos, stoul, stoi}
use liquid.Config.{default_vars, get, get_int}
use liquid.Parser.{init as parser_init, check}
use liquid.Parser.Parse.{parse}
use liquid.Peers.{no_peers, get_peer, set_peer, add_peer, size}
use liquid.User.{has_token, is_restricted, is_authorized, add_ip_restriction}
use liquid.Torrent.{
  new_torrent, seeding, seeding6, leeching, leeching6, set_balance, get_swarm, set_swarm,
}
use liquid.Peer.{new_peer, update_stats, get_timespent}
use liquid.Database.{record_peer}
use liquid.Handler.{Tracker, get_user, with_user}
use liquid.Handler.Announce.{read_peer, write_peer, open_torrent, corrupt_of, work}
use liquid.Handler.Announce.Reply.{get_peers, reply}
use liquid.Utility.{ip_port_hex_encode}
use liquid.Handler.Handle.{handle}
use liquid.Handler.Handle.Valid.{handle-IsValid}
use liquid.Handler.Update.Grounded.{Grounded}
use liquid.Handler.Valid.{IsValid, IsSound-new_torrent}
use liquid.Handler.Load.{
  Server, load_users, load_torrents, load_banned_ips, load_client_whitelist, load_leech_status,
}
use liquid.Handler.Lifecycle.{init}
use liquid.Handler.Lifecycle.Init.{init-IsValid}
use liquid.Examples.{os, env, tracker, announce_text, passkey, info_hash}
use liquid.Peers.{Request}
use liquid.Handler.Announce.Total.{Readable}
use liquid.Handler.Announce.Reply.Ends.{AllRotate}
use liquid.Handler.Handle.{serve}
use liquid.Handler.Handle.Answered.{serve-answered}

ip : Bytes
ip = codes "10.0.0.1"

pub tracker-Grounded : Grounded tracker
unfolding tracker get_user find
tracker-Grounded k a h = ground arith

tracker-IsValid : IsValid default_vars tracker
unfolding tracker find
tracker-IsValid = record {
  torrents_once = (refl, tt);
  sound = (IsSound-new_torrent default_vars tracker.heap 5 0 0 0, tt);
  grounded = tracker-Grounded;
}

abbrev after_announce : Outcome (Bytes × Tracker) → Bytes × Tracker
after_announce (ok r) = r
after_announce (stop _) = ([], tracker)

abbrev handled : Bytes × Tracker
handled = after_announce (handle os env default_vars announce_text ip false tracker)

is_handled : handle os env default_vars announce_text ip false tracker ≡ ok handled
unfolding tracker has_token is_restricted is_authorized set_balance get_swarm set_swarm new_peer
    update_stats get_timespent no_peers get_peer set_peer add_peer size record_peer read_peer
    write_peer open_torrent corrupt_of work get_peers reply ip_port_hex_encode stoul stoi get_user
    with_user handle find emplace modify default_vars get get_int bytes_beq parse check parser_init
    liquid.Utility.hex_to_bin
is_handled = refl

handle-IsValid_example : IsValid default_vars handled.1
handle-IsValid_example =
    handle-IsValid os env default_vars announce_text ip false tracker handled.0 handled.1
      tracker-IsValid is_handled

-- A server with one account, whose selections all have its row.
abbrev server : Server (Unit {0})
server = record {
  connects = λ _. true;
  query = λ s text. (s, false);
  select = λ _ _. some (
      (some (codes "7")
        ∷ some (codes "8")
        ∷ some (codes "9")
        ∷ some (codes "1")
        ∷ some (codes "2")
        ∷ [])
      ∷ []);
}

abbrev started : Outcome (Unit {0} × Tracker) → Tracker
started (ok r) = r.1
started (stop _) = tracker

abbrev initialised : Tracker
initialised = started (init server default_vars os tt tracker)

init-IsValid_example : IsValid default_vars initialised
unfolding init load_users load_torrents load_banned_ips load_client_whitelist load_leech_status
    default_vars get find bytes_beq stoul emplace tracker with_user add_ip_restriction
init-IsValid_example =
    init-IsValid server default_vars os tt tt tracker initialised tracker-IsValid refl

abbrev announce_req : Request
announce_req =
    (codes "reqpasskey", passkey)
    ∷ (codes "peer_id", codes "-TR2940-abcdefghijkl")
    ∷ (codes "ip", codes "10.0.0.1")
    ∷ (codes "port", codes "51413")
    ∷ (codes "uploaded", codes "0")
    ∷ (codes "downloaded", codes "10")
    ∷ (codes "left", codes "0")
    ∷ (codes "event", codes "completed")
    ∷ (codes "user-agent", codes "Transmission/2.94")
    ∷ []

announce_req-Readable : Readable announce_req
unfolding find bytes_beq stoul stoi
announce_req-Readable = record {
  passkey = (_, refl);
  peer_id = (_, refl);
  ip = (_, refl);
  client = (_, refl);
  event = (_, refl);
  left = (_, 0, refl, refl);
  downloaded = (_, 10, refl, refl);
  uploaded = (_, 0, refl, refl);
  port = (_, pos 51413, refl, refl);
}

rotates : AllRotate (new_torrent 5 0 0 0)
unfolding new_torrent no_peers get_swarm
rotates seeding = tt
rotates seeding6 = tt
rotates leeching = tt
rotates leeching6 = tt

serve-answered_example :
    (text : Bytes) × (t' : Tracker) × (serve os env default_vars announce_req info_hash true
        (new_torrent 5 0 0 0)
        tracker
      ≡ ok (text, t'))
unfolding tracker find bytes_beq get_user get default_vars new_torrent no_peers get_swarm
serve-answered_example =
    serve-answered os env default_vars announce_req true announce_req-Readable tracker
      (new_torrent 5 0 0 0) info_hash passkey tracker-IsValid refl refl refl rotates
      (λ completed at_id. cc)

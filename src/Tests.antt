-- ===== src/Tests.antt =====
-- The theorems at concrete inputs: requests as a whole.
pub mod Servers
pub mod Swarms
pub mod Parts
pub mod Rows
pub mod Loading
pub mod Lifetime
use liquid.Base.{
  ℕ, ◌+◌, ◌*◌, ◌≤◌, ◌<◌, ◌≡◌, refl, ◌≢◌, ◌⊎◌, inl, inr, Bool, true, false, not, ◌||◌, ◌&&◌, List,
  [], ◌∷◌, ◌++◌, Option, none, some, Bytes, arith, ◌==◌, nat_eq, bytes_eq, bytes_beq, bytes_beq_iff,
  if◌then◌else◌, length, take, leb, ltb, Bool-cases,
}
use liquid.Base.Dict.{find, emplace, erase, modify, has, Distinct, Dict}
use liquid.Base.Outcome.{Outcome, ok, stop, out_of_range, undefined}
use liquid.Base.Text.{codes, to_string}
use liquid.Config.{Vars, default_vars, is_private, get, get_int}
use liquid.Parser.{init, check}
use liquid.Parser.Parse.{parse}
use liquid.Parser.Check.{check_iff, Complete}
use liquid.Peers.{Request, no_peers, get_peer, set_peer, add_peer, size}
use liquid.Handler.{Tracker, get_user, with_user}
use liquid.User.{has_token, is_restricted, is_authorized}
use liquid.Torrent.{set_balance, get_swarm, set_swarm}
use liquid.Peer.{new_peer, update_stats, get_timespent}
use liquid.Database.{record_peer}
use liquid.Handler.Announce.{read_peer, write_peer, open_torrent, corrupt_of, work}
use liquid.Handler.Announce.Reply.{get_peers, reply}
use liquid.Utility.{ip_port_hex_encode}
use liquid.Base.Int.{stoul, stoi}
use liquid.Handler.Handle.{handle_client, handle}
use liquid.Handler.Handle.Refusal.{Admitted, handle_client-Admitted}
use liquid.Handler.Update.Grounded.{Grounded}
use liquid.Handler.Handle.Grounded.{handle-Grounded}
use liquid.Handler.Handle.Crash.{handle-scrape_without_passkey, handle-add_ban_without_fromip}
use liquid.Examples.{os, env, passkey, info_hash, tracker, announce_text, scrape_text}

abbrev ip : Bytes
ip = codes "10.0.0.1"

abbrev announce_req : Request
announce_req =
    (codes "reqpasskey", passkey)
    ∷ (codes "action", codes "announce")
    ∷ (codes "peer_id", codes "-TR2940-abcdefghijkl")
    ∷ (codes "port", codes "51413")
    ∷ (codes "uploaded", codes "0")
    ∷ (codes "downloaded", codes "10")
    ∷ (codes "left", codes "500")
    ∷ (codes "event", codes "started")
    ∷ (codes "user-agent", codes "Transmission/2.94")
    ∷ []

abbrev after_announce : Outcome (Bytes × Tracker) → Bytes × Tracker
after_announce (ok r) = r
after_announce (stop _) = ([], tracker)

abbrev served : Bytes × Tracker
served =
    after_announce
      (handle_client os env default_vars announce_req (info_hash ∷ []) ip false tracker)

is_private_default : is_private default_vars ≡ true
unfolding default_vars get find bytes_beq
is_private_default = refl

handle_client-Admitted_example :
    (served.1 ≡ tracker) ⊎ Admitted announce_req ip (info_hash ∷ []) tracker
unfolding tracker has_token is_restricted is_authorized set_balance get_swarm set_swarm new_peer
    update_stats get_timespent no_peers get_peer set_peer add_peer size record_peer read_peer
    write_peer open_torrent corrupt_of work get_peers reply ip_port_hex_encode stoul stoi get_user
    with_user handle find emplace modify default_vars get get_int bytes_beq
handle_client-Admitted_example =
    handle_client-Admitted os env default_vars is_private_default announce_req (info_hash ∷ []) ip
      false tracker served.0 served.1 refl

tracker-Grounded : Grounded tracker
unfolding tracker get_user find
tracker-Grounded k a h = ground arith

abbrev handled : Bytes × Tracker
handled = after_announce (handle os env default_vars announce_text ip false tracker)

handle-scrape_without_passkey_example :
    handle os env default_vars scrape_text ip false tracker ≡ stop out_of_range
unfolding parse find bytes_beq emplace
handle-scrape_without_passkey_example =
    handle-scrape_without_passkey os env default_vars scrape_text ip false tracker refl refl

abbrev ban_text : Bytes
ban_text =
    codes "GET /00000000000000000000000000000000/update?type=add_ban&from=1&to=2 HTTP/1.1\r\n\r\n"

handle-add_ban_without_fromip_example :
    handle os env default_vars ban_text ip false tracker ≡ stop out_of_range
unfolding parse default_vars get find bytes_beq emplace
handle-add_ban_without_fromip_example =
    handle-add_ban_without_fromip os env default_vars ban_text ip false tracker is_private_default
      refl refl refl refl refl refl

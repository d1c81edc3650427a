-- ===== src/Handler/Handle.antt =====
-- `RequestHandler::handle`, the way of a request from its text to a reply, and the head of
-- `announce` that may refuse it.
pub mod Refusal
pub mod Crash
pub mod Grounded
pub mod Valid
pub mod Answered
use liquid.Base.{
  ℕ, ◌+◌, Bool, true, false, not, ◌&&◌, List, [], ◌∷◌, Option, none, some, Bytes, length, ◌==◌,
  ◌!=◌, is_nil, nat_eq, bytes_eq, if◌then◌else◌,
}
use liquid.Base.Dict.{find, emplace, modify, has}
use liquid.Base.Outcome.{Outcome, ok, stop, undefined, out_of_range, ◌>>=◌, or_stop}
use liquid.Base.Text.{codes}
use liquid.Platform.{Platform, Env}
use liquid.Config.{Vars, get, is_private, is_public}
use liquid.Utility.{hex_to_bin}
use liquid.Parser.{init, check}
use liquid.Parser.Parse.{parse}
use liquid.Response.{error}
use liquid.User.{User, is_authorized, is_restricted}
use liquid.Peers.{Request, at}
use liquid.Torrent.{Torrent}
use liquid.Database.{deref}
use liquid.Handler.{Tracker, get_user}
use liquid.Handler.Update.{update, front}
use liquid.Handler.Scrape.{scrape}
use liquid.Handler.Announce.{Work, begin, open_torrent, whitelisted, corrupt_of, work}
use liquid.Handler.Announce.Reply.{reply}

-- A peer id that is not 20 bytes long is percent-decoded.
abbrev pub plain_id : Bytes → Bytes
plain_id peer_id = if length peer_id == 20 then peer_id else hex_to_bin peer_id

-- The request that `announce` sees: the id is written back, and an event is there.
abbrev pub started : Bytes → Request → Request
started id req = emplace (codes "event") (codes "updating") (modify (codes "peer_id") (λ _. id) req)

module _ (os : Platform) (env : Env) (vars : Vars) where
  -- The torrent after the work goes back into the map, and the reply is made from it.
  unfoldable pub serve : Request → Bytes → Bool → Torrent → Tracker → Outcome (Bytes × Tracker)
  serve req info_hash ipv6 tor t = do
    corrupt ← corrupt_of req
    w ← work os env vars req ipv6 corrupt (begin t tor)
    (text, tor') ← reply vars req ipv6 w.torrent w.peers w.peers6
    ok (text, record (w.tracker) { tor_map = modify info_hash (λ _. tor') w.tracker.tor_map })

  -- `getUser(req->at("reqpasskey"))->isAuthorized()`, asked in a private tracker only.
  unfoldable pub may_announce : Request → Tracker → Outcome Bool
  may_announce req t =
      if is_private vars
      then (do
        passkey ← at req (codes "reqpasskey")
        u ← deref t.heap (get_user passkey t)
        ok (is_authorized u))
      else ok true

  announce_on : Request → Bytes → Bool → Tracker → Option Torrent → Outcome (Bytes × Tracker)
  unfolding serve may_announce
  announce_on req info_hash ipv6 t none = ok (error (codes "torrent not found"), t)
  announce_on req info_hash ipv6 t (some tor) = do
    allowed ← may_announce req t
    if allowed then serve req info_hash ipv6 tor t else ok (error (codes "user unauthorized"), t)

  unfoldable pub announce : Request → Bytes → Bool → Tracker → Outcome (Bytes × Tracker)
  unfolding announce_on
  announce req info_hash ipv6 t = do
    event ← at req (codes "event")
    peer_id ← at req (codes "peer_id")
    let t' = open_torrent vars info_hash t
    if not (is_nil t.client_whitelist) && not (whitelisted t.client_whitelist peer_id)
        then ok (error (codes "client not in whitelist"), t)
        else announce_on req info_hash ipv6 t' (find info_hash t'.tor_map)

  -- An announce with its peer id of 20 bytes, percent-encoded or not, and its event.
  unfoldable pub start_announce : Request → Bytes → Bool → Tracker → Outcome (Bytes × Tracker)
  unfolding announce
  start_announce req info_hash ipv6 t = do
    peer_id ← at req (codes "peer_id")
    if length (plain_id peer_id) == 20
        then announce (started (plain_id peer_id) req) info_hash ipv6 t
        else ok (error (codes "invalid peer id"), t)

  -- `bannedIPs`, and the addresses that the account is restricted to.
  refuses_ip : Request → Option ℕ → Tracker → Outcome Bool
  refuses_ip req user t =
      if is_private vars
      then (do ip ← at req (codes "ip"); u ← deref t.heap user; ok (is_restricted ip u))
      else ok false

  -- The branches over the action.
  by_action : Request → List Bytes → Bool → Tracker → Outcome (Bytes × Tracker)
  unfolding start_announce
  by_action req info_hashes ipv6 t = do
    action ← at req (codes "action")
    if action == codes "announce"
        then (do info_hash ← front info_hashes; start_announce req info_hash ipv6 t)
        else if action == codes "scrape"
        then ok (scrape info_hashes t, t)
        else ok (error (codes "invalid action"), t)

  -- What follows the checks of the account and the info hash.
  unfoldable pub route :
      Request → List Bytes → Option ℕ → Bool → Tracker → Outcome (Bytes × Tracker)
  unfolding by_action refuses_ip
  route req info_hashes user ipv6 t = do
    ip ← at req (codes "ip")
    if has (find ip t.banned_ips) then ok (error (codes "banned ip"), t) else (do
      restricted ← refuses_ip req user t
      if restricted
          then ok (error (codes "ip not associated with account"), t)
          else by_action req info_hashes ipv6 t)

  -- The request of a client, after the branch for updates.
  unfoldable pub handle_client :
      Request → List Bytes → Bytes → Bool → Tracker → Outcome (Bytes × Tracker)
  unfolding route
  handle_client req info_hashes ip ipv6 t = do
    passkey ← at req (codes "reqpasskey")
    let user = get_user passkey t
    if is_private vars && not (has user)
        then ok (error (codes "passkey not found"), t)
        else if is_nil info_hashes
        then ok (error (codes "missing info_hash"), t)
        else route (emplace (codes "ip") ip req) info_hashes user ipv6 t

  -- `type == "private" && action == "update" && reqpasskey == updatekey`, left to right.
  unfoldable pub is_update : Request → Outcome Bool
  is_update req =
      if is_private vars
      then (do
        action ← at req (codes "action")
        if action == codes "update"
            then (do
              passkey ← at req (codes "reqpasskey")
              ok (passkey == get vars (codes "updatekey")))
            else ok false)
      else ok false

  handle_parsed : Request × List Bytes → Bytes → Bool → Tracker → Outcome (Bytes × Tracker)
  unfolding handle_client is_update
  handle_parsed (req, info_hashes) ip ipv6 t =
      if check (init vars) req == codes "success"
      then (do
        updates ← is_update req
        if updates
            then update os env.now req info_hashes t
            else handle_client req info_hashes ip ipv6 t)
      else ok (error (check (init vars) req), t)

  unfoldable pub handle : Bytes → Bytes → Bool → Tracker → Outcome (Bytes × Tracker)
  unfolding handle_parsed
  handle str ip ipv6 t = handle_parsed (parse str) ip ipv6 t

-- ===== src/Handler/Update.antt =====
-- The operations of an update request (`RequestHandler::update` and what it calls). Log messages
-- are left out, but not the calls in them that can fail.
pub mod Accounts
pub mod Bans
pub mod Grounded
pub mod Valid
use liquid.Base.{
  ℕ, zero, suc, ◌+◌, ◌-◌, ◌%◌, Bool, true, false, List, [], ◌∷◌, ◌++◌, Option, none, some, Bytes,
  take, drop, length, filter, ltb, ◌==◌, ◌!=◌, nat_eq, bytes_eq, if◌then◌else◌,
}
use liquid.Base.Dict.{Dict, find, emplace, erase, modify, has}
use liquid.Base.Outcome.{Outcome, ok, stop, undefined, out_of_range, ◌>>=◌, or_stop}
use liquid.Base.Words.{u32}
use liquid.Base.Text.{codes, substr}
use liquid.Base.Int.{stoul}
use liquid.Platform.{Platform}
use liquid.Utility.{long2ip}
use liquid.Response.{response}
use liquid.User.{
  Texts, new_user, add_token as user_add_token, remove_token as user_remove_token, set_authorized,
  add_ip_restriction as user_add_ip, remove_ip_restriction as user_remove_ip,
}
use liquid.Peers.{Request, at}
use liquid.Torrent.{Torrent, new_torrent, set_free}
use liquid.Database.{LeechStatus, normal, freeleech}
use liquid.Handler.{Tracker, get_user, with_user}

-- `usrMap.at(passkey)->…`: a passkey that is not there throws.
abbrev user_at : Bytes → Tracker → Outcome (Option ℕ)
user_at passkey t = do address ← or_stop (find passkey t.usr_map) out_of_range; ok (some address)

unfoldable pub add_ip_restriction : Platform → Request → Tracker → Outcome Tracker
add_ip_restriction os req t = do
  ip ← at req (codes "ip")
  lip ← stoul ip
  passkey ← at req (codes "passkey")
  u ← user_at passkey t
  with_user u (user_add_ip (long2ip os (lip % u32))) t

unfoldable pub remove_ip_restriction : Platform → Request → Tracker → Outcome Tracker
remove_ip_restriction os req t = do
  ip ← at req (codes "ip")
  lip ← stoul ip
  passkey ← at req (codes "passkey")
  u ← user_at passkey t
  with_user u (user_remove_ip (long2ip os (lip % u32))) t

unfoldable pub add_token : ℕ → Request → Bytes → Tracker → Outcome Tracker
add_token now req info_hash t = do
  tor ← or_stop (find info_hash t.tor_map) out_of_range
  passkey ← at req (codes "passkey")
  u ← user_at passkey t
  with_user u (user_add_token tor.id now) t

unfoldable pub remove_token : Request → Bytes → Tracker → Outcome Tracker
remove_token req info_hash t = do
  tor ← or_stop (find info_hash t.tor_map) out_of_range
  passkey ← at req (codes "passkey")
  u ← user_at passkey t
  with_user u (user_remove_token tor.id) t

move_user : Bytes → Bytes → Option ℕ → Tracker → Tracker
move_user old_passkey new_passkey none t = t
move_user old_passkey new_passkey (some u) t = record t {
  usr_map = emplace new_passkey u (erase old_passkey t.usr_map);
}

unfoldable pub change_passkey : Request → Tracker → Outcome Tracker
unfolding move_user
change_passkey req t = do
  old_passkey ← at req (codes "old_passkey")
  new_passkey ← at req (codes "new_passkey")
  ok (move_user old_passkey new_passkey (get_user old_passkey t) t)

-- A torrent that is there already is kept, and only made free.
unfoldable pub add_torrent : Request → Bytes → Tracker → Outcome Tracker
add_torrent req info_hash t = do
  torrent_id ← at req (codes "id")
  id ← stoul torrent_id
  let tor_map = emplace info_hash (new_torrent id 0 0 0) t.tor_map
  freetorrent ← at req (codes "freetorrent")
  ok (record t {
    tor_map =
        if freetorrent == codes "1"
        then modify info_hash (set_free 100) tor_map
        else if freetorrent == codes "2"
        then modify info_hash (set_free 50) tor_map
        else tor_map;
  })

-- The source reads the erased element for the message of its log, which is undefined behaviour; the
-- model has no such message.
unfoldable pub delete_torrent : Bytes → Tracker → Outcome Tracker
delete_torrent info_hash t = ok (record t { tor_map = erase info_hash t.tor_map })

abbrev free_of : Bytes → ℕ
free_of freetorrent =
    if freetorrent == codes "1" then 100 else if freetorrent == codes "2" then 50 else 0

unfoldable pub update_torrent : Request → Bytes → Tracker → Outcome Tracker
update_torrent req info_hash t =
    if has (find info_hash t.tor_map)
    then (do
      freetorrent ← at req (codes "freetorrent")
      ok (record t { tor_map = modify info_hash (set_free (free_of freetorrent)) t.tor_map }))
    else ok t

-- `new User`, at a fresh address; one that `emplace` refuses is leaked.
unfoldable pub add_user : Request → Tracker → Outcome Tracker
add_user req t = do
  passkey ← at req (codes "passkey")
  user_id ← at req (codes "id")
  id ← stoul user_id
  ok (record t {
    heap = emplace t.next_address (new_user (id % u32) true) t.heap;
    next_address = t.next_address + 1;
    usr_map = emplace passkey t.next_address t.usr_map;
  })

authorize : Option ℕ → Bool → Tracker → Outcome Tracker
authorize none authorized t = ok t
authorize (some u) authorized t = with_user (some u) (set_authorized authorized) t

unfoldable pub update_user : Request → Tracker → Outcome Tracker
unfolding authorize
update_user req t = do
  passkey ← at req (codes "passkey")
  can_leech ← at req (codes "can_leech")
  authorize (get_user passkey t) (can_leech == codes "1") t

-- The entry under a passkey goes; the account stays in the heap.
unfoldable pub drop_user : Bytes → Tracker → Tracker
drop_user passkey t =
    if has (get_user passkey t) then record t { usr_map = erase passkey t.usr_map } else t

unfoldable pub remove_user : Request → Tracker → Outcome Tracker
unfolding drop_user
remove_user req t = do passkey ← at req (codes "passkey"); ok (drop_user passkey t)

-- The loop over a text of passkeys, 32 bytes each; the last may be shorter.
unfoldable pub remove_each : ℕ → Bytes → Tracker → Tracker
unfolding drop_user
remove_each zero passkeys t = t
remove_each (suc fuel) [] t = t
remove_each (suc fuel) (c ∷ cs) t =
    remove_each fuel (drop 32 (c ∷ cs)) (drop_user (take 32 (c ∷ cs)) t)

unfoldable pub remove_users : Request → Tracker → Outcome Tracker
unfolding remove_each
remove_users req t = do
  passkeys ← at req (codes "passkeys")
  ok (remove_each (length passkeys) passkeys t)

-- `while (from != to) emplace(long2ip(from++)); emplace(long2ip(from));` on unsigned ints.
unfoldable pub ban_range : Platform → ℕ → ℕ → ℕ → Texts → Texts
ban_range os zero from to banned = banned
ban_range os (suc fuel) from to banned =
    let added = emplace (long2ip os from) tt banned in
    let more = ban_range os fuel ((from + 1) % u32) to added in if from != to then more else added

unfoldable pub unban_range : Platform → ℕ → ℕ → ℕ → Texts → Texts
unban_range os zero from to banned = banned
unban_range os (suc fuel) from to banned =
    let removed = erase (long2ip os from) banned in
    let more = unban_range os fuel ((from + 1) % u32) to removed in
    if from != to then more else removed

-- The addresses of a range, and so the rounds of the loop: it goes up to `to`, past 2^32 - 1 if
-- need be.
abbrev pub range_size : ℕ → ℕ → ℕ
range_size from to = (to + (u32 - from)) % u32 + 1

unfoldable pub add_ban : Platform → Request → Tracker → Outcome Tracker
unfolding ban_range
add_ban os req t = do
  fromip ← at req (codes "fromip")
  from ← stoul fromip
  toip ← at req (codes "toip")
  to ← stoul toip
  let from = from % u32
  let to = to % u32
  ok (record t { banned_ips = ban_range os (range_size from to) from to t.banned_ips })

unfoldable pub remove_ban : Platform → Request → Tracker → Outcome Tracker
unfolding unban_range
remove_ban os req t = do
  fromip ← at req (codes "fromip")
  from ← stoul fromip
  toip ← at req (codes "toip")
  to ← stoul toip
  let from = from % u32
  let to = to % u32
  ok (record t { banned_ips = unban_range os (range_size from to) from to t.banned_ips })

unfoldable pub add_whitelist : Request → Tracker → Outcome Tracker
add_whitelist req t = do
  peer_id ← at req (codes "peer_id")
  ok (record t { client_whitelist = t.client_whitelist ++ peer_id ∷ [] })

-- `list::remove`.
abbrev pub remove : Bytes → List Bytes → List Bytes
remove x = filter (λ y. y != x)

unfoldable pub edit_whitelist : Request → Tracker → Outcome Tracker
edit_whitelist req t = do
  old_peer_id ← at req (codes "old_peer_id")
  new_peer_id ← at req (codes "new_peer_id")
  ok (record t { client_whitelist = remove old_peer_id t.client_whitelist ++ new_peer_id ∷ [] })

unfoldable pub remove_whitelist : Request → Tracker → Outcome Tracker
remove_whitelist req t = do
  peer_id ← at req (codes "peer_id")
  ok (record t { client_whitelist = remove peer_id t.client_whitelist })

unfoldable pub set_leech_status : Request → Tracker → Outcome Tracker
set_leech_status req t = do
  leech_status ← at req (codes "leech_status")
  ok (record t { leech_status = if leech_status == codes "freeleech" then freeleech else normal })

-- `infoHashes->front()` of an empty list is undefined.
abbrev pub front : List Bytes → Outcome Bytes
front [] = stop undefined
front (info_hash ∷ _) = ok info_hash

-- The ladder of `update` over the type of the request; an unknown type does nothing.
unfoldable pub dispatch : Platform → ℕ → Bytes → Request → List Bytes → Tracker → Outcome Tracker
dispatch os now type req info_hashes t =
    if type == codes "change_passkey"
    then change_passkey req t
    else if type == codes "add_torrent"
    then (do h ← front info_hashes; add_torrent req h t)
    else if type == codes "delete_torrent"
    then (do h ← front info_hashes; delete_torrent h t)
    else if type == codes "update_torrent"
    then (do h ← front info_hashes; update_torrent req h t)
    else if type == codes "add_user"
    then add_user req t
    else if type == codes "update_user"
    then update_user req t
    else if type == codes "remove_user"
    then remove_user req t
    else if type == codes "remove_users"
    then remove_users req t
    else if type == codes "add_token"
    then (do h ← front info_hashes; add_token now req h t)
    else if type == codes "remove_token"
    then (do h ← front info_hashes; remove_token req h t)
    else if type == codes "add_ban"
    then add_ban os req t
    else if type == codes "remove_ban"
    then remove_ban os req t
    else if type == codes "add_ip_restriction"
    then add_ip_restriction os req t
    else if type == codes "remove_ip_restriction"
    then remove_ip_restriction os req t
    else if type == codes "add_whitelist"
    then add_whitelist req t
    else if type == codes "edit_whitelist"
    then edit_whitelist req t
    else if type == codes "remove_whitelist"
    then remove_whitelist req t
    else if type == codes "set_leech_status"
    then set_leech_status req t
    else ok t

unfoldable pub update : Platform → ℕ → Request → List Bytes → Tracker → Outcome (Bytes × Tracker)
update os now req info_hashes t = do
  type ← at req (codes "type")
  t' ← dispatch os now type req info_hashes t
  ok (response (codes "success") false, t')

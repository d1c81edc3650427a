-- ===== src/Handler/Announce.antt =====
-- `RequestHandler::announce`. Its stages work on the torrent that the request names; what they
-- share is a `Work`. The torrent goes back into the map at the end: nothing else reads it before.
pub mod Reply
pub mod Depart
pub mod Grounded
pub mod Sound
pub mod Valid
pub mod Total
pub mod Joined
pub mod Steady
pub mod Worked
use liquid.Base.{
  ℕ, zero, suc, ◌+◌, ◌-◌, ◌*◌, ◌/◌, ◌%◌, Bool, true, false, not, ◌&&◌, ◌||◌, List, [], ◌∷◌, ◌++◌,
  Option, none, some, Bytes, take, length, ◌==◌, ◌!=◌, bytes_eq, nat_eq, if◌then◌else◌,
}
use liquid.Base.Dict.{find, emplace, modify, has}
use liquid.Base.Outcome.{Outcome, ok, stop, undefined, out_of_range, ◌>>=◌, or_stop, catch}
use liquid.Base.Words.{u32, u64, add64, sub64}
use liquid.Base.Text.{codes}
use liquid.Base.Int.{stoul}
use liquid.Platform.{Platform, Env}
use liquid.Config.{Vars, is_private, is_public}
use liquid.Stats.{inc_peers, dec_peers, inc_torrents}
use liquid.User.{is_authorized, has_token, is_token_expired, update_stats as user_update_stats}
use liquid.Peer.{Peer, update_stats, count_stats, complete, inactive}
use liquid.Peers.{Request, at, Peers, get_peer, set_peer, add_peer, remove_peer}
use liquid.Torrent.{
  Torrent, new_torrent, inc_snatches, set_balance, Swarm, seeding, seeding6, leeching, leeching6,
  get_swarm, set_swarm,
}
use liquid.Database.{
  freeleech, normal, LeechStatus, deref, record_token, record_peer, record_user, record_torrent,
}
use liquid.Handler.{Tracker, get_user, with_user}

-- A pointer to a peer: the swarm that it is in, and its id.
pub record PeerRef : Type 0 where
  pub swarm : Swarm
  pub peer_id : Bytes

-- The variables of the function: the tracker, `*tor`, `peer`, `free`, `peers`, `peers6`.
pub record Work : Type 0 where
  pub tracker : Tracker
  pub torrent : Torrent
  pub peer : Option PeerRef
  pub free : ℕ
  pub peers : Option Swarm
  pub peers6 : Option Swarm

abbrev pub begin : Tracker → Torrent → Work
begin t tor = record {
  tracker = t;
  torrent = tor;
  peer = none;
  free = 0;
  peers = none;
  peers6 = none;
}

-- `tor->getLeechers6()` for IPv6, else `tor->getLeechers()`; so for the seeders.
abbrev pub leechers_of : Bool → Swarm
leechers_of ipv6 = if ipv6 then leeching6 else leeching

abbrev pub seeders_of : Bool → Swarm
seeders_of ipv6 = if ipv6 then seeding6 else seeding

-- `peer->`.
unfoldable pub read_peer : Option PeerRef → Torrent → Outcome Peer
read_peer none tor = stop undefined
read_peer (some r) tor = or_stop (get_peer r.peer_id (get_swarm r.swarm tor)) undefined

unfoldable pub write_peer : Option PeerRef → (Peer → Peer) → Torrent → Torrent
write_peer none f tor = tor
write_peer (some r) f tor = set_swarm r.swarm (set_peer r.peer_id f (get_swarm r.swarm tor)) tor

-- The client's peer id begins with an entry of the list.
unfoldable pub whitelisted : List Bytes → Bytes → Bool
whitelisted [] peer_id = false
whitelisted (it ∷ its) peer_id = (take (length it) peer_id == it) || whitelisted its peer_id

-- A public tracker takes up any torrent, numbered by the count of torrents.
unfoldable pub open_torrent : Vars → Bytes → Tracker → Tracker
open_torrent vars info_hash t =
    if is_public vars && not (has (find info_hash t.tor_map))
    then record t {
      tor_map = emplace info_hash (new_torrent t.stats.torrents 0 0 0) t.tor_map;
      stats = inc_torrents t.stats;
    }
    else t

-- `std::stoul(req->at("corrupt"))`, 0 where that throws.
unfoldable pub corrupt_of : Request → Outcome ℕ
corrupt_of req = catch (do corrupt ← at req (codes "corrupt"); stoul corrupt) 0

-- The download that a peer is charged for: `1 - free / 100` is in whole numbers.
abbrev pub charged : ℕ → ℕ → ℕ
charged free downloaded = downloaded * (1 - free / 100) % u64

module _ (os : Platform) (env : Env) (vars : Vars) (req : Request) (ipv6 : Bool) where
  -- `addPeer` on a swarm of the torrent.
  unfoldable pub enter : Swarm → Work → Outcome Work
  enter swarm w = do
    peer_id ← at req (codes "peer_id")
    ps ← add_peer os env vars w.tracker.usr_map req w.torrent.id ipv6 (get_swarm swarm w.torrent)
    ok (record w {
      tracker = record (w.tracker) { stats = inc_peers w.tracker.stats };
      torrent = set_swarm swarm ps w.torrent;
      peer = some (record { swarm = swarm; peer_id = peer_id });
    })

  -- `getPeer` in the first swarm of a list that has the peer, else `addPeer` on the last argument.
  unfoldable pub obtain : List Swarm → Swarm → Work → Outcome Work
  unfolding enter
  obtain [] swarm w = enter swarm w
  obtain (s ∷ ss) swarm w = do
    peer_id ← at req (codes "peer_id")
    let found = get_peer peer_id (get_swarm s w.torrent)
    if has found
        then ok (record w { peer = some (record { swarm = s; peer_id = peer_id }) })
        else obtain ss swarm w

  -- What a private tracker grants: the torrent's own rate, everything, or a token's.
  unfoldable pub grant : Work → Outcome Work
  grant w = do
    let free : ℕ = elim w.tracker.leech_status [ freeleech ↦ 100 | normal ↦ w.torrent.free ]
    peer ← read_peer w.peer w.torrent
    u ← deref w.tracker.heap peer.user
    if has_token w.torrent.id u
        then (do
          downloaded ← at req (codes "downloaded")
          downloaded ← stoul downloaded
          let db =
              record_token u.id w.torrent.id (sub64 peer.total_downloaded downloaded)
                (is_token_expired env.checked w.torrent.id u) w.tracker.db
          ok (record w { tracker = record (w.tracker) { db = db }; free = 100 }))
        else ok (record w { free = free })

  -- `if (left != "0" || event == "completed")`.
  unfoldable pub leech : Work → Outcome Work
  unfolding obtain grant
  leech w = do
    w ← obtain (leechers_of ipv6 ∷ []) (leechers_of ipv6) w
    w ← (if is_private vars then grant w else ok w)
    event ← at req (codes "event")
    let tor =
        if event == codes "completed"
        then inc_snatches (write_peer w.peer complete w.torrent)
        else w.torrent
    ok (record w {
      torrent = tor;
      peers = some seeding;
      peers6 = if ipv6 then some seeding6 else w.peers6;
    })

  -- `if (left == "0")`; a peer is looked for among the IPv4 leechers in either family.
  unfoldable pub seed : Work → Outcome Work
  unfolding obtain
  seed w = do
    w ← obtain (seeders_of ipv6 ∷ leeching ∷ []) (seeders_of ipv6) w
    ok (record w { peers = some leeching; peers6 = if ipv6 then some leeching6 else w.peers6 })

  unfoldable pub join : Work → Outcome Work
  unfolding leech seed
  join w = do
    left ← at req (codes "left")
    event ← at req (codes "event")
    w ← (if (left != codes "0") || (event == codes "completed") then leech w else ok w)
    w ← (if left == codes "0" then seed w else ok w)
    ok (
        if event == codes "stopped"
        then record w { torrent = write_peer w.peer inactive w.torrent }
        else w)

  -- The traffic of a private tracker; the balance that it gives the torrent.
  unfoldable pub account : ℕ → Work → Outcome (ℕ × Work)
  account corrupt w = do
    before ← read_peer w.peer w.torrent
    downloaded ← at req (codes "downloaded")
    downloaded ← stoul downloaded
    uploaded ← at req (codes "uploaded")
    uploaded ← stoul uploaded
    left ← at req (codes "left")
    left ← stoul left
    let change = update_stats (charged w.free downloaded) uploaded left corrupt env.now
    let after = change before
    let balance = sub64 (sub64 0 (sub64 before.corrupt corrupt)) after.downloaded
    ok (
      add64 balance after.uploaded,
      record w {
        tracker = record (w.tracker) { stats = count_stats os before after w.tracker.stats };
        torrent = write_peer w.peer change w.torrent;
      },
    )

  -- `db->recordPeer(peer)`.
  unfoldable pub write_back : Work → Outcome Work
  write_back w = do
    peer ← read_peer w.peer w.torrent
    (peer', db) ← record_peer vars w.tracker.heap peer w.tracker.db
    ok (record w {
      tracker = record (w.tracker) { db = db };
      torrent = write_peer w.peer (λ _. peer') w.torrent;
    })

  -- The account's traffic grows, and is written to the database.
  unfoldable pub credit : Work → Outcome Work
  credit w = do
    peer ← read_peer w.peer w.torrent
    t ← with_user peer.user (user_update_stats peer.downloaded peer.uploaded) w.tracker
    u ← deref t.heap peer.user
    let (u', db) = record_user u t.db
    t ← with_user peer.user (λ _. u') t
    ok (record w { tracker = record t { db = db } })

  -- Lines 157 to 169.
  unfoldable pub settle : ℕ → Work → Outcome Work
  unfolding account write_back credit
  settle corrupt w = do
    (balance, w) ← (if is_private vars then account corrupt w else ok (0, w))
    let w = record w { torrent = set_balance balance w.torrent }
    w ← (if is_public vars then ok w else write_back w)
    if is_private vars then credit w else ok w

  -- `removePeer` on a swarm of the torrent.
  unfoldable pub leave : Swarm → Work → Outcome Work
  leave swarm w = do
    ps ← remove_peer req (get_swarm swarm w.torrent)
    ok (record w {
      tracker = record (w.tracker) { stats = dec_peers w.tracker.stats };
      torrent = set_swarm swarm ps w.torrent;
    })

  -- A peer that stops leaves its swarm; one that completes is taken from the leechers of the other
  -- family of addresses.
  unfoldable pub depart : Work → Outcome Work
  unfolding leave
  depart w = do
    event ← at req (codes "event")
    left ← at req (codes "left")
    w ←
        (if event == codes "stopped"
          then leave (if left != codes "0" then leechers_of ipv6 else seeders_of ipv6) w
          else ok w)
    w ← (if event == codes "completed" then leave (leechers_of (not ipv6)) w else ok w)
    ok (
        if is_public vars then w else record w {
          tracker = record (w.tracker) { db = record_torrent w.torrent w.tracker.db };
        })

  -- All that an accepted announce changes before its reply.
  unfoldable pub work : ℕ → Work → Outcome Work
  unfolding join settle depart
  work corrupt w = do w ← join w; w ← settle corrupt w; depart w

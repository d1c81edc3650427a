-- ===== src/Peers.antt =====
-- src/handler/peers.cpp: a swarm, the peers of one kind on a torrent by their ids, and the iterator
-- that `nextPeer` moves along. An iterator whose element is erased is dangling, and to use it is
-- undefined. An insertion is taken to leave iterators alone.
pub mod Rotation
pub mod Kept
pub mod Rotates
pub mod TimedOut
use liquid.Base.{
  ℕ, zero, suc, ◌+◌, Bool, true, false, List, [], ◌∷◌, Option, none, some, Bytes, length, ◌==◌,
  ◌!=◌, bytes_eq, if◌then◌else◌,
}
use liquid.Base.Dict.{Dict, find, emplace, erase, modify}
use liquid.Base.Outcome.{Outcome, ok, stop, undefined, out_of_range, ◌>>=◌, or_stop}
use liquid.Base.Text.{codes}
use liquid.Base.Int.{stoul}
use liquid.Platform.{Platform, Env}
use liquid.Config.{Vars, is_private, is_public}
use liquid.Peer.{Peer, new_peer, timed_out, inactive}

-- inc/misc/parser.hpp: the parameters of a request.
abbrev pub Request : Type 0
Request = Dict Bytes Bytes

-- `req.at(name)`.
abbrev pub at : Request → Bytes → Outcome Bytes
at req name = or_stop (find name req) out_of_range

abbrev pub PeerMap : Type 0
PeerMap = Dict Bytes Peer

-- The iterator: past the end, at the element with this id, or at one that is gone.
pub data Cursor : Type 0 where
  past_end : Cursor
  element : Bytes → Cursor
  dangling : Cursor

pub record Peers : Type 0 where
  pub it : Cursor
  pub p_map : PeerMap

unfoldable pub no_peers : Peers
no_peers = record { it = past_end; p_map = [] }

unfoldable pub get_peer : Bytes → Peers → Option Peer
get_peer peer_id ps = find peer_id ps.p_map

-- A write through the pointer that `getPeer` returns.
unfoldable pub set_peer : Bytes → (Peer → Peer) → Peers → Peers
set_peer peer_id f ps = record ps { p_map = modify peer_id f ps.p_map }

-- `addPeer`, with the account that `getUser` finds in a private tracker. It returns the pointer to
-- the entry under the id, which is the new one or one that was there; `Stats::incPeers` is the
-- caller's.
unfoldable pub add_peer :
    Platform → Env → Vars → Dict Bytes ℕ → Request → ℕ → Bool → Peers → Outcome Peers
add_peer os env vars usr_map req torrent_id ipv6 ps = do
  user ←
      (if is_private vars
        then (do passkey ← at req (codes "reqpasskey"); ok (find passkey usr_map))
        else ok none)
  peer_id ← at req (codes "peer_id")
  ip ← at req (codes "ip")
  port ← at req (codes "port")
  left ← at req (codes "left")
  left ← stoul left
  downloaded ← at req (codes "downloaded")
  downloaded ← stoul downloaded
  uploaded ← at req (codes "uploaded")
  uploaded ← stoul uploaded
  client ← at req (codes "user-agent")
  peer ← new_peer os env ip port user left downloaded uploaded torrent_id client peer_id ipv6
  ok (record ps { p_map = emplace peer_id peer ps.p_map })

-- Where the iterator is after the element under `key` is erased.
abbrev cursor_without : Bytes → Cursor → Cursor
cursor_without key past_end = past_end
cursor_without key (element k) = if k == key then dangling else element k
cursor_without key dangling = dangling

-- `pMap.erase(key)`.
unfoldable pub remove_key : Bytes → Peers → Peers
remove_key key ps = record { it = cursor_without key ps.it; p_map = erase key ps.p_map }

-- `removePeer`; `Stats::decPeers` is the caller's, whether or not the peer was there.
unfoldable pub remove_peer : Request → Peers → Outcome Peers
unfolding remove_key
remove_peer req ps = do peer_id ← at req (codes "peer_id"); ok (remove_key peer_id ps)

-- `std::next` of the iterator at `key`.
unfoldable pub next : Bytes → PeerMap → Cursor
next key [] = past_end
next key ((k, _) ∷ []) = past_end
next key ((k, _) ∷ (j, q) ∷ rest) = if k == key then element j else next key ((j, q) ∷ rest)

at_key : Bytes → Peers → Option Peer → Outcome (Option Peer × Peers)
unfolding next
at_key key ps none = stop undefined
at_key key ps (some peer) = ok (some peer, record ps { it = next key ps.p_map })

-- The loop of `nextPeer` on a map that is not empty; it goes round twice at most.
next_in : Cursor → PeerMap → Peers → Outcome (Option Peer × Peers)
unfolding at_key
next_in past_end [] ps = ok (none, ps)
next_in past_end ((k, peer) ∷ rest) ps =
    ok (some peer, record ps { it = next k ((k, peer) ∷ rest) })
next_in (element k) m ps = at_key k ps (find k m)
next_in dangling m ps = stop undefined

from_first : Peers → PeerMap → Outcome (Option Peer × Peers)
unfolding next_in
from_first ps [] = ok (none, ps)
from_first ps (entry ∷ rest) = next_in ps.it (entry ∷ rest) ps

unfoldable pub next_peer : Peers → Outcome (Option Peer × Peers)
unfolding from_first
next_peer ps = from_first ps ps.p_map

unfoldable pub size : Peers → ℕ
size ps = length ps.p_map

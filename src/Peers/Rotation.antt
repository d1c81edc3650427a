-- ===== src/Peers/Rotation.antt =====
-- `nextPeer` goes round the swarm: a run of calls meets the peers in the order of the map from the
-- iterator on, then from the first.
use liquid.Base.{◌≡◌, refl, ◌≢◌, [], ◌∷◌, ◌++◌, none, some, Bytes, arith, bytes_eq, bytes_beq_iff}
use liquid.Base.Dict.{find, find-append, erase, find-erase}
use liquid.Base.Outcome.{ok, stop, undefined}
use liquid.Peer.{Peer}
use liquid.Peers.{
  Peers, PeerMap, Cursor, past_end, element, dangling, next, next_peer, remove_key, from_first,
  next_in,
}

-- The iterator at the first element of what is left.
abbrev pub cursor_at : PeerMap → Cursor
cursor_at [] = past_end
cursor_at ((k, _) ∷ _) = element k

-- The swarm with its iterator between two parts of the map.
abbrev pub at_parts : PeerMap → PeerMap → Peers
at_parts before after = record { it = cursor_at after; p_map = before ++ after }

next_middle :
    (before after : PeerMap) (k : Bytes) (p : Peer)
    → find k before ≡ none
    → next k (before ++ (k, p) ∷ after) ≡ cursor_at after
unfolding next find
next_middle [] [] k p h = refl
next_middle [] ((j, q) ∷ after) k p h = ground (arith, bytes_beq_iff k k)
next_middle ((b, r) ∷ []) after k p h =
    ground (arith, next_middle [] after k p refl, bytes_beq_iff b k)
next_middle ((b, r) ∷ (c, s) ∷ before) after k p h =
    ground (arith, next_middle ((c, s) ∷ before) after k p, bytes_beq_iff b k)

find_middle :
    (before after : PeerMap) (k : Bytes) (p : Peer)
    → find k before ≡ none
    → find k (before ++ (k, p) ∷ after) ≡ some p
unfolding find
find_middle before after k p h =
    ground (arith, find-append k before ((k, p) ∷ after), bytes_beq_iff k k)

pub next_peer_within :
    (before after : PeerMap) (k : Bytes) (p : Peer)
    → find k before ≡ none
    → next_peer (at_parts before ((k, p) ∷ after))
      ≡ ok (some p, record { it = cursor_at after; p_map = before ++ (k, p) ∷ after })
unfolding next_peer
next_peer_within [] after k p h = rw (find_middle [] after k p h, next_middle [] after k p h)
next_peer_within (b ∷ before) after k p h =
    rw (find_middle (b ∷ before) after k p h, next_middle (b ∷ before) after k p h)

-- Past the end, the loop starts again at the first element.
pub next_peer_wraps :
    (k : Bytes) (p : Peer) (m : PeerMap)
    → next_peer (record { it = past_end; p_map = (k, p) ∷ m })
      ≡ next_peer (at_parts [] ((k, p) ∷ m))
unfolding next_peer find
next_peer_wraps k p m = ground (arith, bytes_beq_iff k k)

from_first_dangling :
    (j : Bytes) (q : Peer) (ps : Peers) (m : PeerMap)
    → ps.it ≡ dangling
    → find j m ≡ some q
    → from_first ps m ≡ stop undefined
unfolding find from_first
from_first_dangling j q ps [] gone h = cc
from_first_dangling j q ps (entry ∷ m) gone h = rw (gone, next_in)

-- A swarm that loses the peer at its iterator, and keeps another: the next call of `nextPeer` is
-- undefined behaviour.
pub next_peer-remove_key :
    (k j : Bytes) (q : Peer) (ps : Peers)
    → ps.it ≡ element k
    → find j ps.p_map ≡ some q
    → j ≢ k
    → next_peer (remove_key k ps) ≡ stop undefined
unfolding next_peer remove_key
next_peer-remove_key k j q ps at_k found other =
    from_first_dangling j q (remove_key k ps) (erase k ps.p_map) (ground (arith, bytes_beq_iff k k))
      (ground (arith, find-erase k j ps.p_map, bytes_beq_iff k j))

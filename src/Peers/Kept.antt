-- ===== src/Peers/Kept.antt =====
-- `nextPeer` (src/handler/peers.cpp) moves the iterator and nothing else.
use liquid.Base.{◌≡◌, refl, Option, none, some, [], ◌∷◌, Bytes, bytes_eq}
use liquid.Base.Dict.{find}
use liquid.Base.Outcome.{Ends, Ends-ok}
use liquid.Peer.{Peer}
use liquid.Peers.{
  Peers, PeerMap, Cursor, past_end, element, dangling, next_peer, next_in, at_key, from_first,
}

-- The swarm beside a result has the same peers.
abbrev pub SamePeers {ℓ} : {A : Type ℓ} → Peers → A × Peers → Type 0
SamePeers ps r = r.1.p_map ≡ ps.p_map

at_key-SamePeers : (k : Bytes) (ps : Peers) (o : Option Peer) → Ends (SamePeers ps) (at_key k ps o)
unfolding at_key
at_key-SamePeers k ps none r e = absurd (cc)
at_key-SamePeers k ps (some p) r e = Ends-ok (SamePeers ps) _ refl r e

next_in-SamePeers : (c : Cursor) (m : PeerMap) (ps : Peers) → Ends (SamePeers ps) (next_in c m ps)
unfolding next_in
next_in-SamePeers past_end [] ps r e = Ends-ok (SamePeers ps) _ refl r e
next_in-SamePeers past_end ((k, p) ∷ m) ps r e = Ends-ok (SamePeers ps) _ refl r e
next_in-SamePeers (element k) m ps r e = at_key-SamePeers k ps (find k m) r e
next_in-SamePeers dangling m ps r e = absurd (cc)

from_first-SamePeers : (ps : Peers) (m : PeerMap) → Ends (SamePeers ps) (from_first ps m)
unfolding from_first
from_first-SamePeers ps [] r e = Ends-ok (SamePeers ps) _ refl r e
from_first-SamePeers ps (x ∷ m) r e = next_in-SamePeers ps.it (x ∷ m) ps r e

pub next_peer-SamePeers : (ps : Peers) → Ends (SamePeers ps) (next_peer ps)
unfolding next_peer
next_peer-SamePeers ps = from_first-SamePeers ps ps.p_map

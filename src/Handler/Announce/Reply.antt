-- ===== src/Handler/Announce/Reply.antt =====
-- The reply of `announce`, and `getPeers`.
pub mod Length
pub mod Kept
pub mod Ends
use liquid.Base.{
  ℕ, zero, suc, ◌+◌, ◌*◌, Bool, true, false, ◌&&◌, List, [], ◌∷◌, ◌++◌, Option, none, some, Bytes,
  length, take, ltb, ◌==◌, ◌!=◌, bytes_eq, if◌then◌else◌,
}
use liquid.Base.Dict.{find}
use liquid.Base.Outcome.{Outcome, ok, stop, undefined, ◌>>=◌, or_stop, catch}
use liquid.Base.Text.{codes, to_string}
use liquid.Base.Int.{ℤ, pos, pos_part, ◌-ℤ◌, ◌+ℤ◌, scale, min_ℤ, ltb_ℤ, stoi, to_string_ℤ}
use liquid.Config.{Vars, get, get_int}
use liquid.Peer.{Peer}
use liquid.Peers.{Request, at, Peers, next_peer, size}
use liquid.Torrent.{Torrent, Swarm, get_swarm, set_swarm}
use liquid.Response.{response}

-- A peer in a reply that is not compact.
unfoldable pub peer_entry : Peer → Bytes
peer_entry p =
    codes "7:peer id"
    ++ (to_string (length p.peer_id)
        ++ (codes ":"
            ++ (p.peer_id
                ++ (codes "2:ip"
                    ++ (to_string (length p.ip)
                        ++ (codes ":"
                            ++ (p.ip
                                ++ (codes "4:port"
                                    ++ (to_string (length p.port) ++ (codes ":" ++ p.port))))))))))

pub listed : Bool → Option Peer → Bytes
unfolding peer_entry
listed compact none = []
listed compact (some p) = if compact then p.hex_ip_port else peer_entry p

-- The loop of `getPeers`, on the rounds that are left.
unfoldable pub collect : Bool → ℕ → Peers → Outcome (Bytes × Peers)
unfolding listed
collect compact zero ps = ok ([], ps)
collect compact (suc n) ps = do
  (p, ps') ← next_peer ps
  (rest, ps') ← collect compact n ps'
  ok (listed compact p ++ rest, ps')

abbrev pub entry_size : Bool → ℕ
entry_size ipv6 = if ipv6 then 18 else 6

-- `getPeers`: a number of peers below 0 makes no round. The source multiplies in
-- ints: the model is the source's where the product with the size of an entry is an int.
unfoldable pub get_peers : Peers → ℤ → Bool → Bool → Outcome (Bytes × Peers)
unfolding collect
get_peers ps numwant ipv6 compact = do
  (entries, ps') ← collect compact (pos_part numwant) ps
  let head = if ipv6 then codes "6:peers6" else codes "5:peers"
  ok (
      if compact
      then (head ++ (to_string_ℤ (scale (entry_size ipv6) numwant) ++ (codes ":" ++ entries)), ps')
      else (head ++ (codes "d" ++ (entries ++ codes "e")), ps'))

-- `string::find(text) != npos`.
unfoldable pub mentions : Bytes → Bytes → Bool
mentions text [] = text == []
mentions text (c ∷ cs) = if take (length text) (c ∷ cs) == text then true else mentions text cs

abbrev int_or : ℤ → Outcome ℤ → ℤ
int_or d (ok n) = n
int_or d (stop _) = d

-- `*peers` and `*peers6`: a null pointer is undefined behaviour.
abbrev swarm_of : Option Swarm → Outcome Swarm
swarm_of s = or_stop s undefined

-- A parameter `compact` that is 0 asks for the long form.
abbrev pub is_compact : Option Bytes → Bool
is_compact none = true
is_compact (some value) = value != codes "0"

-- The number of peers wanted, and those of IPv6 among them.
unfoldable pub share : Vars → ℤ → ℕ → ℕ → Bool → ℤ × ℤ
share vars wanted size4 size6 ipv6 =
    let most = get_int vars (codes "max_numwant") in
    let i = min_ℤ (min_ℤ wanted most) (pos size4) in
    let j = if ipv6 then min_ℤ (min_ℤ i most) (pos size6) else pos 0 in (i -ℤ j, j)

-- The dictionary around the lists of peers.
unfoldable pub announce_body : Vars → Torrent → Bytes → Bytes
announce_body vars tor lists =
    codes "d8:completei"
    ++ (to_string (size tor.seeders + size tor.seeders6)
        ++ (codes "e10:incompletei"
            ++ (to_string (size tor.leechers + size tor.leechers6)
                ++ (codes "e10:downloadedi"
                    ++ (to_string tor.snatches
                        ++ (codes "e8:intervali"
                            ++ (get vars (codes "default_announce_interval")
                                ++ (codes "e12:min intervali"
                                    ++ (get vars (codes "min_announce_interval")
                                        ++ (codes "e" ++ (lists ++ codes "e")))))))))))

module _ (vars : Vars) (req : Request) (ipv6 : Bool) where
  unfoldable pub counts : Torrent → Option Swarm → Option Swarm → Outcome (ℤ × ℤ)
  unfolding share
  counts tor peers peers6 = do
    event ← at req (codes "event")
    if event == codes "stopped" then ok (pos 0, pos 0) else (do
      let asked = do numwant ← at req (codes "numwant"); stoi numwant
      let wanted = int_or (get_int vars (codes "default_numwant")) asked
      s ← swarm_of peers
      s6 ← (if ipv6 then swarm_of peers6 else ok s)
      ok (share vars wanted (size (get_swarm s tor)) (size (get_swarm s6 tor)) ipv6))

  -- The list of one family, with the torrent whose iterator has moved.
  unfoldable pub list_swarm : Option Swarm → ℤ → Bool → Torrent → Outcome (Bytes × Torrent)
  list_swarm peers n six tor = do
    s ← swarm_of peers
    (text, ps) ← get_peers (get_swarm s tor) n six (is_compact (find (codes "compact") req))
    ok (text, set_swarm s ps tor)

  -- The flag for compression, which `response` does not look at.
  abbrev wants_gzip : ℤ → ℤ → Outcome Bool
  wants_gzip i j =
      catch
        (do
          encoding ← at req (codes "accept-encoding")
          ok (mentions (codes "gzip") encoding && ltb_ℤ (pos 100) (scale 6 i +ℤ scale 18 j)))
        false

  -- The reply of an accepted announce, and the torrent after it.
  unfoldable pub reply : Torrent → Option Swarm → Option Swarm → Outcome (Bytes × Torrent)
  unfolding counts list_swarm mentions
  reply tor peers peers6 = do
    (i, j) ← counts tor peers peers6
    (peerlist6, tor) ← (if ltb_ℤ (pos 0) j then list_swarm peers6 j true tor else ok ([], tor))
    (peerlist, tor) ← list_swarm peers i false tor
    gzip ← wants_gzip i j
    ok (response (announce_body vars tor (peerlist6 ++ peerlist)) gzip, tor)

-- ===== src/Handler/Announce/Total.antt =====
-- What an announce reads of its request, and how it comes by its peer: `enter` and `obtain` end.
use Prim.Native.String.{String}
use mathlib.Core.Option
use liquid.Base.{
  ℕ, ◌≡◌, refl, Bool, arith, List, [], ◌∷◌, Option, none, some, Bytes, bytes_eq, nat_eq,
  bytes_beq_iff, if◌then◌else◌, Option-cases, inl, inr,
}
use liquid.Base.Dict.{Dict, emplace, find, find-modify, find-emplace}
use liquid.Base.Outcome.{ok, Gives, Gives-ok, Gives-bind, Gives-after, Gives-if, ◌>>=◌}
use liquid.Base.Int.{ℤ, stoul, stoi}
use liquid.Base.Text.{codes}
use liquid.Platform.{Platform, Env}
use liquid.Config.{Vars, is_private}
use liquid.Utility.{ip_port_hex_encode}
use liquid.Peer.{Peer, new_peer}
use liquid.Peers.{Request, at, Peers, add_peer, get_peer, set_peer}
use liquid.Torrent.{Torrent, Swarm, seeding, seeding6, leeching, leeching6, get_swarm, set_swarm}
use liquid.Handler.Announce.{PeerRef, Work, read_peer, write_peer, enter, obtain}

abbrev pub Text : Request → String → Type 0
Text req name = (v : Bytes) × (at req (codes name) ≡ ok v)

abbrev pub Number : Request → String → Type 0
Number req name = (v : Bytes) × (n : ℕ) × (at req (codes name) ≡ ok v) × (stoul v ≡ ok n)

-- The parameters that an announce reads are there, and its numbers are numbers.
pub record Readable (req : Request) : Type 0 where
  pub passkey : Text req "reqpasskey"
  pub peer_id : Text req "peer_id"
  pub ip : Text req "ip"
  pub client : Text req "user-agent"
  pub event : Text req "event"
  pub left : Number req "left"
  pub downloaded : Number req "downloaded"
  pub uploaded : Number req "uploaded"
  pub port : (v : Bytes) × (n : ℤ) × (at req (codes "port") ≡ ok v) × (stoi v ≡ ok n)

abbrev pub Any {ℓ} : {A : Type ℓ} → A → Type 0
Any _ = Unit

find_emplaced :
    (k : Bytes) (p : Peer) (m : Dict Bytes Peer) → (q : Peer) × (find k (emplace k p m) ≡ some q)
find_emplaced k p m =
    (Option.get_or (find k m) p, ground (arith, find-emplace k k p m, bytes_beq_iff k k))

-- The pointer to the peer can be followed.
abbrev pub Reads : Work → Type 0
Reads w = (p : Peer) × (read_peer w.peer w.torrent ≡ ok p)

pub get_swarm-set_swarm :
    (s : Swarm) (ps : Peers) (tor : Torrent) → get_swarm s (set_swarm s ps tor) ≡ ps
unfolding get_swarm set_swarm
get_swarm-set_swarm seeding ps tor = refl
get_swarm-set_swarm seeding6 ps tor = refl
get_swarm-set_swarm leeching ps tor = refl
get_swarm-set_swarm leeching6 ps tor = refl

-- What holds of each swarm holds when one is replaced by another of which it holds.
pub set_swarm-each :
    (P : Swarm → Peers → Type 0) (s : Swarm) (ps : Peers) (tor : Torrent)
    → P s ps
    → ((x : Swarm) → P x (get_swarm x tor))
    → (x : Swarm) → P x (get_swarm x (set_swarm s ps tor))
unfolding get_swarm set_swarm
set_swarm-each P seeding ps tor r a seeding = r
set_swarm-each P seeding ps tor r a seeding6 = a seeding6
set_swarm-each P seeding ps tor r a leeching = a leeching
set_swarm-each P seeding ps tor r a leeching6 = a leeching6
set_swarm-each P seeding6 ps tor r a seeding = a seeding
set_swarm-each P seeding6 ps tor r a seeding6 = r
set_swarm-each P seeding6 ps tor r a leeching = a leeching
set_swarm-each P seeding6 ps tor r a leeching6 = a leeching6
set_swarm-each P leeching ps tor r a seeding = a seeding
set_swarm-each P leeching ps tor r a seeding6 = a seeding6
set_swarm-each P leeching ps tor r a leeching = r
set_swarm-each P leeching ps tor r a leeching6 = a leeching6
set_swarm-each P leeching6 ps tor r a seeding = a seeding
set_swarm-each P leeching6 ps tor r a seeding6 = a seeding6
set_swarm-each P leeching6 ps tor r a leeching = a leeching
set_swarm-each P leeching6 ps tor r a leeching6 = r

pub read_peer-write_peer :
    (r : Option PeerRef) (f : Peer → Peer) (tor : Torrent) (p : Peer)
    → read_peer r tor ≡ ok p
    → read_peer r (write_peer r f tor) ≡ ok (f p)
unfolding read_peer write_peer get_peer set_peer
read_peer-write_peer none f tor p e = cc
read_peer-write_peer (some r) f tor p e =
    let ps : Peers = get_swarm r.swarm tor in
    rw
      (
        get_swarm-set_swarm r.swarm (set_peer r.peer_id f ps) tor,
        find-modify r.peer_id r.peer_id f ps.p_map,
      )
      (ground (arith, bytes_beq_iff r.peer_id r.peer_id))

module _ (os : Platform) (env : Env) (vars : Vars) (req : Request) (ipv6 : Bool)
    (can : Readable req) where
  new_peer-Gives :
      (user : Option ℕ) (left downloaded uploaded id : ℕ)
      → Gives Any (
          new_peer os env can.ip.0 can.port.0 user left downloaded uploaded id can.client.0
            can.peer_id.0 ipv6)
  unfolding new_peer ip_port_hex_encode
  new_peer-Gives user left downloaded uploaded id =
      let (port, n, _, e) = can.port in rw e (_, refl, tt)

  add_peer-Gives :
      (usr_map : Dict Bytes ℕ) (id : ℕ) (ps : Peers)
      → Gives
          (λ ps'. (p : Peer) × (find can.peer_id.0 ps'.p_map ≡ some p))
          (add_peer os env vars usr_map req id ipv6 ps)
  unfolding add_peer
  add_peer-Gives usr_map id ps =
      let Q : Peers → Type 0 = λ ps'. (p : Peer) × (find can.peer_id.0 ps'.p_map ≡ some p) in
      let (left, left_n, l1, l2) = can.left in
      let (down, down_n, d1, d2) = can.downloaded in
      let (up, up_n, u1, u2) = can.uploaded in
      Gives-bind Any Q
        (if is_private vars
          then (do passkey ← at req (codes "reqpasskey"); ok (find passkey usr_map))
          else ok none)
        _
        (Gives-if Any (is_private vars)
          (λ _.
            Gives-after Any (at req (codes "reqpasskey")) _ can.passkey.0 can.passkey.1
              (Gives-ok Any _ tt))
          (λ _. Gives-ok Any none tt))
        λ user _. Gives-after Q (at req (codes "peer_id")) _ can.peer_id.0 can.peer_id.1 (
          Gives-after Q (at req (codes "ip")) _ can.ip.0 can.ip.1 (
            Gives-after Q (at req (codes "port")) _ can.port.0 can.port.2 (
              Gives-after Q (at req (codes "left")) _ left l1 (
                Gives-after Q (stoul left) _ left_n l2 (
                  Gives-after Q (at req (codes "downloaded")) _ down d1 (
                    Gives-after Q (stoul down) _ down_n d2 (
                      Gives-after Q (at req (codes "uploaded")) _ up u1 (
                        Gives-after Q (stoul up) _ up_n u2 (
                          Gives-after Q (at req (codes "user-agent")) _ can.client.0 can.client.1 (
                            Gives-bind Any Q
                              (new_peer os env can.ip.0 can.port.0 user left_n down_n up_n id
                                can.client.0 can.peer_id.0 ipv6)
                              _ (new_peer-Gives user left_n down_n up_n id)
                              λ peer _.
                                Gives-ok Q _ (find_emplaced can.peer_id.0 peer ps.p_map)))))))))))

  enter-Gives : (s : Swarm) (w : Work) → Gives Reads (enter os env vars req ipv6 s w)
  unfolding enter read_peer get_peer
  enter-Gives s w =
      let Q : Peers → Type 0 = λ ps'. (p : Peer) × (find can.peer_id.0 ps'.p_map ≡ some p) in
      Gives-after Reads (at req (codes "peer_id")) _ can.peer_id.0 can.peer_id.1 (
        Gives-bind Q Reads
          (add_peer os env vars w.tracker.usr_map req w.torrent.id ipv6 (get_swarm s w.torrent)) _
          (add_peer-Gives w.tracker.usr_map w.torrent.id (get_swarm s w.torrent))
          λ ps (p, e). Gives-ok Reads _ (p, rw (get_swarm-set_swarm s ps w.torrent, e) refl))

  pub obtain-Gives :
      (ss : List Swarm) (s : Swarm) (w : Work) → Gives Reads (obtain os env vars req ipv6 ss s w)
  unfolding obtain
  obtain-Gives [] s w = enter-Gives s w
  obtain-Gives (x ∷ ss) s w =
      Gives-after Reads (at req (codes "peer_id")) _ can.peer_id.0 can.peer_id.1
        (elim (Option-cases (get_peer can.peer_id.0 (get_swarm x w.torrent))) [
          | inl e ↦ rw e (obtain-Gives ss s w)
          | inr (p, e) ↦ rw e (Gives-ok Reads _ (p, (unfold read_peer in rw e refl)))
        ])

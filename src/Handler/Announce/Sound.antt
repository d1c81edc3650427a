-- ===== src/Handler/Announce/Sound.antt =====
-- What an announce does to a swarm keeps its torrent sound.
use liquid.Base.{
  ℕ, ◌≡◌, refl, Bool, true, false, not, ◌||◌, Option, none, some, Bytes, bytes_eq, nat_eq,
  if◌then◌else◌,
}
use liquid.Base.Dict.{
  Dict, find, Distinct-emplace, Distinct-modify, Each-emplace, Each-modify, Each-find,
}
use liquid.Base.Outcome.{
  ok, undefined, or_stop-eq-ok, ◌>>=◌, >>=-eq-ok, ok-injective, Ends, Ends-ok, Ends-bind,
  Ends-after,
}
use liquid.Base.Int.{stoul}
use liquid.Base.Text.{codes}
use liquid.Platform.{Platform, Env}
use liquid.Config.{Vars, is_private}
use liquid.Peers.{Request, at, Peers, add_peer, get_peer, set_peer}
use liquid.Torrent.{
  Torrent, Swarm, seeding, seeding6, leeching, leeching6, get_swarm, set_balance, inc_snatches,
}
use liquid.Database.{Heap}
use liquid.Database.Accounts.{owned, points_to_user}
use liquid.Peer.{Peer, new_peer}
use liquid.Utility.{ip_port_hex_encode}
use liquid.Handler.Clean.Expiry.{IsSound}
use liquid.Handler.Clean.Valid.{Fine}
use liquid.Handler.Valid.{IsSound-set_swarm}
use liquid.Handler.Announce.{PeerRef, read_peer, write_peer}

module _ (vars : Vars) (heap : Heap) where
  IsSound-same :
      (tor tor' : Torrent)
      → ((s : Swarm) → get_swarm s tor' ≡ get_swarm s tor)
      → IsSound vars heap tor
      → IsSound vars heap tor'
  IsSound-same tor tor' e h s = rw (e s) (h s)

  pub set_balance-IsSound :
      (b : ℕ) (tor : Torrent) → IsSound vars heap tor → IsSound vars heap (set_balance b tor)
  unfolding set_balance get_swarm
  set_balance-IsSound b tor = IsSound-same tor (set_balance b tor) (λ s.
      elim s as (λ k. get_swarm k (set_balance b tor) ≡ get_swarm k tor) [
        | seeding ↦ refl
        | seeding6 ↦ refl
        | leeching ↦ refl
        | leeching6 ↦ refl
      ])

  pub inc_snatches-IsSound :
      (tor : Torrent) → IsSound vars heap tor → IsSound vars heap (inc_snatches tor)
  unfolding inc_snatches get_swarm
  inc_snatches-IsSound tor = IsSound-same tor (inc_snatches tor) (λ s.
      elim s as (λ k. get_swarm k (inc_snatches tor) ≡ get_swarm k tor) [
        | seeding ↦ refl
        | seeding6 ↦ refl
        | leeching ↦ refl
        | leeching6 ↦ refl
      ])

  pub write_peer-IsSound :
      (r : Option PeerRef) (f : Peer → Peer) (tor : Torrent)
      → ((p : Peer) → owned vars heap p ≡ true → owned vars heap (f p) ≡ true)
      → IsSound vars heap tor
      → IsSound vars heap (write_peer r f tor)
  unfolding write_peer set_peer
  write_peer-IsSound none f tor h s = s
  write_peer-IsSound (some r) f tor h s =
      IsSound-set_swarm vars heap r.swarm (set_peer r.peer_id f (get_swarm r.swarm tor)) tor
        (Distinct-modify r.peer_id f (get_swarm r.swarm tor).p_map (s r.swarm).0)
        (Each-modify (λ p. owned vars heap p ≡ true) r.peer_id f (get_swarm r.swarm tor).p_map h
          (s r.swarm).1)
        s

  pub read_peer-owned :
      (r : Option PeerRef) (tor : Torrent)
      → IsSound vars heap tor
      → Ends (λ p. owned vars heap p ≡ true) (read_peer r tor)
  unfolding read_peer get_peer
  read_peer-owned none tor s p e = absurd (cc)
  read_peer-owned (some r) tor s p e =
      Each-find (λ p. owned vars heap p ≡ true) r.peer_id p (get_swarm r.swarm tor).p_map
        (s r.swarm).1 (or_stop-eq-ok (find r.peer_id (get_swarm r.swarm tor).p_map) undefined e)

  owner-Ends :
      (b : Bool) (usr_map : Dict Bytes ℕ) (req : Request)
      → ((passkey : Bytes)
          → at req (codes "reqpasskey") ≡ ok passkey
          → (not b || points_to_user heap (find passkey usr_map)) ≡ true)
      → Ends
          (λ u. (not b || points_to_user heap u) ≡ true)
          (if b
            then (at req (codes "reqpasskey") >>= λ passkey. ok (find passkey usr_map))
            else ok none)
  owner-Ends true usr_map req h u e =
      let (passkey, e1, e2) = >>=-eq-ok (at req (codes "reqpasskey")) _ e in
      rw (ok-injective e2) at (h passkey e1)
  owner-Ends false usr_map req h u e = refl

  pub add_peer-Fine :
      (os : Platform) (env : Env) (usr_map : Dict Bytes ℕ) (req : Request) (id : ℕ) (ipv6 : Bool)
      (ps : Peers)
      → ((passkey : Bytes)
          → at req (codes "reqpasskey") ≡ ok passkey
          → (not (is_private vars) || points_to_user heap (find passkey usr_map)) ≡ true)
      → Fine vars heap ps
      → Ends (Fine vars heap) (add_peer os env vars usr_map req id ipv6 ps)
  unfolding add_peer new_peer
  add_peer-Fine os env usr_map req id ipv6 ps named (d, o) =
      let F : Peers → Type 0 = Fine vars heap in
      let Owner : Option ℕ → Type 0 =
        λ u. (not (is_private vars) || points_to_user heap u) ≡ true in
      Ends-bind Owner F
        (if is_private vars
          then (at req (codes "reqpasskey") >>= λ passkey. ok (find passkey usr_map))
          else ok none)
        _ (owner-Ends (is_private vars) usr_map req named)
        λ user own. Ends-after F (at req (codes "peer_id")) _ λ peer_id.
          Ends-after F (at req (codes "ip")) _ λ ip. Ends-after F (at req (codes "port")) _ λ port.
            Ends-after F (at req (codes "left")) _ λ left. Ends-after F (stoul left) _ λ left.
              Ends-after F (at req (codes "downloaded")) _ λ downloaded.
                Ends-after F (stoul downloaded) _ λ downloaded.
                  Ends-after F (at req (codes "uploaded")) _ λ uploaded.
                    Ends-after F (stoul uploaded) _ λ uploaded.
                      Ends-after F (at req (codes "user-agent")) _ λ client.
                        Ends-bind (λ p. owned vars heap p ≡ true) F
                          (new_peer os env ip port user left downloaded uploaded id client peer_id
                            ipv6)
                          _
                          (Ends-after (λ p. owned vars heap p ≡ true)
                            (ip_port_hex_encode os ip port ipv6) _
                            λ hex. Ends-ok (λ p. owned vars heap p ≡ true) _ own)
                          λ p own'. Ends-ok F _ (
                            Distinct-emplace peer_id p ps.p_map d,
                            Each-emplace (λ p. owned vars heap p ≡ true) peer_id p ps.p_map own' o,
                          )

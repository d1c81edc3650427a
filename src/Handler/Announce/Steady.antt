-- ===== src/Handler/Announce/Steady.antt =====
-- Until a peer leaves, an announce moves no iterator and takes no peer away.
use liquid.Base.{
  ℕ, ◌≡◌, refl, ◌∙◌, Bool, true, false, arith, not, ◌||◌, List, [], ◌∷◌, Option, none, some, ◌==◌,
  Bytes, bytes_eq, bytes_beq_iff, if◌then◌else◌, if_case,
}
use liquid.Base.Dict.{Dict, has, find, find-modify, find-emplace}
use liquid.Base.Outcome.{Outcome, ok, Ends, Ends-ok, Ends-bind, Ends-after, Ends-if, ◌>>=◌}
use liquid.Base.Int.{stoul}
use liquid.Base.Text.{codes}
use liquid.Platform.{Platform, Env}
use liquid.Config.{Vars, is_private, is_public}
use liquid.Peer.{Peer, new_peer, complete, inactive}
use liquid.Peers.{Request, at, Peers, add_peer, get_peer, set_peer}
use liquid.User.{has_token}
use liquid.Torrent.{
  Torrent, Swarm, seeding, seeding6, leeching, leeching6, get_swarm, set_swarm, set_balance,
  inc_snatches,
}
use liquid.Database.{deref, record_peer}
use liquid.Handler.{with_user}
use liquid.Handler.Announce.{
  PeerRef, Work, leechers_of, seeders_of, read_peer, write_peer, enter, obtain, grant, leech, seed,
  join, account, write_back, credit, settle,
}
use liquid.Handler.Announce.Total.{set_swarm-each}
use liquid.Handler.Announce.Reply.Ends.{Listed}

-- A swarm with its iterator where it was, and every peer that was there.
abbrev pub SteadySwarm : Peers → Peers → Type 0
SteadySwarm old new =
    (new.it ≡ old.it)
    × ((k : Bytes) → has (find k old.p_map) ≡ true → has (find k new.p_map) ≡ true)

abbrev pub Steady : Torrent → Torrent → Type 0
Steady old new = (s : Swarm) → SteadySwarm (get_swarm s old) (get_swarm s new)

Steady-set_swarm :
    (old tor : Torrent) (s : Swarm) (ps : Peers)
    → SteadySwarm (get_swarm s tor) ps
    → Steady old tor
    → Steady old (set_swarm s ps tor)
Steady-set_swarm old tor s ps (e, g) h =
    set_swarm-each (λ x ps. SteadySwarm (get_swarm x old) ps) s ps tor
      (e ∙ (h s).0, λ k there. g k ((h s).1 k there)) h

write_peer-Steady :
    (old tor : Torrent) (r : Option PeerRef) (f : Peer → Peer)
    → Steady old tor
    → Steady old (write_peer r f tor)
unfolding write_peer set_peer
write_peer-Steady old tor none f h = h
write_peer-Steady old tor (some r) f h =
    let ps : Peers = get_swarm r.swarm tor in
    Steady-set_swarm old tor r.swarm (set_peer r.peer_id f ps)
      (refl, λ k there. ground (arith, find-modify r.peer_id k f ps.p_map, there)) h

inc_snatches-Steady : (old tor : Torrent) → Steady old tor → Steady old (inc_snatches tor)
unfolding inc_snatches get_swarm
inc_snatches-Steady old tor h seeding = h seeding
inc_snatches-Steady old tor h seeding6 = h seeding6
inc_snatches-Steady old tor h leeching = h leeching
inc_snatches-Steady old tor h leeching6 = h leeching6

set_balance-Steady : (b : ℕ) (old tor : Torrent) → Steady old tor → Steady old (set_balance b tor)
unfolding set_balance get_swarm
set_balance-Steady b old tor h seeding = h seeding
set_balance-Steady b old tor h seeding6 = h seeding6
set_balance-Steady b old tor h leeching = h leeching
set_balance-Steady b old tor h leeching6 = h leeching6

add_peer-Steady :
    (os : Platform) (env : Env) (vars : Vars) (usr_map : Dict Bytes ℕ) (req : Request) (id : ℕ)
    (ipv6 : Bool) (ps : Peers)
    → Ends (SteadySwarm ps) (add_peer os env vars usr_map req id ipv6 ps)
unfolding add_peer
add_peer-Steady os env vars usr_map req id ipv6 ps =
    let F : Peers → Type 0 = SteadySwarm ps in
    Ends-after F
      (if is_private vars
        then (do passkey ← at req (codes "reqpasskey"); ok (find passkey usr_map))
        else ok none)
      _
      λ user. Ends-after F (at req (codes "peer_id")) _ λ peer_id.
        Ends-after F (at req (codes "ip")) _ λ ip. Ends-after F (at req (codes "port")) _ λ port.
          Ends-after F (at req (codes "left")) _ λ left. Ends-after F (stoul left) _ λ left.
            Ends-after F (at req (codes "downloaded")) _ λ downloaded.
              Ends-after F (stoul downloaded) _ λ downloaded.
                Ends-after F (at req (codes "uploaded")) _ λ uploaded.
                  Ends-after F (stoul uploaded) _ λ uploaded.
                    Ends-after F (at req (codes "user-agent")) _ λ client.
                      Ends-after F
                        (new_peer os env ip port user left downloaded uploaded id client peer_id
                          ipv6)
                        _
                        λ p. Ends-ok F _ (
                          refl,
                          λ k there. ground (
                            arith,
                            find-emplace peer_id k p ps.p_map,
                            bytes_beq_iff peer_id k,
                            there,
                          ),
                        )

listed :
    (ipv6 : Bool) (s s6 : Swarm) (o : Option Swarm)
    → Listed ipv6 (some s) (if ipv6 then some s6 else o)
listed true s s6 o = (refl, refl)
listed false s s6 o = (refl, refl)

module _ (os : Platform) (env : Env) (vars : Vars) (req : Request) (ipv6 : Bool)
    (old : Torrent) where
  abbrev pub I : Work → Type 0
  I w = Steady old w.torrent

  abbrev pub J : Work → Type 0
  J w = I w × Listed ipv6 w.peers w.peers6

  enter-Steady : (s : Swarm) (w : Work) → I w → Ends I (enter os env vars req ipv6 s w)
  unfolding enter
  enter-Steady s w h = Ends-after I (at req (codes "peer_id")) _ λ id.
      Ends-bind (SteadySwarm (get_swarm s w.torrent)) I
        (add_peer os env vars w.tracker.usr_map req w.torrent.id ipv6 (get_swarm s w.torrent)) _
        (add_peer-Steady os env vars w.tracker.usr_map req w.torrent.id ipv6
          (get_swarm s w.torrent))
        λ ps g. Ends-ok I _ (Steady-set_swarm old w.torrent s ps g h)

  obtain-Steady :
      (ss : List Swarm) (s : Swarm) (w : Work) → I w → Ends I (obtain os env vars req ipv6 ss s w)
  unfolding obtain
  obtain-Steady [] s w h b e = enter-Steady s w h b e
  obtain-Steady (x ∷ ss) s w h b e =
      Ends-after I (at req (codes "peer_id")) _
        (λ id.
          Ends-if I (has (get_peer id (get_swarm x w.torrent))) (Ends-ok I _ h)
            (obtain-Steady ss s w h))
        b e

  grant-Steady : (w : Work) → I w → Ends I (grant os env vars req ipv6 w)
  unfolding grant
  grant-Steady w h = Ends-after I (read_peer w.peer w.torrent) _ λ peer.
      Ends-after I (deref w.tracker.heap peer.user) _ λ u.
        Ends-if I (has_token w.torrent.id u)
          (Ends-after I (at req (codes "downloaded")) _
            λ d. Ends-after I (stoul d) _ λ n. Ends-ok I _ h)
          (Ends-ok I _ h)

  leech-Steady : (w : Work) → I w → Ends J (leech os env vars req ipv6 w)
  unfolding leech
  leech-Steady w h =
      Ends-bind I J (obtain os env vars req ipv6 (leechers_of ipv6 ∷ []) (leechers_of ipv6) w) _
        (obtain-Steady (leechers_of ipv6 ∷ []) (leechers_of ipv6) w h)
        λ w1 h1.
          Ends-bind I J (if is_private vars then grant os env vars req ipv6 w1 else ok w1) _
            (Ends-if I (is_private vars) (grant-Steady w1 h1) (Ends-ok I w1 h1))
            λ w2 h2. Ends-after J (at req (codes "event")) _ λ e. Ends-ok J _ (
              if_case (Steady old) (e == codes "completed")
                  {x = inc_snatches (write_peer w2.peer complete w2.torrent)} {y = w2.torrent}
                  (inc_snatches-Steady old _ (write_peer-Steady old w2.torrent w2.peer complete h2))
                  h2,
              listed ipv6 seeding seeding6 w2.peers6,
            )

  seed-Steady : (w : Work) → I w → Ends J (seed os env vars req ipv6 w)
  unfolding seed
  seed-Steady w h =
      Ends-bind I J
        (obtain os env vars req ipv6 (seeders_of ipv6 ∷ leeching ∷ []) (seeders_of ipv6) w) _
        (obtain-Steady (seeders_of ipv6 ∷ leeching ∷ []) (seeders_of ipv6) w h)
        λ w1 h1. Ends-ok J _ (h1, listed ipv6 leeching leeching6 w1.peers6)

  joined-Steady :
      (b c : Bool) (w : Work) (k : Work → Outcome Work)
      → I w
      → ((w2 : Work) → J w2 → Ends J (k w2))
      → Ends J (do
        w1 ← (if not b || c then leech os env vars req ipv6 w else ok w)
        w2 ← (if b then seed os env vars req ipv6 w1 else ok w1)
        k w2)
  joined-Steady true true w k h g =
      Ends-bind J J (leech os env vars req ipv6 w) _ (leech-Steady w h)
        λ w1 h1. Ends-bind J J (seed os env vars req ipv6 w1) k (seed-Steady w1 h1.0) g
  joined-Steady true false w k h g =
      Ends-bind J J (seed os env vars req ipv6 w) k (seed-Steady w h) g
  joined-Steady false c w k h g =
      Ends-bind J J (leech os env vars req ipv6 w) _ (leech-Steady w h) g

  pub join-Steady : (w : Work) → I w → Ends J (join os env vars req ipv6 w)
  unfolding join
  join-Steady w h = Ends-after J (at req (codes "left")) _ λ l.
      Ends-after J (at req (codes "event")) _ λ e.
        joined-Steady (l == codes "0") (e == codes "completed") w _ h λ w2 h2. Ends-ok J _ (
          if_case J (e == codes "stopped")
            {x = record w2 { torrent = write_peer w2.peer inactive w2.torrent }} {y = w2}
            (write_peer-Steady old w2.torrent w2.peer inactive h2.0, h2.1) h2)

  account-Steady :
      (corrupt : ℕ) (w : Work)
      → J w
      → Ends (λ (r : ℕ × Work). J r.1) (account os env vars req ipv6 corrupt w)
  unfolding account
  account-Steady corrupt w (h, l) =
      let P : ℕ × Work → Type 0 = λ r. J r.1 in
      Ends-after P (read_peer w.peer w.torrent) _ λ before.
        Ends-after P (at req (codes "downloaded")) _ λ d. Ends-after P (stoul d) _ λ dn.
          Ends-after P (at req (codes "uploaded")) _ λ u. Ends-after P (stoul u) _ λ un.
            Ends-after P (at req (codes "left")) _ λ l'.
              Ends-after P (stoul l') _
                λ ln. Ends-ok P _ (write_peer-Steady old w.torrent w.peer _ h, l)

  write_back-Steady : (w : Work) → J w → Ends J (write_back os env vars req ipv6 w)
  unfolding write_back
  write_back-Steady w (h, l) = Ends-after J (read_peer w.peer w.torrent) _ λ peer.
      Ends-after J (record_peer vars w.tracker.heap peer w.tracker.db) _
        λ r. Ends-ok J _ (write_peer-Steady old w.torrent w.peer (λ _. r.0) h, l)

  credit-Steady : (w : Work) → J w → Ends J (credit os env vars req ipv6 w)
  unfolding credit
  credit-Steady w h = Ends-after J (read_peer w.peer w.torrent) _ λ peer.
      Ends-after J (with_user peer.user _ w.tracker) _ λ t1.
        Ends-after J (deref t1.heap peer.user) _
          λ u. Ends-after J (with_user peer.user _ t1) _ λ t2. Ends-ok J _ h

  pub settle-Steady :
      (corrupt : ℕ) (w : Work) → J w → Ends J (settle os env vars req ipv6 corrupt w)
  unfolding settle
  settle-Steady corrupt w h =
      let P : ℕ × Work → Type 0 = λ r. J r.1 in
      Ends-bind P J (if is_private vars then account os env vars req ipv6 corrupt w else ok (0, w))
        _ (Ends-if P (is_private vars) (account-Steady corrupt w h) (Ends-ok P (0, w) h))
        λ (b, w1) h1.
          let w2 : Work = record w1 { torrent = set_balance b w1.torrent } in
          let h2 : J w2 = (set_balance-Steady b old w1.torrent h1.0, h1.1) in
          Ends-bind J J (if is_public vars then ok w2 else write_back os env vars req ipv6 w2) _
            (Ends-if J (is_public vars) (Ends-ok J w2 h2) (write_back-Steady w2 h2))
            λ w3 h3. Ends-if J (is_private vars) (credit-Steady w3 h3) (Ends-ok J w3 h3)

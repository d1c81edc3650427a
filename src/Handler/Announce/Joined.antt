-- ===== src/Handler/Announce/Joined.antt =====
-- The stages of an announce up to the peer at work end.
use liquid.Base.{
  ◌≡◌, refl, ◌∙◌, Bool, true, false, arith, not, ◌||◌, List, [], ◌∷◌, Option, none, some, ◌==◌,
  bytes_eq, nat_eq, if◌then◌else◌, if_case,
}
use liquid.Base.Outcome.{
  Outcome, ok, Gives, Gives-ok, Gives-bind, Gives-after, Gives-if, Gives-Ends, ◌>>=◌,
}
use liquid.Base.Int.{stoul}
use liquid.Base.Text.{codes}
use liquid.Platform.{Platform, Env}
use liquid.Config.{Vars, is_private}
use liquid.Peer.{Peer, complete, inactive}
use liquid.Peers.{Request, at}
use liquid.User.{has_token}
use liquid.Torrent.{Torrent, Swarm, seeding, seeding6, leeching, leeching6, get_swarm, inc_snatches}
use liquid.Database.{deref}
use liquid.Database.Accounts.{points_to_user, deref_total}
use liquid.Handler.Announce.{
  PeerRef, Work, leechers_of, seeders_of, read_peer, write_peer, obtain, grant, leech, seed, join,
}
use liquid.Handler.Announce.Sound.{read_peer-owned}
use liquid.Handler.Announce.Valid.{SoundWork, W, obtain-Sound, grant-Sound}
use liquid.Handler.Announce.Total.{Readable, Reads, read_peer-write_peer, obtain-Gives}

-- The swarms are where they were.
read_peer-inc_snatches :
    (r : Option PeerRef) (tor : Torrent) → read_peer r (inc_snatches tor) ≡ read_peer r tor
unfolding read_peer inc_snatches get_swarm
read_peer-inc_snatches none tor = refl
read_peer-inc_snatches (some r) tor =
    elim r.swarm
      as (λ s.
        read_peer (some (record { swarm = s; peer_id = r.peer_id })) (inc_snatches tor)
        ≡ read_peer (some (record { swarm = s; peer_id = r.peer_id })) tor) [
          | seeding ↦ refl
          | seeding6 ↦ refl
          | leeching ↦ refl
          | leeching6 ↦ refl
        ]

-- What a stage behind `addPeer` and `getPeer` begins with.
abbrev pub Ready : Vars → Request → Work → Type 0
Ready vars req w = SoundWork vars req w × Reads w

module _ (os : Platform) (env : Env) (vars : Vars) (req : Request) (ipv6 : Bool)
    (can : Readable req) where
  -- The pointer to the account of the peer can be followed in a private tracker.
  pub owner_of :
      (w : Work) (p : Peer)
      → is_private vars ≡ true
      → SoundWork vars req w
      → read_peer w.peer w.torrent ≡ ok p
      → points_to_user w.tracker.heap p.user ≡ true
  owner_of w p h s e =
      let o = read_peer-owned vars w.tracker.heap w.peer w.torrent s.0 p e in ground arith

  grant-Gives :
      (w : Work)
      → is_private vars ≡ true
      → Ready vars req w
      → Gives Reads (grant os env vars req ipv6 w)
  unfolding grant
  grant-Gives w h (s, (p, e)) =
      let (u, d) = deref_total w.tracker.heap p.user (owner_of w p h s e) in
      let (v, n, d1, d2) = can.downloaded in
      Gives-after Reads (read_peer w.peer w.torrent) _ p e (
        Gives-after Reads (deref w.tracker.heap p.user) _ u d (
          Gives-if Reads (has_token w.torrent.id u)
            (λ _.
              Gives-after Reads (at req (codes "downloaded")) _ v d1
                (Gives-after Reads (stoul v) _ n d2 (Gives-ok Reads _ (p, e))))
            (λ _. Gives-ok Reads _ (p, e))))

  obtain-T :
      (ss : List Swarm) (s : Swarm) (w : Work)
      → SoundWork vars req w
      → Gives (Ready vars req) (obtain os env vars req ipv6 ss s w)
  unfolding W
  obtain-T ss s w h =
      Gives-Ends Reads (SoundWork vars req) (obtain os env vars req ipv6 ss s w)
        (obtain-Gives os env vars req ipv6 can ss s w) (obtain-Sound os env vars req ipv6 ss s w h)

  granted :
      (w : Work)
      → Ready vars req w
      → Gives (Ready vars req) (if is_private vars then grant os env vars req ipv6 w else ok w)
  unfolding W
  granted w h =
      Gives-if (Ready vars req) (is_private vars)
        (λ e.
          Gives-Ends Reads (SoundWork vars req) (grant os env vars req ipv6 w) (grant-Gives w e h)
            (grant-Sound os env vars req ipv6 w h.0))
        (λ _. Gives-ok (Ready vars req) w h)

  leech-Gives : (w : Work) → SoundWork vars req w → Gives Reads (leech os env vars req ipv6 w)
  unfolding leech
  leech-Gives w h =
      Gives-bind (Ready vars req) Reads
        (obtain os env vars req ipv6 (leechers_of ipv6 ∷ []) (leechers_of ipv6) w) _
        (obtain-T (leechers_of ipv6 ∷ []) (leechers_of ipv6) w h)
        λ w1 h1.
          Gives-bind (Ready vars req) Reads
            (if is_private vars then grant os env vars req ipv6 w1 else ok w1) _ (granted w1 h1)
            λ w2 (s2, (p2, e2)).
              Gives-after Reads (at req (codes "event")) _ can.event.0 can.event.1 (
                Gives-ok Reads _ (
                  if_case (λ tor. (p : Peer) × (read_peer w2.peer tor ≡ ok p))
                    (can.event.0 == codes "completed")
                    {x = inc_snatches (write_peer w2.peer complete w2.torrent)} {y = w2.torrent}
                    (
                      complete p2,
                      read_peer-inc_snatches w2.peer (write_peer w2.peer complete w2.torrent)
                          ∙ read_peer-write_peer w2.peer complete w2.torrent p2 e2,
                    )
                    (p2, e2)))

  seed-Gives : (w : Work) → Gives Reads (seed os env vars req ipv6 w)
  unfolding seed
  seed-Gives w =
      Gives-bind Reads Reads
        (obtain os env vars req ipv6 (seeders_of ipv6 ∷ leeching ∷ []) (seeders_of ipv6) w) _
        (obtain-Gives os env vars req ipv6 can (seeders_of ipv6 ∷ leeching ∷ []) (seeders_of ipv6)
          w)
        λ w1 h1. Gives-ok Reads _ h1

  -- Whether the client has all, and whether it has just completed.
  joined :
      (b c : Bool) (w : Work) (k : Work → Outcome Work)
      → SoundWork vars req w
      → ((w2 : Work) → Reads w2 → Gives Reads (k w2))
      → Gives Reads (do
        w1 ← (if not b || c then leech os env vars req ipv6 w else ok w)
        w2 ← (if b then seed os env vars req ipv6 w1 else ok w1)
        k w2)
  joined true true w k h g =
      Gives-bind Reads Reads (leech os env vars req ipv6 w) _ (leech-Gives w h)
        λ w1 _. Gives-bind Reads Reads (seed os env vars req ipv6 w1) k (seed-Gives w1) g
  joined true false w k h g =
      Gives-bind Reads Reads (seed os env vars req ipv6 w) k (seed-Gives w) g
  joined false c w k h g =
      Gives-bind Reads Reads (leech os env vars req ipv6 w) _ (leech-Gives w h) g

  stopped-Reads :
      (b : Bool) (w : Work)
      → Reads w
      → Reads (if b then record w { torrent = write_peer w.peer inactive w.torrent } else w)
  stopped-Reads true w (p, e) = (inactive p, read_peer-write_peer w.peer inactive w.torrent p e)
  stopped-Reads false w r = r

  pub join-Gives : (w : Work) → SoundWork vars req w → Gives Reads (join os env vars req ipv6 w)
  unfolding join
  join-Gives w h =
      let (l, _, l1, _) = can.left in
      let e = can.event.0 in
      Gives-after Reads (at req (codes "left")) _ l l1 (
        Gives-after Reads (at req (codes "event")) _ e can.event.1 (
          joined (l == codes "0") (e == codes "completed") w _ h
            λ w2 r. Gives-ok Reads _ (stopped-Reads (e == codes "stopped") w2 r)))

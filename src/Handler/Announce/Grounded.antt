-- ===== src/Handler/Announce/Grounded.antt =====
-- The stages of an announce keep the passkeys on accounts that are in the heap.
use liquid.Base.{
  ℕ, Bool, not, ◌||◌, List, [], ◌∷◌, ◌==◌, ◌!=◌, bytes_eq, nat_eq, if◌then◌else◌, if_case,
}
use liquid.Base.Dict.{has}
use liquid.Base.Outcome.{ok, Ends, Ends-ok, Ends-bind, Ends-after, Ends-if}
use liquid.Base.Int.{stoul}
use liquid.Base.Text.{codes}
use liquid.Platform.{Platform, Env}
use liquid.Config.{Vars, is_private, is_public}
use liquid.Peers.{Request, at, add_peer, remove_peer, get_peer}
use liquid.Torrent.{Swarm, get_swarm, leeching, set_balance}
use liquid.Database.{deref, record_peer, record_user, record_torrent}
use liquid.Peer.{inactive}
use liquid.User.{has_token, update_stats}
use liquid.Handler.{get_user, with_user}
use liquid.Handler.Update.Grounded.{Grounded, with_user-Grounded}
use liquid.Handler.Announce.{
  Work, leechers_of, seeders_of, read_peer, write_peer, enter, obtain, grant, leech, seed, join,
  account, write_back, credit, settle, leave, depart, work,
}

-- The tracker of a stage is grounded.
abbrev pub Kept : Work → Type 0
Kept w = Grounded w.tracker

module _ (os : Platform) (env : Env) (vars : Vars) (req : Request) (ipv6 : Bool) where
  enter-Grounded : (s : Swarm) (w : Work) → Kept w → Ends Kept (enter os env vars req ipv6 s w)
  unfolding enter get_user
  enter-Grounded s w g = Ends-after Kept (at req (codes "peer_id")) _ λ id.
      Ends-after Kept
        (add_peer os env vars w.tracker.usr_map req w.torrent.id ipv6 (get_swarm s w.torrent)) _
        λ ps. Ends-ok Kept _ g

  obtain-Grounded :
      (ss : List Swarm) (s : Swarm) (w : Work)
      → Kept w
      → Ends Kept (obtain os env vars req ipv6 ss s w)
  unfolding obtain get_user
  obtain-Grounded [] s w g b e = enter-Grounded s w g b e
  obtain-Grounded (x ∷ ss) s w g b e =
      Ends-after Kept (at req (codes "peer_id")) _
        (λ id.
          Ends-if Kept (has (get_peer id (get_swarm x w.torrent))) (Ends-ok Kept _ g)
            (obtain-Grounded ss s w g))
        b e

  grant-Grounded : (w : Work) → Kept w → Ends Kept (grant os env vars req ipv6 w)
  unfolding grant get_user
  grant-Grounded w g = Ends-after Kept (read_peer w.peer w.torrent) _ λ peer.
      Ends-after Kept (deref w.tracker.heap peer.user) _ λ u.
        Ends-if Kept (has_token w.torrent.id u)
          (Ends-after Kept (at req (codes "downloaded")) _
            λ d. Ends-after Kept (stoul d) _ λ n. Ends-ok Kept _ g)
          (Ends-ok Kept _ g)

  leech-Grounded : (w : Work) → Kept w → Ends Kept (leech os env vars req ipv6 w)
  unfolding leech get_user
  leech-Grounded w g =
      Ends-bind Kept Kept (obtain os env vars req ipv6 (leechers_of ipv6 ∷ []) (leechers_of ipv6) w)
        _ (obtain-Grounded (leechers_of ipv6 ∷ []) (leechers_of ipv6) w g)
        λ w1 g1.
          Ends-bind Kept Kept (if is_private vars then grant os env vars req ipv6 w1 else ok w1) _
            (Ends-if Kept (is_private vars) (grant-Grounded w1 g1) (Ends-ok Kept w1 g1))
            λ w2 g2. Ends-after Kept (at req (codes "event")) _ λ e. Ends-ok Kept _ g2

  seed-Grounded : (w : Work) → Kept w → Ends Kept (seed os env vars req ipv6 w)
  unfolding seed get_user
  seed-Grounded w g =
      Ends-bind Kept Kept
        (obtain os env vars req ipv6 (seeders_of ipv6 ∷ leeching ∷ []) (seeders_of ipv6) w) _
        (obtain-Grounded (seeders_of ipv6 ∷ leeching ∷ []) (seeders_of ipv6) w g)
        λ w1 g1. Ends-ok Kept _ g1

  join-Grounded : (w : Work) → Kept w → Ends Kept (join os env vars req ipv6 w)
  unfolding join get_user
  join-Grounded w g = Ends-after Kept (at req (codes "left")) _ λ l.
      Ends-after Kept (at req (codes "event")) _ λ e.
        let first = (l != codes "0") || (e == codes "completed") in
        Ends-bind Kept Kept (if first then leech os env vars req ipv6 w else ok w) _
          (Ends-if Kept first (leech-Grounded w g) (Ends-ok Kept w g))
          λ w1 g1.
            Ends-bind Kept Kept (if l == codes "0" then seed os env vars req ipv6 w1 else ok w1) _
              (Ends-if Kept (l == codes "0") (seed-Grounded w1 g1) (Ends-ok Kept w1 g1))
              λ w2 g2. Ends-ok Kept _ (
                if_case Kept (e == codes "stopped")
                  {x = record w2 { torrent = write_peer w2.peer inactive w2.torrent }} {y = w2} g2
                  g2)

  account-Grounded :
      (corrupt : ℕ) (w : Work)
      → Kept w
      → Ends (λ (r : ℕ × Work). Kept r.1) (account os env vars req ipv6 corrupt w)
  unfolding account get_user
  account-Grounded corrupt w g =
      let P : ℕ × Work → Type 0 = λ r. Kept r.1 in
      Ends-after P (read_peer w.peer w.torrent) _ λ before.
        Ends-after P (at req (codes "downloaded")) _ λ d. Ends-after P (stoul d) _ λ dn.
          Ends-after P (at req (codes "uploaded")) _ λ u. Ends-after P (stoul u) _ λ un.
            Ends-after P (at req (codes "left")) _ λ l. Ends-after P (stoul l) _ λ ln. Ends-ok P _ g

  write_back-Grounded : (w : Work) → Kept w → Ends Kept (write_back os env vars req ipv6 w)
  unfolding write_back get_user
  write_back-Grounded w g = Ends-after Kept (read_peer w.peer w.torrent) _ λ peer.
      Ends-after Kept (record_peer vars w.tracker.heap peer w.tracker.db) _ λ r. Ends-ok Kept _ g

  credit-Grounded : (w : Work) → Kept w → Ends Kept (credit os env vars req ipv6 w)
  unfolding credit get_user
  credit-Grounded w g = Ends-after Kept (read_peer w.peer w.torrent) _ λ peer.
      Ends-bind Grounded Kept
        (with_user peer.user (update_stats peer.downloaded peer.uploaded) w.tracker) _
        (with_user-Grounded peer.user _ w.tracker g)
        λ t1 g1. Ends-after Kept (deref t1.heap peer.user) _ λ u.
          Ends-bind Grounded Kept (with_user peer.user (λ _. (record_user u t1.db).0) t1) _
            (with_user-Grounded peer.user _ t1 g1) λ t2 g2. Ends-ok Kept _ g2

  settle-Grounded :
      (corrupt : ℕ) (w : Work) → Kept w → Ends Kept (settle os env vars req ipv6 corrupt w)
  unfolding settle get_user
  settle-Grounded corrupt w g =
      let P : ℕ × Work → Type 0 = λ r. Kept r.1 in
      Ends-bind P Kept
        (if is_private vars then account os env vars req ipv6 corrupt w else ok (0, w)) _
        (Ends-if P (is_private vars) (account-Grounded corrupt w g) (Ends-ok P (0, w) g))
        λ (b, w1) g1.
          let w2 : Work = record w1 { torrent = set_balance b w1.torrent } in
          Ends-bind Kept Kept (if is_public vars then ok w2 else write_back os env vars req ipv6 w2)
            _ (Ends-if Kept (is_public vars) (Ends-ok Kept w2 g1) (write_back-Grounded w2 g1))
            λ w3 g3. Ends-if Kept (is_private vars) (credit-Grounded w3 g3) (Ends-ok Kept w3 g3)

  leave-Grounded : (s : Swarm) (w : Work) → Kept w → Ends Kept (leave os env vars req ipv6 s w)
  unfolding leave get_user
  leave-Grounded s w g =
      Ends-after Kept (remove_peer req (get_swarm s w.torrent)) _ λ ps. Ends-ok Kept _ g

  depart-Grounded : (w : Work) → Kept w → Ends Kept (depart os env vars req ipv6 w)
  unfolding depart get_user
  depart-Grounded w g = Ends-after Kept (at req (codes "event")) _ λ e.
      Ends-after Kept (at req (codes "left")) _ λ l.
        let from = if l != codes "0" then leechers_of ipv6 else seeders_of ipv6 in
        Ends-bind Kept Kept
          (if e == codes "stopped" then leave os env vars req ipv6 from w else ok w) _
          (Ends-if Kept (e == codes "stopped") (leave-Grounded from w g) (Ends-ok Kept w g))
          λ w1 g1.
            Ends-bind Kept Kept
              (if e == codes "completed"
                then leave os env vars req ipv6 (leechers_of (not ipv6)) w1
                else ok w1)
              _
              (Ends-if Kept (e == codes "completed") (leave-Grounded (leechers_of (not ipv6)) w1 g1)
                (Ends-ok Kept w1 g1))
              λ w2 g2. Ends-ok Kept _ (
                if_case Kept (is_public vars) {x = w2}
                  {y = record w2 {
                    tracker = record (w2.tracker) { db = record_torrent w2.torrent w2.tracker.db };
                  }}
                  g2 g2)

  pub work-Grounded :
      (corrupt : ℕ) (w : Work) → Kept w → Ends Kept (work os env vars req ipv6 corrupt w)
  unfolding work
  work-Grounded corrupt w g =
      Ends-bind Kept Kept (join os env vars req ipv6 w) _ (join-Grounded w g) λ w1 g1.
        Ends-bind Kept Kept (settle os env vars req ipv6 corrupt w1) _
          (settle-Grounded corrupt w1 g1) depart-Grounded

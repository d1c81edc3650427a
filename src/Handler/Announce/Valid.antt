-- ===== src/Handler/Announce/Valid.antt =====
-- The stages of an announce keep the swarms of its torrent sound, and the rest of the tracker valid.
use liquid.Base.{
  ℕ, ◌≡◌, refl, Bool, true, false, arith, not, ◌||◌, List, [], ◌∷◌, Option, none, some, ◌==◌, ◌!=◌,
  Bytes, bytes_eq, nat_eq, if◌then◌else◌, if_case,
}
use liquid.Base.Dict.{has, find, modify}
use liquid.Base.Outcome.{ok, Ends, Ends-ok, Ends-bind, Ends-after, Ends-if}
use liquid.Base.Int.{stoul}
use liquid.Base.Text.{codes}
use liquid.Platform.{Platform, Env}
use liquid.Config.{Vars, is_private, is_public}
use liquid.Peers.{Request, at, add_peer, remove_peer, get_peer}
use liquid.Torrent.{Torrent, Swarm, leeching, get_swarm, set_balance, inc_snatches}
use liquid.Database.{Heap, deref, record_peer, record_user, record_torrent}
use liquid.Database.Accounts.{owned, points_to_user}
use liquid.Peer.{inactive, complete, update_stats as peer_update_stats, get_timespent}
use liquid.User.{User, has_token, update_stats}
use liquid.Handler.{Tracker, with_user}
use liquid.Handler.Clean.Expiry.{IsSound}
use liquid.Handler.Clean.Valid.{Fine, Fine-remove_key}
use liquid.Handler.Update.Valid.{Kept, Kept-Grows}
use liquid.Handler.Valid.{Grows, Grows-modify, IsSound-Grows, IsSound-set_swarm}
use liquid.Handler.Announce.{
  Work, leechers_of, seeders_of, read_peer, write_peer, enter, obtain, grant, leech, seed, join,
  account, write_back, credit, settle, leave, depart, work,
}
use liquid.Handler.Announce.Sound.{
  set_balance-IsSound, inc_snatches-IsSound, write_peer-IsSound, read_peer-owned, add_peer-Fine,
}

-- The account that a private tracker gives to a new peer can be read.
abbrev pub Named : Vars → Request → Tracker → Type 0
Named vars req t =
    (passkey : Bytes)
    → at req (codes "reqpasskey") ≡ ok passkey
    → (not (is_private vars) || points_to_user t.heap (find passkey t.usr_map)) ≡ true

-- What holds of the tracker, and of the torrent on its way through an announce.
abbrev pub Sound : Vars → Request → Torrent → Tracker → Type 0
Sound vars req tor t = IsSound vars t.heap tor × Kept vars t × Named vars req t

abbrev pub SoundWork : Vars → Request → Work → Type 0
SoundWork vars req w = Sound vars req w.torrent w.tracker

module _ (vars : Vars) (req : Request) where
  points-Grows :
      (b : Bool) (heap heap' : Heap) (u : Option ℕ)
      → Grows heap heap'
      → (b || points_to_user heap u) ≡ true
      → (b || points_to_user heap' u) ≡ true
  points-Grows true heap heap' u g h = refl
  points-Grows false heap heap' none g h = h
  points-Grows false heap heap' (some a) g h = g a h

  with_user-Sound :
      (u : Option ℕ) (f : User → User) (tor : Torrent) (t : Tracker)
      → Sound vars req tor t
      → Ends (Sound vars req tor) (with_user u f t)
  unfolding with_user
  with_user-Sound none f tor t s t' e = absurd (ground arith)
  with_user-Sound (some a) f tor t (s, k, n) t' e =
      let g = Grows-modify a f t.heap in
      Ends-after (Sound vars req tor) (deref t.heap (some a))
        (λ _. ok (record t { heap = modify a f t.heap }))
        (λ _. Ends-ok (Sound vars req tor) _ (
          IsSound-Grows vars t.heap (modify a f t.heap) tor g s,
          Kept-Grows vars t (modify a f t.heap) g k,
          λ passkey h.
              points-Grows (not (is_private vars)) t.heap (modify a f t.heap)
                (find passkey t.usr_map) g (n passkey h),
        ))
        t' e

module _ (os : Platform) (env : Env) (vars : Vars) (req : Request) (ipv6 : Bool) where
  unfoldable pub W : Work → Type 0
  W = SoundWork vars req

  enter-Sound : (s : Swarm) (w : Work) → W w → Ends W (enter os env vars req ipv6 s w)
  unfolding enter W
  enter-Sound s w (h, k, n) = Ends-after W (at req (codes "peer_id")) _ λ id.
      Ends-bind (Fine vars w.tracker.heap) W
        (add_peer os env vars w.tracker.usr_map req w.torrent.id ipv6 (get_swarm s w.torrent)) _
        (add_peer-Fine vars w.tracker.heap os env w.tracker.usr_map req w.torrent.id ipv6
          (get_swarm s w.torrent) n (h s))
        λ ps f. Ends-ok W _ (IsSound-set_swarm vars w.tracker.heap s ps w.torrent f.0 f.1 h, k, n)

  pub obtain-Sound :
      (ss : List Swarm) (s : Swarm) (w : Work) → W w → Ends W (obtain os env vars req ipv6 ss s w)
  unfolding obtain W
  obtain-Sound [] s w h b e = enter-Sound s w h b e
  obtain-Sound (x ∷ ss) s w h b e =
      Ends-after W (at req (codes "peer_id")) _
        (λ id.
          Ends-if W (has (get_peer id (get_swarm x w.torrent))) (Ends-ok W _ h)
            (obtain-Sound ss s w h))
        b e

  pub grant-Sound : (w : Work) → W w → Ends W (grant os env vars req ipv6 w)
  unfolding grant W
  grant-Sound w h = Ends-after W (read_peer w.peer w.torrent) _ λ peer.
      Ends-after W (deref w.tracker.heap peer.user) _ λ u.
        Ends-if W (has_token w.torrent.id u)
          (Ends-after W (at req (codes "downloaded")) _
            λ d. Ends-after W (stoul d) _ λ n. Ends-ok W _ h)
          (Ends-ok W _ h)

  -- A torrent written by a sound one.
  written :
      (w : Work) (tor : Torrent)
      → W w
      → IsSound vars w.tracker.heap tor
      → W (record w { torrent = tor })
  unfolding W
  written w tor (h, k, n) s = (s, k, n)

  complete-Sound :
      (w : Work)
      → W w
      → W (record w { torrent = inc_snatches (write_peer w.peer complete w.torrent) })
  unfolding W complete
  complete-Sound w h = written w _ h (
      inc_snatches-IsSound vars w.tracker.heap _
        (write_peer-IsSound vars w.tracker.heap w.peer complete w.torrent (λ p o. o) h.0))

  pub leech-Sound : (w : Work) → W w → Ends W (leech os env vars req ipv6 w)
  unfolding leech W
  leech-Sound w h =
      Ends-bind W W (obtain os env vars req ipv6 (leechers_of ipv6 ∷ []) (leechers_of ipv6) w) _
        (obtain-Sound (leechers_of ipv6 ∷ []) (leechers_of ipv6) w h)
        λ w1 h1.
          Ends-bind W W (if is_private vars then grant os env vars req ipv6 w1 else ok w1) _
            (Ends-if W (is_private vars) (grant-Sound w1 h1) (Ends-ok W w1 h1))
            λ w2 h2. Ends-after W (at req (codes "event")) _ λ e. Ends-ok W _ (
              if_case (λ tor. Sound vars req tor w2.tracker) (e == codes "completed")
                {x = inc_snatches (write_peer w2.peer complete w2.torrent)} {y = w2.torrent}
                (complete-Sound w2 h2) h2)

  pub seed-Sound : (w : Work) → W w → Ends W (seed os env vars req ipv6 w)
  unfolding seed W
  seed-Sound w h =
      Ends-bind W W
        (obtain os env vars req ipv6 (seeders_of ipv6 ∷ leeching ∷ []) (seeders_of ipv6) w) _
        (obtain-Sound (seeders_of ipv6 ∷ leeching ∷ []) (seeders_of ipv6) w h)
        λ w1 h1. Ends-ok W _ h1

  inactive-Sound :
      (w : Work) → W w → W (record w { torrent = write_peer w.peer inactive w.torrent })
  unfolding inactive W
  inactive-Sound w h =
      written w _ h
        (write_peer-IsSound vars w.tracker.heap w.peer inactive w.torrent (λ p o. o) h.0)

  pub join-Sound : (w : Work) → W w → Ends W (join os env vars req ipv6 w)
  unfolding join
  join-Sound w h = Ends-after W (at req (codes "left")) _ λ l.
      Ends-after W (at req (codes "event")) _ λ e.
        let first = (l != codes "0") || (e == codes "completed") in
        Ends-bind W W (if first then leech os env vars req ipv6 w else ok w) _
          (Ends-if W first (leech-Sound w h) (Ends-ok W w h))
          λ w1 h1.
            Ends-bind W W (if l == codes "0" then seed os env vars req ipv6 w1 else ok w1) _
              (Ends-if W (l == codes "0") (seed-Sound w1 h1) (Ends-ok W w1 h1))
              λ w2 h2. Ends-ok W _ (
                if_case W (e == codes "stopped")
                  {x = record w2 { torrent = write_peer w2.peer inactive w2.torrent }} {y = w2}
                  (inactive-Sound w2 h2) h2)

  pub account-Sound :
      (corrupt : ℕ) (w : Work)
      → W w
      → Ends (λ (r : ℕ × Work). W r.1) (account os env vars req ipv6 corrupt w)
  unfolding account W peer_update_stats
  account-Sound corrupt w (h, k, n) =
      let P : ℕ × Work → Type 0 = λ r. W r.1 in
      Ends-after P (read_peer w.peer w.torrent) _ λ before.
        Ends-after P (at req (codes "downloaded")) _ λ d. Ends-after P (stoul d) _ λ dn.
          Ends-after P (at req (codes "uploaded")) _ λ u. Ends-after P (stoul u) _ λ un.
            Ends-after P (at req (codes "left")) _ λ l. Ends-after P (stoul l) _ λ ln.
              Ends-ok P _
                (write_peer-IsSound vars w.tracker.heap w.peer _ w.torrent (λ p o. o) h, k, n)

  pub write_back-Sound : (w : Work) → W w → Ends W (write_back os env vars req ipv6 w)
  unfolding write_back W record_peer get_timespent
  write_back-Sound w (h, k, n) =
      Ends-bind (λ p. owned vars w.tracker.heap p ≡ true) W (read_peer w.peer w.torrent) _
        (read_peer-owned vars w.tracker.heap w.peer w.torrent h)
        λ peer o.
          Ends-bind (λ r. owned vars w.tracker.heap r.0 ≡ true) W
            (record_peer vars w.tracker.heap peer w.tracker.db) _
            (Ends-after (λ r. owned vars w.tracker.heap r.0 ≡ true) _ _
              λ owner. Ends-ok (λ r. owned vars w.tracker.heap r.0 ≡ true) _ o)
            λ r o'. Ends-ok W _ (
              write_peer-IsSound vars w.tracker.heap w.peer (λ _. r.0) w.torrent (λ _ _. o') h,
              k,
              n,
            )

  credit-Sound : (w : Work) → W w → Ends W (credit os env vars req ipv6 w)
  unfolding credit W
  credit-Sound w h = Ends-after W (read_peer w.peer w.torrent) _ λ peer.
      let S : Tracker → Type 0 = Sound vars req w.torrent in
      Ends-bind S W (with_user peer.user (update_stats peer.downloaded peer.uploaded) w.tracker) _
        (with_user-Sound vars req peer.user _ w.torrent w.tracker h)
        λ t1 h1. Ends-after W (deref t1.heap peer.user) _ λ u.
          Ends-bind S W (with_user peer.user (λ _. (record_user u t1.db).0) t1) _
            (with_user-Sound vars req peer.user _ w.torrent t1 h1) λ t2 h2. Ends-ok W _ h2

  pub settle-Sound : (corrupt : ℕ) (w : Work) → W w → Ends W (settle os env vars req ipv6 corrupt w)
  unfolding settle
  settle-Sound corrupt w h =
      let P : ℕ × Work → Type 0 = λ r. W r.1 in
      Ends-bind P W (if is_private vars then account os env vars req ipv6 corrupt w else ok (0, w))
        _ (Ends-if P (is_private vars) (account-Sound corrupt w h) (Ends-ok P (0, w) h))
        λ (b, w1) h1.
          let w2 : Work = record w1 { torrent = set_balance b w1.torrent } in
          let h2 : W w2 =
            unfold W in
            written w1 _ h1 (set_balance-IsSound vars w1.tracker.heap b w1.torrent h1.0) in
          Ends-bind W W (if is_public vars then ok w2 else write_back os env vars req ipv6 w2) _
            (Ends-if W (is_public vars) (Ends-ok W w2 h2) (write_back-Sound w2 h2))
            λ w3 h3. Ends-if W (is_private vars) (credit-Sound w3 h3) (Ends-ok W w3 h3)

  leave-Sound : (s : Swarm) (w : Work) → W w → Ends W (leave os env vars req ipv6 s w)
  unfolding leave W
  leave-Sound s w (h, k, n) =
      Ends-bind (Fine vars w.tracker.heap) W (remove_peer req (get_swarm s w.torrent)) _
        (unfold remove_peer in
          Ends-after (Fine vars w.tracker.heap) (at req (codes "peer_id")) _ λ id.
            Ends-ok (Fine vars w.tracker.heap) _
              (Fine-remove_key vars w.tracker.heap id (get_swarm s w.torrent) (h s)))
        λ ps f. Ends-ok W _ (IsSound-set_swarm vars w.tracker.heap s ps w.torrent f.0 f.1 h, k, n)

  depart-Sound : (w : Work) → W w → Ends W (depart os env vars req ipv6 w)
  unfolding depart
  depart-Sound w h = Ends-after W (at req (codes "event")) _ λ e.
      Ends-after W (at req (codes "left")) _ λ l.
        let from = if l != codes "0" then leechers_of ipv6 else seeders_of ipv6 in
        Ends-bind W W (if e == codes "stopped" then leave os env vars req ipv6 from w else ok w) _
          (Ends-if W (e == codes "stopped") (leave-Sound from w h) (Ends-ok W w h))
          λ w1 h1.
            Ends-bind W W
              (if e == codes "completed"
                then leave os env vars req ipv6 (leechers_of (not ipv6)) w1
                else ok w1)
              _
              (Ends-if W (e == codes "completed") (leave-Sound (leechers_of (not ipv6)) w1 h1)
                (Ends-ok W w1 h1))
              λ w2 h2. Ends-ok W _ (
                if_case W (is_public vars) {x = w2}
                  {y = record w2 {
                    tracker = record (w2.tracker) { db = record_torrent w2.torrent w2.tracker.db };
                  }}
                  h2 (unfold W in h2))

  pub work-Sound :
      (corrupt : ℕ) (w : Work)
      → SoundWork vars req w
      → Ends (SoundWork vars req) (work os env vars req ipv6 corrupt w)
  unfolding work W
  work-Sound corrupt w h = Ends-bind W W (join os env vars req ipv6 w) _ (join-Sound w h) λ w1 h1.
      Ends-bind W W (settle os env vars req ipv6 corrupt w1) _ (settle-Sound corrupt w1 h1)
        depart-Sound

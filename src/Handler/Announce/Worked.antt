-- ===== src/Handler/Announce/Worked.antt =====
-- The stages of an announce that settle its traffic end.
use liquid.Base.{
  ℕ, ◌≡◌, refl, sym, ◌∙◌, Bool, true, arith, not, ◌||◌, Option, none, some, Bytes, bytes_eq, nat_eq,
  if◌then◌else◌, Option-cases, inl, inr,
}
use liquid.Base.Dict.{has, find, find-modify}
use liquid.Base.Outcome.{
  ok, Gives, Gives-ok, Gives-bind, Gives-after, Gives-if, Gives-Ends, ok-injective,
}
use liquid.Base.Int.{stoul}
use liquid.Base.Text.{codes}
use liquid.Platform.{Platform, Env}
use liquid.Config.{Vars, is_private, is_public}
use liquid.Peers.{Request, at}
use liquid.User.{User, update_stats}
use liquid.Torrent.{Torrent, seeding, seeding6, leeching, leeching6, get_swarm, set_balance}
use liquid.Database.{deref, record_peer, record_user}
use liquid.Database.Accounts.{points_to_user, deref_total, record_peer_total}
use liquid.Handler.{Tracker, get_user, with_user}
use liquid.Handler.Update.Grounded.{Grounded}
use liquid.Handler.Announce.{PeerRef, Work, read_peer, account, write_back, credit, settle}
use liquid.Handler.Announce.Sound.{read_peer-owned, set_balance-IsSound}
use liquid.Handler.Announce.Valid.{SoundWork, Named, W, account-Sound, write_back-Sound}
use liquid.Handler.Announce.Joined.{Ready, owner_of}
use liquid.Handler.Announce.Total.{Readable, Reads, Any, read_peer-write_peer}

read_peer-set_balance :
    (b : ℕ) (r : Option PeerRef) (tor : Torrent) → read_peer r (set_balance b tor) ≡ read_peer r tor
unfolding read_peer set_balance get_swarm
read_peer-set_balance b none tor = refl
read_peer-set_balance b (some r) tor =
    elim r.swarm
      as (λ s.
        read_peer (some (record { swarm = s; peer_id = r.peer_id })) (set_balance b tor)
        ≡ read_peer (some (record { swarm = s; peer_id = r.peer_id })) tor) [
          | seeding ↦ refl
          | seeding6 ↦ refl
          | leeching ↦ refl
          | leeching6 ↦ refl
        ]

with_user-Gives :
    (u : Option ℕ) (f : User → User) (t : Tracker)
    → points_to_user t.heap u ≡ true
    → Gives (λ t'. points_to_user t'.heap u ≡ true) (with_user u f t)
unfolding with_user
with_user-Gives none f t h = cc
with_user-Gives (some a) f t h =
    let (u, e) = deref_total t.heap (some a) h in
    rw e (
      Gives-ok (λ (t' : Tracker). points_to_user t'.heap (some a) ≡ true) _
        (ground (arith, find-modify a a f t.heap)))

module _ (os : Platform) (env : Env) (vars : Vars) (req : Request) (ipv6 : Bool)
    (can : Readable req) where
  account-Gives :
      (corrupt : ℕ) (w : Work)
      → Reads w
      → Gives (λ (r : ℕ × Work). Reads r.1) (account os env vars req ipv6 corrupt w)
  unfolding account
  account-Gives corrupt w (p, e) =
      let Q : ℕ × Work → Type 0 = λ r. Reads r.1 in
      let (d, dn, d1, d2) = can.downloaded in
      let (u, un, u1, u2) = can.uploaded in
      let (l, ln, l1, l2) = can.left in
      Gives-after Q (read_peer w.peer w.torrent) _ p e (
        Gives-after Q (at req (codes "downloaded")) _ d d1 (
          Gives-after Q (stoul d) _ dn d2 (
            Gives-after Q (at req (codes "uploaded")) _ u u1 (
              Gives-after Q (stoul u) _ un u2 (
                Gives-after Q (at req (codes "left")) _ l l1 (
                  Gives-after Q (stoul l) _ ln l2
                    (Gives-ok Q _ (_, read_peer-write_peer w.peer _ w.torrent p e))))))))

  write_back-Gives : (w : Work) → Ready vars req w → Gives Reads (write_back os env vars req ipv6 w)
  unfolding write_back
  write_back-Gives w (s, (p, e)) =
      let o = read_peer-owned vars w.tracker.heap w.peer w.torrent s.0 p e in
      let (_, r) = record_peer_total vars w.tracker.heap p w.tracker.db o in
      Gives-after Reads (read_peer w.peer w.torrent) _ p e (
        Gives-after Reads (record_peer vars w.tracker.heap p w.tracker.db) _ _ r
          (Gives-ok Reads _ (_, read_peer-write_peer w.peer (λ _. _) w.torrent p e)))

  credit-Gives :
      (w : Work)
      → is_private vars ≡ true
      → Ready vars req w
      → Gives Any (credit os env vars req ipv6 w)
  unfolding credit
  credit-Gives w h (s, (p, e)) =
      let P : Tracker → Type 0 = λ t. points_to_user t.heap p.user ≡ true in
      Gives-after Any (read_peer w.peer w.torrent) _ p e (
        Gives-bind P Any (with_user p.user (update_stats p.downloaded p.uploaded) w.tracker) _
          (with_user-Gives p.user _ w.tracker (owner_of os env vars req ipv6 can w p h s e))
          λ t1 h1.
            let (u, d) = deref_total t1.heap p.user h1 in
            Gives-after Any (deref t1.heap p.user) _ u d (
              Gives-bind P Any (with_user p.user (λ _. (record_user u t1.db).0) t1) _
                (with_user-Gives p.user _ t1 h1) λ t2 _. Gives-ok Any _ tt))

  accounted :
      (corrupt : ℕ) (w : Work)
      → Ready vars req w
      → Gives
          (λ (r : ℕ × Work). Ready vars req r.1)
          (if is_private vars then account os env vars req ipv6 corrupt w else ok (0, w))
  unfolding W
  accounted corrupt w h =
      Gives-if (λ (r : ℕ × Work). Ready vars req r.1) (is_private vars)
        (λ _.
          Gives-Ends (λ (r : ℕ × Work). Reads r.1) (λ (r : ℕ × Work). SoundWork vars req r.1)
            (account os env vars req ipv6 corrupt w) (account-Gives corrupt w h.1)
            (account-Sound os env vars req ipv6 corrupt w h.0))
        (λ _. Gives-ok (λ (r : ℕ × Work). Ready vars req r.1) (0, w) h)

  balanced :
      (b : ℕ) (w : Work)
      → Ready vars req w
      → Ready vars req (record w { torrent = set_balance b w.torrent })
  balanced b w ((i, k, n), (p, e)) = (
    (set_balance-IsSound vars w.tracker.heap b w.torrent i, k, n),
    (p, read_peer-set_balance b w.peer w.torrent ∙ e),
  )

  written_back :
      (w : Work)
      → Ready vars req w
      → Gives (Ready vars req) (if is_public vars then ok w else write_back os env vars req ipv6 w)
  unfolding W
  written_back w h =
      Gives-if (Ready vars req) (is_public vars) (λ _. Gives-ok (Ready vars req) w h)
        (λ _.
          Gives-Ends Reads (SoundWork vars req) (write_back os env vars req ipv6 w)
            (write_back-Gives w h) (write_back-Sound os env vars req ipv6 w h.0))

  pub settle-Gives :
      (corrupt : ℕ) (w : Work)
      → Ready vars req w
      → Gives Any (settle os env vars req ipv6 corrupt w)
  unfolding settle
  settle-Gives corrupt w h =
      Gives-bind (λ (r : ℕ × Work). Ready vars req r.1) Any
        (if is_private vars then account os env vars req ipv6 corrupt w else ok (0, w)) _
        (accounted corrupt w h)
        λ (b, w1) h1.
          let w2 : Work = record w1 { torrent = set_balance b w1.torrent } in
          Gives-bind (Ready vars req) Any
            (if is_public vars then ok w2 else write_back os env vars req ipv6 w2) _
            (written_back w2 (balanced b w1 h1))
            λ w3 h3.
              Gives-if Any (is_private vars) (λ e. credit-Gives w3 e h3) (λ _. Gives-ok Any w3 tt)

  pub named :
      (t : Tracker) (passkey : Bytes)
      → Grounded t
      → at req (codes "reqpasskey") ≡ ok passkey
      → (not (is_private vars) || has (get_user passkey t)) ≡ true
      → Named vars req t
  unfolding get_user
  named t passkey g there h k e =
      let same : passkey ≡ k = ok-injective (sym there ∙ e) in
      elim (Option-cases (find k t.usr_map)) [
        | inl gone ↦ rw gone (rw (same, gone) at h)
        | inr (a, found) ↦ ground (arith, g k a found)
      ]

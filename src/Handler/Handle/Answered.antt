-- ===== src/Handler/Handle/Answered.antt =====
-- An announce that is admitted is answered.
use liquid.Base.{
  ℕ, ◌≡◌, ◌≢◌, refl, sym, ◌∙◌, Bool, true, false, not, ◌||◌, some, ◌==◌, ◌!=◌, Bytes, bytes_eq,
  if◌then◌else◌, if_case, Option-cases, inl, inr,
}
use liquid.Base.Dict.{has, find, Each-find}
use liquid.Base.Outcome.{Outcome, ok, Gives, Gives-ok, Gives-bind, Gives-after, Gives-Ends, ◌>>=◌}
use liquid.Base.Text.{codes}
use liquid.Platform.{Platform, Env}
use liquid.Config.{Vars, is_private, is_public}
use liquid.Stats.{dec_peers}
use liquid.Peers.{Request, at, remove_peer, remove_key, element}
use liquid.Peers.Rotates.{grown-Rotates, remove_key-Rotates}
use liquid.Torrent.{Torrent, Swarm, get_swarm, set_swarm}
use liquid.Database.{record_torrent}
use liquid.Handler.{Tracker, get_user}
use liquid.Handler.Valid.{IsValid}
use liquid.Handler.Clean.Expiry.{IsSound}
use liquid.Handler.Load.Accounts.{catch-stop, caught}
use liquid.Handler.Announce.{
  Work, begin, leechers_of, seeders_of, leave, depart, join, settle, work, corrupt_of,
}
use liquid.Handler.Announce.Valid.{SoundWork, W, join-Sound}
use liquid.Handler.Announce.Total.{Any, Readable, Reads}
use liquid.Handler.Announce.Joined.{join-Gives}
use liquid.Handler.Announce.Worked.{settle-Gives, named}
use liquid.Handler.Announce.Steady.{I, J, join-Steady, settle-Steady}
use liquid.Handler.Announce.Reply.{reply}
use liquid.Handler.Announce.Reply.Ends.{
  AllRotate, Listed, set_swarm-AllRotate, reply-Gives, reply_stopped-Gives,
}
use liquid.Handler.Handle.{serve}

corrupt_of-Gives : (req : Request) → Gives Any (corrupt_of req)
unfolding corrupt_of
corrupt_of-Gives req = elim (Option-cases (find (codes "corrupt") req)) [
  | inl gone ↦ rw gone (Gives-ok Any 0 tt)
  | inr (text, found) ↦ elim (caught text) [
    | inl (n, e) ↦ rw (found, e) (Gives-ok Any n tt)
    | inr (x, e, defined) ↦ rw (found, e) (0, catch-stop x 0 defined, tt)
  ]
]

module _ (os : Platform) (env : Env) (vars : Vars) (req : Request) (ipv6 : Bool)
    (can : Readable req) where
  abbrev id : Bytes
  id = can.peer_id.0

  abbrev event : Bytes
  event = can.event.0

  -- What the reply wants: its swarms are not null, and their iterators not dangling if it lists any.
  Answerable : Bool → Work → Type 0
  Answerable stopped w = Listed ipv6 w.peers w.peers6 × (stopped ≡ false → AllRotate w.torrent)

  left_swarm : Swarm → Work → Work
  left_swarm s w = record w {
    tracker = record (w.tracker) { stats = dec_peers w.tracker.stats };
    torrent = set_swarm s (remove_key id (get_swarm s w.torrent)) w.torrent;
  }

  leave-eq : (s : Swarm) (w : Work) → leave os env vars req ipv6 s w ≡ ok (left_swarm s w)
  unfolding leave remove_peer left_swarm
  leave-eq s w = rw can.peer_id.1 refl

  departed :
      (stopped completed : Bool) (from : Swarm) (w : Work) (k : Work → Outcome Work)
      → Listed ipv6 w.peers w.peers6
      → AllRotate w.torrent
      → (completed ≡ true → (get_swarm (leechers_of (not ipv6)) w.torrent).it ≢ element id)
      → ((w2 : Work) → Answerable stopped w2 → Gives (Answerable stopped) (k w2))
      → Gives (Answerable stopped) (do
        w1 ← (if stopped then leave os env vars req ipv6 from w else ok w)
        w2 ← (if completed then leave os env vars req ipv6 (leechers_of (not ipv6)) w1 else ok w1)
        k w2)
  unfolding Answerable left_swarm
  departed true true from w k l a n g =
      let s : Swarm = leechers_of (not ipv6) in
      let w1 : Work = left_swarm from w in
      Gives-after (Answerable true) (leave os env vars req ipv6 from w) _ w1 (leave-eq from w) (
        Gives-after (Answerable true) (leave os env vars req ipv6 s w1) k (left_swarm s w1)
          (leave-eq s w1) (g (left_swarm s w1) (l, λ h. cc)))
  departed true false from w k l a n g =
      Gives-after (Answerable true) (leave os env vars req ipv6 from w) k (left_swarm from w)
        (leave-eq from w) (g (left_swarm from w) (l, λ h. cc))
  departed false true from w k l a n g =
      let s : Swarm = leechers_of (not ipv6) in
      let rotates = remove_key-Rotates id (get_swarm s w.torrent) (n refl) (a s) in
      Gives-after (Answerable false) (leave os env vars req ipv6 s w) k (left_swarm s w)
        (leave-eq s w) (g (left_swarm s w) (l, λ _. set_swarm-AllRotate s _ w.torrent rotates a))
  departed false false from w k l a n g = g w (l, λ _. a)

  depart-Answerable :
      (old : Torrent) (w : Work)
      → J os env vars req ipv6 old w
      → AllRotate old
      → ((event == codes "completed") ≡ true
          → (get_swarm (leechers_of (not ipv6)) old).it ≢ element id)
      → Gives (Answerable (event == codes "stopped")) (depart os env vars req ipv6 w)
  unfolding depart Answerable
  depart-Answerable old w (steady, l) a n =
      let (left, _, l1, _) = can.left in
      let s : Swarm = leechers_of (not ipv6) in
      let P : Work → Type 0 = Answerable (event == codes "stopped") in
      Gives-after P (at req (codes "event")) _ event can.event.1 (
        Gives-after P (at req (codes "left")) _ left l1 (
          departed (event == codes "stopped") (event == codes "completed")
            (if left != codes "0" then leechers_of ipv6 else seeders_of ipv6) w _ l
            (λ x.
              grown-Rotates (get_swarm x old) (get_swarm x w.torrent) (steady x).0 (steady x).1
                (a x))
            (λ c at_id. n c (sym (steady s).0 ∙ at_id))
            (λ w2 h. Gives-ok P _ (
              if_case P (is_public vars) {x = w2}
                {y = record w2 {
                  tracker = record (w2.tracker) { db = record_torrent w2.torrent w2.tracker.db };
                }}
                h h))))

  work-Answerable :
      (corrupt : ℕ) (old : Torrent) (w : Work)
      → SoundWork vars req w
      → I os env vars req ipv6 old w
      → AllRotate old
      → ((event == codes "completed") ≡ true
          → (get_swarm (leechers_of (not ipv6)) old).it ≢ element id)
      → Gives (Answerable (event == codes "stopped")) (work os env vars req ipv6 corrupt w)
  unfolding work W
  work-Answerable corrupt old w s i a n =
      let P : Work → Type 0 = Answerable (event == codes "stopped") in
      let joins = join os env vars req ipv6 w in
      let Joins : Work → Type 0 =
        λ w. J os env vars req ipv6 old w × (SoundWork vars req w × Reads w) in
      Gives-bind Joins P joins _
        (Gives-Ends (λ w. SoundWork vars req w × Reads w) (J os env vars req ipv6 old) joins
          (Gives-Ends Reads (SoundWork vars req) joins (join-Gives os env vars req ipv6 can w s)
            (join-Sound os env vars req ipv6 w s))
          (join-Steady os env vars req ipv6 old w i))
        λ w1 (j1, r1).
          Gives-bind (λ w. J os env vars req ipv6 old w × Any w) P
            (settle os env vars req ipv6 corrupt w1) _
            (Gives-Ends Any (J os env vars req ipv6 old) (settle os env vars req ipv6 corrupt w1)
              (settle-Gives os env vars req ipv6 can corrupt w1 r1)
              (settle-Steady os env vars req ipv6 old corrupt w1 j1))
            λ w2 (j2, _). depart-Answerable old w2 j2 a n

  replied :
      (stopped : Bool) (w : Work)
      → (event == codes "stopped") ≡ stopped
      → Answerable stopped w
      → Gives Any (reply vars req ipv6 w.torrent w.peers w.peers6)
  unfolding Answerable
  replied true w e (l, _) =
      reply_stopped-Gives vars req ipv6 w.torrent w.peers w.peers6 event can.event.1 e l
  replied false w e (l, a) =
      let (r, run, _) =
        reply-Gives vars req ipv6 w.torrent w.peers w.peers6 event can.event.1 l (a refl) in
      (r, run, tt)

  -- In a valid tracker, an announce on a torrent that is there is answered, whatever its event and the
  -- rows that wait, if the parameters that it reads are there and its numbers are numbers; if, in a
  -- private tracker, its passkey is on an account; if no swarm of the torrent has a dangling iterator;
  -- and if, on `completed`, the iterator of the leechers of the other family of addresses is not at
  -- the peer's own id. No stage throws, or goes through a null or stale pointer.
  pub serve-answered :
      (t : Tracker) (tor : Torrent) (info_hash passkey : Bytes)
      → IsValid vars t
      → find info_hash t.tor_map ≡ some tor
      → at req (codes "reqpasskey") ≡ ok passkey
      → (not (is_private vars) || has (get_user passkey t)) ≡ true
      → AllRotate tor
      → ((event == codes "completed") ≡ true
          → (get_swarm (leechers_of (not ipv6)) tor).it ≢ element id)
      → (text : Bytes) × (t' : Tracker) × (serve os env vars req info_hash ipv6 tor t
          ≡ ok (text, t'))
  unfolding serve
  serve-answered t tor info_hash passkey v found there known a n =
      let sound = Each-find (IsSound vars t.heap) info_hash tor t.tor_map v.sound found in
      let start : SoundWork vars req (begin t tor) = (
        sound,
        (v.torrents_once, v.sound),
        named os env vars req ipv6 can t passkey v.grounded there known,
      ) in
      let ((text, t'), run, _) =
        Gives-bind Any Any (corrupt_of req) _ (corrupt_of-Gives req) λ corrupt _.
          Gives-bind (Answerable (event == codes "stopped")) Any
            (work os env vars req ipv6 corrupt (begin t tor)) _
            (work-Answerable corrupt tor (begin t tor) start (λ s. (refl, λ k h. h)) a n)
            λ w h.
              Gives-bind Any Any (reply vars req ipv6 w.torrent w.peers w.peers6) _
                (replied (event == codes "stopped") w refl h) λ r _. Gives-ok Any _ tt in
      (text, t', run)

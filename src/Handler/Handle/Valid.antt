-- ===== src/Handler/Handle/Valid.antt =====
-- No request breaks the validity of the tracker.
use liquid.Base.{
  ℕ, ◌≡◌, refl, inl, inr, Bool, true, not, ◌&&◌, List, Option, none, some, Bytes, ◌==◌, bytes_eq,
  nat_eq, is_nil, length, if_case, Bool-cases, arith, Option-cases, sym, ◌∙◌,
}
use liquid.Base.Dict.{
  find, has, emplace, Distinct-emplace, Distinct-modify, Each-emplace, Each-modify, Each-find,
}
use liquid.Base.Outcome.{ok, >>=-eq-ok, Ends, Ends-ok, Ends-bind, Ends-after, Ends-if, ok-injective}
use liquid.Base.Text.{codes}
use liquid.Platform.{Platform, Env}
use liquid.Config.{Vars, is_private, is_public}
use liquid.Parser.{init, check}
use liquid.Parser.Parse.{parse}
use liquid.Peers.{Request, at}
use liquid.Torrent.{Torrent, new_torrent}
use liquid.Stats.{inc_torrents}
use liquid.User.{User}
use liquid.Database.{Heap, deref}
use liquid.Database.Accounts.{points_to_user}
use liquid.Handler.{Tracker, get_user}
use liquid.Handler.Update.{front}
use liquid.Handler.Update.Valid.{Kept, update-Kept}
use liquid.Handler.Clean.Expiry.{IsSound}
use liquid.Handler.Valid.{IsValid, IsSound-new_torrent}
use liquid.Handler.Announce.{begin, work, corrupt_of, open_torrent, whitelisted}
use liquid.Handler.Announce.Valid.{Named, SoundWork, work-Sound}
use liquid.Handler.Announce.Reply.{reply}
use liquid.Handler.Announce.Reply.Kept.{reply-IsSound}
use liquid.Handler.Handle.{
  plain_id, started, serve, may_announce, announce_on, announce, start_announce, refuses_ip,
  by_action, route, handle_client, is_update, handle_parsed, handle,
}
use liquid.Handler.Handle.Grounded.{handle-Grounded}

-- The tracker beside a reply.
abbrev KeptBy : Vars → Bytes × Tracker → Type 0
KeptBy vars r = Kept vars r.1

deref-points :
    (heap : Heap) (a : Option ℕ) (u : User) → deref heap a ≡ ok u → points_to_user heap a ≡ true
deref-points heap none u e = absurd (cc)
deref-points heap (some a) u e = elim (Option-cases (find a heap)) [
  | inl h ↦ absurd (ground (arith, h, e))
  | inr (v, h) ↦ rw h refl
]

module _ (os : Platform) (env : Env) (vars : Vars) where
  K : Bytes × Tracker → Type 0
  K = KeptBy vars

  -- Who may announce in a private tracker has an account.
  may_announce-Named :
      (req : Request) (t : Tracker)
      → Ends (λ (b : Bool). Named vars req t) (may_announce os env vars req t)
  unfolding may_announce get_user
  may_announce-Named req t b e passkey h = elim (Bool-cases (is_private vars)) [
    | inr public ↦ rw public refl
    | inl private ↦
        let (k, e1, e2) = >>=-eq-ok (at req (codes "reqpasskey")) _ (rw private at e) in
        let (u, e3, e4) = >>=-eq-ok (deref t.heap (find k t.usr_map)) _ e2 in
        let same : k ≡ passkey = ok-injective (sym e1 ∙ h) in
        rw (private, sym same) (deref-points t.heap (find k t.usr_map) u e3)
  ]

  serve-Kept :
      (req : Request) (h : Bytes) (ipv6 : Bool) (tor : Torrent) (t : Tracker)
      → IsSound vars t.heap tor
      → Kept vars t
      → Named vars req t
      → Ends K (serve os env vars req h ipv6 tor t)
  unfolding serve K
  serve-Kept req h ipv6 tor t s k n = Ends-after K (corrupt_of req) _ λ c.
      Ends-bind (SoundWork vars req) K (work os env vars req ipv6 c (begin t tor)) _
        (work-Sound os env vars req ipv6 c (begin t tor) (s, k, n))
        λ w (s1, k1, n1).
          Ends-bind (λ (r : Bytes × Torrent). IsSound vars w.tracker.heap r.1) K
            (reply vars req ipv6 w.torrent w.peers w.peers6) _
            (reply-IsSound vars w.tracker.heap req ipv6 w.torrent w.peers w.peers6 s1)
            λ r s2. Ends-ok K _ (
              Distinct-modify h (λ _. r.1) w.tracker.tor_map k1.0,
              Each-modify (IsSound vars w.tracker.heap) h (λ _. r.1) w.tracker.tor_map (λ _ _. s2)
                  k1.1,
            )

  announce_on-Kept :
      (req : Request) (h : Bytes) (ipv6 : Bool) (t : Tracker) (o : Option Torrent)
      → find h t.tor_map ≡ o
      → Kept vars t
      → Ends K (announce_on os env vars req h ipv6 t o)
  unfolding announce_on K
  announce_on-Kept req h ipv6 t none f k b e = Ends-ok K _ k b e
  announce_on-Kept req h ipv6 t (some tor) f k b e =
      Ends-bind (λ (b : Bool). Named vars req t) K (may_announce os env vars req t) _
        (may_announce-Named req t)
        (λ allowed n.
          Ends-if K allowed
            (serve-Kept req h ipv6 tor t (Each-find (IsSound vars t.heap) h tor t.tor_map k.1 f) k
              n)
            (Ends-ok K _ k))
        b e

  open_torrent-Kept : (h : Bytes) (t : Tracker) → Kept vars t → Kept vars (open_torrent vars h t)
  unfolding open_torrent
  open_torrent-Kept h t k =
      let tor = new_torrent t.stats.torrents 0 0 0 in
      if_case (Kept vars) (is_public vars && not (has (find h t.tor_map)))
        {x = record t { tor_map = emplace h tor t.tor_map; stats = inc_torrents t.stats }} {y = t}
        (
          Distinct-emplace h tor t.tor_map k.0,
          Each-emplace (IsSound vars t.heap) h tor t.tor_map
              (IsSound-new_torrent vars t.heap t.stats.torrents 0 0 0) k.1,
        )
        k

  announce-Kept :
      (req : Request) (h : Bytes) (ipv6 : Bool) (t : Tracker)
      → Kept vars t
      → Ends K (announce os env vars req h ipv6 t)
  unfolding announce K
  announce-Kept req h ipv6 t k = Ends-after K (at req (codes "event")) _ λ e.
      Ends-after K (at req (codes "peer_id")) _ λ id.
        Ends-if K (not (is_nil t.client_whitelist) && not (whitelisted t.client_whitelist id))
          (Ends-ok K _ k)
          (announce_on-Kept req h ipv6 (open_torrent vars h t) _ refl (open_torrent-Kept h t k))

  start_announce-Kept :
      (req : Request) (h : Bytes) (ipv6 : Bool) (t : Tracker)
      → Kept vars t
      → Ends K (start_announce os env vars req h ipv6 t)
  unfolding start_announce K
  start_announce-Kept req h ipv6 t k = Ends-after K (at req (codes "peer_id")) _ λ id.
      Ends-if K (length (plain_id id) == 20) (announce-Kept (started (plain_id id) req) h ipv6 t k)
        (Ends-ok K _ k)

  by_action-Kept :
      (req : Request) (hs : List Bytes) (ipv6 : Bool) (t : Tracker)
      → Kept vars t
      → Ends K (by_action os env vars req hs ipv6 t)
  unfolding by_action K
  by_action-Kept req hs ipv6 t k = Ends-after K (at req (codes "action")) _ λ action.
      Ends-if K (action == codes "announce")
        (Ends-after K (front hs) _ λ h. start_announce-Kept req h ipv6 t k)
        (Ends-if K (action == codes "scrape") (Ends-ok K _ k) (Ends-ok K _ k))

  route-Kept :
      (req : Request) (hs : List Bytes) (user : Option ℕ) (ipv6 : Bool) (t : Tracker)
      → Kept vars t
      → Ends K (route os env vars req hs user ipv6 t)
  unfolding route K
  route-Kept req hs user ipv6 t k = Ends-after K (at req (codes "ip")) _ λ ip.
      Ends-if K (has (find ip t.banned_ips)) (Ends-ok K _ k) (
        Ends-after K (refuses_ip os env vars req user t) _
          λ restricted. Ends-if K restricted (Ends-ok K _ k) (by_action-Kept req hs ipv6 t k))

  handle_client-Kept :
      (req : Request) (hs : List Bytes) (ip : Bytes) (ipv6 : Bool) (t : Tracker)
      → Kept vars t
      → Ends K (handle_client os env vars req hs ip ipv6 t)
  unfolding handle_client K
  handle_client-Kept req hs ip ipv6 t k = Ends-after K (at req (codes "reqpasskey")) _ λ passkey.
      Ends-if K (is_private vars && not (has (get_user passkey t))) (Ends-ok K _ k) (
        Ends-if K (is_nil hs) (Ends-ok K _ k)
          (route-Kept (emplace (codes "ip") ip req) hs (get_user passkey t) ipv6 t k))

  handle_parsed-Kept :
      (req : Request) (hs : List Bytes) (ip : Bytes) (ipv6 : Bool) (t : Tracker)
      → Kept vars t
      → Ends K (handle_parsed os env vars (req, hs) ip ipv6 t)
  unfolding handle_parsed K
  handle_parsed-Kept req hs ip ipv6 t k =
      Ends-if K (check (init vars) req == codes "success")
        (Ends-after K (is_update os env vars req) _ λ updates.
          Ends-if K updates (λ (text, t') e. update-Kept vars os env.now req hs t k text t' e)
            (handle_client-Kept req hs ip ipv6 t k))
        (Ends-ok K _ k)

  -- Whatever text a client sends, a valid tracker is valid after the request too, if the request is
  -- answered: info hashes, and peer ids within a swarm, stay distinct, and every passkey, and in a
  -- private tracker every peer, still leads to an account in the heap.
  pub handle-IsValid :
      (str ip : Bytes) (ipv6 : Bool) (t : Tracker) (text : Bytes) (t' : Tracker)
      → IsValid vars t
      → handle os env vars str ip ipv6 t ≡ ok (text, t')
      → IsValid vars t'
  unfolding handle K
  handle-IsValid str ip ipv6 t text t' v e =
      let (d, s) =
        handle_parsed-Kept (parse str).0 (parse str).1 ip ipv6 t (v.torrents_once, v.sound)
          (text, t') e in
      record {
        torrents_once = d;
        sound = s;
        grounded = handle-Grounded os env vars str ip ipv6 t text t' v.grounded e;
      }

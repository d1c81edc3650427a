-- ===== src/Handler/Handle/Grounded.antt =====
-- No request takes a passkey off an account in the heap.
use liquid.Base.{
  ℕ, ◌≡◌, Bool, not, ◌&&◌, List, Option, none, some, Bytes, ◌==◌, bytes_eq, nat_eq, is_nil, length,
  if_case,
}
use liquid.Base.Dict.{find, has, emplace}
use liquid.Base.Outcome.{ok, Ends, Ends-ok, Ends-bind, Ends-after, Ends-if}
use liquid.Base.Text.{codes}
use liquid.Platform.{Platform, Env}
use liquid.Config.{Vars, is_private, is_public}
use liquid.Parser.{init, check}
use liquid.Parser.Parse.{parse}
use liquid.Peers.{Request, at}
use liquid.Torrent.{Torrent, new_torrent}
use liquid.Stats.{inc_torrents}
use liquid.Handler.{Tracker, get_user}
use liquid.Handler.Update.{front}
use liquid.Handler.Update.Grounded.{Grounded, update-Grounded}
use liquid.Handler.Announce.{begin, work, corrupt_of, open_torrent, whitelisted}
use liquid.Handler.Announce.Grounded.{Kept, work-Grounded}
use liquid.Handler.Announce.Reply.{reply}
use liquid.Handler.Handle.{
  plain_id, started, serve, may_announce, announce_on, announce, start_announce, refuses_ip,
  by_action, route, handle_client, is_update, handle_parsed, handle,
}

-- The tracker beside a reply is grounded.
abbrev KeptBy : Bytes × Tracker → Type 0
KeptBy r = Grounded r.1

module _ (os : Platform) (env : Env) (vars : Vars) where
  serve-Grounded :
      (req : Request) (h : Bytes) (ipv6 : Bool) (tor : Torrent) (t : Tracker)
      → Grounded t
      → Ends KeptBy (serve os env vars req h ipv6 tor t)
  unfolding serve get_user
  serve-Grounded req h ipv6 tor t g = Ends-after KeptBy (corrupt_of req) _ λ c.
      Ends-bind Kept KeptBy (work os env vars req ipv6 c (begin t tor)) _
        (work-Grounded os env vars req ipv6 c (begin t tor) g)
        λ w g1.
          Ends-after KeptBy (reply vars req ipv6 w.torrent w.peers w.peers6) _
            λ r. Ends-ok KeptBy _ g1

  announce_on-Grounded :
      (req : Request) (h : Bytes) (ipv6 : Bool) (t : Tracker) (o : Option Torrent)
      → Grounded t
      → Ends KeptBy (announce_on os env vars req h ipv6 t o)
  unfolding announce_on
  announce_on-Grounded req h ipv6 t none g b e = Ends-ok KeptBy _ g b e
  announce_on-Grounded req h ipv6 t (some tor) g b e =
      Ends-after KeptBy (may_announce os env vars req t) _
        (λ allowed. Ends-if KeptBy allowed (serve-Grounded req h ipv6 tor t g) (Ends-ok KeptBy _ g))
        b e

  open_torrent-Grounded : (h : Bytes) (t : Tracker) → Grounded t → Grounded (open_torrent vars h t)
  unfolding open_torrent get_user
  open_torrent-Grounded h t g =
      if_case Grounded (is_public vars && not (has (find h t.tor_map)))
        {x = record t {
          tor_map = emplace h (new_torrent t.stats.torrents 0 0 0) t.tor_map;
          stats = inc_torrents t.stats;
        }}
        {y = t} g g

  announce-Grounded :
      (req : Request) (h : Bytes) (ipv6 : Bool) (t : Tracker)
      → Grounded t
      → Ends KeptBy (announce os env vars req h ipv6 t)
  unfolding announce
  announce-Grounded req h ipv6 t g = Ends-after KeptBy (at req (codes "event")) _ λ e.
      Ends-after KeptBy (at req (codes "peer_id")) _ λ id.
        Ends-if KeptBy (not (is_nil t.client_whitelist) && not (whitelisted t.client_whitelist id))
          (Ends-ok KeptBy _ g)
          (announce_on-Grounded req h ipv6 (open_torrent vars h t) _ (open_torrent-Grounded h t g))

  start_announce-Grounded :
      (req : Request) (h : Bytes) (ipv6 : Bool) (t : Tracker)
      → Grounded t
      → Ends KeptBy (start_announce os env vars req h ipv6 t)
  unfolding start_announce
  start_announce-Grounded req h ipv6 t g = Ends-after KeptBy (at req (codes "peer_id")) _ λ id.
      Ends-if KeptBy (length (plain_id id) == 20)
        (announce-Grounded (started (plain_id id) req) h ipv6 t g) (Ends-ok KeptBy _ g)

  by_action-Grounded :
      (req : Request) (hs : List Bytes) (ipv6 : Bool) (t : Tracker)
      → Grounded t
      → Ends KeptBy (by_action os env vars req hs ipv6 t)
  unfolding by_action
  by_action-Grounded req hs ipv6 t g = Ends-after KeptBy (at req (codes "action")) _ λ action.
      Ends-if KeptBy (action == codes "announce")
        (Ends-after KeptBy (front hs) _ λ h. start_announce-Grounded req h ipv6 t g)
        (Ends-if KeptBy (action == codes "scrape") (Ends-ok KeptBy _ g) (Ends-ok KeptBy _ g))

  route-Grounded :
      (req : Request) (hs : List Bytes) (user : Option ℕ) (ipv6 : Bool) (t : Tracker)
      → Grounded t
      → Ends KeptBy (route os env vars req hs user ipv6 t)
  unfolding route
  route-Grounded req hs user ipv6 t g = Ends-after KeptBy (at req (codes "ip")) _ λ ip.
      Ends-if KeptBy (has (find ip t.banned_ips)) (Ends-ok KeptBy _ g) (
        Ends-after KeptBy (refuses_ip os env vars req user t) _ λ restricted.
          Ends-if KeptBy restricted (Ends-ok KeptBy _ g) (by_action-Grounded req hs ipv6 t g))

  handle_client-Grounded :
      (req : Request) (hs : List Bytes) (ip : Bytes) (ipv6 : Bool) (t : Tracker)
      → Grounded t
      → Ends KeptBy (handle_client os env vars req hs ip ipv6 t)
  unfolding handle_client
  handle_client-Grounded req hs ip ipv6 t g =
      Ends-after KeptBy (at req (codes "reqpasskey")) _ λ passkey.
        Ends-if KeptBy (is_private vars && not (has (get_user passkey t))) (Ends-ok KeptBy _ g) (
          Ends-if KeptBy (is_nil hs) (Ends-ok KeptBy _ g)
            (route-Grounded (emplace (codes "ip") ip req) hs (get_user passkey t) ipv6 t g))

  handle_parsed-Grounded :
      (req : Request) (hs : List Bytes) (ip : Bytes) (ipv6 : Bool) (t : Tracker)
      → Grounded t
      → Ends KeptBy (handle_parsed os env vars (req, hs) ip ipv6 t)
  unfolding handle_parsed
  handle_parsed-Grounded req hs ip ipv6 t g =
      Ends-if KeptBy (check (init vars) req == codes "success")
        (Ends-after KeptBy (is_update os env vars req) _ λ updates.
          Ends-if KeptBy updates (λ (text, t') e. update-Grounded os env.now req hs t g text t' e)
            (handle_client-Grounded req hs ip ipv6 t g))
        (Ends-ok KeptBy _ g)

  -- Whatever text a client sends, a tracker whose every passkey leads to an account in the heap
  -- is one after the request too, if the request is answered: no update, announce or scrape leaves a
  -- passkey on an account that cannot be read.
  pub handle-Grounded :
      (str ip : Bytes) (ipv6 : Bool) (t : Tracker) (text : Bytes) (t' : Tracker)
      → Grounded t
      → handle os env vars str ip ipv6 t ≡ ok (text, t')
      → Grounded t'
  unfolding handle
  handle-Grounded str ip ipv6 t text t' g e =
      handle_parsed-Grounded (parse str).0 (parse str).1 ip ipv6 t g (text, t') e

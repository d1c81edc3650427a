-- ===== src/Handler/Handle/Refusal.antt =====
-- Who may change a private tracker by a request that is no update.
use liquid.Base.{
  ℕ, ◌≡◌, refl, sym, ◌∙◌, ◌⊎◌, inl, inr, Bool, true, false, not, ◌&&◌, ◌||◌, List, [], ◌∷◌, Option,
  none, some, Bytes, arith, ◌==◌, bytes_eq, nat_eq, bytes_beq, bytes_beq_iff, nat_beq_iff,
  Bool-cases, if◌then◌else◌, is_nil, length,
}
use liquid.Base.Dict.{find, emplace, has, find-emplace, find-modify}
use liquid.Base.Outcome.{ok, ◌>>=◌, ok-injective, >>=-eq-ok, or_stop-eq-ok}
use liquid.Base.Text.{codes}
use liquid.Platform.{Platform, Env}
use liquid.Config.{Vars, get, is_private, is_public}
use liquid.User.{User, is_authorized, is_restricted}
use liquid.Peers.{Request, at}
use liquid.Torrent.{Torrent}
use liquid.Database.{deref}
use liquid.Handler.Update.{front}
use liquid.Handler.{Tracker, get_user}
use liquid.Handler.Announce.{open_torrent, whitelisted}
use liquid.Handler.Handle.{
  plain_id, started, may_announce, announce_on, announce, start_announce, route, handle_client,
  refuses_ip, by_action,
}

pub private_not_public : (vars : Vars) → is_private vars ≡ true → is_public vars ≡ false
private_not_public vars h =
    let e : get vars (codes "type") ≡ codes "private" = (bytes_beq_iff _ _).0 h in
    rw e (unfold bytes_beq in refl)

-- What a request that changes the tracker has shown: that it is an announce, the passkey of an account that may announce,
-- an address that is not banned and that the account may use, a torrent that is there, and a client
-- on the list, if there is one.
pub record Admitted (req : Request) (ip : Bytes) (info_hashes : List Bytes) (t : Tracker)
    : Type 0 where
  pub passkey : Bytes
  pub user : User
  pub info_hash : Bytes
  pub others : List Bytes
  pub address : Bytes
  pub peer_id : Bytes
  pub is_announce : find (codes "action") req ≡ some (codes "announce")
  pub has_passkey : find (codes "reqpasskey") req ≡ some passkey
  pub known : deref t.heap (get_user passkey t) ≡ ok user
  pub authorized : is_authorized user ≡ true
  pub has_hash : info_hashes ≡ info_hash ∷ others
  pub tracked : has (find info_hash t.tor_map) ≡ true
  pub has_address : find (codes "ip") (emplace (codes "ip") ip req) ≡ some address
  pub not_banned : find address t.banned_ips ≡ none
  pub allowed : is_restricted address user ≡ false
  pub has_id : find (codes "peer_id") (emplace (codes "ip") ip req) ≡ some peer_id
  pub full_id : length (plain_id peer_id) ≡ 20
  pub listed :
      (is_nil t.client_whitelist || whitelisted t.client_whitelist (plain_id peer_id)) ≡ true

started-reqpasskey :
    (id : Bytes) (req : Request)
    → find (codes "reqpasskey") (started id req) ≡ find (codes "reqpasskey") req
unfolding bytes_beq
started-reqpasskey id req =
    find-emplace (codes "event") (codes "reqpasskey") _ _
    ∙ find-modify (codes "peer_id") (codes "reqpasskey") _ req

if_if_inv {ℓ} :
    {A : Type ℓ} (a b : Bool) (x y z : A) {r : A}
    → (if a then x else if b then y else z) ≡ r
    → (x ≡ r) ⊎ ((y ≡ r) ⊎ (z ≡ r))
if_if_inv true b x y z h = inl h
if_if_inv false true x y z h = inr (inl h)
if_if_inv false false x y z h = inr (inr h)

addressed-reqpasskey :
    (ip : Bytes) (req : Request)
    → find (codes "reqpasskey") (emplace (codes "ip") ip req) ≡ find (codes "reqpasskey") req
unfolding bytes_beq
addressed-reqpasskey ip req = find-emplace (codes "ip") (codes "reqpasskey") ip req

addressed-action :
    (ip : Bytes) (req : Request)
    → find (codes "action") (emplace (codes "ip") ip req) ≡ find (codes "action") req
unfolding bytes_beq
addressed-action ip req = find-emplace (codes "ip") (codes "action") ip req

started-peer_id :
    (id peer_id : Bytes) (req : Request)
    → find (codes "peer_id") req ≡ some peer_id
    → find (codes "peer_id") (started id req) ≡ some id
unfolding bytes_beq
started-peer_id id peer_id req h =
    find-emplace (codes "event") (codes "peer_id") _ _
    ∙ (find-modify (codes "peer_id") (codes "peer_id") _ req ∙ rw h)

module _ (os : Platform) (env : Env) (vars : Vars) (private : is_private vars ≡ true) where
  may_announce_inv :
      (req : Request) (t : Tracker)
      → may_announce os env vars req t ≡ ok true
      → (key : Bytes) × (u : User) × (find (codes "reqpasskey") req ≡ some key)
        × (deref t.heap (get_user key t) ≡ ok u)
        × (is_authorized u ≡ true)
  unfolding may_announce
  may_announce_inv req t h =
      let (key, a, h1) = >>=-eq-ok (at req (codes "reqpasskey")) _ (rw private at h) in
      let (u, b, h2) = >>=-eq-ok (deref t.heap (get_user key t)) _ h1 in
      (key, u, or_stop-eq-ok _ _ a, b, ground arith)

  announce_on_inv :
      (req : Request) (info_hash : Bytes) (ipv6 : Bool) (t : Tracker) (tor : Option Torrent)
      (text : Bytes) (t' : Tracker)
      → announce_on os env vars req info_hash ipv6 t tor ≡ ok (text, t')
      → (t' ≡ t) ⊎ ((has tor ≡ true) × (may_announce os env vars req t ≡ ok true))
  unfolding announce_on
  announce_on_inv req info_hash ipv6 t none text t' h = inl cc
  announce_on_inv req info_hash ipv6 t (some tor) text t' h =
      let (allowed, a, h1) = >>=-eq-ok (may_announce os env vars req t) _ h in
      elim (Bool-cases allowed) [
        | inl y ↦ inr (refl, rw y at a)
        | inr n ↦ let h2 = rw n at h1 in inl cc
      ]

  open_torrent_private : (info_hash : Bytes) (t : Tracker) → open_torrent vars info_hash t ≡ t
  unfolding open_torrent
  open_torrent_private info_hash t = rw (private_not_public vars private)

  announce_inv :
      (req : Request) (info_hash : Bytes) (ipv6 : Bool) (t : Tracker) (text : Bytes) (t' : Tracker)
      → announce os env vars req info_hash ipv6 t ≡ ok (text, t')
      → (t' ≡ t)
        ⊎ ((client : Bytes) × (find (codes "peer_id") req ≡ some client)
            × (has (find info_hash t.tor_map) ≡ true)
            × (may_announce os env vars req t ≡ ok true)
            × ((is_nil t.client_whitelist || whitelisted t.client_whitelist client) ≡ true))
  unfolding announce
  announce_inv req info_hash ipv6 t text t' h =
      let (event, a, h1) = >>=-eq-ok (at req (codes "event")) _ h in
      let (client, b, h2) = >>=-eq-ok (at req (codes "peer_id")) _ h1 in
      elim (Bool-cases
        (not (is_nil t.client_whitelist) && not (whitelisted t.client_whitelist client))) [
          | inl refused ↦ let h3 = rw refused at h2 in inl cc
          | inr listed ↦
              let h3 = rw (listed, open_torrent_private info_hash t) at h2 in
              elim (announce_on_inv req info_hash ipv6 t (find info_hash t.tor_map) text t' h3) [
                | inl same ↦ inl same
                | inr (there, may) ↦ inr (client, or_stop-eq-ok _ _ b, there, may, ground arith)
              ]
        ]

  start_announce_inv :
      (req : Request) (info_hash : Bytes) (ipv6 : Bool) (t : Tracker) (text : Bytes) (t' : Tracker)
      → start_announce os env vars req info_hash ipv6 t ≡ ok (text, t')
      → (t' ≡ t)
        ⊎ ((peer_id key : Bytes) × (u : User) × (find (codes "peer_id") req ≡ some peer_id)
            × (length (plain_id peer_id) ≡ 20)
            × (has (find info_hash t.tor_map) ≡ true)
            × (find (codes "reqpasskey") req ≡ some key)
            × (deref t.heap (get_user key t) ≡ ok u)
            × (is_authorized u ≡ true)
            × ((is_nil t.client_whitelist || whitelisted t.client_whitelist (plain_id peer_id))
                ≡ true))
  unfolding start_announce
  start_announce_inv req info_hash ipv6 t text t' h =
      let (peer_id, a, h1) = >>=-eq-ok (at req (codes "peer_id")) _ h in
      elim (Bool-cases (length (plain_id peer_id) == 20)) [
        | inr bad ↦ let h2 = rw bad at h1 in inl cc
        | inl full ↦
            let h2 = rw full at h1 in
            elim (announce_inv _ info_hash ipv6 t text t' h2) [
              | inl same ↦ inl same
              | inr (client, id, there, may, listed) ↦
                  let (key, u, k, d, w) = may_announce_inv _ t may in
                  let has_id = or_stop-eq-ok _ _ a in
                  let same : client ≡ plain_id peer_id =
                    cc (started-peer_id (plain_id peer_id) peer_id req has_id) in
                  inr (
                    peer_id,
                    key,
                    u,
                    has_id,
                    (nat_beq_iff _ _).0 full,
                    there,
                    sym (started-reqpasskey _ req) ∙ k,
                    d,
                    w,
                    rw same at listed,
                  )
            ]
      ]

  refuses_ip_inv :
      (req : Request) (user : Option ℕ) (t : Tracker) (address : Bytes)
      → at req (codes "ip") ≡ ok address
      → refuses_ip os env vars req user t ≡ ok false
      → (u : User) × (deref t.heap user ≡ ok u) × (is_restricted address u ≡ false)
  unfolding refuses_ip
  refuses_ip_inv req user t address a h =
      let (address', b, h1) = >>=-eq-ok (at req (codes "ip")) _ (rw private at h) in
      let (u, d, h2) = >>=-eq-ok (deref t.heap user) _ h1 in
      let same : address' ≡ address = cc in (u, d, rw same at (ok-injective h2))

  by_action_inv :
      (req : Request) (hs : List Bytes) (ipv6 : Bool) (t : Tracker) (text : Bytes) (t' : Tracker)
      → by_action os env vars req hs ipv6 t ≡ ok (text, t')
      → (t' ≡ t)
        ⊎ ((info_hash : Bytes) × (others : List Bytes) × (find (codes "action") req
              ≡ some (codes "announce"))
            × (hs ≡ info_hash ∷ others)
            × (start_announce os env vars req info_hash ipv6 t ≡ ok (text, t')))
  unfolding by_action
  by_action_inv req hs ipv6 t text t' h =
      let (action, a, h1) = >>=-eq-ok (at req (codes "action")) _ h in
      elim (Bool-cases (action == codes "announce")) [
        | inl yes' ↦
            let named = (bytes_beq_iff _ _).0 yes' in
            with_hash (rw named at (or_stop-eq-ok _ _ a)) hs (rw yes' at h1)
        | inr no' ↦ elim (Bool-cases (action == codes "scrape")) [
          | inl s ↦ let h2 = rw (no', s) at h1 in inl cc
          | inr s ↦ let h2 = rw (no', s) at h1 in inl cc
        ]
      ]
    where
      with_hash :
          find (codes "action") req ≡ some (codes "announce")
          → (l : List Bytes)
          → (front l >>= λ info_hash. start_announce os env vars req info_hash ipv6 t)
            ≡ ok (text, t')
          → (t' ≡ t)
            ⊎ ((info_hash : Bytes) × (others : List Bytes) × (find (codes "action") req
                  ≡ some (codes "announce"))
                × (l ≡ info_hash ∷ others)
                × (start_announce os env vars req info_hash ipv6 t ≡ ok (text, t')))
      with_hash named [] e = cc
      with_hash named (x ∷ l) e = inr (x, l, named, refl, e)

  -- Below the checks of the passkey and the info hash.
  route_inv :
      (req : Request) (hs : List Bytes) (user : Option ℕ) (ipv6 : Bool) (t : Tracker) (text : Bytes)
      (t' : Tracker)
      → route os env vars req hs user ipv6 t ≡ ok (text, t')
      → (t' ≡ t)
        ⊎ ((address info_hash : Bytes) × (others : List Bytes) × (u : User) × (find (codes "ip") req
              ≡ some address)
            × (find address t.banned_ips ≡ none)
            × (deref t.heap user ≡ ok u)
            × (is_restricted address u ≡ false)
            × (find (codes "action") req ≡ some (codes "announce"))
            × (hs ≡ info_hash ∷ others)
            × (start_announce os env vars req info_hash ipv6 t ≡ ok (text, t')))
  unfolding route
  route_inv req hs user ipv6 t text t' h =
      let (address, a, h1) = >>=-eq-ok (at req (codes "ip")) _ h in
      elim (Bool-cases (has (find address t.banned_ips))) [
        | inl banned ↦ let h2 = rw banned at h1 in inl cc
        | inr free ↦
            let h2 = rw free at h1 in
            let (restricted, b, h3) = >>=-eq-ok (refuses_ip os env vars req user t) _ h2 in
            elim (Bool-cases restricted) [
              | inl r ↦ let h4 = rw r at h3 in inl cc
              | inr r ↦
                  let h4 = rw r at h3 in
                  let (u, d, e) = refuses_ip_inv req user t address a (rw r at b) in
                  elim (by_action_inv req hs ipv6 t text t' h4) [
                    | inl same ↦ inl same
                    | inr (info_hash, others, named, hashes, start) ↦ inr (
                      address,
                      info_hash,
                      others,
                      u,
                      or_stop-eq-ok _ _ a,
                      ground arith,
                      d,
                      e,
                      named,
                      hashes,
                      start,
                    )
                  ]
            ]
      ]

  -- In a private tracker, a request that is no update and is answered leaves the whole tracker as it
  -- was, or all of this holds: its action is announce; its passkey leads to an account, which is
  -- authorized; its address (the parameter ip, or else that of the connection) is not banned, and the
  -- account is not restricted from it; it has an info hash, and a torrent with the first one is there;
  -- its peer id, decoded, is 20 bytes long and on the list of clients, if there is one.
  pub handle_client-Admitted :
      (req : Request) (hs : List Bytes) (ip : Bytes) (ipv6 : Bool) (t : Tracker) (text : Bytes)
      (t' : Tracker)
      → handle_client os env vars req hs ip ipv6 t ≡ ok (text, t')
      → (t' ≡ t) ⊎ Admitted req ip hs t
  unfolding handle_client
  handle_client-Admitted req hs ip ipv6 t text t' h =
      let (passkey, a, h1) = >>=-eq-ok (at req (codes "reqpasskey")) _ h in
      elim (if_if_inv (is_private vars && not (has (get_user passkey t))) (is_nil hs) _ _ _ h1) [
        | inl unknown ↦ inl cc
        | inr later ↦ elim later [
          | inl empty ↦ inl cc
          | inr h2 ↦
              let req' = emplace (codes "ip") ip req in
              elim (route_inv req' hs (get_user passkey t) ipv6 t text t' h2) [
                | inl same ↦ inl same
                | inr (address, info_hash, others, u, b, free, d, allowed, named, hashes, start) ↦
                    elim (start_announce_inv req' info_hash ipv6 t text t' start) [
                      | inl same ↦ inl same
                      | inr (peer_id, key, v, id, full, tracked, k, e, may, listed) ↦
                          let has_key = or_stop-eq-ok _ _ a in
                          let same_key : key ≡ passkey =
                            cc (addressed-reqpasskey ip req, has_key) in
                          let same_user : v ≡ u = cc (rw same_key at e, d) in
                          inr (record {
                            passkey = passkey;
                            user = u;
                            info_hash = info_hash;
                            others = others;
                            address = address;
                            peer_id = peer_id;
                            is_announce = cc (addressed-action ip req, named);
                            has_passkey = has_key;
                            known = d;
                            authorized = rw same_user at may;
                            has_hash = hashes;
                            tracked = tracked;
                            has_address = b;
                            not_banned = free;
                            allowed = allowed;
                            has_id = id;
                            full_id = full;
                            listed = listed;
                          })
                    ]
              ]
        ]
      ]

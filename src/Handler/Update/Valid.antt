-- ===== src/Handler/Update/Valid.antt =====
-- An update keeps the tracker valid.
use liquid.Base.{
  ℕ, ◌≡◌, Bool, true, Option, none, some, Bytes, arith, ◌==◌, bytes_eq, nat_eq, List, [], ◌∷◌,
  length, ◌%◌, zero, suc, take, drop, if_case, if◌then◌else◌,
}
use liquid.Base.Dict.{
  Dict, find, emplace, erase, modify, has, Distinct, Distinct-emplace, Distinct-erase,
  Distinct-modify, Each-emplace, Each-erase, Each-modify, Each-mono,
}
use liquid.Base.Outcome.{
  Outcome, ok, Ends, Ends-ok, Ends-after, Ends-if, >>=-eq-ok, or_stop, out_of_range, ◌>>=◌,
}
use liquid.Base.Text.{codes}
use liquid.Base.Int.{stoul}
use liquid.Base.Words.{u32}
use liquid.Platform.{Platform}
use liquid.Config.{Vars}
use liquid.User.{User, new_user, set_authorized}
use liquid.Torrent.{
  Torrent, new_torrent, set_free, get_swarm, seeding, seeding6, leeching, leeching6,
}
use liquid.Peers.{Request, at}
use liquid.Database.{deref, Heap}
use liquid.Handler.{Tracker, get_user, with_user}
use liquid.Handler.Clean.Expiry.{IsSound, AllSound}
use liquid.Handler.Update.{
  add_ip_restriction, remove_ip_restriction, add_token, remove_token, change_passkey, add_torrent,
  delete_torrent, update_torrent, add_user, update_user, remove_user, remove_users, add_ban,
  remove_ban, add_whitelist, edit_whitelist, remove_whitelist, set_leech_status, dispatch, update,
  move_user, drop_user, remove_each, authorize, front, user_at, free_of,
}
use liquid.Handler.Valid.{Grows, Grows-modify, Grows-emplace, IsSound-Grows, IsSound-new_torrent}

-- What an update could break beside the passkeys.
abbrev pub Kept : Vars → Tracker → Type 0
Kept vars t = Distinct t.tor_map × AllSound vars t.heap t.tor_map

module _ (vars : Vars) where
  pub Kept-Grows :
      (t : Tracker) (heap : Heap)
      → Grows t.heap heap
      → Kept vars t
      → Kept vars (record t { heap = heap })
  Kept-Grows t heap g (d, a) = (
    d,
    Each-mono (IsSound vars t.heap) (IsSound vars heap) t.tor_map
        (λ tor. IsSound-Grows vars t.heap heap tor g) a,
  )

  pub with_user-Kept :
      (address : Option ℕ) (f : User → User) (t : Tracker)
      → Kept vars t
      → Ends (Kept vars) (with_user address f t)
  unfolding with_user
  with_user-Kept none f t k t' e = absurd (ground arith)
  with_user-Kept (some a) f t k t' e =
      Ends-after (Kept vars) (deref t.heap (some a))
        (λ _. ok (record t { heap = modify a f t.heap }))
        (λ _. Ends-ok (Kept vars) _ (Kept-Grows t (modify a f t.heap) (Grows-modify a f t.heap) k))
        t' e

  move_user-Kept :
      (old new : Bytes) (u : Option ℕ) (t : Tracker)
      → Kept vars t
      → Kept vars (move_user old new u t)
  unfolding move_user
  move_user-Kept old new none t k = k
  move_user-Kept old new (some u) t k = k

  drop_user-Kept : (passkey : Bytes) (t : Tracker) → Kept vars t → Kept vars (drop_user passkey t)
  unfolding drop_user
  drop_user-Kept passkey t k =
      if_case (Kept vars) (has (get_user passkey t))
        {x = record t { usr_map = erase passkey t.usr_map }} {y = t} k k

  remove_each-Kept :
      (fuel : ℕ) (passkeys : Bytes) (t : Tracker)
      → Kept vars t
      → Kept vars (remove_each fuel passkeys t)
  unfolding remove_each
  remove_each-Kept zero passkeys t k = k
  remove_each-Kept (suc fuel) [] t k = k
  remove_each-Kept (suc fuel) (c ∷ cs) t k =
      remove_each-Kept fuel (drop 32 (c ∷ cs)) (drop_user (take 32 (c ∷ cs)) t)
        (drop_user-Kept (take 32 (c ∷ cs)) t k)

  IsSound-set_free :
      (free : ℕ) (heap : Heap) (tor : Torrent)
      → IsSound vars heap tor
      → IsSound vars heap (set_free free tor)
  unfolding set_free get_swarm
  IsSound-set_free free heap tor h seeding = h seeding
  IsSound-set_free free heap tor h seeding6 = h seeding6
  IsSound-set_free free heap tor h leeching = h leeching
  IsSound-set_free free heap tor h leeching6 = h leeching6

  freed-Kept :
      (h : Bytes) (free : ℕ) (t : Tracker)
      → Kept vars t
      → Kept vars (record t { tor_map = modify h (set_free free) t.tor_map })
  freed-Kept h free t (d, a) = (
    Distinct-modify h (set_free free) t.tor_map d,
    Each-modify (IsSound vars t.heap) h (set_free free) t.tor_map
        (λ tor. IsSound-set_free free t.heap tor) a,
  )

module _ (vars : Vars) (os : Platform) (now : ℕ) (req : Request) (hs : List Bytes) (t : Tracker)
    (k : Kept vars t) where
  K : Tracker → Type 0
  K = Kept vars

  add_user-Kept : Ends K (add_user req t)
  unfolding add_user K
  add_user-Kept = Ends-after K (at req (codes "passkey")) _ λ passkey.
      Ends-after K (at req (codes "id")) _ λ user_id. Ends-after K (stoul user_id) _ λ id.
        Ends-ok K _ (
          Kept-Grows vars t (emplace t.next_address (new_user (id % u32) true) t.heap)
            (Grows-emplace t.next_address (new_user (id % u32) true) t.heap) k)

  change_passkey-Kept : Ends K (change_passkey req t)
  unfolding change_passkey K
  change_passkey-Kept = Ends-after K (at req (codes "old_passkey")) _ λ old.
      Ends-after K (at req (codes "new_passkey")) _
        λ new. Ends-ok K _ (move_user-Kept vars old new (get_user old t) t k)

  authorize-Kept : (u : Option ℕ) (b : Bool) → Ends K (authorize u b t)
  unfolding authorize K
  authorize-Kept none b t' e = Ends-ok K t k t' e
  authorize-Kept (some u) b t' e = with_user-Kept vars (some u) (set_authorized b) t k t' e

  update_user-Kept : Ends K (update_user req t)
  unfolding update_user
  update_user-Kept = Ends-after K (at req (codes "passkey")) _ λ passkey.
      Ends-after K (at req (codes "can_leech")) _
        λ c. authorize-Kept (get_user passkey t) (c == codes "1")

  added-Kept :
      (h : Bytes) (tor : Torrent) (f : Bytes)
      → IsSound vars t.heap tor
      → Kept vars (record t {
        tor_map =
            if f == codes "1"
            then modify h (set_free 100) (emplace h tor t.tor_map)
            else if f == codes "2"
            then modify h (set_free 50) (emplace h tor t.tor_map)
            else emplace h tor t.tor_map;
      })
  added-Kept h tor f s =
      let m = emplace h tor t.tor_map in
      let with_new : Tracker = record t { tor_map = m } in
      let start : Kept vars with_new = (
        Distinct-emplace h tor t.tor_map k.0,
        Each-emplace (IsSound vars t.heap) h tor t.tor_map s k.1,
      ) in
      let P : Dict Bytes Torrent → Type 0 = λ n. Distinct n × AllSound vars t.heap n in
      if_case P (f == codes "1") {x = modify h (set_free 100) m}
        (freed-Kept vars h 100 with_new start)
        (if_case P (f == codes "2") {x = modify h (set_free 50) m} {y = m}
          (freed-Kept vars h 50 with_new start) start)

  add_torrent-Kept : (h : Bytes) → Ends K (add_torrent req h t)
  unfolding add_torrent K
  add_torrent-Kept h = Ends-after K (at req (codes "id")) _ λ i. Ends-after K (stoul i) _ λ n.
      Ends-after K (at req (codes "freetorrent")) _ λ f.
        Ends-ok K _ (added-Kept h (new_torrent n 0 0 0) f (IsSound-new_torrent vars t.heap n 0 0 0))

  update_torrent-Kept : (h : Bytes) → Ends K (update_torrent req h t)
  unfolding update_torrent K
  update_torrent-Kept h =
      Ends-if K (has (find h t.tor_map))
        (Ends-after K (at req (codes "freetorrent")) _
          λ f. Ends-ok K _ (freed-Kept vars h (free_of f) t k))
        (Ends-ok K t k)

  delete_torrent-Kept : (h : Bytes) → Ends K (delete_torrent h t)
  unfolding delete_torrent K
  delete_torrent-Kept h =
      Ends-ok K _ (Distinct-erase h t.tor_map k.0, Each-erase (IsSound vars t.heap) h t.tor_map k.1)

  user_at-Kept :
      (passkey : Bytes) (f : User → User) → Ends K (user_at passkey t >>= λ u. with_user u f t)
  unfolding K
  user_at-Kept passkey f = Ends-after K (user_at passkey t) _ λ u. with_user-Kept vars u f t k

  set_bans-Kept : Ends K (add_ban os req t) × Ends K (remove_ban os req t)
  unfolding add_ban remove_ban K
  set_bans-Kept = (
    Ends-after K (at req (codes "fromip")) _ λ a. Ends-after K (stoul a) _ λ b.
        Ends-after K (at req (codes "toip")) _ λ c. Ends-after K (stoul c) _ λ d. Ends-ok K _ k,
    Ends-after K (at req (codes "fromip")) _ λ a. Ends-after K (stoul a) _ λ b.
        Ends-after K (at req (codes "toip")) _ λ c. Ends-after K (stoul c) _ λ d. Ends-ok K _ k,
  )

  whitelist-Kept :
      Ends K (add_whitelist req t)
      × Ends K (edit_whitelist req t)
      × Ends K (remove_whitelist req t)
      × Ends K (set_leech_status req t)
  unfolding add_whitelist edit_whitelist remove_whitelist set_leech_status K
  whitelist-Kept = (
    Ends-after K (at req (codes "peer_id")) _ λ a. Ends-ok K _ k,
    Ends-after K (at req (codes "old_peer_id")) _
        λ a. Ends-after K (at req (codes "new_peer_id")) _ λ b. Ends-ok K _ k,
    Ends-after K (at req (codes "peer_id")) _ λ a. Ends-ok K _ k,
    Ends-after K (at req (codes "leech_status")) _ λ a. Ends-ok K _ k,
  )

  removal-Kept : Ends K (remove_user req t) × Ends K (remove_users req t)
  unfolding remove_user remove_users K
  removal-Kept = (
    Ends-after K (at req (codes "passkey")) _ λ j. Ends-ok K _ (drop_user-Kept vars j t k),
    Ends-after K (at req (codes "passkeys")) _
        λ js. Ends-ok K _ (remove_each-Kept vars (length js) js t k),
  )

  token-Kept : (h : Bytes) → Ends K (add_token now req h t) × Ends K (remove_token req h t)
  unfolding add_token remove_token
  token-Kept h = (
    Ends-after K (or_stop (find h t.tor_map) out_of_range) _
        λ tor. Ends-after K (at req (codes "passkey")) _ λ j. user_at-Kept j _,
    Ends-after K (or_stop (find h t.tor_map) out_of_range) _
        λ tor. Ends-after K (at req (codes "passkey")) _ λ j. user_at-Kept j _,
  )

  restriction-Kept : Ends K (add_ip_restriction os req t) × Ends K (remove_ip_restriction os req t)
  unfolding add_ip_restriction remove_ip_restriction
  restriction-Kept = (
    Ends-after K (at req (codes "ip")) _ λ ip.
        Ends-after K (stoul ip) _
          λ n. Ends-after K (at req (codes "passkey")) _ λ j. user_at-Kept j _,
    Ends-after K (at req (codes "ip")) _ λ ip.
        Ends-after K (stoul ip) _
          λ n. Ends-after K (at req (codes "passkey")) _ λ j. user_at-Kept j _,
  )

  -- One rung of the ladder over the type.
  on_front : (f : Bytes → Outcome Tracker) → ((h : Bytes) → Ends K (f h)) → Ends K (front hs >>= f)
  on_front f g = Ends-after K (front hs) f g

  dispatch-Kept : (type : Bytes) → Ends K (dispatch os now type req hs t)
  unfolding dispatch
  dispatch-Kept type = Ends-if K (type == codes "change_passkey") change_passkey-Kept (
      Ends-if K (type == codes "add_torrent") (on_front _ add_torrent-Kept) (
        Ends-if K (type == codes "delete_torrent") (on_front _ delete_torrent-Kept) (
          Ends-if K (type == codes "update_torrent") (on_front _ update_torrent-Kept) (
            Ends-if K (type == codes "add_user") add_user-Kept (
              Ends-if K (type == codes "update_user") update_user-Kept (
                Ends-if K (type == codes "remove_user") removal-Kept.0 (
                  Ends-if K (type == codes "remove_users") removal-Kept.1 (
                    Ends-if K (type == codes "add_token") (on_front _ (λ h. (token-Kept h).0)) (
                      Ends-if K (type == codes "remove_token") (on_front _ (λ h. (token-Kept h).1))
                        (Ends-if K (type == codes "add_ban") set_bans-Kept.0 (
                          Ends-if K (type == codes "remove_ban") set_bans-Kept.1 (
                            Ends-if K (type == codes "add_ip_restriction") restriction-Kept.0 (
                              Ends-if K (type == codes "remove_ip_restriction") restriction-Kept.1 (
                                Ends-if K (type == codes "add_whitelist") whitelist-Kept.0 (
                                  Ends-if K (type == codes "edit_whitelist") whitelist-Kept.1 (
                                    Ends-if K (type == codes "remove_whitelist") whitelist-Kept.2 (
                                      Ends-if K (type == codes "set_leech_status") whitelist-Kept.3
                                        (unfold K in Ends-ok K t k))))))))))))))))))

  pub update-Kept :
      (text : Bytes) (t' : Tracker) → update os now req hs t ≡ ok (text, t') → Kept vars t'
  unfolding update K
  update-Kept text t' e =
      let (type, _, e1) = >>=-eq-ok (at req (codes "type")) _ e in
      let (next, run, e2) = >>=-eq-ok (dispatch os now type req hs t) _ e1 in
      let same : next ≡ t' = cc in rw same at (dispatch-Kept type next run)

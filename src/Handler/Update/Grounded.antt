-- ===== src/Handler/Update/Grounded.antt =====
-- Updates keep the passkeys on accounts that are in the heap.
use liquid.Base.{
  ℕ, zero, suc, ◌≡◌, refl, inl, inr, Bool, true, Option, none, some, Bytes, arith, ◌==◌, bytes_eq,
  nat_eq, bytes_beq_iff, nat_beq_iff, Bool-cases, List, [], ◌∷◌, take, drop, length, ◌%◌, ◌+◌,
}
use liquid.Base.Dict.{find, emplace, erase, modify, has, find-emplace, find-erase, find-modify}
use liquid.Base.Outcome.{ok, Ends, Ends-ok, Ends-after, Ends-if, >>=-eq-ok, or_stop, out_of_range}
use liquid.Base.Text.{codes}
use liquid.Platform.{Platform}
use liquid.Base.Int.{stoul}
use liquid.User.{User, new_user, set_authorized}
use liquid.Base.Words.{u32}
use liquid.Peers.{Request, at}
use liquid.Handler.{Tracker, get_user, with_user}
use liquid.Database.{deref}
use liquid.Handler.Update.{
  add_ip_restriction, remove_ip_restriction, add_token, remove_token, change_passkey, add_torrent,
  delete_torrent, update_torrent, add_user, update_user, remove_user, remove_users, add_ban,
  remove_ban, add_whitelist, edit_whitelist, remove_whitelist, set_leech_status, dispatch, update,
  move_user, drop_user, remove_each, authorize, front, user_at,
}

-- Every passkey leads to an account in the heap.
abbrev pub Grounded : Tracker → Type 0
Grounded t = (k : Bytes) (a : ℕ) → get_user k t ≡ some a → has (find a t.heap) ≡ true

pub with_user-Grounded :
    (address : Option ℕ) (f : User → User) (t : Tracker)
    → Grounded t
    → Ends Grounded (with_user address f t)
unfolding with_user get_user
with_user-Grounded none f t g t' e = absurd (ground arith)
with_user-Grounded (some a) f t g t' e =
    Ends-after Grounded (deref t.heap (some a)) (λ _. ok (record t { heap = modify a f t.heap }))
      (λ _. Ends-ok Grounded _ λ k b h. ground (arith, find-modify a b f t.heap, g k b h)) t' e

move_user-Grounded :
    (old new : Bytes) (address : Option ℕ) (t : Tracker)
    → get_user old t ≡ address
    → Grounded t
    → Grounded (move_user old new address t)
unfolding move_user get_user
move_user-Grounded old new none t e g k a h = g k a h
move_user-Grounded old new (some u) t e g k a h = elim (Bool-cases (new == k)) [
  | inl same ↦ ground (
    arith,
    find-emplace new k u (erase old t.usr_map),
    find-erase old new t.usr_map,
    g new a,
    g old u e,
  )
  | inr other ↦
      ground (arith, find-emplace new k u (erase old t.usr_map), find-erase old k t.usr_map, g k a)
]

drop_user-Grounded : (k : Bytes) (t : Tracker) → Grounded t → Grounded (drop_user k t)
unfolding drop_user get_user
drop_user-Grounded k t g j a h = ground (arith, find-erase k j t.usr_map, g j a)

remove_each-Grounded :
    (fuel : ℕ) (passkeys : Bytes) (t : Tracker)
    → Grounded t
    → Grounded (remove_each fuel passkeys t)
unfolding remove_each
remove_each-Grounded zero passkeys t g = g
remove_each-Grounded (suc fuel) [] t g = g
remove_each-Grounded (suc fuel) (c ∷ cs) t g =
    remove_each-Grounded fuel (drop 32 (c ∷ cs)) (drop_user (take 32 (c ∷ cs)) t)
      (drop_user-Grounded (take 32 (c ∷ cs)) t g)

module _ (os : Platform) (now : ℕ) (req : Request) (hs : List Bytes) (t : Tracker)
    (g : Grounded t) where
  with_new-Grounded :
      (passkey : Bytes) (u : User)
      → Grounded (record t {
        heap = emplace t.next_address u t.heap;
        next_address = t.next_address + 1;
        usr_map = emplace passkey t.next_address t.usr_map;
      })
  unfolding get_user
  with_new-Grounded passkey u k a h = ground (
    arith,
    find-emplace passkey k t.next_address t.usr_map,
    find-emplace t.next_address a u t.heap,
    nat_beq_iff t.next_address a,
    bytes_beq_iff passkey k,
    g k a,
  )

  add_user-Grounded : Ends Grounded (add_user req t)
  unfolding add_user
  add_user-Grounded = Ends-after Grounded (at req (codes "passkey")) _ λ passkey.
      Ends-after Grounded (at req (codes "id")) _ λ user_id.
        Ends-after Grounded (stoul user_id) _
          λ id. Ends-ok Grounded _ (with_new-Grounded passkey (new_user (id % u32) true))

  change_passkey-Grounded : Ends Grounded (change_passkey req t)
  unfolding change_passkey
  change_passkey-Grounded = Ends-after Grounded (at req (codes "old_passkey")) _ λ old.
      Ends-after Grounded (at req (codes "new_passkey")) _
        λ new. Ends-ok Grounded _ (move_user-Grounded old new (get_user old t) t refl g)

  authorize-Grounded : (u : Option ℕ) (b : Bool) → Ends Grounded (authorize u b t)
  unfolding authorize
  authorize-Grounded none b t' e = Ends-ok Grounded t g t' e
  authorize-Grounded (some u) b t' e = with_user-Grounded (some u) (set_authorized b) t g t' e

  update_user-Grounded : Ends Grounded (update_user req t)
  unfolding update_user
  update_user-Grounded = Ends-after Grounded (at req (codes "passkey")) _ λ k.
      Ends-after Grounded (at req (codes "can_leech")) _
        λ c. authorize-Grounded (get_user k t) (c == codes "1")

  add_torrent-Grounded : (h : Bytes) → Ends Grounded (add_torrent req h t)
  unfolding add_torrent get_user
  add_torrent-Grounded h = Ends-after Grounded (at req (codes "id")) _ λ i.
      Ends-after Grounded (stoul i) _
        λ n. Ends-after Grounded (at req (codes "freetorrent")) _ λ f. Ends-ok Grounded _ g

  update_torrent-Grounded : (h : Bytes) → Ends Grounded (update_torrent req h t)
  unfolding update_torrent get_user
  update_torrent-Grounded h =
      Ends-if Grounded (has (find h t.tor_map))
        (Ends-after Grounded (at req (codes "freetorrent")) _ λ f. Ends-ok Grounded _ g)
        (Ends-ok Grounded t g)

  token-Grounded :
      (h : Bytes) → Ends Grounded (add_token now req h t) × Ends Grounded (remove_token req h t)
  unfolding add_token remove_token
  token-Grounded h = (
    Ends-after Grounded (or_stop (find h t.tor_map) out_of_range) _ λ tor.
        Ends-after Grounded (at req (codes "passkey")) _
          λ k. Ends-after Grounded (user_at k t) _ λ u. with_user-Grounded u _ t g,
    Ends-after Grounded (or_stop (find h t.tor_map) out_of_range) _ λ tor.
        Ends-after Grounded (at req (codes "passkey")) _
          λ k. Ends-after Grounded (user_at k t) _ λ u. with_user-Grounded u _ t g,
  )

  restriction-Grounded :
      Ends Grounded (add_ip_restriction os req t) × Ends Grounded (remove_ip_restriction os req t)
  unfolding add_ip_restriction remove_ip_restriction
  restriction-Grounded = (
    Ends-after Grounded (at req (codes "ip")) _ λ ip. Ends-after Grounded (stoul ip) _ λ n.
        Ends-after Grounded (at req (codes "passkey")) _
          λ k. Ends-after Grounded (user_at k t) _ λ u. with_user-Grounded u _ t g,
    Ends-after Grounded (at req (codes "ip")) _ λ ip. Ends-after Grounded (stoul ip) _ λ n.
        Ends-after Grounded (at req (codes "passkey")) _
          λ k. Ends-after Grounded (user_at k t) _ λ u. with_user-Grounded u _ t g,
  )

  ban-Grounded : Ends Grounded (add_ban os req t) × Ends Grounded (remove_ban os req t)
  unfolding add_ban remove_ban get_user
  ban-Grounded = (
    Ends-after Grounded (at req (codes "fromip")) _ λ a. Ends-after Grounded (stoul a) _ λ b.
        Ends-after Grounded (at req (codes "toip")) _
          λ c. Ends-after Grounded (stoul c) _ λ d. Ends-ok Grounded _ g,
    Ends-after Grounded (at req (codes "fromip")) _ λ a. Ends-after Grounded (stoul a) _ λ b.
        Ends-after Grounded (at req (codes "toip")) _
          λ c. Ends-after Grounded (stoul c) _ λ d. Ends-ok Grounded _ g,
  )

  whitelist-Grounded :
      Ends Grounded (add_whitelist req t)
      × Ends Grounded (edit_whitelist req t)
      × Ends Grounded (remove_whitelist req t)
      × Ends Grounded (set_leech_status req t)
  unfolding add_whitelist edit_whitelist remove_whitelist set_leech_status get_user
  whitelist-Grounded = (
    Ends-after Grounded (at req (codes "peer_id")) _ λ a. Ends-ok Grounded _ g,
    Ends-after Grounded (at req (codes "old_peer_id")) _
        λ a. Ends-after Grounded (at req (codes "new_peer_id")) _ λ b. Ends-ok Grounded _ g,
    Ends-after Grounded (at req (codes "peer_id")) _ λ a. Ends-ok Grounded _ g,
    Ends-after Grounded (at req (codes "leech_status")) _ λ a. Ends-ok Grounded _ g,
  )

  removal-Grounded : Ends Grounded (remove_user req t) × Ends Grounded (remove_users req t)
  unfolding remove_user remove_users
  removal-Grounded = (
    Ends-after Grounded (at req (codes "passkey")) _
        λ k. Ends-ok Grounded _ (drop_user-Grounded k t g),
    Ends-after Grounded (at req (codes "passkeys")) _
        λ ks. Ends-ok Grounded _ (remove_each-Grounded (length ks) ks t g),
  )

  dispatch-Grounded : (type : Bytes) → Ends Grounded (dispatch os now type req hs t)
  unfolding dispatch delete_torrent get_user
  dispatch-Grounded type =
      Ends-if Grounded (type == codes "change_passkey") change_passkey-Grounded (
        Ends-if Grounded (type == codes "add_torrent")
          (Ends-after Grounded (front hs) _ add_torrent-Grounded)
          (Ends-if Grounded (type == codes "delete_torrent")
            (Ends-after Grounded (front hs) _ λ h. Ends-ok Grounded _ g)
            (Ends-if Grounded (type == codes "update_torrent")
              (Ends-after Grounded (front hs) _ update_torrent-Grounded)
              (Ends-if Grounded (type == codes "add_user") add_user-Grounded (
                Ends-if Grounded (type == codes "update_user") update_user-Grounded (
                  Ends-if Grounded (type == codes "remove_user") removal-Grounded.0 (
                    Ends-if Grounded (type == codes "remove_users") removal-Grounded.1 (
                      Ends-if Grounded (type == codes "add_token")
                        (Ends-after Grounded (front hs) _ λ h. (token-Grounded h).0)
                        (Ends-if Grounded (type == codes "remove_token")
                          (Ends-after Grounded (front hs) _ λ h. (token-Grounded h).1)
                          (Ends-if Grounded (type == codes "add_ban") ban-Grounded.0 (
                            Ends-if Grounded (type == codes "remove_ban") ban-Grounded.1 (
                              Ends-if Grounded (type == codes "add_ip_restriction")
                                restriction-Grounded.0
                                (Ends-if Grounded (type == codes "remove_ip_restriction")
                                  restriction-Grounded.1
                                  (Ends-if Grounded (type == codes "add_whitelist")
                                    whitelist-Grounded.0
                                    (Ends-if Grounded (type == codes "edit_whitelist")
                                      whitelist-Grounded.1
                                      (Ends-if Grounded (type == codes "remove_whitelist")
                                        whitelist-Grounded.2
                                        (Ends-if Grounded (type == codes "set_leech_status")
                                          whitelist-Grounded.3
                                          (Ends-ok Grounded t g))))))))))))))))))

  -- An update of a tracker whose every passkey leads to an account in the heap leaves it so, whichever
  -- of its operations the type names: no passkey is left on an account that cannot be read.
  pub update-Grounded :
      (text : Bytes) (t' : Tracker) → update os now req hs t ≡ ok (text, t') → Grounded t'
  unfolding update
  update-Grounded text t' e =
      let (type, _, e1) = >>=-eq-ok (at req (codes "type")) _ e in
      let (next, run, e2) = >>=-eq-ok (dispatch os now type req hs t) _ e1 in
      let same : next ≡ t' = cc in rw same at (dispatch-Grounded type next run)

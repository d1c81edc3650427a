-- ===== src/Handler/Lifecycle/Init.antt =====
-- What holds of the tracker that `init` leaves.
use liquid.Base.{
  ℕ, ◌+◌, ◌%◌, ◌≡◌, List, [], ◌∷◌, Option, none, some, Bytes, arith, bytes_eq, nat_eq,
  bytes_beq_iff, nat_beq_iff, ◌==◌,
}
use liquid.Base.Dict.{emplace, find-emplace, Distinct-emplace, Each-emplace}
use liquid.Base.Outcome.{
  Outcome, stop, ok, undefined, out_of_range, invalid_argument, length_error, system_error, Ends,
  Ends-ok, Ends-bind, Ends-after, Ends-if, catch,
}
use liquid.Base.Text.{codes}
use liquid.Base.Int.{stoul}
use liquid.Base.Words.{u32}
use liquid.Config.{Vars, is_private, is_public}
use liquid.Platform.{Platform}
use liquid.User.{User, new_user}
use liquid.Handler.{Tracker, get_user, with_user}
use liquid.Handler.Update.Grounded.{Grounded, with_user-Grounded}
use liquid.Handler.Update.Valid.{Kept, Kept-Grows, with_user-Kept}
use liquid.Handler.Clean.Expiry.{IsSound}
use liquid.Handler.Valid.{IsValid, Grows-emplace, IsSound-new_torrent}
use liquid.Handler.Load.{
  Row, Server, cell, for_rows, selected, load_user, load_token, load_restriction, load_torrent,
  load_users, load_torrents, load_banned_ips, users_query, tokens_query, restrictions_query,
  torrents_query, bans_query, whitelist_query, leech_query, load_client_whitelist,
  load_leech_status, user_of,
}
use liquid.Handler.Lifecycle.{init, connect, load_private}

for_rows-Ends :
    {A : Type 0} (P : A → Type 0) (body : Row → A → Outcome A)
    → ((row : Row) (a : A) → P a → Ends P (body row a))
    → (rows : List Row) (a : A) → P a
    → Ends P (for_rows body rows a)
for_rows-Ends P body h [] a p b e = Ends-ok P a p b e
for_rows-Ends P body h (row ∷ rows) a p b e =
    Ends-bind P P (body row a) _ (h row a p) (λ a' q. for_rows-Ends P body h rows a' q) b e

selected-Ends :
    (P : Tracker → Type 0) (rows : Option (List Row)) (t : Tracker)
    (load : List Row → Outcome Tracker)
    → P t
    → ((rows : List Row) → Ends P (load rows))
    → Ends P (selected rows t load)
selected-Ends P none t load p h b e = Ends-ok P t p b e
selected-Ends P (some rows) t load p h b e = h rows b e

catch-Ends :
    {A : Type 0} (P : A → Type 0) (o : Outcome A) (a : A) → Ends P o → P a → Ends P (catch o a)
catch-Ends P (ok b) a h p c e = h c e
catch-Ends P (stop out_of_range) a h p c e = Ends-ok P a p c e
catch-Ends P (stop invalid_argument) a h p c e = Ends-ok P a p c e
catch-Ends P (stop length_error) a h p c e = Ends-ok P a p c e
catch-Ends P (stop system_error) a h p c e = Ends-ok P a p c e
catch-Ends P (stop undefined) a h p c e = absurd (cc)

-- Validity as a product, which what is not written leaves alone.
abbrev V : Vars → Tracker → Type 0
V vars t = Kept vars t × Grounded t

module _ (vars : Vars) where
  with_user-V :
      (u : Option ℕ) (f : User → User) (t : Tracker) → V vars t → Ends (V vars) (with_user u f t)
  with_user-V u f t v t' e = (with_user-Kept vars u f t v.0 t' e, with_user-Grounded u f t v.1 t' e)

  with_new-Grounded :
      (passkey : Bytes) (u : User) (t : Tracker)
      → Grounded t
      → Grounded (record t {
        heap = emplace t.next_address u t.heap;
        next_address = t.next_address + 1;
        usr_map = emplace passkey t.next_address t.usr_map;
      })
  unfolding get_user
  with_new-Grounded passkey u t g k a h = ground (
    arith,
    find-emplace passkey k t.next_address t.usr_map,
    find-emplace t.next_address a u t.heap,
    nat_beq_iff t.next_address a,
    bytes_beq_iff passkey k,
    g k a,
  )

  load_user-V : (row : Row) (t : Tracker) → V vars t → Ends (V vars) (load_user row t)
  unfolding load_user get_user
  load_user-V row t v = Ends-after (V vars) (cell 1 row) _ λ passkey.
      Ends-after (V vars) (cell 0 row) _ λ text. Ends-after (V vars) (stoul text) _ λ id.
        Ends-after (V vars) (cell 2 row) _ λ authorized.
          let u = new_user (id % u32) (authorized == codes "1") in
          Ends-ok (V vars) _ (
            Kept-Grows vars t (emplace t.next_address u t.heap)
                (Grows-emplace t.next_address u t.heap) v.0,
            with_new-Grounded passkey u t v.1,
          )

  load_token-V : (row : Row) (t : Tracker) → V vars t → Ends (V vars) (load_token row t)
  unfolding load_token
  load_token-V row t v =
      catch-Ends (V vars) _ t
        (Ends-after (V vars) (cell 0 row) _ λ passkey.
          Ends-after (V vars) (user_of passkey t) _ λ u. Ends-after (V vars) (cell 1 row) _ λ a.
            Ends-after (V vars) (stoul a) _ λ tid.
              Ends-after (V vars) (cell 2 row) _
                λ b. Ends-after (V vars) (stoul b) _ λ time. with_user-V u _ t v)
        v

  load_restriction-V :
      (os : Platform) (row : Row) (t : Tracker)
      → V vars t
      → Ends (V vars) (load_restriction os row t)
  unfolding load_restriction
  load_restriction-V os row t v = Ends-after (V vars) (cell 0 row) _ λ a.
      Ends-after (V vars) (stoul a) _ λ _. Ends-after (V vars) (cell 1 row) _ λ passkey.
        Ends-after (V vars) (cell 2 row) _ λ b. Ends-after (V vars) (stoul b) _ λ ip.
          catch-Ends (V vars) _ t
            (Ends-after (V vars) (user_of passkey t) _ λ u. with_user-V u _ t v) v

  load_torrent-V : (row : Row) (t : Tracker) → V vars t → Ends (V vars) (load_torrent row t)
  unfolding load_torrent get_user
  load_torrent-V row t v = Ends-after (V vars) (cell 2 row) _ λ free.
      Ends-after (V vars) (cell 1 row) _ λ h. Ends-after (V vars) (cell 0 row) _ λ a.
        Ends-after (V vars) (stoul a) _ λ id. Ends-after (V vars) (cell 3 row) _ λ b.
          Ends-after (V vars) (stoul b) _ λ snatches. Ends-after (V vars) (cell 4 row) _ λ c.
            Ends-after (V vars) (stoul c) _ λ balance. Ends-ok (V vars) _ (
              (
                Distinct-emplace h _ t.tor_map v.0.0,
                Each-emplace (IsSound vars t.heap) h _ t.tor_map
                    (IsSound-new_torrent vars t.heap id _ snatches balance) v.0.1,
              ),
              v.1,
            )

-- Parts of the tracker that validity does not speak of.
module _ {ℓ} {S : Type ℓ} (server : Server S) (vars : Vars) (s : S) where
  load_users-V :
      (os : Platform) (t : Tracker) → V vars t → Ends (V vars) (load_users server vars s os t)
  unfolding load_users get_user
  load_users-V os t v = selected-Ends (V vars) (server.select s (users_query vars)) t _ v λ rows.
      Ends-bind (V vars) (V vars) (for_rows load_user rows t) _
        (for_rows-Ends (V vars) load_user (load_user-V vars) rows t v)
        λ t1 v1. selected-Ends (V vars) (server.select s (tokens_query vars)) t1 _ v1 λ rows.
          Ends-bind (V vars) (V vars) (for_rows load_token rows t1) _
            (for_rows-Ends (V vars) load_token (load_token-V vars) rows t1 v1)
            λ t2 v2.
              selected-Ends (V vars) (server.select s (restrictions_query vars)) t2 _ v2 λ rows.
                for_rows-Ends (V vars) (load_restriction os) (load_restriction-V vars os) rows t2 v2

  load_torrents-V : (t : Tracker) → V vars t → Ends (V vars) (load_torrents server vars s t)
  unfolding load_torrents get_user
  load_torrents-V t v = selected-Ends (V vars) (server.select s (torrents_query vars)) t _ v λ rows.
      Ends-bind (V vars) (V vars) (for_rows load_torrent rows t) _
        (for_rows-Ends (V vars) load_torrent (load_torrent-V vars) rows t v)
        λ t1 v1. Ends-ok (V vars) _ v1

  -- The loads that leave the accounts and the torrents alone.
  others-V :
      (os : Platform) (t : Tracker)
      → V vars t
      → Ends (V vars) (load_banned_ips server vars s os t)
        × Ends (V vars) (load_client_whitelist server vars s t)
        × Ends (V vars) (load_leech_status server vars s t)
  unfolding load_banned_ips load_client_whitelist load_leech_status get_user
  others-V os t v = (
    selected-Ends (V vars) (server.select s (bans_query vars)) t _ v
        λ rows. Ends-after (V vars) _ _ λ banned. Ends-ok (V vars) _ v,
    selected-Ends (V vars) (server.select s (whitelist_query vars)) t _ v
        λ rows. Ends-after (V vars) _ _ λ clients. Ends-ok (V vars) _ v,
    selected-Ends (V vars) (server.select s (leech_query vars)) t _ v
        λ rows. Ends-after (V vars) _ _ λ status. Ends-ok (V vars) _ v,
  )

-- Whatever rows the server selects, and whichever of its queries fail, a tracker that is valid
-- before it is initialised is valid after it, if no row ends the program.
pub init-IsValid {ℓ} :
    {S : Type ℓ} (server : Server S) (vars : Vars) (os : Platform) (s s' : S) (t t' : Tracker)
    → IsValid vars t
    → init server vars os s t ≡ ok (s', t')
    → IsValid vars t'
unfolding init
init-IsValid {S = S} server vars os s s' t t' v e =
    let P : S × Tracker → Type 0 = λ r. V vars r.1 in
    let I : Tracker → Type 0 = V vars in
    let c = connect server vars s in
    let start : V vars t = ((v.torrents_once, v.sound), v.grounded) in
    let loads : Ends P (init server vars os s t) = Ends-if P (is_public vars) (Ends-ok P _ start) (
      Ends-bind I P (load_torrents server vars c t) _ (load_torrents-V server vars c t start)
        λ t1 v1.
          Ends-bind I P (load_banned_ips server vars c os t1) _ (others-V server vars c os t1 v1).0
            λ t2 v2.
              Ends-bind I P (load_client_whitelist server vars c t2) _
                (others-V server vars c os t2 v2).1
                λ t3 v3.
                  Ends-bind I P (load_private server vars os c t3) _
                    (Ends-if I (is_private vars)
                      (Ends-bind I I (load_users server vars c os t3) _
                        (load_users-V server vars c os t3 v3)
                        λ t4 v4. (others-V server vars c os t4 v4).2)
                      (Ends-ok I t3 v3))
                    λ t5 v5. Ends-ok P _ v5) in
    let ((d, a), g) = loads (s', t') e in record { torrents_once = d; sound = a; grounded = g }

-- ===== src/Handler/Handle/Crash.antt =====
-- Requests that pass `Parser::check` and make `handle` throw: `main` catches the exception outside
-- the event loop, so the tracker ends.
use mathlib.Core.Bool.{false≢true}
use liquid.Base.{
  ◌≡◌, refl, inl, inr, Bool, true, false, List, [], ◌∷◌, none, some, Bytes, map, bytes_eq,
  bytes_beq, bytes_beq_iff, Bool-cases,
}
use liquid.Base.Dict.{find, has}
use liquid.Base.Outcome.{ok, stop, out_of_range}
use liquid.Base.Text.{codes}
use liquid.Platform.{Platform, Env}
use liquid.Config.{Vars, get, is_private}
use liquid.Parser.{init, check}
use liquid.Parser.Check.{check_iff}
use liquid.Parser.Parse.{parse}
use liquid.Peers.{Request}
use liquid.Handler.{Tracker}
use liquid.Handler.Update.{update, dispatch, add_ban}
use liquid.Handler.Handle.{is_update, handle_client, handle_parsed, handle}

scrape_ne : codes "scrape" ≡ codes "update" → ⊥
unfolding bytes_beq
scrape_ne e = false≢true ((bytes_beq_iff (codes "scrape") (codes "update")).1 e)

module _ (vars : Vars) (req : Request) where
  check_scrape :
      find (codes "action") req ≡ some (codes "scrape") → check (init vars) req ≡ codes "success"
  unfolding init find bytes_beq
  check_scrape h =
      (check_iff (init vars) req).1 (codes "scrape", h, ([], refl, tt), λ e. absurd (scrape_ne e))

  check_add_ban :
      find (codes "action") req ≡ some (codes "update")
      → find (codes "type") req ≡ some (codes "add_ban")
      → has (find (codes "reqpasskey") req) ≡ true
      → has (find (codes "from") req) ≡ true
      → has (find (codes "to") req) ≡ true
      → check (init vars) req ≡ codes "success"
  unfolding init find bytes_beq
  check_add_ban a b c d e = (check_iff (init vars) req).1 (
    codes "update",
    a,
    (map codes ("type" ∷ "reqpasskey" ∷ []), refl, (rw b refl, (c, tt))),
    λ _. (codes "add_ban", b, (map codes ("from" ∷ "to" ∷ []), refl, (d, (e, tt)))),
  )

  is_update_scrape :
      (os : Platform) (env : Env)
      → find (codes "action") req ≡ some (codes "scrape")
      → is_update os env vars req ≡ ok false
  unfolding is_update bytes_beq
  is_update_scrape os env h = elim (Bool-cases (is_private vars)) [
    | inl y ↦ rw (y, h) refl
    | inr n ↦ rw n refl
  ]

  is_update_key :
      (os : Platform) (env : Env)
      → is_private vars ≡ true
      → find (codes "action") req ≡ some (codes "update")
      → find (codes "reqpasskey") req ≡ some (get vars (codes "updatekey"))
      → is_update os env vars req ≡ ok true
  unfolding is_update bytes_beq
  is_update_key os env y a k =
      rw (y, a, k, (bytes_beq_iff (get vars (codes "updatekey")) _).1 refl) refl

module _ (os : Platform) (env : Env) (vars : Vars) (req : Request) (hs : List Bytes) (ip : Bytes)
    (ipv6 : Bool) (t : Tracker) where
  handle_parsed_scrape :
      find (codes "action") req ≡ some (codes "scrape")
      → find (codes "reqpasskey") req ≡ none
      → handle_parsed os env vars (req, hs) ip ipv6 t ≡ stop out_of_range
  unfolding handle_parsed handle_client
  handle_parsed_scrape action no_key =
      rw
        (
          (bytes_beq_iff _ _).1 (check_scrape vars req action),
          is_update_scrape vars req os env action,
          no_key,
        )
        refl

  handle_parsed_ban :
      is_private vars ≡ true
      → find (codes "action") req ≡ some (codes "update")
      → find (codes "type") req ≡ some (codes "add_ban")
      → find (codes "reqpasskey") req ≡ some (get vars (codes "updatekey"))
      → has (find (codes "from") req) ≡ true
      → has (find (codes "to") req) ≡ true
      → find (codes "fromip") req ≡ none
      → handle_parsed os env vars (req, hs) ip ipv6 t ≡ stop out_of_range
  unfolding handle_parsed update dispatch add_ban bytes_beq
  handle_parsed_ban private action type key from to no_fromip =
      rw
        (
          (bytes_beq_iff _ _).1 (check_add_ban vars req action type (rw key refl) from to),
          is_update_key vars req os env private action key,
          type,
          no_fromip,
        )
        refl

module _ (os : Platform) (env : Env) (vars : Vars) (str ip : Bytes) (ipv6 : Bool)
    (t : Tracker) where
  -- A scrape with no passkey passes the check, whatever the type of the tracker, and throws.
  pub handle-scrape_without_passkey :
      find (codes "action") (parse str).0 ≡ some (codes "scrape")
      → find (codes "reqpasskey") (parse str).0 ≡ none
      → handle os env vars str ip ipv6 t ≡ stop out_of_range
  unfolding handle
  handle-scrape_without_passkey action no_key =
      handle_parsed_scrape os env vars (parse str).0 (parse str).1 ip ipv6 t action no_key

  -- An update of a private tracker, with its key, that adds a ban and has the parameters `from` and
  -- `to` that the check requires, but not `fromip`, passes the check and throws.
  pub handle-add_ban_without_fromip :
      is_private vars ≡ true
      → find (codes "action") (parse str).0 ≡ some (codes "update")
      → find (codes "type") (parse str).0 ≡ some (codes "add_ban")
      → find (codes "reqpasskey") (parse str).0 ≡ some (get vars (codes "updatekey"))
      → has (find (codes "from") (parse str).0) ≡ true
      → has (find (codes "to") (parse str).0) ≡ true
      → find (codes "fromip") (parse str).0 ≡ none
      → handle os env vars str ip ipv6 t ≡ stop out_of_range
  unfolding handle
  handle-add_ban_without_fromip private action type key from to no_fromip =
      handle_parsed_ban os env vars (parse str).0 (parse str).1 ip ipv6 t private action type key
        from to no_fromip

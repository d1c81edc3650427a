-- ===== src/Parser.antt =====
-- src/misc/parser.cpp: the table of required parameters and `Parser::check`; the reader of a
-- request line and its headers is in Parser/Parse.
pub mod Parse
pub mod Check
use Prim.Native.String.{String}
use liquid.Base.{
  ℕ, Bool, true, false, List, [], ◌∷◌, ◌++◌, Option, none, some, Bytes, map, ◌==◌, bytes_eq,
  if◌then◌else◌,
}
use liquid.Base.Dict.{Dict, find, has}
use liquid.Base.Text.{codes}
use liquid.Config.{Vars, is_private}
use liquid.Peers.{Request}

-- inc/misc/parser.hpp
abbrev pub Requirements : Type 0
Requirements = Dict Bytes (List Bytes)

abbrev needs : String → List String → Bytes × List Bytes
needs action params = (codes action, map codes params)

-- `Parser::init`.
unfoldable pub init : Vars → Requirements
init vars =
    let announced = "port" ∷ "peer_id" ∷ "left" ∷ "user-agent" ∷ "downloaded" ∷ "uploaded" ∷ [] in
    needs "announce" (if is_private vars then "reqpasskey" ∷ announced else announced)
    ∷ needs "scrape" []
    ∷ needs "update" ("type" ∷ "reqpasskey" ∷ [])
    ∷ needs "change_passkey" ("old_passkey" ∷ "new_passkey" ∷ [])
    ∷ needs "add_torrent" ("id" ∷ "size" ∷ [])
    ∷ needs "delete_torrent" []
    ∷ needs "update_torrent" ("freetorrent" ∷ [])
    ∷ needs "add_user" ("passkey" ∷ "id" ∷ [])
    ∷ needs "update_user" ("passkey" ∷ "can_leech" ∷ [])
    ∷ needs "remove_user" ("passkey" ∷ [])
    ∷ needs "remove_users" ("passkeys" ∷ [])
    ∷ needs "add_token" ("passkey" ∷ [])
    ∷ needs "remove_token" ("passkey" ∷ [])
    ∷ needs "add_ban" ("from" ∷ "to" ∷ [])
    ∷ needs "remove_ban" ("from" ∷ "to" ∷ [])
    ∷ needs "add_ip_restriction" []
    ∷ needs "remove_ip_restriction" []
    ∷ needs "add_whitelist" ("peer_id" ∷ [])
    ∷ needs "edit_whitelist" ("old_peer_id" ∷ "new_peer_id" ∷ [])
    ∷ needs "remove_whitelist" ("peer_id" ∷ [])
    ∷ needs "set_leech_status" []
    ∷ []

abbrev pub missing_param : Bytes → Bytes
missing_param name = codes "missing param (" ++ (name ++ codes ")")

-- The first parameter of a list that a request lacks.
unfoldable pub first_missing : Request → List Bytes → Option Bytes
first_missing req [] = none
first_missing req (it ∷ its) = if has (find it req) then first_missing req its else some it

-- A loop over required parameters: its early return, or what follows it.
then_check : Option Bytes → Bytes → Bytes
then_check none following = following
then_check (some it) following = missing_param it

check_params : Request → Bytes → Option (List Bytes) → Bytes → Bytes
unfolding first_missing then_check
check_params req absent none following = absent
check_params req absent (some params) following = then_check (first_missing req params) following

check_type : Requirements → Request → Option Bytes → Bytes
unfolding check_params
check_type required req none = codes "missing action"
check_type required req (some type) =
    check_params req (codes "missing update type") (find type required) (codes "success")

check_action : Requirements → Request → Option Bytes → Bytes
unfolding check_type check_params
check_action required req none = codes "missing action"
check_action required req (some action) =
    check_params req (codes "missing action") (find action required) (
      if action == codes "update"
      then check_type required req (find (codes "type") req)
      else codes "success")

-- `Parser::check`; the inner handler answers for an unknown type of update, the outer one for the
-- rest.
unfoldable pub check : Requirements → Request → Bytes
unfolding check_action
check required req = check_action required req (find (codes "action") req)

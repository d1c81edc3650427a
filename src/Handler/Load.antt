-- ===== src/Handler/Load.antt =====
-- What `RequestHandler::init` reads from the database: the loads, `connect` and `reset` of
-- src/database/mysql.cpp. The MySQL server is a parameter. A log message is left out.
pub mod Torrents
pub mod Accounts
pub mod Bans
use Prim.Native.String.{String}
use liquid.Base.{
  ℕ, zero, suc, ◌+◌, ◌%◌, Bool, true, false, List, [], ◌∷◌, ◌++◌, Option, none, some, Bytes, map,
  length, ◌==◌, nat_eq, bytes_eq, if◌then◌else◌,
}
use liquid.Base.Dict.{find, emplace}
use liquid.Base.Outcome.{Outcome, ok, stop, undefined, out_of_range, ◌>>=◌, or_stop, catch}
use liquid.Base.Words.{u32}
use liquid.Base.Text.{codes}
use liquid.Base.Int.{stoul}
use liquid.Config.{Vars, get}
use liquid.Platform.{Platform}
use liquid.Utility.{long2ip}
use liquid.Stats.{set_torrents}
use liquid.User.{Texts, new_user, add_token, add_ip_restriction}
use liquid.Torrent.{new_torrent}
use liquid.Database.{LeechStatus, normal, freeleech}
use liquid.Database.Flush.{comma_list}
use liquid.Handler.{Tracker, with_user}
use liquid.Handler.Update.{ban_range, range_size}

-- A row of a result: its columns, NULL where there is none.
abbrev pub Row : Type 0
Row = List (Option Bytes)

-- What mysql_real_connect, mysql_real_query and mysql_fetch_row do, on a server in some state: a
-- query that changes it, with whether it failed; the rows of a selection, `none` if it failed.
pub record Server {ℓ} (S : Type ℓ) : Type ℓ where
  pub connects : S → Bool
  pub query : S → Bytes → S × Bool
  pub select : S → Bytes → Option (List Row)

-- A `char*`: the text up to its first zero byte.
abbrev pub c_string : Bytes → Bytes
c_string [] = []
c_string (c ∷ cs) = if c == 0 then [] else c ∷ c_string cs

-- `row[i]` made a std::string; NULL is undefined behaviour.
abbrev pub cell : ℕ → Row → Outcome Bytes
cell i [] = stop undefined
cell zero (none ∷ row) = stop undefined
cell zero (some text ∷ row) = ok (c_string text)
cell (suc i) (column ∷ row) = cell i row

-- `while ((row = mysql_fetch_row(result)))`
abbrev pub for_rows {ℓ} : {A : Type ℓ} → (Row → A → Outcome A) → List Row → A → Outcome A
for_rows body [] a = ok a
for_rows body (row ∷ rows) a = do a' ← body row a; for_rows body rows a'

-- A selection of columns from a table.
abbrev select_from : List Bytes → Bytes → Bytes
select_from columns table = codes "SELECT " ++ (comma_list columns ++ (codes " FROM " ++ table))

abbrev setting : Vars → String → Bytes
setting vars name = get vars (codes name)

unfoldable pub users_query : Vars → Bytes
users_query vars =
    select_from
      (setting vars "DB_Users_ID"
        ∷ setting vars "DB_Users_Passkey"
        ∷ setting vars "DB_Users_Authorized"
        ∷ [])
      (codes "users_main")

unfoldable pub tokens_query : Vars → Bytes
tokens_query vars =
    select_from
      ((codes "users." ++ setting vars "DB_Users_Passkey")
        ∷ (codes "tokens." ++ setting vars "DB_Tokens_TorrentID")
        ∷ (codes "UNIX_TIMESTAMP(tokens." ++ (setting vars "DB_Tokens_ExpirationTime" ++ codes ")"))
        ∷ [])
      (setting vars "DB_Tokens"
        ++ (codes " AS tokens LEFT JOIN "
            ++ (setting vars "DB_Users"
                ++ (codes " AS users ON tokens."
                    ++ (setting vars "DB_Tokens_UserID"
                        ++ (codes " = "
                            ++ (setting vars "DB_Users_ID"
                                ++ (codes " WHERE tokens."
                                    ++ (setting vars "DB_Tokens_Expired" ++ codes " = '0'")))))))))

unfoldable pub restrictions_query : Vars → Bytes
restrictions_query vars =
    select_from
      ((codes "users." ++ setting vars "DB_Users_ID")
        ∷ (codes "users." ++ setting vars "DB_Users_Passkey")
        ∷ (codes "iprestrictions." ++ setting vars "DB_IPRestrictions_IP")
        ∷ [])
      (setting vars "DB_IPRestrictions"
        ++ (codes " AS iprestrictions INNER JOIN "
            ++ (setting vars "DB_Users"
                ++ (codes " AS users ON users."
                    ++ (setting vars "DB_Users_ID"
                        ++ (codes " = iprestrictions."
                            ++ setting vars "DB_IPRestrictions_UserID"))))))

unfoldable pub torrents_query : Vars → Bytes
torrents_query vars =
    select_from
      (setting vars "DB_Torrents_ID"
        ∷ setting vars "DB_Torrents_InfoHash"
        ∷ setting vars "DB_Torrents_Freeleech"
        ∷ setting vars "DB_Torrents_Snatches"
        ∷ setting vars "DB_Torrents_Balance"
        ∷ [])
      (setting vars "DB_Torrents")

unfoldable pub bans_query : Vars → Bytes
bans_query vars =
    select_from (setting vars "DB_IPBans_FromIP" ∷ setting vars "DB_IPBans_ToIP" ∷ [])
      (setting vars "DB_IPBans")

unfoldable pub whitelist_query : Vars → Bytes
whitelist_query vars =
    select_from (setting vars "DB_Whitelist_PeerID" ∷ []) (setting vars "DB_Whitelist")

unfoldable pub leech_query : Vars → Bytes
leech_query vars =
    codes "SELECT Value FROM "
    ++ (setting vars "DB_SiteOptions"
        ++ (codes " WHERE Key = '" ++ (setting vars "DB_SiteOptions_LeechStatus" ++ codes "'")))

-- A row of the users; an account that `emplace` refuses is leaked.
unfoldable pub load_user : Row → Tracker → Outcome Tracker
load_user row t = do
  passkey ← cell 1 row
  user_id ← cell 0 row
  id ← stoul user_id
  authorized ← cell 2 row
  ok (record t {
    heap = emplace t.next_address (new_user (id % u32) (authorized == codes "1")) t.heap;
    next_address = t.next_address + 1;
    usr_map = emplace passkey t.next_address t.usr_map;
  })

-- `usrMap.at(passkey)`, in the block that catches.
abbrev pub user_of : Bytes → Tracker → Outcome (Option ℕ)
user_of passkey t = do address ← or_stop (find passkey t.usr_map) out_of_range; ok (some address)

-- A row of the tokens; a time is taken to be below 2^63, where it is no negative long long.
unfoldable pub load_token : Row → Tracker → Outcome Tracker
load_token row t =
    catch
      (do
        passkey ← cell 0 row
        u ← user_of passkey t
        torrent_id ← cell 1 row
        tid ← stoul torrent_id
        expiration ← cell 2 row
        time ← stoul expiration
        with_user u (add_token (tid % u32) time) t)
      t

unfoldable pub load_restriction : Platform → Row → Tracker → Outcome Tracker
load_restriction os row t = do
  user_id ← cell 0 row
  _ ← stoul user_id
  passkey ← cell 1 row
  address ← cell 2 row
  ip ← stoul address
  catch (do u ← user_of passkey t; with_user u (add_ip_restriction (long2ip os (ip % u32))) t) t

unfoldable pub load_torrent : Row → Tracker → Outcome Tracker
load_torrent row t = do
  free_text ← cell 2 row
  let free = if free_text == codes "1" then 100 else if free_text == codes "2" then 50 else 0
  info_hash ← cell 1 row
  torrent_id ← cell 0 row
  id ← stoul torrent_id
  snatched ← cell 3 row
  snatches ← stoul snatched
  balanced ← cell 4 row
  balance ← stoul balanced
  ok (record t { tor_map = emplace info_hash (new_torrent id free snatches balance) t.tor_map })

unfoldable pub load_ban : Platform → Row → Texts → Outcome Texts
load_ban os row banned = do
  fromip ← cell 0 row
  from ← stoul fromip
  toip ← cell 1 row
  to ← stoul toip
  ok (ban_range os (range_size (from % u32) (to % u32)) (from % u32) (to % u32) banned)

unfoldable pub load_client : Row → List Bytes → Outcome (List Bytes)
load_client row whitelist = do peer_id ← cell 0 row; ok (whitelist ++ peer_id ∷ [])

unfoldable pub load_status : Row → LeechStatus → Outcome LeechStatus
load_status row status = do
  value ← cell 0 row
  ok (if value == codes "freeleech" then freeleech else normal)

-- The rows of a selection; one that fails ends the load.
abbrev pub selected : Option (List Row) → Tracker → (List Row → Outcome Tracker) → Outcome Tracker
selected none t load = ok t
selected (some rows) t load = load rows

module _ {ℓ} {S : Type ℓ} (server : Server S) (vars : Vars) (s : S) where
  unfoldable pub load_users : Platform → Tracker → Outcome Tracker
  unfolding load_user load_token load_restriction
  load_users os t = selected (server.select s (users_query vars)) t λ rows. do
    t1 ← for_rows load_user rows t
    selected (server.select s (tokens_query vars)) t1 λ rows. do
      t2 ← for_rows load_token rows t1
      selected (server.select s (restrictions_query vars)) t2
          λ rows. for_rows (load_restriction os) rows t2

  unfoldable pub load_torrents : Tracker → Outcome Tracker
  unfolding load_torrent
  load_torrents t = selected (server.select s (torrents_query vars)) t λ rows. do
    t' ← for_rows load_torrent rows t
    ok (record t' { stats = set_torrents (length rows) t'.stats })

  unfoldable pub load_banned_ips : Platform → Tracker → Outcome Tracker
  unfolding load_ban
  load_banned_ips os t = selected (server.select s (bans_query vars)) t λ rows. do
    banned ← for_rows (load_ban os) rows t.banned_ips
    ok (record t { banned_ips = banned })

  unfoldable pub load_client_whitelist : Tracker → Outcome Tracker
  unfolding load_client
  load_client_whitelist t = selected (server.select s (whitelist_query vars)) t λ rows. do
    whitelist ← for_rows load_client rows t.client_whitelist
    ok (record t { client_whitelist = whitelist })

  unfoldable pub load_leech_status : Tracker → Outcome Tracker
  unfolding load_status
  load_leech_status t = selected (server.select s (leech_query vars)) t λ rows. do
    status ← for_rows load_status rows t.leech_status
    ok (record t { leech_status = status })

-- ===== src/Database.antt =====
-- inc/database/db.hpp, and the `record` functions of src/database/mysql.cpp: rows are collected as
-- SQL text until `flush` joins them. `Heap` holds the accounts that a `User*` points to.
pub mod Accounts
pub mod Flush
use liquid.Base.{
  ℕ, ◌+◌, ◌%◌, Bool, true, false, List, [], ◌∷◌, ◌++◌, Option, none, some, Bytes, if◌then◌else◌,
  nat_eq,
}
use liquid.Base.Dict.{Dict, find}
use liquid.Base.Outcome.{Outcome, ok, undefined, ◌>>=◌, or_stop}
use liquid.Base.Words.{u32}
use liquid.Base.Text.{codes, to_string}
use liquid.Base.Int.{to_string_ℤ, signed64}
use liquid.Config.{Vars, is_private}
use liquid.User.{User, has_changed, reset}
use liquid.Peer.{Peer, get_timespent}
use liquid.Peers.{size}
use liquid.Torrent.{Torrent}

pub data LeechStatus : Type 0 where
  normal freeleech : LeechStatus

-- Rows that are recorded, and statements that wait for the server.
pub record Database : Type 0 where
  pub user_requests : List Bytes
  pub torrent_requests : List Bytes
  pub peer_requests : List Bytes
  pub token_requests : List Bytes
  pub snatch_requests : List Bytes
  pub user_records : List Bytes
  pub torrent_records : List Bytes
  pub peer_records : List Bytes
  pub token_records : List Bytes
  pub snatch_records : List Bytes

-- The accounts by address.
abbrev pub Heap : Type 0
Heap = Dict ℕ User

-- What `u->` reads: a null pointer is undefined behaviour.
abbrev pub deref : Heap → Option ℕ → Outcome User
deref heap none = or_stop none undefined
deref heap (some address) = or_stop (find address heap) undefined

-- Values between commas.
abbrev commas : Bytes → Bytes → Bytes
commas a b = a ++ (codes ", " ++ b)

abbrev quoted : Bytes → Bytes
quoted a = codes "'" ++ (a ++ codes "'")

abbrev row : Bytes → Bytes
row a = codes "(" ++ (a ++ codes ")")

-- The row that an account with traffic gives.
unfoldable pub user_row : User → Bytes
user_row u = row (commas (to_string u.id) (commas (to_string u.downloaded) (to_string u.uploaded)))

-- `recordUser`: the account after it, and the database.
unfoldable pub record_user : User → Database → User × Database
record_user u db =
    if has_changed u
    then (reset u, record db { user_requests = db.user_requests ++ user_row u ∷ [] })
    else (u, db)

abbrev truth : Bool → Bytes
truth expired = if expired then codes "TRUE" else codes "FALSE"

unfoldable pub record_token : ℕ → ℕ → ℕ → Bool → Database → Database
record_token user_id torrent_id downloaded expired db =
    let values =
      commas (to_string user_id)
        (commas (to_string torrent_id) (commas (to_string (downloaded % u32)) (truth expired))) in
    record db { token_requests = db.token_requests ++ row values ∷ [] }

unfoldable pub torrent_row : Torrent → Bytes
torrent_row t = row (
    commas (to_string t.id) (
      commas (to_string (size t.seeders + size t.seeders6)) (
        commas (to_string (size t.leechers + size t.leechers6))
          (commas (to_string t.snatches) (to_string_ℤ (signed64 t.balance))))))

unfoldable pub record_torrent : Torrent → Database → Database
record_torrent t db = record db { torrent_requests = db.torrent_requests ++ torrent_row t ∷ [] }

abbrev bit : Bool → Bytes
bit b = if b then codes "1" else codes "0"

-- The account's id in a private tracker, else 0.
owner_id : Vars → Heap → Peer → Outcome Bytes
owner_id vars heap p =
    if is_private vars then (do u ← deref heap p.user; ok (to_string u.id)) else ok (codes "0")

unfoldable pub peer_row : Bytes → ℕ → Peer → Bytes
peer_row owner timespent p =
    let when = if p.active then codes "UNIX_TIMESTAMP()" else to_string p.last_update in
    let place =
      commas (quoted p.peer_id)
        (commas (quoted (to_string p.torrent_id)) (commas (quoted p.ip) when)) in
    let traffic = commas (quoted (to_string p.left)) (
      commas (quoted (to_string p.up_speed)) (
        commas (quoted (to_string p.down_speed)) (
          commas (quoted (to_string p.corrupt))
            (commas (quoted (to_string timespent)) (commas (quoted p.client) place))))) in
    row (
      commas (quoted owner) (
        commas (bit p.active) (
          commas (codes "1") (
            commas (bit p.completed) (
              commas (quoted (to_string p.total_downloaded))
                (commas (quoted (to_string p.total_uploaded)) traffic))))))

-- `recordPeer`: the peer after it, whose seconds are cleared, and the database.
unfoldable pub record_peer : Vars → Heap → Peer → Database → Outcome (Peer × Database)
unfolding owner_id
record_peer vars heap p db =
    let (timespent, p') = get_timespent p in
    do
      owner ← owner_id vars heap p
      ok (p', record db { peer_requests = db.peer_requests ++ peer_row owner timespent p ∷ [] })

-- `recordSnatch`, which nothing calls.
unfoldable pub record_snatch : Vars → Heap → Peer → ℕ → Database → Outcome Database
unfolding owner_id
record_snatch vars heap p now db = do
  owner ← owner_id vars heap p
  ok (record db {
    snatch_requests =
        db.snatch_requests
        ++ row (
            commas (quoted owner) (
              commas (quoted (to_string now))
                (commas (quoted (to_string p.torrent_id)) (quoted p.ip))))
          ∷ [];
  })

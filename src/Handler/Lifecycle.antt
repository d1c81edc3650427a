-- ===== src/Handler/Lifecycle.antt =====
-- `RequestHandler::init`, `stop` and `flushSqlRecords` (src/handler/requestHandler.cpp), with
-- `connect`, `reset` and `disconnect` of src/database/mysql.cpp.
pub mod Init
use liquid.Base.{
  ℕ, Bool, true, false, List, [], ◌∷◌, ◌++◌, Option, none, some, Bytes, if◌then◌else◌,
}
use liquid.Base.Outcome.{Outcome, ok, ◌>>=◌}
use liquid.Base.Text.{codes}
use liquid.Config.{Vars, get, is_private, is_public}
use liquid.Platform.{Platform}
use liquid.Database.{Database}
use liquid.Database.Flush.{Table, flush}
use liquid.Handler.{Tracker}
use liquid.Handler.Load.{
  Server, load_users, load_torrents, load_banned_ips, load_client_whitelist, load_leech_status,
}

-- The two statements of `reset`.
unfoldable pub truncate_query : Vars → Bytes
truncate_query vars = codes "TRUNCATE " ++ get vars (codes "DB_Peers")

unfoldable pub zero_query : Vars → Bytes
zero_query vars =
    codes "UPDATE "
    ++ (get vars (codes "DB_Torrents")
        ++ (codes " SET "
            ++ (get vars (codes "DB_Torrents_Seeders")
                ++ (codes " = 0, " ++ (get vars (codes "DB_Torrents_Leechers") ++ codes " = 0")))))

module _ {ℓ} {S : Type ℓ} (server : Server S) (vars : Vars) where
  unfoldable pub reset : S → S
  reset s =
      let (s', failed) = server.query s (truncate_query vars) in
      if failed then s' else (server.query s' (zero_query vars)).0

  -- The server after it. A handle that is not connected is used all the same.
  unfoldable pub connect : S → S
  unfolding reset
  connect s = if server.connects s then reset s else s

  -- The handle is closed after `reset`.
  unfoldable pub disconnect : S → S
  unfolding reset
  disconnect s = reset s

  abbrev pub load_private : Platform → S → Tracker → Outcome Tracker
  load_private os s t =
      if is_private vars
      then (do t' ← load_users server vars s os t; load_leech_status server vars s t')
      else ok t

  unfoldable pub init : Platform → S → Tracker → Outcome (S × Tracker)
  unfolding connect
  init os s t = if is_public vars then ok (s, t) else (do
    let s' = connect s
    t1 ← load_torrents server vars s' t
    t2 ← load_banned_ips server vars s' os t1
    t3 ← load_client_whitelist server vars s' t2
    t4 ← load_private os s' t3
    ok (s', t4))

  -- The server and the database after it, and the tables whose threads it has started. The threads
  -- are not run here: in the source they may go their rounds before the statements of `disconnect`,
  -- between them, or after the handle is closed. The server and the database are those of a run in
  -- which none of them has come to its lock by then.
  unfoldable pub stop : S → Database → S × Database × List Table
  unfolding disconnect
  stop s db =
      if is_public vars
      then (s, db, [])
      else (let (db', threads) = flush vars db in (disconnect s, db', threads))

unfoldable pub flush_sql_records : Vars → Database → Database × List Table
flush_sql_records vars db = if is_public vars then (db, []) else flush vars db

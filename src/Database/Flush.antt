-- ===== src/Database/Flush.antt =====
-- `MySQL::flush` and what it calls (src/database/mysql.cpp): the rows of a table are joined to one
-- statement, statements wait in a list, and threads send them. mysql_real_query is a parameter.
pub mod Lists
pub mod Queue
pub mod Walk
pub mod Batches
pub mod Conserved
pub mod Drained
pub mod Emptied
pub mod Recorded
use Prim.Native.String.{String}
use liquid.Base.{ℕ, Bool, true, false, List, [], ◌∷◌, ◌++◌, Bytes, map, is_nil, if◌then◌else◌}
use liquid.Base.Text.{codes}
use liquid.Config.{Vars, get}
use liquid.Database.{Database}

-- The tables that have rows of their own, in the order of `flush`.
pub data Table : Type 0 where
  users torrents peers tokens snatches : Table

unfoldable pub requests_of : Table → Database → List Bytes
requests_of users db = db.user_requests
requests_of torrents db = db.torrent_requests
requests_of peers db = db.peer_requests
requests_of tokens db = db.token_requests
requests_of snatches db = db.snatch_requests

unfoldable pub records_of : Table → Database → List Bytes
records_of users db = db.user_records
records_of torrents db = db.torrent_records
records_of peers db = db.peer_records
records_of tokens db = db.token_records
records_of snatches db = db.snatch_records

-- Both lists of a table written.
unfoldable pub set_lists : Table → List Bytes → List Bytes → Database → Database
set_lists users rows records db = record db { user_requests = rows; user_records = records }
set_lists torrents rows records db = record db {
  torrent_requests = rows;
  torrent_records = records;
}
set_lists peers rows records db = record db { peer_requests = rows; peer_records = records }
set_lists tokens rows records db = record db { token_requests = rows; token_records = records }
set_lists snatches rows records db = record db { snatch_requests = rows; snatch_records = records }

-- Texts with commas between them: the loop with the flag `first`.
unfoldable pub listed_from : Bool → List Bytes → Bytes
listed_from first [] = []
listed_from first (it ∷ its) = (if first then it else codes ", " ++ it) ++ listed_from false its

abbrev pub comma_list : List Bytes → Bytes
comma_list rows = listed_from true rows

-- The settings that name a table and its columns.
abbrev table_name : Table → String
table_name users = "DB_Users"
table_name torrents = "DB_Torrents"
table_name peers = "DB_Peers"
table_name tokens = "DB_Tokens"
table_name snatches = "DB_Snatches"

abbrev columns : Table → List String
columns users = "DB_Users_ID" ∷ "DB_Users_Downloaded" ∷ "DB_Users_Uploaded" ∷ []
columns torrents =
    "DB_Torrents_ID" ∷ "DB_Torrents_Seeders" ∷ "DB_Torrents_Leechers" ∷ "DB_Torrents_Snatches"
    ∷ "DB_Torrents_Balance" ∷ []
columns peers =
    "DB_Peers_UserID" ∷ "DB_Peers_Active" ∷ "DB_Peers_AnnouncesCount" ∷ "DB_Peers_Completed"
    ∷ "DB_Peers_Downloaded" ∷ "DB_Peers_Uploaded" ∷ "DB_Peers_Left" ∷ "DB_Peers_UpSpeed"
    ∷ "DB_Peers_DownSpeed" ∷ "DB_Peers_Corrupt" ∷ "DB_Peers_Timespent" ∷ "DB_Peers_UserAgent"
    ∷ "DB_Peers_PeerID" ∷ "DB_Peers_TorrentID" ∷ "DB_Peers_IP" ∷ "DB_Peers_LastAction" ∷ []
columns tokens =
    "DB_Tokens_UserID" ∷ "DB_Tokens_TorrentID" ∷ "DB_Tokens_Downloaded" ∷ "DB_Tokens_Expired" ∷ []
columns snatches =
    "DB_Snatches_UserID" ∷ "DB_Snatches_TimeStamp" ∷ "DB_Snatches_TorrentID" ∷ "DB_Snatches_IP" ∷ []

-- What an update on a duplicate key does to a column.
pub data Change : Type 0 where
  added taken counted dated : String → Change

abbrev change_text : Vars → Change → Bytes
change_text vars (added name) =
    let column = get vars (codes name) in
    column ++ (codes " = " ++ (column ++ (codes " + VALUES(" ++ (column ++ codes ")"))))
change_text vars (taken name) =
    let column = get vars (codes name) in column ++ (codes " = VALUES(" ++ (column ++ codes ")"))
change_text vars (counted name) =
    let column = get vars (codes name) in column ++ (codes " = " ++ (column ++ codes " + 1"))
change_text vars (dated name) = get vars (codes name) ++ codes " = NOW()"

abbrev changes : Table → List Change
changes users = added "DB_Users_Downloaded" ∷ added "DB_Users_Uploaded" ∷ []
changes torrents =
    taken "DB_Torrents_Seeders"
    ∷ taken "DB_Torrents_Leechers"
    ∷ taken "DB_Torrents_Snatches"
    ∷ taken "DB_Torrents_Balance"
    ∷ dated "DB_Torrents_LastAction"
    ∷ []
changes peers =
    taken "DB_Peers_Active"
    ∷ counted "DB_Peers_AnnouncesCount"
    ∷ taken "DB_Peers_Downloaded"
    ∷ taken "DB_Peers_Uploaded"
    ∷ added "DB_Peers_Timespent"
    ∷ taken "DB_Peers_UpSpeed"
    ∷ taken "DB_Peers_DownSpeed"
    ∷ taken "DB_Peers_Corrupt"
    ∷ taken "DB_Peers_LastAction"
    ∷ []
changes tokens = added "DB_Tokens_Downloaded" ∷ taken "DB_Tokens_Expired" ∷ []
changes snatches = []

-- The end of a statement; rows of snatches are never updated.
abbrev on_duplicate : Vars → List Change → Bytes
on_duplicate vars [] = []
on_duplicate vars (c ∷ cs) =
    codes " ON DUPLICATE KEY UPDATE " ++ comma_list (map (change_text vars) (c ∷ cs))

-- The statement for the rows of a table.
unfoldable pub statement : Vars → Table → List Bytes → Bytes
unfolding listed_from
statement vars table rows =
    codes "INSERT IGNORE INTO "
    ++ (get vars (codes (table_name table))
        ++ (codes "("
            ++ (comma_list (map (λ name. get vars (codes name)) (columns table))
                ++ (codes ") VALUES " ++ (comma_list rows ++ on_duplicate vars (changes table))))))

-- `flushUsers` and the like, up to their thread: rows that are there become a statement.
unfoldable pub flush_table : Vars → Table → Database → Database
unfolding requests_of records_of set_lists
flush_table vars table db =
    let rows = requests_of table db in
    if is_nil rows
    then db
    else set_lists table [] (records_of table db ++ statement vars table rows ∷ []) db

-- Their last test: a thread is started if a statement waits.
unfoldable pub starts_thread : Table → Database → Bool
unfolding records_of
starts_thread table db = if is_nil (records_of table db) then false else true

-- `doFlushRecords`, on a server that a query changes and that answers whether it failed: what it
-- refuses stays in the list.
unfoldable pub do_flush_records {ℓ} :
    {S : Type ℓ} → (S → Bytes → S × Bool) → S → List Bytes → S × List Bytes
do_flush_records query s [] = (s, [])
do_flush_records query s (it ∷ its) =
    let (s', failed) = query s it in
    let (s'', rest) = do_flush_records query s' its in (s'', if failed then it ∷ rest else rest)

-- `flush`: the database after it, and the tables that threads are started for.
abbrev pub all_tables : List Table
all_tables = users ∷ torrents ∷ peers ∷ tokens ∷ snatches ∷ []

unfoldable pub flush_tables : Vars → List Table → Database → Database × List Table
unfolding flush_table starts_thread
flush_tables vars [] db = (db, [])
flush_tables vars (table ∷ tables) db =
    let db' = flush_table vars table db in
    let (db'', threads) = flush_tables vars tables db' in
    (db'', if starts_thread table db' then table ∷ threads else threads)

unfoldable pub flush : Vars → Database → Database × List Table
unfolding flush_tables
flush vars db = flush_tables vars all_tables db

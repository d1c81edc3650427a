-- ===== src/Database/Flush/Recorded.antt =====
-- The `record` functions (src/database/mysql.cpp) are the `recorded` events of `Queue`: each appends
-- one row to the list of its table.
use liquid.Base.{◌≡◌, refl, Bytes, Bool-cases, inl, inr, if◌then◌else◌}
use liquid.Base.Outcome.{Ends, Ends-ok, Ends-after}
use liquid.Config.{Vars}
use liquid.User.{User, has_changed}
use liquid.Peer.{Peer, get_timespent}
use liquid.Torrent.{Torrent}
use liquid.Database.{
  Database, Heap, record_user, record_torrent, record_peer, user_row, torrent_row, peer_row,
  owner_id,
}
use liquid.Database.Flush.{users, torrents, peers, requests_of, records_of, set_lists}
use liquid.Database.Flush.Queue.{add_row}

record_torrent-add_row :
    (t : Torrent) (db : Database) → record_torrent t db ≡ add_row torrents (torrent_row t) db
unfolding record_torrent add_row requests_of records_of set_lists
record_torrent-add_row t db = refl

record_user-add_row :
    (u : User) (db : Database)
    → (record_user u db).1 ≡ (if has_changed u then add_row users (user_row u) db else db)
unfolding record_user add_row requests_of records_of set_lists
record_user-add_row u db = elim (Bool-cases (has_changed u)) [
  | inl e ↦ rw e refl
  | inr e ↦ rw e refl
]

record_peer-add_row :
    (vars : Vars) (heap : Heap) (p : Peer) (db : Database)
    → Ends
        (λ (r : Peer × Database).
          (owner : Bytes) × (r.1 ≡ add_row peers (peer_row owner (get_timespent p).0 p) db))
        (record_peer vars heap p db)
unfolding record_peer add_row requests_of records_of set_lists
record_peer-add_row vars heap p db =
    let P : Peer × Database → Type 0 =
      λ r. (owner : Bytes) × (r.1 ≡ add_row peers (peer_row owner (get_timespent p).0 p) db) in
    Ends-after P (owner_id vars heap p) _ λ owner. Ends-ok P _ (owner, refl)

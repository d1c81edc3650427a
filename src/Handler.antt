-- ===== src/Handler.antt =====
-- src/handler/requestHandler.cpp: the state of the tracker. The map of users holds addresses; an
-- account whose passkey is removed or changed stays in the heap, where peers may point to it.
pub mod Update
pub mod Announce
pub mod Scrape
pub mod Clean
pub mod Handle
pub mod Load
pub mod Lifecycle
pub mod Valid
use liquid.Base.{ℕ, Bool, List, [], Option, none, some, Bytes, bytes_eq, nat_eq}
use liquid.Base.Dict.{Dict, find, modify}
use liquid.Base.Outcome.{Outcome, ok, ◌>>=◌}
use liquid.Stats.{Stats}
use liquid.User.{User, Texts}
use liquid.Torrent.{Torrent}
use liquid.Database.{Database, Heap, LeechStatus, deref}

pub record Tracker : Type 0 where
  pub tor_map : Dict Bytes Torrent
  pub heap : Heap
  pub next_address : ℕ
  pub usr_map : Dict Bytes ℕ
  pub banned_ips : Texts
  pub client_whitelist : List Bytes
  pub leech_status : LeechStatus
  pub db : Database
  pub stats : Stats

-- `getUser`: the pointer under a passkey, null if there is none.
unfoldable pub get_user : Bytes → Tracker → Option ℕ
get_user passkey t = find passkey t.usr_map

-- A call of a method that changes an account, through a pointer.
unfoldable pub with_user : Option ℕ → (User → User) → Tracker → Outcome Tracker
with_user address f t = do _ ← deref t.heap address; ok (write address)
  where
    write : Option ℕ → Tracker
    write none = t
    write (some a) = record t { heap = modify a f t.heap }

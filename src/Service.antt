-- ===== src/Service.antt =====
-- The running program: its tracker, and the connections that share it, under the events of the loop
-- (src/network/server.cpp, src/network/connectionHandler.cpp).
pub mod Valid
use liquid.Base.{
  ℕ, ◌-◌, ◌≤◌, ◌≡◌, Bool, true, List, [], ◌∷◌, ◌++◌, Option, none, some, Bytes, length, take, drop,
}
use liquid.Base.Outcome.{ok}
use liquid.Platform.{Platform, Env}
use liquid.Config.{Vars}
use liquid.Kernel.{Kernel, History}
use liquid.Handler.{Tracker}
use liquid.Connection.{Connection, destroy, read_request, write_response}
use liquid.Server.{Server, accept_client}
use liquid.System as System

-- A connection, and the bytes that its peer has been sent.
pub record Client : Type 0 where
  pub connection : Connection
  pub wire : Bytes

pub record Service : Type 0 where
  pub clients : List Client
  pub tracker : Tracker

-- The clients with one of them changed.
pub data Changed (old new : Client) : List Client → List Client → Type 0 where
  first : (rest : List Client) → Changed old new (old ∷ rest) (new ∷ rest)
  later :
      (other : Client) {clients clients' : List Client}
      → Changed old new clients clients'
      → Changed old new (other ∷ clients) (other ∷ clients')

-- A client is accepted; a started watcher of a connection reports; the socket cannot be written; or
-- the tracker makes a step of `System`, by a timer of the server or a thread. A connection that is
-- gone is one with no watcher.
pub data Step (k : Kernel) (os : Platform) (level : ℕ) (vars : Vars) (server : Server)
    : Service → Service → Type 0 where
  accepts :
      {s : Service} (before after : History) (c : Connection)
      → accept_client k level vars server before ≡ (after, ok (some c))
      → Step k os level vars server s
          (record s { clients = record { connection = c; wire = [] } ∷ s.clients })
  reads :
      {s : Service} (env : Env) (data_read : Option Bytes) (old : Client) (c : Connection)
      (t : Tracker) (clients : List Client)
      → old.connection.read_watcher ≡ true
      → read_request os env vars data_read old.connection s.tracker ≡ ok (c, t)
      → Changed old (record old { connection = c }) s.clients clients
      → Step k os level vars server s (record { clients = clients; tracker = t })
  writes :
      {s : Service} (n : ℕ) (old : Client) (clients : List Client)
      → old.connection.write_watcher ≡ true
      → n ≤ length old.connection.response - old.connection.sent
      → Changed old
          (record {
            connection = write_response (some n) old.connection;
            wire = old.wire ++ take n (drop old.connection.sent old.connection.response);
          })
          s.clients
          clients
      → Step k os level vars server s (record s { clients = clients })
  fails_to_write :
      {s : Service} (old : Client) (clients : List Client)
      → old.connection.write_watcher ≡ true
      → Changed old
          (record old { connection = write_response none old.connection })
          s.clients
          clients
      → Step k os level vars server s (record s { clients = clients })
  times_out :
      {s : Service} (old : Client) (clients : List Client)
      → old.connection.timeout_watcher ≡ true
      → Changed old (record old { connection = destroy old.connection }) s.clients clients
      → Step k os level vars server s (record s { clients = clients })
  works :
      {s : Service} (t : Tracker)
      → System.Step os vars s.tracker t
      → Step k os level vars server s (record s { tracker = t })

pub data Reaches (k : Kernel) (os : Platform) (level : ℕ) (vars : Vars) (server : Server)
    (s : Service) : Service → Type 0 where
  here : Reaches k os level vars server s s
  after :
      {m e : Service}
      → Reaches k os level vars server s m
      → Step k os level vars server m e
      → Reaches k os level vars server s e

-- ===== src/Connection.antt =====
-- src/network/connectionHandler.cpp: what a connection reads until its request is whole, and how the
-- reply goes out. recv(2) and send(2) are the events' arguments; a watcher is whether it is started.
pub mod Delivery
pub mod Address
pub mod Open
use liquid.Base.{
  ℕ, ◌+◌, ◌-◌, ◌%◌, ◌≤◌, ◌≡◌, Bool, true, false, ◌&&◌, List, [], ◌∷◌, ◌++◌, Option, none, some,
  Bytes, length, take, drop, ltb, leb, ◌==◌, nat_eq, bytes_eq, if◌then◌else◌,
}
use liquid.Base.Outcome.{Outcome, ok, stop, length_error, ◌>>=◌}
use liquid.Base.Int.{ℤ, pos_part, neg_part}
use liquid.Base.Words.{u32}
use liquid.Base.Text.{codes}
use liquid.Platform.{Platform, Env}
use liquid.Config.{Vars, get_int}
use liquid.Handler.{Tracker}
use liquid.Handler.Handle.{handle}

pub record Connection : Type 0 where
  pub ipv6 : Bool
  pub ip : Bytes
  pub request : Bytes
  pub max_request_size : ℕ
  pub response : Bytes
  pub sent : ℕ
  pub read_watcher : Bool
  pub write_watcher : Bool
  pub timeout_watcher : Bool

-- The unsigned int that an int converts to.
abbrev uint32 : ℤ → ℕ
uint32 a = (pos_part a + (u32 - neg_part a % u32)) % u32

-- The constructor and `init`, with the address that `getPeerInfo` has found.
unfoldable pub new_connection : Vars → Bytes → Bool → Connection
new_connection vars ip ipv6 = record {
  ipv6 = ipv6;
  ip = ip;
  request = [];
  max_request_size = uint32 (get_int vars (codes "max_request_size"));
  response = [];
  sent = 0;
  read_watcher = true;
  write_watcher = false;
  timeout_watcher = true;
}

unfoldable pub destroy : Connection → Connection
destroy c = record c { read_watcher = false; write_watcher = false; timeout_watcher = false }

-- The request ends in an empty line.
abbrev pub is_whole : Bytes → Bool
is_whole request = leb 4 (length request) && (drop (length request - 4) request == codes "\r\n\r\n")

-- The reply is there: reading ends, and writing begins.
abbrev pub answer : Bytes → Connection → Connection
answer response c = record c { response = response; read_watcher = false; write_watcher = true }

module _ (os : Platform) (env : Env) (vars : Vars) where
  -- `readRequest` after a recv that failed (whose -1 is taken for a size), or returned some bytes: any
  -- number of them, where the source asks for at most `read_buffer_size`, taken to be positive here.
  unfoldable pub read_request : Option Bytes → Connection → Tracker → Outcome (Connection × Tracker)
  unfolding destroy
  read_request none c t = stop length_error
  read_request (some []) c t = ok (destroy c, t)
  read_request (some (b ∷ bs)) c t =
      let c' : Connection = record c { request = c.request ++ b ∷ bs } in
      if ltb c.max_request_size (length c'.request)
      then ok (answer (codes "request too long") c', t)
      else if is_whole c'.request
      then (do
        (response, t') ← handle os env vars c'.request c.ip c.ipv6 t
        ok (answer response c', t'))
      else ok (c', t)

-- `writeResponse` after a send that failed, or took some bytes.
unfoldable pub write_response : Option ℕ → Connection → Connection
unfolding destroy
write_response none c = c
write_response (some n) c =
    let c' : Connection = record c { sent = c.sent + n } in
    if c'.sent == length c.response then destroy c' else c'

-- A connection, the tracker that it shares with the others, and the bytes that its peer has been sent.
pub record Session : Type 0 where
  pub connection : Connection
  pub tracker : Tracker
  pub wire : Bytes

-- The events of the loop: one that a started watcher reports, or whatever others do to the tracker.
pub data Step (os : Platform) (vars : Vars) : Session → Session → Type 0 where
  reads :
      {s : Session} (env : Env) (data_read : Option Bytes) (c : Connection) (t : Tracker)
      → s.connection.read_watcher ≡ true
      → read_request os env vars data_read s.connection s.tracker ≡ ok (c, t)
      → Step os vars s (record s { connection = c; tracker = t })
  writes :
      {s : Session} (n : ℕ)
      → s.connection.write_watcher ≡ true
      → n ≤ length s.connection.response - s.connection.sent
      → Step os vars s (record s {
        connection = write_response (some n) s.connection;
        wire = s.wire ++ take n (drop s.connection.sent s.connection.response);
      })
  fails_to_write :
      {s : Session}
      → s.connection.write_watcher ≡ true
      → Step os vars s (record s { connection = write_response none s.connection })
  times_out :
      {s : Session}
      → s.connection.timeout_watcher ≡ true
      → Step os vars s (record s { connection = destroy s.connection })
  others : {s : Session} (t : Tracker) → Step os vars s (record s { tracker = t })

pub data Reaches (os : Platform) (vars : Vars) (s : Session) : Session → Type 0 where
  here : Reaches os vars s s
  there : {m e : Session} → Reaches os vars s m → Step os vars m e → Reaches os vars s e

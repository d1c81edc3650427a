-- ===== src/Server.antt =====
-- src/network/server.cpp, src/network/serverIPv4.cpp and src/network/serverIPv6.cpp: how the tracker
-- begins to listen, and how it takes a connection.
pub mod Started
pub mod Taken
use liquid.Base.{ℕ, ◌%◌, ◌^◌, Bool, true, false, Option, none, some, Bytes}
use liquid.Base.Int.{ℤ, pos}
use liquid.Base.Text.{codes}
use liquid.Kernel.{
  Kernel, Io, socket, set_reuse_address, set_v6_only, bind, listen, accept, attempt, perform, log,
  pure, try_catch, ◌>>=◌,
}
use liquid.Logger.{error}
use liquid.Config.{Vars, get_int}
use liquid.Connection.{Connection}
use liquid.Connection.Open.{open_connection}

-- ServerIPv4, or ServerIPv6 with its `IPv6Only`.
pub data Family : Type 0 where
  ipv4 : Family
  ipv6 : Bool → Family

abbrev pub is_ipv6 : Family → Bool
is_ipv6 ipv4 = false
is_ipv6 (ipv6 _) = true

-- The watcher is started on the socket, the timers with their intervals in seconds.
pub record Server : Type 0 where
  pub family : Family
  pub sock : ℕ
  pub clear_interval : ℤ
  pub flush_interval : ℤ
  pub show_interval : ℤ

module _ (k : Kernel) where
  -- `setSocketOptions`, the virtual function.
  unfoldable pub set_socket_options : Family → ℕ → Io ℕ
  set_socket_options ipv4 sock = perform k (set_reuse_address sock)
  set_socket_options (ipv6 false) sock = perform k (set_reuse_address sock)
  set_socket_options (ipv6 true) sock = do
    _ ← perform k (set_reuse_address sock)
    perform k (set_v6_only sock)

  -- `Server::init` once the options are set.
  abbrev pub bind_and_listen : Vars → Family → ℕ → ℕ → Io Server
  bind_and_listen vars family port sock = do
    _ ← perform k (bind sock (is_ipv6 family) port)
    _ ← perform k (listen sock 1)
    pure (record {
      family = family;
      sock = sock;
      clear_interval = get_int vars (codes "clear_peers_interval");
      flush_interval = get_int vars (codes "flush_records_interval");
      show_interval = pos 10;
    })

  -- The constructors, with `Server::init`, on a port of 16 bits.
  unfoldable pub new_server : Vars → Family → ℕ → Io Server
  unfolding set_socket_options
  new_server vars family port = do
    sock ← perform k (socket (is_ipv6 family))
    _ ← set_socket_options family sock
    bind_and_listen vars family port sock

  -- `acceptClient` behind accept, at the level from which messages are logged.
  abbrev pub handle_accepted : ℕ → Vars → Server → Option ℕ → Io (Option Connection)
  handle_accepted min_level vars s (some response_sock) =
      try_catch (do c ← open_connection k vars (is_ipv6 s.family) response_sock; pure (some c))
        (λ e. do
          _ ← log k min_level error (codes "network/server.cpp") 73 (λ calls. k.what calls e)
          pure none)
  handle_accepted min_level vars s none = do
    _ ← log k min_level error (codes "network/server.cpp") 77 (λ _. codes "accept() failed")
    pure none

  -- `acceptClient`, with the connection that it makes, if any.
  unfoldable pub accept_client : ℕ → Vars → Server → Io (Option Connection)
  accept_client min_level vars s = do
    response_sock ← attempt k (accept s.sock)
    handle_accepted min_level vars s response_sock

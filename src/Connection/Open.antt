-- ===== src/Connection/Open.antt =====
-- How a connection is set up on a socket that accept(2) gave: the constructors of
-- src/network/connectionHandlerIPv4.cpp and src/network/connectionHandlerIPv6.cpp with `init` and
-- `setSocketOptions` of src/network/connectionHandler.cpp. The memory that `init` reserves is left out.
pub mod Opened
use Prim.Native.Nat.{bit_or}
use liquid.Base.{ℕ, Bool, false, Bytes, if◌then◌else◌}
use liquid.Kernel.{Kernel, Io, get_flags, set_flags, get_peer_name, inet_ntop, perform, pure, ◌>>=◌}
use liquid.Config.{Vars}
use liquid.Connection.{Connection, new_connection}
use liquid.Connection.Address

module _ (k : Kernel) where
  unfoldable pub set_socket_options : ℕ → Io ℕ
  set_socket_options sock = do
    flags ← perform k (get_flags sock)
    perform k (set_flags sock (bit_or flags k.o_nonblock))

  -- What follows on getpeername, with the address that it has stored.
  abbrev pub text_of : Bool → Bytes → Io (Bytes × Bool)
  text_of family client = do
    _ ← perform k (inet_ntop family client)
    let ip = k.address_text family client
    pure (if family then Address.get_peer_info ip else (ip, false))

  -- The text of the address, and whether it is an IPv6 one, on a handler of either family.
  unfoldable pub get_peer_info : Bool → ℕ → Io (Bytes × Bool)
  get_peer_info family sock = do
    _ ← perform k (get_peer_name sock)
    λ calls. text_of family (k.peer_address calls sock) calls

  unfoldable pub open_connection : Vars → Bool → ℕ → Io Connection
  unfolding set_socket_options get_peer_info
  open_connection vars family sock = do
    _ ← set_socket_options sock
    (ip, ipv6) ← get_peer_info family sock
    pure (new_connection vars ip ipv6)

-- ===== src/Platform.antt =====
-- What the operating system gives the tracker and its sources do not hold.
use liquid.Base.{ℕ, Bool, Bytes}

-- `inet_pton ipv6 ip` is the buffer after inet_pton(3): 16 bytes for IPv6, else 4. `inet_ntoa` is
-- inet_ntoa(3) at the four bytes of an address in network order. `to_double` is the conversion of
-- an unsigned long to double, whose values are whole numbers.
pub record Platform : Type 0 where
  pub inet_pton : Bool → Bytes → Bytes
  pub inet_ntoa : Bytes → Bytes
  pub to_double : ℕ → ℕ

-- What one event reads from outside: the clock, each time that the code reads it (the announce's
-- own reading, the one in the constructor of Peer, the one for a token), and the bits that a new
-- Peer has in `corrupt`, which its constructor does not set.
pub record Env : Type 0 where
  pub now : ℕ
  pub created : ℕ
  pub checked : ℕ
  pub indeterminate : ℕ

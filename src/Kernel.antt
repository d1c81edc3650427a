-- ===== src/Kernel.antt =====
-- The calls of the socket API that src/network makes, and its log messages, as the history of a run.
-- What a call returns is a parameter: any function of the history.
pub mod Answered
use liquid.Base.{ℕ, Bool, List, ◌∷◌, Option, none, some, Bytes}
use liquid.Base.Outcome.{Outcome, ok, stop, Stop, undefined, system_error}
use liquid.Logger.{Level, write}

-- Each of socket(2), setsockopt(2) with SO_REUSEADDR or IPV6_V6ONLY, bind(2) to any address of a
-- family and a port, listen(2) with a backlog, accept(2), fcntl(2) with F_GETFL or F_SETFL,
-- getpeername(2), inet_ntop(3) and close(2) with its arguments; and a text that is printed.
pub data Call : Type 0 where
  socket : Bool → Call
  set_reuse_address : ℕ → Call
  set_v6_only : ℕ → Call
  bind : ℕ → Bool → ℕ → Call
  listen : ℕ → ℕ → Call
  accept : ℕ → Call
  get_flags : ℕ → Call
  set_flags : ℕ → ℕ → Call
  get_peer_name : ℕ → Call
  inet_ntop : Bool → Bytes → Call
  close : ℕ → Call
  print : Bytes → Call

-- The calls that were made, the latest first.
abbrev pub History : Type 0
History = List Call

-- `answer` is what a call after a history returns, none for -1 or a null pointer; `peer_address` is
-- what getpeername has stored, and `address_text` what inet_ntop has. `o_nonblock` is the flag,
-- `time` what strftime makes of the clock, `what` the message of an exception.
pub record Kernel : Type 0 where
  pub answer : History → Call → Option ℕ
  pub peer_address : History → ℕ → Bytes
  pub address_text : Bool → Bytes → Bytes
  pub o_nonblock : ℕ
  pub time : History → Option Bytes
  pub what : History → Stop → Bytes

-- A piece of code that makes calls; the history stays when it throws.
abbrev pub Io {ℓ} : Type ℓ → Type ℓ
Io A = History → History × Outcome A

abbrev pub pure {ℓ} : {A : Type ℓ} → A → Io A
pure a calls = (calls, ok a)

abbrev pub lift {ℓ} : {A : Type ℓ} → Outcome A → Io A
lift o calls = (calls, o)

abbrev pub next {ℓ κ} :
    {A : Type ℓ} {B : Type κ} → History × Outcome A → (A → Io B) → History × Outcome B
next (calls, ok a) f = f a calls
next (calls, stop e) f = (calls, stop e)

infixl 5 ◌>>=◌
abbrev pub ◌>>=◌ {ℓ κ} : {A : Type ℓ} {B : Type κ} → Io A → (A → Io B) → Io B
◌>>=◌ m f calls = next (m calls) f

abbrev pub recover {ℓ} : {A : Type ℓ} → (Stop → Io A) → History × Outcome A → History × Outcome A
recover h (calls, ok a) = (calls, ok a)
recover h (calls, stop undefined) = (calls, stop undefined)
recover h (calls, stop e) = h e calls

-- `try { … } catch (const std::exception& e) { … }`
abbrev pub try_catch {ℓ} : {A : Type ℓ} → Io A → (Stop → Io A) → Io A
try_catch m h calls = recover h (m calls)

abbrev pub or_throw : Option ℕ → Outcome ℕ
or_throw none = stop system_error
or_throw (some n) = ok n

abbrev pub printed : Option Bytes → History → History
printed none calls = calls
printed (some text) calls = print text ∷ calls

module _ (k : Kernel) where
  -- A call whose result the code tests against -1 itself.
  abbrev pub attempt : Call → Io (Option ℕ)
  attempt c calls = (c ∷ calls, ok (k.answer calls c))

  -- A call that throws std::system_error where it fails.
  abbrev pub perform : Call → Io ℕ
  perform c calls = (c ∷ calls, or_throw (k.answer calls c))

  -- LOG_INFO and LOG_ERROR at a line of a file.
  abbrev pub log : ℕ → Level → Bytes → ℕ → (History → Bytes) → Io (Unit {0})
  log min_level level file line message calls =
      (printed (write min_level (k.time calls) level file line (message calls)) calls, ok tt)

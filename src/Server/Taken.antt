-- ===== src/Server/Taken.antt =====
-- What becomes of a client that the server accepts.
use liquid.Base.{
  ℕ, ◌≡◌, refl, subst, ◌∙◌, Bool, true, Option, none, some, Bytes, [], ◌∷◌, arith, nat_eq,
}
use liquid.Base.Outcome.{
  Outcome, ok, stop, out_of_range, invalid_argument, length_error, system_error, undefined,
}
use liquid.Base.Text.{codes}
use liquid.Kernel.{Kernel, History, accept, printed, recover, next, pure}
use liquid.Kernel.Answered.{Failed}
use liquid.Logger.{error, write}
use liquid.Config.{Vars}
use liquid.Connection.{Connection, new_connection}
use liquid.Connection.Open.{open_connection}
use liquid.Connection.Open.Opened.{Opened, is_open, open_connection-Opened}
use liquid.Server.{Server, is_ipv6, handle_accepted, accept_client}

module _ (k : Kernel) (min_level : ℕ) (vars : Vars) (s : Server) (start : History) where
  -- An error of src/network/server.cpp, printed after a history.
  abbrev reported : ℕ → Bytes → History → History
  reported line message calls =
      printed (write min_level (k.time calls) error (codes "network/server.cpp") line message) calls

  -- How `acceptClient` ends, by what accept gave.
  abbrev pub Taken : Option ℕ → History × Outcome (Option Connection) → Type 0
  Taken none (calls, ok none) =
      calls ≡ reported 77 (codes "accept() failed") (accept s.sock ∷ start)
  Taken none (calls, ok (some c)) = ⊥
  Taken none (calls, stop e) = ⊥
  Taken (some fd) (calls, ok (some c)) =
      Opened k vars (is_ipv6 s.family) fd (accept s.sock ∷ start) (calls, ok c)
      × (is_open k fd calls ≡ true)
  Taken (some fd) (calls, ok none) =
      (failed : History) × Failed k (accept s.sock ∷ start) failed system_error
      × (calls ≡ reported 73 (k.what failed system_error) failed)
      × (is_open k fd calls ≡ true)
  Taken (some fd) (calls, stop e) = ⊥

  is_open-printed :
      (fd : ℕ) (text : Option Bytes) (calls : History)
      → is_open k fd (printed text calls) ≡ is_open k fd calls
  is_open-printed fd none calls = refl
  is_open-printed fd (some text) calls = refl

  caught :
      (fd : ℕ) (r : History × Outcome Connection)
      → is_open k fd (accept s.sock ∷ start) ≡ true
      → Opened k vars (is_ipv6 s.family) fd (accept s.sock ∷ start) r
      → Taken (some fd) (
          recover
            (λ e. λ calls. (reported 73 (k.what calls e) calls, ok none))
            (next r λ c. pure (some c)))
  caught fd (calls, ok c) h o = (o, o.4 ∙ h)
  caught fd ([], stop e) h o = absurd o.0
  caught fd (call ∷ calls, stop out_of_range) h o = absurd (cc)
  caught fd (call ∷ calls, stop invalid_argument) h o = absurd (cc)
  caught fd (call ∷ calls, stop length_error) h o = absurd (cc)
  caught fd (call ∷ calls, stop undefined) h o = absurd (cc)
  caught fd (call ∷ calls, stop system_error) h (f, same) =
      (call ∷ calls, f, refl, is_open-printed fd _ (call ∷ calls) ∙ (same ∙ h))

  by_answer :
      (o : Option ℕ)
      → k.answer start (accept s.sock) ≡ o
      → Taken o (handle_accepted k min_level vars s o (accept s.sock ∷ start))
  by_answer none e = refl
  by_answer (some fd) e =
      caught fd (open_connection k vars (is_ipv6 s.family) fd (accept s.sock ∷ start))
        (rw e (ground arith))
        (open_connection-Opened k vars (is_ipv6 s.family) fd (accept s.sock ∷ start))

  -- Accepting a client never throws. Where accept fails, that is reported and nothing else is done.
  -- Where it gives a socket, the socket is open afterwards, and there are two ends. A connection to the
  -- client is made: every call has succeeded, the socket no longer blocks, and the connection has the
  -- address that the system gives. Or none is made: a call has failed, which is reported and is the
  -- last call, so that no connection holds the open socket.
  pub accept_client-Taken :
      Taken (k.answer start (accept s.sock)) (accept_client k min_level vars s start)
  unfolding accept_client
  accept_client-Taken = by_answer (k.answer start (accept s.sock)) refl

  by_connection :
      (o : Option ℕ) (calls : History) (c : Connection)
      → Taken o (calls, ok (some c))
      → (ip : Bytes) × (v6 : Bool) × (c ≡ new_connection vars ip v6)
  by_connection none calls c h = elim h [ ]
  by_connection (some fd) calls c (opened, _) = (_, _, opened.2.1)

  -- The connection that is made is one that has just been constructed.
  pub accept_client-new_connection :
      (calls : History) (c : Connection)
      → accept_client k min_level vars s start ≡ (calls, ok (some c))
      → (ip : Bytes) × (v6 : Bool) × (c ≡ new_connection vars ip v6)
  accept_client-new_connection calls c e =
      let o : Option ℕ = k.answer start (accept s.sock) in
      by_connection o calls c (subst (Taken o) e accept_client-Taken)

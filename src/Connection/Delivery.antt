-- ===== src/Connection/Delivery.antt =====
-- What the peer of a connection has been sent.
use mathlib.Core.Bool.{false≢true}
use liquid.Base.{
  ℕ, zero, suc, ◌+◌, ◌-◌, ◌≤◌, ◌≡◌, refl, sym, ◌∙◌, if_case, Bool, true, false, [], ◌∷◌, ◌++◌,
  Option, none, some, Bytes, arith, length, take, drop, ◌==◌, nat_eq, ltb,
}
use liquid.Base.Outcome.{Ends, Ends-ok, Ends-after, Ends-if}
use liquid.Base.Text.{codes}
use liquid.Platform.{Platform, Env}
use liquid.Config.{Vars}
use liquid.Handler.{Tracker}
use liquid.Handler.Handle.{handle}
use liquid.Connection.{
  Connection, new_connection, destroy, answer, is_whole, read_request, write_response, Session,
  Step, reads, writes, fails_to_write, times_out, others, Reaches, here, there,
}

-- The peer has been sent the first `sent` bytes of the response, and nothing while the request is
-- still read; a connection does not read and write at once.
pub record IsValid (c : Connection) (wire : Bytes) : Type 0 where
  pub fits : c.sent ≤ length c.response
  pub delivered : wire ≡ take c.sent c.response
  pub quiet : c.read_watcher ≡ true → (c.sent ≡ 0) × (c.write_watcher ≡ false)

take-append-take :
    (a k n : ℕ) (xs : Bytes)
    → k ≡ a + n
    → a ≤ length xs
    → take a xs ++ take n (drop a xs) ≡ take k xs
take-append-take zero k n xs e h = let same : k ≡ n = omega arith in rw same refl
take-append-take (suc a) zero n xs e h = absurd (omega arith)
take-append-take (suc a) (suc k) n [] e h = absurd (omega arith)
take-append-take (suc a) (suc k) n (x ∷ xs) e h =
    rw (take-append-take a k n xs (omega arith) (omega arith)) refl

module _ (os : Platform) (vars : Vars) where
  pub start-IsValid : (ip : Bytes) (ipv6 : Bool) → IsValid (new_connection vars ip ipv6) []
  unfolding new_connection
  start-IsValid ip ipv6 = record { fits = omega arith; delivered = refl; quiet = λ _. (refl, refl) }

  pub destroy-IsValid : (c : Connection) (wire : Bytes) → IsValid c wire → IsValid (destroy c) wire
  unfolding destroy
  destroy-IsValid c wire v = record {
    fits = v.fits;
    delivered = v.delivered;
    quiet = λ h. absurd (false≢true h);
  }

  answer-IsValid :
      (response : Bytes) (c : Connection) (wire : Bytes)
      → c.sent ≡ 0
      → wire ≡ []
      → IsValid (answer response c) wire
  answer-IsValid response c wire z e = record {
    fits = omega arith;
    delivered = rw (z, e) refl;
    quiet = λ h. absurd (false≢true h);
  }

  pub read_request-IsValid :
      (env : Env) (data_read : Option Bytes) (c : Connection) (t : Tracker) (wire : Bytes)
      → c.read_watcher ≡ true
      → IsValid c wire
      → Ends
          (λ (r : Connection × Tracker). IsValid r.0 wire)
          (read_request os env vars data_read c t)
  unfolding read_request
  read_request-IsValid env none c t wire h v b e = absurd (ground arith)
  read_request-IsValid env (some []) c t wire h v b e =
      Ends-ok (λ (r : Connection × Tracker). IsValid r.0 wire) (destroy c, t)
        (destroy-IsValid c wire v) b e
  read_request-IsValid env (some (x ∷ xs)) c t wire h v b e =
      let P : Connection × Tracker → Type 0 = λ r. IsValid r.0 wire in
      let c' : Connection = record c { request = c.request ++ x ∷ xs } in
      let zero_sent : c.sent ≡ 0 = (v.quiet h).0 in
      let nothing : wire ≡ [] = v.delivered ∙ rw zero_sent refl in
      Ends-if P (ltb c.max_request_size (length c'.request))
        (Ends-ok P _ (answer-IsValid (codes "request too long") c' wire zero_sent nothing))
        (Ends-if P (is_whole c'.request)
          (Ends-after P (handle os env vars c'.request c.ip c.ipv6 t) _
            λ r. Ends-ok P _ (answer-IsValid r.0 c' wire zero_sent nothing))
          (Ends-ok P (c', t) (record { fits = v.fits; delivered = v.delivered; quiet = v.quiet })))
        b e

  pub write_response-IsValid :
      (n : ℕ) (c : Connection) (wire : Bytes)
      → c.write_watcher ≡ true
      → n ≤ length c.response - c.sent
      → IsValid c wire
      → IsValid (write_response (some n) c) (wire ++ take n (drop c.sent c.response))
  unfolding write_response
  write_response-IsValid n c wire h k v =
      let c' : Connection = record c { sent = c.sent + n } in
      let wire' = wire ++ take n (drop c.sent c.response) in
      let more : IsValid c' wire' = record {
        fits = omega (arith, v.fits);
        delivered = rw v.delivered (take-append-take c.sent (c.sent + n) n c.response refl v.fits);
        quiet = λ r. absurd (false≢true (sym (v.quiet r).1 ∙ h));
      } in
      if_case (λ d. IsValid d wire') (c'.sent == length c.response) (destroy-IsValid c' wire' more)
        more

  Step-IsValid :
      {s s' : Session}
      → Step os vars s s'
      → IsValid s.connection s.wire
      → IsValid s'.connection s'.wire
  unfolding write_response
  Step-IsValid (reads {s = s} env data_read c t h e) v =
      read_request-IsValid env data_read s.connection s.tracker s.wire h v (c, t) e
  Step-IsValid (writes {s = s} n h k) v = write_response-IsValid n s.connection s.wire h k v
  Step-IsValid (fails_to_write h) v = v
  Step-IsValid (times_out {s = s} h) v = destroy-IsValid s.connection s.wire v
  Step-IsValid (others t) v = v

  -- In every state that a connection reaches, whatever its peer, its socket and the other
  -- connections do: the peer has been sent exactly the first `sent` bytes of the response, which
  -- has that many; while the request is read nothing is sent, and the write watcher is stopped.
  pub session-IsValid :
      (ip : Bytes) (ipv6 : Bool) (t : Tracker) (s : Session)
      → Reaches os vars
          (record { connection = new_connection vars ip ipv6; tracker = t; wire = [] })
          s
      → IsValid s.connection s.wire
  session-IsValid ip ipv6 t s here = start-IsValid ip ipv6
  session-IsValid ip ipv6 t s (there {m = m} r step) =
      Step-IsValid step (session-IsValid ip ipv6 t m r)

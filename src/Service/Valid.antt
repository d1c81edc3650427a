-- ===== src/Service/Valid.antt =====
-- What holds in every state that the running program reaches.
use liquid.Base.{ℕ, ◌≡◌, sym, subst, List, [], ◌∷◌, ◌++◌, Option, none, some, Bytes, arith}
use liquid.Base.Outcome.{ok, Ends, Ends-ok, Ends-if, Ends-bind}
use liquid.Platform.{Platform, Env}
use liquid.Config.{Vars}
use liquid.Kernel.{Kernel, History}
use liquid.Handler.{Tracker}
use liquid.Handler.Handle.{handle}
use liquid.Handler.Handle.Valid.{handle-IsValid}
use liquid.Handler.Valid.{IsValid}
use liquid.Connection.{Connection, read_request, write_response}
use liquid.Connection.Delivery as Delivery
use liquid.Server.{Server}
use liquid.Server.Taken.{accept_client-new_connection}
use liquid.System.{Step-IsValid}
use liquid.Handler.Load.{Server as MySql}
use liquid.Handler.Clean.{clear_torrent_peers}
use liquid.Handler.Clean.Valid.{clear_torrent_peers-IsValid}
use liquid.Program.{Opt}
use liquid.Program.Main.{Running, running, main}
use liquid.Program.Main.Serving.{main-IsValid}
use liquid.Service.{
  Client, Service, Changed, first, later, Step, accepts, reads, writes, fails_to_write, times_out,
  works, Reaches, here, after,
}

abbrev AllDelivered : List Client → Type 0
AllDelivered [] = Unit
AllDelivered (c ∷ cs) = Delivery.IsValid c.connection c.wire × AllDelivered cs

-- Each client has been sent what its connection counts as sent, and the tracker is valid.
pub record Sound (vars : Vars) (s : Service) : Type 0 where
  pub delivered : AllDelivered s.clients
  pub tracked : IsValid vars s.tracker

Changed-AllDelivered :
    {old new : Client} {clients clients' : List Client}
    → Changed old new clients clients'
    → (Delivery.IsValid old.connection old.wire → Delivery.IsValid new.connection new.wire)
    → AllDelivered clients
    → AllDelivered clients'
Changed-AllDelivered (first rest) f (v, vs) = (f v, vs)
Changed-AllDelivered (later other c) f (v, vs) = (v, Changed-AllDelivered c f vs)

module _ (k : Kernel) (os : Platform) (level : ℕ) (vars : Vars) (server : Server) where
  read_request-tracker :
      (env : Env) (data_read : Option Bytes) (c : Connection) (t : Tracker)
      → IsValid vars t
      → Ends
          (λ (r : Connection × Tracker). IsValid vars r.1)
          (read_request os env vars data_read c t)
  unfolding read_request
  read_request-tracker env none c t v b e = absurd (ground arith)
  read_request-tracker env (some []) c t v b e =
      Ends-ok (λ (r : Connection × Tracker). IsValid vars r.1) _ v b e
  read_request-tracker env (some (x ∷ xs)) c t v b e =
      let P : Connection × Tracker → Type 0 = λ r. IsValid vars r.1 in
      let request : Bytes = c.request ++ x ∷ xs in
      Ends-if P _ (Ends-ok P _ v)
        (Ends-if P _
          (Ends-bind (λ (r : Bytes × Tracker). IsValid vars r.1) P
            (handle os env vars request c.ip c.ipv6 t) _
            (λ r h. handle-IsValid os env vars request c.ip c.ipv6 t r.0 r.1 v h)
            (λ r w. Ends-ok P _ w))
          (Ends-ok P _ v))
        b e

  Step-Sound : {s s' : Service} → Step k os level vars server s s' → Sound vars s → Sound vars s'
  unfolding write_response
  Step-Sound (accepts {s = s} calls calls' c e) v =
      let (ip, v6, new) = accept_client-new_connection k level vars server calls calls' c e in
      let valid = Delivery.start-IsValid os vars ip v6 in
      record {
        delivered = (subst (λ c. Delivery.IsValid c []) (sym new) valid, v.delivered);
        tracked = v.tracked;
      }
  Step-Sound (reads {s = s} env data_read old c t clients h e g) v = record {
    delivered =
        Changed-AllDelivered g
          (λ w.
            Delivery.read_request-IsValid os vars env data_read old.connection s.tracker old.wire h
              w (c, t) e)
          v.delivered;
    tracked = read_request-tracker env data_read old.connection s.tracker v.tracked (c, t) e;
  }
  Step-Sound (writes {s = s} n old clients h l g) v = record {
    delivered =
        Changed-AllDelivered g
          (Delivery.write_response-IsValid os vars n old.connection old.wire h l) v.delivered;
    tracked = v.tracked;
  }
  Step-Sound (fails_to_write {s = s} old clients h g) v = record {
    delivered = Changed-AllDelivered g (λ w. w) v.delivered;
    tracked = v.tracked;
  }
  Step-Sound (times_out {s = s} old clients h g) v = record {
    delivered =
        Changed-AllDelivered g (Delivery.destroy-IsValid os vars old.connection old.wire)
          v.delivered;
    tracked = v.tracked;
  }
  Step-Sound (works {s = s} t e) v = record {
    delivered = v.delivered;
    tracked = Step-IsValid os vars e v.tracked;
  }

  Reaches-Sound :
      {s s' : Service} → Reaches k os level vars server s s' → Sound vars s → Sound vars s'
  Reaches-Sound here v = v
  Reaches-Sound (after r step) v = Step-Sound step (Reaches-Sound r v)

-- Whatever the options, the file of settings, the rows of the database and the system's answers: in
-- every state that the program reaches once `main` has come to its event loop, each client has been
-- sent exactly what its connection counts as sent of its response, and nothing while its request is
-- read; the tracker is valid; and the next pass that expires peers ends.
pub main-Sound {ℓ} :
    {S : Type ℓ} (k : Kernel) (os : Platform) (mysql : MySql S)
    (files : Bytes → Option (List Bytes)) (mysql_state : S) (opts : List Opt) (level now : ℕ)
    (begin calls : History) (r : Running S) (s : Service)
    → main k os mysql files mysql_state opts begin ≡ (calls, ok (running r))
    → Reaches k os level r.vars r.server (record { clients = []; tracker = r.tracker }) s
    → Sound r.vars s × (t : Tracker) × (clear_torrent_peers r.vars now s.tracker ≡ ok t)
main-Sound k os mysql files mysql_state opts level now begin calls r s e reached =
    let valid = main-IsValid k os mysql files mysql_state begin opts calls r e in
    let sound : Sound r.vars s =
      Reaches-Sound k os level r.vars r.server reached
        (record { delivered = tt; tracked = valid }) in
    let (t, run, _) = clear_torrent_peers-IsValid r.vars now s.tracker sound.tracked in
    (sound, t, run)

-- ===== src/Program/Main/Serving.antt =====
-- What holds when `main` ends, or has come to its event loop.
use liquid.Base.{
  ℕ, ◌≡◌, ◌≢◌, refl, ap, subst, List, Option, none, some, Bytes, Bool-cases, inl, inr,
}
use liquid.Base.Dict.{find}
use liquid.Base.Outcome.{
  Outcome, ok, stop, Stop, out_of_range, invalid_argument, length_error, system_error, undefined,
  ok-injective,
}
use liquid.Base.Text.{codes}
use liquid.Base.Int.{uint16}
use liquid.Platform.{Platform}
use liquid.Kernel.{Kernel, History, printed, log, next, recover, pure, ◌>>=◌}
use liquid.Logger.{info, error, write}
use liquid.Config.{Vars, get, get_int, is_public}
use liquid.Handler.{Tracker, get_user}
use liquid.Handler.Load.{Server as MySql}
use liquid.Handler.Lifecycle.Init.{init-IsValid}
use liquid.Handler.Valid.{IsValid}
use liquid.Handler.Update.Grounded.{Grounded}
use liquid.Server.{Server, new_server}
use liquid.Server.Started.{Started, new_server-Started}
use liquid.Program.{Opt, options}
use liquid.Program.Main.{
  empty_tracker, family_of, load_file, Running, Ended, usage, exited, running, started_message,
  init_handler, start_handler, start_server, start, run_with, main,
}

empty_tracker-Grounded : Grounded empty_tracker
unfolding get_user find
empty_tracker-Grounded k a h = cc

pub empty_tracker-IsValid : (vars : Vars) → IsValid vars empty_tracker
empty_tracker-IsValid vars = record {
  torrents_once = tt;
  sound = tt;
  grounded = empty_tracker-Grounded;
}

module _ {ℓ} {S : Type ℓ} (k : Kernel) (os : Platform) (mysql : MySql S)
    (files : Bytes → Option (List Bytes)) (s : S) (begin : History) where
  init_handler-IsValid :
      (vars : Vars) (s' : S) (t : Tracker)
      → init_handler k os mysql files s vars ≡ ok (s', t)
      → IsValid vars t
  init_handler-IsValid vars s' t e = elim (Bool-cases (is_public vars)) [
    | inl h ↦
        let same : (s, empty_tracker) ≡ (s', t) = ok-injective (rw h at e) in
        subst (IsValid vars) (ap (λ (r : S × Tracker). r.1) same) (empty_tracker-IsValid vars)
    | inr h ↦
        init-IsValid mysql vars os s s' empty_tracker t (empty_tracker-IsValid vars) (rw h at e)
  ]

  -- How the `try` of `main` comes to the event loop.
  abbrev pub Begins : Bytes → ℕ → History × Outcome (Running S) → Type 0
  Begins file level (calls, stop e) = Unit
  Begins file level (calls, ok r) =
      (load_file (files file) ≡ ok r.vars)
      × (listened : History) × Started k (family_of (get r.vars (codes "ipv6")))
          (uint16 (get_int r.vars (codes "port"))) begin (listened, ok r.server)
      × (calls
          ≡ printed
              (write level (k.time listened) info (codes "main.cpp") 64 (started_message r.vars))
              listened)
      × IsValid r.vars r.tracker

  module _ (file : Bytes) (level : ℕ) where
    with_tracker :
        (vars : Vars) (server : Server) (listened : History) (o : Outcome (S × Tracker))
        → load_file (files file) ≡ ok vars
        → Started k
            (family_of (get vars (codes "ipv6")))
            (uint16 (get_int vars (codes "port")))
            begin
            (listened, ok server)
        → init_handler k os mysql files s vars ≡ o
        → Begins file level (
            next
              (listened, o)
              λ (s', tracker). do
                _ ← log k level info (codes "main.cpp") 64 (λ _. started_message vars)
                pure (record { vars = vars; server = server; tracker = tracker; mysql = s' }))
    with_tracker vars server listened (stop e) l h i = tt
    with_tracker vars server listened (ok (s', t)) l h i =
        (l, listened, h, refl, init_handler-IsValid vars s' t i)

    with_server :
        (vars : Vars) (r : History × Outcome Server)
        → load_file (files file) ≡ ok vars
        → Started k
            (family_of (get vars (codes "ipv6")))
            (uint16 (get_int vars (codes "port")))
            begin
            r
        → Begins file level (next r (start_handler k os mysql files s level vars))
    with_server vars (calls, stop e) l h = tt
    with_server vars (calls, ok server) l h =
        with_tracker vars server calls (init_handler k os mysql files s vars) l h refl

    with_vars :
        (o : Outcome Vars)
        → load_file (files file) ≡ o
        → Begins file level (next (begin, o) (start_server k os mysql files s level))
    with_vars (stop e) l = tt
    with_vars (ok vars) l =
        let family = family_of (get vars (codes "ipv6")) in
        let port = uint16 (get_int vars (codes "port")) in
        with_server vars (new_server k vars family port begin) l
          (new_server-Started k vars port begin family)

    start-Begins : Begins file level (start k os mysql files s file level begin)
    unfolding start
    start-Begins = with_vars (load_file (files file)) refl

  -- A stage ends in this exception, with these calls.
  abbrev pub Stops : History → Stop → History × Outcome (Running S) → Type 0
  Stops failed f (calls, stop e) = (calls ≡ failed) × (e ≡ f)
  Stops failed f (calls, ok r) = ⊥

  -- The options name this file and this log level, and the `try` with them ends in this exception.
  abbrev pub Throws : List Opt → Bytes → ℕ → History → Stop → Type 0
  Throws opts file level failed e =
      (options opts ≡ some (file, level))
      × Stops failed e (start k os mysql files s file level begin)

  -- How `main` ends, or that it comes to the event loop.
  abbrev pub Serves : List Opt → History × Outcome (Ended S) → Type 0
  Serves opts (calls, stop e) =
      (e ≡ undefined) × (file : Bytes) × (level : ℕ) × Throws opts file level calls undefined
  Serves opts (calls, ok usage) = (options opts ≡ none) × (calls ≡ begin)
  Serves opts (calls, ok exited) =
      (file : Bytes) × (level : ℕ) × (failed : History) × (e : Stop) × (e ≢ undefined)
      × Throws opts file level failed e
      × (calls
          ≡ printed (write level (k.time failed) error (codes "main.cpp") 69 (k.what failed e))
              failed)
  Serves opts (calls, ok (running r)) =
      (file : Bytes) × (level : ℕ) × (options opts ≡ some (file, level))
      × Begins file level (calls, ok r)

  tried :
      (opts : List Opt) (file : Bytes) (level : ℕ) (r : History × Outcome (Running S))
      → options opts ≡ some (file, level)
      → start k os mysql files s file level begin ≡ r
      → Begins file level r
      → Serves opts (
          recover
            (λ e. do
              _ ← log k level error (codes "main.cpp") 69 (λ calls. k.what calls e)
              pure exited)
            (next r λ r. pure (running r)))
  tried opts file level (calls, ok r) o t b = (file, level, o, b)
  tried opts file level (calls, stop out_of_range) o t b =
      (file, level, calls, out_of_range, (λ h. cc), (o, rw t (refl, refl)), refl)
  tried opts file level (calls, stop invalid_argument) o t b =
      (file, level, calls, invalid_argument, (λ h. cc), (o, rw t (refl, refl)), refl)
  tried opts file level (calls, stop length_error) o t b =
      (file, level, calls, length_error, (λ h. cc), (o, rw t (refl, refl)), refl)
  tried opts file level (calls, stop system_error) o t b =
      (file, level, calls, system_error, (λ h. cc), (o, rw t (refl, refl)), refl)
  tried opts file level (calls, stop undefined) o t b = (refl, file, level, (o, rw t (refl, refl)))

  with_options :
      (opts : List Opt) (o : Option (Bytes × ℕ))
      → options opts ≡ o
      → Serves opts (run_with k os mysql files s o begin)
  with_options opts none e = (e, refl)
  with_options opts (some (file, level)) e =
      tried opts file level (start k os mysql files s file level begin) e refl
        (start-Begins file level)

  -- `main` throws nothing but undefined behaviour, and that only where its `try` with the file and
  -- the log level of the options has it. It ends with the message on usage only where the options are
  -- refused, and before any call. It ends with the status 0 only where the `try` with the file and the
  -- log level of the options throws another exception, and then what it has done is what the `try` had
  -- done, followed by the report of this exception as an error, if the log level asks for it. Otherwise
  -- it comes to the event loop. Then the file of settings has been read to its end, the socket has been
  -- opened, set up, bound to the port of the settings modulo 2^16 in the family that they name, and
  -- listens, each call with success, the message on the start is printed if the level asks for it, and
  -- the tracker is valid.
  pub main-Serves : (opts : List Opt) → Serves opts (main k os mysql files s opts begin)
  unfolding main
  main-Serves opts = with_options opts (options opts) refl

  pub main-IsValid :
      (opts : List Opt) (calls : History) (r : Running S)
      → main k os mysql files s opts begin ≡ (calls, ok (running r))
      → IsValid r.vars r.tracker
  main-IsValid opts calls r e =
      let (_, _, _, begins) = subst (Serves opts) e (main-Serves opts) in begins.4

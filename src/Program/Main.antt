-- ===== src/Program/Main.antt =====
-- `main` of src/main.cpp up to the event loop, and its handler of signals. The files that can be
-- opened are a parameter, by the lines that std::getline gives.
pub mod Serving
use liquid.Base.{
  ℕ, ◌+◌, ◌-◌, ◌%◌, ◌^◌, Bool, true, false, List, [], ◌∷◌, ◌++◌, Option, none, some, Bytes,
  if◌then◌else◌, ◌==◌, bytes_eq,
}
use liquid.Base.Outcome.{Outcome, ok, stop, undefined}
use liquid.Base.Text.{codes}
use liquid.Base.Int.{uint16, ℤ, pos_part, neg_part, to_string_ℤ}
use liquid.Platform.{Platform}
use liquid.Kernel.{Kernel, Io, lift, log, pure, try_catch, ◌>>=◌}
use liquid.Logger.{info, error}
use liquid.Config.{Vars, default_vars, get, get_int, is_public}
use liquid.Config.Load.{load}
use liquid.Database.{Database, normal}
use liquid.Database.Flush.{Table}
use liquid.Handler.{Tracker}
use liquid.Handler.Load.{Server as MySql}
use liquid.Handler.Lifecycle.{init, stop as stop_handler}
use liquid.Server.{Family, ipv4, ipv6, Server, new_server}
use liquid.Program.{Opt, options}

-- The static members before `main`.
abbrev pub no_rows : Database
no_rows = record {
  user_requests = [];
  torrent_requests = [];
  peer_requests = [];
  token_requests = [];
  snatch_requests = [];
  user_records = [];
  torrent_records = [];
  peer_records = [];
  token_records = [];
  snatch_records = [];
}

abbrev pub empty_tracker : Tracker
empty_tracker = record {
  tor_map = [];
  heap = [];
  next_address = 0;
  usr_map = [];
  banned_ips = [];
  client_whitelist = [];
  leech_status = normal;
  db = no_rows;
  stats = record {
    changed = false;
    peers = 0;
    torrents = 0;
    speed = 0;
    speed_show = 0;
    speed_lvl = 0;
    transferred = 0;
    transferred_show = 0;
    transferred_lvl = 0;
  };
}

abbrev pub family_of : Bytes → Family
family_of setting = if setting == codes "no" then ipv4 else ipv6 (setting == codes "only")

-- A file that cannot be opened leaves the table as it is.
unfoldable pub load_file : Option (List Bytes) → Outcome Vars
load_file none = ok default_vars
load_file (some lines) = load default_vars lines

-- What the event loop begins with.
pub record Running {ℓ} (S : Type ℓ) : Type ℓ where
  pub vars : Vars
  pub server : Server
  pub tracker : Tracker
  pub mysql : S

-- The message on usage with the status 1, the status 0, or the event loop.
pub data Ended {ℓ} (S : Type ℓ) : Type ℓ where
  usage exited : Ended S
  running : Running S → Ended S

abbrev pub started_message : Vars → Bytes
started_message vars =
    codes "Starting "
    ++ (get vars (codes "type")
        ++ (codes " server on port " ++ to_string_ℤ (get_int vars (codes "port"))))

module _ {ℓ} {S : Type ℓ} (k : Kernel) (os : Platform) (mysql : MySql S)
    (files : Bytes → Option (List Bytes)) (s : S) where
  abbrev pub init_handler : Vars → Outcome (S × Tracker)
  init_handler vars =
      if is_public vars then ok (s, empty_tracker) else init mysql vars os s empty_tracker

  -- The `try` of `main` from `Parser::init`, whose table the model computes where it is read, up to
  -- `server->run()`.
  abbrev pub start_handler : ℕ → Vars → Server → Io (Running S)
  start_handler log_level vars server = do
    (s', tracker) ← lift (init_handler vars)
    _ ← log k log_level info (codes "main.cpp") 64 (λ _. started_message vars)
    pure (record { vars = vars; server = server; tracker = tracker; mysql = s' })

  abbrev pub start_server : ℕ → Vars → Io (Running S)
  start_server log_level vars = do
    server ←
        new_server k vars (family_of (get vars (codes "ipv6")))
          (uint16 (get_int vars (codes "port")))
    start_handler log_level vars server

  unfoldable pub start : Bytes → ℕ → Io (Running S)
  unfolding load_file
  start config_file log_level = do
    vars ← lift (load_file (files config_file))
    start_server log_level vars

  abbrev pub run_with : Option (Bytes × ℕ) → Io (Ended S)
  run_with none = pure usage
  run_with (some (config_file, log_level)) =
      try_catch (do r ← start config_file log_level; pure (running r))
        (λ e. do
          _ ← log k log_level error (codes "main.cpp") 69 (λ calls. k.what calls e)
          pure exited)

  unfoldable pub main : List Opt → Io (Ended S)
  unfolding start
  main opts = run_with (options opts)

-- `handler`, on the database that `init` has made, if it has: a call through the null pointer `db` is
-- undefined.
unfoldable pub handler {ℓ} :
    {S : Type ℓ}
    → MySql S
    → Vars
    → S
    → Option Database
    → Outcome (S × Option (Database × List Table))
handler mysql vars s none = if is_public vars then ok (s, none) else stop undefined
handler mysql vars s (some db) =
    let (s', db', threads) = stop_handler mysql vars s db in ok (s', some (db', threads))

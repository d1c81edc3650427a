-- ===== src/Tests/Servers.antt =====
-- The theorems on the server and the whole program at a system whose calls succeed, and at one where
-- a client is gone before its address is asked for.
use Prim.Native.Nat.{bit_or}
use liquid.Base.{
  ℕ, ◌≡◌, refl, true, false, List, [], ◌∷◌, Option, none, some, Bytes, bytes_beq, bytes_eq, nat_eq,
}
use liquid.Base.Dict.{find, modify}
use liquid.Base.Outcome.{Outcome, ok, stop}
use liquid.Base.Text.{codes}
use liquid.Base.Int.{pos, stoi, stoul}
use liquid.Config.{Vars, default_vars, get, get_int}
use liquid.Config.Load.{load, load_line, skip_white, split_equal, trim, check_value}
use liquid.Kernel.{
  Kernel, Call, History, socket, set_reuse_address, set_v6_only, bind, listen, accept, get_flags,
  set_flags, get_peer_name, inet_ntop, close, print,
}
use liquid.Handler.Load.{
  Server as MySql, load_users, load_torrents, load_banned_ips, load_client_whitelist,
  load_leech_status,
}
use liquid.Handler.Lifecycle.{init}
use liquid.Server.{ipv4, ipv6, Server, new_server, accept_client}
use liquid.Server.Started.{listening, Started, new_server-Started}
use liquid.Server.Taken.{Taken, accept_client-Taken}
use liquid.Program.{Opt, log_level, config_file, options}
use liquid.Program.Main.{Running, running, main, empty_tracker, load_file, start}
use liquid.Program.Main.Serving.{Serves, main-Serves}
use liquid.Connection.{Connection, new_connection, destroy}
use liquid.Connection.Open.{open_connection, get_peer_info}
use liquid.Handler.{Tracker}
use liquid.Handler.Clean.{clear_torrent_peers}
use liquid.Service.{Service, Reaches, here, after, accepts, times_out, first}
use liquid.Service.Valid.{Sound, main-Sound}
use liquid.Examples.{os}

abbrev answers : Call → ℕ
answers (socket _) = 3
answers (accept _) = 7
answers (set_reuse_address _) = 0
answers (set_v6_only _) = 0
answers (bind _ _ _) = 0
answers (listen _ _) = 0
answers (get_flags _) = 2
answers (set_flags _ _) = 0
answers (get_peer_name _) = 0
answers (inet_ntop _ _) = 1
answers (close _) = 0
answers (print _) = 0

abbrev kernel : Kernel
kernel = record {
  answer = λ _ c. some (answers c);
  peer_address = λ _ _. 10 ∷ 0 ∷ 0 ∷ 1 ∷ [];
  address_text = λ _ _. codes "10.0.0.1";
  o_nonblock = 2048;
  time = λ _. some (codes "12:00:00");
  what = λ _ _. codes "Transport endpoint is not connected";
}

abbrev unless_gone : Call → Option ℕ
unless_gone (get_peer_name _) = none
unless_gone c = some (answers c)

abbrev hasty : Kernel
hasty = record kernel { answer = λ _ c. unless_gone c }

abbrev mysql : MySql (Unit {0})
mysql = record { connects = λ _. true; query = λ s text. (s, false); select = λ _ _. some [] }

abbrev files : Bytes → Option (List Bytes)
files _ = some (codes "port = 6969" ∷ [])

new_server-Started_example :
    Started kernel (ipv6 true) 6969 [] (new_server kernel default_vars (ipv6 true) 6969 [])
new_server-Started_example = new_server-Started kernel default_vars 6969 [] (ipv6 true)

-- What the program is when it has started.
abbrev read_settings : Outcome Vars → Vars
read_settings (ok vars) = vars
read_settings (stop _) = []

abbrev settings : Vars
settings = read_settings (load_file (files []))

abbrev listening_server : Server
listening_server = record {
  family = ipv4;
  sock = 3;
  clear_interval = get_int settings (codes "clear_peers_interval");
  flush_interval = get_int settings (codes "flush_records_interval");
  show_interval = pos 10;
}

abbrev program : Running (Unit {0})
program = record { vars = settings; server = listening_server; tracker = empty_tracker; mysql = tt }

abbrev calls : History
calls = listening ipv4 6969 3 []

program_runs :
    main kernel os mysql files tt (log_level (codes "2") ∷ []) [] ≡ (calls, ok (running program))
unfolding main start new_server liquid.Server.set_socket_options options liquid.Program.read_options
    stoul load_file load load_line skip_white split_equal trim check_value stoi default_vars find
    modify bytes_beq init get get_int load_users load_torrents load_banned_ips load_client_whitelist
    load_leech_status liquid.Stats.set_torrents liquid.Logger.write
program_runs = refl

abbrev client : Connection
client = new_connection settings (codes "10.0.0.1") false

abbrev left : Service
left = record {
  clients = record { connection = destroy client; wire = [] } ∷ [];
  tracker = empty_tracker;
}

abbrev accepted : History
accepted =
    inet_ntop false (10 ∷ 0 ∷ 0 ∷ 1 ∷ [])
    ∷ get_peer_name 7
    ∷ set_flags 7 (bit_or 2 2048)
    ∷ get_flags 7
    ∷ accept 3
    ∷ []

left-Reaches :
    Reaches kernel os 2 settings listening_server
      (record { clients = []; tracker = empty_tracker })
      left
unfolding accept_client open_connection liquid.Connection.Open.set_socket_options get_peer_info
    new_connection
left-Reaches =
    after (after here (accepts [] accepted client refl))
      (times_out (record { connection = client; wire = [] }) _ refl (first []))

main-Sound_example :
    Sound settings left × (t : Tracker) × (clear_torrent_peers settings 1000 left.tracker ≡ ok t)
main-Sound_example =
    main-Sound kernel os mysql files tt (log_level (codes "2") ∷ []) 2 1000 [] calls program left
      program_runs left-Reaches

accept_client-Taken_example :
    Taken hasty 0 settings listening_server calls
      (some 7)
      (accept_client hasty 0 settings listening_server calls)
accept_client-Taken_example = accept_client-Taken hasty 0 settings listening_server calls

main-Serves_example :
    Serves kernel os mysql files tt []
      (log_level (codes "2") ∷ [])
      (main kernel os mysql files tt (log_level (codes "2") ∷ []) [])
main-Serves_example = main-Serves kernel os mysql files tt [] (log_level (codes "2") ∷ [])

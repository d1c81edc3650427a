-- ===== src/Config.antt =====
-- src/misc/config.cpp: the table of settings, its reads, and the reader of the configuration file.
-- Log messages, and the line number that only they show, are left out.
pub mod Load
use liquid.Base.{
  ℕ, Bool, true, false, List, [], ◌∷◌, Option, none, some, Bytes, ◌==◌, ◌!=◌, bytes_eq,
}
use Prim.Native.String.{String}
use liquid.Base.Dict.{Dict, find}
use liquid.Base.Outcome.{Outcome, ok, stop, out_of_range, invalid_argument, undefined}
use liquid.Base.Text.{codes}
use liquid.Base.Int.{ℤ, pos, negsuc, stoi}

-- A value, and whether it must be an integer.
abbrev pub Setting : Type 0
Setting = Bytes × Bool

abbrev pub Vars : Type 0
Vars = Dict Bytes Setting

abbrev setting : String → String → Bool → Bytes × Setting
setting name value integer = (codes name, (codes value, integer))

-- `Config::vars` before a file is read.
unfoldable pub default_vars : Vars
default_vars =
    setting "type" "private" false
    ∷ setting "ipv6" "no" false
    ∷ setting "port" "2710" true
    ∷ setting "timeout" "3600" true
    ∷ setting "clear_peers_interval" "600" true
    ∷ setting "flush_records_interval" "5" true
    ∷ setting "read_buffer_size" "512" true
    ∷ setting "max_request_size" "4096" true
    ∷ setting "max_numwant" "50" true
    ∷ setting "default_numwant" "20" true
    ∷ setting "default_announce_interval" "900" true
    ∷ setting "min_announce_interval" "300" true
    ∷ setting "updatekey" "00000000000000000000000000000000" false
    ∷ setting "DB_Host" "127.0.0.1" false
    ∷ setting "DB_User" "db_user" false
    ∷ setting "DB_Password" "db_password" false
    ∷ setting "DB_DBName" "db_name" false
    ∷ setting "DB_Port" "3306" true
    ∷ setting "DB_Users" "users_main" false
    ∷ setting "DB_Users_ID" "ID" false
    ∷ setting "DB_Users_Passkey" "torrent_pass" false
    ∷ setting "DB_Users_Authorized" "can_leech" false
    ∷ setting "DB_Users_Downloaded" "Downloaded" false
    ∷ setting "DB_Users_Uploaded" "Uploaded" false
    ∷ setting "DB_Torrents" "torrents" false
    ∷ setting "DB_Torrents_ID" "ID" false
    ∷ setting "DB_Torrents_InfoHash" "info_hash" false
    ∷ setting "DB_Torrents_Freeleech" "FreeTorrent" false
    ∷ setting "DB_Torrents_Seeders" "Seeders" false
    ∷ setting "DB_Torrents_Leechers" "Leechers" false
    ∷ setting "DB_Torrents_Snatches" "Snatched" false
    ∷ setting "DB_Torrents_Balance" "balance" false
    ∷ setting "DB_Torrents_LastAction" "last_action" false
    ∷ setting "DB_Peers" "xbt_files_users" false
    ∷ setting "DB_Peers_UserID" "uid" false
    ∷ setting "DB_Peers_Active" "active" false
    ∷ setting "DB_Peers_AnnouncesCount" "announced" false
    ∷ setting "DB_Peers_Completed" "completed" false
    ∷ setting "DB_Peers_Downloaded" "downloaded" false
    ∷ setting "DB_Peers_Uploaded" "uploaded" false
    ∷ setting "DB_Peers_Left" "remaining" false
    ∷ setting "DB_Peers_UpSpeed" "upspeed" false
    ∷ setting "DB_Peers_DownSpeed" "downspeed" false
    ∷ setting "DB_Peers_Corrupt" "corrupt" false
    ∷ setting "DB_Peers_Timespent" "timespent" false
    ∷ setting "DB_Peers_UserAgent" "useragent" false
    ∷ setting "DB_Peers_PeerID" "peer_id" false
    ∷ setting "DB_Peers_TorrentID" "fid" false
    ∷ setting "DB_Peers_IP" "ip" false
    ∷ setting "DB_Peers_LastAction" "mtime" false
    ∷ setting "DB_Snatches" "xbt_snatched" false
    ∷ setting "DB_Snatches_UserID" "uid" false
    ∷ setting "DB_Snatches_TimeStamp" "tstamp" false
    ∷ setting "DB_Snatches_TorrentID" "fid" false
    ∷ setting "DB_Snatches_IP" "IP" false
    ∷ setting "DB_Tokens" "users_freeleeches" false
    ∷ setting "DB_Tokens_UserID" "UserID" false
    ∷ setting "DB_Tokens_TorrentID" "TorrentID" false
    ∷ setting "DB_Tokens_Downloaded" "Downloaded" false
    ∷ setting "DB_Tokens_ExpirationTime" "Time" false
    ∷ setting "DB_Tokens_Expired" "Expired" false
    ∷ setting "DB_IPRestrictions" "tk_ip_restrictions" false
    ∷ setting "DB_IPRestrictions_UserID" "UserID" false
    ∷ setting "DB_IPRestrictions_IP" "IP" false
    ∷ setting "DB_IPBans" "tk_ip_bans" false
    ∷ setting "DB_IPBans_FromIP" "FromIP" false
    ∷ setting "DB_IPBans_ToIP" "ToIP" false
    ∷ setting "DB_Whitelist" "xbt_client_whitelist" false
    ∷ setting "DB_Whitelist_PeerID" "peer_id" false
    ∷ setting "DB_SiteOptions" "site_options" false
    ∷ setting "DB_SiteOptions_LeechStatus" "leech_status" false
    ∷ []

abbrev value_of : Option Setting → Bytes
value_of none = []
value_of (some (value, _)) = value

abbrev int_or : ℤ → Outcome ℤ → ℤ
int_or d (ok n) = n
int_or d (stop _) = d

abbrev int_of : Option Setting → ℤ
int_of none = negsuc 0
int_of (some (value, _)) = int_or (negsuc 0) (stoi value)

-- `Config::get`: the empty text for a name that is not there.
unfoldable pub get : Vars → Bytes → Bytes
get vars name = value_of (find name vars)

-- `Config::getInt`: -1 for a name that is not there, or a value that is no integer.
unfoldable pub get_int : Vars → Bytes → ℤ
get_int vars name = int_of (find name vars)

-- The tests of the tracker's type that the request handler makes.
abbrev pub is_private : Vars → Bool
is_private vars = get vars (codes "type") == codes "private"

abbrev pub is_public : Vars → Bool
is_public vars = get vars (codes "type") == codes "public"

-- ===== src/Tests/Loading.antt =====
-- The theorems on the start and the stop of the tracker, at a small database.
use liquid.Base.{
  ◌≡◌, refl, true, false, not, ◌&&◌, ◌||◌, List, [], ◌∷◌, ◌++◌, none, some, Bytes, arith, bytes_eq,
  nat_eq, length, if◌then◌else◌,
}
use liquid.Base.Dict.{find, has}
use liquid.Base.Outcome.{Outcome, ok, stop}
use liquid.Base.Text.{codes}
use liquid.Base.Int.{stoul}
use liquid.Config.{default_vars}
use liquid.Utility.{long2ip}
use liquid.Handler.{Tracker}
use liquid.Handler.Load.{Row, Server, for_rows, load_token, load_torrents, load_banned_ips}
use liquid.Handler.Load.Torrents.{any_hash, has_zero, load_torrents-any_hash}
use liquid.Handler.Load.Bans.{any_within, load_banned_ips-within}
use liquid.Handler.Load.Accounts.{after_rows, for_rows-load_token}
use liquid.Handler.Update.Grounded.{Grounded}
use liquid.Connection.Address.{occurs, get_peer_info, get_peer_info-cases}
use liquid.Program.{
  Opt, config_file, log_level, options, all_accepted, last_file, last_level, options-last,
}
use liquid.Examples.{os, tracker, passkey}
use liquid.Tests.Parts.{os-IsInjective}
use liquid.Tests.Lifetime.{tracker-Grounded}

-- A server that logs what changes it, and gives every selection the same rows.
abbrev serving : List Row → Server (List Bytes)
serving rows = record {
  connects = λ _. true;
  query = λ log text. (log ++ text ∷ [], false);
  select = λ _ _. some rows;
}

abbrev loaded : Outcome Tracker → Tracker
loaded (ok t) = t
loaded (stop _) = tracker

-- One torrent whose hash has a zero byte, and is cut there.
abbrev torrent_rows : List Row
torrent_rows =
    (some (codes "7")
      ∷ some (97 ∷ 98 ∷ 0 ∷ 99 ∷ [])
      ∷ some (codes "1")
      ∷ some (codes "3")
      ∷ some (codes "12")
      ∷ [])
    ∷ []

abbrev whole_hash : Bytes
whole_hash = 97 ∷ 98 ∷ 0 ∷ 99 ∷ []

abbrev with_torrents : Tracker
with_torrents = loaded (load_torrents (serving torrent_rows) default_vars [] tracker)

load_torrents-any_hash_example :
    (has (find whole_hash with_torrents.tor_map)
      ≡ (any_hash whole_hash torrent_rows || has (find whole_hash tracker.tor_map)))
    × ((has_zero whole_hash && any_hash whole_hash torrent_rows) ≡ false)
    × (with_torrents.stats.torrents ≡ length torrent_rows)
unfolding load_torrents stoul
load_torrents-any_hash_example =
    load_torrents-any_hash (serving torrent_rows) default_vars [] torrent_rows tracker with_torrents
      whole_hash refl refl

abbrev ban_rows : List Row
ban_rows = (some (codes "1") ∷ some (codes "3") ∷ []) ∷ []

abbrev with_bans : Tracker
with_bans = loaded (load_banned_ips (serving ban_rows) default_vars [] os tracker)

load_banned_ips-within_example :
    has (find (long2ip os 2) with_bans.banned_ips)
    ≡ (any_within 2 ban_rows || has (find (long2ip os 2) tracker.banned_ips))
unfolding load_banned_ips stoul tracker
load_banned_ips-within_example =
    load_banned_ips-within os os-IsInjective 2 (omega arith) (serving ban_rows) default_vars []
      ban_rows tracker with_bans refl refl

-- A token, one of an unknown passkey, and one whose time is no number.
abbrev token_rows : List Row
token_rows =
    (some passkey ∷ some (codes "5") ∷ some (codes "1000") ∷ [])
    ∷ (some (codes "nobody") ∷ some (codes "5") ∷ some (codes "1000") ∷ [])
    ∷ (some passkey ∷ some (codes "6") ∷ some (codes "soon") ∷ [])
    ∷ []

for_rows-load_token_example :
    (for_rows load_token token_rows tracker ≡ ok (after_rows token_rows tracker))
    × Grounded (after_rows token_rows tracker)
for_rows-load_token_example =
    for_rows-load_token token_rows tracker (tt, (tt, (tt, tt))) tracker-Grounded

get_peer_info-cases_example :
    (get_peer_info (codes "10.0.0.1") ≡ (codes "10.0.0.1", not (occurs b'.' (codes "10.0.0.1"))))
    × (get_peer_info (codes "::ffff" ++ b':' ∷ codes "10.0.0.1") ≡ (
        if occurs b'.' (codes "::ffff") || occurs b'.' (codes "10.0.0.1")
        then (codes "10.0.0.1", false)
        else (codes "::ffff" ++ b':' ∷ codes "10.0.0.1", true)))
get_peer_info-cases_example = get_peer_info-cases (codes "::ffff") (codes "10.0.0.1") refl

abbrev some_options : List Opt
some_options = config_file (codes "a") ∷ log_level (codes "2") ∷ config_file (codes "b") ∷ []

options-last_example : options some_options ≡ (
    if all_accepted some_options
    then some (last_file (codes "liquid.conf") some_options, last_level 0 some_options)
    else none)
options-last_example = options-last some_options

-- ===== src/Stats.antt =====
-- src/misc/stats.cpp: the counters of the tracker, words of 64 bits that wrap. A shown value is the
-- double of a counter divided by 1024 `level` times, which is exact; it is kept as that double and
-- the level. `show` writes a log line, and clears `changed`.
pub mod Level
use liquid.Base.{ℕ, zero, suc, ◌+◌, ◌*◌, ◌/◌, ◌^◌, Bool, true, false, ltb, if◌then◌else◌}
use liquid.Base.Words.{add64, sub64}
use liquid.Platform.{Platform}

pub record Stats : Type 0 where
  pub changed : Bool
  pub peers : ℕ
  pub torrents : ℕ
  pub speed : ℕ
  pub speed_show : ℕ
  pub speed_lvl : ℕ
  pub transferred : ℕ
  pub transferred_show : ℕ
  pub transferred_lvl : ℕ

unfoldable pub inc_peers : Stats → Stats
inc_peers s = record s { peers = add64 s.peers 1; changed = true }

unfoldable pub dec_peers : Stats → Stats
dec_peers s = record s { peers = sub64 s.peers 1; changed = true }

unfoldable pub inc_torrents : Stats → Stats
inc_torrents s = record s { torrents = add64 s.torrents 1; changed = true }

unfoldable pub dec_torrents : Stats → Stats
dec_torrents s = record s { torrents = sub64 s.torrents 1; changed = true }

unfoldable pub set_torrents : ℕ → Stats → Stats
set_torrents n s = record s { torrents = n }

-- The loop `while (show > 1024 && level < 9)`, on the rounds that are left.
unfoldable pub raise : ℕ → ℕ → ℕ → ℕ
raise zero level shown = level
raise (suc left) level shown =
    let higher = raise left (level + 1) shown in
    if ltb (1024 * 1024 ^ level) shown then higher else level

unfoldable pub inc_speed : Platform → ℕ → Stats → Stats
unfolding raise
inc_speed os n s =
    let speed = add64 s.speed (n / 2) in
    record s {
      speed = speed;
      speed_show = os.to_double speed;
      speed_lvl = raise 9 0 (os.to_double speed);
      changed = true;
    }

unfoldable pub dec_speed : ℕ → Stats → Stats
dec_speed n s = record s { speed = sub64 s.speed (n / 2) }

unfoldable pub inc_transferred : Platform → ℕ → Stats → Stats
unfolding raise
inc_transferred os n s =
    let transferred = add64 s.transferred (n / 2) in
    record s {
      transferred = transferred;
      transferred_show = os.to_double transferred;
      transferred_lvl = raise 9 0 (os.to_double transferred);
      changed = true;
    }

unfoldable pub show : Stats → Stats
show s = if s.changed then record s { changed = false } else s

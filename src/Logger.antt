-- ===== src/Logger.antt =====
-- src/misc/logger.cpp. strftime is a parameter: the text of the time, or none where it fails.
use liquid.Base.{ℕ, [], ◌++◌, Option, none, some, Bytes, leb, ltb, if◌then◌else◌}
use liquid.Base.Text.{codes, to_string}

pub data Level : Type 0 where
  info warning error : Level

abbrev pub rank : Level → ℕ
rank info = 0
rank warning = 1
rank error = 2

abbrev level_name : Level → Bytes
level_name info = codes "INFO"
level_name warning = codes "WARNING"
level_name error = codes "ERROR"

abbrev stamp : Option Bytes → Bytes
stamp none = []
stamp (some timestr) = codes "[" ++ (timestr ++ codes "] ")

abbrev origin : Level → Bytes → ℕ → Bytes
origin level file line =
    if ltb 0 (rank level)
    then file
      ++ (codes ":" ++ (to_string line ++ (codes " - " ++ (level_name level ++ codes " -- "))))
    else []

-- `Logger::write` at a `minLevel`: the text that goes to the standard output, if any does.
unfoldable pub write : ℕ → Option Bytes → Level → Bytes → ℕ → Bytes → Option Bytes
unfolding to_string
write min_level time level file line message =
    if leb min_level (rank level)
    then some (stamp time ++ (origin level file line ++ (message ++ codes "\n")))
    else none

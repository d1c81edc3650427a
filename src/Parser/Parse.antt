-- ===== src/Parser/Parse.antt =====
-- `Parser::parse`: the path, the query with its parameters, the headers. The positions `i` and
-- `pos` are the source's; a loop takes as many rounds as there are bytes at most.
use liquid.Base.{
  ℕ, zero, suc, ◌+◌, ◌-◌, Bool, true, false, not, ◌&&◌, ◌||◌, List, [], ◌∷◌, map, Bytes, length,
  ltb, leb, ◌==◌, ◌!=◌, nat_eq, bytes_eq, if◌then◌else◌,
}
use liquid.Base.Dict.{emplace}
use liquid.Base.Text.{codes, substr, char_at}
use liquid.Utility.{hex_to_bin}
use liquid.Peers.{Request}

-- The variables of the two loops.
pub record Scan : Type 0 where
  pub i : ℕ
  pub pos : ℕ
  pub key : Bytes
  pub found_data : Bool
  pub output : Request
  pub info_hashes : List Bytes

-- A parameter that is complete: `key`, and the value up to `i`.
unfoldable pub add_param : Bytes → Scan → Scan
add_param input s =
    let value = substr input s.pos (s.i - s.pos) in
    if s.key == codes "info_hash"
    then record s { info_hashes = hex_to_bin value ∷ s.info_hashes; i = s.i + 1; pos = s.i + 1 }
    else record s { output = emplace s.key value s.output; i = s.i + 1; pos = s.i + 1 }

-- One round of the loop over the query, without its `++i`; the flag is its `break`.
unfoldable pub query_step : Bytes → Scan → Scan × Bool
unfolding add_param
query_step input s =
    let c = char_at input s.i in
    let ended = if s.found_data then add_param input s else s in
    if c == b'='
    then (record s { key = substr input s.pos (s.i - s.pos); i = s.i + 1; pos = s.i + 1 }, false)
    else if (c == b'&') || (c == b' ')
    then (if char_at input (ended.pos - 1) == b' '
        then (record ended { found_data = false }, true)
        else (record ended { found_data = false; key = [] }, false))
    else (record s { found_data = true }, false)

abbrev advance : Scan → Scan
advance s = record s { i = s.i + 1 }

unfoldable pub query_loop : ℕ → Bytes → Scan → Scan
unfolding query_step
query_loop zero input s = s
query_loop (suc fuel) input s =
    let (s', broken) = query_step input s in
    let rest = query_loop fuel input (advance s') in
    if ltb s.i (length input) then (if broken then s' else rest) else s

abbrev to_lower : ℕ → ℕ
to_lower c = if leb b'A' c && leb c b'Z' then c + 32 else c

-- One round of the loop over the headers, without its `++i`.
unfoldable pub header_step : Bytes → Scan → Scan
header_step input s =
    let c = char_at input s.i in
    let text = substr input s.pos (s.i - s.pos) in
    if c == b':'
    then record s { key = text; i = s.i + 2; pos = s.i + 2 }
    else if (c == b'\n') || (c == b'\r')
    then (if s.found_data
        then record s {
          output =
              if map to_lower s.key == codes "user-agent"
              then emplace (map to_lower s.key) text s.output
              else s.output;
          i = s.i + 2;
          pos = s.i + 2;
          found_data = false;
          key = [];
        }
        else record s { found_data = false; key = [] })
    else record s { found_data = true }

unfoldable pub header_loop : ℕ → Bytes → Scan → Scan
unfolding header_step
header_loop zero input s = s
header_loop (suc fuel) input s =
    let rest = header_loop fuel input (advance (header_step input s)) in
    if ltb s.i (length input) then rest else s

-- Whether a byte occurs: `find(c) != npos`.
unfoldable pub contains : ℕ → Bytes → Bool
contains c [] = false
contains c (x ∷ xs) = (x == c) || contains c xs

-- The loop that measures the action, eight bytes at most.
unfoldable pub action_length : ℕ → Bytes → ℕ → ℕ → ℕ
action_length zero input pos i = i
action_length (suc left) input pos i =
    let c = char_at input (pos + i) in
    let more = action_length left input pos (i + 1) in
    if (c == b'/') || (c == b'?') then i else more

-- The passkey: 32 bytes with no slash and no question mark.
unfoldable pub has_passkey : Bytes → Bool
unfolding contains
has_passkey input =
    (char_at input 5 != b'?')
    && not (contains b'/' (substr input 5 32))
    && not (contains b'?' (substr input 5 32))

-- What the parser returns for a request that is too short or malformed.
abbrev pub nothing : Request × List Bytes
nothing = ([], [])

-- The position and the parameters behind the passkey, the slash and the action.
unfoldable pub after_passkey : Bytes → ℕ × Request
unfolding has_passkey
after_passkey input =
    if has_passkey input then (37, emplace (codes "reqpasskey") (substr input 5 32) []) else (5, [])

unfoldable pub after_action : Bytes → ℕ × Request → ℕ × Request
unfolding action_length
after_action input (pos, output) =
    let pos' = if char_at input pos == b'/' then pos + 1 else pos in
    let n = action_length 8 input pos' 0 in
    if char_at input pos' != b'?'
    then (pos' + n, emplace (codes "action") (substr input pos' n) output)
    else (pos', output)

-- The headers begin ten bytes behind the query: `HTTP/1.1` and the end of the line.
unfoldable pub scan_rest : Bytes → ℕ → Request → Request × List Bytes
unfolding query_loop header_loop
scan_rest input pos output =
    let start : Scan = record {
      i = pos;
      pos = pos;
      key = [];
      found_data = false;
      output = output;
      info_hashes = [];
    } in
    let q : Scan = query_loop (length input) input start in
    let h : Scan =
      header_loop (length input) input (record q { i = q.pos + 10; pos = q.pos + 10 }) in
    (h.output, h.info_hashes)

unfoldable pub parse : Bytes → Request × List Bytes
unfolding after_passkey after_action scan_rest
parse input =
    let (pos, output) = after_action input (after_passkey input) in
    if ltb (length input) 60
    then nothing
    else if char_at input pos == b'?'
    then scan_rest input (pos + 1) output
    else nothing

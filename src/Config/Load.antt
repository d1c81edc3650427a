-- ===== src/Config/Load.antt =====
-- `Config::load` and `Config::checkValue`, on the lines of the file.
pub mod Typed
use liquid.Base.{
  ℕ, zero, suc, ◌+◌, ◌-◌, Bool, true, false, not, ◌&&◌, ◌||◌, List, [], ◌∷◌, Option, none, some,
  Bytes, length, get_or, ltb, ◌==◌, nat_eq, bytes_eq, if◌then◌else◌,
}
use liquid.Base.Dict.{Dict, find, modify, has}
use liquid.Base.Outcome.{Outcome, ok, stop, Stop, out_of_range, undefined, ◌>>=◌, or_stop}
use liquid.Base.Text.{codes, substr, char_at}
use liquid.Base.Int.{stoi, ℤ}
use mathlib.Core.List.{reverse}
use liquid.Config.{Vars}

-- The bytes of `whitespaces`.
abbrev is_white : ℕ → Bool
is_white c = c == 32 || c == 9 || c == 11 || c == 12 || c == 13

-- The rest of a line from its first byte that is not white; empty where there is none.
unfoldable pub skip_white : Bytes → Bytes
skip_white [] = []
skip_white (c ∷ cs) = let rest = skip_white cs in if is_white c then rest else c ∷ cs

-- A line split at its first equal sign.
unfoldable pub split_equal : Bytes → Option (Bytes × Bytes)
split_equal [] = none
split_equal (c ∷ cs) =
    let later : Option (Bytes × Bytes) = elim (split_equal cs) [
      | none ↦ none
      | some (name, value) ↦ some (c ∷ name, value)
    ] in
    if c == b'=' then some ([], cs) else later

-- The lambda `trim`: a text with nothing but white space makes the position `npos`, at which the
-- constructor of std::string throws.
unfoldable pub trim : Bytes → Outcome Bytes
unfolding skip_white
trim s = elim (skip_white s) [
  | [] ↦ stop out_of_range
  | c ∷ cs ↦ ok (reverse (skip_white (reverse (c ∷ cs))))
]

-- Both quotes off; a value that is one quote alone is emptied twice.
unquote : Bytes → Outcome (Option Bytes)
unquote [] = stop undefined
unquote (c ∷ []) = if c == b'"' then stop undefined else ok none
unquote (c ∷ d ∷ cs) = elim (reverse (d ∷ cs)) [
  | [] ↦ ok none
  | last ∷ inner ↦ if c == b'"' && last == b'"' then ok (some (reverse inner)) else ok none
]

integer_value : Bytes → Outcome ℤ → Outcome (Option Bytes)
integer_value value (ok n) = ok (some value)
integer_value value (stop _) = ok none

-- `checkValue`: the value to store, or `none` where it is refused.
unfoldable pub check_value : Bool → Bytes → Outcome (Option Bytes)
unfolding unquote integer_value
check_value true value = integer_value value (stoi value)
check_value false value = unquote value

abbrev store : Vars → Bytes → Option Bytes → Vars
store vars name none = vars
store vars name (some value) = modify name (λ s. (value, s.1)) vars

assign : Vars → Bytes → Bytes → Option (Bytes × Bool) → Outcome Vars
assign vars name rest none = ok vars
assign vars name rest (some (old, integer)) = do
  value ← trim rest
  checked ← check_value integer value
  ok (store vars name checked)

split_line : Vars → Option (Bytes × Bytes) → Outcome Vars
unfolding assign
split_line vars none = ok vars
split_line vars (some ([], value)) = ok vars
split_line vars (some (c ∷ name, [])) = ok vars
split_line vars (some (c ∷ name, v ∷ value)) = do
  key ← trim (c ∷ name)
  assign vars key (v ∷ value) (find key vars)

-- One line: empty, comment, syntax error, unknown name, refused value, or an assignment.
unfoldable pub load_line : Vars → Bytes → Outcome Vars
unfolding split_line
load_line vars line = elim (skip_white line) [
  | [] ↦ ok vars
  | c ∷ cs ↦ if c == b'#' then ok vars else split_line vars (split_equal (c ∷ cs))
]

unfoldable pub load : Vars → List Bytes → Outcome Vars
unfolding load_line
load vars [] = ok vars
load vars (line ∷ lines) = do vars' ← load_line vars line; load vars' lines

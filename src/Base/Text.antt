-- ===== src/Base/Text.antt =====
-- Literals as bytes, decimal output, and the numeric reads of the C++ library (std::stoul,
-- std::stoi): leading white space, a sign, then as many digits as there are.
use Prim.Native.Nat.{ℕ, zero, suc, ◌+◌, ◌-◌, ◌*◌, ◌/◌, ◌%◌}
use Prim.Native.Char.{code}
use Prim.Native.String.{String}
use mathlib.Core.Bool.{Bool, true, false, ◌&&◌, ◌||◌}
use mathlib.Core.Logic.{◌≢◌}
use mathlib.Core.List.{[], ◌∷◌}
use native.Mathlib.Omega.{arith}
use liquid.Base.Tests.{leb, ltb, if◌then◌else◌}
use liquid.Base.Lists.{take, drop, get_or}
use liquid.Base.Classes.{Bytes, ◌==◌, nat_eq}
use liquid.Base.Outcome.{Outcome, ok, stop, invalid_argument, undefined}

-- The bytes of an ASCII literal.
abbrev pub codes : String → Bytes
codes String.[] = []
codes (String.◌∷◌ c s) = code c ∷ codes s

-- `substr(pos, n)` at a position within the string.
abbrev pub substr : Bytes → ℕ → ℕ → Bytes
substr s pos n = take n (drop pos s)

-- `s[i]`; one past the end is the terminating 0.
abbrev pub char_at : Bytes → ℕ → ℕ
char_at s i = get_or s i 0

-- `to_string`, least digit last; a number has at most as many digits as its value plus one.
decimal : ℕ → ℕ → Bytes → Bytes
decimal zero n out = out
decimal (suc fuel) n out =
    let more = decimal fuel (n / 10) ((b'0' + n % 10) ∷ out) in
    if ltb n 10 then (b'0' + n) ∷ out else more

unfoldable pub to_string : ℕ → Bytes
unfolding decimal
to_string n = decimal (n + 1) n []

abbrev pub is_digit : ℕ → Bool
is_digit c = leb b'0' c && leb c b'9'

abbrev is_space : ℕ → Bool
is_space c = c == b' ' || (leb 9 c && leb c 13)

read_digits : ℕ → Bytes → ℕ
read_digits acc [] = acc
read_digits acc (c ∷ cs) =
    let rest = read_digits (acc * 10 + (c - b'0')) cs in if is_digit c then rest else acc

-- The magnitude and sign that a numeric read finds.
read_magnitude : Bool → Bytes → Outcome (Bool × ℕ)
unfolding read_digits
read_magnitude negative [] = stop invalid_argument
read_magnitude negative (c ∷ cs) =
    if is_digit c then ok (negative, read_digits 0 (c ∷ cs)) else stop invalid_argument

unfoldable pub read_number : Bytes → Outcome (Bool × ℕ)
unfolding read_magnitude
read_number [] = stop invalid_argument
read_number (c ∷ cs) =
    let later = read_number cs in
    if is_space c
    then later
    else if c == b'-'
    then read_magnitude true cs
    else if c == b'+'
    then read_magnitude false cs
    else read_magnitude false (c ∷ cs)

-- A text that is no number throws, and nothing worse.
read_magnitude-defined : (b : Bool) (s : Bytes) → read_magnitude b s ≢ stop undefined
unfolding read_magnitude
read_magnitude-defined b [] e = absurd (cc)
read_magnitude-defined b (c ∷ cs) e = ground arith

pub read_number-defined : (s : Bytes) → read_number s ≢ stop undefined
unfolding read_number
read_number-defined [] e = absurd (cc)
read_number-defined (c ∷ cs) e = ground (
  arith,
  read_number-defined cs,
  read_magnitude-defined true cs,
  read_magnitude-defined false cs,
  read_magnitude-defined false (c ∷ cs),
)

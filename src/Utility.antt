-- ===== src/Utility.antt =====
-- src/misc/utility.cpp: percent decoding, addresses as bytes, prefixes of units.
-- gzip_compress is not modelled: it is calls of zlib, and nothing calls it.
pub mod HexToBin
use liquid.Base.{
  ℕ, zero, suc, ◌+◌, ◌-◌, ◌*◌, ◌/◌, ◌%◌, ◌^◌, ◌≡◌, refl, Bool, true, false, ◌&&◌, List, [], ◌∷◌,
  ◌++◌, Option, none, some, Bytes, ltb, leb, ◌==◌, nat_eq, if◌then◌else◌,
}
use liquid.Base.Outcome.{Outcome, ok, ◌>>=◌}
use liquid.Base.Text.{codes, is_digit}
use liquid.Base.Int.{uint16, ℤ, pos_part, neg_part, stoi}
use liquid.Platform.{Platform}

-- The value of a hex digit; `none` is the early `return ""`.
unfoldable pub hex_digit : ℕ → Option ℕ
hex_digit c =
    if is_digit c
    then some (c - b'0')
    else if leb b'a' c && leb c b'f'
    then some (c - b'a' + 10)
    else if leb b'A' c && leb c b'F'
    then some (c - b'A' + 10)
    else none

pair_value : Option ℕ → Option ℕ → Option ℕ
pair_value (some hi) (some lo) = some (hi * 16 + lo)
pair_value (some hi) none = none
pair_value none lo = none

push_decoded : Option ℕ → Option Bytes → Option Bytes
push_decoded (some v) (some out) = some (v ∷ out)
push_decoded (some v) none = none
push_decoded none out = none

-- The loop, on what is left of the input. A `%` with one character behind it reads the string's
-- terminating 0, which is no hex digit; a `%` at the very end is copied.
decode : Bytes → Option Bytes
decode [] = some []
decode (c ∷ []) = some (c ∷ [])
decode (c ∷ d ∷ []) =
    if c == b'%'
    then push_decoded (pair_value (hex_digit d) (hex_digit 0)) (some [])
    else push_decoded (some c) (decode (d ∷ []))
decode (c ∷ d ∷ e ∷ rest) =
    let escaped = push_decoded (pair_value (hex_digit d) (hex_digit e)) (decode rest) in
    let plain = push_decoded (some c) (decode (d ∷ e ∷ rest)) in
    if c == b'%' then escaped else plain

unfoldable pub hex_to_bin : Bytes → Bytes
unfolding decode push_decoded pair_value hex_digit
hex_to_bin input = elim (decode input) [ none ↦ [] | some output ↦ output ]

-- Network byte order.
abbrev pub htonl : ℕ → Bytes
htonl n = n / 2 ^ 24 % 256 ∷ n / 2 ^ 16 % 256 ∷ n / 2 ^ 8 % 256 ∷ n % 256 ∷ []

abbrev pub htons : ℕ → Bytes
htons n = n / 256 % 256 ∷ n % 256 ∷ []

unfoldable pub long2ip : Platform → ℕ → Bytes
long2ip os lip = os.inet_ntoa (htonl lip)

unfoldable pub ip_port_hex_encode : Platform → Bytes → Bytes → Bool → Outcome Bytes
ip_port_hex_encode os ip port ipv6 = do
  value ← stoi port
  ok (os.inet_pton ipv6 ip ++ htons (uint16 value))

unfoldable pub get_prefix : ℕ → Bytes
get_prefix level =
    if level == 1
    then codes "k"
    else if level == 2
    then codes "M"
    else if level == 3
    then codes "G"
    else if level == 4
    then codes "T"
    else if level == 5
    then codes "P"
    else if level == 6
    then codes "E"
    else if level == 7
    then codes "Z"
    else if level == 8
    then codes "Y"
    else []

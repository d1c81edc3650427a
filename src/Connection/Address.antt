-- ===== src/Connection/Address.antt =====
-- `ConnectionHandlerIPv6::getPeerInfo` (src/network/connectionHandlerIPv6.cpp): an IPv4 address that
-- is written as an IPv6 one is cut to its IPv4 form. getpeername and inet_ntop are left out: the
-- argument is the text that they give.
use liquid.Base.{
  ℕ, suc, ◌≡◌, refl, Bool, true, false, not, ◌||◌, [], ◌∷◌, ◌++◌, Option, none, some, Bytes, ◌==◌,
  nat_eq, bytes_eq, if◌then◌else◌, drop, arith, length, Bool-cases, inl, inr,
}
use liquid.Base.Dict.{has}

-- `string::find_last_of` of one character.
unfoldable pub find_last_of : ℕ → Bytes → Option ℕ
find_last_of c [] = none
find_last_of c (x ∷ xs) = elim (find_last_of c xs) [
  | some pos ↦ some (suc pos)
  | none ↦ if x == c then some 0 else none
]

-- `substr(pos + 1)`: npos + 1 is 0.
abbrev after : Option ℕ → Bytes → Bytes
after none ip = ip
after (some pos) ip = drop (suc pos) ip

-- The address, and whether it is an IPv6 one.
unfoldable pub get_peer_info : Bytes → Bytes × Bool
unfolding find_last_of
get_peer_info ip =
    if has (find_last_of b'.' ip) then (after (find_last_of b':' ip) ip, false) else (ip, true)

-- Whether a byte occurs.
abbrev pub occurs : ℕ → Bytes → Bool
occurs c [] = false
occurs c (x ∷ xs) = (x == c) || occurs c xs

has-find_last_of : (c : ℕ) (ip : Bytes) → has (find_last_of c ip) ≡ occurs c ip
unfolding find_last_of
has-find_last_of c [] = refl
has-find_last_of c (x ∷ xs) = ground (arith, has-find_last_of c xs)

find_last_of-none : (c : ℕ) (ip : Bytes) → occurs c ip ≡ false → find_last_of c ip ≡ none
find_last_of-none c ip h = ground (arith, has-find_last_of c ip)

occurs-append : (c : ℕ) (a b : Bytes) → occurs c (a ++ b) ≡ (occurs c a || occurs c b)
occurs-append c [] b = refl
occurs-append c (x ∷ a) b = ground (arith, occurs-append c a b)

find_last_of-append :
    (c : ℕ) (a b : Bytes) → occurs c b ≡ false → find_last_of c (a ++ c ∷ b) ≡ some (length a)
unfolding find_last_of
find_last_of-append c [] b h = rw (find_last_of-none c b h) (ground arith)
find_last_of-append c (x ∷ a) b h = rw (find_last_of-append c a b h) refl

drop-append : (a b : Bytes) (c : ℕ) → drop (suc (length a)) (a ++ c ∷ b) ≡ b
drop-append [] b c = refl
drop-append (x ∷ a) b c = drop-append a b c

-- A text without a colon is kept, and is an IPv6 address exactly when it has no dot. Behind any text
-- and a colon it is what is left, as an IPv4 address, if there is a dot anywhere; else the whole is
-- kept, as an IPv6 one.
pub get_peer_info-cases :
    (prefix ip : Bytes)
    → occurs b':' ip ≡ false
    → (get_peer_info ip ≡ (ip, not (occurs b'.' ip)))
      × (get_peer_info (prefix ++ b':' ∷ ip) ≡ (
          if occurs b'.' prefix || occurs b'.' ip
          then (ip, false)
          else (prefix ++ b':' ∷ ip, true)))
unfolding get_peer_info
get_peer_info-cases prefix ip h = (
  rw (has-find_last_of b'.' ip, find_last_of-none b':' ip h)
      (elim (Bool-cases (occurs b'.' ip)) [ inl e ↦ rw e refl | inr e ↦ rw e refl ]),
  rw
      (
        has-find_last_of b'.' (prefix ++ b':' ∷ ip),
        occurs-append b'.' prefix (b':' ∷ ip),
        find_last_of-append b':' prefix ip h,
        drop-append prefix ip b':',
      )
      refl,
)

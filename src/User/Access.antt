-- ===== src/User/Access.antt =====
-- Tokens and address restrictions of an account.
use liquid.Base.{
  ℕ, ◌+◌, ◌≡◌, refl, ◌≢◌, ◌↔◌, inl, inr, true, false, not, [], ◌∷◌, Option, none, some, Bytes,
  arith, ◌==◌, nat_eq, bytes_eq, Bool-cases, if◌then◌else◌, bytes_beq_iff, nat_beq_iff, ltb,
}
use liquid.Base.Dict.{find, emplace, has, find-emplace, find-modify}
use liquid.User.{
  User, Texts, add_token, has_token, is_token_expired, none_equal, restricts, is_restricted,
  add_ip_restriction,
}

-- The time of the token that an account holds on a torrent.
abbrev pub token : ℕ → User → Option ℕ
token tid u = find tid u.tokens

-- `addToken` sets the time of one torrent's token, new or old.
pub token-add_token :
    (tid j time : ℕ) (u : User)
    → token j (add_token tid time u) ≡ (if tid == j then some time else token j u)
unfolding add_token
token-add_token tid j time u =
    ground (arith, find-emplace tid j time u.tokens, find-modify tid j (λ _. time) u.tokens)

-- A token given by `addToken` is called expired for a day, and then no longer.
pub add_token-is_token_expired :
    (tid time now : ℕ) (u : User)
    → (has_token tid (add_token tid time u) ≡ true)
      × (is_token_expired now tid (add_token tid time u) ≡ ltb now (time + 86400))
unfolding has_token is_token_expired
add_token-is_token_expired tid time now u =
    let e = token-add_token tid tid time u in
    (ground (arith, e, nat_beq_iff tid tid), ground (arith, e, nat_beq_iff tid tid))

emplace-ne-nil : (ip : Bytes) (u : Unit {0}) (rs : Texts) → emplace ip u rs ≢ []
unfolding emplace
emplace-ne-nil ip u [] h = cc
emplace-ne-nil ip u ((j, _) ∷ rs) h = elim (Bool-cases (j == ip)) [
  | inl e ↦ absurd (ground arith)
  | inr e ↦ absurd (ground arith)
]

none_equal_lem : (ip : Bytes) (rs : Texts) → (none_equal ip rs ≡ true) ↔ (find ip rs ≡ none)
unfolding none_equal find
none_equal_lem ip [] = ground arith
none_equal_lem ip ((it, _) ∷ rest) =
    ground (arith, none_equal_lem ip rest, bytes_beq_iff ip it, bytes_beq_iff it ip)

restricts_iff :
    (ip : Bytes) (rs : Texts) → (restricts ip rs ≡ true) ↔ ((rs ≢ []) × (find ip rs ≡ none))
unfolding restricts
restricts_iff ip [] = (λ h. absurd (ground arith), λ (h, _). absurd (h refl))
restricts_iff ip (r ∷ rest) =
    let e = none_equal_lem ip (r ∷ rest) in (λ h. ((λ q. cc), e.0 h), λ (_, h). e.1 h)

-- An address is refused exactly when the account has restrictions and the address is none of them.
pub is_restricted_iff :
    (ip : Bytes) (u : User)
    → (is_restricted ip u ≡ true) ↔ ((u.ip_restrictions ≢ []) × (find ip u.ip_restrictions ≡ none))
unfolding is_restricted
is_restricted_iff ip u = restricts_iff ip u.ip_restrictions

-- After an address is added to an account, that address is allowed, and any other is refused unless
-- the account had it before.
pub add_ip_restriction-is_restricted :
    (ip j : Bytes) (u : User)
    → is_restricted j (add_ip_restriction ip u)
      ≡ (if ip == j then false else not (has (find j u.ip_restrictions)))
unfolding add_ip_restriction
add_ip_restriction-is_restricted ip j u = ground (
  arith,
  is_restricted_iff j (add_ip_restriction ip u),
  find-emplace ip j tt u.ip_restrictions,
  emplace-ne-nil ip tt u.ip_restrictions,
)

-- ===== src/User.antt =====
-- src/handler/user.cpp: an account, its traffic since it was last written to the database, its
-- freeleech tokens by torrent and the addresses that it may announce from.
pub mod Access
use liquid.Base.{
  ℕ, ◌+◌, ◌*◌, ◌%◌, Bool, true, false, not, ◌||◌, List, [], ◌∷◌, Option, none, some, Bytes, ltb,
  ◌==◌, ◌!=◌, nat_eq, bytes_eq, if◌then◌else◌,
}
use liquid.Base.Dict.{Dict, find, emplace, erase, modify, has}
use liquid.Base.Words.{u32, add64}

-- An unordered_set of texts.
abbrev pub Texts : Type 0
Texts = Dict Bytes (Unit {0})

pub record User : Type 0 where
  pub id : ℕ
  pub uploaded : ℕ
  pub downloaded : ℕ
  pub authorized : Bool
  pub tokens : Dict ℕ ℕ
  pub ip_restrictions : Texts

-- The constructor.
unfoldable pub new_user : ℕ → Bool → User
new_user id authorized = record {
  id = id;
  uploaded = 0;
  downloaded = 0;
  authorized = authorized;
  tokens = [];
  ip_restrictions = [];
}

unfoldable pub reset : User → User
reset u = record u { downloaded = 0; uploaded = 0 }

-- The parameters are unsigned int, so what a caller passes is cut to 32 bits.
unfoldable pub update_stats : ℕ → ℕ → User → User
update_stats downloaded uploaded u = record u {
  downloaded = add64 u.downloaded (downloaded % u32);
  uploaded = add64 u.uploaded (uploaded % u32);
}

unfoldable pub add_token : ℕ → ℕ → User → User
add_token tid time u =
    if has (find tid u.tokens)
    then record u { tokens = modify tid (λ _. time) u.tokens }
    else record u { tokens = emplace tid time u.tokens }

unfoldable pub remove_token : ℕ → User → User
remove_token tid u = record u { tokens = erase tid u.tokens }

unfoldable pub has_token : ℕ → User → Bool
has_token tid u = has (find tid u.tokens)

-- `(now - tokens.at(tid)) < 3600 * 24`; a missing token answers false.
abbrev young : ℕ → Option ℕ → Bool
young now none = false
young now (some time) = ltb now (time + 3600 * 24)

unfoldable pub is_token_expired : ℕ → ℕ → User → Bool
is_token_expired now tid u = young now (find tid u.tokens)

unfoldable pub add_ip_restriction : Bytes → User → User
add_ip_restriction ip u = record u { ip_restrictions = emplace ip tt u.ip_restrictions }

unfoldable pub remove_ip_restriction : Bytes → User → User
remove_ip_restriction ip u = record u { ip_restrictions = erase ip u.ip_restrictions }

-- The loop over the set: false as soon as `ip` is met, else true.
none_equal : Bytes → Texts → Bool
none_equal ip [] = true
none_equal ip ((it, _) ∷ rest) = if ip == it then false else none_equal ip rest

restricts : Bytes → Texts → Bool
unfolding none_equal
restricts ip [] = false
restricts ip (r ∷ rest) = none_equal ip (r ∷ rest)

unfoldable pub is_restricted : Bytes → User → Bool
unfolding restricts
is_restricted ip u = restricts ip u.ip_restrictions

unfoldable pub is_authorized : User → Bool
is_authorized u = u.authorized

unfoldable pub set_authorized : Bool → User → User
set_authorized authorized u = record u { authorized = authorized }

unfoldable pub has_changed : User → Bool
has_changed u = (u.downloaded != 0) || (u.uploaded != 0)

-- ===== src/Tests/Parts.antt =====
-- The theorems on the parser, the settings, the accounts and the bans at concrete inputs.
use mathlib.Core.Bool.{false≢true}
use liquid.Base.{
  ℕ, ◌+◌, ◌/◌, ◌%◌, ◌^◌, ◌≡◌, inl, inr, Bool-cases, refl, ◌↔◌, Bool, true, false, not, ◌||◌, ◌&&◌,
  List, [], ◌∷◌, Option, none, some, Bytes, arith, ◌==◌, bytes_eq, nat_eq, bytes_beq, bytes_beq_iff,
  leb, ltb, if◌then◌else◌, ◌<◌,
}
use liquid.Base.Words.{u32}
use liquid.Base.Dict.{find, has, modify}
use liquid.Base.Int.{pos, stoi}
use liquid.Base.Outcome.{ok}
use liquid.Base.Text.{codes}
use liquid.Utility.{hex_to_bin, long2ip}
use liquid.Utility.HexToBin.{
  Encodes, nil, plain, escaped, decimal, lower, upper, hex_to_bin-Encodes, Encodes-hex_to_bin,
}
use liquid.Config.{Vars, default_vars}
use liquid.Config.Load.{load, skip_white, split_equal, trim, check_value}
use liquid.Config.Load.Typed.{IsTyped, load-IsTyped}
use liquid.Stats.{inc_speed}
use liquid.Stats.Level.{IsLevel, inc_speed-IsLevel}
use liquid.User.{
  new_user, add_ip_restriction, is_restricted, add_token, has_token, is_token_expired,
}
use liquid.User.Access.{add_token-is_token_expired, add_ip_restriction-is_restricted}
use liquid.Parser.{init, check}
use liquid.Parser.Check.{Complete, check_iff}
use liquid.Peers.{Request}
use liquid.Handler.{Tracker, get_user}
use liquid.Handler.Update.{change_passkey, remove_users, ban_range, unban_range, range_size}
use liquid.Handler.Update.Accounts.{
  change_passkey_moves, change_passkey_taken, remove_users_removes, joined, member,
}
use liquid.Handler.Update.Bans.{IsInjective, distance, ban_range-distance, unban_range-distance}
use liquid.Examples.{os, passkey, tracker, no_stats}

-- An escape of lower-case and upper-case digits, one of decimal digits, and a byte as it is.
percent_text : Encodes (250 ∷ 65 ∷ 66 ∷ []) (codes "%fA%41B")
percent_text =
    escaped b'f' b'A' 15 10 (lower 5 (omega arith) refl refl) (upper 0 (omega arith) refl refl) (
      escaped b'4' b'1' 4 1 (decimal 4 (omega arith) refl) (decimal 1 (omega arith) refl)
        (plain 66 (λ e. absurd (omega arith)) nil))

hex_to_bin-Encodes_example : hex_to_bin (codes "%fA%41B") ≡ 250 ∷ 65 ∷ 66 ∷ []
hex_to_bin-Encodes_example = hex_to_bin-Encodes percent_text

Encodes-hex_to_bin_example : Encodes (hex_to_bin (codes "%fA%41B")) (codes "%fA%41B")
unfolding hex_to_bin
Encodes-hex_to_bin_example = Encodes-hex_to_bin (codes "%fA%41B") (λ e. cc)

check_iff_example :
    (check (init default_vars) ((codes "action", codes "scrape") ∷ []) ≡ codes "success")
    ↔ Complete (init default_vars) ((codes "action", codes "scrape") ∷ [])
check_iff_example = check_iff (init default_vars) ((codes "action", codes "scrape") ∷ [])

-- Two settings, and a file that gives one of them a number and the other a text.
abbrev two_vars : Vars
two_vars = (codes "port", (codes "2710", true)) ∷ (codes "type", (codes "private", false)) ∷ []

abbrev lines : List Bytes
lines = codes " port = 99 " ∷ codes "# port = x" ∷ codes "port = x" ∷ codes "type=\"public\"" ∷ []

abbrev read_vars : Vars
read_vars = (codes "port", (codes "99", true)) ∷ (codes "type", (codes "public", false)) ∷ []

two_vars-IsTyped : IsTyped two_vars
unfolding find
two_vars-IsTyped name value h = elim (Bool-cases (codes "port" == name)) [
  | inl port ↦
      let same : codes "2710" ≡ value = number (codes "2710") value true (rw port at h) in
      rw (← same) (pos 2710, unfold stoi in refl)
  | inr other ↦ elim (Bool-cases (codes "type" == name)) [
    | inl type ↦ absurd (false≢true (integer _ value false (rw (other, type) at h)))
    | inr neither ↦ absurd (missing value (rw (other, neither) at h))
  ]
]
  where
    number :
        (v w : Bytes) (b : Bool)
        → Path (Option (Bytes × Bool)) (some (v, b)) (some (w, true))
        → v ≡ w
    number v w b e = cc

    integer :
        (v w : Bytes) (b : Bool)
        → Path (Option (Bytes × Bool)) (some (v, b)) (some (w, true))
        → b ≡ true
    integer v w b e = cc

    missing : (w : Bytes) → Path (Option (Bytes × Bool)) none (some (w, true)) → ⊥
    missing w e = cc

load-IsTyped_example : IsTyped read_vars
unfolding load skip_white split_equal trim find bytes_beq check_value stoi modify
load-IsTyped_example = load-IsTyped two_vars read_vars lines two_vars-IsTyped refl

inc_speed-IsLevel_example :
    IsLevel (os.to_double (inc_speed os 5000 no_stats).speed) (inc_speed os 5000 no_stats).speed_lvl
inc_speed-IsLevel_example = inc_speed-IsLevel os 5000 no_stats

add_token-is_token_expired_example :
    (has_token 5 (add_token 5 1000 (new_user 42 true)) ≡ true)
    × (is_token_expired 2000 5 (add_token 5 1000 (new_user 42 true)) ≡ ltb 2000 87400)
add_token-is_token_expired_example = add_token-is_token_expired 5 1000 2000 (new_user 42 true)

abbrev renaming : Bytes → Request
renaming new = (codes "old_passkey", passkey) ∷ (codes "new_passkey", new) ∷ []

change_passkey_moves_example :
    (t' : Tracker) × (change_passkey (renaming (codes "new")) tracker ≡ ok t')
    × (t' ≡ record tracker { usr_map = t'.usr_map })
    × (get_user passkey t' ≡ (
        if codes "new" == passkey
        then some 0
        else if passkey == passkey
        then none
        else get_user passkey tracker))
unfolding find bytes_beq get_user tracker
change_passkey_moves_example =
    change_passkey_moves (renaming (codes "new")) passkey (codes "new") passkey 0 tracker refl refl
      refl refl

-- A second account under another passkey.
abbrev crowded : Tracker
crowded = record tracker {
  heap = (0, new_user 42 true) ∷ (1, new_user 43 true) ∷ [];
  usr_map = (passkey, 0) ∷ (codes "new", 1) ∷ [];
}

change_passkey_taken_example :
    (t' : Tracker) × (change_passkey (renaming (codes "new")) crowded ≡ ok t')
    × (get_user passkey t' ≡ none)
    × (get_user (codes "new") t' ≡ some 1)
unfolding find bytes_beq get_user
change_passkey_taken_example =
    change_passkey_taken (renaming (codes "new")) passkey (codes "new") 0 1 crowded refl refl
      (λ e. false≢true ((bytes_beq_iff passkey (codes "new")).1 e)) refl refl

remove_users_removes_example :
    (t' : Tracker) × (remove_users ((codes "passkeys", joined (passkey ∷ [])) ∷ []) crowded ≡ ok t')
    × (t'.heap ≡ crowded.heap)
    × (get_user passkey t'
        ≡ (if member passkey (passkey ∷ []) then none else get_user passkey crowded))
unfolding find bytes_beq
remove_users_removes_example =
    remove_users_removes ((codes "passkeys", joined (passkey ∷ [])) ∷ []) (passkey ∷ []) passkey
      crowded refl (refl, tt)

pub os-IsInjective : IsInjective os
unfolding long2ip
os-IsInjective a b h k e = same a b h k bytes.0 bytes.1 bytes.2 bytes.3
  where
    bytes :
        (a / 2 ^ 24 % 256 ≡ b / 2 ^ 24 % 256)
        × (a / 2 ^ 16 % 256 ≡ b / 2 ^ 16 % 256)
        × (a / 2 ^ 8 % 256 ≡ b / 2 ^ 8 % 256)
        × (a % 256 ≡ b % 256)
    bytes = (cc, cc, cc, cc)

    same :
        (a b : ℕ)
        → a < u32
        → b < u32
        → a / 2 ^ 24 % 256 ≡ b / 2 ^ 24 % 256
        → a / 2 ^ 16 % 256 ≡ b / 2 ^ 16 % 256
        → a / 2 ^ 8 % 256 ≡ b / 2 ^ 8 % 256
        → a % 256 ≡ b % 256
        → a ≡ b
    same a b h k p q r s = omega arith

ban_range-distance_example :
    has (find (long2ip os 2) (ban_range os (range_size 1 3 + 0) 1 3 []))
    ≡ (leb (distance 1 2) (distance 1 3) || has (find {V = Unit {0}} (long2ip os 2) []))
ban_range-distance_example =
    ban_range-distance os os-IsInjective 1 3 2 [] 0 (omega arith) (omega arith) (omega arith)

unban_range-distance_example :
    has (find (long2ip os 2) (unban_range os (range_size 1 3 + 0) 1 3 ((long2ip os 2, tt) ∷ [])))
    ≡ (not (leb (distance 1 2) (distance 1 3))
        && has (find {V = Unit {0}} (long2ip os 2) ((long2ip os 2, tt) ∷ [])))
unban_range-distance_example =
    unban_range-distance os os-IsInjective 1 3 2 ((long2ip os 2, tt) ∷ []) 0 (omega arith)
      (omega arith) (omega arith)

add_ip_restriction-is_restricted_example :
    is_restricted (codes "10.0.0.2") (add_ip_restriction (codes "10.0.0.1") (new_user 7 true)) ≡ (
      if codes "10.0.0.1" == codes "10.0.0.2"
      then false
      else not (has (find (codes "10.0.0.2") (new_user 7 true).ip_restrictions)))
add_ip_restriction-is_restricted_example =
    add_ip_restriction-is_restricted (codes "10.0.0.1") (codes "10.0.0.2") (new_user 7 true)

-- ===== src/Handler/Update/Accounts.antt =====
-- What the operations on accounts do to the map of passkeys.
use liquid.Base.{
  ℕ, zero, suc, ◌≤◌, ◌≡◌, refl, ◌≢◌, Bool, false, ◌||◌, List, [], ◌∷◌, ◌++◌, none, some, Bytes,
  length, take, drop, length-append, take-append_length, drop-append_length, arith, ◌==◌, bytes_eq,
  nat_eq, if◌then◌else◌, bytes_beq_iff,
}
use liquid.Base.Dict.{find, erase, find-emplace, find-erase}
use liquid.Base.Outcome.{ok}
use liquid.Base.Text.{codes}
use liquid.Peers.{Request}
use liquid.Handler.{Tracker, get_user}
use liquid.Handler.Update.{change_passkey, drop_user, remove_each, remove_users, move_user}

-- A change of the passkey of an account to one that is not in use: the account is found under the
-- new passkey and, if it is another, no longer under the old; every other passkey leads where it
-- did; and but for the map of passkeys the tracker is as before, its accounts included.
pub change_passkey_moves :
    (req : Request) (old new k : Bytes) (u : ℕ) (t : Tracker)
    → find (codes "old_passkey") req ≡ some old
    → find (codes "new_passkey") req ≡ some new
    → get_user old t ≡ some u
    → get_user new t ≡ none
    → (t' : Tracker) × (change_passkey req t ≡ ok t')
      × (t' ≡ record t { usr_map = t'.usr_map })
      × (get_user k t' ≡ (if new == k then some u else if old == k then none else get_user k t))
unfolding change_passkey get_user
change_passkey_moves req old new k u t p q r s = (
  move_user old new (some u) t,
  ground arith,
  ground arith,
  ground (
    arith,
    find-emplace new k u (erase old t.usr_map),
    find-erase old new t.usr_map,
    find-erase old k t.usr_map,
    bytes_beq_iff old new,
  ),
)

-- A change of passkey to another that is in use: the old passkey leads to no account afterwards,
-- and the new one to the account that it led to before.
pub change_passkey_taken :
    (req : Request) (old new : Bytes) (u v : ℕ) (t : Tracker)
    → find (codes "old_passkey") req ≡ some old
    → find (codes "new_passkey") req ≡ some new
    → old ≢ new
    → get_user old t ≡ some u
    → get_user new t ≡ some v
    → (t' : Tracker) × (change_passkey req t ≡ ok t')
      × (get_user old t' ≡ none)
      × (get_user new t' ≡ some v)
unfolding change_passkey get_user
change_passkey_taken req old new u v t p q ne r s = (
  move_user old new (some u) t,
  ground arith,
  ground (
    arith,
    find-emplace new old u (erase old t.usr_map),
    find-erase old old t.usr_map,
    bytes_beq_iff old old,
    bytes_beq_iff new old,
  ),
  ground (
    arith,
    find-emplace new new u (erase old t.usr_map),
    find-erase old new t.usr_map,
    bytes_beq_iff new new,
    bytes_beq_iff old new,
  ),
)

-- Whether a passkey is one of the pieces of 32 bytes, the last perhaps shorter, of a text.
pub is_piece : ℕ → Bytes → Bytes → Bool
is_piece zero passkeys k = false
is_piece (suc fuel) [] k = false
is_piece (suc fuel) (c ∷ cs) k = (take 32 (c ∷ cs) == k) || is_piece fuel (drop 32 (c ∷ cs)) k

get_user-drop_user :
    (passkey k : Bytes) (t : Tracker)
    → get_user k (drop_user passkey t) ≡ (if passkey == k then none else get_user k t)
unfolding get_user drop_user
get_user-drop_user passkey k t =
    ground (arith, find-erase passkey k t.usr_map, bytes_beq_iff passkey k)

heap-remove_each :
    (fuel : ℕ) (passkeys : Bytes) (t : Tracker) → (remove_each fuel passkeys t).heap ≡ t.heap
unfolding remove_each drop_user
heap-remove_each zero passkeys t = refl
heap-remove_each (suc fuel) [] t = refl
heap-remove_each (suc fuel) (c ∷ cs) t =
    ground (arith, heap-remove_each fuel (drop 32 (c ∷ cs)) (drop_user (take 32 (c ∷ cs)) t))

get_user-remove_each :
    (fuel : ℕ) (passkeys k : Bytes) (t : Tracker)
    → get_user k (remove_each fuel passkeys t)
      ≡ (if is_piece fuel passkeys k then none else get_user k t)
unfolding remove_each is_piece
get_user-remove_each zero passkeys k t = refl
get_user-remove_each (suc fuel) [] k t = refl
get_user-remove_each (suc fuel) (c ∷ cs) k t = ground (
  arith,
  get_user-remove_each fuel (drop 32 (c ∷ cs)) k (drop_user (take 32 (c ∷ cs)) t),
  get_user-drop_user (take 32 (c ∷ cs)) k t,
)

-- A list of passkeys as the parameter `passkeys` joins it.
abbrev pub joined : List Bytes → Bytes
joined [] = []
joined (key ∷ keys) = key ++ joined keys

abbrev pub member : Bytes → List Bytes → Bool
member k [] = false
member k (key ∷ keys) = (key == k) || member k keys

abbrev pub Passkeys : List Bytes → Type 0
Passkeys [] = Unit {0}
Passkeys (key ∷ keys) = (length key ≡ 32) × Passkeys keys

is_piece_next :
    (fuel : ℕ) (key rest k : Bytes)
    → length key ≡ 32
    → is_piece (suc fuel) (key ++ rest) k ≡ ((key == k) || is_piece fuel rest k)
unfolding is_piece
is_piece_next fuel [] rest k h = absurd (omega arith)
is_piece_next fuel (c ∷ cs) rest k h =
    rw (take-append_length cs rest 31 (omega arith), drop-append_length cs rest 31 (omega arith))

is_piece-joined :
    (fuel : ℕ) (keys : List Bytes) (k : Bytes)
    → length (joined keys) ≤ fuel
    → Passkeys keys
    → is_piece fuel (joined keys) k ≡ member k keys
unfolding is_piece
is_piece-joined zero [] k h p = refl
is_piece-joined (suc fuel) [] k h p = refl
is_piece-joined zero (key ∷ keys) k h p = absurd (omega (arith, length-append key (joined keys)))
is_piece-joined (suc fuel) (key ∷ keys) k h p = rw (
  is_piece_next fuel key (joined keys) k p.0,
  is_piece-joined fuel keys k (omega (arith, length-append key (joined keys))) p.1,
)

-- A request to remove users, its passkeys of 32 bytes written one after another: each of them
-- leads to no account afterwards, every other leads where it did, and the accounts stay in the heap.
pub remove_users_removes :
    (req : Request) (keys : List Bytes) (k : Bytes) (t : Tracker)
    → find (codes "passkeys") req ≡ some (joined keys)
    → Passkeys keys
    → (t' : Tracker) × (remove_users req t ≡ ok t')
      × (t'.heap ≡ t.heap)
      × (get_user k t' ≡ (if member k keys then none else get_user k t))
unfolding remove_users
remove_users_removes req keys k t h p = (
  remove_each (length (joined keys)) (joined keys) t,
  ground arith,
  heap-remove_each (length (joined keys)) (joined keys) t,
  rw (
    get_user-remove_each (length (joined keys)) (joined keys) k t,
    is_piece-joined (length (joined keys)) keys k (omega arith) p,
  ),
)

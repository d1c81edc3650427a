-- ===== src/Database/Accounts.antt =====
-- When the pointers to accounts can be followed, and what the rows of an account add up to.
use liquid.Base.{
  ℕ, ◌≡◌, refl, inl, inr, Bool, true, false, not, ◌||◌, [], ◌∷◌, ◌++◌, Option, none, some, Bytes,
  arith, nat_eq, Bool-cases,
}
use liquid.Base.Dict.{find, has}
use liquid.Base.Outcome.{ok}
use liquid.Base.Text.{codes, to_string}
use liquid.Config.{Vars, is_private}
use liquid.User.{User}
use liquid.Peer.{Peer, get_timespent}
use liquid.Database.{Database, Heap, deref, owner_id, record_peer, peer_row}

-- The pointer is not null, and its account is in the heap.
abbrev pub points_to_user : Heap → Option ℕ → Bool
points_to_user heap none = false
points_to_user heap (some a) = has (find a heap)

-- A private tracker follows the pointer of each peer that it writes.
abbrev pub owned : Vars → Heap → Peer → Bool
owned vars heap p = not (is_private vars) || points_to_user heap p.user

pub deref_total :
    (heap : Heap) (address : Option ℕ)
    → points_to_user heap address ≡ true
    → (u : User) × (deref heap address ≡ ok u)
deref_total heap none h = cc
deref_total heap (some a) h = go (find a heap) refl
  where
    go : (o : Option User) → find a heap ≡ o → (u : User) × (deref heap (some a) ≡ ok u)
    go none e = absurd (ground arith)
    go (some u) e = (u, rw (e, deref))

owner_total :
    (vars : Vars) (heap : Heap) (p : Peer)
    → owned vars heap p ≡ true
    → (owner : Bytes) × (owner_id vars heap p ≡ ok owner)
unfolding owner_id
owner_total vars heap p h = elim (Bool-cases (is_private vars)) [
  | inl e ↦ let (u, d) = deref_total heap p.user (ground arith) in (to_string u.id, ground arith)
  | inr e ↦ (codes "0", ground arith)
]

-- A peer whose account can be read is written.
pub record_peer_total :
    (vars : Vars) (heap : Heap) (p : Peer) (db : Database)
    → owned vars heap p ≡ true
    → (owner : Bytes) × (record_peer vars heap p db
        ≡ ok (
          (get_timespent p).1,
          record db {
            peer_requests = db.peer_requests ++ peer_row owner (get_timespent p).0 p ∷ [];
          },
        ))
unfolding record_peer
record_peer_total vars heap p db h = let (owner, e) = owner_total vars heap p h in (owner, rw e)

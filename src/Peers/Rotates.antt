-- ===== src/Peers/Rotates.antt =====
-- When `nextPeer` can be called on and on.
use liquid.Base.{
  ◌≡◌, ◌≢◌, refl, ap, sym, subst, true, Option, none, some, [], ◌∷◌, Bytes, arith, ◌==◌, bytes_eq,
  bytes_beq_iff, Bool-cases, inl, inr, if_case,
}
use liquid.Base.Dict.{find, has, erase, find-erase}
use liquid.Base.Outcome.{Gives, Gives-ok}
use liquid.Peer.{Peer}
use liquid.Peers.{
  Peers, PeerMap, Cursor, past_end, element, dangling, next, next_peer, next_in, at_key, from_first,
  cursor_without, remove_key,
}

-- The iterator is past the end, or at an element that is there.
abbrev pub IsWithin : Cursor → PeerMap → Type 0
IsWithin past_end m = Unit
IsWithin (element k) m = has (find k m) ≡ true
IsWithin dangling m = ⊥

abbrev pub Rotates : Peers → Type 0
Rotates ps = IsWithin ps.it ps.p_map

has-find-cons :
    (k i : Bytes) (p : Peer) (m : PeerMap)
    → has (find k m) ≡ true
    → has (find k ((i, p) ∷ m)) ≡ true
unfolding find
has-find-cons k i p m h = ground arith

IsWithin-cons :
    (c : Cursor) (i : Bytes) (p : Peer) (m : PeerMap) → IsWithin c m → IsWithin c ((i, p) ∷ m)
IsWithin-cons past_end i p m h = h
IsWithin-cons (element k) i p m h = has-find-cons k i p m h
IsWithin-cons dangling i p m h = h

next-IsWithin : (k : Bytes) (m : PeerMap) → IsWithin (next k m) m
unfolding next find
next-IsWithin k [] = tt
next-IsWithin k ((i, p) ∷ []) = tt
next-IsWithin k ((i, p) ∷ (j, q) ∷ m) =
    if_case (λ c. IsWithin c ((i, p) ∷ (j, q) ∷ m)) (i == k) {x = element j}
      {y = next k ((j, q) ∷ m)} (ground (arith, bytes_beq_iff j j))
      (IsWithin-cons (next k ((j, q) ∷ m)) i p ((j, q) ∷ m) (next-IsWithin k ((j, q) ∷ m)))

at_key-Rotates :
    (k : Bytes) (ps : Peers) (o : Option Peer)
    → has o ≡ true
    → Gives (λ r. Rotates r.1) (at_key k ps o)
unfolding at_key
at_key-Rotates k ps none h = cc
at_key-Rotates k ps (some p) h = Gives-ok (λ r. Rotates r.1) _ (next-IsWithin k ps.p_map)

next_in-Rotates :
    (c : Cursor) (m : PeerMap) (ps : Peers)
    → ps.p_map ≡ m
    → IsWithin c m
    → Rotates ps
    → Gives (λ r. Rotates r.1) (next_in c m ps)
unfolding next_in
next_in-Rotates past_end [] ps e h r = Gives-ok (λ r. Rotates r.1) _ r
next_in-Rotates past_end ((k, p) ∷ m) ps e h r =
    Gives-ok (λ r. Rotates r.1) _
      (subst (IsWithin (next k ((k, p) ∷ m))) (sym e) (next-IsWithin k ((k, p) ∷ m)))
next_in-Rotates (element k) m ps e h r = at_key-Rotates k ps (find k m) h
next_in-Rotates dangling m ps e h r = elim h [ ]

from_first-Rotates :
    (ps : Peers) (m : PeerMap)
    → ps.p_map ≡ m
    → Rotates ps
    → Gives (λ r. Rotates r.1) (from_first ps m)
unfolding from_first
from_first-Rotates ps [] e r = Gives-ok (λ r. Rotates r.1) _ r
from_first-Rotates ps (x ∷ m) e r =
    next_in-Rotates ps.it (x ∷ m) ps e (subst (IsWithin ps.it) e r) r

-- Where the iterator is past the end or at an element, `nextPeer` ends, and leaves it so.
pub next_peer-Rotates : (ps : Peers) → Rotates ps → Gives (λ r. Rotates r.1) (next_peer ps)
unfolding next_peer
next_peer-Rotates ps r = from_first-Rotates ps ps.p_map refl r

grown :
    (c : Cursor) (m m' : PeerMap)
    → ((k : Bytes) → has (find k m) ≡ true → has (find k m') ≡ true)
    → IsWithin c m
    → IsWithin c m'
grown past_end m m' g h = h
grown (element k) m m' g h = g k h
grown dangling m m' g h = h

-- An iterator that stays where it was, in a swarm that has lost no peer.
pub grown-Rotates :
    (old new : Peers)
    → new.it ≡ old.it
    → ((k : Bytes) → has (find k old.p_map) ≡ true → has (find k new.p_map) ≡ true)
    → Rotates old
    → Rotates new
grown-Rotates old new e g r =
    subst (λ c. IsWithin c new.p_map) (sym e) (grown old.it old.p_map new.p_map g r)

erased :
    (c : Cursor) (key : Bytes) (m : PeerMap)
    → c ≢ element key
    → IsWithin c m
    → IsWithin (cursor_without key c) (erase key m)
erased past_end key m n h = h
erased (element k) key m n h = elim (Bool-cases (k == key)) [
  | inl e ↦ absurd (n (ap element ((bytes_beq_iff k key).0 e)))
  | inr e ↦ rw e (ground (arith, find-erase key k m, bytes_beq_iff k key, bytes_beq_iff key k))
]
erased dangling key m n h = h

-- An element is erased that the iterator is not at.
pub remove_key-Rotates :
    (key : Bytes) (ps : Peers) → ps.it ≢ element key → Rotates ps → Rotates (remove_key key ps)
unfolding remove_key
remove_key-Rotates key ps n r = erased ps.it key ps.p_map n r

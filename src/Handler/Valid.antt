-- ===== src/Handler/Valid.antt =====
-- The state that the tracker keeps: every info hash, and every peer id of a swarm, stands once; every
-- passkey, and in a private tracker every peer, leads to an account that can be read.
use liquid.Base.{
  ℕ, ◌≡◌, refl, inl, inr, true, Option, none, some, arith, bytes_eq, nat_eq, Bool-cases,
}
use liquid.Base.Dict.{find, emplace, modify, has, find-emplace, find-modify, Distinct, Each-mono}
use liquid.Config.{Vars, is_private}
use liquid.User.{User}
use liquid.Peer.{Peer}
use liquid.Peers.{Peers, no_peers}
use liquid.Peers.TimedOut.Sound.{AllOwned}
use liquid.Torrent.{
  Torrent, new_torrent, Swarm, seeding, seeding6, leeching, leeching6, get_swarm, set_swarm,
}
use liquid.Database.{Heap}
use liquid.Database.Accounts.{owned, points_to_user}
use liquid.Handler.{Tracker}
use liquid.Handler.Update.Grounded.{Grounded}
use liquid.Handler.Clean.Expiry.{IsSound, AllSound}

-- Every account of one heap is in the other.
abbrev pub Grows : Heap → Heap → Type 0
Grows heap heap' = (a : ℕ) → has (find a heap) ≡ true → has (find a heap') ≡ true

pub record IsValid (vars : Vars) (t : Tracker) : Type 0 where
  pub torrents_once : Distinct t.tor_map
  pub sound : AllSound vars t.heap t.tor_map
  pub grounded : Grounded t

pub Grows-modify : (a : ℕ) (f : User → User) (heap : Heap) → Grows heap (modify a f heap)
Grows-modify a f heap b h = ground (arith, find-modify a b f heap)

pub Grows-emplace : (a : ℕ) (u : User) (heap : Heap) → Grows heap (emplace a u heap)
Grows-emplace a u heap b h = ground (arith, find-emplace a b u heap)

module _ (vars : Vars) where
  owned-Grows :
      (heap heap' : Heap) (p : Peer)
      → Grows heap heap'
      → owned vars heap p ≡ true
      → owned vars heap' p ≡ true
  owned-Grows heap heap' p g h = elim (Bool-cases (is_private vars)) [
    | inl e ↦ rw e (points-Grows p.user (rw e at h))
    | inr e ↦ rw e refl
  ]
    where
      points-Grows : (u : Option ℕ) → points_to_user heap u ≡ true → points_to_user heap' u ≡ true
      points-Grows none k = k
      points-Grows (some a) k = g a k

  pub IsSound-Grows :
      (heap heap' : Heap) (tor : Torrent)
      → Grows heap heap'
      → IsSound vars heap tor
      → IsSound vars heap' tor
  IsSound-Grows heap heap' tor g h s = (
    (h s).0,
    Each-mono (λ p. owned vars heap p ≡ true) (λ p. owned vars heap' p ≡ true)
        (get_swarm s tor).p_map (λ p. owned-Grows heap heap' p g) (h s).1,
  )

  pub IsSound-new_torrent :
      (heap : Heap) (id free snatches balance : ℕ)
      → IsSound vars heap (new_torrent id free snatches balance)
  unfolding new_torrent get_swarm no_peers
  IsSound-new_torrent heap id free snatches balance seeding = (tt, tt)
  IsSound-new_torrent heap id free snatches balance seeding6 = (tt, tt)
  IsSound-new_torrent heap id free snatches balance leeching = (tt, tt)
  IsSound-new_torrent heap id free snatches balance leeching6 = (tt, tt)

  -- A swarm written.
  pub IsSound-set_swarm :
      (heap : Heap) (s : Swarm) (ps : Peers) (tor : Torrent)
      → Distinct ps.p_map
      → AllOwned vars heap ps.p_map
      → IsSound vars heap tor
      → IsSound vars heap (set_swarm s ps tor)
  unfolding get_swarm set_swarm
  IsSound-set_swarm heap seeding ps tor d o h seeding = (d, o)
  IsSound-set_swarm heap seeding ps tor d o h seeding6 = h seeding6
  IsSound-set_swarm heap seeding ps tor d o h leeching = h leeching
  IsSound-set_swarm heap seeding ps tor d o h leeching6 = h leeching6
  IsSound-set_swarm heap seeding6 ps tor d o h seeding = h seeding
  IsSound-set_swarm heap seeding6 ps tor d o h seeding6 = (d, o)
  IsSound-set_swarm heap seeding6 ps tor d o h leeching = h leeching
  IsSound-set_swarm heap seeding6 ps tor d o h leeching6 = h leeching6
  IsSound-set_swarm heap leeching ps tor d o h seeding = h seeding
  IsSound-set_swarm heap leeching ps tor d o h seeding6 = h seeding6
  IsSound-set_swarm heap leeching ps tor d o h leeching = (d, o)
  IsSound-set_swarm heap leeching ps tor d o h leeching6 = h leeching6
  IsSound-set_swarm heap leeching6 ps tor d o h seeding = h seeding
  IsSound-set_swarm heap leeching6 ps tor d o h seeding6 = h seeding6
  IsSound-set_swarm heap leeching6 ps tor d o h leeching = h leeching
  IsSound-set_swarm heap leeching6 ps tor d o h leeching6 = (d, o)

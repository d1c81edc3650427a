-- ===== src/Peers/TimedOut/Sound.antt =====
-- What a swarm holds after `timedOut`.
use liquid.Base.{
  ℕ, ◌+◌, ◌≡◌, refl, inl, inr, true, [], ◌∷◌, ◌++◌, Option, none, some, Bytes, arith, ◌==◌,
  bytes_eq, bytes_beq_iff, Bool-cases, if◌then◌else◌,
}
use liquid.Base.Dict.{find, find-erase, Distinct, Each}
use liquid.Base.Outcome.{ok}
use liquid.Config.{Vars, is_public}
use liquid.Peer.{Peer, timed_out, inactive, get_timespent}
use liquid.Peers.{Peers, PeerMap, remove_key}
use liquid.Database.{Database, Heap, peer_row}
use liquid.Database.Accounts.{owned, record_peer_total}
use liquid.Peers.TimedOut.{Sweep, expire, sweep, timed_out_peers}

-- What is left of an entry of the map, and how many entries have timed out.
abbrev pub still_there : Vars → ℕ → Option Peer → Option Peer
still_there vars now none = none
still_there vars now (some p) = if timed_out vars now p then none else some p

abbrev pub silent : Vars → ℕ → PeerMap → ℕ
silent vars now [] = 0
silent vars now ((_, p) ∷ m) = (if timed_out vars now p then 1 else 0) + silent vars now m

abbrev pub AllOwned : Vars → Heap → PeerMap → Type 0
AllOwned vars heap m = Each (λ p. owned vars heap p ≡ true) m

find-remove_key :
    (key k : Bytes) (ps : Peers)
    → find k (remove_key key ps).p_map ≡ (if key == k then none else find k ps.p_map)
unfolding remove_key
find-remove_key key k ps = find-erase key k ps.p_map

expire_total :
    (vars : Vars) (heap : Heap) (key : Bytes) (p : Peer) (s : Sweep)
    → owned vars heap p ≡ true
    → (db : Database) × (expire vars heap key p s
        ≡ ok (record { peers = remove_key key s.peers; db = db; changed = s.changed + 1 }))
unfolding expire
expire_total vars heap key p s h = elim (Bool-cases (is_public vars)) [
  | inl e ↦ (s.db, rw e)
  | inr e ↦
      let (owner, r) = record_peer_total vars heap (inactive p) s.db (unfold inactive in h) in
      (
        record (s.db) {
          peer_requests =
              s.db.peer_requests ++ peer_row owner (get_timespent (inactive p)).0 (inactive p) ∷ [];
        },
        rw (e, r),
      )
]

-- An entry of the swarm while `m` is still to be met.
abbrev sieve : Vars → ℕ → Option Peer → Option Peer → Option Peer
sieve vars now none old = old
sieve vars now (some p) old = if timed_out vars now p then none else old

sweep_total :
    (vars : Vars) (heap : Heap) (now : ℕ) (m : PeerMap) (s : Sweep)
    → Distinct m
    → AllOwned vars heap m
    → (s' : Sweep) × (sweep vars heap now m s ≡ ok s')
      × ((k : Bytes) → find k s'.peers.p_map ≡ sieve vars now (find k m) (find k s.peers.p_map))
      × (s'.changed ≡ s.changed + silent vars now m)
unfolding sweep find
sweep_total vars heap now [] s d o = (s, refl, (λ k. refl), omega arith)
sweep_total vars heap now ((key, p) ∷ m) s d o = elim (Bool-cases (timed_out vars now p)) [
  | inl out ↦
      let (db, e) = expire_total vars heap key p s o.0 in
      let next : Sweep = record {
        peers = remove_key key s.peers;
        db = db;
        changed = s.changed + 1;
      } in
      let (s', run, found, count) = sweep_total vars heap now m next d.1 o.1 in
      (
        s',
        rw (out, e) run,
        λ k. ground (arith, found k, find-remove_key key k s.peers, bytes_beq_iff key k, d.0),
        ground arith,
      )
  | inr stays ↦
      let (s', run, found, count) = sweep_total vars heap now m s d.1 o.1 in
      (s', rw stays run, λ k. ground (arith, found k, bytes_beq_iff key k, d.0), ground arith)
]

-- A swarm of distinct ids whose accounts can be read: `timedOut` ends, exactly the peers that have
-- timed out are gone, every other is as it was, and the result is the number of the gone.
pub timed_out_peers_total :
    (vars : Vars) (heap : Heap) (now : ℕ) (ps : Peers) (db : Database)
    → Distinct ps.p_map
    → AllOwned vars heap ps.p_map
    → (s : Sweep) × (timed_out_peers vars heap now ps db ≡ ok s)
      × ((k : Bytes) → find k s.peers.p_map ≡ still_there vars now (find k ps.p_map))
      × (s.changed ≡ silent vars now ps.p_map)
unfolding timed_out_peers
timed_out_peers_total vars heap now ps db d o =
    let start : Sweep = record { peers = ps; db = db; changed = 0 } in
    let (s, run, found, count) = sweep_total vars heap now ps.p_map start d o in
    (s, run, (λ k. ground (arith, found k)), omega arith)

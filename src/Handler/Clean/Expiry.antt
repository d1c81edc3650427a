-- ===== src/Handler/Clean/Expiry.antt =====
-- What `clearTorrentPeers` leaves of each torrent.
use liquid.Base.{
  ℕ, ◌+◌, ◌≡◌, refl, sym, ◌∙◌, inl, inr, true, ◌&&◌, [], ◌∷◌, Option, none, some, Bytes, arith,
  ◌==◌, bytes_eq, nat_eq, bytes_beq_iff, Bool-cases, length, if◌then◌else◌,
}
use liquid.Base.Dict.{Dict, find, has, find-erase, find-modify, Distinct, Each}
use liquid.Base.Outcome.{ok}
use liquid.Config.{Vars, is_public}
use liquid.Peers.{Peers, PeerMap, size}
use liquid.Peers.TimedOut.{Sweep}
use liquid.Peers.TimedOut.Sound.{still_there, AllOwned, timed_out_peers_total}
use liquid.Torrent.{Torrent, Swarm, seeding, seeding6, leeching, leeching6, get_swarm, set_swarm}
use liquid.Database.{Database, Heap}
use liquid.Handler.{Tracker}
use liquid.Handler.Clean.{
  Pass, clear_swarm, clear_swarms, is_empty, finish_torrent, clear_each, clear_torrent_peers,
}

-- In every swarm the ids are distinct and the accounts of the peers can be read.
abbrev pub IsSound : Vars → Heap → Torrent → Type 0
IsSound vars heap tor =
    (s : Swarm) → Distinct (get_swarm s tor).p_map × AllOwned vars heap (get_swarm s tor).p_map

-- Every swarm has lost the peers that have timed out, and no other.
abbrev pub Cleared : Vars → ℕ → Torrent → Torrent → Type 0
Cleared vars now tor tor' =
    (s : Swarm) (k : Bytes)
    → find k (get_swarm s tor').p_map ≡ still_there vars now (find k (get_swarm s tor).p_map)

-- All peers of all swarms have timed out.
abbrev pub Deserted : Vars → ℕ → Torrent → Type 0
Deserted vars now tor =
    (s : Swarm) (k : Bytes) → still_there vars now (find k (get_swarm s tor).p_map) ≡ none

abbrev after_swarm : Swarm → Sweep → Pass → Pass
after_swarm swarm s p = record {
  torrent = set_swarm swarm s.peers p.torrent;
  db = s.db;
  changed = p.changed + s.changed;
}

clear_swarm_total :
    (vars : Vars) (heap : Heap) (now : ℕ) (swarm : Swarm) (p : Pass)
    → Distinct (get_swarm swarm p.torrent).p_map
    → AllOwned vars heap (get_swarm swarm p.torrent).p_map
    → (s : Sweep) × (clear_swarm vars heap now swarm p ≡ ok (after_swarm swarm s p))
      × ((k : Bytes)
          → find k s.peers.p_map ≡ still_there vars now (find k (get_swarm swarm p.torrent).p_map))
unfolding clear_swarm
clear_swarm_total vars heap now swarm p d o =
    let (s, run, found, count) =
      timed_out_peers_total vars heap now (get_swarm swarm p.torrent) p.db d o in
    (s, rw run refl, found)

four_swarms {ℓ} :
    (P : Swarm → Type ℓ) → P seeding → P seeding6 → P leeching → P leeching6 → (s : Swarm) → P s
four_swarms P a b c d seeding = a
four_swarms P a b c d seeding6 = b
four_swarms P a b c d leeching = c
four_swarms P a b c d leeching6 = d

clear_swarms_total :
    (vars : Vars) (heap : Heap) (now : ℕ) (tor : Torrent) (db : Database)
    → IsSound vars heap tor
    → (p : Pass) × (clear_swarms vars heap now tor db ≡ ok p) × Cleared vars now tor p.torrent
unfolding clear_swarms get_swarm set_swarm
clear_swarms_total vars heap now tor db sound =
    let p0 : Pass = record { torrent = tor; db = db; changed = 0 } in
    let (a, run_a, found_a) =
      clear_swarm_total vars heap now seeding p0 (sound seeding).0 (sound seeding).1 in
    let p1 : Pass = after_swarm seeding a p0 in
    let (b, run_b, found_b) =
      clear_swarm_total vars heap now seeding6 p1 (sound seeding6).0 (sound seeding6).1 in
    let p2 : Pass = after_swarm seeding6 b p1 in
    let (c, run_c, found_c) =
      clear_swarm_total vars heap now leeching p2 (sound leeching).0 (sound leeching).1 in
    let p3 : Pass = after_swarm leeching c p2 in
    let (d, run_d, found_d) =
      clear_swarm_total vars heap now leeching6 p3 (sound leeching6).0 (sound leeching6).1 in
    (
      after_swarm leeching6 d p3,
      rw run_a (rw run_b (rw run_c run_d)),
      four_swarms
          (λ s.
            (k : Bytes)
            → find k (get_swarm s (after_swarm leeching6 d p3).torrent).p_map
              ≡ still_there vars now (find k (get_swarm s tor).p_map))
          found_a found_b found_c found_d,
    )

finish-find :
    (vars : Vars) (info_hash h : Bytes) (p : Pass) (t : Tracker)
    → (find h (finish_torrent vars info_hash p t).tor_map ≡ (
        if info_hash == h
        then (if is_public vars && is_empty p.torrent
            then none
            else (if has (find h t.tor_map) then some p.torrent else none))
        else find h t.tor_map))
      × ((finish_torrent vars info_hash p t).heap ≡ t.heap)
unfolding finish_torrent
finish-find vars info_hash h p t = (
  ground
      (arith, find-erase info_hash h t.tor_map, find-modify info_hash h (λ _. p.torrent) t.tor_map),
  ground arith,
)

-- What the sweep makes of one entry: `old` is what the map of torrents held, `new` what it holds.
-- A torrent that goes is one of a public tracker, and all its peers have timed out.
abbrev pub Swept : Vars → ℕ → Option Torrent → Option Torrent → Option Torrent → Type 0
Swept vars now none old new = new ≡ old
Swept vars now (some tor) old none = (is_public vars ≡ true) × Deserted vars now tor
Swept vars now (some tor) old (some tor') = Cleared vars now tor tor'

-- The torrents that a loop is still to meet.
abbrev pub AllSound : Vars → Heap → Dict Bytes Torrent → Type 0
AllSound vars heap m = Each (IsSound vars heap) m

find_of_size : (k : Bytes) (ps : Peers) → size ps ≡ 0 → find k ps.p_map ≡ none
unfolding size
find_of_size k ps h = nothing ps.p_map h
  where
    nothing : (m : PeerMap) → length m ≡ 0 → find k m ≡ none
    nothing [] e = unfold find in refl
    nothing (entry ∷ m) e = absurd (omega arith)

find-is_empty :
    (tor : Torrent) (s : Swarm) (k : Bytes)
    → is_empty tor ≡ true
    → find k (get_swarm s tor).p_map ≡ none
unfolding get_swarm
find-is_empty tor seeding k h = find_of_size k tor.seeders (ground arith)
find-is_empty tor seeding6 k h = find_of_size k tor.seeders6 (ground arith)
find-is_empty tor leeching k h = find_of_size k tor.leechers (ground arith)
find-is_empty tor leeching6 k h = find_of_size k tor.leechers6 (ground arith)

Swept-finish_torrent :
    (vars : Vars) (now : ℕ) (info_hash h : Bytes) (tor : Torrent) (p : Pass)
    (rest : Dict Bytes Torrent) (t : Tracker) (new : Option Torrent)
    → Cleared vars now tor p.torrent
    → find info_hash rest ≡ none
    → has (find info_hash t.tor_map) ≡ true
    → Swept vars now (find h rest) (find h (finish_torrent vars info_hash p t).tor_map) new
    → Swept vars now (if info_hash == h then some tor else find h rest) (find h t.tor_map) new
Swept-finish_torrent vars now info_hash h tor p rest t new cleared absent present swept =
    elim (Bool-cases (info_hash == h)) [
      | inl same ↦
          let e : info_hash ≡ h = (bytes_beq_iff info_hash h).0 same in
          let gone : find h rest ≡ none = rw (← e) absent in
          let after = (finish-find vars info_hash h p t).0 in
          rw same (elim (Bool-cases (is_public vars && is_empty p.torrent)) [
            | inl empty ↦
                let q : new ≡ none = rw gone at swept ∙ rw (after, same, empty) in
                rw q (
                  ground arith,
                  λ s k. sym (cleared s k) ∙ find-is_empty p.torrent s k (ground arith),
                )
            | inr full ↦
                let present' : has (find h t.tor_map) ≡ true = rw (← e) present in
                let q : new ≡ some p.torrent =
                  rw gone at swept ∙ rw (after, same, full, present') in
                rw q cleared
          ])
      | inr other ↦
          let after = (finish-find vars info_hash h p t).0 in rw other (rw (after, other) at swept)
    ]

still_has :
    (vars : Vars) (info_hash h : Bytes) (p : Pass) (rest : Dict Bytes Torrent) (t : Tracker)
    → find info_hash rest ≡ none
    → has (find h rest) ≡ true
    → has (find h t.tor_map) ≡ true
    → has (find h (finish_torrent vars info_hash p t).tor_map) ≡ true
still_has vars info_hash h p rest t absent q r =
    ground (arith, (finish-find vars info_hash h p t).0, bytes_beq_iff info_hash h)

clear_each_total :
    (vars : Vars) (now : ℕ) (rest : Dict Bytes Torrent) (t : Tracker)
    → Distinct rest
    → AllSound vars t.heap rest
    → ((h : Bytes) → has (find h rest) ≡ true → has (find h t.tor_map) ≡ true)
    → (t' : Tracker) × (clear_each vars now rest t ≡ ok t')
      × ((h : Bytes) → Swept vars now (find h rest) (find h t.tor_map) (find h t'.tor_map))
unfolding clear_each find
clear_each_total vars now [] t d s i = (t, refl, λ h. refl)
clear_each_total vars now ((info_hash, tor) ∷ rest) t d s i =
    let (p, run, cleared) = clear_swarms_total vars t.heap now tor t.db s.0 in
    let next : Tracker = finish_torrent vars info_hash p t in
    let kept : next.heap ≡ t.heap = (finish-find vars info_hash info_hash p t).1 in
    let inside : (h : Bytes) → has (find h rest) ≡ true → has (find h next.tor_map) ≡ true =
      λ h q. still_has vars info_hash h p rest t d.0 q (i h (ground arith)) in
    let present : has (find info_hash t.tor_map) ≡ true =
      i info_hash (ground (arith, bytes_beq_iff info_hash info_hash)) in
    let (t', more, swept) = clear_each_total vars now rest next d.1 (rw kept s.1) inside in
    (
      t',
      rw run more,
      λ h.
          Swept-finish_torrent vars now info_hash h tor p rest t (find h t'.tor_map) cleared d.0
            present (swept h),
    )

-- A pass over a tracker whose info hashes and peer ids are distinct, and whose peers' accounts can be
-- read, ends. It takes from every swarm of every torrent exactly the peers that have timed out;
-- only a public tracker drops torrents, and only those that are left with no peer; no torrent is new.
pub clear_torrent_peers_total :
    (vars : Vars) (now : ℕ) (t : Tracker)
    → Distinct t.tor_map
    → AllSound vars t.heap t.tor_map
    → (t' : Tracker) × (clear_torrent_peers vars now t ≡ ok t')
      × ((h : Bytes) → Swept vars now (find h t.tor_map) (find h t.tor_map) (find h t'.tor_map))
unfolding clear_torrent_peers
clear_torrent_peers_total vars now t d s = clear_each_total vars now t.tor_map t d s (λ h q. q)

-- ===== src/Handler/Announce/Depart.antt =====
-- How a peer leaves a torrent.
use liquid.Base.{
  ◌≡◌, refl, sym, ◌∙◌, inl, inr, Bool, true, false, not, none, some, Bytes, ◌==◌, ◌!=◌, bytes_eq,
  bytes_beq, bytes_beq_iff, Bool-cases, if◌then◌else◌,
}
use liquid.Base.Dict.{find, find-erase}
use liquid.Base.Outcome.{ok}
use liquid.Base.Text.{codes}
use liquid.Platform.{Platform, Env}
use liquid.Config.{Vars, is_public}
use liquid.Peers.{Request, Peers, get_peer, remove_peer, remove_key}
use liquid.Torrent.{Torrent, Swarm, seeding, seeding6, leeching, leeching6, get_swarm, set_swarm}
use liquid.Stats.{dec_peers}
use liquid.Database.{record_torrent}
use liquid.Handler.Announce.{Work, leechers_of, seeders_of, leave, depart}

-- The peer `id` of one swarm is gone, and every other peer is as it was, in each of the swarms.
abbrev pub OnlyLeft : Swarm → Bytes → Torrent → Torrent → Type 0
OnlyLeft swarm id before after =
    (get_peer id (get_swarm swarm after) ≡ none)
    × ((s : Swarm) (j : Bytes)
        → (s ≡ swarm → j ≡ id → ⊥)
        → get_peer j (get_swarm s after) ≡ get_peer j (get_swarm s before))

gone : (id : Bytes) (ps : Peers) → get_peer id (remove_key id ps) ≡ none
unfolding get_peer remove_key
gone id ps = find-erase id id ps.p_map ∙ rw ((bytes_beq_iff id id).1 refl) refl

kept : (id j : Bytes) (ps : Peers) → (j ≡ id → ⊥) → get_peer j (remove_key id ps) ≡ get_peer j ps
unfolding get_peer remove_key
kept id j ps ne = elim (Bool-cases (id == j)) [
  | inl same ↦ absurd (ne (sym ((bytes_beq_iff id j).0 same)))
  | inr other ↦ find-erase id j ps.p_map ∙ rw other refl
]

remove_key-OnlyLeft :
    (swarm : Swarm) (id : Bytes) (tor : Torrent)
    → OnlyLeft swarm id tor (set_swarm swarm (remove_key id (get_swarm swarm tor)) tor)
unfolding get_peer get_swarm set_swarm remove_key
remove_key-OnlyLeft seeding id tor = (
  gone id tor.seeders,
  λ s.
      elim s
        as (λ k.
          (j : Bytes)
          → (k ≡ seeding → j ≡ id → ⊥)
          → get_peer j (get_swarm k (set_swarm seeding (remove_key id (get_swarm seeding tor)) tor))
            ≡ get_peer j (get_swarm k tor)) [
              | seeding ↦ λ j ne. kept id j tor.seeders (ne refl)
              | seeding6 ↦ λ j ne. refl
              | leeching ↦ λ j ne. refl
              | leeching6 ↦ λ j ne. refl
            ],
)
remove_key-OnlyLeft seeding6 id tor = (
  gone id tor.seeders6,
  λ s.
      elim s
        as (λ k.
          (j : Bytes)
          → (k ≡ seeding6 → j ≡ id → ⊥)
          → get_peer j
              (get_swarm k (set_swarm seeding6 (remove_key id (get_swarm seeding6 tor)) tor))
            ≡ get_peer j (get_swarm k tor)) [
              | seeding ↦ λ j ne. refl
              | seeding6 ↦ λ j ne. kept id j tor.seeders6 (ne refl)
              | leeching ↦ λ j ne. refl
              | leeching6 ↦ λ j ne. refl
            ],
)
remove_key-OnlyLeft leeching id tor = (
  gone id tor.leechers,
  λ s.
      elim s
        as (λ k.
          (j : Bytes)
          → (k ≡ leeching → j ≡ id → ⊥)
          → get_peer j
              (get_swarm k (set_swarm leeching (remove_key id (get_swarm leeching tor)) tor))
            ≡ get_peer j (get_swarm k tor)) [
              | seeding ↦ λ j ne. refl
              | seeding6 ↦ λ j ne. refl
              | leeching ↦ λ j ne. kept id j tor.leechers (ne refl)
              | leeching6 ↦ λ j ne. refl
            ],
)
remove_key-OnlyLeft leeching6 id tor = (
  gone id tor.leechers6,
  λ s.
      elim s
        as (λ k.
          (j : Bytes)
          → (k ≡ leeching6 → j ≡ id → ⊥)
          → get_peer j
              (get_swarm k (set_swarm leeching6 (remove_key id (get_swarm leeching6 tor)) tor))
            ≡ get_peer j (get_swarm k tor)) [
              | seeding ↦ λ j ne. refl
              | seeding6 ↦ λ j ne. refl
              | leeching ↦ λ j ne. refl
              | leeching6 ↦ λ j ne. kept id j tor.leechers6 (ne refl)
            ],
)

-- `w` after the peer has left a swarm, and after the torrent is written to the database.
abbrev left_from : Swarm → Bytes → Work → Work
left_from swarm id w = record w {
  tracker = record (w.tracker) { stats = dec_peers w.tracker.stats };
  torrent = set_swarm swarm (remove_key id (get_swarm swarm w.torrent)) w.torrent;
}

abbrev logged : Vars → Work → Work
logged vars w =
    if is_public vars
    then w
    else record w { tracker = record (w.tracker) { db = record_torrent w.torrent w.tracker.db } }

logged_torrent : (vars : Vars) (w : Work) → (logged vars w).torrent ≡ w.torrent
logged_torrent vars w = elim (Bool-cases (is_public vars)) [ inl y ↦ rw y refl | inr n ↦ rw n refl ]

logged-OnlyLeft :
    (vars : Vars) (swarm : Swarm) (id : Bytes) (w : Work)
    → OnlyLeft swarm id w.torrent (logged vars (left_from swarm id w)).torrent
logged-OnlyLeft vars swarm id w =
    rw (logged_torrent vars (left_from swarm id w)) (remove_key-OnlyLeft swarm id w.torrent)

other_family : (ipv6 : Bool) → leechers_of ipv6 ≡ leechers_of (not ipv6) → ⊥
other_family true h = cc
other_family false h = cc

module _ (os : Platform) (env : Env) (vars : Vars) (req : Request) (ipv6 : Bool) where
  -- A request with the event `stopped`, `left` and a peer id: the stage of the announce at which
  -- peers leave ends, and takes the peer out of one swarm of the family of the request's address: the
  -- leechers if `left` is not 0, else the seeders. Every other entry of the four swarms stays, also
  -- one of the same peer in another of them.
  pub depart-stopped :
      (w : Work) (left id : Bytes)
      → find (codes "event") req ≡ some (codes "stopped")
      → find (codes "left") req ≡ some left
      → find (codes "peer_id") req ≡ some id
      → (w' : Work) × (depart os env vars req ipv6 w ≡ ok w')
        × OnlyLeft
            (if left != codes "0" then leechers_of ipv6 else seeders_of ipv6)
            id
            w.torrent
            w'.torrent
  unfolding depart leave remove_peer bytes_beq
  depart-stopped w left id e l i =
      let swarm = if left != codes "0" then leechers_of ipv6 else seeders_of ipv6 in
      (logged vars (left_from swarm id w), rw (e, l, i) refl, logged-OnlyLeft vars swarm id w)

  -- A request with the event `completed`, `left` and a peer id: the stage of the announce at which
  -- peers leave ends, and takes the peer out of the leechers of the other family of addresses, and
  -- out of no other swarm; an entry among the leechers of its own family stays.
  pub depart-completed :
      (w : Work) (left id : Bytes)
      → find (codes "event") req ≡ some (codes "completed")
      → find (codes "left") req ≡ some left
      → find (codes "peer_id") req ≡ some id
      → (w' : Work) × (depart os env vars req ipv6 w ≡ ok w')
        × OnlyLeft (leechers_of (not ipv6)) id w.torrent w'.torrent
        × (get_peer id (get_swarm (leechers_of ipv6) w'.torrent)
            ≡ get_peer id (get_swarm (leechers_of ipv6) w.torrent))
  unfolding depart leave remove_peer bytes_beq
  depart-completed w left id e l i =
      let swarm = leechers_of (not ipv6) in
      let only = logged-OnlyLeft vars swarm id w in
      (
        logged vars (left_from swarm id w),
        rw (e, l, i) refl,
        only,
        only.1 (leechers_of ipv6) id (λ same _. other_family ipv6 same),
      )

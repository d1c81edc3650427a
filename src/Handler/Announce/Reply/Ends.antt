-- ===== src/Handler/Announce/Reply/Ends.antt =====
-- The reply of an announce ends where the iterators that it moves are not dangling.
use liquid.Base.{
  ℕ, zero, suc, ◌≡◌, refl, Bool, true, false, Option, none, some, [], Bytes, arith, ◌==◌, bytes_eq,
  if◌then◌else◌, Option-cases, not, ◌||◌, inl, inr,
}
use liquid.Base.Dict.{find, has}
use liquid.Base.Int.{ℤ, pos, pos_part, ltb_ℤ}
use liquid.Base.Outcome.{ok, Gives, Gives-ok, Gives-bind, Gives-after, Gives-if}
use liquid.Base.Text.{codes}
use liquid.Config.{Vars}
use liquid.Peer.{Peer}
use liquid.Peers.{Request, at, Peers, next_peer}
use liquid.Peers.Rotates.{Rotates, next_peer-Rotates}
use liquid.Torrent.{Torrent, Swarm, get_swarm, set_swarm}
use liquid.Handler.Announce.Total.{Any, set_swarm-each}
use liquid.Handler.Announce.Reply.{
  collect, get_peers, counts, list_swarm, reply, wants_gzip, is_compact, share,
}

-- The iterator of no swarm is dangling.
abbrev pub AllRotate : Torrent → Type 0
AllRotate tor = (s : Swarm) → Rotates (get_swarm s tor)

pub set_swarm-AllRotate :
    (s : Swarm) (ps : Peers) (tor : Torrent)
    → Rotates ps
    → AllRotate tor
    → AllRotate (set_swarm s ps tor)
set_swarm-AllRotate = set_swarm-each (λ _ ps. Rotates ps)

collect-Rotates :
    (compact : Bool) (n : ℕ) (ps : Peers)
    → Rotates ps
    → Gives (λ (r : Bytes × Peers). Rotates r.1) (collect compact n ps)
unfolding collect
collect-Rotates compact zero ps r = Gives-ok (λ (r : Bytes × Peers). Rotates r.1) _ r
collect-Rotates compact (suc n) ps r =
    let Q : Bytes × Peers → Type 0 = λ r. Rotates r.1 in
    Gives-bind (λ (r : Option Peer × Peers). Rotates r.1) Q (next_peer ps) _
      (next_peer-Rotates ps r)
      λ (p, ps1) r1.
        Gives-bind Q Q (collect compact n ps1) _ (collect-Rotates compact n ps1 r1)
          λ (rest, ps2) r2. Gives-ok Q _ r2

get_peers-Rotates :
    (ps : Peers) (n : ℤ) (ipv6 compact : Bool)
    → Rotates ps
    → Gives (λ (r : Bytes × Peers). Rotates r.1) (get_peers ps n ipv6 compact)
unfolding get_peers
get_peers-Rotates ps n ipv6 true r =
    let Q : Bytes × Peers → Type 0 = λ r. Rotates r.1 in
    Gives-bind Q Q (collect true (pos_part n) ps) _ (collect-Rotates true (pos_part n) ps r)
      λ a r1. Gives-ok Q _ r1
get_peers-Rotates ps n ipv6 false r =
    let Q : Bytes × Peers → Type 0 = λ r. Rotates r.1 in
    Gives-bind Q Q (collect false (pos_part n) ps) _ (collect-Rotates false (pos_part n) ps r)
      λ a r1. Gives-ok Q _ r1

module _ (vars : Vars) (req : Request) (ipv6 : Bool) where
  list_swarm-AllRotate :
      (s : Option Swarm) (n : ℤ) (six : Bool) (tor : Torrent)
      → has s ≡ true
      → AllRotate tor
      → Gives (λ (r : Bytes × Torrent). AllRotate r.1) (list_swarm vars req ipv6 s n six tor)
  unfolding list_swarm
  list_swarm-AllRotate none n six tor h a = cc
  list_swarm-AllRotate (some s) n six tor h a =
      let compact = is_compact (find (codes "compact") req) in
      Gives-bind (λ (r : Bytes × Peers). Rotates r.1) (λ (r : Bytes × Torrent). AllRotate r.1)
        (get_peers (get_swarm s tor) n six compact) _
        (get_peers-Rotates (get_swarm s tor) n six compact (a s))
        λ (text, ps) r.
          Gives-ok (λ (r : Bytes × Torrent). AllRotate r.1) _ (set_swarm-AllRotate s ps tor r a)

  wants_gzip-Gives : (i j : ℤ) → Gives Any (wants_gzip vars req ipv6 i j)
  wants_gzip-Gives i j = elim (Option-cases (find (codes "accept-encoding") req)) [
    | inl e ↦ rw e (Gives-ok Any _ tt)
    | inr (v, e) ↦ rw e (Gives-ok Any _ tt)
  ]

-- The pointers to the swarms that the reply lists are not null.
abbrev pub Listed : Bool → Option Swarm → Option Swarm → Type 0
Listed ipv6 peers peers6 = (has peers ≡ true) × ((not ipv6 || has peers6) ≡ true)

-- Peers of IPv6 are counted for a client of IPv6 alone.
abbrev Shared : Bool → ℤ × ℤ → Type 0
Shared ipv6 r = (not (ltb_ℤ (pos 0) r.1) || ipv6) ≡ true

counts-Shared :
    (vars : Vars) (req : Request) (ipv6 : Bool) (tor : Torrent) (peers peers6 : Option Swarm)
    (event : Bytes)
    → at req (codes "event") ≡ ok event
    → Listed ipv6 peers peers6
    → Gives (Shared ipv6) (counts vars req ipv6 tor peers peers6)
unfolding counts share
counts-Shared vars req ipv6 tor none peers6 event e h = absurd (cc)
counts-Shared vars req true tor (some s) none event e h = absurd (cc)
counts-Shared vars req true tor (some s) (some s6) event e h =
    Gives-after (Shared true) (at req (codes "event")) _ event e (
      Gives-if (Shared true) (event == codes "stopped") (λ _. Gives-ok (Shared true) _ refl)
        (λ _. Gives-ok (Shared true) _ (ground arith)))
counts-Shared vars req false tor (some s) peers6 event e h =
    Gives-after (Shared false) (at req (codes "event")) _ event e (
      Gives-if (Shared false) (event == codes "stopped") (λ _. Gives-ok (Shared false) _ refl)
        (λ _. Gives-ok (Shared false) _ refl))

-- ?
pub reply-Gives :
    (vars : Vars) (req : Request) (ipv6 : Bool) (tor : Torrent) (peers peers6 : Option Swarm)
    (event : Bytes)
    → at req (codes "event") ≡ ok event
    → Listed ipv6 peers peers6
    → AllRotate tor
    → Gives (λ (r : Bytes × Torrent). AllRotate r.1) (reply vars req ipv6 tor peers peers6)
unfolding reply
reply-Gives vars req ipv6 tor peers peers6 event e h a =
    let Q : Bytes × Torrent → Type 0 = λ r. AllRotate r.1 in
    Gives-bind (Shared ipv6) Q (counts vars req ipv6 tor peers peers6) _
      (counts-Shared vars req ipv6 tor peers peers6 event e h)
      λ (i, j) shared.
        Gives-bind Q Q
          (if ltb_ℤ (pos 0) j then list_swarm vars req ipv6 peers6 j true tor else ok ([], tor)) _
          (Gives-if Q (ltb_ℤ (pos 0) j)
            (λ some_there.
              list_swarm-AllRotate vars req ipv6 peers6 j true tor (ground (arith, shared, h.1)) a)
            (λ _. Gives-ok Q _ a))
          λ (text6, tor6) a6.
            Gives-bind Q Q (list_swarm vars req ipv6 peers i false tor6) _
              (list_swarm-AllRotate vars req ipv6 peers i false tor6 h.0 a6)
              λ r a4.
                Gives-bind Any Q (wants_gzip vars req ipv6 i j) _
                  (wants_gzip-Gives vars req ipv6 i j) λ gzip _. Gives-ok Q _ a4

-- The reply to a client that stops lists no peer, and moves no iterator.
pub reply_stopped-Gives :
    (vars : Vars) (req : Request) (ipv6 : Bool) (tor : Torrent) (peers peers6 : Option Swarm)
    (event : Bytes)
    → at req (codes "event") ≡ ok event
    → (event == codes "stopped") ≡ true
    → Listed ipv6 peers peers6
    → Gives Any (reply vars req ipv6 tor peers peers6)
unfolding reply counts list_swarm get_peers collect
reply_stopped-Gives vars req ipv6 tor none peers6 event e stopped h = absurd (cc)
reply_stopped-Gives vars req ipv6 tor (some s) peers6 event e stopped h =
    rw (e, stopped)
      (Gives-bind Any Any (wants_gzip vars req ipv6 (pos 0) (pos 0)) _
        (wants_gzip-Gives vars req ipv6 (pos 0) (pos 0)) λ gzip _. Gives-ok Any _ tt)

-- ===== src/Handler/Announce/Reply/Kept.antt =====
-- A reply moves iterators and changes nothing else.
use liquid.Base.{ℕ, zero, suc, ◌∙◌, refl, Bool, true, false, Option, Bytes, if◌then◌else◌, []}
use liquid.Base.Int.{ℤ, pos, pos_part, ltb_ℤ}
use liquid.Base.Outcome.{ok, Ends, Ends-ok, Ends-bind, Ends-after, Ends-if}
use liquid.Config.{Vars}
use liquid.Peers.{Request, Peers, next_peer}
use liquid.Peers.Kept.{SamePeers, next_peer-SamePeers}
use liquid.Torrent.{Torrent, Swarm, get_swarm}
use liquid.Database.{Heap}
use liquid.Handler.Clean.Expiry.{IsSound}
use liquid.Handler.Valid.{IsSound-set_swarm}
use liquid.Handler.Announce.Reply.{
  collect, get_peers, counts, list_swarm, reply, swarm_of, wants_gzip,
}

collect-SamePeers :
    (compact : Bool) (n : ℕ) (ps : Peers) → Ends (SamePeers ps) (collect compact n ps)
unfolding collect
collect-SamePeers compact zero ps r e = Ends-ok (SamePeers ps) _ refl r e
collect-SamePeers compact (suc n) ps r e =
    Ends-bind (SamePeers ps) (SamePeers ps) (next_peer ps) _ (next_peer-SamePeers ps)
      (λ s same.
        Ends-bind (SamePeers s.1) (SamePeers ps) (collect compact n s.1) _
          (collect-SamePeers compact n s.1) λ u same'. Ends-ok (SamePeers ps) _ (same' ∙ same))
      r e

get_peers-SamePeers :
    (ps : Peers) (n : ℤ) (ipv6 compact : Bool) → Ends (SamePeers ps) (get_peers ps n ipv6 compact)
unfolding get_peers
get_peers-SamePeers ps n ipv6 true r e =
    Ends-bind (SamePeers ps) (SamePeers ps) (collect true (pos_part n) ps) _
      (collect-SamePeers true (pos_part n) ps) (λ a same. Ends-ok (SamePeers ps) _ same) r e
get_peers-SamePeers ps n ipv6 false r e =
    Ends-bind (SamePeers ps) (SamePeers ps) (collect false (pos_part n) ps) _
      (collect-SamePeers false (pos_part n) ps) (λ a same. Ends-ok (SamePeers ps) _ same) r e

module _ (vars : Vars) (heap : Heap) (req : Request) (ipv6 : Bool) where
  SoundBeside : Bytes × Torrent → Type 0
  SoundBeside r = IsSound vars heap r.1

  list_swarm-IsSound :
      (s : Option Swarm) (n : ℤ) (six : Bool) (tor : Torrent)
      → IsSound vars heap tor
      → Ends SoundBeside (list_swarm vars req ipv6 s n six tor)
  unfolding list_swarm SoundBeside
  list_swarm-IsSound s n six tor h = Ends-after SoundBeside (swarm_of s) _ λ s.
      Ends-bind (SamePeers (get_swarm s tor)) SoundBeside (get_peers (get_swarm s tor) n six _) _
        (get_peers-SamePeers (get_swarm s tor) n six _)
        λ r same.
          Ends-ok SoundBeside _
            (IsSound-set_swarm vars heap s r.1 tor (rw same ((h s).0)) (rw same ((h s).1)) h)

  pub reply-IsSound :
      (tor : Torrent) (peers peers6 : Option Swarm)
      → IsSound vars heap tor
      → Ends (λ (r : Bytes × Torrent). IsSound vars heap r.1) (reply vars req ipv6 tor peers peers6)
  unfolding reply SoundBeside
  reply-IsSound tor peers peers6 h =
      Ends-after SoundBeside (counts vars req ipv6 tor peers peers6) _ λ (i, j).
        Ends-bind SoundBeside SoundBeside
          (if ltb_ℤ (pos 0) j then list_swarm vars req ipv6 peers6 j true tor else ok ([], tor)) _
          (Ends-if SoundBeside (ltb_ℤ (pos 0) j) (list_swarm-IsSound peers6 j true tor h)
            (Ends-ok SoundBeside _ h))
          λ a ha.
            Ends-bind SoundBeside SoundBeside (list_swarm vars req ipv6 peers i false a.1) _
              (list_swarm-IsSound peers i false a.1 ha)
              λ b hb.
                Ends-after SoundBeside (wants_gzip vars req ipv6 i j) _
                  λ gzip. Ends-ok SoundBeside _ hb

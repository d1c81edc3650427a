-- ===== src/Peer/Credit.antt =====
-- What the announces of a peer charge it for, one after the other.
use liquid.Base.{ℕ, ◌-◌, ◌<◌, ◌≤◌, ◌≡◌, List, [], ◌∷◌, arith, ◌==◌, nat_eq, if◌then◌else◌}
use liquid.Base.Words.{u64, add64, sub64}
use liquid.Peer.{Peer, update_stats}
use liquid.Handler.Announce.{charged}

-- The numbers of one announce.
pub record Report : Type 0 where
  pub downloaded : ℕ
  pub uploaded : ℕ
  pub left : ℕ
  pub corrupt : ℕ
  pub now : ℕ

abbrev pub apply : Report → Peer → Peer
apply r = update_stats r.downloaded r.uploaded r.left r.corrupt r.now

abbrev pub AllSmall : List Report → Type 0
AllSmall [] = Unit {0}
AllSmall (r ∷ rs) = (r.downloaded < u64) × (r.uploaded < u64) × AllSmall rs

-- The peer after all the announces, and the sums of what each one charged.
abbrev pub final : List Report → Peer → Peer
final [] p = p
final (r ∷ rs) p = final rs (apply r p)

abbrev pub sum_downloaded : List Report → Peer → ℕ
sum_downloaded [] p = 0
sum_downloaded (r ∷ rs) p = add64 (apply r p).downloaded (sum_downloaded rs (apply r p))

abbrev pub sum_uploaded : List Report → Peer → ℕ
sum_uploaded [] p = 0
sum_uploaded (r ∷ rs) p = add64 (apply r p).uploaded (sum_uploaded rs (apply r p))

telescope :
    (total reported later end : ℕ)
    → total < u64
    → reported < u64
    → add64 reported later ≡ end
    → add64 total (add64 (sub64 reported total) later) ≡ end
unfolding add64 sub64
telescope total reported later end a b h = omega arith

-- Running totals and reports of 64 bits, the reports in any order and with resets: the amounts
-- that the announces of a peer charge add up, modulo 2^64, to the change of its running totals,
-- downloaded and uploaded.
pub sum-update_stats :
    (rs : List Report) (p : Peer)
    → p.total_downloaded < u64
    → p.total_uploaded < u64
    → AllSmall rs
    → (add64 p.total_downloaded (sum_downloaded rs p) ≡ (final rs p).total_downloaded)
      × (add64 p.total_uploaded (sum_uploaded rs p) ≡ (final rs p).total_uploaded)
unfolding update_stats
sum-update_stats [] p d u a = (unfold add64 in omega arith, unfold add64 in omega arith)
sum-update_stats (r ∷ rs) p d u (a, b, c) =
    let (hd, hu) = sum-update_stats rs (apply r p) a b c in
    (
      telescope p.total_downloaded r.downloaded _ _ d a hd,
      telescope p.total_uploaded r.uploaded _ _ u b hu,
    )

-- A peer that had reported some bytes announces more on a torrent that is free by 100 percent at
-- most: below 100 it is charged as if nothing were free; at 100, for 2^64 less the bytes it had
-- reported.
pub charged-update_stats :
    (free downloaded uploaded left corrupt now : ℕ) (p : Peer)
    → free ≤ 100
    → downloaded < u64
    → 0 < p.total_downloaded
    → p.total_downloaded < u64
    → (update_stats (charged free downloaded) uploaded left corrupt now p).downloaded
      ≡ (if free == 100 then u64 - p.total_downloaded else sub64 downloaded p.total_downloaded)
unfolding update_stats sub64
charged-update_stats free downloaded uploaded left corrupt now p a b c d = ground arith

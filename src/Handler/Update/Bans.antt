-- ===== src/Handler/Update/Bans.antt =====
-- Ranges of banned addresses.
use liquid.Base.{
  ℕ, zero, suc, ◌+◌, ◌-◌, ◌%◌, ◌<◌, ◌≡◌, refl, ◌≢◌, inl, inr, Bool, Bytes, arith, ◌==◌, ◌||◌, ◌&&◌,
  not, leb, nat_eq, bytes_eq, Bool-cases, bytes_beq_iff,
}
use liquid.Base.Dict.{find, emplace, erase, has, find-emplace, find-erase}
use liquid.Base.Words.{u32}
use liquid.User.{Texts}
use liquid.Platform.{Platform}
use liquid.Utility.{long2ip}
use liquid.Handler.Update.{ban_range, unban_range, range_size}

-- Whether an address is that of one of `n + 1` numbers from `from` on, which wrap at 2^32.
pub in_range : Platform → ℕ → ℕ → Bytes → Bool
in_range os zero from ip = long2ip os from == ip
in_range os (suc n) from ip = (long2ip os from == ip) || in_range os n ((from + 1) % u32) ip

-- How far it is from one number up to another.
abbrev pub distance : ℕ → ℕ → ℕ
distance from to = (to + (u32 - from)) % u32

distance_next :
    (from to n : ℕ)
    → from < u32
    → to < u32
    → from ≢ to
    → distance from to ≡ n
    → (n ≢ 0) × (distance ((from + 1) % u32) to ≡ n - 1) × ((from + 1) % u32 < u32)
distance_next from to n h k ne e = (omega arith, omega arith, omega arith)

distance_self : (from : ℕ) → from < u32 → distance from from ≡ 0
distance_self from h = omega arith

in_range_next :
    (os : Platform) (n from : ℕ) (ip : Bytes)
    → n ≢ 0
    → in_range os n from ip ≡ ((long2ip os from == ip) || in_range os (n - 1) ((from + 1) % u32) ip)
unfolding in_range
in_range_next os zero from ip h = absurd (h refl)
in_range_next os (suc n) from ip h = let e : suc n - 1 ≡ n = omega arith in rw e

-- One round of either loop, as a lookup sees it.
has-emplace :
    (a ip : Bytes) (banned : Texts)
    → has (find ip (emplace a tt banned)) ≡ ((a == ip) || has (find ip banned))
has-emplace a ip banned = ground (arith, find-emplace a ip tt banned, bytes_beq_iff a ip)

has-erase :
    (a ip : Bytes) (banned : Texts)
    → has (find ip (erase a banned)) ≡ (not (a == ip) && has (find ip banned))
has-erase a ip banned = ground (arith, find-erase a ip banned, bytes_beq_iff a ip)

module _ (os : Platform) (to : ℕ) (to_fits : to < u32) (ip : Bytes) where
  ban_range-from :
      (f n from : ℕ) (banned : Texts)
      → n < f
      → from < u32
      → distance from to ≡ n
      → has (find ip (ban_range os f from to banned))
        ≡ (in_range os n from ip || has (find ip banned))
  unfolding ban_range in_range
  ban_range-from zero n from banned lt h e = elim lt [ ]
  ban_range-from (suc f) n from banned lt h e = elim (Bool-cases (from == to)) [
    | inl same ↦
        let p : from ≡ to = ground arith in
        let z : n ≡ 0 = omega arith in
        rw z (ground (arith, has-emplace (long2ip os from) ip banned))
    | inr more ↦
        let (nz, d, fits) = distance_next from to n h to_fits (ground arith) e in
        ground (
          arith,
          in_range_next os n from ip nz,
          has-emplace (long2ip os from) ip banned,
          ban_range-from f (n - 1) ((from + 1) % u32) (emplace (long2ip os from) tt banned)
              (omega arith) fits d,
        )
  ]

  unban_range-from :
      (f n from : ℕ) (banned : Texts)
      → n < f
      → from < u32
      → distance from to ≡ n
      → has (find ip (unban_range os f from to banned))
        ≡ (not (in_range os n from ip) && has (find ip banned))
  unfolding unban_range in_range
  unban_range-from zero n from banned lt h e = elim lt [ ]
  unban_range-from (suc f) n from banned lt h e = elim (Bool-cases (from == to)) [
    | inl same ↦
        let p : from ≡ to = ground arith in
        let z : n ≡ 0 = omega arith in rw z (ground (arith, has-erase (long2ip os from) ip banned))
    | inr more ↦
        let (nz, d, fits) = distance_next from to n h to_fits (ground arith) e in
        ground (
          arith,
          in_range_next os n from ip nz,
          has-erase (long2ip os from) ip banned,
          unban_range-from f (n - 1) ((from + 1) % u32) (erase (long2ip os from) banned)
              (omega arith) fits d,
        )
  ]

-- What inet_ntoa(3) documents: different addresses are written differently.
abbrev pub IsInjective : Platform → Type 0
IsInjective os = (a b : ℕ) → a < u32 → b < u32 → long2ip os a ≡ long2ip os b → a ≡ b

in_range-distance :
    (os : Platform) (n from m : ℕ)
    → IsInjective os
    → from < u32
    → m < u32
    → n < u32
    → in_range os n from (long2ip os m) ≡ leb (distance from m) n
unfolding in_range
in_range-distance os zero from m inj h k l = elim (Bool-cases (from == m)) [
  | inl same ↦
      let p : from ≡ m = ground arith in
      rw p (ground (arith, distance_self m k, bytes_beq_iff (long2ip os m) (long2ip os m)))
  | inr other ↦
      let ne : from ≢ m = ground arith in
      let (far, _, _) = distance_next from m (distance from m) h k ne refl in
      ground (arith, bytes_beq_iff (long2ip os from) (long2ip os m), inj from m h k)
]
in_range-distance os (suc n) from m inj h k l = elim (Bool-cases (from == m)) [
  | inl same ↦
      let p : from ≡ m = ground arith in
      rw p (ground (arith, distance_self m k, bytes_beq_iff (long2ip os m) (long2ip os m)))
  | inr other ↦
      let ne : from ≢ m = ground arith in
      let (far, near, fits) = distance_next from m (distance from m) h k ne refl in
      ground (
        arith,
        bytes_beq_iff (long2ip os from) (long2ip os m),
        inj from m h k,
        in_range-distance os n ((from + 1) % u32) m inj fits k (omega arith),
      )
]

module _ (os : Platform) (inj : IsInjective os) (from to m : ℕ) (banned : Texts) where
  -- If inet_ntoa writes different addresses differently: after the loop of a ban over two unsigned
  -- numbers, the address of an unsigned number is banned exactly when it was before or the number
  -- is met on the way up from `from` to `to`, past 2^32 - 1 if need be. More rounds than
  -- `range_size` change nothing.
  pub ban_range-distance :
      (extra : ℕ)
      → from < u32
      → to < u32
      → m < u32
      → has (find (long2ip os m) (ban_range os (range_size from to + extra) from to banned))
        ≡ (leb (distance from m) (distance from to) || has (find (long2ip os m) banned))
  ban_range-distance extra h k l = rw (
    ban_range-from os to k (long2ip os m) (range_size from to + extra) (distance from to) from
        banned (omega arith) h refl,
    in_range-distance os (distance from to) from m inj h l (omega arith),
  )

  -- If inet_ntoa writes different addresses differently: after the loop that lifts a ban over two
  -- unsigned numbers, the address of an unsigned number is banned exactly when it was before and
  -- the number is not met on the way. More rounds than `range_size` change nothing.
  pub unban_range-distance :
      (extra : ℕ)
      → from < u32
      → to < u32
      → m < u32
      → has (find (long2ip os m) (unban_range os (range_size from to + extra) from to banned))
        ≡ (not (leb (distance from m) (distance from to)) && has (find (long2ip os m) banned))
  unban_range-distance extra h k l = rw (
    unban_range-from os to k (long2ip os m) (range_size from to + extra) (distance from to) from
        banned (omega arith) h refl,
    in_range-distance os (distance from to) from m inj h l (omega arith),
  )

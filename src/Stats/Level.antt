-- ===== src/Stats/Level.antt =====
-- The level that a shown value is given.
use liquid.Base.{
  ℕ, zero, suc, ◌+◌, ◌*◌, ◌^◌, ◌≤◌, ◌<◌, ◌≡◌, ◌⊎◌, inl, inr, arith, Bool-cases, ltb, ltb→lt, true,
  dec_lt,
}
use liquid.Stats.{Stats, raise, inc_speed, inc_transferred}
use liquid.Platform.{Platform}

-- Level `l` is right for a value: it is 9 at most, the value is no more than 1024 units of it
-- unless it is 9, and more than 1024 units of any level below it.
pub record IsLevel (shown l : ℕ) : Type 0 where
  pub within : l ≤ 9
  pub enough : (l ≡ 9) ⊎ (shown ≤ 1024 * 1024 ^ l)
  pub needed : (k : ℕ) → k < l → 1024 * 1024 ^ k < shown

raise-IsLevel :
    (left level shown : ℕ)
    → left + level ≡ 9
    → ((k : ℕ) → k < level → 1024 * 1024 ^ k < shown)
    → IsLevel shown (raise left level shown)
unfolding raise
raise-IsLevel zero level shown e h = record {
  within = omega arith;
  enough = inl (omega arith);
  needed = h;
}
raise-IsLevel (suc left) level shown e h = elim (Bool-cases (ltb (1024 * 1024 ^ level) shown)) [
  | inl more ↦ rw more (raise-IsLevel left (level + 1) shown (omega arith) λ k p. below k p more)
  | inr stay ↦ rw stay (record { within = omega arith; enough = inr (ground arith); needed = h })
]
  where
    below :
        (k : ℕ) → k < level + 1 → ltb (1024 * 1024 ^ level) shown ≡ true → 1024 * 1024 ^ k < shown
    below k p more = elim (dec_lt k level) [
      | yes q ↦ h k q
      | no q ↦
          let same : k ≡ level = omega arith in rw same (ltb→lt (1024 * 1024 ^ level) shown more)
    ]

-- After `incSpeed` the level is 9 at most, the speed is no more than 1024 units of it unless it is
-- 9, and more than 1024 units of every lower level, whatever the counters were.
pub inc_speed-IsLevel :
    (os : Platform) (n : ℕ) (s : Stats)
    → IsLevel (os.to_double (inc_speed os n s).speed) (inc_speed os n s).speed_lvl
unfolding inc_speed
inc_speed-IsLevel os n s = raise-IsLevel 9 0 _ (omega arith) (λ k p. elim p [ ])

-- After `incTransferred` the level is 9 at most, the traffic is no more than 1024 units of it
-- unless it is 9, and more than 1024 units of every lower level, whatever the counters were.
pub inc_transferred-IsLevel :
    (os : Platform) (n : ℕ) (s : Stats)
    → IsLevel
        (os.to_double (inc_transferred os n s).transferred)
        (inc_transferred os n s).transferred_lvl
unfolding inc_transferred
inc_transferred-IsLevel os n s = raise-IsLevel 9 0 _ (omega arith) (λ k p. elim p [ ])

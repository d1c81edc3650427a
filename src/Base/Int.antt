-- ===== src/Base/Int.antt =====
-- Signed integers over the native numbers, under the library's names, and the numeric reads of the
-- C++ library that give words of the target: std::stoul and std::stoi.
use Prim.Native.Nat.{ℕ, suc, ◌+◌, ◌-◌, ◌*◌, ◌^◌, ◌%◌}
use mathlib.Core.Bool.{Bool, true, false}
use mathlib.Core.List.{◌∷◌}
use mathlib.Core.Path.{◌≡◌}
use mathlib.Core.Logic.{◌≢◌, inl, inr}
use native.Mathlib.Omega.{arith}
use liquid.Base.Tests.{leb, ltb, if◌then◌else◌}
use liquid.Base.Classes.{Bytes}
use liquid.Base.Outcome.{
  Outcome, ok, stop, out_of_range, undefined, ◌>>=◌, Outcome-cases, stop-injective,
}
use liquid.Base.Words.{u64}
use liquid.Base.Text.{read_number, read_number-defined, to_string}

-- `negsuc n` is -(n + 1).
pub data ℤ : Type 0 where
  pos : ℕ → ℤ
  negsuc : ℕ → ℤ

abbrev pub pos_part : ℤ → ℕ
pos_part (pos n) = n
pos_part (negsuc n) = 0

abbrev pub neg_part : ℤ → ℕ
neg_part (pos n) = 0
neg_part (negsuc n) = suc n

-- a - b, as an integer.
abbrev pub sub_ℕ : ℕ → ℕ → ℤ
sub_ℕ a b = if leb b a then pos (a - b) else negsuc (b - a - 1)

infixl 65 ◌+ℤ◌ ◌-ℤ◌
abbrev pub ◌+ℤ◌ : ℤ → ℤ → ℤ
a +ℤ b = sub_ℕ (pos_part a + pos_part b) (neg_part a + neg_part b)

abbrev pub ◌-ℤ◌ : ℤ → ℤ → ℤ
a -ℤ b = sub_ℕ (pos_part a + neg_part b) (neg_part a + pos_part b)

abbrev pub scale : ℕ → ℤ → ℤ
scale k a = sub_ℕ (k * pos_part a) (k * neg_part a)

abbrev pub ltb_ℤ : ℤ → ℤ → Bool
ltb_ℤ a b = ltb (pos_part a + neg_part b) (pos_part b + neg_part a)

abbrev pub min_ℤ : ℤ → ℤ → ℤ
min_ℤ a b = if ltb_ℤ b a then b else a

-- The uint16_t that an int converts to.
abbrev pub uint16 : ℤ → ℕ
uint16 a = (pos_part a + (2 ^ 16 - neg_part a % 2 ^ 16)) % 2 ^ 16

-- The number that a 64-bit pattern stands for as a `long`.
abbrev pub signed64 : ℕ → ℤ
signed64 w = if ltb w (2 ^ 63) then pos w else negsuc (u64 - w - 1)

unfoldable pub to_string_ℤ : ℤ → Bytes
unfolding to_string
to_string_ℤ (pos n) = to_string n
to_string_ℤ (negsuc n) = b'-' ∷ to_string (n + 1)

-- A minus sign is taken modulo 2^64.
within_ulong : Bool × ℕ → Outcome ℕ
within_ulong (negative, n) =
    if leb u64 n
    then stop out_of_range
    else ok (if negative then (if ltb 0 n then u64 - n else 0) else n)

unfoldable pub stoul : Bytes → Outcome ℕ
unfolding read_number within_ulong
stoul s = do n ← read_number s; within_ulong n

within_int : Bool × ℕ → Outcome ℤ
within_int (true, n) = if ltb (2 ^ 31) n then stop out_of_range else ok (sub_ℕ 0 n)
within_int (false, n) = if leb (2 ^ 31) n then stop out_of_range else ok (pos n)

unfoldable pub stoi : Bytes → Outcome ℤ
unfolding read_number within_int
stoi s = do n ← read_number s; within_int n

within_ulong-defined : (n : Bool × ℕ) → within_ulong n ≢ stop undefined
unfolding within_ulong
within_ulong-defined (b, n) e = ground arith

pub stoul-defined : (s : Bytes) → stoul s ≢ stop undefined
unfolding stoul
stoul-defined s e = elim (Outcome-cases (read_number s)) [
  | inl (n, h) ↦ within_ulong-defined n (rw h at e)
  | inr (x, k) ↦
      let q : x ≡ undefined = stop-injective {A = ℕ} (rw k at e) in
      read_number-defined s (rw q at k)
]

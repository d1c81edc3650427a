-- ===== src/Utility/HexToBin.antt =====
-- `hex_to_bin` against a description of percent encoding.
use liquid.Base.{
  ℕ, ◌+◌, ◌-◌, ◌*◌, ◌<◌, ◌≡◌, ◌&&◌, leb, refl, ◌≢◌, inl, inr, [], ◌∷◌, Option, none, some, Bytes,
  arith, ◌==◌, nat_eq, Bool-cases, Option-cases,
}
use liquid.Base.Text.{is_digit}
use liquid.Utility.{hex_digit, decode, push_decoded, pair_value, hex_to_bin}

-- `IsHexDigit d v`: the character `d` is the hex digit of the value `v`, in either case.
pub data IsHexDigit : ℕ → ℕ → Type 0 where
  decimal : {d : ℕ} (v : ℕ) → v < 10 → d ≡ b'0' + v → IsHexDigit d v
  lower : {d v : ℕ} (i : ℕ) → i < 6 → d ≡ b'a' + i → v ≡ 10 + i → IsHexDigit d v
  upper : {d v : ℕ} (i : ℕ) → i < 6 → d ≡ b'A' + i → v ≡ 10 + i → IsHexDigit d v

IsHexDigit-hex_digit : {d v : ℕ} → IsHexDigit d v → hex_digit d ≡ some v
unfolding hex_digit
IsHexDigit-hex_digit (decimal v l e) = ground arith
IsHexDigit-hex_digit (lower i l e f) = ground arith
IsHexDigit-hex_digit (upper i l e f) = ground arith

hex_digit-IsHexDigit : (d v : ℕ) → hex_digit d ≡ some v → IsHexDigit d v
unfolding hex_digit
hex_digit-IsHexDigit d v h = elim (Bool-cases (is_digit d)) [
  | inl y ↦ decimal v (ground arith) (ground arith)
  | inr n ↦ elim (Bool-cases (leb b'a' d && leb d b'f')) [
    | inl y ↦ lower (d - b'a') (ground arith) (ground arith) (ground arith)
    | inr m ↦ elim (Bool-cases (leb b'A' d && leb d b'F')) [
      | inl y ↦ upper (d - b'A') (ground arith) (ground arith) (ground arith)
      | inr k ↦ absurd (ground arith)
    ]
  ]
]

-- `Encodes bytes text`: each byte stands for itself, if it is no percent sign, or is written as a
-- percent sign and two hex digits of either case. A percent sign that ends the text stands for itself.
pub data Encodes : Bytes → Bytes → Type 0 where
  nil : Encodes [] []
  last : Encodes (b'%' ∷ []) (b'%' ∷ [])
  plain :
      {bytes text : Bytes} (c : ℕ) → c ≢ b'%' → Encodes bytes text → Encodes (c ∷ bytes) (c ∷ text)
  escaped :
      {bytes text : Bytes} (d e hi lo : ℕ)
      → IsHexDigit d hi
      → IsHexDigit e lo
      → Encodes bytes text
      → Encodes ((hi * 16 + lo) ∷ bytes) (b'%' ∷ d ∷ e ∷ text)

decode_plain :
    (c : ℕ) (text : Bytes) → c ≢ b'%' → decode (c ∷ text) ≡ push_decoded (some c) (decode text)
unfolding decode push_decoded
decode_plain c [] h = refl
decode_plain c (d ∷ []) h = ground arith
decode_plain c (d ∷ e ∷ text) h = ground arith

Encodes-decode : {bytes text : Bytes} → Encodes bytes text → decode text ≡ some bytes
unfolding decode push_decoded pair_value
Encodes-decode nil = refl
Encodes-decode last = refl
Encodes-decode (plain {text = t} c h r) = ground (arith, decode_plain c t h, Encodes-decode r)
Encodes-decode (escaped {text = t} d e hi lo p q r) =
    ground (arith, Encodes-decode r, IsHexDigit-hex_digit p, IsHexDigit-hex_digit q)

push-eq-some :
    (v : Option ℕ) (o : Option Bytes) {bytes : Bytes}
    → push_decoded v o ≡ some bytes
    → (c : ℕ) × (out : Bytes) × (v ≡ some c) × (o ≡ some out) × (bytes ≡ c ∷ out)
unfolding push_decoded
push-eq-some (some c) (some out) h = (c, out, refl, refl, ground arith)
push-eq-some (some c) none h = cc
push-eq-some none o h = cc

pair-eq-some :
    (a b : Option ℕ) {v : ℕ}
    → pair_value a b ≡ some v
    → (hi : ℕ) × (lo : ℕ) × (a ≡ some hi) × (b ≡ some lo) × (v ≡ hi * 16 + lo)
unfolding pair_value
pair-eq-some (some hi) (some lo) h = (hi, lo, refl, refl, ground arith)
pair-eq-some (some hi) none h = cc
pair-eq-some none b h = cc

Encodes-plain :
    (c : ℕ) (text : Bytes) {bytes : Bytes}
    → c ≢ b'%'
    → ((out : Bytes) → decode text ≡ some out → Encodes out text)
    → push_decoded (some c) (decode text) ≡ some bytes
    → Encodes bytes (c ∷ text)
Encodes-plain c text h rec e =
    let (c', out, p, q, r) = push-eq-some (some c) (decode text) e in
    let s : c ≡ c' = cc in rw r (rw (← s) (plain c h (rec out q)))

decode-Encodes : (text bytes : Bytes) → decode text ≡ some bytes → Encodes bytes text
unfolding decode
decode-Encodes [] bytes h = let e : bytes ≡ [] = ground arith in rw e nil
decode-Encodes (c ∷ []) bytes h = elim (Bool-cases (c == b'%')) [
  | inl percent ↦
      let p : c ≡ b'%' = ground arith in let e : bytes ≡ c ∷ [] = ground arith in rw e (rw p last)
  | inr other ↦ let e : bytes ≡ c ∷ [] = ground arith in rw e (plain c (ground arith) nil)
]
decode-Encodes (c ∷ d ∷ []) bytes h = elim (Bool-cases (c == b'%')) [
  | inl percent ↦ absurd (unfold pair_value push_decoded hex_digit in ground arith)
  | inr other ↦ Encodes-plain c (d ∷ []) (ground arith) (decode-Encodes (d ∷ [])) (rw other at h)
]
decode-Encodes (c ∷ d ∷ e ∷ text) bytes h = elim (Bool-cases (c == b'%')) [
  | inl percent ↦
      let (v, out, p, q, r) =
        push-eq-some (pair_value (hex_digit d) (hex_digit e)) (decode text) (rw percent at h) in
      let (hi, lo, a, b, s) = pair-eq-some (hex_digit d) (hex_digit e) p in
      let k : c ≡ b'%' = ground arith in
      rw (r, s, k)
        (escaped d e hi lo (hex_digit-IsHexDigit d hi a) (hex_digit-IsHexDigit e lo b)
          (decode-Encodes text out q))
  | inr other ↦
      Encodes-plain c (d ∷ e ∷ text) (ground arith) (decode-Encodes (d ∷ e ∷ text)) (rw other at h)
]

-- A text that encodes some bytes, by `Encodes`, is decoded to them.
pub hex_to_bin-Encodes : {bytes text : Bytes} → Encodes bytes text → hex_to_bin text ≡ bytes
unfolding hex_to_bin
hex_to_bin-Encodes r = ground (arith, Encodes-decode r)

-- Whatever is decoded to a text that is not empty was, by `Encodes`, an encoding of it.
pub Encodes-hex_to_bin : (text : Bytes) → hex_to_bin text ≢ [] → Encodes (hex_to_bin text) text
unfolding hex_to_bin
Encodes-hex_to_bin text h = elim (Option-cases (decode text)) [
  | inl e ↦ absurd (h (rw (e, hex_to_bin)))
  | inr (out, e) ↦ rw (e, hex_to_bin) (decode-Encodes text out e)
]

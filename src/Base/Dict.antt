-- ===== src/Base/Dict.antt =====
-- std::map, std::unordered_map as association lists. `emplace` keeps an entry that is there, and
-- puts a new one last; the iteration order of the source's containers is theirs to choose.
use mathlib.Core.Path.{◌≡◌, refl}
use mathlib.Core.Bool.{Bool, true, false}
use mathlib.Core.List.{List, [], ◌∷◌, ◌++◌}
use mathlib.Core.Option.{Option, none, some}
use mathlib.Core.Option
use mathlib.Core.Logic.{inl, inr}
use native.Mathlib.Omega.{arith}
use liquid.Base.Tests.{if◌then◌else◌, Bool-cases}
use liquid.Base.Classes.{Eq, ◌==◌}

abbrev pub has {ℓ} : {V : Type ℓ} → Option V → Bool
has none = false
has (some v) = true

abbrev pub Dict {ℓ κ} : Type ℓ → Type κ → Type (ℓ ⊔ κ)
Dict K V = List (K × V)

module _ {ℓ κ} {K : Type ℓ} {V : Type κ} ⦃e : Eq K⦄ where
  unfoldable pub find : K → Dict K V → Option V
  find k [] = none
  find k ((j, v) ∷ m) = if j == k then some v else find k m

  unfoldable pub emplace : K → V → Dict K V → Dict K V
  emplace k v [] = (k, v) ∷ []
  emplace k v ((j, w) ∷ m) = if j == k then (j, w) ∷ m else (j, w) ∷ emplace k v m

  unfoldable pub erase : K → Dict K V → Dict K V
  erase k [] = []
  erase k ((j, v) ∷ m) = if j == k then erase k m else (j, v) ∷ erase k m

  -- A write through the reference that `at` returns.
  unfoldable pub modify : K → (V → V) → Dict K V → Dict K V
  modify k f [] = []
  modify k f ((j, v) ∷ m) = if j == k then (j, f v) ∷ modify k f m else (j, v) ∷ modify k f m

  pub find-emplace :
      (k j : K) (v : V) (m : Dict K V)
      → find j (emplace k v m) ≡ (if k == j then some (Option.get_or (find k m) v) else find j m)
  unfolding find emplace
  find-emplace k j v [] = ground (arith, e.beq_iff k j)
  find-emplace k j v ((i, w) ∷ m) =
      ground (arith, e.beq_iff k j, e.beq_iff i k, e.beq_iff i j, find-emplace k j v m)

  pub find-erase :
      (k j : K) (m : Dict K V) → find j (erase k m) ≡ (if k == j then none else find j m)
  unfolding find erase
  find-erase k j [] = ground arith
  find-erase k j ((i, w) ∷ m) =
      ground (arith, e.beq_iff k j, e.beq_iff i k, e.beq_iff i j, find-erase k j m)

  pub find-modify :
      (k j : K) (f : V → V) (m : Dict K V)
      → find j (modify k f m) ≡ (if k == j then Option.map f (find j m) else find j m)
  unfolding find modify
  find-modify k j f [] = ground arith
  find-modify k j f ((i, w) ∷ m) =
      ground (arith, e.beq_iff k j, e.beq_iff i k, e.beq_iff i j, find-modify k j f m)

-- Every key stands once.
abbrev pub Distinct {ℓ κ} : {K : Type ℓ} {V : Type κ} ⦃e : Eq K⦄ → Dict K V → Type κ
Distinct [] = Unit
Distinct ((k, v) ∷ m) = (find k m ≡ none) × Distinct m

module _ {ℓ κ} {K : Type ℓ} {V : Type κ} ⦃e : Eq K⦄ where
  pub find-append :
      (k : K) (m n : Dict K V)
      → find k (m ++ n) ≡ elim (find k m) [ none ↦ find k n | some v ↦ some v ]
  unfolding find
  find-append k [] n = refl
  find-append k ((j, v) ∷ m) n = ground (arith, find-append k m n)

  pub Distinct-fresh :
      (m n : Dict K V) (k : K) (v : V) → Distinct (m ++ (k, v) ∷ n) → find k m ≡ none
  unfolding find
  Distinct-fresh [] n k v d = refl
  Distinct-fresh ((j, w) ∷ m) n k v d = ground (
    arith,
    d.0,
    Distinct-fresh m n k v d.1,
    find-append j m ((k, v) ∷ n),
    e.beq_iff k j,
    e.beq_iff j k,
  )

  pub Distinct-erase : (k : K) (m : Dict K V) → Distinct m → Distinct (erase k m)
  unfolding erase
  Distinct-erase k [] d = tt
  Distinct-erase k ((j, v) ∷ m) d = elim (Bool-cases (j == k)) [
    | inl same ↦ rw same (Distinct-erase k m d.1)
    | inr other ↦ rw other (ground (arith, d.0, find-erase k j m), Distinct-erase k m d.1)
  ]

  pub Distinct-emplace : (k : K) (v : V) (m : Dict K V) → Distinct m → Distinct (emplace k v m)
  unfolding emplace find
  Distinct-emplace k v [] d = (refl, tt)
  Distinct-emplace k v ((j, w) ∷ m) d = elim (Bool-cases (j == k)) [
    | inl same ↦ rw same d
    | inr other ↦ rw other (
      ground (arith, d.0, find-emplace k j v m, e.beq_iff k j, e.beq_iff j k),
      Distinct-emplace k v m d.1,
    )
  ]

  pub Distinct-modify : (k : K) (f : V → V) (m : Dict K V) → Distinct m → Distinct (modify k f m)
  unfolding modify
  Distinct-modify k f [] d = tt
  Distinct-modify k f ((j, w) ∷ m) d = elim (Bool-cases (j == k)) [
    | inl same ↦ rw same (ground (arith, d.0, find-modify k j f m), Distinct-modify k f m d.1)
    | inr other ↦ rw other (ground (arith, d.0, find-modify k j f m), Distinct-modify k f m d.1)
  ]

-- Every value has a property.
abbrev pub Each {ℓ κ μ} : {K : Type ℓ} {V : Type κ} → (V → Type μ) → Dict K V → Type μ
Each P [] = Unit
Each P ((k, v) ∷ m) = P v × Each P m

some-injective {ℓ} : {A : Type ℓ} {a b : A} → some a ≡ some b → a ≡ b
some-injective h = cc

module _ {ℓ κ μ} {K : Type ℓ} {V : Type κ} ⦃e : Eq K⦄ (P : V → Type μ) where
  pub Each-emplace : (k : K) (v : V) (m : Dict K V) → P v → Each P m → Each P (emplace k v m)
  unfolding emplace
  Each-emplace k v [] h a = (h, tt)
  Each-emplace k v ((j, w) ∷ m) h (hw, a) = elim (Bool-cases (j == k)) [
    | inl e ↦ rw e (hw, a)
    | inr e ↦ rw e (hw, Each-emplace k v m h a)
  ]

  pub Each-erase : (k : K) (m : Dict K V) → Each P m → Each P (erase k m)
  unfolding erase
  Each-erase k [] a = tt
  Each-erase k ((j, w) ∷ m) (hw, a) = elim (Bool-cases (j == k)) [
    | inl e ↦ rw e (Each-erase k m a)
    | inr e ↦ rw e (hw, Each-erase k m a)
  ]

  pub Each-modify :
      (k : K) (f : V → V) (m : Dict K V)
      → ((v : V) → P v → P (f v))
      → Each P m
      → Each P (modify k f m)
  unfolding modify
  Each-modify k f [] h a = tt
  Each-modify k f ((j, w) ∷ m) h (hw, a) = elim (Bool-cases (j == k)) [
    | inl e ↦ rw e (h w hw, Each-modify k f m h a)
    | inr e ↦ rw e (hw, Each-modify k f m h a)
  ]

  pub Each-find : (k : K) (v : V) (m : Dict K V) → Each P m → find k m ≡ some v → P v
  unfolding find
  Each-find k v [] a h = absurd (cc)
  Each-find k v ((j, w) ∷ m) (hw, a) h = elim (Bool-cases (j == k)) [
    | inl e ↦ let same : w ≡ v = some-injective (rw e at h) in rw same at hw
    | inr e ↦ Each-find k v m a (rw e at h)
  ]

pub Each-mono {ℓ κ μ} :
    {K : Type ℓ} {V : Type κ} (P Q : V → Type μ) (m : Dict K V)
    → ((v : V) → P v → Q v)
    → Each P m
    → Each Q m
Each-mono P Q [] h a = tt
Each-mono P Q ((k, v) ∷ m) h (p, a) = (h v p, Each-mono P Q m h a)

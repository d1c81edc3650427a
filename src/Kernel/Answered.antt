-- ===== src/Kernel/Answered.antt =====
-- What the history of a run tells of its calls.
use liquid.Base.{ℕ, ◌≡◌, refl, Option, none, some, [], ◌∷◌}
use liquid.Base.Outcome.{Outcome, stop, Stop, system_error}
use liquid.Kernel.{Kernel, Call, History, Io, next, or_throw, perform, ◌>>=◌}

-- The calls since a history have all succeeded.
pub data Answered (k : Kernel) (start : History) : History → Type 0 where
  unchanged : Answered k start start
  called :
      {calls : History} (c : Call) (n : ℕ)
      → Answered k start calls
      → k.answer calls c ≡ some n
      → Answered k start (c ∷ calls)

-- The last call has failed, which is thrown, and those before it since a history have succeeded.
abbrev pub Failed : Kernel → History → History → Stop → Type 0
Failed k start [] e = ⊥
Failed k start (c ∷ calls) e =
    (e ≡ system_error) × (k.answer calls c ≡ none) × Answered k start calls

-- A run that goes on after a call, by whether the call succeeds.
pub after_perform {ℓ κ} :
    {A : Type ℓ} (P : History × Outcome A → Type κ) (k : Kernel) (f : ℕ → Io A) (calls : History)
    (c : Call)
    → (k.answer calls c ≡ none → P (c ∷ calls, stop system_error))
    → ((n : ℕ) → k.answer calls c ≡ some n → P (f n (c ∷ calls)))
    → P ((perform k c >>= f) calls)
after_perform P k f calls c h g = by_answer (k.answer calls c) refl
  where
    by_answer : (o : Option ℕ) → k.answer calls c ≡ o → P (next (c ∷ calls, or_throw o) f)
    by_answer none e = h e
    by_answer (some n) e = g n e

-- ===== src/Config/Load/Typed.antt =====
-- A setting that is an integer stays one, whatever the file of settings holds.
use liquid.Base.{
  ◌≡◌, refl, sym, ◌∙◌, inl, inr, Bool, true, List, [], ◌∷◌, Option, none, some, Bytes, arith,
  nat_eq, ◌==◌, bytes_eq, bytes_beq_iff, Bool-cases, if◌then◌else◌,
}
use liquid.Base.Dict.{find, find-modify}
use liquid.Base.Outcome.{Outcome, ok, stop, >>=-eq-ok, ok-injective}
use liquid.Base.Int.{ℤ, stoi}
use liquid.Config.{Vars}
use liquid.Config.Load.{
  check_value, store, assign, split_line, load_line, load, integer_value, trim, skip_white,
  split_equal,
}

-- Every integer setting is a text that std::stoi reads.
abbrev pub IsTyped : Vars → Type 0
IsTyped vars =
    (name value : Bytes) → find name vars ≡ some (value, true) → (n : ℤ) × (stoi value ≡ ok n)

check_value-integer :
    (value checked : Bytes)
    → check_value true value ≡ ok (some checked)
    → (n : ℤ) × (stoi checked ≡ ok n)
unfolding check_value integer_value
check_value-integer value checked h = go (stoi value) refl h
  where
    go :
        (o : Outcome ℤ)
        → stoi value ≡ o
        → integer_value value o ≡ ok (some checked)
        → (n : ℤ) × (stoi checked ≡ ok n)
    go (ok n) e h = let same : value ≡ checked = cc in (n, rw same at e)
    go (stop s) e h = absurd (ground arith)

-- The value that a setting takes is one that `checkValue` has passed.
store-IsTyped :
    (vars : Vars) (name old value : Bytes) (integer : Bool) (checked : Option Bytes)
    → IsTyped vars
    → find name vars ≡ some (old, integer)
    → check_value integer value ≡ ok checked
    → IsTyped (store vars name checked)
store-IsTyped vars name old value integer none typed e h j v f = typed j v f
store-IsTyped vars name old value integer (some new) typed e check j v f =
    let g = sym (find-modify name j _ vars) ∙ f in
    elim (Bool-cases (name == j)) [
      | inl same ↦
          let g' = rw same at g in
          let pair = rw (rw ((bytes_beq_iff name j).0 same) at e) at g' in
          let is_integer : integer ≡ true = cc in
          let stored : new ≡ v = cc in
          rw stored at (check_value-integer value new (rw is_integer at check))
      | inr other ↦ typed j v (rw other at g)
    ]

assign-IsTyped :
    (vars vars' : Vars) (name rest : Bytes) (o : Option (Bytes × Bool))
    → IsTyped vars
    → find name vars ≡ o
    → assign vars name rest o ≡ ok vars'
    → IsTyped vars'
unfolding assign
assign-IsTyped vars vars' name rest none typed e h = rw (ok-injective h) at typed
assign-IsTyped vars vars' name rest (some (old, integer)) typed e h =
    let (value, a, h1) = >>=-eq-ok (trim rest) _ h in
    let (checked, b, h2) = >>=-eq-ok (check_value integer value) _ h1 in
    rw (ok-injective h2) at (store-IsTyped vars name old value integer checked typed e b)

split_line-IsTyped :
    (vars vars' : Vars) (o : Option (Bytes × Bytes))
    → IsTyped vars
    → split_line vars o ≡ ok vars'
    → IsTyped vars'
unfolding split_line
split_line-IsTyped vars vars' none typed h = rw (ok-injective h) at typed
split_line-IsTyped vars vars' (some ([], value)) typed h = rw (ok-injective h) at typed
split_line-IsTyped vars vars' (some (c ∷ name, [])) typed h = rw (ok-injective h) at typed
split_line-IsTyped vars vars' (some (c ∷ name, v ∷ value)) typed h =
    let (key, a, h1) = >>=-eq-ok (trim (c ∷ name)) _ h in
    assign-IsTyped vars vars' key (v ∷ value) (find key vars) typed refl h1

load_line-IsTyped :
    (vars vars' : Vars) (line : Bytes)
    → IsTyped vars
    → load_line vars line ≡ ok vars'
    → IsTyped vars'
unfolding load_line
load_line-IsTyped vars vars' line typed = go (skip_white line)
  where
    go :
        (rest : Bytes)
        → (elim rest [
          | [] ↦ ok vars
          | c ∷ cs ↦ if c == b'#' then ok vars else split_line vars (split_equal (c ∷ cs))
        ])
          ≡ ok vars'
        → IsTyped vars'
    go [] h = rw (ok-injective h) at typed
    go (c ∷ cs) h = elim (Bool-cases (c == b'#')) [
      | inl y ↦ rw (ok-injective (rw y at h)) at typed
      | inr n ↦ split_line-IsTyped vars vars' (split_equal (c ∷ cs)) typed (rw n at h)
    ]

-- If every integer setting holds a text that std::stoi reads, and a file of settings loads, then
-- every integer setting holds such a text afterwards, whatever lines the file has.
pub load-IsTyped :
    (vars vars' : Vars) (lines : List Bytes)
    → IsTyped vars
    → load vars lines ≡ ok vars'
    → IsTyped vars'
unfolding load
load-IsTyped vars vars' [] typed h = rw (ok-injective h) at typed
load-IsTyped vars vars' (line ∷ lines) typed h =
    let (next, a, h1) = >>=-eq-ok (load_line vars line) _ h in
    load-IsTyped next vars' lines (load_line-IsTyped vars next line typed a) h1

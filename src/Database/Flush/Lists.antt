-- ===== src/Database/Flush/Lists.antt =====
-- Lemmas on the lists of `Queue`: what is written is read back, and an erasure takes one element out.
use mathlib.Core.List.{Perm}
use mathlib.Core.List.Perm
use liquid.Base.{
  ℕ, zero, suc, ◌≡◌, Bool, true, false, List, [], ◌∷◌, some, Bytes, if◌then◌else◌, arith,
}
use liquid.Database.{Database}
use liquid.Database.Flush.{
  Table, users, torrents, peers, tokens, snatches, requests_of, records_of, set_lists,
}
use liquid.Database.Flush.Queue.{nth, erase_at}

abbrev pub same_table : Table → Table → Bool
same_table users users = true
same_table torrents torrents = true
same_table peers peers = true
same_table tokens tokens = true
same_table snatches snatches = true
same_table _ _ = false

pub same_table-eq : (t u : Table) → same_table t u ≡ true → t ≡ u
same_table-eq t u h = ground arith

pub same_table_refl : (t : Table) → same_table t t ≡ true
same_table_refl t = ground arith

pub requests_of-set_lists :
    (t u : Table) (rows texts : List Bytes) (db : Database)
    → requests_of t (set_lists u rows texts db)
      ≡ (if same_table u t then rows else requests_of t db)
unfolding requests_of set_lists
requests_of-set_lists t u rows texts db = ground arith

pub records_of-set_lists :
    (t u : Table) (rows texts : List Bytes) (db : Database)
    → records_of t (set_lists u rows texts db) ≡ (if same_table u t then texts else records_of t db)
unfolding records_of set_lists
records_of-set_lists t u rows texts db = ground arith

module _ {ℓ} {A : Type ℓ} where
  pub erase_at-perm : (n : ℕ) (l : List A) (x : A) → nth n l ≡ some x → Perm l (x ∷ erase_at n l)
  erase_at-perm n [] x h = absurd (cc)
  erase_at-perm zero (y ∷ l) x h = let e : y ≡ x = cc in rw e Perm.rfl
  erase_at-perm (suc n) (y ∷ l) x h =
      Perm.trans (Perm.cons y (erase_at-perm n l x h)) (Perm.swap x y (erase_at n l))

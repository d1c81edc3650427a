-- ===== src/Database/Flush/Batches.antt =====
-- Rows cut into the batches of statements (src/database/mysql.cpp), and what keeps the cut.
use mathlib.Core.List.{Perm, perm_middle, map-append}
use mathlib.Core.List.Perm
use liquid.Base.{
  ℕ, ◌≡◌, refl, sym, false, List, [], ◌∷◌, ◌++◌, some, Bytes, map, is_nil, append_assoc, append-nil,
}
use liquid.Config.{Vars}
use liquid.Database.Flush.{Table, statement}
use liquid.Database.Flush.Queue.{nth, erase_at}
use liquid.Database.Flush.Lists.{erase_at-perm}

abbrev pub concat : List (List Bytes) → List Bytes
concat [] = []
concat (b ∷ bs) = b ++ concat bs

-- No batch is empty.
abbrev pub Filled : List (List Bytes) → Type 0
Filled [] = Unit
Filled (b ∷ bs) = (is_nil b ≡ false) × Filled bs

-- The rows are cut into batches and the rows that are not flushed yet; the statements of the
-- batches are those that the server took and those that wait.
unfoldable pub Kept : Vars → Table → List Bytes → List Bytes → List Bytes → List Bytes → Type 0
Kept vars t rows requests records sent =
    (batches : List (List Bytes)) × (rows ≡ concat batches ++ requests)
    × Perm (map (statement vars t) batches) (sent ++ records)
    × Filled batches

concat-append : (bs cs : List (List Bytes)) → concat (bs ++ cs) ≡ concat bs ++ concat cs
concat-append [] cs = refl
concat-append (b ∷ bs) cs = simp (concat-append bs cs, append_assoc)

Filled-append :
    (bs : List (List Bytes)) (b : List Bytes) → is_nil b ≡ false → Filled bs → Filled (bs ++ b ∷ [])
Filled-append [] b h f = (h, tt)
Filled-append (c ∷ bs) b h (g, f) = (g, Filled-append bs b h f)

module _ (vars : Vars) (t : Table) where
  pub Kept-add :
      (row : Bytes) (rows requests records sent : List Bytes)
      → Kept vars t rows requests records sent
      → Kept vars t (rows ++ row ∷ []) (requests ++ row ∷ []) records sent
  unfolding Kept
  Kept-add row rows requests records sent (batches, e, p, f) =
      (batches, simp (e, append_assoc), p, f)

  pub Kept-batch :
      (rows requests records sent : List Bytes)
      → is_nil requests ≡ false
      → Kept vars t rows requests records sent
      → Kept vars t rows [] (records ++ statement vars t requests ∷ []) sent
  unfolding Kept
  Kept-batch rows requests records sent h (batches, e, p, f) = (
    batches ++ requests ∷ [],
    simp (e, concat-append, append-nil),
    rw
        (
          map-append (statement vars t) batches (requests ∷ []),
          sym (append_assoc sent records (statement vars t requests ∷ [])),
        )
        (Perm.append p Perm.rfl),
    Filled-append batches requests h f,
  )

  pub Kept-taken :
      (n : ℕ) (it : Bytes) (rows requests records sent : List Bytes)
      → nth n records ≡ some it
      → Kept vars t rows requests records sent
      → Kept vars t rows requests (erase_at n records) (it ∷ sent)
  unfolding Kept
  Kept-taken n it rows requests records sent h (batches, e, p, f) = (
    batches,
    e,
    Perm.trans p (
        Perm.trans (Perm.append (Perm.refl sent) (erase_at-perm n records it h))
          (perm_middle sent (erase_at n records))),
    f,
  )

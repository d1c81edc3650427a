-- ===== src/Handler/Load/Bans.antt =====
-- The addresses that `loadBannedIPs` (src/database/mysql.cpp) bans.
use liquid.Base.{
  ℕ, ◌%◌, ◌<◌, ◌≡◌, refl, sym, Bool, false, ◌||◌, List, [], ◌∷◌, some, Bytes, arith, leb, bytes_eq,
  nat_eq, subst,
}
use liquid.Base.Dict.{find, has}
use liquid.Base.Outcome.{Outcome, ok, stop, ◌>>=◌, >>=-eq-ok, Ends, Ends-ok, ok-injective}
use liquid.Base.Words.{u32}
use liquid.Base.Int.{stoul}
use liquid.Platform.{Platform}
use liquid.Utility.{long2ip}
use liquid.Config.{Vars}
use liquid.User.{Texts}
use liquid.Handler.{Tracker}
use liquid.Handler.Update.{ban_range, range_size}
use liquid.Handler.Update.Bans.{distance, IsInjective, ban_range-distance}
use liquid.Handler.Load.{Row, Server, cell, for_rows, load_ban, load_banned_ips, bans_query}

-- The unsigned ints of a row.
abbrev pub bounds : Row → Outcome (ℕ × ℕ)
bounds row = do
  fromip ← cell 0 row
  from ← stoul fromip
  toip ← cell 1 row
  to ← stoul toip
  ok (from % u32, to % u32)

-- Whether a number is met on the way up from the first to the second, past 2^32 - 1 if need be.
abbrev pub is_within : ℕ → Outcome (ℕ × ℕ) → Bool
is_within m (ok (from, to)) = leb (distance from m) (distance from to)
is_within m (stop _) = false

abbrev pub any_within : ℕ → List Row → Bool
any_within m [] = false
any_within m (row ∷ rows) = is_within m (bounds row) || any_within m rows

bounds-eq-ok :
    (row : Row) {a b : Bytes} {from to : ℕ}
    → cell 0 row ≡ ok a
    → stoul a ≡ ok from
    → cell 1 row ≡ ok b
    → stoul b ≡ ok to
    → bounds row ≡ ok (from % u32, to % u32)
bounds-eq-ok row e0 f0 e1 f1 = rw (e0, f0, e1, f1) refl

module _ (os : Platform) (inj : IsInjective os) (m : ℕ) (fits : m < u32) where
  Banned : Bool → Texts → Type 0
  Banned b banned = has (find (long2ip os m) banned) ≡ b

  -- The loop of one row.
  within-bounds :
      (from to : ℕ) (banned : Texts)
      → from < u32
      → to < u32
      → has (find (long2ip os m) (ban_range os (range_size from to) from to banned))
        ≡ (is_within m (ok (from, to)) || has (find (long2ip os m) banned))
  within-bounds from to banned h k =
      subst
        (λ (n : ℕ).
          has (find (long2ip os m) (ban_range os n from to banned))
          ≡ (is_within m (ok (from, to)) || has (find (long2ip os m) banned)))
        (omega arith) (ban_range-distance os inj from to m banned 0 h k fits)

  load_ban-Banned :
      (row : Row) (banned : Texts)
      → Ends
          (Banned (is_within m (bounds row) || has (find (long2ip os m) banned)))
          (load_ban os row banned)
  unfolding load_ban Banned
  load_ban-Banned row banned banned' e =
      let (a, e0, e1) = >>=-eq-ok (cell 0 row) _ e in
      let (from, f0, e2) = >>=-eq-ok (stoul a) _ e1 in
      let (b, e3, e4) = >>=-eq-ok (cell 1 row) _ e2 in
      let (to, f1, e5) = >>=-eq-ok (stoul b) _ e4 in
      subst
        (λ (l : Texts).
          has (find (long2ip os m) l)
          ≡ (is_within m (bounds row) || has (find (long2ip os m) banned)))
        (ok-injective e5)
        (subst
          (λ (o : Outcome (ℕ × ℕ)).
            has (
              find (long2ip os m)
                (ban_range os (range_size (from % u32) (to % u32)) (from % u32) (to % u32) banned))
            ≡ (is_within m o || has (find (long2ip os m) banned)))
          (sym (bounds-eq-ok row e0 f0 e3 f1))
          (within-bounds (from % u32) (to % u32) banned (omega arith) (omega arith)))

  rows-Banned :
      (rows : List Row) (banned : Texts)
      → Ends
          (Banned (any_within m rows || has (find (long2ip os m) banned)))
          (for_rows (load_ban os) rows banned)
  unfolding Banned
  rows-Banned [] banned t e = Ends-ok (Banned (has (find (long2ip os m) banned))) banned refl t e
  rows-Banned (row ∷ rows) banned t e =
      let (next, e1, e2) = >>=-eq-ok (load_ban os row banned) _ e in
      let one = load_ban-Banned row banned next e1 in
      let rest = rows-Banned rows next t e2 in ground (arith, one, rest)

  -- If inet_ntoa writes different addresses differently: after a load of the bans that selects some
  -- rows, the address of an unsigned number is banned exactly when it was before or the number is
  -- met on the way up from the first to the second number of a row, past 2^32 - 1 if need be.
  pub load_banned_ips-within {ℓ} :
      {S : Type ℓ} (server : Server S) (vars : Vars) (s : S) (rows : List Row) (t t' : Tracker)
      → server.select s (bans_query vars) ≡ some rows
      → load_banned_ips server vars s os t ≡ ok t'
      → has (find (long2ip os m) t'.banned_ips)
        ≡ (any_within m rows || has (find (long2ip os m) t.banned_ips))
  unfolding load_banned_ips Banned
  load_banned_ips-within server vars s rows t t' sel e =
      let (next, e1, e2) = >>=-eq-ok (for_rows (load_ban os) rows t.banned_ips) _ (rw sel at e) in
      rw (sym (ok-injective e2)) (rows-Banned rows t.banned_ips next e1)

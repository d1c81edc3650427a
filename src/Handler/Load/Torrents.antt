-- ===== src/Handler/Load/Torrents.antt =====
-- The torrents that `loadTorrents` (src/database/mysql.cpp) leaves in the map.
use liquid.Base.{
  ℕ, zero, suc, ◌≡◌, refl, Bool, true, false, ◌&&◌, ◌||◌, Bool-cases, List, [], ◌∷◌, none, some,
  Bytes, arith, ◌==◌, nat_eq, bytes_eq, bytes_beq_iff, length, sym, bytes_beq, inl, inr,
}
use liquid.Stats.{set_torrents}
use liquid.Torrent.{Torrent}
use liquid.Base.Dict.{Dict, find, emplace, has, find-emplace}
use liquid.Base.Outcome.{Outcome, ok, stop, >>=-eq-ok, Ends, Ends-ok, Ends-after, ok-injective}
use liquid.Base.Int.{stoul}
use liquid.Config.{Vars}
use liquid.Handler.{Tracker}
use liquid.Handler.Load.{
  Row, Server, c_string, cell, for_rows, load_torrent, load_torrents, torrents_query,
}

-- Whether a row's info hash, read as a C string, is a given one.
abbrev pub is_hash : Bytes → Outcome Bytes → Bool
is_hash h (ok info_hash) = info_hash == h
is_hash h (stop _) = false

abbrev pub any_hash : Bytes → List Row → Bool
any_hash h [] = false
any_hash h (row ∷ rows) = is_hash h (cell 1 row) || any_hash h rows

abbrev pub has_zero : Bytes → Bool
has_zero [] = false
has_zero (c ∷ cs) = (c == 0) || has_zero cs

-- Which torrents are there.
Held : Bytes → Bool → Tracker → Type 0
Held h b t = has (find h t.tor_map) ≡ b

has-emplace :
    (h hash : Bytes) (tor : Torrent) (m : Dict Bytes Torrent)
    → has (find h (emplace hash tor m)) ≡ ((hash == h) || has (find h m))
has-emplace h hash tor m = ground (arith, find-emplace hash h tor m, bytes_beq_iff hash h)

load_torrent-Held :
    (h : Bytes) (row : Row) (t : Tracker)
    → Ends (Held h (is_hash h (cell 1 row) || has (find h t.tor_map))) (load_torrent row t)
unfolding load_torrent Held
load_torrent-Held h row t t' e =
    let P : Tracker → Type 0 = Held h (is_hash h (cell 1 row) || has (find h t.tor_map)) in
    let (free, _, e1) = >>=-eq-ok (cell 2 row) _ e in
    let (hash, eh, e2) = >>=-eq-ok (cell 1 row) _ e1 in
    Ends-after P (cell 0 row) _
      (λ text. Ends-after P (stoul text) _ λ id. Ends-after P (cell 3 row) _ λ snatched.
        Ends-after P (stoul snatched) _ λ snatches. Ends-after P (cell 4 row) _ λ balanced.
          Ends-after P (stoul balanced) _
            λ balance. Ends-ok P _ (rw eh (has-emplace h hash _ t.tor_map)))
      t' e2

rows-Held :
    (h : Bytes) (rows : List Row) (t : Tracker)
    → Ends (Held h (any_hash h rows || has (find h t.tor_map))) (for_rows load_torrent rows t)
unfolding Held
rows-Held h [] t t' e = Ends-ok (Held h (has (find h t.tor_map))) t refl t' e
rows-Held h (row ∷ rows) t t' e =
    let (next, e1, e2) = >>=-eq-ok (load_torrent row t) _ e in
    let one = load_torrent-Held h row t next e1 in
    let rest = rows-Held h rows next t' e2 in ground (arith, one, rest)

c_string-zero : (a h : Bytes) → has_zero h ≡ true → (c_string a == h) ≡ false
unfolding bytes_beq
c_string-zero [] [] z = absurd (cc)
c_string-zero [] (d ∷ h) z = refl
c_string-zero (c ∷ a) [] z = absurd (cc)
c_string-zero (c ∷ a) (d ∷ h) z = ground (arith, c_string-zero a h)

is_hash-zero : (h : Bytes) (i : ℕ) (row : Row) → has_zero h ≡ true → is_hash h (cell i row) ≡ false
is_hash-zero h i [] z = refl
is_hash-zero h zero (none ∷ row) z = refl
is_hash-zero h zero (some a ∷ row) z = c_string-zero a h z
is_hash-zero h (suc i) (column ∷ row) z = is_hash-zero h i row z

any_hash-zero : (h : Bytes) (rows : List Row) → has_zero h ≡ true → any_hash h rows ≡ false
any_hash-zero h [] z = refl
any_hash-zero h (row ∷ rows) z = rw (is_hash-zero h 1 row z) (any_hash-zero h rows z)

hash-not_both : (h : Bytes) (rows : List Row) → (has_zero h && any_hash h rows) ≡ false
hash-not_both h rows = elim (Bool-cases (has_zero h)) [
  | inl e ↦ rw e (any_hash-zero h rows e)
  | inr e ↦ rw e refl
]

module _ {ℓ} {S : Type ℓ} (server : Server S) (vars : Vars) (s : S) where
  -- After a load of the torrents that selects some rows, a torrent is in the map exactly when it
  -- was before or a row has its info hash, read as a C string, which no hash with a zero byte is. The
  -- counter of torrents is the number of rows.
  pub load_torrents-any_hash :
      (rows : List Row) (t t' : Tracker) (h : Bytes)
      → server.select s (torrents_query vars) ≡ some rows
      → load_torrents server vars s t ≡ ok t'
      → (has (find h t'.tor_map) ≡ (any_hash h rows || has (find h t.tor_map)))
        × ((has_zero h && any_hash h rows) ≡ false)
        × (t'.stats.torrents ≡ length rows)
  unfolding load_torrents Held set_torrents
  load_torrents-any_hash rows t t' h sel e =
      let (next, e1, e2) = >>=-eq-ok (for_rows load_torrent rows t) _ (rw sel at e) in
      let held : has (find h t'.tor_map) ≡ (any_hash h rows || has (find h t.tor_map)) =
        rw (sym (ok-injective e2)) (rows-Held h rows t next e1) in
      (held, hash-not_both h rows, rw (sym (ok-injective e2)) refl)

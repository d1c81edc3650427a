-- ===== src/Handler/Load/Accounts.antt =====
-- What the rows of the tables of tokens and of address restrictions (src/database/mysql.cpp) can
-- do to the accounts.
use liquid.Base.{
  ℕ, ◌%◌, ◌≡◌, ◌≢◌, ◌⊎◌, refl, ap, true, List, [], ◌∷◌, Option, none, some, Bytes, arith, bytes_eq,
  nat_eq, Option-cases, inl, inr,
}
use liquid.Base.Dict.{find, has, modify, find-modify}
use liquid.Base.Outcome.{
  Outcome, Stop, ok, stop, undefined, out_of_range, invalid_argument, length_error, system_error,
  catch, Outcome-cases,
}
use liquid.Base.Words.{u32}
use liquid.Base.Int.{stoul, stoul-defined}
use liquid.User.{User, add_token}
use liquid.Database.{deref}
use liquid.Handler.{Tracker, get_user, with_user}
use liquid.Handler.Update.Grounded.{Grounded}
use liquid.Handler.Load.{Row, c_string, for_rows, load_token}

-- Three columns that are not NULL.
abbrev pub Full : Row → Type 0
Full (some a ∷ some b ∷ some c ∷ row) = Unit
Full (_ ∷ _ ∷ _ ∷ row) = ⊥
Full _ = ⊥

-- What a row of the tokens does, given the account under its passkey and its two numbers: nothing
-- if one of the three is missing or is no number.
abbrev pub after_token : Option ℕ → Outcome ℕ → Outcome ℕ → Tracker → Tracker
after_token none torrent_id time t = t
after_token (some a) (stop _) time t = t
after_token (some a) (ok torrent_id) (stop _) t = t
after_token (some a) (ok torrent_id) (ok time) t = record t {
  heap = modify a (add_token (torrent_id % u32) time) t.heap;
}

deref-found :
    (t : Tracker) (a : ℕ) → has (find a t.heap) ≡ true → (u : User) × (deref t.heap (some a) ≡ ok u)
deref-found t a h = elim (Option-cases (find a t.heap)) [
  | inl e ↦ absurd (ground (arith, e))
  | inr (u, e) ↦ (u, rw e refl)
]

pub catch-stop : {A : Type 0} (e : Stop) (a : A) → e ≢ undefined → catch (stop e) a ≡ ok a
catch-stop out_of_range a h = refl
catch-stop invalid_argument a h = refl
catch-stop length_error a h = refl
catch-stop system_error a h = refl
catch-stop undefined a h = absurd (h refl)

-- A number is read, or an exception is thrown that the block catches.
pub caught :
    (s : Bytes) → ((n : ℕ) × (stoul s ≡ ok n)) ⊎ ((e : Stop) × (stoul s ≡ stop e) × (e ≢ undefined))
caught s = elim (Outcome-cases (stoul s)) [
  | inl (n, h) ↦ inl (n, h)
  | inr (e, h) ↦ inr (e, h, λ u. stoul-defined s (rw u at h))
]

with_user-found :
    (a : ℕ) (f : User → User) (t : Tracker)
    → has (find a t.heap) ≡ true
    → with_user (some a) f t ≡ ok (record t { heap = modify a f t.heap })
unfolding with_user
with_user-found a f t h = let (u, e) = deref-found t a h in rw e refl

load_token-after_token :
    (passkey torrent_id time : Bytes) (row : Row) (t : Tracker)
    → Grounded t
    → load_token (some passkey ∷ some torrent_id ∷ some time ∷ row) t
      ≡ ok (
          after_token
            (find (c_string passkey) t.usr_map)
            (stoul (c_string torrent_id))
            (stoul (c_string time))
            t)
unfolding load_token
load_token-after_token passkey torrent_id time row t g =
    elim (Option-cases (find (c_string passkey) t.usr_map)) [
      | inl e ↦ rw e refl
      | inr (a, e) ↦ elim (caught (c_string torrent_id)) [
        | inr (x, h, d) ↦ rw (e, h) (catch-stop x t d)
        | inl (tid, h) ↦ elim (caught (c_string time)) [
          | inr (x, k, d) ↦ rw (e, h, k) (catch-stop x t d)
          | inl (n, k) ↦
              let found = g (c_string passkey) a (unfold get_user in e) in
              rw (e, h, k)
                (ap (λ (o : Outcome Tracker). catch o t)
                  (with_user-found a (add_token (tid % u32) n) t found))
        ]
      ]
    ]

after_token-Grounded :
    (address : Option ℕ) (torrent_id time : Outcome ℕ) (t : Tracker)
    → Grounded t
    → Grounded (after_token address torrent_id time t)
unfolding get_user
after_token-Grounded none torrent_id time t g k b h = g k b h
after_token-Grounded (some a) (stop x) time t g k b h = g k b h
after_token-Grounded (some a) (ok tid) (stop x) t g k b h = g k b h
after_token-Grounded (some a) (ok tid) (ok n) t g k b h =
    ground (arith, find-modify a b (add_token (tid % u32) n) t.heap, g k b h)

-- A row of the tokens, and all of them.
abbrev pub after_row : Row → Tracker → Tracker
after_row (some passkey ∷ some torrent_id ∷ some time ∷ row) t =
    after_token (find (c_string passkey) t.usr_map) (stoul (c_string torrent_id))
      (stoul (c_string time)) t
after_row _ t = t

abbrev pub after_rows : List Row → Tracker → Tracker
after_rows [] t = t
after_rows (row ∷ rows) t = after_rows rows (after_row row t)

Full-none : (row : Row) → Full (none ∷ row) → ⊥
Full-none [] f = f
Full-none (x ∷ []) f = f
Full-none (x ∷ y ∷ row) f = f

abbrev pub AllFull : List Row → Type 0
AllFull [] = Unit
AllFull (row ∷ rows) = Full row × AllFull rows

-- The rows of the tokens never end the tracker: if no column is NULL and every passkey leads to an
-- account in the heap, each row whose passkey is known and whose two numbers are read gives that
-- account its token, each other row is skipped, and every passkey still leads to an account.
pub for_rows-load_token :
    (rows : List Row) (t : Tracker)
    → AllFull rows
    → Grounded t
    → (for_rows load_token rows t ≡ ok (after_rows rows t)) × Grounded (after_rows rows t)
for_rows-load_token [] t f g = (refl, g)
for_rows-load_token ([] ∷ rows) t (f, fs) g = absurd f
for_rows-load_token ((none ∷ row) ∷ rows) t f g = absurd (Full-none row f.0)
for_rows-load_token ((some p ∷ []) ∷ rows) t (f, fs) g = absurd f
for_rows-load_token ((some p ∷ none ∷ []) ∷ rows) t (f, fs) g = absurd f
for_rows-load_token ((some p ∷ none ∷ x ∷ row) ∷ rows) t (f, fs) g = absurd f
for_rows-load_token ((some p ∷ some a ∷ []) ∷ rows) t (f, fs) g = absurd f
for_rows-load_token ((some p ∷ some a ∷ none ∷ row) ∷ rows) t (f, fs) g = absurd f
for_rows-load_token ((some p ∷ some a ∷ some b ∷ row) ∷ rows) t (f, fs) g =
    let first = load_token-after_token p a b row t g in
    let g' =
      after_token-Grounded (find (c_string p) t.usr_map) (stoul (c_string a)) (stoul (c_string b)) t
        g in
    let (e, g'') = for_rows-load_token rows (after_row (some p ∷ some a ∷ some b ∷ row) t) fs g' in
    (rw first e, g'')

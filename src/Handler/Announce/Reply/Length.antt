-- ===== src/Handler/Announce/Reply/Length.antt =====
-- What `getPeers` lists, and the length that it declares.
use liquid.Base.{
  ℕ, zero, suc, ◌+◌, ◌-◌, ◌*◌, ◌≤◌, ◌≡◌, refl, bytes_eq, ap, ◌∙◌, Bool, true, false, [], ◌∷◌, ◌++◌,
  append-nil, append_assoc, some, Bytes, length, take, drop, arith, length-append, dec_le,
  if◌then◌else◌, take-append_le, take-append_ge, take_all, drop_all, take-append-drop, ◌≢◌,
}
use liquid.Base.Dict.{Distinct, Distinct-fresh}
use liquid.Base.Outcome.{ok, >>=-eq-ok}
use liquid.Base.Text.{codes, to_string}
use liquid.Base.Int.{pos, scale, to_string_ℤ}
use liquid.Peers.{Peers, PeerMap, past_end, next_peer}
use liquid.Peers.Rotation.{at_parts, next_peer_within, next_peer_wraps}
use liquid.Handler.Announce.Reply.{listed, collect, get_peers, entry_size}

-- The entries of some peers, one after another.
abbrev pub texts : Bool → PeerMap → Bytes
texts compact [] = []
texts compact ((_, p) ∷ m) = listed compact (some p) ++ texts compact m

collect_within :
    (compact : Bool) (n : ℕ) (before after : PeerMap)
    → Distinct (before ++ after)
    → n ≤ length after
    → collect compact n (at_parts before after)
      ≡ ok (texts compact (take n after), at_parts (before ++ take n after) (drop n after))
unfolding collect
collect_within compact zero before after d h = rw append-nil
collect_within compact (suc n) before [] d h = absurd (omega arith)
collect_within compact (suc n) before ((k, p) ∷ after) d h =
    rw (next_peer_within before after k p (Distinct-fresh before after k p d)) (
      rw (← append_assoc before ((k, p) ∷ []) after) (
        rw
          (collect_within compact n (before ++ (k, p) ∷ []) after (rw append_assoc d) (omega arith))
          (simp append_assoc)))

collect_add :
    (compact : Bool) (n a b : ℕ) (ps ps1 ps2 : Peers) (x y : Bytes)
    → n ≡ a + b
    → collect compact a ps ≡ ok (x, ps1)
    → collect compact b ps1 ≡ ok (y, ps2)
    → collect compact n ps ≡ ok (x ++ y, ps2)
unfolding collect
collect_add compact n zero b ps ps1 ps2 x y e p q =
    let same : n ≡ b = omega arith in
    let nothing : x ≡ [] = cc in let still : ps ≡ ps1 = cc in rw (same, nothing, still) q
collect_add compact zero (suc a) b ps ps1 ps2 x y e p q = absurd (omega arith)
collect_add compact (suc n) (suc a) b ps ps1 ps2 x y e p q =
    let (r, first, later) = >>=-eq-ok (next_peer ps) _ p in
    let (s, inner, built) = >>=-eq-ok (collect compact a r.1) _ later in
    let texts_eq : listed compact r.0 ++ s.0 ≡ x = cc in
    let end_eq : s.1 ≡ ps1 = cc in
    rw first (
      rw (collect_add compact n a b r.1 s.1 ps2 s.0 y (omega arith) inner (rw end_eq q))
        (rw (← texts_eq, append_assoc)))

collect_wraps :
    (compact : Bool) (n : ℕ) (m : PeerMap)
    → m ≢ []
    → collect compact (suc n) (record { it = past_end; p_map = m })
      ≡ collect compact (suc n) (at_parts [] m)
unfolding collect
collect_wraps compact n [] h = absurd (h refl)
collect_wraps compact n ((k, p) ∷ m) h = rw (next_peer_wraps k p m)

texts-append :
    (compact : Bool) (m n : PeerMap) → texts compact (m ++ n) ≡ texts compact m ++ texts compact n
texts-append compact [] n = refl
texts-append compact ((k, p) ∷ m) n = simp (texts-append compact m n, append_assoc)

collect_to_end :
    (compact : Bool) (before after : PeerMap)
    → Distinct (before ++ after)
    → collect compact (length after) (at_parts before after)
      ≡ ok (texts compact after, record { it = past_end; p_map = before ++ after })
collect_to_end compact before after d =
    collect_within compact (length after) before after d (omega arith)
    ∙ rw (take_all, drop_all, append-nil)

collect_again :
    (compact : Bool) (j : ℕ) (before after : PeerMap)
    → Distinct (before ++ after)
    → suc j ≤ length before
    → (ps : Peers) × (collect compact (suc j) (record { it = past_end; p_map = before ++ after })
        ≡ ok (texts compact (take (suc j) before), ps))
      × (ps.p_map ≡ before ++ after)
collect_again compact j before after d h =
    let m = before ++ after in
    let ne : m ≢ [] = λ e. absurd (omega (arith, length-append before after, ap length e)) in
    let fits : suc j ≤ length m = omega (arith, length-append before after) in
    (
      at_parts (take (suc j) m) (drop (suc j) m),
      collect_wraps compact j m ne
          ∙ collect_within compact (suc j) [] m d fits
          ∙ rw (take-append_le (suc j) before after h),
      take-append-drop (suc j) m,
    )

-- With its iterator before `after`, a swarm of distinct ids gives its peers in the order of
-- `after ++ before`, each once.
collect_rotation :
    (compact : Bool) (n : ℕ) (before after : PeerMap)
    → Distinct (before ++ after)
    → n ≤ length (after ++ before)
    → (ps : Peers) × (collect compact n (at_parts before after)
        ≡ ok (texts compact (take n (after ++ before)), ps))
      × (ps.p_map ≡ before ++ after)
collect_rotation compact n before after d h = elim (dec_le n (length after)) [
  | yes p ↦ (
    at_parts (before ++ take n after) (drop n after),
    rw (take-append_le n after before p) (collect_within compact n before after d p),
    rw (append_assoc, take-append-drop n after),
  )
  | no p ↦
      let j = n - length after - 1 in
      let count : n ≡ length after + suc j = omega arith in
      let small : suc j ≤ length before = omega (arith, length-append after before) in
      let (ps, again, same) = collect_again compact j before after d small in
      (
        ps,
        rw (take-append_ge n (suc j) after before count, texts-append)
            (collect_add compact n (length after) (suc j) (at_parts before after)
              (record { it = past_end; p_map = before ++ after }) ps (texts compact after)
              (texts compact (take (suc j) before)) count (collect_to_end compact before after d)
              again),
        same,
      )
]

-- Every peer has its address and port in so many bytes.
abbrev pub HasWidth : ℕ → PeerMap → Type 0
HasWidth w [] = Unit {0}
HasWidth w ((_, p) ∷ m) = (length p.hex_ip_port ≡ w) × HasWidth w m

length-texts :
    (w n : ℕ) (m : PeerMap) → HasWidth w m → n ≤ length m → length (texts true (take n m)) ≡ w * n
unfolding listed
length-texts w zero m h k = omega arith
length-texts w (suc n) [] h k = absurd (omega arith)
length-texts w (suc n) ((_, p) ∷ m) h k = grind (
  arith,
  length-append p.hex_ip_port (texts true (take n m)),
  length-texts w n m h.1 (omega arith),
)

declared :
    (six : Bool) (n : ℕ)
    → to_string_ℤ (scale (entry_size six) (pos n)) ≡ to_string (entry_size six * n)
unfolding to_string_ℤ
declared true n = ground arith
declared false n = ground arith

abbrev pub list_key : Bool → Bytes
list_key six = if six then codes "6:peers6" else codes "5:peers"

-- A swarm of distinct ids, whose peers' addresses have the length of the family, and whose
-- iterator is between `before` and `after`: a compact list of `n` peers, no more than the swarm
-- has, declares behind its key the number of bytes that follow, and they are the addresses of the
-- first `n` peers of `after` and then `before`, each peer once. The swarm keeps its peers.
pub get_peers_compact :
    (six : Bool) (n : ℕ) (before after : PeerMap)
    → Distinct (before ++ after)
    → HasWidth (entry_size six) (after ++ before)
    → n ≤ length (after ++ before)
    → let listing = texts true (take n (after ++ before)) in
      (ps : Peers) × (get_peers (at_parts before after) (pos n) six true
        ≡ ok (list_key six ++ (to_string (length listing) ++ (codes ":" ++ listing)), ps))
      × (length listing ≡ entry_size six * n)
      × (ps.p_map ≡ before ++ after)
unfolding get_peers
get_peers_compact six n before after d h k =
    let (ps, listed_all, same) = collect_rotation true n before after d k in
    let size = length-texts (entry_size six) n (after ++ before) h k in
    (ps, rw listed_all (rw (size, declared six n)), size, same)

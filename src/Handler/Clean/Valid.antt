-- ===== src/Handler/Clean/Valid.antt =====
-- The timer's pass keeps the tracker valid, and never fails on a valid one.
use liquid.Base.{ℕ, ◌≡◌, refl, ltb, true, [], ◌∷◌, Bytes, bytes_eq, nat_eq, if_case, if◌then◌else◌}
use liquid.Base.Dict.{
  Dict, erase, modify, Distinct, Distinct-erase, Distinct-modify, Each-erase, Each-modify,
}
use liquid.Base.Outcome.{ok, Ends, Ends-ok, Ends-after, Ends-bind, Ends-if, ◌>>=◌}
use liquid.Config.{Vars, is_public}
use liquid.Peer.{Peer, timed_out, inactive}
use liquid.Peers.{Peers, PeerMap, remove_key}
use liquid.Peers.TimedOut.{Sweep, expire, sweep, timed_out_peers}
use liquid.Peers.TimedOut.Sound.{AllOwned}
use liquid.Stats.{dec_torrents}
use liquid.Torrent.{Torrent, Swarm, seeding, seeding6, leeching, leeching6, get_swarm}
use liquid.Database.{Database, Heap, record_peer, record_torrent}
use liquid.Database.Accounts.{owned}
use liquid.Handler.{Tracker, get_user}
use liquid.Handler.Clean.{
  Pass, clear_swarm, clear_swarms, is_empty, finish_torrent, clear_each, clear_torrent_peers,
}
use liquid.Handler.Clean.Expiry.{IsSound, AllSound, clear_torrent_peers_total}
use liquid.Handler.Update.Grounded.{Grounded}
use liquid.Handler.Update.Valid.{Kept}
use liquid.Handler.Valid.{IsValid, IsSound-set_swarm}

module _ (vars : Vars) (heap : Heap) where
  -- What `IsSound` says of one swarm.
  abbrev pub Fine : Peers → Type 0
  Fine ps = Distinct ps.p_map × AllOwned vars heap ps.p_map

  pub Fine-remove_key : (key : Bytes) (ps : Peers) → Fine ps → Fine (remove_key key ps)
  unfolding remove_key
  Fine-remove_key key ps (d, o) =
      (Distinct-erase key ps.p_map d, Each-erase (λ p. owned vars heap p ≡ true) key ps.p_map o)

module _ (vars : Vars) (heap : Heap) (now : ℕ) where
  expire-Fine :
      (key : Bytes) (p : Peer) (s : Sweep)
      → Fine vars heap s.peers
      → Ends (λ r. Fine vars heap r.peers) (expire vars heap key p s)
  unfolding expire
  expire-Fine key p s f =
      Ends-after (λ (r : Sweep). Fine vars heap r.peers)
        (if is_public vars
          then ok s.db
          else (record_peer vars heap (inactive p) s.db >>= λ (_, db). ok db))
        _
        λ db.
          Ends-ok (λ (r : Sweep). Fine vars heap r.peers) _
            (Fine-remove_key vars heap key s.peers f)

  sweep-Fine :
      (m : PeerMap) (s : Sweep)
      → Fine vars heap s.peers
      → Ends (λ r. Fine vars heap r.peers) (sweep vars heap now m s)
  unfolding sweep
  sweep-Fine [] s f r e = Ends-ok (λ (r : Sweep). Fine vars heap r.peers) s f r e
  sweep-Fine ((key, p) ∷ m) s f r e =
      Ends-bind (λ (r : Sweep). Fine vars heap r.peers) (λ (r : Sweep). Fine vars heap r.peers)
        (if timed_out vars now p then expire vars heap key p s else ok s) _
        (Ends-if (λ (r : Sweep). Fine vars heap r.peers) (timed_out vars now p)
          (expire-Fine key p s f) (Ends-ok (λ (r : Sweep). Fine vars heap r.peers) s f))
        (λ s1 f1. sweep-Fine m s1 f1) r e

  Sounds : Pass → Type 0
  Sounds p = IsSound vars heap p.torrent

  clear_swarm-Sounds :
      (s : Swarm) (p : Pass) → Sounds p → Ends Sounds (clear_swarm vars heap now s p)
  unfolding clear_swarm timed_out_peers Sounds
  clear_swarm-Sounds s p h =
      Ends-bind (λ (r : Sweep). Fine vars heap r.peers) Sounds
        (timed_out_peers vars heap now (get_swarm s p.torrent) p.db) _
        (sweep-Fine (get_swarm s p.torrent).p_map
          (record { peers = get_swarm s p.torrent; db = p.db; changed = 0 }) (h s))
        λ r f. Ends-ok Sounds _ (IsSound-set_swarm vars heap s r.peers p.torrent f.0 f.1 h)

  clear_swarms-Sounds :
      (tor : Torrent) (db : Database)
      → IsSound vars heap tor
      → Ends Sounds (clear_swarms vars heap now tor db)
  unfolding clear_swarms
  clear_swarms-Sounds tor db h =
      Ends-bind Sounds Sounds _ _
        (clear_swarm-Sounds seeding (record { torrent = tor; db = db; changed = 0 })
          (unfold Sounds in h))
        λ p1 h1. Ends-bind Sounds Sounds _ _ (clear_swarm-Sounds seeding6 p1 h1) λ p2 h2.
          Ends-bind Sounds Sounds _ _ (clear_swarm-Sounds leeching p2 h2)
            λ p3 h3. clear_swarm-Sounds leeching6 p3 h3

-- The four parts of a tracker that the pass could break.
abbrev Whole : Vars → Heap → Tracker → Type 0
Whole vars heap t = Kept vars t × Grounded t × (t.heap ≡ heap)

module _ (vars : Vars) (now : ℕ) (heap : Heap) where
  finish-Whole :
      (h : Bytes) (p : Pass) (t : Tracker)
      → IsSound vars heap p.torrent
      → Whole vars heap t
      → Whole vars heap (finish_torrent vars h p t)
  unfolding finish_torrent get_user
  finish-Whole h p t s ((d, a), g, e) =
      let W : Tracker → Type 0 = Whole vars heap in
      let here : IsSound vars t.heap p.torrent = rw e s in
      let m = modify h (λ _. p.torrent) t.tor_map in
      let kept : Kept vars (record t { tor_map = m }) = (
        Distinct-modify h (λ _. p.torrent) t.tor_map d,
        Each-modify (IsSound vars t.heap) h (λ _. p.torrent) t.tor_map (λ _ _. here) a,
      ) in
      let gone : Kept vars (record t { tor_map = erase h t.tor_map }) =
        (Distinct-erase h t.tor_map d, Each-erase (IsSound vars t.heap) h t.tor_map a) in
      let db = if ltb 0 p.changed then record_torrent p.torrent p.db else p.db in
      let forgotten : Tracker = record t {
        tor_map = erase h t.tor_map;
        db = p.db;
        stats = dec_torrents t.stats;
      } in
      let public : Tracker =
        if is_empty p.torrent then forgotten else record t { tor_map = m; db = p.db } in
      if_case W (is_public vars) {x = public} {y = record t { tor_map = m; db = db }}
        (if_case W (is_empty p.torrent) {x = forgotten} {y = record t { tor_map = m; db = p.db }}
          (gone, g, e) (kept, g, e))
        (kept, g, e)

  clear_each-Whole :
      (rest : Dict Bytes Torrent) (t : Tracker)
      → AllSound vars heap rest
      → Whole vars heap t
      → Ends (Whole vars heap) (clear_each vars now rest t)
  unfolding clear_each
  clear_each-Whole [] t a w t' e = Ends-ok (Whole vars heap) t w t' e
  clear_each-Whole ((h, tor) ∷ rest) t (s, a) w t' e =
      Ends-bind (Sounds vars heap now) (Whole vars heap) (clear_swarms vars t.heap now tor t.db) _
        (rw (w.2) (clear_swarms-Sounds vars heap now tor t.db s))
        (λ p q.
          clear_each-Whole rest (finish_torrent vars h p t) a
            (finish-Whole h p t (unfold Sounds in q) w))
        t' e

-- The pass that the timer makes over a tracker that is valid ends, whatever the time: no map is read
-- out of range and no null or stale pointer is followed. It leaves the tracker valid.
pub clear_torrent_peers-IsValid :
    (vars : Vars) (now : ℕ) (t : Tracker)
    → IsValid vars t
    → (t' : Tracker) × (clear_torrent_peers vars now t ≡ ok t') × IsValid vars t'
clear_torrent_peers-IsValid vars now t v =
    let (t', run, _) = clear_torrent_peers_total vars now t v.torrents_once v.sound in
    let ((d, a), g, e) =
      clear_each-Whole vars now t.heap t.tor_map t v.sound
        ((v.torrents_once, v.sound), v.grounded, refl) t' (unfold clear_torrent_peers in run) in
    (t', run, record { torrents_once = d; sound = a; grounded = g })

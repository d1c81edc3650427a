-- ===== src/Server/Started.antt =====
-- What a server has asked of the system when it listens, and what is left when it does not.
use liquid.Base.{ℕ, ◌≡◌, refl, true, false, some, List, [], ◌∷◌, ◌++◌}
use liquid.Base.Outcome.{Outcome, ok, stop}
use liquid.Kernel.{
  Kernel, Call, History, socket, set_reuse_address, set_v6_only, bind, listen, next,
}
use liquid.Kernel.Answered.{Answered, unchanged, called, Failed, after_perform}
use liquid.Config.{Vars}
use liquid.Server.{
  bind_and_listen, Family, ipv4, ipv6, is_ipv6, Server, set_socket_options, new_server,
}

abbrev pub options_of : Family → ℕ → List Call
options_of (ipv6 true) sock = set_v6_only sock ∷ set_reuse_address sock ∷ []
options_of (ipv6 false) sock = set_reuse_address sock ∷ []
options_of ipv4 sock = set_reuse_address sock ∷ []

-- A history with the calls that make a socket listen, the latest first.
abbrev pub listening : Family → ℕ → ℕ → History → History
listening family port sock start =
    listen sock 1
    ∷ bind sock (is_ipv6 family) port
    ∷ (options_of family sock ++ socket (is_ipv6 family) ∷ start)

-- How a constructor ends.
abbrev pub Started : Kernel → Family → ℕ → History → History × Outcome Server → Type 0
Started k family port start (calls, ok s) =
    (k.answer start (socket (is_ipv6 family)) ≡ some s.sock)
    × (calls ≡ listening family port s.sock start)
    × (s.family ≡ family)
    × Answered k start calls
Started k family port start (calls, stop e) = Failed k start calls e

module _ (k : Kernel) (vars : Vars) (port : ℕ) (start : History) where
  bind_and_listen-Started :
      (family : Family) (sock : ℕ)
      → let calls : History = options_of family sock ++ socket (is_ipv6 family) ∷ start in
        k.answer start (socket (is_ipv6 family)) ≡ some sock
        → Answered k start calls
        → Started k family port start (bind_and_listen k vars family port sock calls)
  bind_and_listen-Started family sock opened done =
      let P : History × Outcome Server → Type 0 = Started k family port start in
      let b : Call = bind sock (is_ipv6 family) port in
      after_perform P k _ _ b (λ e. (refl, e, done))
        λ x bound.
          after_perform P k _ _ (listen sock 1) (λ e. (refl, e, called b x done bound))
            λ y listens.
              (opened, refl, refl, called (listen sock 1) y (called b x done bound) listens)

  -- A constructor that returns has made exactly the calls that open a socket of its family, set
  -- SO_REUSEADDR on it, and IPV6_V6ONLY where it takes IPv6 alone, bind it to the port, and listen,
  -- in this order and each with success. The descriptor in these calls, which the server keeps, is the
  -- one that the call of socket has given. One that throws does so at the first call that fails, after
  -- which it makes no other.
  pub new_server-Started :
      (family : Family) → Started k family port start (new_server k vars family port start)
  unfolding new_server set_socket_options
  new_server-Started family =
      let P : History × Outcome Server → Type 0 = Started k family port start in
      let opening : Call = socket (is_ipv6 family) in
      let bare : Answered k start start = unchanged in
      after_perform P k _ start opening (λ e. (refl, e, bare)) λ sock e. options_set family sock e
    where
      options_set :
          (family : Family) (sock : ℕ)
          → k.answer start (socket (is_ipv6 family)) ≡ some sock
          → Started k family port start (
              next
                (set_socket_options k family sock (socket (is_ipv6 family) ∷ start))
                (λ _. bind_and_listen k vars family port sock))
      options_set ipv4 sock e =
          let opened : Answered k start (socket false ∷ start) = called _ sock unchanged e in
          let reuse : Call = set_reuse_address sock in
          after_perform (Started k ipv4 port start) k _ _ reuse (λ f. (refl, f, opened))
            λ r f. bind_and_listen-Started ipv4 sock e (called reuse r opened f)
      options_set (ipv6 false) sock e =
          let opened : Answered k start (socket true ∷ start) = called _ sock unchanged e in
          let reuse : Call = set_reuse_address sock in
          after_perform (Started k (ipv6 false) port start) k _ _ reuse (λ f. (refl, f, opened))
            λ r f. bind_and_listen-Started (ipv6 false) sock e (called reuse r opened f)
      options_set (ipv6 true) sock e =
          let P : History × Outcome Server → Type 0 = Started k (ipv6 true) port start in
          let opened : Answered k start (socket true ∷ start) = called _ sock unchanged e in
          let reuse : Call = set_reuse_address sock in
          let only : Call = set_v6_only sock in
          after_perform (λ r. P (next r λ _. bind_and_listen k vars (ipv6 true) port sock)) k _ _
            reuse (λ f. (refl, f, opened))
            λ r f.
              after_perform P k (λ _. bind_and_listen k vars (ipv6 true) port sock) _ only
                (λ g. (refl, g, called reuse r opened f))
                λ o g.
                  bind_and_listen-Started (ipv6 true) sock e
                    (called only o (called reuse r opened f) g)

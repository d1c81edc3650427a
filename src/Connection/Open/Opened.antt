-- ===== src/Connection/Open/Opened.antt =====
-- What a connection has asked of the system when it is set up, and what is left when it is not.
use Prim.Native.Nat.{bit_or}
use liquid.Base.{
  ℕ, ◌≡◌, refl, Bool, false, not, ◌&&◌, ◌||◌, Option, none, some, [], ◌∷◌, ◌==◌, nat_eq, Bytes,
  if◌then◌else◌,
}
use liquid.Base.Outcome.{Outcome, ok, stop}
use liquid.Kernel.{
  Kernel, Call, History, accept, close, get_flags, set_flags, get_peer_name, inet_ntop, next, pure,
  Io,
}
use liquid.Kernel.Answered.{Answered, unchanged, called, Failed, after_perform}
use liquid.Config.{Vars}
use liquid.Connection.{Connection, new_connection}
use liquid.Connection.Address
use liquid.Connection.Open.{set_socket_options, get_peer_info, text_of, open_connection}

abbrev gives : ℕ → Option ℕ → Bool
gives fd none = false
gives fd (some d) = d == fd

-- A descriptor that accept has given and close has not taken back.
abbrev pub is_open : Kernel → ℕ → History → Bool
is_open k fd [] = false
is_open k fd (accept s ∷ calls) = gives fd (k.answer calls (accept s)) || is_open k fd calls
is_open k fd (close d ∷ calls) = not (d == fd) && is_open k fd calls
is_open k fd (_ ∷ calls) = is_open k fd calls

-- The history when a connection has asked for the address of its peer, the latest call first.
abbrev named : Kernel → ℕ → ℕ → History → History
named k sock flags start =
    get_peer_name sock ∷ set_flags sock (bit_or flags k.o_nonblock) ∷ get_flags sock ∷ start

-- The connection to a client: its address is the text of what getpeername gives, and is taken for an
-- IPv6 one as `get_peer_info` says where the server has that family, else for an IPv4 one.
abbrev connected : Kernel → Vars → Bool → Bytes → Connection
connected k vars family client =
    let text : Bytes = k.address_text family client in
    let r : Bytes × Bool = if family then Address.get_peer_info text else (text, false) in
    new_connection vars r.0 r.1

-- How the set-up ends: with the connection to its client, on a socket that no longer blocks, or at
-- the first call that fails.
abbrev pub Opened : Kernel → Vars → Bool → ℕ → History → History × Outcome Connection → Type 0
Opened k vars family sock start (calls, ok c) =
    (flags : ℕ) × (k.answer start (get_flags sock) ≡ some flags)
    × (let last : History = named k sock flags start in
        let client : Bytes = k.peer_address last sock in
        (calls ≡ inet_ntop family client ∷ last) × (c ≡ connected k vars family client))
    × Answered k start calls
    × (is_open k sock calls ≡ is_open k sock start)
Opened k vars family sock start (calls, stop e) =
    Failed k start calls e × (is_open k sock calls ≡ is_open k sock start)

module _ (k : Kernel) (vars : Vars) (family : Bool) (sock : ℕ) (start : History) where
  pub open_connection-Opened :
      Opened k vars family sock start (open_connection k vars family sock start)
  unfolding open_connection set_socket_options get_peer_info
  open_connection-Opened =
      let P : History × Outcome Connection → Type 0 = Opened k vars family sock start in
      let finish : Bytes × Bool → Io Connection = λ r. pure (new_connection vars r.0 r.1) in
      let rest : ℕ → Io Connection = λ _ calls. next (get_peer_info k family sock calls) finish in
      after_perform (λ r. P (next r rest)) k _ start (get_flags sock)
        (λ e. ((refl, e, unchanged), refl))
        λ flags e1.
          let set : Call = set_flags sock (bit_or flags k.o_nonblock) in
          let got = called (get_flags sock) flags unchanged e1 in
          after_perform P k rest _ set (λ e. ((refl, e, got), refl))
            λ x e2.
              let named : History = get_peer_name sock ∷ set ∷ get_flags sock ∷ start in
              let client : Bytes = k.peer_address named sock in
              let nonblocking = called set x got e2 in
              after_perform (λ r. P (next r finish)) k
                (λ _ calls. text_of k family (k.peer_address calls sock) calls) _
                (get_peer_name sock) (λ e. ((refl, e, nonblocking), refl))
                λ y e3.
                  let asked = called (get_peer_name sock) y nonblocking e3 in
                  after_perform (λ r. P (next r finish)) k
                    (λ _. pure (
                      if family
                      then Address.get_peer_info (k.address_text family client)
                      else (k.address_text family client, false)))
                    named (inet_ntop family client) (λ e. ((refl, e, asked), refl))
                    λ z e4.
                      (flags, e1, (refl, refl), called (inet_ntop family client) z asked e4, refl)

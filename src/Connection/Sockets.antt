-- ===== src/Connection/Sockets.antt =====
-- The creation and the closing of the UDP socket in VideoServer/src/connection.c. The results of
-- `socket` and `bind` are a list in the state, and the calls made are logged there.
use fagprojekt.Base.{
  ℕ, ◌-◌, ◌%◌, ◌^◌, ◌<◌, ◌≡◌, ◌≢◌, ◌↔◌, inl, inr, refl, ap, Bool, true, false, ◌&&◌, ◌||◌,
  Bool-cases, List, [], ◌∷◌, ◌++◌, leb, ◌==◌, if◌then◌else◌, append_assoc, arith, htons, ok, exits,
  pending,
}
use fagprojekt.Process.{Process, pure, modify, ◌>>=◌, ◌>>◌}
use fagprojekt.Connection.{SockAddr, addr_match}

pub data SocketCall : Type 0 where
  socket : SocketCall
  bind : ℕ → SockAddr → SocketCall
  close : ℕ → SocketCall

-- The globals `sockfd` and `ownAddr`, the results of the calls to come, and the calls made.
pub record Sockets : Type 0 where
  pub sockfd : ℕ
  pub own_addr : SockAddr
  pub results : List ℕ
  pub calls : List SocketCall

abbrev pub af_inet : ℕ
af_inet = 2

abbrev pub minus_one : ℕ
minus_one = 2 ^ 32 - 1

log : SocketCall → Process Sockets (Unit {0})
log c = modify (λ s. record s { calls = s.calls ++ (c ∷ []) })

next_result : Process Sockets ℕ
next_result s = elim s.results [ [] ↦ pending | n ∷ rest ↦ ok (n, record s { results = rest }) ]

exit_if : Bool → Process Sockets (Unit {0})
exit_if failed s = if failed then exits 1 else ok (tt, s)

-- The first lines of both functions.
unfoldable pub open_socket : Process Sockets (Unit {0})
unfolding log next_result exit_if
open_socket = do
  log socket
  fd ← next_result
  modify (λ s. record s { sockfd = fd })
  exit_if (fd == minus_one)

-- INADDR_ANY is 0; the result of `bind` is an `int`.
unfoldable pub init_server_socket_udp : ℕ → Process Sockets (Unit {0})
unfolding open_socket log next_result exit_if
init_server_socket_udp port = do
  open_socket
  modify (λ s. record s { own_addr = record { family = af_inet; addr = 0; port = htons port } })
  (λ s. log (bind s.sockfd s.own_addr) s)
  bound ← next_result
  exit_if (leb (2 ^ 31) bound)

-- `ip` is what `inet_addr` makes of the text; the result is what `*serverAddr` becomes.
unfoldable pub init_client_socket_udp : ℕ → ℕ → Process Sockets SockAddr
unfolding open_socket
init_client_socket_udp ip port = do
  open_socket
  pure (record { family = af_inet; addr = ip; port = htons port })

unfoldable pub close_connection : Process Sockets (Unit {0})
unfolding log
close_connection s = log (close s.sockfd) s

abbrev pub bound_to : ℕ → List ℕ → ℕ → Sockets → Sockets
bound_to fd later port s =
    let own : SockAddr = record { family = af_inet; addr = 0; port = htons port } in
    record {
      sockfd = fd;
      own_addr = own;
      results = later;
      calls = s.calls ++ (socket ∷ bind fd own ∷ []);
    }

pub open_socket_lem :
    (fd : ℕ) (later : List ℕ) (s : Sockets)
    → s.results ≡ fd ∷ later
    → open_socket s ≡ (
        if fd == minus_one
        then exits 1
        else ok (tt, record s { sockfd = fd; results = later; calls = s.calls ++ (socket ∷ []) }))
unfolding open_socket
open_socket_lem fd later s e = elim (Bool-cases (fd == minus_one)) [
  | inl bad ↦ rw (e, ◌>>=◌, bad) refl
  | inr good ↦ rw (e, ◌>>=◌, good) refl
]

-- The server's socket: with `fd` from `socket` and `r` from `bind`, the program exits with 1 if `fd`
-- is -1 or `r` is negative; else the socket is bound to the port on every address of the host.
pub init_server_socket_udp_lem :
    (fd r port : ℕ) (later : List ℕ) (s : Sockets)
    → s.results ≡ fd ∷ r ∷ later
    → init_server_socket_udp port s
      ≡ (if fd == minus_one || leb (2 ^ 31) r then exits 1 else ok (tt, bound_to fd later port s))
unfolding init_server_socket_udp
init_server_socket_udp_lem fd r port later s e = elim (Bool-cases (fd == minus_one)) [
  | inl bad ↦ rw (open_socket_lem fd (r ∷ later) s e, ◌>>=◌, bad) refl
  | inr good ↦ elim (Bool-cases (leb (2 ^ 31) r)) [
    | inl neg ↦ rw (open_socket_lem fd (r ∷ later) s e, ◌>>=◌, good, neg) refl
    | inr bound ↦
        rw (open_socket_lem fd (r ∷ later) s e, ◌>>=◌, good, bound)
          (ap (λ c. ok (tt, record (bound_to fd later port s) { calls = c })) (simp append_assoc))
  ]
]

htons_inj : (a b : ℕ) → a < 2 ^ 16 → htons a ≡ htons b → a ≡ b % 2 ^ 16
htons_inj a b h e = omega arith

htons-mod : (a b : ℕ) → a ≡ b % 2 ^ 16 → htons a ≡ htons b
htons-mod a b e = omega arith

match_fields :
    (a b p q : ℕ)
    → p < 2 ^ 16
    → ((a == b && htons p == htons q) ≡ true) ↔ ((a ≡ b) × (p ≡ q % 2 ^ 16))
match_fields a b p q h = ground (arith, htons_inj p q h, htons-mod p q)

-- When `socket` does not fail: for a sender bound to a port below 65536, the client takes the sender's
-- address for its server's exactly if it is the address given and the port is the one given modulo
-- 65536.
pub init_client_socket_udp-addr_match :
    (fd ip port addr' port' : ℕ) (later : List ℕ) (s : Sockets)
    → fd ≢ minus_one
    → port' < 2 ^ 16
    → s.results ≡ fd ∷ later
    → (server_addr : SockAddr) × (s' : Sockets) × (init_client_socket_udp ip port s
        ≡ ok (server_addr, s'))
      × (s'.sockfd ≡ fd)
      × ((addr_match (record { family = af_inet; addr = addr'; port = htons port' }) server_addr
            ≡ true)
          ↔ ((addr' ≡ ip) × (port' ≡ port % 2 ^ 16)))
unfolding init_client_socket_udp addr_match
init_client_socket_udp-addr_match fd ip port addr' port' later s good small' e =
    let opened : (fd == minus_one) ≡ false = ground arith in
    let server_addr : SockAddr = record { family = af_inet; addr = ip; port = htons port } in
    let s' : Sockets = record s {
      sockfd = fd;
      results = later;
      calls = s.calls ++ (socket ∷ []);
    } in
    (
      server_addr,
      s',
      rw (open_socket_lem fd later s e, ◌>>=◌, opened) refl,
      refl,
      match_fields addr' ip port' port small',
    )

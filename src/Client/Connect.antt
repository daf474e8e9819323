-- ===== src/Client/Connect.antt =====
-- `client::connect_server`. The calls of the operating system are parameters.
use chat.Common.{
  ℕ, ◌≡◌, refl, Bool, true, not, Option, none, some, if◌then◌else◌, Status, if_cases, not-eq-false,
}
use chat.Protocol.Header.{port}

pub record Sockets : Type 0 where
  pub sigaction : Bool
  pub socket : Option ℕ
  pub connect : ℕ → ℕ → ℕ → Bool

-- The members `server_fd_`, of which -1 is `none`, and `n_ip_addr_`.
pub record Socket : Type 0 where
  pub server_fd_ : Option ℕ
  pub n_ip_addr_ : ℕ

unfoldable pub connect_at : Sockets → ℕ → Socket → Status × Socket
connect_at sys fd c =
    if not (sys.connect fd c.n_ip_addr_ port) then (Status.error, c) else (Status.ok, c)

unfoldable pub connect_server : Sockets → ℕ → Socket → Status × Socket
unfolding connect_at
connect_server sys n_ip_addr c = if not sys.sigaction then (Status.error, c) else elim sys.socket [
  | none ↦ (Status.error, record { server_fd_ = none; n_ip_addr_ = n_ip_addr })
  | some fd ↦ connect_at sys fd (record { server_fd_ = some fd; n_ip_addr_ = n_ip_addr })
]

-- A client that is connected.
pub record Connected (sys : Sockets) (n : ℕ) (c : Socket) : Type 0 where
  pub fd : ℕ
  pub kept : c.server_fd_ ≡ some fd
  pub created : sys.socket ≡ some fd
  pub connected : sys.connect fd n port ≡ true

abbrev pub Reached : Sockets → ℕ → Status × Socket → Type 0
Reached sys n (Status.ok, c) = Connected sys n c
Reached sys n (Status.error, c) = Unit {0}
Reached sys n (st, c) = ⊥

socket_cases :
    (sys : Sockets) (n : ℕ) (c : Socket) (o : Option ℕ)
    → sys.socket ≡ o
    → Reached sys n (elim o [
      | none ↦ (Status.error, record { server_fd_ = none; n_ip_addr_ = n })
      | some fd ↦ connect_at sys fd (record { server_fd_ = some fd; n_ip_addr_ = n })
    ])
unfolding connect_at
socket_cases sys n c none e = tt
socket_cases sys n c (some fd) e =
    if_cases (Reached sys n) (not (sys.connect fd n port)) _ _ (λ e1. tt)
      λ e1. record {
        fd = fd;
        kept = refl;
        created = e;
        connected = not-eq-false (sys.connect fd n port) e1;
      }

-- The status is OK or an error, and OK only with a socket that is kept and that was connected to the
-- given address, on the port that the server listens on.
pub connect_server-Reached :
    (sys : Sockets) (n : ℕ) (c : Socket) → Reached sys n (connect_server sys n c)
unfolding connect_server
connect_server-Reached sys n c =
    if_cases (Reached sys n) (not sys.sigaction) _ _ (λ e. tt)
      λ e. socket_cases sys n c sys.socket refl

-- ===== src/Server/Startup.antt =====
-- `server::run` with `parse_args`, `start_listening` and `start_accepting`. The calls of the operating
-- system are parameters: what each returns, from what it is given.
pub mod Outcomes
use chat.Common.{
  ℕ, ◌||◌, Bool, true, false, not, Option, none, some, List, [], ◌∷◌, if◌then◌else◌, Str, str_eq,
  Status,
}
use chat.Protocol.Header.{port}

-- Which calls succeed, and with what. `accept` gives a descriptor, or -1, which is `none`.
pub record System : Type 0 where
  pub inet_pton : Str → Option ℕ
  pub sigaction : Bool
  pub socket : Option ℕ
  pub setsockopt : ℕ → Bool
  pub bind : ℕ → ℕ → ℕ → Bool
  pub listen : ℕ → ℕ → Bool
  pub accepts : List (Option ℕ)

-- The members but for the database. A descriptor of -1 is `none`.
pub record Server : Type 0 where
  pub server_fd_ : Option ℕ
  pub n_ip_addr_ : ℕ
  pub str_ip_addr_ : Str

-- `cmdline_args`, or the exception. Where help is asked for, no address is stored.
pub data CmdlineArgs : Type 0 where
  help : CmdlineArgs
  address : ℕ → CmdlineArgs
  wrong_number invalid_address : CmdlineArgs

abbrev pub dash_h : Str
dash_h = b'-' ∷ b'h' ∷ []

abbrev pub is_help : Str → Bool
is_help a = str_eq a dash_h

abbrev pub parse_address : (Str → Option ℕ) → Str → CmdlineArgs
parse_address inet_pton a = elim (inet_pton a) [ none ↦ invalid_address | some n ↦ address n ]

unfoldable pub parse_args : (Str → Option ℕ) → List Str → CmdlineArgs
parse_args inet_pton (prog ∷ a ∷ []) = if is_help a then help else parse_address inet_pton a
parse_args inet_pton (prog ∷ a ∷ b ∷ []) =
    if is_help a || is_help b then help else parse_address inet_pton a
parse_args inet_pton argv = wrong_number

-- Behind the call of `socket`.
unfoldable pub listen_on : System → ℕ → Server → Status × Server
listen_on sys fd s =
    if not (sys.setsockopt fd)
    then (Status.error, s)
    else if not (sys.bind fd s.n_ip_addr_ port)
    then (Status.error, s)
    else if not (sys.listen fd 32)
    then (Status.error, s)
    else (Status.ok, s)

unfoldable pub start_listening : System → Server → Status × Server
unfolding listen_on
start_listening sys s = if not sys.sigaction then (Status.error, s) else elim sys.socket [
  | none ↦ (Status.error, record s { server_fd_ = none })
  | some fd ↦ listen_on sys fd (record s { server_fd_ = some fd })
]

-- A thread that runs `handle_client` on a descriptor.
pub data Thread : Type 0 where
  handles : Option ℕ → Thread

-- The loop has no end: these are the threads that it has started when `accept` has no more to give.
unfoldable pub start_accepting : List (Option ℕ) → List Thread
start_accepting [] = []
start_accepting (fd ∷ fds) = handles fd ∷ start_accepting fds

-- `run` returns, or it goes on accepting for ever.
pub data Run : Type 0 where
  returned : Status → Server → Run
  accepting : Server → List Thread → Run

unfoldable pub serve_at : System → Server → Run
unfolding start_listening start_accepting
serve_at sys s =
    let r = start_listening sys s in
    elim r.0 [ Status.ok ↦ accepting r.1 (start_accepting sys.accepts) | _ ↦ returned r.0 r.1 ]

-- `argv[1]`
abbrev pub first_argument : List Str → Str
first_argument (prog ∷ a ∷ rest) = a
first_argument argv = []

unfoldable pub run : System → List Str → Server → Run
unfolding parse_args serve_at
run sys argv s = elim (parse_args sys.inet_pton argv) [
  | help ↦ returned Status.ok s
  | address n ↦ serve_at sys (record s { n_ip_addr_ = n; str_ip_addr_ = first_argument argv })
  | wrong_number ↦ returned Status.error s
  | invalid_address ↦ returned Status.error s
]

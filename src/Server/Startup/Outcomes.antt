-- ===== src/Server/Startup/Outcomes.antt =====
-- How `server::run` ends, if it ends.
use chat.Common.{
  ℕ, ◌≡◌, ◌≢◌, ◌⊎◌, refl, ap, sym, ◌∙◌, Bool, true, false, ◌||◌, not, length, arith, str_eq_iff,
  Bool-cases, inl, inr, Option, none, some, List, [], ◌∷◌, Str, Status, if_cases, not-eq-false, map,
}
use chat.Protocol.Header.{port}
use chat.Server.Startup.{
  System, Server, CmdlineArgs, help, address, wrong_number, invalid_address, dash_h, is_help,
  parse_address, parse_args, listen_on, start_listening, Thread, handles, start_accepting, Run,
  returned, accepting, serve_at, first_argument, run,
}

-- A server that listens: each call succeeded, and on the same descriptor.
pub record Listening (sys : System) (s : Server) : Type 0 where
  pub fd : ℕ
  pub kept : s.server_fd_ ≡ some fd
  pub pipes_ignored : sys.sigaction ≡ true
  pub created : sys.socket ≡ some fd
  pub reusable : sys.setsockopt fd ≡ true
  pub bound : sys.bind fd s.n_ip_addr_ port ≡ true
  pub listens : sys.listen fd 32 ≡ true

-- A call that is needed to listen on address `n`, and that failed.
pub data Refusal (sys : System) (n : ℕ) : Type 0 where
  pipes_not_ignored : sys.sigaction ≡ false → Refusal sys n
  no_socket : sys.socket ≡ none → Refusal sys n
  not_reusable : (fd : ℕ) → sys.socket ≡ some fd → sys.setsockopt fd ≡ false → Refusal sys n
  not_bound : (fd : ℕ) → sys.socket ≡ some fd → sys.bind fd n port ≡ false → Refusal sys n
  not_listening : (fd : ℕ) → sys.socket ≡ some fd → sys.listen fd 32 ≡ false → Refusal sys n

-- What the two statuses of `start_listening` tell.
abbrev Listened : System → Status × Server → Type 0
Listened sys (Status.ok, s) = Listening sys s
Listened sys (Status.error, s) = Refusal sys s.n_ip_addr_
Listened sys (st, s) = ⊥

not-eq-true : (b : Bool) → not b ≡ true → b ≡ false
not-eq-true true e = absurd (cc)
not-eq-true false e = refl

listen_on-Listened :
    (sys : System) (fd : ℕ) (s : Server)
    → s.server_fd_ ≡ some fd
    → sys.sigaction ≡ true
    → sys.socket ≡ some fd
    → Listened sys (listen_on sys fd s)
unfolding listen_on
listen_on-Listened sys fd s kept ignored created =
    if_cases (Listened sys) (not (sys.setsockopt fd)) _ _
      (λ e. not_reusable fd created (not-eq-true (sys.setsockopt fd) e))
      λ e.
        if_cases (Listened sys) (not (sys.bind fd s.n_ip_addr_ port)) _ _
          (λ e1. not_bound fd created (not-eq-true (sys.bind fd s.n_ip_addr_ port) e1))
          λ e1.
            if_cases (Listened sys) (not (sys.listen fd 32)) _ _
              (λ e2. not_listening fd created (not-eq-true (sys.listen fd 32) e2))
              λ e2. record {
                fd = fd;
                kept = kept;
                pipes_ignored = ignored;
                created = created;
                reusable = not-eq-false (sys.setsockopt fd) e;
                bound = not-eq-false (sys.bind fd s.n_ip_addr_ port) e1;
                listens = not-eq-false (sys.listen fd 32) e2;
              }

listen_on-same_address :
    (sys : System) (fd : ℕ) (s : Server) → (listen_on sys fd s).1.n_ip_addr_ ≡ s.n_ip_addr_
unfolding listen_on
listen_on-same_address sys fd s =
    let same = λ (r : Status × Server). r.1.n_ip_addr_ ≡ s.n_ip_addr_ in
    if_cases same (not (sys.setsockopt fd)) _ _ (λ e. refl)
      λ e.
        if_cases same (not (sys.bind fd s.n_ip_addr_ port)) _ _ (λ e1. refl)
          λ e1. if_cases same (not (sys.listen fd 32)) _ _ (λ e2. refl) (λ e2. refl)

module _ (sys : System) (s : Server) where
  socket_cases :
      (o : Option ℕ)
      → sys.socket ≡ o
      → sys.sigaction ≡ true
      → Listened sys (elim o [
        | none ↦ (Status.error, record s { server_fd_ = none })
        | some fd ↦ listen_on sys fd (record s { server_fd_ = some fd })
      ])
  socket_cases none e i = no_socket e
  socket_cases (some fd) e i =
      listen_on-Listened sys fd (record s { server_fd_ = some fd }) refl i e

  socket-same_address :
      (o : Option ℕ)
      → (elim o as (λ o. Status × Server) [
        | none ↦ (Status.error, record s { server_fd_ = none })
        | some fd ↦ listen_on sys fd (record s { server_fd_ = some fd })
      ]).1.n_ip_addr_
        ≡ s.n_ip_addr_
  socket-same_address none = refl
  socket-same_address (some fd) = listen_on-same_address sys fd (record s { server_fd_ = some fd })

  start_listening-Listened : Listened sys (start_listening sys s)
  unfolding start_listening
  start_listening-Listened =
      if_cases (Listened sys) (not sys.sigaction) _ _
        (λ e. pipes_not_ignored (not-eq-true sys.sigaction e))
        λ e. socket_cases sys.socket refl (not-eq-false sys.sigaction e)

  start_listening-same_address : (start_listening sys s).1.n_ip_addr_ ≡ s.n_ip_addr_
  unfolding start_listening
  start_listening-same_address =
      if_cases (λ (r : Status × Server). r.1.n_ip_addr_ ≡ s.n_ip_addr_) (not sys.sigaction) _ _
        (λ e. refl) λ e. socket-same_address sys.socket

-- `-h` is the first argument, or the second of two.
abbrev pub AsksForHelp : List Str → Type 0
AsksForHelp (prog ∷ a ∷ []) = a ≡ dash_h
AsksForHelp (prog ∷ a ∷ b ∷ []) = (a ≡ dash_h) ⊎ (b ≡ dash_h)
AsksForHelp argv = ⊥

-- How `run` can end, by the arguments and the calls of the system.
pub data Ran (sys : System) (argv : List Str) : Run → Type 0 where
  helped : (s : Server) → AsksForHelp argv → Ran sys argv (returned Status.ok s)
  miscounted :
      (s : Server) → length argv ≢ 2 → length argv ≢ 3 → Ran sys argv (returned Status.error s)
  unreadable :
      (s : Server)
      → (AsksForHelp argv → ⊥)
      → sys.inet_pton (first_argument argv) ≡ none
      → Ran sys argv (returned Status.error s)
  gave_up :
      (s : Server)
      → (AsksForHelp argv → ⊥)
      → sys.inet_pton (first_argument argv) ≡ some s.n_ip_addr_
      → Refusal sys s.n_ip_addr_
      → Ran sys argv (returned Status.error s)
  serves :
      (s : Server) (ts : List Thread)
      → (AsksForHelp argv → ⊥)
      → Listening sys s
      → sys.inet_pton (first_argument argv) ≡ some s.n_ip_addr_
      → ts ≡ map handles sys.accepts
      → Ran sys argv (accepting s ts)

start_accepting-map : (fds : List (Option ℕ)) → start_accepting fds ≡ map handles fds
unfolding start_accepting
start_accepting-map [] = refl
start_accepting-map (fd ∷ fds) = ap (◌∷◌ (handles fd)) (start_accepting-map fds)

module _ (sys : System) (argv : List Str) where
  Listened-Ran :
      (r : Status × Server)
      → (AsksForHelp argv → ⊥)
      → Listened sys r
      → sys.inet_pton (first_argument argv) ≡ some r.1.n_ip_addr_
      → Ran sys argv (elim r.0 [
        | Status.ok ↦ accepting r.1 (start_accepting sys.accepts)
        | _ ↦ returned r.0 r.1
      ])
  Listened-Ran (Status.ok, s) n l e = serves s _ n l e (start_accepting-map sys.accepts)
  Listened-Ran (Status.error, s) n l e = gave_up s n e l
  Listened-Ran (Status.send_error, s) n l e = absurd l
  Listened-Ran (Status.receive_error, s) n l e = absurd l
  Listened-Ran (Status.closed_connection, s) n l e = absurd l
  Listened-Ran (Status.header_error, s) n l e = absurd l
  Listened-Ran (Status.body_error, s) n l e = absurd l

  -- What `parse_args` tells of the arguments.
  abbrev Parsed : CmdlineArgs → Type 0
  Parsed help = AsksForHelp argv
  Parsed (address n) = (AsksForHelp argv → ⊥) × (sys.inet_pton (first_argument argv) ≡ some n)
  Parsed wrong_number = (length argv ≢ 2) × (length argv ≢ 3)
  Parsed invalid_address = (AsksForHelp argv → ⊥) × (sys.inet_pton (first_argument argv) ≡ none)

parse_address-Parsed :
    (sys : System) (prog a : Str) (rest : List Str)
    → (AsksForHelp (prog ∷ a ∷ rest) → ⊥)
    → Parsed sys (prog ∷ a ∷ rest) (parse_address sys.inet_pton a)
parse_address-Parsed sys prog a rest n =
    elim (sys.inet_pton a)
        as (λ o.
          sys.inet_pton a ≡ o
          → Parsed sys (prog ∷ a ∷ rest) (elim o [ none ↦ invalid_address | some n ↦ address n ])) [
            | none ↦ λ e. (n, e)
            | some m ↦ λ e. (n, e)
          ]
      refl

asks : (a b : Str) → is_help a || is_help b ≡ true → (a ≡ dash_h) ⊎ (b ≡ dash_h)
asks a b e = elim (Bool-cases (is_help a)) [
  | inl h ↦ inl ((str_eq_iff a dash_h).0 h)
  | inr h ↦ inr ((str_eq_iff b dash_h).0 (ground arith))
]

asks_not : (a b : Str) → is_help a || is_help b ≡ false → (a ≡ dash_h) ⊎ (b ≡ dash_h) → ⊥
asks_not a b e (inl h) = ground (arith, (str_eq_iff a dash_h).1 h)
asks_not a b e (inr h) = ground (arith, (str_eq_iff b dash_h).1 h)

parse_args-Parsed :
    (sys : System) (argv : List Str) → Parsed sys argv (parse_args sys.inet_pton argv)
unfolding parse_args
parse_args-Parsed sys [] = (λ e. omega (arith, e), λ e. omega (arith, e))
parse_args-Parsed sys (prog ∷ []) = (λ e. omega (arith, e), λ e. omega (arith, e))
parse_args-Parsed sys (prog ∷ a ∷ []) =
    if_cases (Parsed sys (prog ∷ a ∷ [])) (is_help a) _ _ (λ e. (str_eq_iff a dash_h).0 e)
      λ e. parse_address-Parsed sys prog a [] λ h. ground (arith, (str_eq_iff a dash_h).1 h)
parse_args-Parsed sys (prog ∷ a ∷ b ∷ []) =
    if_cases (Parsed sys (prog ∷ a ∷ b ∷ [])) (is_help a || is_help b) _ _ (asks a b)
      λ e. parse_address-Parsed sys prog a (b ∷ []) (asks_not a b e)
parse_args-Parsed sys (prog ∷ a ∷ b ∷ c ∷ rest) = (λ e. omega (arith, e), λ e. omega (arith, e))

run_at-Ran :
    (sys : System) (argv : List Str) (s : Server) (r : CmdlineArgs)
    → Parsed sys argv r
    → Ran sys argv (elim r [
      | help ↦ returned Status.ok s
      | address n ↦ serve_at sys (record s { n_ip_addr_ = n; str_ip_addr_ = first_argument argv })
      | wrong_number ↦ returned Status.error s
      | invalid_address ↦ returned Status.error s
    ])
unfolding serve_at
run_at-Ran sys argv s help p = helped s p
run_at-Ran sys argv s wrong_number p = miscounted s p.0 p.1
run_at-Ran sys argv s invalid_address p = unreadable s p.0 p.1
run_at-Ran sys argv s (address n) p =
    let s1 = record s { n_ip_addr_ = n; str_ip_addr_ = first_argument argv } in
    Listened-Ran sys argv (start_listening sys s1) p.0 (start_listening-Listened sys s1)
      (p.1 ∙ ap some (sym (start_listening-same_address sys s1)))

-- For all arguments and all results of the system's calls: `run` returns OK only if there are one or
-- two arguments and `-h` is among them. It returns an error only if there are neither one nor two
-- arguments; or if there are, without `-h`, and the first names no address, or one of the calls for
-- that address failed. No other status is returned. And it goes on accepting only without `-h`, with a
-- socket on which every call succeeded, bound to the address that the first argument names, and with
-- one thread for each result of `accept`.
pub run-Ran : (sys : System) (argv : List Str) (s : Server) → Ran sys argv (run sys argv s)
unfolding run
run-Ran sys argv s =
    run_at-Ran sys argv s (parse_args sys.inet_pton argv) (parse_args-Parsed sys argv)

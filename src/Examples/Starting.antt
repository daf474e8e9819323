-- ===== src/Examples/Starting.antt =====
-- The start of a server and of a client, and integers of the other byte order.
use chat.Common.{◌≡◌, refl, true, none, some, [], ◌∷◌, if◌then◌else◌, Str, str_eq}
use chat.Endianness.Big.{e_htobe16, e_htobe64}
use chat.Server.Startup.{
  System, Server, accepting, handles, parse_args, start_listening, listen_on, start_accepting,
  serve_at, run,
}
use chat.Server.Startup.Outcomes.{Ran, run-Ran}

abbrev localhost : Str
localhost = b'1' ∷ b'2' ∷ b'7' ∷ b'.' ∷ b'0' ∷ b'.' ∷ b'0' ∷ b'.' ∷ b'1' ∷ []

abbrev program : Str
program = b's' ∷ []

-- A system that knows one address, and on which two clients connect.
abbrev willing : System
willing = record {
  inet_pton = λ a. if str_eq a localhost then some 16777343 else none;
  sigaction = true;
  socket = some 3;
  setsockopt = λ fd. true;
  bind = λ fd addr p. true;
  listen = λ fd n. true;
  accepts = some 4 ∷ some 5 ∷ [];
}

abbrev unstarted : Server
unstarted = record { server_fd_ = none; n_ip_addr_ = 0; str_ip_addr_ = [] }

accepts_two :
    run willing (program ∷ localhost ∷ []) unstarted
    ≡ accepting
        (record { server_fd_ = some 3; n_ip_addr_ = 16777343; str_ip_addr_ = localhost })
        (handles (some 4) ∷ handles (some 5) ∷ [])
unfolding run parse_args serve_at start_listening listen_on start_accepting str_eq
accepts_two = refl

run-Ran_example :
    Ran willing (program ∷ localhost ∷ []) (run willing (program ∷ localhost ∷ []) unstarted)
run-Ran_example = run-Ran willing (program ∷ localhost ∷ []) unstarted

-- Two of the assertions at the end of endianness.h.
asserted16 : e_htobe16 0xCDEF ≡ 0xEFCD
unfolding e_htobe16
asserted16 = refl

asserted64 : e_htobe64 0x0123456789ABCDEF ≡ 0xEFCDAB8967452301
unfolding e_htobe64
asserted64 = refl

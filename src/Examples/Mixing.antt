-- ===== src/Examples/Mixing.antt =====
-- Two connections at once: alice logs in again, and bob logs out in between.
use chat.Common.{
  All, ◌≡◌, refl, true, List, [], ◌∷◌, arith, lookup, insert, erase, contains, str_eq, str_lt,
  Status, Outcome, done,
}
use chat.Protocol.Header.{StatusCode, status_code}
use chat.Protocol.Requests.{Request}
use chat.Protocol.Responses.{Response}
use chat.Database.{Database, ThreadId, login, logout, registration, is_logged_in}
use chat.Database.Invariant.{WellFormed}
use chat.Database.Methods.{Method, perform}
use chat.Server.Interleaving.{Program, program, log_in, said, Runs, answered, called, meanwhile}
use chat.Server.Threads.{
  advance, Job, idle, busy, Task, free, Threads, put, all_at, Event, asked, told, Interleaved, stay,
  ask, work, tell, Serial,
}
use chat.Server.Threads.Invariant.{Interleaved-WellFormed}
use chat.Server.Threads.NoCrash.{IsNoCrash, interleaved-IsNoCrash}
use chat.Server.Threads.Refinement.{interleaved-Serial, interleaved_settled}
use chat.Examples.Accounts.{
  alice, secret, as_stored, as_stored-WalksKeys, registered_both, both_logged_in, both-WellFormed,
}
use chat.Examples.Serving.{both-Settled}

abbrev login_again : Request
login_again = Request.login alice secret

abbrev without_alice : Database
without_alice = (logout 1 both_logged_in).1

abbrev without_both : Database
without_both = (logout 2 without_alice).1

abbrev alice_back : Database
alice_back = (login 1 alice secret without_both).1

abbrev bob_out : Response
bob_out = Response.logout (status_code StatusCode.ok)

abbrev checked_bob : Program
checked_bob = Program.call Method.logout λ s. Program.answer bob_out

abbrev s0 : Threads Job
s0 = all_at idle both_logged_in

abbrev s1 : Threads Job
s1 = put 1 (busy (program login_again)) both_logged_in s0

abbrev s2 : Threads Job
s2 = put 1 (busy (Program.call Method.logout λ s. log_in alice secret)) both_logged_in s1

abbrev s3 : Threads Job
s3 = put 1 (busy (log_in alice secret)) without_alice s2

abbrev s4 : Threads Job
s4 = put 2 (busy (program Request.logout)) without_alice s3

abbrev s5 : Threads Job
s5 = put 2 (busy checked_bob) without_alice s4

abbrev s6 : Threads Job
s6 = put 2 (busy (Program.answer bob_out)) without_both s5

abbrev s7 : Threads Job
s7 = put 2 idle without_both s6

abbrev s8 : Threads Job
s8 = put 1 (busy (Program.answer (said Status.ok))) alice_back s7

abbrev s9 : Threads Job
s9 = put 1 idle alice_back s8

abbrev seen : List Event
seen = asked 1 login_again ∷ asked 2 Request.logout ∷ told 2 bob_out ∷ told 1 (said Status.ok) ∷ []

mixed : Interleaved s9 seen s0
unfolding program advance perform is_logged_in logout login registration both_logged_in
    registered_both lookup insert erase contains str_eq str_lt
mixed = ask 1 login_again _ s0 refl (
    work 1 as_stored _ _ _ _ s1 as_stored-WalksKeys refl refl (
      work 1 as_stored _ _ _ _ s2 as_stored-WalksKeys refl refl (
        ask 2 Request.logout _ s3 refl (
          work 2 as_stored _ _ _ _ s4 as_stored-WalksKeys refl refl (
            work 2 as_stored _ _ _ _ s5 as_stored-WalksKeys refl refl (
              tell 2 bob_out _ s6 refl (
                work 1 as_stored _ _ _ _ s7 as_stored-WalksKeys refl refl
                  (tell 1 (said Status.ok) _ s8 refl stay))))))))

all_idle : (u : ThreadId) → s9.at u ≡ idle
all_idle u = ground arith

interleaved-Serial_example :
    (a' : Threads Task) × Serial a' seen (all_at free both_logged_in)
    × (alice_back.users_ ≡ a'.database_.users_)
    × (alice_back.historical_users_ ≡ a'.database_.historical_users_)
interleaved-Serial_example = interleaved-Serial both_logged_in seen s9 mixed

interleaved_settled_example :
    (a' : Threads Task) × Serial a' seen (all_at free both_logged_in)
    × ((u : ThreadId) → a'.at u ≡ free)
    × (alice_back ≡ a'.database_)
interleaved_settled_example = interleaved_settled both_logged_in seen s9 mixed all_idle

Interleaved-WellFormed_example : WellFormed alice_back
Interleaved-WellFormed_example = Interleaved-WellFormed s9 seen s0 mixed both-WellFormed

abbrev back_in : Outcome (Response × Database)
back_in = done (said Status.ok, alice_back)

alone_but_for_bob : Runs as_stored 1 back_in (program login_again) both_logged_in
unfolding program perform is_logged_in logout login registration both_logged_in registered_both
    lookup insert erase contains str_eq str_lt
alone_but_for_bob = called Method.is_logged_in _ both_logged_in true both_logged_in refl (
    called Method.logout _ both_logged_in Status.ok without_alice refl (
      meanwhile _ without_alice without_both as_stored 2 Method.logout Status.ok (ground arith) refl
        (called (Method.login alice secret) _ without_both Status.ok alice_back refl
          (answered (said Status.ok) alice_back refl))))

interleaved-IsNoCrash_example : All IsNoCrash seen
interleaved-IsNoCrash_example =
    interleaved-IsNoCrash both_logged_in seen s9 both-WellFormed both-Settled.acting_exists
      (tt, (tt, (tt, (tt, tt)))) mixed

-- ===== src/Examples/Storage.antt =====
-- The database of alice and bob.
use chat.Common.{
  ℕ, ◌≡◌, ◌≢◌, ◌↔◌, refl, true, false, ◌++◌, none, some, [], ◌∷◌, arith, Str, nat_Key, str_Key,
  str_eq, str_lt, lookup, insert, modify, contains, Status, done, halt, out_of_range,
  dangling_iterator,
}
use chat.Chat.{sender_you, sender_other}
use chat.Database.{
  Database, User, login, registration, send_txt, recv_txt, delete_user, user_at, exchange,
  ensure_chat, push_text,
}
use chat.Database.View.{has_chat, chat_of, has}
use chat.Database.Wildcard.{star, wildcard_match, loop, backtrack, only_stars}
use chat.Database.Wildcard.Glob.{Matches}
use chat.Database.Wildcard.Correct.{wildcard_match_iff}
use chat.Database.Sending.{sent, added}
use chat.Database.Delivery.{send_txt_delivers, recv_txt-send_txt}
use chat.Database.Invariant.{WellFormed, login-WellFormed, send_txt-WellFormed}
use chat.Database.Deletion.{
  Deleted, delete_user-Deleted, delete_user_dangling, send_txt_after_delete,
}
use chat.Database.Accounts.{login-ok_iff}
use chat.Database.Steps.{Reach, registration_once}
use chat.Examples.Accounts.{
  alice, bobby, secret, hello, as_stored, as_stored-WalksKeys, registered_both, both_logged_in,
  both-WellFormed, alice_acts, bobby_acts, alice_exists, bobby_exists, alice-ne-bobby,
}

abbrev star_b_star : Str
star_b_star = star ∷ b'b' ∷ b'y' ∷ star ∷ []

backtracks : wildcard_match star_b_star bobby ≡ true
unfolding wildcard_match loop backtrack only_stars
backtracks = refl

refuses : wildcard_match star_b_star alice ≡ false
unfolding wildcard_match loop backtrack only_stars
refuses = refl

wildcard_match_iff_example : (wildcard_match star_b_star bobby ≡ true) ↔ Matches star_b_star bobby
wildcard_match_iff_example = wildcard_match_iff star_b_star bobby (ground arith)

registration_once_example : registration alice hello both_logged_in ≡ (Status.error, both_logged_in)
registration_once_example = registration_once alice hello both-WellFormed here_now alice_exists
  where
    here_now : Reach both_logged_in both_logged_in
    here_now = Reach.here

login-ok_iff_example : ((login 3 alice secret both_logged_in).0 ≡ Status.ok) ↔ (
    (lookup 3 both_logged_in.threads_ ≡ none)
    × ((u : User) × (lookup alice both_logged_in.users_ ≡ some u) × (u.password_ ≡ secret)))
login-ok_iff_example = login-ok_iff 3 alice secret both_logged_in

send_txt_delivers_example :
    (db' : Database) × (send_txt 1 bobby hello both_logged_in ≡ done (Status.ok, db'))
    × ((o x : Str) → chat_of o x db' ≡ chat_of o x both_logged_in ++ added alice bobby hello o x)
send_txt_delivers_example =
    send_txt_delivers 1 alice bobby hello both_logged_in both-WellFormed alice_acts alice_exists
      bobby_exists

abbrev greeted : Database
greeted = sent alice bobby hello both_logged_in

greeting_sent : send_txt 1 bobby hello both_logged_in ≡ done (Status.ok, greeted)
unfolding both_logged_in registered_both login registration send_txt user_at lookup insert str_eq
    str_lt contains
greeting_sent = refl

recv_txt-send_txt_example :
    recv_txt 2 alice (record { texts_ = [] }) greeted
    ≡ done (
      Status.ok,
      record {
        texts_ =
            chat_of bobby alice both_logged_in
            ++ (record { sender_ = sender_other; content_ = hello } ∷ []);
      },
    )
recv_txt-send_txt_example =
    recv_txt-send_txt 1 2 alice bobby hello (record { texts_ = [] }) both_logged_in greeted
      both-WellFormed alice_acts bobby_acts alice_exists bobby_exists alice-ne-bobby greeting_sent

greeted-WellFormed : WellFormed greeted
greeted-WellFormed =
    send_txt-WellFormed both-WellFormed 1 bobby hello Status.ok greeted greeting_sent

abbrev alice_greeted : User
alice_greeted = record {
  username_ = alice;
  password_ = secret;
  chats_ = (bobby, record { texts_ = record { sender_ = sender_you; content_ = hello } ∷ [] }) ∷ [];
}

alice_found : lookup alice greeted.users_ ≡ some alice_greeted
unfolding both_logged_in registered_both login registration exchange ensure_chat push_text modify
    lookup insert str_eq str_lt contains
alice_found = refl

no_self_chat : has_chat alice alice greeted ≡ false
unfolding both_logged_in registered_both login registration exchange ensure_chat push_text modify
    lookup insert str_eq str_lt contains has
no_self_chat = refl

delete_user-Deleted_example :
    (db' : Database) × (delete_user as_stored 1 greeted ≡ done (Status.ok, db'))
    × Deleted 1 alice greeted db'
delete_user-Deleted_example =
    delete_user-Deleted as_stored as_stored-WalksKeys 1 alice alice_greeted greeted
      greeted-WellFormed alice_acts alice_found no_self_chat

-- A text of alice to herself.
abbrev noted : Database
noted = sent alice alice hello both_logged_in

note_sent : send_txt 1 alice hello both_logged_in ≡ done (Status.ok, noted)
unfolding both_logged_in registered_both login registration send_txt user_at lookup insert str_eq
    str_lt contains
note_sent = refl

abbrev alice_noted : User
alice_noted = record {
  username_ = alice;
  password_ = secret;
  chats_ =
      (
        alice,
        record {
          texts_ =
              record { sender_ = sender_you; content_ = hello }
              ∷ record { sender_ = sender_other; content_ = hello }
              ∷ [];
        },
      )
      ∷ [];
}

noted_found : lookup alice noted.users_ ≡ some alice_noted
unfolding both_logged_in registered_both login registration exchange ensure_chat push_text modify
    lookup insert str_eq str_lt contains
noted_found = refl

self_chat : has_chat alice alice noted ≡ true
unfolding both_logged_in registered_both login registration exchange ensure_chat push_text modify
    lookup insert str_eq str_lt contains has
self_chat = refl

delete_user_dangling_example : delete_user as_stored 1 noted ≡ halt dangling_iterator
delete_user_dangling_example =
    delete_user_dangling as_stored as_stored-WalksKeys 1 alice alice_noted noted
      (send_txt-WellFormed both-WellFormed 1 alice hello Status.ok noted note_sent) alice_acts
      noted_found self_chat

-- Alice on a second thread.
unfoldable twice : Database
unfolding login
twice = (login 3 alice secret both_logged_in).1

twice-WellFormed : WellFormed twice
unfolding twice
twice-WellFormed = login-WellFormed both-WellFormed 3 alice secret

abbrev alice_alone : User
alice_alone = record { username_ = alice; password_ = secret; chats_ = [] }

alice_in_twice : lookup alice twice.users_ ≡ some alice_alone
unfolding twice both_logged_in registered_both login registration lookup insert str_eq str_lt
    contains
alice_in_twice = refl

thread_1 : lookup 1 twice.threads_ ≡ some alice
unfolding twice both_logged_in registered_both login registration lookup insert str_eq str_lt
    contains
thread_1 = refl

thread_3 : lookup 3 twice.threads_ ≡ some alice
unfolding twice both_logged_in registered_both login registration lookup insert str_eq str_lt
    contains
thread_3 = refl

none_to_herself : has_chat alice alice twice ≡ false
unfolding twice both_logged_in registered_both login registration lookup insert str_eq str_lt
    contains has
none_to_herself = refl

deletion :
    (db' : Database) × (delete_user as_stored 1 twice ≡ done (Status.ok, db'))
    × Deleted 1 alice twice db'
deletion =
    delete_user-Deleted as_stored as_stored-WalksKeys 1 alice alice_alone twice twice-WellFormed
      thread_1 alice_in_twice none_to_herself

one-ne-three : ◌≢◌ {A = ℕ} 1 3
one-ne-three e = omega (arith, e)

send_txt_after_delete_example : send_txt 3 bobby hello deletion.0 ≡ halt out_of_range
send_txt_after_delete_example =
    send_txt_after_delete as_stored 1 3 alice bobby hello twice deletion.0 as_stored-WalksKeys
      twice-WellFormed thread_1 thread_3 one-ne-three deletion.1

-- ===== src/Examples/Recorded.antt =====
-- Alice writes to bob, and bob reads the chat: by the log.
use chat.Common.{
  ◌≡◌, ◌↔◌, refl, true, false, Str, str_Key, List, [], ◌∷◌, lookup, insert, modify, contains,
  str_eq, str_lt, nat_Key, Status, done,
}
use chat.Chat.{sender_other}
use chat.Database.{
  Database, empty, registration, login, send_txt, recv_txt, user_at, exchange, ensure_chat,
  push_text,
}
use chat.Database.View.{user_exists}
use chat.Database.Sending.{sent}
use chat.Database.Methods.{Method, perform}
use chat.Database.Log.{Sent, told, Logged, nothing_sent, performed, recv_txt-told}
use chat.Database.Names.{Tried, none_tried, registration-untried_iff}
use chat.Examples.Accounts.{
  alice, bobby, secret, hello, as_stored, as_stored-WalksKeys, registered_both, both_logged_in,
  bobby_acts,
}

abbrev written : Database
written = sent alice bobby hello both_logged_in

abbrev on_record : List Sent
on_record = record { from = alice; to = bobby; content = hello } ∷ []

written-Logged : Logged on_record written
unfolding perform both_logged_in registered_both registration login lookup insert modify contains
    str_eq str_lt send_txt user_at exchange ensure_chat push_text
written-Logged =
    performed [] both_logged_in as_stored 1 (Method.send_txt bobby hello) Status.ok written
      (performed [] (login 1 alice secret registered_both).1 as_stored 2 (Method.login bobby secret)
        Status.ok both_logged_in
        (performed [] registered_both as_stored 1 (Method.login alice secret) Status.ok
          (login 1 alice secret registered_both).1
          (performed [] (registration alice secret empty).1 as_stored 3
            (Method.registration bobby secret) Status.ok registered_both
            (performed [] empty as_stored 3 (Method.registration alice secret) Status.ok
              (registration alice secret empty).1 nothing_sent as_stored-WalksKeys refl)
            as_stored-WalksKeys refl)
          as_stored-WalksKeys refl)
        as_stored-WalksKeys refl)
      as_stored-WalksKeys refl

both_there : (user_exists bobby written ≡ true) × (user_exists alice written ≡ true)
unfolding both_logged_in registered_both login registration lookup insert str_eq str_lt contains
    exchange modify
both_there = (refl, refl)

recv_txt-told_example :
    recv_txt 2 alice (record { texts_ = [] }) written
    ≡ done (Status.ok, record { texts_ = told bobby alice on_record })
recv_txt-told_example =
    recv_txt-told on_record written 2 bobby alice (record { texts_ = [] }) written-Logged bobby_acts
      both_there.0 both_there.1

one_text : told bobby alice on_record ≡ record { sender_ = sender_other; content_ = hello } ∷ []
unfolding told str_eq
one_text = refl

-- Both names were tried on the way there.
abbrev both_tried : List Str
both_tried = bobby ∷ alice ∷ []

registered-Tried : Tried both_tried registered_both
unfolding perform registered_both registration lookup contains insert str_eq
registered-Tried =
    Tried.performed (alice ∷ []) (registration alice secret empty).1 as_stored 3
      (Method.registration bobby secret) Status.ok registered_both
      (Tried.performed [] empty as_stored 3 (Method.registration alice secret) Status.ok
        (registration alice secret empty).1 none_tried as_stored-WalksKeys refl)
      as_stored-WalksKeys refl

registration-untried_iff_example :
    ((registration hello secret registered_both).0 ≡ Status.ok)
    ↔ (contains hello both_tried ≡ false)
registration-untried_iff_example =
    registration-untried_iff both_tried registered_both hello secret registered-Tried

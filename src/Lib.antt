-- ===== src/Lib.antt =====
-- Chat 262, the version with its own wire protocol: chat262-wire-protocol/.
--
-- The program is a server and a client that exchange messages over TCP. A message is a header of
-- eight bytes and a body; chat262_protocol.cc forms and reads all of them. The server has a thread
-- for each connection. A thread receives a message, lets a handler read it, run methods of the one
-- database and send the reply, until the connection ends. The client's methods each send a request,
-- receive the reply and check it. The interface shows one screen after another, reads keys, and
-- calls those methods.
--
-- Which file models what:
-- - Common: shared names. Common/Result is `status` of include/common/common.h and how a call ends
--   (`Outcome`): it returns, it returns early with a status, or it halts, by a fault of the code or
--   because the environment gives no further event. Common/Assoc has `std::map`,
--   `std::unordered_map` and `std::unordered_set`. A `std::string` is the list of its bytes.
-- - Endianness: include/chat262_protocol/endianness.h on a little-endian host, and integers in memory.
--   Endianness/Big has the conversions to and from big-endian integers.
-- - Buffer: reads through `data()` of a vector; a read that would leave the vector halts.
-- - Chat: include/common/chat.h.
-- - Protocol: include/chat262_protocol/chat262_protocol.h and src/chat262_protocol/chat262_protocol.cc.
--   Each message `a_b` is the module Protocol/AB with `serialize` and `deserialize`. Messages whose
--   functions are copies of one another share a module of Protocol/Layout. Out-parameters that
--   keep their value on some path are arguments of `deserialize`. Requests and Responses put the
--   messages together as one type. `serialize` of a message with a list halts where it copies past
--   the block that it has allocated (`in_block`); Layout/Overflow is about such responses, and
--   Layout/Overrun about bodies whose announced lengths wrap round.
-- - Database: include/server/database.h and src/server/database.cc, one function for each method.
--   Wildcard is `wildcard_match`, and Wildcard/Glob says what a pattern should match. View says
--   what a client can tell of a database. Sending, Delivery, Deletion and Accounts are about single
--   methods, Invariant and Steps about sequences of them; Methods puts the methods together as one
--   type, Log compares the database with a log of what was sent, and Names with the registrations
--   that were tried.
-- - Server: the handlers of src/server/server.cc, and the switch of `handle_client` (`dispatch`).
--   Transport and Connection have `send_msg`, `recv_hdr`, `recv_body` and `handle_client`; Sends,
--   Receives, Effects, Session, Access and Listing have theorems about them. Halts goes through the
--   ways in which a handler can halt, from those of the calls it makes; Faults and Fuel apply it, and
--   Termination is about the rounds of a connection. Service says what
--   the server promises for each request (`respond`), with no bytes in sight. Startup is `server::run`
--   with what it calls, over what the calls of the operating system return.
-- - Server/Interleaving: a handler as the methods of the database that it calls (`program`), each call
--   depending on what the ones before have returned, and its runs with methods of other threads in
--   between (`Runs`). Alone compares it with the handlers of Server; Commute says what the methods of
--   two threads have to do with one another, Other, Atomic and Serves what a handler among other
--   threads comes to.
-- - Server/Threads: all threads together (`Interleaved`), and a server that serves each request at once
--   (`Serial`). Standing has the places a handler can be at, Advance its steps. A thread that logs in
--   again is logged out for a moment, in which the two servers differ (Pending); Alike is the relation
--   between them, Follows keeps it step by step, Refinement along a run. Invariant is about the
--   database, Calm and NoCrash about runs in which no account is deleted.
-- - Client: src/client/client.cc, one function for each method, of which Connect is
--   `connect_server`; Main is src/client/main.cc. Replies, Sound, Answers, Served and Round have
--   theorems, the last of them about a client and a server together.
-- - Interface: include/client/interface.h and src/client/interface.cc. Keypress is `read_keypress`
--   over the bytes of the terminal; Selection and Line read menus and lines from a list of
--   keypresses. State has the members, and the methods of `client` as a record of functions
--   (`ClientCalls`) over any type of connections. Screens has a function for each method that shows
--   a screen, Cases one for each case of the `switch` in `start`, which is in Start. Start/Diagram
--   has the arrows between the screens and what the client promises them (`Guarded`); Start/Rounds
--   goes through the cases, Start/Session through all rounds, and Start/Served has the client in front
--   of the program's own server, which is `Guarded`. Display has what a menu and the screen of a chat write to the terminal, over any terminal
--   that keeps a few laws (`Terminal`); Typing and Marked say what the user has in sight.
-- - Examples: the theorems at concrete inputs, and runs of the definitions; Hosted runs the interface in
--   front of `respond`, once with the server's faults passed on and once with connections that close.
--
-- Numbers: lengths and sums that the source keeps in a `uint32_t` are taken modulo 2 ^ 32. Sums in a
-- `size_t` have 64 bits and cannot wrap for vectors that fit in memory; they are plain numbers.
--
-- Fuel: `wildcard_match` has (length s + 1) * (length p + 1) + 1 rounds, since each round moves on
-- in the pattern or moves the start of the last star on in the target. `handle_client` has one round
-- more than the socket has events, since each round takes an event. `interface::start` has twice as
-- many rounds as there are keys, and one more: a screen that takes no key is followed by one that
-- does. The loop that asks for a username has one round more than there are keys.
--
-- Assumptions: a method of the database holds its mutex from its first statement to its return,
-- so that methods of several threads come one after another. The functions of Server and of
-- Client/Round run a handler with no method of another thread between its own;
-- Server/Interleaving and Server/Threads are about those that come between. Threads that run at
-- the same time have different ids. The order in which an `unordered_map` is walked is an
-- argument `order`, of which only `WalksKeys` is assumed. What `send` and `recv` return is given
-- as a list of events. The keys that the user hits are a list, on whose end the interface waits.
-- While the listener of a chat runs, the other thread types and draws only: so the listener's
-- requests, as many as a list of numbers says, stand in front of the typing. In
-- Interface/Display keys and incoming texts are mixed.
--
-- Not modelled: what `serialize` of a message with one or two strings does where these reach 2 ^ 32
-- bytes; logging, usage texts, and what the interface prints on screens other than menus and chats;
-- the settings of its terminal; the branch of endianness.h for a big-endian host, which does not
-- compile; the Python programs in chat262-grpc/ and chat262-replication/.
mod Common
pub mod Endianness
pub mod Buffer
pub mod Chat
pub mod Protocol
pub mod Database
pub mod Server
pub mod Client
pub mod Interface
mod Examples

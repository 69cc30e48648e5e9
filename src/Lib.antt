-- ===== src/Lib.antt =====
-- The client library of Magic Wormhole: two programs that share a short code meet at a rendezvous
-- server, agree on a key with SPAKE2, exchange encrypted messages through a mailbox there, and send
-- a file over a direct or relayed TCP connection ("transit").
--
-- The parts, and where each is modelled:
--   Common        shared tests, lists over the native numbers, decimal text, and Common.Effect: an
--                 async function is a function from a state to an outcome (ok, err, panic, pending)
--                 and the state that it leaves. All input that has arrived is part of the state;
--                 where the code would wait for more, the outcome is pending.
--   Util          src/util.rs: Util.Counter (sodium_increment_le and _be), Util.Hashcash (hashcash),
--                 Util.Display (DisplayBytes).
--   Core          src/core.rs and src/core/: Core.Names and Core.Code (phases, sides, codes),
--                 Core.Wordlist (wordlist.rs), Core.Json (JSON trees), Core.Messages
--                 (server_messages.rs, its JSON in Encoding and Decoding), Core.Crypto (the crates as
--                 parameters), Core.Key (key.rs), Core.Rendezvous (rendezvous.rs), Core.Wormhole and
--                 Core.Connect (the Wormhole of core.rs).
--   Transit       src/transit.rs: Transit.Hints, Transit.Url and Transit.Stun, Transit.Init and
--                 Transit.Dial (init and its sockets), Transit.Socket (a TCP stream), Transit.Record
--                 (encrypted records), Transit.Handshake, Transit.Connect.
--   Transfer      src/transfer.rs and src/transfer/messages.rs: Transfer.Messages (their JSON
--                 in Encoding and Decoding), Transfer.Records (the file as records), Transfer.Session
--                 (the talk over the wormhole), Transfer.Send (send_file), Transfer.Folder
--                 (send_folder, send_file_or_folder), Transfer.Receive (request_file, accept, reject).
--   Cli           src/bin/main.rs and src/bin/util.rs: Cli.Terminal (ask_user), Cli.Paths and
--                 Cli.Desk (paths and files), Cli.Connect (parse_and_connect), Cli.Receive (receive),
--                 Cli.Send (send, send_many), Cli.Main (the subcommands).
--   Examples      runs on concrete input, with simple functions in place of the crates.
--   Tests         unit tests of the sources, run on the models.
--
-- How the code corresponds. Core.Rendezvous.Wire has WsConnection: the frames that will come in are
-- a list of events, and a text frame stands for what serde_json makes of it.
-- Core.Rendezvous.Receive has its receiving loops, on the message queue that the mailbox lends
-- them. Core.Rendezvous.Server and Core.Rendezvous.Setup have RendezvousServer, one function per
-- method, under the method's name. What serde derives for a message is a pair of functions between
-- the type and a JSON tree, named after the type; the text of a tree is serde_json's, and a codec
-- (Core.Json.Text) puts the two together. The readers take an object for a struct, and not the
-- array of its fields that serde takes too; they refuse a field that stands twice, as serde does,
-- but leave a Value as it is in the text. A Transit is its socket, two keys and two nonces; the
-- record functions work on one direction of it, a Pipe. The transfer's functions work on a Session,
-- which is the wormhole and the nonces that its sends draw, and on a Download, which is a transit
-- and the content handler. A Folder is the writes of the two passes of the tar builder and the
-- reads from the ring buffer between the second pass and the sender. The program's functions work
-- on the lines that the user will type and on the files by path; what other programs do to the
-- files between a test and an opening is a function that is given. A task of send_many is a value:
-- what it will send, and over which wormhole. The specification of what a RendezvousServer passes
-- on is Core.Rendezvous.Todo.
--
-- Bounds and fuel. The loop of next_peer_message_some runs on fuel, one more than the queued messages
-- and the events that have arrived, since each round takes one of them. The loop of receive_records
-- runs on fuel, one more than the bytes that have arrived, since each record takes up at least four.
-- The loop of send_many runs on fuel, two more than the tries, since it ends when the tries exceed the
-- limit. hashcash is given a bound on its rounds; the code has none. The u64 sums of the code panic on
-- overflow, as the crate's release profile checks; a record's length wraps at 2 ^ 32, as the cast does.
-- serde_json is relied on for trees of at most 127 objects and arrays inside each other, the limit of
-- its parser, and numbers below 2 ^ 64.
--
-- Parameters, with what their documentation says as laws: XSalsa20-Poly1305, SHA-256, HKDF, hex and
-- SPAKE2 (Core.Crypto), SHA-1, base64, date and random bytes of a stamp (Util.Hashcash), serde_json
-- (Codec and JsonText), what the system calls of init give, the text of errors, what connection
-- attempts end with, the packets of the STUN crate, what the tar builder writes, what the user
-- types, and what is at a path.
--
-- Not modelled: the declaration of the program's arguments, progress bars and handlers, logging and
-- the text that server messages have in a log, and cancellation of a running call. Strings that are
-- not valid UTF-8 are shown as they are, and an input line is lowered as ASCII.
pub mod Common
pub mod Util
pub mod Core
pub mod Transit
pub mod Transfer
pub mod Cli
mod Examples
mod Tests

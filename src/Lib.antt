-- ===== src/Lib.antt =====
-- A model of the message-box client in src/: what it does with message bodies, the payments in
-- them, live deliveries and acknowledgements, and theorems about it.
--
-- The program. `MessageBoxClient` (src/client.rs) sends and lists messages over an authenticated
-- HTTP relay (src/http_ops.rs), encrypts and decrypts bodies through a wallet (src/encryption.rs),
-- receives live messages over a WebSocket (src/websocket.rs) with an HTTP poll as the backstop,
-- moves money with PeerPay tokens and delivery fees (src/peer_pay.rs, src/http_ops.rs), and asks for
-- payments (src/payment_requests.rs). It finds relays through an overlay (src/host_resolution.rs)
-- and keeps fees and permissions on the relay (src/permissions.rs).
--
-- Calls. A function that awaits the wallet or the relay is a tree of calls (`Prog` of Io.antt): a
-- node is a call with its arguments, and it has a branch for each reply. `AllRuns` of Io/Runs.antt
-- states a property of the log of calls and of the result at the end of every run, so it holds
-- whatever the other side replies, errors included. A `Result<_, MessageBoxError>` is `Fallible` of
-- Error.antt, and `?` is the `>>=` of Io.antt, of Error/Try.antt and of Prelude/Maybe.antt.
--
-- Code of other crates (keys of the SDK, serde_json, base64, hex) is the record `Deps` of Deps.antt,
-- an argument of the definitions that use it. Its only law, `layers_end`, says that unwrapping
-- `{"message": ...}` from a text comes to an end.
--
-- Files:
--   Types.antt               the types of src/types.rs and the payments' wire types
--   Encryption.antt          src/encryption.rs; recursion on the layers of a body, by `layers_end`
--   HttpOps/Split.antt       `split_message_body` of src/http_ops.rs
--   HttpOps/Internalize.antt `build_internalize_args` of src/http_ops.rs
--   HttpOps/Listing.antt     `parse_bounded_list_response`, `process_listed_body`, the loops of the
--                            list functions, the views of receipts and the merge of hosts
--   HttpOps/Send.antt        `send_message_to_host`, for any quote and payment of fees
--   HttpOps/Fees.antt        `create_message_payment` and its batch form
--   HttpOps/Outbox.antt      `send_message` and `send_message_to_recipients`, with their fees
--   HttpOps/Acknowledge.antt `acknowledge_message` on one host and on a set of hosts
--   HttpOps/Inbox.antt       the list functions and `acknowledge_message` with the hosts they go to
--   PeerPay.antt             `accept_payment`, `reject_payment` and `acknowledge_notification` of
--                            src/peer_pay.rs, with acknowledgement and refund as arguments
--   PeerPay/Payments.antt    the operations of src/peer_pay.rs with their sends and acknowledgements
--   PeerPay/Notification.antt  what `acknowledge_notification` asks the wallet for
--   Client/Dedup.antt        `BoundedIdSet` and `exactly_once` of src/client.rs
--   Client/Poll.antt         `record_ws_activity` and `poll_should_run` of src/client.rs
--   Session.antt             a `MessageBoxClient`, its identity key, and `init` (Session/Init.antt)
--   HostResolution.antt      advertisements of hosts, src/host_resolution.rs; Devices.antt: its devices
--   Permissions.antt         src/permissions.rs; Permissions/Multi.antt: quotes of several recipients
--   PaymentRequests.antt     `list_incoming_payment_requests` of src/payment_requests.rs, on the inbox
--   PaymentRequests/Flow.antt  making, cancelling, paying and declining requests
--   Client/Live.antt         the connection, the rooms and `send_live_message` of src/client.rs
--   Client/Listen.antt       what a live listener registers, and the reconnect supervisor
--   Client/Backstop.antt     the poll task that a live listener spawns
--   Delivery.antt, Adapter.antt  src/delivery.rs and src/adapter.rs
--   Client/Http.antt         the requests and reply checks of src/client.rs, and `poll_list_messages`
--   Websocket/Acks.antt      the pending acknowledgements of src/websocket.rs
--   Websocket/Socket.antt    the operations of `MessageBoxWebSocket` in src/websocket.rs
--   Websocket/Dispatch.antt  what its dispatcher does with an event
--   Websocket/Room.antt      room ids and `split_room_id` of src/websocket.rs, on bytes
--   Tests.antt               runs on concrete data, and the theorems at concrete arguments
-- The child modules of a file hold its proofs, and are named for what they prove.
--
-- State. A `HashSet` and a `VecDeque` are lists, a `HashMap` an association list; a mutex makes each
-- operation on them one step. A waiter for an acknowledgement is the number of its channel, and what
-- the channel got is recorded. Lengths of texts count bytes of UTF-8, as in the source. There is no
-- fuel but the number of rounds of the reconnect loop and of the poll loop, and these theorems are on
-- any number of rounds: every other recursion is on a list, a text or the layers of a body.
--
-- An `i64` is an integer between bounds, and a sum of fees wraps at 64 bits (`add_i64` of
-- Prelude/Int.antt), as in a release build. The identity key and the mark of the first use are cells
-- that calls load and store.
--
-- Not modelled: the getters of fields. The reconnect supervisor's jittered sleep is one call, and so
-- is a call of the callback that the poll task shares with the socket. What tasks share (the rooms,
-- the callbacks, the queues of waiters, the socket) is reached by calls, one for each time the source
-- takes the lock, so a run may have other tasks' changes between them. `join_all` runs its futures in
-- the order of the list, and a set of hosts has the order in which it got them. The network preset,
-- which picks the overlay's trackers, is left out of the calls.
pub mod Session
pub mod Permissions
pub mod HostResolution
pub mod Delivery
pub mod Adapter
pub mod Devices
pub mod Prelude
pub mod Types
pub mod Error
pub mod Deps
pub mod Io
pub mod Encryption
pub mod HttpOps
pub mod Client
pub mod PeerPay
pub mod PaymentRequests
pub mod Websocket
pub mod Tests

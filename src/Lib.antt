-- ===== src/Lib.antt =====
-- A verification library for piltover, a server of the Telegram protocol: the core that carries
-- messages between clients and the rest of the server, and rules that guard it.
--
-- The parts, each with the code that it models:
-- - Base: lists, dicts (association lists in insertion order), sets of ids, integers and Boolean
--   tests that the other modules share.
-- - Tl (piltover/tl/primitives, piltover/tl/core_types.py): the wire format. A writer gives bytes or
--   `none` for an exception, a reader gives a value and the rest of the stream. The classes that are
--   generated from the schema stand by their codec, a parameter.
-- - Session (piltover/session/session.py): the state of a session and its operations: MsgId (msg_id,
--   get_outgoing_seq_no, pack_message, pack_container), Rpc (mark_rpc_completed, wait_for_rpc), Salts
--   (update_salts_maybe), Outbound (enqueue and what it calls), Flush (track_pending_outbound,
--   ack_outbound, and _write_session_queues of piltover/gateway/client.py), Checks (is_message_bad),
--   Lifecycle (connect, disconnect, finalize, flush_outbound).
-- - AuthKeys (piltover/db/models/authkey.py): the tables of auth keys.
-- - Handshake (piltover/gateway/_keygen_handlers.py): the messages that make an auth key. Exchange has
--   their steps in any order, Refusals what comes of the last one.
-- - Gateway (piltover/gateway/client.py, piltover/gateway/_system_handlers.py): a connection. Action is
--   its coroutines, Requests what it knows of requests and answers, Sessions the cache of sessions
--   (_get_session, _drop_auth_key, the end of worker), Gate _auth_gate and
--   _respond_auth_key_unregistered, Handlers the system handlers, Worker _kiq and the results of the
--   worker, Process _process_request, propagate and handle_encrypted_message, Receive _recv_packet,
--   and SendLoop _worker_loop_send. Tracks and Steps hold lemmas on all of these.
-- - Broker (piltover/message_brokers/base_broker.py): subscriptions (Subs, Leaks), the sessions for a
--   message (Routing.Targets), and delivery (Routing.Deliver).
-- - Manager (piltover/session/session_manager.py, and the parts of session.py that use it): the
--   registry of sessions, their cleanup, and Auth (_reset_auth, refresh_auth_maybe).
--   Send is the choice of the message that the manager hands to the broker, and Dispatch what the
--   broker does with one (_process_message of base_broker.py).
-- - Chat (piltover/db/models/chat_base.py): who may see, send, edit and pin, and Update.
-- - Stars (piltover/app/utils/stars_manager.py): balances and their transactions.
-- - AuthLimit (piltover/app/utils/auth_rate_limit.py): limits on codes and on failed sign-ins.
-- - Privacy (piltover/db/models/privacy_rule.py): who may see what of whom, asked singly and in bulk
--   (Agreement, Leftover and Bulk compare the two), and Update, how a rule is set and read back.
-- - SpamBlock (piltover/app/utils/spam_block.py): to whom a blocked user may write.
-- - Snowflake (piltover/utils/snowflake.py): ids from the time.
-- - Utils (piltover/utils/repeated_list.py, piltover/utils/single_element_list.py): lists that stand
--   for copies. Lengths and numbers of copies are not negative.
-- - Tests: the theorems at concrete inputs.
--
-- How they interact: the broker knows sessions by identity, and a heap gives the fields of each. The
-- manager holds the heap, the registry and the broker, and its operations are those of the session
-- with their effects on the other two. A delivery queues a message in a session and may flush it over
-- the connection of its client.
--
-- How the code is rendered:
-- - Ids are natural numbers: only equality and the test against 0 are used on them. A number that is
--   written to the wire is an integer, with its bounds.
-- - Time is an argument of what reads the clock: a number of microseconds, in AuthLimit of seconds and
--   in Snowflake of milliseconds. A clock below the first half hour of its epoch is not considered.
-- - A connection is the number of packets that it takes before it breaks, and what it took: ids,
--   sequence numbers and bodies, without the salt and the session's id.
-- - An `asyncio` event is a flag and a task is there or not, and done or not. Each operation is
--   one step: the code holds a lock while it queues, flushes or tracks calls, and what else happens
--   during the queries of a refresh is not modelled. Deliveries to several sessions
--   run in sequence, each on its own session. The wake-up events of connections are not modelled.
-- - A coroutine of the gateway is a function from a state to a result or an exception and the state
--   after it; what was done before an exception stays done. Its awaits are answered by a record of
--   what the rest of the server does meanwhile (Gateway.Requests.Env).
-- - Loops are recursion on the list they run over. The loop that writes, which need not end, is taken
--   for a number of passes; the theorem on it holds for every number.
-- - Parameters: the codec of generated classes, the HMAC of a salt, the answers of the database, the
--   classes of notices, `str.strip`, decryption, the packages for RSA, AES, SHA-1 and primes, the
--   worker, the check of access hashes, the caches of the `lru` package, of which it is used what
--   Gateway.IsLru says, and the cache of the `aiocache` package, of which AuthLimit uses that a value lasts for its time to live and that no operation
--   touches another key, and Privacy nothing.
--
-- Not modelled: _prepare_outbound_obj and _resolve_context_values (an outgoing object is its bytes
-- under a sequence number), compression, encryption, unencrypted packets,
-- the persistence of upd_seq, request handlers, bots, database models other than those above,
-- migrations, transports and storage.
pub mod AuthKeys
pub mod AuthLimit
pub mod Base
pub mod Broker
pub mod Chat
pub mod Gateway
pub mod Handshake
pub mod Manager
pub mod Privacy
pub mod Session
pub mod Snowflake
pub mod SpamBlock
pub mod Stars
pub mod Tests
pub mod Tl
pub mod Utils

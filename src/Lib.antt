-- ===== src/Lib.antt =====
-- Bertha: connections made of chunnels, stacked functions such as ordering, reliability or encryption.
-- Two endpoints may have different implementations of a chunnel, so that they negotiate first which
-- stack each of them uses. This library models the negotiation of the crate `bertha`, two of its
-- chunnels, the crate `kvstore` and its reliability, and the store of `redis-basechunnel`.
--
-- Parts
--
-- * Prelude has shared helpers. `HashMap<u64, _>` is an association list (Prelude/HashMap.antt),
--   `Result<_, Report>` and calls that may panic are data types (Prelude/Results.antt), `Vec<u8>` is a
--   list of numbers (Prelude/Serialised.antt).
-- * Negotiate (bertha/src/negotiate): each endpoint lists the stacks that it could produce as nonces,
--   maps from the GUID of a capability to an offer.
--   - Negotiate/Types.antt: `CapabilitySet`, `Negotiate`, `Offer`, `StackNonce` of mod.rs and
--     get_offers.rs. A stack, which is a nested type in Rust (`CxList`, `Select`, `Option`), is a value
--     of `Stack`; what picking or applying leaves of it is a `Picked`, where each `Select` has become
--     an `Either`.
--   - Negotiate/Offers.antt: `GetOffers` (get_offers.rs).
--   - Negotiate/Compare.antt: `stack_pair_valid` and `compare_offers` (server.rs).
--   - Negotiate/Pick.antt: `Pick`, its `check_touched_complete` and `check_touched_partial` (pick.rs).
--     A check takes the result of the pick that it begins with.
--   - Negotiate/Apply.antt: `Apply` and `check_apply` (apply.rs).
--   - Negotiate/Monomorphize.antt: `monomorphize` (server.rs) and `NegotiateMsg` (mod.rs).
--   - Negotiate/Server.antt: `negotiate_server_connection` and `process_nonces_connection`
--     (server.rs), as rounds of a loop on a state.
--   - Negotiate/Client.antt: `negotiate_client_fetch_nonce` and `client_monomorphize` (client.rs).
--   - Negotiate/ZeroRtt.antt: `ClientNegotiator`, `negotiate_client_fixed_stack`,
--     `negotiate_client_nonce` and `CheckZeroRttNegotiationReply` (client.rs).
-- * Rendezvous (bertha/src/negotiate/rendezvous.rs): endpoints that meet at an address of a shared store.
--   - Rendezvous/Effects.antt: calls that change a state and may fail or panic.
--   - Rendezvous/Backend.antt: `RendezvousBackend` as a record of operations on the store's state, and
--     its default `notify`. During each sleep the other endpoints apply a function to the store.
--   - Rendezvous/Stacks.antt: `CollectUpgradeHandles` and `Prefer`; an `UpgradeSelect` is a `Select` with
--     the number of its handle.
--   - Rendezvous/Handles.antt: `UpgradeHandle`, with the values of its two watch channels, and
--     `find_stack_from_stub`.
--   - Rendezvous/Start.antt: `negotiate_rendezvous`, in its three cases.
--   - Rendezvous/Monitor.antt and Rendezvous/Loop.antt: `StackUpgradeHandle`, its `handle_trigger` and
--     `handle_notify`, and the loop over what the task is told.
--   - Rendezvous/Upgrade.antt: `UpgradeEitherConn`, with the future of `try_upgrade` as not started or
--     finished; the steps of its use are Rendezvous/Steps.antt.
-- * Util (bertha/src/util.rs): `MsgIdMatcher` is Util/Matcher.antt; the `oneshot` channels are tokens, and
--   what other tasks do while a `recv_msg` waits are events. `AddrSteer` is Util/Steer.antt; whether a
--   connection keeps the receiver of its channel is a parameter.
-- * Kvstore (kvstore/src): the messages and the store (msg.rs and kv.rs) are Kvstore/Messages.antt, and a
--   request of the client (client.rs) is Kvstore/KvClient.antt. A string is a number.
-- * Redis (redis-basechunnel/src): the store of a rendezvous in Redis.
--   - Redis/Store.antt: the commands of Redis, a parameter, with the laws that they have.
--   - Redis/Scripts.antt: tryinit.lua, pollentry.lua and transition.lua, and the atomic pipes of lib.rs.
--   - Redis/Waits.antt, Redis/Commit.antt, Redis/Operations.antt and Redis/Notify.antt: the operations of
--     `RedisBase` (lib.rs). Before each query the other clients apply a function to the store.
--   - Redis/Rounds.antt: clients that commit, with scripts and pipes as steps in any order.
-- * Ordered (bertha/src/tagger.rs): `OrderedCn`, which numbers what is sent and hands over what is
--   received in the order of the numbers.
-- * AtMostOnce (bertha/src/atmostonce.rs): `AtMostOnceCn`, which drops numbers that it has seen within
--   a time horizon.
-- * KvReliability (kvstore/src/reliability.rs): `KvReliability`, which sends requests again until each has
--   a response. The map of `oneshot` senders is a map to tokens, and the state of the channels is in
--   lists of tokens; `send` is a loop over what its `select!` takes up, in any order.
-- * Tests has the theorems at concrete inputs, and runs of the definitions.
--
-- The parts meet in the handshake. A client sends the `offers` of its stack; the server passes them to
-- `monomorphize`, which compares them with the offers of its own stack, picks, and replies with the
-- client's stacks that match; the client applies one of those to its own stack. The same messages are
-- what the loops of the server exchange with their connections. Endpoints that rendezvous negotiate each
-- with itself, and agree through the store: the task hands the nonce that is committed to the handles,
-- and a connection applies it to its own stack.
--
-- Conventions
--
-- * The order of iteration of a map is the order of its list. A definition that takes the first of
--   several entries therefore stands for one order of iteration.
-- * Addresses are numbers. bincode and the sockets are parameters: the record `Wire` of the server has
--   the results of serialising, sending, wrapping a connection and replaying its first message.
-- * Numbers of segments are 32 bits wide and wrap around, as in the source's release build; the other
--   numbers are identifiers, counters of a stack's size, and instants of a clock that is an argument.
-- * A loop over the events of a connection is a recursion on the list of events: it has the state
--   `waiting` when the list is used up, and no definition of code has fuel. What another connection
--   writes to the map that the connections of a server share is an event (`recorded`) between two
--   rounds.
-- * A `BinaryHeap` is a list in popping order.
--
-- Not modelled
--
-- * The futures and streams around the loops (`negotiate_server`, `InjectWithChannel`), the retries of
--   `try_negotiate_offer_loop` with their timeout, sockets and logging: input and output.
-- * The other chunnels and applications of the repository (the rest of kvstore, shard-ctl,
--   cx-list-opt, localname-ctl, elk-app-logparser, the message queues): not yet.
-- * What two tasks do to one connection at the same time: a `send` and a `recv` of `UpgradeEitherConn`, and
--   calls of `send` of `KvReliability`, come one after another. The negotiation task is that of a stack
--   with a handle, whose requesters wait for their answers.
-- * A committer in Redis whose query fails takes no further step; it does not start again.
-- * The serialised forms themselves: bincode is a library.
pub mod Prelude
pub mod Negotiate
pub mod Rendezvous
pub mod Redis
pub mod Ordered
pub mod AtMostOnce
pub mod KvReliability
pub mod Util
pub mod Kvstore
mod Tests

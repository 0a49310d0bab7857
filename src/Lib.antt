-- ===== src/Lib.antt =====
-- Jak 3 for Archipelago: the durable state of the Python client, and its session with the game.
--
-- The client keeps one persistent state for each native save of the game. Archipelago's server sends
-- received items and confirmed locations; the game reports completed locations and applied items.
-- Each report becomes a transition of the state, the state is validated whenever it is built, and a
-- transition is committed to disk before anything else learns of it.
--
-- Files and the code that they model:
-- - Prelude: shared names, Boolean tests, lists and integers over the native numbers, and Result, the
--   exceptions of worlds/jak3/persistence.py as values.
-- - IdSet: sets of network IDs and the sorted tuples that stand for them.
-- - Value: dynamically typed values and _validate_json_value of worlds/jak3/persistence.py.
-- - Registry: the tables of worlds/jak3/registry.py, one child module for each table.
-- - Persistence: worlds/jak3/persistence.py, the state (State), validate_state in three groups of
--   checks (Identity, Journal, Locations) and as a whole (Validate), create_unbound and bind (Create), and the
--   comparison of states (Equal).
--   `post_init p s` is the construction of a state object, which validates it.
-- - Outbox: worlds/jak3/location_outbox.py. `transition` is _transition.
-- - ReceivedItems: worlds/jak3/received_items.py. Parse is the packet validation;
--   apply_received_items_packet, permanent_item_target_mask and mark_pending_items_applied have the
--   source's names.
-- - Encoding: worlds/jak3/canonical.py (Json), and of worlds/jak3/persistence.py: to_payload and
--   from_payload of the state (Payload), serialize_state and deserialize_state (Envelope), and the
--   save-identity authorization files (Authorization). `Library` stands for the json and hashlib
--   modules and for the conversions between integers and texts.
-- - Repository: the files of one native save. `commit` is _commit_impl with _write_state and its fault
--   stages; Open has _load_or_create; Files fills the interface `Codec` with the state encoding;
--   Session has the writer lease, _open, open_live and StateSession with commit, bind, switch and
--   close, over the files of all saves under one root. `fault` says at which stages the fault injector raises; the answer of the
--   operating system to the request for its lock is the argument `granted`. open_session takes the
--   result of the authorization check, which open_live computes, and which open does without.
-- - Protocol: the client's side of worlds/jak3/agents/protocol.py. Messages has the enumerations of
--   the wire, receipts and snapshots; Contract the compatibility checks; TimedOut the mapping of
--   commands that timed out; Session the state of BridgeProtocol, _observe_snapshot and _wait_for; Commands has
--   initialize's adoption of a session, ping, query and send_command; Acknowledge the coalescing
--   of acknowledgements. `Answer` lists what the transport and the game bring in answer to a form,
--   up to the deadline.
-- - Options: ResolvedJak3Options and validate_options of worlds/jak3/option_resolution.py, with the
--   default weights of worlds/jak3/options_schema.py.
-- - Tests: the theorems at concrete inputs.
--
-- Numbers that the code keeps nonnegative are natural numbers; location IDs in item packets are
-- integers. Python's exceptions are the constructors of Error, without their texts. All recursion is
-- structural, so no fuel is needed. `Platform` stands for the uuid module and for the SHA-256 digests
-- of the tables; `Codec` is the interface of the file encoding, with the round trip that the
-- repository relies on. The canonical form of a state has the keys of its JSON fields in order.
--
-- Not modelled: diagnostic events and records, which only feed the diagnostic log; the text of
-- snapshots and forms; the option objects of Archipelago, which resolve_options reads; slot data and
-- the frozen legacy IDs; the launcher; the asynchronous client; world generation.
mod Prelude
pub mod IdSet
pub mod Registry
pub mod Value
pub mod Persistence
pub mod Outbox
pub mod ReceivedItems
pub mod Repository
pub mod Tests
pub mod Protocol
pub mod Options
pub mod Encoding

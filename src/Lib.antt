-- ===== src/Lib.antt =====
-- Agent-WebWire performs writes on a social network through a browser on behalf of an agent. Its
-- safety core decides whether a write may happen, whether it may have happened, and whether it may
-- be tried again. This library models that core, function by function, and proves what it promises.
--
-- The parts, and how they interact:
--   Effect          src/webwire/safety/effect_ledger.py, the append-only ledger of external effects:
--                   the record and its validation (Record), the state machine of an effect's
--                   history (History), the file with read_records and append_durable (File), and
--                   the recovery projections (Projection).
--   Reconciliation  src/webwire/safety/reconciliation_ledger.py, the ledger of the verdicts on
--                   uncertain effects, with the latch that it sets when durability is in doubt.
--   Recovery        src/webwire/safety/recovery_projector.py joins the two histories (Projector),
--                   and src/webwire/safety/recovery_guard.py denies the semantic keys that the join
--                   leaves unresolved (Guard).
--   Risk            the risk tiers of src/webwire/safety/models.py.
--   Confirmation    src/webwire/safety/confirmation_state.py, the one-shot confirmation tokens.
--   Approval        src/webwire/safety/execution_models.py: the approval with its claim and its one
--                   spend (Grant), and the execution attempt under it (Attempt).
--   Policy          src/webwire/safety/effect_policy.py: what an action may cause, and whether its
--                   commit needs a durable reservation.
--   Gateway         src/webwire/safety/commit_gateway.py, which turns a live approval into one
--                   permit for one effect, over the ledger, the approvals, the policies, the epoch
--                   and the kill switch: its state and its errors (State), the live owners (Owner)
--                   and their retirement (Retire), the closure and the records of permits
--                   (Permit), consume_permit and the outcomes (Consume), authorize_commit (Mint,
--                   Authorize), and the life of a gateway among its callers (Run).
--   Rules           src/webwire/safety/user_rules.py, the standing decisions of the owner: reading,
--                   matching, and their changes (Store).
--   KillSwitch      src/webwire/safety/kill_switch.py: trips, and the listeners that are owed them.
--   Ipc             src/webwire/authority_ipc_request_table.py (RequestTable) and
--                   src/webwire/authority_ipc_framing.py (Framing).
--   Limits          src/webwire/safety/token_bucket.py and src/webwire/safety/dedupe.py.
--   Storage, Json   the file under both ledgers with the answers of the operating system, and the
--                   values that a record's details may hold, with their equality in Python, which
--                   Json.Same describes without an order of keys.
--   Base            what the modules share: tests, lists, results, Python's dict.
--
-- How the code is modelled. A method that changes an object takes the object's state and returns
-- the new one with its result; an exception is an error value, with the state that it leaves. Each
-- method of the source runs whole under its lock, so concurrent callers are any sequence of calls;
-- the kill switch calls back outside its lock, so a delivery is two steps with any steps in
-- between. Clocks, drawn ids and the results of open, write, fsync and stat are inputs, and the
-- theorems hold for all of them. A file is its lines, whether bytes follow the last newline, which
-- lines an fsync has covered, and whether the directory entry is durable. Functions keep the
-- source's names; where one source function is several definitions here, the file says so. All
-- recursion is on lists, so there is no fuel. The gateway shares approvals, attempts, permits and
-- epochs with its callers: a reference to such an object is its position in a list of the state, and
-- callers may change the objects between any two calls. A call of the gateway runs whole under the
-- protocol lock, with the fences that it takes; what can change under it, the hot file, the clocks
-- and the epoch before the last fence, is an input of the call. The intent's snapshot and hashes, the
-- binding hash of a policy and the length of a record's JSON are parameters.
--
-- Not modelled: the JSON text of rows (a line is blank, malformed or a row), the canonicalisation and
-- hashing of evidence, Python's type tests, floats (times are natural numbers of some unit), the
-- equality of a float with an integer or with another float of other bits inside details (a float
-- equals the same bits only), the sorting of the keys of a row that is written (equality of facts
-- does not see the order of keys), the creation of missing directories step by step, and the directory fsync that is skipped on Windows. The order of the
-- projections by effect id is computed but not proved. Listener delivery before a call of the gateway
-- is a step of the kill switch by itself. The write kernel, the scoped authorities, the
-- reconciliation workflow, the rule compiler, the IPC server and all code that drives the browser
-- are outside this library.
mod Base
pub mod Json
pub mod Storage
pub mod Effect
pub mod Reconciliation
pub mod Recovery
pub mod Risk
pub mod Policy
pub mod Confirmation
pub mod Approval
pub mod Ipc
pub mod Limits
pub mod KillSwitch
pub mod Gateway
pub mod Rules

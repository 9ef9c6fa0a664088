-- ===== src/Lib.antt =====
-- Verification of epica, a belief runtime for agents: a belief quad with AGM revision and
-- checkpoints, behavioral contracts enforced around every update, a governance layer whose audit
-- trail is a tamper-evident ledger, and signed receipts over windows of that ledger.
--
-- The parts, and the files that model them:
--   * Ledger (crates/epica-contracts/src/sovereignty/ledger.rs): Ledger/Defs has the entries, `append`
--     and `verify_chain`; Ledger/Merkle the Merkle root, `merkle_proof` and `verify_merkle_proof`. Chain,
--     Tamper, Inclusion, Sound, Binding and Size hold their theorems, Reduce and Collision the lemmas that
--     these share.
--   * Receipt (crates/epica-zk-evidence/src): Receipt/Wire is receipt.rs, Receipt/Prover is prover.rs,
--     Receipt/Verifier is verifier.rs. RoundTrip, Pin, Binding and Window hold the theorems.
--   * Sovereignty (crates/epica-contracts/src/sovereignty): Policy is auth.rs, retention.rs and
--     cross_agent.rs, Checks is mod.rs, Emit is audit.rs, which appends to the ledger, Forget is
--     forget.rs, which removes from the quad.
--   * Quad (crates/epica-core/src): Value is belief/node.rs, embedding/mod.rs and the value comparisons
--     of quad/semantic.rs; Projection is what the four graphs have in common; Store is quad/mod.rs with
--     the queries on the graphs; Revision is revision/agm.rs and postulates.rs; Diff is diff/mod.rs;
--     Checkpoint is checkpoint/ops.rs and types.rs; Decay is the decay of quad/temporal.rs; System1 is
--     system1/mod.rs and noisy_or.rs; Queries has the other queries on the graphs and Counterfactual is
--     counterfactual/mod.rs. Synchronized, Contraction, Postulates, Reassertion, Propagation, Downstream,
--     Visits and Spreading hold the theorems on Store, Revision and System1, Difference those on Diff and
--     Checkpoint.
--   * Contracts (crates/epica-contracts/src and crates/epica-runtime/src/contract_engine.rs): Defs has
--     the contracts and their predicates, Errors the errors of the runtime
--     (crates/epica-core/src/error.rs, crates/epica-runtime/src/error.rs), Drift the drift bound,
--     Execution the recovery policies, Precheck the checks before an update and Engine the enforcement
--     after it, Guarantees, Keeps and Recovery the theorems. The engine uses the quad's rollback, the
--     governance record and the audit.
--   * Runtime (crates/epica-runtime/src): History is history.rs, Governance is governance_tracker.rs,
--     TokenBucket is system2/token_bucket.rs, Tece is crates/epica-core/src/diff/tece.rs, Beliefs is the
--     state of runtime.rs with its smaller operations, and Update is `update_belief`, which ties the quad,
--     System 1, the contracts, governance and the history together; Report is session.rs with
--     `session_report`. Approvals, Gate, Consistent, Sessions, Outcomes, Restores and Buckets hold the
--     theorems; a session is any sequence of calls.
--   * Mcp (crates/epica-mcp/src): Tasks is tasks.rs with both stores, Server is `handle_belief_set` of
--     handlers/belief.rs with the task that it spawns, Reads the handlers that read, Auth and Base64 are
--     auth.rs. Steps lets the requests and the steps of the spawned tasks come in any order; Stores,
--     Settling, Settled, Budget and Authorized hold the theorems.
--   * Tests has small instances of the interfaces and runs the theorems on them.
--
-- How the code is modelled. A method on `&mut self` takes the state and returns the state after it
-- beside its result, so an error keeps what was done before it. A `Result` is Prelude/Results's, `?` its
-- bind. Numbers are natural numbers; counters that wrap have their `% 2 ^ w`. `[u8]` is a list of
-- numbers. A `HashMap` is an association list (Quad/HashMap) and a `HashSet` the list of its elements;
-- the order in which the code walks them is the order of the list. The clock and `Uuid::new_v4` are
-- arguments. A call of the runtime takes its locks one after the other and is one step of the model; the
-- tasks that the server spawns run by steps between the calls.
--
-- What stands outside the repository is a parameter: BLAKE3, the JSON encoder, `hex` and `ed25519_dalek`
-- (Ledger/Defs, Receipt/Wire), `f32`, `f64`, `serde_json::Value`, `Uuid`, `slotmap` and `petgraph`
-- (Quad/Platform), `Instant` (Runtime/TokenBucket), `sled` and the JSON of a task (Mcp/Tasks),
-- `jsonwebtoken` (Mcp/Auth), and the clients of language models and embeddings, with their documented
-- behaviour as laws. No law says that the hash has no collisions: where security rests on that, the
-- theorem gives a collision as its other case. No law says that a JSON value survives printing and
-- parsing: `serde_json` may change the last digits of a number, so what it makes of a value is part of
-- the interface (`reread` in Mcp/Tasks). Of the graphs the laws say which node bears which belief after
-- each operation, and that the index of a new node was free.
--
-- Loops are structural, but for two. The Merkle reductions run on the number of leaves as fuel, and each
-- round at least halves a level of two or more nodes, so that the fuel outlasts the loop
-- (Ledger/Reduce). The walk of System 1 runs on one more than the number of nodes of the causal graph,
-- and each call that goes on visits a belief of the graph that was not visited before, or the changed
-- one (Quad/Propagation).
--
-- Not modelled: the language model clients and their prompts, the network and command line shells, the
-- Python binding, the macros, telemetry, the persistent stores, page rank and with it the retrieval by
-- score, active inference, and the benchmarks.
pub mod Prelude
pub mod Ledger
pub mod Receipt
pub mod Sovereignty
pub mod Runtime
pub mod Mcp
pub mod Quad
pub mod Contracts
pub mod Tests

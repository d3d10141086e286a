-- ===== src/Lib.antt =====
-- Verification of lirix, a library that checks the transactions which language-model agents
-- propose before anything is signed: layers inspect an intent, its calldata, the state of the
-- chain and a simulation, and a session records what was done and exports it for replay.
--
-- Parts of the program and the files that model them:
-- - lirix/core/status_aggregation.py: Status.antt (`aggregate_statuses`); laws in Status/Laws.antt.
-- - lirix/core/session_fsm.py: Session/Fsm.antt (`SessionFSM.validate_append`).
-- - lirix/core/session.py: Session/Types.antt (entries of the timeline), Session/Store.antt and
--   Session/Methods.antt (ValidationSession and the methods that change it), Session/Replay.antt
--   (`replay_bundle`), Session/Verify.antt (`verify_replay_bundle`), Session/Calls.antt (sequences
--   of calls, refused ones included). A session asks Fsm before it appends an entry, and folds the
--   status of each entry into its outcome by Status.
-- - lirix/core/contracts.py: Contracts.antt (`is_hex_digest`), which Verify asks.
-- - lirix/layers/l4_rpc_manager.py: Rpc/Types.antt (the state of RPCManager), Rpc/Breaker.antt (its
--   circuit breakers), Rpc/Reconcile.antt (`sync_reconcile` and `async_reconcile`, by a mode),
--   Rpc/Quorum.antt (AsyncQuorumProvider, `quorum_eth_call` with its retries and votes).
-- - lirix/layers/l3_defi_parser.py, with the selectors of lirix/core/signatures.py: Defi/Types.antt
--   (calldata, configuration), Defi/Swaps.antt (the swaps), Defi/Multicall.antt (the nested
--   batches) and Defi/Validate.antt (`validate`).
-- - lirix/layers/l1_intent_validator.py: Intent.antt (IntentValidator; `hooks` are the answers of the
--   hook manager), with the tables of lirix/core/signatures.py.
-- - lirix/layers/l5_shadow_auditor.py: Shadow.antt (`audit` and the choice of its policy), over the
--   payload of Intent.antt.
-- - lirix/shield/simulator.py: Shield.antt (StateDeltaValidator).
-- - lirix/layers/l3_proxy_piercer.py: Proxy/AbiCache.antt (AbiLRUCache), Proxy/Probe.antt (the reads
--   of slots, beacons and diamonds) and Proxy/Piercer.antt (`inspect_target` with its cache, and
--   `fetch_abi`, which asks the ABI cache for what a target resolves to).
-- - lirix/core/constants.py and lirix/core/canonical_taxonomy.py: Taxonomy.antt (the canonical codes)
--   and Taxonomy/Table.antt (the table of reasons); the hook points are in Hooks/Types.antt.
-- - lirix/core/hook_manager.py and lirix/core/hook_contract.py: Hooks/Contract.antt (contracts and
--   shapes of a result), Hooks/Verdict.antt (`_hook_ok_result`), Hooks/Manager.antt (the registry),
--   Hooks/Settle.antt (what one callback leaves), Hooks/Invoke.antt (`invoke_hooks_isolated` and
--   `ainvoke_hooks_isolated`) and Hooks/Direct.antt (`invoke_hooks` and `ainvoke_hooks`). A callback
--   is a function of its keywords and of a world of its own, which also holds what the objects that a
--   payload refers to hold.
-- - lirix/core/orchestrator.py, with helpers of lirix/_facade.py and lirix/core/client_components.py:
--   Orchestrator/Types.antt (the state of a run), Orchestrator/Actions.antt (its steps) and
--   Orchestrator/Runs.antt (`run_validate`, `run_simulate`, `run_full`). A run invokes the hooks by
--   Hooks.Invoke, records itself in a session by Session.Methods, and takes the layers, with the
--   digests and the clock, as operations of its `Client`.
--
-- A record is the state of an object, a function of it is a method, and an exception is a value
-- of Result beside the state that the method leaves. A dict is an association list, or a function
-- where it has a default. Text is a list of code points. Numbers are the naturals; times are
-- clock ticks in milliseconds, and in seconds for the proxy piercer.
--
-- What is called and not in the repository is a parameter: sha256 of JSON, and with it the digests
-- `stable_digest` of lirix/core/contracts.py and `trace_digest` of lirix/core/evidence.py, which only
-- apply it; the answers of the endpoints (`fetch`), the clock, the order in which the futures of a
-- pool complete (`arrival`), and the hooks. For the
-- calldata parser these are the checksum of web3, the decoders of eth_abi, two hashed selectors
-- and the plugins (`Codec`, `Plugin`). For the proxy piercer they are the node and the
-- decoders of an address (`Probe.Node`), and the JSON of an ABI (`dumps`, `loads`); for the quorum the
-- digest of a result (`hash_result`); for the intent validator and the shadow auditor the address
-- checks of web3 (`Outside`, `Digests`), the hooks, and the digest of a policy.
--
-- Bounds: loops recur on the list that they run over, and the walk over
-- nested multicalls on the levels left: 6 at the outermost, which is the source's limit of 5 levels
-- of nesting, so no walk ends for another reason than the source's own exception.
-- The retries of a call recur on the 3 attempts of the source, of which none is left over.
--
-- Not modelled: the locks, since each method runs as one step under its own; snapshots, evidence
-- reports and forensic bundles, which copy data out; the schema of L2 and the simulation of L5, so
-- that the pipelines take the layers as operations; the threads in which hooks run, and what a hook
-- writes after its time limit; configuration, the other helpers of the facade, the documents that a
-- result carries, command line and integrations.
pub mod Prelude
pub mod Status
pub mod Contracts
pub mod Session
pub mod Rpc
pub mod Defi
pub mod Proxy
pub mod Intent
pub mod Shield
pub mod Shadow
pub mod Taxonomy
pub mod Hooks
pub mod Orchestrator

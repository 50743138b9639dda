-- ===== src/Lib.antt =====
-- JUNCA Social Ecosystem Chain: the protocol code of its validators and of its bridge.
--
-- The package `jaios/social_ecosystem_chain` holds the chain's deterministic core and the parts
-- around it. A validator admits transactions to its mempool, proposes a block candidate from it,
-- executes blocks with the protocol kernel, signs votes through the consensus signing journal,
-- and counts the votes of all validators in the finality state machine. A node that is behind
-- follows finalized claims of its peers by the fork choice, verifies finality proofs against the
-- schedule of validator sets, and catches up by a snapshot. Next to them stand the bridge's
-- message engine and the relayer's persistent queue of messages. The node pipeline joins the
-- mempool, the kernel and the state store, which keeps the finalized blocks with an account
-- snapshot at each; a block from a peer is imported under a recovery journal.
--
-- Parts, files, and the code they model (paths below jaios/social_ecosystem_chain/):
--   ProtocolKernel: protocol_kernel.py. Types has the records and `validate_transaction`,
--     BaseFee has `next_base_fee`, Execution has `normalize_accounts`, `compute_state_root` and
--     `execute_block`; `Progress` is the loop's local variables.
--   Mempool: mempool.py. Types has the policy and `_validate_replacement`, Pool has
--     `TransactionPool.admit`, `remove_included` and `prune`, Candidate has `build_candidate`,
--     Snapshot has `export_snapshot` and `restore_snapshot`.
--   Finality: finality.py. Types has validators, votes and certificates with their digests,
--     Machine has `FinalityStateMachine` with `add_vote`.
--   ConsensusSigningJournal: consensus_signing_journal.py. Journal has `get_or_sign` and what
--     `__init__` restores and validates; its two tables are dicts under their primary keys.
--   ConsensusSync: consensus_sync.py. ForkChoice has `FinalizedForkChoice.observe`, Snapshot has
--     `SnapshotCatchup.verify` and `build_snapshot_descriptor`.
--   SyncFinality: sync_finality.py. Schedule has `ValidatorSet` and `ValidatorSetSchedule`,
--     Verifier has `CertifiedFinalityVerifier.verify`, Payload has `proof_to_payload` and
--     `proof_from_payload`.
--   BridgeProtocol: bridge_protocol.py. Engine has every operation of `BridgeProtocol`.
--   RelayerJournal: relayer_journal.py. Queue has every operation of `RelayerJournal` over its
--     two tables.
--   StateStore: state_store.py. Types has the rows, the account snapshots and their JSON text,
--     Store has `initialize_genesis`, `commit_finalized_block` and the readings, Integrity has
--     `integrity_check`, Checkpoint has `export_checkpoint`, `verify_checkpoint` and
--     `restore_checkpoint`, Certificate has `latest_finality_certificate`. The tables are the rows
--     in the order of the primary key and dicts under theirs, with the unique and foreign keys
--     written out. Codec: a concrete stand-in for JSON.
--   NodePipeline: node_pipeline.py. Pipeline has `execute_candidate` and `commit_finalized` over
--     the pool, the kernel and the store.
--   PeerSync: peer_sync.py. Registry has `PeerRegistry`, Journal has `RecoveryJournal`, Importer
--     has `SynchronizedBlockImporter.import_finalized`, whose fault injector raises at one of
--     three points or at none; a crash between two writes is such a fault.
--   Common: Python's exceptions as results, `dict` as an association list in insertion order,
--     `str` as a list of code points, `sorted` and `min`, JSON values and the dicts read from
--     them, and hexadecimal text. Samples: concrete stand-ins for the tests, which stand in each
--     part's Tests.
--
-- How the model is written. An operation that mutates an object takes the state and returns it;
-- where it may raise after a write, it returns the outcome beside the state, and where a
-- database transaction rolls back, an error carries no state. Python's integers are unbounded,
-- and so are the numbers here, but the state store's INTEGER columns hold 64 bits with a sign: a
-- number from 2^63 on raises `overflow` where it is bound. The two journals of votes and of
-- bridge messages have such columns too; there a call with a greater number, which raises and
-- writes nothing, is taken as not made. A number's text has no more than the 4,300 digits that
-- Python allows, and no text holds a lone surrogate. Where the code demands that an integer is
-- not negative, it is a natural number, and the test for it is left out, as are tests of a
-- value's Python type. Heights that start at -1 are integers. Text is compared and lowered by
-- code points in ASCII. Times are arguments. A subtraction stands behind the test that keeps it
-- from falling below 0.
--
-- What is not under this package is a parameter: the JSON encoder with sorted keys and SHA-256
-- are the fields of `Platform`, the JSON reader is the function `loads`, signers and verifiers are
-- functions that return or raise, and the fork choice's power resolver is a function of the
-- height. What JSON and SHA-256 document of each other is the record `Documented`.
--
-- Loops. All are structural recursion but two. `build_candidate` has a `while` loop, here on as
-- many rounds as the gas limit: each round takes the intrinsic gas, which is positive. `decimal`
-- divides by ten on as many rounds as the number, which are more than it has digits.
--
-- Not modelled: HTTP and RPC services, peer sockets, the validator's process, pages, Genesis and
-- release documents, deployment and readiness reports and the workflows, which are input and
-- output, configuration or checks of documents; and, of the modelled files, the `evidence`
-- reports and the bridge's reader of a message from a mapping.
pub mod BridgeProtocol
pub mod Common
pub mod ConsensusSigningJournal
pub mod ConsensusSync
pub mod Finality
pub mod Mempool
pub mod NodePipeline
pub mod PeerSync
pub mod ProtocolKernel
pub mod RelayerJournal
pub mod Samples
pub mod StateStore
pub mod SyncFinality

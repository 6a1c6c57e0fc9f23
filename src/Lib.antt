-- ===== src/Lib.antt =====
-- tradermarket: the live-room service (services/live-room/src) and the market quotes of the web
-- application (prototype/live-market-app/src/web3). Files of the service are named below without
-- `services/live-room/src/`.
--
-- A room runs a trading competition. Its connector (connector/connector.mjs) appends what a
-- provider reports to the Session Event Log, a hash chain (domain/eventlog.mjs) that an event
-- store keeps (ports/stores.mjs). Conditions are evaluated on the log alone
-- (domain/conditions.mjs), with exact decimals (domain/decimal.mjs); what they decide is attested
-- on chain, and the keeper (keeper/keeper.mjs) sends the calls that finalize markets. A question
-- is published through a queue, by two processes with two keys. The Source Gate Authority
-- (gate/authority.mjs) evaluates the conditions that gate/condition-registry.mjs has checked, closes
-- and suspends the room, clears its epochs and signs permits. Resolvers (resolver/resolver.mjs) reach
-- the result again from raw facts, and the coordinator (coordinator/coordinator.mjs) tells the
-- audience what the projection of the chain shows, which the indexer (indexer/indexer.mjs) writes
-- to the projection store (indexer/projection.mjs) from the logs of the contracts.
--
-- Base            names, Boolean tests, results, lists, integers and dictionaries
-- Domain.Decimal  domain/decimal.mjs: `to_scaled`, `from_scaled`, `add_decimal`, `compare_decimal`,
--                 `percent_of`; Print and RoundTrip are about printing and reading
-- Domain.Event    the rows of domain/eventlog.mjs, `dedupeKey` and `contentKey`
-- Domain.EventLog domain/eventlog.mjs: `build_event`, `verify_chain`, and `verify` of
--                 `ChainVerifier`; Chain, Verifier and Tamper are about what verification means
-- Domain.Timeline `rectify` of domain/conditions.mjs; Corrections and Order
-- Domain.Conditions the rest of domain/conditions.mjs: `scanning`, `evaluate_window`,
--                 `evaluate_condition`; Metrics has its data, Finality, Exact and SessionEnd are
--                 about decisions
-- Ports.EventStore `MemoryEventStore` of ports/stores.mjs and its views of one room; Rooms
-- Ports.LeaderLease `MemoryLeaderLease` of ports/stores.mjs; Fencing
-- Connector       connector/connector.mjs: `ensure_loaded`, `ingest_batch`, `send_heartbeat`; Index,
--                 Log and Replay
-- Keeper          keeper/keeper.mjs: `due_action` and `tick`; Due and Tick
-- MarketMath      marketMath.js: `quote_buy`, `quote_sell`, `sqrt_floor`; Sqrt, Buy and Sell
-- Publication     ports/publication-queue.mjs: the queue of questions to publish; Server is
--                 gate/permit-server.mjs, Publisher is publisher/queue.mjs, which both act on it;
--                 Rows, Rows.Marks, Rows.Runs, Sending and Present are about them
-- Settlement      `reachedQuorum` of settlement/settlement.mjs; Quorum
-- Gate            gate/authority.mjs: its state and the chain that it calls; Action is code that
--                 reads, writes and throws, with `_ensureLoaded`; Suspension, Clearance and Pass are
--                 the parts of `tick`, Permits is `request_permit`, and Registry is
--                 gate/condition-registry.mjs. Loading, Keeping, Safety and its modules,
--                 Running, Ending, Grounds and Nonces are about them
-- Coordinator     coordinator/coordinator.mjs: View is `snapshot`, Publishing is `publish`,
--                 `frames_since` and the presentation channels, Tick is `tick`, Requests is
--                 `begin_request` and `end_request`, the halves of `maybeRequestSlot`, Operations is
--                 all of them; Retained, Founded and Runs are about the frames
-- Resolver        resolver/resolver.mjs: Facts is `reconstruct_facts`, `evaluate_slot` and
--                 `build_evidence` are here, Compare is `compare_with_log` and Match about it,
--                 Rebuild is `reconstruct_slot` and `resolve_slot`; Loop and Evidence are about the evidence
-- Indexer         indexer/indexer.mjs and indexer/projection.mjs: the rows are here; Events, Source,
--                 Fresh, Store and Queries are logs, ports and the store; Rooms, Markets, States and
--                 Apply are the handlers, RoomId is `decode_room_id`, Sync is `sync_to` and `rebuild`,
--                 Reorg is `detect_reorg`, `rewind_to` and the `poll` of app.mjs. Books, Ledger,
--                 Recording, Recorded, History, Once, Passes, Polls, Complete and Agree are about
--                 what was applied, Escrow, Forks and Settling about single answers
-- Tests           runs on concrete inputs
--
-- Data: identifiers, hashes and signatures are only compared, so they are numbers; a decimal is
-- the list of its character codes; BigInt is `ℤ`, or ℕ where nothing is negative; instants are
-- milliseconds, as `Date.parse` reads them; a throw is `none`, an error of
-- `Result`, or `false` beside the state that was written.
--
-- Parameters: the digest of an event's covered fields (`keccak256` of `canonicalize`), the signer
-- and the signature check, the archive's references and the clock of the connector,
-- `localeCompare`, `toLowerCase`, the chain that the keeper reads and calls, the Gate Authority's
-- answers, the catalogue and the chain of the publisher; for the gate its chain, whether its store
-- answers a read, the hashes, the signer, the clock and the question check of the catalogue; for
-- the coordinator the rows of the projection and whether its sink takes a frame; for a resolver
-- the archive, the digest and what the provider's adapter reads from raw bytes, and the chain that
-- it attests to; for the indexer the case of addresses, the slots' metadata, and what the log
-- source and the market reader answer in each poll. A pass of the gate goes by one log, one tip
-- and one instant, and the log and the tip need not agree. The gate's writes to its store are
-- taken to succeed.
--
-- Fuel: `show_digits` has one round for each digit, and `n + 1` rounds are enough for `n`, as the
-- round trip needs; `descend` has as many rounds as its starting point, which falls in each, and
-- the root needs no more. The sweeps of a pass are eight, as in the source.
--
-- Not modelled: the contracts, which are Solidity; SQL and file adapters, HTTP, RPC and the user
-- interface, which are input and output; the writing of rows to a file by `MemoryEventStore`; metrics
-- and time stamps; the resolver's list of incidents, and resolver/resolution.mjs; the rest of the
-- settlement records and discovery, which are other parts of the service; and of the
-- modelled files `canonicalize`, `freshnessAgeMs`, `foldMetrics`, `toUsdc`, `fromUsdc`, the
-- fingerprint of the store, its room events and some of its lists.
pub mod Base
pub mod Domain
pub mod Ports
pub mod Connector
pub mod Keeper
pub mod MarketMath
pub mod Publication
pub mod Settlement
pub mod Gate
pub mod Coordinator
pub mod Resolver
pub mod Indexer
mod Tests

-- ===== src/Lib.antt =====
-- A verification library of the reference implementation of multi-part events.
--
-- A contract emits a payload that is larger than one event as several 256-byte parts under one
-- 32-byte name. The publisher composes, proves, balances and submits a transaction that holds
-- packages of parts, one intent each; the reader groups the events of included transactions into
-- packages, merges their payloads, and checks where a package stands in its transaction.
--
--   Bytes        src/reader/bytes.ts: comparison, hex, order of strings by code units.
--   Utf8         TextEncoder and TextDecoder, as event.ts and transaction.ts use them.
--   Event        src/reader/event.ts: names, values and the widths that trimming loses.
--   Parts        src/publisher/parts.ts: a payload cut into padded parts.
--   Json         JSON.stringify on a list of strings and a number, for the group key.
--   Packages     src/reader/packages.ts: readPackages. Types has the records and the validation,
--                Groups the key, Evaluate the evaluation of one group.
--   Ledger       what the code reads of the ledger library: data types, and a record of its
--                functions that is a parameter of everything that uses them.
--   Transaction  src/reader/transaction.ts. Logged decodes transcripts, Activity is contractActivity,
--                Events the two conversions to part events, Placement checkPlacement and Verify
--                verifyTransactionPackages.
--   Guard        src/publisher/guard.ts: assertPackageIntent and assertTransactionPackages.
--   Dates        new Date(ms) and Date.toISOString, for a TTL: an invalid date beyond their range.
--   Effects      promises and provider calls: a result with the calls that were made.
--   Finalize     src/publisher/finalize.ts. Records has the record and its readers, Checks the checks
--                of each stage; Finalize itself proves, balances, saves and submits.
--   Compose      src/publisher/compose.ts and src/publisher/binding.ts. Config has the configuration
--                and the preflight, Intents the execution checks and the redrawn intent, Loop what is
--                done for one package; Compose itself is buildPackagesTransaction.
--   Process      awaited calls of an environment with a state, which may throw.
--   Indexer      src/indexer/index.ts. Types has what the indexer answers, Query one query with its
--                retries, Operations the client and its state source, Conversion
--                partEventsFromIndexer, Waiting waitForTransaction and Node rawTransactionInBlock.
--   Verification src/cli/verify.ts and src/cli/verifier-key.ts. Keys compares verifier keys, Levels
--                is levelOf, Records the report and its exit status, Sources indexerSource and
--                savedSource; Facts has the checks of a transaction, Checks those of a package,
--                Requests the request's validation, Run verifyPackages and Lines the report's lines.
--   Generic      src/publisher/generic.ts: transactions other than packages.
--
-- Strings are lists of UTF-16 code units and byte arrays lists of numbers. An exception is a value of
-- Error; a function that can throw answers a Result. A Set or a Map is an association list in
-- insertion order. A counter or an index is a natural number, as the code makes sure by its checks.
-- Randomness is a seed that the ledger's functions pass on. Every loop is structural: over a list,
-- or, in addGuaranteedIntent and query, over the attempts that are left, which is the source's own
-- bound. The loops of miscEvents and waitForTransaction have no bound in the source: they are
-- given rounds, and say when these run out; more rounds than full pages are enough for miscEvents,
-- and those that the time-out and one more poll interval take for waitForTransaction. The
-- timeouts of requests are part of the environment's answers, and only waitForTransaction reads a
-- clock.
--
-- Proofs stand in modules below the code's, named for what they prove: Bytes/Hex, Bytes/Order,
-- Event/Widths, Parts/Laws, Json/Laws, Packages/Keys, Packages/Accepted, Packages/Redelivery,
-- Guard/Soundness, Guard/Transactions, Finalize/Stages, Finalize/Submission, Finalize/Location,
-- Compose/Intents/Fresh, Compose/Built, Compose/Built/Frozen, Generic/Stages, Generic/Submission, Packages/Stores,
-- Packages/Grouping, Packages/Output, Indexer/Query/Retries, Indexer/Operations/Paging,
-- Indexer/Conversion/Agreement, Indexer/Waiting/Deadline, Verification/Levels/Highest,
-- Verification/Facts/Surveyed, Verification/Facts/Entries, Verification/Facts/Reached, Verification/Checks/Evidence, Verification/Checks/Placed,
-- Verification/Run/Reached, Verification/Run/Reports, Verification/Run/Listed, Verification/Run/Verified and Verification/Run/Exit. Tests holds a
-- small ledger and runs of the code.
--
-- Not modelled: the ledger library, the compact runtime, node:crypto, the indexer and the node
-- (parameters); the option parser and the entry point of src/cli; deploy-tools, which drives wallets
-- and services; and the example contracts.
mod Prelude
pub mod Bytes
pub mod Utf8
pub mod Event
pub mod Parts
pub mod Json
pub mod Packages
pub mod Ledger
pub mod Transaction
pub mod Guard
pub mod Dates
pub mod Effects
pub mod Finalize
pub mod Compose
pub mod Process
pub mod Indexer
pub mod Verification
pub mod Generic
mod Tests

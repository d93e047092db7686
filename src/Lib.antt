-- ===== src/Lib.antt =====
-- Verification library of the PPV protocol's off-chain code: the SDK's escrow, commerce and reputation
-- modules, the indexer's chain client, event extraction, replay and receipt store, and of the live harness its
-- custody assertions, its chain client and the sending of transactions.
--
-- How the parts interact. The program emits events; sdk/src/escrow/events.ts decodes an inner
-- instruction's bytes into one event; sdk/src/escrow/receipts.ts makes a receipt of an event with its
-- chain coordinates, and rebuilds one agreement's history from its receipts; indexer/src/projections.ts
-- keeps receipts by id and rebuilds every agreement's history; indexer/src/replay.ts reads the pages of
-- an address's signatures through indexer/src/rpc.ts, extracts the events of each transaction by
-- indexer/src/events.ts, and gives them to that store; sdk/src/reputation/seal-state.ts says
-- what a list of reputation events proves; scripts/lib/custody-invariants.mjs checks balances around
-- each step of a live run, which scripts/lib/transaction-lifecycle.mjs sends.
--
-- The files and the code:
--   Base and its children: equality tests, lists, membership, results, integers, texts as code units,
--     and JavaScript's Map as an association list in insertion order (get, put for set, delete, values).
--   Base58: encodeBase58 and decodeBase58 of sdk/src/reputation/base58.ts; Base58/Value and
--     Base58/Conversion are about the digits of the two bases, Base58/RoundTrip about the texts.
--   Escrow/States: sdk/src/escrow/states.ts, every table and every function over them.
--   Escrow/Events: the event types of sdk/src/escrow/events.ts; Events/Reader is BorshReader of
--     sdk/src/escrow/reader.ts, Events/Readers the cases of the decoder's switch, Events/Decode
--     decodeEscrowEventData.
--   Escrow/Receipts: the receipt types, kindOf, isoFromUnix, escrowReceiptId and
--     escrowReceiptFromEvent of sdk/src/escrow/receipts.ts; Receipts/Actions is ESCROW_RECEIPT_ACTIONS.
--   Escrow/Lifecycle: reconstructAgreementLifecycle of the same file. Chain indexes the receipts by id
--     and walks the transitions, Placement sorts and attaches the annotations, Custody adds up the
--     payments and checks them, Records is proofRecords and milestoneRecords, Reconstruct puts the parts
--     together. Their children and Keys, Sorting, Payments, Settlement, Delivery, Guarantees, Completeness,
--     Sums, Balances, Money and Termination hold the proofs.
--   Escrow/Credential: escrowSealFacts and escrowCredential of sdk/src/escrow/credential.ts.
--   Accounts: the account types and decoders of sdk/src/escrow/accounts.ts, sdk/src/commerce/accounts.ts
--     and sdk/src/core/accounts.ts, over the reader of the events.
--   Binding: verifyTermsBinding of sdk/src/commerce/binding.ts.
--   Curve: sdk/src/escrow/curve.ts; Curve/Power has powers that are multiplied out.
--   Pdas: sdk/src/escrow/pdas.ts. Bumps is about findProgramAddress, Seeds about the encodings of
--     numbers, Preimages about what the addresses hash, Origins about the derivations, and Distinct
--     about the addresses of two of them.
--   Rpc: the retry policy of indexer/src/rpc.ts and scripts/lib/rpc.mjs; Rpc/Exchanges is the loop that
--     both clients have, Rpc/Source the indexer's call, Rpc/Client the harness's; Rpc/RetryAfter is about
--     the header that an endpoint answers with, Rpc/Methods about the names of methods; Rpc/Deployed is
--     readDeployedProgram of scripts/lib/rpc.mjs.
--   EndpointSafety: endpointFragments, redact and looksLikeCredentialUrl of scripts/lib/endpoint-safety.mjs.
--   Transactions: scripts/lib/transaction-lifecycle.mjs. Errors has the classification, Confirming
--     confirmBySignature, Sending sendExpectingSuccess, Refusing sendExpectingRefusal and
--     assertProvenRefusal; the loop that both senders have is written once, and Rules has the induction
--     over the loops.
--   Indexer/Extraction: extractEscrowEvents of indexer/src/events.ts; Indexer/Replay: signatureHistory,
--     replayAgreement and replayAgreementById of indexer/src/replay.ts.
--   Indexer/Store: ReceiptStore of indexer/src/projections.ts, a method that changes the store as a
--     function to the new store.
--   Reputation/Seal: deriveSealFacts, resolveSealState and sealRank of sdk/src/reputation/seal-state.ts.
--   Reputation/Contracts: the receipt of sdk/src/reputation/contracts.ts and isPpvReceiptV1;
--     Reputation/Eligibility: sdk/src/reputation/eligibility.ts, and receiptId of
--     sdk/src/reputation/hashing.ts.
--   Reputation/Contracts/Events: the event of contracts.ts and isReputationEventV1, and
--     Reputation/Contracts/References the reference to a deliverable;
--     Reputation/Participants: sdk/src/reputation/receipts.ts.
--   CustodyInvariants: scripts/lib/custody-invariants.mjs.
--   The modules called Tests hold runs of the model and the theorems at concrete inputs.
--
-- Parameters, for what is not this repository's code: sha256 (Node's createHash) is a function from
-- texts to bytes, and locale_compare or compare is String.prototype.localeCompare. Where a theorem needs it, the
-- hash is assumed to give 32 bytes. The theorems on the order of delivery assume of localeCompare that it compares
-- any two texts consistently, which ECMAScript asks of it, and that it is 0 for two texts of the form of receipt
-- ids, ppvr_ and 40 hexadecimal digits, only where they are one text (IsCollation); of other texts it may find two
-- equal that differ, as it does those that are canonically equivalent. by_code_unit of
-- Escrow/Lifecycle/Collation is a function that satisfies this. What the network answers is a function
-- of the number of the attempt, the look or the page; the signing, Date.parse, URL, base64, the clock and
-- Math.random are functions too. Of the clock it is assumed that each reading is later than the one
-- before, of Math.random that it is at most one.
--
-- Bounds and fuel. The walk over the transitions is given one step more than the map has entries; each
-- step deletes an entry, so the limit is never met. A sender has one round more than the retries, a
-- confirmation one more than the milliseconds of its timeout, a call one more than its retries, and the
-- paging of a history one more than the most signatures allowed; each of these is enough.
-- modPow has 256 rounds, and no exponent of the program has more bits. Numbers that JavaScript keeps as integers are
-- integers here, and bigint amounts are natural numbers; a 64-bit value is read from its eight bytes.
--
-- What is not modelled: the messages of errors, of which the constructors of the error types keep the
-- values; fractions and NaN, which the callers of these functions do not pass; the rounding of
-- Math.random's product to a double; the instructions, compositions and the normalisation of reputation events of the SDK; the indexer's reading of Core and Commerce
-- events; the scripts that talk to a cluster; and the on-chain programs, which are Rust.
pub mod Base
pub mod Base58
pub mod Escrow
pub mod Indexer
pub mod Reputation
pub mod EndpointSafety
pub mod Curve
pub mod Pdas
pub mod Accounts
pub mod Binding
pub mod Rpc
pub mod Transactions
pub mod CustodyInvariants

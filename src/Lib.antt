-- ===== src/Lib.antt =====
-- theta-rosetta-rpc-adaptor: a gateway that answers the Rosetta API's endpoints from a Theta node.
--
-- The node is asked over JSON-RPC. A block (services/block.go) is turned into Rosetta transactions:
-- `ParseTx` (common/utils.go) dispatches on the type of each ledger transaction to a parser, which
-- lists operations with a running index, each related to the one before. A withdrawal of a stake
-- pays its fee at once, while the stake comes back `ReturnLockingPeriod` blocks later: its amount is
-- looked up at the node (`GetStakeForTx`, common/stake_service.go) and stored in a LevelDB database
-- (common/db.go, common/kvstore.go) under the height at which it comes back; the block of that
-- height lists what is stored there as further transactions. A node that starts from a snapshot
-- fills the store first (`GenStakesForSnapshot`).
--
-- Modules:
--   Prelude      library names passed on; Boolean tests, lists, signed integers.
--   Digits       `String`, `SetString` and `Bytes` of `big.Int`; Digits/RoundTrip relates them.
--   Go           a value or a panic (nil dereference, index out of range, explicit panic).
--   Names        common/types.go: types, operation types, statuses, currencies; Names/Tables.
--   Errors       common/errors.go.
--   Wire         the ledger's transactions and the Rosetta ones, with the fields that are read, and
--                `Theta`, what the code takes from the node's packages.
--   Parse        common/utils.go: what the parsers share; Parse/Transfers (coinbase, slash, send),
--                Parse/Funds, Parse/Contracts and Parse/Stakes are the parsers themselves.
--                Parse/Sequence is about the numbering and relation of operations, Parse/Balance
--                about the sums of the printed amounts in each currency.
--   Assemble     `AssembleTx` of common/utils.go, with Assemble/Dispatch for its switch; Coinbase and
--                Deposit are about it.
--   Rpc          `HandleThetaRPCResponse` and `GetStatus`.
--   Store        common/db.go and common/kvstore.go; Store/Interface is the contract that the other
--                parts take, Store/Laws fills it for any database that is a map and any codec.
--   StakeService common/stake_service.go: `GetStakeForTx`; Snapshot is `GenStakesForSnapshot`,
--                Grouping, Filled and Lookup are about them.
--   Transaction  `ParseTx`; Dispatch and Returns are about it.
--   Block        services/block.go: the closure of `Block`; Endpoints has `ValidateNetworkIdentifier`,
--                `Block` and `BlockTransaction`; Left has the store that a request leaves, be it
--                answered or broken off by a panic, with Left/Agreement and Left/Stays about it.
--                Content, Return, Kept, Reached, Once, Served, Withdrawn and Guards are about them.
--   Mempool      services/mempool.go.
--   Hex          `EncodeToString` and `DecodeString` of encoding/hex; Hex/RoundTrip.
--   Handler      a request over the messages of the shared errors: services/construction.go appends to
--                `Message` through a pointer, so a handler takes and returns, for each error's code,
--                the texts that were appended. Messages has the rules on what a handler may write,
--                Ensures those on what its response says of its steps.
--   Construction services/construction.go: what its endpoints share and `ConstructionDerive`;
--                Preprocess, Suggest (`ConstructionMetadata`), Payloads (with `ConstructionParse`) and
--                Finish (combine, hash, submit) are the others. Refusals, Options, Signing,
--                Payloads/SendTrip and Payloads/ContractTrip are about them.
--   Account      services/account.go, with `GetBlockIdentifierByHeight` and `...ByHash` of
--                common/utils.go; Balances and Refusals are about it.
--   Network      services/network.go.
--   Start        `NewThetaRouter` of services/server.go: the chain id, the directory, the snapshot;
--                Start/Restarts.
--   Session      requests one after the other over the same messages; Log and Options are about it.
--   Tests        sample values and runs.
--
-- State is passed on explicitly: the store's contents through `schedule_return`, `parse_tx` and
-- `parse_block`. A panic in the middle of a block comes after the writes of its earlier entries: the
-- store that it leaves is `block_left`, which follows the same steps. A `*big.Int` is an optional integer, whose nil dereference is a panic; an address or
-- hash is the number that its bytes spell; a `uint64` sum and an `int64` conversion wrap as written.
-- Recursion is on lists, but for the digits of a number, where the number itself is fuel and is enough
-- since each step divides it by a base of at least two.
--
-- Parameters: LevelDB, the RLP codec, `json.Unmarshal` (a decoder), the node's answers, the node
-- packages' texts, Keccak-256 and constants, and `strings.EqualFold`; for the construction endpoints
-- (`Packages`) and `AssembleTx` (`Library`) also `float64` and its conversions, the ledger's codec of
-- transactions, signatures, and the matcher of the Rosetta SDK. The node's answers are fixed during
-- one request, and requests do not interleave. A round trip assumes of the codec that what was encoded
-- is read back, with missing amounts as zero (`IsLedgerCodec`). Block requests that panic assume of a
-- write that fails that it has written nothing (`IsAtomic`).
--
-- Not modelled: opening (but for its sizes) and closing the database, its iterator and lock, the HTTP
-- server and the SDK's router, the process and its configuration: input and output only.
pub mod Prelude
pub mod Digits
pub mod Go
pub mod Names
pub mod Wire
pub mod Parse
pub mod Rpc
pub mod Store
pub mod StakeService
pub mod Transaction
pub mod Errors
pub mod Block
pub mod Mempool
pub mod Hex
pub mod Handler
pub mod Construction
pub mod Account
pub mod Network
pub mod Session
pub mod Start
pub mod Assemble
pub mod Tests

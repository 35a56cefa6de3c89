-- ===== src/Lib.antt =====
-- Citadel runtime: a wallet server that keeps contracts (policies by which outputs are owned),
-- synchronizes them with the bitcoin chain, and composes payments in bitcoin and in RGB assets.
--
-- The parts, and where they are modelled:
--   * Common: Boolean tests, 64-bit sums, lists, results, ordered maps and sets, decimal numerals,
--     the splitting of texts and the replacement in texts, with their laws.
--   * Foreign: types and operations of other crates. `Foreign.Wallet` has the child indexes and
--     the descriptors as records of operations, with the documented laws of the indexes.
--   * Model: `src/model`. A struct is a record, an enum a data type, a method a function that
--     returns the changed value.
--   * Persist: what `src/cache/file/internal.rs` and `src/storage/file.rs` share. An open file has
--     bytes, a cursor, and the outcomes of its system calls to come; `with`, `load` and `store`
--     are sequences of such calls and stop at the first one that fails. `Persist.Filename` has the
--     paths of the files.
--   * Storage: `src/storage`, the contracts. `Storage.View` is its specification, a map from ids
--     to contracts without a file; `Storage.Durable` and `Storage.Invariant` state more of it.
--   * Cache: `src/cache`, what is known of the chain and which addresses were handed out.
--   * Runtime: `Runtime` of `src/runtime/service.rs`, `src/error.rs`, the payment messages of
--     `src/rpc/message.rs`, `src/runtime/config.rs`, and the servers that the methods call
--     (`Services`).
--   * Transfer: `transfer` of `src/runtime/processor/transfer.rs`, in the stages of its text:
--     `Coins` (which coins are spent), `Change` (outputs and change), `Prepare` (the PSBT, the
--     commitment of the RGB node, the history record, and the whole method).
--   * Sync: `chain_sync` of `src/runtime/processor/chain_sync.rs`: `Scan` (one batch of scripts),
--     `Rounds` (the loop), `Assign` (which assets are on which outputs), and the whole method.
--   * Rpc: `src/rpc`: the requests, the replies and their parameters, and the strict encoding that
--     `src/rpc/message.rs` writes by hand.
--   * Server: `rpc_process` of `src/runtime/rpc_server.rs`, one function for each request that does
--     more than to call a driver. `Server.Outside` is what it calls besides `Services`;
--     `Server.Service` is the loop and the start of `src/runtime/service.rs`, `Server.Steps` and
--     `Server.CacheSteps` what every request keeps of the storage and of the cache.
--   * Client: `src/client/client.rs`. `Client.Outside` is what it calls of other crates;
--     `Client.Session` puts the server behind the client's socket.
--   * Embedded: `src/embedded/mod.rs`, the server, the daemons of the RGB node and the client in
--     one process.
--   * Tests: runs at concrete inputs.
--
-- How the parts interact: the client sends a request and waits for the reply; the server's loop
-- hands it to `rpc_process`, which calls the storage, the cache, `transfer`, `chain_sync` or the RGB
-- node, and turns an error into a failure reply. `transfer` reads a contract from the storage and its
-- coins from the cache, marks a change address in the cache, and writes tweaks and a history record
-- to the storage; `chain_sync` reads a contract, asks the servers, and updates the cache. Storage
-- and cache write their file after each change.
--
-- Conventions. Code that changes state is a function from the state to a result and a new state
-- (`Exec`), also where it fails. A result is `ok`, `err`, or `panic` for `unimplemented!()` and for
-- an index out of range. Numbers of 64 bits wrap around, as they do in a release build; indexes,
-- heights and positions that the source casts are taken modulo the width. Ids, scripts, keys and
-- addresses are numbers. A `BTreeMap` is a sorted list; a `HashMap` or `HashSet` is a list, and
-- what is stated of it does not depend on its order. The loop of `chain_sync` runs on fuel, and
-- more fuel than there are indexes is enough when the lookup depth is positive. The loop of
-- `derive_scripts` has as many rounds as its range has indexes.
--
-- A raw message is a value of a type that the server and the client share: what is sent and what is
-- read is a matter of the serializers, which are parameters. The service loop is a function of the
-- messages to come, and of what becomes of each reply; a server that ends in a panic sends nothing,
-- which is a panic of the client that waits. A text is the list of its bytes.
--
-- Not modelled: what runs in the threads of the embedded node side by side; logging; `src/chainapi`, which has no implementation;
-- the methods of the storage for signers and identities, which are `unimplemented!()` and so a
-- panic of the server; derived encodings; and the hash of a commitment, a parameter.
pub mod Common
pub mod Foreign
pub mod Model
pub mod Persist
pub mod Storage
pub mod Cache
pub mod Runtime
pub mod Transfer
pub mod Sync
pub mod Rpc
pub mod Server
pub mod Client
pub mod Embedded
pub mod Tests

-- ===== src/Lib.antt =====
-- The NEAR indexer for Explorer follows a NEAR node block by block and writes what it sees to a
-- PostgreSQL database. `handle_message` (src/main.rs) hands each block to the adapters of
-- src/db_adapters, which turn the messages of the node into the rows of src/models and insert or
-- update them with the macro of src/retriable.rs. A second task, src/aggregated, computes the
-- circulating supply once a day.
--
-- Files and what they model, by their paths in the repository:
--
--   Base        lists, options, maps and machine words that the others share.
--   Chain       the messages of the node, as far as the code takes them apart. The node's types are
--               a dependency; hashes, keys and account ids are the texts that `to_string` gives.
--   Database    the statements that diesel sends, and tables by their documented effect on each row
--               (the interface `Table`). Concurrent is `try_join!` with retries: a run attempts
--               the next statements of its futures in any order, and an attempt whose reply is lost
--               is made again. Functional is an instance of the interface.
--   Process     the async blocks as processes over tables and cache: attempts that are left, answers
--               that are lost, early errors and `try_join!`, with the steps that they make.
--   Tables      the tables of src/schema.rs that a message is stored in, in one map: rows, unique
--               columns as texts, and references between rows.
--   Message     `handle_message` (src/main.rs) and the adapters that it calls, as processes. The
--               record `Environment` holds what dependencies and the database answer.
--   Stream      `listen_blocks` (src/main.rs): the stream, the buffer of handlers, and the results.
--   Blocks      src/models/blocks.rs, src/models/chunks.rs, the models of src/db_adapters/chunks.rs and
--               the queries of src/db_adapters/blocks.rs (Latest). Largest is an instance of what the
--               queries take from the database.
--   Retry       src/retriable.rs, the macro `await_retry_or_panic!`.
--   Accounts    src/db_adapters/accounts.rs and src/models/accounts.rs: `collect_accounts` is the
--               map of `handle_accounts`, `handle_accounts` the futures that it joins, and Settle
--               what they make of a row.
--   AccessKeys  src/db_adapters/access_keys.rs and src/models/access_keys.rs, likewise. Decoding an
--               implicit account's key (hex, near_crypto) is the parameter `implicit_public_key`.
--   Cache       the keys of `ReceiptsCache` (src/main.rs), and the cache as an interface: it may
--               forget, and gives back only what was set. Functional is an instance.
--   Receipts    src/db_adapters/receipts.rs and src/models/receipts.rs: Search is
--               `find_tx_hashes_for_receipts`, Rows is `store_chunk_receipts` with the rows of all
--               six tables. The answers of the database are the parameter `Queries`, by round.
--   Transactions  src/db_adapters/transactions.rs and src/models/transactions.rs.
--   Outcomes    src/db_adapters/execution_outcomes.rs and src/models/execution_outcomes.rs.
--   AccountChanges  src/db_adapters/account_changes.rs and src/models/account_changes.rs.
--   Serializers src/models/serializers.rs: the JSON of an action. Decoding the arguments of a call
--               (base64, serde_json) is the parameter `decode_args`.
--   Text        `escape_default`, `trim` and the printing of numbers, from Rust's standard library.
--   Assets      src/db_adapters/assets: event_types.rs and events.rs; Rows the loops that compose
--               the rows, Batches their portions. Parsing an event is the parameter `parse_event`.
--   Genesis     src/db_adapters/genesis.rs: the portions in which the genesis is stored.
--   Lockup      src/aggregated/circulating_supply/lockup_types.rs and the getters of lockup.rs.
--   Supply      `compute_circulating_supply_for_block` of src/aggregated/circulating_supply/mod.rs.
--               The view client's answers are the parameter `ViewClient`. Daily is the loop over the
--               days, with src/db_adapters/aggregated/circulating_supply.rs.
--   SyncMode    the sync mode of `construct_near_indexer_config` (src/main.rs).
--
-- How they interact: Transactions and Outcomes fill the cache that Receipts looks parents up in;
-- what a parent is, is a parameter of the results on these three. Message puts the adapters together
-- as `handle_message` does, and Stream runs its handlers next to each other on one set of tables.
-- Accounts and AccessKeys run on the tables of Database. Supply calls the getters of Lockup.
--
-- Numbers are unbounded, and where the code computes on u64, u128 or U256 the wrap-around or the
-- panic is written out (Base/Words). `as i32` of an index is taken modulo 2 ^ 32. A panic, and in
-- Supply an error as well, is `none`; a process that panics unwinds `listen_blocks`.
--
-- Fuel: `search` of Receipts/Search has fuel for its rounds. When it is not strict the code makes at
-- most five; in strict mode it goes on for as long as the database has no answer. The query by data
-- output, which is repeated on errors without a bound, runs on the list of what its attempts answer.
-- `chunks` has as much fuel as there are rows. `hex` and `digits` of Text have fuel for the digits
-- of a code point and of a u128.
--
-- `in_batches` and the attempts of Process have the ten attempts of the code.
--
-- Not modelled: command line, logging, connection, runtime and waiting; the SQL migrations; the
-- conversion of the arguments in src/configs.rs but for the sync mode; the queries of
-- src/aggregated/account_details.rs, which are answers of `ViewClient`; the query
-- `get_lockup_account_ids_at_block_height`, whose answer is a parameter of Supply.
pub mod AccessKeys
pub mod AccountChanges
pub mod Accounts
pub mod Assets
pub mod Base
pub mod Blocks
pub mod Cache
pub mod Chain
pub mod Database
pub mod Genesis
pub mod Lockup
pub mod Message
pub mod Outcomes
pub mod Process
pub mod Receipts
pub mod Retry
pub mod Serializers
pub mod Stream
pub mod Supply
pub mod SyncMode
pub mod Tables
pub mod Text
pub mod Transactions

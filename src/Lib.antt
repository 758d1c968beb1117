-- ===== src/Lib.antt =====
-- RXinDexer: models of the parts of the ElectrumX-based indexer of the Radiant chain that are pure
-- computation, and what makes them correct.
--
-- The indexer reads blocks from a daemon, parses their transactions (electrumx/lib/tx.py, over the
-- integer packing of electrumx/lib/util.py), walks over the output scripts to find token references
-- and the address that a token is locked to (electrumx/lib/script.py), and serves clients, with
-- merkle proofs of transactions and headers (electrumx/lib/merkle.py), under limits for each address
-- (electrumx/server/rate_limiter.py). The block processor (electrumx/server/block_processor.py) keeps the
-- set of unspent outputs in a cache above a database, hands the hashes of the addresses touched to the
-- history (electrumx/server/history.py), and reverts blocks with the undo information that it stores
-- with each (electrumx/server/db.py). Indexes beside the main one keep records of swap orders
-- (electrumx/server/swap_index.py), prediction markets (electrumx/server/predict_index.py) and realms
-- (electrumx/server/realm_index.py) in a key-value store, each with its own undo records for reorganisations.
--
-- The files:
-- - Prelude: shared names. Prelude/Tests: Boolean tests on numbers. Prelude/Lists: lists with the
--   native numbers. Prelude/Ints: integers. Prelude/Result: a value or an exception, by its class.
--   Prelude/Dict: a Python dict with string keys, as an association list.
-- - Util: electrumx/lib/util.py, `Struct` packing and unpacking, pack_varint, pack_varbytes. Slices
--   and integers: Util/Slices, Util/Ints.
-- - Tx: electrumx/lib/tx.py, the named tuples and their `serialize`. Tx/Deserializer: the class
--   Deserializer, each `_read_` method as a step on the binary and the cursor. Tx/Deserializer/Reads
--   and Tx/Deserializer/Parts: each reader undoes its writer. Tx/RoundTrip, Tx/Failures: whole
--   transactions.
-- - Script: electrumx/lib/script.py, the loops get_push_input_refs, zero_refs and _walk_ops, and
--   push_data. Script/Template: base_locking_script and get_stateseperator_index. Script/Grammar,
--   Script/Operand, Script/Decode and Script/Parse: an independent description of scripts as
--   sequences of items, which the loops are compared with in Script/Walks, Script/Spans and
--   Script/Base.
-- - Merkle: electrumx/lib/merkle.py, the class Merkle. Merkle/Log: the length of a branch.
--   Merkle/Layer: one level of the tree. Merkle/Proof: branches and roots.
-- - RateLimiter: electrumx/server/rate_limiter.py, IPState and IPRateLimiter. RateLimiter/Event: its
--   calls as events. RateLimiter/Kept: each event keeps a block. RateLimiter/Block: sequences.
-- - Tx/Hash: the hashes of transactions and read_tx_block of electrumx/lib/tx.py. Tx/Hash/Block: the
--   round trip of blocks.
-- - Undo: encode_undo and decode_undo of electrumx/lib/util.py. Undo/RoundTrip: their round trip.
-- - Base58: Base58.encode and encode_check of electrumx/lib/hash.py.
-- - Store: the key-value store of electrumx/server/storage.py, a map and batches of writes.
--   Store/Writes: what a batch leaves. Store/Cache: a dict with bytes as its keys.
--   Store/Keys: sets of them.
-- - UndoLog: `_record_undo`, `_prune_old_undo_keys`, `backup` and the end of `flush`, which the
--   indexes of electrumx/server have in common; the prefix is a parameter, and whether the records
--   are written by height. UndoLog/Recorded, UndoLog/Puts, UndoLog/ByHeight: what the records hold
--   and where they stand. UndoLog/Backup, UndoLog/Pruned: a flush and then `backup`.
--   UndoLog/Restored: what it leaves, by the keys that belong to a height.
-- - Chunks: `_parse_script_chunks` of electrumx/server/predict_index.py and swap_index.py.
--   Chunks/Pushes: scripts of pushes.
-- - Predict: the beacons and outputs of electrumx/server/predict_index.py. Predict/Record: the packed
--   market record. Predict/Index: PredictionMarketIndex; Predict/Index/Recorded, Queries, Reorg
--   and Restored: process_tx, get_market and the reorganisation.
-- - BlockProcessor: the caches of electrumx/server/block_processor.py, _output_indexable, spend_utxo and
--   delete_potential_refs. BlockProcessor/Advance: advance_txs and _advance_block; BlockProcessor/Backup:
--   _backup_txs and _backup_block. BlockProcessor/Indexable: which scripts are indexed.
--   BlockProcessor/View: the unspent outputs as a map, with its laws in BlockProcessor/View/Laws and
--   BlockProcessor/View/Spend. BlockProcessor/Connect: a block as removals and insertions on a map.
--   BlockProcessor/Refine: advance_txs against it; BlockProcessor/Reorg: _backup_txs undoes it.
--   BlockProcessor/ReorgRange: _calc_reorg_range.
-- - History: electrumx/server/history.py. History/Numbers: rows as lists of numbers. History/Unflushed,
--   History/Flushed and History/Reorg: adding, flushing and reverting. History/Compact: the compaction
--   of one hashX, with Compact/Ordered, Compact/Batch and Compact/Kept on the rows it leaves.
-- - Database: the undo information of blocks in electrumx/server/db.py.
-- - Realm: the payload fields of electrumx/server/realm_index.py. Realm/Index: RealmIndex;
--   Realm/Index/First, Reorg, Restored and Clash: registration, the reorganisation and the shared undo keys.
-- - Swap: the orders of electrumx/server/swap_index.py. Swap/Stored: their CBOR dict. Swap/Terms:
--   price terms and makers, with their layout in Swap/Terms/RoundTrip. Swap/Backing: the loop over a
--   record of references. Swap/Parse: advertisements. Swap/Index: SwapIndex; Swap/Index/Close: the
--   closing of orders that are spent. Swap/Index/OrderWrites and BookKeys: what a flush writes; Books,
--   Reorg, Restored and Lost: the books and the reorganisation.
-- - Examples: the theorems at concrete inputs.
--
-- The correspondence: a function or method keeps its name; an exception is a value of
-- Prelude.Result, `except Exception: raise ScriptError` maps every one but the end of the fuel. The
-- `while n < len(script)` loops have `length script` rounds, which is enough since every round moves
-- the offset on. `bytes` are lists of numbers.
-- Objects that the code mutates in place are passed along: the deserializer's cursor and the limiter's
-- dictionary. `_ensure` and the slices cut short at the end of a buffer are written out.
--
-- An index is a record of its caches. Its flush returns the batch of writes and the index after it, and
-- reads the database as it was before the batch, as the code does. A write of a flush and the call of
-- `_record_undo` before it, which the code always makes together, are one step (UndoLog.Staged). The flush of an index is modelled
-- by itself, without the other writers of the shared batch.
--
-- The block processor runs here without the optional overlays (`glyph_index` and `analytics_index` are
-- None). Its database is a record of the calls it makes, `get`, `iterator(prefix=...)` and `fs_tx_hash`;
-- the sets `touched` are lists. Between taking a block and reverting it any flush may have happened:
-- what the theorems ask of the later state is that it holds the same outputs. Loops over
-- `reversed(...)` are recursions that take the rest first.
--
-- The history database is modelled by the rows of each hashX in the order of their flush numbers, which
-- is the order of its keys. The search for the fork of a reorganisation has as many rounds as the
-- height, which is enough since every round lowers the start.
--
-- Not modelled: flushing the cache of outputs to the database and the prefetcher; the cursor of the
-- compaction and the upgrade of the history database; digests (hashlib), cbor2, the decoder of UTF-8
-- and the parser of IP addresses, which are parameters; the rounding errors of `log` in merkle.py; the
-- storage engines and their iterators, asyncio, the sessions and the REST routes, which are input and
-- output; and the indexes of glyphs, WAVE names, royalties and analytics. The floats of the rate limiter
-- are natural numbers of a small unit.
pub mod Prelude
pub mod Util
pub mod Undo
pub mod Tx
pub mod Script
pub mod Merkle
pub mod RateLimiter
pub mod Base58
pub mod BlockProcessor
pub mod Chunks
pub mod Database
pub mod History
pub mod Predict
pub mod Realm
pub mod Store
pub mod Swap
pub mod UndoLog
pub mod Examples

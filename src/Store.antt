-- ===== src/Store.antt =====
-- The key-value store that the indexes of electrumx/server keep their records in, as `utxo_db` of
-- electrumx/server/storage.py offers it: `get`, and a batch of puts and deletes that is written as a
-- whole. The engine behind it (RocksDB, LevelDB) is a map from keys to values.
pub mod Writes
pub mod Cache
pub mod Keys
use rxin_dexer.Prelude.{
  Bool, false, ◌||◌, Option, none, some, List, [], ◌∷◌, if◌then◌else◌, list_eq,
}
use rxin_dexer.Util.{Bytes}

-- `db.get`
abbrev pub Db : Type 0
Db = Bytes → Option Bytes

pub data Op : Type 0 where
  put : Bytes → Bytes → Op
  delete : Bytes → Op

abbrev pub key_of : Op → Bytes
key_of (put key value) = key
key_of (delete key) = key

abbrev pub value_of : Op → Option Bytes
value_of (put key value) = some value
value_of (delete key) = none

-- One key set to a value, or removed.
abbrev pub update : Bytes → Option Bytes → Db → Db
update key value db k = if list_eq key k then value else db k

-- `write_batch`: the operations of a batch, in their order.
unfoldable pub write : List Op → Db → Db
write [] db = db
write (op ∷ batch) db = write batch (update (key_of op) (value_of op) db)

-- `key in keys`
unfoldable pub has_key : Bytes → List Op → Bool
has_key k [] = false
has_key k (op ∷ batch) = list_eq (key_of op) k || has_key k batch

-- ===== src/Database.antt =====
-- electrumx/server/db.py: where the undo information of blocks is kept, that of the outputs and that of
-- the locations of references.
use rxin_dexer.Prelude.{ℕ, Option, List, [], ◌∷◌, ◌++◌}
use rxin_dexer.Prelude.Result.{Result, ok, ◌>>=◌}
use rxin_dexer.Util.{Bytes}
use rxin_dexer.Undo.{pack_be_uint}
use rxin_dexer.Store.{Db, Op, put}

-- `b''.join(parts)`
unfoldable pub join : List Bytes → Bytes
join [] = []
join (part ∷ parts) = part ++ join parts

-- "U"
unfoldable pub block_undo_key : ℕ → Result Bytes
block_undo_key height = do b ← pack_be_uint 4 height; ok (85 ∷ b)

unfoldable pub read_undo_info : Db → ℕ → Result (Option Bytes)
read_undo_info db height = do key ← block_undo_key height; ok (db key)

unfoldable pub flush_undo_infos : List (List Bytes × ℕ) → Result (List Op)
flush_undo_infos [] = ok []
flush_undo_infos ((undo_info, height) ∷ infos) = do
  key ← block_undo_key height
  rest ← flush_undo_infos infos
  ok (put key (join undo_info) ∷ rest)

-- "RU"
unfoldable pub ref_loc_undo_key : ℕ → Result Bytes
ref_loc_undo_key height = do b ← pack_be_uint 4 height; ok (82 ∷ 85 ∷ b)

unfoldable pub read_ref_loc_undo_info : Db → ℕ → Result (Option Bytes)
read_ref_loc_undo_info db height = do key ← ref_loc_undo_key height; ok (db key)

unfoldable pub flush_ref_loc_undo_infos : List (List Bytes × ℕ) → Result (List Op)
flush_ref_loc_undo_infos [] = ok []
flush_ref_loc_undo_infos ((undo_info, height) ∷ infos) = do
  key ← ref_loc_undo_key height
  rest ← flush_ref_loc_undo_infos infos
  ok (put key (join undo_info) ∷ rest)

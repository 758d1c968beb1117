-- ===== src/Tx/Hash/Block.antt =====
-- read_tx_block of electrumx/lib/tx.py reads back a block of serialized transactions with their hashes.
use rxin_dexer.Prelude.{
  ◌+◌, ◌≡◌, refl, List, ◌++◌, arith, length, All, Bool-cases, inl, inr, if◌then◌else◌,
}
use rxin_dexer.Prelude.Result
use rxin_dexer.Prelude.Result.{Result, ok, err}
use rxin_dexer.Util.{Bytes, slice, pack_varint}
use rxin_dexer.Util.Slices.{slice-known}
use rxin_dexer.Tx.{Tx, ◌<>◌, join_all, serialize}
use rxin_dexer.Tx.Deserializer.{Deserializer, ◌>>=◌, eval, pure, advance}
use rxin_dexer.Tx.Deserializer.Reads.{At}
use rxin_dexer.Tx.RoundTrip.{HasHash, Undoes, tx-Undoes, counted-Undoes}
use rxin_dexer.Tx.Hash.{
  is_version_3, get_transaction_hash_preimage_v3, read_hash, read_tx_and_hash, read_tx_block,
}

module _ (double_sha256 : Bytes → Bytes) where
  -- The hash that a transaction has: of the preimage at version 3, else of its serialization.
  unfoldable pub tx_hash : Tx → Result Bytes
  tx_hash tx =
      if is_version_3 tx.version
      then get_transaction_hash_preimage_v3 double_sha256 tx
      else Result.◌>>=◌ (serialize tx) (λ bytes. ok (double_sha256 bytes))

  -- A transaction with the hash that it has, whose previous hashes have 32 bytes.
  abbrev pub IsHashed : Tx × Bytes → Type 0
  IsHashed (tx, h) = All HasHash tx.inputs × (tx_hash tx ≡ ok h)

  -- The step after the transaction was read, where its bytes begin at `start`.
  read_hash-lem :
      (tx : Tx) (h bs rest : Bytes) (d : Deserializer)
      → tx_hash tx ≡ ok h
      → serialize tx ≡ ok bs
      → At d (bs ++ rest)
      → read_hash double_sha256 d.cursor tx (advance (length bs) d)
        ≡ ok ((tx, h), advance (length bs) d)
  unfolding tx_hash read_hash eval pure ◌>>=◌
  read_hash-lem tx h bs rest d p q here =
      let cut : slice d.binary d.cursor (d.cursor + length bs) ≡ bs =
        slice-known d.binary bs rest d.cursor here.left in
      elim (Bool-cases (is_version_3 tx.version)) [
        | inl e ↦ let r = (rw e at p) in rw (e, r) refl
        | inr e ↦
            let r = (rw (e, q) at p) in
            let same : double_sha256 bs ≡ h = cc r in rw (e, cut, same) refl
      ]

  hashed-Undoes :
      (p : Tx × Bytes) → IsHashed p → Undoes (serialize p.0) (read_tx_and_hash double_sha256) p
  unfolding read_tx_and_hash eval ◌>>=◌
  hashed-Undoes (tx, h) (sizes, p) = record {
    reads = λ bs q. record {
      run = λ d rest here.
          rw (((tx-Undoes tx sizes).reads bs q).run d rest here)
            (read_hash-lem tx h bs rest d p q here);
    };
  }

  -- Whatever the hash function: from the bytes of a block, a count and that many serialized
  -- transactions whose previous hashes have 32 bytes, `read_tx_block` reads back the transactions,
  -- each with its hash (that of its version 3 preimage, or of exactly its own bytes in the block),
  -- and stops behind them, whatever bytes follow.
  pub read_tx_block-serialize :
      (pairs : List (Tx × Bytes)) (bs rest : Bytes)
      → All IsHashed pairs
      → (pack_varint (length pairs) <> join_all (λ p. serialize p.0) pairs) ≡ ok bs
      → read_tx_block double_sha256 (record { binary = bs ++ rest; cursor = 0 })
        ≡ ok (pairs, record { binary = bs ++ rest; cursor = length bs })
  unfolding read_tx_block
  read_tx_block-serialize pairs bs rest each p =
      let e : 0 + length bs ≡ length bs = omega arith in
      let all : Undoes _ _ pairs =
        counted-Undoes IsHashed (λ p. serialize p.0) (read_tx_and_hash double_sha256) hashed-Undoes
          pairs each in
      rw e at (
        (all.reads bs p).run (record { binary = bs ++ rest; cursor = 0 }) rest
          (record { left = refl; within = omega arith }))

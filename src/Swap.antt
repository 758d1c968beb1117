-- ===== src/Swap.antt =====
-- electrumx/server/swap_index.py: swap orders. A text is the bytes of its characters.
pub mod OrderStatus
pub mod OrderSide
pub mod Stored
pub mod Terms
pub mod Backing
pub mod Parse
pub mod Index
use mathlib.Core.List.{reverse}
use rxin_dexer.Prelude.{
  ℕ, zero, suc, ◌+◌, Bool, true, false, not, ◌&&◌, ◌||◌, Option, none, some, List, [], ◌∷◌, ltb,
  leb, ◌==◌, if◌then◌else◌, length, take, drop, list_eq, replicate, All,
}
use rxin_dexer.Util.{Bytes, slice}
use rxin_dexer.Swap.OrderSide

abbrev pub max_uint64 : ℕ
max_uint64 = 18446744073709551615

pub record SwapOrderInfo : Type 0 where
  pub order_id : Bytes
  pub tx_hash : Bytes
  pub vout : ℕ
  pub height : ℕ
  pub timestamp : ℕ
  pub maker_scripthash : Bytes
  pub maker_address : Option Bytes
  pub base_ref : Bytes
  pub quote_ref : Bytes
  pub base_ticker : Option Bytes
  pub quote_ticker : Option Bytes
  pub side : ℕ
  pub price : ℕ
  pub amount : ℕ
  pub filled_amount : ℕ
  pub remaining_amount : ℕ
  pub min_fill : ℕ
  pub fee_rate : ℕ
  pub status : ℕ
  pub expiry_height : ℕ
  pub cancel_height : ℕ
  pub cancel_txid : Option Bytes
  pub fill_count : ℕ
  pub last_fill_height : ℕ
  pub avg_fill_price : ℕ

abbrev fits : ℕ → Bool
fits n = leb n max_uint64

-- All values are integers and not negative in the model.
unfoldable pub order_amounts_in_range : SwapOrderInfo → Bool
order_amounts_in_range o =
    fits o.price
    && (fits o.amount
        && (fits o.remaining_amount
            && (fits o.filled_amount && (fits o.min_fill && leb o.side 255))))

-- The reference that the order offers.
abbrev pub offered_ref : SwapOrderInfo → Bytes
offered_ref o = if o.side == OrderSide.buy then o.quote_ref else o.base_ref

unfoldable pub advertised_token_hash : SwapOrderInfo → Option Bytes
advertised_token_hash o =
    if ltb (length (offered_ref o)) 32
    then none
    else if list_eq (reverse (take 32 (offered_ref o))) (replicate 32 0)
    then none
    else some (reverse (take 32 (offered_ref o)))

module _ (sha256 : Bytes → Bytes) where
  -- The loop over the entries of 37 bytes; every round moves on, so `length ri_record` are enough.
  unfoldable pub carries_loop : ℕ → Bytes → Bytes → ℕ → Bool
  carries_loop zero ri_record token_hash off = false
  carries_loop (suc fuel) ri_record token_hash off =
      let rest = carries_loop fuel ri_record token_hash (off + 37) in
      if leb (off + 37) (length ri_record)
      then list_eq (sha256 (slice ri_record off (off + 36))) token_hash || rest
      else false

  unfoldable pub backing_utxo_carries_token : Bytes → Bytes → Bool
  backing_utxo_carries_token ri_record token_hash =
      carries_loop (length ri_record) ri_record token_hash 0

  -- The record of the backing outpoint, and the token that it has to carry.
  unfoldable pub offers_hash : Option Bytes → Bytes → Bool
  offers_hash none token_hash = true
  offers_hash (some []) token_hash = true
  offers_hash (some (b ∷ ri_record)) token_hash =
      backing_utxo_carries_token (b ∷ ri_record) token_hash

  unfoldable pub backing_utxo_offers_token : (Bytes → Option Bytes) → SwapOrderInfo → Bool
  backing_utxo_offers_token db o = elim (advertised_token_hash o) [
    | none ↦ true
    | some token_hash ↦ offers_hash (db (114 ∷ 105 ∷ o.order_id)) token_hash
  ]

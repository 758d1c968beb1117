-- ===== src/Swap/Stored/RoundTrip.antt =====
-- A stored swap order of electrumx/server/swap_index.py is read back: to_bytes leaves the defaults out,
-- and from_bytes puts them in again.
use Prim.Native.String.{String}
use text.Mathlib.Text.{◌==◌}
use text.Mathlib.TextEquality.{eq_iff}
use rxin_dexer.Prelude.{
  ℕ, zero, suc, ◌≡◌, ◌≢◌, refl, ◌∙◌, ap, true, false, Option, none, some, [], ◌∷◌, if◌then◌else◌,
  Bool-cases, inl, inr, arith,
}
use rxin_dexer.Prelude.Dict.{Dict, lookup, insert, remove_if, lookup-insert}
use rxin_dexer.Prelude.Result.{Result, ok}
use rxin_dexer.Util.{Bytes}
use rxin_dexer.Swap.{SwapOrderInfo}
use rxin_dexer.Swap.Stored.{
  Value, int, bytes, str, nothing, of_text, of_bytes, is_default, all_fields, fields_of, get_int,
  get_bytes, get_text, get_optional_bytes, order_of, to_bytes, from_bytes,
}

-- No key occurs twice.
abbrev AreDistinct : Dict Value → Type 0
AreDistinct [] = Unit
AreDistinct ((key, value) ∷ rest) = (lookup key rest ≡ none) × AreDistinct rest

-- What is left of an entry.
abbrev kept : Option Value → Option Value
kept none = none
kept (some v) = if is_default v then none else some v

kept_default : (v : Value) → is_default v ≡ true → none ≡ kept (some v)
kept_default v e = rw e refl

lookup-remove_if :
    (key : String) (d : Dict Value)
    → AreDistinct d
    → lookup key (remove_if is_default d) ≡ kept (lookup key d)
unfolding lookup remove_if
lookup-remove_if key [] d = refl
lookup-remove_if key ((first, v) ∷ rest) (fresh, d) = elim (Bool-cases (key == first)) [
  | inr other ↦ elim (Bool-cases (is_default v)) [
    | inl e ↦ rw (e, other) (lookup-remove_if key rest d)
    | inr e ↦ rw (e, other) (lookup-remove_if key rest d)
  ]
  | inl same ↦ elim (Bool-cases (is_default v)) [
    | inl e ↦
        let k : key ≡ first = (eq_iff key first).0 same in
        let gone : lookup key (remove_if is_default rest) ≡ none =
          lookup-remove_if key rest d ∙ ap kept (ap (λ (x : String). lookup x rest) k ∙ fresh) in
        rw (e, same) (gone ∙ kept_default v e)
    | inr e ↦ rw (e, same) (rw e refl)
  ]
]

module _ (o : SwapOrderInfo) where
  all_fields-AreDistinct : AreDistinct (all_fields o)
  unfolding lookup
  all_fields-AreDistinct = (
    refl,
    (
      refl,
      (
        refl,
        (
          refl,
          (
            refl,
            (
              refl,
              (
                refl,
                (
                  refl,
                  (
                    refl,
                    (
                      refl,
                      (
                        refl,
                        (
                          refl,
                          (
                            refl,
                            (
                              refl,
                              (
                                refl,
                                (
                                  refl,
                                  (
                                    refl,
                                    (
                                      refl,
                                      (refl, (refl, (refl, (refl, (refl, (refl, (refl, tt))))))),
                                    ),
                                  ),
                                ),
                              ),
                            ),
                          ),
                        ),
                      ),
                    ),
                  ),
                ),
              ),
            ),
          ),
        ),
      ),
    ),
  )

  -- A field other than the side and the status.
  field_of :
      (key : String) (v : Value)
      → ("st" == key) ≡ false
      → ("sd" == key) ≡ false
      → lookup key (all_fields o) ≡ some v
      → lookup key (fields_of o) ≡ kept (some v)
  unfolding fields_of
  field_of key v st sd there =
      let small : Dict Value = remove_if is_default (all_fields o) in
      lookup-insert "st" key (int o.status) (insert "sd" (int o.side) small)
      ∙ rw st (
          lookup-insert "sd" key (int o.side) small
          ∙ rw sd (lookup-remove_if key (all_fields o) all_fields-AreDistinct ∙ ap kept there))

  int_back :
      (key : String) (n : ℕ)
      → ("st" == key) ≡ false
      → ("sd" == key) ≡ false
      → lookup key (all_fields o) ≡ some (int n)
      → get_int key 0 (fields_of o) ≡ ok n
  unfolding get_int
  int_back key zero st sd there = rw (field_of key (int zero) st sd there) refl
  int_back key (suc n) st sd there =
      let stays : is_default (int (suc n)) ≡ false = ground arith in
      rw (field_of key (int (suc n)) st sd there) (rw stays refl)

  bytes_back :
      (key : String) (b : Bytes)
      → ("st" == key) ≡ false
      → ("sd" == key) ≡ false
      → lookup key (all_fields o) ≡ some (bytes b)
      → get_bytes key (fields_of o) ≡ ok b
  unfolding get_bytes
  bytes_back key [] st sd there = rw (field_of key (bytes []) st sd there) refl
  bytes_back key (x ∷ b) st sd there = rw (field_of key (bytes (x ∷ b)) st sd there) refl

  text_back :
      (key : String) (t : Option Bytes)
      → ("st" == key) ≡ false
      → ("sd" == key) ≡ false
      → lookup key (all_fields o) ≡ some (of_text t)
      → get_text key (fields_of o) ≡ ok t
  unfolding get_text
  text_back key none st sd there = rw (field_of key nothing st sd there) refl
  text_back key (some t) st sd there = rw (field_of key (str t) st sd there) refl

  optional_back :
      (key : String) (t : Option Bytes)
      → ("st" == key) ≡ false
      → ("sd" == key) ≡ false
      → lookup key (all_fields o) ≡ some (of_bytes t)
      → t ≢ some []
      → get_optional_bytes key (fields_of o) ≡ ok t
  unfolding get_optional_bytes
  optional_back key none st sd there ne = rw (field_of key nothing st sd there) refl
  optional_back key (some []) st sd there ne = absurd (ne refl)
  optional_back key (some (b ∷ t)) st sd there ne =
      rw (field_of key (bytes (b ∷ t)) st sd there) refl

  side_back : get_int "sd" 1 (fields_of o) ≡ ok o.side
  unfolding get_int fields_of
  side_back =
      let small : Dict Value = remove_if is_default (all_fields o) in
      rw
        (
          lookup-insert "st" "sd" (int o.status) (insert "sd" (int o.side) small),
          lookup-insert "sd" "sd" (int o.side) small,
        )
        refl

  status_back : get_int "st" 0 (fields_of o) ≡ ok o.status
  unfolding get_int fields_of
  status_back =
      let small : Dict Value = remove_if is_default (all_fields o) in
      rw (lookup-insert "st" "st" (int o.status) (insert "sd" (int o.side) small)) refl

  -- What order_of reads from the fields.
  order_of-fields_of : o.cancel_txid ≢ some [] → order_of (fields_of o) ≡ ok o
  unfolding order_of lookup
  order_of-fields_of txid =
      rw
        (
          bytes_back "oid" o.order_id refl refl refl,
          bytes_back "txh" o.tx_hash refl refl refl,
          int_back "v" o.vout refl refl refl,
          int_back "h" o.height refl refl refl,
          int_back "ts" o.timestamp refl refl refl,
          bytes_back "ms" o.maker_scripthash refl refl refl,
          text_back "ma" o.maker_address refl refl refl,
          bytes_back "br" o.base_ref refl refl refl,
          bytes_back "qr" o.quote_ref refl refl refl,
          text_back "bt" o.base_ticker refl refl refl,
          text_back "qt" o.quote_ticker refl refl refl,
          side_back,
          int_back "pr" o.price refl refl refl,
          int_back "am" o.amount refl refl refl,
          int_back "fa" o.filled_amount refl refl refl,
          int_back "ra" o.remaining_amount refl refl refl,
          int_back "mf" o.min_fill refl refl refl,
          int_back "fr" o.fee_rate refl refl refl,
          status_back,
          int_back "eh" o.expiry_height refl refl refl,
          int_back "ch" o.cancel_height refl refl refl,
          optional_back "ct" o.cancel_txid refl refl refl txid,
          int_back "fc" o.fill_count refl refl refl,
          int_back "lfh" o.last_fill_height refl refl refl,
          int_back "afp" o.avg_fill_price refl refl refl,
        )
        refl

-- An order that to_bytes stores is read back by from_bytes as it was, if its cancel_txid is not the
-- empty byte string (it is None or a transaction hash), and if loads undoes dumps on its fields.
pub from_bytes-to_bytes_order :
    (dumps : Dict Value → Bytes) (loads : Bytes → Result (Dict Value)) (o : SwapOrderInfo)
    → loads (dumps (fields_of o)) ≡ ok (fields_of o)
    → o.cancel_txid ≢ some []
    → from_bytes dumps loads (to_bytes dumps loads o) ≡ ok o
unfolding from_bytes to_bytes
from_bytes-to_bytes_order dumps loads o cbor txid = rw cbor (order_of-fields_of o txid)

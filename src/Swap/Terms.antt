-- ===== src/Swap/Terms.antt =====
-- electrumx/server/swap_index.py: the price terms of an order, and its maker. SHA-256 is a parameter.
pub mod RoundTrip
use mathlib.Core.List.{reverse}
use rxin_dexer.Prelude.{
  ℕ, zero, suc, ◌+◌, Bool, true, false, not, ◌&&◌, ◌||◌, Option, none, some, List, [], ◌∷◌, ◌++◌,
  ltb, leb, ◌==◌, if◌then◌else◌, length, get_elem?, take, drop, list_eq, replicate, ◌-◌,
}
use rxin_dexer.Prelude.Result.{
  Result, ok, err, value_error, index_error, ◌>>=◌, ◌>>◌, guard, from_option,
}
use rxin_dexer.Util.{Bytes, slice, of_le, unpack_le_uint_from}
use rxin_dexer.Script.Template.{base_locking_script}
use rxin_dexer.Base58.{encode_check}

-- `read_compact`: the number, and the offset behind it.
unfoldable pub read_compact : Bytes → ℕ → Result (ℕ × ℕ)
read_compact b o = do
  n ← from_option (get_elem? b o) index_error
  if ltb n 253
      then ok (n, o + 1)
      else if n == 253
      then (do v ← unpack_le_uint_from 2 b (o + 1); ok (v, o + 3))
      else if n == 254
      then (do v ← unpack_le_uint_from 4 b (o + 1); ok (v, o + 5))
      else do v ← unpack_le_uint_from 8 b (o + 1); ok (v, o + 9)

-- The loop over the outputs: value and script of each, and the offset behind them.
unfoldable pub txouts_loop : ℕ → Bytes → ℕ → Result (List (ℕ × Bytes) × ℕ)
txouts_loop zero blob o = ok ([], o)
txouts_loop (suc count) blob o =
    guard (leb (o + 8) (length blob)) value_error
    >> (unpack_le_uint_from 8 blob o >>= λ value. read_compact blob (o + 8) >>= λ s.
        guard (leb (s.1 + s.0) (length blob)) value_error
        >> (txouts_loop count blob (s.1 + s.0) >>= λ rest.
            ok ((value, slice blob s.1 (s.1 + s.0)) ∷ rest.0, rest.1)))

abbrev pub has_none : {A : Type 0} → List A → Bool
has_none [] = true
has_none (x ∷ xs) = false

-- The body of the `try`.
unfoldable pub counted_txouts : Bytes → Result (List (ℕ × Bytes))
counted_txouts blob = do
  c ← read_compact blob 0
  out ← guard (not (leb c.0 0 || ltb 1000 c.0)) value_error >> txouts_loop c.0 blob c.1
  guard (out.1 == length blob && not (has_none out.0)) value_error >> ok out.0

-- The single output of the old layout.
unfoldable pub legacy_txout : Bytes → Option (List (ℕ × Bytes))
legacy_txout blob =
    if leb 9 (length blob) then some ((of_le (slice blob 0 8), drop 8 blob) ∷ []) else none

-- `except Exception`
abbrev pub or_legacy : Bytes → Result (List (ℕ × Bytes)) → Option (List (ℕ × Bytes))
or_legacy blob (ok outputs) = some outputs
or_legacy blob (err exception) = legacy_txout blob

unfoldable pub parse_multi_txout : Bytes → Option (List (ℕ × Bytes))
parse_multi_txout [] = none
parse_multi_txout (b ∷ blob) = or_legacy (b ∷ blob) (counted_txouts (b ∷ blob))

-- The version bytes of a coin's addresses.
pub record Coin : Type 0 where
  pub p2pkh_verbyte : Bytes
  pub p2sh_verbytes : List Bytes

abbrev is_p2pkh : Bytes → Bool
is_p2pkh base =
    length base == 25
    && (list_eq (take 3 base) (118 ∷ 169 ∷ 20 ∷ []) && list_eq (drop 23 base) (136 ∷ 172 ∷ []))

abbrev is_p2sh : Bytes → Bool
is_p2sh base =
    length base == 23
    && (list_eq (take 2 base) (169 ∷ 20 ∷ []) && list_eq (drop 22 base) (135 ∷ []))

module _ (sha256 : Bytes → Bytes) where
  -- The address with a version; without one the exception leaves no address.
  unfoldable pub address : List Bytes → Bytes → Option Bytes
  address [] hash = none
  address (version ∷ more) hash = some (encode_check (λ b. sha256 (sha256 b)) (version ++ hash))

  abbrev p2pkh_versions : Option Coin → List Bytes
  p2pkh_versions none = []
  p2pkh_versions (some coin) = coin.p2pkh_verbyte ∷ []

  abbrev p2sh_versions : Option Coin → List Bytes
  p2sh_versions none = []
  p2sh_versions (some coin) = coin.p2sh_verbytes

  unfoldable pub maker_of : Option Coin → Bytes → Bytes × Option Bytes
  maker_of coin base =
      if is_p2pkh base
      then (reverse (sha256 base), address (p2pkh_versions coin) (slice base 3 23))
      else if is_p2sh base
      then (reverse (sha256 base), address (p2sh_versions coin) (slice base 2 22))
      else ([], none)

  unfoldable pub maker_from_script : Option Coin → Bytes → Bytes × Option Bytes
  maker_from_script coin script = elim (base_locking_script script) [
    | ok base ↦ maker_of coin base
    | err exception ↦ ([], none)
  ]

-- `_parse_script_int`
unfoldable pub parse_script_int : Bytes → Option ℕ
parse_script_int [] = some 0
parse_script_int (b ∷ []) = some b
parse_script_int (b ∷ c ∷ []) = some (of_le (b ∷ c ∷ []))
parse_script_int d =
    if leb (length d) 4 then some (of_le (d ++ replicate (4 - length d) 0)) else none

-- ===== src/Predict.antt =====
-- electrumx/server/predict_index.py: the beacons and outputs of prediction markets, and the packed
-- market record. A question is the bytes of its UTF-8 text: `is_utf8` is the strict decoder's answer,
-- and `utf8_replace` what the replacing decoder makes of bytes.
pub mod Record
pub mod Index
use rxin_dexer.Prelude.{
  ℕ, zero, suc, ◌+◌, ◌-◌, Bool, true, false, not, ◌&&◌, ◌||◌, Option, none, some, List, [], ◌∷◌,
  ◌++◌, ltb, leb, ◌==◌, if◌then◌else◌, length, get_elem?, drop, take, list_eq, replicate,
}
use rxin_dexer.Util.{Bytes, slice, of_le}
use rxin_dexer.Chunks.{parse_script_chunks}

-- "RMKT"
abbrev pub rmkt_magic : Bytes
rmkt_magic = 82 ∷ 77 ∷ 75 ∷ 84 ∷ []

abbrev pub question_max_bytes : ℕ
question_max_bytes = 1024

-- The dictionary that parse_market_beacon returns.
pub record Beacon : Type 0 where
  pub market_ref : Bytes
  pub yes_ref : Bytes
  pub no_ref : Bytes
  pub b_expiry : ℕ
  pub b_grace : ℕ
  pub b_oracle : Bytes
  pub question : Bytes

-- The tests of parse_market_beacon on the chunks, in order.
unfoldable pub beacon_fields :
    (Bytes → Bool) → Bytes → Bytes → Bytes → Bytes → Bytes → Bytes → Bytes → Bytes → Option Beacon
beacon_fields is_utf8 version market_ref yes_ref no_ref expiry grace oracle question =
    if not (list_eq version (1 ∷ []))
    then none
    else if not (length market_ref == 36 && (length yes_ref == 36 && length no_ref == 36))
    then none
    else if not (length expiry == 4 && (length grace == 4 && length oracle == 33))
    then none
    else if ltb question_max_bytes (length question)
    then none
    else if not (is_utf8 question) || length question == 0
    then none
    else some (record {
      market_ref = market_ref;
      yes_ref = yes_ref;
      no_ref = no_ref;
      b_expiry = of_le expiry;
      b_grace = of_le grace;
      b_oracle = oracle;
      question = question;
    })

-- `len(c) < 10 or c[1] != RMKT_MAGIC`, and then the fields.
unfoldable pub beacon_of_chunks : (Bytes → Bool) → List Bytes → Option Beacon
beacon_of_chunks is_utf8 (c0 ∷ c1 ∷ c2 ∷ c3 ∷ c4 ∷ c5 ∷ c6 ∷ c7 ∷ c8 ∷ c9 ∷ more) =
    if list_eq c1 rmkt_magic then beacon_fields is_utf8 c2 c3 c4 c5 c6 c7 c8 c9 else none
beacon_of_chunks is_utf8 _ = none

-- A script that is not empty and begins with OP_RETURN.
abbrev pub is_op_return : Bytes → Bool
is_op_return [] = false
is_op_return (op ∷ rest) = op == 106

unfoldable pub parse_market_beacon : (Bytes → Bool) → Bytes → Option Beacon
parse_market_beacon is_utf8 script =
    if is_op_return script then beacon_of_chunks is_utf8 (parse_script_chunks script) else none

-- The state of `o` bytes of header and `length` bytes, and the code behind the separator.
unfoldable pub split_state : Bytes → ℕ → ℕ → Option ℕ → Option (Bytes × Bytes)
split_state script len o none = none
split_state script len o (some op) =
    if op == 189 then some (slice script o (o + len), drop (o + len + 1) script) else none

-- `<push state> OP_STATESEPARATOR <code>`
unfoldable pub parse_stateful : Bytes → Option (Bytes × Bytes)
parse_stateful [] = none
parse_stateful (op ∷ []) = none
parse_stateful (op ∷ b ∷ rest) =
    let script = op ∷ b ∷ rest in
    let direct = split_state script op 1 (get_elem? script (1 + op)) in
    let pushdata1 = split_state script b 2 (get_elem? script (2 + b)) in
    let wide = of_le (slice script 1 3) in
    let pushdata2 = split_state script wide 3 (get_elem? script (3 + wide)) in
    if leb 1 op && leb op 75
    then direct
    else if op == 76
    then pushdata1
    else if op == 77
    then (if ltb (length script) 3 then none else pushdata2)
    else none

pub record SingletonState : Type 0 where
  pub status : ℕ
  pub expiry : ℕ
  pub grace : ℕ
  pub oracle : Bytes
  pub optimistic : Bool
  pub code : Bytes

-- The fields of a state of 42 or 102 bytes.
unfoldable pub state_fields : Bytes → Bytes → Option SingletonState
state_fields [] code = none
state_fields (status ∷ state) code =
    if length (status ∷ state) == 42 || length (status ∷ state) == 102
    then some (record {
      status = status;
      expiry = of_le (slice (status ∷ state) 1 5);
      grace = of_le (slice (status ∷ state) 5 9);
      oracle = slice (status ∷ state) 9 42;
      optimistic = length (status ∷ state) == 102;
      code = code;
    })
    else none

unfoldable pub state_of_parts : Option (Bytes × Bytes) → Option SingletonState
state_of_parts none = none
state_of_parts (some (state, code)) = state_fields state code

unfoldable pub parse_singleton_state : Bytes → Option SingletonState
parse_singleton_state script = state_of_parts (parse_stateful script)

abbrev pub starts_with : Bytes → Bytes → Bool
starts_with [] s = true
starts_with (x ∷ xs) [] = false
starts_with (x ∷ xs) (y ∷ ys) = x == y && starts_with xs ys

-- `part in s`
unfoldable pub is_part : Bytes → Bytes → Bool
is_part part [] = starts_with part []
is_part part (y ∷ ys) = starts_with part (y ∷ ys) || is_part part ys

-- `MARKER`
abbrev pub marker : Bytes
marker = replicate 20 0

unfoldable pub is_anchor : Option (Bytes × Bytes) → Bytes → Bytes → Bool
is_anchor none share_ref market_ref = false
is_anchor (some (state, code)) share_ref market_ref =
    list_eq state marker && (is_part share_ref code && is_part market_ref code)

unfoldable pub is_anchor_for : Bytes → Bytes → Bytes → Bool
is_anchor_for script share_ref market_ref = is_anchor (parse_stateful script) share_ref market_ref

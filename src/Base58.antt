-- ===== src/Base58.antt =====
-- electrumx/lib/hash.py: Base58 and Base58Check. A text is the codes of its characters; the hash
-- function of the check sum is a parameter.
use mathlib.Core.List.{reverse}
use rxin_dexer.Prelude.{
  ℕ, zero, suc, ◌/◌, ◌%◌, none, some, [], ◌∷◌, ◌++◌, ◌==◌, if◌then◌else◌, get_elem?, take,
  replicate,
}
use rxin_dexer.Util.{Bytes, of_le}

abbrev pub chars : Bytes
chars =
    49 ∷ 50 ∷ 51 ∷ 52 ∷ 53 ∷ 54 ∷ 55 ∷ 56 ∷ 57 ∷ 65 ∷ 66 ∷ 67 ∷ 68 ∷ 69 ∷ 70 ∷ 71 ∷ 72 ∷ 74 ∷ 75
    ∷ 76 ∷ 77 ∷ 78 ∷ 80 ∷ 81 ∷ 82 ∷ 83 ∷ 84 ∷ 85 ∷ 86 ∷ 87 ∷ 88 ∷ 89 ∷ 90 ∷ 97 ∷ 98 ∷ 99 ∷ 100 ∷ 101
    ∷ 102 ∷ 103 ∷ 104 ∷ 105 ∷ 106 ∷ 107 ∷ 109 ∷ 110 ∷ 111 ∷ 112 ∷ 113 ∷ 114 ∷ 115 ∷ 116 ∷ 117 ∷ 118
    ∷ 119 ∷ 120 ∷ 121 ∷ 122 ∷ []

-- The character of a digit below 58.
unfoldable pub char_of : ℕ → ℕ
char_of digit = elim (get_elem? chars digit) [ some c ↦ c | none ↦ 0 ]

-- `while value`: the digits, the lowest first. A division makes the value smaller, so that as many
-- rounds as the value are enough.
unfoldable pub digits : ℕ → ℕ → Bytes
digits zero value = []
digits (suc fuel) value =
    let rest = digits fuel (value / 58) in if value == 0 then [] else char_of (value % 58) ∷ rest

-- How often a byte stands at the beginning.
unfoldable pub leading : ℕ → Bytes → ℕ
leading b [] = 0
leading b (x ∷ xs) = let rest = leading b xs in if x == b then suc rest else 0

unfoldable pub encode : Bytes → Bytes
encode be_bytes =
    let value = of_le (reverse be_bytes) in
    reverse (digits value value ++ replicate (leading 0 be_bytes) 49)

unfoldable pub encode_check : (Bytes → Bytes) → Bytes → Bytes
encode_check hash_fn payload = encode (payload ++ take 4 (hash_fn payload))

-- ===== src/Merkle.antt =====
-- electrumx/lib/merkle.py: the class Merkle. `hash_func` is the parameter that its constructor
-- takes. Python's `ceil(log(n, 2))` is taken without rounding errors, as it is below 2 ** 29.
pub mod Log
pub mod Layer
pub mod Proof
use rxin_dexer.Prelude.{
  ℕ, zero, suc, ◌+◌, ◌-◌, ◌*◌, ◌/◌, ◌%◌, ◌^◌, Bool, true, false, ◌&&◌, Option, none, some, List, [],
  ◌∷◌, ◌++◌, ltb, leb, ◌==◌, if◌then◌else◌, length, get_elem?, take, drop, list_eq,
}
use rxin_dexer.Prelude.Result.{
  Result, ok, err, index_error, value_error, out_of_fuel, ◌>>=◌, ◌>>◌, guard, from_option,
}
use rxin_dexer.Util.{Bytes}

-- `ceil(log(n, 2))`: the number of times that n - 1 can be halved.
ceil_log_loop : ℕ → ℕ → ℕ
ceil_log_loop zero n = 0
ceil_log_loop (suc fuel) n =
    let more = ceil_log_loop fuel ((n + 1) / 2) in if leb n 1 then 0 else more + 1

unfoldable pub ceil_log : ℕ → ℕ
unfolding ceil_log_loop
ceil_log n = ceil_log_loop n n

unfoldable pub branch_length : ℕ → Result ℕ
branch_length n = do guard (leb 1 n) value_error; ok (ceil_log n)

unfoldable pub tree_depth : ℕ → Result ℕ
tree_depth n = do k ← branch_length n; ok (k + 1)

-- `index ^ 1`
unfoldable pub xor_one : ℕ → ℕ
xor_one i = if i % 2 == 0 then i + 1 else i - 1

-- `hashes.append(hashes[-1])`, of a list that is not empty.
unfoldable pub append_last : List Bytes → List Bytes
append_last [] = []
append_last (h ∷ []) = h ∷ h ∷ []
append_last (h ∷ g ∷ hs) = h ∷ append_last (g ∷ hs)

unfoldable pub is_odd : List Bytes → Bool
is_odd hs = length hs % 2 == 1

unfoldable pub padded : List Bytes → List Bytes
padded hs = if is_odd hs then append_last hs else hs

-- The entry that the TSC format has in place of a duplicated hash, b"*".
abbrev pub asterisk : Bytes
asterisk = 42 ∷ []

-- The element of the branch at one level, where the padded list is `hs'`.
unfoldable pub branch_element : Bool → List Bytes → List Bytes → ℕ → Result Bytes
branch_element tsc hs hs' i =
    if is_odd hs && (tsc && xor_one i == length hs' - 1)
    then ok asterisk
    else from_option (get_elem? hs' (xor_one i)) index_error

module _ (hash_func : Bytes → Bytes) where
  -- `[hash_func(hashes[n] + hashes[n + 1]) for n in range(0, len(hashes), 2)]`, which the code
  -- evaluates on lists of even length only.
  unfoldable pub pair_up : List Bytes → List Bytes
  pair_up (a ∷ b ∷ hs) = hash_func (a ++ b) ∷ pair_up hs
  pair_up _ = []

  -- `for _ in range(length)`, and the return.
  unfoldable pub branch_loop : ℕ → Bool → List Bytes → ℕ → List Bytes → Result (List Bytes × Bytes)
  branch_loop zero tsc hs i branch = do
    root ← from_option (get_elem? hs 0) index_error
    ok (branch, root)
  branch_loop (suc k) tsc hs i branch = do
    elt ← branch_element tsc hs (padded hs) i
    branch_loop k tsc (pair_up (padded hs)) (i / 2) (branch ++ (elt ∷ []))

  abbrev chosen_length : Option ℕ → ℕ → Result ℕ
  chosen_length none natural = ok natural
  chosen_length (some n) natural = if ltb n natural then err value_error else ok n

  unfoldable pub branch_and_root : List Bytes → ℕ → Option ℕ → Bool → Result (List Bytes × Bytes)
  branch_and_root hs i len tsc = do
    guard (ltb i (length hs)) value_error
    natural ← branch_length (length hs)
    n ← chosen_length len natural
    branch_loop n tsc hs i []

  unfoldable pub root : List Bytes → Option ℕ → Result Bytes
  root hs len = do (branch, r) ← branch_and_root hs 0 len false; ok r

  unfoldable pub proof_loop : Bytes → List Bytes → ℕ → Result Bytes
  proof_loop h [] i = if i == 0 then ok h else err value_error
  proof_loop h (elt ∷ branch) i =
      proof_loop (if i % 2 == 1 then hash_func (elt ++ h) else hash_func (h ++ elt)) branch (i / 2)

  unfoldable pub root_from_proof : Bytes → List Bytes → ℕ → Result Bytes
  root_from_proof = proof_loop

  -- The roots of the successive slices of `size` hashes.
  level_loop : ℕ → List Bytes → ℕ → ℕ → Result (List Bytes)
  level_loop zero [] size depth = ok []
  level_loop zero (h ∷ hs) size depth = err out_of_fuel
  level_loop (suc fuel) [] size depth = ok []
  level_loop (suc fuel) (h ∷ hs) size depth = do
    r ← root (take size (h ∷ hs)) (some depth)
    rest ← level_loop fuel (drop size (h ∷ hs)) size depth
    ok (r ∷ rest)

  unfoldable pub level : List Bytes → ℕ → Result (List Bytes)
  unfolding level_loop
  level hs depth_higher = level_loop (length hs) hs (2 ^ depth_higher) depth_higher

  unfoldable pub branch_and_root_from_level :
      List Bytes → List Bytes → ℕ → ℕ → Bool → Result (List Bytes × Bytes)
  branch_and_root_from_level higher leaf_hashes i depth_higher tsc = do
    let leaf_index = i / 2 ^ depth_higher * 2 ^ depth_higher
    (leaf_branch, leaf_root) ← branch_and_root leaf_hashes (i - leaf_index) (some depth_higher) tsc
    let i' = i / 2 ^ depth_higher
    (level_branch, r) ← branch_and_root higher i' none tsc
    at_level ← from_option (get_elem? higher i') index_error
    guard (list_eq leaf_root at_level) value_error
    ok (leaf_branch ++ level_branch, r)

-- ===== src/Merkle/Proof.antt =====
-- The branch that `branch_and_root` of electrumx/lib/merkle.py returns proves the root beside it.
use rxin_dexer.Prelude.{
  ℕ, zero, suc, ◌/◌, ◌^◌, ◌≤◌, ◌<◌, ◌≡◌, refl, ap, false, Option, none, some, List, [], ◌∷◌, ◌++◌,
  arith, length, get_elem?, get_elem?-bound, lt→ltb, le→leb, append-nil, append_assoc,
}
use rxin_dexer.Prelude.Result.{ok}
use rxin_dexer.Util.{Bytes}
use rxin_dexer.Merkle.{
  ceil_log, branch_length, padded, xor_one, branch_element, pair_up, branch_loop, branch_and_root,
  proof_loop, root_from_proof, chosen_length,
}
use rxin_dexer.Merkle.Log.{ceil_log-bound}
use rxin_dexer.Merkle.Layer.{neighbour, length-next}
use native.Mathlib.Nat.{le_trans, pow-suc, pow-le-pow_right}

-- Without the TSC format the element is the neighbour.
branch_element-plain :
    (hs : List Bytes) (i : ℕ) (y : Bytes)
    → get_elem? (padded hs) (xor_one i) ≡ some y
    → branch_element false hs (padded hs) i ≡ ok y
unfolding branch_element
branch_element-plain hs i y e = rw e (ground arith)

module _ (hash_func : Bytes → Bytes) where
  -- The loop from a level on: the branch it adds proves its root, from the hash at the index.
  branch_loop-proves :
      (k : ℕ) (hs : List Bytes) (i : ℕ) (x : Bytes) (acc : List Bytes)
      → get_elem? hs i ≡ some x
      → length hs ≤ 2 ^ k
      → (branch : List Bytes) × (r : Bytes) × (branch_loop hash_func k false hs i acc
          ≡ ok (acc ++ branch, r))
        × (proof_loop hash_func x branch i ≡ ok r)
        × (length branch ≡ k)
  unfolding branch_loop proof_loop
  branch_loop-proves zero hs i x acc e fits =
      let lt : i < length hs = get_elem?-bound hs i x e in
      let z : i ≡ 0 = omega arith in
      let e' : get_elem? hs 0 ≡ some x = rw z at e in ([], x, rw (e', append-nil), rw z, refl)
  branch_loop-proves (suc k) hs i x acc e fits =
      let (y, beside, above) = neighbour hash_func hs i x e in
      let small : length (pair_up hash_func (padded hs)) ≤ 2 ^ k =
        omega (arith, length-next hash_func hs, pow-suc 2 k) in
      let (branch, r, run, proof, l) =
        branch_loop-proves k (pair_up hash_func (padded hs)) (i / 2) _ (acc ++ (y ∷ [])) above
          small in
      (y ∷ branch, r, rw (branch_element-plain hs i y beside, run, append_assoc), proof, ap suc l)

  -- The rounds are enough to come down to one hash.
  chosen_fits :
      (l n : ℕ) (len : Option ℕ) → chosen_length hash_func len (ceil_log l) ≡ ok n → l ≤ 2 ^ n
  chosen_fits l n none c = let e : ceil_log l ≡ n = ground arith in rw (← e) (ceil_log-bound l)
  chosen_fits l n (some m) c =
      let big : ceil_log l ≤ n = ground arith in
      le_trans (ceil_log-bound l) (pow-le-pow_right (omega arith) big)

  -- Whatever hash function the tree uses: for an index below the number of hashes, and no length or one
  -- not below the natural one, `branch_and_root` without the TSC format returns a branch of that
  -- length and a root, and `root_from_proof` of the hash at the index, that branch and the index
  -- returns the same root.
  pub root_from_proof-branch_and_root :
      (hs : List Bytes) (i n : ℕ) (len : Option ℕ) (x : Bytes)
      → get_elem? hs i ≡ some x
      → chosen_length hash_func len (ceil_log (length hs)) ≡ ok n
      → (branch : List Bytes) × (r : Bytes) × (branch_and_root hash_func hs i len false
          ≡ ok (branch, r))
        × (root_from_proof hash_func x branch i ≡ ok r)
        × (length branch ≡ n)
  unfolding branch_and_root root_from_proof branch_length
  root_from_proof-branch_and_root hs i n len x e c =
      let lt : i < length hs = get_elem?-bound hs i x e in
      let fits : length hs ≤ 2 ^ n = chosen_fits (length hs) n len c in
      let (branch, r, run, proof, l) = branch_loop-proves n hs i x [] e fits in
      (branch, r, rw (lt→ltb _ _ lt, le→leb 1 (length hs) (omega arith), c, run), proof, l)

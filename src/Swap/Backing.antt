-- ===== src/Swap/Backing.antt =====
-- Which tokens a backing output carries, in electrumx/server/swap_index.py: the loop over the record of
-- references, compared with its entries.
use rxin_dexer.Prelude.{
  ℕ, zero, suc, ◌+◌, ◌≤◌, ◌<◌, ◌≡◌, refl, ◌∙◌, sym, ap, Bool, true, false, ◌||◌, List, [], ◌∷◌,
  ◌++◌, append_assoc, leb, length, take, drop, list_eq, All, length-take, length-append,
  take-append-drop, le→leb, lt→leb, append-nil, arith,
}
use rxin_dexer.Util.{Bytes, slice}
use rxin_dexer.Util.Slices.{slice-known, drop-known, known-fits}
use rxin_dexer.Database.{join}
use rxin_dexer.Swap.{carries_loop, backing_utxo_carries_token}

-- An entry of a record: a reference of 36 bytes and its type.
abbrev pub IsEntry : Bytes → Type 0
IsEntry e = length e ≡ 37

module _ (sha256 : Bytes → Bytes) where
  -- One of the references has the hash.
  unfoldable pub any_carries : List Bytes → Bytes → Bool
  any_carries [] token_hash = false
  any_carries (e ∷ entries) token_hash =
      list_eq (sha256 (take 36 e)) token_hash || any_carries entries token_hash

  carries_loop-entries :
      (entries : List Bytes) (rest s token_hash : Bytes) (off fuel : ℕ)
      → All IsEntry entries
      → length rest < 37
      → off ≤ length s
      → drop off s ≡ join entries ++ rest
      → length entries ≤ fuel
      → carries_loop sha256 fuel s token_hash off ≡ any_carries entries token_hash
  unfolding carries_loop any_carries join
  carries_loop-entries [] rest s token_hash off zero h short le here enough = refl
  carries_loop-entries [] rest s token_hash off (suc fuel) h short le here enough =
      let past : leb (off + 37) (length s) ≡ false =
        lt→leb (off + 37) (length s)
          (omega (arith, known-fits s rest [] off le (here ∙ sym (append-nil rest)))) in
      rw past refl
  carries_loop-entries (e ∷ entries) rest s token_hash off zero h short le here enough =
      absurd (omega arith)
  carries_loop-entries (e ∷ entries) rest s token_hash off (suc fuel) (l, h) short le here enough =
      let at : drop off s ≡ e ++ (join entries ++ rest) =
        here ∙ append_assoc e (join entries) rest in
      let fit = known-fits s e (join entries ++ rest) off le at in
      let inside : leb (off + 37) (length s) ≡ true =
        le→leb (off + 37) (length s) (omega (arith, l, fit)) in
      let size : length (take 36 e) ≡ 36 = omega (arith, l, length-take 36 e) in
      let ref_at : drop off s ≡ take 36 e ++ (drop 36 e ++ (join entries ++ rest)) =
        at
        ∙ ap (λ (q : Bytes). q ++ (join entries ++ rest)) (sym (take-append-drop 36 e))
        ∙ append_assoc (take 36 e) (drop 36 e) (join entries ++ rest) in
      let cut : slice s off (off + 36) ≡ take 36 e =
        rw size at (slice-known s (take 36 e) (drop 36 e ++ (join entries ++ rest)) off ref_at) in
      let next : drop (off + 37) s ≡ join entries ++ rest =
        rw l at (drop-known s e (join entries ++ rest) off at) in
      let later =
        carries_loop-entries entries rest s token_hash (off + 37) fuel h short
          (omega (arith, l, fit)) next (omega arith) in
      rw (inside, cut, later) refl

  length-join :
      (entries : List Bytes) → All IsEntry entries → length entries ≤ length (join entries)
  unfolding join
  length-join [] h = omega arith
  length-join (e ∷ entries) (l, h) =
      omega (arith, l, length-join entries h, length-append e (join entries))

  -- On a record of entries of 37 bytes, with fewer than 37 bytes behind them, the loop finds the token
  -- exactly if one of the entries has a reference with its hash: the rounds are enough, and a piece of
  -- an entry at the end does not count.
  pub backing_utxo_carries_token-entries :
      (entries : List Bytes) (rest token_hash : Bytes)
      → All IsEntry entries
      → length rest < 37
      → backing_utxo_carries_token sha256 (join entries ++ rest) token_hash
        ≡ any_carries entries token_hash
  unfolding backing_utxo_carries_token
  backing_utxo_carries_token-entries entries rest token_hash h short =
      carries_loop-entries entries rest (join entries ++ rest) token_hash 0
        (length (join entries ++ rest)) h short (omega arith) refl
        (omega (arith, length-join entries h, length-append (join entries) rest))

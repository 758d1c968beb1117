-- ===== src/Script/Base.antt =====
-- `base_locking_script` of electrumx/lib/script.py on scripts that hold a P2PKH.
use rxin_dexer.Prelude.{
  ℕ, ◌+◌, ◌≡◌, ◌≢◌, refl, sym, ap, ◌∙◌, false, some, none, List, [], ◌∷◌, ◌++◌, arith, ◌==◌, length,
  drop, All, append_assoc, length-append, drop-append,
}
use rxin_dexer.Prelude.Result.{ok}
use rxin_dexer.Util.{Bytes, slice}
use rxin_dexer.Util.Slices.{slice-known}
use rxin_dexer.Script.{p2pkh_script, push_data, OpSpan, is_input_ref}
use rxin_dexer.Script.Template.{
  p2pkh_at, find_template, base_of, base_of_spans, cut_or, base_locking_script,
}
use rxin_dexer.Script.Operand.{told}
use rxin_dexer.Script.Grammar.{Item, encode, op_of, data_len}
use rxin_dexer.Script.Decode.{IsItem}
use rxin_dexer.Script.Parse.{encode_all}
use rxin_dexer.Script.Spans.{spans, p2pkh_items, walk_ops-encode_all}

-- An item other than OP_DUP.
abbrev pub NotDup : Item → Type 0
NotDup it = op_of it ≢ 118

no_dup : (a : OpSpan) (rest : List OpSpan) → (a.op == 118) ≡ false → p2pkh_at (a ∷ rest) ≡ none
unfolding p2pkh_at
no_dup a [] e = refl
no_dup a (b ∷ []) e = refl
no_dup a (b ∷ c ∷ []) e = refl
no_dup a (b ∷ c ∷ d ∷ []) e = refl
no_dup a (b ∷ c ∷ d ∷ f ∷ rest) e = rw e

All-append : {A : Type 0} (P : A → Type 0) (xs ys : List A) → All P xs → All P ys → All P (xs ++ ys)
All-append P [] ys tt after = after
All-append P (x ∷ xs) ys (head, tail) after = (head, All-append P xs ys tail after)

encode_all-append : (xs ys : List Item) → encode_all (xs ++ ys) ≡ encode_all xs ++ encode_all ys
encode_all-append [] ys = refl
encode_all-append (it ∷ its) ys =
    ap (λ (t : Bytes). encode it ++ t) (encode_all-append its ys)
    ∙ sym (append_assoc (encode it) (encode_all its) (encode_all ys))

template_hit :
    (post : List Item) (h : Bytes) (n : ℕ)
    → length h ≡ 20
    → p2pkh_at (spans n (p2pkh_items h ++ post)) ≡ some (n, n + 25)
unfolding spans p2pkh_items p2pkh_at op_of data_len encode
template_hit post h n l = let e : n + 1 + 1 + 21 + 1 + 1 ≡ n + 25 = omega arith in rw (l, e)

-- A span that is not OP_DUP begins no P2PKH.
skip_head :
    (n : ℕ) (it : Item) (rest : List Item)
    → NotDup it
    → find_template p2pkh_at (spans n (it ∷ rest))
      ≡ find_template p2pkh_at (spans (n + length (encode it)) rest)
unfolding find_template spans
skip_head n it rest w =
    let e : (op_of it == 118) ≡ false = ground arith in
    rw (no_dup _ (spans (n + length (encode it)) rest) e)

-- The first template found is the P2PKH behind items none of which is OP_DUP.
find_behind :
    (pre post : List Item) (h : Bytes) (n : ℕ)
    → length h ≡ 20
    → All NotDup pre
    → find_template p2pkh_at (spans n (pre ++ (p2pkh_items h ++ post)))
      ≡ some (n + length (encode_all pre), n + length (encode_all pre) + 25)
find_behind [] post h n l ws =
    let z : n + 0 ≡ n = omega arith in
    rw z (hit_first (spans n (p2pkh_items h ++ post)) (template_hit post h n l))
  where
    hit_first :
        {r : ℕ × ℕ} (ss : List OpSpan) → p2pkh_at ss ≡ some r → find_template p2pkh_at ss ≡ some r
    hit_first [] e = unfold p2pkh_at in cc e
    hit_first (a ∷ ss) e = unfold find_template in rw e
find_behind (it ∷ pre) post h n l (w, ws) =
    let rest : List Item = pre ++ (p2pkh_items h ++ post) in
    let k : n + length (encode it) + length (encode_all pre)
        ≡ n + length (encode it ++ encode_all pre) =
      omega (arith, length-append (encode it) (encode_all pre)) in
    skip_head n it rest w ∙ find_behind pre post h (n + length (encode it)) l ws ∙ rw k

p2pkh-IsItem : (h : Bytes) → length h ≡ 20 → All IsItem (p2pkh_items h)
unfolding p2pkh_items is_input_ref told
p2pkh-IsItem h l = (
  (omega arith, refl),
  ((omega arith, refl), ((omega arith, refl, l), ((omega arith, refl), ((omega arith, refl), tt)))),
)

length-p2pkh : (h : Bytes) → length h ≡ 20 → length (encode_all (p2pkh_items h)) ≡ 25
unfolding p2pkh_items encode
length-p2pkh h l = omega (arith, length-append (20 ∷ h) (136 ∷ 172 ∷ []))

base_of-found :
    (s : Bytes) (ss : List OpSpan) (start end : ℕ)
    → find_template p2pkh_at ss ≡ some (start, end)
    → base_of s (ok ss) ≡ ok (slice s start end)
unfolding base_of base_of_spans cut_or
base_of-found s ss start end e = rw e

-- On the bytes of well-formed items that hold a P2PKH script of a 20-byte hash, none of the items
-- before it being OP_DUP and whatever items follow, `base_locking_script` returns exactly that
-- P2PKH script: both for a token script that ends in the address and for one that begins with it.
pub base_locking_script-p2pkh :
    (pre post : List Item) (h : Bytes)
    → length h ≡ 20
    → All NotDup pre
    → All IsItem pre
    → All IsItem post
    → base_locking_script (encode_all (pre ++ (p2pkh_items h ++ post)))
      ≡ ok (encode_all (p2pkh_items h))
unfolding base_locking_script
base_locking_script-p2pkh pre post h l nd wp wq =
    let its : List Item = pre ++ (p2pkh_items h ++ post) in
    let wh : All IsItem (p2pkh_items h ++ post) =
      All-append IsItem (p2pkh_items h) post (p2pkh-IsItem h l) wq in
    let ws : All IsItem its = All-append IsItem pre (p2pkh_items h ++ post) wp wh in
    let whole : encode_all its ≡ encode_all pre ++ (encode_all (p2pkh_items h) ++ encode_all post) =
      encode_all-append pre (p2pkh_items h ++ post)
      ∙ ap (λ (t : Bytes). encode_all pre ++ t) (encode_all-append (p2pkh_items h) post) in
    let there : drop (length (encode_all pre)) (encode_all its)
        ≡ encode_all (p2pkh_items h) ++ encode_all post =
      rw whole (drop-append (encode_all pre) (encode_all (p2pkh_items h) ++ encode_all post)) in
    let cut : slice (encode_all its) (length (encode_all pre)) (length (encode_all pre) + 25)
        ≡ encode_all (p2pkh_items h) =
      rw (length-p2pkh h l) at (
        slice-known (encode_all its) (encode_all (p2pkh_items h)) (encode_all post)
          (length (encode_all pre)) there) in
    let z : 0 + length (encode_all pre) ≡ length (encode_all pre) = omega arith in
    let found : find_template p2pkh_at (spans 0 its)
        ≡ some (length (encode_all pre), length (encode_all pre) + 25) =
      rw z at (find_behind pre post h 0 l nd) in
    rw (walk_ops-encode_all its ws)
      (base_of-found (encode_all its) (spans 0 its) _ _ found ∙ ap ok cut)

-- The P2PKH script of a 20-byte hash, as `ScriptPubKey.P2PKH_script` builds it, is the base locking
-- script of itself, and of itself followed by any well-formed items.
pub base_locking_script-p2pkh_script :
    (h bs : Bytes) (post : List Item)
    → length h ≡ 20
    → All IsItem post
    → p2pkh_script h ≡ ok bs
    → base_locking_script (bs ++ encode_all post) ≡ ok bs
unfolding p2pkh_script push_data p2pkh_items encode
base_locking_script-p2pkh_script h bs post l w p =
    let run = (rw l at p) in
    let made : encode_all (p2pkh_items h) ≡ bs = cc run in
    let found : base_locking_script (encode_all (p2pkh_items h ++ post))
        ≡ ok (encode_all (p2pkh_items h)) =
      base_locking_script-p2pkh [] post h l tt tt w in
    let split : encode_all (p2pkh_items h ++ post) ≡ bs ++ encode_all post =
      encode_all-append (p2pkh_items h) post ∙ ap (λ (t : Bytes). t ++ encode_all post) made in
    ap base_locking_script (sym split) ∙ found ∙ ap ok made

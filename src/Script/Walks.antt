-- ===== src/Script/Walks.antt =====
-- What the walks of electrumx/lib/script.py compute, by the items of the script.
use mathlib.Core.List.{foldl}
use rxin_dexer.Prelude.{
  ℕ, ◌≡◌, ◌≢◌, refl, ap, ◌∙◌, Bool, false, ◌||◌, List, [], ◌∷◌, ◌++◌, arith, length, All,
  append-nil, append_assoc, replicate, ◌==◌, if◌then◌else◌, ◌⊎◌, inl, inr, Bool-cases,
}
use rxin_dexer.Prelude.Result.{Error, Result, ok, err, script_error, out_of_fuel, ◌>>=◌}
use rxin_dexer.Util.{Bytes}
use rxin_dexer.Script.{
  is_checksig, except_script, Refs, add_ref, refs_round, get_push_input_refs, Zeroed, zero_round,
  zero_refs,
}
use rxin_dexer.Script.Grammar.{
  Item, push, ref, plain, refs_act, refs_round-decode, zero_act, zero_round-decode,
}
use rxin_dexer.Script.Decode.{IsItem}
use rxin_dexer.Script.Parse.{
  parse, encode_all, place, while_ops-parse_from, not_described, parse_cases,
}

-- The references behind the opcodes that pass a test, in order.
unfoldable pub refs_with : (ℕ → Bool) → List Item → List Bytes
refs_with test [] = []
refs_with test (push op len bytes ∷ its) = refs_with test its
refs_with test (plain op ∷ its) = refs_with test its
refs_with test (ref op bytes ∷ its) =
    let rest = refs_with test its in if test op then bytes ∷ rest else rest

unfoldable pub refs_of : List Item → Refs
refs_of its = record {
  all = refs_with (λ op. op == 208 || op == 216) its;
  normal = refs_with (λ op. op == 208) its;
  singleton = refs_with (λ op. op == 216) its;
}

abbrev append_refs : Refs → Refs → Refs
append_refs a b = record {
  all = a.all ++ b.all;
  normal = a.normal ++ b.normal;
  singleton = a.singleton ++ b.singleton;
}

add_ref-append :
    (op : ℕ) (bytes : Bytes) (r : Refs) (its : List Item)
    → append_refs (add_ref op bytes r) (refs_of its) ≡ append_refs r (refs_of (ref op bytes ∷ its))
unfolding add_ref refs_of refs_with
add_ref-append op bytes r its = ground (
  arith,
  append_assoc r.all (bytes ∷ []) (refs_with (λ op. op == 208 || op == 216) its),
  append_assoc r.normal (bytes ∷ []) (refs_with (λ op. op == 208) its),
  append_assoc r.singleton (bytes ∷ []) (refs_with (λ op. op == 216) its),
)

foldl-refs :
    (its : List Item) (n : ℕ) (r : Refs)
    → foldl refs_act r (place n its) ≡ append_refs r (refs_of its)
unfolding refs_act refs_of refs_with
foldl-refs [] n r = simp append-nil
foldl-refs (push op len bytes ∷ its) n r = foldl-refs its _ r
foldl-refs (plain op ∷ its) n r = foldl-refs its _ r
foldl-refs (ref op bytes ∷ its) n r =
    foldl-refs its _ (add_ref op bytes r) ∙ add_ref-append op bytes r its

abbrev no_refs : Refs
no_refs = record { all = []; normal = []; singleton = [] }

refs-parse :
    (s : Bytes)
    → get_push_input_refs s ≡ except_script (parse s >>= λ items. ok (foldl refs_act no_refs items))
unfolding get_push_input_refs parse
refs-parse s =
    ap except_script
      (while_ops-parse_from refs_round refs_act refs_round-decode (length s) s 0 no_refs)

except_script-err :
    {A : Type 0} (e : Error) → e ≢ out_of_fuel → except_script {A = A} (err e) ≡ err script_error
unfolding except_script
except_script-err out_of_fuel h = absurd (h refl)
except_script-err _ h = refl

pub refs-described :
    (s : Bytes) (its : List Item)
    → parse s ≡ ok (place 0 its)
    → get_push_input_refs s ≡ ok (refs_of its)
refs-described s its p =
    refs-parse s ∙ rw p (unfold except_script in ap ok (foldl-refs its 0 no_refs))

-- On every script: either its bytes are those of a sequence of well-formed items, and
-- `get_push_input_refs` returns the references of those items, all of them and by opcode, in order;
-- or no sequence of well-formed items has these bytes, and it raises ScriptError.
pub get_push_input_refs_total :
    (s : Bytes)
    → ((its : List Item) × All IsItem its
        × (encode_all its ≡ s)
        × (get_push_input_refs s ≡ ok (refs_of its)))
      ⊎ ((get_push_input_refs s ≡ err script_error)
          × ((its : List Item) → All IsItem its → encode_all its ≢ s))
get_push_input_refs_total s = elim (parse_cases s) [
  | inl (its, ws, e, p) ↦ inl (its, ws, e, refs-described s its p)
  | inr (e, p, h) ↦
      inr (refs-parse s ∙ rw p (except_script-err e h), λ its ws. not_described s e its p ws)
]

-- What `zero_refs` writes for an item: the length field of a push is left out.
unfoldable pub zeroed_item : Item → Bytes
zeroed_item (push op len bytes) = op ∷ bytes
zeroed_item (ref op bytes) = op ∷ replicate 36 0
zeroed_item (plain op) = op ∷ []

unfoldable pub zeroed : List Item → Bytes
zeroed [] = []
zeroed (it ∷ its) = zeroed_item it ++ zeroed its

unfoldable pub has_checksig : List Item → Bool
has_checksig [] = false
has_checksig (push op len bytes ∷ its) = has_checksig its
has_checksig (ref op bytes ∷ its) = has_checksig its
has_checksig (plain op ∷ its) = is_checksig op || has_checksig its

abbrev append_zeroed : Zeroed → List Item → Zeroed
append_zeroed z its = record {
  ops = z.ops ++ zeroed its;
  requires_sig = z.requires_sig || has_checksig its;
}

zero_act-append :
    (z : Zeroed) (n : ℕ) (it : Item) (its : List Item)
    → append_zeroed (zero_act z (n, it)) its ≡ append_zeroed z (it ∷ its)
unfolding zero_act zeroed zeroed_item has_checksig
zero_act-append z n (push op len bytes) its = simp append_assoc
zero_act-append z n (ref op bytes) its = simp append_assoc
zero_act-append z n (plain op) its = elim (Bool-cases (is_checksig op)) [
  | inl e ↦ rw e (simp append_assoc (ground arith))
  | inr e ↦ rw e (simp append_assoc)
]

foldl-zeroed :
    (its : List Item) (n : ℕ) (z : Zeroed) → foldl zero_act z (place n its) ≡ append_zeroed z its
unfolding zeroed has_checksig
foldl-zeroed [] n z = ground (arith, append-nil z.ops)
foldl-zeroed (it ∷ its) n z = foldl-zeroed its _ (zero_act z (n, it)) ∙ zero_act-append z n it its

abbrev nothing_zeroed : Zeroed
nothing_zeroed = record { ops = []; requires_sig = false }

zero_refs-parse :
    (s : Bytes)
    → zero_refs s
      ≡ except_script (
          parse s >>= (λ items. ok (foldl zero_act nothing_zeroed items)) >>= λ z.
          ok (if z.requires_sig then z.ops else s))
unfolding zero_refs parse
zero_refs-parse s =
    ap (λ (r : Result Zeroed). except_script (r >>= λ z. ok (if z.requires_sig then z.ops else s)))
      (while_ops-parse_from zero_round zero_act zero_round-decode (length s) s 0 nothing_zeroed)

pub zero_refs-described :
    (s : Bytes) (its : List Item)
    → parse s ≡ ok (place 0 its)
    → zero_refs s ≡ ok (if has_checksig its then zeroed its else s)
zero_refs-described s its p =
    zero_refs-parse s ∙ rw (p, foldl-zeroed its 0 nothing_zeroed) (unfold except_script in refl)

-- On every script: either its bytes are those of a sequence of well-formed items, and `zero_refs`
-- returns, if one of the items is a signature check, the items' bytes with each reference zeroed and
-- the length field of each push left out, and else the script itself; or no sequence of well-formed
-- items has these bytes, and it raises ScriptError.
pub zero_refs_total :
    (s : Bytes)
    → ((its : List Item) × All IsItem its
        × (encode_all its ≡ s)
        × (zero_refs s ≡ ok (if has_checksig its then zeroed its else s)))
      ⊎ ((zero_refs s ≡ err script_error)
          × ((its : List Item) → All IsItem its → encode_all its ≢ s))
zero_refs_total s = elim (parse_cases s) [
  | inl (its, ws, e, p) ↦ inl (its, ws, e, zero_refs-described s its p)
  | inr (e, p, h) ↦
      inr (zero_refs-parse s ∙ rw p (except_script-err e h), λ its ws. not_described s e its p ws)
]

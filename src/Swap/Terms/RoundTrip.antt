-- ===== src/Swap/Terms/RoundTrip.antt =====
-- parse_multi_txout of electrumx/server/swap_index.py reads the layout that its comment describes.
use rxin_dexer.Prelude.{
  ℕ, ◌+◌, ◌≤◌, ◌<◌, ◌%◌, ◌≡◌, ◌≢◌, refl, ◌∙◌, sym, ap, true, not, ◌||◌, some, List, [], ◌∷◌, ◌++◌,
  append_assoc, append-nil, ltb, leb, ◌==◌, length, get_elem?, drop, get_elem?-drop, length-append,
  ltb→lt, lt→ltb, le→leb, Bool-cases, inl, inr, arith,
}
use rxin_dexer.Prelude.Result.{Result, ok, >>=-eq-ok}
use rxin_dexer.Util.{
  Bytes, slice, to_le, pack_le_uint, pack_varint, pack_varbytes, unpack_le_uint_from,
}
use rxin_dexer.Util.Ints.{pack_le_uint-value}
use rxin_dexer.Util.Slices.{slice-known, drop-known, known-fits}
use rxin_dexer.Tx.{join_all, ◌<>◌}
use rxin_dexer.Predict.Record.{join_parts}
use rxin_dexer.Swap.Terms.{read_compact, txouts_loop, counted_txouts, has_none, parse_multi_txout}

-- The layout: for each output its value, and its script behind the script's length; and before the
-- outputs their number.
abbrev pub txout_bytes : ℕ × Bytes → Result Bytes
txout_bytes (value, script) = pack_le_uint 8 value <> pack_varbytes script

abbrev pub txouts_bytes : List (ℕ × Bytes) → Result Bytes
txouts_bytes outputs = pack_varint (length outputs) <> join_all txout_bytes outputs

unpack_at :
    (w n o : ℕ) (b cs rest : Bytes)
    → o ≤ length b
    → drop o b ≡ cs ++ rest
    → pack_le_uint w n ≡ ok cs
    → (unpack_le_uint_from w b o ≡ ok n) × (length cs ≡ w)
unfolding unpack_le_uint_from
unpack_at w n o b cs rest le here p =
    let (l, v) = pack_le_uint-value w n cs p in
    let cut : slice b o (o + w) ≡ cs = rw l at (slice-known b cs rest o here) in
    let fits : leb (o + w) (length b) ≡ true =
      le→leb (o + w) (length b) (omega (arith, l, known-fits b cs rest o le here)) in
    (rw (fits, cut, v) refl, l)

-- A first byte and an integer behind it.
wide_at :
    (b0 w n o : ℕ) (b cs rest : Bytes)
    → o ≤ length b
    → drop o b ≡ b0 ∷ (cs ++ rest)
    → pack_le_uint w n ≡ ok cs
    → (get_elem? b o ≡ some b0) × (unpack_le_uint_from w b (o + 1) ≡ ok n) × (length cs ≡ w)
wide_at b0 w n o b cs rest le here p =
    let (u, l) =
      unpack_at w n (o + 1) b cs rest (omega (arith, known-fits b (b0 ∷ []) (cs ++ rest) o le here))
        (drop-known b (b0 ∷ []) (cs ++ rest) o here) p in
    (get_elem?-drop o b b0 (cs ++ rest) here, u, l)

read_compact_small :
    (n o : ℕ) (b part rest : Bytes)
    → n < 253
    → drop o b ≡ part ++ rest
    → pack_le_uint 1 n ≡ ok part
    → read_compact b o ≡ ok (n, o + length part)
unfolding read_compact pack_le_uint to_le
read_compact_small n o b part rest h here p =
    let byte : n % 256 ≡ n = omega arith in
    let room : ltb n (256) ≡ true = ground arith in
    let made : n ∷ [] ≡ part = cc (rw (byte, room) at p) in
    let small : ltb n 253 ≡ true = lt→ltb n 253 h in
    let there : get_elem? b o ≡ some n =
      get_elem?-drop o b n rest (here ∙ ap (λ (q : Bytes). q ++ rest) (sym made)) in
    rw (← made, there, small) refl

read_compact_back :
    (n o : ℕ) (b part rest : Bytes)
    → o ≤ length b
    → drop o b ≡ part ++ rest
    → pack_varint n ≡ ok part
    → read_compact b o ≡ ok (n, o + length part)
unfolding pack_varint read_compact
read_compact_back n o b part rest le here p = elim (Bool-cases (ltb n 253)) [
  | inl e ↦ read_compact_small n o b part rest (ltb→lt n 253 e) here (rw e at p)
  | inr e ↦ elim (Bool-cases (ltb n 65536)) [
    | inl e2 ↦
        let (cs, q, made) =
          >>=-eq-ok (pack_le_uint 2 n) (λ (c : Bytes). ok (253 ∷ c)) (rw (e, e2) at p) in
        let same : 253 ∷ cs ≡ part = cc made in
        let (there, u, l) =
          wide_at 253 2 n o b cs rest le (here ∙ ap (λ (q : Bytes). q ++ rest) (sym same)) q in
        let step : o + 3 ≡ o + length (253 ∷ cs) = omega (arith, l) in
        rw (← same, there, u) (ap (λ (m : ℕ). ok (n, m)) step)
    | inr e2 ↦ elim (Bool-cases (ltb n 4294967296)) [
      | inl e3 ↦
          let (cs, q, made) =
            >>=-eq-ok (pack_le_uint 4 n) (λ (c : Bytes). ok (254 ∷ c)) (rw (e, e2, e3) at p) in
          let same : 254 ∷ cs ≡ part = cc made in
          let (there, u, l) =
            wide_at 254 4 n o b cs rest le (here ∙ ap (λ (q : Bytes). q ++ rest) (sym same)) q in
          let step : o + 5 ≡ o + length (254 ∷ cs) = omega (arith, l) in
          rw (← same, there, u) (ap (λ (m : ℕ). ok (n, m)) step)
      | inr e3 ↦
          let (cs, q, made) =
            >>=-eq-ok (pack_le_uint 8 n) (λ (c : Bytes). ok (255 ∷ c)) (rw (e, e2, e3) at p) in
          let same : 255 ∷ cs ≡ part = cc made in
          let (there, u, l) =
            wide_at 255 8 n o b cs rest le (here ∙ ap (λ (q : Bytes). q ++ rest) (sym same)) q in
          let step : o + 9 ≡ o + length (255 ∷ cs) = omega (arith, l) in
          rw (← same, there, u) (ap (λ (m : ℕ). ok (n, m)) step)
    ]
  ]
]

-- One output where it stands: its value, its script, and where the next one begins.
record ReadsTxout (blob : Bytes) (o : ℕ) (value : ℕ) (script : Bytes) (a rest : Bytes)
    : Type 0 where
  from : ℕ
  fits_value : leb (o + 8) (length blob) ≡ true
  is_value : unpack_le_uint_from 8 blob o ≡ ok value
  is_length : read_compact blob (o + 8) ≡ ok (length script, from)
  fits_script : leb (from + length script) (length blob) ≡ true
  is_script : slice blob from (from + length script) ≡ script
  next : drop (from + length script) blob ≡ rest
  stops : from + length script ≡ o + length a
  inside : from + length script ≤ length blob

txout-ReadsTxout :
    (blob : Bytes) (o value : ℕ) (script a rest : Bytes)
    → o ≤ length blob
    → drop o blob ≡ a ++ rest
    → txout_bytes (value, script) ≡ ok a
    → ReadsTxout blob o value script a rest
unfolding pack_varbytes
txout-ReadsTxout blob o value script a rest le here p =
    let (v, w, pv, pw, split) = join_parts (pack_le_uint 8 value) (pack_varbytes script) a p in
    let (ns, pn, made) = >>=-eq-ok (pack_varint (length script)) (λ n. ok (n ++ script)) pw in
    let parts : ns ++ script ≡ w = cc made in
    let at0 : drop o blob ≡ v ++ (ns ++ (script ++ rest)) =
      here
      ∙ rw (← split, ← parts, append_assoc v (ns ++ script) rest, append_assoc ns script rest)
          refl in
    let (u, l) = unpack_at 8 value o blob v (ns ++ (script ++ rest)) le at0 pv in
    let fit0 = known-fits blob v (ns ++ (script ++ rest)) o le at0 in
    let at1 : drop (o + 8) blob ≡ ns ++ (script ++ rest) =
      rw l at (drop-known blob v (ns ++ (script ++ rest)) o at0) in
    let le1 : o + 8 ≤ length blob = omega (arith, l, fit0) in
    let at2 : drop (o + 8 + length ns) blob ≡ script ++ rest =
      drop-known blob ns (script ++ rest) (o + 8) at1 in
    let fit1 = known-fits blob ns (script ++ rest) (o + 8) le1 at1 in
    let le2 : o + 8 + length ns ≤ length blob = omega (arith, fit1) in
    let fit2 = known-fits blob script rest (o + 8 + length ns) le2 at2 in
    let le3 : o + 8 + length ns + length script ≤ length blob = omega (arith, fit2) in
    let whole : v ++ (ns ++ script) ≡ a = ap (λ (q : Bytes). v ++ q) parts ∙ split in
    let size : length (v ++ (ns ++ script)) ≡ length a = ap length whole in
    record {
      from = o + 8 + length ns;
      fits_value = le→leb (o + 8) (length blob) le1;
      is_value = u;
      is_length = read_compact_back (length script) (o + 8) blob ns (script ++ rest) le1 at1 pn;
      fits_script = le→leb (o + 8 + length ns + length script) (length blob) le3;
      is_script = slice-known blob script rest (o + 8 + length ns) at2;
      next = drop-known blob script rest (o + 8 + length ns) at2;
      stops = omega (arith, l, size, length-append v (ns ++ script), length-append ns script);
      inside = le3;
    }

txouts_loop_back :
    (outputs : List (ℕ × Bytes)) (blob : Bytes) (o : ℕ) (bs rest : Bytes)
    → o ≤ length blob
    → drop o blob ≡ bs ++ rest
    → join_all txout_bytes outputs ≡ ok bs
    → txouts_loop (length outputs) blob o ≡ ok (outputs, o + length bs)
unfolding txouts_loop join_all
txouts_loop_back [] blob o bs rest le here p =
    let none_there : [] ≡ bs = cc p in
    let stays : o ≡ o + length {A = ℕ} [] = omega arith in
    rw (← none_there) (ap (λ (m : ℕ). ok ([], m)) stays)
txouts_loop_back ((value, script) ∷ outputs) blob o bs rest le here p =
    let (a, b, pa, pb, split) =
      join_parts (txout_bytes (value, script)) (join_all txout_bytes outputs) bs p in
    let at : drop o blob ≡ a ++ (b ++ rest) = here ∙ rw (← split, append_assoc a b rest) refl in
    let r = txout-ReadsTxout blob o value script a (b ++ rest) le at pa in
    let later = txouts_loop_back outputs blob (r.from + length script) b rest r.inside r.next pb in
    let size : length (a ++ b) ≡ length bs = ap length split in
    let stop : r.from + length script + length b ≡ o + length bs =
      omega (arith, r.stops, size, length-append a b) in
    rw (r.fits_value, r.is_value, r.is_length, r.fits_script, later, r.is_script)
      (ap (λ (m : ℕ). ok ((value, script) ∷ outputs, m)) stop)

not_empty : (outputs : List (ℕ × Bytes)) → 0 < length outputs → not (has_none outputs) ≡ true
not_empty [] h = absurd (omega arith)
not_empty (x ∷ outputs) h = refl

nothing_counted : (outputs : List (ℕ × Bytes)) → counted_txouts [] ≢ ok outputs
unfolding counted_txouts read_compact
nothing_counted outputs e = cc e

counted_back :
    (outputs : List (ℕ × Bytes)) (blob : Bytes)
    → 0 < length outputs
    → length outputs ≤ 1000
    → txouts_bytes outputs ≡ ok blob
    → counted_txouts blob ≡ ok outputs
unfolding counted_txouts
counted_back outputs blob some_there few p =
    let (c, b, pc, pb, split) =
      join_parts (pack_varint (length outputs)) (join_all txout_bytes outputs) blob p in
    let at0 : drop 0 blob ≡ c ++ b = sym split in
    let count = read_compact_back (length outputs) 0 blob c b (omega arith) at0 pc in
    let fit = known-fits blob c b 0 (omega arith) at0 in
    let at1 : drop (0 + length c) blob ≡ b ++ [] = drop-known blob c b 0 at0 ∙ sym (append-nil b) in
    let loop = txouts_loop_back outputs blob (0 + length c) b [] (omega (arith, fit)) at1 pb in
    let allowed : not (leb (length outputs) 0 || ltb 1000 (length outputs)) ≡ true = ground arith in
    let end : (0 + length c + length b == length blob) ≡ true = ground (arith, fit) in
    let filled : not (has_none outputs) ≡ true = not_empty outputs some_there in
    rw (count, allowed, loop, end, filled) refl

-- For at most 1000 outputs and at least one, each with a value below 2 ^ 64, parse_multi_txout reads
-- back from the layout (a compact size, and for each output its value in 8 bytes and its script behind
-- a compact size) the values and the scripts.
pub parse_multi_txout-txouts_bytes :
    (outputs : List (ℕ × Bytes)) (blob : Bytes)
    → 0 < length outputs
    → length outputs ≤ 1000
    → txouts_bytes outputs ≡ ok blob
    → parse_multi_txout blob ≡ some outputs
unfolding parse_multi_txout
parse_multi_txout-txouts_bytes outputs [] some_there few p =
    absurd (nothing_counted outputs (counted_back outputs [] some_there few p))
parse_multi_txout-txouts_bytes outputs (x ∷ blob) some_there few p =
    rw (counted_back outputs (x ∷ blob) some_there few p) refl

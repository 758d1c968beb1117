-- ===== src/Predict/Record.antt =====
-- The packed market record of electrumx/server/predict_index.py: what to_bytes packs, from_bytes
-- reads back.
use rxin_dexer.Prelude.{
  ℕ, zero, suc, ◌+◌, ◌≤◌, ◌≡◌, ◌≢◌, refl, ◌∙◌, sym, ap, Bool, true, false, not, Option, none, some,
  [], ◌∷◌, ◌++◌, ◌==◌, if◌then◌else◌, length, drop, take, arith, append-nil,
}
use rxin_dexer.Prelude.Result.{Result, ok, err, struct_error, ◌>>=◌, >>=-eq-ok}
use rxin_dexer.Util.{Bytes, slice, of_le, pack_le_uint, unpack_be_uint_from}
use rxin_dexer.Util.Ints.{pack_le_uint-value}
use rxin_dexer.Util.Slices.{slice-known, drop-known}
use rxin_dexer.Tx.{◌<>◌}
use rxin_dexer.Undo.{pack_be_uint}
use rxin_dexer.Undo.RoundTrip.{unpack-pack}
use rxin_dexer.Predict.{question_max_bytes}

pub record MarketRecord : Type 0 where
  pub market_ref : Bytes
  pub yes_ref : Bytes
  pub no_ref : Bytes
  pub expiry : ℕ
  pub grace : ℕ
  pub oracle : Bytes
  pub status : ℕ
  pub optimistic : Bool
  pub question : Option Bytes
  pub beacon_params_match : Bool
  pub create_txid : Bytes
  pub create_height : ℕ

-- `1 if b else 0`, and `bool(n)`.
abbrev pub flag : Bool → ℕ
flag true = 1
flag false = 0

abbrev pub to_bool : ℕ → Bool
to_bool n = not (n == 0)

-- `(self.question or '').encode('utf-8')[:QUESTION_MAX_BYTES]`
unfoldable pub question_bytes : Option Bytes → Bytes
question_bytes none = []
question_bytes (some q) = take question_max_bytes q

-- The fields of fixed width from the oracle's key on, and the question with its length.
unfoldable pub bytes_tail : MarketRecord → Result Bytes
bytes_tail r =
    ok r.oracle
    <> (ok r.create_txid
        <> (pack_be_uint 4 r.create_height
            <> (pack_le_uint 2 (length (question_bytes r.question))
                <> ok (question_bytes r.question))))

-- `struct.pack('<IIBBB', …)`, and what follows.
unfoldable pub bytes_middle : MarketRecord → Result Bytes
bytes_middle r =
    pack_le_uint 4 r.expiry
    <> (pack_le_uint 4 r.grace
        <> (pack_le_uint 1 r.status
            <> (pack_le_uint 1 (flag r.optimistic)
                <> (pack_le_uint 1 (flag r.beacon_params_match) <> bytes_tail r))))

unfoldable pub to_bytes : MarketRecord → Result Bytes
to_bytes r = ok r.market_ref <> (ok r.yes_ref <> (ok r.no_ref <> bytes_middle r))

-- `struct.unpack` of one field: the bytes must have its width.
unfoldable pub unpack_exact : ℕ → Bytes → Result ℕ
unpack_exact w b = if length b == w then ok (of_le b) else err struct_error

module _ (utf8_replace : Bytes → Bytes) where
  -- `b[o:o + qlen].decode('utf-8', errors='replace') if qlen else None`
  unfoldable pub read_question : Bytes → ℕ → Option Bytes
  read_question b qlen = if qlen == 0 then none else some (utf8_replace (slice b 190 (190 + qlen)))

  -- The offsets are those that the code's running offset has.
  unfoldable pub from_bytes : Bytes → Result MarketRecord
  from_bytes b = do
    expiry ← unpack_exact 4 (slice b 108 112)
    grace ← unpack_exact 4 (slice b 112 116)
    status ← unpack_exact 1 (slice b 116 117)
    opt ← unpack_exact 1 (slice b 117 118)
    bpm ← unpack_exact 1 (slice b 118 119)
    create_height ← unpack_be_uint_from 4 (slice b 184 188) 0
    qlen ← unpack_exact 2 (slice b 188 190)
    ok (record {
      market_ref = slice b 0 36;
      yes_ref = slice b 36 72;
      no_ref = slice b 72 108;
      expiry = expiry;
      grace = grace;
      oracle = slice b 119 152;
      status = status;
      optimistic = to_bool opt;
      question = read_question b qlen;
      beacon_params_match = to_bool bpm;
      create_txid = slice b 152 184;
      create_height = create_height;
    })

pub join_parts :
    (m k : Result Bytes) (bs : Bytes)
    → (m <> k) ≡ ok bs
    → (a b : Bytes) × (m ≡ ok a) × (k ≡ ok b) × (a ++ b ≡ bs)
join_parts m k bs e =
    let (a, p, e1) = >>=-eq-ok m (λ a. k >>= λ b. ok (a ++ b)) e in
    let (b, q, e2) = >>=-eq-ok k (λ b. ok (a ++ b)) e1 in (a, b, p, q, cc e2)

-- What a serializer wrote stands in the bytes from an offset on, to their end.
record Stands (s : Bytes) (o : ℕ) (m : Result Bytes) : Type 0 where
  rest : Bytes
  made : m ≡ ok rest
  here : drop o s ≡ rest

-- The next part is read where it stands, and the rest stands behind it.
bytes_step :
    (s x : Bytes) (o w : ℕ) (k : Result Bytes)
    → length x ≡ w
    → Stands s o (ok x <> k)
    → Stands s (o + w) k × (slice s o (o + w) ≡ x)
bytes_step s x o w k l at =
    let (a, b, p, q, split) = join_parts (ok x) k at.rest at.made in
    let same : x ≡ a = cc p in
    let here : drop o s ≡ x ++ b = at.here ∙ sym split ∙ ap (λ (t : Bytes). t ++ b) (sym same) in
    (
      record { rest = b; made = q; here = (rw l at (drop-known s x b o here)) },
      (rw l at (slice-known s x b o here)),
    )

uint_step :
    (s : Bytes) (o w n : ℕ) (k : Result Bytes)
    → Stands s o (pack_le_uint w n <> k)
    → Stands s (o + w) k × (unpack_exact w (slice s o (o + w)) ≡ ok n)
unfolding unpack_exact
uint_step s o w n k at =
    let (a, b, p, q, split) = join_parts (pack_le_uint w n) k at.rest at.made in
    let (l, v) = pack_le_uint-value w n a p in
    let here : drop o s ≡ a ++ b = at.here ∙ sym split in
    let cut : slice s o (o + w) ≡ a = rw l at (slice-known s a b o here) in
    let exact : (length a == w) ≡ true = ground arith in
    (
      record { rest = b; made = q; here = (rw l at (drop-known s a b o here)) },
      rw (cut, exact, v) refl,
    )

be_uint_step :
    (s : Bytes) (o w n : ℕ) (k : Result Bytes)
    → Stands s o (pack_be_uint w n <> k)
    → Stands s (o + w) k × (unpack_be_uint_from w (slice s o (o + w)) 0 ≡ ok n)
be_uint_step s o w n k at =
    let (a, b, p, q, split) = join_parts (pack_be_uint w n) k at.rest at.made in
    let (read, l) = unpack-pack w n 0 a a [] (omega arith) (sym (append-nil a)) p in
    let here : drop o s ≡ a ++ b = at.here ∙ sym split in
    let cut : slice s o (o + w) ≡ a = rw l at (slice-known s a b o here) in
    (record { rest = b; made = q; here = (rw l at (drop-known s a b o here)) }, rw cut read)

to_bool-flag : (b : Bool) → to_bool (flag b) ≡ b
to_bool-flag true = refl
to_bool-flag false = refl

-- The sizes that the fields have: references of 36 bytes, a key of 33, a hash of 32.
pub record HasSizes (r : MarketRecord) : Type 0 where
  pub market_ref : length r.market_ref ≡ 36
  pub yes_ref : length r.yes_ref ≡ 36
  pub no_ref : length r.no_ref ≡ 36
  pub oracle : length r.oracle ≡ 33
  pub create_txid : length r.create_txid ≡ 32

-- A question that is missing, or valid UTF-8 that is not empty and not too long.
abbrev pub IsQuestion : (Bytes → Bytes) → Option Bytes → Type 0
IsQuestion utf8_replace none = Unit
IsQuestion utf8_replace (some q) = (q ≢ []) × (length q ≤ 1024) × (utf8_replace q ≡ q)

take_short : (n : ℕ) (q : Bytes) → length q ≤ n → take n q ≡ q
take_short zero [] h = refl
take_short zero (x ∷ q) h = absurd (omega arith)
take_short (suc n) [] h = refl
take_short (suc n) (x ∷ q) h = ap (λ (t : Bytes). x ∷ t) (take_short n q (omega arith))

length-ne-zero : (q : Bytes) → q ≢ [] → (length q == 0) ≡ false
length-ne-zero [] ne = absurd (ne refl)
length-ne-zero (x ∷ q) ne = ground arith

read_question_back :
    (utf8_replace : Bytes → Bytes) (question : Option Bytes) (bs : Bytes)
    → IsQuestion utf8_replace question
    → drop 190 bs ≡ question_bytes question
    → read_question utf8_replace bs (length (question_bytes question)) ≡ question
unfolding read_question question_bytes
read_question_back utf8_replace none bs h e = refl
read_question_back utf8_replace (some q) bs (ne, l, same) e =
    let whole : take 1024 q ≡ q = take_short 1024 q l in
    let here : drop 190 bs ≡ q ++ [] = e ∙ whole ∙ sym (append-nil q) in
    let cut : slice bs 190 (190 + length q) ≡ q = slice-known bs q [] 190 here in
    rw (whole, length-ne-zero q ne, cut, same) refl

module _ (r : MarketRecord) (bs : Bytes) (h : HasSizes r) where
  refs_back :
      Stands bs 0 (to_bytes r)
      → Stands bs 108 (bytes_middle r)
        × (slice bs 0 36 ≡ r.market_ref)
        × (slice bs 36 72 ≡ r.yes_ref)
        × (slice bs 72 108 ≡ r.no_ref)
  unfolding to_bytes
  refs_back at =
      let (at1, s1) = bytes_step bs r.market_ref 0 36 _ h.market_ref at in
      let (at2, s2) = bytes_step bs r.yes_ref 36 36 _ h.yes_ref at1 in
      let (at3, s3) = bytes_step bs r.no_ref 72 36 _ h.no_ref at2 in (at3, s1, s2, s3)

  middle_back :
      Stands bs 108 (bytes_middle r)
      → Stands bs 119 (bytes_tail r)
        × (unpack_exact 4 (slice bs 108 112) ≡ ok r.expiry)
        × (unpack_exact 4 (slice bs 112 116) ≡ ok r.grace)
        × (unpack_exact 1 (slice bs 116 117) ≡ ok r.status)
        × (unpack_exact 1 (slice bs 117 118) ≡ ok (flag r.optimistic))
        × (unpack_exact 1 (slice bs 118 119) ≡ ok (flag r.beacon_params_match))
  unfolding bytes_middle
  middle_back at =
      let (at1, u1) = uint_step bs 108 4 r.expiry _ at in
      let (at2, u2) = uint_step bs 112 4 r.grace _ at1 in
      let (at3, u3) = uint_step bs 116 1 r.status _ at2 in
      let (at4, u4) = uint_step bs 117 1 (flag r.optimistic) _ at3 in
      let (at5, u5) = uint_step bs 118 1 (flag r.beacon_params_match) _ at4 in
      (at5, u1, u2, u3, u4, u5)

  tail_back :
      Stands bs 119 (bytes_tail r)
      → (drop 190 bs ≡ question_bytes r.question)
        × (slice bs 119 152 ≡ r.oracle)
        × (slice bs 152 184 ≡ r.create_txid)
        × (unpack_be_uint_from 4 (slice bs 184 188) 0 ≡ ok r.create_height)
        × (unpack_exact 2 (slice bs 188 190) ≡ ok (length (question_bytes r.question)))
  unfolding bytes_tail
  tail_back at =
      let (at1, s1) = bytes_step bs r.oracle 119 33 _ h.oracle at in
      let (at2, s2) = bytes_step bs r.create_txid 152 32 _ h.create_txid at1 in
      let (at3, u3) = be_uint_step bs 184 4 r.create_height _ at2 in
      let (at4, u4) =
        uint_step bs 188 2 (length (question_bytes r.question)) (ok (question_bytes r.question))
          at3 in
      let same : question_bytes r.question ≡ at4.rest = cc (at4.made) in
      (at4.here ∙ sym same, s1, s2, u3, u4)

-- What to_bytes packs for a record whose fields have their sizes and whose question, if it has one, is
-- valid UTF-8 of at most 1024 bytes and not empty, from_bytes reads back: the same record.
pub from_bytes-to_bytes :
    (utf8_replace : Bytes → Bytes) (r : MarketRecord) (bs : Bytes)
    → HasSizes r
    → IsQuestion utf8_replace r.question
    → to_bytes r ≡ ok bs
    → from_bytes utf8_replace bs ≡ ok r
unfolding from_bytes
from_bytes-to_bytes utf8_replace r bs h hq p =
    let (at1, s1, s2, s3) = refs_back r bs h (record { rest = bs; made = p; here = refl }) in
    let (at2, u1, u2, u3, u4, u5) = middle_back r bs h at1 in
    let (left, s4, s5, u6, u7) = tail_back r bs h at2 in
    rw
      (
        u1,
        u2,
        u3,
        u4,
        u5,
        u6,
        u7,
        s1,
        s2,
        s3,
        s4,
        s5,
        read_question_back utf8_replace r.question bs hq left,
        to_bool-flag r.optimistic,
        to_bool-flag r.beacon_params_match,
      )
      refl

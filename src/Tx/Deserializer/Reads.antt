-- ===== src/Tx/Deserializer/Reads.antt =====
-- Readers that undo a serialization: at a place where `bs` comes next, the reader returns the value
-- and moves the cursor behind `bs`, whatever follows. Readers in sequence read a concatenation.
use rxin_dexer.Prelude.{
  ℕ, ◌+◌, ◌≤◌, ◌≡◌, ap, ◌++◌, arith, length, drop, append_assoc, length-append, drop-add,
  drop-append, length-drop, ◌∙◌,
}
use rxin_dexer.Prelude.Result.{Result, ok}
use rxin_dexer.Util.{Bytes}
use rxin_dexer.Tx.Deserializer.{Deserializer, Read, ◌>>=◌, pure, advance}

pub record At (d : Deserializer) (bs : Bytes) : Type 0 where
  pub left : drop d.cursor d.binary ≡ bs
  pub within : d.cursor ≤ length d.binary

pub record Reads {A : Type 0} (read : Read A) (bs : Bytes) (a : A) : Type 0 where
  pub run :
      (d : Deserializer) (rest : Bytes) → At d (bs ++ rest) → read d ≡ ok (a, advance (length bs) d)

pub At-room : {d : Deserializer} {bs : Bytes} → At d bs → d.cursor + length bs ≡ length d.binary
At-room {d} {bs} h =
    let e : length (drop d.cursor d.binary) ≡ length bs = ap length h.left in
    let w : d.cursor ≤ length d.binary = h.within in
    omega (arith, e, w, length-drop d.cursor d.binary)

pub At-advance :
    {d : Deserializer} (bs : Bytes) {rest : Bytes}
    → At d (bs ++ rest)
    → At (advance (length bs) d) rest
At-advance {d} bs {rest} h = record {
  left = rw (drop-add, h.left) (drop-append bs rest);
  within = omega (arith, At-room h, length-append bs rest);
}

pub bind_run :
    {A B : Type 0} (m : Read A) (f : A → Read B) {a : A} {d d' : Deserializer}
    → m d ≡ ok (a, d')
    → (m >>= f) d ≡ f a d'
unfolding ◌>>=◌
bind_run m f e = rw e

advance_twice :
    {B : Type 0} (b : B) (d : Deserializer) (bs cs : Bytes)
    → ◌≡◌ {A = Result (B × Deserializer)}
        (ok (b, advance (length cs) (advance (length bs) d)))
        (ok (b, advance (length (bs ++ cs)) d))
advance_twice {B} b d bs cs =
    let e : d.cursor + length bs + length cs ≡ d.cursor + length (bs ++ cs) =
      omega (arith, length-append bs cs) in
    ap {B = Result (B × Deserializer)} (λ (c : ℕ). ok (b, record d { cursor = c })) e

pub Reads-bind :
    {A B : Type 0} (m : Read A) (f : A → Read B) (bs cs : Bytes) (a : A) (b : B)
    → Reads m bs a
    → Reads (f a) cs b
    → Reads (m >>= f) (bs ++ cs) b
Reads-bind m f bs cs a b hm hf = record {
  run = λ d rest h.
      let h' : At d (bs ++ (cs ++ rest)) = rw append_assoc at h in
      bind_run m f (hm.run d (cs ++ rest) h')
      ∙ hf.run (advance (length bs) d) rest (At-advance bs h')
      ∙ advance_twice b d bs cs;
}

-- A last step that returns a value and reads nothing.
pub Reads-last :
    {A B : Type 0} (m : Read A) (f : A → Read B) (bs : Bytes) (a : A) (b : B)
    → Reads m bs a
    → f a ≡ pure b
    → Reads (m >>= f) bs b
unfolding pure
Reads-last m f bs a b hm e = record {
  run =
      λ d rest h. bind_run m f (hm.run d rest h) ∙ ap (λ (r : Read _). r (advance (length bs) d)) e;
}

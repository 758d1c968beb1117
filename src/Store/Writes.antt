-- ===== src/Store/Writes.antt =====
-- What a batch leaves at a key.
use rxin_dexer.Prelude.{
  ◌≡◌, refl, ◌∙◌, ap, Bool, true, false, Option, List, [], ◌∷◌, ◌++◌, if◌then◌else◌, list_eq,
  list_eq→eq, All, Bool-cases, inl, inr, arith,
}
use rxin_dexer.Util.{Bytes}
use rxin_dexer.Store.{Db, Op, key_of, value_of, update, write, has_key}

if_same : {A : Type 0} (b : Bool) (a : A) → (if b then a else a) ≡ a
if_same true a = refl
if_same false a = refl

pub write-append : (a b : List Op) (db : Db) → write (a ++ b) db ≡ write b (write a db)
unfolding write
write-append [] b db = refl
write-append (op ∷ a) b db = write-append a b (update (key_of op) (value_of op) db)

-- A key that no operation of the batch names keeps its value.
pub write_other :
    (batch : List Op) (k : Bytes) (db : Db) → has_key k batch ≡ false → write batch db k ≡ db k
unfolding write has_key
write_other [] k db h = refl
write_other (op ∷ batch) k db h =
    let miss : list_eq (key_of op) k ≡ false = ground arith in
    let rest : has_key k batch ≡ false = ground arith in
    write_other batch k (update (key_of op) (value_of op) db) rest ∙ rw miss refl

-- The operation sets its key to what `old` has there.
abbrev pub Restores : Db → Op → Type 0
Restores old op = value_of op ≡ old (key_of op)

-- A batch whose operations all restore `old` gives each key that it names the old value.
pub write-Restores :
    (old : Db) (batch : List Op) (k : Bytes) (db : Db)
    → All (Restores old) batch
    → write batch db k ≡ (if has_key k batch then old k else db k)
unfolding write has_key
write-Restores old [] k db h = refl
write-Restores old (op ∷ batch) k db (same, h) =
    write-Restores old batch k (update (key_of op) (value_of op) db) h
    ∙ elim (Bool-cases (list_eq (key_of op) k)) [
      | inl e ↦
          let v : value_of op ≡ old k = same ∙ ap old (list_eq→eq (key_of op) k e) in
          rw (e, v) (if_same (has_key k batch) (old k))
      | inr e ↦ rw e refl
    ]

-- The operation, where it is at the key, sets it to the value.
abbrev pub AgreesAt : Bytes → Option Bytes → Op → Type 0
AgreesAt k value op = key_of op ≡ k → value_of op ≡ value

-- A batch whose operations at a key all set it to one value.
pub write-AgreesAt :
    (batch : List Op) (k : Bytes) (value : Option Bytes) (db : Db)
    → All (AgreesAt k value) batch
    → write batch db k ≡ (if has_key k batch then value else db k)
unfolding write has_key
write-AgreesAt [] k value db h = refl
write-AgreesAt (op ∷ batch) k value db (same, h) =
    write-AgreesAt batch k value (update (key_of op) (value_of op) db) h
    ∙ elim (Bool-cases (list_eq (key_of op) k)) [
      | inl e ↦
          let v : value_of op ≡ value = same (list_eq→eq (key_of op) k e) in
          rw (e, v) (if_same (has_key k batch) value)
      | inr e ↦ rw e refl
    ]

-- What a batch leaves at a key depends on the value there alone.
pub write_at :
    (batch : List Op) (k : Bytes) (db db' : Db)
    → db k ≡ db' k
    → write batch db k ≡ write batch db' k
unfolding write
write_at [] k db db' e = e
write_at (op ∷ batch) k db db' e =
    write_at batch k (update (key_of op) (value_of op) db) (update (key_of op) (value_of op) db')
      (elim (Bool-cases (list_eq (key_of op) k)) [
        | inl same ↦ rw same refl
        | inr differ ↦ rw differ e
      ])

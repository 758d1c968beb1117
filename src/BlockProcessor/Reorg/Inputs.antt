-- ===== src/BlockProcessor/Reorg/Inputs.antt =====
-- The loop of `_backup_txs` over the inputs of a transaction, on the map of unspent outputs.
use mathlib.Core.Path.{subst}
use rxin_dexer.Prelude.{
  ℕ, ◌+◌, ◌-◌, ◌<◌, ◌^◌, ◌≡◌, refl, sym, ap, ◌∙◌, true, false, some, List, [], ◌∷◌, ◌++◌, inl, inr,
  arith, le→ltb, length, drop, length-append, append_assoc, drop-append, Bool-cases, take,
}
use rxin_dexer.Prelude.Result.{Result, ok, ◌>>=◌}
use rxin_dexer.Util.{Bytes, to_le, slice}
use rxin_dexer.Util.Slices.{slice-known}
use rxin_dexer.Tx.{TxInput, is_generation}
use rxin_dexer.Database.{join}
use rxin_dexer.Store.Cache.{set}
use rxin_dexer.BlockProcessor.{Env, hashx_len}
use rxin_dexer.BlockProcessor.Backup.{Backed, restore_input, restore_inputs}
use rxin_dexer.BlockProcessor.View.{View, erase, Holds}
use rxin_dexer.BlockProcessor.View.Laws.{set-Holds}
use rxin_dexer.BlockProcessor.Connect.{
  spent_keys, erase_all, given_up, or_no_value, IsSized, Live, InputsFit,
}
use rxin_dexer.BlockProcessor.Connect.Maps.{erase_at, insert-erase, erase-IsSized}
use rxin_dexer.BlockProcessor.Refine.{packs}
use rxin_dexer.BlockProcessor.Reorg.Refs.{IsFlushed}

-- What restoring leaves, with the position in the undo information.
abbrev pub Restored : Env → Result (ℕ × Backed) → ℕ → View → Type 0
Restored env r n view =
    (st : Backed) × (r ≡ ok (n, st)) × Holds env st.utxos view × IsFlushed st.ref_caches

pub bind_ok :
    {A : Type 0} {B : Type 0} (r : Result A) (next : A → Result B) (a : A)
    → r ≡ ok a
    → (r >>= next) ≡ next a
bind_ok r next a e = rw e refl

restore_input-Holds :
    (env : Env) (undo_info before v after : Bytes) (txin : TxInput) (st : Backed) (view : View)
    → is_generation txin ≡ false
    → txin.prev_idx < 256 ^ 4
    → length v ≡ 56
    → view (txin.prev_hash ++ to_le 4 txin.prev_idx) ≡ some v
    → undo_info ≡ before ++ (v ++ after)
    → Holds env st.utxos (erase (txin.prev_hash ++ to_le 4 txin.prev_idx) view)
    → IsFlushed st.ref_caches
    → Restored env (restore_input undo_info txin (length before + 56, st)) (length before) view
unfolding restore_input
restore_input-Holds env undo_info before v after txin st view spends small l there whole holds
      flushed =
    let k : Bytes = txin.prev_hash ++ to_le 4 txin.prev_idx in
    let n : length before + 56 - 56 ≡ length before = omega arith in
    let item : slice undo_info (length before) (length before + 56) ≡ v = rw l at (
      slice-known undo_info v after (length before)
        (ap (drop (length before)) whole ∙ drop-append before (v ++ after))) in
    let restored : Backed = record st {
      utxos = record st.utxos { utxo_cache = set k v st.utxos.utxo_cache };
      touched = st.touched ++ (take hashx_len v ∷ []);
    } in
    (
      restored,
      rw
          (
            spends,
            le→ltb (length before + 56) 56 (omega arith),
            packs 4 txin.prev_idx small,
            n,
            item,
          )
          refl,
      subst (Holds env restored.utxos) (insert-erase k v view there)
          (set-Holds env st.utxos (erase k view) k v holds (erase_at k view)),
      flushed,
    )

generation_kept :
    (undo_info : Bytes) (txin : TxInput) (at : ℕ × Backed)
    → is_generation txin ≡ true
    → restore_input undo_info txin at ≡ ok at
unfolding restore_input
generation_kept undo_info txin (n, st) coinbase = rw coinbase refl

-- The outputs that a transaction spent come back, from the entries that end at the position.
pub restore_inputs-Holds :
    (env : Env) (undo_info before after : Bytes) (inputs : List TxInput) (st : Backed) (view : View)
    (n : ℕ)
    → InputsFit inputs
    → IsSized view
    → Live view (spent_keys inputs)
    → undo_info ≡ before ++ (join (given_up (spent_keys inputs) view) ++ after)
    → n ≡ length before + length (join (given_up (spent_keys inputs) view))
    → Holds env st.utxos (erase_all (spent_keys inputs) view)
    → IsFlushed st.ref_caches
    → Restored env (restore_inputs undo_info inputs (n, st)) (length before) view
unfolding restore_inputs spent_keys given_up or_no_value erase_all join
restore_inputs-Holds env undo_info before after [] st view n fits sized live whole at holds
      flushed =
    let e : n ≡ length before = omega arith in (st, rw e refl, holds, flushed)
restore_inputs-Holds env undo_info before after (txin ∷ inputs) st view n (l, small, fits) sized
      live whole at holds flushed =
    elim (Bool-cases (is_generation txin)) [
      | inl coinbase ↦
          let (st', ran, held, flushed') =
            restore_inputs-Holds env undo_info before after inputs st view n fits sized
              (rw coinbase at live) (rw coinbase at whole) (rw coinbase at at)
              (rw coinbase at holds) flushed in
          (
            st',
            bind_ok (restore_inputs undo_info inputs (n, st)) (restore_input undo_info txin) _ ran
                ∙ generation_kept undo_info txin (length before, st') coinbase,
            held,
            flushed',
          )
      | inr spends ↦
          let ((v, e), rest) = rw spends at live in
          spending v spends e (rw (spends, e) at whole) (rw (spends, e) at at) (rw spends at holds)
            (λ m whole' m_at holds'.
              restore_inputs-Holds env undo_info (before ++ v) after inputs st
                (erase (txin.prev_hash ++ to_le 4 txin.prev_idx) view) m fits
                (erase-IsSized (txin.prev_hash ++ to_le 4 txin.prev_idx) view sized) rest whole'
                m_at holds' flushed)
    ]
  where
    spending :
        (v : Bytes)
        → is_generation txin ≡ false
        → view (txin.prev_hash ++ to_le 4 txin.prev_idx) ≡ some v
        → undo_info
          ≡ before
            ++ ((v
                  ++ join (
                      given_up
                        (spent_keys inputs)
                        (erase (txin.prev_hash ++ to_le 4 txin.prev_idx) view)))
                ++ after)
        → n
          ≡ length before
            + length (
                v
                ++ join (
                    given_up
                      (spent_keys inputs)
                      (erase (txin.prev_hash ++ to_le 4 txin.prev_idx) view)))
        → Holds env st.utxos
            (erase_all (spent_keys inputs) (erase (txin.prev_hash ++ to_le 4 txin.prev_idx) view))
        → ((m : ℕ)
            → undo_info
              ≡ (before ++ v)
                ++ (join (
                      given_up
                        (spent_keys inputs)
                        (erase (txin.prev_hash ++ to_le 4 txin.prev_idx) view))
                    ++ after)
            → m
              ≡ length (before ++ v)
                + length (
                    join (
                      given_up
                        (spent_keys inputs)
                        (erase (txin.prev_hash ++ to_le 4 txin.prev_idx) view)))
            → Holds env st.utxos (
                erase_all
                  (spent_keys inputs)
                  (erase (txin.prev_hash ++ to_le 4 txin.prev_idx) view))
            → Restored env
                (restore_inputs undo_info inputs (m, st))
                (length (before ++ v))
                (erase (txin.prev_hash ++ to_le 4 txin.prev_idx) view))
        → Restored env
            (restore_inputs undo_info inputs (n, st) >>= restore_input undo_info txin)
            (length before)
            view
    spending v spends e whole at holds later =
        let k : Bytes = txin.prev_hash ++ to_le 4 txin.prev_idx in
        let full : length v ≡ 56 = sized k v e in
        let more : Bytes = join (given_up (spent_keys inputs) (erase k view)) in
        let one : undo_info ≡ before ++ (v ++ (more ++ after)) =
          whole ∙ ap (λ (x : Bytes). before ++ x) (append_assoc v more after) in
        let (st', ran, held, flushed') =
          later n (one ∙ sym (append_assoc before v (more ++ after)))
            (omega (arith, at, length-append v more, length-append before v)) holds in
        let here : length (before ++ v) ≡ length before + 56 =
          omega (arith, length-append before v) in
        let ran' : restore_inputs undo_info inputs (n, st) ≡ ok (length before + 56, st') =
          ran ∙ ap (λ (m : ℕ). ok (m, st')) here in
        let (st'', last, held', flushed'') =
          restore_input-Holds env undo_info before v (more ++ after) txin st' view spends small full
            e one held flushed' in
        (
          st'',
          bind_ok (restore_inputs undo_info inputs (n, st)) (restore_input undo_info txin) _ ran'
              ∙ last,
          held',
          flushed'',
        )

-- ===== src/Chain/Builder.antt =====
-- chain/builder.go. The functions of the transactions of a batch run at once in Go, those that
-- conflict in the order of the batch, and each of them settles its result under one lock; here they
-- run one after the other, in the order in which they settle. The batches that the mempool streams
-- in the time that there is, what is repeated in them, the clock and the hash are given. A view
-- stands for the changes that it is made of. Metrics, prefetching and the encoding are left out.
use hypersdk.Base.{
  ℕ, zero, suc, ◌+◌, Bool, true, false, List, [], ◌∷◌, ◌++◌, Option, none, some, Bytes, Bytes_eq,
  GoMap, GoSet, empty_map, assign, map, ltb, leb, ◌||◌, if◌then◌else◌, Outcome, ok, err, ◌>>=◌,
}
use hypersdk.Keys.{num_chunks}
use hypersdk.State.Scope.{Keys, keys_has}
use hypersdk.Math.Checked.{CheckedMath}
use hypersdk.Fees.Dimensions.{Dimensions}
use hypersdk.Fees.Manager.{consume, last_consumed}
use hypersdk.TState.View.{
  TState, View, Error, not_found, new, new_view, get_value, commit, read_through,
}
use hypersdk.Chain.Transaction.{
  Transaction, BalanceHandler, Rules, Result, TxError, state_keys, pre_execute, execute,
}
use hypersdk.Chain.Processor.{no_txs}

-- The errors of the function of a transaction.
pub data TaskError : Type 0 where
  block_full invalid_key_value : TaskError
  fetch_failed : Error → TaskError
  execute_failed : TxError → TaskError

-- What the loops of `BuildBlock` change. The cache has what was fetched, `none` where nothing exists.
pub record Packing : Type 0 where
  pub ts : TState
  pub manager : Bytes
  pub cache : GoMap Bytes (Option Bytes)
  pub packed : List Transaction
  pub results : List Result
  pub restorable : List Transaction
  pub stop : Bool

-- The value of a dimension, of which there are five.
abbrev pub dimension : Dimensions → ℕ → ℕ
dimension [] d = 0
dimension (x ∷ xs) zero = x
dimension (x ∷ xs) (suc d) = dimension xs d

-- What the parent's state holds, as the cache keeps it.
abbrev pub to_cache : Outcome Error Bytes → Outcome TaskError (Option Bytes)
to_cache (ok v) = elim (num_chunks v) [ none ↦ err invalid_key_value | some n ↦ ok (some v) ]
to_cache (err not_found) = ok none
to_cache (err e) = err (fetch_failed e)

-- A key from the cache, or else from disk.
unfoldable pub fetch_key :
    (Bytes → Outcome Error Bytes)
    → GoMap Bytes (Option Bytes)
    → Bytes
    → Outcome TaskError (Option Bytes)
fetch_key im cache k = elim (cache k) [ some d ↦ ok d | none ↦ to_cache (im k) ]

unfoldable pub fetch_keys :
    (Bytes → Outcome Error Bytes)
    → GoMap Bytes (Option Bytes)
    → Keys
    → Outcome TaskError (GoMap Bytes (Option Bytes))
fetch_keys im cache [] = ok empty_map
fetch_keys im cache ((k, p) ∷ ks) = do
  d ← fetch_key im cache k
  rest ← fetch_keys im cache ks
  ok (assign rest k d)

-- The storage of the view: what was fetched and exists.
unfoldable pub stored : GoMap Bytes (Option Bytes) → Bytes → Outcome Error Bytes
stored found k = read_through (found k) (err not_found)

-- The cache with what was fetched.
unfoldable pub cache_all :
    GoMap Bytes (Option Bytes) → GoMap Bytes (Option Bytes) → GoMap Bytes (Option Bytes)
cache_all found cache k = elim (found k) [ some d ↦ some d | none ↦ cache k ]

unfoldable pub restore : Packing → List Transaction → Packing
restore p txs = record p { restorable = p.restorable ++ txs }

-- A batch of the mempool, and the indices of those repeated, or `none` where the window of the parent is
-- not known.
pub record Batch : Type 0 where
  pub txs : List Transaction
  pub repeats : Option (GoSet ℕ)

-- The transactions of a batch from the `i`th on that are run, with their keys, and those that do not fit:
-- `total` is the size so far.
unfoldable pub choose :
    (Bytes → Bytes)
    → BalanceHandler
    → ℕ
    → GoSet ℕ
    → ℕ
    → ℕ
    → List Transaction
    → List (Transaction × Keys) × List Transaction
choose to_id bh limit repeated i total [] = ([], [])
choose to_id bh limit repeated i total (tx ∷ txs) =
    let (run, left) = choose to_id bh limit repeated (suc i) (total + tx.size) txs in
    if ltb limit (total + tx.size)
    then ([], tx ∷ txs)
    else if repeated i
    then (run, left)
    else elim (state_keys to_id tx bh) [ err e ↦ (run, left) | ok ks ↦ ((tx, ks) ∷ run, left) ]

-- A full block ends the packing, and another error the building.
abbrev pub end_packing : Packing → TaskError → Packing × Option TaskError
end_packing p block_full = (p, none)
end_packing p f = (p, some f)

module _ (to_id : Bytes → Bytes) ⦃m : CheckedMath⦄ (bh : BalanceHandler) (r : Rules)
    (im : Bytes → Outcome Error Bytes) (t : ℕ) where
  -- The end of the function of a transaction: its result is in the block if its units fit.
  unfoldable pub settle_result : Packing → Transaction → View → Result → Packing × Option TaskError
  unfolding restore
  settle_result p tx w result =
      let (charged, fits, d) = consume p.manager result.units r.max_block_units in
      let q = record p { manager = charged } in
      if fits
      then (
        record q {
          ts = commit w;
          packed = p.packed ++ tx ∷ [];
          results = p.results ++ result ∷ [];
        },
        none,
      )
      else if leb (dimension r.fee_rules.window_target_units d) (last_consumed charged d)
      then (record (restore q (tx ∷ [])) { stop = true }, some block_full)
      else (restore q (tx ∷ []), none)

  -- The function of a transaction.
  unfoldable pub pack_tx : Packing → Transaction → Keys → Packing × Option TaskError
  unfolding settle_result restore cache_all
  pack_tx p tx ks = elim (fetch_keys im p.cache ks) [
    | err e ↦ (p, some e)
    | ok found ↦
        let q = record p { cache = cache_all found p.cache } in
        let v = new_view p.ts (keys_has ks) (stored found) in
        elim (pre_execute to_id tx p.manager bh r (get_value v) t) [
          | err e ↦ (q, none)
          | ok _ ↦
              let (w, o) = execute to_id tx p.manager bh r v t in
              elim o [
                | err e ↦ (restore q (tx ∷ []), some (execute_failed e))
                | ok result ↦ settle_result q tx w result
              ]
        ]
  ]

  -- The functions of a batch; after an error those left are still pending, and restored.
  unfoldable pub pack_all : Packing → List (Transaction × Keys) → Packing × Option TaskError
  unfolding pack_tx restore
  pack_all p [] = (p, none)
  pack_all p ((tx, ks) ∷ txs) =
      let (q, e) = pack_tx p tx ks in
      elim e [ none ↦ pack_all q txs | some f ↦ (restore q (map (λ x. x.0) txs), some f) ]

  -- The loop over the batches. It ends when there is none, when the window is not known, and on an
  -- error, which that of a full block is not for the caller.
  unfoldable pub pack_batches : ℕ → Packing → List Batch → Packing × Option TaskError
  unfolding choose pack_all restore
  pack_batches limit p [] = (p, none)
  pack_batches limit p (b ∷ bs) = elim (p.stop || no_txs b.txs) [
    | true ↦ (p, none)
    | false ↦ elim b.repeats [
      | none ↦ (restore p b.txs, none)
      | some repeated ↦
          let (run, left) = choose to_id bh limit repeated 0 0 b.txs in
          let (q, e) = pack_all (restore p left) run in
          elim e [ none ↦ pack_batches limit q bs | some f ↦ end_packing q f ]
    ]
  ]

abbrev pub empty_packing : Bytes → Packing
empty_packing manager = record {
  ts = new;
  manager = manager;
  cache = empty_map;
  packed = [];
  results = [];
  restorable = [];
  stop = false;
}

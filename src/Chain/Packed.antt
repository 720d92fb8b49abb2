-- ===== src/Chain/Packed.antt =====
-- chain/builder.go: the loops keep what is packed to what the processor would execute.
use hypersdk.Base.{
  ℕ, suc, ◌+◌, ◌≡◌, refl, ap, ◌∙◌, sym, List, [], ◌∷◌, Option, Bytes, GoMap, GoSet, length, ltb,
  Outcome, ok, err, Outcome-cases, Option-cases, Bool-cases, inl, inr, ◌||◌,
}
use hypersdk.Binary.{AllUint64}
use hypersdk.State.Scope.{Keys, keys_has, without_permissions}
use hypersdk.Math.Checked.{CheckedMath}
use hypersdk.Fees.Dimensions.{Dimensions}
use hypersdk.Fees.Manager.{fee}
use hypersdk.Fees.Manager.Layout.{Dim, AllDim, layout}
use hypersdk.TState.View.{Error, not_found, new_view, get_value, commit}
use hypersdk.Chain.Transaction.{
  Transaction, BalanceHandler, Rules, Result, state_keys, units, pre_execute, execute,
}
use hypersdk.Chain.Processor.{
  fetched, Block, consume_units, execute_tx, execute_each, execute_txs, no_txs,
}
use hypersdk.Chain.Execution.{execute-charged}
use hypersdk.Chain.Builder.{
  Packing, TaskError, block_full, invalid_key_value, fetch_failed, execute_failed, end_packing,
  Batch, fetch_keys, stored, cache_all, restore, choose, pack_tx, pack_all, pack_batches,
  empty_packing,
}
use hypersdk.Chain.Fetching.{
  Fetches, fetch_keys-Fetches, all_readable-found, stored-fetched, cache_all-IsCache,
}
use hypersdk.Chain.Replaying.{pre_execute-fee, execute-fee, execute_tx-done}
use hypersdk.Chain.Packing.{
  HasUint64Units, AllUint64Units, BatchesUint64, HasFees, IsPacked, IsPacked-HasFees, IsPacked-rest,
  restore-IsPacked, settle_result-IsPacked, units-length,
}

module _ (to_id : Bytes → Bytes) ⦃m : CheckedMath⦄ (bh : BalanceHandler) (r : Rules)
    (im : Bytes → Outcome Error Bytes) (t time : ℕ) (dims : List Dim) (valid : AllDim dims)
    (five : length dims ≡ 5) (limits : length r.max_block_units ≡ 5)
    (small : AllUint64 r.max_block_units) (no_empty : im [] ≡ err not_found) where
  abbrev Good : Packing → Type 0
  Good p = IsPacked to_id bh r im t time dims valid five limits small p

  abbrev Fees : Bytes → Type 0
  Fees manager = HasFees to_id bh r im t time dims valid five limits small manager

  -- The processor has the same result, at the prices of the start.
  replay :
      (p : Packing) (tx : Transaction) (ks : Keys) (found : GoMap Bytes (Option Bytes))
      (result : Result)
      → Good p
      → state_keys to_id tx bh ≡ ok ks
      → HasUint64Units to_id bh r tx
      → Fetches im ks found
      → pre_execute to_id tx p.manager bh r
          (get_value (new_view p.ts (keys_has ks) (stored found)))
          t
        ≡ ok tt
      → (execute to_id tx p.manager bh r (new_view p.ts (keys_has ks) (stored found)) t).1
        ≡ ok result
      → (manager : Bytes) → Fees manager
      → execute_tx to_id bh r manager im t p.ts tx
        ≡ ok (
          commit (execute to_id tx p.manager bh r (new_view p.ts (keys_has ks) (stored found)) t).0,
          result,
        )
  replay p tx ks found result h a b g d x manager hf =
      let same_fees : (u : Dimensions)
          → units to_id tx bh r ≡ ok u
          → fee manager u ≡ fee p.manager u =
        λ u q.
          hf u (b u q) (units-length to_id bh r tx u q)
          ∙ sym (
              IsPacked-HasFees to_id bh r im t time dims valid five limits small p h u (b u q)
                (units-length to_id bh r tx u q)) in
      let same = stored-fetched im no_empty ks found g in
      execute_tx-done to_id bh r im t manager p.ts tx ks
        (execute to_id tx p.manager bh r (new_view p.ts (keys_has ks) (stored found)) t).0 result a
        (all_readable-found im no_empty ks found g)
        (pre_execute-fee to_id bh r im t tx manager p.manager same_fees
            (get_value (new_view p.ts (keys_has ks) (fetched im (without_permissions ks))))
          ∙ ap
              (λ f.
                pre_execute to_id tx p.manager bh r (get_value (new_view p.ts (keys_has ks) f)) t)
              (sym same)
          ∙ d)
        (execute-fee to_id bh r im t tx manager p.manager same_fees
            (new_view p.ts (keys_has ks) (fetched im (without_permissions ks)))
          ∙ ap (λ f. execute to_id tx p.manager bh r (new_view p.ts (keys_has ks) f) t) (sym same)
          ∙ ap
              (λ o. (
                (execute to_id tx p.manager bh r (new_view p.ts (keys_has ks) (stored found)) t).0,
                o,
              ))
              x)

  pack_tx-IsPacked :
      (p : Packing) (tx : Transaction) (ks : Keys)
      → Good p
      → state_keys to_id tx bh ≡ ok ks
      → HasUint64Units to_id bh r tx
      → Good (pack_tx to_id bh r im t p tx ks).0
  unfolding pack_tx
  pack_tx-IsPacked p tx ks h a b = elim (Outcome-cases (fetch_keys im p.cache ks)) [
    | inr (e, f) ↦ rw (f, pack_tx) h
    | inl (found, f) ↦
        let g = fetch_keys-Fetches im p.cache ks found h.right_cache f in
        let c = cache_all-IsCache im found p.cache g.is_cache h.right_cache in
        let q : Packing = record p { cache = cache_all found p.cache } in
        let h' : Good q =
          IsPacked-rest to_id bh r im t time dims valid five limits small p p.manager
            (cache_all found p.cache) p.restorable p.stop refl c h in
        let v = new_view p.ts (keys_has ks) (stored found) in
        elim (Outcome-cases (pre_execute to_id tx p.manager bh r (get_value v) t)) [
          | inr (e, d) ↦ rw (f, d, pack_tx) h'
          | inl (done, d) ↦ elim (Outcome-cases (execute to_id tx p.manager bh r v t).1) [
            | inr (e, x) ↦
                rw (f, d, x, pack_tx)
                  (restore-IsPacked to_id bh r im t time dims valid five limits small q (tx ∷ [])
                    h')
            | inl (result, x) ↦
                rw (f, d, x, pack_tx)
                  (settle_result-IsPacked to_id bh r im t time dims valid five limits small q tx ks
                    (execute to_id tx p.manager bh r v t).0 result h' a
                    (execute-charged to_id tx p.manager bh r v t result x).0
                    (b result.units (execute-charged to_id tx p.manager bh r v t result x).0)
                    (replay p tx ks found result h a b g d x))
          ]
        ]
  ]

  -- What is run has the keys of `StateKeys`, and units that are uint64 values.
  abbrev Runnable : List (Transaction × Keys) → Type 0
  Runnable [] = Unit
  Runnable ((tx, ks) ∷ txs) =
      (state_keys to_id tx bh ≡ ok ks) × HasUint64Units to_id bh r tx × Runnable txs

  pack_all-IsPacked :
      (p : Packing) (txs : List (Transaction × Keys))
      → Good p
      → Runnable txs
      → Good (pack_all to_id bh r im t p txs).0
  unfolding pack_all
  pack_all-IsPacked p [] h a = h
  pack_all-IsPacked p ((tx, ks) ∷ txs) h a =
      let next = pack_tx-IsPacked p tx ks h a.0 a.1 in
      elim (Option-cases (pack_tx to_id bh r im t p tx ks).1) [
        | inl e ↦
            rw (e, pack_all) (pack_all-IsPacked (pack_tx to_id bh r im t p tx ks).0 txs next a.2)
        | inr (f, e) ↦
            rw (e, pack_all)
              (restore-IsPacked to_id bh r im t time dims valid five limits small _ _ next)
      ]

  choose-Runnable :
      (limit : ℕ) (repeated : GoSet ℕ) (i total : ℕ) (txs : List Transaction)
      → AllUint64Units to_id bh r txs
      → Runnable (choose to_id bh limit repeated i total txs).0
  unfolding choose
  choose-Runnable limit repeated i total [] h = tt
  choose-Runnable limit repeated i total (tx ∷ txs) h =
      let later = choose-Runnable limit repeated (suc i) (total + tx.size) txs h.1 in
      elim (Bool-cases (ltb limit (total + tx.size))) [
        | inl e ↦ rw (e, choose) tt
        | inr e ↦ elim (Bool-cases (repeated i)) [
          | inl q ↦ rw (e, q, choose) later
          | inr q ↦ elim (Outcome-cases (state_keys to_id tx bh)) [
            | inl (ks, k) ↦ rw (e, q, k, choose) (k, h.0, later)
            | inr (f, k) ↦ rw (e, q, k, choose) later
          ]
        ]
      ]

  end_packing-IsPacked : (f : TaskError) (p : Packing) → Good p → Good (end_packing p f).0
  end_packing-IsPacked block_full p h = h
  end_packing-IsPacked invalid_key_value p h = h
  end_packing-IsPacked (fetch_failed e) p h = h
  end_packing-IsPacked (execute_failed e) p h = h

  pub pack_batches-IsPacked :
      (limit : ℕ) (p : Packing) (bs : List Batch)
      → Good p
      → BatchesUint64 to_id bh r bs
      → Good (pack_batches to_id bh r im t limit p bs).0
  unfolding pack_batches
  pack_batches-IsPacked limit p [] h a = h
  pack_batches-IsPacked limit p (b ∷ bs) h a = elim (Bool-cases (p.stop || no_txs b.txs)) [
    | inl e ↦ rw (e, pack_batches) h
    | inr e ↦ elim (Option-cases b.repeats) [
      | inl q ↦
          rw (e, q, pack_batches)
            (restore-IsPacked to_id bh r im t time dims valid five limits small p b.txs h)
      | inr (repeated, q) ↦
          let chosen = choose to_id bh limit repeated 0 0 b.txs in
          let start = restore p chosen.1 in
          let next =
            pack_all-IsPacked start chosen.0
              (restore-IsPacked to_id bh r im t time dims valid five limits small p chosen.1 h)
              (choose-Runnable limit repeated 0 0 b.txs a.0) in
          elim (Option-cases (pack_all to_id bh r im t start chosen.0).1) [
            | inl f ↦
                rw (e, q, f, pack_batches)
                  (pack_batches-IsPacked limit (pack_all to_id bh r im t start chosen.0).0 bs next
                    a.1)
            | inr (f, c) ↦
                rw (e, q, c, pack_batches)
                  (end_packing-IsPacked f (pack_all to_id bh r im t start chosen.0).0 next)
          ]
    ]
  ]

  pub empty_packing-IsPacked : Good (empty_packing (layout time dims))
  unfolding consume_units execute_each
  empty_packing-IsPacked = record {
    dims_now = dims;
    laid_out = refl;
    still_valid = valid;
    still_five = five;
    same_prices = refl;
    consumed = refl;
    executed = λ manager f. refl;
    right_cache = λ k d e. cc;
  }

  -- What is packed of any batches, with units that are uint64 values, is what the processor executes:
  -- from the same array of the fee manager it has the same changes, results and array.
  pub execute_txs-packed :
      (limit : ℕ) (bs : List Batch) (b : Block)
      → BatchesUint64 to_id bh r bs
      → b.timestamp ≡ t
      → b.txs ≡ (pack_batches to_id bh r im t limit (empty_packing (layout time dims)) bs).0.packed
      → execute_txs to_id bh r (layout time dims) im b ≡ (
          let p = (pack_batches to_id bh r im t limit (empty_packing (layout time dims)) bs).0 in
          ok (p.ts, p.results, p.manager))
  unfolding execute_txs
  execute_txs-packed limit bs b u e q =
      let p = (pack_batches to_id bh r im t limit (empty_packing (layout time dims)) bs).0 in
      let h =
        pack_batches-IsPacked limit (empty_packing (layout time dims)) bs empty_packing-IsPacked
          u in
      let same =
        h.executed p.manager
          (IsPacked-HasFees to_id bh r im t time dims valid five limits small p h) in
      rw (q, e, h.consumed, same) refl

-- ===== src/Chain/Restored.antt =====
-- chain/builder.go: a transaction that is streamed goes into the block or back to the mempool, not both.
use hypersdk.Base.{
  ℕ, suc, ◌+◌, ◌≤◌, ◌≡◌, refl, Bool, List, [], ◌∷◌, ◌++◌, Bytes, GoSet, map, ltb, leb, ◌||◌, ◌&&◌,
  Outcome, ok, err, Outcome-cases, Option-cases, Bool-cases, inl, inr, arith, if◌then◌else◌,
}
use hypersdk.State.Scope.{Keys, keys_has}
use hypersdk.Math.Checked.{CheckedMath}
use hypersdk.Fees.Manager.{consume, last_consumed, new_manager, compute_next}
use hypersdk.TState.View.{View, Error, new_view, get_value}
use hypersdk.Chain.Transaction.{
  Transaction, BalanceHandler, Rules, Result, state_keys, pre_execute, execute,
}
use hypersdk.Chain.Processor.{
  Block, ParentView, OutputBlock, next_height, is_before, write_block_context, no_txs, fee_key,
}
use hypersdk.Chain.Builder.{
  Batch, Packing, TaskError, block_full, invalid_key_value, fetch_failed, execute_failed,
  empty_packing, fetch_keys, stored, restore, choose, settle_result, pack_tx, pack_all,
  pack_batches, end_packing, dimension, cache_all,
}
use hypersdk.Chain.Build.{
  Builder, BuildError, finish_block, build_block, metadata_keys, metadata_storage,
}

-- The transactions of a block, if there is one.
abbrev pub in_block : Outcome BuildError OutputBlock → List Transaction
in_block (ok out) = out.block.txs
in_block (err e) = []

module _ (test : Transaction → Bool) where
  -- How many transactions pass a test.
  abbrev pub count_of : List Transaction → ℕ
  count_of [] = 0
  count_of (tx ∷ txs) = (if test tx then 1 else 0) + count_of txs

  abbrev pub count_all : List Batch → ℕ
  count_all [] = 0
  count_all (b ∷ bs) = count_of b.txs + count_all bs

  abbrev held : Packing → ℕ
  held p = count_of p.packed + count_of p.restorable

  count_of-append : (xs ys : List Transaction) → count_of (xs ++ ys) ≡ count_of xs + count_of ys
  count_of-append [] ys = omega arith
  count_of-append (x ∷ xs) ys = omega (arith, count_of-append xs ys)

  restore-held :
      (p : Packing) (txs : List Transaction) → held (restore p txs) ≡ held p + count_of txs
  unfolding restore
  restore-held p txs = omega (arith, count_of-append p.restorable txs)

  module _ (to_id : Bytes → Bytes) ⦃m : CheckedMath⦄ (bh : BalanceHandler) (r : Rules)
      (im : Bytes → Outcome Error Bytes) (t : ℕ) where
    settle_result-held :
        (p : Packing) (tx : Transaction) (w : View) (result : Result)
        → held (settle_result to_id bh r im t p tx w result).0 ≡ held p + count_of (tx ∷ [])
    unfolding settle_result restore
    settle_result-held p tx w result =
        let charged = consume p.manager result.units r.max_block_units in
        elim (Bool-cases charged.1) [
          | inl fits ↦ rw fits (omega (arith, count_of-append p.packed (tx ∷ [])))
          | inr no_room ↦
              elim (Bool-cases (
                leb (dimension r.fee_rules.window_target_units charged.2)
                  (last_consumed charged.0 charged.2))) [
                    | inl q ↦
                        rw (no_room, q) (omega (arith, count_of-append p.restorable (tx ∷ [])))
                    | inr q ↦
                        rw (no_room, q) (omega (arith, count_of-append p.restorable (tx ∷ [])))
                  ]
        ]

    pack_tx-held :
        (p : Packing) (tx : Transaction) (ks : Keys)
        → held (pack_tx to_id bh r im t p tx ks).0 ≤ held p + count_of (tx ∷ [])
    unfolding pack_tx
    pack_tx-held p tx ks = elim (Outcome-cases (fetch_keys im p.cache ks)) [
      | inr (e, f) ↦ rw (f, pack_tx) (omega arith)
      | inl (found, f) ↦
          let q : Packing = record p { cache = cache_all found p.cache } in
          let v = new_view p.ts (keys_has ks) (stored found) in
          elim (Outcome-cases (pre_execute to_id tx p.manager bh r (get_value v) t)) [
            | inr (e, d) ↦ rw (f, d, pack_tx) (omega arith)
            | inl (done, d) ↦ elim (Outcome-cases (execute to_id tx p.manager bh r v t).1) [
              | inr (e, x) ↦ rw (f, d, x, pack_tx) (omega (arith, restore-held q (tx ∷ [])))
              | inl (result, x) ↦
                  rw (f, d, x, pack_tx)
                    (omega (
                      arith,
                      settle_result-held q tx (execute to_id tx p.manager bh r v t).0 result,
                    ))
            ]
          ]
    ]

    abbrev txs_of : List (Transaction × Keys) → List Transaction
    txs_of txs = map (λ x. x.0) txs

    pack_all-held :
        (p : Packing) (txs : List (Transaction × Keys))
        → held (pack_all to_id bh r im t p txs).0 ≤ held p + count_of (txs_of txs)
    unfolding pack_all
    pack_all-held p [] = omega arith
    pack_all-held p ((tx, ks) ∷ txs) =
        let next = (pack_tx to_id bh r im t p tx ks).0 in
        elim (Option-cases (pack_tx to_id bh r im t p tx ks).1) [
          | inl e ↦ rw (e, pack_all) (omega (arith, pack_tx-held p tx ks, pack_all-held next txs))
          | inr (f, e) ↦
              rw (e, pack_all) (omega (arith, pack_tx-held p tx ks, restore-held next (txs_of txs)))
        ]

    choose-count :
        (limit : ℕ) (repeated : GoSet ℕ) (i total : ℕ) (txs : List Transaction)
        → let c = choose to_id bh limit repeated i total txs in
          count_of (txs_of c.0) + count_of c.1 ≤ count_of txs
    unfolding choose
    choose-count limit repeated i total [] = omega arith
    choose-count limit repeated i total (tx ∷ txs) =
        let later = choose-count limit repeated (suc i) (total + tx.size) txs in
        elim (Bool-cases (ltb limit (total + tx.size))) [
          | inl e ↦ rw (e, choose) (omega arith)
          | inr e ↦ elim (Bool-cases (repeated i)) [
            | inl q ↦ rw (e, q, choose) (omega (arith, later))
            | inr q ↦ elim (Outcome-cases (state_keys to_id tx bh)) [
              | inl (ks, k) ↦ rw (e, q, k, choose) (omega (arith, later))
              | inr (f, k) ↦ rw (e, q, k, choose) (omega (arith, later))
            ]
          ]
        ]

    end_packing-held : (f : TaskError) (p : Packing) → held (end_packing p f).0 ≡ held p
    end_packing-held block_full p = refl
    end_packing-held invalid_key_value p = refl
    end_packing-held (fetch_failed e) p = refl
    end_packing-held (execute_failed e) p = refl

    pack_batches-held :
        (limit : ℕ) (p : Packing) (bs : List Batch)
        → held (pack_batches to_id bh r im t limit p bs).0 ≤ held p + count_all bs
    unfolding pack_batches
    pack_batches-held limit p [] = omega arith
    pack_batches-held limit p (b ∷ bs) = elim (Bool-cases (p.stop || no_txs b.txs)) [
      | inl e ↦ rw (e, pack_batches) (omega arith)
      | inr e ↦ elim (Option-cases b.repeats) [
        | inl q ↦ rw (e, q, pack_batches) (omega (arith, restore-held p b.txs))
        | inr (repeated, q) ↦
            let chosen = choose to_id bh limit repeated 0 0 b.txs in
            let start = restore p chosen.1 in
            let next = (pack_all to_id bh r im t start chosen.0).0 in
            let so_far : held next ≤ held p + count_of b.txs = omega (
              arith,
              pack_all-held start chosen.0,
              restore-held p chosen.1,
              choose-count limit repeated 0 0 b.txs,
            ) in
            elim (Option-cases (pack_all to_id bh r im t start chosen.0).1) [
              | inl f ↦
                  rw (e, q, f, pack_batches)
                    (omega (arith, so_far, pack_batches-held limit next bs))
              | inr (f, c) ↦
                  rw (e, q, c, pack_batches) (omega (arith, so_far, end_packing-held f next))
            ]
      ]
    ]

  finish_block-count :
      ⦃m : CheckedMath⦄ (b : Builder) (view : ParentView) (parent : Block) (fee_raw : Bytes)
      (p : Packing)
      → count_of (in_block (finish_block b view parent fee_raw p)) ≤ count_of p.packed
  unfolding finish_block
  finish_block-count b view parent fee_raw p =
      let r = b.rules_at b.now in
      let mm = b.metadata_manager in
      elim (Bool-cases
        (no_txs p.packed && is_before b.now parent.timestamp r.min_empty_block_gap)) [
          | inl q ↦ rw (q, finish_block) (omega arith)
          | inr q ↦
              elim (Outcome-cases (
                write_block_context mm
                  (new_view p.ts (keys_has (metadata_keys mm)) (metadata_storage mm parent fee_raw))
                  (record {
                    height = next_height parent.height;
                    timestamp = b.now;
                    fee_manager = p.manager;
                  }))) [
                    | inr (e, w) ↦ rw (q, w, finish_block) (omega arith)
                    | inl (v, w) ↦ rw (q, w, finish_block) (omega arith)
                  ]
        ]

  -- However many of the transactions of the batches pass a test, no more of them are in the block that
  -- is built, if it is, and among those given back to the mempool together.
  pub build_block-count :
      ⦃m : CheckedMath⦄ (b : Builder) (view : ParentView) (parent : Block) (bs : List Batch)
      → let (restored, out) = build_block b view parent bs in
        count_of (in_block out) + count_of restored ≤ count_all bs
  unfolding build_block
  build_block-count b view parent bs =
      let r = b.rules_at b.now in
      elim (Bool-cases (is_before b.now parent.timestamp r.min_block_gap)) [
        | inl q ↦ rw (q, build_block) (omega arith)
        | inr q ↦ elim (Outcome-cases (view.read_key (fee_key b.metadata_manager))) [
          | inr (e, f) ↦ rw (q, f, build_block) (omega arith)
          | inl (fee_raw, f) ↦
              elim (Outcome-cases (compute_next (new_manager fee_raw) b.now r.fee_rules)) [
                | inr (e, c) ↦ rw (q, f, c, build_block) (omega arith)
                | inl (manager, c) ↦
                    let all =
                      pack_batches-held b.to_id b.balance_handler r view.read_key b.now
                        b.target_txs_size (empty_packing manager) bs in
                    let p =
                      (pack_batches b.to_id b.balance_handler r view.read_key b.now
                        b.target_txs_size (empty_packing manager) bs).0 in
                    elim (Option-cases
                      (pack_batches b.to_id b.balance_handler r view.read_key b.now
                        b.target_txs_size (empty_packing manager) bs).1) [
                          | inl e ↦
                              rw (q, f, c, e, build_block)
                                (omega (
                                  arith,
                                  all,
                                  finish_block-count b view parent (new_manager fee_raw) p,
                                ))
                          | inr (g, e) ↦
                              rw (q, f, c, e, build_block)
                                (omega (arith, all, count_of-append p.packed p.restorable))
                        ]
              ]
        ]
      ]

-- ===== src/Chain/Packing.antt =====
-- chain/builder.go: what is packed is what the processor would execute.
use hypersdk.Base.{
  ℕ, ◌≡◌, refl, ap, ◌∙◌, sym, Bool, true, false, List, [], ◌∷◌, ◌++◌, Option, none, some, Bytes,
  GoMap, length, leb, if◌then◌else◌, Outcome, ok, Outcome-cases, Option-cases, Bool-cases, inl, inr,
  arith,
}
use hypersdk.Binary.{AllUint64}
use hypersdk.State.Scope.{Keys}
use hypersdk.Math.Checked.{CheckedMath, max_uint64}
use hypersdk.Math.Operator.{value}
use hypersdk.Fees.Dimensions.{Dimensions, can_add}
use hypersdk.Fees.Dimensions.Exact.{dot}
use hypersdk.Fees.Manager.{fee, consume, last_consumed}
use hypersdk.Fees.Manager.Layout.{Dim, AllDim, layout}
use hypersdk.Fees.Manager.Consume.{
  prices, consumptions, charge, consume-fits, consume-misfit, fee_lem,
}
use hypersdk.TState.View.{View, Error, new, commit}
use hypersdk.Chain.Transaction.{
  Transaction, BalanceHandler, Rules, Result, state_keys, units, compute_operator, charge_keys,
  no_costs,
}
use hypersdk.Chain.Processor.{consume_units, execute_tx, execute_each}
use hypersdk.Chain.Consumption.{step-fits, consumptions-charge}
use hypersdk.Chain.Builder.{Packing, Batch, stored, restore, settle_result, dimension}
use hypersdk.Chain.Fetching.{IsCache}
use hypersdk.Chain.Replaying.{execute_each-snoc, consume_units-snoc}

module _ (to_id : Bytes → Bytes) ⦃m : CheckedMath⦄ (bh : BalanceHandler) (r : Rules) where
  -- The units of a transaction are uint64 values, as those of the code are.
  abbrev pub HasUint64Units : Transaction → Type 0
  HasUint64Units tx = (u : Dimensions) → units to_id tx bh r ≡ ok u → AllUint64 u

  abbrev pub AllUint64Units : List Transaction → Type 0
  AllUint64Units [] = Unit
  AllUint64Units (tx ∷ txs) = HasUint64Units tx × AllUint64Units txs

  abbrev pub BatchesUint64 : List Batch → Type 0
  BatchesUint64 [] = Unit
  BatchesUint64 (b ∷ bs) = AllUint64Units b.txs × BatchesUint64 bs

  pub units-length : (tx : Transaction) (u : Dimensions) → units to_id tx bh r ≡ ok u → length u ≡ 5
  unfolding units
  units-length tx u e = elim (Option-cases (value (compute_operator tx r))) [
    | inl q ↦ absurd (ground (arith, q, e))
    | inr (a, q) ↦ elim (Outcome-cases (state_keys to_id tx bh)) [
      | inr (f, c) ↦ absurd (ground (arith, q, c, e))
      | inl (ks, c) ↦ elim (Outcome-cases (charge_keys r ks no_costs)) [
        | inr (f, d) ↦ absurd (ground (arith, q, c, d, e))
        | inl (costs, d) ↦ ground (
          arith,
          q,
          c,
          d,
          e,
          Option-cases (value costs.reads),
          Option-cases (value costs.allocates),
          Option-cases (value costs.writes),
        )
      ]
    ]
  ]

  module _ (im : Bytes → Outcome Error Bytes) (t time : ℕ) (dims : List Dim) (valid : AllDim dims)
      (five : length dims ≡ 5) (limits : length r.max_block_units ≡ 5)
      (small : AllUint64 r.max_block_units) where
    -- The fees are those at the start of the block.
    abbrev pub HasFees : Bytes → Type 0
    HasFees manager =
        (u : Dimensions) → AllUint64 u → length u ≡ 5 → fee manager u ≡ fee (layout time dims) u

    -- What the processor does with the transactions packed, whatever units are counted already.
    pub record IsPacked (p : Packing) : Type 0 where
      pub dims_now : List Dim
      pub laid_out : p.manager ≡ layout time dims_now
      pub still_valid : AllDim dims_now
      pub still_five : length dims_now ≡ 5
      pub same_prices : prices dims_now ≡ prices dims
      pub consumed : consume_units to_id bh r (layout time dims) p.packed ≡ ok p.manager
      pub executed :
          (manager : Bytes)
          → HasFees manager
          → execute_each to_id bh r manager im t new p.packed ≡ ok (p.ts, p.results)
      pub right_cache : IsCache im p.cache

    pub IsPacked-HasFees : (p : Packing) → IsPacked p → HasFees p.manager
    IsPacked-HasFees p h u w e = rw (h.laid_out) (
        fee_lem time h.dims_now u h.still_valid (omega (arith, e, h.still_five)) w
        ∙ ap (λ ps. if leb (dot ps u) max_uint64 then some (dot ps u) else none) h.same_prices
        ∙ sym (fee_lem time dims u valid (omega (arith, e, five)) w))

    -- What a step leaves if it packs nothing.
    pub IsPacked-rest :
        (p : Packing) (manager : Bytes) (cache : GoMap Bytes (Option Bytes))
        (txs : List Transaction) (stop : Bool)
        → p.manager ≡ manager
        → IsCache im cache
        → IsPacked p
        → IsPacked (record p { manager = manager; cache = cache; restorable = txs; stop = stop })
    IsPacked-rest p manager cache txs stop e c h = record {
      dims_now = h.dims_now;
      laid_out = sym e ∙ h.laid_out;
      still_valid = h.still_valid;
      still_five = h.still_five;
      same_prices = h.same_prices;
      consumed = h.consumed ∙ ap (λ raw. ok raw) e;
      executed = h.executed;
      right_cache = c;
    }

    pub restore-IsPacked :
        (p : Packing) (txs : List Transaction) → IsPacked p → IsPacked (restore p txs)
    unfolding restore
    restore-IsPacked p txs h = IsPacked-rest p p.manager p.cache _ p.stop refl h.right_cache h

    -- Units that do not fit are not counted.
    consume_kept :
        (p : Packing) (u : Dimensions)
        → IsPacked p
        → AllUint64 u
        → length u ≡ 5
        → (consume p.manager u r.max_block_units).1 ≡ false
        → (consume p.manager u r.max_block_units).0 ≡ p.manager
    consume_kept p u h w e q =
        let l = r.max_block_units in
        elim (Bool-cases (can_add (consumptions h.dims_now) u l)) [
          | inl room ↦ absurd (
              ground (
                arith,
                ap (λ raw. (consume raw u l).1) h.laid_out,
                ap (λ x. x.1)
                    (consume-fits time h.dims_now u l h.still_valid (omega (arith, e, h.still_five))
                      (omega (arith, limits, h.still_five)) w small room),
                q,
              ))
          | inr no_room ↦
              let (i, c) =
                consume-misfit time h.dims_now u l h.still_valid (omega (arith, e, h.still_five))
                  (omega (arith, limits, h.still_five)) w small no_room in
              rw (h.laid_out) (ap (λ x. x.0) c)
        ]

    -- A result that fits is that of the processor.
    packed_more :
        (p : Packing) (tx : Transaction) (ks : Keys) (w : View) (result : Result)
        → IsPacked p
        → state_keys to_id tx bh ≡ ok ks
        → units to_id tx bh r ≡ ok result.units
        → AllUint64 result.units
        → ((manager : Bytes)
            → HasFees manager
            → execute_tx to_id bh r manager im t p.ts tx ≡ ok (commit w, result))
        → (consume p.manager result.units r.max_block_units).1 ≡ true
        → IsPacked (record p {
          manager = (consume p.manager result.units r.max_block_units).0;
          ts = commit w;
          packed = p.packed ++ tx ∷ [];
          results = p.results ++ result ∷ [];
        })
    packed_more p tx ks w result h a b c d fits =
        let e = units-length tx result.units b in
        let (stored, within, valid') =
          step-fits to_id bh r time h.dims_now result.units h.still_valid h.still_five e limits c
            small (rw h.laid_out at fits) in
        let (sums, same, size) =
          consumptions-charge h.dims_now result.units (omega (arith, e, h.still_five)) in
        record {
          dims_now = charge h.dims_now result.units;
          laid_out = ap (λ raw. (consume raw result.units r.max_block_units).0) h.laid_out ∙ stored;
          still_valid = valid';
          still_five = omega (arith, size, h.still_five);
          same_prices = same ∙ h.same_prices;
          consumed =
              consume_units-snoc to_id bh r im t (layout time dims) p.manager p.packed tx ks
                result.units h.consumed a b fits;
          executed = λ manager f.
              execute_each-snoc to_id bh r im t manager new p.ts (commit w) p.packed tx p.results
                result (h.executed manager f) (d manager f);
          right_cache = h.right_cache;
        }

    pub settle_result-IsPacked :
        (p : Packing) (tx : Transaction) (ks : Keys) (w : View) (result : Result)
        → IsPacked p
        → state_keys to_id tx bh ≡ ok ks
        → units to_id tx bh r ≡ ok result.units
        → AllUint64 result.units
        → ((manager : Bytes)
            → HasFees manager
            → execute_tx to_id bh r manager im t p.ts tx ≡ ok (commit w, result))
        → IsPacked (settle_result to_id bh r im t p tx w result).0
    unfolding settle_result restore
    settle_result-IsPacked p tx ks w result h a b c d =
        elim (Bool-cases (consume p.manager result.units r.max_block_units).1) [
          | inl fits ↦ rw fits (packed_more p tx ks w result h a b c d fits)
          | inr no_room ↦
              let kept =
                sym (consume_kept p result.units h c (units-length tx result.units b) no_room) in
              elim (Bool-cases (
                leb
                  (dimension r.fee_rules.window_target_units
                    (consume p.manager result.units r.max_block_units).2)
                  (last_consumed (consume p.manager result.units r.max_block_units).0
                    (consume p.manager result.units r.max_block_units).2))) [
                      | inl full ↦
                          rw (no_room, full) (IsPacked-rest p _ p.cache _ true kept h.right_cache h)
                      | inr more ↦
                          rw (no_room, more)
                            (IsPacked-rest p _ p.cache _ p.stop kept h.right_cache h)
                    ]
        ]

-- ===== src/Chain/Built.antt =====
-- chain/builder.go and chain/processor.go: a block that is built is accepted, with the same results.
use hypersdk.Base.{
  ℕ, ◌+◌, ◌≤◌, ◌≡◌, refl, ap, sym, ◌∙◌, Bool, true, false, ◌&&◌, List, Option, some, Bytes, ◌==◌,
  Bytes_eq, bytes_eq_iff, length, ltb, ok, err, Outcome-cases, Option-cases, Bool-cases, inl, inr,
  arith, subst,
}
use hypersdk.Binary.{uint64_bytes, AllUint64}
use hypersdk.State.Scope.{keys_has, complete_permissions}
use hypersdk.Math.Checked.{CheckedMath}
use hypersdk.Fees.Manager.{compute_next, new_manager, unit_prices, units_consumed}
use hypersdk.Fees.Manager.Layout.{Dim, AllDim, layout}
use hypersdk.TState.View.{TState, View, not_found, new_view, commit, read_through}
use hypersdk.Balance.Handler.{Uint64Codec}
use hypersdk.Chain.Transaction.{Transaction, Rules}
use hypersdk.Chain.Processor.{
  Block, ParentView, BlockContext, OutputBlock, Processor, height_key, timestamp_key, fee_key,
  next_height, is_before, create_block_context, write_block_context, execute_block, no_txs,
  future_bound, verify_parent_root,
}
use hypersdk.Chain.Builder.{Batch, Packing, TaskError, empty_packing, pack_batches}
use hypersdk.Chain.Build.{Builder, finish_block, build_block, metadata_keys, metadata_storage}
use hypersdk.Chain.Context.{Agrees, write_block_context-Agrees, shown-commit}
use hypersdk.Chain.Packing.{BatchesUint64}
use hypersdk.Chain.Packed.{execute_txs-packed}

-- The processor with the parts of the builder.
abbrev pub processor_of : Builder → (List Transaction → Bool) → (Block → Bool) → ℕ → Processor
processor_of b signatures_valid is_unrepeated clock = record {
  to_id = b.to_id;
  rules_at = b.rules_at;
  metadata_manager = b.metadata_manager;
  balance_handler = b.balance_handler;
  signatures_valid = signatures_valid;
  is_unrepeated = is_unrepeated;
  now = clock;
}

module _ ⦃c : Uint64Codec⦄ ⦃m : CheckedMath⦄ where
  -- The view is that of the parent, and its fee manager gives a well-formed array.
  pub record IsParent (b : Builder) (view : ParentView) (parent : Block) (time : ℕ)
      (dims : List Dim) : Type 0 where
    pub fee_raw : Bytes
    pub has_height : view.read_key (height_key b.metadata_manager) ≡ ok (uint64_bytes parent.height)
    pub has_timestamp :
        view.read_key (timestamp_key b.metadata_manager) ≡ ok (uint64_bytes parent.timestamp)
    pub has_fees : view.read_key (fee_key b.metadata_manager) ≡ ok fee_raw
    pub reads_height : c.parse (uint64_bytes parent.height) ≡ some parent.height
    pub reads_timestamp : c.parse (uint64_bytes parent.timestamp) ≡ some parent.timestamp
    pub next_fees :
        compute_next (new_manager fee_raw) b.now (b.rules_at b.now).fee_rules
        ≡ ok (layout time dims)
    pub raw_fees : new_manager fee_raw ≡ fee_raw
    pub five : length dims ≡ 5
    pub valid : AllDim dims

  -- The same results, prices and units, and the same state over that of the parent.
  pub record SameOutput (view : ParentView) (o o' : OutputBlock) : Type 0 where
    pub same_results : o'.results ≡ o.results
    pub same_prices : o'.unit_prices ≡ o.unit_prices
    pub same_units : o'.units_consumed ≡ o.units_consumed
    pub same_state :
        (k : Bytes)
        → read_through (o'.changes.changed_keys k) (view.read_key k)
          ≡ read_through (o.changes.changed_keys k) (view.read_key k)

  module _ (b : Builder) (view : ParentView) (parent : Block) (time : ℕ) (dims : List Dim)
      (x : IsParent b view parent time dims) where
    abbrev rules : Rules
    rules = b.rules_at b.now

    abbrev packing : List Batch → Packing × Option TaskError
    packing bs =
        pack_batches b.to_id b.balance_handler rules view.read_key b.now b.target_txs_size
          (empty_packing (layout time dims)) bs

    abbrev context : Bytes → BlockContext
    context manager = record {
      height = next_height parent.height;
      timestamp = b.now;
      fee_manager = manager;
    }

    -- The block with what is packed.
    abbrev made : Packing → View → OutputBlock
    made p v = record {
      block = record {
        id = b.block_id parent.id b.now (next_height parent.height) p.packed view.merkle_root;
        parent = parent.id;
        timestamp = b.now;
        height = next_height parent.height;
        txs = p.packed;
        state_root = view.merkle_root;
      };
      changes = commit v;
      results = p.results;
      unit_prices = unit_prices p.manager;
      units_consumed = units_consumed p.manager;
    }

    -- How a block came to be built.
    record IsBuilt (p : Packing) (o : OutputBlock) : Type 0 where
      pub not_early : is_before b.now parent.timestamp rules.min_block_gap ≡ false
      pub not_empty :
          (no_txs p.packed && is_before b.now parent.timestamp rules.min_empty_block_gap) ≡ false
      pub last_view : View
      pub written :
          write_block_context b.metadata_manager
            (new_view p.ts
              (keys_has (metadata_keys b.metadata_manager))
              (metadata_storage b.metadata_manager parent (new_manager x.fee_raw)))
            (context p.manager)
          ≡ ok last_view
      pub is_output : o ≡ made p last_view

    finish_block-IsBuilt :
        (p : Packing) (o : OutputBlock)
        → is_before b.now parent.timestamp rules.min_block_gap ≡ false
        → finish_block b view parent (new_manager x.fee_raw) p ≡ ok o
        → IsBuilt p o
    unfolding finish_block
    finish_block-IsBuilt p o early e =
        elim (Bool-cases
          (no_txs p.packed && is_before b.now parent.timestamp rules.min_empty_block_gap)) [
            | inl q ↦ absurd (ground (arith, q, e))
            | inr q ↦
                elim (Outcome-cases (
                  write_block_context b.metadata_manager
                    (new_view p.ts (keys_has (metadata_keys b.metadata_manager))
                      (metadata_storage b.metadata_manager parent (new_manager x.fee_raw)))
                    (context p.manager))) [
                      | inr (f, w) ↦ absurd (ground (arith, q, w, e))
                      | inl (v, w) ↦ record {
                        not_early = early;
                        not_empty = q;
                        last_view = v;
                        written = w;
                        is_output = ground (arith, q, w, e);
                      }
                    ]
          ]

    build_block-IsBuilt :
        (bs : List Batch) (restored : List Transaction) (o : OutputBlock)
        → build_block b view parent bs ≡ (restored, ok o)
        → IsBuilt (packing bs).0 o
    unfolding build_block
    build_block-IsBuilt bs restored o e =
        elim (Bool-cases (is_before b.now parent.timestamp rules.min_block_gap)) [
          | inl q ↦ absurd (ground (arith, q, e))
          | inr q ↦ elim (Option-cases (packing bs).1) [
            | inr (f, g) ↦ absurd (ground (arith, q, x.has_fees, x.next_fees, g, e))
            | inl g ↦
                finish_block-IsBuilt (packing bs).0 o q
                  (ground (arith, q, x.has_fees, x.next_fees, g, e))
          ]
        ]

    -- The processor has the same context.
    create_block_context-built :
        (block : Block)
        → block.timestamp ≡ b.now
        → block.height ≡ next_height parent.height
        → is_before b.now parent.timestamp rules.min_block_gap ≡ false
        → (no_txs block.txs && is_before b.now parent.timestamp rules.min_empty_block_gap) ≡ false
        → create_block_context b.metadata_manager view.read_key block rules
          ≡ ok (context (layout time dims))
    unfolding create_block_context
    create_block_context-built block e f g h =
        rw
          (
            x.has_height, x.reads_height, x.has_timestamp, x.reads_timestamp, x.has_fees, e, f, g,
            h, x.next_fees,
          )
          (ground arith)

    metadata-Agrees :
        (ts : TState)
        → Agrees view.read_key
            (new_view ts
              (keys_has (metadata_keys b.metadata_manager))
              (metadata_storage b.metadata_manager parent (new_manager x.fee_raw)))
            (new_view ts complete_permissions (λ k. err not_found))
    unfolding new_view
    metadata-Agrees ts = record { same_state = λ k. refl; unstored = λ k. refl; unlimited = refl }

    -- The storage of the metadata is that of the parent.
    stored_height :
        metadata_storage b.metadata_manager parent
          (new_manager x.fee_raw)
          (height_key b.metadata_manager)
        ≡ view.read_key (height_key b.metadata_manager)
    stored_height = ground (
      arith,
      x.has_height,
      x.has_timestamp,
      x.has_fees,
      x.raw_fees,
      bytes_eq_iff (height_key b.metadata_manager) (fee_key b.metadata_manager),
      bytes_eq_iff (height_key b.metadata_manager) (timestamp_key b.metadata_manager),
      bytes_eq_iff (height_key b.metadata_manager) (height_key b.metadata_manager),
      ap view.read_key {x = height_key b.metadata_manager} {y = fee_key b.metadata_manager},
      ap view.read_key {x = height_key b.metadata_manager} {y = timestamp_key b.metadata_manager},
    )

    stored_timestamp :
        metadata_storage b.metadata_manager parent
          (new_manager x.fee_raw)
          (timestamp_key b.metadata_manager)
        ≡ view.read_key (timestamp_key b.metadata_manager)
    stored_timestamp = ground (
      arith,
      x.has_height,
      x.has_timestamp,
      x.has_fees,
      x.raw_fees,
      bytes_eq_iff (timestamp_key b.metadata_manager) (fee_key b.metadata_manager),
      bytes_eq_iff (timestamp_key b.metadata_manager) (timestamp_key b.metadata_manager),
      bytes_eq_iff (timestamp_key b.metadata_manager) (height_key b.metadata_manager),
      ap view.read_key {x = timestamp_key b.metadata_manager} {y = fee_key b.metadata_manager},
      ap view.read_key {x = timestamp_key b.metadata_manager}
          {y = timestamp_key b.metadata_manager},
    )

    stored_fees :
        metadata_storage b.metadata_manager parent
          (new_manager x.fee_raw)
          (fee_key b.metadata_manager)
        ≡ view.read_key (fee_key b.metadata_manager)
    stored_fees = ground (
      arith,
      x.has_height,
      x.has_timestamp,
      x.has_fees,
      x.raw_fees,
      bytes_eq_iff (fee_key b.metadata_manager) (fee_key b.metadata_manager),
      bytes_eq_iff (fee_key b.metadata_manager) (timestamp_key b.metadata_manager),
      bytes_eq_iff (fee_key b.metadata_manager) (height_key b.metadata_manager),
      ap view.read_key {x = fee_key b.metadata_manager} {y = fee_key b.metadata_manager},
      ap view.read_key {x = fee_key b.metadata_manager} {y = timestamp_key b.metadata_manager},
    )

    -- What is made of a packing is accepted.
    made-execute_block :
        (signatures_valid : List Transaction → Bool) (is_unrepeated : Block → Bool) (clock : ℕ)
        (bs : List Batch) (v w : View)
        → length rules.max_block_units ≡ 5
        → AllUint64 rules.max_block_units
        → BatchesUint64 b.to_id b.balance_handler rules bs
        → b.now ≤ clock + future_bound
        → signatures_valid (packing bs).0.packed ≡ true
        → is_unrepeated (made (packing bs).0 v).block ≡ true
        → is_before b.now parent.timestamp rules.min_block_gap ≡ false
        → (no_txs (packing bs).0.packed
            && is_before b.now parent.timestamp rules.min_empty_block_gap)
          ≡ false
        → write_block_context b.metadata_manager
            (new_view (packing bs).0.ts complete_permissions (λ k. err not_found))
            (context (packing bs).0.manager)
          ≡ ok w
        → execute_block
            (processor_of b signatures_valid is_unrepeated clock)
            view
            (made (packing bs).0 v).block
            true
          ≡ ok (made (packing bs).0 w)
    unfolding execute_block verify_parent_root
    made-execute_block signatures_valid is_unrepeated clock bs v w limits small units in_time signed
          unrepeated early empty written =
        let block = (made (packing bs).0 v).block in
        let run =
          execute_txs-packed b.to_id b.balance_handler rules view.read_key b.now time dims x.valid
            x.five limits small view.no_empty_key b.target_txs_size bs block units refl refl in
        let own_root : (view.merkle_root == view.merkle_root) ≡ true =
          (bytes_eq_iff view.merkle_root view.merkle_root).1 refl in
        let soon : ltb (clock + future_bound) b.now ≡ false = ground (arith, in_time) in
        rw
          (
            soon,
            create_block_context-built block refl refl early empty,
            unrepeated,
            run,
            written,
            own_root,
            signed,
          )
          refl

    -- Where the view is that of the parent, its fee manager gives a well-formed array, the limits of a
    -- block and the units of the transactions are uint64 values and the clock is not more than a second
    -- behind, a block that is built is accepted by the processor with the same parts, if its signatures are
    -- valid and nothing in it is repeated. The results, the prices and the units consumed are those of the
    -- builder, and so is the state.
    pub build_block-execute_block :
        (signatures_valid : List Transaction → Bool) (is_unrepeated : Block → Bool) (clock : ℕ)
        (bs : List Batch) (restored : List Transaction) (o : OutputBlock)
        → length rules.max_block_units ≡ 5
        → AllUint64 rules.max_block_units
        → BatchesUint64 b.to_id b.balance_handler rules bs
        → b.now ≤ clock + future_bound
        → signatures_valid o.block.txs ≡ true
        → is_unrepeated o.block ≡ true
        → build_block b view parent bs ≡ (restored, ok o)
        → (o' : OutputBlock) × (execute_block
              (processor_of b signatures_valid is_unrepeated clock)
              view
              o.block
              true
            ≡ ok o')
          × SameOutput view o o'
    unfolding new_view
    build_block-execute_block signatures_valid is_unrepeated clock bs restored o limits small units
          in_time signed unrepeated e =
        let built = build_block-IsBuilt bs restored o e in
        let p = (packing bs).0 in
        let (w, written, agrees) =
          write_block_context-Agrees view.read_key b.metadata_manager _ _ built.last_view
            (context p.manager) (metadata-Agrees p.ts) stored_height stored_timestamp stored_fees
            built.written in
        let done =
          made-execute_block signatures_valid is_unrepeated clock bs built.last_view w limits small
            units in_time (subst (λ z. signatures_valid z.block.txs ≡ true) built.is_output signed)
            (subst (λ z. is_unrepeated z.block ≡ true) built.is_output unrepeated) built.not_early
            built.not_empty written in
        subst
          (λ z.
            (o' : OutputBlock) × (execute_block
                (processor_of b signatures_valid is_unrepeated clock) view z.block true
              ≡ ok o')
            × SameOutput view z o')
          (sym built.is_output)
          (
            made p w,
            done,
            record {
              same_results = refl;
              same_prices = refl;
              same_units = refl;
              same_state = λ k.
                  shown-commit view.read_key w k
                  ∙ sym (agrees.same_state k)
                  ∙ sym (shown-commit view.read_key built.last_view k);
            },
          )

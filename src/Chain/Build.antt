-- ===== src/Chain/Build.antt =====
-- chain/builder.go: `BuildBlock`, from the array of the fee manager to the block.
use hypersdk.Base.{
  ℕ, List, [], ◌++◌, none, some, Bytes, ◌==◌, Bytes_eq, not, ◌&&◌, if◌then◌else◌, Outcome, ok, err,
  ◌>>=◌, ◌>>◌, guard,
}
use hypersdk.Binary.{uint64_bytes}
use hypersdk.State.Permissions.{write}
use hypersdk.State.Scope.{Keys, add, keys_has}
use hypersdk.Math.Checked.{CheckedMath}
use hypersdk.Fees.Manager.{compute_next, new_manager, unit_prices, units_consumed}
use hypersdk.TState.View.{Error, not_found, new_view, commit}
use hypersdk.Chain.Transaction.{Transaction, BalanceHandler, Rules, lift_error}
use hypersdk.Chain.Processor.{
  Block, MetadataManager, ParentView, OutputBlock, BlockContext, BlockError, height_key,
  timestamp_key, fee_key, no_txs, next_height, is_before, write_block_context,
}
use hypersdk.Chain.Builder.{TaskError, Batch, Packing, empty_packing, pack_batches}

pub data BuildError : Type 0 where
  build_too_early no_txs_yet division_panic : BuildError
  parent_error : Error → BuildError
  task_error : TaskError → BuildError
  metadata_error : BlockError → BuildError

-- What the builder is given: the hashes, the rules, the most bytes of a batch, and the clock.
pub record Builder : Type 0 where
  pub to_id : Bytes → Bytes
  pub block_id : Bytes → ℕ → ℕ → List Transaction → Bytes → Bytes
  pub rules_at : ℕ → Rules
  pub metadata_manager : MetadataManager
  pub balance_handler : BalanceHandler
  pub target_txs_size : ℕ
  pub now : ℕ

-- The keys of the metadata, to be written over the values of the parent.
abbrev pub metadata_keys : MetadataManager → Keys
metadata_keys mm =
    (add (add (add [] (height_key mm) write).0 (timestamp_key mm) write).0 (fee_key mm) write).0

abbrev pub metadata_storage : MetadataManager → Block → Bytes → Bytes → Outcome Error Bytes
metadata_storage mm parent fee_raw k =
    if k == fee_key mm
    then ok fee_raw
    else if k == timestamp_key mm
    then ok (uint64_bytes parent.timestamp)
    else if k == height_key mm
    then ok (uint64_bytes parent.height)
    else err not_found

module _ ⦃m : CheckedMath⦄ where
  -- The end of `BuildBlock`.
  unfoldable pub finish_block :
      Builder → ParentView → Block → Bytes → Packing → Outcome BuildError OutputBlock
  finish_block b view parent fee_raw p = do
    let r = b.rules_at b.now
    let mm = b.metadata_manager
    guard (not (no_txs p.packed && is_before b.now parent.timestamp r.min_empty_block_gap))
        no_txs_yet
    let v = new_view p.ts (keys_has (metadata_keys mm)) (metadata_storage mm parent fee_raw)
    let bc : BlockContext = record {
      height = next_height parent.height;
      timestamp = b.now;
      fee_manager = p.manager;
    }
    w ← lift_error metadata_error (write_block_context mm v bc)
    ok record {
      block = record {
        id = b.block_id parent.id b.now (next_height parent.height) p.packed view.merkle_root;
        parent = parent.id;
        timestamp = b.now;
        height = next_height parent.height;
        txs = p.packed;
        state_root = view.merkle_root;
      };
      changes = commit w;
      results = p.results;
      unit_prices = unit_prices p.manager;
      units_consumed = units_consumed p.manager;
    }

  -- `BuildBlock`: what is given back to the mempool, and the block
  unfoldable pub build_block :
      Builder → ParentView → Block → List Batch → List Transaction × Outcome BuildError OutputBlock
  unfolding pack_batches finish_block
  build_block b view parent batches =
      let r = b.rules_at b.now in
      if is_before b.now parent.timestamp r.min_block_gap
      then ([], err build_too_early)
      else elim (view.read_key (fee_key b.metadata_manager)) [
        | err e ↦ ([], err (parent_error e))
        | ok fee_raw ↦ elim (compute_next (new_manager fee_raw) b.now r.fee_rules) [
          | err e ↦ ([], err division_panic)
          | ok manager ↦
              let (p, e) =
                pack_batches b.to_id b.balance_handler r view.read_key b.now b.target_txs_size
                  (empty_packing manager) batches in
              elim e [
                | some f ↦ (p.packed ++ p.restorable, err (task_error f))
                | none ↦ (p.restorable, finish_block b view parent (new_manager fee_raw) p)
              ]
        ]
      ]

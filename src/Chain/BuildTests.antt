-- ===== src/Chain/BuildTests.antt =====
-- chain/builder.go: runs at concrete inputs.
use hypersdk.Base.{
  ◌+◌, ◌≤◌, ◌≡◌, refl, Bool, true, false, List, [], ◌∷◌, none, some, Bytes, ◌==◌, Bytes_eq, Outcome,
  ok, err, if◌then◌else◌, replicate, arith, subst, empty_set,
}
use hypersdk.Binary.{get_uint64, uint64_bytes, put_uint64, copy_at, AllUint64, encode_words}
use hypersdk.Math.Operator.{new_operator, op_add, op_mul_add, value}
use hypersdk.Keys.{encode_chunks, verify_value, num_chunks, max_chunks}
use hypersdk.State.Permissions.{union}
use hypersdk.State.Scope.{add, grant, keys_has, permission_of}
use hypersdk.TState.View.{
  Error, not_found, insert, is_unchanged, settle, overwrite, create, new, new_view, get_value_of,
  commit, get_value,
}
use hypersdk.Fees.Manager.{
  compute_next, new_manager, unit_prices, units_consumed, compute_dimensions, seconds_since, window,
  unit_price, last_consumed, consume, misfit, fee, fee_from,
}
use hypersdk.Fees.Manager.Layout.{Dim, layout, flat}
use hypersdk.Fees.Price.{
  compute_next_price_window, next_price, next_window, raw_price, base_delta, divide,
}
use hypersdk.Fees.Window.{sum, update, roll}
use hypersdk.Chain.Program.{done, insert_then, perform}
use hypersdk.Chain.Transaction.{
  Transaction, Action, units, state_keys, add_action_keys, add_keys, charge_keys, charge_actions,
  execute, run_actions, pre_execute, create_action_id, base_execute, check_actions, out_of_range,
}
use hypersdk.Chain.Processor.{
  Block, ParentView, OutputBlock, height_key, timestamp_key, fee_key, execute_block, next_height,
  is_before, write_block_context,
}
use hypersdk.Chain.Builder.{
  Batch, fetch_key, fetch_keys, stored, cache_all, restore, choose, settle_result, pack_tx,
  pack_all, pack_batches,
}
use hypersdk.Chain.Build.{Builder, BuildError, finish_block, build_block}
use hypersdk.Chain.Packing.{HasUint64Units}
use hypersdk.Chain.Built.{processor_of, IsParent, SameOutput, build_block-execute_block}
use hypersdk.Chain.Restored.{count_of, count_all, in_block, build_block-count}
use hypersdk.Chain.BlockTests.{math, codec, metadata, rules, handler, parse_uint64-uint64_bytes}

abbrev action_key : Bytes
action_key = 97 ∷ 0 ∷ 1 ∷ []

abbrev writing : Action
writing = record {
  valid_range = λ r. (none, none);
  compute_units = λ r. 1;
  state_keys = λ actor id. (action_key, 7) ∷ [];
  execute = λ r t actor id. insert_then action_key (20 ∷ []) (λ e. done (ok (7 ∷ [])));
}

abbrev tx : Transaction
tx = record {
  base = record { timestamp = 5000; chain_id = 9 ∷ []; max_fee = 1000 };
  actions = writing ∷ [];
  auth = record {
    valid_range = λ r. (none, none);
    compute_units = λ r. 1;
    actor = 3 ∷ [];
    sponsor = 4 ∷ [];
  };
  size = 200;
  id = 8 ∷ [];
}

abbrev batches : List Batch
batches = record { txs = tx ∷ []; repeats = some empty_set } ∷ []

abbrev builder : Builder
builder = record {
  to_id = λ b. b;
  block_id = λ parent t height txs root. 1 ∷ [];
  rules_at = λ t. rules;
  metadata_manager = metadata;
  balance_handler = handler;
  target_txs_size = 1000;
  now = 3000;
}

abbrev no_fees : Dim
no_fees = record { price = 0; slots = replicate 10 0; consumed = 0 }

abbrev min_fees : Dim
min_fees = record { price = 1; slots = replicate 10 0; consumed = 0 }

abbrev parent_state : Bytes → Outcome Error Bytes
parent_state k =
    if k == (0 ∷ 0 ∷ 1 ∷ [])
    then ok (uint64_bytes 0)
    else if k == (1 ∷ 0 ∷ 1 ∷ [])
    then ok (uint64_bytes 0)
    else if k == (2 ∷ 0 ∷ 8 ∷ [])
    then ok (layout 0 (replicate 5 no_fees))
    else err not_found

abbrev parent_view : ParentView
parent_view = record { read_key = parent_state; merkle_root = 5 ∷ []; no_empty_key = refl }

abbrev parent : Block
parent = record { id = []; parent = []; timestamp = 0; height = 0; txs = []; state_root = [] }

parent-IsParent : IsParent builder parent_view parent 3 (replicate 5 min_fees)
unfolding height_key timestamp_key fee_key encode_chunks new_manager compute_next compute_dimensions
    get_uint64 put_uint64 uint64_bytes compute_next_price_window sum seconds_since update roll
    window unit_price last_consumed next_price next_window raw_price base_delta copy_at divide flat
    encode_words
parent-IsParent = record {
  fee_raw = layout 0 (replicate 5 no_fees);
  has_height = refl;
  has_timestamp = refl;
  has_fees = refl;
  reads_height = parse_uint64-uint64_bytes 0 (omega arith);
  reads_timestamp = parse_uint64-uint64_bytes 0 (omega arith);
  next_fees = refl;
  raw_fees = refl;
  five = refl;
  valid = omega arith;
}

abbrev or_output : Outcome BuildError OutputBlock → OutputBlock
or_output (ok out) = out
or_output (err e) = record {
  block = parent;
  changes = record { changed_keys = λ k. none; ops = 0 };
  results = [];
  unit_prices = [];
  units_consumed = [];
}

built : List Transaction × Outcome BuildError OutputBlock
built = build_block builder parent_view parent batches

built_output : OutputBlock
built_output = or_output built.1

abbrev is_ok : List Transaction × Outcome BuildError OutputBlock → Bool
is_ok (restored, ok out) = true
is_ok (restored, err e) = false

or_output_lem :
    (r : List Transaction × Outcome BuildError OutputBlock)
    → is_ok r ≡ true
    → r ≡ (r.0, ok (or_output r.1))
or_output_lem (restored, ok out) h = refl
or_output_lem (restored, err e) h = cc

built-ok : build_block builder parent_view parent batches ≡ (built.0, ok built_output)
unfolding built built_output build_block height_key timestamp_key fee_key encode_chunks new_manager
    compute_next compute_dimensions get_uint64 put_uint64 uint64_bytes compute_next_price_window sum
    seconds_since update roll window unit_price last_consumed next_price next_window raw_price
    base_delta copy_at divide flat encode_words pack_batches pack_all pack_tx fetch_keys fetch_key
    stored cache_all restore choose settle_result finish_block next_height is_before state_keys
    add_action_keys add_keys create_action_id add grant union units charge_keys charge_actions value
    op_add op_mul_add new_operator max_chunks num_chunks pre_execute base_execute check_actions
    out_of_range execute run_actions consume misfit fee fee_from keys_has permission_of perform
    insert verify_value is_unchanged settle overwrite create new new_view get_value_of get_value
    commit write_block_context unit_prices units_consumed hypersdk.Keys.valid
    hypersdk.Chain.Timestamp.verify_timestamp hypersdk.Fees.Manager.commit
    hypersdk.Fees.Manager.set_last_consumed hypersdk.State.Permissions.has
built-ok = or_output_lem (build_block builder parent_view parent batches) refl

tx-units : HasUint64Units (λ b. b) handler rules tx
unfolding state_keys add_action_keys add_keys create_action_id add grant union units charge_keys
    charge_actions value op_add op_mul_add new_operator max_chunks num_chunks hypersdk.Keys.valid
tx-units u e =
    let exact : 200 ∷ 3 ∷ 7 ∷ 25 ∷ 13 ∷ [] ≡ u = ground (arith, e) in
    subst AllUint64 exact (omega arith)

-- A block with one transaction is accepted, with its result.
build_block-execute_block_example :
    (o' : OutputBlock) × (execute_block
        (processor_of builder (λ txs. true) (λ b. true) 4000)
        parent_view
        built_output.block
        true
      ≡ ok o')
    × SameOutput parent_view built_output o'
build_block-execute_block_example =
    build_block-execute_block builder parent_view parent 3 (replicate 5 min_fees) parent-IsParent
      (λ txs. true) (λ b. true) 4000 batches built.0 built_output refl (omega arith)
      ((tx-units, tt), tt) (omega arith) refl refl built-ok

abbrev any : Transaction → Bool
any x = true

build_block-count_example :
    count_of any (in_block built.1) + count_of any built.0 ≤ count_all any batches
unfolding built
build_block-count_example = build_block-count any builder parent_view parent batches

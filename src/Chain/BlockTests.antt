-- ===== src/Chain/BlockTests.antt =====
-- chain/processor.go: runs at concrete inputs.
use hypersdk.Base.{
  ℕ, ◌+◌, ◌≤◌, ◌≡◌, refl, Bool, true, false, [], ◌∷◌, Option, none, some, Bytes, ◌==◌, Bytes_eq,
  nat_eq, length, Outcome, ok, err, if◌then◌else◌, replicate, arith,
}
use hypersdk.Binary.{get_uint64, uint64_bytes, put_uint64, copy_at}
use hypersdk.Binary.Words.{get_uint64-uint64_bytes, length-uint64_bytes}
use hypersdk.Math.Checked.{CheckedMath, exact_math, max_uint64}
use hypersdk.State.Scope.{complete_permissions}
use hypersdk.Fees.Manager.{compute_next, new_manager}
use hypersdk.TState.View.{Error, not_found, new, new_view, get_value_of, commit}
use hypersdk.Balance.Handler.{Uint64Codec}
use hypersdk.Chain.Program.{done}
use hypersdk.Chain.Transaction.{Rules, BalanceHandler}
use hypersdk.Chain.Processor.{
  Block, MetadataManager, ParentView, BlockError, OutputBlock, Processor, height_key, timestamp_key,
  fee_key, create_block_context, next_height, is_before, write_block_context, execute_block,
}
use hypersdk.Fees.Manager.{compute_dimensions, seconds_since, window, unit_price, last_consumed}
use hypersdk.Fees.Price.{
  compute_next_price_window, next_price, next_window, raw_price, base_delta, divide,
}
use hypersdk.Fees.Window.{sum, update, roll}
use hypersdk.Keys.{verify_value, num_chunks, max_chunks}
use hypersdk.TState.View.{insert, is_unchanged, settle, overwrite, create}
use hypersdk.Chain.Processor.{consume_units, execute_each}
use hypersdk.Chain.Blocks.{execute_block-chain}

instance abbrev pub math : CheckedMath
math = exact_math

pub parse_uint64 : Bytes → Option ℕ
parse_uint64 raw = if nat_eq (length raw) 8 then some (get_uint64 raw) else none

pub parse_uint64-uint64_bytes : (n : ℕ) → n ≤ max_uint64 → parse_uint64 (uint64_bytes n) ≡ some n
unfolding parse_uint64
parse_uint64-uint64_bytes n h = ground (arith, get_uint64-uint64_bytes n h, length-uint64_bytes n)

instance abbrev pub codec : Uint64Codec
codec = record {
  pack = uint64_bytes;
  parse = parse_uint64;
  parse-pack = parse_uint64-uint64_bytes;
  length-pack = length-uint64_bytes;
}

abbrev pub metadata : MetadataManager
metadata = record { height_prefix = 0 ∷ []; timestamp_prefix = 1 ∷ []; fee_prefix = 2 ∷ [] }

abbrev pub rules : Rules
rules = record {
  chain_id = 9 ∷ [];
  validity_window = 60000;
  min_block_gap = 100;
  min_empty_block_gap = 2500;
  max_actions_per_tx = 16;
  fee_rules = record {
    min_unit_price = replicate 5 1;
    unit_price_change_denominator = replicate 5 48;
    window_target_units = replicate 5 1000;
  };
  max_block_units = replicate 5 100000;
  base_compute_units = 1;
  storage_key_read_units = 5;
  storage_value_read_units = 2;
  storage_key_allocate_units = 20;
  storage_value_allocate_units = 5;
  storage_key_write_units = 10;
  storage_value_write_units = 3;
}

abbrev pub handler : BalanceHandler
handler = record {
  sponsor_state_keys = λ sponsor. [];
  can_deduct = λ sponsor im amount. ok tt;
  deduct = λ sponsor amount. done (ok tt);
}

abbrev processor : Processor
processor = record {
  to_id = λ b. b;
  rules_at = λ t. rules;
  metadata_manager = metadata;
  balance_handler = handler;
  signatures_valid = λ txs. true;
  is_unrepeated = λ b. true;
  now = 10000;
}

-- The state of the genesis block.
abbrev pub genesis_state : Bytes → Outcome Error Bytes
genesis_state k =
    if k == (0 ∷ 0 ∷ 1 ∷ [])
    then ok (replicate 8 0)
    else if k == (1 ∷ 0 ∷ 1 ∷ [])
    then ok (replicate 8 0)
    else if k == (2 ∷ 0 ∷ 8 ∷ [])
    then ok []
    else err not_found

abbrev genesis : ParentView
genesis = record { read_key = genesis_state; merkle_root = 5 ∷ []; no_empty_key = refl }

abbrev first_block : Block
first_block = record {
  id = 1 ∷ [];
  parent = [];
  timestamp = 3000;
  height = 1;
  txs = [];
  state_root = 5 ∷ [];
}

abbrev or_output : Outcome BlockError OutputBlock → OutputBlock
or_output (ok out) = out
or_output (err e) = record {
  block = first_block;
  changes = record { changed_keys = λ k. none; ops = 0 };
  results = [];
  unit_prices = [];
  units_consumed = [];
}

abbrev is_ok : Outcome BlockError OutputBlock → Bool
is_ok (ok out) = true
is_ok (err e) = false

or_output_lem : (r : Outcome BlockError OutputBlock) → is_ok r ≡ true → r ≡ ok (or_output r)
or_output_lem (ok out) h = refl
or_output_lem (err e) h = cc

first_output : OutputBlock
first_output = or_output (execute_block processor genesis first_block true)

first_output-ok : execute_block processor genesis first_block true ≡ ok first_output
unfolding first_output execute_block create_block_context next_height is_before height_key
    timestamp_key fee_key hypersdk.Keys.encode_chunks parse_uint64 get_uint64 compute_next
    compute_dimensions compute_next_price_window sum seconds_since new_manager update put_uint64
    roll window unit_price last_consumed next_price next_window raw_price base_delta
    write_block_context insert verify_value num_chunks max_chunks is_unchanged get_value_of new_view
    settle overwrite create copy_at uint64_bytes divide new consume_units execute_each
    complete_permissions commit
first_output-ok = or_output_lem (execute_block processor genesis first_block true) refl

first_output-empty :
    get_value_of (new_view first_output.changes complete_permissions (λ j. err not_found)) []
    ≡ err not_found
unfolding first_output execute_block create_block_context next_height is_before height_key
    timestamp_key fee_key hypersdk.Keys.encode_chunks parse_uint64 get_uint64 compute_next
    compute_dimensions compute_next_price_window sum seconds_since new_manager update put_uint64
    roll window unit_price last_consumed next_price next_window raw_price base_delta
    write_block_context insert verify_value num_chunks max_chunks is_unchanged get_value_of new_view
    settle overwrite create copy_at uint64_bytes divide new consume_units execute_each
    complete_permissions commit
first_output-empty = refl

abbrev first_state : ParentView
first_state = record {
  read_key =
      λ k. get_value_of (new_view first_output.changes complete_permissions (λ j. err not_found)) k;
  merkle_root = 6 ∷ [];
  no_empty_key = first_output-empty;
}

abbrev second_block : Block
second_block = record {
  id = 2 ∷ [];
  parent = 1 ∷ [];
  timestamp = 6000;
  height = 2;
  txs = [];
  state_root = 6 ∷ [];
}

second_output : OutputBlock
second_output = or_output (execute_block processor first_state second_block true)

second_output-ok : execute_block processor first_state second_block true ≡ ok second_output
unfolding second_output first_output execute_block create_block_context next_height is_before
    height_key timestamp_key fee_key hypersdk.Keys.encode_chunks parse_uint64 get_uint64
    compute_next compute_dimensions compute_next_price_window sum seconds_since new_manager update
    put_uint64 roll window unit_price last_consumed next_price next_window raw_price base_delta
    write_block_context insert verify_value num_chunks max_chunks is_unchanged get_value_of new_view
    settle overwrite create copy_at uint64_bytes divide new consume_units execute_each
    complete_permissions commit
second_output-ok = or_output_lem (execute_block processor first_state second_block true) refl

execute_block-chain_example :
    (second_block.height ≡ first_block.height + 1)
    × (first_block.timestamp + rules.min_block_gap ≤ second_block.timestamp)
    × (second_block.txs ≡ []
        → first_block.timestamp + rules.min_empty_block_gap ≤ second_block.timestamp)
unfolding height_key timestamp_key fee_key hypersdk.Keys.encode_chunks
execute_block-chain_example =
    execute_block-chain processor genesis first_state first_block second_block true true
      first_output second_output (λ e. cc) (λ e. cc) (λ e. cc)
      (parse_uint64-uint64_bytes 1 (omega arith)) (parse_uint64-uint64_bytes 3000 (omega arith))
      (omega arith) (omega arith) (omega arith) (omega arith) first_output-ok (λ k x h. h)
      second_output-ok

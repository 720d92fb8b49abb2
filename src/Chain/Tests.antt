-- ===== src/Chain/Tests.antt =====
-- chain: runs at concrete inputs.
use hypersdk.Base.{
  ◌≡◌, ◌↔◌, refl, true, false, [], ◌∷◌, none, some, Bytes, Bytes_eq, ok, err, if◌then◌else◌, arith,
  replicate, List,
}
use hypersdk.Keys.{max_chunks, valid}
use hypersdk.State.Permissions.{union}
use hypersdk.State.Scope.{Keys, add, grant}
use hypersdk.Math.Checked.{CheckedMath, exact_math}
use hypersdk.Math.Operator.{new_operator, op_add, op_mul_add, value}
use hypersdk.Fees.Manager.{new_manager, fee, fee_from, unit_price}
use hypersdk.Fees.Manager.{consume, misfit}
use hypersdk.Fees.Manager.Layout.{Dim, layout}
use hypersdk.Chain.Processor.{consume_units}
use hypersdk.Chain.Consumption.{Consumed, consume_units-Consumed}
use hypersdk.TState.View.{View, not_found}
use hypersdk.TState.WellFormed.{IsWellFormed}
use hypersdk.TState.Session.{step}
use hypersdk.Chain.Program.{done, insert_then, remove_then, perform}
use hypersdk.Chain.Transaction.{
  Transaction, Action, BalanceHandler, Rules, Result, overflow, units, state_keys, add_action_keys,
  add_keys, charge_keys, charge_actions, execute, run_actions, pre_execute, create_action_id,
}
use hypersdk.Chain.Units.{units_lem, exact_units, all_fit}
use hypersdk.Chain.Admission.{Admissible, pre_execute_iff}
use hypersdk.Chain.Execution.{Restores, execute-charged, execute-failed}

instance abbrev math : CheckedMath
math = exact_math

-- Keys of one byte with room for one chunk: that of the fee, and that of the action.
abbrev fee_key : Bytes
fee_key = 102 ∷ 0 ∷ 1 ∷ []

abbrev action_key : Bytes
action_key = 97 ∷ 0 ∷ 1 ∷ []

abbrev rules : Rules
rules = record {
  chain_id = 9 ∷ [];
  validity_window = 60000;
  min_block_gap = 100;
  min_empty_block_gap = 2500;
  max_actions_per_tx = 16;
  fee_rules = record {
    min_unit_price = replicate 5 1;
    unit_price_change_denominator = replicate 5 48;
    window_target_units = replicate 5 1000;
  };
  max_block_units = replicate 5 100000;
  base_compute_units = 1;
  storage_key_read_units = 5;
  storage_value_read_units = 2;
  storage_key_allocate_units = 20;
  storage_value_allocate_units = 5;
  storage_key_write_units = 10;
  storage_value_write_units = 3;
}

abbrev handler : BalanceHandler
handler = record {
  sponsor_state_keys = λ sponsor. (fee_key, 5) ∷ [];
  can_deduct = λ sponsor im amount. ok tt;
  deduct = λ sponsor amount. insert_then fee_key (1 ∷ []) (λ e. done (ok tt));
}

-- An action that writes and succeeds, and one that writes and fails.
abbrev writing : Action
writing = record {
  valid_range = λ r. (none, none);
  compute_units = λ r. 1;
  state_keys = λ actor id. (action_key, 7) ∷ [];
  execute = λ r t actor id. insert_then action_key (20 ∷ []) (λ e. done (ok (7 ∷ [])));
}

abbrev failing : Action
failing = record {
  valid_range = λ r. (some 10, none);
  compute_units = λ r. 2;
  state_keys = λ actor id. (action_key, 7) ∷ [];
  execute = λ r t actor id. remove_then action_key (λ e. done (err (1 ∷ [])));
}

abbrev tx : Transaction
tx = record {
  base = record { timestamp = 3000; chain_id = 9 ∷ []; max_fee = 100 };
  actions = writing ∷ failing ∷ [];
  auth = record {
    valid_range = λ r. (none, none);
    compute_units = λ r. 3;
    actor = 1 ∷ [];
    sponsor = 1 ∷ [];
  };
  size = 200;
  id = [];
}

abbrev to_id : Bytes → Bytes
to_id b = b

abbrev view : View
view = record {
  ts = record { changed_keys = λ k. none; ops = 0 };
  pending = λ k. none;
  ops = [];
  scope = λ k p. true;
  storage = λ k. err not_found;
  allocates = λ k. none;
  writes = λ k. none;
}

view-IsWellFormed : IsWellFormed view
view-IsWellFormed k = (refl, refl)

abbrev declared : Keys
declared = (action_key, 7) ∷ (fee_key, 5) ∷ []

state_keys-declared : state_keys to_id tx handler ≡ ok declared
unfolding state_keys add_action_keys add_keys create_action_id add grant valid union
state_keys-declared = refl

units_lem_example : units to_id tx handler rules ≡ (
    if all_fit (exact_units tx rules (1 ∷ 1 ∷ []))
    then ok (exact_units tx rules (1 ∷ 1 ∷ []))
    else err overflow)
unfolding max_chunks
units_lem_example =
    units_lem to_id tx handler rules declared (1 ∷ 1 ∷ []) (omega arith) (omega arith)
      state_keys-declared refl (omega arith)

pre_execute_iff_example :
    (pre_execute to_id tx (new_manager []) handler rules view.storage 2500 ≡ ok tt)
    ↔ Admissible to_id math tx (new_manager []) handler rules view.storage 2500
pre_execute_iff_example = pre_execute_iff to_id tx (new_manager []) handler rules view.storage 2500

abbrev reverted : Result
reverted = record {
  success = false;
  error = 1 ∷ [];
  outputs = (7 ∷ []) ∷ [];
  units = 200 ∷ 7 ∷ 14 ∷ 50 ∷ 26 ∷ [];
  fee = 0;
}

execute-reverted : (execute to_id tx (new_manager []) handler rules view 2500).1 ≡ ok reverted
unfolding execute units state_keys add_action_keys add_keys create_action_id add grant valid union
    charge_keys charge_actions value op_add op_mul_add new_operator fee fee_from unit_price
    hypersdk.Binary.get_uint64 new_manager perform run_actions step
execute-reverted = refl

execute-charged_example :
    (units to_id tx handler rules ≡ ok reverted.units)
    × (fee (new_manager []) reverted.units ≡ some reverted.fee)
    × ((perform (handler.deduct tx.auth.sponsor reverted.fee) view).1 ≡ ok tt)
execute-charged_example =
    execute-charged to_id tx (new_manager []) handler rules view 2500 reverted execute-reverted

execute-failed_example :
    Restores
      (execute to_id tx (new_manager []) handler rules view 2500).0
      (perform (handler.deduct tx.auth.sponsor reverted.fee) view).0
execute-failed_example =
    execute-failed to_id tx (new_manager []) handler rules view 2500 reverted view-IsWellFormed
      execute-reverted refl

-- Five dimensions that have consumed nothing yet.
abbrev dims : List Dim
dims = replicate 5 (record { price = 1; slots = replicate 10 0; consumed = 0 })

units-tx : units to_id tx handler rules ≡ ok reverted.units
unfolding units state_keys add_action_keys add_keys create_action_id add grant valid union
    charge_keys charge_actions value op_add op_mul_add new_operator max_chunks
units-tx = refl

charged : Bytes
charged = (consume (layout 8 dims) reverted.units rules.max_block_units).0

consume_units-charged : consume_units to_id handler rules (layout 8 dims) (tx ∷ []) ≡ ok charged
unfolding charged consume_units consume misfit hypersdk.Fees.Manager.commit
    hypersdk.Fees.Manager.last_consumed hypersdk.Fees.Manager.Layout.flat
    hypersdk.Binary.encode_words hypersdk.Binary.uint64_bytes hypersdk.Binary.get_uint64 units
    state_keys add_action_keys add_keys create_action_id add grant valid union charge_keys
    charge_actions value op_add op_mul_add new_operator max_chunks
    hypersdk.Fees.Manager.set_last_consumed hypersdk.Binary.put_uint64
consume_units-charged = refl

consume_units-Consumed_example : Consumed to_id handler rules 8 dims (reverted.units ∷ []) charged
consume_units-Consumed_example =
    consume_units-Consumed to_id handler rules 8 dims (tx ∷ []) (reverted.units ∷ []) charged
      (omega arith) refl refl (omega arith) (omega arith) (units-tx, omega arith, refl, tt)
      consume_units-charged

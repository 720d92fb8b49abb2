-- ===== src/Chain/PendingTests.antt =====
-- chain/pre_executor.go: a run at a concrete input.
use hypersdk.Base.{
  ◌≡◌, ◌↔◌, refl, Bool, true, false, [], ◌∷◌, Option, none, some, Bytes, ◌==◌, Bytes_eq,
  if◌then◌else◌, Bool-cases, inl, inr, Outcome, ok, err, arith,
}
use hypersdk.Chain.Transaction.{Transaction, state_keys}
use hypersdk.Chain.PreExecutor.{
  PreExecutor, PendingError, IsPending, pre_execute_pending, pre_execute_pending_iff,
}
use hypersdk.Chain.BlockTests.{math, metadata, rules, handler, genesis_state}
use hypersdk.Replay.Emap.{new_emap}
use hypersdk.Replay.Window.{Window, Block}
use hypersdk.Replay.Walk.{HeightsRise}

abbrev tx : Transaction
tx = record {
  base = record { timestamp = 5000; chain_id = 9 ∷ []; max_fee = 0 };
  actions = [];
  auth = record {
    valid_range = λ r. (none, none);
    compute_units = λ r. 1;
    actor = 4 ∷ [];
    sponsor = 4 ∷ [];
  };
  size = 200;
  id = 8 ∷ [];
}

abbrev genesis_block : Block
genesis_block = record { id = 0 ∷ []; parent = []; timestamp = 0; height = 0; containers = [] }

-- Its child, on which the next block is to stand.
abbrev parent : Block
parent = record {
  id = 1 ∷ [];
  parent = 0 ∷ [];
  timestamp = 2000;
  height = 1;
  containers = record { id = 6 ∷ []; expiry = 4000 } ∷ [];
}

abbrev find_block : Bytes → Option Block
find_block k =
    if k == (0 ∷ []) then some genesis_block else if k == (1 ∷ []) then some parent else none

abbrev pre_executor : PreExecutor
pre_executor = record {
  to_id = λ b. b;
  rules_at = λ t. rules;
  metadata_manager = metadata;
  balance_handler = handler;
  get_block = λ id. find_block id;
  window_of = λ t. 60000;
  signature_valid = λ t. true;
}

abbrev window : Window
window = record { seen = new_emap; last_accepted_block_height = 0 }

rises : HeightsRise pre_executor.get_block pre_executor.window_of
rises k b h p q = elim (Bool-cases (k == (0 ∷ []))) [
  | inl e ↦ absurd (ground arith)
  | inr e ↦ elim (Bool-cases (k == (1 ∷ []))) [
    | inl f ↦ ground arith
    | inr f ↦ absurd (ground arith)
  ]
]

pre_execute_pending_iff_example :
    (pre_execute_pending pre_executor window 3000 parent genesis_state tx ≡ ok tt)
    ↔ IsPending pre_executor window 3000 parent genesis_state tx
pre_execute_pending_iff_example =
    pre_execute_pending_iff pre_executor window 3000 parent genesis_state tx rises
      (λ p q. ground arith)

abbrev is_ok : Outcome PendingError (Unit {0}) → Bool
is_ok (ok x) = true
is_ok (err e) = false

-- It is accepted, though its MaxFee is 0.
tx-accepted : is_ok (pre_execute_pending pre_executor window 3000 parent genesis_state tx) ≡ true
unfolding pre_execute_pending hypersdk.Chain.Processor.fee_key hypersdk.Keys.encode_chunks
    hypersdk.Fees.Manager.compute_next hypersdk.Fees.Manager.compute_dimensions
    hypersdk.Fees.Price.compute_next_price_window hypersdk.Fees.Window.sum
    hypersdk.Binary.get_uint64 hypersdk.Fees.Manager.seconds_since hypersdk.Fees.Manager.new_manager
    hypersdk.Fees.Window.update hypersdk.Binary.put_uint64 hypersdk.Fees.Window.roll
    hypersdk.Fees.Manager.window hypersdk.Fees.Manager.last_consumed
    hypersdk.Replay.Window.is_repeat hypersdk.Replay.Emap.contains_items new_emap
    hypersdk.Binary.copy_at hypersdk.Binary.uint64_bytes hypersdk.Chain.PreExecutor.item_of
    hypersdk.Chain.Timestamp.verify_timestamp hypersdk.Chain.Transaction.add_action_keys
    hypersdk.Chain.Transaction.add_keys hypersdk.Chain.Transaction.base_execute
    hypersdk.Chain.Transaction.charge_actions hypersdk.Chain.Transaction.charge_keys
    hypersdk.Chain.Transaction.check_actions hypersdk.Chain.Transaction.out_of_range
    hypersdk.Chain.Transaction.pre_execute state_keys hypersdk.Chain.Transaction.units
    hypersdk.Fees.Manager.fee hypersdk.Fees.Manager.unit_price hypersdk.Fees.Price.base_delta
    hypersdk.Fees.Price.divide hypersdk.Fees.Price.next_price hypersdk.Fees.Price.next_window
    hypersdk.Fees.Price.raw_price hypersdk.Math.Operator.new_operator hypersdk.Math.Operator.op_add
    hypersdk.Math.Operator.op_mul_add hypersdk.Math.Operator.value hypersdk.Replay.Emap.mark
    hypersdk.Replay.Window.calculate_oldest_allowed hypersdk.Replay.Window.is_repeat_from
    hypersdk.Replay.Window.is_repeat_of hypersdk.Fees.Manager.fee_from
tx-accepted = refl

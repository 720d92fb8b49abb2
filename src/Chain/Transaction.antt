-- ===== src/Chain/Transaction.antt =====
-- chain/transaction.go, chain/base.go and chain/utils.go: a transaction, with the interfaces of
-- chain/dependencies.go that it calls. A bound of a valid range is `none` where Go has a negative
-- number. The bytes of a transaction come from the codec, so their number and the identifier that
-- is their hash are fields. `StateKeys` is computed at each call, where Go keeps its first result.
use hypersdk.Base.{
  ℕ, suc, ◌%◌, ◌++◌, Bool, true, false, List, [], ◌∷◌, Option, none, some, Bytes, ◌==◌, Bytes_eq,
  ltb, not, ◌||◌, length, take, if◌then◌else◌, Outcome, ok, err, ◌>>=◌, ◌>>◌, guard,
}
use hypersdk.Keys.{max_chunks}
use hypersdk.State.Scope.{Keys, add}
use hypersdk.Math.Checked.{CheckedMath}
use hypersdk.Math.Operator.{Uint64Operator, new_operator, op_add, op_mul_add, value}
use hypersdk.Fees.Dimensions.{Dimensions}
use hypersdk.Fees.Manager.{fee, FeeRules}
use hypersdk.TState.View.{View, Error, op_index, rollback}
use hypersdk.Chain.Program.{Program, perform}
use hypersdk.Chain.Timestamp.{TimeError, verify_timestamp}

pub record Rules : Type 0 where
  pub chain_id : Bytes
  pub validity_window : ℕ
  pub min_block_gap : ℕ
  pub min_empty_block_gap : ℕ
  pub max_actions_per_tx : ℕ
  pub fee_rules : FeeRules
  pub max_block_units : Dimensions
  pub base_compute_units : ℕ
  pub storage_key_read_units : ℕ
  pub storage_value_read_units : ℕ
  pub storage_key_allocate_units : ℕ
  pub storage_value_allocate_units : ℕ
  pub storage_key_write_units : ℕ
  pub storage_value_write_units : ℕ

-- `Execute` returns the output, or the bytes of an error.
pub record Action : Type 0 where
  pub valid_range : Rules → Option ℕ × Option ℕ
  pub compute_units : Rules → ℕ
  pub state_keys : Bytes → Bytes → Keys
  pub execute : Rules → ℕ → Bytes → Bytes → Program (Outcome Bytes Bytes)

pub record Auth : Type 0 where
  pub valid_range : Rules → Option ℕ × Option ℕ
  pub compute_units : Rules → ℕ
  pub actor : Bytes
  pub sponsor : Bytes

pub record BalanceHandler : Type 0 where
  pub sponsor_state_keys : Bytes → Keys
  pub can_deduct : Bytes → (Bytes → Outcome Error Bytes) → ℕ → Outcome Bytes (Unit {0})
  pub deduct : Bytes → ℕ → Program (Outcome Bytes (Unit {0}))

pub record Base : Type 0 where
  pub timestamp : ℕ
  pub chain_id : Bytes
  pub max_fee : ℕ

pub record Transaction : Type 0 where
  pub base : Base
  pub actions : List Action
  pub auth : Auth
  pub size : ℕ
  pub id : Bytes

-- `overflow` is the error of the checked arithmetic.
pub data TxError : Type 0 where
  invalid_chain_id too_many_actions auth_not_activated invalid_key_value overflow : TxError
  action_not_activated : ℕ → TxError
  bad_time : TimeError → TxError
  balance_error : Bytes → TxError

pub record Result : Type 0 where
  pub success : Bool
  pub error : Bytes
  pub outputs : List Bytes
  pub units : Dimensions
  pub fee : ℕ

-- `validityWindowTimestampDivisor`
abbrev pub timestamp_divisor : ℕ
timestamp_divisor = 1000

abbrev pub lift_error : {E F A : Type 0} → (E → F) → Outcome E A → Outcome F A
lift_error f (ok a) = ok a
lift_error f (err e) = err (f e)

-- A `none` is the error `e`.
abbrev pub or_error : {E A : Type 0} → E → Option A → Outcome E A
or_error e none = err e
or_error e (some a) = ok a

-- `Base.Execute`
unfoldable pub base_execute : Base → Rules → ℕ → Outcome TxError (Unit {0})
base_execute b r timestamp = do
  guard (b.chain_id == r.chain_id) invalid_chain_id
  lift_error bad_time (verify_timestamp b.timestamp timestamp timestamp_divisor r.validity_window)

-- Whether a time lies outside a valid range.
unfoldable pub out_of_range : Option ℕ × Option ℕ → ℕ → Bool
out_of_range (start, end) timestamp =
    elim start [ none ↦ false | some s ↦ ltb timestamp s ]
    || elim end [ none ↦ false | some e ↦ ltb e timestamp ]

-- The loop of `PreExecute` over the actions, from the `i`th on.
unfoldable pub check_actions : Rules → ℕ → ℕ → List Action → Outcome TxError (Unit {0})
unfolding out_of_range
check_actions r timestamp i [] = ok tt
check_actions r timestamp i (a ∷ as') =
    if out_of_range (a.valid_range r) timestamp
    then err (action_not_activated i)
    else check_actions r timestamp (suc i) as'

-- A loop of `StateKeys` over the keys that one action or the sponsor declares.
unfoldable pub add_keys : Keys → Keys → Outcome TxError Keys
unfolding add
add_keys [] ks = ok ks
add_keys ((k, p) ∷ new) ks = do
  let (grown, fits) = add ks k p
  if fits then add_keys new grown else err invalid_key_value

-- `CreateActionID`, over the hash `utils.ToID`
unfoldable pub create_action_id : (Bytes → Bytes) → Bytes → ℕ → Bytes
create_action_id to_id tx_id i = to_id (take 32 tx_id ++ i % 256 ∷ [])

module _ (to_id : Bytes → Bytes) where
  unfoldable pub add_action_keys : Transaction → ℕ → List Action → Keys → Outcome TxError Keys
  unfolding add_keys
  add_action_keys tx i [] ks = ok ks
  add_action_keys tx i (a ∷ as') ks = do
    grown ← add_keys (a.state_keys tx.auth.actor (create_action_id to_id tx.id i)) ks
    add_action_keys tx (suc i) as' grown

  -- `StateKeys`
  unfoldable pub state_keys : Transaction → BalanceHandler → Outcome TxError Keys
  state_keys tx bh = do
    ks ← add_action_keys tx 0 tx.actions []
    add_keys (bh.sponsor_state_keys tx.auth.sponsor) ks

-- `readsOp`, `allocatesOp` and `writesOp` of `Units`
pub record KeyCosts : Type 0 where
  pub reads : Uint64Operator
  pub allocates : Uint64Operator
  pub writes : Uint64Operator

module _ ⦃m : CheckedMath⦄ where
  -- The cost of a key and of the chunks of its value.
  abbrev pub charge_key : Uint64Operator → ℕ → ℕ → ℕ → Uint64Operator
  charge_key o key_units chunks value_units = op_mul_add (op_add o key_units) chunks value_units

  -- The loop of `Units` over the keys.
  unfoldable pub charge_keys : Rules → Keys → KeyCosts → Outcome TxError KeyCosts
  charge_keys r [] c = ok c
  charge_keys r ((k, p) ∷ ks) c = do
    chunks ← or_error invalid_key_value (max_chunks k)
    charge_keys r ks record {
      reads = charge_key c.reads r.storage_key_read_units chunks r.storage_value_read_units;
      allocates =
          charge_key c.allocates r.storage_key_allocate_units chunks r.storage_value_allocate_units;
      writes = charge_key c.writes r.storage_key_write_units chunks r.storage_value_write_units;
    }

  -- The loop of `Units` over the actions.
  unfoldable pub charge_actions : Rules → List Action → Uint64Operator → Uint64Operator
  charge_actions r [] o = o
  charge_actions r (a ∷ as') o = charge_actions r as' (op_add o (a.compute_units r))

  abbrev pub compute_operator : Transaction → Rules → Uint64Operator
  compute_operator tx r =
      op_add (charge_actions r tx.actions (new_operator r.base_compute_units))
        (tx.auth.compute_units r)

  abbrev pub no_costs : KeyCosts
  no_costs = record { reads = new_operator 0; allocates = new_operator 0; writes = new_operator 0 }

module _ (to_id : Bytes → Bytes) ⦃m : CheckedMath⦄ where
  -- `Units`
  unfoldable pub units : Transaction → BalanceHandler → Rules → Outcome TxError Dimensions
  units tx bh r = do
    compute ← or_error overflow (value (compute_operator tx r))
    ks ← state_keys to_id tx bh
    c ← charge_keys r ks no_costs
    reads ← or_error overflow (value c.reads)
    allocates ← or_error overflow (value c.allocates)
    writes ← or_error overflow (value c.writes)
    ok (tx.size ∷ compute ∷ reads ∷ allocates ∷ writes ∷ [])

  -- `PreExecute`, over the array of the fee manager and the reads of the state
  unfoldable pub pre_execute :
      Transaction
      → Bytes
      → BalanceHandler
      → Rules
      → (Bytes → Outcome Error Bytes)
      → ℕ
      → Outcome TxError (Unit {0})
  pre_execute tx manager bh r im timestamp = do
    base_execute tx.base r timestamp
    guard (not (ltb r.max_actions_per_tx (length tx.actions))) too_many_actions
    check_actions r timestamp 0 tx.actions
    guard (not (out_of_range (tx.auth.valid_range r) timestamp)) auth_not_activated
    u ← units tx bh r
    f ← or_error overflow (fee manager u)
    lift_error balance_error (bh.can_deduct tx.auth.sponsor im f)

  -- The loop of `Execute` over the actions from the `i`th on, with the outputs so far.
  unfoldable pub run_actions :
      Transaction
      → Rules
      → ℕ
      → ℕ
      → Dimensions
      → ℕ
      → ℕ
      → List Action
      → List Bytes
      → View
      → View × Result
  run_actions tx r timestamp start u f i [] outputs v =
      (v, record { success = true; error = []; outputs = outputs; units = u; fee = f })
  run_actions tx r timestamp start u f i (a ∷ as') outputs v =
      let (w, done) =
        perform (a.execute r timestamp tx.auth.actor (create_action_id to_id tx.id i)) v in
      elim done [
        | err e ↦ (
          rollback w start,
          record { success = false; error = e; outputs = outputs; units = u; fee = f },
        )
        | ok output ↦ run_actions tx r timestamp start u f (suc i) as' (outputs ++ output ∷ []) w
      ]

  -- `Execute`: the view that it leaves, and the result
  unfoldable pub execute :
      Transaction → Bytes → BalanceHandler → Rules → View → ℕ → View × Outcome TxError Result
  execute tx manager bh r v timestamp = elim (units tx bh r) [
    | err e ↦ (v, err e)
    | ok u ↦ elim (fee manager u) [
      | none ↦ (v, err overflow)
      | some f ↦
          let (w, paid) = perform (bh.deduct tx.auth.sponsor f) v in
          elim paid [
            | err e ↦ (w, err (balance_error e))
            | ok _ ↦
                let (end, result) = run_actions tx r timestamp (op_index w) u f 0 tx.actions [] w in
                (end, ok result)
          ]
    ]
  ]

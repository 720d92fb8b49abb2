-- ===== src/Chain/Processor.antt =====
-- chain/processor.go, with the keys of chain/consts.go. The signature checks of the workers, the
-- fetching of keys and the executor run at once in Go. The executor lets conflicting transactions
-- run in the order of the block, and a fee depends on the prices alone, so here the fees of all are
-- consumed first and then the transactions run in that order. Where several checks fail, Go may
-- return the error of another. The view of the parent is its reads and its root; the view that is
-- made of the changes is these changes.
use hypersdk.Base.{
  ℕ, ◌+◌, ◌%◌, ◌^◌, Bool, true, false, List, [], ◌∷◌, Option, none, some, Bytes, ◌==◌, Bytes_eq,
  contains, ◌≡◌, ltb, nat_eq, not, ◌&&◌, ◌||◌, if◌then◌else◌, Outcome, ok, err, ◌>>=◌, ◌>>◌, guard,
}
use hypersdk.Binary.{uint64_bytes}
use hypersdk.Keys.{encode_chunks, num_chunks}
use hypersdk.State.Scope.{keys_has, without_permissions, complete_permissions}
use hypersdk.Math.Checked.{CheckedMath}
use hypersdk.Fees.Dimensions.{Dimensions}
use hypersdk.Fees.Manager.{consume, compute_next, new_manager, unit_prices, units_consumed}
use hypersdk.TState.View.{TState, View, Error, not_found, new, new_view, insert, get_value, commit}
use hypersdk.Balance.Handler.{Uint64Codec}
use hypersdk.Chain.Transaction.{
  Transaction, BalanceHandler, Rules, Result, TxError, state_keys, units, pre_execute, execute,
  lift_error, or_error,
}

pub record Block : Type 0 where
  pub id : Bytes
  pub parent : Bytes
  pub timestamp : ℕ
  pub height : ℕ
  pub txs : List Transaction
  pub state_root : Bytes

pub record MetadataManager : Type 0 where
  pub height_prefix : Bytes
  pub timestamp_prefix : Bytes
  pub fee_prefix : Bytes

-- `HeightKey`, `TimestampKey` and `FeeKey`
unfoldable pub height_key : MetadataManager → Bytes
height_key mm = encode_chunks mm.height_prefix 1

unfoldable pub timestamp_key : MetadataManager → Bytes
timestamp_key mm = encode_chunks mm.timestamp_prefix 1

unfoldable pub fee_key : MetadataManager → Bytes
fee_key mm = encode_chunks mm.fee_prefix 8

-- The view of the parent: `GetValue` and `GetMerkleRoot`. A key of the state ends with the number of
-- its chunks, so there is nothing under the empty key.
pub record ParentView : Type 0 where
  pub read_key : Bytes → Outcome Error Bytes
  pub merkle_root : Bytes
  pub no_empty_key : read_key [] ≡ err not_found

pub record BlockContext : Type 0 where
  pub height : ℕ
  pub timestamp : ℕ
  pub fee_manager : Bytes

pub data BlockError : Type 0 where
  timestamp_too_late failed_to_fetch_parent_height failed_to_parse_parent_height : BlockError
  invalid_block_height failed_to_fetch_parent_timestamp : BlockError
  failed_to_parse_parent_timestamp timestamp_too_early timestamp_too_early_empty_block : BlockError
  failed_to_fetch_parent_fee duplicate_tx state_root_mismatch invalid_signature : BlockError
  failed_to_fetch_keys division_panic : BlockError
  invalid_units_consumed : ℕ → BlockError
  bad_tx : TxError → BlockError
  failed_to_insert : Error → BlockError

abbrev pub replace_error : {E F A : Type 0} → F → Outcome E A → Outcome F A
replace_error f (ok a) = ok a
replace_error f (err e) = err f

-- `FutureBound`, in milliseconds
abbrev pub future_bound : ℕ
future_bound = 1000

-- `parentHeight + 1` on uint64
unfoldable pub next_height : ℕ → ℕ
next_height height = (height + 1) % 2 ^ 64

-- `timestamp < parentTimestamp + gap` on int64, whose values stand as those of uint64 that have their
-- bits. The sum wraps round.
unfoldable pub is_before : ℕ → ℕ → ℕ → Bool
is_before timestamp parent_timestamp gap =
    ltb ((timestamp + 2 ^ 63) % 2 ^ 64) ((parent_timestamp + gap + 2 ^ 63) % 2 ^ 64)

abbrev pub no_txs : List Transaction → Bool
no_txs [] = true
no_txs (tx ∷ txs) = false

module _ (mm : MetadataManager) where
  -- `createBlockContext`
  unfoldable pub create_block_context :
      ⦃c : Uint64Codec⦄ ⦃m : CheckedMath⦄
      → (Bytes → Outcome Error Bytes)
      → Block
      → Rules
      → Outcome BlockError BlockContext
  create_block_context ⦃c⦄ im b r = do
    height_raw ← replace_error failed_to_fetch_parent_height (im (height_key mm))
    parent_height ← or_error failed_to_parse_parent_height (c.parse height_raw)
    guard (nat_eq b.height (next_height parent_height)) invalid_block_height
    timestamp_raw ← replace_error failed_to_fetch_parent_timestamp (im (timestamp_key mm))
    parent_timestamp ← or_error failed_to_parse_parent_timestamp (c.parse timestamp_raw)
    guard (not (is_before b.timestamp parent_timestamp r.min_block_gap)) timestamp_too_early
    guard (not (no_txs b.txs && is_before b.timestamp parent_timestamp r.min_empty_block_gap))
        timestamp_too_early_empty_block
    fee_raw ← replace_error failed_to_fetch_parent_fee (im (fee_key mm))
    fee_manager ←
        replace_error division_panic (compute_next (new_manager fee_raw) b.timestamp r.fee_rules)
    ok (record { height = b.height; timestamp = b.timestamp; fee_manager = fee_manager })

  -- `writeBlockContext`
  unfoldable pub write_block_context : View → BlockContext → Outcome BlockError View
  write_block_context v bc = do
    v1 ← lift_error failed_to_insert (insert v (height_key mm) (uint64_bytes bc.height))
    v2 ← lift_error failed_to_insert (insert v1 (timestamp_key mm) (uint64_bytes bc.timestamp))
    lift_error failed_to_insert (insert v2 (fee_key mm) bc.fee_manager)

-- `verifyParentRoot`
unfoldable pub verify_parent_root : ParentView → Bytes → Outcome BlockError (Unit {0})
verify_parent_root parent root = guard (root == parent.merkle_root) state_root_mismatch

abbrev is_some : Option ℕ → Bool
is_some none = false
is_some (some n) = true

-- What the fetcher reads of the parent's state: the values of the keys that it is given. A value must have
-- a number of chunks.
abbrev pub is_readable : Outcome Error Bytes → Bool
is_readable (ok x) = is_some (num_chunks x)
is_readable (err not_found) = true
is_readable (err e) = false

unfoldable pub all_readable : (Bytes → Outcome Error Bytes) → List Bytes → Bool
all_readable im [] = true
all_readable im (k ∷ ks) = is_readable (im k) && all_readable im ks

unfoldable pub fetched : (Bytes → Outcome Error Bytes) → List Bytes → Bytes → Outcome Error Bytes
fetched im ks k = if contains k ks then im k else err not_found

module _ (to_id : Bytes → Bytes) ⦃m : CheckedMath⦄ where
  -- The loop of `executeTxs` that consumes the units, over the array of the fee manager.
  unfoldable pub consume_units :
      BalanceHandler → Rules → Bytes → List Transaction → Outcome BlockError Bytes
  consume_units bh r manager [] = ok manager
  consume_units bh r manager (tx ∷ txs) = do
    ks ← lift_error bad_tx (state_keys to_id tx bh)
    u ← lift_error bad_tx (units to_id tx bh r)
    let (charged, fits, d) = consume manager u r.max_block_units
    if fits then consume_units bh r charged txs else err (invalid_units_consumed d)

  -- One transaction of `executeTxs`, in the state that those before it have committed.
  unfoldable pub execute_tx :
      BalanceHandler
      → Rules
      → Bytes
      → (Bytes → Outcome Error Bytes)
      → ℕ
      → TState
      → Transaction
      → Outcome BlockError (TState × Result)
  unfolding all_readable
  execute_tx bh r manager im t ts tx = do
    ks ← lift_error bad_tx (state_keys to_id tx bh)
    let names = without_permissions ks
    guard (all_readable im names) failed_to_fetch_keys
    let v = new_view ts (keys_has ks) (fetched im names)
    lift_error bad_tx (pre_execute to_id tx manager bh r (get_value v) t)
    let (w, o) = execute to_id tx manager bh r v t
    result ← lift_error bad_tx o
    ok (commit w, result)

  unfoldable pub execute_each :
      BalanceHandler
      → Rules
      → Bytes
      → (Bytes → Outcome Error Bytes)
      → ℕ
      → TState
      → List Transaction
      → Outcome BlockError (TState × List Result)
  execute_each bh r manager im t ts [] = ok (ts, [])
  execute_each bh r manager im t ts (tx ∷ txs) = do
    done ← execute_tx bh r manager im t ts tx
    rest ← execute_each bh r manager im t done.0 txs
    ok (rest.0, done.1 ∷ rest.1)

  -- `executeTxs`: the changes, the results, and the array of the fee manager
  unfoldable pub execute_txs :
      BalanceHandler
      → Rules
      → Bytes
      → (Bytes → Outcome Error Bytes)
      → Block
      → Outcome BlockError (TState × List Result × Bytes)
  execute_txs bh r manager im b = do
    charged ← consume_units bh r manager b.txs
    done ← execute_each bh r charged im b.timestamp new b.txs
    ok (done.0, done.1, charged)

-- `OutputBlock`, with the changes that its view is made of
pub record OutputBlock : Type 0 where
  pub block : Block
  pub changes : TState
  pub results : List Result
  pub unit_prices : Dimensions
  pub units_consumed : Dimensions

-- The parts that the processor is given: the hash, the rules, the checks of signatures and of
-- repeats, and the clock.
pub record Processor : Type 0 where
  pub to_id : Bytes → Bytes
  pub rules_at : ℕ → Rules
  pub metadata_manager : MetadataManager
  pub balance_handler : BalanceHandler
  pub signatures_valid : List Transaction → Bool
  pub is_unrepeated : Block → Bool
  pub now : ℕ

module _ ⦃c : Uint64Codec⦄ ⦃m : CheckedMath⦄ where
  -- `Execute`
  unfoldable pub execute_block :
      Processor → ParentView → Block → Bool → Outcome BlockError OutputBlock
  unfolding execute_txs verify_parent_root
  execute_block p parent b is_normal_op = do
    let r = p.rules_at b.timestamp
    let mm = p.metadata_manager
    guard (not (ltb (p.now + future_bound) b.timestamp)) timestamp_too_late
    bc ← create_block_context mm parent.read_key b r
    guard (not is_normal_op || p.is_unrepeated b) duplicate_tx
    (ts, results, charged) ←
        execute_txs p.to_id p.balance_handler r bc.fee_manager parent.read_key b
    v ←
        write_block_context mm (new_view ts complete_permissions (λ k. err not_found))
          (record bc { fee_manager = charged })
    verify_parent_root parent b.state_root
    guard (p.signatures_valid b.txs) invalid_signature
    ok record {
      block = b;
      changes = commit v;
      results = results;
      unit_prices = unit_prices charged;
      units_consumed = units_consumed charged;
    }

-- ===== src/Chain/PreExecutor.antt =====
-- chain/pre_executor.go: the checks on a transaction before it waits in the mempool. The rules, the
-- clock, the check of the signature and the index of blocks are given.
use hypersdk.Base.{
  ℕ, ◌≡◌, ◌↔◌, Bool, true, not, [], ◌∷◌, Option, Bytes, Outcome, ok, ◌>>=◌, ◌>>◌, guard,
  Outcome-cases, inl, inr, arith,
}
use hypersdk.Math.Checked.{CheckedMath}
use hypersdk.TState.View.{Error}
use hypersdk.Fees.Manager.{new_manager, compute_next}
use hypersdk.Chain.Transaction.{
  Transaction, Rules, BalanceHandler, TxError, lift_error, state_keys, pre_execute,
}
use hypersdk.Chain.Admission.{Admissible, pre_execute_iff}
use hypersdk.Chain.Declared.{DeclaresValid, state_keys-DeclaresValid, DeclaresValid-state_keys}
use hypersdk.Chain.Processor.{MetadataManager, fee_key, replace_error}
use hypersdk.Replay.Emap.{Item}
use hypersdk.Replay.Window.{
  Window, Block, ReplayError, is_repeat, any_marked, calculate_oldest_allowed,
}
use hypersdk.Replay.Walk.{Rises, HeightsRise}
use hypersdk.Replay.Fresh.{IsNew, is_repeat_one-IsNew, IsNew-is_repeat}

-- `ErrDuplicateTx` is `duplicate_tx`; a division by zero in the prices panics.
pub data PendingError : Type 0 where
  failed_to_fetch_parent_fee division_panic duplicate_tx invalid_signature : PendingError
  replay_error : ReplayError → PendingError
  tx_error : TxError → PendingError

pub record PreExecutor : Type 0 where
  pub to_id : Bytes → Bytes
  pub rules_at : ℕ → Rules
  pub metadata_manager : MetadataManager
  pub balance_handler : BalanceHandler
  pub get_block : Bytes → Option Block
  pub window_of : ℕ → ℕ
  pub signature_valid : Transaction → Bool

-- A transaction for the validity window: its identifier and its expiry.
unfoldable pub item_of : Transaction → Item
item_of tx = record { id = tx.id; expiry = tx.base.timestamp }

module _ ⦃m : CheckedMath⦄ where
  -- `PreExecutor.PreExecute`, at the time `now`, of the window and the parent of the pending block.
  unfoldable pub pre_execute_pending :
      PreExecutor
      → Window
      → ℕ
      → Block
      → (Bytes → Outcome Error Bytes)
      → Transaction
      → Outcome PendingError (Unit {0})
  unfolding item_of
  pre_execute_pending p w now parent im tx = do
    fee_raw ← replace_error failed_to_fetch_parent_fee (im (fee_key p.metadata_manager))
    next ←
        replace_error division_panic
          (compute_next (new_manager fee_raw) now (p.rules_at now).fee_rules)
    marks ←
        lift_error replay_error (is_repeat p.get_block p.window_of w parent now (item_of tx ∷ []))
    guard (not (any_marked marks)) duplicate_tx
    ks ← lift_error tx_error (state_keys p.to_id tx p.balance_handler)
    guard (p.signature_valid tx) invalid_signature
    lift_error tx_error (pre_execute p.to_id tx next p.balance_handler (p.rules_at now) im now)

  -- What an accepted transaction fulfils.
  pub record IsPending (p : PreExecutor) (w : Window) (now : ℕ) (parent : Block)
      (im : Bytes → Outcome Error Bytes) (tx : Transaction) : Type 0 where
    pub parent_fees : Bytes
    pub next_fees : Bytes
    pub fees_read : im (fee_key p.metadata_manager) ≡ ok parent_fees
    pub fees_next :
        compute_next (new_manager parent_fees) now (p.rules_at now).fee_rules ≡ ok next_fees
    pub unrepeated :
        IsNew p.get_block p.window_of w
          (calculate_oldest_allowed p.get_block p.window_of now)
          parent
          tx.id
    pub keys_valid : DeclaresValid p.to_id tx p.balance_handler
    pub signed : p.signature_valid tx ≡ true
    pub admissible : Admissible p.to_id m tx next_fees p.balance_handler (p.rules_at now) im now

  pre_execute_pending-IsPending :
      (p : PreExecutor) (w : Window) (now : ℕ) (parent : Block) (im : Bytes → Outcome Error Bytes)
      (tx : Transaction)
      → pre_execute_pending p w now parent im tx ≡ ok tt
      → IsPending p w now parent im tx
  unfolding pre_execute_pending item_of
  pre_execute_pending-IsPending p w now parent im tx h =
      elim (Outcome-cases (im (fee_key p.metadata_manager))) [
        | inr (e, q) ↦ absurd (ground arith)
        | inl (raw, q) ↦
            elim (Outcome-cases (compute_next (new_manager raw) now (p.rules_at now).fee_rules)) [
              | inr (e, r) ↦ absurd (ground arith)
              | inl (next, r) ↦
                  elim (Outcome-cases
                    (is_repeat p.get_block p.window_of w parent now (item_of tx ∷ []))) [
                      | inr (e, u) ↦ absurd (ground arith)
                      | inl (marks, u) ↦
                          elim (Outcome-cases (state_keys p.to_id tx p.balance_handler)) [
                            | inr (e, v) ↦ absurd (ground arith)
                            | inl (ks, v) ↦ record {
                              parent_fees = raw;
                              next_fees = next;
                              fees_read = q;
                              fees_next = r;
                              unrepeated =
                                  is_repeat_one-IsNew p.get_block p.window_of w parent now
                                    (item_of tx) marks u (ground arith);
                              keys_valid =
                                  state_keys-DeclaresValid p.to_id tx p.balance_handler ks v;
                              signed = ground arith;
                              admissible = ground (
                                arith,
                                pre_execute_iff p.to_id tx next p.balance_handler (p.rules_at now)
                                    im now,
                              );
                            }
                          ]
                    ]
            ]
      ]

  -- Where every indexed block, and the parent of the pending block, is one higher than its parent if
  -- that is indexed, the pre-executor accepts a transaction exactly if the fees of the parent's state
  -- give prices for the next block; the walk from the parent comes to a block that is accepted or too
  -- old, and no block of it in time is known to hold the transaction; the keys that its actions and its
  -- sponsor declare are valid, and its signature too; and PreExecute admits it at these prices, whatever
  -- its MaxFee.
  pub pre_execute_pending_iff :
      (p : PreExecutor) (w : Window) (now : ℕ) (parent : Block) (im : Bytes → Outcome Error Bytes)
      (tx : Transaction)
      → HeightsRise p.get_block p.window_of
      → Rises p.get_block p.window_of parent
      → (pre_execute_pending p w now parent im tx ≡ ok tt) ↔ IsPending p w now parent im tx
  unfolding pre_execute_pending item_of
  pre_execute_pending_iff p w now parent im tx rise own = (
    pre_execute_pending-IsPending p w now parent im tx,
    λ i.
        let admitted =
          (pre_execute_iff p.to_id tx i.next_fees p.balance_handler (p.rules_at now) im now).1
            i.admissible in
        let new =
          IsNew-is_repeat p.get_block p.window_of w parent now (item_of tx) rise own i.unrepeated in
        let (ks, valid) = DeclaresValid-state_keys p.to_id tx p.balance_handler i.keys_valid in
        ground (arith, i.fees_read, i.fees_next, new, valid, i.signed, admitted),
  )

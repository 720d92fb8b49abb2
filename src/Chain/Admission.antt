-- ===== src/Chain/Admission.antt =====
-- chain/transaction.go: when `PreExecute` accepts a transaction.
use hypersdk.Base.{
  ℕ, suc, ◌+◌, ◌≤◌, ◌≡◌, ◌↔◌, ◌%◌, refl, false, List, [], ◌∷◌, Option, none, some, Bytes,
  bytes_eq_iff, length, Outcome, ok, ◌>>=◌, Outcome-cases, Option-cases, inl, inr, arith,
}
use hypersdk.Math.Checked.{CheckedMath}
use hypersdk.Fees.Dimensions.{Dimensions}
use hypersdk.Fees.Manager.{fee}
use hypersdk.TState.View.{Error}
use hypersdk.Chain.Timestamp.{verify_timestamp_iff}
use hypersdk.Chain.Transaction.{
  Transaction, Base, Action, BalanceHandler, Rules, TxError, units, base_execute, out_of_range,
  check_actions, pre_execute, timestamp_divisor, or_error, lift_error, overflow, balance_error,
}

-- The time lies within the bounds that there are.
abbrev pub InRange : Option ℕ × Option ℕ → ℕ → Type 0
InRange (none, none) t = Unit
InRange (some s, none) t = s ≤ t
InRange (none, some e) t = t ≤ e
InRange (some s, some e) t = (s ≤ t) × (t ≤ e)

out_of_range_iff :
    (range : Option ℕ × Option ℕ) (t : ℕ) → (out_of_range range t ≡ false) ↔ InRange range t
unfolding out_of_range
out_of_range_iff (none, none) t = ground arith
out_of_range_iff (some s, none) t = ground arith
out_of_range_iff (none, some e) t = ground arith
out_of_range_iff (some s, some e) t = ground arith

abbrev pub AllActive : Rules → ℕ → List Action → Type 0
AllActive r t [] = Unit
AllActive r t (a ∷ as') = InRange (a.valid_range r) t × AllActive r t as'

check_actions_iff :
    (r : Rules) (t i : ℕ) (as' : List Action)
    → (check_actions r t i as' ≡ ok tt) ↔ AllActive r t as'
unfolding check_actions
check_actions_iff r t i [] = (λ _. tt, λ _. refl)
check_actions_iff r t i (a ∷ as') =
    ground (arith, out_of_range_iff (a.valid_range r) t, check_actions_iff r t (suc i) as')

base_execute_iff :
    (b : Base) (r : Rules) (t : ℕ)
    → (base_execute b r t ≡ ok tt) ↔ (
        (b.chain_id ≡ r.chain_id)
        × (b.timestamp % timestamp_divisor ≡ 0)
        × (t ≤ b.timestamp)
        × (b.timestamp ≤ t + r.validity_window))
unfolding base_execute
base_execute_iff b r t = ground (
  arith,
  bytes_eq_iff b.chain_id r.chain_id,
  verify_timestamp_iff b.timestamp t timestamp_divisor r.validity_window,
)

-- The fee of the units can be deducted, as far as the balance handler knows.
pub record Affordable (to_id : Bytes → Bytes) (m : CheckedMath) (tx : Transaction) (manager : Bytes)
    (bh : BalanceHandler) (r : Rules) (im : Bytes → Outcome Error Bytes) : Type 0 where
  pub due_units : Dimensions
  pub due_fee : ℕ
  pub units_ok : units to_id ⦃m = m⦄ tx bh r ≡ ok due_units
  pub fee_ok : fee ⦃m = m⦄ manager due_units ≡ some due_fee
  pub deductible : bh.can_deduct tx.auth.sponsor im due_fee ≡ ok tt

-- What `PreExecute` is to check.
pub record Admissible (to_id : Bytes → Bytes) (m : CheckedMath) (tx : Transaction) (manager : Bytes)
    (bh : BalanceHandler) (r : Rules) (im : Bytes → Outcome Error Bytes) (t : ℕ) : Type 0 where
  pub same_chain : tx.base.chain_id ≡ r.chain_id
  pub aligned : tx.base.timestamp % timestamp_divisor ≡ 0
  pub not_expired : t ≤ tx.base.timestamp
  pub not_too_early : tx.base.timestamp ≤ t + r.validity_window
  pub few_actions : length tx.actions ≤ r.max_actions_per_tx
  pub actions_active : AllActive r t tx.actions
  pub auth_active : InRange (tx.auth.valid_range r) t
  pub affordable : Affordable to_id m tx manager bh r im

module _ (to_id : Bytes → Bytes) ⦃m : CheckedMath⦄ where
  abbrev charge_check :
      Transaction
      → Bytes
      → BalanceHandler
      → Rules
      → (Bytes → Outcome Error Bytes)
      → Outcome TxError (Unit {0})
  charge_check tx manager bh r im = do
    u ← units to_id tx bh r
    f ← or_error overflow (fee manager u)
    lift_error balance_error (bh.can_deduct tx.auth.sponsor im f)

  charge_check→Affordable :
      (tx : Transaction) (manager : Bytes) (bh : BalanceHandler) (r : Rules)
      (im : Bytes → Outcome Error Bytes)
      → charge_check tx manager bh r im ≡ ok tt
      → Affordable to_id m tx manager bh r im
  charge_check→Affordable tx manager bh r im e = elim (Outcome-cases (units to_id tx bh r)) [
    | inr (f, q) ↦ absurd (ground arith)
    | inl (u, q) ↦ elim (Option-cases (fee manager u)) [
      | inl c ↦ absurd (ground arith)
      | inr (f, c) ↦ elim (Outcome-cases (bh.can_deduct tx.auth.sponsor im f)) [
        | inr (b, d) ↦ absurd (ground arith)
        | inl (tt, d) ↦ record {
          due_units = u;
          due_fee = f;
          units_ok = q;
          fee_ok = c;
          deductible = d;
        }
      ]
    ]
  ]

  Affordable→charge_check :
      (tx : Transaction) (manager : Bytes) (bh : BalanceHandler) (r : Rules)
      (im : Bytes → Outcome Error Bytes)
      → Affordable to_id m tx manager bh r im
      → charge_check tx manager bh r im ≡ ok tt
  Affordable→charge_check tx manager bh r im p = ground (arith, p.units_ok, p.fee_ok, p.deductible)

  -- PreExecute accepts a transaction, whatever its MaxFee, exactly if it names the chain, expires at a full second within
  -- the validity window, has no more actions than allowed, all active like its authentication, and
  -- its units have a fee that the balance handler takes to be deductible.
  pub pre_execute_iff :
      (tx : Transaction) (manager : Bytes) (bh : BalanceHandler) (r : Rules)
      (im : Bytes → Outcome Error Bytes) (t : ℕ)
      → (pre_execute to_id tx manager bh r im t ≡ ok tt) ↔ Admissible to_id m tx manager bh r im t
  unfolding pre_execute
  pre_execute_iff tx manager bh r im t = (
    λ e. record {
      same_chain = ground (arith, base_execute_iff tx.base r t);
      aligned = ground (arith, base_execute_iff tx.base r t);
      not_expired = ground (arith, base_execute_iff tx.base r t);
      not_too_early = ground (arith, base_execute_iff tx.base r t);
      few_actions = ground (arith, base_execute_iff tx.base r t);
      actions_active = ground (arith, check_actions_iff r t 0 tx.actions);
      auth_active = ground (arith, out_of_range_iff (tx.auth.valid_range r) t);
      affordable = charge_check→Affordable tx manager bh r im (ground arith);
    },
    λ h. ground (
      arith,
      base_execute_iff tx.base r t,
      check_actions_iff r t 0 tx.actions,
      out_of_range_iff (tx.auth.valid_range r) t,
      h.same_chain,
      h.aligned,
      h.not_expired,
      h.not_too_early,
      h.few_actions,
      h.actions_active,
      h.auth_active,
      Affordable→charge_check tx manager bh r im h.affordable,
    ),
  )

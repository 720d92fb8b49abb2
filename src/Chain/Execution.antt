-- ===== src/Chain/Execution.antt =====
-- chain/transaction.go: what `Execute` leaves and returns.
use hypersdk.Base.{
  ℕ, suc, ◌+◌, ◌<◌, ◌≡◌, refl, ◌⊎◌, inl, inr, ap, sym, ◌∙◌, subst, true, false, List, [], ◌∷◌, ◌++◌,
  some, Bytes, length, length-append, Outcome, ok, err, Outcome-cases, Option-cases, arith,
}
use native.Mathlib.Nat.{zero-add}
use hypersdk.Math.Checked.{CheckedMath}
use hypersdk.Fees.Dimensions.{Dimensions}
use hypersdk.Fees.Manager.{fee}
use hypersdk.TState.View.{View, op_index, rollback}
use hypersdk.TState.WellFormed.{IsWellFormed}
use hypersdk.TState.Undo.{SameState}
use hypersdk.Chain.Program.{
  Program, perform, Reaches, Reaches-refl, Reaches-trans, perform-Reaches, Reaches-IsWellFormed,
  rollback-Reaches,
}
use hypersdk.Chain.Transaction.{
  Transaction, Action, BalanceHandler, Rules, Result, TxError, units, run_actions, execute,
  create_action_id,
}

-- A view with the state and the operations of another.
abbrev pub Restores : View → View → Type 0
Restores w v = SameState w v × (w.ops ≡ v.ops)

-- All actions have an output exactly in a success.
abbrev pub CountsOutputs : Result → ℕ → Type 0
CountsOutputs result n =
    (result.success ≡ true × (length result.outputs ≡ n))
    ⊎ (result.success ≡ false × (length result.outputs < n))

module _ (to_id : Bytes → Bytes) ⦃m : CheckedMath⦄ where
  module _ (tx : Transaction) (r : Rules) (timestamp : ℕ) (u : Dimensions) (f : ℕ) where
    abbrev body : ℕ → Action → Program (Outcome Bytes Bytes)
    body i a = a.execute r timestamp tx.auth.actor (create_action_id to_id tx.id i)

    abbrev loop : ℕ → ℕ → List Action → List Bytes → View → View × Result
    loop start i as' outputs v = run_actions to_id tx r timestamp start u f i as' outputs v

    loop_ok :
        (start i : ℕ) (a : Action) (as' : List Action) (outputs : List Bytes) (v : View)
        (output : Bytes)
        → (perform (body i a) v).1 ≡ ok output
        → loop start i (a ∷ as') outputs v
          ≡ loop start (suc i) as' (outputs ++ output ∷ []) (perform (body i a) v).0
    unfolding run_actions
    loop_ok start i a as' outputs v output q = ground arith

    loop_err :
        (start i : ℕ) (a : Action) (as' : List Action) (outputs : List Bytes) (v : View)
        (reason : Bytes)
        → (perform (body i a) v).1 ≡ err reason
        → loop start i (a ∷ as') outputs v ≡ (
          rollback (perform (body i a) v).0 start,
          record { success = false; error = reason; outputs = outputs; units = u; fee = f },
        )
    unfolding run_actions
    loop_err start i a as' outputs v reason q = ground arith

    loop-Restores :
        (i : ℕ) (as' : List Action) (outputs : List Bytes) (w v : View)
        → IsWellFormed w
        → Reaches w v
        → (loop (op_index w) i as' outputs v).1.success ≡ false
        → Restores (loop (op_index w) i as' outputs v).0 w
    unfolding run_actions
    loop-Restores i [] outputs w v h reach e = absurd (ground arith)
    loop-Restores i (a ∷ as') outputs w v h reach e =
        let further = Reaches-trans reach (perform-Reaches (body i a) v) in
        elim (Outcome-cases (perform (body i a) v).1) [
          | inl (output, q) ↦
              let next = loop_ok (op_index w) i a as' outputs v output q in
              rw next (
                loop-Restores (suc i) as' (outputs ++ output ∷ []) w (perform (body i a) v).0 h
                  further (rw next at e))
          | inr (reason, q) ↦
              rw (loop_err (op_index w) i a as' outputs v reason q) (rollback-Reaches further h)
        ]

    loop-CountsOutputs :
        (start i : ℕ) (as' : List Action) (outputs : List Bytes) (v : View)
        → CountsOutputs (loop start i as' outputs v).1 (length outputs + length as')
    unfolding run_actions
    loop-CountsOutputs start i [] outputs v = inl (refl, omega arith)
    loop-CountsOutputs start i (a ∷ as') outputs v = elim (Outcome-cases (perform (body i a) v).1) [
      | inl (output, q) ↦
          let count : length (outputs ++ output ∷ []) + length as'
              ≡ length outputs + suc (length as') =
            omega (arith, length-append outputs (output ∷ [])) in
          rw (loop_ok start i a as' outputs v output q) (
            subst
              (CountsOutputs
                (loop start (suc i) as' (outputs ++ output ∷ []) (perform (body i a) v).0).1)
              count
              (loop-CountsOutputs start (suc i) as' (outputs ++ output ∷ [])
                (perform (body i a) v).0))
      | inr (reason, q) ↦ rw (loop_err start i a as' outputs v reason q) (inr (refl, omega arith))
    ]

    loop-charged :
        (start i : ℕ) (as' : List Action) (outputs : List Bytes) (v : View)
        → ((loop start i as' outputs v).1.units ≡ u) × ((loop start i as' outputs v).1.fee ≡ f)
    unfolding run_actions
    loop-charged start i [] outputs v = (refl, refl)
    loop-charged start i (a ∷ as') outputs v = elim (Outcome-cases (perform (body i a) v).1) [
      | inl (output, q) ↦
          rw (loop_ok start i a as' outputs v output q)
            (loop-charged start (suc i) as' (outputs ++ output ∷ []) (perform (body i a) v).0)
      | inr (reason, q) ↦ rw (loop_err start i a as' outputs v reason q) (refl, refl)
    ]

  -- What it takes for a result: units, their fee, and a deduction that succeeds.
  pub record Paid (tx : Transaction) (manager : Bytes) (bh : BalanceHandler) (r : Rules) (v : View)
      : Type 0 where
    pub due_units : Dimensions
    pub due_fee : ℕ
    pub units_ok : units to_id tx bh r ≡ ok due_units
    pub fee_ok : fee manager due_units ≡ some due_fee
    pub deducted : (perform (bh.deduct tx.auth.sponsor due_fee) v).1 ≡ ok tt

  pub execute-Paid :
      (tx : Transaction) (manager : Bytes) (bh : BalanceHandler) (r : Rules) (v : View)
      (timestamp : ℕ) (p : Paid tx manager bh r v)
      → execute to_id tx manager bh r v timestamp ≡ (
          let w = (perform (bh.deduct tx.auth.sponsor p.due_fee) v).0 in
          let e = loop tx r timestamp p.due_units p.due_fee (op_index w) 0 tx.actions [] w in
          (e.0, ok e.1))
  unfolding execute
  execute-Paid tx manager bh r v timestamp p = ground (arith, p.units_ok, p.fee_ok, p.deducted)

  execute-cases :
      (tx : Transaction) (manager : Bytes) (bh : BalanceHandler) (r : Rules) (v : View)
      (timestamp : ℕ) (result : Result)
      → (execute to_id tx manager bh r v timestamp).1 ≡ ok result
      → Paid tx manager bh r v
  unfolding execute
  execute-cases tx manager bh r v timestamp result e = elim (Outcome-cases (units to_id tx bh r)) [
    | inr (f, q) ↦ absurd (ground arith)
    | inl (u, q) ↦ elim (Option-cases (fee manager u)) [
      | inl c ↦ absurd (ground arith)
      | inr (f, c) ↦ elim (Outcome-cases (perform (bh.deduct tx.auth.sponsor f) v).1) [
        | inr (b, d) ↦ absurd (ground arith)
        | inl (tt, d) ↦ record {
          due_units = u;
          due_fee = f;
          units_ok = q;
          fee_ok = c;
          deducted = d;
        }
      ]
    ]
  ]

  abbrev final : Transaction → Rules → ℕ → Dimensions → ℕ → View → View × Result
  final tx r timestamp u f w = loop tx r timestamp u f (op_index w) 0 tx.actions [] w

  abbrev accepted : Result → Outcome TxError Result
  accepted = ok

  result-Paid :
      (tx : Transaction) (manager : Bytes) (bh : BalanceHandler) (r : Rules) (v : View)
      (timestamp : ℕ) (result : Result) (p : Paid tx manager bh r v)
      → (execute to_id tx manager bh r v timestamp).1 ≡ ok result
      → (final tx r timestamp p.due_units p.due_fee
          (perform (bh.deduct tx.auth.sponsor p.due_fee) v).0).1
        ≡ result
  result-Paid tx manager bh r v timestamp result p e =
      got (rw (execute-Paid tx manager bh r v timestamp p) at e)
    where
      got : {a b : Result} → accepted a ≡ accepted b → a ≡ b
      got q = ground arith

  -- A result, of success or not, comes with the units of the transaction and their fee, and only
  -- after the deduction of that fee from the sponsor has succeeded.
  pub execute-charged :
      (tx : Transaction) (manager : Bytes) (bh : BalanceHandler) (r : Rules) (v : View)
      (timestamp : ℕ) (result : Result)
      → (execute to_id tx manager bh r v timestamp).1 ≡ ok result
      → (units to_id tx bh r ≡ ok result.units)
        × (fee manager result.units ≡ some result.fee)
        × ((perform (bh.deduct tx.auth.sponsor result.fee) v).1 ≡ ok tt)
  execute-charged tx manager bh r v timestamp result e =
      let p = execute-cases tx manager bh r v timestamp result e in
      let same = result-Paid tx manager bh r v timestamp result p e in
      let w = (perform (bh.deduct tx.auth.sponsor p.due_fee) v).0 in
      let (us, fs) =
        loop-charged tx r timestamp p.due_units p.due_fee (op_index w) 0 tx.actions [] w in
      let u : result.units ≡ p.due_units = ap (λ x. x.units) (sym same) ∙ us in
      let f : result.fee ≡ p.due_fee = ap (λ x. x.fee) (sym same) ∙ fs in
      rw (u, f) (p.units_ok, p.fee_ok, p.deducted)

  -- Where an action fails, Execute of a transaction on a well-formed view leaves the state and the
  -- operations that the deduction of the fee had left.
  pub execute-failed :
      (tx : Transaction) (manager : Bytes) (bh : BalanceHandler) (r : Rules) (v : View)
      (timestamp : ℕ) (result : Result)
      → IsWellFormed v
      → (execute to_id tx manager bh r v timestamp).1 ≡ ok result
      → result.success ≡ false
      → Restores
          (execute to_id tx manager bh r v timestamp).0
          (perform (bh.deduct tx.auth.sponsor result.fee) v).0
  execute-failed tx manager bh r v timestamp result h e failed =
      let p = execute-cases tx manager bh r v timestamp result e in
      let same = result-Paid tx manager bh r v timestamp result p e in
      let w = (perform (bh.deduct tx.auth.sponsor p.due_fee) v).0 in
      let f : result.fee ≡ p.due_fee =
        ap (λ x. x.fee) (sym same)
        ∙ (loop-charged tx r timestamp p.due_units p.due_fee (op_index w) 0 tx.actions [] w).1 in
      rw (execute-Paid tx manager bh r v timestamp p, f)
        (loop-Restores tx r timestamp p.due_units p.due_fee 0 tx.actions [] w w
          (Reaches-IsWellFormed (perform-Reaches (bh.deduct tx.auth.sponsor p.due_fee) v) h)
          (Reaches-refl w) (ap (λ x. x.success) same ∙ failed))

  -- A result is a success exactly if it has an output for each action; without success it has
  -- fewer.
  pub execute-outputs :
      (tx : Transaction) (manager : Bytes) (bh : BalanceHandler) (r : Rules) (v : View)
      (timestamp : ℕ) (result : Result)
      → (execute to_id tx manager bh r v timestamp).1 ≡ ok result
      → CountsOutputs result (length tx.actions)
  execute-outputs tx manager bh r v timestamp result e =
      let p = execute-cases tx manager bh r v timestamp result e in
      let w = (perform (bh.deduct tx.auth.sponsor p.due_fee) v).0 in
      subst (λ x. CountsOutputs x (length tx.actions))
        (result-Paid tx manager bh r v timestamp result p e)
        (rw zero-add at
          (loop-CountsOutputs tx r timestamp p.due_units p.due_fee (op_index w) 0 tx.actions [] w))

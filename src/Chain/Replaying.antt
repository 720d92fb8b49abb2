-- ===== src/Chain/Replaying.antt =====
-- chain/builder.go and chain/processor.go: executing a transaction again, after those before it, at the
-- same prices.
use hypersdk.Base.{
  ℕ, ◌≡◌, refl, true, List, [], ◌∷◌, ◌++◌, Bytes, Outcome, ok, Outcome-cases, Bool-cases, inl, inr,
  arith,
}
use hypersdk.State.Scope.{Keys, keys_has, without_permissions}
use hypersdk.Math.Checked.{CheckedMath}
use hypersdk.Fees.Dimensions.{Dimensions}
use hypersdk.Fees.Manager.{fee, consume}
use hypersdk.TState.View.{TState, View, Error, new_view, get_value, commit}
use hypersdk.Chain.Transaction.{
  Transaction, BalanceHandler, Rules, Result, state_keys, units, pre_execute, execute,
}
use hypersdk.Chain.Processor.{all_readable, fetched, consume_units, execute_tx, execute_each}

module _ (to_id : Bytes → Bytes) ⦃m : CheckedMath⦄ (bh : BalanceHandler) (r : Rules)
    (im : Bytes → Outcome Error Bytes) (t : ℕ) where
  module _ (tx : Transaction) (manager manager' : Bytes)
      (same : (u : Dimensions) → units to_id tx bh r ≡ ok u → fee manager u ≡ fee manager' u) where
    -- The fee is all that a transaction takes of the array of the fee manager.
    pub pre_execute-fee :
        (reads : Bytes → Outcome Error Bytes)
        → pre_execute to_id tx manager bh r reads t ≡ pre_execute to_id tx manager' bh r reads t
    unfolding pre_execute
    pre_execute-fee reads = elim (Outcome-cases (units to_id tx bh r)) [
      | inl (u, q) ↦ rw (q, same u q) refl
      | inr (e, q) ↦ rw q refl
    ]

    pub execute-fee :
        (v : View) → execute to_id tx manager bh r v t ≡ execute to_id tx manager' bh r v t
    unfolding execute
    execute-fee v = elim (Outcome-cases (units to_id tx bh r)) [
      | inl (u, q) ↦ rw (q, same u q, execute) refl
      | inr (e, q) ↦ rw (q, execute) refl
    ]

  pub execute_tx-done :
      (manager : Bytes) (ts : TState) (tx : Transaction) (ks : Keys) (w : View) (result : Result)
      → state_keys to_id tx bh ≡ ok ks
      → all_readable im (without_permissions ks) ≡ true
      → pre_execute to_id tx manager bh r
          (get_value (new_view ts (keys_has ks) (fetched im (without_permissions ks))))
          t
        ≡ ok tt
      → execute to_id tx manager bh r
          (new_view ts (keys_has ks) (fetched im (without_permissions ks)))
          t
        ≡ (w, ok result)
      → execute_tx to_id bh r manager im t ts tx ≡ ok (commit w, result)
  unfolding execute_tx
  execute_tx-done manager ts tx ks w result a b c d = rw (a, b, c, d) refl

  pub execute_each-snoc :
      (manager : Bytes) (ts ts' ts'' : TState) (txs : List Transaction) (tx : Transaction)
      (results : List Result) (result : Result)
      → execute_each to_id bh r manager im t ts txs ≡ ok (ts', results)
      → execute_tx to_id bh r manager im t ts' tx ≡ ok (ts'', result)
      → execute_each to_id bh r manager im t ts (txs ++ tx ∷ []) ≡ ok (ts'', results ++ result ∷ [])
  unfolding execute_each
  execute_each-snoc manager ts ts' ts'' [] tx results result h e =
      let at : ts ≡ ts' = ground (arith, h) in
      let none_yet : [] ≡ results = ground (arith, h) in rw (at, ← none_yet, e) refl
  execute_each-snoc manager ts ts' ts'' (x ∷ txs) tx results result h e =
      elim (Outcome-cases (execute_tx to_id bh r manager im t ts x)) [
        | inr (f, q) ↦ absurd (ground (arith, q, h))
        | inl ((mid, first), q) ↦
            elim (Outcome-cases (execute_each to_id bh r manager im t mid txs)) [
              | inr (f, c) ↦ absurd (ground (arith, q, c, h))
              | inl ((last, rest), c) ↦
                  let at : last ≡ ts' = ground (arith, q, c, h) in
                  let all : first ∷ rest ≡ results = ground (arith, q, c, h) in
                  let later =
                    execute_each-snoc manager mid last ts'' txs tx rest result c (rw at e) in
                  rw (q, later, ← all) refl
            ]
      ]

  pub consume_units-snoc :
      (manager manager' : Bytes) (txs : List Transaction) (tx : Transaction) (ks : Keys)
      (u : Dimensions)
      → consume_units to_id bh r manager txs ≡ ok manager'
      → state_keys to_id tx bh ≡ ok ks
      → units to_id tx bh r ≡ ok u
      → (consume manager' u r.max_block_units).1 ≡ true
      → consume_units to_id bh r manager (txs ++ tx ∷ [])
        ≡ ok (consume manager' u r.max_block_units).0
  unfolding consume_units
  consume_units-snoc manager manager' [] tx ks u h a b c =
      let at : manager ≡ manager' = ground (arith, h) in rw (a, b, at, c) refl
  consume_units-snoc manager manager' (x ∷ txs) tx ks u h a b c =
      elim (Outcome-cases (state_keys to_id x bh)) [
        | inr (f, q) ↦ absurd (ground (arith, q, h))
        | inl (js, q) ↦ elim (Outcome-cases (units to_id x bh r)) [
          | inr (f, d) ↦ absurd (ground (arith, q, d, h))
          | inl (v, d) ↦ elim (Bool-cases (consume manager v r.max_block_units).1) [
            | inr no_room ↦ absurd (ground (arith, q, d, no_room, h))
            | inl room ↦
                rw (q, d, room)
                  (consume_units-snoc (consume manager v r.max_block_units).0 manager' txs tx ks u
                    (ground (arith, q, d, room, h)) a b c)
          ]
        ]
      ]

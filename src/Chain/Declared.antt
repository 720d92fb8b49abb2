-- ===== src/Chain/Declared.antt =====
-- chain/transaction.go: when `StateKeys` has keys to give.
use hypersdk.Base.{
  ℕ, suc, ◌≡◌, refl, true, List, [], ◌∷◌, Bytes, ok, Outcome-cases, Bool-cases, inl, inr, arith,
}
use hypersdk.Keys.{valid}
use hypersdk.State.Scope.{Keys, add, grant}
use hypersdk.Chain.Transaction.{
  Transaction, Action, BalanceHandler, add_keys, create_action_id, add_action_keys, state_keys,
}

abbrev pub ValidKeys : Keys → Type 0
ValidKeys [] = Unit
ValidKeys ((k, p) ∷ ks) = (valid k ≡ true) × ValidKeys ks

add_keys-ValidKeys : (new ks grown : Keys) → add_keys new ks ≡ ok grown → ValidKeys new
unfolding add_keys add
add_keys-ValidKeys [] ks grown h = tt
add_keys-ValidKeys ((k, p) ∷ new) ks grown h = elim (Bool-cases (valid k)) [
  | inr e ↦ absurd (ground arith)
  | inl e ↦ (e, add_keys-ValidKeys new (grant ks k p) grown (ground arith))
]

ValidKeys-add_keys : (new ks : Keys) → ValidKeys new → (grown : Keys) × (add_keys new ks ≡ ok grown)
unfolding add_keys add
ValidKeys-add_keys [] ks h = (ks, refl)
ValidKeys-add_keys ((k, p) ∷ new) ks (e, h) =
    let (grown, q) = ValidKeys-add_keys new (grant ks k p) h in (grown, rw e q)

module _ (to_id : Bytes → Bytes) (tx : Transaction) where
  -- The keys that the actions declare, from the `i`th on.
  abbrev pub ValidActionKeys : ℕ → List Action → Type 0
  ValidActionKeys i [] = Unit
  ValidActionKeys i (a ∷ as') =
      ValidKeys (a.state_keys tx.auth.actor (create_action_id to_id tx.id i))
      × ValidActionKeys (suc i) as'

  -- Every key that an action declares, or the sponsor, has the form of a key.
  abbrev pub DeclaresValid : BalanceHandler → Type 0
  DeclaresValid bh =
      ValidActionKeys 0 tx.actions × ValidKeys (bh.sponsor_state_keys tx.auth.sponsor)

  add_action_keys-ValidActionKeys :
      (i : ℕ) (as' : List Action) (ks grown : Keys)
      → add_action_keys to_id tx i as' ks ≡ ok grown
      → ValidActionKeys i as'
  unfolding add_action_keys
  add_action_keys-ValidActionKeys i [] ks grown h = tt
  add_action_keys-ValidActionKeys i (a ∷ as') ks grown h =
      let new = a.state_keys tx.auth.actor (create_action_id to_id tx.id i) in
      elim (Outcome-cases (add_keys new ks)) [
        | inr (f, e) ↦ absurd (ground arith)
        | inl (next, e) ↦ (
          add_keys-ValidKeys new ks next e,
          add_action_keys-ValidActionKeys (suc i) as' next grown (ground arith),
        )
      ]

  ValidActionKeys-add_action_keys :
      (i : ℕ) (as' : List Action) (ks : Keys)
      → ValidActionKeys i as'
      → (grown : Keys) × (add_action_keys to_id tx i as' ks ≡ ok grown)
  unfolding add_action_keys
  ValidActionKeys-add_action_keys i [] ks h = (ks, refl)
  ValidActionKeys-add_action_keys i (a ∷ as') ks (v, h) =
      let new = a.state_keys tx.auth.actor (create_action_id to_id tx.id i) in
      let (next, e) = ValidKeys-add_keys new ks v in
      let (grown, q) = ValidActionKeys-add_action_keys (suc i) as' next h in (grown, rw e q)

  pub state_keys-DeclaresValid :
      (bh : BalanceHandler) (ks : Keys) → state_keys to_id tx bh ≡ ok ks → DeclaresValid bh
  unfolding state_keys
  state_keys-DeclaresValid bh ks h =
      elim (Outcome-cases (add_action_keys to_id tx 0 tx.actions [])) [
        | inr (f, e) ↦ absurd (ground arith)
        | inl (next, e) ↦ (
          add_action_keys-ValidActionKeys 0 tx.actions [] next e,
          add_keys-ValidKeys (bh.sponsor_state_keys tx.auth.sponsor) next ks (ground arith),
        )
      ]

  pub DeclaresValid-state_keys :
      (bh : BalanceHandler) → DeclaresValid bh → (ks : Keys) × (state_keys to_id tx bh ≡ ok ks)
  unfolding state_keys
  DeclaresValid-state_keys bh (v, s) =
      let (next, e) = ValidActionKeys-add_action_keys 0 tx.actions [] v in
      let (ks, q) = ValidKeys-add_keys (bh.sponsor_state_keys tx.auth.sponsor) next s in
      (ks, rw e q)

-- ===== src/Balance/Accounts.antt =====
-- state/balance/balance.go: what the calls do to the balance of an address.
use hypersdk.Base.{
  ℕ, ◌+◌, ◌-◌, ◌≤◌, ◌≡◌, ◌≢◌, refl, ◌↔◌, inl, inr, Bytes, Bool-cases, true, false, ltb, leb,
  Outcome, ok, Outcome-cases, arith,
}
use hypersdk.Math.Checked.{CheckedMath, max_uint64}
use hypersdk.TState.View.{View, Error, insert, get_value, get_value_of, not_found}
use hypersdk.TState.Session.{step}
use hypersdk.TState.Reads.{insert-get_value}
use hypersdk.Chain.Program.{perform, insert_then, done}
use hypersdk.Balance.Handler.{
  Uint64Codec, balance_key, get_balance, can_deduct, deduct, add_balance, inserted, balance_or_zero,
  parsed, parsed,
}

module _ ⦃c : Uint64Codec⦄ where
  -- CanDeduct accepts exactly the amounts up to the balance that GetBalance reads.
  pub can_deduct_iff :
      (prefix addr : Bytes) (im : Bytes → Outcome Error Bytes) (amount : ℕ)
      → (can_deduct prefix addr im amount ≡ ok tt)
        ↔ ((balance : ℕ) × (get_balance prefix im addr ≡ ok balance) × (amount ≤ balance))
  unfolding can_deduct
  can_deduct_iff prefix addr im amount = (
    λ h. elim (Outcome-cases (get_balance prefix im addr)) [
      | inl (b, e) ↦ (b, e, ground arith)
      | inr (f, e) ↦ absurd (ground arith)
    ],
    λ (b, e, le). ground arith,
  )

  stored :
      (v w : View) (key value : Bytes)
      → perform (insert_then key value (λ e. done (inserted e))) v ≡ (w, ok tt)
      → insert v key value ≡ ok w
  unfolding perform step
  stored v w key value h = elim (Outcome-cases (insert v key value)) [
    | inl (x, e) ↦ ground arith
    | inr (f, e) ↦ absurd (ground arith)
  ]

  -- What the view reads after the balance of one address was set.
  abbrev pub SetsBalance : Bytes → Bytes → ℕ → View → View → Type 0
  SetsBalance prefix addr balance v w =
      (get_balance prefix (get_value_of w) addr ≡ ok balance)
      × ((j : Bytes) → j ≢ balance_key prefix addr → get_value_of w j ≡ get_value_of v j)

  stored-SetsBalance :
      (prefix addr : Bytes) (balance : ℕ) (v w : View)
      → balance ≤ max_uint64
      → insert v (balance_key prefix addr) (c.pack balance) ≡ ok w
      → SetsBalance prefix addr balance v w
  unfolding get_balance
  stored-SetsBalance prefix addr balance v w le e =
      let (self, others) =
        insert-get_value v (balance_key prefix addr) (c.pack balance) {w = w} e in
      (rw (self, balance_or_zero, parsed, c.parse-pack balance le) refl, others)

  -- Where Deduct succeeds on a balance that is a uint64, the amount was at most the balance, which
  -- is then less by exactly the amount, and every other key reads as before.
  pub deduct-SetsBalance :
      (prefix addr : Bytes) (amount balance : ℕ) (v w : View)
      → balance ≤ max_uint64
      → get_balance prefix (get_value v) addr ≡ ok balance
      → perform (deduct prefix addr amount) v ≡ (w, ok tt)
      → (amount ≤ balance) × SetsBalance prefix addr (balance - amount) v w
  unfolding deduct perform get_balance
  deduct-SetsBalance prefix addr amount balance v w le b h =
      elim (Bool-cases (ltb balance amount)) [
        | inl low ↦ absurd (refused low)
        | inr enough ↦ (
          ground arith,
          stored-SetsBalance prefix addr (balance - amount) v w (omega arith)
              (stored v w (balance_key prefix addr) (c.pack (balance - amount)) (paid enough)),
        )
      ]
    where
      refused : ltb balance amount ≡ true → ⊥
      refused low = elim (Outcome-cases (get_value v (balance_key prefix addr))) [
        | inl (raw, e) ↦ ground arith
        | inr (not_found, e) ↦ ground arith
        | inr (f, e) ↦ ground arith
      ]

      paid :
          ltb balance amount ≡ false
          → perform
              (insert_then
                (balance_key prefix addr)
                (c.pack (balance - amount))
                (λ e. done (inserted e)))
              v
            ≡ (w, ok tt)
      paid enough = elim (Outcome-cases (get_value v (balance_key prefix addr))) [
        | inl (raw, e) ↦ ground arith
        | inr (not_found, e) ↦ ground arith
        | inr (f, e) ↦ ground arith
      ]

  -- Where AddBalance succeeds on a uint64 balance and amount, a missing balance counting as zero,
  -- the balance is then more by exactly the amount, which is a uint64, and every other key reads as
  -- before.
  pub add_balance-SetsBalance :
      ⦃m : CheckedMath⦄ (prefix addr : Bytes) (amount balance : ℕ) (v w : View)
      → balance ≤ max_uint64
      → amount ≤ max_uint64
      → get_balance prefix (get_value v) addr ≡ ok balance
      → perform (add_balance prefix addr amount) v ≡ (w, ok tt)
      → (balance + amount ≤ max_uint64) × SetsBalance prefix addr (balance + amount) v w
  unfolding add_balance perform get_balance
  add_balance-SetsBalance ⦃m⦄ prefix addr amount balance v w le small b h =
      elim (Bool-cases (leb (balance + amount) max_uint64)) [
        | inr high ↦ absurd (ground (arith, m.add_lem balance amount le small))
        | inl fits ↦
            let within : balance + amount ≤ max_uint64 = ground arith in
            (
              within,
              stored-SetsBalance prefix addr (balance + amount) v w within (
                  stored v w (balance_key prefix addr) (c.pack (balance + amount))
                    (ground (arith, m.add_lem balance amount le small))),
            )
      ]

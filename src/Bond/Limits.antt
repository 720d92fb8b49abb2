-- ===== src/Bond/Limits.antt =====
-- internal/chain/bond.go: what bonding and unbonding do to the pending balance of an account.
use hypersdk.Base.{
  ℕ, ◌+◌, ◌-◌, ◌*◌, ◌%◌, ◌^◌, ◌≤◌, ◌≡◌, ◌≢◌, ◌∙◌, ap, Bytes_eq, assign, true, inl, inr, some,
  bytes_eq_iff, Option-cases, arith,
}
use hypersdk.Binary.{uint64_bytes}
use hypersdk.Binary.Words.{get_uint64-uint64_bytes, length-uint64_bytes}
use hypersdk.Math.Checked.{CheckedMath, max_uint64}
use hypersdk.Chain.Transaction.{Transaction}
use hypersdk.Bond.{
  Database, pending_bond_balance, put_pending_balance, bond_within, unbond, pending_of,
}

-- A second call of Unbond for a transaction changes nothing.
pub unbond_twice : (db : Database) (tx : Transaction) → unbond (unbond db tx) tx ≡ unbond db tx
unfolding unbond
unbond_twice db tx = elim (Option-cases (db tx.id)) [
  | inl e ↦ ground arith
  | inr (raw, e) ↦ ground (arith, bytes_eq_iff tx.id tx.id)
]

pending_of-uint64_bytes : (n : ℕ) → n ≤ max_uint64 → pending_of (some (uint64_bytes n)) ≡ n
pending_of-uint64_bytes n h = ground (arith, get_uint64-uint64_bytes n h, length-uint64_bytes n)

-- The database after a bond of a fee.
abbrev pub bonded : Database → Transaction → ℕ → ℕ → Database
bonded db tx updated fee =
    assign (put_pending_balance db tx.auth.sponsor updated) tx.id (uint64_bytes fee)

pending-bonded :
    (db : Database) (tx : Transaction) (updated fee : ℕ)
    → updated ≤ max_uint64
    → tx.auth.sponsor ≢ tx.id
    → pending_bond_balance (bonded db tx updated fee) tx.auth.sponsor ≡ updated
unfolding pending_bond_balance put_pending_balance
pending-bonded db tx updated fee h n = ground (
  arith,
  bytes_eq_iff tx.auth.sponsor tx.id,
  bytes_eq_iff tx.auth.sponsor tx.auth.sponsor,
  pending_of-uint64_bytes updated h,
)

pending-unbond-bonded :
    (db : Database) (tx : Transaction) (before fee : ℕ)
    → before + fee ≤ max_uint64
    → tx.auth.sponsor ≢ tx.id
    → pending_bond_balance (unbond (bonded db tx (before + fee) fee) tx) tx.auth.sponsor ≡ before
unfolding unbond pending_bond_balance put_pending_balance
pending-unbond-bonded db tx before fee h n = ground (
  arith,
  bytes_eq_iff tx.auth.sponsor tx.id,
  bytes_eq_iff tx.id tx.id,
  bytes_eq_iff tx.auth.sponsor tx.auth.sponsor,
  pending_of-uint64_bytes (before + fee) h,
  pending_of-uint64_bytes before (omega arith),
  get_uint64-uint64_bytes fee (omega arith),
  back,
)
  where
    back : (before + fee + 2 ^ 64 - fee) % 2 ^ 64 ≡ before
    back = omega arith

module _ ⦃m : CheckedMath⦄ where
  bond_within-bonded :
      (db after : Database) (tx : Transaction) (rate max_balance : ℕ)
      → tx.size ≤ max_uint64
      → rate ≤ max_uint64
      → pending_bond_balance db tx.auth.sponsor ≤ max_uint64
      → bond_within db tx rate max_balance ≡ (after, true)
      → let updated = pending_bond_balance db tx.auth.sponsor + tx.size * rate in
        (updated ≤ max_balance)
        × (updated ≤ max_uint64)
        × (after ≡ bonded db tx updated (tx.size * rate))
  unfolding bond_within
  bond_within-bonded db after tx rate max_balance hs hr hp e = ground (
    arith,
    m.mul_lem tx.size rate hs hr,
    λ (q : tx.size * rate ≤ max_uint64).
        m.add_lem (pending_bond_balance db tx.auth.sponsor) (tx.size * rate) hp q,
  )

  -- For a size, a rate and a pending balance that are uint64 values,
  -- a bond that succeeds raises the pending balance of the sponsor by the size of the transaction
  -- times the rate, to at most the maximum, and Unbond then gives back the balance before, if the
  -- identifier of the transaction is not the address of the sponsor.
  pub unbond-bond_within :
      (db after : Database) (tx : Transaction) (rate max_balance : ℕ)
      → tx.size ≤ max_uint64
      → rate ≤ max_uint64
      → pending_bond_balance db tx.auth.sponsor ≤ max_uint64
      → tx.auth.sponsor ≢ tx.id
      → bond_within db tx rate max_balance ≡ (after, true)
      → (pending_bond_balance after tx.auth.sponsor
          ≡ pending_bond_balance db tx.auth.sponsor + tx.size * rate)
        × (pending_bond_balance after tx.auth.sponsor ≤ max_balance)
        × (pending_bond_balance (unbond after tx) tx.auth.sponsor
            ≡ pending_bond_balance db tx.auth.sponsor)
  unbond-bond_within db after tx rate max_balance hs hr hp n e =
      let (within, fits, same) = bond_within-bonded db after tx rate max_balance hs hr hp e in
      let before = pending_bond_balance db tx.auth.sponsor in
      let raised : pending_bond_balance after tx.auth.sponsor ≡ before + tx.size * rate =
        ap (λ d. pending_bond_balance d tx.auth.sponsor) same
        ∙ pending-bonded db tx (before + tx.size * rate) (tx.size * rate) fits n in
      (
        raised,
        omega (arith, raised, within),
        ap (λ d. pending_bond_balance (unbond d tx) tx.auth.sponsor) same
            ∙ pending-unbond-bonded db tx before (tx.size * rate) fits n,
      )

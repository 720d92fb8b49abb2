-- ===== src/Bond.antt =====
-- internal/chain/bond.go: the bonds that limit what an account may have pending. The database is
-- the map of what it holds, reading and writing it does not fail, and a batch is written at once.
pub mod Limits
mod Tests
use hypersdk.Base.{
  ℕ, ◌+◌, ◌-◌, ◌%◌, ◌^◌, ◌≡◌, Bool, true, false, List, [], ◌∷◌, Option, none, some, Bytes, Bytes_eq,
  GoMap, assign, delete, ltb, if◌then◌else◌, Outcome, ok, err, length, nat_eq,
}
use hypersdk.Binary.{get_uint64, uint64_bytes}
use hypersdk.Keys.{encode_chunks}
use hypersdk.Math.Checked.{CheckedMath}
use hypersdk.TState.View.{View, Error, not_found, get_value, insert}
use hypersdk.Chain.Transaction.{Transaction, Auth}

abbrev pub Database : Type 0
Database = GoMap Bytes Bytes

-- `newStateKey`
unfoldable pub new_state_key : Bytes → Bytes
new_state_key b = encode_chunks b 1

-- `binary.BigEndian.Uint64` of bytes that are there, and else zero
abbrev pub number_or_zero : Bytes → ℕ
number_or_zero raw = if nat_eq (length raw) 0 then 0 else get_uint64 raw

abbrev pub pending_of : Option Bytes → ℕ
pending_of none = 0
pending_of (some raw) = number_or_zero raw

-- `getPendingBondBalance`
unfoldable pub pending_bond_balance : Database → Bytes → ℕ
pending_bond_balance db address = pending_of (db address)

-- `putPendingBalance`
unfoldable pub put_pending_balance : Database → Bytes → ℕ → Database
put_pending_balance db address balance = assign db address (uint64_bytes balance)

-- `SetMaxBalance`
unfoldable pub set_max_balance : View → Bytes → ℕ → Outcome Error View
unfolding new_state_key
set_max_balance v address max_balance = insert v (new_state_key address) (uint64_bytes max_balance)

-- A missing maximum is zero.
abbrev pub max_of : Outcome Error Bytes → Outcome Error ℕ
max_of (ok raw) = ok (number_or_zero raw)
max_of (err not_found) = ok 0
max_of (err e) = err e

module _ ⦃m : CheckedMath⦄ where
  -- The batch of `Bond`, if the fee fits.
  unfoldable pub bond_within : Database → Transaction → ℕ → ℕ → Database × Bool
  unfolding pending_bond_balance put_pending_balance
  bond_within db tx rate max_balance = elim (m.mul tx.size rate) [
    | none ↦ (db, false)
    | some fee ↦ elim (m.add (pending_bond_balance db tx.auth.sponsor) fee) [
      | none ↦ (db, false)
      | some updated ↦ if ltb max_balance updated then (db, false) else (
        assign (put_pending_balance db tx.auth.sponsor updated) tx.id (uint64_bytes fee),
        true,
      )
    ]
  ]

  -- `Bond`
  unfoldable pub bond : Database → View → Transaction → ℕ → Outcome Error (Database × Bool)
  unfolding bond_within new_state_key
  bond db v tx rate = elim (max_of (get_value v (new_state_key tx.auth.sponsor))) [
    | err e ↦ err e
    | ok max_balance ↦ ok (bond_within db tx rate max_balance)
  ]

-- `Unbond`; the subtraction may wrap round
unfoldable pub unbond : Database → Transaction → Database
unfolding pending_bond_balance put_pending_balance
unbond db tx = elim (db tx.id) [
  | none ↦ db
  | some raw ↦
      let pending = pending_bond_balance db tx.auth.sponsor in
      delete (put_pending_balance db tx.auth.sponsor ((pending + 2 ^ 64 - get_uint64 raw) % 2 ^ 64))
        tx.id
]

-- ===== src/Balance/Handler.antt =====
-- state/balance/balance.go: `PrefixBalanceHandler`. An address is a list of 33 bytes.
use hypersdk.Base.{
  ℕ, ◌-◌, ◌≤◌, ◌≡◌, ◌++◌, [], ◌∷◌, Option, none, some, Bytes, ltb, length, if◌then◌else◌, Outcome,
  ok, err, ◌>>=◌, guard, not,
}
use hypersdk.Math.Checked.{CheckedMath, max_uint64}
use hypersdk.State.Permissions.{read, write, union}
use hypersdk.State.Scope.{Keys}
use hypersdk.TState.View.{Error, not_found}
use hypersdk.Chain.Program.{Program, done, get_then, insert_then}

-- `database.PackUInt64` and `database.ParseUInt64` of avalanchego: eight bytes, of which the number
-- can be read again.
pub record Uint64Codec : Type 0 where
  pub pack : ℕ → Bytes
  pub parse : Bytes → Option ℕ
  pub parse-pack : (n : ℕ) → n ≤ max_uint64 → parse (pack n) ≡ some n
  pub length-pack : (n : ℕ) → length (pack n) ≡ 8

-- `overflow` is an error of the checked addition, `state_error` one of reading or inserting.
pub data BalanceError : Type 0 where
  insufficient_balance unreadable_balance balance_overflow : BalanceError
  state_error : Error → BalanceError

-- `BalanceKey`
unfoldable pub balance_key : Bytes → Bytes → Bytes
balance_key prefix addr = prefix ++ addr ++ 0 ∷ 1 ∷ []

-- `SponsorStateKeys`
unfoldable pub sponsor_state_keys : Bytes → Bytes → Keys
unfolding balance_key
sponsor_state_keys prefix addr = (balance_key prefix addr, union read write) ∷ []

module _ ⦃c : Uint64Codec⦄ where
  abbrev pub parsed : Bytes → Outcome BalanceError ℕ
  parsed raw = elim (c.parse raw) [ none ↦ err unreadable_balance | some b ↦ ok b ]

  -- A missing balance is zero.
  abbrev pub balance_or_zero : Outcome Error Bytes → Outcome BalanceError ℕ
  balance_or_zero (ok raw) = parsed raw
  balance_or_zero (err not_found) = ok 0
  balance_or_zero (err e) = err (state_error e)

  -- `GetBalance`
  unfoldable pub get_balance :
      Bytes → (Bytes → Outcome Error Bytes) → Bytes → Outcome BalanceError ℕ
  unfolding balance_key
  get_balance prefix im addr = balance_or_zero (im (balance_key prefix addr))

  -- `CanDeduct`
  unfoldable pub can_deduct :
      Bytes → Bytes → (Bytes → Outcome Error Bytes) → ℕ → Outcome BalanceError (Unit {0})
  unfolding get_balance
  can_deduct prefix addr im amount = do
    balance ← get_balance prefix im addr
    guard (not (ltb balance amount)) insufficient_balance

  abbrev pub inserted : Option Error → Outcome BalanceError (Unit {0})
  inserted none = ok tt
  inserted (some e) = err (state_error e)

  -- `Deduct` behind the read
  abbrev pub deduct_from :
      Bytes → ℕ → Outcome Error Bytes → Program (Outcome BalanceError (Unit {0}))
  deduct_from key amount (err not_found) = done (err insufficient_balance)
  deduct_from key amount (err e) = done (err (state_error e))
  deduct_from key amount (ok raw) = elim (parsed raw) [
    | err e ↦ done (err e)
    | ok balance ↦
        if ltb balance amount
        then done (err insufficient_balance)
        else insert_then key (c.pack (balance - amount)) (λ e. done (inserted e))
  ]

  -- `Deduct`
  unfoldable pub deduct : Bytes → Bytes → ℕ → Program (Outcome BalanceError (Unit {0}))
  unfolding balance_key
  deduct prefix addr amount =
      let key = balance_key prefix addr in get_then key (λ o. deduct_from key amount o)

  module _ ⦃m : CheckedMath⦄ where
    -- `AddBalance` behind the read
    abbrev pub add_to :
        Bytes → ℕ → Outcome BalanceError ℕ → Program (Outcome BalanceError (Unit {0}))
    add_to key amount (err e) = done (err e)
    add_to key amount (ok balance) = elim (m.add balance amount) [
      | none ↦ done (err balance_overflow)
      | some total ↦ insert_then key (c.pack total) (λ e. done (inserted e))
    ]

    -- `AddBalance`
    unfoldable pub add_balance : Bytes → Bytes → ℕ → Program (Outcome BalanceError (Unit {0}))
    unfolding balance_key
    add_balance prefix addr amount =
        let key = balance_key prefix addr in
        get_then key (λ o. add_to key amount (balance_or_zero o))

-- ===== src/Chain/Units.antt =====
-- chain/transaction.go: `Units` as exact sums.
use hypersdk.Base.{
  ℕ, ◌+◌, ◌≤◌, ◌≡◌, refl, ap, ◌∙◌, Bool, true, List, [], ◌∷◌, Option, none, some, Bytes, leb, ◌&&◌,
  if◌then◌else◌, ok, err, Option-cases, inl, inr, arith,
}
use native.Mathlib.Nat.{zero-add}
use hypersdk.Keys.{max_chunks}
use hypersdk.State.Scope.{Keys}
use hypersdk.Math.Checked.{CheckedMath, max_uint64}
use hypersdk.Math.Operator.{
  Uint64Operator, new_operator, op_add, value, Call, add_call, mul_add_call, exact_sum, AllUint64,
  call_all, value-call_all,
}
use hypersdk.Fees.Dimensions.{Dimensions}
use hypersdk.Chain.Transaction.{
  Transaction, Action, BalanceHandler, Rules, overflow, invalid_key_value, KeyCosts, charge_keys,
  charge_actions, compute_operator, no_costs, state_keys, units,
}

-- The compute units of the actions and of the authentication.
abbrev pub compute_calls : Rules → List Action → ℕ → List Call
compute_calls r [] auth = add_call auth ∷ []
compute_calls r (a ∷ as') auth = add_call (a.compute_units r) ∷ compute_calls r as' auth

-- What one kind of access to a list of values costs, by the chunks of each.
abbrev pub storage_calls : ℕ → ℕ → List ℕ → List Call
storage_calls key_units value_units [] = []
storage_calls key_units value_units (c ∷ cs) =
    add_call key_units ∷ mul_add_call c value_units ∷ storage_calls key_units value_units cs

-- The chunks that each key declares, if all do.
abbrev pub declared_chunks : Keys → Option (List ℕ)
declared_chunks [] = some []
declared_chunks ((k, p) ∷ ks) = elim (max_chunks k) [
  | none ↦ none
  | some c ↦ elim (declared_chunks ks) [ none ↦ none | some cs ↦ some (c ∷ cs) ]
]

module _ ⦃m : CheckedMath⦄ where
  compute_operator-calls :
      (r : Rules) (as' : List Action) (auth : ℕ) (o : Uint64Operator)
      → op_add (charge_actions r as' o) auth ≡ call_all o (compute_calls r as' auth)
  unfolding charge_actions call_all
  compute_operator-calls r [] auth o = refl
  compute_operator-calls r (a ∷ as') auth o =
      compute_operator-calls r as' auth (op_add o (a.compute_units r))

  abbrev charged : Rules → List ℕ → KeyCosts → KeyCosts
  charged r cs c = record {
    reads = call_all c.reads (storage_calls r.storage_key_read_units r.storage_value_read_units cs);
    allocates =
        call_all c.allocates
          (storage_calls r.storage_key_allocate_units r.storage_value_allocate_units cs);
    writes =
        call_all c.writes (storage_calls r.storage_key_write_units r.storage_value_write_units cs);
  }

  charge_keys-calls :
      (r : Rules) (ks : Keys) (c : KeyCosts)
      → charge_keys r ks c
        ≡ elim (declared_chunks ks) [ none ↦ err invalid_key_value | some cs ↦ ok (charged r cs c) ]
  unfolding charge_keys call_all
  charge_keys-calls r [] c = refl
  charge_keys-calls r ((k, p) ∷ ks) c = elim (Option-cases (max_chunks k)) [
    | inl q ↦ rw q
    | inr (n, q) ↦
        let rest = charge_keys-calls r ks (charged r (n ∷ []) c) in
        elim (Option-cases (declared_chunks ks)) [
          | inl l ↦ rw q (rest ∙ rw l)
          | inr (cs, l) ↦ rw (q, l) (rest ∙ rw l)
        ]
  ]

  abbrev pub AllLe64 : List ℕ → Type 0
  AllLe64 [] = Unit
  AllLe64 (n ∷ ns) = (n ≤ max_uint64) × AllLe64 ns

  storage_calls-AllUint64 :
      (k w : ℕ) (cs : List ℕ)
      → k ≤ max_uint64
      → w ≤ max_uint64
      → AllLe64 cs
      → AllUint64 (storage_calls k w cs)
  storage_calls-AllUint64 k w [] hk hw h = tt
  storage_calls-AllUint64 k w (c ∷ cs) hk hw (hc, hs) =
      (hk, ((hc, hw), storage_calls-AllUint64 k w cs hk hw hs))

  -- The rules charge uint64 units, and so do the actions and the authentication.
  abbrev pub ChargesUint64 : Transaction → Rules → Type 0
  ChargesUint64 tx r =
      (r.base_compute_units ≤ max_uint64)
      × AllUint64 (compute_calls r tx.actions (tx.auth.compute_units r))
      × AllLe64 (
          r.storage_key_read_units ∷ r.storage_value_read_units ∷ r.storage_key_allocate_units
          ∷ r.storage_value_allocate_units ∷ r.storage_key_write_units ∷ r.storage_value_write_units
          ∷ [])

  -- The units as exact numbers, from the chunks of the keys.
  abbrev pub exact_compute : Transaction → Rules → ℕ
  exact_compute tx r =
      r.base_compute_units + exact_sum (compute_calls r tx.actions (tx.auth.compute_units r))

  abbrev pub exact_storage : ℕ → ℕ → List ℕ → ℕ
  exact_storage key_units value_units cs = exact_sum (storage_calls key_units value_units cs)

  abbrev pub exact_units : Transaction → Rules → List ℕ → Dimensions
  exact_units tx r cs =
      tx.size
      ∷ exact_compute tx r
      ∷ exact_storage r.storage_key_read_units r.storage_value_read_units cs
      ∷ exact_storage r.storage_key_allocate_units r.storage_value_allocate_units cs
      ∷ exact_storage r.storage_key_write_units r.storage_value_write_units cs
      ∷ []

  abbrev pub all_fit : Dimensions → Bool
  all_fit [] = true
  all_fit (n ∷ ns) = leb n max_uint64 && all_fit ns

  -- For a size, charges and chunks that are uint64 values, over the keys of the transaction, all of
  -- which declare their chunks, Units is the size and the four exact sums if these are uint64
  -- values, and the overflow error if one is not.
  pub units_lem :
      (to_id : Bytes → Bytes) (tx : Transaction) (bh : BalanceHandler) (r : Rules) (ks : Keys)
      (cs : List ℕ)
      → tx.size ≤ max_uint64
      → ChargesUint64 tx r
      → state_keys to_id tx bh ≡ ok ks
      → declared_chunks ks ≡ some cs
      → AllLe64 cs
      → units to_id tx bh r
        ≡ (if all_fit (exact_units tx r cs) then ok (exact_units tx r cs) else err overflow)
  unfolding units
  units_lem to_id tx bh r ks cs hz (hb, hc, (kr, (vr, (ka, (va, (kw, (vw, _))))))) keys chunks h =
      ground (
        arith,
        keys,
        compute,
        costs,
        storage r.storage_key_read_units r.storage_value_read_units kr vr,
        storage r.storage_key_allocate_units r.storage_value_allocate_units ka va,
        storage r.storage_key_write_units r.storage_value_write_units kw vw,
      )
    where
      costs : charge_keys r ks no_costs ≡ ok (charged r cs no_costs)
      costs = charge_keys-calls r ks no_costs ∙ rw chunks

      compute :
          value (compute_operator tx r)
          ≡ (if leb (exact_compute tx r) max_uint64 then some (exact_compute tx r) else none)
      compute =
          ap value (
            compute_operator-calls r tx.actions (tx.auth.compute_units r)
              (new_operator r.base_compute_units))
          ∙ value-call_all r.base_compute_units
              (compute_calls r tx.actions (tx.auth.compute_units r)) hb hc

      storage :
          (k w : ℕ)
          → k ≤ max_uint64
          → w ≤ max_uint64
          → value (call_all (new_operator 0) (storage_calls k w cs))
            ≡ (if leb (exact_storage k w cs) max_uint64 then some (exact_storage k w cs) else none)
      storage k w hk hw = rw zero-add at (
          value-call_all 0 (storage_calls k w cs) (omega arith)
            (storage_calls-AllUint64 k w cs hk hw h))

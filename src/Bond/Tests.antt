-- ===== src/Bond/Tests.antt =====
-- internal/chain/bond.go: runs at concrete inputs.
use hypersdk.Base.{
  ◌+◌, ◌*◌, ◌≤◌, ◌≡◌, refl, true, [], ◌∷◌, none, some, ◌==◌, Bytes_eq, if◌then◌else◌, arith,
}
use hypersdk.Binary.{get_uint64}
use hypersdk.Math.Checked.{CheckedMath, exact_math}
use hypersdk.Chain.Transaction.{Transaction}
use hypersdk.Bond.{Database, pending_bond_balance, bond_within, unbond}
use hypersdk.Bond.Limits.{bonded, unbond-bond_within}

instance abbrev math : CheckedMath
math = exact_math

abbrev tx : Transaction
tx = record {
  base = record { timestamp = 3000; chain_id = []; max_fee = 100 };
  actions = [];
  auth = record {
    valid_range = λ r. (none, none);
    compute_units = λ r. 3;
    actor = 1 ∷ [];
    sponsor = 1 ∷ [];
  };
  size = 200;
  id = 2 ∷ [];
}

-- The account has 100 pending.
abbrev db : Database
db k = if k == (1 ∷ []) then some (0 ∷ 0 ∷ 0 ∷ 0 ∷ 0 ∷ 0 ∷ 0 ∷ 100 ∷ []) else none

db-pending : pending_bond_balance db (1 ∷ []) ≡ 100
unfolding pending_bond_balance get_uint64
db-pending = refl

abbrev after : Database
after = bonded db tx 500 400

bond-after : bond_within db tx 2 600 ≡ (after, true)
unfolding bond_within pending_bond_balance get_uint64
bond-after = refl

unbond-bond_within_example :
    (pending_bond_balance after tx.auth.sponsor
      ≡ pending_bond_balance db tx.auth.sponsor + tx.size * 2)
    × (pending_bond_balance after tx.auth.sponsor ≤ 600)
    × (pending_bond_balance (unbond after tx) tx.auth.sponsor
        ≡ pending_bond_balance db tx.auth.sponsor)
unbond-bond_within_example =
    unbond-bond_within db after tx 2 600 (omega arith) (omega arith) (omega (arith, db-pending))
      (λ e. cc) bond-after

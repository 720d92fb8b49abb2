-- ===== src/Balance/Tests.antt =====
-- state/balance: runs at concrete inputs.
use hypersdk.Base.{
  ℕ, ◌+◌, ◌≤◌, ◌≡◌, refl, true, [], ◌∷◌, none, some, Bytes, ◌==◌, Bytes_eq, Option, ok, err,
  replicate, if◌then◌else◌, arith,
}
use hypersdk.Math.Checked.{CheckedMath, exact_math, max_uint64}
use hypersdk.TState.View.{
  View, not_found, insert, get_value, get_value_of, is_unchanged, overwrite, settle,
}
use hypersdk.TState.Session.{step}
use hypersdk.Keys.{verify_value, num_chunks}
use hypersdk.Chain.Program.{perform}
use hypersdk.Balance.Handler.{Uint64Codec, balance_key, get_balance, deduct, add_balance}
use hypersdk.Balance.Accounts.{SetsBalance, add_balance-SetsBalance}

instance abbrev math : CheckedMath
math = exact_math

abbrev first : Bytes → Option ℕ
first [] = none
first (n ∷ ns) = some n

-- A codec that meets what is asked of it.
instance abbrev codec : Uint64Codec
codec = record {
  pack = λ n. n ∷ replicate 7 0;
  parse = first;
  parse-pack = λ n h. refl;
  length-pack = λ n. refl;
}

abbrev addr : Bytes
addr = 1 ∷ []

abbrev account : Bytes
account = 7 ∷ 1 ∷ 0 ∷ 1 ∷ []

abbrev ten : Bytes
ten = 10 ∷ replicate 7 0

abbrev view : View
view = record {
  ts = record { changed_keys = λ k. none; ops = 0 };
  pending = λ k. none;
  ops = [];
  scope = λ k p. true;
  storage = λ k. if k == account then ok ten else err not_found;
  allocates = λ k. none;
  writes = λ k. none;
}

balance-ten : get_balance (7 ∷ []) (get_value view) addr ≡ ok 10
unfolding get_balance balance_key get_value get_value_of
balance-ten = refl

abbrev after_deduct : View
after_deduct = (perform (deduct (7 ∷ []) addr 3) view).0

deduct-ok : perform (deduct (7 ∷ []) addr 3) view ≡ (after_deduct, ok tt)
unfolding perform deduct balance_key get_value get_value_of insert verify_value is_unchanged
    overwrite settle num_chunks step
deduct-ok = refl

abbrev after_add : View
after_add = (perform (add_balance (7 ∷ []) addr 5) view).0

add-ok : perform (add_balance (7 ∷ []) addr 5) view ≡ (after_add, ok tt)
unfolding perform add_balance balance_key get_value get_value_of insert verify_value is_unchanged
    overwrite settle num_chunks step
add-ok = refl

add_balance-SetsBalance_example :
    (10 + 5 ≤ max_uint64) × SetsBalance (7 ∷ []) addr (10 + 5) view after_add
add_balance-SetsBalance_example =
    add_balance-SetsBalance (7 ∷ []) addr 5 10 view after_add (omega arith) (omega arith)
      balance-ten add-ok

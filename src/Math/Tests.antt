-- ===== src/Math/Tests.antt =====
-- internal/math: runs at concrete inputs.
use hypersdk.Base.{◌^◌, ◌-◌, ◌≡◌, refl, List, [], ◌∷◌, none}
use hypersdk.Math.Checked.{exact_math}
use hypersdk.Math.Operator.{new_operator, value, call_all, Call, add_call, mul_add_call}

abbrev calls : List Call
calls = add_call 5 ∷ mul_add_call 3 7 ∷ []

-- An overflow in the middle is not forgotten.
overflow : value (call_all ⦃m = exact_math⦄ (new_operator (2 ^ 64 - 1)) calls) ≡ none
unfolding value call_all new_operator
overflow = refl

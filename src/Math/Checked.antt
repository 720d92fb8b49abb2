-- ===== src/Math/Checked.antt =====
-- The package utils/math of avalanchego, whose source is not in the repository: `Add`, `Mul` and
-- `Sub` on uint64 return an error exactly if the exact result is not a uint64. A `some` stands for
-- a result with a nil error.
use hypersdk.Base.{ℕ, ◌+◌, ◌-◌, ◌*◌, ◌^◌, ◌≤◌, ◌≡◌, refl, Option, none, some, leb, if◌then◌else◌}

-- consts.MaxUint64
abbrev pub max_uint64 : ℕ
max_uint64 = 2 ^ 64 - 1

pub record CheckedMath : Type 0 where
  pub add : ℕ → ℕ → Option ℕ
  pub mul : ℕ → ℕ → Option ℕ
  pub sub : ℕ → ℕ → Option ℕ
  pub add_lem :
      (a b : ℕ)
      → a ≤ max_uint64
      → b ≤ max_uint64
      → add a b ≡ (if leb (a + b) max_uint64 then some (a + b) else none)
  pub mul_lem :
      (a b : ℕ)
      → a ≤ max_uint64
      → b ≤ max_uint64
      → mul a b ≡ (if leb (a * b) max_uint64 then some (a * b) else none)
  pub sub_lem :
      (a b : ℕ)
      → a ≤ max_uint64
      → b ≤ max_uint64
      → sub a b ≡ (if leb b a then some (a - b) else none)

-- The documented behaviour can be met.
abbrev pub exact_math : CheckedMath
exact_math = record {
  add = λ a b. if leb (a + b) max_uint64 then some (a + b) else none;
  mul = λ a b. if leb (a * b) max_uint64 then some (a * b) else none;
  sub = λ a b. if leb b a then some (a - b) else none;
  add_lem = λ a b p q. refl;
  mul_lem = λ a b p q. refl;
  sub_lem = λ a b p q. refl;
}

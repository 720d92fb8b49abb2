-- ===== src/Fees/Tests.antt =====
-- fees and internal/fees: runs at concrete inputs.
use Prim.Native.Nat.{max}
use hypersdk.Base.{
  ℕ, ◌+◌, ◌-◌, ◌/◌, ◌≤◌, ◌≡◌, refl, true, false, List, [], ◌∷◌, none, some, ok, min, replicate, leb,
  if◌then◌else◌, arith,
}
use hypersdk.Math.Checked.{CheckedMath, exact_math, max_uint64}
use hypersdk.Fees.Dimensions.{add, can_add, bytes, unpack_dimensions}
use hypersdk.Fees.Dimensions.Exact.{dot, sums, all_uint64, add_exact, unpack_dimensions-bytes}
use hypersdk.Fees.Price.{next_price}
use hypersdk.Fees.Price.Bounds.{next_price-above, next_price-below}
use hypersdk.Fees.Manager.{consume, fee, compute_next, FeeRules}
use hypersdk.Fees.Manager.Layout.{Dim, layout}
use hypersdk.Fees.Manager.Consume.{
  prices, consumptions, charge, fee_lem, consume-fits, consume-misfit,
}
use hypersdk.Fees.Manager.Next.{AllNext, Ready, compute_next_lem}

instance abbrev math : CheckedMath
math = exact_math

abbrev units : List ℕ
units = 1 ∷ 2 ∷ 3 ∷ 4 ∷ 5 ∷ []

abbrev limits : List ℕ
limits = 20 ∷ 20 ∷ 20 ∷ 20 ∷ 20 ∷ []

add_exact_example :
    add units limits ≡ (if all_uint64 (sums units limits) then some (sums units limits) else none)
add_exact_example = add_exact units limits (omega arith) (omega arith)

unpack_dimensions-bytes_example : unpack_dimensions (bytes units) ≡ some units
unpack_dimensions-bytes_example = unpack_dimensions-bytes units refl (omega arith)

abbrev ten : List ℕ
ten = 7 ∷ 0 ∷ 0 ∷ 0 ∷ 0 ∷ 0 ∷ 0 ∷ 0 ∷ 0 ∷ 2 ∷ []

next_price-above_example :
    (q : ℕ) × (next_price 30 100 20 48 1 0 ≡ ok q) × (min (100 + 1) max_uint64 ≤ q) × (1 ≤ q)
next_price-above_example =
    next_price-above 30 100 20 48 1 0 (omega arith) (omega arith) (omega arith) (omega arith)

next_price-below_example :
    (q : ℕ) × (next_price 10 100 20 48 1 0 ≡ ok q) × (q ≤ max 1 (100 - 1)) × (1 ≤ q)
next_price-below_example =
    next_price-below 10 100 20 48 1 0 (omega arith) (omega arith) (omega arith) (omega arith)
      (omega arith)

price_low : next_price 10 100 20 2 1 0 ≡ ok 75
unfolding next_price
price_low = refl

price_high : next_price 30 100 20 2 1 0 ≡ ok 125
unfolding next_price
price_high = refl

abbrev dim : Dim
dim = record { price = 100; slots = ten; consumed = 3 }

abbrev dims : List Dim
dims = replicate 5 dim

fee_lem_example :
    fee (layout 8 dims) units
    ≡ (if leb (dot (prices dims) units) max_uint64 then some (dot (prices dims) units) else none)
fee_lem_example = fee_lem 8 dims units (omega arith) refl (omega arith)

can_add-units : can_add (consumptions dims) units limits ≡ true
unfolding can_add
can_add-units = refl

consume-fits_example :
    consume (layout 8 dims) units limits ≡ (layout 8 (charge dims units), true, 0)
consume-fits_example =
    consume-fits 8 dims units limits (omega arith) refl refl (omega arith) (omega arith)
      can_add-units

can_add-too_many : can_add (consumptions dims) units units ≡ false
unfolding can_add
can_add-too_many = refl

consume-misfit_example : (i : ℕ) × (consume (layout 8 dims) units units ≡ (layout 8 dims, false, i))
consume-misfit_example =
    consume-misfit 8 dims units units (omega arith) refl refl (omega arith) (omega arith)
      can_add-too_many

abbrev rules : FeeRules
rules = record {
  min_unit_price = replicate 5 1;
  unit_price_change_denominator = replicate 5 48;
  window_target_units = replicate 5 20;
}

ready : (n : ℕ) → Ready (replicate n 20) (replicate n 48) (replicate n 1) (replicate n dim)
ready ℕ.zero = Ready.nil
ready (ℕ.suc n) = Ready.cons (omega arith) (omega arith) (omega arith) (omega arith) (ready n)

compute_next_lem_example :
    (ys : List Dim) × AllNext
      (11000 / 1000 - 8)
      rules.window_target_units
      rules.unit_price_change_denominator
      rules.min_unit_price
      dims
      ys
    × (compute_next (layout 8 dims) 11000 rules ≡ ok (layout (11000 / 1000) ys))
compute_next_lem_example =
    compute_next_lem 8 11000 dims rules refl (omega arith) (omega arith) (ready 5)

-- ===== src/Fees/Manager.antt =====
-- internal/fees/manager.go: the fee manager, whose state is one byte array. A dimension has its
-- price, its window and its last consumption, one after the other, behind the timestamp.
-- The lock and times before 1970 are left out.
pub mod Layout
pub mod Consume
pub mod Next
use hypersdk.Base.{
  ℕ, zero, suc, ◌+◌, ◌-◌, ◌*◌, ◌/◌, ◌%◌, ◌^◌, Bool, true, false, List, [], ◌∷◌, Option, none, some,
  Bytes, ltb, if◌then◌else◌, take, drop, replicate, length, nat_eq, Outcome, ok, err, ◌>>=◌,
}
use hypersdk.Math.Checked.{CheckedMath}
use hypersdk.Binary.{get_uint64, put_uint64, copy_at}
use hypersdk.Fees.Dimensions.{Dimensions, fee_dimensions}
use hypersdk.Fees.Window.{Window, window_slice_size}
use hypersdk.Fees.Price.{Panic, compute_next_price_window}

abbrev pub dimension_state_len : ℕ
dimension_state_len = 96

abbrev pub raw_len : ℕ
raw_len = 8 + fee_dimensions * dimension_state_len

-- `raw[start : start+n]`
abbrev pub slice : Bytes → ℕ → ℕ → Bytes
slice raw start n = take n (drop start raw)

-- `NewManager`
unfoldable pub new_manager : Bytes → Bytes
new_manager raw = if nat_eq (length raw) 0 then replicate raw_len 0 else raw

-- `unitPrice`
unfoldable pub unit_price : Bytes → ℕ → ℕ
unit_price raw d = get_uint64 (slice raw (8 + dimension_state_len * d) 8)

-- `window`
unfoldable pub window : Bytes → ℕ → Window
window raw d = slice raw (8 + dimension_state_len * d + 8) window_slice_size

-- `lastConsumed`
unfoldable pub last_consumed : Bytes → ℕ → ℕ
last_consumed raw d = get_uint64 (slice raw (8 + dimension_state_len * d + 8 + window_slice_size) 8)

-- `setUnitPrice`
unfoldable pub set_unit_price : Bytes → ℕ → ℕ → Bytes
set_unit_price raw d price = put_uint64 raw (8 + dimension_state_len * d) price

-- `setLastConsumed`
unfoldable pub set_last_consumed : Bytes → ℕ → ℕ → Bytes
set_last_consumed raw d consumed =
    put_uint64 raw (8 + dimension_state_len * d + 8 + window_slice_size) consumed

pub record FeeRules : Type 0 where
  pub min_unit_price : Dimensions
  pub unit_price_change_denominator : Dimensions
  pub window_target_units : Dimensions

-- `UnitPrices` and `UnitsConsumed`, over the `n` dimensions from the `i`th on.
unfoldable pub unit_prices_from : ℕ → ℕ → Bytes → Dimensions
unit_prices_from zero i raw = []
unit_prices_from (suc n) i raw = unit_price raw i ∷ unit_prices_from n (suc i) raw

unfoldable pub units_consumed_from : ℕ → ℕ → Bytes → Dimensions
units_consumed_from zero i raw = []
units_consumed_from (suc n) i raw = last_consumed raw i ∷ units_consumed_from n (suc i) raw

unfoldable pub unit_prices : Bytes → Dimensions
unfolding unit_prices_from
unit_prices raw = unit_prices_from fee_dimensions 0 raw

unfoldable pub units_consumed : Bytes → Dimensions
unfolding units_consumed_from
units_consumed raw = units_consumed_from fee_dimensions 0 raw

-- The seconds since the time stored, wrapping round if that lies ahead.
unfoldable pub seconds_since : Bytes → ℕ → ℕ
seconds_since raw seconds = (seconds + 2 ^ 64 - get_uint64 (slice raw 0 8)) % 2 ^ 64

module _ ⦃m : CheckedMath⦄ where
  -- The first loop of `Consume` from the `i`th dimension on: the dimension that does not fit.
  unfoldable pub misfit : Bytes → ℕ → Dimensions → Dimensions → Option ℕ
  misfit raw i (d ∷ ds) (l ∷ ls) = elim (m.add (last_consumed raw i) d) [
    | none ↦ some i
    | some consumed ↦ if ltb l consumed then some i else misfit raw (suc i) ds ls
  ]
  misfit raw i _ _ = none

  -- The second loop, which commits.
  unfoldable pub commit : Bytes → ℕ → Dimensions → Bytes × Bool × ℕ
  commit raw i [] = (raw, true, 0)
  commit raw i (d ∷ ds) = elim (m.add (last_consumed raw i) d) [
    | none ↦ (raw, false, i)
    | some consumed ↦ commit (set_last_consumed raw i consumed) (suc i) ds
  ]

  -- `Consume`: the array afterwards, with the result
  unfoldable pub consume : Bytes → Dimensions → Dimensions → Bytes × Bool × ℕ
  consume raw d l = elim (misfit raw 0 d l) [ some i ↦ (raw, false, i) | none ↦ commit raw 0 d ]

  -- The loop of `Fee`; `none` for an error
  unfoldable pub fee_from : Bytes → ℕ → ℕ → Dimensions → Option ℕ
  fee_from raw i fee [] = some fee
  fee_from raw i fee (d ∷ ds) = elim (m.mul (unit_price raw i) d) [
    | none ↦ none
    | some contribution ↦ elim (m.add contribution fee) [
      | none ↦ none
      | some total ↦ fee_from raw (suc i) total ds
    ]
  ]

  -- `Fee`
  unfoldable pub fee : Bytes → Dimensions → Option ℕ
  fee raw d = fee_from raw 0 0 d

  -- The loop of `ComputeNext` from the `i`th dimension on, over the array that it fills.
  unfoldable pub compute_dimensions :
      Bytes → ℕ → ℕ → Dimensions → Dimensions → Dimensions → Bytes → Outcome Panic Bytes
  compute_dimensions raw since i (t ∷ ts) (c ∷ cs) (p ∷ ps) bytes = do
    let start = 8 + dimension_state_len * i
    (price, w) ←
        compute_next_price_window (window raw i) (last_consumed raw i) (unit_price raw i) t c p
          since
    compute_dimensions raw since (suc i) ts cs ps
        (copy_at (put_uint64 bytes start price) (start + 8) w)
  compute_dimensions raw since i _ _ _ bytes = ok bytes

  -- `ComputeNext`, at a time in milliseconds
  unfoldable pub compute_next : Bytes → ℕ → FeeRules → Outcome Panic Bytes
  compute_next raw time r =
      let seconds = time / 1000 in
      compute_dimensions raw (seconds_since raw seconds) 0 r.window_target_units
        r.unit_price_change_denominator r.min_unit_price
        (put_uint64 (replicate raw_len 0) 0 seconds)

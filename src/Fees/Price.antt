-- ===== src/Fees/Price.antt =====
-- internal/fees/manager.go: `computeNextPriceWindow`.
pub mod Bounds
pub mod Monotone
pub mod Roll
use hypersdk.Base.{
  ℕ, ◌+◌, ◌-◌, ◌*◌, ◌/◌, ◌%◌, ◌^◌, Bool, Option, none, some, ltb, nat_eq, if◌then◌else◌, Outcome,
  ok, err, ◌>>=◌,
}
use hypersdk.Math.Checked.{CheckedMath, max_uint64}
use hypersdk.Fees.Window.{Window, window_size, roll, update, sum, saturated}

-- The run-time panic of an integer division by zero.
pub data Panic : Type 0 where
  divide_by_zero : Panic

unfoldable pub divide : ℕ → ℕ → Outcome Panic ℕ
divide a b = if nat_eq b 0 then err divide_by_zero else ok (a / b)

abbrev pub wrap64 : ℕ → ℕ
wrap64 n = n % 2 ^ 64

-- `if baseDelta < 1 { baseDelta = 1 }`
abbrev pub at_least_one : ℕ → ℕ
at_least_one n = if ltb n 1 then 1 else n

-- The change of the price for a difference of `delta` from the target. The product may wrap round.
unfoldable pub base_delta : ℕ → ℕ → ℕ → ℕ → Outcome Panic ℕ
unfolding divide
base_delta previous_price delta target change_denom = do
  let x = wrap64 (previous_price * delta)
  y ← divide x target
  d ← divide y change_denom
  ok (at_least_one d)

-- A decrease is applied once for each full window since the last block.
abbrev pub scaled : ℕ → ℕ → ℕ
scaled base since = if ltb window_size since then wrap64 (base * (since / window_size)) else base

abbrev pub or_zero : Option ℕ → ℕ
or_zero none = 0
or_zero (some n) = n

module _ ⦃m : CheckedMath⦄ where
  -- The price before its lower bound, from the total of the window.
  unfoldable pub raw_price : ℕ → ℕ → ℕ → ℕ → ℕ → Outcome Panic ℕ
  unfolding base_delta
  raw_price total previous_price target change_denom since =
      if ltb target total
      then (do
        base ← base_delta previous_price (total - target) target change_denom
        ok (saturated (m.add previous_price base)))
      else if ltb total target
      then (do
        base ← base_delta previous_price (target - total) target change_denom
        ok (or_zero (m.sub previous_price (scaled base since))))
      else ok previous_price

  unfoldable pub next_price : ℕ → ℕ → ℕ → ℕ → ℕ → ℕ → Outcome Panic ℕ
  unfolding raw_price
  next_price total previous_price target change_denom min_price since = do
    price ← raw_price total previous_price target change_denom since
    ok (if ltb price min_price then min_price else price)

  -- The window rolled to the present, with the parent's consumption at its place.
  unfoldable pub next_window : Window → ℕ → ℕ → Window
  next_window previous previous_consumed since =
      let rolled = roll previous since in
      if ltb since window_size
      then update rolled ((window_size - 1 - since) * 8) previous_consumed
      else rolled

  -- `computeNextPriceWindow`
  unfoldable pub compute_next_price_window :
      Window → ℕ → ℕ → ℕ → ℕ → ℕ → ℕ → Outcome Panic (ℕ × Window)
  unfolding next_price next_window
  compute_next_price_window previous consumed price target denom min_price since = do
    let w = next_window previous consumed since
    p ← next_price (sum w) price target denom min_price since
    ok (p, w)

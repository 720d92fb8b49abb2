-- ===== src/Fees/Price/Bounds.antt =====
-- internal/fees: how the next unit price relates to the previous one.
use Prim.Native.Nat.{max}
use hypersdk.Base.{
  ℕ, ◌+◌, ◌-◌, ◌*◌, ◌/◌, ◌≤◌, ◌<◌, ◌≡◌, ◌≢◌, ◌↔◌, ◌⊎◌, inl, inr, ok, err, arith, min, lt-cases,
}
use hypersdk.Math.Checked.{CheckedMath, max_uint64}
use hypersdk.Fees.Window.{window_size}
use hypersdk.Fees.Price.{Panic, base_delta, raw_price, next_price, scaled, wrap64, at_least_one}

quotient_bound : (x t c : ℕ) → 0 < t → 0 < c → x / t / c ≤ x
quotient_bound x t c h k = grind arith

base_delta_ok :
    (p d t c : ℕ)
    → 0 < t
    → 0 < c
    → (b : ℕ) × (base_delta p d t c ≡ ok b) × (1 ≤ b) × (b ≤ max_uint64)
unfolding base_delta
base_delta_ok p d t c h k = (
  at_least_one (wrap64 (p * d) / t / c),
  ground arith,
  ground arith,
  ground (arith, quotient_bound (wrap64 (p * d)) t c h k),
)

module _ ⦃m : CheckedMath⦄ (total price target denom min_price since : ℕ) where
  -- The rule panics exactly if it divides by zero: the window is not at its target, and the target
  -- or the denominator is zero.
  pub next_price_panics :
      (next_price total price target denom min_price since ≡ err Panic.divide_by_zero)
      ↔ ((total ≢ target) × ((target ≡ 0) ⊎ (denom ≡ 0)))
  unfolding next_price
  next_price_panics = (λ e. (λ q. ground arith, ground arith), λ h. ground arith)

  module _ (h : price ≤ max_uint64) (t : 0 < target) (c : 0 < denom) where
    -- Where the target and the denominator are not zero and the price is a uint64, above its target a
    -- window raises the price by at least one, up to the largest uint64, and never leaves it below
    -- the minimum.
    pub next_price-above :
        target < total
        → (q : ℕ) × (next_price total price target denom min_price since ≡ ok q)
          × (min (price + 1) max_uint64 ≤ q)
          × (min_price ≤ q)
    unfolding next_price raw_price
    next_price-above o =
        let (b, e, low, high) = base_delta_ok price (total - target) target denom t c in
        (
          max min_price (min (price + b) max_uint64),
          ground (arith, e, m.add_lem price b),
          ground arith,
          ground arith,
        )

    -- Where the target and the denominator are not zero and the price is a uint64, below its target,
    -- within one window's time since the last block, a window lowers the price by at least one, down
    -- to the minimum.
    pub next_price-below :
        total < target
        → since ≤ window_size
        → (q : ℕ) × (next_price total price target denom min_price since ≡ ok q)
          × (q ≤ max min_price (price - 1))
          × (min_price ≤ q)
    unfolding next_price raw_price
    next_price-below o s =
        let (b, e, low, high) = base_delta_ok price (target - total) target denom t c in
        (
          max min_price (price - b),
          ground (arith, e, m.sub_lem price b),
          ground arith,
          ground arith,
        )

    -- At its target a window leaves the price, or raises it to the minimum.
    pub next_price_at :
        total ≡ target
        → next_price total price target denom min_price since ≡ ok (max min_price price)
    unfolding next_price
    next_price_at o = ground arith

    -- With a minimum that is a uint64 the rule always gives a price, and that is a uint64.
    pub next_price-total :
        min_price ≤ max_uint64
        → (q : ℕ) × (next_price total price target denom min_price since ≡ ok q) × (q ≤ max_uint64)
    unfolding next_price raw_price
    next_price-total k = elim (lt-cases total target) [
      | inl below ↦
          let (b, e, low, high) = base_delta_ok price (target - total) target denom t c in
          (
            max min_price (price - scaled b since),
            ground (arith, e, m.sub_lem price (scaled b since)),
            omega arith,
          )
      | inr (inl at) ↦ (max min_price price, ground arith, omega arith)
      | inr (inr above) ↦
          let (b, e, low, high) = base_delta_ok price (total - target) target denom t c in
          (
            max min_price (min (price + b) max_uint64),
            ground (arith, e, m.add_lem price b),
            omega arith,
          )
    ]

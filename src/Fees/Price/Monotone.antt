-- ===== src/Fees/Price/Monotone.antt =====
-- internal/fees: a fuller window never gives a lower unit price.
use Prim.Native.Nat.{max}
use native.Mathlib.Nat.{
  le-div_iff_mul-le, div-mul-le_self, le_trans, mul-le-mul_left, div-zero, mod-eq_of_lt,
  div-le_self,
}
use hypersdk.Base.{
  ℕ, zero, suc, ◌+◌, ◌-◌, ◌*◌, ◌/◌, ◌≤◌, ◌<◌, ◌≡◌, inl, inr, ok, arith, min, ltb, lt-cases,
  if◌then◌else◌,
}
use hypersdk.Math.Checked.{CheckedMath, max_uint64}
use hypersdk.Fees.Window.{window_size}
use hypersdk.Fees.Price.{base_delta, raw_price, next_price, at_least_one, wrap64}

-- The change of the price where the product does not wrap round.
unfoldable pub exact_delta : ℕ → ℕ → ℕ → ℕ → ℕ
exact_delta p d t c = at_least_one (p * d / t / c)

div_mono : (k a b : ℕ) → a ≤ b → a / k ≤ b / k
div_mono zero a b h = omega (arith, div-zero a)
div_mono (suc k) a b h =
    (le-div_iff_mul-le {k = suc k} {x = a / suc k} {y = b} (omega arith)).1
      (le_trans (div-mul-le_self a (suc k)) h)

exact_delta_mono : (p d e t c : ℕ) → d ≤ e → exact_delta p d t c ≤ exact_delta p e t c
unfolding exact_delta
exact_delta_mono p d e t c h =
    ground
      (arith, div_mono c (p * d / t) (p * e / t) (div_mono t (p * d) (p * e) (mul-le-mul_left p h)))

base_delta_exact :
    (p d t c : ℕ)
    → 0 < t
    → 0 < c
    → p * d ≤ max_uint64
    → base_delta p d t c ≡ ok (exact_delta p d t c)
unfolding base_delta exact_delta
base_delta_exact p d t c h k o =
    let whole : wrap64 (p * d) ≡ p * d = mod-eq_of_lt (omega arith) in rw whole (ground arith)

quotients_le : (p d t c : ℕ) → p * d ≤ max_uint64 → exact_delta p d t c ≤ max_uint64
unfolding exact_delta
quotients_le p d t c o = ground (arith, div-le_self (p * d / t) c, div-le_self (p * d) t)

module _ ⦃m : CheckedMath⦄ (price target denom min_price since : ℕ) where
  -- The price that the rule gives where nothing wraps round.
  abbrev pub exact_price : ℕ → ℕ
  exact_price total = max min_price (
      if ltb target total
      then min (price + exact_delta price (total - target) target denom) max_uint64
      else if ltb total target
      then price - exact_delta price (target - total) target denom
      else price)

  exact_price_mono : price ≤ max_uint64 → (a b : ℕ) → a ≤ b → exact_price a ≤ exact_price b
  exact_price_mono h a b p = elim (lt-cases a target) [
    | inl below ↦ elim (lt-cases b target) [
      | inl below' ↦
          ground
            (arith, exact_delta_mono price (target - b) (target - a) target denom (omega arith))
      | inr above ↦ ground arith
    ]
    | inr (inl at) ↦ ground arith
    | inr (inr above) ↦
        ground (arith, exact_delta_mono price (a - target) (b - target) target denom (omega arith))
  ]

  module _ (h : price ≤ max_uint64) (t : 0 < target) (c : 0 < denom) where
    -- Within one window's time, and where the price times the difference from the target is a
    -- uint64, the rule gives exactly the price of the exact formula.
    pub next_price_exact :
        (total : ℕ)
        → since ≤ window_size
        → price * (total - target) ≤ max_uint64
        → price * (target - total) ≤ max_uint64
        → next_price total price target denom min_price since ≡ ok (exact_price total)
    unfolding next_price raw_price
    next_price_exact total s o u = elim (lt-cases total target) [
      | inl below ↦ ground (
        arith,
        base_delta_exact price (target - total) target denom t c u,
        m.sub_lem price (exact_delta price (target - total) target denom),
        quotients_le price (target - total) target denom u,
      )
      | inr (inl at) ↦ ground arith
      | inr (inr above) ↦ ground (
        arith,
        base_delta_exact price (total - target) target denom t c o,
        m.add_lem price (exact_delta price (total - target) target denom),
        quotients_le price (total - target) target denom o,
      )
    ]

    -- More units in the window never give a lower price, within one window's time and where the
    -- price times the difference from the target is a uint64.
    pub next_price_mono :
        (a b p q : ℕ)
        → a ≤ b
        → since ≤ window_size
        → price * (b - target) ≤ max_uint64
        → price * (target - a) ≤ max_uint64
        → next_price a price target denom min_price since ≡ ok p
        → next_price b price target denom min_price since ≡ ok q
        → p ≤ q
    next_price_mono a b p q le s o u e f = ground (
      arith,
      next_price_exact a s (le_trans (mul-le-mul_left price less_over) o) u,
      next_price_exact b s o (le_trans (mul-le-mul_left price less_under) u),
      exact_price_mono h a b le,
    )
      where
        less_over : a - target ≤ b - target
        less_over = omega arith

        less_under : target - b ≤ target - a
        less_under = omega arith

-- ===== src/Fees/Window.antt =====
-- internal/window/window.go: ten uint64 values in an array of 80 bytes, the latest last.
pub mod Slots
use hypersdk.Base.{
  ℕ, zero, suc, ◌+◌, ◌-◌, ◌*◌, ◌≤◌, ◌≡◌, List, [], ◌∷◌, Option, none, some, Bytes, ltb,
  if◌then◌else◌, length, drop, replicate,
}
use hypersdk.Math.Checked.{CheckedMath, max_uint64}
use hypersdk.Binary.{get_uint64, put_uint64, copy_at}

abbrev pub window_size : ℕ
window_size = 10

abbrev pub window_slice_size : ℕ
window_slice_size = 80

abbrev pub Window : Type 0
Window = Bytes

-- `Roll`; `bound` is not used where its product could wrap round
unfoldable pub roll : Window → ℕ → Window
roll w n =
    let res = replicate window_slice_size 0 in
    let bound = n * 8 in if ltb window_size n then res else copy_at res 0 (drop bound w)

-- A sum, or the largest uint64 where it overflows.
abbrev pub saturated : Option ℕ → ℕ
saturated none = max_uint64
saturated (some n) = n

module _ ⦃m : CheckedMath⦄ where
  -- The loop of `Sum` over the `n` values left.
  unfoldable pub sum_from : ℕ → ℕ → Window → ℕ
  sum_from zero acc w = acc
  sum_from (suc n) acc w = elim (m.add acc (get_uint64 w)) [
    | none ↦ max_uint64
    | some s ↦ sum_from n s (drop 8 w)
  ]

  -- `Sum`
  unfoldable pub sum : Window → ℕ
  unfolding sum_from
  sum w = sum_from window_size 0 w

  -- `Update`
  unfoldable pub update : Window → ℕ → ℕ → Window
  update w start units = put_uint64 w start (saturated (m.add (get_uint64 (drop start w)) units))

-- `Last`
unfoldable pub last : Window → ℕ
last w = get_uint64 (drop (window_slice_size - 8) w)

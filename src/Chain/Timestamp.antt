-- ===== src/Chain/Timestamp.antt =====
-- internal/validitywindow/validitywindow.go: `VerifyTimestamp`. Times are in milliseconds after
-- 1970, and so early that adding the window stays within int64.
use hypersdk.Base.{ℕ, ◌+◌, ◌≤◌, ◌≡◌, ◌↔◌, ◌%◌, ltb, nat_eq, not, Outcome, ok, ◌>>◌, guard, arith}

pub data TimeError : Type 0 where
  misaligned_time timestamp_expired future_timestamp : TimeError

-- `VerifyTimestamp`
unfoldable pub verify_timestamp : ℕ → ℕ → ℕ → ℕ → Outcome TimeError (Unit {0})
verify_timestamp container execution divisor window = do
  guard (nat_eq (container % divisor) 0) misaligned_time
  guard (not (ltb container execution)) timestamp_expired
  guard (not (ltb (execution + window) container)) future_timestamp

-- `VerifyTimestamp` accepts exactly the multiples of the divisor from the time of the block to the
-- end of its validity window, both included.
pub verify_timestamp_iff :
    (container execution divisor window : ℕ)
    → (verify_timestamp container execution divisor window ≡ ok tt)
      ↔ ((container % divisor ≡ 0) × (execution ≤ container) × (container ≤ execution + window))
unfolding verify_timestamp
verify_timestamp_iff container execution divisor window = ground arith

-- ===== src/Executor/Safety.antt =====
-- internal/executor/executor.go: `Executor ensures that conflicting tasks are executed in the order
-- they were queued`.
use hypersdk.Base.{ℕ, ◌≤◌, ◌<◌, ◌≡◌, true, Bytes, ltb, Bool-cases, inl, inr, arith}
use hypersdk.Executor.Tasks.{Executor, enqueuing, rank}
use hypersdk.Executor.Steps.{Reach}
use hypersdk.Executor.Order.{clash}
use hypersdk.Executor.Run.{IsValid}
use hypersdk.Executor.Reached.{Reach-IsValid}

module _ (max : ℕ) (s : Executor) (i j : ℕ) (k : Bytes) (x : IsValid max s) (lt : i < j)
    (few : j < s.tasks) (conflict : clash (s.keys i k) (s.keys j k) ≡ true)
    (begun : 1 ≤ rank (s.phase j)) where
  earlier_begun : 1 ≤ rank (s.phase i)
  earlier_begun = elim (Bool-cases (ltb 0 (rank (s.phase i)))) [
    | inl q ↦ ground arith
    | inr q ↦
        let e : s.phase i ≡ enqueuing = ground (arith, q) in
        let busy = x.well_formed.run_busy i (omega (arith, lt, few)) e in
        absurd (
          omega (
            arith,
            x.well_formed.last_task busy,
            x.well_formed.run_current i (omega (arith, lt, few)) e,
            lt,
            few,
          ))
  ]

  seen_clash : clash (s.seen i k) (s.seen j k) ≡ true
  seen_clash =
      rw
        (
          x.ordered.complete i k (omega (arith, lt, few)) earlier_begun,
          x.ordered.complete j k few begun,
        )
        conflict

  -- A task that is not blocked comes after all that conflict with it.
  over_before : 2 ≤ rank (s.phase j) → 5 ≤ rank (s.phase i)
  over_before h = elim (x.ordered.order i j k lt seen_clash) [
    | inl over ↦ over
    | inr (b, q, cause) ↦ absurd (omega (arith, x.well_formed.blocked_rank b j q, h))
  ]

-- In every state that calls of `Run` and the workers reach in any order, with at most as many tasks
-- as the most dependencies, where two tasks use one key and one of them not only to read, the later
-- one is in the channel, taken or beyond only when the function of the earlier one is over.
pub in_order :
    (max : ℕ) (s : Executor) (i j : ℕ) (k : Bytes)
    → Reach max s
    → i < j
    → j < s.tasks
    → clash (s.keys i k) (s.keys j k) ≡ true
    → 2 ≤ rank (s.phase j)
    → 5 ≤ rank (s.phase i)
in_order max s i j k r lt few conflict h =
    over_before max s i j k (Reach-IsValid max s r) lt few conflict (omega (arith, h)) h

-- ===== src/Executor/Progress.antt =====
-- internal/executor/executor.go: the workers execute every task that `Run` enqueued, whatever the order
-- in which they are scheduled, and so `Wait` returns.
use hypersdk.Base.{
  ℕ, zero, suc, ◌≤◌, ◌<◌, ◌≡◌, refl, false, ltb, Bool-cases, inl, inr, nat_eq, arith,
}
use hypersdk.Executor.Count.{find_below, count_member}
use hypersdk.Executor.Tasks.{
  Executor, Phase, enqueuing, waiting, queued, taken, running, ran, locked, executed, rank, advance,
  release, unread,
}
use hypersdk.Executor.Steps.{
  WorkStep, take_step, call_step, skip_step, return_step, unread_step, lock_step, release_step,
  execute_step, Reach,
}
use hypersdk.Executor.Run.{IsValid}
use hypersdk.Executor.Reached.{Reach-IsValid}

-- A task that is not executed waits, in the end, for one that a worker can go on with.
active :
    (max : ℕ) (s : Executor) (n i : ℕ)
    → IsValid max s
    → s.busy ≡ false
    → i < n
    → i < s.tasks
    → rank (s.phase i) ≤ 6
    → (j : ℕ) × (j < s.tasks) × (2 ≤ rank (s.phase j)) × (rank (s.phase j) ≤ 6)
active max s zero i x idle bound lt on = absurd (omega arith)
active max s (suc n) i x idle bound lt on = elim (Bool-cases (ltb 1 (rank (s.phase i)))) [
  | inl q ↦ (i, lt, ground arith, on)
  | inr q ↦
      let e : s.phase i ≡ waiting = ground (arith, x.well_formed.run_busy i lt, idle) in
      let (b, below, blocks) = count_member i (λ c. s.blocked c i) (x.well_formed.waits_some i e) in
      active max s n b x idle (omega arith) (omega arith) (x.well_formed.blocker_rank b i blocks)
]

abbrev pub Progress : Executor → Type 0
Progress s = (t : Executor) × WorkStep s t

-- A task that holds its lock releases a task, or is done.
locked_on :
    (max : ℕ) (s : Executor) (t : ℕ) → IsValid max s → t < s.tasks → s.phase t ≡ locked → Progress s
locked_on max s t x lt e = elim (find_below s.tasks (s.blocked t)) [
  | inl (u, few, q) ↦ (release s t u, release_step t u lt e q)
  | inr none_below ↦ (
    advance s t executed,
    execute_step t lt e (λ u. elim (Bool-cases (s.blocked t u)) [
      | inl q ↦ absurd (ground (arith, none_below u (x.well_formed.blocked_task t u q), q))
      | inr q ↦ q
    ]),
  )
]

-- A task whose function is over stops reading a task, unless that one goes on itself.
ran_on :
    (max : ℕ) (s : Executor) (t : ℕ) → IsValid max s → t < s.tasks → s.phase t ≡ ran → Progress s
ran_on max s t x lt e = elim (find_below s.tasks (s.reading t)) [
  | inl (o, few, q) ↦ elim (Bool-cases (nat_eq (rank (s.phase o)) 6)) [
    | inl h ↦ locked_on max s o x few (ground (arith, h))
    | inr h ↦ (unread s t o, unread_step t o lt e q (λ k. ground (arith, h, k)))
  ]
  | inr none_below ↦ (
    advance s t locked,
    lock_step t lt e (λ o. elim (Bool-cases (s.reading t o)) [
      | inl q ↦
          absurd
            (ground (arith, none_below o (omega (arith, x.well_formed.reading_lt t o q, lt)), q))
      | inr q ↦ q
    ]),
  )
]

active_on :
    (max : ℕ) (s : Executor) (t : ℕ) (p : Phase)
    → IsValid max s
    → t < s.tasks
    → s.phase t ≡ p
    → 2 ≤ rank p
    → rank p ≤ 6
    → Progress s
active_on max s t enqueuing x lt e low high = absurd (omega arith)
active_on max s t waiting x lt e low high = absurd (omega arith)
active_on max s t queued x lt e low high = (advance s t taken, take_step t lt e)
active_on max s t taken x lt e low high = elim (Bool-cases s.failed) [
  | inl q ↦ (advance s t ran, skip_step t lt e q)
  | inr q ↦ (advance s t running, call_step t lt e q)
]
active_on max s t running x lt e low high = (advance s t ran, return_step t lt e)
active_on max s t ran x lt e low high = ran_on max s t x lt e
active_on max s t locked x lt e low high = locked_on max s t x lt e
active_on max s t executed x lt e low high = absurd (omega arith)

progress :
    (max : ℕ) (s : Executor) (i : ℕ)
    → IsValid max s
    → s.busy ≡ false
    → i < s.tasks
    → rank (s.phase i) ≤ 6
    → Progress s
progress max s i x idle lt on =
    let (j, few, low, high) = active max s (suc i) i x idle (omega arith) lt on in
    active_on max s j (s.phase j) x few refl low high

pub no_deadlock :
    (max : ℕ) (s : Executor) (i : ℕ)
    → Reach max s
    → s.busy ≡ false
    → i < s.tasks
    → (s.phase i ≡ executed → ⊥)
    → Progress s
no_deadlock max s i r idle lt h =
    progress max s i (Reach-IsValid max s r) idle lt (ground (arith, h))

abbrev pub Finished : ℕ → Executor → Type 0
Finished n t = (t.tasks ≡ n) × ((i : ℕ) → i < n → t.phase i ≡ executed)

-- ===== src/Executor/Measure.antt =====
-- internal/executor/executor.go: what is left to do for the workers, and that each of their steps lessens it.
use hypersdk.Base.{ℕ, ◌+◌, ◌-◌, ◌≤◌, ◌<◌, ◌≡◌, ap, true, nat_eq_iff, arith}
use hypersdk.Executor.Count.{count, count_mono, count-drop, total, total-less}
use hypersdk.Executor.Tasks.{
  Executor, Phase, taken, running, ran, locked, executed, rank, advance, release, unread, fail,
}
use hypersdk.Executor.Steps.{
  WorkStep, take_step, call_step, skip_step, return_step, error_step, unread_step, lock_step,
  release_step, execute_step, Reach,
}
use hypersdk.Executor.Run.{IsValid}
use hypersdk.Executor.Reached.{Reach-IsValid}

-- What is left to do for a task: phases to go on to, tasks to stop reading, tasks to release.
abbrev pub left_of : Executor → ℕ → ℕ
left_of s t = (7 - rank (s.phase t)) + count s.tasks (s.reading t) + count s.tasks (s.blocked t)

abbrev pub work_left : Executor → ℕ
work_left s = total s.tasks (left_of s)

rank-le : (p : Phase) → rank p ≤ 7
rank-le p = ground arith

advance-less :
    (s : Executor) (t : ℕ) (p : Phase)
    → t < s.tasks
    → rank (s.phase t) < rank p
    → work_left (advance s t p) < work_left s
unfolding advance
advance-less s t p lt up =
    total-less s.tasks (left_of s) (left_of (advance s t p)) t lt
      (λ j. ground (arith, nat_eq_iff j t, ap s.phase {x = j} {y = t}))
      (ground (arith, nat_eq_iff t t, rank-le p))

unread-less :
    (s : Executor) (t o : ℕ)
    → t < s.tasks
    → o < s.tasks
    → s.reading t o ≡ true
    → work_left (unread s t o) < work_left s
unfolding unread
unread-less s t o lt few h =
    total-less s.tasks (left_of s) (left_of (unread s t o)) t lt
      (λ j. omega (
        arith,
        count_mono s.tasks (s.reading j) ((unread s t o).reading j) (λ i q. ground (arith, q)),
      ))
      (omega (
        arith,
        count-drop s.tasks (s.reading t) ((unread s t o).reading t) o few h
            (ground (arith, nat_eq_iff t t, nat_eq_iff o o)) (λ j e. ground (arith, e)),
      ))

release-less :
    (s : Executor) (t u : ℕ)
    → t < s.tasks
    → u < s.tasks
    → s.blocked t u ≡ true
    → rank (s.phase u) ≤ 1
    → work_left (release s t u) < work_left s
unfolding release
release-less s t u lt few h low =
    total-less s.tasks (left_of s) (left_of (release s t u)) t lt
      (λ j. omega (
        arith,
        up j,
        count_mono s.tasks (s.blocked j) ((release s t u).blocked j) (λ i q. ground (arith, q)),
      ))
      (omega (
        arith,
        up t,
        count-drop s.tasks (s.blocked t) ((release s t u).blocked t) u few h
            (ground (arith, nat_eq_iff t t, nat_eq_iff u u)) (λ j e. ground (arith, e)),
      ))
  where
    up : (j : ℕ) → rank (s.phase j) ≤ rank ((release s t u).phase j)
    up j = ground (arith, low, nat_eq_iff j u, ap s.phase {x = j} {y = u})

error-less :
    (s : Executor) (t : ℕ)
    → t < s.tasks
    → s.phase t ≡ running
    → work_left (fail (advance s t ran)) < work_left s
unfolding fail
error-less s t lt e = advance-less s t ran lt (ground (arith, e))

pub valid-less :
    (max : ℕ) (s t : Executor) → IsValid max s → WorkStep s t → work_left t < work_left s
valid-less max s t x (take_step u lt e) = advance-less s u taken lt (ground (arith, e))
valid-less max s t x (call_step u lt e f) = advance-less s u running lt (ground (arith, e))
valid-less max s t x (skip_step u lt e f) = advance-less s u ran lt (ground (arith, e))
valid-less max s t x (return_step u lt e) = advance-less s u ran lt (ground (arith, e))
valid-less max s t x (error_step u lt e) = error-less s u lt e
valid-less max s t x (unread_step u o lt e q free) =
    unread-less s u o lt (omega (arith, x.well_formed.reading_lt u o q, lt)) q
valid-less max s t x (lock_step u lt e h) = advance-less s u locked lt (ground (arith, e))
valid-less max s t x (release_step u b lt e q) =
    release-less s u b lt (x.well_formed.blocked_task u b q) q (x.well_formed.blocked_rank u b q)
valid-less max s t x (execute_step u lt e h) = advance-less s u executed lt (ground (arith, e))

-- From every state that calls of `Run` and the workers reach, each step of a worker lessens what is
-- left to do: the phases that tasks have to go on to, the tasks that they still read and those that
-- they still block.
pub WorkStep-less :
    (max : ℕ) (s t : Executor) → Reach max s → WorkStep s t → work_left t < work_left s
WorkStep-less max s t r p = valid-less max s t (Reach-IsValid max s r) p

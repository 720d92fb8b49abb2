-- ===== src/Executor/Reached.antt =====
-- internal/executor/executor.go: what holds in every state that the calls and the workers reach.
use hypersdk.Base.{ℕ, ◌≤◌, ◌<◌, ◌≡◌, true, arith}
use hypersdk.Executor.Tasks.{
  Executor, Phase, taken, running, ran, locked, executed, rank, advance, fail,
}
use hypersdk.Executor.Steps.{
  Step, WorkStep, work_step, begin_step, visit_step, finish_step, take_step, call_step, skip_step,
  return_step, error_step, unread_step, lock_step, release_step, execute_step, stop_step, Reach,
  start, later,
}
use hypersdk.Executor.WellFormed.{
  IsWellFormed, IsWellFormed-rest, new_executor-IsWellFormed, advance-IsWellFormed,
}
use hypersdk.Executor.Enqueue.{begin_run-IsWellFormed}
use hypersdk.Executor.Work.{
  finish_run-settled, settled-IsWellFormed, unread-IsWellFormed, release-IsWellFormed,
}
use hypersdk.Executor.Order.{
  new_executor-IsOrdered, advance-IsOrdered, fail-IsOrdered, settled-IsOrdered, begin_run-IsOrdered,
  unread-IsOrdered, release-IsOrdered,
}
use hypersdk.Executor.Run.{IsValid, visit-IsWellFormed}
use hypersdk.Executor.Looked.{visit-IsOrdered}

fail-IsWellFormed : (max : ℕ) (s : Executor) → IsWellFormed max s → IsWellFormed max (fail s)
unfolding fail
fail-IsWellFormed max s w = IsWellFormed-rest max s true s.nodes s.seen w

-- A task goes on to a later phase, when it no longer reads or blocks what it must not.
advance-IsValid :
    (max : ℕ) (s : Executor) (t : ℕ) (p : Phase)
    → IsValid max s
    → t < s.tasks
    → 2 ≤ rank (s.phase t)
    → rank (s.phase t) ≤ rank p
    → ((o : ℕ) → s.reading t o ≡ true → rank p ≤ 5)
    → ((u : ℕ) → s.blocked t u ≡ true → rank p ≤ 6)
    → IsValid max (advance s t p)
advance-IsValid max s t p x lt two up no_reading no_blocked = record {
  well_formed = advance-IsWellFormed max s t p x.well_formed lt two up no_reading no_blocked;
  ordered = advance-IsOrdered s t p (omega (arith, two)) up x.ordered;
}

fail-IsValid : (max : ℕ) (s : Executor) → IsValid max s → IsValid max (fail s)
fail-IsValid max s x = record {
  well_formed = fail-IsWellFormed max s x.well_formed;
  ordered = fail-IsOrdered s x.ordered;
}

pub WorkStep-IsValid : (max : ℕ) (s t : Executor) → IsValid max s → WorkStep s t → IsValid max t
WorkStep-IsValid max s t x (take_step u lt e) =
    advance-IsValid max s u taken x lt (ground (arith, e)) (ground (arith, e)) (λ o q. omega arith)
      (λ o q. omega arith)
WorkStep-IsValid max s t x (call_step u lt e f) =
    advance-IsValid max s u running x lt (ground (arith, e)) (ground (arith, e))
      (λ o q. omega arith) (λ o q. omega arith)
WorkStep-IsValid max s t x (skip_step u lt e f) =
    advance-IsValid max s u ran x lt (ground (arith, e)) (ground (arith, e)) (λ o q. omega arith)
      (λ o q. omega arith)
WorkStep-IsValid max s t x (return_step u lt e) =
    advance-IsValid max s u ran x lt (ground (arith, e)) (ground (arith, e)) (λ o q. omega arith)
      (λ o q. omega arith)
WorkStep-IsValid max s t x (error_step u lt e) = fail-IsValid max _ (
    advance-IsValid max s u ran x lt (ground (arith, e)) (ground (arith, e)) (λ o q. omega arith)
      (λ o q. omega arith))
WorkStep-IsValid max s t x (unread_step u o lt e r free) = record {
  well_formed = unread-IsWellFormed max s u o x.well_formed;
  ordered = unread-IsOrdered s u o e x.ordered;
}
WorkStep-IsValid max s t x (lock_step u lt e none_read) =
    advance-IsValid max s u locked x lt (ground (arith, e)) (ground (arith, e))
      (λ o q. absurd (ground (arith, none_read o))) (λ o q. omega arith)
WorkStep-IsValid max s t x (release_step u b lt e q) = record {
  well_formed = release-IsWellFormed max s u b x.well_formed e q;
  ordered = release-IsOrdered max s u b e q x.well_formed x.ordered;
}
WorkStep-IsValid max s t x (execute_step u lt e none_blocked) =
    advance-IsValid max s u executed x lt (ground (arith, e)) (ground (arith, e))
      (λ o q. absurd (ground (arith, x.well_formed.reading_rank u o q, e)))
      (λ o q. absurd (ground (arith, none_blocked o)))

pub Step-IsValid : (max : ℕ) (s t : Executor) → IsValid max s → Step max s t → IsValid max t
Step-IsValid max s t x (begin_step keys idle room) = record {
  well_formed = begin_run-IsWellFormed max s keys x.well_formed idle room;
  ordered = begin_run-IsOrdered max s keys x.ordered;
}
Step-IsValid max s t x (visit_step k v busy asked first free) = record {
  well_formed = visit-IsWellFormed max s k v x busy first free;
  ordered = visit-IsOrdered max s k v x busy first free;
}
Step-IsValid max s t x (finish_step busy all) =
    rw (finish_run-settled max s x.well_formed busy) (record {
      well_formed = settled-IsWellFormed max s x.well_formed busy;
      ordered = settled-IsOrdered s (x.well_formed.in_run busy) all x.ordered;
    })
Step-IsValid max s t x (work_step p) = WorkStep-IsValid max s t x p
Step-IsValid max s t x stop_step = fail-IsValid max s x

pub Reach-IsValid : (max : ℕ) (s : Executor) → Reach max s → IsValid max s
Reach-IsValid max s start = record {
  well_formed = new_executor-IsWellFormed max;
  ordered = new_executor-IsOrdered;
}
Reach-IsValid max s (later r p) = Step-IsValid max _ s (Reach-IsValid max _ r) p

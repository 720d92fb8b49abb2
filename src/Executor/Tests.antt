-- ===== src/Executor/Tests.antt =====
-- internal/executor: runs at concrete inputs.
use hypersdk.Base.{ℕ, ◌<◌, ◌≤◌, refl, ap, [], ◌∷◌, Bytes, Bytes_eq, GoMap, empty_map, assign, arith}
use hypersdk.State.Permissions.{read, write}
use hypersdk.Executor.Tasks.{
  Executor, taken, running, ran, locked, rank, new_executor, begin_run, visit, read_node, take_node,
  wait_for, finish_run, advance, release,
}
use hypersdk.Executor.Steps.{
  WorkStep, begin_step, visit_step, finish_step, work_step, Reach, start, later, take_step,
  call_step, return_step, lock_step, release_step,
}
use hypersdk.Executor.Measure.{work_left, WorkStep-less}
use hypersdk.Executor.Safety.{in_order}

abbrev key_a : Bytes
key_a = 97 ∷ []

-- A task that writes the key, and one that reads it.
abbrev written : GoMap Bytes ℕ
written = assign empty_map key_a write

abbrev only_read : GoMap Bytes ℕ
only_read = assign empty_map key_a read

-- `Run` of the first task, and of the second.
abbrev first_run : Executor
first_run = finish_run 4 (visit (begin_run 4 new_executor written) key_a write)

abbrev second_run : Executor
second_run = finish_run 4 (visit (begin_run 4 first_run only_read) key_a read)

first_run-Reach : Reach 4 first_run
unfolding new_executor begin_run visit finish_run read_node take_node wait_for
first_run-Reach =
    later
      (later (later start (begin_step written refl (omega arith)))
        (visit_step key_a write refl refl refl (λ o e f. cc)))
      (finish_step refl (λ k. refl))

second_run-Reach : Reach 4 second_run
unfolding new_executor begin_run visit finish_run read_node take_node wait_for
second_run-Reach =
    later
      (later (later first_run-Reach (begin_step only_read refl (omega arith))) (
        visit_step key_a read refl refl refl (λ o e f.
          ground (arith, e, f, ap (begin_run 4 first_run only_read).phase {x = 0} {y = o}))))
      (finish_step refl (λ k. refl))

-- A worker executes the first task, and releases the second.
abbrev first_locked : Executor
first_locked = advance (advance (advance (advance second_run 0 taken) 0 running) 0 ran) 0 locked

abbrev first_released : Executor
first_released = release first_locked 0 1

first_locked-Reach : Reach 4 first_locked
unfolding new_executor begin_run visit finish_run read_node take_node wait_for advance
first_locked-Reach =
    later
      (later
        (later (later second_run-Reach (work_step (take_step 0 (omega arith) refl)))
          (work_step (call_step 0 (omega arith) refl refl)))
        (work_step (return_step 0 (omega arith) refl)))
      (work_step (lock_step 0 (omega arith) refl (λ o. refl)))

first_blocks : WorkStep first_locked first_released
unfolding new_executor begin_run visit finish_run read_node take_node wait_for advance
first_blocks = release_step 0 1 (omega arith) refl refl

-- The second task runs only when the function of the first is over.
in_order_example : 5 ≤ rank (first_released.phase 0)
unfolding new_executor begin_run visit finish_run read_node take_node wait_for advance release
in_order_example =
    in_order 4 first_released 0 1 key_a (later first_locked-Reach (work_step first_blocks))
      (omega arith) (omega arith) refl (omega arith)

WorkStep-less_example : work_left first_released < work_left first_locked
WorkStep-less_example = WorkStep-less 4 first_locked first_released first_locked-Reach first_blocks

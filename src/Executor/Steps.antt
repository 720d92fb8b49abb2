-- ===== src/Executor/Steps.antt =====
-- internal/executor/executor.go: the calls and the workers, interleaved in any order. `Run` is not
-- called concurrently, and at most `max_dependencies` tasks are run.
use hypersdk.Base.{ℕ, ◌<◌, ◌≡◌, true, false, Bytes, GoMap, some, none}
use hypersdk.Executor.Tasks.{
  Executor, queued, taken, running, ran, locked, executed, new_executor, begin_run, visit,
  finish_run, advance, fail, unread, release,
}

-- `work` and `runTask`: a worker takes a task, and calls its function unless there was an error. It
-- tells those that it was reading, each under its lock, and then, under its own, those blocked.
pub data WorkStep (s : Executor) : Executor → Type 0 where
  take_step : (t : ℕ) → t < s.tasks → s.phase t ≡ queued → WorkStep s (advance s t taken)
  call_step :
      (t : ℕ)
      → t < s.tasks
      → s.phase t ≡ taken
      → s.failed ≡ false
      → WorkStep s (advance s t running)
  skip_step :
      (t : ℕ) → t < s.tasks → s.phase t ≡ taken → s.failed ≡ true → WorkStep s (advance s t ran)
  return_step : (t : ℕ) → t < s.tasks → s.phase t ≡ running → WorkStep s (advance s t ran)
  error_step : (t : ℕ) → t < s.tasks → s.phase t ≡ running → WorkStep s (fail (advance s t ran))
  unread_step :
      (t o : ℕ)
      → t < s.tasks
      → s.phase t ≡ ran
      → s.reading t o ≡ true
      → (s.phase o ≡ locked → ⊥)
      → WorkStep s (unread s t o)
  lock_step :
      (t : ℕ)
      → t < s.tasks
      → s.phase t ≡ ran
      → ((o : ℕ) → s.reading t o ≡ false)
      → WorkStep s (advance s t locked)
  release_step :
      (t u : ℕ)
      → t < s.tasks
      → s.phase t ≡ locked
      → s.blocked t u ≡ true
      → WorkStep s (release s t u)
  execute_step :
      (t : ℕ)
      → t < s.tasks
      → s.phase t ≡ locked
      → ((u : ℕ) → s.blocked t u ≡ false)
      → WorkStep s (advance s t executed)

pub data Step (max_dependencies : ℕ) (s : Executor) : Executor → Type 0 where
  -- `Run`: the task is made, its keys are looked at in some order, each under the lock of the last
  -- task of the key, and it waits or is queued.
  begin_step :
      (keys : GoMap Bytes ℕ)
      → s.busy ≡ false
      → s.tasks < max_dependencies
      → Step max_dependencies s (begin_run max_dependencies s keys)
  visit_step :
      (k : Bytes) (v : ℕ)
      → s.busy ≡ true
      → s.keys s.current k ≡ some v
      → s.seen s.current k ≡ none
      → ((o : ℕ) → s.nodes k ≡ some o → s.phase o ≡ locked → ⊥)
      → Step max_dependencies s (visit s k v)
  finish_step :
      s.busy ≡ true
      → ((k : Bytes) → s.seen s.current k ≡ s.keys s.current k)
      → Step max_dependencies s (finish_run max_dependencies s)
  work_step : {t : Executor} → WorkStep s t → Step max_dependencies s t
  -- `Stop`
  stop_step : Step max_dependencies s (fail s)

pub data Reach (max_dependencies : ℕ) : Executor → Type 0 where
  start : Reach max_dependencies new_executor
  later :
      {s t : Executor}
      → Reach max_dependencies s
      → Step max_dependencies s t
      → Reach max_dependencies t

-- What the workers do when there is no further call.
pub data Works (s : Executor) : Executor → Type 0 where
  rest : Works s s
  go_on : {t u : Executor} → Works s t → WorkStep t u → Works s u

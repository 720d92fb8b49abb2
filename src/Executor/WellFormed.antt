-- ===== src/Executor/WellFormed.antt =====
-- internal/executor/executor.go: which tasks wait, for how many, and on whom.
use hypersdk.Base.{
  ℕ, suc, ◌+◌, ◌-◌, ◌≤◌, ◌<◌, ◌≡◌, Bool, true, nat_eq_iff, ℕ_eq, pos, GoMap, Bytes, arith,
}
use hypersdk.Executor.Count.{count}
use hypersdk.Executor.Tasks.{Executor, Phase, enqueuing, waiting, rank, new_executor, advance}

-- How many tasks a task is blocked on.
abbrev pub live : Executor → ℕ → ℕ
live s j = count j (λ b. s.blocked b j)

pub record IsWellFormed (max_dependencies : ℕ) (s : Executor) : Type 0 where
  pub few : s.tasks ≤ max_dependencies
  pub last_task : s.busy ≡ true → suc s.current ≡ s.tasks
  pub in_run : s.busy ≡ true → s.phase s.current ≡ enqueuing
  pub run_busy : (j : ℕ) → j < s.tasks → s.phase j ≡ enqueuing → s.busy ≡ true
  pub run_current : (j : ℕ) → j < s.tasks → s.phase j ≡ enqueuing → j ≡ s.current
  pub blocked_lt : (b j : ℕ) → s.blocked b j ≡ true → b < j
  pub blocked_task : (b j : ℕ) → s.blocked b j ≡ true → j < s.tasks
  pub blocked_rank : (b j : ℕ) → s.blocked b j ≡ true → rank (s.phase j) ≤ 1
  pub blocker_rank : (b j : ℕ) → s.blocked b j ≡ true → rank (s.phase b) ≤ 6
  pub reader_reading : (o r : ℕ) → s.readers o r ≡ true → s.reading r o ≡ true
  pub reading_task : (r o : ℕ) → s.reading r o ≡ true → r < s.tasks
  pub reading_lt : (r o : ℕ) → s.reading r o ≡ true → o < r
  pub reading_rank : (r o : ℕ) → s.reading r o ≡ true → rank (s.phase r) ≤ 5
  pub waits : (j : ℕ) → s.phase j ≡ waiting → s.dependencies j ≡ pos (live s j)
  pub waits_some : (j : ℕ) → s.phase j ≡ waiting → 1 ≤ live s j
  pub enqueues :
      s.busy ≡ true
      → s.dependencies s.current
        ≡ pos (max_dependencies + live s s.current - count s.current s.dependency_set)
  pub set_lt : (b : ℕ) → s.busy ≡ true → s.dependency_set b ≡ true → b < s.current
  pub blocked_set :
      (b : ℕ) → s.busy ≡ true → s.blocked b s.current ≡ true → s.dependency_set b ≡ true
  pub set_blocked :
      (b : ℕ)
      → s.busy ≡ true
      → s.dependency_set b ≡ true
      → rank (s.phase b) ≤ 5
      → s.blocked b s.current ≡ true

pub new_executor-IsWellFormed : (max : ℕ) → IsWellFormed max new_executor
unfolding new_executor
new_executor-IsWellFormed max = record {
  few = omega arith;
  last_task = λ h. cc;
  in_run = λ h. cc;
  run_busy = λ j h e. absurd (omega arith);
  run_current = λ j h e. absurd (omega arith);
  blocked_lt = λ b j h. cc;
  blocked_task = λ b j h. cc;
  blocked_rank = λ b j h. cc;
  blocker_rank = λ b j h. cc;
  reader_reading = λ b j h. cc;
  reading_task = λ b j h. cc;
  reading_lt = λ b j h. cc;
  reading_rank = λ b j h. cc;
  waits = λ j h. cc;
  waits_some = λ j h. cc;
  enqueues = λ h. cc;
  set_lt = λ b h. cc;
  blocked_set = λ b h. cc;
  set_blocked = λ b h. cc;
}

-- It does not depend on the error, the last tasks of keys and the keys looked at.
pub IsWellFormed-rest :
    (max : ℕ) (s : Executor) (f : Bool) (nodes : GoMap Bytes ℕ) (seen : ℕ → GoMap Bytes ℕ)
    → IsWellFormed max s
    → IsWellFormed max (record s { failed = f; nodes = nodes; seen = seen })
IsWellFormed-rest max s f nodes seen w = record {
  few = w.few;
  last_task = w.last_task;
  in_run = w.in_run;
  run_busy = w.run_busy;
  run_current = w.run_current;
  blocked_lt = w.blocked_lt;
  blocked_task = w.blocked_task;
  blocked_rank = w.blocked_rank;
  blocker_rank = w.blocker_rank;
  reader_reading = w.reader_reading;
  reading_task = w.reading_task;
  reading_lt = w.reading_lt;
  reading_rank = w.reading_rank;
  waits = w.waits;
  waits_some = w.waits_some;
  enqueues = w.enqueues;
  set_lt = w.set_lt;
  blocked_set = w.blocked_set;
  set_blocked = w.set_blocked;
}

pub advance-IsWellFormed :
    (max : ℕ) (s : Executor) (t : ℕ) (p : Phase)
    → IsWellFormed max s
    → t < s.tasks
    → 2 ≤ rank (s.phase t)
    → rank (s.phase t) ≤ rank p
    → ((o : ℕ) → s.reading t o ≡ true → rank p ≤ 5)
    → ((u : ℕ) → s.blocked t u ≡ true → rank p ≤ 6)
    → IsWellFormed max (advance s t p)
unfolding advance
advance-IsWellFormed max s t p w lt two up no_reading no_blocked = record {
  few = w.few;
  last_task = w.last_task;
  in_run = λ h. ground (arith, w.in_run, nat_eq_iff s.current t);
  run_busy = λ j h e. ground (arith, w.run_busy j h);
  run_current = λ j h e. ground (arith, w.run_current j h);
  blocked_lt = w.blocked_lt;
  blocked_task = w.blocked_task;
  blocked_rank = λ b j h. ground (arith, w.blocked_rank b j h, nat_eq_iff j t);
  blocker_rank = λ b j h. ground (arith, w.blocker_rank b j h, no_blocked j, nat_eq_iff b t);
  reader_reading = w.reader_reading;
  reading_task = w.reading_task;
  reading_lt = w.reading_lt;
  reading_rank = λ r o h. ground (arith, w.reading_rank r o h, no_reading o, nat_eq_iff r t);
  waits = λ j h. ground (arith, w.waits j);
  waits_some = λ j h. ground (arith, w.waits_some j);
  enqueues = w.enqueues;
  set_lt = w.set_lt;
  blocked_set = w.blocked_set;
  set_blocked = λ b h k q. ground (arith, w.set_blocked b h k, nat_eq_iff b t);
}

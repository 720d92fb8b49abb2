-- ===== src/Executor/Enqueue.antt =====
-- internal/executor/executor.go: `Run` keeps what holds of who waits on whom.
use hypersdk.Base.{
  ℕ, ◌+◌, ◌≤◌, ◌<◌, ◌≡◌, refl, Bool, true, false, ◌&&◌, ◌||◌, nat_eq, nat_eq_iff, empty_set, GoMap,
  Bytes, arith,
}
use hypersdk.Executor.Count.{count, count-le, count-none, count-same, count-change}
use hypersdk.Executor.Tasks.{Executor, waiting, rank, begin_run, read_node}
use hypersdk.Executor.WellFormed.{IsWellFormed, live}

pub begin_run-IsWellFormed :
    (max : ℕ) (s : Executor) (keys : GoMap Bytes ℕ)
    → IsWellFormed max s
    → s.busy ≡ false
    → s.tasks < max
    → IsWellFormed max (begin_run max s keys)
unfolding begin_run
begin_run-IsWellFormed max s keys w idle room = record {
  few = omega arith;
  last_task = λ h. refl;
  in_run = λ h. ground (arith, nat_eq_iff s.tasks s.tasks);
  run_busy = λ j h e. refl;
  run_current = λ j h e. ground (arith, w.run_busy j, nat_eq_iff j s.tasks);
  blocked_lt = w.blocked_lt;
  blocked_task = λ b j h. omega (arith, w.blocked_task b j h);
  blocked_rank = λ b j h. ground (arith, w.blocked_rank b j h);
  blocker_rank = λ b j h. ground (arith, w.blocker_rank b j h);
  reader_reading = w.reader_reading;
  reading_task = λ r o h. omega (arith, w.reading_task r o h);
  reading_lt = w.reading_lt;
  reading_rank = λ r o h. ground (arith, w.reading_rank r o h);
  waits = λ j h. ground (arith, w.waits j);
  waits_some = λ j h. ground (arith, w.waits_some j);
  enqueues = λ h.
      ground
        (arith, none_blocked, count-none s.tasks empty_set (λ b. refl), nat_eq_iff s.tasks s.tasks);
  set_lt = λ b h k. cc;
  blocked_set = λ b h k. absurd (omega (arith, w.blocked_task b s.tasks k));
  set_blocked = λ b h k. cc;
}
  where
    unblocked : (b : ℕ) → s.blocked b s.tasks ≡ false
    unblocked b = ground (arith, w.blocked_task b s.tasks)

    none_blocked : live s s.tasks ≡ 0
    none_blocked = count-none s.tasks (λ b. s.blocked b s.tasks) unblocked

pub read_node-IsWellFormed :
    (max : ℕ) (s : Executor) (o : ℕ)
    → IsWellFormed max s
    → s.busy ≡ true
    → o < s.current
    → IsWellFormed max (read_node s o)
unfolding read_node
read_node-IsWellFormed max s o w h lt = record {
  few = w.few;
  last_task = w.last_task;
  in_run = w.in_run;
  run_busy = w.run_busy;
  run_current = w.run_current;
  blocked_lt = w.blocked_lt;
  blocked_task = w.blocked_task;
  blocked_rank = w.blocked_rank;
  blocker_rank = w.blocker_rank;
  reader_reading = λ p r k. ground (arith, w.reader_reading p r);
  reading_task = λ r p k. ground (arith, w.reading_task r p, w.last_task h, nat_eq_iff r s.current);
  reading_lt =
      λ r p k. ground (arith, w.reading_lt r p, lt, nat_eq_iff r s.current, nat_eq_iff p o);
  reading_rank = λ r p k. ground (arith, w.reading_rank r p, w.in_run h, nat_eq_iff r s.current);
  waits = w.waits;
  waits_some = w.waits_some;
  enqueues = w.enqueues;
  set_lt = w.set_lt;
  blocked_set = w.blocked_set;
  set_blocked = w.set_blocked;
}

-- The task of `Run` blocked on more tasks.
abbrev pub block_on : Executor → (ℕ → Bool) → Executor
block_on s new = record s {
  blocked = λ b t. (new b && nat_eq t s.current) || s.blocked b t;
  dependency_set = λ b. new b || s.dependency_set b;
}

module _ (max : ℕ) (s : Executor) (new : ℕ → Bool) (w : IsWellFormed max s) (h : s.busy ≡ true)
    (earlier : (b : ℕ) → new b ≡ true → b < s.current)
    (present : (b : ℕ) → new b ≡ true → rank (s.phase b) ≤ 5) where
  -- What is new in one set is new in the other.
  block_on-counts :
      live (block_on s new) s.current + count s.current s.dependency_set
      ≡ live s s.current + count s.current (block_on s new).dependency_set
  block_on-counts =
      count-change s.current (λ b. s.blocked b s.current)
        (λ b. (block_on s new).blocked b s.current) s.dependency_set (block_on s new).dependency_set
        (λ b.
          ground (
            arith,
            present b,
            w.blocked_set b h,
            w.set_blocked b h,
            nat_eq_iff s.current s.current,
          ))

  live-block_on : (j : ℕ) → s.phase j ≡ waiting → live (block_on s new) j ≡ live s j
  live-block_on j k =
      count-same j (λ b. s.blocked b j) (λ b. (block_on s new).blocked b j)
        (λ b lt. ground (arith, w.in_run h, nat_eq_iff j s.current))

  pub block_on-IsWellFormed : IsWellFormed max (block_on s new)
  block_on-IsWellFormed = record {
    few = w.few;
    last_task = w.last_task;
    in_run = w.in_run;
    run_busy = w.run_busy;
    run_current = w.run_current;
    blocked_lt = λ b j k. ground (arith, w.blocked_lt b j, earlier b, nat_eq_iff j s.current);
    blocked_task =
        λ b j k. ground (arith, w.blocked_task b j, w.last_task h, nat_eq_iff j s.current);
    blocked_rank = λ b j k. ground (arith, w.blocked_rank b j, w.in_run h, nat_eq_iff j s.current);
    blocker_rank = λ b j k. ground (arith, w.blocker_rank b j, present b);
    reader_reading = w.reader_reading;
    reading_task = w.reading_task;
    reading_lt = w.reading_lt;
    reading_rank = w.reading_rank;
    waits = λ j k. ground (arith, w.waits j k, live-block_on j k);
    waits_some = λ j k. omega (arith, w.waits_some j k, live-block_on j k);
    enqueues = λ k. ground (
      arith,
      w.enqueues h,
      block_on-counts,
      count-le s.current s.dependency_set,
      count-le s.current (block_on s new).dependency_set,
      w.last_task h,
      w.few,
    );
    set_lt = λ b k q. ground (arith, w.set_lt b k, earlier b);
    blocked_set = λ b k q. ground (arith, w.blocked_set b k);
    set_blocked = λ b k q r. ground (arith, w.set_blocked b k, nat_eq_iff s.current s.current);
  }

-- ===== src/Executor/Tasks.antt =====
-- internal/executor/executor.go: the tasks and what each call or worker does to them, in pieces that
-- hold one lock at a time. The maps of a task to others are relations between their numbers; a channel
-- of tasks is the set of those queued; the function of a task is left open; metrics are left out.
use hypersdk.Base.{
  ℕ, suc, Bool, true, false, not, ◌&&◌, ◌||◌, none, some, Bytes, Bytes_eq, ℕ_eq, GoMap, empty_map,
  assign, GoSet, empty_set, nat_eq, ltb, ℤ, pos, negsuc, ◌-ℤ◌, ◌+ℤ◌, if◌then◌else◌,
}
use hypersdk.State.Permissions.{read}
use hypersdk.Executor.Count.{count}

-- Where a task stands: being enqueued by `Run`; waiting for others; in the channel; taken by a worker;
-- in its function; past it; past its reading and holding its lock; executed.
pub data Phase : Type 0 where
  enqueuing waiting queued taken running ran locked executed : Phase

abbrev pub rank : Phase → ℕ
rank enqueuing = 0
rank waiting = 1
rank queued = 2
rank taken = 3
rank running = 4
rank ran = 5
rank locked = 6
rank executed = 7

-- `Executor` and its tasks. `current` and `dependency_set` are of the call of `Run` that is in
-- progress, if one is; `keys` and `seen` are the keys of a task and those of them that `Run` has
-- looked at.
pub record Executor : Type 0 where
  pub tasks : ℕ
  pub nodes : GoMap Bytes ℕ
  pub phase : ℕ → Phase
  pub reading : ℕ → ℕ → Bool
  pub blocked : ℕ → ℕ → Bool
  pub readers : ℕ → ℕ → Bool
  pub dependencies : ℕ → ℤ
  pub failed : Bool
  pub busy : Bool
  pub current : ℕ
  pub dependency_set : GoSet ℕ
  pub keys : ℕ → GoMap Bytes ℕ
  pub seen : ℕ → GoMap Bytes ℕ

-- `New`
unfoldable pub new_executor : Executor
new_executor = record {
  tasks = 0;
  nodes = empty_map;
  phase = λ t. enqueuing;
  reading = λ t u. false;
  blocked = λ t u. false;
  readers = λ t u. false;
  dependencies = λ t. pos 0;
  failed = false;
  busy = false;
  current = 0;
  dependency_set = empty_set;
  keys = λ t. empty_map;
  seen = λ t. empty_map;
}

abbrev pub set_at : {A : Type 0} → (ℕ → A) → ℕ → A → ℕ → A
set_at f t a u = if nat_eq u t then a else f u

-- A relation with one pair put in, or taken out.
abbrev pub link : (ℕ → ℕ → Bool) → ℕ → ℕ → ℕ → ℕ → Bool
link f a b x y = (nat_eq x a && nat_eq y b) || f x y

abbrev pub unlink : (ℕ → ℕ → Bool) → ℕ → ℕ → ℕ → ℕ → Bool
unlink f a b x y = not (nat_eq x a && nat_eq y b) && f x y

abbrev pub is_positive : ℤ → Bool
is_positive (pos n) = ltb 0 n
is_positive (negsuc n) = false

-- `Run` makes the task, with the most dependencies.
unfoldable pub begin_run : ℕ → Executor → GoMap Bytes ℕ → Executor
begin_run max_dependencies s keys = record s {
  tasks = suc s.tasks;
  phase = set_at s.phase s.tasks enqueuing;
  dependencies = set_at s.dependencies s.tasks (pos 0 +ℤ pos max_dependencies);
  busy = true;
  current = s.tasks;
  dependency_set = empty_set;
  keys = set_at s.keys s.tasks keys;
  seen = set_at s.seen s.tasks empty_map;
}

-- A key that is only read: the task is reading the last task of the key, and is a reader of it.
unfoldable pub read_node : Executor → ℕ → Executor
read_node s o = record s {
  reading = link s.reading s.current o;
  readers = link s.readers o s.current;
}

-- Whether a task is a reader of `o` other than the one that `Run` enqueues.
abbrev pub reads_before : Executor → ℕ → ℕ → Bool
reads_before s o b = s.readers o b && not (nat_eq b s.current)

-- A key that is not only read: the task is blocked on all readers, and is the last task of the key.
unfoldable pub take_node : Executor → Bytes → ℕ → Executor
take_node s k o = record s {
  blocked = λ b t. (reads_before s o b && nat_eq t s.current) || s.blocked b t;
  dependency_set = λ b. reads_before s o b || s.dependency_set b;
  nodes = assign s.nodes k s.current;
}

-- `lt.executed`
abbrev pub is_executed : Phase → Bool
is_executed executed = true
is_executed p = false

unfoldable pub wait_for : Executor → ℕ → Executor
wait_for s o = if is_executed (s.phase o) then s else record s {
  blocked = λ b t. (nat_eq b o && nat_eq t s.current) || s.blocked b t;
  dependency_set = λ b. nat_eq b o || s.dependency_set b;
}

-- `Run` looks at a key and its permission.
unfoldable pub visit : Executor → Bytes → ℕ → Executor
unfolding wait_for read_node take_node
visit s k v =
    let t = record s { seen = set_at s.seen s.current (assign (s.seen s.current) k v) } in
    elim (s.nodes k) [
      | none ↦ record t { nodes = assign s.nodes k s.current }
      | some o ↦ wait_for (if nat_eq v read then read_node t o else take_node t k o) o
    ]

-- `Run` takes back the dependencies that there are not, and queues a task that waits for none.
unfoldable pub finish_run : ℕ → Executor → Executor
finish_run max_dependencies s =
    let difference = pos max_dependencies -ℤ pos (count s.tasks s.dependency_set) in
    let left = s.dependencies s.current -ℤ difference in
    record s {
      dependencies = set_at s.dependencies s.current left;
      phase = set_at s.phase s.current (if is_positive left then waiting else queued);
      busy = false;
    }

unfoldable pub advance : Executor → ℕ → Phase → Executor
advance s t p = record s { phase = set_at s.phase t p }

-- The error of a task, or that of `Stop`.
unfoldable pub fail : Executor → Executor
fail s = record s { failed = true }

-- `runTask` tells a task that it has read it.
unfoldable pub unread : Executor → ℕ → ℕ → Executor
unread s t o = record s { reading = unlink s.reading t o; readers = unlink s.readers o t }

-- `runTask` tells a blocked task that it need not wait for it, and queues it if it was the last.
unfoldable pub release : Executor → ℕ → ℕ → Executor
release s t u =
    let left = s.dependencies u -ℤ pos 1 in
    record s {
      blocked = unlink s.blocked t u;
      dependencies = set_at s.dependencies u left;
      phase = if is_positive left then s.phase else set_at s.phase u queued;
    }

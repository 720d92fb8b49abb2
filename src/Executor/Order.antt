-- ===== src/Executor/Order.antt =====
-- internal/executor/executor.go: tasks that conflict on a key come one after the other.
use hypersdk.Base.{
  ℕ, ◌≤◌, ◌<◌, ◌≡◌, ◌⊎◌, refl, ap, Bool, true, false, not, ◌&&◌, ◌||◌, Option, none, some, nat_eq,
  nat_eq_iff, Bytes, Bytes_eq, GoMap, empty_map, ℤ, Bool-cases, inl, inr, arith,
}
use hypersdk.State.Permissions.{read}
use hypersdk.Executor.Tasks.{
  Executor, Phase, enqueuing, ran, locked, rank, new_executor, begin_run, advance, fail, unread,
  release, set_at, unlink,
}
use hypersdk.Executor.WellFormed.{IsWellFormed}
use hypersdk.Executor.Work.{settled, release_started}

-- Two uses of one key conflict unless both only read it.
abbrev pub clash : Option ℕ → Option ℕ → Bool
clash none u = false
clash (some v) none = false
clash (some v) (some w) = not (nat_eq v read) || not (nat_eq w read)

abbrev pub is_some : Option ℕ → Bool
is_some none = false
is_some (some v) = true

-- A task is blocked on one, or on a task after it that conflicts with it.
abbrev pub Behind : (ℕ → GoMap Bytes ℕ) → (ℕ → ℕ → Bool) → Bytes → ℕ → ℕ → Type 0
Behind seen blocked k i j =
    (b : ℕ) × (blocked b j ≡ true) × ((b ≡ i) ⊎ ((i < b) × (clash (seen i k) (seen b k) ≡ true)))

pub Behind-more :
    (seen seen' : ℕ → GoMap Bytes ℕ) (blocked blocked' : ℕ → ℕ → Bool) (k : Bytes) (i j : ℕ)
    → ((b : ℕ) → blocked b j ≡ true → blocked' b j ≡ true)
    → ((b : ℕ) → clash (seen i k) (seen b k) ≡ true → clash (seen' i k) (seen' b k) ≡ true)
    → Behind seen blocked k i j
    → Behind seen' blocked' k i j
Behind-more seen seen' blocked blocked' k i j more still (b, q, inl e) = (b, more b q, inl e)
Behind-more seen seen' blocked blocked' k i j more still (b, q, inr (l, c)) =
    (b, more b q, inr (l, still b c))

pub record IsOrdered (s : Executor) : Type 0 where
  pub complete : (j : ℕ) (k : Bytes) → j < s.tasks → 1 ≤ rank (s.phase j) → s.seen j k ≡ s.keys j k
  pub unseen : (j : ℕ) (k : Bytes) → s.tasks ≤ j → s.seen j k ≡ none
  pub node_none : (k : Bytes) (i : ℕ) → s.nodes k ≡ none → s.seen i k ≡ none
  pub node_seen : (k : Bytes) (o : ℕ) → s.nodes k ≡ some o → is_some (s.seen o k) ≡ true
  pub node_before :
      (k : Bytes) (o i : ℕ)
      → s.nodes k ≡ some o
      → i < o
      → is_some (s.seen i k) ≡ true
      → clash (s.seen i k) (s.seen o k) ≡ true
  pub node_after_read :
      (k : Bytes) (o i v : ℕ) → s.nodes k ≡ some o → o < i → s.seen i k ≡ some v → v ≡ read
  pub node_after :
      (k : Bytes) (o i : ℕ)
      → s.nodes k ≡ some o
      → o < i
      → is_some (s.seen i k) ≡ true
      → (5 ≤ rank (s.phase i)) ⊎ (s.readers o i ≡ true)
  pub order :
      (i j : ℕ) (k : Bytes)
      → i < j
      → clash (s.seen i k) (s.seen j k) ≡ true
      → (5 ≤ rank (s.phase i)) ⊎ Behind s.seen s.blocked k i j

pub new_executor-IsOrdered : IsOrdered new_executor
unfolding new_executor
new_executor-IsOrdered = record {
  complete = λ j k h e. absurd (omega arith);
  unseen = λ j k h. refl;
  node_none = λ k i h. refl;
  node_seen = λ k o h. cc;
  node_before = λ k o i h. cc;
  node_after_read = λ k o i v h. cc;
  node_after = λ k o i h. cc;
  order = λ i j k lt h. cc;
}

-- Changes of phases that go on, and of the error.
pub IsOrdered-on :
    (s : Executor) (phase : ℕ → Phase) (dependencies : ℕ → ℤ) (busy failed : Bool)
    → ((j : ℕ) → 5 ≤ rank (s.phase j) → 5 ≤ rank (phase j))
    → ((j : ℕ) (k : Bytes) → j < s.tasks → 1 ≤ rank (phase j) → s.seen j k ≡ s.keys j k)
    → IsOrdered s
    → IsOrdered
        (record s { phase = phase; dependencies = dependencies; busy = busy; failed = failed })
IsOrdered-on s phase dependencies busy failed up complete w = record {
  complete = complete;
  unseen = w.unseen;
  node_none = w.node_none;
  node_seen = w.node_seen;
  node_before = w.node_before;
  node_after_read = w.node_after_read;
  node_after = λ k o i h lt e. elim (w.node_after k o i h lt e) [
    | inl over ↦ inl (up i over)
    | inr r ↦ inr r
  ];
  order = λ i j k lt e. elim (w.order i j k lt e) [ inl over ↦ inl (up i over) | inr r ↦ inr r ];
}

pub advance-IsOrdered :
    (s : Executor) (t : ℕ) (p : Phase)
    → 1 ≤ rank (s.phase t)
    → rank (s.phase t) ≤ rank p
    → IsOrdered s
    → IsOrdered (advance s t p)
unfolding advance
advance-IsOrdered s t p one up w =
    IsOrdered-on s (set_at s.phase t p) s.dependencies s.busy s.failed
      (λ j h. ground (arith, nat_eq_iff j t, ap s.phase {x = j} {y = t}))
      (λ j k lt h.
        w.complete j k lt (ground (arith, h, nat_eq_iff j t, ap s.phase {x = j} {y = t})))
      w

pub fail-IsOrdered : (s : Executor) → IsOrdered s → IsOrdered (fail s)
unfolding fail
fail-IsOrdered s w = IsOrdered-on s s.phase s.dependencies s.busy true (λ j h. h) w.complete w

pub settled-IsOrdered :
    (s : Executor)
    → s.phase s.current ≡ enqueuing
    → ((k : Bytes) → s.seen s.current k ≡ s.keys s.current k)
    → IsOrdered s
    → IsOrdered (settled s)
settled-IsOrdered s e all w =
    IsOrdered-on s _ _ false s.failed
      (λ j h. ground (arith, nat_eq_iff j s.current, ap s.phase {x = j} {y = s.current}))
      (λ j k lt h. elim (Bool-cases (nat_eq j s.current)) [
        | inl q ↦ rw ((nat_eq_iff j s.current).0 q) (all k)
        | inr q ↦ w.complete j k lt (ground (arith, h, q))
      ])
      w

pub begin_run-IsOrdered :
    (max : ℕ) (s : Executor) (keys : GoMap Bytes ℕ) → IsOrdered s → IsOrdered (begin_run max s keys)
unfolding begin_run
begin_run-IsOrdered max s keys w = record {
  complete = λ j k lt h. ground (arith, w.complete j k, nat_eq_iff j s.tasks);
  unseen = λ j k h. ground (arith, w.unseen j k);
  node_none = λ k i h. ground (arith, w.node_none k i h);
  node_seen = λ k o h. ground (arith, w.node_seen k o h, w.unseen o k, nat_eq_iff o s.tasks);
  node_before = λ k o i h lt e.
      ground
        (arith, w.node_before k o i h lt, w.node_seen k o h, w.unseen o k, nat_eq_iff o s.tasks);
  node_after_read = λ k o i v h lt e. ground (arith, w.node_after_read k o i v h lt);
  node_after = λ k o i h lt e. ground (arith, w.node_after k o i h lt);
  order = λ i j k lt e. elim (w.order i j k lt (ground (arith, e))) [
    | inl over ↦ inl (ground (arith, over, e, w.unseen i k, nat_eq_iff i s.tasks))
    | inr r ↦ inr (
        Behind-more s.seen (set_at s.seen s.tasks empty_map) s.blocked s.blocked k i j (λ b q. q)
          (λ b q.
            ground (arith, w.unseen i k, w.unseen b k, nat_eq_iff i s.tasks, nat_eq_iff b s.tasks))
          r)
  ];
}

pub unread-IsOrdered :
    (s : Executor) (t o : ℕ) → s.phase t ≡ ran → IsOrdered s → IsOrdered (unread s t o)
unfolding unread
unread-IsOrdered s t o e w = record {
  complete = w.complete;
  unseen = w.unseen;
  node_none = w.node_none;
  node_seen = w.node_seen;
  node_before = w.node_before;
  node_after_read = w.node_after_read;
  node_after = λ k p i h lt q. elim (w.node_after k p i h lt q) [
    | inl over ↦ inl over
    | inr r ↦ elim (Bool-cases (nat_eq i t)) [
      | inl same ↦ inl (ground (arith, ap s.phase ((nat_eq_iff i t).0 same), e))
      | inr other ↦ inr (ground (arith, r, other))
    ]
  ];
  order = w.order;
}

-- Where `t` no longer blocks `u`, it is over, and so is what was before it.
pub release-IsOrdered :
    (max : ℕ) (s : Executor) (t u : ℕ)
    → s.phase t ≡ locked
    → s.blocked t u ≡ true
    → IsWellFormed max s
    → IsOrdered s
    → IsOrdered (release s t u)
unfolding release
release-IsOrdered max s t u e r f w =
    IsOrdered-on (record s { blocked = unlink s.blocked t u }) _ _ s.busy s.failed
      (λ j h. ground (arith, h, f.blocked_rank t u r, nat_eq_iff j u, ap s.phase {x = j} {y = u}))
      (λ j k lt h. w.complete j k lt (release_started max s t u f e r j h))
      (record {
        complete = w.complete;
        unseen = w.unseen;
        node_none = w.node_none;
        node_seen = w.node_seen;
        node_before = w.node_before;
        node_after_read = w.node_after_read;
        node_after = w.node_after;
        order = λ i j k lt c. elim (w.order i j k lt c) [
          | inl over ↦ inl over
          | inr (b, q, cause) ↦ elim (Bool-cases (nat_eq b t && nat_eq j u)) [
            | inr other ↦ inr (b, ground (arith, other, q), cause)
            | inl gone ↦ inl (before i b k (ground (arith, gone, nat_eq_iff b t)) cause)
          ]
        ];
      })
  where
    before :
        (i b : ℕ) (k : Bytes)
        → b ≡ t
        → (b ≡ i) ⊎ ((i < b) × (clash (s.seen i k) (s.seen b k) ≡ true))
        → 5 ≤ rank (s.phase i)
    before i b k same (inl q) = ground (arith, e, ap s.phase q, ap s.phase same)
    before i b k same (inr (l, c)) = elim (w.order i b k l c) [
      | inl over ↦ over
      | inr (d, q, cause) ↦ absurd (ground (arith, f.blocked_rank d b q, e, ap s.phase same))
    ]

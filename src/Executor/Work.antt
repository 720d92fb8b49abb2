-- ===== src/Executor/Work.antt =====
-- internal/executor/executor.go: the end of `Run`, and the workers, keep what holds of who waits on
-- whom.
use hypersdk.Base.{
  ℕ, suc, ◌+◌, ◌-◌, ◌≤◌, ◌≡◌, ◌⊎◌, refl, ap, subst, true, false, nat_eq, nat_eq_iff, ltb, ℤ, pos,
  ◌-ℤ◌, Bool-cases, inl, inr, if◌then◌else◌, arith,
}
use hypersdk.Executor.Count.{count, count-le, count_pos, count-same, count-drop}
use hypersdk.Executor.Tasks.{
  Executor, Phase, enqueuing, waiting, queued, taken, running, ran, locked, executed, rank,
  finish_run, unread, release, set_at, unlink, is_positive,
}
use hypersdk.Executor.WellFormed.{IsWellFormed, live}

-- At the end of `Run` the counter of the task is the number that it is blocked on.
pub left_in_run :
    (max : ℕ) (s : Executor)
    → IsWellFormed max s
    → s.busy ≡ true
    → (s.dependencies s.current -ℤ (pos max -ℤ pos (count s.tasks s.dependency_set)))
      ≡ pos (live s s.current)
left_in_run max s w h =
    let outside : s.dependency_set s.current ≡ false = ground (arith, w.set_lt s.current h) in
    let size : count s.tasks s.dependency_set ≡ count s.current s.dependency_set =
      rw (← w.last_task h) (ground (arith, outside)) in
    ground (arith, size, w.enqueues h, count-le s.current s.dependency_set, w.last_task h, w.few)

-- What the end of `Run` leaves, by that number.
abbrev pub settled : Executor → Executor
settled s = record s {
  dependencies = set_at s.dependencies s.current (pos (live s s.current));
  phase = set_at s.phase s.current (if ltb 0 (live s s.current) then waiting else queued);
  busy = false;
}

pub finish_run-settled :
    (max : ℕ) (s : Executor) → IsWellFormed max s → s.busy ≡ true → finish_run max s ≡ settled s
unfolding finish_run
finish_run-settled max s w h =
    ap
      (λ (d : ℤ). record s {
        dependencies = set_at s.dependencies s.current d;
        phase = set_at s.phase s.current (if is_positive d then waiting else queued);
        busy = false;
      })
      (left_in_run max s w h)

pub settled-IsWellFormed :
    (max : ℕ) (s : Executor) → IsWellFormed max s → s.busy ≡ true → IsWellFormed max (settled s)
settled-IsWellFormed max s w h = record {
  few = w.few;
  last_task = λ k. cc;
  in_run = λ k. cc;
  run_busy = λ j k e. ground (arith, w.run_current j k, nat_eq_iff j s.current);
  run_current = λ j k e. ground (arith, w.run_current j k, nat_eq_iff j s.current);
  blocked_lt = w.blocked_lt;
  blocked_task = w.blocked_task;
  blocked_rank = λ b j k. ground (arith, w.blocked_rank b j k, blocks b, nat_eq_iff j s.current);
  blocker_rank = λ b j k. ground (arith, w.blocker_rank b j k);
  reader_reading = w.reader_reading;
  reading_task = w.reading_task;
  reading_lt = w.reading_lt;
  reading_rank = λ r o k. ground (arith, w.reading_rank r o k);
  waits = λ j k. ground (arith, w.waits j, nat_eq_iff j s.current);
  waits_some = λ j k. ground (arith, w.waits_some j, nat_eq_iff j s.current);
  enqueues = λ k. cc;
  set_lt = λ b k q. cc;
  blocked_set = λ b k q. cc;
  set_blocked = λ b k q r. cc;
}
  where
    blocks : (b : ℕ) → s.blocked b s.current ≡ true → 1 ≤ live s s.current
    blocks b k = count_pos s.current (λ c. s.blocked c s.current) b (w.blocked_lt b s.current k) k

pub unread-IsWellFormed :
    (max : ℕ) (s : Executor) (t o : ℕ) → IsWellFormed max s → IsWellFormed max (unread s t o)
unfolding unread
unread-IsWellFormed max s t o w = record {
  few = w.few;
  last_task = w.last_task;
  in_run = w.in_run;
  run_busy = w.run_busy;
  run_current = w.run_current;
  blocked_lt = w.blocked_lt;
  blocked_task = w.blocked_task;
  blocked_rank = w.blocked_rank;
  blocker_rank = w.blocker_rank;
  reader_reading = λ p r k. ground (arith, w.reader_reading p r);
  reading_task = λ r p k. ground (arith, w.reading_task r p);
  reading_lt = λ r p k. ground (arith, w.reading_lt r p);
  reading_rank = λ r p k. ground (arith, w.reading_rank r p);
  waits = w.waits;
  waits_some = w.waits_some;
  enqueues = w.enqueues;
  set_lt = w.set_lt;
  blocked_set = w.blocked_set;
  set_blocked = w.set_blocked;
}

low_phase : (p : Phase) → rank p ≤ 1 → (p ≡ waiting) ⊎ (p ≡ enqueuing)
low_phase enqueuing h = inr refl
low_phase waiting h = inl refl
low_phase queued h = absurd (omega arith)
low_phase taken h = absurd (omega arith)
low_phase running h = absurd (omega arith)
low_phase ran h = absurd (omega arith)
low_phase locked h = absurd (omega arith)
low_phase executed h = absurd (omega arith)

module _ (max : ℕ) (s : Executor) (t u : ℕ) (w : IsWellFormed max s) (h : s.phase t ≡ locked)
    (k : s.blocked t u ≡ true) where
  -- The counts after `t` is taken from those that `u` is blocked on.
  abbrev live_after : ℕ → ℕ
  live_after j = count j (λ b. unlink s.blocked t u b j)

  live_after-eq : suc (live_after u) ≡ live s u
  live_after-eq =
      count-drop u (λ b. s.blocked b u) (λ b. unlink s.blocked t u b u) t (w.blocked_lt t u k) k
        (ground (arith, nat_eq_iff t t, nat_eq_iff u u)) (λ j e. ground (arith, e))

  live_after-other : (j : ℕ) → nat_eq j u ≡ false → live_after j ≡ live s j
  live_after-other j e =
      count-same j (λ b. s.blocked b j) (λ b. unlink s.blocked t u b j) (λ b lt. ground (arith, e))

  blocks_after : (b : ℕ) → unlink s.blocked t u b u ≡ true → 1 ≤ live_after u
  blocks_after b q =
      count_pos u (λ c. unlink s.blocked t u c u) b (w.blocked_lt b u (ground arith)) q

  -- A task that was enqueued already is queued once it waits for none.
  abbrev released : ℤ → Executor
  released left = record s {
    blocked = unlink s.blocked t u;
    dependencies = set_at s.dependencies u left;
    phase = if is_positive left then s.phase else set_at s.phase u queued;
  }

  release_waiting : s.phase u ≡ waiting → (s.dependencies u -ℤ pos 1) ≡ pos (live_after u)
  release_waiting q = ground (arith, w.waits u q, live_after-eq)

  release_enqueuing :
      s.phase u ≡ enqueuing
      → (s.dependencies u -ℤ pos 1) ≡ pos (max + live_after u - count u s.dependency_set)
  release_enqueuing q =
      let busy = w.run_busy u (w.blocked_task t u k) q in
      let now = w.run_current u (w.blocked_task t u k) q in
      ground (
        arith,
        w.enqueues busy,
        w.last_task busy,
        w.few,
        live_after-eq,
        now,
        ap (λ j. count j s.dependency_set) now,
        ap (λ j. live s j) now,
        ap s.dependencies now,
        count-le u s.dependency_set,
      )

  released-IsWellFormed :
      (n : ℕ)
      → (s.phase u ≡ waiting → n ≡ live_after u)
      → (s.phase u ≡ enqueuing → n ≡ max + live_after u - count u s.dependency_set)
      → (s.phase u ≡ enqueuing → 1 ≤ n)
      → IsWellFormed max (released (pos n))
  released-IsWellFormed n as_waiting as_enqueuing some = record {
    few = w.few;
    last_task = w.last_task;
    in_run = λ q. ground (arith, w.in_run q, low, nat_eq_iff s.current u);
    run_busy = λ j q e. ground (arith, w.run_busy j q);
    run_current = λ j q e. ground (arith, w.run_current j q);
    blocked_lt = λ b j q. w.blocked_lt b j (ground (arith, q));
    blocked_task = λ b j q. w.blocked_task b j (ground (arith, q));
    blocked_rank = λ b j q. elim (Bool-cases (nat_eq j u)) [
      | inl e ↦
          let e' : j ≡ u = (nat_eq_iff j u).0 e in
          let q' = subst (λ i. unlink s.blocked t u b i ≡ true) e' q in
          ground (arith, low, blocks_after b q', nat_eq_iff j u)
      | inr e ↦ ground (arith, w.blocked_rank b j)
    ];
    blocker_rank = λ b j q. ground (arith, w.blocker_rank b j, low, nat_eq_iff b u);
    reader_reading = w.reader_reading;
    reading_task = w.reading_task;
    reading_lt = w.reading_lt;
    reading_rank = λ r o q. ground (arith, w.reading_rank r o q, nat_eq_iff r u);
    waits = λ j q. elim (Bool-cases (nat_eq j u)) [
      | inl e ↦
          let e' : j ≡ u = (nat_eq_iff j u).0 e in
          ground (arith, ap (λ i. live_after i) e', low, nat_eq_iff j u, ap s.phase e')
      | inr e ↦ ground (arith, w.waits j, live_after-other j e)
    ];
    waits_some = λ j q. elim (Bool-cases (nat_eq j u)) [
      | inl e ↦
          let e' : j ≡ u = (nat_eq_iff j u).0 e in
          ground (arith, ap (λ i. live_after i) e', low, nat_eq_iff j u, ap s.phase e')
      | inr e ↦ ground (arith, w.waits_some j, live_after-other j e)
    ];
    enqueues = λ q. elim (Bool-cases (nat_eq s.current u)) [
      | inl e ↦
          let e' : s.current ≡ u = (nat_eq_iff s.current u).0 e in
          ground (
            arith,
            ap (λ i. live_after i) e',
            ap (λ i. count i s.dependency_set) e',
            ap s.phase e',
            w.in_run q,
          )
      | inr e ↦ ground (arith, w.enqueues q, live_after-other s.current e)
    ];
    set_lt = w.set_lt;
    blocked_set = λ b q r. w.blocked_set b q (ground (arith, r));
    set_blocked =
        λ b q r e. ground (arith, w.set_blocked b q r, h, nat_eq_iff b t, nat_eq_iff b u, low);
  }
    where
      low : rank (s.phase u) ≤ 1
      low = w.blocked_rank t u k

  positive : 1 ≤ max + live_after u - count u s.dependency_set
  positive = omega (arith, count-le u s.dependency_set, w.blocked_task t u k, w.few)

  pub release-IsWellFormed : IsWellFormed max (release s t u)
  unfolding release
  release-IsWellFormed = elim (low_phase (s.phase u) (w.blocked_rank t u k)) [
    | inl e ↦ rw (release_waiting e) (
        released-IsWellFormed (live_after u) (λ q. refl) (λ q. absurd (ground (arith, e)))
          (λ q. absurd (ground (arith, e))))
    | inr e ↦
        rw (release_enqueuing e)
          (released-IsWellFormed _ (λ q. absurd (ground (arith, e))) (λ q. refl) (λ q. positive))
  ]

  -- A task that `Run` still enqueues is not queued by this.
  pub release_started : (j : ℕ) → 1 ≤ rank ((release s t u).phase j) → 1 ≤ rank (s.phase j)
  unfolding release
  release_started j q = elim (low_phase (s.phase u) (w.blocked_rank t u k)) [
    | inl e ↦ ground (arith, e, q, nat_eq_iff j u, ap s.phase {x = j} {y = u})
    | inr e ↦ ground (arith, q, release_enqueuing e, positive)
  ]

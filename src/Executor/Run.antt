-- ===== src/Executor/Run.antt =====
-- internal/executor/executor.go: a key in `Run`, and every step of the executor, keep what holds of it.
use hypersdk.Base.{
  ℕ, ◌≤◌, ◌<◌, ◌≡◌, ◌⊎◌, refl, sym, ap, Bool, true, false, none, some, nat_eq, nat_eq_iff, Bytes,
  Bytes_eq, assign, lt-cases, Bool-cases, Option-cases, inl, inr, if◌then◌else◌, arith,
}
use hypersdk.State.Permissions.{read}
use hypersdk.Executor.Tasks.{
  Executor, Phase, enqueuing, queued, taken, running, ran, locked, executed, rank, set_at, visit,
  read_node, take_node, wait_for, is_executed, reads_before,
}
use hypersdk.Executor.WellFormed.{IsWellFormed, IsWellFormed-rest}
use hypersdk.Executor.Enqueue.{block_on-IsWellFormed, read_node-IsWellFormed}
use hypersdk.Executor.Order.{clash, Behind, IsOrdered}

-- What holds of the executor between two steps.
pub record IsValid (max_dependencies : ℕ) (s : Executor) : Type 0 where
  pub well_formed : IsWellFormed max_dependencies s
  pub ordered : IsOrdered s

executed_of : (p : Phase) → is_executed p ≡ true → p ≡ executed
executed_of p h = ground arith

unlocked_rank : (p : Phase) → is_executed p ≡ false → (p ≡ locked → ⊥) → rank p ≤ 5
unlocked_rank enqueuing e h = omega arith
unlocked_rank Phase.waiting e h = omega arith
unlocked_rank queued e h = omega arith
unlocked_rank taken e h = omega arith
unlocked_rank running e h = omega arith
unlocked_rank ran e h = omega arith
unlocked_rank locked e h = absurd (h refl)
unlocked_rank executed e h = absurd (ground (arith, e))

module _ (max : ℕ) (s : Executor) (k : Bytes) (v : ℕ) (o : ℕ) (x : IsValid max s)
    (busy : s.busy ≡ true) (first : s.seen s.current k ≡ none) (at : s.nodes k ≡ some o)
    (free : s.phase o ≡ locked → ⊥) where
  pub node_earlier : o < s.current
  node_earlier = ground (
    arith,
    x.ordered.node_seen k o at,
    x.ordered.unseen o k,
    first,
    x.well_formed.last_task busy,
    ap (λ i. s.seen i k) {x = o} {y = s.current},
  )

  -- The task waits for those up to the last of the key.
  waits_to :
      (blocked : ℕ → ℕ → Bool)
      → (is_executed (s.phase o) ≡ true) ⊎ (blocked o s.current ≡ true)
      → (i : ℕ) → i ≤ o
      → clash (s.seen i k) (some v) ≡ true
      → (5 ≤ rank (s.phase i)) ⊎ Behind s.seen blocked k i s.current
  waits_to blocked cause i le c = elim (Bool-cases (nat_eq i o)) [
    | inl q ↦
        let same : i ≡ o = (nat_eq_iff i o).0 q in
        elim cause [
          | inl e ↦ inl (ground (arith, executed_of (s.phase o) e, ap s.phase same))
          | inr b ↦ inr (o, b, inl (sym same))
        ]
    | inr q ↦
        let lt : i < o = ground arith in
        let c' = x.ordered.node_before k o i at lt (ground (arith, c)) in
        elim cause [
          | inl e ↦ elim (x.ordered.order i o k lt c') [
            | inl over ↦ inl over
            | inr (b, r, cause') ↦
                absurd (ground (arith, x.well_formed.blocked_rank b o r, executed_of (s.phase o) e))
          ]
          | inr b ↦ inr (o, b, inr (lt, c'))
        ]
  ]

  -- The task waits for the readers of the last of the key too.
  pub waits_readers :
      (blocked : ℕ → ℕ → Bool)
      → (is_executed (s.phase o) ≡ true) ⊎ (blocked o s.current ≡ true)
      → ((i : ℕ) → reads_before s o i ≡ true → blocked i s.current ≡ true)
      → (i : ℕ) → i < s.current
      → clash (s.seen i k) (some v) ≡ true
      → (5 ≤ rank (s.phase i)) ⊎ Behind s.seen blocked k i s.current
  waits_readers blocked cause readers i lt c = elim (lt-cases o i) [
    | inl above ↦ elim (x.ordered.node_after k o i at above (ground (arith, c))) [
      | inl over ↦ inl over
      | inr r ↦ inr (i, readers i (ground (arith, r, nat_eq_iff i s.current)), inl refl)
    ]
    | inr (inl same) ↦ waits_to blocked cause i (omega arith) c
    | inr (inr below) ↦ waits_to blocked cause i (omega arith) c
  ]

  pub waits_read :
      (blocked : ℕ → ℕ → Bool)
      → nat_eq v read ≡ true
      → (is_executed (s.phase o) ≡ true) ⊎ (blocked o s.current ≡ true)
      → (i : ℕ) → i < s.current
      → clash (s.seen i k) (some v) ≡ true
      → (5 ≤ rank (s.phase i)) ⊎ Behind s.seen blocked k i s.current
  waits_read blocked reads cause i lt c = elim (lt-cases o i) [
    | inl above ↦ elim (Option-cases (s.seen i k)) [
      | inl e ↦ absurd (ground (arith, e))
      | inr (u, e) ↦
          absurd
            (ground (arith, x.ordered.node_after_read k o i u at above e, nat_eq_iff u read, e, c))
    ]
    | inr (inl same) ↦ waits_to blocked cause i (omega arith) c
    | inr (inr below) ↦ waits_to blocked cause i (omega arith) c
  ]

-- The state with the key looked at.
abbrev pub looked : Executor → Bytes → ℕ → Executor
looked s k v = record s { seen = set_at s.seen s.current (assign (s.seen s.current) k v) }

pub visit-none :
    (s : Executor) (k : Bytes) (v : ℕ)
    → s.nodes k ≡ none
    → visit s k v ≡ record (looked s k v) { nodes = assign s.nodes k s.current }
unfolding visit
visit-none s k v e = rw (e, visit) refl

pub visit-some :
    (s : Executor) (k : Bytes) (v o : ℕ)
    → s.nodes k ≡ some o
    → visit s k v
      ≡ wait_for
          (if nat_eq v read then read_node (looked s k v) o else take_node (looked s k v) k o)
          o
unfolding visit
visit-some s k v o e = rw (e, visit) refl

module _ (max : ℕ) (s : Executor) (k : Bytes) (v : ℕ) (x : IsValid max s) (busy : s.busy ≡ true)
    (first : s.seen s.current k ≡ none)
    (free : (o : ℕ) → s.nodes k ≡ some o → s.phase o ≡ locked → ⊥) where
  looked-IsWellFormed : IsWellFormed max (looked s k v)
  looked-IsWellFormed = IsWellFormed-rest max s s.failed s.nodes (looked s k v).seen x.well_formed

  -- The readers of the last task of a key are earlier than the task and not past their reading.
  reader_earlier : (o b : ℕ) → reads_before s o b ≡ true → b < s.current
  reader_earlier o b r = ground (
    arith,
    x.well_formed.reader_reading o b,
    x.well_formed.reading_task b o,
    x.well_formed.last_task busy,
    nat_eq_iff b s.current,
  )

  reader_rank : (o b : ℕ) → reads_before s o b ≡ true → rank (s.phase b) ≤ 5
  reader_rank o b r =
      ground (arith, x.well_formed.reader_reading o b, x.well_formed.reading_rank b o)

  take_node-IsWellFormed : (o : ℕ) → IsWellFormed max (take_node (looked s k v) k o)
  unfolding take_node
  take_node-IsWellFormed o =
      IsWellFormed-rest max _ s.failed (assign s.nodes k s.current) (looked s k v).seen (
        block_on-IsWellFormed max (looked s k v) (reads_before s o) looked-IsWellFormed busy
          (reader_earlier o) (reader_rank o))

  -- `wait_for` blocks the task on one that is earlier and not executed.
  wait_for-IsWellFormed :
      (t : Executor) (o : ℕ)
      → IsWellFormed max t
      → t.busy ≡ true
      → o < t.current
      → (t.phase o ≡ locked → ⊥)
      → IsWellFormed max (wait_for t o)
  unfolding wait_for
  wait_for-IsWellFormed t o w b lt unlocked = elim (Bool-cases (is_executed (t.phase o))) [
    | inl e ↦ rw e w
    | inr e ↦ rw e (
        block_on-IsWellFormed max t (λ c. nat_eq c o) w b (λ c q. ground (arith, nat_eq_iff c o))
          (λ c q.
            ground
              (arith, unlocked_rank (t.phase o) e unlocked, ap t.phase ((nat_eq_iff c o).0 q))))
  ]

  pub visit-IsWellFormed : IsWellFormed max (visit s k v)
  unfolding read_node take_node
  visit-IsWellFormed = elim (Option-cases (s.nodes k)) [
    | inl e ↦ rw (visit-none s k v e) (
        IsWellFormed-rest max s s.failed (assign s.nodes k s.current) (looked s k v).seen
          x.well_formed)
    | inr (o, e) ↦
        let lt = node_earlier max s k v o x busy first e (free o e) in
        elim (Bool-cases (nat_eq v read)) [
          | inl q ↦
              rw (visit-some s k v o e, q)
                (wait_for-IsWellFormed _ o
                  (read_node-IsWellFormed max (looked s k v) o looked-IsWellFormed busy lt) busy lt
                  (free o e))
          | inr q ↦
              rw (visit-some s k v o e, q)
                (wait_for-IsWellFormed _ o (take_node-IsWellFormed o) busy lt (free o e))
        ]
  ]

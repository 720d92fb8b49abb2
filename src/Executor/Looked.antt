-- ===== src/Executor/Looked.antt =====
-- internal/executor/executor.go: a key in `Run` keeps the order of tasks.
use hypersdk.Base.{
  ℕ, ◌≡◌, true, false, none, some, nat_eq, nat_eq_iff, Bytes, Bytes_eq, Bool-cases, Option-cases,
  inl, inr, arith,
}
use hypersdk.State.Permissions.{read}
use hypersdk.Executor.Tasks.{
  Executor, locked, link, visit, read_node, take_node, wait_for, is_executed, reads_before,
}
use hypersdk.Executor.Enqueue.{block_on}
use hypersdk.Executor.Order.{clash, is_some, IsOrdered}
use hypersdk.Executor.Visit.{new_node-IsOrdered, old_node-IsOrdered}
use hypersdk.Executor.Run.{
  IsValid, node_earlier, waits_readers, waits_read, looked, visit-none, visit-some,
}

module _ (max : ℕ) (s : Executor) (k : Bytes) (v : ℕ) (x : IsValid max s) (busy : s.busy ≡ true)
    (first : s.seen s.current k ≡ none)
    (free : (o : ℕ) → s.nodes k ≡ some o → s.phase o ≡ locked → ⊥) where
  -- No task saw the key.
  none-IsOrdered : s.nodes k ≡ none → IsOrdered (visit s k v)
  none-IsOrdered e = rw (visit-none s k v e) (
      new_node-IsOrdered s k v x.ordered (x.well_formed.last_task busy) first
        (x.well_formed.in_run busy) s.blocked (λ b j q. q)
        (λ i lt c. absurd (ground (arith, x.ordered.node_none k i e, c))) s.dependency_set
        (λ i lt c. absurd (ground (arith, x.ordered.node_none k i e, c))))

  read-IsOrdered :
      (o : ℕ)
      → s.nodes k ≡ some o
      → nat_eq v read ≡ true
      → IsOrdered (wait_for (read_node (looked s k v) o) o)
  unfolding wait_for read_node
  read-IsOrdered o e q = elim (Bool-cases (is_executed (s.phase o))) [
    | inl over ↦ rw over (
        old_node-IsOrdered s k v x.ordered (x.well_formed.last_task busy) first
          (x.well_formed.in_run busy) s.blocked (λ b j r. r)
          (waits_read max s k v o x busy first e (free o e) s.blocked q (inl over)) o
          (link s.reading s.current o) s.dependency_set ((nat_eq_iff v read).0 q) e
          (node_earlier max s k v o x busy first e (free o e)))
    | inr on ↦ rw on (
        old_node-IsOrdered s k v x.ordered (x.well_formed.last_task busy) first
          (x.well_formed.in_run busy) (block_on s (λ b. nat_eq b o)).blocked
          (λ b j r. ground (arith, r))
          (waits_read max s k v o x busy first e (free o e) (block_on s (λ b. nat_eq b o)).blocked q
            (inr (ground (arith, nat_eq_iff o o, nat_eq_iff s.current s.current))))
          o (link s.reading s.current o) _ ((nat_eq_iff v read).0 q) e
          (node_earlier max s k v o x busy first e (free o e)))
  ]

  -- What is written conflicts with all that saw the key.
  write_clash :
      nat_eq v read ≡ false
      → (i : ℕ) → is_some (s.seen i k) ≡ true
      → clash (s.seen i k) (some v) ≡ true
  write_clash q i c = elim (Option-cases (s.seen i k)) [
    | inl e ↦ absurd (ground (arith, e, c))
    | inr (u, e) ↦ rw e (ground (arith, q))
  ]

  take-IsOrdered :
      (o : ℕ)
      → s.nodes k ≡ some o
      → nat_eq v read ≡ false
      → IsOrdered (wait_for (take_node (looked s k v) k o) o)
  unfolding wait_for take_node
  take-IsOrdered o e q = elim (Bool-cases (is_executed (s.phase o))) [
    | inl over ↦ rw over (
        new_node-IsOrdered s k v x.ordered (x.well_formed.last_task busy) first
          (x.well_formed.in_run busy) (block_on s (reads_before s o)).blocked
          (λ b j r. ground (arith, r))
          (waits_readers max s k v o x busy first e (free o e)
            (block_on s (reads_before s o)).blocked (inl over)
            (λ i r. ground (arith, r, nat_eq_iff s.current s.current)))
          _ (λ i lt c. write_clash q i c))
    | inr on ↦ rw on (
        new_node-IsOrdered s k v x.ordered (x.well_formed.last_task busy) first
          (x.well_formed.in_run busy)
          (block_on (block_on s (reads_before s o)) (λ b. nat_eq b o)).blocked
          (λ b j r. ground (arith, r))
          (waits_readers max s k v o x busy first e (free o e)
            (block_on (block_on s (reads_before s o)) (λ b. nat_eq b o)).blocked
            (inr (ground (arith, nat_eq_iff o o, nat_eq_iff s.current s.current)))
            (λ i r. ground (arith, r, nat_eq_iff s.current s.current)))
          _ (λ i lt c. write_clash q i c))
  ]

  pub visit-IsOrdered : IsOrdered (visit s k v)
  visit-IsOrdered = elim (Option-cases (s.nodes k)) [
    | inl e ↦ none-IsOrdered e
    | inr (o, e) ↦ elim (Bool-cases (nat_eq v read)) [
      | inl q ↦ rw (visit-some s k v o e, q) (read-IsOrdered o e q)
      | inr q ↦ rw (visit-some s k v o e, q) (take-IsOrdered o e q)
    ]
  ]

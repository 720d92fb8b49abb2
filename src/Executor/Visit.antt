-- ===== src/Executor/Visit.antt =====
-- internal/executor/executor.go: what `Run` does for one key keeps the order of tasks.
use hypersdk.Base.{
  ℕ, suc, ◌≤◌, ◌<◌, ◌≡◌, ◌⊎◌, sym, ap, subst, ◌∙◌, Bool, true, false, ◌&&◌, none, some, nat_eq,
  nat_eq_iff, Bytes, ◌==◌, Bytes_eq, bytes_eq_iff, GoMap, assign, Bool-cases, inl, inr, arith,
}
use hypersdk.State.Permissions.{read}
use hypersdk.Executor.Tasks.{Executor, enqueuing, rank, set_at, link}
use hypersdk.Executor.Order.{clash, is_some, Behind, Behind-more, IsOrdered}

-- `Run` looks at a key that its task has not looked at.
module _ (s : Executor) (k : Bytes) (v : ℕ) (w : IsOrdered s) (unborn : suc s.current ≡ s.tasks)
    (first : s.seen s.current k ≡ none) (idle : s.phase s.current ≡ enqueuing) where
  abbrev pub seen_now : ℕ → GoMap Bytes ℕ
  seen_now = set_at s.seen s.current (assign (s.seen s.current) k v)

  abbrev is_new : ℕ → Bytes → Bool
  is_new i j = nat_eq i s.current && j == k

  seen_now-old : (i : ℕ) (j : Bytes) → is_new i j ≡ false → seen_now i j ≡ s.seen i j
  seen_now-old i j e =
      ground (arith, nat_eq_iff i s.current, ap (λ x. s.seen x j) {x = i} {y = s.current})

  seen_now-new : (i : ℕ) (j : Bytes) → is_new i j ≡ true → seen_now i j ≡ some v
  seen_now-new i j e = ground arith

  seen-new : (i : ℕ) (j : Bytes) → is_new i j ≡ true → s.seen i j ≡ none
  seen-new i j e =
      let at : i ≡ s.current = (nat_eq_iff i s.current).0 (ground arith) in
      let key : j ≡ k = (bytes_eq_iff j k).0 (ground arith) in
      ap (λ x. s.seen x j) at ∙ ap (s.seen s.current) key ∙ first

  clash-seen_now :
      (i b : ℕ) (j : Bytes)
      → clash (s.seen i j) (s.seen b j) ≡ true
      → clash (seen_now i j) (seen_now b j) ≡ true
  clash-seen_now i b j c = elim (Bool-cases (is_new i j)) [
    | inl e ↦ absurd (ground (arith, seen-new i j e))
    | inr e ↦ elim (Bool-cases (is_new b j)) [
      | inl q ↦ absurd (ground (arith, seen-new b j q))
      | inr q ↦ rw (seen_now-old i j e, seen_now-old b j q) c
    ]
  ]

  module _ (blocked : ℕ → ℕ → Bool) (more : (b j : ℕ) → s.blocked b j ≡ true → blocked b j ≡ true)
      (waits : (i : ℕ)
        → i < s.current
        → clash (s.seen i k) (some v) ≡ true
        → (5 ≤ rank (s.phase i)) ⊎ Behind s.seen blocked k i s.current) where
    abbrev Kept : Bytes → ℕ → ℕ → Type 0
    Kept j i b = (5 ≤ rank (s.phase i)) ⊎ Behind seen_now blocked j i b

    keep :
        (i b : ℕ) (j : Bytes) (old : ℕ → ℕ → Bool)
        → ((c : ℕ) → old c b ≡ true → blocked c b ≡ true)
        → (5 ≤ rank (s.phase i)) ⊎ Behind s.seen old j i b
        → Kept j i b
    keep i b j old grow (inl over) = inl over
    keep i b j old grow (inr r) =
        inr (Behind-more s.seen seen_now old blocked j i b grow (λ c. clash-seen_now i c j) r)

    order_now :
        (i b : ℕ) (j : Bytes) → i < b → clash (seen_now i j) (seen_now b j) ≡ true → Kept j i b
    order_now i b j lt c = elim (Bool-cases (is_new b j)) [
      | inl e ↦
          let at : b ≡ s.current = (nat_eq_iff b s.current).0 (ground arith) in
          let key : j ≡ k = (bytes_eq_iff j k).0 (ground arith) in
          let old : is_new i j ≡ false = ground (arith, nat_eq_iff i s.current) in
          let c' : clash (s.seen i j) (some v) ≡ true =
            ap (λ x. clash (s.seen i j) x) (sym (seen_now-new b j e))
            ∙ ap (λ x. clash x (seen_now b j)) (sym (seen_now-old i j old))
            ∙ c in
          keep i b j blocked (λ x q. q)
            (subst (λ x. (5 ≤ rank (s.phase i)) ⊎ Behind s.seen blocked j i x) (sym at)
              (subst (λ x. (5 ≤ rank (s.phase i)) ⊎ Behind s.seen blocked x i s.current) (sym key)
                (waits i (omega arith) (subst (λ x. clash (s.seen i x) (some v) ≡ true) key c'))))
      | inr e ↦ elim (Bool-cases (is_new i j)) [
        | inl q ↦
            let at : i ≡ s.current = (nat_eq_iff i s.current).0 (ground arith) in
            absurd
              (ground (arith, w.unseen b j (omega arith), seen_now-old b j e, seen_now-new i j q))
        | inr q ↦
            keep i b j s.blocked (λ x. more x b)
              (w.order i b j lt (
                ap (λ x. clash (s.seen i j) x) (sym (seen_now-old b j e))
                ∙ ap (λ x. clash x (seen_now b j)) (sym (seen_now-old i j q))
                ∙ c))
      ]
    ]

    -- Other keys are as they were.
    seen_now-other : (i : ℕ) (j : Bytes) → (j == k) ≡ false → seen_now i j ≡ s.seen i j
    seen_now-other i j e = seen_now-old i j (ground (arith, e))

    seen_now-before : (i : ℕ) (j : Bytes) → i < s.current → seen_now i j ≡ s.seen i j
    seen_now-before i j lt = seen_now-old i j (ground (arith, nat_eq_iff i s.current))

    seen_now-after : (i : ℕ) (j : Bytes) → s.current < i → seen_now i j ≡ none
    seen_now-after i j lt =
        ground (arith, w.unseen i j (omega arith), seen_now-old i j, nat_eq_iff i s.current)

    -- The task becomes the last of the key: it conflicts with all that saw the key before it.
    pub new_node-IsOrdered :
        (set : ℕ → Bool)
        → ((i : ℕ)
            → i < s.current
            → is_some (s.seen i k) ≡ true
            → clash (s.seen i k) (some v) ≡ true)
        → IsOrdered (record s {
          seen = seen_now;
          nodes = assign s.nodes k s.current;
          blocked = blocked;
          dependency_set = set;
        })
    new_node-IsOrdered set conflicts = record {
      complete = λ j i lt h. ground (
        arith,
        w.complete j i lt h,
        idle,
        nat_eq_iff j s.current,
        ap s.phase {x = j} {y = s.current},
      );
      unseen = λ j i h. ground (arith, w.unseen j i h, nat_eq_iff j s.current);
      node_none = λ j i h. ground (arith, w.node_none j i, bytes_eq_iff j k, seen_now-old i j);
      node_seen = λ j o h. ground (
        arith,
        w.node_seen j o,
        bytes_eq_iff j k,
        seen_now-old o j,
        seen_now-new o j,
        nat_eq_iff o s.current,
      );
      node_before = λ j o i h lt e. elim (Bool-cases (j == k)) [
        | inl q ↦
            let key : j ≡ k = (bytes_eq_iff j k).0 q in
            let at : s.current ≡ o = ground arith in
            let was : seen_now i j ≡ s.seen i k =
              seen_now-before i j (omega (arith, at)) ∙ ap (s.seen i) key in
            let now : seen_now o j ≡ some v =
              seen_now-new o j (ground (arith, nat_eq_iff o s.current)) in
            ground (arith, was, now, conflicts i, e)
        | inr q ↦ ground (arith, w.node_before j o i, seen_now-other i j q, seen_now-other o j q)
      ];
      node_after_read = λ j o i u h lt e. elim (Bool-cases (j == k)) [
        | inl q ↦
            let at : s.current ≡ o = ground arith in
            absurd (ground (arith, seen_now-after i j (omega (arith, at)), e))
        | inr q ↦ ground (arith, w.node_after_read j o i u, seen_now-other i j q)
      ];
      node_after = λ j o i h lt e. elim (Bool-cases (j == k)) [
        | inl q ↦
            let at : s.current ≡ o = ground arith in
            absurd (ground (arith, seen_now-after i j (omega (arith, at)), e))
        | inr q ↦ w.node_after j o i (ground arith) lt (ground (arith, seen_now-other i j q))
      ];
      order = order_now;
    }

    -- The task reads, and becomes a reader of the last task of the key.
    pub old_node-IsOrdered :
        (o : ℕ) (reading : ℕ → ℕ → Bool) (set : ℕ → Bool)
        → v ≡ read
        → s.nodes k ≡ some o
        → o < s.current
        → IsOrdered (record s {
          seen = seen_now;
          blocked = blocked;
          reading = reading;
          readers = link s.readers o s.current;
          dependency_set = set;
        })
    old_node-IsOrdered o reading set reads at earlier = record {
      complete = λ j i lt h. ground (
        arith,
        w.complete j i lt h,
        idle,
        nat_eq_iff j s.current,
        ap s.phase {x = j} {y = s.current},
      );
      unseen = λ j i h. ground (arith, w.unseen j i h, nat_eq_iff j s.current);
      node_none = λ j i h. elim (Bool-cases (j == k)) [
        | inl q ↦ absurd (ground (arith, ap s.nodes ((bytes_eq_iff j k).0 q), at, h))
        | inr q ↦ ground (arith, w.node_none j i h, seen_now-other i j q)
      ];
      node_seen = λ j p h. elim (Bool-cases (j == k)) [
        | inl q ↦
            ground (
              arith,
              w.node_seen j p h,
              ap s.nodes ((bytes_eq_iff j k).0 q),
              at,
              seen_now-before p j,
            )
        | inr q ↦ ground (arith, w.node_seen j p h, seen_now-other p j q)
      ];
      node_before = λ j p i h lt e. elim (Bool-cases (j == k)) [
        | inl q ↦
            let same : p ≡ o = ground (arith, ap s.nodes ((bytes_eq_iff j k).0 q), at, h) in
            ground (
              arith,
              w.node_before j p i h lt,
              seen_now-before p j (omega (arith, same)),
              seen_now-before i j (omega (arith, same)),
            )
        | inr q ↦
            ground (arith, w.node_before j p i h lt, seen_now-other i j q, seen_now-other p j q)
      ];
      node_after_read = λ j p i u h lt e. elim (Bool-cases (is_new i j)) [
        | inl q ↦ ground (arith, seen_now-new i j q, e, reads)
        | inr q ↦ ground (arith, w.node_after_read j p i u h lt, seen_now-old i j q)
      ];
      node_after = λ j p i h lt e. elim (Bool-cases (is_new i j)) [
        | inl q ↦
            let same : p ≡ o =
              ground (arith, ap s.nodes ((bytes_eq_iff j k).0 (ground arith)), at, h) in
            inr (ground (arith, same, nat_eq_iff p o))
        | inr q ↦ elim (w.node_after j p i h lt (ground (arith, seen_now-old i j q))) [
          | inl over ↦ inl over
          | inr r ↦ inr (ground (arith, r))
        ]
      ];
      order = order_now;
    }

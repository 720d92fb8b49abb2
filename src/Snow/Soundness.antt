-- ===== src/Snow/Soundness.antt =====
-- snow/block.go and snow/vm.go: a block counts as verified only with the output of executing it.
use hypersdk.Base.{
  ℕ, ◌<◌, ◌≡◌, refl, ap, sym, subst, ◌∙◌, Bool, true, false, none, some, Bytes, ◌==◌, Bytes_eq,
  bytes_eq_iff, GoMap, assign, nat_eq, nat_eq_iff, ok, Outcome-cases, Option-cases, Bool-cases, inl,
  inr, arith,
}
use hypersdk.Snow.Blocks.{
  Input, Chain, Vm, StatefulBlock, store, new_input_block, allocate, get_block, parse_block,
  remember,
}
use hypersdk.Snow.Steps.{initial, Derives, first_block}

module _ {O A : Type 0} (c : Chain O A) (genesis : Input) (genesis_output : O)
    (genesis_accepted : A) where
  -- The block has an output that comes of executing it.
  abbrev pub IsExecuted : StatefulBlock O A → Type 0
  IsExecuted b =
      (o : O) × (b.output ≡ some o) × Derives c genesis genesis_output genesis_accepted b.input o

  pub record IsSound (v : Vm O A) : Type 0 where
    pub keyed :
        (id : Bytes) (r : ℕ)
        → v.verified_blocks id ≡ some r
        → (r < v.next) × ((v.blocks r).input.id ≡ id)
    pub cached :
        (id : Bytes) (r : ℕ)
        → v.accepted_by_id id ≡ some r
        → (r < v.next) × ((v.blocks r).input.id ≡ id)
    pub executed : (r : ℕ) → r < v.next → (v.blocks r).verified ≡ true → IsExecuted (v.blocks r)
    pub unexecuted :
        (r : ℕ) → r < v.next → (v.blocks r).verified ≡ false → (v.blocks r).output ≡ none

  pub initial-IsSound :
      (ready : Bool) → IsSound (initial c genesis genesis_output genesis_accepted ready)
  initial-IsSound ready = record {
    keyed = λ id r e. cc;
    cached = λ id r e. ground (arith, e, bytes_eq_iff id genesis.id);
    executed = λ r lt e. (genesis_output, refl, first_block);
    unexecuted = λ r lt e. cc;
  }

  -- A block is put in the store.
  pub allocate-IsSound :
      (v : Vm O A) (b : StatefulBlock O A)
      → IsSound v
      → (b.verified ≡ true → IsExecuted b)
      → (b.verified ≡ false → b.output ≡ none)
      → IsSound (allocate v b)
  unfolding allocate
  allocate-IsSound v b h d n = record {
    keyed = λ id r e. ground (arith, h.keyed id r e, nat_eq_iff r v.next);
    cached = λ id r e. ground (arith, h.cached id r e, nat_eq_iff r v.next);
    executed = λ r lt e. elim (Bool-cases (nat_eq r v.next)) [
      | inl q ↦ rw q (d (rw q at e))
      | inr q ↦ rw q (h.executed r (ground (arith, lt, q, nat_eq_iff r v.next)) (rw q at e))
    ];
    unexecuted = λ r lt e. elim (Bool-cases (nat_eq r v.next)) [
      | inl q ↦ rw q (n (rw q at e))
      | inr q ↦ rw q (h.unexecuted r (ground (arith, lt, q, nat_eq_iff r v.next)) (rw q at e))
    ];
  }

  -- A block is changed, but not its input.
  pub update-IsSound :
      (v : Vm O A) (r : ℕ) (b : StatefulBlock O A)
      → IsSound v
      → b.input ≡ (v.blocks r).input
      → (r < v.next → b.verified ≡ true → IsExecuted b)
      → (r < v.next → b.verified ≡ false → b.output ≡ none)
      → IsSound (record v { blocks = store v.blocks r b })
  update-IsSound v r b h same d n = record {
    keyed = λ id j e. ((h.keyed id j e).0, same_id j ∙ (h.keyed id j e).1);
    cached = λ id j e. ((h.cached id j e).0, same_id j ∙ (h.cached id j e).1);
    executed = λ j lt e. elim (Bool-cases (nat_eq j r)) [
      | inl q ↦ rw q (d (subst (λ k. k < v.next) ((nat_eq_iff j r).0 q) lt) (rw q at e))
      | inr q ↦ rw q (h.executed j lt (rw q at e))
    ];
    unexecuted = λ j lt e. elim (Bool-cases (nat_eq j r)) [
      | inl q ↦ rw q (n (subst (λ k. k < v.next) ((nat_eq_iff j r).0 q) lt) (rw q at e))
      | inr q ↦ rw q (h.unexecuted j lt (rw q at e))
    ];
  }
    where
      same_id : (j : ℕ) → (store v.blocks r b j).input.id ≡ (v.blocks j).input.id
      same_id j = elim (Bool-cases (nat_eq j r)) [
        | inl q ↦
            rw q
              (ap (λ i. i.id) same ∙ ap (λ k. (v.blocks k).input.id) (sym ((nat_eq_iff j r).0 q)))
        | inr q ↦ rw q refl
      ]

  pub remember-IsSound : (v : Vm O A) (r : ℕ) → IsSound v → r < v.next → IsSound (remember v r)
  remember-IsSound v r h lt = record {
    keyed = λ id j e. elim (Bool-cases (id == (v.blocks r).input.id)) [
      | inl q ↦
          let same : r ≡ j = ground (arith, q, e) in
          (
            omega (arith, same, lt),
            ap (λ k. (v.blocks k).input.id) (sym same)
                ∙ sym ((bytes_eq_iff id (v.blocks r).input.id).0 q),
          )
      | inr q ↦ h.keyed id j (ground (arith, q, e))
    ];
    cached = h.cached;
    executed = h.executed;
    unexecuted = h.unexecuted;
  }

  -- What is found has the identifier, if it is verified, and the blocks there were are as they were.
  pub record IsFound (v : Vm O A) (id : Bytes) (w : Vm O A) (r : ℕ) : Type 0 where
    pub sound : IsSound w
    pub inside : r < w.next
    pub has_id : (w.blocks r).verified ≡ true → (w.blocks r).input.id ≡ id
    pub more : (j : ℕ) → j < v.next → j < w.next
    pub kept : (j : ℕ) → j < v.next → w.blocks j ≡ v.blocks j

  fresh-IsFound :
      (v : Vm O A) (id : Bytes) (i : Input)
      → IsSound v
      → IsFound v id (allocate v (new_input_block i)) v.next
  unfolding allocate new_input_block
  fresh-IsFound v id i h = record {
    sound = allocate-IsSound v (new_input_block i) h (λ y. cc) (λ y. refl);
    inside = omega arith;
    has_id = λ y. absurd (ground (arith, nat_eq_iff v.next v.next, y));
    more = λ j lt. omega (arith, lt);
    kept = λ j lt. ground (arith, lt, nat_eq_iff j v.next);
  }

  pub get_block-IsFound :
      (v : Vm O A) (id : Bytes) (w : Vm O A) (r : ℕ)
      → IsSound v
      → get_block v id ≡ ok (w, r)
      → IsFound v id w r
  unfolding get_block
  get_block-IsFound v id w r h e = elim (Option-cases (v.verified_blocks id)) [
    | inr (q, f) ↦ here q (h.keyed id q f) (ground (arith, f, e)) (ground (arith, f, e))
    | inl f ↦ elim (Option-cases (v.accepted_by_id id)) [
      | inr (q, g) ↦ here q (h.cached id q g) (ground (arith, f, g, e)) (ground (arith, f, g, e))
      | inl g ↦ elim (Option-cases (v.chain_index id)) [
        | inl k ↦ absurd (ground (arith, f, g, k, e))
        | inr (i, k) ↦ fresh i (ground (arith, f, g, k, e)) (ground (arith, f, g, k, e))
      ]
    ]
  ]
    where
      here :
          (q : ℕ) → (q < v.next) × ((v.blocks q).input.id ≡ id) → v ≡ w → q ≡ r → IsFound v id w r
      here q p same at =
          subst (λ x. IsFound v id x r) same
            (subst (IsFound v id v) at (record {
              sound = h;
              inside = p.0;
              has_id = λ y. p.1;
              more = λ j lt. lt;
              kept = λ j lt. refl;
            }))

      fresh : (i : Input) → allocate v (new_input_block i) ≡ w → v.next ≡ r → IsFound v id w r
      fresh i same at =
          subst (λ x. IsFound v id x r) same
            (subst (IsFound v id (allocate v (new_input_block i))) at (fresh-IsFound v id i h))

  pub parsed-IsSound :
      (x : Vm O A) (m : GoMap Bytes ℕ) → IsSound x → IsSound (record x { parsed_blocks = m })
  parsed-IsSound x m s = record {
    keyed = s.keyed;
    cached = s.cached;
    executed = s.executed;
    unexecuted = s.unexecuted;
  }

  pub parse_block-IsSound :
      (v : Vm O A) (id bytes : Bytes) (w : Vm O A) (r : ℕ)
      → IsSound v
      → parse_block c v id bytes ≡ ok (w, r)
      → IsSound w
  unfolding parse_block
  parse_block-IsSound v id bytes w r h e = elim (Outcome-cases (get_block v id)) [
    | inl ((x, q), f) ↦
        let same : x ≡ w = ground (arith, f, e) in
        subst IsSound same (get_block-IsFound v id x q h f).sound
    | inr (g, f) ↦ elim (Option-cases (v.parsed_blocks id)) [
      | inr (q, k) ↦ subst IsSound (ground (arith, f, k, e)) h
      | inl k ↦ elim (Option-cases (c.parse_block bytes)) [
        | inl n ↦ absurd (ground (arith, f, k, n, e))
        | inr (i, n) ↦ subst IsSound (ground (arith, f, k, n, e)) (
            parsed-IsSound (allocate v (new_input_block i)) (assign v.parsed_blocks id v.next)
              (fresh-IsFound v id i h).sound)
      ]
    ]
  ]

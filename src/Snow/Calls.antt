-- ===== src/Snow/Calls.antt =====
-- snow/block.go and snow/vm.go: every call keeps the blocks to what executing them gives.
use hypersdk.Base.{
  ℕ, ◌<◌, ◌≡◌, refl, ap, sym, subst, ◌∙◌, Bool, true, not, ◌&&◌, List, Option, some, false, Bytes,
  ◌==◌, Bytes_eq, bytes_eq_iff, assign, ok, Outcome-cases, Option-cases, List-cases, Bool-cases,
  inl, inr, arith,
}
use hypersdk.Snow.Blocks.{
  Input, Chain, Vm, StatefulBlock, store, new_verified_block, allocate, same_context, get_block,
  build_block, verify, verify_with_context, accept, accept_block, process_accept, reject,
}
use hypersdk.Snow.Steps.{
  Step, get_step, parse_step, build_step, verify_step, accept_step, process_step, reject_step,
  prefer_step, forget_accepted_step, forget_parsed_step, forget_index_step, Reach, start, later,
  Derives, first_block, verified_block, BuildsOnParent,
}
use hypersdk.Snow.Soundness.{
  IsExecuted, IsSound, initial-IsSound, allocate-IsSound, update-IsSound, remember-IsSound,
  get_block-IsFound, parsed-IsSound, parse_block-IsSound,
}

module _ {O A : Type 0} (c : Chain O A) (genesis : Input) (genesis_output : O)
    (genesis_accepted : A) where
  abbrev Sound : Vm O A → Type 0
  Sound v = IsSound c genesis genesis_output genesis_accepted v

  abbrev Executed : StatefulBlock O A → Type 0
  Executed b = IsExecuted c genesis genesis_output genesis_accepted b

  Derives-id :
      (block_id : O → Bytes) (i : Input) (o : O)
      → BuildsOnParent c genesis genesis_output genesis_accepted block_id
      → Derives c genesis genesis_output genesis_accepted i o
      → block_id o ≡ i.id
  Derives-id block_id i o d first_block = d.names_first
  Derives-id block_id i o d (verified_block p j po q from same e) = d.names_verified po o i e

  build_block-IsSound :
      (block_id : O → Bytes) (v : Vm O A) (context : Option ℕ) (w : Vm O A) (r : ℕ)
      → BuildsOnParent c genesis genesis_output genesis_accepted block_id
      → Sound v
      → build_block c v context ≡ ok (w, r)
      → Sound w
  unfolding build_block
  build_block-IsSound block_id v context w r d h b =
      elim (Outcome-cases (get_block v v.preferred)) [
        | inr (n, f) ↦ absurd (ground (arith, f, b))
        | inl ((x, q), f) ↦
            let found =
              get_block-IsFound c genesis genesis_output genesis_accepted v v.preferred x q h f in
            elim (Bool-cases (x.blocks q).verified) [
              | inr e ↦ absurd (
                  ground
                    (arith, f, b, found.sound.unexecuted q found.inside e, d.no_output context))
              | inl e ↦
                  let (po, out, from) = found.sound.executed q found.inside e in
                  elim (Option-cases (c.build_block context (x.blocks q).output)) [
                    | inl n ↦ absurd (ground (arith, f, n, b))
                    | inr ((i, o), n) ↦ subst Sound (ground (arith, f, n, b)) (
                        parsed-IsSound c genesis genesis_output genesis_accepted
                          (allocate x (new_verified_block i o)) (assign x.parsed_blocks i.id x.next)
                          (allocate-IsSound c genesis genesis_output genesis_accepted x
                            (new_verified_block i o) found.sound
                            (new_block x q i o po from (ap (c.build_block context) (sym out) ∙ n))
                            (λ y. absurd (output_there i o y))))
                  ]
            ]
      ]
    where
      new_block :
          (x : Vm O A) (q : ℕ) (i : Input) (o po : O)
          → Derives c genesis genesis_output genesis_accepted (x.blocks q).input po
          → c.build_block context (some po) ≡ some (i, o)
          → (new_verified_block {A = A} i o).verified ≡ true
          → Executed (new_verified_block i o)
      new_block x q i o po from n y = (
        o,
        refl,
        verified_block (x.blocks q).input i po o from
            (sym (d.on_parent context po o i n ∙ Derives-id block_id (x.blocks q).input po d from))
            (d.as_verified context po o i n),
      )

      output_there : (i : Input) (o : O) → (new_verified_block {A = A} i o).verified ≡ false → ⊥
      output_there i o y = cc

  verify-IsSound :
      (v : Vm O A) (r : ℕ) (context : Option ℕ) (w : Vm O A)
      → Sound v
      → r < v.next
      → verify_with_context c v r context ≡ ok w
      → Sound w
  unfolding verify_with_context verify
  verify-IsSound v r context w h lt e = elim (Bool-cases v.ready) [
    | inr q ↦
        subst Sound (ground (arith, q, e))
          (remember-IsSound c genesis genesis_output genesis_accepted v r h lt)
    | inl q ↦ elim (Bool-cases (v.blocks r).verified) [
      | inl f ↦ elim (Bool-cases (same_context context (v.blocks r).input.context)) [
        | inl s ↦
            subst Sound (ground (arith, q, f, s, e))
              (remember-IsSound c genesis genesis_output genesis_accepted v r h lt)
        | inr s ↦ absurd (ground (arith, q, f, s, e))
      ]
      | inr f ↦ elim (Outcome-cases (get_block v (v.blocks r).input.parent)) [
        | inr (n, g) ↦ absurd (ground (arith, q, f, g, e))
        | inl ((x, p), g) ↦ elim (Bool-cases (x.blocks p).verified) [
          | inr k ↦ absurd (ground (arith, q, f, g, k, e))
          | inl k ↦ elim (Bool-cases (same_context context (v.blocks r).input.context)) [
            | inr s ↦ absurd (ground (arith, q, f, g, k, s, e))
            | inl s ↦ elim (Option-cases (c.verify_block (x.blocks p).output (x.blocks r).input)) [
              | inl n ↦ absurd (ground (arith, q, f, g, k, s, n, e))
              | inr (o, n) ↦ subst Sound (ground (arith, q, f, g, k, s, n, e)) (
                  remember-IsSound c genesis genesis_output genesis_accepted
                    (record x {
                      blocks =
                          store x.blocks r
                            (record (x.blocks r) { output = some o; verified = true });
                    })
                    r (verified_now x p o g k n)
                    ((get_block-IsFound c genesis genesis_output genesis_accepted v
                        (v.blocks r).input.parent x p h g).more
                      r lt))
            ]
          ]
        ]
      ]
    ]
  ]
    where
      verified_now :
          (x : Vm O A) (p : ℕ) (o : O)
          → get_block v (v.blocks r).input.parent ≡ ok (x, p)
          → (x.blocks p).verified ≡ true
          → c.verify_block (x.blocks p).output (x.blocks r).input ≡ some o
          → Sound (record x {
            blocks = store x.blocks r (record (x.blocks r) { output = some o; verified = true });
          })
      verified_now x p o g k n =
          let found =
            get_block-IsFound c genesis genesis_output genesis_accepted v (v.blocks r).input.parent
              x p h g in
          let (po, out, from) = found.sound.executed p found.inside k in
          update-IsSound c genesis genesis_output genesis_accepted x r _ found.sound refl
            (λ inside y. (
              o,
              refl,
              verified_block (x.blocks p).input (x.blocks r).input po o from
                  (found.has_id k ∙ ap (λ b. b.input.parent) (sym (found.kept r lt)))
                  (ap (λ d. c.verify_block d (x.blocks r).input) (sym out) ∙ n),
            ))
            (λ inside y. cc)

  accept-IsSound :
      (v : Vm O A) (r : ℕ) (w : Vm O A) → Sound v → r < v.next → accept c v r ≡ ok w → Sound w
  unfolding accept
  accept-IsSound v r w h lt e = elim (Bool-cases (v.ready && not (v.blocks r).verified)) [
    | inl q ↦ absurd (ground (arith, q, e))
    | inr q ↦ subst Sound {x = accept_block v r} (ground (arith, q, e)) (record {
      keyed = λ id j k. h.keyed id j (ground (arith, k));
      cached = λ id j k. elim (Bool-cases (id == (v.blocks r).input.id)) [
        | inl s ↦
            let same : r ≡ j = ground (arith, s, k) in
            (
              omega (arith, same, lt),
              ap (λ i. (v.blocks i).input.id) (sym same)
                  ∙ sym ((bytes_eq_iff id (v.blocks r).input.id).0 s),
            )
        | inr s ↦ h.cached id j (ground (arith, s, k))
      ];
      executed = h.executed;
      unexecuted = h.unexecuted;
    })
  ]

  -- The queue goes on.
  dequeue-IsSound :
      (v : Vm O A) (rest : List ℕ) (r : ℕ)
      → Sound v
      → Sound (record v { accepted_queue = rest; last_processed = r })
  dequeue-IsSound v rest r h = record {
    keyed = h.keyed;
    cached = h.cached;
    executed = h.executed;
    unexecuted = h.unexecuted;
  }

  process_accept-IsSound : (v w : Vm O A) → Sound v → process_accept c v ≡ ok w → Sound w
  unfolding process_accept
  process_accept-IsSound v w h e = elim (List-cases v.accepted_queue) [
    | inl q ↦ absurd (ground (arith, q, e))
    | inr (r, rest, q) ↦ elim (Outcome-cases (get_block v (v.blocks r).input.parent)) [
      | inr (n, g) ↦ absurd (ground (arith, q, g, e))
      | inl ((x, p), g) ↦
          elim (Option-cases (c.accept_block (x.blocks p).accepted_block (x.blocks r).output)) [
            | inl k ↦ absurd (ground (arith, q, g, k, e))
            | inr (a, k) ↦
                let found =
                  get_block-IsFound c genesis genesis_output genesis_accepted v
                    (v.blocks r).input.parent x p h g in
                let b : StatefulBlock O A = record (x.blocks r) {
                  accepted_block = some a;
                  accepted = true;
                } in
                subst Sound (ground (arith, q, g, k, e)) (
                  dequeue-IsSound (record x { blocks = store x.blocks r b }) rest r
                    (update-IsSound c genesis genesis_output genesis_accepted x r b found.sound refl
                      (λ inside y. found.sound.executed r inside y)
                      (λ inside y. found.sound.unexecuted r inside y)))
          ]
    ]
  ]

  reject-IsSound : (v : Vm O A) (r : ℕ) → Sound v → Sound (reject c v r)
  unfolding reject
  reject-IsSound v r h = record {
    keyed = λ id j k. h.keyed id j (ground (arith, k));
    cached = h.cached;
    executed = h.executed;
    unexecuted = h.unexecuted;
  }

  Step-IsSound :
      (block_id : O → Bytes) (v w : Vm O A)
      → BuildsOnParent c genesis genesis_output genesis_accepted block_id
      → Sound v
      → Step c genesis genesis_output genesis_accepted v w
      → Sound w
  Step-IsSound block_id v w d h (get_step id x r e) =
      (get_block-IsFound c genesis genesis_output genesis_accepted v id x r h e).sound
  Step-IsSound block_id v w d h (parse_step id bytes x r e) =
      parse_block-IsSound c genesis genesis_output genesis_accepted v id bytes x r h e
  Step-IsSound block_id v w d h (build_step context x r b) =
      build_block-IsSound block_id v context x r d h b
  Step-IsSound block_id v w d h (verify_step r context x lt e) = verify-IsSound v r context x h lt e
  Step-IsSound block_id v w d h (accept_step r x lt e) = accept-IsSound v r x h lt e
  Step-IsSound block_id v w d h (process_step x e) = process_accept-IsSound v x h e
  Step-IsSound block_id v w d h (reject_step r lt) = reject-IsSound v r h
  Step-IsSound block_id v w d h (prefer_step id) = record {
    keyed = h.keyed;
    cached = h.cached;
    executed = h.executed;
    unexecuted = h.unexecuted;
  }
  Step-IsSound block_id v w d h (forget_accepted_step id) = record {
    keyed = h.keyed;
    cached = λ j r k. h.cached j r (ground (arith, k));
    executed = h.executed;
    unexecuted = h.unexecuted;
  }
  Step-IsSound block_id v w d h (forget_parsed_step id) = record {
    keyed = h.keyed;
    cached = h.cached;
    executed = h.executed;
    unexecuted = h.unexecuted;
  }
  Step-IsSound block_id v w d h (forget_index_step id) = record {
    keyed = h.keyed;
    cached = h.cached;
    executed = h.executed;
    unexecuted = h.unexecuted;
  }

  pub Reach-IsSound :
      (block_id : O → Bytes) (ready : Bool) (v : Vm O A)
      → BuildsOnParent c genesis genesis_output genesis_accepted block_id
      → Reach c genesis genesis_output genesis_accepted ready v
      → Sound v
  Reach-IsSound block_id ready v d start =
      initial-IsSound c genesis genesis_output genesis_accepted ready
  Reach-IsSound block_id ready v d (later r p) =
      Step-IsSound block_id _ v d (Reach-IsSound block_id ready _ d r) p

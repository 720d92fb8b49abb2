-- ===== src/Chain/Consumption.antt =====
-- chain/processor.go: the units that a block consumes, and the results of its transactions.
use hypersdk.Base.{
  ℕ, suc, ◌+◌, ◌≡◌, refl, ap, ◌∙◌, true, List, [], ◌∷◌, Bytes, length, Outcome, ok, Outcome-cases,
  Bool-cases, inl, inr, arith,
}
use hypersdk.Binary.{AllUint64}
use hypersdk.Math.Checked.{CheckedMath}
use hypersdk.Fees.Dimensions.{Dimensions, can_add}
use hypersdk.Fees.Dimensions.Exact.{sums, AllLe, can_add_exact}
use hypersdk.Fees.Manager.{consume}
use hypersdk.Fees.Manager.Layout.{Dim, AllDim, layout}
use hypersdk.Fees.Manager.Consume.{prices, consumptions, charge, consume-fits, consume-misfit}
use hypersdk.TState.View.{TState, Error}
use hypersdk.Chain.Transaction.{Transaction, BalanceHandler, Rules, Result, state_keys, units}
use hypersdk.Chain.Processor.{consume_units, execute_tx, execute_each}

-- The sums of a list of units on top of what was consumed.
abbrev pub consumed_with : Dimensions → List Dimensions → Dimensions
consumed_with d [] = d
consumed_with d (u ∷ us) = consumed_with (sums d u) us

pub consumptions-charge :
    (dims : List Dim) (u : Dimensions)
    → length u ≡ length dims
    → (consumptions (charge dims u) ≡ sums (consumptions dims) u)
      × (prices (charge dims u) ≡ prices dims)
      × (length (charge dims u) ≡ length dims)
consumptions-charge [] [] e = (refl, refl, refl)
consumptions-charge [] (n ∷ u) e = absurd (omega arith)
consumptions-charge (x ∷ dims) [] e = absurd (omega arith)
consumptions-charge (x ∷ dims) (n ∷ u) e =
    let (a, b, c) = consumptions-charge dims u (omega arith) in
    (ap (◌∷◌ (x.consumed + n)) a, ap (◌∷◌ x.price) b, omega (arith, c))

charge-AllDim :
    (dims : List Dim) (u l : Dimensions)
    → length u ≡ length dims
    → length l ≡ length dims
    → AllDim dims
    → AllUint64 l
    → AllLe (sums (consumptions dims) u) l
    → AllDim (charge dims u)
charge-AllDim [] u l e f h w b = h
charge-AllDim (x ∷ dims) [] l e f h w b = h
charge-AllDim (x ∷ dims) (n ∷ u) [] e f h w b = absurd (omega arith)
charge-AllDim (x ∷ dims) (n ∷ u) (m ∷ l) e f h w b =
    ((h.0.0, h.0.1, omega arith), charge-AllDim dims u l (omega arith) (omega arith) h.1 w.1 b.1)

length-consumptions : (dims : List Dim) → length (consumptions dims) ≡ length dims
length-consumptions [] = refl
length-consumptions (x ∷ dims) = omega (arith, length-consumptions dims)

consumptions-AllUint64 : (dims : List Dim) → AllDim dims → AllUint64 (consumptions dims)
consumptions-AllUint64 [] h = tt
consumptions-AllUint64 (x ∷ dims) h = (h.0.2, consumptions-AllUint64 dims h.1)

module _ (to_id : Bytes → Bytes) ⦃m : CheckedMath⦄ (bh : BalanceHandler) (r : Rules) where
  -- The transactions have these units, uint64 values all.
  abbrev pub HaveUnits : List Transaction → List Dimensions → Type 0
  HaveUnits [] [] = Unit
  HaveUnits (tx ∷ txs) (u ∷ us) =
      (units to_id tx bh r ≡ ok u) × AllUint64 u × (length u ≡ 5) × HaveUnits txs us
  HaveUnits _ _ = ⊥

  -- What is left of the fee manager's array.
  pub record Consumed (time : ℕ) (dims : List Dim) (us : List Dimensions) (charged : Bytes)
      : Type 0 where
    pub dims_after : List Dim
    pub stored : charged ≡ layout time dims_after
    pub valid : AllDim dims_after
    pub same_prices : prices dims_after ≡ prices dims
    pub totals : consumptions dims_after ≡ consumed_with (consumptions dims) us
    pub within : AllLe (consumptions dims_after) r.max_block_units

  pub step-fits :
      (time : ℕ) (dims : List Dim) (u : Dimensions)
      → AllDim dims
      → length dims ≡ 5
      → length u ≡ 5
      → length r.max_block_units ≡ 5
      → AllUint64 u
      → AllUint64 r.max_block_units
      → (consume (layout time dims) u r.max_block_units).1 ≡ true
      → (consume (layout time dims) u r.max_block_units).0 ≡ layout time (charge dims u)
        × AllLe (sums (consumptions dims) u) r.max_block_units
        × AllDim (charge dims u)
  step-fits time dims u h d e f w z fits =
      let l = r.max_block_units in
      elim (Bool-cases (can_add (consumptions dims) u l)) [
        | inr no_room ↦
            let (i, c) = consume-misfit time dims u l h (omega arith) (omega arith) w z no_room in
            absurd (ground arith)
        | inl room ↦
            let within =
              (can_add_exact (consumptions dims) u l (omega (arith, length-consumptions dims))
                  (omega (arith, length-consumptions dims)) (consumptions-AllUint64 dims h) w z).0
                room in
            (
              ap (λ x. x.0) (consume-fits time dims u l h (omega arith) (omega arith) w z room),
              within,
              charge-AllDim dims u l (omega arith) (omega arith) h z within,
            )
      ]

  tail-HaveUnits :
      (tx : Transaction) (txs : List Transaction) (u : Dimensions) (us : List Dimensions)
      → HaveUnits (tx ∷ txs) (u ∷ us)
      → HaveUnits txs us
  tail-HaveUnits tx txs u us h = h.3

  consume_units-step :
      (manager : Bytes) (tx : Transaction) (txs : List Transaction) (u : Dimensions)
      (charged : Bytes)
      → units to_id tx bh r ≡ ok u
      → consume_units to_id bh r manager (tx ∷ txs) ≡ ok charged
      → ((consume manager u r.max_block_units).1 ≡ true)
        × (consume_units to_id bh r (consume manager u r.max_block_units).0 txs ≡ ok charged)
  unfolding consume_units
  consume_units-step manager tx txs u charged e h = elim (Outcome-cases (state_keys to_id tx bh)) [
    | inr (f, k) ↦ absurd (ground arith)
    | inl (ks, k) ↦ elim (Bool-cases (consume manager u r.max_block_units).1) [
      | inl fits ↦ (fits, ground arith)
      | inr no_room ↦ absurd (ground arith)
    ]
  ]

  -- From a well-formed array within the limits of a block, what the transactions of a block consume,
  -- if they are let pass, is exactly the sum of their units in each of the five dimensions, it is
  -- within the limits, and the prices stay as they are, for units and limits that are uint64 values.
  pub consume_units-Consumed :
      (time : ℕ) (dims : List Dim) (txs : List Transaction) (us : List Dimensions) (charged : Bytes)
      → AllDim dims
      → length dims ≡ 5
      → length r.max_block_units ≡ 5
      → AllUint64 r.max_block_units
      → AllLe (consumptions dims) r.max_block_units
      → HaveUnits txs us
      → consume_units to_id bh r (layout time dims) txs ≡ ok charged
      → Consumed time dims us charged
  unfolding consume_units
  consume_units-Consumed time dims [] [] charged h d f z le hu e = record {
    dims_after = dims;
    stored = ground arith;
    valid = h;
    same_prices = refl;
    totals = refl;
    within = le;
  }
  consume_units-Consumed time dims [] (u ∷ us) charged h d f z le hu e = absurd hu
  consume_units-Consumed time dims (tx ∷ txs) [] charged h d f z le hu e = absurd hu
  consume_units-Consumed time dims (tx ∷ txs) (u ∷ us) charged h d f z le hu e =
      let (fits, more) = consume_units-step (layout time dims) tx txs u charged hu.0 e in
      let (stored, within, valid) = step-fits time dims u h d hu.2 f hu.1 z fits in
      let (sum, same, size) = consumptions-charge dims u (omega (arith, hu.2)) in
      let rest =
        consume_units-Consumed time (charge dims u) txs us charged valid (omega (arith, size)) f z
          (rw sum within) (tail-HaveUnits tx txs u us hu) (rw stored at more) in
      record {
        dims_after = rest.dims_after;
        stored = rest.stored;
        valid = rest.valid;
        same_prices = rest.same_prices ∙ same;
        totals = rest.totals ∙ ap (λ s. consumed_with s us) sum;
        within = rest.within;
      }

  -- Each transaction of a block that is executed has one result, in the order of the block.
  pub length-execute_each :
      (manager : Bytes) (im : Bytes → Outcome Error Bytes) (t : ℕ) (ts : TState)
      (txs : List Transaction) (after : TState) (results : List Result)
      → execute_each to_id bh r manager im t ts txs ≡ ok (after, results)
      → length results ≡ length txs
  unfolding execute_each
  length-execute_each manager im t ts [] after results h = ground arith
  length-execute_each manager im t ts (tx ∷ txs) after results h =
      elim (Outcome-cases (execute_tx to_id bh r manager im t ts tx)) [
        | inr (f, e) ↦ absurd (ground arith)
        | inl ((next, result), e) ↦
            elim (Outcome-cases (execute_each to_id bh r manager im t next txs)) [
              | inr (f, q) ↦ absurd (ground arith)
              | inl ((last, rest), q) ↦
                  let same : results ≡ result ∷ rest = ground arith in
                  rw same (ap suc (length-execute_each manager im t next txs last rest q))
            ]
      ]

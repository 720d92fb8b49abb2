-- ===== src/Fees/Manager/Next.antt =====
-- internal/fees/manager.go: `ComputeNext` on a well-formed array.
use mathlib.Core.Path.{ap₂}
use hypersdk.Base.{
  ℕ, suc, ◌+◌, ◌-◌, ◌*◌, ◌/◌, ◌≤◌, ◌<◌, ◌≡◌, refl, ap, sym, ◌∙◌, List, [], ◌∷◌, ◌++◌, Bytes, min,
  length, take, replicate, append_assoc, arith, ok, ◌>>=◌,
}
use hypersdk.Math.Checked.{CheckedMath, max_uint64}
use hypersdk.Binary.{encode_words, uint64_bytes, copy_at, put_uint64, get_uint64}
use hypersdk.Binary.Words.{
  put_uint64-encode_words, copy_at_one, take-encode_words, get_uint64-encode_words,
}
use hypersdk.Fees.Dimensions.{Dimensions, fee_dimensions}
use hypersdk.Fees.Window.{window_size, sum}
use hypersdk.Fees.Window.Slots.{IsSlots, sum_lem, total}
use hypersdk.Fees.Price.{next_price, compute_next_price_window}
use hypersdk.Fees.Price.Roll.{next_slots, next_window_lem, length-next_slots, AllUint64-next_slots}
use hypersdk.Fees.Price.Bounds.{next_price-total}
use hypersdk.Fees.Manager.{
  compute_dimensions, compute_next, seconds_since, FeeRules, dimension_state_len, raw_len,
  unit_price, window, last_consumed,
}
use hypersdk.Fees.Manager.Layout.{
  Dim, IsDim, AllDim, layout, flat, unit_price-layout, window-layout, last_consumed-layout,
  write-layout,
}
use hypersdk.Fees.Manager.Consume.{AllDim-snoc, next_index}

abbrev zero_dim : Dim
zero_dim = record { price = 0; slots = replicate window_size 0; consumed = 0 }

zero_dim-IsDim : IsDim zero_dim
zero_dim-IsDim = omega arith

-- For each dimension a well-formed state, a target and a denominator above zero, and a minimum that
-- is a uint64.
pub data Ready : Dimensions → Dimensions → Dimensions → List Dim → Type 0 where
  nil : Ready [] [] [] []
  cons :
      {t c p : ℕ} {ts cs ps : Dimensions} {x : Dim} {xs : List Dim}
      → IsDim x
      → 0 < t
      → 0 < c
      → p ≤ max_uint64
      → Ready ts cs ps xs
      → Ready (t ∷ ts) (c ∷ cs) (p ∷ ps) (x ∷ xs)

-- What the new array holds before the loop.
abbrev blank : List Dim → List Dim
blank [] = []
blank (x ∷ xs) = zero_dim ∷ blank xs

module _ ⦃m : CheckedMath⦄ (since : ℕ) where
  -- `y` is the next state of the dimension `x`: the rolled window with what `x` consumed, the price
  -- that its total gives, and no consumption.
  pub record NextDim (t c p : ℕ) (x y : Dim) : Type 0 where
    pub slots : y.slots ≡ next_slots x.slots x.consumed since
    pub price : next_price (min (total y.slots) max_uint64) x.price t c p since ≡ ok y.price
    pub consumed : y.consumed ≡ 0

  pub data AllNext : Dimensions → Dimensions → Dimensions → List Dim → List Dim → Type 0 where
    nil : AllNext [] [] [] [] []
    cons :
        {t c p : ℕ} {ts cs ps : Dimensions} {x y : Dim} {xs ys : List Dim}
        → NextDim t c p x y
        → AllNext ts cs ps xs ys
        → AllNext (t ∷ ts) (c ∷ cs) (p ∷ ps) (x ∷ xs) (y ∷ ys)

  -- One round of the loop.
  next_dim :
      (x : Dim) (t c p : ℕ)
      → IsDim x
      → 0 < t
      → 0 < c
      → p ≤ max_uint64
      → (y : Dim) × NextDim t c p x y
        × IsDim y
        × (compute_next_price_window (encode_words x.slots) x.consumed x.price t c p since
            ≡ ok (y.price, encode_words y.slots))
  unfolding compute_next_price_window
  next_dim x t c p h ht hc hp =
      let slots = next_slots x.slots x.consumed since in
      let valid : IsSlots slots = (
        length-next_slots x.slots x.consumed since h.0.0,
        AllUint64-next_slots x.slots x.consumed since h.0.1,
      ) in
      let rolled = next_window_lem x.slots x.consumed since h.0 h.2 in
      let (q, e, bound) =
        next_price-total (min (total slots) max_uint64) x.price t c p since h.1 ht hc hp in
      (
        record { price = q; slots = slots; consumed = 0 },
        record { slots = refl; price = e; consumed = refl },
        (valid, bound, omega arith),
        ap (λ w. next_price (sum w) x.price t c p since >>= λ r. ok (r, w)) rolled
            ∙ ap (λ s. next_price s x.price t c p since >>= λ r. ok (r, encode_words slots))
                (sum_lem slots valid)
            ∙ ap (λ r. r >>= λ v. ok (v, encode_words slots)) e,
      )

  compute_dimensions-step :
      (raw bytes : Bytes) (i t c p : ℕ) (ts cs ps : Dimensions) (x y : Dim)
      → window raw i ≡ encode_words x.slots
      → last_consumed raw i ≡ x.consumed
      → unit_price raw i ≡ x.price
      → compute_next_price_window (encode_words x.slots) x.consumed x.price t c p since
        ≡ ok (y.price, encode_words y.slots)
      → compute_dimensions raw since i (t ∷ ts) (c ∷ cs) (p ∷ ps) bytes
        ≡ compute_dimensions raw since (suc i) ts cs ps (
            copy_at
              (put_uint64 bytes (8 + dimension_state_len * i) y.price)
              (8 + dimension_state_len * i + 8)
              (encode_words y.slots))
  unfolding compute_dimensions
  compute_dimensions-step raw bytes i t c p ts cs ps x y e f g h = rw (e, f, g, h)

  -- The loop over the dimensions that are left, with those of `done` written already.
  compute_dimensions-layout :
      (time now : ℕ) (pre done xs : List Dim) {ts cs ps : Dimensions}
      → AllDim pre
      → AllDim done
      → length done ≡ length pre
      → Ready ts cs ps xs
      → (ys : List Dim) × AllNext ts cs ps xs ys
        × (compute_dimensions
              (layout time (pre ++ xs))
              since
              (length pre)
              ts
              cs
              ps
              (layout now (done ++ blank xs))
            ≡ ok (layout now (done ++ ys)))
  compute_dimensions-layout time now pre done _ hp hd e Ready.nil =
      ([], AllNext.nil, unfold compute_dimensions in refl)
  compute_dimensions-layout time now pre done _ hp hd e
        (Ready.cons {t} {c} {p} {ts} {cs} {ps} {x} {xs} hx ht hc hm r) =
      let (y, next, hy, step) = next_dim x t c p hx ht hc hm in
      let bytes = layout now (done ++ zero_dim ∷ blank xs) in
      let pre' = pre ++ x ∷ [] in
      let done' = done ++ y ∷ [] in
      let rest =
        compute_dimensions-layout time now pre' done' xs (AllDim-snoc pre x hp hx)
          (AllDim-snoc done y hd hy) (omega (arith, next_index pre x, next_index done y)) r in
      let i = length pre in
      let written : copy_at (put_uint64 bytes (8 + dimension_state_len * i) y.price)
            (8 + dimension_state_len * i + 8) (encode_words y.slots)
          ≡ layout now (done ++ y ∷ blank xs) =
        ap
          (λ k.
            copy_at (put_uint64 bytes (8 + dimension_state_len * k) y.price)
              (8 + dimension_state_len * k + 8) (encode_words y.slots))
          (sym e)
        ∙ write-layout now done zero_dim (blank xs) y.price y.slots hd zero_dim-IsDim hy.1 hy.0.0
        ∙ ap
            (λ k.
              layout now
                (done ++ record { price = y.price; slots = y.slots; consumed = k } ∷ blank xs))
            (sym next.consumed) in
      (
        y ∷ rest.0,
        AllNext.cons next rest.1,
        compute_dimensions-step (layout time (pre ++ x ∷ xs)) bytes i t c p ts cs ps x y
              (window-layout time pre x xs hp hx) (last_consumed-layout time pre x xs hp hx)
              (unit_price-layout time pre x xs hp hx) step
            ∙ ap (compute_dimensions (layout time (pre ++ x ∷ xs)) since (suc i) ts cs ps) written
            ∙ ap₂ (λ k b. compute_dimensions (layout time k) since (suc i) ts cs ps (layout now b))
                (sym (append_assoc pre (x ∷ []) xs)) (sym (append_assoc done (y ∷ []) (blank xs)))
            ∙ ap
                (λ k.
                  compute_dimensions (layout time (pre' ++ xs)) since k ts cs ps
                    (layout now (done' ++ blank xs)))
                (sym (next_index pre x))
            ∙ rest.2
            ∙ ap (λ b. ok (layout now b)) (append_assoc done (y ∷ []) rest.0),
      )

-- The time stored, as `ComputeNext` reads it.
seconds_since_lem :
    (time seconds : ℕ) (dims : List Dim)
    → time ≤ seconds
    → seconds ≤ max_uint64
    → seconds_since (layout time dims) seconds ≡ seconds - time
unfolding seconds_since
seconds_since_lem time seconds dims h b =
    let stored : get_uint64 (take 8 (layout time dims)) ≡ time =
      ap get_uint64 (take-encode_words 1 (time ∷ flat dims))
      ∙ get_uint64-encode_words time [] (omega arith) in
    omega (arith, stored)

blank_lem : (dims : List Dim) → blank dims ≡ replicate (length dims) zero_dim
blank_lem [] = refl
blank_lem (x ∷ dims) = ap (◌∷◌ zero_dim) (blank_lem dims)

start_lem :
    (seconds : ℕ) (dims : List Dim)
    → length dims ≡ fee_dimensions
    → put_uint64 (replicate raw_len 0) 0 seconds ≡ layout seconds (blank dims)
start_lem seconds dims e =
    ap (λ b. put_uint64 b 0 seconds) zeros
    ∙ put_uint64-encode_words (0 ∷ flat (replicate fee_dimensions zero_dim)) 0 seconds
    ∙ ap encode_words (copy_at_one 0 seconds (flat (replicate fee_dimensions zero_dim)))
    ∙ ap (layout seconds) (ap (λ n. replicate n zero_dim) (sym e) ∙ sym (blank_lem dims))
  where
    zeros : replicate raw_len 0 ≡ layout 0 (replicate fee_dimensions zero_dim)
    zeros = unfold encode_words uint64_bytes flat in refl

-- `ComputeNext` on a well-formed array, at a time not before the one stored and under rules without
-- a zero target or denominator, does not panic and gives the array with the seconds of that time
-- and, for each of the five dimensions, the next state of that dimension.
pub compute_next_lem :
    ⦃m : CheckedMath⦄ (time now : ℕ) (dims : List Dim) (r : FeeRules)
    → length dims ≡ fee_dimensions
    → time ≤ now / 1000
    → now ≤ max_uint64
    → Ready r.window_target_units r.unit_price_change_denominator r.min_unit_price dims
    → (ys : List Dim) × AllNext
        (now / 1000 - time)
        r.window_target_units
        r.unit_price_change_denominator
        r.min_unit_price
        dims
        ys
      × (compute_next (layout time dims) now r ≡ ok (layout (now / 1000) ys))
unfolding compute_next
compute_next_lem time now dims r e h b k =
    let (ys, next, run) =
      compute_dimensions-layout (now / 1000 - time) time (now / 1000) [] [] dims tt tt refl k in
    (
      ys,
      next,
      ap₂
            (λ s z.
              compute_dimensions (layout time dims) s 0 r.window_target_units
                r.unit_price_change_denominator r.min_unit_price z)
            (seconds_since_lem time (now / 1000) dims h (omega arith))
            (start_lem (now / 1000) dims e)
          ∙ run,
    )

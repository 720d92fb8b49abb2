-- ===== src/Fees/Window/Slots.antt =====
-- internal/window: the operations on the array against those on its ten values.
use mathlib.Core.Path.{ap₂}
use native.Mathlib.Nat.{zero-add, mul_comm}
use hypersdk.Base.{
  ℕ, zero, suc, ◌+◌, ◌-◌, ◌*◌, ◌≤◌, ◌≡◌, refl, ap, sym, ◌∙◌, List, [], ◌∷◌, ◌++◌, none, some, Bytes,
  min, leb, ltb, if◌then◌else◌, length, drop, replicate, arith, length-drop, drop-of_length_le,
  Bool-cases, inl, inr,
}
use hypersdk.Math.Checked.{CheckedMath, max_uint64}
use hypersdk.Binary.{get_uint64, put_uint64, copy_at, encode_words, uint64_bytes, AllUint64}
use hypersdk.Binary.Words.{
  drop-encode_words, copy_at-encode_words, get_uint64-encode_words, get_uint64-drop,
  put_uint64-encode_words,
}
use hypersdk.Fees.Window.{roll, sum_from, sum, update, saturated, window_size, window_slice_size}

abbrev pub total : List ℕ → ℕ
total [] = 0
total (w ∷ ws) = w + total ws

-- Ten values of type uint64.
abbrev pub IsSlots : List ℕ → Type 0
IsSlots ws = (length ws ≡ window_size) × AllUint64 ws

zeros : replicate window_slice_size 0 ≡ encode_words (replicate window_size 0)
unfolding encode_words uint64_bytes
zeros = refl

-- Writing over zeros from the front leaves the zeros behind.
copy_at-zeros :
    (n : ℕ) (ws : List ℕ)
    → length ws ≤ n
    → copy_at (replicate n 0) 0 ws ≡ ws ++ replicate (n - length ws) 0
unfolding copy_at
copy_at-zeros zero [] h = refl
copy_at-zeros zero (w ∷ ws) h = absurd (omega arith)
copy_at-zeros (suc n) [] h = let e : suc n ≡ suc n - 0 = omega arith in ap (λ k. replicate k 0) e
copy_at-zeros (suc n) (w ∷ ws) h =
    let e : n - length ws ≡ suc n - suc (length ws) = omega arith in
    ap (◌∷◌ w) (copy_at-zeros n ws (omega arith) ∙ ap (λ k. ws ++ replicate k 0) e)

-- `Roll` by `n` forgets the `n` oldest values and appends as many zeros, all ten from ten on.
pub roll_lem :
    (ws : List ℕ) (n : ℕ)
    → IsSlots ws
    → roll (encode_words ws) n ≡ encode_words (drop n ws ++ replicate (min n window_size) 0)
unfolding roll
roll_lem ws n h = elim (Bool-cases (ltb window_size n)) [
  | inl e ↦
      let all : window_size ≡ min n window_size = ground arith in
      rw e (
        zeros
        ∙ ap encode_words (
            ap₂ (λ xs k. xs ++ replicate k 0) (sym (drop-of_length_le n ws (ground (arith, h.0))))
              all))
  | inr e ↦
      let rolled : window_size - length (drop n ws) ≡ min n window_size =
        ground (arith, length-drop n ws, h.0) in
      rw e (
        ap₂ (λ z xs. copy_at z 0 xs) zeros
          (ap (λ k. drop k (encode_words ws)) (mul_comm n 8) ∙ drop-encode_words n ws)
        ∙ copy_at-encode_words (replicate window_size 0) 0 (drop n ws)
        ∙ ap encode_words (
            copy_at-zeros window_size (drop n ws) (omega (arith, length-drop n ws, h.0))
            ∙ ap (λ k. drop n ws ++ replicate k 0) rolled))
]

module _ ⦃m : CheckedMath⦄ where
  sum_from_step :
      (n acc v : ℕ) (w rest : Bytes)
      → get_uint64 w ≡ v
      → drop 8 w ≡ rest
      → acc ≤ max_uint64
      → v ≤ max_uint64
      → sum_from (suc n) acc w
        ≡ (if leb (acc + v) max_uint64 then sum_from n (acc + v) rest else max_uint64)
  unfolding sum_from
  sum_from_step n acc v w rest e f p q = elim (Bool-cases (leb (acc + v) max_uint64)) [
    | inl b ↦
        let added : m.add acc (get_uint64 w) ≡ some (acc + v) =
          ap (m.add acc) e ∙ ground (arith, m.add_lem acc v) in
        rw (added, b, sum_from) (ap (sum_from n (acc + v)) f)
    | inr b ↦
        let failed : m.add acc (get_uint64 w) ≡ none =
          ap (m.add acc) e ∙ ground (arith, m.add_lem acc v) in
        rw (failed, b, sum_from)
  ]

  sum_from_lem :
      (ws : List ℕ) (acc : ℕ)
      → acc ≤ max_uint64
      → AllUint64 ws
      → sum_from (length ws) acc (encode_words ws) ≡ min (acc + total ws) max_uint64
  sum_from_lem [] acc h p = unfold sum_from in omega arith
  sum_from_lem (w ∷ ws) acc h p =
      sum_from_step (length ws) acc w (encode_words (w ∷ ws)) (encode_words ws)
        (get_uint64-encode_words w ws p.0) (drop-encode_words 1 (w ∷ ws)) h p.0
      ∙ ground (arith, λ (q : acc + w ≤ max_uint64). sum_from_lem ws (acc + w) q p.1)

  -- `Sum` is the exact sum of the ten values, or the largest uint64 if that is smaller.
  pub sum_lem : (ws : List ℕ) → IsSlots ws → sum (encode_words ws) ≡ min (total ws) max_uint64
  unfolding sum
  sum_lem ws h =
      ap (λ n. sum_from n 0 (encode_words ws)) (sym h.0)
      ∙ sum_from_lem ws 0 (omega arith) h.1
      ∙ ap (λ t. min t max_uint64) (zero-add (total ws))

  -- `Update` at the `i`th value adds to that value, up to the largest uint64.
  pub update_lem :
      (ws : List ℕ) (i units w : ℕ) (rest : List ℕ)
      → units ≤ max_uint64
      → w ≤ max_uint64
      → drop i ws ≡ w ∷ rest
      → update (encode_words ws) (8 * i) units
        ≡ encode_words (copy_at ws i (min (w + units) max_uint64 ∷ []))
  unfolding update
  update_lem ws i units w rest h p e =
      ap (put_uint64 (encode_words ws) (8 * i)) (
        ap (λ k. saturated (m.add k units)) (get_uint64-drop ws i w rest e p)
        ∙ ground (arith, m.add_lem w units))
      ∙ put_uint64-encode_words ws i (min (w + units) max_uint64)

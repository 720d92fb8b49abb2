-- ===== src/Fees/Manager/Layout.antt =====
-- internal/fees/manager.go: the array as a record for each dimension.
use hypersdk.Base.{
  ℕ, ◌+◌, ◌*◌, ◌≤◌, ◌≡◌, refl, ap, sym, ◌∙◌, List, [], ◌∷◌, ◌++◌, Bytes, length, take, drop,
  length-append, append_assoc, append-nil, arith,
}
use hypersdk.Math.Checked.{max_uint64}
use hypersdk.Binary.{get_uint64, put_uint64, copy_at, encode_words}
use hypersdk.Binary.Words.{
  drop-append, take-append, copy_at-append, drop-encode_words, take-encode_words,
  copy_at-encode_words, get_uint64-encode_words, put_uint64-copy_at, copy_at-nil, copy_at-zero,
}
use hypersdk.Fees.Window.{window_size}
use hypersdk.Fees.Window.Slots.{IsSlots}
use hypersdk.Fees.Manager.{
  dimension_state_len, unit_price, window, last_consumed, set_unit_price, set_last_consumed,
}

pub record Dim : Type 0 where
  pub price : ℕ
  pub slots : List ℕ
  pub consumed : ℕ

abbrev pub IsDim : Dim → Type 0
IsDim x = IsSlots x.slots × (x.price ≤ max_uint64) × (x.consumed ≤ max_uint64)

abbrev pub AllDim : List Dim → Type 0
AllDim [] = Unit
AllDim (x ∷ xs) = IsDim x × AllDim xs

-- The words of the dimensions, one after the other.
unfoldable pub flat : List Dim → List ℕ
flat [] = []
flat (x ∷ xs) = x.price ∷ (x.slots ++ x.consumed ∷ flat xs)

-- The array of a manager: the timestamp and the dimensions.
abbrev pub layout : ℕ → List Dim → Bytes
layout time dims = encode_words (time ∷ flat dims)

pub length-flat : (dims : List Dim) → AllDim dims → length (flat dims) ≡ 12 * length dims
unfolding flat
length-flat [] h = refl
length-flat (x ∷ xs) h =
    omega (arith, length-append x.slots (x.consumed ∷ flat xs), length-flat xs h.1, h.0.0.0)

flat-append : (xs ys : List Dim) → flat (xs ++ ys) ≡ flat xs ++ flat ys
unfolding flat
flat-append [] ys = refl
flat-append (x ∷ xs) ys = ap (◌∷◌ x.price) (
    ap (λ r. x.slots ++ x.consumed ∷ r) (flat-append xs ys)
    ∙ sym (append_assoc x.slots (x.consumed ∷ flat xs) (flat ys)))

module _ (time : ℕ) (pre : List Dim) (x : Dim) (post : List Dim) (p : AllDim pre)
    (h : IsDim x) where
  -- The words before the dimension.
  abbrev before : List ℕ
  before = time ∷ flat pre

  whole : time ∷ flat (pre ++ x ∷ post) ≡ before ++ flat (x ∷ post)
  whole = ap (◌∷◌ time) (flat-append pre (x ∷ post))

  size : length before ≡ 1 + 12 * length pre
  size = omega (arith, length-flat pre p)

  -- The array from `n` words into the dimension on.
  drop-layout :
      (start n : ℕ)
      → start ≡ 8 + dimension_state_len * length pre + 8 * n
      → drop start (layout time (pre ++ x ∷ post)) ≡ encode_words (drop n (flat (x ∷ post)))
  drop-layout start n e =
      let words : start ≡ 8 * (length before + n) = omega (arith, size) in
      ap (λ k. drop k (layout time (pre ++ x ∷ post))) words
      ∙ drop-encode_words (length before + n) (time ∷ flat (pre ++ x ∷ post))
      ∙ ap encode_words
          (ap (drop (length before + n)) whole ∙ drop-append before (flat (x ∷ post)) n)

  -- The same with the `n` words there replaced.
  copy_at-layout :
      (start n : ℕ) (vs : List ℕ) (y : Dim)
      → start ≡ 8 + dimension_state_len * length pre + 8 * n
      → copy_at (flat (x ∷ post)) n vs ≡ flat (y ∷ post)
      → copy_at (layout time (pre ++ x ∷ post)) start (encode_words vs)
        ≡ layout time (pre ++ y ∷ post)
  copy_at-layout start n vs y e f =
      let words : start ≡ 8 * (length before + n) = omega (arith, size) in
      ap (λ k. copy_at (layout time (pre ++ x ∷ post)) k (encode_words vs)) words
      ∙ copy_at-encode_words (time ∷ flat (pre ++ x ∷ post)) (length before + n) vs
      ∙ ap encode_words (
          ap (λ ws. copy_at ws (length before + n) vs) whole
          ∙ copy_at-append before (flat (x ∷ post)) vs n
          ∙ ap (◌++◌ before) f
          ∙ sym (ap (◌∷◌ time) (flat-append pre (y ∷ post))))

  pub unit_price-layout : unit_price (layout time (pre ++ x ∷ post)) (length pre) ≡ x.price
  unfolding unit_price flat
  unit_price-layout =
      ap (λ b. get_uint64 (take 8 b)) (drop-layout _ 0 (omega arith))
      ∙ ap get_uint64 (take-encode_words 1 (flat (x ∷ post)))
      ∙ get_uint64-encode_words x.price [] h.1

  pub window-layout : window (layout time (pre ++ x ∷ post)) (length pre) ≡ encode_words x.slots
  unfolding window flat
  window-layout =
      ap (take 80) (drop-layout _ 1 (omega arith))
      ∙ take-encode_words 10 (x.slots ++ x.consumed ∷ flat post)
      ∙ ap encode_words (
          ap (λ k. take k (x.slots ++ x.consumed ∷ flat post)) ten
          ∙ take-append x.slots (x.consumed ∷ flat post) 0
          ∙ append-nil x.slots)
    where
      ten : 10 ≡ length x.slots + 0
      ten = omega (arith, h.0.0)

  pub last_consumed-layout : last_consumed (layout time (pre ++ x ∷ post)) (length pre) ≡ x.consumed
  unfolding last_consumed flat
  last_consumed-layout =
      ap (λ b. get_uint64 (take 8 b))
        (drop-layout _ 11 (omega arith)
          ∙ ap encode_words (
              ap (λ k. drop k (x.slots ++ x.consumed ∷ flat post)) ten
              ∙ drop-append x.slots (x.consumed ∷ flat post) 0))
      ∙ ap get_uint64 (take-encode_words 1 (x.consumed ∷ flat post))
      ∙ get_uint64-encode_words x.consumed [] h.2
    where
      ten : 10 ≡ length x.slots + 0
      ten = omega (arith, h.0.0)

  pub set_unit_price-layout :
      (v : ℕ)
      → set_unit_price (layout time (pre ++ x ∷ post)) (length pre) v
        ≡ layout time (pre ++ record x { price = v } ∷ post)
  unfolding set_unit_price
  set_unit_price-layout v =
      put_uint64-copy_at (layout time (pre ++ x ∷ post)) _ v
      ∙ copy_at-layout _ 0 (v ∷ []) (record x { price = v }) (omega arith)
          (unfold flat copy_at in ap (◌∷◌ v) (copy_at-nil (x.slots ++ x.consumed ∷ flat post)))

  pub set_last_consumed-layout :
      (v : ℕ)
      → set_last_consumed (layout time (pre ++ x ∷ post)) (length pre) v
        ≡ layout time (pre ++ record x { consumed = v } ∷ post)
  unfolding set_last_consumed
  set_last_consumed-layout v =
      put_uint64-copy_at (layout time (pre ++ x ∷ post)) _ v
      ∙ copy_at-layout _ 11 (v ∷ []) (record x { consumed = v }) (omega arith) replaced
    where
      ten : 10 ≡ length x.slots + 0
      ten = omega (arith, h.0.0)

      replaced : copy_at (flat (x ∷ post)) 11 (v ∷ []) ≡ flat (record x { consumed = v } ∷ post)
      replaced =
          unfold flat copy_at in
          ap (◌∷◌ x.price) (
            ap (λ k. copy_at (x.slots ++ x.consumed ∷ flat post) k (v ∷ [])) ten
            ∙ copy_at-append x.slots (x.consumed ∷ flat post) (v ∷ []) 0
            ∙ ap (λ r. x.slots ++ v ∷ r) (copy_at-nil (flat post)))

  pub set_slots-layout :
      (slots : List ℕ)
      → length slots ≡ window_size
      → copy_at
          (layout time (pre ++ x ∷ post))
          (8 + dimension_state_len * length pre + 8)
          (encode_words slots)
        ≡ layout time (pre ++ record x { slots = slots } ∷ post)
  set_slots-layout slots e =
      copy_at-layout _ 1 slots (record x { slots = slots }) (omega arith) replaced
    where
      replaced : copy_at (flat (x ∷ post)) 1 slots ≡ flat (record x { slots = slots } ∷ post)
      replaced =
          unfold flat copy_at in
          ap (◌∷◌ x.price) (
            ap (copy_at (x.slots ++ x.consumed ∷ flat post) 0) (sym (append-nil slots))
            ∙ copy_at-zero x.slots (x.consumed ∷ flat post) [] window_size h.0.0 slots e
            ∙ ap (◌++◌ slots) (copy_at-nil (x.consumed ∷ flat post)))

-- A price and a window written behind it replace both.
pub write-layout :
    (time : ℕ) (pre : List Dim) (x : Dim) (post : List Dim) (v : ℕ) (slots : List ℕ)
    → AllDim pre
    → IsDim x
    → v ≤ max_uint64
    → length slots ≡ window_size
    → copy_at
        (put_uint64 (layout time (pre ++ x ∷ post)) (8 + dimension_state_len * length pre) v)
        (8 + dimension_state_len * length pre + 8)
        (encode_words slots)
      ≡ layout time (pre ++ record x { price = v; slots = slots } ∷ post)
unfolding set_unit_price
write-layout time pre x post v slots p h b e =
    ap (λ r. copy_at r (8 + dimension_state_len * length pre + 8) (encode_words slots))
      (set_unit_price-layout time pre x post p h v)
    ∙ set_slots-layout time pre (record x { price = v }) post p (h.0, b, h.2) slots e

-- ===== src/Fees/Dimensions/Exact.antt =====
-- fees/dimension.go: the checked sums against exact arithmetic.
use mathlib.Core.Path.{ap₂}
use native.Mathlib.Nat.{zero-add}
use hypersdk.Base.{
  ℕ, ◌+◌, ◌*◌, ◌≤◌, ◌≡◌, refl, ap, sym, ◌∙◌, ◌↔◌, Bool, true, ◌&&◌, List, [], ◌∷◌, none, some, leb,
  if◌then◌else◌, length, arith,
}
use hypersdk.Math.Checked.{CheckedMath, max_uint64}
use hypersdk.Binary.{encode_words, AllUint64}
use hypersdk.Binary.Words.{length-encode_words, drop-encode_words, get_uint64-encode_words}
use hypersdk.Fees.Dimensions.{
  Dimensions, add, mul_sum_from, mul_sum, can_add, bytes, unpack_words, unpack_dimensions,
  fee_dimensions,
}

-- The exact inner product.
abbrev pub dot : Dimensions → Dimensions → ℕ
dot (a ∷ as') (b ∷ bs) = a * b + dot as' bs
dot _ _ = 0

-- The exact sums, dimension by dimension.
abbrev pub sums : Dimensions → Dimensions → Dimensions
sums (a ∷ as') (b ∷ bs) = (a + b) ∷ sums as' bs
sums _ _ = []

-- Every entry of the first is at most that of the second.
abbrev pub AllLe : Dimensions → Dimensions → Type 0
AllLe (a ∷ as') (b ∷ bs) = (a ≤ b) × AllLe as' bs
AllLe _ _ = Unit

abbrev pub all_uint64 : Dimensions → Bool
all_uint64 [] = true
all_uint64 (d ∷ ds) = leb d max_uint64 && all_uint64 ds

module _ ⦃m : CheckedMath⦄ where
  mul_sum_from_lem :
      (val : ℕ) (a b : Dimensions)
      → val ≤ max_uint64
      → AllUint64 a
      → AllUint64 b
      → mul_sum_from val a b
        ≡ (if leb (val + dot a b) max_uint64 then some (val + dot a b) else none)
  unfolding mul_sum_from
  mul_sum_from_lem val [] b h p q = ground arith
  mul_sum_from_lem val (a ∷ as') [] h p q = ground arith
  mul_sum_from_lem val (a ∷ as') (b ∷ bs) h p q = ground (
    arith,
    m.mul_lem a b,
    m.add_lem val (a * b),
    (λ (r : val + a * b ≤ max_uint64). mul_sum_from_lem (val + a * b) as' bs r p.1 q.1),
  )

  -- `MulSum` is the exact inner product if that is a uint64, and an error if it is not.
  pub mul_sum_exact :
      (a b : Dimensions)
      → AllUint64 a
      → AllUint64 b
      → mul_sum a b ≡ (if leb (dot a b) max_uint64 then some (dot a b) else none)
  unfolding mul_sum
  mul_sum_exact a b p q = rw zero-add at (mul_sum_from_lem 0 a b (omega arith) p q)

  -- `Add` gives the exact sums if each is a uint64, and an error if one is not.
  pub add_exact :
      (a b : Dimensions)
      → AllUint64 a
      → AllUint64 b
      → add a b ≡ (if all_uint64 (sums a b) then some (sums a b) else none)
  unfolding add
  add_exact [] b p q = refl
  add_exact (a ∷ as') [] p q = refl
  add_exact (a ∷ as') (b ∷ bs) p q = ground (arith, m.add_lem a b, add_exact as' bs p.1 q.1)

  -- `CanAdd` holds exactly if every exact sum is within its limit.
  pub can_add_exact :
      (d a l : Dimensions)
      → length a ≡ length d
      → length l ≡ length d
      → AllUint64 d
      → AllUint64 a
      → AllUint64 l
      → (can_add d a l ≡ true) ↔ AllLe (sums d a) l
  unfolding can_add
  can_add_exact [] a l e f p q r = (λ _. tt, λ _. refl)
  can_add_exact (d ∷ ds) [] l e f p q r = absurd (omega arith)
  can_add_exact (d ∷ ds) (a ∷ as') [] e f p q r = absurd (omega arith)
  can_add_exact (d ∷ ds) (a ∷ as') (l ∷ ls) e f p q r =
      let ih = can_add_exact ds as' ls (omega arith) (omega arith) p.1 q.1 r.1 in
      (
        λ h. (ground (arith, m.add_lem d a), ih.0 (ground (arith, m.add_lem d a))),
        λ h. ground (arith, m.add_lem d a, ih.1 h.1),
      )

unpack_words_lem : (ws : List ℕ) → AllUint64 ws → unpack_words (length ws) (encode_words ws) ≡ ws
unfolding unpack_words
unpack_words_lem [] h = refl
unpack_words_lem (w ∷ ws) h =
    ap₂ ◌∷◌ (get_uint64-encode_words w ws h.0)
      (ap (unpack_words (length ws)) (drop-encode_words 1 (w ∷ ws)) ∙ unpack_words_lem ws h.1)

-- What `Bytes` writes of five uint64 values, `UnpackDimensions` reads back.
pub unpack_dimensions-bytes :
    (d : Dimensions)
    → length d ≡ fee_dimensions
    → AllUint64 d
    → unpack_dimensions (bytes d) ≡ some d
unfolding unpack_dimensions bytes
unpack_dimensions-bytes d e h =
    let read : unpack_words fee_dimensions (encode_words d) ≡ d =
      ap (λ n. unpack_words n (encode_words d)) (sym e) ∙ unpack_words_lem d h in
    ground (arith, length-encode_words d, read)

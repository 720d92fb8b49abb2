-- ===== src/Fees/Dimensions.antt =====
-- fees/dimension.go: one uint64 for each of the five dimensions. The array is a list of five, and
-- the loop over the dimensions the recursion on it.
pub mod Exact
use hypersdk.Base.{
  ℕ, zero, suc, ◌+◌, ◌*◌, ◌≤◌, ◌≡◌, Bool, true, false, List, [], ◌∷◌, ◌++◌, Option, none, some,
  Bytes, ltb, leb, nat_eq, not, if◌then◌else◌, length, drop,
}
use hypersdk.Math.Checked.{CheckedMath, max_uint64}
use hypersdk.Binary.{get_uint64, encode_words}

abbrev pub fee_dimensions : ℕ
fee_dimensions = 5

abbrev pub dimensions_len : ℕ
dimensions_len = 40

abbrev pub Dimensions : Type 0
Dimensions = List ℕ

abbrev prepend : ℕ → Option (List ℕ) → Option (List ℕ)
prepend v none = none
prepend v (some d) = some (v ∷ d)

module _ ⦃m : CheckedMath⦄ where
  -- `Add`, of two dimensions; `none` for an error
  unfoldable pub add : Dimensions → Dimensions → Option Dimensions
  add (a ∷ as') (b ∷ bs) = elim (m.add a b) [ none ↦ none | some v ↦ prepend v (add as' bs) ]
  add _ _ = some []

  -- The loop of `MulSum`, from the value reached.
  unfoldable pub mul_sum_from : ℕ → Dimensions → Dimensions → Option ℕ
  mul_sum_from val (a ∷ as') (b ∷ bs) = elim (m.mul a b) [
    | none ↦ none
    | some v ↦ elim (m.add val v) [ none ↦ none | some total ↦ mul_sum_from total as' bs ]
  ]
  mul_sum_from val _ _ = some val

  -- `MulSum`
  unfoldable pub mul_sum : Dimensions → Dimensions → Option ℕ
  unfolding mul_sum_from
  mul_sum a b = mul_sum_from 0 a b

  -- `CanAdd`
  unfoldable pub can_add : Dimensions → Dimensions → Dimensions → Bool
  can_add (d ∷ ds) (a ∷ as') (l ∷ ls) = elim (m.add d a) [
    | none ↦ false
    | some consumed ↦ if ltb l consumed then false else can_add ds as' ls
  ]
  can_add _ _ _ = true

-- `Bytes`
unfoldable pub bytes : Dimensions → Bytes
unfolding encode_words
bytes d = encode_words d

-- `Greater`
unfoldable pub greater : Dimensions → Dimensions → Bool
greater (d ∷ ds) (o ∷ os) = if ltb d o then false else greater ds os
greater _ _ = true

-- The loop of `UnpackDimensions` over the dimensions left.
unfoldable pub unpack_words : ℕ → Bytes → Dimensions
unpack_words zero raw = []
unpack_words (suc n) raw = get_uint64 raw ∷ unpack_words n (drop 8 raw)

-- `UnpackDimensions`; `none` for the wrong size
unfoldable pub unpack_dimensions : Bytes → Option Dimensions
unfolding unpack_words
unpack_dimensions raw =
    if nat_eq (length raw) dimensions_len then some (unpack_words fee_dimensions raw) else none

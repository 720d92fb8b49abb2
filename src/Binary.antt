-- ===== src/Binary.antt =====
-- Go's encoding/binary and `copy`, as the sources use them: big-endian uint64 values in a byte
-- array, and arrays that are made of such values. A read or write past the end panics in Go and
-- falls short here; what is proved is about arrays that hold what is read.
pub mod Words
use native.Mathlib.Nat.{pow-suc, mul_comm}
use hypersdk.Base.{
  ℕ, zero, suc, ◌+◌, ◌-◌, ◌*◌, ◌/◌, ◌%◌, ◌^◌, ◌≤◌, ◌<◌, ◌≡◌, refl, ap, ◌∙◌, sym, List, [], ◌∷◌,
  ◌++◌, Bytes, length, take, drop, length-append, append_assoc, arith,
}
use hypersdk.Math.Checked.{max_uint64}

-- The number that a byte array spells, big end first.
unfoldable pub be_value : ℕ → Bytes → ℕ
be_value acc [] = acc
be_value acc (b ∷ bs) = be_value (acc * 256 + b) bs

-- The `n` bytes of a number, big end first.
unfoldable pub be_bytes : ℕ → ℕ → Bytes
be_bytes zero v = []
be_bytes (suc n) v = be_bytes n (v / 256) ++ v % 256 ∷ []

-- `binary.BigEndian.Uint64`
unfoldable pub get_uint64 : Bytes → ℕ
unfolding be_value
get_uint64 b = be_value 0 (take 8 b)

-- The bytes that `binary.BigEndian.PutUint64` writes.
unfoldable pub uint64_bytes : ℕ → Bytes
unfolding be_bytes
uint64_bytes v = be_bytes 8 v

module _ {ℓ} {A : Type ℓ} where
  -- `copy(dst[offset:], src)`
  unfoldable pub copy_at : List A → ℕ → List A → List A
  copy_at [] offset src = []
  copy_at (x ∷ dst) (suc offset) src = x ∷ copy_at dst offset src
  copy_at (x ∷ dst) zero [] = x ∷ dst
  copy_at (x ∷ dst) zero (y ∷ src) = y ∷ copy_at dst zero src

-- `binary.BigEndian.PutUint64(dst[offset:], v)`
unfoldable pub put_uint64 : Bytes → ℕ → ℕ → Bytes
unfolding copy_at uint64_bytes
put_uint64 dst offset v = copy_at dst offset (uint64_bytes v)

-- The array that holds the given values one after the other.
unfoldable pub encode_words : List ℕ → Bytes
unfolding uint64_bytes
encode_words [] = []
encode_words (w ∷ ws) = uint64_bytes w ++ encode_words ws

abbrev pub AllUint64 : List ℕ → Type 0
AllUint64 [] = Unit
AllUint64 (w ∷ ws) = (w ≤ max_uint64) × AllUint64 ws

be_value-append :
    (acc : ℕ) (xs : Bytes) (b : ℕ) → be_value acc (xs ++ b ∷ []) ≡ be_value acc xs * 256 + b
unfolding be_value
be_value-append acc [] b = refl
be_value-append acc (x ∷ xs) b = be_value-append (acc * 256 + x) xs b

be_value-be_bytes : (n v : ℕ) → v < 256 ^ n → be_value 0 (be_bytes n v) ≡ v
unfolding be_bytes
be_value-be_bytes zero v h = unfold be_value in omega arith
be_value-be_bytes (suc n) v h =
    be_value-append 0 (be_bytes n (v / 256)) (v % 256)
    ∙ omega (arith, be_value-be_bytes n (v / 256) small)
  where
    small : v / 256 < 256 ^ n
    small = omega (arith, pow-suc 256 n)

pub length-be_bytes : (n v : ℕ) → length (be_bytes n v) ≡ n
unfolding be_bytes
length-be_bytes zero v = refl
length-be_bytes (suc n) v =
    omega (arith, length-append (be_bytes n (v / 256)) (v % 256 ∷ []), length-be_bytes n (v / 256))

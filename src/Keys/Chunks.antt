-- ===== src/Keys/Chunks.antt =====
-- keys/keys.go: what an encoded key admits.
use hypersdk.Base.{
  ℕ, ◌+◌, ◌-◌, ◌*◌, ◌≤◌, ◌<◌, ◌≡◌, refl, ◌↔◌, ◌⊎◌, inl, inr, true, [], ◌∷◌, ◌++◌, some, Bytes,
  length, drop, length-append, arith, Option-cases,
}
use hypersdk.Keys.{
  max_chunks, chunks_of_length, verify_value, verify, encode_chunks, encode, decode_chunks,
  uint16_bytes, max_uint16, chunk_size,
}

drop-append : (xs ys : Bytes) → drop (length xs) (xs ++ ys) ≡ ys
drop-append [] ys = refl
drop-append (x ∷ xs) ys = drop-append xs ys

-- A key extended by a chunk bound below 2 ^ 16 decodes to that bound.
pub decode_chunks-encode_chunks :
    (key : Bytes) (max : ℕ) → max ≤ max_uint16 → decode_chunks (encode_chunks key max) ≡ some max
unfolding decode_chunks encode_chunks
decode_chunks-encode_chunks key max h =
    let size = length-append key (uint16_bytes max) in
    let cut : length (key ++ uint16_bytes max) - 2 ≡ length key = omega (arith, size) in
    rw (cut, drop-append) (ground (arith, size))

length-encode_chunks : (key : Bytes) (max : ℕ) → length (encode_chunks key max) ≡ length key + 2
unfolding encode_chunks
length-encode_chunks key max = length-append key (uint16_bytes max)

pub max_chunks-decode_chunks : (key : Bytes) → max_chunks key ≡ decode_chunks key
unfolding max_chunks decode_chunks
max_chunks-decode_chunks key = refl

-- A key that declares `max` chunks takes exactly the values that are empty or shorter than `max`
-- times 64 bytes.
pub verify_value-encode_chunks :
    (key value : Bytes) (max : ℕ)
    → max ≤ max_uint16
    → (verify_value (encode_chunks key max) value ≡ true)
      ↔ ((length value ≡ 0) ⊎ (length value < chunk_size * max))
unfolding verify_value
verify_value-encode_chunks key value max h =
    rw (max_chunks-decode_chunks, decode_chunks-encode_chunks key max h)
      (λ e. ground arith, λ e. ground arith)

encode-some :
    (key : Bytes) (max_size : ℕ) {k : Bytes}
    → encode key max_size ≡ some k
    → (n : ℕ) × (chunks_of_length max_size ≡ some n) × (k ≡ encode_chunks key n)
unfolding encode
encode-some key max_size h = elim (Option-cases (chunks_of_length max_size)) [
  | inl e ↦ cc e
  | inr (n, e) ↦ (n, e, ground (arith, e))
]

chunks_cover :
    (size max_size n : ℕ)
    → chunks_of_length max_size ≡ some n
    → size ≤ max_size
    → (n ≤ max_uint16) × ((size ≡ 0) ⊎ (size < chunk_size * n))
unfolding chunks_of_length
chunks_cover size max_size n e h = (ground arith, ground arith)

-- A key encoded for values of up to `max_size` bytes takes every value of at most that size.
pub verify_value-encode :
    (key value : Bytes) (max_size : ℕ) {k : Bytes}
    → encode key max_size ≡ some k
    → length value ≤ max_size
    → verify_value k value ≡ true
verify_value-encode key value max_size h p =
    let (n, e, same) = encode-some key max_size h in
    let (small, covered) = chunks_cover (length value) max_size n e p in
    rw same ((verify_value-encode_chunks key value n small).1 covered)

-- A key that declares `max` chunks passes `Verify` exactly if its length with the two bytes of the
-- suffix and `max` keep to the bounds given.
pub verify-encode_chunks :
    (size chunks : ℕ) (key : Bytes) (max : ℕ)
    → max ≤ max_uint16
    → (verify size chunks (encode_chunks key max) ≡ true)
      ↔ ((length key + 2 ≤ size) × (max ≤ chunks))
unfolding verify
verify-encode_chunks size chunks key max h =
    rw (max_chunks-decode_chunks, decode_chunks-encode_chunks key max h)
      (λ e. (ground (arith, size_lem), ground (arith, size_lem)), λ e. ground (arith, size_lem))
  where
    size_lem : length (encode_chunks key max) ≡ length key + 2
    size_lem = length-encode_chunks key max

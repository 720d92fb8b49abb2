-- ===== src/Keys/Tests.antt =====
-- keys: runs at concrete inputs.
use hypersdk.Base.{
  ◌+◌, ◌*◌, ◌≤◌, ◌<◌, ◌≡◌, refl, ◌↔◌, ◌⊎◌, true, [], ◌∷◌, some, Bytes, length, replicate, arith,
}
use hypersdk.Keys.{verify_value, verify, encode_chunks, encode, decode_chunks, chunk_size}
use hypersdk.Keys.Chunks.{
  decode_chunks-encode_chunks, verify_value-encode_chunks, verify-encode_chunks,
}

abbrev name : Bytes
name = 1 ∷ 2 ∷ 3 ∷ []

abbrev value : Bytes
value = replicate 64 7

decode_chunks-encode_chunks_example : decode_chunks (encode_chunks name 300) ≡ some 300
decode_chunks-encode_chunks_example = decode_chunks-encode_chunks name 300 (omega arith)

verify_value-encode_chunks_example :
    (verify_value (encode_chunks name 2) value ≡ true)
    ↔ ((length value ≡ 0) ⊎ (length value < chunk_size * 2))
verify_value-encode_chunks_example = verify_value-encode_chunks name value 2 (omega arith)

-- A value of exactly 64 bytes takes two chunks.
encode-name : encode name 64 ≡ some (encode_chunks name 2)
unfolding encode
encode-name = refl

verify-encode_chunks_example :
    (verify 8 4 (encode_chunks name 2) ≡ true) ↔ ((length name + 2 ≤ 8) × (2 ≤ 4))
verify-encode_chunks_example = verify-encode_chunks 8 4 name 2 (omega arith)

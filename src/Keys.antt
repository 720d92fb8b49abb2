-- ===== src/Keys.antt =====
-- keys/keys.go: state keys, whose last two bytes bound the size of the value in chunks.
pub mod Chunks
mod Tests
use hypersdk.Base.{
  ℕ, ◌+◌, ◌-◌, ◌*◌, ◌/◌, ◌%◌, Bool, true, false, List, [], ◌∷◌, ◌++◌, Option, none, some, Bytes,
  length, drop, ltb, leb, nat_eq, if◌then◌else◌,
}

-- bytes
abbrev pub chunk_size : ℕ
chunk_size = 64

abbrev pub uint16_len : ℕ
uint16_len = 2

abbrev pub max_uint16 : ℕ
max_uint16 = 65535

-- `binary.BigEndian.Uint16`, for a slice of two bytes or more
abbrev pub get_uint16 : Bytes → ℕ
get_uint16 (hi ∷ lo ∷ _) = hi * 256 + lo
get_uint16 _ = 0

-- The two bytes that `binary.BigEndian.AppendUint16` adds.
abbrev pub uint16_bytes : ℕ → Bytes
uint16_bytes n = n / 256 ∷ n % 256 ∷ []

unfoldable pub valid : Bytes → Bool
valid key = leb uint16_len (length key)

-- `none` for the result `0, false`
unfoldable pub max_chunks : Bytes → Option ℕ
max_chunks key =
    if ltb (length key) uint16_len
    then none
    else some (get_uint16 (drop (length key - uint16_len) key))

unfoldable pub chunks_of_length : ℕ → Option ℕ
chunks_of_length value_len =
    if nat_eq value_len 0
    then some 0
    else let raw = value_len / chunk_size + 1 in if ltb max_uint16 raw then none else some raw

unfoldable pub num_chunks : Bytes → Option ℕ
unfolding chunks_of_length
num_chunks value = chunks_of_length (length value)

-- The chunks of a value against those of its key.
abbrev fits : Option ℕ → Option ℕ → Bool
fits (some value_chunks) (some key_chunks) = leb value_chunks key_chunks
fits _ _ = false

-- `uint32(len(key))` is the length: a key of 4 GiB is out of scope.
unfoldable pub verify : ℕ → ℕ → Bytes → Bool
unfolding max_chunks
verify max_key_size max_value_chunks key =
    if ltb max_key_size (length key)
    then false
    else elim (max_chunks key) [ none ↦ false | some key_chunks ↦ leb key_chunks max_value_chunks ]

unfoldable pub verify_value : Bytes → Bytes → Bool
unfolding num_chunks max_chunks
verify_value key value = fits (num_chunks value) (max_chunks key)

unfoldable pub encode_chunks : Bytes → ℕ → Bytes
encode_chunks key max = key ++ uint16_bytes max

unfoldable pub encode : Bytes → ℕ → Option Bytes
unfolding chunks_of_length encode_chunks
encode key max_size = elim (chunks_of_length max_size) [
  | none ↦ none
  | some n ↦ some (encode_chunks key n)
]

unfoldable pub decode_chunks : Bytes → Option ℕ
decode_chunks key =
    if ltb (length key) 2 then none else some (get_uint16 (drop (length key - 2) key))

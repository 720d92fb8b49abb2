-- ===== src/Binary/Words.antt =====
-- encoding/binary: reads and writes at the word boundaries of an array of uint64 values.
use native.Mathlib.Nat.{zero-add, suc-add}
use hypersdk.Base.{
  ℕ, zero, suc, ◌+◌, ◌*◌, ◌≤◌, ◌≡◌, refl, ap, ◌∙◌, sym, List, [], ◌∷◌, ◌++◌, Bytes, length, take,
  drop, length-append, append_assoc, append-nil, arith,
}
use hypersdk.Math.Checked.{max_uint64}
use hypersdk.Binary.{
  be_value, get_uint64, uint64_bytes, copy_at, put_uint64, encode_words, be_value-be_bytes,
  length-be_bytes,
}

pub take-append {ℓ} :
    {A : Type ℓ} (xs ys : List A) (n : ℕ) → take (length xs + n) (xs ++ ys) ≡ xs ++ take n ys
take-append [] ys n = rw zero-add
take-append (x ∷ xs) ys n = rw suc-add (ap (◌∷◌ x) (take-append xs ys n))

pub drop-append {ℓ} :
    {A : Type ℓ} (xs ys : List A) (n : ℕ) → drop (length xs + n) (xs ++ ys) ≡ drop n ys
drop-append [] ys n = rw zero-add
drop-append (x ∷ xs) ys n = rw suc-add (drop-append xs ys n)

drop-nil {ℓ} : {A : Type ℓ} (n : ℕ) → drop {A = A} n [] ≡ []
drop-nil zero = refl
drop-nil (suc n) = refl

take-nil {ℓ} : {A : Type ℓ} (n : ℕ) → take {A = A} n [] ≡ []
take-nil zero = refl
take-nil (suc n) = refl

pub copy_at-nil {ℓ} : {A : Type ℓ} (xs : List A) → copy_at xs 0 [] ≡ xs
unfolding copy_at
copy_at-nil [] = refl
copy_at-nil (x ∷ xs) = refl

pub copy_at_one {ℓ} : {A : Type ℓ} (x v : A) (xs : List A) → copy_at (x ∷ xs) 0 (v ∷ []) ≡ v ∷ xs
unfolding copy_at
copy_at_one x v xs = ap (◌∷◌ v) (copy_at-nil xs)

pub copy_at-append {ℓ} :
    {A : Type ℓ} (xs ys src : List A) (n : ℕ)
    → copy_at (xs ++ ys) (length xs + n) src ≡ xs ++ copy_at ys n src
unfolding copy_at
copy_at-append [] ys src n = rw zero-add
copy_at-append (x ∷ xs) ys src n = rw suc-add (ap (◌∷◌ x) (copy_at-append xs ys src n))

pub copy_at-zero {ℓ} :
    {A : Type ℓ} (xs ys src : List A)
    → (n : ℕ) → length xs ≡ n
    → (zs : List A) → length zs ≡ n
    → copy_at (xs ++ ys) 0 (zs ++ src) ≡ zs ++ copy_at ys 0 src
unfolding copy_at
copy_at-zero [] ys src n p [] q = refl
copy_at-zero [] ys src n p (z ∷ zs) q = absurd (omega arith)
copy_at-zero (x ∷ xs) ys src n p [] q = absurd (omega arith)
copy_at-zero (x ∷ xs) ys src n p (z ∷ zs) q =
    ap (◌∷◌ z) (copy_at-zero xs ys src (length xs) refl zs (omega arith))

pub length-uint64_bytes : (v : ℕ) → length (uint64_bytes v) ≡ 8
unfolding uint64_bytes
length-uint64_bytes v = length-be_bytes 8 v

pub length-encode_words : (ws : List ℕ) → length (encode_words ws) ≡ 8 * length ws
unfolding encode_words
length-encode_words [] = refl
length-encode_words (w ∷ ws) = omega (
  arith,
  length-append (uint64_bytes w) (encode_words ws),
  length-uint64_bytes w,
  length-encode_words ws,
)

pub encode_words-append :
    (xs ys : List ℕ) → encode_words (xs ++ ys) ≡ encode_words xs ++ encode_words ys
unfolding encode_words
encode_words-append [] ys = refl
encode_words-append (x ∷ xs) ys =
    ap (◌++◌ (uint64_bytes x)) (encode_words-append xs ys)
    ∙ sym (append_assoc (uint64_bytes x) (encode_words xs) (encode_words ys))

-- 8 more bytes than `8 * n`, as the length of one more word.
eight_more : (w n : ℕ) → 8 * suc n ≡ length (uint64_bytes w) + 8 * n
eight_more w n = omega (arith, length-uint64_bytes w)

pub drop-encode_words :
    (n : ℕ) (ws : List ℕ) → drop (8 * n) (encode_words ws) ≡ encode_words (drop n ws)
unfolding encode_words
drop-encode_words zero ws = refl
drop-encode_words (suc n) [] = drop-nil (8 * suc n)
drop-encode_words (suc n) (w ∷ ws) =
    ap (λ k. drop k (uint64_bytes w ++ encode_words ws)) (eight_more w n)
    ∙ drop-append (uint64_bytes w) (encode_words ws) (8 * n)
    ∙ drop-encode_words n ws

pub take-encode_words :
    (n : ℕ) (ws : List ℕ) → take (8 * n) (encode_words ws) ≡ encode_words (take n ws)
unfolding encode_words
take-encode_words zero ws = refl
take-encode_words (suc n) [] = take-nil (8 * suc n)
take-encode_words (suc n) (w ∷ ws) =
    ap (λ k. take k (uint64_bytes w ++ encode_words ws)) (eight_more w n)
    ∙ take-append (uint64_bytes w) (encode_words ws) (8 * n)
    ∙ ap (◌++◌ (uint64_bytes w)) (take-encode_words n ws)

pub get_uint64-encode_words :
    (w : ℕ) (ws : List ℕ) → w ≤ max_uint64 → get_uint64 (encode_words (w ∷ ws)) ≡ w
unfolding get_uint64 encode_words
get_uint64-encode_words w ws h =
    ap (be_value 0) (
      ap (λ k. take k (uint64_bytes w ++ encode_words ws)) (eight_more w 0)
      ∙ take-append (uint64_bytes w) (encode_words ws) 0
      ∙ append-nil (uint64_bytes w))
    ∙ spelled
  where
    spelled : be_value 0 (uint64_bytes w) ≡ w
    spelled = unfold uint64_bytes in be_value-be_bytes 8 w (omega arith)

pub copy_at-encode_words :
    (ws : List ℕ) (n : ℕ) (vs : List ℕ)
    → copy_at (encode_words ws) (8 * n) (encode_words vs) ≡ encode_words (copy_at ws n vs)
unfolding encode_words
copy_at-encode_words [] n vs = unfold copy_at in refl
copy_at-encode_words (w ∷ ws) (suc n) vs =
    ap (λ k. copy_at (uint64_bytes w ++ encode_words ws) k (encode_words vs)) (eight_more w n)
    ∙ copy_at-append (uint64_bytes w) (encode_words ws) (encode_words vs) (8 * n)
    ∙ ap (◌++◌ (uint64_bytes w)) (copy_at-encode_words ws n vs)
    ∙ (unfold copy_at in refl)
copy_at-encode_words (w ∷ ws) zero [] = unfold copy_at in refl
copy_at-encode_words (w ∷ ws) zero (v ∷ vs) =
    copy_at-zero (uint64_bytes w) (encode_words ws) (encode_words vs) 8 (length-uint64_bytes w)
      (uint64_bytes v) (length-uint64_bytes v)
    ∙ ap (◌++◌ (uint64_bytes v)) (copy_at-encode_words ws zero vs)
    ∙ (unfold copy_at in refl)

-- A write of one value copies its word.
pub put_uint64-copy_at :
    (dst : Bytes) (offset v : ℕ)
    → put_uint64 dst offset v ≡ copy_at dst offset (encode_words (v ∷ []))
unfolding put_uint64
put_uint64-copy_at dst offset v = ap (copy_at dst offset) whole
  where
    whole : uint64_bytes v ≡ encode_words (v ∷ [])
    whole = unfold encode_words in sym (append-nil (uint64_bytes v))

-- A value written at a word boundary replaces that word.
pub put_uint64-encode_words :
    (ws : List ℕ) (n v : ℕ)
    → put_uint64 (encode_words ws) (8 * n) v ≡ encode_words (copy_at ws n (v ∷ []))
put_uint64-encode_words ws n v =
    put_uint64-copy_at (encode_words ws) (8 * n) v ∙ copy_at-encode_words ws n (v ∷ [])

-- A value read at a word boundary is the word there.
pub get_uint64-drop :
    (ws : List ℕ) (n w : ℕ) (rest : List ℕ)
    → drop n ws ≡ w ∷ rest
    → w ≤ max_uint64
    → get_uint64 (drop (8 * n) (encode_words ws)) ≡ w
get_uint64-drop ws n w rest e h =
    ap get_uint64 (drop-encode_words n ws ∙ ap encode_words e) ∙ get_uint64-encode_words w rest h

pub get_uint64-uint64_bytes : (n : ℕ) → n ≤ max_uint64 → get_uint64 (uint64_bytes n) ≡ n
get_uint64-uint64_bytes n h = ap get_uint64 word ∙ get_uint64-encode_words n [] h
  where
    word : uint64_bytes n ≡ encode_words (n ∷ [])
    word = unfold encode_words in sym (append-nil (uint64_bytes n))

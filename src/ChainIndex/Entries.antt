-- ===== src/ChainIndex/Entries.antt =====
-- chainindex/chain_index.go: what a batch does to the entries of blocks.
use hypersdk.Base.{
  ℕ, suc, ◌+◌, ◌-◌, ◌%◌, ◌^◌, ◌≤◌, ◌<◌, ◌≡◌, refl, ap, Bool, true, false, ◌&&◌, ◌||◌, not, ◌⊎◌,
  List, [], ◌∷◌, ◌++◌, Option, none, some, Bytes, Bytes_eq, bytes_eq, bytes_eq_iff, assign, delete,
  ltb, leb, nat_eq, nat_eq_iff, length, take, if◌then◌else◌, Bool-cases, lt-cases, inl, inr, arith,
}
use hypersdk.Math.Checked.{max_uint64}
use hypersdk.Binary.{uint64_bytes, get_uint64}
use hypersdk.Binary.Words.{get_uint64-uint64_bytes}
use hypersdk.ChainIndex.Index.{
  Block, last_accepted_key, prefix_block_key, prefix_block_id_height_key,
  prefix_block_height_id_key, written, write_block, put_op, delete_op, BatchOp, delete_block,
  expiry_height,
}

-- The keys of two heights are the same only for the same height.
uint64_bytes-eq :
    (g h : ℕ)
    → g ≤ max_uint64
    → h ≤ max_uint64
    → bytes_eq (uint64_bytes g) (uint64_bytes h) ≡ nat_eq g h
uint64_bytes-eq g h p q = ground (
  arith,
  bytes_eq_iff (uint64_bytes g) (uint64_bytes h),
  ap get_uint64 {x = uint64_bytes g} {y = uint64_bytes h},
  ap uint64_bytes {x = g} {y = h},
  get_uint64-uint64_bytes g p,
  get_uint64-uint64_bytes h q,
  nat_eq_iff g h,
)

-- The index still has a block of the height, after one of height `top`: it is the genesis block, or
-- one of the last `window`, or all are kept.
abbrev pub kept : ℕ → ℕ → ℕ → Bool
kept window top h = leb h top && (nat_eq h 0 || nat_eq window 0 || ltb top (h + window))

-- The index has the blocks of some heights under their three keys, and nothing under those of the
-- others.
pub record Holds (block_at : ℕ → Block) (had : ℕ → Bool) (f : Bytes → Option Bytes) : Type 0 where
  pub ids :
      (h : ℕ)
      → h ≤ max_uint64
      → f (prefix_block_height_id_key h) ≡ (if had h then some (block_at h).id else none)
  pub blocks :
      (h : ℕ)
      → h ≤ max_uint64
      → f (prefix_block_key h) ≡ (if had h then some (block_at h).bytes else none)
  pub heights :
      (h : ℕ)
      → h ≤ max_uint64
      → f (prefix_block_id_height_key (block_at h).id)
        ≡ (if had h then some (uint64_bytes h) else none)

-- The blocks of a chain by their heights.
pub record IsChain (block_at : ℕ → Block) : Type 0 where
  pub height : (h : ℕ) → (block_at h).height ≡ h
  pub length_id : (h : ℕ) → length (block_at h).id ≡ 32
  pub distinct :
      (g h : ℕ) → g ≤ max_uint64 → h ≤ max_uint64 → (block_at g).id ≡ (block_at h).id → g ≡ h

id-eq :
    (block_at : ℕ → Block) (g h : ℕ)
    → IsChain block_at
    → g ≤ max_uint64
    → h ≤ max_uint64
    → bytes_eq (block_at g).id (block_at h).id ≡ nat_eq g h
id-eq block_at g h c p q = ground (
  arith,
  bytes_eq_iff (block_at g).id (block_at h).id,
  c.distinct g h p q,
  ap (λ i. (block_at i).id) {x = g} {y = h},
  nat_eq_iff g h,
)

pub Holds-same :
    (block_at : ℕ → Block) (had has : ℕ → Bool) (f g : Bytes → Option Bytes)
    → ((h : ℕ) → had h ≡ has h)
    → ((k : Bytes) → g k ≡ f k)
    → Holds block_at had f
    → Holds block_at has g
Holds-same block_at had has f g e k w = record {
  ids = λ h q. ground (arith, w.ids h q, e h, k (prefix_block_height_id_key h));
  blocks = λ h q. ground (arith, w.blocks h q, e h, k (prefix_block_key h));
  heights =
      λ h q. ground (arith, w.heights h q, e h, k (prefix_block_id_height_key (block_at h).id));
}

-- The batch of an accepted block, before what it deletes.
abbrev pub update_batch : Block → List BatchOp
update_batch b = put_op last_accepted_key (uint64_bytes b.height) ∷ write_block b

pub written-append :
    (f : Bytes → Option Bytes) (xs ys : List BatchOp)
    → written f (xs ++ ys) ≡ written (written f xs) ys
unfolding written
written-append f [] ys = refl
written-append f (put_op k v ∷ xs) ys = written-append (assign f k v) xs ys
written-append f (delete_op k ∷ xs) ys = written-append (delete f k) xs ys

-- A batch adds a block, or takes one away.
pub update_batch-Holds :
    (block_at : ℕ → Block) (had : ℕ → Bool) (n : ℕ) (f : Bytes → Option Bytes)
    → IsChain block_at
    → n ≤ max_uint64
    → Holds block_at had f
    → Holds block_at (λ h. nat_eq h n || had h) (written f (update_batch (block_at n)))
unfolding written write_block prefix_block_key prefix_block_id_height_key prefix_block_height_id_key
update_batch-Holds block_at had n f c le w = record {
  ids = λ h q. ground (arith, w.ids h q, uint64_bytes-eq h n q le, nat_eq_iff h n, c.height n);
  blocks =
      λ h q. ground (arith, w.blocks h q, uint64_bytes-eq h n q le, nat_eq_iff h n, c.height n);
  heights =
      λ h q. ground (arith, w.heights h q, id-eq block_at h n c q le, nat_eq_iff h n, c.height n);
}

pub delete_block-Holds :
    (block_at : ℕ → Block) (had : ℕ → Bool) (n : ℕ) (f : Bytes → Option Bytes)
    → IsChain block_at
    → n ≤ max_uint64
    → Holds block_at had f
    → Holds block_at (λ h. not (nat_eq h n) && had h) (written f (delete_block n (block_at n).id))
unfolding written delete_block prefix_block_key prefix_block_id_height_key
    prefix_block_height_id_key
delete_block-Holds block_at had n f c le w = record {
  ids = λ h q. ground (arith, w.ids h q, uint64_bytes-eq h n q le, nat_eq_iff h n);
  blocks = λ h q. ground (arith, w.blocks h q, uint64_bytes-eq h n q le, nat_eq_iff h n);
  heights = λ h q. ground (arith, w.heights h q, id-eq block_at h n c q le, nat_eq_iff h n);
}

pub last-update_batch :
    (f : Bytes → Option Bytes) (b : Block)
    → written f (update_batch b) last_accepted_key ≡ some (uint64_bytes b.height)
unfolding written write_block prefix_block_key prefix_block_id_height_key prefix_block_height_id_key
last-update_batch f b = refl

pub last-delete_block :
    (f : Bytes → Option Bytes) (n : ℕ) (id : Bytes)
    → written f (delete_block n id) last_accepted_key ≡ f last_accepted_key
unfolding written delete_block prefix_block_key prefix_block_id_height_key
    prefix_block_height_id_key
last-delete_block f n id = refl

pub take-length {ℓ} : {A : Type ℓ} (xs : List A) → take (length xs) xs ≡ xs
take-length [] = refl
take-length (x ∷ xs) = ap (◌∷◌ x) (take-length xs)

-- When UpdateLastAccepted deletes nothing, and what it deletes otherwise.
pub expiry-cases :
    (n w : ℕ)
    → w ≤ max_uint64
    → n ≤ max_uint64
    → ((nat_eq w 0 || nat_eq (expiry_height n w) 0 || leb n (expiry_height n w) ≡ true)
        × ((w ≡ 0) ⊎ (n ≤ w)))
      ⊎ ((nat_eq w 0 || nat_eq (expiry_height n w) 0 || leb n (expiry_height n w) ≡ false)
          × (1 ≤ w)
          × (w < n)
          × (expiry_height n w ≡ n - w))
unfolding expiry_height
expiry-cases n w p q = elim (lt-cases w n) [
  | inl lt ↦ elim (Bool-cases (nat_eq w 0)) [
    | inl e ↦ inl (ground arith, inl (ground arith))
    | inr e ↦
        let at : (n + 2 ^ 64 - w) % 2 ^ 64 ≡ n - w = omega arith in
        inr (ground (arith, at), ground arith, lt, at)
  ]
  | inr (inl same) ↦
      let at : (n + 2 ^ 64 - w) % 2 ^ 64 ≡ 0 = omega arith in
      inl (ground (arith, at), inr (omega arith))
  | inr (inr gt) ↦
      let at : n ≤ (n + 2 ^ 64 - w) % 2 ^ 64 = omega arith in
      inl (ground (arith, at), inr (omega arith))
]

-- The index keeps the right blocks below the last one.
abbrev pub Retains : (Bytes → Option Bytes) → (ℕ → Block) → ℕ → ℕ → Type 0
Retains f block_at window top =
    (f last_accepted_key ≡ some (uint64_bytes top)) × Holds block_at (kept window top) f

-- One more block, where none is deleted, and where the first of the window is.
pub kept-grow :
    (n w h : ℕ) → ((w ≡ 0) ⊎ (suc n ≤ w)) → (nat_eq h (suc n) || kept w n h) ≡ kept w (suc n) h
kept-grow n w h (inl e) = ground arith
kept-grow n w h (inr e) = ground arith

pub kept-slide :
    (n w h : ℕ)
    → 1 ≤ w
    → w < suc n
    → (not (nat_eq h (suc n - w)) && (nat_eq h (suc n) || kept w n h)) ≡ kept w (suc n) h
kept-slide n w h p q = ground arith

-- ===== src/ChainIndex/Tests.antt =====
-- chainindex/chain_index.go: runs at concrete inputs.
use hypersdk.Base.{
  ℕ, ◌+◌, ◌≤◌, ◌≡◌, refl, ap, ◌∙◌, sym, [], ◌∷◌, ◌++◌, Option, none, some, Bytes, GoMap, empty_map,
  nat_eq, length, take, replicate, ok, length-append, append-nil, if◌then◌else◌, arith,
}
use hypersdk.Math.Checked.{max_uint64}
use hypersdk.Binary.{get_uint64, uint64_bytes}
use hypersdk.Binary.Words.{get_uint64-uint64_bytes, length-uint64_bytes, take-append}
use hypersdk.ChainIndex.Index.{Database, Config, Block, written}
use hypersdk.ChainIndex.Entries.{IsChain}
use hypersdk.ChainIndex.Retention.{Serves, accepted, accepted-Serves}

abbrev parse : Bytes → Option ℕ
parse b = if nat_eq (length b) 8 then some (get_uint64 b) else none

parse-uint64_bytes : (n : ℕ) → n ≤ max_uint64 → parse (uint64_bytes n) ≡ some n
parse-uint64_bytes n h = ground (arith, get_uint64-uint64_bytes n h, length-uint64_bytes n)

-- A database in memory; its iterator is not asked.
abbrev memory : Database
memory = record {
  Db = GoMap Bytes Bytes;
  get = λ d k. d k;
  write = λ d ops. written d ops;
  get-write = λ d ops k. refl;
  keys_with_prefix = λ d p. [];
  parse_uint64 = parse;
  parse_uint64-bytes = parse-uint64_bytes;
}

abbrev block_at : ℕ → Block
block_at h = record { id = uint64_bytes h ++ replicate 24 0; height = h; bytes = 5 ∷ h ∷ [] }

first_word : (g : ℕ) → take 8 (uint64_bytes g ++ replicate 24 0) ≡ uint64_bytes g
first_word g =
    ap (λ k. take k (uint64_bytes g ++ replicate 24 0)) eight
    ∙ take-append (uint64_bytes g) (replicate 24 0) 0
    ∙ append-nil (uint64_bytes g)
  where
    eight : 8 ≡ length (uint64_bytes g) + 0
    eight = omega (arith, length-uint64_bytes g)

block_at-IsChain : IsChain block_at
block_at-IsChain = record {
  height = λ h. refl;
  length_id =
      λ h. omega (arith, length-append (uint64_bytes h) (replicate 24 0), length-uint64_bytes h);
  distinct = λ g h p q e.
      sym (get_uint64-uint64_bytes g p)
      ∙ ap get_uint64 (sym (first_word g) ∙ ap (take 8) e ∙ first_word h)
      ∙ get_uint64-uint64_bytes h q;
}

abbrev two_kept : Config
two_kept = record { accepted_block_window = 2; block_compaction_frequency = 32 }

accepted-Serves_example :
    (after : memory.Db) × (accepted memory block_at two_kept block_at-IsChain empty_map 3
      ≡ ok after)
    × Serves memory block_at two_kept block_at-IsChain ok 3 after
accepted-Serves_example =
    accepted-Serves memory block_at two_kept block_at-IsChain ok empty_map 3 (omega arith)
      (omega arith) (λ k. refl)

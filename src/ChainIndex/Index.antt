-- ===== src/ChainIndex/Index.antt =====
-- chainindex/chain_index.go: the operations of the index, over the database of avalanchego and its
-- parser of numbers. Failures of the disk, compaction, which a database does on its own time, and
-- metrics are left out.
use hypersdk.Base.{
  ℕ, ◌+◌, ◌-◌, ◌%◌, ◌^◌, ◌≤◌, ◌≡◌, not, ◌||◌, List, [], ◌∷◌, ◌++◌, Option, none, some, Bytes,
  Bytes_eq, GoMap, assign, delete, ltb, leb, nat_eq, length, take, drop, Outcome, err, ok, ◌>>=◌,
  ◌>>◌, guard, if◌then◌else◌,
}
use hypersdk.Math.Checked.{max_uint64}
use hypersdk.Binary.{uint64_bytes, get_uint64}

-- What a batch is told.
pub data BatchOp : Type 0 where
  put_op : Bytes → Bytes → BatchOp
  delete_op : Bytes → BatchOp

-- The lookups after the entries of a batch are written in their order.
unfoldable pub written : GoMap Bytes Bytes → List BatchOp → GoMap Bytes Bytes
written f [] = f
written f (put_op k v ∷ ops) = written (assign f k v) ops
written f (delete_op k ∷ ops) = written (delete f k) ops

-- `database.Database`: a batch takes effect as its entries in their order, and an iterator gives the
-- keys of a prefix; and `database.ParseUInt64`, which reads what AppendUint64 writes.
pub record Database : Type 1 where
  pub Db : Type 0
  pub get : Db → Bytes → Option Bytes
  pub write : Db → List BatchOp → Db
  pub get-write :
      (d : Db) (ops : List BatchOp) (k : Bytes) → get (write d ops) k ≡ written (get d) ops k
  pub keys_with_prefix : Db → Bytes → List Bytes
  pub parse_uint64 : Bytes → Option ℕ
  pub parse_uint64-bytes : (n : ℕ) → n ≤ max_uint64 → parse_uint64 (uint64_bytes n) ≡ some n

pub record Config : Type 0 where
  pub accepted_block_window : ℕ
  pub block_compaction_frequency : ℕ

pub record Block : Type 0 where
  pub id : Bytes
  pub height : ℕ
  pub bytes : Bytes

pub data IndexError : Type 0 where
  not_found unparsable_height conversion_panic unparsable_block : IndexError
  block_compaction_frequency_zero : IndexError

abbrev pub last_accepted_key : Bytes
last_accepted_key = 3 ∷ []

-- `prefixBlockKey`, `prefixBlockIDHeightKey` and `prefixBlockHeightIDKey`
unfoldable pub prefix_block_key : ℕ → Bytes
prefix_block_key height = 0 ∷ uint64_bytes height

unfoldable pub prefix_block_id_height_key : Bytes → Bytes
prefix_block_id_height_key id = 1 ∷ id

unfoldable pub prefix_block_height_id_key : ℕ → Bytes
prefix_block_height_id_key height = 2 ∷ uint64_bytes height

-- `extractBlockHeightFromKey`
unfoldable pub extract_block_height_from_key : Bytes → ℕ
extract_block_height_from_key key = get_uint64 (drop 1 key)

-- The batch entries of `writeBlock`
unfoldable pub write_block : Block → List BatchOp
unfolding prefix_block_key prefix_block_id_height_key prefix_block_height_id_key
write_block b =
    put_op (prefix_block_id_height_key b.id) (uint64_bytes b.height)
    ∷ put_op (prefix_block_height_id_key b.height) b.id
    ∷ put_op (prefix_block_key b.height) b.bytes
    ∷ []

-- The deletions that rid the index of a block.
unfoldable pub delete_block : ℕ → Bytes → List BatchOp
unfolding prefix_block_key prefix_block_id_height_key prefix_block_height_id_key
delete_block height id =
    delete_op (prefix_block_key height)
    ∷ delete_op (prefix_block_id_height_key id)
    ∷ delete_op (prefix_block_height_id_key height)
    ∷ []

-- `height - window` on uint64 values, which wraps around.
unfoldable pub expiry_height : ℕ → ℕ → ℕ
expiry_height height window = (height + 2 ^ 64 - window) % 2 ^ 64

abbrev pub found : {A : Type 0} → IndexError → Option A → Outcome IndexError A
found e none = err e
found e (some a) = ok a

-- An index that has accepted no block reads as one of height 0.
abbrev pub or_genesis : Outcome IndexError ℕ → Outcome IndexError ℕ
or_genesis (ok n) = ok n
or_genesis (err not_found) = ok 0
or_genesis (err e) = err e

module _ (s : Database) where
  -- `GetLastAcceptedHeight`
  unfoldable pub get_last_accepted_height : s.Db → Outcome IndexError ℕ
  get_last_accepted_height d = do
    b ← found not_found (s.get d last_accepted_key)
    found unparsable_height (s.parse_uint64 b)

  -- `GetBlockIDAtHeight`, whose conversion to an identifier of 32 bytes panics on fewer.
  unfoldable pub get_block_id_at_height : s.Db → ℕ → Outcome IndexError Bytes
  unfolding prefix_block_height_id_key
  get_block_id_at_height d height = do
    b ← found not_found (s.get d (prefix_block_height_id_key height))
    guard (not (ltb (length b) 32)) conversion_panic
    ok (take 32 b)

  -- `GetBlockIDHeight`
  unfoldable pub get_block_id_height : s.Db → Bytes → Outcome IndexError ℕ
  unfolding prefix_block_id_height_key
  get_block_id_height d id = do
    b ← found not_found (s.get d (prefix_block_id_height_key id))
    found unparsable_height (s.parse_uint64 b)

  -- `UpdateLastAccepted`
  unfoldable pub update_last_accepted : Config → s.Db → Block → Outcome IndexError s.Db
  unfolding write_block delete_block expiry_height get_block_id_at_height
  update_last_accepted c d b =
      let expiry = expiry_height b.height c.accepted_block_window in
      let batch = put_op last_accepted_key (uint64_bytes b.height) ∷ write_block b in
      if nat_eq c.accepted_block_window 0 || nat_eq expiry 0 || leb b.height expiry
      then ok (s.write d batch)
      else do id ← get_block_id_at_height d expiry; ok (s.write d (batch ++ delete_block expiry id))

  -- `SaveHistorical`
  unfoldable pub save_historical : s.Db → Block → s.Db
  unfolding write_block
  save_historical d b = s.write d (write_block b)

  -- The loop of `cleanupOnStartup` over the keys of the iterator.
  unfoldable pub stale : s.Db → ℕ → List Bytes → Outcome IndexError (List BatchOp)
  unfolding extract_block_height_from_key get_block_id_at_height delete_block
  stale d threshold [] = ok []
  stale d threshold (key ∷ keys) =
      let height = extract_block_height_from_key key in
      let rest = stale d threshold keys in
      if leb threshold height
      then ok []
      else if nat_eq height 0
      then rest
      else do id ← get_block_id_at_height d height; more ← rest; ok (delete_block height id ++ more)

  -- What `cleanupOnStartup` does once it knows the last height.
  unfoldable pub clean_up : Config → s.Db → ℕ → Outcome IndexError s.Db
  unfolding stale
  clean_up c d last =
      if nat_eq c.accepted_block_window 0 || leb last c.accepted_block_window then ok d else do
        batch ← stale d (last - c.accepted_block_window) (s.keys_with_prefix d (2 ∷ []))
        ok (s.write d batch)

  -- `cleanupOnStartup`
  unfoldable pub cleanup_on_startup : Config → s.Db → Outcome IndexError s.Db
  unfolding clean_up get_last_accepted_height
  cleanup_on_startup c d = do last ← or_genesis (get_last_accepted_height d); clean_up c d last

  -- `New`
  unfoldable pub new_index : Config → s.Db → Outcome IndexError s.Db
  unfolding cleanup_on_startup
  new_index c d = do
    guard (not (nat_eq c.block_compaction_frequency 0)) block_compaction_frequency_zero
    cleanup_on_startup c d

  module _ {A : Type 0} (parse_block : Bytes → Outcome IndexError A) where
    -- `GetBlockByHeight`
    unfoldable pub get_block_by_height : s.Db → ℕ → Outcome IndexError A
    unfolding prefix_block_key
    get_block_by_height d height = do
      b ← found not_found (s.get d (prefix_block_key height))
      parse_block b

    -- `GetBlock`
    unfoldable pub get_block : s.Db → Bytes → Outcome IndexError A
    unfolding get_block_id_height get_block_by_height
    get_block d id = do height ← get_block_id_height d id; get_block_by_height d height

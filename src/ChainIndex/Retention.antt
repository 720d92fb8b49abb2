-- ===== src/ChainIndex/Retention.antt =====
-- chainindex/chain_index.go: which blocks the index serves after a run of accepted blocks.
use hypersdk.Base.{
  ℕ, zero, suc, ◌-◌, ◌≤◌, ◌≡◌, refl, sym, ap, ◌∙◌, Bool, true, false, ◌++◌, Option, none, some,
  Bytes, Bytes_eq, ltb, length, take, Outcome, err, ok, ◌>>=◌, if◌then◌else◌, inl, inr, arith,
}
use hypersdk.Math.Checked.{max_uint64}
use hypersdk.Binary.{uint64_bytes}
use hypersdk.ChainIndex.Index.{
  Database, Config, Block, IndexError, not_found, last_accepted_key, prefix_block_height_id_key,
  written, delete_block, get_last_accepted_height, get_block_id_at_height, get_block_id_height,
  get_block_by_height, get_block, update_last_accepted,
}
use hypersdk.ChainIndex.Entries.{
  kept, Holds, IsChain, Holds-same, update_batch, written-append, update_batch-Holds,
  delete_block-Holds, last-update_batch, last-delete_block, expiry-cases, Retains, kept-grow,
  kept-slide, take-length,
}

module _ (s : Database) (block_at : ℕ → Block) (c : Config) (chain : IsChain block_at) where
  -- The identifier of a block that is held is found.
  get_block_id_at_height-held :
      (d : s.Db) (had : ℕ → Bool) (h : ℕ)
      → h ≤ max_uint64
      → had h ≡ true
      → Holds block_at had (s.get d)
      → get_block_id_at_height s d h ≡ ok (block_at h).id
  unfolding get_block_id_at_height
  get_block_id_at_height-held d had h le e w =
      let at : s.get d (prefix_block_height_id_key h) ≡ some (block_at h).id =
        ground (arith, w.ids h le) in
      let long : ltb (length (block_at h).id) 32 ≡ false = ground (arith, chain.length_id h) in
      rw (at, get_block_id_at_height, long)
        (ap ok (
          ap (λ k. take k (block_at h).id) (sym (chain.length_id h)) ∙ take-length (block_at h).id))

  -- UpdateLastAccepted on the next block succeeds and keeps the right blocks.
  update_last_accepted-Retains :
      (d : s.Db) (n : ℕ)
      → c.accepted_block_window ≤ max_uint64
      → suc n ≤ max_uint64
      → Retains (s.get d) block_at c.accepted_block_window n
      → (after : s.Db) × (update_last_accepted s c d (block_at (suc n)) ≡ ok after)
        × Retains (s.get after) block_at c.accepted_block_window (suc n)
  unfolding update_last_accepted
  update_last_accepted-Retains d n p q (last, w) =
      let b = block_at (suc n) in
      let window = c.accepted_block_window in
      let batch = update_batch b in
      let grown = update_batch-Holds block_at (kept window n) (suc n) (s.get d) chain q w in
      elim (expiry-cases (suc n) window p q) [
        | inl (e, small) ↦ (
          s.write d batch,
          rw (chain.height (suc n), e) refl,
          (
            s.get-write d batch last_accepted_key
                ∙ last-update_batch (s.get d) b
                ∙ ap (λ h. some (uint64_bytes h)) (chain.height (suc n)),
            Holds-same block_at _ _ _ _ (λ h. kept-grow n window h small) (s.get-write d batch)
                grown,
          ),
        )
        | inr (e, one, lt, at) ↦
            let gone = suc n - window in
            let gone_le : gone ≤ max_uint64 = omega arith in
            let id = (block_at gone).id in
            let all = batch ++ delete_block gone id in
            let here : get_block_id_at_height s d gone ≡ ok id =
              get_block_id_at_height-held d (kept window n) gone gone_le (ground arith) w in
            let slid = delete_block-Holds block_at _ gone _ chain gone_le grown in
            (
              s.write d all,
              rw (chain.height (suc n), e, at, here) refl,
              (
                s.get-write d all last_accepted_key
                    ∙ ap (λ (f : Bytes → Option Bytes). f last_accepted_key)
                        (written-append (s.get d) batch _)
                    ∙ last-delete_block (written (s.get d) batch) gone id
                    ∙ last-update_batch (s.get d) b
                    ∙ ap (λ h. some (uint64_bytes h)) (chain.height (suc n)),
                Holds-same block_at _ _ _ _ (λ h. kept-slide n window h one lt)
                    (λ k.
                      s.get-write d all k
                      ∙ ap (λ (f : Bytes → Option Bytes). f k) (written-append (s.get d) batch _))
                    slid,
              ),
            )
      ]

  -- Accepting the genesis block and those after it, up to a height.
  abbrev pub accepted : s.Db → ℕ → Outcome IndexError s.Db
  accepted d zero = update_last_accepted s c d (block_at 0)
  accepted d (suc n) = accepted d n >>= λ e. update_last_accepted s c e (block_at (suc n))

  -- What the index serves after the block of a height.
  pub record Serves {A : Type 0} (parse_block : Bytes → Outcome IndexError A) (n : ℕ) (d : s.Db)
      : Type 0 where
    pub last : get_last_accepted_height s d ≡ ok n
    pub by_height :
        (h : ℕ)
        → h ≤ max_uint64
        → get_block_by_height s parse_block d h ≡ (
            if kept c.accepted_block_window n h
            then parse_block (block_at h).bytes
            else err not_found)
    pub by_id :
        (h : ℕ)
        → h ≤ max_uint64
        → get_block s parse_block d (block_at h).id ≡ (
            if kept c.accepted_block_window n h
            then parse_block (block_at h).bytes
            else err not_found)

  Retains-Serves :
      {A : Type 0} (parse_block : Bytes → Outcome IndexError A) (n : ℕ) (d : s.Db)
      → n ≤ max_uint64
      → Retains (s.get d) block_at c.accepted_block_window n
      → Serves parse_block n d
  unfolding get_last_accepted_height get_block get_block_by_height get_block_id_height
  Retains-Serves parse_block n d le (last, w) = record {
    last = ground (arith, last, s.parse_uint64-bytes n le);
    by_height = λ h q. ground (arith, w.blocks h q);
    by_id = λ h q. ground (arith, w.blocks h q, w.heights h q, s.parse_uint64-bytes h q);
  }

  genesis-Retains :
      (d : s.Db)
      → c.accepted_block_window ≤ max_uint64
      → ((k : Bytes) → s.get d k ≡ none)
      → (after : s.Db) × (update_last_accepted s c d (block_at 0) ≡ ok after)
        × Retains (s.get after) block_at c.accepted_block_window 0
  unfolding update_last_accepted
  genesis-Retains d p empty =
      let b = block_at 0 in
      let batch = update_batch b in
      let bare : Holds block_at (λ h. false) (s.get d) = record {
        ids = λ h q. empty _;
        blocks = λ h q. empty _;
        heights = λ h q. empty _;
      } in
      let grown = update_batch-Holds block_at _ 0 (s.get d) chain (omega arith) bare in
      elim (expiry-cases 0 c.accepted_block_window p (omega arith)) [
        | inl (e, small) ↦ (
          s.write d batch,
          rw (chain.height 0, e) refl,
          (
            s.get-write d batch last_accepted_key
                ∙ last-update_batch (s.get d) b
                ∙ ap (λ h. some (uint64_bytes h)) (chain.height 0),
            Holds-same block_at _ _ _ _ (λ h. ground arith) (s.get-write d batch) grown,
          ),
        )
        | inr (e, one, lt, at) ↦ absurd (omega arith)
      ]

  accepted-Retains :
      (d : s.Db) (n : ℕ)
      → c.accepted_block_window ≤ max_uint64
      → n ≤ max_uint64
      → ((k : Bytes) → s.get d k ≡ none)
      → (after : s.Db) × (accepted d n ≡ ok after)
        × Retains (s.get after) block_at c.accepted_block_window n
  accepted-Retains d zero p q empty = genesis-Retains d p empty
  accepted-Retains d (suc n) p q empty =
      let (before, e, w) = accepted-Retains d n p (omega arith) empty in
      let (after, k, v) = update_last_accepted-Retains before n p q w in (after, rw (e) k, v)

  -- Accepting a chain of blocks in an empty index, one after the other up to a height, succeeds. The
  -- index then serves, by height and by identifier, exactly the genesis block and the blocks of the
  -- window below the last one, or all if there is no window, and reads the last height.
  pub accepted-Serves :
      {A : Type 0} (parse_block : Bytes → Outcome IndexError A) (d : s.Db) (n : ℕ)
      → c.accepted_block_window ≤ max_uint64
      → n ≤ max_uint64
      → ((k : Bytes) → s.get d k ≡ none)
      → (after : s.Db) × (accepted d n ≡ ok after) × Serves parse_block n after
  accepted-Serves parse_block d n p q empty =
      let (after, e, w) = accepted-Retains d n p q empty in
      (after, e, Retains-Serves parse_block n after q w)

-- ===== src/Chain/Blocks.antt =====
-- chain/processor.go: what a block that `Execute` accepts has passed, and what it leaves.
use native.Mathlib.Nat.{mod-eq_of_lt}
use hypersdk.Base.{
  ℕ, ◌+◌, ◌%◌, ◌^◌, ◌<◌, ◌≤◌, ◌≡◌, ◌≢◌, refl, ap, sym, ◌∙◌, Bool, true, false, List, [], some,
  Bytes, bytes_eq_iff, Outcome, ok, err, Outcome-cases, Option-cases, inl, inr, arith,
}
use hypersdk.Binary.{uint64_bytes}
use hypersdk.State.Scope.{Scope, complete_permissions}
use hypersdk.Math.Checked.{CheckedMath}
use hypersdk.Fees.Manager.{unit_prices, units_consumed}
use hypersdk.TState.View.{
  TState, View, Error, not_found, insert, new_view, get_value_of, commit, is_unchanged, settle,
  overwrite, create,
}
use hypersdk.TState.Reads.{insert-get_value, commit-get_value}
use hypersdk.Balance.Handler.{Uint64Codec}
use hypersdk.Chain.Transaction.{Transaction, Rules}
use hypersdk.Chain.Processor.{
  Block, MetadataManager, ParentView, BlockContext, OutputBlock, Processor, height_key,
  timestamp_key, fee_key, create_block_context, write_block_context, execute_txs, execute_block,
  no_txs, future_bound, next_height, is_before,
}

module _ ⦃c : Uint64Codec⦄ where
  -- What the state of the parent holds under a key, as a number.
  abbrev pub Stores : (Bytes → Outcome Error Bytes) → Bytes → ℕ → Type 0
  Stores im key n = (raw : Bytes) × (im key ≡ ok raw) × (c.parse raw ≡ some n)

  -- A block follows its parent's state.
  pub record Follows (mm : MetadataManager) (im : Bytes → Outcome Error Bytes) (b : Block)
      (r : Rules) : Type 0 where
    pub parent_height : ℕ
    pub parent_timestamp : ℕ
    pub stores_height : Stores im (height_key mm) parent_height
    pub stores_timestamp : Stores im (timestamp_key mm) parent_timestamp
    pub next : b.height ≡ next_height parent_height
    pub late_enough : is_before b.timestamp parent_timestamp r.min_block_gap ≡ false
    pub late_enough_empty :
        b.txs ≡ [] → is_before b.timestamp parent_timestamp r.min_empty_block_gap ≡ false

  module _ ⦃m : CheckedMath⦄ where
    -- How a context came about.
    pub record HasContext (mm : MetadataManager) (im : Bytes → Outcome Error Bytes) (b : Block)
        (r : Rules) (bc : BlockContext) : Type 0 where
      pub follows : Follows mm im b r
      pub same_height : bc.height ≡ b.height
      pub same_timestamp : bc.timestamp ≡ b.timestamp

    no_txs-nil : (txs : List Transaction) → txs ≡ [] → no_txs txs ≡ true
    no_txs-nil txs e = rw e

    create_block_context-HasContext :
        (mm : MetadataManager) (im : Bytes → Outcome Error Bytes) (b : Block) (r : Rules)
        (bc : BlockContext)
        → create_block_context mm im b r ≡ ok bc
        → HasContext mm im b r bc
    unfolding create_block_context
    create_block_context-HasContext mm im b r bc h = elim (Outcome-cases (im (height_key mm))) [
      | inr (f, e) ↦ absurd (ground arith)
      | inl (raw, e) ↦ elim (Option-cases (c.parse raw)) [
        | inl q ↦ absurd (ground arith)
        | inr (height, q) ↦ elim (Outcome-cases (im (timestamp_key mm))) [
          | inr (f, e') ↦ absurd (ground arith)
          | inl (raw', e') ↦ elim (Option-cases (c.parse raw')) [
            | inl q' ↦ absurd (ground arith)
            | inr (time, q') ↦ record {
              follows = record {
                parent_height = height;
                parent_timestamp = time;
                stores_height = (raw, e, q);
                stores_timestamp = (raw', e', q');
                next = ground arith;
                late_enough = ground arith;
                late_enough_empty = λ n. ground (arith, no_txs-nil b.txs n);
              };
              same_height = ground arith;
              same_timestamp = ground arith;
            }
          ]
        ]
      ]
    ]

    -- How an accepted block came about.
    pub record Accepted (p : Processor) (parent : ParentView) (b : Block) (is_normal_op : Bool)
        (out : OutputBlock) : Type 0 where
      pub in_time : b.timestamp ≤ p.now + future_bound
      pub context : BlockContext
      pub has_context :
          HasContext p.metadata_manager parent.read_key b (p.rules_at b.timestamp) context
      pub unrepeated : is_normal_op ≡ true → p.is_unrepeated b ≡ true
      pub same_root : b.state_root ≡ parent.merkle_root
      pub signed : p.signatures_valid b.txs ≡ true
      pub state : TState
      pub charged : Bytes
      pub ran :
          execute_txs p.to_id p.balance_handler
            (p.rules_at b.timestamp)
            context.fee_manager
            parent.read_key
            b
          ≡ ok (state, out.results, charged)
      pub last_view : View
      pub written :
          write_block_context p.metadata_manager
            (new_view state complete_permissions (λ k. err not_found))
            (record context { fee_manager = charged })
          ≡ ok last_view
      pub changes : out.changes ≡ commit last_view
      pub prices : out.unit_prices ≡ unit_prices charged
      pub consumed : out.units_consumed ≡ units_consumed charged

    pub execute_block-Accepted :
        (p : Processor) (parent : ParentView) (b : Block) (is_normal_op : Bool) (out : OutputBlock)
        → execute_block p parent b is_normal_op ≡ ok out
        → Accepted p parent b is_normal_op out
    unfolding execute_block
    execute_block-Accepted p parent b is_normal_op out h =
        let r = p.rules_at b.timestamp in
        let mm = p.metadata_manager in
        elim (Outcome-cases (create_block_context mm parent.read_key b r)) [
          | inr (f, e) ↦ absurd (ground arith)
          | inl (bc, e) ↦
              elim (Outcome-cases
                (execute_txs p.to_id p.balance_handler r bc.fee_manager parent.read_key b)) [
                  | inr (f, e') ↦ absurd (ground arith)
                  | inl ((ts, results, charged), e') ↦
                      elim (Outcome-cases (
                        write_block_context mm
                          (new_view ts complete_permissions (λ k. err not_found))
                          (record bc { fee_manager = charged }))) [
                            | inr (f, w) ↦ absurd (ground arith)
                            | inl (v, w) ↦ record {
                              in_time = ground arith;
                              context = bc;
                              has_context =
                                  create_block_context-HasContext mm parent.read_key b r bc e;
                              unrepeated = λ n. ground arith;
                              same_root =
                                  ground (arith, bytes_eq_iff b.state_root parent.merkle_root);
                              signed = ground arith;
                              state = ts;
                              charged = charged;
                              ran = ground arith;
                              last_view = v;
                              written = w;
                              changes = ground arith;
                              prices = ground arith;
                              consumed = ground arith;
                            }
                          ]
                ]
        ]

  insert-storage :
      (v : View) (key value : Bytes) (w : View) → insert v key value ≡ ok w → w.storage ≡ v.storage
  unfolding insert settle overwrite create
  insert-storage v key value w h = elim (Outcome-cases (is_unchanged v key (some value))) [
    | inr (f, e) ↦ absurd (ground arith)
    | inl (u, e) ↦ elim (Outcome-cases (get_value_of v key)) [
      | inl (x, q) ↦ ground arith
      | inr (not_found, q) ↦ ground arith
      | inr (f, q) ↦ ground arith
    ]
  ]

  -- What the view reads after the context was written.
  written-reads :
      (mm : MetadataManager) (v w : View) (bc : BlockContext)
      → height_key mm ≢ timestamp_key mm
      → height_key mm ≢ fee_key mm
      → timestamp_key mm ≢ fee_key mm
      → write_block_context mm v bc ≡ ok w
      → (get_value_of w (height_key mm) ≡ ok (uint64_bytes bc.height))
        × (get_value_of w (timestamp_key mm) ≡ ok (uint64_bytes bc.timestamp))
        × (get_value_of w (fee_key mm) ≡ ok bc.fee_manager)
        × (w.storage ≡ v.storage)
  unfolding write_block_context
  written-reads mm v w bc ht hf tf h =
      elim (Outcome-cases (insert v (height_key mm) (uint64_bytes bc.height))) [
        | inr (f, e) ↦ absurd (ground arith)
        | inl (v1, e1) ↦
            elim (Outcome-cases (insert v1 (timestamp_key mm) (uint64_bytes bc.timestamp))) [
              | inr (f, e) ↦ absurd (ground arith)
              | inl (v2, e2) ↦
                  let e3 : insert v2 (fee_key mm) bc.fee_manager ≡ ok w = ground arith in
                  let (a, a') =
                    insert-get_value v (height_key mm) (uint64_bytes bc.height) {w = v1} e1 in
                  let (b, b') =
                    insert-get_value v1 (timestamp_key mm) (uint64_bytes bc.timestamp) {w = v2}
                      e2 in
                  let (d, d') = insert-get_value v2 (fee_key mm) bc.fee_manager {w = w} e3 in
                  (
                    d' (height_key mm) hf ∙ b' (height_key mm) ht ∙ a,
                    d' (timestamp_key mm) tf ∙ b,
                    d,
                    insert-storage v2 (fee_key mm) bc.fee_manager w e3
                        ∙ insert-storage v1 (timestamp_key mm) (uint64_bytes bc.timestamp) v2 e2
                        ∙ insert-storage v (height_key mm) (uint64_bytes bc.height) v1 e1,
                  )
            ]
      ]

  -- The changes of an accepted block leave its height, its timestamp and the array of the fee
  -- manager at their keys, if the three keys differ: a view over them reads these.
  pub execute_block-written :
      ⦃m : CheckedMath⦄ (p : Processor) (parent : ParentView) (b : Block) (is_normal_op : Bool)
      (out : OutputBlock) (scope : Scope)
      → height_key p.metadata_manager ≢ timestamp_key p.metadata_manager
      → height_key p.metadata_manager ≢ fee_key p.metadata_manager
      → timestamp_key p.metadata_manager ≢ fee_key p.metadata_manager
      → execute_block p parent b is_normal_op ≡ ok out
      → let v = new_view out.changes scope (λ k. err not_found) in
        (get_value_of v (height_key p.metadata_manager) ≡ ok (uint64_bytes b.height))
        × (get_value_of v (timestamp_key p.metadata_manager) ≡ ok (uint64_bytes b.timestamp))
        × ((raw : Bytes) × (get_value_of v (fee_key p.metadata_manager) ≡ ok raw)
            × (out.unit_prices ≡ unit_prices raw)
            × (out.units_consumed ≡ units_consumed raw))
  execute_block-written p parent b is_normal_op out scope ht hf tf h =
      let a = execute_block-Accepted p parent b is_normal_op out h in
      let v = a.last_view in
      let bc = record a.context { fee_manager = a.charged } in
      let first = new_view a.state complete_permissions (λ k. err not_found) in
      let (height, time, fees, storage) =
        written-reads p.metadata_manager first v bc ht hf tf a.written in
      let empty : v.storage ≡ (λ k. err not_found) = storage ∙ (unfold new_view in refl) in
      let reads : (k : Bytes)
          → get_value_of (new_view out.changes scope (λ k. err not_found)) k ≡ get_value_of v k =
        (λ k.
          ap (λ c. get_value_of (new_view c scope (λ j. err not_found)) k) a.changes
          ∙ ap (λ s. get_value_of (new_view (commit v) scope s) k) (sym empty)
          ∙ commit-get_value v scope k) in
      (
        reads (height_key p.metadata_manager)
            ∙ height
            ∙ ap (λ n. ok (uint64_bytes n)) a.has_context.same_height,
        reads (timestamp_key p.metadata_manager)
            ∙ time
            ∙ ap (λ n. ok (uint64_bytes n)) a.has_context.same_timestamp,
        (a.charged, reads (fee_key p.metadata_manager) ∙ fees, a.prices, a.consumed),
      )

  not_before :
      (t parent gap : ℕ)
      → t < 2 ^ 63
      → parent + gap < 2 ^ 63
      → is_before t parent gap ≡ false
      → parent + gap ≤ t
  unfolding is_before
  not_before t parent gap h k e =
      let here : (t + 2 ^ 63) % 2 ^ 64 ≡ t + 2 ^ 63 = mod-eq_of_lt (omega arith) in
      let there : (parent + gap + 2 ^ 63) % 2 ^ 64 ≡ parent + gap + 2 ^ 63 =
        mod-eq_of_lt (omega arith) in
      ground (arith, here, there)

  next_height_lem : (h : ℕ) → h + 1 < 2 ^ 64 → next_height h ≡ h + 1
  unfolding next_height
  next_height_lem h lt = mod-eq_of_lt lt

  -- A block that is accepted on the state that another left is one higher than that block, and not
  -- earlier than its time and the gap between blocks, or between empty blocks if it has no
  -- transactions. The three keys of the context differ, the codec reads what is written, the height of
  -- the other block is below the largest uint64, and its time with either gap and the time of the
  -- new block are below 2^63.
  pub execute_block-chain :
      ⦃m : CheckedMath⦄ (p : Processor) (parent child_parent : ParentView) (b child : Block)
      (op child_op : Bool) (out child_out : OutputBlock)
      → height_key p.metadata_manager ≢ timestamp_key p.metadata_manager
      → height_key p.metadata_manager ≢ fee_key p.metadata_manager
      → timestamp_key p.metadata_manager ≢ fee_key p.metadata_manager
      → c.parse (uint64_bytes b.height) ≡ some b.height
      → c.parse (uint64_bytes b.timestamp) ≡ some b.timestamp
      → b.height + 1 < 2 ^ 64
      → child.timestamp < 2 ^ 63
      → b.timestamp + (p.rules_at child.timestamp).min_block_gap < 2 ^ 63
      → b.timestamp + (p.rules_at child.timestamp).min_empty_block_gap < 2 ^ 63
      → execute_block p parent b op ≡ ok out
      → ((k : Bytes) (x : Bytes)
          → get_value_of (new_view out.changes complete_permissions (λ j. err not_found)) k ≡ ok x
          → child_parent.read_key k ≡ ok x)
      → execute_block p child_parent child child_op ≡ ok child_out
      → (child.height ≡ b.height + 1)
        × (b.timestamp + (p.rules_at child.timestamp).min_block_gap ≤ child.timestamp)
        × (child.txs ≡ []
            → b.timestamp + (p.rules_at child.timestamp).min_empty_block_gap ≤ child.timestamp)
  execute_block-chain ⦃m⦄ p parent child_parent b child op child_op out child_out ht hf tf hp tp
        small soon gap empty_gap h carries h' =
      let (height, time, rest) =
        execute_block-written p parent b op out complete_permissions ht hf tf h in
      let f =
        (execute_block-Accepted p child_parent child child_op child_out h').has_context.follows in
      let same_height : f.parent_height ≡ b.height =
        same f.parent_height b.height (height_key p.metadata_manager) f.stores_height
          (carries _ _ height) hp in
      let same_time : f.parent_timestamp ≡ b.timestamp =
        same f.parent_timestamp b.timestamp (timestamp_key p.metadata_manager) f.stores_timestamp
          (carries _ _ time) tp in
      (
        f.next ∙ ap next_height same_height ∙ next_height_lem b.height small,
        not_before child.timestamp b.timestamp _ soon gap (rw same_time at f.late_enough),
        λ n.
            not_before child.timestamp b.timestamp _ soon empty_gap
              (rw same_time at (f.late_enough_empty n)),
      )
    where
      same :
          (n k : ℕ) (key : Bytes)
          → Stores child_parent.read_key key n
          → child_parent.read_key key ≡ ok (uint64_bytes k)
          → c.parse (uint64_bytes k) ≡ some k
          → n ≡ k
      same n k key (raw, e, q) e' q' = ground arith

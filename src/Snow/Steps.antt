-- ===== src/Snow/Steps.antt =====
-- snow/block.go and snow/vm.go: the calls of consensus and of the queue of accepted blocks, in any order.
-- Consensus holds references that it was given. Whether the VM is ready stays as it is: the end of a
-- state sync, which changes it, is no step.
use hypersdk.Base.{
  ℕ, ◌<◌, ◌≡◌, Bool, true, some, Option, none, Bytes, Bytes_eq, empty_map, assign, delete, ok, [],
}
use hypersdk.Snow.Blocks.{
  Input, Chain, Vm, get_block, parse_block, build_block, verify_with_context, accept,
  process_accept, reject, set_preference,
}

module _ {O A : Type 0} (c : Chain O A) (genesis : Input) (genesis_output : O)
    (genesis_accepted : A) where
  -- The VM with the block that was accepted last when it started.
  abbrev pub initial : Bool → Vm O A
  initial ready = record {
    ready = ready;
    blocks = λ r. record {
      input = genesis;
      output = some genesis_output;
      verified = true;
      accepted_block = some genesis_accepted;
      accepted = true;
    };
    next = 1;
    verified_blocks = empty_map;
    accepted_by_id = assign empty_map genesis.id 0;
    parsed_blocks = empty_map;
    chain_index = assign empty_map genesis.id genesis;
    accepted_queue = [];
    last_accepted = 0;
    last_processed = 0;
    preferred = genesis.id;
  }

  pub data Step (v : Vm O A) : Vm O A → Type 0 where
    get_step : (id : Bytes) (w : Vm O A) (r : ℕ) → get_block v id ≡ ok (w, r) → Step v w
    parse_step :
        (id bytes : Bytes) (w : Vm O A) (r : ℕ) → parse_block c v id bytes ≡ ok (w, r) → Step v w
    build_step :
        (context : Option ℕ) (w : Vm O A) (r : ℕ) → build_block c v context ≡ ok (w, r) → Step v w
    verify_step :
        (r : ℕ) (context : Option ℕ) (w : Vm O A)
        → r < v.next
        → verify_with_context c v r context ≡ ok w
        → Step v w
    accept_step : (r : ℕ) (w : Vm O A) → r < v.next → accept c v r ≡ ok w → Step v w
    process_step : (w : Vm O A) → process_accept c v ≡ ok w → Step v w
    reject_step : (r : ℕ) → r < v.next → Step v (reject c v r)
    prefer_step : (id : Bytes) → Step v (set_preference v id)
    -- A cache gives up an entry, or the index an old block.
    forget_accepted_step :
        (id : Bytes) → Step v (record v { accepted_by_id = delete v.accepted_by_id id })
    forget_parsed_step :
        (id : Bytes) → Step v (record v { parsed_blocks = delete v.parsed_blocks id })
    forget_index_step : (id : Bytes) → Step v (record v { chain_index = delete v.chain_index id })

  pub data Reach (ready : Bool) : Vm O A → Type 0 where
    start : Reach ready (initial ready)
    later : {v w : Vm O A} → Reach ready v → Step v w → Reach ready w

  -- The outputs that come of executing a block on that of its parent, from the first block on.
  pub data Derives : Input → O → Type 0 where
    first_block : Derives genesis genesis_output
    verified_block :
        (p i : Input) (po o : O)
        → Derives p po
        → p.id ≡ i.parent
        → c.verify_block (some po) i ≡ some o
        → Derives i o

  -- What the comments on `Chain` promise of `BuildBlock` and `VerifyBlock`, where an output names its
  -- block: `BuildBlock` gives a block on top of the one whose output it is given, with the output that
  -- `VerifyBlock` gives for it, and no block on the zero value.
  pub record BuildsOnParent (block_id : O → Bytes) : Type 0 where
    pub names_first : block_id genesis_output ≡ genesis.id
    pub names_verified :
        (po o : O) (i : Input) → c.verify_block (some po) i ≡ some o → block_id o ≡ i.id
    pub on_parent :
        (context : Option ℕ) (po o : O) (i : Input)
        → c.build_block context (some po) ≡ some (i, o)
        → i.parent ≡ block_id po
    pub as_verified :
        (context : Option ℕ) (po o : O) (i : Input)
        → c.build_block context (some po) ≡ some (i, o)
        → c.verify_block (some po) i ≡ some o
    pub no_output : (context : Option ℕ) → c.build_block context none ≡ none

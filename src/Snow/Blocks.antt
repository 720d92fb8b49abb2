-- ===== src/Snow/Blocks.antt =====
-- snow/block.go and snow/vm.go: the blocks of the VM and its calls. A block is a reference into a store,
-- since the VM changes blocks that others hold. The chain behind the VM is a record of its calls; an output
-- or an accepted block is `none` where Go has the zero value. Subscribers, metrics and logging are left
-- out, and failures of the chain index; what a cache or the index gives up is a step of its own.
use hypersdk.Base.{
  ℕ, suc, Bool, true, false, not, ◌&&◌, List, [], ◌∷◌, ◌++◌, Option, none, some, Bytes, Bytes_eq,
  GoMap, assign, delete, nat_eq, if◌then◌else◌, Outcome, ok, err, ◌>>=◌, ◌>>◌, guard,
}

-- An input block, with the height of its context on the P-chain.
pub record Input : Type 0 where
  pub id : Bytes
  pub parent : Bytes
  pub height : ℕ
  pub context : Option ℕ

-- `Chain`
pub record Chain (O A : Type 0) : Type 0 where
  pub parse_block : Bytes → Option Input
  pub build_block : Option ℕ → Option O → Option (Input × O)
  pub verify_block : Option O → Input → Option O
  pub accept_block : Option A → Option O → Option A

pub record StatefulBlock (O A : Type 0) : Type 0 where
  pub input : Input
  pub output : Option O
  pub verified : Bool
  pub accepted_block : Option A
  pub accepted : Bool

pub record Vm (O A : Type 0) : Type 0 where
  pub ready : Bool
  pub blocks : ℕ → StatefulBlock O A
  pub next : ℕ
  pub verified_blocks : GoMap Bytes ℕ
  pub accepted_by_id : GoMap Bytes ℕ
  pub parsed_blocks : GoMap Bytes ℕ
  pub chain_index : GoMap Bytes Input
  pub accepted_queue : List ℕ
  pub last_accepted : ℕ
  pub last_processed : ℕ
  pub preferred : Bytes

pub data VmError : Type 0 where
  not_found parent_failed_verification mismatched_context failed_verification : VmError
  failed_build failed_accept failed_parse queue_empty : VmError

abbrev pub store : {T : Type 0} → (ℕ → T) → ℕ → T → ℕ → T
store f r x j = if nat_eq j r then x else f j

-- `NewInputBlock` and `NewVerifiedBlock`
unfoldable pub new_input_block : {O A : Type 0} → Input → StatefulBlock O A
new_input_block i = record {
  input = i;
  output = none;
  verified = false;
  accepted_block = none;
  accepted = false;
}

unfoldable pub new_verified_block : {O A : Type 0} → Input → O → StatefulBlock O A
new_verified_block i o = record {
  input = i;
  output = some o;
  verified = true;
  accepted_block = none;
  accepted = false;
}

-- A new block in the store.
unfoldable pub allocate : {O A : Type 0} → Vm O A → StatefulBlock O A → Vm O A
allocate v b = record v { blocks = store v.blocks v.next b; next = suc v.next }

-- `verifyPChainCtx`
unfoldable pub same_context : Option ℕ → Option ℕ → Bool
same_context none none = true
same_context none (some n) = false
same_context (some m) none = false
same_context (some m) (some n) = nat_eq m n

module _ {O A : Type 0} where
  -- `GetBlock`
  unfoldable pub get_block : Vm O A → Bytes → Outcome VmError (Vm O A × ℕ)
  unfolding allocate new_input_block
  get_block v id = elim (v.verified_blocks id) [
    | some r ↦ ok (v, r)
    | none ↦ elim (v.accepted_by_id id) [
      | some r ↦ ok (v, r)
      | none ↦ elim (v.chain_index id) [
        | none ↦ err not_found
        | some i ↦ ok (allocate v (new_input_block i), v.next)
      ]
    ]
  ]

  -- `SetPreference`
  abbrev pub set_preference : Vm O A → Bytes → Vm O A
  set_preference v id = record v { preferred = id }

  -- The end of `verifyWithContext`
  abbrev pub remember : Vm O A → ℕ → Vm O A
  remember v r = record v { verified_blocks = assign v.verified_blocks (v.blocks r).input.id r }

  -- What `Accept` does of a block that it does not refuse.
  abbrev pub accept_block : Vm O A → ℕ → Vm O A
  accept_block v r =
      let i = (v.blocks r).input in
      record v {
        chain_index = assign v.chain_index i.id i;
        accepted_queue = if v.ready then v.accepted_queue ++ r ∷ [] else v.accepted_queue;
        verified_blocks = delete v.verified_blocks i.id;
        last_accepted = r;
        accepted_by_id = assign v.accepted_by_id i.id r;
      }

  module _ (c : Chain O A) where
    -- `ParseBlock`, with the identifier of the bytes
    unfoldable pub parse_block : Vm O A → Bytes → Bytes → Outcome VmError (Vm O A × ℕ)
    unfolding get_block allocate new_input_block
    parse_block v id bytes = elim (get_block v id) [
      | ok found ↦ ok found
      | err _ ↦ elim (v.parsed_blocks id) [
        | some r ↦ ok (v, r)
        | none ↦ elim (c.parse_block bytes) [
          | none ↦ err failed_parse
          | some i ↦ ok (
            record (allocate v (new_input_block i)) {
              parsed_blocks = assign v.parsed_blocks id v.next;
            },
            v.next,
          )
        ]
      ]
    ]

    -- `buildBlock`
    unfoldable pub build_block : Vm O A → Option ℕ → Outcome VmError (Vm O A × ℕ)
    unfolding get_block allocate new_verified_block
    build_block v context = do
      found ← get_block v v.preferred
      elim (c.build_block context (found.0.blocks found.1).output) [
        | none ↦ err failed_build
        | some (i, o) ↦ ok (
          record (allocate found.0 (new_verified_block i o)) {
            parsed_blocks = assign found.0.parsed_blocks i.id found.0.next;
          },
          found.0.next,
        )
      ]

    -- `verify`
    unfoldable pub verify : Vm O A → ℕ → Option O → Outcome VmError (Vm O A)
    verify v r parent_output = elim (c.verify_block parent_output (v.blocks r).input) [
      | none ↦ err failed_verification
      | some o ↦ ok (record v {
        blocks = store v.blocks r (record (v.blocks r) { output = some o; verified = true });
      })
    ]

    -- `verifyWithContext`
    unfoldable pub verify_with_context : Vm O A → ℕ → Option ℕ → Outcome VmError (Vm O A)
    unfolding get_block verify same_context
    verify_with_context v r context =
        let b = v.blocks r in
        if not v.ready
        then ok (remember v r)
        else if b.verified
        then (guard (same_context context b.input.context) mismatched_context >> ok (remember v r))
        else do
          parent ← get_block v b.input.parent
          guard (parent.0.blocks parent.1).verified parent_failed_verification
          guard (same_context context b.input.context) mismatched_context
          w ← verify parent.0 r (parent.0.blocks parent.1).output
          ok (remember w r)

    -- `Accept`, with `UpdateLastAccepted`, `queueAccept` and `setLastAccepted`
    unfoldable pub accept : Vm O A → ℕ → Outcome VmError (Vm O A)
    accept v r =
        if v.ready && not (v.blocks r).verified
        then err parent_failed_verification
        else ok (accept_block v r)

    -- `processAccept` of the first block of the queue, with `accept` and `setLastProcessed`
    unfoldable pub process_accept : Vm O A → Outcome VmError (Vm O A)
    unfolding get_block
    process_accept v = elim v.accepted_queue [
      | [] ↦ err queue_empty
      | r ∷ rest ↦ do
        parent ← get_block v (v.blocks r).input.parent
        let w = parent.0
        elim (c.accept_block (w.blocks parent.1).accepted_block (w.blocks r).output) [
          | none ↦ err failed_accept
          | some a ↦ ok (record w {
            blocks =
                store w.blocks r (record (w.blocks r) { accepted_block = some a; accepted = true });
            accepted_queue = rest;
            last_processed = r;
          })
        ]
    ]

    -- `Reject`
    unfoldable pub reject : Vm O A → ℕ → Vm O A
    reject v r = record v { verified_blocks = delete v.verified_blocks (v.blocks r).input.id }

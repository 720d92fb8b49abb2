-- ===== src/Snow/Tests.antt =====
-- snow: runs at concrete inputs.
use hypersdk.Base.{suc, Bytes, true, [], ◌∷◌, Option, none, some, Bytes_eq, assign}
use hypersdk.Snow.Blocks.{
  Input, Chain, Vm, new_input_block, new_verified_block, build_block, allocate, parse_block,
  accept_block, remember, store,
}
use hypersdk.Snow.Steps.{initial}

abbrev genesis : Input
genesis = record { id = 1 ∷ []; parent = []; height = 0; context = none }

abbrev child : Input
child = record { id = 2 ∷ []; parent = 1 ∷ []; height = 1; context = none }

-- An output is the block that was executed.
abbrev on_output : Option Input → Input → Option Input
on_output none i = none
on_output (some p) i = some i

abbrev next_block : Input → Input
next_block p = record { id = 3 ∷ p.id; parent = p.id; height = suc p.height; context = none }

abbrev build_on : Option Input → Option (Input × Input)
build_on none = none
build_on (some p) = some (next_block p, next_block p)

abbrev chain : Chain Input Input
chain = record {
  parse_block = λ bytes. some child;
  build_block = λ context o. build_on o;
  verify_block = λ parent i. on_output parent i;
  accept_block = λ parent o. o;
}

abbrev id_of : Input → Bytes
id_of i = i.id

abbrev started : Vm Input Input
started = initial chain genesis genesis genesis true

abbrev parsed : Vm Input Input
parsed = record (allocate started (new_input_block child)) {
  parsed_blocks = assign started.parsed_blocks (2 ∷ []) 1;
}

abbrev verified_once : Vm Input Input
verified_once =
    remember
      (record parsed {
        blocks =
            store parsed.blocks 1
              (record (parsed.blocks 1) { output = some child; verified = true });
      })
      1

-- Then a block is built on the first one.
abbrev on_genesis : Input
on_genesis = next_block genesis

abbrev built : Vm Input Input
built = record (allocate verified_once (new_verified_block on_genesis on_genesis)) {
  parsed_blocks = assign verified_once.parsed_blocks on_genesis.id 2;
}

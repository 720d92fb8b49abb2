-- ===== src/Lib.antt =====
-- The core of HyperSDK, a framework for blockchains on Avalanche, written in Go: the rules that
-- every block and every transaction obeys, as pure functions over explicit state.
--
-- How the parts interact. A transaction names the state keys it may touch, each with permissions and
-- with the size of its value in the key (Keys, State). Its actions work on a view of the block's
-- transactional state, whose pending changes are rolled back when an action fails and committed when
-- it does not (TState). What the block and its transactions use is counted in five dimensions by the
-- fee manager, which refuses what passes the limits of a block and sets the prices of the next block
-- from a window of the last ten seconds (Fees, over the window and the checked arithmetic of Math).
-- The processor hands the transactions of a block to the executor, which runs those at once whose
-- keys do not conflict, and the others in the order of the block (Executor). The builder packs a
-- block from the mempool by the same checks and the same calls (Chain, over Mempool). Between
-- consensus and the chain stand the blocks of the VM, each with what executing it gave (Snow).
--
-- Files and code:
--   Base      shared notation: native lists, Boolean tests, maps of Go, results with an error
--   Binary    big-endian words in byte arrays, as encoding/binary and copy lay them out
--   Keys      keys/keys.go
--   State     state/keys.go
--   TState    state/tstate/tstate.go and state/tstate/tstate_view.go
--   Math      internal/math/uint64.go
--   Fees      fees/dimension.go (Dimensions), internal/window/window.go (Window) and
--             internal/fees/manager.go (Price, Manager)
--   Chain     chain/transaction.go, chain/base.go and chain/result.go: a transaction from its keys and
--             units (Transaction, Declared, Units) over its acceptance (Admission) to its execution
--             (Execution),
--             over the interfaces of chain/dependencies.go and of state/state.go (Program); and blocks,
--             of chain/processor.go (Processor), with what they leave (Blocks, Consumption), and the
--             checks of chain/pre_executor.go on a transaction that is to wait (PreExecutor); and
--             chain/builder.go (Builder, Build), against the processor (Packing, Packed, Built)
--   Balance   state/balance/balance.go
--   Bond      internal/chain/bond.go
--   Replay    internal/emap/emap.go (Emap, Tracking) and internal/validitywindow/validitywindow.go
--             (Window, Distinct, Walk, Fresh, Accepted)
--   Mempool   internal/list and internal/eheap (Queue), internal/mempool/mempool.go (Pool), with its
--             invariant (Invariant, Adding, Operations, Streaming, Top, Runs)
--   ChainIndex  chainindex/chain_index.go (Index), with what a run of accepted blocks leaves (Entries,
--             Retention)
--   Executor  internal/executor/executor.go: the tasks (Tasks), what calls and workers do to them
--             (Steps), and what holds in every state that they reach (Reached)
--   Snow      snow/block.go and snow/vm.go: blocks between consensus and the chain (Blocks), their calls
--             (Steps), and what comes of them (Soundness, Calls)
--   Metadata  state/metadata/state_manager.go
--
-- Correspondence. A Go function keeps its name in snake_case. A method that changes its receiver
-- returns the new one. A Go map is a function into Option, a slice is a list, an array of bytes is
-- the list of them, an error is a constructor of the component's error type, and a run-time panic
-- is an error too. A uint64 is a native number and its wrap-around is written as a remainder.
--
-- Outside the code. The checked arithmetic of avalanchego is the record CheckedMath: its three
-- operations with their documented results. Its packing of uint64 values is the record Uint64Codec,
-- the database below the chain index is the record Database, with what its batches do, and the
-- hash behind an identifier is a function on bytes. The underlying storage of a view is a
-- function from keys to results. The view of the parent holds nothing under the empty key, since a
-- key of the state ends with the number of its chunks. All are parameters of the theorems. The chain
-- behind the VM of consensus is a record of its calls, of which the theorem on Accept assumes what the
-- comments on the interface Chain in snow/vm.go promise.
--
-- Bounds and fuel. Loops recur on the list or on the number of rounds they run over, but for the
-- rounds of SetMin, on the length of its heap, those of Top, on the length of the heap too, and the
-- walk over ancestors, on the height of the block that it starts at. The height after a parent's and
-- the sums of a time and a gap wrap round as in Go, the latter as int64. A Go int of the mempool has no
-- fixed width. Keys shorter than 4 GiB are meant, times lie after 1970, and the locks are left out:
-- each operation is a step of its own, and those of the executor a step for each lock that they take.
-- At most as many tasks are run by one executor as it is given as the most dependencies.
--
-- Not modelled: networking, databases, state sync, command line, metrics and logging, which only move
-- data or call libraries; the generated encoders (files named canoto.go); cryptography, which the code
-- calls from libraries; the experimental DSMR.
pub mod Base
pub mod Keys
pub mod State
pub mod TState
pub mod Math
pub mod Mempool
pub mod ChainIndex
pub mod Binary
pub mod Fees
pub mod Chain
pub mod Balance
pub mod Bond
pub mod Replay
pub mod Metadata
pub mod Executor
pub mod Snow

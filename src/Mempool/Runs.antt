-- ===== src/Mempool/Runs.antt =====
-- internal/mempool/mempool.go: sequences of calls on one mempool.
use hypersdk.Base.{ℕ, Bool, false, Option, List, [], ◌∷◌, Bytes, Bytes_eq, pos}
use hypersdk.Mempool.Queue.{Item}
use hypersdk.Mempool.Weights.{Genuine}
use hypersdk.Mempool.Pool.{
  Mempool, new_mempool, add_items, pop_next, remove_items, set_min_timestamp, start_streaming,
  prepare_stream, stream, finish_streaming, top,
}
use hypersdk.Mempool.Invariant.{IsValid, new_mempool-IsValid}
use hypersdk.Mempool.Adding.{add_items-IsValid}
use hypersdk.Mempool.Operations.{remove_items-IsValid, set_min_timestamp-IsValid}
use hypersdk.Mempool.Top.{top-IsValid}
use hypersdk.Mempool.Streaming.{
  pop_next-IsValid, start_streaming-IsValid, prepare_stream-IsValid, stream-IsValid,
  finish_streaming-IsValid,
}

-- A call that changes the mempool.
pub data Call : Type 1 where
  add_call : List Item → Call
  pop_next_call : Call
  remove_call : List Item → Call
  set_min_timestamp_call : ℕ → Call
  start_streaming_call : Call
  prepare_stream_call : ℕ → Call
  stream_call : ℕ → Call
  finish_streaming_call : List Item → Call
  -- The callback and its state, whether the time is up, and the zero value.
  top_call : {S E : Type 0} → (S → Item → S × Bool × Bool × Option E) → (S → Bool) → Item → S → Call

unfoldable pub run_call : Mempool → Call → Mempool
unfolding add_items pop_next remove_items set_min_timestamp start_streaming prepare_stream stream
    finish_streaming top
run_call m (add_call xs) = add_items m xs false
run_call m pop_next_call = (pop_next m).0
run_call m (remove_call xs) = remove_items m xs
run_call m (set_min_timestamp_call t) = (set_min_timestamp m t).0
run_call m start_streaming_call = start_streaming m
run_call m (prepare_stream_call n) = prepare_stream m n
run_call m (stream_call n) = (stream m n).0
run_call m (finish_streaming_call xs) = (finish_streaming m xs).0
run_call m (top_call f is_late zero_value s) = (top f is_late zero_value m s).0

unfoldable pub run_calls : Mempool → List Call → Mempool
unfolding run_call
run_calls m [] = m
run_calls m (c ∷ cs) = run_calls (run_call m c) cs

-- The items that a call is given.
abbrev pub given : Call → List Item
given (add_call xs) = xs
given (remove_call xs) = xs
given (finish_streaming_call xs) = xs
given pop_next_call = []
given (set_min_timestamp_call t) = []
given start_streaming_call = []
given (prepare_stream_call n) = []
given (stream_call n) = []
given (top_call f is_late zero_value s) = []

module _ (item_of : Bytes → Item) where
  abbrev pub GenuineCalls : List Call → Type 0
  GenuineCalls [] = Unit {0}
  GenuineCalls (c ∷ cs) = Genuine item_of (given c) × GenuineCalls cs

  module _ (cap sponsor_cap : ℕ) where
    run_call-IsValid :
        (m : Mempool) (c : Call)
        → Genuine item_of (given c)
        → IsValid item_of cap sponsor_cap m
        → IsValid item_of cap sponsor_cap (run_call m c)
    unfolding run_call
    run_call-IsValid m (add_call xs) g w = add_items-IsValid m xs false g w
    run_call-IsValid m pop_next_call g w = pop_next-IsValid m w
    run_call-IsValid m (remove_call xs) g w = remove_items-IsValid m xs g w
    run_call-IsValid m (set_min_timestamp_call t) g w = set_min_timestamp-IsValid m t w
    run_call-IsValid m start_streaming_call g w = start_streaming-IsValid m w
    run_call-IsValid m (prepare_stream_call n) g w = prepare_stream-IsValid m n w
    run_call-IsValid m (stream_call n) g w = stream-IsValid m n w
    run_call-IsValid m (finish_streaming_call xs) g w = finish_streaming-IsValid m xs g w
    run_call-IsValid m (top_call f is_late zero_value s) g w =
        top-IsValid f is_late zero_value m s w

    run_calls-IsValid :
        (m : Mempool) (cs : List Call)
        → GenuineCalls cs
        → IsValid item_of cap sponsor_cap m
        → IsValid item_of cap sponsor_cap (run_calls m cs)
    unfolding run_calls
    run_calls-IsValid m [] g w = w
    run_calls-IsValid m (c ∷ cs) (p, g) w =
        run_calls-IsValid (run_call m c) cs g (run_call-IsValid m c p w)

    -- Whatever calls of Add, PopNext, Remove, SetMinTimestamp, Top and the four of streaming are made on a
    -- new mempool, whatever the callback of Top answers, with items that their identifiers determine and in any
    -- order, it is valid afterwards: the heap and the queue hold the same items, no two under one
    -- identifier and none that is being streamed; the size is the sum of theirs, and the count of a
    -- sponsor is that of its items, and missing where there is none; and neither the limit of the
    -- mempool nor that of a sponsor is exceeded.
    pub run_new-IsValid :
        (cs : List Call)
        → GenuineCalls cs
        → IsValid item_of cap sponsor_cap (run_calls (new_mempool (pos cap) (pos sponsor_cap)) cs)
    run_new-IsValid cs g =
        run_calls-IsValid (new_mempool (pos cap) (pos sponsor_cap)) cs g
          (new_mempool-IsValid item_of cap sponsor_cap)

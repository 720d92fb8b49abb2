-- ===== src/Mempool/Tests.antt =====
-- internal/mempool/mempool.go: runs at concrete inputs.
use hypersdk.Base.{
  ◌≡◌, refl, true, false, none, List, [], ◌∷◌, Bytes, ◌==◌, Bytes_eq, pos, take, drop,
  if◌then◌else◌,
}
use hypersdk.Mempool.Queue.{Item}
use hypersdk.Mempool.Pool.{
  Mempool, new_mempool, add_items, set_min_timestamp, stream_items, finish_streaming,
  start_streaming,
}
use hypersdk.Mempool.Invariant.{IsValid, new_mempool-IsValid}
use hypersdk.Mempool.Adding.{add_items-IsValid}
use hypersdk.Mempool.Operations.{Expires, set_min_timestamp-Expires}
use hypersdk.Mempool.Restoring.{given_back, push_fronts, finish_streaming-stream_items}
use hypersdk.Mempool.Runs.{
  Call, add_call, set_min_timestamp_call, start_streaming_call, stream_call, finish_streaming_call,
  top_call, run_calls, run_new-IsValid,
}

abbrev item_a : Item
item_a = record { id = 1 ∷ []; expiry = 20; sponsor = 7 ∷ []; size = 100 }

abbrev item_b : Item
item_b = record { id = 2 ∷ []; expiry = 10; sponsor = 7 ∷ []; size = 50 }

abbrev item_c : Item
item_c = record { id = 3 ∷ []; expiry = 30; sponsor = 8 ∷ []; size = 60 }

abbrev item_of : Bytes → Item
item_of i = if i == (1 ∷ []) then item_a else if i == (2 ∷ []) then item_b else item_c

abbrev fresh : Mempool
fresh = new_mempool (pos 3) (pos 2)

abbrev items : List Item
items = item_a ∷ item_b ∷ item_c ∷ []

abbrev pool : Mempool
pool = add_items fresh items false

pool-IsValid : IsValid item_of 3 2 pool
pool-IsValid =
    add_items-IsValid fresh items false (refl, (refl, (refl, _))) (new_mempool-IsValid item_of 3 2)

-- The item that expires at 10 is removed at 15.
set_min_timestamp-pool : (set_min_timestamp pool 15).1 ≡ item_b ∷ []
unfolding set_min_timestamp add_items new_mempool
set_min_timestamp-pool = refl

set_min_timestamp-Expires_example :
    Expires 15 pool (set_min_timestamp pool 15).0 (set_min_timestamp pool 15).1
set_min_timestamp-Expires_example = set_min_timestamp-Expires pool 15 pool-IsValid

-- The two items that are streamed come back the other way round.
given_back-pool : (given_back pool 2).queue ≡ item_b ∷ item_a ∷ item_c ∷ []
unfolding finish_streaming stream_items start_streaming add_items new_mempool
given_back-pool = refl

idle : pool.next_stream_fetched ≡ false
unfolding add_items new_mempool
idle = refl

finish_streaming-stream_items_example :
    (given_back pool 2).queue ≡ push_fronts (take 2 pool.queue) (drop 2 pool.queue)
finish_streaming-stream_items_example = finish_streaming-stream_items pool 2 pool-IsValid idle

-- Two items come, one is streamed, a third comes in, and the first comes back. It is then taken, and kept,
-- by the callback of `Top`, which stops there.
abbrev calls : List Call
calls =
    add_call (item_a ∷ item_b ∷ [])
    ∷ start_streaming_call
    ∷ stream_call 1
    ∷ add_call items
    ∷ finish_streaming_call (item_a ∷ [])
    ∷ top_call {S = Unit {0}} {E = Unit {0}} (λ u x. (u, false, true, none)) (λ u. false) item_b tt
    ∷ set_min_timestamp_call 15
    ∷ []

run_calls-fresh : (run_calls fresh calls).queue ≡ item_a ∷ item_c ∷ []
unfolding run_calls new_mempool
run_calls-fresh = refl

run_new-IsValid_example : IsValid item_of 3 2 (run_calls (new_mempool (pos 3) (pos 2)) calls)
run_new-IsValid_example =
    run_new-IsValid item_of 3 2 calls
      ((refl, (refl, _)), (_, (_, ((refl, (refl, (refl, _))), ((refl, _), (_, (_, _)))))))

-- ===== src/Mempool/Pool.antt =====
-- internal/mempool/mempool.go: the operations of the mempool. The locks and the tracing are left out,
-- and a set that is nil is the empty one, as its zero value. An `int` has no fixed width.
use hypersdk.Base.{
  ℕ, zero, suc, ◌+◌, Bool, true, false, ◌||◌, List, [], ◌∷◌, ◌++◌, Option, none, some, Bytes,
  Bytes_eq, GoMap, empty_map, assign, delete, GoSet, empty_set, include, length, ℤ, pos, ◌+ℤ◌, ◌-ℤ◌,
  int_eq, not, if◌then◌else◌,
}
use hypersdk.Mempool.Queue.{Item, has_id, discard, evict}

pub record Mempool : Type 0 where
  pub pending_size : ℤ
  pub max_size : ℤ
  pub max_sponsor_size : ℤ
  pub queue : List Item
  pub heap : List Item
  pub owned : GoMap Bytes ℤ
  pub streamed_items : GoSet Bytes
  pub next_stream : List Item
  pub next_stream_fetched : Bool

-- `New`
unfoldable pub new_mempool : ℤ → ℤ → Mempool
new_mempool max_size max_sponsor_size = record {
  pending_size = pos 0;
  max_size = max_size;
  max_sponsor_size = max_sponsor_size;
  queue = [];
  heap = [];
  owned = empty_map;
  streamed_items = empty_set;
  next_stream = [];
  next_stream_fetched = false;
}

-- `m.owned[sender]`, which is 0 where the key is missing.
unfoldable pub owned_by : Option ℤ → ℤ
owned_by none = pos 0
owned_by (some n) = n

-- What `removeFromOwned` leaves under the sender: nothing where nothing was.
unfoldable pub one_less : Option ℤ → Option ℤ
one_less none = none
one_less (some n) = if int_eq n (pos 1) then none else some (n -ℤ pos 1)

-- `removeFromOwned`
unfoldable pub remove_from_owned : Mempool → Item → Mempool
unfolding one_less
remove_from_owned m x = elim (one_less (m.owned x.sponsor)) [
  | none ↦ record m { owned = delete m.owned x.sponsor }
  | some n ↦ record m { owned = assign m.owned x.sponsor n }
]

-- One round of `add`
unfoldable pub add_item : Mempool → Item → Bool → Mempool
unfolding owned_by has_id
add_item m x front =
    if m.streamed_items x.id || has_id x.id m.heap
    then m
    else if int_eq (owned_by (m.owned x.sponsor)) m.max_sponsor_size
    then m
    else if int_eq (pos (length m.queue)) m.max_size
    then m
    else record m {
      queue = if front then x ∷ m.queue else m.queue ++ x ∷ [];
      heap = m.heap ++ x ∷ [];
      owned = assign m.owned x.sponsor (owned_by (m.owned x.sponsor) +ℤ pos 1);
      pending_size = m.pending_size +ℤ pos x.size;
    }

-- `add`, and `Add` where the items go to the back.
unfoldable pub add_items : Mempool → List Item → Bool → Mempool
unfolding add_item
add_items m [] front = m
add_items m (x ∷ xs) front = add_items (add_item m x front) xs front

-- What `popNext`, `Remove` and `SetMinTimestamp` do with an item that has left the heap.
unfoldable pub release : Mempool → Item → Mempool
unfolding remove_from_owned discard
release m x =
    let owned = (remove_from_owned m x).owned in
    record m {
      queue = discard x.id m.queue;
      owned = owned;
      pending_size = m.pending_size -ℤ pos x.size;
    }

-- `popNext`
unfoldable pub pop_next : Mempool → Mempool × Option Item
unfolding release discard
pop_next m = elim m.queue [
  | [] ↦ (m, none)
  | v ∷ rest ↦ (release (record m { heap = discard v.id m.heap }) v, some v)
]

-- `PeekNext`
unfoldable pub peek_next : Mempool → Option Item
peek_next m = elim m.queue [ [] ↦ none | v ∷ rest ↦ some v ]

-- One round of `Remove`
unfoldable pub remove_item : Mempool → Item → Mempool
unfolding release discard has_id
remove_item m x =
    if has_id x.id m.heap then release (record m { heap = discard x.id m.heap }) x else m

-- `Remove`
unfoldable pub remove_items : Mempool → List Item → Mempool
unfolding remove_item
remove_items m [] = m
remove_items m (x ∷ xs) = remove_items (remove_item m x) xs

unfoldable pub release_all : Mempool → List Item → Mempool
unfolding release
release_all m [] = m
release_all m (x ∷ xs) = release_all (release m x) xs

-- `SetMinTimestamp`
unfoldable pub set_min_timestamp : Mempool → ℕ → Mempool × List Item
unfolding release_all evict
set_min_timestamp m t =
    let (removed, rest) = evict (length m.heap) t m.heap in
    (release_all (record m { heap = rest }) removed, removed)

-- `StartStreaming`
unfoldable pub start_streaming : Mempool → Mempool
start_streaming m = record m { streamed_items = empty_set }

-- `streamItems`
unfoldable pub stream_items : Mempool → ℕ → Mempool × List Item
unfolding pop_next
stream_items m zero = (m, [])
stream_items m (suc count) =
    let (popped, item) = pop_next m in
    elim item [
      | none ↦ (popped, [])
      | some x ↦
          let streamed = include popped.streamed_items x.id in
          let (after, xs) = stream_items (record popped { streamed_items = streamed }) count in
          (after, x ∷ xs)
    ]

-- `PrepareStream`
unfoldable pub prepare_stream : Mempool → ℕ → Mempool
unfolding stream_items
prepare_stream m count =
    let (after, xs) = stream_items m count in
    record after { next_stream = xs; next_stream_fetched = true }

-- `Stream`
unfoldable pub stream : Mempool → ℕ → Mempool × List Item
unfolding stream_items
stream m count =
    if m.next_stream_fetched
    then (record m { next_stream = []; next_stream_fetched = false }, m.next_stream)
    else stream_items m count

-- `FinishStreaming`: the mempool, and how many items it was to restore.
unfoldable pub finish_streaming : Mempool → List Item → Mempool × ℕ
unfolding add_items
finish_streaming m restorable =
    let given = add_items (record m { streamed_items = empty_set }) restorable true in
    if given.next_stream_fetched
    then (
      record (add_items given given.next_stream true) {
        next_stream = [];
        next_stream_fetched = false;
      },
      length restorable + length given.next_stream,
    )
    else (given, length restorable)

-- `Top`, with the callback on a state of its own: whether to go on, whether to restore the item, and
-- its error. `is_late` tells that the time is up, and `zero_value` is what Go makes of no item.
module _ {S E : Type 0} (f : S → Item → S × Bool × Bool × Option E) (is_late : S → Bool)
    (zero_value : Item) where
  abbrev pub item_or : Option Item → Item
  item_or none = zero_value
  item_or (some x) = x

  abbrev pub kept : Bool → Item → List Item → List Item
  kept restore x xs = if restore then xs ++ x ∷ [] else xs

  abbrev pub is_error : Option E → Bool
  is_error none = false
  is_error (some e) = true

  -- The loop of `Top`, on fuel: a round removes an item.
  unfoldable pub top_from : ℕ → Mempool → S → List Item → Mempool × S × List Item × Option E
  unfolding pop_next
  top_from zero m s restorable = (m, s, restorable, none)
  top_from (suc fuel) m s restorable = elim m.heap [
    | [] ↦ (m, s, restorable, none)
    | y ∷ ys ↦
        let (popped, item) = pop_next m in
        let next = item_or item in
        let (after, cont, restore, e) = f s next in
        elim (not cont || is_late after || is_error e) [
          | true ↦ (popped, after, kept restore next restorable, e)
          | false ↦ top_from fuel popped after (kept restore next restorable)
        ]
  ]

  unfoldable pub top : Mempool → S → Mempool × S × Option E
  unfolding top_from add_items
  top m s =
      let (left, after, restorable, e) = top_from (length m.heap) m s [] in
      (add_items left restorable true, after, e)

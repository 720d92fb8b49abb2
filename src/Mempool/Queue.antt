-- ===== src/Mempool/Queue.antt =====
-- internal/list and internal/eheap: the queue of the mempool and the heap of its items by expiry. Both
-- hold an item under one pointer, the element of the queue, which is told by the item's identifier. The
-- queue is the list of its items, and the heap is a list, of which the first item of least expiry is
-- on top. Expiries lie after 1970.
use hypersdk.Base.{
  ℕ, zero, suc, Bool, true, false, ◌||◌, List, [], ◌∷◌, Option, none, some, Bytes, ◌==◌, Bytes_eq,
  ltb, if◌then◌else◌,
}

pub record Item : Type 0 where
  pub id : Bytes
  pub expiry : ℕ
  pub sponsor : Bytes
  pub size : ℕ

-- `ExpiryHeap.Has`
unfoldable pub has_id : Bytes → List Item → Bool
has_id id [] = false
has_id id (x ∷ xs) = x.id == id || has_id id xs

-- `List.Remove`, and `ExpiryHeap.Remove` where the identifier is held.
unfoldable pub discard : Bytes → List Item → List Item
discard id [] = []
discard id (x ∷ xs) = let rest = discard id xs in if x.id == id then xs else x ∷ rest

-- `ExpiryHeap.PeekMin`
unfoldable pub peek_min : List Item → Option Item
peek_min [] = none
peek_min (x ∷ xs) = elim (peek_min xs) [
  | none ↦ some x
  | some y ↦ if ltb y.expiry x.expiry then some y else some x
]

-- The loop of `ExpiryHeap.SetMin`, on fuel: the items removed, and the heap left.
unfoldable pub evict : ℕ → ℕ → List Item → List Item × List Item
unfolding peek_min discard
evict zero t heap = ([], heap)
evict (suc fuel) t heap = elim (peek_min heap) [
  | none ↦ ([], heap)
  | some x ↦ elim (ltb x.expiry t) [
    | true ↦ let (removed, rest) = evict fuel t (discard x.id heap) in (x ∷ removed, rest)
    | false ↦ ([], heap)
  ]
]

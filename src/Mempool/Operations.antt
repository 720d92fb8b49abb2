-- ===== src/Mempool/Operations.antt =====
-- internal/mempool/mempool.go: every operation keeps what holds of a mempool.
use hypersdk.Base.{
  ℕ, ◌+◌, ◌≤◌, ◌≡◌, refl, ap, Bool, true, List, [], ◌∷◌, Bytes, Bytes_eq, Bool-cases, inl, inr,
  length, arith,
}
use hypersdk.Mempool.Queue.{Item, has_id, discard, evict}
use hypersdk.Mempool.Weights.{
  weigh, is_id, has_id-weigh, Genuine, Genuine-discard, weigh-discard_member,
}
use hypersdk.Mempool.Pool.{
  Mempool, release, release_all, remove_item, remove_items, set_min_timestamp,
}
use hypersdk.Mempool.Invariant.{IsDraining, IsValid, release-IsDraining}
use hypersdk.Mempool.Eviction.{is_early, is_late, IsEvicted, evict-IsEvicted}

heap-release_all : (m : Mempool) (rs : List Item) → (release_all m rs).heap ≡ m.heap
unfolding release_all release
heap-release_all m [] = refl
heap-release_all m (x ∷ rs) = heap-release_all (release m x) rs

heap-set_min_timestamp :
    (m : Mempool) (t : ℕ) → (set_min_timestamp m t).0.heap ≡ (evict (length m.heap) t m.heap).1
unfolding set_min_timestamp
heap-set_min_timestamp m t =
    let (removed, rest) = evict (length m.heap) t m.heap in
    heap-release_all (record m { heap = rest }) removed

-- What SetMinTimestamp does: the items that it returns expire before the time, those that it leaves do
-- not, and none is lost.
pub record Expires (t : ℕ) (m after : Mempool) (removed : List Item) : Type 0 where
  pub expired : weigh (is_late t) removed ≡ 0
  pub live : weigh (is_early t) after.queue ≡ 0
  pub split : (f : Item → ℕ) → weigh f removed + weigh f after.queue ≡ weigh f m.queue

module _ {item_of : Bytes → Item} {cap sponsor_cap : ℕ} where
  -- A heap of other items, if these and the items to be released still make up the queue.
  reheap-IsDraining :
      (m : Mempool) (heap rs : List Item)
      → Genuine item_of heap
      → Genuine item_of rs
      → ((f : Item → ℕ) → weigh f rs + weigh f heap ≡ weigh f m.heap)
      → IsValid item_of cap sponsor_cap m
      → IsDraining item_of cap sponsor_cap (record m { heap = heap }) rs
  reheap-IsDraining m heap rs g h split w = record {
    genuine_queue = w.genuine_queue;
    genuine_heap = g;
    genuine_removed = h;
    genuine_next = w.genuine_next;
    split = λ f. omega (arith, w.split f, split f);
    once = w.once;
    pending = w.pending;
    owners = w.owners;
    caps = w.caps;
    fits = w.fits;
    fair = w.fair;
    unstreamed = w.unstreamed;
  }

  -- An item of the heap can be drawn from it, to be released.
  pub draw-IsDraining :
      (m : Mempool) (x : Item)
      → item_of x.id ≡ x
      → 1 ≤ weigh (is_id x.id) m.heap
      → IsValid item_of cap sponsor_cap m
      → IsDraining item_of cap sponsor_cap (record m { heap = discard x.id m.heap }) (x ∷ [])
  draw-IsDraining m x p held w =
      reheap-IsDraining m (discard x.id m.heap) (x ∷ [])
        (Genuine-discard item_of x.id m.heap w.genuine_heap) (p, _)
        (λ f. omega (arith, weigh-discard_member item_of f x m.heap p w.genuine_heap held)) w

  pub remove_item-IsValid :
      (m : Mempool) (x : Item)
      → item_of x.id ≡ x
      → IsValid item_of cap sponsor_cap m
      → IsValid item_of cap sponsor_cap (remove_item m x)
  unfolding remove_item
  remove_item-IsValid m x p w = elim (Bool-cases (has_id x.id m.heap)) [
    | inl e ↦
        rw (e, remove_item)
          (release-IsDraining _ x []
            (draw-IsDraining m x p (ground (arith, has_id-weigh x.id m.heap)) w))
    | inr e ↦ rw (e, remove_item) w
  ]

  pub remove_items-IsValid :
      (m : Mempool) (xs : List Item)
      → Genuine item_of xs
      → IsValid item_of cap sponsor_cap m
      → IsValid item_of cap sponsor_cap (remove_items m xs)
  unfolding remove_items
  remove_items-IsValid m [] g w = w
  remove_items-IsValid m (x ∷ xs) (p, g) w =
      remove_items-IsValid (remove_item m x) xs g (remove_item-IsValid m x p w)

  release_all-IsValid :
      (m : Mempool) (rs : List Item)
      → IsDraining item_of cap sponsor_cap m rs
      → IsValid item_of cap sponsor_cap (release_all m rs)
  unfolding release_all
  release_all-IsValid m [] w = w
  release_all-IsValid m (x ∷ rs) w =
      release_all-IsValid (release m x) rs (release-IsDraining m x rs w)

  evicted :
      (m : Mempool) (t : ℕ)
      → IsValid item_of cap sponsor_cap m
      → IsEvicted item_of t m.heap
          (evict (length m.heap) t m.heap).0
          (evict (length m.heap) t m.heap).1
  evicted m t w = evict-IsEvicted item_of (length m.heap) t m.heap w.genuine_heap (omega arith)

  -- SetMinTimestamp keeps a mempool valid.
  pub set_min_timestamp-IsValid :
      (m : Mempool) (t : ℕ)
      → IsValid item_of cap sponsor_cap m
      → IsValid item_of cap sponsor_cap (set_min_timestamp m t).0
  unfolding set_min_timestamp
  set_min_timestamp-IsValid m t w =
      let v = evicted m t w in
      let (removed, rest) = evict (length m.heap) t m.heap in
      release_all-IsValid (record m { heap = rest }) removed
        (reheap-IsDraining m rest removed v.genuine_rest v.genuine_removed v.split w)

  weigh-set_min_timestamp :
      (m : Mempool) (t : ℕ)
      → IsValid item_of cap sponsor_cap m
      → (f : Item → ℕ)
      → weigh f (set_min_timestamp m t).0.queue ≡ weigh f (evict (length m.heap) t m.heap).1
  weigh-set_min_timestamp m t w f =
      omega (
        arith,
        (set_min_timestamp-IsValid m t w).split f,
        ap (weigh f) (heap-set_min_timestamp m t),
      )

  -- SetMinTimestamp on a valid mempool returns items that expire before the time, leaves those that do
  -- not, and loses none.
  pub set_min_timestamp-Expires :
      (m : Mempool) (t : ℕ)
      → IsValid item_of cap sponsor_cap m
      → Expires t m (set_min_timestamp m t).0 (set_min_timestamp m t).1
  unfolding set_min_timestamp
  set_min_timestamp-Expires m t w =
      let v = evicted m t w in
      let same = λ (f : Item → ℕ). weigh-set_min_timestamp m t w f in
      record {
        expired = v.expired;
        live = omega (arith, v.live, same (is_early t));
        split = λ f. omega (arith, v.split f, w.split f, same f);
      }

module _ {item_of : Bytes → Item} {cap sponsor_cap : ℕ} where
  -- The identifiers of streamed items, none of which is in the queue.
  pub restream-IsValid :
      (m : Mempool) (streamed : Bytes → Bool)
      → ((i : Bytes) → streamed i ≡ true → weigh (is_id i) m.queue ≡ 0)
      → IsValid item_of cap sponsor_cap m
      → IsValid item_of cap sponsor_cap (record m { streamed_items = streamed })
  restream-IsValid m streamed h w = record {
    genuine_queue = w.genuine_queue;
    genuine_heap = w.genuine_heap;
    genuine_removed = _;
    genuine_next = w.genuine_next;
    split = w.split;
    once = w.once;
    pending = w.pending;
    owners = w.owners;
    caps = w.caps;
    fits = w.fits;
    fair = w.fair;
    unstreamed = h;
  }

  -- A stream prepared of genuine items.
  pub prepare-IsValid :
      (m : Mempool) (xs : List Item) (fetched : Bool)
      → Genuine item_of xs
      → IsValid item_of cap sponsor_cap m
      → IsValid item_of cap sponsor_cap
          (record m { next_stream = xs; next_stream_fetched = fetched })
  prepare-IsValid m xs fetched g w = record {
    genuine_queue = w.genuine_queue;
    genuine_heap = w.genuine_heap;
    genuine_removed = _;
    genuine_next = g;
    split = w.split;
    once = w.once;
    pending = w.pending;
    owners = w.owners;
    caps = w.caps;
    fits = w.fits;
    fair = w.fair;
    unstreamed = w.unstreamed;
  }

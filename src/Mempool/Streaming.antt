-- ===== src/Mempool/Streaming.antt =====
-- internal/mempool/mempool.go: what streaming takes from the queue, and that it keeps what holds of a
-- mempool.
use hypersdk.Base.{
  ℕ, zero, suc, ◌≤◌, ◌≡◌, refl, ap, ◌∙◌, ◌⊎◌, true, false, List, [], ◌∷◌, none, some, Bytes,
  Bytes_eq, bytes_eq_iff, if-both, sym, subst, List-cases, empty_set, inl, inr, include, take, drop,
  arith,
}
use hypersdk.Mempool.Queue.{Item, discard}
use hypersdk.Mempool.Weights.{weigh, is_id, Genuine, is_id_self}
use hypersdk.Mempool.Pool.{
  Mempool, add_items, release, pop_next, start_streaming, stream_items, prepare_stream, stream,
  finish_streaming,
}
use hypersdk.Mempool.Invariant.{IsValid, release-IsDraining}
use hypersdk.Mempool.Adding.{add_items-IsValid}
use hypersdk.Mempool.Operations.{restream-IsValid, prepare-IsValid, draw-IsDraining}

-- What `popNext` takes, where the queue is not empty.
abbrev pub popped : Mempool → Item → Mempool
popped m x = release (record m { heap = discard x.id m.heap }) x

pub pop_next-cases :
    (m : Mempool)
    → ((m.queue ≡ []) × (pop_next m ≡ (m, none)))
      ⊎ ((x : Item) × (xs : List Item) × (m.queue ≡ x ∷ xs) × (pop_next m ≡ (popped m x, some x)))
unfolding pop_next
pop_next-cases m = elim (List-cases m.queue) [
  | inl e ↦ inl (e, rw (e) refl)
  | inr (x, xs, e) ↦ inr (x, xs, e, rw (e) refl)
]

discard-first : (x : Item) (xs : List Item) → discard x.id (x ∷ xs) ≡ xs
unfolding discard
discard-first x xs = rw ((bytes_eq_iff x.id x.id).1 refl) refl

queue-popped :
    (m : Mempool) (x : Item) (xs : List Item) → m.queue ≡ x ∷ xs → (popped m x).queue ≡ xs
unfolding release
queue-popped m x xs e = rw (e) (discard-first x xs)

-- The mempool after an item is streamed.
abbrev pub streamed : Mempool → Item → Mempool
streamed m x = record (popped m x) { streamed_items = include (popped m x).streamed_items x.id }

pub stream_items-none :
    (m : Mempool) (n : ℕ) → pop_next m ≡ (m, none) → stream_items m (suc n) ≡ (m, [])
unfolding stream_items
stream_items-none m n p = rw (p, stream_items) (rw (p) refl)

pub stream_items-some :
    (m : Mempool) (n : ℕ) (x : Item)
    → pop_next m ≡ (popped m x, some x)
    → stream_items m (suc n)
      ≡ ((stream_items (streamed m x) n).0, x ∷ (stream_items (streamed m x) n).1)
unfolding stream_items
stream_items-some m n x p = rw (p, stream_items) (rw (p) refl)

-- Streaming takes the items at the front of the queue, in its order, and leaves the others.
pub stream_items-take :
    (m : Mempool) (n : ℕ)
    → ((stream_items m n).1 ≡ take n m.queue) × ((stream_items m n).0.queue ≡ drop n m.queue)
unfolding stream_items
stream_items-take m zero = (refl, refl)
stream_items-take m (suc n) = elim (pop_next-cases m) [
  | inl (e, p) ↦
      rw (stream_items-none m n p) (ap (take (suc n)) (sym e), e ∙ ap (drop (suc n)) (sym e))
  | inr (x, xs, e, p) ↦
      let (ih, left) = stream_items-take (streamed m x) n in
      rw (stream_items-some m n x p) (
        ap (λ ys. x ∷ ys) (ih ∙ ap (take n) (queue-popped m x xs e)) ∙ ap (take (suc n)) (sym e),
        left ∙ ap (drop n) (queue-popped m x xs e) ∙ ap (drop (suc n)) (sym e),
      )
]

module _ {item_of : Bytes → Item} {cap sponsor_cap : ℕ} where
  pub popped-IsValid :
      (m : Mempool) (x : Item) (xs : List Item)
      → m.queue ≡ x ∷ xs
      → IsValid item_of cap sponsor_cap m
      → (item_of x.id ≡ x) × IsValid item_of cap sponsor_cap (popped m x)
  popped-IsValid m x xs e w =
      let g : Genuine item_of (x ∷ xs) = subst (Genuine item_of) e w.genuine_queue in
      let held : 1 ≤ weigh (is_id x.id) m.heap =
        omega (arith, w.split (is_id x.id), ap (weigh (is_id x.id)) e, is_id_self x) in
      (g.0, release-IsDraining _ x [] (draw-IsDraining m x g.0 held w))

  pub pop_next-IsValid :
      (m : Mempool)
      → IsValid item_of cap sponsor_cap m
      → IsValid item_of cap sponsor_cap (pop_next m).0
  pop_next-IsValid m w = elim (pop_next-cases m) [
    | inl (e, p) ↦ rw (p) w
    | inr (x, xs, e, p) ↦ rw (p) (popped-IsValid m x xs e w).1
  ]

  streamed-IsValid :
      (m : Mempool) (x : Item) (xs : List Item)
      → m.queue ≡ x ∷ xs
      → IsValid item_of cap sponsor_cap m
      → IsValid item_of cap sponsor_cap (streamed m x)
  streamed-IsValid m x xs e w =
      let v = (popped-IsValid m x xs e w).1 in
      restream-IsValid (popped m x) _
        (λ i h. ground (
          arith,
          v.unstreamed i,
          w.once x.id,
          ap (weigh (is_id x.id)) e,
          ap (weigh (is_id x.id)) (queue-popped m x xs e),
          is_id_self x,
          bytes_eq_iff i x.id,
        ))
        v

  pub stream_items-IsValid :
      (m : Mempool) (n : ℕ)
      → IsValid item_of cap sponsor_cap m
      → IsValid item_of cap sponsor_cap (stream_items m n).0 × Genuine item_of (stream_items m n).1
  unfolding stream_items
  stream_items-IsValid m zero w = (w, _)
  stream_items-IsValid m (suc n) w = elim (pop_next-cases m) [
    | inl (e, p) ↦ rw (stream_items-none m n p) (w, _)
    | inr (x, xs, e, p) ↦
        let (v, g) = stream_items-IsValid (streamed m x) n (streamed-IsValid m x xs e w) in
        rw (stream_items-some m n x p) (v, ((popped-IsValid m x xs e w).0, g))
  ]

  pub start_streaming-IsValid :
      (m : Mempool)
      → IsValid item_of cap sponsor_cap m
      → IsValid item_of cap sponsor_cap (start_streaming m)
  unfolding start_streaming
  start_streaming-IsValid m w = restream-IsValid m empty_set (λ i h. cc) w

  pub prepare_stream-IsValid :
      (m : Mempool) (n : ℕ)
      → IsValid item_of cap sponsor_cap m
      → IsValid item_of cap sponsor_cap (prepare_stream m n)
  unfolding prepare_stream
  prepare_stream-IsValid m n w =
      let (v, g) = stream_items-IsValid m n w in
      prepare-IsValid (stream_items m n).0 (stream_items m n).1 true g v

  pub stream-IsValid :
      (m : Mempool) (n : ℕ)
      → IsValid item_of cap sponsor_cap m
      → IsValid item_of cap sponsor_cap (stream m n).0
  unfolding stream
  stream-IsValid m n w =
      if-both (λ (r : Mempool × List Item). IsValid item_of cap sponsor_cap r.0)
        m.next_stream_fetched _ _ (prepare-IsValid m [] false _ w) (stream_items-IsValid m n w).0

  pub finish_streaming-IsValid :
      (m : Mempool) (xs : List Item)
      → Genuine item_of xs
      → IsValid item_of cap sponsor_cap m
      → IsValid item_of cap sponsor_cap (finish_streaming m xs).0
  unfolding finish_streaming
  finish_streaming-IsValid m xs g w =
      let given = add_items (record m { streamed_items = empty_set }) xs true in
      let v =
        add_items-IsValid (record m { streamed_items = empty_set }) xs true g
          (restream-IsValid m empty_set (λ i h. cc) w) in
      if-both (λ (r : Mempool × ℕ). IsValid item_of cap sponsor_cap r.0) given.next_stream_fetched _
        _
        (prepare-IsValid (add_items given given.next_stream true) [] false _
          (add_items-IsValid given given.next_stream true v.genuine_next v))
        v

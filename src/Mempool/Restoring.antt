-- ===== src/Mempool/Restoring.antt =====
-- internal/mempool/mempool.go: FinishStreaming gives back what streaming took.
use hypersdk.Base.{
  ℕ, zero, suc, ◌+◌, ◌≤◌, ◌≡◌, refl, ap, ◌∙◌, Bool, true, false, ◌||◌, List, [], ◌∷◌, Bytes,
  Bytes_eq, bytes_eq_iff, pos, int_eq, take, drop, length, inl, inr, empty_set, arith,
}
use hypersdk.Mempool.Queue.{Item, has_id}
use hypersdk.Mempool.Weights.{weigh, is_id, is_owned, has_id-weigh, length-weigh, Genuine}
use hypersdk.Mempool.Pool.{
  Mempool, owned_by, add_item, add_items, start_streaming, stream_items, finish_streaming, release,
}
use hypersdk.Mempool.Invariant.{IsValid}
use hypersdk.Mempool.Adding.{IsWelcome, placed, placed-IsValid, owned_by-tally}
use hypersdk.Mempool.Operations.{restream-IsValid}
use hypersdk.Mempool.Streaming.{
  pop_next-cases, stream_items-none, stream_items-some, streamed, stream_items-take,
  stream_items-IsValid, start_streaming-IsValid,
}

-- Items put on the front of a queue one by one.
abbrev pub push_fronts : List Item → List Item → List Item
push_fronts [] queue = queue
push_fronts (x ∷ xs) queue = push_fronts xs (x ∷ queue)

weigh-take-drop :
    (f : Item → ℕ) (n : ℕ) (xs : List Item) → weigh f (take n xs) + weigh f (drop n xs) ≡ weigh f xs
weigh-take-drop f zero xs = omega arith
weigh-take-drop f (suc n) [] = refl
weigh-take-drop f (suc n) (x ∷ xs) = omega (arith, weigh-take-drop f n xs)

fetched-add_item :
    (m : Mempool) (x : Item) (front : Bool)
    → (add_item m x front).next_stream_fetched ≡ m.next_stream_fetched
unfolding add_item
fetched-add_item m x front = ground arith

fetched-add_items :
    (m : Mempool) (xs : List Item) (front : Bool)
    → (add_items m xs front).next_stream_fetched ≡ m.next_stream_fetched
unfolding add_items
fetched-add_items m [] front = refl
fetched-add_items m (x ∷ xs) front =
    fetched-add_items (add_item m x front) xs front ∙ fetched-add_item m x front

fetched-stream_items :
    (m : Mempool) (n : ℕ) → (stream_items m n).0.next_stream_fetched ≡ m.next_stream_fetched
unfolding stream_items release
fetched-stream_items m zero = refl
fetched-stream_items m (suc n) = elim (pop_next-cases m) [
  | inl (e, p) ↦ rw (stream_items-none m n p) refl
  | inr (x, xs, e, p) ↦ rw (stream_items-some m n x p) (fetched-stream_items (streamed m x) n)
]

module _ {item_of : Bytes → Item} {cap sponsor_cap : ℕ} where
  -- `add` takes a welcome item.
  add_item-IsWelcome :
      (m : Mempool) (x : Item) (front : Bool)
      → IsValid item_of cap sponsor_cap m
      → IsWelcome cap sponsor_cap m x
      → add_item m x front ≡ placed m x front
  unfolding add_item
  add_item-IsWelcome m x front w v =
      let new : (m.streamed_items x.id || has_id x.id m.heap) ≡ false =
        ground (arith, v.unstreamed, v.absent, has_id-weigh x.id m.heap, w.split (is_id x.id)) in
      let fair : int_eq (owned_by (m.owned x.sponsor)) m.max_sponsor_size ≡ false = ground (
        arith,
        v.fair,
        w.caps,
        w.owners x.sponsor,
        owned_by-tally (weigh (is_owned x.sponsor) m.queue),
      ) in
      let room : int_eq (pos (length m.queue)) m.max_size ≡ false =
        ground (arith, v.fits, w.caps) in
      rw (new, fair, room) refl

-- What FinishStreaming leaves where no stream is prepared.
finish_idle :
    (m : Mempool) (xs : List Item)
    → m.next_stream_fetched ≡ false
    → (finish_streaming m xs).0.queue
      ≡ (add_items (record m { streamed_items = empty_set }) xs true).queue
unfolding finish_streaming
finish_idle m xs h =
    let same = fetched-add_items (record m { streamed_items = empty_set }) xs true ∙ h in
    ground (arith, same)

-- A mempool that is streamed, with all items given back at the end.
abbrev pub given_back : Mempool → ℕ → Mempool
given_back m n = let (left, xs) = stream_items (start_streaming m) n in (finish_streaming left xs).0

-- The items are new, also to each other, and there is room for all of them.
pub record AllWelcome (item_of : Bytes → Item) (cap sponsor_cap : ℕ) (m : Mempool) (xs : List Item)
    : Type 0 where
  pub valid : IsValid item_of cap sponsor_cap m
  pub genuine : Genuine item_of xs
  pub unstreamed : (i : Bytes) → m.streamed_items i ≡ false
  pub once : (i : Bytes) → weigh (is_id i) xs + weigh (is_id i) m.queue ≤ 1
  pub fair : (a : Bytes) → weigh (is_owned a) xs + weigh (is_owned a) m.queue ≤ sponsor_cap
  pub fits : length xs + length m.queue ≤ cap

module _ {item_of : Bytes → Item} {cap sponsor_cap : ℕ} where
  AllWelcome-first :
      (m : Mempool) (x : Item) (xs : List Item)
      → AllWelcome item_of cap sponsor_cap m (x ∷ xs)
      → IsWelcome cap sponsor_cap m x
  AllWelcome-first m x xs v = record {
    unstreamed = v.unstreamed x.id;
    absent = ground (arith, v.once x.id, bytes_eq_iff x.id x.id);
    fair = ground (arith, v.fair x.sponsor, bytes_eq_iff x.sponsor x.sponsor);
    fits = omega (arith, v.fits);
  }

  queue-add_items :
      (m : Mempool) (xs : List Item)
      → AllWelcome item_of cap sponsor_cap m xs
      → (add_items m xs true).queue ≡ push_fronts xs m.queue
  unfolding add_items
  queue-add_items m [] v = refl
  queue-add_items m (x ∷ xs) v =
      let first = AllWelcome-first m x xs v in
      let rest : AllWelcome item_of cap sponsor_cap (placed m x true) xs = record {
        valid = placed-IsValid m x true v.genuine.0 first v.valid;
        genuine = v.genuine.1;
        unstreamed = v.unstreamed;
        once = λ i. omega (arith, v.once i);
        fair = λ a. omega (arith, v.fair a);
        fits = omega (arith, v.fits);
      } in
      ap (λ r. (add_items r xs true).queue) (add_item-IsWelcome m x true v.valid first)
      ∙ queue-add_items (placed m x true) xs rest

  -- The items that streaming took are welcome to the mempool that it left.
  stream_items-AllWelcome :
      (m : Mempool) (n : ℕ)
      → IsValid item_of cap sponsor_cap m
      → AllWelcome item_of cap sponsor_cap
          (record (stream_items m n).0 { streamed_items = empty_set })
          (stream_items m n).1
  stream_items-AllWelcome m n w =
      let (v, g) = stream_items-IsValid m n w in
      let parts : (f : Item → ℕ)
          → weigh f (stream_items m n).1 + weigh f (stream_items m n).0.queue ≡ weigh f m.queue =
        λ f. omega (
          arith,
          ap (weigh f) (stream_items-take m n).0,
          ap (weigh f) (stream_items-take m n).1,
          weigh-take-drop f n m.queue,
        ) in
      record {
        valid = restream-IsValid (stream_items m n).0 empty_set (λ i h. cc) v;
        genuine = g;
        unstreamed = λ i. refl;
        once = λ i. omega (arith, parts (is_id i), w.once i);
        fair = λ a. omega (arith, parts (is_owned a), w.fair a);
        fits = omega (
          arith,
          parts (λ x. 1),
          w.fits,
          length-weigh m.queue,
          length-weigh (stream_items m n).1,
          length-weigh (stream_items m n).0.queue,
        );
      }

  -- Where a valid mempool without a prepared stream is streamed and all items are given back at the
  -- end, each is in the queue again, those streamed in front of the others, the last one first.
  pub finish_streaming-stream_items :
      (m : Mempool) (n : ℕ)
      → IsValid item_of cap sponsor_cap m
      → m.next_stream_fetched ≡ false
      → (given_back m n).queue ≡ push_fronts (take n m.queue) (drop n m.queue)
  unfolding start_streaming
  finish_streaming-stream_items m n w idle =
      let begun = start_streaming m in
      let (taken, left) = stream_items-take begun n in
      let v = stream_items-AllWelcome begun n (start_streaming-IsValid m w) in
      finish_idle (stream_items begun n).0 (stream_items begun n).1
        (fetched-stream_items begun n ∙ idle)
      ∙ queue-add_items (record (stream_items begun n).0 { streamed_items = empty_set })
          (stream_items begun n).1 v
      ∙ ap (push_fronts (stream_items begun n).1) left
      ∙ ap (λ xs. push_fronts xs (drop n m.queue)) taken

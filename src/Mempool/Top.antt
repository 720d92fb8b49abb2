-- ===== src/Mempool/Top.antt =====
-- internal/mempool/mempool.go: `Top` keeps what holds of a mempool, whatever its callback does.
use hypersdk.Base.{
  ℕ, zero, suc, ◌≡◌, ap, Bool, true, false, ◌||◌, not, List, [], ◌∷◌, Option, some, Bytes,
  List-cases, Bool-cases, inl, inr, length, arith,
}
use hypersdk.Mempool.Queue.{Item}
use hypersdk.Mempool.Weights.{weigh, Genuine, Genuine-append}
use hypersdk.Mempool.Pool.{Mempool, pop_next, top_from, top, item_or, kept, is_error}
use hypersdk.Mempool.Invariant.{IsValid}
use hypersdk.Mempool.Adding.{add_items-IsValid}
use hypersdk.Mempool.Streaming.{popped, pop_next-cases, popped-IsValid}

kept-Genuine :
    (item_of : Bytes → Item) {S E : Type 0} (f : S → Item → S × Bool × Bool × Option E)
    (is_late : S → Bool) (zero_value : Item) (restore : Bool) (x : Item) (xs : List Item)
    → item_of x.id ≡ x
    → Genuine item_of xs
    → Genuine item_of (kept f is_late zero_value restore x xs)
kept-Genuine item_of f is_late zero_value true x xs g h =
    Genuine-append item_of xs (x ∷ []) h (g, tt)
kept-Genuine item_of f is_late zero_value false x xs g h = h

module _ {S E : Type 0} (f : S → Item → S × Bool × Bool × Option E) (is_late : S → Bool)
    (zero_value : Item) where
  -- A round of the loop, by what `popNext` gives.
  abbrev round : ℕ → S → List Item → Mempool × Option Item → Mempool × S × List Item × Option E
  round fuel s xs r =
      let next = item_or f is_late zero_value r.1 in
      let (after, cont, restore, e) = f s next in
      let left = kept f is_late zero_value restore next xs in
      elim (not cont || is_late after || is_error f is_late zero_value e) [
        | true ↦ (r.0, after, left, e)
        | false ↦ top_from f is_late zero_value fuel r.0 after left
      ]

  stepped :
      (fuel : ℕ) (m p : Mempool) (x y : Item) (ys : List Item) (s : S) (xs : List Item)
      → m.heap ≡ y ∷ ys
      → pop_next m ≡ (p, some x)
      → top_from f is_late zero_value (suc fuel) m s xs ≡ round fuel s xs (p, some x)
  unfolding top_from
  stepped fuel m p x y ys s xs h q = rw (h, top_from) (ap (round fuel s xs) q)

module _ {item_of : Bytes → Item} {cap sponsor_cap : ℕ} {S E : Type 0}
    (f : S → Item → S × Bool × Bool × Option E) (is_late : S → Bool) (zero_value : Item) where
  -- A heap that holds something goes with a queue that does.
  heap-queue :
      (m : Mempool) (y : Item) (ys : List Item)
      → IsValid item_of cap sponsor_cap m
      → m.heap ≡ y ∷ ys
      → m.queue ≡ []
      → ⊥
  heap-queue m y ys w h q =
      omega (arith, w.split (λ x. 1), ap (weigh (λ x. 1)) h, ap (weigh (λ x. 1)) q)

  top_from-IsValid :
      (fuel : ℕ) (m : Mempool) (s : S) (xs : List Item)
      → IsValid item_of cap sponsor_cap m
      → Genuine item_of xs
      → IsValid item_of cap sponsor_cap (top_from f is_late zero_value fuel m s xs).0
        × Genuine item_of (top_from f is_late zero_value fuel m s xs).2
  unfolding top_from
  top_from-IsValid zero m s xs w g = (w, g)
  top_from-IsValid (suc fuel) m s xs w g = elim (List-cases m.heap) [
    | inl h ↦ rw (h, top_from) (w, g)
    | inr (y, ys, h) ↦ elim (pop_next-cases m) [
      | inl (q, p) ↦ absurd (heap-queue m y ys w h q)
      | inr (x, rest, q, p) ↦
          let (genuine, v) = popped-IsValid m x rest q w in
          let (after, cont, restore, e) = f s x in
          let more = kept-Genuine item_of f is_late zero_value restore x xs genuine g in
          let out = not cont || is_late after || is_error f is_late zero_value e in
          let turned = stepped f is_late zero_value fuel m (popped m x) x y ys s xs h p in
          elim (Bool-cases out) [
            | inl b ↦ rw (turned, round, b) (v, more)
            | inr b ↦
                rw (turned, round, b)
                  (top_from-IsValid fuel (popped m x) after (kept f is_late zero_value restore x xs)
                    v more)
          ]
    ]
  ]

  pub top-IsValid :
      (m : Mempool) (s : S)
      → IsValid item_of cap sponsor_cap m
      → IsValid item_of cap sponsor_cap (top f is_late zero_value m s).0
  unfolding top
  top-IsValid m s w =
      let (v, g) = top_from-IsValid (length m.heap) m s [] w tt in
      add_items-IsValid (top_from f is_late zero_value (length m.heap) m s []).0
        (top_from f is_late zero_value (length m.heap) m s []).2 true g v

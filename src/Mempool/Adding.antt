-- ===== src/Mempool/Adding.antt =====
-- internal/mempool/mempool.go: what `add` takes, and that it keeps what holds of a mempool.
use hypersdk.Base.{
  ℕ, zero, suc, ◌+◌, ◌≤◌, ◌≡◌, refl, ◌⊎◌, Bool, true, false, List, [], ◌∷◌, ◌++◌, some, Bytes, ◌==◌,
  Bytes_eq, bytes_eq_iff, Bool-cases, inl, inr, length, pos, ◌+ℤ◌, assign, int_eq, ◌||◌,
  if◌then◌else◌, arith,
}
use hypersdk.Mempool.Queue.{Item, has_id}
use hypersdk.Mempool.Weights.{
  weigh, is_id, is_owned, weigh-append, length-weigh, has_id-weigh, Genuine, Genuine-append,
}
use hypersdk.Mempool.Pool.{Mempool, owned_by, add_item, add_items}
use hypersdk.Mempool.Invariant.{IsValid, tally}

-- What `add` puts into a pool that has room, at either end.
pub weigh-placed :
    (f : Item → ℕ) (x : Item) (xs : List Item) (front : Bool)
    → weigh f (if front then x ∷ xs else xs ++ x ∷ []) ≡ f x + weigh f xs
weigh-placed f x xs true = refl
weigh-placed f x xs false = omega (arith, weigh-append f xs (x ∷ []))

Genuine-placed :
    (item_of : Bytes → Item) (x : Item) (xs : List Item) (front : Bool)
    → item_of x.id ≡ x
    → Genuine item_of xs
    → Genuine item_of (if front then x ∷ xs else xs ++ x ∷ [])
Genuine-placed item_of x xs true p g = (p, g)
Genuine-placed item_of x xs false p g = Genuine-append item_of xs (x ∷ []) g (p, _)

pub owned_by-tally : (n : ℕ) → owned_by (tally n) ≡ pos n
unfolding owned_by
owned_by-tally zero = refl
owned_by-tally (suc n) = refl

one_more-tally : (n : ℕ) → some (owned_by (tally n) +ℤ pos 1) ≡ tally (1 + n)
unfolding owned_by
one_more-tally zero = refl
one_more-tally (suc n) = ground (arith, owned_by-tally (suc n))

-- What `add` does with an item that it takes.
abbrev pub placed : Mempool → Item → Bool → Mempool
placed m x front = record m {
  queue = if front then x ∷ m.queue else m.queue ++ x ∷ [];
  heap = m.heap ++ x ∷ [];
  owned = assign m.owned x.sponsor (owned_by (m.owned x.sponsor) +ℤ pos 1);
  pending_size = m.pending_size +ℤ pos x.size;
}

-- The item is new, its sponsor has room and so has the pool.
pub record IsWelcome (cap sponsor_cap : ℕ) (m : Mempool) (x : Item) : Type 0 where
  pub unstreamed : m.streamed_items x.id ≡ false
  pub absent : weigh (is_id x.id) m.queue ≡ 0
  pub fair : suc (weigh (is_owned x.sponsor) m.queue) ≤ sponsor_cap
  pub fits : suc (length m.queue) ≤ cap

module _ {item_of : Bytes → Item} {cap sponsor_cap : ℕ} where
  placed-owners :
      (m : Mempool) (x : Item) (front : Bool)
      → IsValid item_of cap sponsor_cap m
      → (a : Bytes)
      → (placed m x front).owned a ≡ tally (weigh (is_owned a) (placed m x front).queue)
  placed-owners m x front w a = elim (Bool-cases (a == x.sponsor)) [
    | inl e ↦
        let same : a ≡ x.sponsor = (bytes_eq_iff a x.sponsor).0 e in
        let one : is_owned a x ≡ 1 = ground (arith, bytes_eq_iff x.sponsor a) in
        let was : m.owned x.sponsor ≡ tally (weigh (is_owned a) m.queue) =
          rw (← same) (w.owners a) in
        rw (e, weigh-placed (is_owned a) x m.queue front, one, was) (one_more-tally _)
    | inr e ↦
        let none_of : is_owned a x ≡ 0 =
          ground (arith, bytes_eq_iff x.sponsor a, bytes_eq_iff a x.sponsor) in
        let step : weigh (is_owned a) (placed m x front).queue ≡ weigh (is_owned a) m.queue =
          omega (arith, none_of, weigh-placed (is_owned a) x m.queue front) in
        rw (e, step) (w.owners a)
  ]

  pub placed-IsValid :
      (m : Mempool) (x : Item) (front : Bool)
      → item_of x.id ≡ x
      → IsWelcome cap sponsor_cap m x
      → IsValid item_of cap sponsor_cap m
      → IsValid item_of cap sponsor_cap (placed m x front)
  placed-IsValid m x front p v w = record {
    genuine_queue = Genuine-placed item_of x m.queue front p w.genuine_queue;
    genuine_heap = Genuine-placed item_of x m.heap false p w.genuine_heap;
    genuine_removed = _;
    genuine_next = w.genuine_next;
    split = λ f.
        omega (arith, w.split f, weigh-placed f x m.queue front, weigh-append f m.heap (x ∷ []));
    once = λ i.
        ground
          (arith, w.once i, weigh-placed (is_id i) x m.queue front, v.absent, bytes_eq_iff x.id i);
    pending = ground (arith, w.pending, weigh-placed (λ y. y.size) x m.queue front);
    owners = placed-owners m x front w;
    caps = w.caps;
    fits = omega (
      arith,
      v.fits,
      length-weigh m.queue,
      length-weigh (placed m x front).queue,
      weigh-placed (λ y. 1) x m.queue front,
    );
    fair = λ a. ground (
      arith,
      w.fair a,
      weigh-placed (is_owned a) x m.queue front,
      v.fair,
      bytes_eq_iff x.sponsor a,
    );
    unstreamed = λ i h. ground (
      arith,
      w.unstreamed i,
      v.unstreamed,
      weigh-placed (is_id i) x m.queue front,
      bytes_eq_iff x.id i,
    );
  }

  add_item-cases :
      (m : Mempool) (x : Item) (front : Bool)
      → IsValid item_of cap sponsor_cap m
      → (add_item m x front ≡ m)
        ⊎ (IsWelcome cap sponsor_cap m x × (add_item m x front ≡ placed m x front))
  unfolding add_item
  add_item-cases m x front w = elim (Bool-cases (m.streamed_items x.id || has_id x.id m.heap)) [
    | inl e ↦ inl (rw (e) refl)
    | inr new ↦ elim (Bool-cases (int_eq (owned_by (m.owned x.sponsor)) m.max_sponsor_size)) [
      | inl e ↦ inl (rw (new, e) refl)
      | inr fair ↦ elim (Bool-cases (int_eq (pos (length m.queue)) m.max_size)) [
        | inl e ↦ inl (rw (new, fair, e) refl)
        | inr room ↦ inr (
          record {
            unstreamed = ground (arith, new);
            absent = ground (arith, new, has_id-weigh x.id m.heap, w.split (is_id x.id));
            fair = ground (
              arith,
              w.fair x.sponsor,
              w.caps,
              fair,
              w.owners x.sponsor,
              owned_by-tally (weigh (is_owned x.sponsor) m.queue),
            );
            fits = ground (arith, w.fits, w.caps, room);
          },
          rw (new, fair, room) refl,
        )
      ]
    ]
  ]

  pub add_item-IsValid :
      (m : Mempool) (x : Item) (front : Bool)
      → item_of x.id ≡ x
      → IsValid item_of cap sponsor_cap m
      → IsValid item_of cap sponsor_cap (add_item m x front)
  add_item-IsValid m x front p w = elim (add_item-cases m x front w) [
    | inl e ↦ rw (e) w
    | inr (v, e) ↦ rw (e) (placed-IsValid m x front p v w)
  ]

  pub add_items-IsValid :
      (m : Mempool) (xs : List Item) (front : Bool)
      → Genuine item_of xs
      → IsValid item_of cap sponsor_cap m
      → IsValid item_of cap sponsor_cap (add_items m xs front)
  unfolding add_items
  add_items-IsValid m [] front g w = w
  add_items-IsValid m (x ∷ xs) front (p, g) w =
      add_items-IsValid (add_item m x front) xs front g (add_item-IsValid m x front p w)

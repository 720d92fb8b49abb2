-- ===== src/Mempool/Invariant.antt =====
-- internal/mempool/mempool.go: what holds of a mempool, also while items that have left the heap wait
-- to be released.
use hypersdk.Base.{
  ℕ, zero, suc, ◌+◌, ◌≤◌, ◌≡◌, refl, true, List, [], ◌∷◌, Option, none, some, Bytes, ◌==◌, Bytes_eq,
  bytes_eq_iff, Bool-cases, Option-cases, inl, inr, length, ℤ, pos, if◌then◌else◌, arith,
}
use hypersdk.Mempool.Queue.{Item, discard}
use hypersdk.Mempool.Weights.{
  weigh, is_id, is_owned, length-weigh, Genuine, Genuine-discard, weigh-discard_member, is_id_self,
}
use hypersdk.Mempool.Pool.{Mempool, new_mempool, one_less, remove_from_owned, release}

-- The entry that `owned` has for so many items.
abbrev pub tally : ℕ → Option ℤ
tally zero = none
tally (suc n) = some (pos (suc n))

-- `item_of` is the item of an identifier, `cap` and `sponsor_cap` the limits.
module _ (item_of : Bytes → Item) (cap sponsor_cap : ℕ) where
  -- The heap and the items to be released make up the queue, whose identifiers differ, and whose
  -- items are what the counts count and the limits bound.
  pub record IsDraining (m : Mempool) (rs : List Item) : Type 0 where
    pub genuine_queue : Genuine item_of m.queue
    pub genuine_heap : Genuine item_of m.heap
    pub genuine_removed : Genuine item_of rs
    pub genuine_next : Genuine item_of m.next_stream
    pub split : (f : Item → ℕ) → weigh f rs + weigh f m.heap ≡ weigh f m.queue
    pub once : (i : Bytes) → weigh (is_id i) m.queue ≤ 1
    pub pending : m.pending_size ≡ pos (weigh (λ x. x.size) m.queue)
    pub owners : (a : Bytes) → m.owned a ≡ tally (weigh (is_owned a) m.queue)
    pub caps : (m.max_size ≡ pos cap) × (m.max_sponsor_size ≡ pos sponsor_cap)
    pub fits : length m.queue ≤ cap
    pub fair : (a : Bytes) → weigh (is_owned a) m.queue ≤ sponsor_cap
    pub unstreamed : (i : Bytes) → m.streamed_items i ≡ true → weigh (is_id i) m.queue ≡ 0

  abbrev pub IsValid : Mempool → Type 0
  IsValid m = IsDraining m []

  pub new_mempool-IsValid : IsValid (new_mempool (pos cap) (pos sponsor_cap))
  unfolding new_mempool
  new_mempool-IsValid = record {
    genuine_queue = _;
    genuine_heap = _;
    genuine_removed = _;
    genuine_next = _;
    split = λ f. refl;
    once = λ i. omega arith;
    pending = refl;
    owners = λ a. refl;
    caps = (refl, refl);
    fits = omega arith;
    fair = λ a. omega arith;
    unstreamed = λ i h. refl;
  }

one_less-tally : (n : ℕ) → one_less (tally (suc n)) ≡ tally n
unfolding one_less
one_less-tally zero = refl
one_less-tally (suc n) = ground arith

owned-remove_from_owned :
    (m : Mempool) (x : Item) (a : Bytes)
    → (remove_from_owned m x).owned a
      ≡ (if a == x.sponsor then one_less (m.owned x.sponsor) else m.owned a)
unfolding remove_from_owned
owned-remove_from_owned m x a = elim (Option-cases (one_less (m.owned x.sponsor))) [
  | inl e ↦ ground arith
  | inr (n, e) ↦ ground arith
]

module _ {item_of : Bytes → Item} {cap sponsor_cap : ℕ} where
  -- An item to be released is in the queue, and every sum loses what it adds.
  weigh-release :
      (m : Mempool) (x : Item) (rs : List Item)
      → IsDraining item_of cap sponsor_cap m (x ∷ rs)
      → (f : Item → ℕ) → weigh f (discard x.id m.queue) + f x ≡ weigh f m.queue
  weigh-release m x rs w f =
      weigh-discard_member item_of f x m.queue w.genuine_removed.0 w.genuine_queue
        (omega (arith, w.split (is_id x.id), is_id_self x))

  owned-release :
      (m : Mempool) (x : Item) (rs : List Item)
      → IsDraining item_of cap sponsor_cap m (x ∷ rs)
      → (a : Bytes) → (release m x).owned a ≡ tally (weigh (is_owned a) (discard x.id m.queue))
  unfolding release
  owned-release m x rs w a = elim (Bool-cases (a == x.sponsor)) [
    | inl e ↦
        let same : a ≡ x.sponsor = (bytes_eq_iff a x.sponsor).0 e in
        let one : is_owned a x ≡ 1 = ground (arith, bytes_eq_iff x.sponsor a) in
        let step : weigh (is_owned a) m.queue ≡ suc (weigh (is_owned a) (discard x.id m.queue)) =
          omega (arith, one, weigh-release m x rs w (is_owned a)) in
        let was : m.owned x.sponsor ≡ tally (weigh (is_owned a) m.queue) =
          rw (← same) (w.owners a) in
        rw (owned-remove_from_owned m x a, e, was, step) (one_less-tally _)
    | inr e ↦
        let none_of : is_owned a x ≡ 0 =
          ground (arith, bytes_eq_iff x.sponsor a, bytes_eq_iff a x.sponsor) in
        let step : weigh (is_owned a) m.queue ≡ weigh (is_owned a) (discard x.id m.queue) =
          omega (arith, none_of, weigh-release m x rs w (is_owned a)) in
        rw (owned-remove_from_owned m x a, e, w.owners a, step) refl
  ]

  pub release-IsDraining :
      (m : Mempool) (x : Item) (rs : List Item)
      → IsDraining item_of cap sponsor_cap m (x ∷ rs)
      → IsDraining item_of cap sponsor_cap (release m x) rs
  unfolding release
  release-IsDraining m x rs w = record {
    genuine_queue = Genuine-discard item_of x.id m.queue w.genuine_queue;
    genuine_heap = w.genuine_heap;
    genuine_removed = w.genuine_removed.1;
    genuine_next = w.genuine_next;
    split = λ f. omega (arith, w.split f, weigh-release m x rs w f);
    once = λ i. omega (arith, w.once i, weigh-release m x rs w (is_id i));
    pending = ground (arith, w.pending, weigh-release m x rs w (λ y. y.size));
    owners = owned-release m x rs w;
    caps = w.caps;
    fits = omega (
      arith,
      w.fits,
      length-weigh m.queue,
      length-weigh (discard x.id m.queue),
      weigh-release m x rs w (λ y. 1),
    );
    fair = λ a. omega (arith, w.fair a, weigh-release m x rs w (is_owned a));
    unstreamed = λ i h. omega (arith, w.unstreamed i h, weigh-release m x rs w (is_id i));
  }

-- ===== src/Mempool/Weights.antt =====
-- internal/list and internal/eheap: sums over the items of a queue or a heap, which forget the order.
use hypersdk.Base.{
  ℕ, ◌+◌, ◌≤◌, ◌≡◌, refl, ap, List, [], ◌∷◌, ◌++◌, Bytes, ◌==◌, Bytes_eq, bytes_eq_iff, Bool-cases,
  inl, inr, ltb, length, if◌then◌else◌, arith,
}
use hypersdk.Mempool.Queue.{Item, has_id, discard}

abbrev pub weigh : (Item → ℕ) → List Item → ℕ
weigh f [] = 0
weigh f (x ∷ xs) = f x + weigh f xs

abbrev pub is_id : Bytes → Item → ℕ
is_id i x = if x.id == i then 1 else 0

abbrev pub is_owned : Bytes → Item → ℕ
is_owned a x = if x.sponsor == a then 1 else 0

pub weigh-append : (f : Item → ℕ) (xs ys : List Item) → weigh f (xs ++ ys) ≡ weigh f xs + weigh f ys
weigh-append f [] ys = omega arith
weigh-append f (x ∷ xs) ys = omega (arith, weigh-append f xs ys)

pub length-weigh : (xs : List Item) → length xs ≡ weigh (λ x. 1) xs
length-weigh [] = refl
length-weigh (x ∷ xs) = omega (arith, length-weigh xs)

pub has_id-weigh : (i : Bytes) (xs : List Item) → has_id i xs ≡ ltb 0 (weigh (is_id i) xs)
unfolding has_id
has_id-weigh i [] = refl
has_id-weigh i (x ∷ xs) = ground (arith, has_id-weigh i xs)

-- What an identifier stands for: it is a hash of the item.
module _ (item_of : Bytes → Item) where
  abbrev pub Genuine : List Item → Type 0
  Genuine [] = Unit {0}
  Genuine (x ∷ xs) = (item_of x.id ≡ x) × Genuine xs

  pub Genuine-append : (xs ys : List Item) → Genuine xs → Genuine ys → Genuine (xs ++ ys)
  Genuine-append [] ys g h = h
  Genuine-append (x ∷ xs) ys (p, g) h = (p, Genuine-append xs ys g h)

  pub Genuine-discard : (i : Bytes) (xs : List Item) → Genuine xs → Genuine (discard i xs)
  unfolding discard
  Genuine-discard i [] g = g
  Genuine-discard i (x ∷ xs) (p, g) = elim (Bool-cases (x.id == i)) [
    | inl e ↦ rw (e, discard) g
    | inr e ↦ rw (e, discard) (p, Genuine-discard i xs g)
  ]

  -- Every sum loses what the item adds to it.
  pub weigh-discard :
      (f : Item → ℕ) (i : Bytes) (xs : List Item)
      → Genuine xs
      → 1 ≤ weigh (is_id i) xs
      → weigh f (discard i xs) + f (item_of i) ≡ weigh f xs
  unfolding discard
  weigh-discard f i [] g h = absurd (omega arith)
  weigh-discard f i (x ∷ xs) (p, g) h = elim (Bool-cases (x.id == i)) [
    | inl e ↦
        let same : f (item_of i) ≡ f x = rw (← (bytes_eq_iff x.id i).0 e) (ap f p) in
        ground (arith, same)
    | inr e ↦ ground (arith, weigh-discard f i xs g)
  ]

  pub weigh-discard_member :
      (f : Item → ℕ) (x : Item) (xs : List Item)
      → item_of x.id ≡ x
      → Genuine xs
      → 1 ≤ weigh (is_id x.id) xs
      → weigh f (discard x.id xs) + f x ≡ weigh f xs
  weigh-discard_member f x xs p g h = omega (arith, weigh-discard f x.id xs g h, ap f p)

pub is_id_self : (x : Item) → is_id x.id x ≡ 1
is_id_self x = ground (arith, bytes_eq_iff x.id x.id)

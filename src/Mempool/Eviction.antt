-- ===== src/Mempool/Eviction.antt =====
-- internal/eheap/eheap.go: what SetMin removes from the heap.
use hypersdk.Base.{
  ℕ, zero, suc, ◌+◌, ◌≤◌, ◌≡◌, refl, subst, false, List, [], ◌∷◌, none, some, Bytes, Bytes_eq,
  Bool-cases, Option-cases, inl, inr, ltb, length, if◌then◌else◌, arith,
}
use hypersdk.Mempool.Queue.{Item, discard, peek_min, evict}
use hypersdk.Mempool.Weights.{
  weigh, is_id, length-weigh, Genuine, Genuine-discard, weigh-discard_member, is_id_self,
}

-- The items that expire before the time, and the others.
abbrev pub is_early : ℕ → Item → ℕ
is_early t x = if ltb x.expiry t then 1 else 0

abbrev pub is_late : ℕ → Item → ℕ
is_late t x = if ltb x.expiry t then 0 else 1

peek_min-none : (xs : List Item) → peek_min xs ≡ none → xs ≡ []
unfolding peek_min
peek_min-none [] h = refl
peek_min-none (x ∷ xs) h = elim (Option-cases (peek_min xs)) [
  | inl e ↦ absurd (ground arith)
  | inr (y, e) ↦ absurd (ground arith)
]

-- What the top of a heap of genuine items is: one of them, and none expires before it.
abbrev Tops : (Bytes → Item) → Item → List Item → Type 0
Tops item_of y xs =
    (item_of y.id ≡ y)
    × (1 ≤ weigh (is_id y.id) xs)
    × ((t : ℕ) → ltb y.expiry t ≡ false → weigh (is_early t) xs ≡ 0)

module _ (item_of : Bytes → Item) where
  peek_min-Tops :
      (xs : List Item) (y : Item) → Genuine item_of xs → peek_min xs ≡ some y → Tops item_of y xs
  unfolding peek_min
  peek_min-Tops [] y g h = absurd (ground arith)
  peek_min-Tops (x ∷ xs) y (p, g) h = elim (Option-cases (peek_min xs)) [
    | inl e ↦
        let same : x ≡ y = ground arith in
        rw (← same, peek_min-none xs e) (p, ground (arith, is_id_self x), λ t k. ground arith)
    | inr (z, e) ↦
        let (q, n, least) = peek_min-Tops xs z g e in
        elim (Bool-cases (ltb z.expiry x.expiry)) [
          | inl lt ↦
              let same : z ≡ y = ground arith in
              subst (λ v. Tops item_of v (x ∷ xs)) same
                (q, omega (arith, n), λ t k. ground (arith, least t))
          | inr ge ↦
              let same : x ≡ y = ground arith in
              subst (λ v. Tops item_of v (x ∷ xs)) same
                (p, omega (arith, is_id_self x), λ t k. ground (arith, least t))
        ]
  ]

  -- The items removed expire before the time, those left do not, and together they are the heap.
  pub record IsEvicted (t : ℕ) (heap removed rest : List Item) : Type 0 where
    pub genuine_removed : Genuine item_of removed
    pub genuine_rest : Genuine item_of rest
    pub split : (f : Item → ℕ) → weigh f removed + weigh f rest ≡ weigh f heap
    pub expired : weigh (is_late t) removed ≡ 0
    pub live : weigh (is_early t) rest ≡ 0

  pub evict-IsEvicted :
      (fuel t : ℕ) (heap : List Item)
      → Genuine item_of heap
      → length heap ≤ fuel
      → IsEvicted t heap (evict fuel t heap).0 (evict fuel t heap).1
  unfolding evict
  evict-IsEvicted zero t [] g n = record {
    genuine_removed = _;
    genuine_rest = _;
    split = λ f. refl;
    expired = refl;
    live = refl;
  }
  evict-IsEvicted zero t (x ∷ xs) g n = absurd (omega arith)
  evict-IsEvicted (suc fuel) t heap g n = elim (Option-cases (peek_min heap)) [
    | inl e ↦
        rw (e, evict)
          record {
            genuine_removed = _;
            genuine_rest = g;
            split = λ f. omega arith;
            expired = refl;
            live = rw (peek_min-none heap e) refl;
          }
    | inr (y, e) ↦
        let (p, held, least) = peek_min-Tops heap y g e in
        elim (Bool-cases (ltb y.expiry t)) [
          | inr ge ↦
              rw (e, evict, ge)
                record {
                  genuine_removed = _;
                  genuine_rest = g;
                  split = λ f. omega arith;
                  expired = refl;
                  live = least t ge;
                }
          | inl lt ↦
              let loses : (f : Item → ℕ) → weigh f (discard y.id heap) + f y ≡ weigh f heap =
                λ f. weigh-discard_member item_of f y heap p g held in
              let short : length (discard y.id heap) ≤ fuel =
                omega
                  (arith, n, loses (λ x. 1), length-weigh heap, length-weigh (discard y.id heap)) in
              let ih =
                evict-IsEvicted fuel t (discard y.id heap) (Genuine-discard item_of y.id heap g)
                  short in
              rw (e, evict, lt)
                record {
                  genuine_removed = (p, ih.genuine_removed);
                  genuine_rest = ih.genuine_rest;
                  split = λ f. omega (arith, ih.split f, loses f);
                  expired = ground (arith, ih.expired, lt);
                  live = ih.live;
                }
        ]
  ]

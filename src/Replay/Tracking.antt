-- ===== src/Replay/Tracking.antt =====
-- internal/emap/emap.go: what an expiry map tracks.
use hypersdk.Base.{
  ℕ, zero, suc, ◌≤◌, ◌<◌, ◌≡◌, refl, Bool, true, false, ◌&&◌, ◌||◌, List, [], ◌∷◌, ◌++◌, none, some,
  Bytes, ◌==◌, ℕ_eq, Bytes_eq, bytes_eq_iff, nat_eq, nat_eq_iff, exclude_all, exclude_all_lem,
  contains, contains-append, ltb, leb, length, if◌then◌else◌, Bool-cases, Option-cases, inl, inr,
  ◌⊎◌, ◌↔◌, arith,
}
use hypersdk.Replay.Emap.{
  Item, Emap, new_emap, add, add_items, pop_first, items_of, drop_bucket, set_min_from, set_min,
}

-- The identifier is held in the bucket of the time.
abbrev pub held : Emap → Bytes → ℕ → Bool
held e id t = contains id (items_of (e.times t))

pub record IsWellFormed (e : Emap) : Type 0 where
  pub present : (t : ℕ) (xs : List Bytes) → e.times t ≡ some xs → contains t e.heap ≡ true
  pub seen-held : (id : Bytes) → e.seen id ≡ true → (t : ℕ) × (held e id t ≡ true)
  pub held-seen : (id : Bytes) (t : ℕ) → held e id t ≡ true → e.seen id ≡ true
  pub held_once : (id : Bytes) (t u : ℕ) → held e id t ≡ true → held e id u ≡ true → t ≡ u

pub new_emap-IsWellFormed : IsWellFormed new_emap
unfolding new_emap
new_emap-IsWellFormed = record {
  present = λ t xs h. cc;
  seen-held = λ id h. absurd (ground arith);
  held-seen = λ id t h. cc;
  held_once = λ id t u h k. absurd (ground arith);
}

pop_first-none : (ts : List ℕ) → pop_first ts ≡ none → ts ≡ []
unfolding pop_first
pop_first-none [] h = refl
pop_first-none (t ∷ ts) h = elim (Option-cases (pop_first ts)) [
  | inl e ↦ absurd (ground arith)
  | inr ((l, r), e) ↦ absurd (ground arith)
]

-- `least` is an entry of `ts` below all of `rest`, which holds the others.
abbrev Splits : List ℕ → ℕ → List ℕ → Type 0
Splits ts least rest =
    ((x : ℕ) → contains x ts ≡ (x == least || contains x rest))
    × ((x : ℕ) → contains x rest ≡ true → least ≤ x)
    × (length ts ≡ suc (length rest))

Splits-smaller : (t l : ℕ) (ts r : List ℕ) → l < t → Splits ts l r → Splits (t ∷ ts) l (t ∷ r)
Splits-smaller t l ts r lt (p, q, n) =
    (λ x. ground (arith, p x), λ x h. ground (arith, q x, nat_eq_iff x t), ground arith)

Splits-first : (t l : ℕ) (ts r : List ℕ) → t ≤ l → Splits ts l r → Splits (t ∷ ts) t ts
Splits-first t l ts r le (p, q, n) =
    (λ x. refl, λ x h. ground (arith, p x, q x, nat_eq_iff x l), refl)

pop_first-Splits :
    (ts : List ℕ) (least : ℕ) (rest : List ℕ)
    → pop_first ts ≡ some (least, rest)
    → Splits ts least rest
unfolding pop_first
pop_first-Splits [] least rest h = absurd (ground arith)
pop_first-Splits (t ∷ ts) least rest h = elim (Option-cases (pop_first ts)) [
  | inl e ↦
      let same : (t ≡ least) × ([] ≡ rest) = (ground arith, ground arith) in
      rw (← same.0, ← same.1, pop_first-none ts e) (λ x. refl, λ x k. cc, refl)
  | inr ((l, r), e) ↦
      let ih = pop_first-Splits ts l r e in
      elim (Bool-cases (ltb l t)) [
        | inl lt ↦
            let same : (l ≡ least) × (t ∷ r ≡ rest) = (ground arith, ground arith) in
            rw (← same.0, ← same.1) (Splits-smaller t l ts r (ground arith) ih)
        | inr ge ↦
            let same : (t ≡ least) × (ts ≡ rest) = (ground arith, ground arith) in
            rw (← same.0, ← same.1) (Splits-first t l ts r (ground arith) ih)
      ]
]

-- A round of `SetMin` loses the bucket and nothing else.
held-drop_bucket :
    (e : Emap) (t : ℕ) (rest : List ℕ) (id : Bytes) (u : ℕ)
    → held (drop_bucket e t rest) id u ≡ (if u == t then false else held e id u)
held-drop_bucket e t rest id u = ground arith

drop_bucket-IsWellFormed :
    (e : Emap) (t : ℕ) (rest : List ℕ)
    → IsWellFormed e
    → Splits e.heap t rest
    → IsWellFormed (drop_bucket e t rest)
drop_bucket-IsWellFormed e t rest w (p, q, n) = record {
  present = λ u xs h. ground (arith, p u, w.present u xs);
  seen-held = λ id h. seen_here id h;
  held-seen = λ id u h. ground (
    arith,
    exclude_all_lem e.seen (items_of (e.times t)) id,
    w.held-seen id u,
    w.held_once id u t,
    nat_eq_iff u t,
  );
  held_once = λ id u v h k. ground (arith, w.held_once id u v);
}
  where
    seen_here :
        (id : Bytes)
        → exclude_all e.seen (items_of (e.times t)) id ≡ true
        → (u : ℕ) × (held (drop_bucket e t rest) id u ≡ true)
    seen_here id h =
        let was : (contains id (items_of (e.times t)) ≡ false) × (e.seen id ≡ true) = (
          ground (arith, exclude_all_lem e.seen (items_of (e.times t)) id),
          ground (arith, exclude_all_lem e.seen (items_of (e.times t)) id),
        ) in
        let (u, k) = w.seen-held id was.1 in
        (
          u,
          elim (Bool-cases (nat_eq u t)) [
            | inl same ↦ absurd (ground (arith, nat_eq_iff u t))
            | inr other ↦ ground arith
          ],
        )

-- Where every entry of the heap is at least `t`, so is every time that something is held at.
held-kept :
    (e : Emap) (t : ℕ)
    → IsWellFormed e
    → ((u : ℕ) → contains u e.heap ≡ true → t ≤ u)
    → (id : Bytes) (u : ℕ) → held e id u ≡ (held e id u && leb t u)
held-kept e t w above id u = elim (Option-cases (e.times u)) [
  | inl q ↦ ground arith
  | inr (xs, q) ↦ ground (arith, above u, w.present u xs q)
]

-- What a call of `SetMin` leaves and returns: it forgets what expires before `t`, and returns that.
pub record Evicts (t : ℕ) (e after : Emap) (old evicted : List Bytes) : Type 0 where
  pub valid : IsWellFormed after
  pub holds : (id : Bytes) (u : ℕ) → held after id u ≡ (held e id u && leb t u)
  pub sees : (id : Bytes) → (contains id evicted || after.seen id) ≡ (contains id old || e.seen id)
  pub returns :
      (id : Bytes)
      → (contains id evicted ≡ true)
        ↔ ((contains id old ≡ true) ⊎ ((u : ℕ) × (u < t) × (held e id u ≡ true)))

Evicts-stop :
    (t : ℕ) (e : Emap) (old : List Bytes)
    → IsWellFormed e
    → ((u : ℕ) → contains u e.heap ≡ true → t ≤ u)
    → Evicts t e e old old
Evicts-stop t e old w above = record {
  valid = w;
  holds = held-kept e t w above;
  sees = λ id. refl;
  returns = λ id.
      (λ k. inl k, λ k. elim k [ inl h ↦ h | inr (u, lt, h) ↦ absurd (none_before id u lt h) ]);
}
  where
    none_before : (id : Bytes) (u : ℕ) → u < t → held e id u ≡ true → ⊥
    none_before id u lt h = ground (arith, held-kept e t w above id u)

Evicts-round :
    (t least : ℕ) (rest : List ℕ) (e after : Emap) (old evicted : List Bytes)
    → IsWellFormed e
    → least < t
    → Evicts t (drop_bucket e least rest) after (old ++ items_of (e.times least)) evicted
    → Evicts t e after old evicted
Evicts-round t least rest e after old evicted w lt v = record {
  valid = v.valid;
  holds =
      λ id u. ground (arith, v.holds id u, held-drop_bucket e least rest id u, nat_eq_iff u least);
  sees = λ id. ground (
    arith,
    v.sees id,
    contains-append id old (items_of (e.times least)),
    exclude_all_lem e.seen (items_of (e.times least)) id,
    w.held-seen id least,
  );
  returns = λ id. (
    λ k. elim ((v.returns id).0 k) [
      | inl h ↦ elim (Bool-cases (contains id old)) [
        | inl q ↦ inl q
        | inr q ↦ inr (least, lt, ground (arith, contains-append id old (items_of (e.times least))))
      ]
      | inr (u, lu, h) ↦ inr (u, lu, ground (arith, held-drop_bucket e least rest id u))
    ],
    λ k. (v.returns id).1 (before id k),
  );
}
  where
    before :
        (id : Bytes)
        → (contains id old ≡ true) ⊎ ((u : ℕ) × (u < t) × (held e id u ≡ true))
        → (contains id (old ++ items_of (e.times least)) ≡ true)
          ⊎ ((u : ℕ) × (u < t) × (held (drop_bucket e least rest) id u ≡ true))
    before id (inl h) = inl (ground (arith, contains-append id old (items_of (e.times least))))
    before id (inr (u, lu, h)) = elim (Bool-cases (nat_eq u least)) [
      | inl q ↦
          let same : u ≡ least = (nat_eq_iff u least).0 q in
          let here : contains id (items_of (e.times least)) ≡ true = rw same at h in
          inl (ground (arith, contains-append id old (items_of (e.times least))))
      | inr q ↦ inr (u, lu, ground (arith, held-drop_bucket e least rest id u, nat_eq_iff u least))
    ]

set_min_from-Evicts :
    (fuel t : ℕ) (e : Emap) (old : List Bytes)
    → IsWellFormed e
    → length e.heap ≤ fuel
    → Evicts t e (set_min_from fuel t e old).0 old (set_min_from fuel t e old).1
unfolding set_min_from
set_min_from-Evicts zero t e old w n = Evicts-stop t e old w (λ u h. absurd (empty u e.heap n h))
  where
    empty : (u : ℕ) (ts : List ℕ) → length ts ≤ 0 → contains u ts ≡ true → ⊥
    empty u [] n h = cc
    empty u (x ∷ xs) n h = omega arith
set_min_from-Evicts (suc fuel) t e old w n = elim (Option-cases (pop_first e.heap)) [
  | inl q ↦
      rw (q, set_min_from)
        (Evicts-stop t e old w (λ u h. absurd (nothing u (pop_first-none e.heap q) h)))
  | inr ((least, rest), q) ↦
      let s = pop_first-Splits e.heap least rest q in
      elim (Bool-cases (ltb least t)) [
        | inr ge ↦
            rw (q, set_min_from, ge)
              (Evicts-stop t e old w (λ u h. ground (arith, s.0 u, s.1 u, nat_eq_iff u least)))
        | inl lt ↦
            rw (q, set_min_from, lt)
              (Evicts-round t least rest e _ old _ w (ground arith) (
                set_min_from-Evicts fuel t (drop_bucket e least rest)
                  (old ++ items_of (e.times least)) (drop_bucket-IsWellFormed e least rest w s)
                  (omega (arith, s.2))))
      ]
]
  where
    nothing : (u : ℕ) → e.heap ≡ [] → contains u e.heap ≡ true → ⊥
    nothing u q h = ground arith

-- SetMin on a well-formed map leaves it well-formed. It returns an identifier if and only if the map
-- held it at a time before the given one; what is held at a time is what was held at it if that is not
-- before the given one, and nothing else; and what was seen is returned or still seen.
pub set_min-Evicts :
    (e : Emap) (t : ℕ) → IsWellFormed e → Evicts t e (set_min e t).0 [] (set_min e t).1
unfolding set_min
set_min-Evicts e t w = set_min_from-Evicts (length e.heap) t e [] w (omega arith)

-- What `add` does to what is held.
abbrev pub added : Emap → Bytes → ℕ → Bytes → ℕ → Bool
added e id t j u = if nat_eq t 0 then false else if e.seen id then false else j == id && u == t

pub held-add :
    (e : Emap) (id : Bytes) (t : ℕ) (j : Bytes) (u : ℕ)
    → held (add e id t) j u ≡ (held e j u || added e id t j u)
unfolding add
held-add e id t j u = elim (Option-cases (e.times t)) [
  | inl q ↦ ground (arith, nat_eq_iff u t, bytes_eq_iff j id)
  | inr (xs, q) ↦ ground (arith, nat_eq_iff u t, bytes_eq_iff j id, contains-append j xs (id ∷ []))
]

pub seen-add :
    (e : Emap) (id : Bytes) (t : ℕ) (j : Bytes)
    → (add e id t).seen j ≡ (if nat_eq t 0 then e.seen j else if j == id then true else e.seen j)
unfolding add
seen-add e id t j = elim (Option-cases (e.times t)) [
  | inl q ↦ ground (arith, bytes_eq_iff j id)
  | inr (xs, q) ↦ ground (arith, bytes_eq_iff j id)
]

present-add :
    (e : Emap) (id : Bytes) (t : ℕ)
    → IsWellFormed e
    → (u : ℕ) (xs : List Bytes) → (add e id t).times u ≡ some xs
    → contains u (add e id t).heap ≡ true
unfolding add
present-add e id t w u xs h = elim (Option-cases (e.times t)) [
  | inl q ↦ ground (arith, w.present u xs, nat_eq_iff u t, contains-append u e.heap (t ∷ []))
  | inr (ys, q) ↦ ground (arith, w.present u xs, w.present u ys, nat_eq_iff u t)
]

pub add-IsWellFormed : (e : Emap) (id : Bytes) (t : ℕ) → IsWellFormed e → IsWellFormed (add e id t)
add-IsWellFormed e id t w = record {
  present = present-add e id t w;
  seen-held = λ j h. elim (Bool-cases (e.seen j)) [
    | inl old ↦ let (u, k) = w.seen-held j old in (u, ground (arith, held-add e id t j u))
    | inr fresh ↦ (
      t,
      ground (arith, held-add e id t j t, seen-add e id t j, bytes_eq_iff j id, nat_eq_iff t t),
    )
  ];
  held-seen = λ j u h.
      ground (arith, held-add e id t j u, seen-add e id t j, w.held-seen j u, bytes_eq_iff j id);
  held_once = λ j u v h k. ground (
    arith,
    held-add e id t j u,
    held-add e id t j v,
    w.held_once j u v,
    w.held-seen j u,
    w.held-seen j v,
    bytes_eq_iff j id,
    nat_eq_iff u t,
    nat_eq_iff v t,
  );
}

-- Adding a list of items: what was seen, and what expires at a time that is not zero.
abbrev pub names : List Item → Bytes → Bool
names [] j = false
names (x ∷ xs) j = (if nat_eq x.expiry 0 then false else j == x.id) || names xs j

pub add_items-IsWellFormed :
    (e : Emap) (xs : List Item) → IsWellFormed e → IsWellFormed (add_items e xs)
unfolding add_items
add_items-IsWellFormed e [] w = w
add_items-IsWellFormed e (x ∷ xs) w =
    add_items-IsWellFormed (add e x.id x.expiry) xs (add-IsWellFormed e x.id x.expiry w)

pub seen-add_items :
    (e : Emap) (xs : List Item) (j : Bytes) → (add_items e xs).seen j ≡ (e.seen j || names xs j)
unfolding add_items
seen-add_items e [] j = ground arith
seen-add_items e (x ∷ xs) j =
    ground (arith, seen-add_items (add e x.id x.expiry) xs j, seen-add e x.id x.expiry j)

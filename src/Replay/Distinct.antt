-- ===== src/Replay/Distinct.antt =====
-- internal/validitywindow/validitywindow.go: what the loop that looks for two containers with one
-- identifier finds.
use hypersdk.Base.{
  ◌≡◌, ◌⊎◌, refl, ap, true, false, inl, inr, List, [], ◌∷◌, ◌++◌, map, Bytes, ◌==◌, Bytes_eq,
  bytes_eq_iff, contains, Bool-cases, arith,
}
use hypersdk.Replay.Emap.{Item}
use hypersdk.Replay.Window.{has_repeat}

-- No entry stands among those after it.
abbrev pub Distinct : List Bytes → Type 0
Distinct [] = Unit {0}
Distinct (x ∷ xs) = (contains x xs ≡ false) × Distinct xs

-- Some entry stands at two places.
pub record Repeated (xs : List Bytes) : Type 0 where
  pub entry : Bytes
  pub pre : List Bytes
  pub mid : List Bytes
  pub post : List Bytes
  pub twice : xs ≡ pre ++ entry ∷ (mid ++ entry ∷ post)

abbrev names_of : List Item → List Bytes
names_of xs = map (λ x. x.id) xs

has_repeat_from-Distinct :
    (ids : List Bytes) (xs : List Item)
    → has_repeat ids xs ≡ false
    → Distinct (names_of xs)
      × ((id : Bytes) → contains id ids ≡ true → contains id (names_of xs) ≡ false)
unfolding has_repeat
has_repeat_from-Distinct ids [] h = (tt, λ id k. refl)
has_repeat_from-Distinct ids (x ∷ xs) h =
    let (d, f) = has_repeat_from-Distinct (x.id ∷ ids) xs (ground arith) in
    (
      (ground (arith, f x.id, bytes_eq_iff x.id x.id), d),
      λ id k. ground (arith, f id, bytes_eq_iff id x.id),
    )

pub has_repeat-Distinct :
    (xs : List Item) → has_repeat [] xs ≡ false → Distinct (map (λ x. x.id) xs)
has_repeat-Distinct xs h = (has_repeat_from-Distinct [] xs h).0

-- A list that contains an entry splits at it.
contains-split :
    (id : Bytes) (xs : List Bytes)
    → contains id xs ≡ true
    → (pre post : List Bytes) × (xs ≡ pre ++ id ∷ post)
contains-split id [] h = absurd (ground arith)
contains-split id (x ∷ xs) h = elim (Bool-cases (id == x)) [
  | inl e ↦ ([], xs, ap (λ y. y ∷ xs) (ground (arith, bytes_eq_iff id x)))
  | inr e ↦
      let (pre, post, q) = contains-split id xs (ground arith) in (x ∷ pre, post, ap (◌∷◌ x) q)
]

has_repeat_from-Repeated :
    (ids : List Bytes) (xs : List Item)
    → has_repeat ids xs ≡ true
    → Repeated (names_of xs)
      ⊎ ((id : Bytes) × (contains id ids ≡ true) × (contains id (names_of xs) ≡ true))
unfolding has_repeat
has_repeat_from-Repeated ids [] h = absurd (ground arith)
has_repeat_from-Repeated ids (x ∷ xs) h = elim (Bool-cases (contains x.id ids)) [
  | inl e ↦ inr (x.id, e, ground (arith, bytes_eq_iff x.id x.id))
  | inr e ↦ elim (has_repeat_from-Repeated (x.id ∷ ids) xs (ground arith)) [
    | inl r ↦ inl record {
      entry = r.entry;
      pre = x.id ∷ r.pre;
      mid = r.mid;
      post = r.post;
      twice = ap (◌∷◌ x.id) r.twice;
    }
    | inr (id, k, m) ↦ elim (Bool-cases (id == x.id)) [
      | inr n ↦ inr (id, ground arith, ground arith)
      | inl n ↦
          let same : id ≡ x.id = (bytes_eq_iff id x.id).0 n in
          let (mid, post, q) = contains-split x.id (names_of xs) (rw same at m) in
          inl record { entry = x.id; pre = []; mid = mid; post = post; twice = ap (◌∷◌ x.id) q }
    ]
  ]
]

pub has_repeat-Repeated : (xs : List Item) → has_repeat [] xs ≡ true → Repeated (map (λ x. x.id) xs)
has_repeat-Repeated xs h = elim (has_repeat_from-Repeated [] xs h) [
  | inl r ↦ r
  | inr (id, k, m) ↦ absurd (ground arith)
]

-- ===== src/Executor/Count.antt =====
-- internal/executor/executor.go: how many of the first tasks are in a set.
use hypersdk.Base.{
  ℕ, zero, suc, ◌+◌, ◌≤◌, ◌<◌, ◌≡◌, refl, Bool, true, false, nat_eq, nat_eq_iff, subst, ◌⊎◌,
  Bool-cases, inl, inr, arith,
}

abbrev pub bit : Bool → ℕ
bit true = 1
bit false = 0

abbrev pub count : ℕ → (ℕ → Bool) → ℕ
count zero f = 0
count (suc n) f = bit (f n) + count n f

pub count-le : (n : ℕ) (f : ℕ → Bool) → count n f ≤ n
count-le zero f = omega arith
count-le (suc n) f = ground (arith, count-le n f)

-- A member is counted.
pub count_pos : (n : ℕ) (f : ℕ → Bool) (i : ℕ) → i < n → f i ≡ true → 1 ≤ count n f
count_pos zero f i h e = absurd (omega arith)
count_pos (suc n) f i h e = elim (Bool-cases (nat_eq i n)) [
  | inl same ↦ let k : i ≡ n = ground arith in let e' : f n ≡ true = rw (← k) e in ground arith
  | inr less ↦ ground (arith, count_pos n f i)
]

pub count-none : (n : ℕ) (f : ℕ → Bool) → ((i : ℕ) → f i ≡ false) → count n f ≡ 0
count-none zero f h = refl
count-none (suc n) f h = ground (arith, h n, count-none n f h)

-- A set that counts has a member.
pub count_member : (n : ℕ) (f : ℕ → Bool) → 1 ≤ count n f → (i : ℕ) × (i < n) × (f i ≡ true)
count_member zero f h = absurd (omega arith)
count_member (suc n) f h = elim (Bool-cases (f n)) [
  | inl e ↦ (n, omega arith, e)
  | inr e ↦ let (i, lt, k) = count_member n f (ground arith) in (i, omega arith, k)
]

-- Sets that change alike change their counts alike.
pub count-change :
    (n : ℕ) (f f' g g' : ℕ → Bool)
    → ((i : ℕ) → bit (f' i) + bit (g i) ≡ bit (f i) + bit (g' i))
    → count n f' + count n g ≡ count n f + count n g'
count-change zero f f' g g' h = refl
count-change (suc n) f f' g g' h = omega (arith, h n, count-change n f f' g g' h)

pub count-same : (n : ℕ) (f f' : ℕ → Bool) → ((j : ℕ) → j < n → f' j ≡ f j) → count n f' ≡ count n f
count-same zero f f' h = refl
count-same (suc n) f f' h = ground (arith, h n, count-same n f f' (λ j lt. h j (omega arith)))

-- One member is taken out.
pub count-drop :
    (n : ℕ) (f f' : ℕ → Bool) (i : ℕ)
    → i < n
    → f i ≡ true
    → f' i ≡ false
    → ((j : ℕ) → nat_eq j i ≡ false → f' j ≡ f j)
    → suc (count n f') ≡ count n f
count-drop zero f f' i h e e' same = absurd (omega arith)
count-drop (suc n) f f' i h e e' same = elim (Bool-cases (nat_eq n i)) [
  | inl k ↦
      let q : n ≡ i = ground arith in
      let below = count-same n f f' (λ j lt. same j (ground arith)) in
      let a : f n ≡ true = rw q e in let b : f' n ≡ false = rw q e' in ground (arith, below)
  | inr k ↦ ground (arith, count-drop n f f' i (ground arith) e e' same, same n)
]

-- A member below a bound is found, or there is none.
pub find_below :
    (n : ℕ) (f : ℕ → Bool) → ((i : ℕ) × (i < n) × (f i ≡ true)) ⊎ ((i : ℕ) → i < n → f i ≡ false)
find_below zero f = inr (λ i lt. absurd (omega arith))
find_below (suc n) f = elim (Bool-cases (f n)) [
  | inl e ↦ inl (n, omega arith, e)
  | inr e ↦ elim (find_below n f) [
    | inl (i, lt, q) ↦ inl (i, omega arith, q)
    | inr none_below ↦ inr (λ i lt. elim (Bool-cases (nat_eq i n)) [
      | inl q ↦ rw ((nat_eq_iff i n).0 q) e
      | inr q ↦ none_below i (ground arith)
    ])
  ]
]

pub count_mono :
    (n : ℕ) (f f' : ℕ → Bool) → ((i : ℕ) → f' i ≡ true → f i ≡ true) → count n f' ≤ count n f
count_mono zero f f' h = omega arith
count_mono (suc n) f f' h = ground (arith, h n, count_mono n f f' h)

abbrev pub total : ℕ → (ℕ → ℕ) → ℕ
total zero f = 0
total (suc n) f = f n + total n f

total_mono : (n : ℕ) (f f' : ℕ → ℕ) → ((i : ℕ) → f' i ≤ f i) → total n f' ≤ total n f
total_mono zero f f' h = omega arith
total_mono (suc n) f f' h = omega (arith, h n, total_mono n f f' h)

-- A sum of which no term grows and one falls, falls.
pub total-less :
    (n : ℕ) (f f' : ℕ → ℕ) (i : ℕ)
    → i < n
    → ((j : ℕ) → f' j ≤ f j)
    → f' i < f i
    → total n f' < total n f
total-less zero f f' i lt h less = absurd (omega arith)
total-less (suc n) f f' i lt h less = elim (Bool-cases (nat_eq i n)) [
  | inl q ↦
      let e : i ≡ n = (nat_eq_iff i n).0 q in
      omega (arith, subst (λ x. f' x < f x) e less, total_mono n f f' h)
  | inr q ↦ omega (arith, h n, total-less n f f' i (ground arith) h less)
]

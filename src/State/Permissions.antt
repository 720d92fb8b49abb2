-- ===== src/State/Permissions.antt =====
-- state/keys.go: a permission is a byte, one bit for each of reading, allocating and writing.
use Prim.Native.Nat.{bit_and, bit_or, bit_xor}
use hypersdk.Base.{
  ℕ, zero, suc, ◌≤◌, ◌≡◌, refl, ap, ◌∙◌, Bool, true, false, ◌&&◌, ◌||◌, ◌⊎◌, inl, inr, leb, nat_eq,
  arith, Bool-cases, lt-cases, if◌then◌else◌,
}

abbrev pub read : ℕ
read = 1

abbrev pub allocate : ℕ
allocate = 3

abbrev pub write : ℕ
write = 5

abbrev pub none_ : ℕ
none_ = 0

abbrev pub all : ℕ
all = 7

-- Go's `a &^ b`
abbrev pub and_not : ℕ → ℕ → ℕ
and_not a b = bit_xor a (bit_and a b)

-- `p.Has(require)`
unfoldable pub has : ℕ → ℕ → Bool
has p require = nat_eq (and_not require p) 0

-- `p | q`
unfoldable pub union : ℕ → ℕ → ℕ
union p q = bit_or p q

-- Whether `test` holds of `n` and of every number below.
holds_to : (ℕ → Bool) → ℕ → Bool
holds_to test zero = test 0
holds_to test (suc n) = if test (suc n) then holds_to test n else false

holds_to-at : (test : ℕ → Bool) (n x : ℕ) → x ≤ n → holds_to test n ≡ true → test x ≡ true
unfolding holds_to
holds_to-at test zero x le h = ap test (at_zero x le) ∙ h
  where
    at_zero : (x : ℕ) → x ≤ 0 → x ≡ 0
    at_zero x le = omega arith
holds_to-at test (suc n) x le h = elim (Bool-cases (test (suc n))) [
  | inr fails ↦ absurd (ground arith)
  | inl passes ↦ elim (le-cases x n le) [
    | inl below ↦ holds_to-at test n x below (ground arith)
    | inr last ↦ ap test last ∙ passes
  ]
]
  where
    le-cases : (x n : ℕ) → x ≤ suc n → (x ≤ n) ⊎ (x ≡ suc n)
    le-cases x n le = elim (lt-cases n x) [
      | inl lt ↦ inr (omega arith)
      | inr ge ↦ inl (omega arith)
    ]

-- What `has-union` says of three permissions, as a test.
keeps : ℕ → ℕ → ℕ → Bool
keeps r p q = if has p r || has q r then has (union p q) r else true

keeps_table : holds_to (λ r. holds_to (λ p. holds_to (keeps r p) all) all) all ≡ true
unfolding holds_to has union keeps
keeps_table = refl

-- Whatever either side has, the union has, for permissions within `All`.
pub has-union :
    (p q r : ℕ)
    → p ≤ all
    → q ≤ all
    → r ≤ all
    → (has p r || has q r) ≡ true
    → has (union p q) r ≡ true
unfolding keeps
has-union p q r hp hq hr h = ground (
  arith,
  holds_to-at (keeps r p) all q hq (holds_to-at _ all p hp (holds_to-at _ all r hr keeps_table)),
)

bounded : ℕ → ℕ → Bool
bounded p q = has (union p q) q && leb (union p q) all

bounded_table : holds_to (λ p. holds_to (bounded p) all) all ≡ true
unfolding holds_to has union bounded
bounded_table = refl

within : (p q : ℕ) → p ≤ all → q ≤ all → bounded p q ≡ true
within p q hp hq = holds_to-at (bounded p) all q hq (holds_to-at _ all p hp bounded_table)

pub has-union_right : (p q : ℕ) → p ≤ all → q ≤ all → has (union p q) q ≡ true
unfolding bounded
has-union_right p q hp hq = ground (arith, within p q hp hq)

pub union-le : (p q : ℕ) → p ≤ all → q ≤ all → union p q ≤ all
unfolding bounded
union-le p q hp hq = ground (arith, within p q hp hq)

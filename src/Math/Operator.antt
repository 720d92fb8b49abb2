-- ===== src/Math/Operator.antt =====
-- internal/math/uint64.go: an accumulator that keeps its first error.
use hypersdk.Base.{
  ℕ, ◌+◌, ◌*◌, ◌≤◌, ◌≡◌, Bool, true, false, List, [], ◌∷◌, Option, none, some, leb, if◌then◌else◌,
  arith,
}
use native.Mathlib.Nat.{add_assoc, add-zero}
use hypersdk.Math.Checked.{CheckedMath, max_uint64}

pub record Uint64Operator : Type 0 where
  pub v : ℕ
  pub failed : Bool

-- `NewUint64Operator`
unfoldable pub new_operator : ℕ → Uint64Operator
new_operator v = record { v = v; failed = false }

-- `none` for a `Value` with an error
unfoldable pub value : Uint64Operator → Option ℕ
value o = if o.failed then none else some o.v

abbrev pub keep : Uint64Operator → Option ℕ → Uint64Operator
keep o none = record o { failed = true }
keep o (some nv) = record o { v = nv }

module _ ⦃m : CheckedMath⦄ where
  open m use {add, mul, add_lem, mul_lem}

  unfoldable pub op_add : Uint64Operator → ℕ → Uint64Operator
  op_add o n = if o.failed then o else keep o (add o.v n)

  unfoldable pub op_mul : Uint64Operator → ℕ → Uint64Operator
  op_mul o n = if o.failed then o else keep o (mul o.v n)

  unfoldable pub op_mul_add : Uint64Operator → ℕ → ℕ → Uint64Operator
  op_mul_add o a b =
      if o.failed
      then o
      else elim (mul a b) [ none ↦ record o { failed = true } | some pv ↦ keep o (add o.v pv) ]

  -- What an operator has computed: `t` if that is a uint64, and else an error.
  abbrev pub Computes : Uint64Operator → ℕ → Type 0
  Computes o t = (o.v ≤ max_uint64) × (value o ≡ (if leb t max_uint64 then some t else none))

  pub op_add-Computes :
      (o : Uint64Operator) (t a : ℕ) → Computes o t → a ≤ max_uint64 → Computes (op_add o a) (t + a)
  unfolding op_add value
  op_add-Computes o t a c p = (ground (arith, add_lem o.v a), ground (arith, add_lem o.v a))

  pub op_mul_add-Computes :
      (o : Uint64Operator) (t a b : ℕ)
      → Computes o t
      → a ≤ max_uint64
      → b ≤ max_uint64
      → Computes (op_mul_add o a b) (t + a * b)
  unfolding op_mul_add value
  op_mul_add-Computes o t a b c p q = (
    ground (arith, mul_lem a b, add_lem o.v (a * b)),
    ground (arith, mul_lem a b, add_lem o.v (a * b)),
  )

  -- `Mul` multiplies what has been computed, unless that is no uint64 already.
  pub op_mul-Computes :
      (o : Uint64Operator) (t n : ℕ)
      → Computes o t
      → t ≤ max_uint64
      → n ≤ max_uint64
      → Computes (op_mul o n) (t * n)
  unfolding op_mul value
  op_mul-Computes o t n c h p = (ground (arith, mul_lem o.v n), ground (arith, mul_lem o.v n))

-- The calls that sum up costs.
pub data Call : Type 0 where
  add_call : ℕ → Call
  mul_add_call : ℕ → ℕ → Call

abbrev pub amount : Call → ℕ
amount (add_call a) = a
amount (mul_add_call a b) = a * b

abbrev pub exact_sum : List Call → ℕ
exact_sum [] = 0
exact_sum (c ∷ cs) = amount c + exact_sum cs

abbrev pub IsUint64Call : Call → Type 0
IsUint64Call (add_call a) = a ≤ max_uint64
IsUint64Call (mul_add_call a b) = (a ≤ max_uint64) × (b ≤ max_uint64)

abbrev pub AllUint64 : List Call → Type 0
AllUint64 [] = Unit
AllUint64 (c ∷ cs) = IsUint64Call c × AllUint64 cs

module _ ⦃m : CheckedMath⦄ where
  unfoldable pub call : Uint64Operator → Call → Uint64Operator
  unfolding op_add op_mul_add
  call o (add_call a) = op_add o a
  call o (mul_add_call a b) = op_mul_add o a b

  unfoldable pub call_all : Uint64Operator → List Call → Uint64Operator
  unfolding call
  call_all o [] = o
  call_all o (c ∷ cs) = call_all (call o c) cs

  call-Computes :
      (o : Uint64Operator) (t : ℕ) (c : Call)
      → Computes o t
      → IsUint64Call c
      → Computes (call o c) (t + amount c)
  unfolding call
  call-Computes o t (add_call a) h p = op_add-Computes o t a h p
  call-Computes o t (mul_add_call a b) h p = op_mul_add-Computes o t a b h p.0 p.1

  call_all-Computes :
      (o : Uint64Operator) (t : ℕ) (cs : List Call)
      → Computes o t
      → AllUint64 cs
      → Computes (call_all o cs) (t + exact_sum cs)
  unfolding call_all
  call_all-Computes o t [] h p = rw add-zero h
  call_all-Computes o t (c ∷ cs) h p =
      rw (← add_assoc t (amount c) (exact_sum cs))
        (call_all-Computes (call o c) (t + amount c) cs (call-Computes o t c h p.0) p.1)

  -- After any calls of `Add` and `MulAdd` on a new operator `Value` returns the exact sum if that is
  -- a uint64, and an error if it is not.
  pub value-call_all :
      (start : ℕ) (cs : List Call)
      → start ≤ max_uint64
      → AllUint64 cs
      → value (call_all (new_operator start) cs)
        ≡ (if leb (start + exact_sum cs) max_uint64 then some (start + exact_sum cs) else none)
  value-call_all start cs h p = (call_all-Computes (new_operator start) start cs fresh p).1
    where
      fresh : Computes (new_operator start) start
      fresh = unfold new_operator value in (h, ground arith)

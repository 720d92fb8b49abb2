-- ===== src/Fees/Manager/Consume.antt =====
-- internal/fees/manager.go: `Consume` and `Fee` on a well-formed array.
use mathlib.Core.Path.{ap₂}
use native.Mathlib.Nat.{zero-add}
use hypersdk.Base.{
  ℕ, suc, ◌+◌, ◌*◌, ◌≤◌, ◌≡◌, refl, ap, sym, ◌∙◌, true, false, inl, inr, List, [], ◌∷◌, ◌++◌, none,
  some, Bytes, leb, length, length-append, append_assoc, arith, if◌then◌else◌, Bool-cases,
  Option-cases, ◌↔◌,
}
use hypersdk.Math.Checked.{CheckedMath, max_uint64}
use hypersdk.Binary.{AllUint64}
use hypersdk.Fees.Dimensions.{Dimensions, can_add}
use hypersdk.Fees.Dimensions.Exact.{dot}
use hypersdk.Fees.Manager.{
  misfit, commit, consume, fee_from, fee, last_consumed, set_last_consumed, unit_price,
}
use hypersdk.Fees.Manager.Layout.{
  Dim, IsDim, AllDim, layout, unit_price-layout, last_consumed-layout, set_last_consumed-layout,
}

-- The prices and the units consumed of the dimensions.
abbrev pub prices : List Dim → Dimensions
prices [] = []
prices (x ∷ xs) = x.price ∷ prices xs

abbrev pub consumptions : List Dim → Dimensions
consumptions [] = []
consumptions (x ∷ xs) = x.consumed ∷ consumptions xs

-- The dimensions with the given units added to what they have consumed.
abbrev pub charge : List Dim → Dimensions → List Dim
charge (x ∷ xs) (d ∷ ds) = record x { consumed = x.consumed + d } ∷ charge xs ds
charge xs ds = xs

pub next_index : (pre : List Dim) (x : Dim) → length (pre ++ x ∷ []) ≡ suc (length pre)
next_index pre x = omega (arith, length-append pre (x ∷ []))

pub AllDim-snoc : (pre : List Dim) (x : Dim) → AllDim pre → IsDim x → AllDim (pre ++ x ∷ [])
AllDim-snoc [] x p h = (h, tt)
AllDim-snoc (y ∷ pre) x p h = (p.0, AllDim-snoc pre x p.1 h)

-- A call on the array with `x` counted among the dimensions passed.
pub shift {ℓ} :
    {A : Type ℓ} (f : Bytes → ℕ → A) (time : ℕ) (pre : List Dim) (x : Dim) (post : List Dim)
    → f (layout time (pre ++ x ∷ post)) (suc (length pre))
      ≡ f (layout time ((pre ++ x ∷ []) ++ post)) (length (pre ++ x ∷ []))
shift f time pre x post =
    ap₂ f (ap (layout time) (sym (append_assoc pre (x ∷ []) post))) (sym (next_index pre x))

module _ ⦃m : CheckedMath⦄ where
  fee_from-step :
      (raw : Bytes) (i acc d : ℕ) (ds : Dimensions) (v : ℕ)
      → unit_price raw i ≡ v
      → v ≤ max_uint64
      → d ≤ max_uint64
      → acc ≤ max_uint64
      → fee_from raw i acc (d ∷ ds)
        ≡ (if leb (v * d + acc) max_uint64 then fee_from raw (suc i) (v * d + acc) ds else none)
  unfolding fee_from
  fee_from-step raw i acc d ds v e p q r = ground (arith, e, m.mul_lem v d, m.add_lem (v * d) acc)

  fee_from-layout :
      (time : ℕ) (pre post : List Dim) (acc : ℕ) (d : Dimensions)
      → AllDim pre
      → AllDim post
      → length d ≡ length post
      → acc ≤ max_uint64
      → AllUint64 d
      → fee_from (layout time (pre ++ post)) (length pre) acc d ≡ (
          if leb (acc + dot (prices post) d) max_uint64
          then some (acc + dot (prices post) d)
          else none)
  fee_from-layout time pre [] acc [] p q e b u = unfold fee_from in ground arith
  fee_from-layout time pre (x ∷ post) acc [] p q e b u = absurd (omega arith)
  fee_from-layout time pre [] acc (d ∷ ds) p q e b u = absurd (omega arith)
  fee_from-layout time pre (x ∷ post) acc (d ∷ ds) p q e b u =
      fee_from-step (layout time (pre ++ x ∷ post)) (length pre) acc d ds x.price
        (unit_price-layout time pre x post p q.0) q.0.1 u.0 b
      ∙ ground (
        arith,
        λ (o : x.price * d + acc ≤ max_uint64).
            shift (λ r i. fee_from r i (x.price * d + acc) ds) time pre x post
            ∙ fee_from-layout time (pre ++ x ∷ []) post (x.price * d + acc) ds
                (AllDim-snoc pre x p q.0) q.1 (omega arith) o u.1,
      )

  -- On a well-formed array `Fee` is the exact inner product of the prices and the units if that is
  -- a uint64, and an error if it is not.
  pub fee_lem :
      (time : ℕ) (dims : List Dim) (d : Dimensions)
      → AllDim dims
      → length d ≡ length dims
      → AllUint64 d
      → fee (layout time dims) d
        ≡ (if leb (dot (prices dims) d) max_uint64 then some (dot (prices dims) d) else none)
  unfolding fee
  fee_lem time dims d h e u =
      rw zero-add at (fee_from-layout time [] dims 0 d tt h e (omega arith) u)

  misfit-step :
      (raw : Bytes) (i d l : ℕ) (ds ls : Dimensions) (v : ℕ)
      → last_consumed raw i ≡ v
      → v ≤ max_uint64
      → d ≤ max_uint64
      → l ≤ max_uint64
      → misfit raw i (d ∷ ds) (l ∷ ls)
        ≡ (if leb (v + d) l then misfit raw (suc i) ds ls else some i)
  unfolding misfit
  misfit-step raw i d l ds ls v e p q r = ground (arith, e, m.add_lem v d)

  commit-step :
      (raw : Bytes) (i d : ℕ) (ds : Dimensions) (v : ℕ)
      → last_consumed raw i ≡ v
      → v + d ≤ max_uint64
      → commit raw i (d ∷ ds) ≡ commit (set_last_consumed raw i (v + d)) (suc i) ds
  unfolding commit
  commit-step raw i d ds v e p = ground (arith, e, m.add_lem v d)

  can_add-step :
      (v d l : ℕ) (vs ds ls : Dimensions)
      → v ≤ max_uint64
      → d ≤ max_uint64
      → l ≤ max_uint64
      → can_add (v ∷ vs) (d ∷ ds) (l ∷ ls) ≡ (if leb (v + d) l then can_add vs ds ls else false)
  unfolding can_add
  can_add-step v d l vs ds ls p q r = ground (arith, m.add_lem v d)

  -- The first loop finds no misfit exactly if the units can be added.
  misfit-layout :
      (time : ℕ) (pre post : List Dim) (d l : Dimensions)
      → AllDim pre
      → AllDim post
      → length d ≡ length post
      → length l ≡ length post
      → AllUint64 d
      → AllUint64 l
      → (misfit (layout time (pre ++ post)) (length pre) d l ≡ none)
        ↔ (can_add (consumptions post) d l ≡ true)
  misfit-layout time pre [] [] l p q e f u w =
      (λ _. unfold can_add in refl, λ _. unfold misfit in refl)
  misfit-layout time pre [] (d ∷ ds) l p q e f u w = absurd (omega arith)
  misfit-layout time pre (x ∷ post) [] l p q e f u w = absurd (omega arith)
  misfit-layout time pre (x ∷ post) (d ∷ ds) [] p q e f u w = absurd (omega arith)
  misfit-layout time pre (x ∷ post) (d ∷ ds) (l ∷ ls) p q e f u w =
      rw
        (
          misfit-step (layout time (pre ++ x ∷ post)) (length pre) d l ds ls x.consumed
              (last_consumed-layout time pre x post p q.0) q.0.2 u.0 w.0,
          can_add-step x.consumed d l (consumptions post) ds ls q.0.2 u.0 w.0,
          shift (λ r i. misfit r i ds ls) time pre x post,
        )
        (elim (Bool-cases (leb (x.consumed + d) l)) [
          | inl b ↦ rw b (
              misfit-layout time (pre ++ x ∷ []) post ds ls (AllDim-snoc pre x p q.0) q.1
                (omega arith) (omega arith) u.1 w.1)
          | inr b ↦ rw b (λ h. cc, λ h. cc)
        ])

  commit-layout :
      (time : ℕ) (pre post : List Dim) (d l : Dimensions)
      → AllDim pre
      → AllDim post
      → length d ≡ length post
      → length l ≡ length post
      → AllUint64 d
      → AllUint64 l
      → can_add (consumptions post) d l ≡ true
      → commit (layout time (pre ++ post)) (length pre) d
        ≡ (layout time (pre ++ charge post d), true, 0)
  commit-layout time pre [] [] l p q e f u w c = unfold commit in refl
  commit-layout time pre [] (d ∷ ds) l p q e f u w c = absurd (omega arith)
  commit-layout time pre (x ∷ post) [] l p q e f u w c = absurd (omega arith)
  commit-layout time pre (x ∷ post) (d ∷ ds) [] p q e f u w c = absurd (omega arith)
  commit-layout time pre (x ∷ post) (d ∷ ds) (l ∷ ls) p q e f u w c =
      let step = can_add-step x.consumed d l (consumptions post) ds ls q.0.2 u.0 w.0 in
      let fits : x.consumed + d ≤ l = ground (arith, step) in
      let rest : can_add (consumptions post) ds ls ≡ true = ground (arith, step) in
      let y = record x { consumed = x.consumed + d } in
      let valid : IsDim y = (q.0.0, q.0.1, omega (arith, w.0)) in
      commit-step (layout time (pre ++ x ∷ post)) (length pre) d ds x.consumed
        (last_consumed-layout time pre x post p q.0) (omega (arith, w.0))
      ∙ ap (λ r. commit r (suc (length pre)) ds)
          (set_last_consumed-layout time pre x post p q.0 (x.consumed + d))
      ∙ shift (λ r i. commit r i ds) time pre y post
      ∙ commit-layout time (pre ++ y ∷ []) post ds ls (AllDim-snoc pre y p valid) q.1 (omega arith)
          (omega arith) u.1 w.1 rest
      ∙ ap (λ b. (layout time b, true, 0)) (append_assoc pre (y ∷ []) (charge post ds))

  -- `Consume` on a well-formed array is all or nothing: if every sum is within its limit, it returns
  -- true and adds the units to what the dimensions have consumed, prices and windows unchanged.
  pub consume-fits :
      (time : ℕ) (dims : List Dim) (d l : Dimensions)
      → AllDim dims
      → length d ≡ length dims
      → length l ≡ length dims
      → AllUint64 d
      → AllUint64 l
      → can_add (consumptions dims) d l ≡ true
      → consume (layout time dims) d l ≡ (layout time (charge dims d), true, 0)
  unfolding consume
  consume-fits time dims d l h e f u w c =
      rw ((misfit-layout time [] dims d l tt h e f u w).1 c, consume)
        (commit-layout time [] dims d l tt h e f u w c)

  -- If a sum is not within its limit, `Consume` returns false and leaves the array as it is.
  pub consume-misfit :
      (time : ℕ) (dims : List Dim) (d l : Dimensions)
      → AllDim dims
      → length d ≡ length dims
      → length l ≡ length dims
      → AllUint64 d
      → AllUint64 l
      → can_add (consumptions dims) d l ≡ false
      → (i : ℕ) × (consume (layout time dims) d l ≡ (layout time dims, false, i))
  unfolding consume
  consume-misfit time dims d l h e f u w c = elim (Option-cases (misfit (layout time dims) 0 d l)) [
    | inl fit ↦ absurd (ground (arith, (misfit-layout time [] dims d l tt h e f u w).0 fit))
    | inr (i, found) ↦ (i, rw (found, consume))
  ]

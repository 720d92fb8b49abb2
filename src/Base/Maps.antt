-- ===== src/Base/Maps.antt =====
-- A Go map as the function of its lookups: `m[k] = v` is `assign`, `delete(m, k)` is `delete`.
use mathlib.Core.Path.{◌≡◌, refl, fun_ext}
use mathlib.Core.Option.{Option, none, some}
use native.Mathlib.Omega.{arith}
use hypersdk.Base.Tests.{if◌then◌else◌}
use hypersdk.Base.Eq.{BoolEq, ◌==◌}

abbrev pub GoMap : Type 0 → Type 0 → Type 0
GoMap K V = K → Option V

abbrev pub empty_map : {K V : Type 0} → GoMap K V
empty_map k = none

module _ {K V : Type 0} ⦃e : BoolEq K⦄ where
  -- The map with what `k` holds given anew.
  abbrev pub put : GoMap K V → K → Option V → GoMap K V
  put m k o j = if j == k then o else m j

  abbrev pub assign : GoMap K V → K → V → GoMap K V
  assign m k v = put m k (some v)

  abbrev pub delete : GoMap K V → K → GoMap K V
  delete m k = put m k none

  pub put_self : (m : GoMap K V) (k : K) (o : Option V) → put m k o k ≡ o
  put_self m k o = rw ((e.same_iff k k).1 refl)

  -- Giving back what `k` held before restores the map.
  pub put-put : (m : GoMap K V) (k : K) (o : Option V) → put (put m k o) k (m k) ≡ m
  put-put m k o = fun_ext (λ j. ground (arith, e.same_iff j k))

  pub put_twice : (m : GoMap K V) (k : K) (o o' : Option V) → put (put m k o) k o' ≡ put m k o'
  put_twice m k o o' = fun_ext (λ j. ground arith)

  pub put_same : (m : GoMap K V) (k : K) → put m k (m k) ≡ m
  put_same m k = fun_ext (λ j. ground (arith, e.same_iff j k))

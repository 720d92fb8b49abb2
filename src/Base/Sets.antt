-- ===== src/Base/Sets.antt =====
-- A Go set as the test for its elements, and membership in a slice.
use mathlib.Core.Path.{◌≡◌, refl}
use mathlib.Core.Bool.{Bool, true, false, ◌||◌}
use mathlib.Core.List.{List, [], ◌∷◌, ◌++◌}
use native.Mathlib.Omega.{arith}
use hypersdk.Base.Tests.{if◌then◌else◌}
use hypersdk.Base.Eq.{BoolEq, ◌==◌}

abbrev pub GoSet : Type 0 → Type 0
GoSet K = K → Bool

abbrev pub empty_set : {K : Type 0} → GoSet K
empty_set k = false

module _ {K : Type 0} ⦃e : BoolEq K⦄ where
  -- `s.Add(k)` and `s.Remove(k)`
  abbrev pub include : GoSet K → K → GoSet K
  include s k j = if j == k then true else s j

  abbrev pub exclude : GoSet K → K → GoSet K
  exclude s k j = if j == k then false else s j

  abbrev pub contains : K → List K → Bool
  contains k [] = false
  contains k (x ∷ xs) = k == x || contains k xs

  pub contains-append :
      (k : K) (xs ys : List K) → contains k (xs ++ ys) ≡ (contains k xs || contains k ys)
  contains-append k [] ys = refl
  contains-append k (x ∷ xs) ys = ground (arith, contains-append k xs ys)

  abbrev pub exclude_all : GoSet K → List K → GoSet K
  exclude_all s [] = s
  exclude_all s (x ∷ xs) = exclude_all (exclude s x) xs

  pub exclude_all_lem :
      (s : GoSet K) (xs : List K) (j : K)
      → exclude_all s xs j ≡ (if contains j xs then false else s j)
  exclude_all_lem s [] j = refl
  exclude_all_lem s (x ∷ xs) j = ground (arith, exclude_all_lem (exclude s x) xs j)

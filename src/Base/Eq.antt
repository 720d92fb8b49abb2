-- ===== src/Base/Eq.antt =====
-- Boolean equality as an interface, with the instances for numbers and byte strings.
use Prim.Native.Nat.{ℕ}
use mathlib.Core.Path.{◌≡◌, refl}
use mathlib.Core.Logic.{◌↔◌}
use mathlib.Core.Bool.{Bool, true, false, ◌&&◌}
use mathlib.Core.List.{List, [], ◌∷◌}
use native.Mathlib.Omega.{arith}
use hypersdk.Base.Tests.{nat_eq, nat_eq_iff}

-- A byte string: a Go `string` or `[]byte`, each element below 256.
abbrev pub Bytes : Type 0
Bytes = List ℕ

-- `bytes.Equal`, and `==` on strings.
abbrev pub bytes_eq : Bytes → Bytes → Bool
bytes_eq [] [] = true
bytes_eq [] (y ∷ ys) = false
bytes_eq (x ∷ xs) [] = false
bytes_eq (x ∷ xs) (y ∷ ys) = nat_eq x y && bytes_eq xs ys

pub bytes_eq_iff : (xs ys : Bytes) → (bytes_eq xs ys ≡ true) ↔ (xs ≡ ys)
bytes_eq_iff [] [] = (λ _. refl, λ _. refl)
bytes_eq_iff [] (y ∷ ys) = (λ h. cc, λ h. cc)
bytes_eq_iff (x ∷ xs) [] = (λ h. cc, λ h. cc)
bytes_eq_iff (x ∷ xs) (y ∷ ys) = ground (arith, bytes_eq_iff xs ys)

pub record BoolEq {ℓ} (K : Type ℓ) : Type ℓ where
  pub same : K → K → Bool
  pub same_iff : (x y : K) → (same x y ≡ true) ↔ (x ≡ y)

instance abbrev pub ℕ_eq : BoolEq ℕ
ℕ_eq = record { same_iff = nat_eq_iff; same = nat_eq }

instance abbrev pub Bytes_eq : BoolEq Bytes
Bytes_eq = record { same_iff = bytes_eq_iff; same = bytes_eq }

infix 50 ◌==◌
abbrev pub ◌==◌ {ℓ} : {K : Type ℓ} ⦃i : BoolEq K⦄ (x y : K) → Bool
◌==◌ ⦃i⦄ x y = i.same x y

-- ===== src/State/Tests.antt =====
-- state: runs at concrete inputs.
use hypersdk.Base.{◌≡◌, refl, ◌||◌, true, [], ◌∷◌, Bytes, arith}
use hypersdk.Keys.{valid}
use hypersdk.State.Permissions.{has, union, read, allocate, write, has-union}
use hypersdk.State.Scope.{Keys, add, permission_of, IsNamed}

abbrev key : Bytes
key = 9 ∷ 0 ∷ 1 ∷ []

abbrev keys : Keys
keys = (key, read) ∷ []

has-read : (has read read || has allocate read) ≡ true
unfolding has
has-read = refl

has-union_example : has (union read allocate) read ≡ true
has-union_example = has-union read allocate read (omega arith) (omega arith) (omega arith) has-read

keys-IsNamed : IsNamed keys
unfolding permission_of
keys-IsNamed k = ground arith

add-succeeds : (add keys key write).1 ≡ true
unfolding add valid
add-succeeds = refl

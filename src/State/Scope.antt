-- ===== src/State/Scope.antt =====
-- state/keys.go: the scopes. `Keys` is an association list without double keys, in the order of
-- insertion; the order in which Go ranges over the map is left open by what is proved of it.
use hypersdk.Base.{
  ℕ, ◌≤◌, ◌≡◌, refl, Bool, true, false, List, [], ◌∷◌, ◌++◌, map, length, replicate, Option, none,
  some, Bytes, ◌==◌, Bytes_eq, bytes_eq, bytes_eq_iff, Bool-cases, inl, inr, ◌||◌, if◌then◌else◌,
  arith,
}
use hypersdk.Keys.{valid, decode_chunks}
use hypersdk.State.Permissions.{has, union, none_, all, has-union, has-union_right, union-le}

-- the interface `Scope`: `Has(key, perm)`
abbrev pub Scope : Type 0
Scope = Bytes → ℕ → Bool

-- `fullAccess`
unfoldable pub complete_permissions : Scope
complete_permissions key perm = true

abbrev pub Keys : Type 0
Keys = List (Bytes × ℕ)

-- `k[key]`, which is 0 for a missing key
unfoldable pub permission_of : Keys → Bytes → ℕ
permission_of [] key = none_
permission_of ((k, p) ∷ ks) key = if k == key then p else permission_of ks key

-- `k[key] |= permission`
unfoldable pub grant : Keys → Bytes → ℕ → Keys
grant [] key perm = (key, union none_ perm) ∷ []
grant ((k, p) ∷ ks) key perm =
    if k == key then (k, union p perm) ∷ ks else (k, p) ∷ grant ks key perm

-- `Keys.Add`
unfoldable pub add : Keys → Bytes → ℕ → Keys × Bool
unfolding grant
add ks key perm = if valid key then (grant ks key perm, true) else (ks, false)

-- `Keys.Has`
unfoldable pub keys_has : Keys → Scope
unfolding permission_of
keys_has ks key perm = has (permission_of ks key) perm

abbrev chunk_sizes_from : Option ℕ → Option (List ℕ) → Option (List ℕ)
chunk_sizes_from (some c) (some cs) = some (c ∷ cs)
chunk_sizes_from _ _ = none

-- `Keys.ChunkSizes`
unfoldable pub chunk_sizes : Keys → Option (List ℕ)
chunk_sizes [] = some []
chunk_sizes ((k, p) ∷ ks) = chunk_sizes_from (decode_chunks k) (chunk_sizes ks)

-- `WithoutPermissions`: the keys come after as many empty strings, which `make` gives.
unfoldable pub without_permissions : Keys → List Bytes
without_permissions ks = replicate (length ks) [] ++ map (λ e. e.0) ks

-- `SimulatedKeys.Has` records the permission asked for, and grants it.
unfoldable pub simulated_has : Keys → Bytes → ℕ → Keys × Bool
unfolding add
simulated_has ks key perm = ((add ks key perm).0, true)

permission_of-grant :
    (ks : Keys) (key : Bytes) (perm : ℕ) (k : Bytes)
    → permission_of (grant ks key perm) k
      ≡ (if key == k then union (permission_of ks key) perm else permission_of ks k)
unfolding permission_of grant
permission_of-grant [] key perm k = refl
permission_of-grant ((j, p) ∷ ks) key perm k = ground (
  arith,
  permission_of-grant ks key perm k,
  bytes_eq_iff j key,
  bytes_eq_iff j k,
  bytes_eq_iff key k,
)

-- Every key's permission lies within `All`.
abbrev pub IsNamed : Keys → Type 0
IsNamed ks = (k : Bytes) → permission_of ks k ≤ all

-- After `Add` of a well-formed key its permission is held, and what was held before still is, for
-- permissions within `All`.
pub add-has :
    (ks : Keys) (key : Bytes) (perm : ℕ)
    → IsNamed ks
    → perm ≤ all
    → (add ks key perm).1 ≡ true
    → (keys_has (add ks key perm).0 key perm ≡ true)
      × ((k : Bytes) (r : ℕ)
          → r ≤ all
          → keys_has ks k r ≡ true
          → keys_has (add ks key perm).0 k r ≡ true)
      × IsNamed (add ks key perm).0
unfolding add keys_has
add-has ks key perm h q e =
    rw (grown, permission_of-grant, (bytes_eq_iff key key).1 refl)
      (
        has-union_right (permission_of ks key) perm (h key) q,
        λ k r hr old. rw permission_of-grant (elim (Bool-cases (bytes_eq key k)) [
          | inl same ↦ rw same (
              has-union (permission_of ks key) perm r (h key) q hr
                (held k r ((bytes_eq_iff key k).0 same) old))
          | inr other ↦ rw other old
        ]),
        λ k. rw permission_of-grant (bounded k),
      )
  where
    grown : (add ks key perm).0 ≡ grant ks key perm
    grown = ground arith

    held :
        (k : Bytes) (r : ℕ)
        → key ≡ k
        → has (permission_of ks k) r ≡ true
        → (has (permission_of ks key) r || has perm r) ≡ true
    held k r same old = rw (same, old)

    bounded :
        (k : Bytes)
        → (if bytes_eq key k then union (permission_of ks key) perm else permission_of ks k) ≤ all
    bounded k = ground (arith, h k, union-le (permission_of ks key) perm (h key) q)

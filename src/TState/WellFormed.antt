-- ===== src/TState/WellFormed.antt =====
-- state/tstate/tstate_view.go: how the three maps of a view agree, key by key.
use hypersdk.Base.{
  ℕ, ◌≡◌, ◌≢◌, refl, Bool, Option, none, some, Bytes, bytes_eq, bytes_eq_iff, Bool-cases,
  Outcome-cases, inl, inr, ap, ◌∙◌, Outcome, ok, err, arith,
}
use hypersdk.Keys.{num_chunks, verify_value}
use hypersdk.State.Scope.{Scope}
use hypersdk.TState.View.{
  TState, View, Error, not_found, insert, remove, new_view, get_value_of, is_unchanged, settle,
  overwrite, create, erase,
}

-- What one key may have in `pending`, `writes` and `allocates`.
abbrev pub EntryAgrees : Option (Option Bytes) → Option ℕ → Option ℕ → Type 0
EntryAgrees none w a = (w ≡ none) × (a ≡ none)
EntryAgrees (some none) w a = (w ≡ some 0) × (a ≡ none)
EntryAgrees (some (some x)) w a = (w ≡ num_chunks x) × (w ≢ none)

abbrev pub IsWellFormed : View → Type 0
IsWellFormed v = (k : Bytes) → EntryAgrees (v.pending k) (v.writes k) (v.allocates k)

-- A new view is well-formed.
pub new_view-IsWellFormed :
    (ts : TState) (scope : Scope) (storage : Bytes → Outcome Error Bytes)
    → IsWellFormed (new_view ts scope storage)
unfolding new_view
new_view-IsWellFormed ts scope storage k = (refl, refl)

-- How a successful `Insert` came about: no change, a key that has a value, or a key that has none.
pub data Inserted (v : View) (key value : Bytes) (w : View) : Type 0 where
  same : get_value_of v key ≡ ok value → w ≡ v → Inserted v key value w
  overwritten :
      (past : Bytes) (unchanged : Bool)
      → get_value_of v key ≡ ok past
      → is_unchanged v key (some value) ≡ ok unchanged
      → w ≡ settle unchanged key (overwrite v key past value)
      → Inserted v key value w
  created :
      (unchanged : Bool)
      → get_value_of v key ≡ err not_found
      → is_unchanged v key (some value) ≡ ok unchanged
      → w ≡ settle unchanged key (create v key value)
      → Inserted v key value w

-- The same for `Remove`.
pub data Removed (v : View) (key : Bytes) (w : View) : Type 0 where
  missing : get_value_of v key ≡ err not_found → w ≡ v → Removed v key w
  erased :
      (past : Bytes) (unchanged : Bool)
      → get_value_of v key ≡ ok past
      → is_unchanged v key none ≡ ok unchanged
      → w ≡ settle unchanged key (erase v key past)
      → Removed v key w

pub insert-Inserted :
    (v : View) (key value : Bytes) {w : View} → insert v key value ≡ ok w → Inserted v key value w
unfolding insert
insert-Inserted v key value e = elim (Outcome-cases (is_unchanged v key (some value))) [
  | inl (u, q) ↦ elim (Outcome-cases (get_value_of v key)) [
    | inl (past, p) ↦ elim (Bool-cases (bytes_eq past value)) [
      | inl b ↦ same (p ∙ ap ok ((bytes_eq_iff past value).0 b)) (ground (arith, p, q, b))
      | inr b ↦ overwritten past u p q (ground (arith, p, q, b))
    ]
    | inr (not_found, p) ↦ created u p q (ground (arith, p, q))
    | inr (other, p) ↦ absurd (ground (arith, p, q))
  ]
  | inr (f, q) ↦ absurd (ground (arith, q))
]

pub remove-Removed : (v : View) (key : Bytes) {w : View} → remove v key ≡ ok w → Removed v key w
unfolding remove
remove-Removed v key e = elim (Outcome-cases (get_value_of v key)) [
  | inl (past, p) ↦ elim (Outcome-cases (is_unchanged v key none)) [
    | inl (u, q) ↦ erased past u p q (ground (arith, p, q))
    | inr (f, q) ↦ absurd (ground (arith, p, q))
  ]
  | inr (not_found, p) ↦ missing p (ground (arith, p))
  | inr (other, p) ↦ absurd (ground (arith, p))
]

-- A successful `Insert` keeps the view well-formed.
pub insert-IsWellFormed :
    (v : View) (key value : Bytes) {w : View}
    → IsWellFormed v
    → insert v key value ≡ ok w
    → IsWellFormed w
unfolding insert settle overwrite create verify_value
insert-IsWellFormed v key value h e k = ground (arith, h k, bytes_eq_iff k key)

-- A successful `Remove` keeps the view well-formed.
pub remove-IsWellFormed :
    (v : View) (key : Bytes) {w : View} → IsWellFormed v → remove v key ≡ ok w → IsWellFormed w
unfolding remove settle erase
remove-IsWellFormed v key h e k = ground (arith, h k, bytes_eq_iff k key)

-- ===== src/TState/Reads.antt =====
-- state/tstate/tstate_view.go: what a view reads after `Insert`, `Remove` and `Commit`.
use hypersdk.Base.{
  ℕ, ◌≡◌, ◌≢◌, ◌⊎◌, inl, inr, ◌↔◌, ◌∙◌, ap, Bool, true, false, none, some, Bytes, bytes_eq_iff, ok,
  err, arith, Outcome-cases,
}
use hypersdk.Keys.{verify_value}
use hypersdk.State.Permissions.{write, allocate}
use hypersdk.State.Scope.{Scope}
use hypersdk.TState.View.{
  View, not_found, invalid_key_or_permission, insert, remove, commit, new_view, get_value_of, below,
  is_unchanged, settle, overwrite, create, erase,
}
use hypersdk.TState.WellFormed.{Inserted, Removed, insert-Inserted, remove-Removed}

unchanged-below :
    (v : View) (k value : Bytes) → is_unchanged v k (some value) ≡ ok true → below v k ≡ ok value
unfolding is_unchanged
unchanged-below v k value e = elim (Outcome-cases (below v k)) [
  | inl (x, p) ↦ p ∙ ap ok ((bytes_eq_iff x value).0 (ground (arith, p)))
  | inr (not_found, p) ↦ absurd (ground (arith, p))
  | inr (other, p) ↦ absurd (ground (arith, p))
]

unchanged-below-none :
    (v : View) (k : Bytes) → is_unchanged v k none ≡ ok true → below v k ≡ err not_found
unfolding is_unchanged
unchanged-below-none v k e = elim (Outcome-cases (below v k)) [
  | inl (x, p) ↦ absurd (ground (arith, p))
  | inr (not_found, p) ↦ p
  | inr (other, p) ↦ absurd (ground (arith, p))
]

-- After a successful `Insert` the key reads as the value, and every other key as before.
pub insert-get_value :
    (v : View) (key value : Bytes) {w : View}
    → insert v key value ≡ ok w
    → (get_value_of w key ≡ ok value)
      × ((j : Bytes) → j ≢ key → get_value_of w j ≡ get_value_of v j)
insert-get_value v key value e = elim (insert-Inserted v key value e) [
  | Inserted.same g s ↦ (rw s g, λ j n. ap (λ x. get_value_of x j) s)
  | Inserted.overwritten past u g q s ↦
      (rw s (overwritten_self u past q), λ j n. rw s (overwritten_other u past j n))
  | Inserted.created u g q s ↦ (rw s (created_self u q), λ j n. rw s (created_other u j n))
]
  where
    overwritten_self :
        (u : Bool) (past : Bytes)
        → is_unchanged v key (some value) ≡ ok u
        → get_value_of (settle u key (overwrite v key past value)) key ≡ ok value
    overwritten_self true past q =
        unfold get_value_of settle overwrite in
        ground (arith, bytes_eq_iff key key, unchanged-below v key value q)
    overwritten_self false past q =
        unfold get_value_of settle overwrite in ground (arith, bytes_eq_iff key key)

    overwritten_other :
        (u : Bool) (past j : Bytes)
        → j ≢ key
        → get_value_of (settle u key (overwrite v key past value)) j ≡ get_value_of v j
    overwritten_other u past j n =
        unfold get_value_of settle overwrite in ground (arith, bytes_eq_iff j key)

    created_self :
        (u : Bool)
        → is_unchanged v key (some value) ≡ ok u
        → get_value_of (settle u key (create v key value)) key ≡ ok value
    created_self true q =
        unfold get_value_of settle create in
        ground (arith, bytes_eq_iff key key, unchanged-below v key value q)
    created_self false q = unfold get_value_of settle create in ground (arith, bytes_eq_iff key key)

    created_other :
        (u : Bool) (j : Bytes)
        → j ≢ key
        → get_value_of (settle u key (create v key value)) j ≡ get_value_of v j
    created_other u j n = unfold get_value_of settle create in ground (arith, bytes_eq_iff j key)

-- After a successful `Remove` every other key reads as before. The key itself reads as missing
-- unless this view had allocated it while the parent holds a value for it.
pub remove-get_value :
    (v : View) (key : Bytes) {w : View}
    → (v.allocates key ≡ none) ⊎ (below v key ≡ err not_found)
    → remove v key ≡ ok w
    → (get_value_of w key ≡ err not_found)
      × ((j : Bytes) → j ≢ key → get_value_of w j ≡ get_value_of v j)
remove-get_value v key c e = elim (remove-Removed v key e) [
  | Removed.missing g s ↦ (rw s g, λ j n. ap (λ x. get_value_of x j) s)
  | Removed.erased past u g q s ↦
      (rw s (erased_self u past q), λ j n. rw s (erased_other u past j n))
]
  where
    erased_self :
        (u : Bool) (past : Bytes)
        → is_unchanged v key none ≡ ok u
        → get_value_of (settle u key (erase v key past)) key ≡ err not_found
    erased_self true past q =
        unfold get_value_of settle erase in
        ground (arith, bytes_eq_iff key key, unchanged-below-none v key q)
    erased_self false past q =
        unfold get_value_of settle erase in ground (arith, bytes_eq_iff key key, c)

    erased_other :
        (u : Bool) (past j : Bytes)
        → j ≢ key
        → get_value_of (settle u key (erase v key past)) j ≡ get_value_of v j
    erased_other u past j n = unfold get_value_of settle erase in ground (arith, bytes_eq_iff j key)

-- Where this view allocated the key and the parent holds a value for it, `Remove` succeeds and the
-- key reads as the parent's value again.
pub remove-parent_value :
    (v : View) (key : Bytes) (x past : Bytes) (a : ℕ)
    → v.scope key write ≡ true
    → v.allocates key ≡ some a
    → below v key ≡ ok x
    → get_value_of v key ≡ ok past
    → (w : View) × (remove v key ≡ ok w) × (get_value_of w key ≡ ok x)
remove-parent_value v key x past a p q r g = (
  settle false key (erase v key past),
  unfold remove is_unchanged in ground arith,
  unfold get_value_of settle erase in ground (arith, bytes_eq_iff key key),
)

-- A view opened on the result of `Commit` over the same storage reads every key as the view that
-- was committed.
pub commit-get_value :
    (v : View) (scope : Scope) (k : Bytes)
    → get_value_of (new_view (commit v) scope v.storage) k ≡ get_value_of v k
unfolding get_value_of new_view commit
commit-get_value v scope k = ground arith

-- Over a storage that answers for the key, `Insert` is refused for want of permission exactly if the
-- scope withholds writing, or the value fits the key, the key has no value and the scope withholds
-- allocating.
pub insert-refused :
    (v : View) (key value : Bytes)
    → ((x : Bytes) × (below v key ≡ ok x)) ⊎ (below v key ≡ err not_found)
    → (insert v key value ≡ err invalid_key_or_permission) ↔ (
        (v.scope key write ≡ false)
        ⊎ ((verify_value key value ≡ true)
            × (get_value_of v key ≡ err not_found)
            × (v.scope key allocate ≡ false)))
unfolding insert is_unchanged get_value_of
insert-refused v key value (inl (x, b)) = (λ e. ground arith, λ e. ground arith)
insert-refused v key value (inr b) = (λ e. ground arith, λ e. ground arith)

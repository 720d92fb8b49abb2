-- ===== src/TState/Tests.antt =====
-- state/tstate: runs at concrete inputs.
use hypersdk.Base.{
  ◌≡◌, ◌≢◌, refl, ◌↔◌, ◌⊎◌, inl, inr, true, false, List, [], ◌∷◌, none, some, Bytes, ◌==◌, Bytes_eq,
  Outcome, ok, err, if◌then◌else◌,
}
use hypersdk.Keys.{verify_value, num_chunks}
use hypersdk.State.Permissions.{write, allocate}
use hypersdk.TState.View.{
  View, TState, Error, not_found, invalid_key_or_permission, new, new_view, insert, remove, commit,
  rollback, op_index, get_value, get_value_of, below, is_unchanged, overwrite, settle, erase,
}
use hypersdk.TState.WellFormed.{IsWellFormed}
use hypersdk.TState.Undo.{SameState}
use hypersdk.TState.Session.{Command, insert_key, remove_key, run, run-IsWellFormed, rollback-run}
use hypersdk.TState.Reads.{
  insert-get_value, remove-get_value, remove-parent_value, commit-get_value, insert-refused,
}

-- A key of one byte with room for one chunk, and another.
abbrev key_a : Bytes
key_a = 97 ∷ 0 ∷ 1 ∷ []

abbrev key_b : Bytes
key_b = 98 ∷ 0 ∷ 1 ∷ []

abbrev old_value : Bytes
old_value = 10 ∷ []

abbrev new_value : Bytes
new_value = 20 ∷ []

-- The storage has `key_a` alone.
abbrev stored : Bytes → Outcome Error Bytes
stored k = if k == key_a then ok old_value else err not_found

abbrev start : View
start = record {
  ts = record { changed_keys = λ k. none; ops = 0 };
  pending = λ k. none;
  ops = [];
  scope = λ k p. true;
  storage = stored;
  allocates = λ k. none;
  writes = λ k. none;
}

start-IsWellFormed : IsWellFormed start
start-IsWellFormed k = (refl, refl)

abbrev commands : List Command
commands = remove_key key_a ∷ insert_key key_b new_value ∷ insert_key key_a new_value ∷ []

run-IsWellFormed_example : IsWellFormed (run commands start)
run-IsWellFormed_example = run-IsWellFormed commands start start-IsWellFormed

rollback-run_example :
    SameState (rollback (run commands start) (op_index start)) start
    × ((rollback (run commands start) (op_index start)).ops ≡ start.ops)
rollback-run_example = rollback-run commands start start-IsWellFormed

-- `start` with `key_a` overwritten.
abbrev written : View
written = record start {
  pending = λ k. if k == key_a then some (some new_value) else none;
  writes = λ k. if k == key_a then some 1 else none;
  ops =
      record {
        kind = hypersdk.TState.View.OpType.insert_op;
        key = key_a;
        past_value = old_value;
        past_allocates = none;
        past_writes = none;
      }
      ∷ [];
}

insert-written : insert start key_a new_value ≡ ok written
unfolding insert verify_value is_unchanged get_value_of overwrite settle num_chunks
insert-written = refl

insert-get_value_example :
    (get_value_of written key_a ≡ ok new_value)
    × ((j : Bytes) → j ≢ key_a → get_value_of written j ≡ get_value_of start j)
insert-get_value_example = insert-get_value start key_a new_value {w = written} insert-written

abbrev removed : View
removed = record start {
  pending = λ k. if k == key_a then some none else none;
  writes = λ k. if k == key_a then some 0 else none;
  ops =
      record {
        kind = hypersdk.TState.View.OpType.remove_op;
        key = key_a;
        past_value = old_value;
        past_allocates = none;
        past_writes = none;
      }
      ∷ [];
}

remove-removed : remove start key_a ≡ ok removed
unfolding remove is_unchanged get_value_of erase settle
remove-removed = refl

remove-get_value_example :
    (get_value_of removed key_a ≡ err not_found)
    × ((j : Bytes) → j ≢ key_a → get_value_of removed j ≡ get_value_of start j)
remove-get_value_example = remove-get_value start key_a {w = removed} (inl refl) remove-removed

-- The view after removing `key_a` and creating it anew.
abbrev recreated : View
recreated = run (remove_key key_a ∷ insert_key key_a new_value ∷ []) start

recreated-allocates : recreated.allocates key_a ≡ some 1
unfolding run
recreated-allocates = refl

recreated-below : below recreated key_a ≡ ok old_value
unfolding run below
recreated-below = refl

recreated-value : get_value_of recreated key_a ≡ ok new_value
unfolding run
recreated-value = refl

recreated-scope : recreated.scope key_a write ≡ true
unfolding run
recreated-scope = refl

remove-parent_value_example :
    (w : View) × (remove recreated key_a ≡ ok w) × (get_value_of w key_a ≡ ok old_value)
remove-parent_value_example =
    remove-parent_value recreated key_a old_value new_value 1 recreated-scope recreated-allocates
      recreated-below recreated-value

-- The removed key reads as its old value.
remove_twice :
    get_value_of
      (run (remove_key key_a ∷ insert_key key_a new_value ∷ remove_key key_a ∷ []) start)
      key_a
    ≡ ok old_value
unfolding run
remove_twice = refl

commit-get_value_example :
    get_value_of (new_view (commit written) (λ k p. true) stored) key_a ≡ get_value_of written key_a
commit-get_value_example = commit-get_value written (λ k p. true) key_a

insert-refused_example : (insert start key_b new_value ≡ err invalid_key_or_permission) ↔ (
    (start.scope key_b write ≡ false)
    ⊎ ((verify_value key_b new_value ≡ true)
        × (get_value_of start key_b ≡ err not_found)
        × (start.scope key_b allocate ≡ false)))
unfolding below
insert-refused_example = insert-refused start key_b new_value (inr refl)

-- ===== src/TState/View.antt =====
-- state/tstate/tstate.go and state/tstate/tstate_view.go.
-- `maybe.Maybe[[]byte]` is `Option Bytes`, with `none` for a deleted key.
use hypersdk.Base.{
  ℕ, zero, suc, ◌+◌, ◌-◌, Bool, true, false, List, [], ◌∷◌, Option, none, some, Bytes, ◌==◌,
  Bytes_eq, GoMap, empty_map, assign, delete, Outcome, ok, err, ◌>>=◌, ◌>>◌, guard, length,
  if◌then◌else◌,
}
use hypersdk.Keys.{verify_value, num_chunks, max_chunks}
use hypersdk.State.Permissions.{read, write, allocate}
use hypersdk.State.Scope.{Scope}

-- `database_error` is any other error of the underlying database.
pub data Error : Type 0 where
  not_found invalid_key_or_permission invalid_key_value : Error
  database_error : ℕ → Error

abbrev pub Changes : Type 0
Changes = GoMap Bytes (Option Bytes)

pub record TState : Type 0 where
  pub changed_keys : Changes
  pub ops : ℕ

pub data OpType : Type 0 where
  create_op insert_op remove_op : OpType

pub record Op : Type 0 where
  pub kind : OpType
  pub key : Bytes
  pub past_value : Bytes
  pub past_allocates : Option ℕ
  pub past_writes : Option ℕ

-- `ops` holds the newest operation first.
pub record View : Type 0 where
  pub ts : TState
  pub pending : Changes
  pub ops : List Op
  pub scope : Scope
  pub storage : Bytes → Outcome Error Bytes
  pub allocates : GoMap Bytes ℕ
  pub writes : GoMap Bytes ℕ

-- `New`
unfoldable pub new : TState
new = record { changed_keys = empty_map; ops = 0 }

-- `NewView`
unfoldable pub new_view : TState → Scope → (Bytes → Outcome Error Bytes) → View
new_view ts scope storage = record {
  ts = ts;
  pending = empty_map;
  ops = [];
  scope = scope;
  storage = storage;
  allocates = empty_map;
  writes = empty_map;
}

-- `getChangedValue`: `none` if the key is unchanged, else its value if it exists
unfoldable pub get_changed_value : TState → Bytes → Option (Option Bytes)
get_changed_value ts key = ts.changed_keys key

abbrev pub value_or_not_found : Option Bytes → Outcome Error Bytes
value_or_not_found (some x) = ok x
value_or_not_found none = err not_found

abbrev pub read_through : Option (Option Bytes) → Outcome Error Bytes → Outcome Error Bytes
read_through (some v) below = value_or_not_found v
read_through none below = below

-- What the parent view holds for a key, or else the storage.
unfoldable pub below : View → Bytes → Outcome Error Bytes
unfolding get_changed_value
below v key = read_through (get_changed_value v.ts key) (v.storage key)

-- `getValue`: what the view has pending, else the parent's change, else the storage
unfoldable pub get_value_of : View → Bytes → Outcome Error Bytes
unfolding below
get_value_of v key = read_through (v.pending key) (below v key)

-- `GetValue`
unfoldable pub get_value : View → Bytes → Outcome Error Bytes
unfolding get_value_of
get_value v key = do guard (v.scope key read) invalid_key_or_permission; get_value_of v key

-- Whether a value that was found is the new one.
abbrev same_value : Outcome Error Bytes → Option Bytes → Outcome Error Bool
same_value (ok old) (some value) = ok (old == value)
same_value (ok old) none = ok false
same_value (err not_found) (some value) = ok false
same_value (err not_found) none = ok true
same_value (err e) nval = err e

-- `isUnchanged`, with `none` for `nexists = false`
unfoldable pub is_unchanged : View → Bytes → Option Bytes → Outcome Error Bool
unfolding below
is_unchanged v key nval = same_value (below v key) nval

abbrev pub chunks_or_zero : Option ℕ → ℕ
chunks_or_zero (some n) = n
chunks_or_zero none = 0

-- Forgets the key where the operation gives back the parent's value.
unfoldable pub settle : Bool → Bytes → View → View
settle unchanged k v =
    if unchanged
    then record v {
      allocates = delete v.allocates k;
      writes = delete v.writes k;
      pending = delete v.pending k;
    }
    else v

abbrev pub op_at : View → OpType → Bytes → Bytes → Op
op_at v kind k past = record {
  kind = kind;
  key = k;
  past_value = past;
  past_allocates = v.allocates k;
  past_writes = v.writes k;
}

unfoldable pub overwrite : View → Bytes → Bytes → Bytes → View
overwrite v k past value = record v {
  writes = assign v.writes k (chunks_or_zero (num_chunks value));
  ops = op_at v insert_op k past ∷ v.ops;
  pending = assign v.pending k (some value);
}

unfoldable pub create : View → Bytes → Bytes → View
create v k value = record v {
  allocates = assign v.allocates k (chunks_or_zero (max_chunks k));
  writes = assign v.writes k (chunks_or_zero (num_chunks value));
  ops = op_at v create_op k [] ∷ v.ops;
  pending = assign v.pending k (some value);
}

-- The part of `Insert` behind the reads. Each error returns before the first write.
abbrev insert_over : View → Bytes → Bytes → Bool → Outcome Error Bytes → Outcome Error View
insert_over v k value unchanged (ok past) =
    if past == value then ok v else ok (settle unchanged k (overwrite v k past value))
insert_over v k value unchanged (err not_found) =
    if v.scope k allocate
    then ok (settle unchanged k (create v k value))
    else err invalid_key_or_permission
insert_over v k value unchanged (err e) = err e

-- `Insert`
unfoldable pub insert : View → Bytes → Bytes → Outcome Error View
unfolding is_unchanged get_value_of settle overwrite create verify_value
insert v key value = do
  guard (v.scope key write) invalid_key_or_permission
  guard (verify_value key value) invalid_key_value
  unchanged ← is_unchanged v key (some value)
  insert_over v key value unchanged (get_value_of v key)

abbrev is_some : Option ℕ → Bool
is_some (some n) = true
is_some none = false

unfoldable pub erase : View → Bytes → Bytes → View
erase v k past =
    let logged = record v { ops = op_at v remove_op k past ∷ v.ops } in
    if is_some (v.allocates k)
    then record logged {
      allocates = delete v.allocates k;
      writes = delete v.writes k;
      pending = delete v.pending k;
    }
    else record logged { writes = assign v.writes k 0; pending = assign v.pending k none }

abbrev remove_over : View → Bytes → Outcome Error Bytes → Outcome Error View
remove_over v k (ok past) = do
  unchanged ← is_unchanged v k none
  ok (settle unchanged k (erase v k past))
remove_over v k (err not_found) = ok v
remove_over v k (err e) = err e

-- `Remove`
unfoldable pub remove : View → Bytes → Outcome Error View
unfolding is_unchanged get_value_of settle erase
remove v key = do
  guard (v.scope key write) invalid_key_or_permission
  remove_over v key (get_value_of v key)

-- One round of the loop of `Rollback`, by the operation's type.
abbrev undo_as : OpType → Op → View → View
undo_as create_op op v = elim op.past_writes [
  | some w ↦ record v {
    allocates = delete v.allocates op.key;
    writes = assign v.writes op.key w;
    pending = assign v.pending op.key none;
  }
  | none ↦ record v {
    allocates = delete v.allocates op.key;
    writes = delete v.writes op.key;
    pending = delete v.pending op.key;
  }
]
undo_as insert_op op v = elim op.past_writes [
  | some w ↦ record v {
    writes = assign v.writes op.key w;
    pending = assign v.pending op.key (some op.past_value);
  }
  | none ↦ record v { writes = delete v.writes op.key; pending = delete v.pending op.key }
]
undo_as remove_op op v =
    let back : GoMap Bytes ℕ = elim op.past_allocates [
      | some a ↦ assign v.allocates op.key a
      | none ↦ v.allocates
    ] in
    elim op.past_writes [
      | some w ↦ record v {
        allocates = back;
        writes = assign v.writes op.key w;
        pending = assign v.pending op.key (some op.past_value);
      }
      | none ↦ record v {
        allocates = back;
        writes = delete v.writes op.key;
        pending = delete v.pending op.key;
      }
    ]

unfoldable pub undo : Op → View → View
undo op v = undo_as op.kind op v

-- The loop of `Rollback`, over the newest `rounds` operations.
unfoldable pub undo_newest : ℕ → List Op → View → View
undo_newest zero ops v = record v { ops = ops }
undo_newest (suc rounds) [] v = record v { ops = [] }
undo_newest (suc rounds) (op ∷ ops) v = undo_newest rounds ops (undo op v)

-- `OpIndex`
abbrev pub op_index : View → ℕ
op_index v = length v.ops

-- `Rollback`; every restore point is an earlier `OpIndex`, so none lies past the end
unfoldable pub rollback : View → ℕ → View
unfolding undo_newest undo
rollback v restore_point = undo_newest (op_index v - restore_point) v.ops v

-- `Commit`, which leaves the view as it is
unfoldable pub commit : View → TState
commit v = record {
  changed_keys = λ k. elim (v.pending k) [ some change ↦ some change | none ↦ v.ts.changed_keys k ];
  ops = v.ts.ops + length v.ops;
}

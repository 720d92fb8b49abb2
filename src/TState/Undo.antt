-- ===== src/TState/Undo.antt =====
-- state/tstate/tstate_view.go: `Rollback` of one operation.
use hypersdk.Base.{
  ◌≡◌, refl, fun_ext, Bool, List, [], ◌∷◌, Option, none, some, Bytes, bytes_eq_iff, ok, err, arith,
  subst, sym, ◌++◌,
}
use hypersdk.TState.View.{
  View, Op, insert, remove, undo, settle, overwrite, create, erase, op_at, insert_op, create_op,
  remove_op, get_value_of, not_found,
}
use hypersdk.TState.WellFormed.{IsWellFormed, Inserted, Removed, insert-Inserted, remove-Removed}

-- The parts of a view that its reads, its checks and `Commit` depend on, operations aside.
pub record SameState (v w : View) : Type 0 where
  pub ts : v.ts ≡ w.ts
  pub pending : v.pending ≡ w.pending
  pub scope : v.scope ≡ w.scope
  pub storage : v.storage ≡ w.storage
  pub writes : v.writes ≡ w.writes

-- The loop of `Rollback` over given operations, newest first.
abbrev pub undo_all : List Op → View → View
undo_all [] v = v
undo_all (op ∷ ops) v = undo_all ops (undo op v)

-- `w` is `v` after more operations, which undoing takes back.
pub record Undoes (v w : View) : Type 0 where
  pub extra : List Op
  pub logged : w.ops ≡ extra ++ v.ops
  pub same : SameState (undo_all extra w) v

read_some :
    (v : View) (k past : Bytes) {p : Option Bytes}
    → get_value_of v k ≡ ok past
    → v.pending k ≡ some p
    → p ≡ some past
unfolding get_value_of
read_some v k past g e = ground arith

read_none :
    (v : View) (k : Bytes) {p : Option Bytes}
    → get_value_of v k ≡ err not_found
    → v.pending k ≡ some p
    → p ≡ none
unfolding get_value_of
read_none v k g e = ground arith

module _ (v : View) (k : Bytes) (u : Bool) (h : IsWellFormed v) where
  undo-overwrite :
      (past value : Bytes)
      → get_value_of v k ≡ ok past
      → SameState (undo (op_at v insert_op k past) (settle u k (overwrite v k past value))) v
  unfolding undo settle overwrite get_value_of
  undo-overwrite past value g = record {
    ts = ground (arith, h k);
    pending = fun_ext λ j. ground (arith, h k, bytes_eq_iff j k);
    scope = ground (arith, h k);
    storage = ground (arith, h k);
    writes = fun_ext λ j. ground (arith, h k, bytes_eq_iff j k);
  }

  undo-create :
      (value : Bytes)
      → get_value_of v k ≡ err not_found
      → SameState (undo (op_at v create_op k []) (settle u k (create v k value))) v
  unfolding undo settle create get_value_of
  undo-create value g = record {
    ts = ground (arith, h k);
    pending = fun_ext λ j. ground (arith, h k, bytes_eq_iff j k);
    scope = ground (arith, h k);
    storage = ground (arith, h k);
    writes = fun_ext λ j. ground (arith, h k, bytes_eq_iff j k);
  }

  undo-erase :
      (past : Bytes)
      → get_value_of v k ≡ ok past
      → SameState (undo (op_at v remove_op k past) (settle u k (erase v k past))) v
  unfolding undo settle erase get_value_of
  undo-erase past g = record {
    ts = ground (arith, h k);
    pending = fun_ext λ j. ground (arith, h k, bytes_eq_iff j k);
    scope = ground (arith, h k);
    storage = ground (arith, h k);
    writes = fun_ext λ j. ground (arith, h k, bytes_eq_iff j k);
  }

pub SameState-refl : (v : View) → SameState v v
SameState-refl v = record { ts = refl; pending = refl; scope = refl; storage = refl; writes = refl }

pub Undoes-refl : (v : View) → Undoes v v
Undoes-refl v = record { extra = []; logged = refl; same = SameState-refl v }

one_undone : {v w : View} (op : Op) → w.ops ≡ op ∷ v.ops → SameState (undo op w) v → Undoes v w
one_undone op e s = record { extra = op ∷ []; logged = e; same = s }

Undoes-eq : {v w : View} (x : View) → w ≡ x → Undoes v x → Undoes v w
Undoes-eq {v} x e h = subst (λ y. Undoes v y) (sym e) h

-- `Insert` adds at most one operation, and undoing it takes the state back.
pub insert-Undoes :
    (v : View) (key value : Bytes) {w : View}
    → IsWellFormed v
    → insert v key value ≡ ok w
    → Undoes v w
insert-Undoes v key value h e = elim (insert-Inserted v key value e) [
  | Inserted.same g s ↦ Undoes-eq v s (Undoes-refl v)
  | Inserted.overwritten past u g q s ↦
      Undoes-eq _ s (one_undone _ (overwrite-ops u past) (undo-overwrite v key u h past value g))
  | Inserted.created u g q s ↦
      Undoes-eq _ s (one_undone _ (create-ops u) (undo-create v key u h value g))
]
  where
    overwrite-ops :
        (u : Bool) (past : Bytes)
        → (settle u key (overwrite v key past value)).ops ≡ op_at v insert_op key past ∷ v.ops
    overwrite-ops u past = unfold settle overwrite in ground arith

    create-ops :
        (u : Bool) → (settle u key (create v key value)).ops ≡ op_at v create_op key [] ∷ v.ops
    create-ops u = unfold settle create in ground arith

-- `Remove` likewise.
pub remove-Undoes :
    (v : View) (key : Bytes) {w : View} → IsWellFormed v → remove v key ≡ ok w → Undoes v w
remove-Undoes v key h e = elim (remove-Removed v key e) [
  | Removed.missing g s ↦ Undoes-eq v s (Undoes-refl v)
  | Removed.erased past u g q s ↦
      Undoes-eq _ s (one_undone _ (erase-ops u past) (undo-erase v key u h past g))
]
  where
    erase-ops :
        (u : Bool) (past : Bytes)
        → (settle u key (erase v key past)).ops ≡ op_at v remove_op key past ∷ v.ops
    erase-ops u past = unfold settle erase in ground arith

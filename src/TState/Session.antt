-- ===== src/TState/Session.antt =====
-- state/tstate/tstate_view.go: a run of operations in a view, and `Rollback` to its start.
use hypersdk.Base.{
  ◌-◌, ◌≡◌, refl, sym, ap, ◌∙◌, inl, inr, List, [], ◌∷◌, ◌++◌, append_assoc, Bytes, Outcome, ok,
  err, Outcome-cases, length, length-append, arith,
}
use hypersdk.TState.View.{
  View, Op, insert, remove, undo, undo_newest, rollback, op_index, get_value, Error,
}
use hypersdk.TState.WellFormed.{IsWellFormed, insert-IsWellFormed, remove-IsWellFormed}
use hypersdk.TState.Undo.{SameState, Undoes, Undoes-refl, undo_all, insert-Undoes, remove-Undoes}

-- What an action may call on its view.
pub data Command : Type 0 where
  insert_key : Bytes → Bytes → Command
  remove_key : Bytes → Command

-- A call that fails leaves the view as it is, and the action may go on.
abbrev after : View → Outcome Error View → View
after v (ok w) = w
after v (err e) = v

unfoldable pub step : Command → View → View
unfolding insert remove
step (insert_key key value) v = after v (insert v key value)
step (remove_key key) v = after v (remove v key)

unfoldable pub run : List Command → View → View
unfolding step
run [] v = v
run (c ∷ cs) v = run cs (step c v)

pub step-IsWellFormed : (c : Command) (v : View) → IsWellFormed v → IsWellFormed (step c v)
unfolding step
step-IsWellFormed (insert_key key value) v h = elim (Outcome-cases (insert v key value)) [
  | inl (w, e) ↦ rw e (insert-IsWellFormed v key value h e)
  | inr (f, e) ↦ rw e h
]
step-IsWellFormed (remove_key key) v h = elim (Outcome-cases (remove v key)) [
  | inl (w, e) ↦ rw e (remove-IsWellFormed v key h e)
  | inr (f, e) ↦ rw e h
]

-- No sequence of operations, failing ones among them, breaks the agreement of the three maps.
pub run-IsWellFormed : (cs : List Command) (v : View) → IsWellFormed v → IsWellFormed (run cs v)
unfolding run
run-IsWellFormed [] v h = h
run-IsWellFormed (c ∷ cs) v h = run-IsWellFormed cs (step c v) (step-IsWellFormed c v h)

step-Undoes : (c : Command) (v : View) → IsWellFormed v → Undoes v (step c v)
unfolding step
step-Undoes (insert_key key value) v h = elim (Outcome-cases (insert v key value)) [
  | inl (w, e) ↦ rw e (insert-Undoes v key value h e)
  | inr (f, e) ↦ rw e (Undoes-refl v)
]
step-Undoes (remove_key key) v h = elim (Outcome-cases (remove v key)) [
  | inl (w, e) ↦ rw e (remove-Undoes v key h e)
  | inr (f, e) ↦ rw e (Undoes-refl v)
]

SameState-trans : {u v w : View} → SameState u v → SameState v w → SameState u w
SameState-trans p q = record {
  ts = p.ts ∙ q.ts;
  pending = p.pending ∙ q.pending;
  scope = p.scope ∙ q.scope;
  storage = p.storage ∙ q.storage;
  writes = p.writes ∙ q.writes;
}

undo-SameState : (op : Op) (v w : View) → SameState v w → SameState (undo op v) (undo op w)
unfolding undo
undo-SameState op v w s = record {
  ts = ground arith;
  pending = ground arith;
  scope = ground arith;
  storage = ground arith;
  writes = ground arith;
}

undo_all-SameState :
    (ops : List Op) (v w : View) → SameState v w → SameState (undo_all ops v) (undo_all ops w)
undo_all-SameState [] v w s = s
undo_all-SameState (op ∷ ops) v w s =
    undo_all-SameState ops (undo op v) (undo op w) (undo-SameState op v w s)

undo_all-append : (xs ys : List Op) (v : View) → undo_all (xs ++ ys) v ≡ undo_all ys (undo_all xs v)
undo_all-append [] ys v = refl
undo_all-append (x ∷ xs) ys v = undo_all-append xs ys (undo x v)

Undoes-trans : {u v w : View} → Undoes u v → Undoes v w → Undoes u w
Undoes-trans {u} {v} {w} p q = record {
  extra = q.extra ++ p.extra;
  logged = q.logged ∙ ap (◌++◌ q.extra) p.logged ∙ sym (append_assoc q.extra p.extra u.ops);
  same =
      rw undo_all-append
        (SameState-trans (undo_all-SameState p.extra (undo_all q.extra w) v q.same) p.same);
}

run-Undoes : (cs : List Command) (v : View) → IsWellFormed v → Undoes v (run cs v)
unfolding run
run-Undoes [] v h = Undoes-refl v
run-Undoes (c ∷ cs) v h =
    Undoes-trans (step-Undoes c v h) (run-Undoes cs (step c v) (step-IsWellFormed c v h))

undo_newest_lem :
    (extra ops : List Op) (v : View)
    → undo_newest (length extra) (extra ++ ops) v ≡ record (undo_all extra v) { ops = ops }
unfolding undo_newest
undo_newest_lem [] ops v = refl
undo_newest_lem (x ∷ extra) ops v = undo_newest_lem extra ops (undo x v)

rollback-Undoes :
    (v w : View) (u : Undoes v w)
    → rollback w (op_index v) ≡ record (undo_all u.extra w) { ops = v.ops }
unfolding rollback
rollback-Undoes v w u =
    let rounds : op_index w - op_index v ≡ length u.extra =
      omega (arith, ap length u.logged, length-append u.extra v.ops) in
    ap (λ n. undo_newest n w.ops w) rounds
    ∙ ap (λ l. undo_newest (length u.extra) l w) u.logged
    ∙ undo_newest_lem u.extra v.ops w

-- Rolling back any run of operations to the index at its start gives back the operations, the
-- pending changes and the record of writes that the view had there.
pub rollback-run :
    (cs : List Command) (v : View)
    → IsWellFormed v
    → SameState (rollback (run cs v) (op_index v)) v
      × ((rollback (run cs v) (op_index v)).ops ≡ v.ops)
rollback-run cs v h =
    let u = run-Undoes cs v h in
    rw (rollback-Undoes v (run cs v) u) (
      record {
        ts = u.same.ts;
        pending = u.same.pending;
        scope = u.same.scope;
        storage = u.same.storage;
        writes = u.same.writes;
      },
      refl,
    )

get_value-SameState : (v w : View) (k : Bytes) → SameState v w → get_value v k ≡ get_value w k
unfolding get_value
get_value-SameState v w k s = ground arith

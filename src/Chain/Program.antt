-- ===== src/Chain/Program.antt =====
-- state.Mutable (state/state.go): what an action or a balance handler can do to the state of a
-- transaction. A program is the code of one, which reads, inserts and removes keys one at a time
-- and goes on with what each call returned, an error among it.
use hypersdk.Base.{
  ◌≡◌, refl, ap, ◌∙◌, List, [], ◌∷◌, ◌++◌, Option, none, some, Bytes, Outcome, ok, err,
}
use hypersdk.TState.View.{View, Error, get_value, insert, remove, rollback, op_index}
use hypersdk.TState.WellFormed.{IsWellFormed}
use hypersdk.TState.Undo.{SameState}
use hypersdk.TState.Session.{
  Command, insert_key, remove_key, step, run, run-IsWellFormed, rollback-run,
}

pub data Program (R : Type 0) : Type 0 where
  done : R → Program R
  get_then : Bytes → (Outcome Error Bytes → Program R) → Program R
  insert_then : Bytes → Bytes → (Option Error → Program R) → Program R
  remove_then : Bytes → (Option Error → Program R) → Program R

abbrev pub error_of : Outcome Error View → Option Error
error_of (ok w) = none
error_of (err e) = some e

-- A program on a view: the view that it leaves, and its result.
unfoldable pub perform : {R : Type 0} → Program R → View → View × R
unfolding step
perform (done r) v = (v, r)
perform (get_then key next) v = perform (next (get_value v key)) v
perform (insert_then key value next) v =
    perform (next (error_of (insert v key value))) (step (insert_key key value) v)
perform (remove_then key next) v =
    perform (next (error_of (remove v key))) (step (remove_key key) v)

commands_of : {R : Type 0} → Program R → View → List Command
commands_of (done r) v = []
commands_of (get_then key next) v = commands_of (next (get_value v key)) v
commands_of (insert_then key value next) v =
    insert_key key value
    ∷ commands_of (next (error_of (insert v key value))) (step (insert_key key value) v)
commands_of (remove_then key next) v =
    remove_key key ∷ commands_of (next (error_of (remove v key))) (step (remove_key key) v)

perform-commands :
    {R : Type 0} (p : Program R) (v : View) → (perform p v).0 ≡ run (commands_of p v) v
unfolding perform commands_of run
perform-commands (done r) v = refl
perform-commands (get_then key next) v = perform-commands (next (get_value v key)) v
perform-commands (insert_then key value next) v =
    perform-commands (next (error_of (insert v key value))) (step (insert_key key value) v)
perform-commands (remove_then key next) v =
    perform-commands (next (error_of (remove v key))) (step (remove_key key) v)

-- Views that a sequence of operations leads to.
pub record Reaches (v w : View) : Type 0 where
  pub commands : List Command
  pub reached : w ≡ run commands v

pub Reaches-refl : (v : View) → Reaches v v
unfolding run
Reaches-refl v = record { commands = []; reached = refl }

run-append : (cs ds : List Command) (v : View) → run ds (run cs v) ≡ run (cs ++ ds) v
unfolding run
run-append [] ds v = refl
run-append (c ∷ cs) ds v = run-append cs ds (step c v)

pub Reaches-trans : {u v w : View} → Reaches u v → Reaches v w → Reaches u w
Reaches-trans {u} {v} {w} p q = record {
  commands = p.commands ++ q.commands;
  reached = q.reached ∙ ap (run q.commands) p.reached ∙ run-append p.commands q.commands u;
}

pub perform-Reaches : {R : Type 0} (p : Program R) (v : View) → Reaches v (perform p v).0
perform-Reaches p v = record { commands = commands_of p v; reached = perform-commands p v }

pub Reaches-IsWellFormed : {v w : View} → Reaches v w → IsWellFormed v → IsWellFormed w
Reaches-IsWellFormed {v} r h = rw r.reached (run-IsWellFormed r.commands v h)

-- Whatever led from a view to another, rolling back to the index of the first restores it.
pub rollback-Reaches :
    {v w : View}
    → Reaches v w
    → IsWellFormed v
    → SameState (rollback w (op_index v)) v × ((rollback w (op_index v)).ops ≡ v.ops)
rollback-Reaches {v} r h = rw r.reached (rollback-run r.commands v h)

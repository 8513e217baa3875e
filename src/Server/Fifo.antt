-- ===== src/Server/Fifo.antt =====
-- The order of the submitted tasks, and an abstract queue (internal/server/server.go).
use open_ai_mc_be_server.Prelude.{
  ltb→lt, tests, length-append, ap, ◌∙◌, refl, suc, sym, [], ◌+◌, some, get_elem?, ◌<◌, ◌≤◌, ◌∷◌,
  length, ℕ, List, arith, ◌++◌, ◌≡◌,
}
use mathlib.Core.List.{append_assoc}
use open_ai_mc_be_server.Server.Tasks.{
  finds_full, enqueues, sees_cancel, submit, task_queue_cap, Runtime, ◌⟶◌, ◌⟶*◌, here, then,
  started, submit, sees_cancel, enqueues, finds_full, stop, sees_done, takes, ticks, drains,
  drained, run_task,
}

-- The abstract queue: the tasks that came, and those that were run. At most 128 wait, and the only
-- task that can be run is the one that came next.
pub record Fifo : Type 0 where
  pub came : List ℕ
  pub ran : List ℕ

infix 40 ◌⇒◌
pub data ◌⇒◌ : Fifo → Fifo → Type 0 where
  idle : {a : Fifo} → a ⇒ a
  comes :
      {a : Fifo} (task : ℕ)
      → length a.came < length a.ran + 128
      → a ⇒ record a { came = a.came ++ task ∷ [] }
  runs :
      {a : Fifo} (task : ℕ)
      → get_elem? a.came (length a.ran) ≡ some task
      → a ⇒ record a { ran = a.ran ++ task ∷ [] }

unfoldable pub abstraction : Runtime → Fifo
abstraction s = record { came = s.accepted; ran = s.ran }

-- What was taken and not yet run stands in the channel, in order.
pub record IsRuntime (s : Runtime) : Type 0 where
  pub in_order : s.accepted ≡ s.ran ++ s.task_queue
  pub bounded : length s.task_queue ≤ task_queue_cap

pub started-IsRuntime : IsRuntime started
unfolding started
started-IsRuntime = record { in_order = refl; bounded = omega arith }

get_elem?-length-append : (xs ys : List ℕ) (y : ℕ) → get_elem? (xs ++ y ∷ ys) (length xs) ≡ some y
get_elem?-length-append [] ys y = refl
get_elem?-length-append (x ∷ xs) ys y = get_elem?-length-append xs ys y

run_task-IsRuntime :
    (s : Runtime) (task : ℕ) (rest : List ℕ)
    → s.task_queue ≡ task ∷ rest
    → IsRuntime s
    → IsRuntime (run_task task rest s)
run_task-IsRuntime s task rest e inv =
    let fewer : suc (length rest) ≤ task_queue_cap = rw e at inv.bounded in
    record {
      in_order =
          inv.in_order
          ∙ ap (λ (l : List ℕ). s.ran ++ l) e
          ∙ sym (append_assoc s.ran (task ∷ []) rest);
      bounded = omega (arith, fewer);
    }

-- A step keeps the tasks in order, and the queue within its capacity.
pub step-IsRuntime : {s s' : Runtime} → s ⟶ s' → IsRuntime s → IsRuntime s'
step-IsRuntime (submit (sees_cancel c)) inv = inv
step-IsRuntime (submit (enqueues {task = task} {s = s} room)) inv = record {
  in_order =
      ap (λ (l : List ℕ). l ++ task ∷ []) inv.in_order
      ∙ append_assoc s.ran s.task_queue (task ∷ []);
  bounded =
      omega (tests, ltb→lt (length s.task_queue) 128 room, length-append s.task_queue (task ∷ []));
}
step-IsRuntime (submit (finds_full c full)) inv = inv
step-IsRuntime stop inv = record { in_order = inv.in_order; bounded = inv.bounded }
step-IsRuntime (sees_done l c) inv = record { in_order = inv.in_order; bounded = inv.bounded }
step-IsRuntime (takes {s = s} {task = task} {rest = rest} l e) inv =
    run_task-IsRuntime s task rest e inv
step-IsRuntime (ticks l) inv = record { in_order = inv.in_order; bounded = inv.bounded }
step-IsRuntime (drains {s = s} {task = task} {rest = rest} l e) inv =
    run_task-IsRuntime s task rest e inv
step-IsRuntime (drained l e) inv = record { in_order = inv.in_order; bounded = inv.bounded }

run_task-runs :
    (s : Runtime) (task : ℕ) (rest : List ℕ)
    → s.task_queue ≡ task ∷ rest
    → IsRuntime s
    → abstraction s ⇒ abstraction (run_task task rest s)
unfolding abstraction
run_task-runs s task rest e inv =
    let next : get_elem? s.accepted (length s.ran) ≡ some task =
      rw (inv.in_order, e) (get_elem?-length-append s.ran rest task) in
    runs task next

-- In a state in which the accepted tasks are those that were run and then those that are queued,
-- and at most 128 are queued, every step of a caller or of the loop is a step of an abstract
-- queue or changes nothing of it: a task comes at the end, when fewer than 128 wait, or the one
-- that came next after those that were run is run.
pub step-refines : {s s' : Runtime} → s ⟶ s' → IsRuntime s → abstraction s ⇒ abstraction s'
unfolding abstraction
step-refines (submit (sees_cancel c)) inv = idle
step-refines (submit (enqueues {task = task} {s = s} room)) inv =
    let total : length s.accepted ≡ length s.ran + length s.task_queue =
      rw inv.in_order (length-append s.ran s.task_queue) in
    comes task (omega (arith, total, ltb→lt (length s.task_queue) 128 room))
step-refines (submit (finds_full c full)) inv = idle
step-refines stop inv = idle
step-refines (sees_done l c) inv = idle
step-refines (takes {s = s} {task = task} {rest = rest} l e) inv = run_task-runs s task rest e inv
step-refines (ticks l) inv = idle
step-refines (drains {s = s} {task = task} {rest = rest} l e) inv = run_task-runs s task rest e inv
step-refines (drained l e) inv = idle

pub steps-IsRuntime : {s s' : Runtime} → s ⟶* s' → IsRuntime s → IsRuntime s'
steps-IsRuntime here inv = inv
steps-IsRuntime (then step rest) inv = steps-IsRuntime rest (step-IsRuntime step inv)

-- In every state that the server reaches, by any interleaving of callers, ticks and a stop, the
-- tasks that `Submit` accepted are those that were run and then those that are queued, in order,
-- and at most 128 are queued.
pub ran-in_order :
    {s : Runtime}
    → started ⟶* s
    → (s.accepted ≡ s.ran ++ s.task_queue) × (length s.task_queue ≤ task_queue_cap)
ran-in_order steps =
    let inv = steps-IsRuntime steps started-IsRuntime in (inv.in_order, inv.bounded)

-- ===== src/Server/Exited.antt =====
-- What a tick does to the queue, and what happens to tasks after a stop (internal/server/server.go).
use open_ai_mc_be_server.Prelude.{◌∙◌, ◌∷◌, subst, ◌++◌, [], ℕ, List, ◌≡◌, refl, sym}
use mathlib.Core.List.{append_assoc, append-nil}
use open_ai_mc_be_server.Server.Tasks.{
  selecting, tick_once, draining, returned, drain_tasks, Runtime, ◌⟶*◌, here, then, submit,
  sees_cancel, enqueues, finds_full, stop, sees_done, takes, ticks, drains, drained, run_task,
}

-- Once the loop has returned, it stays so and no further task is run, whatever is submitted.
pub returned-ran :
    {s s' : Runtime}
    → s ⟶* s'
    → s.loop ≡ returned
    → (s'.loop ≡ returned) × (s'.ran ≡ s.ran) × (s'.tick ≡ s.tick)
returned-ran here l = (l, refl, refl)
returned-ran (then (submit (sees_cancel c)) rest) l = returned-ran rest l
returned-ran (then (submit (enqueues room)) rest) l = returned-ran rest l
returned-ran (then (submit (finds_full c full)) rest) l = returned-ran rest l
returned-ran (then stop rest) l = returned-ran rest l
returned-ran (then (sees_done l' c) rest) l = returned-ran rest refl
returned-ran (then (takes l' e) rest) l = cc
returned-ran (then (ticks l') rest) l = cc
returned-ran (then (drains l' e) rest) l = cc
returned-ran (then (drained l' e) rest) l = cc

pub trans : {s t u : Runtime} → s ⟶* t → t ⟶* u → s ⟶* u
trans here rest = rest
trans (then step steps) rest = then step (trans steps rest)

-- The loop of `drainTasks`, up to where it finds the queue empty.
drain_all :
    (queue : List ℕ) (s : Runtime)
    → s.loop ≡ draining
    → s.task_queue ≡ queue
    → (s ⟶* drain_tasks queue s)
      × ((drain_tasks queue s).loop ≡ draining)
      × ((drain_tasks queue s).task_queue ≡ [])
      × ((drain_tasks queue s).ran ≡ s.ran ++ queue)
unfolding drain_tasks
drain_all [] s l e = (
  subst (λ (q : List ℕ). s ⟶* record s { task_queue = q }) e here,
  l,
  refl,
  sym (append-nil s.ran),
)
drain_all (task ∷ rest) s l e =
    let (steps, still, empty, ran) = drain_all rest (run_task task rest s) l refl in
    (then (drains l e) steps, still, empty, ran ∙ append_assoc s.ran (task ∷ []) rest)

-- From its `select`, with nobody submitting, the loop reaches by its steps the end of a tick
-- that runs all the tasks that are queued, in order, and leaves none.
pub tick_once-runs :
    (s : Runtime)
    → s.loop ≡ selecting
    → (s ⟶* tick_once s)
      × ((tick_once s).loop ≡ selecting)
      × ((tick_once s).task_queue ≡ [])
      × ((tick_once s).ran ≡ s.ran ++ s.task_queue)
unfolding tick_once
tick_once-runs s l =
    let (steps, still, empty, ran) =
      drain_all s.task_queue (record s { loop = draining }) refl refl in
    (then (ticks l) (trans steps (then (drained still empty) here)), refl, empty, ran)

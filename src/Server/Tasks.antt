-- ===== src/Server/Tasks.antt =====
-- The queue of tasks, and the loop that runs them (internal/server/server.go). A task is a number,
-- and a submission of no task, which does nothing, is left out. A `select` with several cases that are
-- ready takes any of them, so the steps are a relation.
use open_ai_mc_be_server.Prelude.{
  ◌^◌, ◌%◌, length, ◌+◌, ◌∷◌, [], ◌++◌, true, ltb, List, Bool, false, ℕ, ◌≡◌,
}

abbrev pub task_queue_cap : ℕ
task_queue_cap = 128

-- Where `run` is: in its `select`, in `drainTasks`, or returned.
pub data Loop : Type 0 where
  selecting : Loop
  draining : Loop
  returned : Loop

-- `ran` and `accepted` are histories: the tasks that were run, and those that `Submit` took.
pub record Runtime : Type 0 where
  pub loop : Loop
  pub cancelled : Bool
  pub task_queue : List ℕ
  pub tick : ℕ
  pub ran : List ℕ
  pub accepted : List ℕ

unfoldable pub started : Runtime
started = record {
  loop = selecting;
  cancelled = false;
  task_queue = [];
  tick = 0;
  ran = [];
  accepted = [];
}

pub data SubmitResult : Type 0 where
  submitted : SubmitResult
  canceled : SubmitResult
  queue_full : SubmitResult

abbrev pub has_room : Runtime → Bool
has_room s = ltb (length s.task_queue) task_queue_cap

abbrev pub enqueued : ℕ → Runtime → Runtime
enqueued task s = record s {
  task_queue = s.task_queue ++ task ∷ [];
  accepted = s.accepted ++ task ∷ [];
}

-- A channel receive, and `runTask`: a task that panics was run as well.
abbrev pub run_task : ℕ → List ℕ → Runtime → Runtime
run_task task rest s = record s { task_queue = rest; ran = s.ran ++ task ∷ [] }

-- `Submit` of a task: the cases of its `select`. The default case is taken only if no other is ready.
pub data Submits : ℕ → Runtime → SubmitResult → Runtime → Type 0 where
  sees_cancel : {task : ℕ} {s : Runtime} → s.cancelled ≡ true → Submits task s canceled s
  enqueues :
      {task : ℕ} {s : Runtime} → has_room s ≡ true → Submits task s submitted (enqueued task s)
  finds_full :
      {task : ℕ} {s : Runtime}
      → s.cancelled ≡ false
      → has_room s ≡ false
      → Submits task s queue_full s

-- The steps of the server: of the callers of `Submit` and `Stop`, and of `run`.
infix 40 ◌⟶◌ ◌⟶*◌
pub data ◌⟶◌ : Runtime → Runtime → Type 0 where
  submit : {task : ℕ} {s s' : Runtime} {result : SubmitResult} → Submits task s result s' → s ⟶ s'
  stop : {s : Runtime} → s ⟶ record s { cancelled = true }
  sees_done :
      {s : Runtime} → s.loop ≡ selecting → s.cancelled ≡ true → s ⟶ record s { loop = returned }
  takes :
      {s : Runtime} {task : ℕ} {rest : List ℕ}
      → s.loop ≡ selecting
      → s.task_queue ≡ task ∷ rest
      → s ⟶ run_task task rest s
  ticks : {s : Runtime} → s.loop ≡ selecting → s ⟶ record s { loop = draining }
  drains :
      {s : Runtime} {task : ℕ} {rest : List ℕ}
      → s.loop ≡ draining
      → s.task_queue ≡ task ∷ rest
      → s ⟶ run_task task rest s
  drained :
      {s : Runtime}
      → s.loop ≡ draining
      → s.task_queue ≡ []
      → s ⟶ record s { loop = selecting; tick = (s.tick + 1) % 2 ^ 64 }

pub data ◌⟶*◌ : Runtime → Runtime → Type 0 where
  here : {s : Runtime} → s ⟶* s
  then : {s t u : Runtime} → s ⟶ t → t ⟶* u → s ⟶* u

-- `drainTasks` while nobody submits.
unfoldable pub drain_tasks : List ℕ → Runtime → Runtime
drain_tasks [] s = record s { task_queue = [] }
drain_tasks (task ∷ rest) s = drain_tasks rest (run_task task rest s)

-- A tick while nobody submits.
unfoldable pub tick_once : Runtime → Runtime
tick_once s =
    let drained = drain_tasks s.task_queue (record s { loop = draining }) in
    record drained { loop = selecting; tick = (drained.tick + 1) % 2 ^ 64 }

-- ===== src/Tests/Loop.antt =====
-- The server's loop with some tasks (internal/server/server.go).
use open_ai_mc_be_server.Prelude.{◌≤◌, length, ◌++◌, ◌≡◌, refl, [], ◌∷◌, arith, false, true}
use open_ai_mc_be_server.Server.Tasks.{
  Runtime, started, selecting, returned, ◌⟶◌, ◌⟶*◌, here, then, submit, enqueues, takes, tick_once,
}
use open_ai_mc_be_server.Server.Fifo.{IsRuntime, abstraction, ◌⇒◌, step-refines, ran-in_order}
use open_ai_mc_be_server.Server.Exited.{returned-ran, tick_once-runs}

-- Tasks 4 and 5 were submitted, and 4 was run.
abbrev halfway : Runtime
halfway = record {
  loop = selecting;
  cancelled = false;
  task_queue = 5 ∷ [];
  tick = 0;
  ran = 4 ∷ [];
  accepted = 4 ∷ 5 ∷ [];
}

halfway-IsRuntime : IsRuntime halfway
halfway-IsRuntime = record { in_order = refl; bounded = omega arith }

abbrev after_both : Runtime
after_both = record halfway { task_queue = []; ran = 4 ∷ 5 ∷ [] }

takes_last : halfway ⟶ after_both
takes_last = takes refl refl

step-refines_example : abstraction halfway ⇒ abstraction after_both
step-refines_example = step-refines takes_last halfway-IsRuntime

reached : started ⟶* after_both
unfolding started
reached = then (submit (enqueues {task = 4} refl)) (
    then (submit (enqueues {task = 5} refl)) (then (takes refl refl) (then (takes refl refl) here)))

ran-in_order_example :
    (after_both.accepted ≡ after_both.ran ++ after_both.task_queue)
    × (length after_both.task_queue ≤ 128)
ran-in_order_example = ran-in_order reached

-- The loop has returned with task 5 in the queue, and task 6 is submitted.
abbrev left_over : Runtime
left_over = record halfway { loop = returned; cancelled = true }

abbrev one_more : Runtime
one_more = record left_over { task_queue = 5 ∷ 6 ∷ []; accepted = 4 ∷ 5 ∷ 6 ∷ [] }

submits_late : left_over ⟶* one_more
submits_late = then (submit (enqueues {task = 6} refl)) here

returned-ran_example :
    (one_more.loop ≡ returned) × (one_more.ran ≡ left_over.ran) × (one_more.tick ≡ left_over.tick)
returned-ran_example = returned-ran submits_late refl

tick_once-runs_example :
    (halfway ⟶* tick_once halfway)
    × ((tick_once halfway).loop ≡ selecting)
    × ((tick_once halfway).task_queue ≡ [])
    × ((tick_once halfway).ran ≡ 4 ∷ 5 ∷ [])
tick_once-runs_example = tick_once-runs halfway refl

-- ===== src/Worker/Tests.antt =====
-- A worker that is stopped with two tasks in its queue, and a pool of two workers.
use ll2games_rpg.Prelude.{◌+◌, ◌≤◌, ◌≡◌, refl, true, List, [], ◌∷◌, ◌++◌, length}
use ll2games_rpg.Worker.{
  Event, pushes, stops, acts, new_worker, start, stop, push_task, run_step, wait_step, step, steps,
  new_pool, new_workers, submit, push_at,
}
use ll2games_rpg.Worker.Order.{accepted, in_hand, steps-accepted, stop_runs_one}

abbrev before : List Event
before = pushes 1 ∷ acts ∷ pushes 2 ∷ acts ∷ acts ∷ pushes 3 ∷ []

-- The thread tests its `while` after the stop and ends.
left_over :
    (steps (before ++ stops ∷ acts ∷ acts ∷ acts ∷ []) (start new_worker)).tasks ≡ 2 ∷ 3 ∷ []
unfolding steps step start stop push_task run_step wait_step
left_over = refl

round_robin : (submit 7 (submit 6 (submit 5 (new_pool 2)))).next_index ≡ 1
unfolding submit new_pool new_workers push_at push_task
round_robin = refl

steps-accepted_example :
    (steps before (start new_worker)).executed
      ++ (in_hand (steps before (start new_worker)).place
          ++ (steps before (start new_worker)).tasks)
    ≡ accepted true before
steps-accepted_example = steps-accepted before

stop_runs_one_example :
    length (steps (stops ∷ acts ∷ []) (start new_worker)).executed
    ≤ length (start new_worker).executed + 1
stop_runs_one_example = stop_runs_one (acts ∷ []) (start new_worker)

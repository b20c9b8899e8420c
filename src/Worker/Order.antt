-- ===== src/Worker/Order.antt =====
-- Tasks are run in the order in which they were pushed; what is left when the worker stops is not run.
use mathlib.Core.List.{append_assoc, append-nil}
use ll2games_rpg.Prelude.{
  ℕ, ◌+◌, ◌≤◌, ◌≡◌, refl, sym, ◌∙◌, ap, subst, Bool, true, false, not, List, [], ◌∷◌, ◌++◌, arith,
  if◌then◌else◌, length, length-append, if_both, if_cases,
}
use ll2games_rpg.Worker.{
  Place, not_started, at_loop, at_wait, ended, has_task, Worker, new_worker, start, stop, push_task,
  wait_step, run_step, Event, pushes, stops, acts, step, steps,
}

abbrev pub in_hand : Place → List ℕ
in_hand (has_task task) = task ∷ []
in_hand _ = []

-- All tasks that the worker has got.
abbrev pub got : Worker → List ℕ
got w = w.executed ++ (in_hand w.place ++ w.tasks)

-- The tasks that are pushed before the first stop.
abbrev pub accepted : Bool → List Event → List ℕ
accepted running [] = []
accepted true (pushes task ∷ es) = task ∷ accepted true es
accepted false (pushes task ∷ es) = accepted false es
accepted running (stops ∷ es) = accepted false es
accepted running (acts ∷ es) = accepted running es

wait_got :
    (running : Bool) (tasks : List ℕ) (w : Worker)
    → w.tasks ≡ tasks
    → w.place ≡ at_wait
    → (got (wait_step running tasks w) ≡ got w) × ((wait_step running tasks w).running ≡ w.running)
unfolding wait_step
wait_got true [] w e p = (refl, refl)
wait_got false [] w e p = (ap (λ q. w.executed ++ (in_hand q ++ w.tasks)) (sym p), refl)
wait_got running (t ∷ ts) w e p = (
  ap (λ us. w.executed ++ us) (sym e) ∙ ap (λ q. w.executed ++ (in_hand q ++ w.tasks)) (sym p),
  refl,
)

run_got :
    (p : Place) (w : Worker)
    → w.place ≡ p
    → (got (run_step p w) ≡ got w) × ((run_step p w).running ≡ w.running)
unfolding run_step
run_got not_started w e = (refl, refl)
run_got at_loop w e =
    let none_taken = ap (λ q. w.executed ++ (in_hand q ++ w.tasks)) (sym e) in
    (
      if_both (λ r. got r ≡ got w) w.running none_taken none_taken,
      if_both (λ (r : Worker). r.running ≡ w.running) w.running refl refl,
    )
run_got at_wait w e = wait_got w.running w.tasks w refl e
run_got (has_task t) w e = (
  append_assoc w.executed (t ∷ []) w.tasks ∙ ap (λ q. w.executed ++ (in_hand q ++ w.tasks)) (sym e),
  refl,
)
run_got ended w e = (refl, refl)

push_got :
    (b : Bool) (t : ℕ) (w : Worker)
    → w.running ≡ b
    → (got (push_task t w) ≡ got w ++ (if b then t ∷ [] else [])) × ((push_task t w).running ≡ b)
unfolding push_task
push_got b t w e =
    let more : got w ++ t ∷ [] ≡ w.executed ++ (in_hand w.place ++ (w.tasks ++ t ∷ [])) =
      append_assoc w.executed (in_hand w.place ++ w.tasks) (t ∷ [])
      ∙ ap (λ xs. w.executed ++ xs) (append_assoc (in_hand w.place) w.tasks (t ∷ [])) in
    (
      if_cases (λ r. got r ≡ got w ++ (if b then t ∷ [] else [])) (not w.running)
          (λ off. let is : b ≡ false = ground arith in rw is (sym (append-nil (got w))))
          (λ on. let is : b ≡ true = ground arith in rw is (sym more)),
      if_both (λ (r : Worker). r.running ≡ b) (not w.running) e e,
    )

got-steps :
    (es : List Event) (b : Bool) (w : Worker)
    → w.running ≡ b
    → got (steps es w) ≡ got w ++ accepted b es
unfolding steps step stop
got-steps [] b w e = sym (append-nil (got w))
got-steps (pushes t ∷ es) true w e =
    let (more, on) = push_got true t w e in
    got-steps es true (push_task t w) on
    ∙ ap (λ xs. xs ++ accepted true es) more
    ∙ append_assoc (got w) (t ∷ []) (accepted true es)
got-steps (pushes t ∷ es) false w e =
    let (more, off) = push_got false t w e in
    got-steps es false (push_task t w) off
    ∙ ap (λ xs. xs ++ accepted false es) (more ∙ append-nil (got w))
got-steps (stops ∷ es) true w e = got-steps es false (stop w) refl
got-steps (stops ∷ es) false w e = got-steps es false (stop w) refl
got-steps (acts ∷ es) b w e =
    let (same, on) = run_got w.place w refl in
    got-steps es b (run_step w.place w) (on ∙ e) ∙ ap (λ xs. xs ++ accepted b es) same

-- However pushes, stops and the worker's own actions are interleaved: the tasks that were run, the one
-- in hand and those in the queue are together exactly the tasks that were pushed before the first
-- stop, in the order of their pushes. So tasks are run in that order, and none is run twice.
pub steps-accepted :
    (es : List Event)
    → (steps es (start new_worker)).executed
        ++ (in_hand (steps es (start new_worker)).place ++ (steps es (start new_worker)).tasks)
      ≡ accepted true es
unfolding start
steps-accepted es = got-steps es true (start new_worker) refl

-- A task that the thread may still take after a stop.
abbrev still : Place → ℕ
still (has_task t) = 1
still at_wait = 1
still _ = 0

wait_still :
    (b : Bool) (tasks : List ℕ) (w : Worker)
    → w.place ≡ at_wait
    → length (wait_step b tasks w).executed + still (wait_step b tasks w).place
      ≤ length w.executed + 1
unfolding wait_step
wait_still true [] w p = ground (arith, ap still p)
wait_still false [] w p = omega arith
wait_still b (t ∷ ts) w p = omega arith

run_still :
    (p : Place) (w : Worker)
    → w.place ≡ p
    → w.running ≡ false
    → length (run_step p w).executed + still (run_step p w).place ≤ length w.executed + still p
unfolding run_step
run_still not_started w e off = omega (arith, ap still e)
run_still at_loop w e off =
    if_cases (λ (r : Worker). length r.executed + still r.place ≤ length w.executed + 0) w.running
      (λ on. absurd (ground (arith, on, off))) (λ off'. omega arith)
run_still at_wait w e off = wait_still w.running w.tasks w e
run_still (has_task t) w e off = omega (arith, length-append w.executed (t ∷ []))
run_still ended w e off = omega (arith, ap still e)

push_off : (t : ℕ) (w : Worker) → w.running ≡ false → push_task t w ≡ w
unfolding push_task
push_off t w off = if_cases (λ r. r ≡ w) (not w.running) (λ e. refl) (λ e. absurd (ground arith))

steps-still :
    (es : List Event) (w : Worker)
    → w.running ≡ false
    → length (steps es w).executed ≤ length w.executed + still w.place
unfolding steps step stop
steps-still [] w off = omega arith
steps-still (pushes t ∷ es) w off =
    subst (λ v. length (steps es v).executed ≤ length w.executed + still w.place)
      (sym (push_off t w off)) (steps-still es w off)
steps-still (stops ∷ es) w off = steps-still es (stop w) refl
steps-still (acts ∷ es) w off =
    let next = run_step w.place w in
    omega
      (arith, run_still w.place w refl off, steps-still es next ((run_got w.place w refl).1 ∙ off))

still_at_most : (p : Place) → still p ≤ 1
still_at_most not_started = omega arith
still_at_most at_loop = omega arith
still_at_most at_wait = omega arith
still_at_most ended = omega arith
still_at_most (has_task t) = omega arith

-- Wherever a worker is when it is stopped, and whatever follows, it runs one more task at most: with
-- two or more tasks in its queue, some are never run.
pub stop_runs_one :
    (es : List Event) (w : Worker) → length (steps (stops ∷ es) w).executed ≤ length w.executed + 1
unfolding steps step stop
stop_runs_one es w = omega (arith, steps-still es (stop w) refl, still_at_most w.place)

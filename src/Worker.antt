-- ===== src/Worker.antt =====
-- SERVER/src/COMMON/thread/WorkerThread.cpp and ThreadPool.cpp: a worker with its queue of tasks, and
-- the pool that hands tasks out. The threads are interleaved: each step is a call of another thread
-- or the worker's own next action, and a critical section is one step. A task is told by a number.
pub mod Order
mod Tests
use ll2games_rpg.Prelude.{
  ℕ, zero, suc, ◌+◌, ◌%◌, Bool, true, false, not, Option, none, some, List, [], ◌∷◌, ◌++◌, ◌==◌,
  if◌then◌else◌, length,
}

-- Where the thread is in `Run`: at the test of its `while`, at the wait, with a task that it has
-- taken, or at the end.
pub data Place : Type 0 where
  not_started at_loop at_wait ended : Place
  has_task : ℕ → Place

-- `executed` are the tasks that were run, the first one first.
pub record Worker : Type 0 where
  pub running : Bool
  pub tasks : List ℕ
  pub place : Place
  pub executed : List ℕ

abbrev pub new_worker : Worker
new_worker = record { running = false; tasks = []; place = not_started; executed = [] }

pub start : Worker → Worker
start w = record w { running = true; place = at_loop }

-- Up to its join, which waits for the thread's end.
pub stop : Worker → Worker
stop w = record w { running = false }

pub push_task : ℕ → Worker → Worker
push_task task w = if not w.running then w else record w { tasks = w.tasks ++ task ∷ [] }

-- The critical section of `Run`; with nothing to do, the thread goes on waiting.
pub wait_step : Bool → List ℕ → Worker → Worker
wait_step true [] w = w
wait_step false [] w = record w { place = ended }
wait_step running (task ∷ tasks) w = record w { tasks = tasks; place = has_task task }

-- The next action of the thread.
pub run_step : Place → Worker → Worker
run_step not_started w = w
run_step at_loop w = if w.running then record w { place = at_wait } else record w { place = ended }
run_step at_wait w = wait_step w.running w.tasks w
run_step (has_task task) w = record w { place = at_loop; executed = w.executed ++ task ∷ [] }
run_step ended w = w

-- One step of the whole.
pub data Event : Type 0 where
  pushes : ℕ → Event
  stops acts : Event

pub step : Event → Worker → Worker
step (pushes task) w = push_task task w
step stops w = stop w
step acts w = run_step w.place w

pub steps : List Event → Worker → Worker
steps [] w = w
steps (e ∷ es) w = steps es (step e w)

pub record ThreadPool : Type 0 where
  pub workers : List Worker
  pub next_index : ℕ

new_workers : ℕ → List Worker
new_workers zero = []
new_workers (suc n) = new_worker ∷ new_workers n

-- The constructor takes 4 workers for 0.
pub new_pool : ℕ → ThreadPool
unfolding new_workers
new_pool thread_count = record {
  workers = new_workers (if thread_count == 0 then 4 else thread_count);
  next_index = 0;
}

pub push_at : ℕ → ℕ → List Worker → List Worker
push_at i task [] = []
push_at zero task (w ∷ ws) = push_task task w ∷ ws
push_at (suc i) task (w ∷ ws) = w ∷ push_at i task ws

pub submit : ℕ → ThreadPool → ThreadPool
submit task pool = record {
  workers = push_at pool.next_index task pool.workers;
  next_index = (pool.next_index + 1) % length pool.workers;
}

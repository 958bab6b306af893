-- ===== src/GenerationQueue.antt =====
-- include/llamacodelab/application/generation_queue.hpp and src/application/generation_queue.cpp: the bounded
-- queue of generation tasks and the one worker that runs them. What the mutex covers is one step; the
-- steps of the callers and of the worker interleave in any order. A task is a number; an empty
-- `std::function` is `none`.
pub mod Order
mod Tests
use llamacodelab.Prelude.{
  ℕ, Bool, true, false, not, ◌||◌, Option, none, some, List, [], ◌∷◌, ◌++◌, length, if◌then◌else◌,
  leb, ◌==◌, ◌≡◌,
}
use llamacodelab.Prelude.Result.{Result, ok, err, invalid_argument}

-- `passed_test` is whether the worker holds the mutex between its test and the pop that follows,
-- `running` the task that it has taken, and `stop_requested` the worker's stop token.
-- `accepted` and `started` record what `try_submit` took and what the worker began, in order.
pub record GenerationQueue : Type 0 where
  pub capacity : ℕ
  pub tasks : List ℕ
  pub accepting : Bool
  pub stop_requested : Bool
  pub passed_test : Bool
  pub running : Option ℕ
  pub exited : Bool
  pub accepted : List ℕ
  pub started : List ℕ

pub new_queue : ℕ → Result GenerationQueue
new_queue capacity =
    if capacity == 0
    then err invalid_argument
    else ok (record {
      capacity = capacity;
      tasks = [];
      accepting = true;
      stop_requested = false;
      passed_test = false;
      running = none;
      exited = false;
      accepted = [];
      started = [];
    })

pub try_submit : Option ℕ → GenerationQueue → Result (Bool × GenerationQueue)
try_submit none q = err invalid_argument
try_submit (some task) q =
    if not q.accepting || leb q.capacity (length q.tasks)
    then ok (false, q)
    else ok
        (true, record q { tasks = q.tasks ++ (task ∷ []); accepted = q.accepted ++ (task ∷ []) })

pub depth : GenerationQueue → ℕ
depth q = length q.tasks

-- `stop` in two steps: `accepting_` under the mutex, and then the stop token.
pub refuse_more : GenerationQueue → GenerationQueue
refuse_more q = record q { accepting = false }

pub request_stop : GenerationQueue → GenerationQueue
request_stop q = record q { stop_requested = true }

-- The wait is over: there is a task, or no more are accepted, or the stop is requested.
pub wakes : GenerationQueue → Bool
wakes q = q.stop_requested || not (length q.tasks == 0) || not q.accepting

-- What the worker does with the mutex once the wait is over: the test of the stop token and the queue,
-- and then, as a step of its own, since a stop is requested without the mutex, the pop.
pub test_queue : GenerationQueue → GenerationQueue
test_queue q =
    if q.stop_requested || length q.tasks == 0 then q else record q { passed_test = true }

pub take_task : GenerationQueue → GenerationQueue
take_task q = elim q.tasks [
  | [] ↦ q
  | task ∷ tasks ↦ record q {
    tasks = tasks;
    passed_test = false;
    running = some task;
    started = q.started ++ (task ∷ []);
  }
]

-- The steps of the program. A call that throws is no step, and a caller that needs the mutex waits while
-- the worker holds it.
pub data Step : GenerationQueue → GenerationQueue → Type 0 where
  submit :
      (q r : GenerationQueue) (task : Option ℕ) (taken : Bool)
      → q.passed_test ≡ false
      → try_submit task q ≡ ok (taken, r)
      → Step q r
  refuse : (q : GenerationQueue) → q.passed_test ≡ false → Step q (refuse_more q)
  -- Only `stop` requests the stop, after it has cleared `accepting_`, and without the mutex.
  stop : (q : GenerationQueue) → q.accepting ≡ false → Step q (request_stop q)
  worker_tests :
      (q : GenerationQueue)
      → q.exited ≡ false
      → q.running ≡ none
      → q.passed_test ≡ false
      → wakes q ≡ true
      → Step q (test_queue q)
  worker_takes : (q : GenerationQueue) → q.passed_test ≡ true → Step q (take_task q)
  worker_finishes :
      (q : GenerationQueue) (task : ℕ)
      → q.running ≡ some task
      → Step q (record q { running = none })
  -- The test of the `while`.
  worker_exits :
      (q : GenerationQueue)
      → q.running ≡ none
      → q.passed_test ≡ false
      → q.stop_requested ≡ true
      → Step q (record q { exited = true })

pub data Steps : GenerationQueue → GenerationQueue → Type 0 where
  stay : (q : GenerationQueue) → Steps q q
  move : (p q r : GenerationQueue) → Step p q → Steps q r → Steps p r

-- ===== src/GenerationQueue/Tests.antt =====
-- A queue of one place: a task is taken, the next is refused, the worker takes the first.
use llamacodelab.Prelude.{true, false, none, some, [], ◌∷◌, ◌≡◌, refl}
use llamacodelab.Prelude.Result.{ok, err, invalid_argument}
use llamacodelab.GenerationQueue.{
  GenerationQueue, new_queue, try_submit, depth, test_queue, take_task, stay, move, submit,
  worker_tests, worker_takes, wakes,
}
use llamacodelab.GenerationQueue.Order.{IsValid, reachable-IsValid, IsStopped, Steps-IsStopped}

abbrev empty_queue : GenerationQueue
empty_queue = record {
  capacity = 1;
  tasks = [];
  accepting = true;
  stop_requested = false;
  passed_test = false;
  running = none;
  exited = false;
  accepted = [];
  started = [];
}

abbrev waiting : GenerationQueue
waiting = record empty_queue { tasks = 5 ∷ []; accepted = 5 ∷ [] }

-- The worker has passed its test, and holds the mutex.
abbrev about_to_take : GenerationQueue
about_to_take = record waiting { passed_test = true }

abbrev stopped : GenerationQueue
stopped = record about_to_take { accepting = false; stop_requested = true }

full : try_submit (some 6) waiting ≡ ok (false, waiting)
unfolding try_submit
full = refl

no_task : try_submit none waiting ≡ err invalid_argument
unfolding try_submit
no_task = refl

one_waits : depth waiting ≡ 1
unfolding depth
one_waits = refl

submitted : try_submit (some 5) empty_queue ≡ ok (true, waiting)
unfolding try_submit
submitted = refl

awake : wakes waiting ≡ true
unfolding wakes
awake = refl

tested : test_queue waiting ≡ about_to_take
unfolding test_queue
tested = refl

created : new_queue 1 ≡ ok empty_queue
unfolding new_queue
created = refl

reachable-IsValid_example : IsValid (take_task (test_queue waiting))
unfolding test_queue
reachable-IsValid_example =
    reachable-IsValid 1 empty_queue (take_task (test_queue waiting)) created (
      move empty_queue waiting (take_task (test_queue waiting))
        (submit empty_queue waiting (some 5) true refl submitted)
        (move waiting (test_queue waiting) (take_task (test_queue waiting))
          (worker_tests waiting refl refl refl awake)
          (move (test_queue waiting) (take_task (test_queue waiting))
            (take_task (test_queue waiting)) (worker_takes (test_queue waiting) refl)
            (stay (take_task (test_queue waiting))))))

-- The stop is requested between the test and the pop.
Steps-IsStopped_example : IsStopped stopped (take_task stopped)
Steps-IsStopped_example =
    Steps-IsStopped stopped (take_task stopped)
      (move stopped (take_task stopped) (take_task stopped) (worker_takes stopped refl)
        (stay (take_task stopped)))
      refl refl

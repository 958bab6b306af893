-- ===== src/GenerationQueue/Order.antt =====
-- The queue under any interleaving: it is bounded, first in first out, and winds down after a stop.
use llamacodelab.Prelude.{
  ℕ, ◌≤◌, ◌<◌, Bool, true, false, not, ◌||◌, none, some, List, [], ◌∷◌, ◌++◌, append_assoc, length,
  length-append, leb, ◌==◌, ◌≡◌, refl, ap, subst, sym, ◌∙◌, arith, inl, inr, Bool-cases,
}
use llamacodelab.Prelude.Result.{ok}
use llamacodelab.GenerationQueue.{
  GenerationQueue, new_queue, try_submit, refuse_more, request_stop, test_queue, take_task, Step,
  submit, refuse, stop, worker_tests, worker_takes, worker_finishes, worker_exits, Steps, stay,
  move,
}

pub record IsValid (q : GenerationQueue) : Type 0 where
  pub bounded : length q.tasks ≤ q.capacity
  -- What was accepted was started, in this order, or still waits, in this order.
  pub fifo : q.accepted ≡ q.started ++ q.tasks
  pub closed : q.stop_requested ≡ true → q.accepting ≡ false
  -- The worker pops from a queue that has a task.
  pub nonempty : q.passed_test ≡ true → 0 < length q.tasks

take_task-IsValid : (q : GenerationQueue) → IsValid q → IsValid (take_task q)
unfolding take_task
take_task-IsValid q v = go q.tasks refl
  where
    go : (ts : List ℕ) → q.tasks ≡ ts → IsValid (take_task q)
    go [] e = simp (e, take_task) v
    go (t ∷ ts) e =
        simp (e, take_task)
          (record {
            bounded = omega (arith, v.bounded, ap length e);
            fifo = v.fifo ∙ ap (◌++◌ q.started) e ∙ sym (append_assoc q.started (t ∷ []) ts);
            closed = v.closed;
            nonempty = λ h. cc;
          })

test_queue-IsValid : (q : GenerationQueue) → IsValid q → IsValid (test_queue q)
unfolding test_queue
test_queue-IsValid q v = elim (Bool-cases (q.stop_requested || length q.tasks == 0)) [
  | inl skipped ↦ rw skipped v
  | inr passed ↦ rw passed (record {
    bounded = v.bounded;
    fifo = v.fifo;
    closed = v.closed;
    nonempty = λ h. ground (arith, passed);
  })
]

-- A submission changes nothing, or appends the task to a queue that accepts and has room.
data Submission (q : GenerationQueue) (t : ℕ) (r : GenerationQueue) : Type 0 where
  refused : r ≡ q → Submission q t r
  appended :
      q.accepting ≡ true
      → length q.tasks < q.capacity
      → r ≡ (record q { tasks = q.tasks ++ (t ∷ []); accepted = q.accepted ++ (t ∷ []) })
      → Submission q t r

try_submit-Submission :
    (q r : GenerationQueue) (t : ℕ) (taken : Bool)
    → try_submit (some t) q ≡ ok (taken, r)
    → Submission q t r
unfolding try_submit
try_submit-Submission q r t taken e =
    elim (Bool-cases (not q.accepting || leb q.capacity (length q.tasks))) [
      | inl full ↦ refused (ground (arith, simp (full, try_submit) at e))
      | inr room ↦
          appended (ground (arith, room)) (ground (arith, room))
            (ground (arith, simp (room, try_submit) at e))
    ]

Submission-IsValid :
    (q : GenerationQueue) (t : ℕ) (r : GenerationQueue) → Submission q t r → IsValid q → IsValid r
Submission-IsValid q t r (refused e) v = subst IsValid (sym e) v
Submission-IsValid q t r (appended accepting room e) v = subst IsValid (sym e) (record {
  bounded = omega (arith, length-append q.tasks (t ∷ []));
  fifo = ap (λ a. a ++ (t ∷ [])) v.fifo ∙ append_assoc q.started q.tasks (t ∷ []);
  closed = v.closed;
  nonempty = λ h. omega (arith, length-append q.tasks (t ∷ []));
})

Step-IsValid : (p q : GenerationQueue) → Step p q → IsValid p → IsValid q
unfolding try_submit refuse_more request_stop
Step-IsValid p q (submit a b none taken free e) v = absurd (ground arith)
Step-IsValid p q (submit a b (some t) taken free e) v =
    Submission-IsValid p t q (try_submit-Submission p q t taken e) v
Step-IsValid p q (refuse a free) v = record {
  bounded = v.bounded;
  fifo = v.fifo;
  closed = λ h. refl;
  nonempty = v.nonempty;
}
Step-IsValid p q (stop a closed) v = record {
  bounded = v.bounded;
  fifo = v.fifo;
  closed = λ h. closed;
  nonempty = v.nonempty;
}
Step-IsValid p q (worker_tests a here idle free awake) v = test_queue-IsValid p v
Step-IsValid p q (worker_takes a passed) v = take_task-IsValid p v
Step-IsValid p q (worker_finishes a t e) v = record {
  bounded = v.bounded;
  fifo = v.fifo;
  closed = v.closed;
  nonempty = v.nonempty;
}
Step-IsValid p q (worker_exits a idle free s) v = record {
  bounded = v.bounded;
  fifo = v.fifo;
  closed = v.closed;
  nonempty = v.nonempty;
}

Steps-IsValid : (p q : GenerationQueue) → Steps p q → IsValid p → IsValid q
Steps-IsValid p q (stay a) v = v
Steps-IsValid p q (move a b c step steps) v = Steps-IsValid b q steps (Step-IsValid p b step v)

-- In every state that a new queue reaches, by any interleaving of the calls of `try_submit`, of `stop`
-- and of the worker, at most `capacity` tasks wait; the tasks accepted are, in order, those that were
-- started followed by those that wait; none are accepted once the stop is requested; and the worker
-- pops only from a queue that has a task.
pub reachable-IsValid :
    (capacity : ℕ) (start q : GenerationQueue)
    → new_queue capacity ≡ ok start
    → Steps start q
    → IsValid q
unfolding new_queue
reachable-IsValid capacity start q e steps =
    Steps-IsValid start q steps (elim (Bool-cases (capacity == 0)) [
      | inl zero_capacity ↦ absurd (ground (arith, simp (zero_capacity, new_queue) at e))
      | inr positive ↦
          subst IsValid (ok-eq _ _ (simp (positive, new_queue) at e))
            (record { bounded = omega arith; fifo = refl; closed = λ h. cc; nonempty = λ h. cc })
    ])
  where
    ok-eq : (a b : GenerationQueue) → ok a ≡ ok b → a ≡ b
    ok-eq a b h = ground arith

-- The tasks of a stopped queue `p` in a later state `q`: those of `p`, or, if the worker had passed its
-- test before the stop, those that stay when it takes the first.
pub data Remains (p q : GenerationQueue) : Type 0 where
  none_started :
      q.started ≡ p.started → q.tasks ≡ p.tasks → q.passed_test ≡ p.passed_test → Remains p q
  last_started :
      (task : ℕ)
      → p.passed_test ≡ true
      → q.passed_test ≡ false
      → p.tasks ≡ task ∷ q.tasks
      → q.started ≡ p.started ++ (task ∷ [])
      → Remains p q

-- `q` is a later state of the stopped queue `p`.
pub record IsStopped (p q : GenerationQueue) : Type 0 where
  pub accepting : q.accepting ≡ false
  pub requested : q.stop_requested ≡ true
  pub accepted : q.accepted ≡ p.accepted
  pub remains : Remains p q

module _ (p : GenerationQueue) (closed : p.accepting ≡ false)
    (requested : p.stop_requested ≡ true) where
  IsStopped-refl : IsStopped p p
  IsStopped-refl = record {
    accepting = closed;
    requested = requested;
    accepted = refl;
    remains = none_started refl refl refl;
  }

  take_task-IsStopped : p.passed_test ≡ true → IsStopped p (take_task p)
  unfolding take_task
  take_task-IsStopped passed = go p.tasks refl
    where
      go : (ts : List ℕ) → p.tasks ≡ ts → IsStopped p (take_task p)
      go [] e = simp (e, take_task) IsStopped-refl
      go (t ∷ ts) e =
          simp (e, take_task)
            (record {
              accepting = closed;
              requested = requested;
              accepted = refl;
              remains = last_started t passed refl e refl;
            })

  test_queue-eq : test_queue p ≡ p
  unfolding test_queue
  test_queue-eq = rw requested refl

  Step-IsStopped : (q : GenerationQueue) → Step p q → IsStopped p q
  unfolding try_submit refuse_more request_stop
  Step-IsStopped q (submit a b none taken free e) = absurd (ground arith)
  Step-IsStopped q (submit a b (some t) taken free e) = elim (try_submit-Submission p q t taken e) [
    | refused same ↦ subst (IsStopped p) (sym same) IsStopped-refl
    | appended accepting room r ↦ absurd (ground (arith, accepting, closed))
  ]
  Step-IsStopped q (refuse a free) = record {
    accepting = refl;
    requested = requested;
    accepted = refl;
    remains = none_started refl refl refl;
  }
  Step-IsStopped q (stop a b) = record {
    accepting = closed;
    requested = refl;
    accepted = refl;
    remains = none_started refl refl refl;
  }
  Step-IsStopped q (worker_tests a here idle free awake) =
      subst (IsStopped p) (sym test_queue-eq) IsStopped-refl
  Step-IsStopped q (worker_takes a passed) = take_task-IsStopped passed
  Step-IsStopped q (worker_finishes a t e) = record {
    accepting = closed;
    requested = requested;
    accepted = refl;
    remains = none_started refl refl refl;
  }
  Step-IsStopped q (worker_exits a idle free s) = record {
    accepting = closed;
    requested = requested;
    accepted = refl;
    remains = none_started refl refl refl;
  }

Remains-trans : (p q r : GenerationQueue) → Remains p q → Remains q r → Remains p r
Remains-trans p q r (none_started s t b) (none_started s' t' b') =
    none_started (s' ∙ s) (t' ∙ t) (b' ∙ b)
Remains-trans p q r (none_started s t b) (last_started x passed taken tasks started) =
    last_started x (sym b ∙ passed) taken (sym t ∙ tasks) (started ∙ ap (λ l. l ++ (x ∷ [])) s)
Remains-trans p q r (last_started x passed taken tasks started) (none_started s t b) =
    last_started x passed (b ∙ taken) (tasks ∙ ap (◌∷◌ x) (sym t)) (s ∙ started)
Remains-trans p q r (last_started x passed taken tasks started) (last_started y passed' _ _ _) =
    absurd (cc (taken, passed'))

-- Once no more tasks are accepted and the stop is requested, whatever steps the callers and the worker
-- make, no task is accepted, and none is started or dropped, but that a worker that had already passed
-- its test for the stop token may start the one task that it is about to take.
pub Steps-IsStopped :
    (p q : GenerationQueue)
    → Steps p q
    → p.accepting ≡ false
    → p.stop_requested ≡ true
    → IsStopped p q
Steps-IsStopped p q (stay a) closed requested = IsStopped-refl p closed requested
Steps-IsStopped p q (move a b c step steps) closed requested =
    let first = Step-IsStopped p closed requested b step in
    let later = Steps-IsStopped b q steps first.accepting first.requested in
    record {
      accepting = later.accepting;
      requested = later.requested;
      accepted = later.accepted ∙ first.accepted;
      remains = Remains-trans p b q first.remains later.remains;
    }

-- ===== src/Tests/Pooling.antt =====
-- The theorems on the pool, the monitor and the numbers of a node's answers, at concrete inputs.
use pauli.Common.{ℕ, ◌≤◌, ◌≡◌, ◌⊎◌, refl, true, false, some, [], ◌∷◌, ◌++◌, All, arith}
use pauli.Queue
use pauli.Queue.{
  Pool, Worker, idle, exited, received, running, new_pool, start_workers, launch, EnqueueStep,
  WorkerStep, StopStep, HasExited,
}
use pauli.Queue.Sound.{IsSound, total, Reach-IsSound}
use pauli.Queue.Drains.{Reach-drained}
use pauli.Queue.Ends.{work_left, drain_ends, Works}
use pauli.Monitor
use pauli.Monitor.{Monitor, start_monitor}
use pauli.Monitor.Quiet.{Reach-calm}

-- Jobs and contexts are numbers; one worker.
abbrev started : Pool ℕ ℕ
started = start_workers 1 (new_pool 1)

abbrev waiting : Pool ℕ ℕ
waiting = record started { calls = 7 ∷ [] }

abbrev queued : Pool ℕ ℕ
queued = record started { buffer = 7 ∷ []; accepted = 7 ∷ [] }

abbrev taken : Pool ℕ ℕ
taken = record queued { workers = received 7 ∷ []; buffer = [] }

abbrev marked : Pool ℕ ℕ
marked = record taken { stopped = true; run_ctx = some 2 }

abbrev closed : Pool ℕ ℕ
closed = record marked { closed = true }

abbrev runs : Pool ℕ ℕ
runs = record closed { workers = running 7 2 ∷ [] }

abbrev done : Pool ℕ ℕ
done = record closed { workers = idle ∷ []; finished = 7 ∷ [] }

abbrev ended : Pool ℕ ℕ
ended = record done { workers = exited ∷ [] }

one_idle : started.workers ≡ [] ++ (idle ∷ [])
unfolding launch
one_idle = refl

-- A job is queued and taken, the pool is stopped, and the job is run in the drain's context.
to_queued : Queue.Reach started queued
to_queued =
    Queue.Reach.next
      (Queue.Reach.next Queue.Reach.here (Queue.Step.enqueue (EnqueueStep.begin 7 refl)))
      (Queue.Step.enqueue (EnqueueStep.send [] [] 7 refl refl (omega arith)))

to_closed : Queue.Reach started closed
to_closed =
    Queue.Reach.next
      (Queue.Reach.next
        (Queue.Reach.next to_queued (Queue.Step.work (WorkerStep.receive [] [] 7 [] one_idle refl)))
        (Queue.Step.stop (StopStep.mark 2 refl)))
      (Queue.Step.stop (StopStep.close refl refl))

to_ended : Queue.Reach started ended
to_ended =
    Queue.Reach.next
      (Queue.Reach.next
        (Queue.Reach.next to_closed (Queue.Step.work (WorkerStep.look [] [] 7 0 refl)))
        (Queue.Step.work (WorkerStep.finish [] [] 7 2 refl)))
      (Queue.Step.work (WorkerStep.leave [] [] refl refl refl))

Reach-IsSound_example : IsSound closed
Reach-IsSound_example = Reach-IsSound 1 1 closed to_closed

Reach-drained_example :
    (ended.buffer ≡ []) × ((f : ℕ → ℕ) → total f ended.finished ≡ total f ended.accepted)
Reach-drained_example = Reach-drained 1 0 ended to_ended (tt, tt)

drain_ends_example :
    (1 ≤ work_left closed) × (All HasExited runs.workers ⊎ ((r : Pool ℕ ℕ) × WorkerStep runs r))
drain_ends_example =
    drain_ends 0 closed runs 1 refl (Works.one_more Works.none_yet (WorkerStep.look [] [] 7 0 refl))

-- The realtime runner queues a job and returns, and the monitor stops the pool.
abbrev watching : Monitor ℕ ℕ
watching = start_monitor 1 1 false

abbrev stopping : Monitor ℕ ℕ
stopping = record { pool = record queued { stopped = true; run_ctx = some 2 }; runners = 0 }

to_stopping : Monitor.Reach watching stopping
to_stopping =
    Monitor.Reach.next
      (Monitor.Reach.next
        (Monitor.Reach.next
          (Monitor.Reach.next Monitor.Reach.here (Monitor.Step.call 7 (omega arith) refl))
          (Monitor.Step.go_on queued (omega arith)
            (EnqueueStep.send [] [] 7 refl refl (omega arith))))
        (Monitor.Step.return 0 refl (omega arith)))
      (Monitor.Step.stop _ refl (StopStep.mark 2 refl))

Reach-calm_example : stopping.pool.panicked ≡ false
Reach-calm_example = Reach-calm 1 1 false stopping to_stopping

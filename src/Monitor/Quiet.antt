-- ===== src/Monitor/Quiet.antt =====
-- Calls of Enqueue, runners and the closing of the channel, along the steps of the monitor.
use pauli.Common.{
  ℕ, ◌≤◌, ◌≡◌, refl, sym, ap, ◌∙◌, Bool, true, false, List, ◌∷◌, ◌++◌, length, length-append, arith,
}
use pauli.Queue.{Pool, EnqueueStep, WorkerStep, StopStep}
use pauli.Monitor.{Monitor, start_monitor, Step, Reach}

calls_shrink :
    {A : Type 0} (xs front back : List A) (j : A) → xs ≡ front ++ (j ∷ back) → 1 ≤ length xs
calls_shrink xs front back j e = omega (arith, ap length e, length-append front (j ∷ back))

module _ {Job Ctx : Type 0} where
  -- A call of Enqueue is a runner's, and the channel is closed only after the runners are gone.
  record IsQuiet (m : Monitor Job Ctx) : Type 0 where
    calls_of_runners : length m.pool.calls ≤ m.runners
    after_runners : m.pool.stopped ≡ true → m.runners ≡ 0
    after_mark : m.pool.closed ≡ true → m.pool.stopped ≡ true
    calm : m.pool.panicked ≡ false

  -- A step that leaves the flags alone and adds no call.
  same-IsQuiet :
      (m : Monitor Job Ctx) (p : Pool Job Ctx)
      → length p.calls ≤ length m.pool.calls
      → p.stopped ≡ m.pool.stopped
      → p.closed ≡ m.pool.closed
      → p.panicked ≡ m.pool.panicked
      → IsQuiet m
      → IsQuiet (record m { pool = p })
  same-IsQuiet m p fewer stopped closed panicked h = record {
    calls_of_runners = omega (arith, fewer, h.calls_of_runners);
    after_runners = λ q. h.after_runners (sym stopped ∙ q);
    after_mark = λ q. stopped ∙ h.after_mark (sym closed ∙ q);
    calm = panicked ∙ h.calm;
  }

  go_on-IsQuiet :
      (m : Monitor Job Ctx) (p : Pool Job Ctx)
      → length p.calls ≤ length m.pool.calls
      → EnqueueStep m.pool p
      → IsQuiet m
      → IsQuiet (record m { pool = p })
  go_on-IsQuiet m p fewer (EnqueueStep.begin job live) h = absurd (omega (arith, fewer))
  go_on-IsQuiet m p fewer (EnqueueStep.refuse late) h = h
  go_on-IsQuiet m p fewer (EnqueueStep.give_up front back job e) h =
      same-IsQuiet m p fewer refl refl refl h
  go_on-IsQuiet m p fewer (EnqueueStep.send front back job e unclosed room) h =
      same-IsQuiet m p fewer refl refl refl h
  go_on-IsQuiet m p fewer (EnqueueStep.send_closed front back job e shut) h = absurd (
      omega (
        arith,
        h.calls_of_runners,
        h.after_runners (h.after_mark shut),
        calls_shrink m.pool.calls front back job e,
      ))

  work-IsQuiet :
      (m : Monitor Job Ctx) (p : Pool Job Ctx)
      → WorkerStep m.pool p
      → IsQuiet m
      → IsQuiet (record m { pool = p })
  work-IsQuiet m p (WorkerStep.receive front back job rest e queued) h =
      same-IsQuiet m p (omega arith) refl refl refl h
  work-IsQuiet m p (WorkerStep.look front back job background e) h =
      same-IsQuiet m p (omega arith) refl refl refl h
  work-IsQuiet m p (WorkerStep.finish front back job ctx e) h =
      same-IsQuiet m p (omega arith) refl refl refl h
  work-IsQuiet m p (WorkerStep.leave front back e drained shut) h =
      same-IsQuiet m p (omega arith) refl refl refl h

  stop-IsQuiet :
      (m : Monitor Job Ctx) (p : Pool Job Ctx)
      → m.runners ≡ 0
      → StopStep m.pool p
      → IsQuiet m
      → IsQuiet (record m { pool = p })
  stop-IsQuiet m p gone (StopStep.mark ctx live) h = record {
    calls_of_runners = h.calls_of_runners;
    after_runners = λ _. gone;
    after_mark = λ _. refl;
    calm = h.calm;
  }
  stop-IsQuiet m p gone (StopStep.close marked unclosed) h = record {
    calls_of_runners = h.calls_of_runners;
    after_runners = λ _. gone;
    after_mark = λ _. marked;
    calm = h.calm;
  }

  Step-IsQuiet : (m n : Monitor Job Ctx) → Step m n → IsQuiet m → IsQuiet n
  Step-IsQuiet m n (Step.call job free live) h = record {
    calls_of_runners = omega (arith, free);
    after_runners = h.after_runners;
    after_mark = h.after_mark;
    calm = h.calm;
  }
  Step-IsQuiet m n (Step.go_on p fewer s) h = go_on-IsQuiet m p fewer s h
  Step-IsQuiet m n (Step.work p s) h = work-IsQuiet m p s h
  Step-IsQuiet m n (Step.return k e free) h = record {
    calls_of_runners = free;
    after_runners = λ q. absurd (omega (arith, e, h.after_runners q));
    after_mark = h.after_mark;
    calm = h.calm;
  }
  Step-IsQuiet m n (Step.stop p gone s) h = stop-IsQuiet m p gone s h

  Reach-IsQuiet : (m n : Monitor Job Ctx) → Reach m n → IsQuiet m → IsQuiet n
  Reach-IsQuiet m n Reach.here h = h
  Reach-IsQuiet m n (Reach.next {n = o} way s) h = Step-IsQuiet o n s (Reach-IsQuiet m o way h)

  start-IsQuiet :
      (ctx : Ctx) (size : ℕ) (backfill : Bool) → IsQuiet (start_monitor ctx size backfill)
  start-IsQuiet ctx size backfill = record {
    calls_of_runners = omega arith;
    after_runners = λ q. absurd cc;
    after_mark = λ q. absurd cc;
    calm = refl;
  }

  -- No goroutine of the monitor ever sends a job on the closed channel: since Stop waits for the
  -- runners before it stops the pool, no run of the monitor panics.
  pub Reach-calm :
      (ctx : Ctx) (size : ℕ) (backfill : Bool) (m : Monitor Job Ctx)
      → Reach (start_monitor ctx size backfill) m
      → m.pool.panicked ≡ false
  Reach-calm ctx size backfill m way =
      (Reach-IsQuiet (start_monitor ctx size backfill) m way (start-IsQuiet ctx size backfill)).calm

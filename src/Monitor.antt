-- ===== src/Monitor.antt =====
-- internal/monitor/monitor.go: the monitor's goroutines over the pool. A runner is a goroutine of its
-- own, so it stands in at most one call of Enqueue; Stop waits for the runners and stops the pool.
pub mod Quiet
pub mod Startup
use pauli.Common.{
  ℕ, zero, suc, ◌+◌, ◌-◌, ◌≤◌, ◌<◌, ◌≡◌, refl, sym, ap, ◌∙◌, Bool, true, false, Option, none, some,
  List, [], ◌∷◌, ◌++◌, length, length-append, arith, if◌then◌else◌,
}
use pauli.Queue.{Pool, new_pool, start_workers, EnqueueStep, WorkerStep, StopStep}
use pauli.Exec.{Error, Exec, pure, raise, annotate, recover, ◌>>=◌, ◌>>◌}
use pauli.Storage.{World, Repository}
use pauli.Storage.Progress.{max_indexed_slot}

-- The pool, and how many runners have not returned.
pub record Monitor (Job Ctx : Type 0) : Type 0 where
  pub pool : Pool Job Ctx
  pub runners : ℕ

module _ {Job Ctx : Type 0} where
  -- Start: the realtime runner, and the backfill runner where it is enabled.
  abbrev pub start_monitor : Ctx → ℕ → Bool → Monitor Job Ctx
  start_monitor ctx size backfill = record {
    pool = start_workers ctx (new_pool size);
    runners = if backfill then 2 else 1;
  }

  pub data Step (m : Monitor Job Ctx) : Monitor Job Ctx → Type 0 where
    -- A runner calls Enqueue.
    call :
        (job : Job)
        → length m.pool.calls < m.runners
        → m.pool.stopped ≡ false
        → Step m (record m { pool = record m.pool { calls = job ∷ m.pool.calls } })
    -- A call of Enqueue goes on, or ends at once because the pool has stopped.
    go_on :
        (p : Pool Job Ctx)
        → length p.calls ≤ length m.pool.calls
        → EnqueueStep m.pool p
        → Step m (record m { pool = p })
    work : (p : Pool Job Ctx) → WorkerStep m.pool p → Step m (record m { pool = p })
    -- A runner that stands in no call returns.
    return :
        (n : ℕ) → m.runners ≡ suc n → length m.pool.calls ≤ n → Step m (record m { runners = n })
    -- Stop: m.wg.Wait has returned, and p.Stop takes a step.
    stop : (p : Pool Job Ctx) → m.runners ≡ 0 → StopStep m.pool p → Step m (record m { pool = p })

  pub data Reach (m : Monitor Job Ctx) : Monitor Job Ctx → Type 0 where
    here : Reach m m
    next : {n o : Monitor Job Ctx} → Reach m n → Step n o → Reach m o

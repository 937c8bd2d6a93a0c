-- ===== src/Queue.antt =====
-- internal/monitor/queue/pool.go: the pool's fields, its channel and its workers, and what each
-- goroutine can do next.
pub mod Sound
pub mod Drains
pub mod Ends
use pauli.Common.{
  ℕ, zero, suc, ◌+◌, ◌*◌, ◌<◌, ◌≡◌, Bool, true, false, Option, none, some, List, [], ◌∷◌, ◌++◌,
  length,
}

-- A worker waits at the channel, has a job but no context yet, runs a job, or has returned.
pub data Worker (Job Ctx : Type 0) : Type 0 where
  idle exited : Worker Job Ctx
  received : Job → Worker Job Ctx
  running : Job → Ctx → Worker Job Ctx

-- `calls` are the calls of Enqueue that have seen the pool running and stand at the select;
-- `accepted` and `finished` record the jobs that were sent and those that were run.
pub record Pool (Job Ctx : Type 0) : Type 0 where
  pub size : ℕ
  pub buffer : List Job
  pub closed : Bool
  pub stopped : Bool
  pub run_ctx : Option Ctx
  pub workers : List (Worker Job Ctx)
  pub calls : List Job
  pub accepted : List Job
  pub finished : List Job
  pub panicked : Bool

-- The context of a job; context.Background() where none is set.
abbrev pub ctx_or : {Ctx : Type 0} → Ctx → Option Ctx → Ctx
ctx_or background none = background
ctx_or background (some ctx) = ctx

module _ {Job Ctx : Type 0} where
  abbrev pub new_pool : ℕ → Pool Job Ctx
  new_pool size = record {
    size = size;
    buffer = [];
    closed = false;
    stopped = false;
    run_ctx = none;
    workers = [];
    calls = [];
    accepted = [];
    finished = [];
    panicked = false;
  }

  unfoldable pub launch : ℕ → List (Worker Job Ctx)
  launch zero = []
  launch (suc n) = idle ∷ launch n

  abbrev pub start_workers : Ctx → Pool Job Ctx → Pool Job Ctx
  start_workers ctx p = record p { run_ctx = some ctx; workers = launch p.size }

  -- Enqueue: the test of `stopped`, then the select. A send on a closed channel panics.
  pub data EnqueueStep (p : Pool Job Ctx) : Pool Job Ctx → Type 0 where
    begin : (job : Job) → p.stopped ≡ false → EnqueueStep p (record p { calls = job ∷ p.calls })
    refuse : p.stopped ≡ true → EnqueueStep p p
    give_up :
        (front back : List Job) (job : Job)
        → p.calls ≡ front ++ (job ∷ back)
        → EnqueueStep p (record p { calls = front ++ back })
    send :
        (front back : List Job) (job : Job)
        → p.calls ≡ front ++ (job ∷ back)
        → p.closed ≡ false
        → length p.buffer < p.size * 2
        → EnqueueStep p (record p {
          calls = front ++ back;
          buffer = p.buffer ++ (job ∷ []);
          accepted = p.accepted ++ (job ∷ []);
        })
    send_closed :
        (front back : List Job) (job : Job)
        → p.calls ≡ front ++ (job ∷ back)
        → p.closed ≡ true
        → EnqueueStep p (record p { calls = front ++ back; panicked = true })

  -- worker: a receive, the read of the context, the run, and the return at the closed channel.
  pub data WorkerStep (p : Pool Job Ctx) : Pool Job Ctx → Type 0 where
    receive :
        (front back : List (Worker Job Ctx)) (job : Job) (rest : List Job)
        → p.workers ≡ front ++ (idle ∷ back)
        → p.buffer ≡ job ∷ rest
        → WorkerStep p (record p { workers = front ++ (received job ∷ back); buffer = rest })
    look :
        (front back : List (Worker Job Ctx)) (job : Job) (background : Ctx)
        → p.workers ≡ front ++ (received job ∷ back)
        → WorkerStep p
            (record p { workers = front ++ (running job (ctx_or background p.run_ctx) ∷ back) })
    finish :
        (front back : List (Worker Job Ctx)) (job : Job) (ctx : Ctx)
        → p.workers ≡ front ++ (running job ctx ∷ back)
        → WorkerStep p
            (record p { workers = front ++ (idle ∷ back); finished = p.finished ++ (job ∷ []) })
    leave :
        (front back : List (Worker Job Ctx))
        → p.workers ≡ front ++ (idle ∷ back)
        → p.buffer ≡ []
        → p.closed ≡ true
        → WorkerStep p (record p { workers = front ++ (exited ∷ back) })

  -- Stop: the mark under the lock, then the close of the channel.
  pub data StopStep (p : Pool Job Ctx) : Pool Job Ctx → Type 0 where
    mark :
        (drain_ctx : Ctx)
        → p.stopped ≡ false
        → StopStep p (record p { stopped = true; run_ctx = some drain_ctx })
    close : p.stopped ≡ true → p.closed ≡ false → StopStep p (record p { closed = true })

  pub data Step (p q : Pool Job Ctx) : Type 0 where
    enqueue : EnqueueStep p q → Step p q
    work : WorkerStep p q → Step p q
    stop : StopStep p q → Step p q

  pub data Reach (p : Pool Job Ctx) : Pool Job Ctx → Type 0 where
    here : Reach p p
    next : {q r : Pool Job Ctx} → Reach p q → Step q r → Reach p r

  -- Whether a worker has returned: Stop returns where all of them have.
  abbrev pub HasExited : Worker Job Ctx → Type 0
  HasExited exited = Unit
  HasExited idle = ⊥
  HasExited (received job) = ⊥
  HasExited (running job ctx) = ⊥

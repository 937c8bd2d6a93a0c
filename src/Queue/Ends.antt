-- ===== src/Queue/Ends.antt =====
-- The workers of the pool while nothing more is sent: how many steps they have left.
use pauli.Common.{
  ℕ, suc, ◌+◌, ◌*◌, ◌≤◌, ◌<◌, ◌≡◌, ◌∙◌, refl, ap, ◌⊎◌, inl, inr, true, List, [], ◌∷◌, ◌++◌, length,
  All, arith,
}
use pauli.Queue.{Worker, idle, exited, received, running, Pool, ctx_or, WorkerStep, HasExited}
use pauli.Queue.Sound.{total, total-append}

module _ {Job Ctx : Type 0} where
  -- The steps that a worker still has to take for what it holds.
  abbrev steps_left : Worker Job Ctx → ℕ
  steps_left exited = 0
  steps_left idle = 1
  steps_left (running job ctx) = 2
  steps_left (received job) = 3

  -- A bound on the steps of the workers while nothing is sent.
  abbrev pub work_left : Pool Job Ctx → ℕ
  work_left p = total steps_left p.workers + 4 * length p.buffer

  worker_changes :
      (ws front back : List (Worker Job Ctx)) (x y : Worker Job Ctx)
      → ws ≡ front ++ (x ∷ back)
      → total steps_left (front ++ (y ∷ back)) + steps_left x ≡ total steps_left ws + steps_left y
  unfolding total
  worker_changes ws front back x y e = omega (
    arith,
    ap (total steps_left) e,
    total-append steps_left front (x ∷ back),
    total-append steps_left front (y ∷ back),
  )

  WorkerStep-shrinks : (p q : Pool Job Ctx) → WorkerStep p q → work_left q < work_left p
  WorkerStep-shrinks p q (WorkerStep.receive front back job rest e queued) =
      omega (arith, ap length queued, worker_changes p.workers front back idle (received job) e)
  WorkerStep-shrinks p q (WorkerStep.look front back job background e) = omega (
    arith,
    worker_changes p.workers front back (received job) (running job (ctx_or background p.run_ctx))
        e,
  )
  WorkerStep-shrinks p q (WorkerStep.finish front back job ctx e) =
      omega (arith, worker_changes p.workers front back (running job ctx) idle e)
  WorkerStep-shrinks p q (WorkerStep.leave front back e drained shut) =
      omega (arith, worker_changes p.workers front back idle exited e)

  -- All workers have returned, or one of them has not.
  data Busy (ws : List (Worker Job Ctx)) : Type 0 where
    gone : All HasExited ws → Busy ws
    waits : (front back : List (Worker Job Ctx)) → ws ≡ front ++ (idle ∷ back) → Busy ws
    holds :
        (front back : List (Worker Job Ctx)) (job : Job)
        → ws ≡ front ++ (received job ∷ back)
        → Busy ws
    runs :
        (front back : List (Worker Job Ctx)) (job : Job) (ctx : Ctx)
        → ws ≡ front ++ (running job ctx ∷ back)
        → Busy ws

  after_exited : (ws : List (Worker Job Ctx)) → Busy ws → Busy (exited ∷ ws)
  after_exited ws (gone h) = gone (tt, h)
  after_exited ws (waits front back e) = waits (exited ∷ front) back (ap (◌∷◌ exited) e)
  after_exited ws (holds front back job e) = holds (exited ∷ front) back job (ap (◌∷◌ exited) e)
  after_exited ws (runs front back job ctx e) =
      runs (exited ∷ front) back job ctx (ap (◌∷◌ exited) e)

  Busy-cases : (ws : List (Worker Job Ctx)) → Busy ws
  Busy-cases [] = gone tt
  Busy-cases (exited ∷ ws) = after_exited ws (Busy-cases ws)
  Busy-cases (idle ∷ ws) = waits [] ws refl
  Busy-cases (received job ∷ ws) = holds [] ws job refl
  Busy-cases (running job ctx ∷ ws) = runs [] ws job ctx refl

  takes_or_leaves :
      (p : Pool Job Ctx) (front back : List (Worker Job Ctx)) (buffer : List Job)
      → p.workers ≡ front ++ (idle ∷ back)
      → p.buffer ≡ buffer
      → p.closed ≡ true
      → (q : Pool Job Ctx) × WorkerStep p q
  takes_or_leaves p front back [] e b shut = (_, WorkerStep.leave front back e b shut)
  takes_or_leaves p front back (job ∷ rest) e b shut =
      (_, WorkerStep.receive front back job rest e b)

  moves :
      (background : Ctx) (p : Pool Job Ctx)
      → p.closed ≡ true
      → Busy p.workers
      → All HasExited p.workers ⊎ ((q : Pool Job Ctx) × WorkerStep p q)
  moves background p shut (gone h) = inl h
  moves background p shut (waits front back e) =
      inr (takes_or_leaves p front back p.buffer e refl shut)
  moves background p shut (holds front back job e) =
      inr (_, WorkerStep.look front back job background e)
  moves background p shut (runs front back job ctx e) =
      inr (_, WorkerStep.finish front back job ctx e)

  -- Some steps of the workers, one after the other.
  pub data Works (p : Pool Job Ctx) : ℕ → Pool Job Ctx → Type 0 where
    none_yet : Works p 0 p
    one_more : {n : ℕ} {q r : Pool Job Ctx} → Works p n q → WorkerStep q r → Works p (suc n) r

  WorkerStep-closed : (p q : Pool Job Ctx) → WorkerStep p q → q.closed ≡ p.closed
  WorkerStep-closed p q (WorkerStep.receive front back job rest e queued) = refl
  WorkerStep-closed p q (WorkerStep.look front back job background e) = refl
  WorkerStep-closed p q (WorkerStep.finish front back job ctx e) = refl
  WorkerStep-closed p q (WorkerStep.leave front back e drained shut) = refl

  Works-closed : (p q : Pool Job Ctx) (n : ℕ) → Works p n q → q.closed ≡ p.closed
  Works-closed p q n Works.none_yet = refl
  Works-closed p q n (Works.one_more {n = k} {q = o} way s) =
      WorkerStep-closed o q s ∙ Works-closed p o k way

  Works-bound : (p q : Pool Job Ctx) (n : ℕ) → Works p n q → n + work_left q ≤ work_left p
  Works-bound p q n Works.none_yet = omega arith
  Works-bound p q n (Works.one_more {n = k} {q = o} way s) =
      omega (arith, Works-bound p o k way, WorkerStep-shrinks o q s)

  -- Once the channel is closed, the workers come to an end: they take at most `work_left` steps, in
  -- whatever order, and as long as one of them has not returned some worker can take a step.
  pub drain_ends :
      (background : Ctx) (p q : Pool Job Ctx) (n : ℕ)
      → p.closed ≡ true
      → Works p n q
      → (n ≤ work_left p) × (All HasExited q.workers ⊎ ((r : Pool Job Ctx) × WorkerStep q r))
  drain_ends background p q n shut way = (
    omega (arith, Works-bound p q n way),
    moves background q (Works-closed p q n way ∙ shut) (Busy-cases q.workers),
  )

-- ===== src/Queue/Sound.antt =====
-- What holds of every state that a started pool reaches.
use pauli.Common.{
  ℕ, zero, suc, ◌+◌, ◌*◌, ◌≤◌, ◌≡◌, refl, ap, ◌∙◌, subst, Bool, true, false, List, [], ◌∷◌, ◌++◌,
  length, All, arith, length-append,
}
use pauli.Queue.{
  Worker, idle, exited, received, running, Pool, new_pool, launch, start_workers, EnqueueStep,
  WorkerStep, StopStep, Step, Reach,
}

module _ {A : Type 0} where
  unfoldable pub total : (A → ℕ) → List A → ℕ
  total f [] = 0
  total f (x ∷ xs) = f x + total f xs

  pub total-append : (f : A → ℕ) (xs ys : List A) → total f (xs ++ ys) ≡ total f xs + total f ys
  unfolding total
  total-append f [] ys = omega arith
  total-append f (x ∷ xs) ys = omega (arith, total-append f xs ys)

  All-swap :
      (P Q : A → Type 0) (front back : List A) (x y : A)
      → ((z : A) → P z → Q z)
      → Q y
      → All P (front ++ (x ∷ back))
      → All Q (front ++ (y ∷ back))
  All-swap P Q [] back x y f q h = (q, all back h.1)
    where
      all : (zs : List A) → All P zs → All Q zs
      all [] h = tt
      all (z ∷ zs) h = (f z h.0, all zs h.1)
  All-swap P Q (z ∷ front) back x y f q h = (f z h.0, All-swap P Q front back x y f q h.1)

  All-map : (P Q : A → Type 0) (xs : List A) → ((z : A) → P z → Q z) → All P xs → All Q xs
  All-map P Q [] f h = tt
  All-map P Q (x ∷ xs) f h = (f x h.0, All-map P Q xs f h.1)

module _ {Job Ctx : Type 0} where
  -- The weight of the job that a worker holds.
  abbrev pub held : (Job → ℕ) → Worker Job Ctx → ℕ
  held f idle = 0
  held f exited = 0
  held f (received job) = f job
  held f (running job ctx) = f job

  -- A worker that has returned found the channel closed and empty.
  abbrev pub LeftAtEnd : Bool → List Job → Worker Job Ctx → Type 0
  LeftAtEnd closed buffer idle = Unit
  LeftAtEnd closed buffer exited = (closed ≡ true) × (buffer ≡ [])
  LeftAtEnd closed buffer (received job) = Unit
  LeftAtEnd closed buffer (running job ctx) = Unit

  pub record IsSound (p : Pool Job Ctx) : Type 0 where
    pub bounded : length p.buffer ≤ p.size * 2
    pub crew : length p.workers ≡ p.size
    -- By any weight of jobs: what was accepted has been run, is held by a worker, or is queued.
    pub conserved :
        (f : Job → ℕ)
        → total f p.accepted ≡ total f p.finished + total (held f) p.workers + total f p.buffer
    pub ends : All (LeftAtEnd p.closed p.buffer) p.workers

-- The workers that are launched.
module _ (Job Ctx : Type 0) where
  launch-length : (n : ℕ) → length (launch {Job = Job} {Ctx = Ctx} n) ≡ n
  unfolding launch
  launch-length zero = refl
  launch-length (suc n) = ap suc (launch-length n)

  launch-total : (f : Job → ℕ) (n : ℕ) → total (held f) (launch {Job = Job} {Ctx = Ctx} n) ≡ 0
  unfolding launch total
  launch-total f zero = refl
  launch-total f (suc n) = omega (arith, launch-total f n)

  launch-ends : (n : ℕ) → All (LeftAtEnd false []) (launch {Job = Job} {Ctx = Ctx} n)
  unfolding launch
  launch-ends zero = tt
  launch-ends (suc n) = (tt, launch-ends n)

module _ {Job Ctx : Type 0} where
  start-IsSound : (ctx : Ctx) (n : ℕ) → IsSound (start_workers ctx (new_pool {Job = Job} n))
  unfolding total
  start-IsSound ctx n = record {
    bounded = omega arith;
    crew = launch-length Job Ctx n;
    conserved = λ f. omega (arith, launch-total Job Ctx f n);
    ends = launch-ends Job Ctx n;
  }

  EnqueueStep-IsSound : (p q : Pool Job Ctx) → EnqueueStep p q → IsSound p → IsSound q
  EnqueueStep-IsSound p q (EnqueueStep.begin job live) h = record {
    bounded = h.bounded;
    crew = h.crew;
    conserved = h.conserved;
    ends = h.ends;
  }
  EnqueueStep-IsSound p q (EnqueueStep.refuse late) h = h
  EnqueueStep-IsSound p q (EnqueueStep.give_up front back job e) h = record {
    bounded = h.bounded;
    crew = h.crew;
    conserved = h.conserved;
    ends = h.ends;
  }
  EnqueueStep-IsSound p q (EnqueueStep.send front back job e unclosed room) h = record {
    bounded = omega (arith, room, length-append p.buffer (job ∷ []));
    crew = h.crew;
    conserved = λ f. omega (
      arith,
      h.conserved f,
      total-append f p.accepted (job ∷ []),
      total-append f p.buffer (job ∷ []),
    );
    ends = All-map _ _ p.workers none_left h.ends;
  }
    where
      none_left :
          (x : Worker Job Ctx)
          → LeftAtEnd p.closed p.buffer x
          → LeftAtEnd p.closed (p.buffer ++ (job ∷ [])) x
      none_left idle k = tt
      none_left exited k = absurd (cc k.0)
      none_left (received j) k = tt
      none_left (running j ctx) k = tt
  EnqueueStep-IsSound p q (EnqueueStep.send_closed front back job e shut) h = record {
    bounded = h.bounded;
    crew = h.crew;
    conserved = h.conserved;
    ends = h.ends;
  }

  -- One worker changes, and the others stay.
  module _ (p : Pool Job Ctx) (front back : List (Worker Job Ctx)) (x y : Worker Job Ctx)
      (e : p.workers ≡ front ++ (x ∷ back)) where
    crew_stays : length p.workers ≡ p.size → length (front ++ (y ∷ back)) ≡ p.size
    crew_stays h =
        omega
          (arith, h, ap length e, length-append front (x ∷ back), length-append front (y ∷ back))

    held_changes :
        (f : Job → ℕ)
        → total (held f) (front ++ (y ∷ back)) + held f x ≡ total (held f) p.workers + held f y
    unfolding total
    held_changes f = omega (
      arith,
      ap (total (held f)) e,
      total-append (held f) front (x ∷ back),
      total-append (held f) front (y ∷ back),
    )

    ends_stay :
        (closed : Bool) (buffer : List Job)
        → ((z : Worker Job Ctx) → LeftAtEnd p.closed p.buffer z → LeftAtEnd closed buffer z)
        → LeftAtEnd closed buffer y
        → All (LeftAtEnd p.closed p.buffer) p.workers
        → All (LeftAtEnd closed buffer) (front ++ (y ∷ back))
    ends_stay closed buffer f q h =
        All-swap (LeftAtEnd p.closed p.buffer) (LeftAtEnd closed buffer) front back x y f q
          (subst (All (LeftAtEnd p.closed p.buffer)) e h)

  WorkerStep-IsSound : (p q : Pool Job Ctx) → WorkerStep p q → IsSound p → IsSound q
  unfolding total
  WorkerStep-IsSound p q (WorkerStep.receive front back job rest e queued) h = record {
    bounded = omega (arith, h.bounded, ap length queued);
    crew = crew_stays p front back idle (received job) e h.crew;
    conserved = λ f. omega (
      arith,
      h.conserved f,
      ap (total f) queued,
      held_changes p front back idle (received job) e f,
    );
    ends = ends_stay p front back idle (received job) e p.closed rest none_left tt h.ends;
  }
    where
      none_left : (z : Worker Job Ctx) → LeftAtEnd p.closed p.buffer z → LeftAtEnd p.closed rest z
      none_left idle k = tt
      none_left exited k = absurd (cc (k.1, queued))
      none_left (received j) k = tt
      none_left (running j ctx) k = tt
  WorkerStep-IsSound p q (WorkerStep.look front back job background e) h = record {
    bounded = h.bounded;
    crew = crew_stays p front back (received job) _ e h.crew;
    conserved = λ f.
        omega (arith, h.conserved f, held_changes p front back (received job) (running job _) e f);
    ends =
        ends_stay p front back (received job) (running job _) e p.closed p.buffer (λ z k. k) tt
          h.ends;
  }
  WorkerStep-IsSound p q (WorkerStep.finish front back job ctx e) h = record {
    bounded = h.bounded;
    crew = crew_stays p front back (running job ctx) idle e h.crew;
    conserved = λ f. omega (
      arith,
      h.conserved f,
      total-append f p.finished (job ∷ []),
      held_changes p front back (running job ctx) idle e f,
    );
    ends = ends_stay p front back (running job ctx) idle e p.closed p.buffer (λ z k. k) tt h.ends;
  }
  WorkerStep-IsSound p q (WorkerStep.leave front back e drained shut) h = record {
    bounded = h.bounded;
    crew = crew_stays p front back idle exited e h.crew;
    conserved = λ f. omega (arith, h.conserved f, held_changes p front back idle exited e f);
    ends = ends_stay p front back idle exited e p.closed p.buffer (λ z k. k) (shut, drained) h.ends;
  }

  StopStep-IsSound : (p q : Pool Job Ctx) → StopStep p q → IsSound p → IsSound q
  StopStep-IsSound p q (StopStep.mark ctx live) h = record {
    bounded = h.bounded;
    crew = h.crew;
    conserved = h.conserved;
    ends = h.ends;
  }
  StopStep-IsSound p q (StopStep.close marked unclosed) h = record {
    bounded = h.bounded;
    crew = h.crew;
    conserved = h.conserved;
    ends = All-map _ _ p.workers none_left h.ends;
  }
    where
      none_left : (z : Worker Job Ctx) → LeftAtEnd p.closed p.buffer z → LeftAtEnd true p.buffer z
      none_left idle k = tt
      none_left exited k = (refl, k.1)
      none_left (received j) k = tt
      none_left (running j ctx) k = tt

  pub Step-IsSound : (p q : Pool Job Ctx) → Step p q → IsSound p → IsSound q
  Step-IsSound p q (Step.enqueue s) h = EnqueueStep-IsSound p q s h
  Step-IsSound p q (Step.work s) h = WorkerStep-IsSound p q s h
  Step-IsSound p q (Step.stop s) h = StopStep-IsSound p q s h

  -- Every state of a started pool is sound: its queue has at most twice as many jobs as there are
  -- workers, no job that was accepted is lost or run twice, and no worker has returned unless the
  -- channel is closed and empty.
  pub Reach-IsSound :
      (ctx : Ctx) (n : ℕ) (p : Pool Job Ctx) → Reach (start_workers ctx (new_pool n)) p → IsSound p
  Reach-IsSound ctx n p Reach.here = start-IsSound ctx n
  Reach-IsSound ctx n p (Reach.next {q} way s) = Step-IsSound q p s (Reach-IsSound ctx n q way)

  Step-size : (p q : Pool Job Ctx) → Step p q → q.size ≡ p.size
  Step-size p q (Step.enqueue (EnqueueStep.begin job live)) = refl
  Step-size p q (Step.enqueue (EnqueueStep.refuse late)) = refl
  Step-size p q (Step.enqueue (EnqueueStep.give_up front back job e)) = refl
  Step-size p q (Step.enqueue (EnqueueStep.send front back job e unclosed room)) = refl
  Step-size p q (Step.enqueue (EnqueueStep.send_closed front back job e shut)) = refl
  Step-size p q (Step.work (WorkerStep.receive front back job rest e queued)) = refl
  Step-size p q (Step.work (WorkerStep.look front back job background e)) = refl
  Step-size p q (Step.work (WorkerStep.finish front back job ctx e)) = refl
  Step-size p q (Step.work (WorkerStep.leave front back e drained shut)) = refl
  Step-size p q (Step.stop (StopStep.mark ctx live)) = refl
  Step-size p q (Step.stop (StopStep.close marked unclosed)) = refl

  pub Reach-size :
      (ctx : Ctx) (n : ℕ) (p : Pool Job Ctx) → Reach (start_workers ctx (new_pool n)) p → p.size ≡ n
  Reach-size ctx n p Reach.here = refl
  Reach-size ctx n p (Reach.next {q} way s) = Step-size q p s ∙ Reach-size ctx n q way

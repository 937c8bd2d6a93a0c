-- ===== src/Queue/Drains.antt =====
-- What the pool has done where all its workers have returned.
use pauli.Common.{ℕ, suc, ◌≡◌, ◌≢◌, refl, ap, Bool, true, List, [], ◌∷◌, length, All, arith}
use pauli.Queue.{
  Worker, idle, exited, received, running, Pool, new_pool, start_workers, Reach, HasExited,
}
use pauli.Queue.Sound.{total, held, LeftAtEnd, Reach-IsSound, Reach-size}

module _ {Job Ctx : Type 0} where
  held_of_exited :
      (f : Job → ℕ) (ws : List (Worker Job Ctx)) → All HasExited ws → total (held f) ws ≡ 0
  unfolding total
  held_of_exited f [] h = refl
  held_of_exited f (exited ∷ ws) h = omega (arith, held_of_exited f ws h.1)
  held_of_exited f (idle ∷ ws) h = absurd h.0
  held_of_exited f (received j ∷ ws) h = absurd h.0
  held_of_exited f (running j ctx ∷ ws) h = absurd h.0

  drained :
      (closed : Bool) (buffer : List Job) (ws : List (Worker Job Ctx))
      → ws ≢ []
      → All HasExited ws
      → All (LeftAtEnd closed buffer) ws
      → (closed ≡ true) × (buffer ≡ [])
  drained closed buffer [] ne h k = absurd (ne refl)
  drained closed buffer (exited ∷ ws) ne h k = k.0
  drained closed buffer (idle ∷ ws) ne h k = absurd h.0
  drained closed buffer (received j ∷ ws) ne h k = absurd h.0
  drained closed buffer (running j ctx ∷ ws) ne h k = absurd h.0

  -- Where all workers of a pool with at least one have returned, as they have when Stop returns, the
  -- queue is empty and each job has been run as often as it was accepted.
  pub Reach-drained :
      (ctx : Ctx) (n : ℕ) (p : Pool Job Ctx)
      → Reach (start_workers ctx (new_pool (suc n))) p
      → All HasExited p.workers
      → (p.buffer ≡ []) × ((f : Job → ℕ) → total f p.finished ≡ total f p.accepted)
  unfolding total
  Reach-drained ctx n p way gone =
      let h = Reach-IsSound ctx (suc n) p way in
      let end =
        drained p.closed p.buffer p.workers
          (λ e. absurd (omega (arith, h.crew, Reach-size ctx (suc n) p way, ap length e))) gone
          h.ends in
      (
        end.1,
        λ f. omega (arith, h.conserved f, held_of_exited f p.workers gone, ap (total f) end.1),
      )

-- ===== src/Backfill/Returns.antt =====
-- SlotPass.Run against a server that answers: the pass returns.
use pauli.Common.{
  ℕ, zero, suc, ◌+◌, ◌%◌, ◌^◌, ◌≤◌, ◌<◌, ◌≡◌, ◌&&◌, Bool, true, false, Option, none, some, arith,
  ltb, ltb→le, lt→ltb, Bool-cases, inl, inr, if◌then◌else◌,
}
use pauli.Exec.{ok, Exec, pure, ◌>>◌}
use pauli.Exec.Returns.{IsOk, IsOk-annotate, IsOk-bind}
use pauli.Storage.{Kind, slot, Db, World, Repository, answered, encodes, execute, query}
use pauli.Storage.Progress.{
  first_unindexed, first_unindexed_slot, chunk_loop, chunk_query, chunk_end, is_slot_indexed,
  is_progress, mark_slot_indexed, mark_progress,
}
use pauli.Indexing.{fetch}
use pauli.Indexing.Blocks.{index_block_at_slot}
use pauli.Backfill.{
  SlotPass, block_indexer, visit_slot, slot_loop, slots_from, run_slot_pass, slot_floor,
  slot_target,
}

module _ (r : Repository) (live : (n : ℕ) → r.fate n ≡ answered) where
  pub query-IsOk :
      {A : Type 0} (fits : Bool) (read : Db → A) (w : World)
      → fits ≡ true
      → IsOk (query r fits read w)
  unfolding query
  query-IsOk fits read w e = rw e (rw (live w.calls) tt)

  pub execute-IsOk :
      (fits : Bool) (change : ℕ → Db → Db) (w : World)
      → fits ≡ true
      → IsOk (execute r fits change w)
  unfolding execute
  execute-IsOk fits change w e = rw e (rw (live w.calls) tt)

  chunk_loop-IsOk :
      (fuel : ℕ) (k : Kind) (start to : ℕ) (w : World)
      → to < 2 ^ 63
      → IsOk (chunk_loop r fuel k start to w)
  unfolding chunk_loop
  chunk_loop-IsOk zero k start to w small = tt
  chunk_loop-IsOk (suc fuel) k start to w small = elim (Bool-cases (ltb to start)) [
    | inl over ↦ rw over tt
    | inr inside ↦ rw inside (
        IsOk-bind (chunk_query r k start (chunk_end r start to)) _ w
          (IsOk-annotate _ (query r (encodes start && encodes (chunk_end r start to)) _) w
            (query-IsOk _ _ w (fits start (ltb→le _ _ inside))))
          (λ found w'. go found w' (chunk_loop-IsOk fuel k _ to w' small)))
  ]
    where
      fits : (n : ℕ) → n ≤ to → (encodes n && encodes (chunk_end r n to)) ≡ true
      fits n le = ground (arith, small)

      go :
          (found : Option ℕ) (w' : World)
          → IsOk (chunk_loop r fuel k ((chunk_end r start to + 1) % 2 ^ 64) to w')
          → IsOk (
              elim found as (λ (o : Option ℕ). Exec World (Option ℕ)) [
                | some q ↦ pure (some q)
                | none ↦ chunk_loop r fuel k ((chunk_end r start to + 1) % 2 ^ 64) to
              ]
                w')
      go (some q) w' h = tt
      go none w' h = h

  pub first_unindexed-IsOk :
      (k : Kind) (from to : ℕ) (w : World) → to < 2 ^ 63 → IsOk (first_unindexed r k from to w)
  unfolding first_unindexed
  first_unindexed-IsOk k from to w small = elim (Bool-cases (ltb to from)) [
    | inl over ↦ rw over tt
    | inr inside ↦ rw inside (chunk_loop-IsOk _ k from to w small)
  ]

-- Indexing a slot returns no error.
module _ (s : SlotPass) (live : (n : ℕ) → s.repo.fate n ≡ answered)
    (indexes : (p : ℕ) (w : World) → IsOk (index_block_at_slot (block_indexer s) p w)) where
  index_then_mark-IsOk :
      (p : ℕ) (w : World)
      → p < 2 ^ 63
      → IsOk ((index_block_at_slot (block_indexer s) p >> mark_slot_indexed s.repo p) w)
  unfolding mark_slot_indexed mark_progress
  index_then_mark-IsOk p w small =
      IsOk-bind (index_block_at_slot (block_indexer s) p) _ w (indexes p w) (λ _ w'.
        IsOk-annotate _ (execute s.repo (encodes p) _) w'
          (execute-IsOk s.repo live (encodes p) _ w' (lt→ltb _ _ small)))

  visit_slot-IsOk : (p : ℕ) (w : World) → p < 2 ^ 63 → IsOk (visit_slot s p w)
  unfolding visit_slot is_slot_indexed is_progress
  visit_slot-IsOk p w small =
      IsOk-bind (is_slot_indexed s.repo p) _ w
        (IsOk-annotate _ (query s.repo (encodes p) _) w
          (query-IsOk s.repo live (encodes p) _ w (lt→ltb _ _ small)))
        after
    where
      after :
          (done : Bool) (w' : World)
          → IsOk (
              (if done
                  then pure tt
                  else (index_block_at_slot (block_indexer s) p >> mark_slot_indexed s.repo p))
                w')
      after true w' = tt
      after false w' = index_then_mark-IsOk p w' small

  slot_loop-IsOk :
      (rounds i first target : ℕ) (w : World)
      → target < 2 ^ 63
      → IsOk (slot_loop s rounds i first target w)
  unfolding slot_loop
  slot_loop-IsOk zero i first target w small = tt
  slot_loop-IsOk (suc rounds) i first target w small =
      elim (Bool-cases (ltb target ((first + i) % 2 ^ 64))) [
        | inl over ↦ rw over tt
        | inr inside ↦ rw inside (
            IsOk-bind (visit_slot s ((first + i) % 2 ^ 64)) _ w
              (visit_slot-IsOk ((first + i) % 2 ^ 64) w
                (let h : (first + i) % 2 ^ 64 ≤ target = ltb→le _ _ inside in omega arith))
              (λ _ w'. slot_loop-IsOk rounds (i + 1) first target w' small))
      ]

  slots_from-IsOk :
      (target : ℕ) (found : Option ℕ) (w : World)
      → target < 2 ^ 63
      → IsOk (slots_from s target found w)
  slots_from-IsOk target none w small = tt
  slots_from-IsOk target (some first) w small =
      IsOk-bind (slot_loop s _ 0 first target) _ w (slot_loop-IsOk _ 0 first target w small)
        (λ _ w'. tt)

  -- A head below 2^63 is reported.
  pub run_slot_pass-IsOk :
      (w : World) (head n : ℕ)
      → s.get_head w.calls ≡ (ok head, n)
      → slot_target s head < 2 ^ 63
      → IsOk (run_slot_pass s w)
  unfolding run_slot_pass fetch first_unindexed_slot first_unindexed
  run_slot_pass-IsOk w head n e small =
      rw e (elim (Bool-cases (ltb (slot_target s head) (slot_floor s))) [
        | inl over ↦ rw over tt
        | inr inside ↦ rw inside (
            IsOk-bind (chunk_loop s.repo _ slot (slot_floor s) (slot_target s head)) _ _
              (chunk_loop-IsOk s.repo live _ slot (slot_floor s) (slot_target s head) _ small)
              (λ found w'. slots_from-IsOk (slot_target s head) found w' small))
      ])

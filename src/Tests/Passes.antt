-- ===== src/Tests/Passes.antt =====
-- The theorems on the backfill passes and the one-shot run, at concrete inputs.
use pauli.Common.{
  refl, arith, ℕ, zero, suc, ◌<◌, ◌≡◌, ◌^◌, ◌==◌, Bool, true, false, [], if◌then◌else◌, subst, sym,
}
use pauli.Exec.Post.{Post, Post-bind, Post-annotate}
use pauli.Storage.{slot, epoch, World, Db}
use pauli.Exec.{pure}
use pauli.Storage.Progress.Gaps.{AllMarked}
use pauli.Backfill.{run_slot_pass, run_epoch_pass}
use pauli.Backfill.Slots.{Passed, Failed, run_slot_pass-Post}
use pauli.Backfill.Epochs.{OnlyEpochs, run_epoch_pass-OnlyEpochs}
use pauli.Backfill.Runner.{one_shot_complete}
use pauli.Backfill.Runner.Complete.{Decides, Unchanged, one_shot_complete-Post}
use pauli.Storage.Progress.{marked, is_epoch_indexed, mark_epoch_indexed}
use pauli.Backfill.Below.{Unmarked}
use pauli.Backfill.Runner.Driver.Stuck.{GoesOn, run-GoesOn}
use pauli.Engine.{run}
use pauli.Backfill.Runner.{Runner, slot_step, epoch_step}
use pauli.Backfill.Runner.Driver.Reaches.{run-Marked}
use pauli.Backfill.Runner.Driver.Finishes.{Ended, run-Finished}
use pauli.Exec.Returns.{IsOk}
use pauli.Storage.Progress.Marks.{IsMarked}
use pauli.Indexing.Epochs.{
  fetch_attestation_rewards_by_index, merge_validator_epoch_records, rewards_by_index,
  save_validator_epoch_records_batched, save_batches, index_epoch_at_boundary, index_epoch,
}
use pauli.Backfill.EpochMarks.{epoch_indexer}
use pauli.Backfill.Answered.{Answer, test-Answer, mark_epoch_indexed-Marked}
use pauli.Beacon.{BeaconApi}
use pauli.Indexing.{is_not_found, fetch}
use pauli.Indexing.Blocks.{index_block_at_slot}
use pauli.Backfill.{block_indexer}
use pauli.Backfill.Runner.Driver.{driver, background}
use pauli.Tests.Fixtures.{
  repo, replies, node, fails, missing, conf, start, db, slot_pass, epoch_pass, runner, bounds,
}

run_slot_pass-Post_example :
    Post (Passed slot_pass 70 start) (Failed slot_pass 70 start) (run_slot_pass slot_pass start)
run_slot_pass-Post_example =
    run_slot_pass-Post slot_pass 70 start 1 refl (omega arith) (omega arith)

run_epoch_pass-OnlyEpochs_example : OnlyEpochs 1 2 start (run_epoch_pass epoch_pass start).1.db
run_epoch_pass-OnlyEpochs_example =
    run_epoch_pass-OnlyEpochs epoch_pass 2 70 start 1 2 refl refl (omega arith) (omega arith)

one_shot_complete-Post_example :
    Post
      (Decides (AllMarked slot db.progress 4 10 × AllMarked epoch db.progress 1 2) start)
      (Unchanged start)
      (one_shot_complete runner start)
one_shot_complete-Post_example =
    one_shot_complete-Post runner bounds start refl (omega arith) (omega arith)

-- The option asks for slots from 4 on, the configuration starts at 100, and slot 6 is missing.
abbrev late : Runner
late = record runner { cfg = record conf { start_slot = 100 } }

slot_six-Unmarked : Unmarked 6 start.db
unfolding marked
slot_six-Unmarked = refl

run-GoesOn_example : GoesOn bounds 6 (run background (driver background) 1000 (late, start))
run-GoesOn_example =
    run-GoesOn bounds 6 1000 (late, start)
      (
        refl,
        refl,
        omega arith,
        omega arith,
        omega arith,
        omega arith,
        omega arith,
        λ n. omega arith,
      )
      slot_six-Unmarked

-- Every slot was missed.
abbrev idle_node : BeaconApi
idle_node = record node {
  get_block_header = λ t. fails missing;
  get_validators_all_at_slot = λ p. replies [];
}

abbrev missed : Runner
missed = record runner { client = idle_node }

missed_slot-IsOk :
    (p : ℕ) (w : World) → IsOk (index_block_at_slot (block_indexer (slot_step missed)) p w)
unfolding index_block_at_slot is_not_found fetch
missed_slot-IsOk p w = tt

no_validators-IsMarked :
    (e : ℕ) (w : World)
    → e < 2 ^ 63
    → Post
        (λ _ w'. IsMarked w' epoch e)
        (λ _. ⊥)
        (index_epoch (epoch_indexer (epoch_step missed)) e w)
unfolding index_epoch fetch_attestation_rewards_by_index fetch merge_validator_epoch_records
    save_validator_epoch_records_batched save_batches rewards_by_index
no_validators-IsMarked e w small =
    Post-annotate (λ _ w'. IsMarked w' epoch e) (λ _. ⊥) _ (mark_epoch_indexed repo e) _
      (mark_epoch_indexed-Marked repo (λ n. refl) e _ small)

missed_epoch-IsMarked :
    (e : ℕ) (w : World)
    → e < 2 ^ 63
    → Post
        (λ _ w'. IsMarked w' epoch e)
        (λ _. ⊥)
        (index_epoch_at_boundary (epoch_indexer (epoch_step missed)) e w)
unfolding index_epoch_at_boundary
missed_epoch-IsMarked e w small =
    Post-bind (Answer repo (λ n. refl) e w) (λ _ w'. IsMarked w' epoch e) (λ _. ⊥)
      (is_epoch_indexed repo e) _ w (test-Answer repo (λ n. refl) e w small)
      (λ b w' h. after e small b w' h.0 h.1)
  where
    after :
        (e : ℕ)
        → e < 2 ^ 63
        → (b : Bool) (w' : World) → w'.db ≡ w.db
        → b ≡ marked epoch e w.db.progress
        → Post
            (λ _ v. IsMarked v epoch e)
            (λ _. ⊥)
            ((if b
                then pure tt
                else (if e == 0
                    then mark_epoch_indexed repo 0
                    else index_epoch (epoch_indexer (epoch_step missed)) e))
              w')
    after e small true w' same h =
        subst (λ (d : Db). marked epoch e d.progress ≡ true) (sym same) (sym h)
    after zero small false w' same h = mark_epoch_indexed-Marked repo (λ n. refl) 0 w' small
    after (suc e) small false w' same h =
        rw (let z : (suc e == 0) ≡ false = ground arith in z)
          (no_validators-IsMarked (suc e) w' small)

run-Finished_example : Ended missed bounds (run background (driver background) 7 (missed, start))
run-Finished_example =
    run-Finished missed bounds (λ n. refl) missed_slot-IsOk
      (λ n. (70, suc n, refl, omega arith, omega arith, omega arith)) missed_epoch-IsMarked
      (λ n. (2, 70, suc n, suc (suc n), refl, refl, omega arith, omega arith)) refl refl
      (omega arith) (omega arith) refl refl (omega arith) (omega arith) 6 start (omega arith)
      (omega arith)

run-Marked_example :
    marked slot 6 (run background (driver background) 3 (missed, start)).1.1.db.progress ≡ true
run-Marked_example =
    run-Marked missed bounds 9 (λ n. refl) missed_slot-IsOk
      (λ n. (70, suc n, refl, omega arith, omega arith, omega arith)) (omega arith) refl refl
      (omega arith) (omega arith) (omega arith) 3 start (omega arith) (omega arith) 6 (omega arith)
      (omega arith)

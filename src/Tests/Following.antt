-- ===== src/Tests/Following.antt =====
-- The theorems on the realtime chain, at concrete inputs.
use pauli.Common.{[], none, false}
use pauli.Common.Int.{pos}
use pauli.Exec.{ok, pure}
use pauli.Engine.{Context, run_step_chain}
use pauli.Realtime.{Settings, State, new_state, runner, steps}
use pauli.Realtime.Heads.{Cursor, run_step_chain-Cursor}
use pauli.Tests.Fixtures.{repo, start, node, replies}

abbrev settings : Settings
settings = record {
  client = node;
  exec = none;
  repo = repo;
  get_head = replies 64;
  validators = [];
  pool = λ n. ok tt;
}

abbrev fresh : State
fresh = new_state start

abbrev quiet : Context State
quiet = record { done = λ s. (false, s); wait = λ d s. (false, s) }

run_step_chain-Cursor_example :
    Cursor settings fresh
      (run_step_chain quiet (runner settings (pure tt)) (steps settings) (pos 0) fresh).1
unfolding new_state
run_step_chain-Cursor_example =
    run_step_chain-Cursor settings fresh quiet (pure tt)
      (record { done = λ s h. h; wait = λ d s h. h }) tt

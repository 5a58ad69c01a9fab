-- ===== src/Planning/Executor/Parallel/Tests.antt =====
-- Tests of `execute_parallel` (runtime/src/planning/executor.rs).
use xola.Base.{◌≡◌, refl, none, String, [], ◌∷◌, ok, err}
use xola.Memory.EpisodicLog.{success}
use xola.Planning.Error.{join_error}
use xola.Planning.Executor.Task.{TaskResult}
use xola.Planning.Executor.Parallel.{joined}

abbrev finished : TaskResult String
finished = record {
  outcome = success;
  final_answer = none;
  steps = [];
  duration_ms = 3;
  iterations = 1;
  total_replans = 0;
}

all_return : joined (ok (ok finished) ∷ ok (ok finished) ∷ []) ≡ ok (finished ∷ finished ∷ [])
unfolding joined
all_return = refl

one_panics : joined (ok (ok finished) ∷ err "task panicked" ∷ []) ≡ err (join_error "task panicked")
unfolding joined
one_panics = refl

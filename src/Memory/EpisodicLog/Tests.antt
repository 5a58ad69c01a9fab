-- ===== src/Memory/EpisodicLog/Tests.antt =====
-- Tests of runtime/src/memory/episodic_log.rs, and the theorems at concrete texts.
use xola.Base.{ℕ, ◌≡◌, ◌==◌, ◌↔◌, refl, true, false, String, List, [], ◌∷◌, some, Exit, ok}
use xola.Base.Text.{◌<>◌}
use xola.Memory.EpisodicLog.Sample.{no_steps, reads_back, postgres, postgres-IsTable}
use xola.Memory.EpisodicLog.{success, failure, as_str, EpisodeInput}
use xola.Memory.EpisodicLog.Rows.{
  from_str, Columns, EpisodeRecord, EpisodeError, insert, recent, find_similar_goals, delete,
  columns,
}
use xola.Memory.EpisodicLog.Roundtrip.{from_str-as_str, record_of}
use xola.Memory.EpisodicLog.Search.{like_pattern, replace, tokens}
use xola.Memory.EpisodicLog.Table.{Read}
use xola.Memory.EpisodicLog.Log.{
  Call, insertion, newest, search, deletion, Reply, new_id, episodes, deleted, Follows, perform_all,
}
use xola.Memory.EpisodicLog.Log.Refines.{perform_all-Follows}

percent : like_pattern "50%_a\\b" ≡ "%50\\%\\_a\\\\b%"
unfolding like_pattern replace ◌<>◌
percent = refl

abbrev episode : EpisodeInput String
episode = record {
  task_goal = "goal";
  steps = [];
  outcome = failure;
  error = some "it timed out";
  duration_ms = 500;
}

abbrev bound_columns : Columns String
bound_columns = record {
  task_goal = "goal";
  steps = "[]";
  outcome = "failure";
  error = some "it timed out";
  duration_ms = 500;
}

unknown_outcome : (from_str "unknown" ≡ ok success) ↔ ("unknown" ≡ as_str success)
unknown_outcome = from_str-as_str "unknown" success

abbrev named : String → EpisodeInput String
named goal = record episode { task_goal = goal }

abbrev calls : List (Call String ℕ)
calls =
    insertion (named "100%")
    ∷ insertion (named "100 pages")
    ∷ search "0%" 5
    ∷ newest 1
    ∷ deletion 0
    ∷ deletion 0
    ∷ search "" 5
    ∷ []

abbrev replies : List (Exit EpisodeError (Reply String ℕ ℕ))
replies =
    ok (new_id 0)
    ∷ ok (new_id 1)
    ∷ ok (episodes (record_of no_steps 0 1_000 (named "100%") ∷ []))
    ∷ ok (episodes (record_of no_steps 1 1_000 (named "100 pages") ∷ []))
    ∷ ok (deleted true)
    ∷ ok (deleted false)
    ∷ ok (episodes (record_of no_steps 1 1_000 (named "100 pages") ∷ []))
    ∷ []

replies_to_calls : (perform_all no_steps postgres calls []).0 ≡ replies
unfolding perform_all insert columns recent find_similar_goals delete like_pattern replace tokens
    ◌<>◌
replies_to_calls = refl

perform_all-Follows_example :
    (m : List (EpisodeRecord String ℕ ℕ)) × Follows no_steps
      (λ c d. c == d)
      (λ i j. i == j)
      []
      calls
      (perform_all no_steps postgres calls []).0
      m
    × Read no_steps (perform_all no_steps postgres calls []).1 m
perform_all-Follows_example =
    perform_all-Follows no_steps postgres (λ w. w) (λ c d. c == d) (λ i j. i == j) postgres-IsTable
      reads_back calls [] [] tt

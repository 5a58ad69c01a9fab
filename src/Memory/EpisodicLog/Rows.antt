-- ===== src/Memory/EpisodicLog/Rows.antt =====
-- The rows of the log, and the operations on its table (runtime/src/memory/episodic_log.rs). The
-- database, the serialisation of steps, and the types of ids and of times are parameters. `debug_assert`
-- is off, as in a release build, and limits are below 2^63.
use text.Mathlib.Text.{◌==◌}
use xola.Base.{ℕ, Bool, Option, String, List, [], ◌∷◌, Exit, ok, err, panic, ltb, if◌then◌else◌}
use xola.Base.Text.{◌<>◌}
use xola.Memory.EpisodicLog.{Outcome, success, failure, as_str, TaskStep, EpisodeInput}
use xola.Memory.EpisodicLog.Search.{like_pattern}

-- An error of `sqlx` or of `serde_json` is represented by its text.
pub data EpisodeError : Type 0 where
  database : String → EpisodeError
  invalid_outcome : String → EpisodeError
  deserialization : String → EpisodeError

-- Outcome::from_str
unfoldable pub from_str : String → Exit String Outcome
from_str s =
    if s == "success"
    then ok success
    else if s == "failure"
    then ok failure
    else err ("unknown outcome: '" <> s <> "'")

-- serde_json::to_value and serde_json::from_value on steps
pub record Serde (Value : Type 0) : Type 0 where
  pub to_value : List (TaskStep Value) → Exit String Value
  pub from_value : Value → Exit String (List (TaskStep Value))

-- The values that an insertion binds.
pub record Columns (Value : Type 0) : Type 0 where
  pub task_goal : String
  pub steps : Value
  pub outcome : String
  pub error : Option String
  pub duration_ms : ℕ

pub record RawEpisodeRow (Value Uuid Time : Type 0) : Type 0 where
  pub id : Uuid
  pub columns : Columns Value
  pub created_at : Time

pub record EpisodeRecord (Value Uuid Time : Type 0) : Type 0 where
  pub id : Uuid
  pub task_goal : String
  pub steps : List (TaskStep Value)
  pub outcome : Outcome
  pub error : Option String
  pub duration_ms : ℕ
  pub created_at : Time

-- The four statements, on a table that is a part of the world.
pub record Database (Value Uuid Time World : Type 0) : Type 0 where
  pub insert_row : Columns Value → World → Exit String Uuid × World
  pub newest : ℕ → World → Exit String (List (RawEpisodeRow Value Uuid Time)) × World
  pub newest_like : String → ℕ → World → Exit String (List (RawEpisodeRow Value Uuid Time)) × World
  pub delete_row : Uuid → World → Exit String ℕ × World

abbrev pub from_database : {A : Type 0} → Exit String A → Exit EpisodeError A
from_database (ok a) = ok a
from_database (err e) = err (database e)
from_database panic = panic

module _ {Value : Type 0} (serde : Serde Value) where
  unfoldable pub bound : EpisodeInput Value → Exit String Value → Exit EpisodeError (Columns Value)
  bound ep (ok steps_json) = ok (record {
    task_goal = ep.task_goal;
    steps = steps_json;
    outcome = as_str ep.outcome;
    error = ep.error;
    duration_ms = ep.duration_ms;
  })
  bound ep (err e) = err (deserialization e)
  bound ep panic = panic

  unfoldable pub columns : EpisodeInput Value → Exit EpisodeError (Columns Value)
  unfolding bound
  columns ep = bound ep (serde.to_value ep.steps)

module _ {Value Uuid Time : Type 0} (serde : Serde Value) where
  unfoldable pub mapped :
      RawEpisodeRow Value Uuid Time
      → Exit String Outcome
      → Exit String (List (TaskStep Value))
      → Exit EpisodeError (EpisodeRecord Value Uuid Time)
  mapped row (err e) steps = err (invalid_outcome row.columns.outcome)
  mapped row panic steps = panic
  mapped row (ok outcome) (err e) = err (deserialization e)
  mapped row (ok outcome) panic = panic
  mapped row (ok outcome) (ok steps) = ok (record {
    id = row.id;
    task_goal = row.columns.task_goal;
    steps = steps;
    outcome = outcome;
    error = row.columns.error;
    duration_ms = row.columns.duration_ms;
    created_at = row.created_at;
  })

  unfoldable pub map_episode_row :
      RawEpisodeRow Value Uuid Time → Exit EpisodeError (EpisodeRecord Value Uuid Time)
  unfolding mapped from_str
  map_episode_row row =
      mapped row (from_str row.columns.outcome) (serde.from_value row.columns.steps)

  abbrev pub one_more :
      Exit EpisodeError (EpisodeRecord Value Uuid Time)
      → Exit EpisodeError (List (EpisodeRecord Value Uuid Time))
      → Exit EpisodeError (List (EpisodeRecord Value Uuid Time))
  one_more (err e) rest = err e
  one_more panic rest = panic
  one_more (ok r) (ok rs) = ok (r ∷ rs)
  one_more (ok r) (err e) = err e
  one_more (ok r) panic = panic

  -- .map(map_episode_row).collect(), which stops at the first error
  unfoldable pub map_rows :
      List (RawEpisodeRow Value Uuid Time)
      → Exit EpisodeError (List (EpisodeRecord Value Uuid Time))
  unfolding map_episode_row
  map_rows [] = ok []
  map_rows (row ∷ rows) = one_more (map_episode_row row) (map_rows rows)

  abbrev pub fetched :
      Exit String (List (RawEpisodeRow Value Uuid Time))
      → Exit EpisodeError (List (EpisodeRecord Value Uuid Time))
  fetched (ok rows) = map_rows rows
  fetched (err e) = err (database e)
  fetched panic = panic

module _ {Value Uuid Time World : Type 0} (serde : Serde Value)
    (db : Database Value Uuid Time World) where
  abbrev pub inserted : Exit EpisodeError (Columns Value) → World → Exit EpisodeError Uuid × World
  inserted (ok c) w = let (e, w') = db.insert_row c w in (from_database e, w')
  inserted (err e) w = (err e, w)
  inserted panic w = (panic, w)

  unfoldable pub insert : EpisodeInput Value → World → Exit EpisodeError Uuid × World
  unfolding columns
  insert ep w = inserted (columns serde ep) w

  unfoldable pub recent :
      ℕ → World → Exit EpisodeError (List (EpisodeRecord Value Uuid Time)) × World
  unfolding map_rows
  recent limit w = let (rows, w') = db.newest limit w in (fetched serde rows, w')

  unfoldable pub find_similar_goals :
      String → ℕ → World → Exit EpisodeError (List (EpisodeRecord Value Uuid Time)) × World
  unfolding map_rows like_pattern
  find_similar_goals keyword limit w =
      let (rows, w') = db.newest_like (like_pattern keyword) limit w in (fetched serde rows, w')

  abbrev pub affected : Exit EpisodeError ℕ → Exit EpisodeError Bool
  affected (ok n) = ok (ltb 0 n)
  affected (err e) = err e
  affected panic = panic

  unfoldable pub delete : Uuid → World → Exit EpisodeError Bool × World
  delete id w = let (n, w') = db.delete_row id w in (affected (from_database n), w')

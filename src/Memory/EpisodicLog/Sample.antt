-- ===== src/Memory/EpisodicLog/Sample.antt =====
-- A table for tests (runtime/src/memory/episodic_log.rs).
use xola.Base.{ℕ, ◌≡◌, ◌==◌, refl, not, String, List, [], ◌∷◌, take, filter, length, Exit, ok, err}
use xola.Memory.EpisodicLog.{TaskStep}
use xola.Memory.EpisodicLog.Rows.{Serde, RawEpisodeRow, Database}
use xola.Memory.EpisodicLog.Roundtrip.{row_of}
use xola.Memory.EpisodicLog.Search.{tokens}
use xola.Memory.EpisodicLog.Matching.{matches}
use xola.Memory.EpisodicLog.Table.{IsTable}

-- A table that is a list of its rows, the newest first. The ids count the rows that there were.
abbrev pub Table : Type 0
Table = List (RawEpisodeRow String ℕ ℕ)

-- Steps are written where there are none.
abbrev pub no_steps : Serde String
no_steps = record { to_value = to_text; from_value = λ v. ok [] }
  where
    to_text : List (TaskStep String) → Exit String String
    to_text [] = ok "[]"
    to_text (s ∷ steps) = err "not an empty list"

pub reads_back :
    (steps : List (TaskStep String)) (v : String)
    → no_steps.to_value steps ≡ ok v
    → no_steps.from_value v ≡ ok steps
reads_back [] v e = refl
reads_back (s ∷ steps) v e = cc

abbrev pub postgres : Database String ℕ ℕ Table
postgres = record {
  insert_row = λ c w. (ok (length w), row_of no_steps (length w) 1_000 c ∷ w);
  newest = λ limit w. (ok (take limit w), w);
  newest_like = λ pattern limit w. (
    ok (
        take limit
          (filter (λ row. matches (λ c d. c == d) (tokens pattern) row.columns.task_goal) w)),
    w,
  );
  delete_row =
      λ id w. (ok (length (filter (λ row. id == row.id) w)), filter (λ row. not (id == row.id)) w);
}

pub postgres-IsTable : IsTable no_steps postgres (λ w. w) (λ c d. c == d) (λ i j. i == j)
postgres-IsTable = record {
  inserts = λ c w. (1_000, refl);
  lists = λ limit w. (refl, refl);
  searches = λ pattern limit w. (refl, refl);
  deletes = λ id w. (refl, refl);
}

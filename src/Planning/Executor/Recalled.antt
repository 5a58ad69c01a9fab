-- ===== src/Planning/Executor/Recalled.antt =====
-- The episode of a task in the log (runtime/src/planning/executor.rs and runtime/src/memory/episodic_log.rs).
mod Tests
use mathlib.Core.Path.{subst}
use xola.Base.{
  ℕ, suc, Bool, ◌≡◌, refl, ap, sym, ◌∙◌, none, some, String, List, ◌∷◌, take, Exit, ok, err, panic,
}
use xola.Memory.EpisodicLog.{success, TaskStep, EpisodeInput}
use xola.Memory.EpisodicLog.Rows.{
  Serde, Columns, RawEpisodeRow, EpisodeRecord, EpisodeError, Database, from_database, columns,
  bound, inserted, one_more, fetched, map_rows, map_episode_row, insert, recent,
}
use xola.Memory.EpisodicLog.Roundtrip.{row_of, record_of, map_episode_row-columns}
use xola.Memory.EpisodicLog.Table.{Inserted, Selected, IsTable}
use xola.Tools.Registry.{ToolRegistry}
use xola.Planning.Executor.Task.{TaskResult, PlanExecutor, Task}
use xola.Planning.Executor.Messages.{error_of, record_episode}
use xola.Planning.Executor.React.{execute}
use xola.Planning.Executor.Parallel.{with_episodic_log}
use xola.Planning.Executor.Results.InTime.{execute-Finished}

-- The episode of a task that returned a result.
abbrev pub episode_of : {Value : Type 0} → String → TaskResult Value → EpisodeInput Value
episode_of goal result = record {
  task_goal = goal;
  steps = result.steps;
  outcome = success;
  error = none;
  duration_ms = result.duration_ms;
}

module _ {Value Uuid Time World : Type 0} (serde : Serde Value)
    (db : Database Value Uuid Time World) (rows : World → List (RawEpisodeRow Value Uuid Time))
    (same : ℕ → ℕ → Bool) (same_id : Uuid → Uuid → Bool) where
  -- An episode after an attempt to insert it: it is the first of the records, or the table is as it was.
  abbrev pub Recalled :
      EpisodeInput Value
      → World
      → World
      → List (EpisodeRecord Value Uuid Time)
      → Exit EpisodeError Uuid
      → Type 0
  Recalled ep v w records (ok id) =
      (at : Time) × (rest : List (EpisodeRecord Value Uuid Time)) × (records
        ≡ record_of serde id at ep ∷ rest)
  Recalled ep v w records (err e) = rows w ≡ rows v
  Recalled ep v w records panic = rows w ≡ rows v

  first_of :
      (row : RawEpisodeRow Value Uuid Time) (r : EpisodeRecord Value Uuid Time)
      (rest : Exit EpisodeError (List (EpisodeRecord Value Uuid Time)))
      (records : List (EpisodeRecord Value Uuid Time))
      → one_more serde (ok r) rest ≡ ok records
      → (rs : List (EpisodeRecord Value Uuid Time)) × (records ≡ r ∷ rs)
  first_of row r (ok rs) records q = (rs, cc)
  first_of row r (err e) records q = cc
  first_of row r panic records q = cc

  -- The newest record is that of the newest row.
  recent-first :
      (n : ℕ) (w w' : World) (records : List (EpisodeRecord Value Uuid Time))
      (row : RawEpisodeRow Value Uuid Time) (older : List (RawEpisodeRow Value Uuid Time))
      (r : EpisodeRecord Value Uuid Time)
      → IsTable serde db rows same same_id
      → recent serde db (suc n) w ≡ (ok records, w')
      → rows w ≡ row ∷ older
      → map_episode_row serde row ≡ ok r
      → (rs : List (EpisodeRecord Value Uuid Time)) × (records ≡ r ∷ rs)
  unfolding recent map_rows
  recent-first n w w' records row older r table q e reads =
      by_rows (db.newest (suc n) w) (table.lists (suc n) w)
        (ap (λ (p : Exit EpisodeError (List (EpisodeRecord Value Uuid Time)) × World). p.0) q)
    where
      by_rows :
          (found : Exit String (List (RawEpisodeRow Value Uuid Time)) × World)
          → Selected serde db rows same same_id (suc n) (rows w) w found
          → fetched serde found.0 ≡ ok records
          → (rs : List (EpisodeRecord Value Uuid Time)) × (records ≡ r ∷ rs)
      by_rows (ok found, w1) (e1, e2) q1 =
          let newest = e1 ∙ ap (take (suc n)) e in
          first_of row r (map_rows serde (take n older)) records (
            ap (λ x. one_more serde x (map_rows serde (take n older))) (sym reads)
            ∙ ap (map_rows serde) (sym newest)
            ∙ q1)
      by_rows (err x, w1) e1 q1 = cc
      by_rows (panic, w1) e1 q1 = cc

  insert-Recalled :
      (n : ℕ) (ep : EpisodeInput Value) (v w' : World)
      (records : List (EpisodeRecord Value Uuid Time))
      → IsTable serde db rows same same_id
      → ((steps : List (TaskStep Value)) (a : Value)
          → serde.to_value steps ≡ ok a
          → serde.from_value a ≡ ok steps)
      → recent serde db (suc n) (insert serde db ep v).1 ≡ (ok records, w')
      → Recalled ep v (insert serde db ep v).1 records (insert serde db ep v).0
  unfolding insert columns bound
  insert-Recalled n ep v w' records table law q = by_value (serde.to_value ep.steps) refl q
    where
      by_row :
          (c : Columns Value) (r : Exit String Uuid × World)
          → columns serde ep ≡ ok c
          → Inserted serde db rows same same_id c v r
          → recent serde db (suc n) r.1 ≡ (ok records, w')
          → Recalled ep v r.1 records (from_database r.0)
      by_row c (ok id, w) p (at, e) q1 =
          let (rest, first) =
            recent-first n w w' records (row_of serde id at c) (rows v) (record_of serde id at ep)
              table q1 e (map_episode_row-columns serde law ep c id at p) in
          (at, rest, first)
      by_row c (err x, w) p e q1 = e
      by_row c (panic, w) p e q1 = e

      by_value :
          (written : Exit String Value)
          → serde.to_value ep.steps ≡ written
          → recent serde db (suc n) (inserted serde db (bound serde ep written) v).1
            ≡ (ok records, w')
          → Recalled ep v
              (inserted serde db (bound serde ep written) v).1
              records
              (inserted serde db (bound serde ep written) v).0
      by_value (ok a) e q1 =
          by_row _ (db.insert_row _ v) (ap (bound serde ep) e) (table.inserts _ v) q1
      by_value (err x) e q1 = refl
      by_value panic e q1 = refl

  -- A task that returns a result ends with one insertion of its episode into the log: the goal, the steps of
  -- the result, a success without an error, and the time that it took. If the insertion succeeds, then the
  -- first of the newest episodes that the log reads next, if it can be read, is that of the task, under the id of
  -- the insertion; if it fails, then the table is as it was. The steps are read back as they were written, and
  -- the statements act on the table as their SQL says.
  pub execute-Recalled :
      (x : PlanExecutor Value World) (goal : String) (registry : ToolRegistry Value World)
      (w w' : World) (result : TaskResult Value) (t : Task Value World) (n : ℕ)
      (records : List (EpisodeRecord Value Uuid Time))
      → IsTable serde db rows same same_id
      → ((steps : List (TaskStep Value)) (v : Value)
          → serde.to_value steps ≡ ok v
          → serde.from_value v ≡ ok steps)
      → execute (with_episodic_log (λ ep v. (insert serde db ep v).1) x) goal registry w
        ≡ some (ok result, t)
      → recent serde db (suc n) t.world ≡ (ok records, w')
      → (v : World) × (t.world ≡ (insert serde db (episode_of goal result) v).1)
        × Recalled
            (episode_of goal result)
            v
            t.world
            records
            (insert serde db (episode_of goal result) v).0
  unfolding record_episode
  execute-Recalled x goal registry w w' result t n records table law q r =
      let (outcome, (u, here, asked, within, steps, replans, after)) =
        execute-Finished (with_episodic_log (λ ep v. (insert serde db ep v).1) x) goal registry w
          result t q in
      let end : t.world ≡ (insert serde db (episode_of goal result) u.world).1 =
        ap (λ (s : Task Value World). s.world) after
        ∙ ap
            (λ o.
              (insert serde db (record (episode_of goal result) { outcome = o; error = error_of o })
                u.world).1)
            outcome in
      (
        u.world,
        end,
        subst
            (λ v.
              Recalled (episode_of goal result) u.world v records
                (insert serde db (episode_of goal result) u.world).0)
            (sym end)
            (insert-Recalled n (episode_of goal result) u.world w' records table law
              (ap (λ v. recent serde db (suc n) v) (sym end) ∙ r)),
      )

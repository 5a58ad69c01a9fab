-- ===== src/Memory/EpisodicLog/Log/Refines.antt =====
-- The code's operations on the table against the log as its callers see it
-- (runtime/src/memory/episodic_log.rs).
use mathlib.Core.Path.{subst}
use xola.Base.{
  ℕ, ◌≡◌, refl, ap, sym, ◌∙◌, Bool, not, String, List, [], ◌∷◌, take, filter, Exit, ok, err, panic,
  ltb,
}
use xola.Memory.EpisodicLog.{TaskStep, EpisodeInput}
use xola.Memory.EpisodicLog.Search.{like_pattern, tokens}
use xola.Memory.EpisodicLog.Matching.{contains, matches, matches-like_pattern}
use xola.Memory.EpisodicLog.Rows.{
  Serde, Columns, RawEpisodeRow, EpisodeRecord, EpisodeError, from_database, Database, columns,
  bound, inserted, fetched, affected, map_episode_row, insert, recent, find_similar_goals, delete,
}
use xola.Memory.EpisodicLog.Roundtrip.{record_of, map_episode_row-columns}
use xola.Memory.EpisodicLog.Table.{
  Inserted, Selected, Deleted, IsTable, Read, Read-map_rows, Read-take, Read-filter, Read-length,
  keeps_goal,
}
use xola.Memory.EpisodicLog.Log.{
  Call, insertion, newest, search, deletion, Reply, new_id, episodes, deleted, replied, Does,
  inserts, lists, searches, deletes, unavailable, unwritten, panics, Follows, none_left, next,
  perform, perform_all,
}

module _ {Value Uuid Time World : Type 0} (serde : Serde Value)
    (db : Database Value Uuid Time World) (rows : World → List (RawEpisodeRow Value Uuid Time))
    (same : ℕ → ℕ → Bool) (same_id : Uuid → Uuid → Bool)
    (table : IsTable serde db rows same same_id) where
  -- A reply that the log allows, with the table's rows read as the log that the call leaves.
  abbrev Ends :
      List (EpisodeRecord Value Uuid Time)
      → Call Value Uuid
      → Exit EpisodeError (Reply Value Uuid Time) × World
      → Type 0
  Ends l call r =
      (m : List (EpisodeRecord Value Uuid Time)) × Does serde same same_id l call r.0 m
      × Read serde (rows r.1) m

  kept :
      (l : List (EpisodeRecord Value Uuid Time)) (w w' : World)
      → Read serde (rows w) l
      → rows w' ≡ rows w
      → Read serde (rows w') l
  kept l w w' h e = subst (λ rs. Read serde rs l) (sym e) h

  insert-Ends :
      ((steps : List (TaskStep Value)) (v : Value)
        → serde.to_value steps ≡ ok v
        → serde.from_value v ≡ ok steps)
      → (ep : EpisodeInput Value) (l : List (EpisodeRecord Value Uuid Time)) (w : World)
      → Read serde (rows w) l
      → Ends l (insertion ep) (perform serde db (insertion ep) w)
  unfolding perform insert columns bound
  insert-Ends law ep l w h = by_value (serde.to_value ep.steps) refl
    where
      by_row :
          (c : Columns Value) (r : Exit String Uuid × World)
          → columns serde ep ≡ ok c
          → Inserted serde db rows same same_id c w r
          → Ends l (insertion ep) (replied new_id (from_database r.0), r.1)
      by_row c (ok id, w') q (at, e) = (
        record_of serde id at ep ∷ l,
        inserts ep id at,
        subst (λ rs. Read serde rs (record_of serde id at ep ∷ l)) (sym e)
            (map_episode_row-columns serde law ep c id at q, h),
      )
      by_row c (err x, w') q e = (l, unavailable x, kept l w w' h e)
      by_row c (panic, w') q e = (l, panics, kept l w w' h e)

      by_value :
          (written : Exit String Value)
          → serde.to_value ep.steps ≡ written
          → Ends l (insertion ep) (
            replied new_id (inserted serde db (bound serde ep written) w).0,
            (inserted serde db (bound serde ep written) w).1,
          )
      by_value (ok v) e = by_row _ (db.insert_row _ w) (ap (bound serde ep) e) (table.inserts _ w)
      by_value (err x) e = (l, unwritten ep x, h)
      by_value panic e = (l, panics, h)

  select-Ends :
      (call : Call Value Uuid) (limit : ℕ) (asked : List (RawEpisodeRow Value Uuid Time))
      (l wanted : List (EpisodeRecord Value Uuid Time)) (w : World)
      → Read serde (rows w) l
      → Read serde asked wanted
      → Does serde same same_id l call (ok (episodes (take limit wanted))) l
      → (r : Exit String (List (RawEpisodeRow Value Uuid Time)) × World)
      → Selected serde db rows same same_id limit asked w r
      → Ends l call (replied episodes (fetched serde r.0), r.1)
  select-Ends call limit asked l wanted w h reads does (ok some_rows, w') (e, e') =
      let mapped =
        ap (fetched serde) (ap ok e)
        ∙ Read-map_rows serde _ _ (Read-take serde limit asked wanted reads) in
      (
        l,
        subst (λ records. Does serde same same_id l call (replied episodes records) l) (sym mapped)
            does,
        kept l w w' h e',
      )
  select-Ends call limit asked l wanted w h reads does (err x, w') e =
      (l, unavailable x, kept l w w' h e)
  select-Ends call limit asked l wanted w h reads does (panic, w') e = (l, panics, kept l w w' h e)

  search-Ends :
      (keyword : String) (limit : ℕ) (l : List (EpisodeRecord Value Uuid Time)) (w : World)
      → Read serde (rows w) l
      → Ends l (search keyword limit) (perform serde db (search keyword limit) w)
  unfolding perform find_similar_goals
  search-Ends keyword limit l w h =
      select-Ends (search keyword limit) limit
        (filter (λ row. matches same (tokens (like_pattern keyword)) row.columns.task_goal)
          (rows w))
        l (filter (λ r. contains same keyword r.task_goal) l) w h
        (Read-filter serde _ _ agree (rows w) l h) (searches keyword limit)
        (db.newest_like (like_pattern keyword) limit w)
        (table.searches (like_pattern keyword) limit w)
    where
      agree :
          (row : RawEpisodeRow Value Uuid Time) (r : EpisodeRecord Value Uuid Time)
          → map_episode_row serde row ≡ ok r
          → matches same (tokens (like_pattern keyword)) row.columns.task_goal
            ≡ contains same keyword r.task_goal
      agree row r e =
          matches-like_pattern same keyword row.columns.task_goal
          ∙ ap (contains same keyword) (keeps_goal serde row r e).1

  delete-Ends :
      (id : Uuid) (l : List (EpisodeRecord Value Uuid Time)) (w : World)
      → Read serde (rows w) l
      → Ends l (deletion id) (perform serde db (deletion id) w)
  unfolding perform delete
  delete-Ends id l w h = by_count (db.delete_row id w) (table.deletes id w)
    where
      agree :
          (row : RawEpisodeRow Value Uuid Time) (r : EpisodeRecord Value Uuid Time)
          → map_episode_row serde row ≡ ok r
          → same_id id row.id ≡ same_id id r.id
      agree row r e = ap (same_id id) (keeps_goal serde row r e).0

      by_count :
          (r : Exit String ℕ × World)
          → Deleted serde db rows same same_id id w r
          → Ends l (deletion id) (replied deleted (affected serde db (from_database r.0)), r.1)
      by_count (ok n, w') (e, e') =
          let counted = e ∙ Read-length serde _ _ (Read-filter serde _ _ agree (rows w) l h) in
          (
            filter (λ r. not (same_id id r.id)) l,
            subst
                (λ k.
                  Does serde same same_id l (deletion id) (ok (deleted (ltb 0 k)))
                    (filter (λ r. not (same_id id r.id)) l))
                (sym counted) (deletes id),
            subst (λ rs. Read serde rs (filter (λ r. not (same_id id r.id)) l)) (sym e')
                (Read-filter serde _ _ (λ row r q. ap not (agree row r q)) (rows w) l h),
          )
      by_count (err x, w') e = (l, unavailable x, kept l w w' h e)
      by_count (panic, w') e = (l, panics, kept l w w' h e)

  module _
      (law : (steps : List (TaskStep Value)) (v : Value)
        → serde.to_value steps ≡ ok v
        → serde.from_value v ≡ ok steps) where
    perform-Ends :
        (call : Call Value Uuid) (l : List (EpisodeRecord Value Uuid Time)) (w : World)
        → Read serde (rows w) l
        → Ends l call (perform serde db call w)
    unfolding perform recent
    perform-Ends (insertion ep) l w h = insert-Ends law ep l w h
    perform-Ends (newest limit) l w h =
        select-Ends (newest limit) limit (rows w) l l w h h (lists limit) (db.newest limit w)
          (table.lists limit w)
    perform-Ends (search keyword limit) l w h = search-Ends keyword limit l w h
    perform-Ends (deletion id) l w h = delete-Ends id l w h

    -- From a table whose rows are read as the episodes of a log, any sequence of calls gets the replies that the
    -- log gives, and the table's rows are read as the log that the calls leave: an insertion puts its episode
    -- first; the newest episodes are the first of the log; a search finds the first of those whose goal has the
    -- keyword in it, its wildcards taken as they are; a deletion takes the episodes of its id away, and says
    -- whether there were any. A call may also fail, for the database's sake or, an insertion, because its
    -- steps cannot be written, and then it leaves the log as it was. No call fails to read a row. The steps
    -- are read back as they were written, and the statements act on the table as their SQL says.
    pub perform_all-Follows :
        (calls : List (Call Value Uuid)) (l : List (EpisodeRecord Value Uuid Time)) (w : World)
        → Read serde (rows w) l
        → (m : List (EpisodeRecord Value Uuid Time)) × Follows serde same same_id l calls
            (perform_all serde db calls w).0
            m
          × Read serde (rows (perform_all serde db calls w).1) m
    unfolding perform_all
    perform_all-Follows [] l w h = (l, none_left, h)
    perform_all-Follows (call ∷ calls) l w h =
        let (m, does, reads) = perform-Ends call l w h in
        let (n, follows, ends) = perform_all-Follows calls m (perform serde db call w).1 reads in
        (n, next does follows, ends)

-- ===== src/Memory/EpisodicLog/Log.antt =====
-- The log as its callers see it (runtime/src/memory/episodic_log.rs): a list of episodes, the newest first.
pub mod Refines
use xola.Base.{ℕ, Bool, not, String, List, [], ◌∷◌, take, filter, length, Exit, ok, err, panic, ltb}
use xola.Memory.EpisodicLog.{EpisodeInput}
use xola.Memory.EpisodicLog.Matching.{contains}
use xola.Memory.EpisodicLog.Rows.{
  Serde, EpisodeRecord, EpisodeError, database, deserialization, Database, insert, recent,
  find_similar_goals, delete,
}
use xola.Memory.EpisodicLog.Roundtrip.{record_of}

pub data Call (Value Uuid : Type 0) : Type 0 where
  insertion : EpisodeInput Value → Call Value Uuid
  newest : ℕ → Call Value Uuid
  search : String → ℕ → Call Value Uuid
  deletion : Uuid → Call Value Uuid

pub data Reply (Value Uuid Time : Type 0) : Type 0 where
  new_id : Uuid → Reply Value Uuid Time
  episodes : List (EpisodeRecord Value Uuid Time) → Reply Value Uuid Time
  deleted : Bool → Reply Value Uuid Time

abbrev pub replied : {E A B : Type 0} → (A → B) → Exit E A → Exit E B
replied f (ok a) = ok (f a)
replied f (err e) = err e
replied f panic = panic

module _ {Value Uuid Time : Type 0} (serde : Serde Value) (same : ℕ → ℕ → Bool)
    (same_id : Uuid → Uuid → Bool) where
  -- What a call on a log replies, and the log that it leaves. A call may find the database unavailable,
  -- and an insertion its steps impossible to write.
  pub data Does (l : List (EpisodeRecord Value Uuid Time))
      : Call Value Uuid
        → Exit EpisodeError (Reply Value Uuid Time)
        → List (EpisodeRecord Value Uuid Time)
        → Type 0 where
    inserts :
        (ep : EpisodeInput Value) (id : Uuid) (at : Time)
        → Does l (insertion ep) (ok (new_id id)) (record_of serde id at ep ∷ l)
    lists : (limit : ℕ) → Does l (newest limit) (ok (episodes (take limit l))) l
    searches :
        (keyword : String) (limit : ℕ)
        → Does l
            (search keyword limit)
            (ok (episodes (take limit (filter (λ r. contains same keyword r.task_goal) l))))
            l
    deletes :
        (id : Uuid)
        → Does l
            (deletion id)
            (ok (deleted (ltb 0 (length (filter (λ r. same_id id r.id) l)))))
            (filter (λ r. not (same_id id r.id)) l)
    unavailable : {call : Call Value Uuid} (e : String) → Does l call (err (database e)) l
    unwritten :
        (ep : EpisodeInput Value) (e : String) → Does l (insertion ep) (err (deserialization e)) l
    panics : {call : Call Value Uuid} → Does l call panic l

  -- The replies to a sequence of calls, and the log that they leave.
  pub data Follows
      : List (EpisodeRecord Value Uuid Time)
        → List (Call Value Uuid)
        → List (Exit EpisodeError (Reply Value Uuid Time))
        → List (EpisodeRecord Value Uuid Time)
        → Type 0 where
    none_left : {l : List (EpisodeRecord Value Uuid Time)} → Follows l [] [] l
    next :
        {l m n : List (EpisodeRecord Value Uuid Time)} {call : Call Value Uuid}
        {calls : List (Call Value Uuid)} {reply : Exit EpisodeError (Reply Value Uuid Time)}
        {replies : List (Exit EpisodeError (Reply Value Uuid Time))}
        → Does l call reply m
        → Follows m calls replies n
        → Follows l (call ∷ calls) (reply ∷ replies) n

module _ {Value Uuid Time World : Type 0} (serde : Serde Value)
    (db : Database Value Uuid Time World) where
  -- A call of the code.
  unfoldable pub perform :
      Call Value Uuid → World → Exit EpisodeError (Reply Value Uuid Time) × World
  unfolding insert recent find_similar_goals delete
  perform (insertion ep) w = let (r, w') = insert serde db ep w in (replied new_id r, w')
  perform (newest limit) w = let (r, w') = recent serde db limit w in (replied episodes r, w')
  perform (search keyword limit) w =
      let (r, w') = find_similar_goals serde db keyword limit w in (replied episodes r, w')
  perform (deletion id) w = let (r, w') = delete serde db id w in (replied deleted r, w')

  unfoldable pub perform_all :
      List (Call Value Uuid) → World → List (Exit EpisodeError (Reply Value Uuid Time)) × World
  unfolding perform
  perform_all [] w = ([], w)
  perform_all (call ∷ calls) w =
      let (reply, w') = perform call w in
      let (replies, end) = perform_all calls w' in (reply ∷ replies, end)

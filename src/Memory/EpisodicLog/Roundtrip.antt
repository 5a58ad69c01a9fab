-- ===== src/Memory/EpisodicLog/Roundtrip.antt =====
-- What is inserted into the log is what is read from it (runtime/src/memory/episodic_log.rs).
use text.Mathlib.Text.{◌==◌}
use text.Mathlib.TextEquality.{eq_iff}
use xola.Base.{◌≡◌, ◌↔◌, refl, ap, ◌∙◌, String, List, Exit, ok, err, panic, Bool-cases, inl, inr}
use xola.Memory.EpisodicLog.{Outcome, success, failure, as_str, TaskStep, EpisodeInput}
use xola.Memory.EpisodicLog.Rows.{
  from_str, Serde, Columns, RawEpisodeRow, EpisodeRecord, bound, columns, mapped, map_episode_row,
}

-- A text is read as an outcome just when it is what that outcome is written as.
pub from_str-as_str : (s : String) (o : Outcome) → (from_str s ≡ ok o) ↔ (s ≡ as_str o)
unfolding from_str
from_str-as_str s o = (reads s o, λ e. rw e (written o))
  where
    written : (o : Outcome) → from_str (as_str o) ≡ ok o
    written success = refl
    written failure = refl

    reads : (s : String) (o : Outcome) → from_str s ≡ ok o → s ≡ as_str o
    reads s o e = elim (Bool-cases (s == "success")) [
      | inl hit ↦
          let same : success ≡ o = cc (rw hit at e) in (eq_iff s "success").0 hit ∙ ap as_str same
      | inr miss ↦ elim (Bool-cases (s == "failure")) [
        | inl hit ↦
            let same : failure ≡ o = cc (rw (miss, hit) at e) in
            (eq_iff s "failure").0 hit ∙ ap as_str same
        | inr never ↦ cc (rw (miss, never) at e)
      ]
    ]

module _ {Value Uuid Time : Type 0} (serde : Serde Value) where
  -- The record of an episode under an id, at a time.
  abbrev pub record_of : Uuid → Time → EpisodeInput Value → EpisodeRecord Value Uuid Time
  record_of id at ep = record {
    id = id;
    task_goal = ep.task_goal;
    steps = ep.steps;
    outcome = ep.outcome;
    error = ep.error;
    duration_ms = ep.duration_ms;
    created_at = at;
  }

  abbrev pub row_of : Uuid → Time → Columns Value → RawEpisodeRow Value Uuid Time
  row_of id at c = record { id = id; columns = c; created_at = at }

  -- The values that an insertion binds for an episode, in a row with any id and time, are mapped to a
  -- record of that episode: if the serialisation of steps is read back as it was written.
  pub map_episode_row-columns :
      ((steps : List (TaskStep Value)) (v : Value)
        → serde.to_value steps ≡ ok v
        → serde.from_value v ≡ ok steps)
      → (ep : EpisodeInput Value) (c : Columns Value) (id : Uuid) (at : Time)
      → columns serde ep ≡ ok c
      → map_episode_row serde (row_of id at c) ≡ ok (record_of id at ep)
  unfolding columns map_episode_row
  map_episode_row-columns law ep c id at e = by_value (serde.to_value ep.steps) refl e
    where
      by_value :
          (written : Exit String Value)
          → serde.to_value ep.steps ≡ written
          → bound serde ep written ≡ ok c
          → mapped serde (row_of id at c) (from_str c.outcome) (serde.from_value c.steps)
            ≡ ok (record_of id at ep)
      by_value (ok v) written q =
          let same : c ≡ record {
            task_goal = ep.task_goal;
            steps = v;
            outcome = as_str ep.outcome;
            error = ep.error;
            duration_ms = ep.duration_ms;
          } =
            cc in
          rw (same, law ep.steps v written, (from_str-as_str (as_str ep.outcome) ep.outcome).1 refl)
            refl
      by_value (err x) written q = cc
      by_value panic written q = cc

-- ===== src/Memory/EpisodicLog/Table.antt =====
-- The table of the log as PostgreSQL keeps it (runtime/src/memory/episodic_log.rs): what the four statements
-- do with its rows, the newest first.
use xola.Base.{
  ℕ, zero, suc, ◌≡◌, refl, ap, ◌∙◌, Bool, not, String, List, [], ◌∷◌, take, filter, length, Exit,
  ok, err, panic, Bool-cases, inl, inr,
}
use xola.Memory.EpisodicLog.{Outcome, TaskStep}
use xola.Memory.EpisodicLog.Search.{tokens}
use xola.Memory.EpisodicLog.Matching.{matches}
use xola.Memory.EpisodicLog.Rows.{
  Serde, Columns, RawEpisodeRow, EpisodeRecord, Database, from_str, mapped, map_episode_row,
  map_rows,
}
use xola.Memory.EpisodicLog.Roundtrip.{row_of}

module _ {Value Uuid Time World : Type 0} (serde : Serde Value)
    (db : Database Value Uuid Time World) (rows : World → List (RawEpisodeRow Value Uuid Time))
    (same : ℕ → ℕ → Bool) (same_id : Uuid → Uuid → Bool) where
  -- A row that is inserted is the newest.
  abbrev pub Inserted : Columns Value → World → Exit String Uuid × World → Type 0
  Inserted c w (ok id, w') = (at : Time) × (rows w' ≡ row_of serde id at c ∷ rows w)
  Inserted c w (err e, w') = rows w' ≡ rows w
  Inserted c w (panic, w') = rows w' ≡ rows w

  -- The first rows of those that are asked for are returned.
  abbrev pub Selected :
      ℕ
      → List (RawEpisodeRow Value Uuid Time)
      → World
      → Exit String (List (RawEpisodeRow Value Uuid Time)) × World
      → Type 0
  Selected limit asked w (ok found, w') = (found ≡ take limit asked) × (rows w' ≡ rows w)
  Selected limit asked w (err e, w') = rows w' ≡ rows w
  Selected limit asked w (panic, w') = rows w' ≡ rows w

  -- The rows of this id are taken away, and counted.
  abbrev pub Deleted : Uuid → World → Exit String ℕ × World → Type 0
  Deleted id w (ok n, w') =
      (n ≡ length (filter (λ row. same_id id row.id) (rows w)))
      × (rows w' ≡ filter (λ row. not (same_id id row.id)) (rows w))
  Deleted id w (err e, w') = rows w' ≡ rows w
  Deleted id w (panic, w') = rows w' ≡ rows w

  pub record IsTable : Type 0 where
    pub inserts : (c : Columns Value) (w : World) → Inserted c w (db.insert_row c w)
    pub lists : (limit : ℕ) (w : World) → Selected limit (rows w) w (db.newest limit w)
    pub searches :
        (pattern : String) (limit : ℕ) (w : World)
        → Selected limit
            (filter (λ row. matches same (tokens pattern) row.columns.task_goal) (rows w))
            w
            (db.newest_like pattern limit w)
    pub deletes : (id : Uuid) (w : World) → Deleted id w (db.delete_row id w)

module _ {Value Uuid Time : Type 0} (serde : Serde Value) where
  -- Rows are read as these records.
  abbrev pub Read :
      List (RawEpisodeRow Value Uuid Time) → List (EpisodeRecord Value Uuid Time) → Type 0
  Read [] [] = Unit
  Read [] (r ∷ records) = ⊥
  Read (row ∷ rows) [] = ⊥
  Read (row ∷ rows) (r ∷ records) = (map_episode_row serde row ≡ ok r) × Read rows records

  pub Read-map_rows :
      (rows : List (RawEpisodeRow Value Uuid Time)) (records : List (EpisodeRecord Value Uuid Time))
      → Read rows records
      → map_rows serde rows ≡ ok records
  unfolding map_rows
  Read-map_rows [] [] h = refl
  Read-map_rows [] (r ∷ records) h = absurd h
  Read-map_rows (row ∷ rows) [] h = absurd h
  Read-map_rows (row ∷ rows) (r ∷ records) h = rw (h.0, Read-map_rows rows records h.1) refl

  pub Read-take :
      (n : ℕ) (rows : List (RawEpisodeRow Value Uuid Time))
      (records : List (EpisodeRecord Value Uuid Time))
      → Read rows records
      → Read (take n rows) (take n records)
  Read-take zero rows records h = tt
  Read-take (suc n) [] [] h = tt
  Read-take (suc n) [] (r ∷ records) h = absurd h
  Read-take (suc n) (row ∷ rows) [] h = absurd h
  Read-take (suc n) (row ∷ rows) (r ∷ records) h = (h.0, Read-take n rows records h.1)

  -- Tests that agree on a row and what it is read as keep the same.
  abbrev pub Agree :
      (RawEpisodeRow Value Uuid Time → Bool) → (EpisodeRecord Value Uuid Time → Bool) → Type 0
  Agree p q =
      (row : RawEpisodeRow Value Uuid Time) (r : EpisodeRecord Value Uuid Time)
      → map_episode_row serde row ≡ ok r
      → p row ≡ q r

  pub Read-filter :
      (p : RawEpisodeRow Value Uuid Time → Bool) (q : EpisodeRecord Value Uuid Time → Bool)
      → Agree p q
      → (rows : List (RawEpisodeRow Value Uuid Time))
        (records : List (EpisodeRecord Value Uuid Time))
      → Read rows records
      → Read (filter p rows) (filter q records)
  Read-filter p q agree [] [] h = tt
  Read-filter p q agree [] (r ∷ records) h = absurd h
  Read-filter p q agree (row ∷ rows) [] h = absurd h
  Read-filter p q agree (row ∷ rows) (r ∷ records) h = elim (Bool-cases (q r)) [
    | inl kept ↦ rw (agree row r h.0 ∙ kept, kept) (h.0, Read-filter p q agree rows records h.1)
    | inr left ↦ rw (agree row r h.0 ∙ left, left) (Read-filter p q agree rows records h.1)
  ]

  pub Read-length :
      (rows : List (RawEpisodeRow Value Uuid Time)) (records : List (EpisodeRecord Value Uuid Time))
      → Read rows records
      → length rows ≡ length records
  Read-length [] [] h = refl
  Read-length [] (r ∷ records) h = absurd h
  Read-length (row ∷ rows) [] h = absurd h
  Read-length (row ∷ rows) (r ∷ records) h = ap suc (Read-length rows records h.1)

  -- A record has the id and the goal of its row.
  pub keeps_goal :
      (row : RawEpisodeRow Value Uuid Time) (r : EpisodeRecord Value Uuid Time)
      → map_episode_row serde row ≡ ok r
      → (row.id ≡ r.id) × (row.columns.task_goal ≡ r.task_goal)
  unfolding map_episode_row mapped
  keeps_goal row r = by_parts (from_str row.columns.outcome) (serde.from_value row.columns.steps)
    where
      by_parts :
          (outcome : Exit String Outcome) (steps : Exit String (List (TaskStep Value)))
          → mapped serde row outcome steps ≡ ok r
          → (row.id ≡ r.id) × (row.columns.task_goal ≡ r.task_goal)
      by_parts (err e) steps q = cc
      by_parts panic steps q = cc
      by_parts (ok outcome) (err e) q = cc
      by_parts (ok outcome) panic q = cc
      by_parts (ok outcome) (ok steps) q =
          let same : record {
            id = row.id;
            task_goal = row.columns.task_goal;
            steps = steps;
            outcome = outcome;
            error = row.columns.error;
            duration_ms = row.columns.duration_ms;
            created_at = row.created_at;
          }
              ≡ r =
            cc in
          (
            ap (λ (s : EpisodeRecord Value Uuid Time). s.id) same,
            ap (λ (s : EpisodeRecord Value Uuid Time). s.task_goal) same,
          )

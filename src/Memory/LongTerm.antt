-- ===== src/Memory/LongTerm.antt =====
-- The memory of facts with their embeddings (runtime/src/memory/long_term.rs). The database, its
-- connections, and the types of numbers, ids and times are parameters. `debug_assert` is off, as in a
-- release build.
pub mod Dimension
mod Tests
use xola.Base.{
  ℕ, suc, ◌-◌, ◌^◌, Bool, String, List, map, length, Exit, ℤ, pos, negsuc, ◌==◌, ltb, if◌then◌else◌,
}
use xola.Base.Effects.{Act, return, fail, map_err, ◌>>=◌, ◌>>◌}

-- An error of `sqlx` is represented by its text.
pub data MemoryError : Type 0 where
  database : String → MemoryError
  dimension_mismatch : ℕ → MemoryError

abbrev pub embedding_dim : ℕ
embedding_dim = 1536

-- n as i64, for an n of `usize`
abbrev pub as_i64 : ℕ → ℤ
as_i64 n = if ltb n (2 ^ 63) then pos n else negsuc (2 ^ 64 - suc n)

-- A row that the search finds.
pub record Row (Value Uuid Time Float : Type 0) : Type 0 where
  pub id : Uuid
  pub content : String
  pub metadata : Value
  pub created_at : Time
  pub distance : Float

pub record MemoryRecord (Value Uuid Time Float : Type 0) : Type 0 where
  pub id : Uuid
  pub content : String
  pub metadata : Value
  pub created_at : Time
  pub distance : Float

-- The statements, on tables that are a part of the world. A search is made on a connection, and it
-- has a limit.
pub record Postgres (Value Uuid Time Float Pool Conn World : Type 0) : Type 0 where
  pub insert_memory : Pool → String → List Float → Value → World → Exit String Uuid × World
  pub acquire : Pool → World → Exit String Conn × World
  pub set_probes : Conn → ℕ → World → Exit String (Unit {0}) × World
  pub nearest :
      Conn → List Float → ℤ → World → Exit String (List (Row Value Uuid Time Float)) × World
  pub delete_memory : Pool → Uuid → World → Exit String ℕ × World

pub record LongTermMemory (Pool : Type 0) : Type 0 where
  pub pool : Pool
  pub ivfflat_probes : ℕ

module _ {Pool : Type 0} where
  abbrev pub new : Pool → LongTermMemory Pool
  new pool = record { pool = pool; ivfflat_probes = 10 }

  abbrev pub with_probes : ℕ → LongTermMemory Pool → LongTermMemory Pool
  with_probes probes m = record m { ivfflat_probes = probes }

module _ {World : Type 0} where
  -- The guard of `store` and of `query`.
  unfoldable pub check_dimension : {Float : Type 0} → List Float → Act World MemoryError (Unit {0})
  check_dimension embedding =
      if length embedding == embedding_dim
      then return tt
      else fail (dimension_mismatch (length embedding))

module _ {Value Uuid Time Float : Type 0} where
  abbrev pub record_of : Row Value Uuid Time Float → MemoryRecord Value Uuid Time Float
  record_of row = record {
    id = row.id;
    content = row.content;
    metadata = row.metadata;
    created_at = row.created_at;
    distance = row.distance;
  }

module _ {Value Uuid Time Float Pool Conn World : Type 0}
    (postgres : Postgres Value Uuid Time Float Pool Conn World) (m : LongTermMemory Pool) where
  unfoldable pub store : String → List Float → Value → Act World MemoryError Uuid
  unfolding check_dimension
  store content embedding metadata = do
    check_dimension embedding
    map_err database (postgres.insert_memory m.pool content embedding metadata)

  -- The search, on one connection.
  unfoldable pub records_on :
      List Float → ℕ → Conn → Act World MemoryError (List (MemoryRecord Value Uuid Time Float))
  records_on embedding top_k conn = do
    map_err database (postgres.set_probes conn m.ivfflat_probes)
    rows ← map_err database (postgres.nearest conn embedding (as_i64 top_k))
    return (map record_of rows)

  unfoldable pub query :
      List Float → ℕ → Act World MemoryError (List (MemoryRecord Value Uuid Time Float))
  unfolding check_dimension records_on
  query embedding top_k = do
    check_dimension embedding
    conn ← map_err database (postgres.acquire m.pool)
    records_on embedding top_k conn

  unfoldable pub delete : Uuid → Act World MemoryError Bool
  delete id = do
    rows_affected ← map_err database (postgres.delete_memory m.pool id)
    return (ltb 0 rows_affected)

-- ===== src/Memory/LongTerm/Dimension.antt =====
-- The check on the dimension of an embedding (runtime/src/memory/long_term.rs).
use xola.Base.{
  ℕ, ◌≡◌, ◌≢◌, ◌↔◌, refl, sym, ◌∙◌, false, String, List, map, length, Exit, ok, err, panic, ◌==◌,
  ==_iff, arith, Bool-cases, inl, inr,
}
use xola.Base.Effects.{Act, return, renamed, map_err, continue, ◌>>=◌, ◌>>◌}
use xola.Memory.LongTerm.{
  MemoryError, database, dimension_mismatch, embedding_dim, Postgres, LongTermMemory,
  check_dimension, store, query, records_on, record_of, as_i64,
}

other_number : (a b : ℕ) → (a == b) ≡ false → a ≢ b
other_number a b h = ground arith

module _ {World : Type 0} where
  -- An action that never fails for the sake of a dimension.
  abbrev NoMismatch : {A : Type 0} → Act World MemoryError A → Type 0
  NoMismatch {A} action = (n : ℕ) (w w' : World) → action w ≢ (err (dimension_mismatch n), w')

  map_err-NoMismatch : {A : Type 0} (call : Act World String A) → NoMismatch (map_err database call)
  map_err-NoMismatch {A = A} call n w w' = by_result (call w)
    where
      by_result :
          (r : Exit String A × World) → renamed database r ≢ (err (dimension_mismatch n), w')
      by_result (ok a, v) q = cc
      by_result (err e, v) q = cc
      by_result (panic, v) q = cc

  return-NoMismatch : {A : Type 0} (a : A) → NoMismatch (return {World = World} a)
  return-NoMismatch a n w w' q = cc

  then-NoMismatch :
      {A B : Type 0} (action : Act World MemoryError A) (rest : A → Act World MemoryError B)
      → NoMismatch action
      → ((a : A) → NoMismatch (rest a))
      → NoMismatch (action >>= rest)
  then-NoMismatch {A = A} action rest first later n w w' = by_result (action w) (first n w)
    where
      by_result :
          (r : Exit MemoryError A × World)
          → ((v : World) → r ≢ (err (dimension_mismatch n), v))
          → continue r rest ≢ (err (dimension_mismatch n), w')
      by_result (ok a, v) h q = later a n v w' q
      by_result (err e, v) h q = h v cc
      by_result (panic, v) h q = cc

  same_mismatch :
      {A : Type 0} (d n : ℕ) (w w' : World)
      → ◌≡◌ {A = Exit MemoryError A × World}
          (err (dimension_mismatch d), w)
          (err (dimension_mismatch n), w')
      → (d ≡ n) × (w ≡ w')
  same_mismatch d n w w' q = (cc, cc)

  guarded_mismatch :
      {A Float : Type 0} (embedding : List Float) (rest : Act World MemoryError A) (n : ℕ)
      (w w' : World)
      → NoMismatch rest
      → ((check_dimension embedding >> rest) w ≡ (err (dimension_mismatch n), w'))
        ↔ ((length embedding ≡ n) × (n ≢ embedding_dim) × (w' ≡ w))
  unfolding check_dimension
  guarded_mismatch embedding rest n w w' quiet =
      elim (Bool-cases (length embedding == embedding_dim)) [
        | inl fits ↦ (
          λ q. absurd (quiet n w w' (rw fits at q)),
          λ (at, other, same).
              absurd (other (sym at ∙ (==_iff (length embedding) embedding_dim).0 fits)),
        )
        | inr differs ↦ (
          λ q.
              let (at, same) = same_mismatch (length embedding) n w w' (rw differs at q) in
              (at, (λ z. other_number (length embedding) embedding_dim differs (at ∙ z)), sym same),
          λ (at, other, same). rw differs (rw (at, same) refl),
        )
      ]

module _ {Value Uuid Time Float Pool Conn World : Type 0}
    (postgres : Postgres Value Uuid Time Float Pool Conn World) (m : LongTermMemory Pool) where
  records_on-NoMismatch :
      (embedding : List Float) (top_k : ℕ) (conn : Conn)
      → NoMismatch (records_on postgres m embedding top_k conn)
  unfolding records_on
  records_on-NoMismatch embedding top_k conn =
      then-NoMismatch (map_err database (postgres.set_probes conn m.ivfflat_probes)) _
        (map_err-NoMismatch (postgres.set_probes conn m.ivfflat_probes))
        λ done.
          then-NoMismatch (map_err database (postgres.nearest conn embedding (as_i64 top_k))) _
            (map_err-NoMismatch (postgres.nearest conn embedding (as_i64 top_k)))
            λ rows. return-NoMismatch (map record_of rows)

  -- A store and a query fail for the sake of a dimension exactly when the embedding has another number of
  -- entries than 1536, which is the number that they report, and they then leave the world, the database
  -- included, as it was. No failure of the database is reported as one of a dimension.
  pub dimension_mismatch_iff :
      (content : String) (embedding : List Float) (metadata : Value) (top_k n : ℕ) (w w' : World)
      → ((store postgres m content embedding metadata w ≡ (err (dimension_mismatch n), w'))
          ↔ ((length embedding ≡ n) × (n ≢ embedding_dim) × (w' ≡ w)))
        × ((query postgres m embedding top_k w ≡ (err (dimension_mismatch n), w'))
            ↔ ((length embedding ≡ n) × (n ≢ embedding_dim) × (w' ≡ w)))
  unfolding store query
  dimension_mismatch_iff content embedding metadata top_k n w w' = (
    guarded_mismatch embedding _ n w w'
        (map_err-NoMismatch (postgres.insert_memory m.pool content embedding metadata)),
    guarded_mismatch embedding _ n w w' (
        then-NoMismatch (map_err database (postgres.acquire m.pool)) _
          (map_err-NoMismatch (postgres.acquire m.pool)) (records_on-NoMismatch embedding top_k)),
  )

-- ===== src/Memory/LongTerm/Tests.antt =====
-- Tests of runtime/src/memory/long_term.rs, and the theorem at a concrete database, whose world is the
-- number of the statements that it has run.
use xola.Base.{ℕ, zero, suc, ◌≡◌, ◌≢◌, ◌↔◌, refl, List, [], ◌∷◌, length, ok, err, false}
use xola.Memory.LongTerm.{
  dimension_mismatch, embedding_dim, Postgres, LongTermMemory, new, with_probes, store, query,
  delete,
}
use xola.Memory.LongTerm.Dimension.{dimension_mismatch_iff}

-- An embedding of numbers in place of floats, with entries that are all the same.
abbrev repeated : ℕ → ℕ → List ℕ
repeated zero x = []
repeated (suc n) x = x ∷ repeated n x

abbrev sample_db : Postgres ℕ ℕ ℕ ℕ ℕ ℕ ℕ
sample_db = record {
  insert_memory = λ pool content embedding metadata w. (ok 40, suc w);
  acquire = λ pool w. (ok pool, suc w);
  set_probes = λ conn probes w. (ok tt, suc w);
  nearest = λ conn embedding limit w. (ok [], suc w);
  delete_memory = λ pool id w. (ok 0, suc w);
}

abbrev memory : LongTermMemory ℕ
memory = with_probes 100 (new 1)

-- A query for nothing is sent to the database.
asks_for_nothing : query sample_db memory (repeated 1536 1) 0 5 ≡ (ok [], 8)
unfolding query
asks_for_nothing = refl

stores : store sample_db memory "memory A" (repeated 1536 1) 7 5 ≡ (ok 40, 6)
unfolding store
stores = refl

nothing_deleted : delete sample_db memory 40 5 ≡ (ok false, 6)
unfolding delete
nothing_deleted = refl

dimension_mismatch_iff_example :
    ((store sample_db memory "short" (repeated 512 1) 7 5 ≡ (err (dimension_mismatch 512), 5))
      ↔ ((length (repeated 512 1) ≡ 512) × (512 ≢ embedding_dim) × (◌≡◌ {A = ℕ} 5 5)))
    × ((query sample_db memory (repeated 512 1) 3 5 ≡ (err (dimension_mismatch 512), 5))
        ↔ ((length (repeated 512 1) ≡ 512) × (512 ≢ embedding_dim) × (◌≡◌ {A = ℕ} 5 5)))
dimension_mismatch_iff_example =
    dimension_mismatch_iff sample_db memory "short" (repeated 512 1) 7 3 512 5 5

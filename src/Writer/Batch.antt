-- ===== src/Writer/Batch.antt =====
-- mongo_writer.go: `ApplyBatch`, one bulk write for each collection, over any server.
pub mod Group
pub mod Effect
pub mod Tables
pub mod Redelivery
pub mod Drift
pub mod Deletes
pub mod Skips
use public_pg2mongo_cd_c.Base.{ℕ, ◌-◌, String, Bool, true, false, Option, none, some, ℤ}
use public_pg2mongo_cd_c.Base.{List, [], ◌∷◌, ◌++◌, length, ltb, eqb, ◌&&◌, if◌then◌else◌}
use public_pg2mongo_cd_c.Base.{Dict, lookup, insert}
use public_pg2mongo_cd_c.Writer.{
  CdcEvent, BuildError, BuildResult, ok, err, WriteModel, build_write_op,
}
use public_pg2mongo_cd_c.Writer.{to_mongo_model}
use public_pg2mongo_cd_c.Writer.Server.{
  Server, BulkReply, done, failed, DriverError, BulkException, Counts, acked_count, duplicate_key,
}

-- `bulkwrite table n`: the error names the collection and the number of models.
pub data WriterError : Type 0 where
  build_failed : BuildError → WriterError
  bulk_failed : String → ℕ → DriverError → WriterError

-- `MongoWriter`; `on_skip` says whether the callback is set.
pub record MongoWriter : Type 0 where
  pub schema_version : ℤ
  pub on_skip : Bool

abbrev all_duplicates : List ℕ → Bool
all_duplicates [] = true
all_duplicates (code ∷ codes) = eqb code duplicate_key && all_duplicates codes

abbrev only_duplicates : List ℕ → Bool
only_duplicates [] = false
only_duplicates (code ∷ codes) = all_duplicates (code ∷ codes)

-- `allDuplicateKey`
unfoldable pub all_duplicate_key : DriverError → Bool
all_duplicate_key e = elim e.bulk [ none ↦ false | some b ↦ only_duplicates b.codes ]

-- The models of one collection, in the order of their events.
abbrev pub models_of : Option (List WriteModel) → List WriteModel
models_of none = []
models_of (some ms) = ms

abbrev pub add_model : String → WriteModel → Dict (List WriteModel) → Dict (List WriteModel)
add_model table m groups = insert table (models_of (lookup table groups) ++ m ∷ []) groups

pub data Grouped : Type 0 where
  groups : Dict (List WriteModel) → Grouped
  failed_build : BuildError → Grouped

-- The first loop of `ApplyBatch`.
unfoldable pub group_events : ℤ → List CdcEvent → Dict (List WriteModel) → Grouped
group_events ver [] d = groups d
group_events ver (ev ∷ evs) d = elim (build_write_op ev ver) [
  | err e ↦ failed_build e
  | ok op ↦ group_events ver evs (add_model ev.table (to_mongo_model op) d)
]

module _ (S : Server) where
  -- The server, and the calls of `onSkip` so far.
  pub record World : Type 0 where
    pub store : S.State
    pub skips : List (String × ℕ)

  unfoldable pub record_skip : MongoWriter → String → ℕ → World → World
  record_skip m table n w =
      if m.on_skip && ltb 0 n then record w { skips = w.skips ++ (table, n) ∷ [] } else w

  abbrev skipped : List WriteModel → Counts → ℕ
  skipped models n = length models - acked_count n

  -- What `bulkWriteTable` does with the answer; spans are left out.
  abbrev after_bulk :
      MongoWriter → String → List WriteModel → World → BulkReply → World × Option WriterError
  after_bulk m table models w (failed e) =
      if all_duplicate_key e
      then (record_skip m table (length models) w, none)
      else (w, some (bulk_failed table (length models) e))
  after_bulk m table models w (done none) = (w, none)
  after_bulk m table models w (done (some n)) =
      if ltb 0 (skipped models n)
      then (record_skip m table (skipped models n) w, none)
      else (w, none)

  unfoldable pub bulk_write_table :
      MongoWriter → String → List WriteModel → World → World × Option WriterError
  bulk_write_table m table models w =
      let r = S.bulk_write w.store table models in
      after_bulk m table models (record w { store = r.0 }) r.1

  -- The second loop of `ApplyBatch`: the first error ends it.
  unfoldable pub write_tables :
      MongoWriter → Dict (List WriteModel) → World → World × Option WriterError
  write_tables m [] w = (w, none)
  write_tables m ((table, models) ∷ d) w =
      let r = bulk_write_table m table models w in
      let rest = write_tables m d r.0 in elim r.1 [ none ↦ rest | some e ↦ (r.0, some e) ]

  abbrev write_grouped :
      (Dict (List WriteModel) → Dict (List WriteModel))
      → MongoWriter
      → Grouped
      → World
      → World × Option WriterError
  write_grouped range m (failed_build e) w = (w, some (build_failed e))
  write_grouped range m (groups d) w = write_tables m (range d) w

  -- `range` is the order in which the run-time visits the map.
  unfoldable pub apply_batch :
      (Dict (List WriteModel) → Dict (List WriteModel))
      → MongoWriter
      → List CdcEvent
      → World
      → World × Option WriterError
  apply_batch range m [] w = (w, none)
  apply_batch range m (ev ∷ evs) w =
      write_grouped range m (group_events m.schema_version (ev ∷ evs) []) w

  -- `Apply`
  unfoldable pub apply :
      (Dict (List WriteModel) → Dict (List WriteModel))
      → MongoWriter
      → CdcEvent
      → World
      → World × Option WriterError
  apply range m ev w = apply_batch range m (ev ∷ []) w

-- ===== src/Writer/Batch/Skips.antt =====
-- The count of skipped events that `bulkWriteTable` hands to `onSkip`.
use public_pg2mongo_cd_c.Base.{ℕ, suc, ◌+◌, ◌-◌, String, true, some, ◌≡◌, refl, ap}
use public_pg2mongo_cd_c.Base.{List, [], ◌∷◌, ◌++◌, length, ltb, if◌then◌else◌, arith}
use mathlib.Core.List.{Permᴰ}
use public_pg2mongo_cd_c.Base.Perms.{length-perm}
use public_pg2mongo_cd_c.Writer.{WriteModel}
use public_pg2mongo_cd_c.Writer.Server.{
  Server, IsLawful, OpReply, matched, upserted, deleted, unmatched, write_error, run_models,
  run_each, done, failed, DriverError, Counts, acked, acked_count, tried_all,
}
use public_pg2mongo_cd_c.Writer.Batch.{
  MongoWriter, World, bulk_write_table, record_skip, all_duplicate_key, after_bulk,
}
use mathlib.Core.List.{append-nil}

-- The replies that acknowledge no write: the filter matched nothing, or the insert collided.
abbrev pub refused : List OpReply → ℕ
refused [] = 0
refused (unmatched ∷ rs) = suc (refused rs)
refused (write_error _ ∷ rs) = suc (refused rs)
refused (_ ∷ rs) = refused rs

refused-acked : (rs : List OpReply) → refused rs + acked rs ≡ length rs
refused-acked [] = omega arith
refused-acked (matched ∷ rs) = omega (arith, refused-acked rs)
refused-acked (upserted ∷ rs) = omega (arith, refused-acked rs)
refused-acked (deleted ∷ rs) = omega (arith, refused-acked rs)
refused-acked (unmatched ∷ rs) = omega (arith, refused-acked rs)
refused-acked (write_error c ∷ rs) = omega (arith, refused-acked rs)

length-run_models :
    (S : Server) (s : S.State) (c : String) (ms : List WriteModel)
    → length (run_models S s c ms).1 ≡ length ms
unfolding run_each
length-run_models S s c [] = refl
length-run_models S s c (m ∷ ms) = ap suc (length-run_models S _ c ms)

-- The skips of a log entry that the callback gets, none for a count of 0.
abbrev pub skip_entry : String → ℕ → List (String × ℕ)
skip_entry table n = if ltb 0 n then (table, n) ∷ [] else []

module _ (S : Server) (L : IsLawful S) (m : MongoWriter) (hook : m.on_skip ≡ true) where
  record_skip-entry :
      (table : String) (n : ℕ) (w : World S)
      → (record_skip S m table n w).skips ≡ w.skips ++ skip_entry table n
  unfolding record_skip
  record_skip-entry table n w = rw hook (ground (arith, append-nil w.skips))

  after_done-skips :
      (table : String) (models : List WriteModel) (w : World S) (n : Counts)
      → (after_bulk S m table models w (done (some n))).0.skips
        ≡ w.skips ++ skip_entry table (length models - acked_count n)
  after_done-skips table models w n =
      ground (arith, append-nil w.skips, record_skip-entry table (length models - acked_count n) w)

  after_failed-skips :
      (table : String) (models : List WriteModel) (w : World S) (e : DriverError)
      → all_duplicate_key e ≡ true
      → (after_bulk S m table models w (failed e)).0.skips
        ≡ w.skips ++ skip_entry table (length models)
  after_failed-skips table models w e d = rw d (record_skip-entry table (length models) w)

  duplicates-tried : (e : DriverError) → all_duplicate_key e ≡ true → tried_all (failed e) ≡ true
  unfolding all_duplicate_key
  duplicates-tried e d = ground arith

  lengths :
      {order models : List WriteModel} (s : S.State) (table : String)
      → Permᴰ order models
      → let rs = (run_models S s table order).1 in refused rs + acked rs ≡ length models
  lengths {order} s table p = omega (
    arith,
    refused-acked (run_models S s table order).1,
    length-run_models S s table order,
    length-perm p,
  )

  -- When a bulk write succeeds and the callback is set, the callback gets the exact number of
  -- models that a lawful server refused, and is not called where that is 0.
  pub bulk_write_table-skips :
      (table : String) (models : List WriteModel) (w : World S) (n : Counts)
      → (S.bulk_write w.store table models).1 ≡ done (some n)
      → (order : List WriteModel) × Permᴰ order models
        × ((bulk_write_table S m table models w).0.skips
            ≡ w.skips ++ skip_entry table (refused (run_models S w.store table order).1))
  unfolding bulk_write_table
  bulk_write_table-skips table models w n e =
      let (order, p, _, t) = L.bulk_write-run w.store table models (rw e) in
      let missed : refused (run_models S w.store table order).1 ≡ length models - acked_count n =
        omega (arith, lengths w.store table p, (rw e at t).1) in
      (order, p, rw (missed, e) (after_done-skips table models _ n))

-- ===== src/Tests/WriterTests.antt =====
-- The writer: runs over the in-memory server, and its theorems at concrete events.
use mathlib.Core.List.{Permᴰ}
use public_pg2mongo_cd_c.Writer.Batch.Deletes.{ForDoc, sent, delete_then_stale, redelivered_tail}
use public_pg2mongo_cd_c.Base.{ℕ, String, true, false, none, some, pos, ◌≡◌, refl, str_dec}
use public_pg2mongo_cd_c.Base.{
  List, [], ◌∷◌, ◌++◌, if◌then◌else◌, ◌==◌, ◌&&◌, arith, All, inl, inr, lookup, insert,
}
use public_pg2mongo_cd_c.Value.{int, str, Fields, end, field, get, put, copy}
use public_pg2mongo_cd_c.Writer.{
  CdcEvent, ok, after_required, build_write_op, delete_op, upsert_op, set_fields, to_mongo_model,
  doc_id,
}
use public_pg2mongo_cd_c.Writer.Gate.{Doc, gate, overlay, blank}
use public_pg2mongo_cd_c.Writer.Exec.{row, exec-gate, IsNative, IsPlain}
use public_pg2mongo_cd_c.Writer.Server.{is_plain, run_each, DriverError}
use public_pg2mongo_cd_c.Writer.Batch.{
  MongoWriter, World, apply_batch, group_events, write_tables, bulk_write_table, record_skip,
  all_duplicate_key, build_failed,
}
use public_pg2mongo_cd_c.Writer.Batch.Tables.{IsRange, Moved, apply_batch-Moved}
use public_pg2mongo_cd_c.Writer.Batch.Group.{of_table, model_of}
use public_pg2mongo_cd_c.Writer.Batch.Redelivery.{
  apply_batch_stale, apply_batch_redelivered, apply_batch_converges, apply_batch_unbuildable,
}
use public_pg2mongo_cd_c.Writer.Batch.Effect.{Native}
use public_pg2mongo_cd_c.Writer.Batch.Skips.{bulk_write_table-skips, refused, skip_entry}
use public_pg2mongo_cd_c.Base.{Bool-cases}
use public_pg2mongo_cd_c.Writer.{WriteModel}
use public_pg2mongo_cd_c.Writer.Server.{run_models}
use public_pg2mongo_cd_c.Writer.Exec.{view}
use public_pg2mongo_cd_c.Tests.Memory.{
  memory, matches, op_matches, updated, lay, find, checked, store, exec, bulk_write, tally,
  reply_of, Docs,
}
use public_pg2mongo_cd_c.Tests.Memory.Laws.{memory-IsLawful}

abbrev pub event : String → ℕ → String → CdcEvent
event pk lsn name = record {
  table = "users";
  pk = pk;
  lsn = pos lsn;
  source_ts_ms = pos 0;
  op = "u";
  after = some (field "name" (str name) end);
  before = none;
}

abbrev removal : String → ℕ → CdcEvent
removal pk lsn = record {
  table = "users";
  pk = pk;
  lsn = pos lsn;
  source_ts_ms = pos 0;
  op = "d";
  after = none;
  before = none;
}

abbrev pub no_docs : Docs
no_docs c id = none

abbrev pub writer : MongoWriter
writer = record { schema_version = pos 1; on_skip = true }

abbrev pub same_order {ℓ} : {A : Type ℓ} → A → A
same_order d = d

abbrev pub start : World memory
start = record { store = no_docs; skips = [] }

run : List CdcEvent → World memory
unfolding apply_batch group_events write_tables bulk_write_table record_skip all_duplicate_key
    build_write_op delete_op upsert_op set_fields to_mongo_model put copy get matches op_matches
    updated lay find checked store exec bulk_write tally reply_of run_each str_dec lookup insert
run evs = (apply_batch memory same_order writer evs start).0

two_events :
    find (run (event "1" 5 "a" ∷ event "2" 6 "b" ∷ event "1" 4 "old" ∷ [])).store "users" "users:1"
    ≡ some (
        field "_id" (str "users:1") (
          field "schemaVersion"
            (int (pos 1))
            (field "sourceLsn" (int (pos 5)) (field "name" (str "a") end))))
unfolding run
two_events = refl

one_skip : (run (event "1" 5 "a" ∷ event "1" 4 "old" ∷ [])).skips ≡ ("users", 2) ∷ []
unfolding run
one_skip = refl

pub empty_row : (c id : String) → row memory no_docs c id ≡ none
unfolding find checked
empty_row c id = refl

pub native : Native memory memory-IsLawful (pos 1) no_docs
native c id = rw (empty_row c id) tt

plain : (pk : String) (lsn : ℕ) (name : String) → IsPlain (event pk lsn name)
unfolding is_plain str_dec
plain pk lsn name = (refl, tt)

pub same_IsRange : IsRange same_order
same_IsRange d u = (u, λ k. refl)

built : build_write_op (event "1" 5 "a") (pos 1) ≡ ok (upsert_op (event "1" 5 "a") (pos 1))
unfolding build_write_op str_dec
built = refl

exec-gate_example :
    row memory
      (memory.exec no_docs "users" (to_mongo_model (upsert_op (event "1" 5 "a") (pos 1)))).0
      "users"
      "users:1"
    ≡ (if ("users" == "users") && ("users:1" == doc_id (event "1" 5 "a"))
        then gate (pos 1) (event "1" 5 "a") (row memory no_docs "users" (doc_id (event "1" 5 "a")))
        else row memory no_docs "users" "users:1")
exec-gate_example =
    exec-gate memory memory-IsLawful (event "1" 5 "a") (pos 1) no_docs built (plain "1" 5 "a")
      (native "users" (doc_id (event "1" 5 "a"))) "users" "users:1"

fits :
    (lsn : ℕ) (name : String)
    → ForDoc memory memory-IsLawful (pos 1) "users" "users:1" (event "1" lsn name)
unfolding build_write_op str_dec
fits lsn name = ((refl, (upsert_op (event "1" lsn name) (pos 1), refl), plain "1" lsn name), refl)

fits_removal : (lsn : ℕ) → ForDoc memory memory-IsLawful (pos 1) "users" "users:1" (removal "1" lsn)
unfolding build_write_op str_dec
fits_removal lsn = ((refl, (delete_op (removal "1" lsn), refl), tt), refl)

delete_then_stale_example :
    row memory
      (sent memory memory-IsLawful
        (pos 1)
        "users"
        "users:1"
        (removal "1" 7 ∷ event "1" 4 "b" ∷ [])
        no_docs)
      "users"
      "users:1"
    ≡ some (overlay (set_fields (event "1" 4 "b") (pos 1)) (blank (doc_id (event "1" 4 "b"))))
delete_then_stale_example =
    delete_then_stale memory memory-IsLawful (pos 1) "users" "users:1" (removal "1" 7)
      (event "1" 4 "b") no_docs (fits_removal 7, (fits 4 "b", tt)) native (unfold str_dec in refl)
      (unfold str_dec in refl) (omega arith) (rw (empty_row "users" "users:1") tt)

abbrev log : List CdcEvent
log = event "1" 3 "a" ∷ event "1" 4 "b" ∷ []

abbrev tail : List CdcEvent
tail = event "1" 4 "b" ∷ []

redelivered_tail_example :
    let once =
      sent memory memory-IsLawful (pos 1) "users" "users:1" (log ++ removal "1" 7 ∷ []) no_docs in
    row memory
      (sent memory memory-IsLawful (pos 1) "users" "users:1" (tail ++ removal "1" 7 ∷ []) once)
      "users"
      "users:1"
    ≡ row memory once "users" "users:1"
redelivered_tail_example =
    redelivered_tail memory memory-IsLawful (pos 1) "users" "users:1" log tail (removal "1" 7)
      no_docs (fits 3 "a", (fits 4 "b", tt)) (fits 4 "b", tt) (fits_removal 7) native
      (empty_row "users" "users:1") (omega arith, (omega arith, tt)) (omega arith, tt)

abbrev pub unordered : List CdcEvent
unordered = event "1" 6 "b" ∷ event "2" 9 "c" ∷ event "1" 5 "a" ∷ []

no_error : (apply_batch memory same_order writer unordered start).1 ≡ none
unfolding run
no_error = refl

pub All-IsPlain : All IsPlain unordered
All-IsPlain = (plain "1" 6 "b", (plain "2" 9 "c", (plain "1" 5 "a", tt)))

apply_batch-Moved_example :
    Moved memory memory-IsLawful
      (pos 1)
      (of_table "users" unordered)
      no_docs
      (apply_batch memory same_order writer unordered start).0.store
      "users"
apply_batch-Moved_example =
    apply_batch-Moved memory memory-IsLawful same_order writer unordered start same_IsRange
      All-IsPlain native no_error "users"

apply_batch_converges_example :
    (d : Doc) × (row memory
        (apply_batch memory same_order writer unordered start).0.store
        "users"
        "users:1"
      ≡ some (overlay (set_fields (event "1" 6 "b") (pos 1)) d))
unfolding str_dec
apply_batch_converges_example =
    apply_batch_converges memory memory-IsLawful same_order writer unordered start same_IsRange
      All-IsPlain native no_error "users" "users:1" (event "1" 6 "b")
      ((refl, inr refl), ((refl, inl (omega arith)), tt)) (inl refl)
      (rw (empty_row "users" "users:1") tt)

abbrev delivered : World memory
delivered = (apply_batch memory same_order writer unordered start).0

no_error_again : (apply_batch memory same_order writer unordered delivered).1 ≡ none
unfolding run
no_error_again = refl

apply_batch_redelivered_example :
    row memory (apply_batch memory same_order writer unordered delivered).0.store "users" "users:1"
    ≡ row memory delivered.store "users" "users:1"
unfolding str_dec
apply_batch_redelivered_example =
    apply_batch_redelivered memory memory-IsLawful same_order writer unordered start same_IsRange
      All-IsPlain native no_error "users" "users:1" (event "1" 6 "b")
      ((refl, inr refl), ((refl, inl (omega arith)), tt)) (inl refl)
      (rw (empty_row "users" "users:1") tt) no_error_again

abbrev kept : Fields
kept = field "_id" (str "users:1") (field "sourceLsn" (int (pos 6)) end)

-- A server that holds one document.
abbrev one_doc : Docs
one_doc c id = if (c == "users") && (id == "users:1") then some kept else none

abbrev holding : World memory
holding = record { store = one_doc; skips = [] }

Native-one : Native memory memory-IsLawful (pos 1) one_doc
unfolding find checked get str_dec
Native-one c id = elim (Bool-cases ((c == "users") && (id == "users:1"))) [
  | inl h ↦ rw (h, checked) (kept_native id)
  | inr h ↦ rw h tt
]
  where
    kept_native : (id : String) → IsNative (view (checked id (some kept)))
    kept_native id = elim (Bool-cases ("users:1" == id)) [
      | inl h ↦ rw h (λ e. cc)
      | inr h ↦ rw h tt
    ]

apply_batch_stale_example :
    row memory (apply_batch memory same_order writer unordered holding).0.store "users" "users:1"
    ≡ row memory one_doc "users" "users:1"
unfolding run
apply_batch_stale_example =
    apply_batch_stale memory memory-IsLawful same_order writer unordered holding same_IsRange
      All-IsPlain Native-one refl "users" "users:1" (λ k. get k kept) (pos 6) refl refl
      (omega arith, (omega arith, tt))

abbrev no_after : CdcEvent
no_after = record (event "7" 9 "x") { after = none }

apply_batch_unbuildable_example :
    apply_batch memory same_order writer ((event "1" 5 "a" ∷ []) ++ no_after ∷ []) start
    ≡ (start, some (build_failed (after_required "u" (doc_id no_after))))
apply_batch_unbuildable_example =
    apply_batch_unbuildable memory same_order writer (event "1" 5 "a" ∷ []) [] no_after start
      ((upsert_op (event "1" 5 "a") (pos 1), unfold build_write_op str_dec in refl), tt)
      (unfold build_write_op str_dec in refl)

abbrev twice : List WriteModel
twice = model_of (pos 1) (event "1" 5 "a") ∷ model_of (pos 1) (event "1" 4 "old") ∷ []

abbrev collision : DriverError
collision = record {
  canceled = false;
  deadline_exceeded = false;
  net_error = none;
  bulk = some (record { codes = 11000 ∷ []; concern = false });
  server_error = none;
}

abbrev removals : List WriteModel
removals = model_of (pos 1) (removal "1" 5) ∷ model_of (pos 1) (event "2" 4 "b") ∷ []

bulk_write_table-skips_example :
    (order : List WriteModel) × Permᴰ order removals
    × ((bulk_write_table memory writer "users" removals start).0.skips
        ≡ [] ++ skip_entry "users" (refused (run_models memory no_docs "users" order).1))
unfolding run model_of
bulk_write_table-skips_example =
    bulk_write_table-skips memory memory-IsLawful writer refl "users" removals start
      (record { matched_count = 0; upserted_count = 1; deleted_count = 0 }) refl

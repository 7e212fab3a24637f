-- ===== src/Writer.antt =====
-- services/sink/internal/writer: events, the write operations built from them, and the models
-- that are handed to the Mongo driver.
pub mod Gate
pub mod Server
pub mod Exec
pub mod Replay
pub mod Reached
pub mod Journal
pub mod Newest
pub mod Batch
use public_pg2mongo_cd_c.Base.{String, ◌<>◌, Bool, true, false, Option, none, some, ℤ}
use public_pg2mongo_cd_c.Base.{◌==◌, if◌then◌else◌, ◌&&◌, not}
use public_pg2mongo_cd_c.Value.{bool, int, str, arr, obj, nil, cons, Fields, end, field}
use public_pg2mongo_cd_c.Value.{put, copy}

-- `CDCOp` is a text; these are the codes that Debezium writes.
abbrev pub op_insert : String
op_insert = "c"

abbrev pub op_update : String
op_update = "u"

abbrev pub op_delete : String
op_delete = "d"

abbrev pub op_read : String
op_read = "r"

-- `none` is a nil map.
pub record CdcEvent : Type 0 where
  pub table : String
  pub pk : String
  pub lsn : ℤ
  pub source_ts_ms : ℤ
  pub op : String
  pub after : Option Fields
  pub before : Option Fields

pub data WriteOpKind : Type 0 where
  write_op_delete write_op_upsert : WriteOpKind

pub record WriteOp : Type 0 where
  pub kind : WriteOpKind
  pub filter : Fields
  pub update : Option Fields
  pub upsert : Bool

-- The error of `BuildWriteOp`: the operation and the id that its text names.
pub data BuildError : Type 0 where
  after_required : String → String → BuildError

pub data BuildResult : Type 0 where
  ok : WriteOp → BuildResult
  err : BuildError → BuildResult

abbrev pub doc_id : CdcEvent → String
doc_id ev = ev.table <> ":" <> ev.pk

abbrev pub is_nil : Option Fields → Bool
is_nil none = true
is_nil (some _) = false

-- A range over a nil map visits nothing.
abbrev pub entries : Option Fields → Fields
entries none = end
entries (some m) = m

abbrev pub lsn_lt : ℤ → Fields → Fields
lsn_lt lsn rest = field "sourceLsn" (obj (field "$lt" (int lsn) end)) rest

abbrev pub lsn_missing : Fields
lsn_missing = field "sourceLsn" (obj (field "$exists" (bool false) end)) end

-- The document that `$set` writes.
unfoldable pub set_fields : CdcEvent → ℤ → Fields
set_fields ev schema_version =
    put "schemaVersion" (int schema_version)
      (put "sourceLsn" (int ev.lsn) (copy (entries ev.after) end))

unfoldable pub delete_op : CdcEvent → WriteOp
delete_op ev = record {
  kind = write_op_delete;
  filter = field "_id" (str (doc_id ev)) (lsn_lt ev.lsn end);
  update = none;
  upsert = false;
}

unfoldable pub upsert_op : CdcEvent → ℤ → WriteOp
upsert_op ev schema_version = record {
  kind = write_op_upsert;
  filter =
      field "_id" (str (doc_id ev))
        (field "$or" (arr (cons (obj (lsn_lt ev.lsn end)) (cons (obj lsn_missing) nil))) end);
  update = some (field "$set" (obj (set_fields ev schema_version)) end);
  upsert = true;
}

unfoldable pub build_write_op : CdcEvent → ℤ → BuildResult
build_write_op ev schema_version =
    if not (ev.op == op_delete) && is_nil ev.after
    then err (after_required ev.op (doc_id ev))
    else if ev.op == op_delete
    then ok (delete_op ev)
    else ok (upsert_op ev schema_version)

-- The two write models of the driver that the adapter makes.
pub data WriteModel : Type 0 where
  delete_one : Fields → WriteModel
  update_one : Fields → Option Fields → Bool → WriteModel

abbrev to_mongo_model_of : WriteOpKind → WriteOp → WriteModel
to_mongo_model_of write_op_delete op = delete_one op.filter
to_mongo_model_of write_op_upsert op = update_one op.filter op.update op.upsert

unfoldable pub to_mongo_model : WriteOp → WriteModel
to_mongo_model op = to_mongo_model_of op.kind op

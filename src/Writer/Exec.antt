-- ===== src/Writer/Exec.antt =====
-- One write model of `BuildWriteOp` on the server: the document with the event's id changes as
-- the gate says, and no other document changes.
use mathlib.Core.Option
use public_pg2mongo_cd_c.Base.{String, Bool, true, false, ◌&&◌, ◌||◌, Option, none, some, ℤ}
use mathlib.Core.Path.{fun_ext}
use public_pg2mongo_cd_c.Base.{
  ◌≡◌, refl, ap, ◌∙◌, ◌==◌, if◌then◌else◌, arith, str_dec, inl, inr, ◌⊎◌,
}
use public_pg2mongo_cd_c.Base.{Bool-cases, ltb_ℤ}
use public_pg2mongo_cd_c.Value.{int, str, obj, Fields, end, field, get, AllKeys}
use public_pg2mongo_cd_c.Value.Laws.{put-AllKeys, copy-AllKeys}
use public_pg2mongo_cd_c.Writer.{
  CdcEvent, op_delete, doc_id, entries, set_fields, delete_op, upsert_op, to_mongo_model,
  build_write_op, ok, lsn_lt, WriteOp,
}
use public_pg2mongo_cd_c.Writer.Gate.{
  Doc, stamp, stamp_of, foreign, at, unset, gate, gate_delete, gate_upsert, stamp_lt, is_unset,
  Stamp, overlay,
}
use public_pg2mongo_cd_c.Writer.Server.{
  OpReply, Server, IsLawful, is_plain, delete_doc, update_doc, matched, write_error, duplicate_key,
}

and-true : (b : Bool) → (b && true) ≡ b
and-true b = ground arith

or-false : (b : Bool) → (b || false) ≡ b
or-false b = ground arith

abbrev pub view : Option Fields → Option Doc
view = Option.map (λ d k. get k d)

-- No document carries a `sourceLsn` that the sink cannot have written.
abbrev pub IsNative : Option Doc → Type 0
IsNative none = Unit
IsNative (some d) = ¬ (stamp d ≡ foreign)

view-if :
    (b : Bool) (x y : Option Fields) → view (if b then x else y) ≡ (if b then view x else view y)
view-if true x y = refl
view-if false x y = refl

build-cases :
    (ev : CdcEvent) (ver : ℤ) {op : WriteOp}
    → build_write_op ev ver ≡ ok op
    → (((ev.op == op_delete) ≡ true) × (op ≡ delete_op ev))
      ⊎ (((ev.op == op_delete) ≡ false) × (op ≡ upsert_op ev ver))
unfolding build_write_op
build-cases ev ver h = ground arith

-- The column names of the event can be written by `$set`.
abbrev pub IsPlain : CdcEvent → Type 0
IsPlain ev = AllKeys is_plain (entries ev.after)

set_fields-plain : (ev : CdcEvent) (ver : ℤ) → IsPlain ev → AllKeys is_plain (set_fields ev ver)
unfolding set_fields is_plain str_dec
set_fields-plain ev ver h = put-AllKeys is_plain "schemaVersion" (int ver) _ refl (
    put-AllKeys is_plain "sourceLsn" (int ev.lsn) _ refl
      (copy-AllKeys is_plain (entries ev.after) end h tt))

-- The document of a collection and id, as the gate sees it.
abbrev pub row : (S : Server) → S.State → String → String → Option Doc
row S s c id = view (S.find s c id)

module _ (S : Server) (L : IsLawful S) where
  matches-delete :
      (ev : CdcEvent) (d : Fields)
      → get "_id" d ≡ some (str (doc_id ev))
      → ¬ (stamp_of (get "sourceLsn" d) ≡ foreign)
      → S.matches (delete_op ev).filter d ≡ stamp_lt ev.lsn (stamp_of (get "sourceLsn" d))
  unfolding delete_op
  matches-delete ev d e f =
      L.matches-id (doc_id ev) _ d e
      ∙ (L.matches-lsn_lt ev.lsn end d f ∙ rw L.matches-end (and-true _))

  matches-upsert :
      (ev : CdcEvent) (ver : ℤ) (d : Fields)
      → get "_id" d ≡ some (str (doc_id ev))
      → ¬ (stamp_of (get "sourceLsn" d) ≡ foreign)
      → S.matches (upsert_op ev ver).filter d ≡ (
          stamp_lt ev.lsn (stamp_of (get "sourceLsn" d)) || is_unset (stamp_of (get "sourceLsn" d)))
  unfolding upsert_op
  matches-upsert ev ver d e f = simp (
    L.matches-id (doc_id ev) _ d e,
    L.matches-or,
    L.matches-lsn_lt ev.lsn end d f,
    L.matches-lsn_missing d,
    L.matches-end,
    and-true,
    or-false,
  )

  delete_doc-gate :
      (ev : CdcEvent) (o : Option Fields)
      → ((d : Fields) → o ≡ some d → get "_id" d ≡ some (str (doc_id ev)))
      → IsNative (view o)
      → view (delete_doc S.matches (delete_op ev).filter o).0 ≡ gate_delete ev (view o)
  delete_doc-gate ev none e f = refl
  delete_doc-gate ev (some d) e f =
      rw (matches-delete ev d (e d refl) f)
        (ground (arith, view-if (stamp_lt ev.lsn (stamp_of (get "sourceLsn" d))) none (some d)))

  view-updated :
      (ev : CdcEvent) (ver : ℤ) (d : Fields)
      → IsPlain ev
      → view (some (S.updated (field "$set" (obj (set_fields ev ver)) end) d))
        ≡ some (overlay (set_fields ev ver) (λ k. get k d))
  view-updated ev ver d p =
      ap some (fun_ext λ k. L.get-updated (set_fields ev ver) d k (set_fields-plain ev ver p))

  update_doc-gate :
      (ev : CdcEvent) (ver : ℤ) (o : Option Fields)
      → ((d : Fields) → o ≡ some d → get "_id" d ≡ some (str (doc_id ev)))
      → IsPlain ev
      → IsNative (view o)
      → view
          (update_doc S.matches S.updated
            (doc_id ev)
            (upsert_op ev ver).filter
            (field "$set" (obj (set_fields ev ver)) end)
            o).0
        ≡ gate_upsert ver ev (view o)
  unfolding get
  update_doc-gate ev ver none e p f = view-updated ev ver (field "_id" (str (doc_id ev)) end) p
  update_doc-gate ev ver (some d) e p f =
      rw (matches-upsert ev ver d (e d refl) f) (branch (stamp_of (get "sourceLsn" d)) f)
    where
      branch :
          (st : Stamp)
          → ¬ (st ≡ foreign)
          → view
              (if◌then◌else◌ {A = Option Fields × OpReply}
                (stamp_lt ev.lsn st || is_unset st)
                (some (S.updated (field "$set" (obj (set_fields ev ver)) end) d), matched)
                (some d, write_error duplicate_key)).0
            ≡ elim st [
              | at m ↦
                  if ltb_ℤ m ev.lsn
                  then some (overlay (set_fields ev ver) (λ k. get k d))
                  else some (λ k. get k d)
              | unset ↦ some (overlay (set_fields ev ver) (λ k. get k d))
              | foreign ↦ some (λ k. get k d)
            ]
      branch unset f = view-updated ev ver d p
      branch foreign f = absurd (f refl)
      branch (at m) f = elim (Bool-cases (ltb_ℤ m ev.lsn)) [
        | inl t ↦ rw t (view-updated ev ver d p)
        | inr t ↦ rw t refl
      ]

  exec_delete-gate :
      (ev : CdcEvent) (s : S.State)
      → IsNative (row S s ev.table (doc_id ev))
      → (c id : String)
      → row S (S.exec s ev.table (to_mongo_model (delete_op ev))).0 c id ≡ (
          if (c == ev.table) && (id == doc_id ev)
          then gate_delete ev (row S s ev.table (doc_id ev))
          else row S s c id)
  unfolding to_mongo_model delete_op
  exec_delete-gate ev s f c id =
      ap view ((L.exec-delete_one s ev.table (doc_id ev) (lsn_lt ev.lsn end)).0 c id)
      ∙ (view-if ((c == ev.table) && (id == doc_id ev)) _ _
          ∙ rw (
              delete_doc-gate ev (S.find s ev.table (doc_id ev)) (L.find-id s ev.table (doc_id ev))
                f))

  exec_upsert-gate :
      (ev : CdcEvent) (ver : ℤ) (s : S.State)
      → IsPlain ev
      → IsNative (row S s ev.table (doc_id ev))
      → (c id : String)
      → row S (S.exec s ev.table (to_mongo_model (upsert_op ev ver))).0 c id ≡ (
          if (c == ev.table) && (id == doc_id ev)
          then gate_upsert ver ev (row S s ev.table (doc_id ev))
          else row S s c id)
  unfolding to_mongo_model upsert_op
  exec_upsert-gate ev ver s p f c id =
      ap view ((L.exec-update_one s ev.table (doc_id ev) _ _).0 c id)
      ∙ (view-if ((c == ev.table) && (id == doc_id ev)) _ _
          ∙ rw (
              update_doc-gate ev ver (S.find s ev.table (doc_id ev))
                (L.find-id s ev.table (doc_id ev)) p f))

  -- Sending the operation of an event with plain column names to a lawful server changes the
  -- document with the event's id as the gate says, if that document carries a number or nothing as
  -- its LSN, and changes no other document.
  pub exec-gate :
      (ev : CdcEvent) (ver : ℤ) {op : WriteOp} (s : S.State)
      → build_write_op ev ver ≡ ok op
      → IsPlain ev
      → IsNative (row S s ev.table (doc_id ev))
      → (c id : String)
      → row S (S.exec s ev.table (to_mongo_model op)).0 c id ≡ (
          if (c == ev.table) && (id == doc_id ev)
          then gate ver ev (row S s ev.table (doc_id ev))
          else row S s c id)
  unfolding gate
  exec-gate ev ver {op} s b p f c id = elim (build-cases ev ver b) [
    | inl (t, e) ↦ rw (e, t) (exec_delete-gate ev s f c id)
    | inr (t, e) ↦ rw (e, t) (exec_upsert-gate ev ver s p f c id)
  ]

-- ===== src/Writer/Gate.antt =====
-- What the sink promises of one document: the LSN gate, on documents as functions from field
-- names to values.
use public_pg2mongo_cd_c.Base.{String, Bool, true, false, Option, none, some, ℤ, ltb_ℤ}
use public_pg2mongo_cd_c.Base.{◌==◌, if◌then◌else◌, List, [], ◌∷◌}
use public_pg2mongo_cd_c.Value.{Value, int, str, Fields, get}
use public_pg2mongo_cd_c.Value.Laws.{first_some}
use public_pg2mongo_cd_c.Writer.{CdcEvent, op_delete, doc_id, set_fields}

abbrev pub Doc : Type 0
Doc = String → Option Value

-- The LSN that a document carries; `foreign` is a value that the sink never writes.
pub data Stamp : Type 0 where
  unset foreign : Stamp
  at : ℤ → Stamp

abbrev pub stamp_of : Option Value → Stamp
stamp_of none = unset
stamp_of (some (int n)) = at n
stamp_of (some _) = foreign

abbrev pub stamp : Doc → Stamp
stamp d = stamp_of (d "sourceLsn")

-- `sourceLsn < n`, false where the field is missing.
abbrev pub stamp_lt : ℤ → Stamp → Bool
stamp_lt n (at m) = ltb_ℤ m n
stamp_lt n unset = false
stamp_lt n foreign = false

abbrev pub is_unset : Stamp → Bool
is_unset unset = true
is_unset _ = false

-- The document that an upsert creates has its id and nothing else.
abbrev pub blank : String → Doc
blank id k = if k == "_id" then some (str id) else none

abbrev pub overlay : Fields → Doc → Doc
overlay set d k = first_some (get k set) (d k)

abbrev pub gate_delete : CdcEvent → Option Doc → Option Doc
gate_delete ev none = none
gate_delete ev (some d) = if stamp_lt ev.lsn (stamp d) then none else some d

abbrev pub gate_upsert : ℤ → CdcEvent → Option Doc → Option Doc
gate_upsert ver ev none = some (overlay (set_fields ev ver) (blank (doc_id ev)))
gate_upsert ver ev (some d) = elim (stamp d) [
  | at m ↦ if ltb_ℤ m ev.lsn then some (overlay (set_fields ev ver) d) else some d
  | unset ↦ some (overlay (set_fields ev ver) d)
  | foreign ↦ some d
]

-- The effect of one event on the document that carries its id.
unfoldable pub gate : ℤ → CdcEvent → Option Doc → Option Doc
gate ver ev row = if ev.op == op_delete then gate_delete ev row else gate_upsert ver ev row

unfoldable pub gate_all : ℤ → List CdcEvent → Option Doc → Option Doc
gate_all ver [] row = row
gate_all ver (ev ∷ evs) row = gate_all ver evs (gate ver ev row)

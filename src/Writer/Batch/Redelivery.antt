-- ===== src/Writer/Batch/Redelivery.antt =====
-- Redelivered, stale and reordered events, through a whole batch.
use public_pg2mongo_cd_c.Base.{◌↔◌}
use mathlib.Core.List.{Permᴰ}
use public_pg2mongo_cd_c.Base.Perms.{perm-All}
use public_pg2mongo_cd_c.Base.{String, true, false, none, some, ℤ, ◌≡◌, ◌∙◌}
use public_pg2mongo_cd_c.Base.{List, [], ◌∷◌, ◌++◌, ◌==◌, if◌then◌else◌, arith, All}
use public_pg2mongo_cd_c.Base.{Dict, inl, inr, ◌⊎◌}
use public_pg2mongo_cd_c.Writer.{
  CdcEvent, delete_op, upsert_op, BuildError, is_nil, err, WriteModel, build_write_op, op_delete,
  set_fields,
}
use public_pg2mongo_cd_c.Writer.Gate.{Doc, overlay}
use public_pg2mongo_cd_c.Writer.Exec.{row, IsPlain}
use public_pg2mongo_cd_c.Writer.Server.{Server, IsLawful}
use public_pg2mongo_cd_c.Writer.Batch.{MongoWriter, World, apply_batch, group_events}
use public_pg2mongo_cd_c.Writer.Batch.Effect.{of_id, Native, gate_all-IsNative}
use public_pg2mongo_cd_c.Writer.Batch.Group.{of_table, IsBuildable}
use public_pg2mongo_cd_c.Writer.Batch.{failed_build, build_failed}
use public_pg2mongo_cd_c.Base.Perms.{perm-filter}
use public_pg2mongo_cd_c.Base.{◌≤ℤ◌}
use public_pg2mongo_cd_c.Writer.Replay.{
  Stamped, Below, Loses, Has, upserts_converge, gate_all_stale, overlay-Stamped, Loses-le,
}
use public_pg2mongo_cd_c.Writer.Batch.Tables.{IsRange, apply_batch-Moved}

Has-perm : (w : CdcEvent) {xs ys : List CdcEvent} → Permᴰ xs ys → Has w ys → Has w xs
Has-perm w Permᴰ.nil h = h
Has-perm w (Permᴰ.cons e p) (inl k) = inl (e ∙ k)
Has-perm w (Permᴰ.cons e p) (inr k) = inr (Has-perm w p k)
Has-perm w (Permᴰ.swap e f) (inl k) = inr (inl (f ∙ k))
Has-perm w (Permᴰ.swap e f) (inr (inl k)) = inl (e ∙ k)
Has-perm w (Permᴰ.swap e f) (inr (inr k)) = inr (inr k)
Has-perm w (Permᴰ.trans p q) h = Has-perm w p (Has-perm w q h)

-- The events of a batch for one document.
abbrev pub of_doc : String → String → List CdcEvent → List CdcEvent
of_doc table id evs = of_id id (of_table table evs)

module _ (S : Server) (L : IsLawful S) (range : Dict (List WriteModel) → Dict (List WriteModel))
    (m : MongoWriter) (evs : List CdcEvent) (w : World S) (r : IsRange range) (p : All IsPlain evs)
    (n : Native S L m.schema_version w.store) (h : (apply_batch S range m evs w).1 ≡ none)
    (table id : String) where
  -- A document that carries an LSN is not changed by a batch that returns no error and whose events
  -- for it are no newer, in whatever order the server runs them. All column names of the batch are
  -- plain, and the documents of the store carry a number or nothing as their LSN.
  pub apply_batch_stale :
      (d : Doc) (lsn : ℤ)
      → row S w.store table id ≡ some d
      → Stamped lsn d
      → All (λ ev. ev.lsn ≤ℤ lsn) (of_doc table id evs)
      → row S (apply_batch S range m evs w).0.store table id ≡ row S w.store table id
  apply_batch_stale d lsn here s a =
      let (order, q, rows) = apply_batch-Moved S L range m evs w r p n h table in
      rows id
      ∙ rw here (
          gate_all_stale m.schema_version (of_id id order) d lsn s (perm-All _ (perm-filter _ q) a))

  -- If a batch returns no error and its events for a document are upserts, no two of which have the
  -- highest LSN but by being equal, and the document was below that LSN, then the document is left
  -- with what the event of the highest LSN writes, in whatever order the server runs them. All
  -- column names of the batch are plain, and the documents of the store carry a number or nothing
  -- as their LSN.
  pub apply_batch_converges :
      (win : CdcEvent)
      → All (Loses win) (of_doc table id evs)
      → Has win (of_doc table id evs)
      → Below win.lsn (row S w.store table id)
      → (d : Doc) × (row S (apply_batch S range m evs w).0.store table id
          ≡ some (overlay (set_fields win m.schema_version) d))
  apply_batch_converges win a has b =
      let (order, q, rows) = apply_batch-Moved S L range m evs w r p n h table in
      let (d, e) =
        upserts_converge m.schema_version win (of_id id order) (row S w.store table id)
          (perm-All (Loses win) (perm-filter _ q) a) (Has-perm win (perm-filter _ q) has) b in
      (d, rows id ∙ e)

module _ (S : Server) (L : IsLawful S) (range : Dict (List WriteModel) → Dict (List WriteModel))
    (m : MongoWriter) (evs : List CdcEvent) (w : World S) (r : IsRange range) (p : All IsPlain evs)
    (n : Native S L m.schema_version w.store) (h : (apply_batch S range m evs w).1 ≡ none) where
  apply_batch-Native : Native S L m.schema_version (apply_batch S range m evs w).0.store
  apply_batch-Native table id =
      let (order, _, rows) = apply_batch-Moved S L range m evs w r p n h table in
      rw (rows id) (gate_all-IsNative m.schema_version (of_id id order) _ (n table id))

  -- A batch of upserts of a document, the newest of them newer than the document, can be delivered
  -- again: if both deliveries return no error, the second leaves the document as the first left it,
  -- in whatever orders the server runs them. All column names of the batch are plain, and the
  -- documents of the store carry a number or nothing as their LSN.
  pub apply_batch_redelivered :
      (table id : String) (win : CdcEvent)
      → All (Loses win) (of_doc table id evs)
      → Has win (of_doc table id evs)
      → Below win.lsn (row S w.store table id)
      → let once = (apply_batch S range m evs w).0 in
        (apply_batch S range m evs once).1 ≡ none
        → row S (apply_batch S range m evs once).0.store table id ≡ row S once.store table id
  apply_batch_redelivered table id win a has b h2 =
      let once = (apply_batch S range m evs w).0 in
      let (d, e) = apply_batch_converges S L range m evs w r p n h table id win a has b in
      apply_batch_stale S L range m evs once r p apply_batch-Native h2 table id
        (overlay (set_fields win m.schema_version) d) win.lsn e
        (overlay-Stamped win m.schema_version d) (Loses-le win (of_doc table id evs) a)

-- A batch with an event that cannot be built writes nothing, and reports that event.
group_events-unbuildable :
    (ver : ℤ) (pre post : List CdcEvent) (bad : CdcEvent) {e : BuildError}
    (d : Dict (List WriteModel))
    → All (IsBuildable ver) pre
    → build_write_op bad ver ≡ err e
    → group_events ver (pre ++ bad ∷ post) d ≡ failed_build e
unfolding group_events
group_events-unbuildable ver [] post bad d b h = rw (h, group_events)
group_events-unbuildable ver (ev ∷ pre) post bad d ((op, k), b) h =
    rw (k, group_events) (group_events-unbuildable ver pre post bad _ b h)

module _ (S : Server) where
  -- A batch whose first event that cannot be built comes after buildable ones writes nothing to any
  -- collection, calls no callback, and returns that event's error.
  pub apply_batch_unbuildable :
      (range : Dict (List WriteModel) → Dict (List WriteModel)) (m : MongoWriter)
      (pre post : List CdcEvent) (bad : CdcEvent) {e : BuildError} (w : World S)
      → All (IsBuildable m.schema_version) pre
      → build_write_op bad m.schema_version ≡ err e
      → apply_batch S range m (pre ++ bad ∷ post) w ≡ (w, some (build_failed e))
  unfolding apply_batch
  apply_batch_unbuildable range m [] post bad w b h =
      rw (group_events-unbuildable m.schema_version [] post bad [] b h)
  apply_batch_unbuildable range m (ev ∷ pre) post bad w b h =
      rw (group_events-unbuildable m.schema_version (ev ∷ pre) post bad [] b h)

-- An event can be built exactly when it is a delete or carries the row after the change.
pub build_write_op_total :
    (ev : CdcEvent) (ver : ℤ)
    → IsBuildable ver ev ↔ (((ev.op == op_delete) ≡ true) ⊎ (is_nil ev.after ≡ false))
unfolding build_write_op
build_write_op_total ev ver = (
  λ (op, h). ground arith,
  λ h. (if ev.op == op_delete then delete_op ev else upsert_op ev ver, ground arith),
)

-- ===== src/Writer/Batch/Effect.antt =====
-- What a batch that reports no error has done to every document.
use mathlib.Core.Option
use public_pg2mongo_cd_c.Value.{get}
use mathlib.Core.List.{Permᴰ}
use public_pg2mongo_cd_c.Base.Perms.{perm-All, perm-map_inv}
use public_pg2mongo_cd_c.Base.{
  String, Bool, true, false, Option, none, some, ℤ, ◌≡◌, refl, ap, ◌∙◌, sym,
}
use public_pg2mongo_cd_c.Base.{
  List, [], ◌∷◌, filter, ◌==◌, if◌then◌else◌, arith, All, map, ◌&&◌, ltb_ℤ,
}
use public_pg2mongo_cd_c.Writer.{CdcEvent, WriteModel, doc_id, op_delete, set_fields}
use public_pg2mongo_cd_c.Writer.Gate.{
  Doc, gate, gate_all, overlay, stamp, foreign, Stamp, at, unset, stamp_lt, blank,
}
use public_pg2mongo_cd_c.Writer.Replay.{overlay-Stamped}
use public_pg2mongo_cd_c.Writer.Exec.{row, IsNative, IsPlain, exec-gate}
use public_pg2mongo_cd_c.Writer.Server.{
  Server, IsLawful, run_models, run_each, BulkReply, done, failed, tried_all,
}
use public_pg2mongo_cd_c.Writer.Batch.{
  MongoWriter, World, bulk_write_table, all_duplicate_key, record_skip, after_bulk,
}
use public_pg2mongo_cd_c.Writer.Batch.Group.{model_of, model_of-build, IsBuildable}

pub choose-IsNative :
    (b : Bool) (x y : Option Doc) → IsNative x → IsNative y → IsNative (if b then x else y)
choose-IsNative true x y h k = h
choose-IsNative false x y h k = k

overlay-IsNative :
    (ver : ℤ) (ev : CdcEvent) (d : Doc) → IsNative (some (overlay (set_fields ev ver) d))
overlay-IsNative ver ev d = rw (overlay-Stamped ev ver d) (λ e. cc)

gate_upsert-IsNative :
    (ver : ℤ) (ev : CdcEvent) (d : Doc) (st : Stamp)
    → IsNative (some d)
    → IsNative (elim st [
      | at m ↦ if ltb_ℤ m ev.lsn then some (overlay (set_fields ev ver) d) else some d
      | unset ↦ some (overlay (set_fields ev ver) d)
      | foreign ↦ some d
    ])
gate_upsert-IsNative ver ev d unset n = overlay-IsNative ver ev d
gate_upsert-IsNative ver ev d foreign n = n
gate_upsert-IsNative ver ev d (at m) n =
    choose-IsNative (ltb_ℤ m ev.lsn) _ _ (overlay-IsNative ver ev d) n

pub gate-IsNative :
    (ver : ℤ) (ev : CdcEvent) (r : Option Doc) → IsNative r → IsNative (gate ver ev r)
unfolding gate
gate-IsNative ver ev none n =
    choose-IsNative (ev.op == op_delete) _ _ tt (overlay-IsNative ver ev (blank (doc_id ev)))
gate-IsNative ver ev (some d) n =
    choose-IsNative (ev.op == op_delete) _ _
      (choose-IsNative (stamp_lt ev.lsn (stamp d)) none (some d) tt n)
      (gate_upsert-IsNative ver ev d (stamp d) n)

pub gate_all-IsNative :
    (ver : ℤ) (evs : List CdcEvent) (r : Option Doc) → IsNative r → IsNative (gate_all ver evs r)
unfolding gate_all
gate_all-IsNative ver [] r n = n
gate_all-IsNative ver (ev ∷ evs) r n = gate_all-IsNative ver evs _ (gate-IsNative ver ev r n)

-- The events of one document.
abbrev pub of_id : String → List CdcEvent → List CdcEvent
of_id id = filter (λ ev. doc_id ev == id)

if_same {ℓ} : {A : Type ℓ} (b : Bool) (x : A) → (if b then x else x) ≡ x
if_same true x = refl
if_same false x = refl

one_more :
    (ver : ℤ) (ev : CdcEvent) (evs : List CdcEvent) (r : Option Doc) (id : String) (here : Bool)
    → (if here
        then gate_all ver (of_id id evs) (if here && (id == doc_id ev) then gate ver ev r else r)
        else (if here && (id == doc_id ev) then gate ver ev r else r))
      ≡ (if here then gate_all ver (of_id id (ev ∷ evs)) r else r)
unfolding gate_all
one_more ver ev evs r id false = refl
one_more ver ev evs r id true = ground arith

module _ (S : Server) (L : IsLawful S) (ver : ℤ) where
  abbrev pub Native : S.State → Type 0
  Native s = (c id : String) → IsNative (row S s c id)

  -- An event of the collection that can be built and written.
  abbrev pub Fits : String → CdcEvent → Type 0
  Fits table ev = (ev.table ≡ table) × IsBuildable ver ev × IsPlain ev

  exec-row :
      (table : String) (ev : CdcEvent) (s : S.State)
      → Fits table ev
      → Native s
      → (c id : String)
      → row S (S.exec s table (model_of ver ev)).0 c id
        ≡ (if (c == table) && (id == doc_id ev) then gate ver ev (row S s c id) else row S s c id)
  exec-row table ev s (e, (op, b), p) n c id =
      rw (← e, ← model_of-build ver ev b)
        (exec-gate S L ev ver s b p (n ev.table (doc_id ev)) c id ∙ ground arith)

  exec-Native :
      (table : String) (ev : CdcEvent) (s : S.State)
      → Fits table ev
      → Native s
      → Native (S.exec s table (model_of ver ev)).0
  exec-Native table ev s f n c id =
      rw (exec-row table ev s f n c id)
        (choose-IsNative _ _ _ (gate-IsNative ver ev _ (n c id)) (n c id))

  -- Running the models of a list of events moves each document of the collection by the gates of
  -- its events, in order.
  pub run_models-row :
      (table : String) (evs : List CdcEvent) (s : S.State)
      → All (Fits table) evs
      → Native s
      → (c id : String)
      → row S (run_models S s table (map (model_of ver) evs)).0 c id
        ≡ (if c == table then gate_all ver (of_id id evs) (row S s c id) else row S s c id)
  unfolding gate_all run_each
  run_models-row table [] s f n c id = sym (if_same (c == table) (row S s c id))
  run_models-row table (ev ∷ evs) s f n c id =
      run_models-row table evs _ f.1 (exec-Native table ev s f.0 n) c id
      ∙ rw (exec-row table ev s f.0 n c id) (one_more ver ev evs (row S s c id) id (c == table))

  -- Every document of the collection has moved by the gates of its events, in some order that is
  -- one for the whole collection; the other collections are as they were.
  abbrev pub Settled : String → List CdcEvent → S.State → S.State → Type 0
  Settled table evs s s' =
      (order : List CdcEvent) × Permᴰ order evs
      × ((c id : String)
          → row S s' c id
            ≡ (if c == table then gate_all ver (of_id id order) (row S s c id) else row S s c id))

  pub bulk_write-Settled :
      (table : String) (evs : List CdcEvent) (s : S.State)
      → All (Fits table) evs
      → Native s
      → tried_all (S.bulk_write s table (map (model_of ver) evs)).1 ≡ true
      → Settled table evs s (S.bulk_write s table (map (model_of ver) evs)).0
  bulk_write-Settled table evs s f n t =
      let (models, p, same, _) = L.bulk_write-run s table (map (model_of ver) evs) t in
      let (order, q, e) = perm-map_inv (model_of ver) p evs refl in
      (
        order,
        q,
        λ c id.
            ap (Option.map (λ d k. get k d)) (same c id)
            ∙ rw e (run_models-row table order s (perm-All (Fits table) q f) n c id),
      )

  pub Settled-Native :
      (table : String) (evs : List CdcEvent) (s s' : S.State)
      → Native s
      → Settled table evs s s'
      → Native s'
  Settled-Native table evs s s' n (order, _, rows) c id = rw (rows c id) (
      choose-IsNative (c == table) _ _ (gate_all-IsNative ver (of_id id order) _ (n c id)) (n c id))

  after_bulk-tried :
      (m : MongoWriter) (table : String) (models : List WriteModel) (w : World S) (r : BulkReply)
      → ¬ (r ≡ done none)
      → (after_bulk S m table models w r).1 ≡ none
      → tried_all r ≡ true
  unfolding all_duplicate_key
  after_bulk-tried m table models w (done none) a h = absurd (a refl)
  after_bulk-tried m table models w (done (some n)) a h = refl
  after_bulk-tried m table models w (failed e) a h = ground arith

  pub after_bulk-store :
      (m : MongoWriter) (table : String) (models : List WriteModel) (w : World S) (r : BulkReply)
      → (after_bulk S m table models w r).0.store ≡ w.store
  unfolding record_skip
  after_bulk-store m table models w (done none) = refl
  after_bulk-store m table models w (done (some n)) = ground arith
  after_bulk-store m table models w (failed e) = ground arith

  -- A table's write that reports no error has settled the table.
  pub bulk_write_table-Settled :
      (m : MongoWriter) (table : String) (evs : List CdcEvent) (w : World S)
      → All (Fits table) evs
      → Native w.store
      → (bulk_write_table S m table (map (model_of ver) evs) w).1 ≡ none
      → Settled table evs w.store (bulk_write_table S m table (map (model_of ver) evs) w).0.store
  unfolding bulk_write_table
  bulk_write_table-Settled m table evs w f n h =
      let models = map (model_of ver) evs in
      let r = S.bulk_write w.store table models in
      let w' : World S = record w { store = r.0 } in
      rw (after_bulk-store m table models w' r.1) (
        bulk_write-Settled table evs w.store f n
          (after_bulk-tried m table models w' r.1 (L.acknowledged w.store table models) h))

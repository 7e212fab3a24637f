-- ===== src/Writer/Batch/Drift.antt =====
-- What any batch, one that fails included, has done to every document: some of its events have passed
-- the gate, in some order.
use mathlib.Core.Option
use mathlib.Core.Path.{subst}
use public_pg2mongo_cd_c.Base.{String, none, some, ℤ, ◌≡◌, refl, ap, ◌∙◌, sym}
use public_pg2mongo_cd_c.Base.{
  List, [], ◌∷◌, ◌++◌, ◌==◌, if◌then◌else◌, arith, All, map, Within, Within-all, Within-append,
  Within-map,
}
use public_pg2mongo_cd_c.Base.{Dict, Bool-cases, Option-cases, inl, inr, ==→eq}
use public_pg2mongo_cd_c.Value.{get}
use public_pg2mongo_cd_c.Writer.{CdcEvent, WriteModel}
use public_pg2mongo_cd_c.Writer.Gate.{gate_all}
use public_pg2mongo_cd_c.Writer.Replay.{gate_all-append}
use public_pg2mongo_cd_c.Writer.Exec.{row, IsPlain}
use public_pg2mongo_cd_c.Writer.Server.{Server, IsLawful, RunsSome}
use public_pg2mongo_cd_c.Writer.Batch.{
  WriterError, MongoWriter, World, bulk_write_table, write_tables, apply_batch, group_events,
  groups, Grouped, failed_build, write_grouped, models_of,
}
use public_pg2mongo_cd_c.Writer.Batch.Effect.{
  of_id, Native, Fits, gate_all-IsNative, run_models-row, after_bulk-store,
}
use public_pg2mongo_cd_c.Writer.Batch.Group.{
  group_events-of_table, group_events-IsBuildable, group_events-NodupKeys, model_of, of_table,
}
use public_pg2mongo_cd_c.Writer.Batch.Tables.{IsRange, GroupsOf, groups-GroupsOf, fits}

of_id-append :
    (id : String) (xs ys : List CdcEvent) → of_id id (xs ++ ys) ≡ of_id id xs ++ of_id id ys
of_id-append id [] ys = refl
of_id-append id (x ∷ xs) ys = ground (arith, of_id-append id xs ys)

module _ (S : Server) (L : IsLawful S) (R : RunsSome S) (ver : ℤ) where
  -- Some of the events have moved the documents of the collection, one after another.
  abbrev pub Drifted : List CdcEvent → S.State → S.State → String → Type 0
  Drifted evs s s' table =
      (ran : List CdcEvent) × Within ran evs
      × ((id : String) → row S s' table id ≡ gate_all ver (of_id id ran) (row S s table id))

  Drifted-refl : (evs : List CdcEvent) (s : S.State) (table : String) → Drifted evs s s table
  unfolding gate_all
  Drifted-refl evs s table = ([], tt, λ id. refl)

  Drifted-trans :
      (evs : List CdcEvent) (s s1 s2 : S.State) (table : String)
      → Drifted evs s s1 table
      → Drifted evs s1 s2 table
      → Drifted evs s s2 table
  Drifted-trans evs s s1 s2 table (xs, w, f) (ys, v, g) = (
    xs ++ ys,
    Within-append xs ys evs w v,
    λ id.
        g id
        ∙ (ap (gate_all ver (of_id id ys)) (f id)
            ∙ (sym (gate_all-append ver (of_id id xs) (of_id id ys) (row S s table id))
                ∙ ap (λ l. gate_all ver l (row S s table id)) (sym (of_id-append id xs ys)))),
  )

  pub Drifted-Native :
      (evs : List CdcEvent) (s s' : S.State)
      → Native S L ver s
      → ((table : String) → Drifted (of_table table evs) s s' table)
      → Native S L ver s'
  Drifted-Native evs s s' n d c id =
      let (ran, _, rows) = d c in rw (rows id) (gate_all-IsNative ver (of_id id ran) _ (n c id))

  bulk_write-some_rows :
      (t : String) (evs : List CdcEvent) (s : S.State)
      → All (Fits S L ver t) evs
      → Native S L ver s
      → (ran : List CdcEvent) × Within ran evs
        × ((c id : String)
            → row S (S.bulk_write s t (map (model_of ver) evs)).0 c id
              ≡ (if c == t then gate_all ver (of_id id ran) (row S s c id) else row S s c id))
  unfolding gate_all
  bulk_write-some_rows t evs s f n =
      let (models, some_of, same) = R.bulk_write-some s t (map (model_of ver) evs) in
      let (ran, k, e) = Within-map (model_of ver) models evs some_of in
      (
        ran,
        k,
        λ c id.
            ap (Option.map (λ d k. get k d)) (same c id)
            ∙ rw e
                (run_models-row S L ver t ran s (Within-all (Fits S L ver t) ran evs k f) n c id),
      )

  bulk_write_table-Drifted :
      (m : MongoWriter) (t : String) (evs : List CdcEvent) (w : World S)
      → All (Fits S L ver t) (of_table t evs)
      → Native S L ver w.store
      → (table : String)
      → Drifted
          (of_table table evs)
          w.store
          (bulk_write_table S m t (map (model_of ver) (of_table t evs)) w).0.store
          table
  unfolding bulk_write_table
  bulk_write_table-Drifted m t evs w f n table =
      let models = map (model_of ver) (of_table t evs) in
      let r = S.bulk_write w.store t models in
      let (ran, k, rows) = bulk_write-some_rows t (of_table t evs) w.store f n in
      rw (after_bulk-store S L ver m t models (record w { store = r.0 }) r.1)
        (elim (Bool-cases (table == t)) [
          | inl e ↦ (
            ran,
            subst (λ x. Within ran (of_table x evs)) (sym (==→eq table t e)) k,
            λ id. rows table id ∙ rw e refl,
          )
          | inr e ↦ ([], tt, λ id. rows table id ∙ rw e (unfold gate_all in refl))
        ])

  write_tables-next :
      (m : MongoWriter) (t : String) (models : List WriteModel) (d : Dict (List WriteModel))
      (w : World S)
      → (bulk_write_table S m t models w).1 ≡ none
      → write_tables S m ((t, models) ∷ d) w
        ≡ write_tables S m d (bulk_write_table S m t models w).0
  unfolding write_tables
  write_tables-next m t models d w e = rw (e, write_tables) refl

  write_tables-stop :
      (m : MongoWriter) (t : String) (models : List WriteModel) (d : Dict (List WriteModel))
      (w : World S) (x : WriterError)
      → (bulk_write_table S m t models w).1 ≡ some x
      → write_tables S m ((t, models) ∷ d) w ≡ ((bulk_write_table S m t models w).0, some x)
  unfolding write_tables
  write_tables-stop m t models d w x e = rw (e, write_tables) refl

  write_tables-Drifted :
      (m : MongoWriter) (evs : List CdcEvent) (d : Dict (List WriteModel)) (w : World S)
      → ((table : String) → All (Fits S L ver table) (of_table table evs))
      → GroupsOf S L ver evs d
      → Native S L ver w.store
      → (table : String) → Drifted (of_table table evs) w.store (write_tables S m d w).0.store table
  write_tables-Drifted m evs [] w f g n table =
      unfold write_tables in Drifted-refl (of_table table evs) w.store table
  write_tables-Drifted m evs ((t, models) ∷ d) w f g n table =
      let r = bulk_write_table S m t models w in
      let first : (x : String) → Drifted (of_table x evs) w.store r.0.store x =
        λ x. rw g.0 (bulk_write_table-Drifted m t evs w (f t) n x) in
      let later =
        write_tables-Drifted m evs d r.0 f g.2 (Drifted-Native evs w.store r.0.store n first)
          table in
      elim (Option-cases r.1) [
        | inl e ↦
            rw (write_tables-next m t models d w e)
              (Drifted-trans (of_table table evs) _ _ _ table (first table) later)
        | inr (x, e) ↦ rw (write_tables-stop m t models d w x e) (first table)
      ]

  write_grouped-Drifted :
      (range : Dict (List WriteModel) → Dict (List WriteModel)) (m : MongoWriter)
      (evs : List CdcEvent) (w : World S) (g : Grouped)
      → IsRange range
      → group_events ver evs [] ≡ g
      → All IsPlain evs
      → Native S L ver w.store
      → (table : String)
      → Drifted (of_table table evs) w.store (write_grouped S range m g w).0.store table
  write_grouped-Drifted range m evs w (failed_build e) r g p n table =
      Drifted-refl (of_table table evs) w.store table
  write_grouped-Drifted range m evs w (groups d) r g p n table =
      let ordered = r d (group_events-NodupKeys ver evs [] d g tt) in
      write_tables-Drifted m evs (range d) w
        (λ t. fits S L ver t evs (group_events-IsBuildable ver evs [] d g) p)
        (groups-GroupsOf S L ver evs (range d) ordered.0 (λ t ms e.
          ap models_of (sym e)
          ∙ (ap models_of (ordered.1 t) ∙ group_events-of_table ver evs d t g)))
        n table

module _ (S : Server) (L : IsLawful S) (R : RunsSome S) where
  -- Whatever a batch returns, it has moved every document of every collection by the LSN gates of
  -- some of its events for that collection, in some order and perhaps some of them twice, and by
  -- nothing else; the column names are plain, the documents carry a number or nothing as their LSN,
  -- and a failed bulk write is over when it answers and has run some of its models.
  pub apply_batch-Drifted :
      (range : Dict (List WriteModel) → Dict (List WriteModel)) (m : MongoWriter)
      (evs : List CdcEvent) (w : World S)
      → IsRange range
      → All IsPlain evs
      → Native S L m.schema_version w.store
      → (table : String)
      → Drifted S L R m.schema_version
          (of_table table evs)
          w.store
          (apply_batch S range m evs w).0.store
          table
  unfolding apply_batch
  apply_batch-Drifted range m [] w r p n table =
      Drifted-refl S L R m.schema_version [] w.store table
  apply_batch-Drifted range m (ev ∷ evs) w r p n table =
      write_grouped-Drifted S L R m.schema_version range m (ev ∷ evs) w _ r refl p n table

-- ===== src/Writer/Batch/Tables.antt =====
-- The second loop of `ApplyBatch`, and the whole: what a batch that reports no error has done.
use mathlib.Core.Path.{subst}
use mathlib.Core.List.{Permᴰ}
use public_pg2mongo_cd_c.Base.Perms.{perm-eq-nil}
use public_pg2mongo_cd_c.Base.{String, true, false, Option, none, some, ℤ, ◌≡◌, refl, ap, ◌∙◌, sym}
use public_pg2mongo_cd_c.Base.{List, [], ◌∷◌, ◌==◌, arith, All, map}
use public_pg2mongo_cd_c.Base.{
  Dict, lookup, NodupKeys, Bool-cases, Option-cases, inl, inr, ==→eq, ==_self,
}
use public_pg2mongo_cd_c.Writer.{CdcEvent, WriteModel}
use public_pg2mongo_cd_c.Writer.Gate.{gate_all}
use public_pg2mongo_cd_c.Writer.Exec.{row, IsPlain}
use public_pg2mongo_cd_c.Writer.Server.{Server, IsLawful}
use public_pg2mongo_cd_c.Writer.Batch.{
  MongoWriter, World, bulk_write_table, write_tables, apply_batch, group_events, groups,
}
use public_pg2mongo_cd_c.Writer.Batch.Effect.{
  of_id, Native, Fits, Settled, Settled-Native, bulk_write_table-Settled,
}
use public_pg2mongo_cd_c.Writer.Batch.Group.{
  group_events-of_table, group_events-IsBuildable, group_events-NodupKeys, model_of, of_table,
  IsBuildable,
}
use public_pg2mongo_cd_c.Writer.Batch.{models_of, Grouped, failed_build, write_grouped}

module _ (S : Server) (L : IsLawful S) (ver : ℤ) where
  -- The groups are those of the batch.
  abbrev pub GroupsOf : List CdcEvent → Dict (List WriteModel) → Type 0
  GroupsOf evs [] = Unit
  GroupsOf evs ((table, models) ∷ d) =
      (models ≡ map (model_of ver) (of_table table evs)) × (lookup table d ≡ none) × GroupsOf evs d

  -- A run over the groups moves the documents of a collection that has a group.
  abbrev share : Option (List WriteModel) → List CdcEvent → List CdcEvent
  share none evs = []
  share (some _) evs = evs

  abbrev pub Moved : List CdcEvent → S.State → S.State → String → Type 0
  Moved evs s s' table =
      (order : List CdcEvent) × Permᴰ order evs
      × ((id : String) → row S s' table id ≡ gate_all ver (of_id id order) (row S s table id))

  write_tables-cons :
      (m : MongoWriter) (t : String) (models : List WriteModel) (d : Dict (List WriteModel))
      (w : World S)
      → (write_tables S m ((t, models) ∷ d) w).1 ≡ none
      → ((bulk_write_table S m t models w).1 ≡ none)
        × (write_tables S m ((t, models) ∷ d) w
            ≡ write_tables S m d (bulk_write_table S m t models w).0)
  unfolding write_tables
  write_tables-cons m t models d w h = elim (Option-cases (bulk_write_table S m t models w).1) [
    | inl e ↦ (e, rw (e, write_tables))
    | inr (x, e) ↦ cc (rw (e, write_tables) at h)
  ]

  Moved-here :
      (evs rest : List CdcEvent) (t : String) (s s1 s2 : S.State) (table : String)
      → (table == t) ≡ true
      → Settled S L ver t evs s s1
      → Moved rest s1 s2 table
      → rest ≡ []
      → Moved evs s s2 table
  unfolding gate_all
  Moved-here evs rest t s s1 s2 table e (order, p, rows) (order', q, rows') once =
      let same : order' ≡ [] = perm-eq-nil q once in
      (order, p, λ id. rows' id ∙ (rw same (rows table id ∙ rw e)))

  Moved-elsewhere :
      (evs rest : List CdcEvent) (t : String) (s s1 s2 : S.State) (table : String)
      → (table == t) ≡ false
      → Settled S L ver t evs s s1
      → Moved rest s1 s2 table
      → Moved rest s s2 table
  Moved-elsewhere evs rest t s s1 s2 table e (_, _, rows) (order', q, rows') =
      (order', q, λ id. rows' id ∙ ap (gate_all ver (of_id id order')) (rows table id ∙ rw e))

  no_share :
      (table t : String) (evs : List CdcEvent) (d : Dict (List WriteModel))
      → table ≡ t
      → lookup t d ≡ none
      → share (lookup table d) (of_table table evs) ≡ []
  no_share table t evs d e h =
      let absent : lookup table d ≡ none = ap (λ x. lookup x d) e ∙ h in rw absent

  write_tables-Moved :
      (m : MongoWriter) (evs : List CdcEvent) (d : Dict (List WriteModel)) (w : World S)
      → ((table : String) → All (Fits S L ver table) (of_table table evs))
      → GroupsOf evs d
      → Native S L ver w.store
      → (write_tables S m d w).1 ≡ none
      → (table : String)
      → Moved
          (share (lookup table d) (of_table table evs))
          w.store
          (write_tables S m d w).0.store
          table
  unfolding write_tables lookup gate_all
  write_tables-Moved m evs [] w f g n h table = ([], Permᴰ.nil, λ id. refl)
  write_tables-Moved m evs ((t, models) ∷ d) w f g n h table =
      let (first, rest) = write_tables-cons m t models d w h in
      let w1 = (bulk_write_table S m t models w).0 in
      let settled : Settled S L ver t (of_table t evs) w.store w1.store =
        rw g.0
          (bulk_write_table-Settled S L ver m t (of_table t evs) w (f t) n (rw g.0 at first)) in
      let later =
        write_tables-Moved m evs d w1 f g.2 (Settled-Native S L ver t _ _ _ n settled)
          (rw rest at h) table in
      elim (Bool-cases (table == t)) [
        | inl e ↦
            rw (rest, e)
              (Moved-here _ _ t _ _ _ table e
                (subst (λ x. Settled S L ver t (of_table x evs) w.store w1.store)
                  (sym (==→eq table t e)) settled)
                later (no_share table t evs d (==→eq table t e) g.1))
        | inr e ↦ rw (rest, e) (Moved-elsewhere _ _ t _ _ _ table e settled later)
      ]

-- A range over a map visits each key once, in an order that is not specified.
abbrev pub IsRange : (Dict (List WriteModel) → Dict (List WriteModel)) → Type 0
IsRange range =
    (d : Dict (List WriteModel))
    → NodupKeys d
    → NodupKeys (range d) × ((k : String) → lookup k (range d) ≡ lookup k d)

module _ (S : Server) (L : IsLawful S) where
  pub groups-GroupsOf :
      (ver : ℤ) (evs : List CdcEvent) (d : Dict (List WriteModel))
      → NodupKeys d
      → ((t : String) (ms : List WriteModel)
          → lookup t d ≡ some ms
          → ms ≡ map (model_of ver) (of_table t evs))
      → GroupsOf S L ver evs d
  unfolding lookup
  groups-GroupsOf ver evs [] u h = tt
  groups-GroupsOf ver evs ((t, ms) ∷ d) u h =
      (h t ms (rw ==_self), u.0, groups-GroupsOf ver evs d u.1 (λ k ns e. h k ns (later k ns e)))
    where
      later :
          (k : String) (ns : List WriteModel)
          → lookup k d ≡ some ns
          → lookup k ((t, ms) ∷ d) ≡ some ns
      later k ns e = let absent = u.0 in ground arith

  pub fits :
      (ver : ℤ) (table : String) (evs : List CdcEvent)
      → All (IsBuildable ver) evs
      → All IsPlain evs
      → All (Fits S L ver table) (of_table table evs)
  fits ver table [] b p = tt
  fits ver table (ev ∷ evs) b p = elim (Bool-cases (ev.table == table)) [
    | inl e ↦ rw e ((==→eq _ _ e, b.0, p.0), fits ver table evs b.1 p.1)
    | inr e ↦ rw e (fits ver table evs b.1 p.1)
  ]

  share-all :
      (ver : ℤ) (evs : List CdcEvent) (o : Option (List WriteModel))
      → models_of o ≡ map (model_of ver) evs
      → share S L ver o evs ≡ evs
  share-all ver [] none h = refl
  share-all ver (ev ∷ evs) none h = cc
  share-all ver evs (some ms) h = refl

  write_grouped-Moved :
      (range : Dict (List WriteModel) → Dict (List WriteModel)) (m : MongoWriter)
      (evs : List CdcEvent) (w : World S) (g : Grouped)
      → IsRange range
      → group_events m.schema_version evs [] ≡ g
      → All IsPlain evs
      → Native S L m.schema_version w.store
      → (write_grouped S range m g w).1 ≡ none
      → (table : String)
      → Moved S L m.schema_version
          (of_table table evs)
          w.store
          (write_grouped S range m g w).0.store
          table
  write_grouped-Moved range m evs w (failed_build e) r g p n h table = cc
  write_grouped-Moved range m evs w (groups d) r g p n h table =
      let ver = m.schema_version in
      let ordered = r d (group_events-NodupKeys ver evs [] d g tt) in
      let own : (t : String) → models_of (lookup t d) ≡ map (model_of ver) (of_table t evs) =
        λ t. group_events-of_table ver evs d t g in
      let moved =
        write_tables-Moved S L ver m evs (range d) w
          (λ t. fits ver t evs (group_events-IsBuildable ver evs [] d g) p)
          (groups-GroupsOf ver evs (range d) ordered.0
            (λ t ms e. ap models_of (sym e) ∙ (ap models_of (ordered.1 t) ∙ own t)))
          n h table in
      rw (ordered.1 table, share-all ver (of_table table evs) (lookup table d) (own table)) at moved

  -- A batch that returns no error moves every document of every collection by the LSN gates of
  -- exactly those of its events that carry the document's id, each once, in an order that the
  -- server chose; the column names are plain, and the documents carry a number or nothing as their
  -- LSN.
  pub apply_batch-Moved :
      (range : Dict (List WriteModel) → Dict (List WriteModel)) (m : MongoWriter)
      (evs : List CdcEvent) (w : World S)
      → IsRange range
      → All IsPlain evs
      → Native S L m.schema_version w.store
      → (apply_batch S range m evs w).1 ≡ none
      → (table : String)
      → Moved S L m.schema_version
          (of_table table evs)
          w.store
          (apply_batch S range m evs w).0.store
          table
  unfolding apply_batch gate_all
  apply_batch-Moved range m [] w r p n h table = ([], Permᴰ.nil, λ id. refl)
  apply_batch-Moved range m (ev ∷ evs) w r p n h table =
      write_grouped-Moved range m (ev ∷ evs) w _ r refl p n h table

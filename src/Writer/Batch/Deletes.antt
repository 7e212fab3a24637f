-- ===== src/Writer/Batch/Deletes.antt =====
-- Deletes and redelivery on the server: models of one document, one after another.
use public_pg2mongo_cd_c.Base.{
  String, true, false, none, some, ℤ, ◌<ℤ◌, ◌≡◌, refl, ◌∙◌, Bool-cases, inl, inr, ◌⊎◌,
}
use public_pg2mongo_cd_c.Base.{
  List, [], ◌∷◌, ◌++◌, ◌==◌, ==_self, if◌then◌else◌, All, All-append, map,
}
use public_pg2mongo_cd_c.Writer.{CdcEvent, op_delete, doc_id, set_fields}
use public_pg2mongo_cd_c.Writer.Gate.{overlay, blank, gate_all}
use public_pg2mongo_cd_c.Writer.Exec.{row, IsNative}
use public_pg2mongo_cd_c.Writer.Server.{Server, IsLawful, run_models}
use public_pg2mongo_cd_c.Writer.Batch.Effect.{
  of_id, Native, Fits, gate_all-IsNative, run_models-row,
}
use public_pg2mongo_cd_c.Writer.Batch.Group.{model_of}
use public_pg2mongo_cd_c.Writer.Replay.{Below, BeforeLast, replay_tail, stale_after_delete}

module _ (S : Server) (L : IsLawful S) (ver : ℤ) (table id : String) where
  -- An event of the document that can be built and written.
  abbrev pub ForDoc : CdcEvent → Type 0
  ForDoc ev = Fits S L ver table ev × ((doc_id ev == id) ≡ true)

  -- The server after the models of some events.
  abbrev pub sent : List CdcEvent → S.State → S.State
  sent evs s = (run_models S s table (map (model_of ver) evs)).0

  fit : (evs : List CdcEvent) → All ForDoc evs → All (Fits S L ver table) evs
  fit [] a = tt
  fit (ev ∷ evs) a = (a.0.0, fit evs a.1)

  of_id-All : (evs : List CdcEvent) → All ForDoc evs → of_id id evs ≡ evs
  of_id-All [] a = refl
  of_id-All (ev ∷ evs) a = rw (a.0.1, of_id-All evs a.1) refl

  row-sent :
      (evs : List CdcEvent) (s : S.State)
      → All ForDoc evs
      → Native S L ver s
      → row S (sent evs s) table id ≡ gate_all ver evs (row S s table id)
  row-sent evs s a n =
      run_models-row S L ver table evs s (fit evs a) n table id
      ∙ rw (==_self table, of_id-All evs a) refl

  sent-Native :
      (evs : List CdcEvent) (s : S.State)
      → All ForDoc evs
      → Native S L ver s
      → Native S L ver (sent evs s)
  sent-Native evs s a n c i =
      rw (run_models-row S L ver table evs s (fit evs a) n c i) (moved (Bool-cases (c == table)))
    where
      moved :
          ((c == table) ≡ true) ⊎ ((c == table) ≡ false)
          → IsNative (if c == table then gate_all ver (of_id i evs) (row S s c i) else row S s c i)
      moved (inl e) = rw e (gate_all-IsNative ver (of_id i evs) _ (n c i))
      moved (inr e) = rw e (n c i)

  -- Sending a delete of a document that is older than it, or absent, and then an older upsert
  -- creates the document again, with what the older upsert writes. Both events can be built and
  -- have plain column names, and the documents of the store carry a number or nothing as their LSN.
  pub delete_then_stale :
      (del old : CdcEvent) (s : S.State)
      → All ForDoc (del ∷ old ∷ [])
      → Native S L ver s
      → (del.op == op_delete) ≡ true
      → (old.op == op_delete) ≡ false
      → old.lsn <ℤ del.lsn
      → Below del.lsn (row S s table id)
      → row S (sent (del ∷ old ∷ []) s) table id
        ≡ some (overlay (set_fields old ver) (blank (doc_id old)))
  delete_then_stale del old s a n d u older b =
      row-sent (del ∷ old ∷ []) s a n ∙ stale_after_delete ver del old _ d u older b

  -- Let a log of events of one document end with its newest event, an upsert or a delete, and let
  -- the document not exist before. Sending the log and then again any older events with the newest
  -- one at their end leaves the document, or its absence, as the log left it. All events can be
  -- built and have plain column names, and the documents of the store carry a number or nothing as
  -- their LSN.
  pub redelivered_tail :
      (log tail : List CdcEvent) (last : CdcEvent) (s : S.State)
      → All ForDoc log
      → All ForDoc tail
      → ForDoc last
      → Native S L ver s
      → row S s table id ≡ none
      → BeforeLast last log
      → BeforeLast last tail
      → row S (sent (tail ++ last ∷ []) (sent (log ++ last ∷ []) s)) table id
        ≡ row S (sent (log ++ last ∷ []) s) table id
  redelivered_tail log tail last s a b c n empty before_log before_tail =
      let whole = All-append _ log (last ∷ []) a (c, tt) in
      row-sent (tail ++ last ∷ []) (sent (log ++ last ∷ []) s)
        (All-append _ tail (last ∷ []) b (c, tt)) (sent-Native (log ++ last ∷ []) s whole n)
      ∙ rw (row-sent (log ++ last ∷ []) s whole n, empty)
          (replay_tail ver log tail last before_log before_tail)

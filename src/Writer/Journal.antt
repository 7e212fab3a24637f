-- ===== src/Writer/Journal.antt =====
-- The writer with a journal of the batches it has been handed, newest first: what the committed
-- offsets promise about the documents.
use mathlib.Core.List.{Permᴰ}
use public_pg2mongo_cd_c.Base.{
  String, true, false, Option, none, ◌≡◌, refl, sym, ◌∙◌, Bool, ◌==◌, inl, inr,
}
use public_pg2mongo_cd_c.Base.{List, [], ◌∷◌, ◌++◌, filter, All, Dict, Bool-cases, In, Within-all}
use public_pg2mongo_cd_c.Base.{==_self, ◌&&◌}
use public_pg2mongo_cd_c.Base.Perms.{perm-All}
use public_pg2mongo_cd_c.Writer.{CdcEvent, WriteModel, doc_id, op_delete}
use public_pg2mongo_cd_c.Writer.Exec.{row, IsPlain}
use public_pg2mongo_cd_c.Writer.Reached.{Reached, IsUpsert, gate_all-Reached, gate_all_reaches}
use public_pg2mongo_cd_c.Writer.Server.{Server, IsLawful, RunsSome}
use public_pg2mongo_cd_c.Writer.Batch.{WriterError, MongoWriter, World, apply_batch}
use public_pg2mongo_cd_c.Writer.Batch.Effect.{of_id, Native}
use public_pg2mongo_cd_c.Writer.Batch.Group.{of_table}
use public_pg2mongo_cd_c.Writer.Batch.Tables.{IsRange, apply_batch-Moved}
use public_pg2mongo_cd_c.Writer.Batch.Drift.{apply_batch-Drifted, Drifted-Native}
use public_pg2mongo_cd_c.Consumer.{Writer}
use public_pg2mongo_cd_c.Consumer.Laws.{WriterLaws}

-- All events of the batches.
abbrev pub handed : List (List CdcEvent) → List CdcEvent
handed [] = []
handed (evs ∷ older) = evs ++ handed older

-- No event of the list deletes the document.
abbrev pub Keeps : String → String → CdcEvent → Type 0
Keeps table id ev = ((ev.table == table) && ((doc_id ev == id) && (ev.op == op_delete))) ≡ false

pub unappend :
    (P : CdcEvent → Type 0) (xs ys : List CdcEvent) → All P (xs ++ ys) → All P xs × All P ys
unappend P [] ys h = (tt, h)
unappend P (x ∷ xs) ys h = let (a, b) = unappend P xs ys h.1 in ((h.0, a), b)

-- No event of the list deletes the document, of those of its collection.
Spares : String → CdcEvent → Type 0
Spares id ev = ((doc_id ev == id) && (ev.op == op_delete)) ≡ false

of_table-Spares :
    (table id : String) (evs : List CdcEvent)
    → All (Keeps table id) evs
    → All (Spares id) (of_table table evs)
unfolding Spares
of_table-Spares table id [] h = tt
of_table-Spares table id (ev ∷ evs) h = elim (Bool-cases (ev.table == table)) [
  | inl t ↦ rw t ((rw t at h.0), of_table-Spares table id evs h.1)
  | inr t ↦ rw t (of_table-Spares table id evs h.1)
]

of_id-IsUpsert :
    (id : String) (evs : List CdcEvent) → All (Spares id) evs → All IsUpsert (of_id id evs)
unfolding Spares
of_id-IsUpsert id [] h = tt
of_id-IsUpsert id (ev ∷ evs) h = elim (Bool-cases (doc_id ev == id)) [
  | inl d ↦ rw d ((rw d at h.0), of_id-IsUpsert id evs h.1)
  | inr d ↦ rw d (of_id-IsUpsert id evs h.1)
]

In-filter :
    (p : CdcEvent → Bool) (ev : CdcEvent) (evs : List CdcEvent)
    → p ev ≡ true
    → In ev evs
    → In ev (filter p evs)
In-filter p ev [] t h = h
In-filter p ev (x ∷ evs) t (inl e) = rw (← e, t) (inl refl)
In-filter p ev (x ∷ evs) t (inr h) = elim (Bool-cases (p x)) [
  | inl y ↦ rw y (inr (In-filter p ev evs t h))
  | inr y ↦ rw y (In-filter p ev evs t h)
]

In-perm : (ev : CdcEvent) {xs ys : List CdcEvent} → Permᴰ xs ys → In ev ys → In ev xs
In-perm ev Permᴰ.nil h = h
In-perm ev (Permᴰ.cons e p) (inl x) = inl (x ∙ sym e)
In-perm ev (Permᴰ.cons e p) (inr x) = inr (In-perm ev p x)
In-perm ev (Permᴰ.swap e f) (inl x) = inr (inl (x ∙ sym f))
In-perm ev (Permᴰ.swap e f) (inr (inl x)) = inl (x ∙ sym e)
In-perm ev (Permᴰ.swap e f) (inr (inr x)) = inr (inr x)
In-perm ev (Permᴰ.trans p q) h = In-perm ev p (In-perm ev q h)

-- Every event is in the list that holds it.
All-In :
    (P : CdcEvent → Type 0) (evs : List CdcEvent) → ((ev : CdcEvent) → In ev evs → P ev) → All P evs
All-In P [] f = tt
All-In P (ev ∷ evs) f = (f ev (inl refl), All-In P evs (λ x h. f x (inr h)))

module _ (S : Server) (L : IsLawful S) (R : RunsSome S)
    (range : Dict (List WriteModel) → Dict (List WriteModel)) (m : MongoWriter) where
  applied-Reached :
      (evs : List CdcEvent) (w : World S) (ev : CdcEvent)
      → IsRange range
      → All IsPlain evs
      → Native S L m.schema_version w.store
      → All (Keeps ev.table (doc_id ev)) evs
      → (apply_batch S range m evs w).1 ≡ none
      → In ev evs
      → Reached ev.lsn (row S (apply_batch S range m evs w).0.store ev.table (doc_id ev))
  applied-Reached evs w ev r p n k h i =
      let id = doc_id ev in
      let (order, q, rows) = apply_batch-Moved S L range m evs w r p n h ev.table in
      rw (rows id) (
        gate_all_reaches m.schema_version (of_id id order) ev (row S w.store ev.table id)
          (of_id-IsUpsert id order (perm-All (Spares id) q (of_table-Spares ev.table id evs k)))
          (n ev.table id)
          (In-filter (λ x. doc_id x == id) ev order (==_self id)
            (In-perm ev q (In-filter (λ x. x.table == ev.table) ev evs (==_self ev.table) i))))

  stays-Reached :
      (evs : List CdcEvent) (w : World S) (ev : CdcEvent)
      → IsRange range
      → All IsPlain evs
      → Native S L m.schema_version w.store
      → All (Keeps ev.table (doc_id ev)) evs
      → Reached ev.lsn (row S w.store ev.table (doc_id ev))
      → Reached ev.lsn (row S (apply_batch S range m evs w).0.store ev.table (doc_id ev))
  stays-Reached evs w ev r p n k h =
      let id = doc_id ev in
      let (ran, within, rows) = apply_batch-Drifted S L R range m evs w r p n ev.table in
      rw (rows id) (
        gate_all-Reached m.schema_version (of_id id ran) ev.lsn (row S w.store ev.table id)
          (of_id-IsUpsert id ran
            (Within-all (Spares id) ran _ within (of_table-Spares ev.table id evs k)))
          h)

module _ (S : Server) (range : Dict (List WriteModel) → Dict (List WriteModel)) (m : MongoWriter)
    (start : World S) where
  -- The server after the batches, each of which may have failed.
  abbrev pub current : List (List CdcEvent) → World S
  current [] = start
  current (evs ∷ older) = (apply_batch S range m evs (current older)).0

  -- `ApplyBatch` with the batch written down.
  abbrev pub journaled :
      List CdcEvent → List (List CdcEvent) → List (List CdcEvent) × Option WriterError
  journaled evs bs = (evs ∷ bs, (apply_batch S range m evs (current bs)).1)

  abbrev pub journaled_writer : Writer WriterError
  journaled_writer = record { State = List (List CdcEvent); apply_batch = journaled }

  -- The event's document, if nothing has deleted it and all columns were plain.
  abbrev pub Kept : List (List CdcEvent) → CdcEvent → Type 0
  Kept bs ev =
      All IsPlain (handed bs)
      → All (Keeps ev.table (doc_id ev)) (handed bs)
      → Reached ev.lsn (row S (current bs).store ev.table (doc_id ev))

module _ (S : Server) (L : IsLawful S) (R : RunsSome S)
    (range : Dict (List WriteModel) → Dict (List WriteModel)) (m : MongoWriter) (start : World S)
    (r : IsRange range) (n : Native S L m.schema_version start.store) where
  pub current-Native :
      (bs : List (List CdcEvent))
      → All IsPlain (handed bs)
      → Native S L m.schema_version (current S range m start bs).store
  current-Native [] p = n
  current-Native (evs ∷ bs) p =
      let (p0, p1) = unappend IsPlain evs (handed bs) p in
      let before = current-Native bs p1 in
      Drifted-Native S L R m.schema_version evs (current S range m start bs).store _ before
        (apply_batch-Drifted S L R range m evs (current S range m start bs) r p0 before)

  pub journaled-applied_all :
      (evs : List CdcEvent) (bs : List (List CdcEvent))
      → (journaled S range m start evs bs).1 ≡ none
      → All (Kept S range m start (evs ∷ bs)) evs
  journaled-applied_all evs bs h = All-In (Kept S range m start (evs ∷ bs)) evs λ ev i p k.
      let (p0, p1) = unappend IsPlain evs (handed bs) p in
      applied-Reached S L R range m evs (current S range m start bs) ev r p0 (current-Native bs p1)
        (unappend (Keeps ev.table (doc_id ev)) evs (handed bs) k).0 h i

  pub journaled-applied_stays :
      (evs : List CdcEvent) (bs : List (List CdcEvent)) (ev : CdcEvent)
      → Kept S range m start bs ev
      → Kept S range m start (evs ∷ bs) ev
  journaled-applied_stays evs bs ev kept p k =
      let (p0, p1) = unappend IsPlain evs (handed bs) p in
      let (k0, k1) = unappend (Keeps ev.table (doc_id ev)) evs (handed bs) k in
      stays-Reached S L R range m evs (current S range m start bs) ev r p0 (current-Native bs p1) k0
        (kept p1 k1)

  -- An event is applied when its document carries its LSN or a later one.
  abbrev pub journaled_laws : WriterLaws (journaled_writer S range m start)
  journaled_laws = record {
    Applied = Kept S range m start;
    applied_all = journaled-applied_all;
    applied_stays = journaled-applied_stays;
  }

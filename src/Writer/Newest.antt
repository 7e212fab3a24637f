-- ===== src/Writer/Newest.antt =====
-- The newest event of a document: once it has taken effect, the document is what it writes.
use public_pg2mongo_cd_c.Base.{
  String, true, Option, none, some, ℤ, ◌≡◌, refl, sym, ◌∙◌, ap, ◌==◌, ◌⊎◌, inl, inr, arith,
}
use public_pg2mongo_cd_c.Base.{
  List, [], ◌∷◌, ◌++◌, filter-append, All, Dict, Bool-cases, Within, Within-all,
}
use public_pg2mongo_cd_c.Writer.{CdcEvent, WriteModel, doc_id, set_fields}
use public_pg2mongo_cd_c.Writer.Gate.{Doc, at, stamp, gate, gate_all, overlay}
use public_pg2mongo_cd_c.Writer.Replay.{
  Below, Loses, gate_fresh, gate-Below, gate_stale, overlay-Stamped, or_blank,
}
use public_pg2mongo_cd_c.Writer.Exec.{row, IsPlain}
use public_pg2mongo_cd_c.Writer.Reached.{Reached}
use public_pg2mongo_cd_c.Writer.Server.{Server, IsLawful, RunsSome}
use public_pg2mongo_cd_c.Writer.Batch.{MongoWriter, World}
use public_pg2mongo_cd_c.Writer.Batch.Effect.{of_id, Native}
use public_pg2mongo_cd_c.Writer.Batch.Group.{of_table}
use public_pg2mongo_cd_c.Writer.Batch.Tables.{IsRange}
use public_pg2mongo_cd_c.Writer.Batch.Redelivery.{of_doc}
use public_pg2mongo_cd_c.Writer.Batch.Drift.{apply_batch-Drifted}
use public_pg2mongo_cd_c.Writer.Journal.{handed, Keeps, current, unappend, current-Native}

-- The document is what the event writes.
abbrev pub IsLatest : ℤ → CdcEvent → Option Doc → Type 0
IsLatest ver win row = (d : Doc) × (row ≡ some (overlay (set_fields win ver) d))

-- The event has not taken effect yet, or is the last that has.
abbrev pub Held : ℤ → CdcEvent → Option Doc → Type 0
Held ver win row = Below win.lsn row ⊎ IsLatest ver win row

gate-Held :
    (ver : ℤ) (win ev : CdcEvent) (row : Option Doc)
    → Loses win ev
    → Held ver win row
    → Held ver win (gate ver ev row)
gate-Held ver win ev row (u, inl older) (inl b) = inl (gate-Below ver ev row win.lsn older b)
gate-Held ver win ev row (u, inr e) (inl b) =
    inr (or_blank win row, rw e (gate_fresh ver win row b ∙ rw (← e, u) refl))
gate-Held ver win ev row (u, inl older) (inr (d, e)) =
    inr (d, rw e (gate_stale ver ev _ win.lsn (overlay-Stamped win ver d) (omega arith)))
gate-Held ver win ev row (u, inr same) (inr (d, e)) =
    inr (d, rw (e, same) (gate_stale ver win _ win.lsn (overlay-Stamped win ver d) (omega arith)))

gate_all-Held :
    (ver : ℤ) (win : CdcEvent) (evs : List CdcEvent) (row : Option Doc)
    → All (Loses win) evs
    → Held ver win row
    → Held ver win (gate_all ver evs row)
unfolding gate_all
gate_all-Held ver win [] row a h = h
gate_all-Held ver win (ev ∷ evs) row a h =
    gate_all-Held ver win evs (gate ver ev row) a.1 (gate-Held ver win ev row a.0 h)

Below-not_Reached : (n : ℤ) (row : Option Doc) → Below n row → ¬ Reached n row
Below-not_Reached n none b (d, m, e, s, h) = cc
Below-not_Reached n (some d') (m', s', l) (d, m, e, s, h) =
    let same : d' ≡ d = cc in
    let stamps : at m' ≡ at m = sym s' ∙ (ap stamp same ∙ s) in
    let k : m' ≡ m = cc in omega (arith, rw k at l)

pub Held-Reached :
    (ver : ℤ) (win : CdcEvent) (row : Option Doc)
    → Held ver win row
    → Reached win.lsn row
    → IsLatest ver win row
Held-Reached ver win row (inl b) r = absurd (Below-not_Reached win.lsn row b r)
Held-Reached ver win row (inr l) r = l

-- The newest event of a document is not followed by a delete of it.
pub of_doc-Keeps :
    (table id : String) (win : CdcEvent) (evs : List CdcEvent)
    → All (Loses win) (of_doc table id evs)
    → All (Keeps table id) evs
of_doc-Keeps table id win [] a = tt
of_doc-Keeps table id win (ev ∷ evs) a = elim (Bool-cases (ev.table == table)) [
  | inr t ↦ (rw t refl, of_doc-Keeps table id win evs (rw t at a))
  | inl t ↦
      let b : All (Loses win) (of_id id (ev ∷ of_table table evs)) = rw t at a in
      elim (Bool-cases (doc_id ev == id)) [
        | inr d ↦ (rw (t, d) refl, of_doc-Keeps table id win evs (rw d at b))
        | inl d ↦
            let c : Loses win ev × All (Loses win) (of_doc table id evs) = rw d at b in
            (rw (t, d) c.0.0, of_doc-Keeps table id win evs c.1)
      ]
]

-- An event of the document loses.
Beaten : String → CdcEvent → CdcEvent → Type 0
Beaten id win ev = (doc_id ev == id) ≡ true → Loses win ev

of_id-Beaten :
    (id : String) (win : CdcEvent) (evs : List CdcEvent)
    → All (Loses win) (of_id id evs)
    → All (Beaten id win) evs
unfolding Beaten
of_id-Beaten id win [] a = tt
of_id-Beaten id win (ev ∷ evs) a = elim (Bool-cases (doc_id ev == id)) [
  | inl d ↦
      let c : Loses win ev × All (Loses win) (of_id id evs) = rw d at a in
      ((λ h. c.0), of_id-Beaten id win evs c.1)
  | inr d ↦ ((λ h. cc), of_id-Beaten id win evs (rw d at a))
]

Beaten-of_id :
    (id : String) (win : CdcEvent) (evs : List CdcEvent)
    → All (Beaten id win) evs
    → All (Loses win) (of_id id evs)
unfolding Beaten
Beaten-of_id id win [] a = tt
Beaten-of_id id win (ev ∷ evs) a = elim (Bool-cases (doc_id ev == id)) [
  | inl d ↦ rw d (a.0 d, Beaten-of_id id win evs a.1)
  | inr d ↦ rw d (Beaten-of_id id win evs a.1)
]

of_id-Loses :
    (id : String) (win : CdcEvent) (evs ran : List CdcEvent)
    → Within ran evs
    → All (Loses win) (of_id id evs)
    → All (Loses win) (of_id id ran)
of_id-Loses id win evs ran w a =
    Beaten-of_id id win ran (Within-all (Beaten id win) ran evs w (of_id-Beaten id win evs a))

of_doc-append :
    (table id : String) (xs ys : List CdcEvent)
    → of_doc table id (xs ++ ys) ≡ of_doc table id xs ++ of_doc table id ys
of_doc-append table id xs ys =
    ap (of_id id) (filter-append (λ (ev : CdcEvent). ev.table == table) xs ys)
    ∙ filter-append (λ ev. doc_id ev == id) (of_table table xs) (of_table table ys)

module _ (S : Server) (L : IsLawful S) (R : RunsSome S)
    (range : Dict (List WriteModel) → Dict (List WriteModel)) (m : MongoWriter) (start : World S)
    (r : IsRange range) (n : Native S L m.schema_version start.store) where
  pub current-Held :
      (bs : List (List CdcEvent)) (table id : String) (win : CdcEvent)
      → All IsPlain (handed bs)
      → All (Loses win) (of_doc table id (handed bs))
      → Below win.lsn (row S start.store table id)
      → Held m.schema_version win (row S (current S range m start bs).store table id)
  current-Held [] table id win p a b = inl b
  current-Held (evs ∷ bs) table id win p a b =
      let (p0, p1) = unappend IsPlain evs (handed bs) p in
      let (a0, a1) =
        unappend (Loses win) (of_doc table id evs) (of_doc table id (handed bs))
          (rw (of_doc-append table id evs (handed bs)) at a) in
      let before = current-Native S L R range m start r n bs p1 in
      let (ran, within, rows) =
        apply_batch-Drifted S L R range m evs (current S range m start bs) r p0 before table in
      rw (rows id) (
        gate_all-Held m.schema_version win (of_id id ran) _
          (of_id-Loses id win (of_table table evs) ran within a0)
          (current-Held bs table id win p1 a1 b))

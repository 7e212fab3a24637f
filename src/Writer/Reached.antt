-- ===== src/Writer/Reached.antt =====
-- How far a document has come: upserts only move it on.
use public_pg2mongo_cd_c.Base.{false, Option, none, some, ℤ, ltb_ℤ, ◌≤ℤ◌, ◌≡◌, refl}
use public_pg2mongo_cd_c.Base.{
  ◌==◌, arith, inl, inr, List, [], ◌∷◌, All, Bool-cases, In, ltb_ℤ→≤ℤ, ltb_ℤ→<ℤ,
}
use public_pg2mongo_cd_c.Writer.{CdcEvent, op_delete, set_fields, doc_id}
use public_pg2mongo_cd_c.Writer.Gate.{
  Doc, Stamp, at, unset, foreign, stamp, gate, gate_all, gate_upsert, overlay, blank,
}
use public_pg2mongo_cd_c.Writer.Exec.{IsNative}
use public_pg2mongo_cd_c.Writer.Replay.{Stamped, overlay-Stamped, gate-Stamped}
use public_pg2mongo_cd_c.Writer.Batch.Effect.{gate-IsNative}

-- The document is there, and carries an LSN of at least `n`.
abbrev pub Reached : ℤ → Option Doc → Type 0
Reached n row = (d : Doc) × (m : ℤ) × (row ≡ some d) × Stamped m d × (n ≤ℤ m)

abbrev pub IsUpsert : CdcEvent → Type 0
IsUpsert ev = (ev.op == op_delete) ≡ false

overlay-Reached :
    (ver : ℤ) (ev : CdcEvent) (d : Doc) (n : ℤ)
    → n ≤ℤ ev.lsn
    → Reached n (some (overlay (set_fields ev ver) d))
overlay-Reached ver ev d n h =
    (overlay (set_fields ev ver) d, ev.lsn, refl, overlay-Stamped ev ver d, h)

gate-Reached :
    (ver : ℤ) (ev : CdcEvent) (n : ℤ) (row : Option Doc)
    → IsUpsert ev
    → Reached n row
    → Reached n (gate ver ev row)
gate-Reached ver ev n row u (d, m, e, s, h) = elim (Bool-cases (ltb_ℤ m ev.lsn)) [
  | inl t ↦
      rw (e, gate-Stamped ver ev d m s, t, u)
        (overlay-Reached ver ev d n (omega (arith, h, ltb_ℤ→<ℤ m ev.lsn t)))
  | inr t ↦ rw (e, gate-Stamped ver ev d m s, t) (d, m, refl, s, h)
]

pub gate_all-Reached :
    (ver : ℤ) (evs : List CdcEvent) (n : ℤ) (row : Option Doc)
    → All IsUpsert evs
    → Reached n row
    → Reached n (gate_all ver evs row)
unfolding gate_all
gate_all-Reached ver [] n row u h = h
gate_all-Reached ver (ev ∷ evs) n row (u, us) h =
    gate_all-Reached ver evs n (gate ver ev row) us (gate-Reached ver ev n row u h)

-- An upsert takes a document with a number or nothing as its LSN to its own LSN at least.
gate_upsert_reaches :
    (ver : ℤ) (ev : CdcEvent) (d : Doc) (st : Stamp)
    → stamp d ≡ st
    → IsNative (some d)
    → Reached ev.lsn (gate_upsert ver ev (some d))
gate_upsert_reaches ver ev d unset e n =
    rw (e, gate_upsert) (overlay-Reached ver ev d ev.lsn (omega arith))
gate_upsert_reaches ver ev d foreign e n = absurd (n e)
gate_upsert_reaches ver ev d (at m) e n = elim (Bool-cases (ltb_ℤ m ev.lsn)) [
  | inl t ↦ rw (e, gate_upsert, t) (overlay-Reached ver ev d ev.lsn (omega arith))
  | inr t ↦ rw (e, gate_upsert, t) (d, m, refl, e, ltb_ℤ→≤ℤ m ev.lsn t)
]

gate_reaches :
    (ver : ℤ) (ev : CdcEvent) (row : Option Doc)
    → IsUpsert ev
    → IsNative row
    → Reached ev.lsn (gate ver ev row)
unfolding gate
gate_reaches ver ev none u n =
    rw u (overlay-Reached ver ev (blank (doc_id ev)) ev.lsn (omega arith))
gate_reaches ver ev (some d) u n = rw u (gate_upsert_reaches ver ev d (stamp d) refl n)

-- Upserts that pass the gate take the document to each of their LSNs.
pub gate_all_reaches :
    (ver : ℤ) (evs : List CdcEvent) (ev : CdcEvent) (row : Option Doc)
    → All IsUpsert evs
    → IsNative row
    → In ev evs
    → Reached ev.lsn (gate_all ver evs row)
unfolding gate_all
gate_all_reaches ver [] ev row u n h = absurd h
gate_all_reaches ver (x ∷ evs) ev row (u, us) n (inl e) =
    gate_all-Reached ver evs ev.lsn (gate ver x row) us (rw e (gate_reaches ver x row u n))
gate_all_reaches ver (x ∷ evs) ev row (u, us) n (inr h) =
    gate_all_reaches ver evs ev (gate ver x row) us (gate-IsNative ver x row n) h

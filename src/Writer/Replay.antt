-- ===== src/Writer/Replay.antt =====
-- Redelivery: what repeated, stale and reordered events do to one document.
use public_pg2mongo_cd_c.Base.{true, false, Option, none, some, ℤ, ltb_ℤ, ◌≤ℤ◌, ◌<ℤ◌}
use public_pg2mongo_cd_c.Base.{◌≡◌, refl, ◌∙◌, ◌==◌, if◌then◌else◌, arith, str_dec, inl, inr, ◌⊎◌}
use public_pg2mongo_cd_c.Base.{List, [], ◌∷◌, ◌++◌, All, Bool-cases, ltb_ℤ-eq-false, <ℤ→ltb_ℤ}
use public_pg2mongo_cd_c.Value.{int, get}
use public_pg2mongo_cd_c.Value.Laws.{get-put}
use public_pg2mongo_cd_c.Writer.{CdcEvent, op_delete, doc_id, set_fields}
use public_pg2mongo_cd_c.Writer.Gate.{
  Doc, stamp, at, gate, gate_all, overlay, blank, gate_delete, gate_upsert,
}

abbrev pub Stamped : ℤ → Doc → Type 0
Stamped n d = stamp d ≡ at n

-- A document, if there is one, carries an LSN below `n`.
abbrev pub Below : ℤ → Option Doc → Type 0
Below n none = Unit
Below n (some d) = (m : ℤ) × Stamped m d × (m <ℤ n)

set_fields-stamp :
    (ev : CdcEvent) (ver : ℤ) → get "sourceLsn" (set_fields ev ver) ≡ some (int ev.lsn)
unfolding set_fields str_dec
set_fields-stamp ev ver = rw (get-put, get-put)

pub overlay-Stamped :
    (ev : CdcEvent) (ver : ℤ) (d : Doc) → Stamped ev.lsn (overlay (set_fields ev ver) d)
overlay-Stamped ev ver d = rw (set_fields-stamp ev ver)

-- What an event makes of a document, or of a blank one, that it may write.
abbrev pub written : ℤ → CdcEvent → Doc → Option Doc
written ver ev d = if ev.op == op_delete then none else some (overlay (set_fields ev ver) d)

pub gate-none : (ver : ℤ) (ev : CdcEvent) → gate ver ev none ≡ written ver ev (blank (doc_id ev))
unfolding gate
gate-none ver ev = refl

pub gate-Stamped :
    (ver : ℤ) (ev : CdcEvent) (d : Doc) (m : ℤ)
    → Stamped m d
    → gate ver ev (some d) ≡ (if ltb_ℤ m ev.lsn then written ver ev d else some d)
unfolding gate
gate-Stamped ver ev d m s = elim (Bool-cases (ev.op == op_delete)) [
  | inl t ↦ rw (t, s, gate_delete) refl
  | inr t ↦ rw (t, s, gate_upsert) refl
]

-- A redelivered or stale event, an upsert or a delete, changes nothing.
pub gate_stale :
    (ver : ℤ) (ev : CdcEvent) (d : Doc) (n : ℤ)
    → Stamped n d
    → ev.lsn ≤ℤ n
    → gate ver ev (some d) ≡ some d
gate_stale ver ev d n s h = gate-Stamped ver ev d n s ∙ rw (ltb_ℤ-eq-false n ev.lsn h)

-- What the document is before the event writes over it.
abbrev pub or_blank : CdcEvent → Option Doc → Doc
or_blank ev none = blank (doc_id ev)
or_blank ev (some d) = d

-- A fresh event wins: a delete leaves no document, an upsert one that carries its LSN.
pub gate_fresh :
    (ver : ℤ) (ev : CdcEvent) (row : Option Doc)
    → Below ev.lsn row
    → gate ver ev row ≡ written ver ev (or_blank ev row)
gate_fresh ver ev none b = gate-none ver ev
gate_fresh ver ev (some d) (m, s, l) = gate-Stamped ver ev d m s ∙ rw (<ℤ→ltb_ℤ m ev.lsn l)

written-Below :
    (ver : ℤ) (ev : CdcEvent) (d : Doc) (n : ℤ) → ev.lsn <ℤ n → Below n (written ver ev d)
written-Below ver ev d n h = elim (Bool-cases (ev.op == op_delete)) [
  | inl t ↦ rw t tt
  | inr t ↦ rw t (ev.lsn, overlay-Stamped ev ver d, h)
]

pub gate-Below :
    (ver : ℤ) (ev : CdcEvent) (row : Option Doc) (n : ℤ)
    → ev.lsn <ℤ n
    → Below n row
    → Below n (gate ver ev row)
gate-Below ver ev none n h b = rw (gate-none ver ev) (written-Below ver ev _ n h)
gate-Below ver ev (some d) n h (m, s, l) = elim (Bool-cases (ltb_ℤ m ev.lsn)) [
  | inl t ↦ rw (gate-Stamped ver ev d m s, t) (written-Below ver ev d n h)
  | inr t ↦ rw (gate-Stamped ver ev d m s, t) (m, s, l)
]

pub gate_all-Below :
    (ver : ℤ) (evs : List CdcEvent) (row : Option Doc) (n : ℤ)
    → All (λ ev. ev.lsn <ℤ n) evs
    → Below n row
    → Below n (gate_all ver evs row)
unfolding gate_all
gate_all-Below ver [] row n a b = b
gate_all-Below ver (ev ∷ evs) row n a b =
    gate_all-Below ver evs (gate ver ev row) n a.1 (gate-Below ver ev row n a.0 b)

pub gate_all-append :
    (ver : ℤ) (xs ys : List CdcEvent) (row : Option Doc)
    → gate_all ver (xs ++ ys) row ≡ gate_all ver ys (gate_all ver xs row)
unfolding gate_all
gate_all-append ver [] ys row = refl
gate_all-append ver (x ∷ xs) ys row = gate_all-append ver xs ys (gate ver x row)

-- After an upsert, events that are no newer change nothing, in any order and number.
pub gate_all_stale :
    (ver : ℤ) (evs : List CdcEvent) (d : Doc) (n : ℤ)
    → Stamped n d
    → All (λ ev. ev.lsn ≤ℤ n) evs
    → gate_all ver evs (some d) ≡ some d
unfolding gate_all
gate_all_stale ver [] d n s a = refl
gate_all_stale ver (ev ∷ evs) d n s a =
    rw (gate_stale ver ev d n s a.0) (gate_all_stale ver evs d n s a.1)

-- A log of one key whose last event has the highest LSN.
abbrev pub BeforeLast : CdcEvent → List CdcEvent → Type 0
BeforeLast last evs = All (λ ev. ev.lsn <ℤ last.lsn) evs

gate_all-last :
    (ver : ℤ) (log : List CdcEvent) (last : CdcEvent) (row : Option Doc)
    → BeforeLast last log
    → Below last.lsn row
    → gate_all ver (log ++ last ∷ []) row ≡ written ver last (or_blank last (gate_all ver log row))
gate_all-last ver log last row a b =
    gate_all-append ver log (last ∷ []) row
    ∙ unfold gate_all in gate_fresh ver last _ (gate_all-Below ver log row last.lsn a b)

no_newer :
    (last : CdcEvent) (evs : List CdcEvent)
    → BeforeLast last evs
    → All (λ ev. ev.lsn ≤ℤ last.lsn) (evs ++ last ∷ [])
no_newer last [] a = (omega arith, tt)
no_newer last (ev ∷ evs) a = (omega arith, no_newer last evs a.1)

-- On one document, redelivering a tail of events that ends with the newest event of the log leaves
-- what the log had left, whether the newest event is an upsert or a delete.
pub replay_tail :
    (ver : ℤ) (log tail : List CdcEvent) (last : CdcEvent)
    → BeforeLast last log
    → BeforeLast last tail
    → let final = gate_all ver (log ++ last ∷ []) none in
      gate_all ver (tail ++ last ∷ []) final ≡ final
replay_tail ver log tail last a b = elim (Bool-cases (last.op == op_delete)) [
  | inl t ↦
      rw (gate_all-last ver log last none a tt, t) (gate_all-last ver tail last none b tt ∙ rw t)
  | inr t ↦
      rw (gate_all-last ver log last none a tt, t)
        (gate_all_stale ver (tail ++ last ∷ []) _ last.lsn
          (overlay-Stamped last ver (or_blank last (gate_all ver log none))) (no_newer last tail b))
]

-- On one document that is older than a delete, the delete and then an older upsert leave the older
-- upsert's document.
pub stale_after_delete :
    (ver : ℤ) (del old : CdcEvent) (row : Option Doc)
    → (del.op == op_delete) ≡ true
    → (old.op == op_delete) ≡ false
    → old.lsn <ℤ del.lsn
    → Below del.lsn row
    → gate_all ver (del ∷ old ∷ []) row ≡ some (overlay (set_fields old ver) (blank (doc_id old)))
unfolding gate_all
stale_after_delete ver del old row d u older b =
    rw (gate_fresh ver del row b, d) (gate-none ver old ∙ rw u)

abbrev pub Has : CdcEvent → List CdcEvent → Type 0
Has w [] = ⊥
Has w (ev ∷ evs) = (ev ≡ w) ⊎ Has w evs

-- Upserts, each older than `w` or `w` itself.
abbrev pub Loses : CdcEvent → CdcEvent → Type 0
Loses w ev = ((ev.op == op_delete) ≡ false) × ((ev.lsn <ℤ w.lsn) ⊎ (ev ≡ w))

pub Loses-le :
    (w : CdcEvent) (evs : List CdcEvent) → All (Loses w) evs → All (λ ev. ev.lsn ≤ℤ w.lsn) evs
Loses-le w [] a = tt
Loses-le w (ev ∷ evs) a = (le a.0.1, Loses-le w evs a.1)
  where
    le : (ev.lsn <ℤ w.lsn) ⊎ (ev ≡ w) → ev.lsn ≤ℤ w.lsn
    le (inl h) = omega arith
    le (inr e) = rw e (omega arith)

winner_settles :
    (ver : ℤ) (w ev : CdcEvent) (evs : List CdcEvent) (row : Option Doc)
    → ev ≡ w
    → (ev.op == op_delete) ≡ false
    → All (Loses w) evs
    → Below w.lsn row
    → (d : Doc) × (gate_all ver evs (gate ver ev row) ≡ some (overlay (set_fields w ver) d))
winner_settles ver w ev evs row e u a b =
    let d = or_blank w row in
    let first : gate ver ev row ≡ some (overlay (set_fields w ver) d) =
      rw e (gate_fresh ver w row b ∙ rw (← e, u)) in
    (d, rw first (gate_all_stale ver evs _ w.lsn (overlay-Stamped w ver d) (Loses-le w evs a)))

-- Upserts of one key in any order: the one with the highest LSN decides the document.
pub upserts_converge :
    (ver : ℤ) (w : CdcEvent) (evs : List CdcEvent) (row : Option Doc)
    → All (Loses w) evs
    → Has w evs
    → Below w.lsn row
    → (d : Doc) × (gate_all ver evs row ≡ some (overlay (set_fields w ver) d))
unfolding gate_all
upserts_converge ver w [] row a h b = absurd h
upserts_converge ver w (ev ∷ evs) row a h b = elim a.0.1 [
  | inr e ↦ winner_settles ver w ev evs row e a.0.0 a.1 b
  | inl older ↦ elim h [
    | inl e ↦ winner_settles ver w ev evs row e a.0.0 a.1 b
    | inr later ↦
        upserts_converge ver w evs (gate ver ev row) a.1 later (gate-Below ver ev row w.lsn older b)
  ]
]

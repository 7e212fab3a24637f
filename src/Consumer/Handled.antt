-- ===== src/Consumer/Handled.antt =====
-- Which records have been handled: tombstones, and those whose events have been applied.
use public_pg2mongo_cd_c.Base.{none, ◌≡◌, refl, ◌⊎◌, inl, inr}
use public_pg2mongo_cd_c.Base.{List, [], ◌∷◌, ◌++◌, All, In, In-right}
use public_pg2mongo_cd_c.Writer.{CdcEvent}
use public_pg2mongo_cd_c.Decoder.{
  Json, tombstone, parse_value, parse_key, bad_lsn, empty_pk, Decoded, ok, err, decode,
}
use public_pg2mongo_cd_c.Consumer.{
  KafkaRecord, KafkaConsumer, Writer, Batch, events, undecoded, decode_all, prepend, apply_events,
}
use public_pg2mongo_cd_c.Consumer.Laws.{Upto, WriterLaws}

-- How a batch with a first record is decoded.
FirstDecoded : Decoded → Batch → List CdcEvent → Type 0
FirstDecoded d rest evs =
    ((d ≡ err tombstone) × (rest ≡ events evs))
    ⊎ ((ev : CdcEvent) × (tail : List CdcEvent) × (d ≡ ok ev)
        × (rest ≡ events tail)
        × (evs ≡ ev ∷ tail))

prepended :
    (ev : CdcEvent) (rest : Batch) (evs : List CdcEvent)
    → prepend ev rest ≡ events evs
    → FirstDecoded (ok ev) rest evs
unfolding FirstDecoded
prepended ev (events tail) evs h = inr (ev, tail, refl, refl, cc)
prepended ev (undecoded offset e) evs h = cc

decode_all-cons :
    (json : Json) (r : KafkaRecord) (rs : List KafkaRecord) (evs : List CdcEvent)
    → decode_all json (r ∷ rs) ≡ events evs
    → FirstDecoded (decode json r.key r.value) (decode_all json rs) evs
unfolding decode_all FirstDecoded
decode_all-cons json r rs evs h = split (decode json r.key r.value) (decode_all json rs) h
  where
    split :
        (d : Decoded) (rest : Batch)
        → (elim d [ ok ev ↦ prepend ev rest | err tombstone ↦ rest | err e ↦ undecoded r.offset e ])
          ≡ events evs
        → FirstDecoded d rest evs
    split (ok ev) rest k = prepended ev rest evs k
    split (err tombstone) rest k = inl (refl, k)
    split (err parse_value) rest k = cc
    split (err parse_key) rest k = cc
    split (err bad_lsn) rest k = cc
    split (err empty_pk) rest k = cc

module _ {E : Type 0} (json : Json) (W : Writer E) (WL : WriterLaws W) where
  -- A tombstone, or a record whose event has been applied.
  abbrev pub Handled : W.State → KafkaRecord → Type 0
  Handled s r =
      (decode json r.key r.value ≡ err tombstone)
      ⊎ ((ev : CdcEvent) × (decode json r.key r.value ≡ ok ev) × WL.Applied s ev)

  pub applied-Handled :
      (s : W.State) (rs : List KafkaRecord) (evs : List CdcEvent)
      → decode_all json rs ≡ events evs
      → All (WL.Applied s) evs
      → All (Handled s) rs
  unfolding FirstDecoded
  applied-Handled s [] evs h a = tt
  applied-Handled s (r ∷ rs) evs h a = elim (decode_all-cons json r rs evs h) [
    | inl (d, rest) ↦ (inl d, applied-Handled s rs evs rest a)
    | inr (ev, tail, d, rest, e) ↦
        let b : All (WL.Applied s) (ev ∷ tail) = rw e at a in
        (inr (ev, d, b.0), applied-Handled s rs tail rest b.1)
  ]

  pub Handled-stays :
      (evs : List CdcEvent) (s : W.State) (r : KafkaRecord)
      → Handled s r
      → Handled (W.apply_batch evs s).0 r
  Handled-stays evs s r (inl t) = inl t
  Handled-stays evs s r (inr (ev, d, a)) = inr (ev, d, WL.applied_stays evs s ev a)

  -- The record, or a later one of its partition, is one of those polled, and that one has been
  -- handled.
  abbrev pub Passed : List KafkaRecord → W.State → KafkaRecord → Type 0
  Passed log s x = (r : KafkaRecord) × Upto x r × In r log × Handled s r

  pub Passed-stays :
      (log : List KafkaRecord) (evs : List CdcEvent) (s : W.State) (r : KafkaRecord)
      → Passed log s r
      → Passed log (W.apply_batch evs s).0 r
  Passed-stays log evs s x (r, u, i, h) = (r, u, i, Handled-stays evs s r h)

  pub Passed-grows :
      (old log : List KafkaRecord) (s : W.State) (r : KafkaRecord)
      → Passed log s r
      → Passed (old ++ log) s r
  Passed-grows old log s x (r, u, i, h) = (r, u, In-right r old log i, h)

module _ {E : Type 0} (json : Json) (C : KafkaConsumer E) (W : Writer E) (WL : WriterLaws W) where
  pub apply_events-applied :
      (evs : List CdcEvent) (s : W.State)
      → (apply_events json C W evs s).1 ≡ none
      → All (WL.Applied (apply_events json C W evs s).0) evs
  apply_events-applied [] s h = tt
  apply_events-applied (ev ∷ evs) s h = WL.applied_all (ev ∷ evs) s h

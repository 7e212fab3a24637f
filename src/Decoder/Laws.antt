-- ===== src/Decoder/Laws.antt =====
-- What `Decode` accepts, and what it makes of it.
use public_pg2mongo_cd_c.Base.{ℕ, true, false, some, ℤ, List, ◌≡◌, ◌≢◌, ◌↔◌, refl}
use public_pg2mongo_cd_c.Base.{
  arith, ◌==◌, String, [], ◌∷◌, none, pos, Bool-cases, Option-cases, ==→eq, ◌⊎◌, inl, inr, ap, sym,
  ◌∙◌,
}
use mathlib.Core.Path.{subst}
use public_pg2mongo_cd_c.Writer.{CdcEvent}
use public_pg2mongo_cd_c.Decoder.{
  ValueEnvelope, KeyEnvelope, Json, ok, err, tombstone, decode, is_tombstone, event_of, trim_space,
  null_bytes, same_bytes, source_ts_ms_of,
}
use public_pg2mongo_cd_c.Decoder.Number.{int64, IsInt64, int64-IsInt64}

-- A value that stands for a deletion already seen: empty, or null between spaces.
abbrev pub IsTombstone : List ℕ → Type 0
IsTombstone value = (value ≡ []) ⊎ (trim_space value ≡ null_bytes)

same_bytes→eq : (s t : List ℕ) → same_bytes s t ≡ true → s ≡ t
same_bytes→eq [] [] h = refl
same_bytes→eq [] (b ∷ t) h = cc
same_bytes→eq (a ∷ s) [] h = cc
same_bytes→eq (a ∷ s) (b ∷ t) h =
    let rest : same_bytes s t ≡ true = ground arith in
    let e = same_bytes→eq s t rest in let f : a ≡ b = ground arith in cc

same_bytes_self : (s : List ℕ) → same_bytes s s ≡ true
same_bytes_self [] = refl
same_bytes_self (a ∷ s) = let rest = same_bytes_self s in ground arith

pub is_tombstone-IsTombstone : (value : List ℕ) → is_tombstone value ≡ true → IsTombstone value
unfolding is_tombstone
is_tombstone-IsTombstone [] h = inl refl
is_tombstone-IsTombstone (b ∷ value) h =
    inr (same_bytes→eq (trim_space (b ∷ value)) null_bytes (ground arith))

IsTombstone-is_tombstone : (value : List ℕ) → IsTombstone value → is_tombstone value ≡ true
unfolding is_tombstone
IsTombstone-is_tombstone value (inl e) = rw e refl
IsTombstone-is_tombstone value (inr e) =
    let s : same_bytes (trim_space value) null_bytes ≡ true = rw e (same_bytes_self null_bytes) in
    ground arith

pub live-IsTombstone : (value : List ℕ) → is_tombstone value ≡ false → ¬ IsTombstone value
live-IsTombstone value h t = let e = IsTombstone-is_tombstone value t in cc

IsTombstone-live : (value : List ℕ) → (¬ IsTombstone value) → is_tombstone value ≡ false
IsTombstone-live value h = elim (Bool-cases (is_tombstone value)) [
  | inl e ↦ absurd (h (is_tombstone-IsTombstone value e))
  | inr e ↦ e
]

-- The time of a text: its number, or 0 for a text that is none.
abbrev pub Time : String → ℤ → Type 0
Time s n = ((int64 s ≡ none) × (n ≡ pos 0)) ⊎ (int64 s ≡ some n)

no_number : int64 "" ≡ none
unfolding int64
no_number = refl

source_ts_ms_of-Time : (s : String) → Time s (source_ts_ms_of s)
unfolding source_ts_ms_of
source_ts_ms_of-Time s = elim (Bool-cases (s == "")) [
  | inl e ↦ rw e (inl (ap int64 (==→eq s "" e) ∙ no_number, refl))
  | inr e ↦ elim (Option-cases (int64 s)) [
    | inl n ↦ rw (e, n) (inl (refl, refl))
    | inr (t, n) ↦ rw (e, n) (inr refl)
  ]
]

Time-source_ts_ms_of : (s : String) (n : ℤ) → Time s n → n ≡ source_ts_ms_of s
Time-source_ts_ms_of s n t = elim (source_ts_ms_of-Time s) [
  | inl (a, b) ↦ elim t [ inl (c, d) ↦ d ∙ sym b | inr c ↦ cc ]
  | inr a ↦ elim t [ inl (c, d) ↦ cc | inr c ↦ cc ]
]

module _ (json : Json) (key value : List ℕ) where
  -- Where a decoded event comes from.
  pub record Origin (ev : CdcEvent) : Type 0 where
    pub v : ValueEnvelope
    pub k : KeyEnvelope
    pub live : ¬ IsTombstone value
    pub value_parsed : json.value_envelope value ≡ some v
    pub key_parsed : json.key_envelope key ≡ some k
    pub lsn_parsed : int64 v.lsn ≡ some ev.lsn
    pub has_pk : k.id ≢ ""
    pub table : ev.table ≡ v.table
    pub pk : ev.pk ≡ k.id
    pub op : ev.op ≡ v.op
    pub after : ev.after ≡ v.after
    pub before : ev.before ≡ v.before
    pub time : Time v.ts_ms ev.source_ts_ms

  decode_parts :
      (ev : CdcEvent)
      → decode json key value ≡ ok ev
      → (v : ValueEnvelope) × (k : KeyEnvelope) × (is_tombstone value ≡ false)
        × (json.value_envelope value ≡ some v)
        × (json.key_envelope key ≡ some k)
        × (int64 v.lsn ≡ some ev.lsn)
        × ((k.id == "") ≡ false)
        × (ev ≡ event_of v k ev.lsn)
  unfolding decode
  decode_parts ev h = ground arith

  -- Only a tombstone is reported as one.
  pub decode_tombstone : (decode json key value ≡ err tombstone) ↔ (is_tombstone value ≡ true)
  unfolding decode
  decode_tombstone = ground arith

  accepted :
      (v : ValueEnvelope) (k : KeyEnvelope) (lsn : ℤ)
      → is_tombstone value ≡ false
      → json.value_envelope value ≡ some v
      → json.key_envelope key ≡ some k
      → int64 v.lsn ≡ some lsn
      → k.id ≢ ""
      → decode json key value ≡ ok (event_of v k lsn)
  unfolding decode
  accepted v k lsn live vp kp lp pk = rw (live, vp) (rw kp (rw lp (ground (arith, pk))))

  spelt : (ev : CdcEvent) (o : Origin ev) → event_of o.v o.k ev.lsn ≡ ev
  spelt ev o =
      rw
        (
          ← o.table,
          ← o.pk,
          ← o.op,
          ← o.after,
          ← o.before,
          ← Time-source_ts_ms_of o.v.ts_ms ev.source_ts_ms o.time,
        )
        refl

  -- A record decodes to an event exactly when its value is neither empty nor null between spaces,
  -- its value and key parse, its LSN is the text of a number, its key is not empty, and the event
  -- has the table, operation and two row images of the value, the id of the key, that LSN, and the
  -- time that the value spells or 0 where that is no number; the LSN is then a 64-bit number.
  pub decode-Origin :
      (ev : CdcEvent) → (decode json key value ≡ ok ev) ↔ (Origin ev × IsInt64 ev.lsn)
  decode-Origin ev = (
    λ h.
        let (v, k, live, vp, kp, lp, pk, e) = decode_parts ev h in
        (
          record {
            v = v;
            k = k;
            live = live-IsTombstone value live;
            value_parsed = vp;
            key_parsed = kp;
            lsn_parsed = lp;
            has_pk = ground arith;
            table = ap (λ (x : CdcEvent). x.table) e;
            pk = ap (λ (x : CdcEvent). x.pk) e;
            op = ap (λ (x : CdcEvent). x.op) e;
            after = ap (λ (x : CdcEvent). x.after) e;
            before = ap (λ (x : CdcEvent). x.before) e;
            time =
                subst (Time v.ts_ms) (sym (ap (λ (x : CdcEvent). x.source_ts_ms) e))
                  (source_ts_ms_of-Time v.ts_ms);
          },
          int64-IsInt64 v.lsn ev.lsn lp,
        ),
    λ (o, bound).
        accepted o.v o.k ev.lsn (IsTombstone-live value o.live) o.value_parsed o.key_parsed
          o.lsn_parsed o.has_pk
        ∙ ap ok (spelt ev o),
  )

  -- A record that is no tombstone and has a valid LSN and key, but whose envelope has no table and
  -- no operation, decodes to an event of the table "" with the operation "".
  decode_missing_fields :
      (v : ValueEnvelope) (k : KeyEnvelope) (lsn : ℤ)
      → is_tombstone value ≡ false
      → json.value_envelope value ≡ some v
      → json.key_envelope key ≡ some k
      → int64 v.lsn ≡ some lsn
      → k.id ≢ ""
      → v.table ≡ ""
      → v.op ≡ ""
      → (ev : CdcEvent) × (decode json key value ≡ ok ev)
        × (ev.table ≡ "")
        × (ev.op ≡ "")
        × (ev.after ≡ v.after)
  decode_missing_fields v k lsn live vp kp lp pk t o =
      (event_of v k lsn, accepted v k lsn live vp kp lp pk, t, o, refl)

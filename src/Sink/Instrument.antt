-- ===== src/Sink/Instrument.antt =====
-- `instrumentedWriter.ApplyBatch` and `classify`: the counters, the lag samples and the progress of
-- a batch. A counter is the list of its increments; a lag is in nanoseconds.
use mathlib.Core.List.{append-nil, append_assoc}
use public_pg2mongo_cd_c.Base.{
  ℕ, ◌*◌, ◌-◌, String, Bool, true, false, Option, none, some, ◌≡◌, refl, ◌∙◌,
}
use public_pg2mongo_cd_c.Base.{
  List, [], ◌∷◌, ◌++◌, map, length, All, sym, ap, ltb, if◌then◌else◌, arith, ◌||◌,
}
use public_pg2mongo_cd_c.Base.{ℤ, pos, ltb_ℤ, pos_part, ◌≤ℤ◌, ◌⊎◌, inl, inr, Bool-cases}
use public_pg2mongo_cd_c.Writer.{CdcEvent}
use public_pg2mongo_cd_c.Writer.Server.{DriverError, ServerError}
use public_pg2mongo_cd_c.Checkpoint.{Progress, mark_progress}
use public_pg2mongo_cd_c.Checkpoint.Flush.{raised_covers}

abbrev net_label : Bool → String
net_label timeout = if timeout then "timeout" else "connection"

abbrev server_label : ServerError → String
server_label e =
    if e.has_error_code 11000
    then "duplicate_key"
    else if e.has_error_label "NetworkError"
    then "connection"
    else if e.has_error_label "RetryableWriteError"
    then "retryable"
    else "server"

abbrev driver_label : Option Bool → Option ServerError → String
driver_label (some timeout) e = net_label timeout
driver_label none (some e) = server_label e
driver_label none none = "other"

unfoldable pub classify : DriverError → String
classify e =
    if e.canceled || e.deadline_exceeded then "context" else driver_label e.net_error e.server_error

-- The labels that the error counter can have.
abbrev pub labels : List String
labels =
    "context" ∷ "timeout" ∷ "connection" ∷ "duplicate_key" ∷ "retryable" ∷ "server" ∷ "other" ∷ []

abbrev pub OneOf : String → List String → Type 0
OneOf s [] = ⊥
OneOf s (l ∷ ls) = (s ≡ l) ⊎ OneOf s ls

server_label-OneOf : (e : ServerError) → OneOf (server_label e) labels
server_label-OneOf e = elim (Bool-cases (e.has_error_code 11000)) [
  | inl h ↦ rw h (inr (inr (inr (inl refl))))
  | inr h ↦
      rw h
        (other_label (e.has_error_label "NetworkError") (e.has_error_label "RetryableWriteError"))
]
  where
    other_label :
        (n r : Bool)
        → OneOf (if n then "connection" else if r then "retryable" else "server") labels
    other_label true r = inr (inr (inl refl))
    other_label false true = inr (inr (inr (inr (inl refl))))
    other_label false false = inr (inr (inr (inr (inr (inl refl)))))

driver_label-OneOf : (n : Option Bool) (e : Option ServerError) → OneOf (driver_label n e) labels
driver_label-OneOf (some true) e = inr (inl refl)
driver_label-OneOf (some false) e = inr (inr (inl refl))
driver_label-OneOf none (some e) = server_label-OneOf e
driver_label-OneOf none none = inr (inr (inr (inr (inr (inr (inl refl))))))

-- Whatever the error, the label of the error counter is one of seven.
pub classify-OneOf : (e : DriverError) → OneOf (classify e) labels
unfolding classify
classify-OneOf e = elim (Bool-cases (e.canceled || e.deadline_exceeded)) [
  | inl h ↦ rw h (inl refl)
  | inr h ↦ rw h (driver_label-OneOf e.net_error e.server_error)
]

pub record Metrics : Type 0 where
  pub write_errors : List (String × String)
  pub events_processed : List (String × String × String)
  pub replication_lag : List (String × ℕ)

-- `now - UnixMilli(ts)`, not below 0.
abbrev lag_of : ℕ → ℤ → ℕ
lag_of now ts = let source = pos_part ts * 1_000_000 in if ltb now source then 0 else now - source

abbrev observe_lag : ℕ → CdcEvent → Metrics → Metrics
observe_lag now ev m =
    if ltb_ℤ (pos 0) ev.source_ts_ms
    then record m {
      replication_lag = m.replication_lag ++ (ev.table, lag_of now ev.source_ts_ms) ∷ [];
    }
    else m

-- One round of the loop over the events.
unfoldable pub observe : ℕ → CdcEvent → Metrics → Metrics
observe now ev m =
    observe_lag now ev
      (record m { events_processed = m.events_processed ++ ("sink", ev.table, ev.op) ∷ [] })

unfoldable pub observe_all : ℕ → List CdcEvent → Metrics → Metrics
observe_all now [] m = m
observe_all now (ev ∷ evs) m = observe_all now evs (observe now ev m)

-- `maxLSN`, which starts at 0.
unfoldable pub max_lsn : List CdcEvent → ℤ → ℤ
max_lsn [] n = n
max_lsn (ev ∷ evs) n = max_lsn evs (if ltb_ℤ n ev.lsn then ev.lsn else n)

module _ {S : Type 0} {E : Type 0} (inner : List CdcEvent → S → S × Option E)
    (view : E → DriverError) where
  pub record Instrumented : Type 0 where
    pub sink : S
    pub metrics : Metrics
    -- The checkpointer, if one is set.
    pub progress : Option Progress

  abbrev pub marked : List CdcEvent → Option Progress → Option Progress
  marked evs none = none
  marked evs (some p) = some (mark_progress (max_lsn evs (pos 0)) (pos (length evs)) p)

  abbrev pub after_inner : ℕ → List CdcEvent → Instrumented → S × Option E → Instrumented × Option E
  after_inner now evs i (s, some e) = (
    record i {
      sink = s;
      metrics = record (i.metrics) {
        write_errors = i.metrics.write_errors ++ ("mongo", classify (view e)) ∷ [];
      };
    },
    some e,
  )
  after_inner now evs i (s, none) = (
    record { sink = s; metrics = observe_all now evs i.metrics; progress = marked evs i.progress },
    none,
  )

  unfoldable pub apply_batch : ℕ → List CdcEvent → Instrumented → Instrumented × Option E
  apply_batch now evs i = after_inner now evs i (inner evs i.sink)

pub max_lsn_covers :
    (evs : List CdcEvent) (n : ℤ)
    → (n ≤ℤ max_lsn evs n) × All (λ (ev : CdcEvent). ev.lsn ≤ℤ max_lsn evs n) evs
unfolding max_lsn
max_lsn_covers [] n = (omega arith, tt)
max_lsn_covers (ev ∷ evs) n =
    let rest = max_lsn_covers evs (if ltb_ℤ n ev.lsn then ev.lsn else n) in
    (ground (arith, rest.0), (ground (arith, rest.0), rest.1))

-- The labels that an event is counted under.
abbrev pub counted : CdcEvent → String × String × String
counted ev = ("sink", ev.table, ev.op)

observe-counted :
    (now : ℕ) (ev : CdcEvent) (m : Metrics)
    → (observe now ev m).events_processed ≡ m.events_processed ++ counted ev ∷ []
unfolding observe
observe-counted now ev m = elim (Bool-cases (ltb_ℤ (pos 0) ev.source_ts_ms)) [
  | inl h ↦ rw h refl
  | inr h ↦ rw h refl
]

observe_all-counted :
    (now : ℕ) (evs : List CdcEvent) (m : Metrics)
    → (observe_all now evs m).events_processed ≡ m.events_processed ++ map counted evs
unfolding observe_all
observe_all-counted now [] m = sym (append-nil m.events_processed)
observe_all-counted now (ev ∷ evs) m =
    observe_all-counted now evs (observe now ev m)
    ∙ (ap (λ l. l ++ map counted evs) (observe-counted now ev m)
        ∙ append_assoc m.events_processed (counted ev ∷ []) (map counted evs))

observe_all-errors :
    (now : ℕ) (evs : List CdcEvent) (m : Metrics)
    → (observe_all now evs m).write_errors ≡ m.write_errors
unfolding observe_all observe
observe_all-errors now [] m = refl
observe_all-errors now (ev ∷ evs) m = elim (Bool-cases (ltb_ℤ (pos 0) ev.source_ts_ms)) [
  | inl h ↦ observe_all-errors now evs (observe now ev m) ∙ (rw h refl)
  | inr h ↦ observe_all-errors now evs (observe now ev m) ∙ (rw h refl)
]

-- What a batch of events leaves behind in the metrics and in the checkpoint's progress `p`.
abbrev pub Accounted :
    {E : Type 0}
    → (E → DriverError)
    → List CdcEvent
    → Metrics
    → Progress
    → Option Progress
    → Metrics
    → Option E
    → Type 0
Accounted view evs m p q m' (some e) =
    (q ≡ some p)
    × (m' ≡ record m { write_errors = m.write_errors ++ ("mongo", classify (view e)) ∷ [] })
Accounted view evs m p q m' none =
    (p' : Progress) × (q ≡ some p')
    × All (λ (ev : CdcEvent). ev.lsn ≤ℤ p'.max_lsn) evs
    × (m'.events_processed ≡ m.events_processed ++ map counted evs)
    × (m'.write_errors ≡ m.write_errors)

le_trans :
    (evs : List CdcEvent) (m n : ℤ)
    → m ≤ℤ n
    → All (λ (ev : CdcEvent). ev.lsn ≤ℤ m) evs
    → All (λ (ev : CdcEvent). ev.lsn ≤ℤ n) evs
le_trans [] m n h k = tt
le_trans (ev ∷ evs) m n h k = (omega (arith, k.0), le_trans evs m n h k.1)

module _ {S : Type 0} {E : Type 0} (inner : List CdcEvent → S → S × Option E)
    (view : E → DriverError) where
  accounted :
      (now : ℕ) (evs : List CdcEvent) (i : Instrumented inner view) (p : Progress)
      (r : S × Option E)
      → i.progress ≡ some p
      → pos 0 ≤ℤ p.max_lsn
      → Accounted view evs i.metrics p
          (after_inner inner view now evs i r).0.progress
          (after_inner inner view now evs i r).0.metrics
          (after_inner inner view now evs i r).1
  unfolding mark_progress
  accounted now evs i p (s, some e) at h = (at, refl)
  accounted now evs i p (s, none) at h =
      let c = max_lsn_covers evs (pos 0) in
      (
        mark_progress (max_lsn evs (pos 0)) (pos (length evs)) p,
        rw at refl,
        le_trans evs _ _ (raised_covers (max_lsn evs (pos 0)) _ h) c.1,
        observe_all-counted now evs i.metrics,
        observe_all-errors now evs i.metrics,
      )

  -- A batch that the inner writer takes counts each of its events once, in order, under its table
  -- and operation, records no error, and moves the checkpoint, if that was not negative, to a
  -- position that no event of the batch is past. A batch that fails changes nothing in the metrics
  -- but one more error under the label of its class, and leaves the checkpoint where it was.
  pub apply_batch-Accounted :
      (now : ℕ) (evs : List CdcEvent) (i : Instrumented inner view) (p : Progress)
      → i.progress ≡ some p
      → pos 0 ≤ℤ p.max_lsn
      → let r = apply_batch inner view now evs i in
        Accounted view evs i.metrics p r.0.progress r.0.metrics r.1
  unfolding apply_batch
  apply_batch-Accounted now evs i p at h = accounted now evs i p (inner evs i.sink) at h

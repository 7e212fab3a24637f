-- ===== src/Consumer/Simulate.antt =====
-- Two writers that answer alike make two loops that do the same to the client.
use mathlib.Core.Path.{subst}
use public_pg2mongo_cd_c.Base.{ℕ, zero, suc, Option, none, some, ◌≡◌, inl, inr, sym, refl, ◌∙◌, ap}
use public_pg2mongo_cd_c.Base.{List, [], ◌∷◌, length}
use public_pg2mongo_cd_c.Writer.{CdcEvent}
use public_pg2mongo_cd_c.Decoder.{Json}
use public_pg2mongo_cd_c.Consumer.{
  KafkaRecord, KafkaConsumer, Writer, PollResult, records, poll_error, Batch, events, undecoded,
  LoopError, Pipeline, mark_all, run_once, run_rounds, after_apply, after_decode, after_poll,
  apply_events,
}
use public_pg2mongo_cd_c.Consumer.Rounds.{Taken}

module _ {E : Type 0} (json : Json) (C : KafkaConsumer E) (V W : Writer E)
    (view : V.State → W.State)
    (alike : (evs : List CdcEvent) (s : V.State)
      → W.apply_batch evs (view s) ≡ (view (V.apply_batch evs s).0, (V.apply_batch evs s).1)) where
  abbrev pub seen : Pipeline json C V → Pipeline json C W
  seen p = record { cons = p.cons; sink = view p.sink }

  abbrev seen_result :
      Pipeline json C V × Option (LoopError E) → Pipeline json C W × Option (LoopError E)
  seen_result r = (seen r.0, r.1)

  after_apply-seen :
      (rs : List KafkaRecord) (n : ℕ) (p : Pipeline json C V) (o : Option E)
      → after_apply json C W rs n (seen p) o ≡ seen_result (after_apply json C V rs n p o)
  unfolding mark_all
  after_apply-seen rs n p none = refl
  after_apply-seen rs n p (some e) = refl

  apply_events-seen :
      (evs : List CdcEvent) (s : V.State)
      → apply_events json C W evs (view s)
        ≡ (view (apply_events json C V evs s).0, (apply_events json C V evs s).1)
  apply_events-seen [] s = refl
  apply_events-seen (ev ∷ evs) s = alike (ev ∷ evs) s

  after_decode-seen :
      (rs : List KafkaRecord) (p : Pipeline json C V) (b : Batch)
      → after_decode json C W rs (seen p) b ≡ seen_result (after_decode json C V rs p b)
  after_decode-seen rs p (undecoded offset e) = refl
  after_decode-seen rs p (events evs) = rw (apply_events-seen evs p.sink) (
      after_apply-seen rs (length evs) (record p { sink = (apply_events json C V evs p.sink).0 })
        (apply_events json C V evs p.sink).1)

  after_poll-seen :
      (p : Pipeline json C V) (o : PollResult E)
      → after_poll json C W (seen p) o ≡ seen_result (after_poll json C V p o)
  after_poll-seen p (poll_error e) = refl
  after_poll-seen p (records []) = refl
  after_poll-seen p (records (r ∷ rs)) = after_decode-seen (r ∷ rs) p _

  run_once-seen :
      (p : Pipeline json C V) → run_once json C W (seen p) ≡ seen_result (run_once json C V p)
  unfolding run_once
  run_once-seen p = after_poll-seen (record p { cons = (C.poll p.cons).0 }) (C.poll p.cons).1

  -- The rounds over one writer are those over the other, seen through the map of their states.
  pub run_rounds-seen :
      (n : ℕ) (p : Pipeline json C V)
      → run_rounds json C W n (seen p) ≡ seen (run_rounds json C V n p)
  unfolding run_rounds
  run_rounds-seen zero p = refl
  run_rounds-seen (suc n) p =
      ap (λ r. run_rounds json C W n r.0) (run_once-seen p)
      ∙ run_rounds-seen n (run_once json C V p).0

  pub Taken-seen :
      (n : ℕ) (p : Pipeline json C V) (r : KafkaRecord)
      → Taken json C W n (seen p) r
      → Taken json C V n p r
  unfolding Taken
  Taken-seen zero p r t = absurd t
  Taken-seen (suc n) p r (inl (e, i)) = inl (sym (ap (λ x. x.1) (run_once-seen p)) ∙ e, i)
  Taken-seen (suc n) p r (inr t) = inr (
      Taken-seen n (run_once json C V p).0 r
        (subst (λ q. Taken json C W n q r) (ap (λ x. x.0) (run_once-seen p)) t))

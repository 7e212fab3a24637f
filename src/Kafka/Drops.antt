-- ===== src/Kafka/Drops.antt =====
-- A poll that returns an error beside records.
use public_pg2mongo_cd_c.Base.{none, some, ◌≡◌, refl, ap, List, ◌∷◌}
use public_pg2mongo_cd_c.Kgo.{KgoRecord, Fetches, Client}
use public_pg2mongo_cd_c.Decoder.{Json}
use public_pg2mongo_cd_c.Consumer.{poll_error, Writer, Pipeline, poll_failed, run_once}
use public_pg2mongo_cd_c.Kafka.{poll, result_of, franz_consumer}

module _ {E : Type 0} (C : Client E) where
  poll-errors :
      (s t : C.State) (e : E) (es : List E) (rs : List KgoRecord)
      → C.poll_fetches s ≡ (t, record { ctx_err = none; errors = e ∷ es; recs = rs })
      → poll C s ≡ (t, poll_error e)
  unfolding poll
  poll-errors s t e es rs h = ap (λ (x : C.State × Fetches E). (x.0, result_of C x.1)) h

  -- If a fetch fails for one partition, the round applies none of the records that the poll
  -- returned for the others, and the client stays behind them.
  pub run_once_drops :
      (json : Json) (W : Writer E) (p : Pipeline json (franz_consumer C) W) (t : C.State) (e : E)
      (es : List E) (rs : List KgoRecord)
      → C.poll_fetches p.cons ≡ (t, record { ctx_err = none; errors = e ∷ es; recs = rs })
      → run_once json (franz_consumer C) W p ≡ (record p { cons = t }, some (poll_failed e))
  unfolding run_once
  run_once_drops json W p t e es rs h = rw (poll-errors p.cons t e es rs h) refl

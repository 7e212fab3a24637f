-- ===== src/Consumer.antt =====
-- services/sink/internal/consumer: one round of poll, decode, apply and commit. The broker's client
-- and the writer are interfaces there and parameters here; spans are left out.
pub mod Laws
pub mod Handled
pub mod Delivery
pub mod Simulate
pub mod Rounds
pub mod Failure
pub mod Progress
use public_pg2mongo_cd_c.Base.{
  ℕ, zero, suc, String, Bool, true, false, Option, none, some, ℤ, List, [], ◌∷◌, length, ltb,
}
use public_pg2mongo_cd_c.Base.{if◌then◌else◌, ◌==◌, map}
use public_pg2mongo_cd_c.Kgo.{KgoRecord}
use public_pg2mongo_cd_c.Writer.{CdcEvent}
use public_pg2mongo_cd_c.Decoder.{Json, DecodeError, tombstone, ok, err, decode, Decoded}

-- A slice of bytes as the Go string of it.
pub record HeaderKv : Type 0 where
  pub key : String
  pub value : String

-- `Record`; `raw` is the client's own handle, `none` if it is of another type or nil.
pub record KafkaRecord : Type 0 where
  pub key : List ℕ
  pub value : List ℕ
  pub offset : ℕ
  pub partition : ℕ
  pub topic : String
  pub headers : List HeaderKv
  pub raw : Option KgoRecord

module _ (E : Type 0) where
  pub data PollResult : Type 0 where
    records : List KafkaRecord → PollResult
    poll_error : E → PollResult

  -- The two interfaces, over states of their own.
  pub record KafkaConsumer : Type 1 where
    pub State : Type 0
    pub poll : State → State × PollResult
    pub mark_commit : KafkaRecord → State → State
    pub commit_marked : State → State × Option E

  pub record Writer : Type 1 where
    pub State : Type 0
    pub apply_batch : List CdcEvent → State → State × Option E

  pub data LoopError : Type 0 where
    poll_failed : E → LoopError
    decode_failed : ℕ → DecodeError → LoopError
    apply_failed : ℕ → E → LoopError
    commit_failed : E → LoopError

-- `recordHeaderCarrier`: the first header of that key, and the keys in order. Its `Set` does nothing.
unfoldable pub carrier_get : String → List HeaderKv → String
carrier_get k [] = ""
carrier_get k (h ∷ hs) = if h.key == k then h.value else carrier_get k hs

abbrev carrier_key : HeaderKv → String
carrier_key h = h.key

unfoldable pub carrier_keys : List HeaderKv → List String
carrier_keys hs = map carrier_key hs

-- What a poll hands over.
abbrev pub polled : {E : Type 0} → PollResult E → List KafkaRecord
polled (records rs) = rs
polled (poll_error e) = []

pub data Batch : Type 0 where
  events : List CdcEvent → Batch
  undecoded : ℕ → DecodeError → Batch

abbrev prepend : CdcEvent → Batch → Batch
prepend ev (events evs) = events (ev ∷ evs)
prepend ev (undecoded offset e) = undecoded offset e

-- The loop over the records: tombstones are skipped, the first other error ends it.
unfoldable pub decode_all : Json → List KafkaRecord → Batch
decode_all json [] = events []
decode_all json (r ∷ rs) =
    let rest = decode_all json rs in
    elim (decode json r.key r.value) [
      | ok ev ↦ prepend ev rest
      | err tombstone ↦ rest
      | err e ↦ undecoded r.offset e
    ]

module _ {E : Type 0} (json : Json) (C : KafkaConsumer E) (W : Writer E) where
  -- `Loop`, by the states of its two parts.
  pub record Pipeline : Type 0 where
    pub cons : C.State
    pub sink : W.State

  unfoldable pub mark_all : List KafkaRecord → C.State → C.State
  mark_all [] s = s
  mark_all (r ∷ rs) s = mark_all rs (C.mark_commit r s)

  abbrev commit_result : Option E → Option (LoopError E)
  commit_result none = none
  commit_result (some e) = some (commit_failed e)

  abbrev commit_batch : List KafkaRecord → Pipeline → Pipeline × Option (LoopError E)
  commit_batch rs p =
      let r = C.commit_marked (mark_all rs p.cons) in (record p { cons = r.0 }, commit_result r.1)

  -- `ApplyBatch` is called only for a batch with events.
  abbrev apply_events : List CdcEvent → W.State → W.State × Option E
  apply_events [] s = (s, none)
  apply_events (ev ∷ evs) s = W.apply_batch (ev ∷ evs) s

  abbrev after_apply : List KafkaRecord → ℕ → Pipeline → Option E → Pipeline × Option (LoopError E)
  after_apply rs n p none = commit_batch rs p
  after_apply rs n p (some e) = (p, some (apply_failed n e))

  abbrev after_decode : List KafkaRecord → Pipeline → Batch → Pipeline × Option (LoopError E)
  after_decode rs p (undecoded offset e) = (p, some (decode_failed offset e))
  after_decode rs p (events evs) =
      let r = apply_events evs p.sink in after_apply rs (length evs) (record p { sink = r.0 }) r.1

  abbrev after_poll : Pipeline → PollResult E → Pipeline × Option (LoopError E)
  after_poll p (poll_error e) = (p, some (poll_failed e))
  after_poll p (records []) = (p, none)
  after_poll p (records (r ∷ rs)) = after_decode (r ∷ rs) p (decode_all json (r ∷ rs))

  unfoldable pub run_once : Pipeline → Pipeline × Option (LoopError E)
  run_once p = let r = C.poll p.cons in after_poll (record p { cons = r.0 }) r.1

  -- `n` rounds, whatever each of them returns.
  unfoldable pub run_rounds : ℕ → Pipeline → Pipeline
  run_rounds zero p = p
  run_rounds (suc n) p = run_rounds n (run_once p).0

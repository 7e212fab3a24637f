-- ===== src/Transformer.antt =====
-- services/transformer/cmd/transformer: one round of poll, rename, produce and commit. The broker's
-- client, encoding/json and the trace context that the propagator injects are parameters; spans are
-- left out.
pub mod Topic
pub mod Round
pub mod Loop
pub mod Safety
pub mod Main
pub mod Renames
use public_pg2mongo_cd_c.Base.{ℕ, String, ◌<>◌, Option, none, some, List, [], ◌∷◌, ◌++◌}
use public_pg2mongo_cd_c.Base.{Dict}
use public_pg2mongo_cd_c.Kgo.{RecordHeader, KgoRecord, Fetches, Client}
use public_pg2mongo_cd_c.Tracing.{inject, carried}
use public_pg2mongo_cd_c.Mapper.{
  Json, Mapper, Applied, applied, parse_error, marshal_error, apply_json,
}
use public_pg2mongo_cd_c.Mapper.Text.{cut_prefix}

abbrev pub topic_of : String → Option String → String
topic_of source (some rest) = "transformed." <> rest
topic_of source none = "transformed." <> source

unfoldable pub target_topic : String → String
target_topic source = topic_of source (cut_prefix source "cdc.")

module _ (E : Type 0) where
  pub data RoundError : Type 0 where
    apply_failed : Applied → RoundError
    client_failed : E → RoundError

-- The value that goes out, or the error of the mapper.
pub data Outgoing : Type 0 where
  send : Option (List ℕ) → Outgoing
  reject : Applied → Outgoing

abbrev outgoing : Applied → Outgoing
outgoing (applied b) = send (some b)
outgoing e = reject e

abbrev transform_value : Json → Mapper → String → Option (List ℕ) → Outgoing
transform_value json m topic none = send none
transform_value json m topic (some b) = outgoing (apply_json json m topic b)

unfoldable pub transform : Json → Mapper → KgoRecord → Outgoing
transform json m r = transform_value json m r.topic r.value

module _ {E : Type 0} (json : Json) (m : Mapper) (C : Client E)
    (trace : C.State → KgoRecord → Dict String) where
  -- The variables of the loop over the records.
  pub record Progress : Type 0 where
    pub client : C.State
    pub first_err : Option (RoundError E)
    pub committable : List KgoRecord

  abbrev pub out_record : KgoRecord → Option (List ℕ) → C.State → KgoRecord
  out_record r v s = record {
    topic = target_topic r.topic;
    key = r.key;
    value = v;
    headers = carried (inject (trace s r) (some []));
    partition = 0;
    offset = 0;
  }

  abbrev produced : KgoRecord → Progress → C.State × Option E → Progress
  produced r p (s, some e) = record p { client = s; first_err = some (client_failed e) }
  produced r p (s, none) = record p { client = s; committable = p.committable ++ r ∷ [] }

  abbrev produce : KgoRecord → Progress → Outgoing → Progress
  produce r p (reject e) = record p { first_err = some (apply_failed e) }
  produce r p (send v) = produced r p (C.produce_sync (out_record r v p.client) p.client)

  abbrev unless_failed : Option (RoundError E) → Progress → Progress → Progress
  unless_failed (some e) old new = old
  unless_failed none old new = new

  unfoldable pub on_record : KgoRecord → Progress → Progress
  on_record r p = unless_failed p.first_err p (produce r p (transform json m r))

  unfoldable pub each_record : List KgoRecord → Progress → Progress
  each_record [] p = p
  each_record (r ∷ rs) p = each_record rs (on_record r p)

  abbrev first_of : Option (RoundError E) → Option E → Option (RoundError E)
  first_of (some e) o = some e
  first_of none none = none
  first_of none (some e) = some (client_failed e)

  abbrev pub commit : List KgoRecord → Progress → C.State × Option (RoundError E)
  commit [] p = (p.client, p.first_err)
  commit (r ∷ rs) p =
      let c = C.commit_marked_offsets (C.mark_commit_records (r ∷ rs) p.client) in
      (c.0, first_of p.first_err c.1)

  abbrev after_each : Progress → C.State × Option (RoundError E)
  after_each p = commit p.committable p

  abbrev after_errors : C.State → List E → List KgoRecord → C.State × Option (RoundError E)
  after_errors s (e ∷ es) rs = (s, some (client_failed e))
  after_errors s [] rs =
      after_each (each_record rs (record { client = s; first_err = none; committable = [] }))

  abbrev pub after_context :
      C.State → Option E → List E → List KgoRecord → C.State × Option (RoundError E)
  after_context s (some e) es rs = (s, some (client_failed e))
  after_context s none es rs = after_errors s es rs

  abbrev after_poll : C.State × Fetches E → C.State × Option (RoundError E)
  after_poll (s, f) = after_context s f.ctx_err f.errors f.recs

  unfoldable pub run_once : C.State → C.State × Option (RoundError E)
  run_once s = after_poll (C.poll_fetches s)

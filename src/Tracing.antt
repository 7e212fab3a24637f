-- ===== src/Tracing.antt =====
-- services/transformer/internal/tracing: the carrier that puts the trace context into the headers
-- of a record, and `Init`, as what it sets and returns. OpenTelemetry's propagator is the
-- parameter of what it sets.
pub mod Headers
use public_pg2mongo_cd_c.Base.{
  String, Bool, true, Option, none, some, List, [], ◌∷◌, map, ◌==◌, if◌then◌else◌, Dict,
}
use public_pg2mongo_cd_c.Kgo.{RecordHeader}
use public_pg2mongo_cd_c.Mapper.Text.{cut_prefix}

-- `KafkaHeaderCarrier`: the headers behind the pointer, `none` if it is nil.
abbrev pub KafkaHeaderCarrier : Type 0
KafkaHeaderCarrier = Option (List RecordHeader)

abbrev pub carried : KafkaHeaderCarrier → List RecordHeader
carried none = []
carried (some hs) = hs

unfoldable pub first_value : String → List RecordHeader → String
first_value k [] = ""
first_value k (h ∷ hs) = if h.key == k then h.value else first_value k hs

unfoldable pub get : String → KafkaHeaderCarrier → String
get k none = ""
get k (some hs) = first_value k hs

-- The first header of that key is replaced; a new one goes to the end.
unfoldable pub replace : String → String → List RecordHeader → List RecordHeader
replace k v [] = record { key = k; value = v } ∷ []
replace k v (h ∷ hs) = if h.key == k then record h { value = v } ∷ hs else h ∷ replace k v hs

unfoldable pub set : String → String → KafkaHeaderCarrier → KafkaHeaderCarrier
set k v none = none
set k v (some hs) = some (replace k v hs)

abbrev key_of : RecordHeader → String
key_of h = h.key

unfoldable pub keys : KafkaHeaderCarrier → List String
keys none = []
keys (some hs) = map key_of hs

-- `Inject`: the propagator sets its pairs, one after another, through the carrier.
unfoldable pub inject : Dict String → KafkaHeaderCarrier → KafkaHeaderCarrier
inject [] c = c
inject ((k, v) ∷ pairs) c = inject pairs (set k v c)

abbrev trim_prefix : String → String → String
trim_prefix s p = elim (cut_prefix s p) [ some rest ↦ rest | none ↦ s ]

-- The collector's address, `none` where tracing stays off. `space` is `strings.TrimSpace`.
unfoldable pub endpoint : (String → String) → String → Option String
endpoint space env =
    if space env == ""
    then none
    else some (trim_prefix (trim_prefix (space env) "http://") "https://")

-- The process-wide settings of OpenTelemetry that `Init` changes: whether the trace context
-- propagator is installed, and the address that the tracer provider sends to.
pub record Otel : Type 0 where
  pub propagator : Bool
  pub provider : Option String

-- `Init`: `exporter` answers with the error of `otlptrace.New` for an address.
module _ {E : Type 0} (space : String → String) (exporter : String → Option E) where
  abbrev pub provided : String → Otel → Option E → Otel × Option E
  provided address o (some e) = (o, some e)
  provided address o none = (record { propagator = true; provider = some address }, none)

  abbrev pub set_up : Otel → Option String → Otel × Option E
  set_up o none = (record o { propagator = true }, none)
  set_up o (some address) = provided address o (exporter address)

  unfoldable pub init : String → Otel → Otel × Option E
  init variable o = set_up o (endpoint space variable)

-- ===== src/Kafka/Headers.antt =====
-- The headers of a record, from the transformer's carrier through Kafka to the sink's.
use public_pg2mongo_cd_c.Base.{String, some, ◌≡◌, refl, ◌∙◌, ap, List, [], ◌∷◌, map}
use public_pg2mongo_cd_c.Base.{◌==◌, if◌then◌else◌, Dict, lookup, NodupKeys}
use public_pg2mongo_cd_c.Kgo.{RecordHeader, KgoRecord}
use public_pg2mongo_cd_c.Consumer.{carrier_get}
use public_pg2mongo_cd_c.Kafka.{record_of, header_of}
use public_pg2mongo_cd_c.Tracing.{
  inject, carried, first_value, get, set, replace, KafkaHeaderCarrier,
}
use public_pg2mongo_cd_c.Tracing.Headers.{value_or, first_value-inject}

carrier_get-header_of :
    (k : String) (hs : List RecordHeader) → carrier_get k (map header_of hs) ≡ first_value k hs
unfolding carrier_get first_value
carrier_get-header_of k [] = refl
carrier_get-header_of k (h ∷ hs) =
    ap (λ (v : String). if h.key == k then h.value else v) (carrier_get-header_of k hs)

get-carried :
    (k : String) (hs : List RecordHeader) (c : KafkaHeaderCarrier)
    → c ≡ some hs
    → first_value k (carried c) ≡ get k c
unfolding get
get-carried k hs c e = rw e refl

inject-some :
    (pairs : Dict String) (hs : List RecordHeader)
    → (out : List RecordHeader) × (inject pairs (some hs) ≡ some out)
unfolding inject set
inject-some [] hs = (hs, refl)
inject-some ((k, v) ∷ pairs) hs = inject-some pairs (replace k v hs)

-- What the transformer's carrier writes into the headers of a record, for pairs of different keys,
-- the sink's carrier reads from the record that it polls: the value of each key, and the empty text
-- for the others.
pub carrier_get-inject :
    (pairs : Dict String) (k : String) (r : KgoRecord)
    → NodupKeys pairs
    → r.headers ≡ carried (inject pairs (some []))
    → carrier_get k (record_of r).headers ≡ value_or (lookup k pairs) ""
unfolding first_value
carrier_get-inject pairs k r u e =
    let (out, f) = inject-some pairs [] in
    carrier_get-header_of k r.headers
    ∙ (rw e (get-carried k out (inject pairs (some [])) f) ∙ first_value-inject k pairs [] u)

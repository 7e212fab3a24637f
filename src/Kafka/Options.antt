-- ===== src/Kafka/Options.antt =====
-- `New`: the options of the sink's Kafka client, as franz-go names them. Times are in seconds.
use public_pg2mongo_cd_c.Base.{ℕ, String, List, [], ◌∷◌}

pub data Opt : Type 0 where
  seed_brokers : List String → Opt
  consumer_group : String → Opt
  consume_regex : Opt
  consume_topics : String → Opt
  disable_auto_commit : Opt
  session_timeout : ℕ → Opt
  heartbeat_interval : ℕ → Opt
  metadata_max_age : ℕ → Opt
  required_acks_all : Opt
  producer_batch_max_bytes : ℕ → Opt
  allow_auto_topic_creation : Opt

unfoldable pub options : List String → String → String → List Opt
options brokers group_id topic_regex =
    seed_brokers brokers
    ∷ consumer_group group_id
    ∷ consume_regex
    ∷ consume_topics topic_regex
    ∷ disable_auto_commit
    ∷ session_timeout 45
    ∷ heartbeat_interval 3
    ∷ metadata_max_age 10
    ∷ []

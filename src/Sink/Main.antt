-- ===== src/Sink/Main.antt =====
-- services/sink/cmd/sink: `main`, from the environment to the trace of what it opens and gives back.
-- The libraries' calls that may fail are inputs, as are `strings.Split` and the registry.
pub mod Start
use public_pg2mongo_cd_c.Base.{
  String, Bool, true, false, Option, none, some, ℤ, pos, List, [], ◌∷◌, ◌≡◌, refl, ◌==◌,
  if◌then◌else◌, ◌&&◌, ℕ,
}
use public_pg2mongo_cd_c.Sink.Env.{env, env_int}
use public_pg2mongo_cd_c.Sink.Tracing.{init}
use public_pg2mongo_cd_c.Tracing.{Otel}
use public_pg2mongo_cd_c.Metrics.{Registry, new, register_checkpoint, register_lag}
use public_pg2mongo_cd_c.Process.{Step, Action, acquire, must, launch, serve, run_from}
use public_pg2mongo_cd_c.Writer.Batch.{MongoWriter}
use public_pg2mongo_cd_c.Checkpoint.{Config as CheckpointConfig}
use public_pg2mongo_cd_c.Lag.{Config as LagConfig}
use public_pg2mongo_cd_c.Kafka.Options.{Opt, options}

-- What `main` reads from the environment, by `os.LookupEnv`.
pub record Settings : Type 0 where
  pub brokers : List String
  pub group_id : String
  pub topic_regex : String
  pub mongo_uri : String
  pub mongo_db : String
  pub metrics_addr : String
  pub schema_ver : ℤ

unfoldable pub settings : (String → String → List String) → (String → Option String) → Settings
settings split vars = record {
  brokers = split (env (vars "KAFKA_BROKERS") "kafka:29092") ",";
  group_id = env (vars "KAFKA_GROUP_ID") "zdt-sink";
  topic_regex = env (vars "KAFKA_TOPIC_REGEX") "^cdc\\..*";
  mongo_uri = env (vars "MONGO_URI") "mongodb://mongo:27017/?replicaSet=rs0";
  mongo_db = env (vars "MONGO_DB") "migration";
  metrics_addr = env (vars "METRICS_ADDR") ":8080";
  schema_ver = env_int (vars "SCHEMA_VERSION") (pos 1);
}

-- The parts that `main` puts together.
pub record Parts : Type 0 where
  pub writer : MongoWriter
  pub kafka : List Opt
  pub checkpoint : CheckpointConfig
  pub lag : LagConfig

unfoldable pub parts : Settings → Parts
parts s = record {
  writer = record { schema_version = s.schema_ver; on_skip = true };
  kafka = options s.brokers s.group_id s.topic_regex;
  checkpoint = record {
    group_id = s.group_id;
    interval = pos 10_000_000_000;
    flush_timeout = pos 5_000_000_000;
    heartbeat_every = pos 0;
  };
  lag = record {
    group_id = s.group_id;
    interval = pos 30_000_000_000;
    probe_timeout = pos 5_000_000_000;
  };
}

-- What `main` defers the release of; `checkpointer` stands for the final flush.
pub data Resource : Type 0 where
  signals tracing mongo metrics_server kafka_client checkpointer : Resource

abbrev pub has_some {ℓ} : {A : Type ℓ} → Option A → Bool
has_some none = false
has_some (some x) = true

-- `os.Getenv`
abbrev pub text_of : Option String → String
text_of none = ""
text_of (some v) = v

abbrev pub is_none : {A : Type 0} → Option A → Bool
is_none none = true
is_none (some e) = false

-- The answers of the libraries: the errors of connecting to MongoDB and of the Kafka client.
module _ {E : Type 0} (space : String → String) (exporter : String → Option E) (P : Registry) where
  abbrev pub steps : (String → Option String) → Otel → Option E → Option E → List (Step Resource)
  steps vars o mongo_error kafka_error =
      acquire signals true
      ∷ acquire tracing
          (is_none (init space exporter (text_of (vars "OTEL_EXPORTER_OTLP_ENDPOINT")) o).1)
      ∷ acquire mongo (is_none mongo_error)
      ∷ must (has_some (new P))
      ∷ launch "metrics server"
      ∷ acquire metrics_server true
      ∷ acquire kafka_client (is_none kafka_error)
      ∷ must (has_some (register_checkpoint P (new P)))
      ∷ launch "checkpointer"
      ∷ must (has_some (register_lag P (register_checkpoint P (new P))))
      ∷ launch "lag probe"
      ∷ acquire checkpointer true
      ∷ serve
      ∷ []

  unfoldable pub main :
      (String → Option String) → Otel → Option E → Option E → List (Action Resource)
  main vars o mongo_error kafka_error = run_from Resource [] (steps vars o mongo_error kafka_error)

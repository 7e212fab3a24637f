-- ===== src/Transformer/Main.antt =====
-- services/transformer/cmd/transformer: `main`, from the environment to the trace of what it opens
-- and gives back. Its loop is in Transformer/Loop; the libraries' calls that may fail are inputs.
use public_pg2mongo_cd_c.Base.{
  ◌*◌, String, Bool, true, false, Option, none, some, List, [], ◌∷◌, refl, ◌==◌, if◌then◌else◌,
  ◌&&◌,
}
use public_pg2mongo_cd_c.Kafka.Options.{
  Opt, seed_brokers, consumer_group, consume_regex, consume_topics, disable_auto_commit,
  session_timeout, heartbeat_interval, metadata_max_age, required_acks_all,
  producer_batch_max_bytes, allow_auto_topic_creation,
}
use public_pg2mongo_cd_c.Tracing.{Otel, init}
use public_pg2mongo_cd_c.Mapper.{Yaml, Entry, Loaded, loaded, failed, load}
use public_pg2mongo_cd_c.Process.{
  Step, Action, acquire, require, launch, serve, run_from, Ends, unwind, closings, stopped_at,
  was_served, after_served,
}

-- `env`: `os.LookupEnv` gives the answer for the key.
unfoldable pub env : Option String → String → String
env none d = d
env (some v) d = if v == "" then d else v

pub record Settings : Type 0 where
  pub brokers : List String
  pub group_id : String
  pub topic_regex : String
  pub rules_dir : String
  pub metrics_addr : String

unfoldable pub settings : (String → String → List String) → (String → Option String) → Settings
settings split vars = record {
  brokers = split (env (vars "KAFKA_BROKERS") "kafka:29092") ",";
  group_id = env (vars "KAFKA_GROUP_ID") "zdt-transformer";
  topic_regex = env (vars "KAFKA_TOPIC_REGEX") "^cdc\\..*";
  rules_dir = env (vars "RULES_DIR") "/etc/transformer/rules";
  metrics_addr = env (vars "METRICS_ADDR") ":8080";
}

-- The options of the client that both consumes and produces.
unfoldable pub options : Settings → List Opt
options s =
    seed_brokers s.brokers
    ∷ consumer_group s.group_id
    ∷ consume_regex
    ∷ consume_topics s.topic_regex
    ∷ disable_auto_commit
    ∷ session_timeout 45
    ∷ heartbeat_interval 3
    ∷ metadata_max_age 10
    ∷ required_acks_all
    ∷ producer_batch_max_bytes (16 * 1024 * 1024)
    ∷ allow_auto_topic_creation
    ∷ []

pub data Resource : Type 0 where
  rules signals tracing client : Resource

abbrev pub is_loaded : Loaded → Bool
is_loaded (loaded m) = true
is_loaded (failed e) = false

abbrev pub is_none : {A : Type 0} → Option A → Bool
is_none none = true
is_none (some e) = false

-- `os.Getenv`
abbrev pub text_of : Option String → String
text_of none = ""
text_of (some v) = v

-- `entries` is what the rules directory holds, by its path, and `client_error` the answer of
-- `kgo.NewClient`.
module _ {E : Type 0} (yaml : Yaml) (entries : String → Option (List Entry))
    (split : String → String → List String) (space : String → String) (exporter : String → Option E)
    (client_error : List Opt → Option E) where
  abbrev pub steps : (String → Option String) → Otel → List (Step Resource)
  steps vars o =
      let s = settings split vars in
      require rules (is_loaded (load yaml s.rules_dir (entries s.rules_dir)))
      ∷ acquire signals true
      ∷ acquire tracing
          (is_none (init space exporter (text_of (vars "OTEL_EXPORTER_OTLP_ENDPOINT")) o).1)
      ∷ acquire client (is_none (client_error (options s)))
      ∷ launch "health server"
      ∷ serve
      ∷ []

  unfoldable pub main : (String → Option String) → Otel → List (Action Resource)
  main vars o = run_from Resource [] (steps vars o)

  abbrev pub given_back : List Resource
  given_back = client ∷ tracing ∷ signals ∷ []

  plan-Ends :
      (loads traced joined : Bool)
      → Ends Resource given_back (loads && traced && joined) (
          run_from Resource [] (
            require rules loads
            ∷ acquire signals true
            ∷ acquire tracing traced
            ∷ acquire client joined
            ∷ launch "health server"
            ∷ serve
            ∷ []))
  unfolding run_from was_served closings stopped_at unwind after_served
  plan-Ends false traced joined = (refl, refl, refl, (λ e. cc, λ e. cc))
  plan-Ends true false joined = (refl, refl, refl, (λ e. cc, λ e. cc))
  plan-Ends true true false = (refl, refl, refl, (λ e. cc, λ e. cc))
  plan-Ends true true true = (refl, refl, refl, (λ e. refl, λ e. refl))

  -- The transformer serves if and only if its rules load and tracing and the Kafka client open; then
  -- it closes the client, tracing and the signals in this order after its loop. Otherwise the process
  -- ends and closes nothing.
  transformer_main-Ends :
      (vars : String → Option String) (o : Otel)
      → let s = settings split vars in
        Ends Resource given_back
          (is_loaded (load yaml s.rules_dir (entries s.rules_dir))
            && is_none (init space exporter (text_of (vars "OTEL_EXPORTER_OTLP_ENDPOINT")) o).1
            && is_none (client_error (options s)))
          (main vars o)
  unfolding main
  transformer_main-Ends vars o = plan-Ends _ _ _

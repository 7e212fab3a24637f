-- ===== src/Metrics.antt =====
-- services/sink/internal/metrics: the collectors of the sink and their registration. The Prometheus
-- library is a parameter: a registry, which refuses a collector with a name that it has.
pub mod Names
use public_pg2mongo_cd_c.Base.{String, Option, none, some, List, [], ◌∷◌, ◌⊎◌, ◌≡◌, In}

pub data Kind : Type 0 where
  counter_vec histogram_vec gauge gauge_func : Kind

-- `CounterOpts` and its likes without the help text and the buckets, and the label names.
pub record Desc : Type 0 where
  pub kind : Kind
  pub name : String
  pub labels : List String

pub data Collector : Type 0 where
  go_collector process_collector : Collector
  collector : Desc → Collector

abbrev events_processed : Desc
events_processed = record {
  kind = counter_vec;
  name = "migration_events_processed_total";
  labels = "stage" ∷ "table" ∷ "op" ∷ [];
}

abbrev write_errors : Desc
write_errors = record {
  kind = counter_vec;
  name = "migration_write_errors_total";
  labels = "sink" ∷ "reason" ∷ [];
}

abbrev replication_lag : Desc
replication_lag = record {
  kind = histogram_vec;
  name = "migration_replication_lag_seconds";
  labels = "table" ∷ [];
}

abbrev idempotent_skip : Desc
idempotent_skip = record {
  kind = counter_vec;
  name = "migration_idempotent_skip_total";
  labels = "table" ∷ [];
}

abbrev consecutive_failures : Desc
consecutive_failures = record {
  kind = gauge;
  name = "migration_consecutive_apply_failures";
  labels = [];
}

-- The gauges that `checkpoint.New` and `lag.New` register.
abbrev gauge_func_of : String → Desc
gauge_func_of name = record { kind = gauge_func; name = name; labels = [] }

abbrev staleness_gauge : Desc
staleness_gauge = gauge_func_of "migration_checkpoint_staleness_seconds"

abbrev lag_gauge : Desc
lag_gauge = gauge_func_of "migration_consumer_group_lag"

abbrev lag_age_gauge : Desc
lag_age_gauge = gauge_func_of "migration_consumer_group_lag_age_seconds"

pub record Registry : Type 1 where
  pub State : Type 0
  pub empty : State
  -- `Register`, none for an error.
  pub register : Collector → State → Option State
  -- The names of the metrics of a collector.
  pub go_names : List String
  pub process_names : List String

module _ (P : Registry) where
  abbrev pub names_of : Collector → List String
  names_of go_collector = P.go_names
  names_of process_collector = P.process_names
  names_of (collector d) = d.name ∷ []

  -- `MustRegister`: none is a panic.
  unfoldable pub must_register : List Collector → Option P.State → Option P.State
  must_register [] o = o
  must_register (c ∷ cs) none = none
  must_register (c ∷ cs) (some s) = must_register cs (P.register c s)

  -- The registrations of `metrics.New`.
  unfoldable pub new : Option P.State
  new =
      must_register
        (collector events_processed
          ∷ collector write_errors
          ∷ collector replication_lag
          ∷ collector idempotent_skip
          ∷ collector consecutive_failures
          ∷ [])
        (must_register (go_collector ∷ process_collector ∷ []) (some P.empty))

  -- `checkpoint.New` and `lag.New` on the registry.
  unfoldable pub register_checkpoint : Option P.State → Option P.State
  register_checkpoint o = must_register (collector staleness_gauge ∷ []) o

  unfoldable pub register_lag : Option P.State → Option P.State
  register_lag o =
      must_register (collector lag_age_gauge ∷ []) (must_register (collector lag_gauge ∷ []) o)

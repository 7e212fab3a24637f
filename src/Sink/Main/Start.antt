-- ===== src/Sink/Main/Start.antt =====
-- What `main` of the sink makes sure of, whatever its environment and whatever fails.
use public_pg2mongo_cd_c.Base.{
  String, Bool, true, false, Option, none, some, pos, List, [], ◌∷◌, ◌≡◌, refl, ap, ◌==◌, ◌&&◌,
  ◌≤ℤ◌, In, inl, inr, arith, Bool-cases, str_dec,
}
use public_pg2mongo_cd_c.Decoder.Number.{IsInt64}
use public_pg2mongo_cd_c.Sink.Env.{env, env_int-IsInt64}
use public_pg2mongo_cd_c.Sink.Tracing.{init}
use public_pg2mongo_cd_c.Tracing.{Otel}
use public_pg2mongo_cd_c.Metrics.{
  Registry, Collector, must_register, new, register_checkpoint, register_lag,
}
use public_pg2mongo_cd_c.Metrics.Names.{RegistryLaws, new-registers}
use public_pg2mongo_cd_c.Process.{
  Ends, Step, acquire, must, launch, serve, run_from, closings, stopped_at, was_served, unwind,
  after_served,
}
use public_pg2mongo_cd_c.Kafka.Options.{options, consumer_group, disable_auto_commit}
use public_pg2mongo_cd_c.Checkpoint.{with_defaults}
use public_pg2mongo_cd_c.Lag.{new as new_probe}
use public_pg2mongo_cd_c.Sink.Main.{
  settings, parts, Resource, signals, tracing, mongo, metrics_server, kafka_client, checkpointer,
  main, is_none, text_of, has_some,
}

env-nonempty : (o : Option String) (d : String) → (d == "") ≡ false → (env o d == "") ≡ false
env-nonempty none d h = h
env-nonempty (some v) d h = elim (Bool-cases (v == "")) [ inl e ↦ rw e h | inr e ↦ rw e e ]

-- The parts that `main` configures are for one consumer group, whatever the environment: the one that
-- the client joins, that the checkpoint is kept for and that the lag is probed for. The schema
-- version fits 64 bits, the client does not commit on its own, and a flush and a probe end before
-- the next is due.
parts_agree :
    (split : String → String → List String) (vars : String → Option String)
    → let s = settings split vars in
      let p = parts s in
      In (consumer_group s.group_id) p.kafka
      × ((with_defaults p.checkpoint).group_id ≡ s.group_id)
      × ((new_probe p.lag).group_id ≡ s.group_id)
      × IsInt64 p.writer.schema_version
      × In disable_auto_commit p.kafka
      × ((with_defaults p.checkpoint).flush_timeout ≤ℤ (with_defaults p.checkpoint).interval)
      × ((new_probe p.lag).probe_to ≤ℤ (new_probe p.lag).interval)
unfolding settings parts options with_defaults new_probe
parts_agree split vars = (
  inr (inl refl),
  rw (env-nonempty (vars "KAFKA_GROUP_ID") "zdt-sink" (unfold str_dec in refl)) refl,
  refl,
  env_int-IsInt64 (vars "SCHEMA_VERSION") (pos 1) (omega arith, omega arith),
  inr (inr (inr (inr (inl refl)))),
  omega arith,
  omega arith,
)

module _ (P : Registry) (L : RegistryLaws P) where
  had_some :
      (cs : List Collector) (o : Option P.State)
      → has_some (must_register P cs o) ≡ true
      → has_some o ≡ true
  unfolding must_register
  had_some [] o h = h
  had_some (c ∷ cs) none h = h
  had_some (c ∷ cs) (some s) h = refl

  all_registered :
      (has_some (new P) ≡ true)
      × (has_some (register_checkpoint P (new P)) ≡ true)
      × (has_some (register_lag P (register_checkpoint P (new P))) ≡ true)
  all_registered =
      let (s, e) = new-registers P L in
      let last : has_some (register_lag P (register_checkpoint P (new P))) ≡ true = ap has_some e in
      let third : has_some (register_checkpoint P (new P)) ≡ true =
        unfold register_lag in had_some _ _ (had_some _ _ last) in
      (unfold register_checkpoint in had_some _ _ third, third, last)

  -- The trace of `main`, by what succeeds.
  abbrev plan : Bool → Bool → Bool → Bool → Bool → Bool → List (Step Resource)
  plan traced connected registered joined checkpoint_registered lag_registered =
      acquire signals true
      ∷ acquire tracing traced
      ∷ acquire mongo connected
      ∷ must registered
      ∷ launch "metrics server"
      ∷ acquire metrics_server true
      ∷ acquire kafka_client joined
      ∷ must checkpoint_registered
      ∷ launch "checkpointer"
      ∷ must lag_registered
      ∷ launch "lag probe"
      ∷ acquire checkpointer true
      ∷ serve
      ∷ []

  -- What `main` gives back after its loop, in this order.
  abbrev pub given_back : List Resource
  given_back = checkpointer ∷ kafka_client ∷ metrics_server ∷ mongo ∷ tracing ∷ signals ∷ []

  plan-Ends :
      (traced connected joined : Bool)
      → Ends Resource given_back
          (traced && connected && joined)
          (run_from Resource [] (plan traced connected true joined true true))
  unfolding run_from was_served closings stopped_at unwind after_served
  plan-Ends false connected joined = (refl, refl, refl, (λ e. cc, λ e. cc))
  plan-Ends true false joined = (refl, refl, refl, (λ e. cc, λ e. cc))
  plan-Ends true true false = (refl, refl, refl, (λ e. cc, λ e. cc))
  plan-Ends true true true = (refl, refl, refl, (λ e. refl, λ e. refl))

  -- Whatever the environment and whichever of the tracing exporter, MongoDB and Kafka fail to open,
  -- no registration of a metric panics, and the sink serves if and only if all three open. Then all
  -- that it does after its loop, and nowhere else, is to flush the checkpoint and close the Kafka
  -- client, the metrics server, MongoDB, tracing and the signals, in this order. Otherwise the
  -- process ends and closes nothing. A collector with free names is registered.
  pub sink_main-Ends :
      {E : Type 0} (space : String → String) (exporter : String → Option E)
      (vars : String → Option String) (o : Otel) (mongo_error kafka_error : Option E)
      → Ends Resource given_back
          (is_none (init space exporter (text_of (vars "OTEL_EXPORTER_OTLP_ENDPOINT")) o).1
            && is_none mongo_error
            && is_none kafka_error)
          (main space exporter P vars o mongo_error kafka_error)
  unfolding main
  sink_main-Ends space exporter vars o mongo_error kafka_error =
      let (m, c, l) = all_registered in
      rw (m, c, l) (plan-Ends _ (is_none mongo_error) (is_none kafka_error))

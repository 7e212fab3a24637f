-- ===== src/Metrics/Names.antt =====
-- No two metrics of the sink have one name: every registration of its start-up succeeds.
use mathlib.Core.Path.{subst}
use Prim.{absurd}
use public_pg2mongo_cd_c.Base.{
  String, Bool, true, false, Option, none, some, List, [], ◌∷◌, ◌++◌, ◌⊎◌, inl, inr, ◌≡◌, refl, ◌∙◌,
  ap, ◌==◌, ==_self, ◌||◌, ◌&&◌, not, map, arith, str_dec, In, All, In-all,
}
use public_pg2mongo_cd_c.Mapper.Text.{cut_prefix}
use public_pg2mongo_cd_c.Metrics.{
  Registry, Desc, Collector, collector, go_collector, process_collector, names_of, must_register,
  new, register_checkpoint, register_lag, events_processed, write_errors, replication_lag,
  idempotent_skip, consecutive_failures, staleness_gauge, lag_gauge, lag_age_gauge,
}

abbrev pub Begins : String → String → Type 0
Begins p n = ¬ (cut_prefix n p ≡ none)

-- What is documented of the library: a collector none of whose names is taken is registered, and
-- that adds its names only; the names of the Go and the process collector have their prefixes.
pub record RegistryLaws (P : Registry) : Type 1 where
  pub Named : P.State → String → Type 0
  pub empty_named : (n : String) → ¬ Named P.empty n
  pub register_fresh :
      (c : Collector) (s : P.State)
      → ((n : String) → In n (names_of P c) → ¬ Named s n)
      → (s' : P.State) × (P.register c s ≡ some s')
  pub register_named :
      (c : Collector) (s s' : P.State) (n : String)
      → P.register c s ≡ some s'
      → Named s' n
      → Named s n ⊎ In n (names_of P c)
  pub go_prefix : All (Begins "go_") P.go_names
  pub process_prefix : All (Begins "process_") P.process_names

abbrev has : String → List Desc → Bool
has n [] = false
has n (d ∷ ds) = (n == d.name) || has n ds

abbrev distinct : List Desc → Bool
distinct [] = true
distinct (d ∷ ds) = not (has d.name ds) && distinct ds

-- The metrics of the sink that have its own prefix, in the order of their registration.
abbrev own : List Desc
own =
    events_processed ∷ write_errors ∷ replication_lag ∷ idempotent_skip ∷ consecutive_failures
    ∷ staleness_gauge ∷ lag_gauge ∷ lag_age_gauge ∷ []

own-distinct : distinct own ≡ true
unfolding str_dec
own-distinct = refl

two_prefixes : (n : String) → Begins "go_" n → ¬ Begins "process_" n
unfolding cut_prefix
two_prefixes String.[] g p = g refl
two_prefixes (String.◌∷◌ c s) g p = ground arith

own_go : All (λ (d : Desc). cut_prefix d.name "go_" ≡ none) own
unfolding cut_prefix
own_go = (refl, (refl, (refl, (refl, (refl, (refl, (refl, (refl, tt))))))))

own_process : All (λ (d : Desc). cut_prefix d.name "process_" ≡ none) own
unfolding cut_prefix
own_process = (refl, (refl, (refl, (refl, (refl, (refl, (refl, (refl, tt))))))))

module _ (P : Registry) (L : RegistryLaws P) where
  InAny : String → List Collector → Type 0
  InAny n [] = ⊥
  InAny n (c ∷ cs) = In n (names_of P c) ⊎ InAny n cs

  Apart : List Collector → Type 0
  Apart [] = Unit
  Apart (c ∷ cs) = ((n : String) → In n (names_of P c) → ¬ InAny n cs) × Apart cs

  all_registered :
      (cs : List Collector) (s : P.State)
      → ((n : String) → InAny n cs → ¬ L.Named s n)
      → Apart cs
      → (s' : P.State) × (must_register P cs (some s) ≡ some s')
        × ((n : String) → L.Named s' n → L.Named s n ⊎ InAny n cs)
  unfolding must_register InAny Apart
  all_registered [] s fresh apart = (s, refl, λ n h. inl h)
  all_registered (c ∷ cs) s fresh (here, apart) =
      let (s1, e) = L.register_fresh c s (λ n h. fresh n (inl h)) in
      let later : (n : String) → InAny n cs → ¬ L.Named s1 n = λ n h k.
        elim (L.register_named c s s1 n e k) [
          | inl old ↦ fresh n (inr h) old
          | inr new_name ↦ here n new_name h
        ] in
      let (s', e', named) = all_registered cs s1 later apart in
      (
        s',
        ap (must_register P cs) e ∙ e',
        λ n k. elim (named n k) [
          | inr h ↦ inr (inr h)
          | inl k1 ↦ elim (L.register_named c s s1 n e k1) [
            | inl old ↦ inl old
            | inr h ↦ inr (inl h)
          ]
        ],
      )

  must_register-append :
      (cs ds : List Collector) (o : Option P.State)
      → must_register P ds (must_register P cs o) ≡ must_register P (cs ++ ds) o
  unfolding must_register
  must_register-append [] ds o = refl
  must_register-append (c ∷ cs) [] none = refl
  must_register-append (c ∷ cs) (d ∷ ds) none = refl
  must_register-append (c ∷ cs) ds (some s) = must_register-append cs ds (P.register c s)

  registered-Apart : (ds : List Desc) (n : String) → InAny n (map collector ds) → has n ds ≡ true
  unfolding InAny
  registered-Apart [] n h = absurd h
  registered-Apart (d ∷ ds) n (inl (inl e)) = rw (e, ==_self d.name) refl
  registered-Apart (d ∷ ds) n (inl (inr h)) = absurd h
  registered-Apart (d ∷ ds) n (inr h) = ground (arith, registered-Apart ds n h)

  own-Apart : (ds : List Desc) → distinct ds ≡ true → Apart (map collector ds)
  unfolding Apart
  own-Apart [] h = tt
  own-Apart (d ∷ ds) h = (
    λ n i j. elim i [
      | inl e ↦
          let k : has d.name ds ≡ true = subst (λ x. has x ds ≡ true) e (registered-Apart ds n j) in
          ground arith
      | inr x ↦ x
    ],
    own-Apart ds (ground arith),
  )

  -- Names with a prefix are none of those of metrics that do not have it.
  Begins-Apart :
      (p n : String) (ds : List Desc)
      → Begins p n
      → All (λ (d : Desc). cut_prefix d.name p ≡ none) ds
      → ¬ InAny n (map collector ds)
  unfolding InAny
  Begins-Apart p n [] b a h = h
  Begins-Apart p n (d ∷ ds) b a (inl (inl e)) = b (ap (λ x. cut_prefix x p) e ∙ a.0)
  Begins-Apart p n (d ∷ ds) b a (inl (inr h)) = h
  Begins-Apart p n (d ∷ ds) b a (inr h) = Begins-Apart p n ds b a.1 h

  boot-Apart : Apart (go_collector ∷ process_collector ∷ map collector own)
  unfolding Apart InAny
  boot-Apart = (
    λ n g h. elim h [
      | inl p ↦
          two_prefixes n (In-all (Begins "go_") n P.go_names g L.go_prefix)
            (In-all (Begins "process_") n P.process_names p L.process_prefix)
      | inr o ↦ Begins-Apart "go_" n own (In-all (Begins "go_") n P.go_names g L.go_prefix) own_go o
    ],
    (
      λ n p o.
          Begins-Apart "process_" n own
            (In-all (Begins "process_") n P.process_names p L.process_prefix) own_process o,
      own-Apart own own-distinct,
    ),
  )

  -- No metric that the sink registers at its start, in New and in those of the checkpointer and the
  -- lag probe, has a name that another has, so no MustRegister panics; the registry refuses taken
  -- names only, and the names of the Go and the process collector begin with go_ and process_.
  pub new-registers : (s : P.State) × (register_lag P (register_checkpoint P (new P)) ≡ some s)
  unfolding new register_checkpoint register_lag
  new-registers =
      let (s, e, named) =
        all_registered (go_collector ∷ process_collector ∷ map collector own) P.empty
          (λ n h. L.empty_named n) boot-Apart in
      (
        s,
        rw (must_register-append, must_register-append, must_register-append, must_register-append)
            e,
      )

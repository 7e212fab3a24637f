-- ===== src/Sink/Tracing.antt =====
-- services/sink/internal/tracing: the set-up of OpenTelemetry and the header carrier. The exporter
-- and the propagator are outside: the exporter's error for an address is an input.
use public_pg2mongo_cd_c.Base.{
  String, Bool, true, false, Option, none, some, List, [], ◌∷◌, ◌++◌, map, ◌==◌, if◌then◌else◌, ℕ,
  zero, suc, ◌≡◌, refl, ap, arith, Bool-cases, ◌∙◌, sym, inl, inr,
}
use public_pg2mongo_cd_c.Kgo.{RecordHeader}
use public_pg2mongo_cd_c.Mapper.Text.{cut_prefix}
use public_pg2mongo_cd_c.Tracing.{KafkaHeaderCarrier, Otel, provided, set_up}
use public_pg2mongo_cd_c.Tracing.{
  get as forward_get, set as forward_set, keys as forward_keys, replace, first_value, endpoint,
  init as forward_init,
}

abbrev trim_prefix : String → String → String
trim_prefix s p = elim (cut_prefix s p) [ some rest ↦ rest | none ↦ s ]

-- `Init`. `space` is `strings.TrimSpace`, and `exporter` answers with the error of `otlptrace.New`.
module _ {E : Type 0} (space : String → String) (exporter : String → Option E) where
  abbrev with_exporter : String → Otel → Option E → Otel × Option E
  with_exporter address o (some e) = (o, some e)
  with_exporter address o none = (record { propagator = true; provider = some address }, none)

  unfoldable pub init : String → Otel → Otel × Option E
  init variable o =
      if space variable == ""
      then (record o { propagator = true }, none)
      else let address = trim_prefix (trim_prefix (space variable) "http://") "https://" in
        with_exporter address o (exporter address)

-- `Get`: the first value for the key.
unfoldable pub get : String → KafkaHeaderCarrier → String
get k none = ""
get k (some []) = ""
get k (some (h ∷ hs)) = let rest = get k (some hs) in if h.key == k then h.value else rest

-- The index of the first header with the key.
unfoldable pub index_of : String → List RecordHeader → Option ℕ
index_of k [] = none
index_of k (h ∷ hs) =
    let rest = index_of k hs in
    if h.key == k then some 0 else elim rest [ none ↦ none | some i ↦ some (suc i) ]

-- The slice with another value at an index.
unfoldable pub set_value : ℕ → String → List RecordHeader → List RecordHeader
set_value i v [] = []
set_value zero v (h ∷ hs) = record h { value = v } ∷ hs
set_value (suc i) v (h ∷ hs) = h ∷ set_value i v hs

-- The slice with the value at the index, or with a header appended.
abbrev placed : String → String → List RecordHeader → Option ℕ → List RecordHeader
placed k v hs (some i) = set_value i v hs
placed k v hs none = hs ++ record { key = k; value = v } ∷ []

-- `Set`
unfoldable pub set : String → String → KafkaHeaderCarrier → KafkaHeaderCarrier
set k v none = none
set k v (some hs) = some (placed k v hs (index_of k hs))

-- `Keys`, none for nil.
unfoldable pub keys : KafkaHeaderCarrier → List String
keys none = []
keys (some hs) = map (λ (h : RecordHeader). h.key) hs

get-first_value : (k : String) (hs : List RecordHeader) → get k (some hs) ≡ first_value k hs
unfolding get first_value
get-first_value k [] = refl
get-first_value k (h ∷ hs) = ground (arith, get-first_value k hs)

placed-next :
    (k v : String) (h : RecordHeader) (hs : List RecordHeader) (o : Option ℕ)
    → placed k v (h ∷ hs) (elim o [ none ↦ none | some i ↦ some (suc i) ]) ≡ h ∷ placed k v hs o
unfolding set_value
placed-next k v h hs none = refl
placed-next k v h hs (some i) = refl

placed-replace :
    (k v : String) (hs : List RecordHeader) → placed k v hs (index_of k hs) ≡ replace k v hs
unfolding index_of replace set_value
placed-replace k v [] = refl
placed-replace k v (h ∷ hs) = elim (Bool-cases (h.key == k)) [
  | inl e ↦ rw e refl
  | inr e ↦ rw e (placed-next k v h hs (index_of k hs) ∙ ap (λ l. h ∷ l) (placed-replace k v hs))
]

module _ {E : Type 0} (space : String → String) (exporter : String → Option E) where
  with_exporter-provided :
      (address : String) (o : Otel) (e : Option E)
      → with_exporter space exporter address o e ≡ provided space exporter address o e
  with_exporter-provided address o none = refl
  with_exporter-provided address o (some e) = refl

  endpoint-eq :
      (variable : String)
      → endpoint space variable ≡ (
          if space variable == ""
          then none
          else some (trim_prefix (trim_prefix (space variable) "http://") "https://"))
  unfolding endpoint
  endpoint-eq variable = refl

  set_up-if :
      (b : Bool) (address : String) (o : Otel)
      → (if b
          then (record o { propagator = true }, none)
          else with_exporter space exporter address o (exporter address))
        ≡ set_up space exporter o (if b then none else some address)
  set_up-if true address o = refl
  set_up-if false address o = with_exporter-provided address o (exporter address)

  init-same :
      (variable : String) (o : Otel)
      → init space exporter variable o ≡ forward_init space exporter variable o
  unfolding init forward_init
  init-same variable o =
      set_up-if (space variable == "") _ o
      ∙ ap (set_up space exporter o) (sym (endpoint-eq variable))

  -- The tracing packages of the sink and of the transformer agree: Init leaves the same settings
  -- and returns the same error, and the header carriers get, set and list the same, a nil pointer
  -- included.
  pub copies_agree :
      (variable k v : String) (o : Otel) (c : KafkaHeaderCarrier)
      → (init space exporter variable o ≡ forward_init space exporter variable o)
        × (get k c ≡ forward_get k c)
        × (set k v c ≡ forward_set k v c)
        × (keys c ≡ forward_keys c)
  unfolding get forward_get set forward_set keys forward_keys
  copies_agree variable k v o none = (init-same variable o, refl, refl, refl)
  copies_agree variable k v o (some hs) =
      (init-same variable o, get-first_value k hs, ap (λ l. some l) (placed-replace k v hs), refl)

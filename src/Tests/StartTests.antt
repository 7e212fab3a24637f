-- ===== src/Tests/StartTests.antt =====
-- The start of the services at concrete environments, with a registry that is a list of names.
use public_pg2mongo_cd_c.Base.{
  String, Bool, true, false, Option, none, some, List, [], ◌∷◌, ◌++◌, ◌≡◌, refl, ◌==◌, ◌||◌, ◌&&◌,
  if◌then◌else◌, ◌⊎◌, inl, inr, In, Bool-cases, ==→eq,
}
use public_pg2mongo_cd_c.Metrics.{
  Registry, Collector, go_collector, process_collector, collector, new, register_checkpoint,
  register_lag,
}
use public_pg2mongo_cd_c.Metrics.Names.{RegistryLaws, new-registers}
use public_pg2mongo_cd_c.Mapper.Text.{cut_prefix}
use public_pg2mongo_cd_c.Tracing.{
  Otel, init as forward_init, get as forward_get, set as forward_set, keys as forward_keys,
}
use public_pg2mongo_cd_c.Sink.Tracing.{init, get, set, keys, copies_agree}
use public_pg2mongo_cd_c.Kgo.{RecordHeader}
use public_pg2mongo_cd_c.Process.{Ends}
use public_pg2mongo_cd_c.Sink.Main.{Resource, main, is_none}
use public_pg2mongo_cd_c.Sink.Main.Start.{given_back, sink_main-Ends}

abbrev go_names : List String
go_names = "go_goroutines" ∷ "go_threads" ∷ []

abbrev process_names : List String
process_names = "process_cpu_seconds_total" ∷ []

abbrev names_of : Collector → List String
names_of go_collector = go_names
names_of process_collector = process_names
names_of (collector d) = d.name ∷ []

abbrev is_in : String → List String → Bool
is_in n [] = false
is_in n (m ∷ ms) = (n == m) || is_in n ms

abbrev any_in : List String → List String → Bool
any_in [] ms = false
any_in (n ∷ ns) ms = is_in n ms || any_in ns ms

abbrev names : Registry
names = record {
  State = List String;
  empty = [];
  register = λ c s. if any_in (names_of c) s then none else some (names_of c ++ s);
  go_names = go_names;
  process_names = process_names;
}

is_in-In : (n : String) (ms : List String) → is_in n ms ≡ true → In n ms
is_in-In n [] h = cc
is_in-In n (m ∷ ms) h = elim (Bool-cases (n == m)) [
  | inl e ↦ inl (==→eq n m e)
  | inr e ↦ inr (is_in-In n ms (rw e at h))
]

any_in-fresh : (ns ms : List String) → ((n : String) → In n ns → ¬ In n ms) → any_in ns ms ≡ false
any_in-fresh [] ms f = refl
any_in-fresh (n ∷ ns) ms f = elim (Bool-cases (is_in n ms)) [
  | inl e ↦ absurd (f n (inl refl) (is_in-In n ms e))
  | inr e ↦ rw e (any_in-fresh ns ms (λ x h. f x (inr h)))
]

In-append : (n : String) (xs ys : List String) → In n (xs ++ ys) → In n ys ⊎ In n xs
In-append n [] ys h = inl h
In-append n (x ∷ xs) ys (inl e) = inr (inl e)
In-append n (x ∷ xs) ys (inr h) = elim (In-append n xs ys h) [ inl a ↦ inl a | inr b ↦ inr (inr b) ]

names_registered :
    (c : Collector) (s s' : List String) (n : String)
    → names.register c s ≡ some s'
    → In n s'
    → In n s ⊎ In n (names_of c)
names_registered c s s' n e h = elim (Bool-cases (any_in (names_of c) s)) [
  | inl b ↦ cc (rw b at e)
  | inr b ↦
      let same : names_of c ++ s ≡ s' = cc (rw b at e) in In-append n (names_of c) s (rw same h)
]

names_laws : RegistryLaws names
unfolding cut_prefix
names_laws = record {
  Named = λ s n. In n s;
  empty_named = λ n h. h;
  register_fresh = λ c s f. (names_of c ++ s, rw (any_in-fresh (names_of c) s f) refl);
  register_named = names_registered;
  go_prefix = ((λ e. cc), ((λ e. cc), tt));
  process_prefix = ((λ e. cc), tt);
}

new-registers_example :
    (s : List String) × (register_lag names (register_checkpoint names (new names)) ≡ some s)
new-registers_example = new-registers names names_laws

abbrev same_text : String → String
same_text s = s

abbrev refuses : String → Option String
refuses address = some "no route"

abbrev unset : String → Option String
unset key = none

abbrev traced : String → Option String
traced key = if key == "OTEL_EXPORTER_OTLP_ENDPOINT" then some "http://collector" else none

abbrev otel : Otel
otel = record { propagator = false; provider = none }

sink_main-Ends_example :
    Ends Resource
      (given_back names names_laws)
      (is_none (init same_text refuses "" otel).1 && true && false)
      (main same_text refuses names unset otel none (some "no broker"))
sink_main-Ends_example =
    sink_main-Ends names names_laws same_text refuses unset otel none (some "no broker")

abbrev parent : RecordHeader
parent = record { key = "traceparent"; value = "00-1" }

copies_agree_example :
    (init same_text refuses "http://collector" otel
      ≡ forward_init same_text refuses "http://collector" otel)
    × (get "traceparent" (some (parent ∷ [])) ≡ forward_get "traceparent" (some (parent ∷ [])))
    × (set "traceparent" "00-2" (some (parent ∷ []))
        ≡ forward_set "traceparent" "00-2" (some (parent ∷ [])))
    × (keys (some (parent ∷ [])) ≡ forward_keys (some (parent ∷ [])))
copies_agree_example =
    copies_agree same_text refuses "http://collector" "traceparent" "00-2" otel (some (parent ∷ []))

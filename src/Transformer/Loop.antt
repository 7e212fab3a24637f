-- ===== src/Transformer/Loop.antt =====
-- services/transformer/cmd/transformer: the loop of `main` over the rounds.
use public_pg2mongo_cd_c.Base.{String, Bool, false, Option, none, some, ◌≡◌, refl, ◌∙◌, ap}
use public_pg2mongo_cd_c.Base.{List, [], ◌∷◌, Dict, if◌then◌else◌}
use public_pg2mongo_cd_c.Kgo.{KgoRecord, fetched, Client}
use public_pg2mongo_cd_c.Mapper.{Json, Mapper, Applied}
use public_pg2mongo_cd_c.Transformer.{
  RoundError, apply_failed, client_failed, reject, each_record, on_record, transform, Progress,
  run_once,
}

module _ {E : Type 0} (json : Json) (m : Mapper) (C : Client E)
    (trace : C.State → KgoRecord → Dict String) where
  -- `errors.Is` with the two errors of contexts: the mapper returns neither.
  abbrev pub ends_loop : (E → Bool) → Option (RoundError E) → Bool
  ends_loop is_context none = false
  ends_loop is_context (some (apply_failed e)) = false
  ends_loop is_context (some (client_failed e)) = is_context e

  -- The loop of `main`: each turn says whether the root context has ended before it. The wait after
  -- an error is left out.
  unfoldable pub main_loop : (E → Bool) → List Bool → C.State → C.State
  main_loop is_context [] s = s
  main_loop is_context (ended ∷ turns) s =
      let r = run_once json m C trace s in
      let rest = main_loop is_context turns r.0 in
      if ended then s else if ends_loop is_context r.1 then r.0 else rest

  each_record-failed :
      (rs : List KgoRecord) (p : Progress json m C trace) (e : RoundError E)
      → p.first_err ≡ some e
      → each_record json m C trace rs p ≡ p
  unfolding each_record on_record
  each_record-failed [] p e h = refl
  each_record-failed (r ∷ rs) p e h = simp h (each_record-failed rs p e h)

  on_record-rejected :
      (r : KgoRecord) (p : Progress json m C trace) (e : Applied)
      → p.first_err ≡ none
      → transform json m r ≡ reject e
      → on_record json m C trace r p ≡ record p { first_err = some (apply_failed e) }
  unfolding on_record
  on_record-rejected r p e fine bad = rw (fine, bad) refl

  run_once-rejected :
      (s t : C.State) (r : KgoRecord) (rs : List KgoRecord) (e : Applied)
      → C.poll_fetches s ≡ (t, fetched (r ∷ rs))
      → transform json m r ≡ reject e
      → run_once json m C trace s ≡ (t, some (apply_failed e))
  unfolding run_once each_record
  run_once-rejected s t r rs e poll bad =
      let p0 : Progress json m C trace = record {
        client = t;
        first_err = none;
        committable = [];
      } in
      let p1 : Progress json m C trace = record p0 { first_err = some (apply_failed e) } in
      let same =
        ap (each_record json m C trace rs) (on_record-rejected r p0 e refl bad)
        ∙ each_record-failed rs p1 (apply_failed e) refl in
      rw (poll, same) refl

-- ===== src/Lag/Run.antt =====
-- services/sink/internal/lag: `Run`, the probes at the start and at each tick.
use mathlib.Core.List.{append-nil}
use public_pg2mongo_cd_c.Base.{
  sym, ap, ℕ, Bool, true, false, Option, none, some, ◌≡◌, refl, ◌∙◌, List, [], ◌∷◌, ◌++◌,
}
use public_pg2mongo_cd_c.Base.{if◌then◌else◌, All, lookup}
use public_pg2mongo_cd_c.Lag.{
  Probe, Answer, GroupLag, admin_error, groups, after_fetch, after_lookup, probe,
}

-- What `select` serves: the context has ended, or a tick at some time, with the broker's answer.
pub data Turn (E : Type 0) : Type 0 where
  stop : Turn E
  tick : ℕ → Answer E → Turn E

-- The probe's gauges, and whether `Run` has returned.
pub record Running : Type 0 where
  pub gauges : Probe
  pub returned : Bool

module _ {E : Type 0} where
  after_fetch_failed :
      (now : ℕ) (g : GroupLag E) (p : Probe) (fetch : Option E) (describe : Option E) (e : E)
      → g.describe_err ≡ describe
      → (after_fetch now g p fetch).1 ≡ some e
      → (after_fetch now g p fetch).0 ≡ p
  after_fetch_failed now g p (some x) d e k h = refl
  after_fetch_failed now g p none (some x) e k h = rw k refl
  after_fetch_failed now g p none none e k h = (let bad = rw k at h in cc)

  after_lookup_failed :
      (now : ℕ) (p : Probe) (o : Option (GroupLag E)) (e : E)
      → (after_lookup now p o).1 ≡ some e
      → (after_lookup now p o).0 ≡ p
  after_lookup_failed now p none e h = cc
  after_lookup_failed now p (some g) e h =
      after_fetch_failed now g p g.fetch_err g.describe_err e refl h

  -- A probe that fails leaves the gauges as they were.
  probe_failed :
      (now : ℕ) (a : Answer E) (p : Probe) (e : E)
      → (probe now a p).1 ≡ some e
      → (probe now a p).0 ≡ p
  unfolding probe
  probe_failed now (admin_error x) p e h = refl
  probe_failed now (groups gs) p e h = after_lookup_failed now p (lookup p.group_id gs) e h

-- `is_context` is `errors.Is` with the two errors of contexts.
module _ {E : Type 0} (is_context : E → Bool) where
  abbrev after_tick : Probe × Option E → Running
  after_tick (p, none) = record { gauges = p; returned = false }
  after_tick (p, some e) = record { gauges = p; returned = is_context e }

  abbrev on_turn : Turn E → Probe → Running
  on_turn stop p = record { gauges = p; returned = true }
  on_turn (tick now a) p = after_tick (probe now a p)

  unfoldable pub step : Turn E → Running → Running
  step t s = if s.returned then s else on_turn t s.gauges

  unfoldable pub serve : List (Turn E) → Running → Running
  serve [] s = s
  serve (t ∷ ts) s = serve ts (step t s)

  -- An error of the first probe is logged and nothing else.
  unfoldable pub run : ℕ → Answer E → List (Turn E) → Probe → Running
  run now first turns p = serve turns (record { gauges = (probe now first p).0; returned = false })

  serve-returned : (ts : List (Turn E)) (s : Running) → s.returned ≡ true → serve ts s ≡ s
  unfolding serve step
  serve-returned [] s h = refl
  serve-returned (t ∷ ts) s h = simp h (serve-returned ts s h)

  -- A tick whose probe fails, for another reason than a context's end.
  abbrev pub Fails : Probe → Turn E → Type 0
  Fails p stop = ⊥
  Fails p (tick now a) = (e : E) × ((probe now a p).1 ≡ some e) × (is_context e ≡ false)

  after_tick_failed :
      (r : Probe × Option E) (e : E)
      → r.1 ≡ some e
      → after_tick r ≡ record { gauges = r.0; returned = is_context e }
  after_tick_failed (p, none) e h = cc
  after_tick_failed (p, some x) e h = cc

  on_turn-Fails :
      (t : Turn E) (p : Probe) → Fails p t → on_turn t p ≡ record { gauges = p; returned = false }
  on_turn-Fails stop p h = absurd h
  on_turn-Fails (tick now a) p (e, h, k) =
      after_tick_failed (probe now a p) e h ∙ simp (probe_failed now a p e h, k) refl

  serve-Fails :
      (ts : List (Turn E)) (later : List (Turn E)) (p : Probe)
      → All (Fails p) ts
      → serve (ts ++ later) (record { gauges = p; returned = false })
        ≡ serve later (record { gauges = p; returned = false })
  unfolding serve step
  serve-Fails [] later p _ = refl
  serve-Fails (t ∷ ts) later p (h, hs) =
      ap (serve (ts ++ later)) (on_turn-Fails t p h) ∙ serve-Fails ts later p hs

  -- Ticks whose probes fail, but not by a context's end, leave the gauges as the first probe left
  -- them, and the loop goes on.
  pub run_failing :
      (now : ℕ) (first : Answer E) (ts : List (Turn E)) (later : List (Turn E)) (p : Probe)
      → All (Fails (probe now first p).0) ts
      → (run now first ts p ≡ record { gauges = (probe now first p).0; returned = false })
        × (run now first (ts ++ later) p ≡ run now first later p)
  unfolding run serve
  run_failing now first ts later p h = (
    ap (λ l. serve l (record { gauges = (probe now first p).0; returned = false }))
          (sym (append-nil ts))
        ∙ serve-Fails ts [] (probe now first p).0 h,
    serve-Fails ts later (probe now first p).0 h,
  )

  -- A tick whose probe fails because a context has ended, its own timeout included, ends Run: no
  -- later tick is served, and the gauges stay as the first probe left them.
  run_timeout :
      (now : ℕ) (first : Answer E) (at : ℕ) (a : Answer E) (e : E) (ts : List (Turn E)) (p : Probe)
      → (probe at a (probe now first p).0).1 ≡ some e
      → is_context e ≡ true
      → run now first (tick at a ∷ ts) p
        ≡ record { gauges = (probe now first p).0; returned = true }
  unfolding run serve step
  run_timeout now first at a e ts p h k =
      let q = (probe now first p).0 in
      let done : Running = record { gauges = q; returned = true } in
      ap (serve ts) (after_tick_failed (probe at a q) e h ∙ simp (probe_failed at a q e h, k) refl)
      ∙ serve-returned ts done refl

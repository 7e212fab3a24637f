-- ===== src/Sink/Loop.antt =====
-- `runLoop`: rounds of the consume loop, with the backoff between failures.
use Prim.Native.Nat.{min, ◌*◌, ◌^◌}
use mathlib.Core.Path.{subst, sym}
use mathlib.Core.List.{append-nil, append_assoc}
use public_pg2mongo_cd_c.Base.{ℕ, zero, suc, ◌+◌, ◌≤◌, Bool, true, false, ◌≡◌, refl, ap, ◌∙◌, ◌||◌}
use public_pg2mongo_cd_c.Base.{
  List, [], ◌∷◌, ◌++◌, All, All-append, if◌then◌else◌, pos, arith, Bool-cases, inl, inr, eqb,
}
use public_pg2mongo_cd_c.Sink.Backoff.{
  backoff_duration, backoff_duration-eq-min, backoff_duration_bounds, base_backoff, max_backoff,
}

-- What `errors.Is` finds in the error of a round.
pub record RoundError : Type 0 where
  pub canceled : Bool
  pub deadline_exceeded : Bool

-- One turn: the context has ended before the round, or the round returns, and the context may end
-- while the loop waits.
pub data Turn : Type 0 where
  stop : Turn
  ran_ok : Turn
  ran_failed : RoundError → Bool → Turn

pub record LoopState : Type 0 where
  pub consecutive : ℕ
  pub gauge : ℕ
  pub delays : List ℕ
  pub returned : Bool

unfoldable pub fail : Bool → LoopState → LoopState
fail stopped s =
    let n = s.consecutive + 1 in
    record {
      consecutive = n;
      gauge = n;
      delays = s.delays ++ backoff_duration (pos n) ∷ [];
      returned = stopped;
    }

unfoldable pub recover : LoopState → LoopState
recover s = if eqb s.consecutive 0 then s else record s { consecutive = 0; gauge = 0 }

abbrev pub on_turn : Turn → LoopState → LoopState
on_turn stop s = record s { returned = true }
on_turn ran_ok s = recover s
on_turn (ran_failed e stopped) s =
    if e.canceled || e.deadline_exceeded then record s { returned = true } else fail stopped s

unfoldable pub step : Turn → LoopState → LoopState
step t s = if s.returned then s else on_turn t s

unfoldable pub run_loop : List Turn → LoopState → LoopState
run_loop [] s = s
run_loop (t ∷ ts) s = run_loop ts (step t s)

abbrev pub initial : LoopState
initial = record { consecutive = 0; gauge = 0; delays = []; returned = false }

-- The gauge shows the count, and every wait is between the base and the cap.
pub record IsTracked (s : LoopState) : Type 0 where
  pub shown : s.gauge ≡ s.consecutive
  pub bounded : All (λ d. (base_backoff ≤ d) × (d ≤ max_backoff)) s.delays

fail-IsTracked : (b : Bool) (s : LoopState) → IsTracked s → IsTracked (fail b s)
unfolding fail
fail-IsTracked b s h = record {
  shown = refl;
  bounded = All-append _ s.delays _ h.bounded (backoff_duration_bounds _, tt);
}

recover-IsTracked : (s : LoopState) → IsTracked s → IsTracked (recover s)
unfolding recover
recover-IsTracked s h = elim (Bool-cases (eqb s.consecutive 0)) [
  | inl e ↦ rw e h
  | inr e ↦ rw e (record { shown = refl; bounded = h.bounded })
]

on_turn-IsTracked : (t : Turn) (s : LoopState) → IsTracked s → IsTracked (on_turn t s)
on_turn-IsTracked stop s h = record { shown = h.shown; bounded = h.bounded }
on_turn-IsTracked ran_ok s h = recover-IsTracked s h
on_turn-IsTracked (ran_failed e b) s h = elim (Bool-cases (e.canceled || e.deadline_exceeded)) [
  | inl k ↦ rw k (record { shown = h.shown; bounded = h.bounded })
  | inr k ↦ rw k (fail-IsTracked b s h)
]

step_running : (t : Turn) (s : LoopState) → s.returned ≡ false → step t s ≡ on_turn t s
unfolding step
step_running t s e = ap (λ (b : Bool). if b then s else on_turn t s) e

step_returned : (t : Turn) (s : LoopState) → s.returned ≡ true → step t s ≡ s
unfolding step
step_returned t s e = ap (λ (b : Bool). if b then s else on_turn t s) e

step-IsTracked : (t : Turn) (s : LoopState) → IsTracked s → IsTracked (step t s)
step-IsTracked t s h = elim (Bool-cases s.returned) [
  | inl k ↦ subst IsTracked (sym (step_returned t s k)) h
  | inr k ↦ subst IsTracked (sym (step_running t s k)) (on_turn-IsTracked t s h)
]

run_loop_returned : (ts : List Turn) (s : LoopState) → s.returned ≡ true → run_loop ts s ≡ s
unfolding run_loop
run_loop_returned [] s e = refl
run_loop_returned (t ∷ ts) s e = ap (run_loop ts) (step_returned t s e) ∙ run_loop_returned ts s e

run_loop-IsTracked_from : (ts : List Turn) (s : LoopState) → IsTracked s → IsTracked (run_loop ts s)
unfolding run_loop
run_loop-IsTracked_from [] s h = h
run_loop-IsTracked_from (t ∷ ts) s h = run_loop-IsTracked_from ts (step t s) (step-IsTracked t s h)

-- After any run of the loop from its start, the gauge equals the count of failures, and no wait was
-- shorter than the base or longer than the cap.
pub run_loop-IsTracked : (ts : List Turn) → IsTracked (run_loop ts initial)
run_loop-IsTracked ts = run_loop-IsTracked_from ts initial (record { shown = refl; bounded = tt })

-- A round whose error contains an exceeded deadline ends the running loop, and no later turn is
-- served.
run_loop_deadline :
    (e : RoundError) (b : Bool) (ts : List Turn) (s : LoopState)
    → s.returned ≡ false
    → e.deadline_exceeded ≡ true
    → run_loop (ran_failed e b ∷ ts) s ≡ record s { returned = true }
unfolding run_loop
run_loop_deadline e b ts s live d =
    ap (run_loop ts) (step_running (ran_failed e b) s live ∙ ended e.canceled e.deadline_exceeded d)
    ∙ run_loop_returned ts (record s { returned = true }) refl
  where
    ended :
        (c k : Bool)
        → k ≡ true
        → (if c || k then record s { returned = true } else fail b s) ≡ record s { returned = true }
    ended true k h = refl
    ended false k h = rw h

-- Errors of the broker, of the decoder or of MongoDB that are no end of a context.
abbrev pub plain_error : RoundError
plain_error = record { canceled = false; deadline_exceeded = false }

abbrev pub failures : ℕ → List Turn
failures zero = []
failures (suc n) = ran_failed plain_error false ∷ failures n

-- The waits after failures that follow `c` others.
abbrev pub schedule : ℕ → ℕ → List ℕ
schedule c zero = []
schedule c (suc n) = backoff_duration (pos (c + 1)) ∷ schedule (c + 1) n

-- A streak of n failures that end no context adds n to the count and to the gauge and waits by the
-- backoff schedule, from where the count stood.
pub run_loop-failures :
    (n : ℕ) (s : LoopState)
    → s.returned ≡ false
    → s.gauge ≡ s.consecutive
    → run_loop (failures n) s ≡ record {
      consecutive = s.consecutive + n;
      gauge = s.consecutive + n;
      delays = s.delays ++ schedule s.consecutive n;
      returned = false;
    }
unfolding run_loop fail
run_loop-failures zero s live g = ground (arith, append-nil s.delays)
run_loop-failures (suc n) s live g =
    ap (run_loop (failures n)) (step_running (ran_failed plain_error false) s live)
    ∙ (run_loop-failures n (fail false s) refl refl
        ∙ ground (
          arith,
          append_assoc s.delays (backoff_duration (pos (s.consecutive + 1)) ∷ [])
              (schedule (s.consecutive + 1) n),
        ))

run_loop-append :
    (xs ys : List Turn) (s : LoopState) → run_loop (xs ++ ys) s ≡ run_loop ys (run_loop xs s)
unfolding run_loop
run_loop-append [] ys s = refl
run_loop-append (x ∷ xs) ys s = run_loop-append xs ys (step x s)

-- A round that succeeds clears the count and the gauge and waits for nothing.
recover_clears :
    (s : LoopState) → s.gauge ≡ s.consecutive → recover s ≡ record s { consecutive = 0; gauge = 0 }
unfolding recover
recover_clears s g = ground arith

-- The base doubled once for each failure before it, up to the cap.
abbrev pub doubled : ℕ → ℕ → List ℕ
doubled c zero = []
doubled c (suc n) = min (base_backoff * 2 ^ c) max_backoff ∷ doubled (c + 1) n

delay-doubled : (c : ℕ) → backoff_duration (pos (c + 1)) ≡ min (base_backoff * 2 ^ c) max_backoff
delay-doubled c =
    let e : c + 1 ≡ suc c = omega arith in
    ap (λ k. backoff_duration (pos k)) e ∙ backoff_duration-eq-min c

schedule-doubled : (c n : ℕ) → schedule c n ≡ doubled c n
schedule-doubled c zero = refl
schedule-doubled c (suc n) =
    ap (λ (d : ℕ). d ∷ schedule (c + 1) n) (delay-doubled c)
    ∙ ap (λ (l : List ℕ). min (base_backoff * 2 ^ c) max_backoff ∷ l) (schedule-doubled (c + 1) n)

abbrev pub state : ℕ → List ℕ → LoopState
state n ds = record { consecutive = n; gauge = n; delays = ds; returned = false }

counted_from_zero :
    (ds : List ℕ) (k : ℕ) → state (0 + k) (ds ++ schedule 0 k) ≡ state k (ds ++ doubled 0 k)
counted_from_zero ds k = let e : 0 + k ≡ k = omega arith in rw (e, schedule-doubled 0 k) refl

-- After any turns that leave the loop running, then a round that succeeds and k rounds that fail by
-- no end of a context, the count and the gauge are k, the loop still runs, and it has waited, after
-- the waits before, k times: the base doubled once for each failure before it, up to the cap.
pub run_loop_streak :
    (before : List Turn) (k : ℕ)
    → (run_loop before initial).returned ≡ false
    → run_loop (before ++ ran_ok ∷ failures k) initial
      ≡ state k ((run_loop before initial).delays ++ doubled 0 k)
unfolding run_loop
run_loop_streak before k live =
    let s = run_loop before initial in
    let cleared = record s { consecutive = 0; gauge = 0 } in
    run_loop-append before (ran_ok ∷ failures k) initial
    ∙ (ap (run_loop (failures k))
          (step_running ran_ok s live ∙ recover_clears s (run_loop-IsTracked before).shown)
        ∙ (run_loop-failures k cleared live refl ∙ counted_from_zero s.delays k))

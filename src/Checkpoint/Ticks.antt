-- ===== src/Checkpoint/Ticks.antt =====
-- The schedule of `Run`: flushes when dirty, heartbeats when idle.
use public_pg2mongo_cd_c.Base.{
  ℕ, zero, suc, ◌+◌, ◌*◌, ◌≤◌, ◌<◌, Bool, true, false, ◌≡◌, refl, ap, ◌∙◌, List, [], ◌∷◌,
}
use public_pg2mongo_cd_c.Base.{arith, if◌then◌else◌, ltb, ltb→lt, Bool-cases, inl, inr}
use public_pg2mongo_cd_c.Checkpoint.{Turn, tick, written, failed, Runner, step, run, on_turn}

abbrev pub quiet : ℕ → List Turn
quiet zero = []
quiet (suc n) = tick false written ∷ quiet n

step_running : (h : ℕ) (t : Turn) (r : Runner) → r.returned ≡ false → step h t r ≡ on_turn h t r
unfolding step
step_running h t r e = ap (λ (b : Bool). if b then r else on_turn h t r) e

step_returned : (h : ℕ) (t : Turn) (r : Runner) → r.returned ≡ true → step h t r ≡ r
unfolding step
step_returned h t r e = ap (λ (b : Bool). if b then r else on_turn h t r) e

step-quiet :
    (h : ℕ) (r : Runner)
    → 0 < h
    → r.idle_ticks < h
    → r.returned ≡ false
    → let s = step h (tick false written) r in
      (s.tried * h + s.idle_ticks ≡ r.tried * h + r.idle_ticks + 1)
      × (s.idle_ticks < h)
      × (s.returned ≡ false)
step-quiet h r p i e = elim (Bool-cases (ltb (r.idle_ticks + 1) h)) [
  | inl t ↦ rw (step_running h (tick false written) r e, t) (omega arith, ltb→lt _ _ t, e)
  | inr t ↦
      rw (step_running h (tick false written) r e, t)
        (let full : r.idle_ticks + 1 ≡ h = ground arith in omega (arith, full), p, e)
]

-- Over n idle ticks whose flushes succeed, the flushes tried times heartbeat_every, and the idle
-- ticks since the last, add up to the ticks: one flush in every heartbeat_every ticks, and the loop
-- goes on.
pub run-quiet :
    (heartbeat_every n : ℕ) (r : Runner)
    → 0 < heartbeat_every
    → r.idle_ticks < heartbeat_every
    → r.returned ≡ false
    → let s = run heartbeat_every (quiet n) r in
      (s.tried * heartbeat_every + s.idle_ticks ≡ r.tried * heartbeat_every + r.idle_ticks + n)
      × (s.idle_ticks < heartbeat_every)
      × (s.returned ≡ false)
unfolding run
run-quiet h zero r p i e = (omega arith, i, e)
run-quiet h (suc n) r p i e =
    let (a, b, c) = step-quiet h r p i e in
    let (a', b', c') = run-quiet h n (step h (tick false written) r) p b c in
    (omega (arith, a, a'), b', c')

-- Once `Run` has returned, no turn changes anything.
run_returned : (h : ℕ) (ts : List Turn) (r : Runner) → r.returned ≡ true → run h ts r ≡ r
unfolding run
run_returned h [] r e = refl
run_returned h (t ∷ ts) r e = ap (run h ts) (step_returned h t r e) ∙ run_returned h ts r e

abbrev pub failing : ℕ → List Turn
failing zero = []
failing (suc n) = tick false failed ∷ failing n

step-failing :
    (h : ℕ) (r : Runner)
    → h ≤ r.idle_ticks + 1
    → r.returned ≡ false
    → step h (tick false failed) r ≡ record r { tried = r.tried + 1; idle_ticks = r.idle_ticks + 1 }
step-failing h r i e = step_running h (tick false failed) r e ∙ ground arith

-- Once a heartbeat is due and its flush fails, every further idle tick tries a flush again, and the
-- loop goes on.
pub run-failing :
    (h n : ℕ) (r : Runner)
    → h ≤ r.idle_ticks + 1
    → r.returned ≡ false
    → run h (failing n) r ≡ record r { tried = r.tried + n; idle_ticks = r.idle_ticks + n }
unfolding run
run-failing h zero r i e = ground arith
run-failing h (suc n) r i e =
    ap (run h (failing n)) (step-failing h r i e)
    ∙ (run-failing h n (record r { tried = r.tried + 1; idle_ticks = r.idle_ticks + 1 })
          (omega arith) e
        ∙ ground arith)

-- ===== src/Process.antt =====
-- The `main` functions of the services: what a run opens, starts and gives back. `defer` runs its
-- calls last in, first out, also when a panic unwinds `main`; `log.Fatalf` ends the process at once.
use public_pg2mongo_cd_c.Base.{
  String, Bool, true, false, ◌≡◌, ◌↔◌, if◌then◌else◌, List, [], ◌∷◌, map, Option, none, some,
}

module _ (R : Type 0) where
  pub data Step : Type 0 where
    -- Opens a resource and defers what gives it back; on an error the process ends.
    acquire : R → Bool → Step
    -- A call whose error ends the process.
    require : R → Bool → Step
    -- A call that may panic.
    must : Bool → Step
    -- A `go` statement.
    launch : String → Step
    -- The loop of the service, until it returns.
    serve : Step

  pub data Action : Type 0 where
    opened closed fatal : R → Action
    launched : String → Action
    served panicked : Action

  -- The deferred calls, the last first.
  unfoldable pub unwind : List R → List Action
  unwind [] = []
  unwind (r ∷ ds) = closed r ∷ unwind ds

  unfoldable pub run_from : List R → List Step → List Action
  run_from ds [] = unwind ds
  run_from ds (acquire r false ∷ steps) = fatal r ∷ []
  run_from ds (acquire r true ∷ steps) = opened r ∷ run_from (r ∷ ds) steps
  run_from ds (require r true ∷ steps) = run_from ds steps
  run_from ds (require r false ∷ steps) = fatal r ∷ []
  run_from ds (must true ∷ steps) = run_from ds steps
  run_from ds (must false ∷ steps) = panicked ∷ unwind ds
  run_from ds (launch name ∷ steps) = launched name ∷ run_from ds steps
  run_from ds (serve ∷ steps) = served ∷ run_from ds steps

  -- What a trace gives back, in order.
  unfoldable pub closings : List Action → List R
  closings [] = []
  closings (closed r ∷ t) = r ∷ closings t
  closings (_ ∷ t) = closings t

  -- The resource that could not be opened.
  unfoldable pub stopped_at : List Action → Option R
  stopped_at [] = none
  stopped_at (fatal r ∷ t) = some r
  stopped_at (_ ∷ t) = stopped_at t

  unfoldable pub was_served : List Action → Bool
  was_served [] = false
  was_served (served ∷ t) = true
  was_served (_ ∷ t) = was_served t

  -- What a trace does once the loop of the service has returned.
  unfoldable pub after_served : List Action → List Action
  after_served [] = []
  after_served (served ∷ t) = t
  after_served (_ ∷ t) = after_served t

  -- A run serves and gives back all of `held`, in that order, all after its loop, or it is stopped and gives nothing
  -- back.
  abbrev pub Ends : List R → Bool → List Action → Type 0
  Ends held all_open t =
      (was_served t ≡ all_open)
      × (closings t ≡ (if all_open then held else []))
      × (after_served t ≡ (if all_open then map closed held else []))
      × ((stopped_at t ≡ none) ↔ (all_open ≡ true))

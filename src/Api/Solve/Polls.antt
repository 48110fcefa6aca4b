-- ===== src/Api/Solve/Polls.antt =====
-- solve.go: when the polling loop returns, and what.
use korai_sdk_go.Prelude.{
  ℕ, suc, String, ◌≡◌, ◌≢◌, refl, ap, ◌∙◌, ◌⊎◌, inl, inr, Bool, true, false, Option, none, some,
  List, [], ◌∷◌, ◌++◌, replicate, arith, Bool-cases,
}
use korai_sdk_go.Prelude.Dict.{is_some}
use korai_sdk_go.Stream.{Text}
use korai_sdk_go.Api.Errors.{ErrorLibrary}
use korai_sdk_go.Api.Options.{Client}
use korai_sdk_go.Api.Exchange.{ApiTransport, ApiResult, answered, failed}
use korai_sdk_go.Api.Solve.{
  SolveRunDto, SolveRun, SolveRequest, PollEvent, tick, context_done, Waited,
  is_terminal_solve_status, solve, get_solve_run, settled, poll, solve_and_wait,
}

-- The context ends at some point of the events.
abbrev pub Ends : List PollEvent → Type 0
Ends [] = ⊥
Ends (tick ∷ events) = Ends events
Ends (context_done ∷ events) = Unit

module _ {Raw Store Rest Message : Type 0} (L : ErrorLibrary Raw)
    (is_valid : String → String → Bool) (T : ApiTransport) (c : Client Store)
    (unmarshal : Text → Option SolveRunDto)
    (marshal : SolveRequest Rest Message → Option Text) where
  -- The run is polled `n` times, and reaches a terminal status with the last poll.
  pub data Finishes : ℕ → SolveRun → T.State → SolveRun → T.State → Type 0 where
    now :
        {run run' : SolveRun} {st st' : T.State}
        → get_solve_run L is_valid T c unmarshal marshal run.run_id st ≡ (answered run', st')
        → is_terminal_solve_status run'.status ≡ true
        → Finishes 1 run st run' st'
    later :
        {n : ℕ} {run run' run'' : SolveRun} {st st' st'' : T.State}
        → get_solve_run L is_valid T c unmarshal marshal run.run_id st ≡ (answered run', st')
        → is_terminal_solve_status run'.status ≡ false
        → Finishes n run' st' run'' st''
        → Finishes (suc n) run st run'' st''

  abbrev settle :
      Option SolveRun
      → ApiResult Raw SolveRun × T.State
      → (SolveRun → T.State → Option (Waited Raw × T.State))
      → Option (Waited Raw × T.State)
  settle = settled L is_valid T c unmarshal marshal

  settled-terminal :
      (last : Option SolveRun) (r : ApiResult Raw SolveRun × T.State) (run : SolveRun)
      (st : T.State) (next : SolveRun → T.State → Option (Waited Raw × T.State))
      → r ≡ (answered run, st)
      → is_terminal_solve_status run.status ≡ true
      → settle last r next ≡ some (record { run = some run; error = none }, st)
  unfolding settled
  settled-terminal last r run st next q t = ap (λ p. settle last p next) q ∙ rw (t, settled) refl

  settled-waiting :
      (last : Option SolveRun) (r : ApiResult Raw SolveRun × T.State) (run : SolveRun)
      (st : T.State) (next : SolveRun → T.State → Option (Waited Raw × T.State))
      → r ≡ (answered run, st)
      → is_terminal_solve_status run.status ≡ false
      → settle last r next ≡ next run st
  unfolding settled
  settled-waiting last r run st next q t = ap (λ p. settle last p next) q ∙ rw (t, settled) refl

  poll-Finishes :
      (n : ℕ) (run run' : SolveRun) (st st' : T.State) (events : List PollEvent)
      → Finishes n run st run' st'
      → poll L is_valid T c unmarshal marshal (replicate n tick ++ events) run st
        ≡ some (record { run = some run'; error = none }, st')
  unfolding poll
  poll-Finishes _ run run' st st' events (now q t) =
      settled-terminal (some run) _ run' st' (poll L is_valid T c unmarshal marshal events) q t
  poll-Finishes _ run run' st st' events (later {n = n} {run' = x} {st' = s} q t f) =
      settled-waiting (some run) _ x s
        (poll L is_valid T c unmarshal marshal (replicate n tick ++ events)) q t
      ∙ poll-Finishes n x run' s st' events f

  -- A search that starts, and whose run is found finished by the n-th poll and not before, is
  -- returned without an error after n ticks, whatever comes after them.
  pub solve_and_wait-Finishes :
      (n : ℕ) (req : SolveRequest Rest Message) (run run' : SolveRun) (st s st' : T.State)
      (events : List PollEvent)
      → solve L is_valid T c unmarshal marshal req st ≡ (answered run, s)
      → is_terminal_solve_status run.status ≡ false
      → Finishes n run s run' st'
      → solve_and_wait L is_valid T c unmarshal marshal (replicate n tick ++ events) req st
        ≡ some (record { run = some run'; error = none }, st')
  unfolding solve_and_wait
  solve_and_wait-Finishes n req run run' st s st' events q t f =
      settled-waiting none _ run s
        (poll L is_valid T c unmarshal marshal (replicate n tick ++ events)) q t
      ∙ poll-Finishes n run run' s st' events f

  -- What is returned without an error is a finished run.
  abbrev pub IsFinished : Option (Waited Raw × T.State) → Type 0
  IsFinished none = Unit
  IsFinished (some (w, st)) =
      (w.error ≢ none)
      ⊎ ((run : SolveRun) × (w.run ≡ some run) × (is_terminal_solve_status run.status ≡ true))

  settled-IsFinished :
      (last : Option SolveRun) (r : ApiResult Raw SolveRun × T.State)
      (next : SolveRun → T.State → Option (Waited Raw × T.State))
      → ((run : SolveRun) (st : T.State) → IsFinished (next run st))
      → IsFinished (settle last r next)
  unfolding settled
  settled-IsFinished last (failed e, st) next h = inl (λ q. ground (arith, q))
  settled-IsFinished last (answered run, st) next h =
      elim (Bool-cases (is_terminal_solve_status run.status)) [
        | inl t ↦ rw (t, settled) (inr (run, refl, t))
        | inr t ↦ rw (t, settled) (h run st)
      ]

  poll-IsFinished :
      (events : List PollEvent) (run : SolveRun) (st : T.State)
      → IsFinished (poll L is_valid T c unmarshal marshal events run st)
  unfolding poll
  poll-IsFinished [] run st = tt
  poll-IsFinished (context_done ∷ events) run st = inl (λ q. ground (arith, q))
  poll-IsFinished (tick ∷ events) run st =
      settled-IsFinished (some run) (get_solve_run L is_valid T c unmarshal marshal run.run_id st)
        (poll L is_valid T c unmarshal marshal events) (poll-IsFinished events)

  -- Waiting for a search never returns a run that is not finished without an error.
  pub solve_and_wait-IsFinished :
      (events : List PollEvent) (req : SolveRequest Rest Message) (st : T.State)
      → IsFinished (solve_and_wait L is_valid T c unmarshal marshal events req st)
  unfolding solve_and_wait
  solve_and_wait-IsFinished events req st =
      settled-IsFinished none (solve L is_valid T c unmarshal marshal req st)
        (poll L is_valid T c unmarshal marshal events) (poll-IsFinished events)

  settled-returns :
      (last : Option SolveRun) (r : ApiResult Raw SolveRun × T.State)
      (next : SolveRun → T.State → Option (Waited Raw × T.State))
      → ((run : SolveRun) (st : T.State) → is_some (next run st) ≡ true)
      → is_some (settle last r next) ≡ true
  unfolding settled
  settled-returns last (failed e, st) next h = refl
  settled-returns last (answered run, st) next h =
      elim (Bool-cases (is_terminal_solve_status run.status)) [
        | inl t ↦ rw (t, settled) refl
        | inr t ↦ rw (t, settled) (h run st)
      ]

  poll-returns :
      (events : List PollEvent) (run : SolveRun) (st : T.State)
      → Ends events
      → is_some (poll L is_valid T c unmarshal marshal events run st) ≡ true
  unfolding poll
  poll-returns [] run st h = absurd h
  poll-returns (context_done ∷ events) run st h = refl
  poll-returns (tick ∷ events) run st h =
      settled-returns (some run) (get_solve_run L is_valid T c unmarshal marshal run.run_id st)
        (poll L is_valid T c unmarshal marshal events) (λ run' st'. poll-returns events run' st' h)

  -- Waiting for a search returns if the context ends, whatever the server answers.
  pub solve_and_wait-returns :
      (events : List PollEvent) (req : SolveRequest Rest Message) (st : T.State)
      → Ends events
      → is_some (solve_and_wait L is_valid T c unmarshal marshal events req st) ≡ true
  unfolding solve_and_wait
  solve_and_wait-returns events req st h =
      settled-returns none (solve L is_valid T c unmarshal marshal req st)
        (poll L is_valid T c unmarshal marshal events) (λ run st'. poll-returns events run st' h)

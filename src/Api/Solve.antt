-- ===== src/Api/Solve.antt =====
-- solve.go: durable runs and the loop that polls them. The ticks of the poll and the end of the
-- context are a list of events: which of the two the `select` takes next. Fields of a run that the
-- loop does not read are kept in an abstract value.
pub mod Polls
use korai_sdk_go.Prelude.{
  ℕ, String, Bool, true, false, Option, none, some, List, [], ◌∷◌, ◌||◌, ◌<>◌, ◌==◌, length, nat_eq,
  if◌then◌else◌,
}
use korai_sdk_go.Stream.{Text}
use korai_sdk_go.Api.Errors.{ErrorLibrary, SdkError, cancelled, invalid_config}
use korai_sdk_go.Api.Options.{Client}
use korai_sdk_go.Api.Exchange.{
  ApiTransport, no_payload, payload, ApiResult, answered, failed, do_request,
}

pub record Usage : Type 0 where
  pub prompt_tokens : ℕ
  pub completion_tokens : ℕ

-- The wire shape, and the run with the counts lifted.
pub record SolveRunDto : Type 0 where
  pub run_id : String
  pub status : String
  pub model : String
  pub result : Text
  pub error : Text
  pub usage : Usage

pub record SolveRun : Type 0 where
  pub run_id : String
  pub status : String
  pub model : String
  pub result : Text
  pub error : Text
  pub prompt_tokens : ℕ
  pub completion_tokens : ℕ

unfoldable pub run_from_dto : SolveRunDto → SolveRun
run_from_dto raw = record {
  run_id = raw.run_id;
  status = raw.status;
  model = raw.model;
  result = raw.result;
  error = raw.error;
  prompt_tokens = raw.usage.prompt_tokens;
  completion_tokens = raw.usage.completion_tokens;
}

unfoldable pub unmarshal_run : (Text → Option SolveRunDto) → Text → Option SolveRun
unfolding run_from_dto
unmarshal_run unmarshal t = elim (unmarshal t) [ none ↦ none | some raw ↦ some (run_from_dto raw) ]

-- A `SolveRun` before anything is decoded into it.
abbrev pub zero_run : SolveRun
zero_run = record {
  run_id = "";
  status = "";
  model = "";
  result = [];
  error = [];
  prompt_tokens = 0;
  completion_tokens = 0;
}

unfoldable pub is_terminal_solve_status : String → Bool
is_terminal_solve_status status = status == "done" || status == "error"

-- The parts of a request that `Solve` sets and reads, and the rest of it.
pub record SolveRequest (Rest Message : Type 0) : Type 0 where
  pub model : String
  pub stream : Bool
  pub messages : List Message
  pub rest : Rest

pub data PollEvent : Type 0 where
  tick context_done : PollEvent

-- What `SolveAndWait` returns: a run, if there is one, and an error, if there is one.
pub record Waited (Raw : Type 0) : Type 0 where
  pub run : Option SolveRun
  pub error : Option (SdkError Raw)

module _ {Raw Store Rest Message : Type 0} (L : ErrorLibrary Raw)
    (is_valid : String → String → Bool) (T : ApiTransport) (c : Client Store)
    (unmarshal : Text → Option SolveRunDto)
    (marshal : SolveRequest Rest Message → Option Text) where
  unfoldable pub solve : SolveRequest Rest Message → T.State → ApiResult Raw SolveRun × T.State
  unfolding unmarshal_run
  solve req st =
      if nat_eq (length req.messages) 0
      then (failed invalid_config, st)
      else do_request L is_valid T c "POST" "/v1/solve"
          (payload (marshal (record req { model = "max"; stream = false }))) zero_run
          (unmarshal_run unmarshal) st

  unfoldable pub get_solve_run : String → T.State → ApiResult Raw SolveRun × T.State
  unfolding unmarshal_run
  get_solve_run run_id st =
      if run_id == ""
      then (failed invalid_config, st)
      else do_request L is_valid T c "GET" ("/v1/solve/" <> run_id) no_payload zero_run
          (unmarshal_run unmarshal) st

  -- A run that has come back is returned, or passed on to the rest of the loop.
  unfoldable pub settled :
      Option SolveRun
      → ApiResult Raw SolveRun × T.State
      → (SolveRun → T.State → Option (Waited Raw × T.State))
      → Option (Waited Raw × T.State)
  unfolding is_terminal_solve_status
  settled last (failed e, st) next = some (record { run = last; error = some e }, st)
  settled last (answered run, st) next =
      if is_terminal_solve_status run.status
      then some (record { run = some run; error = none }, st)
      else next run st

  -- The loop. `none` where the events given are used up and it still waits.
  unfoldable pub poll : List PollEvent → SolveRun → T.State → Option (Waited Raw × T.State)
  unfolding settled get_solve_run
  poll [] run st = none
  poll (context_done ∷ events) run st = some (record { run = some run; error = some cancelled }, st)
  poll (tick ∷ events) run st = settled (some run) (get_solve_run run.run_id st) (poll events)

  unfoldable pub solve_and_wait :
      List PollEvent → SolveRequest Rest Message → T.State → Option (Waited Raw × T.State)
  unfolding solve poll settled
  solve_and_wait events req st = settled none (solve req st) (poll events)

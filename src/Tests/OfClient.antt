-- ===== src/Tests/OfClient.antt =====
-- Examples of retries, event streams, registries and tool runs.
use korai_sdk_go.Prelude.{
  ℕ, zero, suc, ◌+◌, ◌≤◌, String, ◌≡◌, refl, true, false, Option, none, some, List, [], ◌∷◌, arith,
}
use korai_sdk_go.Prelude.Int.{pos}
use korai_sdk_go.Retry.{Response, retry_delay}
use korai_sdk_go.Retry.Bounds.{retry_delay-range}
use korai_sdk_go.Retry.Attempts.{Exchange, Outcome, round_trip}
use korai_sdk_go.Retry.Attempts.Laws.{Counted, round_trip_total}
use korai_sdk_go.Session.{ToolCall, Message}
use korai_sdk_go.Tools.{Tool, returned, get, invoke, to_openai_schemas}
use korai_sdk_go.ToolRunner.{RunToolsOptions, RunToolsResult, RunnerLibrary, run_tools}
use korai_sdk_go.ToolRunner.Laws.{Extends, Ending, run_tools_lem}

retry_delay-range_example :
    (x : ℕ) × (retry_delay
        (λ s. some (pos 5))
        (λ n. 0)
        2
        (some (record { status_code = 429; retry_after = "5" }))
      ≡ some (pos x))
    × (x ≤ 60000000000)
retry_delay-range_example =
    retry_delay-range (λ s. some (pos 5)) (λ n. 0) (λ n h. h) 2
      (some (record { status_code = 429; retry_after = "5" })) (omega arith)
      (λ r secs p q. ground (arith, q))

-- A server that is busy once; the state counts the requests.
abbrev busy_once : ℕ → Option Response
busy_once zero = some (record { status_code = 503; retry_after = "" })
busy_once (suc n) = some (record { status_code = 200; retry_after = "" })

abbrev exchange : Exchange
exchange = record {
  State = ℕ;
  reset_body = λ n. (true, n);
  base = λ n. (busy_once n, n + 1);
  cancelled = λ n. false;
  drain = λ n. n;
  sleep = λ d n. (true, n);
}

abbrev counted : Counted exchange
counted = record {
  calls = λ n. n;
  calls-reset_body = λ n. refl;
  calls-base = λ n. refl;
  calls-drain = λ n. refl;
  calls-sleep = λ d n. refl;
}

round_trip_total_example :
    (o : Outcome) × (s : ℕ) × (round_trip exchange (λ h. none) (λ n. 0) 2 0 ≡ some (o, s))
    × (s ≤ 0 + 2 + 1)
round_trip_total_example = round_trip_total exchange counted (λ h. none) (λ n. 0) 2 0

abbrev tool : String → String → Tool String String ℕ
tool name description = record {
  name = name;
  description = description;
  input_schema = "object";
  execute = λ input n. (returned input, n + 1);
}

abbrev says : String → List (ToolCall String) → Message String
says content calls = record {
  role = "assistant";
  content = content;
  name = "";
  tool_calls = calls;
  tool_call_id = "";
  parts = [];
}

-- A model that calls a tool once, and then answers.
abbrev model : ℕ → List (Message String)
model zero = says "" (record { id = "c"; name = "a"; input = some "1" } ∷ []) ∷ []
model (suc n) = says "done" [] ∷ []

abbrev runner : RunnerLibrary String ℕ String String ℕ
runner = record {
  chat_complete = λ req n. (some (model n), n);
  marshal_args = λ input. "1";
  marshal_result = λ res. res;
  marshal_error = λ err. err;
  not_registered = λ name. name;
}

abbrev options : RunToolsOptions String ℕ
options = record { messages = []; model = "auto"; system = ""; temperature = 0; max_turns = pos 0 }

abbrev outcome : RunToolsResult String
outcome = record {
  messages =
      says "" (record { id = "c"; name = "a"; input = some "1" } ∷ [])
      ∷ record {
        role = "tool";
        content = "1";
        name = "a";
        tool_calls = [];
        tool_call_id = "c";
        parts = [];
      }
      ∷ says "done" []
      ∷ [];
  final = some (says "done" [] ∷ []);
  turns = 2;
  stopped_at_max_turns = false;
  tool_runs = record { tool_call_id = "c"; name = "a"; output = "1" } ∷ [];
}

run_tools_lem_example :
    Extends [] outcome.messages [] outcome.tool_runs
    × Ending runner (("a", tool "a" "") ∷ []) options 5 outcome
unfolding run_tools invoke get to_openai_schemas
run_tools_lem_example = run_tools_lem runner (("a", tool "a" "") ∷ []) options 0 1 outcome refl

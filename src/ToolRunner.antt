-- ===== src/ToolRunner.antt =====
-- toolrunner.go: the loop between the model and the tools.
pub mod Laws
use korai_sdk_go.Prelude.{
  ℕ, zero, suc, ◌+◌, String, Bool, true, false, Option, none, some, List, [], ◌∷◌, ◌++◌, ◌&&◌, not,
  nat_eq, ◌==◌, if◌then◌else◌,
}
use korai_sdk_go.Prelude.Int.{ℤ, pos, negsuc}
use korai_sdk_go.Session.{ToolCall, Message}
use korai_sdk_go.Tools.{
  Outcome, returned, failed, Tool, ToolRegistry, OpenAiTool, invoke, to_openai_schemas,
}

pub record RunToolsOptions (Args Temperature : Type 0) : Type 0 where
  pub messages : List (Message Args)
  pub model : String
  pub system : String
  pub temperature : Temperature
  pub max_turns : ℤ

pub record ToolRunResult : Type 0 where
  pub tool_call_id : String
  pub name : String
  pub output : String

-- The fields of `ChatRequest` that the loop sets.
pub record ChatRequest (Args Temperature Schema : Type 0) : Type 0 where
  pub messages : List (Message Args)
  pub model : String
  pub system : String
  pub temperature : Temperature
  pub tools : List (OpenAiTool Schema)

-- A completion, as the messages of its choices.
abbrev pub ChatResponse : Type 0 → Type 0
ChatResponse Args = List (Message Args)

pub record RunToolsResult (Args : Type 0) : Type 0 where
  pub messages : List (Message Args)
  pub final : Option (ChatResponse Args)
  pub turns : ℕ
  pub stopped_at_max_turns : Bool
  pub tool_runs : List ToolRunResult

-- `ChatComplete`, `none` for an error, `json.Marshal` of arguments, results and `{"error": ...}`,
-- and the text of the error of an unknown tool.
pub record RunnerLibrary (Args Temperature Schema Result World : Type 0) : Type 0 where
  pub chat_complete :
      ChatRequest Args Temperature Schema → World → Option (ChatResponse Args) × World
  pub marshal_args : Option Args → String
  pub marshal_result : Result → String
  pub marshal_error : String → String
  pub not_registered : String → String

abbrev pub turn_limit : ℤ → ℕ
turn_limit (pos zero) = 5
turn_limit (pos (suc n)) = suc n
turn_limit (negsuc n) = 5

abbrev pub assistant_message : {Args : Type 0} → String → List (ToolCall Args) → Message Args
assistant_message content calls = record {
  role = "assistant";
  content = content;
  name = "";
  tool_calls = calls;
  tool_call_id = "";
  parts = [];
}

abbrev pub tool_message : {Args : Type 0} → ToolRunResult → Message Args
tool_message run = record {
  role = "tool";
  content = run.output;
  name = run.name;
  tool_calls = [];
  tool_call_id = run.tool_call_id;
  parts = [];
}

-- Content and calls of the first choice, if there is one.
abbrev pub first_content : {Args : Type 0} → ChatResponse Args → String
first_content [] = ""
first_content (m ∷ ms) = m.content

abbrev pub first_calls : {Args : Type 0} → ChatResponse Args → List (ToolCall Args)
first_calls [] = []
first_calls (m ∷ ms) = m.tool_calls

-- The conversation, the tool runs and the world, as the loop changes them.
pub record Running (Args World : Type 0) : Type 0 where
  pub msgs : List (Message Args)
  pub runs : List ToolRunResult
  pub world : World

module _ {Args Temperature Schema Result World : Type 0}
    (L : RunnerLibrary Args Temperature Schema Result World)
    (tools : ToolRegistry Schema Result World) where
  output_of : Outcome Result → String
  output_of (returned res) = L.marshal_result res
  output_of (failed err) = L.marshal_error err

  run_call : ToolCall Args → Running Args World → Running Args World
  run_call call s =
      let (res, w) = invoke L.not_registered tools call.name (L.marshal_args call.input) s.world in
      let run : ToolRunResult = record {
        tool_call_id = call.id;
        name = call.name;
        output = output_of res;
      } in
      record { msgs = s.msgs ++ tool_message run ∷ []; runs = s.runs ++ run ∷ []; world = w }

  run_calls : List (ToolCall Args) → Running Args World → Running Args World
  run_calls [] s = s
  run_calls (call ∷ calls) s = run_calls calls (run_call call s)

  module _ (opts : RunToolsOptions Args Temperature) where
    abbrev request : ℕ → List (Message Args) → ChatRequest Args Temperature Schema
    request turn msgs = record {
      messages = msgs;
      model = opts.model;
      system = if nat_eq turn 0 && not (opts.system == "") then opts.system else "";
      temperature = opts.temperature;
      tools = to_openai_schemas tools;
    }

    -- The state after the answer of the model has been added.
    abbrev answered : ChatResponse Args → Running Args World → World → Running Args World
    answered resp s w = record s {
      msgs = s.msgs ++ assistant_message (first_content resp) (first_calls resp) ∷ [];
      world = w;
    }

    -- The loop with so many turns left; `none` is an error of `ChatComplete`.
    run_turns :
        ℕ
        → ℕ
        → Option (ChatResponse Args)
        → Running Args World
        → Option (RunToolsResult Args) × World
    run_turns zero turn final s = (
      some (record {
        messages = s.msgs;
        final = final;
        turns = turn;
        stopped_at_max_turns = true;
        tool_runs = s.runs;
      }),
      s.world,
    )
    run_turns (suc left) turn final s =
        let (resp, w) = L.chat_complete (request turn s.msgs) s.world in
        elim resp [
          | none ↦ (none, w)
          | some r ↦ elim (first_calls r) [
            | [] ↦ (
              some (record {
                messages = (answered r s w).msgs;
                final = some r;
                turns = turn + 1;
                stopped_at_max_turns = false;
                tool_runs = s.runs;
              }),
              w,
            )
            | call ∷ calls ↦
                run_turns left (turn + 1) (some r) (run_calls (call ∷ calls) (answered r s w))
          ]
        ]

    unfoldable pub run_tools : World → Option (RunToolsResult Args) × World
    unfolding output_of run_call run_calls run_turns
    run_tools w =
        run_turns (turn_limit opts.max_turns) 0 none
          (record { msgs = opts.messages; runs = []; world = w })

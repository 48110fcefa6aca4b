-- ===== src/Api/Chat.antt =====
-- llm.go: the wire form of messages and tool calls, and the chat calls. The raw JSON of a content is
-- told apart by what it decodes to.
pub mod Messages
pub mod Streamed
use korai_sdk_go.Prelude.{
  ℕ, String, Bool, true, false, Option, none, some, List, [], ◌∷◌, map, length, not, nat_eq, ◌==◌,
  if◌then◌else◌,
}
use korai_sdk_go.Session.{ContentPart, ToolCall, Message}
use korai_sdk_go.Session.Projection.{join}
use korai_sdk_go.Stream.{Text}
use korai_sdk_go.Api.Errors.{ErrorLibrary, SdkError, marshal_failed, invalid_config, no_response}
use korai_sdk_go.Api.Options.{Client}
use korai_sdk_go.Api.Exchange.{Sent, ApiResult, answered, failed, gen_decode}

pub data RawContent : Type 0 where
  no_content null_content other_content : RawContent
  string_content : String → RawContent
  parts_content : List ContentPart → RawContent

-- `encoding/json` on the argument maps of tool calls, whose raw JSON is a text: writing a map, `none`
-- for an error; reading a map, `none` for an error or null; reading a string, where null reads as
-- the empty one; and whether a map is empty, which `omitempty` leaves out.
pub record ArgsLibrary (Args : Type 0) : Type 0 where
  pub marshal_map : Args → Option String
  pub unmarshal_map : String → Option Args
  pub unmarshal_string : String → Option String
  pub is_empty_map : Args → Bool

-- A field of raw JSON that is left out is "".
pub record ToolCallDto : Type 0 where
  pub id : String
  pub function_name : String
  pub function_arguments : String
  pub name : String
  pub input : String

pub record MessageDto : Type 0 where
  pub role : String
  pub content : RawContent
  pub name : String
  pub tool_calls : List ToolCallDto
  pub tool_call_id : String

-- The texts of the text parts.
unfoldable pub part_texts : List ContentPart → List String
part_texts [] = []
part_texts (p ∷ ps) = let rest = part_texts ps in if p.type == "text" then p.text ∷ rest else rest

raw_content : String → List ContentPart → RawContent
raw_content content [] = string_content content
raw_content content (p ∷ ps) = parts_content (p ∷ ps)

module _ {Args : Type 0} (J : ArgsLibrary Args) where
  unfoldable pub decode_tool_args : String → Option Args
  decode_tool_args raw =
      if raw == ""
      then none
      else elim (J.unmarshal_string raw) [ some s ↦ J.unmarshal_map s | none ↦ J.unmarshal_map raw ]

  unfoldable pub raw_input : Option Args → Option String
  raw_input none = some ""
  raw_input (some m) = if J.is_empty_map m then some "" else J.marshal_map m

  -- A tool call as `encoding/json` writes it from its tags, `none` for an error.
  unfoldable pub tool_call_to_dto : ToolCall Args → Option ToolCallDto
  unfolding raw_input
  tool_call_to_dto tc = elim (raw_input tc.input) [
    | none ↦ none
    | some raw ↦ some (record {
      id = tc.id;
      function_name = "";
      function_arguments = "";
      name = tc.name;
      input = raw;
    })
  ]

  unfoldable pub tool_calls_to_dto : List (ToolCall Args) → Option (List ToolCallDto)
  unfolding tool_call_to_dto
  tool_calls_to_dto [] = some []
  tool_calls_to_dto (tc ∷ tcs) =
      let rest = tool_calls_to_dto tcs in
      elim (tool_call_to_dto tc) [
        | none ↦ none
        | some d ↦ elim rest [ none ↦ none | some ds ↦ some (d ∷ ds) ]
      ]

  unfoldable pub tool_call_from_dto : ToolCallDto → ToolCall Args
  unfolding decode_tool_args
  tool_call_from_dto raw =
      if not (raw.function_name == "")
      then record {
        id = raw.id;
        name = raw.function_name;
        input = decode_tool_args raw.function_arguments;
      }
      else record { id = raw.id; name = raw.name; input = decode_tool_args raw.input }

  -- `Message.MarshalJSON`, `none` for an error.
  unfoldable pub chat_message_to_dto : Message Args → Option MessageDto
  unfolding tool_calls_to_dto raw_content
  chat_message_to_dto m = elim (tool_calls_to_dto m.tool_calls) [
    | none ↦ none
    | some calls ↦ some (record {
      role = m.role;
      content = raw_content m.content m.parts;
      name = m.name;
      tool_calls = calls;
      tool_call_id = m.tool_call_id;
    })
  ]

  abbrev decoded_message : MessageDto → String → List ContentPart → Message Args
  decoded_message raw content parts = record {
    role = raw.role;
    content = content;
    name = raw.name;
    tool_calls = map tool_call_from_dto raw.tool_calls;
    tool_call_id = raw.tool_call_id;
    parts = parts;
  }

  with_content : MessageDto → RawContent → Option (Message Args)
  with_content raw no_content = some (decoded_message raw "" [])
  with_content raw null_content = some (decoded_message raw "" [])
  with_content raw (string_content s) = some (decoded_message raw s [])
  with_content raw (parts_content ps) = some (decoded_message raw (join (part_texts ps)) ps)
  with_content raw other_content = none

  -- `Message.UnmarshalJSON`
  unfoldable pub chat_message_from_dto : MessageDto → Option (Message Args)
  unfolding tool_call_from_dto with_content
  chat_message_from_dto raw = with_content raw raw.content

-- The fields of `ChatRequest` that the calls read or set, and the rest of it.
pub record ChatRequest (Rest Args : Type 0) : Type 0 where
  pub messages : List (Message Args)
  pub model : String
  pub stream : Bool
  pub rest : Rest

-- A descriptor of /v1/models; fields that are copied and not read are of an abstract type.
pub record ModelDescriptor (Rest : Type 0) : Type 0 where
  pub id : String
  pub kind : String
  pub rest : Rest

abbrev pub model_or_auto : String → String
model_or_auto model = if model == "" then "auto" else model

-- `ChatComplete`, with the generated call, a response that nothing is decoded into, and the decoding
-- of a body.
module _ {Raw Rest Args Response State : Type 0} (L : ErrorLibrary Raw)
    (marshal : ChatRequest Rest Args → Option Text)
    (create_completion : Text → State → Sent × State) (zero_response : Response)
    (decode : Text → Option Response) where
  unfoldable pub chat_complete : ChatRequest Rest Args → State → ApiResult Raw Response × State
  chat_complete req st =
      if nat_eq (length req.messages) 0
      then (failed invalid_config, st)
      else elim (marshal (record req { stream = false; model = model_or_auto req.model })) [
        | none ↦ (failed marshal_failed, st)
        | some raw ↦
            let (sent, st') = create_completion raw st in
            (gen_decode L zero_response decode sent, st')
      ]

pub record CountTokensRequest (Args : Type 0) : Type 0 where
  pub model : String
  pub messages : List (Message Args)

-- `CountTokens`, over its own generated call.
module _ {Raw Args Count State : Type 0} (L : ErrorLibrary Raw)
    (marshal : CountTokensRequest Args → Option Text) (count_call : Text → State → Sent × State)
    (zero_count : Count) (decode : Text → Option Count) where
  unfoldable pub count_tokens : CountTokensRequest Args → State → ApiResult Raw Count × State
  count_tokens req st =
      if nat_eq (length req.messages) 0
      then (failed invalid_config, st)
      else elim (marshal (record req { model = model_or_auto req.model })) [
        | none ↦ (failed marshal_failed, st)
        | some raw ↦
            let (sent, st') = count_call raw st in (gen_decode L zero_count decode sent, st')
      ]

module _ {Row : Type 0} where
  unfoldable pub model_ids : List (ModelDescriptor Row) → List String
  model_ids ms = map (λ (m : ModelDescriptor Row). m.id) ms

  unfoldable pub aliases : List (ModelDescriptor Row) → List (ModelDescriptor Row)
  aliases [] = []
  aliases (m ∷ ms) = let rest = aliases ms in if m.kind == "alias" then m ∷ rest else rest

module _ {Raw Row State : Type 0} (L : ErrorLibrary Raw) (list_models : State → Sent × State)
    (decode : Text → Option (List (ModelDescriptor Row))) where
  unfoldable pub list_models_detailed : State → ApiResult Raw (List (ModelDescriptor Row)) × State
  list_models_detailed st = let (sent, st') = list_models st in (gen_decode L [] decode sent, st')

  if_answered : {A B : Type 0} → (A → B) → ApiResult Raw A × State → ApiResult Raw B × State
  if_answered f (answered a, st) = (answered (f a), st)
  if_answered f (failed e, st) = (failed e, st)

  unfoldable pub list_models_ids : State → ApiResult Raw (List String) × State
  unfolding if_answered
  list_models_ids st = if_answered model_ids (list_models_detailed st)

  unfoldable pub list_modes : State → ApiResult Raw (List (ModelDescriptor Row)) × State
  unfolding if_answered
  list_modes st = if_answered aliases (list_models_detailed st)

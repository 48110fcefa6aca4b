-- ===== src/Tests/OfChat.antt =====
-- Examples of chat messages on the wire and of streamed completions.
use mathlib.Core.Path.{subst}
use korai_sdk_go.Prelude.{
  some-injective, String, Option, ◌≢◌, eq_iff, arith, ◌==◌, if◌then◌else◌, ℕ, ◌+◌, ◌≡◌, refl, true,
  false, none, some, List, [], ◌∷◌, ◌++◌,
}
use korai_sdk_go.Prelude.Int.{pos}
use korai_sdk_go.Session.{Message}
use korai_sdk_go.Session.Projection.{join}
use korai_sdk_go.Stream.{Text, chars, ChunkLibrary}
use korai_sdk_go.Stream.Frames.{keeps_all, stream_lines, stream_events}
use korai_sdk_go.Api.Errors.{ErrorLibrary}
use korai_sdk_go.Api.Options.{Client}
use korai_sdk_go.Api.Exchange.{
  ApiTransport, Reply, replied, do_raw_request, build_request, checked, exchanged, raw_reply,
  default_headers,
}
use korai_sdk_go.Api.Chat.{
  parts_content, ArgsLibrary, MessageDto, part_texts, raw_input, tool_call_to_dto,
  tool_calls_to_dto, chat_message_to_dto, chat_message_from_dto, ChatRequest,
}
use korai_sdk_go.Api.Chat.Messages.{WritesObjects, chat_message_from_dto-chat_message_to_dto}
use korai_sdk_go.Api.Chat.Streamed.{StreamBody, open_stream, chat_stream_complete}
use korai_sdk_go.Api.Chat.Streamed.Completed.{summary, broken_by, chat_stream_complete-frames}

-- Numbers of an argument map, the maps of the examples being one number each. JSON reads any number
-- as a float, and a channel has no JSON.
data Number : Type 0 where
  integer float : ℕ → Number
  channel : Number

abbrev numbers : ArgsLibrary Number
numbers = record {
  marshal_map = marshal_number;
  unmarshal_map = λ raw. if raw == "{\"n\":3}" then some (float 3) else none;
  unmarshal_string = λ raw. if raw == "null" then some "" else none;
  is_empty_map = λ m. false;
}
  where
    marshal_number : Number → Option String
    marshal_number (integer n) = some "{\"n\":3}"
    marshal_number (float n) = some "{\"n\":3}"
    marshal_number channel = none

numbers-WritesObjects : WritesObjects numbers
numbers-WritesObjects = record {
  given = λ m raw h. given m raw h;
  no_string = λ m raw h. no_string m raw h;
}
  where
    given : (m : Number) (raw : String) → numbers.marshal_map m ≡ some raw → raw ≢ ""
    given (integer n) raw h = λ q. ground (arith, h, q, eq_iff "{\"n\":3}" "")
    given (float n) raw h = λ q. ground (arith, h, q, eq_iff "{\"n\":3}" "")
    given channel raw h = absurd (ground (arith, h))

    no_string :
        (m : Number) (raw : String)
        → numbers.marshal_map m ≡ some raw
        → numbers.unmarshal_string raw ≡ none
    no_string (integer n) raw h =
        subst (λ r. numbers.unmarshal_string r ≡ none) (some-injective h) refl
    no_string (float n) raw h =
        subst (λ r. numbers.unmarshal_string r ≡ none) (some-injective h) refl
    no_string channel raw h = absurd (ground (arith, h))

abbrev wire_message : Message Number
wire_message = record {
  role = "assistant";
  content = "old";
  name = "";
  tool_calls = record { id = "1"; name = "bash"; input = some (integer 3) } ∷ [];
  tool_call_id = "";
  parts = record { type = "text"; text = "new"; image_url = none } ∷ [];
}

abbrev wire_dto : MessageDto
wire_dto = record {
  role = "assistant";
  content = parts_content (record { type = "text"; text = "new"; image_url = none } ∷ []);
  name = "";
  tool_calls =
      record {
        id = "1";
        function_name = "";
        function_arguments = "";
        name = "bash";
        input = "{\"n\":3}";
      }
      ∷ [];
  tool_call_id = "";
}

chat_message_from_dto-chat_message_to_dto_example :
    chat_message_from_dto numbers wire_dto
    ≡ some (record wire_message {
      content = "new";
      tool_calls = record { id = "1"; name = "bash"; input = some (float 3) } ∷ [];
    })
unfolding join part_texts
chat_message_from_dto-chat_message_to_dto_example =
    chat_message_from_dto-chat_message_to_dto numbers numbers-WritesObjects wire_message wire_dto
      (unfold chat_message_to_dto tool_calls_to_dto tool_call_to_dto raw_input in refl)

-- Every payload is one delta.
abbrev delta_chunks : ChunkLibrary ℕ
delta_chunks = record {
  unmarshal_envelope = λ raw. some (record {
    status = [];
    choices = record { content = raw; finish_reason = none } ∷ [];
    error = none;
    usage = none;
  });
  unmarshal_error = λ raw. raw;
  unmarshal_map = λ raw. 0;
}

abbrev no_errors : ErrorLibrary ℕ
no_errors = record {
  unmarshal_envelope = λ t. none;
  unmarshal_generic = λ t. none;
  string_field = λ m k. none;
  status_text = λ n. [];
  atoi = λ s. none;
}

abbrev ok_reply : Reply
ok_reply = record {
  response = record { status_code = 200; header = λ k. "" };
  content = [];
  broken = false;
}

abbrev streaming : ApiTransport
streaming = record { State = ℕ; send = λ n req. (replied ok_reply, n + 1) }

abbrev two_frames : List (List Text)
two_frames = (chars "hi" ∷ []) ∷ (chars "[DONE]" ∷ []) ∷ []

-- A body that breaks off after two frames.
abbrev broken_body : Reply → StreamBody
broken_body r = record {
  lines = stream_lines two_frames;
  scan_error = true;
  is_cancelled = false;
  error_text = chars "reset";
}

abbrev anyone : Client ℕ
anyone = record {
  api_key = "key";
  base_url = "https://api.example";
  organization_id = "";
  user_agent = "korai";
  http_client = none;
  timeout = pos 0;
  max_retries = pos 0;
  supplied_http_client = false;
  gen = none;
  audit = none;
}

abbrev question : ChatRequest ℕ Number
question = record { messages = wire_message ∷ []; model = ""; stream = false; rest = 0 }

chat_stream_complete-frames_example :
    chat_stream_complete no_errors
      (λ m u. true)
      streaming
      anyone
      (λ r. some (1 ∷ []))
      delta_chunks
      keeps_all
      broken_body
      (λ evs. evs)
      question
      []
      0
    ≡ (
      some (
          summary delta_chunks
            (stream_events delta_chunks two_frames ++ broken_by true (chars "reset"))),
      1,
    )
chat_stream_complete-frames_example =
    chat_stream_complete-frames delta_chunks no_errors (λ m u. true) streaming anyone
      (λ r. some (1 ∷ [])) broken_body question 0 1 ok_reply two_frames
      (unfold open_stream do_raw_request build_request checked exchanged raw_reply
          default_headers in
        refl)
      refl refl

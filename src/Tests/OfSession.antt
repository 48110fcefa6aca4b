-- ===== src/Tests/OfSession.antt =====
-- Examples of merges, projections and signed payloads.
use mathlib.Core.Logic.{ite, if_pos}
use korai_sdk_go.Prelude.{
  String, ◌≡◌, refl, ◌||◌, Option, none, some, List, [], ◌∷◌, ◌++◌, eq_iff, arith, Bool-cases, inl,
  inr, ◌==◌, ◌≢◌, if◌then◌else◌,
}
use korai_sdk_go.Session.{SessionMessage, Message, text_block, tool_use_block, nil_block}
use korai_sdk_go.Session.Merge.{merge_messages, contains, message_key}
use korai_sdk_go.Session.Merge.Fresh.{has_key, NodupKeys}
use korai_sdk_go.Session.Merge.Laws.{has_key-merge_messages, merge_messages_drops}
use korai_sdk_go.Session.Projection.{
  to_session_message, to_message, marshal_tool_input, decode_tool_input,
}
use korai_sdk_go.Session.Projection.RoundTrip.{flat_view, to_message-to_session_message}
use korai_sdk_go.Session.Wire.{
  SessionMessageDto, message_to_dto, unmarshal_message, marshal_message, compact_raw_json,
}
use korai_sdk_go.Session.Wire.RoundTrip.{message_as_written, unmarshal_message-marshal_message}
use korai_sdk_go.Session.Signing.Injective.{put, signed_fields, sync_canonical_payload-injective}
use korai_sdk_go.Tests.Fixtures.{said, marshal}

string_discrete : Discrete String
string_discrete s t = elim (Bool-cases (s == t)) [
  | inl e ↦ yes ((eq_iff s t).0 e)
  | inr e ↦ no (λ p. cc ((eq_iff s t).1 p, e))
]

dto_discrete : Discrete SessionMessageDto
dto_discrete = hlevel string_discrete

-- A tool input with a character that JSON escapes.
abbrev reply : SessionMessage
reply = record {
  role = "assistant";
  blocks = text_block "adding" ∷ tool_use_block "c1" "add" "[\"<\"]" ∷ nil_block ∷ [];
}

abbrev escaped : String → String
escaped raw = if raw == "[\"<\"]" then "[\"\\u003c\"]" else raw

-- JSON that knows one message.
marshal_dto : SessionMessageDto → Option String
marshal_dto d = ite (dto_discrete d (message_to_dto reply)) (some "raw") none

unmarshal_dto : String → Option SessionMessageDto
unmarshal_dto raw = some (message_as_written (λ raw. some raw) escaped (message_to_dto reply))

unmarshal_message-marshal_message_example :
    unmarshal_message (λ raw. some raw) unmarshal_dto "raw"
    ≡ some (record reply {
      blocks = text_block "adding" ∷ tool_use_block "c1" "add" "[\"\\u003c\"]" ∷ text_block "" ∷ [];
    })
unfolding message_to_dto compact_raw_json unmarshal_dto
unmarshal_message-marshal_message_example =
    unmarshal_message-marshal_message (λ raw. some raw) escaped marshal_dto unmarshal_dto reply
      "raw" (λ h. refl) (unfold marshal_message marshal_dto in if_pos _ refl (some "raw") none)

abbrev local : List SessionMessage
local = said "hi" ∷ said "yes" ∷ []

abbrev remote : List SessionMessage
remote = said "hi" ∷ said "no" ∷ []

local_nodup : NodupKeys marshal local
unfolding has_key contains message_key
local_nodup = (refl, (refl, tt))

merged : merge_messages marshal local remote ≡ said "hi" ∷ said "yes" ∷ said "no" ∷ []
unfolding merge_messages
merged = refl

has_key-merge_messages_example :
    has_key marshal (merge_messages marshal local remote) "no"
    ≡ (has_key marshal local "no" || has_key marshal remote "no")
has_key-merge_messages_example = has_key-merge_messages marshal local remote "no"

abbrev doubled : List SessionMessage
doubled = said "yes" ∷ said "yes" ∷ []

doubled_twice : ¬ (NodupKeys marshal doubled)
unfolding has_key contains message_key
doubled_twice u = ground (arith, u.0)

merge_messages_drops_example : merge_messages marshal doubled remote ≢ doubled ++ remote
merge_messages_drops_example = merge_messages_drops marshal doubled remote remote doubled_twice

abbrev question : Message String
question = record {
  role = "assistant";
  content = "let me see";
  name = "bot";
  tool_calls = record { id = "c1"; name = "add"; input = some "{}" } ∷ [];
  tool_call_id = "";
  parts = [];
}

flat_question : flat_view question ≡ record question { name = "" }
unfolding flat_view
flat_question = refl

to_message-to_session_message_example :
    to_message (λ raw. some raw) (to_session_message (λ (input : String). some input) question)
    ≡ flat_view question
unfolding marshal_tool_input decode_tool_input
to_message-to_session_message_example =
    to_message-to_session_message (λ (input : String). some input) (λ raw. some raw) question
      (refl, tt)

sync_canonical_payload-injective_example :
    signed_fields put "ns" "a" "h" ≡ signed_fields put "ns" "a" "h"
sync_canonical_payload-injective_example =
    sync_canonical_payload-injective put put "ns" "a" "h" "ns" "a" "h" (omega arith) (omega arith)
      refl

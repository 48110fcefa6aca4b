-- ===== src/Session/Wire.antt =====
-- session.go: the tagged wire form of session messages. `encoding/json` on the wire structs and
-- `json.Compact` are parameters.
pub mod RoundTrip
use korai_sdk_go.Prelude.{
  String, Bool, false, Option, none, some, List, [], ◌∷◌, map, ◌==◌, if◌then◌else◌,
}
use korai_sdk_go.Session.{
  Block, text_block, tool_use_block, tool_result_block, image_block, nil_block, SessionMessage,
}

pub record BlockDto : Type 0 where
  pub kind : String
  pub text : String
  pub id : String
  pub name : String
  pub input : String
  pub tool_call_id : String
  pub content : String
  pub is_error : Bool
  pub source : String

pub record SessionMessageDto : Type 0 where
  pub role : String
  pub blocks : List BlockDto

-- A `blockDTO` with only its kind.
abbrev pub tagged : String → BlockDto
tagged kind = record {
  kind = kind;
  text = "";
  id = "";
  name = "";
  input = "";
  tool_call_id = "";
  content = "";
  is_error = false;
  source = "";
}

unfoldable pub block_to_dto : Block → BlockDto
block_to_dto (text_block t) = record (tagged "text") { text = t }
block_to_dto (tool_use_block i n raw) = record (tagged "tool_use") { id = i; name = n; input = raw }
block_to_dto (tool_result_block i n c e) = record (tagged "tool_result") {
  tool_call_id = i;
  name = n;
  content = c;
  is_error = e;
}
block_to_dto (image_block u) = record (tagged "image") { source = u }
block_to_dto nil_block = tagged "text"

module _ (compact : String → Option String) where
  -- Empty or invalid input is returned unchanged.
  unfoldable pub compact_raw_json : String → String
  compact_raw_json raw =
      if raw == "" then raw else elim (compact raw) [ none ↦ raw | some short ↦ short ]

  -- `none` is the nil interface value.
  unfoldable pub block_from_dto : BlockDto → Option Block
  block_from_dto d =
      if d.kind == "text"
      then some (text_block d.text)
      else if d.kind == "tool_use"
      then some (tool_use_block d.id d.name (compact_raw_json d.input))
      else if d.kind == "tool_result"
      then some (tool_result_block d.tool_call_id d.name d.content d.is_error)
      else if d.kind == "image"
      then some (image_block d.source)
      else none

  -- The loop of `UnmarshalJSON`, which skips nil blocks.
  unfoldable pub blocks_from_dtos : List BlockDto → List Block
  blocks_from_dtos [] = []
  blocks_from_dtos (d ∷ ds) =
      let rest = blocks_from_dtos ds in elim (block_from_dto d) [ none ↦ rest | some b ↦ b ∷ rest ]

  module _ (unmarshal_dto : String → Option SessionMessageDto) where
    unfoldable pub unmarshal_message : String → Option SessionMessage
    unfolding block_from_dto blocks_from_dtos compact_raw_json
    unmarshal_message raw = elim (unmarshal_dto raw) [
      | none ↦ none
      | some dto ↦ some (record { role = dto.role; blocks = blocks_from_dtos dto.blocks })
    ]

unfoldable pub message_to_dto : SessionMessage → SessionMessageDto
unfolding block_to_dto
message_to_dto m = record { role = m.role; blocks = map block_to_dto m.blocks }

module _ (marshal_dto : SessionMessageDto → Option String) where
  unfoldable pub marshal_message : SessionMessage → Option String
  unfolding message_to_dto
  marshal_message m = marshal_dto (message_to_dto m)

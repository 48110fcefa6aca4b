-- ===== src/Session/Projection.antt =====
-- session.go: the projection between flat messages and session messages.
-- `encoding/json` on argument maps is a pair of parameters.
pub mod RoundTrip
use korai_sdk_go.Prelude.{
  String, ◌<>◌, Bool, true, false, Option, none, some, List, [], ◌∷◌, ◌++◌, map, ◌==◌,
  if◌then◌else◌,
}
use korai_sdk_go.Session.{
  Block, text_block, tool_use_block, tool_result_block, image_block, nil_block, SessionMessage,
  ImageUrl, ContentPart, ToolCall, Message,
}

unfoldable pub text_part : String → ContentPart
text_part s = record { type = "text"; text = s; image_url = none }

unfoldable pub image_part : String → ContentPart
image_part u = record {
  type = "image_url";
  text = "";
  image_url = some (record { url = u; detail = "" });
}

-- `strings.Join(texts, "")`
unfoldable pub join : List String → String
join [] = ""
join (t ∷ ts) = t <> join ts

image_blocks : Option ImageUrl → List Block
image_blocks none = []
image_blocks (some u) = image_block u.url ∷ []

-- The switch over one part: an image part without an image gives nothing.
part_blocks : ContentPart → List Block
part_blocks p = if p.type == "image_url" then image_blocks p.image_url else text_block p.text ∷ []

parts_blocks : List ContentPart → List Block
parts_blocks [] = []
parts_blocks (p ∷ ps) = part_blocks p ++ parts_blocks ps

-- The parts if there are any, else the content unless it is empty.
content_blocks : List ContentPart → String → List Block
content_blocks [] c = if c == "" then [] else text_block c ∷ []
content_blocks (p ∷ ps) c = parts_blocks (p ∷ ps)

-- The first block that carries a tool result, as a flat role="tool" message.
find_result : {Args : Type 0} → List Block → Option (Message Args)
find_result [] = none
find_result (tool_result_block id name content is_error ∷ bs) = some (record {
  role = "tool";
  content = content;
  name = name;
  tool_calls = [];
  tool_call_id = id;
  parts = [];
})
find_result (b ∷ bs) = find_result bs

-- What the second loop of `ToMessage` gathers.
pub record Gathered (Args : Type 0) : Type 0 where
  pub texts : List String
  pub parts : List ContentPart
  pub calls : List (ToolCall Args)
  pub has_image : Bool

-- `json.Marshal` of an argument map, `none` for an error.
module _ {Args : Type 0} (marshal_args : Args → Option String) where
  unfoldable pub marshal_tool_input : Option Args → String
  marshal_tool_input none = ""
  marshal_tool_input (some input) = elim (marshal_args input) [ none ↦ "" | some raw ↦ raw ]

  call_blocks : List (ToolCall Args) → List Block
  call_blocks [] = []
  call_blocks (c ∷ cs) = tool_use_block c.id c.name (marshal_tool_input c.input) ∷ call_blocks cs

  unfoldable pub to_session_message : Message Args → SessionMessage
  unfolding image_blocks part_blocks parts_blocks content_blocks call_blocks marshal_tool_input
  to_session_message m =
      if m.role == "tool"
      then record {
        role = m.role;
        blocks = tool_result_block m.tool_call_id m.name m.content false ∷ [];
      }
      else record {
        role = m.role;
        blocks = content_blocks m.parts m.content ++ call_blocks m.tool_calls;
      }

  unfoldable pub to_session_messages : List (Message Args) → List SessionMessage
  to_session_messages = map to_session_message

-- `json.Unmarshal` of a text into a map: `none` for an error, and for `null`, which leaves it nil.
module _ {Args : Type 0} (unmarshal_args : String → Option Args) where
  unfoldable pub decode_tool_input : String → Option Args
  decode_tool_input raw = if raw == "" then none else unmarshal_args raw

  -- The switch over one block, in front of what the later blocks give.
  add_block : Block → Gathered Args → Gathered Args
  add_block (text_block t) g = record g { texts = t ∷ g.texts; parts = text_part t ∷ g.parts }
  add_block (image_block u) g = record g { parts = image_part u ∷ g.parts; has_image = true }
  add_block (tool_use_block id name raw) g = record g {
    calls = record { id = id; name = name; input = decode_tool_input raw } ∷ g.calls;
  }
  add_block (tool_result_block id name content is_error) g = g
  add_block nil_block g = g

  gather : List Block → Gathered Args
  unfolding add_block decode_tool_input text_part image_part
  gather [] = record { texts = []; parts = []; calls = []; has_image = false }
  gather (b ∷ bs) = add_block b (gather bs)

  -- The content is the joined text with or without an image; the parts only with one.
  flatten_message : String → List Block → Message Args
  flatten_message role bs =
      let g = gather bs in
      record {
        role = role;
        content = join g.texts;
        name = "";
        tool_calls = g.calls;
        tool_call_id = "";
        parts = if g.has_image then g.parts else [];
      }

  unfoldable pub to_message : SessionMessage → Message Args
  unfolding find_result gather flatten_message join
  to_message m = elim (find_result m.blocks) [
    | some result ↦ result
    | none ↦ flatten_message m.role m.blocks
  ]

  unfoldable pub to_messages : List SessionMessage → List (Message Args)
  to_messages = map to_message

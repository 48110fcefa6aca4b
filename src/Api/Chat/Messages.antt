-- ===== src/Api/Chat/Messages.antt =====
-- llm.go: messages that are written and read back.
use korai_sdk_go.Prelude.{
  some-injective, String, ◌≡◌, ◌≢◌, refl, ap, sym, ◌∙◌, false, Option, none, some, List, [], ◌∷◌,
  map, arith, ◌==◌, eq_iff, Bool-cases, Option-cases, inl, inr, if◌then◌else◌,
}
use korai_sdk_go.Session.{ContentPart, ToolCall, Message}
use korai_sdk_go.Session.Projection.{join}
use korai_sdk_go.Api.Chat.{
  ArgsLibrary, ToolCallDto, MessageDto, part_texts, raw_content, decode_tool_args, raw_input,
  tool_call_to_dto, tool_calls_to_dto, tool_call_from_dto, chat_message_to_dto,
  chat_message_from_dto,
}

-- The content that is read back: the joined texts of the parts, if there are any.
abbrev pub flat_content : String → List ContentPart → String
flat_content content [] = content
flat_content content (p ∷ ps) = join (part_texts (p ∷ ps))

module _ {Args : Type 0} (J : ArgsLibrary Args) where
  -- The JSON of a map is an object: it is not empty, and it is no string and not null.
  pub record WritesObjects : Type 0 where
    pub given : (m : Args) (raw : String) → J.marshal_map m ≡ some raw → raw ≢ ""
    pub no_string :
        (m : Args) (raw : String) → J.marshal_map m ≡ some raw → J.unmarshal_string raw ≡ none

  -- A map that is not empty is read from its JSON; an empty one is left out, and so read as nil.
  abbrev pub args_as_read : Option Args → Option Args
  args_as_read none = none
  args_as_read (some m) =
      if J.is_empty_map m
      then none
      else elim (J.marshal_map m) [ none ↦ none | some raw ↦ J.unmarshal_map raw ]

  abbrev pub call_as_read : ToolCall Args → ToolCall Args
  call_as_read tc = record tc { input = args_as_read tc.input }

  module _ (objects : WritesObjects) where
    decode_tool_args-raw_input :
        (input : Option Args) (raw : String)
        → raw_input J input ≡ some raw
        → decode_tool_args J raw ≡ args_as_read input
    unfolding decode_tool_args raw_input
    decode_tool_args-raw_input none raw h = ground (arith, h, eq_iff raw "")
    decode_tool_args-raw_input (some m) raw h = elim (Bool-cases (J.is_empty_map m)) [
      | inl e ↦ ground (arith, e, h, eq_iff raw "")
      | inr e ↦
          let q : J.marshal_map m ≡ some raw = rw (e, raw_input) at h in
          let other : (raw == "") ≡ false = ground (arith, objects.given m raw q, eq_iff raw "") in
          rw (other, objects.no_string m raw q, e, q, decode_tool_args) refl
    ]

    tool_call_from_dto-to_dto :
        (tc : ToolCall Args) (d : ToolCallDto)
        → tool_call_to_dto J tc ≡ some d
        → tool_call_from_dto J d ≡ call_as_read tc
    unfolding tool_call_to_dto tool_call_from_dto
    tool_call_from_dto-to_dto tc d h = elim (Option-cases (raw_input J tc.input)) [
      | inl e ↦ absurd (ground (arith, rw (e, tool_call_to_dto) at h))
      | inr (raw, e) ↦
          ap (tool_call_from_dto J) (sym (some-injective (rw (e, tool_call_to_dto) at h)))
          ∙ ap (λ a. record tc { input = a }) (decode_tool_args-raw_input tc.input raw e)
    ]

    tool_calls-read_back :
        (calls : List (ToolCall Args)) (ds : List ToolCallDto)
        → tool_calls_to_dto J calls ≡ some ds
        → map (tool_call_from_dto J) ds ≡ map call_as_read calls
    unfolding tool_calls_to_dto
    tool_calls-read_back [] ds h = ap (map (tool_call_from_dto J)) (sym (some-injective h))
    tool_calls-read_back (tc ∷ calls) ds h = elim (Option-cases (tool_call_to_dto J tc)) [
      | inl e ↦ absurd (ground (arith, rw (e, tool_calls_to_dto) at h))
      | inr (d, e) ↦ elim (Option-cases (tool_calls_to_dto J calls)) [
        | inl f ↦ absurd (ground (arith, rw (e, f, tool_calls_to_dto) at h))
        | inr (ds', f) ↦
            ap (map (tool_call_from_dto J))
              (sym (some-injective (rw (e, f, tool_calls_to_dto) at h)))
            ∙ λ i. tool_call_from_dto-to_dto tc d e i ∷ tool_calls-read_back calls ds' f i
      ]
    ]

    -- If the JSON of a map is an object, a message that is written is read back as it was, except
    -- that the arguments of each tool call are what JSON reads from their JSON, nil where the map is
    -- empty, and that a message with parts has their joined texts as its content.
    pub chat_message_from_dto-chat_message_to_dto :
        (m : Message Args) (d : MessageDto)
        → chat_message_to_dto J m ≡ some d
        → chat_message_from_dto J d
          ≡ some (record m {
            content = flat_content m.content m.parts;
            tool_calls = map call_as_read m.tool_calls;
          })
    unfolding chat_message_from_dto chat_message_to_dto
    chat_message_from_dto-chat_message_to_dto m d h =
        elim (Option-cases (tool_calls_to_dto J m.tool_calls)) [
          | inl e ↦ absurd (ground (arith, rw (e, chat_message_to_dto) at h))
          | inr (ds, e) ↦
              ap (chat_message_from_dto J) (sym (some-injective (rw (e, chat_message_to_dto) at h)))
              ∙ of_parts m.parts ds (tool_calls-read_back m.tool_calls ds e)
        ]
      where
        of_parts :
            (ps : List ContentPart) (ds : List ToolCallDto)
            → map (tool_call_from_dto J) ds ≡ map call_as_read m.tool_calls
            → chat_message_from_dto J (record {
              role = m.role;
              content = raw_content m.content ps;
              name = m.name;
              tool_calls = ds;
              tool_call_id = m.tool_call_id;
            })
              ≡ some (record m {
                content = flat_content m.content ps;
                tool_calls = map call_as_read m.tool_calls;
                parts = ps;
              })
        of_parts [] ds q = ap (λ calls. some (record m { tool_calls = calls; parts = [] })) q
        of_parts (p ∷ ps) ds q =
            ap
              (λ calls. some (record m {
                tool_calls = calls;
                parts = p ∷ ps;
                content = join (part_texts (p ∷ ps));
              }))
              q

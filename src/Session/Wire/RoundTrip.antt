-- ===== src/Session/Wire/RoundTrip.antt =====
-- session.go: session messages through their wire form.
use korai_sdk_go.Prelude.{
  some-injective, String, ◌≡◌, ◌≢◌, refl, ap, sym, ◌∙◌, ◌↔◌, Option, some, List, [], ◌∷◌, ◌++◌, map,
  arith, eq_iff,
}
use korai_sdk_go.Session.{
  Block, text_block, tool_use_block, tool_result_block, image_block, nil_block, SessionMessage,
}
use korai_sdk_go.Session.Wire.{
  BlockDto, SessionMessageDto, block_to_dto, compact_raw_json, block_from_dto, blocks_from_dtos,
  unmarshal_message, message_to_dto, marshal_message,
}

abbrev pub IsUnknown : BlockDto → Type 0
IsUnknown d =
    (d.kind ≢ "text") × (d.kind ≢ "tool_use") × (d.kind ≢ "tool_result") × (d.kind ≢ "image")

module _ (compact : String → Option String) where
  -- A wire block of a kind that this reader does not know changes nothing in the blocks read,
  -- wherever it stands.
  pub blocks_from_dtos_unknown :
      (xs : List BlockDto) (d : BlockDto) (ys : List BlockDto)
      → IsUnknown d
      → blocks_from_dtos compact (xs ++ d ∷ ys) ≡ blocks_from_dtos compact (xs ++ ys)
  unfolding blocks_from_dtos block_from_dto
  blocks_from_dtos_unknown [] d ys (a, b, c, e) = ground (
    arith,
    eq_iff d.kind "text",
    eq_iff d.kind "tool_use",
    eq_iff d.kind "tool_result",
    eq_iff d.kind "image",
  )
  blocks_from_dtos_unknown (x ∷ xs) d ys h = ground (arith, blocks_from_dtos_unknown xs d ys h)

-- `written` is what `encoding/json` writes for a raw input: the input without white space, with the
-- characters <, > and & as escapes.
module _ (compact : String → Option String) (written : String → String) where
  abbrev pub dto_as_written : BlockDto → BlockDto
  dto_as_written d = record d { input = written d.input }

  abbrev pub message_as_written : SessionMessageDto → SessionMessageDto
  message_as_written d = record d { blocks = map dto_as_written d.blocks }

  -- A nil interface value is written, and so read, as an empty text; a tool input is read as it was
  -- written, compact.
  abbrev pub as_read : Block → Block
  as_read nil_block = text_block ""
  as_read (tool_use_block i n raw) = tool_use_block i n (compact_raw_json compact (written raw))
  as_read (text_block t) = text_block t
  as_read (tool_result_block i n c e) = tool_result_block i n c e
  as_read (image_block u) = image_block u

  block_from_dto-as_written :
      (b : Block) → block_from_dto compact (dto_as_written (block_to_dto b)) ≡ some (as_read b)
  unfolding block_from_dto block_to_dto
  block_from_dto-as_written (tool_use_block i n raw) = refl
  block_from_dto-as_written (text_block t) = refl
  block_from_dto-as_written (tool_result_block i n c e) = refl
  block_from_dto-as_written (image_block u) = refl
  block_from_dto-as_written nil_block = refl

  blocks_from_dtos-map :
      (bs : List Block)
      → blocks_from_dtos compact (map dto_as_written (map block_to_dto bs)) ≡ map as_read bs
  unfolding blocks_from_dtos
  blocks_from_dtos-map [] = refl
  blocks_from_dtos-map (b ∷ bs) =
      rw (block_from_dto-as_written b, blocks_from_dtos-map bs, blocks_from_dtos) refl

  -- If `encoding/json` reads back the wire struct of this message, with its raw inputs as it writes
  -- them, then the message is read back block by block, except that a nil block is read as an empty
  -- text, and a tool input as it was written, compact.
  pub unmarshal_message-marshal_message :
      (marshal_dto : SessionMessageDto → Option String)
      (unmarshal_dto : String → Option SessionMessageDto) (m : SessionMessage) (raw : String)
      (reads_back : marshal_dto (message_to_dto m) ≡ some raw
        → unmarshal_dto raw ≡ some (message_as_written (message_to_dto m)))
      → marshal_message marshal_dto m ≡ some raw
      → unmarshal_message compact unmarshal_dto raw
        ≡ some (record m { blocks = map as_read m.blocks })
  unfolding unmarshal_message marshal_message message_to_dto
  unmarshal_message-marshal_message marshal_dto unmarshal_dto m raw reads_back e =
      rw (reads_back e, unmarshal_message, blocks_from_dtos-map m.blocks) refl

  -- So a message is read back as it was written exactly if each of its blocks is.
  pub unmarshal_message-marshal_message_iff :
      (marshal_dto : SessionMessageDto → Option String)
      (unmarshal_dto : String → Option SessionMessageDto) (m : SessionMessage) (raw : String)
      (reads_back : marshal_dto (message_to_dto m) ≡ some raw
        → unmarshal_dto raw ≡ some (message_as_written (message_to_dto m)))
      → marshal_message marshal_dto m ≡ some raw
      → (unmarshal_message compact unmarshal_dto raw ≡ some m) ↔ (map as_read m.blocks ≡ m.blocks)
  unmarshal_message-marshal_message_iff marshal_dto unmarshal_dto m raw reads_back e =
      let q = unmarshal_message-marshal_message marshal_dto unmarshal_dto m raw reads_back e in
      (
        λ h. ap (λ x. x.blocks) (some-injective (sym q ∙ h)),
        λ h. q ∙ ap (λ bs. some (record m { blocks = bs })) h,
      )

-- ===== src/Session/Projection/RoundTrip.antt =====
-- What a flat message keeps on the way into a session message and back.
use korai_sdk_go.Prelude.{
  String, ◌≡◌, refl, inl, inr, Bool, true, false, Option, none, some, List, [], ◌∷◌, ◌++◌, ◌==◌,
  eq_iff, All, Bool-cases, arith, map, ◌∙◌, ◌||◌, if◌then◌else◌,
}
use mathlib.Core.List
use text.Mathlib.TextLemmas.{append-nil}
use korai_sdk_go.Session.{Block, ImageUrl, ContentPart, ToolCall, Message}
use korai_sdk_go.Session.Projection.{
  text_part, image_part, join, image_blocks, part_blocks, parts_blocks, content_blocks, find_result,
  call_blocks, marshal_tool_input, to_session_message, decode_tool_input, gather, flatten_message,
  to_message,
}

is_image : ContentPart → Bool
is_image p = p.type == "image_url"

-- The text that a part shows to a reader of `Content`, and the part without its fidelity hint.
seen_texts : List ContentPart → List String
unfolding is_image
seen_texts [] = []
seen_texts (p ∷ ps) = let rest = seen_texts ps in if is_image p then rest else p.text ∷ rest

bare_image : Option ImageUrl → List ContentPart
bare_image none = []
bare_image (some u) = image_part u.url ∷ []

pub bare_parts : List ContentPart → List ContentPart
unfolding is_image bare_image image_part text_part
bare_parts [] = []
bare_parts (p ∷ ps) =
    (if is_image p then bare_image p.image_url else text_part p.text ∷ []) ++ bare_parts ps

shows_image : List ContentPart → Bool
unfolding is_image
shows_image [] = false
shows_image (p ∷ ps) =
    let rest = shows_image ps in
    if is_image p then (elim p.image_url [ none ↦ rest | some u ↦ true ]) else rest

seen_content : List ContentPart → String → String
unfolding seen_texts join
seen_content [] c = c
seen_content (p ∷ ps) c = join (seen_texts (p ∷ ps))

-- A flat message as it comes back.
unfoldable pub flat_view : {Args : Type 0} → Message Args → Message Args
unfolding seen_content shows_image bare_parts
flat_view m = if m.role == "tool" then record m { tool_calls = []; parts = [] } else record m {
  content = seen_content m.parts m.content;
  name = "";
  tool_call_id = "";
  parts = if shows_image m.parts then bare_parts m.parts else [];
}

-- Each part of what the second loop gathers.
module _ {Args : Type 0} (marshal_args : Args → Option String)
    (unmarshal_args : String → Option Args) where
  abbrev back : ToolCall Args → ToolCall Args
  back c = record c {
    input = decode_tool_input unmarshal_args (marshal_tool_input marshal_args c.input);
  }

  gather-call_blocks :
      (cs : List (ToolCall Args))
      → gather unmarshal_args (call_blocks marshal_args cs)
        ≡ record { texts = []; parts = []; calls = map back cs; has_image = false }
  unfolding gather call_blocks
  gather-call_blocks [] = refl
  gather-call_blocks (c ∷ cs) = rw (gather-call_blocks cs)

  gather-parts_blocks :
      (ps : List ContentPart) (bs : List Block)
      → let g = gather unmarshal_args bs in
        gather unmarshal_args (parts_blocks ps ++ bs) ≡ record {
          texts = seen_texts ps ++ g.texts;
          parts = bare_parts ps ++ g.parts;
          calls = g.calls;
          has_image = shows_image ps || g.has_image;
        }
  unfolding gather parts_blocks part_blocks image_blocks seen_texts bare_parts shows_image
  gather-parts_blocks [] bs = refl
  gather-parts_blocks (p ∷ ps) bs = ground (arith, gather-parts_blocks ps bs)

  find_result-call_blocks :
      (cs : List (ToolCall Args)) → find_result {Args = Args} (call_blocks marshal_args cs) ≡ none
  unfolding find_result call_blocks
  find_result-call_blocks [] = refl
  find_result-call_blocks (c ∷ cs) = find_result-call_blocks cs

  find_result-parts_blocks :
      (ps : List ContentPart) (bs : List Block)
      → find_result {Args = Args} (parts_blocks ps ++ bs) ≡ find_result bs
  unfolding find_result parts_blocks part_blocks image_blocks
  find_result-parts_blocks [] bs = refl
  find_result-parts_blocks (p ∷ ps) bs = ground (arith, find_result-parts_blocks ps bs)

  map-back : (cs : List (ToolCall Args)) → All (λ c. (back c).input ≡ c.input) cs → map back cs ≡ cs
  map-back [] h = refl
  map-back (c ∷ cs) (p, h) = cc (p, map-back cs h)

  find_result-content_blocks :
      (ps : List ContentPart) (c : String) (cs : List (ToolCall Args))
      → find_result {Args = Args} (content_blocks ps c ++ call_blocks marshal_args cs) ≡ none
  unfolding content_blocks find_result
  find_result-content_blocks [] c cs = ground (arith, find_result-call_blocks cs)
  find_result-content_blocks (p ∷ ps) c cs =
      find_result-parts_blocks (p ∷ ps) _ ∙ find_result-call_blocks cs

  flatten-parts_blocks :
      (role : String) (ps : List ContentPart) (cs : List (ToolCall Args))
      → flatten_message unmarshal_args role (parts_blocks ps ++ call_blocks marshal_args cs)
        ≡ record {
          role = role;
          content = join (seen_texts ps);
          name = "";
          tool_calls = map back cs;
          tool_call_id = "";
          parts = if shows_image ps then bare_parts ps else [];
        }
  unfolding flatten_message
  flatten-parts_blocks role ps cs =
      rw (gather-parts_blocks ps (call_blocks marshal_args cs), gather-call_blocks cs)
        (simp (List.append-nil) (ground arith))

  flatten-content_blocks :
      (role : String) (ps : List ContentPart) (c : String) (cs : List (ToolCall Args))
      → flatten_message unmarshal_args role (content_blocks ps c ++ call_blocks marshal_args cs)
        ≡ record {
          role = role;
          content = seen_content ps c;
          name = "";
          tool_calls = map back cs;
          tool_call_id = "";
          parts = if shows_image ps then bare_parts ps else [];
        }
  unfolding flatten_message content_blocks gather seen_content join shows_image
  flatten-content_blocks role [] c cs = elim (Bool-cases (c == "")) [
    | inl e ↦ rw e (rw gather-call_blocks (cc ((eq_iff c "").0 e)))
    | inr e ↦ rw e (rw gather-call_blocks (cc (append-nil c)))
  ]
  flatten-content_blocks role (p ∷ ps) c cs = flatten-parts_blocks role (p ∷ ps) cs

  -- A flat message comes back as its `flat_view`, provided each call's arguments survive
  -- `encoding/json`.
  pub to_message-to_session_message :
      (m : Message Args)
      → All (λ c. (back c).input ≡ c.input) m.tool_calls
      → to_message unmarshal_args (to_session_message marshal_args m) ≡ flat_view m
  unfolding to_message to_session_message flat_view
  to_message-to_session_message m h = ground (
    arith,
    eq_iff m.role "tool",
    find_result-content_blocks m.parts m.content m.tool_calls,
    flatten-content_blocks m.role m.parts m.content m.tool_calls,
    map-back m.tool_calls h,
  )

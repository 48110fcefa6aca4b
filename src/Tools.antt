-- ===== src/Tools.antt =====
-- tools.go and mcp.go: the registry of tools and the tools of an MCP server.
-- JSON schemas, results and the world that tools act on are abstract types; an error is its text.
pub mod Registered
use korai_sdk_go.Prelude.{
  String, Bool, true, false, Option, none, some, List, [], ◌∷◌, map, ◌<>◌, ◌==◌, if◌then◌else◌,
}
use korai_sdk_go.Prelude.Dict.{Dict, lookup, insert}
use korai_sdk_go.Prelude.Sorting.{sort_by, str_less}

-- A pair of a result and an error of which one is nil.
pub data Outcome (A : Type 0) : Type 0 where
  returned : A → Outcome A
  failed : String → Outcome A

pub record Tool (Schema Result World : Type 0) : Type 0 where
  pub name : String
  pub description : String
  pub input_schema : Schema
  pub execute : String → World → Outcome Result × World

pub record AnthropicTool (Schema : Type 0) : Type 0 where
  pub name : String
  pub description : String
  pub input_schema : Schema

pub record OpenAiToolFunction (Schema : Type 0) : Type 0 where
  pub name : String
  pub description : String
  pub parameters : Schema

pub record OpenAiTool (Schema : Type 0) : Type 0 where
  pub type : String
  pub function : OpenAiToolFunction Schema

abbrev pub ToolRegistry : Type 0 → Type 0 → Type 0 → Type 0
ToolRegistry Schema Result World = Dict (Tool Schema Result World)

module _ {Schema Result World : Type 0} where
  abbrev pub new_tool_registry : ToolRegistry Schema Result World
  new_tool_registry = []

  unfoldable pub register :
      Tool Schema Result World → ToolRegistry Schema Result World → ToolRegistry Schema Result World
  unfolding insert
  register t r = insert t.name t r

  unfoldable pub get : String → ToolRegistry Schema Result World → Option (Tool Schema Result World)
  unfolding lookup
  get name r = lookup name r

  abbrev pub by_name : Tool Schema Result World → Tool Schema Result World → Bool
  by_name a b = str_less a.name b.name

  -- The tools of the map, before they are sorted.
  abbrev pub registered : ToolRegistry Schema Result World → List (Tool Schema Result World)
  registered [] = []
  registered ((name, t) ∷ r) = t ∷ registered r

  unfoldable pub list : ToolRegistry Schema Result World → List (Tool Schema Result World)
  unfolding sort_by str_less
  list r = sort_by by_name (registered r)

  unfoldable pub names : ToolRegistry Schema Result World → List String
  unfolding list
  names r = map (λ (t : Tool Schema Result World). t.name) (list r)

  -- The error of an unknown name wraps `ErrNotFound`; `not_registered` gives its text.
  unfoldable pub invoke :
      (String → String)
      → ToolRegistry Schema Result World
      → String
      → String
      → World
      → Outcome Result × World
  unfolding get
  invoke not_registered r name input w = elim (get name r) [
    | none ↦ (failed (not_registered name), w)
    | some t ↦ t.execute input w
  ]

  unfoldable pub to_anthropic_schemas :
      ToolRegistry Schema Result World → List (AnthropicTool Schema)
  unfolding list
  to_anthropic_schemas r =
      map
        (λ (t : Tool Schema Result World). record {
          name = t.name;
          description = t.description;
          input_schema = t.input_schema;
        })
        (list r)

  unfoldable pub to_openai_schemas : ToolRegistry Schema Result World → List (OpenAiTool Schema)
  unfolding list
  to_openai_schemas r =
      map
        (λ (t : Tool Schema Result World). record {
          type = "function";
          function = record {
            name = t.name;
            description = t.description;
            parameters = t.input_schema;
          };
        })
        (list r)

pub record McpToolDef (Schema : Type 0) : Type 0 where
  pub name : String
  pub description : String
  pub input_schema : Option Schema

-- A connected session: the tools it lists, `none` for an error, and a call with decoded arguments.
pub record McpSession (Schema Args World : Type 0) : Type 0 where
  pub list_tools : World → Option (List (McpToolDef Schema)) × World
  pub call_tool : String → Args → World → Outcome String × World

-- The schema `{"type": "object"}`, JSON decoding of arguments with the text of its error, the empty
-- arguments, the wrapping of a text as a result, and the texts of errors.
pub record McpLibrary (Schema Args Result : Type 0) : Type 0 where
  pub object_schema : Schema
  pub unmarshal_args : String → Outcome Args
  pub no_args : Args
  pub of_text : String → Result
  pub decode_failed : String → String → String
  pub call_failed : String → String → String

abbrev schema_or : {Schema : Type 0} → Schema → Option Schema → Schema
schema_or default none = default
schema_or default (some schema) = schema

module _ {Schema Args Result World : Type 0} (L : McpLibrary Schema Args Result)
    (M : McpSession Schema Args World) where
  answered : String → Outcome String × World → Outcome Result × World
  answered reg_name (returned text, w) = (returned (L.of_text text), w)
  answered reg_name (failed err, w) = (failed (L.call_failed reg_name err), w)

  called : McpToolDef Schema → String → Outcome Args → World → Outcome Result × World
  called tool_def reg_name (failed err) w = (failed (L.decode_failed reg_name err), w)
  called tool_def reg_name (returned args) w = answered reg_name (M.call_tool tool_def.name args w)

  -- `mcpTool`, with its methods.
  unfoldable pub mcp_tool : McpToolDef Schema → String → Tool Schema Result World
  unfolding answered called
  mcp_tool tool_def reg_name = record {
    name = reg_name;
    description = tool_def.description;
    input_schema = schema_or L.object_schema tool_def.input_schema;
    execute = λ input w.
        called tool_def reg_name
          (if input == "" then returned L.no_args else L.unmarshal_args input) w;
  }

  register_defs :
      String
      → List (McpToolDef Schema)
      → ToolRegistry Schema Result World
      → List String × ToolRegistry Schema Result World
  register_defs ns [] r = ([], r)
  register_defs ns (d ∷ ds) r =
      let (rest, r') = register_defs ns ds (register (mcp_tool d (ns <> d.name)) r) in
      ((ns <> d.name) ∷ rest, r')

  defs_registered :
      String
      → ToolRegistry Schema Result World
      → Option (List (McpToolDef Schema)) × World
      → Option (List String) × ToolRegistry Schema Result World × World
  defs_registered ns r (none, w) = (none, r, w)
  defs_registered ns r (some ds, w) = let (added, r') = register_defs ns ds r in (some added, r', w)

  -- `none` is an error of `ListTools`.
  unfoldable pub register_mcp_server :
      String
      → ToolRegistry Schema Result World
      → World
      → Option (List String) × ToolRegistry Schema Result World × World
  unfolding register_defs defs_registered
  register_mcp_server ns r w = defs_registered ns r (M.list_tools w)

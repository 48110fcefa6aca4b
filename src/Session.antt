-- ===== src/Session.antt =====
-- session.go: the rich, block-based session type, and the flat wire message of llm.go.
-- A tool call's arguments, `map[string]any`, are values of an abstract type `Args`; a nil map is
-- `none`. The raw JSON of a tool input is a text, and a nil or empty `json.RawMessage` is "".
pub mod FileStore
pub mod SqliteStore
pub mod Encrypting
pub mod Wire
pub mod Projection
pub mod Signing
pub mod Record
pub mod Merge
use korai_sdk_go.Prelude.{ℕ, String, Bool, Option, List}

-- The four implementations of the sealed interface, and the nil interface value.
pub data Block : Type 0 where
  text_block : String → Block
  tool_use_block : String → String → String → Block
  tool_result_block : String → String → String → Bool → Block
  image_block : String → Block
  nil_block : Block

pub record SessionMessage : Type 0 where
  pub role : String
  pub blocks : List Block

-- A time is a number of nanoseconds; 0 is the zero time.
pub record Session : Type 0 where
  pub id : String
  pub created : ℕ
  pub updated : ℕ
  pub cwd : String
  pub model : String
  pub tool : String
  pub messages : List SessionMessage

pub record ImageUrl : Type 0 where
  pub url : String
  pub detail : String

pub record ContentPart : Type 0 where
  pub type : String
  pub text : String
  pub image_url : Option ImageUrl

pub record ToolCall (Args : Type 0) : Type 0 where
  pub id : String
  pub name : String
  pub input : Option Args

pub record Message (Args : Type 0) : Type 0 where
  pub role : String
  pub content : String
  pub name : String
  pub tool_calls : List (ToolCall Args)
  pub tool_call_id : String
  pub parts : List ContentPart

-- ===== src/Session/Record.antt =====
-- session/record.go: the wire form of a whole session, which leaves `Updated` out.
use korai_sdk_go.Prelude.{ℕ, String, Option, none, some, List}
use korai_sdk_go.Session.{Session, SessionMessage}

pub record SessionEnvelope : Type 0 where
  pub id : String
  pub created : ℕ
  pub cwd : String
  pub model : String
  pub tool : String
  pub messages : List SessionMessage

abbrev pub envelope : Session → SessionEnvelope
envelope s = record {
  id = s.id;
  created = s.created;
  cwd = s.cwd;
  model = s.model;
  tool = s.tool;
  messages = s.messages;
}

abbrev pub opened : SessionEnvelope → Session
opened e = record {
  id = e.id;
  created = e.created;
  updated = 0;
  cwd = e.cwd;
  model = e.model;
  tool = e.tool;
  messages = e.messages;
}

-- `json.Marshal` and `json.Unmarshal` of an envelope are parameters, `none` for an error.
module _ {Bytes : Type 0} where
  unfoldable pub marshal_session : (SessionEnvelope → Option Bytes) → Session → Option Bytes
  marshal_session marshal_envelope s = marshal_envelope (envelope s)

  unfoldable pub unmarshal_session : (Bytes → Option SessionEnvelope) → Bytes → Option Session
  unmarshal_session unmarshal_envelope b = elim (unmarshal_envelope b) [
    | none ↦ none
    | some e ↦ some (opened e)
  ]

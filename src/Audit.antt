-- ===== src/Audit.antt =====
-- audit.go: the audit log, whose entries form a chain of hashes. The store behind it is a record
-- of operations over a state; `none` and `false` stand for an error. A payload is a value of an
-- abstract type. A time is a number, and 0 is the zero time.
pub mod Memory
pub mod Chain
pub mod Logged
pub mod Tampering
use korai_sdk_go.Prelude.{
  ℕ, ◌+◌, String, Bool, true, false, Option, none, some, List, [], ◌∷◌, not, length, ltb, nat_eq,
  ◌==◌, if◌then◌else◌,
}
use korai_sdk_go.Prelude.Sorting.{sort_by}

pub record AuditEntry (Payload : Type 0) : Type 0 where
  pub id : String
  pub sequence_no : ℕ
  pub organization_id : String
  pub event_type : String
  pub user_id : String
  pub resource_type : String
  pub resource_id : String
  pub payload : Payload
  pub ip_address : String
  pub severity : String
  pub prev_hash : String
  pub row_hash : String
  pub signature : String
  pub created_at : ℕ

pub record AuditFilter : Type 0 where
  pub organization_id : String
  pub event_type : String
  pub resource_id : String
  pub user_id : String
  pub severity : String
  pub from : ℕ
  pub to : ℕ
  pub limit : ℕ

-- The filter with only an organization.
abbrev pub of_organization : String → AuditFilter
of_organization org = record {
  organization_id = org;
  event_type = "";
  resource_id = "";
  user_id = "";
  severity = "";
  from = 0;
  to = 0;
  limit = 0;
}

pub record AuditStore (Payload : Type 0) : Type 1 where
  pub State : Type 0
  pub append : State → AuditEntry Payload → Bool × State
  pub list : State → AuditFilter → Option (List (AuditEntry Payload))
  pub last : State → String → Option (Option (AuditEntry Payload))
  pub count : State → String → Option ℕ

-- The anonymous struct that is hashed.
pub record HashedRow (Payload : Type 0) : Type 0 where
  pub sequence_no : ℕ
  pub organization_id : String
  pub event_type : String
  pub user_id : String
  pub resource_type : String
  pub resource_id : String
  pub payload : Payload
  pub severity : String
  pub prev_hash : String
  pub created_at : String

-- `json.Marshal` (`none` for an error), SHA-256 in hex, the time formats and the clock.
pub record AuditLibrary (Payload : Type 0) : Type 0 where
  pub marshal_row : HashedRow Payload → Option (List ℕ)
  pub sha256_hex : List ℕ → String
  pub format_time : ℕ → String
  pub new_audit_id : ℕ → String → String
  pub now : ℕ

-- `raw, _ := json.Marshal(...)`: nil after an error.
abbrev pub raw_or_nil : Option (List ℕ) → List ℕ
raw_or_nil none = []
raw_or_nil (some raw) = raw

module _ {Payload : Type 0} (L : AuditLibrary Payload) where
  abbrev pub hashed_row : AuditEntry Payload → HashedRow Payload
  hashed_row e = record {
    sequence_no = e.sequence_no;
    organization_id = e.organization_id;
    event_type = e.event_type;
    user_id = e.user_id;
    resource_type = e.resource_type;
    resource_id = e.resource_id;
    payload = e.payload;
    severity = e.severity;
    prev_hash = e.prev_hash;
    created_at = L.format_time e.created_at;
  }

  unfoldable pub compute_row_hash : AuditEntry Payload → String
  compute_row_hash e = L.sha256_hex (raw_or_nil (L.marshal_row (hashed_row e)))

  -- The defaults of `Log`.
  unfoldable pub enriched : AuditEntry Payload → AuditEntry Payload
  enriched e =
      let created_at = (if nat_eq e.created_at 0 then L.now else e.created_at) in
      record e {
        severity = if e.severity == "" then "info" else e.severity;
        created_at = created_at;
        id = if e.id == "" then L.new_audit_id created_at e.event_type else e.id;
      }

  -- The link to the last entry: without one, the previous hash stays what the caller gave.
  abbrev pub linked : Option (AuditEntry Payload) → AuditEntry Payload → AuditEntry Payload
  linked none e = record e { sequence_no = 1 }
  linked (some last) e = record e { prev_hash = last.row_hash; sequence_no = last.sequence_no + 1 }

  abbrev pub hashed : AuditEntry Payload → AuditEntry Payload
  hashed e = record e { row_hash = compute_row_hash e }

  -- The loop of `VerifyChain`: the hash that the next entry must name, and the index.
  unfoldable pub verify_from : String → ℕ → List (AuditEntry Payload) → Bool × ℕ
  verify_from prev i [] = (true, i)
  verify_from prev i (e ∷ es) =
      let rest = verify_from e.row_hash (i + 1) es in
      if not (e.prev_hash == prev)
      then (false, i + 1)
      else if not (compute_row_hash e == e.row_hash)
      then (false, i + 1)
      else rest

  abbrev pub by_sequence : AuditEntry Payload → AuditEntry Payload → Bool
  by_sequence a b = ltb a.sequence_no b.sequence_no

  module _ (S : AuditStore Payload) where
    log_linked :
        Option (Option (AuditEntry Payload))
        → AuditEntry Payload
        → S.State
        → Option (AuditEntry Payload) × S.State
    log_linked none e st = (none, st)
    log_linked (some last) e st =
        let committed = hashed (linked last e) in
        let (done, st') = S.append st committed in
        if done then (some committed, st') else (none, st')

    unfoldable pub log : AuditEntry Payload → S.State → Option (AuditEntry Payload) × S.State
    unfolding log_linked enriched
    log e st =
        if e.event_type == ""
        then (none, st)
        else log_linked (S.last st e.organization_id) (enriched e) st

    -- `none` for an error of the store.
    unfoldable pub verify_chain : S.State → String → Option (Bool × ℕ)
    unfolding verify_from
    verify_chain st org = elim (S.list st (of_organization org)) [
      | none ↦ none
      | some entries ↦ some (verify_from "" 0 (sort_by by_sequence entries))
    ]

-- ===== src/Tests/OfAudit.antt =====
-- Examples of audit chains.
use korai_sdk_go.Prelude.{
  ℕ, zero, suc, String, ◌≡◌, refl, ◌↔◌, true, Option, none, some, List, [], ◌∷◌, map, length,
}
use korai_sdk_go.Prelude.Dict.{lookup}
use korai_sdk_go.Audit.{
  AuditEntry, AuditLibrary, hashed_row, compute_row_hash, verify_from, verify_chain,
}
use korai_sdk_go.Audit.Memory.{memory_store, entries_or_nil}
use korai_sdk_go.Audit.Logged.{log_all, verify_chain-log_all}
use korai_sdk_go.Audit.Tampering.{chain_tamper_evident, verify_from-unmarshalled}

-- Rows with a payload that is not 0 can be marshalled.
abbrev marshal_payload : ℕ → Option (List ℕ)
marshal_payload zero = none
marshal_payload (suc n) = some (n ∷ [])

abbrev hex : List ℕ → String
hex [] = "e3"
hex (n ∷ ns) = "h"

abbrev audit_library : AuditLibrary ℕ
audit_library = record {
  marshal_row = λ r. marshal_payload r.payload;
  sha256_hex = hex;
  format_time = λ t. "2026";
  new_audit_id = λ t event_type. event_type;
  now = 3;
}

abbrev event : ℕ → String → AuditEntry ℕ
event payload ip = record {
  id = "";
  sequence_no = 0;
  organization_id = "o";
  event_type = "login";
  user_id = "u";
  resource_type = "";
  resource_id = "";
  payload = payload;
  ip_address = ip;
  severity = "";
  prev_hash = "";
  row_hash = "h";
  signature = "";
  created_at = 0;
}

verify_chain-log_all_example :
    verify_chain audit_library memory_store
      (log_all audit_library (event 1 "a" ∷ event 2 "b" ∷ []) [])
      "o"
    ≡ some (
      true,
      length
          (entries_or_nil (lookup "o" (log_all audit_library (event 1 "a" ∷ event 2 "b" ∷ []) []))),
    )
verify_chain-log_all_example =
    verify_chain-log_all audit_library (event 1 "a" ∷ event 2 "b" ∷ []) "o" (refl, (refl, tt))

-- The same row from two addresses.
chain_tamper_evident_example :
    map (hashed_row audit_library) (event 1 "a" ∷ [])
    ≡ map (hashed_row audit_library) (event 1 "b" ∷ [])
unfolding compute_row_hash
chain_tamper_evident_example =
    chain_tamper_evident audit_library (event 1 "a" ∷ []) (event 1 "b" ∷ []) (λ h. refl, tt)
      (refl, refl, tt) (refl, refl, tt) refl refl

-- An entry that was never logged, between two that were, with the hash of no bytes.
abbrev forged : AuditEntry ℕ
forged = record (event 0 "b") { user_id = "mallory"; prev_hash = "h"; row_hash = "e3" }

abbrev last_entry : AuditEntry ℕ
last_entry = record (event 1 "a") { prev_hash = "e3" }

verify_from-unmarshalled_example :
    ((verify_from audit_library "" 0 (event 1 "a" ∷ forged ∷ last_entry ∷ [])).0 ≡ true)
    ↔ (forged.row_hash ≡ audit_library.sha256_hex [])
unfolding compute_row_hash
verify_from-unmarshalled_example =
    verify_from-unmarshalled audit_library "" 0 (event 1 "a" ∷ []) (last_entry ∷ []) forged
      (refl, refl, tt) refl refl (refl, refl, tt)

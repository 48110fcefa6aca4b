-- ===== src/Session/Signing.antt =====
-- session/codec_encrypt.go: the canonical payload that a mutating hub operation signs.
-- A text is the list of its code points.
pub mod Injective
use Prim.Native.Char.{code}
use korai_sdk_go.Prelude.{ℕ, String, List, [], ◌∷◌, ◌++◌, map, ◌==◌, if◌then◌else◌}

abbrev pub codes : String → List ℕ
codes String.[] = []
codes (String.◌∷◌ c s) = code c ∷ codes s

-- `strings.Join(lines, "\n")`
unfoldable pub join_lines : List (List ℕ) → List ℕ
join_lines [] = []
join_lines (l ∷ []) = l
join_lines (l ∷ m ∷ ms) = l ++ (0x0a ∷ join_lines (m ∷ ms))

abbrev pub sync_sig_domain : String
sync_sig_domain = "korai-sync-v1"

unfoldable pub sync_canonical_payload : String → String → String → String → List ℕ
unfolding join_lines
sync_canonical_payload op sync_id item_id block_hash =
    if op == "PUT"
    then join_lines (map codes (sync_sig_domain ∷ "PUT" ∷ sync_id ∷ item_id ∷ block_hash ∷ []))
    else if op == "TOMBSTONE"
    then join_lines (map codes (sync_sig_domain ∷ "TOMBSTONE" ∷ sync_id ∷ item_id ∷ []))
    else if op == "DELETE"
    then join_lines (map codes (sync_sig_domain ∷ "DELETE" ∷ sync_id ∷ []))
    else []

-- ===== src/Session/Merge.antt =====
-- session/record.go: the union of two histories of one conversation.
-- `json.Marshal` of a message is the parameter `marshal`, with `none` for an error.
pub mod Fresh
pub mod Laws
use korai_sdk_go.Prelude.{
  String, ◌<>◌, Bool, false, Option, none, some, List, [], ◌∷◌, ◌++◌, ◌||◌, ◌==◌, if◌then◌else◌,
}
use korai_sdk_go.Session.{SessionMessage}

-- `_, dup := seen[key]`, over the keys put into the map so far.
unfoldable pub contains : List String → String → Bool
contains [] k = false
contains (j ∷ js) k = j == k || contains js k

-- The map `seen`, as the list of its keys, and the slice `out`.
pub record Merging : Type 0 where
  pub seen : List String
  pub out : List SessionMessage

module _ (marshal : SessionMessage → Option String) where
  unfoldable pub message_key : SessionMessage → String
  message_key m = elim (marshal m) [ none ↦ "role:" <> m.role | some data' ↦ data' ]

  add_one : SessionMessage → Merging → Merging
  add_one m s =
      let key = message_key m in
      if contains s.seen key then s else record { seen = key ∷ s.seen; out = s.out ++ m ∷ [] }

  add : List SessionMessage → Merging → Merging
  add [] s = s
  add (m ∷ ms) s = add ms (add_one m s)

  unfoldable pub merge_messages : List SessionMessage → List SessionMessage → List SessionMessage
  unfolding contains message_key add_one add
  merge_messages local remote = (add remote (add local (record { seen = []; out = [] }))).out

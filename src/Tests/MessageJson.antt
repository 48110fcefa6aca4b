-- ===== src/Tests/MessageJson.antt =====
-- JSON of messages for the examples: a message is a 2 and one number for each block. As in the
-- program, a nil block is written as an empty text, and so read.
use mathlib.Core.Path.{subst}
use korai_sdk_go.Prelude.{
  some-injective, ℕ, String, ◌≡◌, refl, false, Option, none, some, List, [], ◌∷◌, nat_eq, ◌==◌,
  Bool-cases, inl, inr, if◌then◌else◌,
}
use korai_sdk_go.Session.{
  Block, text_block, tool_use_block, tool_result_block, image_block, nil_block, SessionMessage,
}
use korai_sdk_go.Session.FileStore.{Bytes, newline}
use korai_sdk_go.Session.FileStore.Lines.{NoNewline, IsLine}

abbrev pub hi : SessionMessage
hi = record { role = "hi"; blocks = text_block "hello" ∷ tool_use_block "c" "add" "{}" ∷ [] }

abbrev marshal_block : Block → Option ℕ
marshal_block (text_block t) = if t == "hello" then some 4 else if t == "" then some 5 else none
marshal_block (tool_use_block i n raw) = if raw == "{}" then some 6 else none
marshal_block (tool_result_block i n c e) = none
marshal_block (image_block u) = none
marshal_block nil_block = some 5

abbrev consed : Option ℕ → Option Bytes → Option Bytes
consed none rest = none
consed (some c) none = none
consed (some c) (some cs) = some (c ∷ cs)

abbrev marshal_blocks : List Block → Option Bytes
marshal_blocks [] = some []
marshal_blocks (b ∷ bs) = consed (marshal_block b) (marshal_blocks bs)

unfoldable pub marshal_parts : String → List Block → Option Bytes
marshal_parts role blocks = if role == "hi" then consed (some 2) (marshal_blocks blocks) else none

abbrev read_block : ℕ → Block
read_block c =
    if nat_eq c 4
    then text_block "hello"
    else if nat_eq c 5
    then text_block ""
    else tool_use_block "c" "add" "{}"

-- The blocks in front of the first message, and the messages.
abbrev parsed : Bytes → List Block × List SessionMessage
parsed [] = ([], [])
parsed (c ∷ cs) =
    let (bs, ms) = parsed cs in
    if nat_eq c 2 then ([], record { role = "hi"; blocks = bs } ∷ ms) else (read_block c ∷ bs, ms)

abbrev pub read_messages : Bytes → List SessionMessage
read_messages b = (parsed b).1

abbrev pub first_message : List SessionMessage → Option SessionMessage
first_message [] = none
first_message (m ∷ ms) = some m

-- The messages one after another.
unfoldable pub marshal_messages : List SessionMessage → Option Bytes
marshal_messages [] = some []
marshal_messages (m ∷ ms) =
    let rest = marshal_messages ms in
    elim (marshal_parts m.role m.blocks) [
      | none ↦ none
      | some b ↦ elim rest [ none ↦ none | some bs ↦ some (both b bs) ]
    ]
  where
    both : Bytes → Bytes → Bytes
    both [] bs = bs
    both (c ∷ cs) bs = c ∷ both cs bs

-- What is marshalled to some bytes is read back if these bytes are.
pub reads_back :
    {A : Type 0} (unmarshal : Bytes → Option A) (x : A) (c b : Bytes)
    → unmarshal c ≡ some x
    → some c ≡ some b
    → unmarshal b ≡ some x
reads_back unmarshal x c b h q = subst (λ b. unmarshal b ≡ some x) (some-injective q) h

abbrev Clean : Option Bytes → Type 0
Clean none = Unit
Clean (some b) = NoNewline b

abbrev IsOther : Option ℕ → Type 0
IsOther none = Unit
IsOther (some c) = nat_eq c newline ≡ false

marshal_block-IsOther : (b : Block) → IsOther (marshal_block b)
marshal_block-IsOther (text_block t) = elim (Bool-cases (t == "hello")) [
  | inl e ↦ rw e refl
  | inr e ↦ elim (Bool-cases (t == "")) [ inl f ↦ rw (e, f) refl | inr f ↦ rw (e, f) tt ]
]
marshal_block-IsOther (tool_use_block i n raw) = elim (Bool-cases (raw == "{}")) [
  | inl e ↦ rw e refl
  | inr e ↦ rw e tt
]
marshal_block-IsOther (tool_result_block i n c e) = tt
marshal_block-IsOther (image_block u) = tt
marshal_block-IsOther nil_block = refl

consed-Clean : (c : Option ℕ) (rest : Option Bytes) → IsOther c → Clean rest → Clean (consed c rest)
consed-Clean none rest p q = tt
consed-Clean (some c) none p q = tt
consed-Clean (some c) (some cs) p q = (p, q)

marshal_blocks-Clean : (bs : List Block) → Clean (marshal_blocks bs)
marshal_blocks-Clean [] = tt
marshal_blocks-Clean (b ∷ bs) =
    consed-Clean (marshal_block b) (marshal_blocks bs) (marshal_block-IsOther b)
      (marshal_blocks-Clean bs)

abbrev pub kind_of : Bytes → Option String
kind_of [] = none
kind_of (c ∷ cs) = if nat_eq c 2 then some "" else none

-- A line of JSON that is marked as a message.
abbrev IsMessage : Option Bytes → Type 0
IsMessage none = Unit
IsMessage (some b) = IsLine b × (kind_of b ≡ some "")

consed-IsMessage : (rest : Option Bytes) → Clean rest → IsMessage (consed (some 2) rest)
consed-IsMessage none h = tt
consed-IsMessage (some b) h = ((refl, h), refl)

pub marshal_parts-IsLine :
    (role : String) (blocks : List Block) (b : Bytes)
    → marshal_parts role blocks ≡ some b
    → IsLine b × (kind_of b ≡ some "")
unfolding marshal_parts
marshal_parts-IsLine role blocks b q = subst IsMessage q (elim (Bool-cases (role == "hi")) [
  | inl e ↦
      rw (e, marshal_parts) (consed-IsMessage (marshal_blocks blocks) (marshal_blocks-Clean blocks))
  | inr e ↦ rw (e, marshal_parts) tt
])

-- ===== src/Session/FileStore/Saved.antt =====
-- session/store.go: the lines that `Save` writes for messages, and what `Load` makes of them.
use korai_sdk_go.Prelude.{
  ℕ, suc, ◌+◌, ◌≡◌, refl, ap, true, some, List, [], ◌∷◌, ◌++◌, length, All, arith, Option-cases,
  inl, inr,
}
use korai_sdk_go.Session.{SessionMessage}
use korai_sdk_go.Session.FileStore.{
  Bytes, Header, Codec, FileLibrary, encode_message, write_messages, codec_for, decode_message,
  decode_lines,
}
use korai_sdk_go.Session.FileStore.Lines.{NoNewline, IsLine, NoNewline-IsLine}

-- The JSON of the message is read back as written. This fails for a message with a nil block, or
-- with a tool input that JSON writes in another way.
abbrev pub ReadsBack : FileLibrary → SessionMessage → Type 0
ReadsBack L m = (b : Bytes) → L.marshal_message m ≡ some b → L.unmarshal_message b ≡ some m

module _ (L : FileLibrary) (codec : Codec) where
  -- What the store relies on: lines of JSON are not empty and have no line feed, a codec keeps them
  -- so and is reversed by `decode`, a header survives JSON, a message has no `kind`, and the codec
  -- is the one that its name stands for.
  pub record IsReadable : Type 0 where
    pub line-marshal_header : (h : Header) (b : Bytes) → L.marshal_header h ≡ some b → IsLine b
    pub unmarshal-marshal_header :
        (h : Header) (b : Bytes) → L.marshal_header h ≡ some b → L.unmarshal_header b ≡ some h
    pub line-marshal_message :
        (m : SessionMessage) (b : Bytes) → L.marshal_message m ≡ some b → IsLine b
    pub kind-marshal_message :
        (m : SessionMessage) (b : Bytes)
        → L.marshal_message m ≡ some b
        → L.unmarshal_kind b ≡ some ""
    pub line-encode : (n : ℕ) (b l : Bytes) → IsLine b → codec.encode n b ≡ some l → IsLine l
    pub decode-encode : (n : ℕ) (b l : Bytes) → codec.encode n b ≡ some l → codec.decode l ≡ some b
    pub codec_for-name : codec_for L codec codec.name ≡ some codec

  -- The lines hold the messages.
  abbrev pub Encodes : List Bytes → List SessionMessage → Type 0
  Encodes [] [] = Unit
  Encodes [] (m ∷ ms) = ⊥
  Encodes (l ∷ ls) [] = ⊥
  Encodes (l ∷ ls) (m ∷ ms) = IsLine l × (decode_message L codec codec l ≡ some m) × Encodes ls ms

  pub NoNewline-Encodes :
      (ls : List Bytes) (ms : List SessionMessage) → Encodes ls ms → All NoNewline ls
  NoNewline-Encodes [] [] h = tt
  NoNewline-Encodes [] (m ∷ ms) h = absurd h
  NoNewline-Encodes (l ∷ ls) [] h = absurd h
  NoNewline-Encodes (l ∷ ls) (m ∷ ms) (a, b, h) = (NoNewline-IsLine l a, NoNewline-Encodes ls ms h)

  pub length-Encodes :
      (ls : List Bytes) (ms : List SessionMessage) → Encodes ls ms → length ls ≡ length ms
  length-Encodes [] [] h = refl
  length-Encodes [] (m ∷ ms) h = absurd h
  length-Encodes (l ∷ ls) [] h = absurd h
  length-Encodes (l ∷ ls) (m ∷ ms) (a, b, h) = ap suc (length-Encodes ls ms h)

  pub Encodes-append :
      (ls ls' : List Bytes) (ms ms' : List SessionMessage)
      → Encodes ls ms
      → Encodes ls' ms'
      → Encodes (ls ++ ls') (ms ++ ms')
  Encodes-append [] ls' [] ms' h k = k
  Encodes-append [] ls' (m ∷ ms) ms' h k = absurd h
  Encodes-append (l ∷ ls) ls' [] ms' h k = absurd h
  Encodes-append (l ∷ ls) ls' (m ∷ ms) ms' (a, b, h) k = (a, b, Encodes-append ls ls' ms ms' h k)

  pub decode_lines-Encodes :
      (ls : List Bytes) (ms : List SessionMessage)
      → Encodes ls ms
      → decode_lines L codec codec (ls ++ ([] ∷ [])) ≡ some ms
  unfolding decode_lines
  decode_lines-Encodes [] [] h = refl
  decode_lines-Encodes [] (m ∷ ms) h = absurd h
  decode_lines-Encodes (l ∷ ls) [] h = absurd h
  decode_lines-Encodes ([] ∷ ls) (m ∷ ms) (a, b, h) = absurd a
  decode_lines-Encodes ((c ∷ cs) ∷ ls) (m ∷ ms) (a, b, h) =
      rw (b, decode_lines-Encodes ls ms h, decode_lines) refl

  module _ (readable : IsReadable) where
    encode_message-IsLine :
        (n : ℕ) (m : SessionMessage) (l : Bytes)
        → ReadsBack L m
        → encode_message L codec n m ≡ some l
        → IsLine l × (decode_message L codec codec l ≡ some m)
    unfolding encode_message decode_message
    encode_message-IsLine n m l back h = elim (Option-cases (L.marshal_message m)) [
      | inl e ↦ absurd (ground (arith, e))
      | inr (b, e) ↦
          let encoded : codec.encode n b ≡ some l = ground (arith, e) in
          (
            readable.line-encode n b l (readable.line-marshal_message m b e) encoded,
            rw
                (
                  readable.decode-encode n b l encoded,
                  readable.kind-marshal_message m b e,
                  back b e,
                  decode_message,
                )
                refl,
          )
    ]

    pub write_messages-Encodes :
        (ms : List SessionMessage) (n : ℕ)
        → All (ReadsBack L) ms
        → (write_messages L codec ms n).1 ≡ true
        → Encodes (write_messages L codec ms n).0 ms
    unfolding write_messages
    write_messages-Encodes [] n all h = tt
    write_messages-Encodes (m ∷ ms) n (back, all) h =
        elim (Option-cases (encode_message L codec n m)) [
          | inl e ↦ absurd (ground (arith, e))
          | inr (l, e) ↦
              let (a, b) = encode_message-IsLine n m l back e in
              rw (e, write_messages)
                (a, b, write_messages-Encodes ms (n + 1) all (ground (arith, e)))
        ]

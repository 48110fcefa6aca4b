-- ===== src/Session/Encrypting/Keys.antt =====
-- session/codec_encrypt.go: the keys that are loaded.
use korai_sdk_go.Prelude.{
  ◌≡◌, ◌≢◌, refl, ◌∙◌, Option, none, some, length, arith, inl, inr, ◌⊎◌, ◌↔◌, Bool-cases,
}
use korai_sdk_go.Session.FileStore.{Bytes}
use korai_sdk_go.Stream.{Text, is_blank, trim_space}
use korai_sdk_go.Session.Encrypting.{
  Crypto, Decoders, KeyFile, no_file, unreadable_file, key_file, KeyResult, ok, failed, key_length,
  KeyError, content_key_len, accepted, decode_key, key_from_file, load_content_key,
  new_encrypting_codec, present,
}

-- The text is no encoding of a key in one of the formats.
abbrev pub NoKey : (Text → Option Bytes) → Text → Type 0
NoKey decoder s = (k : Bytes) → decoder s ≡ some k → length k ≢ content_key_len

accepted-ok :
    (o : Option Bytes) (rest : KeyResult Bytes) (k : Bytes)
    → accepted o rest ≡ ok k
    → ((o ≡ some k) × (length k ≡ content_key_len)) ⊎ (rest ≡ ok k)
unfolding accepted
accepted-ok none rest k h = inr h
accepted-ok (some j) rest k h = ground (arith, h)

accepted-failed :
    (o : Option Bytes) (rest : KeyResult Bytes) (e : KeyError)
    → accepted o rest ≡ failed e
    → ((k : Bytes) → o ≡ some k → length k ≢ content_key_len) × (rest ≡ failed e)
unfolding accepted
accepted-failed none rest e h = (λ k q. ground (arith, q), h)
accepted-failed (some j) rest e h = (λ k q. ground (arith, q, h), ground (arith, h))

accepted-NoKey :
    (o : Option Bytes) (rest : KeyResult Bytes)
    → ((k : Bytes) → o ≡ some k → length k ≢ content_key_len)
    → accepted o rest ≡ rest
unfolding accepted
accepted-NoKey none rest no_key = refl
accepted-NoKey (some k) rest no_key = ground (arith, no_key k refl)

ok-length :
    (o : Option Bytes) (rest : KeyResult Bytes)
    → ((k : Bytes) → rest ≡ ok k → length k ≡ content_key_len)
    → (k : Bytes) → accepted o rest ≡ ok k
    → length k ≡ content_key_len
ok-length o rest later k h = elim (accepted-ok o rest k h) [ inl (q, n) ↦ n | inr q ↦ later k q ]

decode_key-length :
    (D : Decoders) (s : Text) (k : Bytes) → decode_key D s ≡ ok k → length k ≡ content_key_len
unfolding decode_key
decode_key-length D s = ok-length (D.hex s) _ (
    ok-length (D.std s) _ (
      ok-length (D.raw_std s) _
        (ok-length (D.url s) _ (ok-length (D.raw_url s) _ (λ k h. absurd (ground (arith, h)))))))

-- A text is refused as a key exactly if no format reads 32 bytes from it.
pub decode_key_failed_iff :
    (D : Decoders) (s : Text)
    → (decode_key D s ≡ failed key_length)
      ↔ (NoKey D.hex s × NoKey D.std s × NoKey D.raw_std s × NoKey D.url s × NoKey D.raw_url s)
unfolding decode_key
decode_key_failed_iff D s = (
  λ h. none_reads h,
  λ (a, b, c, d, e).
      accepted-NoKey _ _ a
      ∙ accepted-NoKey _ _ b
      ∙ accepted-NoKey _ _ c
      ∙ accepted-NoKey _ _ d
      ∙ accepted-NoKey _ _ e,
)
  where
    none_reads :
        decode_key D s ≡ failed key_length
        → NoKey D.hex s × NoKey D.std s × NoKey D.raw_std s × NoKey D.url s × NoKey D.raw_url s
    none_reads h =
        let (a, h1) = accepted-failed (D.hex s) _ _ h in
        let (b, h2) = accepted-failed (D.std s) _ _ h1 in
        let (c, h3) = accepted-failed (D.raw_std s) _ _ h2 in
        let (d, h4) = accepted-failed (D.url s) _ _ h3 in
        (a, b, c, d, (accepted-failed (D.raw_url s) _ _ h4).0)

present-some : (r : KeyResult Bytes) (k : Bytes) → present r ≡ ok (some k) → r ≡ ok k
present-some (ok j) k h = ground (arith, h)
present-some (failed e) k h = absurd (ground (arith, h))

pub load_content_key-length :
    (D : Decoders) (env : Text) (f : KeyFile) (k : Bytes)
    → load_content_key D env f ≡ ok (some k)
    → length k ≡ content_key_len
unfolding load_content_key key_from_file
load_content_key-length D env f k h = elim (Bool-cases (is_blank (trim_space env))) [
  | inr e ↦
      decode_key-length D (trim_space env) k (present-some _ k (rw (e, load_content_key) at h))
  | inl e ↦ from f (rw (e, load_content_key) at h)
]
  where
    from : (f : KeyFile) → key_from_file D f ≡ ok (some k) → length k ≡ content_key_len
    from no_file h = absurd (ground (arith, h))
    from unreadable_file h = absurd (ground (arith, h))
    from (key_file c) h = decode_key-length D (trim_space c) k (present-some _ k h)

-- A key that is loaded, from the environment or from the file, is one that the encrypting codec
-- accepts: it is made unless the cipher itself fails.
pub new_encrypting_codec-load_content_key :
    (R : Crypto) (D : Decoders) (env : Text) (f : KeyFile) (k : Bytes)
    → load_content_key D env f ≡ ok (some k)
    → new_encrypting_codec R k ≢ failed key_length
unfolding new_encrypting_codec
new_encrypting_codec-load_content_key R D env f k h =
    let n = load_content_key-length D env f k h in λ q. ground (arith, n, q)

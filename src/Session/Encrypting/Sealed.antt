-- ===== src/Session/Encrypting/Sealed.antt =====
-- session/codec_encrypt.go: what is encoded, decodes.
use korai_sdk_go.Prelude.{
  ℕ, ◌≡◌, refl, ap, sym, ◌∙◌, false, true, some, ◌++◌, drop-length-append, length, length-append,
  ltb, take-length-append, arith, eq_refl, Option-cases, inl, inr,
}
use korai_sdk_go.Session.{Session}
use korai_sdk_go.Session.FileStore.{Bytes}
use korai_sdk_go.Session.SqliteStore.{Engine, RowLibrary, Database, codec_for, save, load}
use korai_sdk_go.Session.SqliteStore.Rows.{stored, ReadsBack, IsReadable}
use korai_sdk_go.Session.SqliteStore.Refined.{IsAtomic, IsOpen, save-IsOpen}
use korai_sdk_go.Session.Encrypting.{Aead, Crypto, encode, decode, encrypting_codec}

module _ (R : Crypto) (a : Aead) where
  -- What the codec relies on: `Open` reverses `Seal` under the same nonce, base64 is read back as
  -- written, and the random source fills its buffer.
  pub record IsSound : Type 0 where
    pub open_sealed-seal :
        (nonce b : Bytes)
        → length nonce ≡ a.nonce_size
        → a.open_sealed nonce (a.seal nonce b) ≡ some b
    pub decode-encode_base64 : (b : Bytes) → R.base64_decode (R.base64_encode b) ≡ some b
    pub length-random : (n k : ℕ) (nonce : Bytes) → R.random n k ≡ some nonce → length nonce ≡ k

  module _ (sound : IsSound) where
    decode-sealed :
        (nonce b : Bytes)
        → length nonce ≡ a.nonce_size
        → decode R a (R.base64_encode (nonce ++ a.seal nonce b)) ≡ some b
    unfolding decode
    decode-sealed nonce b n =
        let enough : ltb (length (nonce ++ a.seal nonce b)) a.nonce_size ≡ false =
          ground (arith, n, length-append nonce (a.seal nonce b)) in
        rw
          (
            sound.decode-encode_base64 (nonce ++ a.seal nonce b),
            enough,
            sym n,
            take-length-append nonce (a.seal nonce b),
            drop-length-append nonce (a.seal nonce b),
            decode,
          )
          (sound.open_sealed-seal nonce b n)

    -- With a sound cipher, base64 and random source, an entry that is encoded decodes to itself,
    -- whichever nonce was drawn.
    pub decode-encode : (n : ℕ) (b c : Bytes) → encode R a n b ≡ some c → decode R a c ≡ some b
    unfolding encode
    decode-encode n b c h = elim (Option-cases (R.random n a.nonce_size)) [
      | inl e ↦ absurd (ground (arith, e, h))
      | inr (nonce, e) ↦
          let q : some (R.base64_encode (nonce ++ a.seal nonce b)) ≡ some c = rw (e, encode) at h in
          let same : R.base64_encode (nonce ++ a.seal nonce b) ≡ c = cc q in
          ap (decode R a) (sym same)
          ∙ decode-sealed nonce b (sound.length-random n a.nonce_size nonce e)
    ]

    encrypting-IsReadable : (L : RowLibrary) → IsReadable L (encrypting_codec R a)
    unfolding codec_for
    encrypting-IsReadable L = record { decode-encode = decode-encode; codec_for-name = refl }

    -- A session that is saved with success to an open SQLite store with this codec, where the
    -- cipher, base64 and the random source are sound, statements are atomic, and the JSON and the
    -- times of the session are read back as written, is loaded as it was saved, but for the time of
    -- creation of the one stored before.
    pub load-save_encrypted :
        (L : RowLibrary) (E : Engine) (x : Session) (s : Database E)
        → ReadsBack L x
        → IsAtomic E
        → IsOpen L (encrypting_codec R a) E s.db
        → (save L (encrypting_codec R a) E x s).0 ≡ true
        → load L (encrypting_codec R a) E (save L (encrypting_codec R a) E x s).1 x.id
          ≡ some (stored x (load L (encrypting_codec R a) E s x.id))
    load-save_encrypted L E x s back atomic o ok =
        (save-IsOpen L (encrypting_codec R a) E (encrypting-IsReadable L) atomic x s back o).1 x.id
        ∙ rw (ok, eq_refl x.id) refl

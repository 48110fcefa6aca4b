-- ===== src/Session/Encrypting.antt =====
-- session/codec_encrypt.go: the codec that encrypts each entry, and the key that it is given.
-- The cipher, the random source, base64 and hex are parameters, `none` for an error.
pub mod Sealed
pub mod Keys
use korai_sdk_go.Prelude.{
  ℕ, String, Option, none, some, List, [], ◌∷◌, ◌++◌, not, drop, length, ltb, nat_eq, take,
  if◌then◌else◌,
}
use korai_sdk_go.Session.FileStore.{Bytes, Codec}
use korai_sdk_go.Stream.{Text, is_blank, trim_space}

-- `cipher.AEAD`; `seal nonce plaintext`, without additional data.
pub record Aead : Type 0 where
  pub nonce_size : ℕ
  pub seal : Bytes → Bytes → Bytes
  pub open_sealed : Bytes → Bytes → Option Bytes

-- `new_gcm` is `aes.NewCipher` and `cipher.NewGCM`; `random n k` reads `k` bytes in the n-th call.
pub record Crypto : Type 0 where
  pub new_gcm : Bytes → Option Aead
  pub random : ℕ → ℕ → Option Bytes
  pub base64_encode : Bytes → Bytes
  pub base64_decode : Bytes → Option Bytes

abbrev pub content_key_len : ℕ
content_key_len = 32

abbrev pub encrypting_codec_name : String
encrypting_codec_name = "aes256gcm-folder-v1"

pub data KeyError : Type 0 where
  key_length cipher_failed file_failed : KeyError

pub data KeyResult (A : Type 0) : Type 0 where
  ok : A → KeyResult A
  failed : KeyError → KeyResult A

module _ (R : Crypto) where
  unfoldable pub encode : Aead → ℕ → Bytes → Option Bytes
  encode a n plaintext = elim (R.random n a.nonce_size) [
    | none ↦ none
    | some nonce ↦ some (R.base64_encode (nonce ++ a.seal nonce plaintext))
  ]

  unfoldable pub decode : Aead → Bytes → Option Bytes
  decode a stored = elim (R.base64_decode stored) [
    | none ↦ none
    | some blob ↦
        if ltb (length blob) a.nonce_size
        then none
        else a.open_sealed (take a.nonce_size blob) (drop a.nonce_size blob)
  ]

  abbrev pub encrypting_codec : Aead → Codec
  encrypting_codec a = record { name = encrypting_codec_name; encode = encode a; decode = decode a }

  unfoldable pub new_encrypting_codec : Bytes → KeyResult Codec
  new_encrypting_codec key =
      if not (nat_eq (length key) content_key_len)
      then failed key_length
      else elim (R.new_gcm key) [ none ↦ failed cipher_failed | some a ↦ ok (encrypting_codec a) ]

-- `hex`, then standard and URL-safe base64 with and without padding.
pub record Decoders : Type 0 where
  pub hex : Text → Option Bytes
  pub std : Text → Option Bytes
  pub raw_std : Text → Option Bytes
  pub url : Text → Option Bytes
  pub raw_url : Text → Option Bytes

unfoldable pub accepted : Option Bytes → KeyResult Bytes → KeyResult Bytes
accepted none rest = rest
accepted (some k) rest = if nat_eq (length k) content_key_len then ok k else rest

unfoldable pub decode_key : Decoders → Text → KeyResult Bytes
unfolding accepted
decode_key D s = accepted (D.hex s) (
    accepted (D.std s)
      (accepted (D.raw_std s) (accepted (D.url s) (accepted (D.raw_url s) (failed key_length)))))

-- Reading the key file.
pub data KeyFile : Type 0 where
  no_file unreadable_file : KeyFile
  key_file : Text → KeyFile

abbrev pub present : KeyResult Bytes → KeyResult (Option Bytes)
present (ok k) = ok (some k)
present (failed e) = failed e

unfoldable pub key_from_file : Decoders → KeyFile → KeyResult (Option Bytes)
unfolding decode_key
key_from_file D no_file = ok none
key_from_file D unreadable_file = failed file_failed
key_from_file D (key_file content) = present (decode_key D (trim_space content))

-- The value of KORAI_SYNC_KEY, "" if it is not set, then the file. `ok none` is no key.
unfoldable pub load_content_key : Decoders → Text → KeyFile → KeyResult (Option Bytes)
unfolding decode_key key_from_file
load_content_key D env on_disk =
    if not (is_blank (trim_space env))
    then present (decode_key D (trim_space env))
    else key_from_file D on_disk
